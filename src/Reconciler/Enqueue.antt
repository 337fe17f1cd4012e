-- ===== src/Reconciler/Enqueue.antt =====
-- Every assignment of a session that is wanted revoked gets a job that revokes it.
use z_wireguard_vpn.Common.{
  ℕ, ◌≡◌, ◌≢◌, ◌∙◌, refl, Bool, true, false, not, ◌&&◌, ◌||◌, none, List, [], ◌∷◌, ◌++◌, arith,
  ◌==◌, leb, is_some, find?, All, any, inl, inr, Bool-cases,
}
use z_wireguard_vpn.Common.Table.{row, update_where, All-update_where, All-Unit}
use z_wireguard_vpn.Assignment.{
  Assignment, GateAssignmentPhase, GateAssignmentDesiredState, has_phase, is_desired_applied,
}
use z_wireguard_vpn.Assignment.Store.{
  update_assignment_desired_state, mark_assignment_revoking, set_desired, set_phase,
  has_assignment_id,
}
use z_wireguard_vpn.Assignment.Service.{request_assignment_revocation}
use z_wireguard_vpn.Job.{Job, JobPhase, FleetDb, is_open_job, is_succeeded}
use z_wireguard_vpn.Job.Store.{
  has_open_revoke, has_succeeded_revoke, is_revoke_job_of, insert_revoke_assignment_job, revoke_job,
}
use z_wireguard_vpn.Job.Service.{enqueue_revoke_assignment_job}
use z_wireguard_vpn.Job.Queue.{enqueue_revoke_assignment_job-twice}
use z_wireguard_vpn.Reconciler.{ControlDb}
use z_wireguard_vpn.Reconciler.Assignments.{
  revoke_input, revoke_each, list_assignments_to_revoke, enqueue_revocation_jobs_for_assignments,
}

-- An assignment is wanted revoked, and has a job that does it: one that is open, or one that succeeded
-- since the assignment was changed last.
pub record IsBeingRevoked (assignment_id : ℕ) (fleet : FleetDb) : Type 0 where
  pub wanted :
      All (λ a. a.id ≡ assignment_id → is_desired_applied a.desired_state ≡ false) fleet.assignments
  pub has_job :
      (has_open_revoke assignment_id fleet || has_succeeded_revoke assignment_id fleet) ≡ true

any-append_left : (p : Job → Bool) (xs ys : List Job) → any p xs ≡ true → any p (xs ++ ys) ≡ true
any-append_left p [] ys e = ground arith
any-append_left p (x ∷ xs) ys e = ground (arith, any-append_left p xs ys)

-- A change of assignments that do not have an id is not seen at it.
any-update_other :
    (id created : ℕ) (p : Assignment → Bool) (f : Assignment → Assignment) (xs : List Assignment)
    → ((a : Assignment) → p a ≡ true → a.id ≢ id)
    → ((a : Assignment) → Assignment.id (f a) ≡ a.id)
    → any (λ a. a.id == id && leb a.updated_at created) (update_where p f xs)
      ≡ any (λ a. a.id == id && leb a.updated_at created) xs
any-update_other id created p f [] ne same = refl
any-update_other id created p f (x ∷ xs) ne same =
    ground (arith, same x, ne x, any-update_other id created p f xs ne same)

any-cong : (p q : Job → Bool) (xs : List Job) → ((j : Job) → p j ≡ q j) → any p xs ≡ any q xs
any-cong p q [] same = refl
any-cong p q (x ∷ xs) same = ground (arith, same x, any-cong p q xs)

requested_wanted :
    (now k id : ℕ) (xs : List Assignment)
    → ((k == id) ≡ false → All (λ a. a.id ≡ id → is_desired_applied a.desired_state ≡ false) xs)
    → All
        (λ a. a.id ≡ id → is_desired_applied a.desired_state ≡ false)
        (request_assignment_revocation now k xs)
unfolding request_assignment_revocation mark_assignment_revoking update_assignment_desired_state
requested_wanted now k id xs h =
    let P : Assignment → Type 0 = λ a. a.id ≡ id → is_desired_applied a.desired_state ≡ false in
    let changed : All P (
        update_where (has_assignment_id k) (set_desired now GateAssignmentDesiredState.revoked true)
          xs) =
      elim (Bool-cases (k == id)) [
        | inl here ↦
            All-update_where (λ a. Unit {0}) P (has_assignment_id k)
              (set_desired now GateAssignmentDesiredState.revoked true) (λ a t u q. refl)
              (λ a t u q. ground arith) xs (All-Unit xs)
        | inr other ↦
            All-update_where P P (has_assignment_id k)
              (set_desired now GateAssignmentDesiredState.revoked true) (λ a t q r. refl)
              (λ a t q. q) xs (h other)
      ] in
    All-update_where P P
      (λ a. has_assignment_id k a && not (has_phase a.phase GateAssignmentPhase.revoked))
      (set_phase GateAssignmentPhase.revoking) (λ a t q. q) (λ a t q. q) _ changed

requested_other :
    (now k id created : ℕ) (xs : List Assignment)
    → (k == id) ≡ false
    → any (λ a. a.id == id && leb a.updated_at created) (request_assignment_revocation now k xs)
      ≡ any (λ a. a.id == id && leb a.updated_at created) xs
unfolding request_assignment_revocation mark_assignment_revoking update_assignment_desired_state
requested_other now k id created xs ne =
    any-update_other id created
      (λ a. has_assignment_id k a && not (has_phase a.phase GateAssignmentPhase.revoked))
      (set_phase GateAssignmentPhase.revoking) _ (λ a t. ground arith) (λ a. refl)
    ∙ any-update_other id created (has_assignment_id k)
        (set_desired now GateAssignmentDesiredState.revoked true) xs (λ a t. ground arith)
        (λ a. refl)

-- Enqueueing a job keeps the jobs that are there.
enqueue-kept :
    (now k id : ℕ) (a : Assignment) (fleet : FleetDb)
    → (has_open_revoke id fleet || has_succeeded_revoke id fleet) ≡ true
    → let fleet' = enqueue_revoke_assignment_job now (revoke_input a) fleet in
      (has_open_revoke id fleet' || has_succeeded_revoke id fleet') ≡ true
unfolding enqueue_revoke_assignment_job insert_revoke_assignment_job
enqueue-kept now k id a fleet h =
    let j = revoke_job now (revoke_input a) JobPhase.queued fleet in
    ground (
      arith,
      any-append_left (λ i. is_revoke_job_of id i && is_open_job i.phase) fleet.jobs (j ∷ []),
      any-append_left
          (λ i.
            is_revoke_job_of id i
            && (is_succeeded i.phase
                && any (λ (b : Assignment). b.id == id && leb b.updated_at i.created_at)
                    fleet.assignments))
          fleet.jobs (j ∷ []),
    )

pub enqueue-assignments :
    (now : ℕ) (a : Assignment) (fleet : FleetDb)
    → (enqueue_revoke_assignment_job now (revoke_input a) fleet).assignments ≡ fleet.assignments
unfolding enqueue_revoke_assignment_job insert_revoke_assignment_job
enqueue-assignments now a fleet = ground arith

-- One step of the loop has its assignment revoked, and every other one that is stays so.
step-IsBeingRevoked :
    (now id : ℕ) (a : Assignment) (fleet : FleetDb)
    → ((a.id == id) ≡ false → IsBeingRevoked id fleet)
    → IsBeingRevoked id (
        enqueue_revoke_assignment_job now
          (revoke_input a)
          (record fleet { assignments = request_assignment_revocation now a.id fleet.assignments }))
step-IsBeingRevoked now id a fleet h =
    let asked = record fleet {
      assignments = request_assignment_revocation now a.id fleet.assignments;
    } in
    let same = enqueue-assignments now a asked in
    let wanted = requested_wanted now a.id id fleet.assignments (λ other. (h other).wanted) in
    record {
      wanted = rw same wanted;
      has_job = elim (Bool-cases (a.id == id)) [
        | inl here ↦
            let eq : a.id ≡ id = ground arith in
            rw (← eq) ((enqueue_revoke_assignment_job-twice now now (revoke_input a) asked).1)
        | inr other ↦
            let cong =
              any-cong
                (λ j.
                  is_revoke_job_of id j
                  && (is_succeeded j.phase
                      && any (λ (b : Assignment). b.id == id && leb b.updated_at j.created_at)
                          asked.assignments))
                (λ j.
                  is_revoke_job_of id j
                  && (is_succeeded j.phase
                      && any (λ (b : Assignment). b.id == id && leb b.updated_at j.created_at)
                          fleet.assignments))
                fleet.jobs
                (λ j. rw (requested_other now a.id id j.created_at fleet.assignments other) refl) in
            enqueue-kept now a.id id a asked (rw cong (h other).has_job)
      ];
    }

pub revoke_each-IsBeingRevoked :
    (now id : ℕ) (as' : List Assignment) (fleet : FleetDb)
    → (find? (λ a. a.id == id) as' ≡ none → IsBeingRevoked id fleet)
    → IsBeingRevoked id (revoke_each now as' fleet)
unfolding revoke_each
revoke_each-IsBeingRevoked now id [] fleet h = h refl
revoke_each-IsBeingRevoked now id (a ∷ as') fleet h =
    revoke_each-IsBeingRevoked now id as' _
      (λ rest. step-IsBeingRevoked now id a fleet (λ other. h (ground arith)))

-- After a run of the controller every assignment that it listed, and every one that was so before, is
-- wanted revoked and has a job that revokes it: an open one, or one that succeeded since the
-- assignment was changed last.
pub enqueue_revocation_jobs_for_assignments_lem :
    (now id : ℕ) (db : ControlDb)
    → (is_some (row Assignment.id id (list_assignments_to_revoke db)) ≡ false
        → IsBeingRevoked id db.fleet)
    → IsBeingRevoked id (enqueue_revocation_jobs_for_assignments now db).fleet
unfolding enqueue_revocation_jobs_for_assignments
enqueue_revocation_jobs_for_assignments_lem now id db h =
    revoke_each-IsBeingRevoked now id (list_assignments_to_revoke db) db.fleet
      (λ none_found. h (ground arith))
