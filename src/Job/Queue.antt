-- ===== src/Job/Queue.antt =====
-- The upkeep of the queue: enqueueing a job once, requeueing expired leases, and giving up the jobs of
-- a failed session.
use z_wireguard_vpn.Common.{
  ℕ, ◌≡◌, ◌<◌, ◌⊎◌, refl, Bool, true, false, ◌&&◌, ◌||◌, List, [], ◌∷◌, ◌++◌, arith, All, any, inl,
  inr, Bool-cases, Option-cases, none, some,
}
use z_wireguard_vpn.Common.Table.{row, row-update_any, All-Unit, All-update_where}
use z_wireguard_vpn.Job.{Job, JobPhase, FleetDb, is_open_job, is_leased_job}
use z_wireguard_vpn.Job.Store.{
  is_apply_job, is_revoke_job_of, EnqueueApplyJobInput, EnqueueRevokeAssignmentJobInput,
  insert_apply_assignment_job, insert_revoke_assignment_job, apply_job, revoke_job, has_open_apply,
  has_open_revoke, has_succeeded_apply, has_succeeded_revoke, is_expired, set_released,
  is_open_apply_of_session, mark_apply_jobs_phase_for_session, update_expired_job_lease_phases,
}
use z_wireguard_vpn.Job.Service.{
  enqueue_apply_job, enqueue_revoke_assignment_job, requeue_expired_job_leases,
  mark_apply_jobs_dead_for_session,
}

any-append : (p : Job → Bool) (xs : List Job) (x : Job) → p x ≡ true → any p (xs ++ x ∷ []) ≡ true
any-append p [] x e = ground arith
any-append p (y ∷ ys) x e = ground (arith, any-append p ys x e)

-- Enqueueing the job of an assignment and an operation again, at any time, adds no second job; and
-- after the first time there is an open job, or one that succeeded and still serves the assignment.
pub enqueue_apply_job-twice :
    (now now' : ℕ) (input : EnqueueApplyJobInput) (db : FleetDb)
    → let db' = enqueue_apply_job now input db in
      (enqueue_apply_job now' input db' ≡ db')
      × ((has_open_apply input.assignment_id input.operation db'
            || has_succeeded_apply input.assignment_id input.operation db')
          ≡ true)
unfolding enqueue_apply_job insert_apply_assignment_job
enqueue_apply_job-twice now now' input db =
    let j = apply_job now input JobPhase.queued db in
    let added =
      any-append (λ k. is_apply_job input.assignment_id input.operation k && is_open_job k.phase)
        db.jobs j (ground arith) in
    let kept =
      has_open_apply input.assignment_id input.operation db
      || has_succeeded_apply input.assignment_id input.operation db in
    elim (Bool-cases kept) [
      | inl serves ↦ (ground arith, ground arith)
      | inr new ↦ (ground arith, ground arith)
    ]

-- Enqueueing the revocation of an assignment again, at any time, adds no second job; and after the
-- first time there is an open job, or one that succeeded since the assignment was changed last.
pub enqueue_revoke_assignment_job-twice :
    (now now' : ℕ) (input : EnqueueRevokeAssignmentJobInput) (db : FleetDb)
    → let db' = enqueue_revoke_assignment_job now input db in
      (enqueue_revoke_assignment_job now' input db' ≡ db')
      × ((has_open_revoke input.assignment_id db' || has_succeeded_revoke input.assignment_id db')
          ≡ true)
unfolding enqueue_revoke_assignment_job insert_revoke_assignment_job
enqueue_revoke_assignment_job-twice now now' input db =
    let j = revoke_job now input JobPhase.queued db in
    let added =
      any-append (λ k. is_revoke_job_of input.assignment_id k && is_open_job k.phase) db.jobs j
        (ground arith) in
    let kept =
      has_open_revoke input.assignment_id db || has_succeeded_revoke input.assignment_id db in
    elim (Bool-cases kept) [
      | inl serves ↦ (ground arith, ground arith)
      | inr new ↦ (ground arith, ground arith)
    ]

-- The lease of a job ran out before now.
abbrev pub HasLapsed : ℕ → Job → Type 0
HasLapsed now j =
    ((j.phase ≡ JobPhase.leased) ⊎ (j.phase ≡ JobPhase.running))
    × (t : ℕ) × (j.lease_expires_at ≡ some t)
    × (t < now)

leased_phase :
    (p : JobPhase) → is_leased_job p ≡ true → (p ≡ JobPhase.leased) ⊎ (p ≡ JobPhase.running)
leased_phase JobPhase.leased e = inl refl
leased_phase JobPhase.running e = inr refl
leased_phase _ e = ground arith

is_expired-HasLapsed : (now : ℕ) (j : Job) → is_expired now j ≡ true → HasLapsed now j
is_expired-HasLapsed now j e = elim (Option-cases j.lease_expires_at) [
  | inl endless ↦ ground arith
  | inr (t, ends) ↦ (leased_phase j.phase (ground arith), t, ends, ground arith)
]

HasLapsed-is_expired : (now : ℕ) (j : Job) → HasLapsed now j → is_expired now j ≡ true
HasLapsed-is_expired now j h =
    let (held, t, ends, over) = h in
    elim held [ inl leased ↦ ground arith | inr running ↦ ground arith ]

unexpired-HasLapsed : (now : ℕ) (j : Job) → is_expired now j ≡ false → ¬ HasLapsed now j
unexpired-HasLapsed now j e = λ h. let e' = HasLapsed-is_expired now j h in ground arith

-- A requeue queues exactly the jobs whose leases ran out, without an owner and an end of the lease, and
-- without counting a try: all else of such a job stays, as does every other job. No job with a lease that
-- ran out is left.
pub requeue_expired_job_leases_lem :
    (now : ℕ) (db : FleetDb) (id : ℕ)
    → let db' = requeue_expired_job_leases now db in
      ((j : Job)
        → row Job.id id db.jobs ≡ some j
        → (HasLapsed now j
            × (row Job.id id db'.jobs
                ≡ some (record j {
                  phase = JobPhase.queued;
                  lease_owner = none;
                  lease_expires_at = none;
                  updated_at = now;
                })))
          ⊎ (¬ HasLapsed now j × (row Job.id id db'.jobs ≡ some j)))
      × (row Job.id id db.jobs ≡ none → row Job.id id db'.jobs ≡ none)
      × All (λ j. ¬ HasLapsed now j) db'.jobs
unfolding requeue_expired_job_leases update_expired_job_lease_phases
requeue_expired_job_leases_lem now db id =
    let after =
      row-update_any Job.id id (is_expired now) (set_released now JobPhase.queued) (λ x. refl)
        db.jobs in
    (
      (λ j found. elim (Bool-cases (is_expired now j)) [
        | inl over ↦ inl (is_expired-HasLapsed now j over, ground (arith, after))
        | inr running ↦ inr (unexpired-HasLapsed now j running, ground (arith, after))
      ]),
      (λ missing. ground (arith, after)),
      All-update_where (λ j. Unit {0}) (λ j. ¬ HasLapsed now j) (is_expired now)
          (set_released now JobPhase.queued)
          (λ j hit u. unexpired-HasLapsed now (set_released now JobPhase.queued j) refl)
          (λ j miss u. unexpired-HasLapsed now j miss) db.jobs (All-Unit db.jobs),
    )

-- After the failure of a session none of its apply jobs is open, so no gate can claim one.
pub mark_apply_jobs_dead_for_session_lem :
    (now session_id : ℕ) (db : FleetDb)
    → All
        (λ j. is_open_apply_of_session session_id j ≡ false)
        (mark_apply_jobs_dead_for_session now session_id db).jobs
unfolding mark_apply_jobs_dead_for_session mark_apply_jobs_phase_for_session
mark_apply_jobs_dead_for_session_lem now session_id db =
    All-update_where (λ j. Unit {0}) (λ j. is_open_apply_of_session session_id j ≡ false)
      (is_open_apply_of_session session_id) (set_released now JobPhase.dead)
      (λ j hit u. ground arith) (λ j miss u. miss) db.jobs (All-Unit db.jobs)
