-- ===== src/Reconciler/Failure.antt =====
-- What the timeout of a provisioning leaves behind.
use z_wireguard_vpn.Common.{
  ℕ, ◌+◌, ◌≤◌, ◌≡◌, ◌⊎◌, refl, Bool, true, false, not, ◌&&◌, none, some, String, List, [], ◌∷◌,
  arith, ◌==◌, is_some, map_option, count, filter, All, inl, inr, Option-cases, Bool-cases, ltb,
}
use z_wireguard_vpn.Common.Table.{row, row-update_where, All-update_where, All-Unit}
use z_wireguard_vpn.Common.Table.Select.{row-select}
use z_wireguard_vpn.Session.{
  Session, failed, provisioning, ErrorBody, failed_transition, phase_eq, is_desired_active,
}
use z_wireguard_vpn.Session.Store.{
  mark_session_failed, set_failed, list_timed_out_provisioning_sessions,
}
use z_wireguard_vpn.Assignment.{
  Assignment, AssignmentError, GateAssignmentPhase, is_provisioning_failure_dead_candidate,
  has_phase,
}
use z_wireguard_vpn.Assignment.Store.{
  mark_pending_assignments_phase_for_session, set_phase_error, list_session_assignments,
}
use z_wireguard_vpn.Assignment.Service.{mark_pending_assignments_dead_for_session}
use z_wireguard_vpn.Job.{JobPhase, FleetDb}
use z_wireguard_vpn.Job.Store.{
  mark_apply_jobs_phase_for_session, is_open_apply_of_session, set_released,
}
use z_wireguard_vpn.Job.Service.{mark_apply_jobs_dead_for_session}
use z_wireguard_vpn.Reconciler.{ControlDb}
use z_wireguard_vpn.Reconciler.Sessions.{
  fail_timed_out_session, fail_timed_out_each, fail_timed_out_provisioning_sessions,
}
use z_wireguard_vpn.Reconciler.Revocation.{IsCleared, clear-IsCleared}

-- No gate is asked to apply a session any more.
pub record IsQuiet (session_id : ℕ) (fleet : FleetDb) : Type 0 where
  pub no_job : All (λ j. is_open_apply_of_session session_id j ≡ false) fleet.jobs
  pub no_pending :
      All
        (λ a. a.session_id ≡ session_id → is_provisioning_failure_dead_candidate a.phase ≡ false)
        fleet.assignments

-- Giving up a session's jobs and assignments quiets it, and keeps every quiet session quiet.
mark_apply_jobs_dead_for_session-IsQuiet :
    (now session_id j : ℕ) (e : AssignmentError) (fleet : FleetDb)
    → ((session_id == j) ≡ false → IsQuiet j fleet)
    → let jobs_dead = mark_apply_jobs_dead_for_session now session_id fleet in
      IsQuiet j (record jobs_dead {
        assignments = mark_pending_assignments_dead_for_session session_id e jobs_dead.assignments;
      })
unfolding mark_apply_jobs_dead_for_session mark_apply_jobs_phase_for_session
    mark_pending_assignments_dead_for_session mark_pending_assignments_phase_for_session
mark_apply_jobs_dead_for_session-IsQuiet now session_id j e fleet h =
    let p : Assignment → Bool =
      λ a. a.session_id == session_id && is_provisioning_failure_dead_candidate a.phase in
    elim (Bool-cases (session_id == j)) [
      | inl here ↦
          let same : session_id ≡ j = ground arith in
          rw (← same) (record {
            no_job =
                All-update_where (λ i. Unit {0})
                  (λ i. is_open_apply_of_session session_id i ≡ false)
                  (is_open_apply_of_session session_id) (set_released now JobPhase.dead)
                  (λ i t u. ground arith) (λ i t u. t) fleet.jobs (All-Unit fleet.jobs);
            no_pending =
                All-update_where (λ a. Unit {0})
                  (λ a.
                    a.session_id ≡ session_id
                    → is_provisioning_failure_dead_candidate a.phase ≡ false)
                  p (set_phase_error GateAssignmentPhase.dead e) (λ a t u q. refl)
                  (λ a t u q. ground arith) fleet.assignments (All-Unit fleet.assignments);
          })
      | inr other ↦
          let before = h other in
          record {
            no_job =
                All-update_where (λ i. is_open_apply_of_session j i ≡ false)
                  (λ i. is_open_apply_of_session j i ≡ false) (is_open_apply_of_session session_id)
                  (set_released now JobPhase.dead) (λ i t q. ground arith) (λ i t q. q) fleet.jobs
                  before.no_job;
            no_pending =
                All-update_where
                  (λ a. a.session_id ≡ j → is_provisioning_failure_dead_candidate a.phase ≡ false)
                  (λ a. a.session_id ≡ j → is_provisioning_failure_dead_candidate a.phase ≡ false) p
                  (set_phase_error GateAssignmentPhase.dead e) (λ a t q r. refl) (λ a t q. q)
                  fleet.assignments before.no_pending;
          }
    ]

module _ (describe : List Assignment → String) (now : ℕ) where
  fail_timed_out_session-row :
      (id : ℕ) (s : Session) (db : ControlDb) {x : Session}
      → row Session.id id db.sessions ≡ some x
      → let db' = fail_timed_out_session describe now s db in
        (y : Session) × (row Session.id id db'.sessions ≡ some y)
        × ((s.id == id) ≡ true → y.phase ≡ failed)
        × ((s.id == id) ≡ false → y ≡ x)
        × (x.phase ≡ failed → y.phase ≡ failed)
  unfolding fail_timed_out_session mark_session_failed
  fail_timed_out_session-row id s db {x} found =
      let e : ErrorBody = record {
        code = "gate_confirmation_timeout";
        message = describe (
            filter (λ a. not (has_phase a.phase GateAssignmentPhase.applied))
              (list_session_assignments s.id db.fleet.assignments));
      } in
      let f = set_failed now (failed_transition e) in
      let step = row-update_where Session.id s.id id f (λ y. refl) db.sessions in
      elim (Bool-cases (s.id == id)) [
        | inl here ↦ (f x, ground arith, (λ t. refl), (λ t. ground arith), λ q. refl)
        | inr other ↦ (x, ground arith, (λ t. ground arith), (λ t. refl), λ q. q)
      ]

  fail_timed_out_each-row :
      (id : ℕ) (ss : List Session) (db : ControlDb) {x : Session}
      → row Session.id id db.sessions ≡ some x
      → let db' = fail_timed_out_each describe now ss db in
        (y : Session) × (row Session.id id db'.sessions ≡ some y)
        × (is_some (row Session.id id ss) ≡ true → y.phase ≡ failed)
        × (is_some (row Session.id id ss) ≡ false → y ≡ x)
        × (x.phase ≡ failed → y.phase ≡ failed)
  unfolding fail_timed_out_each
  fail_timed_out_each-row id [] db {x} found = (x, found, (λ t. ground arith), (λ t. refl), λ q. q)
  fail_timed_out_each-row id (s ∷ ss) db {x} found =
      let (y, after, hit, miss, keep) = fail_timed_out_session-row id s db found in
      let (z, after', hit', miss', keep') =
        fail_timed_out_each-row id ss (fail_timed_out_session describe now s db) after in
      elim (Bool-cases (s.id == id)) [
        | inl here ↦ let f = keep' (hit here) in (z, after', (λ t. f), (λ t. ground arith), λ q. f)
        | inr other ↦
            let same = miss other in
            (
              z,
              after',
              (λ t. hit' (ground arith)),
              (λ t. let same' = miss' (ground arith) in ground arith),
              (λ q. keep' (keep q)),
            )
      ]

  fail_timed_out_each-IsQuiet :
      (id : ℕ) (ss : List Session) (db : ControlDb)
      → (row Session.id id ss ≡ none → IsQuiet id db.fleet)
      → IsQuiet id (fail_timed_out_each describe now ss db).fleet
  unfolding fail_timed_out_each fail_timed_out_session
  fail_timed_out_each-IsQuiet id [] db h = h refl
  fail_timed_out_each-IsQuiet id (s ∷ ss) db h =
      fail_timed_out_each-IsQuiet id ss (fail_timed_out_session describe now s db) (λ rest.
        mark_apply_jobs_dead_for_session-IsQuiet now s.id id _ db.fleet (λ other. h (ground arith)))

  fail_timed_out_each-IsCleared :
      (id : ℕ) (ss : List Session) (db : ControlDb)
      → (row Session.id id ss ≡ none → IsCleared id db.leases db.artifacts)
      → let db' = fail_timed_out_each describe now ss db in IsCleared id db'.leases db'.artifacts
  unfolding fail_timed_out_each fail_timed_out_session
  fail_timed_out_each-IsCleared id [] db h = h refl
  fail_timed_out_each-IsCleared id (s ∷ ss) db h =
      fail_timed_out_each-IsCleared id ss (fail_timed_out_session describe now s db) (λ rest.
        clear-IsCleared now s.id id "provisioning_failed" db.leases db.artifacts
          (λ other. h (ground arith)))

-- The sessions that have been provisioned for longer than the timeout, of those that are still wanted.
abbrev pub is_timed_out : ℕ → ℕ → Session → Bool
is_timed_out now timeout s =
    is_desired_active s.desired_state
    && phase_eq s.phase provisioning
    && ltb (s.status_updated_at + timeout) now

-- A run of the controller fails exactly the sessions that it lists. The row of a session that is not listed
-- stays as it is. One that is listed had a provisioning that timed out; it is then failed, no open job
-- applies it, none of its assignments is pending, and it holds no address and no valid artifact. Session ids
-- are a primary key.
pub fail_timed_out_provisioning_sessions_lem :
    (describe : List Assignment → String) (now timeout id : ℕ) (db : ControlDb) (s : Session)
    → count (λ (x : Session). x.id == id) db.sessions ≤ 1
    → row Session.id id db.sessions ≡ some s
    → let db' = fail_timed_out_provisioning_sessions describe now timeout db in
      ((row Session.id id (list_timed_out_provisioning_sessions now timeout db.sessions) ≡ none)
        × (row Session.id id db'.sessions ≡ some s))
      ⊎ ((is_timed_out now timeout s ≡ true)
          × (row Session.id id (list_timed_out_provisioning_sessions now timeout db.sessions)
              ≡ some s)
          × (map_option Session.phase (row Session.id id db'.sessions) ≡ some failed)
          × IsQuiet id db'.fleet
          × IsCleared id db'.leases db'.artifacts)
unfolding fail_timed_out_provisioning_sessions list_timed_out_provisioning_sessions
fail_timed_out_provisioning_sessions_lem describe now timeout id db s unique found =
    let listed = list_timed_out_provisioning_sessions now timeout db.sessions in
    let (y, after, hit, miss, keep) = fail_timed_out_each-row describe now id listed db found in
    elim (Option-cases (row Session.id id listed)) [
      | inl passed_over ↦ let same = miss (ground arith) in inl (passed_over, ground arith)
      | inr (x, selected) ↦
          let (same, timed_out) =
            row-select Session.id id (is_timed_out now timeout) 50 db.sessions unique selected in
          let ended = hit (ground arith) in
          inr (
            ground arith,
            ground arith,
            ground arith,
            fail_timed_out_each-IsQuiet describe now id listed db (λ none_found. ground arith),
            fail_timed_out_each-IsCleared describe now id listed db (λ none_found. ground arith),
          )
    ]
