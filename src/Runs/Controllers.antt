-- ===== src/Runs/Controllers.antt =====
-- The runs of the controllers keep the sessions and the leases consistent.
use z_wireguard_vpn.Common.{
  ℕ, ◌≡◌, ◌≢◌, Bool, true, false, ◌&&◌, Option, none, some, String, List, [], ◌∷◌, arith, ◌==◌,
  filter, All,
}
use z_wireguard_vpn.Common.Json.{Json}
use z_wireguard_vpn.Common.Table.{row}
use z_wireguard_vpn.Common.Table.Select.{
  All-select, All-there, Distinct, Distinct-of_unique, count-select,
}
use z_wireguard_vpn.Session.{
  Session, SessionPhase, requested, scheduling, probing, provisioning, phase_eq,
}
use z_wireguard_vpn.Session.Store.{
  list_timed_out_provisioning_sessions, list_sessions_to_begin_revocation,
  list_session_rows_for_phase_for_update,
}
use z_wireguard_vpn.Lease.{LeaseDb}
use z_wireguard_vpn.Lease.Holders.{has_lease}
use z_wireguard_vpn.Runs.Shape.{IsConsistent, Fits, FitsLeases}
use z_wireguard_vpn.Runs.Loops.{AllHold}
use z_wireguard_vpn.Common.{take}
use z_wireguard_vpn.Common.Table.{All-map}
use z_wireguard_vpn.Session.{is_desired_active}
use z_wireguard_vpn.Assignment.{Assignment}
use z_wireguard_vpn.Planning.{PathChoice}
use z_wireguard_vpn.Artifact.{EncryptedPayload}
use z_wireguard_vpn.Reconciler.{ControlDb, RenderedPlan}
use z_wireguard_vpn.Reconciler.Scheduling.{
  begin_requested_session_probing, schedule_sessions_for_provisioning,
}
use z_wireguard_vpn.Reconciler.Activation.{
  complete_provisioned_sessions, list_provisioned_sessions_for_activation, is_provisioned,
}
use z_wireguard_vpn.Reconciler.Assignments.{
  enqueue_commit_jobs_for_prepared_assignments, list_sessions_ready_for_commit,
}
use z_wireguard_vpn.Reconciler.Sessions.{
  advance_probed_sessions_to_scheduling, begin_session_revocation, complete_revoked_sessions,
  fail_timed_out_provisioning_sessions, list_sessions_ready_to_mark_revoked,
}
use z_wireguard_vpn.Runs.Loops.{
  probe_each-IsConsistent, schedule_each-IsConsistent, begin_revoking_each-IsConsistent,
  complete_revoked_each-IsConsistent, fail_timed_out_each-IsConsistent, commit_each-IsConsistent,
  activate_each-IsConsistent,
}
use z_wireguard_vpn.Runs.Placement.{IsPending, provision_each-IsConsistent}

-- The sessions that a controller lists by a phase without an address hold none.
listed-AllHold :
    (next_id : ℕ) (sessions : List Session) (leases : LeaseDb) (p : Session → Bool) (n : ℕ)
    (held : Bool)
    → ((s : Session) → p s ≡ true → FitsLeases leases s → has_lease s.id leases ≡ held)
    → IsConsistent next_id sessions leases
    → AllHold held leases (take n (filter p sessions))
listed-AllHold next_id sessions leases p n held reads h =
    All-map (λ s. FitsLeases leases s × (p s ≡ true)) (λ s. has_lease s.id leases ≡ held)
      (λ s (fit, passes). reads s passes fit) (take n (filter p sessions))
      (All-select (FitsLeases leases) p n sessions h.fits)

-- A session that is wanted and in a phase.
abbrev is_in_phase : SessionPhase → Session → Bool
is_in_phase p s = is_desired_active s.desired_state && phase_eq s.phase p

phase_eq-eq : (p q : SessionPhase) → phase_eq p q ≡ true → p ≡ q
phase_eq-eq p q e = ground arith

free_in :
    (p : SessionPhase) (leases : LeaseDb)
    → ((held : Bool) → Fits p held → held ≡ false)
    → (s : Session) → is_in_phase p s ≡ true
    → FitsLeases leases s
    → has_lease s.id leases ≡ false
free_in p leases reads s e fit =
    let same = phase_eq-eq s.phase p (ground arith) in
    reads (has_lease s.id leases) (rw same at fit)

provisioned_holds :
    (assignments : List Assignment) (leases : LeaseDb) (s : Session)
    → is_provisioned assignments s ≡ true
    → FitsLeases leases s
    → has_lease s.id leases ≡ true
provisioned_holds assignments leases s e fit =
    let same = phase_eq-eq s.phase provisioning (ground arith) in rw same at fit

listed-IsPending :
    (next_id : ℕ) (sessions : List Session) (leases : LeaseDb)
    → IsConsistent next_id sessions leases
    → All (IsPending sessions leases) (list_session_rows_for_phase_for_update scheduling sessions)
unfolding list_session_rows_for_phase_for_update
listed-IsPending next_id sessions leases h =
    let p = is_in_phase scheduling in
    let listed = take 20 (filter p sessions) in
    let free =
      listed-AllHold next_id sessions leases p 20 false (free_in scheduling leases (λ held q. q))
        h in
    let there =
      All-select (λ (s : Session). row Session.id s.id sessions ≢ none) p 20 sessions
        (All-there Session.id sessions) in
    both listed free there
  where
    both :
        (xs : List Session)
        → AllHold false leases xs
        → All (λ s. (row Session.id s.id sessions ≢ none) × (is_in_phase scheduling s ≡ true)) xs
        → All (IsPending sessions leases) xs
    both [] a b = tt
    both (x ∷ xs) a b = ((a.0, b.0.0), both xs a.1 b.1)

listed-Distinct :
    (next_id : ℕ) (sessions : List Session) (leases : LeaseDb)
    → IsConsistent next_id sessions leases
    → Distinct Session.id (list_session_rows_for_phase_for_update scheduling sessions)
unfolding list_session_rows_for_phase_for_update
listed-Distinct next_id sessions leases h =
    Distinct-of_unique Session.id (take 20 (filter (is_in_phase scheduling) sessions)) (λ k.
      let less = count-select (λ (s : Session). s.id == k) (is_in_phase scheduling) 20 sessions in
      omega (arith, less, h.unique k))

module _ (next_id : ℕ) where
  -- The sessions and the leases of the tables of the controllers.
  abbrev pub IsConsistentDb : ControlDb → Type 0
  IsConsistentDb db = IsConsistent next_id db.sessions db.leases

module _ (next_id now : ℕ) (db : ControlDb) (h : IsConsistentDb next_id db) where
  pub probe-IsConsistent : IsConsistentDb next_id (begin_requested_session_probing now db)
  unfolding begin_requested_session_probing list_session_rows_for_phase_for_update
  probe-IsConsistent =
      probe_each-IsConsistent now next_id _ db.sessions db.leases
        (listed-AllHold next_id db.sessions db.leases (is_in_phase requested) 20 false
          (free_in requested db.leases (λ held q. q)) h)
        h

  pub advance-IsConsistent : IsConsistentDb next_id (advance_probed_sessions_to_scheduling now db)
  unfolding advance_probed_sessions_to_scheduling list_session_rows_for_phase_for_update
  advance-IsConsistent =
      schedule_each-IsConsistent now next_id _ db.sessions db.leases
        (listed-AllHold next_id db.sessions db.leases (is_in_phase probing) 20 false
          (free_in probing db.leases (λ held q. q)) h)
        h

  pub schedule-IsConsistent :
      (to_uuid : String → Option ℕ) (render : Session → PathChoice → ℕ → Json) (db' : ControlDb)
      → schedule_sessions_for_provisioning to_uuid render now db ≡ some db'
      → IsConsistentDb next_id db'
  unfolding schedule_sessions_for_provisioning
  schedule-IsConsistent to_uuid render db' e =
      provision_each-IsConsistent now next_id to_uuid render
        (list_session_rows_for_phase_for_update scheduling db.sessions) db {db' = db'}
        (listed-IsPending next_id db.sessions db.leases h)
        (listed-Distinct next_id db.sessions db.leases h) e h

  pub commit-IsConsistent :
      (network : RenderedPlan → Assignment → Assignment → Json)
      → IsConsistentDb next_id (enqueue_commit_jobs_for_prepared_assignments network now db)
  unfolding enqueue_commit_jobs_for_prepared_assignments
  commit-IsConsistent network =
      commit_each-IsConsistent now next_id network (list_sessions_ready_for_commit db) db h

  pub complete-IsConsistent :
      (render : RenderedPlan → Assignment → Assignment → Option (Json × EncryptedPayload))
      (db' : ControlDb)
      → complete_provisioned_sessions render now db ≡ some db'
      → IsConsistentDb next_id db'
  unfolding complete_provisioned_sessions list_provisioned_sessions_for_activation
  complete-IsConsistent render db' e =
      activate_each-IsConsistent now next_id render _ db {db' = db'}
        (listed-AllHold next_id db.sessions db.leases (is_provisioned db.fleet.assignments) 50 true
          (provisioned_holds db.fleet.assignments db.leases) h)
        e h

  pub fail-IsConsistent :
      (describe : List Assignment → String) (timeout : ℕ)
      → IsConsistentDb next_id (fail_timed_out_provisioning_sessions describe now timeout db)
  unfolding fail_timed_out_provisioning_sessions
  fail-IsConsistent describe timeout =
      fail_timed_out_each-IsConsistent now next_id describe
        (list_timed_out_provisioning_sessions now timeout db.sessions) db h

  pub begin_revocation-IsConsistent : IsConsistentDb next_id (begin_session_revocation now db)
  unfolding begin_session_revocation
  begin_revocation-IsConsistent =
      begin_revoking_each-IsConsistent now next_id (list_sessions_to_begin_revocation db.sessions)
        db.sessions db.leases h

  pub complete_revocation-IsConsistent : IsConsistentDb next_id (complete_revoked_sessions now db)
  unfolding complete_revoked_sessions
  complete_revocation-IsConsistent =
      complete_revoked_each-IsConsistent now next_id (list_sessions_ready_to_mark_revoked db) db h
