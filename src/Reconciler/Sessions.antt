-- ===== src/Reconciler/Sessions.antt =====
-- The controller of sessions: packages/control-plane/src/reconciler/session-controller.ts. Each function
-- is one transaction over the sessions that its query lists. The conditions that it sets for users are
-- left out.
use z_wireguard_vpn.Common.{
  ℕ, Bool, not, ◌&&◌, none, some, String, List, [], ◌∷◌, ◌++◌, ◌==◌, any, filter, take,
}
use z_wireguard_vpn.Session.{
  Session, ErrorBody, probing, revoking, phase_eq, scheduling_transition, failed_transition,
  begin_revoking_transition, revoked_transition,
}
use z_wireguard_vpn.Session.Store.{
  list_session_rows_for_phase_for_update, update_session_status_phase,
  list_timed_out_provisioning_sessions, list_sessions_to_begin_revocation, mark_session_failed,
  mark_session_observed, mark_session_revoking,
}
use z_wireguard_vpn.Session.Service.{session_failed, session_revoked}
use z_wireguard_vpn.Assignment.{Assignment, failure, GateAssignmentPhase, has_phase}
use z_wireguard_vpn.Assignment.Store.{list_session_assignments}
use z_wireguard_vpn.Assignment.Service.{mark_pending_assignments_dead_for_session}
use z_wireguard_vpn.Job.Service.{mark_apply_jobs_dead_for_session}
use z_wireguard_vpn.Lease.Allocator.{release_client_address_lease}
use z_wireguard_vpn.Artifact.{invalidate_session_artifacts}
use z_wireguard_vpn.Reconciler.{ControlDb}

-- The update of each session of a list that moves it to scheduling.
unfoldable pub schedule_each : ℕ → List Session → List Session → List Session
schedule_each now [] sessions = sessions
schedule_each now (s ∷ ss) sessions =
    schedule_each now ss (update_session_status_phase now s.id scheduling_transition sessions)

unfoldable pub advance_probed_sessions_to_scheduling : ℕ → ControlDb → ControlDb
advance_probed_sessions_to_scheduling now db = record db {
  sessions =
      schedule_each now (list_session_rows_for_phase_for_update probing db.sessions) db.sessions;
}

unfoldable pub begin_revoking_each : ℕ → List Session → List Session → List Session
begin_revoking_each now [] sessions = sessions
begin_revoking_each now (s ∷ ss) sessions =
    begin_revoking_each now ss (elim (begin_revoking_transition s.phase) [
      | none ↦ sessions
      | some t ↦ mark_session_revoking now s.id t.phase sessions
    ])

unfoldable pub begin_session_revocation : ℕ → ControlDb → ControlDb
begin_session_revocation now db = record db {
  sessions = begin_revoking_each now (list_sessions_to_begin_revocation db.sessions) db.sessions;
}

abbrev pub is_unrevoked_of : ℕ → Assignment → Bool
is_unrevoked_of session_id a =
    a.session_id == session_id && not (has_phase a.phase GateAssignmentPhase.revoked)

-- Revoking sessions without an assignment that is not revoked.
abbrev pub is_ready_to_mark_revoked : List Assignment → Session → Bool
is_ready_to_mark_revoked assignments s =
    phase_eq s.phase revoking && not (any (is_unrevoked_of s.id) assignments)

unfoldable pub list_sessions_ready_to_mark_revoked : ControlDb → List Session
list_sessions_ready_to_mark_revoked db =
    take 50 (filter (is_ready_to_mark_revoked db.fleet.assignments) db.sessions)

unfoldable pub complete_revoked_session : ℕ → Session → ControlDb → ControlDb
complete_revoked_session now s db = record db {
  artifacts = invalidate_session_artifacts now s.id db.artifacts;
  sessions = mark_session_observed now s.id (revoked_transition s.generation) db.sessions;
  leases = release_client_address_lease now s.id "session_revoked" db.leases;
  audits = db.audits ++ session_revoked s.id ∷ [];
}

unfoldable pub complete_revoked_each : ℕ → List Session → ControlDb → ControlDb
complete_revoked_each now [] db = db
complete_revoked_each now (s ∷ ss) db =
    complete_revoked_each now ss (complete_revoked_session now s db)

unfoldable pub complete_revoked_sessions : ℕ → ControlDb → ControlDb
complete_revoked_sessions now db =
    complete_revoked_each now (list_sessions_ready_to_mark_revoked db) db

-- `describe` is the message with the assignments that the session still waits for.
unfoldable pub fail_timed_out_session :
    (List Assignment → String) → ℕ → Session → ControlDb → ControlDb
fail_timed_out_session describe now s db =
    let pending =
      filter (λ a. not (has_phase a.phase GateAssignmentPhase.applied))
        (list_session_assignments s.id db.fleet.assignments) in
    let message = describe pending in
    let jobs_dead = mark_apply_jobs_dead_for_session now s.id db.fleet in
    let e : ErrorBody = record { code = "gate_confirmation_timeout"; message = message } in
    record db {
      fleet = record jobs_dead {
        assignments =
            mark_pending_assignments_dead_for_session s.id
              (failure "gate_confirmation_timeout" message) jobs_dead.assignments;
      };
      artifacts = invalidate_session_artifacts now s.id db.artifacts;
      sessions = mark_session_failed now s.id (failed_transition e) db.sessions;
      leases = release_client_address_lease now s.id "provisioning_failed" db.leases;
      audits = db.audits ++ session_failed s.id e ∷ [];
    }

unfoldable pub fail_timed_out_each :
    (List Assignment → String) → ℕ → List Session → ControlDb → ControlDb
fail_timed_out_each describe now [] db = db
fail_timed_out_each describe now (s ∷ ss) db =
    fail_timed_out_each describe now ss (fail_timed_out_session describe now s db)

unfoldable pub fail_timed_out_provisioning_sessions :
    (List Assignment → String) → ℕ → ℕ → ControlDb → ControlDb
fail_timed_out_provisioning_sessions describe now provisioning_timeout_seconds db =
    fail_timed_out_each describe now
      (list_timed_out_provisioning_sessions now provisioning_timeout_seconds db.sessions) db
