-- ===== src/Reconciler/Tests.antt =====
-- The controllers at a concrete database: a session 4 that is revoking or provisioning, with one
-- assignment.
use z_wireguard_vpn.Common.{
  Option, ◌≡◌, ◌⊎◌, refl, true, none, some, String, List, [], ◌∷◌, map_option, is_some, arith,
}
use z_wireguard_vpn.Common.Json.{Json}
use z_wireguard_vpn.Common.Table.{row}
use z_wireguard_vpn.Session.{
  Session, SessionDesiredState, SessionPhase, revoking, provisioning, failed,
}
use z_wireguard_vpn.Session.Store.{
  list_sessions_to_begin_revocation, list_timed_out_provisioning_sessions,
}
use z_wireguard_vpn.Assignment.{
  Assignment, GateAssignmentPhase, GateAssignmentDesiredState, ingress,
}
use z_wireguard_vpn.Lease.{new_lease}
use z_wireguard_vpn.Artifact.{Artifact, EncryptedPayload, prepared}
use z_wireguard_vpn.Artifact.Tokens.{not_found, redeem_artifact_download_token}
use z_wireguard_vpn.Reconciler.{ControlDb, artifact_db}
use z_wireguard_vpn.Reconciler.Downloads.{redeem-complete_revoked_sessions}
use z_wireguard_vpn.Reconciler.Beginning.{is_to_begin_revocation, begin_session_revocation_lem}
use z_wireguard_vpn.Reconciler.Sessions.{
  begin_session_revocation, complete_revoked_sessions, is_ready_to_mark_revoked,
  list_sessions_ready_to_mark_revoked, fail_timed_out_provisioning_sessions,
}
use z_wireguard_vpn.Reconciler.Assignments.{
  enqueue_revocation_jobs_for_assignments, list_assignments_to_revoke,
}
use z_wireguard_vpn.Reconciler.Revocation.{IsCleared, complete_revoked_sessions_lem}
use z_wireguard_vpn.Reconciler.Failure.{
  IsQuiet, is_timed_out, fail_timed_out_provisioning_sessions_lem,
}
use z_wireguard_vpn.Reconciler.Draining.{begin_runs, complete_runs, complete_runs-begin_runs}
use z_wireguard_vpn.Reconciler.Enqueue.{IsBeingRevoked, enqueue_revocation_jobs_for_assignments_lem}

abbrev session_4 : SessionDesiredState → SessionPhase → Session
session_4 desired phase = record {
  id = 4;
  account_id = some 7;
  generation = 2;
  desired_state = desired;
  spec = Json.null;
  create_request_id = none;
  created_at = 0;
  updated_at = 0;
  hidden_at = none;
  phase = phase;
  observed_generation = 1;
  last_error = none;
  status_updated_at = 0;
}

abbrev assignment_1 : GateAssignmentDesiredState → GateAssignmentPhase → Assignment
assignment_1 desired phase = record {
  id = 1;
  session_id = 4;
  gate_id = 30;
  role = ingress;
  generation = 2;
  desired_state = desired;
  plan_id = 9;
  updated_at = 0;
  phase = phase;
  observed_generation = 1;
  applied_plan_id = none;
  local_material = Json.null;
  reported_state = Json.null;
  last_error = none;
  applied_at = none;
  revoked_at = none;
  last_observed_at = none;
}

abbrev config_4 : Artifact
config_4 = record {
  id = 12;
  session_id = 4;
  phase = prepared;
  public_payload = Json.null;
  payload = none;
  issued_at = none;
  downloaded_at = none;
  invalidated_at = none;
}

abbrev a_db : Session → Assignment → ControlDb
a_db s a = record {
  sessions = s ∷ [];
  audits = [];
  fleet = record { jobs = []; attempts = []; assignments = a ∷ []; next_id = 1 };
  leases = record { pools = []; leases = new_lease 1 4 167772161 ∷ [] };
  gates = [];
  plans = [];
  artifacts = config_4 ∷ [];
  tokens = [];
}

abbrev revoked_db : ControlDb
revoked_db =
    a_db (session_4 SessionDesiredState.revoked revoking)
      (assignment_1 GateAssignmentDesiredState.revoked GateAssignmentPhase.revoked)

abbrev late_db : ControlDb
late_db =
    a_db (session_4 SessionDesiredState.active provisioning)
      (assignment_1 GateAssignmentDesiredState.applied GateAssignmentPhase.applying)

abbrev unwanted_db : ControlDb
unwanted_db =
    a_db (session_4 SessionDesiredState.revoked revoking)
      (assignment_1 GateAssignmentDesiredState.applied GateAssignmentPhase.applied)

abbrev describe : List Assignment → String
describe pending = "Provisioning timed out waiting for gate confirmation"

complete_revoked_sessions_example :
    let s = session_4 SessionDesiredState.revoked revoking in
    let db' = complete_revoked_sessions 90 revoked_db in
    (db'.fleet ≡ revoked_db.fleet)
    × (((row Session.id 4 (list_sessions_ready_to_mark_revoked revoked_db) ≡ none)
          × (row Session.id 4 db'.sessions ≡ some s))
        ⊎ ((is_ready_to_mark_revoked revoked_db.fleet.assignments s ≡ true)
            × (row Session.id 4 (list_sessions_ready_to_mark_revoked revoked_db) ≡ some s)
            × (row Session.id 4 db'.sessions
                ≡ some (record s {
                  phase = SessionPhase.revoked;
                  observed_generation = 2;
                  last_error = none;
                  status_updated_at = 90;
                }))
            × IsCleared 4 db'.leases db'.artifacts))
complete_revoked_sessions_example =
    complete_revoked_sessions_lem 90 4 revoked_db (session_4 SessionDesiredState.revoked revoking)
      (omega arith) refl

fail_timed_out_provisioning_sessions_example :
    let s = session_4 SessionDesiredState.active provisioning in
    let db' = fail_timed_out_provisioning_sessions describe 900 300 late_db in
    ((row Session.id 4 (list_timed_out_provisioning_sessions 900 300 late_db.sessions) ≡ none)
      × (row Session.id 4 db'.sessions ≡ some s))
    ⊎ ((is_timed_out 900 300 s ≡ true)
        × (row Session.id 4 (list_timed_out_provisioning_sessions 900 300 late_db.sessions)
            ≡ some s)
        × (map_option Session.phase (row Session.id 4 db'.sessions) ≡ some failed)
        × IsQuiet 4 db'.fleet
        × IsCleared 4 db'.leases db'.artifacts)
fail_timed_out_provisioning_sessions_example =
    fail_timed_out_provisioning_sessions_lem describe 900 300 4 late_db
      (session_4 SessionDesiredState.active provisioning) (omega arith) refl

listed : is_some (row Assignment.id 1 (list_assignments_to_revoke unwanted_db)) ≡ true
unfolding list_assignments_to_revoke
listed = refl

enqueue_revocation_jobs_for_assignments_example :
    IsBeingRevoked 1 (enqueue_revocation_jobs_for_assignments 90 unwanted_db).fleet
enqueue_revocation_jobs_for_assignments_example =
    enqueue_revocation_jobs_for_assignments_lem 90 1 unwanted_db (λ missed. let l = listed in cc)

abbrev ended_db : ControlDb
ended_db =
    a_db (session_4 SessionDesiredState.revoked SessionPhase.active)
      (assignment_1 GateAssignmentDesiredState.applied GateAssignmentPhase.applied)

begin_session_revocation_example :
    let s = session_4 SessionDesiredState.revoked SessionPhase.active in
    let db' = begin_session_revocation 90 ended_db in
    ((row Session.id 4 (list_sessions_to_begin_revocation ended_db.sessions) ≡ none)
      × (row Session.id 4 db'.sessions ≡ some s))
    ⊎ ((is_to_begin_revocation s ≡ true)
        × (row Session.id 4 (list_sessions_to_begin_revocation ended_db.sessions) ≡ some s)
        × (row Session.id 4 db'.sessions
            ≡ some (record s { phase = revoking; status_updated_at = 90 })))
begin_session_revocation_example =
    begin_session_revocation_lem 90 4 ended_db
      (session_4 SessionDesiredState.revoked SessionPhase.active) (omega arith) refl

abbrev dropped_db : ControlDb
dropped_db =
    a_db (session_4 SessionDesiredState.revoked provisioning)
      (assignment_1 GateAssignmentDesiredState.revoked GateAssignmentPhase.revoked)

complete_runs-begin_runs_example :
    (t : Session) × (row Session.id 4
        (complete_runs (20 ∷ []) (begin_runs (10 ∷ []) dropped_db)).sessions
      ≡ some t)
    × (t.phase ≡ SessionPhase.revoked)
complete_runs-begin_runs_example =
    complete_runs-begin_runs (10 ∷ []) (20 ∷ []) 4 dropped_db
      (session_4 SessionDesiredState.revoked provisioning) (λ id. ground arith) refl refl refl refl
      (omega arith) (omega arith)

abbrev with_token : ControlDb
with_token = record revoked_db {
  tokens =
      (record {
        artifact_id = 12;
        token_hash = "secret";
        subject_user_id = 3;
        expires_at = 900;
        used_at = none;
        revoked_at = none;
      })
      ∷ [];
}

abbrev plain : String → String
plain token = token

abbrev decrypt : Option (EncryptedPayload → Option Json)
decrypt = some (λ p. some Json.null)

redeem-complete_revoked_sessions_example :
    let after = artifact_db (complete_revoked_sessions 90 with_token) in
    redeem_artifact_download_token plain decrypt 100 "secret" after ≡ (not_found, after)
unfolding list_sessions_ready_to_mark_revoked
redeem-complete_revoked_sessions_example =
    redeem-complete_revoked_sessions plain decrypt 90 100 4 "secret" with_token
      (session_4 SessionDesiredState.revoked revoking) (omega arith) refl (λ e. ground (arith, e))
      ((λ same. ((λ at. refl), tt)), tt)
