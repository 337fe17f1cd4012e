-- ===== src/Session/Tests.antt =====
-- Sessions at concrete inputs.
use z_wireguard_vpn.Common.{
  ℕ, ◌≡◌, refl, none, some, true, false, [], ◌∷◌, ◌++◌, if◌then◌else◌, ◌==◌, ◌&&◌, arith,
}
use z_wireguard_vpn.Common.Json.{Json}
use z_wireguard_vpn.Common.Table.{row}
use z_wireguard_vpn.Session.{
  requested, Session, SessionDesiredState, SessionPhase, failed, request_revocation_transition,
}
use z_wireguard_vpn.Session.Store.{
  find_session_id_by_create_request, count_non_terminal_sessions_for_account,
  count_recent_session_creates_for_account, is_visible_to, find_owned_session_phase_for_update,
  update_session_status_phase, update_session_desired_state,
}
use z_wireguard_vpn.Session.Service.{
  SessionDb, SessionOwner, RevokeReason, request_system_session_revocation,
  request_owned_session_revocation, session_system_revoke_requested, session_requested,
  revoke_found,
}
use z_wireguard_vpn.Session.Creation.{
  CreationDb, SessionCreateParsed, SessionAbuseControlConfig, new_session, created,
  create_requested_session_with_abuse_controls, insert_requested_session_in_transaction,
  insert_config_grant,
}
use z_wireguard_vpn.Session.Quota.{IsWithinLimits, create_requested_session-IsWithinLimits}
use z_wireguard_vpn.Session.Revocation.{
  as_revoked, request_system_session_revocation_lem, request_owned_session_revocation_lem,
}

abbrev a_session : ℕ → SessionPhase → Session
a_session id phase = record {
  id = id;
  account_id = some 7;
  generation = 1;
  desired_state = SessionDesiredState.active;
  spec = Json.null;
  create_request_id = none;
  created_at = 0;
  updated_at = 0;
  hidden_at = none;
  phase = phase;
  observed_generation = 1;
  last_error = none;
  status_updated_at = 0;
}

abbrev db : SessionDb
db = record { sessions = a_session 1 SessionPhase.active ∷ a_session 2 failed ∷ []; audits = [] }

abbrev owner : SessionOwner
owner = record { id = 3; account_id = 7 }

-- A request takes a failed session to `revoking`, which `canRequestRevocation` rules out.
failed_revocation :
    row Session.id 2 (request_owned_session_revocation 50 owner 2 db).1.sessions
    ≡ some (as_revoked 50 (a_session 2 failed))
unfolding request_owned_session_revocation find_owned_session_phase_for_update revoke_found
    update_session_status_phase update_session_desired_state request_revocation_transition
failed_revocation = refl

request_system_session_revocation_example :
    let (found, db') = request_system_session_revocation 50 1 RevokeReason.entitlement_expired db in
    (found ≡ true)
    × ((j : ℕ)
        → row Session.id j db'.sessions ≡ (
            if 1 == j
            then some (as_revoked 50 (a_session 1 SessionPhase.active))
            else row Session.id j db.sessions))
    × (db'.audits ≡ [] ++ session_system_revoke_requested 1 RevokeReason.entitlement_expired ∷ [])
request_system_session_revocation_example =
    request_system_session_revocation_lem 50 1 RevokeReason.entitlement_expired db
      (a_session 1 SessionPhase.active) refl refl

request_owned_session_revocation_example :
    let visible = is_visible_to 7 (a_session 1 SessionPhase.active) in
    let (found, db') = request_owned_session_revocation 50 owner 1 db in
    (found ≡ visible)
    × ((j : ℕ)
        → row Session.id j db'.sessions ≡ (
            if visible && 1 == j
            then some (as_revoked 50 (a_session 1 SessionPhase.active))
            else row Session.id j db.sessions))
    × (visible ≡ false → db' ≡ db)
request_owned_session_revocation_example =
    request_owned_session_revocation_lem 50 1 owner db (a_session 1 SessionPhase.active) refl
      (omega arith)

abbrev no_sessions : CreationDb
no_sessions = record { sessions = []; audits = []; grants = []; next_id = 1 }

abbrev a_request : SessionCreateParsed
a_request = record { create_request_id = some 77; spec = Json.null }

abbrev limits : SessionAbuseControlConfig
limits = record {
  max_active_sessions_per_account = 1;
  max_session_creates_per_window = 2;
  session_create_window_seconds = 3600;
}

abbrev one_session : CreationDb
one_session = record {
  sessions = new_session 50 owner a_request requested no_sessions ∷ [];
  audits = session_requested owner 1 ∷ [];
  grants = [];
  next_id = 2;
}

first_created :
    create_requested_session_with_abuse_controls
      (λ spec. true)
      50
      owner
      a_request
      limits
      requested
      none
      no_sessions
    ≡ some (created 1, one_session)
unfolding create_requested_session_with_abuse_controls find_session_id_by_create_request
    count_non_terminal_sessions_for_account count_recent_session_creates_for_account
    insert_requested_session_in_transaction insert_config_grant
first_created = refl

no_sessions-IsWithinLimits : IsWithinLimits limits 50 7 no_sessions
unfolding count_non_terminal_sessions_for_account count_recent_session_creates_for_account
no_sessions-IsWithinLimits = record { active = omega arith; recent = omega arith }

create_requested_session-IsWithinLimits_example : IsWithinLimits limits 50 7 one_session
create_requested_session-IsWithinLimits_example =
    create_requested_session-IsWithinLimits (λ spec. true) 50 owner a_request limits requested none
      no_sessions 7 no_sessions-IsWithinLimits first_created
