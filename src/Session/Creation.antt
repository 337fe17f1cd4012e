-- ===== src/Session/Creation.antt =====
-- The creation of a session under the account's limits:
-- packages/control-plane/src/resources/sessions/service.ts and `insertRequestedSessionInTransaction`
-- of repository.ts. The row `Ready` of `session_conditions`, which tells the user the state, is left
-- out; so are the columns of the request that the spec repeats.
use z_wireguard_vpn.Common.{
  ℕ, ◌+◌, ◌*◌, Bool, not, Option, none, some, String, List, [], ◌∷◌, ◌++◌, leb, if◌then◌else◌,
  is_some,
}
use z_wireguard_vpn.Common.Json.{Json}
use z_wireguard_vpn.Session.{Session, SessionPhase, SessionDesiredState, requested}
use z_wireguard_vpn.Session.Store.{
  find_session_id_by_create_request, count_non_terminal_sessions_for_account,
  count_recent_session_creates_for_account,
}
use z_wireguard_vpn.Session.Service.{
  SessionOwner, AuditEvent, session_requested, session_rejected, session_config_granted,
}

pub record SessionAbuseControlConfig : Type 0 where
  pub max_active_sessions_per_account : ℕ
  pub max_session_creates_per_window : ℕ
  pub session_create_window_seconds : ℕ

-- `defaultSessionAbuseControlConfig`.
abbrev pub default_session_abuse_control_config : SessionAbuseControlConfig
default_session_abuse_control_config = record {
  max_active_sessions_per_account = 5;
  max_session_creates_per_window = 20;
  session_create_window_seconds = 60 * 60;
}

pub record SessionCreateParsed : Type 0 where
  pub create_request_id : Option ℕ
  pub spec : Json

-- A row of `session_config_grants` with its row of `session_traffic_entitlements`.
pub record ConfigGrant : Type 0 where
  pub session_id : ℕ
  pub granted_by_user_id : ℕ
  pub included_bytes : ℕ

-- `next_id` is the supply of fresh session ids.
pub record CreationDb : Type 0 where
  pub sessions : List Session
  pub audits : List AuditEvent
  pub grants : List ConfigGrant
  pub next_id : ℕ

pub data CreateRequestedSessionResult : Type 0 where
  created : ℕ → CreateRequestedSessionResult
  session_quota_exceeded session_create_rate_limited : CreateRequestedSessionResult
  route_policy_not_satisfied : CreateRequestedSessionResult

abbrev pub new_session :
    ℕ → SessionOwner → SessionCreateParsed → SessionPhase → CreationDb → Session
new_session now actor parsed phase db = record {
  id = db.next_id;
  account_id = some actor.account_id;
  generation = 1;
  desired_state = SessionDesiredState.active;
  spec = parsed.spec;
  create_request_id = parsed.create_request_id;
  created_at = now;
  updated_at = now;
  hidden_at = none;
  phase = phase;
  observed_generation = 0;
  last_error = none;
  status_updated_at = now;
}

-- The grant of an administrator, of a number of bytes that must be positive (or it is thrown).
unfoldable pub insert_config_grant : SessionOwner → ℕ → Option ℕ → CreationDb → Option CreationDb
insert_config_grant actor session_id none db = some db
insert_config_grant actor session_id (some included_bytes) db =
    if leb included_bytes 0
    then none
    else some (record db {
      grants =
          db.grants
          ++ (record {
            session_id = session_id;
            granted_by_user_id = actor.id;
            included_bytes = included_bytes;
          })
            ∷ [];
      audits = db.audits ++ session_config_granted actor session_id included_bytes ∷ [];
    })

unfoldable pub insert_requested_session_in_transaction :
    ℕ
    → SessionOwner
    → SessionCreateParsed
    → SessionPhase
    → Option ℕ
    → CreationDb
    → Option (ℕ × CreationDb)
insert_requested_session_in_transaction now actor parsed initial_phase config_grant db =
    let phase = if is_some config_grant then requested else initial_phase in
    let id = db.next_id in
    let inserted : CreationDb = record {
      sessions = db.sessions ++ new_session now actor parsed phase db ∷ [];
      audits = db.audits ++ session_requested actor id ∷ [];
      grants = db.grants;
      next_id = id + 1;
    } in
    elim (insert_config_grant actor id config_grant inserted) [
      | none ↦ none
      | some db' ↦ some (id, db')
    ]

abbrev pub reject : SessionOwner → String → CreationDb → CreationDb
reject actor error db = record db { audits = db.audits ++ session_rejected actor error ∷ [] }

abbrev pub find_existing : SessionOwner → SessionCreateParsed → CreationDb → Option ℕ
find_existing actor parsed db = elim parsed.create_request_id [
  | none ↦ none
  | some request_id ↦ find_session_id_by_create_request actor.account_id request_id db.sessions
]

-- `has_path` tells whether `choosePath` finds a pair of gates for a spec; a spec for which it throws, which
-- undoes the request, is left out. `none` is a thrown error.
unfoldable pub create_requested_session_with_abuse_controls :
    (Json → Bool)
    → ℕ
    → SessionOwner
    → SessionCreateParsed
    → SessionAbuseControlConfig
    → SessionPhase
    → Option ℕ
    → CreationDb
    → Option (CreateRequestedSessionResult × CreationDb)
create_requested_session_with_abuse_controls has_path now actor parsed config initial_phase
      config_grant db =
    let active_count = count_non_terminal_sessions_for_account actor.account_id db.sessions in
    let recent_create_count =
      count_recent_session_creates_for_account now actor.account_id
        config.session_create_window_seconds db.sessions in
    elim (find_existing actor parsed db) [
      | some session_id ↦ some (created session_id, db)
      | none ↦
          if leb config.max_active_sessions_per_account active_count
          then some (session_quota_exceeded, reject actor "session_quota_exceeded" db)
          else if leb config.max_session_creates_per_window recent_create_count
          then some (session_create_rate_limited, reject actor "session_create_rate_limited" db)
          else if not (has_path parsed.spec)
          then some (route_policy_not_satisfied, db)
          else elim (insert_requested_session_in_transaction now actor parsed initial_phase
              config_grant db) [ none ↦ none | some (id, db') ↦ some (created id, db') ]
    ]
