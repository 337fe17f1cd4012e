-- ===== src/Session/Quota.antt =====
-- The account's limits on sessions, and the retry of a creation.
use z_wireguard_vpn.Common.{
  ℕ, ◌+◌, ◌≤◌, ◌<◌, ◌≡◌, ◌⊎◌, Bool, true, false, not, ◌&&◌, ◌||◌, Option, none, some, List, [], ◌∷◌,
  ◌++◌, arith, leb, if◌then◌else◌, is_some, is_some_eq, find?, inl, inr, Bool-cases, Option-cases,
}
use z_wireguard_vpn.Common.Json.{Json}
use z_wireguard_vpn.Common.Table.{count-append}
use z_wireguard_vpn.Session.{Session, SessionPhase, requested}
use z_wireguard_vpn.Session.Store.{
  find_session_id_by_create_request, count_non_terminal_sessions_for_account,
  count_recent_session_creates_for_account, counts_for_account, is_recent_create,
}
use z_wireguard_vpn.Session.Service.{SessionOwner}
use z_wireguard_vpn.Session.Creation.{
  CreationDb, SessionAbuseControlConfig, SessionCreateParsed, CreateRequestedSessionResult, created,
  new_session, create_requested_session_with_abuse_controls,
  insert_requested_session_in_transaction, insert_config_grant, find_existing,
}

-- An account stays within its limits at a time.
pub record IsWithinLimits (config : SessionAbuseControlConfig) (now account_id : ℕ)
    (db : CreationDb) : Type 0 where
  pub active :
      count_non_terminal_sessions_for_account account_id db.sessions
      ≤ config.max_active_sessions_per_account
  pub recent :
      count_recent_session_creates_for_account now account_id config.session_create_window_seconds
        db.sessions
      ≤ config.max_session_creates_per_window

abbrev pub is_created : CreateRequestedSessionResult → Bool
is_created (created _) = true
is_created _ = false

-- How a creation that is not thrown ends: the sessions stay, or one is added for the owner while both
-- limits leave room and no session has the request's id.
pub create_cases :
    (has_path : Json → Bool) (now : ℕ) (actor : SessionOwner) (parsed : SessionCreateParsed)
    (config : SessionAbuseControlConfig) (phase : SessionPhase) (grant : Option ℕ) (db : CreationDb)
    {result : CreateRequestedSessionResult} {db' : CreationDb}
    → create_requested_session_with_abuse_controls has_path now actor parsed config phase grant db
      ≡ some (result, db')
    → ((db'.sessions ≡ db.sessions)
        × (find_existing actor parsed db ≡ none → is_created result ≡ false)
        × (db'.next_id ≡ db.next_id))
      ⊎ ((result ≡ created db.next_id)
          × (find_existing actor parsed db ≡ none)
          × (count_non_terminal_sessions_for_account actor.account_id db.sessions
              < config.max_active_sessions_per_account)
          × (count_recent_session_creates_for_account now actor.account_id
                config.session_create_window_seconds db.sessions
              < config.max_session_creates_per_window)
          × (db'.sessions
              ≡ db.sessions
                ++ new_session now actor parsed (if is_some grant then requested else phase) db
                  ∷ [])
          × (db'.next_id ≡ db.next_id + 1))
unfolding create_requested_session_with_abuse_controls insert_requested_session_in_transaction
    insert_config_grant
create_cases has_path now actor parsed config phase grant db {result} {db'} e =
    elim (Option-cases (find_existing actor parsed db)) [
      | inr (id, found) ↦ inl (ground arith, (λ none_found. ground arith), ground arith)
      | inl missing ↦
          let active = count_non_terminal_sessions_for_account actor.account_id db.sessions in
          let recent =
            count_recent_session_creates_for_account now actor.account_id
              config.session_create_window_seconds db.sessions in
          elim (Bool-cases (
            leb config.max_active_sessions_per_account active
            || (leb config.max_session_creates_per_window recent || not (has_path parsed.spec)))) [
              | inl rejected ↦ inl (ground arith, (λ none_found. ground arith), ground arith)
              | inr accepted ↦ elim (Option-cases grant) [
                | inl plain ↦
                    inr (
                      ground arith,
                      missing,
                      ground arith,
                      ground arith,
                      ground arith,
                      ground arith,
                    )
                | inr (bytes, granted) ↦
                    inr (
                      ground arith,
                      missing,
                      ground arith,
                      ground arith,
                      ground arith,
                      ground arith,
                    )
              ]
            ]
    ]

-- A creation by any account keeps every account within its limits, whatever the request and however
-- it ends.
pub create_requested_session-IsWithinLimits :
    (has_path : Json → Bool) (now : ℕ) (actor : SessionOwner) (parsed : SessionCreateParsed)
    (config : SessionAbuseControlConfig) (phase : SessionPhase) (grant : Option ℕ) (db : CreationDb)
    (account_id : ℕ) {result : CreateRequestedSessionResult} {db' : CreationDb}
    → IsWithinLimits config now account_id db
    → create_requested_session_with_abuse_controls has_path now actor parsed config phase grant db
      ≡ some (result, db')
    → IsWithinLimits config now account_id db'
unfolding count_non_terminal_sessions_for_account count_recent_session_creates_for_account
create_requested_session-IsWithinLimits has_path now actor parsed config phase grant db account_id
      {result} {db'} h e =
    let s = new_session now actor parsed (if is_some grant then requested else phase) db in
    elim (create_cases has_path now actor parsed config phase grant db e) [
      | inl (same, rejected, kept) ↦ record { active = rw same h.active; recent = rw same h.recent }
      | inr (result, new, room, room', added, next) ↦ record {
        active = rw added (
            ground (
              arith,
              h.active,
              room,
              count-append (counts_for_account account_id) db.sessions (s ∷ []),
            ));
        recent = rw added (
            ground (
              arith,
              h.recent,
              room',
              count-append (is_recent_create now account_id config.session_create_window_seconds)
                  db.sessions (s ∷ []),
            ));
      }
    ]

find?-new :
    (p : Session → Bool) (xs : List Session) (s : Session)
    → find? p xs ≡ none
    → p s ≡ true
    → find? p (xs ++ s ∷ []) ≡ some s
find?-new p [] s f e = ground arith
find?-new p (x ∷ xs) s f e = ground (arith, find?-new p xs s)

existing_unchanged :
    (has_path : Json → Bool) (now : ℕ) (actor : SessionOwner) (parsed : SessionCreateParsed)
    (config : SessionAbuseControlConfig) (phase : SessionPhase) (grant : Option ℕ) (db : CreationDb)
    {id : ℕ}
    → find_existing actor parsed db ≡ some id
    → create_requested_session_with_abuse_controls has_path now actor parsed config phase grant db
      ≡ some (created id, db)
unfolding create_requested_session_with_abuse_controls
existing_unchanged has_path now actor parsed config phase grant db found = ground arith

-- A creation is found again by its request.
created-found :
    (has_path : Json → Bool) (now : ℕ) (actor : SessionOwner) (parsed : SessionCreateParsed)
    (config : SessionAbuseControlConfig) (phase : SessionPhase) (grant : Option ℕ) (db : CreationDb)
    {id request_id : ℕ} {db' : CreationDb}
    → parsed.create_request_id ≡ some request_id
    → create_requested_session_with_abuse_controls has_path now actor parsed config phase grant db
      ≡ some (created id, db')
    → find_existing actor parsed db' ≡ some id
unfolding find_session_id_by_create_request
created-found has_path now actor parsed config phase grant db {id} {request_id} {db'} request e =
    let s = new_session now actor parsed (if is_some grant then requested else phase) db in
    elim (Option-cases (find_existing actor parsed db)) [
      | inr (old, found) ↦
          let same = existing_unchanged has_path now actor parsed config phase grant db found in
          ground arith
      | inl missing ↦ elim (create_cases has_path now actor parsed config phase grant db e) [
        | inl (same, rejected, kept) ↦ let no = rejected missing in ground arith
        | inr (result, new, room, room', added, next) ↦
            let stored =
              find?-new
                (λ x.
                  is_some_eq actor.account_id x.account_id
                  && is_some_eq request_id x.create_request_id)
                db.sessions s (ground arith) (ground arith) in
            ground arith
      ]
    ]

-- A creation with the id of a request that was created before returns the same session and changes
-- nothing, at any time, under any limits and whether or not there is still a path.
pub create_requested_session-retry :
    (has_path has_path' : Json → Bool) (now now' : ℕ) (actor : SessionOwner)
    (parsed : SessionCreateParsed) (config config' : SessionAbuseControlConfig)
    (phase : SessionPhase) (grant : Option ℕ) (db : CreationDb) {id request_id : ℕ}
    {db' : CreationDb}
    → parsed.create_request_id ≡ some request_id
    → create_requested_session_with_abuse_controls has_path now actor parsed config phase grant db
      ≡ some (created id, db')
    → create_requested_session_with_abuse_controls has_path' now' actor parsed config' phase grant
        db'
      ≡ some (created id, db')
create_requested_session-retry has_path has_path' now now' actor parsed config config' phase grant
      db request e =
    existing_unchanged has_path' now' actor parsed config' phase grant _
      (created-found has_path now actor parsed config phase grant db request e)
