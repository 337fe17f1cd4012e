-- ===== src/Session/Revocation.antt =====
-- What a revocation request does to the sessions.
use z_wireguard_vpn.Common.{
  ℕ, ◌+◌, ◌≡◌, ◌≤◌, refl, true, false, not, ◌&&◌, none, some, List, [], ◌∷◌, ◌++◌, arith, ◌==◌,
  if◌then◌else◌, is_some, count, Bool-cases, inl, inr,
}
use z_wireguard_vpn.Common.Table.{
  row, update_where, row-update_where, find?-row, find?-row-none, row_key,
}
use z_wireguard_vpn.Session.{
  Session, SessionPhase, SessionDesiredState, revoking, phase_eq, request_revocation_transition,
}
use z_wireguard_vpn.Session.Store.{
  find_session_phase_for_update, update_session_desired_state, update_session_status_phase,
  find_owned_session_phase_for_update, set_desired_state, set_status_phase, is_visible_to,
}
use z_wireguard_vpn.Session.Service.{
  SessionDb, SessionOwner, RevokeReason, request_system_session_revocation,
  request_owned_session_revocation, revoke_found, session_system_revoke_requested,
}

-- A session as a revocation request at `now` leaves it.
abbrev pub as_revoked : ℕ → Session → Session
as_revoked now s = record s {
  desired_state = SessionDesiredState.revoked;
  generation = s.generation + 1;
  updated_at = now;
  phase = if phase_eq s.phase SessionPhase.revoked then SessionPhase.revoked else revoking;
  status_updated_at = now;
}

pub row-revoke_found :
    (now j : ℕ) (s : Session) (sessions : List Session)
    → row Session.id s.id sessions ≡ some s
    → row Session.id j (revoke_found now s sessions)
      ≡ (if s.id == j then some (as_revoked now s) else row Session.id j sessions)
unfolding revoke_found update_session_status_phase update_session_desired_state
    request_revocation_transition
row-revoke_found now j s sessions e =
    let t = request_revocation_transition s.phase in
    let wanted = set_desired_state now t.desired_state t.increment_generation in
    let marked = set_status_phase now t.status_transition in
    ground (
      arith,
      e,
      row-update_where Session.id s.id j marked (λ x. refl)
          (update_where (λ x. x.id == s.id) wanted sessions),
      row-update_where Session.id s.id j wanted (λ x. refl) sessions,
    )

-- A request of the system for a session that is not hidden succeeds: the session is wanted revoked
-- at the next generation and is revoking, or stays revoked; no other session changes; and the trail
-- has one more event. The session's row is the one that its id finds.
pub request_system_session_revocation_lem :
    (now session_id : ℕ) (reason : RevokeReason) (db : SessionDb) (s : Session)
    → row Session.id session_id db.sessions ≡ some s
    → s.hidden_at ≡ none
    → let (found, db') = request_system_session_revocation now session_id reason db in
      (found ≡ true)
      × ((j : ℕ)
          → row Session.id j db'.sessions
            ≡ (if session_id == j then some (as_revoked now s) else row Session.id j db.sessions))
      × (db'.audits ≡ db.audits ++ session_system_revoke_requested session_id reason ∷ [])
unfolding request_system_session_revocation find_session_phase_for_update
request_system_session_revocation_lem now session_id reason db s e visible =
    let same = row_key Session.id session_id db.sessions e in
    let found =
      find?-row Session.id session_id (λ x. not (is_some x.hidden_at)) db.sessions e
        (ground arith) in
    (ground arith, (λ j. ground (arith, row-revoke_found now j s db.sessions)), ground arith)

-- A request of an owner finds the session exactly when the session is his and is not hidden. Then it
-- changes that session as a request of the system does, and no other; otherwise nothing changes,
-- the audit trail included. Session ids are a primary key.
pub request_owned_session_revocation_lem :
    (now session_id : ℕ) (actor : SessionOwner) (db : SessionDb) (s : Session)
    → row Session.id session_id db.sessions ≡ some s
    → count (λ x. x.id == session_id) db.sessions ≤ 1
    → let visible = is_visible_to actor.account_id s in
      let (found, db') = request_owned_session_revocation now actor session_id db in
      (found ≡ visible)
      × ((j : ℕ)
          → row Session.id j db'.sessions ≡ (
              if visible && session_id == j
              then some (as_revoked now s)
              else row Session.id j db.sessions))
      × (visible ≡ false → db' ≡ db)
unfolding request_owned_session_revocation find_owned_session_phase_for_update
request_owned_session_revocation_lem now session_id actor db s e unique =
    elim (Bool-cases (is_visible_to actor.account_id s)) [
      | inl yes_visible ↦
          let same = row_key Session.id session_id db.sessions e in
          let found =
            find?-row Session.id session_id (is_visible_to actor.account_id) db.sessions e
              yes_visible in
          (ground arith, (λ j. ground (arith, row-revoke_found now j s db.sessions)), ground arith)
      | inr not_visible ↦
          let missed =
            find?-row-none Session.id session_id (is_visible_to actor.account_id) db.sessions unique
              e not_visible in
          (ground arith, (λ j. ground arith), ground arith)
    ]
