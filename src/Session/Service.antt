-- ===== src/Session/Service.antt =====
-- The requests that revoke and hide a session:
-- packages/control-plane/src/resources/sessions/service.ts. A request runs in one transaction over
-- the sessions and the audit trail.
use z_wireguard_vpn.Common.{Option, ℕ, Bool, true, false, none, some, String, List, [], ◌∷◌, ◌++◌}
use z_wireguard_vpn.Common.Int.{ℤ}
use z_wireguard_vpn.Session.{
  Session, ErrorBody, request_revocation_transition, can_hide_session, HideDecision, can_hide,
}
use z_wireguard_vpn.Session.Store.{
  find_owned_session_phase_for_update, find_session_phase_for_update, update_session_desired_state,
  update_session_status_phase, find_owned_session_visibility_for_update, hide_owned_session,
}

pub record SessionOwner : Type 0 where
  pub id : ℕ
  pub account_id : ℕ

-- Why the system revokes a session: an expired entitlement, a spent traffic quota (the included and
-- the consumed bytes), or an exhausted balance (the account, its balance and when it was due).
pub data RevokeReason : Type 0 where
  entitlement_expired : RevokeReason
  traffic_quota_exhausted : ℕ → ℕ → RevokeReason
  billing_balance_exhausted : ℕ → ℤ → Option ℕ → RevokeReason

pub data AuditEvent : Type 0 where
  session_revoke_requested session_hidden : SessionOwner → ℕ → AuditEvent
  session_system_revoke_requested : ℕ → RevokeReason → AuditEvent
  session_requested : SessionOwner → ℕ → AuditEvent
  session_rejected : SessionOwner → String → AuditEvent
  -- The session and the bytes that it includes.
  session_config_granted : SessionOwner → ℕ → ℕ → AuditEvent
  session_active session_revoked : ℕ → AuditEvent
  session_failed : ℕ → ErrorBody → AuditEvent
  -- The administrator, the session and the bytes that it now includes.
  session_traffic_quota_adjusted : ℕ → ℕ → ℕ → AuditEvent

pub record SessionDb : Type 0 where
  pub sessions : List Session
  pub audits : List AuditEvent

-- What both revocation requests do to the session that they find.
unfoldable pub revoke_found : ℕ → Session → List Session → List Session
revoke_found now s sessions =
    let t = request_revocation_transition s.phase in
    update_session_status_phase now s.id t.status_transition
      (update_session_desired_state now s.id t.desired_state t.increment_generation sessions)

unfoldable pub request_owned_session_revocation :
    ℕ → SessionOwner → ℕ → SessionDb → Bool × SessionDb
unfolding revoke_found
request_owned_session_revocation now actor session_id db =
    elim (find_owned_session_phase_for_update actor.account_id session_id db.sessions) [
      | none ↦ (false, db)
      | some s ↦ (
        true,
        record {
          sessions = revoke_found now s db.sessions;
          audits = db.audits ++ session_revoke_requested actor session_id ∷ [];
        },
      )
    ]

unfoldable pub request_system_session_revocation :
    ℕ → ℕ → RevokeReason → SessionDb → Bool × SessionDb
unfolding revoke_found
request_system_session_revocation now session_id reason db =
    elim (find_session_phase_for_update session_id db.sessions) [
      | none ↦ (false, db)
      | some s ↦ (
        true,
        record {
          sessions = revoke_found now s db.sessions;
          audits = db.audits ++ session_system_revoke_requested session_id reason ∷ [];
        },
      )
    ]

pub data DeleteResult : Type 0 where
  deleted not_found not_revoked : DeleteResult

-- A decision other than `can_hide` is the result.
unfoldable pub delete_owned_hidden_session :
    ℕ → SessionOwner → ℕ → SessionDb → DeleteResult × SessionDb
delete_owned_hidden_session now actor session_id db =
    elim (find_owned_session_visibility_for_update actor.account_id session_id db.sessions) [
      | none ↦ (DeleteResult.not_found, db)
      | some s ↦ elim (can_hide_session s.phase s.hidden_at) [
        | HideDecision.deleted ↦ (DeleteResult.deleted, db)
        | HideDecision.not_revoked ↦ (DeleteResult.not_revoked, db)
        | can_hide ↦ (
          DeleteResult.deleted,
          record {
            sessions = hide_owned_session now actor.account_id session_id db.sessions;
            audits = db.audits ++ session_hidden actor session_id ∷ [];
          },
        )
      ]
    ]
