-- ===== src/Session/Traffic.antt =====
-- The traffic quota of a session as an administrator adjusts it:
-- packages/control-plane/src/application/billing/admin-traffic-quota.scenario.ts. A request runs in one
-- transaction. The condition for users is left out. The trail is in the order of `created_at`.
use z_wireguard_vpn.Common.{
  ℕ, ◌-◌, Bool, true, false, not, ◌&&◌, none, some, List, [], ◌∷◌, ◌++◌, ◌==◌, leb, any, find?,
  is_some, if◌then◌else◌,
}
use z_wireguard_vpn.Common.Table.{update_where}
use z_wireguard_vpn.Session.{
  Session, SessionPhase, SessionDesiredState, ErrorUpdate, scheduling, revoking, phase_eq,
  is_desired_active,
}
use z_wireguard_vpn.Session.Store.{update_session_desired_state, update_session_status_phase}
use z_wireguard_vpn.Session.Service.{
  RevokeReason, AuditEvent, traffic_quota_exhausted, session_revoke_requested,
  session_system_revoke_requested, session_traffic_quota_adjusted,
}
use z_wireguard_vpn.Session.Payment.{TrafficEntitlement}

pub record TrafficDb : Type 0 where
  pub sessions : List Session
  pub audits : List AuditEvent
  pub entitlements : List TrafficEntitlement

pub data Reactivation : Type 0 where
  not_needed requested waiting_for_revocation : Reactivation

pub data AdjustmentResult : Type 0 where
  not_found not_metered : AdjustmentResult
  -- The bytes consumed.
  below_consumed : ℕ → AdjustmentResult
  -- The session, the bytes included, consumed and remaining, and the reactivation.
  updated : ℕ → ℕ → ℕ → ℕ → Reactivation → AdjustmentResult

abbrev pub is_quota_reason : RevokeReason → Bool
is_quota_reason (traffic_quota_exhausted _ _) = true
is_quota_reason _ = false

-- Whether the newest request to revoke a session is the system's, for a spent quota; `newest` is what the
-- events before say.
abbrev pub is_quota_revocation : ℕ → Bool → AuditEvent → Bool
is_quota_revocation session_id newest (session_revoke_requested _ id) =
    if id == session_id then false else newest
is_quota_revocation session_id newest (session_system_revoke_requested id reason) =
    if id == session_id then is_quota_reason reason else newest
is_quota_revocation session_id newest _ = newest

unfoldable pub is_quota_revoked : ℕ → Bool → List AuditEvent → Bool
is_quota_revoked session_id newest [] = newest
is_quota_revoked session_id newest (e ∷ es) =
    is_quota_revoked session_id (is_quota_revocation session_id newest e) es

abbrev pub is_metered : ℕ → Session → Bool
is_metered session_id s = s.id == session_id && (is_some s.account_id && not (is_some s.hidden_at))

-- How a session comes back, which the quota revoked or not.
unfoldable pub reactivation_of : Bool → Session → Reactivation
reactivation_of quota_revoked s =
    if quota_revoked
      && (not (is_desired_active s.desired_state) && phase_eq s.phase SessionPhase.revoked)
    then Reactivation.requested
    else if quota_revoked && (not (is_desired_active s.desired_state) && phase_eq s.phase revoking)
    then waiting_for_revocation
    else not_needed

unfoldable pub reactivate_found : ℕ → Session → List Session → List Session
reactivate_found now s sessions =
    update_session_status_phase now s.id
      (record { phase = scheduling; observed_generation = none; last_error = ErrorUpdate.clear })
      (update_session_desired_state now s.id SessionDesiredState.active true sessions)

abbrev pub is_reactivated : Reactivation → Bool
is_reactivated Reactivation.requested = true
is_reactivated _ = false

abbrev pub is_waiting : Reactivation → Bool
is_waiting waiting_for_revocation = true
is_waiting _ = false

abbrev pub set_included : ℕ → Bool → TrafficEntitlement → TrafficEntitlement
set_included included_bytes clear_exhausted_at e = record e {
  included_bytes = included_bytes;
  exhausted_at = if clear_exhausted_at then none else e.exhausted_at;
}

-- The quota is known and the new one is above what was consumed.
unfoldable pub adjust_found :
    ℕ → ℕ → ℕ → Session → TrafficEntitlement → TrafficDb → AdjustmentResult × TrafficDb
adjust_found now admin_id included_bytes s quota db =
    let reactivation = reactivation_of (is_quota_revoked s.id false db.audits) s in
    let clear_exhausted_at =
      not (is_waiting reactivation)
      && (if is_desired_active s.desired_state then true else is_reactivated reactivation) in
    (
      updated s.id included_bytes quota.consumed_bytes (included_bytes - quota.consumed_bytes)
          reactivation,
      record {
        sessions =
            if is_reactivated reactivation then reactivate_found now s db.sessions else db.sessions;
        audits = db.audits ++ session_traffic_quota_adjusted admin_id s.id included_bytes ∷ [];
        entitlements =
            update_where (λ (e : TrafficEntitlement). e.session_id == s.id)
              (set_included included_bytes clear_exhausted_at) db.entitlements;
      },
    )

unfoldable pub adjust_session_traffic_quota :
    ℕ → ℕ → ℕ → ℕ → TrafficDb → AdjustmentResult × TrafficDb
adjust_session_traffic_quota now session_id included_bytes admin_id db =
    let missing =
      if any (λ (s : Session). s.id == session_id && not (is_some s.hidden_at)) db.sessions
      then not_metered
      else not_found in
    elim (find? (is_metered session_id) db.sessions) [
      | none ↦ (missing, db)
      | some s ↦
          elim (find? (λ (e : TrafficEntitlement). e.session_id == session_id) db.entitlements) [
            | none ↦ (missing, db)
            | some quota ↦
                if leb included_bytes quota.consumed_bytes
                then (below_consumed quota.consumed_bytes, db)
                else adjust_found now admin_id included_bytes s quota db
          ]
    ]
