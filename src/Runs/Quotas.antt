-- ===== src/Runs/Quotas.antt =====
-- The adjustment of a traffic quota, which may schedule a revoked session again, keeps the sessions and the
-- leases consistent.
use z_wireguard_vpn.Common.{
  ℕ, ◌≡◌, refl, true, false, not, ◌&&◌, arith, ◌==◌, leb, find?, none, List, inl, inr, Option-cases,
  Bool-cases,
}
use z_wireguard_vpn.Common.Table.{find?-All}
use z_wireguard_vpn.Session.{
  Session, SessionPhase, SessionDesiredState, ErrorUpdate, SessionLifecycleTransition, scheduling,
  phase_eq, is_desired_active,
}
use z_wireguard_vpn.Session.Store.{
  set_status_phase, set_desired_state, update_session_status_phase, update_session_desired_state,
}
use z_wireguard_vpn.Session.Payment.{TrafficEntitlement}
use z_wireguard_vpn.Session.Traffic.{
  TrafficDb, adjust_session_traffic_quota, adjust_found, reactivate_found, reactivation_of,
  is_quota_revoked, is_metered,
}
use z_wireguard_vpn.Lease.{LeaseDb}
use z_wireguard_vpn.Lease.Holders.{has_lease}
use z_wireguard_vpn.Runs.Shape.{IsConsistent, FitsLeases, update-IsConsistent}

-- A revoked session holds no address.
revoked-free :
    (leases : LeaseDb) (s : Session)
    → phase_eq s.phase SessionPhase.revoked ≡ true
    → FitsLeases leases s
    → has_lease s.id leases ≡ false
revoked-free leases s e fit = let is = revoked_phase s.phase e in rw is at fit
  where
    revoked_phase :
        (p : SessionPhase) → phase_eq p SessionPhase.revoked ≡ true → p ≡ SessionPhase.revoked
    revoked_phase p t = ground arith

module _ (next_id : ℕ) (leases : LeaseDb) where
  reactivate-IsConsistent :
      (now : ℕ) (s : Session) (sessions : List Session)
      → has_lease s.id leases ≡ false
      → IsConsistent next_id sessions leases
      → IsConsistent next_id (reactivate_found now s sessions) leases
  unfolding reactivate_found update_session_status_phase update_session_desired_state
  reactivate-IsConsistent now s sessions free h =
      let t : SessionLifecycleTransition = record {
        phase = scheduling;
        observed_generation = none;
        last_error = ErrorUpdate.clear;
      } in
      update-IsConsistent (λ x. x.id == s.id) (set_status_phase now t) next_id _ leases (λ x. refl)
        (λ x e q. let same : s.id ≡ x.id = ground arith in rw same at free)
        (update-IsConsistent (λ x. x.id == s.id)
          (set_desired_state now SessionDesiredState.active true) next_id sessions leases
          (λ x. refl) (λ x e q. q) h)

  adjust_found-IsConsistent :
      (now admin_id included_bytes : ℕ) (s : Session) (quota : TrafficEntitlement) (db : TrafficDb)
      → FitsLeases leases s
      → IsConsistent next_id db.sessions leases
      → IsConsistent next_id (adjust_found now admin_id included_bytes s quota db).1.sessions leases
  unfolding adjust_found reactivation_of
  adjust_found-IsConsistent now admin_id included_bytes s quota db fit h =
      let result = adjust_found now admin_id included_bytes s quota db in
      elim (Bool-cases (
        is_quota_revoked s.id false db.audits
        && (not (is_desired_active s.desired_state) && phase_eq s.phase SessionPhase.revoked))) [
          | inl back ↦
              let changed : result.1.sessions ≡ reactivate_found now s db.sessions = ground arith in
              let free = revoked-free leases s (ground arith) fit in
              rw changed (reactivate-IsConsistent now s db.sessions free h)
          | inr kept ↦ let same : result.1.sessions ≡ db.sessions = ground arith in rw same h
        ]

  pub adjust_quota-IsConsistent :
      (now session_id included_bytes admin_id : ℕ) (db : TrafficDb)
      → IsConsistent next_id db.sessions leases
      → IsConsistent next_id
          (adjust_session_traffic_quota now session_id included_bytes admin_id db).1.sessions
          leases
  unfolding adjust_session_traffic_quota
  adjust_quota-IsConsistent now session_id included_bytes admin_id db h =
      elim (Option-cases (find? (is_metered session_id) db.sessions)) [
        | inl missing ↦ rw (adjust_session_traffic_quota, missing) h
        | inr (s, found) ↦
            elim (Option-cases
              (find? (λ (e : TrafficEntitlement). e.session_id == session_id) db.entitlements)) [
                | inl unmetered ↦ rw (adjust_session_traffic_quota, found, unmetered) h
                | inr (quota, metered) ↦
                    elim (Bool-cases (leb included_bytes quota.consumed_bytes)) [
                      | inl below ↦ rw (adjust_session_traffic_quota, found, metered, below) h
                      | inr above ↦
                          rw (adjust_session_traffic_quota, found, metered, above)
                            (adjust_found-IsConsistent now admin_id included_bytes s quota db
                              (find?-All (FitsLeases leases) _ db.sessions h.fits found).0 h)
                    ]
              ]
      ]
