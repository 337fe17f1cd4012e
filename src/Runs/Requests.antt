-- ===== src/Runs/Requests.antt =====
-- The revocations that users and the billing request, and the hiding of a session, keep the sessions and
-- the leases consistent.
use z_wireguard_vpn.Common.{ℕ, ◌≡◌, refl, Bool, List, arith, ◌==◌, inl, inr, Option-cases}
use z_wireguard_vpn.Common.Table.{find?-All}
use z_wireguard_vpn.Session.{
  Session, SessionPhase, request_revocation_transition, HideDecision, can_hide, can_hide_session,
}
use z_wireguard_vpn.Session.Store.{
  find_owned_session_phase_for_update, find_session_phase_for_update,
  find_owned_session_visibility_for_update, set_status_phase, set_desired_state,
  update_session_status_phase, update_session_desired_state, hide_owned_session, set_hidden,
}
use z_wireguard_vpn.Session.Service.{
  SessionOwner, SessionDb, RevokeReason, DeleteResult, request_owned_session_revocation,
  request_system_session_revocation, delete_owned_hidden_session, revoke_found,
}
use z_wireguard_vpn.Lease.{LeaseDb}
use z_wireguard_vpn.Lease.Holders.{has_lease}
use z_wireguard_vpn.Runs.Shape.{IsConsistent, Fits, FitsLeases, update-IsConsistent}

revocation-Fits :
    (p : SessionPhase) (held : Bool)
    → Fits p held
    → Fits (request_revocation_transition p).status_transition.phase held
unfolding request_revocation_transition
revocation-Fits SessionPhase.revoked held q = q
revocation-Fits _ held q = tt

-- The two updates of a revocation.
revoke_found-IsConsistent :
    (now next_id : ℕ) (s : Session) (sessions : List Session) (leases : LeaseDb)
    → FitsLeases leases s
    → IsConsistent next_id sessions leases
    → IsConsistent next_id (revoke_found now s sessions) leases
unfolding revoke_found update_session_status_phase update_session_desired_state
revoke_found-IsConsistent now next_id s sessions leases fit h =
    let t = request_revocation_transition s.phase in
    let fits = revocation-Fits s.phase (has_lease s.id leases) fit in
    update-IsConsistent (λ x. x.id == s.id) (set_status_phase now t.status_transition) next_id _
      leases (λ x. refl) (λ x e q. let same : s.id ≡ x.id = ground arith in rw same at fits)
      (update-IsConsistent (λ x. x.id == s.id)
        (set_desired_state now t.desired_state t.increment_generation) next_id sessions leases
        (λ x. refl) (λ x e q. q) h)

hide_by-IsConsistent :
    (next_id : ℕ) (leases : LeaseDb) (d : HideDecision) (db hidden : SessionDb)
    → IsConsistent next_id db.sessions leases
    → IsConsistent next_id hidden.sessions leases
    → IsConsistent next_id
        (elim d as (λ _. DeleteResult × SessionDb) [
          | HideDecision.deleted ↦ (DeleteResult.deleted, db)
          | HideDecision.not_revoked ↦ (DeleteResult.not_revoked, db)
          | can_hide ↦ (DeleteResult.deleted, hidden)
        ]).1.sessions
        leases
hide_by-IsConsistent next_id leases HideDecision.deleted db hidden h h' = h
hide_by-IsConsistent next_id leases HideDecision.not_revoked db hidden h h' = h
hide_by-IsConsistent next_id leases can_hide db hidden h h' = h'

module _ (next_id : ℕ) (leases : LeaseDb) where
  pub revoke_owned-IsConsistent :
      (now : ℕ) (actor : SessionOwner) (session_id : ℕ) (db : SessionDb)
      → IsConsistent next_id db.sessions leases
      → IsConsistent next_id
          (request_owned_session_revocation now actor session_id db).1.sessions
          leases
  unfolding request_owned_session_revocation find_owned_session_phase_for_update
  revoke_owned-IsConsistent now actor session_id db h =
      elim (Option-cases
        (find_owned_session_phase_for_update actor.account_id session_id db.sessions)) [
          | inl missing ↦ rw (request_owned_session_revocation, missing) h
          | inr (s, found) ↦
              rw (request_owned_session_revocation, found)
                (revoke_found-IsConsistent now next_id s db.sessions leases
                  (find?-All (FitsLeases leases) _ db.sessions h.fits found).0 h)
        ]

  pub revoke_by_system-IsConsistent :
      (now session_id : ℕ) (reason : RevokeReason) (db : SessionDb)
      → IsConsistent next_id db.sessions leases
      → IsConsistent next_id
          (request_system_session_revocation now session_id reason db).1.sessions
          leases
  unfolding request_system_session_revocation find_session_phase_for_update
  revoke_by_system-IsConsistent now session_id reason db h =
      elim (Option-cases (find_session_phase_for_update session_id db.sessions)) [
        | inl missing ↦ rw (request_system_session_revocation, missing) h
        | inr (s, found) ↦
            rw (request_system_session_revocation, found)
              (revoke_found-IsConsistent now next_id s db.sessions leases
                (find?-All (FitsLeases leases) _ db.sessions h.fits found).0 h)
      ]

  pub hide-IsConsistent :
      (now : ℕ) (actor : SessionOwner) (session_id : ℕ) (db : SessionDb)
      → IsConsistent next_id db.sessions leases
      → IsConsistent next_id (delete_owned_hidden_session now actor session_id db).1.sessions leases
  unfolding delete_owned_hidden_session hide_owned_session
  hide-IsConsistent now actor session_id db h =
      elim (Option-cases
        (find_owned_session_visibility_for_update actor.account_id session_id db.sessions)) [
          | inl missing ↦ rw (delete_owned_hidden_session, missing) h
          | inr (s, found) ↦
              rw (delete_owned_hidden_session, found)
                (hide_by-IsConsistent next_id leases (can_hide_session s.phase s.hidden_at) db _ h (
                  update-IsConsistent _ (set_hidden now) next_id db.sessions leases (λ x. refl)
                    (λ x t q. q) h))
        ]
