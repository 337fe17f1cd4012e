-- ===== src/Reconciler/Beginning.antt =====
-- A session that is not wanted any more starts to be revoked.
use z_wireguard_vpn.Common.{
  ℕ, ◌≡◌, ◌≤◌, ◌⊎◌, refl, Bool, true, not, ◌&&◌, ◌||◌, none, some, List, [], ◌∷◌, ◌==◌, count,
  arith, inl, inr, Option-cases, map_option,
}
use z_wireguard_vpn.Common.Table.{row, row-update_where}
use z_wireguard_vpn.Common.Table.Select.{count-select, row-select, find?-count_zero}
use z_wireguard_vpn.Session.{
  Session, SessionPhase, SessionLifecycleTransition, revoking, phase_eq, is_desired_active,
  begin_revoking_transition,
}
use z_wireguard_vpn.Session.Store.{
  is_open_phase, list_sessions_to_begin_revocation, mark_session_revoking, set_revoking,
}
use z_wireguard_vpn.Reconciler.{ControlDb}
use z_wireguard_vpn.Reconciler.Sessions.{begin_session_revocation, begin_revoking_each}

-- The sessions that are not wanted any more, and whose revocation did not begin.
abbrev pub is_to_begin_revocation : Session → Bool
is_to_begin_revocation s =
    not (is_desired_active s.desired_state)
    && not (phase_eq s.phase revoking || not (is_open_phase s.phase))

pub begin_revoking_transition_lem :
    (p : SessionPhase)
    → not (phase_eq p revoking || not (is_open_phase p)) ≡ true
    → map_option SessionLifecycleTransition.phase (begin_revoking_transition p) ≡ some revoking
unfolding begin_revoking_transition
begin_revoking_transition_lem p h = ground (arith, h)

begin_revoking_each-row :
    (now id : ℕ) (ss sessions : List Session)
    → count (λ (s : Session). s.id == id) ss ≤ 1
    → row Session.id id (begin_revoking_each now ss sessions) ≡ elim (row Session.id id ss) [
      | none ↦ row Session.id id sessions
      | some s ↦ elim (begin_revoking_transition s.phase) [
        | none ↦ row Session.id id sessions
        | some t ↦ map_option (set_revoking now t.phase) (row Session.id id sessions)
      ]
    ]
unfolding begin_revoking_each mark_session_revoking
begin_revoking_each-row now id [] sessions unique = refl
begin_revoking_each-row now id (s ∷ ss) sessions unique =
    let gone = find?-count_zero (λ (x : Session). x.id == id) ss in
    elim (Option-cases (begin_revoking_transition s.phase)) [
      | inl stays ↦
          let ih = begin_revoking_each-row now id ss sessions in ground (arith, stays, ih, gone)
      | inr (t, moves) ↦
          let ih =
            begin_revoking_each-row now id ss (mark_session_revoking now s.id t.phase sessions) in
          let step =
            row-update_where Session.id s.id id (set_revoking now t.phase) (λ x. refl) sessions in
          ground (arith, moves, ih, gone, step)
    ]

-- A run of the controller begins the revocation of exactly the sessions that it lists. The row of a session
-- that is not listed stays as it is. One that is listed was not wanted any more, and no revocation of it had
-- begun or ended; it is then revoking since now, and all else of its row stays. Session ids are a primary
-- key.
pub begin_session_revocation_lem :
    (now id : ℕ) (db : ControlDb) (s : Session)
    → count (λ (x : Session). x.id == id) db.sessions ≤ 1
    → row Session.id id db.sessions ≡ some s
    → let db' = begin_session_revocation now db in
      ((row Session.id id (list_sessions_to_begin_revocation db.sessions) ≡ none)
        × (row Session.id id db'.sessions ≡ some s))
      ⊎ ((is_to_begin_revocation s ≡ true)
          × (row Session.id id (list_sessions_to_begin_revocation db.sessions) ≡ some s)
          × (row Session.id id db'.sessions
              ≡ some (record s { phase = revoking; status_updated_at = now })))
unfolding begin_session_revocation list_sessions_to_begin_revocation
begin_session_revocation_lem now id db s unique found =
    let listed = list_sessions_to_begin_revocation db.sessions in
    let after = begin_revoking_each-row now id listed db.sessions (
      omega (
        arith,
        unique,
        count-select (λ (x : Session). x.id == id) is_to_begin_revocation 50 db.sessions,
      )) in
    elim (Option-cases (row Session.id id listed)) [
      | inl passed_over ↦ inl (passed_over, ground arith)
      | inr (x, selected) ↦
          let (same, ready) =
            row-select Session.id id is_to_begin_revocation 50 db.sessions unique selected in
          let is_s : x ≡ s = ground arith in
          let moved = begin_revoking_transition_lem s.phase (ground arith) in
          inr (ground arith, ground arith, ground arith)
    ]
