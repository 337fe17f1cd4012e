-- ===== src/Reconciler/Batches.antt =====
-- What one run of a controller of revocations leaves for the next.
use z_wireguard_vpn.Common.{
  ℕ, ◌-◌, ◌≡◌, ◌≤◌, refl, Bool, true, false, some, List, [], ◌∷◌, ◌==◌, count, All, arith, filter,
  take, length, inl, inr, Option-cases, Bool-cases,
}
use z_wireguard_vpn.Common.Table.{row, update_where, All-map, All-Unit}
use z_wireguard_vpn.Common.Table.Select.{All-select}
use z_wireguard_vpn.Common.Table.Drain.{
  update_each, count-update_batch, count-update_each_key, length-update_each,
}
use z_wireguard_vpn.Session.{Session, revoking, begin_revoking_transition, revoked_transition}
use z_wireguard_vpn.Session.Store.{
  list_sessions_to_begin_revocation, mark_session_revoking, mark_session_observed, set_revoking,
  set_status_observed,
}
use z_wireguard_vpn.Reconciler.{ControlDb}
use z_wireguard_vpn.Reconciler.Sessions.{
  begin_session_revocation, begin_revoking_each, complete_revoked_session, complete_revoked_each,
  complete_revoked_sessions, is_ready_to_mark_revoked, list_sessions_ready_to_mark_revoked,
}
use z_wireguard_vpn.Reconciler.Beginning.{is_to_begin_revocation, begin_revoking_transition_lem}

-- The ids of the sessions are a primary key.
abbrev pub HasUniqueIds : ControlDb → Type 0
HasUniqueIds db = (id : ℕ) → count (λ (s : Session). s.id == id) db.sessions ≤ 1

row-count :
    (p : Session → Bool) (id : ℕ) (xs : List Session) {s : Session}
    → row Session.id id xs ≡ some s
    → p s ≡ true
    → 1 ≤ count p xs
row-count p id [] found passes = cc
row-count p id (x ∷ xs) {s} found passes = elim (Bool-cases (x.id == id)) [
  | inl here ↦
      let is : x ≡ s = ground arith in let px : p x ≡ true = rw is passes in rw px (omega arith)
  | inr other ↦ let ih = row-count p id xs (ground (arith, other)) passes in ground (arith, ih)
]

pub row-idle :
    (p : Session → Bool) (id : ℕ) (xs : List Session) {s : Session}
    → row Session.id id xs ≡ some s
    → count p xs ≤ 0
    → p s ≡ false
row-idle p id xs {s} found few = elim (Bool-cases (p s)) [
  | inl passes ↦
      let one = row-count p id xs found passes in
      let zero_one : 1 ≤ 0 = omega (arith, one, few) in ground arith
  | inr idle ↦ idle
]

begin_revoking_each-update_each :
    (now : ℕ) (ss sessions : List Session)
    → All (λ s. is_to_begin_revocation s ≡ true) ss
    → begin_revoking_each now ss sessions
      ≡ update_each Session.id (λ s x. set_revoking now revoking x) ss sessions
unfolding begin_revoking_each mark_session_revoking
begin_revoking_each-update_each now [] sessions h = refl
begin_revoking_each-update_each now (s ∷ ss) sessions h =
    let moves = begin_revoking_transition_lem s.phase (let t = h.0 in ground arith) in
    let ih =
      begin_revoking_each-update_each now ss
        (update_where (λ x. x.id == s.id) (set_revoking now revoking) sessions) h.1 in
    elim (Option-cases (begin_revoking_transition s.phase)) [
      | inl stays ↦ ground (arith, moves, stays)
      | inr (t, found) ↦
          let to : t.phase ≡ revoking = ground (arith, moves, found) in rw (found, to) ih
    ]

All-passes :
    (p : Session → Bool) (n : ℕ) (xs : List Session) → All (λ s. p s ≡ true) (take n (filter p xs))
All-passes p n xs =
    All-map (λ (s : Session). Unit {0} × (p s ≡ true)) (λ s. p s ≡ true) (λ s h. h.1)
      (take n (filter p xs)) (All-select (λ (s : Session). Unit {0}) p n xs (All-Unit xs))

-- Each run works off 50 sessions, or all that there are.
pub begin_session_revocation-count :
    (now : ℕ) (db : ControlDb)
    → HasUniqueIds db
    → count is_to_begin_revocation (begin_session_revocation now db).sessions
      ≡ count is_to_begin_revocation db.sessions - 50
unfolding begin_session_revocation list_sessions_to_begin_revocation
begin_session_revocation-count now db unique =
    let each =
      begin_revoking_each-update_each now (list_sessions_to_begin_revocation db.sessions)
        db.sessions (All-passes is_to_begin_revocation 50 db.sessions) in
    rw each (
      count-update_batch Session.id is_to_begin_revocation (λ s x. set_revoking now revoking x)
        (λ s x. refl) (λ s x. ground arith) 50 db.sessions unique)

complete_revoked_each-update_each :
    (now : ℕ) (ss : List Session) (db : ControlDb)
    → (complete_revoked_each now ss db).sessions
      ≡ update_each Session.id
          (λ s x. set_status_observed now (revoked_transition s.generation) x)
          ss
          db.sessions
unfolding complete_revoked_each complete_revoked_session mark_session_observed
complete_revoked_each-update_each now [] db = refl
complete_revoked_each-update_each now (s ∷ ss) db =
    complete_revoked_each-update_each now ss (complete_revoked_session now s db)

pub complete_revoked_sessions-count :
    (now : ℕ) (db : ControlDb)
    → HasUniqueIds db
    → let p = is_ready_to_mark_revoked db.fleet.assignments in
      count p (complete_revoked_sessions now db).sessions ≡ count p db.sessions - 50
unfolding complete_revoked_sessions list_sessions_ready_to_mark_revoked
complete_revoked_sessions-count now db unique =
    let p = is_ready_to_mark_revoked db.fleet.assignments in
    rw (complete_revoked_each-update_each now (take 50 (filter p db.sessions)) db) (
      count-update_batch Session.id p
        (λ s x. set_status_observed now (revoked_transition s.generation) x) (λ s x. refl)
        (λ s x. refl) 50 db.sessions unique)

pub begin_session_revocation-HasUniqueIds :
    (now : ℕ) (db : ControlDb)
    → HasUniqueIds db
    → HasUniqueIds (begin_session_revocation now db)
      × (length (begin_session_revocation now db).sessions ≡ length db.sessions)
unfolding begin_session_revocation list_sessions_to_begin_revocation
begin_session_revocation-HasUniqueIds now db unique =
    let batch = take 50 (filter is_to_begin_revocation db.sessions) in
    let each =
      begin_revoking_each-update_each now batch db.sessions
        (All-passes is_to_begin_revocation 50 db.sessions) in
    let f : Session → Session → Session = λ s x. set_revoking now revoking x in
    (
      (λ id.
          rw each (
            rw (count-update_each_key Session.id id f (λ s x. refl) batch db.sessions)
              (unique id))),
      rw each (length-update_each Session.id f batch db.sessions),
    )

pub complete_revoked_sessions-HasUniqueIds :
    (now : ℕ) (db : ControlDb) → HasUniqueIds db → HasUniqueIds (complete_revoked_sessions now db)
unfolding complete_revoked_sessions list_sessions_ready_to_mark_revoked
complete_revoked_sessions-HasUniqueIds now db unique id =
    let batch = take 50 (filter (is_ready_to_mark_revoked db.fleet.assignments) db.sessions) in
    let f : Session → Session → Session =
      λ s x. set_status_observed now (revoked_transition s.generation) x in
    rw (complete_revoked_each-update_each now batch db)
      (rw (count-update_each_key Session.id id f (λ s x. refl) batch db.sessions) (unique id))

pub begin_session_revocation-fleet :
    (now : ℕ) (db : ControlDb) → (begin_session_revocation now db).fleet ≡ db.fleet
unfolding begin_session_revocation
begin_session_revocation-fleet now db = refl
