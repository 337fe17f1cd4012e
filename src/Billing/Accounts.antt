-- ===== src/Billing/Accounts.antt =====
-- When an account is in grace, suspended or restored: the decision of
-- `reconcileBillingAccountState`, on every branch.
use z_wireguard_vpn.Common.{
  ℕ, ◌≡◌, ◌≢◌, ◌⊎◌, ◌≤◌, ◌/◌, refl, Bool, true, false, arith, if◌then◌else◌, is_some, some, none,
  ◌&&◌, not, List, [], ◌∷◌, ◌==◌, count, filter, find?, map_option, Option, Option-cases,
  Bool-cases, inl, inr, is_some_eq,
}
use z_wireguard_vpn.Common.Int.{ℤ, is_nonneg}
use z_wireguard_vpn.Common.Table.{
  row, update_where, count-update_where_key, row-update_where, find?-row, find?-row-none, row_key,
}
use z_wireguard_vpn.Common.Table.Select.{count-filter, find?-filter}
use z_wireguard_vpn.Session.{Session, request_revocation_transition, is_desired_active}
use z_wireguard_vpn.Session.Service.{
  SessionDb, RevokeReason, billing_balance_exhausted, revoke_found,
  request_system_session_revocation,
}
use z_wireguard_vpn.Session.Revocation.{as_revoked, row-revoke_found}
use z_wireguard_vpn.Session.Store.{
  list_non_terminal_account_sessions, find_session_phase_for_update, set_desired_state,
  set_status_phase, update_session_status_phase, update_session_desired_state, is_open_phase,
}
use z_wireguard_vpn.Billing.{available_billing_balance}
use z_wireguard_vpn.Billing.Store.{
  BillingState, update_billing_account_state, enqueue_billing_notification,
}
use z_wireguard_vpn.Billing.Settlement.{
  Platform, StateTransition, unchanged, grace_started, suspended, restored, is_due, revoke_all,
  reconcile_billing_account_state, restore, begin_grace, suspend, touch_settled, begin_suspension,
}

-- The state of an account after a reconciliation, by its state, whether its balance is not negative,
-- and whether its grace is over.
abbrev pub next_state : BillingState → Bool → Bool → BillingState
next_state _ true _ = BillingState.active
next_state BillingState.active false _ = BillingState.grace
next_state BillingState.grace false true = BillingState.suspended
next_state BillingState.grace false false = BillingState.grace
next_state BillingState.suspended false _ = BillingState.suspended

-- What is reported for a move from one state to another.
abbrev pub report : BillingState → BillingState → StateTransition
report BillingState.active BillingState.grace = grace_started
report BillingState.grace BillingState.suspended = suspended
report BillingState.grace BillingState.active = restored
report BillingState.suspended BillingState.active = restored
report _ _ = unchanged

abbrev pub is_suspension : StateTransition → Bool
is_suspension suspended = true
is_suspension _ = false

-- A session as the revocation of its account at `now` leaves it: hidden ones stay.
abbrev pub as_ended : ℕ → Session → Session
as_ended now s = if is_some s.hidden_at then s else as_revoked now s

-- The sessions that the suspension of an account ends: those of the account that are wanted active and
-- have not come to an end.
abbrev pub is_ended_by : ℕ → Session → Bool
is_ended_by account_id s =
    is_some_eq account_id s.account_id && is_desired_active s.desired_state && is_open_phase s.phase

count-revoke_found :
    (now k : ℕ) (s : Session) (sessions : List Session)
    → count (λ y. y.id == k) (revoke_found now s sessions) ≡ count (λ y. y.id == k) sessions
unfolding revoke_found update_session_status_phase update_session_desired_state
    request_revocation_transition
count-revoke_found now k s sessions =
    let t = request_revocation_transition s.phase in
    let wanted = set_desired_state now t.desired_state t.increment_generation in
    let marked = set_status_phase now t.status_transition in
    let first =
      count-update_where_key Session.id k (λ x. x.id == s.id) wanted (λ x. refl) sessions in
    let second =
      count-update_where_key Session.id k (λ x. x.id == s.id) marked (λ x. refl)
        (update_where (λ x. x.id == s.id) wanted sessions) in
    ground (arith, first, second)

revoke_found-other :
    (now j : ℕ) (s : Session) (sessions : List Session)
    → s.id ≢ j
    → row Session.id j (revoke_found now s sessions) ≡ row Session.id j sessions
unfolding revoke_found update_session_status_phase update_session_desired_state
    request_revocation_transition
revoke_found-other now j s sessions ne =
    let t = request_revocation_transition s.phase in
    let wanted = set_desired_state now t.desired_state t.increment_generation in
    let marked = set_status_phase now t.status_transition in
    ground (
      arith,
      row-update_where Session.id s.id j marked (λ x. refl)
          (update_where (λ x. x.id == s.id) wanted sessions),
      row-update_where Session.id s.id j wanted (λ x. refl) sessions,
    )

find?-passes :
    (k : ℕ) (p : Session → Bool) (xs : List Session) {x : Session}
    → find? (λ y. y.id == k && p y) xs ≡ some x
    → x.id ≡ k
find?-passes k p [] e = cc
find?-passes k p (y ∷ ys) {x} e = ground (arith, find?-passes k p ys {x = x})

row-absent :
    (k : ℕ) (xs : List Session) → row Session.id k xs ≡ none → count (λ y. y.id == k) xs ≡ 0
row-absent k [] e = refl
row-absent k (x ∷ xs) e = ground (arith, row-absent k xs)

module _ (now : ℕ) (reason : RevokeReason) where
  request-others :
      (k j : ℕ) (db : SessionDb)
      → let db' = (request_system_session_revocation now k reason db).1 in
        (count (λ y. y.id == j) db'.sessions ≡ count (λ y. y.id == j) db.sessions)
        × (k ≢ j → row Session.id j db'.sessions ≡ row Session.id j db.sessions)
  unfolding request_system_session_revocation find_session_phase_for_update
  request-others k j db = elim (Option-cases (find_session_phase_for_update k db.sessions)) [
    | inl missing ↦ rw (request_system_session_revocation, missing) (refl, λ ne. refl)
    | inr (s, found) ↦
        let same = find?-passes k (λ x. not (is_some x.hidden_at)) db.sessions found in
        rw (request_system_session_revocation, found)
          (
            count-revoke_found now j s db.sessions,
            λ ne. revoke_found-other now j s db.sessions (λ e. ne (ground arith)),
          )
  ]

  request-row :
      (s : Session) (db : SessionDb)
      → count (λ y. y.id == s.id) db.sessions ≤ 1
      → row Session.id s.id db.sessions ≡ some s
      → row Session.id s.id (request_system_session_revocation now s.id reason db).1.sessions
        ≡ some (as_ended now s)
  unfolding request_system_session_revocation find_session_phase_for_update
  request-row s db unique e = elim (Bool-cases (is_some s.hidden_at)) [
    | inl hidden ↦
        let missed =
          find?-row-none Session.id s.id (λ x. not (is_some x.hidden_at)) db.sessions unique e
            (ground arith) in
        rw (request_system_session_revocation, missed, hidden) e
    | inr visible ↦
        let found =
          find?-row Session.id s.id (λ x. not (is_some x.hidden_at)) db.sessions e (ground arith) in
        rw (request_system_session_revocation, found, visible)
          (ground (arith, row-revoke_found now s.id s db.sessions e))
  ]

module _ (now account_id : ℕ) (balance : ℤ) (due_at : Option ℕ) where
  revoke_all-other :
      (j : ℕ) (ss : List Session) (db : SessionDb)
      → count (λ y. y.id == j) ss ≡ 0
      → row Session.id j (revoke_all now account_id balance due_at ss db).sessions
        ≡ row Session.id j db.sessions
  unfolding revoke_all
  revoke_all-other j [] db absent = refl
  revoke_all-other j (s ∷ ss) db absent =
      let reason = billing_balance_exhausted account_id balance due_at in
      let db' = (request_system_session_revocation (now / 1000) s.id reason db).1 in
      let (same, kept) = request-others (now / 1000) reason s.id j db in
      let differ : s.id ≢ j = λ e. ground arith in
      let ih = revoke_all-other j ss db' (ground arith) in rw (ih, kept differ) refl

  revoke_all-row :
      (j : ℕ) (ss : List Session) (db : SessionDb) (s : Session)
      → count (λ y. y.id == j) ss ≤ 1
      → count (λ y. y.id == j) db.sessions ≤ 1
      → row Session.id j ss ≡ some s
      → row Session.id j db.sessions ≡ some s
      → row Session.id j (revoke_all now account_id balance due_at ss db).sessions
        ≡ some (as_ended (now / 1000) s)
  unfolding revoke_all
  revoke_all-row j [] db s once unique listed found = cc
  revoke_all-row j (x ∷ ss) db s once unique listed found =
      let reason = billing_balance_exhausted account_id balance due_at in
      let db' = (request_system_session_revocation (now / 1000) x.id reason db).1 in
      let (same, kept) = request-others (now / 1000) reason x.id j db in
      elim (Bool-cases (x.id == j)) [
        | inl here ↦
            let is : x ≡ s = ground arith in
            let key : s.id ≡ j = row_key Session.id j db.sessions found in
            let rest = revoke_all-other j ss db' (ground arith) in
            let ended : row Session.id s.id
                  (request_system_session_revocation (now / 1000) s.id reason db).1.sessions
                ≡ some (as_ended (now / 1000) s) =
              request-row (now / 1000) reason s db (ground arith) (cc) in
            ground (arith, rest, ended, is, key)
        | inr other ↦
            let differ : x.id ≢ j = λ e. ground arith in
            let still = kept differ in
            revoke_all-row j ss db' s (ground arith) (rw same unique) (ground arith)
              (rw still found)
      ]

-- The rows after the sessions of an account are revoked.
revoke_account-row :
    (now account_id j : ℕ) (balance : ℤ) (due_at : Option ℕ) (db : SessionDb)
    → count (λ y. y.id == j) db.sessions ≤ 1
    → row Session.id j
        (revoke_all now account_id balance due_at
          (list_non_terminal_account_sessions account_id db.sessions)
          db).sessions
      ≡ map_option
          (λ s. if is_ended_by account_id s then as_ended (now / 1000) s else s)
          (row Session.id j db.sessions)
unfolding list_non_terminal_account_sessions
revoke_account-row now account_id j balance due_at db unique =
    let p = is_ended_by account_id in
    let listed = filter p db.sessions in
    let fewer = count-filter (λ y. y.id == j) p db.sessions in
    let filtered = find?-filter (λ y. y.id == j) p db.sessions in
    elim (Option-cases (row Session.id j db.sessions)) [
      | inl missing ↦
          let absent = row-absent j db.sessions missing in
          let kept =
            revoke_all-other now account_id balance due_at j listed db
              (omega (arith, fewer, absent)) in
          ground (arith, kept, missing)
      | inr (s, found) ↦ elim (Bool-cases (p s)) [
        | inl ends ↦
            let there = find?-row Session.id j p db.sessions found ends in
            let ended =
              revoke_all-row now account_id balance due_at j listed db s
                (omega (arith, fewer, unique)) unique (ground (arith, filtered, there)) found in
            rw (ended, found, ends) refl
        | inr stays ↦
            let there = find?-row-none Session.id j p db.sessions unique found stays in
            let absent = row-absent j listed (ground (arith, filtered, there)) in
            let kept = revoke_all-other now account_id balance due_at j listed db absent in
            rw (kept, found, stays) refl
      ]
    ]

-- A reconciliation moves the account as the table of states says and reports the move. If it suspends the
-- account, which needs a negative balance and a grace that is over, it revokes exactly the sessions of the
-- account that are wanted active, are neither revoked nor failed, and are not hidden: each of these is
-- wanted revoked at its next generation and is revoking, and the row of any other session stays. If it
-- does not suspend it, the sessions and their audit trail stay as they are. The balance and the states
-- of other accounts never change. Session ids are a primary key.
pub reconcile_billing_account_state_lem :
    (now account_id : ℕ) (p : Platform)
    → ((k : ℕ) → count (λ s. s.id == k) p.session_db.sessions ≤ 1)
    → let st = p.billing.states account_id in
      let balance = available_billing_balance (p.billing.buckets account_id) in
      let (t, p') = reconcile_billing_account_state now account_id p in
      let next = next_state st.state (is_nonneg balance) (is_due now st.suspension_due_at) in
      ((p'.billing.states account_id).state ≡ next)
      × (t ≡ report st.state next)
      × ((j : ℕ)
          → row Session.id j p'.session_db.sessions
            ≡ map_option
                (λ s.
                  if is_suspension t && is_ended_by account_id s
                  then as_ended (now / 1000) s
                  else s)
                (row Session.id j p.session_db.sessions))
      × ((t ≡ suspended) ⊎ (p'.session_db ≡ p.session_db))
      × (p'.billing.buckets ≡ p.billing.buckets)
      × ((a : ℕ) → a ≢ account_id → p'.billing.states a ≡ p.billing.states a)
unfolding reconcile_billing_account_state restore begin_grace suspend touch_settled begin_suspension
    update_billing_account_state enqueue_billing_notification
reconcile_billing_account_state_lem now account_id p unique =
    let st = p.billing.states account_id in
    let balance = available_billing_balance (p.billing.buckets account_id) in
    (
      ground arith,
      ground arith,
      λ j. ground (
        arith,
        revoke_account-row now account_id j balance st.suspension_due_at p.session_db (unique j),
      ),
      ground arith,
      ground arith,
      λ a ne. ground arith,
    )
