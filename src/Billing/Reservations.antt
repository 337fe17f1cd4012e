-- ===== src/Billing/Reservations.antt =====
-- The reservation of an account is the sum of its open withdrawal requests, through every operation
-- on withdrawals; so a confirmation always finds the cash that it takes.
use z_wireguard_vpn.Common.{
  ℕ, ◌+◌, ◌≤◌, ◌≡◌, ◌⊎◌, Bool, true, false, ◌&&◌, some, String, List, [], ◌∷◌, arith, ◌==◌,
  if◌then◌else◌, sum_by, count, inl, inr, Option-cases,
}
use z_wireguard_vpn.Common.Int.{ℤ, pos_part}
use z_wireguard_vpn.Common.Table.{row, row-find?, row_key, find?-row}
use z_wireguard_vpn.Common.Table.Sums.{sum_by-append, sum_by-update_where, le-sum_by}
use z_wireguard_vpn.Session.{Session}
use z_wireguard_vpn.Session.Service.{SessionOwner}
use z_wireguard_vpn.Billing.Address.{normalize_solana_public_key}
use z_wireguard_vpn.Billing.Store.{
  BillingDb, WithdrawalRequest, WithdrawalStatus, withdrawal_request, has_entry,
  insert_ledger_entry, write_billing_buckets, enqueue_billing_notification,
}
use z_wireguard_vpn.Billing.Withdrawal.{
  find_withdrawal_for_update, create_withdrawal_request, open_withdrawal, cancel_owned_withdrawal,
  release_withdrawal, new_withdrawal, confirm_withdrawal, book_withdrawal, set_status,
}

-- The statuses of a request that still holds its amount.
abbrev pub holds_reservation : WithdrawalStatus → Bool
holds_reservation WithdrawalStatus.cooldown = true
holds_reservation WithdrawalStatus.ready = true
holds_reservation WithdrawalStatus.processing = true
holds_reservation WithdrawalStatus.submitted = true
holds_reservation WithdrawalStatus.failed = true
holds_reservation _ = false

abbrev pub held : ℕ → WithdrawalRequest → ℕ
held account_id w =
    if w.account_id == account_id && holds_reservation w.status then w.amount_minor else 0

abbrev pub held_total : ℕ → BillingDb → ℕ
held_total account_id db = sum_by (held account_id) db.withdrawals

-- What holds of an account between two transactions.
pub record IsReserved (account_id : ℕ) (db : BillingDb) : Type 0 where
  pub reserved : (db.buckets account_id).reserved_withdrawal_minor ≡ held_total account_id db
  pub covered : held_total account_id db ≤ (db.buckets account_id).cash_minor

open_withdrawal-IsReserved :
    (now account_id amount base_units : ℕ) (address : String) (db : BillingDb) (a : ℕ)
    → (db.buckets account_id).reserved_withdrawal_minor + amount
      ≤ (db.buckets account_id).cash_minor
    → IsReserved a db
    → IsReserved a (open_withdrawal now account_id amount base_units address db)
unfolding open_withdrawal write_billing_buckets enqueue_billing_notification
open_withdrawal-IsReserved now account_id amount base_units address db a fits h = ground (
  arith,
  sum_by-append (held a) db.withdrawals
      (new_withdrawal now account_id amount base_units address db ∷ []),
)

-- Creating a request reserves its amount, on every branch, for every account.
pub create_withdrawal_request-IsReserved :
    (now : ℕ) (actor : SessionOwner) (amount : ℤ) (destination : String) (base_units : ℕ)
    (sessions : List Session) (db : BillingDb) (a : ℕ)
    → IsReserved a db
    → IsReserved a (create_withdrawal_request now actor amount destination base_units sessions db).1
unfolding create_withdrawal_request
create_withdrawal_request-IsReserved now actor amount destination base_units sessions db a h =
    elim (Option-cases (normalize_solana_public_key destination)) [
      | inl invalid ↦ ground arith
      | inr (address, e) ↦ ground (
        arith,
        open_withdrawal-IsReserved now actor.account_id (pos_part amount) base_units address db a,
      )
    ]

release_withdrawal-IsReserved :
    (now account_id : ℕ) (w : WithdrawalRequest) (db : BillingDb) (a : ℕ)
    → count (λ (x : WithdrawalRequest). x.id == w.id) db.withdrawals ≤ 1
    → row WithdrawalRequest.id w.id db.withdrawals ≡ some w
    → w.account_id ≡ account_id
    → holds_reservation w.status ≡ true
    → IsReserved a db
    → IsReserved a (release_withdrawal now w account_id db)
unfolding release_withdrawal write_billing_buckets
release_withdrawal-IsReserved now account_id w db a unique found own holds h = ground (
  arith,
  sum_by-update_where WithdrawalRequest.id (held a) w.id (set_status now WithdrawalStatus.cancelled)
      db.withdrawals unique found,
)

book_withdrawal-IsReserved :
    (now account_id : ℕ) (w : WithdrawalRequest) (db : BillingDb) (a : ℕ)
    → count (λ (x : WithdrawalRequest). x.id == w.id) db.withdrawals ≤ 1
    → row WithdrawalRequest.id w.id db.withdrawals ≡ some w
    → w.account_id ≡ account_id
    → holds_reservation w.status ≡ true
    → has_entry (withdrawal_request w.id) db.ledger ≡ false
    → IsReserved a db
    → IsReserved a (book_withdrawal now w account_id db)
unfolding book_withdrawal write_billing_buckets insert_ledger_entry enqueue_billing_notification
book_withdrawal-IsReserved now account_id w db a unique found own holds fresh h = ground (
  arith,
  sum_by-update_where WithdrawalRequest.id (held a) w.id (set_status now WithdrawalStatus.confirmed)
      db.withdrawals unique found,
)

pub cancel_owned_withdrawal-IsReserved :
    (now : ℕ) (actor : SessionOwner) (id : ℕ) (db : BillingDb) (a : ℕ)
    → count (λ (x : WithdrawalRequest). x.id == id) db.withdrawals ≤ 1
    → IsReserved a db
    → IsReserved a (cancel_owned_withdrawal now actor id db).1
unfolding cancel_owned_withdrawal
cancel_owned_withdrawal-IsReserved now actor id db a unique h =
    elim (Option-cases (find_withdrawal_for_update actor.account_id id db.withdrawals)) [
      | inl missing ↦ ground arith
      | inr (w, e) ↦
          let (found, own) =
            row-find? WithdrawalRequest.id id (λ x. x.account_id == actor.account_id) db.withdrawals
              unique e in
          let same = row_key WithdrawalRequest.id id db.withdrawals found in
          ground (arith, release_withdrawal-IsReserved now actor.account_id w db a)
    ]

-- How a confirmation that finds a request can end without an error.
pub confirm_cases :
    (now account_id id : ℕ) (w : WithdrawalRequest) (db : BillingDb) {db' : BillingDb}
    → find_withdrawal_for_update account_id id db.withdrawals ≡ some w
    → confirm_withdrawal now account_id id db ≡ some db'
    → (db ≡ db')
      ⊎ ((w.status ≡ WithdrawalStatus.submitted) × (book_withdrawal now w account_id db ≡ db'))
unfolding confirm_withdrawal
confirm_cases now account_id id w db f e = ground arith

-- A submitted request of an account is confirmed: its error for a reservation that does not cover
-- it is never thrown.
pub confirm_withdrawal-submitted :
    (now account_id id : ℕ) (w : WithdrawalRequest) (db : BillingDb)
    → row WithdrawalRequest.id id db.withdrawals ≡ some w
    → w.account_id ≡ account_id
    → w.status ≡ WithdrawalStatus.submitted
    → IsReserved account_id db
    → confirm_withdrawal now account_id id db ≡ some (book_withdrawal now w account_id db)
unfolding confirm_withdrawal
confirm_withdrawal-submitted now account_id id w db found own submitted h =
    let f =
      find?-row WithdrawalRequest.id id (λ x. x.account_id == account_id) db.withdrawals found
        (ground arith) in
    let enough = le-sum_by WithdrawalRequest.id (held account_id) id db.withdrawals found in
    ground arith

-- The request with an id is not in the ledger while it holds its amount.
abbrev pub IsUnbooked : ℕ → BillingDb → Type 0
IsUnbooked id db =
    (w : WithdrawalRequest)
    → row WithdrawalRequest.id id db.withdrawals ≡ some w
    → holds_reservation w.status ≡ true
    → has_entry (withdrawal_request id) db.ledger ≡ false

pub confirm_withdrawal-IsReserved :
    (now account_id id : ℕ) (db : BillingDb) (a : ℕ) {db' : BillingDb}
    → count (λ (x : WithdrawalRequest). x.id == id) db.withdrawals ≤ 1
    → IsUnbooked id db
    → IsReserved a db
    → confirm_withdrawal now account_id id db ≡ some db'
    → IsReserved a db'
unfolding confirm_withdrawal
confirm_withdrawal-IsReserved now account_id id db a {db'} unique unbooked h e =
    elim (Option-cases (find_withdrawal_for_update account_id id db.withdrawals)) [
      | inl missing ↦ let same : db ≡ db' = ground arith in rw (← same) h
      | inr (w, f) ↦
          let (found, own) =
            row-find? WithdrawalRequest.id id (λ x. x.account_id == account_id) db.withdrawals
              unique f in
          let key = row_key WithdrawalRequest.id id db.withdrawals found in
          let free = unbooked w found in
          elim (confirm_cases now account_id id w db f e) [
            | inl same ↦ rw (← same) h
            | inr (submitted, booked) ↦
                rw (← booked)
                  (ground (arith, free, book_withdrawal-IsReserved now account_id w db a))
          ]
    ]
