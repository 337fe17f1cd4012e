-- ===== src/Billing/Ledger.antt =====
-- The ledger against the buckets: the buckets of an account are worth what its entries add up to.
use z_wireguard_vpn.Common.{
  ℕ, ◌+◌, ◌/◌, ◌%◌, ◌≤◌, ◌≡◌, leb, Option, some, String, List, [], ◌∷◌, arith, ◌==◌, if◌then◌else◌,
  inl, inr, Option-cases, Bool-cases, sum_by, Bool, true, false, ◌&&◌,
}
use z_wireguard_vpn.Common.Int.{ℤ, pos, pos_part, neg_part, sub_ℕ}
use z_wireguard_vpn.Common.Table.Sums.{sum_by-append}
use z_wireguard_vpn.Session.{Session}
use z_wireguard_vpn.Session.Service.{SessionOwner}
use z_wireguard_vpn.Billing.{
  microminor_per_minor, BillingBuckets, CreditKind, cash, promotional, apply_bucket_credit,
  consume_billing_charge, calculate_retail_charge_microminor,
}
use z_wireguard_vpn.Billing.Address.{normalize_solana_public_key}
use z_wireguard_vpn.Billing.Store.{
  EntryType, BillingDb, UsageRating, WithdrawalRequest, LedgerEntry, SourceKey, withdrawal_request,
  insert_ledger_entry, write_billing_buckets, enqueue_billing_notification,
  insert_retail_usage_rating, update_billing_accrual, mark_rating_posted, insert_cash_sweep_request,
}
use z_wireguard_vpn.Billing.Settlement.{
  apply_billing_credit, settle_rating_candidate, charge_rating, post_charge, RatingCandidate,
  RetailBillingConfig, credit_entry, new_rating,
}
use z_wireguard_vpn.Billing.Withdrawal.{
  find_withdrawal_for_update, create_withdrawal_request, open_withdrawal, cancel_owned_withdrawal,
  release_withdrawal, confirm_withdrawal, book_withdrawal, claim_withdrawal_signing_job,
  advance_withdrawal_cooldowns, claim_ready_withdrawal, mark_withdrawal_failed, first_ready,
}
use z_wireguard_vpn.Billing.Postings.{credit_cases}
use z_wireguard_vpn.Billing.Reservations.{confirm_cases}
use z_wireguard_vpn.Billing.Windows.{settle_cases}

-- The import of usage books its entries beside the buckets.
abbrev pub is_of_buckets : EntryType → Bool
is_of_buckets EntryType.usage = false
is_of_buckets _ = true

abbrev pub credited : ℕ → LedgerEntry → ℕ
credited account_id e =
    if e.account_id == account_id && is_of_buckets e.entry_type then pos_part e.amount_minor else 0

abbrev pub debited : ℕ → LedgerEntry → ℕ
debited account_id e =
    if e.account_id == account_id && is_of_buckets e.entry_type then neg_part e.amount_minor else 0

-- Credits less debits, those of imported usage apart, are the cash and the promotional credit less the
-- debt.
abbrev pub Balances : ℕ → List LedgerEntry → BillingBuckets → Type 0
Balances account_id ledger b =
    sum_by (credited account_id) ledger + b.debt_minor
    ≡ b.cash_minor + b.promotional_minor + sum_by (debited account_id) ledger

abbrev pub IsBalanced : ℕ → BillingDb → Type 0
IsBalanced account_id db = Balances account_id db.ledger (db.buckets account_id)

consume-worth :
    (b : BillingBuckets) (n : ℕ)
    → let b' = consume_billing_charge b (pos n) in
      b'.cash_minor + b'.promotional_minor + b.debt_minor + n
      ≡ b.cash_minor + b.promotional_minor + b'.debt_minor
unfolding consume_billing_charge
consume-worth b n = grind arith

credit-worth :
    (b : BillingBuckets) (amount : ℤ) (kind : CreditKind)
    → let b' = apply_bucket_credit b amount kind in
      b'.cash_minor + b'.promotional_minor + b.debt_minor
      ≡ b.cash_minor + b.promotional_minor + b'.debt_minor + pos_part amount
unfolding apply_bucket_credit
credit-worth b amount cash = grind arith
credit-worth b amount promotional = grind arith

pub apply_billing_credit-IsBalanced :
    (account_id : ℕ) (amount : ℤ) (kind : CreditKind) (source : SourceKey) (db : BillingDb) (a : ℕ)
    {db' : BillingDb}
    → IsBalanced a db
    → apply_billing_credit account_id amount kind source db ≡ some db'
    → IsBalanced a db'
apply_billing_credit-IsBalanced account_id amount kind source db a {db'} h e =
    let entry = credit_entry account_id amount kind source in
    let (positive, cases) = credit_cases account_id amount kind source db e in
    elim cases [
      | inl (old, same) ↦ rw (← same) h
      | inr (new, booked) ↦ rw (← booked) (
          ground (
            arith,
            sum_by-append (credited a) db.ledger (entry ∷ []),
            sum_by-append (debited a) db.ledger (entry ∷ []),
            credit-worth (db.buckets account_id) amount kind,
          ))
    ]

post_charge-IsBalanced :
    (rating_id posted : ℕ) (candidate : RatingCandidate) (config : RetailBillingConfig)
    (db : BillingDb) (a : ℕ)
    → IsBalanced a db
    → IsBalanced a (post_charge rating_id posted candidate config db).1
unfolding post_charge insert_ledger_entry write_billing_buckets mark_rating_posted
    insert_cash_sweep_request
post_charge-IsBalanced rating_id posted candidate config db a h =
    let entry : LedgerEntry = record {
      account_id = candidate.account_id;
      entry_type = EntryType.usage_charge;
      amount_minor = sub_ℕ 0 posted;
      source = SourceKey.retail_usage_rating rating_id;
    } in
    ground (
      arith,
      consume-worth (db.buckets candidate.account_id) posted,
      sum_by-append (credited a) db.ledger (entry ∷ []),
      sum_by-append (debited a) db.ledger (entry ∷ []),
    )

charge_rating-IsBalanced :
    (rating_id : ℕ) (candidate : RatingCandidate) (config : RetailBillingConfig) (db : BillingDb)
    (a : ℕ)
    → IsBalanced a db
    → IsBalanced a (charge_rating rating_id candidate config db).1
unfolding charge_rating update_billing_accrual
charge_rating-IsBalanced rating_id candidate config db a h =
    let total =
      db.accruals candidate.account_id + calculate_retail_charge_microminor candidate.charge in
    let accrued = update_billing_accrual candidate.account_id (total % microminor_per_minor) db in
    elim (Bool-cases (leb (total / microminor_per_minor) 0)) [
      | inl small ↦ rw small h
      | inr large ↦ rw large (
          post_charge-IsBalanced rating_id (total / microminor_per_minor) candidate config accrued a
            h)
    ]

rated-IsBalanced :
    (r : UsageRating) (db : BillingDb) (a : ℕ)
    → IsBalanced a db
    → IsBalanced a (insert_retail_usage_rating r db).1
unfolding insert_retail_usage_rating
rated-IsBalanced r db a h = ground arith

pub settle_rating_candidate-IsBalanced :
    (candidate : RatingCandidate) (config : RetailBillingConfig) (db : BillingDb) (a : ℕ)
    → IsBalanced a db
    → IsBalanced a (settle_rating_candidate candidate config db).1
settle_rating_candidate-IsBalanced candidate config db a h =
    let rated = rated-IsBalanced (new_rating candidate config) db a h in
    elim (settle_cases candidate config db) [
      | inl old ↦ rw old h
      | inr (inl quiet) ↦ rw quiet rated
      | inr (inr charged) ↦
          rw charged (charge_rating-IsBalanced db.next_id candidate config _ a rated)
    ]

-- A booking takes the amount once, with its entry, or not at all.
book_withdrawal-IsBalanced :
    (now account_id : ℕ) (w : WithdrawalRequest) (db : BillingDb) (a : ℕ)
    → w.amount_minor ≤ (db.buckets account_id).cash_minor
    → IsBalanced a db
    → IsBalanced a (book_withdrawal now w account_id db)
unfolding book_withdrawal write_billing_buckets insert_ledger_entry enqueue_billing_notification
book_withdrawal-IsBalanced now account_id w db a enough h =
    let entry : LedgerEntry = record {
      account_id = account_id;
      entry_type = EntryType.withdrawal;
      amount_minor = sub_ℕ 0 w.amount_minor;
      source = withdrawal_request w.id;
    } in
    ground (
      arith,
      sum_by-append (credited a) db.ledger (entry ∷ []),
      sum_by-append (debited a) db.ledger (entry ∷ []),
    )

pub confirm_withdrawal-IsBalanced :
    (now account_id id : ℕ) (db : BillingDb) (a : ℕ) {db' : BillingDb}
    → IsBalanced a db
    → confirm_withdrawal now account_id id db ≡ some db'
    → IsBalanced a db'
unfolding confirm_withdrawal
confirm_withdrawal-IsBalanced now account_id id db a {db'} h e =
    elim (Option-cases (find_withdrawal_for_update account_id id db.withdrawals)) [
      | inl missing ↦ let same : db ≡ db' = ground arith in rw (← same) h
      | inr (w, f) ↦ elim (confirm_cases now account_id id w db f e) [
        | inl same ↦ rw (← same) h
        | inr (submitted, booked) ↦
            rw (← booked) (ground (arith, book_withdrawal-IsBalanced now account_id w db a))
      ]
    ]

-- The other transactions on withdrawals move no money.
pub create_withdrawal_request-IsBalanced :
    (now : ℕ) (actor : SessionOwner) (amount : ℤ) (destination : String) (base_units : ℕ)
    (sessions : List Session) (db : BillingDb) (a : ℕ)
    → IsBalanced a db
    → IsBalanced a (create_withdrawal_request now actor amount destination base_units sessions db).1
unfolding create_withdrawal_request open_withdrawal write_billing_buckets
    enqueue_billing_notification
create_withdrawal_request-IsBalanced now actor amount destination base_units sessions db a h =
    elim (Option-cases (normalize_solana_public_key destination)) [
      | inl invalid ↦ ground arith
      | inr (address, e) ↦ ground arith
    ]

pub cancel_owned_withdrawal-IsBalanced :
    (now : ℕ) (actor : SessionOwner) (id : ℕ) (db : BillingDb) (a : ℕ)
    → IsBalanced a db
    → IsBalanced a (cancel_owned_withdrawal now actor id db).1
unfolding cancel_owned_withdrawal release_withdrawal write_billing_buckets
cancel_owned_withdrawal-IsBalanced now actor id db a h =
    elim (Option-cases (find_withdrawal_for_update actor.account_id id db.withdrawals)) [
      | inl missing ↦ ground arith
      | inr (w, e) ↦ ground arith
    ]

pub claim_withdrawal_signing_job-IsBalanced :
    (now : ℕ) (key_format : ℕ → Option String) (sessions : List Session) (db : BillingDb) (a : ℕ)
    → IsBalanced a db
    → IsBalanced a (claim_withdrawal_signing_job now key_format sessions db).1
unfolding claim_withdrawal_signing_job claim_ready_withdrawal advance_withdrawal_cooldowns
    mark_withdrawal_failed
claim_withdrawal_signing_job-IsBalanced now key_format sessions db a h =
    elim (Option-cases (first_ready (advance_withdrawal_cooldowns now sessions db).withdrawals)) [
      | inl empty ↦ ground arith
      | inr (w, e) ↦ ground arith
    ]
