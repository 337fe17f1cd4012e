-- ===== src/Billing/Withdrawal.antt =====
-- Withdrawals of cash to a Solana address:
-- packages/control-plane/src/application/billing/withdrawal.scenario.ts and the statements on
-- `withdrawal_requests` in resources/billing/prepaid-repository.ts. Each function is one transaction.
use z_wireguard_vpn.Common.{
  ℕ, ◌+◌, ◌-◌, ◌*◌, Bool, true, false, not, ◌&&◌, ◌||◌, Option, none, some, String, List, [], ◌∷◌,
  ◌++◌, ◌==◌, leb, ltb, if◌then◌else◌, find?,
}
use z_wireguard_vpn.Common.Int.{ℤ, sub_ℕ, pos_part}
use z_wireguard_vpn.Common.Table.{update_where}
use text.Mathlib.Text.{◌==◌ as str_eq}
use z_wireguard_vpn.Session.{Session}
use z_wireguard_vpn.Session.Store.{list_non_terminal_account_sessions}
use z_wireguard_vpn.Session.Service.{SessionOwner}
use z_wireguard_vpn.Billing.{BillingBuckets}
use z_wireguard_vpn.Billing.Store.{
  BillingDb, BillingPlan, WithdrawalRequest, WithdrawalStatus, LedgerEntry, EntryType,
  withdrawal_request, withdrawal_requested, withdrawal_confirmed, insert_ledger_entry,
  write_billing_buckets, enqueue_billing_notification,
}
use z_wireguard_vpn.Billing.Address.{normalize_solana_public_key}

pub data CreateWithdrawalResult : Type 0 where
  created : ℕ → CreateWithdrawalResult
  invalid_withdrawal_amount invalid_withdrawal_destination : CreateWithdrawalResult
  active_configs_present insufficient_withdrawable_balance : CreateWithdrawalResult

abbrev pub has_open_session : ℕ → List Session → Bool
has_open_session account_id sessions =
    elim (list_non_terminal_account_sessions account_id sessions) [ [] ↦ false | _ ∷ _ ↦ true ]

abbrev pub new_withdrawal : ℕ → ℕ → ℕ → ℕ → String → BillingDb → WithdrawalRequest
new_withdrawal now account_id amount base_units destination db = record {
  id = db.next_id;
  account_id = account_id;
  status = WithdrawalStatus.cooldown;
  amount_minor = amount;
  token_amount_base_units = amount * base_units;
  destination_address = destination;
  eligible_at = now + (db.plans account_id).withdrawal_cooldown_seconds * 1000;
  requested_at = now;
  updated_at = now;
  transaction_signature = none;
  failure_reason = none;
}

-- The row, the reservation and the notification of a request that passed the checks.
unfoldable pub open_withdrawal : ℕ → ℕ → ℕ → ℕ → String → BillingDb → BillingDb
open_withdrawal now account_id amount base_units destination db =
    let buckets = db.buckets account_id in
    enqueue_billing_notification (withdrawal_requested db.next_id amount) (
      write_billing_buckets account_id
        (record buckets { reserved_withdrawal_minor = buckets.reserved_withdrawal_minor + amount })
        (record db {
          withdrawals =
              db.withdrawals ++ new_withdrawal now account_id amount base_units destination db ∷ [];
          next_id = db.next_id + 1;
        }))

-- Debt, less than the plan's minimum, or more than the unreserved cash (which may be negative).
abbrev pub is_insufficient : BillingBuckets → ℕ → ℕ → Bool
is_insufficient b minimum amount =
    ltb 0 b.debt_minor
    || ltb amount minimum
    || ltb b.cash_minor (b.reserved_withdrawal_minor + amount)

unfoldable pub create_withdrawal_request :
    ℕ
    → SessionOwner
    → ℤ
    → String
    → ℕ
    → List Session
    → BillingDb
    → CreateWithdrawalResult × BillingDb
create_withdrawal_request now actor amount_minor destination base_units sessions db =
    let account = actor.account_id in
    let amount = pos_part amount_minor in
    if leb amount 0
    then (invalid_withdrawal_amount, db)
    else elim (normalize_solana_public_key destination) [
      | none ↦ (invalid_withdrawal_destination, db)
      | some address ↦
          if has_open_session account sessions
          then (active_configs_present, db)
          else if is_insufficient (db.buckets account) (db.plans account).minimum_withdrawal_minor
              amount
          then (insufficient_withdrawable_balance, db)
          else (created db.next_id, open_withdrawal now account amount base_units address db)
    ]

abbrev pub find_withdrawal_for_update : ℕ → ℕ → List WithdrawalRequest → Option WithdrawalRequest
find_withdrawal_for_update account_id withdrawal_id withdrawals =
    find? (λ w. w.id == withdrawal_id && w.account_id == account_id) withdrawals

abbrev pub set_status : ℕ → WithdrawalStatus → WithdrawalRequest → WithdrawalRequest
set_status now status w = record w { status = status; updated_at = now }

abbrev pub is_cancellable : WithdrawalStatus → Bool
is_cancellable WithdrawalStatus.cooldown = true
is_cancellable WithdrawalStatus.ready = true
is_cancellable WithdrawalStatus.failed = true
is_cancellable _ = false

pub data CancelResult : Type 0 where
  cancelled not_found not_cancellable : CancelResult

-- `cancelWithdrawalRequest` and the release of the reservation.
unfoldable pub release_withdrawal : ℕ → WithdrawalRequest → ℕ → BillingDb → BillingDb
release_withdrawal now w account_id db =
    let buckets = db.buckets account_id in
    write_billing_buckets account_id
      (record buckets {
        reserved_withdrawal_minor = buckets.reserved_withdrawal_minor - w.amount_minor;
      })
      (record db {
        withdrawals =
            update_where (λ x. x.id == w.id) (set_status now WithdrawalStatus.cancelled)
              db.withdrawals;
      })

unfoldable pub cancel_owned_withdrawal : ℕ → SessionOwner → ℕ → BillingDb → CancelResult × BillingDb
cancel_owned_withdrawal now actor withdrawal_id db =
    elim (find_withdrawal_for_update actor.account_id withdrawal_id db.withdrawals) [
      | none ↦ (not_found, db)
      | some w ↦
          if is_cancellable w.status
          then (cancelled, release_withdrawal now w actor.account_id db)
          else (not_cancellable, db)
    ]

abbrev pub is_waiting : WithdrawalStatus → Bool
is_waiting WithdrawalStatus.cooldown = true
is_waiting WithdrawalStatus.ready = true
is_waiting _ = false

abbrev pub is_retriable : WithdrawalStatus → Bool
is_retriable WithdrawalStatus.cooldown = true
is_retriable WithdrawalStatus.failed = true
is_retriable _ = false

abbrev pub is_put_off : List Session → WithdrawalRequest → Bool
is_put_off sessions w = is_waiting w.status && has_open_session w.account_id sessions

abbrev pub put_off : ℕ → (ℕ → BillingPlan) → WithdrawalRequest → WithdrawalRequest
put_off now plans w = record w {
  eligible_at = now + (plans w.account_id).withdrawal_cooldown_seconds * 1000;
  updated_at = now;
}

-- An eligible request of an account without open sessions that has rested for a minute.
abbrev pub is_eligible : ℕ → List Session → WithdrawalRequest → Bool
is_eligible now sessions w =
    is_retriable w.status
    && (leb w.eligible_at now
        && (ltb (w.updated_at + 60000) now && not (has_open_session w.account_id sessions)))

unfoldable pub advance_withdrawal_cooldowns : ℕ → List Session → BillingDb → BillingDb
advance_withdrawal_cooldowns now sessions db = record db {
  withdrawals =
      update_where (is_eligible now sessions) (set_status now WithdrawalStatus.ready)
        (update_where (is_put_off sessions) (put_off now db.plans) db.withdrawals);
}

abbrev pub is_ready : WithdrawalStatus → Bool
is_ready WithdrawalStatus.ready = true
is_ready _ = false

abbrev comes_before : WithdrawalRequest → WithdrawalRequest → Bool
comes_before v w =
    ltb v.eligible_at w.eligible_at
    || (v.eligible_at == w.eligible_at && leb v.requested_at w.requested_at)

-- The ready request that is first by `eligible_at, requested_at`.
unfoldable pub first_ready : List WithdrawalRequest → Option WithdrawalRequest
first_ready [] = none
first_ready (w ∷ ws) =
    let rest = first_ready ws in
    if is_ready w.status
    then elim rest [ none ↦ some w | some v ↦ if comes_before w v then some w else some v ]
    else rest

abbrev pub set_processing : ℕ → WithdrawalRequest → WithdrawalRequest
set_processing now w = record w {
  status = WithdrawalStatus.processing;
  failure_reason = none;
  updated_at = now;
}

unfoldable pub claim_ready_withdrawal : ℕ → BillingDb → Option WithdrawalRequest × BillingDb
unfolding first_ready
claim_ready_withdrawal now db = elim (first_ready db.withdrawals) [
  | none ↦ (none, db)
  | some w ↦ (
    some (set_processing now w),
    record db {
      withdrawals = update_where (λ x. x.id == w.id) (set_processing now) db.withdrawals;
    },
  )
]

abbrev pub is_processing : WithdrawalStatus → Bool
is_processing WithdrawalStatus.processing = true
is_processing _ = false

abbrev pub is_in_flight : WithdrawalStatus → Bool
is_in_flight WithdrawalStatus.processing = true
is_in_flight WithdrawalStatus.submitted = true
is_in_flight _ = false

abbrev pub set_failed : ℕ → String → WithdrawalRequest → WithdrawalRequest
set_failed now error w = record w {
  status = WithdrawalStatus.failed;
  failure_reason = some error;
  updated_at = now;
}

-- The text's cut at 2000 characters is left out.
unfoldable pub mark_withdrawal_failed : ℕ → ℕ → String → BillingDb → BillingDb
mark_withdrawal_failed now withdrawal_id error db = record db {
  withdrawals =
      update_where (λ w. w.id == withdrawal_id && is_in_flight w.status) (set_failed now error)
        db.withdrawals;
}

abbrev pub set_submitted : ℕ → String → WithdrawalRequest → WithdrawalRequest
set_submitted now signature w = record w {
  status = WithdrawalStatus.submitted;
  transaction_signature = some signature;
  updated_at = now;
}

unfoldable pub mark_withdrawal_submitted : ℕ → ℕ → String → BillingDb → BillingDb
mark_withdrawal_submitted now withdrawal_id signature db = record db {
  withdrawals =
      update_where (λ w. w.id == withdrawal_id && is_processing w.status)
        (set_submitted now signature) db.withdrawals;
}

-- `key_format` is the format that the stored wallet key of an account decrypts to, if there is one.
unfoldable pub claim_withdrawal_signing_job :
    ℕ → (ℕ → Option String) → List Session → BillingDb → Option WithdrawalRequest × BillingDb
claim_withdrawal_signing_job now key_format sessions db =
    let (claimed, db') =
      claim_ready_withdrawal now (advance_withdrawal_cooldowns now sessions db) in
    elim claimed [
      | none ↦ (none, db')
      | some w ↦ elim (key_format w.account_id) [
        | none ↦ (none, mark_withdrawal_failed now w.id "custodial wallet key not found" db')
        | some format ↦ if str_eq format "ed25519-jwk-seed-v1" then (some w, db') else (
          none,
          mark_withdrawal_failed now w.id "unsupported custodial wallet key format" db',
        )
      ]
    ]

abbrev set_buckets_withdrawn : ℕ → BillingBuckets → BillingBuckets
set_buckets_withdrawn amount b = record b {
  cash_minor = b.cash_minor - amount;
  reserved_withdrawal_minor = b.reserved_withdrawal_minor - amount;
}

-- The effect of a confirmation whose checks passed.
unfoldable pub book_withdrawal : ℕ → WithdrawalRequest → ℕ → BillingDb → BillingDb
book_withdrawal now w account_id db =
    let buckets = db.buckets account_id in
    let entry : LedgerEntry = record {
      account_id = account_id;
      entry_type = EntryType.withdrawal;
      amount_minor = sub_ℕ 0 w.amount_minor;
      source = withdrawal_request w.id;
    } in
    let (inserted, db') = insert_ledger_entry entry db in
    let written =
      if inserted
      then write_billing_buckets account_id (set_buckets_withdrawn w.amount_minor buckets) db'
      else db' in
    enqueue_billing_notification (withdrawal_confirmed w.id w.amount_minor) (record written {
      withdrawals =
          update_where (λ x. x.id == w.id) (set_status now WithdrawalStatus.confirmed)
            written.withdrawals;
    })

-- `none` is a thrown error: the request is not submitted, or the reservation does not cover it.
unfoldable pub confirm_withdrawal : ℕ → ℕ → ℕ → BillingDb → Option BillingDb
confirm_withdrawal now account_id withdrawal_id db =
    elim (find_withdrawal_for_update account_id withdrawal_id db.withdrawals) [
      | none ↦ some db
      | some w ↦ elim w.status [
        | WithdrawalStatus.confirmed ↦ some db
        | WithdrawalStatus.submitted ↦
            if ltb (db.buckets account_id).cash_minor w.amount_minor
              || ltb (db.buckets account_id).reserved_withdrawal_minor w.amount_minor
            then none
            else some (book_withdrawal now w account_id db)
        | _ ↦ none
      ]
    ]
