-- ===== src/Billing/Tests.antt =====
-- The billing at concrete inputs.
use z_wireguard_vpn.Common.{
  ℕ, ◌≡◌, ◌≢◌, ◌+◌, ◌*◌, ◌<◌, ◌⊎◌, refl, false, none, some, List, [], ◌∷◌, arith, or_else, All,
  if◌then◌else◌, map_option, ◌-◌, ◌≤◌, ◌==◌, ◌&&◌, ◌++◌, any, count,
}
use z_wireguard_vpn.Common.Int.{pos, ◌-ℤ◌, is_nonneg}
use z_wireguard_vpn.Common.Table.{row}
use z_wireguard_vpn.Session.Store.{list_non_terminal_account_sessions}
use z_wireguard_vpn.Common.Json.{Json}
use z_wireguard_vpn.Session.{Session, SessionPhase, SessionDesiredState}
use z_wireguard_vpn.Session.Service.{SessionOwner}
use z_wireguard_vpn.Billing.{
  BillingBuckets, cash, consume_billing_charge, apply_bucket_credit, available_billing_balance,
  microminor_per_minor, calculate_retail_charge_microminor,
}
use z_wireguard_vpn.Billing.Store.{
  BillingDb, BillingState, BillingAccountState, BillingMode, SourceKey, WithdrawalRequest,
  WithdrawalStatus, CashSweep, source_eq, has_entry, insert_ledger_entry, write_billing_buckets,
  enqueue_billing_notification,
}
use z_wireguard_vpn.Billing.Address.{codes, decode_base58, normalize_solana_public_key}
use z_wireguard_vpn.Billing.Base58.{byte_value, numeral, decode_base58_lem}
use z_wireguard_vpn.Billing.Buckets.{IsCovered, consume_billing_charge_lem}
use z_wireguard_vpn.Billing.Settlement.{
  apply_billing_credit, RatingCandidate, RetailBillingConfig, settle_rating_candidate, Platform,
  reconcile_billing_account_state, is_due, suspended,
}
use z_wireguard_vpn.Billing.Withdrawal.{
  create_withdrawal_request, confirm_withdrawal, book_withdrawal, claim_withdrawal_signing_job,
  mark_withdrawal_submitted, claim_ready_withdrawal, advance_withdrawal_cooldowns, open_withdrawal,
}
use z_wireguard_vpn.Billing.Reservations.{IsReserved}
use z_wireguard_vpn.Billing.Soundness.{IsSound}
use z_wireguard_vpn.Billing.Ledger.{IsBalanced}
use z_wireguard_vpn.Billing.Runs.{
  Reachable, start, next, IsInitial, credit, create, claim, submit, empty_buckets,
  Reachable-IsReserved, Reachable-IsBalanced, Reachable-IsSound, Reachable-confirm,
}
use z_wireguard_vpn.Billing.Charges.{
  settle_rating_candidate-twice, settle_rating_candidate-enforce, IsUntouched, is_rated,
  usage_entries, usage_sweeps,
}
use z_wireguard_vpn.Billing.Accounts.{
  reconcile_billing_account_state_lem, next_state, report, is_suspension, is_ended_by, as_ended,
}

abbrev no_state : BillingAccountState
no_state = record {
  state = BillingState.active;
  overdrawn_at = none;
  suspension_due_at = none;
  suspended_at = none;
  withdrawal_eligible_at = none;
  last_settled_at = none;
}

abbrev empty_db : BillingDb
empty_db = record {
  accounts = 7 ∷ [];
  ledger = [];
  buckets = λ a. empty_buckets;
  accruals = λ a. 0;
  states = λ a. no_state;
  plans = λ a. record {
    grace_period_seconds = 3600;
    withdrawal_cooldown_seconds = 60;
    minimum_withdrawal_minor = 100;
  };
  ratings = [];
  sweeps = [];
  withdrawals = [];
  notifications = [];
  next_id = 1;
}

abbrev owner : SessionOwner
owner = record { id = 3; account_id = 7 }

-- An account that is credited 1000, requests 600 of it, and has the request signed and submitted.
abbrev credited_db : BillingDb
credited_db =
    or_else (apply_billing_credit 7 (pos 1000) cash (SourceKey.other_source 1 1) empty_db) empty_db

abbrev requested_db : BillingDb
requested_db =
    (create_withdrawal_request 1000 owner (pos 600) "11111111111111111111111111111112" 10000 []
      credited_db).1

abbrev signed_db : BillingDb
signed_db =
    (claim_withdrawal_signing_job 200000 (λ a. some "ed25519-jwk-seed-v1") [] requested_db).1

abbrev submitted_db : BillingDb
submitted_db = mark_withdrawal_submitted 201000 1 "signature" signed_db

initial : IsInitial empty_db
initial = record { no_withdrawals = refl; no_entries = refl; no_money = λ a. refl }

credited_ok :
    apply_billing_credit 7 (pos 1000) cash (SourceKey.other_source 1 1) empty_db ≡ some credited_db
unfolding apply_billing_credit insert_ledger_entry write_billing_buckets apply_bucket_credit
credited_ok = refl

submitted-Reachable : Reachable submitted_db
submitted-Reachable =
    next
      (next
        (next
          (next (start initial) (
            credit 7 (pos 1000) cash (SourceKey.other_source 1 1) empty_db (λ k. refl) credited_ok))
          (create 1000 owner (pos 600) "11111111111111111111111111111112" 10000 [] credited_db))
        (claim 200000 (λ a. some "ed25519-jwk-seed-v1") [] requested_db))
      (submit 201000 1 "signature" signed_db)

Reachable-IsReserved_example : IsReserved 7 submitted_db
Reachable-IsReserved_example = Reachable-IsReserved 7 submitted-Reachable

Reachable-IsBalanced_example : IsBalanced 7 submitted_db
Reachable-IsBalanced_example = Reachable-IsBalanced 7 submitted-Reachable

Reachable-IsSound_example : IsSound submitted_db
Reachable-IsSound_example = Reachable-IsSound submitted-Reachable

abbrev submitted_request : WithdrawalRequest
submitted_request = record {
  id = 1;
  account_id = 7;
  status = WithdrawalStatus.submitted;
  amount_minor = 600;
  token_amount_base_units = 6000000;
  destination_address = "11111111111111111111111111111112";
  eligible_at = 61000;
  requested_at = 1000;
  updated_at = 201000;
  transaction_signature = some "signature";
  failure_reason = none;
}

submitted_row : row WithdrawalRequest.id 1 submitted_db.withdrawals ≡ some submitted_request
unfolding mark_withdrawal_submitted claim_withdrawal_signing_job claim_ready_withdrawal
    advance_withdrawal_cooldowns create_withdrawal_request normalize_solana_public_key
    list_non_terminal_account_sessions apply_billing_credit insert_ledger_entry
    write_billing_buckets apply_bucket_credit open_withdrawal enqueue_billing_notification
submitted_row = refl

Reachable-confirm_example :
    confirm_withdrawal 202000 7 1 submitted_db
    ≡ some (book_withdrawal 202000 submitted_request 7 submitted_db)
Reachable-confirm_example =
    Reachable-confirm 202000 7 1 submitted_request submitted-Reachable submitted_row refl refl

abbrev an_hour : RatingCandidate
an_hour = record {
  account_id = 7;
  session_id = 4;
  charge = record {
    active_seconds = pos 3600;
    active_config_monthly_minor = pos 900;
    bytes_to_destination = pos 1000000000;
    bytes_from_destination = pos 500000000;
    traffic_per_gb_minor = pos 10;
  };
  window_start = 0;
  window_end = 3600;
}

abbrev enforced : RetailBillingConfig
enforced = record { mode = BillingMode.enforce; token_base_units_per_billing_minor = 10000 }

settle_rating_candidate-twice_example :
    let db' = (settle_rating_candidate an_hour enforced credited_db).1 in
    settle_rating_candidate an_hour enforced db' ≡ (none, db')
settle_rating_candidate-twice_example =
    settle_rating_candidate-twice an_hour enforced enforced credited_db

not_rated : is_rated an_hour credited_db ≡ false
unfolding apply_billing_credit insert_ledger_entry write_billing_buckets
not_rated = refl

not_booked :
    has_entry (SourceKey.retail_usage_rating credited_db.next_id) credited_db.ledger ≡ false
unfolding apply_billing_credit insert_ledger_entry write_billing_buckets
not_booked = refl

not_swept :
    any
      (λ (c : CashSweep). source_eq (SourceKey.retail_usage_rating credited_db.next_id) c.source)
      credited_db.sweeps
    ≡ false
unfolding apply_billing_credit insert_ledger_entry write_billing_buckets
not_swept = refl

settle_rating_candidate-enforce_example :
    let (result, db') = settle_rating_candidate an_hour enforced credited_db in
    (posted : ℕ) × (result ≡ some posted)
    × (posted * microminor_per_minor + db'.accruals 7
        ≡ credited_db.accruals 7 + calculate_retail_charge_microminor an_hour.charge)
    × (db'.accruals 7 < microminor_per_minor)
    × (db'.buckets 7 ≡ consume_billing_charge (credited_db.buckets 7) (pos posted))
    × (db'.ledger ≡ credited_db.ledger ++ usage_entries 7 credited_db.next_id posted)
    × (db'.sweeps
        ≡ credited_db.sweeps
          ++ usage_sweeps 7 credited_db.next_id
              ((credited_db.buckets 7).cash_minor - (db'.buckets 7).cash_minor)
              10000)
    × IsUntouched 7 credited_db db'
settle_rating_candidate-enforce_example =
    settle_rating_candidate-enforce an_hour enforced credited_db refl not_rated not_booked not_swept

abbrev some_buckets : BillingBuckets
some_buckets = record {
  cash_minor = 50;
  promotional_minor = 5;
  reserved_withdrawal_minor = 20;
  debt_minor = 3;
}

consume_billing_charge_example :
    let b' = consume_billing_charge some_buckets (pos 40) in
    (available_billing_balance b' ≡ available_billing_balance some_buckets -ℤ pos 40)
    × IsCovered b'
    × (b'.reserved_withdrawal_minor ≡ 20)
    × ((b'.cash_minor ≡ 50) ⊎ (b'.promotional_minor ≡ 0))
    × ((b'.debt_minor ≡ 3) ⊎ ((b'.promotional_minor ≡ 0) × (b'.cash_minor ≡ 20)))
consume_billing_charge_example = consume_billing_charge_lem some_buckets (pos 40) (omega arith)

abbrev running : ℕ → ℕ → Session
running id account_id = record {
  id = id;
  account_id = some account_id;
  generation = 1;
  desired_state = SessionDesiredState.active;
  spec = Json.null;
  create_request_id = none;
  created_at = 0;
  updated_at = 0;
  hidden_at = none;
  phase = SessionPhase.active;
  observed_generation = 1;
  last_error = none;
  status_updated_at = 0;
}

-- The account 7 owes 40 and its grace is over since 5000.
abbrev overdrawn : Platform
overdrawn = record {
  billing = record empty_db {
    buckets = λ a. record empty_buckets { debt_minor = 40 };
    states = λ a. record no_state {
      state = BillingState.grace;
      overdrawn_at = some 1000;
      suspension_due_at = some 5000;
    };
  };
  session_db = record { sessions = running 1 7 ∷ running 2 8 ∷ []; audits = [] };
}

overdrawn_ids : (k : ℕ) → count (λ s. s.id == k) overdrawn.session_db.sessions ≤ 1
overdrawn_ids k = ground arith

reconcile_billing_account_state_example :
    let st = overdrawn.billing.states 7 in
    let balance = available_billing_balance (overdrawn.billing.buckets 7) in
    let (t, p') = reconcile_billing_account_state 6000 7 overdrawn in
    let next = next_state st.state (is_nonneg balance) (is_due 6000 st.suspension_due_at) in
    ((p'.billing.states 7).state ≡ next)
    × (t ≡ report st.state next)
    × ((j : ℕ)
        → row Session.id j p'.session_db.sessions
          ≡ map_option
              (λ s. if is_suspension t && is_ended_by 7 s then as_ended 6 s else s)
              (row Session.id j overdrawn.session_db.sessions))
    × ((t ≡ suspended) ⊎ (p'.session_db ≡ overdrawn.session_db))
    × (p'.billing.buckets ≡ overdrawn.billing.buckets)
    × ((a : ℕ) → a ≢ 7 → p'.billing.states a ≡ overdrawn.billing.states a)
reconcile_billing_account_state_example =
    reconcile_billing_account_state_lem 6000 7 overdrawn overdrawn_ids

decode_base58_example :
    (map_option byte_value (decode_base58 (codes "1Qz9")) ≡ numeral 0 (codes "1Qz9"))
    × ((out : List ℕ) → decode_base58 (codes "1Qz9") ≡ some out → All (λ b. b < 256) out)
decode_base58_example = decode_base58_lem (codes "1Qz9")
