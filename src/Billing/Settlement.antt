-- ===== src/Billing/Settlement.antt =====
-- Crediting an account, charging a rated window of usage, and the grace and suspension of an
-- account: packages/control-plane/src/application/billing/prepaid-billing.scenario.ts. Each function
-- is the body of one transaction; `none` in place of a state is a thrown error, which rolls back.
use z_wireguard_vpn.Common.{
  ℕ, ◌+◌, ◌-◌, ◌*◌, ◌/◌, ◌%◌, Bool, true, false, not, Option, none, some, List, [], ◌∷◌, leb,
  if◌then◌else◌,
}
use z_wireguard_vpn.Common.Int.{ℤ, pos, sub_ℕ, pos_part, is_nonneg}
use z_wireguard_vpn.Session.{Session}
use z_wireguard_vpn.Session.Store.{list_non_terminal_account_sessions}
use z_wireguard_vpn.Session.Service.{
  SessionDb, request_system_session_revocation, billing_balance_exhausted,
}
use z_wireguard_vpn.Billing.{
  CreditKind, is_cash, ChargeInput, calculate_retail_charge_microminor, consume_billing_charge,
  apply_bucket_credit, available_billing_balance, microminor_per_minor,
}
use z_wireguard_vpn.Billing.Store.{
  BillingDb, BillingState, BillingAccountState, BillingMode, shadow, enforce, topup, manual_credit,
  usage_charge, SourceKey, retail_usage_rating, LedgerEntry, UsageRating, CashSweep, SweepStatus,
  Notification, insert_ledger_entry, write_billing_buckets, insert_retail_usage_rating,
  update_billing_accrual, mark_rating_posted, insert_cash_sweep_request,
  update_billing_account_state, enqueue_billing_notification, balance_restored, configs_suspended,
}

-- The amount is a safe integer, and is positive.
abbrev pub is_valid_credit : ℤ → Bool
is_valid_credit amount = not (leb (pos_part amount) 0)

abbrev pub credit_entry : ℕ → ℤ → CreditKind → SourceKey → LedgerEntry
credit_entry account_id amount kind source = record {
  account_id = account_id;
  entry_type = if is_cash kind then topup else manual_credit;
  amount_minor = amount;
  source = source;
}

unfoldable pub apply_billing_credit : ℕ → ℤ → CreditKind → SourceKey → BillingDb → Option BillingDb
apply_billing_credit account_id amount kind source db =
    let buckets = db.buckets account_id in
    let (inserted, db') = insert_ledger_entry (credit_entry account_id amount kind source) db in
    if not (is_valid_credit amount)
    then none
    else some (
        if inserted
        then write_billing_buckets account_id (apply_bucket_credit buckets amount kind) db'
        else db')

pub record RatingCandidate : Type 0 where
  pub account_id : ℕ
  pub session_id : ℕ
  pub charge : ChargeInput
  pub window_start : ℕ
  pub window_end : ℕ

pub record RetailBillingConfig : Type 0 where
  pub mode : BillingMode
  pub token_base_units_per_billing_minor : ℕ

abbrev pub new_rating : RatingCandidate → RetailBillingConfig → UsageRating
new_rating candidate config = record {
  id = 0;
  account_id = candidate.account_id;
  session_id = candidate.session_id;
  window_start = candidate.window_start;
  window_end = candidate.window_end;
  charge_microminor = calculate_retail_charge_microminor candidate.charge;
  mode = config.mode;
  posted_charge_minor = 0;
}

-- The ledger entry, the buckets, the sweep of the cash that was spent, and the mark on the rating.
unfoldable pub post_charge :
    ℕ → ℕ → RatingCandidate → RetailBillingConfig → BillingDb → ℕ × BillingDb
post_charge rating_id posted_minor candidate config db =
    let account = candidate.account_id in
    let buckets = db.buckets account in
    let entry : LedgerEntry = record {
      account_id = account;
      entry_type = usage_charge;
      amount_minor = sub_ℕ 0 posted_minor;
      source = retail_usage_rating rating_id;
    } in
    let (inserted, db') = insert_ledger_entry entry db in
    let next_buckets = consume_billing_charge buckets (pos posted_minor) in
    let cash_spent_minor = buckets.cash_minor - next_buckets.cash_minor in
    let sweep : CashSweep = record {
      account_id = account;
      source = retail_usage_rating rating_id;
      amount_minor = cash_spent_minor;
      token_amount_base_units = cash_spent_minor * config.token_base_units_per_billing_minor;
      status = SweepStatus.pending;
    } in
    if inserted
    then (
      posted_minor,
      mark_rating_posted rating_id posted_minor
          (insert_cash_sweep_request sweep (write_billing_buckets account next_buckets db')),
    )
    else (0, db')

-- The part of a settlement that runs for a new rating in the mode `enforce`.
unfoldable pub charge_rating : ℕ → RatingCandidate → RetailBillingConfig → BillingDb → ℕ × BillingDb
charge_rating rating_id candidate config db =
    let account = candidate.account_id in
    let accumulated = db.accruals account + calculate_retail_charge_microminor candidate.charge in
    let posted_minor = accumulated / microminor_per_minor in
    let accrued = update_billing_accrual account (accumulated % microminor_per_minor) db in
    if leb posted_minor 0
    then (0, accrued)
    else post_charge rating_id posted_minor candidate config accrued

abbrev pub is_shadow : BillingMode → Bool
is_shadow shadow = true
is_shadow enforce = false

-- `none` where the window was rated before, and else what was posted.
unfoldable pub settle_rating_candidate :
    RatingCandidate → RetailBillingConfig → BillingDb → Option ℕ × BillingDb
settle_rating_candidate candidate config db =
    let (rating, db') = insert_retail_usage_rating (new_rating candidate config) db in
    elim rating [
      | none ↦ (none, db')
      | some rating_id ↦
          if is_shadow config.mode
          then (some 0, db')
          else (let (posted, db'') = charge_rating rating_id candidate config db' in
              (some posted, db''))
    ]

-- The state that the retail billing and the sessions share.
pub record Platform : Type 0 where
  pub billing : BillingDb
  pub session_db : SessionDb

pub data StateTransition : Type 0 where
  unchanged grace_started suspended restored : StateTransition

abbrev pub is_due : ℕ → Option ℕ → Bool
is_due now none = false
is_due now (some due_at) = leb due_at now

-- `requestSystemSessionRevocation` for each session. Session times are in seconds.
unfoldable pub revoke_all : ℕ → ℕ → ℤ → Option ℕ → List Session → SessionDb → SessionDb
revoke_all now account_id balance due_at [] db = db
revoke_all now account_id balance due_at (s ∷ ss) db =
    revoke_all now account_id balance due_at ss
      (request_system_session_revocation (now / 1000) s.id
        (billing_balance_exhausted account_id balance due_at) db).1

abbrev pub set_state : ℕ → BillingAccountState → Notification → BillingDb → BillingDb
set_state account_id state n db =
    enqueue_billing_notification n (update_billing_account_state account_id state db)

unfoldable pub restore : ℕ → ℕ → ℤ → BillingDb → StateTransition × BillingDb
restore now account_id balance db =
    let st = db.states account_id in
    let next : BillingAccountState = record {
      state = BillingState.active;
      overdrawn_at = none;
      suspension_due_at = none;
      suspended_at = none;
      withdrawal_eligible_at = st.withdrawal_eligible_at;
      last_settled_at = some now;
    } in
    elim st.state [
      | BillingState.active ↦ (unchanged, update_billing_account_state account_id next db)
      | _ ↦ (restored, set_state account_id next (balance_restored account_id now balance) db)
    ]

unfoldable pub begin_grace : ℕ → ℕ → ℤ → BillingDb → BillingDb
begin_grace now account_id balance db =
    set_state account_id
      (record {
        state = BillingState.grace;
        overdrawn_at = some now;
        suspension_due_at = some (now + (db.plans account_id).grace_period_seconds * 1000);
        suspended_at = none;
        withdrawal_eligible_at = none;
        last_settled_at = some now;
      })
      (Notification.grace_started account_id now balance) db

unfoldable pub begin_suspension : ℕ → ℕ → ℤ → BillingDb → BillingDb
begin_suspension now account_id balance db =
    let st = db.states account_id in
    set_state account_id
      (record {
        state = BillingState.suspended;
        overdrawn_at = st.overdrawn_at;
        suspension_due_at = st.suspension_due_at;
        suspended_at = some now;
        withdrawal_eligible_at =
            some (now + (db.plans account_id).withdrawal_cooldown_seconds * 1000);
        last_settled_at = some now;
      })
      (configs_suspended account_id now balance) db

unfoldable pub touch_settled : ℕ → ℕ → BillingDb → BillingDb
touch_settled now account_id db =
    update_billing_account_state account_id
      (record (db.states account_id) { last_settled_at = some now }) db

unfoldable pub suspend : ℕ → ℕ → ℤ → Platform → StateTransition × Platform
unfolding begin_suspension touch_settled
suspend now account_id balance p =
    let due_at = (p.billing.states account_id).suspension_due_at in
    if is_due now due_at
    then (
      suspended,
      record {
        billing = begin_suspension now account_id balance p.billing;
        session_db =
            revoke_all now account_id balance due_at
              (list_non_terminal_account_sessions account_id p.session_db.sessions) p.session_db;
      },
    )
    else (unchanged, record p { billing = touch_settled now account_id p.billing })

unfoldable pub reconcile_billing_account_state : ℕ → ℕ → Platform → StateTransition × Platform
unfolding restore begin_grace suspend touch_settled
reconcile_billing_account_state now account_id p =
    let balance = available_billing_balance (p.billing.buckets account_id) in
    if is_nonneg balance
    then (let (t, billing') = restore now account_id balance p.billing in
        (t, record p { billing = billing' }))
    else elim (p.billing.states account_id).state [
      | BillingState.active ↦
          (grace_started, record p { billing = begin_grace now account_id balance p.billing })
      | BillingState.grace ↦ suspend now account_id balance p
      | BillingState.suspended ↦
          (unchanged, record p { billing = touch_settled now account_id p.billing })
    ]
