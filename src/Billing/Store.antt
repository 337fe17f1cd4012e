-- ===== src/Billing/Store.antt =====
-- The tables of the prepaid billing, and the statements of
-- packages/control-plane/src/resources/billing/prepaid-repository.ts and of `insertLedgerEntry` in
-- repository.ts. Times are in milliseconds. A row that `ensurePrepaidBillingState` would insert
-- reads as that default row, so buckets, accruals and states are total maps by account.
use z_wireguard_vpn.Common.{
  ℕ, ◌+◌, Bool, true, false, ◌&&◌, ◌||◌, Option, none, some, String, List, [], ◌∷◌, ◌++◌, ◌==◌, leb,
  if◌then◌else◌, any, update,
}
use z_wireguard_vpn.Common.Int.{ℤ}
use z_wireguard_vpn.Common.Table.{update_where}
use z_wireguard_vpn.Billing.{BillingBuckets}

pub data BillingState : Type 0 where
  active grace suspended : BillingState

pub record BillingAccountState : Type 0 where
  pub state : BillingState
  pub overdrawn_at : Option ℕ
  pub suspension_due_at : Option ℕ
  pub suspended_at : Option ℕ
  pub withdrawal_eligible_at : Option ℕ
  pub last_settled_at : Option ℕ

pub record BillingPlan : Type 0 where
  pub grace_period_seconds : ℕ
  pub withdrawal_cooldown_seconds : ℕ
  pub minimum_withdrawal_minor : ℕ

pub data EntryType : Type 0 where
  topup manual_credit usage usage_charge withdrawal : EntryType

-- The pair (`source_type`, `source_id`), a unique index of the ledger and of the sweeps.
pub data SourceKey : Type 0 where
  retail_usage_rating withdrawal_request rated_usage_event : ℕ → SourceKey
  other_source : ℕ → ℕ → SourceKey

pub record LedgerEntry : Type 0 where
  pub account_id : ℕ
  pub entry_type : EntryType
  pub amount_minor : ℤ
  pub source : SourceKey

pub data BillingMode : Type 0 where
  shadow enforce : BillingMode

pub record UsageRating : Type 0 where
  pub id : ℕ
  pub account_id : ℕ
  pub session_id : ℕ
  pub window_start : ℕ
  pub window_end : ℕ
  pub charge_microminor : ℕ
  pub mode : BillingMode
  pub posted_charge_minor : ℕ

pub data SweepStatus : Type 0 where
  pending processing submitted confirmed failed : SweepStatus

pub record CashSweep : Type 0 where
  pub account_id : ℕ
  pub source : SourceKey
  pub amount_minor : ℕ
  pub token_amount_base_units : ℕ
  pub status : SweepStatus

pub data WithdrawalStatus : Type 0 where
  cooldown ready processing submitted confirmed rejected cancelled failed : WithdrawalStatus

pub record WithdrawalRequest : Type 0 where
  pub id : ℕ
  pub account_id : ℕ
  pub status : WithdrawalStatus
  pub amount_minor : ℕ
  pub token_amount_base_units : ℕ
  pub destination_address : String
  pub eligible_at : ℕ
  pub requested_at : ℕ
  pub updated_at : ℕ
  pub transaction_signature : Option String
  pub failure_reason : Option String

pub data Notification : Type 0 where
  -- The account, the time and the balance.
  balance_restored grace_started configs_suspended : ℕ → ℕ → ℤ → Notification
  -- The request and its amount.
  withdrawal_requested withdrawal_confirmed : ℕ → ℕ → Notification

-- `accounts` are the keys of `billing_account_states`; `next_id` is the supply of fresh row ids (`gen_random_uuid()`).
pub record BillingDb : Type 0 where
  pub accounts : List ℕ
  pub ledger : List LedgerEntry
  pub buckets : ℕ → BillingBuckets
  pub accruals : ℕ → ℕ
  pub states : ℕ → BillingAccountState
  pub plans : ℕ → BillingPlan
  pub ratings : List UsageRating
  pub sweeps : List CashSweep
  pub withdrawals : List WithdrawalRequest
  pub notifications : List Notification
  pub next_id : ℕ

abbrev pub source_eq : SourceKey → SourceKey → Bool
source_eq (retail_usage_rating a) (retail_usage_rating b) = a == b
source_eq (withdrawal_request a) (withdrawal_request b) = a == b
source_eq (rated_usage_event a) (rated_usage_event b) = a == b
source_eq (other_source t a) (other_source u b) = t == u && a == b
source_eq _ _ = false

-- `ON CONFLICT (source_type, source_id) DO NOTHING`, and whether a row came back.
abbrev pub has_entry : SourceKey → List LedgerEntry → Bool
has_entry source ledger = any (λ e. source_eq source e.source) ledger

unfoldable pub insert_ledger_entry : LedgerEntry → BillingDb → Bool × BillingDb
insert_ledger_entry entry db =
    if has_entry entry.source db.ledger
    then (false, db)
    else (true, record db { ledger = db.ledger ++ entry ∷ [] })

unfoldable pub write_billing_buckets : ℕ → BillingBuckets → BillingDb → BillingDb
write_billing_buckets account_id buckets db = record db {
  buckets = update db.buckets account_id buckets;
}

abbrev pub same_window : ℕ → ℕ → ℕ → UsageRating → Bool
same_window session_id window_start window_end r =
    r.session_id == session_id && (r.window_start == window_start && r.window_end == window_end)

-- The id of the new row, or `none` where the window has a row already.
unfoldable pub insert_retail_usage_rating : UsageRating → BillingDb → Option ℕ × BillingDb
insert_retail_usage_rating r db =
    if any (same_window r.session_id r.window_start r.window_end) db.ratings then (none, db) else (
      some db.next_id,
      record db {
        ratings = db.ratings ++ (record r { id = db.next_id }) ∷ [];
        next_id = db.next_id + 1;
      },
    )

unfoldable pub update_billing_accrual : ℕ → ℕ → BillingDb → BillingDb
update_billing_accrual account_id remainder db = record db {
  accruals = update db.accruals account_id remainder;
}

unfoldable pub mark_rating_posted : ℕ → ℕ → BillingDb → BillingDb
mark_rating_posted rating_id charge_minor db = record db {
  ratings =
      update_where (λ r. r.id == rating_id) (λ r. record r { posted_charge_minor = charge_minor })
        db.ratings;
}

unfoldable pub insert_cash_sweep_request : CashSweep → BillingDb → BillingDb
insert_cash_sweep_request sweep db =
    if leb sweep.amount_minor 0 || leb sweep.token_amount_base_units 0
    then db
    else if any (λ s. source_eq sweep.source s.source) db.sweeps
    then db
    else record db { sweeps = db.sweeps ++ sweep ∷ [] }

unfoldable pub update_billing_account_state : ℕ → BillingAccountState → BillingDb → BillingDb
update_billing_account_state account_id state db = record db {
  states = update db.states account_id state;
}

-- Notifications with one `dedupe_key`.
abbrev pub same_dedupe_key : Notification → Notification → Bool
same_dedupe_key (balance_restored a t _) (balance_restored b u _) = a == b && t == u
same_dedupe_key (grace_started a t _) (grace_started b u _) = a == b && t == u
same_dedupe_key (configs_suspended a t _) (configs_suspended b u _) = a == b && t == u
same_dedupe_key (withdrawal_requested i _) (withdrawal_requested j _) = i == j
same_dedupe_key (withdrawal_confirmed i _) (withdrawal_confirmed j _) = i == j
same_dedupe_key _ _ = false

-- `ON CONFLICT (dedupe_key) DO NOTHING`. The account is taken to have an enabled user.
unfoldable pub enqueue_billing_notification : Notification → BillingDb → BillingDb
enqueue_billing_notification n db =
    if any (same_dedupe_key n) db.notifications
    then db
    else record db { notifications = db.notifications ++ n ∷ [] }
