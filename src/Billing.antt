-- ===== src/Billing.antt =====
-- Prepaid retail billing: amounts, balance buckets and charges, the pure part of
-- packages/control-plane/src/application/billing/prepaid-billing.scenario.ts. Amounts are in minor
-- units. A bucket is a number, as its column has a CHECK that it is not negative; what a caller
-- passes in may be negative and is an integer (the sources' `Math.trunc` has nothing to cut).
pub mod Store
pub mod Address
pub mod Base58
pub mod Settlement
pub mod Withdrawal
pub mod Buckets
pub mod Charges
pub mod Ledger
pub mod Reservations
pub mod Moves
pub mod Soundness
pub mod Keys
pub mod Postings
pub mod Windows
pub mod Imports
pub mod Runs
pub mod Accounts
mod Tests
use z_wireguard_vpn.Common.{ℕ, ◌+◌, ◌-◌, ◌*◌, ◌/◌, Bool, true, false, min, if◌then◌else◌}
use z_wireguard_vpn.Common.Int.{ℤ, pos_part, sub_ℕ}

pub record BillingBuckets : Type 0 where
  pub cash_minor : ℕ
  pub promotional_minor : ℕ
  pub reserved_withdrawal_minor : ℕ
  pub debt_minor : ℕ

pub data CreditKind : Type 0 where
  cash promotional : CreditKind

abbrev pub microminor_per_minor : ℕ
microminor_per_minor = 1000000

abbrev pub billing_month_seconds : ℕ
billing_month_seconds = 2592000

abbrev pub bytes_per_decimal_gb : ℕ
bytes_per_decimal_gb = 1000000000

pub record ChargeInput : Type 0 where
  pub active_seconds : ℤ
  pub active_config_monthly_minor : ℤ
  pub bytes_to_destination : ℤ
  pub bytes_from_destination : ℤ
  pub traffic_per_gb_minor : ℤ

-- `nonNegative`, and `Math.max(0, …)` of an integer.
abbrev pub non_negative : ℤ → ℕ
non_negative value = pos_part value

unfoldable pub calculate_retail_charge_microminor : ChargeInput → ℕ
calculate_retail_charge_microminor input =
    let payload_bytes =
      non_negative input.bytes_to_destination + non_negative input.bytes_from_destination in
    let active_charge =
      pos_part input.active_seconds
      * pos_part input.active_config_monthly_minor
      * microminor_per_minor
      / billing_month_seconds in
    let traffic_charge =
      payload_bytes
      * pos_part input.traffic_per_gb_minor
      * microminor_per_minor
      / bytes_per_decimal_gb in
    active_charge + traffic_charge

-- Each spend is at most what it is taken from, so `-` on ℕ is the source's.
unfoldable pub consume_billing_charge : BillingBuckets → ℤ → BillingBuckets
consume_billing_charge buckets charge_minor =
    let remaining = pos_part charge_minor in
    let promotional_spend = min buckets.promotional_minor remaining in
    let remaining' = remaining - promotional_spend in
    let spendable_cash = buckets.cash_minor - buckets.reserved_withdrawal_minor in
    let cash_spend = min spendable_cash remaining' in
    record buckets {
      promotional_minor = buckets.promotional_minor - promotional_spend;
      cash_minor = buckets.cash_minor - cash_spend;
      debt_minor = buckets.debt_minor + (remaining' - cash_spend);
    }

abbrev pub is_cash : CreditKind → Bool
is_cash cash = true
is_cash promotional = false

unfoldable pub apply_bucket_credit : BillingBuckets → ℤ → CreditKind → BillingBuckets
apply_bucket_credit buckets amount_minor kind =
    let credit = pos_part amount_minor in
    let debt_payment = min buckets.debt_minor credit in
    let remaining = credit - debt_payment in
    record buckets {
      debt_minor = buckets.debt_minor - debt_payment;
      cash_minor = buckets.cash_minor + (if is_cash kind then remaining else 0);
      promotional_minor = buckets.promotional_minor + (if is_cash kind then 0 else remaining);
    }

unfoldable pub available_billing_balance : BillingBuckets → ℤ
available_billing_balance b =
    sub_ℕ (b.cash_minor + b.promotional_minor) (b.reserved_withdrawal_minor + b.debt_minor)
