-- ===== src/Billing/Buckets.antt =====
-- What a charge and a credit do to the buckets: the exact effect on the balance, the invariant that
-- a reservation is covered by cash, and the order in which buckets are used.
use z_wireguard_vpn.Common.{◌≤◌, ◌≡◌, ◌⊎◌, refl, arith}
use z_wireguard_vpn.Common.Int.{ℤ, pos, pos_part, ◌+ℤ◌, ◌-ℤ◌}
use z_wireguard_vpn.Billing.{
  BillingBuckets, CreditKind, cash, promotional, consume_billing_charge, apply_bucket_credit,
  available_billing_balance,
}

-- The CHECK of the table `billing_balance_buckets`.
abbrev pub IsCovered : BillingBuckets → Type 0
IsCovered b = b.reserved_withdrawal_minor ≤ b.cash_minor

-- A charge lowers the available balance by exactly its amount (nothing, where that is negative),
-- keeps the reservation and keeps it covered. Cash is spent only when the promotional credit is
-- used up, and debt is taken on only when promotional credit and unreserved cash are.
pub consume_billing_charge_lem :
    (b : BillingBuckets) (charge : ℤ)
    → IsCovered b
    → let b' = consume_billing_charge b charge in
      (available_billing_balance b' ≡ available_billing_balance b -ℤ pos (pos_part charge))
      × IsCovered b'
      × (b'.reserved_withdrawal_minor ≡ b.reserved_withdrawal_minor)
      × ((b'.cash_minor ≡ b.cash_minor) ⊎ (b'.promotional_minor ≡ 0))
      × ((b'.debt_minor ≡ b.debt_minor)
          ⊎ ((b'.promotional_minor ≡ 0) × (b'.cash_minor ≡ b.reserved_withdrawal_minor)))
unfolding consume_billing_charge available_billing_balance ◌-ℤ◌
consume_billing_charge_lem b charge h = (grind arith, omega arith, refl, grind arith, grind arith)

-- A credit raises the available balance by exactly its amount (nothing, where that is negative), and
-- keeps the reservation covered. It pays the debt first: the debt that is left, if there is any,
-- leaves nothing for the buckets of cash and promotional credit.
pub apply_bucket_credit_lem :
    (b : BillingBuckets) (amount : ℤ) (kind : CreditKind)
    → IsCovered b
    → let b' = apply_bucket_credit b amount kind in
      (available_billing_balance b' ≡ available_billing_balance b +ℤ pos (pos_part amount))
      × IsCovered b'
      × (b'.reserved_withdrawal_minor ≡ b.reserved_withdrawal_minor)
      × ((b'.debt_minor ≡ 0)
          ⊎ ((b'.cash_minor ≡ b.cash_minor) × (b'.promotional_minor ≡ b.promotional_minor)))
unfolding apply_bucket_credit available_billing_balance ◌+ℤ◌
apply_bucket_credit_lem b amount cash h = (grind arith, omega arith, refl, grind arith)
apply_bucket_credit_lem b amount promotional h = (grind arith, omega arith, refl, grind arith)
