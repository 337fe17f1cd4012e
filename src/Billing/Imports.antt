-- ===== src/Billing/Imports.antt =====
-- The ledger entry of imported usage in
-- packages/control-plane/src/application/billing/doublezero-usage-import.scenario.ts.
use z_wireguard_vpn.Common.{
  ℕ, ◌+◌, ◌*◌, ◌/◌, refl, arith, leb, if◌then◌else◌, Bool-cases, inl, inr, [], ◌∷◌,
}
use z_wireguard_vpn.Common.Int.{ℤ, pos, negsuc, sub_ℕ}
use z_wireguard_vpn.Common.Table.Sums.{sum_by-append}
use z_wireguard_vpn.Billing.Store.{
  BillingDb, EntryType, LedgerEntry, SourceKey, has_entry, insert_ledger_entry,
}
use z_wireguard_vpn.Billing.Soundness.{IsSound}
use z_wireguard_vpn.Billing.Reservations.{IsReserved}
use z_wireguard_vpn.Billing.Keys.{entry-IsSound}
use z_wireguard_vpn.Billing.Ledger.{IsBalanced, credited, debited}

unfoldable pub normalize_markup_bps : ℤ → ℕ
normalize_markup_bps (pos n) = if leb n 100000 then n else 0
normalize_markup_bps (negsuc n) = 0

-- The costs of rejected records, negative or no integer, do not get here. The quotient is rounded up.
unfoldable pub calculate_marked_up_charge_minor : ℕ → ℤ → ℕ
calculate_marked_up_charge_minor cost_minor markup_bps =
    (cost_minor * (10000 + normalize_markup_bps markup_bps) + 9999) / 10000

-- The entry of a rated usage event, which is new.
abbrev usage_entry : ℕ → ℕ → ℕ → LedgerEntry
usage_entry account_id rated_id charge_minor = record {
  account_id = account_id;
  entry_type = EntryType.usage;
  amount_minor = sub_ℕ 0 charge_minor;
  source = SourceKey.rated_usage_event rated_id;
}

unfoldable pub post_doublezero_usage : ℕ → ℕ → ℕ → ℤ → BillingDb → BillingDb
post_doublezero_usage account_id rated_id cost_minor markup_bps db =
    (insert_ledger_entry
      (usage_entry account_id rated_id (calculate_marked_up_charge_minor cost_minor markup_bps))
      db).1

module _ (account_id rated_id cost_minor : ℕ) (markup_bps : ℤ) (db : BillingDb) where
  pub post_doublezero_usage-IsSound :
      IsSound db → IsSound (post_doublezero_usage account_id rated_id cost_minor markup_bps db)
  unfolding post_doublezero_usage insert_ledger_entry
  post_doublezero_usage-IsSound h =
      let entry =
        usage_entry account_id rated_id (calculate_marked_up_charge_minor cost_minor markup_bps) in
      elim (Bool-cases (has_entry entry.source db.ledger)) [
        | inl old ↦ rw (post_doublezero_usage, old) h
        | inr new ↦ rw (post_doublezero_usage, new) (entry-IsSound db entry (λ k. refl) h)
      ]

  pub post_doublezero_usage-IsReserved :
      (a : ℕ)
      → IsReserved a db
      → IsReserved a (post_doublezero_usage account_id rated_id cost_minor markup_bps db)
  unfolding post_doublezero_usage insert_ledger_entry
  post_doublezero_usage-IsReserved a h = ground arith

  -- The entry counts neither as a credit nor as a debit.
  pub post_doublezero_usage-IsBalanced :
      (a : ℕ)
      → IsBalanced a db
      → IsBalanced a (post_doublezero_usage account_id rated_id cost_minor markup_bps db)
  unfolding post_doublezero_usage insert_ledger_entry
  post_doublezero_usage-IsBalanced a h =
      let entry =
        usage_entry account_id rated_id (calculate_marked_up_charge_minor cost_minor markup_bps) in
      ground (
        arith,
        sum_by-append (credited a) db.ledger (entry ∷ []),
        sum_by-append (debited a) db.ledger (entry ∷ []),
      )
