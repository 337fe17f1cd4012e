-- ===== src/Billing/Soundness.antt =====
-- The keys of the withdrawals and of the ledger: ids are unique and below the supply of fresh ids,
-- and the ledger books a request only when it holds its amount no more.
use z_wireguard_vpn.Common.{
  ℕ, ◌≤◌, ◌<◌, ◌≡◌, Bool, true, false, none, some, List, [], ◌∷◌, ◌++◌, arith, ◌==◌, if◌then◌else◌,
  count, All, inl, inr, Option-cases, ◌||◌,
}
use z_wireguard_vpn.Common.Table.{
  row-update_any, row, update_where, count-update_where_key, All-update_where, row_key,
}
use z_wireguard_vpn.Billing.Store.{
  BillingDb, WithdrawalRequest, LedgerEntry, SourceKey, withdrawal_request, has_entry, source_eq,
}
use z_wireguard_vpn.Billing.Reservations.{IsUnbooked, holds_reservation}

pub record IsSound (db : BillingDb) : Type 0 where
  pub unique : (k : ℕ) → count (λ (w : WithdrawalRequest). w.id == k) db.withdrawals ≤ 1
  pub fresh : All (λ (w : WithdrawalRequest). w.id < db.next_id) db.withdrawals
  pub unbooked : (k : ℕ) → IsUnbooked k db
  pub booked_old : (k : ℕ) → db.next_id ≤ k → has_entry (withdrawal_request k) db.ledger ≡ false

-- Lookup by id in a table with one more row.
pub row-append_row :
    (k : ℕ) (xs : List WithdrawalRequest) (w : WithdrawalRequest)
    → row WithdrawalRequest.id k (xs ++ w ∷ []) ≡ (
        if count (λ x. x.id == k) xs == 0
        then (if w.id == k then some w else none)
        else row WithdrawalRequest.id k xs)
row-append_row k [] w = ground arith
row-append_row k (x ∷ xs) w = ground (arith, row-append_row k xs w)

pub has_entry-append :
    (k : SourceKey) (xs : List LedgerEntry) (e : LedgerEntry)
    → has_entry k (xs ++ e ∷ []) ≡ (has_entry k xs || source_eq k e.source)
has_entry-append k [] e = ground arith
has_entry-append k (x ∷ xs) e = ground (arith, has_entry-append k xs e)

module _ (p : WithdrawalRequest → Bool) (f : WithdrawalRequest → WithdrawalRequest) where
  -- An update that keeps the ids and lets no request hold its amount anew keeps the keys sound.
  pub same-IsSound :
      ((w : WithdrawalRequest) → WithdrawalRequest.id (f w) ≡ w.id)
      → (db : BillingDb)
      → ((w : WithdrawalRequest)
          → row WithdrawalRequest.id w.id db.withdrawals ≡ some w
          → p w ≡ true
          → holds_reservation (WithdrawalRequest.status (f w)) ≡ true
          → holds_reservation w.status ≡ true)
      → IsSound db
      → IsSound (record db { withdrawals = update_where p f db.withdrawals })
  same-IsSound same db keeps h = record {
    unique = λ k.
        omega (
          arith,
          count-update_where_key WithdrawalRequest.id k p f same db.withdrawals,
          h.unique k,
        );
    fresh =
        All-update_where (λ w. w.id < db.next_id) (λ w. w.id < db.next_id) p f
          (λ w t q. omega (arith, same w)) (λ w t q. q) db.withdrawals h.fresh;
    unbooked = λ k w found holds. elim (Option-cases (row WithdrawalRequest.id k db.withdrawals)) [
      | inl missing ↦ ground (arith, row-update_any WithdrawalRequest.id k p f same db.withdrawals)
      | inr (v, e) ↦
          let key = row_key WithdrawalRequest.id k db.withdrawals e in
          h.unbooked k v e
            (ground (arith, row-update_any WithdrawalRequest.id k p f same db.withdrawals, keeps v))
    ];
    booked_old = h.booked_old;
  }
