-- ===== src/Billing/Postings.antt =====
-- Confirmations, credits and settlements: what they do to the keys and to the reservations.
use z_wireguard_vpn.Common.{
  ℕ, ◌<◌, ◌≡◌, ◌⊎◌, refl, true, false, some, [], ◌∷◌, ◌++◌, arith, ◌==◌, inl, inr, Option-cases,
  update,
}
use z_wireguard_vpn.Common.Int.{ℤ, pos_part, sub_ℕ}
use z_wireguard_vpn.Common.Table.{row, row_key, row-find?}
use z_wireguard_vpn.Billing.{CreditKind, apply_bucket_credit}
use z_wireguard_vpn.Billing.Store.{
  EntryType, BillingDb, WithdrawalRequest, SourceKey, withdrawal_request, has_entry, source_eq,
  insert_ledger_entry, write_billing_buckets, enqueue_billing_notification,
}
use z_wireguard_vpn.Billing.Settlement.{credit_entry, apply_billing_credit}
use z_wireguard_vpn.Billing.Withdrawal.{
  find_withdrawal_for_update, confirm_withdrawal, book_withdrawal,
}
use z_wireguard_vpn.Billing.Reservations.{confirm_cases, holds_reservation, IsReserved}
use z_wireguard_vpn.Billing.Soundness.{IsSound}
use z_wireguard_vpn.Billing.Keys.{booked-IsSound, entry-IsSound, frame-IsSound}

book_withdrawal-IsSound :
    (now account_id : ℕ) (w : WithdrawalRequest) (db : BillingDb)
    → row WithdrawalRequest.id w.id db.withdrawals ≡ some w
    → holds_reservation w.status ≡ true
    → IsSound db
    → IsSound (book_withdrawal now w account_id db)
unfolding book_withdrawal write_billing_buckets insert_ledger_entry enqueue_billing_notification
book_withdrawal-IsSound now account_id w db found holds h =
    let free = h.unbooked w.id w found holds in
    let booked =
      booked-IsSound now w db
        (record {
          account_id = account_id;
          entry_type = EntryType.withdrawal;
          amount_minor = sub_ℕ 0 w.amount_minor;
          source = withdrawal_request w.id;
        })
        found refl h in
    frame-IsSound _ (book_withdrawal now w account_id db) (ground arith) (ground arith)
      (ground arith) booked

pub confirm_withdrawal-IsSound :
    (now account_id id : ℕ) (db : BillingDb) {db' : BillingDb}
    → IsSound db
    → confirm_withdrawal now account_id id db ≡ some db'
    → IsSound db'
unfolding confirm_withdrawal
confirm_withdrawal-IsSound now account_id id db {db'} h e =
    elim (Option-cases (find_withdrawal_for_update account_id id db.withdrawals)) [
      | inl missing ↦ let same : db ≡ db' = ground arith in rw (← same) h
      | inr (w, f) ↦
          let (found, own) =
            row-find? WithdrawalRequest.id id (λ x. x.account_id == account_id) db.withdrawals
              (h.unique id) f in
          let key = row_key WithdrawalRequest.id id db.withdrawals found in
          elim (confirm_cases now account_id id w db f e) [
            | inl same ↦ rw (← same) h
            | inr (submitted, booked) ↦
                rw (← booked) (ground (arith, book_withdrawal-IsSound now account_id w db))
          ]
    ]

-- How a credit can end without an error: its source is in the ledger, or it is posted.
pub credit_cases :
    (account_id : ℕ) (amount : ℤ) (kind : CreditKind) (source : SourceKey) (db : BillingDb)
    {db' : BillingDb}
    → apply_billing_credit account_id amount kind source db ≡ some db'
    → (0 < pos_part amount)
      × (((has_entry source db.ledger ≡ true) × (db ≡ db'))
          ⊎ ((has_entry source db.ledger ≡ false)
              × (record db {
                ledger = db.ledger ++ credit_entry account_id amount kind source ∷ [];
                buckets =
                    update db.buckets account_id
                      (apply_bucket_credit (db.buckets account_id) amount kind);
              }
                  ≡ db')))
unfolding apply_billing_credit insert_ledger_entry write_billing_buckets
credit_cases account_id amount kind source db {db'} e = (ground arith, ground arith)

pub apply_billing_credit-IsSound :
    (account_id : ℕ) (amount : ℤ) (kind : CreditKind) (source : SourceKey) (db : BillingDb)
    {db' : BillingDb}
    → ((k : ℕ) → source_eq (withdrawal_request k) source ≡ false)
    → IsSound db
    → apply_billing_credit account_id amount kind source db ≡ some db'
    → IsSound db'
apply_billing_credit-IsSound account_id amount kind source db {db'} other h e =
    let entry = credit_entry account_id amount kind source in
    let posted = entry-IsSound db entry other h in
    elim (credit_cases account_id amount kind source db e).1 [
      | inl (old, same) ↦ rw (← same) h
      | inr (new, booked) ↦ rw (← booked) (
          frame-IsSound (record db { ledger = db.ledger ++ entry ∷ [] })
            (record db {
              ledger = db.ledger ++ entry ∷ [];
              buckets =
                  update db.buckets account_id
                    (apply_bucket_credit (db.buckets account_id) amount kind);
            })
            refl refl (omega arith) posted)
    ]

pub apply_billing_credit-IsReserved :
    (account_id : ℕ) (amount : ℤ) (kind : CreditKind) (source : SourceKey) (db : BillingDb) (a : ℕ)
    {db' : BillingDb}
    → IsReserved a db
    → apply_billing_credit account_id amount kind source db ≡ some db'
    → IsReserved a db'
unfolding apply_bucket_credit
apply_billing_credit-IsReserved account_id amount kind source db a {db'} h e =
    elim (credit_cases account_id amount kind source db e).1 [
      | inl (old, same) ↦ rw (← same) h
      | inr (new, booked) ↦ rw (← booked) (ground arith)
    ]
