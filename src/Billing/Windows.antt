-- ===== src/Billing/Windows.antt =====
-- Settlements of a window: what they do to the keys and to the reservations.
use z_wireguard_vpn.Common.{
  ℕ, ◌+◌, ◌/◌, ◌%◌, leb, ◌≡◌, ◌⊎◌, refl, none, [], ◌∷◌, ◌++◌, arith, any, inl, inr, Bool-cases,
}
use z_wireguard_vpn.Common.Int.{pos, sub_ℕ}
use z_wireguard_vpn.Billing.{microminor_per_minor, calculate_retail_charge_microminor}
use z_wireguard_vpn.Billing.Buckets.{consume_billing_charge_lem}
use z_wireguard_vpn.Billing.Store.{
  UsageRating, usage_charge, retail_usage_rating, BillingDb, LedgerEntry, has_entry,
  insert_ledger_entry, write_billing_buckets, insert_retail_usage_rating, update_billing_accrual,
  mark_rating_posted, insert_cash_sweep_request, same_window,
}
use z_wireguard_vpn.Billing.Settlement.{
  new_rating, is_shadow, settle_rating_candidate, charge_rating, post_charge, RatingCandidate,
  RetailBillingConfig,
}
use z_wireguard_vpn.Billing.Reservations.{IsReserved}
use z_wireguard_vpn.Billing.Soundness.{IsSound}
use z_wireguard_vpn.Billing.Keys.{entry-IsSound, frame-IsSound}

post_charge-IsSound :
    (rating_id posted : ℕ) (candidate : RatingCandidate) (config : RetailBillingConfig)
    (db : BillingDb)
    → IsSound db
    → IsSound (post_charge rating_id posted candidate config db).1
unfolding post_charge insert_ledger_entry write_billing_buckets mark_rating_posted
    insert_cash_sweep_request
post_charge-IsSound rating_id posted candidate config db h =
    let entry : LedgerEntry = record {
      account_id = candidate.account_id;
      entry_type = usage_charge;
      amount_minor = sub_ℕ 0 posted;
      source = retail_usage_rating rating_id;
    } in
    let booked = entry-IsSound db entry (λ k. refl) h in
    elim (Bool-cases (has_entry (retail_usage_rating rating_id) db.ledger)) [
      | inl old ↦ ground arith
      | inr new ↦
          frame-IsSound (record db { ledger = db.ledger ++ entry ∷ [] })
            (post_charge rating_id posted candidate config db).1 (ground arith) (ground arith)
            (ground arith) booked
    ]

post_charge-IsReserved :
    (rating_id posted : ℕ) (candidate : RatingCandidate) (config : RetailBillingConfig)
    (db : BillingDb) (a : ℕ)
    → IsReserved a db
    → IsReserved a (post_charge rating_id posted candidate config db).1
unfolding post_charge insert_ledger_entry write_billing_buckets mark_rating_posted
    insert_cash_sweep_request
post_charge-IsReserved rating_id posted candidate config db a h =
    let b = db.buckets candidate.account_id in
    ground (arith, consume_billing_charge_lem b (pos posted))

charge_rating-IsSound :
    (rating_id : ℕ) (candidate : RatingCandidate) (config : RetailBillingConfig) (db : BillingDb)
    → IsSound db
    → IsSound (charge_rating rating_id candidate config db).1
unfolding charge_rating update_billing_accrual
charge_rating-IsSound rating_id candidate config db h =
    let total =
      db.accruals candidate.account_id + calculate_retail_charge_microminor candidate.charge in
    let accrued = update_billing_accrual candidate.account_id (total % microminor_per_minor) db in
    let h' = frame-IsSound db accrued refl refl (omega arith) h in
    elim (Bool-cases (leb (total / microminor_per_minor) 0)) [
      | inl small ↦ rw small h'
      | inr large ↦
          rw large (
            post_charge-IsSound rating_id (total / microminor_per_minor) candidate config accrued
              h')
    ]

charge_rating-IsReserved :
    (rating_id : ℕ) (candidate : RatingCandidate) (config : RetailBillingConfig) (db : BillingDb)
    (a : ℕ)
    → IsReserved a db
    → IsReserved a (charge_rating rating_id candidate config db).1
unfolding charge_rating update_billing_accrual
charge_rating-IsReserved rating_id candidate config db a h =
    let total =
      db.accruals candidate.account_id + calculate_retail_charge_microminor candidate.charge in
    let accrued = update_billing_accrual candidate.account_id (total % microminor_per_minor) db in
    let h' : IsReserved a accrued = record { reserved = h.reserved; covered = h.covered } in
    elim (Bool-cases (leb (total / microminor_per_minor) 0)) [
      | inl small ↦ rw small h'
      | inr large ↦ rw large (
          post_charge-IsReserved rating_id (total / microminor_per_minor) candidate config accrued a
            h')
    ]

-- How a settlement ends: the window was rated before, or is rated now and charged as the mode says.
pub settle_cases :
    (candidate : RatingCandidate) (config : RetailBillingConfig) (db : BillingDb)
    → (settle_rating_candidate candidate config db ≡ (none, db))
      ⊎ ((settle_rating_candidate candidate config db).1
          ≡ (insert_retail_usage_rating (new_rating candidate config) db).1)
      ⊎ ((settle_rating_candidate candidate config db).1
          ≡ (charge_rating db.next_id candidate config
              (insert_retail_usage_rating (new_rating candidate config) db).1).1)
unfolding settle_rating_candidate insert_retail_usage_rating
settle_cases candidate config db =
    elim (Bool-cases (
      any (same_window candidate.session_id candidate.window_start candidate.window_end)
        db.ratings)) [
          | inl old ↦ inl (ground arith)
          | inr new ↦ elim (Bool-cases (is_shadow config.mode)) [
            | inl quiet ↦ inr (inl (ground arith))
            | inr charged ↦ inr (inr (ground arith))
          ]
        ]

rated-IsSound :
    (r : UsageRating) (db : BillingDb) → IsSound db → IsSound (insert_retail_usage_rating r db).1
unfolding insert_retail_usage_rating
rated-IsSound r db h =
    frame-IsSound db (insert_retail_usage_rating r db).1 (ground arith) (ground arith)
      (ground arith) h

rated-IsReserved :
    (r : UsageRating) (db : BillingDb) (a : ℕ)
    → IsReserved a db
    → IsReserved a (insert_retail_usage_rating r db).1
unfolding insert_retail_usage_rating
rated-IsReserved r db a h = ground arith

pub settle_rating_candidate-IsSound :
    (candidate : RatingCandidate) (config : RetailBillingConfig) (db : BillingDb)
    → IsSound db
    → IsSound (settle_rating_candidate candidate config db).1
settle_rating_candidate-IsSound candidate config db h =
    let rated = rated-IsSound (new_rating candidate config) db h in
    elim (settle_cases candidate config db) [
      | inl old ↦ rw old h
      | inr (inl quiet) ↦ rw quiet rated
      | inr (inr charged) ↦ rw charged (charge_rating-IsSound db.next_id candidate config _ rated)
    ]

pub settle_rating_candidate-IsReserved :
    (candidate : RatingCandidate) (config : RetailBillingConfig) (db : BillingDb) (a : ℕ)
    → IsReserved a db
    → IsReserved a (settle_rating_candidate candidate config db).1
settle_rating_candidate-IsReserved candidate config db a h =
    let rated = rated-IsReserved (new_rating candidate config) db a h in
    elim (settle_cases candidate config db) [
      | inl old ↦ rw old h
      | inr (inl quiet) ↦ rw quiet rated
      | inr (inr charged) ↦
          rw charged (charge_rating-IsReserved db.next_id candidate config _ a rated)
    ]
