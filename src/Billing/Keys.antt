-- ===== src/Billing/Keys.antt =====
-- Every transaction on the billing tables keeps their keys sound.
use z_wireguard_vpn.Common.{
  ℕ, ◌+◌, ◌≤◌, ◌<◌, ◌≡◌, refl, false, Option, some, String, List, [], ◌∷◌, ◌++◌, arith, ◌==◌, inl,
  inr, Option-cases, ◌&&◌,
}
use z_wireguard_vpn.Common.Int.{ℤ, pos_part}
use z_wireguard_vpn.Common.Table.{
  row, update_where, count-append, count-fresh, All-append, All-map, row-update_where, find?-All,
}
use z_wireguard_vpn.Session.{Session}
use z_wireguard_vpn.Session.Service.{SessionOwner}
use z_wireguard_vpn.Billing.Address.{normalize_solana_public_key}
use z_wireguard_vpn.Billing.Store.{
  BillingDb, WithdrawalRequest, WithdrawalStatus, LedgerEntry, withdrawal_request, source_eq,
  write_billing_buckets, enqueue_billing_notification,
}
use z_wireguard_vpn.Billing.Withdrawal.{
  find_withdrawal_for_update, create_withdrawal_request, open_withdrawal, cancel_owned_withdrawal,
  release_withdrawal, new_withdrawal, claim_withdrawal_signing_job, advance_withdrawal_cooldowns,
  claim_ready_withdrawal, mark_withdrawal_failed, mark_withdrawal_submitted, set_status, is_put_off,
  put_off, is_eligible, first_ready, set_processing, is_in_flight, set_failed, is_processing,
  set_submitted,
}
use z_wireguard_vpn.Billing.Moves.{first_ready-row, first_ready-count}
use z_wireguard_vpn.Billing.Soundness.{IsSound, row-append_row, has_entry-append, same-IsSound}

-- The keys are those of three columns.
pub frame-IsSound :
    (db db' : BillingDb)
    → db'.withdrawals ≡ db.withdrawals
    → db'.ledger ≡ db.ledger
    → db.next_id ≤ db'.next_id
    → IsSound db
    → IsSound db'
frame-IsSound db db' w l n h = record {
  unique = λ k. rw w (h.unique k);
  fresh = rw w (
      All-map (λ (x : WithdrawalRequest). x.id < db.next_id) (λ x. x.id < db'.next_id)
        (λ x q. omega arith) db.withdrawals h.fresh);
  unbooked = λ k. rw (w, l) (h.unbooked k);
  booked_old = λ k q. rw l (h.booked_old k (omega arith));
}

append-IsSound :
    (db : BillingDb) (w : WithdrawalRequest)
    → w.id ≡ db.next_id
    → IsSound db
    → IsSound (record db { withdrawals = db.withdrawals ++ w ∷ []; next_id = db.next_id + 1 })
append-IsSound db w e h =
    let none_yet = count-fresh WithdrawalRequest.id db.next_id db.withdrawals h.fresh in
    record {
      unique = λ k. ground (
        arith,
        count-append (λ (x : WithdrawalRequest). x.id == k) db.withdrawals (w ∷ []),
        h.unique k,
        none_yet,
      );
      fresh =
          All-append (λ (x : WithdrawalRequest). x.id < db.next_id + 1) db.withdrawals (w ∷ [])
            (All-map (λ (x : WithdrawalRequest). x.id < db.next_id) (λ x. x.id < db.next_id + 1)
              (λ x q. omega arith) db.withdrawals h.fresh)
            (omega arith, tt);
      unbooked = λ k v found holds.
          ground (arith, row-append_row k db.withdrawals w, h.unbooked k v, h.booked_old k);
      booked_old = λ k q. h.booked_old k (omega arith);
    }

pub create_withdrawal_request-IsSound :
    (now : ℕ) (actor : SessionOwner) (amount : ℤ) (destination : String) (base_units : ℕ)
    (sessions : List Session) (db : BillingDb)
    → IsSound db
    → IsSound (create_withdrawal_request now actor amount destination base_units sessions db).1
unfolding create_withdrawal_request open_withdrawal write_billing_buckets
    enqueue_billing_notification
create_withdrawal_request-IsSound now actor amount destination base_units sessions db h =
    elim (Option-cases (normalize_solana_public_key destination)) [
      | inl invalid ↦ ground arith
      | inr (address, e) ↦
          let w = new_withdrawal now actor.account_id (pos_part amount) base_units address db in
          let appended = append-IsSound db w refl h in
          ground (
            arith,
            frame-IsSound
                (record db { withdrawals = db.withdrawals ++ w ∷ []; next_id = db.next_id + 1 })
                (create_withdrawal_request now actor amount destination base_units sessions db).1,
          )
    ]

pub release_withdrawal-IsSound :
    (now account_id : ℕ) (w : WithdrawalRequest) (db : BillingDb)
    → IsSound db
    → IsSound (release_withdrawal now w account_id db)
unfolding release_withdrawal write_billing_buckets
release_withdrawal-IsSound now account_id w db h =
    let changed =
      same-IsSound (λ x. x.id == w.id) (set_status now WithdrawalStatus.cancelled) (λ x. refl) db
        (λ x e t q. ground arith) h in
    frame-IsSound
      (record db {
        withdrawals =
            update_where (λ x. x.id == w.id) (set_status now WithdrawalStatus.cancelled)
              db.withdrawals;
      })
      (release_withdrawal now w account_id db) refl refl (omega arith) changed

pub cancel_owned_withdrawal-IsSound :
    (now : ℕ) (actor : SessionOwner) (id : ℕ) (db : BillingDb)
    → IsSound db
    → IsSound (cancel_owned_withdrawal now actor id db).1
unfolding cancel_owned_withdrawal
cancel_owned_withdrawal-IsSound now actor id db h =
    elim (Option-cases (find_withdrawal_for_update actor.account_id id db.withdrawals)) [
      | inl missing ↦ ground arith
      | inr (w, e) ↦ ground (arith, release_withdrawal-IsSound now actor.account_id w db h)
    ]

pub advance-IsSound :
    (now : ℕ) (sessions : List Session) (db : BillingDb)
    → IsSound db
    → IsSound (advance_withdrawal_cooldowns now sessions db)
unfolding advance_withdrawal_cooldowns
advance-IsSound now sessions db h =
    let put = update_where (is_put_off sessions) (put_off now db.plans) db.withdrawals in
    same-IsSound (is_eligible now sessions) (set_status now WithdrawalStatus.ready) (λ w. refl)
      (record db { withdrawals = put }) (λ w e t q. ground arith)
      (same-IsSound (is_put_off sessions) (put_off now db.plans) (λ w. refl) db (λ w e t q. q) h)

pub failed-IsSound :
    (now id : ℕ) (error : String) (db : BillingDb)
    → IsSound db
    → IsSound (mark_withdrawal_failed now id error db)
unfolding mark_withdrawal_failed
failed-IsSound now id error db h =
    same-IsSound (λ w. w.id == id && is_in_flight w.status) (set_failed now error) (λ w. refl) db
      (λ w e t q. ground arith) h

pub submitted-IsSound :
    (now id : ℕ) (signature : String) (db : BillingDb)
    → IsSound db
    → IsSound (mark_withdrawal_submitted now id signature db)
unfolding mark_withdrawal_submitted
submitted-IsSound now id signature db h =
    same-IsSound (λ w. w.id == id && is_processing w.status) (set_submitted now signature)
      (λ w. refl) db (λ w e t q. ground arith) h

claim-IsSound : (now : ℕ) (db : BillingDb) → IsSound db → IsSound (claim_ready_withdrawal now db).1
unfolding claim_ready_withdrawal
claim-IsSound now db h = elim (Option-cases (first_ready db.withdrawals)) [
  | inl empty ↦ ground arith
  | inr (w, e) ↦
      let found = first_ready-row db.withdrawals (h.unique w.id) e in
      let ready = (first_ready-count db.withdrawals e).1 in
      let changed =
        same-IsSound (λ x. x.id == w.id) (set_processing now) (λ x. refl) db
          (λ x f t q. ground arith) h in
      ground (arith, changed)
]

pub claim_withdrawal_signing_job-IsSound :
    (now : ℕ) (key_format : ℕ → Option String) (sessions : List Session) (db : BillingDb)
    → IsSound db
    → IsSound (claim_withdrawal_signing_job now key_format sessions db).1
unfolding claim_withdrawal_signing_job
claim_withdrawal_signing_job-IsSound now key_format sessions db h =
    let claimed =
      claim-IsSound now (advance_withdrawal_cooldowns now sessions db)
        (advance-IsSound now sessions db h) in
    elim (Option-cases
      (claim_ready_withdrawal now (advance_withdrawal_cooldowns now sessions db)).0) [
        | inl empty ↦ ground arith
        | inr (w, e) ↦ elim (Option-cases (key_format w.account_id)) [
          | inl no_key ↦ ground (
            arith,
            failed-IsSound now w.id "custodial wallet key not found"
                (claim_ready_withdrawal now (advance_withdrawal_cooldowns now sessions db)).1
                claimed,
          )
          | inr (format, f) ↦ ground (
            arith,
            failed-IsSound now w.id "unsupported custodial wallet key format"
                (claim_ready_withdrawal now (advance_withdrawal_cooldowns now sessions db)).1
                claimed,
          )
        ]
      ]

-- A table with the ledger entry of a source that is no withdrawal.
pub entry-IsSound :
    (db : BillingDb) (e : LedgerEntry)
    → ((k : ℕ) → source_eq (withdrawal_request k) e.source ≡ false)
    → IsSound db
    → IsSound (record db { ledger = db.ledger ++ e ∷ [] })
entry-IsSound db e other h = record {
  unique = h.unique;
  fresh = h.fresh;
  unbooked = λ k w f q.
      ground
        (arith, has_entry-append (withdrawal_request k) db.ledger e, other k, h.unbooked k w f q);
  booked_old = λ k q.
      ground
        (arith, has_entry-append (withdrawal_request k) db.ledger e, other k, h.booked_old k q);
}

pub booked-IsSound :
    (now : ℕ) (w : WithdrawalRequest) (db : BillingDb) (e : LedgerEntry)
    → row WithdrawalRequest.id w.id db.withdrawals ≡ some w
    → e.source ≡ withdrawal_request w.id
    → IsSound db
    → IsSound (record db {
      ledger = db.ledger ++ e ∷ [];
      withdrawals =
          update_where
            (λ x. x.id == w.id)
            (set_status now WithdrawalStatus.confirmed)
            db.withdrawals;
    })
booked-IsSound now w db e found source h =
    let changed =
      same-IsSound (λ x. x.id == w.id) (set_status now WithdrawalStatus.confirmed) (λ x. refl) db
        (λ x f t q. ground arith) h in
    let old =
      (find?-All (λ x. x.id < db.next_id) (λ x. x.id == w.id) db.withdrawals h.fresh found).0 in
    record {
      unique = changed.unique;
      fresh = changed.fresh;
      unbooked = λ k v f q. ground (
        arith,
        has_entry-append (withdrawal_request k) db.ledger e,
        changed.unbooked k v,
        row-update_where WithdrawalRequest.id w.id k (set_status now WithdrawalStatus.confirmed)
            (λ x. refl) db.withdrawals,
      );
      booked_old = λ k q.
          ground (arith, has_entry-append (withdrawal_request k) db.ledger e, h.booked_old k q);
    }
