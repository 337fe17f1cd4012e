-- ===== src/Billing/Moves.antt =====
-- The operations that move a withdrawal from one status that holds its amount to another: the
-- cooldowns, the claim of the next ready request, a failure and a submission.
use z_wireguard_vpn.Common.{
  ℕ, ◌≤◌, ◌≡◌, refl, sym, ◌∙◌, Bool, true, Option, some, String, List, [], ◌∷◌, arith, ◌==◌, count,
  inl, inr, Option-cases, ◌&&◌,
}
use z_wireguard_vpn.Common.Table.{row, update_where, count-update_where_key}
use z_wireguard_vpn.Common.Table.Sums.{sum_by-update_where, sum_by-update_where_same}
use z_wireguard_vpn.Session.{Session}
use z_wireguard_vpn.Billing.Store.{BillingDb, WithdrawalRequest, WithdrawalStatus}
use z_wireguard_vpn.Billing.Withdrawal.{
  claim_withdrawal_signing_job, advance_withdrawal_cooldowns, claim_ready_withdrawal, first_ready,
  mark_withdrawal_failed, mark_withdrawal_submitted, set_processing, is_put_off, put_off,
  is_eligible, set_status, set_failed, set_submitted, is_in_flight, is_processing,
}
use z_wireguard_vpn.Billing.Reservations.{held, IsReserved}

-- The row that is first among the ready ones is a row of the table, and is ready.
pub first_ready-count :
    (ws : List WithdrawalRequest) {w : WithdrawalRequest}
    → first_ready ws ≡ some w
    → (1 ≤ count (λ x. x.id == w.id) ws) × (w.status ≡ WithdrawalStatus.ready)
unfolding first_ready
first_ready-count [] e = cc
first_ready-count (x ∷ xs) {w} e = elim (Option-cases (first_ready xs)) [
  | inl empty ↦ ground arith
  | inr (v, f) ↦ let ih = first_ready-count xs f in ground (arith, ih)
]

pub first_ready-row :
    (ws : List WithdrawalRequest) {w : WithdrawalRequest}
    → count (λ x. x.id == w.id) ws ≤ 1
    → first_ready ws ≡ some w
    → row WithdrawalRequest.id w.id ws ≡ some w
unfolding first_ready
first_ready-row [] c e = cc
first_ready-row (x ∷ xs) {w} c e = elim (Option-cases (first_ready xs)) [
  | inl empty ↦ ground arith
  | inr (v, f) ↦ ground (arith, first_ready-count xs {w = w}, first_ready-row xs {w = w})
]

-- An update that keeps what each request holds keeps the reservation of the account.
same-IsReserved :
    (p : WithdrawalRequest → Bool) (f : WithdrawalRequest → WithdrawalRequest) (db : BillingDb)
    (a : ℕ)
    → ((w : WithdrawalRequest) → p w ≡ true → held a (f w) ≡ held a w)
    → IsReserved a db
    → IsReserved a (record db { withdrawals = update_where p f db.withdrawals })
same-IsReserved p f db a same h =
    let total = sum_by-update_where_same (held a) p f same db.withdrawals in
    record { reserved = h.reserved ∙ sym total; covered = rw total h.covered }

advance-IsReserved :
    (now : ℕ) (sessions : List Session) (db : BillingDb) (a : ℕ)
    → IsReserved a db
    → IsReserved a (advance_withdrawal_cooldowns now sessions db)
unfolding advance_withdrawal_cooldowns
advance-IsReserved now sessions db a h =
    let put = update_where (is_put_off sessions) (put_off now db.plans) db.withdrawals in
    same-IsReserved (is_eligible now sessions) (set_status now WithdrawalStatus.ready)
      (record db { withdrawals = put }) a (λ w t. ground arith)
      (same-IsReserved (is_put_off sessions) (put_off now db.plans) db a (λ w t. refl) h)

claim-IsReserved :
    (now : ℕ) (db : BillingDb) (a : ℕ)
    → ((k : ℕ) → count (λ (x : WithdrawalRequest). x.id == k) db.withdrawals ≤ 1)
    → IsReserved a db
    → IsReserved a (claim_ready_withdrawal now db).1
unfolding claim_ready_withdrawal
claim-IsReserved now db a unique h = elim (Option-cases (first_ready db.withdrawals)) [
  | inl empty ↦ ground arith
  | inr (w, e) ↦
      let found = first_ready-row db.withdrawals (unique w.id) e in
      let ready = (first_ready-count db.withdrawals e).1 in
      ground (
        arith,
        sum_by-update_where WithdrawalRequest.id (held a) w.id (set_processing now) db.withdrawals
            (unique w.id) found,
      )
]

pub failed-IsReserved :
    (now id : ℕ) (error : String) (db : BillingDb) (a : ℕ)
    → IsReserved a db
    → IsReserved a (mark_withdrawal_failed now id error db)
unfolding mark_withdrawal_failed
failed-IsReserved now id error db a h =
    same-IsReserved (λ w. w.id == id && is_in_flight w.status) (set_failed now error) db a
      (λ w t. ground arith) h

pub submitted-IsReserved :
    (now id : ℕ) (signature : String) (db : BillingDb) (a : ℕ)
    → IsReserved a db
    → IsReserved a (mark_withdrawal_submitted now id signature db)
unfolding mark_withdrawal_submitted
submitted-IsReserved now id signature db a h =
    same-IsReserved (λ w. w.id == id && is_processing w.status) (set_submitted now signature) db a
      (λ w t. ground arith) h

-- The cooldowns keep the ids.
pub count-advance :
    (now : ℕ) (sessions : List Session) (db : BillingDb) (k : ℕ)
    → count
        (λ (x : WithdrawalRequest). x.id == k)
        (advance_withdrawal_cooldowns now sessions db).withdrawals
      ≡ count (λ (x : WithdrawalRequest). x.id == k) db.withdrawals
unfolding advance_withdrawal_cooldowns
count-advance now sessions db k =
    let put = update_where (is_put_off sessions) (put_off now db.plans) db.withdrawals in
    count-update_where_key WithdrawalRequest.id k (is_eligible now sessions)
      (set_status now WithdrawalStatus.ready) (λ w. refl) put
    ∙ count-update_where_key WithdrawalRequest.id k (is_put_off sessions) (put_off now db.plans)
        (λ w. refl) db.withdrawals

-- Claiming the next withdrawal to sign keeps the reservation of every account, whether a request is
-- claimed, none is ready, or the wallet key is missing or of another format.
pub claim_withdrawal_signing_job-IsReserved :
    (now : ℕ) (key_format : ℕ → Option String) (sessions : List Session) (db : BillingDb) (a : ℕ)
    → ((k : ℕ) → count (λ (x : WithdrawalRequest). x.id == k) db.withdrawals ≤ 1)
    → IsReserved a db
    → IsReserved a (claim_withdrawal_signing_job now key_format sessions db).1
unfolding claim_withdrawal_signing_job
claim_withdrawal_signing_job-IsReserved now key_format sessions db a unique h =
    let unique' : (k : ℕ)
        → count (λ (x : WithdrawalRequest). x.id == k)
            (advance_withdrawal_cooldowns now sessions db).withdrawals
          ≤ 1 =
      λ k. omega (arith, count-advance now sessions db k, unique k) in
    let claimed =
      claim-IsReserved now (advance_withdrawal_cooldowns now sessions db) a unique'
        (advance-IsReserved now sessions db a h) in
    elim (Option-cases
      (claim_ready_withdrawal now (advance_withdrawal_cooldowns now sessions db)).0) [
        | inl empty ↦ ground arith
        | inr (w, e) ↦ elim (Option-cases (key_format w.account_id)) [
          | inl no_key ↦ ground (
            arith,
            failed-IsReserved now w.id "custodial wallet key not found"
                (claim_ready_withdrawal now (advance_withdrawal_cooldowns now sessions db)).1 a
                claimed,
          )
          | inr (format, f) ↦ ground (
            arith,
            failed-IsReserved now w.id "unsupported custodial wallet key format"
                (claim_ready_withdrawal now (advance_withdrawal_cooldowns now sessions db)).1 a
                claimed,
          )
        ]
      ]
