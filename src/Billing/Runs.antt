-- ===== src/Billing/Runs.antt =====
-- The billing tables over time: the transactions as a step relation, and what holds after every run
-- of them from an empty database.
use z_wireguard_vpn.Common.{ℕ, ◌≡◌, refl, false, Option, some, String, List, [], arith}
use z_wireguard_vpn.Common.Int.{ℤ}
use z_wireguard_vpn.Common.Table.{row}
use z_wireguard_vpn.Session.{Session}
use z_wireguard_vpn.Session.Service.{SessionOwner}
use z_wireguard_vpn.Billing.{CreditKind, BillingBuckets}
use z_wireguard_vpn.Billing.Store.{
  BillingDb, WithdrawalRequest, WithdrawalStatus, SourceKey, withdrawal_request, source_eq,
}
use z_wireguard_vpn.Billing.Settlement.{
  apply_billing_credit, settle_rating_candidate, RatingCandidate, RetailBillingConfig,
}
use z_wireguard_vpn.Billing.Withdrawal.{
  create_withdrawal_request, cancel_owned_withdrawal, confirm_withdrawal, book_withdrawal,
  claim_withdrawal_signing_job, mark_withdrawal_failed, mark_withdrawal_submitted,
}
use z_wireguard_vpn.Billing.Reservations.{
  IsReserved, create_withdrawal_request-IsReserved, cancel_owned_withdrawal-IsReserved,
  confirm_withdrawal-IsReserved, confirm_withdrawal-submitted,
}
use z_wireguard_vpn.Billing.Moves.{
  claim_withdrawal_signing_job-IsReserved, failed-IsReserved, submitted-IsReserved,
}
use z_wireguard_vpn.Billing.Soundness.{IsSound}
use z_wireguard_vpn.Billing.Keys.{
  create_withdrawal_request-IsSound, cancel_owned_withdrawal-IsSound, failed-IsSound,
  submitted-IsSound, claim_withdrawal_signing_job-IsSound,
}
use z_wireguard_vpn.Billing.Postings.{
  confirm_withdrawal-IsSound, apply_billing_credit-IsSound, apply_billing_credit-IsReserved,
}
use z_wireguard_vpn.Billing.Windows.{
  settle_rating_candidate-IsSound, settle_rating_candidate-IsReserved,
}
use z_wireguard_vpn.Billing.Imports.{
  post_doublezero_usage, post_doublezero_usage-IsSound, post_doublezero_usage-IsReserved,
  post_doublezero_usage-IsBalanced,
}
use z_wireguard_vpn.Billing.Ledger.{
  IsBalanced, create_withdrawal_request-IsBalanced, cancel_owned_withdrawal-IsBalanced,
  claim_withdrawal_signing_job-IsBalanced, confirm_withdrawal-IsBalanced,
  apply_billing_credit-IsBalanced, settle_rating_candidate-IsBalanced,
}

-- One transaction, at any time and with any input. A transaction that throws is no step. A credit
-- comes from a top-up or an operator, and so not from a withdrawal.
pub data Step : BillingDb → BillingDb → Type 0 where
  create :
      (now : ℕ) (actor : SessionOwner) (amount : ℤ) (destination : String) (base_units : ℕ)
      (sessions : List Session) (db : BillingDb)
      → Step db (create_withdrawal_request now actor amount destination base_units sessions db).1
  cancel :
      (now : ℕ) (actor : SessionOwner) (id : ℕ) (db : BillingDb)
      → Step db (cancel_owned_withdrawal now actor id db).1
  claim :
      (now : ℕ) (key_format : ℕ → Option String) (sessions : List Session) (db : BillingDb)
      → Step db (claim_withdrawal_signing_job now key_format sessions db).1
  fail :
      (now id : ℕ) (error : String) (db : BillingDb)
      → Step db (mark_withdrawal_failed now id error db)
  submit :
      (now id : ℕ) (signature : String) (db : BillingDb)
      → Step db (mark_withdrawal_submitted now id signature db)
  confirm :
      (now account_id id : ℕ) (db : BillingDb) {db' : BillingDb}
      → confirm_withdrawal now account_id id db ≡ some db'
      → Step db db'
  credit :
      (account_id : ℕ) (amount : ℤ) (kind : CreditKind) (source : SourceKey) (db : BillingDb)
      {db' : BillingDb}
      → ((k : ℕ) → source_eq (withdrawal_request k) source ≡ false)
      → apply_billing_credit account_id amount kind source db ≡ some db'
      → Step db db'
  settle :
      (candidate : RatingCandidate) (config : RetailBillingConfig) (db : BillingDb)
      → Step db (settle_rating_candidate candidate config db).1
  import_usage :
      (account_id rated_id cost_minor : ℕ) (markup_bps : ℤ) (db : BillingDb)
      → Step db (post_doublezero_usage account_id rated_id cost_minor markup_bps db)

Step-IsSound : {db db' : BillingDb} → Step db db' → IsSound db → IsSound db'
Step-IsSound (create now actor amount destination base_units sessions db) h =
    create_withdrawal_request-IsSound now actor amount destination base_units sessions db h
Step-IsSound (cancel now actor id db) h = cancel_owned_withdrawal-IsSound now actor id db h
Step-IsSound (claim now key_format sessions db) h =
    claim_withdrawal_signing_job-IsSound now key_format sessions db h
Step-IsSound (fail now id error db) h = failed-IsSound now id error db h
Step-IsSound (submit now id signature db) h = submitted-IsSound now id signature db h
Step-IsSound (confirm now account_id id db e) h =
    confirm_withdrawal-IsSound now account_id id db h e
Step-IsSound (credit account_id amount kind source db other e) h =
    apply_billing_credit-IsSound account_id amount kind source db other h e
Step-IsSound (settle candidate config db) h = settle_rating_candidate-IsSound candidate config db h
Step-IsSound (import_usage account_id rated_id cost_minor markup_bps db) h =
    post_doublezero_usage-IsSound account_id rated_id cost_minor markup_bps db h

Step-IsReserved :
    {db db' : BillingDb} (a : ℕ) → Step db db' → IsSound db → IsReserved a db → IsReserved a db'
Step-IsReserved a (create now actor amount destination base_units sessions db) s h =
    create_withdrawal_request-IsReserved now actor amount destination base_units sessions db a h
Step-IsReserved a (cancel now actor id db) s h =
    cancel_owned_withdrawal-IsReserved now actor id db a (s.unique id) h
Step-IsReserved a (claim now key_format sessions db) s h =
    claim_withdrawal_signing_job-IsReserved now key_format sessions db a s.unique h
Step-IsReserved a (fail now id error db) s h = failed-IsReserved now id error db a h
Step-IsReserved a (submit now id signature db) s h = submitted-IsReserved now id signature db a h
Step-IsReserved a (confirm now account_id id db e) s h =
    confirm_withdrawal-IsReserved now account_id id db a (s.unique id) (s.unbooked id) h e
Step-IsReserved a (credit account_id amount kind source db other e) s h =
    apply_billing_credit-IsReserved account_id amount kind source db a h e
Step-IsReserved a (settle candidate config db) s h =
    settle_rating_candidate-IsReserved candidate config db a h
Step-IsReserved a (import_usage account_id rated_id cost_minor markup_bps db) s h =
    post_doublezero_usage-IsReserved account_id rated_id cost_minor markup_bps db a h

Step-IsBalanced : {db db' : BillingDb} (a : ℕ) → Step db db' → IsBalanced a db → IsBalanced a db'
unfolding mark_withdrawal_failed mark_withdrawal_submitted
Step-IsBalanced a (create now actor amount destination base_units sessions db) h =
    create_withdrawal_request-IsBalanced now actor amount destination base_units sessions db a h
Step-IsBalanced a (cancel now actor id db) h =
    cancel_owned_withdrawal-IsBalanced now actor id db a h
Step-IsBalanced a (claim now key_format sessions db) h =
    claim_withdrawal_signing_job-IsBalanced now key_format sessions db a h
Step-IsBalanced a (fail now id error db) h = h
Step-IsBalanced a (submit now id signature db) h = h
Step-IsBalanced a (confirm now account_id id db e) h =
    confirm_withdrawal-IsBalanced now account_id id db a h e
Step-IsBalanced a (credit account_id amount kind source db other e) h =
    apply_billing_credit-IsBalanced account_id amount kind source db a h e
Step-IsBalanced a (settle candidate config db) h =
    settle_rating_candidate-IsBalanced candidate config db a h
Step-IsBalanced a (import_usage account_id rated_id cost_minor markup_bps db) h =
    post_doublezero_usage-IsBalanced account_id rated_id cost_minor markup_bps db a h

abbrev pub empty_buckets : BillingBuckets
empty_buckets = record {
  cash_minor = 0;
  promotional_minor = 0;
  reserved_withdrawal_minor = 0;
  debt_minor = 0;
}

-- No withdrawals, no ledger, and the default buckets; the plans and the states are any.
pub record IsInitial (db : BillingDb) : Type 0 where
  pub no_withdrawals : db.withdrawals ≡ []
  pub no_entries : db.ledger ≡ []
  pub no_money : (a : ℕ) → db.buckets a ≡ empty_buckets

pub data Reachable : BillingDb → Type 0 where
  start : {db : BillingDb} → IsInitial db → Reachable db
  next : {db db' : BillingDb} → Reachable db → Step db db' → Reachable db'

initial-IsSound : (db : BillingDb) → IsInitial db → IsSound db
initial-IsSound db h = record {
  unique = λ k. rw h.no_withdrawals (omega arith);
  fresh = rw h.no_withdrawals tt;
  unbooked = λ k w found holds. rw h.no_entries refl;
  booked_old = λ k q. rw h.no_entries refl;
}

initial-IsReserved : (a : ℕ) (db : BillingDb) → IsInitial db → IsReserved a db
initial-IsReserved a db h = record {
  reserved = rw (h.no_withdrawals, h.no_money a) refl;
  covered = rw (h.no_withdrawals, h.no_money a) (omega arith);
}

initial-IsBalanced : (a : ℕ) (db : BillingDb) → IsInitial db → IsBalanced a db
initial-IsBalanced a db h = rw (h.no_entries, h.no_money a) (omega arith)

-- In every reachable database, withdrawal ids are unique and below the supply of fresh ids, and no
-- request that still holds its amount is in the ledger.
pub Reachable-IsSound : {db : BillingDb} → Reachable db → IsSound db
Reachable-IsSound (start {db} h) = initial-IsSound db h
Reachable-IsSound (next r s) = Step-IsSound s (Reachable-IsSound r)

-- In every reachable database the reservation of each account is the sum of its requests that hold
-- their amounts, and its cash covers it: whatever was requested, cancelled, signed, failed,
-- confirmed, credited and charged before, in any order.
pub Reachable-IsReserved : {db : BillingDb} (a : ℕ) → Reachable db → IsReserved a db
Reachable-IsReserved a (start {db} h) = initial-IsReserved a db h
Reachable-IsReserved a (next r s) =
    Step-IsReserved a s (Reachable-IsSound r) (Reachable-IsReserved a r)

-- In every reachable database the confirmation of a submitted request of its account succeeds and
-- books it: the error for an amount that is not covered is never thrown.
pub Reachable-confirm :
    (now account_id id : ℕ) (w : WithdrawalRequest) {db : BillingDb}
    → Reachable db
    → row WithdrawalRequest.id id db.withdrawals ≡ some w
    → w.account_id ≡ account_id
    → w.status ≡ WithdrawalStatus.submitted
    → confirm_withdrawal now account_id id db ≡ some (book_withdrawal now w account_id db)
Reachable-confirm now account_id id w {db} r found own submitted =
    confirm_withdrawal-submitted now account_id id w db found own submitted
      (Reachable-IsReserved account_id r)

-- In every database that a run of the transactions of `Step` reaches, the credits less the debits in the
-- ledger of each account, the entries of imported usage apart, are its cash and promotional credit less
-- its debt.
pub Reachable-IsBalanced : {db : BillingDb} (a : ℕ) → Reachable db → IsBalanced a db
Reachable-IsBalanced a (start {db} h) = initial-IsBalanced a db h
Reachable-IsBalanced a (next r s) = Step-IsBalanced a s (Reachable-IsBalanced a r)
