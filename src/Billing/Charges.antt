-- ===== src/Billing/Charges.antt =====
-- What the settlement of a rated window posts.
use z_wireguard_vpn.Common.{
  ℕ, ◌+◌, ◌-◌, ◌*◌, ◌/◌, ◌%◌, ◌<◌, ◌≡◌, ◌≢◌, refl, ap, leb, Bool, true, false, none, some, List, [],
  ◌∷◌, ◌++◌, arith, ◌==◌, any, ◌||◌, if◌then◌else◌, update, inl, inr, Bool-cases,
}
use z_wireguard_vpn.Common.Int.{pos, sub_ℕ}
use z_wireguard_vpn.Common.Table.{update_where}
use z_wireguard_vpn.Billing.{
  BillingBuckets, microminor_per_minor, calculate_retail_charge_microminor, consume_billing_charge,
}
use z_wireguard_vpn.Billing.Store.{
  BillingDb, UsageRating, LedgerEntry, CashSweep, SweepStatus, usage_charge, source_eq, enforce,
  retail_usage_rating, has_entry, same_window, insert_ledger_entry, write_billing_buckets,
  insert_retail_usage_rating, update_billing_accrual, mark_rating_posted, insert_cash_sweep_request,
}
use z_wireguard_vpn.Billing.Settlement.{
  settle_rating_candidate, charge_rating, post_charge, RatingCandidate, RetailBillingConfig,
  new_rating, is_shadow,
}

abbrev pub is_rated : RatingCandidate → BillingDb → Bool
is_rated candidate db =
    any (same_window candidate.session_id candidate.window_start candidate.window_end) db.ratings

-- A window that is rated is settled as a retry: nothing is posted and nothing changes.
retry-settle :
    (candidate : RatingCandidate) (config : RetailBillingConfig) (db : BillingDb)
    → is_rated candidate db ≡ true
    → settle_rating_candidate candidate config db ≡ (none, db)
unfolding settle_rating_candidate insert_retail_usage_rating
retry-settle candidate config db old = ground arith

any-append :
    (p : UsageRating → Bool) (xs : List UsageRating) (x : UsageRating)
    → p x ≡ true
    → any p (xs ++ x ∷ []) ≡ true
any-append p [] x e = ground arith
any-append p (y ∷ ys) x e = ground (arith, any-append p ys x e)

any-mark :
    (s t u id n : ℕ) (xs : List UsageRating)
    → any
        (same_window s t u)
        (update_where (λ r. r.id == id) (λ r. record r { posted_charge_minor = n }) xs)
      ≡ any (same_window s t u) xs
any-mark s t u id n [] = refl
any-mark s t u id n (x ∷ xs) = ground (arith, any-mark s t u id n xs)

charge-is_rated :
    (candidate : RatingCandidate) (rating_id : ℕ) (config : RetailBillingConfig) (db : BillingDb)
    → is_rated candidate (charge_rating rating_id candidate config db).1 ≡ is_rated candidate db
unfolding charge_rating post_charge update_billing_accrual insert_ledger_entry write_billing_buckets
    mark_rating_posted insert_cash_sweep_request
charge-is_rated candidate rating_id config db = ground (
  arith,
  any-mark candidate.session_id candidate.window_start candidate.window_end rating_id
      ((db.accruals candidate.account_id + calculate_retail_charge_microminor candidate.charge)
        / microminor_per_minor)
      db.ratings,
)

settled-is_rated :
    (candidate : RatingCandidate) (config : RetailBillingConfig) (db : BillingDb)
    → is_rated candidate (settle_rating_candidate candidate config db).1 ≡ true
unfolding settle_rating_candidate insert_retail_usage_rating
settled-is_rated candidate config db =
    let new = record (new_rating candidate config) { id = db.next_id } in
    let stored =
      any-append (same_window candidate.session_id candidate.window_start candidate.window_end)
        db.ratings new (ground arith) in
    elim (Bool-cases (is_rated candidate db)) [
      | inl old ↦ ground arith
      | inr fresh ↦ elim (Bool-cases (is_shadow config.mode)) [
        | inl quiet ↦ ground arith
        | inr charged ↦ ground (
          arith,
          charge-is_rated candidate db.next_id config
              (record db { ratings = db.ratings ++ new ∷ []; next_id = db.next_id + 1 }),
        )
      ]
    ]

-- Settling a window again right after it was settled, in any mode, posts nothing and changes nothing.
pub settle_rating_candidate-twice :
    (candidate : RatingCandidate) (config config' : RetailBillingConfig) (db : BillingDb)
    → let db' = (settle_rating_candidate candidate config db).1 in
      settle_rating_candidate candidate config' db' ≡ (none, db')
settle_rating_candidate-twice candidate config config' db =
    retry-settle candidate config' _ (settled-is_rated candidate config db)

-- What a window posts, in whole units: a debit in the ledger, and a request to sweep the cash that it took,
-- if it took any and the tokens for it are not none.
abbrev pub usage_entries : ℕ → ℕ → ℕ → List LedgerEntry
usage_entries account_id rating_id posted =
    if leb posted 0
    then []
    else (record {
      account_id = account_id;
      entry_type = usage_charge;
      amount_minor = sub_ℕ 0 posted;
      source = retail_usage_rating rating_id;
    })
      ∷ []

abbrev pub usage_sweeps : ℕ → ℕ → ℕ → ℕ → List CashSweep
usage_sweeps account_id rating_id cash_spent rate =
    if leb cash_spent 0 || leb (cash_spent * rate) 0
    then []
    else (record {
      account_id = account_id;
      source = retail_usage_rating rating_id;
      amount_minor = cash_spent;
      token_amount_base_units = cash_spent * rate;
      status = SweepStatus.pending;
    })
      ∷ []

-- What a settlement of a window leaves alone: the money and the fractions of other accounts, the states of
-- all accounts, the withdrawals, the notifications, and the plans.
pub record IsUntouched (account_id : ℕ) (db db' : BillingDb) : Type 0 where
  pub buckets : (a : ℕ) → a ≢ account_id → db'.buckets a ≡ db.buckets a
  pub accruals : (a : ℕ) → a ≢ account_id → db'.accruals a ≡ db.accruals a
  pub accounts : db'.accounts ≡ db.accounts
  pub states : db'.states ≡ db.states
  pub plans : db'.plans ≡ db.plans
  pub withdrawals : db'.withdrawals ≡ db.withdrawals
  pub notifications : db'.notifications ≡ db.notifications

consume-nothing : (b : BillingBuckets) → consume_billing_charge b (pos 0) ≡ b
unfolding consume_billing_charge
consume-nothing b = ground arith

append_nil : {A : Type 0} (xs : List A) → xs ≡ xs ++ []
append_nil [] = refl
append_nil (x ∷ xs) = ap (λ ys. x ∷ ys) (append_nil xs)

usage_sweeps-none : (a r rate n : ℕ) → n ≡ 0 → usage_sweeps a r n rate ≡ []
usage_sweeps-none a r rate n e = rw e refl

-- A request to sweep what a window took is new.
usage_sweeps-insert :
    (a r n rate : ℕ) (db : BillingDb)
    → any (λ (s : CashSweep). source_eq (retail_usage_rating r) s.source) db.sweeps ≡ false
    → insert_cash_sweep_request
        (record {
          account_id = a;
          source = retail_usage_rating r;
          amount_minor = n;
          token_amount_base_units = n * rate;
          status = SweepStatus.pending;
        })
        db
      ≡ record db { sweeps = db.sweeps ++ usage_sweeps a r n rate }
unfolding insert_cash_sweep_request
usage_sweeps-insert a r n rate db new = elim (Bool-cases (leb n 0 || leb (n * rate) 0)) [
  | inl nothing ↦ rw nothing (ap (λ ss. record db { sweeps = ss }) (append_nil db.sweeps))
  | inr taken ↦ rw (taken, new) refl
]

-- The database after a window is charged.
abbrev charged_db : ℕ → ℕ → RatingCandidate → RetailBillingConfig → BillingDb → BillingDb
charged_db rating_id posted candidate config db =
    let account = candidate.account_id in
    let left = consume_billing_charge (db.buckets account) (pos posted) in
    record db {
      buckets = update db.buckets account left;
      ledger =
          db.ledger
          ++ (record {
            account_id = account;
            entry_type = usage_charge;
            amount_minor = sub_ℕ 0 posted;
            source = retail_usage_rating rating_id;
          })
            ∷ [];
      sweeps =
          db.sweeps
          ++ usage_sweeps account rating_id ((db.buckets account).cash_minor - left.cash_minor)
              config.token_base_units_per_billing_minor;
    }

post_charge-charged_db :
    (rating_id posted : ℕ) (candidate : RatingCandidate) (config : RetailBillingConfig)
    (db : BillingDb)
    → has_entry (retail_usage_rating rating_id) db.ledger ≡ false
    → any (λ (s : CashSweep). source_eq (retail_usage_rating rating_id) s.source) db.sweeps ≡ false
    → post_charge rating_id posted candidate config db ≡ (
      posted,
      mark_rating_posted rating_id posted (charged_db rating_id posted candidate config db),
    )
unfolding post_charge insert_ledger_entry write_billing_buckets
post_charge-charged_db rating_id posted candidate config db fresh unswept =
    let account = candidate.account_id in
    let left = consume_billing_charge (db.buckets account) (pos posted) in
    let swept =
      usage_sweeps-insert account rating_id ((db.buckets account).cash_minor - left.cash_minor)
        config.token_base_units_per_billing_minor
        (record (charged_db rating_id posted candidate config db) { sweeps = db.sweeps }) unswept in
    rw fresh (ap (λ d. (posted, mark_rating_posted rating_id posted d)) swept)

charge_rating_lem :
    (rating_id : ℕ) (candidate : RatingCandidate) (config : RetailBillingConfig) (db : BillingDb)
    → has_entry (retail_usage_rating rating_id) db.ledger ≡ false
    → any (λ (s : CashSweep). source_eq (retail_usage_rating rating_id) s.source) db.sweeps ≡ false
    → let account = candidate.account_id in
      let (posted, db') = charge_rating rating_id candidate config db in
      (posted * microminor_per_minor + db'.accruals account
        ≡ db.accruals account + calculate_retail_charge_microminor candidate.charge)
      × (db'.accruals account < microminor_per_minor)
      × (db'.buckets account ≡ consume_billing_charge (db.buckets account) (pos posted))
      × (db'.ledger ≡ db.ledger ++ usage_entries account rating_id posted)
      × (db'.sweeps
          ≡ db.sweeps
            ++ usage_sweeps account rating_id
                ((db.buckets account).cash_minor - (db'.buckets account).cash_minor)
                config.token_base_units_per_billing_minor)
      × IsUntouched account db db'
unfolding charge_rating update_billing_accrual mark_rating_posted
charge_rating_lem rating_id candidate config db fresh unswept =
    let account = candidate.account_id in
    let total = db.accruals account + calculate_retail_charge_microminor candidate.charge in
    let posted = total / microminor_per_minor in
    elim (Bool-cases (leb posted 0)) [
      | inl small ↦
          let none_posted : posted ≡ 0 = ground arith in
          let nothing_taken : (db.buckets account).cash_minor - (db.buckets account).cash_minor
              ≡ 0 =
            omega arith in
          rw small (
            ground arith,
            ground arith,
            ground (arith, consume-nothing (db.buckets account)),
            append_nil db.ledger,
            rw
                (usage_sweeps-none account rating_id config.token_base_units_per_billing_minor _
                  nothing_taken)
                (append_nil db.sweeps),
            record {
              buckets = λ a ne. refl;
              accruals = λ a ne. ground arith;
              accounts = refl;
              states = refl;
              plans = refl;
              withdrawals = refl;
              notifications = refl;
            },
          )
      | inr large ↦
          let left = consume_billing_charge (db.buckets account) (pos posted) in
          let accrued = update_billing_accrual account (total % microminor_per_minor) db in
          let posting =
            post_charge-charged_db rating_id posted candidate config accrued fresh unswept in
          let charged : update db.buckets account left account ≡ left = ground arith in
          rw (large, posting, large, charged)
            (
              ground arith,
              ground arith,
              refl,
              refl,
              refl,
              record {
                buckets = λ a ne. ground arith;
                accruals = λ a ne. ground arith;
                accounts = refl;
                states = refl;
                plans = refl;
                withdrawals = refl;
                notifications = refl;
              },
            )
    ]

-- Settling a new window in the mode `enforce` carries the fractions: what is posted, in millionths, and
-- the new remainder add up to the old remainder and the charge of the window, and the remainder is below
-- one unit. The buckets of the account are charged exactly what is posted; the ledger has one more debit of
-- that, or none if nothing is posted; and one more sweep, of exactly the cash that was taken from the account,
-- or none if that is worth no tokens. The money and fractions of other accounts, the states of accounts, the
-- plans, the withdrawals and the notifications stay as they are. The next row id is in no entry of the
-- ledger and no sweep, as ids are fresh.
pub settle_rating_candidate-enforce :
    (candidate : RatingCandidate) (config : RetailBillingConfig) (db : BillingDb)
    → config.mode ≡ enforce
    → is_rated candidate db ≡ false
    → has_entry (retail_usage_rating db.next_id) db.ledger ≡ false
    → any (λ (s : CashSweep). source_eq (retail_usage_rating db.next_id) s.source) db.sweeps ≡ false
    → let account = candidate.account_id in
      let (result, db') = settle_rating_candidate candidate config db in
      (posted : ℕ) × (result ≡ some posted)
      × (posted * microminor_per_minor + db'.accruals account
          ≡ db.accruals account + calculate_retail_charge_microminor candidate.charge)
      × (db'.accruals account < microminor_per_minor)
      × (db'.buckets account ≡ consume_billing_charge (db.buckets account) (pos posted))
      × (db'.ledger ≡ db.ledger ++ usage_entries account db.next_id posted)
      × (db'.sweeps
          ≡ db.sweeps
            ++ usage_sweeps account db.next_id
                ((db.buckets account).cash_minor - (db'.buckets account).cash_minor)
                config.token_base_units_per_billing_minor)
      × IsUntouched account db db'
unfolding settle_rating_candidate insert_retail_usage_rating
settle_rating_candidate-enforce candidate config db mode new fresh unswept =
    let row = record (new_rating candidate config) { id = db.next_id } in
    let rated = record db { ratings = db.ratings ++ row ∷ []; next_id = db.next_id + 1 } in
    let (sum, small, charged_once, entries, swept, untouched) =
      charge_rating_lem db.next_id candidate config rated fresh unswept in
    let (posted, charged) = charge_rating db.next_id candidate config rated in
    let result : settle_rating_candidate candidate config db ≡ (some posted, charged) =
      ground arith in
    rw result (
      posted,
      refl,
      sum,
      small,
      charged_once,
      entries,
      swept,
      record {
        buckets = untouched.buckets;
        accruals = untouched.accruals;
        accounts = untouched.accounts;
        states = untouched.states;
        plans = untouched.plans;
        withdrawals = untouched.withdrawals;
        notifications = untouched.notifications;
      },
    )
