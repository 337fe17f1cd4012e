-- ===== src/Job/Claims.antt =====
-- What a claim hands out: the oldest claimable job of the gate, once.
use mathlib.Core.Path.{subst}
use z_wireguard_vpn.Common.{
  ℕ, ◌≤◌, ◌<◌, ◌≡◌, ◌≢◌, refl, Bool, true, false, ◌&&◌, Option, none, some, List, [], ◌∷◌, arith,
  ◌==◌, leb, if◌then◌else◌, All, count, inl, inr, Option-cases, Bool-cases,
}
use z_wireguard_vpn.Common.Json.{Json}
use z_wireguard_vpn.Common.Table.{count-update_where_key, All-map, row, row-update_where}
use z_wireguard_vpn.Assignment.Store.{find_assignment_phase_for_update}
use z_wireguard_vpn.Job.{Job, JobAttempt, JobPhase, FleetDb}
use z_wireguard_vpn.Job.Store.{
  GateJobLane, oldest, is_claimable, find_claimable_gate_job_for_update, max_attempt,
  update_job_lease, next_job_attempt_number, set_lease,
}
use z_wireguard_vpn.Job.Leasing.{
  GateJobLeaseIdentity, ClaimedGateJob, claim_gate_job, lease_job, lease_assignment,
}

oldest-none : (p : Job → Bool) (js : List Job) → oldest p js ≡ none → All (λ k. p k ≡ false) js
unfolding oldest
oldest-none p [] e = tt
oldest-none p (k ∷ ks) e = elim (Option-cases (oldest p ks)) [
  | inl empty ↦ (ground arith, oldest-none p ks empty)
  | inr (i, f) ↦ ground arith
]

-- What holds of the oldest row: it passes the test, stands in the table, and is not younger than any
-- row that passes.
abbrev pub IsOldest : (Job → Bool) → List Job → Job → Type 0
IsOldest p js j =
    (p j ≡ true)
    × (1 ≤ count (λ k. k.id == j.id) js)
    × All (λ k. p k ≡ true → j.created_at ≤ k.created_at) js

IsOldest-head :
    (p : Job → Bool) (k : Job) (ks : List Job) (m : ℕ)
    → p k ≡ true
    → k.created_at ≤ m
    → All (λ i. p i ≡ true → m ≤ i.created_at) ks
    → IsOldest p (k ∷ ks) k
IsOldest-head p k ks m t le h = (
  t,
  ground arith,
  (
    λ q. omega arith,
    All-map (λ i. p i ≡ true → m ≤ i.created_at) (λ i. p i ≡ true → k.created_at ≤ i.created_at)
        (λ i g q. let q' = g q in omega (arith, q')) ks h,
  ),
)

oldest_lem : (p : Job → Bool) (js : List Job) {j : Job} → oldest p js ≡ some j → IsOldest p js j
unfolding oldest
oldest_lem p [] e = cc
oldest_lem p (k ∷ ks) {j} e = elim (Option-cases (oldest p ks)) [
  | inl empty ↦
      let (t, same) : (p k ≡ true) × (k ≡ j) = (ground arith, ground arith) in
      let no_rest =
        All-map (λ i. p i ≡ false) (λ i. p i ≡ true → k.created_at ≤ i.created_at)
          (λ i f q. ground arith) ks (oldest-none p ks empty) in
      subst (IsOldest p (k ∷ ks)) same (IsOldest-head p k ks k.created_at t (omega arith) no_rest)
  | inr (i, f) ↦
      let (t, c, a) = oldest_lem p ks f in
      elim (Bool-cases (p k && leb k.created_at i.created_at)) [
        | inl first ↦
            let same : k ≡ j = ground arith in
            subst (IsOldest p (k ∷ ks)) same
              (IsOldest-head p k ks i.created_at (ground arith) (ground arith) a)
        | inr later ↦
            let same : i ≡ j = ground arith in
            subst (IsOldest p (k ∷ ks)) same (t, ground arith, (λ q. ground arith, a))
      ]
]

oldest-row :
    (p : Job → Bool) (js : List Job) {j : Job}
    → count (λ k. k.id == j.id) js ≤ 1
    → oldest p js ≡ some j
    → row Job.id j.id js ≡ some j
unfolding oldest
oldest-row p [] c e = cc
oldest-row p (k ∷ ks) {j} c e = elim (Option-cases (oldest p ks)) [
  | inl empty ↦ ground arith
  | inr (i, f) ↦ ground (arith, oldest_lem p ks {j = j}, oldest-row p ks {j = j})
]

max_attempt-le :
    (job_id : ℕ) (as' : List JobAttempt)
    → All (λ a. a.job_id ≡ job_id → a.attempt_number ≤ max_attempt job_id as') as'
unfolding max_attempt
max_attempt-le job_id [] = tt
max_attempt-le job_id (a ∷ as') = (
  λ same. ground arith,
  All-map (λ b. b.job_id ≡ job_id → b.attempt_number ≤ max_attempt job_id as')
      (λ b. b.job_id ≡ job_id → b.attempt_number ≤ max_attempt job_id (a ∷ as'))
      (λ b h q. let h' = h q in ground (arith, h')) as' (max_attempt-le job_id as'),
)

lease_assignment-frame :
    (job : Job) (db : FleetDb) {db' : FleetDb}
    → lease_assignment job db ≡ some db'
    → (db'.jobs ≡ db.jobs) × (db'.attempts ≡ db.attempts)
unfolding lease_assignment find_assignment_phase_for_update
lease_assignment-frame job db e = (ground arith, ground arith)

-- How a claim that returns a job came about.
claim-parts :
    (secret : Job → Option Json) (now : ℕ) (gate : GateJobLeaseIdentity) (lane : Option GateJobLane)
    (db : FleetDb) {claimed : ClaimedGateJob} {db' : FleetDb}
    → claim_gate_job secret now gate lane db ≡ some (some claimed, db')
    → (oldest (is_claimable now gate.id lane) db.jobs ≡ some claimed.job)
      × (claimed.attempt_number ≡ next_job_attempt_number claimed.job.id db.attempts)
      × (db'.jobs ≡ update_job_lease now claimed.job.id JobPhase.leased gate.name 60 db.jobs)
unfolding claim_gate_job find_claimable_gate_job_for_update lease_job
claim-parts secret now gate lane db {claimed} {db'} e =
    elim (Option-cases (oldest (is_claimable now gate.id lane) db.jobs)) [
      | inl empty ↦ ground arith
      | inr (job, f) ↦ elim (Option-cases (secret job)) [
        | inl thrown ↦ ground arith
        | inr (document, g) ↦
            let attempt = next_job_attempt_number job.id db.attempts in
            elim (Option-cases (lease_assignment job (lease_job now gate job attempt db))) [
              | inl missing ↦ ground arith
              | inr (d, l) ↦
                  let frame = lease_assignment-frame job (lease_job now gate job attempt db) l in
                  (ground arith, ground arith, ground (arith, frame))
            ]
      ]
    ]

pub claim_gate_job_lem :
    (secret : Job → Option Json) (now : ℕ) (gate : GateJobLeaseIdentity) (lane : Option GateJobLane)
    (db : FleetDb) {claimed : ClaimedGateJob} {db' : FleetDb}
    → ((id : ℕ) → count (λ (k : Job). k.id == id) db.jobs ≤ 1)
    → claim_gate_job secret now gate lane db ≡ some (some claimed, db')
    → let job = claimed.job in
      IsOldest (is_claimable now gate.id lane) db.jobs job
      × (row Job.id job.id db.jobs ≡ some job)
      × ((id : ℕ)
          → row Job.id id db'.jobs ≡ (
              if job.id == id
              then some (set_lease now JobPhase.leased gate.name 60 job)
              else row Job.id id db.jobs))
      × All
          (λ (a : JobAttempt). a.job_id ≡ job.id → a.attempt_number < claimed.attempt_number)
          db.attempts
unfolding update_job_lease
claim_gate_job_lem secret now gate lane db {claimed} {db'} unique e =
    let job = claimed.job in
    let (found, number, leased) = claim-parts secret now gate lane db e in
    let stored = oldest-row (is_claimable now gate.id lane) db.jobs (unique job.id) found in
    (
      oldest_lem (is_claimable now gate.id lane) db.jobs found,
      stored,
      λ id. ground (
        arith,
        row-update_where Job.id job.id id (set_lease now JobPhase.leased gate.name 60) (λ x. refl)
            db.jobs,
      ),
      All-map (λ a. a.job_id ≡ job.id → a.attempt_number ≤ max_attempt job.id db.attempts)
          (λ a. a.job_id ≡ job.id → a.attempt_number < claimed.attempt_number)
          (λ a h q. let h' = h q in omega (arith, h', number)) db.attempts
          (max_attempt-le job.id db.attempts),
    )

-- A claim that returns no job changes nothing, and no job of the gate can be claimed in the lane now.
pub claim_gate_job-none :
    (secret : Job → Option Json) (now : ℕ) (gate : GateJobLeaseIdentity) (lane : Option GateJobLane)
    (db : FleetDb) {db' : FleetDb}
    → claim_gate_job secret now gate lane db ≡ some (none, db')
    → (db' ≡ db) × All (λ k. is_claimable now gate.id lane k ≡ false) db.jobs
unfolding claim_gate_job find_claimable_gate_job_for_update
claim_gate_job-none secret now gate lane db {db'} e =
    elim (Option-cases (oldest (is_claimable now gate.id lane) db.jobs)) [
      | inl empty ↦ (ground arith, oldest-none (is_claimable now gate.id lane) db.jobs empty)
      | inr (job, f) ↦ elim (Option-cases (secret job)) [
        | inl thrown ↦ ground arith
        | inr (document, g) ↦
            let attempt = next_job_attempt_number job.id db.attempts in
            elim (Option-cases (lease_assignment job (lease_job now gate job attempt db))) [
              | inl missing ↦ ground arith
              | inr (d, l) ↦ ground arith
            ]
      ]
    ]

-- Two claims in a row, by any gates, in any lanes and at any times, return different jobs: what is
-- leased is not handed out again before something else changes it. Job ids are a primary key.
pub claim_gate_job-distinct :
    (secret : Job → Option Json) (now now' : ℕ) (gate gate' : GateJobLeaseIdentity)
    (lane lane' : Option GateJobLane) (db : FleetDb) {first second : ClaimedGateJob}
    {db' db'' : FleetDb}
    → ((id : ℕ) → count (λ (k : Job). k.id == id) db.jobs ≤ 1)
    → claim_gate_job secret now gate lane db ≡ some (some first, db')
    → claim_gate_job secret now' gate' lane' db' ≡ some (some second, db'')
    → first.job.id ≢ second.job.id
unfolding update_job_lease
claim_gate_job-distinct secret now now' gate gate' lane lane' db {first} {second} {db'} unique e
      e' =
    let (found, number, leased) = claim-parts secret now gate lane db e in
    let (oldest1, stored, after, fresh1) = claim_gate_job_lem secret now gate lane db unique e in
    let unique' : (id : ℕ) → count (λ (k : Job). k.id == id) db'.jobs ≤ 1 = λ id. ground (
      arith,
      leased,
      unique id,
      count-update_where_key Job.id id (λ j. j.id == first.job.id)
          (set_lease now JobPhase.leased gate.name 60) (λ x. refl) db.jobs,
    ) in
    let (oldest2, stored', after', fresh2) =
      claim_gate_job_lem secret now' gate' lane' db' unique' e' in
    λ same. ground (arith, after second.job.id, stored', oldest2.0)
