-- ===== src/Job/Reports.antt =====
-- What a report does to its job: how often a job is retried, and when it is given up.
use z_wireguard_vpn.Common.{
  ℕ, ◌+◌, ◌<◌, ◌≡◌, refl, true, not, ◌&&◌, none, some, arith, ◌==◌, ltb, List, [], ◌∷◌, length,
  Bool-cases, if◌then◌else◌, All, inl, inr, Option-cases, is_some, is_some_eq, map_option,
}
use z_wireguard_vpn.Common.Json.{Json}
use z_wireguard_vpn.Common.Table.{
  All-Unit, row, update_where, row-update_where, row_key, find?-row, All-update_where,
}
use z_wireguard_vpn.Job.{
  Job, JobAttempt, JobPhase, JobReportStatus, FleetDb, resolve_reported_job_transition,
}
use z_wireguard_vpn.Job.Store.{
  find_job_for_report_for_update, record_job_report_outcome, set_reported, set_completed,
}
use z_wireguard_vpn.Job.Attempts.{GateJobReport, record_gate_job_report, record_assignment_progress}

-- The job after a report, by the report's status and the retries so far.
abbrev pub as_reported : ℕ → JobReportStatus → Job → Job
as_reported now JobReportStatus.succeeded j = record j {
  phase = JobPhase.succeeded;
  lease_expires_at = none;
  run_after = now;
  updated_at = now;
}
as_reported now JobReportStatus.failed j = record j {
  phase = JobPhase.dead;
  lease_expires_at = none;
  run_after = now;
  updated_at = now;
}
as_reported now JobReportStatus.retryable_failed j =
    if ltb (j.retry_count + 1) j.max_retries
    then record j {
      phase = JobPhase.retryable_failed;
      retry_count = j.retry_count + 1;
      lease_expires_at = none;
      run_after = now + 10;
      updated_at = now;
    }
    else record j {
      phase = JobPhase.dead;
      lease_expires_at = none;
      run_after = now;
      updated_at = now;
    }

reported_lem :
    (now : ℕ) (status : JobReportStatus) (j : Job)
    → let t = resolve_reported_job_transition status j.retry_count j.max_retries in
      set_reported now t.next_phase t.retry_delay_seconds j ≡ as_reported now status j
unfolding resolve_reported_job_transition
reported_lem now JobReportStatus.succeeded j = refl
reported_lem now JobReportStatus.failed j = refl
reported_lem now JobReportStatus.retryable_failed j = ground arith

report-parts :
    (compact : Job → Json → Json) (now gate_id job_id : ℕ) (report : GateJobReport) (db : FleetDb)
    {j : Job}
    → find_job_for_report_for_update gate_id job_id db.jobs ≡ some j
    → let (found, db') = record_gate_job_report compact now gate_id job_id report db in
      let t = resolve_reported_job_transition report.status j.retry_count j.max_retries in
      (found ≡ true)
      × (db'.jobs
          ≡ update_where
              (λ k. k.id == j.id)
              (set_reported now t.next_phase t.retry_delay_seconds)
              db.jobs)
      × (db'.attempts
          ≡ update_where
              (λ a. a.job_id == j.id && not (is_some a.completed_at))
              (set_completed now report.actual_state_hash report.error_code
                (compact j report.result_summary))
              db.attempts)
unfolding record_gate_job_report record_job_report_outcome record_assignment_progress
report-parts compact now gate_id job_id report db {j} found = elim (Option-cases j.assignment_id) [
  | inl alone ↦ (ground arith, ground arith, ground arith)
  | inr (assignment_id, f) ↦ (ground arith, ground arith, ground arith)
]

-- A report of the gate that a job belongs to moves the job as the status says: to succeeded, to dead,
-- or to another try in ten seconds while tries are left; no other job changes, and every attempt at
-- the job is completed. This holds whatever the phase of the job is.
pub record_gate_job_report_lem :
    (compact : Job → Json → Json) (now gate_id job_id : ℕ) (report : GateJobReport) (db : FleetDb)
    {j : Job}
    → row Job.id job_id db.jobs ≡ some j
    → is_some_eq gate_id j.gate_id ≡ true
    → let (found, db') = record_gate_job_report compact now gate_id job_id report db in
      (found ≡ true)
      × ((id : ℕ)
          → row Job.id id db'.jobs ≡ (
              if job_id == id
              then some (as_reported now report.status j)
              else row Job.id id db.jobs))
      × All (λ (a : JobAttempt). a.job_id ≡ job_id → is_some a.completed_at ≡ true) db'.attempts
unfolding find_job_for_report_for_update
record_gate_job_report_lem compact now gate_id job_id report db {j} stored own =
    let key = row_key Job.id job_id db.jobs stored in
    let found = find?-row Job.id job_id (λ k. is_some_eq gate_id k.gate_id) db.jobs stored own in
    let (answer, jobs, attempts) = report-parts compact now gate_id job_id report db found in
    let t = resolve_reported_job_transition report.status j.retry_count j.max_retries in
    let moved = reported_lem now report.status j in
    (
      answer,
      (λ id. ground (
        arith,
        jobs,
        moved,
        row-update_where Job.id j.id id (set_reported now t.next_phase t.retry_delay_seconds)
            (λ x. refl) db.jobs,
      )),
      rw attempts (
          All-update_where (λ a. Unit {0}) (λ a. a.job_id ≡ job_id → is_some a.completed_at ≡ true)
            (λ a. a.job_id == j.id && not (is_some a.completed_at))
            (set_completed now report.actual_state_hash report.error_code
              (compact j report.result_summary))
            (λ a hit u q. refl) (λ a miss u q. ground arith) db.attempts (All-Unit db.attempts)),
    )

-- Reports on one job, each at its own time.
abbrev pub report_times : (Job → Json → Json) → ℕ → ℕ → List (ℕ × GateJobReport) → FleetDb → FleetDb
report_times compact gate_id job_id [] db = db
report_times compact gate_id job_id (x ∷ xs) db =
    report_times compact gate_id job_id xs
      (record_gate_job_report compact x.0 gate_id job_id x.1 db).1

-- The phase after one more report, and what it leaves for the reports to come.
retried-phase :
    (now : ℕ) (j : Job)
    → let k = as_reported now JobReportStatus.retryable_failed j in
      (k.phase ≡ (
        if ltb (j.retry_count + 1) j.max_retries then JobPhase.retryable_failed else JobPhase.dead))
      × (k.gate_id ≡ j.gate_id)
      × (k.max_retries ≡ j.max_retries)
      × (k.retry_count
          ≡ (if ltb (j.retry_count + 1) j.max_retries then j.retry_count + 1 else j.retry_count))
retried-phase now j = (ground arith, ground arith, ground arith, ground arith)

phase-report_times :
    (compact : Job → Json → Json) (gate_id job_id : ℕ) (x : ℕ × GateJobReport)
    (xs : List (ℕ × GateJobReport)) (db : FleetDb) (j : Job)
    → All (λ (r : ℕ × GateJobReport). r.1.status ≡ JobReportStatus.retryable_failed) (x ∷ xs)
    → row Job.id job_id db.jobs ≡ some j
    → is_some_eq gate_id j.gate_id ≡ true
    → map_option Job.phase
        (row Job.id job_id (report_times compact gate_id job_id (x ∷ xs) db).jobs)
      ≡ some (
          if ltb (j.retry_count + length (x ∷ xs)) j.max_retries
          then JobPhase.retryable_failed
          else JobPhase.dead)
phase-report_times compact gate_id job_id x [] db j status stored own =
    let (phase, gate, most, count) = retried-phase x.0 j in
    let (found, after, attempts) =
      record_gate_job_report_lem compact x.0 gate_id job_id x.1 db stored own in
    let kind = status.0 in ground (arith, after job_id, kind, phase)
phase-report_times compact gate_id job_id x (y ∷ ys) db j status stored own =
    let k = as_reported x.0 JobReportStatus.retryable_failed j in
    let (phase, gate, most, count) = retried-phase x.0 j in
    let db' = (record_gate_job_report compact x.0 gate_id job_id x.1 db).1 in
    let (found, after, attempts) =
      record_gate_job_report_lem compact x.0 gate_id job_id x.1 db stored own in
    let kind = status.0 in
    let stored' : row Job.id job_id db'.jobs ≡ some k = ground (arith, after job_id, kind) in
    let rest =
      phase-report_times compact gate_id job_id y ys db' k status.1 stored' (rw gate own) in
    elim (Bool-cases (ltb (j.retry_count + 1) j.max_retries)) [
      | inl left ↦ ground (arith, rest, most, count, left)
      | inr over ↦ ground (arith, rest, most, count, over)
    ]

-- Any reports of failures that may be retried, one or more and each at its own time, leave a job without
-- retries so far open for another try while they are fewer than `max_retries`, and dead from that many on.
pub report_times_lem :
    (compact : Job → Json → Json) (gate_id job_id : ℕ) (reports : List (ℕ × GateJobReport))
    (db : FleetDb) {j : Job}
    → All (λ (r : ℕ × GateJobReport). r.1.status ≡ JobReportStatus.retryable_failed) reports
    → 0 < length reports
    → row Job.id job_id db.jobs ≡ some j
    → is_some_eq gate_id j.gate_id ≡ true
    → j.retry_count ≡ 0
    → map_option Job.phase (row Job.id job_id (report_times compact gate_id job_id reports db).jobs)
      ≡ some
          (if ltb (length reports) j.max_retries then JobPhase.retryable_failed else JobPhase.dead)
report_times_lem compact gate_id job_id [] db status some_reports stored own start = ground arith
report_times_lem compact gate_id job_id (x ∷ xs) db {j} status some_reports stored own start =
    let last = phase-report_times compact gate_id job_id x xs db j status stored own in
    ground (arith, last, start)
