-- ===== src/Job.antt =====
-- The queue of jobs for the gates: the phases and transitions of
-- packages/control-plane/src/resources/jobs/transitions.ts, and the rows of `jobs` and
-- `job_attempts`. Times are in seconds.
pub mod Store
pub mod Leasing
pub mod Attempts
pub mod Service
pub mod Claims
pub mod Reports
pub mod Queue
mod Tests
use z_wireguard_vpn.Common.{
  ℕ, ◌+◌, Bool, true, false, ◌&&◌, ◌||◌, Option, none, some, String, List, leb, if◌then◌else◌,
}
use z_wireguard_vpn.Common.Json.{Json}
use z_wireguard_vpn.Assignment.{Assignment, JobType, Role}

pub data JobReportStatus : Type 0 where
  succeeded retryable_failed failed : JobReportStatus

pub data JobPhase : Type 0 where
  queued leased running succeeded retryable_failed dead acknowledged_dead : JobPhase

-- `sessionFailureDeadCandidateJobPhases`: the phases of a job that is still open.
abbrev pub is_open_job : JobPhase → Bool
is_open_job JobPhase.queued = true
is_open_job JobPhase.leased = true
is_open_job JobPhase.running = true
is_open_job JobPhase.retryable_failed = true
is_open_job _ = false

-- `expiredLeaseCandidateJobPhases`.
abbrev pub is_leased_job : JobPhase → Bool
is_leased_job JobPhase.leased = true
is_leased_job JobPhase.running = true
is_leased_job _ = false

abbrev pub is_claimable_phase : JobPhase → Bool
is_claimable_phase JobPhase.queued = true
is_claimable_phase JobPhase.retryable_failed = true
is_claimable_phase _ = false

abbrev pub is_succeeded : JobPhase → Bool
is_succeeded JobPhase.succeeded = true
is_succeeded _ = false

pub record ReportedJobTransition : Type 0 where
  pub next_phase : JobPhase
  pub terminal_failure : Bool
  pub retry_delay_seconds : Option ℕ

abbrev pub is_report_succeeded : JobReportStatus → Bool
is_report_succeeded JobReportStatus.succeeded = true
is_report_succeeded _ = false

abbrev pub is_report_retryable : JobReportStatus → Bool
is_report_retryable JobReportStatus.retryable_failed = true
is_report_retryable _ = false

abbrev pub is_report_failed : JobReportStatus → Bool
is_report_failed JobReportStatus.failed = true
is_report_failed _ = false

unfoldable pub resolve_reported_job_transition : JobReportStatus → ℕ → ℕ → ReportedJobTransition
resolve_reported_job_transition status retry_count max_retries =
    let terminal_failure =
      is_report_failed status
      || (is_report_retryable status && leb max_retries (retry_count + 1)) in
    record {
      next_phase =
          if is_report_succeeded status
          then JobPhase.succeeded
          else if terminal_failure
          then JobPhase.dead
          else JobPhase.retryable_failed;
      terminal_failure = terminal_failure;
      retry_delay_seconds =
          if is_report_retryable status then (if terminal_failure then none else some 10) else none;
    }

-- The phase and the seconds of a lease.
abbrev pub claim_job_transition : JobPhase × ℕ
claim_job_transition = (JobPhase.leased, 60)

abbrev pub queued_job_transition : JobPhase
queued_job_transition = JobPhase.queued

abbrev pub expired_lease_transition : JobPhase → JobPhase
expired_lease_transition p = if is_leased_job p then JobPhase.queued else p

abbrev pub dead_for_session_failure_transition : JobPhase → JobPhase
dead_for_session_failure_transition p = if is_open_job p then JobPhase.dead else p

pub data Operation : Type 0 where
  prepare commit : Operation

-- The keys of a job's payload that code reads: `operation`, `role`, and the `planId` of its `plan`
-- or else of its `networkPlan`; the document itself is JSON.
pub record JobPayload : Type 0 where
  pub operation : Option Operation
  pub role : Option Role
  pub plan_id : Option ℕ
  pub document : Json

pub record Job : Type 0 where
  pub id : ℕ
  pub type : JobType
  pub phase : JobPhase
  pub gate_id : Option ℕ
  pub session_id : Option ℕ
  pub assignment_id : Option ℕ
  pub payload : JobPayload
  pub lease_owner : Option String
  pub lease_expires_at : Option ℕ
  pub run_after : ℕ
  pub retry_count : ℕ
  pub max_retries : ℕ
  pub created_at : ℕ
  pub updated_at : ℕ

pub record JobAttempt : Type 0 where
  pub job_id : ℕ
  pub attempt_number : ℕ
  pub lease_owner : String
  pub lease_expires_at : ℕ
  pub completed_at : Option ℕ
  pub result_summary : Json
  pub error_code : Option String
  pub actual_state_hash : Option String

-- The tables that jobs and assignments share; `next_id` is the supply of fresh ids.
pub record FleetDb : Type 0 where
  pub jobs : List Job
  pub attempts : List JobAttempt
  pub assignments : List Assignment
  pub next_id : ℕ
