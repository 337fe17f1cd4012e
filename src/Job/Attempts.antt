-- ===== src/Job/Attempts.antt =====
-- The report of a gate on a job: packages/control-plane/src/resources/jobs/attempts.ts, for jobs that
-- are kept in the relational database. What a report of a benchmark or of a deployment writes to
-- their own tables is not modelled.
use z_wireguard_vpn.Common.{ℕ, Bool, true, false, ◌&&◌, Option, none, some, String, if◌then◌else◌}
use text.Mathlib.Text.{◌==◌ as str_eq}
use z_wireguard_vpn.Common.Json.{Json, Fields, get, read_string}
use z_wireguard_vpn.Assignment.{
  JobType, job_error, prepared_from_report_transition, applied_from_report_transition,
  revoked_from_report_transition, failed_from_report_transition,
}
use z_wireguard_vpn.Assignment.Store.{
  mark_assignment_prepared_from_report, mark_assignment_applied_from_report,
  mark_assignment_revoked_from_report, mark_assignment_failed_from_report,
}
use z_wireguard_vpn.Job.{
  Job, FleetDb, JobReportStatus, is_report_succeeded, resolve_reported_job_transition,
}
use z_wireguard_vpn.Job.Store.{
  find_job_for_report_for_update, record_job_report_outcome, is_apply, is_revoke,
}

pub record GateJobReport : Type 0 where
  pub status : JobReportStatus
  pub actual_state_hash : String
  pub error_code : String
  pub result_summary : Json

-- `value && typeof value === "object" && !Array.isArray(value) ? value : {}`
abbrev pub as_record : Option Json → Json
as_record (some (Json.obj fs)) = Json.obj fs
as_record _ = Json.obj Fields.end

abbrev or_job_failed : String → String
or_job_failed String.[] = "job_failed"
or_job_failed s = s

unfoldable pub record_assignment_progress :
    ℕ → ℕ → JobType → GateJobReport → Bool → FleetDb → FleetDb
record_assignment_progress now assignment_id job_type report terminal_failure db =
    let done = is_report_succeeded report.status in
    let summary = report.result_summary in
    record db {
      assignments =
          if done && is_apply job_type
          then (if str_eq (read_string summary "operation") "prepare"
              then mark_assignment_prepared_from_report now assignment_id
                  prepared_from_report_transition (as_record (get summary "material")) summary
                  db.assignments
              else mark_assignment_applied_from_report now assignment_id
                  applied_from_report_transition summary db.assignments)
          else if done && is_revoke job_type
          then mark_assignment_revoked_from_report now assignment_id revoked_from_report_transition
              summary db.assignments
          else mark_assignment_failed_from_report assignment_id
              (failed_from_report_transition terminal_failure)
              (job_error (or_job_failed report.error_code) summary) db.assignments;
    }

-- `compact` is `compactAttemptResultSummary`: it drops the samples of a benchmark from the summary.
unfoldable pub record_gate_job_report :
    (Job → Json → Json) → ℕ → ℕ → ℕ → GateJobReport → FleetDb → Bool × FleetDb
record_gate_job_report compact now gate_id job_id report db =
    elim (find_job_for_report_for_update gate_id job_id db.jobs) [
      | none ↦ (false, db)
      | some job ↦
          let transition =
            resolve_reported_job_transition report.status job.retry_count job.max_retries in
          let reported =
            record_job_report_outcome now job.id transition.next_phase
              transition.retry_delay_seconds report.actual_state_hash report.error_code
              (compact job report.result_summary) db in
          (
            true,
            elim job.assignment_id [
              | none ↦ reported
              | some assignment_id ↦
                  record_assignment_progress now assignment_id job.type report
                    transition.terminal_failure reported
            ],
          )
    ]
