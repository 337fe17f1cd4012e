-- ===== src/Job/Tests.antt =====
-- Jobs at concrete inputs.
use z_wireguard_vpn.Common.{
  ◌⊎◌, ℕ, List, ◌≡◌, ◌≢◌, ◌≤◌, ◌||◌, refl, none, some, true, false, Option, [], ◌∷◌, if◌then◌else◌,
  ◌==◌, All, count, map_option, is_some, arith,
}
use z_wireguard_vpn.Common.Json.{Json, Fields}
use z_wireguard_vpn.Common.Table.{row}
use z_wireguard_vpn.Assignment.{JobType, ingress}
use z_wireguard_vpn.Job.{Job, JobAttempt, JobPhase, JobReportStatus, JobPayload, FleetDb, Operation}
use z_wireguard_vpn.Job.Store.{
  new_job, is_claimable, set_lease, EnqueueApplyJobInput, EnqueueRevokeAssignmentJobInput,
  has_open_revoke, has_succeeded_revoke, find_claimable_gate_job_for_update, oldest,
  update_job_lease, insert_job_attempt_lease, max_attempt,
}
use z_wireguard_vpn.Job.Leasing.{
  GateJobLeaseIdentity, ClaimedGateJob, claim_gate_job, lease_job, lease_assignment,
}
use z_wireguard_vpn.Job.Attempts.{GateJobReport, record_gate_job_report}
use z_wireguard_vpn.Job.Service.{enqueue_revoke_assignment_job, requeue_expired_job_leases}
use z_wireguard_vpn.Job.Claims.{claim_gate_job-none, claim_gate_job-distinct}
use z_wireguard_vpn.Job.Reports.{
  as_reported, record_gate_job_report_lem, report_times, report_times_lem,
}
use z_wireguard_vpn.Job.Queue.{
  HasLapsed, enqueue_revoke_assignment_job-twice, requeue_expired_job_leases_lem,
}

abbrev no_payload : JobPayload
no_payload = record { operation = none; role = none; plan_id = none; document = Json.null }

abbrev a_job : ℕ → ℕ → Job
a_job id created =
    new_job created id JobType.reconcile JobPhase.queued (some 30) (some 4) none no_payload

abbrev fleet : FleetDb
fleet = record { jobs = a_job 1 20 ∷ a_job 2 10 ∷ []; attempts = []; assignments = []; next_id = 3 }

abbrev gate : GateJobLeaseIdentity
gate = record { id = 30; name = "gate-a" }

abbrev secret : Job → Option Json
secret j = some Json.null

unique_ids : (id : ℕ) → count (λ (k : Job). k.id == id) fleet.jobs ≤ 1
unique_ids id = ground arith

-- The older job is claimed first, then the other, and then there is none.
abbrev claim_1 : ClaimedGateJob
claim_1 = record { job = a_job 2 10; document = Json.null; attempt_number = 1 }

abbrev claim_2 : ClaimedGateJob
claim_2 = record { job = a_job 1 20; document = Json.null; attempt_number = 1 }

abbrev leased_1 : FleetDb
leased_1 = lease_job 100 gate (a_job 2 10) 1 fleet

abbrev leased_2 : FleetDb
leased_2 = lease_job 130 gate (a_job 1 20) 1 leased_1

claimed_1 : claim_gate_job secret 100 gate none fleet ≡ some (some claim_1, leased_1)
unfolding claim_gate_job find_claimable_gate_job_for_update oldest lease_job lease_assignment
    max_attempt
claimed_1 = refl

claimed_2 : claim_gate_job secret 130 gate none leased_1 ≡ some (some claim_2, leased_2)
unfolding claim_gate_job find_claimable_gate_job_for_update oldest lease_job lease_assignment
    max_attempt update_job_lease insert_job_attempt_lease
claimed_2 = refl

claimed_3 : claim_gate_job secret 131 gate none leased_2 ≡ some (none, leased_2)
unfolding claim_gate_job find_claimable_gate_job_for_update oldest lease_job lease_assignment
    update_job_lease
claimed_3 = refl

claim_gate_job-none_example :
    (leased_2 ≡ leased_2) × All (λ k. is_claimable 131 30 none k ≡ false) leased_2.jobs
claim_gate_job-none_example = claim_gate_job-none secret 131 gate none leased_2 claimed_3

claim_gate_job-distinct_example : claim_1.job.id ≢ claim_2.job.id
claim_gate_job-distinct_example =
    claim_gate_job-distinct secret 100 130 gate gate none none fleet unique_ids claimed_1 claimed_2

abbrev keep_summary : Job → Json → Json
keep_summary j summary = summary

abbrev retry_report : GateJobReport
retry_report = record {
  status = JobReportStatus.retryable_failed;
  actual_state_hash = "";
  error_code = "timeout";
  result_summary = Json.obj Fields.end;
}

record_gate_job_report_example :
    let (found, db') = record_gate_job_report keep_summary 200 30 2 retry_report leased_1 in
    (found ≡ true)
    × ((id : ℕ)
        → row Job.id id db'.jobs ≡ (
            if 2 == id
            then some (
                as_reported 200 JobReportStatus.retryable_failed
                  (set_lease 100 JobPhase.leased "gate-a" 60 (a_job 2 10)))
            else row Job.id id leased_1.jobs))
    × All (λ (a : JobAttempt). a.job_id ≡ 2 → is_some a.completed_at ≡ true) db'.attempts
unfolding lease_job update_job_lease
record_gate_job_report_example =
    record_gate_job_report_lem keep_summary 200 30 2 retry_report leased_1 refl refl

abbrev five_reports : List (ℕ × GateJobReport)
five_reports =
    (200, retry_report)
    ∷ (215, retry_report)
    ∷ (230, retry_report)
    ∷ (260, retry_report)
    ∷ (300, retry_report)
    ∷ []

report_times_example :
    map_option Job.phase (row Job.id 2 (report_times keep_summary 30 2 five_reports fleet).jobs)
    ≡ some JobPhase.dead
report_times_example =
    report_times_lem keep_summary 30 2 five_reports fleet (refl, (refl, (refl, (refl, (refl, tt)))))
      (omega arith) refl refl refl

abbrev prepare_input : EnqueueApplyJobInput
prepare_input = record {
  assignment_id = 8;
  gate_id = 30;
  session_id = 4;
  operation = Operation.prepare;
  role = ingress;
  plan_id = some 9;
  plan = Json.null;
}

abbrev revoke_input : EnqueueRevokeAssignmentJobInput
revoke_input = record { assignment_id = 8; gate_id = 30; session_id = 4; role = ingress }

enqueue_revoke_assignment_job-twice_example :
    let db' = enqueue_revoke_assignment_job 100 revoke_input fleet in
    (enqueue_revoke_assignment_job 101 revoke_input db' ≡ db')
    × ((has_open_revoke 8 db' || has_succeeded_revoke 8 db') ≡ true)
enqueue_revoke_assignment_job-twice_example =
    enqueue_revoke_assignment_job-twice 100 101 revoke_input fleet

requeue_expired_job_leases_example :
    let db' = requeue_expired_job_leases 300 leased_1 in
    ((j : Job)
      → row Job.id 2 leased_1.jobs ≡ some j
      → (HasLapsed 300 j
          × (row Job.id 2 db'.jobs
              ≡ some (record j {
                phase = JobPhase.queued;
                lease_owner = none;
                lease_expires_at = none;
                updated_at = 300;
              })))
        ⊎ (¬ HasLapsed 300 j × (row Job.id 2 db'.jobs ≡ some j)))
    × (row Job.id 2 leased_1.jobs ≡ none → row Job.id 2 db'.jobs ≡ none)
    × All (λ j. ¬ HasLapsed 300 j) db'.jobs
requeue_expired_job_leases_example = requeue_expired_job_leases_lem 300 leased_1 2
