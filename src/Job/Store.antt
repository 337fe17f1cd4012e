-- ===== src/Job/Store.antt =====
-- The statements of packages/control-plane/src/resources/jobs/repository.ts.
use z_wireguard_vpn.Common.{
  ℕ, ◌+◌, max, Bool, true, false, not, ◌&&◌, ◌||◌, Option, none, some, String, List, [], ◌∷◌, ◌++◌,
  ◌==◌, ltb, leb, if◌then◌else◌, any, find?, is_some, is_some_eq,
}
use z_wireguard_vpn.Common.Json.{Json}
use z_wireguard_vpn.Common.Table.{update_where}
use z_wireguard_vpn.Assignment.{
  Assignment, GateAssignmentPhase, JobType, Role, apply_assignment, revoke_assignment,
}
use z_wireguard_vpn.Job.{
  Job, JobAttempt, JobPhase, JobPayload, FleetDb, Operation, is_open_job, is_leased_job,
  is_claimable_phase, is_succeeded,
}

pub data GateJobLane : Type 0 where
  control probe : GateJobLane

abbrev is_probe : JobType → Bool
is_probe JobType.probe = true
is_probe _ = false

abbrev pub is_apply : JobType → Bool
is_apply apply_assignment = true
is_apply _ = false

abbrev pub is_revoke : JobType → Bool
is_revoke revoke_assignment = true
is_revoke _ = false

abbrev pub in_lane : Option GateJobLane → JobType → Bool
in_lane none t = true
in_lane (some GateJobLane.probe) t = is_probe t
in_lane (some control) t = not (is_probe t)

-- `lease_expires_at IS NULL OR lease_expires_at < now()`
abbrev pub is_unleased : ℕ → Job → Bool
is_unleased now j = elim j.lease_expires_at [ none ↦ true | some t ↦ ltb t now ]

abbrev pub is_claimable : ℕ → ℕ → Option GateJobLane → Job → Bool
is_claimable now gate_id lane j =
    is_some_eq gate_id j.gate_id
    && (is_claimable_phase j.phase
        && (leb j.run_after now && (is_unleased now j && in_lane lane j.type)))

-- The row that passes a test and is first by `created_at`.
unfoldable pub oldest : (Job → Bool) → List Job → Option Job
oldest p [] = none
oldest p (j ∷ js) =
    let rest = oldest p js in
    if p j
    then elim rest [
      | none ↦ some j
      | some k ↦ if leb j.created_at k.created_at then some j else some k
    ]
    else rest

unfoldable pub find_claimable_gate_job_for_update :
    ℕ → ℕ → Option GateJobLane → List Job → Option Job
find_claimable_gate_job_for_update now gate_id lane jobs =
    oldest (is_claimable now gate_id lane) jobs

-- `COALESCE(MAX(attempt_number), 0)`.
unfoldable pub max_attempt : ℕ → List JobAttempt → ℕ
max_attempt job_id [] = 0
max_attempt job_id (a ∷ as') =
    let rest = max_attempt job_id as' in
    if a.job_id == job_id then max a.attempt_number rest else rest

abbrev pub next_job_attempt_number : ℕ → List JobAttempt → ℕ
next_job_attempt_number job_id attempts = max_attempt job_id attempts + 1

abbrev pub set_lease : ℕ → JobPhase → String → ℕ → Job → Job
set_lease now p owner seconds j = record j {
  phase = p;
  lease_owner = some owner;
  lease_expires_at = some (now + seconds);
  updated_at = now;
}

unfoldable pub update_job_lease : ℕ → ℕ → JobPhase → String → ℕ → List Job → List Job
update_job_lease now job_id p owner seconds jobs =
    update_where (λ j. j.id == job_id) (set_lease now p owner seconds) jobs

unfoldable pub insert_job_attempt_lease : ℕ → ℕ → ℕ → String → ℕ → List JobAttempt → List JobAttempt
insert_job_attempt_lease now job_id attempt_number owner seconds attempts =
    attempts
    ++ (record {
      job_id = job_id;
      attempt_number = attempt_number;
      lease_owner = owner;
      lease_expires_at = now + seconds;
      completed_at = none;
      result_summary = Json.null;
      error_code = none;
      actual_state_hash = none;
    })
      ∷ []

unfoldable pub find_job_for_report_for_update : ℕ → ℕ → List Job → Option Job
find_job_for_report_for_update gate_id job_id jobs =
    find? (λ j. j.id == job_id && is_some_eq gate_id j.gate_id) jobs

abbrev is_retryable_phase : JobPhase → Bool
is_retryable_phase JobPhase.retryable_failed = true
is_retryable_phase _ = false

abbrev pub set_reported : ℕ → JobPhase → Option ℕ → Job → Job
set_reported now p delay j = record j {
  phase = p;
  retry_count = if is_retryable_phase p then j.retry_count + 1 else j.retry_count;
  lease_expires_at = none;
  run_after = elim delay [ none ↦ now | some s ↦ now + s ];
  updated_at = now;
}

-- An empty text is stored as NULL.
abbrev pub or_null : String → Option String
or_null String.[] = none
or_null s = some s

abbrev pub set_completed : ℕ → String → String → Json → JobAttempt → JobAttempt
set_completed now hash code summary a = record a {
  completed_at = some now;
  result_summary = summary;
  error_code = or_null code;
  actual_state_hash = or_null hash;
}

unfoldable pub record_job_report_outcome :
    ℕ → ℕ → JobPhase → Option ℕ → String → String → Json → FleetDb → FleetDb
record_job_report_outcome now job_id p delay hash code summary db = record db {
  jobs = update_where (λ j. j.id == job_id) (set_reported now p delay) db.jobs;
  attempts =
      update_where (λ a. a.job_id == job_id && not (is_some a.completed_at))
        (set_completed now hash code summary) db.attempts;
}

abbrev pub operation_eq : Operation → Option Operation → Bool
operation_eq Operation.prepare (some Operation.prepare) = true
operation_eq Operation.commit (some Operation.commit) = true
operation_eq _ _ = false

abbrev pub is_apply_job : ℕ → Operation → Job → Bool
is_apply_job assignment_id operation j =
    is_some_eq assignment_id j.assignment_id
    && (is_apply j.type && operation_eq operation j.payload.operation)

-- The phases of an assignment that a succeeded job of its plan still serves.
abbrev pub is_underway : GateAssignmentPhase → Bool
is_underway GateAssignmentPhase.queued = true
is_underway GateAssignmentPhase.leased = true
is_underway GateAssignmentPhase.applying = true
is_underway GateAssignmentPhase.prepared = true
is_underway GateAssignmentPhase.applied = true
is_underway _ = false

abbrev pub has_succeeded_apply : ℕ → Operation → FleetDb → Bool
has_succeeded_apply assignment_id operation db =
    any
      (λ j.
        is_apply_job assignment_id operation j
        && (is_succeeded j.phase
            && any
                (λ (a : Assignment).
                  a.id == assignment_id
                  && (is_some_eq a.plan_id j.payload.plan_id && is_underway a.phase))
                db.assignments))
      db.jobs

-- A new row with the table's defaults.
abbrev pub new_job : ℕ → ℕ → JobType → JobPhase → Option ℕ → Option ℕ → Option ℕ → JobPayload → Job
new_job now id type p gate_id session_id assignment_id payload = record {
  id = id;
  type = type;
  phase = p;
  gate_id = gate_id;
  session_id = session_id;
  assignment_id = assignment_id;
  payload = payload;
  lease_owner = none;
  lease_expires_at = none;
  run_after = now;
  retry_count = 0;
  max_retries = 5;
  created_at = now;
  updated_at = now;
}

abbrev pub append_job : Job → FleetDb → FleetDb
append_job j db = record db { jobs = db.jobs ++ j ∷ []; next_id = db.next_id + 1 }

pub record EnqueueApplyJobInput : Type 0 where
  pub assignment_id : ℕ
  pub gate_id : ℕ
  pub session_id : ℕ
  pub operation : Operation
  pub role : Role
  pub plan_id : Option ℕ
  pub plan : Json

abbrev pub apply_job : ℕ → EnqueueApplyJobInput → JobPhase → FleetDb → Job
apply_job now input p db =
    new_job now db.next_id apply_assignment p (some input.gate_id) (some input.session_id)
      (some input.assignment_id)
      (record {
        operation = some input.operation;
        role = some input.role;
        plan_id = input.plan_id;
        document = input.plan;
      })

abbrev pub has_open_apply : ℕ → Operation → FleetDb → Bool
has_open_apply assignment_id operation db =
    any (λ j. is_apply_job assignment_id operation j && is_open_job j.phase) db.jobs

unfoldable pub insert_apply_assignment_job : ℕ → EnqueueApplyJobInput → JobPhase → FleetDb → FleetDb
insert_apply_assignment_job now input p db =
    if has_open_apply input.assignment_id input.operation db
      || has_succeeded_apply input.assignment_id input.operation db
    then db
    else append_job (apply_job now input p db) db

pub record EnqueueRevokeAssignmentJobInput : Type 0 where
  pub assignment_id : ℕ
  pub gate_id : ℕ
  pub session_id : ℕ
  pub role : Role

abbrev pub is_revoke_job_of : ℕ → Job → Bool
is_revoke_job_of assignment_id j = is_some_eq assignment_id j.assignment_id && is_revoke j.type

abbrev pub has_open_revoke : ℕ → FleetDb → Bool
has_open_revoke assignment_id db =
    any (λ j. is_revoke_job_of assignment_id j && is_open_job j.phase) db.jobs

-- A revocation that succeeded for a job that is no older than the assignment's last change.
abbrev pub has_succeeded_revoke : ℕ → FleetDb → Bool
has_succeeded_revoke assignment_id db =
    any
      (λ j.
        is_revoke_job_of assignment_id j
        && (is_succeeded j.phase
            && any (λ (a : Assignment). a.id == assignment_id && leb a.updated_at j.created_at)
                db.assignments))
      db.jobs

abbrev pub revoke_job : ℕ → EnqueueRevokeAssignmentJobInput → JobPhase → FleetDb → Job
revoke_job now input p db =
    new_job now db.next_id revoke_assignment p (some input.gate_id) (some input.session_id)
      (some input.assignment_id)
      (record { operation = none; role = some input.role; plan_id = none; document = Json.null })

unfoldable pub insert_revoke_assignment_job :
    ℕ → EnqueueRevokeAssignmentJobInput → JobPhase → FleetDb → FleetDb
insert_revoke_assignment_job now input p db =
    if has_open_revoke input.assignment_id db || has_succeeded_revoke input.assignment_id db
    then db
    else append_job (revoke_job now input p db) db

abbrev pub set_released : ℕ → JobPhase → Job → Job
set_released now p j = record j {
  phase = p;
  lease_owner = none;
  lease_expires_at = none;
  updated_at = now;
}

-- The candidate phases are `sessionFailureDeadCandidateJobPhases`, as the one caller passes them.
abbrev pub is_open_apply_of_session : ℕ → Job → Bool
is_open_apply_of_session session_id j =
    is_some_eq session_id j.session_id && (is_apply j.type && is_open_job j.phase)

unfoldable pub mark_apply_jobs_phase_for_session : ℕ → ℕ → JobPhase → FleetDb → FleetDb
mark_apply_jobs_phase_for_session now session_id p db = record db {
  jobs = update_where (is_open_apply_of_session session_id) (set_released now p) db.jobs;
}

-- The candidate phases are `expiredLeaseCandidateJobPhases`, as the one caller passes them.
abbrev pub is_expired : ℕ → Job → Bool
is_expired now j =
    is_leased_job j.phase && elim j.lease_expires_at [ none ↦ false | some t ↦ ltb t now ]

unfoldable pub update_expired_job_lease_phases : ℕ → JobPhase → FleetDb → FleetDb
update_expired_job_lease_phases now p db = record db {
  jobs = update_where (is_expired now) (set_released now p) db.jobs;
}

unfoldable pub insert_reconcile_job :
    ℕ → Option ℕ → Option ℕ → Json → JobPhase → FleetDb → ℕ × FleetDb
insert_reconcile_job now gate_id session_id document p db =
    let payload : JobPayload = record {
      operation = none;
      role = none;
      plan_id = none;
      document = document;
    } in
    (
      db.next_id,
      append_job (new_job now db.next_id JobType.reconcile p gate_id session_id none payload) db,
    )
