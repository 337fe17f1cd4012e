-- ===== src/Job/Service.antt =====
-- The operations on the queue of packages/control-plane/src/resources/jobs/service.ts.
use z_wireguard_vpn.Common.{ℕ, Option}
use z_wireguard_vpn.Common.Json.{Json}
use z_wireguard_vpn.Job.{
  FleetDb, JobPhase, queued_job_transition, expired_lease_transition,
  dead_for_session_failure_transition,
}
use z_wireguard_vpn.Job.Store.{
  EnqueueApplyJobInput, EnqueueRevokeAssignmentJobInput, insert_apply_assignment_job,
  insert_revoke_assignment_job, insert_reconcile_job, mark_apply_jobs_phase_for_session,
  update_expired_job_lease_phases,
}

unfoldable pub enqueue_apply_job : ℕ → EnqueueApplyJobInput → FleetDb → FleetDb
enqueue_apply_job now input db = insert_apply_assignment_job now input queued_job_transition db

unfoldable pub enqueue_revoke_assignment_job :
    ℕ → EnqueueRevokeAssignmentJobInput → FleetDb → FleetDb
enqueue_revoke_assignment_job now input db =
    insert_revoke_assignment_job now input queued_job_transition db

unfoldable pub enqueue_reconcile_job : ℕ → Option ℕ → Option ℕ → Json → FleetDb → ℕ × FleetDb
enqueue_reconcile_job now gate_id session_id document db =
    insert_reconcile_job now gate_id session_id document queued_job_transition db

unfoldable pub mark_apply_jobs_dead_for_session : ℕ → ℕ → FleetDb → FleetDb
mark_apply_jobs_dead_for_session now session_id db =
    mark_apply_jobs_phase_for_session now session_id
      (dead_for_session_failure_transition JobPhase.queued) db

unfoldable pub requeue_expired_job_leases : ℕ → FleetDb → FleetDb
requeue_expired_job_leases now db =
    update_expired_job_lease_phases now (expired_lease_transition JobPhase.leased) db
