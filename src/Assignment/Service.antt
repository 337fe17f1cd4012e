-- ===== src/Assignment/Service.antt =====
-- The operations on assignments of packages/control-plane/src/resources/gate-assignments/service.ts.
use z_wireguard_vpn.Common.{ℕ, List}
use z_wireguard_vpn.Assignment.{
  Assignment, AssignmentError, GateAssignmentPhase, Role, desired_applied_transition,
  queued_after_assignment_upsert_transition, queued_for_commit_transition,
  dead_for_provisioning_failure_transition, desired_revoked_transition,
}
use z_wireguard_vpn.Assignment.Store.{
  CreateGateAssignmentInput, upsert_gate_assignment, ensure_gate_assignment_status_phase,
  mark_prepared_assignments_queued, mark_pending_assignments_phase_for_session,
  update_assignment_desired_state, mark_assignment_revoking,
}

-- The id of the assignment of a session's role, and the table.
unfoldable pub create_assignment : ℕ → ℕ → ℕ → ℕ → Role → ℕ → List Assignment → ℕ × List Assignment
create_assignment now fresh_id session_id gate_id role plan_id assignments =
    let input : CreateGateAssignmentInput = record {
      session_id = session_id;
      gate_id = gate_id;
      role = role;
      plan_id = plan_id;
      desired_state = desired_applied_transition.0;
    } in
    let (assignment_id, assignments') = upsert_gate_assignment now fresh_id input assignments in
    (
      assignment_id,
      ensure_gate_assignment_status_phase assignment_id
          (queued_after_assignment_upsert_transition GateAssignmentPhase.planned) assignments',
    )

unfoldable pub queue_prepared_assignments_for_commit : ℕ → ℕ → List Assignment → List Assignment
queue_prepared_assignments_for_commit ingress_id egress_id assignments =
    mark_prepared_assignments_queued ingress_id egress_id queued_for_commit_transition assignments

unfoldable pub mark_pending_assignments_dead_for_session :
    ℕ → AssignmentError → List Assignment → List Assignment
mark_pending_assignments_dead_for_session session_id e assignments =
    mark_pending_assignments_phase_for_session session_id
      (dead_for_provisioning_failure_transition GateAssignmentPhase.queued) e assignments

unfoldable pub request_assignment_revocation : ℕ → ℕ → List Assignment → List Assignment
request_assignment_revocation now assignment_id assignments =
    let transition = desired_revoked_transition in
    mark_assignment_revoking assignment_id transition.status_phase (
      update_assignment_desired_state now assignment_id transition.desired_state
        transition.increment_generation assignments)
