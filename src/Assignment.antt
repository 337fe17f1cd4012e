-- ===== src/Assignment.antt =====
-- Gate assignments, the part of a session that a gate realises: the phases and transitions of
-- packages/control-plane/src/resources/gate-assignments/transitions.ts, and the rows of
-- `gate_assignments` with their rows of `gate_assignment_status`, joined one to one.
pub mod Store
pub mod Service
pub mod Changes
mod Tests
use z_wireguard_vpn.Common.{ℕ, Bool, true, false, Option, String, ◌==◌}
use z_wireguard_vpn.Common.Json.{Json}

pub data GateAssignmentDesiredState : Type 0 where
  applied revoked : GateAssignmentDesiredState

pub data GateAssignmentPhase : Type 0 where
  planned queued leased applying prepared applied drifted revoking revoked : GateAssignmentPhase
  retryable_failed dead : GateAssignmentPhase

-- `job_type`.
pub data JobType : Type 0 where
  probe apply_assignment revoke_assignment cleanup_orphan reconcile deploy_agent : JobType
  rollback_agent : JobType

pub data Role : Type 0 where
  ingress egress : Role

abbrev pub role_eq : Role → Role → Bool
role_eq ingress ingress = true
role_eq egress egress = true
role_eq _ _ = false

abbrev pub is_desired_applied : GateAssignmentDesiredState → Bool
is_desired_applied GateAssignmentDesiredState.applied = true
is_desired_applied GateAssignmentDesiredState.revoked = false

abbrev pub assignment_phase_code : GateAssignmentPhase → ℕ
assignment_phase_code GateAssignmentPhase.planned = 0
assignment_phase_code GateAssignmentPhase.queued = 1
assignment_phase_code GateAssignmentPhase.leased = 2
assignment_phase_code GateAssignmentPhase.applying = 3
assignment_phase_code GateAssignmentPhase.prepared = 4
assignment_phase_code GateAssignmentPhase.applied = 5
assignment_phase_code GateAssignmentPhase.drifted = 6
assignment_phase_code GateAssignmentPhase.revoking = 7
assignment_phase_code GateAssignmentPhase.revoked = 8
assignment_phase_code GateAssignmentPhase.retryable_failed = 9
assignment_phase_code GateAssignmentPhase.dead = 10

abbrev pub has_phase : GateAssignmentPhase → GateAssignmentPhase → Bool
has_phase p q = assignment_phase_code p == assignment_phase_code q

-- `provisioningFailureDeadCandidatePhases`, as a test.
abbrev pub is_provisioning_failure_dead_candidate : GateAssignmentPhase → Bool
is_provisioning_failure_dead_candidate GateAssignmentPhase.planned = true
is_provisioning_failure_dead_candidate GateAssignmentPhase.queued = true
is_provisioning_failure_dead_candidate GateAssignmentPhase.leased = true
is_provisioning_failure_dead_candidate GateAssignmentPhase.applying = true
is_provisioning_failure_dead_candidate GateAssignmentPhase.prepared = true
is_provisioning_failure_dead_candidate GateAssignmentPhase.retryable_failed = true
is_provisioning_failure_dead_candidate _ = false

abbrev pub is_terminal_assignment_phase : GateAssignmentPhase → Bool
is_terminal_assignment_phase GateAssignmentPhase.applied = true
is_terminal_assignment_phase GateAssignmentPhase.revoked = true
is_terminal_assignment_phase GateAssignmentPhase.dead = true
is_terminal_assignment_phase _ = false

abbrev pub queued_after_assignment_upsert_transition : GateAssignmentPhase → GateAssignmentPhase
queued_after_assignment_upsert_transition GateAssignmentPhase.applied = GateAssignmentPhase.applied
queued_after_assignment_upsert_transition _ = GateAssignmentPhase.queued

abbrev pub desired_applied_transition : GateAssignmentDesiredState × GateAssignmentPhase
desired_applied_transition = (GateAssignmentDesiredState.applied, GateAssignmentPhase.queued)

abbrev pub queued_for_commit_transition : GateAssignmentPhase
queued_for_commit_transition = GateAssignmentPhase.queued

abbrev pub is_revoke_job : JobType → Bool
is_revoke_job revoke_assignment = true
is_revoke_job _ = false

unfoldable pub leased_assignment_transition : JobType → GateAssignmentPhase → GateAssignmentPhase
leased_assignment_transition _ GateAssignmentPhase.applied = GateAssignmentPhase.applied
leased_assignment_transition _ GateAssignmentPhase.revoked = GateAssignmentPhase.revoked
leased_assignment_transition revoke_assignment _ = GateAssignmentPhase.revoking
leased_assignment_transition _ _ = GateAssignmentPhase.applying

abbrev pub prepared_from_report_transition : GateAssignmentPhase
prepared_from_report_transition = GateAssignmentPhase.prepared

abbrev pub applied_from_report_transition : GateAssignmentPhase
applied_from_report_transition = GateAssignmentPhase.applied

abbrev pub revoked_from_report_transition : GateAssignmentPhase
revoked_from_report_transition = GateAssignmentPhase.revoked

abbrev pub drifted_assignment_transition : GateAssignmentPhase
drifted_assignment_transition = GateAssignmentPhase.drifted

abbrev pub failed_from_report_transition : Bool → GateAssignmentPhase
failed_from_report_transition true = GateAssignmentPhase.dead
failed_from_report_transition false = GateAssignmentPhase.retryable_failed

pub record DesiredRevokedTransition : Type 0 where
  pub desired_state : GateAssignmentDesiredState
  pub increment_generation : Bool
  pub status_phase : GateAssignmentPhase

abbrev pub desired_revoked_transition : DesiredRevokedTransition
desired_revoked_transition = record {
  desired_state = GateAssignmentDesiredState.revoked;
  increment_generation = true;
  status_phase = GateAssignmentPhase.revoking;
}

abbrev pub dead_for_provisioning_failure_transition : GateAssignmentPhase → GateAssignmentPhase
dead_for_provisioning_failure_transition GateAssignmentPhase.applied = GateAssignmentPhase.applied
dead_for_provisioning_failure_transition GateAssignmentPhase.revoked = GateAssignmentPhase.revoked
dead_for_provisioning_failure_transition _ = GateAssignmentPhase.dead

-- A code with a message, or the code and the summary that a failed job reported.
pub data AssignmentError : Type 0 where
  failure : String → String → AssignmentError
  job_error : String → Json → AssignmentError

-- The columns of the status follow those of the assignment; the reported documents are JSON.
pub record Assignment : Type 0 where
  pub id : ℕ
  pub session_id : ℕ
  pub gate_id : ℕ
  pub role : Role
  pub generation : ℕ
  pub desired_state : GateAssignmentDesiredState
  pub plan_id : ℕ
  pub updated_at : ℕ
  pub phase : GateAssignmentPhase
  pub observed_generation : ℕ
  pub applied_plan_id : Option ℕ
  pub local_material : Json
  pub reported_state : Json
  pub last_error : Option AssignmentError
  pub applied_at : Option ℕ
  pub revoked_at : Option ℕ
  pub last_observed_at : Option ℕ
