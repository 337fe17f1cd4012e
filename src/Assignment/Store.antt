-- ===== src/Assignment/Store.antt =====
-- The statements of packages/control-plane/src/resources/gate-assignments/repository.ts. The hash of
-- the state that a gate reports, which nothing compares, is left out.
use z_wireguard_vpn.Common.{
  ℕ, ◌+◌, Bool, true, false, not, ◌&&◌, ◌||◌, Option, none, some, List, [], ◌∷◌, ◌++◌, ◌==◌,
  if◌then◌else◌, filter, find?,
}
use z_wireguard_vpn.Common.Json.{Json}
use z_wireguard_vpn.Common.Table.{update_where}
use z_wireguard_vpn.Assignment.{
  Assignment, AssignmentError, GateAssignmentPhase, GateAssignmentDesiredState, Role, role_eq,
  is_desired_applied, has_phase, is_provisioning_failure_dead_candidate,
}

pub record CreateGateAssignmentInput : Type 0 where
  pub session_id : ℕ
  pub gate_id : ℕ
  pub role : Role
  pub plan_id : ℕ
  pub desired_state : GateAssignmentDesiredState

-- The key (`session_id`, `role`).
abbrev pub is_slot : ℕ → Role → Assignment → Bool
is_slot session_id role a = a.session_id == session_id && role_eq a.role role

abbrev same_desired : GateAssignmentDesiredState → GateAssignmentDesiredState → Bool
same_desired x y = elim (is_desired_applied x) [
  | true ↦ is_desired_applied y
  | false ↦ not (is_desired_applied y)
]

abbrev pub set_upserted : ℕ → CreateGateAssignmentInput → Assignment → Assignment
set_upserted now input a = record a {
  desired_state = input.desired_state;
  gate_id = input.gate_id;
  plan_id = input.plan_id;
  generation =
      if same_desired a.desired_state input.desired_state
        && (a.gate_id == input.gate_id && a.plan_id == input.plan_id)
      then a.generation
      else a.generation + 1;
  updated_at = now;
}

-- `planned` and the other defaults of the two tables.
abbrev pub new_assignment : ℕ → ℕ → CreateGateAssignmentInput → Assignment
new_assignment now id input = record {
  id = id;
  session_id = input.session_id;
  gate_id = input.gate_id;
  role = input.role;
  generation = 1;
  desired_state = input.desired_state;
  plan_id = input.plan_id;
  updated_at = now;
  phase = GateAssignmentPhase.planned;
  observed_generation = 0;
  applied_plan_id = none;
  local_material = Json.null;
  reported_state = Json.null;
  last_error = none;
  applied_at = none;
  revoked_at = none;
  last_observed_at = none;
}

-- The id of the row, and the table; the given id is fresh.
unfoldable pub upsert_gate_assignment :
    ℕ → ℕ → CreateGateAssignmentInput → List Assignment → ℕ × List Assignment
upsert_gate_assignment now fresh_id input assignments =
    elim (find? (is_slot input.session_id input.role) assignments) [
      | none ↦ (fresh_id, assignments ++ new_assignment now fresh_id input ∷ [])
      | some a ↦ (
        a.id,
        update_where (is_slot input.session_id input.role) (set_upserted now input) assignments,
      )
    ]

abbrev pub has_assignment_id : ℕ → Assignment → Bool
has_assignment_id assignment_id a = a.id == assignment_id

abbrev pub set_phase : GateAssignmentPhase → Assignment → Assignment
set_phase p a = record a { phase = p }

abbrev pub set_phase_unless_applied : GateAssignmentPhase → Assignment → Assignment
set_phase_unless_applied p a = record a {
  phase = if has_phase a.phase GateAssignmentPhase.applied then a.phase else p;
}

unfoldable pub ensure_gate_assignment_status_phase :
    ℕ → GateAssignmentPhase → List Assignment → List Assignment
ensure_gate_assignment_status_phase assignment_id p assignments =
    update_where (has_assignment_id assignment_id) (set_phase_unless_applied p) assignments

unfoldable pub list_session_assignments : ℕ → List Assignment → List Assignment
list_session_assignments session_id assignments =
    filter (λ a. a.session_id == session_id) assignments

unfoldable pub mark_prepared_assignments_queued :
    ℕ → ℕ → GateAssignmentPhase → List Assignment → List Assignment
mark_prepared_assignments_queued ingress_id egress_id next_phase assignments =
    update_where
      (λ a.
        (a.id == ingress_id || a.id == egress_id) && has_phase a.phase GateAssignmentPhase.prepared)
      (set_phase next_phase) assignments

abbrev pub set_phase_error : GateAssignmentPhase → AssignmentError → Assignment → Assignment
set_phase_error p e a = record a { phase = p; last_error = some e }

-- The candidate phases are `provisioningFailureDeadCandidatePhases`, as the one caller passes them.
unfoldable pub mark_pending_assignments_phase_for_session :
    ℕ → GateAssignmentPhase → AssignmentError → List Assignment → List Assignment
mark_pending_assignments_phase_for_session session_id next_phase e assignments =
    update_where (λ a. a.session_id == session_id && is_provisioning_failure_dead_candidate a.phase)
      (set_phase_error next_phase e) assignments

abbrev pub set_desired : ℕ → GateAssignmentDesiredState → Bool → Assignment → Assignment
set_desired now desired increment a = record a {
  desired_state = desired;
  generation = if increment then a.generation + 1 else a.generation;
  updated_at = now;
}

unfoldable pub update_assignment_desired_state :
    ℕ → ℕ → GateAssignmentDesiredState → Bool → List Assignment → List Assignment
update_assignment_desired_state now assignment_id desired increment assignments =
    update_where (has_assignment_id assignment_id) (set_desired now desired increment) assignments

unfoldable pub mark_assignment_revoking :
    ℕ → GateAssignmentPhase → List Assignment → List Assignment
mark_assignment_revoking assignment_id p assignments =
    update_where
      (λ a.
        has_assignment_id assignment_id a && not (has_phase a.phase GateAssignmentPhase.revoked))
      (set_phase p) assignments

unfoldable pub find_assignment_phase_for_update : ℕ → List Assignment → Option GateAssignmentPhase
find_assignment_phase_for_update assignment_id assignments =
    elim (find? (has_assignment_id assignment_id) assignments) [
      | none ↦ none
      | some a ↦ some a.phase
    ]

unfoldable pub update_assignment_phase : ℕ → GateAssignmentPhase → List Assignment → List Assignment
update_assignment_phase assignment_id p assignments =
    update_where (has_assignment_id assignment_id) (set_phase p) assignments

abbrev pub set_prepared : ℕ → GateAssignmentPhase → Json → Json → Assignment → Assignment
set_prepared now p material summary a = record a {
  phase = p;
  observed_generation = a.generation;
  local_material = material;
  reported_state = summary;
  last_error = none;
  last_observed_at = some now;
}

unfoldable pub mark_assignment_prepared_from_report :
    ℕ → ℕ → GateAssignmentPhase → Json → Json → List Assignment → List Assignment
mark_assignment_prepared_from_report now assignment_id p material summary assignments =
    update_where (has_assignment_id assignment_id) (set_prepared now p material summary) assignments

abbrev pub set_applied : ℕ → GateAssignmentPhase → Json → Assignment → Assignment
set_applied now p summary a = record a {
  phase = p;
  observed_generation = a.generation;
  applied_plan_id = some a.plan_id;
  reported_state = summary;
  last_error = none;
  applied_at = some now;
  last_observed_at = some now;
}

unfoldable pub mark_assignment_applied_from_report :
    ℕ → ℕ → GateAssignmentPhase → Json → List Assignment → List Assignment
mark_assignment_applied_from_report now assignment_id p summary assignments =
    update_where (has_assignment_id assignment_id) (set_applied now p summary) assignments

abbrev pub set_revoked : ℕ → GateAssignmentPhase → Json → Assignment → Assignment
set_revoked now p summary a = record a {
  phase = p;
  reported_state = summary;
  last_error = none;
  revoked_at = some now;
  last_observed_at = some now;
}

unfoldable pub mark_assignment_revoked_from_report :
    ℕ → ℕ → GateAssignmentPhase → Json → List Assignment → List Assignment
mark_assignment_revoked_from_report now assignment_id p summary assignments =
    update_where (has_assignment_id assignment_id) (set_revoked now p summary) assignments

unfoldable pub mark_assignment_failed_from_report :
    ℕ → GateAssignmentPhase → AssignmentError → List Assignment → List Assignment
mark_assignment_failed_from_report assignment_id p e assignments =
    update_where (has_assignment_id assignment_id) (set_phase_error p e) assignments
