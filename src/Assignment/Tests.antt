-- ===== src/Assignment/Tests.antt =====
-- Assignments at concrete inputs.
use z_wireguard_vpn.Common.{
  ℕ, ◌+◌, ◌≡◌, none, some, List, [], ◌∷◌, if◌then◌else◌, ◌==◌, find?, map_option, arith,
}
use z_wireguard_vpn.Common.Json.{Json}
use z_wireguard_vpn.Common.Table.{row}
use z_wireguard_vpn.Assignment.{
  Assignment, AssignmentError, failure, GateAssignmentPhase, GateAssignmentDesiredState, Role,
  ingress, egress,
}
use z_wireguard_vpn.Assignment.Store.{is_slot}
use z_wireguard_vpn.Assignment.Service.{create_assignment, request_assignment_revocation}
use z_wireguard_vpn.Assignment.Changes.{
  as_revoking, as_rescheduled, IsOnePerRole, request_assignment_revocation_lem,
  create_assignment-IsOnePerRole, create_assignment_lem,
}

abbrev an_assignment : ℕ → Role → GateAssignmentPhase → Assignment
an_assignment id role phase = record {
  id = id;
  session_id = 4;
  gate_id = 30 + id;
  role = role;
  generation = 1;
  desired_state = GateAssignmentDesiredState.applied;
  plan_id = 9;
  updated_at = 0;
  phase = phase;
  observed_generation = 0;
  applied_plan_id = none;
  local_material = Json.null;
  reported_state = Json.null;
  last_error = none;
  applied_at = none;
  revoked_at = none;
  last_observed_at = none;
}

abbrev pair : List Assignment
pair =
    an_assignment 1 ingress GateAssignmentPhase.applied
    ∷ an_assignment 2 egress GateAssignmentPhase.applying
    ∷ []

abbrev timeout_error : AssignmentError
timeout_error = failure "gate_confirmation_timeout" "Provisioning timed out"

request_assignment_revocation_example :
    row Assignment.id 2 (request_assignment_revocation 50 2 pair) ≡ (
      if 2 == 2
      then map_option (as_revoking 50) (row Assignment.id 2 pair)
      else row Assignment.id 2 pair)
request_assignment_revocation_example = request_assignment_revocation_lem 50 2 2 pair

none-IsOnePerRole : IsOnePerRole []
none-IsOnePerRole s r = omega arith

create_assignment-IsOnePerRole_example : IsOnePerRole (create_assignment 50 3 4 31 ingress 9 []).1
create_assignment-IsOnePerRole_example =
    create_assignment-IsOnePerRole 50 3 4 31 ingress 9 [] none-IsOnePerRole

create_assignment_example :
    let slot = is_slot 4 egress in
    let (id, assignments') = create_assignment 50 3 4 40 egress 9 pair in
    ((a : Assignment)
      → find? slot pair ≡ some a
      → (id ≡ a.id) × (find? slot assignments' ≡ some (as_rescheduled 50 40 9 a)))
    × (find? slot pair ≡ none
        → (id ≡ 3)
          × (map_option Assignment.phase (find? slot assignments')
              ≡ some GateAssignmentPhase.queued))
create_assignment_example = create_assignment_lem 50 3 4 40 egress 9 pair
