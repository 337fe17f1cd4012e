-- ===== src/Drift/Tests.antt =====
-- A gate that should have the assignment 1, and has one that is not wanted.
use z_wireguard_vpn.Common.{◌≡◌, ◌⊎◌, true, false, not, ◌&&◌, none, some, List, [], ◌∷◌}
use z_wireguard_vpn.Common.Json.{Json}
use z_wireguard_vpn.Assignment.{
  Assignment, GateAssignmentPhase, GateAssignmentDesiredState, ingress,
}
use z_wireguard_vpn.Reconciler.{ControlDb, RenderedPlan}
use z_wireguard_vpn.Drift.{Handle, hs_assignment, unmanaged, has_handle, compare_managed_handles}
use z_wireguard_vpn.Drift.Handles.{compare_managed_handles_lem}
use z_wireguard_vpn.Drift.Repair.{drifted}

abbrev desired : List Handle
desired = hs_assignment 1 ∷ hs_assignment 1 ∷ []

abbrev actual : List Handle
actual = hs_assignment 2 ∷ unmanaged (119 ∷ 103 ∷ []) ∷ []

compare_managed_handles_example :
    let d = compare_managed_handles desired actual in
    ((h : Handle)
      → has_handle d.missing_handles h ≡ (has_handle desired h && not (has_handle actual h)))
    × ((h : Handle)
        → has_handle d.orphan_handles h ≡ (has_handle actual h && not (has_handle desired h)))
    × (((d.drifted ≡ false) × ((h : Handle) → has_handle desired h ≡ has_handle actual h))
        ⊎ ((d.drifted ≡ true) × (h : Handle) × (has_handle desired h ≡ not (has_handle actual h))))
compare_managed_handles_example = compare_managed_handles_lem desired actual

abbrev an_assignment : GateAssignmentDesiredState → Assignment
an_assignment desired_state = record {
  id = 1;
  session_id = 4;
  gate_id = 30;
  role = ingress;
  generation = 2;
  desired_state = desired_state;
  plan_id = 9;
  updated_at = 0;
  phase = GateAssignmentPhase.applied;
  observed_generation = 1;
  applied_plan_id = none;
  local_material = Json.null;
  reported_state = Json.null;
  last_error = none;
  applied_at = some 7;
  revoked_at = none;
  last_observed_at = none;
}

abbrev with_assignment : Assignment → ControlDb
with_assignment a = record {
  sessions = [];
  audits = [];
  fleet = record { jobs = []; attempts = []; assignments = a ∷ []; next_id = 1 };
  leases = record { pools = []; leases = [] };
  gates = [];
  plans = [];
  artifacts = [];
  tokens = [];
}

abbrev no_plan : RenderedPlan → Assignment → Assignment → Json
no_plan plan i e = Json.null

abbrev wanted : Assignment
wanted = an_assignment GateAssignmentDesiredState.applied
