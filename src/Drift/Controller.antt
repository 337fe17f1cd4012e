-- ===== src/Drift/Controller.antt =====
-- `reconcileDrift` and its two helpers of packages/control-plane/src/reconciler/drift-controller.ts.
-- `network` makes the document of the network plan from the plan and both assignments.
use z_wireguard_vpn.Common.{
  ℕ, Bool, ◌&&◌, ◌||◌, none, some, List, [], ◌∷◌, ◌++◌, ◌==◌, any, find?, take, if◌then◌else◌,
}
use z_wireguard_vpn.Common.Json.{Json}
use z_wireguard_vpn.Session.{
  Session, SessionPhase, provisioning, degraded, phase_eq, is_desired_active,
}
use z_wireguard_vpn.Assignment.{Assignment, ingress, egress, is_desired_applied}
use z_wireguard_vpn.Reconciler.{ControlDb, RenderedPlan}
use z_wireguard_vpn.Reconciler.Scheduling.{is_plan_of}
use z_wireguard_vpn.Reconciler.Activation.{find_assignment_of}
use z_wireguard_vpn.Reconciler.Assignments.{commit_assignments, revoke_each}
use z_wireguard_vpn.Drift.{
  Handle, ManagedHandleDrift, DriftDb, GateActualStateDriftRow, has_handle, external_handle,
  compare_managed_handles, drift_message, set_gate_drift_condition,
  mark_missing_handle_assignments_drifted, list_known_orphan_assignments_for_cleanup,
  list_gate_actual_state_drift_inputs,
}

abbrev pub is_repair_target : ℕ → List Handle → Assignment → Bool
is_repair_target gate_id missing a =
    a.gate_id == gate_id
    && (has_handle missing (external_handle a) && is_desired_applied a.desired_state)

abbrev pub is_repairable : List RenderedPlan → ℕ → Session → Bool
is_repairable plans session_id s =
    s.id == session_id
    && (is_desired_active s.desired_state
        && ((phase_eq s.phase SessionPhase.active
              || phase_eq s.phase provisioning
              || phase_eq s.phase degraded)
            && any (is_plan_of s.id s.generation) plans))

-- The sessions of the assignments of a list that can be repaired.
repair_sessions : ℕ → List Handle → ControlDb → List Assignment → List Session
repair_sessions gate_id missing db [] = []
repair_sessions gate_id missing db (a ∷ as') =
    let rest = repair_sessions gate_id missing db as' in
    if is_repair_target gate_id missing a
    then elim (find? (is_repairable db.plans a.session_id) db.sessions) [
      | none ↦ rest
      | some s ↦ s ∷ rest
    ]
    else rest

unfoldable pub list_missing_handle_repair_sessions : ℕ → List Handle → ControlDb → List Session
unfolding repair_sessions
list_missing_handle_repair_sessions gate_id missing db =
    take 50 (repair_sessions gate_id missing db db.fleet.assignments)

unfoldable pub repair_session :
    (RenderedPlan → Assignment → Assignment → Json) → ℕ → Session → ControlDb → ControlDb
repair_session network now s db = elim (find? (is_plan_of s.id s.generation) db.plans) [
  | none ↦ db
  | some plan ↦ elim (find_assignment_of s.id ingress db) [
    | none ↦ db
    | some i ↦ elim (find_assignment_of s.id egress db) [
      | none ↦ db
      | some e ↦ record db { fleet = commit_assignments network now s plan i e db.fleet }
    ]
  ]
]

unfoldable pub repair_each :
    (RenderedPlan → Assignment → Assignment → Json) → ℕ → List Session → ControlDb → ControlDb
repair_each network now [] db = db
repair_each network now (s ∷ ss) db = repair_each network now ss (repair_session network now s db)

unfoldable pub enqueue_repair_jobs_for_missing_handles :
    (RenderedPlan → Assignment → Assignment → Json) → ℕ → ℕ → List Handle → ControlDb → ControlDb
enqueue_repair_jobs_for_missing_handles network now gate_id missing db =
    repair_each network now (list_missing_handle_repair_sessions gate_id missing db) db

unfoldable pub enqueue_cleanup_jobs_for_known_orphans : ℕ → ℕ → List Handle → ControlDb → ControlDb
enqueue_cleanup_jobs_for_known_orphans now gate_id orphans db = record db {
  fleet =
      revoke_each now
        (list_known_orphan_assignments_for_cleanup gate_id orphans db.fleet.assignments) db.fleet;
}

-- What is done about the handles of a gate that differ.
unfoldable pub repair_drift :
    (RenderedPlan → Assignment → Assignment → Json)
    → ℕ
    → ℕ
    → ManagedHandleDrift
    → ControlDb
    → ControlDb
repair_drift network now gate_id d db =
    let marked = record db {
      fleet = record (db.fleet) {
        assignments =
            mark_missing_handle_assignments_drifted gate_id d.missing_handles db.fleet.assignments;
      };
    } in
    enqueue_cleanup_jobs_for_known_orphans now gate_id d.orphan_handles
      (enqueue_repair_jobs_for_missing_handles network now gate_id d.missing_handles marked)

unfoldable pub reconcile_gate_drift :
    (RenderedPlan → Assignment → Assignment → Json)
    → ℕ
    → GateActualStateDriftRow
    → DriftDb
    → DriftDb
reconcile_gate_drift network now g db = elim g.reported_at [
  | none ↦ db
  | some reported ↦
      let d = compare_managed_handles g.desired_handles g.actual_handles in
      let (changed, conditions) =
        set_gate_drift_condition
          (record { gate_id = g.gate_id; status = d.drifted; message = drift_message d })
          db.conditions in
      let noted = record db {
        conditions = conditions;
        drift_audits =
            if changed
            then db.drift_audits
              ++ (record {
                gate_id = g.gate_id;
                missing_handles = d.missing_handles;
                orphan_handles = d.orphan_handles;
              })
                ∷ []
            else db.drift_audits;
      } in
      if d.drifted
      then record noted { control = repair_drift network now g.gate_id d db.control }
      else noted
]

unfoldable pub reconcile_each :
    (RenderedPlan → Assignment → Assignment → Json)
    → ℕ
    → List GateActualStateDriftRow
    → DriftDb
    → DriftDb
reconcile_each network now [] db = db
reconcile_each network now (g ∷ gs) db =
    reconcile_each network now gs (reconcile_gate_drift network now g db)

unfoldable pub reconcile_drift :
    (RenderedPlan → Assignment → Assignment → Json) → ℕ → DriftDb → DriftDb
reconcile_drift network now db =
    reconcile_each network now (list_gate_actual_state_drift_inputs db) db
