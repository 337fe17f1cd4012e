-- ===== src/Drift.antt =====
-- The comparison of what gates have with what they should have:
-- packages/control-plane/src/reconciler/drift-controller.ts with its queries in
-- resources/actual-state and resources/gate-assignments. A handle is `hs-assignment-` with the id of an
-- assignment, or another text, as its codes. The order in which handles are listed is left out, and so are the details of
-- audit events but for the handles.
pub mod Controller
pub mod Handles
pub mod Repair
mod Tests
use z_wireguard_vpn.Common.{
  ℕ, ◌+◌, Bool, true, false, not, ◌&&◌, ◌||◌, Option, none, some, String, List, [], ◌∷◌, ◌++◌, ◌==◌,
  leb, ltb, any, find?, filter, take, map, length, is_some, if◌then◌else◌,
}
use z_wireguard_vpn.Common.Json.{Json}
use z_wireguard_vpn.Common.Table.{update_where}
use z_wireguard_vpn.Common.Text.{same_codes}
use z_wireguard_vpn.Session.{
  Session, SessionPhase, provisioning, degraded, phase_eq, is_desired_active,
}
use z_wireguard_vpn.Assignment.{
  Assignment, AssignmentError, GateAssignmentPhase, ingress, egress, failure, has_phase,
  is_desired_applied, drifted_assignment_transition,
}
use z_wireguard_vpn.Assignment.Store.{set_phase_error}
use z_wireguard_vpn.Job.{FleetDb}
use z_wireguard_vpn.Gate.Store.{Gate}
use z_wireguard_vpn.Reconciler.{ControlDb, RenderedPlan}
use z_wireguard_vpn.Reconciler.Scheduling.{is_plan_of}
use z_wireguard_vpn.Reconciler.Activation.{find_assignment_of}
use z_wireguard_vpn.Reconciler.Assignments.{commit_assignments, revoke_each}

pub data Handle : Type 0 where
  hs_assignment : ℕ → Handle
  unmanaged : List ℕ → Handle

abbrev pub handle_eq : Handle → Handle → Bool
handle_eq (hs_assignment a) (hs_assignment b) = a == b
handle_eq (unmanaged s) (unmanaged t) = same_codes s t
handle_eq _ _ = false

abbrev pub has_handle : List Handle → Handle → Bool
has_handle hs h = any (λ k. handle_eq k h) hs

abbrev pub external_handle : Assignment → Handle
external_handle a = hs_assignment a.id

pub record ManagedHandleDrift : Type 0 where
  pub drifted : Bool
  pub missing_handles : List Handle
  pub orphan_handles : List Handle

-- `[...new Set(handles)]`
unfoldable pub unique : List Handle → List Handle
unique [] = []
unique (h ∷ hs) = h ∷ filter (λ k. not (handle_eq k h)) (unique hs)

abbrev pub is_some_handle : List Handle → Bool
is_some_handle [] = false
is_some_handle (_ ∷ _) = true

unfoldable pub compare_managed_handles : List Handle → List Handle → ManagedHandleDrift
compare_managed_handles desired_handles actual_handles =
    let missing = filter (λ h. not (has_handle actual_handles h)) (unique desired_handles) in
    let orphan = filter (λ h. not (has_handle desired_handles h)) (unique actual_handles) in
    record {
      drifted = is_some_handle missing || is_some_handle orphan;
      missing_handles = missing;
      orphan_handles = orphan;
    }

-- A row of `gate_actual_state_snapshots`.
pub record GateSnapshot : Type 0 where
  pub gate_id : ℕ
  pub received_at : ℕ
  pub reported_at : Option ℕ
  pub managed_handles : List Handle

-- The message of the condition, which counts the handles.
pub data DriftMessage : Type 0 where
  matches : DriftMessage
  differs : ℕ → ℕ → DriftMessage

abbrev pub same_message : DriftMessage → DriftMessage → Bool
same_message matches matches = true
same_message (differs m n) (differs m' n') = m == m' && n == n'
same_message _ _ = false

-- The row of type `Drift` of `gate_conditions`; the status says the reason.
pub record DriftCondition : Type 0 where
  pub gate_id : ℕ
  pub status : Bool
  pub message : DriftMessage

-- The audit event `gate_drift_detected`.
pub record DriftDetected : Type 0 where
  pub gate_id : ℕ
  pub missing_handles : List Handle
  pub orphan_handles : List Handle

pub record DriftDb : Type 0 where
  pub control : ControlDb
  pub snapshots : List GateSnapshot
  pub conditions : List DriftCondition
  pub drift_audits : List DriftDetected

pub record GateActualStateDriftRow : Type 0 where
  pub gate_id : ℕ
  pub desired_handles : List Handle
  pub actual_handles : List Handle
  pub reported_at : Option ℕ

-- `ORDER BY received_at DESC LIMIT 1`
unfoldable pub latest_snapshot : ℕ → List GateSnapshot → Option GateSnapshot
latest_snapshot gate_id [] = none
latest_snapshot gate_id (s ∷ ss) =
    let rest = latest_snapshot gate_id ss in
    if s.gate_id == gate_id
    then elim rest [
      | none ↦ some s
      | some t ↦ if ltb s.received_at t.received_at then some t else some s
    ]
    else rest

-- The gate has reported after the assignment was applied.
abbrev pub is_reported_since : GateSnapshot → Assignment → Bool
is_reported_since s a = elim a.applied_at [ none ↦ false | some t ↦ leb t s.received_at ]

abbrev pub is_desired_at : GateSnapshot → Assignment → Bool
is_desired_at s a =
    a.gate_id == s.gate_id
    && (is_desired_applied a.desired_state
        && ((has_phase a.phase GateAssignmentPhase.applied
              || has_phase a.phase GateAssignmentPhase.drifted)
            && is_reported_since s a))

unfoldable pub drift_input : List Assignment → List GateSnapshot → Gate → GateActualStateDriftRow
drift_input assignments snapshots g = elim (latest_snapshot g.id snapshots) [
  | none ↦ record { gate_id = g.id; desired_handles = []; actual_handles = []; reported_at = none }
  | some s ↦ record {
    gate_id = g.id;
    desired_handles = map external_handle (filter (is_desired_at s) assignments);
    actual_handles = s.managed_handles;
    reported_at = s.reported_at;
  }
]

unfoldable pub list_gate_actual_state_drift_inputs : DriftDb → List GateActualStateDriftRow
list_gate_actual_state_drift_inputs db =
    map (drift_input db.control.fleet.assignments db.snapshots) db.control.gates

abbrev pub drift_message : ManagedHandleDrift → DriftMessage
drift_message d =
    if d.drifted then differs (length d.missing_handles) (length d.orphan_handles) else matches

-- Whether the condition changed to drift, and the table.
unfoldable pub set_gate_drift_condition :
    DriftCondition → List DriftCondition → Bool × List DriftCondition
set_gate_drift_condition c conditions =
    elim (find? (λ (x : DriftCondition). x.gate_id == c.gate_id) conditions) [
      | none ↦ (c.status, conditions ++ c ∷ [])
      | some existing ↦ (
        c.status && (not existing.status || not (same_message existing.message c.message)),
        update_where (λ (x : DriftCondition). x.gate_id == c.gate_id)
            (λ x. record x { status = c.status; message = c.message }) conditions,
      )
    ]

abbrev pub is_missing_at : ℕ → List Handle → Assignment → Bool
is_missing_at gate_id missing a =
    a.gate_id == gate_id
    && (has_handle missing (external_handle a)
        && (is_desired_applied a.desired_state && has_phase a.phase GateAssignmentPhase.applied))

unfoldable pub mark_missing_handle_assignments_drifted :
    ℕ → List Handle → List Assignment → List Assignment
mark_missing_handle_assignments_drifted gate_id missing assignments =
    update_where (is_missing_at gate_id missing)
      (set_phase_error drifted_assignment_transition (
        failure "actual_state_missing_handle"
          "Desired assignment handle is absent from gate actual state"))
      assignments

abbrev pub is_known_orphan : ℕ → List Handle → Assignment → Bool
is_known_orphan gate_id orphans a =
    a.gate_id == gate_id
    && (has_handle orphans (external_handle a)
        && (not (is_desired_applied a.desired_state)
            || has_phase a.phase GateAssignmentPhase.revoking
            || has_phase a.phase GateAssignmentPhase.revoked
            || has_phase a.phase GateAssignmentPhase.dead))

unfoldable pub list_known_orphan_assignments_for_cleanup :
    ℕ → List Handle → List Assignment → List Assignment
list_known_orphan_assignments_for_cleanup gate_id orphans assignments =
    take 100 (filter (is_known_orphan gate_id orphans) assignments)
