-- ===== src/Reconciler/Assignments.antt =====
-- The controller of assignments: packages/control-plane/src/reconciler/assignment-controller.ts.
-- The conditions that it sets for users are left out.
use z_wireguard_vpn.Common.{
  ℕ, Bool, true, false, not, ◌&&◌, ◌||◌, Option, none, some, List, [], ◌∷◌, ◌==◌, any, count,
  filter, find?, is_some_eq, take,
}
use z_wireguard_vpn.Common.Json.{Json}
use z_wireguard_vpn.Session.{Session, provisioning, phase_eq, is_desired_active}
use z_wireguard_vpn.Session.Store.{touch_session_status}
use z_wireguard_vpn.Assignment.{
  Assignment, GateAssignmentPhase, ingress, egress, is_desired_applied,
}
use z_wireguard_vpn.Assignment.Service.{
  queue_prepared_assignments_for_commit, request_assignment_revocation,
}
use z_wireguard_vpn.Job.{Job, FleetDb, Operation, is_open_job, is_succeeded}
use z_wireguard_vpn.Job.Store.{EnqueueApplyJobInput, EnqueueRevokeAssignmentJobInput, is_apply}
use z_wireguard_vpn.Job.Service.{enqueue_apply_job, enqueue_revoke_assignment_job}
use z_wireguard_vpn.Reconciler.{ControlDb, RenderedPlan}
use z_wireguard_vpn.Reconciler.Scheduling.{is_plan_of}
use z_wireguard_vpn.Reconciler.Activation.{is_in_phase_of, find_assignment_of}

abbrev is_commit : Option Operation → Bool
is_commit none = false
is_commit (some Operation.prepare) = false
is_commit (some Operation.commit) = true

abbrev pub is_commit_done_or_open : ℕ → Job → Bool
is_commit_done_or_open session_id j =
    is_some_eq session_id j.session_id
    && (is_apply j.type
        && (is_commit j.payload.operation && (is_open_job j.phase || is_succeeded j.phase)))

-- The plan of a provisioning session whose two assignments are prepared, where no commit job is open
-- or done.
abbrev pub is_ready_for_commit : ControlDb → Session → Bool
is_ready_for_commit db s =
    phase_eq s.phase provisioning
    && (count (is_in_phase_of s.id GateAssignmentPhase.prepared) db.fleet.assignments == 2
        && (any (is_plan_of s.id s.generation) db.plans
            && not (any (is_commit_done_or_open s.id) db.fleet.jobs)))

unfoldable pub list_sessions_ready_for_commit : ControlDb → List Session
list_sessions_ready_for_commit db = take 50 (filter (is_ready_for_commit db) db.sessions)

-- `network` makes the document of the network plan from the plan and both assignments.
abbrev pub commit_input : Session → Assignment → RenderedPlan → Json → EnqueueApplyJobInput
commit_input s a plan document = record {
  assignment_id = a.id;
  gate_id = a.gate_id;
  session_id = s.id;
  operation = Operation.commit;
  role = a.role;
  plan_id = some plan.id;
  plan = document;
}

unfoldable pub commit_assignments :
    (RenderedPlan → Assignment → Assignment → Json)
    → ℕ
    → Session
    → RenderedPlan
    → Assignment
    → Assignment
    → FleetDb
    → FleetDb
commit_assignments network now s plan i e fleet =
    enqueue_apply_job now (commit_input s e plan (network plan i e))
      (enqueue_apply_job now (commit_input s i plan (network plan i e)) fleet)

unfoldable pub commit_session :
    (RenderedPlan → Assignment → Assignment → Json) → ℕ → Session → ControlDb → ControlDb
commit_session network now s db = elim (find? (is_plan_of s.id s.generation) db.plans) [
  | none ↦ db
  | some plan ↦ elim (find_assignment_of s.id ingress db) [
    | none ↦ db
    | some i ↦ elim (find_assignment_of s.id egress db) [
      | none ↦ db
      | some e ↦
          let queued = commit_assignments network now s plan i e db.fleet in
          record db {
            fleet = record queued {
              assignments = queue_prepared_assignments_for_commit i.id e.id queued.assignments;
            };
            sessions = touch_session_status now s.id db.sessions;
          }
    ]
  ]
]

unfoldable pub commit_each :
    (RenderedPlan → Assignment → Assignment → Json) → ℕ → List Session → ControlDb → ControlDb
commit_each network now [] db = db
commit_each network now (s ∷ ss) db = commit_each network now ss (commit_session network now s db)

unfoldable pub enqueue_commit_jobs_for_prepared_assignments :
    (RenderedPlan → Assignment → Assignment → Json) → ℕ → ControlDb → ControlDb
enqueue_commit_jobs_for_prepared_assignments network now db =
    commit_each network now (list_sessions_ready_for_commit db) db

-- Assignments that are not wanted revoked, of sessions that are.
abbrev pub is_to_revoke : List Session → Assignment → Bool
is_to_revoke sessions a =
    not (not (is_desired_applied a.desired_state))
    && any (λ (s : Session). s.id == a.session_id && not (is_desired_active s.desired_state))
        sessions

unfoldable pub list_assignments_to_revoke : ControlDb → List Assignment
list_assignments_to_revoke db = take 100 (filter (is_to_revoke db.sessions) db.fleet.assignments)

abbrev pub revoke_input : Assignment → EnqueueRevokeAssignmentJobInput
revoke_input a = record {
  assignment_id = a.id;
  gate_id = a.gate_id;
  session_id = a.session_id;
  role = a.role;
}

unfoldable pub revoke_each : ℕ → List Assignment → FleetDb → FleetDb
revoke_each now [] fleet = fleet
revoke_each now (a ∷ as') fleet = revoke_each now as' (
    enqueue_revoke_assignment_job now (revoke_input a)
      (record fleet { assignments = request_assignment_revocation now a.id fleet.assignments }))

unfoldable pub enqueue_revocation_jobs_for_assignments : ℕ → ControlDb → ControlDb
enqueue_revocation_jobs_for_assignments now db = record db {
  fleet = revoke_each now (list_assignments_to_revoke db) db.fleet;
}
