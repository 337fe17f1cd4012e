-- ===== src/Reconciler/Scheduling.antt =====
-- The first half of packages/control-plane/src/reconciler/session-controller.ts: from the request to
-- the assignments of two gates. `render` makes the document of a plan, with the keys that it generates, and `to_uuid` is the cast of the
-- database.
-- The rows of probe runs, which nothing here reads, and the conditions for users are left out. `none`
-- is a thrown error, which undoes the run.
use z_wireguard_vpn.Common.{
  ℕ, ◌+◌, Bool, ◌&&◌, Option, none, some, String, List, [], ◌∷◌, ◌++◌, ◌==◌, find?,
}
use z_wireguard_vpn.Common.Json.{Json, get}
use z_wireguard_vpn.Common.Table.{update_where}
use z_wireguard_vpn.Session.{
  Session, ErrorBody, requested, scheduling, probing_transition, failed_transition,
  provisioning_transition,
}
use z_wireguard_vpn.Session.Store.{
  list_session_rows_for_phase_for_update, update_session_status_phase, mark_session_failed,
  mark_session_observed,
}
use z_wireguard_vpn.Assignment.{Role, ingress, egress}
use z_wireguard_vpn.Assignment.Service.{create_assignment}
use z_wireguard_vpn.Job.{FleetDb, Operation}
use z_wireguard_vpn.Job.Store.{EnqueueApplyJobInput}
use z_wireguard_vpn.Job.Service.{enqueue_apply_job}
use z_wireguard_vpn.Lease.Allocator.{ensure_client_address_lease}
use z_wireguard_vpn.Planning.{
  PathChoice, ClientProtocol, amneziawg, choose_path, read_session_client_protocol,
}
use z_wireguard_vpn.Reconciler.{ControlDb, RenderedPlan}

unfoldable pub probe_each : ℕ → List Session → List Session → List Session
probe_each now [] sessions = sessions
probe_each now (s ∷ ss) sessions =
    probe_each now ss (update_session_status_phase now s.id probing_transition sessions)

unfoldable pub begin_requested_session_probing : ℕ → ControlDb → ControlDb
begin_requested_session_probing now db = record db {
  sessions =
      probe_each now (list_session_rows_for_phase_for_update requested db.sessions) db.sessions;
}

abbrev pub is_plan_of : ℕ → ℕ → RenderedPlan → Bool
is_plan_of session_id generation p = p.session_id == session_id && p.generation == generation

-- The id of the plan of a session at its generation, and the table.
unfoldable pub upsert_rendered_plan : ℕ → Session → Json → List RenderedPlan → ℕ × List RenderedPlan
upsert_rendered_plan fresh_id s document plans = elim (find? (is_plan_of s.id s.generation) plans) [
  | some p ↦ (
    p.id,
    update_where (is_plan_of s.id s.generation) (λ x. record x { document = document }) plans,
  )
  | none ↦ (
    fresh_id,
    plans
        ++ (record {
          id = fresh_id;
          session_id = s.id;
          generation = s.generation;
          document = document;
        })
          ∷ [],
  )
]

-- The assignment of a role to a gate, and its id.
unfoldable pub assign : ℕ → Session → ℕ → Role → ℕ → FleetDb → ℕ × FleetDb
assign now s gate_id role plan_id fleet =
    let (id, assignments) =
      create_assignment now fleet.next_id s.id gate_id role plan_id fleet.assignments in
    (id, record fleet { assignments = assignments; next_id = fleet.next_id + 1 })

abbrev pub prepare_input : Session → ℕ → ℕ → Role → ℕ → Json → EnqueueApplyJobInput
prepare_input s assignment_id gate_id role plan_id document = record {
  assignment_id = assignment_id;
  gate_id = gate_id;
  session_id = s.id;
  operation = Operation.prepare;
  role = role;
  plan_id = some plan_id;
  plan = document;
}

-- Two assignments, and then a job for each of them.
unfoldable pub assign_path : ℕ → Session → PathChoice → ℕ → Json → FleetDb → FleetDb
assign_path now s p plan_id document fleet =
    let (ingress_id, with_ingress) = assign now s p.ingress.id ingress plan_id fleet in
    let (egress_id, with_both) = assign now s p.egress.id egress plan_id with_ingress in
    enqueue_apply_job now (prepare_input s egress_id p.egress.id egress plan_id document) (
      enqueue_apply_job now (prepare_input s ingress_id p.ingress.id ingress plan_id document)
        with_both)

-- `sessionClientProtocolLabel` in the message.
abbrev pub no_path_error : Option ClientProtocol → ErrorBody
no_path_error protocol = record {
  code = "no_schedulable_path";
  message = elim protocol [
    | some p ↦ elim p [
      | amneziawg ↦
          "No ready AmneziaWG 3.1 ingress / WireGuard egress gate pair is currently schedulable"
      | _ ↦ "No ready WireGuard ingress / WireGuard egress gate pair is currently schedulable"
    ]
    | none ↦ ""
  ];
}

abbrev pub pool_exhausted_error : ErrorBody
pool_exhausted_error = record {
  code = "address_pool_exhausted";
  message = "No WireGuard client address is currently available";
}

abbrev fail_session : ℕ → Session → ErrorBody → ControlDb → ControlDb
fail_session now s e db = record db {
  sessions = mark_session_failed now s.id (failed_transition e) db.sessions;
}

abbrev pub provision_session :
    (Session → PathChoice → ℕ → Json) → ℕ → Session → PathChoice → ℕ → ControlDb → ControlDb
provision_session render now s p address db =
    let document = render s p address in
    let (plan_id, plans) = upsert_rendered_plan db.fleet.next_id s document db.plans in
    record db {
      plans = plans;
      fleet =
          assign_path now s p plan_id document
            (record (db.fleet) { next_id = db.fleet.next_id + 1 });
      sessions = mark_session_observed now s.id (provisioning_transition s.generation) db.sessions;
    }

unfoldable pub schedule_session :
    (String → Option ℕ)
    → (Session → PathChoice → ℕ → Json)
    → ℕ
    → Session
    → ControlDb
    → Option ControlDb
schedule_session to_uuid render now s db = elim (choose_path to_uuid now s.spec db.gates) [
  | none ↦ none
  | some path ↦ elim path [
    | none ↦ some (
        fail_session now s
          (no_path_error (read_session_client_protocol (get s.spec "clientProtocol"))) db)
    | some p ↦
        let (address, leases) = ensure_client_address_lease s.id db.leases in
        let leased = record db { leases = leases } in
        elim address [
          | none ↦ some (fail_session now s pool_exhausted_error leased)
          | some a ↦ some (provision_session render now s p a leased)
        ]
  ]
]

unfoldable pub provision_each :
    (String → Option ℕ)
    → (Session → PathChoice → ℕ → Json)
    → ℕ
    → List Session
    → ControlDb
    → Option ControlDb
provision_each to_uuid render now [] db = some db
provision_each to_uuid render now (s ∷ ss) db = elim (schedule_session to_uuid render now s db) [
  | none ↦ none
  | some db' ↦ provision_each to_uuid render now ss db'
]

unfoldable pub schedule_sessions_for_provisioning :
    (String → Option ℕ) → (Session → PathChoice → ℕ → Json) → ℕ → ControlDb → Option ControlDb
schedule_sessions_for_provisioning to_uuid render now db =
    provision_each to_uuid render now
      (list_session_rows_for_phase_for_update scheduling db.sessions) db
