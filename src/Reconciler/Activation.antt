-- ===== src/Reconciler/Activation.antt =====
-- `completeProvisionedSessions` of packages/control-plane/src/reconciler/session-controller.ts, with
-- `prepareClientConfigArtifact` of resources/artifacts/service.ts. `render` makes the public part and
-- the encrypted payload of a config from its plan and the assignments, or throws.
use z_wireguard_vpn.Common.{
  ℕ, ◌+◌, Bool, ◌&&◌, Option, none, some, List, [], ◌∷◌, ◌++◌, ◌==◌, any, filter, take, find?,
  count, if◌then◌else◌,
}
use z_wireguard_vpn.Common.Json.{Json}
use z_wireguard_vpn.Session.{Session, provisioning, phase_eq, active_transition}
use z_wireguard_vpn.Session.Store.{mark_session_observed}
use z_wireguard_vpn.Session.Service.{session_active}
use z_wireguard_vpn.Assignment.{
  Assignment, GateAssignmentPhase, Role, ingress, egress, role_eq, has_phase,
}
use z_wireguard_vpn.Gate.Store.{Gate}
use z_wireguard_vpn.Artifact.{
  EncryptedPayload, has_active_client_config_artifact, insert_client_config_artifact,
}
use z_wireguard_vpn.Reconciler.{ControlDb, RenderedPlan}
use z_wireguard_vpn.Reconciler.Scheduling.{is_plan_of}

abbrev pub is_in_phase_of : ℕ → GateAssignmentPhase → Assignment → Bool
is_in_phase_of session_id p a = a.session_id == session_id && has_phase a.phase p

abbrev pub is_provisioned : List Assignment → Session → Bool
is_provisioned assignments s =
    phase_eq s.phase provisioning
    && count (is_in_phase_of s.id GateAssignmentPhase.applied) assignments == 2

unfoldable pub list_provisioned_sessions_for_activation : ControlDb → List Session
list_provisioned_sessions_for_activation db =
    take 50 (filter (is_provisioned db.fleet.assignments) db.sessions)

-- The assignment of a role, whose gate is there.
abbrev pub has_role_of : ℕ → Role → List Gate → Assignment → Bool
has_role_of session_id role gates a =
    a.session_id == session_id
    && (role_eq a.role role && any (λ (g : Gate). g.id == a.gate_id) gates)

abbrev pub find_assignment_of : ℕ → Role → ControlDb → Option Assignment
find_assignment_of session_id role db =
    find? (has_role_of session_id role db.gates) db.fleet.assignments

unfoldable pub prepare_client_config_artifact :
    (RenderedPlan → Assignment → Assignment → Option (Json × EncryptedPayload))
    → Session
    → ControlDb
    → Option ControlDb
prepare_client_config_artifact render s db = elim (find? (is_plan_of s.id s.generation) db.plans) [
  | none ↦ none
  | some plan ↦ elim (find_assignment_of s.id ingress db) [
    | none ↦ none
    | some i ↦ elim (find_assignment_of s.id egress db) [
      | none ↦ none
      | some e ↦ elim (render plan i e) [
        | none ↦ none
        | some (public_payload, payload) ↦ some (record db {
          artifacts =
              insert_client_config_artifact db.fleet.next_id s.id public_payload payload
                db.artifacts;
          fleet = record (db.fleet) { next_id = db.fleet.next_id + 1 };
        })
      ]
    ]
  ]
]

abbrev pub activate_session : ℕ → Session → ControlDb → ControlDb
activate_session now s db = record db {
  sessions = mark_session_observed now s.id (active_transition s.generation) db.sessions;
  audits = db.audits ++ session_active s.id ∷ [];
}

unfoldable pub complete_provisioned_session :
    (RenderedPlan → Assignment → Assignment → Option (Json × EncryptedPayload))
    → ℕ
    → Session
    → ControlDb
    → Option ControlDb
complete_provisioned_session render now s db =
    if has_active_client_config_artifact s.id db.artifacts
    then some (activate_session now s db)
    else elim (prepare_client_config_artifact render s db) [
      | none ↦ none
      | some db' ↦ some (activate_session now s db')
    ]

unfoldable pub activate_each :
    (RenderedPlan → Assignment → Assignment → Option (Json × EncryptedPayload))
    → ℕ
    → List Session
    → ControlDb
    → Option ControlDb
activate_each render now [] db = some db
activate_each render now (s ∷ ss) db = elim (complete_provisioned_session render now s db) [
  | none ↦ none
  | some db' ↦ activate_each render now ss db'
]

unfoldable pub complete_provisioned_sessions :
    (RenderedPlan → Assignment → Assignment → Option (Json × EncryptedPayload))
    → ℕ
    → ControlDb
    → Option ControlDb
complete_provisioned_sessions render now db =
    activate_each render now (list_provisioned_sessions_for_activation db) db
