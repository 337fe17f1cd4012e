-- ===== src/Runs/Loops.antt =====
-- The loops of the controllers keep the sessions and the leases consistent.
use z_wireguard_vpn.Common.{
  ℕ, ◌≡◌, refl, Bool, true, false, Option, none, some, String, List, [], ◌∷◌, arith, ◌==◌, find?,
  All, inl, inr, Option-cases, Bool-cases,
}
use z_wireguard_vpn.Common.Json.{Json}
use z_wireguard_vpn.Session.{
  Session, SessionPhase, SessionLifecycleTransition, revoking, begin_revoking_transition,
  probing_transition, scheduling_transition, active_transition, revoked_transition,
}
use z_wireguard_vpn.Session.Store.{
  update_session_status_phase, set_status_phase, mark_session_revoking, set_revoking,
  mark_session_failed, mark_session_observed, set_status_observed, touch_session_status,
}
use z_wireguard_vpn.Assignment.{Assignment, ingress, egress}
use z_wireguard_vpn.Lease.{LeaseDb}
use z_wireguard_vpn.Lease.Holders.{has_lease}
use z_wireguard_vpn.Artifact.{EncryptedPayload, has_active_client_config_artifact}
use z_wireguard_vpn.Reconciler.{ControlDb, RenderedPlan}
use z_wireguard_vpn.Reconciler.Sessions.{
  schedule_each, begin_revoking_each, complete_revoked_each, complete_revoked_session,
  fail_timed_out_each, fail_timed_out_session,
}
use z_wireguard_vpn.Reconciler.Scheduling.{probe_each, is_plan_of}
use z_wireguard_vpn.Reconciler.Activation.{
  activate_each, complete_provisioned_session, prepare_client_config_artifact, find_assignment_of,
}
use z_wireguard_vpn.Reconciler.Assignments.{commit_each, commit_session}
use z_wireguard_vpn.Runs.Shape.{IsConsistent, update-IsConsistent, release-IsConsistent}

-- The sessions of a list hold an address, or do not.
abbrev pub AllHold : Bool → LeaseDb → List Session → Type 0
AllHold held leases ss = All (λ (s : Session). has_lease s.id leases ≡ held) ss

begin_revoking_transition-phase :
    (p : SessionPhase) (t : SessionLifecycleTransition)
    → begin_revoking_transition p ≡ some t
    → t.phase ≡ revoking
unfolding begin_revoking_transition
begin_revoking_transition-phase p t e = ground arith

module _ (now next_id : ℕ) where
  pub probe_each-IsConsistent :
      (ss sessions : List Session) (leases : LeaseDb)
      → AllHold false leases ss
      → IsConsistent next_id sessions leases
      → IsConsistent next_id (probe_each now ss sessions) leases
  unfolding probe_each update_session_status_phase
  probe_each-IsConsistent [] sessions leases a h = h
  probe_each-IsConsistent (s ∷ ss) sessions leases a h = probe_each-IsConsistent ss _ leases a.1 (
      update-IsConsistent (λ x. x.id == s.id) (set_status_phase now probing_transition) next_id
        sessions leases (λ x. refl) (λ x t q. let e = a.0 in ground arith) h)

  pub schedule_each-IsConsistent :
      (ss sessions : List Session) (leases : LeaseDb)
      → AllHold false leases ss
      → IsConsistent next_id sessions leases
      → IsConsistent next_id (schedule_each now ss sessions) leases
  unfolding schedule_each update_session_status_phase
  schedule_each-IsConsistent [] sessions leases a h = h
  schedule_each-IsConsistent (s ∷ ss) sessions leases a h =
      schedule_each-IsConsistent ss _ leases a.1 (
        update-IsConsistent (λ x. x.id == s.id) (set_status_phase now scheduling_transition) next_id
          sessions leases (λ x. refl) (λ x t q. let e = a.0 in ground arith) h)

  begin_revoking-IsConsistent :
      (k : ℕ) (o : Option SessionLifecycleTransition) (sessions : List Session) (leases : LeaseDb)
      → ((t : SessionLifecycleTransition) → o ≡ some t → t.phase ≡ revoking)
      → IsConsistent next_id sessions leases
      → IsConsistent next_id
          (elim o [ none ↦ sessions | some t ↦ mark_session_revoking now k t.phase sessions ])
          leases
  unfolding mark_session_revoking
  begin_revoking-IsConsistent k none sessions leases r h = h
  begin_revoking-IsConsistent k (some t) sessions leases r h =
      update-IsConsistent (λ x. x.id == k) (set_revoking now t.phase) next_id sessions leases
        (λ x. refl) (λ x e q. let is = r t refl in rw is tt) h

  pub begin_revoking_each-IsConsistent :
      (ss sessions : List Session) (leases : LeaseDb)
      → IsConsistent next_id sessions leases
      → IsConsistent next_id (begin_revoking_each now ss sessions) leases
  unfolding begin_revoking_each
  begin_revoking_each-IsConsistent [] sessions leases h = h
  begin_revoking_each-IsConsistent (s ∷ ss) sessions leases h =
      begin_revoking_each-IsConsistent ss _ leases (
        begin_revoking-IsConsistent s.id (begin_revoking_transition s.phase) sessions leases
          (begin_revoking_transition-phase s.phase) h)

  pub complete_revoked_each-IsConsistent :
      (ss : List Session) (db : ControlDb)
      → IsConsistent next_id db.sessions db.leases
      → let db' = complete_revoked_each now ss db in IsConsistent next_id db'.sessions db'.leases
  unfolding complete_revoked_each complete_revoked_session mark_session_observed
  complete_revoked_each-IsConsistent [] db h = h
  complete_revoked_each-IsConsistent (s ∷ ss) db h =
      complete_revoked_each-IsConsistent ss (complete_revoked_session now s db) (
        release-IsConsistent now s.id "session_revoked"
          (set_status_observed now (revoked_transition s.generation)) next_id db.sessions db.leases
          (λ x. refl) (λ x. refl) h)

  pub fail_timed_out_each-IsConsistent :
      (describe : List Assignment → String) (ss : List Session) (db : ControlDb)
      → IsConsistent next_id db.sessions db.leases
      → let db' = fail_timed_out_each describe now ss db in
        IsConsistent next_id db'.sessions db'.leases
  unfolding fail_timed_out_each fail_timed_out_session mark_session_failed
  fail_timed_out_each-IsConsistent describe [] db h = h
  fail_timed_out_each-IsConsistent describe (s ∷ ss) db h =
      fail_timed_out_each-IsConsistent describe ss (fail_timed_out_session describe now s db) (
        release-IsConsistent now s.id "provisioning_failed" _ next_id db.sessions db.leases
          (λ x. refl) (λ x. refl) h)

  commit_session-IsConsistent :
      (network : RenderedPlan → Assignment → Assignment → Json) (s : Session) (db : ControlDb)
      → IsConsistent next_id db.sessions db.leases
      → let db' = commit_session network now s db in IsConsistent next_id db'.sessions db'.leases
  unfolding commit_session touch_session_status
  commit_session-IsConsistent network s db h =
      let touched =
        update-IsConsistent (λ x. x.id == s.id) (λ x. record x { status_updated_at = now }) next_id
          db.sessions db.leases (λ x. refl) (λ x t q. q) h in
      elim (Option-cases (find? (is_plan_of s.id s.generation) db.plans)) [
        | inl unplanned ↦ rw (commit_session, unplanned) h
        | inr (plan, planned) ↦ elim (Option-cases (find_assignment_of s.id ingress db)) [
          | inl alone ↦ rw (commit_session, planned, alone) h
          | inr (i, enters) ↦ elim (Option-cases (find_assignment_of s.id egress db)) [
            | inl alone ↦ rw (commit_session, planned, enters, alone) h
            | inr (e, leaves) ↦ rw (commit_session, planned, enters, leaves) touched
          ]
        ]
      ]

  pub commit_each-IsConsistent :
      (network : RenderedPlan → Assignment → Assignment → Json) (ss : List Session) (db : ControlDb)
      → IsConsistent next_id db.sessions db.leases
      → let db' = commit_each network now ss db in IsConsistent next_id db'.sessions db'.leases
  unfolding commit_each
  commit_each-IsConsistent network [] db h = h
  commit_each-IsConsistent network (s ∷ ss) db h =
      commit_each-IsConsistent network ss (commit_session network now s db)
        (commit_session-IsConsistent network s db h)

  prepared :
      (render : RenderedPlan → Assignment → Assignment → Option (Json × EncryptedPayload))
      (s : Session) (db db' : ControlDb)
      → prepare_client_config_artifact render s db ≡ some db'
      → (db'.sessions ≡ db.sessions) × (db'.leases ≡ db.leases)
  unfolding prepare_client_config_artifact
  prepared render s db db' e = elim (Option-cases (find? (is_plan_of s.id s.generation) db.plans)) [
    | inl unplanned ↦ ground arith
    | inr (plan, planned) ↦ elim (Option-cases (find_assignment_of s.id ingress db)) [
      | inl alone ↦ ground arith
      | inr (i, enters) ↦ elim (Option-cases (find_assignment_of s.id egress db)) [
        | inl alone ↦ ground arith
        | inr (o, leaves) ↦ elim (Option-cases (render plan i o)) [
          | inl thrown ↦ ground arith
          | inr ((public_payload, payload), made) ↦ (ground arith, ground arith)
        ]
      ]
    ]
  ]

  -- An activation changes the row of its session and no lease.
  activated :
      (render : RenderedPlan → Assignment → Assignment → Option (Json × EncryptedPayload))
      (s : Session) (db db' : ControlDb)
      → complete_provisioned_session render now s db ≡ some db'
      → (db'.sessions ≡ mark_session_observed now s.id (active_transition s.generation) db.sessions)
        × (db'.leases ≡ db.leases)
  unfolding complete_provisioned_session
  activated render s db db' e =
      elim (Bool-cases (has_active_client_config_artifact s.id db.artifacts)) [
        | inl has ↦ (ground arith, ground arith)
        | inr lacks ↦ elim (Option-cases (prepare_client_config_artifact render s db)) [
          | inl thrown ↦ ground arith
          | inr (c, made) ↦
              let (sessions, leases) = prepared render s db c made in (ground arith, ground arith)
        ]
      ]

  pub activate_each-IsConsistent :
      (render : RenderedPlan → Assignment → Assignment → Option (Json × EncryptedPayload))
      (ss : List Session) (db : ControlDb) {db' : ControlDb}
      → AllHold true db.leases ss
      → activate_each render now ss db ≡ some db'
      → IsConsistent next_id db.sessions db.leases
      → IsConsistent next_id db'.sessions db'.leases
  unfolding activate_each mark_session_observed
  activate_each-IsConsistent render [] db {db'} a e h =
      let same : db ≡ db' = ground arith in rw (← same) h
  activate_each-IsConsistent render (s ∷ ss) db {db'} a e h =
      elim (Option-cases (complete_provisioned_session render now s db)) [
        | inl thrown ↦ ground arith
        | inr (c, done) ↦
            let (sessions, leases) = activated render s db c done in
            let held : AllHold true c.leases ss = rw leases a.1 in
            activate_each-IsConsistent render ss c {db' = db'} held (ground arith) (
              rw (sessions, leases)
                (update-IsConsistent (λ x. x.id == s.id)
                  (set_status_observed now (active_transition s.generation)) next_id db.sessions
                  db.leases (λ x. refl) (λ x t q. let e' = a.0 in ground arith) h))
      ]
