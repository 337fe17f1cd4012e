-- ===== src/Runs.antt =====
-- Runs of the control plane: the requests of users, the controllers of
-- packages/control-plane/src/reconciler, the billing's revocations and the adjustment of traffic quotas as
-- steps on one database, in any order and at any times. A step that throws changes nothing and is none.
pub mod Shape
pub mod Loops
pub mod Placement
pub mod Requests
pub mod Entries
pub mod Quotas
pub mod Controllers
pub mod Steps
pub mod Addresses
mod Tests
use z_wireguard_vpn.Common.{ℕ, ◌≡◌, ◌⊎◌, Bool, Option, some, String, List, [], ◌++◌}
use z_wireguard_vpn.Common.Json.{Json}
use z_wireguard_vpn.Session.{SessionPhase, requested, payment_pending}
use z_wireguard_vpn.Session.Service.{
  SessionOwner, SessionDb, RevokeReason, request_owned_session_revocation,
  request_system_session_revocation, delete_owned_hidden_session,
}
use z_wireguard_vpn.Session.Creation.{
  CreationDb, ConfigGrant, SessionCreateParsed, SessionAbuseControlConfig,
  CreateRequestedSessionResult, create_requested_session_with_abuse_controls,
}
use z_wireguard_vpn.Session.Payment.{
  ConfigPayment, TrafficEntitlement, PaymentAudit, PaymentDb, activate_paid_session,
  delete_unpaid_session,
}
use z_wireguard_vpn.Session.Traffic.{TrafficDb, adjust_session_traffic_quota}
use z_wireguard_vpn.Assignment.{Assignment}
use z_wireguard_vpn.Planning.{PathChoice}
use z_wireguard_vpn.Artifact.{EncryptedPayload}
use z_wireguard_vpn.Reconciler.{ControlDb, RenderedPlan}
use z_wireguard_vpn.Reconciler.Scheduling.{
  begin_requested_session_probing, schedule_sessions_for_provisioning,
}
use z_wireguard_vpn.Reconciler.Activation.{complete_provisioned_sessions}
use z_wireguard_vpn.Reconciler.Assignments.{enqueue_commit_jobs_for_prepared_assignments}
use z_wireguard_vpn.Reconciler.Sessions.{
  advance_probed_sessions_to_scheduling, begin_session_revocation, complete_revoked_sessions,
  fail_timed_out_provisioning_sessions,
}
use z_wireguard_vpn.Session.{Session}

pub record World : Type 0 where
  pub control : ControlDb
  pub grants : List ConfigGrant
  pub next_session_id : ℕ
  pub payments : List ConfigPayment
  pub entitlements : List TrafficEntitlement
  pub payment_audits : List PaymentAudit

abbrev pub creation_db : World → CreationDb
creation_db w = record {
  sessions = w.control.sessions;
  audits = w.control.audits;
  grants = w.grants;
  next_id = w.next_session_id;
}

abbrev pub with_creation : World → CreationDb → World
with_creation w c = record w {
  control = record (w.control) { sessions = c.sessions; audits = c.audits };
  grants = c.grants;
  next_session_id = c.next_id;
}

abbrev pub session_db : World → SessionDb
session_db w = record { sessions = w.control.sessions; audits = w.control.audits }

abbrev pub with_sessions : World → SessionDb → World
with_sessions w d = record w {
  control = record (w.control) { sessions = d.sessions; audits = d.audits };
}

abbrev pub payment_db : World → PaymentDb
payment_db w = record {
  sessions = w.control.sessions;
  payments = w.payments;
  entitlements = w.entitlements;
  payment_audits = w.payment_audits;
}

abbrev pub with_payment : World → PaymentDb → World
with_payment w d = record w {
  control = record (w.control) { sessions = d.sessions };
  payments = d.payments;
  entitlements = d.entitlements;
  payment_audits = d.payment_audits;
}

abbrev pub traffic_db : World → TrafficDb
traffic_db w = record {
  sessions = w.control.sessions;
  audits = w.control.audits;
  entitlements = w.entitlements;
}

abbrev pub with_traffic : World → TrafficDb → World
with_traffic w d = record w {
  control = record (w.control) { sessions = d.sessions; audits = d.audits };
  entitlements = d.entitlements;
}

abbrev pub with_control : World → ControlDb → World
with_control w db = record w { control = db }

pub data Step : World → World → Type 0 where
  create :
      (has_path : Json → Bool) (now : ℕ) (actor : SessionOwner) (parsed : SessionCreateParsed)
      (config : SessionAbuseControlConfig) (phase : SessionPhase) (grant : Option ℕ) (w : World)
      {result : CreateRequestedSessionResult} {c : CreationDb}
      → (phase ≡ requested) ⊎ (phase ≡ payment_pending)
      → create_requested_session_with_abuse_controls has_path now actor parsed config phase grant
          (creation_db w)
        ≡ some (result, c)
      → Step w (with_creation w c)
  activate_paid :
      (now : ℕ) (actor : SessionOwner) (session_id payment_id : ℕ) (signature : String) (w : World)
      → Step w (
          with_payment w
            (activate_paid_session now actor session_id payment_id signature (payment_db w)).1)
  delete_unpaid :
      (actor : SessionOwner) (session_id : ℕ) (w : World)
      → Step w (
          with_control w (record (w.control) {
            sessions = delete_unpaid_session actor session_id w.control.sessions;
          }))
  revoke_owned :
      (now : ℕ) (actor : SessionOwner) (session_id : ℕ) (w : World)
      → Step w
          (with_sessions w (request_owned_session_revocation now actor session_id (session_db w)).1)
  revoke_by_system :
      (now session_id : ℕ) (reason : RevokeReason) (w : World)
      → Step w (
          with_sessions w
            (request_system_session_revocation now session_id reason (session_db w)).1)
  adjust_quota :
      (now session_id included_bytes admin_id : ℕ) (w : World)
      → Step w (
          with_traffic w
            (adjust_session_traffic_quota now session_id included_bytes admin_id (traffic_db w)).1)
  hide :
      (now : ℕ) (actor : SessionOwner) (session_id : ℕ) (w : World)
      → Step w (with_sessions w (delete_owned_hidden_session now actor session_id (session_db w)).1)
  probe :
      (now : ℕ) (w : World)
      → Step w (with_control w (begin_requested_session_probing now w.control))
  advance :
      (now : ℕ) (w : World)
      → Step w (with_control w (advance_probed_sessions_to_scheduling now w.control))
  schedule :
      (to_uuid : String → Option ℕ) (render : Session → PathChoice → ℕ → Json) (now : ℕ) (w : World)
      {db : ControlDb}
      → schedule_sessions_for_provisioning to_uuid render now w.control ≡ some db
      → Step w (with_control w db)
  commit :
      (network : RenderedPlan → Assignment → Assignment → Json) (now : ℕ) (w : World)
      → Step w (with_control w (enqueue_commit_jobs_for_prepared_assignments network now w.control))
  complete :
      (render : RenderedPlan → Assignment → Assignment → Option (Json × EncryptedPayload)) (now : ℕ)
      (w : World) {db : ControlDb}
      → complete_provisioned_sessions render now w.control ≡ some db
      → Step w (with_control w db)
  fail :
      (describe : List Assignment → String) (now timeout : ℕ) (w : World)
      → Step w
          (with_control w (fail_timed_out_provisioning_sessions describe now timeout w.control))
  begin_revocation :
      (now : ℕ) (w : World) → Step w (with_control w (begin_session_revocation now w.control))
  complete_revocation :
      (now : ℕ) (w : World) → Step w (with_control w (complete_revoked_sessions now w.control))
  -- What gates report, jobs, repairs, downloads and the administration of gates do: anything that leaves
  -- the sessions and the leases alone.
  other :
      (w w' : World)
      → w'.control.sessions ≡ w.control.sessions
      → w'.control.leases ≡ w.control.leases
      → w'.next_session_id ≡ w.next_session_id
      → Step w w'

-- A database with no session and no lease.
pub record IsFresh (w : World) : Type 0 where
  pub no_session : w.control.sessions ≡ []
  pub no_lease : w.control.leases.leases ≡ []

pub data Reachable : World → Type 0 where
  start : {w : World} → IsFresh w → Reachable w
  next : {w w' : World} → Reachable w → Step w w' → Reachable w'
