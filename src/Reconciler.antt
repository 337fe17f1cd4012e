-- ===== src/Reconciler.antt =====
-- The state that the controllers of packages/control-plane/src/reconciler share: the tables of the
-- sessions, the fleet, the address leases, the gates, the rendered plans and the artifacts with their
-- download tokens. Times are in seconds.
pub mod Sessions
pub mod Scheduling
pub mod Activation
pub mod Assignments
pub mod Revocation
pub mod Beginning
pub mod Failure
pub mod Enqueue
pub mod Batches
pub mod Draining
pub mod Downloads
mod Tests
use z_wireguard_vpn.Common.{ℕ, List}
use z_wireguard_vpn.Common.Json.{Json}
use z_wireguard_vpn.Session.{Session}
use z_wireguard_vpn.Session.Service.{AuditEvent}
use z_wireguard_vpn.Job.{FleetDb}
use z_wireguard_vpn.Lease.{LeaseDb}
use z_wireguard_vpn.Gate.Store.{Gate}
use z_wireguard_vpn.Artifact.{Artifact, ArtifactDownloadToken, ArtifactDb}

-- A row of `rendered_plans`; `document` holds its public material and its two models.
pub record RenderedPlan : Type 0 where
  pub id : ℕ
  pub session_id : ℕ
  pub generation : ℕ
  pub document : Json

pub record ControlDb : Type 0 where
  pub sessions : List Session
  pub audits : List AuditEvent
  pub fleet : FleetDb
  pub leases : LeaseDb
  pub gates : List Gate
  pub plans : List RenderedPlan
  pub artifacts : List Artifact
  pub tokens : List ArtifactDownloadToken

abbrev pub artifact_db : ControlDb → ArtifactDb
artifact_db db = record { artifacts = db.artifacts; tokens = db.tokens }
