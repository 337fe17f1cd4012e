-- ===== src/Session.antt =====
-- The life cycle of a session (a VPN config): the phases and transition functions of
-- packages/control-plane/src/resources/sessions/transitions.ts, and the rows of the tables
-- `sessions` and `session_status`, which are written together and joined one to one.
pub mod Store
pub mod Service
pub mod Revocation
pub mod Hiding
pub mod Creation
pub mod Quota
pub mod Payment
pub mod Traffic
mod Tests
use z_wireguard_vpn.Common.{ℕ, Bool, true, false, Option, none, some, String, ◌==◌}
use z_wireguard_vpn.Common.Json.{Json}

pub data SessionDesiredState : Type 0 where
  active revoked : SessionDesiredState

pub data SessionPhase : Type 0 where
  payment_pending requested probing scheduling provisioning active degraded revoking : SessionPhase
  revoked failed : SessionPhase

-- What a `last_error` or an audit reason carries: its code and its message.
pub record ErrorBody : Type 0 where
  pub code : String
  pub message : String

-- An absent field, a field that is null, and a field with an error.
pub data ErrorUpdate : Type 0 where
  keep clear : ErrorUpdate
  write : ErrorBody → ErrorUpdate

pub record SessionLifecycleTransition : Type 0 where
  pub phase : SessionPhase
  pub observed_generation : Option ℕ
  pub last_error : ErrorUpdate

-- Phases are compared through their positions in the enumeration.
abbrev pub phase_code : SessionPhase → ℕ
phase_code payment_pending = 0
phase_code requested = 1
phase_code probing = 2
phase_code scheduling = 3
phase_code provisioning = 4
phase_code SessionPhase.active = 5
phase_code degraded = 6
phase_code revoking = 7
phase_code SessionPhase.revoked = 8
phase_code failed = 9

abbrev pub phase_eq : SessionPhase → SessionPhase → Bool
phase_eq p q = phase_code p == phase_code q

abbrev pub is_desired_active : SessionDesiredState → Bool
is_desired_active SessionDesiredState.active = true
is_desired_active SessionDesiredState.revoked = false

unfoldable pub is_terminal_session_phase : SessionPhase → Bool
is_terminal_session_phase SessionPhase.active = true
is_terminal_session_phase SessionPhase.revoked = true
is_terminal_session_phase failed = true
is_terminal_session_phase _ = false

unfoldable pub can_request_revocation : SessionPhase → Bool
can_request_revocation revoking = false
can_request_revocation SessionPhase.revoked = false
can_request_revocation failed = false
can_request_revocation _ = true

abbrev to_phase : SessionPhase → SessionLifecycleTransition
to_phase p = record { phase = p; observed_generation = none; last_error = keep }

abbrev observed_at : SessionPhase → ℕ → SessionLifecycleTransition
observed_at p generation = record {
  phase = p;
  observed_generation = some generation;
  last_error = clear;
}

abbrev pub requested_session_initial_transition : SessionLifecycleTransition
requested_session_initial_transition = to_phase requested

abbrev pub probing_transition : SessionLifecycleTransition
probing_transition = to_phase probing

abbrev pub scheduling_transition : SessionLifecycleTransition
scheduling_transition = to_phase scheduling

pub record RevocationTransition : Type 0 where
  pub desired_state : SessionDesiredState
  pub increment_generation : Bool
  pub status_transition : SessionLifecycleTransition

unfoldable pub request_revocation_transition : SessionPhase → RevocationTransition
request_revocation_transition SessionPhase.revoked = record {
  desired_state = SessionDesiredState.revoked;
  increment_generation = true;
  status_transition = to_phase SessionPhase.revoked;
}
request_revocation_transition _ = record {
  desired_state = SessionDesiredState.revoked;
  increment_generation = true;
  status_transition = to_phase revoking;
}

abbrev pub provisioning_transition : ℕ → SessionLifecycleTransition
provisioning_transition generation = observed_at provisioning generation

abbrev pub active_transition : ℕ → SessionLifecycleTransition
active_transition generation = observed_at SessionPhase.active generation

abbrev pub failed_transition : ErrorBody → SessionLifecycleTransition
failed_transition e = record { phase = failed; observed_generation = none; last_error = write e }

unfoldable pub begin_revoking_transition : SessionPhase → Option SessionLifecycleTransition
begin_revoking_transition revoking = none
begin_revoking_transition SessionPhase.revoked = none
begin_revoking_transition failed = none
begin_revoking_transition _ = some (to_phase revoking)

abbrev pub revoked_transition : ℕ → SessionLifecycleTransition
revoked_transition generation = observed_at SessionPhase.revoked generation

pub data HideDecision : Type 0 where
  deleted not_revoked can_hide : HideDecision

unfoldable pub can_hide_session : SessionPhase → Option ℕ → HideDecision
can_hide_session p (some hidden_at) = deleted
can_hide_session SessionPhase.revoked none = can_hide
can_hide_session failed none = can_hide
can_hide_session _ none = not_revoked

-- A row of `sessions` with its row of `session_status`.
pub record Session : Type 0 where
  pub id : ℕ
  pub account_id : Option ℕ
  pub generation : ℕ
  pub desired_state : SessionDesiredState
  pub spec : Json
  pub create_request_id : Option ℕ
  pub created_at : ℕ
  pub updated_at : ℕ
  pub hidden_at : Option ℕ
  pub phase : SessionPhase
  pub observed_generation : ℕ
  pub last_error : Option ErrorBody
  pub status_updated_at : ℕ
