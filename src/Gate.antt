-- ===== src/Gate.antt =====
-- The conditions of a gate that reports:
-- packages/control-plane/src/resources/gates/readiness.ts, transitions.ts and the composition in
-- recordGateHeartbeat of service.ts. The messages, which only users read, are left out.
pub mod Conditions
pub mod Store
pub mod Selection
pub mod Samples
mod Tests
use Prim.Native.Char.{code}
use text.Mathlib.Text.{◌==◌ as str_eq}
use z_wireguard_vpn.Common.{
  ℕ, ◌+◌, Bool, true, false, ◌&&◌, String, List, [], ◌∷◌, ◌++◌, ◌==◌, leb, if◌then◌else◌, any, map,
}
use z_wireguard_vpn.Common.Text.{codes, lower, same_codes}
use z_wireguard_vpn.Common.Json.{Json, read_string, chars}

pub data GateDesiredState : Type 0 where
  enabled draining disabled maintenance : GateDesiredState

pub data ConditionType : Type 0 where
  agent_connected ready schedulable : ConditionType

pub record GateLifecycleCondition : Type 0 where
  pub type : ConditionType
  pub status : Bool
  pub reason : String

pub record GateReadiness : Type 0 where
  pub ready : Bool
  pub reason : String
  pub double_zero_ready : Bool
  pub double_zero_reason : String

pub record GateReadinessInput : Type 0 where
  pub capabilities : List String
  pub double_zero : Json
  pub public_ipv4 : String
  pub double_zero_env : String
  pub host_ready : Bool

abbrev pub has_capability : String → List String → Bool
has_capability c capabilities = any (λ x. str_eq x c) capabilities

unfoldable pub is_lower_case_of : String → String → Bool
is_lower_case_of s lower_case = same_codes (lower s) (codes lower_case)

abbrev pub host_only : String → GateReadiness
host_only reason = record {
  ready = true;
  reason = "HostReady";
  double_zero_ready = false;
  double_zero_reason = reason;
}

unfoldable pub evaluate_gate_readiness : GateReadinessInput → GateReadiness
evaluate_gate_readiness input =
    let at = read_string input.double_zero in
    if input.host_ready
    then if has_capability "doublezero0:up" input.capabilities
      then if is_lower_case_of (at "currentDeviceStatus") "drained"
        then host_only "DoubleZeroDeviceDrained"
        else if str_eq (at "tunnelStatus") "BGP Session Up"
        then if str_eq (at "network") input.double_zero_env
          then if str_eq (at "tunnelSrc") input.public_ipv4
            then record {
              ready = true;
              reason = "HostReady";
              double_zero_ready = true;
              double_zero_reason = "DoubleZeroReady";
            }
            else host_only "DoubleZeroTunnelSourceMismatch"
          else host_only "DoubleZeroEnvMismatch"
        else host_only "DoubleZeroTunnelDown"
      else host_only "DoubleZeroInterfaceDown"
    else record {
      ready = false;
      reason = "HostToolsMissing";
      double_zero_ready = false;
      double_zero_reason = "HostToolsMissing";
    }

unfoldable pub read_gate_double_zero_env : Json → String
read_gate_double_zero_env spec =
    let value = read_string spec "doubleZeroEnv" in if str_eq value "" then "testnet" else value

abbrev pub resolve_gate_agent_connected_condition : Bool → GateLifecycleCondition
resolve_gate_agent_connected_condition connected = record {
  type = agent_connected;
  status = connected;
  reason = if connected then "HeartbeatFresh" else "HeartbeatStale";
}

abbrev pub is_enabled : GateDesiredState → Bool
is_enabled enabled = true
is_enabled _ = false

abbrev pub desired_state_reason : GateDesiredState → String
desired_state_reason enabled = "DesiredStateEnabled"
desired_state_reason draining = "DesiredStateDraining"
desired_state_reason disabled = "DesiredStateDisabled"
desired_state_reason maintenance = "DesiredStateMaintenance"

unfoldable pub is_gate_schedulable : Bool → Bool → GateDesiredState → Bool
is_gate_schedulable host_ready double_zero_ready desired_state =
    host_ready && double_zero_ready && is_enabled desired_state

unfoldable pub schedulable_blocked_reason : GateReadiness → GateDesiredState → String
schedulable_blocked_reason r desired_state =
    if r.ready
    then if r.double_zero_ready then desired_state_reason desired_state else r.double_zero_reason
    else r.reason

unfoldable pub resolve_gate_heartbeat_conditions :
    GateReadiness → GateDesiredState → List GateLifecycleCondition
unfolding is_gate_schedulable schedulable_blocked_reason
resolve_gate_heartbeat_conditions r desired_state =
    let can = is_gate_schedulable r.ready r.double_zero_ready desired_state in
    (record { type = ready; status = r.ready; reason = r.reason })
    ∷ (record {
      type = schedulable;
      status = can;
      reason = if can then "Enabled" else schedulable_blocked_reason r desired_state;
    })
    ∷ []

unfoldable pub resolve_gate_stale_conditions : List GateLifecycleCondition
unfolding resolve_gate_heartbeat_conditions
resolve_gate_stale_conditions =
    let stale : GateReadiness = record {
      ready = false;
      reason = "HeartbeatStale";
      double_zero_ready = false;
      double_zero_reason = "HeartbeatStale";
    } in
    resolve_gate_agent_connected_condition false ∷ resolve_gate_heartbeat_conditions stale enabled

pub record GateRuntimeIdentity : Type 0 where
  pub desired_state : GateDesiredState
  pub public_ipv4 : String
  pub spec : Json

pub record GateHeartbeatReport : Type 0 where
  pub capabilities : List String
  pub double_zero : Json

abbrev pub is_host_ready : List String → Bool
is_host_ready capabilities =
    has_capability "wireguard-tools:present" capabilities
    && has_capability "iproute2:present" capabilities
    && has_capability "nft:present" capabilities

-- The conditions that `recordGateHeartbeat` computes from a report.
unfoldable pub heartbeat_conditions :
    GateRuntimeIdentity → GateHeartbeatReport → List GateLifecycleCondition
unfolding evaluate_gate_readiness read_gate_double_zero_env
heartbeat_conditions gate report =
    resolve_gate_heartbeat_conditions
      (evaluate_gate_readiness (record {
        capabilities = report.capabilities;
        double_zero = report.double_zero;
        public_ipv4 = gate.public_ipv4;
        double_zero_env = read_gate_double_zero_env gate.spec;
        host_ready = is_host_ready report.capabilities;
      }))
      gate.desired_state
