-- ===== src/Gate/Conditions.antt =====
-- When a gate can take sessions, and the reason that it gives if it cannot.
use text.Mathlib.Text.{◌==◌ as str_eq}
use z_wireguard_vpn.Common.{
  ◌≡◌, Bool, not, Option, none, some, String, List, [], ◌∷◌, find?, is_some, arith, if◌then◌else◌,
}
use z_wireguard_vpn.Common.Json.{read_string}
use z_wireguard_vpn.Gate.{
  GateRuntimeIdentity, GateHeartbeatReport, ready, schedulable, heartbeat_conditions,
  resolve_gate_heartbeat_conditions, evaluate_gate_readiness, is_gate_schedulable,
  schedulable_blocked_reason, is_host_ready, has_capability, is_lower_case_of, is_enabled,
  read_gate_double_zero_env, desired_state_reason,
}

-- A requirement, and the reason that a gate gives for not meeting it.
pub record Requirement : Type 0 where
  pub is_met : Bool
  pub reason : String

-- What a gate has to meet, in the order in which its failures are told.
abbrev pub requirements : GateRuntimeIdentity → GateHeartbeatReport → List Requirement
requirements gate report =
    let at = read_string report.double_zero in
    (record { is_met = is_host_ready report.capabilities; reason = "HostToolsMissing" })
    ∷ (record {
      is_met = has_capability "doublezero0:up" report.capabilities;
      reason = "DoubleZeroInterfaceDown";
    })
    ∷ (record {
      is_met = not (is_lower_case_of (at "currentDeviceStatus") "drained");
      reason = "DoubleZeroDeviceDrained";
    })
    ∷ (record {
      is_met = str_eq (at "tunnelStatus") "BGP Session Up";
      reason = "DoubleZeroTunnelDown";
    })
    ∷ (record {
      is_met = str_eq (at "network") (read_gate_double_zero_env gate.spec);
      reason = "DoubleZeroEnvMismatch";
    })
    ∷ (record {
      is_met = str_eq (at "tunnelSrc") gate.public_ipv4;
      reason = "DoubleZeroTunnelSourceMismatch";
    })
    ∷ (record {
      is_met = is_enabled gate.desired_state;
      reason = desired_state_reason gate.desired_state;
    })
    ∷ []

abbrev pub first_unmet : List Requirement → Option Requirement
first_unmet rs = find? (λ r. not r.is_met) rs

-- After a report a gate is ready exactly if its host is, whatever else holds, and schedulable exactly
-- if it meets every requirement; if it does not, the reason is that of the first one it fails.
pub heartbeat_conditions_lem :
    (gate : GateRuntimeIdentity) (report : GateHeartbeatReport)
    → let host = is_host_ready report.capabilities in
      let unmet = first_unmet (requirements gate report) in
      heartbeat_conditions gate report
      ≡ (record {
        type = ready;
        status = host;
        reason = if host then "HostReady" else "HostToolsMissing";
      })
        ∷ (record {
          type = schedulable;
          status = not (is_some unmet);
          reason = elim unmet [ none ↦ "Enabled" | some r ↦ r.reason ];
        })
        ∷ []
unfolding heartbeat_conditions resolve_gate_heartbeat_conditions evaluate_gate_readiness
    is_gate_schedulable schedulable_blocked_reason
heartbeat_conditions_lem gate report = ground arith
