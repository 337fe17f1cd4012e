-- ===== src/Gate/Tests.antt =====
-- A gate that meets every requirement, and one that is drained for maintenance.
use z_wireguard_vpn.Common.{◌≡◌, true, false, [], ◌∷◌}
use z_wireguard_vpn.Common.Json.{Json, read_string}
use z_wireguard_vpn.Gate.{
  GateDesiredState, GateRuntimeIdentity, GateHeartbeatReport, ready, schedulable, maintenance,
  heartbeat_conditions, is_lower_case_of,
}
use z_wireguard_vpn.Gate.Conditions.{heartbeat_conditions_lem}

abbrev gate : GateDesiredState → GateRuntimeIdentity
gate state = record { desired_state = state; public_ipv4 = "192.0.2.1"; spec = Json.null }

abbrev report : GateHeartbeatReport
report = record {
  capabilities =
      "wireguard-tools:present" ∷ "iproute2:present" ∷ "nft:present" ∷ "doublezero0:up" ∷ [];
  double_zero = Json.null;
}

heartbeat_conditions_example :
    heartbeat_conditions (gate maintenance) report
    ≡ (record { type = ready; status = true; reason = "HostReady" })
      ∷ (record { type = schedulable; status = false; reason = "DoubleZeroTunnelDown" })
      ∷ []
unfolding is_lower_case_of read_string
heartbeat_conditions_example = heartbeat_conditions_lem (gate maintenance) report
