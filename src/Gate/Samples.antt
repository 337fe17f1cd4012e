-- ===== src/Gate/Samples.antt =====
-- Gates for concrete runs.
use z_wireguard_vpn.Common.{ℕ, true, false, some, String, [], ◌∷◌}
use z_wireguard_vpn.Common.Int.{ℤ}
use z_wireguard_vpn.Common.Json.{Json, str, obj, end, field}
use z_wireguard_vpn.Gate.{enabled}
use z_wireguard_vpn.Gate.Store.{Gate}

-- A gate that works until the second 1000.
abbrev pub working_gate : ℕ → String → String → ℤ → Gate
working_gate id name country weight = record {
  id = id;
  name = name;
  public_ipv4 = "192.0.2.1";
  country = country;
  city = "Paris";
  desired_state = enabled;
  scheduling_weight = weight;
  spec = Json.null;
  is_agent_connected = true;
  is_ready = true;
  is_schedulable = true;
  is_deploying = false;
  observed_capabilities = "doublezero0:up" ∷ [];
  doublezero_status = obj (
      field "tunnelStatus" (str "BGP Session Up")
        (field "network" (str "testnet") (field "tunnelSrc" (str "192.0.2.1") end)));
  lease_expires_at = some 1000;
}
