-- ===== src/Drift/Repair.antt =====
-- What the repair of a gate does to its assignments.
use z_wireguard_vpn.Common.Json.{Json}
use z_wireguard_vpn.Session.{Session}
use z_wireguard_vpn.Assignment.{Assignment, failure, drifted_assignment_transition}
use z_wireguard_vpn.Assignment.Store.{set_phase_error}

-- The row of an assignment whose handle is missing.
abbrev pub drifted : Assignment → Assignment
drifted a =
    set_phase_error drifted_assignment_transition
      (failure "actual_state_missing_handle"
        "Desired assignment handle is absent from gate actual state")
      a
