-- ===== src/Usage/Tests.antt =====
-- Three reports of one assignment at the egress.
use z_wireguard_vpn.Common.{ℕ, ◌≡◌, refl, none, some, [], ◌∷◌, arith}
use z_wireguard_vpn.Common.Int.{pos}
use z_wireguard_vpn.Common.Json.{Json}
use z_wireguard_vpn.Common.Table.{row}
use z_wireguard_vpn.Assignment.{Assignment, GateAssignmentPhase, GateAssignmentDesiredState, egress}
use z_wireguard_vpn.Usage.{CounterReport, TrafficUsage, UsageDb}
use z_wireguard_vpn.Usage.Totals.{record_counters, record_counters_lem}

abbrev at_egress : Assignment
at_egress = record {
  id = 1;
  session_id = 4;
  gate_id = 30;
  role = egress;
  generation = 2;
  desired_state = GateAssignmentDesiredState.applied;
  plan_id = 9;
  updated_at = 0;
  phase = GateAssignmentPhase.applied;
  observed_generation = 2;
  applied_plan_id = some 9;
  local_material = Json.null;
  reported_state = Json.null;
  last_error = none;
  applied_at = some 5;
  revoked_at = none;
  last_observed_at = some 5;
}

abbrev counted : ℕ → ℕ → CounterReport
counted at bytes = record {
  assignment_id = 1;
  generation = 2;
  role = egress;
  sampled_at = at;
  values = record {
    wireguard_client_receive_bytes = pos 0;
    wireguard_client_transmit_bytes = pos 0;
    wireguard_transit_receive_bytes = pos 0;
    wireguard_transit_transmit_bytes = pos 0;
    forwarded_to_destination_packets = pos 1;
    forwarded_to_destination_bytes = pos bytes;
    forwarded_from_destination_packets = pos 1;
    forwarded_from_destination_bytes = pos 7;
    dropped_to_destination_packets = pos 0;
    dropped_to_destination_bytes = pos 0;
    dropped_from_destination_packets = pos 0;
    dropped_from_destination_bytes = pos 0;
  };
}

abbrev a_db : UsageDb
a_db = record {
  assignments = at_egress ∷ [];
  samples = [];
  deltas = [];
  usages = (record { session_id = 4; consumed_bytes = 100 }) ∷ [];
}

record_counters_example :
    row TrafficUsage.session_id 4
      (record_counters 30 "boot" (counted 10 50 ∷ counted 20 80 ∷ counted 30 95 ∷ []) a_db).usages
    ≡ some (record { session_id = 4; consumed_bytes = 145 })
record_counters_example =
    record_counters_lem 30 "boot" refl (counted 10 50) (counted 20 80 ∷ counted 30 95 ∷ []) a_db
      at_egress (record { session_id = 4; consumed_bytes = 100 }) tt
      (
        record {
          assignment = refl;
          generation = refl;
          at_egress = refl;
          later = omega arith;
          to_grows = omega arith;
          from_grows = omega arith;
        },
        (
          record {
            assignment = refl;
            generation = refl;
            at_egress = refl;
            later = omega arith;
            to_grows = omega arith;
            from_grows = omega arith;
          },
          tt,
        ),
      )
      refl refl
