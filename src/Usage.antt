-- ===== src/Usage.antt =====
-- The traffic that gates count for assignments: `recordGateAssignmentCounter` of
-- packages/control-plane/src/resources/actual-state/repository.ts. Times are numbers, and a value of a
-- report is an integer.
pub mod Series
pub mod Totals
mod Tests
use text.Mathlib.Text.{◌==◌ as str_eq}
use z_wireguard_vpn.Common.{
  ℕ, ◌+◌, ◌-◌, Bool, true, false, ◌&&◌, ◌||◌, Option, none, some, String, List, [], ◌∷◌, ◌++◌, ◌==◌,
  ltb, any, find?, if◌then◌else◌,
}
use z_wireguard_vpn.Common.Int.{ℤ, pos_part}
use z_wireguard_vpn.Common.Table.{update_where}
use z_wireguard_vpn.Assignment.{Assignment, Role, egress}

pub record Counters (A : Type 0) : Type 0 where
  pub wireguard_client_receive_bytes : A
  pub wireguard_client_transmit_bytes : A
  pub wireguard_transit_receive_bytes : A
  pub wireguard_transit_transmit_bytes : A
  pub forwarded_to_destination_packets : A
  pub forwarded_to_destination_bytes : A
  pub forwarded_from_destination_packets : A
  pub forwarded_from_destination_bytes : A
  pub dropped_to_destination_packets : A
  pub dropped_to_destination_bytes : A
  pub dropped_from_destination_packets : A
  pub dropped_from_destination_bytes : A

pub record CounterReport : Type 0 where
  pub assignment_id : ℕ
  pub generation : ℕ
  pub role : Role
  pub sampled_at : ℕ
  pub values : Counters ℤ

-- A row of `gate_assignment_counter_samples`.
pub record CounterSample : Type 0 where
  pub gate_id : ℕ
  pub assignment_id : ℕ
  pub boot_id : String
  pub generation : ℕ
  pub role : Role
  pub sampled_at : ℕ
  pub values : Counters ℕ

-- A row of `gate_assignment_usage_deltas`.
pub record UsageDelta : Type 0 where
  pub sample : CounterSample
  pub window_start : ℕ
  pub window_end : ℕ
  pub values : Counters ℕ

-- The columns of `session_traffic_entitlements` that the usage changes.
pub record TrafficUsage : Type 0 where
  pub session_id : ℕ
  pub consumed_bytes : ℕ

pub record UsageDb : Type 0 where
  pub assignments : List Assignment
  pub samples : List CounterSample
  pub deltas : List UsageDelta
  pub usages : List TrafficUsage

abbrev pub map_counters : {A B : Type 0} → (A → B) → Counters A → Counters B
map_counters f c = record {
  wireguard_client_receive_bytes = f c.wireguard_client_receive_bytes;
  wireguard_client_transmit_bytes = f c.wireguard_client_transmit_bytes;
  wireguard_transit_receive_bytes = f c.wireguard_transit_receive_bytes;
  wireguard_transit_transmit_bytes = f c.wireguard_transit_transmit_bytes;
  forwarded_to_destination_packets = f c.forwarded_to_destination_packets;
  forwarded_to_destination_bytes = f c.forwarded_to_destination_bytes;
  forwarded_from_destination_packets = f c.forwarded_from_destination_packets;
  forwarded_from_destination_bytes = f c.forwarded_from_destination_bytes;
  dropped_to_destination_packets = f c.dropped_to_destination_packets;
  dropped_to_destination_bytes = f c.dropped_to_destination_bytes;
  dropped_from_destination_packets = f c.dropped_from_destination_packets;
  dropped_from_destination_bytes = f c.dropped_from_destination_bytes;
}

-- `GREATEST(inserted - COALESCE(previous, inserted), 0)` of each counter.
abbrev pub subtract_counters : Counters ℕ → Counters ℕ → Counters ℕ
subtract_counters c d = record {
  wireguard_client_receive_bytes =
      c.wireguard_client_receive_bytes - d.wireguard_client_receive_bytes;
  wireguard_client_transmit_bytes =
      c.wireguard_client_transmit_bytes - d.wireguard_client_transmit_bytes;
  wireguard_transit_receive_bytes =
      c.wireguard_transit_receive_bytes - d.wireguard_transit_receive_bytes;
  wireguard_transit_transmit_bytes =
      c.wireguard_transit_transmit_bytes - d.wireguard_transit_transmit_bytes;
  forwarded_to_destination_packets =
      c.forwarded_to_destination_packets - d.forwarded_to_destination_packets;
  forwarded_to_destination_bytes =
      c.forwarded_to_destination_bytes - d.forwarded_to_destination_bytes;
  forwarded_from_destination_packets =
      c.forwarded_from_destination_packets - d.forwarded_from_destination_packets;
  forwarded_from_destination_bytes =
      c.forwarded_from_destination_bytes - d.forwarded_from_destination_bytes;
  dropped_to_destination_packets =
      c.dropped_to_destination_packets - d.dropped_to_destination_packets;
  dropped_to_destination_bytes = c.dropped_to_destination_bytes - d.dropped_to_destination_bytes;
  dropped_from_destination_packets =
      c.dropped_from_destination_packets - d.dropped_from_destination_packets;
  dropped_from_destination_bytes =
      c.dropped_from_destination_bytes - d.dropped_from_destination_bytes;
}

abbrev pub is_target : ℕ → ℕ → Assignment → Bool
is_target gate_id assignment_id a = a.id == assignment_id && a.gate_id == gate_id

-- The samples that a report continues.
abbrev pub is_series : ℕ → String → ℕ → ℕ → CounterSample → Bool
is_series gate_id boot_id assignment_id generation s =
    s.assignment_id == assignment_id
    && (s.gate_id == gate_id && (str_eq s.boot_id boot_id && s.generation == generation))

abbrev pub is_series_of : ℕ → String → CounterReport → CounterSample → Bool
is_series_of gate_id boot_id r s = is_series gate_id boot_id r.assignment_id r.generation s

-- `ORDER BY sampled_at DESC LIMIT 1`
unfoldable pub latest : (CounterSample → Bool) → List CounterSample → Option CounterSample
latest p [] = none
latest p (s ∷ ss) =
    let rest = latest p ss in
    if p s
    then elim rest [
      | none ↦ some s
      | some t ↦ if ltb t.sampled_at s.sampled_at then some s else some t
    ]
    else rest

abbrev pub new_sample : ℕ → String → CounterReport → CounterSample
new_sample gate_id boot_id r = record {
  gate_id = gate_id;
  assignment_id = r.assignment_id;
  boot_id = boot_id;
  generation = r.generation;
  role = r.role;
  sampled_at = r.sampled_at;
  values = map_counters pos_part r.values;
}

abbrev pub is_egress : Role → Bool
is_egress egress = true
is_egress _ = false

abbrev pub usage_delta : CounterSample → Option CounterSample → UsageDelta
usage_delta s previous = record {
  sample = s;
  window_start = elim previous [ none ↦ s.sampled_at | some p ↦ p.sampled_at ];
  window_end = s.sampled_at;
  values = subtract_counters s.values (elim previous [ none ↦ s.values | some p ↦ p.values ]);
}

abbrev pub payload_bytes : Counters ℕ → ℕ
payload_bytes c = c.forwarded_to_destination_bytes + c.forwarded_from_destination_bytes

-- Only what is counted at the egress is charged.
unfoldable pub add_usage : ℕ → UsageDelta → List TrafficUsage → List TrafficUsage
add_usage session_id d usages =
    if is_egress d.sample.role
    then update_where (λ (u : TrafficUsage). u.session_id == session_id)
        (λ u. record u { consumed_bytes = u.consumed_bytes + payload_bytes d.values }) usages
    else usages

unfoldable pub record_gate_assignment_counter :
    ℕ → Option String → CounterReport → UsageDb → UsageDb
record_gate_assignment_counter gate_id none r db = db
record_gate_assignment_counter gate_id (some boot_id) r db =
    let sample = new_sample gate_id boot_id r in
    let previous =
      latest (λ s. is_series_of gate_id boot_id r s && ltb s.sampled_at r.sampled_at) db.samples in
    let delta = usage_delta sample previous in
    elim (find? (is_target gate_id r.assignment_id) db.assignments) [
      | none ↦ db
      | some a ↦
          if str_eq boot_id ""
            || any (λ s. is_series_of gate_id boot_id r s && s.sampled_at == r.sampled_at)
                db.samples
          then db
          else record db {
            samples = db.samples ++ sample ∷ [];
            deltas = db.deltas ++ delta ∷ [];
            usages = add_usage a.session_id delta db.usages;
          }
    ]
