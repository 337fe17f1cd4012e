-- ===== src/Usage/Totals.antt =====
-- What a series of reports adds to the traffic of a session.
use text.Mathlib.Text.{◌==◌ as str_eq}
use z_wireguard_vpn.Common.{
  ℕ, ◌+◌, ◌-◌, ◌<◌, ◌≡◌, refl, true, false, ◌&&◌, some, String, List, [], ◌∷◌, ◌++◌, ◌==◌, ltb, All,
  any, find?, arith, inl, inr, Bool-cases, ◌∙◌, ap,
}
use z_wireguard_vpn.Common.Table.{row, row-update_where, update_where, All-append, All-map}
use z_wireguard_vpn.Assignment.{Assignment}
use z_wireguard_vpn.Usage.{
  CounterReport, TrafficUsage, UsageDb, is_target, is_series, is_series_of, latest, new_sample,
  is_egress, add_usage, record_gate_assignment_counter,
}
use z_wireguard_vpn.Usage.Series.{
  to_bytes, from_bytes, Continues, Ascends, last_of, last_of-grows, latest-append, latest-none,
  any-none, IsLast, new-in_series, older-not_at, older-previous, older-next,
}

-- The reports of a gate in their order.
abbrev pub record_counters : ℕ → String → List CounterReport → UsageDb → UsageDb
record_counters gate_id boot_id [] db = db
record_counters gate_id boot_id (r ∷ rs) db =
    record_counters gate_id boot_id rs (record_gate_assignment_counter gate_id (some boot_id) r db)

module _ (gate_id : ℕ) (boot_id : String) where
  -- What one report adds.
  abbrev added : CounterReport → CounterReport → ℕ
  added r next = (to_bytes next - to_bytes r) + (from_bytes next - from_bytes r)

  abbrev with_bytes : ℕ → TrafficUsage → TrafficUsage
  with_bytes n u = record u { consumed_bytes = u.consumed_bytes + n }

  module _ (named : str_eq boot_id "" ≡ false) where
    record_next :
        (r next : CounterReport) (db : UsageDb) (a : Assignment)
        → Continues r next
        → IsLast gate_id boot_id r db.samples
        → find? (is_target gate_id next.assignment_id) db.assignments ≡ some a
        → let db' = record_gate_assignment_counter gate_id (some boot_id) next db in
          IsLast gate_id boot_id next db'.samples
          × (db'.assignments ≡ db.assignments)
          × (db'.usages
              ≡ update_where
                  (λ (u : TrafficUsage). u.session_id == a.session_id)
                  (with_bytes (added r next))
                  db.usages)
    unfolding record_gate_assignment_counter add_usage
    record_next r next db a c h target =
        let l = new_sample gate_id boot_id r in
        let eq = h.eq in
        let later = c.later in
        let role = c.at_egress in
        let charged : is_egress next.role ≡ true = rw role refl in
        let own = new-in_series gate_id boot_id r in
        let (as', g) : (next.assignment_id ≡ r.assignment_id) × (next.generation ≡ r.generation) =
          (c.assignment, c.generation) in
        let same : is_series_of gate_id boot_id next l ≡ true = rw (as', g) own in
        let previous : latest
              (λ s. is_series_of gate_id boot_id next s && ltb s.sampled_at next.sampled_at)
              db.samples
            ≡ some l =
          rw eq (
            latest-append _ h.before l (ground (arith, same, later))
              (older-previous gate_id boot_id r next h.before c h.older)) in
        let free : any (λ s. is_series_of gate_id boot_id next s && s.sampled_at == next.sampled_at)
              db.samples
            ≡ false =
          rw eq (
            any-none _ (h.before ++ l ∷ []) (
              All-append
                (λ s.
                  (is_series_of gate_id boot_id next s && s.sampled_at == next.sampled_at) ≡ false)
                h.before (l ∷ []) (older-not_at gate_id boot_id r next h.before c h.older)
                (ground (arith, later), tt))) in
        let grown : IsLast gate_id boot_id next
            (db.samples ++ new_sample gate_id boot_id next ∷ []) =
          record {
            before = db.samples;
            eq = refl;
            older = rw eq (
                All-append
                  (λ s. is_series_of gate_id boot_id next s ≡ true → s.sampled_at < next.sampled_at)
                  h.before (l ∷ []) (older-next gate_id boot_id r next h.before c h.older)
                  ((λ of. later), tt));
          } in
        rw (record_gate_assignment_counter, target, named, free, previous, charged)
          (grown, refl, refl)

    record_counters-row :
        (r : CounterReport) (rs : List CounterReport) (db : UsageDb) (a : Assignment)
        (u : TrafficUsage)
        → Ascends r rs
        → IsLast gate_id boot_id r db.samples
        → find? (is_target gate_id r.assignment_id) db.assignments ≡ some a
        → row TrafficUsage.session_id a.session_id db.usages ≡ some u
        → row TrafficUsage.session_id a.session_id (record_counters gate_id boot_id rs db).usages
          ≡ some (with_bytes (added r (last_of r rs)) u)
    record_counters-row r [] db a u asc h target there =
        let none_added : added r r ≡ 0 = omega arith in ground (arith, there, none_added)
    record_counters-row r (next ∷ rs) db a u asc h target there =
        let c = asc.0 in
        let same = c.assignment in
        let target' : find? (is_target gate_id next.assignment_id) db.assignments ≡ some a =
          rw same target in
        let (last, kept, charged) = record_next r next db a c h target' in
        let after =
          row-update_where TrafficUsage.session_id a.session_id a.session_id
            (with_bytes (added r next)) (λ x. refl) db.usages in
        let there' : row TrafficUsage.session_id a.session_id
              (record_gate_assignment_counter gate_id (some boot_id) next db).usages
            ≡ some (with_bytes (added r next) u) =
          rw charged (ground (arith, after, there)) in
        let ih =
          record_counters-row next rs
            (record_gate_assignment_counter gate_id (some boot_id) next db) a
            (with_bytes (added r next) u) asc.1 last (rw kept target') there' in
        let grown = last_of-grows next rs asc.1 in
        let sum : added r next + added next (last_of next rs) ≡ added r (last_of next rs) =
          omega (arith, c.to_grows, c.from_grows, grown) in
        let full : u.consumed_bytes + added r next + added next (last_of next rs)
            ≡ u.consumed_bytes + added r (last_of next rs) =
          omega (arith, sum) in
        ih ∙ ap (λ n. some (record u { consumed_bytes = n })) full

    record_first :
        (r : CounterReport) (db : UsageDb) (a : Assignment) (u : TrafficUsage)
        → All (λ s. is_series_of gate_id boot_id r s ≡ false) db.samples
        → find? (is_target gate_id r.assignment_id) db.assignments ≡ some a
        → row TrafficUsage.session_id a.session_id db.usages ≡ some u
        → let db' = record_gate_assignment_counter gate_id (some boot_id) r db in
          IsLast gate_id boot_id r db'.samples
          × (db'.assignments ≡ db.assignments)
          × (row TrafficUsage.session_id a.session_id db'.usages ≡ some u)
    unfolding record_gate_assignment_counter add_usage
    record_first r db a u fresh target there =
        let previous =
          latest-none (λ s. is_series_of gate_id boot_id r s && ltb s.sampled_at r.sampled_at)
            db.samples (All-map _ _ (λ s off. ground (arith, off)) db.samples fresh) in
        let free =
          any-none (λ s. is_series_of gate_id boot_id r s && s.sampled_at == r.sampled_at)
            db.samples (All-map _ _ (λ s off. ground (arith, off)) db.samples fresh) in
        let nothing : to_bytes r - to_bytes r + (from_bytes r - from_bytes r) ≡ 0 = omega arith in
        let after =
          row-update_where TrafficUsage.session_id a.session_id a.session_id
            (with_bytes (added r r)) (λ x. refl) db.usages in
        let older : All
            (λ s.
              is_series gate_id boot_id r.assignment_id r.generation s ≡ true
              → s.sampled_at < r.sampled_at)
            db.samples =
          All-map _ _ (λ s off of. ground (arith, off, of)) db.samples fresh in
        rw (record_gate_assignment_counter, target, named, free, previous)
          (
            record { before = db.samples; eq = refl; older = older },
            refl,
            elim (Bool-cases (is_egress r.role)) [
              | inl at_egress ↦ rw at_egress (ground (arith, after, there, nothing))
              | inr not_egress ↦ rw not_egress there
            ],
          )

    -- A gate that reports the counters of one assignment after each other, from the first report of a series on
    -- and at the egress, adds to the traffic of its session what the counters grew by, in both directions, from
    -- the first report to the last: whatever was counted before the first is not charged, and nothing is charged
    -- twice. The counters do not fall within a series, which a restart of the gate ends.
    pub record_counters_lem :
        (r : CounterReport) (rs : List CounterReport) (db : UsageDb) (a : Assignment)
        (u : TrafficUsage)
        → All (λ s. is_series_of gate_id boot_id r s ≡ false) db.samples
        → Ascends r rs
        → find? (is_target gate_id r.assignment_id) db.assignments ≡ some a
        → row TrafficUsage.session_id a.session_id db.usages ≡ some u
        → let n =
            (to_bytes (last_of r rs) - to_bytes r) + (from_bytes (last_of r rs) - from_bytes r) in
          row TrafficUsage.session_id a.session_id
            (record_counters gate_id boot_id (r ∷ rs) db).usages
          ≡ some (record u { consumed_bytes = u.consumed_bytes + n })
    record_counters_lem r rs db a u fresh asc target there =
        let (last, kept, same) = record_first r db a u fresh target there in
        record_counters-row r rs (record_gate_assignment_counter gate_id (some boot_id) r db) a u
          asc last (rw kept target) same
