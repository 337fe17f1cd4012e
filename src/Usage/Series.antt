-- ===== src/Usage/Series.antt =====
-- The samples of a series of reports, which its last report finds.
use text.Mathlib.TextPositions.{eq_refl}
use z_wireguard_vpn.Common.{
  ℕ, ◌≤◌, ◌<◌, ◌≡◌, refl, Bool, true, false, ◌&&◌, none, some, String, List, [], ◌∷◌, ◌++◌, ◌==◌,
  ltb, All, any, arith, inl, inr, Bool-cases,
}
use z_wireguard_vpn.Common.Int.{pos_part}
use z_wireguard_vpn.Assignment.{egress}
use z_wireguard_vpn.Usage.{
  CounterReport, CounterSample, is_series, is_series_of, latest, new_sample,
}

abbrev pub to_bytes : CounterReport → ℕ
to_bytes r = pos_part r.values.forwarded_to_destination_bytes

abbrev pub from_bytes : CounterReport → ℕ
from_bytes r = pos_part r.values.forwarded_from_destination_bytes

-- A report of the egress that comes later than another one of its series, with counters that did not
-- fall.
pub record Continues (r next : CounterReport) : Type 0 where
  pub assignment : next.assignment_id ≡ r.assignment_id
  pub generation : next.generation ≡ r.generation
  pub at_egress : next.role ≡ egress
  pub later : r.sampled_at < next.sampled_at
  pub to_grows : to_bytes r ≤ to_bytes next
  pub from_grows : from_bytes r ≤ from_bytes next

abbrev pub Ascends : CounterReport → List CounterReport → Type 0
Ascends r [] = Unit
Ascends r (next ∷ rs) = Continues r next × Ascends next rs

abbrev pub last_of : CounterReport → List CounterReport → CounterReport
last_of r [] = r
last_of r (next ∷ rs) = last_of next rs

pub last_of-grows :
    (r : CounterReport) (rs : List CounterReport)
    → Ascends r rs
    → (to_bytes r ≤ to_bytes (last_of r rs)) × (from_bytes r ≤ from_bytes (last_of r rs))
last_of-grows r [] asc = (omega arith, omega arith)
last_of-grows r (next ∷ rs) asc =
    let c = asc.0 in
    let ih = last_of-grows next rs asc.1 in
    (omega (arith, c.to_grows, ih), omega (arith, c.from_grows, ih))

pub latest-append :
    (p : CounterSample → Bool) (ss : List CounterSample) (l : CounterSample)
    → p l ≡ true
    → All (λ s. p s ≡ true → s.sampled_at < l.sampled_at) ss
    → latest p (ss ++ l ∷ []) ≡ some l
unfolding latest
latest-append p [] l passes older = ground arith
latest-append p (s ∷ ss) l passes older =
    ground (arith, latest-append p ss l passes older.1, older.0)

pub latest-none :
    (p : CounterSample → Bool) (ss : List CounterSample)
    → All (λ s. p s ≡ false) ss
    → latest p ss ≡ none
unfolding latest
latest-none p [] h = refl
latest-none p (s ∷ ss) h = ground (arith, h.0, latest-none p ss h.1)

pub any-none :
    (p : CounterSample → Bool) (ss : List CounterSample)
    → All (λ s. p s ≡ false) ss
    → any p ss ≡ false
any-none p [] h = refl
any-none p (s ∷ ss) h = ground (arith, h.0, any-none p ss h.1)

module _ (gate_id : ℕ) (boot_id : String) where
  -- The last sample of the table is that of a report, and the others of its series are older.
  pub record IsLast (r : CounterReport) (samples : List CounterSample) : Type 0 where
    pub before : List CounterSample
    pub eq : samples ≡ before ++ new_sample gate_id boot_id r ∷ []
    pub older :
        All
          (λ s.
            is_series gate_id boot_id r.assignment_id r.generation s ≡ true
            → s.sampled_at < r.sampled_at)
          before

  pub new-in_series :
      (r : CounterReport)
      → is_series gate_id boot_id r.assignment_id r.generation (new_sample gate_id boot_id r) ≡ true
  new-in_series r = let e = eq_refl boot_id in ground (arith, e)

  pub older-not_at :
      (r next : CounterReport) (ss : List CounterSample)
      → Continues r next
      → All
          (λ s.
            is_series gate_id boot_id r.assignment_id r.generation s ≡ true
            → s.sampled_at < r.sampled_at)
          ss
      → All
          (λ s. (is_series_of gate_id boot_id next s && s.sampled_at == next.sampled_at) ≡ false)
          ss
  older-not_at r next [] c h = tt
  older-not_at r next (s ∷ ss) c h =
      let later = c.later in
      let a = c.assignment in
      let g = c.generation in
      let same : is_series_of gate_id boot_id next s
          ≡ is_series gate_id boot_id r.assignment_id r.generation s =
        rw (a, g) refl in
      (
        elim (Bool-cases (is_series gate_id boot_id r.assignment_id r.generation s)) [
          | inl of ↦ let old = h.0 of in ground (arith, same, old, later)
          | inr differs ↦ ground (arith, same, differs)
        ],
        older-not_at r next ss c h.1,
      )

  pub older-previous :
      (r next : CounterReport) (ss : List CounterSample)
      → Continues r next
      → All
          (λ s.
            is_series gate_id boot_id r.assignment_id r.generation s ≡ true
            → s.sampled_at < r.sampled_at)
          ss
      → All
          (λ s.
            (is_series_of gate_id boot_id next s && ltb s.sampled_at next.sampled_at) ≡ true
            → s.sampled_at < r.sampled_at)
          ss
  older-previous r next [] c h = tt
  older-previous r next (s ∷ ss) c h =
      let a = c.assignment in
      let g = c.generation in
      let same : is_series_of gate_id boot_id next s
          ≡ is_series gate_id boot_id r.assignment_id r.generation s =
        rw (a, g) refl in
      ((λ of. h.0 (ground (arith, same))), older-previous r next ss c h.1)

  pub older-next :
      (r next : CounterReport) (ss : List CounterSample)
      → Continues r next
      → All
          (λ s.
            is_series gate_id boot_id r.assignment_id r.generation s ≡ true
            → s.sampled_at < r.sampled_at)
          ss
      → All (λ s. is_series_of gate_id boot_id next s ≡ true → s.sampled_at < next.sampled_at) ss
  older-next r next [] c h = tt
  older-next r next (s ∷ ss) c h =
      let a = c.assignment in
      let g = c.generation in
      let later = c.later in
      let same : is_series_of gate_id boot_id next s
          ≡ is_series gate_id boot_id r.assignment_id r.generation s =
        rw (a, g) refl in
      (
        (λ of. let old = h.0 (ground (arith, same)) in omega (arith, old, later)),
        older-next r next ss c h.1,
      )
