-- ===== src/Gate/Selection.antt =====
-- Which gate is selected: one that passes, and none that passes weighs more.
use z_wireguard_vpn.Common.{
  ◌≡◌, ◌⊎◌, refl, Bool, true, false, none, some, List, [], ◌∷◌, All, arith, inl, inr, Option-cases,
  Bool-cases,
}
use z_wireguard_vpn.Common.Int.{◌≤ℤ◌}
use z_wireguard_vpn.Gate.Store.{Gate, first_gate, comes_first}

-- The gate is one of a list.
abbrev pub Among : Gate → List Gate → Type 0
Among g [] = ⊥
Among g (h ∷ hs) = (g ≡ h) ⊎ Among g hs

-- A gate of the list that passes, and that weighs at least as much as each that passes.
pub record IsBest (p : Gate → Bool) (gates : List Gate) (g : Gate) : Type 0 where
  pub among : Among g gates
  pub passes : p g ≡ true
  pub heaviest : All (λ h. p h ≡ true → h.scheduling_weight ≤ℤ g.scheduling_weight) gates

All-lighter :
    (p : Gate → Bool) (g h : Gate) (gates : List Gate)
    → g.scheduling_weight ≤ℤ h.scheduling_weight
    → All (λ x. p x ≡ true → x.scheduling_weight ≤ℤ g.scheduling_weight) gates
    → All (λ x. p x ≡ true → x.scheduling_weight ≤ℤ h.scheduling_weight) gates
All-lighter p g h [] le a = tt
All-lighter p g h (x ∷ xs) le a =
    ((λ t. let b = a.0 t in omega (arith, le, b)), All-lighter p g h xs le a.1)

pub first_gate-none :
    (p : Gate → Bool) (gates : List Gate) → first_gate p gates ≡ none → All (λ g. p g ≡ false) gates
unfolding first_gate
first_gate-none p [] e = tt
first_gate-none p (g ∷ gs) e = let ih = first_gate-none p gs in (ground arith, ih (ground arith))

All-vacuous :
    (p : Gate → Bool) (g : Gate) (gates : List Gate)
    → All (λ x. p x ≡ false) gates
    → All (λ x. p x ≡ true → x.scheduling_weight ≤ℤ g.scheduling_weight) gates
All-vacuous p g [] a = tt
All-vacuous p g (x ∷ xs) a = ((λ t. let f = a.0 in cc), All-vacuous p g xs a.1)

comes_first-le : (g h : Gate) → comes_first g h ≡ true → h.scheduling_weight ≤ℤ g.scheduling_weight
comes_first-le g h e = ground (arith, e)

not_comes_first-le :
    (g h : Gate) → comes_first g h ≡ false → g.scheduling_weight ≤ℤ h.scheduling_weight
not_comes_first-le g h e = ground (arith, e)

pub first_gate-IsBest :
    (p : Gate → Bool) (gates : List Gate) (g : Gate)
    → first_gate p gates ≡ some g
    → IsBest p gates g
unfolding first_gate
first_gate-IsBest p [] g e = cc
first_gate-IsBest p (h ∷ hs) g e = elim (Bool-cases (p h)) [
  | inr fails ↦
      let ih = first_gate-IsBest p hs g (ground arith) in
      record { among = inr ih.among; passes = ih.passes; heaviest = ((λ t. cc), ih.heaviest) }
  | inl passes ↦ elim (Option-cases (first_gate p hs)) [
    | inl nothing ↦
        let same : h ≡ g = ground arith in
        rw (← same) (record {
          among = inl refl;
          passes = passes;
          heaviest = ((λ t. omega arith), All-vacuous p h hs (first_gate-none p hs nothing));
        })
    | inr (r, found) ↦
        let ih = first_gate-IsBest p hs r found in
        elim (Bool-cases (comes_first h r)) [
          | inl first ↦
              let same : h ≡ g = ground arith in
              rw (← same) (record {
                among = inl refl;
                passes = passes;
                heaviest = (
                  (λ t. omega arith),
                  All-lighter p r h hs (comes_first-le h r first) ih.heaviest,
                );
              })
          | inr later ↦
              let same : r ≡ g = ground arith in
              rw (← same) (record {
                among = inr ih.among;
                passes = ih.passes;
                heaviest = ((λ t. not_comes_first-le h r later), ih.heaviest);
              })
        ]
  ]
]
