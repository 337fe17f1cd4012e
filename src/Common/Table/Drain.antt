-- ===== src/Common/Table/Drain.antt =====
-- A batch of rows that a query returns, each updated so that the query does not return it again.
use z_wireguard_vpn.Common.Table.{row, row-update_where, update_where, count-update_where_key}
use z_wireguard_vpn.Common.Table.Select.{Distinct, Distinct-of_unique, All-select, count-select}
use z_wireguard_vpn.Common.Lists.{All, count, filter, take, length}
use z_wireguard_vpn.Common.Tests.{◌==◌, Bool-cases}
use Prim.Native.Nat.{ℕ, zero, suc, ◌+◌, ◌-◌, ◌≤◌}
use mathlib.Core.Path.{◌≡◌, refl}
use mathlib.Core.Logic.{◌≢◌, inl, inr}
use mathlib.Core.Bool.{Bool, true, false}
use mathlib.Core.Option.{some}
use mathlib.Core.List.{List, [], ◌∷◌}
use native.Mathlib.Omega.{arith}

length-take-filter :
    {A : Type 0} (p : A → Bool) (n : ℕ) (xs : List A)
    → length (take n (filter p xs)) + (count p xs - n) ≡ count p xs
length-take-filter p zero xs = omega arith
length-take-filter p (suc n) [] = omega arith
length-take-filter p (suc n) (x ∷ xs) = elim (Bool-cases (p x)) [
  | inl passes ↦ let ih = length-take-filter p n xs in ground (arith, passes, ih)
  | inr fails ↦ let ih = length-take-filter p (suc n) xs in ground (arith, fails, ih)
]

pub count-length : {A : Type 0} (p : A → Bool) (xs : List A) → count p xs ≤ length xs
count-length p [] = omega arith
count-length p (x ∷ xs) = ground (arith, count-length p xs)

pub length-update_where :
    {A : Type 0} (p : A → Bool) (f : A → A) (xs : List A) → length (update_where p f xs) ≡ length xs
length-update_where p f [] = refl
length-update_where p f (x ∷ xs) = ground (arith, length-update_where p f xs)

module _ {A : Type 0} (key : A → ℕ) where
  -- An update of the row of each key of a list.
  abbrev pub update_each : (A → A → A) → List A → List A → List A
  update_each f [] xs = xs
  update_each f (s ∷ ss) xs = update_each f ss (update_where (λ x. key x == key s) (f s) xs)

  pub count-update_each_key :
      (k : ℕ) (f : A → A → A)
      → ((s x : A) → key (f s x) ≡ key x)
      → (ss xs : List A)
      → count (λ y. key y == k) (update_each f ss xs) ≡ count (λ y. key y == k) xs
  count-update_each_key k f same [] xs = refl
  count-update_each_key k f same (s ∷ ss) xs =
      let ih = count-update_each_key k f same ss (update_where (λ x. key x == key s) (f s) xs) in
      let one = count-update_where_key key k (λ x. key x == key s) (f s) (same s) xs in
      omega (arith, ih, one)

  pub length-update_each :
      (f : A → A → A) (ss xs : List A) → length (update_each f ss xs) ≡ length xs
  length-update_each f [] xs = refl
  length-update_each f (s ∷ ss) xs =
      let ih = length-update_each f ss (update_where (λ x. key x == key s) (f s) xs) in
      let one = length-update_where (λ x. key x == key s) (f s) xs in omega (arith, ih, one)

  update-absent :
      (k : ℕ) (f : A → A) (xs : List A)
      → count (λ x. key x == k) xs ≡ 0
      → update_where (λ x. key x == k) f xs ≡ xs
  update-absent k f [] c = refl
  update-absent k f (x ∷ xs) c = ground (arith, update-absent k f xs)

  All-found_later :
      (x : A) (xs ys : List A)
      → All (λ y. key y ≢ key x) ys
      → All (λ y. row key (key y) xs ≡ some y) ys
      → All (λ y. row key (key y) (x ∷ xs) ≡ some y) ys
  All-found_later x xs [] ne h = tt
  All-found_later x xs (y ∷ ys) ne h = (
    let other = ne.0 in
        let found = h.0 in
        elim (Bool-cases (key x == key y)) [
          | inl same ↦ let e : key y ≡ key x = ground arith in absurd (other e)
          | inr differ ↦ ground (arith, differ, found)
        ],
    All-found_later x xs ys ne.1 h.1,
  )

  pub All-found : (xs : List A) → Distinct key xs → All (λ x. row key (key x) xs ≡ some x) xs
  All-found [] d = tt
  All-found (x ∷ xs) d = (ground arith, All-found_later x xs xs d.0 (All-found xs d.1))

  module _ (p : A → Bool) (f : A → A → A) (same : (s x : A) → key (f s x) ≡ key x)
      (ends : (s x : A) → p (f s x) ≡ false) where
    count-update_one :
        (s : A) (xs : List A)
        → count (λ y. key y == key s) xs ≤ 1
        → row key (key s) xs ≡ some s
        → p s ≡ true
        → count p (update_where (λ x. key x == key s) (f s) xs) + 1 ≡ count p xs
    count-update_one s [] unique found passes = cc
    count-update_one s (x ∷ xs) unique found passes = elim (Bool-cases (key x == key s)) [
      | inl here ↦
          let is : x ≡ s = ground arith in
          let px : p x ≡ true = rw is passes in
          let rest = update-absent (key s) (f s) xs (ground (arith, here)) in
          let ended = ends s x in rw (here, rest, ended, px) (omega arith)
      | inr other ↦
          let ih = count-update_one s xs (ground (arith, other)) (ground (arith, other)) passes in
          elim (Bool-cases (p x)) [
            | inl px ↦ rw (other, px) (omega (arith, ih))
            | inr px ↦ rw (other, px) (omega (arith, ih))
          ]
    ]

    All-kept :
        (s : A) (xs ys : List A)
        → All (λ y. key y ≢ key s) ys
        → All (λ y. (row key (key y) xs ≡ some y) × (p y ≡ true)) ys
        → All
            (λ y.
              (row key (key y) (update_where (λ x. key x == key s) (f s) xs) ≡ some y)
              × (p y ≡ true))
            ys
    All-kept s xs [] ne h = tt
    All-kept s xs (y ∷ ys) ne h = (
      let after = row-update_where key (key s) (key y) (f s) (same s) xs in
          let other = ne.0 in
          let (found, passes) = h.0 in
          elim (Bool-cases (key s == key y)) [
            | inl e ↦ let e' : key y ≡ key s = ground arith in absurd (other e')
            | inr differ ↦ (ground (arith, after, found), passes)
          ],
      All-kept s xs ys ne.1 h.1,
    )

    count-update_each :
        (ss xs : List A)
        → ((k : ℕ) → count (λ y. key y == k) xs ≤ 1)
        → Distinct key ss
        → All (λ y. (row key (key y) xs ≡ some y) × (p y ≡ true)) ss
        → count p (update_each f ss xs) + length ss ≡ count p xs
    count-update_each [] xs unique d h = omega arith
    count-update_each (s ∷ ss) xs unique d h =
        let (found, passes) = h.0 in
        let xs' = update_where (λ x. key x == key s) (f s) xs in
        let one = count-update_one s xs (unique (key s)) found passes in
        let ih =
          count-update_each ss xs'
            (λ k.
              rw (count-update_where_key key k (λ x. key x == key s) (f s) (same s) xs) (unique k))
            d.1 (All-kept s xs ss d.0 h.1) in
        omega (arith, one, ih)

    -- A batch of n rows takes n rows, or all that there are, from those that the query returns.
    pub count-update_batch :
        (n : ℕ) (xs : List A)
        → ((k : ℕ) → count (λ y. key y == k) xs ≤ 1)
        → count p (update_each f (take n (filter p xs)) xs) ≡ count p xs - n
    count-update_batch n xs unique =
        let batch = take n (filter p xs) in
        let distinct = Distinct-of_unique key batch (λ k.
          let c = count-select (λ y. key y == k) p n xs in
          let u = unique k in omega (arith, c, u)) in
        let listed =
          All-select (λ y. row key (key y) xs ≡ some y) p n xs
            (All-found xs (Distinct-of_unique key xs unique)) in
        let moved = count-update_each batch xs unique distinct listed in
        let size = length-take-filter p n xs in omega (arith, moved, size)
