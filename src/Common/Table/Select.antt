-- ===== src/Common/Table/Select.antt =====
-- The rows that a query with WHERE and LIMIT returns.
use z_wireguard_vpn.Common.Table.{row, row-find?}
use z_wireguard_vpn.Common.Lists.{All, count, find?, filter, take}
use z_wireguard_vpn.Common.Tests.{◌==◌, Bool-cases}
use Prim.Native.Nat.{ℕ, zero, suc, ◌≤◌}
use mathlib.Core.Path.{◌≡◌, refl}
use mathlib.Core.Logic.{◌≢◌, inl, inr}
use mathlib.Core.Bool.{Bool, true, ◌&&◌}
use mathlib.Core.Option.{some, none}
use mathlib.Core.List.{List, [], ◌∷◌}
use native.Mathlib.Omega.{arith}

module _ {A : Type 0} where
  pub find?-filter :
      (q p : A → Bool) (xs : List A) → find? q (filter p xs) ≡ find? (λ x. q x && p x) xs
  find?-filter q p [] = refl
  find?-filter q p (x ∷ xs) = ground (arith, find?-filter q p xs)

  find?-take :
      (q : A → Bool) (n : ℕ) (xs : List A) {x : A}
      → find? q (take n xs) ≡ some x
      → find? q xs ≡ some x
  find?-take q zero xs e = cc
  find?-take q (suc n) [] e = cc
  find?-take q (suc n) (y ∷ xs) {x} e = ground (arith, find?-take q n xs {x = x})

  pub count-filter : (q p : A → Bool) (xs : List A) → count q (filter p xs) ≤ count q xs
  count-filter q p [] = omega arith
  count-filter q p (x ∷ xs) = ground (arith, count-filter q p xs)

  count-take : (q : A → Bool) (n : ℕ) (xs : List A) → count q (take n xs) ≤ count q xs
  count-take q zero xs = omega arith
  count-take q (suc n) [] = omega arith
  count-take q (suc n) (x ∷ xs) = ground (arith, count-take q n xs)

  pub count-select :
      (q p : A → Bool) (n : ℕ) (xs : List A) → count q (take n (filter p xs)) ≤ count q xs
  count-select q p n xs =
      let filtered = count-filter q p xs in
      let taken = count-take q n (filter p xs) in omega (arith, filtered, taken)

  pub find?-count_zero : (q : A → Bool) (xs : List A) → count q xs ≡ 0 → find? q xs ≡ none
  find?-count_zero q [] c = refl
  find?-count_zero q (x ∷ xs) c = ground (arith, find?-count_zero q xs)

module _ {A : Type 0} (key : A → ℕ) where
  -- Where the key is unique, a row that a query returns is the row of its key and passes the test.
  pub row-select :
      (k : ℕ) (p : A → Bool) (n : ℕ) (xs : List A) {x : A}
      → count (λ y. key y == k) xs ≤ 1
      → row key k (take n (filter p xs)) ≡ some x
      → (row key k xs ≡ some x) × (p x ≡ true)
  row-select k p n xs unique e =
      let found = find?-take (λ y. key y == k) n (filter p xs) e in
      let both = find?-filter (λ y. key y == k) p xs in row-find? key k p xs unique (ground arith)

module _ {ℓ} {A : Type 0} (P : A → Type ℓ) where
  pub All-filter :
      (p : A → Bool) (xs : List A) → All P xs → All (λ x. P x × (p x ≡ true)) (filter p xs)
  All-filter p [] h = tt
  All-filter p (x ∷ xs) h = elim (Bool-cases (p x)) [
    | inl passes ↦ rw passes ((h.0, passes), All-filter p xs h.1)
    | inr fails ↦ rw fails (All-filter p xs h.1)
  ]

  All-take : (n : ℕ) (xs : List A) → All P xs → All P (take n xs)
  All-take zero xs h = tt
  All-take (suc n) [] h = tt
  All-take (suc n) (x ∷ xs) h = (h.0, All-take n xs h.1)

module _ {ℓ} {A : Type 0} (P : A → Type ℓ) where
  -- What holds of all rows holds of those that a query returns, and they pass its test.
  pub All-select :
      (p : A → Bool) (n : ℕ) (xs : List A)
      → All P xs
      → All (λ x. P x × (p x ≡ true)) (take n (filter p xs))
  All-select p n xs h = All-take (λ x. P x × (p x ≡ true)) n (filter p xs) (All-filter P p xs h)

module _ {A : Type 0} (key : A → ℕ) where
  -- No two rows of a list have the same key.
  abbrev pub Distinct : List A → Type 0
  Distinct [] = Unit
  Distinct (x ∷ xs) = All (λ y. key y ≢ key x) xs × Distinct xs

  All-ne : (k : ℕ) (xs : List A) → count (λ y. key y == k) xs ≡ 0 → All (λ y. key y ≢ k) xs
  All-ne k [] c = tt
  All-ne k (x ∷ xs) c = ((λ e. ground (arith, e)), All-ne k xs (ground arith))

  pub Distinct-of_unique : (xs : List A) → ((k : ℕ) → count (λ y. key y == k) xs ≤ 1) → Distinct xs
  Distinct-of_unique [] h = tt
  Distinct-of_unique (x ∷ xs) h = (
    All-ne (key x) xs (let c = h (key x) in ground (arith, c)),
    Distinct-of_unique xs (λ k. let c = h k in omega (arith, c)),
  )

  -- Every row is found by its key.
  pub All-there : (xs : List A) → All (λ x. row key (key x) xs ≢ none) xs
  All-there [] = tt
  All-there (x ∷ xs) = ((λ e. ground (arith, e)), All-weaken xs xs (All-there xs))
    where
      All-weaken :
          (ys zs : List A)
          → All (λ y. row key (key y) zs ≢ none) ys
          → All (λ y. row key (key y) (x ∷ zs) ≢ none) ys
      All-weaken [] zs h = tt
      All-weaken (y ∷ ys) zs h = ((λ e. h.0 (ground (arith, e))), All-weaken ys zs h.1)
