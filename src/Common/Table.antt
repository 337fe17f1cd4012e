-- ===== src/Common/Table.antt =====
-- A database table as the list of its rows: UPDATE, the rows that a SELECT returns, and what an
-- update of some rows does to a predicate or a count over all of them.
pub mod Sums
pub mod Select
pub mod Drain
pub mod Find
use mathlib.Core.List.{List, [], ◌∷◌, ◌++◌}
use mathlib.Core.Path.{◌≡◌, refl, subst}
use mathlib.Core.Bool.{Bool, true, false, ◌&&◌}
use mathlib.Core.Logic.{◌≢◌, inl, inr}
use mathlib.Core.Option.{Option, none, some}
use Prim.Native.Nat.{ℕ, ◌+◌, ◌≤◌, ◌<◌}
use native.Mathlib.Omega.{arith}
use z_wireguard_vpn.Common.Tests.{if◌then◌else◌, ◌==◌, map_option, Bool-cases}
use z_wireguard_vpn.Common.Lists.{All, find?, count}

module _ {ℓ} {A : Type ℓ} where
  -- `UPDATE table SET … WHERE p`.
  abbrev pub update_where : (A → Bool) → (A → A) → List A → List A
  update_where p f [] = []
  update_where p f (x ∷ xs) = (if p x then f x else x) ∷ update_where p f xs

  -- What every updated row satisfies, and every row that is left alone, all rows satisfy.
  pub All-update_where {κ ι} :
      (P : A → Type κ) (Q : A → Type ι) (p : A → Bool) (f : A → A)
      → ((x : A) → p x ≡ true → P x → Q (f x))
      → ((x : A) → p x ≡ false → P x → Q x)
      → (xs : List A) → All P xs
      → All Q (update_where p f xs)
  All-update_where P Q p f hit miss [] h = tt
  All-update_where P Q p f hit miss (x ∷ xs) h =
      let rest = All-update_where P Q p f hit miss xs h.1 in
      elim (Bool-cases (p x)) [
        | inl e ↦ rw e (hit x e h.0, rest)
        | inr e ↦ rw e (miss x e h.0, rest)
      ]

  -- A row that `find?` returns satisfies the test, and whatever holds of all rows.
  pub find?-All {κ} :
      (P : A → Type κ) (p : A → Bool) (xs : List A) {x : A}
      → All P xs
      → find? p xs ≡ some x
      → P x × (p x ≡ true)
  find?-All P p [] h e = cc
  find?-All P p (y ∷ xs) {x} h e = elim (Bool-cases (p y)) [
    | inl t ↦ let same : y ≡ x = ground arith in subst (λ z. P z × (p z ≡ true)) same (h.0, t)
    | inr f ↦ find?-All P p xs h.1 (rw f at e)
  ]

  pub All-Unit : (xs : List A) → All (λ x. Unit {0}) xs
  All-Unit [] = tt
  All-Unit (x ∷ xs) = (tt, All-Unit xs)

  pub All-append {κ} : (P : A → Type κ) (xs ys : List A) → All P xs → All P ys → All P (xs ++ ys)
  All-append P [] ys hx hy = hy
  All-append P (x ∷ xs) ys hx hy = (hx.0, All-append P xs ys hx.1 hy)

  pub All-map {κ ι} :
      (P : A → Type κ) (Q : A → Type ι)
      → ((x : A) → P x → Q x)
      → (xs : List A) → All P xs
      → All Q xs
  All-map P Q f [] h = tt
  All-map P Q f (x ∷ xs) h = (f x h.0, All-map P Q f xs h.1)

  pub count-append : (p : A → Bool) (xs ys : List A) → count p (xs ++ ys) ≡ count p xs + count p ys
  count-append p [] ys = omega arith
  count-append p (x ∷ xs) ys = omega (arith, count-append p xs ys)

  -- An update that turns no row into a counted one does not raise the count.
  pub count-update_where_le :
      (q p : A → Bool) (f : A → A)
      → ((x : A) → p x ≡ true → q (f x) ≡ true → q x ≡ true)
      → (xs : List A) → count q (update_where p f xs) ≤ count q xs
  count-update_where_le q p f keep [] = omega arith
  count-update_where_le q p f keep (x ∷ xs) =
      ground (arith, keep x, count-update_where_le q p f keep xs)

module _ {ℓ} {A : Type ℓ} (key : A → ℕ) where
  -- `SELECT … WHERE key = k`: the first such row.
  abbrev pub row : ℕ → List A → Option A
  row k xs = find? (λ x. key x == k) xs

  -- An update of the rows with one key is seen at that key and nowhere else.
  pub row-update_where :
      (k j : ℕ) (f : A → A)
      → ((x : A) → key (f x) ≡ key x)
      → (xs : List A)
      → row j (update_where (λ x. key x == k) f xs)
        ≡ (if k == j then map_option f (row j xs) else row j xs)
  row-update_where k j f same [] = ground arith
  row-update_where k j f same (x ∷ xs) = ground (arith, same x, row-update_where k j f same xs)

  -- A further test that the row with a key passes does not change what is found.
  pub find?-row :
      (k : ℕ) (p : A → Bool) (xs : List A) {x : A}
      → row k xs ≡ some x
      → p x ≡ true
      → find? (λ y. key y == k && p y) xs ≡ some x
  find?-row k p [] e t = cc
  find?-row k p (y ∷ xs) {x} e t = ground (arith, find?-row k p xs {x = x})

  -- An update that keeps the keys changes the row that is found.
  pub row-update_any :
      (k : ℕ) (p : A → Bool) (f : A → A)
      → ((x : A) → key (f x) ≡ key x)
      → (xs : List A)
      → row k (update_where p f xs) ≡ map_option (λ x. if p x then f x else x) (row k xs)
  row-update_any k p f same [] = refl
  row-update_any k p f same (x ∷ xs) = ground (arith, same x, row-update_any k p f same xs)

  pub row_key : (k : ℕ) (xs : List A) {x : A} → row k xs ≡ some x → key x ≡ k
  row_key k [] e = cc
  row_key k (y ∷ xs) {x} e = ground (arith, row_key k xs {x = x})

  pub find?-none_of_count :
      (k : ℕ) (p : A → Bool) (xs : List A)
      → count (λ y. key y == k) xs ≡ 0
      → find? (λ y. key y == k && p y) xs ≡ none
  find?-none_of_count k p [] c = refl
  find?-none_of_count k p (y ∷ xs) c = ground (arith, find?-none_of_count k p xs)

  -- Where the key is unique, a row that fails the further test is not found at all.
  pub find?-row-none :
      (k : ℕ) (p : A → Bool) (xs : List A) {x : A}
      → count (λ y. key y == k) xs ≤ 1
      → row k xs ≡ some x
      → p x ≡ false
      → find? (λ y. key y == k && p y) xs ≡ none
  find?-row-none k p [] c e f = refl
  find?-row-none k p (y ∷ xs) {x} c e f =
      ground (arith, find?-none_of_count k p xs, find?-row-none k p xs {x = x})

  pub row-update_where_ne :
      (k j : ℕ) (p : A → Bool) (f : A → A)
      → ((x : A) → key (f x) ≡ key x)
      → (xs : List A) → k ≢ j
      → row j (update_where (λ x. key x == k && p x) f xs) ≡ row j xs
  row-update_where_ne k j p f same [] ne = refl
  row-update_where_ne k j p f same (y ∷ xs) ne =
      ground (arith, same y, row-update_where_ne k j p f same xs)

  -- Where the key is unique, the row that passes a further test is the row of the key.
  pub row-find? :
      (k : ℕ) (p : A → Bool) (xs : List A) {x : A}
      → count (λ y. key y == k) xs ≤ 1
      → find? (λ y. key y == k && p y) xs ≡ some x
      → (row k xs ≡ some x) × (p x ≡ true)
  row-find? k p [] c e = cc
  row-find? k p (y ∷ xs) {x} c e =
      ground (arith, find?-none_of_count k p xs, row-find? k p xs {x = x})

  -- An update that keeps the keys keeps their counts.
  pub count-update_where_key :
      (k : ℕ) (p : A → Bool) (f : A → A)
      → ((x : A) → key (f x) ≡ key x)
      → (xs : List A) → count (λ x. key x == k) (update_where p f xs) ≡ count (λ x. key x == k) xs
  count-update_where_key k p f same [] = omega arith
  count-update_where_key k p f same (x ∷ xs) =
      ground (arith, same x, count-update_where_key k p f same xs)

  -- No row has a key that is above all keys.
  pub count-fresh : (n : ℕ) (xs : List A) → All (λ x. key x < n) xs → count (λ x. key x == n) xs ≡ 0
  count-fresh n [] h = omega arith
  count-fresh n (x ∷ xs) h = ground (arith, count-fresh n xs h.1)

module _ {A : Type 0} (key : A → ℕ) where
  -- An update of the rows with one key that pass a further test, where the row found passes it.
  pub row-update_where_and :
      (k j : ℕ) (p : A → Bool) (f : A → A)
      → ((x : A) → key (f x) ≡ key x)
      → (xs : List A) {x : A} → row key k xs ≡ some x
      → p x ≡ true
      → row key j (update_where (λ y. key y == k && p y) f xs)
        ≡ (if k == j then some (f x) else row key j xs)
  row-update_where_and k j p f same [] e t = cc
  row-update_where_and k j p f same (y ∷ xs) {x} e t = ground (
    arith,
    same y,
    row-update_where_ne key k j p f same xs,
    row-update_where_and k j p f same xs {x = x},
  )
