-- ===== src/Common/Table/Sums.antt =====
-- What an update of rows does to a sum over the table.
use z_wireguard_vpn.Common.Table.{update_where, row}
use z_wireguard_vpn.Common.Lists.{sum_by, count}
use z_wireguard_vpn.Common.Tests.{◌==◌}
use Prim.Native.Nat.{ℕ, ◌+◌, ◌≤◌}
use mathlib.Core.Path.{◌≡◌}
use mathlib.Core.Bool.{Bool, true}
use mathlib.Core.Option.{some}
use mathlib.Core.List.{List, [], ◌∷◌, ◌++◌}
use native.Mathlib.Omega.{arith}

module _ {A : Type 0} (weight : A → ℕ) where
  pub sum_by-append :
      (xs ys : List A) → sum_by weight (xs ++ ys) ≡ sum_by weight xs + sum_by weight ys
  sum_by-append [] ys = omega arith
  sum_by-append (x ∷ xs) ys = omega (arith, sum_by-append xs ys)

  -- An update that keeps the weight of every row that it hits keeps the sum.
  pub sum_by-update_where_same :
      (p : A → Bool) (f : A → A)
      → ((x : A) → p x ≡ true → weight (f x) ≡ weight x)
      → (xs : List A) → sum_by weight (update_where p f xs) ≡ sum_by weight xs
  sum_by-update_where_same p f same [] = omega arith
  sum_by-update_where_same p f same (x ∷ xs) =
      ground (arith, same x, sum_by-update_where_same p f same xs)

module _ {A : Type 0} (key : A → ℕ) (weight : A → ℕ) where
  pub sum_by-update_where_none :
      (k : ℕ) (f : A → A) (xs : List A)
      → count (λ x. key x == k) xs ≡ 0
      → sum_by weight (update_where (λ x. key x == k) f xs) ≡ sum_by weight xs
  sum_by-update_where_none k f [] c = omega arith
  sum_by-update_where_none k f (x ∷ xs) c = ground (arith, sum_by-update_where_none k f xs)

  -- An update of the one row with a key exchanges that row's weight.
  pub sum_by-update_where :
      (k : ℕ) (f : A → A) (xs : List A) {x : A}
      → count (λ y. key y == k) xs ≤ 1
      → row key k xs ≡ some x
      → sum_by weight (update_where (λ y. key y == k) f xs) + weight x
        ≡ sum_by weight xs + weight (f x)
  sum_by-update_where k f [] c e = cc
  sum_by-update_where k f (y ∷ xs) {x} c e =
      ground (arith, sum_by-update_where_none k f xs, sum_by-update_where k f xs {x = x})

  pub le-sum_by :
      (k : ℕ) (xs : List A) {x : A} → row key k xs ≡ some x → weight x ≤ sum_by weight xs
  le-sum_by k [] e = cc
  le-sum_by k (y ∷ xs) {x} e = ground (arith, le-sum_by k xs {x = x})
