-- ===== src/Common/Table/Find.antt =====
-- What a search finds after an update, with a further test, and in a longer table.
use z_wireguard_vpn.Common.Table.{update_where}
use z_wireguard_vpn.Common.Lists.{find?, any}
use z_wireguard_vpn.Common.Tests.{is_some, map_option, if◌then◌else◌}
use mathlib.Core.Path.{◌≡◌, refl}
use mathlib.Core.Bool.{Bool, true, ◌&&◌}
use mathlib.Core.Option.{none, some}
use mathlib.Core.List.{List, [], ◌∷◌, ◌++◌}
use native.Mathlib.Omega.{arith}

module _ {A : Type 0} where
  -- A further test that the first match passes does not change what is found.
  pub find?-both :
      (p q : A → Bool) (xs : List A) {x : A}
      → find? p xs ≡ some x
      → q x ≡ true
      → find? (λ y. p y && q y) xs ≡ some x
  find?-both p q [] e t = cc
  find?-both p q (y ∷ xs) {x} e t = ground (arith, find?-both p q xs {x = x})

  pub find?-none_both :
      (p q : A → Bool) (xs : List A) → find? p xs ≡ none → find? (λ y. p y && q y) xs ≡ none
  find?-none_both p q [] e = refl
  find?-none_both p q (y ∷ xs) e = ground (arith, find?-none_both p q xs)

  pub find?-append :
      (p : A → Bool) (xs : List A) (y : A)
      → find? p (xs ++ y ∷ [])
        ≡ elim (find? p xs) [ some x ↦ some x | none ↦ if p y then some y else none ]
  find?-append p [] y = ground arith
  find?-append p (x ∷ xs) y = ground (arith, find?-append p xs y)

  -- An update that the test does not see changes what is found.
  pub find?-update_where :
      (p q : A → Bool) (f : A → A)
      → ((x : A) → p (f x) ≡ p x)
      → (xs : List A)
      → find? p (update_where q f xs) ≡ map_option (λ x. if q x then f x else x) (find? p xs)
  find?-update_where p q f same [] = refl
  find?-update_where p q f same (x ∷ xs) = ground (arith, same x, find?-update_where p q f same xs)

  pub find?-holds : (p : A → Bool) (xs : List A) {x : A} → find? p xs ≡ some x → p x ≡ true
  find?-holds p [] e = cc
  find?-holds p (y ∷ xs) {x} e = ground (arith, find?-holds p xs {x = x})

  pub any-find? : (p : A → Bool) (xs : List A) → any p xs ≡ is_some (find? p xs)
  any-find? p [] = refl
  any-find? p (x ∷ xs) = ground (arith, any-find? p xs)
