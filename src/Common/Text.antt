-- ===== src/Common/Text.antt =====
-- Texts by their code points, and the lower case of them. Only the letters of ASCII change: the names
-- of places that the sources compare are in ASCII.
use Prim.Native.Char.{code}
use Prim.Native.Nat.{ℕ, ◌+◌}
use Prim.Native.String.{String}
use mathlib.Core.Bool.{Bool, true, false, ◌&&◌}
use mathlib.Core.List.{List, [], ◌∷◌, map}
use z_wireguard_vpn.Common.Tests.{leb, ◌==◌, if◌then◌else◌}

abbrev pub codes : String → List ℕ
codes String.[] = []
codes (String.◌∷◌ c s) = code c ∷ codes s

abbrev pub to_lower : ℕ → ℕ
to_lower c = if leb b'A' c && leb c b'Z' then c + 32 else c

abbrev pub lower : String → List ℕ
lower s = map to_lower (codes s)

abbrev pub same_codes : List ℕ → List ℕ → Bool
same_codes [] [] = true
same_codes (x ∷ xs) (y ∷ ys) = x == y && same_codes xs ys
same_codes _ _ = false

-- `split_part(…, separator, 1)` and what follows the separator.
abbrev pub before_first : ℕ → List ℕ → List ℕ
before_first c [] = []
before_first c (x ∷ xs) = if x == c then [] else x ∷ before_first c xs

abbrev pub after_first : ℕ → List ℕ → List ℕ
after_first c [] = []
after_first c (x ∷ xs) = if x == c then xs else after_first c xs
