-- ===== src/Common/Json.antt =====
-- JSON values (`Record<string, unknown>`, jsonb columns), and the readers that the sources repeat:
-- a key of an object, and a text that is trimmed.
use Prim.Native.Char.{Char, code}
use mathlib.Core.List.{List, [], ◌∷◌, reverse}
use mathlib.Core.Bool.{Bool, ◌||◌, ◌&&◌}
use mathlib.Core.Option.{Option, none, some}
use Prim.Native.Nat.{ℕ}
use Prim.Native.String.{String}
use text.Mathlib.Text.{◌==◌ as str_eq}
use z_wireguard_vpn.Common.Tests.{leb, ◌==◌, if◌then◌else◌}

mutual
  pub data Json : Type 0 where
    null : Json
    bool : Bool → Json
    num : ℕ → Json
    str : String → Json
    arr : Items → Json
    obj : Fields → Json

  pub data Items : Type 0 where
    nil : Items
    cons : Json → Items → Items

  pub data Fields : Type 0 where
    end : Fields
    field : String → Json → Fields → Fields

abbrev pub find_field : String → Fields → Option Json
find_field k end = none
find_field k (field j v fs) = if str_eq j k then some v else find_field k fs

-- `record[key]`, where the record is an object.
abbrev pub get : Json → String → Option Json
get (obj fs) k = find_field k fs
get _ k = none

-- White space as `String.prototype.trim` takes it.
abbrev pub is_space : ℕ → Bool
is_space c =
    (leb 9 c && leb c 13)
    || c == 32
    || c == 160
    || c == 5760
    || (leb 8192 c && leb c 8202)
    || c == 8232
    || c == 8233
    || c == 8239
    || c == 8287
    || c == 12288
    || c == 65279

unfoldable pub chars : String → List Char
chars String.[] = []
chars (String.◌∷◌ c s) = c ∷ chars s

unfoldable pub to_text : List Char → String
to_text [] = String.[]
to_text (c ∷ cs) = String.◌∷◌ c (to_text cs)

drop_space : List Char → List Char
drop_space [] = []
drop_space (c ∷ cs) = if is_space (code c) then drop_space cs else c ∷ cs

unfoldable pub trim : String → String
unfolding chars to_text drop_space
trim s = to_text (reverse (drop_space (reverse (drop_space (chars s)))))

-- `typeof value === "string" ? value.trim() : ""`, at a key of a record.
unfoldable pub read_string : Json → String → String
unfolding trim
read_string r k = elim (get r k) [ some v ↦ elim v [ str s ↦ trim s | _ ↦ "" ] | none ↦ "" ]
