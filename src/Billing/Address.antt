-- ===== src/Billing/Address.antt =====
-- Solana public keys: packages/control-plane/src/application/billing/solana-address.ts. A byte list
-- is the array of the source, the least significant byte first, before its final `reverse`.
use Prim.Native.Char.{code}
use z_wireguard_vpn.Common.{
  ℕ, zero, suc, ◌+◌, ◌*◌, ◌/◌, ◌%◌, Bool, ◌&&◌, not, Option, none, some, String, List, [], ◌∷◌,
  ◌++◌, ◌==◌, if◌then◌else◌, length, any,
}
use z_wireguard_vpn.Common.Json.{chars, trim}
use mathlib.Core.List.{map}

-- `alphabet.indexOf(char)`.
abbrev index_from : ℕ → ℕ → List ℕ → Option ℕ
index_from i c [] = none
index_from i c (a ∷ as') = if a == c then some i else index_from (i + 1) c as'

abbrev pub codes : String → List ℕ
codes s = map code (chars s)

unfoldable pub base58_index : ℕ → Option ℕ
unfolding chars
base58_index c = index_from 0 c (codes "123456789ABCDEFGHJKLMNPQRSTUVWXYZabcdefghijkmnopqrstuvwxyz")

-- The inner loop, which leaves the bytes and the carry.
unfoldable pub multiply_add : List ℕ → ℕ → List ℕ × ℕ
multiply_add [] carry = ([], carry)
multiply_add (b ∷ bs) carry =
    let next = b * 58 + carry in
    let (rest, carry') = multiply_add bs (next / 256) in (next % 256 ∷ rest, carry')

-- `while (carry > 0)`; a carry is its own fuel, as each round divides it by 256.
unfoldable pub push_carry : ℕ → ℕ → List ℕ
push_carry zero carry = []
push_carry (suc fuel) carry =
    let rest = push_carry fuel (carry / 256) in if carry == 0 then [] else carry % 256 ∷ rest

unfoldable pub push_digit : List ℕ → ℕ → List ℕ
unfolding multiply_add push_carry
push_digit bytes digit =
    let (bytes', carry) = multiply_add bytes digit in bytes' ++ push_carry carry carry

unfoldable pub decode_digits : List ℕ → List ℕ → Option (List ℕ)
unfolding push_digit base58_index
decode_digits bytes [] = some bytes
decode_digits bytes (c ∷ cs) = elim (base58_index c) [
  | none ↦ none
  | some digit ↦ decode_digits (push_digit bytes digit) cs
]

-- A zero byte for each leading `1`, but not for the last character.
unfoldable pub leading_zeros : List ℕ → List ℕ
leading_zeros [] = []
leading_zeros (c ∷ []) = []
leading_zeros (c ∷ d ∷ cs) = if c == b'1' then 0 ∷ leading_zeros (d ∷ cs) else []

unfoldable pub decode_base58 : List ℕ → Option (List ℕ)
unfolding decode_digits leading_zeros
decode_base58 value = elim (decode_digits (0 ∷ []) value) [
  | none ↦ none
  | some bytes ↦ some (bytes ++ leading_zeros value)
]

abbrev pub is_public_key : List ℕ → Bool
is_public_key bytes = length bytes == 32 && any (λ b. not (b == 0)) bytes

-- The empty text stands for an invalid key, here `none`.
unfoldable pub normalize_solana_public_key : String → Option String
unfolding decode_base58 trim chars
normalize_solana_public_key value =
    let public_key = trim value in
    elim (decode_base58 (codes public_key)) [
      | none ↦ none
      | some bytes ↦ if is_public_key bytes then some public_key else none
    ]
