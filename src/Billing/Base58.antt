-- ===== src/Billing/Base58.antt =====
-- What the base58 decoder of packages/control-plane/src/application/billing/solana-address.ts
-- computes: the bytes of the number that the text writes in base 58.
use z_wireguard_vpn.Common.{
  ℕ, zero, suc, ◌+◌, ◌*◌, ◌/◌, ◌<◌, ◌≤◌, ◌≡◌, refl, Option, none, some, List, [], ◌∷◌, ◌++◌, arith,
  length, All, inl, inr, Option-cases, map_option,
}
use z_wireguard_vpn.Common.Table.{All-append}
use z_wireguard_vpn.Billing.Address.{
  base58_index, multiply_add, push_carry, push_digit, decode_digits, decode_base58, leading_zeros,
}

-- The number that a byte list stands for, the least significant byte first.
abbrev pub byte_value : List ℕ → ℕ
byte_value [] = 0
byte_value (b ∷ bs) = b + 256 * byte_value bs

-- The number that a text writes in base 58 after a number, or nothing at a character of no digit.
unfoldable pub numeral : ℕ → List ℕ → Option ℕ
numeral n [] = some n
numeral n (c ∷ cs) = elim (base58_index c) [
  | none ↦ none
  | some digit ↦ numeral (n * 58 + digit) cs
]

abbrev shift : ℕ → ℕ → ℕ
shift zero v = v
shift (suc n) v = 256 * shift n v

byte_value-append :
    (xs ys : List ℕ) → byte_value (xs ++ ys) ≡ byte_value xs + shift (length xs) (byte_value ys)
byte_value-append [] ys = omega arith
byte_value-append (x ∷ xs) ys = omega (arith, byte_value-append xs ys)

multiply_add-value :
    (bs : List ℕ) (carry : ℕ)
    → let (bs', carry') = multiply_add bs carry in
      (byte_value bs' + shift (length bs') carry' ≡ byte_value bs * 58 + carry)
      × All (λ b. b < 256) bs'
unfolding multiply_add
multiply_add-value [] carry = (omega arith, tt)
multiply_add-value (b ∷ bs) carry =
    let ih = multiply_add-value bs ((b * 58 + carry) / 256) in
    (omega (arith, ih.0), (omega arith, ih.1))

push_carry-value :
    (fuel carry : ℕ)
    → carry ≤ fuel
    → (byte_value (push_carry fuel carry) ≡ carry) × All (λ b. b < 256) (push_carry fuel carry)
unfolding push_carry
push_carry-value zero carry enough = (omega arith, tt)
push_carry-value (suc fuel) carry enough =
    let ih = push_carry-value fuel (carry / 256) (omega arith) in ground (arith, ih)

push_digit-value :
    (bytes : List ℕ) (digit : ℕ)
    → (byte_value (push_digit bytes digit) ≡ byte_value bytes * 58 + digit)
      × All (λ b. b < 256) (push_digit bytes digit)
unfolding push_digit
push_digit-value bytes digit =
    let (bytes', carry) = multiply_add bytes digit in
    let (sum, small) = multiply_add-value bytes digit in
    let (pushed, small') = push_carry-value carry carry (omega arith) in
    (
      rw (byte_value-append bytes' (push_carry carry carry), pushed) sum,
      All-append (λ b. b < 256) bytes' (push_carry carry carry) small small',
    )

decode_digits-value :
    (bytes cs : List ℕ)
    → map_option byte_value (decode_digits bytes cs) ≡ numeral (byte_value bytes) cs
unfolding decode_digits numeral
decode_digits-value bytes [] = refl
decode_digits-value bytes (c ∷ cs) = elim (Option-cases (base58_index c)) [
  | inl bad ↦ ground arith
  | inr (digit, good) ↦
      let value = (push_digit-value bytes digit).0 in
      ground (arith, decode_digits-value (push_digit bytes digit) cs, value)
]

decode_digits-bytes :
    (bytes cs : List ℕ) {out : List ℕ}
    → All (λ b. b < 256) bytes
    → decode_digits bytes cs ≡ some out
    → All (λ b. b < 256) out
unfolding decode_digits
decode_digits-bytes bytes [] {out} h e = let same : bytes ≡ out = ground arith in rw (← same) h
decode_digits-bytes bytes (c ∷ cs) h e = elim (Option-cases (base58_index c)) [
  | inl bad ↦ cc
  | inr (digit, good) ↦
      decode_digits-bytes (push_digit bytes digit) cs (push_digit-value bytes digit).1
        (ground arith)
]

leading_zeros-value :
    (cs : List ℕ) → (byte_value (leading_zeros cs) ≡ 0) × All (λ b. b < 256) (leading_zeros cs)
unfolding leading_zeros
leading_zeros-value [] = (refl, tt)
leading_zeros-value (c ∷ []) = (refl, tt)
leading_zeros-value (c ∷ d ∷ cs) = let ih = leading_zeros-value (d ∷ cs) in ground (arith, ih)

shift-zero : (n : ℕ) → shift n 0 ≡ 0
shift-zero zero = refl
shift-zero (suc n) = omega (arith, shift-zero n)

-- Decoding a text gives the bytes of the number that the text writes in base 58, and fails exactly
-- where a character is no base58 digit; every element is a byte.
pub decode_base58_lem :
    (cs : List ℕ)
    → (map_option byte_value (decode_base58 cs) ≡ numeral 0 cs)
      × ((out : List ℕ) → decode_base58 cs ≡ some out → All (λ b. b < 256) out)
unfolding decode_base58
decode_base58_lem cs =
    let value = decode_digits-value (0 ∷ []) cs in
    let (zeros, zero_bytes) = leading_zeros-value cs in
    elim (Option-cases (decode_digits (0 ∷ []) cs)) [
      | inl bad ↦ (ground arith, λ out e. cc)
      | inr (bytes, good) ↦ (
        ground (arith, byte_value-append bytes (leading_zeros cs), shift-zero (length bytes)),
        λ out e.
            let joined : bytes ++ leading_zeros cs ≡ out = ground arith in
            rw (← joined) (
              All-append (λ b. b < 256) bytes (leading_zeros cs)
                (decode_digits-bytes (0 ∷ []) cs (omega arith, tt) good) zero_bytes),
      )
    ]
