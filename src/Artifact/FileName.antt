-- ===== src/Artifact/FileName.antt =====
-- The file name of a download: `attachmentFileName` of
-- packages/control-plane/src/resources/artifacts/download-tokens.ts, on the code points of the texts.
-- The source replaces UTF-16 units, of which a code point from 65536 on has two.
use z_wireguard_vpn.Common.{
  ℕ, ◌≡◌, refl, Bool, true, false, ◌&&◌, ◌||◌, Option, none, some, List, [], ◌∷◌, ◌++◌, All, arith,
  ◌==◌, leb, any, take, if◌then◌else◌, inl, inr, Bool-cases,
}
use z_wireguard_vpn.Common.Json.{is_space}
use z_wireguard_vpn.Common.Table.{All-append}
use z_wireguard_vpn.Common.Text.{codes, same_codes}
use mathlib.Core.List.{reverse}

abbrev pub is_separator : ℕ → Bool
is_separator c = c == b'/' || c == 92

-- `split(/[\\/]/).pop()`: what follows the last separator.
abbrev pub base_name : List ℕ → List ℕ
base_name [] = []
base_name (c ∷ cs) = if any is_separator (c ∷ cs) then base_name cs else c ∷ cs

abbrev drop_space : List ℕ → List ℕ
drop_space [] = []
drop_space (c ∷ cs) = if is_space c then drop_space cs else c ∷ cs

-- `trim`
abbrev pub trim_codes : List ℕ → List ℕ
trim_codes cs = reverse (drop_space (reverse (drop_space cs)))

-- `[A-Za-z0-9._-]`
abbrev pub is_plain : ℕ → Bool
is_plain c =
    leb b'A' c && leb c b'Z'
    || leb b'a' c && leb c b'z'
    || leb b'0' c && leb c b'9'
    || c == b'.'
    || c == b'_'
    || c == b'-'

abbrev pub plain_code : ℕ → List ℕ
plain_code c = if is_plain c then c ∷ [] else if leb 65536 c then b'-' ∷ b'-' ∷ [] else b'-' ∷ []

abbrev pub sanitize : List ℕ → List ℕ
sanitize [] = []
sanitize (c ∷ cs) = plain_code c ++ sanitize cs

abbrev pub extension : List ℕ
extension = codes ".conf"

abbrev pub ends_with : List ℕ → List ℕ → Bool
ends_with suffix [] = same_codes [] suffix
ends_with suffix (c ∷ cs) = same_codes (c ∷ cs) suffix || ends_with suffix cs

abbrev pub fallback_name : List ℕ → List ℕ
fallback_name artifact_id = codes "hyperspace-" ++ (take 8 artifact_id ++ extension)

abbrev or_fallback : List ℕ → List ℕ → List ℕ
or_fallback [] other = other
or_fallback (c ∷ cs) other = c ∷ cs

abbrev pub is_unusable : List ℕ → Bool
is_unusable name = same_codes name [] || same_codes name (codes ".") || same_codes name (codes "..")

abbrev finish : List ℕ → List ℕ → List ℕ
finish fallback name =
    if is_unusable name
    then fallback
    else if ends_with extension name
    then name
    else name ++ extension

abbrev given_name : Option (List ℕ) → List ℕ
given_name none = []
given_name (some name) = trim_codes (base_name name)

unfoldable pub attachment_file_name : Option (List ℕ) → List ℕ → List ℕ
attachment_file_name value artifact_id =
    let fallback = fallback_name artifact_id in
    finish fallback (sanitize (or_fallback (given_name value) fallback))

-- Only the plain characters of `[A-Za-z0-9._-]`.
abbrev pub IsPlain : List ℕ → Type 0
IsPlain cs = All (λ c. is_plain c ≡ true) cs

branch-IsPlain :
    (plain wide : Bool) (x : ℕ)
    → (plain ≡ true → is_plain x ≡ true)
    → IsPlain (if plain then x ∷ [] else if wide then b'-' ∷ b'-' ∷ [] else b'-' ∷ [])
branch-IsPlain true wide x h = (h refl, tt)
branch-IsPlain false true x h = (refl, (refl, tt))
branch-IsPlain false false x h = (refl, tt)

sanitize-IsPlain : (cs : List ℕ) → IsPlain (sanitize cs)
sanitize-IsPlain [] = tt
sanitize-IsPlain (c ∷ cs) =
    All-append (λ x. is_plain x ≡ true) (plain_code c) (sanitize cs)
      (branch-IsPlain (is_plain c) (leb 65536 c) c (λ t. t)) (sanitize-IsPlain cs)

same_codes_refl : (xs : List ℕ) → same_codes xs xs ≡ true
same_codes_refl [] = refl
same_codes_refl (x ∷ xs) = ground (arith, same_codes_refl xs)

ends_with_self : (suffix : List ℕ) → ends_with suffix suffix ≡ true
ends_with_self [] = refl
ends_with_self (c ∷ cs) = ground (arith, same_codes_refl cs)

ends_with-append : (suffix xs : List ℕ) → ends_with suffix (xs ++ suffix) ≡ true
ends_with-append suffix [] = ends_with_self suffix
ends_with-append suffix (x ∷ xs) = ground (arith, ends_with-append suffix xs)

-- A name that is safe to save under: plain characters only, so that it names no folder, and the
-- extension of a config.
pub record IsSafe (name : List ℕ) : Type 0 where
  pub plain : IsPlain name
  pub extended : ends_with extension name ≡ true

ends_with-prefix :
    (suffix xs ys : List ℕ) → ends_with suffix ys ≡ true → ends_with suffix (xs ++ ys) ≡ true
ends_with-prefix suffix [] ys e = e
ends_with-prefix suffix (x ∷ xs) ys e = ground (arith, ends_with-prefix suffix xs ys e)

extension-IsPlain : IsPlain extension
extension-IsPlain = (refl, (refl, (refl, (refl, (refl, tt)))))

prefix-IsPlain : IsPlain (codes "hyperspace-")
prefix-IsPlain =
    (refl, (refl, (refl, (refl, (refl, (refl, (refl, (refl, (refl, (refl, (refl, tt)))))))))))

fallback-IsSafe : (id : List ℕ) → IsPlain (take 8 id) → IsSafe (fallback_name id)
fallback-IsSafe id h =
    let dot = All-append (λ x. is_plain x ≡ true) (take 8 id) extension h extension-IsPlain in
    record {
      plain =
          All-append (λ x. is_plain x ≡ true) (codes "hyperspace-") (take 8 id ++ extension)
            prefix-IsPlain dot;
      extended =
          ends_with-prefix extension (codes "hyperspace-") (take 8 id ++ extension)
            (ends_with-append extension (take 8 id));
    }

finish-IsSafe :
    (fallback name : List ℕ) → IsSafe fallback → IsPlain name → IsSafe (finish fallback name)
finish-IsSafe fallback name safe plain = elim (Bool-cases (is_unusable name)) [
  | inl bad ↦ rw bad safe
  | inr good ↦ elim (Bool-cases (ends_with extension name)) [
    | inl has ↦ rw (good, has) (record { plain = plain; extended = has })
    | inr lacks ↦
        rw (good, lacks)
          (record {
            plain = All-append (λ x. is_plain x ≡ true) name extension plain extension-IsPlain;
            extended = ends_with-append extension name;
          })
  ]
]

-- Whatever name a config carries, it is downloaded under a safe one. The id of an artifact begins with
-- plain characters, as a UUID does.
pub attachment_file_name-IsSafe :
    (value : Option (List ℕ)) (artifact_id : List ℕ)
    → IsPlain (take 8 artifact_id)
    → IsSafe (attachment_file_name value artifact_id)
unfolding attachment_file_name
attachment_file_name-IsSafe value artifact_id h =
    let base = or_fallback (given_name value) (fallback_name artifact_id) in
    finish-IsSafe (fallback_name artifact_id) (sanitize base) (fallback-IsSafe artifact_id h)
      (sanitize-IsPlain base)
