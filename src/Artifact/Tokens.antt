-- ===== src/Artifact/Tokens.antt =====
-- The download of an artifact by a token:
-- packages/control-plane/src/resources/artifacts/download-tokens.ts. `hash` is SHA-256 of a token, and
-- `decrypt` the decryption with the configured key, or `none` where no key is configured; it fails by
-- `none` itself.
use text.Mathlib.Text.{◌==◌ as str_eq}
use z_wireguard_vpn.Common.{ℕ, ◌+◌, Bool, ◌||◌, Option, none, some, String, if◌then◌else◌}
use z_wireguard_vpn.Common.Json.{Json, obj, end}
use z_wireguard_vpn.Artifact.{
  Artifact, ArtifactDb, EncryptedPayload, insert_artifact_download_token,
  redeem_artifact_download_token_row,
}

-- `failed` is an error that is thrown after the transaction was committed.
pub data RedeemResult : Type 0 where
  not_found encryption_not_configured failed : RedeemResult
  -- The artifact, its metadata and its payload.
  payload : ℕ → Json → Json → RedeemResult

pub data EncryptedColumns : Type 0 where
  absent unsupported : EncryptedColumns
  encrypted : EncryptedPayload → EncryptedColumns

abbrev is_blank : String → Bool
is_blank s = str_eq s ""

unfoldable pub encrypted_payload_from_row : Option EncryptedPayload → EncryptedColumns
encrypted_payload_from_row none = absent
encrypted_payload_from_row (some p) =
    if is_blank p.encryption_method
      || is_blank p.nonce
      || is_blank p.ciphertext
      || is_blank p.auth_tag
      || is_blank p.aad
      || is_blank p.key_fingerprint
    then absent
    else if str_eq p.encryption_method "aes-256-gcm"
    then encrypted p
    else unsupported

-- `asRecord`.
abbrev as_record : Json → Json
as_record (obj fs) = obj fs
as_record _ = obj end

unfoldable pub create_artifact_download_token :
    (String → String) → ℕ → String → ℕ → ℕ → ℕ → ArtifactDb → ArtifactDb
create_artifact_download_token hash now token artifact_id subject_user_id ttl_seconds db =
    insert_artifact_download_token now artifact_id subject_user_id (hash token) (now + ttl_seconds)
      db

unfoldable pub read_payload : Option (EncryptedPayload → Option Json) → Artifact → RedeemResult
unfolding encrypted_payload_from_row
read_payload decrypt a = elim (encrypted_payload_from_row a.payload) [
  | unsupported ↦ failed
  | absent ↦ payload a.id a.public_payload (as_record a.public_payload)
  | encrypted p ↦ elim decrypt [
    | none ↦ encryption_not_configured
    | some d ↦ elim (d p) [ none ↦ failed | some document ↦ payload a.id a.public_payload document ]
  ]
]

unfoldable pub redeem_artifact_download_token :
    (String → String)
    → Option (EncryptedPayload → Option Json)
    → ℕ
    → String
    → ArtifactDb
    → RedeemResult × ArtifactDb
redeem_artifact_download_token hash decrypt now token db =
    let (found, db') = redeem_artifact_download_token_row now (hash token) db in
    elim found [ none ↦ (not_found, db') | some a ↦ (read_payload decrypt a, db') ]
