-- ===== src/Artifact/Invalidation.antt =====
-- When a download token gives nothing.
use text.Mathlib.Text.{◌==◌ as str_eq}
use z_wireguard_vpn.Common.{
  ℕ, ◌≡◌, refl, true, false, Option, none, String, List, [], ◌∷◌, All, arith, any, find?,
}
use z_wireguard_vpn.Common.Json.{Json}
use z_wireguard_vpn.Artifact.{
  Artifact, ArtifactDownloadToken, ArtifactDb, EncryptedPayload, is_redeemable, is_valid_artifact,
  redeem_artifact_download_token_row,
}
use z_wireguard_vpn.Artifact.Tokens.{not_found, redeem_artifact_download_token}

-- Every token with a hash stands for artifacts of one session only.
abbrev pub BelongsTo : String → ℕ → ArtifactDb → Type 0
BelongsTo token_hash session_id db =
    All
      (λ t.
        str_eq t.token_hash token_hash ≡ true
        → All (λ (a : Artifact). a.id ≡ t.artifact_id → a.session_id ≡ session_id) db.artifacts)
      db.tokens

pub none_redeemable :
    (now : ℕ) (hash : String) (artifacts : List Artifact) (tokens : List ArtifactDownloadToken)
    → All
        (λ t.
          str_eq t.token_hash hash ≡ true → any (is_valid_artifact t.artifact_id) artifacts ≡ false)
        tokens
    → find? (is_redeemable now hash artifacts) tokens ≡ none
none_redeemable now hash artifacts [] h = refl
none_redeemable now hash artifacts (t ∷ ts) h =
    ground (arith, h.0, none_redeemable now hash artifacts ts h.1)

pub redeem-none :
    (hash : String → String) (decrypt : Option (EncryptedPayload → Option Json)) (now : ℕ)
    (token : String) (db : ArtifactDb)
    → find? (is_redeemable now (hash token) db.artifacts) db.tokens ≡ none
    → redeem_artifact_download_token hash decrypt now token db ≡ (not_found, db)
unfolding redeem_artifact_download_token redeem_artifact_download_token_row
redeem-none hash decrypt now token db e = ground arith
