-- ===== src/Artifact/Redemption.antt =====
-- What a download token gives, and when it gives nothing.
use text.Mathlib.Text.{◌==◌ as str_eq}
use z_wireguard_vpn.Common.{
  ℕ, ◌+◌, ◌≡◌, true, List, [], ◌∷◌, All, false, Option, none, some, String, ◌==◌, find?, is_some,
}
use z_wireguard_vpn.Common.Json.{Json}
use z_wireguard_vpn.Artifact.{
  Artifact, ArtifactDownloadToken, ArtifactDb, EncryptedPayload, is_valid_artifact,
}
use z_wireguard_vpn.Artifact.Tokens.{redeem_artifact_download_token}

-- A token with the hash gives the artifact until its end, and no token with the hash has another end.
pub record Grants (hash : String) (end : ℕ) (a : Artifact) (db : ArtifactDb) : Type 0 where
  pub token : ArtifactDownloadToken
  pub found : find? (λ t. str_eq t.token_hash hash) db.tokens ≡ some token
  pub ends : token.expires_at ≡ end
  pub is_open : is_some token.revoked_at ≡ false
  pub artifact : find? (is_valid_artifact token.artifact_id) db.artifacts ≡ some a
  pub only : All (λ t. str_eq t.token_hash hash ≡ true → t.expires_at ≡ end) db.tokens

-- Redemptions of one token at a list of times.
abbrev pub redeem_times :
    (String → String)
    → Option (EncryptedPayload → Option Json)
    → String
    → List ℕ
    → ArtifactDb
    → ArtifactDb
redeem_times hash decrypt token [] db = db
redeem_times hash decrypt token (t ∷ ts) db =
    redeem_times hash decrypt token ts (redeem_artifact_download_token hash decrypt t token db).1

module _ (hash : String → String) (now : ℕ) (token : String) (artifact_id user ttl : ℕ)
    (db : ArtifactDb) (a : Artifact)
    (valid : find? (is_valid_artifact artifact_id) db.artifacts ≡ some a)
    (fresh : find? (λ t. str_eq t.token_hash (hash token)) db.tokens ≡ none) where
  abbrev new_token : ArtifactDownloadToken
  new_token = record {
    artifact_id = artifact_id;
    token_hash = hash token;
    subject_user_id = user;
    expires_at = now + ttl;
    used_at = none;
    revoked_at = none;
  }
