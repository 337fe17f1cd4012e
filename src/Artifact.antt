-- ===== src/Artifact.antt =====
-- Artifacts, the client configs that can be downloaded: the phases of
-- packages/control-plane/src/resources/artifacts/transitions.ts and the statements of repository.ts on
-- the tables `artifacts`, joined with `artifact_payloads`, and `artifact_download_tokens`. Every
-- artifact is of the one type that the program writes, `client_config`.
pub mod Tokens
pub mod Invalidation
pub mod Redemption
pub mod FileName
mod Tests
use text.Mathlib.Text.{◌==◌ as str_eq}
use z_wireguard_vpn.Common.{
  ℕ, Bool, true, false, not, ◌&&◌, Option, none, some, String, List, [], ◌∷◌, ◌++◌, ◌==◌, ltb, leb,
  any, is_some, or_else, find?, count,
}
use z_wireguard_vpn.Common.Json.{Json}
use z_wireguard_vpn.Common.Table.{update_where, row}

pub data ArtifactPhase : Type 0 where
  prepared available downloaded invalidated : ArtifactPhase

abbrev pub can_download_artifact : ArtifactPhase → Bool
can_download_artifact invalidated = false
can_download_artifact _ = true

-- `EncryptedJsonPayload`, or the nullable columns of a row that joins it.
pub record EncryptedPayload : Type 0 where
  pub encryption_method : String
  pub nonce : String
  pub ciphertext : String
  pub auth_tag : String
  pub aad : String
  pub key_fingerprint : String

pub record Artifact : Type 0 where
  pub id : ℕ
  pub session_id : ℕ
  pub phase : ArtifactPhase
  pub public_payload : Json
  pub payload : Option EncryptedPayload
  pub issued_at : Option ℕ
  pub downloaded_at : Option ℕ
  pub invalidated_at : Option ℕ

pub record ArtifactDownloadToken : Type 0 where
  pub artifact_id : ℕ
  pub token_hash : String
  pub subject_user_id : ℕ
  pub expires_at : ℕ
  pub used_at : Option ℕ
  pub revoked_at : Option ℕ

pub record ArtifactDb : Type 0 where
  pub artifacts : List Artifact
  pub tokens : List ArtifactDownloadToken

abbrev pub is_valid_artifact_of : ℕ → Artifact → Bool
is_valid_artifact_of session_id a = a.session_id == session_id && not (is_some a.invalidated_at)

abbrev pub set_invalidated : ℕ → Artifact → Artifact
set_invalidated now a = record a { phase = invalidated; invalidated_at = some now }

-- `invalidateSessionArtifacts`, `invalidateArtifactsForSession`.
unfoldable pub invalidate_session_artifacts : ℕ → ℕ → List Artifact → List Artifact
invalidate_session_artifacts now session_id artifacts =
    update_where (is_valid_artifact_of session_id) (set_invalidated now) artifacts

unfoldable pub has_active_client_config_artifact : ℕ → List Artifact → Bool
has_active_client_config_artifact session_id artifacts =
    any (is_valid_artifact_of session_id) artifacts

-- `insertClientConfigArtifact` with `insertClientConfigArtifactPayload`.
unfoldable pub insert_client_config_artifact :
    ℕ → ℕ → Json → EncryptedPayload → List Artifact → List Artifact
insert_client_config_artifact id session_id public_payload payload artifacts =
    artifacts
    ++ (record {
      id = id;
      session_id = session_id;
      phase = prepared;
      public_payload = public_payload;
      payload = some payload;
      issued_at = none;
      downloaded_at = none;
      invalidated_at = none;
    })
      ∷ []

abbrev pub set_available : ℕ → Artifact → Artifact
set_available now a = record a { phase = available; issued_at = some (or_else a.issued_at now) }

unfoldable pub insert_artifact_download_token : ℕ → ℕ → ℕ → String → ℕ → ArtifactDb → ArtifactDb
insert_artifact_download_token now artifact_id subject_user_id token_hash expires_at db = record {
  tokens =
      db.tokens
      ++ (record {
        artifact_id = artifact_id;
        token_hash = token_hash;
        subject_user_id = subject_user_id;
        expires_at = expires_at;
        used_at = none;
        revoked_at = none;
      })
        ∷ [];
  artifacts = update_where (λ a. a.id == artifact_id) (set_available now) db.artifacts;
}

abbrev pub is_expired_token : ℕ → ArtifactDownloadToken → Bool
is_expired_token now t = not (is_some t.revoked_at) && leb t.expires_at now

-- The number of rows, and the table.
unfoldable pub revoke_expired_artifact_download_tokens :
    ℕ → List ArtifactDownloadToken → ℕ × List ArtifactDownloadToken
revoke_expired_artifact_download_tokens now tokens = (
  count (is_expired_token now) tokens,
  update_where (is_expired_token now) (λ t. record t { revoked_at = some now }) tokens,
)

abbrev pub is_valid_artifact : ℕ → Artifact → Bool
is_valid_artifact id a = a.id == id && not (is_some a.invalidated_at)

-- A token that can be redeemed: not over, not revoked, and its artifact is valid.
abbrev pub is_redeemable : ℕ → String → List Artifact → ArtifactDownloadToken → Bool
is_redeemable now hash artifacts t =
    str_eq t.token_hash hash
    && (ltb now t.expires_at
        && (not (is_some t.revoked_at) && any (is_valid_artifact t.artifact_id) artifacts))

abbrev pub set_used : ℕ → ArtifactDownloadToken → ArtifactDownloadToken
set_used now t = record t { used_at = some (or_else t.used_at now) }

abbrev pub set_downloaded : ℕ → Artifact → Artifact
set_downloaded now a = record a { phase = downloaded; downloaded_at = some now }

-- A hash has one token, as the column is unique.
unfoldable pub redeem_artifact_download_token_row :
    ℕ → String → ArtifactDb → Option Artifact × ArtifactDb
redeem_artifact_download_token_row now hash db =
    elim (find? (is_redeemable now hash db.artifacts) db.tokens) [
      | none ↦ (none, db)
      | some t ↦ elim (find? (is_valid_artifact t.artifact_id) db.artifacts) [
        | none ↦ (none, db)
        | some a ↦ (
          some a,
          record {
            tokens = update_where (λ x. str_eq x.token_hash hash) (set_used now) db.tokens;
            artifacts = update_where (λ x. x.id == t.artifact_id) (set_downloaded now) db.artifacts;
          },
        )
      ]
    ]
