-- ===== src/Artifact/Tests.antt =====
-- Downloads at concrete inputs: a config of the session 4, and a token for it.
use z_wireguard_vpn.Common.{refl, none, some, Option, String, [], ◌∷◌}
use z_wireguard_vpn.Common.Json.{Json}
use z_wireguard_vpn.Common.Text.{codes}
use z_wireguard_vpn.Artifact.{Artifact, ArtifactDb, EncryptedPayload, prepared}
use z_wireguard_vpn.Artifact.FileName.{IsSafe, attachment_file_name, attachment_file_name-IsSafe}

abbrev config : Artifact
config = record {
  id = 12;
  session_id = 4;
  phase = prepared;
  public_payload = Json.null;
  payload = some (record {
    encryption_method = "aes-256-gcm";
    nonce = "bm9uY2U=";
    ciphertext = "Y2lwaGVy";
    auth_tag = "dGFn";
    aad = "aad";
    key_fingerprint = "k1";
  });
  issued_at = none;
  downloaded_at = none;
  invalidated_at = none;
}

abbrev with_token : ArtifactDb
with_token = record {
  artifacts = config ∷ [];
  tokens =
      (record {
        artifact_id = 12;
        token_hash = "secret";
        subject_user_id = 3;
        expires_at = 900;
        used_at = none;
        revoked_at = none;
      })
      ∷ [];
}

abbrev plain : String → String
plain token = token

abbrev decrypt : Option (EncryptedPayload → Option Json)
decrypt = some (λ p. some Json.null)

attachment_file_name-IsSafe_example :
    IsSafe (attachment_file_name (some (codes "../a b.conf")) (codes "6f9619ff-8b86-d011"))
attachment_file_name-IsSafe_example =
    attachment_file_name-IsSafe (some (codes "../a b.conf")) (codes "6f9619ff-8b86-d011")
      (refl, (refl, (refl, (refl, (refl, (refl, (refl, (refl, tt))))))))
