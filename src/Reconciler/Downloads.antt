-- ===== src/Reconciler/Downloads.antt =====
-- The end of a revocation ends the downloads of the session's configs.
use z_wireguard_vpn.Common.{
  ℕ, ◌≡◌, ◌≢◌, ◌≤◌, refl, false, Option, none, some, String, List, [], ◌∷◌, ◌==◌, All, any, count,
  arith, inl, inr,
}
use z_wireguard_vpn.Common.Json.{Json}
use z_wireguard_vpn.Common.Table.{row, All-update_where, All-map}
use z_wireguard_vpn.Session.{Session}
use z_wireguard_vpn.Artifact.{
  Artifact, EncryptedPayload, is_valid_artifact, is_valid_artifact_of, set_invalidated,
  invalidate_session_artifacts,
}
use z_wireguard_vpn.Artifact.Tokens.{not_found, redeem_artifact_download_token}
use z_wireguard_vpn.Artifact.Invalidation.{BelongsTo, none_redeemable, redeem-none}
use z_wireguard_vpn.Reconciler.{ControlDb, artifact_db}
use z_wireguard_vpn.Reconciler.Sessions.{
  complete_revoked_session, complete_revoked_each, complete_revoked_sessions,
  list_sessions_ready_to_mark_revoked,
}
use z_wireguard_vpn.Reconciler.Revocation.{IsCleared, complete_revoked_sessions_lem}

cleared-any :
    (id session_id : ℕ) (artifacts : List Artifact)
    → All (λ a. a.id ≡ id → a.session_id ≡ session_id) artifacts
    → All (λ a. is_valid_artifact_of session_id a ≡ false) artifacts
    → any (is_valid_artifact id) artifacts ≡ false
cleared-any id session_id [] own cleared = refl
cleared-any id session_id (a ∷ as') own cleared =
    ground (arith, own.0, cleared.0, cleared-any id session_id as' own.1 cleared.1)

-- A token of a session without a valid artifact gives nothing.
redeem-cleared :
    (hash : String → String) (decrypt : Option (EncryptedPayload → Option Json)) (later id : ℕ)
    (token : String) (db : ControlDb)
    → BelongsTo (hash token) id (artifact_db db)
    → IsCleared id db.leases db.artifacts
    → redeem_artifact_download_token hash decrypt later token (artifact_db db)
      ≡ (not_found, artifact_db db)
redeem-cleared hash decrypt later id token db own cleared =
    redeem-none hash decrypt later token (artifact_db db) (
      none_redeemable later (hash token) db.artifacts db.tokens (
        All-map _ _
          (λ t h same. cleared-any t.artifact_id id db.artifacts (h same) cleared.no_artifact)
          db.tokens own))

complete_revoked_each-BelongsTo :
    (now id : ℕ) (token_hash : String) (ss : List Session) (db : ControlDb)
    → BelongsTo token_hash id (artifact_db db)
    → BelongsTo token_hash id (artifact_db (complete_revoked_each now ss db))
unfolding complete_revoked_each complete_revoked_session invalidate_session_artifacts
complete_revoked_each-BelongsTo now id token_hash [] db own = own
complete_revoked_each-BelongsTo now id token_hash (s ∷ ss) db own =
    complete_revoked_each-BelongsTo now id token_hash ss (complete_revoked_session now s db) (
      All-map _ _
        (λ t h same.
          All-update_where (λ (a : Artifact). a.id ≡ t.artifact_id → a.session_id ≡ id)
            (λ a. a.id ≡ t.artifact_id → a.session_id ≡ id) (is_valid_artifact_of s.id)
            (set_invalidated now) (λ a e q. q) (λ a e q. q) db.artifacts (h same))
        db.tokens own)

-- Once a run of the controller has ended the revocation of a session, a download token for one of the
-- session's artifacts gives nothing and changes nothing, at any time and with any key. Session ids are a
-- primary key.
pub redeem-complete_revoked_sessions :
    (hash : String → String) (decrypt : Option (EncryptedPayload → Option Json)) (now later id : ℕ)
    (token : String) (db : ControlDb) (s : Session)
    → count (λ (x : Session). x.id == id) db.sessions ≤ 1
    → row Session.id id db.sessions ≡ some s
    → row Session.id id (list_sessions_ready_to_mark_revoked db) ≢ none
    → BelongsTo (hash token) id (artifact_db db)
    → let after = artifact_db (complete_revoked_sessions now db) in
      redeem_artifact_download_token hash decrypt later token after ≡ (not_found, after)
unfolding complete_revoked_sessions
redeem-complete_revoked_sessions hash decrypt now later id token db s unique there listed own =
    let own' =
      complete_revoked_each-BelongsTo now id (hash token) (list_sessions_ready_to_mark_revoked db)
        db own in
    elim ((complete_revoked_sessions_lem now id db s unique there).1) [
      | inl (unlisted, _) ↦ absurd (listed unlisted)
      | inr (_, _, _, cleared) ↦
          redeem-cleared hash decrypt later id token (complete_revoked_sessions now db) own' cleared
    ]
