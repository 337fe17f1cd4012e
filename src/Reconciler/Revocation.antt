-- ===== src/Reconciler/Revocation.antt =====
-- What the end of a revocation needs and does.
use z_wireguard_vpn.Common.{
  ℕ, ◌≤◌, ◌≡◌, ◌⊎◌, refl, true, false, none, some, String, List, [], ◌∷◌, arith, ◌==◌, map_option,
  count, find?, All, inl, inr, Option-cases, Bool-cases,
}
use z_wireguard_vpn.Common.Table.{row, update_where, row-update_where, All-update_where, All-Unit}
use z_wireguard_vpn.Common.Table.Select.{row-select, count-select, find?-count_zero}
use z_wireguard_vpn.Session.{Session, SessionPhase, revoked_transition}
use z_wireguard_vpn.Session.Store.{mark_session_observed, set_status_observed}
use z_wireguard_vpn.Lease.{
  LeaseDb, ClientAddressLease, is_active_of, find_active_client_address_lease,
  mark_client_address_lease_released,
}
use z_wireguard_vpn.Lease.Allocator.{release_client_address_lease}
use z_wireguard_vpn.Artifact.{
  Artifact, invalidate_session_artifacts, is_valid_artifact_of, set_invalidated,
}
use z_wireguard_vpn.Reconciler.{ControlDb}
use z_wireguard_vpn.Reconciler.Sessions.{
  complete_revoked_session, complete_revoked_each, complete_revoked_sessions,
  list_sessions_ready_to_mark_revoked, is_ready_to_mark_revoked,
}

-- A session holds no address and no valid artifact.
pub record IsCleared (session_id : ℕ) (leases : LeaseDb) (artifacts : List Artifact) : Type 0 where
  pub no_lease : find_active_client_address_lease session_id leases ≡ none
  pub no_artifact : All (λ a. is_valid_artifact_of session_id a ≡ false) artifacts

released :
    (now session_id j : ℕ) (reason : String) (xs : List ClientAddressLease)
    → find? (is_active_of j) xs ≡ none
    → find? (is_active_of j) (
        update_where
          (is_active_of session_id)
          (λ l. record l { released_at = some now; release_reason = some reason })
          xs)
      ≡ none
released now session_id j reason [] f = refl
released now session_id j reason (x ∷ xs) f = ground (arith, released now session_id j reason xs)

released_own :
    (now session_id : ℕ) (reason : String) (xs : List ClientAddressLease)
    → find? (is_active_of session_id) (
        update_where
          (is_active_of session_id)
          (λ l. record l { released_at = some now; release_reason = some reason })
          xs)
      ≡ none
released_own now session_id reason [] = refl
released_own now session_id reason (x ∷ xs) = ground (arith, released_own now session_id reason xs)

unleased :
    (j : ℕ) (leases : LeaseDb)
    → find_active_client_address_lease j leases ≡ none
    → find? (is_active_of j) leases.leases ≡ none
unfolding find_active_client_address_lease
unleased j leases e = ground arith

-- Clearing a session clears it, and keeps every cleared session cleared.
pub clear-IsCleared :
    (now session_id j : ℕ) (reason : String) (leases : LeaseDb) (artifacts : List Artifact)
    → ((session_id == j) ≡ false → IsCleared j leases artifacts)
    → IsCleared j
        (release_client_address_lease now session_id reason leases)
        (invalidate_session_artifacts now session_id artifacts)
unfolding release_client_address_lease mark_client_address_lease_released
    find_active_client_address_lease invalidate_session_artifacts
clear-IsCleared now session_id j reason leases artifacts h = elim (Bool-cases (session_id == j)) [
  | inl here ↦
      let same : session_id ≡ j = ground arith in
      let gone = released_own now session_id reason leases.leases in
      rw (← same) (record {
        no_lease = ground arith;
        no_artifact =
            All-update_where (λ a. Unit {0}) (λ a. is_valid_artifact_of session_id a ≡ false)
              (is_valid_artifact_of session_id) (set_invalidated now) (λ a t u. ground arith)
              (λ a t u. t) artifacts (All-Unit artifacts);
      })
  | inr other ↦
      let before = h other in
      let without : find? (is_active_of j) leases.leases ≡ none =
        unleased j leases before.no_lease in
      let gone = released now session_id j reason leases.leases without in
      record {
        no_lease = ground arith;
        no_artifact =
            All-update_where (λ a. is_valid_artifact_of j a ≡ false)
              (λ a. is_valid_artifact_of j a ≡ false) (is_valid_artifact_of session_id)
              (set_invalidated now) (λ a t q. ground arith) (λ a t q. q) artifacts
              before.no_artifact;
      }
]

complete_revoked_each-row :
    (now id : ℕ) (ss : List Session) (db : ControlDb)
    → count (λ s. s.id == id) ss ≤ 1
    → row Session.id id (complete_revoked_each now ss db).sessions ≡ elim (row Session.id id ss) [
      | none ↦ row Session.id id db.sessions
      | some s ↦
          map_option
            (set_status_observed now (revoked_transition s.generation))
            (row Session.id id db.sessions)
    ]
unfolding complete_revoked_each complete_revoked_session mark_session_observed
complete_revoked_each-row now id [] db unique = refl
complete_revoked_each-row now id (s ∷ ss) db unique =
    let ih = complete_revoked_each-row now id ss (complete_revoked_session now s db) in
    let step =
      row-update_where Session.id s.id id
        (set_status_observed now (revoked_transition s.generation)) (λ x. refl) db.sessions in
    elim (Bool-cases (s.id == id)) [
      | inl here ↦
          let gone = find?-count_zero (λ x. x.id == id) ss (ground arith) in
          ground (arith, ih, step)
      | inr other ↦ ground (arith, ih, step)
    ]

complete_revoked_each-fleet :
    (now : ℕ) (ss : List Session) (db : ControlDb)
    → (complete_revoked_each now ss db).fleet ≡ db.fleet
unfolding complete_revoked_each complete_revoked_session
complete_revoked_each-fleet now [] db = refl
complete_revoked_each-fleet now (s ∷ ss) db =
    complete_revoked_each-fleet now ss (complete_revoked_session now s db)

complete_revoked_each-IsCleared :
    (now id : ℕ) (ss : List Session) (db : ControlDb)
    → (find? (λ s. s.id == id) ss ≡ none → IsCleared id db.leases db.artifacts)
    → let db' = complete_revoked_each now ss db in IsCleared id db'.leases db'.artifacts
unfolding complete_revoked_each complete_revoked_session
complete_revoked_each-IsCleared now id [] db h = h refl
complete_revoked_each-IsCleared now id (s ∷ ss) db h =
    complete_revoked_each-IsCleared now id ss (complete_revoked_session now s db) (λ rest.
      clear-IsCleared now s.id id "session_revoked" db.leases db.artifacts
        (λ other. h (ground arith)))

-- A run of the controller ends the revocation of exactly the sessions that it lists, and the assignments and
-- jobs stay as they are. The row of a session that is not listed stays as it is. One that is listed was
-- revoking, with all its assignments revoked; its row is then revoked since now, at its generation and
-- without an error, all else of the row stays, and it holds no address and no valid artifact. Session ids are
-- a primary key.
pub complete_revoked_sessions_lem :
    (now id : ℕ) (db : ControlDb) (s : Session)
    → count (λ (x : Session). x.id == id) db.sessions ≤ 1
    → row Session.id id db.sessions ≡ some s
    → let db' = complete_revoked_sessions now db in
      (db'.fleet ≡ db.fleet)
      × (((row Session.id id (list_sessions_ready_to_mark_revoked db) ≡ none)
            × (row Session.id id db'.sessions ≡ some s))
          ⊎ ((is_ready_to_mark_revoked db.fleet.assignments s ≡ true)
              × (row Session.id id (list_sessions_ready_to_mark_revoked db) ≡ some s)
              × (row Session.id id db'.sessions
                  ≡ some (record s {
                    phase = SessionPhase.revoked;
                    observed_generation = s.generation;
                    last_error = none;
                    status_updated_at = now;
                  }))
              × IsCleared id db'.leases db'.artifacts))
unfolding complete_revoked_sessions list_sessions_ready_to_mark_revoked
complete_revoked_sessions_lem now id db s unique found =
    let listed = list_sessions_ready_to_mark_revoked db in
    let after = complete_revoked_each-row now id listed db (
      omega (
        arith,
        unique,
        count-select (λ x. x.id == id) (is_ready_to_mark_revoked db.fleet.assignments) 50
            db.sessions,
      )) in
    (
      complete_revoked_each-fleet now listed db,
      elim (Option-cases (row Session.id id listed)) [
        | inl passed_over ↦ inl (passed_over, ground arith)
        | inr (x, selected) ↦
            let (same, ready) =
              row-select Session.id id (is_ready_to_mark_revoked db.fleet.assignments) 50
                db.sessions unique selected in
            inr (
              ground arith,
              ground arith,
              ground arith,
              complete_revoked_each-IsCleared now id listed db (λ none_found. ground arith),
            )
      ],
    )
