-- ===== src/Runs/Placement.antt =====
-- The loop that gives sessions an address and two gates keeps the sessions and the leases consistent.
use z_wireguard_vpn.Common.{
  String, Option, ℕ, ◌≡◌, ◌≢◌, ◌⊎◌, refl, false, none, some, List, [], ◌∷◌, arith, ◌==◌, All, inl,
  inr, Option-cases,
}
use z_wireguard_vpn.Common.Json.{Json, get}
use z_wireguard_vpn.Common.Table.{row, row-update_any}
use z_wireguard_vpn.Common.Table.Select.{Distinct}
use z_wireguard_vpn.Session.{Session, ErrorBody, failed_transition, provisioning_transition}
use z_wireguard_vpn.Session.Store.{
  mark_session_failed, set_failed, mark_session_observed, set_status_observed,
}
use z_wireguard_vpn.Lease.{LeaseDb}
use z_wireguard_vpn.Lease.Allocation.{
  ensure_client_address_lease-none, ensure_client_address_lease-some,
}
use z_wireguard_vpn.Lease.Allocator.{ensure_client_address_lease}
use z_wireguard_vpn.Planning.{PathChoice, choose_path, read_session_client_protocol}
use z_wireguard_vpn.Lease.Holders.{has_lease, has_lease-ensure}
use z_wireguard_vpn.Reconciler.{ControlDb}
use z_wireguard_vpn.Reconciler.Scheduling.{
  schedule_session, provision_each, no_path_error, pool_exhausted_error,
}
use z_wireguard_vpn.Runs.Shape.{IsConsistent, update-IsConsistent, lease-IsConsistent}

-- A session that is still to be scheduled: it holds no address, and it is there.
abbrev pub IsPending : List Session → LeaseDb → Session → Type 0
IsPending sessions leases s =
    (has_lease s.id leases ≡ false) × (row Session.id s.id sessions ≢ none)

module _ (now next_id : ℕ) (to_uuid : String → Option ℕ)
    (render : Session → PathChoice → ℕ → Json) where
  -- What scheduling a session does to its row and to the leases.
  abbrev Scheduled : Session → ControlDb → ControlDb → Type 0
  Scheduled s db db' =
      ((e : ErrorBody) × (db'.sessions
          ≡ mark_session_failed now s.id (failed_transition e) db.sessions)
        × (db'.leases ≡ db.leases))
      ⊎ ((address : ℕ) × (db'.sessions
            ≡ mark_session_observed now s.id (provisioning_transition s.generation) db.sessions)
          × (ensure_client_address_lease s.id db.leases ≡ (some address, db'.leases)))

  schedule_session-Scheduled :
      (s : Session) (db db' : ControlDb)
      → schedule_session to_uuid render now s db ≡ some db'
      → Scheduled s db db'
  unfolding schedule_session
  schedule_session-Scheduled s db db' e =
      elim (Option-cases (choose_path to_uuid now s.spec db.gates)) [
        | inl thrown ↦ ground arith
        | inr (path, chosen) ↦ elim (Option-cases path) [
          | inl nowhere ↦ inl (
            no_path_error (read_session_client_protocol (get s.spec "clientProtocol")),
            ground arith,
            ground arith,
          )
          | inr (p, there) ↦
              let (address, leases) = ensure_client_address_lease s.id db.leases in
              elim (Option-cases (ensure_client_address_lease s.id db.leases).0) [
                | inl exhausted ↦
                    let same =
                      (ensure_client_address_lease-none s.id db.leases {db' = leases}
                        (ground arith)).0 in
                    inl (pool_exhausted_error, ground arith, ground arith)
                | inr (a, got) ↦ inr (a, ground arith, ground arith)
              ]
        ]
      ]

  -- Scheduling a session keeps every other pending.
  Scheduled-IsPending :
      (s x : Session) (db db' : ControlDb)
      → Scheduled s db db'
      → x.id ≢ s.id
      → IsPending db.sessions db.leases x
      → IsPending db'.sessions db'.leases x
  unfolding mark_session_failed mark_session_observed
  Scheduled-IsPending s x db db' (inl (e, sessions, leases)) ne (free, there) =
      let same =
        row-update_any Session.id x.id (λ y. y.id == s.id) (set_failed now (failed_transition e))
          (λ y. refl) db.sessions in
      (rw leases free, rw sessions (λ gone. there (ground (arith, same))))
  Scheduled-IsPending s x db db' (inr (address, sessions, got)) ne (free, there) =
      let same =
        row-update_any Session.id x.id (λ y. y.id == s.id)
          (set_status_observed now (provisioning_transition s.generation)) (λ y. refl)
          db.sessions in
      let held = has_lease-ensure s.id x.id db.leases got in
      (ground (arith, held), rw sessions (λ gone. there (ground (arith, same))))

  Scheduled-IsConsistent :
      (s : Session) (db db' : ControlDb)
      → Scheduled s db db'
      → IsPending db.sessions db.leases s
      → IsConsistent next_id db.sessions db.leases
      → IsConsistent next_id db'.sessions db'.leases
  unfolding mark_session_failed mark_session_observed
  Scheduled-IsConsistent s db db' (inl (e, sessions, leases)) (free, there) h =
      rw (sessions, leases)
        (update-IsConsistent (λ x. x.id == s.id) (set_failed now (failed_transition e)) next_id
          db.sessions db.leases (λ x. refl) (λ x t q. ground arith) h)
  Scheduled-IsConsistent s db db' (inr (address, sessions, got)) (free, there) h = rw sessions (
      lease-IsConsistent s.id (set_status_observed now (provisioning_transition s.generation))
        next_id db.sessions db.leases db'.leases (λ x. refl) (λ x. refl)
        (λ id. has_lease-ensure s.id id db.leases got) there
        (ensure_client_address_lease-some s.id db.leases h.exclusive got).0 h)

  All-IsPending :
      (s : Session) (xs : List Session) (db db' : ControlDb)
      → Scheduled s db db'
      → All (λ (x : Session). x.id ≢ s.id) xs
      → All (IsPending db.sessions db.leases) xs
      → All (IsPending db'.sessions db'.leases) xs
  All-IsPending s [] db db' r ne a = tt
  All-IsPending s (x ∷ xs) db db' r ne a =
      (Scheduled-IsPending s x db db' r ne.0 a.0, All-IsPending s xs db db' r ne.1 a.1)

  pub provision_each-IsConsistent :
      (ss : List Session) (db : ControlDb) {db' : ControlDb}
      → All (IsPending db.sessions db.leases) ss
      → Distinct Session.id ss
      → provision_each to_uuid render now ss db ≡ some db'
      → IsConsistent next_id db.sessions db.leases
      → IsConsistent next_id db'.sessions db'.leases
  unfolding provision_each
  provision_each-IsConsistent [] db {db'} a d e h =
      let same : db ≡ db' = ground arith in rw (← same) h
  provision_each-IsConsistent (s ∷ ss) db {db'} a d e h =
      elim (Option-cases (schedule_session to_uuid render now s db)) [
        | inl thrown ↦ ground arith
        | inr (c, done) ↦
            let r = schedule_session-Scheduled s db c done in
            provision_each-IsConsistent ss c {db' = db'} (All-IsPending s ss db c r d.0 a.1) d.1
              (ground arith) (Scheduled-IsConsistent s db c r a.0 h)
      ]
