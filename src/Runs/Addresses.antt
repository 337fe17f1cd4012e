-- ===== src/Runs/Addresses.antt =====
-- The addresses of the sessions of a run.
use z_wireguard_vpn.Common.{
  ℕ, ◌≡◌, ◌≢◌, ◌≤◌, true, false, Option, none, some, List, [], ◌∷◌, arith, ◌==◌, count, find?, inl,
  inr, Option-cases, Bool-cases,
}
use z_wireguard_vpn.Common.Table.{row, find?-All}
use z_wireguard_vpn.Session.{Session, SessionPhase, provisioning, degraded, revoking}
use z_wireguard_vpn.Lease.{
  ClientAddressLease, LeaseDb, is_active_at, is_active_of, find_active_client_address_lease,
}
use z_wireguard_vpn.Lease.Holders.{has_lease}
use z_wireguard_vpn.Runs.{World, Reachable}
use z_wireguard_vpn.Runs.Shape.{Fits}
use z_wireguard_vpn.Runs.Steps.{Reachable-IsConsistent}

-- The address of a session in a phase.
abbrev pub Suits : SessionPhase → Option ℕ → Type 0
Suits provisioning address = (a : ℕ) × (address ≡ some a)
Suits SessionPhase.active address = (a : ℕ) × (address ≡ some a)
Suits degraded address = (a : ℕ) × (address ≡ some a)
Suits revoking address = Unit {0}
Suits _ address = address ≡ none

abbrev pub address_of : ℕ → World → Option ℕ
address_of id w = find_active_client_address_lease id w.control.leases

pub record HasOwnAddresses (w : World) : Type 0 where
  pub addressed :
      (id : ℕ) {s : Session}
      → row Session.id id w.control.sessions ≡ some s
      → Suits s.phase (address_of id w)
  pub unknown : (id : ℕ) → row Session.id id w.control.sessions ≡ none → address_of id w ≡ none
  pub apart :
      (id other : ℕ) {a b : ℕ}
      → id ≢ other
      → address_of id w ≡ some a
      → address_of other w ≡ some b
      → a ≢ b

held-some :
    (id : ℕ) (db : LeaseDb)
    → has_lease id db ≡ true
    → (a : ℕ) × (find_active_client_address_lease id db ≡ some a)
unfolding find_active_client_address_lease
held-some id db h = elim (Option-cases (find? (is_active_of id) db.leases)) [
  | inl gone ↦ ground arith
  | inr (l, there) ↦ (l.client_address, ground arith)
]

unheld-none :
    (id : ℕ) (db : LeaseDb)
    → has_lease id db ≡ false
    → find_active_client_address_lease id db ≡ none
unfolding find_active_client_address_lease
unheld-none id db h = elim (Option-cases (find? (is_active_of id) db.leases)) [
  | inl gone ↦ ground arith
  | inr (l, there) ↦ ground arith
]

suits :
    (phase : SessionPhase) (id : ℕ) (db : LeaseDb)
    → Fits phase (has_lease id db)
    → Suits phase (find_active_client_address_lease id db)
suits SessionPhase.requested id db h = unheld-none id db h
suits SessionPhase.payment_pending id db h = unheld-none id db h
suits SessionPhase.probing id db h = unheld-none id db h
suits SessionPhase.scheduling id db h = unheld-none id db h
suits provisioning id db h = held-some id db h
suits SessionPhase.active id db h = held-some id db h
suits degraded id db h = held-some id db h
suits revoking id db h = tt
suits SessionPhase.revoked id db h = unheld-none id db h
suits SessionPhase.failed id db h = unheld-none id db h

one-count :
    (id a : ℕ) (xs : List ClientAddressLease) {l : ClientAddressLease}
    → find? (is_active_of id) xs ≡ some l
    → l.client_address ≡ a
    → 1 ≤ count (is_active_at a) xs
one-count id a [] f e = cc
one-count id a (x ∷ xs) {l} f e = elim (Bool-cases (is_active_of id x)) [
  | inl here ↦
      let same : x ≡ l = ground arith in
      let at : x.client_address ≡ a = rw same e in ground (arith, at, here)
  | inr other ↦ let ih = one-count id a xs {l = l} (ground arith) e in ground (arith, ih)
]

two-count :
    (id other a : ℕ) (xs : List ClientAddressLease) {l m : ClientAddressLease}
    → id ≢ other
    → find? (is_active_of id) xs ≡ some l
    → find? (is_active_of other) xs ≡ some m
    → l.client_address ≡ a
    → m.client_address ≡ a
    → 2 ≤ count (is_active_at a) xs
two-count id other a [] ne f g e d = cc
two-count id other a (x ∷ xs) {l} {m} ne f g e d = elim (Bool-cases (is_active_of id x)) [
  | inl here ↦
      let same : x ≡ l = ground arith in
      let at : x.client_address ≡ a = rw same e in
      let different : is_active_of other x ≡ false = ground arith in
      let rest = one-count other a xs {l = m} (ground (arith, different)) d in
      ground (arith, at, here, rest)
  | inr other_one ↦ elim (Bool-cases (is_active_of other x)) [
    | inl here ↦
        let same : x ≡ m = ground arith in
        let at : x.client_address ≡ a = rw same d in
        let rest = one-count id a xs {l = l} (ground (arith, other_one)) e in
        ground (arith, at, here, rest)
    | inr neither ↦
        let ih =
          two-count id other a xs {l = l} {m = m} ne (ground (arith, other_one))
            (ground (arith, neither)) e d in
        ground (arith, ih)
  ]
]

-- In every database that a run of the steps of `Step` reaches, a session that is provisioned, active or
-- degraded holds an address, a session that waits, has failed or is revoked holds none, no address is held
-- for a session that does not exist, and no two sessions hold the same address.
pub Reachable-HasOwnAddresses : {w : World} → Reachable w → HasOwnAddresses w
unfolding find_active_client_address_lease
Reachable-HasOwnAddresses {w} r =
    let h = Reachable-IsConsistent r in
    let db = w.control.leases in
    record {
      addressed = λ id {s} e.
          let (fit, at) =
            find?-All (λ (s : Session). Fits s.phase (has_lease s.id db))
              (λ (s : Session). s.id == id) w.control.sessions h.fits e in
          let same : s.id ≡ id = ground arith in suits s.phase id db (rw same at fit);
      unknown = λ id e. unheld-none id db (h.absent id e);
      apart = λ id other {a} {b} ne e d. elim (Option-cases (find? (is_active_of id) db.leases)) [
        | inl gone ↦ ground arith
        | inr (l, held) ↦ elim (Option-cases (find? (is_active_of other) db.leases)) [
          | inl gone ↦ ground arith
          | inr (m, held') ↦ λ same.
              let two =
                two-count id other a db.leases {l = l} {m = m} ne held held' (ground arith)
                  (ground arith) in
              let one = h.exclusive.one_per_address a in omega arith
        ]
      ];
    }
