-- ===== src/Lease/Allocation.antt =====
-- The allocator as a whole: who gets which address, and when there is none.
use z_wireguard_vpn.Common.{
  ℕ, ◌+◌, ◌≤◌, ◌<◌, ◌≡◌, ◌⊎◌, refl, Bool, true, false, ◌||◌, none, some, String, List, [], ◌∷◌,
  ◌++◌, arith, ◌==◌, any, All, count, find?, inl, inr, Bool-cases, Option-cases,
}
use z_wireguard_vpn.Common.Table.{update_where, count-append, count-update_where_le, All-map}
use z_wireguard_vpn.Lease.{
  ClientAddressLease, LeaseDb, is_taken, is_active_at, is_active_of, new_lease,
  find_active_client_address_lease, list_wire_guard_address_pools_for_update,
  mark_client_address_lease_released,
}
use z_wireguard_vpn.Lease.Allocator.{
  PoolRange, parse_ipv4_cidr, ensure_client_address_lease, release_client_address_lease,
}
use z_wireguard_vpn.Lease.Search.{Origin, IsFull, try_pools-Found, try_pools-none}

-- Each address and each session has one active lease at most.
pub record IsExclusive (db : LeaseDb) : Type 0 where
  pub one_per_address : (address : ℕ) → count (is_active_at address) db.leases ≤ 1
  pub one_per_session : (session_id : ℕ) → count (is_active_of session_id) db.leases ≤ 1

any_or-count :
    (p q : ClientAddressLease → Bool) (xs : List ClientAddressLease)
    → any (λ x. p x || q x) xs ≡ false
    → (count p xs ≡ 0) × (count q xs ≡ 0)
any_or-count p q [] e = (refl, refl)
any_or-count p q (x ∷ xs) e = let ih = any_or-count p q xs (ground arith) in ground (arith, ih)

any_or-left :
    (p q : ClientAddressLease → Bool) (xs : List ClientAddressLease)
    → find? q xs ≡ none
    → any (λ x. p x || q x) xs ≡ true
    → any p xs ≡ true
any_or-left p q [] f e = e
any_or-left p q (x ∷ xs) f e = ground (arith, any_or-left p q xs)

find?-new :
    (p : ClientAddressLease → Bool) (xs : List ClientAddressLease) (l : ClientAddressLease)
    → find? p xs ≡ none
    → p l ≡ true
    → find? p (xs ++ l ∷ []) ≡ some l
find?-new p [] l f e = ground arith
find?-new p (x ∷ xs) l f e = ground (arith, find?-new p xs l)

new-IsExclusive :
    (pool session_id address : ℕ) (db db' : LeaseDb)
    → is_taken session_id address db ≡ false
    → db'.leases ≡ db.leases ++ new_lease pool session_id address ∷ []
    → IsExclusive db
    → IsExclusive db'
new-IsExclusive pool session_id address db db' free added h =
    let l = new_lease pool session_id address in
    let (no_address, no_session) =
      any_or-count (is_active_at address) (is_active_of session_id) db.leases free in
    record {
      one_per_address = λ a. elim (Bool-cases (address == a)) [
        | inl here ↦
            let same : address ≡ a = ground arith in
            rw (added, ← same)
              (ground (arith, count-append (is_active_at address) db.leases (l ∷ []), no_address))
        | inr other ↦
            rw added (
              ground (arith, count-append (is_active_at a) db.leases (l ∷ []), h.one_per_address a))
      ];
      one_per_session = λ s. elim (Bool-cases (session_id == s)) [
        | inl here ↦
            let same : session_id ≡ s = ground arith in
            rw (added, ← same)
              (ground
                (arith, count-append (is_active_of session_id) db.leases (l ∷ []), no_session))
        | inr other ↦
            rw added (
              ground (arith, count-append (is_active_of s) db.leases (l ∷ []), h.one_per_session s))
      ];
    }

-- A session that asks for an address and gets one holds it: it is the address of its active lease
-- afterwards. Either it held it before and nothing changed, or nobody held it and it lies in an
-- enabled pool. Each address and each session keep one active lease at most.
pub ensure_client_address_lease-some :
    (session_id : ℕ) (db : LeaseDb) {address : ℕ} {db' : LeaseDb}
    → IsExclusive db
    → ensure_client_address_lease session_id db ≡ (some address, db')
    → IsExclusive db'
      × (find_active_client_address_lease session_id db' ≡ some address)
      × ((db' ≡ db)
          ⊎ (Origin (list_wire_guard_address_pools_for_update db) address
              × (is_taken session_id address db ≡ false)))
unfolding ensure_client_address_lease find_active_client_address_lease
ensure_client_address_lease-some session_id db {address} {db'} h e =
    let pools = list_wire_guard_address_pools_for_update db in
    elim (Option-cases (find? (is_active_of session_id) db.leases)) [
      | inl without ↦
          let (origin, free, added) =
            try_pools-Found pools session_id db {address = address} {db' = db'} (ground arith) in
          let l = new_lease origin.pool.id session_id address in
          let stored = find?-new (is_active_of session_id) db.leases l without (ground arith) in
          (
            new-IsExclusive origin.pool.id session_id address db db' free added h,
            rw added (ground arith),
            inr (origin, free),
          )
      | inr (l, held) ↦
          let same : db ≡ db' = ground arith in (rw (← same) h, ground arith, inl (ground arith))
    ]

-- A session gets no address only if it holds none and every address of every enabled pool that can
-- be read is leased to another; then nothing changed.
pub ensure_client_address_lease-none :
    (session_id : ℕ) (db : LeaseDb) {db' : LeaseDb}
    → ensure_client_address_lease session_id db ≡ (none, db')
    → (db' ≡ db)
      × (find_active_client_address_lease session_id db ≡ none)
      × All
          (λ pool.
            (range : PoolRange)
            → parse_ipv4_cidr pool.cidr ≡ some range
            → (offset : ℕ) → offset < range.size
            → any (is_active_at (range.base + offset)) db.leases ≡ true)
          (list_wire_guard_address_pools_for_update db)
unfolding ensure_client_address_lease find_active_client_address_lease
ensure_client_address_lease-none session_id db {db'} e =
    let pools = list_wire_guard_address_pools_for_update db in
    elim (Option-cases (find? (is_active_of session_id) db.leases)) [
      | inl without ↦
          let (same, full) = try_pools-none pools session_id db {db' = db'} (ground arith) in
          (
            same,
            ground arith,
            All-map (IsFull session_id db)
                (λ pool.
                  (range : PoolRange)
                  → parse_ipv4_cidr pool.cidr ≡ some range
                  → (offset : ℕ) → offset < range.size
                  → any (is_active_at (range.base + offset)) db.leases ≡ true)
                (λ pool f range r offset o.
                  any_or-left (is_active_at (range.base + offset)) (is_active_of session_id)
                    db.leases without (f range r offset o))
                pools full,
          )
      | inr (l, held) ↦ ground arith
    ]

none-left :
    (now session_id : ℕ) (reason : String) (xs : List ClientAddressLease)
    → find? (is_active_of session_id) (
        update_where
          (is_active_of session_id)
          (λ l. record l { released_at = some now; release_reason = some reason })
          xs)
      ≡ none
none-left now session_id reason [] = refl
none-left now session_id reason (x ∷ xs) = ground (arith, none-left now session_id reason xs)

-- Releasing the address of a session leaves it without an active lease, so that the address can be
-- leased again, and keeps one active lease per address and per session.
pub release_client_address_lease_lem :
    (now session_id : ℕ) (reason : String) (db : LeaseDb)
    → IsExclusive db
    → let db' = release_client_address_lease now session_id reason db in
      IsExclusive db'
      × (find_active_client_address_lease session_id db' ≡ none)
      × ((address : ℕ)
          → count (is_active_at address) db'.leases ≤ count (is_active_at address) db.leases)
unfolding release_client_address_lease mark_client_address_lease_released
    find_active_client_address_lease
release_client_address_lease_lem now session_id reason db h =
    let f : ClientAddressLease → ClientAddressLease =
      λ l. record l { released_at = some now; release_reason = some reason } in
    let fewer =
      λ (q : ClientAddressLease → Bool)
          (k : (l : ClientAddressLease)
            → is_active_of session_id l ≡ true
            → q (f l) ≡ true
            → q l ≡ true).
        count-update_where_le q (is_active_of session_id) f k db.leases in
    let at = λ (a : ℕ). fewer (is_active_at a) (λ l t q. ground arith) in
    (
      record {
        one_per_address = λ a. let le = at a in omega (arith, le, h.one_per_address a);
        one_per_session = λ s.
            let le = fewer (is_active_of s) (λ l t q. ground arith) in
            omega (arith, le, h.one_per_session s);
      },
      (let gone = none-left now session_id reason db.leases in ground arith),
      at,
    )
