-- ===== src/Lease/Search.antt =====
-- The search over the pools: in which pool an address was found, or that all pools are full.
use mathlib.Core.Path.{subst}
use native.Mathlib.Nat.{mod-lt, one-le-pow}
use z_wireguard_vpn.Common.{
  ℕ, ◌+◌, ◌-◌, ◌%◌, ◌≤◌, ◌<◌, ◌≡◌, true, false, Option, none, some, List, [], ◌∷◌, ◌++◌, arith,
  ◌==◌, All, count, inl, inr, Option-cases,
}
use z_wireguard_vpn.Lease.{AddressPool, LeaseDb, is_taken, new_lease}
use z_wireguard_vpn.Lease.Allocator.{PoolRange, parse_ipv4_cidr, try_offsets, try_pools}
use z_wireguard_vpn.Lease.Pool.{try_offsets-found, try_offsets-exhausted}

parse_ipv4_cidr-size :
    (c : Option (ℕ × ℕ)) {range : PoolRange} → parse_ipv4_cidr c ≡ some range → 0 < range.size
unfolding parse_ipv4_cidr
parse_ipv4_cidr-size c e = elim (Option-cases c) [
  | inl unreadable ↦ ground arith
  | inr ((address, prefix), known) ↦
      let positive = one-le-pow (32 - prefix) 2 (omega arith) in ground arith
]

-- A pool of the list in which the address of a lease lies.
pub record Origin (pools : List AddressPool) (address : ℕ) : Type 0 where
  pub pool : AddressPool
  pub listed : 1 ≤ count (λ p. p.id == pool.id) pools
  pub range : PoolRange
  pub range_eq : parse_ipv4_cidr pool.cidr ≡ some range
  pub at_least : range.base ≤ address
  pub below : address < range.base + range.size

-- What a search over pools that leased an address did.
abbrev pub Found : List AddressPool → ℕ → ℕ → LeaseDb → LeaseDb → Type 0
Found pools session_id address db db' =
    (s : Origin pools address) × (is_taken session_id address db ≡ false)
    × (db'.leases ≡ db.leases ++ new_lease s.pool.id session_id address ∷ [])

later :
    (p : AddressPool) (pools : List AddressPool) (session_id address : ℕ) (db db' : LeaseDb)
    → Found pools session_id address db db'
    → Found (p ∷ pools) session_id address db db'
later p pools session_id address db db' (s, free, added) = (
  record {
    pool = s.pool;
    listed = omega (arith, s.listed);
    range = s.range;
    range_eq = s.range_eq;
    at_least = s.at_least;
    below = s.below;
  },
  free,
  added,
)

pub try_pools-Found :
    (pools : List AddressPool) (session_id : ℕ) (db : LeaseDb) {address : ℕ} {db' : LeaseDb}
    → try_pools pools session_id db ≡ (some address, db')
    → Found pools session_id address db db'
unfolding try_pools
try_pools-Found [] session_id db e = ground arith
try_pools-Found (pool ∷ pools) session_id db {address} {db'} e =
    elim (Option-cases (parse_ipv4_cidr pool.cidr)) [
      | inl unreadable ↦
          later pool pools session_id address db db'
            (try_pools-Found pools session_id db {db' = db'} (ground arith))
      | inr (range, r) ↦
          let pos = parse_ipv4_cidr-size pool.cidr r in
          let start = pool.next_offset % range.size in
          let (result, tried) = try_offsets range.size 0 start pool range session_id db in
          elim (Option-cases (try_offsets range.size 0 start pool range session_id db).0) [
            | inl full ↦
                let failed : try_offsets range.size 0 start pool range session_id db
                    ≡ (none, tried) =
                  ground arith in
                let same =
                  (try_offsets-exhausted start pool range session_id db
                    (mod-lt pool.next_offset pos) failed).0 in
                later pool pools session_id address db db'
                  (try_pools-Found pools session_id db {db' = db'} (ground arith))
            | inr (a, got) ↦
                let won : try_offsets range.size 0 start pool range session_id db
                    ≡ (some address, db') =
                  ground arith in
                let l = try_offsets-found range.size 0 start pool range session_id db pos won in
                (
                  record {
                    pool = pool;
                    listed = ground arith;
                    range = range;
                    range_eq = r;
                    at_least = omega (arith, l.address_eq);
                    below = omega (arith, l.address_eq, l.in_pool);
                  },
                  l.free,
                  l.leases_eq,
                )
          ]
    ]

-- The addresses of a pool that can be read are all taken for a session.
abbrev pub IsFull : ℕ → LeaseDb → AddressPool → Type 0
IsFull session_id db pool =
    (range : PoolRange)
    → parse_ipv4_cidr pool.cidr ≡ some range
    → (offset : ℕ) → offset < range.size
    → is_taken session_id (range.base + offset) db ≡ true

pub try_pools-none :
    (pools : List AddressPool) (session_id : ℕ) (db : LeaseDb) {db' : LeaseDb}
    → try_pools pools session_id db ≡ (none, db')
    → (db' ≡ db) × All (IsFull session_id db) pools
unfolding try_pools
try_pools-none [] session_id db e = (ground arith, tt)
try_pools-none (pool ∷ pools) session_id db {db'} e =
    elim (Option-cases (parse_ipv4_cidr pool.cidr)) [
      | inl unreadable ↦
          let (same, rest) = try_pools-none pools session_id db {db' = db'} (ground arith) in
          (same, (λ range r. ground arith, rest))
      | inr (range, r) ↦
          let pos = parse_ipv4_cidr-size pool.cidr r in
          let start = pool.next_offset % range.size in
          let (result, tried) = try_offsets range.size 0 start pool range session_id db in
          elim (Option-cases (try_offsets range.size 0 start pool range session_id db).0) [
            | inl full ↦
                let failed : try_offsets range.size 0 start pool range session_id db
                    ≡ (none, tried) =
                  ground arith in
                let (same, taken) =
                  try_offsets-exhausted start pool range session_id db (mod-lt pool.next_offset pos)
                    failed in
                let (same', rest) = try_pools-none pools session_id db {db' = db'} (ground arith) in
                (
                  same',
                  (
                    λ range' r' offset o.
                        let eq : range ≡ range' = ground arith in
                        subst (λ x. is_taken session_id (x.base + offset) db ≡ true) eq
                          (taken offset (ground arith)),
                    rest,
                  ),
                )
            | inr (a, got) ↦ ground arith
          ]
    ]
