-- ===== src/Lease/Pool.antt =====
-- One pool: the attempts go once around all its addresses.
use native.Mathlib.Nat.{mod-lt, mod-eq_of_lt, add-mod_right}
use z_wireguard_vpn.Common.{
  ℕ, zero, suc, ◌+◌, ◌-◌, ◌%◌, ◌≤◌, ◌<◌, ◌≡◌, true, false, none, some, [], ◌∷◌, ◌++◌, arith, ◌==◌,
  leb, inl, inr, Bool-cases,
}
use z_wireguard_vpn.Lease.{
  AddressPool, LeaseDb, is_taken, new_lease, try_insert_client_address_lease,
  update_address_pool_next_offset,
}
use z_wireguard_vpn.Lease.Allocator.{PoolRange, try_offsets, int_to_ipv4, ipv4_to_int}

-- What a search that leased an address did.
pub record Leased (range : PoolRange) (pool session_id address : ℕ) (db db' : LeaseDb)
    : Type 0 where
  pub offset : ℕ
  pub in_pool : offset < range.size
  pub address_eq : address ≡ range.base + offset
  pub free : is_taken session_id address db ≡ false
  pub leases_eq : db'.leases ≡ db.leases ++ new_lease pool session_id address ∷ []

pub try_offsets-found :
    (left attempt start : ℕ) (pool : AddressPool) (range : PoolRange) (session_id : ℕ)
    (db : LeaseDb) {address : ℕ} {db' : LeaseDb}
    → 0 < range.size
    → try_offsets left attempt start pool range session_id db ≡ (some address, db')
    → Leased range pool.id session_id address db db'
unfolding try_offsets try_insert_client_address_lease update_address_pool_next_offset
try_offsets-found zero attempt start pool range session_id db pos e = ground arith
try_offsets-found (suc left) attempt start pool range session_id db {address} {db'} pos e =
    let offset = (start + attempt) % range.size in
    elim (Bool-cases (is_taken session_id (range.base + offset) db)) [
      | inl taken ↦
          try_offsets-found left (attempt + 1) start pool range session_id db pos (ground arith)
      | inr free ↦
          let same : address ≡ range.base + offset = ground arith in
          record {
            offset = offset;
            in_pool = mod-lt (start + attempt) pos;
            address_eq = same;
            free = rw same free;
            leases_eq = ground arith;
          }
    ]

-- A search that found none changed nothing, and every address that it tried is taken.
pub try_offsets-none :
    (left attempt start : ℕ) (pool : AddressPool) (range : PoolRange) (session_id : ℕ)
    (db : LeaseDb) {db' : LeaseDb}
    → try_offsets left attempt start pool range session_id db ≡ (none, db')
    → (db' ≡ db)
      × ((n : ℕ)
          → attempt ≤ n
          → n < attempt + left
          → is_taken session_id (range.base + (start + n) % range.size) db ≡ true)
unfolding try_offsets try_insert_client_address_lease
try_offsets-none zero attempt start pool range session_id db e =
    (ground arith, λ n lo hi. ground arith)
try_offsets-none (suc left) attempt start pool range session_id db {db'} e =
    elim (Bool-cases (is_taken session_id (range.base + (start + attempt) % range.size) db)) [
      | inl taken ↦
          let (same, rest) =
            try_offsets-none left (attempt + 1) start pool range session_id db {db' = db'}
              (ground arith) in
          (
            same,
            λ n lo hi. elim (Bool-cases (n == attempt)) [
              | inl here ↦ let eq : n ≡ attempt = ground arith in rw eq taken
              | inr later ↦ rest n (ground arith) (omega arith)
            ],
          )
      | inr free ↦ ground arith
    ]

-- Every offset is tried in a round that starts anywhere.
round :
    (start offset size : ℕ)
    → start < size
    → offset < size
    → (n : ℕ) × (n < size) × ((start + n) % size ≡ offset)
round start offset size s o = elim (Bool-cases (leb start offset)) [
  | inl ahead ↦
      let sum : start + (offset - start) ≡ offset = ground arith in
      (offset - start, ground arith, rw sum (mod-eq_of_lt o))
  | inr behind ↦
      let sum : start + (offset + size - start) ≡ offset + size = ground arith in
      (
        offset + size - start,
        ground arith,
        rw sum (rw (add-mod_right offset size) (mod-eq_of_lt o)),
      )
]

pub try_offsets-exhausted :
    (start : ℕ) (pool : AddressPool) (range : PoolRange) (session_id : ℕ) (db : LeaseDb)
    {db' : LeaseDb}
    → start < range.size
    → try_offsets range.size 0 start pool range session_id db ≡ (none, db')
    → (db' ≡ db)
      × ((offset : ℕ) → offset < range.size → is_taken session_id (range.base + offset) db ≡ true)
try_offsets-exhausted start pool range session_id db s e =
    let (same, taken) = try_offsets-none range.size 0 start pool range session_id db e in
    (
      same,
      λ offset o.
          let (n, less, hit) = round start offset range.size s o in
          let t = taken n (omega arith) (omega arith) in rw hit at t,
    )

-- The octets of an IPv4 address are bytes and make up the address again.
pub ipv4_to_int-int_to_ipv4 :
    (value : ℕ) → value < 4294967296 → ipv4_to_int (int_to_ipv4 value) ≡ value
unfolding ipv4_to_int int_to_ipv4
ipv4_to_int-int_to_ipv4 value less = omega arith
