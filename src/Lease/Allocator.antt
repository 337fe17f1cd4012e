-- ===== src/Lease/Allocator.antt =====
-- The allocator of client addresses: packages/control-plane/src/resources/addresses/allocator.ts.
use z_wireguard_vpn.Common.{
  ℕ, zero, suc, ◌+◌, ◌-◌, ◌*◌, ◌/◌, ◌%◌, ◌^◌, Option, none, some, String, List, [], ◌∷◌, leb,
  if◌then◌else◌,
}
use z_wireguard_vpn.Lease.{
  AddressPool, LeaseDb, find_active_client_address_lease, list_wire_guard_address_pools_for_update,
  try_insert_client_address_lease, update_address_pool_next_offset,
  mark_client_address_lease_released,
}

pub record PoolRange : Type 0 where
  pub base : ℕ
  pub prefix : ℕ
  pub size : ℕ

unfoldable pub parse_ipv4_cidr : Option (ℕ × ℕ) → Option PoolRange
parse_ipv4_cidr none = none
parse_ipv4_cidr (some (address, prefix)) =
    let size = 2 ^ (32 - prefix) in
    if leb prefix 32
    then some (record { base = address / size * size; prefix = prefix; size = size })
    else none

-- The four octets of an address, as its text writes them.
unfoldable pub int_to_ipv4 : ℕ → ℕ × ℕ × ℕ × ℕ
int_to_ipv4 value = (value / 16777216 % 256, value / 65536 % 256, value / 256 % 256, value % 256)

-- `ipv4ToInt` on octets that are below 256.
unfoldable pub ipv4_to_int : ℕ × ℕ × ℕ × ℕ → ℕ
ipv4_to_int (a, b, c, d) = ((a * 256 + b) * 256 + c) * 256 + d

-- The attempts that are left, the number of the next one, and the result.
unfoldable pub try_offsets : ℕ → ℕ → ℕ → AddressPool → PoolRange → ℕ → LeaseDb → Option ℕ × LeaseDb
try_offsets zero attempt start pool range session_id db = (none, db)
try_offsets (suc left) attempt start pool range session_id db =
    let offset = (start + attempt) % range.size in
    let (inserted, db') =
      try_insert_client_address_lease pool.id session_id (range.base + offset) db in
    let rest = try_offsets left (attempt + 1) start pool range session_id db' in
    elim inserted [
      | none ↦ rest
      | some address ↦
          (some address, update_address_pool_next_offset pool.id ((offset + 1) % range.size) db')
    ]

-- The loop over the pools. A pool that cannot be read is passed over.
unfoldable pub try_pools : List AddressPool → ℕ → LeaseDb → Option ℕ × LeaseDb
try_pools [] session_id db = (none, db)
try_pools (pool ∷ pools) session_id db = elim (parse_ipv4_cidr pool.cidr) [
  | none ↦ try_pools pools session_id db
  | some range ↦
      let (address, db') =
        try_offsets range.size 0 (pool.next_offset % range.size) pool range session_id db in
      elim address [ none ↦ try_pools pools session_id db' | some a ↦ (some a, db') ]
]

-- The address is leased as a /32, and its lease is the one that is active.
unfoldable pub ensure_client_address_lease : ℕ → LeaseDb → Option ℕ × LeaseDb
ensure_client_address_lease session_id db = elim (find_active_client_address_lease session_id db) [
  | some address ↦ (some address, db)
  | none ↦ try_pools (list_wire_guard_address_pools_for_update db) session_id db
]

unfoldable pub release_client_address_lease : ℕ → ℕ → String → LeaseDb → LeaseDb
release_client_address_lease now session_id reason db =
    mark_client_address_lease_released now session_id reason db
