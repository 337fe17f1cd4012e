-- ===== src/Lease.antt =====
-- Leases of WireGuard client addresses: the tables of
-- packages/control-plane/src/resources/addresses/repository.ts and their statements. An IPv4 address
-- is its number.
pub mod Allocator
pub mod Pool
pub mod Search
pub mod Allocation
pub mod Holders
mod Tests
use z_wireguard_vpn.Common.{
  ℕ, Bool, true, false, not, ◌&&◌, ◌||◌, Option, none, some, String, List, [], ◌∷◌, ◌++◌, ◌==◌,
  if◌then◌else◌, any, filter, find?, is_some,
}
use z_wireguard_vpn.Common.Table.{update_where}

-- `cidr` is what the text of the column, which the database keeps canonical, says: an address and a
-- prefix length; `none` is a text that the allocator cannot read.
pub record AddressPool : Type 0 where
  pub id : ℕ
  pub cidr : Option (ℕ × ℕ)
  pub next_offset : ℕ
  pub enabled : Bool
  pub family : ℕ
  pub is_for_clients : Bool

pub record ClientAddressLease : Type 0 where
  pub pool_id : ℕ
  pub session_id : ℕ
  pub client_address : ℕ
  pub released_at : Option ℕ
  pub release_reason : Option String

-- The pools stand in the order of their priority and name.
pub record LeaseDb : Type 0 where
  pub pools : List AddressPool
  pub leases : List ClientAddressLease

abbrev pub is_active_lease : ClientAddressLease → Bool
is_active_lease l = not (is_some l.released_at)

abbrev pub is_active_of : ℕ → ClientAddressLease → Bool
is_active_of session_id l = l.session_id == session_id && is_active_lease l

abbrev pub is_active_at : ℕ → ClientAddressLease → Bool
is_active_at address l = l.client_address == address && is_active_lease l

unfoldable pub find_active_client_address_lease : ℕ → LeaseDb → Option ℕ
find_active_client_address_lease session_id db = elim (find? (is_active_of session_id) db.leases) [
  | none ↦ none
  | some l ↦ some l.client_address
]

unfoldable pub list_wire_guard_address_pools_for_update : LeaseDb → List AddressPool
list_wire_guard_address_pools_for_update db =
    filter (λ p. p.enabled && (p.family == 4 && p.is_for_clients)) db.pools

-- `ON CONFLICT DO NOTHING`: an active lease of the address or of the session stands in the way of
-- the two partial unique indices.
abbrev pub is_taken : ℕ → ℕ → LeaseDb → Bool
is_taken session_id address db =
    any (λ l. is_active_at address l || is_active_of session_id l) db.leases

abbrev pub new_lease : ℕ → ℕ → ℕ → ClientAddressLease
new_lease pool_id session_id address = record {
  pool_id = pool_id;
  session_id = session_id;
  client_address = address;
  released_at = none;
  release_reason = none;
}

unfoldable pub try_insert_client_address_lease : ℕ → ℕ → ℕ → LeaseDb → Option ℕ × LeaseDb
try_insert_client_address_lease pool_id session_id address db =
    if is_taken session_id address db then (none, db) else (
      some address,
      record db { leases = db.leases ++ new_lease pool_id session_id address ∷ [] },
    )

unfoldable pub update_address_pool_next_offset : ℕ → ℕ → LeaseDb → LeaseDb
update_address_pool_next_offset pool_id next_offset db = record db {
  pools =
      update_where (λ p. p.id == pool_id) (λ p. record p { next_offset = next_offset }) db.pools;
}

unfoldable pub mark_client_address_lease_released : ℕ → ℕ → String → LeaseDb → LeaseDb
mark_client_address_lease_released now session_id reason db = record db {
  leases =
      update_where (is_active_of session_id)
        (λ l. record l { released_at = some now; release_reason = some reason }) db.leases;
}
