-- ===== src/Lease/Tests.antt =====
-- Address leases at concrete inputs.
use z_wireguard_vpn.Common.{
  ℕ, ◌+◌, ◌≡◌, ◌<◌, ◌⊎◌, refl, true, false, none, some, [], ◌∷◌, All, any, arith,
}
use z_wireguard_vpn.Lease.{
  AddressPool, LeaseDb, new_lease, is_taken, is_active_at, find_active_client_address_lease,
  list_wire_guard_address_pools_for_update, try_insert_client_address_lease,
  update_address_pool_next_offset,
}
use z_wireguard_vpn.Lease.Allocator.{
  PoolRange, parse_ipv4_cidr, ensure_client_address_lease, try_pools, try_offsets,
}
use z_wireguard_vpn.Lease.Search.{Origin}
use z_wireguard_vpn.Lease.Allocation.{
  IsExclusive, ensure_client_address_lease-some, ensure_client_address_lease-none,
}

-- The pool 10.0.0.0/31, whose second address is leased.
abbrev a_pool : ℕ → AddressPool
a_pool next = record {
  id = 1;
  cidr = some (167772161, 31);
  next_offset = next;
  enabled = true;
  family = 4;
  is_for_clients = true;
}

abbrev half_full : LeaseDb
half_full = record { pools = a_pool 1 ∷ []; leases = new_lease 1 5 167772161 ∷ [] }

abbrev full : LeaseDb
full = record {
  pools = a_pool 1 ∷ [];
  leases = new_lease 1 5 167772161 ∷ new_lease 1 6 167772160 ∷ [];
}

half_full-IsExclusive : IsExclusive half_full
half_full-IsExclusive = record {
  one_per_address = λ a. ground arith;
  one_per_session = λ s. ground arith;
}

got : ensure_client_address_lease 6 half_full ≡ (some 167772160, full)
unfolding ensure_client_address_lease find_active_client_address_lease try_pools
    list_wire_guard_address_pools_for_update parse_ipv4_cidr try_offsets
    try_insert_client_address_lease update_address_pool_next_offset
got = refl

got_none : ensure_client_address_lease 7 full ≡ (none, full)
unfolding ensure_client_address_lease find_active_client_address_lease try_pools
    list_wire_guard_address_pools_for_update parse_ipv4_cidr try_offsets
    try_insert_client_address_lease
got_none = refl

ensure_client_address_lease-some_example :
    IsExclusive full
    × (find_active_client_address_lease 6 full ≡ some 167772160)
    × ((full ≡ half_full)
        ⊎ (Origin (list_wire_guard_address_pools_for_update half_full) 167772160
            × (is_taken 6 167772160 half_full ≡ false)))
ensure_client_address_lease-some_example =
    ensure_client_address_lease-some 6 half_full half_full-IsExclusive got

ensure_client_address_lease-none_example :
    (full ≡ full)
    × (find_active_client_address_lease 7 full ≡ none)
    × All
        (λ pool.
          (range : PoolRange)
          → parse_ipv4_cidr pool.cidr ≡ some range
          → (offset : ℕ) → offset < range.size
          → any (is_active_at (range.base + offset)) full.leases ≡ true)
        (list_wire_guard_address_pools_for_update full)
ensure_client_address_lease-none_example = ensure_client_address_lease-none 7 full got_none
