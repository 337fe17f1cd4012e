-- ===== src/Lease/Holders.antt =====
-- Which sessions hold an address, and how the allocator changes that.
use z_wireguard_vpn.Common.{
  ℕ, ◌≡◌, Bool, true, false, some, String, List, [], ◌∷◌, arith, ◌==◌, find?, is_some,
  if◌then◌else◌, inl, inr, Option-cases, Bool-cases,
}
use z_wireguard_vpn.Common.Table.{update_where}
use z_wireguard_vpn.Common.Table.Find.{find?-append}
use z_wireguard_vpn.Lease.{
  ClientAddressLease, LeaseDb, is_active_of, new_lease, find_active_client_address_lease,
  list_wire_guard_address_pools_for_update, mark_client_address_lease_released,
}
use z_wireguard_vpn.Lease.Allocator.{ensure_client_address_lease, release_client_address_lease}
use z_wireguard_vpn.Lease.Search.{try_pools-Found}

abbrev pub has_lease : ℕ → LeaseDb → Bool
has_lease session_id db = is_some (find? (is_active_of session_id) db.leases)

released-find? :
    (now k id : ℕ) (reason : String) (xs : List ClientAddressLease)
    → is_some (
        find? (is_active_of id) (
          update_where
            (is_active_of k)
            (λ l. record l { released_at = some now; release_reason = some reason })
            xs))
      ≡ (if k == id then false else is_some (find? (is_active_of id) xs))
released-find? now k id reason [] = ground arith
released-find? now k id reason (x ∷ xs) = ground (arith, released-find? now k id reason xs)

-- A release takes the address of its session, and of no other.
pub has_lease-release :
    (now k id : ℕ) (reason : String) (db : LeaseDb)
    → has_lease id (release_client_address_lease now k reason db)
      ≡ (if k == id then false else has_lease id db)
unfolding release_client_address_lease mark_client_address_lease_released
has_lease-release now k id reason db = released-find? now k id reason db.leases

-- An allocation gives an address to its session, and to no other.
pub has_lease-ensure :
    (k id : ℕ) (db : LeaseDb) {address : ℕ} {db' : LeaseDb}
    → ensure_client_address_lease k db ≡ (some address, db')
    → has_lease id db' ≡ (if k == id then true else has_lease id db)
unfolding ensure_client_address_lease find_active_client_address_lease
has_lease-ensure k id db {address} {db'} e =
    let pools = list_wire_guard_address_pools_for_update db in
    elim (Option-cases (find? (is_active_of k) db.leases)) [
      | inr (l, held) ↦
          let same : db ≡ db' = ground arith in
          elim (Bool-cases (k == id)) [
            | inl here ↦ let eq : k ≡ id = ground arith in rw (← same) (rw (← eq) (ground arith))
            | inr other ↦ rw (← same) (ground arith)
          ]
      | inl without ↦
          let (origin, free, added) =
            try_pools-Found pools k db {address = address} {db' = db'} (ground arith) in
          let l = new_lease origin.pool.id k address in
          let appended = find?-append (is_active_of id) db.leases l in
          elim (Bool-cases (k == id)) [
            | inl here ↦ let eq : k ≡ id = ground arith in rw added (ground (arith, appended))
            | inr other ↦ rw added (ground (arith, appended))
          ]
    ]
