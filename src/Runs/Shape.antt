-- ===== src/Runs/Shape.antt =====
-- What holds of the sessions and the address leases together, and the changes of one session that keep
-- it.
use z_wireguard_vpn.Common.{
  ℕ, ◌≤◌, ◌≡◌, ◌≢◌, Bool, true, false, none, String, List, arith, ◌==◌, count, All, if◌then◌else◌,
  inl, inr, Bool-cases,
}
use z_wireguard_vpn.Common.Table.{
  row, row-update_any, update_where, All-update_where, count-update_where_key,
}
use z_wireguard_vpn.Session.{Session, SessionPhase, provisioning, degraded, revoking}
use z_wireguard_vpn.Lease.{LeaseDb}
use z_wireguard_vpn.Lease.Allocation.{IsExclusive, release_client_address_lease_lem}
use z_wireguard_vpn.Lease.Allocator.{release_client_address_lease}
use z_wireguard_vpn.Lease.Holders.{has_lease, has_lease-release}

-- Whether a session in a phase holds an address: a session that is provisioned does, one that is being
-- revoked may, and no other does.
abbrev pub Fits : SessionPhase → Bool → Type 0
Fits provisioning held = held ≡ true
Fits SessionPhase.active held = held ≡ true
Fits degraded held = held ≡ true
Fits revoking held = Unit {0}
Fits _ held = held ≡ false

abbrev pub FitsLeases : LeaseDb → Session → Type 0
FitsLeases leases s = Fits s.phase (has_lease s.id leases)

pub record IsConsistent (next_id : ℕ) (sessions : List Session) (leases : LeaseDb) : Type 0 where
  pub unique : (id : ℕ) → count (λ (s : Session). s.id == id) sessions ≤ 1
  pub fits : All (FitsLeases leases) sessions
  pub absent : (id : ℕ) → row Session.id id sessions ≡ none → has_lease id leases ≡ false
  pub fresh : (id : ℕ) → next_id ≤ id → row Session.id id sessions ≡ none
  pub exclusive : IsExclusive leases

row-update_none :
    (id : ℕ) (p : Session → Bool) (f : Session → Session) (sessions : List Session)
    → ((s : Session) → Session.id (f s) ≡ s.id)
    → row Session.id id (update_where p f sessions) ≡ none
    → row Session.id id sessions ≡ none
row-update_none id p f sessions keeps e =
    let same = row-update_any Session.id id p f keeps sessions in ground (arith, same)

row-update_fresh :
    (id : ℕ) (p : Session → Bool) (f : Session → Session) (sessions : List Session)
    → ((s : Session) → Session.id (f s) ≡ s.id)
    → row Session.id id sessions ≡ none
    → row Session.id id (update_where p f sessions) ≡ none
row-update_fresh id p f sessions keeps e =
    let same = row-update_any Session.id id p f keeps sessions in ground (arith, same)

-- An update of sessions that leaves each of them in a phase that fits.
pub update-IsConsistent :
    (p : Session → Bool) (f : Session → Session) (next_id : ℕ) (sessions : List Session)
    (leases : LeaseDb)
    → ((s : Session) → Session.id (f s) ≡ s.id)
    → ((s : Session) → p s ≡ true → FitsLeases leases s → FitsLeases leases (f s))
    → IsConsistent next_id sessions leases
    → IsConsistent next_id (update_where p f sessions) leases
update-IsConsistent p f next_id sessions leases keeps fit h = record {
  unique = λ id. rw (count-update_where_key Session.id id p f keeps sessions) (h.unique id);
  fits =
      All-update_where (FitsLeases leases) (FitsLeases leases) p f fit (λ s t q. q) sessions h.fits;
  absent = λ id e. h.absent id (row-update_none id p f sessions keeps e);
  fresh = λ id le. row-update_fresh id p f sessions keeps (h.fresh id le);
  exclusive = h.exclusive;
}

-- A session that releases its address in a phase without one.
pub release-IsConsistent :
    (now k : ℕ) (reason : String) (f : Session → Session) (next_id : ℕ) (sessions : List Session)
    (leases : LeaseDb)
    → ((s : Session) → Session.id (f s) ≡ s.id)
    → ((s : Session) → Fits (f s).phase false)
    → IsConsistent next_id sessions leases
    → IsConsistent next_id
        (update_where (λ (s : Session). s.id == k) f sessions)
        (release_client_address_lease now k reason leases)
release-IsConsistent now k reason f next_id sessions leases keeps fit h =
    let p : Session → Bool = λ s. s.id == k in
    let leases' = release_client_address_lease now k reason leases in
    record {
      unique = λ id. rw (count-update_where_key Session.id id p f keeps sessions) (h.unique id);
      fits =
          All-update_where (FitsLeases leases) (FitsLeases leases') p f
            (λ s t q.
              let held = has_lease-release now k s.id reason leases in
              let gone : has_lease s.id leases' ≡ false = ground (arith, held) in
              rw (keeps s, gone) (fit s))
            (λ s t q.
              let held = has_lease-release now k s.id reason leases in
              let same : has_lease s.id leases' ≡ has_lease s.id leases = ground (arith, held) in
              rw same q)
            sessions h.fits;
      absent = λ id e.
          let held = has_lease-release now k id reason leases in
          let before = h.absent id (row-update_none id p f sessions keeps e) in
          ground (arith, held);
      fresh = λ id le. row-update_fresh id p f sessions keeps (h.fresh id le);
      exclusive = (release_client_address_lease_lem now k reason leases h.exclusive).0;
    }

-- A session that gets an address, in a phase with one.
pub lease-IsConsistent :
    (k : ℕ) (f : Session → Session) (next_id : ℕ) (sessions : List Session)
    (leases leases' : LeaseDb)
    → ((s : Session) → Session.id (f s) ≡ s.id)
    → ((s : Session) → Fits (f s).phase true)
    → ((id : ℕ) → has_lease id leases' ≡ (if k == id then true else has_lease id leases))
    → row Session.id k sessions ≢ none
    → IsExclusive leases'
    → IsConsistent next_id sessions leases
    → IsConsistent next_id (update_where (λ (s : Session). s.id == k) f sessions) leases'
lease-IsConsistent k f next_id sessions leases leases' keeps fit holds there exclusive h =
    let p : Session → Bool = λ s. s.id == k in
    record {
      unique = λ id. rw (count-update_where_key Session.id id p f keeps sessions) (h.unique id);
      fits =
          All-update_where (FitsLeases leases) (FitsLeases leases') p f
            (λ s t q.
              let held = holds s.id in
              let has : has_lease s.id leases' ≡ true = ground (arith, held) in
              rw (keeps s, has) (fit s))
            (λ s t q.
              let held = holds s.id in
              let same : has_lease s.id leases' ≡ has_lease s.id leases = ground (arith, held) in
              rw same q)
            sessions h.fits;
      absent = λ id e.
          let gone = row-update_none id p f sessions keeps e in
          let held = holds id in
          let before = h.absent id gone in
          elim (Bool-cases (k == id)) [
            | inl here ↦ let eq : k ≡ id = ground arith in absurd (there (rw eq gone))
            | inr other ↦ ground (arith, held)
          ];
      fresh = λ id le. row-update_fresh id p f sessions keeps (h.fresh id le);
      exclusive = exclusive;
    }
