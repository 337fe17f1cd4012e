-- ===== src/Runs/Entries.antt =====
-- The creation of a session, its activation by a payment and the deletion of an unpaid one keep the
-- sessions and the leases consistent.
use z_wireguard_vpn.Common.{
  ℕ, ◌+◌, ◌≤◌, ◌≡◌, ◌⊎◌, refl, Bool, true, false, not, ◌&&◌, Option, none, some, String, List, [],
  ◌∷◌, ◌++◌, arith, ◌==◌, count, find?, filter, All, if◌then◌else◌, is_some, inl, inr, Option-cases,
  Bool-cases,
}
use z_wireguard_vpn.Common.Json.{Json}
use z_wireguard_vpn.Common.Table.{row, update_where, All-append, count-append, find?-All}
use z_wireguard_vpn.Common.Table.Find.{find?-append}
use z_wireguard_vpn.Session.{Session, SessionPhase, requested, payment_pending, phase_eq}
use z_wireguard_vpn.Session.Service.{SessionOwner}
use z_wireguard_vpn.Session.Creation.{
  CreationDb, SessionCreateParsed, SessionAbuseControlConfig, CreateRequestedSessionResult,
  new_session, create_requested_session_with_abuse_controls,
}
use z_wireguard_vpn.Session.Quota.{create_cases}
use z_wireguard_vpn.Session.Payment.{
  PaymentDb, activate_paid_session, delete_unpaid_session, set_requested, is_owned_by,
  is_payment_of, is_signed_by,
}
use z_wireguard_vpn.Lease.{LeaseDb}
use z_wireguard_vpn.Lease.Holders.{has_lease}
use z_wireguard_vpn.Runs.Shape.{IsConsistent, Fits, FitsLeases, update-IsConsistent}

none-count : (q : Session → Bool) (xs : List Session) → find? q xs ≡ none → count q xs ≡ 0
none-count q [] e = refl
none-count q (x ∷ xs) e = ground (arith, none-count q xs)

-- A new session, whose id nothing has used.
new-IsConsistent :
    (next_id : ℕ) (s : Session) (sessions : List Session) (leases : LeaseDb)
    → s.id ≡ next_id
    → Fits s.phase false
    → IsConsistent next_id sessions leases
    → IsConsistent (next_id + 1) (sessions ++ s ∷ []) leases
new-IsConsistent next_id s sessions leases own fit h =
    let unborn = h.fresh s.id (omega (arith, own)) in
    let free = h.absent s.id unborn in
    record {
      unique = λ id.
          let appended = count-append (λ (x : Session). x.id == id) sessions (s ∷ []) in
          let before = h.unique id in
          elim (Bool-cases (s.id == id)) [
            | inl here ↦
                let same : s.id ≡ id = ground arith in
                let none_before =
                  none-count (λ (x : Session). x.id == id) sessions (rw same at unborn) in
                ground (arith, appended, none_before)
            | inr other ↦ ground (arith, appended, before)
          ];
      fits = All-append (FitsLeases leases) sessions (s ∷ []) h.fits (rw free fit, tt);
      absent = λ id e.
          let appended = find?-append (λ (x : Session). x.id == id) sessions s in
          h.absent id (ground (arith, appended));
      fresh = λ id le.
          let appended = find?-append (λ (x : Session). x.id == id) sessions s in
          let before = h.fresh id (omega arith) in ground (arith, appended, own);
      exclusive = h.exclusive;
    }

abbrev without : ℕ → List Session → List Session
without k sessions = filter (λ (x : Session). not (x.id == k)) sessions

row-without :
    (k id : ℕ) (sessions : List Session)
    → row Session.id id (without k sessions)
      ≡ (if k == id then none else row Session.id id sessions)
row-without k id [] = ground arith
row-without k id (x ∷ xs) = ground (arith, row-without k id xs)

count-without :
    (k id : ℕ) (sessions : List Session)
    → count (λ (x : Session). x.id == id) (without k sessions)
      ≤ count (λ (x : Session). x.id == id) sessions
count-without k id [] = omega arith
count-without k id (x ∷ xs) = ground (arith, count-without k id xs)

All-without :
    (leases : LeaseDb) (k : ℕ) (sessions : List Session)
    → All (FitsLeases leases) sessions
    → All (FitsLeases leases) (without k sessions)
All-without leases k [] h = tt
All-without leases k (x ∷ xs) h = elim (Bool-cases (x.id == k)) [
  | inl here ↦ rw here (All-without leases k xs h.1)
  | inr other ↦ rw other (h.0, All-without leases k xs h.1)
]

-- A session that holds no address is deleted.
delete-IsConsistent :
    (next_id k : ℕ) (sessions : List Session) (leases : LeaseDb)
    → has_lease k leases ≡ false
    → IsConsistent next_id sessions leases
    → IsConsistent next_id (without k sessions) leases
delete-IsConsistent next_id k sessions leases free h = record {
  unique = λ id. let less = count-without k id sessions in omega (arith, less, h.unique id);
  fits = All-without leases k sessions h.fits;
  absent = λ id e.
      let left = row-without k id sessions in
      elim (Bool-cases (k == id)) [
        | inl here ↦ let same : k ≡ id = ground arith in rw (← same) free
        | inr other ↦ h.absent id (ground (arith, left))
      ];
  fresh = λ id le.
      let left = row-without k id sessions in let before = h.fresh id le in ground (arith, left);
  exclusive = h.exclusive;
}

-- A session that waits for its payment holds no address.
pending-free :
    (leases : LeaseDb) (s : Session)
    → phase_eq s.phase payment_pending ≡ true
    → FitsLeases leases s
    → has_lease s.id leases ≡ false
pending-free leases s e fit = let is = pending_phase s.phase e in rw is at fit
  where
    pending_phase : (p : SessionPhase) → phase_eq p payment_pending ≡ true → p ≡ payment_pending
    pending_phase p t = ground arith

initial-Fits :
    (phase : SessionPhase) (granted : Bool)
    → (phase ≡ requested) ⊎ (phase ≡ payment_pending)
    → Fits (if granted then requested else phase) false
initial-Fits phase true i = refl
initial-Fits phase false (inl e) = rw e refl
initial-Fits phase false (inr e) = rw e refl

module _ (next_id : ℕ) (leases : LeaseDb) where
  pub activate_paid-IsConsistent :
      (now : ℕ) (actor : SessionOwner) (session_id payment_id : ℕ) (signature : String)
      (db : PaymentDb)
      → IsConsistent next_id db.sessions leases
      → IsConsistent next_id
          (activate_paid_session now actor session_id payment_id signature db).1.sessions
          leases
  unfolding activate_paid_session
  activate_paid-IsConsistent now actor session_id payment_id signature db h =
      elim (Option-cases (find? (is_owned_by actor.account_id session_id) db.sessions)) [
        | inl missing ↦ rw (activate_paid_session, missing) h
        | inr (s, found) ↦
            elim (Option-cases
              (find? (is_payment_of payment_id session_id actor.account_id) db.payments)) [
                | inl unpaid ↦ rw (activate_paid_session, found, unpaid) h
                | inr (p, paid) ↦
                    let result =
                      activate_paid_session now actor session_id payment_id signature db in
                    elim (Bool-cases (
                      (p.is_confirmed && is_signed_by signature p.transaction_signature)
                      && phase_eq s.phase payment_pending)) [
                        | inr kept ↦
                            let same : result.1.sessions ≡ db.sessions = ground arith in rw same h
                        | inl moves ↦
                            let changed : result.1.sessions
                                ≡ update_where (λ (x : Session). x.id == session_id)
                                    (set_requested now) db.sessions =
                              ground arith in
                            let (fit, passes) =
                              find?-All (FitsLeases leases) _ db.sessions h.fits found in
                            let same : s.id ≡ session_id = ground arith in
                            let free = pending-free leases s (ground arith) fit in
                            rw changed (
                              update-IsConsistent (λ x. x.id == session_id) (set_requested now)
                                next_id db.sessions leases (λ x. refl) (λ x t q. ground arith) h)
                      ]
              ]
      ]

  pub delete_unpaid-IsConsistent :
      (actor : SessionOwner) (session_id : ℕ) (sessions : List Session)
      → IsConsistent next_id sessions leases
      → IsConsistent next_id (delete_unpaid_session actor session_id sessions) leases
  unfolding delete_unpaid_session
  delete_unpaid-IsConsistent actor session_id sessions h =
      elim (Option-cases (
        find? (λ s. is_owned_by actor.account_id session_id s && phase_eq s.phase payment_pending)
          sessions)) [
            | inl missing ↦ rw (delete_unpaid_session, missing) h
            | inr (s, found) ↦
                let (fit, passes) = find?-All (FitsLeases leases) _ sessions h.fits found in
                let same : s.id ≡ session_id = ground arith in
                let free = pending-free leases s (ground arith) fit in
                rw (delete_unpaid_session, found)
                  (delete-IsConsistent next_id session_id sessions leases (rw same at free) h)
          ]

  pub create-IsConsistent :
      (has_path : Json → Bool) (now : ℕ) (actor : SessionOwner) (parsed : SessionCreateParsed)
      (config : SessionAbuseControlConfig) (phase : SessionPhase) (grant : Option ℕ)
      (db : CreationDb) {result : CreateRequestedSessionResult} {db' : CreationDb}
      → (phase ≡ requested) ⊎ (phase ≡ payment_pending)
      → create_requested_session_with_abuse_controls has_path now actor parsed config phase grant db
        ≡ some (result, db')
      → IsConsistent db.next_id db.sessions leases
      → IsConsistent db'.next_id db'.sessions leases
  create-IsConsistent has_path now actor parsed config phase grant db initial e h =
      let s = new_session now actor parsed (if is_some grant then requested else phase) db in
      elim (create_cases has_path now actor parsed config phase grant db e) [
        | inl (same, rejected, kept) ↦ rw (same, kept) h
        | inr (result, new, room, room', added, next) ↦
            rw (added, next)
              (new-IsConsistent db.next_id s db.sessions leases refl
                (initial-Fits phase (is_some grant) initial) h)
      ]
