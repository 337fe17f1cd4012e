-- ===== src/Reconciler/Draining.antt =====
-- Repeated runs of the controllers work off the revocations.
use z_wireguard_vpn.Common.{
  ℕ, ◌*◌, ◌≡◌, ◌≤◌, refl, Bool, true, false, not, ◌||◌, some, List, [], ◌∷◌, ◌==◌, count, any,
  arith, length, inl, inr,
}
use z_wireguard_vpn.Common.Table.{row}
use z_wireguard_vpn.Common.Table.Find.{find?-holds}
use z_wireguard_vpn.Common.Table.Drain.{count-length}
use z_wireguard_vpn.Session.{Session, SessionPhase, revoking, failed, phase_eq, is_desired_active}
use z_wireguard_vpn.Session.Store.{is_open_phase, set_revoking}
use z_wireguard_vpn.Reconciler.{ControlDb}
use z_wireguard_vpn.Reconciler.Sessions.{
  begin_session_revocation, complete_revoked_sessions, is_unrevoked_of, is_ready_to_mark_revoked,
}
use z_wireguard_vpn.Reconciler.Beginning.{is_to_begin_revocation, begin_session_revocation_lem}
use z_wireguard_vpn.Reconciler.Revocation.{complete_revoked_sessions_lem}
use z_wireguard_vpn.Reconciler.Batches.{
  HasUniqueIds, row-idle, begin_session_revocation-count, complete_revoked_sessions-count,
  begin_session_revocation-HasUniqueIds, complete_revoked_sessions-HasUniqueIds,
  begin_session_revocation-fleet,
}

-- Runs of the two controllers at the given times.
abbrev pub begin_runs : List ℕ → ControlDb → ControlDb
begin_runs [] db = db
begin_runs (now ∷ times) db = begin_runs times (begin_session_revocation now db)

abbrev pub complete_runs : List ℕ → ControlDb → ControlDb
complete_runs [] db = db
complete_runs (now ∷ times) db = complete_runs times (complete_revoked_sessions now db)

only_revoked :
    (p : SessionPhase)
    → (phase_eq p revoking || phase_eq p SessionPhase.revoked) ≡ true
    → phase_eq p revoking ≡ false
    → p ≡ SessionPhase.revoked
only_revoked p h e = ground arith

-- The revocation of a session has begun or ended.
abbrev has_begun : Session → Bool
has_begun s = phase_eq s.phase revoking || phase_eq s.phase SessionPhase.revoked

begun :
    (p : SessionPhase)
    → phase_eq p failed ≡ false
    → (phase_eq p revoking || not (is_open_phase p)) ≡ true
    → (phase_eq p revoking || phase_eq p SessionPhase.revoked) ≡ true
begun p f h = ground arith

-- After runs for all the sessions that are not wanted, the revocation of each has begun.
record HasBegun (id : ℕ) (db db' : ControlDb) : Type 0 where
  unique : HasUniqueIds db'
  size : length db'.sessions ≡ length db.sessions
  fleet : db'.fleet ≡ db.fleet
  session : Session
  found : row Session.id id db'.sessions ≡ some session
  has_begun_eq : has_begun session ≡ true

begin_runs-HasBegun :
    (times : List ℕ) (id : ℕ) (db : ControlDb) (s : Session)
    → HasUniqueIds db
    → row Session.id id db.sessions ≡ some s
    → is_desired_active s.desired_state ≡ false
    → phase_eq s.phase failed ≡ false
    → count is_to_begin_revocation db.sessions ≤ 50 * length times
    → HasBegun id db (begin_runs times db)
begin_runs-HasBegun [] id db s unique there unwanted not_failed enough = record {
  unique = unique;
  size = refl;
  fleet = refl;
  session = s;
  found = there;
  has_begun_eq =
      let idle = row-idle is_to_begin_revocation id db.sessions there (omega (arith, enough)) in
      begun s.phase not_failed (ground (arith, idle));
}
begin_runs-HasBegun (now ∷ times) id db s unique there unwanted not_failed enough =
    let (unique', size) = begin_session_revocation-HasUniqueIds now db unique in
    let fewer = begin_session_revocation-count now db unique in
    let db' = begin_session_revocation now db in
    let fleet : db'.fleet ≡ db.fleet = begin_session_revocation-fleet now db in
    let later : (t : Session)
        → row Session.id id db'.sessions ≡ some t
        → is_desired_active t.desired_state ≡ false
        → phase_eq t.phase failed ≡ false
        → HasBegun id db (begin_runs times db') =
      (λ t there' unwanted' not_failed'.
        let rest =
          begin_runs-HasBegun times id db' t unique' there' unwanted' not_failed'
            (omega (arith, fewer, enough)) in
        record {
          unique = rest.unique;
          size = let n = rest.size in omega (arith, n, size);
          fleet = rw (rest.fleet) fleet;
          session = rest.session;
          found = rest.found;
          has_begun_eq = rest.has_begun_eq;
        }) in
    elim (begin_session_revocation_lem now id db s (unique id) there) [
      | inl (_, kept) ↦ later s kept unwanted not_failed
      | inr (_, _, moved) ↦ later (set_revoking now revoking s) moved unwanted refl
    ]

complete_runs-revoked :
    (times : List ℕ) (id : ℕ) (db : ControlDb) (s : Session)
    → HasUniqueIds db
    → row Session.id id db.sessions ≡ some s
    → has_begun s ≡ true
    → any (is_unrevoked_of id) db.fleet.assignments ≡ false
    → count (is_ready_to_mark_revoked db.fleet.assignments) db.sessions ≤ 50 * length times
    → (t : Session) × (row Session.id id (complete_runs times db).sessions ≡ some t)
      × (t.phase ≡ SessionPhase.revoked)
complete_runs-revoked [] id db s unique there starts free enough =
    let at = find?-holds (λ (x : Session). x.id == id) db.sessions there in
    let here : s.id ≡ id = ground arith in
    let free' : any (is_unrevoked_of s.id) db.fleet.assignments ≡ false = rw here free in
    let ready = is_ready_to_mark_revoked db.fleet.assignments in
    let idle = row-idle ready id db.sessions there (omega (arith, enough)) in
    (s, there, only_revoked s.phase starts (ground (arith, idle, free')))
complete_runs-revoked (now ∷ times) id db s unique there starts free enough =
    let fewer = complete_revoked_sessions-count now db unique in
    let db' = complete_revoked_sessions now db in
    let (fleet, either) = complete_revoked_sessions_lem now id db s (unique id) there in
    let unique' = complete_revoked_sessions-HasUniqueIds now db unique in
    let free' : any (is_unrevoked_of id) db'.fleet.assignments ≡ false = rw fleet free in
    let enough' : count (is_ready_to_mark_revoked db'.fleet.assignments) db'.sessions
        ≤ 50 * length times =
      rw fleet (omega (arith, fewer, enough)) in
    elim either [
      | inl (_, kept) ↦ complete_runs-revoked times id db' s unique' kept starts free' enough'
      | inr (_, _, moved, _) ↦ complete_runs-revoked times id db' _ unique' moved refl free' enough'
    ]

-- A session that is not wanted any more, and whose assignments are all revoked, is revoked in the end: both
-- controllers work off 50 sessions in a run, and as many runs of the one and then of the other as the number of
-- sessions needs are enough. A failed session is excluded, which a request for its revocation moves on
-- itself. Session ids are a primary key.
pub complete_runs-begin_runs :
    (begins completions : List ℕ) (id : ℕ) (db : ControlDb) (s : Session)
    → HasUniqueIds db
    → row Session.id id db.sessions ≡ some s
    → is_desired_active s.desired_state ≡ false
    → phase_eq s.phase failed ≡ false
    → any (is_unrevoked_of id) db.fleet.assignments ≡ false
    → length db.sessions ≤ 50 * length begins
    → length db.sessions ≤ 50 * length completions
    → (t : Session) × (row Session.id id (complete_runs completions (begin_runs begins db)).sessions
        ≡ some t)
      × (t.phase ≡ SessionPhase.revoked)
complete_runs-begin_runs begins completions id db s unique there unwanted not_failed free enough
      enough' =
    let few = count-length is_to_begin_revocation db.sessions in
    let start = begin_runs-HasBegun begins id db s unique there unwanted not_failed (omega arith) in
    let db' = begin_runs begins db in
    let fleet = start.fleet in
    let size = start.size in
    let few' = count-length (is_ready_to_mark_revoked db'.fleet.assignments) db'.sessions in
    complete_runs-revoked completions id db' start.session start.unique start.found
      start.has_begun_eq (rw fleet free) (omega (arith, few', size, enough'))
