-- ===== src/Runs/Steps.antt =====
-- Every step keeps the sessions and the leases consistent.
use z_wireguard_vpn.Common.{refl, arith}
use z_wireguard_vpn.Runs.Shape.{IsConsistent}
use z_wireguard_vpn.Runs.{
  World, Step, Reachable, create, activate_paid, delete_unpaid, revoke_owned, revoke_by_system,
  hide, probe, advance, schedule, commit, complete, fail, begin_revocation, complete_revocation,
  other, start, next, creation_db, session_db, payment_db, traffic_db, adjust_quota,
}
use z_wireguard_vpn.Runs.Quotas.{adjust_quota-IsConsistent}
use z_wireguard_vpn.Runs.Requests.{
  revoke_owned-IsConsistent, revoke_by_system-IsConsistent, hide-IsConsistent,
}
use z_wireguard_vpn.Runs.Entries.{
  activate_paid-IsConsistent, delete_unpaid-IsConsistent, create-IsConsistent,
}
use z_wireguard_vpn.Runs.Controllers.{
  probe-IsConsistent, advance-IsConsistent, schedule-IsConsistent, commit-IsConsistent,
  complete-IsConsistent, fail-IsConsistent, begin_revocation-IsConsistent,
  complete_revocation-IsConsistent,
}

-- What holds of the database between any two steps.
abbrev pub IsConsistentWorld : World → Type 0
IsConsistentWorld w = IsConsistent w.next_session_id w.control.sessions w.control.leases

Step-IsConsistent : {w w' : World} → Step w w' → IsConsistentWorld w → IsConsistentWorld w'
Step-IsConsistent (create has_path now actor parsed config phase grant w initial e) h =
    create-IsConsistent w.next_session_id w.control.leases has_path now actor parsed config phase
      grant (creation_db w) initial e h
Step-IsConsistent (activate_paid now actor session_id payment_id signature w) h =
    activate_paid-IsConsistent w.next_session_id w.control.leases now actor session_id payment_id
      signature (payment_db w) h
Step-IsConsistent (delete_unpaid actor session_id w) h =
    delete_unpaid-IsConsistent w.next_session_id w.control.leases actor session_id
      w.control.sessions h
Step-IsConsistent (revoke_owned now actor session_id w) h =
    revoke_owned-IsConsistent w.next_session_id w.control.leases now actor session_id (session_db w)
      h
Step-IsConsistent (revoke_by_system now session_id reason w) h =
    revoke_by_system-IsConsistent w.next_session_id w.control.leases now session_id reason
      (session_db w) h
Step-IsConsistent (adjust_quota now session_id included_bytes admin_id w) h =
    adjust_quota-IsConsistent w.next_session_id w.control.leases now session_id included_bytes
      admin_id (traffic_db w) h
Step-IsConsistent (hide now actor session_id w) h =
    hide-IsConsistent w.next_session_id w.control.leases now actor session_id (session_db w) h
Step-IsConsistent (probe now w) h = probe-IsConsistent w.next_session_id now w.control h
Step-IsConsistent (advance now w) h = advance-IsConsistent w.next_session_id now w.control h
Step-IsConsistent (schedule to_uuid render now w e) h =
    schedule-IsConsistent w.next_session_id now w.control h to_uuid render _ e
Step-IsConsistent (commit network now w) h =
    commit-IsConsistent w.next_session_id now w.control h network
Step-IsConsistent (complete render now w e) h =
    complete-IsConsistent w.next_session_id now w.control h render _ e
Step-IsConsistent (fail describe now timeout w) h =
    fail-IsConsistent w.next_session_id now w.control h describe timeout
Step-IsConsistent (begin_revocation now w) h =
    begin_revocation-IsConsistent w.next_session_id now w.control h
Step-IsConsistent (complete_revocation now w) h =
    complete_revocation-IsConsistent w.next_session_id now w.control h
Step-IsConsistent (other w w' sessions leases ids) h = rw (sessions, leases, ids) h

pub Reachable-IsConsistent : {w : World} → Reachable w → IsConsistentWorld w
Reachable-IsConsistent (start {w} f) =
    let sessions = f.no_session in
    let leases = f.no_lease in
    rw sessions (record {
      unique = λ id. omega arith;
      fits = tt;
      absent = λ id e. rw leases refl;
      fresh = λ id le. refl;
      exclusive = record {
        one_per_address = λ a. rw leases (omega arith);
        one_per_session = λ k. rw leases (omega arith);
      };
    })
Reachable-IsConsistent (next r st) = Step-IsConsistent st (Reachable-IsConsistent r)
