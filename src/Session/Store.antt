-- ===== src/Session/Store.antt =====
-- The statements of packages/control-plane/src/resources/sessions/repository.ts over the joined
-- rows of `sessions` and `session_status`. `now` is the time of the statement, in seconds.
use z_wireguard_vpn.Common.{
  ℕ, ◌+◌, Bool, true, false, not, ◌&&◌, ◌||◌, Option, none, some, List, ◌==◌, ltb, leb, is_some,
  is_some_eq, or_else, if◌then◌else◌, find?, filter, take, count,
}
use z_wireguard_vpn.Common.Table.{update_where}
use z_wireguard_vpn.Session.{
  Session, SessionPhase, SessionDesiredState, ErrorBody, ErrorUpdate, keep, clear, write,
  SessionLifecycleTransition, phase_eq, is_desired_active, provisioning, revoking, failed,
}

abbrev has_id : ℕ → Session → Bool
has_id session_id s = s.id == session_id

-- `account_id = $2 AND hidden_at IS NULL`
abbrev pub is_visible_to : ℕ → Session → Bool
is_visible_to account_id s = is_some_eq account_id s.account_id && not (is_some s.hidden_at)

abbrev is_owned : ℕ → ℕ → Session → Bool
is_owned account_id session_id s = has_id session_id s && is_some_eq account_id s.account_id

-- `phase NOT IN ('revoked', 'failed')`
abbrev pub is_open_phase : SessionPhase → Bool
is_open_phase SessionPhase.revoked = false
is_open_phase failed = false
is_open_phase _ = true

unfoldable pub find_session_id_by_create_request : ℕ → ℕ → List Session → Option ℕ
find_session_id_by_create_request account_id request_id sessions =
    elim (find?
      (λ s. is_some_eq account_id s.account_id && is_some_eq request_id s.create_request_id)
      sessions) [ none ↦ none | some s ↦ some s.id ]

abbrev pub counts_for_account : ℕ → Session → Bool
counts_for_account account_id s =
    is_some_eq account_id s.account_id && not (is_some s.hidden_at) && is_open_phase s.phase

unfoldable pub count_non_terminal_sessions_for_account : ℕ → List Session → ℕ
count_non_terminal_sessions_for_account account_id sessions =
    count (counts_for_account account_id) sessions

abbrev pub is_recent_create : ℕ → ℕ → ℕ → Session → Bool
is_recent_create now account_id window_seconds s =
    is_some_eq account_id s.account_id && leb now (s.created_at + window_seconds)

unfoldable pub count_recent_session_creates_for_account : ℕ → ℕ → ℕ → List Session → ℕ
count_recent_session_creates_for_account now account_id window_seconds sessions =
    count (is_recent_create now account_id window_seconds) sessions

unfoldable pub find_owned_session_phase_for_update : ℕ → ℕ → List Session → Option Session
find_owned_session_phase_for_update account_id session_id sessions =
    find? (λ s. has_id session_id s && is_visible_to account_id s) sessions

unfoldable pub find_session_phase_for_update : ℕ → List Session → Option Session
find_session_phase_for_update session_id sessions =
    find? (λ s. has_id session_id s && not (is_some s.hidden_at)) sessions

abbrev pub set_desired_state : ℕ → SessionDesiredState → Bool → Session → Session
set_desired_state now desired increment s = record s {
  desired_state = desired;
  generation = if increment then s.generation + 1 else s.generation;
  updated_at = now;
}

unfoldable pub update_session_desired_state :
    ℕ → ℕ → SessionDesiredState → Bool → List Session → List Session
update_session_desired_state now session_id desired increment sessions =
    update_where (has_id session_id) (set_desired_state now desired increment) sessions

-- `CASE WHEN $5 THEN $6 ELSE last_error END`
abbrev pub update_error : ErrorUpdate → Option ErrorBody → Option ErrorBody
update_error keep old = old
update_error clear _ = none
update_error (write e) _ = some e

abbrev pub set_status_phase : ℕ → SessionLifecycleTransition → Session → Session
set_status_phase now t s = record s {
  phase = t.phase;
  observed_generation = or_else t.observed_generation s.observed_generation;
  last_error = update_error t.last_error s.last_error;
  status_updated_at = now;
}

unfoldable pub update_session_status_phase :
    ℕ → ℕ → SessionLifecycleTransition → List Session → List Session
update_session_status_phase now session_id t sessions =
    update_where (has_id session_id) (set_status_phase now t) sessions

unfoldable pub find_owned_session_visibility_for_update : ℕ → ℕ → List Session → Option Session
find_owned_session_visibility_for_update account_id session_id sessions =
    find? (is_owned account_id session_id) sessions

abbrev pub set_hidden : ℕ → Session → Session
set_hidden now s = record s { hidden_at = some now; updated_at = now }

unfoldable pub hide_owned_session : ℕ → ℕ → ℕ → List Session → List Session
hide_owned_session now account_id session_id sessions =
    update_where (is_owned account_id session_id) (set_hidden now) sessions

-- Rows come back in the order in which the list holds them, the oldest first.
unfoldable pub list_session_rows_for_phase_for_update : SessionPhase → List Session → List Session
list_session_rows_for_phase_for_update p sessions =
    take 20 (filter (λ s. is_desired_active s.desired_state && phase_eq s.phase p) sessions)

-- `observed_generation = $4` with `?? 0`, and `last_error` written whatever it holds.
abbrev pub set_status_observed : ℕ → SessionLifecycleTransition → Session → Session
set_status_observed now t s = record s {
  phase = t.phase;
  observed_generation = or_else t.observed_generation 0;
  last_error = update_error t.last_error none;
  status_updated_at = now;
}

-- `markSessionProvisioning`, `markSessionActive` and `markSessionRevoked` set the same columns; the
-- selected path of the first is not modelled.
unfoldable pub mark_session_observed :
    ℕ → ℕ → SessionLifecycleTransition → List Session → List Session
mark_session_observed now session_id t sessions =
    update_where (has_id session_id) (set_status_observed now t) sessions

abbrev pub set_failed : ℕ → SessionLifecycleTransition → Session → Session
set_failed now t s = record s {
  phase = t.phase;
  last_error = update_error t.last_error none;
  status_updated_at = now;
}

unfoldable pub mark_session_failed :
    ℕ → ℕ → SessionLifecycleTransition → List Session → List Session
mark_session_failed now session_id t sessions =
    update_where (has_id session_id) (set_failed now t) sessions

abbrev pub set_revoking : ℕ → SessionPhase → Session → Session
set_revoking now p s = record s { phase = p; status_updated_at = now }

unfoldable pub mark_session_revoking : ℕ → ℕ → SessionPhase → List Session → List Session
mark_session_revoking now session_id p sessions =
    update_where (has_id session_id) (set_revoking now p) sessions

unfoldable pub touch_session_status : ℕ → ℕ → List Session → List Session
touch_session_status now session_id sessions =
    update_where (has_id session_id) (λ s. record s { status_updated_at = now }) sessions

unfoldable pub list_timed_out_provisioning_sessions : ℕ → ℕ → List Session → List Session
list_timed_out_provisioning_sessions now timeout sessions = take 50 (
    filter
      (λ s.
        is_desired_active s.desired_state
        && phase_eq s.phase provisioning
        && ltb (s.status_updated_at + timeout) now)
      sessions)

unfoldable pub list_sessions_to_begin_revocation : List Session → List Session
list_sessions_to_begin_revocation sessions = take 50 (
    filter
      (λ s.
        not (is_desired_active s.desired_state)
        && not (phase_eq s.phase revoking || not (is_open_phase s.phase)))
      sessions)

-- The open sessions of an account that are still wanted, in the billing repository's
-- `listNonTerminalAccountSessions`.
unfoldable pub list_non_terminal_account_sessions : ℕ → List Session → List Session
list_non_terminal_account_sessions account_id sessions =
    filter
      (λ s.
        is_some_eq account_id s.account_id
        && is_desired_active s.desired_state
        && is_open_phase s.phase)
      sessions
