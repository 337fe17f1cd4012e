-- ===== src/Session/Hiding.antt =====
-- What a request to delete (hide) a session does.
use z_wireguard_vpn.Common.{Bool, ◌&&◌, if◌then◌else◌, is_some, not}
use z_wireguard_vpn.Session.{Session}
use z_wireguard_vpn.Session.Store.{is_open_phase}
use z_wireguard_vpn.Session.Service.{DeleteResult}

-- The answer to a request for the session `s`, as the decision table of the endpoint has it.
abbrev pub expected_answer : Bool → Session → DeleteResult
expected_answer owned s =
    if not owned
    then DeleteResult.not_found
    else if is_some s.hidden_at
    then DeleteResult.deleted
    else if is_open_phase s.phase
    then DeleteResult.not_revoked
    else DeleteResult.deleted

-- The session is hidden exactly if its owner asks, it is not hidden yet, and it has ended.
abbrev pub is_hidden_now : Bool → Session → Bool
is_hidden_now owned s = owned && (not (is_some s.hidden_at) && not (is_open_phase s.phase))
