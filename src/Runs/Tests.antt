-- ===== src/Runs/Tests.antt =====
-- A run from an empty database: a user asks for a session, which is probed and scheduled on two gates.
use z_wireguard_vpn.Common.{ℕ, ◌≡◌, refl, true, Bool, Option, none, some, List, [], ◌∷◌, inl}
use z_wireguard_vpn.Common.Int.{pos}
use z_wireguard_vpn.Common.Json.{Json, read_string}
use z_wireguard_vpn.Session.{Session, requested}
use z_wireguard_vpn.Session.Store.{
  count_non_terminal_sessions_for_account, count_recent_session_creates_for_account,
  list_session_rows_for_phase_for_update, update_session_status_phase,
}
use z_wireguard_vpn.Session.Service.{SessionOwner}
use z_wireguard_vpn.Session.Creation.{
  CreationDb, CreateRequestedSessionResult, SessionCreateParsed,
  create_requested_session_with_abuse_controls, default_session_abuse_control_config,
  insert_requested_session_in_transaction, insert_config_grant,
}
use z_wireguard_vpn.Gate.Samples.{working_gate}
use z_wireguard_vpn.Gate.Store.{Gate, select_schedulable_gate, first_gate}
use z_wireguard_vpn.Planning.{
  PathChoice, choose_path, read_session_client_protocol, read_optional_string,
  read_path_policy_values, read_preferred_regions, read_excluded_countries, read_excluded_cities,
}
use z_wireguard_vpn.Lease.{
  find_active_client_address_lease, list_wire_guard_address_pools_for_update,
  try_insert_client_address_lease,
}
use z_wireguard_vpn.Lease.Allocator.{
  ensure_client_address_lease, try_pools, try_offsets, parse_ipv4_cidr,
}
use z_wireguard_vpn.Reconciler.{ControlDb}
use z_wireguard_vpn.Reconciler.Scheduling.{
  begin_requested_session_probing, probe_each, schedule_sessions_for_provisioning, provision_each,
  schedule_session,
}
use z_wireguard_vpn.Reconciler.Sessions.{advance_probed_sessions_to_scheduling, schedule_each}
use z_wireguard_vpn.Runs.{
  World, Reachable, start, next, create, probe, advance, schedule, with_creation, with_control,
  creation_db,
}
use z_wireguard_vpn.Runs.Addresses.{HasOwnAddresses, Reachable-HasOwnAddresses}

abbrev or_else {ℓ} : {A : Type ℓ} → A → Option A → A
or_else d none = d
or_else d (some x) = x

abbrev gates : List Gate
gates = working_gate 1 "gate-eu-1" "France" (pos 5) ∷ working_gate 2 "gate-na-1" "USA" (pos 7) ∷ []

abbrev fresh_world : World
fresh_world = record {
  control = record {
    sessions = [];
    audits = [];
    fleet = record { jobs = []; attempts = []; assignments = []; next_id = 1 };
    leases = record {
      pools =
          (record {
            id = 1;
            cidr = some (167772160, 31);
            next_offset = 0;
            enabled = true;
            family = 4;
            is_for_clients = true;
          })
          ∷ [];
      leases = [];
    };
    gates = gates;
    plans = [];
    artifacts = [];
    tokens = [];
  };
  grants = [];
  next_session_id = 1;
  payments = [];
  entitlements = [];
  payment_audits = [];
}

abbrev user : SessionOwner
user = record { id = 3; account_id = 8 }

abbrev any_path : Json → Bool
any_path spec = true

abbrev wanted : SessionCreateParsed
wanted = record { create_request_id = none; spec = Json.null }

abbrev plan : Session → PathChoice → ℕ → Json
plan s p address = Json.null

abbrev creation : CreateRequestedSessionResult × CreationDb
unfolding create_requested_session_with_abuse_controls
creation =
    or_else (CreateRequestedSessionResult.route_policy_not_satisfied, creation_db fresh_world)
      (create_requested_session_with_abuse_controls any_path 10 user wanted
        default_session_abuse_control_config requested none (creation_db fresh_world))

abbrev waiting_world : World
waiting_world = with_creation fresh_world creation.1

abbrev probing_world : World
probing_world =
    with_control waiting_world (begin_requested_session_probing 20 waiting_world.control)

abbrev probed_world : World
probed_world =
    with_control probing_world (advance_probed_sessions_to_scheduling 30 probing_world.control)

abbrev scheduled : ControlDb
scheduled =
    or_else probed_world.control
      (schedule_sessions_for_provisioning (λ s. none) plan 40 probed_world.control)

created_first :
    create_requested_session_with_abuse_controls any_path 10 user wanted
      default_session_abuse_control_config requested none
      (creation_db fresh_world)
    ≡ some (creation.0, creation.1)
unfolding create_requested_session_with_abuse_controls count_non_terminal_sessions_for_account
    count_recent_session_creates_for_account insert_requested_session_in_transaction
    insert_config_grant
created_first = refl

scheduled_second :
    schedule_sessions_for_provisioning (λ s. none) plan 40 probed_world.control ≡ some scheduled
unfolding create_requested_session_with_abuse_controls count_non_terminal_sessions_for_account
    count_recent_session_creates_for_account insert_requested_session_in_transaction
    insert_config_grant schedule_sessions_for_provisioning provision_each
    list_session_rows_for_phase_for_update advance_probed_sessions_to_scheduling schedule_each
    begin_requested_session_probing probe_each update_session_status_phase schedule_session
    choose_path read_session_client_protocol select_schedulable_gate first_gate read_optional_string
    read_string ensure_client_address_lease read_path_policy_values read_preferred_regions
    read_excluded_countries read_excluded_cities find_active_client_address_lease try_pools
    try_offsets parse_ipv4_cidr list_wire_guard_address_pools_for_update
    try_insert_client_address_lease
scheduled_second = refl

scheduled_run : Reachable (with_control probed_world scheduled)
scheduled_run =
    next
      (next
        (next
          (next (start (record { no_session = refl; no_lease = refl })) (
            create any_path 10 user wanted default_session_abuse_control_config requested none
              fresh_world {result = creation.0} {c = creation.1} (inl refl) created_first))
          (probe 20 waiting_world))
        (advance 30 probing_world))
      (schedule (λ s. none) plan 40 probed_world {db = scheduled} scheduled_second)

Reachable-HasOwnAddresses_example : HasOwnAddresses (with_control probed_world scheduled)
Reachable-HasOwnAddresses_example = Reachable-HasOwnAddresses scheduled_run
