-- ===== src/Tests/Topology.antt =====
-- Runs and witnesses for the topology and for the addresses of the configuration.
use tg_proxy_relay.Prelude.{
  ℕ, ◌+◌, ◌*◌, ◌≤◌, ◌≡◌, ◌↔◌, inr, refl, true, false, List, [], ◌∷◌, bytes_eq, Bytes, length, none,
  some, All, Elem, arith, contains,
}
use tg_proxy_relay.Prelude.Text.{codes, trim_space, space_width, space_width_back, trim_front}
use tg_proxy_relay.Prelude.Maps.{Map}
use tg_proxy_relay.Config.Net.{
  Net, v4, is_safe_telegram_ip, validate_telegram_address, is_global_unicast, is_broadcast,
  is_unspecified, is_loopback, is_multicast, is_link_local_unicast, is_private,
  is_link_local_multicast, in_refused_block, atoi, trim_brackets, valid_port, zeros_then,
}
use tg_proxy_relay.Config.Net.Reserved.{
  address_number, reserved_blocks, IsOutside, is_safe_telegram_ip_iff,
}
use tg_proxy_relay.Config.Endpoints.{
  TelegramEndpoint, TelegramConfig, normalize_telegram_address, role_of, addresses_for_route,
}
use tg_proxy_relay.Config.Options.{
  validate_telegram, validate_telegram_dc_options, validate_dc_map, validate_dc_map_from,
  validate_routes, validate_endpoints, validate_endpoint, endpoint_key, invalid_dc,
  max_telegram_dcs,
}
use tg_proxy_relay.Config.Accepted.{IsValidRoute, validate_telegram_dc_options_iff}
use tg_proxy_relay.Config.Public.{IsPublic, validate_telegram-addresses_for_route}
use tg_proxy_relay.Topology.Bundle.{
  second, Payload, Bundle, Snapshot, Library, accepted, signed, verify, sign, verify_bundle,
  time_or_zero, signature_holds, decode_base64, validate_payload, validate_times,
  validate_routes_of,
}
use tg_proxy_relay.Topology.Bundle.Sound.{IsVerified, verify-IsVerified}
use tg_proxy_relay.Topology.Bundle.Signed.{verify-sign}
use tg_proxy_relay.Topology.Manager.{
  TopologyConfig, TopologyManager, FileCalls, Fetch, refresh, revision, dynamic, addresses,
  new_topology_manager, decode_topology_public_key, with_current, apply_bundle, is_newer,
  persist_topology_snapshot,
}
use tg_proxy_relay.Topology.Manager.History.{
  Relay, Event, refreshes, ensures, restarts, read_file, step, run,
}
use tg_proxy_relay.Topology.Manager.Revision.{stopped, run-revision}
use tg_proxy_relay.Topology.Manager.Safe.{run-addresses}
use tg_proxy_relay.Topology.Manager.OnDemand.{asked_in, asked_in-bound}
use tg_proxy_relay.Topology.Manager.Recovery.{refresh-new_topology_manager}
use tg_proxy_relay.Topology.Dcs.{
  IsAscending, IsConfigured, configured_dcs, configured_dcs_iff, with_routes, insert_dc,
  next_topology_refresh_delay,
}
use tg_proxy_relay.Topology.Source.{
  IsSafelyDialled, dial_safe_topology_source, dial_safe_topology_source-IsSafelyDialled,
}
use tg_proxy_relay.Tests.Sample.{sample_go, zeros}

is_safe_telegram_ip_iff_example :
    (is_safe_telegram_ip (some (v4 192 0 1 1)) ≡ true)
    ↔ All (IsOutside (address_number 192 0 1 1)) reserved_blocks
is_safe_telegram_ip_iff_example =
    is_safe_telegram_ip_iff 192 0 1 1 (omega arith) (omega arith) (omega arith) (omega arith)

-- Every text is the address of 8.8.8.8 and its port 443.
abbrev one_net : Net
one_net = record {
  parse_ip = λ s. some (v4 8 8 8 8);
  ip_string = λ ip. codes "8.8.8.8";
  split_host_port = λ s. some (s, codes "443");
  join_host_port = λ host port. host;
}

abbrev option_of : Bytes → TelegramEndpoint
option_of role = record {
  address = codes "8.8.8.8";
  role = role;
  static = false;
  this_port_only = false;
  tcpo_only = false;
  secret = [];
}

abbrev sample_routes : Map ℕ (List TelegramEndpoint)
sample_routes = (2, option_of [] ∷ option_of (codes "media") ∷ []) ∷ []

abbrev sample_telegram : TelegramConfig
sample_telegram = record {
  dc_map = (1, codes "8.8.8.8") ∷ [];
  test_dc_map = [];
  dc_options = sample_routes;
  test_dc_options = [];
}

validate_telegram_dc_options_iff_example :
    (validate_telegram_dc_options one_net sample_go sample_routes ≡ none) ↔ (
      (length sample_routes ≤ max_telegram_dcs)
      × All (IsValidRoute one_net sample_go) sample_routes)
validate_telegram_dc_options_iff_example =
    validate_telegram_dc_options_iff one_net sample_go sample_routes

sample_telegram_valid : validate_telegram one_net sample_go sample_telegram ≡ none
unfolding validate_telegram validate_dc_map validate_dc_map_from validate_telegram_dc_options
    validate_routes validate_endpoints validate_endpoint endpoint_key invalid_dc role_of contains
    trim_space validate_telegram_address is_safe_telegram_ip is_global_unicast is_broadcast
    is_unspecified is_loopback is_multicast is_link_local_unicast is_private is_link_local_multicast
    in_refused_block atoi trim_brackets valid_port zeros_then normalize_telegram_address space_width
    space_width_back trim_front
sample_telegram_valid = refl

validate_telegram-addresses_for_route_example :
    All (IsPublic one_net) (addresses_for_route one_net sample_go sample_telegram 2 false true)
validate_telegram-addresses_for_route_example =
    validate_telegram-addresses_for_route one_net sample_go sample_telegram 2 false true
      sample_telegram_valid

-- A time is its first byte, in seconds.
abbrev sample_payload : Payload
sample_payload = record {
  schema = 1;
  generation = 7;
  not_before = 1 ∷ [];
  expires_at = 9 ∷ [];
  production = sample_routes;
  test = [];
}

abbrev sample_bundle : Bundle
sample_bundle = record { payload = sample_payload; signature = zeros 64 }

-- Every input is the sample bundle, and every signature of 64 bytes is valid.
abbrev sample_library : Library
sample_library = record {
  net = one_net;
  go = sample_go;
  parse_time = λ s. elim s [ [] ↦ none | c ∷ _ ↦ some (c * second) ];
  decode_bundle = λ raw. some (sample_bundle, []);
  at_end = λ rest. true;
  marshal = λ payload. some (codes "payload");
  marshal_indent = λ bundle. some (codes "bundle");
  raw_std_decode = λ s. some s;
  std_decode = λ s. none;
  raw_std_encode = λ s. s;
  ed25519_sign = λ key m. zeros 64;
  ed25519_verify = λ key m signature. true;
  public_key = λ key. zeros 32;
}

abbrev sample_snapshot : Bytes → Snapshot
sample_snapshot raw = record {
  generation = 7;
  not_before = 1 * second;
  expires_at = 9 * second;
  production = sample_routes;
  test = [];
  raw = raw;
}

sample_signed : sign sample_library sample_payload (zeros 64) (2 * second) ≡ signed (codes "bundle")
unfolding sign validate_payload validate_times validate_routes_of validate_telegram_dc_options
    validate_routes validate_endpoints validate_endpoint endpoint_key invalid_dc role_of contains
    trim_space validate_telegram_address is_safe_telegram_ip is_global_unicast is_broadcast
    is_unspecified is_loopback is_multicast is_link_local_unicast is_private is_link_local_multicast
    in_refused_block atoi trim_brackets valid_port zeros_then normalize_telegram_address space_width
    space_width_back trim_front
sample_signed = refl

sample_verified :
    verify sample_library (codes "bundle") (zeros 32) (3 * second) false
    ≡ accepted (sample_snapshot (codes "bundle"))
unfolding verify verify_bundle time_or_zero signature_holds decode_base64 validate_payload
    validate_times validate_routes_of validate_telegram_dc_options validate_routes
    validate_endpoints validate_endpoint endpoint_key invalid_dc role_of contains trim_space
    validate_telegram_address is_safe_telegram_ip is_global_unicast is_broadcast is_unspecified
    is_loopback is_multicast is_link_local_unicast is_private is_link_local_multicast
    in_refused_block atoi trim_brackets valid_port zeros_then normalize_telegram_address space_width
    space_width_back trim_front
sample_verified = refl

verify-sign_example :
    verify sample_library (codes "bundle") (zeros 32) (3 * second) false
    ≡ accepted (sample_snapshot (codes "bundle"))
verify-sign_example =
    verify-sign sample_library sample_payload (zeros 64) (zeros 32) (2 * second) (3 * second)
      (1 * second) (9 * second) false (codes "bundle")
      (record { public_size = refl; signature_size = λ m. refl; verifies = λ m. refl }) (λ s. refl)
      (λ canonical e raw r. ([], refl, refl)) sample_signed (omega arith, omega arith) refl refl
      (omega arith) (inr (omega arith))

verify-IsVerified_example :
    IsVerified sample_library
      (codes "bundle")
      (zeros 32)
      (3 * second)
      false
      (sample_snapshot (codes "bundle"))
verify-IsVerified_example =
    verify-IsVerified sample_library (codes "bundle") (zeros 32) (3 * second) false
      (sample_snapshot (codes "bundle")) sample_verified

abbrev sample_remote : TopologyConfig
sample_remote = record {
  url = codes "https://t";
  public_key = zeros 32;
  state_path = codes "/state";
  refresh_interval_sec = 900;
}

abbrev working_files : FileCalls
working_files = record {
  directory_made = true;
  temporary_made = true;
  mode_set = true;
  written = true;
  synced = true;
  closed = true;
  removed = true;
  renamed = true;
  directory_opened = true;
  directory_synced = true;
}

abbrev sample_fetch : Fetch
sample_fetch = record {
  cancelled = false;
  requested = true;
  response = some (record { status = 200; body = some (codes "bundle") });
  now = 3 * second;
  files = working_files;
}

abbrev started_manager : TopologyManager
started_manager = record {
  last_on_demand = none;
  base = sample_telegram;
  remote = sample_remote;
  public_key = zeros 32;
  current = none;
  has_client = true;
}

-- A first start, a refresh and a restart.
abbrev first_events : List Event
first_events = restarts (2 * second) true ∷ []

abbrev next_events : List Event
next_events = refreshes sample_fetch ∷ restarts (20 * second) true ∷ []

first_start :
    (run sample_library false sample_telegram sample_remote first_events (stopped none)).running
    ≡ some started_manager
unfolding run step new_topology_manager decode_topology_public_key trim_space space_width
    space_width_back trim_front
first_start = refl

abbrev followed_manager : TopologyManager
followed_manager = record {
  last_on_demand = none;
  base = sample_telegram;
  remote = sample_remote;
  public_key = zeros 32;
  current = some (sample_snapshot (codes "bundle"));
  has_client = true;
}

refresh-new_topology_manager_example :
    (refresh sample_library false sample_fetch started_manager none ≡ record {
      manager = with_current started_manager (sample_snapshot (codes "bundle"));
      file = some (codes "bundle");
      ok = true;
    })
    × ((restarted : TopologyManager) × (new_topology_manager sample_library sample_telegram
            sample_remote
            (read_file true (refresh sample_library false sample_fetch started_manager none).file)
            (20 * second)
          ≡ some restarted)
        × (restarted.current ≡ some (sample_snapshot (codes "bundle"))))
unfolding dynamic trim_space space_width space_width_back trim_front revision
    decode_topology_public_key
refresh-new_topology_manager_example =
    refresh-new_topology_manager sample_library false sample_fetch started_manager none
      (codes "bundle") (sample_snapshot (codes "bundle")) (20 * second)
      (record {
        response = record { status = 200; body = some (codes "bundle") };
        is_client = refl;
        is_dynamic = refl;
        is_not_cancelled = refl;
        is_requested = refl;
        answers = refl;
        is_ok = refl;
        has_body = refl;
        files_work = record {
          directory_made = refl;
          temporary_made = refl;
          mode_set = refl;
          written = refl;
          synced = refl;
          closed = refl;
          removed = refl;
          renamed = refl;
          directory_synced = refl;
        };
      })
      sample_verified (omega arith) refl (omega arith)

later_run :
    (run sample_library false sample_telegram sample_remote next_events
      (run sample_library false sample_telegram sample_remote first_events (stopped none))).running
    ≡ some followed_manager
unfolding run step new_topology_manager decode_topology_public_key refresh apply_bundle is_newer
    with_current persist_topology_snapshot dynamic verify verify_bundle time_or_zero signature_holds
    decode_base64 validate_payload validate_times validate_routes_of validate_telegram_dc_options
    validate_routes validate_endpoints validate_endpoint endpoint_key invalid_dc role_of contains
    trim_space validate_telegram_address is_safe_telegram_ip is_global_unicast is_broadcast
    is_unspecified is_loopback is_multicast is_link_local_unicast is_private is_link_local_multicast
    in_refused_block atoi trim_brackets valid_port zeros_then normalize_telegram_address space_width
    space_width_back trim_front
later_run = refl

run-revision_example : revision started_manager ≤ revision followed_manager
run-revision_example =
    run-revision sample_library sample_telegram sample_remote none first_events next_events
      started_manager followed_manager first_start later_run

run-addresses_example :
    All (IsPublic one_net) (addresses sample_library started_manager 2 false true)
run-addresses_example =
    run-addresses sample_library false sample_telegram sample_remote none first_events
      started_manager 2 false true sample_telegram_valid first_start

abbrev running_relay : Relay
running_relay = record { running = some started_manager; file = none }

-- Two requests within the cooldown.
abbrev two_requests : List Event
two_requests =
    ensures 9 false false (5 * second) sample_fetch
    ∷ ensures 9 false false (15 * second) sample_fetch
    ∷ []

asked_in-bound_example :
    asked_in sample_library false sample_telegram sample_remote two_requests running_relay
        * (30 * second)
      + 1 * second
    ≤ 16 * second + 30 * second
asked_in-bound_example =
    asked_in-bound sample_library false sample_telegram sample_remote two_requests (1 * second)
      (16 * second) running_relay started_manager refl refl
      (omega arith, (omega arith, omega arith))

configured_dcs_iff_example :
    IsAscending (configured_dcs started_manager false)
    × ((dc : ℕ)
        → Elem dc (configured_dcs started_manager false) ↔ IsConfigured started_manager false dc)
configured_dcs_iff_example = configured_dcs_iff started_manager false

configured_dcs_runs : configured_dcs started_manager false ≡ 1 ∷ 2 ∷ []
unfolding configured_dcs with_routes insert_dc trim_space space_width space_width_back trim_front
configured_dcs_runs = refl

next_topology_refresh_delay_runs : next_topology_refresh_delay 0 2 ≡ 60 * second
unfolding next_topology_refresh_delay
next_topology_refresh_delay_runs = refl

dial_safe_topology_source-IsSafelyDialled_example :
    IsSafelyDialled sample_library
      (λ host. none)
      (λ address. true)
      (sample_library.net.split_host_port (codes "t:443"))
      (dial_safe_topology_source sample_library (λ host. none) (λ address. true) (codes "t:443"))
dial_safe_topology_source-IsSafelyDialled_example =
    dial_safe_topology_source-IsSafelyDialled sample_library (λ host. none) (λ address. true)
      (codes "t:443")
