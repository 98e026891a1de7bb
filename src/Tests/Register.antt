-- ===== src/Tests/Register.antt =====
-- Runs and witnesses for the registration of sessions and the loading of the state.
use tg_proxy_relay.Prelude.{
  ◌≡◌, refl, Bool, true, List, [], ◌∷◌, Bytes, none, some, arith, Option, ◌↔◌, ◌≤◌, ◌*◌,
}
use tg_proxy_relay.Prelude.Text.{codes, trim_space}
use tg_proxy_relay.Prelude.Maps.{Map, lookup}
use tg_proxy_relay.Control.Sanitize.{sanitize_identifier, is_identifier_byte}
use tg_proxy_relay.Config.Net.{Net, v4}
use tg_proxy_relay.Control.State.{TrackedClient, max_tracked_clients}
use tg_proxy_relay.Control.Devices.{DeviceRequest}
use tg_proxy_relay.Control.Register.{ClientHeaders, Locations, register_session}
use tg_proxy_relay.Control.Register.Keeps.{IsTidy, register_session-IsTidy}
use tg_proxy_relay.Control.Register.Outcome.{RegisterOutcome, register_session-RegisterOutcome}
use tg_proxy_relay.Prelude.Keys.{Unique}
use tg_proxy_relay.Config.Tokens.{all_bytes, normalize_hash, stable_token_id}
use tg_proxy_relay.Control.Load.{
  StateJson, state_of, content, loaded, load, check_state, over_limit, valid_client, valid_block,
  validate_state_against_config,
}
use tg_proxy_relay.Control.Load.Accepted.{IsLoadable, load_iff}
use tg_proxy_relay.Control.Load.Conflict.{validate_state_against_config_iff}
use tg_proxy_relay.Tests.Sample.{sample_go, sample_token, sample_plane, sample_IsOwned}

-- Every text is the address of 8.8.8.8.
abbrev pub public_net : Net
public_net = record {
  parse_ip = λ s. some (v4 8 8 8 8);
  ip_string = λ ip. codes "8.8.8.8";
  split_host_port = λ s. none;
  join_host_port = λ host port. host;
}

abbrev pub kept_order : List (Bytes × Bytes) → List (Bytes × Bytes)
kept_order items = items

abbrev pub new_device : DeviceRequest
new_device = record {
  device_header = codes "dev2_new";
  previous_header = [];
  remote_ip = codes "8.8.8.8";
}

abbrev pub sample_headers : ClientHeaders
sample_headers = record {
  identity_version = codes "2";
  manufacturer = codes "Acme";
  brand = [];
  canonical_brand = [];
  model = codes "Two";
  device_name = [];
  device_code = [];
  product = [];
  app_version = [];
  app_code = [];
  android = [];
}

abbrev pub no_locations : Locations
no_locations = record { has_resolver = true; cache = []; busy = [] }

abbrev pub sample_now : Bytes
sample_now = codes "2026-01-05T00:00:00Z"

sample_plane-IsTidy : IsTidy max_tracked_clients sample_plane
sample_plane-IsTidy = record {
  has_unique_keys = λ j. ground arith;
  is_bounded = omega arith;
  is_owned = sample_IsOwned;
}

register_session-IsTidy_example : IsTidy max_tracked_clients (
    (register_session public_net sample_go kept_order sample_token new_device sample_headers
      sample_now 0 no_locations sample_plane).2)
register_session-IsTidy_example =
    register_session-IsTidy public_net sample_go kept_order sample_token new_device sample_headers
      sample_now 0 no_locations sample_plane
      (record { same_length = λ items. refl; same_counts = λ j items. refl }) sample_plane-IsTidy

register_session-RegisterOutcome_example :
    RegisterOutcome public_net sample_go kept_order sample_token new_device sample_now no_locations
      sample_plane
      (register_session public_net sample_go kept_order sample_token new_device sample_headers
        sample_now 0 no_locations sample_plane)
register_session-RegisterOutcome_example =
    register_session-RegisterOutcome public_net sample_go kept_order sample_token new_device
      sample_headers sample_now 0 no_locations sample_plane

abbrev any_time : Bytes → Bool
any_time text = true

abbrev old_clients : Map Bytes TrackedClient → Map Bytes (Option TrackedClient)
old_clients [] = []
old_clients ((key, client) ∷ clients) = (key, some client) ∷ old_clients clients

abbrev old_state : StateJson
old_state = record {
  version = 1;
  instance_id = [];
  added_tokens = sample_plane.state.added_tokens;
  revoked_hashes = sample_plane.state.revoked_hashes;
  deleted_token_ids = sample_plane.state.deleted_token_ids;
  clients = old_clients sample_plane.state.clients;
  blocked_devices = sample_plane.state.blocked_devices;
}

abbrev some_state : Option (StateJson × Bool)
some_state = some (old_state, true)

load_iff_example :
    (load sample_go any_time (content 100 (some (old_state, true))) ≡ loaded (state_of old_state))
    ↔ ((100 ≤ 8 * 1024 * 1024)
        × ((s : StateJson) × (some_state ≡ some (s, true))
            × IsLoadable sample_go any_time s
            × (state_of old_state ≡ state_of s)))
load_iff_example = load_iff sample_go any_time 100 (some (old_state, true)) (state_of old_state)

old_state_loads :
    load sample_go any_time (content 100 (some (old_state, true))) ≡ loaded (state_of old_state)
unfolding load check_state over_limit valid_client sanitize_identifier trim_space all_bytes
    is_identifier_byte valid_block lookup
old_state_loads = refl

validate_state_against_config_iff_example :
    (validate_state_against_config sample_go (sample_token ∷ []) [] ≡ true) ↔ (
      Unique (stable_token_id sample_go) (sample_token ∷ [])
      × Unique (λ token. normalize_hash sample_go token.hash) (sample_token ∷ []))
validate_state_against_config_iff_example =
    validate_state_against_config_iff sample_go (sample_token ∷ []) []
