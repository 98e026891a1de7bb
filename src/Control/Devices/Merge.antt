-- ===== src/Control/Devices/Merge.antt =====
-- A device that comes under a new identifier (internal/relay/control_plane.go:
-- `migrateClientIdentityLocked`, `legacyMatchesRequest`, `mergeClientKeyLocked`,
-- `mergeTrackedClient`).
use tg_proxy_relay.Prelude.{
  ℕ, Bool, true, false, not, ◌||◌, ◌&&◌, List, [], ◌∷◌, ◌++◌, ◌==◌, bytes_eq, nat_eq, if◌then◌else◌,
  ltb, Bytes, Option, none, some,
}
use tg_proxy_relay.Prelude.Maps.{Map, lookup, insert, delete}
use tg_proxy_relay.Platform.{Platform}
use tg_proxy_relay.Control.Sanitize.{sanitize_display}
use tg_proxy_relay.Control.State.{ControlPlane, TrackedClient}
use tg_proxy_relay.Control.Devices.{RequestDeviceIdentity, key_of}

-- Go's order of strings.
unfoldable pub bytes_ltb : Bytes → Bytes → Bool
bytes_ltb [] [] = false
bytes_ltb [] (b ∷ bs) = true
bytes_ltb (a ∷ as') [] = false
bytes_ltb (a ∷ as') (b ∷ bs) = ltb a b || (a == b && bytes_ltb as' bs)

filled : Bytes → Bytes → Bytes
filled destination source = if destination == [] then source else destination

unfoldable pub merge_tracked_client : TrackedClient → TrackedClient → TrackedClient
unfolding filled
merge_tracked_client destination source = record {
  key = destination.key;
  token_id = destination.token_id;
  device_id = destination.device_id;
  identity_version = filled destination.identity_version source.identity_version;
  manufacturer = filled destination.manufacturer source.manufacturer;
  brand = filled destination.brand source.brand;
  canonical_brand = filled destination.canonical_brand source.canonical_brand;
  model = filled destination.model source.model;
  marketing_name = filled destination.marketing_name source.marketing_name;
  device = filled destination.device source.device;
  product = filled destination.product source.product;
  app_version = filled destination.app_version source.app_version;
  app_code = filled destination.app_code source.app_code;
  android = filled destination.android source.android;
  country = filled destination.country source.country;
  city = filled destination.city source.city;
  remote_ip = filled destination.remote_ip source.remote_ip;
  first_seen =
      (if destination.first_seen == []
          || (not (source.first_seen == []) && bytes_ltb source.first_seen destination.first_seen)
        then source.first_seen
        else destination.first_seen);
  last_seen =
      (if bytes_ltb destination.last_seen source.last_seen
        then source.last_seen
        else destination.last_seen);
}

unfoldable pub rename_in : Bytes → Bytes → Map ℕ Bytes → Map ℕ Bytes
rename_in old_key new_key [] = []
rename_in old_key new_key ((id, owner) ∷ sessions) =
    (id, if owner == old_key then new_key else owner) ∷ rename_in old_key new_key sessions

unfoldable pub rename_sessions : Bytes → Bytes → Map Bytes (Map ℕ Bytes) → Map Bytes (Map ℕ Bytes)
rename_sessions old_key new_key [] = []
rename_sessions old_key new_key ((token, sessions) ∷ active) =
    (token, rename_in old_key new_key sessions) ∷ rename_sessions old_key new_key active

-- What a map gives for a key that is not there is the empty string.
unfoldable pub text_of : Option Bytes → Bytes
text_of none = []
text_of (some text) = text

unfoldable pub move_block : Bytes → Bytes → Map Bytes Bytes → Map Bytes Bytes
unfolding text_of
move_block old_key new_key blocks =
    let blocked_at = text_of (lookup old_key blocks) in
    let current = text_of (lookup new_key blocks) in
    if blocked_at == []
    then blocks
    else delete old_key (
        if current == [] || bytes_ltb blocked_at current
        then insert new_key blocked_at blocks
        else blocks)

pub moved_client : Bytes → Bytes → Bytes → TrackedClient → Option TrackedClient → TrackedClient
moved_client new_key token_id device_id source none = record source {
  key = new_key;
  token_id = token_id;
  device_id = device_id;
}
moved_client new_key token_id device_id source (some destination) =
    merge_tracked_client destination source

unfoldable pub merge_client_key : Bytes → Bytes → Bytes → Bytes → ControlPlane → ControlPlane
unfolding moved_client
merge_client_key old_key new_key token_id device_id c = elim (lookup old_key c.state.clients) [
  | none ↦ c
  | some source ↦ record c {
    state = record c.state {
      clients = delete old_key (
          insert new_key
            (moved_client new_key token_id device_id source (lookup new_key c.state.clients))
            c.state.clients);
      blocked_devices = move_block old_key new_key c.state.blocked_devices;
    };
    active = rename_sessions old_key new_key c.active;
  }
]

-- What the request says of the device: the address and two headers as they came.
unfoldable pub legacy_matches_request : Platform → TrackedClient → Bytes → Bytes → Bytes → Bool
legacy_matches_request go client remote_ip manufacturer_header model_header =
    let manufacturer = sanitize_display manufacturer_header 96 in
    let model = sanitize_display model_header 128 in
    if remote_ip == [] || not (client.remote_ip == remote_ip)
    then false
    else not (manufacturer == [])
      && not (model == [])
      && go.equal_fold client.manufacturer manufacturer
      && go.equal_fold client.model model

unfoldable pub migrate_keys :
    List Bytes → Bytes → RequestDeviceIdentity → ControlPlane → ControlPlane
migrate_keys [] new_key identity c = c
migrate_keys (old_key ∷ keys) new_key identity c = migrate_keys keys new_key identity (
    if old_key == new_key
    then c
    else merge_client_key old_key new_key identity.token_id identity.device_id c)

unfoldable pub migrate_client_identity :
    Platform → RequestDeviceIdentity → Bytes → Bytes → Bytes → ControlPlane → ControlPlane
migrate_client_identity go identity remote_ip manufacturer model c =
    let new_key = key_of identity.token_id identity.device_id in
    let legacy_key = key_of identity.token_id identity.legacy_device_id in
    let previous =
      (if identity.previous_device_id == []
        then []
        else key_of identity.token_id identity.previous_device_id ∷ []) in
    let legacy =
      (if identity.device_id == identity.legacy_device_id
        then []
        else elim (lookup legacy_key c.state.clients) [
          | none ↦ []
          | some client ↦
              if legacy_matches_request go client remote_ip manufacturer model
              then legacy_key ∷ []
              else []
        ]) in
    migrate_keys (previous ++ legacy) new_key identity c
