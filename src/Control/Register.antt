-- ===== src/Control/Register.antt =====
-- Registering a client's session, and the pruning of clients (internal/relay/control_plane.go:
-- `registerSession`, `setIfPresent`, `pruneClientsLocked`, `publicIP`).
pub mod Prune
pub mod Keeps
pub mod Outcome
use tg_proxy_relay.Prelude.{
  ℕ, ◌+◌, ◌-◌, ◌*◌, ◌%◌, ◌^◌, Bool, true, false, not, ◌||◌, ◌&&◌, List, [], ◌∷◌, ◌++◌, ltb, ◌==◌,
  nat_eq, bytes_eq, if◌then◌else◌, contains, Bytes, length, take, Option, none, some, map,
}
use tg_proxy_relay.Prelude.Maps.{Map, lookup, insert, delete}
use tg_proxy_relay.Prelude.Text.{trim_space}
use tg_proxy_relay.Platform.{Platform}
use tg_proxy_relay.Config.Net.{Ip, Net, is_loopback, is_private, is_unspecified, is_multicast}
use tg_proxy_relay.Config.Tokens.{Token}
use tg_proxy_relay.Control.Sanitize.{sanitize_display}
use tg_proxy_relay.Control.State.{
  ControlPlane, TrackedClient, max_tracked_clients, enabled, schedule_client_persist,
}
use tg_proxy_relay.Control.Tokens.{client_token_active}
use tg_proxy_relay.Control.Devices.{
  DeviceRequest, RequestDeviceIdentity, key_of, session_identity_details, candidate_device_ids,
  any_blocked,
}
use tg_proxy_relay.Control.Devices.Merge.{migrate_client_identity}

-- The headers that describe the client, as they came.
pub record ClientHeaders : Type 0 where
  pub identity_version : Bytes
  pub manufacturer : Bytes
  pub brand : Bytes
  pub canonical_brand : Bytes
  pub model : Bytes
  pub device_name : Bytes
  pub device_code : Bytes
  pub product : Bytes
  pub app_version : Bytes
  pub app_code : Bytes
  pub android : Bytes

pub record CachedLocation : Type 0 where
  pub country : Bytes
  pub city : Bytes
  -- nanoseconds
  pub at : ℕ

-- The fields of the control plane for the geolocation of clients.
pub record Locations : Type 0 where
  pub has_resolver : Bool
  pub cache : Map Bytes CachedLocation
  pub busy : List Bytes

unfoldable pub set_if_present : Bytes → Bytes → ℕ → Bytes
set_if_present target raw max =
    let value = sanitize_display raw max in if value == [] then target else value

-- The sessions' keys of clients, of all tokens.
owners : Map ℕ Bytes → List Bytes
owners [] = []
owners ((id, owner) ∷ sessions) = owner ∷ owners sessions

unfoldable pub active_keys : Map Bytes (Map ℕ Bytes) → List Bytes
unfolding owners
active_keys [] = []
active_keys ((token, sessions) ∷ active) = owners sessions ++ active_keys active

-- The candidates with or without a session: key and time of the last visit.
unfoldable pub candidates : Bool → List Bytes → Map Bytes TrackedClient → List (Bytes × Bytes)
candidates wanted keys [] = []
candidates wanted keys ((key, client) ∷ clients) =
    let rest = candidates wanted keys clients in
    elim (contains keys key) [
      | true ↦ if wanted then (key, client.last_seen) ∷ rest else rest
      | false ↦ if wanted then rest else (key, client.last_seen) ∷ rest
    ]

unfoldable pub delete_keys {κ} : {V : Type κ} → List (Bytes × Bytes) → Map Bytes V → Map Bytes V
delete_keys [] m = m
delete_keys ((key, _) ∷ items) m = delete_keys items (delete key m)

-- `sort` is `sort.Slice` by the time of the last visit.
module _ (sort : List (Bytes × Bytes) → List (Bytes × Bytes)) where
  unfoldable pub prune_items : ControlPlane → List (Bytes × Bytes)
  prune_items c =
      let keys = active_keys c.active in
      let items =
        sort (candidates false keys c.state.clients)
        ++ sort (candidates true keys c.state.clients) in
      take (length c.state.clients - max_tracked_clients + 1) items

  unfoldable pub prune_clients : ControlPlane → ControlPlane
  prune_clients c =
      let items = prune_items c in
      if ltb (length c.state.clients) max_tracked_clients then c else record c {
        state = record c.state {
          clients = delete_keys items c.state.clients;
          blocked_devices = delete_keys items c.state.blocked_devices;
        };
      }

unfoldable pub public_ip : Net → Bytes → Bool
public_ip net value = elim (net.parse_ip (trim_space value)) [
  | none ↦ false
  | some ip ↦
      not (is_loopback ip)
      && not (is_private ip)
      && not (is_unspecified ip)
      && not (is_multicast ip)
]

-- A new client, before its headers are taken.
unfoldable pub new_client : Bytes → RequestDeviceIdentity → Bytes → TrackedClient
new_client key identity now = record {
  key = key;
  token_id = identity.token_id;
  device_id = identity.device_id;
  identity_version = [];
  manufacturer = [];
  brand = [];
  canonical_brand = [];
  model = [];
  marketing_name = [];
  device = [];
  product = [];
  app_version = [];
  app_code = [];
  android = [];
  country = [];
  city = [];
  remote_ip = [];
  first_seen = now;
  last_seen = [];
}

unfoldable pub described : ClientHeaders → Bytes → Bytes → TrackedClient → TrackedClient
described h remote_ip now client = record client {
  identity_version = set_if_present client.identity_version h.identity_version 16;
  manufacturer = set_if_present client.manufacturer h.manufacturer 96;
  brand = set_if_present client.brand h.brand 96;
  canonical_brand = set_if_present client.canonical_brand h.canonical_brand 96;
  model = set_if_present client.model h.model 128;
  marketing_name = set_if_present client.marketing_name h.device_name 160;
  device = set_if_present client.device h.device_code 128;
  product = set_if_present client.product h.product 128;
  app_version = set_if_present client.app_version h.app_version 64;
  app_code = set_if_present client.app_code h.app_code 32;
  android = set_if_present client.android h.android 64;
  remote_ip = remote_ip;
  last_seen = now;
}

-- The client of a key, or a new one.
unfoldable pub client_for :
    Bytes → RequestDeviceIdentity → Bytes → Option TrackedClient → TrackedClient
client_for key identity now none = new_client key identity now
client_for key identity now (some client) = client

unfoldable pub sessions_of : Option (Map ℕ Bytes) → Map ℕ Bytes
sessions_of none = []
sessions_of (some sessions) = sessions

-- The session is entered under the next identifier, and the client's record is written.
unfoldable pub enter_session : Bytes → Bytes → TrackedClient → ControlPlane → ControlPlane
unfolding sessions_of
enter_session token_id key client c =
    let id = (c.next_session_id + 1) % 2 ^ 64 in
    schedule_client_persist (record c {
      state = record c.state { clients = insert key client c.state.clients };
      active = insert token_id (insert id key (sessions_of (lookup token_id c.active))) c.active;
      next_session_id = id;
    })

-- A location of the cache that is less than a day old.
unfoldable pub fresh_location : Option CachedLocation → ℕ → Option CachedLocation
fresh_location none clock = none
fresh_location (some cached) clock =
    if ltb clock (cached.at + 24 * 3600 * 1000000000) then some cached else none

-- What registering does about the client's location; the flag says whether a lookup is started.
unfoldable pub locate :
    Net
    → Bytes
    → TrackedClient
    → Bytes
    → ℕ
    → Locations
    → ControlPlane
    → Bool × Locations × ControlPlane
unfolding fresh_location
locate net key client remote_ip clock l c =
    if not
      (not (remote_ip == []) && client.country == [] && public_ip net remote_ip && l.has_resolver)
    then (false, l, c)
    else elim (fresh_location (lookup remote_ip l.cache) clock) [
      | some cached ↦ (
        false,
        l,
        schedule_client_persist (record c {
          state = record c.state {
            clients =
                insert key (record client { country = cached.country; city = cached.city })
                  c.state.clients;
          };
        }),
      )
      | none ↦
          if contains l.busy remote_ip
          then (false, l, c)
          else (true, record l { busy = remote_ip ∷ l.busy }, c)
    ]

-- `registered` has the token's and the session's identifier, the client's key, and whether a lookup
-- of the location is started; without a control plane there is nothing to do.
pub data Registration : Type 0 where
  not_tracked refused : Registration
  registered : Bytes → ℕ → Bytes → Bool → Registration

module _ (net : Net) (go : Platform) (sort : List (Bytes × Bytes) → List (Bytes × Bytes)) where
  -- From the pruning on.
  unfoldable pub admit_session :
      RequestDeviceIdentity
      → DeviceRequest
      → ClientHeaders
      → Bytes
      → ℕ
      → Locations
      → ControlPlane
      → Registration × Locations × ControlPlane
  admit_session identity r h now clock l c =
      let key = key_of identity.token_id identity.device_id in
      let ready =
        migrate_client_identity go identity r.remote_ip h.manufacturer h.model
          (prune_clients sort c) in
      let client =
        described h r.remote_ip now
          (client_for key identity now (lookup key ready.state.clients)) in
      let entered = enter_session identity.token_id key client ready in
      let (starts, l', c') = locate net key client r.remote_ip clock l entered in
      (registered identity.token_id entered.next_session_id key starts, l', c')

  unfoldable pub register_session :
      Token
      → DeviceRequest
      → ClientHeaders
      → Bytes
      → ℕ
      → Locations
      → ControlPlane
      → Registration × Locations × ControlPlane
  register_session token r h now clock l c =
      let identity = session_identity_details go token r in
      if not (enabled c)
      then (not_tracked, l, c)
      else if c.shutting_down || not (client_token_active go c token)
      then (refused, l, c)
      else if any_blocked c.state.blocked_devices identity.token_id (candidate_device_ids identity)
      then (refused, l, c)
      else admit_session identity r h now clock l c

seen_at : Bytes → TrackedClient → TrackedClient
seen_at now client = record client { last_seen = now }

without_session :
    ℕ → Bytes → Option (Map ℕ Bytes) → Map Bytes (Map ℕ Bytes) → Map Bytes (Map ℕ Bytes)
without_session id token_id none active = active
without_session id token_id (some sessions) active =
    if length (delete id sessions) == 0
    then delete token_id active
    else insert token_id (delete id sessions) active

-- The function that `register_session` returns, once.
unfoldable pub release_session : Bytes → ℕ → Bytes → Bytes → ControlPlane → ControlPlane
unfolding without_session seen_at
release_session token_id id key now c = schedule_client_persist (record c {
  state = record c.state {
    clients = elim (lookup key c.state.clients) [
      | none ↦ c.state.clients
      | some client ↦ insert key (seen_at now client) c.state.clients
    ];
  };
  active = without_session id token_id (lookup token_id c.active) c.active;
})
