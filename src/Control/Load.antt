-- ===== src/Control/Load.antt =====
-- Loading the state (internal/relay/control_plane.go: `load`, `validateStateAgainstConfig`).
pub mod Accepted
pub mod Conflict
use tg_proxy_relay.Prelude.{
  ℕ, ◌*◌, Bool, true, false, not, ◌||◌, ◌&&◌, List, [], ◌∷◌, ◌++◌, ltb, ◌==◌, nat_eq, bytes_eq,
  if◌then◌else◌, contains, Bytes, length, Option, none, some,
}
use tg_proxy_relay.Prelude.Maps.{Map, lookup}
use tg_proxy_relay.Prelude.Text.{codes, has_prefix}
use tg_proxy_relay.Platform.{Platform}
use tg_proxy_relay.Config.Tokens.{Token, normalize_hash, stable_token_id}
use tg_proxy_relay.Config.Endpoints.{valid_instance_id}
use tg_proxy_relay.Control.Sanitize.{sanitize_identifier, constant_hash_equal}
use tg_proxy_relay.Control.State.{
  ControlState, TrackedClient, control_state_version, max_tracked_clients,
}
use tg_proxy_relay.Control.Devices.{key_of}

-- A state as JSON has it: a client may be null.
pub record StateJson : Type 0 where
  pub version : ℕ
  pub instance_id : Bytes
  pub added_tokens : List Token
  pub revoked_hashes : List Bytes
  pub deleted_token_ids : List Bytes
  pub clients : Map Bytes (Option TrackedClient)
  pub blocked_devices : Map Bytes Bytes

-- What os.ReadFile and the JSON decoder give: of a file its size, and the state if it is one, with
-- whether nothing follows it.
pub data StateFile : Type 0 where
  absent unreadable : StateFile
  content : ℕ → Option (StateJson × Bool) → StateFile

pub data LoadError : Type 0 where
  cannot_read too_large no_state trailing_data bad_version bad_instance over_limits : LoadError
  bad_token bad_hash bad_token_id bad_client bad_block : LoadError

-- `kept` leaves the control plane's state as it is.
pub data Loaded : Type 0 where
  kept : Loaded
  load_error : LoadError → Loaded
  loaded : ControlState → Loaded

-- A loop that stops at the first element that fails a test.
abbrev pub all_pass {ℓ} : {A : Type ℓ} → (A → Bool) → List A → Bool
all_pass test [] = true
all_pass test (x ∷ xs) = test x && all_pass test xs

unfoldable pub valid_client : Bytes × Option TrackedClient → Bool
valid_client (key, none) = false
valid_client (key, some client) =
    key == client.key
    && not (sanitize_identifier client.device_id 96 == [])
    && not (sanitize_identifier client.token_id 96 == [])
    && key == key_of client.token_id client.device_id

unfoldable pub valid_deleted_id : Bytes → Bool
valid_deleted_id id = not (sanitize_identifier id 96 == []) && has_prefix id (codes "tok_")

-- `parses_time` is whether `time.Parse` with RFC3339 reads a text.
unfoldable pub valid_block :
    (Bytes → Bool) → Map Bytes (Option TrackedClient) → Bytes × Bytes → Bool
valid_block parses_time clients (key, blocked_at) = elim (lookup key clients) [
  | none ↦ false
  | some none ↦ false
  | some (some client) ↦ key == key_of client.token_id client.device_id && parses_time blocked_at
]

-- The clients that are not null.
abbrev pub present : Map Bytes (Option TrackedClient) → Map Bytes TrackedClient
present [] = []
present ((key, none) ∷ clients) = present clients
present ((key, some client) ∷ clients) = (key, client) ∷ present clients

-- The state that is kept of one that has passed the checks, with the current version.
abbrev pub state_of : StateJson → ControlState
state_of s = record {
  version = control_state_version;
  instance_id = s.instance_id;
  added_tokens = s.added_tokens;
  revoked_hashes = s.revoked_hashes;
  deleted_token_ids = s.deleted_token_ids;
  clients = present s.clients;
  blocked_devices = s.blocked_devices;
}

unfoldable pub over_limit : StateJson → Bool
over_limit s =
    ltb 1024 (length s.added_tokens)
    || ltb 2048 (length s.revoked_hashes)
    || ltb 2048 (length s.deleted_token_ids)
    || ltb max_tracked_clients (length s.clients)
    || ltb max_tracked_clients (length s.blocked_devices)

module _ (go : Platform) where
  unfoldable pub valid_added_token : Token → Bool
  valid_added_token token =
      not (token.id == [])
      && stable_token_id go token == token.id
      && constant_hash_equal go token.hash (normalize_hash go token.hash)

  unfoldable pub valid_revoked_hash : Bytes → Bool
  valid_revoked_hash hash =
      let normalized = normalize_hash go hash in
      not (normalized == []) && constant_hash_equal go hash normalized

  module _ (parses_time : Bytes → Bool) where
    -- The checks of a state that is read.
    unfoldable pub check_state : StateJson → Option LoadError
    check_state s =
        if not (s.version == 1) && not (s.version == 2) && not (s.version == control_state_version)
        then some bad_version
        else if not (s.instance_id == []) && not (valid_instance_id s.instance_id)
        then some bad_instance
        else if over_limit s
        then some over_limits
        else if not (all_pass valid_added_token s.added_tokens)
        then some bad_token
        else if not (all_pass valid_revoked_hash s.revoked_hashes)
        then some bad_hash
        else if not (all_pass valid_deleted_id s.deleted_token_ids)
        then some bad_token_id
        else if not (all_pass valid_client s.clients)
        then some bad_client
        else if not (all_pass (valid_block parses_time s.clients) s.blocked_devices)
        then some bad_block
        else none

    unfoldable pub load : StateFile → Loaded
    load absent = kept
    load unreadable = load_error cannot_read
    load (content size decoded) =
        if ltb (8 * 1024 * 1024) size then load_error too_large else elim decoded [
          | none ↦ load_error no_state
          | some (s, ended) ↦
              if not ended
              then load_error trailing_data
              else elim (check_state s) [ some e ↦ load_error e | none ↦ loaded (state_of s) ]
        ]

  -- Whether the error is nil; `tokens` are those of the configuration and then the added ones.
  unfoldable pub no_conflict_from : List Bytes → List Bytes → List Token → Bool
  no_conflict_from ids hashes [] = true
  no_conflict_from ids hashes (token ∷ tokens) =
      let id = stable_token_id go token in
      let hash = normalize_hash go token.hash in
      let later = no_conflict_from (id ∷ ids) (hash ∷ hashes) tokens in
      if contains ids id then false else if contains hashes hash then false else later

  unfoldable pub validate_state_against_config : List Token → List Token → Bool
  validate_state_against_config base_tokens added_tokens =
      no_conflict_from [] [] (base_tokens ++ added_tokens)
