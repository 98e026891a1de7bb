-- ===== src/Control/Tokens.antt =====
-- Authorizing, creating and deleting client tokens (internal/relay/control_plane.go:
-- `authorizeClient`, `authorizeTokens`, `clientTokenActiveLocked`, `createToken`, `deleteToken`).
-- Each method runs under the lock. Time, randomness and the file system are arguments.
pub mod Live
pub mod Create
pub mod Delete
pub mod Reuse
use tg_proxy_relay.Prelude.{
  ℕ, zero, suc, ◌+◌, ◌≡◌, Bool, true, false, not, ◌||◌, ◌&&◌, List, [], ◌∷◌, ◌++◌, ltb, leb, ◌==◌,
  nat_eq, bytes_eq, if◌then◌else◌, contains, Bytes, length, take, Option, none, some, map,
}
use tg_proxy_relay.Prelude.Maps.{Map, lookup, insert, delete}
use tg_proxy_relay.Prelude.Text.{codes, has_prefix, trim_space}
use tg_proxy_relay.Platform.{Platform}
use tg_proxy_relay.Config.Tokens.{
  Token, no_token, token_hash, normalize_hash, stable_token_id, hex_encode,
}
use tg_proxy_relay.Control.Sanitize.{
  sanitize_display, sanitize_identifier, bearer_token, valid_client_secret, constant_hash_equal,
}
use tg_proxy_relay.Control.State.{
  ControlPlane, ControlState, StateFiles, TrackedClient, enabled, persist_critical, revoked,
  all_tokens,
}

pub data CreateError : Type 0 where
  api_disabled invalid_key invalid_secret requires_secret random_failed : CreateError
  deleted_key other_secret other_name too_many_tokens create_not_persisted : CreateError

pub data DeleteError : Type 0 where
  id_required not_exist too_many_revocations too_many_deleted_ids delete_not_persisted : DeleteError

-- The token, its secret, and whether an earlier request has created it.
pub data Created : Type 0 where
  created : Token → Bytes → Bool → Created
  create_error : CreateError → Created

-- "Подключение"
abbrev default_name : Bytes
default_name =
    0xD0 ∷ 0x9F ∷ 0xD0 ∷ 0xBE ∷ 0xD0 ∷ 0xB4 ∷ 0xD0 ∷ 0xBA ∷ 0xD0 ∷ 0xBB ∷ 0xD1 ∷ 0x8E ∷ 0xD1 ∷ 0x87
    ∷ 0xD0 ∷ 0xB5 ∷ 0xD0 ∷ 0xBD ∷ 0xD0 ∷ 0xB8 ∷ 0xD0 ∷ 0xB5 ∷ []

-- What one call of `createToken` gets from the system: 32 random bytes, 12 random bytes, the time
-- as text, and what the calls on the state file return.
pub record CreateEnv : Type 0 where
  pub secret_bytes : Option Bytes
  pub id_bytes : Option Bytes
  pub now : Bytes
  pub persists : StateFiles

module _ (go : Platform) where
  open go use {sha256_sum, raw_url_base64}

  -- The first token with the hash.
  unfoldable pub find_hash : Bytes → List Token → Option Token
  find_hash hash [] = none
  find_hash hash (token ∷ rest) =
      let later = find_hash hash rest in
      if constant_hash_equal go token.hash hash then some token else later

  authorized : Option Token → Token × Bool
  authorized none = (no_token, false)
  authorized (some token) =
      let normal = record token { hash = normalize_hash go token.hash } in
      (record normal { id = stable_token_id go normal }, true)

  unfoldable pub authorize_client : ControlPlane → Bytes → Token × Bool
  unfolding authorized
  authorize_client c header =
      let raw = bearer_token header in
      let hash = token_hash go raw in
      if raw == []
      then (no_token, false)
      else if revoked go c.state hash
      then (no_token, false)
      else authorized (find_hash hash (all_tokens go c))

  is_found : Option Token → Bool
  is_found none = false
  is_found (some _) = true

  unfoldable pub authorize_tokens : List Token → Bytes → Bool
  unfolding is_found
  authorize_tokens tokens header =
      let raw = bearer_token header in
      if raw == [] then false else is_found (find_hash (token_hash go raw) tokens)

  unfoldable pub client_token_active : ControlPlane → Token → Bool
  unfolding is_found
  client_token_active c wanted =
      let wanted_hash = normalize_hash go wanted.hash in
      if wanted_hash == [] || revoked go c.state wanted_hash
      then false
      else is_found (find_hash wanted_hash (all_tokens go c))

  -- The first token with the identifier.
  unfoldable pub find_id : Bytes → List Token → Option Token
  find_id id [] = none
  find_id id (token ∷ rest) =
      let later = find_id id rest in if stable_token_id go token == id then some token else later

  -- A request that repeats an earlier one.
  replay : Token → Bytes → Token → Created
  replay token raw existing =
      if not (constant_hash_equal go existing.hash token.hash)
      then create_error other_secret
      else if not (sanitize_display existing.name 128 == token.name)
      then create_error other_name
      else created (record existing { id = token.id }) raw true

  undo_append : Token → Bytes → ControlPlane → Bool × ControlPlane → Created × ControlPlane
  undo_append token raw before (true, c) = (created token raw false, c)
  undo_append token raw before (false, c) = (
    create_error create_not_persisted,
    record c { state = record c.state { added_tokens = before.state.added_tokens } },
  )

  -- The new token is added and the state is written; a failure takes it out again.
  unfoldable pub add_token : StateFiles → Token → Bytes → ControlPlane → Created × ControlPlane
  unfolding undo_append
  add_token files token raw c =
      if leb 1024 (length (all_tokens go c))
      then (create_error too_many_tokens, c)
      else undo_append token raw c (
          persist_critical files (record c {
            state = record c.state { added_tokens = c.state.added_tokens ++ token ∷ [] };
          }))

  -- The part under the lock; an empty `key` is no idempotency key.
  unfoldable pub create_locked :
      StateFiles → Bytes → Token → Bytes → ControlPlane → Created × ControlPlane
  unfolding replay
  create_locked files key token raw c =
      if key == []
      then add_token files token raw c
      else if contains c.state.deleted_token_ids token.id
      then (create_error deleted_key, c)
      else elim (find_id token.id (all_tokens go c)) [
        | some existing ↦ (replay token raw existing, c)
        | none ↦ add_token files token raw c
      ]

  abbrev pub idempotent_id : Bytes → Bytes
  idempotent_id key =
      codes "tok_" ++ hex_encode (take 12 (sha256_sum (codes "tgproxy-token-request:" ++ key)))

  token_id_for : Bytes → Option Bytes → Option Bytes
  token_id_for key id_bytes =
      if not (key == [])
      then some (idempotent_id key)
      else elim id_bytes [ none ↦ none | some bytes ↦ some (codes "tok_" ++ hex_encode bytes) ]

  secret_for : Bytes → Option Bytes → Option Bytes
  secret_for raw secret_bytes = if not (raw == []) then some raw else elim secret_bytes [
    | none ↦ none
    | some bytes ↦ some (codes "tgpr_" ++ raw_url_base64 bytes)
  ]

  new_token : Bytes → Bytes → Bytes → Bytes → Token
  new_token id name raw now = record {
    id = id;
    name = name;
    hash = token_hash go raw;
    created_at = now;
  }

  create_with :
      CreateEnv
      → Bytes
      → Bytes
      → Option Bytes
      → Option Bytes
      → ControlPlane
      → Created × ControlPlane
  unfolding new_token
  create_with env key name (some raw) (some id) c =
      create_locked env.persists key (new_token id name raw env.now) raw c
  create_with env key name _ _ c = (create_error random_failed, c)

  unfoldable pub create_token :
      CreateEnv → Bytes → Bytes → Bytes → ControlPlane → Created × ControlPlane
  unfolding create_with token_id_for secret_for
  create_token env name requested_secret idempotency_key c =
      let display = sanitize_display name 128 in
      let clean_name = if display == [] then default_name else display in
      let raw = trim_space requested_secret in
      let clean_key = sanitize_identifier idempotency_key 96 in
      if not (enabled c)
      then (create_error api_disabled, c)
      else if not (idempotency_key == []) && clean_key == []
      then (create_error invalid_key, c)
      else if not (raw == []) && not (valid_client_secret go raw)
      then (create_error invalid_secret, c)
      else if not (clean_key == []) && raw == []
      then (create_error requires_secret, c)
      else create_with env clean_key clean_name (secret_for raw env.secret_bytes)
          (token_id_for clean_key env.id_bytes) c

  -- The added tokens of another hash.
  unfoldable pub without_hash : Bytes → List Token → List Token
  without_hash hash [] = []
  without_hash hash (token ∷ rest) =
      let others = without_hash hash rest in
      if not (normalize_hash go token.hash == hash) then token ∷ others else others

  unfoldable pub has_hash : Bytes → List Token → Bool
  has_hash hash [] = false
  has_hash hash (token ∷ rest) = normalize_hash go token.hash == hash || has_hash hash rest

unfoldable pub keys_of : Map Bytes TrackedClient → List Bytes
keys_of [] = []
keys_of ((k, _) ∷ m) = k ∷ keys_of m

-- What `deleteToken` takes out of the clients and the blocked devices, and puts back on a failure.
pub record Removed : Type 0 where
  pub clients : Map Bytes TrackedClient
  pub blocked : Map Bytes Bytes

-- One client of the token goes, with its block if it has one.
unfoldable pub purge_client :
    Bytes → TrackedClient → ControlState × Removed → ControlState × Removed
purge_client key client (state, removed) =
    let removed' = record removed { clients = insert key client removed.clients } in
    elim (lookup key state.blocked_devices) [
      | none ↦ (record state { clients = delete key state.clients }, removed')
      | some blocked_at ↦ elim (blocked_at == []) [
        | true ↦ (record state { clients = delete key state.clients }, removed')
        | false ↦ (
          record state {
            clients = delete key state.clients;
            blocked_devices = delete key state.blocked_devices;
          },
          record removed' { blocked = insert key blocked_at removed.blocked },
        )
      ]
    ]

-- The loop over the clients: a key that is gone is not met again.
unfoldable pub purge : Bytes → List Bytes → ControlState × Removed → ControlState × Removed
purge id [] s = s
purge id (key ∷ keys) (state, removed) = elim (lookup key state.clients) [
  | none ↦ purge id keys (state, removed)
  | some client ↦ elim (client.token_id == id) [
    | true ↦ purge id keys (purge_client key client (state, removed))
    | false ↦ purge id keys (state, removed)
  ]
]

unfoldable pub put_back {ℓ} : {V : Type ℓ} → Map Bytes V → Map Bytes V → Map Bytes V
put_back [] m = m
put_back ((k, v) ∷ rest) m = insert k v (put_back rest m)

session_keys : Map ℕ Bytes → List ℕ
session_keys [] = []
session_keys ((id, _) ∷ m) = id ∷ session_keys m

unfoldable pub sessions_of : Option (Map ℕ Bytes) → List ℕ
unfolding session_keys
sessions_of none = []
sessions_of (some m) = session_keys m

-- The result and the sessions that are closed.
pub data Deleted : Type 0 where
  deleted : List ℕ → Deleted
  delete_error : DeleteError → Deleted

module _ (go : Platform) where
  -- `c.state.RevokedHashes` and `c.state.DeletedTokenIDs` with their limits.
  revoke : Bool → Bytes → ControlState → Option ControlState
  revoke base hash state =
      if base && not (contains state.revoked_hashes hash)
      then (if leb 2048 (length state.revoked_hashes)
          then none
          else some (record state { revoked_hashes = state.revoked_hashes ++ hash ∷ [] }))
      else some state

  forget_id : Bytes → ControlState → Option ControlState
  forget_id id state =
      if has_prefix id (codes "tok_") && not (contains state.deleted_token_ids id)
      then (if leb 2048 (length state.deleted_token_ids)
          then none
          else some (record state { deleted_token_ids = state.deleted_token_ids ++ id ∷ [] }))
      else some state

  finish_delete : Bytes → ControlState → Removed → Bool × ControlPlane → Deleted × ControlPlane
  finish_delete id before removed (true, c) = (deleted (sessions_of (lookup id c.active)), c)
  finish_delete id before removed (false, c) = (
    delete_error delete_not_persisted,
    record c {
      state = record c.state {
        added_tokens = before.added_tokens;
        revoked_hashes = before.revoked_hashes;
        deleted_token_ids = before.deleted_token_ids;
        clients = put_back removed.clients c.state.clients;
        blocked_devices = put_back removed.blocked c.state.blocked_devices;
      };
    },
  )

  -- From the purge on.
  purge_and_persist : StateFiles → Bytes → ControlState → ControlPlane → Deleted × ControlPlane
  purge_and_persist files id state c =
      let (state', removed) =
        purge id (keys_of state.clients) (state, record { clients = []; blocked = [] }) in
      finish_delete id c.state removed (persist_critical files (record c { state = state' }))

  delete_found : StateFiles → Bytes → Token → ControlPlane → Deleted × ControlPlane
  delete_found files id found c =
      let hash = normalize_hash go found.hash in
      let filtered = record c.state { added_tokens = without_hash go hash c.state.added_tokens } in
      elim (revoke (has_hash go hash c.base_tokens) hash filtered) [
        | none ↦ (delete_error too_many_revocations, c)
        | some state ↦ elim (forget_id id state) [
          | none ↦ (delete_error too_many_deleted_ids, c)
          | some state' ↦ purge_and_persist files id state' c
        ]
      ]

  unfoldable pub delete_token : StateFiles → Bytes → ControlPlane → Deleted × ControlPlane
  unfolding delete_found revoke forget_id purge_and_persist finish_delete
  delete_token files id c =
      let clean_id = trim_space id in
      if clean_id == []
      then (delete_error id_required, c)
      else elim (find_id go clean_id (all_tokens go c)) [
        | none ↦ (delete_error not_exist, c)
        | some found ↦ delete_found files clean_id found c
      ]
