-- ===== src/Control/State.antt =====
-- The state of the control plane, and what it keeps on disk (internal/relay/control_plane.go:
-- `controlPlane`, `controlState`, `trackedClient`, `persistLocked`, `persistCriticalLocked`,
-- `scheduleClientPersistLocked`, `flushClientState`).
use tg_proxy_relay.Prelude.{
  ℕ, Bool, true, false, not, ◌||◌, ◌&&◌, none, List, [], ◌∷◌, ◌++◌, ltb, ◌==◌, nat_eq, bytes_eq,
  if◌then◌else◌, contains, Bytes, length, Option, some,
}
use tg_proxy_relay.Prelude.Maps.{Map}
use tg_proxy_relay.Platform.{Platform}
use tg_proxy_relay.Config.Tokens.{Token, normalize_hash, stable_token_id}

abbrev pub control_state_version : ℕ
control_state_version = 3

abbrev pub max_tracked_clients : ℕ
max_tracked_clients = 4096

pub record TrackedClient : Type 0 where
  pub key : Bytes
  pub token_id : Bytes
  pub device_id : Bytes
  pub identity_version : Bytes
  pub manufacturer : Bytes
  pub brand : Bytes
  pub canonical_brand : Bytes
  pub model : Bytes
  pub marketing_name : Bytes
  pub device : Bytes
  pub product : Bytes
  pub app_version : Bytes
  pub app_code : Bytes
  pub android : Bytes
  pub country : Bytes
  pub city : Bytes
  pub remote_ip : Bytes
  pub first_seen : Bytes
  pub last_seen : Bytes

pub record ControlState : Type 0 where
  pub version : ℕ
  pub instance_id : Bytes
  pub added_tokens : List Token
  pub revoked_hashes : List Bytes
  pub deleted_token_ids : List Bytes
  pub clients : Map Bytes TrackedClient
  pub blocked_devices : Map Bytes Bytes

-- `active` has the sessions of each token, and of each session its client's key; a session's
-- closer is named by the session. `client_flush` is whether the timer is armed, and `disk` the
-- state of the file, if there is one.
pub record ControlPlane : Type 0 where
  pub base_tokens : List Token
  pub admin_tokens : List Token
  pub state_path : Bytes
  pub state : ControlState
  pub active : Map Bytes (Map ℕ Bytes)
  pub next_session_id : ℕ
  pub client_dirty : Bool
  pub client_flush : Bool
  pub shutting_down : Bool
  pub disk : Option ControlState

-- `c.enabled()`, of a control plane that is not nil.
unfoldable pub enabled : ControlPlane → Bool
enabled c = ltb 0 (length c.admin_tokens)

-- What the calls of `persist` return, `true` for no error, and whether the system is Windows.
-- `removed` is `true` too when there was no file.
pub record StateFiles : Type 0 where
  pub windows : Bool
  pub marshaled : Bool
  pub directory_made : Bool
  pub temporary_made : Bool
  pub mode_set : Bool
  pub written : Bool
  pub synced : Bool
  pub closed : Bool
  pub removed : Bool
  pub renamed : Bool

-- The writing of the state: whether the error is nil, and the file afterwards. On Windows the old
-- file is removed before the rename.
unfoldable pub replace_file :
    StateFiles → ControlState → Option ControlState → Bool × Option ControlState
replace_file files state disk =
    if not (
      files.marshaled && files.directory_made && files.temporary_made && files.mode_set
      && files.written && files.synced && files.closed)
    then (false, disk)
    else if files.windows && not files.removed
    then (false, disk)
    else if not files.renamed
    then (false, if files.windows then none else disk)
    else (true, some state)

-- `persistLocked`; the sync of the directory is only logged.
unfoldable pub persist : StateFiles → ControlPlane → Bool × ControlPlane
unfolding replace_file
persist files c =
    let state = record c.state { version = control_state_version } in
    let (done, disk) = replace_file files state c.disk in
    if c.state_path == [] then (true, c) else (done, record c { state = state; disk = disk })

unfoldable pub persist_critical : StateFiles → ControlPlane → Bool × ControlPlane
unfolding persist
persist_critical files c =
    let (done, c') = persist files c in
    if done then (true, record c' { client_dirty = false; client_flush = false }) else (false, c')

unfoldable pub schedule_client_persist : ControlPlane → ControlPlane
schedule_client_persist c =
    if c.state_path == []
    then c
    else if c.shutting_down
    then record c { client_dirty = true }
    else record c { client_dirty = true; client_flush = true }

-- The timer's function.
unfoldable pub flush_client_state : StateFiles → ControlPlane → ControlPlane
unfolding persist
flush_client_state files c =
    let fired = record c { client_flush = false } in
    let (done, c') = persist files fired in
    if not c.client_dirty
    then fired
    else if done
    then record c' { client_dirty = false }
    else record c' { client_flush = true }

module _ (go : Platform) where
  unfoldable pub revoked : ControlState → Bytes → Bool
  revoked state hash = contains state.revoked_hashes (normalize_hash go hash)

  -- The loop over one group of tokens; `seen` are the hashes met so far.
  unfoldable pub live_tokens : ControlState → List Bytes → List Token → List Token × List Bytes
  live_tokens state seen [] = ([], seen)
  live_tokens state seen (token ∷ rest) =
      let hash = normalize_hash go token.hash in
      elim (hash == [] || revoked state hash || contains seen hash) [
        | true ↦ live_tokens state seen rest
        | false ↦
            let (found, seen') = live_tokens state (hash ∷ seen) rest in
            let normal = record token { hash = hash } in
            (record normal { id = stable_token_id go normal } ∷ found, seen')
      ]

  unfoldable pub all_tokens : ControlPlane → List Token
  all_tokens c =
      let (base, seen) = live_tokens c.state [] c.base_tokens in
      let (added, _) = live_tokens c.state seen c.state.added_tokens in base ++ added
