-- ===== src/Control/Devices.antt =====
-- Devices: who a request comes from, blocking and disconnecting (internal/relay/control_plane.go:
-- `sessionIdentityDetails`, `candidateDeviceIDs`, `deviceBlocked`, `deviceKey`, `setDeviceBlocked`,
-- `disconnectDevice`, `deviceClosersLocked`).
pub mod Blocks
pub mod Merge
pub mod Refused
pub mod Orphans
use tg_proxy_relay.Prelude.{
  ℕ, ◌≡◌, Bool, true, false, not, ◌||◌, ◌&&◌, List, [], ◌∷◌, ◌++◌, ◌==◌, bytes_eq, if◌then◌else◌,
  contains, Bytes, take, Option, none, some,
}
use tg_proxy_relay.Prelude.Maps.{Map, lookup, insert, delete}
use tg_proxy_relay.Prelude.Text.{codes, has_prefix}
use tg_proxy_relay.Platform.{Platform}
use tg_proxy_relay.Config.Tokens.{Token, stable_token_id, hex_encode}
use tg_proxy_relay.Control.Sanitize.{sanitize_identifier}
use tg_proxy_relay.Control.State.{
  ControlPlane, StateFiles, TrackedClient, enabled, persist_critical,
}

-- What a request says of its device: two headers as they came, and the address `clientRemoteIP`
-- finds.
pub record DeviceRequest : Type 0 where
  pub device_header : Bytes
  pub previous_header : Bytes
  pub remote_ip : Bytes

pub record RequestDeviceIdentity : Type 0 where
  pub token_id : Bytes
  pub device_id : Bytes
  pub previous_device_id : Bytes
  pub legacy_device_id : Bytes

-- `tokenID + ":" + deviceID`
abbrev pub key_of : Bytes → Bytes → Bytes
key_of token_id device_id = token_id ++ codes ":" ++ device_id

module _ (go : Platform) where
  abbrev pub legacy_id : Bytes → Bytes → Bytes
  legacy_id token_id remote_ip =
      codes "legacy_" ++ hex_encode (take 8 (go.sha256_sum (token_id ++ codes "\n" ++ remote_ip)))

  unfoldable pub session_identity_details : Token → DeviceRequest → RequestDeviceIdentity
  session_identity_details token r =
      let token_id = stable_token_id go token in
      let device_id = sanitize_identifier r.device_header 96 in
      let previous = sanitize_identifier r.previous_header 96 in
      let legacy = legacy_id token_id r.remote_ip in
      if device_id == []
      then record {
        token_id = token_id;
        device_id = legacy;
        previous_device_id = [];
        legacy_device_id = legacy;
      }
      else record {
        token_id = token_id;
        device_id = device_id;
        previous_device_id =
            (if not (has_prefix device_id (codes "dev2_"))
                || not (has_prefix previous (codes "dev_"))
                || previous == device_id
              then []
              else previous);
        legacy_device_id = legacy;
      }

-- The loop over the three identifiers.
unfoldable pub candidates_from : List Bytes → List Bytes → List Bytes
candidates_from result [] = result
candidates_from result (value ∷ values) =
    candidates_from (if value == [] || contains result value then result else result ++ value ∷ [])
      values

unfoldable pub candidate_device_ids : RequestDeviceIdentity → List Bytes
candidate_device_ids i =
    candidates_from [] (i.device_id ∷ i.previous_device_id ∷ i.legacy_device_id ∷ [])

present : Option Bytes → Bool
present none = false
present (some _) = true

unfoldable pub any_blocked : Map Bytes Bytes → Bytes → List Bytes → Bool
unfolding present
any_blocked blocked token_id [] = false
any_blocked blocked token_id (id ∷ ids) =
    let later = any_blocked blocked token_id ids in
    if present (lookup (key_of token_id id) blocked) then true else later

unfoldable pub device_blocked : Platform → ControlPlane → Token → DeviceRequest → Bool
device_blocked go c token r =
    let identity = session_identity_details go token r in
    if not (enabled c)
    then false
    else any_blocked c.state.blocked_devices identity.token_id (candidate_device_ids identity)

-- `none` is the error.
unfoldable pub device_key : Bytes → Bytes → Option Bytes
device_key token_id device_id =
    let clean_token = sanitize_identifier token_id 96 in
    let clean_device = sanitize_identifier device_id 96 in
    if clean_token == [] || clean_device == [] then none else some (key_of clean_token clean_device)

-- The sessions of one token, and of all tokens, that belong to a device.
unfoldable pub closers_in : Bytes → Map ℕ Bytes → List ℕ
closers_in key [] = []
closers_in key ((id, owner) ∷ sessions) =
    let rest = closers_in key sessions in if owner == key then id ∷ rest else rest

unfoldable pub device_closers : Bytes → Map Bytes (Map ℕ Bytes) → List ℕ
device_closers key [] = []
device_closers key ((_, sessions) ∷ active) = closers_in key sessions ++ device_closers key active

pub data DeviceError : Type 0 where
  invalid_identity not_exist not_persisted : DeviceError

-- The sessions that are closed, or the error.
pub data DeviceResult : Type 0 where
  device_done : List ℕ → DeviceResult
  device_error : DeviceError → DeviceResult

unfoldable pub disconnect_device : Bytes → Bytes → ControlPlane → DeviceResult
disconnect_device token_id device_id c = elim (device_key token_id device_id) [
  | none ↦ device_error invalid_identity
  | some key ↦ elim (lookup key c.state.clients) [
    | none ↦ device_error not_exist
    | some _ ↦ device_done (device_closers key c.active)
  ]
]

-- `now` is the time as text.
abbrev pub changed : Bool → Bytes → Bytes → Map Bytes Bytes → Map Bytes Bytes
changed true now key blocks = insert key now blocks
changed false now key blocks = delete key blocks

restored : Option Bytes → Bytes → Map Bytes Bytes → Map Bytes Bytes
restored (some previous) key blocks = insert key previous blocks
restored none key blocks = delete key blocks

finish_block : Bool → Bytes → Option Bytes → Bool × ControlPlane → DeviceResult × ControlPlane
unfolding restored
finish_block blocked key previous (true, c) =
    (device_done (if blocked then device_closers key c.active else []), c)
finish_block blocked key previous (false, c) = (
  device_error not_persisted,
  record c {
    state = record c.state { blocked_devices = restored previous key c.state.blocked_devices };
  },
)

unfoldable pub set_device_blocked :
    StateFiles → Bytes → Bytes → Bytes → Bool → ControlPlane → DeviceResult × ControlPlane
unfolding finish_block
set_device_blocked files now token_id device_id blocked c = elim (device_key token_id device_id) [
  | none ↦ (device_error invalid_identity, c)
  | some key ↦ elim (lookup key c.state.clients) [
    | none ↦ (device_error not_exist, c)
    | some _ ↦ finish_block blocked key (lookup key c.state.blocked_devices) (
        persist_critical files (record c {
          state = record c.state {
            blocked_devices = changed blocked now key c.state.blocked_devices;
          };
        }))
  ]
]
