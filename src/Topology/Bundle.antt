-- ===== src/Topology/Bundle.antt =====
-- Signed topology bundles (internal/topology/bundle.go). A time is the number of nanoseconds since an
-- instant before all times that `time.Parse` gives; a duration is a number of nanoseconds. A copy of
-- a map is the map itself.
pub mod Sound
pub mod Signed
pub mod Later
use tg_proxy_relay.Prelude.{
  ℕ, ◌+◌, ◌-◌, ◌*◌, ◌^◌, Bool, true, false, not, ◌||◌, ◌&&◌, List, [], ltb, ◌==◌, nat_eq,
  if◌then◌else◌, Bytes, length, Option, none, some,
}
use tg_proxy_relay.Prelude.Maps.{Map}
use tg_proxy_relay.Platform.{Platform}
use tg_proxy_relay.Config.Net.{Net}
use tg_proxy_relay.Config.Endpoints.{TelegramEndpoint}
use tg_proxy_relay.Config.Options.{validate_telegram_dc_options}

abbrev pub second : ℕ
second = 1000000000

abbrev pub max_bundle_bytes : ℕ
max_bundle_bytes = 2 ^ 20

abbrev pub schema_version : ℕ
schema_version = 1

pub record Payload : Type 0 where
  pub schema : ℕ
  pub generation : ℕ
  pub not_before : Bytes
  pub expires_at : Bytes
  pub production : Map ℕ (List TelegramEndpoint)
  pub test : Map ℕ (List TelegramEndpoint)

-- The Go type has the fields of `Payload` itself.
pub record Bundle : Type 0 where
  pub payload : Payload
  pub signature : Bytes

pub record Snapshot : Type 0 where
  pub generation : ℕ
  pub not_before : ℕ
  pub expires_at : ℕ
  pub production : Map ℕ (List TelegramEndpoint)
  pub test : Map ℕ (List TelegramEndpoint)
  pub raw : Bytes

-- What the package takes from Go's library.
pub record Library : Type 0 where
  pub net : Net
  pub go : Platform
  -- time.Parse with RFC3339
  pub parse_time : Bytes → Option ℕ
  -- the first `Decode`, with what it leaves of the input
  pub decode_bundle : Bytes → Option (Bundle × Bytes)
  -- whether the second `Decode` is at the end of the input
  pub at_end : Bytes → Bool
  -- json.Marshal and json.MarshalIndent
  pub marshal : Payload → Option Bytes
  pub marshal_indent : Bundle → Option Bytes
  -- base64.RawStdEncoding and base64.StdEncoding
  pub raw_std_decode : Bytes → Option Bytes
  pub std_decode : Bytes → Option Bytes
  pub raw_std_encode : Bytes → Bytes
  -- ed25519.Sign, ed25519.Verify and the public key of a private key
  pub ed25519_sign : Bytes → Bytes → Bytes
  pub ed25519_verify : Bytes → Bytes → Bytes → Bool
  pub public_key : Bytes → Bytes

pub data BundleError : Type 0 where
  bad_size bad_json more_than_one bad_schema bad_not_before bad_expires_at : BundleError
  not_active_yet expired too_long no_production bad_routes bad_marshal bad_signature : BundleError
  bad_private_key : BundleError

pub data Verified : Type 0 where
  rejected : BundleError → Verified
  accepted : Snapshot → Verified

pub data Signature : Type 0 where
  refused : BundleError → Signature
  signed : Bytes → Signature

-- The checks of the times, when both are read.
unfoldable pub validate_times : ℕ → ℕ → ℕ → Bool → Option BundleError
validate_times not_before expires_at now allow_expired =
    if not (ltb not_before expires_at)
    then some bad_expires_at
    else if ltb (now + 5 * 60 * second) not_before
    then some not_active_yet
    else if not allow_expired && not (ltb now expires_at)
    then some expired
    else if ltb (90 * 24 * 3600 * second) (expires_at - not_before)
    then some too_long
    else none

module _ (lib : Library) where
  open lib use {parse_time}

  unfoldable pub validate_routes_of : Payload → Option BundleError
  validate_routes_of payload =
      if length payload.production == 0
      then some no_production
      else elim (validate_telegram_dc_options lib.net lib.go payload.production) [
        | some e ↦ some bad_routes
        | none ↦ elim (validate_telegram_dc_options lib.net lib.go payload.test) [
          | some e ↦ some bad_routes
          | none ↦ none
        ]
      ]

  -- `none` is Go's nil error.
  unfoldable pub validate_payload : Payload → ℕ → Bool → Option BundleError
  validate_payload payload now allow_expired =
      if not (payload.schema == schema_version) || payload.generation == 0
      then some bad_schema
      else elim (parse_time payload.not_before) [
        | none ↦ some bad_not_before
        | some not_before ↦ elim (parse_time payload.expires_at) [
          | none ↦ some bad_expires_at
          | some expires_at ↦ elim (validate_times not_before expires_at now allow_expired) [
            | some e ↦ some e
            | none ↦ validate_routes_of payload
          ]
        ]
      ]

  unfoldable pub decode_base64 : Bytes → Option Bytes
  decode_base64 value = elim (lib.raw_std_decode value) [
    | some decoded ↦ some decoded
    | none ↦ lib.std_decode value
  ]

  -- The check of the signature.
  unfoldable pub signature_holds : Bytes → Bytes → Bytes → Bool
  signature_holds public_key canonical text = elim (decode_base64 text) [
    | none ↦ false
    | some signature ↦
        length signature == 64
        && length public_key == 32
        && lib.ed25519_verify public_key canonical signature
  ]

  -- `time.Parse` without its error, for a text that `validate_payload` has parsed.
  unfoldable pub time_or_zero : Option ℕ → ℕ
  time_or_zero none = 0
  time_or_zero (some t) = t

  -- `Verify`, from the bundle that is read.
  unfoldable pub verify_bundle : Bytes → Bytes → Bundle → ℕ → Bool → Verified
  unfolding time_or_zero
  verify_bundle bytes public_key bundle now allow_expired =
      let payload = bundle.payload in
      elim (validate_payload payload now allow_expired) [
        | some e ↦ rejected e
        | none ↦ elim (lib.marshal payload) [
          | none ↦ rejected bad_marshal
          | some canonical ↦
              if not (signature_holds public_key canonical bundle.signature)
              then rejected bad_signature
              else accepted (record {
                generation = payload.generation;
                not_before = time_or_zero (parse_time payload.not_before);
                expires_at = time_or_zero (parse_time payload.expires_at);
                production = payload.production;
                test = payload.test;
                raw = bytes;
              })
        ]
      ]

  unfoldable pub verify : Bytes → Bytes → ℕ → Bool → Verified
  verify bytes public_key now allow_expired =
      if length bytes == 0 || ltb max_bundle_bytes (length bytes)
      then rejected bad_size
      else elim (lib.decode_bundle bytes) [
        | none ↦ rejected bad_json
        | some (bundle, rest) ↦
            if not (lib.at_end rest)
            then rejected more_than_one
            else verify_bundle bytes public_key bundle now allow_expired
      ]

  unfoldable pub sign : Payload → Bytes → ℕ → Signature
  sign payload private_key now = elim (validate_payload payload now false) [
    | some e ↦ refused e
    | none ↦
        if not (length private_key == 64)
        then refused bad_private_key
        else elim (lib.marshal payload) [
          | none ↦ refused bad_marshal
          | some canonical ↦
              elim (lib.marshal_indent (record {
                payload = payload;
                signature = lib.raw_std_encode (lib.ed25519_sign private_key canonical);
              })) [ none ↦ refused bad_marshal | some bytes ↦ signed bytes ]
        ]
  ]
