-- ===== src/Tests/Sample.antt =====
-- Inputs that the tests share: a stand-in for Go's library, and a control plane with one token,
-- one blocked device and one session.
use tg_proxy_relay.Prelude.{
  ℕ, zero, suc, refl, sym, ap, inl, inr, Bool-cases, true, false, [], ◌∷◌, ◌++◌, ◌==◌, bytes_eq,
  Bytes, take, none,
}
use mathlib.Core.Option.{some-injective}
use tg_proxy_relay.Prelude.Maps.{lookup}
use tg_proxy_relay.Prelude.Text.{codes}
use tg_proxy_relay.Platform.{Platform}
use tg_proxy_relay.Config.Tokens.{Token}
use tg_proxy_relay.Control.State.{StateFiles, ControlPlane, TrackedClient}
use tg_proxy_relay.Control.Tokens.{CreateEnv}
use tg_proxy_relay.Control.Devices.{DeviceRequest, RequestDeviceIdentity}
use tg_proxy_relay.Control.Devices.Orphans.{IsOwned}

abbrev pub zeros : ℕ → Bytes
zeros zero = []
zeros (suc n) = 0 ∷ zeros n

abbrev pub sample_go : Platform
sample_go = record {
  to_lower = λ s. s;
  equal_fold = λ a b. (a == b);
  sha256_sum = λ s. take 32 (s ++ zeros 32);
  is_raw_url_base64 = λ s. true;
  raw_url_base64 = λ s. s;
}

abbrev pub sample_token : Token
sample_token = record {
  id = codes "tok_1";
  name = codes "phone";
  hash = codes "sha256:0102030405060708090a0b0c0d0e0f100102030405060708090a0b0c0d0e0f10";
  created_at = codes "2026-01-01T00:00:00Z";
}

abbrev pub owner_token : Token
owner_token = record {
  id = codes "owner";
  name = codes "owner";
  hash = codes "sha256:1112131415161718191a1b1c1d1e1f101112131415161718191a1b1c1d1e1f10";
  created_at = [];
}

abbrev pub device_key_text : Bytes
device_key_text = codes "tok_1:dev_1"

abbrev pub sample_client : TrackedClient
sample_client = record {
  key = device_key_text;
  token_id = codes "tok_1";
  device_id = codes "dev_1";
  identity_version = [];
  manufacturer = codes "Acme";
  brand = [];
  canonical_brand = [];
  model = codes "One";
  marketing_name = [];
  device = [];
  product = [];
  app_version = [];
  app_code = [];
  android = [];
  country = [];
  city = [];
  remote_ip = codes "192.0.2.1";
  first_seen = codes "2026-01-01T00:00:00Z";
  last_seen = codes "2026-01-02T00:00:00Z";
}

abbrev pub sample_plane : ControlPlane
sample_plane = record {
  base_tokens = sample_token ∷ [];
  admin_tokens = owner_token ∷ [];
  state_path = codes "/state";
  state = record {
    version = 3;
    instance_id = codes "relay";
    added_tokens = [];
    revoked_hashes = [];
    deleted_token_ids = [];
    clients = (device_key_text, sample_client) ∷ [];
    blocked_devices = (device_key_text, codes "2026-01-03T00:00:00Z") ∷ [];
  };
  active = (codes "tok_1", (1, device_key_text) ∷ []) ∷ [];
  next_session_id = 1;
  client_dirty = false;
  client_flush = false;
  shutting_down = false;
  disk = none;
}

abbrev pub sample_files : StateFiles
sample_files = record {
  windows = false;
  marshaled = true;
  directory_made = true;
  temporary_made = true;
  mode_set = true;
  written = true;
  synced = true;
  closed = true;
  removed = true;
  renamed = true;
}

-- A rename that fails on Windows.
abbrev pub broken_files : StateFiles
broken_files = record sample_files { windows = true; renamed = false }

abbrev pub sample_env : CreateEnv
sample_env = record {
  secret_bytes = none;
  id_bytes = none;
  now = codes "2026-01-04T00:00:00Z";
  persists = sample_files;
}

abbrev pub sample_request : DeviceRequest
sample_request = record {
  device_header = codes "dev_1";
  previous_header = [];
  remote_ip = codes "192.0.2.1";
}

-- A phone that comes under a new identifier.
abbrev pub moved_identity : RequestDeviceIdentity
moved_identity = record {
  token_id = codes "tok_1";
  device_id = codes "dev2_1";
  previous_device_id = codes "dev_1";
  legacy_device_id = codes "legacy_1";
}

pub sample_IsOwned : IsOwned sample_plane.state.clients sample_plane.state.blocked_devices
unfolding lookup
sample_IsOwned j v = elim (Bool-cases (device_key_text == j)) [
  | inl e ↦ rw e (λ h. (ap (λ z. z == []) (sym (some-injective _ _ h)), sample_client, refl))
  | inr e ↦ rw e (λ h. absurd cc)
]
