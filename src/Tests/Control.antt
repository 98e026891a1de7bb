-- ===== src/Tests/Control.antt =====
-- The control plane on a sample (internal/relay/control_plane.go).
use tg_proxy_relay.Prelude.{
  ◌≡◌, ◌≢◌, refl, true, false, [], ◌∷◌, nat_eq, bytes_eq, contains, Bytes, All,
}
use tg_proxy_relay.Prelude.Maps.{lookup, insert, delete}
use tg_proxy_relay.Prelude.Text.{codes, has_prefix, trim_prefix, trim_space}
use tg_proxy_relay.Config.Tokens.{
  normalize_hash, stable_token_id, valid_identifier, hex_decode, hex_encode, all_bytes, is_id_byte,
}
use tg_proxy_relay.Control.Sanitize.{sanitize_identifier, is_identifier_byte}
use tg_proxy_relay.Control.State.{
  ControlPlane, enabled, revoked, live_tokens, all_tokens, persist, replace_file, persist_critical,
}
use tg_proxy_relay.Control.Tokens.{
  deleted, create_error, CreateError, find_id, without_hash, has_hash, purge, purge_client, keys_of,
  sessions_of, delete_token, create_token, idempotent_id,
}
use tg_proxy_relay.Control.Tokens.Live.{IsLive, Distinct, all_tokens-Distinct}
use tg_proxy_relay.Control.Tokens.Delete.{Outcome, delete_token-Outcome}
use tg_proxy_relay.Control.Tokens.Delete.Live.{delete_token-all_tokens}
use tg_proxy_relay.Control.Tokens.Create.{AddOutcome, create_token-AddOutcome}
use tg_proxy_relay.Control.Tokens.Reuse.{delete_token-create_token}
use tg_proxy_relay.Control.Devices.{
  device_key, device_closers, closers_in, session_identity_details, device_blocked,
  set_device_blocked,
}
use tg_proxy_relay.Control.Devices.Blocks.{BlockOutcome, set_device_blocked-BlockOutcome}
use tg_proxy_relay.Control.Devices.Refused.{set_device_blocked-device_blocked}
use tg_proxy_relay.Control.Devices.Orphans.{
  IsOwned, set_device_blocked-IsOwned, migrate_client_identity-IsOwned,
}
use tg_proxy_relay.Control.Devices.Merge.{migrate_client_identity}
use tg_proxy_relay.Tests.Sample.{
  sample_files, broken_files, sample_go, sample_token, sample_plane, sample_env, sample_request,
  moved_identity, sample_IsOwned,
}

delete_token-Outcome_example :
    Outcome sample_go sample_files
      (trim_space (codes "tok_1"))
      sample_plane
      (delete_token sample_go sample_files (codes "tok_1") sample_plane)
delete_token-Outcome_example =
    delete_token-Outcome sample_go sample_files (codes "tok_1") sample_plane

deleted_closes :
    (delete_token sample_go sample_files (codes " tok_1 ") sample_plane).0 ≡ deleted (1 ∷ [])
unfolding delete_token find_id all_tokens live_tokens revoked normalize_hash stable_token_id
    valid_identifier trim_space has_prefix trim_prefix contains has_hash without_hash keys_of purge
    purge_client lookup delete insert persist_critical persist replace_file sessions_of hex_decode
deleted_closes = refl

abbrev after_deletion : ControlPlane
after_deletion = (delete_token sample_go sample_files (codes "tok_1") sample_plane).1

delete_token-all_tokens_example :
    All (λ token. token.hash ≢ sample_token.hash) (all_tokens sample_go after_deletion)
unfolding delete_token find_id all_tokens live_tokens revoked normalize_hash stable_token_id
    valid_identifier trim_space has_prefix trim_prefix contains has_hash without_hash keys_of purge
    purge_client lookup delete insert persist_critical persist replace_file sessions_of hex_decode
delete_token-all_tokens_example =
    delete_token-all_tokens sample_go sample_files (codes "tok_1") sample_plane after_deletion
      sample_token (1 ∷ []) refl refl refl

-- The identifier that the idempotency key `k` gives, and a token of it.
abbrev key_id : Bytes
key_id = idempotent_id sample_go (codes "k")

abbrev key_plane : ControlPlane
key_plane = record sample_plane { base_tokens = record sample_token { id = key_id } ∷ [] }

abbrev key_deleted : ControlPlane
key_deleted = (delete_token sample_go sample_files key_id key_plane).1

delete_token-create_token_example :
    (e : CreateError) × (create_token sample_go sample_env [] [] (codes "k") key_deleted
      ≡ (create_error e, key_deleted))
unfolding delete_token find_id all_tokens live_tokens revoked normalize_hash stable_token_id
    valid_identifier trim_space has_prefix trim_prefix contains has_hash without_hash keys_of purge
    purge_client lookup delete insert persist_critical persist replace_file sessions_of hex_decode
    hex_encode sanitize_identifier all_bytes is_identifier_byte
delete_token-create_token_example =
    delete_token-create_token sample_go sample_files key_id key_plane key_deleted [] sample_env []
      [] (codes "k") refl refl refl

create_token-AddOutcome_example :
    AddOutcome sample_go sample_files sample_plane
      (create_token sample_go sample_env (codes "tablet") [] (codes "k") sample_plane)
create_token-AddOutcome_example =
    create_token-AddOutcome sample_go sample_env (codes "tablet") [] (codes "k") sample_plane

all_tokens-Distinct_example :
    All
      (IsLive sample_go sample_plane.state (sample_token ∷ []))
      (all_tokens sample_go sample_plane)
    × Distinct (all_tokens sample_go sample_plane)
all_tokens-Distinct_example = all_tokens-Distinct sample_go sample_plane

set_device_blocked-BlockOutcome_example :
    BlockOutcome broken_files (codes "2026") (codes "tok_1") (codes "dev_1") false sample_plane (
      set_device_blocked broken_files
        (codes "2026")
        (codes "tok_1")
        (codes "dev_1")
        false
        sample_plane)
set_device_blocked-BlockOutcome_example =
    set_device_blocked-BlockOutcome broken_files (codes "2026") (codes "tok_1") (codes "dev_1")
      false sample_plane

set_device_blocked-device_blocked_example :
    device_blocked sample_go
      (set_device_blocked sample_files
        (codes "2026")
        (codes "tok_1")
        (codes "dev_1")
        true
        sample_plane).1
      sample_token
      sample_request
    ≡ true
unfolding set_device_blocked device_key sanitize_identifier trim_space all_bytes is_identifier_byte
    lookup insert persist_critical persist replace_file device_closers closers_in enabled
    session_identity_details stable_token_id valid_identifier is_id_byte
set_device_blocked-device_blocked_example =
    set_device_blocked-device_blocked sample_go sample_files (codes "2026") (codes "tok_1")
      (codes "dev_1") sample_plane
      (set_device_blocked sample_files (codes "2026") (codes "tok_1") (codes "dev_1") true
        sample_plane).1
      (1 ∷ []) sample_token sample_request refl refl refl refl

set_device_blocked-IsOwned_example :
    IsOwned
      (set_device_blocked sample_files
        (codes "2026")
        (codes "tok_1")
        (codes "dev_1")
        true
        sample_plane).1.state.clients
      (set_device_blocked sample_files
        (codes "2026")
        (codes "tok_1")
        (codes "dev_1")
        true
        sample_plane).1.state.blocked_devices
set_device_blocked-IsOwned_example =
    set_device_blocked-IsOwned sample_files (codes "2026") (codes "tok_1") (codes "dev_1") true
      sample_plane refl sample_IsOwned

migrate_client_identity-IsOwned_example :
    IsOwned
      (migrate_client_identity sample_go moved_identity
        (codes "192.0.2.1")
        []
        []
        sample_plane).state.clients
      (migrate_client_identity sample_go moved_identity
        (codes "192.0.2.1")
        []
        []
        sample_plane).state.blocked_devices
migrate_client_identity-IsOwned_example =
    migrate_client_identity-IsOwned sample_go moved_identity (codes "192.0.2.1") [] [] sample_plane
      sample_IsOwned
