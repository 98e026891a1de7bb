-- ===== src/Control/Tokens/Reuse.antt =====
-- Creating again with the idempotency key of a deleted token (internal/relay/control_plane.go:
-- `deleteToken`, `createToken`).
use tg_proxy_relay.Prelude.{
  ◌≡◌, refl, ◌∙◌, ap, true, false, List, [], ℕ, ◌==◌, bytes_eq, contains, Bytes, subst,
}
use tg_proxy_relay.Prelude.Text.{has_prefix, trim_space, codes}
use tg_proxy_relay.Platform.{Platform}
use tg_proxy_relay.Config.Tokens.{Token}
use tg_proxy_relay.Control.Sanitize.{sanitize_identifier}
use tg_proxy_relay.Control.State.{ControlPlane, StateFiles}
use tg_proxy_relay.Control.Tokens.{
  create_error, CreateEnv, CreateError, create_token, idempotent_id, deleted, delete_token,
}
use tg_proxy_relay.Control.Tokens.Create.{create_token-deleted_key}
use tg_proxy_relay.Control.Tokens.Delete.{IsDeleted, Outcome, delete_token-Outcome}

module _ (go : Platform) where
  starts : (key : Bytes) → has_prefix (idempotent_id go key) (codes "tok_") ≡ true
  unfolding has_prefix
  starts key = refl

  -- When the deletion of the identifier of an idempotency key (not empty when cleaned) succeeds, a
  -- creation with that key fails afterwards, whatever else it is given, and changes nothing.
  pub delete_token-create_token :
      (files : StateFiles) (id : Bytes) (c c' : ControlPlane) (closers : List ℕ) (env : CreateEnv)
      (name secret key : Bytes)
      → delete_token go files id c ≡ (deleted closers, c')
      → trim_space id ≡ idempotent_id go (sanitize_identifier key 96)
      → (sanitize_identifier key 96 == []) ≡ false
      → (e : CreateError) × (create_token go env name secret key c' ≡ (create_error e, c'))
  delete_token-create_token files id c c' closers env name secret key e i k =
      create_token-deleted_key go env name secret key c' k (
        subst (λ j. contains c'.state.deleted_token_ids j ≡ true) i
          (out.1.is_remembered
            (ap (λ j. has_prefix j (codes "tok_")) i ∙ starts (sanitize_identifier key 96))))
    where
      out : (t : Token) × IsDeleted go (trim_space id) c t closers c'
      out = subst (Outcome go files (trim_space id) c) e (delete_token-Outcome go files id c)
