-- ===== src/Control/Tokens/Create.antt =====
-- Creating a token (internal/relay/control_plane.go: `createToken`).
use tg_proxy_relay.Prelude.{
  ◌≡◌, ◌<◌, inl, inr, refl, Bool, true, false, not, ◌&&◌, [], ◌∷◌, ◌++◌, ◌==◌, bytes_eq, contains,
  leb, length, Bytes, Bool-cases, Option-cases, arith, Option, none, some, if◌then◌else◌,
}
use tg_proxy_relay.Prelude.Text.{trim_space}
use tg_proxy_relay.Platform.{Platform}
use tg_proxy_relay.Config.Tokens.{Token, token_hash}
use tg_proxy_relay.Control.Sanitize.{
  sanitize_display, sanitize_identifier, constant_hash_equal, valid_client_secret,
}
use tg_proxy_relay.Control.State.{
  ControlPlane, ControlState, StateFiles, control_state_version, persist, persist_critical,
  all_tokens, enabled,
}
use tg_proxy_relay.Control.Disk.{IsLeft, replace_file-cases}
use tg_proxy_relay.Control.Tokens.{
  Created, created, create_error, CreateEnv, CreateError, create_token, create_with, create_locked,
  add_token, undo_append, replay, find_id, idempotent_id, api_disabled, invalid_key, invalid_secret,
  requires_secret, random_failed, deleted_key, secret_for, token_id_for, new_token,
}

-- All that is kept but the file's format version.
pub record IsUnchanged (files : StateFiles) (c c' : ControlPlane) : Type 0 where
  pub same_state : c'.state ≡ record c.state { version = c'.state.version }
  pub same_base : c'.base_tokens ≡ c.base_tokens
  pub same_active : c'.active ≡ c.active
  pub file_left : IsLeft files c.disk c'.disk

IsUnchanged-refl : (files : StateFiles) (c : ControlPlane) → IsUnchanged files c c
IsUnchanged-refl files c = record {
  same_state = refl;
  same_base = refl;
  same_active = refl;
  file_left = inl refl;
}

-- The new token is the last of the added ones, and the file has it if there is a file.
pub record IsAdded (token : Token) (c c' : ControlPlane) : Type 0 where
  pub same_state : c'.state ≡ record c.state {
    version = c'.state.version;
    added_tokens = c.state.added_tokens ++ token ∷ [];
  }
  pub same_base : c'.base_tokens ≡ c.base_tokens
  pub same_active : c'.active ≡ c.active
  pub is_written : (c.state_path == []) ≡ false → c'.disk ≡ some c'.state

if-both {ℓ κ} :
    {A : Type ℓ} (P : A → Type κ) (t : Bool) (x y : A) → P x → P y → P (if t then x else y)
if-both P true x y p q = p
if-both P false x y p q = q

module _ (go : Platform) where
  abbrev pub AddOutcome : StateFiles → ControlPlane → Created × ControlPlane → Type 0
  AddOutcome files c (created token raw true, c') = c' ≡ c
  AddOutcome files c (created token raw false, c') =
      (token.hash ≡ token_hash go raw) × (length (all_tokens go c) < 1024) × IsAdded token c c'
  AddOutcome files c (create_error e, c') = IsUnchanged files c c'

  -- The state that is written.
  abbrev written_state : Token → ControlPlane → ControlState
  written_state token c = record c.state {
    added_tokens = c.state.added_tokens ++ token ∷ [];
    version = control_state_version;
  }

  add_token-AddOutcome :
      (files : StateFiles) (token : Token) (raw : Bytes) (c : ControlPlane)
      → token.hash ≡ token_hash go raw
      → AddOutcome files c (add_token go files token raw c)
  unfolding add_token persist_critical persist undo_append
  add_token-AddOutcome files token raw c h =
      elim (Bool-cases (leb 1024 (length (all_tokens go c)))) [
        | inl l ↦ rw (add_token, l) (IsUnchanged-refl files c)
        | inr l ↦ elim (Bool-cases (c.state_path == [])) [
          | inl e ↦
              rw (add_token, persist_critical, persist, l, e)
                (
                  h,
                  ground arith,
                  record {
                    same_state = refl;
                    same_base = refl;
                    same_active = refl;
                    is_written = λ f. cc (e, f);
                  },
                )
          | inr e ↦ elim (replace_file-cases files (written_state token c) c.disk) [
            | inl w ↦
                rw (add_token, persist_critical, persist, l, e, w)
                  (
                    h,
                    ground arith,
                    record {
                      same_state = refl;
                      same_base = refl;
                      same_active = refl;
                      is_written = λ f. refl;
                    },
                  )
            | inr (now, w, left) ↦
                rw (add_token, persist_critical, persist, l, e, w)
                  (record {
                    same_state = refl;
                    same_base = refl;
                    same_active = refl;
                    file_left = left;
                  })
          ]
        ]
      ]

  replay-AddOutcome :
      (files : StateFiles) (c : ControlPlane) (token : Token) (raw : Bytes) (existing : Token)
      → AddOutcome files c (replay go token raw existing, c)
  unfolding replay
  replay-AddOutcome files c token raw existing =
      elim (Bool-cases (constant_hash_equal go existing.hash token.hash)) [
        | inr e ↦ rw (replay, e) (IsUnchanged-refl files c)
        | inl e ↦ elim (Bool-cases (sanitize_display existing.name 128 == token.name)) [
          | inr n ↦ rw (replay, e, n) (IsUnchanged-refl files c)
          | inl n ↦ rw (replay, e, n) refl
        ]
      ]

  create_locked-AddOutcome :
      (files : StateFiles) (key : Bytes) (token : Token) (raw : Bytes) (c : ControlPlane)
      → token.hash ≡ token_hash go raw
      → AddOutcome files c (create_locked go files key token raw c)
  unfolding create_locked
  create_locked-AddOutcome files key token raw c h = elim (Bool-cases (key == [])) [
    | inl k ↦ rw (create_locked, k) (add_token-AddOutcome files token raw c h)
    | inr k ↦ elim (Bool-cases (contains c.state.deleted_token_ids token.id)) [
      | inl d ↦ rw (create_locked, k, d) (IsUnchanged-refl files c)
      | inr d ↦ elim (Option-cases (find_id go token.id (all_tokens go c))) [
        | inl n ↦ rw (create_locked, k, d, n) (add_token-AddOutcome files token raw c h)
        | inr (existing, f) ↦
            rw (create_locked, k, d, f) (replay-AddOutcome files c token raw existing)
      ]
    ]
  ]

  create_with-AddOutcome :
      (env : CreateEnv) (key name : Bytes) (raw id : Option Bytes) (c : ControlPlane)
      → AddOutcome env.persists c (create_with go env key name raw id c)
  unfolding create_with new_token
  create_with-AddOutcome env key name (some raw) (some id) c =
      create_locked-AddOutcome env.persists key _ raw c refl
  create_with-AddOutcome env key name none id c = IsUnchanged-refl env.persists c
  create_with-AddOutcome env key name (some raw) none c = IsUnchanged-refl env.persists c

  -- The guards in front of the creation.
  create_token-cases {κ} :
      (P : Created × ControlPlane → Type κ) (env : CreateEnv) (name secret key : Bytes)
      (c : ControlPlane)
      → ((e : CreateError) → P (create_error e, c))
      → ((n : Bytes)
          → P (
              create_with go env
                (sanitize_identifier key 96)
                n
                (secret_for go (trim_space secret) env.secret_bytes)
                (token_id_for go (sanitize_identifier key 96) env.id_bytes)
                c))
      → P (create_token go env name secret key c)
  unfolding create_token
  create_token-cases P env name secret key c f g =
      if-both P (not (enabled c)) _ _ (f api_disabled) (
        if-both P (not (key == []) && clean == []) _ _ (f invalid_key) (
          if-both P (not (raw == []) && not (valid_client_secret go raw)) _ _ (f invalid_secret)
            (if-both P (not (clean == []) && raw == []) _ _ (f requires_secret) (g _))))
    where
      clean : Bytes
      clean = sanitize_identifier key 96

      raw : Bytes
      raw = trim_space secret

  -- Whatever the request, the random bytes and the file system: a creation that makes a new token
  -- has fewer than 1024 tokens in force before it, puts the token with the hash of the secret it
  -- returns behind the added ones, changes nothing else of the state but the format version, and
  -- has written that state if there is a file; a repeated request changes nothing; a creation that
  -- fails, for whatever reason, leaves the state (but the format version) and the sessions as they
  -- were, and the file too, unless the rename has failed on Windows: then there may be no file.
  pub create_token-AddOutcome :
      (env : CreateEnv) (name secret key : Bytes) (c : ControlPlane)
      → AddOutcome env.persists c (create_token go env name secret key c)
  create_token-AddOutcome env name secret key c =
      create_token-cases (AddOutcome env.persists c) env name secret key c
        (λ e. IsUnchanged-refl env.persists c) (λ n. create_with-AddOutcome env _ n _ _ c)

  create_with-deleted_key :
      (env : CreateEnv) (key name : Bytes) (raw : Option Bytes) (id : Bytes) (c : ControlPlane)
      → (key == []) ≡ false
      → contains c.state.deleted_token_ids id ≡ true
      → (e : CreateError) × (create_with go env key name raw (some id) c ≡ (create_error e, c))
  unfolding create_with create_locked new_token
  create_with-deleted_key env key name none id c k d = (random_failed, refl)
  create_with-deleted_key env key name (some raw) id c k d =
      (deleted_key, rw (create_with, create_locked, k, d) refl)

  -- When the identifier of an idempotency key (not empty when cleaned) is among the deleted ones,
  -- a creation with that key fails, whatever else it is given, and changes nothing.
  pub create_token-deleted_key :
      (env : CreateEnv) (name secret key : Bytes) (c : ControlPlane)
      → (sanitize_identifier key 96 == []) ≡ false
      → contains c.state.deleted_token_ids (idempotent_id go (sanitize_identifier key 96)) ≡ true
      → (e : CreateError) × (create_token go env name secret key c ≡ (create_error e, c))
  unfolding token_id_for
  create_token-deleted_key env name secret key c k d =
      create_token-cases (λ r. (e : CreateError) × (r ≡ (create_error e, c))) env name secret key c
        (λ e. (e, refl)) (λ n. rw (token_id_for, k) (create_with-deleted_key env _ n _ _ c k d))
