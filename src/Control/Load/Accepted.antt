-- ===== src/Control/Load/Accepted.antt =====
-- Which states are loaded (internal/relay/control_plane.go: `load`).
use tg_proxy_relay.Prelude.{
  ℕ, ◌*◌, ◌≤◌, ◌≡◌, ◌≢◌, ◌++◌, All-map, ◌↔◌, ◌⊎◌, inl, inr, refl, sym, ap, ◌∙◌, Bool, true, false,
  not, ◌&&◌, List, [], ◌∷◌, ltb, ◌==◌, nat_eq, bytes_eq, if◌then◌else◌, Bytes, length, none, some,
  Option, Bool-cases, Option-cases, arith, All,
}
use mathlib.Core.Option.{some-injective}
use tg_proxy_relay.Prelude.Checks.{check_iff}
use tg_proxy_relay.Prelude.Prefix.{prefix_split, prefix_of}
use tg_proxy_relay.Prelude.Maps.{Map, lookup}
use tg_proxy_relay.Prelude.Text.{codes, has_prefix, trim_prefix}
use tg_proxy_relay.Config.Tokens.{Token, normalize_hash, stable_token_id}
use tg_proxy_relay.Control.Sanitize.{sanitize_identifier, constant_hash_equal}
use tg_proxy_relay.Control.Devices.{key_of}
use tg_proxy_relay.Platform.{Platform}
use tg_proxy_relay.Config.Endpoints.{valid_instance_id}
use tg_proxy_relay.Control.State.{
  ControlState, TrackedClient, control_state_version, max_tracked_clients,
}
use tg_proxy_relay.Control.Load.{
  StateJson, state_of, content, Loaded, load_error, loaded, all_pass, valid_client,
  valid_deleted_id, valid_block, over_limit, valid_added_token, valid_revoked_hash, check_state,
  load, trailing_data,
}

all_pass_iff :
    {A : Type 0} (test : A → Bool) (xs : List A)
    → (all_pass test xs ≡ true) ↔ All (λ x. test x ≡ true) xs
all_pass_iff test [] = (λ h. tt, λ h. refl)
all_pass_iff test (x ∷ xs) =
    let (sound, complete) = all_pass_iff test xs in
    elim (Bool-cases (test x)) [
      | inl e ↦ rw e (λ h. (refl, sound h), λ h. complete h.1)
      | inr e ↦ rw e (λ h. absurd cc, λ h. absurd (cc (h.0)))
    ]

not_empty : (a : Bytes) → a ≢ [] → (a == []) ≡ false
not_empty a n = elim (Bool-cases (a == [])) [
  | inl e ↦ absurd (n ((bytes_eq.beq_iff a []).0 e))
  | inr e ↦ e
]

nulls_differ : {A : Type 0} {a : A} → some none ≡ some (some a) → ⊥
nulls_differ h = cc (some-injective _ _ h)

same_client : {A : Type 0} {a b : A} → some (some a) ≡ some (some b) → a ≡ b
same_client h = some-injective _ _ (some-injective _ _ h)

all_pass-All :
    {A : Type 0} (test : A → Bool) (P : A → Type 0) (xs : List A)
    → ((x : A) → (test x ≡ true) ↔ P x)
    → (not (all_pass test xs) ≡ false) ↔ All P xs
all_pass-All test P xs i = (
  λ h. All-map _ P (λ x. (i x).0) xs ((all_pass_iff test xs).0 (ground (arith, h))),
  λ h. ground (arith, (all_pass_iff test xs).1 (All-map P _ (λ x. (i x).1) xs h)),
)

module _ (go : Platform) (parses_time : Bytes → Bool) where
  -- A hash that is not empty in normal form, and that the comparison of hashes takes for that form.
  abbrev pub IsHash : Bytes → Type 0
  IsHash hash =
      (normalize_hash go hash ≢ []) × (constant_hash_equal go hash (normalize_hash go hash) ≡ true)

  -- A token that has its stable identifier.
  abbrev pub IsAddedToken : Token → Type 0
  IsAddedToken t =
      (t.id ≢ [])
      × (stable_token_id go t ≡ t.id)
      × (constant_hash_equal go t.hash (normalize_hash go t.hash) ≡ true)

  abbrev pub IsDeletedId : Bytes → Type 0
  IsDeletedId id = (sanitize_identifier id 96 ≢ []) × ((rest : Bytes) × (id ≡ codes "tok_" ++ rest))

  -- A client, and not null, under the key of its token and its device.
  abbrev pub IsClient : Bytes × Option TrackedClient → Type 0
  IsClient (key, none) = ⊥
  IsClient (key, some client) =
      (key ≡ client.key)
      × (sanitize_identifier client.device_id 96 ≢ [])
      × (sanitize_identifier client.token_id 96 ≢ [])
      × (key ≡ key_of client.token_id client.device_id)

  -- A block of a client, with a time.
  abbrev pub IsBlock : Map Bytes (Option TrackedClient) → Bytes × Bytes → Type 0
  IsBlock clients (key, blocked_at) =
      (client : TrackedClient) × (lookup key clients ≡ some (some client))
      × (key ≡ key_of client.token_id client.device_id)
      × (parses_time blocked_at ≡ true)

  beq_true : (a b : Bytes) → (a == b) ≡ true → a ≡ b
  beq_true a b = (bytes_eq.beq_iff a b).0

  beq_false : (a : Bytes) → (a == []) ≡ false → a ≢ []
  beq_false a h e = absurd (cc (h, (bytes_eq.beq_iff a []).1 e))

  valid_revoked_hash_iff : (hash : Bytes) → (valid_revoked_hash go hash ≡ true) ↔ IsHash hash
  unfolding valid_revoked_hash
  valid_revoked_hash_iff hash = (
    λ h. (beq_false (normalize_hash go hash) (ground (arith, h)), ground (arith, h)),
    λ (n, e). ground (arith, e, not_empty (normalize_hash go hash) n),
  )

  valid_added_token_iff : (t : Token) → (valid_added_token go t ≡ true) ↔ IsAddedToken t
  unfolding valid_added_token
  valid_added_token_iff t = (
    λ h. (
      beq_false t.id (ground (arith, h)),
      beq_true (stable_token_id go t) t.id (ground (arith, h)),
      ground (arith, h),
    ),
    λ (n, e, c).
        ground (arith, c, not_empty t.id n, (bytes_eq.beq_iff (stable_token_id go t) t.id).1 e),
  )

  valid_deleted_id_iff : (id : Bytes) → (valid_deleted_id id ≡ true) ↔ IsDeletedId id
  unfolding valid_deleted_id
  valid_deleted_id_iff id = (
    λ h. (
      beq_false (sanitize_identifier id 96) (ground (arith, h)),
      (trim_prefix id (codes "tok_"), prefix_split (codes "tok_") id (ground (arith, h))),
    ),
    λ (n, (rest, e)). ground (
      arith,
      not_empty (sanitize_identifier id 96) n,
      ap (λ s. has_prefix s (codes "tok_")) e ∙ prefix_of (codes "tok_") rest,
    ),
  )

  valid_client_iff : (c : Bytes × Option TrackedClient) → (valid_client c ≡ true) ↔ IsClient c
  unfolding valid_client
  valid_client_iff (key, none) = (λ h. absurd cc, λ h. absurd h)
  valid_client_iff (key, some c) = (
    λ h. (
      beq_true key c.key (ground (arith, h)),
      beq_false (sanitize_identifier c.device_id 96) (ground (arith, h)),
      beq_false (sanitize_identifier c.token_id 96) (ground (arith, h)),
      beq_true key (key_of c.token_id c.device_id) (ground (arith, h)),
    ),
    λ (k, d, t, e). ground (
      arith,
      (bytes_eq.beq_iff key c.key).1 k,
      not_empty (sanitize_identifier c.device_id 96) d,
      not_empty (sanitize_identifier c.token_id 96) t,
      (bytes_eq.beq_iff key (key_of c.token_id c.device_id)).1 e,
    ),
  )

  valid_block_iff :
      (clients : Map Bytes (Option TrackedClient)) (b : Bytes × Bytes)
      → (valid_block parses_time clients b ≡ true) ↔ IsBlock clients b
  unfolding valid_block
  valid_block_iff clients (key, at) = elim (Option-cases (lookup key clients)) [
    | inl n ↦ rw (valid_block, n) (λ h. absurd cc, λ (c, e, k, t). absurd (cc (e)))
    | inr (none, e) ↦ rw (valid_block, e) (λ h. absurd cc, λ (c, f, k, t). absurd (nulls_differ f))
    | inr (some c, e) ↦
        rw (valid_block, e)
          (
            λ h. (
              c,
              refl,
              beq_true key (key_of c.token_id c.device_id) (ground (arith, h)),
              ground (arith, h),
            ),
            λ (d, f, k, t). ground (
              arith,
              t,
              (bytes_eq.beq_iff key (key_of c.token_id c.device_id)).1
                  (k ∙ ap (λ x. key_of x.token_id x.device_id) (sym (same_client f))),
            ),
          )
  ]

  -- A state that may be loaded.
  pub record IsLoadable (s : StateJson) : Type 0 where
    pub has_version : (s.version ≡ 1) ⊎ (s.version ≡ 2) ⊎ (s.version ≡ control_state_version)
    pub has_instance : (s.instance_id ≡ []) ⊎ (valid_instance_id s.instance_id ≡ true)
    pub token_count : length s.added_tokens ≤ 1024
    pub hash_count : length s.revoked_hashes ≤ 2048
    pub id_count : length s.deleted_token_ids ≤ 2048
    pub client_count : length s.clients ≤ max_tracked_clients
    pub block_count : length s.blocked_devices ≤ max_tracked_clients
    pub tokens : All IsAddedToken s.added_tokens
    pub hashes : All IsHash s.revoked_hashes
    pub ids : All IsDeletedId s.deleted_token_ids
    pub clients : All IsClient s.clients
    pub blocks : All (IsBlock s.clients) s.blocked_devices

  version_iff :
      (s : StateJson)
      → (not (s.version == 1) && not (s.version == 2) && not (s.version == control_state_version)
          ≡ false)
        ↔ ((s.version ≡ 1) ⊎ (s.version ≡ 2) ⊎ (s.version ≡ control_state_version))
  version_iff s = (λ h. ground arith, λ h. ground arith)

  instance_iff :
      (s : StateJson)
      → (not (s.instance_id == []) && not (valid_instance_id s.instance_id) ≡ false)
        ↔ ((s.instance_id ≡ []) ⊎ (valid_instance_id s.instance_id ≡ true))
  instance_iff s = (
    λ h. ground (arith, bytes_eq.beq_iff s.instance_id []),
    λ h. ground (arith, bytes_eq.beq_iff s.instance_id []),
  )

  limit_iff :
      (s : StateJson)
      → (over_limit s ≡ false) ↔ (
          (length s.added_tokens ≤ 1024)
          × (length s.revoked_hashes ≤ 2048)
          × (length s.deleted_token_ids ≤ 2048)
          × (length s.clients ≤ max_tracked_clients)
          × (length s.blocked_devices ≤ max_tracked_clients))
  unfolding over_limit
  limit_iff s = (λ h. ground arith, λ h. ground arith)

  check_state_iff : (s : StateJson) → (check_state go parses_time s ≡ none) ↔ IsLoadable s
  unfolding check_state
  check_state_iff s = (
    λ h.
        let (v, h1) = (check_iff _ _ _).0 h in
        let (i, h2) = (check_iff _ _ _).0 h1 in
        let (l, h3) = (check_iff _ _ _).0 h2 in
        let (t, h4) = (check_iff _ _ _).0 h3 in
        let (r, h5) = (check_iff _ _ _).0 h4 in
        let (d, h6) = (check_iff _ _ _).0 h5 in
        let (c, h7) = (check_iff _ _ _).0 h6 in
        let (b, _) = (check_iff _ _ _).0 h7 in
        let (n0, n1, n2, n3, n4) = (limit_iff s).0 l in
        record {
          has_version = (version_iff s).0 v;
          has_instance = (instance_iff s).0 i;
          token_count = n0;
          hash_count = n1;
          id_count = n2;
          client_count = n3;
          block_count = n4;
          tokens =
              (all_pass-All (valid_added_token go) IsAddedToken s.added_tokens
                  valid_added_token_iff).0
                t;
          hashes =
              (all_pass-All (valid_revoked_hash go) IsHash s.revoked_hashes
                  valid_revoked_hash_iff).0
                r;
          ids =
              (all_pass-All valid_deleted_id IsDeletedId s.deleted_token_ids valid_deleted_id_iff).0
                d;
          clients = (all_pass-All valid_client IsClient s.clients valid_client_iff).0 c;
          blocks =
              (all_pass-All (valid_block parses_time s.clients) (IsBlock s.clients)
                  s.blocked_devices (valid_block_iff s.clients)).0
                b;
        },
    λ p. (check_iff _ _ _).1 (
      (version_iff s).1 p.has_version,
      (check_iff _ _ _).1 (
        (instance_iff s).1 p.has_instance,
        (check_iff _ _ _).1 (
          (limit_iff s).1 (p.token_count, p.hash_count, p.id_count, p.client_count, p.block_count),
          (check_iff _ _ _).1 (
            (all_pass-All (valid_added_token go) IsAddedToken s.added_tokens
                  valid_added_token_iff).1
                p.tokens,
            (check_iff _ _ _).1 (
              (all_pass-All (valid_revoked_hash go) IsHash s.revoked_hashes
                    valid_revoked_hash_iff).1
                  p.hashes,
              (check_iff _ _ _).1 (
                (all_pass-All valid_deleted_id IsDeletedId s.deleted_token_ids
                      valid_deleted_id_iff).1
                    p.ids,
                (check_iff _ _ _).1 (
                  (all_pass-All valid_client IsClient s.clients valid_client_iff).1 p.clients,
                  (check_iff _ _ _).1 (
                    (all_pass-All (valid_block parses_time s.clients) (IsBlock s.clients)
                          s.blocked_devices (valid_block_iff s.clients)).1
                        p.blocks,
                    refl,
                  ),
                ),
              ),
            ),
          ),
        ),
      ),
    ),
  )

  result_of : ControlState → Loaded → ControlState
  result_of s (loaded t) = t
  result_of s _ = s

  -- What the decoder gives.
  abbrev read_as : StateJson → Bool → Option (StateJson × Bool)
  read_as s ended = some (s, ended)

  decoded_iff :
      (s : StateJson) (ended : Bool) (result : ControlState)
      → ((if not ended
            then load_error trailing_data
            else elim (check_state go parses_time s) as (λ _. Loaded) [
              | some e ↦ load_error e
              | none ↦ loaded (state_of s)
            ])
          ≡ loaded result)
        ↔ ((t : StateJson) × (read_as s ended ≡ some (t, true))
            × IsLoadable t
            × (result ≡ state_of t))
  unfolding result_of
  decoded_iff s false result =
      (λ h. absurd cc, λ (t, e, _, _). absurd (cc (ap (λ p. p.1) (some-injective _ _ e))))
  decoded_iff s true result = elim (Option-cases (check_state go parses_time s)) [
    | inr (x, c) ↦ rw c (
      λ h. absurd cc,
      λ (t, e, l, _). absurd (
          cc (
            c,
            ap (λ p. check_state go parses_time p.0) (some-injective _ _ e),
            (check_state_iff t).1 l,
          )),
    )
    | inl c ↦ rw c (
      λ h. (s, refl, (check_state_iff s).0 c, sym (ap (result_of (state_of s)) h)),
      λ (t, e, _, r). ap loaded (ap (λ p. state_of p.0) (some-injective _ _ e) ∙ sym r),
    )
  ]

  pub load_iff :
      (size : ℕ) (decoded : Option (StateJson × Bool)) (result : ControlState)
      → (load go parses_time (content size decoded) ≡ loaded result) ↔ (
          (size ≤ 8 * 1024 * 1024)
          × ((s : StateJson) × (decoded ≡ some (s, true)) × IsLoadable s × (result ≡ state_of s)))
  unfolding load
  load_iff size decoded result = elim (Bool-cases (ltb (8 * 1024 * 1024) size)) [
    | inl z ↦ rw (load, z) (λ h. absurd cc, λ (n, _). absurd (ground (arith, z, n)))
    | inr z ↦ elim (Option-cases decoded) [
      | inl d ↦ rw (load, z, d) (λ h. absurd cc, λ (n, (s, e, _, _)). absurd (cc (e)))
      | inr ((s, ended), d) ↦
          rw (load, z, d)
            (
              λ h. (ground (arith, z), (decoded_iff s ended result).0 h),
              λ (n, r). (decoded_iff s ended result).1 r,
            )
    ]
  ]
