-- ===== src/Control/Tokens/Delete/Purge.antt =====
-- The clients of a deleted token and their blocks (internal/relay/control_plane.go: the loops of
-- `deleteToken` over `c.state.Clients`, `removedClients` and `removedBlocked`).
use tg_proxy_relay.Prelude.{
  ◌≡◌, ◌⊎◌, inl, inr, refl, sym, ap, ◌∙◌, false, List, [], ◌∷◌, ◌==◌, bytes_eq, Bytes, Bool-cases,
  Option-cases, Eq-cases, arith, Option, none, some, if◌then◌else◌, Elem, subst,
}
use mathlib.Core.Option.{some-injective}
use tg_proxy_relay.Prelude.Maps.{Map, lookup, insert, delete, lookup-insert, lookup-delete}
use tg_proxy_relay.Control.State.{ControlState, TrackedClient}
use tg_proxy_relay.Control.Tokens.{Removed, keys_of, purge, purge_client, put_back}

module _ {ℓ} {V : Type ℓ} where
  -- Of one key: what the map had, what it has now, and what has been put aside.
  abbrev pub Kept : Option V → Option V → Option V → Type ℓ
  Kept old now aside = (aside ≡ none) × (now ≡ old) ⊎ (aside ≡ old) × (now ≡ none)

  abbrev pub or_else : Option V → Option V → Option V
  or_else none o = o
  or_else (some v) o = some v

  pub lookup-put_back :
      (j : Bytes) (aside m : Map Bytes V)
      → lookup j (put_back aside m) ≡ or_else (lookup j aside) (lookup j m)
  unfolding put_back lookup
  lookup-put_back j [] m = refl
  lookup-put_back j ((k, v) ∷ aside) m = elim (Bool-cases (k == j)) [
    | inl e ↦ rw (lookup-insert k j v (put_back aside m), e) refl
    | inr e ↦ rw (lookup-insert k j v (put_back aside m), e) (lookup-put_back j aside m)
  ]

  pub or_else-Kept : (old now aside : Option V) → Kept old now aside → or_else aside now ≡ old
  or_else-Kept old now aside (inl (a, n)) = rw (a, n) refl
  or_else-Kept none now aside (inr (a, n)) = rw (a, n) refl
  or_else-Kept (some v) now aside (inr (a, n)) = rw a refl

  Kept-same : (o : Option V) → Kept o o none
  Kept-same o = inl (refl, refl)

  Kept-delete :
      (old m aside : Map Bytes V) (key : Bytes) (v : V)
      → lookup key m ≡ some v
      → ((j : Bytes) → Kept (lookup j old) (lookup j m) (lookup j aside))
      → (j : Bytes) → Kept (lookup j old) (lookup j (delete key m)) (lookup j (insert key v aside))
  Kept-delete old m aside key v e h j = elim (Eq-cases key j) [
    | inl (t, p) ↦
        rw (lookup-delete key j m, lookup-insert key j v aside, t) (inr (here j p (h j), refl))
    | inr (f, p) ↦ rw (lookup-delete key j m, lookup-insert key j v aside, f) (h j)
  ]
    where
      here :
          (j : Bytes)
          → key ≡ j
          → Kept (lookup j old) (lookup j m) (lookup j aside)
          → some v ≡ lookup j old
      here j p (inl (a, n)) = sym e ∙ ap (λ k. lookup k m) p ∙ n
      here j p (inr (a, n)) = cc (e, ap (λ k. lookup k m) p, n)

-- What the loop keeps, of the state `old` it started from.
pub record IsPurged (old : ControlState) (now : ControlState × Removed) : Type 0 where
  pub same_added : now.0.added_tokens ≡ old.added_tokens
  pub same_revoked : now.0.revoked_hashes ≡ old.revoked_hashes
  pub same_deleted : now.0.deleted_token_ids ≡ old.deleted_token_ids
  pub same_instance : now.0.instance_id ≡ old.instance_id
  pub kept_clients :
      (j : Bytes) → Kept (lookup j old.clients) (lookup j now.0.clients) (lookup j now.1.clients)
  pub kept_blocked :
      (j : Bytes)
      → Kept
          (lookup j old.blocked_devices)
          (lookup j now.0.blocked_devices)
          (lookup j now.1.blocked)

pub purge_start : (old : ControlState) → IsPurged old (old, record { clients = []; blocked = [] })
unfolding lookup
purge_start old = record {
  same_added = refl;
  same_revoked = refl;
  same_deleted = refl;
  same_instance = refl;
  kept_clients = λ j. Kept-same _;
  kept_blocked = λ j. Kept-same _;
}

without_block :
    (old : ControlState) (key : Bytes) (client : TrackedClient) (state : ControlState)
    (removed : Removed)
    → lookup key state.clients ≡ some client
    → IsPurged old (state, removed)
    → IsPurged old (
      record state { clients = delete key state.clients },
      record removed { clients = insert key client removed.clients },
    )
without_block old key client state removed e p = record {
  same_added = p.same_added;
  same_revoked = p.same_revoked;
  same_deleted = p.same_deleted;
  same_instance = p.same_instance;
  kept_clients = Kept-delete old.clients state.clients removed.clients key client e p.kept_clients;
  kept_blocked = p.kept_blocked;
}

purge_client-IsPurged :
    (old : ControlState) (key : Bytes) (client : TrackedClient) (state : ControlState)
    (removed : Removed)
    → lookup key state.clients ≡ some client
    → IsPurged old (state, removed)
    → IsPurged old (purge_client key client (state, removed))
unfolding purge_client
purge_client-IsPurged old key client state removed e p =
    elim (Option-cases (lookup key state.blocked_devices)) [
      | inl n ↦ rw (purge_client, n) (without_block old key client state removed e p)
      | inr (at, s) ↦ elim (Bool-cases (at == [])) [
        | inl b ↦ rw (purge_client, s, b) (without_block old key client state removed e p)
        | inr b ↦
            rw (purge_client, s, b)
              (record {
                same_added = p.same_added;
                same_revoked = p.same_revoked;
                same_deleted = p.same_deleted;
                same_instance = p.same_instance;
                kept_clients =
                    Kept-delete old.clients state.clients removed.clients key client e
                      p.kept_clients;
                kept_blocked =
                    Kept-delete old.blocked_devices state.blocked_devices removed.blocked key at s
                      p.kept_blocked;
              })
      ]
    ]

purge_client-clients :
    (key : Bytes) (client : TrackedClient) (state : ControlState) (removed : Removed)
    → (purge_client key client (state, removed)).0.clients ≡ delete key state.clients
unfolding purge_client
purge_client-clients key client state removed =
    elim (Option-cases (lookup key state.blocked_devices)) [
      | inl n ↦ rw (purge_client, n) refl
      | inr (at, s) ↦ elim (Bool-cases (at == [])) [
        | inl b ↦ rw (purge_client, s, b) refl
        | inr b ↦ rw (purge_client, s, b) refl
      ]
    ]

pub purge-IsPurged :
    (old : ControlState) (id : Bytes) (keys : List Bytes) (s : ControlState × Removed)
    → IsPurged old s
    → IsPurged old (purge id keys s)
unfolding purge
purge-IsPurged old id [] s p = p
purge-IsPurged old id (key ∷ keys) (state, removed) p =
    elim (Option-cases (lookup key state.clients)) [
      | inl n ↦ rw (purge, n) (purge-IsPurged old id keys (state, removed) p)
      | inr (client, e) ↦ elim (Bool-cases (client.token_id == id)) [
        | inl b ↦
            rw (purge, e, b)
              (purge-IsPurged old id keys _
                (purge_client-IsPurged old key client state removed e p))
        | inr b ↦ rw (purge, e, b) (purge-IsPurged old id keys (state, removed) p)
      ]
    ]

lookup-purge_client :
    (key : Bytes) (client : TrackedClient) (state : ControlState) (removed : Removed) (j : Bytes)
    → lookup j (purge_client key client (state, removed)).0.clients
      ≡ (if key == j then none else lookup j state.clients)
lookup-purge_client key client state removed j =
    ap (lookup j) (purge_client-clients key client state removed)
    ∙ lookup-delete key j state.clients

purge_client_left :
    (key : Bytes) (client : TrackedClient) (state : ControlState) (removed : Removed) (j : Bytes)
    (x : TrackedClient)
    → lookup j (purge_client key client (state, removed)).0.clients ≡ some x
    → lookup j state.clients ≡ some x
purge_client_left key client state removed j x h =
    ground (arith, lookup-purge_client key client state removed j, h)

-- A client that the loop leaves was there before it.
purge_left :
    (id : Bytes) (keys : List Bytes) (s : ControlState × Removed) (j : Bytes) (x : TrackedClient)
    → lookup j (purge id keys s).0.clients ≡ some x
    → lookup j s.0.clients ≡ some x
unfolding purge
purge_left id [] s j x = λ h. h
purge_left id (key ∷ keys) (state, removed) j x = elim (Option-cases (lookup key state.clients)) [
  | inl n ↦ rw (purge, n) (purge_left id keys (state, removed) j x)
  | inr (client, e) ↦ elim (Bool-cases (client.token_id == id)) [
    | inl b ↦
        rw (purge, e, b)
          (λ h. purge_client_left key client state removed j x (purge_left id keys _ j x h))
    | inr b ↦ rw (purge, e, b) (purge_left id keys (state, removed) j x)
  ]
]

-- Of the keys that the loop has met, no client of the token is left.
purge_met :
    (id : Bytes) (keys : List Bytes) (s : ControlState × Removed) (j : Bytes) (x : TrackedClient)
    → Elem j keys
    → lookup j (purge id keys s).0.clients ≡ some x
    → (x.token_id == id) ≡ false
unfolding purge
purge_met id [] s j x m = elim m [ ]
purge_met id (key ∷ keys) (state, removed) j x (inr m) =
    elim (Option-cases (lookup key state.clients)) [
      | inl n ↦ rw (purge, n) (purge_met id keys (state, removed) j x m)
      | inr (client, e) ↦ elim (Bool-cases (client.token_id == id)) [
        | inl b ↦ rw (purge, e, b) (purge_met id keys _ j x m)
        | inr b ↦ rw (purge, e, b) (purge_met id keys (state, removed) j x m)
      ]
    ]
purge_met id (key ∷ keys) (state, removed) j x (inl p) =
    elim (Option-cases (lookup key state.clients)) [
      | inl n ↦
          rw (purge, n)
            (λ h.
              cc (purge_left id keys (state, removed) j x h, n, ap (λ k. lookup k state.clients) p))
      | inr (client, e) ↦ elim (Bool-cases (client.token_id == id)) [
        | inl b ↦ rw (purge, e, b) (λ h. cc (purge_left id keys _ j x h, gone client))
        | inr b ↦
            rw (purge, e, b) (λ h. stay client (e, b, purge_left id keys (state, removed) j x h))
      ]
    ]
  where
    gone :
        (client : TrackedClient)
        → lookup j (purge_client key client (state, removed)).0.clients ≡ none
    gone client = elim (Eq-cases key j) [
      | inl (t, q) ↦ lookup-purge_client key client state removed j ∙ rw t refl
      | inr (f, q) ↦ absurd (q (sym p))
    ]

    stay :
        (client : TrackedClient)
        → (lookup key state.clients ≡ some client)
          × ((client.token_id == id) ≡ false)
          × (lookup j state.clients ≡ some x)
        → (x.token_id == id) ≡ false
    stay client (e, b, h) =
        subst (λ c. (c.token_id == id) ≡ false)
          (some-injective _ _ (sym e ∙ ap (λ k. lookup k state.clients) (sym p) ∙ h)) b

lookup-keys_of :
    (m : Map Bytes TrackedClient) (j : Bytes) (x : TrackedClient)
    → lookup j m ≡ some x
    → Elem j (keys_of m)
unfolding lookup keys_of
lookup-keys_of [] j x h = cc
lookup-keys_of ((k, v) ∷ m) j x h = elim (Eq-cases k j) [
  | inl (t, p) ↦ inl (sym p)
  | inr (f, p) ↦ inr (lookup-keys_of m j x (ground arith))
]

-- After the loop over all the keys, no client of the token is left.
pub purge_all :
    (id : Bytes) (s : ControlState × Removed) (j : Bytes) (x : TrackedClient)
    → lookup j (purge id (keys_of s.0.clients) s).0.clients ≡ some x
    → (x.token_id == id) ≡ false
purge_all id s j x h =
    purge_met id (keys_of s.0.clients) s j x
      (lookup-keys_of s.0.clients j x (purge_left id (keys_of s.0.clients) s j x h)) h
