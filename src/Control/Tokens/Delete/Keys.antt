-- ===== src/Control/Tokens/Delete/Keys.antt =====
-- What a deletion adds to its two lists, and takes from each device (internal/relay/control_plane.go:
-- `deleteToken`).
use tg_proxy_relay.Prelude.{
  ◌≡◌, ◌⊎◌, inl, inr, refl, sym, ap, ◌∙◌, true, List, [], ◌∷◌, ◌++◌, ◌==◌, bytes_eq, contains,
  beq_refl, Bytes, Bool-cases, Option-cases, Eq-cases, none, some,
}
use tg_proxy_relay.Prelude.Maps.{Map, lookup, delete, lookup-delete}
use tg_proxy_relay.Control.State.{ControlState, TrackedClient}
use tg_proxy_relay.Control.Tokens.{Removed, purge, purge_client}

pub contains-append_self : (xs : List Bytes) (a : Bytes) → contains (xs ++ a ∷ []) a ≡ true
unfolding contains
contains-append_self [] a = rw (contains, beq_refl a) refl
contains-append_self (x ∷ xs) a = elim (Bool-cases (x == a)) [
  | inl e ↦ rw (contains, e) refl
  | inr e ↦ rw (contains, e) (contains-append_self xs a)
]

-- All of `old` is in `now`, and nothing else but perhaps `a`.
pub record Extends (a : Bytes) (old now : List Bytes) : Type 0 where
  pub keeps : (b : Bytes) → contains old b ≡ true → contains now b ≡ true
  pub adds : (b : Bytes) → contains now b ≡ true → (contains old b ≡ true) ⊎ (a ≡ b)

pub Extends-refl : (a : Bytes) (xs : List Bytes) → Extends a xs xs
Extends-refl a xs = record { keeps = λ b h. h; adds = λ b h. inl h }

append_keeps :
    (a : Bytes) (xs : List Bytes) (b : Bytes)
    → contains xs b ≡ true
    → contains (xs ++ a ∷ []) b ≡ true
unfolding contains
append_keeps a [] b = λ h. absurd cc
append_keeps a (x ∷ xs) b = elim (Bool-cases (x == b)) [
  | inl e ↦ rw (contains, e) (λ h. refl)
  | inr e ↦ rw (contains, e) (append_keeps a xs b)
]

append_adds :
    (a : Bytes) (xs : List Bytes) (b : Bytes)
    → contains (xs ++ a ∷ []) b ≡ true
    → (contains xs b ≡ true) ⊎ (a ≡ b)
unfolding contains
append_adds a [] b = elim (Eq-cases a b) [
  | inl (e, p) ↦ λ h. inr p
  | inr (e, p) ↦ rw (contains, e) (λ h. absurd cc)
]
append_adds a (x ∷ xs) b = elim (Bool-cases (x == b)) [
  | inl e ↦ rw (contains, e) (λ h. inl refl)
  | inr e ↦ rw (contains, e) (append_adds a xs b)
]

pub Extends-append : (a : Bytes) (xs : List Bytes) → Extends a xs (xs ++ a ∷ [])
Extends-append a xs = record { keeps = append_keeps a xs; adds = append_adds a xs }

-- Of one key: its client and its block are as before, or the client was one of the token and is
-- gone, and so is its block unless it has an empty time.
abbrev pub IsPurgedKey : Bytes → ControlState → ControlState → Bytes → Type 0
IsPurgedKey id old now j =
    (lookup j now.clients ≡ lookup j old.clients)
      × (lookup j now.blocked_devices ≡ lookup j old.blocked_devices)
    ⊎ ((x : TrackedClient) × (lookup j old.clients ≡ some x)
        × ((x.token_id == id) ≡ true)
        × (lookup j now.clients ≡ none)
        × ((lookup j now.blocked_devices ≡ none) ⊎ (lookup j now.blocked_devices ≡ some [])))

pub IsPurgedKey-of :
    (id : Bytes) (old now old' now' : ControlState) (j : Bytes)
    → old.clients ≡ old'.clients
    → old.blocked_devices ≡ old'.blocked_devices
    → now'.clients ≡ now.clients
    → now'.blocked_devices ≡ now.blocked_devices
    → IsPurgedKey id old now j
    → IsPurgedKey id old' now' j
IsPurgedKey-of id old now old' now' j oc ob nc nb (inl (c, b)) =
    inl (ap (lookup j) nc ∙ c ∙ ap (lookup j) oc, ap (lookup j) nb ∙ b ∙ ap (lookup j) ob)
IsPurgedKey-of id old now old' now' j oc ob nc nb (inr (x, e, t, n, b)) = inr (
  x,
  sym (ap (lookup j) oc) ∙ e,
  t,
  ap (lookup j) nc ∙ n,
  elim b [ inl z ↦ inl (ap (lookup j) nb ∙ z) | inr z ↦ inr (ap (lookup j) nb ∙ z) ],
)

IsPurgedKey-trans :
    (id : Bytes) (old mid now : ControlState) (j : Bytes)
    → IsPurgedKey id old mid j
    → IsPurgedKey id mid now j
    → IsPurgedKey id old now j
IsPurgedKey-trans id old mid now j (inl (c, b)) (inl (c', b')) = inl (c' ∙ c, b' ∙ b)
IsPurgedKey-trans id old mid now j (inl (c, b)) (inr (x, e, t, n, z)) = inr (x, sym c ∙ e, t, n, z)
IsPurgedKey-trans id old mid now j (inr (x, e, t, n, z)) (inl (c', b')) =
    inr (x, e, t, c' ∙ n, elim z [ inl q ↦ inl (b' ∙ q) | inr q ↦ inr (b' ∙ q) ])
IsPurgedKey-trans id old mid now j (inr (x, e, t, n, z)) (inr (y, e', u, m, w)) =
    absurd (cc (n, e'))

-- One turn of the loop that meets a client of the token.
purge_client-IsPurgedKey :
    (id key : Bytes) (client : TrackedClient) (state : ControlState) (removed : Removed) (j : Bytes)
    → lookup key state.clients ≡ some client
    → (client.token_id == id) ≡ true
    → IsPurgedKey id state (purge_client key client (state, removed)).0 j
unfolding purge_client
purge_client-IsPurgedKey id key client state removed j e t =
    elim (Option-cases (lookup key state.blocked_devices)) [
      | inl n ↦
          rw (purge_client, n)
            (elim (Eq-cases key j) [
              | inl (q, p) ↦ here state.blocked_devices p q (inl (at_key p ∙ n))
              | inr (q, p) ↦ rw (lookup-delete key j state.clients, q) (inl (refl, refl))
            ])
      | inr (at, s) ↦ elim (Bool-cases (at == [])) [
        | inl b ↦
            rw (purge_client, s, b)
              (elim (Eq-cases key j) [
                | inl (q, p) ↦
                    here state.blocked_devices p q
                      (inr (at_key p ∙ s ∙ ap some ((bytes_eq.beq_iff at []).0 b)))
                | inr (q, p) ↦ rw (lookup-delete key j state.clients, q) (inl (refl, refl))
              ])
        | inr b ↦
            rw (purge_client, s, b)
              (elim (Eq-cases key j) [
                | inl (q, p) ↦
                    here (delete key state.blocked_devices) p q
                      (inl (lookup-delete key j state.blocked_devices ∙ rw q refl))
                | inr (q, p) ↦
                    rw
                      (
                        lookup-delete key j state.clients,
                        lookup-delete key j state.blocked_devices,
                        q,
                      )
                      (inl (refl, refl))
              ])
      ]
    ]
  where
    at_key : key ≡ j → lookup j state.blocked_devices ≡ lookup key state.blocked_devices
    at_key p = ap (λ k. lookup k state.blocked_devices) (sym p)

    here :
        (blocks : Map Bytes Bytes)
        → key ≡ j
        → (key == j) ≡ true
        → (lookup j blocks ≡ none) ⊎ (lookup j blocks ≡ some [])
        → IsPurgedKey id state
            (record state { clients = delete key state.clients; blocked_devices = blocks })
            j
    here blocks p q z = inr (
      client,
      ap (λ k. lookup k state.clients) (sym p) ∙ e,
      t,
      lookup-delete key j state.clients ∙ rw q refl,
      z,
    )

pub purge-IsPurgedKey :
    (id : Bytes) (keys : List Bytes) (s : ControlState × Removed) (j : Bytes)
    → IsPurgedKey id s.0 (purge id keys s).0 j
unfolding purge
purge-IsPurgedKey id [] s j = inl (refl, refl)
purge-IsPurgedKey id (key ∷ keys) (state, removed) j =
    elim (Option-cases (lookup key state.clients)) [
      | inl n ↦ rw (purge, n) (purge-IsPurgedKey id keys (state, removed) j)
      | inr (client, e) ↦ elim (Bool-cases (client.token_id == id)) [
        | inl b ↦
            rw (purge, e, b)
              (IsPurgedKey-trans id state (purge_client key client (state, removed)).0
                (purge id keys (purge_client key client (state, removed))).0 j
                (purge_client-IsPurgedKey id key client state removed j e b)
                (purge-IsPurgedKey id keys _ j))
        | inr b ↦ rw (purge, e, b) (purge-IsPurgedKey id keys (state, removed) j)
      ]
    ]
