-- ===== src/Control/Register/Prune.antt =====
-- What pruning leaves (internal/relay/control_plane.go: `pruneClientsLocked`).
use tg_proxy_relay.Prelude.{
  ℕ, suc, ◌+◌, ◌-◌, ◌≤◌, ◌<◌, ◌≡◌, inl, inr, refl, sym, ◌∙◌, ap, Bool, true, false, List, [], ◌∷◌,
  ◌++◌, ltb, ◌==◌, nat_eq, bytes_eq, if◌then◌else◌, contains, Bytes, length, length-append,
  length-take, take, none, Bool-cases, Eq-cases, arith, beq_refl, to_ℕ, count_if, count_if-append,
  zero,
}
use tg_proxy_relay.Prelude.Maps.{Map, lookup, delete, lookup-delete}
use tg_proxy_relay.Prelude.MapSize.{
  count_key, HasUniqueKeys, length-delete, count_key-delete, HasUniqueKeys-delete,
}
use tg_proxy_relay.Control.State.{ControlPlane, TrackedClient, max_tracked_clients}
use tg_proxy_relay.Control.Devices.Orphans.{IsOwned}
use tg_proxy_relay.Control.Register.{
  active_keys, candidates, delete_keys, prune_items, prune_clients,
}

-- Whether a key is among those to be removed.
abbrev listed : Bytes → List (Bytes × Bytes) → Bool
listed j [] = false
listed j ((key, _) ∷ items) = let rest = listed j items in if key == j then true else rest

lookup-delete_keys :
    {V : Type 0} (j : Bytes) (items : List (Bytes × Bytes)) (m : Map Bytes V)
    → lookup j (delete_keys items m) ≡ (if listed j items then none else lookup j m)
unfolding delete_keys
lookup-delete_keys j [] m = refl
lookup-delete_keys j ((key, at) ∷ items) m = lookup-delete_keys j items (delete key m) ∙ later
  where
    later :
        (if listed j items then none else lookup j (delete key m))
        ≡ (if listed j ((key, at) ∷ items) then none else lookup j m)
    later = elim (Bool-cases (key == j)) [
      | inl e ↦ elim (Bool-cases (listed j items)) [
        | inl l ↦ rw (l, e) refl
        | inr l ↦ rw (l, e) (lookup-delete key j m ∙ rw e refl)
      ]
      | inr e ↦ elim (Bool-cases (listed j items)) [
        | inl l ↦ rw (l, e) refl
        | inr l ↦ rw (l, e) (lookup-delete key j m ∙ rw e refl)
      ]
    ]

pub delete_keys-IsOwned :
    (items : List (Bytes × Bytes)) (clients : Map Bytes TrackedClient) (blocks : Map Bytes Bytes)
    → IsOwned clients blocks
    → IsOwned (delete_keys items clients) (delete_keys items blocks)
delete_keys-IsOwned items clients blocks o j v h = elim (Bool-cases (listed j items)) [
  | inl l ↦ absurd (cc (rw l at (lookup-delete_keys j items blocks), h))
  | inr l ↦
      let (full, x, e) = o j v (sym (rw l at (lookup-delete_keys j items blocks)) ∙ h) in
      (full, x, rw l at (lookup-delete_keys j items clients) ∙ e)
]

-- How many of the items have the key.
abbrev pub count_item : Bytes → List (Bytes × Bytes) → ℕ
count_item j items = count_if (λ item. item.0 == j) items

-- What Go's documentation says of `sort.Slice`, besides the order.
pub record IsPermuting (sort : List (Bytes × Bytes) → List (Bytes × Bytes)) : Type 0 where
  pub same_length : (items : List (Bytes × Bytes)) → length (sort items) ≡ length items
  pub same_counts :
      (j : Bytes) (items : List (Bytes × Bytes)) → count_item j (sort items) ≡ count_item j items

HasUniqueKeys-delete_keys :
    (items : List (Bytes × Bytes)) (m : Map Bytes TrackedClient)
    → HasUniqueKeys m
    → HasUniqueKeys (delete_keys items m)
unfolding delete_keys
HasUniqueKeys-delete_keys [] m u = u
HasUniqueKeys-delete_keys ((key, _) ∷ items) m u =
    HasUniqueKeys-delete_keys items (delete key m) (HasUniqueKeys-delete key m u)

-- Different keys that are there are removed one by one.
length-delete_keys :
    (items : List (Bytes × Bytes)) (m : Map Bytes TrackedClient)
    → HasUniqueKeys m
    → ((j : Bytes) → count_item j items ≤ count_key j m)
    → length (delete_keys items m) + length items ≤ length m
unfolding delete_keys
length-delete_keys [] m u h = omega arith
length-delete_keys ((key, at) ∷ items) m u h = omega (
  arith,
  length-delete_keys items (delete key m) (HasUniqueKeys-delete key m u) left,
  length-delete key m,
  h key,
  ap to_ℕ (beq_refl key),
)
  where
    left : (j : Bytes) → count_item j items ≤ count_key j (delete key m)
    left j = elim (Eq-cases key j) [
      | inl (e, p) ↦ omega (arith, h j, u j, ap to_ℕ e)
      | inr (e, p) ↦ omega (arith, h j, ap to_ℕ e, count_key-delete key j m e)
    ]

count_item-take :
    (n : ℕ) (j : Bytes) (items : List (Bytes × Bytes))
    → count_item j (take n items) ≤ count_item j items
count_item-take zero j items = omega arith
count_item-take (suc n) j [] = omega arith
count_item-take (suc n) j ((key, at) ∷ items) = omega (arith, count_item-take n j items)

candidates_split :
    (keys : List Bytes) (j : Bytes) (clients : Map Bytes TrackedClient)
    → (count_item j (candidates false keys clients) + count_item j (candidates true keys clients)
        ≡ count_key j clients)
      × (length (candidates false keys clients) + length (candidates true keys clients)
          ≡ length clients)
unfolding candidates
candidates_split keys j [] = (omega arith, omega arith)
candidates_split keys j ((key, client) ∷ clients) =
    let (c, l) = candidates_split keys j clients in
    elim (Bool-cases (contains keys key)) [
      | inl t ↦ rw (candidates, t) (omega (arith, c), omega (arith, l))
      | inr t ↦ rw (candidates, t) (omega (arith, c), omega (arith, l))
    ]

module _ (sort : List (Bytes × Bytes) → List (Bytes × Bytes)) where
  pub prune_clients-IsOwned :
      (c : ControlPlane)
      → IsOwned c.state.clients c.state.blocked_devices
      → IsOwned
          ((prune_clients sort c).state.clients)
          ((prune_clients sort c).state.blocked_devices)
  unfolding prune_clients
  prune_clients-IsOwned c o = elim (Bool-cases (ltb (length c.state.clients) max_tracked_clients)) [
    | inl e ↦ rw (prune_clients, e) o
    | inr e ↦
        rw (prune_clients, e)
          (delete_keys-IsOwned (prune_items sort c) c.state.clients c.state.blocked_devices o)
  ]

  pub prune_clients-HasUniqueKeys :
      (c : ControlPlane)
      → HasUniqueKeys c.state.clients
      → HasUniqueKeys ((prune_clients sort c).state.clients)
  unfolding prune_clients
  prune_clients-HasUniqueKeys c u =
      elim (Bool-cases (ltb (length c.state.clients) max_tracked_clients)) [
        | inl e ↦ rw (prune_clients, e) u
        | inr e ↦
            rw (prune_clients, e) (HasUniqueKeys-delete_keys (prune_items sort c) c.state.clients u)
      ]

  -- The removed items are of different clients, as many as are over the limit and one more.
  prune_items_count :
      (c : ControlPlane)
      → IsPermuting sort
      → max_tracked_clients ≤ length c.state.clients
      → ((j : Bytes) → count_item j (prune_items sort c) ≤ count_key j c.state.clients)
        × (length (prune_items sort c) ≡ length c.state.clients - max_tracked_clients + 1)
  unfolding prune_items
  prune_items_count c p l =
      let keys = active_keys c.active in
      let idle = candidates false keys c.state.clients in
      let busy = candidates true keys c.state.clients in
      (
        λ j. omega (
          arith,
          count_item-take (length c.state.clients - max_tracked_clients + 1) j
              (sort idle ++ sort busy),
          count_if-append (λ item. item.0 == j) (sort idle) (sort busy),
          p.same_counts j idle,
          p.same_counts j busy,
          (candidates_split keys j c.state.clients).0,
        ),
        length-take (length c.state.clients - max_tracked_clients + 1) (sort idle ++ sort busy) (
            omega (
              arith,
              l,
              length-append (sort idle) (sort busy),
              p.same_length idle,
              p.same_length busy,
              (candidates_split keys [] c.state.clients).1,
            )),
      )

  pub length-prune_clients :
      (c : ControlPlane)
      → IsPermuting sort
      → HasUniqueKeys c.state.clients
      → length ((prune_clients sort c).state.clients) < max_tracked_clients
  unfolding prune_clients
  length-prune_clients c p u =
      elim (Bool-cases (ltb (length c.state.clients) max_tracked_clients)) [
        | inl e ↦ rw (prune_clients, e) (ground (arith, e))
        | inr e ↦
            let over : max_tracked_clients ≤ length c.state.clients = ground (arith, e) in
            let (counts, size) = prune_items_count c p over in
            rw (prune_clients, e)
              (omega (
                arith,
                over,
                size,
                length-delete_keys (prune_items sort c) c.state.clients u counts,
              ))
      ]
