-- ===== src/Control/Devices/Orphans.antt =====
-- No block outlives its device (internal/relay/control_plane.go: `setDeviceBlocked`,
-- `mergeClientKeyLocked`, `migrateClientIdentityLocked`). A state with a block that has no client
-- is refused when it is loaded.
use tg_proxy_relay.Prelude.{
  ◌≡◌, ◌⊎◌, inl, inr, refl, sym, ap, ◌∙◌, Bool, true, false, ◌||◌, List, [], ◌∷◌, ◌==◌, bytes_eq,
  if◌then◌else◌, Bytes, none, some, Bool-cases, Option-cases, Eq-cases,
}
use mathlib.Core.Option.{some-injective}
use tg_proxy_relay.Prelude.Maps.{Map, lookup, insert, delete, lookup-insert, lookup-delete}
use tg_proxy_relay.Platform.{Platform}
use tg_proxy_relay.Control.State.{ControlPlane, StateFiles, TrackedClient}
use tg_proxy_relay.Control.Devices.{
  DeviceResult, device_done, device_error, RequestDeviceIdentity, set_device_blocked,
}
use tg_proxy_relay.Control.Devices.Blocks.{BlockOutcome, set_device_blocked-BlockOutcome}
use tg_proxy_relay.Control.Devices.Merge.{
  bytes_ltb, move_block, text_of, moved_client, merge_client_key, migrate_keys,
  migrate_client_identity,
}

-- Every block has a time and is of a device that has a client.
abbrev pub IsOwned : Map Bytes TrackedClient → Map Bytes Bytes → Type 0
IsOwned clients blocks =
    (j v : Bytes)
    → lookup j blocks ≡ some v
    → ((v == []) ≡ false) × (x : TrackedClient) × (lookup j clients ≡ some x)

Outcome-IsOwned :
    (files : StateFiles) (now token_id device_id : Bytes) (blocked : Bool) (c : ControlPlane)
    (r : DeviceResult × ControlPlane)
    → (now == []) ≡ false
    → IsOwned c.state.clients c.state.blocked_devices
    → BlockOutcome files now token_id device_id blocked c r
    → IsOwned r.1.state.clients r.1.state.blocked_devices
Outcome-IsOwned files now token_id device_id blocked c (device_error e, c') n o k j v h =
    (let (full, x, e) = o j v (sym (k.same_blocks j) ∙ h) in
      (full, x, ap (λ s. lookup j s.clients) k.is_elsewhere.same_state ∙ e))
Outcome-IsOwned files now token_id device_id blocked c (device_done closers, c') n o (key, k) j v
      h =
    elim (Eq-cases key j) [
      | inl (e, p) ↦ at_key blocked p (sym (rw e at (k.blocks_are j)) ∙ h)
      | inr (e, p) ↦
          (let (full, x, f) = o j v (sym (rw e at (k.blocks_are j)) ∙ h) in (full, x, same ∙ f))
    ]
  where
    same : lookup j c'.state.clients ≡ lookup j c.state.clients
    same = ap (λ s. lookup j s.clients) k.is_elsewhere.same_state

    at_key :
        (b : Bool)
        → key ≡ j
        → (if b then some now else none) ≡ some v
        → ((v == []) ≡ false) × (x : TrackedClient) × (lookup j c'.state.clients ≡ some x)
    at_key true p e = (
      ap (λ z. z == []) (sym (some-injective _ _ e)) ∙ n,
      k.has_client.0,
      same ∙ ap (λ z. lookup z c.state.clients) (sym p) ∙ k.has_client.1,
    )
    at_key false p e = absurd cc

-- When every block has a time and a client, and the clock gives a time, that is so after any
-- change of a block.
pub set_device_blocked-IsOwned :
    (files : StateFiles) (now token_id device_id : Bytes) (blocked : Bool) (c : ControlPlane)
    → (now == []) ≡ false
    → IsOwned c.state.clients c.state.blocked_devices
    → IsOwned
        ((set_device_blocked files now token_id device_id blocked c).1.state.clients)
        ((set_device_blocked files now token_id device_id blocked c).1.state.blocked_devices)
set_device_blocked-IsOwned files now token_id device_id blocked c n o =
    Outcome-IsOwned files now token_id device_id blocked c _ n o
      (set_device_blocked-BlockOutcome files now token_id device_id blocked c)

lookup-move_block :
    (clients : Map Bytes TrackedClient) (blocks : Map Bytes Bytes) (old_key new_key j v : Bytes)
    → IsOwned clients blocks
    → lookup j (move_block old_key new_key blocks) ≡ some v
    → ((old_key == j) ≡ false) × ((v == []) ≡ false) × ((new_key ≡ j) ⊎ (lookup j blocks ≡ some v))
unfolding move_block text_of
lookup-move_block clients blocks old_key new_key j v o =
    elim (Option-cases (lookup old_key blocks)) [
      | inl n ↦
          rw (move_block, n, text_of)
            (λ h. elim (Eq-cases old_key j) [
              | inl (e, p) ↦ cc (n, ap (λ k. lookup k blocks) p, h)
              | inr (e, p) ↦ (e, (o j v h).0, inr h)
            ])
      | inr (at, s) ↦
          rw (move_block, s, text_of, (o old_key at s).0)
            (some_moved (bytes_ltb_test at) at (o old_key at s).0)
    ]
  where
    bytes_ltb_test : Bytes → Bool
    bytes_ltb_test at =
        text_of (lookup new_key blocks) == [] || bytes_ltb at (text_of (lookup new_key blocks))

    some_moved :
        (t : Bool) (at : Bytes)
        → (at == []) ≡ false
        → lookup j (delete old_key (if t then insert new_key at blocks else blocks)) ≡ some v
        → ((old_key == j) ≡ false)
          × ((v == []) ≡ false)
          × ((new_key ≡ j) ⊎ (lookup j blocks ≡ some v))
    some_moved t at n h = elim (Bool-cases (old_key == j)) [
      | inl e ↦ cc (lookup-delete old_key j (if t then insert new_key at blocks else blocks), e, h)
      | inr e ↦
          (let (full, was) = left t (
              sym (
                lookup-delete old_key j (if t then insert new_key at blocks else blocks)
                ∙ rw e refl)
              ∙ h) in
            (e, full, was))
    ]
      where
        left :
            (t : Bool)
            → lookup j (if t then insert new_key at blocks else blocks) ≡ some v
            → ((v == []) ≡ false) × ((new_key ≡ j) ⊎ (lookup j blocks ≡ some v))
        left false g = ((o j v g).0, inr g)
        left true g = elim (Eq-cases new_key j) [
          | inl (f, p) ↦ (
            ap (λ z. z == [])
                  (sym
                    (some-injective _ _ (sym (lookup-insert new_key j at blocks ∙ rw f refl) ∙ g)))
                ∙ n,
            inl p,
          )
          | inr (f, p) ↦
              (let was = sym (lookup-insert new_key j at blocks ∙ rw f refl) ∙ g in
                ((o j v was).0, inr was))
        ]

lookup-merged :
    (clients : Map Bytes TrackedClient) (old_key new_key j : Bytes) (m : TrackedClient)
    → (old_key == j) ≡ false
    → lookup j (delete old_key (insert new_key m clients))
      ≡ (if new_key == j then some m else lookup j clients)
lookup-merged clients old_key new_key j m e =
    lookup-delete old_key j _ ∙ rw e (lookup-insert new_key j m clients)

-- When every block has a time and a client, that is so after a device has come under a new key.
merge_client_key-IsOwned :
    (old_key new_key token_id device_id : Bytes) (c : ControlPlane)
    → IsOwned c.state.clients c.state.blocked_devices
    → IsOwned
        ((merge_client_key old_key new_key token_id device_id c).state.clients)
        ((merge_client_key old_key new_key token_id device_id c).state.blocked_devices)
unfolding merge_client_key
merge_client_key-IsOwned old_key new_key token_id device_id c o =
    elim (Option-cases (lookup old_key c.state.clients)) [
      | inl n ↦ rw (merge_client_key, n) o
      | inr (source, s) ↦ rw (merge_client_key, s) (owned source)
    ]
  where
    client :
        (source : TrackedClient) (j v : Bytes)
        → (old_key == j) ≡ false
        → ((new_key ≡ j) ⊎ (lookup j c.state.blocked_devices ≡ some v))
        → IsOwned c.state.clients c.state.blocked_devices
        → (x : TrackedClient) × (lookup j (
              delete old_key (
                insert new_key
                  (moved_client new_key token_id device_id source (lookup new_key c.state.clients))
                  c.state.clients))
            ≡ some x)
    client source j v e was o = elim (Eq-cases new_key j) [
      | inl (f, p) ↦ (
        moved_client new_key token_id device_id source (lookup new_key c.state.clients),
        lookup-merged c.state.clients old_key new_key j _ e ∙ rw f refl,
      )
      | inr (f, p) ↦ elim was [
        | inl q ↦ absurd (p q)
        | inr q ↦
            (let (_, x, g) = o j v q in
              (x, lookup-merged c.state.clients old_key new_key j _ e ∙ rw f g))
      ]
    ]

    owned :
        (source : TrackedClient)
        → IsOwned
            (delete old_key (
              insert new_key
                (moved_client new_key token_id device_id source (lookup new_key c.state.clients))
                c.state.clients))
            (move_block old_key new_key c.state.blocked_devices)
    owned source j v h =
        (let (e, full, was) =
            lookup-move_block c.state.clients c.state.blocked_devices old_key new_key j v o h in
          let (x, g) = client source j v e was o in (full, x, g))

migrate_keys-IsOwned :
    (keys : List Bytes) (new_key : Bytes) (identity : RequestDeviceIdentity) (c : ControlPlane)
    → IsOwned c.state.clients c.state.blocked_devices
    → IsOwned
        ((migrate_keys keys new_key identity c).state.clients)
        ((migrate_keys keys new_key identity c).state.blocked_devices)
unfolding migrate_keys
migrate_keys-IsOwned [] new_key identity c o = o
migrate_keys-IsOwned (old_key ∷ keys) new_key identity c o =
    elim (Bool-cases (old_key == new_key)) [
      | inl e ↦ rw (migrate_keys, e) (migrate_keys-IsOwned keys new_key identity c o)
      | inr e ↦
          rw (migrate_keys, e)
            (migrate_keys-IsOwned keys new_key identity _
              (merge_client_key-IsOwned old_key new_key identity.token_id identity.device_id c o))
    ]

-- When every block has a time and a client, that is so after the devices that a request's identity
-- replaces have come under the new one.
pub migrate_client_identity-IsOwned :
    (go : Platform) (identity : RequestDeviceIdentity) (remote_ip manufacturer model : Bytes)
    (c : ControlPlane)
    → IsOwned c.state.clients c.state.blocked_devices
    → IsOwned
        ((migrate_client_identity go identity remote_ip manufacturer model c).state.clients)
        ((migrate_client_identity go identity remote_ip manufacturer model c).state.blocked_devices)
unfolding migrate_client_identity
migrate_client_identity-IsOwned go identity remote_ip manufacturer model c o =
    migrate_keys-IsOwned _ _ identity c o
