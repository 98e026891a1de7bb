-- ===== src/Control/Register/Keeps.antt =====
-- What registering a session keeps true of the clients (internal/relay/control_plane.go:
-- `registerSession`, `migrateClientIdentityLocked`).
use tg_proxy_relay.Prelude.{
  ℕ, suc, ◌≤◌, ◌≡◌, inl, inr, refl, sym, ◌∙◌, ap, subst, false, not, ◌||◌, ◌&&◌, List, [], ◌∷◌,
  ◌==◌, nat_eq, bytes_eq, contains, Bytes, length, some, Bool-cases, Option-cases, Eq-cases, arith,
  beq_refl,
}
use tg_proxy_relay.Prelude.Maps.{Map, lookup, insert, lookup-insert}
use tg_proxy_relay.Prelude.MapSize.{
  HasUniqueKeys, lookup-count_key, length-delete, length-insert-some, length-insert_le,
  count_key-insert_other, HasUniqueKeys-insert, HasUniqueKeys-delete,
}
use tg_proxy_relay.Platform.{Platform}
use tg_proxy_relay.Config.Net.{Net}
use tg_proxy_relay.Config.Tokens.{Token}
use tg_proxy_relay.Control.State.{
  ControlPlane, TrackedClient, max_tracked_clients, enabled, schedule_client_persist,
}
use tg_proxy_relay.Control.Tokens.{client_token_active}
use tg_proxy_relay.Control.Devices.{
  DeviceRequest, RequestDeviceIdentity, key_of, session_identity_details, candidate_device_ids,
  any_blocked,
}
use tg_proxy_relay.Control.Devices.Merge.{
  moved_client, merge_client_key, migrate_keys, migrate_client_identity,
}
use tg_proxy_relay.Control.Devices.Orphans.{IsOwned, migrate_client_identity-IsOwned}
use tg_proxy_relay.Control.Register.{
  ClientHeaders, Locations, public_ip, prune_clients, described, client_for, enter_session,
  fresh_location, locate, admit_session, register_session,
}
use tg_proxy_relay.Control.Register.Prune.{
  IsPermuting, prune_clients-IsOwned, prune_clients-HasUniqueKeys, length-prune_clients,
}

-- At most `n` clients, each key once, and every block has a time and a client.
pub record IsTidy (n : ℕ) (c : ControlPlane) : Type 0 where
  pub has_unique_keys : HasUniqueKeys c.state.clients
  pub is_bounded : length c.state.clients ≤ n
  pub is_owned : IsOwned c.state.clients c.state.blocked_devices

pub schedule_client_persist-state : (c : ControlPlane) → (schedule_client_persist c).state ≡ c.state
unfolding schedule_client_persist
schedule_client_persist-state c = elim (Bool-cases (c.state_path == [])) [
  | inl e ↦ rw (schedule_client_persist, e) refl
  | inr e ↦ elim (Bool-cases c.shutting_down) [
    | inl s ↦ rw (schedule_client_persist, e, s) refl
    | inr s ↦ rw (schedule_client_persist, e, s) refl
  ]
]

pub schedule_client_persist-active :
    (c : ControlPlane) → (schedule_client_persist c).active ≡ c.active
unfolding schedule_client_persist
schedule_client_persist-active c = elim (Bool-cases (c.state_path == [])) [
  | inl e ↦ rw (schedule_client_persist, e) refl
  | inr e ↦ elim (Bool-cases c.shutting_down) [
    | inl s ↦ rw (schedule_client_persist, e, s) refl
    | inr s ↦ rw (schedule_client_persist, e, s) refl
  ]
]

-- A client is written under its key.
insert-IsOwned :
    (key : Bytes) (client : TrackedClient) (clients : Map Bytes TrackedClient)
    (blocks : Map Bytes Bytes)
    → IsOwned clients blocks
    → IsOwned (insert key client clients) blocks
insert-IsOwned key client clients blocks o j v h =
    let (full, x, e) = o j v h in
    elim (Eq-cases key j) [
      | inl (t, p) ↦ (full, client, rw t at (lookup-insert key j client clients))
      | inr (t, p) ↦ (full, x, rw t at (lookup-insert key j client clients) ∙ e)
    ]

-- How big the clients are after a merge.
merge_client_key-size :
    (old_key new_key token_id device_id : Bytes) (c : ControlPlane)
    → (old_key == new_key) ≡ false
    → HasUniqueKeys c.state.clients
    → HasUniqueKeys ((merge_client_key old_key new_key token_id device_id c).state.clients)
      × (length ((merge_client_key old_key new_key token_id device_id c).state.clients)
          ≤ length c.state.clients)
unfolding merge_client_key
merge_client_key-size old_key new_key token_id device_id c n u =
    elim (Option-cases (lookup old_key c.state.clients)) [
      | inl e ↦ rw (merge_client_key, e) (u, omega arith)
      | inr (source, e) ↦
          let moved =
            moved_client new_key token_id device_id source (lookup new_key c.state.clients) in
          rw (merge_client_key, e)
            (
              HasUniqueKeys-delete old_key (insert new_key moved c.state.clients)
                  (HasUniqueKeys-insert new_key moved c.state.clients u),
              omega (
                arith,
                length-delete old_key (insert new_key moved c.state.clients),
                length-insert_le new_key moved c.state.clients,
                count_key-insert_other new_key old_key moved c.state.clients (
                    ground (
                      arith,
                      n,
                      bytes_eq.beq_iff old_key new_key,
                      bytes_eq.beq_iff new_key old_key,
                    )),
                lookup-count_key old_key source c.state.clients e,
              ),
            )
    ]

migrate_keys-size :
    (keys : List Bytes) (new_key : Bytes) (identity : RequestDeviceIdentity) (c : ControlPlane)
    → HasUniqueKeys c.state.clients
    → HasUniqueKeys ((migrate_keys keys new_key identity c).state.clients)
      × (length ((migrate_keys keys new_key identity c).state.clients) ≤ length c.state.clients)
unfolding migrate_keys
migrate_keys-size [] new_key identity c u = (u, omega arith)
migrate_keys-size (old_key ∷ keys) new_key identity c u = elim (Bool-cases (old_key == new_key)) [
  | inl e ↦ rw (migrate_keys, e) (migrate_keys-size keys new_key identity c u)
  | inr e ↦
      let (v, l) =
        merge_client_key-size old_key new_key identity.token_id identity.device_id c e u in
      let (w, k) =
        migrate_keys-size keys new_key identity
          (merge_client_key old_key new_key identity.token_id identity.device_id c) v in
      rw (migrate_keys, e) (w, omega (arith, l, k))
]

migrate_client_identity-IsTidy :
    (go : Platform) (identity : RequestDeviceIdentity) (remote_ip manufacturer model : Bytes)
    (c : ControlPlane) (n : ℕ)
    → IsTidy n c
    → IsTidy n (migrate_client_identity go identity remote_ip manufacturer model c)
unfolding migrate_client_identity
migrate_client_identity-IsTidy go identity remote_ip manufacturer model c n t =
    let (u, l) =
      migrate_keys-size _ (key_of identity.token_id identity.device_id) identity c
        t.has_unique_keys in
    record {
      has_unique_keys = u;
      is_bounded = omega (arith, l, t.is_bounded);
      is_owned =
          migrate_client_identity-IsOwned go identity remote_ip manufacturer model c t.is_owned;
    }

prune_clients-IsTidy :
    (sort : List (Bytes × Bytes) → List (Bytes × Bytes)) (c : ControlPlane)
    → IsPermuting sort
    → HasUniqueKeys c.state.clients
    → IsOwned c.state.clients c.state.blocked_devices
    → IsTidy 4095 (prune_clients sort c)
prune_clients-IsTidy sort c p u o = record {
  has_unique_keys = prune_clients-HasUniqueKeys sort c u;
  is_bounded = omega (arith, length-prune_clients sort c p u);
  is_owned = prune_clients-IsOwned sort c o;
}

-- A state whose clients are the clients of `c` with one more record.
written_IsTidy :
    (key : Bytes) (client : TrackedClient) (c c' : ControlPlane) (n : ℕ)
    → c'.state.clients ≡ insert key client c.state.clients
    → c'.state.blocked_devices ≡ c.state.blocked_devices
    → length (insert key client c.state.clients) ≤ n
    → HasUniqueKeys c.state.clients
    → IsOwned c.state.clients c.state.blocked_devices
    → IsTidy n c'
written_IsTidy key client c c' n e b l u o = record {
  has_unique_keys = subst HasUniqueKeys (sym e) (HasUniqueKeys-insert key client c.state.clients u);
  is_bounded = omega (arith, l, ap (λ m. length m) e);
  is_owned =
      subst (λ m. IsOwned m c'.state.blocked_devices) (sym e)
        (subst (IsOwned (insert key client c.state.clients)) (sym b)
          (insert-IsOwned key client c.state.clients c.state.blocked_devices o));
}

enter_session-IsTidy :
    (token_id key : Bytes) (client : TrackedClient) (c : ControlPlane) (n : ℕ)
    → IsTidy n c
    → IsTidy (suc n) (enter_session token_id key client c)
      × (lookup key ((enter_session token_id key client c).state.clients) ≡ some client)
unfolding enter_session
enter_session-IsTidy token_id key client c n t = (
  written_IsTidy key client c (enter_session token_id key client c) (suc n)
      (ap (λ s. s.clients) (schedule_client_persist-state _))
      (ap (λ s. s.blocked_devices) (schedule_client_persist-state _))
      (omega (arith, length-insert_le key client c.state.clients, t.is_bounded)) t.has_unique_keys
      t.is_owned,
  ap (λ s. lookup key s.clients) (schedule_client_persist-state _)
      ∙ rw (beq_refl key) at (lookup-insert key key client c.state.clients),
)

locate-IsTidy :
    (net : Net) (key : Bytes) (client : TrackedClient) (remote_ip : Bytes) (clock : ℕ)
    (l : Locations) (c : ControlPlane) (n : ℕ)
    → lookup key c.state.clients ≡ some client
    → IsTidy n c
    → IsTidy n ((locate net key client remote_ip clock l c).2)
unfolding locate
locate-IsTidy net key client remote_ip clock l c n e t =
    elim (Bool-cases (
      not (
        not (remote_ip == [])
        && client.country == []
        && public_ip net remote_ip
        && l.has_resolver))) [
          | inl g ↦ rw (locate, g) t
          | inr g ↦ elim (Option-cases (fresh_location (lookup remote_ip l.cache) clock)) [
            | inr (cached, f) ↦
                rw (locate, g, f)
                  (written_IsTidy key
                    (record client { country = cached.country; city = cached.city }) c _ n
                    (ap (λ s. s.clients) (schedule_client_persist-state _))
                    (ap (λ s. s.blocked_devices) (schedule_client_persist-state _))
                    (omega (
                      arith,
                      t.is_bounded,
                      length-insert-some key
                          (record client { country = cached.country; city = cached.city }) client
                          c.state.clients e,
                    ))
                    t.has_unique_keys t.is_owned)
            | inl f ↦ elim (Bool-cases (contains l.busy remote_ip)) [
              | inl b ↦ rw (locate, g, f, b) t
              | inr b ↦ rw (locate, g, f, b) t
            ]
          ]
        ]

module _ (net : Net) (go : Platform) (sort : List (Bytes × Bytes) → List (Bytes × Bytes)) where
  admit_session-IsTidy :
      (identity : RequestDeviceIdentity) (r : DeviceRequest) (h : ClientHeaders) (now : Bytes)
      (clock : ℕ) (l : Locations) (c : ControlPlane)
      → IsPermuting sort
      → HasUniqueKeys c.state.clients
      → IsOwned c.state.clients c.state.blocked_devices
      → IsTidy max_tracked_clients ((admit_session net go sort identity r h now clock l c).2)
  unfolding admit_session
  admit_session-IsTidy identity r h now clock l c p u o =
      let key = key_of identity.token_id identity.device_id in
      let ready =
        migrate_client_identity go identity r.remote_ip h.manufacturer h.model
          (prune_clients sort c) in
      let client =
        described h r.remote_ip now
          (client_for key identity now (lookup key ready.state.clients)) in
      let (t, e) = enter_session-IsTidy identity.token_id key client ready 4095 (
        migrate_client_identity-IsTidy go identity r.remote_ip h.manufacturer h.model
          (prune_clients sort c) 4095 (prune_clients-IsTidy sort c p u o)) in
      locate-IsTidy net key client r.remote_ip clock l
        (enter_session identity.token_id key client ready) max_tracked_clients e t

  -- When at most 4096 clients are known, each once, and every block has a time and a client, and
  -- `sort.Slice` permutes, then that is so after registering a session, in every outcome.
  pub register_session-IsTidy :
      (token : Token) (r : DeviceRequest) (h : ClientHeaders) (now : Bytes) (clock : ℕ)
      (l : Locations) (c : ControlPlane)
      → IsPermuting sort
      → IsTidy max_tracked_clients c
      → IsTidy max_tracked_clients ((register_session net go sort token r h now clock l c).2)
  unfolding register_session
  register_session-IsTidy token r h now clock l c p t =
      let identity = session_identity_details go token r in
      elim (Bool-cases (not (enabled c))) [
        | inl e ↦ rw (register_session, e) t
        | inr e ↦ elim (Bool-cases (c.shutting_down || not (client_token_active go c token))) [
          | inl a ↦ rw (register_session, e, a) t
          | inr a ↦
              elim (Bool-cases (
                any_blocked c.state.blocked_devices identity.token_id
                  (candidate_device_ids identity))) [
                    | inl b ↦ rw (register_session, e, a, b) t
                    | inr b ↦
                        rw (register_session, e, a, b)
                          (admit_session-IsTidy identity r h now clock l c p t.has_unique_keys
                            t.is_owned)
                  ]
        ]
      ]
