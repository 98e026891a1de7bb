-- ===== src/Control/Register/Outcome.antt =====
-- The outcomes of registering a session (internal/relay/control_plane.go: `registerSession`).
use tg_proxy_relay.Prelude.{
  ℕ, ◌+◌, ◌%◌, ◌^◌, Eq, ◌≡◌, ◌⊎◌, inl, inr, refl, ◌∙◌, ap, true, false, not, ◌||◌, ◌&&◌, List, [],
  ◌==◌, nat_eq, bytes_eq, contains, Bytes, some, Bool-cases, Option-cases, arith, beq_refl,
}
use tg_proxy_relay.Prelude.Maps.{Map, lookup, insert, lookup-insert}
use tg_proxy_relay.Platform.{Platform}
use tg_proxy_relay.Config.Net.{Net}
use tg_proxy_relay.Config.Tokens.{Token}
use tg_proxy_relay.Control.State.{ControlPlane, TrackedClient, enabled, schedule_client_persist}
use tg_proxy_relay.Control.Tokens.{client_token_active}
use tg_proxy_relay.Control.Devices.{
  DeviceRequest, key_of, session_identity_details, candidate_device_ids, any_blocked,
  device_blocked,
}
use tg_proxy_relay.Control.Devices.Merge.{migrate_client_identity}
use tg_proxy_relay.Control.Register.{
  ClientHeaders, Locations, Registration, not_tracked, refused, registered, prune_clients,
  described, client_for, enter_session, fresh_location, public_ip, locate, admit_session,
  register_session, sessions_of,
}
use tg_proxy_relay.Control.Register.Keeps.{
  schedule_client_persist-state, schedule_client_persist-active,
}

-- The session `id` is among those of its token, for the client of the key, whose record has the
-- request's address and time.
pub record HasSession (token_id : Bytes) (id : ℕ) (key remote_ip now : Bytes) (c : ControlPlane)
    : Type 0 where
  pub sessions : Map ℕ Bytes
  pub client : TrackedClient
  pub has_token : lookup token_id c.active ≡ some sessions
  pub has_session : lookup id sessions ≡ some key
  pub has_client : lookup key c.state.clients ≡ some client
  pub same_ip : client.remote_ip ≡ remote_ip
  pub same_time : client.last_seen ≡ now

schedule_client_persist-next_session_id :
    (c : ControlPlane) → (schedule_client_persist c).next_session_id ≡ c.next_session_id
unfolding schedule_client_persist
schedule_client_persist-next_session_id c = elim (Bool-cases (c.state_path == [])) [
  | inl e ↦ rw (schedule_client_persist, e) refl
  | inr e ↦ elim (Bool-cases c.shutting_down) [
    | inl s ↦ rw (schedule_client_persist, e, s) refl
    | inr s ↦ rw (schedule_client_persist, e, s) refl
  ]
]

-- What is found under a key that was just written.
lookup-insert_self :
    {V : Type 0} {K : Type 0} ⦃eq : Eq K⦄ (key : K) (value : V) (m : Map K V)
    → lookup key (insert key value m) ≡ some value
lookup-insert_self key value m = rw (beq_refl key) at (lookup-insert key key value m)

enter_session-HasSession :
    (token_id key remote_ip now : Bytes) (client : TrackedClient) (c : ControlPlane)
    → client.remote_ip ≡ remote_ip
    → client.last_seen ≡ now
    → HasSession token_id
        ((enter_session token_id key client c).next_session_id)
        key
        remote_ip
        now
        (enter_session token_id key client c)
unfolding enter_session
enter_session-HasSession token_id key remote_ip now client c i l = record {
  sessions = insert ((c.next_session_id + 1) % 2 ^ 64) key (sessions_of (lookup token_id c.active));
  client = client;
  has_token =
      ap (λ a. lookup token_id a) (schedule_client_persist-active _)
      ∙ lookup-insert_self token_id _ c.active;
  has_session =
      ap
        (λ id.
          lookup id (
            insert ((c.next_session_id + 1) % 2 ^ 64) key (sessions_of (lookup token_id c.active))))
        (schedule_client_persist-next_session_id _)
      ∙ lookup-insert_self ((c.next_session_id + 1) % 2 ^ 64) key
          (sessions_of (lookup token_id c.active));
  has_client =
      ap (λ s. lookup key s.clients) (schedule_client_persist-state _)
      ∙ lookup-insert_self key client c.state.clients;
  same_ip = i;
  same_time = l;
}

locate-HasSession :
    (net : Net) (token_id : Bytes) (id : ℕ) (key ip now : Bytes) (client : TrackedClient)
    (clock : ℕ) (l : Locations) (c : ControlPlane)
    → client.remote_ip ≡ ip
    → client.last_seen ≡ now
    → HasSession token_id id key ip now c
    → HasSession token_id id key ip now ((locate net key client ip clock l c).2)
unfolding locate
locate-HasSession net token_id id key ip now client clock l c i s h =
    elim (Bool-cases
      (not (not (ip == []) && client.country == [] && public_ip net ip && l.has_resolver))) [
        | inl g ↦ rw (locate, g) h
        | inr g ↦ elim (Option-cases (fresh_location (lookup ip l.cache) clock)) [
          | inr (cached, f) ↦
              let place = record client { country = cached.country; city = cached.city } in
              rw (locate, g, f)
                (record {
                  sessions = h.sessions;
                  client = place;
                  has_token =
                      ap (λ a. lookup token_id a) (schedule_client_persist-active _) ∙ h.has_token;
                  has_session = h.has_session;
                  has_client =
                      ap (λ t. lookup key t.clients) (schedule_client_persist-state _)
                      ∙ lookup-insert_self key place c.state.clients;
                  same_ip = i;
                  same_time = s;
                })
          | inl f ↦ elim (Bool-cases (contains l.busy ip)) [
            | inl b ↦ rw (locate, g, f, b) h
            | inr b ↦ rw (locate, g, f, b) h
          ]
        ]
      ]

described-seen :
    (h : ClientHeaders) (ip now : Bytes) (x : TrackedClient)
    → ((described h ip now x).remote_ip ≡ ip) × ((described h ip now x).last_seen ≡ now)
unfolding described
described-seen h ip now x = (refl, refl)

module _ (net : Net) (go : Platform) (sort : List (Bytes × Bytes) → List (Bytes × Bytes)) where
  -- The outcomes of `register_session`.
  abbrev pub RegisterOutcome :
      Token
      → DeviceRequest
      → Bytes
      → Locations
      → ControlPlane
      → Registration × Locations × ControlPlane
      → Type 0
  RegisterOutcome token r now l c (not_tracked, l', c') = (enabled c ≡ false) × (l' ≡ l) × (c' ≡ c)
  RegisterOutcome token r now l c (refused, l', c') =
      (l' ≡ l)
      × (c' ≡ c)
      × ((c.shutting_down ≡ true)
          ⊎ (client_token_active go c token ≡ false)
          ⊎ (device_blocked go c token r ≡ true))
  RegisterOutcome token r now l c (registered token_id id key starts, l', c') =
      (c.shutting_down ≡ false)
      × (client_token_active go c token ≡ true)
      × (device_blocked go c token r ≡ false)
      × (token_id ≡ (session_identity_details go token r).token_id)
      × (key ≡ key_of token_id ((session_identity_details go token r).device_id))
      × HasSession token_id id key r.remote_ip now c'

  admit_session-registered :
      (token : Token) (r : DeviceRequest) (h : ClientHeaders) (now : Bytes) (clock : ℕ)
      (l : Locations) (c : ControlPlane)
      → c.shutting_down ≡ false
      → client_token_active go c token ≡ true
      → device_blocked go c token r ≡ false
      → RegisterOutcome token r now l c
          (admit_session net go sort (session_identity_details go token r) r h now clock l c)
  unfolding admit_session
  admit_session-registered token r h now clock l c s a b =
      let identity = session_identity_details go token r in
      let key = key_of identity.token_id identity.device_id in
      let ready =
        migrate_client_identity go identity r.remote_ip h.manufacturer h.model
          (prune_clients sort c) in
      let client =
        described h r.remote_ip now
          (client_for key identity now (lookup key ready.state.clients)) in
      let entered = enter_session identity.token_id key client ready in
      (
        s,
        a,
        b,
        refl,
        refl,
        locate-HasSession net identity.token_id entered.next_session_id key r.remote_ip now client
            clock l entered (described-seen h r.remote_ip now _).0
            (described-seen h r.remote_ip now _).1
            (enter_session-HasSession identity.token_id key r.remote_ip now client ready
              (described-seen h r.remote_ip now _).0 (described-seen h r.remote_ip now _).1),
      )

  -- A session is registered only for a token in force and a device that is not blocked, and while the
  -- relay is not shutting down: then it stands among the sessions of its token, for the client of the
  -- request's device, whose record has the request's address and the time. A refusal is for one of these
  -- reasons and changes nothing, nor does a control plane without owner.
  pub register_session-RegisterOutcome :
      (token : Token) (r : DeviceRequest) (h : ClientHeaders) (now : Bytes) (clock : ℕ)
      (l : Locations) (c : ControlPlane)
      → RegisterOutcome token r now l c (register_session net go sort token r h now clock l c)
  unfolding register_session device_blocked
  register_session-RegisterOutcome token r h now clock l c =
      let identity = session_identity_details go token r in
      elim (Bool-cases (not (enabled c))) [
        | inl e ↦ rw (register_session, e) (ground (arith, e), refl, refl)
        | inr e ↦ elim (Bool-cases (c.shutting_down || not (client_token_active go c token))) [
          | inl a ↦ rw (register_session, e, a) (refl, refl, ground (arith, a))
          | inr a ↦
              elim (Bool-cases (
                any_blocked c.state.blocked_devices identity.token_id
                  (candidate_device_ids identity))) [
                    | inl b ↦
                        rw (register_session, e, a, b)
                          (refl, refl, inr (inr (rw (device_blocked, e, b) refl)))
                    | inr b ↦
                        rw (register_session, e, a, b)
                          (admit_session-registered token r h now clock l c (ground (arith, a))
                            (ground (arith, a)) (rw (device_blocked, e, b) refl))
                  ]
        ]
      ]
