-- ===== src/Handler/Settled.antt =====
-- What a request leaves behind, and when it reaches the bridge (internal/relay/websocket.go:
-- `handleWebSocket`).
use tg_proxy_relay.Prelude.{
  ℕ, ◌+◌, ◌≤◌, ◌≡◌, ◌≢◌, ◌⊎◌, inl, inr, refl, sym, subst, Bool, true, false, List, [], ◌∷◌, ◌==◌,
  nat_eq, bytes_eq, Bytes, length, some, Bool-cases, Option-cases, arith, count_if,
}
use tg_proxy_relay.Platform.{Platform}
use tg_proxy_relay.Config.Net.{Net}
use tg_proxy_relay.Config.Tokens.{Token, stable_token_id}
use tg_proxy_relay.Sessions.{Sessions, reserve}
use tg_proxy_relay.Sessions.Undone.{SameCounters, reserve-SameCounters}
use tg_proxy_relay.Control.State.{ControlPlane}
use tg_proxy_relay.Control.Devices.{device_blocked}
use tg_proxy_relay.Control.Register.{
  Locations, Registration, not_tracked, refused, registered, register_session,
}
use tg_proxy_relay.Handler.{
  WebSocketRequest, RouteRequest, route_request, Action, answers, opens_upstream, closes_upstream,
  takes_client, closes_client, bridges, Outside, upgrade_actions, serve_registered, is_dialed,
  serve_dialed, handle_web_socket,
}

-- How many actions of a kind there are.
abbrev pub Kind : Type 0
Kind = Action → Bool

abbrev pub answering : Kind
answering a = elim a [ answers _ ↦ true | _ ↦ false ]

abbrev pub opening_upstream : Kind
opening_upstream a = elim a [ opens_upstream ↦ true | _ ↦ false ]

abbrev pub closing_upstream : Kind
closing_upstream a = elim a [ closes_upstream ↦ true | _ ↦ false ]

abbrev pub taking_client : Kind
taking_client a = elim a [ takes_client ↦ true | _ ↦ false ]

abbrev pub closing_client : Kind
closing_client a = elim a [ closes_client ↦ true | _ ↦ false ]

abbrev pub bridging : Kind
bridging a = elim a [ bridges ↦ true | _ ↦ false ]

-- Every connection is closed or handed to the bridge, and the request is answered by an error or taken over, not
-- both.
pub record IsSettled (actions : List Action) : Type 0 where
  pub upstream :
      count_if closing_upstream actions + count_if bridging actions
      ≡ count_if opening_upstream actions
  pub client :
      count_if closing_client actions + count_if bridging actions ≡ count_if taking_client actions
  pub one_end : count_if answering actions + count_if taking_client actions ≤ 1

Registration-cases : (x : Registration) → (x ≡ refused) ⊎ (x ≢ refused)
Registration-cases refused = inl refl
Registration-cases not_tracked = inr (λ e. cc)
Registration-cases (registered t id key starts) = inr (λ e. cc)

module _ (net : Net) (go : Platform) (sort : List (Bytes × Bytes) → List (Bytes × Bytes)) where
  registered-IsSettled :
      (o : Outside) (subprotocol : Bytes) (registration : Registration) (c : ControlPlane)
      → IsSettled
          (opens_upstream ∷ takes_client ∷ (serve_registered o subprotocol registration c).0)
  unfolding serve_registered upgrade_actions
  registered-IsSettled o subprotocol refused c = record {
    upstream = refl;
    client = refl;
    one_end = omega arith;
  }
  registered-IsSettled o subprotocol not_tracked c = elim (Bool-cases o.flushes) [
    | inl f ↦
        rw (upgrade_actions, f) (record { upstream = refl; client = refl; one_end = omega arith })
    | inr f ↦
        rw (upgrade_actions, f) (record { upstream = refl; client = refl; one_end = omega arith })
  ]
  registered-IsSettled o subprotocol (registered t id key starts) c = elim (Bool-cases o.flushes) [
    | inl f ↦
        rw (upgrade_actions, f) (record { upstream = refl; client = refl; one_end = omega arith })
    | inr f ↦
        rw (upgrade_actions, f) (record { upstream = refl; client = refl; one_end = omega arith })
  ]

  dialed-IsSettled :
      (dialed : Bool) (o : Outside) (route : RouteRequest) (token : Token) (r : WebSocketRequest)
      (l : Locations) (c : ControlPlane)
      → IsSettled ((serve_dialed net go sort dialed o route token r l c).0)
  unfolding serve_dialed
  dialed-IsSettled false o route token r l c = record {
    upstream = refl;
    client = refl;
    one_end = omega arith;
  }
  dialed-IsSettled true o route token r l c = elim (Bool-cases o.is_hijacker) [
    | inr h ↦
        rw (serve_dialed, h) (record { upstream = refl; client = refl; one_end = omega arith })
    | inl h ↦ elim (Bool-cases o.hijacks) [
      | inr k ↦
          rw (serve_dialed, h, k) (record { upstream = refl; client = refl; one_end = omega arith })
      | inl k ↦ rw (serve_dialed, h, k) (registered-IsSettled _ route.subprotocol _ _)
    ]
  ]

  -- What must hold before a request reaches the bridge.
  pub record IsAllowed (o : Outside) (token : Token) (r : WebSocketRequest) (l : Locations)
      (s : Sessions) (c : ControlPlane) : Type 0 where
    pub route : RouteRequest
    pub asks_for_route : route_request go r ≡ some route
    pub is_not_blocked : device_blocked go c token r.device ≡ false
    pub has_addresses : (length (o.found route) == 0) ≡ false
    pub reservation : ℕ
    pub is_reserved : (reserve (stable_token_id go token) s).0 ≡ some reservation
    pub is_connected : is_dialed (o.dial route) ≡ true
    pub is_registered :
        (register_session net go sort token r.device r.headers o.now o.clock l c).0 ≢ refused

  handled-IsSettled :
      (o : Outside) (token : Token) (r : WebSocketRequest) (l : Locations) (s : Sessions)
      (c : ControlPlane)
      → IsSettled ((handle_web_socket net go sort o token r l s c).actions)
        × SameCounters s ((handle_web_socket net go sort o token r l s c).sessions)
  unfolding handle_web_socket
  handled-IsSettled o token r l s c = elim (Option-cases (route_request go r)) [
    | inl e ↦ rw (handle_web_socket, e) answered
    | inr (route, e) ↦ elim (Bool-cases (device_blocked go c token r.device)) [
      | inl b ↦ rw (handle_web_socket, e, b) answered
      | inr b ↦ elim (Bool-cases (length (o.found route) == 0)) [
        | inl n ↦ rw (handle_web_socket, e, b, n) answered
        | inr n ↦
            let (reservation, status, s') = reserve (stable_token_id go token) s in
            elim (reserve-SameCounters (stable_token_id go token) s s' reservation status refl) [
              | inl (f, same) ↦
                  rw (handle_web_socket, e, b, n, f)
                    (
                      record { upstream = refl; client = refl; one_end = omega arith },
                      subst (SameCounters s) (sym same) unchanged,
                    )
              | inr (i, f, same) ↦
                  rw (handle_web_socket, e, b, n, f) (dialed-IsSettled _ o route token r l c, same)
            ]
      ]
    ]
  ]
    where
      unchanged : SameCounters s s
      unchanged = record { active = refl; pending = refl; by_token = λ t. refl }

      answered : {status : ℕ} → IsSettled (answers status ∷ []) × SameCounters s s
      answered = (record { upstream = refl; client = refl; one_end = omega arith }, unchanged)

  dialed_allowed :
      (dialed : Bool) (o : Outside) (route : RouteRequest) (token : Token) (r : WebSocketRequest)
      (l : Locations) (c : ControlPlane)
      → (count_if bridging ((serve_dialed net go sort dialed o route token r l c).0) ≡ 0)
        ⊎ (dialed ≡ true)
          × ((register_session net go sort token r.device r.headers o.now o.clock l c).0 ≢ refused)
  unfolding serve_dialed serve_registered
  dialed_allowed false o route token r l c = inl refl
  dialed_allowed true o route token r l c =
      elim (Registration-cases
        (register_session net go sort token r.device r.headers o.now o.clock l c).0) [
          | inr n ↦ inr (refl, n)
          | inl n ↦ elim (Bool-cases o.is_hijacker) [
            | inr h ↦ inl (rw (serve_dialed, h) refl)
            | inl h ↦ elim (Bool-cases o.hijacks) [
              | inr k ↦ inl (rw (serve_dialed, h, k) refl)
              | inl k ↦ inl (rw (serve_dialed, h, k, n) refl)
            ]
          ]
        ]

  handled-IsAllowed :
      (o : Outside) (token : Token) (r : WebSocketRequest) (l : Locations) (s : Sessions)
      (c : ControlPlane)
      → (count_if bridging ((handle_web_socket net go sort o token r l s c).actions) ≡ 0)
        ⊎ IsAllowed o token r l s c
  unfolding handle_web_socket
  handled-IsAllowed o token r l s c = elim (Option-cases (route_request go r)) [
    | inl e ↦ inl (rw (handle_web_socket, e) refl)
    | inr (route, e) ↦ elim (Bool-cases (device_blocked go c token r.device)) [
      | inl b ↦ inl (rw (handle_web_socket, e, b) refl)
      | inr b ↦ elim (Bool-cases (length (o.found route) == 0)) [
        | inl n ↦ inl (rw (handle_web_socket, e, b, n) refl)
        | inr n ↦ elim (Option-cases (reserve (stable_token_id go token) s).0) [
          | inl f ↦ inl (rw (handle_web_socket, e, b, n, f) refl)
          | inr (i, f) ↦ elim (dialed_allowed (is_dialed (o.dial route)) o route token r l c) [
            | inl z ↦ inl (rw (handle_web_socket, e, b, n, f) z)
            | inr (d, g) ↦ inr (record {
              route = route;
              asks_for_route = e;
              is_not_blocked = b;
              has_addresses = n;
              reservation = i;
              is_reserved = f;
              is_connected = d;
              is_registered = g;
            })
          ]
        ]
      ]
    ]
  ]

  pub handle_web_socket-IsSettled :
      (o : Outside) (token : Token) (r : WebSocketRequest) (l : Locations) (s : Sessions)
      (c : ControlPlane)
      → IsSettled ((handle_web_socket net go sort o token r l s c).actions)
        × SameCounters s ((handle_web_socket net go sort o token r l s c).sessions)
        × ((count_if bridging ((handle_web_socket net go sort o token r l s c).actions) ≡ 0)
            ⊎ IsAllowed o token r l s c)
  handle_web_socket-IsSettled o token r l s c =
      let (settled, same) = handled-IsSettled o token r l s c in
      (settled, same, handled-IsAllowed o token r l s c)
