-- ===== src/Handler.antt =====
-- The handler of a WebSocket request (internal/relay/websocket.go: `handleWebSocket` and its helpers
-- on headers and the query). What the topology, the dial and the connections give is an argument.
pub mod Settled
use tg_proxy_relay.Prelude.{
  ℕ, ◌+◌, ◌^◌, Bool, true, false, not, ◌||◌, ◌&&◌, List, [], ◌∷◌, ◌++◌, leb, ◌==◌, nat_eq, bytes_eq,
  if◌then◌else◌, contains, Bytes, length, Option, none, some,
}
use tg_proxy_relay.Prelude.Maps.{Map, lookup}
use tg_proxy_relay.Prelude.Text.{codes, has_prefix, trim_space}
use tg_proxy_relay.Platform.{Platform}
use tg_proxy_relay.Config.Net.{Net, atoi}
use tg_proxy_relay.Config.Tokens.{Token, stable_token_id}
use tg_proxy_relay.Sessions.{Sessions, reserve, upstream_dial_done, release}
use tg_proxy_relay.Upstreams.Dial.{
  Dialed, dialed, unknown_dc, cooling_down, request_ended, all_failed,
}
use tg_proxy_relay.Control.State.{ControlPlane}
use tg_proxy_relay.Control.Devices.{DeviceRequest, device_blocked}
use tg_proxy_relay.Control.Register.{
  ClientHeaders, Locations, Registration, not_tracked, refused, registered, register_session,
  release_session,
}

-- Headers as they came, and `r.URL.Query()`.
pub record WebSocketRequest : Type 0 where
  pub upgrade : Bytes
  pub connection : Bytes
  pub key : Bytes
  pub version : Bytes
  pub protocol : Bytes
  pub query : Map Bytes (List Bytes)
  pub device : DeviceRequest
  pub headers : ClientHeaders

-- strings.Split with ",": `item` is what has been read of the current piece.
unfoldable pub split_commas : Bytes → Bytes → List Bytes
split_commas item [] = item ∷ []
split_commas item (c ∷ s) =
    let next = split_commas [] s in
    let longer = split_commas (item ++ c ∷ []) s in if c == b',' then item ∷ next else longer

-- strings.Contains
unfoldable pub contains_text : Bytes → Bytes → Bool
contains_text [] part = part == []
contains_text (c ∷ s) part = has_prefix (c ∷ s) part || contains_text s part

module _ (go : Platform) where
  any_folds : List Bytes → Bytes → Bool
  any_folds [] token = false
  any_folds (item ∷ items) token = go.equal_fold (trim_space item) token || any_folds items token

  unfoldable pub header_contains_token : Bytes → Bytes → Bool
  unfolding any_folds
  header_contains_token value token = any_folds (split_commas [] value) token

  unfoldable pub selected_web_socket_subprotocol : WebSocketRequest → Bytes
  selected_web_socket_subprotocol r =
      if header_contains_token r.protocol (codes "tgproxy-relay.v2")
      then codes "tgproxy-relay.v2"
      else if header_contains_token r.protocol (codes "binary")
      then codes "binary"
      else []

  unfoldable pub is_web_socket_upgrade : WebSocketRequest → Bool
  is_web_socket_upgrade r =
      go.equal_fold r.upgrade (codes "websocket")
      && contains_text (go.to_lower r.connection) (codes "upgrade")
      && not (r.key == [])
      && r.version == codes "13"
      && not (selected_web_socket_subprotocol r == [])

-- Whether the error is nil.
unfoldable pub validate_route_query : Map Bytes (List Bytes) → Bool
validate_route_query [] = true
validate_route_query ((key, values) ∷ query) =
    (key == codes "dc" || key == codes "media" || key == codes "test")
    && length values == 1
    && validate_route_query query

-- `Query().Get`
first_value : Option (List Bytes) → Bytes
first_value none = []
first_value (some []) = []
first_value (some (value ∷ _)) = value

unfoldable pub query_get : Map Bytes (List Bytes) → Bytes → Bytes
unfolding first_value
query_get query key = first_value (lookup key query)

-- The route that a request asks for.
pub record RouteRequest : Type 0 where
  pub subprotocol : Bytes
  pub dc : ℕ
  pub test : Bool
  pub media : Bool

-- The data centre of the query: a positive `int`.
dc_of : Option ℕ → Option ℕ
dc_of none = none
dc_of (some dc) = if dc == 0 || leb (2 ^ 63) dc then none else some dc

-- The checks of the request itself; `none` is the status 400.
unfoldable pub route_request : Platform → WebSocketRequest → Option RouteRequest
unfolding dc_of
route_request go r =
    let subprotocol = selected_web_socket_subprotocol go r in
    let media = query_get r.query (codes "media") in
    let test = query_get r.query (codes "test") in
    if subprotocol == [] || not (is_web_socket_upgrade go r)
    then none
    else if not (validate_route_query r.query)
    then none
    else elim (dc_of (atoi (query_get r.query (codes "dc")))) [
      | none ↦ none
      | some dc ↦
          if not (media == codes "0") && not (media == codes "1")
          then none
          else if not (test == []) && not (test == codes "0") && not (test == codes "1")
          then none
          else some (record {
            subprotocol = subprotocol;
            dc = dc;
            test = test == codes "1";
            media = media == codes "1";
          })
    ]

-- What the handler does to its connections: an error answer with its status, the upstream connection
-- and the client's, the upgrade, and handing both connections to the bridge.
pub data Action : Type 0 where
  answers : ℕ → Action
  opens_upstream closes_upstream takes_client closes_client bridges : Action
  upgrades : Bytes → Action

-- What the outside gives: the addresses of `ensure_route`, the dial, the hijacking in its two
-- steps, the flush of the answer, and times.
pub record Outside : Type 0 where
  pub found : RouteRequest → List Bytes
  pub dial : RouteRequest → Dialed
  pub is_hijacker : Bool
  pub hijacks : Bool
  pub flushes : Bool
  pub now : Bytes
  pub clock : ℕ
  pub end_time : Bytes

pub record Handled : Type 0 where
  pub actions : List Action
  pub sessions : Sessions
  pub control : ControlPlane

-- The upgrade and the bridge, or the closing of both connections.
unfoldable pub upgrade_actions : Bool → Bytes → List Action
upgrade_actions true subprotocol = upgrades subprotocol ∷ bridges ∷ []
upgrade_actions false subprotocol = upgrades subprotocol ∷ closes_client ∷ closes_upstream ∷ []

-- From the registration on: the actions, and the control plane at the end.
unfoldable pub serve_registered :
    Outside → Bytes → Registration → ControlPlane → List Action × ControlPlane
serve_registered o subprotocol refused c = (closes_client ∷ closes_upstream ∷ [], c)
serve_registered o subprotocol not_tracked c = (upgrade_actions o.flushes subprotocol, c)
serve_registered o subprotocol (registered token_id id key starts) c =
    (upgrade_actions o.flushes subprotocol, release_session token_id id key o.end_time c)

unfoldable pub is_dialed : Dialed → Bool
is_dialed (dialed _) = true
is_dialed _ = false

module _ (net : Net) (go : Platform) (sort : List (Bytes × Bytes) → List (Bytes × Bytes)) where
  -- From the dial on; the flag says whether it gave a connection.
  unfoldable pub serve_dialed :
      Bool
      → Outside
      → RouteRequest
      → Token
      → WebSocketRequest
      → Locations
      → ControlPlane
      → List Action × ControlPlane
  serve_dialed false o route token r l c = (answers 502 ∷ [], c)
  serve_dialed true o route token r l c =
      let (registration, _, c') =
        register_session net go sort token r.device r.headers o.now o.clock l c in
      let (actions, c'') = serve_registered o route.subprotocol registration c' in
      if not o.is_hijacker
      then (opens_upstream ∷ closes_upstream ∷ answers 500 ∷ [], c)
      else if not o.hijacks
      then (opens_upstream ∷ closes_upstream ∷ [], c)
      else (opens_upstream ∷ takes_client ∷ actions, c'')

  unfoldable pub handle_web_socket :
      Outside → Token → WebSocketRequest → Locations → Sessions → ControlPlane → Handled
  unfolding is_dialed
  handle_web_socket o token r l s c =
      let answered : ℕ → Handled =
        λ status. record { actions = answers status ∷ []; sessions = s; control = c } in
      elim (route_request go r) [
        | none ↦ answered 400
        | some route ↦
            if device_blocked go c token r.device
            then answered 403
            else if length (o.found route) == 0
            then answered 400
            else (let (reservation, status, s') = reserve (stable_token_id go token) s in
                elim reservation [
                  | none ↦ record { actions = answers status ∷ []; sessions = s'; control = c }
                  | some i ↦
                      let (actions, c') =
                        serve_dialed (is_dialed (o.dial route)) o route token r l c in
                      record {
                        actions = actions;
                        sessions = release i (upstream_dial_done i s');
                        control = c';
                      }
                ])
      ]
