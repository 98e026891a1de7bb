-- ===== src/Tests/Handler.antt =====
-- A run and a witness for the handler of WebSocket requests.
use tg_proxy_relay.Prelude.{◌≡◌, ◌⊎◌, refl, true, false, [], ◌∷◌, some, count_if}
use tg_proxy_relay.Prelude.Text.{codes, trim_space, has_prefix}
use tg_proxy_relay.Prelude.Maps.{lookup}
use tg_proxy_relay.Config.Net.{atoi}
use tg_proxy_relay.Sessions.{new_session_limiter}
use tg_proxy_relay.Sessions.Undone.{SameCounters}
use tg_proxy_relay.Upstreams.Dial.{dialed}
use tg_proxy_relay.Handler.{
  WebSocketRequest, Outside, Handled, handle_web_socket, split_commas, route_request,
  selected_web_socket_subprotocol, header_contains_token, is_web_socket_upgrade, contains_text,
  validate_route_query, query_get,
}
use tg_proxy_relay.Handler.Settled.{IsSettled, IsAllowed, bridging, handle_web_socket-IsSettled}
use tg_proxy_relay.Tests.Sample.{sample_go, sample_token, sample_plane}
use tg_proxy_relay.Tests.Register.{
  public_net, kept_order, new_device, sample_headers, no_locations, sample_now,
}

abbrev socket_request : WebSocketRequest
socket_request = record {
  upgrade = codes "websocket";
  connection = codes "keep-alive, upgrade";
  key = codes "k";
  version = codes "13";
  protocol = codes "chat, binary";
  query = (codes "dc", codes "2" ∷ []) ∷ (codes "media", codes "1" ∷ []) ∷ [];
  device = new_device;
  headers = sample_headers;
}

abbrev sample_outside : Outside
sample_outside = record {
  found = λ route. (codes "8.8.8.8:443" ∷ []);
  dial = λ route. dialed (codes "8.8.8.8:443");
  is_hijacker = true;
  hijacks = true;
  flushes = true;
  now = sample_now;
  clock = 0;
  end_time = sample_now;
}

split_commas_runs : split_commas [] (codes "a,b,") ≡ codes "a" ∷ codes "b" ∷ [] ∷ []
unfolding split_commas
split_commas_runs = refl

abbrev sample_handled : Handled
sample_handled =
    handle_web_socket public_net sample_go kept_order sample_outside sample_token socket_request
      no_locations new_session_limiter sample_plane

socket_request_runs :
    route_request sample_go socket_request
    ≡ some (record { subprotocol = codes "binary"; dc = 2; test = false; media = true })
unfolding route_request selected_web_socket_subprotocol header_contains_token split_commas
    trim_space is_web_socket_upgrade contains_text has_prefix validate_route_query atoi query_get
    lookup
socket_request_runs = refl

handle_web_socket-IsSettled_example :
    IsSettled sample_handled.actions
    × SameCounters new_session_limiter sample_handled.sessions
    × ((count_if bridging sample_handled.actions ≡ 0)
        ⊎ IsAllowed public_net sample_go kept_order sample_outside sample_token socket_request
            no_locations new_session_limiter sample_plane)
handle_web_socket-IsSettled_example =
    handle_web_socket-IsSettled public_net sample_go kept_order sample_outside sample_token
      socket_request no_locations new_session_limiter sample_plane
