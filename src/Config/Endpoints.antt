-- ===== src/Config/Endpoints.antt =====
-- The addresses of a route (internal/config/config.go: `TelegramEndpoint`, `TelegramConfig`,
-- `AddressForDC`, `AddressForRoute`, `AddressesForRoute`, `normalizeTelegramAddress`,
-- `ValidInstanceID`; internal/relay/topology_manager.go: `addresses`). A data centre is a natural
-- number.
use tg_proxy_relay.Prelude.{
  ℕ, Bool, true, false, not, ◌||◌, ◌&&◌, List, [], ◌∷◌, ◌++◌, ltb, leb, ◌==◌, nat_eq, bytes_eq,
  if◌then◌else◌, contains, Bytes, length, Option, none, some,
}
use tg_proxy_relay.Prelude.Maps.{Map, lookup}
use tg_proxy_relay.Prelude.Text.{codes, has_prefix, trim_prefix, trim_space}
use tg_proxy_relay.Platform.{Platform}
use tg_proxy_relay.Config.Tokens.{all_bytes}
use tg_proxy_relay.Config.Net.{Net, trim_brackets}

pub record TelegramEndpoint : Type 0 where
  pub address : Bytes
  pub role : Bytes
  pub static : Bool
  pub this_port_only : Bool
  pub tcpo_only : Bool
  pub secret : Bytes

-- The maps of routes; the timeouts and the topology's source are left out.
pub record TelegramConfig : Type 0 where
  pub dc_map : Map ℕ Bytes
  pub test_dc_map : Map ℕ Bytes
  pub dc_options : Map ℕ (List TelegramEndpoint)
  pub test_dc_options : Map ℕ (List TelegramEndpoint)

-- A value that a map does not have is the empty one.
unfoldable pub text_at : Option Bytes → Bytes
text_at none = []
text_at (some text) = text

unfoldable pub endpoints_at : Option (List TelegramEndpoint) → List TelegramEndpoint
endpoints_at none = []
endpoints_at (some endpoints) = endpoints

module _ (net : Net) where
  open net use {parse_ip, ip_string, split_host_port, join_host_port}

  unfoldable pub normalize_telegram_address : Bytes → Bytes
  normalize_telegram_address value =
      let raw = trim_space value in
      if raw == [] then [] else elim (parse_ip (trim_brackets raw)) [
        | some ip ↦ join_host_port (ip_string ip) (codes "443")
        | none ↦ elim (split_host_port raw) [
          | some (host, port) ↦
              if host == [] || port == [] then [] else join_host_port (trim_brackets host) port
          | none ↦ if contains raw b':' then [] else join_host_port raw (codes "443")
        ]
      ]

  unfoldable pub address_for_dc : TelegramConfig → ℕ → Bytes
  unfolding text_at
  address_for_dc t dc = normalize_telegram_address (trim_space (text_at (lookup dc t.dc_map)))

  module _ (go : Platform) where
    -- The role of an endpoint, `regular` by default.
    unfoldable pub role_of : TelegramEndpoint → Bytes
    role_of endpoint =
        let role = go.to_lower (trim_space endpoint.role) in
        if role == [] then codes "regular" else role

    -- `appendRole`: the loop over the options.
    unfoldable pub append_role : Bytes → List TelegramEndpoint → List Bytes → List Bytes
    append_role role [] result = result
    append_role role (endpoint ∷ options) result =
        let address = normalize_telegram_address endpoint.address in
        append_role role options (
          if role_of endpoint == role && not (address == []) && not (contains result address)
          then result ++ address ∷ []
          else result)

    unfoldable pub by_roles : Bool → List TelegramEndpoint → List Bytes
    by_roles true options =
        append_role (codes "regular") options
          (append_role (codes "cdn") options (append_role (codes "media") options []))
    by_roles false options =
        append_role (codes "cdn") options (append_role (codes "regular") options [])

    -- The legacy address when no option gives one.
    unfoldable pub or_legacy : Bytes → List Bytes → List Bytes
    or_legacy legacy (a ∷ result) = a ∷ result
    or_legacy legacy [] =
        let address = normalize_telegram_address legacy in
        if address == [] then [] else address ∷ []

    unfoldable pub addresses_for_route : TelegramConfig → ℕ → Bool → Bool → List Bytes
    unfolding or_legacy text_at endpoints_at
    addresses_for_route t dc test media =
        if test
        then or_legacy (text_at (lookup dc t.test_dc_map))
            (by_roles media (endpoints_at (lookup dc t.test_dc_options)))
        else or_legacy (text_at (lookup dc t.dc_map))
            (by_roles media (endpoints_at (lookup dc t.dc_options)))

    first_of : List Bytes → Bytes
    first_of [] = []
    first_of (a ∷ _) = a

    unfoldable pub address_for_route : TelegramConfig → ℕ → Bool → Bytes
    unfolding first_of
    address_for_route t dc test = first_of (addresses_for_route t dc test false)

    -- The snapshot's production and test routes, when the manager has one.
    unfoldable pub topology_addresses :
        Option (Map ℕ (List TelegramEndpoint) × Map ℕ (List TelegramEndpoint))
        → TelegramConfig
        → ℕ
        → Bool
        → Bool
        → List Bytes
    unfolding endpoints_at
    topology_addresses none base dc test media = addresses_for_route base dc test media
    topology_addresses (some (production, tests)) base dc test media =
        let isolated : Map ℕ (List TelegramEndpoint) =
          (dc, endpoints_at (lookup dc (if test then tests else production))) ∷ [] in
        addresses_for_route
          (if test
            then record {
              dc_map = [];
              test_dc_map = [];
              dc_options = [];
              test_dc_options = isolated;
            }
            else record {
              dc_map = [];
              test_dc_map = [];
              dc_options = isolated;
              test_dc_options = [];
            })
          dc test media

is_lower_hex : ℕ → Bool
is_lower_hex ch = (leb b'0' ch && leb ch b'9') || (leb b'a' ch && leb ch b'f')

unfoldable pub valid_instance_id : Bytes → Bool
unfolding is_lower_hex
valid_instance_id value =
    let clean = trim_space value in
    let hex_part = trim_prefix clean (codes "ri_") in
    if not (has_prefix clean (codes "ri_"))
    then false
    else if ltb (length hex_part) 32 || ltb 64 (length hex_part)
    then false
    else all_bytes is_lower_hex hex_part
