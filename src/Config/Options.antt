-- ===== src/Config/Options.antt =====
-- Which routes a configuration or a topology may hold (internal/config/config.go: `validateDCMap`,
-- `ValidateTelegramDCOptions`). The number of a data centre is a natural number.
use tg_proxy_relay.Prelude.{
  ℕ, ◌+◌, ◌*◌, Bool, not, ◌||◌, ◌&&◌, List, [], ◌∷◌, ◌++◌, ltb, ◌==◌, nat_eq, bytes_eq,
  if◌then◌else◌, contains, Bytes, length, Option, none, some,
}
use tg_proxy_relay.Prelude.Maps.{Map}
use tg_proxy_relay.Prelude.Text.{codes, trim_space}
use tg_proxy_relay.Platform.{Platform}
use tg_proxy_relay.Config.Net.{Net, validate_telegram_address}
use tg_proxy_relay.Config.Endpoints.{
  TelegramConfig, TelegramEndpoint, normalize_telegram_address, role_of,
}

abbrev pub max_telegram_dcs : ℕ
max_telegram_dcs = 32

abbrev pub max_endpoints_per_dc : ℕ
max_endpoints_per_dc = 32

abbrev pub max_telegram_endpoints : ℕ
max_telegram_endpoints = max_telegram_dcs * max_endpoints_per_dc

pub data OptionsError : Type 0 where
  too_many_routes invalid_route invalid_role secret_not_supported : OptionsError
  invalid_address duplicated too_many_endpoints no_bootstrap_route : OptionsError

-- The number of a data centre that is out of range.
unfoldable pub invalid_dc : ℕ → Bool
invalid_dc dc = dc == 0 || ltb 32767 dc

module _ (net : Net) where
  unfoldable pub validate_dc_map_from : Map ℕ Bytes → Option OptionsError
  unfolding invalid_dc
  validate_dc_map_from [] = none
  validate_dc_map_from ((dc, host) ∷ routes) =
      let later = validate_dc_map_from routes in
      if invalid_dc dc || trim_space host == []
      then some invalid_route
      else if not (validate_telegram_address net (normalize_telegram_address net host))
      then some invalid_address
      else later

  -- `none` is Go's nil error.
  unfoldable pub validate_dc_map : Map ℕ Bytes → Option OptionsError
  unfolding validate_dc_map_from
  validate_dc_map routes =
      if ltb max_telegram_dcs (length routes)
      then some too_many_routes
      else validate_dc_map_from routes

  module _ (go : Platform) where
    -- The checks of one endpoint, before the one against the endpoints in front of it.
    unfoldable pub validate_endpoint : TelegramEndpoint → Option OptionsError
    validate_endpoint endpoint =
        let role = go.to_lower (trim_space endpoint.role) in
        if not (role == [])
          && not (role == codes "regular")
          && not (role == codes "media")
          && not (role == codes "cdn")
        then some invalid_role
        else if not (endpoint.secret == [])
        then some secret_not_supported
        else if not
            (validate_telegram_address net (normalize_telegram_address net endpoint.address))
        then some invalid_address
        else none

    unfoldable pub endpoint_key : TelegramEndpoint → Bytes
    endpoint_key endpoint =
        role_of net go endpoint ++ codes "|" ++ normalize_telegram_address net endpoint.address

    unfoldable pub validate_endpoints : List Bytes → List TelegramEndpoint → Option OptionsError
    validate_endpoints seen [] = none
    validate_endpoints seen (endpoint ∷ endpoints) =
        let key = endpoint_key endpoint in
        let later = validate_endpoints (key ∷ seen) endpoints in
        elim (validate_endpoint endpoint) [
          | some e ↦ some e
          | none ↦ if contains seen key then some duplicated else later
        ]

    -- The loop over the routes, with the number of endpoints so far.
    unfoldable pub validate_routes : ℕ → Map ℕ (List TelegramEndpoint) → Option OptionsError
    validate_routes total [] =
        if ltb max_telegram_endpoints total then some too_many_endpoints else none
    validate_routes total ((dc, endpoints) ∷ routes) =
        let later = validate_routes (total + length endpoints) routes in
        if invalid_dc dc || length endpoints == 0 || ltb max_endpoints_per_dc (length endpoints)
        then some invalid_route
        else elim (validate_endpoints [] endpoints) [ some e ↦ some e | none ↦ later ]

    unfoldable pub validate_telegram_dc_options :
        Map ℕ (List TelegramEndpoint) → Option OptionsError
    validate_telegram_dc_options routes =
        if ltb max_telegram_dcs (length routes)
        then some too_many_routes
        else validate_routes 0 routes

    -- The checks of the routes in `Validate`, in its order.
    unfoldable pub validate_telegram : TelegramConfig → Option OptionsError
    validate_telegram t = elim (validate_dc_map t.dc_map) [
      | some e ↦ some e
      | none ↦ elim (validate_dc_map t.test_dc_map) [
        | some e ↦ some e
        | none ↦ elim (validate_telegram_dc_options t.dc_options) [
          | some e ↦ some e
          | none ↦ elim (validate_telegram_dc_options t.test_dc_options) [
            | some e ↦ some e
            | none ↦
                if length t.dc_map == 0 && length t.dc_options == 0
                then some no_bootstrap_route
                else none
          ]
        ]
      ]
    ]
