-- ===== src/Config/Public.antt =====
-- Only public addresses are dialled (internal/config/config.go: `Validate` with `AddressesForRoute`;
-- internal/relay/topology_manager.go: `addresses`).
use tg_proxy_relay.Prelude.{
  ℕ, ◌≤◌, ◌≡◌, inl, inr, refl, sym, ap, ◌∙◌, subst, Bool, true, false, List, [], ◌∷◌, ltb, ◌==◌,
  nat_eq, bytes_eq, Bytes, none, some, Bool-cases, Option-cases, arith, All, Elem, All-map,
  Elem-All, ◌||◌, length,
}
use mathlib.Core.Option.{some-injective}
use tg_proxy_relay.Prelude.Maps.{Map, lookup}
use tg_proxy_relay.Prelude.Text.{trim_space}
use tg_proxy_relay.Platform.{Platform}
use tg_proxy_relay.Config.Net.{
  Ip, Net, is_safe_telegram_ip, trim_brackets, atoi, valid_port, validate_telegram_address,
}
use tg_proxy_relay.Config.Endpoints.{
  TelegramEndpoint, TelegramConfig, normalize_telegram_address, addresses_for_route, text_at,
  endpoints_at,
}
use tg_proxy_relay.Config.Options.{
  invalid_dc, validate_dc_map_from, validate_dc_map, validate_telegram,
  validate_telegram_dc_options, max_telegram_dcs,
}
use tg_proxy_relay.Config.Accepted.{IsOption, IsValidRoute, validate_telegram_dc_options_iff}
use tg_proxy_relay.Config.Routes.{IsRoute, IsSource, addresses_for_route-IsRoute}

lookup-Elem :
    {V : Type 0} (dc : ℕ) (value : V) (routes : Map ℕ V)
    → lookup dc routes ≡ some value
    → (key : ℕ) × Elem (key, value) routes
unfolding lookup
lookup-Elem dc value [] = λ h. absurd cc
lookup-Elem dc value ((key, first) ∷ routes) = elim (Bool-cases (key == dc)) [
  | inl e ↦ rw (lookup, e) (λ h. (key, inl (ap (λ v. (key, v)) (some-injective _ _ (sym h)))))
  | inr e ↦ rw (lookup, e) (λ h. let (k, m) = lookup-Elem dc value routes h in (k, inr m))
]

module _ (net : Net) where
  open net use {parse_ip, split_host_port}

  -- The text of a public IP address and of a port.
  pub record IsPublic (address : Bytes) : Type 0 where
    pub ip : Ip
    pub host : Bytes
    pub port_text : Bytes
    pub port : ℕ
    pub splits : split_host_port (trim_space address) ≡ some (host, port_text)
    pub parses : parse_ip (trim_brackets host) ≡ some ip
    pub is_safe : is_safe_telegram_ip (some ip) ≡ true
    pub is_number : atoi port_text ≡ some port
    pub in_range : (1 ≤ port) × (port ≤ 65535)

  validate_telegram_address-IsPublic :
      (address : Bytes) → validate_telegram_address net address ≡ true → IsPublic address
  unfolding validate_telegram_address valid_port is_safe_telegram_ip
  validate_telegram_address-IsPublic address =
      elim (Option-cases (split_host_port (trim_space address))) [
        | inl s ↦ rw (validate_telegram_address, s) (λ h. absurd cc)
        | inr ((host, port_text), s) ↦ elim (Option-cases (parse_ip (trim_brackets host))) [
          | inl p ↦ rw (validate_telegram_address, s, p) (λ h. absurd cc)
          | inr (ip, p) ↦ elim (Bool-cases (is_safe_telegram_ip (some ip))) [
            | inr f ↦ rw (validate_telegram_address, s, p, f) (λ h. absurd cc)
            | inl f ↦ elim (Option-cases (atoi port_text)) [
              | inl n ↦ rw (validate_telegram_address, s, p, f, n) (λ h. absurd cc)
              | inr (port, n) ↦
                  rw (validate_telegram_address, s, p, f, n)
                    (λ h. record {
                      ip = ip;
                      host = host;
                      port_text = port_text;
                      port = port;
                      splits = s;
                      parses = p;
                      is_safe = f;
                      is_number = n;
                      in_range = ground (arith, h);
                    })
            ]
          ]
        ]
      ]

  -- A host of a map of addresses is not blank and its normal form is valid.
  abbrev IsValidHost : ℕ × Bytes → Type 0
  IsValidHost route = validate_telegram_address net (normalize_telegram_address net route.1) ≡ true

  dc_map_from_sound :
      (routes : Map ℕ Bytes) → validate_dc_map_from net routes ≡ none → All IsValidHost routes
  unfolding validate_dc_map_from
  dc_map_from_sound [] = λ h. tt
  dc_map_from_sound ((dc, host) ∷ routes) =
      elim (Bool-cases (invalid_dc dc || trim_space host == [])) [
        | inl t ↦ rw (validate_dc_map_from, t) (λ h. absurd cc)
        | inr t ↦
            elim (Bool-cases
              (validate_telegram_address net (normalize_telegram_address net host))) [
                | inr v ↦ rw (validate_dc_map_from, t, v) (λ h. absurd cc)
                | inl v ↦ rw (validate_dc_map_from, t, v) (λ h. (refl, dc_map_from_sound routes h))
              ]
      ]

  dc_map_sound : (routes : Map ℕ Bytes) → validate_dc_map net routes ≡ none → All IsValidHost routes
  unfolding validate_dc_map
  dc_map_sound routes = elim (Bool-cases (ltb max_telegram_dcs (length routes))) [
    | inl e ↦ rw (validate_dc_map, e) (λ h. absurd cc)
    | inr e ↦ rw (validate_dc_map, e) (λ h. dc_map_from_sound routes h)
  ]

  normalize_empty : normalize_telegram_address net [] ≡ []
  unfolding normalize_telegram_address trim_space
  normalize_empty = refl

  module _ (go : Platform) where
    -- Every endpoint of a route is an option.
    abbrev pub HasOptions : ℕ × List TelegramEndpoint → Type 0
    HasOptions route = All (IsOption net go) route.1

    pub IsValidRoute-HasOptions :
        (routes : Map ℕ (List TelegramEndpoint))
        → All (IsValidRoute net go) routes
        → All HasOptions routes
    IsValidRoute-HasOptions routes v =
        All-map (IsValidRoute net go) HasOptions (λ route r. r.are_options) routes v

    pub endpoints_at-HasOptions :
        (routes : Map ℕ (List TelegramEndpoint)) (dc : ℕ)
        → All HasOptions routes
        → All (IsOption net go) (endpoints_at (lookup dc routes))
    unfolding endpoints_at
    endpoints_at-HasOptions routes dc v = elim (Option-cases (lookup dc routes)) [
      | inl n ↦ rw n tt
      | inr (endpoints, f) ↦ rw f (
          let (key, place) = lookup-Elem dc endpoints routes f in
          Elem-All HasOptions (key, endpoints) routes v place)
    ]

    options-IsPublic :
        (routes : Map ℕ (List TelegramEndpoint)) (dc : ℕ) (e : TelegramEndpoint)
        → All HasOptions routes
        → Elem e (endpoints_at (lookup dc routes))
        → IsPublic (normalize_telegram_address net e.address)
    options-IsPublic routes dc e v m =
        validate_telegram_address-IsPublic _
          (Elem-All (IsOption net go) e (endpoints_at (lookup dc routes))
            (endpoints_at-HasOptions routes dc v) m).is_valid

    legacy-IsPublic :
        (routes : Map ℕ Bytes) (dc : ℕ) (a : Bytes)
        → All IsValidHost routes
        → (a == []) ≡ false
        → a ≡ normalize_telegram_address net (text_at (lookup dc routes))
        → IsPublic a
    unfolding text_at
    legacy-IsPublic routes dc a v n = elim (Option-cases (lookup dc routes)) [
      | inl f ↦ rw f (λ e. absurd (ground (arith, n, ap (λ s. s == []) (e ∙ normalize_empty))))
      | inr (host, f) ↦ rw f (λ e.
          let (key, place) = lookup-Elem dc host routes f in
          subst IsPublic (sym e) (
            validate_telegram_address-IsPublic _ (Elem-All IsValidHost (key, host) routes v place)))
    ]

    -- What the options and the map of addresses of a network give.
    IsRoute-IsPublic :
        (media : Bool) (dc : ℕ) (options : Map ℕ (List TelegramEndpoint)) (legacy : Map ℕ Bytes)
        (addresses : List Bytes)
        → All HasOptions options
        → All IsValidHost legacy
        → IsRoute
            (IsSource net go media (endpoints_at (lookup dc options)) (text_at (lookup dc legacy)))
            addresses
        → All IsPublic addresses
    IsRoute-IsPublic media dc options legacy [] o l r = tt
    IsRoute-IsPublic media dc options legacy (a ∷ addresses) o l r = (
      elim r.are_allowed.0 [
        | inl (e, m, s, p) ↦ subst IsPublic (sym p) (options-IsPublic options dc e o m)
        | inr p ↦ legacy-IsPublic legacy dc a l r.has_no_empty.0 p
      ],
      IsRoute-IsPublic media dc options legacy addresses o l (record {
        has_no_repeat = r.has_no_repeat.1;
        has_no_empty = r.has_no_empty.1;
        are_allowed = r.are_allowed.1;
      }),
    )

    pub record HasValidRoutes (t : TelegramConfig) : Type 0 where
      pub production_map : All IsValidHost t.dc_map
      pub tests_map : All IsValidHost t.test_dc_map
      pub production : All HasOptions t.dc_options
      pub tests : All HasOptions t.test_dc_options

    pub HasValidRoutes-IsPublic :
        (t : TelegramConfig) (dc : ℕ) (test media : Bool)
        → HasValidRoutes t
        → All IsPublic (addresses_for_route net go t dc test media)
    HasValidRoutes-IsPublic t dc true media v =
        IsRoute-IsPublic media dc t.test_dc_options t.test_dc_map _ v.tests v.tests_map
          (addresses_for_route-IsRoute net go t dc true media)
    HasValidRoutes-IsPublic t dc false media v =
        IsRoute-IsPublic media dc t.dc_options t.dc_map _ v.production v.production_map
          (addresses_for_route-IsRoute net go t dc false media)

    pub validate_telegram-HasValidRoutes :
        (t : TelegramConfig) → validate_telegram net go t ≡ none → HasValidRoutes t
    unfolding validate_telegram
    validate_telegram-HasValidRoutes t = elim (Option-cases (validate_dc_map net t.dc_map)) [
      | inr (e, m) ↦ rw (validate_telegram, m) (λ h. absurd cc)
      | inl m ↦ elim (Option-cases (validate_dc_map net t.test_dc_map)) [
        | inr (e, k) ↦ rw (validate_telegram, m, k) (λ h. absurd cc)
        | inl k ↦ elim (Option-cases (validate_telegram_dc_options net go t.dc_options)) [
          | inr (e, o) ↦ rw (validate_telegram, m, k, o) (λ h. absurd cc)
          | inl o ↦ elim (Option-cases (validate_telegram_dc_options net go t.test_dc_options)) [
            | inr (e, p) ↦ rw (validate_telegram, m, k, o, p) (λ h. absurd cc)
            | inl p ↦ λ h. record {
              production_map = dc_map_sound t.dc_map m;
              tests_map = dc_map_sound t.test_dc_map k;
              production =
                  IsValidRoute-HasOptions t.dc_options
                    ((validate_telegram_dc_options_iff net go t.dc_options).0 o).1;
              tests =
                  IsValidRoute-HasOptions t.test_dc_options
                    ((validate_telegram_dc_options_iff net go t.test_dc_options).0 p).1;
            }
          ]
        ]
      ]
    ]

    -- When the checks of the routes accept a configuration, every address of every route of it,
    -- production or test, media or not, is the text of a public IP address and of a port from 1 to
    -- 65535.
    pub validate_telegram-addresses_for_route :
        (t : TelegramConfig) (dc : ℕ) (test media : Bool)
        → validate_telegram net go t ≡ none
        → All IsPublic (addresses_for_route net go t dc test media)
    validate_telegram-addresses_for_route t dc test media h =
        HasValidRoutes-IsPublic t dc test media (validate_telegram-HasValidRoutes t h)
