-- ===== src/Config/Accepted.antt =====
-- Which options of routes are accepted (internal/config/config.go: `ValidateTelegramDCOptions`).
use tg_proxy_relay.Prelude.{
  ℕ, ◌+◌, ◌*◌, ◌≤◌, ◌<◌, ◌≡◌, ◌↔◌, ◌⊎◌, inl, inr, refl, true, false, not, ◌||◌, ◌&&◌, List, [], ◌∷◌,
  ltb, ◌==◌, nat_eq, bytes_eq, contains, Bytes, length, none, Bool-cases, Option-cases, Eq-cases,
  arith, All, if◌then◌else◌,
}
use tg_proxy_relay.Prelude.Keys.{Unique, Unseen, Unseen-split, Unseen-join, Unseen-empty}
use tg_proxy_relay.Prelude.Maps.{Map}
use tg_proxy_relay.Prelude.Text.{codes, trim_space}
use tg_proxy_relay.Platform.{Platform}
use tg_proxy_relay.Config.Net.{Net, validate_telegram_address}
use tg_proxy_relay.Config.Endpoints.{TelegramEndpoint, normalize_telegram_address, role_of}
use tg_proxy_relay.Config.Options.{
  invalid_dc, validate_endpoint, endpoint_key, validate_endpoints, validate_routes,
  validate_telegram_dc_options, max_telegram_dcs, max_endpoints_per_dc, max_telegram_endpoints,
}

module _ (net : Net) (go : Platform) where
  -- One of the three roles, `regular` by default, no secret, and an address that may be dialled.
  pub record IsOption (endpoint : TelegramEndpoint) : Type 0 where
    pub role_is_known :
        (role_of net go endpoint ≡ codes "regular")
        ⊎ (role_of net go endpoint ≡ codes "media")
        ⊎ (role_of net go endpoint ≡ codes "cdn")
    pub has_no_secret : endpoint.secret ≡ []
    pub is_valid :
        validate_telegram_address net (normalize_telegram_address net endpoint.address) ≡ true

  pub record IsValidRoute (route : ℕ × List TelegramEndpoint) : Type 0 where
    pub dc_in_range : (0 < route.0) × (route.0 ≤ 32767)
    pub counts : (0 < length route.1) × (length route.1 ≤ max_endpoints_per_dc)
    pub are_options : All IsOption route.1
    pub has_unique_keys : Unique (endpoint_key net go) route.1

  role_known :
      (endpoint : TelegramEndpoint)
      → (not (go.to_lower (trim_space endpoint.role) == [])
            && not (go.to_lower (trim_space endpoint.role) == codes "regular")
            && not (go.to_lower (trim_space endpoint.role) == codes "media")
            && not (go.to_lower (trim_space endpoint.role) == codes "cdn")
          ≡ false)
        ↔ ((role_of net go endpoint ≡ codes "regular")
            ⊎ (role_of net go endpoint ≡ codes "media")
            ⊎ (role_of net go endpoint ≡ codes "cdn"))
  unfolding role_of
  role_known endpoint = known (go.to_lower (trim_space endpoint.role))
    where
      known :
          (role : Bytes)
          → (not (role == [])
                && not (role == codes "regular")
                && not (role == codes "media")
                && not (role == codes "cdn")
              ≡ false)
            ↔ (((if role == [] then codes "regular" else role) ≡ codes "regular")
                ⊎ ((if role == [] then codes "regular" else role) ≡ codes "media")
                ⊎ ((if role == [] then codes "regular" else role) ≡ codes "cdn"))
      known role = elim (Eq-cases role []) [
        | inl (e, p) ↦ rw e (λ h. inl refl, λ h. refl)
        | inr (e, p) ↦ elim (Eq-cases role (codes "regular")) [
          | inl (f, q) ↦ rw (e, f) (λ h. inl q, λ h. refl)
          | inr (f, q) ↦ elim (Eq-cases role (codes "media")) [
            | inl (g, r) ↦ rw (e, f, g) (λ h. inr (inl r), λ h. refl)
            | inr (g, r) ↦ elim (Eq-cases role (codes "cdn")) [
              | inl (k, s) ↦ rw (e, f, g, k) (λ h. inr (inr s), λ h. refl)
              | inr (k, s) ↦
                  rw (e, f, g, k)
                    (
                      λ h. absurd cc,
                      λ h. elim h [
                        | inl x ↦ absurd (q x)
                        | inr (inl x) ↦ absurd (r x)
                        | inr (inr x) ↦ absurd (s x)
                      ],
                    )
            ]
          ]
        ]
      ]

  validate_endpoint_iff :
      (endpoint : TelegramEndpoint) → (validate_endpoint net go endpoint ≡ none) ↔ IsOption endpoint
  unfolding validate_endpoint
  validate_endpoint_iff endpoint =
      let role = go.to_lower (trim_space endpoint.role) in
      elim (Bool-cases (
        not (role == [])
        && not (role == codes "regular")
        && not (role == codes "media")
        && not (role == codes "cdn"))) [
          | inl r ↦
              rw (validate_endpoint, r)
                (
                  λ h. absurd cc,
                  λ o. absurd (ground (arith, r, (role_known endpoint).1 o.role_is_known)),
                )
          | inr r ↦ elim (Eq-cases endpoint.secret []) [
            | inr (s, n) ↦
                rw (validate_endpoint, r, s) (λ h. absurd cc, λ o. absurd (n o.has_no_secret))
            | inl (s, e) ↦
                elim (Bool-cases (
                  validate_telegram_address net
                    (normalize_telegram_address net endpoint.address))) [
                      | inl v ↦
                          rw (validate_endpoint, r, s, v)
                            (
                              λ h. record {
                                role_is_known = (role_known endpoint).0 r;
                                has_no_secret = e;
                                is_valid = v;
                              },
                              λ o. refl,
                            )
                      | inr v ↦
                          rw (validate_endpoint, r, s, v)
                            (λ h. absurd cc, λ o. absurd (ground (arith, v, o.is_valid)))
                    ]
          ]
        ]

  endpoints_sound :
      (seen : List Bytes) (endpoints : List TelegramEndpoint)
      → validate_endpoints net go seen endpoints ≡ none
      → All IsOption endpoints
        × Unique (endpoint_key net go) endpoints
        × Unseen (endpoint_key net go) seen endpoints
  unfolding validate_endpoints
  endpoints_sound seen [] = λ h. (tt, tt, tt)
  endpoints_sound seen (e ∷ endpoints) = elim (Option-cases (validate_endpoint net go e)) [
    | inr (x, v) ↦ rw (validate_endpoints, v) (λ h. absurd cc)
    | inl v ↦ elim (Bool-cases (contains seen (endpoint_key net go e))) [
      | inl c ↦ rw (validate_endpoints, v, c) (λ h. absurd cc)
      | inr c ↦
          rw (validate_endpoints, v, c)
            (λ h.
              let (o, u, n) = endpoints_sound (endpoint_key net go e ∷ seen) endpoints h in
              let (n', d) =
                Unseen-split (endpoint_key net go) seen (endpoint_key net go e) endpoints n in
              (((validate_endpoint_iff e).0 v, o), (d, u), (refl, n')))
    ]
  ]

  endpoints_complete :
      (seen : List Bytes) (endpoints : List TelegramEndpoint)
      → All IsOption endpoints
      → Unique (endpoint_key net go) endpoints
      → Unseen (endpoint_key net go) seen endpoints
      → validate_endpoints net go seen endpoints ≡ none
  unfolding validate_endpoints
  endpoints_complete seen [] o u n = refl
  endpoints_complete seen (e ∷ endpoints) o u n =
      rw (validate_endpoints, (validate_endpoint_iff e).1 o.0, n.0)
        (endpoints_complete (endpoint_key net go e ∷ seen) endpoints o.1 u.1
          (Unseen-join (endpoint_key net go) seen _ endpoints n.1 u.0))

  -- The tests on a route's number and on how many endpoints it has.
  in_range :
      (dc count : ℕ)
      → (invalid_dc dc || count == 0 || ltb max_endpoints_per_dc count ≡ false)
        ↔ (((0 < dc) × (dc ≤ 32767)) × ((0 < count) × (count ≤ max_endpoints_per_dc)))
  unfolding invalid_dc
  in_range dc count = ground arith

  routes_sound :
      (total : ℕ) (routes : Map ℕ (List TelegramEndpoint))
      → validate_routes net go total routes ≡ none
      → All IsValidRoute routes
  unfolding validate_routes
  routes_sound total [] = λ h. tt
  routes_sound total ((dc, endpoints) ∷ routes) =
      elim (Bool-cases
        (invalid_dc dc || length endpoints == 0 || ltb max_endpoints_per_dc (length endpoints))) [
          | inl t ↦ rw (validate_routes, t) (λ h. absurd cc)
          | inr t ↦ elim (Option-cases (validate_endpoints net go [] endpoints)) [
            | inr (x, v) ↦ rw (validate_routes, t, v) (λ h. absurd cc)
            | inl v ↦
                rw (validate_routes, t, v)
                  (λ h.
                    let (d, c) = (in_range dc (length endpoints)).0 t in
                    let (o, u, n) = endpoints_sound [] endpoints v in
                    (
                      record { dc_in_range = d; counts = c; are_options = o; has_unique_keys = u },
                      routes_sound (total + length endpoints) routes h,
                    ))
          ]
        ]

  routes_complete :
      (total : ℕ) (routes : Map ℕ (List TelegramEndpoint))
      → All IsValidRoute routes
      → total + max_endpoints_per_dc * length routes ≤ max_telegram_endpoints
      → validate_routes net go total routes ≡ none
  unfolding validate_routes
  routes_complete total [] v b = ground (arith, b)
  routes_complete total ((dc, endpoints) ∷ routes) v b =
      rw
        (
          validate_routes,
          (in_range dc (length endpoints)).1 (v.0.dc_in_range, v.0.counts),
          endpoints_complete [] endpoints v.0.are_options v.0.has_unique_keys
              (Unseen-empty _ endpoints),
        )
        (routes_complete (total + length endpoints) routes v.1 (ground (arith, b, v.0.counts)))

  -- `validate_telegram_dc_options` accepts exactly the maps of at most 32 routes in which every route
  -- is valid: its number is from 1 to 32767, it has 1 to 32 endpoints, each of a known role, without a
  -- secret and with a valid address, and no two of the same role have the same address. The check of the total
  -- refuses nothing more.
  pub validate_telegram_dc_options_iff :
      (routes : Map ℕ (List TelegramEndpoint))
      → (validate_telegram_dc_options net go routes ≡ none)
        ↔ ((length routes ≤ max_telegram_dcs) × All IsValidRoute routes)
  unfolding validate_telegram_dc_options
  validate_telegram_dc_options_iff routes =
      elim (Bool-cases (ltb max_telegram_dcs (length routes))) [
        | inl e ↦
            rw (validate_telegram_dc_options, e)
              (λ h. absurd cc, λ (l, a). absurd (ground (arith, e, l)))
        | inr e ↦
            rw (validate_telegram_dc_options, e)
              (
                λ h. (ground (arith, e), routes_sound 0 routes h),
                λ (l, a). routes_complete 0 routes a (omega (arith, l)),
              )
      ]
