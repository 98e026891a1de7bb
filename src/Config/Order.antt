-- ===== src/Config/Order.antt =====
-- In which order the addresses of a route come (internal/config/config.go: `AddressesForRoute`).
use tg_proxy_relay.Prelude.{
  ℕ, ◌≡◌, inl, inr, refl, sym, ap, ◌∙◌, Bool, true, false, not, ◌&&◌, ◌||◌, List, [], ◌∷◌, ◌++◌,
  ◌==◌, bytes_eq, nat_eq, if◌then◌else◌, contains, Bytes, Bool-cases, arith, append_assoc,
  append-nil,
}
use tg_proxy_relay.Prelude.Maps.{lookup}
use tg_proxy_relay.Prelude.Text.{codes, trim_space}
use tg_proxy_relay.Platform.{Platform}
use tg_proxy_relay.Config.Net.{Net}
use tg_proxy_relay.Config.Endpoints.{
  TelegramEndpoint, TelegramConfig, normalize_telegram_address, role_of, append_role, by_roles,
  or_legacy, addresses_for_route, text_at, endpoints_at,
}

-- The first occurrence of each text that is not empty and not among those in front.
pub first_each : List Bytes → List Bytes → List Bytes
first_each seen [] = []
first_each seen (a ∷ texts) = elim (a == [] || contains seen a) [
  | true ↦ first_each seen texts
  | false ↦ a ∷ first_each (seen ++ a ∷ []) texts
]

-- What a route's addresses are when its options give `found` and it has a legacy address.
pub first_or : Bytes → List Bytes → List Bytes
first_or legacy (a ∷ found) = a ∷ found
first_or [] [] = []
first_or (c ∷ legacy) [] = (c ∷ legacy) ∷ []

-- The roles that serve a route, the preferred one first.
abbrev pub roles_for : Bool → List Bytes
roles_for true = codes "media" ∷ codes "cdn" ∷ codes "regular" ∷ []
roles_for false = codes "regular" ∷ codes "cdn" ∷ []

first_each-append :
    (seen xs ys : List Bytes)
    → first_each seen (xs ++ ys) ≡ first_each seen xs ++ first_each (seen ++ first_each seen xs) ys
unfolding first_each
first_each-append seen [] ys = ap (λ s. first_each s ys) (sym (append-nil seen))
first_each-append seen (a ∷ xs) ys = elim (Bool-cases (a == [] || contains seen a)) [
  | inl e ↦ rw (first_each, e) (first_each-append seen xs ys)
  | inr e ↦
      rw (first_each, e)
        (ap (λ t. a ∷ t)
          (first_each-append (seen ++ a ∷ []) xs ys
            ∙ ap (λ s. first_each (seen ++ a ∷ []) xs ++ first_each s ys)
                (append_assoc seen (a ∷ []) (first_each (seen ++ a ∷ []) xs))))
]

first_nothing : [] ≡ first_each [] []
unfolding first_each
first_nothing = refl

module _ (net : Net) (go : Platform) where
  -- The normal forms of the addresses of the options of a role; no role counts as `regular`.
  with_role : Bytes → List TelegramEndpoint → List Bytes
  with_role role [] = []
  with_role role (e ∷ options) =
      let written = go.to_lower (trim_space e.role) in
      elim ((if written == [] then codes "regular" else written) == role) [
        | true ↦ normalize_telegram_address net e.address ∷ with_role role options
        | false ↦ with_role role options
      ]

  pub with_roles : List Bytes → List TelegramEndpoint → List Bytes
  with_roles [] options = []
  with_roles (role ∷ roles) options = with_role role options ++ with_roles roles options

  append_role-first_each :
      (role : Bytes) (options : List TelegramEndpoint) (result : List Bytes)
      → append_role net go role options result
        ≡ result ++ first_each result (with_role role options)
  unfolding append_role role_of with_role first_each
  append_role-first_each role [] result = sym (append-nil result)
  append_role-first_each role (e ∷ options) result = elim (Bool-cases (role_of net go e == role)) [
    | inr r ↦ rw (append_role, with_role, r) (append_role-first_each role options result)
    | inl r ↦ elim (Bool-cases (address == [] || contains result address)) [
      | inl s ↦
          rw (append_role, with_role, r, first_each, s, skipped s)
            (append_role-first_each role options result)
      | inr s ↦
          rw (append_role, with_role, r, first_each, s, taken s)
            (append_role-first_each role options (result ++ address ∷ [])
              ∙ append_assoc result (address ∷ []) _)
    ]
  ]
    where
      address : Bytes
      address = normalize_telegram_address net e.address

      skipped :
          address == [] || contains result address ≡ true
          → not (address == []) && not (contains result address) ≡ false
      skipped h = ground (arith, h)

      taken :
          address == [] || contains result address ≡ false
          → not (address == []) && not (contains result address) ≡ true
      taken h = ground (arith, h)

  append_role-grows :
      (role : Bytes) (options : List TelegramEndpoint) (texts result : List Bytes)
      → result ≡ first_each [] texts
      → append_role net go role options result ≡ first_each [] (texts ++ with_role role options)
  append_role-grows role options texts result e = rw e (
      append_role-first_each role options (first_each [] texts)
      ∙ sym (first_each-append [] texts (with_role role options)))

  by_roles-first_each :
      (media : Bool) (options : List TelegramEndpoint)
      → by_roles net go media options ≡ first_each [] (with_roles (roles_for media) options)
  unfolding by_roles with_roles
  by_roles-first_each true options =
      append_role-grows (codes "regular") options _ _ (
        append_role-grows (codes "cdn") options _ _
          (append_role-grows (codes "media") options [] [] first_nothing))
      ∙ ap (first_each []) (
          append_assoc (with_role (codes "media") options) (with_role (codes "cdn") options)
            (with_role (codes "regular") options)
          ∙ ap (λ t. with_role (codes "media") options ++ (with_role (codes "cdn") options ++ t))
              (sym (append-nil (with_role (codes "regular") options))))
  by_roles-first_each false options =
      append_role-grows (codes "cdn") options _ _
        (append_role-grows (codes "regular") options [] [] first_nothing)
      ∙ ap (λ t. first_each [] (with_role (codes "regular") options ++ t))
          (sym (append-nil (with_role (codes "cdn") options)))

  or_legacy-first_or :
      (legacy : Bytes) (found : List Bytes)
      → or_legacy net go legacy found ≡ first_or (normalize_telegram_address net legacy) found
  unfolding or_legacy first_or
  or_legacy-first_or legacy (a ∷ found) = refl
  or_legacy-first_or legacy [] = at (normalize_telegram_address net legacy)
    where
      at : (a : Bytes) → (if a == [] then [] else a ∷ []) ≡ first_or a []
      at [] = refl
      at (c ∷ a) = refl

  -- The addresses of a route, in their order: of the options of the route's data centre and network, in
  -- the order of the roles that serve the route (`media`, `cdn`, `regular` for a media route, `regular`,
  -- `cdn` for another), then in the order of the configuration, the normal forms of the addresses,
  -- each at its first place and no empty one; when that leaves none, the normal form of the legacy address
  -- of that data centre and network, if it is not empty.
  pub addresses_for_route-first_or :
      (t : TelegramConfig) (dc : ℕ) (test media : Bool)
      → addresses_for_route net go t dc test media
        ≡ first_or
            (normalize_telegram_address net
              (text_at (lookup dc (if test then t.test_dc_map else t.dc_map))))
            (first_each [] (
              with_roles
                (roles_for media)
                (endpoints_at (lookup dc (if test then t.test_dc_options else t.dc_options)))))
  unfolding addresses_for_route
  addresses_for_route-first_or t dc true media =
      or_legacy-first_or _ _ ∙ ap (first_or _) (by_roles-first_each media _)
  addresses_for_route-first_or t dc false media =
      or_legacy-first_or _ _ ∙ ap (first_or _) (by_roles-first_each media _)
