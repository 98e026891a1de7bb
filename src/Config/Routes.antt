-- ===== src/Config/Routes.antt =====
-- What the addresses of a route are (internal/config/config.go: `AddressesForRoute`).
use tg_proxy_relay.Prelude.{
  ℕ, ◌≡◌, ◌≢◌, ◌⊎◌, inl, inr, refl, Bool, true, false, not, ◌&&◌, List, [], ◌∷◌, ◌++◌, ◌==◌,
  bytes_eq, nat_eq, if◌then◌else◌, contains, Bytes, Bool-cases, arith, All, All-append, Elem,
}
use tg_proxy_relay.Prelude.Keys.{contains-All}
use tg_proxy_relay.Prelude.Maps.{lookup}
use tg_proxy_relay.Prelude.Text.{codes}
use tg_proxy_relay.Platform.{Platform}
use tg_proxy_relay.Config.Net.{Net}
use tg_proxy_relay.Config.Endpoints.{
  TelegramEndpoint, TelegramConfig, normalize_telegram_address, role_of, append_role, by_roles,
  or_legacy, addresses_for_route, text_at, endpoints_at,
}

-- No address twice.
abbrev pub NoRepeat : List Bytes → Type 0
NoRepeat [] = Unit
NoRepeat (a ∷ as') = All (λ b. b ≢ a) as' × NoRepeat as'

NoRepeat-append :
    (xs : List Bytes) (a : Bytes) → NoRepeat xs → All (λ x. a ≢ x) xs → NoRepeat (xs ++ a ∷ [])
NoRepeat-append [] a n h = (tt, tt)
NoRepeat-append (x ∷ xs) a n h =
    (All-append (λ b. b ≢ x) xs (a ∷ []) n.0 (h.0, tt), NoRepeat-append xs a n.1 h.1)

-- The addresses that the rule `S` allows, each once and none empty.
pub record IsRoute {κ} (S : Bytes → Type κ) (addresses : List Bytes) : Type κ where
  pub has_no_repeat : NoRepeat addresses
  pub has_no_empty : All (λ a. (a == []) ≡ false) addresses
  pub are_allowed : All S addresses

module _ (net : Net) (go : Platform) where
  append_role-IsRoute {κ} :
      (S : Bytes → Type κ) (role : Bytes) (options : List TelegramEndpoint) (result : List Bytes)
      → ((e : TelegramEndpoint)
          → Elem e options
          → role_of net go e ≡ role
          → S (normalize_telegram_address net e.address))
      → IsRoute S result
      → IsRoute S (append_role net go role options result)
  unfolding append_role
  append_role-IsRoute S role [] result s r = r
  append_role-IsRoute S role (e ∷ options) result s r =
      elim (Bool-cases
        (role_of net go e == role && not (address == []) && not (contains result address))) [
          | inr t ↦
              rw (append_role, t) (append_role-IsRoute S role options result (λ o m. s o (inr m)) r)
          | inl t ↦
              rw (append_role, t)
                (append_role-IsRoute S role options (result ++ address ∷ []) (λ o m. s o (inr m))
                  (record {
                    has_no_repeat =
                        NoRepeat-append result address r.has_no_repeat
                          (contains-All result address (ground (arith, t)));
                    has_no_empty =
                        All-append (λ a. (a == []) ≡ false) result (address ∷ []) r.has_no_empty
                          (ground (arith, t), tt);
                    are_allowed = All-append S result (address ∷ []) r.are_allowed (
                      s e (inl refl)
                          ((bytes_eq.beq_iff (role_of net go e) role).0 (ground (arith, t))),
                      tt,
                    );
                  }))
        ]
    where
      address : Bytes
      address = normalize_telegram_address net e.address

  -- The roles that serve a route.
  abbrev pub Serves : Bool → Bytes → Type 0
  Serves media role =
      (role ≡ codes "regular") ⊎ (role ≡ codes "cdn") ⊎ (media ≡ true) × (role ≡ codes "media")

  -- An address of an option that serves the route, or the legacy address.
  abbrev pub IsSource : Bool → List TelegramEndpoint → Bytes → Bytes → Type 0
  IsSource media options legacy a =
      ((e : TelegramEndpoint) × Elem e options
        × Serves media (role_of net go e)
        × (a ≡ normalize_telegram_address net e.address))
      ⊎ (a ≡ normalize_telegram_address net legacy)

  by_roles-IsRoute :
      (media : Bool) (options : List TelegramEndpoint) (legacy : Bytes)
      → IsRoute (IsSource media options legacy) (by_roles net go media options)
  unfolding by_roles
  by_roles-IsRoute true options legacy =
      append_role-IsRoute _ (codes "regular") options _ (λ e m r. inl (e, m, inl r, refl))
        (append_role-IsRoute _ (codes "cdn") options _ (λ e m r. inl (e, m, inr (inl r), refl))
          (append_role-IsRoute _ (codes "media") options _
            (λ e m r. inl (e, m, inr (inr (refl, r)), refl))
            (record { has_no_repeat = tt; has_no_empty = tt; are_allowed = tt })))
  by_roles-IsRoute false options legacy =
      append_role-IsRoute _ (codes "cdn") options _ (λ e m r. inl (e, m, inr (inl r), refl))
        (append_role-IsRoute _ (codes "regular") options _ (λ e m r. inl (e, m, inl r, refl))
          (record { has_no_repeat = tt; has_no_empty = tt; are_allowed = tt }))

  or_legacy-IsRoute :
      (media : Bool) (options : List TelegramEndpoint) (legacy : Bytes) (result : List Bytes)
      → IsRoute (IsSource media options legacy) result
      → IsRoute (IsSource media options legacy) (or_legacy net go legacy result)
  unfolding or_legacy
  or_legacy-IsRoute media options legacy (a ∷ result) r = r
  or_legacy-IsRoute media options legacy [] r =
      elim (Bool-cases (normalize_telegram_address net legacy == [])) [
        | inl e ↦ rw (or_legacy, e) r
        | inr e ↦
            rw (or_legacy, e)
              (record {
                has_no_repeat = (tt, tt);
                has_no_empty = (e, tt);
                are_allowed = (inr refl, tt);
              })
      ]

  -- The addresses of a route are not empty and no two are the same. Each is the normal form of the
  -- address of an option of the route's data centre and network whose role serves the route, `media`
  -- only for a media route, or the normal form of the legacy address of that data centre.
  pub addresses_for_route-IsRoute :
      (t : TelegramConfig) (dc : ℕ) (test media : Bool)
      → IsRoute
          (IsSource media
            (endpoints_at (lookup dc (if test then t.test_dc_options else t.dc_options)))
            (text_at (lookup dc (if test then t.test_dc_map else t.dc_map))))
          (addresses_for_route net go t dc test media)
  unfolding addresses_for_route
  addresses_for_route-IsRoute t dc true media =
      or_legacy-IsRoute media _ _ _ (by_roles-IsRoute media _ _)
  addresses_for_route-IsRoute t dc false media =
      or_legacy-IsRoute media _ _ _ (by_roles-IsRoute media _ _)
