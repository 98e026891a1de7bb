-- ===== src/Topology/Dcs.antt =====
-- The data centres that have a route, and the wait between refreshes
-- (internal/relay/topology_manager.go: `configuredDCs`, `nextTopologyRefreshDelay`).
use tg_proxy_relay.Prelude.{
  ℕ, ◌-◌, ◌*◌, ◌^◌, ◌<◌, ◌≡◌, ◌↔◌, ◌⊎◌, inl, inr, refl, ap, subst, ◌∙◌, Bool, true, not, ◌&&◌, List,
  [], ◌∷◌, ltb, ◌==◌, nat_eq, bytes_eq, if◌then◌else◌, Bytes, length, none, some, min, arith, All,
  All-map, Elem, Bool-cases, Eq-cases, Option-cases, sym,
}
use mathlib.Core.Option.{some-injective}
use tg_proxy_relay.Prelude.Maps.{Map}
use tg_proxy_relay.Prelude.Text.{trim_space}
use tg_proxy_relay.Config.Endpoints.{TelegramEndpoint}
use tg_proxy_relay.Topology.Bundle.{second, Snapshot}
use tg_proxy_relay.Topology.Manager.{TopologyManager}

-- The wait before the next refresh, without its random factor; `base` is the interval.
unfoldable pub next_topology_refresh_delay : ℕ → ℕ → ℕ
next_topology_refresh_delay base failures =
    let interval = if base == 0 then 15 * 60 * second else base in
    if failures == 0 then interval else min (30 * second * 2 ^ min (failures - 1) 8) interval

-- The set of the numbers as a sorted list: the map `seen` and `sort.Ints`.
unfoldable pub insert_dc : ℕ → List ℕ → List ℕ
insert_dc dc [] = dc ∷ []
insert_dc dc (first ∷ rest) =
    let later = insert_dc dc rest in
    if dc == first then first ∷ rest else if ltb dc first then dc ∷ first ∷ rest else first ∷ later

-- The loop over a map: the positive numbers whose value passes the test.
unfoldable pub with_routes : {V : Type 0} → (V → Bool) → Map ℕ V → List ℕ → List ℕ
with_routes test [] seen = seen
with_routes test ((dc, value) ∷ routes) seen =
    let rest = with_routes test routes seen in
    if ltb 0 dc && test value then insert_dc dc rest else rest

abbrev pub has_endpoints : List TelegramEndpoint → Bool
has_endpoints endpoints = ltb 0 (length endpoints)

abbrev pub has_address : Bytes → Bool
has_address address = not (trim_space address == [])

unfoldable pub configured_dcs : TopologyManager → Bool → List ℕ
configured_dcs m test = elim m.current [
  | some s ↦ with_routes has_endpoints (if test then s.test else s.production) []
  | none ↦
      with_routes has_endpoints (if test then m.base.test_dc_options else m.base.dc_options)
        (with_routes has_address (if test then m.base.test_dc_map else m.base.dc_map) [])
]

abbrev pub IsAscending : List ℕ → Type 0
IsAscending [] = Unit
IsAscending (dc ∷ dcs) = All (λ later. dc < later) dcs × IsAscending dcs

Elem-insert_dc : (x dc : ℕ) (dcs : List ℕ) → Elem x (insert_dc dc dcs) ↔ ((x ≡ dc) ⊎ Elem x dcs)
unfolding insert_dc
Elem-insert_dc x dc [] = (λ m. m, λ m. m)
Elem-insert_dc x dc (y ∷ dcs) = elim (Eq-cases dc y) [
  | inl (e, p) ↦ rw (insert_dc, e) (λ m. inr m, λ m. elim m [ inl q ↦ inl (q ∙ p) | inr n ↦ n ])
  | inr (e, p) ↦ elim (Bool-cases (ltb dc y)) [
    | inl l ↦ rw (insert_dc, e, l) (λ m. m, λ m. m)
    | inr l ↦
        rw (insert_dc, e, l)
          (
            λ m. elim m [
              | inl q ↦ inr (inl q)
              | inr n ↦ elim ((Elem-insert_dc x dc dcs).0 n) [ inl q ↦ inl q | inr k ↦ inr (inr k) ]
            ],
            λ m. elim m [
              | inl q ↦ inr ((Elem-insert_dc x dc dcs).1 (inl q))
              | inr (inl q) ↦ inl q
              | inr (inr k) ↦ inr ((Elem-insert_dc x dc dcs).1 (inr k))
            ],
          )
  ]
]

All-insert_dc :
    (y dc : ℕ) (dcs : List ℕ)
    → y < dc
    → All (λ later. y < later) dcs
    → All (λ later. y < later) (insert_dc dc dcs)
unfolding insert_dc
All-insert_dc y dc [] l a = (l, tt)
All-insert_dc y dc (x ∷ dcs) l a = elim (Bool-cases (dc == x)) [
  | inl e ↦ rw (insert_dc, e) a
  | inr e ↦ elim (Bool-cases (ltb dc x)) [
    | inl k ↦ rw (insert_dc, e, k) (l, a)
    | inr k ↦ rw (insert_dc, e, k) (a.0, All-insert_dc y dc dcs l a.1)
  ]
]

insert_dc-IsAscending : (dc : ℕ) (dcs : List ℕ) → IsAscending dcs → IsAscending (insert_dc dc dcs)
unfolding insert_dc
insert_dc-IsAscending dc [] a = (tt, tt)
insert_dc-IsAscending dc (x ∷ dcs) a = elim (Bool-cases (dc == x)) [
  | inl e ↦ rw (insert_dc, e) a
  | inr e ↦ elim (Bool-cases (ltb dc x)) [
    | inl k ↦
        rw (insert_dc, e, k)
          (
            (
              ground (arith, k),
              All-map (λ later. x < later) (λ later. dc < later) (λ later l. ground (arith, k, l))
                  dcs a.0,
            ),
            a,
          )
    | inr k ↦
        rw (insert_dc, e, k)
          (All-insert_dc x dc dcs (ground (arith, e, k)) a.0, insert_dc-IsAscending dc dcs a.1)
  ]
]

-- A positive number with a value that passes the test.
abbrev pub HasRoute : {V : Type 0} → (V → Bool) → Map ℕ V → ℕ → Type 0
HasRoute {V} test routes dc =
    (value : V) × Elem (dc, value) routes × ((ltb 0 dc && test value) ≡ true)

module _ {V : Type 0} (test : V → Bool) where
  Elem-with_routes :
      (routes : Map ℕ V) (seen : List ℕ) (x : ℕ)
      → Elem x (with_routes test routes seen) ↔ (HasRoute test routes x ⊎ Elem x seen)
  unfolding with_routes
  Elem-with_routes [] seen x = (λ m. inr m, λ m. elim m [ inl (es, n, _) ↦ elim n [ ] | inr n ↦ n ])
  Elem-with_routes ((dc, value) ∷ routes) seen x =
      let (only, every) = Elem-with_routes routes seen x in
      let rest = with_routes test routes seen in
      elim (Bool-cases (ltb 0 dc && test value)) [
        | inl t ↦
            rw (with_routes, t)
              (
                λ m. elim ((Elem-insert_dc x dc rest).0 m) [
                  | inl e ↦ inl (value, inl (ap (λ d. (d, value)) e), rw e t)
                  | inr n ↦ elim (only n) [ inl (v, k, p) ↦ inl (v, inr k, p) | inr k ↦ inr k ]
                ],
                λ m. (Elem-insert_dc x dc rest).1 (elim m [
                  | inl (v, inl e, _) ↦ inl (ap (λ r. r.0) e)
                  | inl (v, inr k, p) ↦ inr (every (inl (v, k, p)))
                  | inr k ↦ inr (every (inr k))
                ]),
              )
        | inr t ↦
            rw (with_routes, t)
              (
                λ m. elim (only m) [ inl (v, k, p) ↦ inl (v, inr k, p) | inr k ↦ inr k ],
                λ m. every (elim m [
                  | inl (v, inl e, p) ↦ absurd (cc (t, p, ap (λ r. ltb 0 r.0 && test r.1) e))
                  | inl (v, inr k, p) ↦ inl (v, k, p)
                  | inr k ↦ inr k
                ]),
              )
      ]

  with_routes-IsAscending :
      (routes : Map ℕ V) (seen : List ℕ)
      → IsAscending seen
      → IsAscending (with_routes test routes seen)
  unfolding with_routes
  with_routes-IsAscending [] seen a = a
  with_routes-IsAscending ((dc, value) ∷ routes) seen a =
      elim (Bool-cases (ltb 0 dc && test value)) [
        | inl t ↦
            rw (with_routes, t)
              (insert_dc-IsAscending dc (with_routes test routes seen)
                (with_routes-IsAscending routes seen a))
        | inr t ↦ rw (with_routes, t) (with_routes-IsAscending routes seen a)
      ]

-- The data centres of a network that the manager has routes for.
abbrev pub IsConfigured : TopologyManager → Bool → ℕ → Type 0
IsConfigured m test dc =
    ((s : Snapshot) × (m.current ≡ some s)
      × HasRoute has_endpoints (if test then s.test else s.production) dc)
    ⊎ (m.current ≡ none)
      × (HasRoute has_endpoints (if test then m.base.test_dc_options else m.base.dc_options) dc
          ⊎ HasRoute has_address (if test then m.base.test_dc_map else m.base.dc_map) dc)

-- `configured_dcs` lists in ascending order, each once, exactly the positive numbers of data centres for which the
-- followed snapshot has a route with an endpoint; without a snapshot, those for which the configuration
-- has one, or an address that is not blank.
pub configured_dcs_iff :
    (m : TopologyManager) (test : Bool)
    → IsAscending (configured_dcs m test)
      × ((dc : ℕ) → Elem dc (configured_dcs m test) ↔ IsConfigured m test dc)
unfolding configured_dcs
configured_dcs_iff m test = elim (Option-cases m.current) [
  | inr (s, c) ↦
      let routes = if test then s.test else s.production in
      rw (configured_dcs, c)
        (
          with_routes-IsAscending has_endpoints routes [] tt,
          λ dc. (
            λ n. elim ((Elem-with_routes has_endpoints routes [] dc).0 n) [
              | inl r ↦ inl (s, refl, r)
              | inr k ↦ elim k [ ]
            ],
            λ n. (Elem-with_routes has_endpoints routes [] dc).1 (elim n [
              | inl (u, e, r) ↦ inl (
                  subst (λ v. HasRoute has_endpoints (if test then v.test else v.production) dc)
                    (sym (some-injective _ _ e)) r)
              | inr (e, r) ↦ absurd (cc)
            ]),
          ),
        )
  | inl c ↦
      let options = if test then m.base.test_dc_options else m.base.dc_options in
      let legacy = if test then m.base.test_dc_map else m.base.dc_map in
      let seen = with_routes has_address legacy [] in
      rw (configured_dcs, c)
        (
          with_routes-IsAscending has_endpoints options seen
              (with_routes-IsAscending has_address legacy [] tt),
          λ dc. (
            λ n. elim ((Elem-with_routes has_endpoints options seen dc).0 n) [
              | inl r ↦ inr (refl, inl r)
              | inr k ↦ elim ((Elem-with_routes has_address legacy [] dc).0 k) [
                | inl r ↦ inr (refl, inr r)
                | inr z ↦ elim z [ ]
              ]
            ],
            λ n. (Elem-with_routes has_endpoints options seen dc).1 (elim n [
              | inl (u, e, r) ↦ absurd (cc)
              | inr (e, inl r) ↦ inl r
              | inr (e, inr r) ↦ inr ((Elem-with_routes has_address legacy [] dc).1 (inl r))
            ]),
          ),
        )
]
