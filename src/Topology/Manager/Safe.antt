-- ===== src/Topology/Manager/Safe.antt =====
-- A relay hands out public addresses only (internal/relay/topology_manager.go with
-- internal/topology/bundle.go and internal/config/config.go).
use tg_proxy_relay.Prelude.{
  ℕ, ◌≡◌, inl, inr, sym, ◌∙◌, subst, Bool, true, false, List, [], ◌∷◌, Bytes, Option, none, some,
  Option-cases, All,
}
use mathlib.Core.Option.{some-injective}
use tg_proxy_relay.Prelude.Maps.{Map}
use tg_proxy_relay.Config.Endpoints.{TelegramEndpoint, TelegramConfig, topology_addresses}
use tg_proxy_relay.Config.Options.{validate_telegram}
use tg_proxy_relay.Config.Public.{
  IsPublic, HasOptions, HasValidRoutes, HasValidRoutes-IsPublic, IsValidRoute-HasOptions,
  endpoints_at-HasOptions, validate_telegram-HasValidRoutes,
}
use tg_proxy_relay.Topology.Bundle.{Snapshot, Library, verify, accepted}
use tg_proxy_relay.Topology.Bundle.Sound.{verify-IsVerified}
use tg_proxy_relay.Topology.Manager.{
  TopologyConfig, TopologyManager, Fetch, Refreshed, routes_of, with_current, with_last_on_demand,
  addresses,
}
use tg_proxy_relay.Topology.Manager.Refresh.{RefreshOutcome, refresh-RefreshOutcome}
use tg_proxy_relay.Topology.Manager.Start.{IsStart, new_topology_manager-IsStart}
use tg_proxy_relay.Topology.Manager.History.{
  Relay, Event, refreshes, ensures, restarts, read_file, step, run,
}
use tg_proxy_relay.Topology.Manager.Revision.{ensure_route-cases, stopped}

module _ (lib : Library) where
  abbrev pub HasSafeRoutes : Snapshot → Type 0
  HasSafeRoutes s =
      All (HasOptions lib.net lib.go) s.production × All (HasOptions lib.net lib.go) s.test

  verify-HasSafeRoutes :
      (raw key : Bytes) (now : ℕ) (allow_expired : Bool) (s : Snapshot)
      → verify lib raw key now allow_expired ≡ accepted s
      → HasSafeRoutes s
  verify-HasSafeRoutes raw key now allow_expired s v =
      let w = verify-IsVerified lib raw key now allow_expired s v in
      (
        IsValidRoute-HasOptions lib.net lib.go s.production
            (subst (All _) (sym w.same_routes.0) w.is_payload.production_routes),
        IsValidRoute-HasOptions lib.net lib.go s.test
            (subst (All _) (sym w.same_routes.1) w.is_payload.test_routes),
      )

  topology_addresses-IsPublic :
      (production tests : Map ℕ (List TelegramEndpoint)) (base : TelegramConfig) (dc : ℕ)
      (test media : Bool)
      → All (HasOptions lib.net lib.go) production
      → All (HasOptions lib.net lib.go) tests
      → All
          (IsPublic lib.net)
          (topology_addresses lib.net lib.go (some (production, tests)) base dc test media)
  unfolding topology_addresses
  topology_addresses-IsPublic production tests base dc true media p t =
      HasValidRoutes-IsPublic lib.net lib.go _ dc true media (record {
        production_map = tt;
        tests_map = tt;
        production = tt;
        tests = (endpoints_at-HasOptions lib.net lib.go tests dc t, tt);
      })
  topology_addresses-IsPublic production tests base dc false media p t =
      HasValidRoutes-IsPublic lib.net lib.go _ dc false media (record {
        production_map = tt;
        tests_map = tt;
        production = (endpoints_at-HasOptions lib.net lib.go production dc p, tt);
        tests = tt;
      })

  module _ (base : TelegramConfig) (remote : TopologyConfig) (windows : Bool) where
    -- The manager keeps the configuration, and its snapshot has valid routes.
    pub record IsSafe (m : TopologyManager) : Type 0 where
      pub same_base : m.base ≡ base
      pub has_routes : (s : Snapshot) → m.current ≡ some s → HasSafeRoutes s

    RefreshOutcome-IsSafe :
        (fetch : Fetch) (m : TopologyManager) (file : Option Bytes) (r : Refreshed)
        → IsSafe m
        → RefreshOutcome lib windows fetch m file r
        → IsSafe r.manager
    unfolding with_current
    RefreshOutcome-IsSafe fetch m file r i (inl (me, _)) = rw me i
    RefreshOutcome-IsSafe fetch m file r i (inr (bytes, s, fresh, _, _, inr (_, me))) = rw me i
    RefreshOutcome-IsSafe fetch m file r i (inr (bytes, s, fresh, _, _, inl (_, me))) =
        rw me (record {
          same_base = i.same_base;
          has_routes = λ t e.
              subst HasSafeRoutes (some-injective _ _ e)
                (verify-HasSafeRoutes bytes m.public_key fetch.now false s fresh.verifies);
        })

    with_last_on_demand-IsSafe :
        (m : TopologyManager) (now : ℕ) → IsSafe m → IsSafe (with_last_on_demand m now)
    unfolding with_last_on_demand
    with_last_on_demand-IsSafe m now i = record {
      same_base = i.same_base;
      has_routes = i.has_routes;
    }

    IsStart-IsSafe :
        (readable : Bool) (file : Option Bytes) (now : ℕ) (m : TopologyManager)
        → IsStart lib base remote (read_file readable file) now m
        → IsSafe m
    IsStart-IsSafe readable file now m i = record {
      same_base = i.same_base;
      has_routes = λ s e. elim i.follows [
        | inl (_, c, _) ↦ absurd (cc)
        | inr (_, _, inl (_, c)) ↦ absurd (cc)
        | inr (_, _, inr (bytes, t, _, v, c)) ↦
            subst HasSafeRoutes (some-injective _ _ (sym c ∙ e))
              (verify-HasSafeRoutes bytes m.public_key now true t v)
      ];
    }

    abbrev IsSafeRelay : Relay → Type 0
    IsSafeRelay relay = (m : TopologyManager) → relay.running ≡ some m → IsSafe m

    step-IsSafeRelay :
        (event : Event) (relay : Relay)
        → IsSafeRelay relay
        → IsSafeRelay (step lib windows base remote event relay)
    unfolding step
    step-IsSafeRelay (refreshes fetch) relay i = elim (Option-cases relay.running) [
      | inl e ↦ rw (step, e) i
      | inr (m, e) ↦
          rw (step, e)
            (λ other o. subst IsSafe (some-injective _ _ o) (
              RefreshOutcome-IsSafe fetch m relay.file _ (i m e)
                (refresh-RefreshOutcome lib windows fetch m relay.file)))
    ]
    step-IsSafeRelay (ensures dc test media now fetch) relay i = elim (Option-cases relay.running) [
      | inl e ↦ rw (step, e) i
      | inr (m, e) ↦
          rw (step, e)
            (λ other o.
              subst IsSafe (some-injective _ _ o)
                (elim (ensure_route-cases lib windows dc test media now fetch m relay.file) [
                  | inl (me, _) ↦ rw me (i m e)
                  | inr (me, _) ↦ rw me (
                      RefreshOutcome-IsSafe fetch (with_last_on_demand m now) relay.file _
                        (with_last_on_demand-IsSafe m now (i m e))
                        (refresh-RefreshOutcome lib windows fetch (with_last_on_demand m now)
                          relay.file))
                ]))
    ]
    step-IsSafeRelay (restarts now readable) relay i = λ m e.
        IsStart-IsSafe readable relay.file now m
          (new_topology_manager-IsStart lib base remote (read_file readable relay.file) now m e)

    run-IsSafeRelay :
        (events : List Event) (relay : Relay)
        → IsSafeRelay relay
        → IsSafeRelay (run lib windows base remote events relay)
    unfolding run
    run-IsSafeRelay [] relay i = i
    run-IsSafeRelay (event ∷ events) relay i =
        run-IsSafeRelay events (step lib windows base remote event relay)
          (step-IsSafeRelay event relay i)

    safe_addresses :
        (m : TopologyManager) (dc : ℕ) (test media : Bool)
        → HasValidRoutes lib.net lib.go base
        → IsSafe m
        → All (IsPublic lib.net) (addresses lib m dc test media)
    unfolding addresses routes_of topology_addresses
    safe_addresses m dc test media v i = elim (Option-cases m.current) [
      | inl c ↦
          rw (addresses, c, i.same_base)
            (HasValidRoutes-IsPublic lib.net lib.go base dc test media v)
      | inr (s, c) ↦
          rw (addresses, c)
            (topology_addresses-IsPublic s.production s.test m.base dc test media
              (i.has_routes s c).0 (i.has_routes s c).1)
    ]

-- When the routes of the configuration are accepted: after every history of refreshes, requests for
-- routes and restarts, with whatever the source answers and the file holds, each address that the running
-- manager gives for any route is the text of a public IP address and of a port from 1 to 65535.
pub run-addresses :
    (lib : Library) (windows : Bool) (base : TelegramConfig) (remote : TopologyConfig)
    (file : Option Bytes) (events : List Event) (m : TopologyManager) (dc : ℕ) (test media : Bool)
    → validate_telegram lib.net lib.go base ≡ none
    → (run lib windows base remote events (stopped file)).running ≡ some m
    → All (IsPublic lib.net) (addresses lib m dc test media)
run-addresses lib windows base remote file events m dc test media v e =
    safe_addresses lib base remote windows m dc test media
      (validate_telegram-HasValidRoutes lib.net lib.go base v)
      (run-IsSafeRelay lib base remote windows events (stopped file) (λ other n. absurd (cc)) m e)
