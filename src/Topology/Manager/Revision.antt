-- ===== src/Topology/Manager/Revision.antt =====
-- The generation that a relay follows never goes back (internal/relay/topology_manager.go).
use tg_proxy_relay.Prelude.{
  ℕ, ◌≤◌, ◌≡◌, ◌⊎◌, inl, inr, refl, sym, ◌∙◌, subst, Bool, false, not, ◌==◌, nat_eq, bytes_eq, List,
  [], ◌∷◌, Bytes, length, Option, none, some, Bool-cases, Option-cases, arith,
}
use mathlib.Core.Option.{some-injective}
use tg_proxy_relay.Config.Endpoints.{TelegramConfig}
use tg_proxy_relay.Topology.Bundle.{Library}
use tg_proxy_relay.Topology.Manager.{
  TopologyConfig, TopologyManager, Fetch, with_last_on_demand, in_cooldown, dynamic, revision,
  refresh, addresses, ensure_route,
}
use tg_proxy_relay.Topology.Manager.Refresh.{refresh-RefreshOutcome}
use tg_proxy_relay.Topology.Manager.Start.{new_topology_manager-IsStart}
use tg_proxy_relay.Topology.Manager.History.{
  Relay, Event, refreshes, ensures, restarts, read_file, step, run, Follows, IsBacked,
}
use tg_proxy_relay.Topology.Manager.Follows.{
  Stored-le, refreshed-Follows, with_last_on_demand-Follows, start-Follows,
}

-- A request for a route leaves the manager and the file alone, or refreshes.
pub ensure_route-cases :
    (lib : Library) (windows : Bool) (dc : ℕ) (test media : Bool) (now : ℕ) (fetch : Fetch)
    (m : TopologyManager) (file : Option Bytes)
    → ((ensure_route lib windows dc test media now fetch m file).manager ≡ m)
        × ((ensure_route lib windows dc test media now fetch m file).file ≡ file)
      ⊎ ((ensure_route lib windows dc test media now fetch m file).manager
          ≡ (refresh lib windows fetch (with_last_on_demand m now) file).manager)
        × ((ensure_route lib windows dc test media now fetch m file).file
            ≡ (refresh lib windows fetch (with_last_on_demand m now) file).file)
unfolding ensure_route
ensure_route-cases lib windows dc test media now fetch m file =
    elim (Bool-cases (not (length (addresses lib m dc test media) == 0))) [
      | inl k ↦ rw (ensure_route, k) (inl (refl, refl))
      | inr k ↦ elim (Bool-cases (not (dynamic m))) [
        | inl d ↦ rw (ensure_route, k, d) (inl (refl, refl))
        | inr d ↦ elim (Bool-cases (in_cooldown m.last_on_demand now)) [
          | inl c ↦ rw (ensure_route, k, d, c) (inl (refl, refl))
          | inr c ↦ rw (ensure_route, k, d, c) (inr (refl, refl))
        ]
      ]
    ]

module _ (lib : Library) (base : TelegramConfig) (remote : TopologyConfig) where
  running-IsBacked :
      (g : ℕ) (m : TopologyManager) (file : Option Bytes)
      → Follows lib base remote file g m
      → IsBacked lib base remote g (record { running = some m; file = file })
  running-IsBacked g m file f = record {
    is_stored = Stored-le lib base remote file g (revision m) f.at_least f.is_stored;
    follows = λ other e. subst (Follows lib base remote file g) (some-injective _ _ e) f;
  }

  -- Every event keeps the file and the manager at a generation.
  step-IsBacked :
      (g : ℕ) (event : Event) (relay : Relay)
      → IsBacked lib base remote g relay
      → IsBacked lib base remote g (step lib false base remote event relay)
  unfolding step
  step-IsBacked g (refreshes fetch) relay b = elim (Option-cases relay.running) [
    | inl e ↦ rw (step, e) b
    | inr (m, e) ↦
        rw (step, e)
          (running-IsBacked g _ _ (
            refreshed-Follows lib base remote fetch m relay.file g
              (refresh lib false fetch m relay.file) (b.follows m e)
              (refresh-RefreshOutcome lib false fetch m relay.file)))
  ]
  step-IsBacked g (ensures dc test media now fetch) relay b = elim (Option-cases relay.running) [
    | inl e ↦ rw (step, e) b
    | inr (m, e) ↦
        rw (step, e)
          (running-IsBacked g _ _
            (elim (ensure_route-cases lib false dc test media now fetch m relay.file) [
              | inl (me, fe) ↦ rw (me, fe) (b.follows m e)
              | inr (me, fe) ↦
                  rw (me, fe)
                    (refreshed-Follows lib base remote fetch (with_last_on_demand m now) relay.file
                      g (refresh lib false fetch (with_last_on_demand m now) relay.file)
                      (with_last_on_demand-Follows lib base remote m now relay.file g
                        (b.follows m e))
                      (refresh-RefreshOutcome lib false fetch (with_last_on_demand m now)
                        relay.file))
            ]))
  ]
  step-IsBacked g (restarts now readable) relay b = record {
    is_stored = b.is_stored;
    follows = λ m e.
        start-Follows lib base remote readable relay.file now g m b.is_stored
          (new_topology_manager-IsStart lib base remote (read_file readable relay.file) now m e);
  }

  run-IsBacked :
      (g : ℕ) (events : List Event) (relay : Relay)
      → IsBacked lib base remote g relay
      → IsBacked lib base remote g (run lib false base remote events relay)
  unfolding run
  run-IsBacked g [] relay b = b
  run-IsBacked g (event ∷ events) relay b =
      run-IsBacked g events (step lib false base remote event relay) (step-IsBacked g event relay b)

-- The relay before its first start, with whatever file there is.
abbrev pub stopped : Option Bytes → Relay
stopped file = record { running = none; file = file }

-- Outside Windows, however refreshes, requests for routes and restarts follow one another, and
-- whatever the source, the clock and the file calls do: the generation that a running relay follows is never
-- below one that it followed before, also after a restart and after a failed write of the file.
pub run-revision :
    (lib : Library) (base : TelegramConfig) (remote : TopologyConfig) (file : Option Bytes)
    (before after : List Event) (m later : TopologyManager)
    → (run lib false base remote before (stopped file)).running ≡ some m
    → (run lib false base remote after (run lib false base remote before (stopped file))).running
      ≡ some later
    → revision m ≤ revision later
run-revision lib base remote file before after m later e l =
    let reached = run lib false base remote before (stopped file) in
    let f =
      (run-IsBacked lib base remote 0 before (stopped file)
          (record { is_stored = inl refl; follows = λ other n. absurd (cc) })).follows
        m e in
    let backed : IsBacked lib base remote (revision m) reached = record {
      is_stored = f.is_stored;
      follows = λ other o.
          (let same : m ≡ other = some-injective _ _ (sym e ∙ o) in
            subst (Follows lib base remote reached.file (revision m)) same (record {
              same_base = f.same_base;
              same_remote = f.same_remote;
              has_key = f.has_key;
              at_least = omega arith;
              is_stored = f.is_stored;
            }));
    } in
    ((run-IsBacked lib base remote (revision m) after reached backed).follows later l).at_least
