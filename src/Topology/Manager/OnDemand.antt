-- ===== src/Topology/Manager/OnDemand.antt =====
-- How often requests for routes make the relay ask its source (internal/relay/topology_manager.go:
-- `ensureRoute`).
use tg_proxy_relay.Prelude.{
  ℕ, ◌+◌, ◌*◌, ◌≤◌, ◌≡◌, ◌⊎◌, inl, inr, refl, sym, ◌∙◌, ap, subst, Bool, true, false, not, ◌==◌,
  nat_eq, List, [], ◌∷◌, Bytes, length, Option, none, some, Bool-cases, arith, to_ℕ, Empty,
}
use tg_proxy_relay.Config.Endpoints.{TelegramConfig}
use tg_proxy_relay.Topology.Bundle.{second, Library}
use tg_proxy_relay.Topology.Manager.{
  TopologyConfig, TopologyManager, Fetch, Ensured, with_current, with_last_on_demand, in_cooldown,
  dynamic, refresh, addresses, ensure_route,
}
use tg_proxy_relay.Topology.Manager.Refresh.{refresh-RefreshOutcome}
use tg_proxy_relay.Topology.Manager.History.{Relay, Event, refreshes, ensures, restarts, step}

module _ (lib : Library) (windows : Bool) (base : TelegramConfig) (remote : TopologyConfig) where
  -- Whether an event is a request for a route that asks the source, as a number.
  abbrev pub asks : Event → Relay → ℕ
  asks (refreshes fetch) relay = 0
  asks (ensures dc test media now fetch) relay = elim relay.running [
    | none ↦ 0
    | some m ↦ to_ℕ ((ensure_route lib windows dc test media now fetch m relay.file).refreshed)
  ]
  asks (restarts now readable) relay = 0

  abbrev pub asked_in : List Event → Relay → ℕ
  asked_in [] relay = 0
  asked_in (event ∷ events) relay =
      asks event relay + asked_in events (step lib windows base remote event relay)

-- No restarts, and requests from `start` to `end` under a clock that does not go back.
abbrev pub IsWithin : ℕ → List Event → ℕ → Type 0
IsWithin start [] end = start ≤ end
IsWithin start (refreshes fetch ∷ events) end = IsWithin start events end
IsWithin start (ensures dc test media now fetch ∷ events) end =
    (start ≤ now) × IsWithin now events end
IsWithin start (restarts now readable ∷ events) end = Empty

-- What a request does to the moment of the last one.
abbrev Keeps : TopologyManager → ℕ → Ensured → Type 0
Keeps m now e =
    (e.refreshed ≡ false) × (e.manager.last_on_demand ≡ m.last_on_demand)
    ⊎ (e.refreshed ≡ true)
      × (in_cooldown m.last_on_demand now ≡ false)
      × (e.manager.last_on_demand ≡ some now)

module _ (lib : Library) (windows : Bool) where
  refresh_keeps :
      (fetch : Fetch) (m : TopologyManager) (file : Option Bytes)
      → (refresh lib windows fetch m file).manager.last_on_demand ≡ m.last_on_demand
  unfolding with_current
  refresh_keeps fetch m file = elim (refresh-RefreshOutcome lib windows fetch m file) [
    | inl (e, _) ↦ rw e refl
    | inr (bytes, s, fresh, _, _, inr (_, e)) ↦ rw e refl
    | inr (bytes, s, fresh, _, _, inl (_, e)) ↦ rw e refl
  ]

  ensure_route-Keeps :
      (dc : ℕ) (test media : Bool) (now : ℕ) (fetch : Fetch) (m : TopologyManager)
      (file : Option Bytes)
      → Keeps m now (ensure_route lib windows dc test media now fetch m file)
  unfolding ensure_route with_last_on_demand
  ensure_route-Keeps dc test media now fetch m file =
      elim (Bool-cases (not (length (addresses lib m dc test media) == 0))) [
        | inl k ↦ rw (ensure_route, k) (inl (refl, refl))
        | inr k ↦ elim (Bool-cases (not (dynamic m))) [
          | inl d ↦ rw (ensure_route, k, d) (inl (refl, refl))
          | inr d ↦ elim (Bool-cases (in_cooldown m.last_on_demand now)) [
            | inl c ↦ rw (ensure_route, k, d, c) (inl (refl, refl))
            | inr c ↦
                rw (ensure_route, k, d, c)
                  (inr (refl, refl, refresh_keeps fetch (with_last_on_demand m now) file))
          ]
        ]
      ]

-- When the next request may ask the source, at `now` at the earliest.
unfoldable next_allowed : Option ℕ → ℕ → ℕ
next_allowed none now = now
next_allowed (some last) now = last + 30 * second

-- The last request was not later than `now`.
abbrev IsPast : Option ℕ → ℕ → Type 0
IsPast none now = Unit
IsPast (some last) now = last ≤ now

module _ (lib : Library) (windows : Bool) (base : TelegramConfig) (remote : TopologyConfig) where
  -- The bound from a running manager on.
  abbrev IsBounded : List Event → ℕ → Option ℕ → ℕ → Relay → Type 0
  IsBounded events start last end relay =
      asked_in lib windows base remote events relay * (30 * second) + next_allowed last start
      ≤ end + 30 * second

  bound_empty :
      (start end : ℕ) (last : Option ℕ)
      → IsPast last start
      → start ≤ end
      → next_allowed last start ≤ end + 30 * second
  unfolding next_allowed
  bound_empty start end none p l = omega (arith, l)
  bound_empty start end (some t) p l = omega (arith, p, l)

  -- A request that does not ask the source.
  bound_quiet :
      (start now end count : ℕ) (last : Option ℕ)
      → start ≤ now
      → count * (30 * second) + next_allowed last now ≤ end + 30 * second
      → (0 + count) * (30 * second) + next_allowed last start ≤ end + 30 * second
  unfolding next_allowed
  bound_quiet start now end count none l b = omega (arith, l, b)
  bound_quiet start now end count (some t) l b = omega (arith, b)

  -- A request that asks the source.
  bound_asked :
      (start now end count : ℕ) (last : Option ℕ)
      → start ≤ now
      → in_cooldown last now ≡ false
      → count * (30 * second) + next_allowed (some now) now ≤ end + 30 * second
      → (1 + count) * (30 * second) + next_allowed last start ≤ end + 30 * second
  unfolding next_allowed in_cooldown
  bound_asked start now end count none l c b = omega (arith, l, b)
  bound_asked start now end count (some t) l c b = ground (arith, l, c, b)

  IsPast-later :
      (last : Option ℕ) (start now : ℕ) → start ≤ now → IsPast last start → IsPast last now
  IsPast-later none start now l p = tt
  IsPast-later (some t) start now l p = omega (arith, l, p)

  refreshes-running :
      (fetch : Fetch) (relay : Relay) (m : TopologyManager)
      → relay.running ≡ some m
      → (step lib windows base remote (refreshes fetch) relay).running
        ≡ some ((refresh lib windows fetch m relay.file).manager)
  unfolding step
  refreshes-running fetch relay m e = rw (step, e) refl

  ensures-running :
      (dc : ℕ) (test media : Bool) (now : ℕ) (fetch : Fetch) (relay : Relay) (m : TopologyManager)
      → relay.running ≡ some m
      → ((step lib windows base remote (ensures dc test media now fetch) relay).running
          ≡ some ((ensure_route lib windows dc test media now fetch m relay.file).manager))
        × (asks lib windows base remote (ensures dc test media now fetch) relay
            ≡ to_ℕ ((ensure_route lib windows dc test media now fetch m relay.file).refreshed))
  unfolding step
  ensures-running dc test media now fetch relay m e = rw (step, e) (refl, refl)

  asked_bound :
      (events : List Event) (start end : ℕ) (relay : Relay) (m : TopologyManager)
      → relay.running ≡ some m
      → IsPast m.last_on_demand start
      → IsWithin start events end
      → IsBounded events start m.last_on_demand end relay
  asked_bound [] start end relay m e p w = omega (arith, bound_empty start end m.last_on_demand p w)
  asked_bound (refreshes fetch ∷ events) start end relay m e p w =
      let same = refresh_keeps lib windows fetch m relay.file in
      let after = step lib windows base remote (refreshes fetch) relay in
      omega (
        arith,
        subst
            (λ last.
              asked_in lib windows base remote events after * (30 * second)
                + next_allowed last start
              ≤ end + 30 * second)
            same
            (asked_bound events start end after _ (refreshes-running fetch relay m e)
              (subst (λ last. IsPast last start) (sym same) p) w),
      )
  asked_bound (ensures dc test media now fetch ∷ events) start end relay m e p (l, w) =
      let after = step lib windows base remote (ensures dc test media now fetch) relay in
      let (r, a) = ensures-running dc test media now fetch relay m e in
      let rest = asked_in lib windows base remote events after in
      elim (ensure_route-Keeps lib windows dc test media now fetch m relay.file) [
        | inl (quiet, same) ↦
            subst
              (λ n.
                (n + rest) * (30 * second) + next_allowed m.last_on_demand start
                ≤ end + 30 * second)
              (sym (a ∙ ap to_ℕ quiet))
              (bound_quiet start now end rest m.last_on_demand l (
                subst (λ last. rest * (30 * second) + next_allowed last now ≤ end + 30 * second)
                  same
                  (asked_bound events now end after _ r
                    (subst (λ last. IsPast last now) (sym same)
                      (IsPast-later m.last_on_demand start now l p))
                    w)))
        | inr (asked, over, moved) ↦
            subst
              (λ n.
                (n + rest) * (30 * second) + next_allowed m.last_on_demand start
                ≤ end + 30 * second)
              (sym (a ∙ ap to_ℕ asked))
              (bound_asked start now end rest m.last_on_demand l over (
                subst (λ last. rest * (30 * second) + next_allowed last now ≤ end + 30 * second)
                  moved
                  (asked_bound events now end after _ r
                    (subst (λ last. IsPast last now) (sym moved) (omega arith)) w)))
      ]
  asked_bound (restarts now readable ∷ events) start end relay m e p w = elim w [ ]

  -- From a start on, whatever requests for routes and refreshes follow without a restart and under a clock that does not go
  -- back, the requests make the relay ask its source at most once per 30 seconds: one time and then one for each 30
  -- seconds that have gone by.
  pub asked_in-bound :
      (events : List Event) (start end : ℕ) (relay : Relay) (m : TopologyManager)
      → relay.running ≡ some m
      → m.last_on_demand ≡ none
      → IsWithin start events end
      → asked_in lib windows base remote events relay * (30 * second) + start ≤ end + 30 * second
  unfolding next_allowed
  asked_in-bound events start end relay m e n w =
      subst
        (λ last.
          asked_in lib windows base remote events relay * (30 * second) + next_allowed last start
          ≤ end + 30 * second)
        n (asked_bound events start end relay m e (subst (λ last. IsPast last start) (sym n) tt) w)
