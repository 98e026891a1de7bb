-- ===== src/Topology/Manager/History.antt =====
-- The life of a relay's topology: refreshes, requests for routes and restarts in any order
-- (internal/relay/topology_manager.go). The configuration stays the same over the restarts.
use tg_proxy_relay.Prelude.{
  ℕ, ◌≤◌, ◌≡◌, ◌⊎◌, sym, ◌∙◌, ap, Bool, true, false, ◌==◌, nat_eq, bytes_eq, List, [], ◌∷◌, Bytes,
  Option, none, some, arith,
}
use mathlib.Core.Option.{some-injective}
use tg_proxy_relay.Prelude.Text.{trim_space}
use tg_proxy_relay.Config.Endpoints.{TelegramConfig}
use tg_proxy_relay.Topology.Bundle.{Snapshot, Library, accepted, verify}
use tg_proxy_relay.Topology.Bundle.Sound.{verify-IsVerified}
use tg_proxy_relay.Topology.Manager.{
  TopologyConfig, TopologyManager, Fetch, FileRead, missing, failed, content, revision,
  decode_topology_public_key, new_topology_manager, refresh, ensure_route,
}

-- A relay's manager, when it runs, and the file.
pub record Relay : Type 0 where
  pub running : Option TopologyManager
  pub file : Option Bytes

pub data Event : Type 0 where
  refreshes : Fetch → Event
  -- data centre, network, kind, moment, and what the source answers
  ensures : ℕ → Bool → Bool → ℕ → Fetch → Event
  -- the moment, and whether the file can be read
  restarts : ℕ → Bool → Event

abbrev pub read_file : Bool → Option Bytes → FileRead
read_file false f = failed
read_file true none = missing
read_file true (some bytes) = content bytes

module _ (lib : Library) (windows : Bool) (base : TelegramConfig) (remote : TopologyConfig) where
  unfoldable pub step : Event → Relay → Relay
  step (refreshes fetch) relay = elim relay.running [
    | none ↦ relay
    | some m ↦
        let r = refresh lib windows fetch m relay.file in
        record { running = some r.manager; file = r.file }
  ]
  step (ensures dc test media now fetch) relay = elim relay.running [
    | none ↦ relay
    | some m ↦
        let e = ensure_route lib windows dc test media now fetch m relay.file in
        record { running = some e.manager; file = e.file }
  ]
  step (restarts now readable) relay = record {
    running = new_topology_manager lib base remote (read_file readable relay.file) now;
    file = relay.file;
  }

  unfoldable pub run : List Event → Relay → Relay
  run [] relay = relay
  run (event ∷ events) relay = run events (step event relay)

-- What every bundle that is read from `raw` has: at least the generation `g`.
abbrev pub Carries : Library → Bytes → Bytes → ℕ → Type 0
Carries lib raw key g =
    (now : ℕ) (allow_expired : Bool) (t : Snapshot)
    → verify lib raw key now allow_expired ≡ accepted t
    → g ≤ t.generation

pub verified-Carries :
    (lib : Library) (raw key : Bytes) (now : ℕ) (allow_expired : Bool) (s : Snapshot)
    → verify lib raw key now allow_expired ≡ accepted s
    → Carries lib raw key s.generation
verified-Carries lib raw key now allow_expired s v later allow t w =
    let a = verify-IsVerified lib raw key now allow_expired s v in
    let b = verify-IsVerified lib raw key later allow t w in
    let same : a.bundle ≡ b.bundle =
      ap (λ p. p.0) (some-injective _ _ (sym a.decodes ∙ b.decodes)) in
    omega (arith, a.same_generation, b.same_generation, ap (λ c. c.payload.generation) same)

module _ (lib : Library) (base : TelegramConfig) (remote : TopologyConfig) where
  -- The file holds a bundle of generation `g` or later, if `g` is not 0.
  abbrev pub Stored : Option Bytes → ℕ → Type 0
  Stored file g =
      (g ≡ 0)
      ⊎ ((raw : Bytes) × (file ≡ some raw)
          × ((trim_space remote.url == []) ≡ false)
          × ((key : Bytes)
              → decode_topology_public_key lib remote.public_key ≡ some key
              → Carries lib raw key g))

  pub record Follows (file : Option Bytes) (g : ℕ) (m : TopologyManager) : Type 0 where
    pub same_base : m.base ≡ base
    pub same_remote : m.remote ≡ remote
    pub has_key :
        (decode_topology_public_key lib remote.public_key ≡ some m.public_key)
          × ((trim_space remote.url == []) ≡ false)
        ⊎ ((trim_space remote.url == []) ≡ true) × (m.current ≡ none) × (m.has_client ≡ false)
    pub at_least : g ≤ revision m
    pub is_stored : Stored file (revision m)

  pub record IsBacked (g : ℕ) (relay : Relay) : Type 0 where
    pub is_stored : Stored relay.file g
    pub follows : (m : TopologyManager) → relay.running ≡ some m → Follows relay.file g m
