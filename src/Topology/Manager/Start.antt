-- ===== src/Topology/Manager/Start.antt =====
-- What a manager starts with (internal/relay/topology_manager.go: `newTopologyManager`).
use tg_proxy_relay.Prelude.{
  ℕ, ◌≡◌, ◌⊎◌, inl, inr, refl, subst, true, false, ◌==◌, bytes_eq, [], Bytes, Option, none, some,
  Bool-cases, Option-cases,
}
use mathlib.Core.Option.{some-injective}
use tg_proxy_relay.Prelude.Text.{trim_space}
use tg_proxy_relay.Config.Endpoints.{TelegramConfig}
use tg_proxy_relay.Topology.Bundle.{
  Snapshot, Library, Verified, BundleError, rejected, accepted, verify,
}
use tg_proxy_relay.Topology.Manager.{
  TopologyConfig, TopologyManager, FileRead, missing, failed, content, decode_topology_public_key,
  new_topology_manager,
}

pub Verified-cases :
    (v : Verified) → ((e : BundleError) × (v ≡ rejected e)) ⊎ ((s : Snapshot) × (v ≡ accepted s))
Verified-cases (rejected e) = inl (e, refl)
Verified-cases (accepted s) = inr (s, refl)

module _ (lib : Library) (base : TelegramConfig) (remote : TopologyConfig) where
  -- The snapshot is the file's, if there is a file.
  abbrev pub IsLoaded : FileRead → ℕ → TopologyManager → Type 0
  IsLoaded read now m =
      (read ≡ missing) × (m.current ≡ none)
      ⊎ ((bytes : Bytes) × (s : Snapshot) × (read ≡ content bytes)
          × (verify lib bytes m.public_key now true ≡ accepted s)
          × (m.current ≡ some s))

  pub record IsStart (read : FileRead) (now : ℕ) (m : TopologyManager) : Type 0 where
    pub same_base : m.base ≡ base
    pub same_remote : m.remote ≡ remote
    pub no_request : m.last_on_demand ≡ none
    pub follows :
        ((trim_space remote.url == []) ≡ true) × (m.current ≡ none) × (m.has_client ≡ false)
        ⊎ ((trim_space remote.url == []) ≡ false)
          × (decode_topology_public_key lib remote.public_key ≡ some m.public_key)
          × IsLoaded read now m

  pub new_topology_manager-IsStart :
      (read : FileRead) (now : ℕ) (m : TopologyManager)
      → new_topology_manager lib base remote read now ≡ some m
      → IsStart read now m
  unfolding new_topology_manager
  new_topology_manager-IsStart read now m = elim (Bool-cases (trim_space remote.url == [])) [
    | inl u ↦
        rw (new_topology_manager, u)
          (λ h. subst (IsStart read now) (some-injective _ _ h) (record {
            same_base = refl;
            same_remote = refl;
            no_request = refl;
            follows = inl (u, refl, refl);
          }))
    | inr u ↦ elim (Option-cases (decode_topology_public_key lib remote.public_key)) [
      | inl k ↦ rw (new_topology_manager, u, k) (λ h. absurd cc)
      | inr (key, k) ↦ rw (new_topology_manager, u, k) (from_file u key k read)
    ]
  ]
    where
      from_file :
          (trim_space remote.url == []) ≡ false
          → (key : Bytes) → decode_topology_public_key lib remote.public_key ≡ some key
          → (read : FileRead)
          → (elim read as (λ _. Option TopologyManager) [
            | missing ↦ some (record {
              last_on_demand = none;
              base = base;
              remote = remote;
              public_key = key;
              current = none;
              has_client = true;
            })
            | failed ↦ none
            | content bytes ↦
                elim (verify lib bytes key now true) as (λ _. Option TopologyManager) [
                  | rejected e ↦ none
                  | accepted s ↦ some (record {
                    last_on_demand = none;
                    base = base;
                    remote = remote;
                    public_key = key;
                    current = some s;
                    has_client = true;
                  })
                ]
          ])
            ≡ some m
          → IsStart read now m
      from_file u key k missing = λ h. subst (IsStart missing now) (some-injective _ _ h) (record {
        same_base = refl;
        same_remote = refl;
        no_request = refl;
        follows = inr (u, k, inl (refl, refl));
      })
      from_file u key k failed = λ h. absurd cc
      from_file u key k (content bytes) = elim (Verified-cases (verify lib bytes key now true)) [
        | inl (e, v) ↦ rw v (λ h. absurd cc)
        | inr (s, v) ↦ rw v (λ h.
            subst (IsStart (content bytes) now) (some-injective _ _ h) (record {
              same_base = refl;
              same_remote = refl;
              no_request = refl;
              follows = inr (u, k, inr (bytes, s, refl, v, refl));
            }))
      ]
