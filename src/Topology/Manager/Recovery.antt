-- ===== src/Topology/Manager/Recovery.antt =====
-- A refresh applies what the source serves, and a restart takes it up again
-- (internal/relay/topology_manager.go: `refresh`, `persistTopologySnapshot`, `newTopologyManager`).
use tg_proxy_relay.Prelude.{
  ℕ, ◌≤◌, ◌<◌, ◌≡◌, inl, inr, refl, sym, ◌∙◌, ap, subst, Bool, true, false, not, ◌||◌, ltb, ◌==◌,
  nat_eq, bytes_eq, [], Bytes, length, Option, none, some, Option-cases, Bool-cases, arith,
}
use tg_proxy_relay.Prelude.Text.{trim_space}
use tg_proxy_relay.Topology.Bundle.{max_bundle_bytes, Snapshot, Library, accepted, verify}
use tg_proxy_relay.Topology.Bundle.Sound.{IsVerified, verify-IsVerified}
use tg_proxy_relay.Topology.Bundle.Later.{verify-later}
use tg_proxy_relay.Topology.Manager.{
  TopologyManager, FileCalls, Fetch, Response, persist_topology_snapshot, with_current, is_newer,
  apply_bundle, refresh, revision, dynamic, decode_topology_public_key, new_topology_manager,
}
use tg_proxy_relay.Topology.Manager.History.{read_file}

-- Every call on files succeeds.
pub record AllSucceed (calls : FileCalls) : Type 0 where
  pub directory_made : calls.directory_made ≡ true
  pub temporary_made : calls.temporary_made ≡ true
  pub mode_set : calls.mode_set ≡ true
  pub written : calls.written ≡ true
  pub synced : calls.synced ≡ true
  pub closed : calls.closed ≡ true
  pub removed : calls.removed ≡ true
  pub renamed : calls.renamed ≡ true
  pub directory_synced : calls.directory_synced ≡ true

persist_succeeds :
    (windows : Bool) (calls : FileCalls) (file : Option Bytes) (bytes : Bytes)
    → AllSucceed calls
    → persist_topology_snapshot windows calls file bytes ≡ (some bytes, true)
unfolding persist_topology_snapshot
persist_succeeds windows calls file bytes a = elim (Bool-cases windows) [
  | inl w ↦
      rw
        (
          persist_topology_snapshot, a.directory_made, a.temporary_made, a.mode_set, a.written,
          a.synced, a.closed, w, a.removed, a.renamed,
        )
        refl
  | inr w ↦ elim (Bool-cases calls.directory_opened) [
    | inl o ↦
        rw
          (
            persist_topology_snapshot, a.directory_made, a.temporary_made, a.mode_set, a.written,
            a.synced, a.closed, w, a.renamed, o, a.directory_synced,
          )
          refl
    | inr o ↦
        rw
          (
            persist_topology_snapshot, a.directory_made, a.temporary_made, a.mode_set, a.written,
            a.synced, a.closed, w, a.renamed, o,
          )
          refl
  ]
]

-- The source answers with the body `bytes`, and nothing stands in the way of using it.
pub record Serves (fetch : Fetch) (m : TopologyManager) (bytes : Bytes) : Type 0 where
  pub response : Response
  pub is_client : m.has_client ≡ true
  pub is_dynamic : dynamic m ≡ true
  pub is_not_cancelled : fetch.cancelled ≡ false
  pub is_requested : fetch.requested ≡ true
  pub answers : fetch.response ≡ some response
  pub is_ok : response.status ≡ 200
  pub has_body : response.body ≡ some bytes
  pub files_work : AllSucceed fetch.files

module _ (lib : Library) (windows : Bool) where
  later_is_newer :
      (m : TopologyManager) (s : Snapshot) → revision m < s.generation → is_newer s m.current ≡ true
  unfolding is_newer revision
  later_is_newer m s = elim (Option-cases m.current) [
    | inl e ↦ rw e (λ l. refl)
    | inr (c, e) ↦ rw e (λ l. ground (arith, l))
  ]

  refresh-apply_bundle :
      (fetch : Fetch) (m : TopologyManager) (file : Option Bytes) (bytes : Bytes)
      → Serves fetch m bytes
      → refresh lib windows fetch m file ≡ apply_bundle lib windows fetch m file bytes
  unfolding refresh apply_bundle
  refresh-apply_bundle fetch m file bytes v =
      rw (refresh, open_guard, v.answers, v.is_ok, v.has_body) refl
    where
      open_guard :
          not m.has_client || not (dynamic m) || fetch.cancelled || not fetch.requested ≡ false
      open_guard = ground (arith, v.is_client, v.is_dynamic, v.is_not_cancelled, v.is_requested)

  apply_bundle_applies :
      (fetch : Fetch) (m : TopologyManager) (file : Option Bytes) (bytes : Bytes) (s : Snapshot)
      → AllSucceed fetch.files
      → verify lib bytes m.public_key fetch.now false ≡ accepted s
      → revision m < s.generation
      → apply_bundle lib windows fetch m file bytes
        ≡ record { manager = with_current m s; file = some bytes; ok = true }
  unfolding apply_bundle
  apply_bundle_applies fetch m file bytes s a v l =
      rw
        (
          apply_bundle,
          size_test,
          v,
          persist_succeeds windows fetch.files file s.raw a,
          later_is_newer m s l,
        )
        (ap (λ b. record { manager = with_current m s; file = some b; ok = true }) w.same_raw)
    where
      w : IsVerified lib bytes m.public_key fetch.now false s
      w = verify-IsVerified lib bytes m.public_key fetch.now false s v

      size_test : ltb max_bundle_bytes (length bytes) ≡ false
      size_test = ground (arith, w.has_size)

  -- When the source serves a bundle that is verified and later than what the manager follows, and the calls
  -- on files work, then a refresh succeeds and the manager follows that bundle; a restart at any later
  -- moment, with the same configuration and key, starts and follows the same bundle, even one that has expired meanwhile.
  pub refresh-new_topology_manager :
      (fetch : Fetch) (m : TopologyManager) (file : Option Bytes) (bytes : Bytes) (s : Snapshot)
      (later : ℕ)
      → Serves fetch m bytes
      → verify lib bytes m.public_key fetch.now false ≡ accepted s
      → revision m < s.generation
      → decode_topology_public_key lib m.remote.public_key ≡ some m.public_key
      → fetch.now ≤ later
      → (refresh lib windows fetch m file
          ≡ record { manager = with_current m s; file = some bytes; ok = true })
        × ((restarted : TopologyManager) × (new_topology_manager lib m.base m.remote
                (read_file true (refresh lib windows fetch m file).file)
                later
              ≡ some restarted)
            × (restarted.current ≡ some s))
  unfolding new_topology_manager dynamic
  refresh-new_topology_manager fetch m file bytes s later serves v l k n =
      let applied =
        refresh-apply_bundle fetch m file bytes serves
        ∙ apply_bundle_applies fetch m file bytes s serves.files_work v l in
      (
        applied,
        subst Resumes (sym (ap (λ r. r.file) applied)) (
          started,
          rw
              (
                new_topology_manager,
                has_url,
                k,
                verify-later lib bytes m.public_key fetch.now later false s v n,
              )
              refl,
          refl,
        ),
      )
    where
      Resumes : Option Bytes → Type 0
      Resumes after =
          (restarted : TopologyManager) × (new_topology_manager lib m.base m.remote
              (read_file true after) later
            ≡ some restarted)
          × (restarted.current ≡ some s)

      has_url : (trim_space m.remote.url == []) ≡ false
      has_url = ground (arith, serves.is_dynamic)

      started : TopologyManager
      started = record {
        last_on_demand = none;
        base = m.base;
        remote = m.remote;
        public_key = m.public_key;
        current = some s;
        has_client = true;
      }
