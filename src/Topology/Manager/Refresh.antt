-- ===== src/Topology/Manager/Refresh.antt =====
-- What a refresh leaves behind (internal/relay/topology_manager.go: `refresh`, `newTopologyManager`,
-- `persistTopologySnapshot`).
use tg_proxy_relay.Prelude.{
  ◌<◌, ◌≡◌, ◌⊎◌, inl, inr, refl, sym, ◌∙◌, ap, subst, Bool, true, false, not, ◌||◌, ltb, ◌==◌,
  nat_eq, Bytes, length, Option, some, Bool-cases, Option-cases, arith,
}
use tg_proxy_relay.Topology.Bundle.{
  max_bundle_bytes, Snapshot, Library, Verified, rejected, accepted, verify,
}
use tg_proxy_relay.Topology.Bundle.Sound.{verify-IsVerified}
use tg_proxy_relay.Topology.Manager.{
  TopologyManager, FileCalls, Fetch, Refreshed, persist_topology_snapshot, with_current, is_newer,
  apply_bundle, refresh, revision, dynamic,
}

-- Without Windows, a file that is written holds the new bytes, and a failure leaves the old file or the new one.
pub persist_file :
    (calls : FileCalls) (file : Option Bytes) (bytes : Bytes)
    → ((persist_topology_snapshot false calls file bytes).0 ≡ some bytes)
      ⊎ ((persist_topology_snapshot false calls file bytes).0 ≡ file)
        × ((persist_topology_snapshot false calls file bytes).1 ≡ false)
unfolding persist_topology_snapshot
persist_file calls file bytes = ground arith

pub persist_written :
    (calls : FileCalls) (file : Option Bytes) (bytes : Bytes)
    → (persist_topology_snapshot false calls file bytes).1 ≡ true
    → (persist_topology_snapshot false calls file bytes).0 ≡ some bytes
unfolding persist_topology_snapshot
persist_written calls file bytes h = ground arith

module _ (lib : Library) (windows : Bool) where
  -- A bundle that is verified and of a later generation than the manager's.
  pub record IsFresh (fetch : Fetch) (m : TopologyManager) (bytes : Bytes) (s : Snapshot)
      : Type 0 where
    pub verifies : verify lib bytes m.public_key fetch.now false ≡ accepted s
    pub is_later : revision m < s.generation
    pub is_client : m.has_client ≡ true

  abbrev pub RefreshOutcome : Fetch → TopologyManager → Option Bytes → Refreshed → Type 0
  RefreshOutcome fetch m file r =
      (r.manager ≡ m) × (r.file ≡ file)
      ⊎ ((bytes : Bytes) × (s : Snapshot) × IsFresh fetch m bytes s
          × (r.file ≡ (persist_topology_snapshot windows fetch.files file bytes).0)
          × (r.ok ≡ (persist_topology_snapshot windows fetch.files file bytes).1)
          × ((r.ok ≡ true) × (r.manager ≡ with_current m s) ⊎ (r.ok ≡ false) × (r.manager ≡ m)))

  newer_iff :
      (m : TopologyManager) (s : Snapshot)
      → 0 < s.generation
      → is_newer s m.current ≡ true
      → revision m < s.generation
  unfolding is_newer revision
  newer_iff m s h = elim (Option-cases m.current) [
    | inl e ↦ rw e (λ n. h)
    | inr (c, e) ↦ rw e (λ n. ground (arith, n))
  ]

  apply_outcome :
      (fetch : Fetch) (m : TopologyManager) (file : Option Bytes) (bytes : Bytes)
      → m.has_client ≡ true
      → RefreshOutcome fetch m file (apply_bundle lib windows fetch m file bytes)
  unfolding apply_bundle
  apply_outcome fetch m file bytes client =
      elim (Bool-cases (ltb max_bundle_bytes (length bytes))) [
        | inl z ↦ rw (apply_bundle, z) (inl (refl, refl))
        | inr z ↦ elim (verified (verify lib bytes m.public_key fetch.now false)) [
          | inl (e, v) ↦ rw (apply_bundle, z, v) (inl (refl, refl))
          | inr (s, v) ↦ elim (Bool-cases (is_newer s m.current)) [
            | inr n ↦ rw (apply_bundle, z, v, n) (inl (refl, refl))
            | inl n ↦
                elim (Bool-cases ((persist_topology_snapshot windows fetch.files file s.raw).1)) [
                  | inl p ↦
                      rw (apply_bundle, z, v, n, p)
                        (inr (
                          bytes,
                          s,
                          fresh s v n,
                          ap (λ b. (persist_topology_snapshot windows fetch.files file b).0)
                              (raw_of s v),
                          sym p
                              ∙ ap (λ b. (persist_topology_snapshot windows fetch.files file b).1)
                                  (raw_of s v),
                          inl (refl, refl),
                        ))
                  | inr p ↦
                      rw (apply_bundle, z, v, n, p)
                        (inr (
                          bytes,
                          s,
                          fresh s v n,
                          ap (λ b. (persist_topology_snapshot windows fetch.files file b).0)
                              (raw_of s v),
                          sym p
                              ∙ ap (λ b. (persist_topology_snapshot windows fetch.files file b).1)
                                  (raw_of s v),
                          inr (refl, refl),
                        ))
                ]
          ]
        ]
      ]
    where
      verified : (v : Verified) → ((e : _) × (v ≡ rejected e)) ⊎ ((s : Snapshot) × (v ≡ accepted s))
      verified (rejected e) = inl (e, refl)
      verified (accepted s) = inr (s, refl)

      raw_of :
          (s : Snapshot)
          → verify lib bytes m.public_key fetch.now false ≡ accepted s
          → s.raw ≡ bytes
      raw_of s v = (verify-IsVerified lib bytes m.public_key fetch.now false s v).same_raw

      fresh :
          (s : Snapshot)
          → verify lib bytes m.public_key fetch.now false ≡ accepted s
          → is_newer s m.current ≡ true
          → IsFresh fetch m bytes s
      fresh s v n =
          let w = verify-IsVerified lib bytes m.public_key fetch.now false s v in
          record {
            verifies = v;
            is_later =
                newer_iff m s (omega (arith, w.same_generation, w.is_payload.has_generation)) n;
            is_client = client;
          }

  refresh-cases :
      (fetch : Fetch) (m : TopologyManager) (file : Option Bytes)
      → (refresh lib windows fetch m file ≡ record { manager = m; file = file; ok = false })
        ⊎ ((bytes : Bytes) × (m.has_client ≡ true)
            × (refresh lib windows fetch m file ≡ apply_bundle lib windows fetch m file bytes))
  unfolding refresh apply_bundle
  refresh-cases fetch m file =
      elim (Bool-cases
        (not m.has_client || not (dynamic m) || fetch.cancelled || not fetch.requested)) [
          | inl g ↦ inl (rw (refresh, g) refl)
          | inr g ↦ elim (Option-cases fetch.response) [
            | inl r ↦ inl (rw (refresh, g, r) refl)
            | inr (response, r) ↦ elim (Bool-cases (response.status == 200)) [
              | inr k ↦ inl (rw (refresh, g, r, k) refl)
              | inl k ↦ elim (Option-cases response.body) [
                | inl b ↦ inl (rw (refresh, g, r, k, b) refl)
                | inr (bytes, b) ↦ inr (bytes, ground (arith, g), rw (refresh, g, r, k, b) refl)
              ]
            ]
          ]
        ]

  -- A refresh changes nothing, or a bundle that the manager's key has signed and that is later than
  -- its revision is written to the file, and is the manager's from then on exactly when writing succeeds.
  pub refresh-RefreshOutcome :
      (fetch : Fetch) (m : TopologyManager) (file : Option Bytes)
      → RefreshOutcome fetch m file (refresh lib windows fetch m file)
  refresh-RefreshOutcome fetch m file = elim (refresh-cases fetch m file) [
    | inl e ↦ subst (RefreshOutcome fetch m file) (sym e) (inl (refl, refl))
    | inr (bytes, c, e) ↦
        subst (RefreshOutcome fetch m file) (sym e) (apply_outcome fetch m file bytes c)
  ]
