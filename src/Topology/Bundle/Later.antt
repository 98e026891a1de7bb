-- ===== src/Topology/Bundle/Later.antt =====
-- A bundle that has been verified stays so where an expired one is allowed
-- (internal/topology/bundle.go: `Verify`).
use tg_proxy_relay.Prelude.{ℕ, ◌≤◌, ◌≡◌, inl, refl, ◌∙◌, ap, Bool, true, Bytes, arith}
use tg_proxy_relay.Topology.Bundle.{Snapshot, Library, accepted, verify}
use tg_proxy_relay.Topology.Bundle.Sound.{
  signature_complete, IsVerified, HasValidPayload, verify-IsVerified, verify_complete,
}

module _ (lib : Library) where
  expired_payload :
      (raw key : Bytes) (now later : ℕ) (allow_expired : Bool) (s : Snapshot)
      → (w : IsVerified lib raw key now allow_expired s) → now ≤ later
      → HasValidPayload lib w.bundle.payload later true s.not_before s.expires_at
  expired_payload raw key now later allow_expired s w l =
      let p = w.is_payload in
      record {
        has_schema = p.has_schema;
        has_generation = p.has_generation;
        begins = p.begins;
        ends = p.ends;
        is_timely = record {
          is_interval = p.is_timely.is_interval;
          has_begun = omega (arith, l, p.is_timely.has_begun);
          has_not_ended = inl refl;
          is_short = p.is_timely.is_short;
        };
        has_production = p.has_production;
        production_routes = p.production_routes;
        test_routes = p.test_routes;
        counts = p.counts;
      }

  pub verify-later :
      (raw key : Bytes) (now later : ℕ) (allow_expired : Bool) (s : Snapshot)
      → verify lib raw key now allow_expired ≡ accepted s
      → now ≤ later
      → verify lib raw key later true ≡ accepted s
  verify-later raw key now later allow_expired s v l =
      let w = verify-IsVerified lib raw key now allow_expired s v in
      verify_complete lib raw key w.bundle w.rest w.canonical later true s.not_before s.expires_at
        w.has_size w.decodes w.ends_there (expired_payload raw key now later allow_expired s w l)
        w.marshals (signature_complete lib key w.canonical w.bundle.signature w.is_signed)
      ∙ ap accepted (same_snapshot s w)
    where
      same_snapshot :
          (s : Snapshot) (w : IsVerified lib raw key now allow_expired s)
          → record {
            generation = w.bundle.payload.generation;
            not_before = s.not_before;
            expires_at = s.expires_at;
            production = w.bundle.payload.production;
            test = w.bundle.payload.test;
            raw = raw;
          }
            ≡ s
      same_snapshot s w =
          rw⁻¹ (w.same_generation, w.same_routes.0, w.same_routes.1, w.same_raw) refl
