-- ===== src/Topology/Bundle/Sound.antt =====
-- What a verified bundle is (internal/topology/bundle.go: `Verify`, `validatePayload`).
use tg_proxy_relay.Prelude.{
  ℕ, ◌+◌, ◌*◌, ◌≤◌, ◌<◌, ◌≡◌, ◌↔◌, ◌⊎◌, inl, inr, refl, ap, subst, Bool, true, false, not, ◌||◌,
  ltb, ◌==◌, nat_eq, Bytes, length, none, some, Bool-cases, Option-cases, arith, All,
}
use tg_proxy_relay.Config.Accepted.{IsValidRoute, validate_telegram_dc_options_iff}
use tg_proxy_relay.Config.Options.{validate_telegram_dc_options}
use tg_proxy_relay.Topology.Bundle.{
  second, max_bundle_bytes, schema_version, Payload, Bundle, Snapshot, Library, Verified, rejected,
  accepted, time_or_zero, validate_times, validate_routes_of, validate_payload, decode_base64,
  signature_holds, verify_bundle, verify,
}

-- A bundle may be used: the interval of its times holds `now` with five minutes of tolerance before
-- it, and is at most 90 days long.
pub record IsTimely (not_before expires_at now : ℕ) (allow_expired : Bool) : Type 0 where
  pub is_interval : not_before < expires_at
  pub has_begun : not_before ≤ now + 5 * 60 * second
  pub has_not_ended : (allow_expired ≡ true) ⊎ (now < expires_at)
  pub is_short : expires_at ≤ not_before + 90 * 24 * 3600 * second

module _ (lib : Library) where
  pub record HasValidPayload (payload : Payload) (now : ℕ) (allow_expired : Bool)
      (not_before expires_at : ℕ) : Type 0 where
    pub has_schema : payload.schema ≡ schema_version
    pub has_generation : 0 < payload.generation
    pub begins : lib.parse_time payload.not_before ≡ some not_before
    pub ends : lib.parse_time payload.expires_at ≡ some expires_at
    pub is_timely : IsTimely not_before expires_at now allow_expired
    pub has_production : 0 < length payload.production
    pub production_routes : All (IsValidRoute lib.net lib.go) payload.production
    pub test_routes : All (IsValidRoute lib.net lib.go) payload.test
    pub counts : (length payload.production ≤ 32) × (length payload.test ≤ 32)

  times_iff :
      (not_before expires_at now : ℕ) (allow_expired : Bool)
      → (validate_times not_before expires_at now allow_expired ≡ none)
        ↔ IsTimely not_before expires_at now allow_expired
  unfolding validate_times
  times_iff not_before expires_at now allow_expired = (λ h. ground arith, λ h. ground arith)

  -- The routes of a payload are valid.
  abbrev HasValidRoutes : Payload → Type 0
  HasValidRoutes payload =
      (0 < length payload.production)
      × ((length payload.production ≤ 32) × All (IsValidRoute lib.net lib.go) payload.production)
      × ((length payload.test ≤ 32) × All (IsValidRoute lib.net lib.go) payload.test)

  routes_iff :
      (payload : Payload) → (validate_routes_of lib payload ≡ none) ↔ HasValidRoutes payload
  unfolding validate_routes_of
  routes_iff payload = elim (Bool-cases (length payload.production == 0)) [
    | inl e ↦ rw (validate_routes_of, e) (λ h. absurd cc, λ r. absurd (ground (arith, e, r.0)))
    | inr e ↦ elim (Option-cases (validate_telegram_dc_options lib.net lib.go payload.production)) [
      | inr (x, p) ↦
          rw (validate_routes_of, e, p)
            (
              λ h. absurd cc,
              λ r. absurd (
                  cc (
                    p,
                    (validate_telegram_dc_options_iff lib.net lib.go payload.production).1 r.1,
                  )),
            )
      | inl p ↦ elim (Option-cases (validate_telegram_dc_options lib.net lib.go payload.test)) [
        | inr (x, t) ↦
            rw (validate_routes_of, e, p, t)
              (
                λ h. absurd cc,
                λ r.
                    absurd (
                      cc (t, (validate_telegram_dc_options_iff lib.net lib.go payload.test).1 r.2)),
              )
        | inl t ↦
            rw (validate_routes_of, e, p, t)
              (
                λ h. (
                  ground (arith, e),
                  (validate_telegram_dc_options_iff lib.net lib.go payload.production).0 p,
                  (validate_telegram_dc_options_iff lib.net lib.go payload.test).0 t,
                ),
                λ r. refl,
              )
      ]
    ]
  ]

  pub payload_sound :
      (payload : Payload) (now : ℕ) (allow_expired : Bool)
      → validate_payload lib payload now allow_expired ≡ none
      → (not_before : ℕ) × (expires_at : ℕ) × HasValidPayload payload now allow_expired not_before
          expires_at
  unfolding validate_payload
  payload_sound payload now allow_expired =
      elim (Bool-cases (not (payload.schema == schema_version) || payload.generation == 0)) [
        | inl s ↦ rw (validate_payload, s) (λ h. absurd cc)
        | inr s ↦ elim (Option-cases (lib.parse_time payload.not_before)) [
          | inl b ↦ rw (validate_payload, s, b) (λ h. absurd cc)
          | inr (not_before, b) ↦ elim (Option-cases (lib.parse_time payload.expires_at)) [
            | inl e ↦ rw (validate_payload, s, b, e) (λ h. absurd cc)
            | inr (expires_at, e) ↦
                elim (Option-cases (validate_times not_before expires_at now allow_expired)) [
                  | inr (x, t) ↦ rw (validate_payload, s, b, e, t) (λ h. absurd cc)
                  | inl t ↦
                      rw (validate_payload, s, b, e, t)
                        (λ h.
                          let (some_route, production, tests) = (routes_iff payload).0 h in
                          (
                            not_before,
                            expires_at,
                            record {
                              has_schema = ground (arith, s);
                              has_generation = ground (arith, s);
                              begins = b;
                              ends = e;
                              is_timely = (times_iff not_before expires_at now allow_expired).0 t;
                              has_production = some_route;
                              production_routes = production.1;
                              test_routes = tests.1;
                              counts = (production.0, tests.0);
                            },
                          ))
                ]
          ]
        ]
      ]

  payload_complete :
      (payload : Payload) (now : ℕ) (allow_expired : Bool) (not_before expires_at : ℕ)
      → HasValidPayload payload now allow_expired not_before expires_at
      → validate_payload lib payload now allow_expired ≡ none
  unfolding validate_payload
  payload_complete payload now allow_expired not_before expires_at v =
      rw
        (
          validate_payload,
          schema_test,
          v.begins,
          v.ends,
          (times_iff not_before expires_at now allow_expired).1 v.is_timely,
          (routes_iff payload).1
              (v.has_production, (v.counts.0, v.production_routes), (v.counts.1, v.test_routes)),
        )
        refl
    where
      schema_test : not (payload.schema == schema_version) || payload.generation == 0 ≡ false
      schema_test = ground (arith, v.has_schema, v.has_generation)

  -- The text is the base64 of a signature of 64 bytes, which Ed25519 accepts for the message under a
  -- key of 32 bytes. Padding is allowed for a text that is no base64 without it.
  pub record IsSigned (public_key message text : Bytes) : Type 0 where
    pub signature : Bytes
    pub decodes :
        (lib.raw_std_decode text ≡ some signature)
        ⊎ (lib.raw_std_decode text ≡ none) × (lib.std_decode text ≡ some signature)
    pub signature_size : length signature ≡ 64
    pub key_size : length public_key ≡ 32
    pub verifies : lib.ed25519_verify public_key message signature ≡ true

  decoded_signature :
      (text signature : Bytes)
      → decode_base64 lib text ≡ some signature
      → (lib.raw_std_decode text ≡ some signature)
        ⊎ (lib.raw_std_decode text ≡ none) × (lib.std_decode text ≡ some signature)
  unfolding decode_base64
  decoded_signature text signature = elim (Option-cases (lib.raw_std_decode text)) [
    | inl n ↦ rw (decode_base64, n) (λ h. inr (refl, h))
    | inr (s, e) ↦ rw (decode_base64, e) (λ h. inl h)
  ]

  signature_sound :
      (public_key message text : Bytes)
      → signature_holds lib public_key message text ≡ true
      → IsSigned public_key message text
  unfolding signature_holds
  signature_sound public_key message text = elim (Option-cases (decode_base64 lib text)) [
    | inl n ↦ rw (signature_holds, n) (λ h. absurd cc)
    | inr (signature, e) ↦
        rw (signature_holds, e)
          (λ h. record {
            signature = signature;
            decodes = decoded_signature text signature e;
            signature_size = ground (arith, h);
            key_size = ground (arith, h);
            verifies = ground (arith, h);
          })
  ]

  pub signature_complete :
      (public_key message text : Bytes)
      → IsSigned public_key message text
      → signature_holds lib public_key message text ≡ true
  unfolding signature_holds decode_base64
  signature_complete public_key message text g = elim g.decodes [
    | inl e ↦ rw (signature_holds, decode_base64, e, g.signature_size, g.key_size, g.verifies) refl
    | inr (n, e) ↦
        rw (signature_holds, decode_base64, n, e, g.signature_size, g.key_size, g.verifies) refl
  ]

  -- `raw` is a bundle that `public_key` has signed and that may be used, and `s` is what it says.
  pub record IsVerified (raw public_key : Bytes) (now : ℕ) (allow_expired : Bool) (s : Snapshot)
      : Type 0 where
    pub bundle : Bundle
    pub rest : Bytes
    pub canonical : Bytes
    pub has_size : (0 < length raw) × (length raw ≤ max_bundle_bytes)
    pub decodes : lib.decode_bundle raw ≡ some (bundle, rest)
    pub ends_there : lib.at_end rest ≡ true
    pub is_payload : HasValidPayload bundle.payload now allow_expired s.not_before s.expires_at
    pub marshals : lib.marshal bundle.payload ≡ some canonical
    pub is_signed : IsSigned public_key canonical bundle.signature
    pub same_generation : s.generation ≡ bundle.payload.generation
    pub same_routes : (s.production ≡ bundle.payload.production) × (s.test ≡ bundle.payload.test)
    pub same_raw : s.raw ≡ raw

  bundle_sound :
      (raw public_key : Bytes) (bundle : Bundle) (rest : Bytes) (now : ℕ) (allow_expired : Bool)
      (s : Snapshot)
      → (0 < length raw) × (length raw ≤ max_bundle_bytes)
      → lib.decode_bundle raw ≡ some (bundle, rest)
      → lib.at_end rest ≡ true
      → verify_bundle lib raw public_key bundle now allow_expired ≡ accepted s
      → IsVerified raw public_key now allow_expired s
  unfolding verify_bundle time_or_zero
  bundle_sound raw public_key bundle rest now allow_expired s size d a =
      elim (Option-cases (validate_payload lib bundle.payload now allow_expired)) [
        | inr (x, v) ↦ rw (verify_bundle, v) (λ h. absurd cc)
        | inl v ↦ elim (Option-cases (lib.marshal bundle.payload)) [
          | inl m ↦ rw (verify_bundle, v, m) (λ h. absurd cc)
          | inr (canonical, m) ↦
              elim (Bool-cases (signature_holds lib public_key canonical bundle.signature)) [
                | inr g ↦ rw (verify_bundle, v, m, g) (λ h. absurd cc)
                | inl g ↦
                    let (not_before, expires_at, p) =
                      payload_sound bundle.payload now allow_expired v in
                    rw (verify_bundle, v, m, g, p.begins, p.ends)
                      (λ h.
                        subst (IsVerified raw public_key now allow_expired) (accepted-injective h)
                          (record {
                            bundle = bundle;
                            rest = rest;
                            canonical = canonical;
                            has_size = size;
                            decodes = d;
                            ends_there = a;
                            is_payload = p;
                            marshals = m;
                            is_signed = signature_sound public_key canonical bundle.signature g;
                            same_generation = refl;
                            same_routes = (refl, refl);
                            same_raw = refl;
                          }))
              ]
        ]
      ]
    where
      snapshot_of : Verified → Snapshot
      snapshot_of (rejected e) = s
      snapshot_of (accepted t) = t

      accepted-injective : {t u : Snapshot} → accepted t ≡ accepted u → t ≡ u
      accepted-injective h = ap snapshot_of h

  -- When `verify` accepts bytes, they are a bundle and nothing else, at most 1 MiB, with the schema 1 and a
  -- generation, a signature of its payload by the key, times that hold the moment (the end
  -- only unless an expired one is allowed) and are at most 90 days apart, and valid routes, at least one for
  -- production; the snapshot says what the bundle says.
  pub verify-IsVerified :
      (raw public_key : Bytes) (now : ℕ) (allow_expired : Bool) (s : Snapshot)
      → verify lib raw public_key now allow_expired ≡ accepted s
      → IsVerified raw public_key now allow_expired s
  unfolding verify
  verify-IsVerified raw public_key now allow_expired s =
      elim (Bool-cases (length raw == 0 || ltb max_bundle_bytes (length raw))) [
        | inl z ↦ rw (verify, z) (λ h. absurd cc)
        | inr z ↦ elim (Option-cases (lib.decode_bundle raw)) [
          | inl d ↦ rw (verify, z, d) (λ h. absurd cc)
          | inr ((bundle, rest), d) ↦ elim (Bool-cases (lib.at_end rest)) [
            | inr a ↦ rw (verify, z, d, a) (λ h. absurd cc)
            | inl a ↦
                rw (verify, z, d, a)
                  (λ h.
                    bundle_sound raw public_key bundle rest now allow_expired s (ground (arith, z))
                      d a h)
          ]
        ]
      ]

  -- What `verify` does with a bundle that is signed and may be used.
  pub verify_complete :
      (raw public_key : Bytes) (bundle : Bundle) (rest canonical : Bytes) (now : ℕ)
      (allow_expired : Bool) (not_before expires_at : ℕ)
      → (0 < length raw) × (length raw ≤ max_bundle_bytes)
      → lib.decode_bundle raw ≡ some (bundle, rest)
      → lib.at_end rest ≡ true
      → HasValidPayload bundle.payload now allow_expired not_before expires_at
      → lib.marshal bundle.payload ≡ some canonical
      → signature_holds lib public_key canonical bundle.signature ≡ true
      → verify lib raw public_key now allow_expired
        ≡ accepted (record {
          generation = bundle.payload.generation;
          not_before = not_before;
          expires_at = expires_at;
          production = bundle.payload.production;
          test = bundle.payload.test;
          raw = raw;
        })
  unfolding verify verify_bundle time_or_zero
  verify_complete raw public_key bundle rest canonical now allow_expired not_before expires_at size
        d a p m g =
      rw
        (
          verify,
          size_test,
          d,
          a,
          verify_bundle,
          payload_complete bundle.payload now allow_expired not_before expires_at p,
          m,
          g,
          p.begins,
          p.ends,
        )
        refl
    where
      size_test : length raw == 0 || ltb max_bundle_bytes (length raw) ≡ false
      size_test = ground (arith, size)
