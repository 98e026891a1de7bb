-- ===== src/Topology/Bundle/Signed.antt =====
-- A bundle that is signed is verified (internal/topology/bundle.go: `Sign`, `Verify`).
use tg_proxy_relay.Prelude.{
  ℕ, ◌≤◌, ◌<◌, ◌≡◌, ◌⊎◌, inl, inr, refl, sym, ◌∙◌, ap, Bool, true, false, ◌==◌, nat_eq, Bytes,
  length, none, some, Bool-cases, Option-cases, arith,
}
use mathlib.Core.Option.{some-injective}
use tg_proxy_relay.Topology.Bundle.{
  max_bundle_bytes, Payload, Bundle, Library, accepted, Signature, refused, signed,
  validate_payload, decode_base64, signature_holds, verify, sign,
}
use tg_proxy_relay.Topology.Bundle.Sound.{HasValidPayload, payload_sound, verify_complete}

module _ (lib : Library) where
  -- What Go's documentation says of a private key and its public key.
  pub record IsKeyPair (private_key public_key : Bytes) : Type 0 where
    pub public_size : length public_key ≡ 32
    pub signature_size : (m : Bytes) → length (lib.ed25519_sign private_key m) ≡ 64
    pub verifies :
        (m : Bytes) → lib.ed25519_verify public_key m (lib.ed25519_sign private_key m) ≡ true

  -- The JSON of a bundle is read back, and nothing is left of it.
  abbrev pub ReadsBack : Bundle → Type 0
  ReadsBack bundle =
      (raw : Bytes)
      → lib.marshal_indent bundle ≡ some raw
      → (rest : Bytes) × (lib.decode_bundle raw ≡ some (bundle, rest)) × (lib.at_end rest ≡ true)

  abbrev pub DecodesItsCode : Type 0
  DecodesItsCode = (s : Bytes) → lib.raw_std_decode (lib.raw_std_encode s) ≡ some s

  abbrev pub signed_bundle : Payload → Bytes → Bytes → Bundle
  signed_bundle payload private_key canonical = record {
    payload = payload;
    signature = lib.raw_std_encode (lib.ed25519_sign private_key canonical);
  }

  -- What `sign` has done when it gives bytes.
  record IsSignedAs (payload : Payload) (private_key : Bytes) (now : ℕ) (raw : Bytes) : Type 0 where
    is_valid : validate_payload lib payload now false ≡ none
    canonical : Bytes
    marshals : lib.marshal payload ≡ some canonical
    prints : lib.marshal_indent (signed_bundle payload private_key canonical) ≡ some raw

  sign-IsSignedAs :
      (payload : Payload) (private_key : Bytes) (now : ℕ) (raw : Bytes)
      → sign lib payload private_key now ≡ signed raw
      → IsSignedAs payload private_key now raw
  unfolding sign
  sign-IsSignedAs payload private_key now raw =
      elim (Option-cases (validate_payload lib payload now false)) [
        | inr (x, v) ↦ rw (sign, v) (λ h. absurd cc)
        | inl v ↦ elim (Bool-cases (length private_key == 64)) [
          | inr k ↦ rw (sign, v, k) (λ h. absurd cc)
          | inl k ↦ elim (Option-cases (lib.marshal payload)) [
            | inl m ↦ rw (sign, v, k, m) (λ h. absurd cc)
            | inr (canonical, m) ↦
                elim (Option-cases
                  (lib.marshal_indent (signed_bundle payload private_key canonical))) [
                    | inl p ↦ rw (sign, v, k, m, p) (λ h. absurd cc)
                    | inr (bytes, p) ↦
                        rw (sign, v, k, m, p)
                          (λ h. record {
                            is_valid = v;
                            canonical = canonical;
                            marshals = m;
                            prints = p ∙ ap some (ap bytes_of h);
                          })
                  ]
          ]
        ]
      ]
    where
      bytes_of : Signature → Bytes
      bytes_of (refused e) = raw
      bytes_of (signed bytes) = bytes

  own_signature_holds :
      (private_key public_key canonical : Bytes)
      → IsKeyPair private_key public_key
      → DecodesItsCode
      → signature_holds lib public_key canonical
          (lib.raw_std_encode (lib.ed25519_sign private_key canonical))
        ≡ true
  unfolding signature_holds decode_base64
  own_signature_holds private_key public_key canonical k d =
      rw
        (
          signature_holds,
          decode_base64,
          d (lib.ed25519_sign private_key canonical),
          k.signature_size canonical,
          k.public_size,
          k.verifies canonical,
        )
        refl

  later_payload :
      (payload : Payload) (now later not_before expires_at : ℕ) (allow_expired : Bool)
      → validate_payload lib payload now false ≡ none
      → lib.parse_time payload.not_before ≡ some not_before
      → lib.parse_time payload.expires_at ≡ some expires_at
      → now ≤ later
      → (allow_expired ≡ true) ⊎ (later < expires_at)
      → HasValidPayload lib payload later allow_expired not_before expires_at
  later_payload payload now later not_before expires_at allow_expired v b e l n =
      let (b', e', p) = payload_sound lib payload now false v in
      let same_b : b' ≡ not_before = some-injective _ _ (sym p.begins ∙ b) in
      let same_e : e' ≡ expires_at = some-injective _ _ (sym p.ends ∙ e) in
      record {
        has_schema = p.has_schema;
        has_generation = p.has_generation;
        begins = b;
        ends = e;
        is_timely = record {
          is_interval = omega (arith, same_b, same_e, p.is_timely.is_interval);
          has_begun = omega (arith, same_b, l, p.is_timely.has_begun);
          has_not_ended = n;
          is_short = omega (arith, same_b, same_e, p.is_timely.is_short);
        };
        has_production = p.has_production;
        production_routes = p.production_routes;
        test_routes = p.test_routes;
        counts = p.counts;
      }

  -- Bytes of at most 1 MiB that `sign` gives for a payload are verified under the public key of the private
  -- key at every later moment before the payload expires, and after it where an expired bundle is
  -- allowed; the snapshot has the payload's generation, times and routes. The key pair, base64 and the JSON of
  -- this bundle work as documented.
  pub verify-sign :
      (payload : Payload) (private_key public_key : Bytes) (now later not_before expires_at : ℕ)
      (allow_expired : Bool) (raw : Bytes)
      → IsKeyPair private_key public_key
      → DecodesItsCode
      → ((canonical : Bytes)
          → lib.marshal payload ≡ some canonical
          → ReadsBack (signed_bundle payload private_key canonical))
      → sign lib payload private_key now ≡ signed raw
      → (0 < length raw) × (length raw ≤ max_bundle_bytes)
      → lib.parse_time payload.not_before ≡ some not_before
      → lib.parse_time payload.expires_at ≡ some expires_at
      → now ≤ later
      → (allow_expired ≡ true) ⊎ (later < expires_at)
      → verify lib raw public_key later allow_expired
        ≡ accepted (record {
          generation = payload.generation;
          not_before = not_before;
          expires_at = expires_at;
          production = payload.production;
          test = payload.test;
          raw = raw;
        })
  verify-sign payload private_key public_key now later not_before expires_at allow_expired raw k d j
        s size b e l n =
      let g = sign-IsSignedAs payload private_key now raw s in
      let (rest, decodes, ended) = j g.canonical g.marshals raw g.prints in
      verify_complete lib raw public_key (signed_bundle payload private_key g.canonical) rest
        g.canonical later allow_expired not_before expires_at size decodes ended
        (later_payload payload now later not_before expires_at allow_expired g.is_valid b e l n)
        g.marshals (own_signature_holds private_key public_key g.canonical k d)
