-- ===== src/Config/Validation.antt =====
-- Which lists of tokens a configuration may hold (internal/config/config.go: `validateTokens`).
use tg_proxy_relay.Prelude.{
  ℕ, ◌≡◌, ◌≤◌, ◌↔◌, inl, inr, refl, sym, ◌∙◌, false, ltb, List, [], ◌∷◌, bytes_eq, contains, Bytes,
  length, none, Bool-cases, Option-cases, arith, All,
}
use tg_proxy_relay.Prelude.Keys.{Unique, Unseen, Unseen-split, Unseen-join, Unseen-empty}
use tg_proxy_relay.Config.Tokens.WellFormed.{IsToken, validate_token_iff}
use tg_proxy_relay.Platform.{Platform}
use tg_proxy_relay.Config.Tokens.{
  Token, normalize_hash, stable_token_id, validate_token, validate_tokens_from, validate_tokens,
}

module _ (go : Platform) where
  pub record IsAccepted (tokens : List Token) : Type 0 where
    pub are_valid : All (IsToken go) tokens
    pub has_unique_hashes : Unique (λ t. normalize_hash go t.hash) tokens
    pub has_unique_ids : Unique (stable_token_id go) tokens

  from_step :
      (hashes ids : List Bytes) (t : Token) (tokens : List Token)
      → validate_token go t ≡ none
      → contains hashes (normalize_hash go t.hash) ≡ false
      → contains ids (stable_token_id go t) ≡ false
      → validate_tokens_from go hashes ids (t ∷ tokens)
        ≡ validate_tokens_from go
            (normalize_hash go t.hash ∷ hashes)
            (stable_token_id go t ∷ ids)
            tokens
  unfolding validate_tokens_from
  from_step hashes ids t tokens v c d = rw (validate_tokens_from, v, c, d) refl

  from_sound :
      (hashes ids : List Bytes) (tokens : List Token)
      → validate_tokens_from go hashes ids tokens ≡ none
      → IsAccepted tokens
        × Unseen (λ t. normalize_hash go t.hash) hashes tokens
        × Unseen (stable_token_id go) ids tokens
  unfolding validate_tokens_from
  from_sound hashes ids [] =
      λ h. (record { are_valid = tt; has_unique_hashes = tt; has_unique_ids = tt }, tt, tt)
  from_sound hashes ids (t ∷ tokens) = elim (Option-cases (validate_token go t)) [
    | inr (e, v) ↦ rw (validate_tokens_from, v) (λ h. absurd cc)
    | inl v ↦ elim (Bool-cases (contains hashes (normalize_hash go t.hash))) [
      | inl c ↦ rw (validate_tokens_from, v, c) (λ h. absurd cc)
      | inr c ↦ elim (Bool-cases (contains ids (stable_token_id go t))) [
        | inl d ↦ rw (validate_tokens_from, v, c, d) (λ h. absurd cc)
        | inr d ↦ λ h.
            extend (v, c, d)
              (from_sound (normalize_hash go t.hash ∷ hashes) (stable_token_id go t ∷ ids) tokens
                (sym (from_step hashes ids t tokens v c d) ∙ h))
      ]
    ]
  ]
    where
      extend :
          (validate_token go t ≡ none)
            × (contains hashes (normalize_hash go t.hash) ≡ false)
            × (contains ids (stable_token_id go t) ≡ false)
          → IsAccepted tokens
            × Unseen (λ u. normalize_hash go u.hash) (normalize_hash go t.hash ∷ hashes) tokens
            × Unseen (stable_token_id go) (stable_token_id go t ∷ ids) tokens
          → IsAccepted (t ∷ tokens)
            × Unseen (λ u. normalize_hash go u.hash) hashes (t ∷ tokens)
            × Unseen (stable_token_id go) ids (t ∷ tokens)
      extend (v, c, d) (a, hs, is) =
          (let (h, nh) =
              Unseen-split (λ u. normalize_hash go u.hash) hashes (normalize_hash go t.hash) tokens
                hs in
            let (i, ni) = Unseen-split (stable_token_id go) ids (stable_token_id go t) tokens is in
            (
              record {
                are_valid = ((validate_token_iff go t).0 v, a.are_valid);
                has_unique_hashes = (nh, a.has_unique_hashes);
                has_unique_ids = (ni, a.has_unique_ids);
              },
              (c, h),
              (d, i),
            ))

  from_complete :
      (hashes ids : List Bytes) (tokens : List Token)
      → IsAccepted tokens
      → Unseen (λ t. normalize_hash go t.hash) hashes tokens
      → Unseen (stable_token_id go) ids tokens
      → validate_tokens_from go hashes ids tokens ≡ none
  unfolding validate_tokens_from
  from_complete hashes ids [] a hs is = refl
  from_complete hashes ids (t ∷ tokens) a hs is =
      rw (validate_tokens_from, (validate_token_iff go t).1 a.are_valid.0, hs.0, is.0)
        (from_complete (normalize_hash go t.hash ∷ hashes) (stable_token_id go t ∷ ids) tokens
          (record {
            are_valid = a.are_valid.1;
            has_unique_hashes = a.has_unique_hashes.1;
            has_unique_ids = a.has_unique_ids.1;
          })
          (Unseen-join (λ u. normalize_hash go u.hash) hashes _ tokens hs.1 a.has_unique_hashes.0)
          (Unseen-join (stable_token_id go) ids _ tokens is.1 a.has_unique_ids.0))

  -- A list of tokens is accepted exactly when it is no longer than the bound, each token is well
  -- formed (a name of at most 128 bytes and a time of at most 64, both without control characters; no
  -- identifier, or 1 to 96 letters, digits, `-` and `_` between spaces; a hash whose normal form is
  -- `sha256:` and 64 hexadecimal digits), no two of them have the same hash in normal form, and no two the same
  -- stable identifier.
  pub validate_tokens_iff :
      (tokens : List Token) (max : ℕ)
      → (validate_tokens go tokens max ≡ none) ↔ ((length tokens ≤ max) × IsAccepted tokens)
  unfolding validate_tokens
  validate_tokens_iff tokens max = elim (Bool-cases (ltb max (length tokens))) [
    | inl e ↦ rw (validate_tokens, e) (λ h. absurd cc, λ (l, a). absurd (ground (arith, e, l)))
    | inr e ↦
        rw (validate_tokens, e)
          (
            λ h. (ground (arith, e), (from_sound [] [] tokens h).0),
            λ (l, a). from_complete [] [] tokens a (Unseen-empty _ tokens) (Unseen-empty _ tokens),
          )
  ]
