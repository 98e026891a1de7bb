-- ===== src/Control/Load/Conflict.antt =====
-- When a state fits a configuration (internal/relay/control_plane.go: `validateStateAgainstConfig`).
use tg_proxy_relay.Prelude.{
  ◌≡◌, ◌↔◌, inl, inr, refl, true, List, [], ◌∷◌, ◌++◌, bytes_eq, contains, Bytes, Bool-cases,
}
use tg_proxy_relay.Prelude.Keys.{Unique, Unseen, Unseen-split, Unseen-join, Unseen-empty}
use tg_proxy_relay.Platform.{Platform}
use tg_proxy_relay.Config.Tokens.{Token, normalize_hash, stable_token_id}
use tg_proxy_relay.Control.Load.{no_conflict_from, validate_state_against_config}

module _ (go : Platform) where
  abbrev hash_of : Token → Bytes
  hash_of token = normalize_hash go token.hash

  no_conflict_sound :
      (ids hashes : List Bytes) (tokens : List Token)
      → no_conflict_from go ids hashes tokens ≡ true
      → Unique (stable_token_id go) tokens
        × Unique hash_of tokens
        × Unseen (stable_token_id go) ids tokens
        × Unseen hash_of hashes tokens
  unfolding no_conflict_from
  no_conflict_sound ids hashes [] = λ h. (tt, tt, tt, tt)
  no_conflict_sound ids hashes (t ∷ tokens) =
      elim (Bool-cases (contains ids (stable_token_id go t))) [
        | inl i ↦ rw (no_conflict_from, i) (λ h. absurd cc)
        | inr i ↦ elim (Bool-cases (contains hashes (normalize_hash go t.hash))) [
          | inl s ↦ rw (no_conflict_from, i, s) (λ h. absurd cc)
          | inr s ↦
              rw (no_conflict_from, i, s)
                (λ h.
                  let (u, v, m, n) =
                    no_conflict_sound (stable_token_id go t ∷ ids)
                      (normalize_hash go t.hash ∷ hashes) tokens h in
                  let (m', d) =
                    Unseen-split (stable_token_id go) ids (stable_token_id go t) tokens m in
                  let (n', e) = Unseen-split hash_of hashes (normalize_hash go t.hash) tokens n in
                  ((d, u), (e, v), (refl, m'), (refl, n')))
        ]
      ]

  no_conflict_complete :
      (ids hashes : List Bytes) (tokens : List Token)
      → Unique (stable_token_id go) tokens
      → Unique hash_of tokens
      → Unseen (stable_token_id go) ids tokens
      → Unseen hash_of hashes tokens
      → no_conflict_from go ids hashes tokens ≡ true
  unfolding no_conflict_from
  no_conflict_complete ids hashes [] u v m n = refl
  no_conflict_complete ids hashes (t ∷ tokens) u v m n =
      rw (no_conflict_from, m.0, n.0)
        (no_conflict_complete (stable_token_id go t ∷ ids) (normalize_hash go t.hash ∷ hashes)
          tokens u.1 v.1 (Unseen-join (stable_token_id go) ids _ tokens m.1 u.0)
          (Unseen-join hash_of hashes _ tokens n.1 v.0))

  -- A state fits a configuration exactly when among the configured tokens and the added ones no two have the same
  -- stable identifier, and no two the same hash in normal form.
  pub validate_state_against_config_iff :
      (base_tokens added_tokens : List Token)
      → (validate_state_against_config go base_tokens added_tokens ≡ true) ↔ (
          Unique (stable_token_id go) (base_tokens ++ added_tokens)
          × Unique (λ token. normalize_hash go token.hash) (base_tokens ++ added_tokens))
  unfolding validate_state_against_config
  validate_state_against_config_iff base_tokens added_tokens = (
    λ h. let (u, v, _, _) = no_conflict_sound [] [] (base_tokens ++ added_tokens) h in (u, v),
    λ (u, v).
        no_conflict_complete [] [] (base_tokens ++ added_tokens) u v
          (Unseen-empty _ (base_tokens ++ added_tokens))
          (Unseen-empty _ (base_tokens ++ added_tokens)),
  )
