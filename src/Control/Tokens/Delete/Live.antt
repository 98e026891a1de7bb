-- ===== src/Control/Tokens/Delete/Live.antt =====
-- The tokens in force after a deletion (internal/relay/control_plane.go: `deleteToken`,
-- `allTokensLocked`, `revokedLocked`).
use tg_proxy_relay.Prelude.{
  All-map, ℕ, ◌≡◌, ◌≢◌, inl, inr, refl, sym, ap, ◌∙◌, true, List, [], ◌∷◌, ◌++◌, bytes_eq, contains,
  Bytes, Eq-cases, arith, some, All, Elem, Elem-of_append, subst,
}
use mathlib.Core.Option.{some-injective}
use tg_proxy_relay.Prelude.Text.{trim_space}
use tg_proxy_relay.Prelude.Keys.{All-contains}
use tg_proxy_relay.Platform.{Platform}
use tg_proxy_relay.Config.Tokens.{Token, normalize_hash}
use tg_proxy_relay.Control.State.{ControlPlane, StateFiles, all_tokens, revoked}
use tg_proxy_relay.Control.Tokens.{deleted, find_id, without_hash, has_hash, delete_token}
use tg_proxy_relay.Control.Tokens.Live.{IsLive, all_tokens-Distinct}
use tg_proxy_relay.Control.Tokens.Delete.{IsDeleted, Outcome, delete_token-Outcome}

module _ (go : Platform) where
  has_hash_of_Elem :
      (h : Bytes) (token : Token) (tokens : List Token)
      → h ≡ normalize_hash go token.hash
      → Elem token tokens
      → has_hash go h tokens ≡ true
  unfolding has_hash
  has_hash_of_Elem h token [] e m = elim m [ ]
  has_hash_of_Elem h token (t ∷ tokens) e (inl p) =
      rw
        (
          has_hash,
          (bytes_eq.beq_iff (normalize_hash go t.hash) h).1
              (ap (λ u. normalize_hash go u.hash) (sym p) ∙ sym e),
        )
        refl
  has_hash_of_Elem h token (t ∷ tokens) e (inr m) =
      ground (arith, has_hash_of_Elem h token tokens e m)

  without_hash-Elem :
      (h : Bytes) (token : Token) (tokens : List Token)
      → Elem token (without_hash go h tokens)
      → h ≢ normalize_hash go token.hash
  unfolding without_hash
  without_hash-Elem h token [] = λ m. elim m [ ]
  without_hash-Elem h token (t ∷ tokens) = elim (Eq-cases (normalize_hash go t.hash) h) [
    | inl (e, p) ↦ rw (without_hash, e) (without_hash-Elem h token tokens)
    | inr (e, p) ↦
        rw (without_hash, e)
          (λ m. elim m [
            | inl q ↦ λ r. p (ap (λ u. normalize_hash go u.hash) (sym q) ∙ sym r)
            | inr n ↦ without_hash-Elem h token tokens n
          ])
  ]

  IsDeleted-IsLive :
      (id : Bytes) (c c' : ControlPlane) (found token : Token) (closers : List ℕ)
      → normalize_hash go found.hash ≡ found.hash
      → IsDeleted go id c found closers c'
      → IsLive go c'.state (c'.base_tokens ++ c'.state.added_tokens) token
      → token.hash ≢ found.hash
  unfolding revoked
  IsDeleted-IsLive id c c' found token closers n d l p =
      elim (Elem-of_append l.origin c'.base_tokens c'.state.added_tokens l.is_from) [
        | inl b ↦ cc (
          d.is_revoked (
              ap (λ t. has_hash go (normalize_hash go found.hash) t) (sym d.same_base)
              ∙ has_hash_of_Elem (normalize_hash go found.hash) l.origin c'.base_tokens
                  (n ∙ sym p ∙ l.is_normal) b),
          All-contains c'.state.revoked_hashes (normalize_hash go token.hash) l.is_not_revoked,
          ap (contains c'.state.revoked_hashes) n,
        )
        | inr a ↦
            without_hash-Elem (normalize_hash go found.hash) l.origin c.state.added_tokens
              (subst (Elem l.origin) d.added_are a) (n ∙ sym p ∙ l.is_normal)
      ]

  IsDeleted-all_tokens :
      (id : Bytes) (c c' : ControlPlane) (found : Token) (closers : List ℕ)
      → normalize_hash go found.hash ≡ found.hash
      → IsDeleted go id c found closers c'
      → All (λ token. token.hash ≢ found.hash) (all_tokens go c')
  IsDeleted-all_tokens id c c' found closers n d =
      All-map _ _ (λ token. IsDeleted-IsLive id c c' found token closers n d) (all_tokens go c')
        ((all_tokens-Distinct go c').0)

  -- When a deletion succeeds and the hash of the first token in force of the identifier is in
  -- normal form, no token in force afterwards has that hash.
  pub delete_token-all_tokens :
      (files : StateFiles) (id : Bytes) (c c' : ControlPlane) (found : Token) (closers : List ℕ)
      → delete_token go files id c ≡ (deleted closers, c')
      → find_id go (trim_space id) (all_tokens go c) ≡ some found
      → normalize_hash go found.hash ≡ found.hash
      → All (λ token. token.hash ≢ found.hash) (all_tokens go c')
  delete_token-all_tokens files id c c' found closers e f n =
      subst
        (λ t.
          (normalize_hash go t.hash ≡ t.hash)
          → All (λ token. token.hash ≢ t.hash) (all_tokens go c'))
        (some-injective _ _ (sym out.1.is_found ∙ f))
        (λ n'. IsDeleted-all_tokens (trim_space id) c c' out.0 closers n' out.1) n
    where
      out : (t : Token) × IsDeleted go (trim_space id) c t closers c'
      out = subst (Outcome go files (trim_space id) c) e (delete_token-Outcome go files id c)
