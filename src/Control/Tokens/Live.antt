-- ===== src/Control/Tokens/Live.antt =====
-- The tokens that count (internal/relay/control_plane.go: `allTokensLocked`).
use tg_proxy_relay.Prelude.{
  All-map, ◌≡◌, ◌≢◌, inl, inr, refl, sym, false, ◌||◌, List, [], ◌∷◌, ◌++◌, ◌==◌, nat_eq, bytes_eq,
  contains, Bytes, Bool-cases, Eq-cases, arith, All, All-append, Elem, Elem-append_left,
  Elem-append_right,
}
use tg_proxy_relay.Prelude.Keys.{contains-All}
use tg_proxy_relay.Platform.{Platform}
use tg_proxy_relay.Config.Tokens.{Token, normalize_hash}
use tg_proxy_relay.Control.State.{ControlPlane, ControlState, revoked, live_tokens, all_tokens}

-- No two tokens share a hash.
abbrev pub Distinct : List Token → Type 0
Distinct [] = Unit
Distinct (token ∷ tokens) = All (λ other. other.hash ≢ token.hash) tokens × Distinct tokens

contains-false :
    (h a : Bytes) (seen : List Bytes)
    → contains (h ∷ seen) a ≡ false
    → (a ≢ h) × (contains seen a ≡ false)
unfolding contains
contains-false h a seen e = elim (Eq-cases h a) [
  | inl (t, p) ↦ absurd (ground arith)
  | inr (f, p) ↦ (λ q. p (sym q), ground arith)
]

All-swap :
    (xs ys : List Token)
    → All (λ y. All (λ x. y.hash ≢ x.hash) xs) ys
    → All (λ x. All (λ y. y.hash ≢ x.hash) ys) xs
All-swap [] ys h = tt
All-swap (x ∷ xs) ys h = (
  All-map (λ y. All (λ z. y.hash ≢ z.hash) (x ∷ xs)) (λ y. y.hash ≢ x.hash) (λ y p. p.0) ys h,
  All-swap xs ys (
      All-map (λ y. All (λ z. y.hash ≢ z.hash) (x ∷ xs)) (λ y. All (λ z. y.hash ≢ z.hash) xs)
        (λ y p. p.1) ys h),
)

Distinct-append :
    (xs ys : List Token)
    → Distinct xs
    → Distinct ys
    → All (λ x. All (λ y. y.hash ≢ x.hash) ys) xs
    → Distinct (xs ++ ys)
Distinct-append [] ys dx dy h = dy
Distinct-append (x ∷ xs) ys dx dy h =
    (All-append (λ y. y.hash ≢ x.hash) xs ys dx.0 h.0, Distinct-append xs ys dx.1 dy h.1)

module _ (go : Platform) where
  -- A token of the list that is in force: its hash is a normal form, is not empty, and in normal form
  -- again it is none of the revoked hashes as the state has them.
  pub record IsLive (state : ControlState) (tokens : List Token) (token : Token) : Type 0 where
    pub origin : Token
    pub is_from : Elem origin tokens
    pub is_normal : token.hash ≡ normalize_hash go origin.hash
    pub is_not_empty : (token.hash == []) ≡ false
    pub is_not_revoked : All (λ hash. normalize_hash go token.hash ≢ hash) state.revoked_hashes

  abbrev pub Fresh : List Bytes → Token → Type 0
  Fresh seen token = contains seen token.hash ≡ false

  -- What one run of the loop gives: its tokens, and the hashes met after it.
  record IsRun (state : ControlState) (seen : List Bytes) (tokens found : List Token)
      (seen' : List Bytes) : Type 0 where
    pub is_live : All (IsLive state tokens) found
    pub is_fresh : All (Fresh seen) found
    pub is_distinct : Distinct found
    pub is_met :
        (h : Bytes)
        → contains seen' h ≡ false
        → (contains seen h ≡ false) × All (λ t. h ≢ t.hash) found

  IsLive-cons :
      (state : ControlState) (t : Token) (tokens : List Token) (token : Token)
      → IsLive state tokens token
      → IsLive state (t ∷ tokens) token
  IsLive-cons state t tokens token l = record {
    origin = l.origin;
    is_from = inr l.is_from;
    is_normal = l.is_normal;
    is_not_empty = l.is_not_empty;
    is_not_revoked = l.is_not_revoked;
  }

  IsRun-skip :
      (state : ControlState) (seen : List Bytes) (t : Token) (tokens found : List Token)
      (seen' : List Bytes)
      → IsRun state seen tokens found seen'
      → IsRun state seen (t ∷ tokens) found seen'
  IsRun-skip state seen t tokens found seen' r = record {
    is_live =
        All-map (IsLive state tokens) (IsLive state (t ∷ tokens)) (IsLive-cons state t tokens) found
          r.is_live;
    is_fresh = r.is_fresh;
    is_distinct = r.is_distinct;
    is_met = r.is_met;
  }

  IsRun-take :
      (state : ControlState) (seen : List Bytes) (t token : Token) (tokens found : List Token)
      (seen' : List Bytes)
      → token.hash ≡ normalize_hash go t.hash
      → (token.hash == []) ≡ false
      → revoked go state token.hash ≡ false
      → Fresh seen token
      → IsRun state (token.hash ∷ seen) tokens found seen'
      → IsRun state seen (t ∷ tokens) (token ∷ found) seen'
  unfolding revoked
  IsRun-take state seen t token tokens found seen' n e v f r = record {
    is_live = (
      record {
        origin = t;
        is_from = inl refl;
        is_normal = n;
        is_not_empty = e;
        is_not_revoked = contains-All state.revoked_hashes (normalize_hash go token.hash) v;
      },
      All-map (IsLive state tokens) (IsLive state (t ∷ tokens)) (IsLive-cons state t tokens) found
          r.is_live,
    );
    is_fresh = (
      f,
      All-map (Fresh (token.hash ∷ seen)) (Fresh seen)
          (λ u p. (contains-false token.hash u.hash seen p).1) found r.is_fresh,
    );
    is_distinct = (
      All-map (Fresh (token.hash ∷ seen)) (λ u. u.hash ≢ token.hash)
          (λ u p. (contains-false token.hash u.hash seen p).0) found r.is_fresh,
      r.is_distinct,
    );
    is_met = λ h p.
        (let (q, all) = r.is_met h p in
          let (a, b) = contains-false token.hash h seen q in (b, (a, all)));
  }

  live_tokens-IsRun :
      (state : ControlState) (seen : List Bytes) (tokens : List Token)
      → IsRun state seen tokens
          ((live_tokens go state seen tokens).0)
          ((live_tokens go state seen tokens).1)
  unfolding live_tokens
  live_tokens-IsRun state seen [] = record {
    is_live = tt;
    is_fresh = tt;
    is_distinct = tt;
    is_met = λ h p. (p, tt);
  }
  live_tokens-IsRun state seen (t ∷ tokens) =
      elim (Bool-cases (h == [] || revoked go state h || contains seen h)) [
        | inl e ↦
            rw (live_tokens, e)
              (IsRun-skip state seen t tokens _ _ (live_tokens-IsRun state seen tokens))
        | inr e ↦
            rw (live_tokens, e)
              (IsRun-take state seen t _ tokens _ _ refl (ground arith) (ground arith)
                (ground arith) (live_tokens-IsRun state (h ∷ seen) tokens))
      ]
    where
      h : Bytes
      h = normalize_hash go t.hash

  IsLive-mono :
      (state : ControlState) (tokens others : List Token) (token : Token)
      → ((t : Token) → Elem t tokens → Elem t others)
      → IsLive state tokens token
      → IsLive state others token
  IsLive-mono state tokens others token f l = record {
    origin = l.origin;
    is_from = f l.origin l.is_from;
    is_normal = l.is_normal;
    is_not_empty = l.is_not_empty;
    is_not_revoked = l.is_not_revoked;
  }

  runs_join :
      (state : ControlState) (base added found found' : List Token) (seen seen' : List Bytes)
      → IsRun state [] base found seen
      → IsRun state seen added found' seen'
      → All (IsLive state (base ++ added)) (found ++ found') × Distinct (found ++ found')
  runs_join state base added found found' seen seen' b a = (
    All-append _ found found'
        (All-map (IsLive state base) _
          (λ t. IsLive-mono state base _ t (λ u. Elem-append_left u base added)) found b.is_live)
        (All-map (IsLive state added) _
          (λ t. IsLive-mono state added _ t (λ u. Elem-append_right u base added)) found'
          a.is_live),
    Distinct-append found found' b.is_distinct a.is_distinct (
        All-swap found found' (
          All-map (Fresh seen) (λ u. All (λ t. u.hash ≢ t.hash) found)
            (λ u p. (b.is_met u.hash p).1) found' a.is_fresh)),
  )

  -- Of any control plane, every token in force has the hash, brought to normal form, of a
  -- configured or an added token; that hash is not empty and, brought to normal form again, none of
  -- the revoked hashes as they are stored; and no two tokens in force share one.
  pub all_tokens-Distinct :
      (c : ControlPlane)
      → All (IsLive c.state (c.base_tokens ++ c.state.added_tokens)) (all_tokens go c)
        × Distinct (all_tokens go c)
  unfolding all_tokens
  all_tokens-Distinct c =
      runs_join c.state c.base_tokens c.state.added_tokens _ _ _ _
        (live_tokens-IsRun c.state [] c.base_tokens)
        (live_tokens-IsRun c.state _ c.state.added_tokens)
