-- ===== src/Prelude/Keys.antt =====
-- Lists whose elements have different keys, and a walk that remembers the keys it has seen.
use tg_proxy_relay.Prelude.Lists.{All}
use tg_proxy_relay.Prelude.Equality.{Bytes, contains, bytes_eq, Eq-cases}
use mathlib.Core.Path.{◌≡◌, refl, sym}
use mathlib.Core.Logic.{◌≢◌, inl, inr}
use mathlib.Core.Bool.{false}
use mathlib.Core.List.{List, [], ◌∷◌}
use native.Mathlib.Omega.{arith}

module _ {A : Type 0} where
  -- No two elements agree on `f`.
  abbrev pub Unique : (A → Bytes) → List A → Type 0
  Unique f [] = Unit
  Unique f (item ∷ items) = All (λ other. f other ≢ f item) items × Unique f items

  -- No element's key is among those seen.
  abbrev pub Unseen : (A → Bytes) → List Bytes → List A → Type 0
  Unseen f seen items = All (λ item. contains seen (f item) ≡ false) items

  pub Unseen-split :
      (f : A → Bytes) (seen : List Bytes) (h : Bytes) (items : List A)
      → Unseen f (h ∷ seen) items
      → Unseen f seen items × All (λ item. f item ≢ h) items
  unfolding contains
  Unseen-split f seen h [] u = (tt, tt)
  Unseen-split f seen h (t ∷ items) (u, us) =
      (let (a, b) = Unseen-split f seen h items us in
        elim (Eq-cases h (f t)) [
          | inl (e, p) ↦ absurd (ground (arith, u, e))
          | inr (e, p) ↦ ((ground (arith, u, e), a), (λ q. p (sym q), b))
        ])

  pub Unseen-join :
      (f : A → Bytes) (seen : List Bytes) (h : Bytes) (items : List A)
      → Unseen f seen items
      → All (λ item. f item ≢ h) items
      → Unseen f (h ∷ seen) items
  unfolding contains
  Unseen-join f seen h [] u n = tt
  Unseen-join f seen h (t ∷ items) (u, us) (n, ns) = (
    elim (Eq-cases h (f t)) [ inl (e, p) ↦ absurd (n (sym p)) | inr (e, p) ↦ ground (arith, u, e) ],
    Unseen-join f seen h items us ns,
  )

  pub Unseen-empty : (f : A → Bytes) (items : List A) → Unseen f [] items
  unfolding contains
  Unseen-empty f [] = tt
  Unseen-empty f (t ∷ items) = (refl, Unseen-empty f items)

-- Not among the elements, as a test and as a fact of each.
pub contains-All : (xs : List Bytes) (a : Bytes) → contains xs a ≡ false → All (λ x. a ≢ x) xs
unfolding contains
contains-All [] a h = tt
contains-All (x ∷ xs) a h = elim (Eq-cases x a) [
  | inl (e, p) ↦ absurd (ground (arith, h, e))
  | inr (e, p) ↦ ((λ q. p (sym q)), contains-All xs a (ground (arith, h, e)))
]

pub All-contains : (xs : List Bytes) (a : Bytes) → All (λ x. a ≢ x) xs → contains xs a ≡ false
unfolding contains
All-contains [] a h = refl
All-contains (x ∷ xs) a h = elim (Eq-cases x a) [
  | inl (e, p) ↦ absurd (h.0 (sym p))
  | inr (e, p) ↦ rw (contains, e) (All-contains xs a h.1)
]
