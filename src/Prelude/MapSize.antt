-- ===== src/Prelude/MapSize.antt =====
-- How many entries a map has, and how often a key.
use tg_proxy_relay.Prelude.Lists.{length, to_ℕ, count_if}
use tg_proxy_relay.Prelude.Equality.{Eq, ◌==◌, Eq-cases, beq_refl}
use tg_proxy_relay.Prelude.Maps.{Map, lookup, insert, delete}
use Prim.Native.Nat.{ℕ, suc, ◌+◌, ◌≤◌, ◌<◌}
use mathlib.Core.Path.{◌≡◌, refl, ap}
use mathlib.Core.Logic.{inl, inr}
use mathlib.Core.Bool.{false}
use mathlib.Core.List.{[], ◌∷◌}
use mathlib.Core.Option.{none, some}
use native.Mathlib.Omega.{arith}

module _ {ℓ κ} {K : Type ℓ} {V : Type κ} ⦃e : Eq K⦄ where
  -- How many entries have the key.
  abbrev pub count_key : K → Map K V → ℕ
  count_key j m = count_if (λ entry. entry.0 == j) m

  -- No key twice.
  abbrev pub HasUniqueKeys : Map K V → Type ℓ
  HasUniqueKeys m = (j : K) → count_key j m ≤ 1

  pub lookup-count_key : (j : K) (v : V) (m : Map K V) → lookup j m ≡ some v → 0 < count_key j m
  unfolding lookup
  lookup-count_key j v [] h = absurd (cc)
  lookup-count_key j v ((k, w) ∷ m) h = ground (arith, h, lookup-count_key j v m)

  pub count_key-lookup : (j : K) (m : Map K V) → lookup j m ≡ none → count_key j m ≡ 0
  unfolding lookup
  count_key-lookup j [] h = refl
  count_key-lookup j ((k, w) ∷ m) h = ground (arith, h, count_key-lookup j m)

  pub length-delete : (j : K) (m : Map K V) → length (delete j m) + count_key j m ≡ length m
  unfolding delete
  length-delete j [] = omega arith
  length-delete j ((k, w) ∷ m) = ground (arith, length-delete j m)

  pub count_key-delete :
      (i j : K) (m : Map K V) → (i == j) ≡ false → count_key j (delete i m) ≡ count_key j m
  unfolding delete
  count_key-delete i j [] h = refl
  count_key-delete i j ((k, w) ∷ m) h =
      ground (arith, h, count_key-delete i j m h, e.beq_iff k i, e.beq_iff k j, e.beq_iff i j)

  pub count_key-delete_le : (i j : K) (m : Map K V) → count_key j (delete i m) ≤ count_key j m
  unfolding delete
  count_key-delete_le i j [] = omega arith
  count_key-delete_le i j ((k, w) ∷ m) = ground (arith, count_key-delete_le i j m)

  pub length-insert-some :
      (i : K) (v w : V) (m : Map K V) → lookup i m ≡ some w → length (insert i v m) ≡ length m
  unfolding lookup insert
  length-insert-some i v w [] h = absurd (cc)
  length-insert-some i v w ((k, u) ∷ m) h = ground (arith, h, length-insert-some i v w m)

  pub length-insert_le : (i : K) (v : V) (m : Map K V) → length (insert i v m) ≤ suc (length m)
  unfolding insert
  length-insert_le i v [] = omega arith
  length-insert_le i v ((k, u) ∷ m) = ground (arith, length-insert_le i v m)

  pub count_key-insert_other :
      (i j : K) (v : V) (m : Map K V)
      → (i == j) ≡ false
      → count_key j (insert i v m) ≡ count_key j m
  unfolding insert
  count_key-insert_other i j v [] h = ground (arith, h)
  count_key-insert_other i j v ((k, u) ∷ m) h =
      ground
        (arith, h, count_key-insert_other i j v m h, e.beq_iff k i, e.beq_iff k j, e.beq_iff i j)

  count_key-insert_self :
      (j : K) (v : V) (m : Map K V) → count_key j m ≤ 1 → count_key j (insert j v m) ≤ 1
  unfolding insert
  count_key-insert_self j v [] h = ground arith
  count_key-insert_self j v ((k, u) ∷ m) h = elim (Eq-cases k j) [
    | inl (t, p) ↦ rw (insert, t) (omega (arith, h, rw t at h, ap to_ℕ (beq_refl j)))
    | inr (t, p) ↦
        rw (insert, t)
          (omega (arith, count_key-insert_self j v m (omega (arith, rw t at h)), ap to_ℕ t))
  ]

  pub HasUniqueKeys-insert :
      (i : K) (v : V) (m : Map K V) → HasUniqueKeys m → HasUniqueKeys (insert i v m)
  HasUniqueKeys-insert i v m u j = elim (Eq-cases i j) [
    | inl (t, p) ↦ rw⁻¹ p (count_key-insert_self i v m (u i))
    | inr (t, p) ↦ omega (arith, count_key-insert_other i j v m t, u j)
  ]

  pub HasUniqueKeys-delete : (i : K) (m : Map K V) → HasUniqueKeys m → HasUniqueKeys (delete i m)
  HasUniqueKeys-delete i m u j = omega (arith, count_key-delete_le i j m, u j)
