-- ===== src/Prelude/Prefix.antt =====
-- What a prefix is, for the tests of `strings`.
use mathlib.Core.Path.{◌≡◌, refl, ap, ◌∙◌}
use mathlib.Core.Bool.{true}
use mathlib.Core.List.{[], ◌∷◌, ◌++◌}
use native.Mathlib.Omega.{arith}
use tg_proxy_relay.Prelude.Tests.{nat_beq_iff}
use tg_proxy_relay.Prelude.Equality.{Bytes, nat_eq}
use tg_proxy_relay.Prelude.Lists.{length, drop, drop-append}
use tg_proxy_relay.Prelude.Text.{has_prefix, trim_prefix}

pub prefix_split : (p s : Bytes) → has_prefix s p ≡ true → s ≡ p ++ trim_prefix s p
unfolding has_prefix trim_prefix
prefix_split p s h = rw (trim_prefix, h) (split p s h)
  where
    split : (p s : Bytes) → has_prefix s p ≡ true → s ≡ p ++ drop (length p) s
    split [] s h = refl
    split (a ∷ p) [] h = cc
    split (a ∷ p) (c ∷ s) h =
        ap (λ t. t ∷ s) ((nat_beq_iff c a).0 (ground (arith, h)))
        ∙ ap (λ t. a ∷ t) (split p s (ground (arith, h)))

pub prefix_of : (p s : Bytes) → has_prefix (p ++ s) p ≡ true
unfolding has_prefix
prefix_of [] s = refl
prefix_of (a ∷ p) s = ground (arith, prefix_of p s)

pub trim_of : (p s : Bytes) → trim_prefix (p ++ s) p ≡ s
unfolding trim_prefix
trim_of p s = rw (trim_prefix, prefix_of p s) (drop-append p s)
