-- ===== src/Prelude/Text.antt =====
-- The functions of Go's `strings` package that the program calls, over byte strings.
use Prim.Native.Char.{code}
use Prim.Native.String.{String}
use Prim.Native.Nat.{ℕ, zero, suc, ◌-◌}
use mathlib.Core.Path.{◌≡◌, refl}
use mathlib.Core.Bool.{Bool, true, false, ◌&&◌, ◌||◌}
use mathlib.Core.List.{[], ◌∷◌, reverse}
use tg_proxy_relay.Prelude.Tests.{leb, if◌then◌else◌}
use tg_proxy_relay.Prelude.Equality.{◌==◌, Bytes, nat_eq}
use tg_proxy_relay.Prelude.Lists.{length, drop}

-- The bytes of an ASCII literal.
abbrev pub codes : String → Bytes
codes String.[] = []
codes (String.◌∷◌ c s) = code c ∷ codes s

-- strings.HasPrefix
unfoldable pub has_prefix : Bytes → Bytes → Bool
has_prefix s [] = true
has_prefix [] (p ∷ ps) = false
has_prefix (c ∷ s) (p ∷ ps) = c == p && has_prefix s ps

-- strings.TrimPrefix
unfoldable pub trim_prefix : Bytes → Bytes → Bytes
unfolding has_prefix
trim_prefix s p = if has_prefix s p then drop (length p) s else s

-- The white space of `unicode.IsSpace`, by its UTF-8 encoding: how many bytes of it `s` starts with.
unfoldable pub space_width : Bytes → ℕ
space_width [] = 0
space_width (a ∷ []) = if (leb 9 a && leb a 13) || a == 32 then 1 else 0
space_width (a ∷ b ∷ []) =
    if (leb 9 a && leb a 13) || a == 32
    then 1
    else if a == 0xC2 && (b == 0x85 || b == 0xA0)
    then 2
    else 0
space_width (a ∷ b ∷ c ∷ s) =
    if (leb 9 a && leb a 13) || a == 32
    then 1
    else if a == 0xC2 && (b == 0x85 || b == 0xA0)
    then 2
    else if (a == 0xE1 && b == 0x9A && c == 0x80)
        || (a == 0xE2
            && b == 0x80
            && ((leb 0x80 c && leb c 0x8A) || c == 0xA8 || c == 0xA9 || c == 0xAF))
        || (a == 0xE2 && b == 0x81 && c == 0x9F)
        || (a == 0xE3 && b == 0x80 && c == 0x80)
    then 3
    else 0

-- The same for a reversed string: how many bytes of white space the string ends with.
unfoldable pub space_width_back : Bytes → ℕ
unfolding space_width
space_width_back [] = 0
space_width_back (c ∷ []) = space_width (c ∷ [])
space_width_back (c ∷ b ∷ []) =
    if 0 == space_width (c ∷ []) then (if space_width (b ∷ c ∷ []) == 2 then 2 else 0) else 1
space_width_back (c ∷ b ∷ a ∷ s) =
    if 0 == space_width (c ∷ [])
    then (if space_width (b ∷ c ∷ []) == 2
        then 2
        else if space_width (a ∷ b ∷ c ∷ []) == 3
        then 3
        else 0)
    else 1

-- `width` measures the white space in front; `skip` bytes of it are still to be dropped.
unfoldable pub trim_front : (Bytes → ℕ) → ℕ → Bytes → Bytes
trim_front width skip [] = []
trim_front width (suc skip) (c ∷ s) = trim_front width skip s
trim_front width zero (c ∷ s) =
    let rest = trim_front width (width (c ∷ s) - 1) s in if width (c ∷ s) == 0 then c ∷ s else rest

-- strings.TrimSpace
unfoldable pub trim_space : Bytes → Bytes
unfolding trim_front space_width space_width_back
trim_space s = reverse (trim_front space_width_back 0 (reverse (trim_front space_width 0 s)))

trim_space_runs : trim_space (codes " \tab c\n") ≡ codes "ab c"
unfolding trim_space
trim_space_runs = refl
