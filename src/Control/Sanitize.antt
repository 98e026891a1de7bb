-- ===== src/Control/Sanitize.antt =====
-- Cleaning of what comes from outside (internal/relay/control_plane.go: `sanitizeDisplay`,
-- `sanitizeIdentifier`, `bearerToken`, `constantHashEqual`, `validClientSecret`).
use Prim.Native.Nat.{bit_xor, bit_or}
use tg_proxy_relay.Prelude.{
  ℕ, zero, suc, ◌-◌, Bool, true, false, not, ◌||◌, ◌&&◌, List, [], ◌∷◌, ◌++◌, ltb, leb, ◌==◌,
  nat_eq, bytes_eq, if◌then◌else◌, Bytes, length, take, Option, some,
}
use tg_proxy_relay.Prelude.Text.{codes, has_prefix, trim_prefix, trim_space}
use tg_proxy_relay.Platform.{Platform}
use tg_proxy_relay.Config.Tokens.{hex_decode, normalize_hash, sha256_prefix, all_bytes}

-- The characters of a string, as `range` gives them: an invalid byte is U+FFFD. `more` bytes of the
-- character in front are still to be passed over.
continues : ℕ → Bytes → Bool
continues zero s = true
continues (suc n) [] = false
continues (suc n) (c ∷ s) = leb 0x80 c && leb c 0xBF && continues n s

-- How many bytes the first character takes: 0 for an invalid byte.
rune_width : ℕ → Bytes → ℕ
rune_width a s =
    if ltb a 0x80
    then 1
    else if leb 0xC2 a && leb a 0xDF && continues 1 s
    then 2
    else if leb 0xE0 a
        && leb a 0xEF
        && continues 2 s
        && not (a == 0xE0 && ltb (first s) 0xA0)
        && not (a == 0xED && ltb 0x9F (first s))
    then 3
    else if leb 0xF0 a
        && leb a 0xF4
        && continues 3 s
        && not (a == 0xF0 && ltb (first s) 0x90)
        && not (a == 0xF4 && ltb 0x8F (first s))
    then 4
    else 0
  where
    first : Bytes → ℕ
    first [] = 0
    first (c ∷ t) = c

-- `[]rune`, with each character as the string of its encoding.
unfoldable pub characters : ℕ → Bytes → List Bytes
unfolding rune_width continues
characters more [] = []
characters (suc more) (a ∷ s) = characters more s
characters zero (a ∷ s) =
    let width = rune_width a s in
    let rest = characters (width - 1) s in
    (if width == 0 then 0xEF ∷ 0xBF ∷ 0xBD ∷ [] else take width (a ∷ s)) ∷ rest

unfoldable pub concat : List Bytes → Bytes
concat [] = []
concat (c ∷ cs) = c ++ concat cs

is_control : Bytes → Bool
is_control [] = false
is_control (c ∷ s) = ltb c 0x20 || c == 0x7f

unfoldable pub drop_controls : List Bytes → List Bytes
unfolding is_control
drop_controls [] = []
drop_controls (c ∷ cs) = let rest = drop_controls cs in if is_control c then rest else c ∷ rest

unfoldable pub sanitize_display : Bytes → ℕ → Bytes
sanitize_display value max = concat (take max (drop_controls (characters 0 (trim_space value))))

unfoldable pub is_identifier_byte : ℕ → Bool
is_identifier_byte ch =
    (leb b'a' ch && leb ch b'z')
    || (leb b'A' ch && leb ch b'Z')
    || (leb b'0' ch && leb ch b'9')
    || ch == b'-'
    || ch == b'_'
    || ch == b'.'

unfoldable pub sanitize_identifier : Bytes → ℕ → Bytes
sanitize_identifier value max =
    let clean = trim_space value in
    if clean == [] || ltb max (length clean)
    then []
    else if all_bytes is_identifier_byte clean
    then clean
    else []

unfoldable pub bearer_token : Bytes → Bytes
bearer_token header =
    if not (has_prefix header (codes "Bearer "))
    then []
    else trim_space (trim_prefix header (codes "Bearer "))

unfoldable pub valid_client_secret : Platform → Bytes → Bool
valid_client_secret go value =
    if not (has_prefix value (codes "tgpr_")) || ltb (length value) 32 || ltb 128 (length value)
    then false
    else go.is_raw_url_base64 (trim_prefix value (codes "tgpr_"))

-- `different |= leftBytes[index] ^ rightBytes[index]`
unfoldable pub difference : ℕ → Bytes → Bytes → ℕ
difference different (l ∷ left) (r ∷ right) = difference (bit_or different (bit_xor l r)) left right
difference different _ _ = different

equal_decoded : Option Bytes → Option Bytes → Bool
equal_decoded (some left) (some right) =
    if not (length left == 32) || not (length right == 32) || not (length left == length right)
    then false
    else difference 0 left right == 0
equal_decoded _ _ = false

unfoldable pub constant_hash_equal : Platform → Bytes → Bytes → Bool
unfolding equal_decoded
constant_hash_equal go left right =
    equal_decoded (hex_decode (trim_prefix (normalize_hash go left) sha256_prefix))
      (hex_decode (trim_prefix (normalize_hash go right) sha256_prefix))
