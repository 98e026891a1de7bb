-- ===== src/Config/Net.antt =====
-- IP addresses and ports (internal/config/config.go: `IsSafeTelegramIP`, `validateTelegramAddress`),
-- with the predicates of Go's `net.IP` that they use.
pub mod Reserved
use Prim.Native.Nat.{bit_and}
use tg_proxy_relay.Prelude.{
  ℕ, zero, suc, ◌+◌, ◌-◌, ◌*◌, ◌/◌, ◌%◌, Bool, true, false, not, ◌||◌, ◌&&◌, List, [], ◌∷◌, ◌++◌,
  ltb, leb, ◌==◌, nat_eq, bytes_eq, if◌then◌else◌, Bytes, length, Option, none, some,
}
use mathlib.Core.List.{reverse}
use tg_proxy_relay.Prelude.Text.{trim_space}

-- A `net.IP` by its bytes: `v4` where `To4` gives four, and the sixteen bytes of any other as `v6`.
pub data Ip : Type 0 where
  v4 : ℕ → ℕ → ℕ → ℕ → Ip
  v6 : Bytes → Ip

-- The functions of Go's `net` package that read and write texts.
pub record Net : Type 0 where
  pub parse_ip : Bytes → Option Ip
  -- the method `String`
  pub ip_string : Ip → Bytes
  -- net.SplitHostPort, without its error
  pub split_host_port : Bytes → Option (Bytes × Bytes)
  pub join_host_port : Bytes → Bytes → Bytes

-- strings.Trim with "[]"
trim_left : Bytes → Bytes
trim_left [] = []
trim_left (c ∷ s) = let rest = trim_left s in if c == b'[' || c == b']' then rest else c ∷ s

unfoldable pub trim_brackets : Bytes → Bytes
unfolding trim_left
trim_brackets s = reverse (trim_left (reverse (trim_left s)))

-- `ip[i]`
abbrev pub octet : Bytes → ℕ → ℕ
octet [] i = 0
octet (b ∷ bs) zero = b
octet (b ∷ bs) (suc i) = octet bs i

-- The first bytes are all 0.
unfoldable pub zeros_then : ℕ → Bytes → Bytes → Bool
zeros_then zero s t = s == t
zeros_then (suc n) [] t = false
zeros_then (suc n) (b ∷ s) t = b == 0 && zeros_then n s t

unfoldable pub is_unspecified : Ip → Bool
unfolding zeros_then
is_unspecified (v4 a b c d) = a == 0 && b == 0 && c == 0 && d == 0
is_unspecified (v6 s) = zeros_then 16 s []

unfoldable pub is_loopback : Ip → Bool
unfolding zeros_then
is_loopback (v4 a b c d) = a == 127
is_loopback (v6 s) = zeros_then 15 s (1 ∷ [])

unfoldable pub is_private : Ip → Bool
is_private (v4 a b c d) = a == 10 || (a == 172 && b / 16 == 1) || (a == 192 && b == 168)
is_private (v6 s) = octet s 0 / 2 == 126

unfoldable pub is_multicast : Ip → Bool
is_multicast (v4 a b c d) = a / 16 == 14
is_multicast (v6 s) = octet s 0 == 255

unfoldable pub is_link_local_unicast : Ip → Bool
is_link_local_unicast (v4 a b c d) = a == 169 && b == 254
is_link_local_unicast (v6 s) = octet s 0 == 254 && octet s 1 / 64 == 2

unfoldable pub is_link_local_multicast : Ip → Bool
is_link_local_multicast (v4 a b c d) = a == 224 && b == 0 && c == 0
is_link_local_multicast (v6 s) = octet s 0 == 255 && octet s 1 % 16 == 2

unfoldable pub is_broadcast : Ip → Bool
is_broadcast (v4 a b c d) = a == 255 && b == 255 && c == 255 && d == 255
is_broadcast (v6 s) = false

unfoldable pub is_global_unicast : Ip → Bool
is_global_unicast ip =
    not (is_broadcast ip)
    && not (is_unspecified ip)
    && not (is_loopback ip)
    && not (is_multicast ip)
    && not (is_link_local_unicast ip)

-- The networks that are refused besides: "0.0.0.0/8" to "240.0.0.0/4", "100::/64" and
-- "2001:db8::/32".
unfoldable pub in_refused_block : Ip → Bool
in_refused_block (v4 a b c d) =
    a == 0
    || (a == 100 && b / 64 == 1)
    || (a == 192 && b == 0 && c == 0)
    || (a == 192 && b == 0 && c == 2)
    || (a == 198 && b / 2 == 9)
    || (a == 198 && b == 51 && c == 100)
    || (a == 203 && b == 0 && c == 113)
    || leb 240 a
in_refused_block (v6 s) =
    (octet s 0 == 1
      && octet s 1 == 0
      && octet s 2 == 0
      && octet s 3 == 0
      && octet s 4 == 0
      && octet s 5 == 0
      && octet s 6 == 0
      && octet s 7 == 0)
    || (octet s 0 == 0x20 && octet s 1 == 0x01 && octet s 2 == 0x0d && octet s 3 == 0xb8)

-- `none` is a nil address.
unfoldable pub is_safe_telegram_ip : Option Ip → Bool
is_safe_telegram_ip none = false
is_safe_telegram_ip (some ip) =
    if not (is_global_unicast ip)
      || is_private ip
      || is_loopback ip
      || is_link_local_unicast ip
      || is_link_local_multicast ip
      || is_multicast ip
      || is_unspecified ip
    then false
    else not (in_refused_block ip)

-- `strconv.Atoi`, for a port: a number that is negative is refused like no number at all, so it is
-- `none` too. Whether a number is out of the range of `int` makes no difference.
digits : ℕ → Bytes → Option ℕ
digits value [] = some value
digits value (c ∷ s) =
    let rest = digits (value * 10 + (c - b'0')) s in if leb b'0' c && leb c b'9' then rest else none

unfoldable pub atoi : Bytes → Option ℕ
unfolding digits
atoi [] = none
atoi (c ∷ []) = digits 0 (c ∷ [])
atoi (c ∷ d ∷ s) = if c == b'+' then digits 0 (d ∷ s) else digits 0 (c ∷ d ∷ s)

unfoldable pub valid_port : Option ℕ → Bool
valid_port none = false
valid_port (some port) = not (leb port 0 || ltb 65535 port)

module _ (net : Net) where
  open net use {parse_ip, split_host_port}

  -- Whether the error is nil.
  unfoldable pub validate_telegram_address : Bytes → Bool
  unfolding valid_port
  validate_telegram_address address = elim (split_host_port (trim_space address)) [
    | none ↦ false
    | some (host, raw_port) ↦
        if not (is_safe_telegram_ip (parse_ip (trim_brackets host)))
        then false
        else valid_port (atoi raw_port)
  ]
