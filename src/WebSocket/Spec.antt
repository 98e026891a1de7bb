-- ===== src/WebSocket/Spec.antt =====
-- The wire format of RFC 6455, written independently of the code: what a client sends for a frame,
-- and which frames a relay may accept.
use tg_proxy_relay.Prelude.{
  ℕ, ◌+◌, ◌/◌, ◌%◌, ◌^◌, ◌≡◌, Bool, true, false, ◌⊎◌, [], ◌∷◌, ◌++◌, ltb, leb, if◌then◌else◌, Bytes,
  length, All, ◌≤◌, ◌<◌,
}
use Prim.Native.Nat.{bit_xor}
use tg_proxy_relay.WebSocket.Frame.{WebsocketFrame}

abbrev pub IsByte : ℕ → Type 0
IsByte b = b < 256

-- Network byte order.
abbrev pub be16 : ℕ → Bytes
be16 n = n / 256 % 256 ∷ n % 256 ∷ []

abbrev pub be64 : ℕ → Bytes
be64 n =
    n / 2 ^ 56 % 256
    ∷ n / 2 ^ 48 % 256
    ∷ n / 2 ^ 40 % 256
    ∷ n / 2 ^ 32 % 256
    ∷ n / 2 ^ 24 % 256
    ∷ n / 2 ^ 16 % 256
    ∷ n / 2 ^ 8 % 256
    ∷ n % 256
    ∷ []

-- The shortest of the three forms of a payload length: seven bits, and the bytes behind them.
unfoldable pub short_length : ℕ → ℕ
short_length n = if ltb n 126 then n else if leb n 65535 then 126 else 127

unfoldable pub long_length : ℕ → Bytes
long_length n = if ltb n 126 then [] else if leb n 65535 then be16 n else be64 n

abbrev pub fin_bit : Bool → ℕ
fin_bit true = 128
fin_bit false = 0

pub record Mask : Type 0 where
  pub m0 : ℕ
  pub m1 : ℕ
  pub m2 : ℕ
  pub m3 : ℕ

abbrev pub mask_bytes : Mask → Bytes
mask_bytes m = m.m0 ∷ m.m1 ∷ m.m2 ∷ m.m3 ∷ []

-- The masking of the RFC: each byte is combined with the first byte of the mask, which then goes to
-- the mask's end.
unfoldable pub masked : Mask → Bytes → Bytes
masked m [] = []
masked m (x ∷ xs) =
    bit_xor x m.m0 ∷ masked (record { m0 = m.m1; m1 = m.m2; m2 = m.m3; m3 = m.m0 }) xs

-- A masked frame, as a client sends it.
unfoldable pub client_frame : Mask → WebsocketFrame → Bytes
client_frame mask f =
    (fin_bit f.fin + f.opcode)
    ∷ (128 + short_length (length f.payload))
    ∷ (long_length (length f.payload) ++ (mask_bytes mask ++ masked mask f.payload))

-- An unmasked frame, as a server sends it.
unfoldable pub server_frame : ℕ → Bytes → Bytes
server_frame opcode payload =
    (128 + opcode) ∷ short_length (length payload) ∷ (long_length (length payload) ++ payload)

-- A data opcode or a control opcode of the RFC.
abbrev pub IsOpcode : ℕ → Type 0
IsOpcode opcode = (opcode ≤ 2) ⊎ (8 ≤ opcode) × (opcode ≤ 10)

-- A frame that a relay with the limit `max` has to accept.
pub record IsFrame (max : ℕ) (f : WebsocketFrame) : Type 0 where
  pub opcode : IsOpcode f.opcode
  pub control_fin : 8 ≤ f.opcode → f.fin ≡ true
  pub control_length : 8 ≤ f.opcode → length f.payload ≤ 125
  pub bounded : length f.payload ≤ max
  pub bytes : All IsByte f.payload

pub record IsMask (m : Mask) : Type 0 where
  pub m0 : IsByte m.m0
  pub m1 : IsByte m.m1
  pub m2 : IsByte m.m2
  pub m3 : IsByte m.m3
