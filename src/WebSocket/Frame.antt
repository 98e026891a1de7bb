-- ===== src/WebSocket/Frame.antt =====
-- Reading one client frame (internal/relay/websocket.go, `readClientFrame` and its errors). The
-- connection is the list of the bytes that it still delivers before it ends.
use Prim.Native.String.{String}
use Prim.Native.Nat.{bit_xor, bit_and}
use tg_proxy_relay.Prelude.{
  ℕ, zero, suc, ◌+◌, ◌*◌, ◌/◌, ◌%◌, ◌^◌, ◌≡◌, refl, Bool, true, false, not, ◌&&◌, ◌||◌, [], ◌∷◌,
  ltb, leb, ◌==◌, nat_eq, if◌then◌else◌, Bytes, length, all_below,
}

abbrev pub op_continuation : ℕ
op_continuation = 0x0

abbrev pub op_text : ℕ
op_text = 0x1

abbrev pub op_binary : ℕ
op_binary = 0x2

abbrev pub op_close : ℕ
op_close = 0x8

abbrev pub op_ping : ℕ
op_ping = 0x9

abbrev pub op_pong : ℕ
op_pong = 0xA

pub record WebsocketFrame : Type 0 where
  pub fin : Bool
  pub opcode : ℕ
  pub payload : Bytes

-- `io.ReadFull` fails with `eof` before its first byte and with `unexpected_eof` after it;
-- `websocket_read_error` carries a close code and a reason.
pub data ReadError : Type 0 where
  eof unexpected_eof : ReadError
  websocket_read_error : ℕ → String → ReadError

-- `stuck` is no Go value: a loop of the model ran out of fuel.
pub data Read {ℓ} (A : Type ℓ) : Type ℓ where
  ok : A → Bytes → Read A
  err : ReadError → Read A
  stuck : Read A

abbrev pub Reader {ℓ} : Type ℓ → Type ℓ
Reader A = Bytes → Read A

infixl 5 ◌>>=◌
abbrev pub ◌>>=◌ {ℓ κ} : {A : Type ℓ} {B : Type κ} → Reader A → (A → Reader B) → Reader B
◌>>=◌ m f s = elim (m s) [ ok a rest ↦ f a rest | err e ↦ err e | stuck ↦ stuck ]

abbrev pub return {ℓ} : {A : Type ℓ} → A → Reader A
return a s = ok a s

abbrev pub fail {ℓ} : {A : Type ℓ} → ReadError → Reader A
fail e s = err e

abbrev pub protocol_error : String → ReadError
protocol_error reason = websocket_read_error 1002 reason

abbrev pub message_too_big : String → ReadError
message_too_big reason = websocket_read_error 1009 reason

abbrev pub invalid_payload : String → ReadError
invalid_payload reason = websocket_read_error 1007 reason

unfoldable pub close_for_read_error : ReadError → ℕ × String
close_for_read_error (websocket_read_error code reason) = (code, reason)
close_for_read_error _ = (1002, "protocol error")

-- `io.ReadFull`; the flag says whether a byte has been read already.
unfoldable pub fill : Bool → ℕ → Reader Bytes
fill started zero s = ok [] s
fill started (suc n) [] = err (if started then unexpected_eof else eof)
fill started (suc n) (b ∷ s) = elim (fill true n s) [
  | ok bs rest ↦ ok (b ∷ bs) rest
  | err e ↦ err e
  | stuck ↦ stuck
]

abbrev pub read_full : ℕ → Reader Bytes
read_full n = fill false n

-- `bytes[i]`, for an index in range.
abbrev pub at : Bytes → ℕ → ℕ
at [] i = 0
at (b ∷ bs) zero = b
at (b ∷ bs) (suc i) = at bs i

-- The bits of a header byte, by arithmetic: `b & 0x70`, `b & 0x80`, `b & 0x0f` and `b & 0x7f`.
abbrev pub has_rsv : ℕ → Bool
has_rsv b = not (b / 16 % 8 == 0)

abbrev pub has_high_bit : ℕ → Bool
has_high_bit b = leb 128 b

bool_beq : Bool → Bool → Bool
bool_beq true true = true
bool_beq false false = true
bool_beq _ _ = false

-- The arithmetic agrees with the masks of the source on every byte.
header_masks :
    all_below 256 (λ b.
      bool_beq (has_rsv b) (not (bit_and b 0x70 == 0))
      && bool_beq (has_high_bit b) (not (bit_and b 0x80 == 0))
      && (bit_and b 0x0f == b % 16)
      && (bit_and b 0x7f == b % 128))
    ≡ true
unfolding all_below bool_beq
header_masks = refl

-- `length = length<<8 | uint64(b)` over a `uint64`.
unfoldable pub shift_in : ℕ → Bytes → ℕ
shift_in length [] = length
shift_in length (b ∷ bs) = shift_in (length * 256 % 2 ^ 64 + b) bs

-- The payload length, from the second header byte.
unfoldable pub read_length : ℕ → Reader ℕ
unfolding fill
read_length b1 =
    if b1 % 128 == 126
    then (do
      ext ← read_full 2
      let length = at ext 0 * 256 + at ext 1
      if ltb length 126 then fail (protocol_error "non-minimal payload length") else return length)
    else if b1 % 128 == 127
    then (do
      ext ← read_full 8
      if has_high_bit (at ext 0)
          then fail (protocol_error "invalid 64-bit payload length")
          else if leb (shift_in 127 ext) 0xffff
          then fail (protocol_error "non-minimal payload length")
          else return (shift_in 127 ext))
    else return (b1 % 128)

-- `payload[i] ^= mask[i%4]`, from index `i` on.
unfoldable pub apply_mask : Bytes → ℕ → Bytes → Bytes
apply_mask mask i [] = []
apply_mask mask i (b ∷ bs) = bit_xor b (at mask (i % 4)) ∷ apply_mask mask (i + 1) bs

-- What follows the length: its checks, the mask and the payload.
unfoldable pub read_payload : ℕ → Bool → ℕ → ℕ → Reader WebsocketFrame
unfolding fill apply_mask
read_payload max_message_bytes fin opcode length =
    if leb op_close opcode && (not fin || ltb 125 length)
    then fail (protocol_error "invalid control frame")
    else if leb max_message_bytes 0 || ltb max_message_bytes length
    then fail (message_too_big "message too large")
    else (do
      mask ← read_full 4
      payload ← read_full length
      return (record { fin = fin; opcode = opcode; payload = apply_mask mask 0 payload }))

-- A limit of 0 stands for every limit that is not positive.
unfoldable pub read_client_frame : ℕ → Reader WebsocketFrame
unfolding fill read_length read_payload
read_client_frame max_message_bytes = do
  header ← read_full 2
  let b0 = at header 0
  let b1 = at header 1
  if has_rsv b0
      then fail (protocol_error "RSV bits are not supported")
      else if (leb 0x3 (b0 % 16) && leb (b0 % 16) 0x7) || leb 0xB (b0 % 16)
      then fail (protocol_error "reserved opcode")
      else if not (has_high_bit b1)
      then fail (protocol_error "client frame is not masked")
      else (do
        length ← read_length b1
        read_payload max_message_bytes (has_high_bit b0) (b0 % 16) length)
