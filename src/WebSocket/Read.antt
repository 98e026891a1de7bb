-- ===== src/WebSocket/Read.antt =====
-- `read_client_frame` accepts what a client sends for a valid frame; that it accepts nothing else is
-- in the module below.
pub mod Sound
use Prim.Native.Nat.{bit_xor}
use tg_proxy_relay.Prelude.{
  ℕ, zero, suc, ◌+◌, ◌/◌, ◌%◌, ◌^◌, ◌≡◌, refl, ap, Bool, true, false, ◌⊎◌, inl, inr, List, [], ◌∷◌,
  ◌++◌, ltb, leb, ◌==◌, nat_eq, if◌then◌else◌, Bytes, length, length-append, All, ◌≤◌, ◌<◌, arith,
  all_below, all_below_sound, nat_beq_iff, Bool-cases, append_assoc, not, ◌&&◌, ◌||◌, leb→le,
  ltb→lt,
}
use tg_proxy_relay.WebSocket.Frame.{
  WebsocketFrame, apply_mask, at, fill, ok, read_length, read_payload, read_client_frame, ◌>>=◌,
  has_high_bit, shift_in, op_close,
}
use tg_proxy_relay.WebSocket.Spec.{
  IsByte, be16, be64, short_length, long_length, fin_bit, Mask, mask_bytes, masked, client_frame,
  IsFrame, IsMask, IsOpcode,
}

xor_table : all_below 256 (λ m. all_below 256 (λ b. bit_xor (bit_xor b m) m == b)) ≡ true
unfolding all_below
xor_table = refl

xor_twice : (b m : ℕ) → IsByte b → IsByte m → bit_xor (bit_xor b m) m ≡ b
xor_twice b m hb hm = (nat_beq_iff _ b).0 (
    all_below_sound 256 (λ b. bit_xor (bit_xor b m) m == b) b
      (all_below_sound 256 (λ m. all_below 256 (λ b. bit_xor (bit_xor b m) m == b)) m xor_table hm)
      hb)

xor_bytes : all_below 256 (λ m. all_below 256 (λ b. ltb (bit_xor b m) 256)) ≡ true
unfolding all_below
xor_bytes = refl

xor-IsByte : (b m : ℕ) → IsByte b → IsByte m → IsByte (bit_xor b m)
xor-IsByte b m hb hm = ltb→lt (bit_xor b m) 256 (
    all_below_sound 256 (λ b. ltb (bit_xor b m) 256) b
      (all_below_sound 256 (λ m. all_below 256 (λ b. ltb (bit_xor b m) 256)) m xor_bytes hm) hb)

fill-append :
    (started : Bool) (xs rest : Bytes) → fill started (length xs) (xs ++ rest) ≡ ok xs rest
unfolding fill
fill-append started [] rest = refl
fill-append started (x ∷ xs) rest = rw (fill-append true xs rest)

pub length-apply_mask :
    (mask : Bytes) (i : ℕ) (xs : Bytes) → length (apply_mask mask i xs) ≡ length xs
unfolding apply_mask
length-apply_mask mask i [] = refl
length-apply_mask mask i (x ∷ xs) = ap suc (length-apply_mask mask (i + 1) xs)

at_mask : (m : Mask) (i : ℕ) → IsMask m → IsByte (at (mask_bytes m) i)
at_mask m zero h = h.m0
at_mask m (suc zero) h = h.m1
at_mask m (suc (suc zero)) h = h.m2
at_mask m (suc (suc (suc zero))) h = h.m3
at_mask m (suc (suc (suc (suc i)))) h = omega arith

-- Masking is its own inverse.
pub apply_mask-apply_mask :
    (m : Mask) (i : ℕ) (xs : Bytes)
    → IsMask m
    → All IsByte xs
    → apply_mask (mask_bytes m) i (apply_mask (mask_bytes m) i xs) ≡ xs
unfolding apply_mask
apply_mask-apply_mask m i [] hm h = refl
apply_mask-apply_mask m i (x ∷ xs) hm h = cc (
  xor_twice x (at (mask_bytes m) (i % 4)) h.0 (at_mask m (i % 4) hm),
  apply_mask-apply_mask m (i + 1) xs hm h.1,
)

pub apply_mask-IsByte :
    (m : Mask) (i : ℕ) (xs : Bytes)
    → IsMask m
    → All IsByte xs
    → All IsByte (apply_mask (mask_bytes m) i xs)
unfolding apply_mask
apply_mask-IsByte m i [] hm h = tt
apply_mask-IsByte m i (x ∷ xs) hm h = (
  xor-IsByte x (at (mask_bytes m) (i % 4)) h.0 (at_mask m (i % 4) hm),
  apply_mask-IsByte m (i + 1) xs hm h.1,
)

be64_value : (n : ℕ) → n < 2 ^ 63 → shift_in 127 (be64 n) ≡ n
unfolding shift_in
be64_value n h = omega arith

-- The three forms of a length, each read back.
read_length-short :
    (n : ℕ) (s : Bytes)
    → n < 2 ^ 63
    → read_length (128 + short_length n) (long_length n ++ s) ≡ ok n s
unfolding read_length short_length long_length
read_length-short n s h = elim (Bool-cases (ltb n 126)) [
  | inl e ↦ rw e (ground arith)
  | inr e ↦ rw e (elim (Bool-cases (leb n 65535)) [
    | inl f ↦ rw f (ground arith)
    | inr f ↦ rw (f, be64_value n h) (ground arith)
  ])
]

control_ok :
    (fin : Bool) (opcode n : ℕ)
    → (8 ≤ opcode → fin ≡ true)
    → (8 ≤ opcode → n ≤ 125)
    → (leb op_close opcode && (not fin || ltb 125 n)) ≡ false
control_ok fin opcode n hf hn = elim (Bool-cases (leb op_close opcode)) [
  | inl e ↦ rw (e, hf (leb→le 8 opcode e)) (ground (arith, hn (leb→le 8 opcode e)))
  | inr e ↦ rw e
]

limit_ok : (max n : ℕ) → 0 < max → n ≤ max → (leb max 0 || ltb max n) ≡ false
limit_ok max n pos h = ground arith

fill-masked :
    (m : Mask) (p rest : Bytes)
    → fill false (length p) (apply_mask (mask_bytes m) 0 p ++ rest)
      ≡ ok (apply_mask (mask_bytes m) 0 p) rest
fill-masked m p rest =
    rw (← length-apply_mask (mask_bytes m) 0 p)
      (fill-append false (apply_mask (mask_bytes m) 0 p) rest)

read_payload-client :
    (max : ℕ) (m : Mask) (f : WebsocketFrame) (rest : Bytes)
    → IsMask m
    → IsFrame max f
    → 0 < max
    → read_payload max f.fin f.opcode
        (length f.payload)
        (mask_bytes m ++ (apply_mask (mask_bytes m) 0 f.payload ++ rest))
      ≡ ok f rest
unfolding read_payload fill
read_payload-client max m f rest hm h pos = rw (
  control_ok f.fin f.opcode (length f.payload) h.control_fin h.control_length,
  limit_ok max (length f.payload) pos h.bounded,
  fill-masked m f.payload rest,
  ◌>>=◌,
  apply_mask-apply_mask m 0 f.payload hm h.bytes,
)

turned : ℕ → Mask → Mask
turned zero m = m
turned (suc n) m = turned n (record { m0 = m.m1; m1 = m.m2; m2 = m.m3; m3 = m.m0 })

-- The code's masking from the place `i` on is that of the RFC with the mask turned.
masked-turned :
    (m : Mask) (r i : ℕ) (xs : Bytes)
    → i % 4 ≡ r
    → masked (turned r m) xs ≡ apply_mask (mask_bytes m) i xs
unfolding masked apply_mask turned
masked-turned m r i [] e = refl
masked-turned m zero i (x ∷ xs) e =
    rw (apply_mask, e)
      (ap (λ t. bit_xor x m.m0 ∷ t) (masked-turned m 1 (i + 1) xs (omega (arith, e))))
masked-turned m (suc zero) i (x ∷ xs) e =
    rw (apply_mask, e)
      (ap (λ t. bit_xor x m.m1 ∷ t) (masked-turned m 2 (i + 1) xs (omega (arith, e))))
masked-turned m (suc (suc zero)) i (x ∷ xs) e =
    rw (apply_mask, e)
      (ap (λ t. bit_xor x m.m2 ∷ t) (masked-turned m 3 (i + 1) xs (omega (arith, e))))
masked-turned m (suc (suc (suc zero))) i (x ∷ xs) e =
    rw (apply_mask, e)
      (ap (λ t. bit_xor x m.m3 ∷ t) (masked-turned m 0 (i + 1) xs (omega (arith, e))))
masked-turned m (suc (suc (suc (suc r)))) i (x ∷ xs) e = absurd (omega (arith, e))

pub masked-apply_mask : (m : Mask) (xs : Bytes) → masked m xs ≡ apply_mask (mask_bytes m) 0 xs
unfolding turned
masked-apply_mask m xs = masked-turned m 0 0 xs refl

-- The relay reads back every frame that a client sends by the RFC: the same frame, whatever its
-- mask, with what follows it left on the connection. The frame is valid within the limit, which is
-- positive and below 2^63.
pub read_client_frame-client_frame :
    (max : ℕ) (m : Mask) (f : WebsocketFrame) (rest : Bytes)
    → 0 < max
    → max < 2 ^ 63
    → IsMask m
    → IsFrame max f
    → read_client_frame max (client_frame m f ++ rest) ≡ ok f rest
unfolding read_client_frame client_frame
read_client_frame-client_frame max m f rest pos small hm h = ground (
  arith,
  masked-apply_mask m f.payload,
  append_assoc (long_length (length f.payload))
      (mask_bytes m ++ apply_mask (mask_bytes m) 0 f.payload) rest,
  read_length-short (length f.payload)
      (mask_bytes m ++ (apply_mask (mask_bytes m) 0 f.payload ++ rest)),
  read_payload-client max m f rest hm h pos,
)
