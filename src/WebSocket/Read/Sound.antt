-- ===== src/WebSocket/Read/Sound.antt =====
-- What `read_client_frame` accepts is the encoding of a valid frame.
use tg_proxy_relay.Prelude.{
  ℕ, zero, suc, ◌+◌, ◌*◌, ◌/◌, ◌%◌, ◌^◌, ◌≡◌, refl, ◌∙◌, subst, Bool, true, false, not, ◌&&◌, ◌||◌,
  inl, inr, [], ◌∷◌, ◌++◌, ltb, leb, ◌==◌, nat_eq, if◌then◌else◌, Bytes, length, All,
  All-of_append_left, All-of_append_right, ◌≤◌, ◌<◌, arith, Bool-cases, append_assoc,
}
use tg_proxy_relay.WebSocket.Frame.{
  WebsocketFrame, Read, apply_mask, fail, return, protocol_error, at, fill, ok, err, stuck,
  read_length, read_payload, read_client_frame, ◌>>=◌, has_high_bit, shift_in, op_close,
}
use tg_proxy_relay.WebSocket.Spec.{
  IsByte, be16, be64, short_length, long_length, fin_bit, Mask, mask_bytes, client_frame, IsFrame,
  IsMask, IsOpcode,
}
use tg_proxy_relay.WebSocket.Read.{
  masked-apply_mask, length-apply_mask, apply_mask-apply_mask, apply_mask-IsByte,
}

fill-inv :
    (started : Bool) (n : ℕ) (s xs rest : Bytes)
    → fill started n s ≡ ok xs rest
    → (s ≡ xs ++ rest) × (length xs ≡ n)
unfolding fill
fill-inv started zero s xs rest h = ground arith
fill-inv started (suc n) [] xs rest h = cc
fill-inv started (suc n) (b ∷ s) xs rest h = go (fill true n s) (fill-inv true n s) h
  where
    go :
        (r : Read Bytes)
        → ((bs t : Bytes) → r ≡ ok bs t → (s ≡ bs ++ t) × (length bs ≡ n))
        → (let y : Read Bytes = elim r [
          | ok bs t ↦ ok (b ∷ bs) t
          | err e ↦ err e
          | stuck ↦ stuck
        ] in
            y)
          ≡ ok xs rest
        → (b ∷ s ≡ xs ++ rest) × (length xs ≡ suc n)
    go (ok bs r) ih k = ground (arith, ih bs r refl)
    go (err x) ih k = cc
    go stuck ih k = cc

-- Inversion of a successful bind.
bind-inv {ℓ κ} :
    {A : Type ℓ} {B : Type κ} (m : Bytes → Read A) (f : A → Bytes → Read B) (s rest : Bytes) (b : B)
    → (m >>= f) s ≡ ok b rest
    → (a : A) × (r : Bytes) × (m s ≡ ok a r) × (f a r ≡ ok b rest)
bind-inv {A} {B} m f s rest b h = go (m s) refl h
  where
    go :
        (x : Read A)
        → m s ≡ x
        → (let y : Read B = elim x [ ok a r ↦ f a r | err e ↦ err e | stuck ↦ stuck ] in y)
          ≡ ok b rest
        → (a : A) × (r : Bytes) × (m s ≡ ok a r) × (f a r ≡ ok b rest)
    go (ok a r) e k = (a, r, e, k)
    go (err x) e k = cc
    go stuck e k = cc

pair_value : (xs : Bytes) → length xs ≡ 2 → All IsByte xs → be16 (at xs 0 * 256 + at xs 1) ≡ xs
pair_value (a ∷ b ∷ []) len h =
    let p : (a * 256 + b) / 256 % 256 ≡ a = omega arith in
    let q : (a * 256 + b) % 256 ≡ b = omega arith in cc
pair_value _ len h = absurd (omega arith)

abbrev big : ℕ → ℕ → ℕ → ℕ → ℕ → ℕ → ℕ → ℕ → ℕ
big a b c d e f g h =
    a * 2 ^ 56 + b * 2 ^ 48 + c * 2 ^ 40 + d * 2 ^ 32 + e * 2 ^ 24 + f * 2 ^ 16 + g * 2 ^ 8 + h

eight_value :
    (xs : Bytes)
    → length xs ≡ 8
    → All IsByte xs
    → at xs 0 < 128
    → (be64 (shift_in 127 xs) ≡ xs) × (shift_in 127 xs < 2 ^ 63)
unfolding shift_in
eight_value (a ∷ b ∷ c ∷ d ∷ e ∷ f ∷ g ∷ h ∷ []) len bs high =
    let v : shift_in 127 (a ∷ b ∷ c ∷ d ∷ e ∷ f ∷ g ∷ h ∷ []) ≡ big a b c d e f g h = omega arith in
    let n = big a b c d e f g h in
    let da : n / 2 ^ 56 % 256 ≡ a = omega arith in
    let db : n / 2 ^ 48 % 256 ≡ b = omega arith in
    let dc : n / 2 ^ 40 % 256 ≡ c = omega arith in
    let dd : n / 2 ^ 32 % 256 ≡ d = omega arith in
    let de : n / 2 ^ 24 % 256 ≡ e = omega arith in
    let df : n / 2 ^ 16 % 256 ≡ f = omega arith in
    let dg : n / 2 ^ 8 % 256 ≡ g = omega arith in
    let dh : n % 256 ≡ h = omega arith in rw v (cc, omega arith)
eight_value _ len bs high = absurd (omega arith)

-- The length that is read is below 2^63, and its bytes are the shortest form of it.
read_length-inv :
    (b1 n : ℕ) (s rest : Bytes)
    → All IsByte s
    → IsByte b1
    → 128 ≤ b1
    → read_length b1 s ≡ ok n rest
    → (b1 ≡ 128 + short_length n) × (s ≡ long_length n ++ rest) × (n < 2 ^ 63)
unfolding read_length short_length long_length
read_length-inv b1 n s rest bs hb high h = elim (Bool-cases (b1 % 128 == 126)) [
  | inl e ↦ ground arith
  | inr e ↦ elim (Bool-cases (b1 % 128 == 127)) [
    | inl f ↦
        let (xs, r, read, rest_ok) =
          bind-inv (fill false 8)
            (λ ext.
              if has_high_bit (at ext 0)
              then fail (protocol_error "invalid 64-bit payload length")
              else if leb (shift_in 127 ext) 0xffff
              then fail (protocol_error "non-minimal payload length")
              else return (shift_in 127 ext))
            s rest n (rw (e, f) at h) in
        let (split, len) = fill-inv false 8 s xs r read in
        ground (arith, eight_value xs len (All-of_append_left IsByte xs r (rw split at bs)))
    | inr f ↦ ground arith
  ]
]

four_bytes :
    (xs : Bytes) → length xs ≡ 4 → All IsByte xs → (m : Mask) × IsMask m × (xs ≡ mask_bytes m)
four_bytes (a ∷ b ∷ c ∷ d ∷ []) len h =
    (record { m0 = a; m1 = b; m2 = c; m3 = d }, omega arith, refl)
four_bytes _ len h = absurd (omega arith)

-- What stands behind the header of an accepted frame.
abbrev Behind : ℕ → Bool → ℕ → ℕ → Bytes → Bytes → WebsocketFrame → Type 0
Behind max fin opcode n s rest f =
    (m : Mask) × IsMask m
    × IsFrame max f
    × (f.fin ≡ fin)
    × (f.opcode ≡ opcode)
    × (length f.payload ≡ n)
    × (s ≡ mask_bytes m ++ (apply_mask (mask_bytes m) 0 f.payload ++ rest))

unmasked :
    (max : ℕ) (fin : Bool) (opcode n : ℕ) (m : Mask) (raw rest : Bytes)
    → IsMask m
    → All IsByte raw
    → IsOpcode opcode
    → length raw ≡ n
    → n ≤ max
    → (8 ≤ opcode → fin ≡ true)
    → (8 ≤ opcode → n ≤ 125)
    → Behind max fin opcode n
        (mask_bytes m ++ (raw ++ rest))
        rest
        (record { fin = fin; opcode = opcode; payload = apply_mask (mask_bytes m) 0 raw })
unmasked max fin opcode n m raw rest hm bs ho len small cf cl =
    let same_length = length-apply_mask (mask_bytes m) 0 raw in
    (
      m,
      hm,
      record {
        opcode = ho;
        control_fin = cf;
        control_length = λ c. omega (arith, cl c);
        bounded = omega arith;
        bytes = apply_mask-IsByte m 0 raw hm bs;
      },
      refl,
      refl,
      same_length ∙ len,
      rw (apply_mask-apply_mask m 0 raw hm bs),
    )

abbrev pub built : Bool → ℕ → Bytes → Bytes → WebsocketFrame
built fin opcode mask raw = record { fin = fin; opcode = opcode; payload = apply_mask mask 0 raw }

read_payload-split :
    (max : ℕ) (fin : Bool) (opcode n : ℕ) (s rest : Bytes) (f : WebsocketFrame)
    → read_payload max fin opcode n s ≡ ok f rest
    → (xs : Bytes) × (raw : Bytes) × (s ≡ xs ++ (raw ++ rest))
      × (length xs ≡ 4)
      × (length raw ≡ n)
      × (built fin opcode xs raw ≡ f)
      × ((leb op_close opcode && (not fin || ltb 125 n)) ≡ false)
      × ((leb max 0 || ltb max n) ≡ false)
unfolding read_payload
read_payload-split max fin opcode n s rest f h =
    elim (Bool-cases (leb op_close opcode && (not fin || ltb 125 n))) [
      | inl e ↦ cc (rw e at h)
      | inr e ↦ elim (Bool-cases (leb max 0 || ltb max n)) [
        | inl l ↦ cc (rw (e, l) at h)
        | inr l ↦
            let (xs, s1, read, h1) =
              bind-inv (fill false 4)
                (λ mask. fill false n >>= λ payload. return (built fin opcode mask payload)) s rest
                f (rw (e, l) at h) in
            let (raw, s2, read', h2) =
              bind-inv (fill false n) (λ payload. return (built fin opcode xs payload)) s1 rest f
                h1 in
            let (split, len) = fill-inv false 4 s xs s1 read in
            let (split', len') = fill-inv false n s1 raw s2 read' in
            (xs, raw, cc, len, len', cc, e, l)
      ]
    ]

limit-le : (max n : ℕ) → (leb max 0 || ltb max n) ≡ false → n ≤ max
limit-le max n h = ground arith

control-fin :
    (fin : Bool) (opcode n : ℕ)
    → (leb op_close opcode && (not fin || ltb 125 n)) ≡ false
    → 8 ≤ opcode
    → fin ≡ true
control-fin fin opcode n h c = ground arith

control-length :
    (fin : Bool) (opcode n : ℕ)
    → (leb op_close opcode && (not fin || ltb 125 n)) ≡ false
    → 8 ≤ opcode
    → n ≤ 125
control-length fin opcode n h c = ground arith

read_payload-inv :
    (max : ℕ) (fin : Bool) (opcode n : ℕ) (s rest : Bytes) (f : WebsocketFrame)
    → All IsByte s
    → IsOpcode opcode
    → read_payload max fin opcode n s ≡ ok f rest
    → Behind max fin opcode n s rest f
read_payload-inv max fin opcode n s rest f bs ho h =
    let (xs, raw, split, len, len', made, control, small) =
      read_payload-split max fin opcode n s rest f h in
    let bytes : All IsByte (xs ++ (raw ++ rest)) = rw split at bs in
    let (m, hm, is_mask) = four_bytes xs len (All-of_append_left IsByte xs (raw ++ rest) bytes) in
    let raw_bytes =
      All-of_append_left IsByte raw rest (All-of_append_right IsByte xs (raw ++ rest) bytes) in
    let whole : mask_bytes m ++ (raw ++ rest) ≡ s = cc in
    let frame : built fin opcode (mask_bytes m) raw ≡ f = cc in
    subst (λ t. Behind max fin opcode n t rest f) whole
      (subst (λ g. Behind max fin opcode n (mask_bytes m ++ (raw ++ rest)) rest g) frame
        (unmasked max fin opcode n m raw rest hm raw_bytes ho len' (limit-le max n small)
          (control-fin fin opcode n control) (control-length fin opcode n control)))

header-split :
    (max b0 b1 : ℕ) (s rest : Bytes) (f : WebsocketFrame)
    → IsByte b0
    → read_client_frame max (b0 ∷ b1 ∷ s) ≡ ok f rest
    → IsOpcode (b0 % 16)
      × (128 ≤ b1)
      × (fin_bit (has_high_bit b0) + b0 % 16 ≡ b0)
      × ((read_length b1 >>= read_payload max (has_high_bit b0) (b0 % 16)) s ≡ ok f rest)
unfolding read_client_frame
header-split max b0 b1 s rest f hb h = (ground arith, ground arith, ground arith, ground arith)

-- Whatever the bytes, a frame that the relay reads is valid within the limit, and the bytes read
-- are its encoding by the RFC under some mask, in the shortest form of its length.
pub read_client_frame_sound :
    (max : ℕ) (s rest : Bytes) (f : WebsocketFrame)
    → All IsByte s
    → read_client_frame max s ≡ ok f rest
    → (m : Mask) × IsMask m × IsFrame max f × (s ≡ client_frame m f ++ rest)
unfolding read_client_frame client_frame
read_client_frame_sound max [] rest f bs h = cc
read_client_frame_sound max (b0 ∷ []) rest f bs h = cc
read_client_frame_sound max (b0 ∷ b1 ∷ s) rest f bs h =
    let (opcode, high, first, body) = header-split max b0 b1 s rest f bs.0 h in
    let (n, s1, length_read, payload_read) =
      bind-inv (read_length b1) (read_payload max (has_high_bit b0) (b0 % 16)) s rest f body in
    let (second, split, small) = read_length-inv b1 n s s1 bs.1.1 bs.1.0 high length_read in
    let bytes : All IsByte (long_length n ++ s1) = rw split at bs.1.1 in
    let (m, hm, valid, fin, op, len, behind) =
      read_payload-inv max (has_high_bit b0) (b0 % 16) n s1 rest f
        (All-of_append_right IsByte (long_length n) s1 bytes) opcode payload_read in
    (
      m,
      hm,
      valid,
      ground (
        arith,
        masked-apply_mask m f.payload,
        append_assoc (long_length n) (mask_bytes m ++ apply_mask (mask_bytes m) 0 f.payload) rest,
      ),
    )
