-- ===== src/WebSocket/Write.antt =====
-- Writing frames (internal/relay/websocket.go, `writeAll`, `writeFrame` and `writeClose`). A
-- connection that is written to is the list of its answers to the coming calls of `Write`; after
-- the last of them it accepts everything. By the contract of `io.Writer` an answer `wrote n` to a
-- slice has `n` at most the slice's length.
use Prim.Native.Nat.{bit_or}
use Prim.Native.String.{String}
use tg_proxy_relay.Prelude.{
  ℕ, suc, ◌+◌, ◌/◌, ◌%◌, ◌^◌, ◌≡◌, refl, ap, sym, ◌∙◌, subst, Bool, true, false, inl, inr, List, [],
  ◌∷◌, ◌++◌, ltb, leb, ltb→lt, ◌==◌, nat_eq, if◌then◌else◌, Bytes, length, take, drop,
  take-append-drop, length-take-le, ◌≤◌, ◌<◌, arith, nat_beq_iff, Bool-cases, append_assoc,
  append-nil, all_below, all_below_sound,
}
use tg_proxy_relay.Prelude.Text.{codes}
use tg_proxy_relay.WebSocket.Frame.{op_close}
use tg_proxy_relay.WebSocket.Spec.{be16, short_length, long_length, server_frame}

pub data WriteReply : Type 0 where
  wrote : ℕ → WriteReply
  write_failed : WriteReply

pub data WriteResult : Type 0 where
  done write_error short_write : WriteResult

-- The bytes that went out, the result, and the answers that are left.
pub record Sent : Type 0 where
  pub bytes : Bytes
  pub result : WriteResult
  pub replies : List WriteReply

abbrev sent_before : Bytes → Sent → Sent
sent_before out s = record s { bytes = out ++ s.bytes }

unfoldable pub write_all : List WriteReply → Bytes → Sent
write_all replies [] = record { bytes = []; result = done; replies = replies }
write_all [] (b ∷ bs) = record { bytes = b ∷ bs; result = done; replies = [] }
write_all (write_failed ∷ replies) (b ∷ bs) = record {
  bytes = [];
  result = write_error;
  replies = replies;
}
write_all (wrote n ∷ replies) (b ∷ bs) =
    let rest = write_all replies (drop n (b ∷ bs)) in
    if leb n 0
    then record { bytes = []; result = short_write; replies = replies }
    else sent_before (take n (b ∷ bs)) rest

unfoldable pub frame_header : ℕ → ℕ → Bytes
frame_header opcode length =
    bit_or 0x80 opcode
    ∷ (if ltb length 126
        then length % 256 ∷ []
        else if leb length 0xffff
        then 126 ∷ length / 2 ^ 8 % 256 ∷ length % 256 ∷ []
        else 127
          ∷ length / 2 ^ 56 % 256
          ∷ length / 2 ^ 48 % 256
          ∷ length / 2 ^ 40 % 256
          ∷ length / 2 ^ 32 % 256
          ∷ length / 2 ^ 24 % 256
          ∷ length / 2 ^ 16 % 256
          ∷ length / 2 ^ 8 % 256
          ∷ length % 256
          ∷ [])

-- The payload is written only when the whole header went out.
after_header : Bytes → Sent → Sent
after_header payload s = elim s.result [
  | done ↦ sent_before s.bytes (write_all s.replies payload)
  | _ ↦ s
]

unfoldable pub write_frame : List WriteReply → ℕ → Bytes → Sent
unfolding after_header
write_frame replies opcode payload =
    after_header payload (write_all replies (frame_header opcode (length payload)))

-- The payload of `writeClose`; a reason of the program is ASCII.
unfoldable pub close_payload : ℕ → String → Bytes
close_payload code reason =
    let payload = be16 code ++ codes reason in
    if ltb 125 (length payload) then take 125 payload else payload

unfoldable pub write_close : List WriteReply → ℕ → String → Sent
write_close replies code reason = write_frame replies op_close (close_payload code reason)

-- `out` is what went out of `whole`: all of it on success, and otherwise the part before the rest.
abbrev pub Delivers : Bytes → Sent → Type 0
Delivers whole s = (rest : Bytes) × (s.bytes ++ rest ≡ whole) × (s.result ≡ done → rest ≡ [])

write_all-Delivers : (replies : List WriteReply) (p : Bytes) → Delivers p (write_all replies p)
unfolding write_all
write_all-Delivers replies [] = ([], refl, λ _. refl)
write_all-Delivers [] (b ∷ bs) = ([], append-nil (b ∷ bs), λ _. refl)
write_all-Delivers (write_failed ∷ replies) (b ∷ bs) = (b ∷ bs, refl, λ e. cc)
write_all-Delivers (wrote n ∷ replies) (b ∷ bs) = elim (Bool-cases (leb n 0)) [
  | inl e ↦ rw e (b ∷ bs, refl, λ e. cc)
  | inr e ↦
      let (rest, eq, all) = write_all-Delivers replies (drop n (b ∷ bs)) in
      rw e (
        rest,
        append_assoc (take n (b ∷ bs)) (write_all replies (drop n (b ∷ bs))).bytes rest
            ∙ ap (λ t. take n (b ∷ bs) ++ t) eq
            ∙ take-append-drop n (b ∷ bs),
        all,
      )
]

or_table : all_below 128 (λ b. bit_or 0x80 b == 128 + b) ≡ true
unfolding all_below
or_table = refl

header-server :
    (opcode : ℕ) (payload : Bytes)
    → opcode < 128
    → frame_header opcode (length payload) ++ payload ≡ server_frame opcode payload
unfolding frame_header server_frame short_length long_length
header-server opcode payload h =
    let first : bit_or 0x80 opcode ≡ 128 + opcode =
      (nat_beq_iff _ _).0 (all_below_sound 128 (λ b. bit_or 0x80 b == 128 + b) opcode or_table h) in
    ground arith

after_header-Delivers :
    (header payload : Bytes) (s : Sent)
    → Delivers header s
    → Delivers (header ++ payload) (after_header payload s)
unfolding after_header
after_header-Delivers header payload s (rest, eq, all) = go s.result refl
  where
    failed : s.bytes ++ (rest ++ payload) ≡ header ++ payload
    failed = sym (append_assoc s.bytes rest payload) ∙ ap (λ t. t ++ payload) eq

    whole : s.result ≡ done → s.bytes ≡ header
    whole e = sym (append-nil s.bytes) ∙ ap (λ t. s.bytes ++ t) (sym (all e)) ∙ eq

    go : (r : WriteResult) → s.result ≡ r → Delivers (header ++ payload) (after_header payload s)
    go done e =
        let (rest', eq', all') = write_all-Delivers s.replies payload in
        rw (e, after_header)
          (
            rest',
            append_assoc s.bytes (write_all s.replies payload).bytes rest' ∙ cc (eq', whole e),
            all',
          )
    go write_error e = rw (e, after_header) (rest ++ payload, failed, λ d. cc)
    go short_write e = rw (e, after_header) (rest ++ payload, failed, λ d. cc)

-- However the connection splits its writes, `write_frame` puts the frame of the RFC on it: all of
-- it when it reports success, and on a failure a part from the front and nothing else.
pub write_frame-Delivers :
    (replies : List WriteReply) (opcode : ℕ) (payload : Bytes)
    → opcode < 128
    → Delivers (server_frame opcode payload) (write_frame replies opcode payload)
unfolding write_frame
write_frame-Delivers replies opcode payload h =
    subst (λ t. Delivers t (write_frame replies opcode payload)) (header-server opcode payload h)
      (after_header-Delivers (frame_header opcode (length payload)) payload _
        (write_all-Delivers replies (frame_header opcode (length payload))))

clip_bounds :
    (n : ℕ) (p : Bytes)
    → (length (if ltb n (length p) then take n p else p) ≤ n)
      × (length p ≤ n → (if ltb n (length p) then take n p else p) ≡ p)
clip_bounds n p = elim (Bool-cases (ltb n (length p))) [
  | inl e ↦ rw e (length-take-le n p, λ h. absurd (omega (arith, ltb→lt n (length p) e)))
  | inr e ↦ rw e (ground arith, λ _. refl)
]

clip_front :
    (n a b : ℕ) (p : Bytes) (c : Bool)
    → take 2 (if c then take (suc (suc n)) (a ∷ b ∷ p) else a ∷ b ∷ p) ≡ a ∷ b ∷ []
clip_front n a b p true = refl
clip_front n a b p false = refl

-- A close frame is a control frame: its payload is the code and the reason, cut to 125 bytes.
pub close_payload-bounds :
    (code : ℕ) (reason : String)
    → (length (close_payload code reason) ≤ 125)
      × (take 2 (close_payload code reason) ≡ be16 code)
      × (length (codes reason) ≤ 123 → close_payload code reason ≡ be16 code ++ codes reason)
unfolding close_payload
close_payload-bounds code reason =
    let (bound, whole) = clip_bounds 125 (be16 code ++ codes reason) in
    (
      bound,
      clip_front 123 (code / 256 % 256) (code % 256) (codes reason)
          (ltb 125 (length (be16 code ++ codes reason))),
      λ h. whole (omega arith),
    )
