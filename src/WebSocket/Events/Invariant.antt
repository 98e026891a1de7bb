-- ===== src/WebSocket/Events/Invariant.antt =====
-- The reader between two events: what it holds of an unfinished message stays within the limit,
-- events stay within the limit, and the loop ends.
use tg_proxy_relay.Prelude.{
  ℕ, zero, suc, ◌%◌, ◌≡◌, ◌≢◌, refl, ap, ◌∙◌, Bool, true, false, ◌⊎◌, [], ◌∷◌, nat_eq, Bytes,
  length, length-append, All, All-of_append_right, ◌≤◌, ◌<◌, arith,
}
use tg_proxy_relay.WebSocket.Frame.{
  WebsocketFrame, Read, ok, err, stuck, read_client_frame, read_length, read_payload, fill, ◌>>=◌,
  return, has_high_bit, op_binary,
}
use tg_proxy_relay.WebSocket.Spec.{IsByte, IsFrame, client_frame}
use tg_proxy_relay.WebSocket.Read.Sound.{read_client_frame_sound, built}
use tg_proxy_relay.WebSocket.Events.{
  ClientFrameReader, Handled, event, pending, rejected, handle_frame, next_event, after_frame,
  after_read, Outcome,
}

-- Between messages nothing is held; within one, no more than the limit.
pub record IsReader (r : ClientFrameReader) : Type 0 where
  pub bounded : length r.fragmented ≤ r.max_message_bytes
  pub opcode : (r.fragmented_opcode ≡ 0) ⊎ (r.fragmented_opcode ≡ op_binary)
  pub idle : r.fragmented_opcode ≡ 0 → r.fragmented ≡ []

abbrev pub IsEvent : ℕ → ℕ → Bytes → Type 0
IsEvent max opcode payload =
    ((opcode ≡ op_binary) × (length payload ≤ max))
    ⊎ ((8 ≤ opcode) × (opcode ≤ 10) × (length payload ≤ 125))

-- After a message, and not a control frame, the reader is idle.
abbrev pub IsReset : ℕ → ClientFrameReader → Type 0
IsReset opcode r = (8 ≤ opcode) ⊎ (r.fragmented_opcode ≡ 0) × (r.fragmented ≡ [])

-- What a reader in state `r` may make of a frame.
abbrev Handles : ClientFrameReader → Handled → Type 0
Handles r (event opcode payload r') =
    IsEvent r.max_message_bytes opcode payload
    × IsReader r'
    × IsReset opcode r'
    × (r'.max_message_bytes ≡ r.max_message_bytes)
Handles r (pending r') = IsReader r' × (r'.max_message_bytes ≡ r.max_message_bytes)
Handles r (rejected e) = Unit

handle_frame-Handles :
    (r : ClientFrameReader) (f : WebsocketFrame)
    → IsReader r
    → IsFrame r.max_message_bytes f
    → Handles r (handle_frame r f)
unfolding handle_frame
handle_frame-Handles r f hr hf = ground (arith, length-append r.fragmented f.payload)

fill-ne-stuck : (started : Bool) (n : ℕ) (s : Bytes) → fill started n s ≢ stuck
unfolding fill
fill-ne-stuck started zero s h = cc
fill-ne-stuck started (suc n) [] h = cc
fill-ne-stuck started (suc n) (b ∷ s) h = ground (arith, fill-ne-stuck true n s)

read_length-ne-stuck : (b1 : ℕ) (s : Bytes) → read_length b1 s ≢ stuck
unfolding read_length
read_length-ne-stuck b1 s h = ground arith

bind-ne-stuck {ℓ κ} :
    {A : Type ℓ} {B : Type κ} (m : Bytes → Read A) (f : A → Bytes → Read B) (s : Bytes)
    → m s ≢ stuck
    → ((a : A) (r : Bytes) → f a r ≢ stuck)
    → (m >>= f) s ≢ stuck
bind-ne-stuck {A} {B} m f s hm hf h = go (m s) hm h
  where
    go :
        (x : Read A)
        → x ≢ stuck
        → (let y : Read B = elim x [ ok a r ↦ f a r | err e ↦ err e | stuck ↦ stuck ] in y) ≡ stuck
        → ⊥
    go (ok a r) e k = hf a r k
    go (err x) e k = cc
    go stuck e k = e refl

read_payload-ne-stuck :
    (max : ℕ) (fin : Bool) (opcode n : ℕ) (s : Bytes) → read_payload max fin opcode n s ≢ stuck
unfolding read_payload
read_payload-ne-stuck max fin opcode n s h = ground (
  arith,
  bind-ne-stuck (fill false 4)
      (λ mask. fill false n >>= λ payload. return (built fin opcode mask payload)) s
      (fill-ne-stuck false 4 s)
      (λ mask r.
        bind-ne-stuck (fill false n) (λ payload. return (built fin opcode mask payload)) r
          (fill-ne-stuck false n r) (λ payload t e. cc)),
)

read_client_frame-ne-stuck : (max : ℕ) (s : Bytes) → read_client_frame max s ≢ stuck
unfolding read_client_frame
read_client_frame-ne-stuck max [] h = cc
read_client_frame-ne-stuck max (b0 ∷ []) h = cc
read_client_frame-ne-stuck max (b0 ∷ b1 ∷ s) h = ground (
  arith,
  bind-ne-stuck (read_length b1) (read_payload max (has_high_bit b0) (b0 % 16)) s
      (read_length-ne-stuck b1 s)
      (λ n r. read_payload-ne-stuck max (has_high_bit b0) (b0 % 16) n r),
)

-- A frame takes six bytes at least, and leaves bytes.
IsFrame-shrinks :
    (max : ℕ) (s rest : Bytes) (f : WebsocketFrame)
    → All IsByte s
    → read_client_frame max s ≡ ok f rest
    → (length rest < length s) × All IsByte rest × IsFrame max f
unfolding client_frame
IsFrame-shrinks max s rest f bs h =
    let (m, hm, valid, split) = read_client_frame_sound max s rest f bs h in
    (
      omega (arith, ap length split, length-append (client_frame m f) rest),
      All-of_append_right IsByte (client_frame m f) rest (rw split at bs),
      valid,
    )

-- What a call of `nextEvent` on a reader in state `r` may come to.
abbrev pub Yields : ClientFrameReader → Read (ℕ × Bytes) × ClientFrameReader → Type 0
Yields r (ok (opcode, payload) rest, r') =
    IsEvent r.max_message_bytes opcode payload
    × IsReader r'
    × IsReset opcode r'
    × (r'.max_message_bytes ≡ r.max_message_bytes)
    × All IsByte rest
Yields r (err e, r') = Unit
Yields r (stuck, r') = ⊥

abbrev LoopYields : ℕ → (ClientFrameReader → Bytes → Outcome) → Type 0
LoopYields fuel loop =
    (r : ClientFrameReader) (s : Bytes)
    → length s < fuel
    → All IsByte s
    → IsReader r
    → Yields r (loop r s)

Yields-of_limit :
    (r r' : ClientFrameReader) (o : Outcome)
    → r'.max_message_bytes ≡ r.max_message_bytes
    → Yields r' o
    → Yields r o
Yields-of_limit r r' (ok (opcode, payload) rest, r2) e (y, v, z, same, bs) =
    (rw (← e) y, v, z, same ∙ e, bs)
Yields-of_limit r r' (err x, r2) e y = tt
Yields-of_limit r r' (stuck, r2) e y = y

after_frame-Yields :
    (fuel : ℕ) (loop : ClientFrameReader → Bytes → Outcome) (r : ClientFrameReader) (rest : Bytes)
    (h : Handled)
    → LoopYields fuel loop
    → length rest < fuel
    → All IsByte rest
    → Handles r h
    → Yields r (after_frame loop r rest h)
unfolding after_frame
after_frame-Yields fuel loop r rest (event opcode payload r') ih len bs (e, v, z, same) =
    (e, v, z, same, bs)
after_frame-Yields fuel loop r rest (pending r') ih len bs (v, same) =
    Yields-of_limit r r' (loop r' rest) same (ih r' rest len bs v)
after_frame-Yields fuel loop r rest (rejected e) ih len bs h = tt

after_read-Yields :
    (fuel : ℕ) (loop : ClientFrameReader → Bytes → Outcome) (r : ClientFrameReader) (s : Bytes)
    (x : Read WebsocketFrame)
    → LoopYields fuel loop
    → length s < suc fuel
    → All IsByte s
    → IsReader r
    → read_client_frame r.max_message_bytes s ≡ x
    → Yields r (after_read loop r x)
unfolding after_read
after_read-Yields fuel loop r s (ok frame rest) ih len bs hr e =
    let (shorter, bs', valid) = IsFrame-shrinks r.max_message_bytes s rest frame bs e in
    after_frame-Yields fuel loop r rest (handle_frame r frame) ih (omega arith) bs'
      (handle_frame-Handles r frame hr valid)
after_read-Yields fuel loop r s (err x) ih len bs hr e = tt
after_read-Yields fuel loop r s stuck ih len bs hr e =
    read_client_frame-ne-stuck r.max_message_bytes s e

-- With more fuel than bytes on the connection the loop ends by an event or an error. An event is of
-- a binary message within the limit or of a control frame of at most 125 bytes. The reader is well
-- formed again after it: it holds at most the limit, and nothing if no message is begun; after a
-- message none is begun.
pub next_event-Yields :
    (fuel : ℕ) (r : ClientFrameReader) (s : Bytes)
    → length s < fuel
    → All IsByte s
    → IsReader r
    → Yields r (next_event fuel r s)
unfolding next_event
next_event-Yields zero r s h bs hr = absurd (omega arith)
next_event-Yields (suc fuel) r s h bs hr =
    after_read-Yields fuel (next_event fuel) r s (read_client_frame r.max_message_bytes s)
      (next_event-Yields fuel) h bs hr refl
