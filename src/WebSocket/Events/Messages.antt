-- ===== src/WebSocket/Events/Messages.antt =====
-- A message in fragments comes out whole.
use tg_proxy_relay.Prelude.{
  ℕ, zero, suc, ◌+◌, ◌^◌, ◌≡◌, refl, ap, ◌∙◌, Bool, true, false, List, [], ◌∷◌, ◌++◌, Bytes, length,
  length-append, All, ◌≤◌, ◌<◌, arith, append_assoc, inl,
}
use tg_proxy_relay.WebSocket.Frame.{
  WebsocketFrame, ok, read_client_frame, op_binary, op_continuation,
}
use tg_proxy_relay.WebSocket.Spec.{IsByte, IsFrame, Mask, IsMask, client_frame}
use tg_proxy_relay.WebSocket.Read.{read_client_frame-client_frame}
use tg_proxy_relay.WebSocket.Events.{ClientFrameReader, handle_frame, next_event, after_frame}

-- One fragment: its mask and its payload.
pub record Fragment : Type 0 where
  pub mask : Mask
  pub payload : Bytes

pub record IsFragment (p : Fragment) : Type 0 where
  pub mask : IsMask p.mask
  pub bytes : All IsByte p.payload

abbrev pub fragment_frame : Bool → ℕ → Fragment → Bytes
fragment_frame fin opcode p =
    client_frame p.mask (record { fin = fin; opcode = opcode; payload = p.payload })

-- The continuation frames of a message: those in the middle, and the last one.
abbrev pub continuations : List Fragment → Fragment → Bytes
continuations [] last = fragment_frame true op_continuation last
continuations (p ∷ ps) last = fragment_frame false op_continuation p ++ continuations ps last

abbrev pub payloads : List Fragment → Fragment → Bytes
payloads [] last = last.payload
payloads (p ∷ ps) last = p.payload ++ payloads ps last

abbrev pub idle : ClientFrameReader → ClientFrameReader
idle r = record r { fragmented = []; fragmented_opcode = 0 }

next_event-read :
    (fuel : ℕ) (r : ClientFrameReader) (s rest : Bytes) (f : WebsocketFrame)
    → read_client_frame r.max_message_bytes s ≡ ok f rest
    → next_event (suc fuel) r s ≡ after_frame (next_event fuel) r rest (handle_frame r f)
unfolding next_event
next_event-read fuel r s rest f e = rw e

data-IsFrame :
    (max opcode : ℕ) (fin : Bool) (p : Fragment)
    → opcode ≤ 2
    → IsFragment p
    → length p.payload ≤ max
    → IsFrame max (record { fin = fin; opcode = opcode; payload = p.payload })
data-IsFrame max opcode fin p op h len = record {
  opcode = inl op;
  control_fin = λ c. absurd (omega arith);
  control_length = λ c. absurd (omega arith);
  bounded = len;
  bytes = h.bytes;
}

module _ (fuel : ℕ) (r : ClientFrameReader) (p : Fragment) (rest : Bytes)
    (positive : 0 < r.max_message_bytes) (small : r.max_message_bytes < 2 ^ 63)
    (valid : IsFragment p)
    (fits : length r.fragmented + length p.payload ≤ r.max_message_bytes) where
  read_fragment :
      (fin : Bool) (opcode : ℕ)
      → opcode ≤ 2
      → read_client_frame r.max_message_bytes (fragment_frame fin opcode p ++ rest)
        ≡ ok (record { fin = fin; opcode = opcode; payload = p.payload }) rest
  read_fragment fin opcode op =
      read_client_frame-client_frame r.max_message_bytes p.mask
        (record { fin = fin; opcode = opcode; payload = p.payload }) rest positive small valid.mask
        (data-IsFrame r.max_message_bytes opcode fin p op valid (omega arith))

  last_fragment :
      r.fragmented_opcode ≡ op_binary
      → next_event (suc fuel) r (fragment_frame true op_continuation p ++ rest)
        ≡ (ok (op_binary, r.fragmented ++ p.payload) rest, idle r)
  unfolding handle_frame after_frame
  last_fragment b =
      ground
        (arith, next_event-read fuel r _ rest _ (read_fragment true op_continuation (omega arith)))

  middle_fragment :
      r.fragmented_opcode ≡ op_binary
      → next_event (suc fuel) r (fragment_frame false op_continuation p ++ rest)
        ≡ next_event fuel (record r { fragmented = r.fragmented ++ p.payload }) rest
  unfolding handle_frame after_frame
  middle_fragment b =
      ground
        (arith, next_event-read fuel r _ rest _ (read_fragment false op_continuation (omega arith)))

  first_fragment :
      r.fragmented_opcode ≡ 0
      → next_event (suc fuel) r (fragment_frame false op_binary p ++ rest)
        ≡ next_event fuel (record r { fragmented_opcode = op_binary; fragmented = p.payload }) rest
  unfolding handle_frame after_frame
  first_fragment b =
      ground (arith, next_event-read fuel r _ rest _ (read_fragment false op_binary (omega arith)))

next_event-continuations :
    (fuel : ℕ) (r : ClientFrameReader) (ps : List Fragment) (last : Fragment) (rest : Bytes)
    → length ps < fuel
    → 0 < r.max_message_bytes
    → r.max_message_bytes < 2 ^ 63
    → All IsFragment ps
    → IsFragment last
    → length r.fragmented + length (payloads ps last) ≤ r.max_message_bytes
    → r.fragmented_opcode ≡ op_binary
    → next_event fuel r (continuations ps last ++ rest)
      ≡ (ok (op_binary, r.fragmented ++ payloads ps last) rest, idle r)
next_event-continuations zero r ps last rest len pos small hs h fits b = absurd (omega arith)
next_event-continuations (suc fuel) r [] last rest len pos small hs h fits b =
    last_fragment fuel r last rest pos small h fits b
next_event-continuations (suc fuel) r (p ∷ ps) last rest len pos small hs h fits b =
    let size = length-append p.payload (payloads ps last) in
    let size' = length-append r.fragmented p.payload in
    let held = record r { fragmented = r.fragmented ++ p.payload } in
    rw (append_assoc (fragment_frame false op_continuation p) (continuations ps last) rest) (
      middle_fragment fuel r p (continuations ps last ++ rest) pos small hs.0 (omega arith) b
      ∙ next_event-continuations fuel held ps last rest (omega arith) pos small hs.1 h (omega arith)
          b
      ∙ cc (append_assoc r.fragmented p.payload (payloads ps last)))

-- A binary message that is sent in two or more fragments, each under its own mask, is one event:
-- the payloads in their order. It fits the limit as a whole, the reader holds nothing before, and
-- holds nothing afterwards; what follows the message is left on the connection.
pub next_event-message :
    (fuel : ℕ) (r : ClientFrameReader) (first : Fragment) (ps : List Fragment) (last : Fragment)
    (rest : Bytes)
    → length ps + 1 < fuel
    → 0 < r.max_message_bytes
    → r.max_message_bytes < 2 ^ 63
    → IsFragment first
    → All IsFragment ps
    → IsFragment last
    → length (first.payload ++ payloads ps last) ≤ r.max_message_bytes
    → r.fragmented_opcode ≡ 0
    → r.fragmented ≡ []
    → next_event fuel r (fragment_frame false op_binary first ++ (continuations ps last ++ rest))
      ≡ (ok (op_binary, first.payload ++ payloads ps last) rest, idle r)
next_event-message zero r first ps last rest len pos small hf hs h fits b e = absurd (omega arith)
next_event-message (suc fuel) r first ps last rest len pos small hf hs h fits b e =
    let size = length-append first.payload (payloads ps last) in
    let empty = ap (λ t. length t) e in
    first_fragment fuel r first (continuations ps last ++ rest) pos small hf (omega arith) b
    ∙ next_event-continuations fuel
        (record r { fragmented_opcode = op_binary; fragmented = first.payload }) ps last rest
        (omega arith) pos small hs h (omega arith) refl
