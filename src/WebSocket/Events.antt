-- ===== src/WebSocket/Events.antt =====
-- The events of a client connection (internal/relay/websocket.go, `clientFrameReader` and
-- `nextEvent`): control frames pass through, data frames are put together to messages.
pub mod Invariant
pub mod Messages
use Prim.Native.String.{String, ◌++◌ as append}
use tg_proxy_relay.Prelude.{
  ℕ, zero, suc, ◌-◌, Bool, not, ◌||◌, List, [], ◌∷◌, ◌++◌, ltb, leb, ◌==◌, nat_eq, if◌then◌else◌,
  Bytes, length,
}
use tg_proxy_relay.WebSocket.Frame.{
  WebsocketFrame, Read, ReadError, ok, err, stuck, protocol_error, message_too_big,
  read_client_frame, op_continuation, op_text, op_binary, op_close, op_ping, op_pong,
}

pub record ClientFrameReader : Type 0 where
  pub max_message_bytes : ℕ
  pub fragmented_opcode : ℕ
  pub fragmented : Bytes

-- What one frame brings: an event, nothing yet, or the end of the connection.
pub data Handled : Type 0 where
  event : ℕ → Bytes → ClientFrameReader → Handled
  pending : ClientFrameReader → Handled
  rejected : ReadError → Handled

-- `%d` of an opcode, which has four bits.
pub opcode_digits : ℕ → String
opcode_digits n = if ltb n 10 then digit n else append "1" (digit (n - 10))
  where
    digit : ℕ → String
    digit k =
        if k == 0
        then "0"
        else if k == 1
        then "1"
        else if k == 2
        then "2"
        else if k == 3
        then "3"
        else if k == 4
        then "4"
        else if k == 5
        then "5"
        else if k == 6
        then "6"
        else if k == 7
        then "7"
        else if k == 8
        then "8"
        else "9"

continuation : ClientFrameReader → WebsocketFrame → Handled
continuation r frame =
    if r.fragmented_opcode == 0
    then rejected (protocol_error "unexpected continuation frame")
    else if ltb (r.max_message_bytes - length frame.payload) (length r.fragmented)
    then rejected (message_too_big "message too large")
    else if frame.fin
    then event op_binary (r.fragmented ++ frame.payload)
        (record r { fragmented = []; fragmented_opcode = 0 })
    else pending (record r { fragmented = r.fragmented ++ frame.payload })

-- The switch of `nextEvent`.
unfoldable pub handle_frame : ClientFrameReader → WebsocketFrame → Handled
unfolding continuation
handle_frame r frame =
    if frame.opcode == op_close || frame.opcode == op_ping || frame.opcode == op_pong
    then event frame.opcode frame.payload r
    else if frame.opcode == op_text
    then rejected (protocol_error "text frames are not supported")
    else if frame.opcode == op_binary
    then (if not (r.fragmented_opcode == 0)
        then rejected (protocol_error "new data frame before fragmented message completed")
        else if frame.fin
        then event op_binary frame.payload r
        else pending (record r { fragmented_opcode = op_binary; fragmented = frame.payload }))
    else if frame.opcode == op_continuation
    then continuation r frame
    else rejected (protocol_error (append "unsupported opcode " (opcode_digits frame.opcode)))

abbrev pub Outcome : Type 0
Outcome = Read (ℕ × Bytes) × ClientFrameReader

-- After a frame was handled: the event, or the next round of the loop.
after_frame : (ClientFrameReader → Bytes → Outcome) → ClientFrameReader → Bytes → Handled → Outcome
after_frame loop r rest (event opcode payload r') = (ok (opcode, payload) rest, r')
after_frame loop r rest (pending r') = loop r' rest
after_frame loop r rest (rejected e) = (err e, r)

after_read :
    (ClientFrameReader → Bytes → Outcome) → ClientFrameReader → Read WebsocketFrame → Outcome
unfolding after_frame
after_read loop r (ok frame rest) = after_frame loop r rest (handle_frame r frame)
after_read loop r (err e) = (err e, r)
after_read loop r stuck = (stuck, r)

-- The loop of `nextEvent`, on fuel: every round reads a frame of six bytes at least.
unfoldable pub next_event : ℕ → ClientFrameReader → Bytes → Outcome
unfolding after_read
next_event zero r s = (stuck, r)
next_event (suc fuel) r s = after_read (next_event fuel) r (read_client_frame r.max_message_bytes s)
