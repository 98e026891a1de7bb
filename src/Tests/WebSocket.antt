-- ===== src/Tests/WebSocket.antt =====
-- The WebSocket layer on samples (internal/relay/websocket.go).
use tg_proxy_relay.Prelude.{
  ◌≡◌, ◌↔◌, refl, true, false, [], ◌∷◌, ◌++◌, Bytes, none, arith, All, inl, inr,
}
use tg_proxy_relay.WebSocket.Frame.{
  WebsocketFrame, ok, read_client_frame, read_length, read_payload, fill, apply_mask, op_binary,
}
use tg_proxy_relay.WebSocket.Spec.{IsByte, Mask, IsMask, IsFrame, client_frame, server_frame}
use tg_proxy_relay.WebSocket.Read.{read_client_frame-client_frame}
use tg_proxy_relay.WebSocket.Read.Sound.{read_client_frame_sound}
use tg_proxy_relay.WebSocket.Write.{
  wrote, write_failed, Delivers, write_frame, write_frame-Delivers,
}
use tg_proxy_relay.WebSocket.Close.Accepted.{IsClosePayload, validate_close_payload_iff}
use tg_proxy_relay.WebSocket.Close.{validate_close_payload}
use tg_proxy_relay.WebSocket.Events.{ClientFrameReader, next_event}
use tg_proxy_relay.WebSocket.Events.Invariant.{IsReader, Yields, next_event-Yields}
use tg_proxy_relay.WebSocket.Events.Messages.{
  Fragment, IsFragment, fragment_frame, continuations, payloads, idle, next_event-message,
}

abbrev sample_mask : Mask
sample_mask = record { m0 = 1; m1 = 2; m2 = 3; m3 = 255 }

sample_IsMask : IsMask sample_mask
sample_IsMask = record { m0 = omega arith; m1 = omega arith; m2 = omega arith; m3 = omega arith }

abbrev sample_frame : WebsocketFrame
sample_frame = record { fin = true; opcode = 2; payload = 7 ∷ 200 ∷ [] }

sample_IsFrame : IsFrame 64 sample_frame
sample_IsFrame = record {
  opcode = inl (omega arith);
  control_fin = λ h. refl;
  control_length = λ h. omega arith;
  bounded = omega arith;
  bytes = (omega arith, (omega arith, tt));
}

read_client_frame-client_frame_example :
    read_client_frame 64 (client_frame sample_mask sample_frame ++ 9 ∷ [])
    ≡ ok sample_frame (9 ∷ [])
read_client_frame-client_frame_example =
    read_client_frame-client_frame 64 sample_mask sample_frame (9 ∷ []) (omega arith) (omega arith)
      sample_IsMask sample_IsFrame

-- The same frame as bytes.
abbrev sample_bytes : Bytes
sample_bytes = 130 ∷ 130 ∷ 1 ∷ 2 ∷ 3 ∷ 255 ∷ 6 ∷ 202 ∷ 9 ∷ []

sample_bytes-IsByte : All IsByte sample_bytes
sample_bytes-IsByte = (
  omega arith,
  (
    omega arith,
    (
      omega arith,
      (omega arith, (omega arith, (omega arith, (omega arith, (omega arith, (omega arith, tt)))))),
    ),
  ),
)

read_client_frame_sound_example :
    (m : Mask) × IsMask m
    × IsFrame 64 sample_frame
    × (sample_bytes ≡ client_frame m sample_frame ++ 9 ∷ [])
unfolding read_client_frame read_length read_payload fill apply_mask
read_client_frame_sound_example =
    read_client_frame_sound 64 sample_bytes (9 ∷ []) sample_frame sample_bytes-IsByte refl

-- A reader in the middle of a message.
abbrev sample_reader : ClientFrameReader
sample_reader = record { max_message_bytes = 64; fragmented_opcode = 2; fragmented = 1 ∷ [] }

sample_IsReader : IsReader sample_reader
sample_IsReader = record { bounded = omega arith; opcode = inr refl; idle = λ h. cc }

next_event-Yields_example : Yields sample_reader (next_event 10 sample_reader sample_bytes)
next_event-Yields_example =
    next_event-Yields 10 sample_reader sample_bytes (omega arith) sample_bytes-IsByte
      sample_IsReader

abbrev idle_reader : ClientFrameReader
idle_reader = record { max_message_bytes = 64; fragmented_opcode = 0; fragmented = [] }

abbrev sample_fragment : Fragment
sample_fragment = record { mask = sample_mask; payload = 7 ∷ 200 ∷ [] }

sample_IsFragment : IsFragment sample_fragment
sample_IsFragment = record { mask = sample_IsMask; bytes = (omega arith, (omega arith, tt)) }

next_event-message_example :
    next_event 5 idle_reader (
      fragment_frame false op_binary sample_fragment
      ++ (continuations (sample_fragment ∷ []) sample_fragment ++ 9 ∷ []))
    ≡ (
      ok
          (op_binary, sample_fragment.payload ++ payloads (sample_fragment ∷ []) sample_fragment)
          (9 ∷ []),
      idle idle_reader,
    )
next_event-message_example =
    next_event-message 5 idle_reader sample_fragment (sample_fragment ∷ []) sample_fragment (9 ∷ [])
      (omega arith) (omega arith) (omega arith) sample_IsFragment (sample_IsFragment, tt)
      sample_IsFragment (omega arith) refl refl

write_frame-Delivers_example :
    Delivers
      (server_frame op_binary (7 ∷ 8 ∷ 9 ∷ []))
      (write_frame (wrote 2 ∷ wrote 1 ∷ write_failed ∷ []) op_binary (7 ∷ 8 ∷ 9 ∷ []))
write_frame-Delivers_example =
    write_frame-Delivers (wrote 2 ∷ wrote 1 ∷ write_failed ∷ []) op_binary (7 ∷ 8 ∷ 9 ∷ [])
      (omega arith)

validate_close_payload_iff_example :
    (validate_close_payload (3 ∷ 232 ∷ 98 ∷ []) ≡ none) ↔ IsClosePayload (3 ∷ 232 ∷ 98 ∷ [])
validate_close_payload_iff_example = validate_close_payload_iff (3 ∷ 232 ∷ 98 ∷ [])
