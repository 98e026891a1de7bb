-- ===== src/WebSocket/Close/Accepted.antt =====
-- Which close payloads are accepted (internal/relay/websocket.go, `validateClosePayload`).
use tg_proxy_relay.Prelude.{◌+◌, ◌*◌, ◌≡◌, ◌↔◌, refl, [], ◌∷◌, Bytes, arith, none}
use tg_proxy_relay.WebSocket.Close.{validate_close_payload, IsCloseCode, valid_close_code_iff}
use tg_proxy_relay.WebSocket.Close.Utf8.{IsUtf8}
use tg_proxy_relay.WebSocket.Close.Utf8.Sound.{utf8_valid_iff}

-- No payload, or a close code with a reason in UTF-8.
abbrev pub IsClosePayload : Bytes → Type 0
IsClosePayload [] = Unit
IsClosePayload (b ∷ []) = ⊥
IsClosePayload (b0 ∷ b1 ∷ reason) = IsCloseCode (b0 * 256 + b1) × IsUtf8 reason

-- The close payloads that are accepted are exactly the empty one, and those of a close code between
-- 1000 and 1003, 1007 and 1014 or 3000 and 4999, in two bytes, with a reason that is the UTF-8 of a sequence
-- of characters.
pub validate_close_payload_iff :
    (payload : Bytes) → (validate_close_payload payload ≡ none) ↔ IsClosePayload payload
unfolding validate_close_payload
validate_close_payload_iff [] = (λ _. tt, λ _. refl)
validate_close_payload_iff (b ∷ []) = (λ h. cc, λ h. absurd h)
validate_close_payload_iff (b0 ∷ b1 ∷ reason) = (
  λ h. (
    (valid_close_code_iff (b0 * 256 + b1)).0 (ground (arith, h)),
    (utf8_valid_iff reason).0 (ground (arith, h)),
  ),
  λ (c, u). ground (arith, (valid_close_code_iff (b0 * 256 + b1)).1 c, (utf8_valid_iff reason).1 u),
)
