-- ===== src/WebSocket/Close.antt =====
-- Close frames (internal/relay/websocket.go, `validateClosePayload` and `validCloseCode`), with
-- `utf8.Valid` of Go's library.
pub mod Utf8
pub mod Accepted
use tg_proxy_relay.Prelude.{
  ℕ, zero, suc, ◌+◌, ◌*◌, ◌≡◌, refl, Bool, true, false, not, ◌&&◌, ◌||◌, ◌⊎◌, ◌↔◌, [], ◌∷◌, ltb,
  leb, ◌==◌, nat_eq, if◌then◌else◌, Bytes, ◌≤◌, arith, Option, none, some,
}
use tg_proxy_relay.WebSocket.Frame.{ReadError, protocol_error, invalid_payload}

-- How many continuation bytes follow a first byte of UTF-8, and the range of the first of them.
utf8_lead : ℕ → Option (ℕ × ℕ × ℕ)
utf8_lead a =
    if ltb a 0x80
    then some (0, 0x80, 0xBF)
    else if ltb a 0xC2
    then none
    else if leb a 0xDF
    then some (1, 0x80, 0xBF)
    else if a == 0xE0
    then some (2, 0xA0, 0xBF)
    else if a == 0xED
    then some (2, 0x80, 0x9F)
    else if leb a 0xEF
    then some (2, 0x80, 0xBF)
    else if a == 0xF0
    then some (3, 0x90, 0xBF)
    else if leb a 0xF3
    then some (3, 0x80, 0xBF)
    else if a == 0xF4
    then some (3, 0x80, 0x8F)
    else none

-- `more` continuation bytes are due, the next of them between `lo` and `hi`.
utf8_from : ℕ → ℕ → ℕ → Bytes → Bool
utf8_from zero lo hi [] = true
utf8_from (suc more) lo hi [] = false
utf8_from zero lo hi (a ∷ s) = elim (utf8_lead a) [
  | none ↦ false
  | some (more, lo', hi') ↦ utf8_from more lo' hi' s
]
utf8_from (suc more) lo hi (c ∷ s) = leb lo c && leb c hi && utf8_from more 0x80 0xBF s

unfoldable pub utf8_valid : Bytes → Bool
unfolding utf8_lead utf8_from
utf8_valid = utf8_from 0 0x80 0xBF

unfoldable pub valid_close_code : ℕ → Bool
valid_close_code code =
    if leb 3000 code && leb code 4999
    then true
    else if ltb code 1000 || leb 1016 code
    then false
    else if code == 1004 || code == 1005 || code == 1006 || code == 1015
    then false
    else true

-- `none` is Go's nil error.
unfoldable pub validate_close_payload : Bytes → Option ReadError
validate_close_payload [] = none
validate_close_payload (b ∷ []) = some (protocol_error "invalid close payload")
validate_close_payload (b0 ∷ b1 ∷ reason) =
    if not (valid_close_code (b0 * 256 + b1))
    then some (protocol_error "invalid close code")
    else if not (utf8_valid reason)
    then some (invalid_payload "invalid close reason")
    else none

-- The close codes that may stand in a frame: those that RFC 6455 defines for it (1000 to 1003 and
-- 1007 to 1011), the three that are registered besides (1012 to 1014), and those of libraries and
-- applications (3000 to 4999).
abbrev pub IsCloseCode : ℕ → Type 0
IsCloseCode code =
    (1000 ≤ code) × (code ≤ 1003) ⊎ (1007 ≤ code) × (code ≤ 1014) ⊎ (3000 ≤ code) × (code ≤ 4999)

pub valid_close_code_iff : (code : ℕ) → (valid_close_code code ≡ true) ↔ IsCloseCode code
unfolding valid_close_code
valid_close_code_iff code = (λ h. ground arith, λ h. ground arith)
