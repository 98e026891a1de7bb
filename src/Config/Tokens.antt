-- ===== src/Config/Tokens.antt =====
-- Tokens, their hashes and their identifiers (internal/config/config.go: `Token`, `TokenHash`,
-- `normalizeHash`, `StableTokenID`, `validIdentifier`, `validateTokens`, `authorizeToken`).
pub mod WellFormed
use tg_proxy_relay.Prelude.{
  ℕ, ◌+◌, ◌-◌, ◌*◌, ◌/◌, ◌%◌, Bool, true, false, not, ◌||◌, ◌&&◌, List, [], ◌∷◌, ◌++◌, ltb, leb,
  ◌==◌, nat_eq, bytes_eq, if◌then◌else◌, contains, Bytes, length, take, Option, none, some,
}
use tg_proxy_relay.Prelude.Text.{codes, has_prefix, trim_prefix, trim_space}
use tg_proxy_relay.Platform.{Platform}

pub record Token : Type 0 where
  pub id : Bytes
  pub name : Bytes
  pub hash : Bytes
  pub created_at : Bytes

abbrev pub no_token : Token
no_token = record { id = []; name = []; hash = []; created_at = [] }

-- hex.DecodeString
hex_value : ℕ → Option ℕ
hex_value c =
    if leb b'0' c && leb c b'9'
    then some (c - b'0')
    else if leb b'a' c && leb c b'f'
    then some (c - b'a' + 10)
    else if leb b'A' c && leb c b'F'
    then some (c - b'A' + 10)
    else none

hex_pair : Option ℕ → Option ℕ → Option Bytes → Option Bytes
hex_pair (some hi) (some lo) (some rest) = some ((hi * 16 + lo) ∷ rest)
hex_pair _ _ _ = none

unfoldable pub hex_decode : Bytes → Option Bytes
unfolding hex_value hex_pair
hex_decode [] = some []
hex_decode (c ∷ []) = none
hex_decode (c ∷ d ∷ s) = hex_pair (hex_value c) (hex_value d) (hex_decode s)

-- hex.EncodeToString
hex_digit : ℕ → ℕ
hex_digit n = if ltb n 10 then n + b'0' else n - 10 + b'a'

unfoldable pub hex_encode : Bytes → Bytes
unfolding hex_digit
hex_encode [] = []
hex_encode (b ∷ s) = hex_digit (b / 16) ∷ hex_digit (b % 16) ∷ hex_encode s

is_some : Option Bytes → Bool
is_some none = false
is_some (some _) = true

abbrev pub sha256_prefix : Bytes
sha256_prefix = codes "sha256:"

module _ (go : Platform) where
  open go use {to_lower, sha256_sum}

  unfoldable pub token_hash : Bytes → Bytes
  token_hash token = sha256_prefix ++ hex_encode (sha256_sum token)

  unfoldable pub normalize_hash : Bytes → Bytes
  unfolding is_some
  normalize_hash value =
      let normalized = trim_space (to_lower value) in
      if normalized == []
      then []
      else if has_prefix normalized sha256_prefix
      then normalized
      else if length normalized == 64 && is_some (hex_decode normalized)
      then sha256_prefix ++ normalized
      else normalized

-- A letter, a digit, `-` or `_`.
unfoldable pub is_id_byte : ℕ → Bool
is_id_byte ch =
    (leb b'a' ch && leb ch b'z')
    || (leb b'A' ch && leb ch b'Z')
    || (leb b'0' ch && leb ch b'9')
    || ch == b'-'
    || ch == b'_'

-- The loop over the characters; a byte of a longer encoding is none of the allowed ones.
unfoldable pub all_bytes : (ℕ → Bool) → Bytes → Bool
all_bytes p [] = true
all_bytes p (c ∷ s) = p c && all_bytes p s

unfoldable pub valid_identifier : Bytes → Bool
unfolding all_bytes is_id_byte
valid_identifier value =
    let id = trim_space value in
    if id == [] || ltb 96 (length id) then false else all_bytes is_id_byte id

abbrev pub cfg_prefix : Bytes
cfg_prefix = codes "cfg_"

module _ (go : Platform) where
  unfoldable pub stable_token_id : Token → Bytes
  stable_token_id token =
      let hash = trim_prefix (normalize_hash go token.hash) sha256_prefix in
      if valid_identifier token.id
      then trim_space token.id
      else if leb 16 (length hash)
      then cfg_prefix ++ take 16 hash
      else codes "cfg_unknown"

-- A control character, as `strings.IndexFunc` looks for one.
unfoldable pub has_control : Bytes → Bool
has_control [] = false
has_control (c ∷ s) = ltb c 0x20 || c == 0x7f || has_control s

pub data TokenError : Type 0 where
  too_many invalid_name invalid_id invalid_created_at invalid_hash : TokenError
  duplicate_hash duplicate_id : TokenError

-- `none` is Go's nil error.
module _ (go : Platform) where
  -- The checks of one token, before those against the tokens in front of it.
  unfoldable pub validate_token : Token → Option TokenError
  unfolding is_some
  validate_token token =
      let normalized = normalize_hash go token.hash in
      let hex_hash = trim_prefix normalized sha256_prefix in
      if ltb 128 (length token.name) || has_control token.name
      then some invalid_name
      else if not (token.id == []) && not (valid_identifier token.id)
      then some invalid_id
      else if ltb 64 (length token.created_at) || has_control token.created_at
      then some invalid_created_at
      else if not (has_prefix normalized sha256_prefix) || not (length hex_hash == 64)
      then some invalid_hash
      else if not (is_some (hex_decode hex_hash))
      then some invalid_hash
      else none

  unfoldable pub validate_tokens_from : List Bytes → List Bytes → List Token → Option TokenError
  validate_tokens_from hashes ids [] = none
  validate_tokens_from hashes ids (token ∷ rest) =
      let normalized = normalize_hash go token.hash in
      let id = stable_token_id go token in
      let later = validate_tokens_from (normalized ∷ hashes) (id ∷ ids) rest in
      elim (validate_token token) [
        | some e ↦ some e
        | none ↦
            if contains hashes normalized
            then some duplicate_hash
            else if contains ids id
            then some duplicate_id
            else later
      ]

  unfoldable pub validate_tokens : List Token → ℕ → Option TokenError
  validate_tokens tokens max =
      if ltb max (length tokens) then some too_many else validate_tokens_from [] [] tokens

  -- `authorizeToken`, with `subtle.ConstantTimeCompare` as equality.
  any_stored : List Token → Bytes → Bool
  any_stored [] hash = false
  any_stored (token ∷ rest) hash =
      let stored = normalize_hash go token.hash in
      let later = any_stored rest hash in
      if stored == [] then later else if hash == stored then true else later

  unfoldable pub authorize_token : List Token → Bytes → Bool
  unfolding any_stored
  authorize_token tokens raw_token =
      if trim_space raw_token == [] then false else any_stored tokens (token_hash go raw_token)
