-- ===== src/Platform.antt =====
-- What the program takes from outside its own code: the functions of Go's library that rest on
-- large tables or on cryptography. Their documented behaviour is stated where a property uses it.
use tg_proxy_relay.Prelude.{Bool, Bytes}

pub record Platform : Type 0 where
  -- strings.ToLower
  pub to_lower : Bytes → Bytes
  -- strings.EqualFold
  pub equal_fold : Bytes → Bytes → Bool
  -- sha256.Sum256, of 32 bytes
  pub sha256_sum : Bytes → Bytes
  -- whether base64.RawURLEncoding.DecodeString succeeds
  pub is_raw_url_base64 : Bytes → Bool
  -- base64.RawURLEncoding.EncodeToString
  pub raw_url_base64 : Bytes → Bytes
