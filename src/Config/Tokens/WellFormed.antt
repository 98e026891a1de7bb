-- ===== src/Config/Tokens/WellFormed.antt =====
-- Which tokens are well formed (internal/config/config.go: the checks of `validateTokens` on one
-- token, `validIdentifier`).
use tg_proxy_relay.Prelude.{
  ℕ, ◌%◌, ◌≡◌, ◌≢◌, ◌≤◌, ◌↔◌, ◌⊎◌, inl, inr, refl, true, false, not, ◌&&◌, ◌||◌, ltb, ◌==◌, nat_eq,
  [], ◌∷◌, ◌++◌, bytes_eq, Bytes, length, none, some, Bool-cases, Option-cases, arith, All,
}
use tg_proxy_relay.Prelude.Text.{has_prefix, trim_prefix, trim_space}
use tg_proxy_relay.Prelude.Checks.{check_iff}
use tg_proxy_relay.Prelude.Prefix.{prefix_split, prefix_of, trim_of}
use tg_proxy_relay.Platform.{Platform}
use tg_proxy_relay.Config.Tokens.{
  Token, sha256_prefix, hex_value, hex_pair, hex_decode, is_some, normalize_hash, is_id_byte,
  all_bytes, valid_identifier, has_control, validate_token,
}

abbrev IsPrintable : ℕ → Type 0
IsPrintable c = (32 ≤ c) × (c ≢ 127)

abbrev IsDigit : ℕ → Type 0
IsDigit c = (b'0' ≤ c) × (c ≤ b'9')

-- A letter, a digit, `-` or `_`.
abbrev IsIdByte : ℕ → Type 0
IsIdByte c = (b'a' ≤ c) × (c ≤ b'z') ⊎ (b'A' ≤ c) × (c ≤ b'Z') ⊎ IsDigit c ⊎ (c ≡ b'-') ⊎ (c ≡ b'_')

abbrev IsHexDigit : ℕ → Type 0
IsHexDigit c = IsDigit c ⊎ (b'a' ≤ c) × (c ≤ b'f') ⊎ (b'A' ≤ c) × (c ≤ b'F')

abbrev IsIdentifier : Bytes → Type 0
IsIdentifier s = (trim_space s ≢ []) × (length (trim_space s) ≤ 96) × All IsIdByte (trim_space s)

has_control_iff : (s : Bytes) → (has_control s ≡ false) ↔ All IsPrintable s
unfolding has_control
has_control_iff [] = (λ h. tt, λ h. refl)
has_control_iff (c ∷ s) = (
  λ h. ((ground (arith, h), ground (arith, h)), (has_control_iff s).0 (ground (arith, h))),
  λ h. ground (arith, h.0.0, h.0.1, (has_control_iff s).1 h.1),
)

is_id_byte_iff : (c : ℕ) → (is_id_byte c ≡ true) ↔ IsIdByte c
unfolding is_id_byte
is_id_byte_iff c = (λ h. ground arith, λ h. ground arith)

all_bytes_iff : (s : Bytes) → (all_bytes is_id_byte s ≡ true) ↔ All IsIdByte s
unfolding all_bytes
all_bytes_iff [] = (λ h. tt, λ h. refl)
all_bytes_iff (c ∷ s) = (
  λ h. ((is_id_byte_iff c).0 (ground (arith, h)), (all_bytes_iff s).0 (ground (arith, h))),
  λ h. ground (arith, (is_id_byte_iff c).1 h.0, (all_bytes_iff s).1 h.1),
)

empty_text : (s : Bytes) → (s == []) ≡ true → s ≡ []
empty_text s h = (bytes_eq.beq_iff s []).0 h

valid_identifier_iff : (s : Bytes) → (valid_identifier s ≡ true) ↔ IsIdentifier s
unfolding valid_identifier
valid_identifier_iff s = elim (Bool-cases (trim_space s == [] || ltb 96 (length (trim_space s)))) [
  | inl e ↦
      rw (valid_identifier, e)
        (λ h. absurd cc, λ (n, l, a). absurd (n (empty_text (trim_space s) (ground (arith, e, l)))))
  | inr e ↦
      rw (valid_identifier, e)
        (
          λ h. (
            λ q. absurd (ground (arith, e, (bytes_eq.beq_iff (trim_space s) []).1 q)),
            ground (arith, e),
            (all_bytes_iff (trim_space s)).0 h,
          ),
          λ (n, l, a). (all_bytes_iff (trim_space s)).1 a,
        )
]

hex_value-some : (c v : ℕ) → hex_value c ≡ some v → IsHexDigit c
unfolding hex_value
hex_value-some c v h = ground arith

hex_value-none : (c : ℕ) → hex_value c ≡ none → IsHexDigit c → ⊥
unfolding hex_value
hex_value-none c h d = ground arith

hex_decode_sound : (s : Bytes) → is_some (hex_decode s) ≡ true → All IsHexDigit s
unfolding hex_decode hex_pair is_some
hex_decode_sound [] = λ h. tt
hex_decode_sound (c ∷ []) = λ h. absurd cc
hex_decode_sound (c ∷ d ∷ s) = elim (Option-cases (hex_value c)) [
  | inl n ↦ rw (hex_decode, n) (λ h. absurd cc)
  | inr (v, e) ↦ elim (Option-cases (hex_value d)) [
    | inl n ↦ rw (hex_decode, e, n) (λ h. absurd cc)
    | inr (w, f) ↦ elim (Option-cases (hex_decode s)) [
      | inl n ↦ rw (hex_decode, e, f, n) (λ h. absurd cc)
      | inr (r, g) ↦
          λ h. (hex_value-some c v e, (hex_value-some d w f, hex_decode_sound s (rw g refl)))
    ]
  ]
]

hex_decode_complete :
    (s : Bytes) → length s % 2 ≡ 0 → All IsHexDigit s → is_some (hex_decode s) ≡ true
unfolding hex_decode hex_pair is_some
hex_decode_complete [] l h = refl
hex_decode_complete (c ∷ []) l h = absurd (omega (arith, l))
hex_decode_complete (c ∷ d ∷ s) l h = elim (Option-cases (hex_value c)) [
  | inl n ↦ absurd (hex_value-none c n h.0)
  | inr (v, e) ↦ elim (Option-cases (hex_value d)) [
    | inl n ↦ absurd (hex_value-none d n h.1.0)
    | inr (w, f) ↦ elim (Option-cases (hex_decode s)) [
      | inl n ↦ cc (n, hex_decode_complete s (omega (arith, l)) h.1.1)
      | inr (r, g) ↦ rw (hex_decode, e, f, g) refl
    ]
  ]
]

module _ (go : Platform) where
  -- A token that may stand in a configuration.
  pub record IsToken (t : Token) : Type 0 where
    pub name : (length t.name ≤ 128) × All IsPrintable t.name
    pub id : (t.id ≡ []) ⊎ IsIdentifier t.id
    pub created_at : (length t.created_at ≤ 64) × All IsPrintable t.created_at
    pub digits : Bytes
    pub is_normal_form : normalize_hash go t.hash ≡ sha256_prefix ++ digits
    pub are_digits : (length digits ≡ 64) × All IsHexDigit digits

  -- The test of a text of limited length without control characters.
  text_iff :
      (max : ℕ) (s : Bytes)
      → (ltb max (length s) || has_control s ≡ false) ↔ ((length s ≤ max) × All IsPrintable s)
  text_iff max s = (
    λ h. (ground (arith, h), (has_control_iff s).0 (ground (arith, h))),
    λ (l, p). ground (arith, l, (has_control_iff s).1 p),
  )

  id_iff :
      (s : Bytes)
      → (not (s == []) && not (valid_identifier s) ≡ false) ↔ ((s ≡ []) ⊎ IsIdentifier s)
  id_iff s = (
    λ h. elim (Bool-cases (s == [])) [
      | inl e ↦ inl (empty_text s e)
      | inr e ↦ inr ((valid_identifier_iff s).0 (ground (arith, h, e)))
    ],
    λ h. elim h [
      | inl e ↦ ground (arith, (bytes_eq.beq_iff s []).1 e)
      | inr v ↦ ground (arith, (valid_identifier_iff s).1 v)
    ],
  )

  hash_iff :
      (normal : Bytes)
      → ((not (has_prefix normal sha256_prefix)
              || not (length (trim_prefix normal sha256_prefix) == 64)
            ≡ false)
          × (not (is_some (hex_decode (trim_prefix normal sha256_prefix))) ≡ false))
        ↔ ((digits : Bytes) × (normal ≡ sha256_prefix ++ digits)
            × (length digits ≡ 64)
            × All IsHexDigit digits)
  hash_iff normal = (
    λ (p, d). (
      trim_prefix normal sha256_prefix,
      prefix_split sha256_prefix normal (ground (arith, p)),
      ground (arith, p),
      hex_decode_sound (trim_prefix normal sha256_prefix) (ground (arith, d)),
    ),
    λ (digits, e, l, a). rw e (
      rw (prefix_of sha256_prefix digits, trim_of sha256_prefix digits, l) refl,
      rw (trim_of sha256_prefix digits, hex_decode_complete digits (omega (arith, l)) a) refl,
    ),
  )

  pub validate_token_iff : (t : Token) → (validate_token go t ≡ none) ↔ IsToken t
  unfolding validate_token
  validate_token_iff t = (
    λ h.
        let (n, h1) = (check_iff _ _ _).0 h in
        let (i, h2) = (check_iff _ _ _).0 h1 in
        let (c, h3) = (check_iff _ _ _).0 h2 in
        let (p, h4) = (check_iff _ _ _).0 h3 in
        let (d, _) = (check_iff _ _ _).0 h4 in
        let (digits, e, l, a) = (hash_iff (normalize_hash go t.hash)).0 (p, d) in
        record {
          name = (text_iff 128 t.name).0 n;
          id = (id_iff t.id).0 i;
          created_at = (text_iff 64 t.created_at).0 c;
          digits = digits;
          is_normal_form = e;
          are_digits = (l, a);
        },
    λ v.
        let (p, d) =
          (hash_iff (normalize_hash go t.hash)).1
            (v.digits, v.is_normal_form, v.are_digits.0, v.are_digits.1) in
        (check_iff _ _ _).1 (
          (text_iff 128 t.name).1 v.name,
          (check_iff _ _ _).1 (
            (id_iff t.id).1 v.id,
            (check_iff _ _ _).1 (
              (text_iff 64 t.created_at).1 v.created_at,
              (check_iff _ _ _).1 (p, (check_iff _ _ _).1 (d, refl)),
            ),
          ),
        ),
  )
