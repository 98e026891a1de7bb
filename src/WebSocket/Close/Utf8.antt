-- ===== src/WebSocket/Close/Utf8.antt =====
-- UTF-8 as RFC 3629 defines it, the encoding of a sequence of characters, which
-- `utf8_valid` accepts.
pub mod Sound
use tg_proxy_relay.Prelude.{
  ℕ, zero, suc, ◌+◌, ◌-◌, ◌*◌, ◌/◌, ◌%◌, ◌≡◌, ◌↔◌, ◌⊎◌, inl, inr, refl, sym, subst, length, ap, ◌∙◌,
  Bool, true, false, List, [], ◌∷◌, ◌++◌, ltb, leb, ◌==◌, nat_eq, ◌&&◌, if◌then◌else◌, Bytes, ◌≤◌,
  ◌<◌, arith, All, none, some, Option, Option-cases, Bool-cases, append_assoc,
}
use tg_proxy_relay.WebSocket.Close.{utf8_lead, utf8_from, utf8_valid}

-- A Unicode scalar value: up to 0x10FFFF and no surrogate.
abbrev pub IsScalar : ℕ → Type 0
IsScalar c = (c < 0xD800) ⊎ (0xE000 ≤ c) × (c < 0x110000)

pub encode : ℕ → Bytes
encode c =
    if ltb c 0x80
    then c ∷ []
    else if ltb c 0x800
    then (0xC0 + c / 64) ∷ (0x80 + c % 64) ∷ []
    else if ltb c 0x10000
    then (0xE0 + c / 4096) ∷ (0x80 + c / 64 % 64) ∷ (0x80 + c % 64) ∷ []
    else (0xF0 + c / 262144) ∷ (0x80 + c / 4096 % 64) ∷ (0x80 + c / 64 % 64) ∷ (0x80 + c % 64) ∷ []

pub encode_all : List ℕ → Bytes
encode_all [] = []
encode_all (c ∷ cs) = encode c ++ encode_all cs

-- The bytes of a sequence of characters.
abbrev pub IsUtf8 : Bytes → Type 0
IsUtf8 s = (cs : List ℕ) × All IsScalar cs × (s ≡ encode_all cs)

IsTail : ℕ → Type 0
IsTail b = (0x80 ≤ b) × (b ≤ 0xBF)

lead_one : (a : ℕ) → a < 0x80 → utf8_lead a ≡ some (0, 0x80, 0xBF)
unfolding utf8_lead
lead_one a h = ground arith

lead_two : (a : ℕ) → 0xC2 ≤ a → a ≤ 0xDF → utf8_lead a ≡ some (1, 0x80, 0xBF)
unfolding utf8_lead
lead_two a h k = ground arith

lead_three :
    (a b : ℕ)
    → 0xE0 ≤ a
    → a ≤ 0xEF
    → IsTail b
    → (a ≡ 0xE0 → 0xA0 ≤ b)
    → (a ≡ 0xED → b ≤ 0x9F)
    → (lo : ℕ) × (hi : ℕ) × (utf8_lead a ≡ some (2, lo, hi)) × (lo ≤ b) × (b ≤ hi)
unfolding utf8_lead IsTail
lead_three a b h k t e d = elim (Bool-cases (a == 0xE0)) [
  | inl p ↦ (0xA0, 0xBF, ground arith, e (ground arith), t.1)
  | inr p ↦ elim (Bool-cases (a == 0xED)) [
    | inl q ↦ (0x80, 0x9F, ground arith, t.0, d (ground arith))
    | inr q ↦ (0x80, 0xBF, ground arith, t.0, t.1)
  ]
]

lead_four :
    (a b : ℕ)
    → 0xF0 ≤ a
    → a ≤ 0xF4
    → IsTail b
    → (a ≡ 0xF0 → 0x90 ≤ b)
    → (a ≡ 0xF4 → b ≤ 0x8F)
    → (lo : ℕ) × (hi : ℕ) × (utf8_lead a ≡ some (3, lo, hi)) × (lo ≤ b) × (b ≤ hi)
unfolding utf8_lead IsTail
lead_four a b h k t e d = elim (Bool-cases (a == 0xF0)) [
  | inl p ↦ (0x90, 0xBF, ground arith, e (ground arith), t.1)
  | inr p ↦ elim (Bool-cases (a == 0xF4)) [
    | inl q ↦ (0x80, 0x8F, ground arith, t.0, d (ground arith))
    | inr q ↦ (0x80, 0xBF, ground arith, t.0, t.1)
  ]
]

-- A first byte, and each byte behind it.
first_valid :
    (a b more lo hi : ℕ) (s : Bytes)
    → utf8_lead a ≡ some (suc more, lo, hi)
    → lo ≤ b
    → b ≤ hi
    → utf8_from more 0x80 0xBF s ≡ true
    → utf8_from 0 0x80 0xBF (a ∷ b ∷ s) ≡ true
unfolding utf8_from
first_valid a b more lo hi s e l h v = rw (utf8_from, e) (ground (arith, l, h, v))

next_valid :
    (b more : ℕ) (s : Bytes)
    → IsTail b
    → utf8_from more 0x80 0xBF s ≡ true
    → utf8_from (suc more) 0x80 0xBF (b ∷ s) ≡ true
unfolding utf8_from IsTail
next_valid b more s t v = ground (arith, t.0, t.1, v)

encoded_valid :
    (c : ℕ) (s : Bytes)
    → IsScalar c
    → utf8_from 0 0x80 0xBF s ≡ true
    → utf8_from 0 0x80 0xBF (encode c ++ s) ≡ true
unfolding encode utf8_from IsTail
encoded_valid c s h v = elim (Bool-cases (ltb c 0x80)) [
  | inl a ↦ rw (encode, a, utf8_from, lead_one c (ground (arith, a))) v
  | inr a ↦ elim (Bool-cases (ltb c 0x800)) [
    | inl b ↦
        rw (encode, a, b)
          (first_valid _ _ 0 0x80 0xBF s
            (lead_two (0xC0 + c / 64) (ground (arith, a)) (ground (arith, b))) (omega arith)
            (omega arith) v)
    | inr b ↦ elim (Bool-cases (ltb c 0x10000)) [
      | inl d ↦
          let (lo, hi, e, l, u) =
            lead_three (0xE0 + c / 4096) (0x80 + c / 64 % 64) (omega arith) (ground (arith, d))
              (omega arith, omega arith) (λ p. ground (arith, p, b)) (λ p. ground (arith, p, h)) in
          rw (encode, a, b, d)
            (first_valid _ _ 1 lo hi ((0x80 + c % 64) ∷ s) e l u
              (next_valid (0x80 + c % 64) 0 s (omega arith, omega arith) v))
      | inr d ↦
          let (lo, hi, e, l, u) =
            lead_four (0xF0 + c / 262144) (0x80 + c / 4096 % 64) (omega arith) (ground (arith, h))
              (omega arith, omega arith) (λ p. ground (arith, p, d)) (λ p. ground (arith, p, h)) in
          rw (encode, a, b, d)
            (first_valid _ _ 2 lo hi ((0x80 + c / 64 % 64) ∷ (0x80 + c % 64) ∷ s) e l u (
              next_valid (0x80 + c / 64 % 64) 1 ((0x80 + c % 64) ∷ s) (omega arith, omega arith)
                (next_valid (0x80 + c % 64) 0 s (omega arith, omega arith) v)))
    ]
  ]
]

complete : (cs : List ℕ) → All IsScalar cs → utf8_from 0 0x80 0xBF (encode_all cs) ≡ true
unfolding utf8_from encode_all
complete [] h = refl
complete (c ∷ cs) h = encoded_valid c (encode_all cs) h.0 (complete cs h.1)
