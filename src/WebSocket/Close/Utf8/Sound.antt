-- ===== src/WebSocket/Close/Utf8/Sound.antt =====
-- What `utf8_valid` accepts is the UTF-8 of a sequence of characters.
use tg_proxy_relay.Prelude.{
  ℕ, zero, suc, ◌+◌, ◌-◌, ◌*◌, ◌/◌, ◌%◌, ◌≡◌, ◌↔◌, ◌⊎◌, inl, inr, refl, sym, subst, length, ap, ◌∙◌,
  true, [], ◌∷◌, ◌++◌, ltb, nat_eq, Bytes, ◌≤◌, ◌<◌, arith, none, some, Option-cases, Bool-cases,
}
use tg_proxy_relay.WebSocket.Close.{utf8_lead, utf8_from, utf8_valid}
use tg_proxy_relay.WebSocket.Close.Utf8.{IsScalar, encode, encode_all, IsUtf8, complete}

-- When no byte is due, the range does not matter.
any_range : (lo hi : ℕ) (s : Bytes) → utf8_from 0 lo hi s ≡ true → utf8_from 0 0x80 0xBF s ≡ true
unfolding utf8_from
any_range lo hi [] h = refl
any_range lo hi (a ∷ s) h = h

-- What a first byte is, by how many bytes are due behind it and between which the next one is.
IsLead : ℕ → ℕ → ℕ → ℕ → Type 0
IsLead a more lo hi =
    (more ≡ 0) × (a < 0x80)
    ⊎ (more ≡ 1) × (0xC2 ≤ a) × (a ≤ 0xDF) × (0x80 ≤ lo) × (hi ≤ 0xBF)
    ⊎ (more ≡ 2)
      × (0xE0 ≤ a)
      × (a ≤ 0xEF)
      × (0x80 ≤ lo)
      × (hi ≤ 0xBF)
      × (a ≡ 0xE0 → 0xA0 ≤ lo)
      × (a ≡ 0xED → hi ≤ 0x9F)
    ⊎ (more ≡ 3)
      × (0xF0 ≤ a)
      × (a ≤ 0xF4)
      × (0x80 ≤ lo)
      × (hi ≤ 0xBF)
      × (a ≡ 0xF0 → 0x90 ≤ lo)
      × (a ≡ 0xF4 → hi ≤ 0x8F)

utf8_lead-IsLead : (a more lo hi : ℕ) → utf8_lead a ≡ some (more, lo, hi) → IsLead a more lo hi
unfolding utf8_lead IsLead
utf8_lead-IsLead a more lo hi e = elim (Bool-cases (ltb a 0x80)) [
  | inl p ↦ inl (ground arith, ground arith)
  | inr p ↦ elim (Bool-cases (ltb a 0xE0)) [
    | inl q ↦ inr (inl (ground arith, ground arith, ground arith, ground arith, ground arith))
    | inr q ↦ elim (Bool-cases (ltb a 0xF0)) [
      | inl r ↦ inr (
          inr (
            inl (
              ground arith,
              ground arith,
              ground arith,
              ground arith,
              ground arith,
              λ z. ground arith,
              λ z. ground arith,
            )))
      | inr r ↦ inr (
          inr (
            inr (
              ground arith,
              ground arith,
              ground arith,
              ground arith,
              ground arith,
              λ z. ground arith,
              λ z. ground arith,
            )))
    ]
  ]
]

back_first :
    (a more lo hi : ℕ) (s : Bytes)
    → utf8_lead a ≡ some (more, lo, hi)
    → utf8_from 0 0x80 0xBF (a ∷ s) ≡ true
    → utf8_from more lo hi s ≡ true
unfolding utf8_from
back_first a more lo hi s e = rw (utf8_from, e) (λ h. h)

back_none : (a : ℕ) (s : Bytes) → utf8_lead a ≡ none → utf8_from 0 0x80 0xBF (a ∷ s) ≡ true → ⊥
unfolding utf8_from
back_none a s e = rw (utf8_from, e) (λ h. absurd cc)

back_next :
    (more lo hi : ℕ) (s : Bytes)
    → utf8_from (suc more) lo hi s ≡ true
    → (b : ℕ) × (t : Bytes) × (s ≡ b ∷ t)
      × (lo ≤ b)
      × (b ≤ hi)
      × (utf8_from more 0x80 0xBF t ≡ true)
unfolding utf8_from
back_next more lo hi [] h = absurd cc
back_next more lo hi (b ∷ t) h =
    (b, t, refl, ground (arith, h), ground (arith, h), ground (arith, h))

encode_one : (a : ℕ) → a < 0x80 → encode a ≡ a ∷ []
unfolding encode
encode_one a h = ground arith

encode_two :
    (n a b : ℕ)
    → 0x80 ≤ n
    → n < 0x800
    → 0xC0 + n / 64 ≡ a
    → 0x80 + n % 64 ≡ b
    → encode n ≡ a ∷ b ∷ []
unfolding encode
encode_two n a b l h p q = elim (Bool-cases (ltb n 0x80)) [
  | inl e ↦ absurd (ground (arith, e, l))
  | inr e ↦ elim (Bool-cases (ltb n 0x800)) [
    | inl f ↦ rw (encode, e, f) (cc (p, q))
    | inr f ↦ absurd (ground (arith, f, h))
  ]
]

encode_three :
    (n a b c : ℕ)
    → 0x800 ≤ n
    → n < 0x10000
    → 0xE0 + n / 4096 ≡ a
    → 0x80 + n / 64 % 64 ≡ b
    → 0x80 + n % 64 ≡ c
    → encode n ≡ a ∷ b ∷ c ∷ []
unfolding encode
encode_three n a b c l h p q r = elim (Bool-cases (ltb n 0x80)) [
  | inl e ↦ absurd (ground (arith, e, l))
  | inr e ↦ elim (Bool-cases (ltb n 0x800)) [
    | inl f ↦ absurd (ground (arith, f, l))
    | inr f ↦ elim (Bool-cases (ltb n 0x10000)) [
      | inl g ↦ rw (encode, e, f, g) (cc (p, q, r))
      | inr g ↦ absurd (ground (arith, g, h))
    ]
  ]
]

encode_four :
    (n a b c d : ℕ)
    → 0x10000 ≤ n
    → 0xF0 + n / 262144 ≡ a
    → 0x80 + n / 4096 % 64 ≡ b
    → 0x80 + n / 64 % 64 ≡ c
    → 0x80 + n % 64 ≡ d
    → encode n ≡ a ∷ b ∷ c ∷ d ∷ []
unfolding encode
encode_four n a b c d l p q r s = elim (Bool-cases (ltb n 0x80)) [
  | inl e ↦ absurd (ground (arith, e, l))
  | inr e ↦ elim (Bool-cases (ltb n 0x800)) [
    | inl f ↦ absurd (ground (arith, f, l))
    | inr f ↦ elim (Bool-cases (ltb n 0x10000)) [
      | inl g ↦ absurd (ground (arith, g, l))
      | inr g ↦ rw (encode, e, f, g) (cc (p, q, r, s))
    ]
  ]
]

-- One more character in front.
IsUtf8-cons :
    (n : ℕ) (front s : Bytes) → IsScalar n → encode n ≡ front → IsUtf8 s → IsUtf8 (front ++ s)
unfolding encode_all
IsUtf8-cons n front s h e (cs, a, q) = (n ∷ cs, (h, a), rw (← e) (ap (λ t. encode n ++ t) q))

Decodes : ℕ → Type 0
Decodes fuel = (s : Bytes) → length s ≤ fuel → utf8_from 0 0x80 0xBF s ≡ true → IsUtf8 s

two_bytes :
    (fuel a lo hi : ℕ) (s : Bytes)
    → Decodes fuel
    → length s ≤ fuel
    → (0xC2 ≤ a) × (a ≤ 0xDF) × (0x80 ≤ lo) × (hi ≤ 0xBF)
    → utf8_from 1 lo hi s ≡ true
    → IsUtf8 (a ∷ s)
unfolding Decodes
two_bytes fuel a lo hi s ih len (h, k, l, u) v =
    let (b, t, e, bl, bu, w) = back_next 0 lo hi s v in
    let n = (a - 0xC0) * 64 + (b - 0x80) in
    subst (λ x. IsUtf8 (a ∷ x)) (sym e)
      (IsUtf8-cons n (a ∷ b ∷ []) t (inl (omega arith))
        (encode_two n a b (omega arith) (omega arith) (omega arith) (omega arith))
        (ih t (omega (arith, len, ap length e)) w))

three_bytes :
    (fuel a lo hi : ℕ) (s : Bytes)
    → Decodes fuel
    → length s ≤ fuel
    → (0xE0 ≤ a)
      × (a ≤ 0xEF)
      × (0x80 ≤ lo)
      × (hi ≤ 0xBF)
      × (a ≡ 0xE0 → 0xA0 ≤ lo)
      × (a ≡ 0xED → hi ≤ 0x9F)
    → utf8_from 2 lo hi s ≡ true
    → IsUtf8 (a ∷ s)
unfolding Decodes
three_bytes fuel a lo hi s ih len (h, k, l, u, x, y) v =
    let (b, t, e, bl, bu, w) = back_next 1 lo hi s v in
    let (c, t', e', cl, cu, w') = back_next 0 0x80 0xBF t w in
    let n = (a - 0xE0) * 4096 + (b - 0x80) * 64 + (c - 0x80) in
    subst (λ z. IsUtf8 (a ∷ z)) (sym (e ∙ ap (λ z. b ∷ z) e'))
      (IsUtf8-cons n (a ∷ b ∷ c ∷ []) t'
        (elim (Bool-cases (ltb a 0xEE)) [
          | inl q ↦ inl (ground (arith, q, y))
          | inr q ↦ inr (ground (arith, q), omega arith)
        ])
        (encode_three n a b c (ground (arith, x)) (omega arith) (omega arith) (omega arith)
          (omega arith))
        (ih t' (omega (arith, len, ap length e, ap length e')) w'))

four_bytes :
    (fuel a lo hi : ℕ) (s : Bytes)
    → Decodes fuel
    → length s ≤ fuel
    → (0xF0 ≤ a)
      × (a ≤ 0xF4)
      × (0x80 ≤ lo)
      × (hi ≤ 0xBF)
      × (a ≡ 0xF0 → 0x90 ≤ lo)
      × (a ≡ 0xF4 → hi ≤ 0x8F)
    → utf8_from 3 lo hi s ≡ true
    → IsUtf8 (a ∷ s)
unfolding Decodes
four_bytes fuel a lo hi s ih len (h, k, l, u, x, y) v =
    let (b, t, e, bl, bu, w) = back_next 2 lo hi s v in
    let (c, t', e', cl, cu, w') = back_next 1 0x80 0xBF t w in
    let (d, t'', e'', dl, du, w'') = back_next 0 0x80 0xBF t' w' in
    let n = (a - 0xF0) * 262144 + (b - 0x80) * 4096 + (c - 0x80) * 64 + (d - 0x80) in
    subst (λ z. IsUtf8 (a ∷ z)) (sym (e ∙ ap (λ z. b ∷ z) (e' ∙ ap (λ z. c ∷ z) e'')))
      (IsUtf8-cons n (a ∷ b ∷ c ∷ d ∷ []) t'' (inr (ground (arith, x), ground (arith, y)))
        (encode_four n a b c d (ground (arith, x)) (omega arith) (omega arith) (omega arith)
          (omega arith))
        (ih t'' (omega (arith, len, ap length e, ap length e', ap length e'')) w''))

after_lead :
    (fuel a more lo hi : ℕ) (s : Bytes)
    → Decodes fuel
    → length s ≤ fuel
    → IsLead a more lo hi
    → utf8_from more lo hi s ≡ true
    → IsUtf8 (a ∷ s)
unfolding Decodes IsLead
after_lead fuel a more lo hi s ih len (inl (m, h)) w =
    IsUtf8-cons a (a ∷ []) s (inl (omega (arith, h))) (encode_one a h)
      (ih s len (any_range lo hi s (subst (λ k. utf8_from k lo hi s ≡ true) m w)))
after_lead fuel a more lo hi s ih len (inr (inl (m, p, q, r, t))) w =
    two_bytes fuel a lo hi s ih len (p, q, r, t) (subst (λ k. utf8_from k lo hi s ≡ true) m w)
after_lead fuel a more lo hi s ih len (inr (inr (inl (m, p, q, r, t, x, y)))) w =
    three_bytes fuel a lo hi s ih len (p, q, r, t, x, y)
      (subst (λ k. utf8_from k lo hi s ≡ true) m w)
after_lead fuel a more lo hi s ih len (inr (inr (inr (m, p, q, r, t, x, y)))) w =
    four_bytes fuel a lo hi s ih len (p, q, r, t, x, y)
      (subst (λ k. utf8_from k lo hi s ≡ true) m w)

decoded : (fuel : ℕ) → Decodes fuel
unfolding Decodes encode_all
decoded fuel [] len v = ([], tt, refl)
decoded zero (a ∷ s) len v = absurd (omega (arith, len))
decoded (suc fuel) (a ∷ s) len v = elim (Option-cases (utf8_lead a)) [
  | inl n ↦ absurd (back_none a s n v)
  | inr ((more, lo, hi), e) ↦
      after_lead fuel a more lo hi s (decoded fuel) (omega (arith, len))
        (utf8_lead-IsLead a more lo hi e) (back_first a more lo hi s e v)
]

pub utf8_valid_iff : (s : Bytes) → (utf8_valid s ≡ true) ↔ IsUtf8 s
unfolding utf8_valid Decodes
utf8_valid_iff s = (
  λ h. decoded (length s) s (omega arith) h,
  λ (cs, a, e). ap (utf8_from 0 0x80 0xBF) e ∙ complete cs a,
)
