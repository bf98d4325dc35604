-- ===== src/Utf8/Sound.antt =====
-- What is read as a text was its encoding.
use mcp_core.Common.{
  ◌∙◌, ℕ, zero, suc, ◌+◌, ◌-◌, ◌*◌, ◌/◌, ◌%◌, ◌<◌, ◌≤◌, ◌⊎◌, inl, inr, Option, none, some, [], ◌∷◌,
  ◌++◌, ◌≡◌, refl, sym, ap, arith, Text, length,
}
use native.Mathlib.Decide.{dec_lt}
use mcp_core.Utf8.{Bytes, Decoder, encode_char, encode, idle, prepend, decode_from, from_utf8}
use mcp_core.Utf8.RoundTrip.{await, after_lead3, after_lead4}

prepend-some :
    (c : ℕ) (o : Option Text) (s : Text)
    → prepend (some c) o ≡ some s
    → (s' : Text) × (o ≡ some s') × (s ≡ c ∷ s')
prepend-some c none s h = cc
prepend-some c (some t) s h = (t, refl, cc)

prepend-none : (o : Option Text) (s : Text) → prepend none o ≡ some s → o ≡ some s
prepend-none none s h = cc
prepend-none (some t) s h = h

-- The last byte of a character.
last_byte :
    (d : Decoder) (bs : Bytes) (s : Text)
    → d.wanted ≡ 1
    → decode_from d bs ≡ some s
    → (b : ℕ) × (bs' : Bytes) × (s' : Text) × (bs ≡ b ∷ bs')
      × (d.lowest ≤ b)
      × (b ≤ d.highest)
      × (s ≡ (d.bits * 64 + (b - 0x80)) ∷ s')
      × (decode_from idle bs' ≡ some s')
unfolding decode_from
last_byte d [] s w h = absurd (ground arith)
last_byte d (b ∷ bs) s w h =
    let l : d.lowest ≤ b = ground arith in
    let m : b ≤ d.highest = ground arith in
    let e : prepend (some (d.bits * 64 + (b - 0x80))) (decode_from idle bs) ≡ some s =
      ground arith in
    let (s', p, q) = prepend-some _ _ s e in (b, bs, s', refl, l, m, q, p)

-- A byte of a character that is not its last.
middle_byte :
    (d : Decoder) (n : ℕ) (bs : Bytes) (s : Text)
    → d.wanted ≡ suc (suc n)
    → decode_from d bs ≡ some s
    → (b : ℕ) × (bs' : Bytes) × (bs ≡ b ∷ bs')
      × (d.lowest ≤ b)
      × (b ≤ d.highest)
      × (decode_from (await (suc n) (d.bits * 64 + (b - 0x80))) bs' ≡ some s)
unfolding decode_from
middle_byte d n [] s w h = absurd (ground arith)
middle_byte d n (b ∷ bs) s w h =
    let l : d.lowest ≤ b = ground arith in
    let m : b ≤ d.highest = ground arith in
    let e : prepend none (decode_from (await (suc n) (d.bits * 64 + (b - 0x80))) bs) ≡ some s =
      ground arith in
    (b, bs, refl, l, m, prepend-none _ _ e)

-- The four kinds of first bytes.
first_byte :
    (b : ℕ) (bs : Bytes) (s : Text)
    → decode_from idle (b ∷ bs) ≡ some s
    → ((b < 0x80) × (prepend (some b) (decode_from idle bs) ≡ some s))
      ⊎ (((0xc2 ≤ b) × (b < 0xe0) × (prepend none (decode_from (await 1 (b - 0xc0)) bs) ≡ some s))
          ⊎ (((0xe0 ≤ b)
                × (b < 0xf0)
                × (prepend none (decode_from (after_lead3 (b - 0xe0)) bs) ≡ some s))
              ⊎ ((0xf0 ≤ b)
                  × (b < 0xf5)
                  × (prepend none (decode_from (after_lead4 (b - 0xf0)) bs) ≡ some s))))
unfolding decode_from
first_byte b bs s h = elim (dec_lt b 0x80) [
  | yes p ↦ inl (p, ground arith)
  | no p ↦ elim (dec_lt b 0xe0) [
    | yes q ↦ inr (inl (ground arith, q, ground arith))
    | no q ↦ elim (dec_lt b 0xf0) [
      | yes r ↦ inr (inr (inl (omega arith, r, ground arith)))
      | no r ↦ inr (inr (inr (omega arith, ground arith, ground arith)))
    ]
  ]
]

encode_one : (b : ℕ) → b < 0x80 → encode_char b ≡ b ∷ []
unfolding encode_char
encode_one b h = ground arith

encode_two :
    (b c : ℕ)
    → 0xc2 ≤ b
    → b < 0xe0
    → 0x80 ≤ c
    → c ≤ 0xbf
    → encode_char ((b - 0xc0) * 64 + (c - 0x80)) ≡ b ∷ c ∷ []
unfolding encode_char
encode_two b c h k l m =
    let x = (b - 0xc0) * 64 + (c - 0x80) in
    let p : x / 64 ≡ b - 0xc0 = omega arith in
    let q : x % 64 ≡ c - 0x80 = omega arith in ground arith

encode_three :
    (b c d : ℕ)
    → 0xe0 ≤ b
    → b < 0xf0
    → (after_lead3 (b - 0xe0)).lowest ≤ c
    → c ≤ 0xbf
    → 0x80 ≤ d
    → d ≤ 0xbf
    → encode_char (((b - 0xe0) * 64 + (c - 0x80)) * 64 + (d - 0x80)) ≡ b ∷ c ∷ d ∷ []
unfolding encode_char
encode_three b c d h k l m n o =
    let x = ((b - 0xe0) * 64 + (c - 0x80)) * 64 + (d - 0x80) in
    let low : 0x800 ≤ x = ground arith in
    let least : 0x80 ≤ c = ground arith in
    let p : x / 4096 ≡ b - 0xe0 = omega arith in
    let q : x / 64 % 64 ≡ c - 0x80 = omega arith in
    let r : x % 64 ≡ d - 0x80 = omega arith in ground arith

encode_four :
    (b c d e : ℕ)
    → 0xf0 ≤ b
    → b < 0xf5
    → (after_lead4 (b - 0xf0)).lowest ≤ c
    → c ≤ 0xbf
    → 0x80 ≤ d
    → d ≤ 0xbf
    → 0x80 ≤ e
    → e ≤ 0xbf
    → encode_char ((((b - 0xf0) * 64 + (c - 0x80)) * 64 + (d - 0x80)) * 64 + (e - 0x80))
      ≡ b ∷ c ∷ d ∷ e ∷ []
unfolding encode_char
encode_four b c d e h k l m n o i j =
    let x = (((b - 0xf0) * 64 + (c - 0x80)) * 64 + (d - 0x80)) * 64 + (e - 0x80) in
    let low : 0x10000 ≤ x = ground arith in
    let least : 0x80 ≤ c = ground arith in
    let p : x / 262144 ≡ b - 0xf0 = omega arith in
    let q : x / 4096 % 64 ≡ c - 0x80 = omega arith in
    let r : x / 64 % 64 ≡ d - 0x80 = omega arith in
    let t : x % 64 ≡ e - 0x80 = omega arith in ground arith

-- What is read from some bytes, as a character and what is read from the bytes after it.
abbrev Splits : Bytes → Text → Type 0
Splits bs s =
    (c : ℕ) × (bs' : Bytes) × (s' : Text) × (s ≡ c ∷ s')
    × (bs ≡ encode_char c ++ bs')
    × (decode_from idle bs' ≡ some s')
    × (length bs' < length bs)

decode_from-Splits :
    (b : ℕ) (bs : Bytes) (s : Text) → decode_from idle (b ∷ bs) ≡ some s → Splits (b ∷ bs) s
decode_from-Splits b bs s h = elim (first_byte b bs s h) [
  | inl (l, e) ↦
      let (s', p, q) = prepend-some b _ s e in
      (b, bs, s', q, ap (λ x. x ++ bs) (sym (encode_one b l)), p, omega arith)
  | inr (inl (l, m, e)) ↦
      let (c, bs₁, s', p, x, y, q, r) =
        last_byte (await 1 (b - 0xc0)) bs s refl (prepend-none _ s e) in
      (
        _,
        bs₁,
        s',
        q,
        ap (λ x. b ∷ x) p ∙ ap (λ x. x ++ bs₁) (sym (encode_two b c l m x y)),
        r,
        omega (arith, ap length p),
      )
  | inr (inr (inl (l, m, e))) ↦
      let (c, bs₁, p₁, x₁, y₁, e₁) =
        middle_byte (after_lead3 (b - 0xe0)) 0 bs s refl (prepend-none _ s e) in
      let (d, bs₂, s', p, x, y, q, r) = last_byte (await 1 _) bs₁ s refl e₁ in
      (
        _,
        bs₂,
        s',
        q,
        ap (λ x. b ∷ x) (p₁ ∙ ap (λ x. c ∷ x) p)
            ∙ ap (λ x. x ++ bs₂) (sym (encode_three b c d l m x₁ (ground (arith, y₁)) x y)),
        r,
        omega (arith, ap length p, ap length p₁),
      )
  | inr (inr (inr (l, m, e))) ↦
      let (c, bs₁, p₁, x₁, y₁, e₁) =
        middle_byte (after_lead4 (b - 0xf0)) 1 bs s refl (prepend-none _ s e) in
      let (d, bs₂, p₂, x₂, y₂, e₂) = middle_byte (await 2 _) 0 bs₁ s refl e₁ in
      let (f, bs₃, s', p, x, y, q, r) = last_byte (await 1 _) bs₂ s refl e₂ in
      (
        _,
        bs₃,
        s',
        q,
        ap (λ x. b ∷ x) (p₁ ∙ ap (λ x. c ∷ x) (p₂ ∙ ap (λ x. d ∷ x) p))
            ∙ ap (λ x. x ++ bs₃) (sym (encode_four b c d f l m x₁ (ground (arith, y₁)) x₂ y₂ x y)),
        r,
        omega (arith, ap length p, ap length p₁, ap length p₂),
      )
]

decode_from_nil : (s : Text) → decode_from idle [] ≡ some s → s ≡ []
unfolding decode_from
decode_from_nil s h = cc

decode_from-encode :
    (n : ℕ) (bs : Bytes) (s : Text) → length bs < n → decode_from idle bs ≡ some s → encode s ≡ bs
unfolding encode
decode_from-encode zero bs s l h = absurd (omega arith)
decode_from-encode (suc n) [] s l h = rw (decode_from_nil s h) refl
decode_from-encode (suc n) (b ∷ bs) s l h =
    let (c, bs', s', e, p, q, m) = decode_from-Splits b bs s h in
    ap encode e
    ∙ ap (λ x. encode_char c ++ x) (decode_from-encode n bs' s' (omega (arith, m)) q)
    ∙ sym p

-- Bytes that are read as a text are the bytes of that text.
pub encode-from_utf8 : (bs : Bytes) (s : Text) → from_utf8 bs ≡ some s → encode s ≡ bs
unfolding from_utf8
encode-from_utf8 bs s h = decode_from-encode (suc (length bs)) bs s (omega arith) h
