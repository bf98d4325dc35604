-- ===== src/Utf8/RoundTrip.antt =====
-- Text survives its encoding.
use mcp_core.Common.{
  append_assoc, sym, ap, ◌∙◌, ℕ, suc, ◌+◌, ◌*◌, ◌/◌, ◌%◌, ◌<◌, ◌≤◌, ◌⊎◌, Option, none, some, [],
  ◌∷◌, ◌++◌, ◌==◌, ◌≡◌, refl, arith, Text, if◌then◌else◌,
}
use native.Mathlib.Decide.{dec_lt}
use mcp_core.Utf8.{Bytes, Decoder, encode_char, encode, idle, prepend, decode_from, from_utf8}

-- A Unicode scalar value: no surrogate, and at most 0x10ffff.
abbrev pub IsScalar : ℕ → Type 0
IsScalar c = (c < 0xd800) ⊎ ((0xe000 ≤ c) × (c < 0x110000))

abbrev pub IsText : Text → Type 0
IsText [] = Unit
IsText (c ∷ cs) = IsScalar c × IsText cs

abbrev pub await : ℕ → ℕ → Decoder
await n bits = record idle { wanted = n; bits = bits }

decode_ascii :
    (c : ℕ) (rest : Bytes)
    → c < 0x80
    → decode_from idle (c ∷ rest) ≡ prepend (some c) (decode_from idle rest)
unfolding decode_from
decode_ascii c rest h = ground arith

decode_lead2 :
    (q : ℕ) (rest : Bytes)
    → 2 ≤ q
    → q < 32
    → decode_from idle ((0xc0 + q) ∷ rest) ≡ prepend none (decode_from (await 1 q) rest)
unfolding decode_from
decode_lead2 q rest h k = ground arith

abbrev pub after_lead3 : ℕ → Decoder
after_lead3 q = record (await 2 q) {
  lowest = if q == 0 then 0xa0 else 0x80;
  highest = if q == 13 then 0x9f else 0xbf;
}

decode_lead3 :
    (q : ℕ) (rest : Bytes)
    → q < 16
    → decode_from idle ((0xe0 + q) ∷ rest) ≡ prepend none (decode_from (after_lead3 q) rest)
unfolding decode_from
decode_lead3 q rest h = ground arith

abbrev pub after_lead4 : ℕ → Decoder
after_lead4 q = record (await 3 q) {
  lowest = if q == 0 then 0x90 else 0x80;
  highest = if q == 4 then 0x8f else 0xbf;
}

decode_lead4 :
    (q : ℕ) (rest : Bytes)
    → q < 5
    → decode_from idle ((0xf0 + q) ∷ rest) ≡ prepend none (decode_from (after_lead4 q) rest)
unfolding decode_from
decode_lead4 q rest h = ground arith

decode_middle :
    (d : Decoder) (n r : ℕ) (rest : Bytes)
    → d.wanted ≡ suc (suc n)
    → d.lowest ≤ 0x80 + r
    → 0x80 + r ≤ d.highest
    → decode_from d ((0x80 + r) ∷ rest)
      ≡ prepend none (decode_from (await (suc n) (d.bits * 64 + r)) rest)
unfolding decode_from
decode_middle d n r rest w h k = ground arith

decode_last :
    (d : Decoder) (r : ℕ) (rest : Bytes)
    → d.wanted ≡ 1
    → d.lowest ≤ 0x80 + r
    → 0x80 + r ≤ d.highest
    → decode_from d ((0x80 + r) ∷ rest) ≡ prepend (some (d.bits * 64 + r)) (decode_from idle rest)
unfolding decode_from
decode_last d r rest w h k = ground arith

prepend-none : (o : Option Text) → prepend none o ≡ o
prepend-none none = refl
prepend-none (some s) = refl

decode_two :
    (a b : ℕ) (rest : Bytes)
    → 2 ≤ a
    → a < 32
    → b < 64
    → decode_from idle ((0xc0 + a) ∷ (0x80 + b) ∷ rest)
      ≡ prepend (some (a * 64 + b)) (decode_from idle rest)
decode_two a b rest h k l =
    decode_lead2 a _ h k
    ∙ prepend-none _
    ∙ decode_last (await 1 a) b rest refl (omega arith) (omega arith)

decode_three :
    (a b c : ℕ) (rest : Bytes)
    → a < 16
    → b < 64
    → c < 64
    → (after_lead3 a).lowest ≤ 0x80 + b
    → 0x80 + b ≤ (after_lead3 a).highest
    → decode_from idle ((0xe0 + a) ∷ (0x80 + b) ∷ (0x80 + c) ∷ rest)
      ≡ prepend (some ((a * 64 + b) * 64 + c)) (decode_from idle rest)
decode_three a b c rest h k l lo hi =
    decode_lead3 a _ h
    ∙ prepend-none _
    ∙ decode_middle (after_lead3 a) 0 b _ refl lo hi
    ∙ prepend-none _
    ∙ decode_last (await 1 (a * 64 + b)) c rest refl (omega arith) (omega arith)

decode_four :
    (a b c d : ℕ) (rest : Bytes)
    → a < 5
    → b < 64
    → c < 64
    → d < 64
    → (after_lead4 a).lowest ≤ 0x80 + b
    → 0x80 + b ≤ (after_lead4 a).highest
    → decode_from idle ((0xf0 + a) ∷ (0x80 + b) ∷ (0x80 + c) ∷ (0x80 + d) ∷ rest)
      ≡ prepend (some (((a * 64 + b) * 64 + c) * 64 + d)) (decode_from idle rest)
decode_four a b c d rest h k l m lo hi =
    decode_lead4 a _ h
    ∙ prepend-none _
    ∙ decode_middle (after_lead4 a) 1 b _ refl lo hi
    ∙ prepend-none _
    ∙ decode_middle (await 2 (a * 64 + b)) 0 c _ refl (omega arith) (omega arith)
    ∙ prepend-none _
    ∙ decode_last (await 1 ((a * 64 + b) * 64 + c)) d rest refl (omega arith) (omega arith)

decode-encode_char :
    (c : ℕ) (rest : Bytes)
    → IsScalar c
    → decode_from idle (encode_char c ++ rest) ≡ prepend (some c) (decode_from idle rest)
unfolding encode_char
decode-encode_char c rest h = elim (dec_lt c 0x80) [
  | yes p ↦ ground (arith, decode_ascii c rest p)
  | no p ↦ elim (dec_lt c 0x800) [
    | yes q ↦
        ground (arith, decode_two (c / 64) (c % 64) rest (omega arith) (omega arith) (omega arith))
    | no q ↦ elim (dec_lt c 0x10000) [
      | yes r ↦ ground (arith, decode_three (c / 4096) (c / 64 % 64) (c % 64) rest)
      | no r ↦ ground (arith, decode_four (c / 262144) (c / 4096 % 64) (c / 64 % 64) (c % 64) rest)
    ]
  ]
]

-- The bytes of a text are read back as that text.
pub from_utf8-encode : (s : Text) → IsText s → from_utf8 (encode s) ≡ some s
unfolding encode from_utf8
from_utf8-encode [] h = refl
from_utf8-encode (c ∷ cs) h = decode-encode_char c (encode cs) h.0 ∙ rw (from_utf8-encode cs h.1)

pub encode-append : (s t : Text) → encode (s ++ t) ≡ encode s ++ encode t
unfolding encode
encode-append [] t = refl
encode-append (c ∷ s) t =
    ap (λ x. encode_char c ++ x) (encode-append s t)
    ∙ sym (append_assoc (encode_char c) (encode s) (encode t))
