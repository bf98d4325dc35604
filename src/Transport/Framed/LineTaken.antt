-- ===== src/Transport/Framed/LineTaken.antt =====
-- What a line that src/transport.rs has read says of the bytes that it took.
use mcp_core.Common.{
  ℕ, zero, suc, ◌+◌, ◌≤◌, ltb, none, some, [], ◌∷◌, ◌++◌, ◌⊎◌, inl, inr, ◌≡◌, false, refl, sym, ap,
  ◌∙◌, arith, length, is_empty, Bool-cases, Option-cases, Text, ◌==◌,
}
use mathlib.Core.Path.{subst}
use mcp_core.Error.{Result, ok, err}
use mcp_core.Utf8.{Bytes, encode, from_utf8}
use mcp_core.Utf8.Sound.{encode-from_utf8}
use mcp_core.Transport.Stream.{newline_at}
use mcp_core.Transport.Stream.Lines.{flatten, IsFaultless, Line, before, cut_line}
use mcp_core.Transport.Framed.State.{
  FramedTransport, check_len, desync_error, poison, is_connection_closed,
}
use mcp_core.Transport.Framed.Read.{decoded, end_line, read_line, or_poison, read_frame_line}
use mcp_core.Transport.Framed.SameBytes.{SameBytes, Agrees, with_bytes}
use mcp_core.Transport.Framed.Delivery.{flatten_with_bytes}
use mcp_core.Transport.Framed.Lines.{line_result, read_line_lem}

-- A line before these bytes ends at its only newline, or at the end of the stream.
abbrev pub EndsLine : Text → Bytes → Type 0
EndsLine l rest =
    ((i : ℕ) × (newline_at (encode l) ≡ some i) × (length (encode l) ≡ suc i))
    ⊎ ((newline_at (encode l) ≡ none) × (rest ≡ []))

newline_at-cons :
    (b : ℕ) (bs : Bytes) (i : ℕ)
    → (b == b'\n') ≡ false
    → newline_at bs ≡ some i
    → newline_at (b ∷ bs) ≡ some (suc i)
unfolding newline_at
newline_at-cons b bs i e h = rw (e, newline_at) (rw h refl)

newline_at-cons_none :
    (b : ℕ) (bs : Bytes) → (b == b'\n') ≡ false → newline_at bs ≡ none → newline_at (b ∷ bs) ≡ none
unfolding newline_at
newline_at-cons_none b bs e h = rw (e, newline_at) (rw h refl)

-- What `cut_line` cuts is a line, unless it has met its budget.
record IsCut (n : ℕ) (xs : Bytes) (l : Line) : Type 0 where
  whole : l.bytes ++ l.rest ≡ xs
  ended :
      ((i : ℕ) × (newline_at l.bytes ≡ some i) × (length l.bytes ≡ suc i))
      ⊎ ((newline_at l.bytes ≡ none) × ((l.rest ≡ []) ⊎ (length l.bytes ≡ n)))

before-IsCut :
    (n b : ℕ) (bs : Bytes) (l : Line)
    → (b == b'\n') ≡ false
    → IsCut n bs l
    → IsCut (suc n) (b ∷ bs) (before (b ∷ []) l)
before-IsCut n b bs l e h = record {
  whole = ap (λ x. b ∷ x) h.whole;
  ended = elim h.ended [
    | inl (i, p, q) ↦ inl (suc i, newline_at-cons b l.bytes i e p, ap suc q)
    | inr (p, inl q) ↦ inr (newline_at-cons_none b l.bytes e p, inl q)
    | inr (p, inr q) ↦ inr (newline_at-cons_none b l.bytes e p, inr (ap suc q))
  ];
}

cut_line-IsCut : (n : ℕ) (xs : Bytes) → IsCut n xs (cut_line n xs)
unfolding cut_line newline_at
cut_line-IsCut zero xs = record { whole = refl; ended = inr (refl, inr refl) }
cut_line-IsCut (suc n) [] = record { whole = refl; ended = inr (refl, inl refl) }
cut_line-IsCut (suc n) (b ∷ bs) = elim (Bool-cases (b == b'\n')) [
  | inl e ↦
      rw (e, cut_line) (record { whole = refl; ended = inl (0, rw (e, newline_at) refl, refl) })
  | inr e ↦ rw (e, cut_line) (before-IsCut n b bs _ e (cut_line-IsCut n bs))
]

-- From `t` to `u` a line has been taken.
pub record TakesLine (t u : FramedTransport) (l : Text) : Type 0 where
  pub bytes : flatten t.reader ≡ encode l ++ flatten u.reader
  pub ended : EndsLine l (flatten u.reader)
  pub after : SameBytes u (with_bytes t (flatten u.reader))

module _ (utf8_error : Bytes → Text) where
  end_line-ok :
      (buf : Bytes) (t : FramedTransport) (s : Text)
      → (end_line utf8_error buf t).0 ≡ ok s
      → (length buf ≤ t.max_len) × (from_utf8 buf ≡ some s) × ((end_line utf8_error buf t).1 ≡ t)
  unfolding end_line check_len desync_error
  end_line-ok buf t s h = elim (Bool-cases (ltb t.max_len (length buf))) [
    | inl e ↦ absurd (let k = rw (e, end_line) at h in cc)
    | inr e ↦ elim (Option-cases (from_utf8 buf)) [
      | inl d ↦ absurd (let k = rw (e, end_line) at h in let k' = rw (d, decoded) at k in cc)
      | inr (x, d) ↦
          let k = rw (e, end_line) at h in
          let k' = rw (d, decoded) at k in (ground (arith, e), cc, rw (e, end_line) refl)
    ]
  ]

  -- What a read that agrees with `line_result` on a line has taken.
  line_result-TakesLine :
      (t : FramedTransport) (l : Line) (s : Text) (x : Result Text × FramedTransport)
      → IsCut (t.max_len + 1) (flatten t.reader) l
      → Agrees x (line_result utf8_error [] l (with_bytes t l.rest))
      → x.0 ≡ ok s
      → TakesLine t x.1 s
  line_result-TakesLine t l s x c (a, b) e = elim (Bool-cases (is_empty l.bytes)) [
    | inl h ↦ absurd (let k = rw h at a in cc)
    | inr h ↦
        let k = rw h at a in
        let m = rw h at b in
        let (n, d, w) = end_line-ok l.bytes (with_bytes t l.rest) s (sym k ∙ e) in
        let g = encode-from_utf8 l.bytes s d in
        let y = subst (SameBytes x.1) w m in
        let r : flatten x.1.reader ≡ l.rest = y.bytes ∙ flatten_with_bytes l.rest in
        record {
          bytes = sym c.whole ∙ ap (λ z. z ++ l.rest) (sym g) ∙ ap (λ z. encode s ++ z) (sym r);
          ended = elim c.ended [
            | inl (i, p, q) ↦ inl (i, ap newline_at g ∙ p, ap length g ∙ q)
            | inr (p, inl q) ↦ inr (ap newline_at g ∙ p, r ∙ q)
            | inr (p, inr q) ↦ absurd (omega (arith, n, q))
          ];
          after = subst (λ z. SameBytes x.1 (with_bytes t z)) (sym r) y;
        }
  ]

  read_line-TakesLine :
      (t : FramedTransport) (l : Text)
      → IsFaultless t.reader
      → (read_line utf8_error t).0 ≡ ok l
      → TakesLine t (read_line utf8_error t).1 l
  read_line-TakesLine t l f e =
      line_result-TakesLine t (cut_line (t.max_len + 1) (flatten t.reader)) l
        (read_line utf8_error t) (cut_line-IsCut (t.max_len + 1) (flatten t.reader))
        (read_line_lem utf8_error t f) e

  or_poison-ok :
      (r : Result Text) (t : FramedTransport) (l : Text)
      → (or_poison utf8_error r t).0 ≡ ok l
      → (r ≡ ok l) × ((or_poison utf8_error r t).1 ≡ t)
  unfolding or_poison poison
  or_poison-ok (ok x) t l h = (h, refl)
  or_poison-ok (err e) t l h = elim (Bool-cases (is_connection_closed e)) [
    | inl k ↦ absurd (let h' = rw (k, or_poison) at h in cc)
    | inr k ↦ absurd (let h' = rw (k, or_poison) at h in cc)
  ]

  pub read_frame_line-TakesLine :
      (t : FramedTransport) (l : Text)
      → IsFaultless t.reader
      → (read_frame_line utf8_error t).0 ≡ ok l
      → TakesLine t (read_frame_line utf8_error t).1 l
  unfolding read_frame_line
  read_frame_line-TakesLine t l f e =
      let (a, b) = or_poison-ok (read_line utf8_error t).0 (read_line utf8_error t).1 l e in
      subst (λ u. TakesLine t u l) (sym b) (read_line-TakesLine t l f a)
