-- ===== src/Transport/Framed/HeadTaken.antt =====
-- What header lines that src/transport.rs has read say of the bytes that they took.
use mcp_core.Common.{
  ℕ, zero, suc, ◌≤◌, List, [], ◌∷◌, ◌++◌, inl, inr, ◌≡◌, true, false, refl, sym, ap, ◌∙◌, arith,
  append_assoc, length, is_empty, Bool-cases, Text,
}
use mathlib.Core.Path.{subst}
use mcp_core.Error.{Result, ok, err}
use mcp_core.Utf8.{Bytes, encode}
use mcp_core.Transport.Stream.Lines.{flatten, IsFaultless}
use mcp_core.Transport.Header.{trim_crlf}
use mcp_core.Transport.Framed.State.{FramedTransport, M, continue, desync_error}
use mcp_core.Transport.Framed.Read.{read_frame_line, read_headers}
use mcp_core.Transport.Framed.SameBytes.{SameBytes, with_bytes}
use mcp_core.Transport.Framed.Delivery.{SameBytes-trans, SameBytes-with_bytes}
use mcp_core.Transport.Framed.LineTaken.{EndsLine, TakesLine, read_frame_line-TakesLine}

-- The bytes of header lines and of the blank line after them.
abbrev pub head_bytes : List Text → Text → Bytes
head_bytes [] blank = encode blank
head_bytes (h ∷ hs) blank = encode h ++ head_bytes hs blank

-- Header lines that are not blank, and one that is, each a line of its own before these bytes.
abbrev pub IsHead : List Text → Text → Bytes → Type 0
IsHead [] blank rest = EndsLine blank rest × (is_empty (trim_crlf blank) ≡ true)
IsHead (h ∷ hs) blank rest =
    EndsLine h (head_bytes hs blank ++ rest)
    × (is_empty (trim_crlf h) ≡ false)
    × IsHead hs blank rest

-- From `t` to `u` the header lines have been taken, at most so many, and the blank one.
pub record TakesHead (most : ℕ) (t u : FramedTransport) : Type 0 where
  pub headers : List Text
  pub blank : Text
  pub few : length headers ≤ most
  pub bytes : flatten t.reader ≡ head_bytes headers blank ++ flatten u.reader
  pub head : IsHead headers blank (flatten u.reader)
  pub after : SameBytes u (with_bytes t (flatten u.reader))

-- What is left after two steps.
pub after_both :
    (t u v : FramedTransport)
    → SameBytes u (with_bytes t (flatten u.reader))
    → SameBytes v (with_bytes u (flatten v.reader))
    → SameBytes v (with_bytes t (flatten v.reader))
after_both t u v h k =
    SameBytes-trans k (SameBytes-with_bytes t u (flatten u.reader) (flatten v.reader) h)

-- A step that has succeeded, and what came before it.
pub continue-ok :
    {A B : Type 0} (r : Result A) (f : A → M B) (t : FramedTransport) (b : B)
    → (continue r f t).0 ≡ ok b
    → (a : A) × (r ≡ ok a) × ((f a t).0 ≡ ok b) × ((continue r f t).1 ≡ (f a t).1)
continue-ok (ok a) f t b h = (a, refl, h, refl)
continue-ok (err e) f t b h = cc

pub desync_error-ok :
    (A : Type 0) (reason : Text) (t : FramedTransport) (a : A)
    → (desync_error reason t).0 ≡ ok a
    → ⊥
unfolding desync_error
desync_error-ok A reason t a h = cc

module _ (utf8_error : Bytes → Text) where
  TakesHead-blank :
      (most : ℕ) (t u : FramedTransport) (l : Text)
      → TakesLine t u l
      → is_empty (trim_crlf l) ≡ true
      → TakesHead most t u
  TakesHead-blank most t u l h b = record {
    headers = [];
    blank = l;
    few = omega arith;
    bytes = h.bytes;
    head = (h.ended, b);
    after = h.after;
  }

  TakesHead-line :
      (most : ℕ) (t u v : FramedTransport) (l : Text)
      → TakesLine t u l
      → is_empty (trim_crlf l) ≡ false
      → TakesHead most u v
      → TakesHead (suc most) t v
  TakesHead-line most t u v l h b k = record {
    headers = l ∷ k.headers;
    blank = k.blank;
    few = omega (arith, k.few);
    bytes =
        h.bytes
        ∙ ap (λ x. encode l ++ x) k.bytes
        ∙ sym (append_assoc (encode l) (head_bytes k.headers k.blank) (flatten v.reader));
    head = (subst (EndsLine l) k.bytes h.ended, b, k.head);
    after = after_both t u v h.after k.after;
  }

  pub read_headers-TakesHead :
      (left : ℕ) (t : FramedTransport)
      → IsFaultless t.reader
      → (read_headers utf8_error left t).0 ≡ ok tt
      → TakesHead left t (read_headers utf8_error left t).1
  unfolding read_headers
  read_headers-TakesHead zero t f e =
      let (l, p, q, r) = continue-ok (read_frame_line utf8_error t).0 _ _ tt e in
      let h = read_frame_line-TakesLine utf8_error t l f p in
      subst (TakesHead 0 t) (sym r) (elim (Bool-cases (is_empty (trim_crlf l))) [
        | inl b ↦ rw b (TakesHead-blank 0 t _ l h b)
        | inr b ↦ absurd (let q' = rw b at q in desync_error-ok _ _ _ tt q')
      ])
  read_headers-TakesHead (suc left) t f e =
      let (l, p, q, r) = continue-ok (read_frame_line utf8_error t).0 _ _ tt e in
      let h = read_frame_line-TakesLine utf8_error t l f p in
      subst (TakesHead (suc left) t) (sym r) (elim (Bool-cases (is_empty (trim_crlf l))) [
        | inl b ↦ rw b (TakesHead-blank (suc left) t _ l h b)
        | inr b ↦
            let q' = rw b at q in
            rw b (
              TakesHead-line left t _ _ l h b
                (read_headers-TakesHead left _ h.after.left_faultless q'))
      ])
