-- ===== src/Transport/Framed/Delivery.antt =====
-- What the reading operations of src/transport.rs deliver from a stream whose bytes are known, up to
-- how they fall into chunks.
use mcp_core.Common.{
  List-cases, ltb, length-drop, take_past, drop_past, take_within, drop_within, ℕ, zero, suc, ◌+◌,
  ◌-◌, ◌≤◌, ◌<◌, true, false, none, some, [], ◌∷◌, ◌++◌, ◌≡◌, refl, sym, ap, ◌∙◌, inl, inr, arith,
  append_assoc, append-nil, length, length-append, take, drop, Text, is_empty-append, take_append,
  drop_append, ◌==◌,
}
use mcp_core.Error.{Result, ok}
use mcp_core.Utf8.{Bytes, from_utf8}
use mcp_core.Transport.Stream.{chunk, fault, Stream, unread, newline_at, body, read_to_end}
use mcp_core.Transport.Stream.Lines.{
  flatten, IsFaultless, flatten-unread, unread-IsFaultless, at_newline, cut_line,
}
use mcp_core.Transport.Framed.State.{FramedTransport, M, check_len, ◌>>=◌}
use mcp_core.Transport.Framed.Read.{
  decoded, end_line, read_line, or_poison, read_frame_line, read_body,
}
use mcp_core.Transport.Framed.Lines.{Reads, read_line_lem}
use mcp_core.Transport.Framed.SameBytes.{SameBytes, Agrees, with_bytes}

cut_line_line :
    (n : ℕ) (bs rest : Bytes)
    → newline_at bs ≡ none
    → length bs < n
    → cut_line n (bs ++ (b'\n' ∷ rest))
      ≡ record { bytes = bs ++ (b'\n' ∷ []); rest = rest; ending = at_newline }
unfolding cut_line newline_at
cut_line_line zero bs rest h k = absurd (omega arith)
cut_line_line (suc n) [] rest h k = refl
cut_line_line (suc n) (b ∷ bs) rest h k = ground (arith, cut_line_line n bs rest)

pub flatten_with_bytes : (bs : Bytes) → flatten (unread bs []) ≡ bs
flatten_with_bytes bs = flatten-unread bs [] ∙ append-nil bs

pub SameBytes-trans : {t u v : FramedTransport} → SameBytes t u → SameBytes u v → SameBytes t v
SameBytes-trans h k = record {
  bytes = h.bytes ∙ k.bytes;
  left_faultless = h.left_faultless;
  right_faultless = k.right_faultless;
  writer = h.writer ∙ k.writer;
  framing = h.framing ∙ k.framing;
  max_len = h.max_len ∙ k.max_len;
  desync = h.desync ∙ k.desync;
}

pub SameBytes-with_bytes :
    (t u : FramedTransport) (bs cs : Bytes)
    → SameBytes u (with_bytes t bs)
    → SameBytes (with_bytes u cs) (with_bytes t cs)
SameBytes-with_bytes t u bs cs h = record {
  bytes = refl;
  left_faultless = unread-IsFaultless cs [] tt;
  right_faultless = unread-IsFaultless cs [] tt;
  writer = h.writer;
  framing = h.framing;
  max_len = h.max_len;
  desync = h.desync;
}

-- A step that delivers its result is followed by the next.
pub Agrees->>= :
    {A B : Type 0} (m : M A) (f : A → M B) (t v : FramedTransport) (a : A)
    (x : Result B × FramedTransport)
    → Agrees (m t) (ok a, v)
    → ((u : FramedTransport) → SameBytes u v → Agrees (f a u) x)
    → Agrees ((m >>= f) t) x
Agrees->>= m f t v a x (e, s) k = rw e (k (m t).1 s)

read_to_end_lem :
    (n : ℕ) (buf : Bytes) (r : Stream)
    → IsFaultless r
    → n ≤ length (flatten r)
    → (r' : Stream) × (read_to_end n buf r ≡ body (buf ++ take n (flatten r)) r')
      × (flatten r' ≡ drop n (flatten r))
      × IsFaultless r'
unfolding read_to_end
read_to_end_lem zero buf r h l = (r, ap (λ b. body b r) (sym (append-nil buf)), refl, h)
read_to_end_lem (suc n) buf [] h l = absurd (omega arith)
read_to_end_lem (suc n) buf (fault e ∷ r) h l = absurd h
read_to_end_lem (suc n) buf (chunk b bs ∷ r) h l = elim (List-cases (drop n bs)) [
  | inl e ↦
      let s : length bs ≤ n = omega (arith, length-drop n bs, ap length e) in
      let m : suc n - length (b ∷ bs) ≡ n - length bs = omega arith in
      let (r', f, g, k) =
        read_to_end_lem (n - length bs) (buf ++ (b ∷ bs)) r h
          (omega (arith, length-append bs (flatten r))) in
      rw (e, read_to_end)
        (rw (m, take_past n bs (flatten r) s, drop_past n bs (flatten r) s)
          (r', f ∙ ap (λ b. body b r') (append_assoc buf (b ∷ bs) _), g, k))
  | inr (c, cs, e) ↦
      let s : n ≤ length bs = omega (arith, length-drop n bs, ap length e) in
      rw (e, read_to_end)
        (rw (take_within n bs (flatten r) s, drop_within n bs (flatten r) s)
          (chunk c cs ∷ r, refl, ap (λ x. x ++ flatten r) (sym e), h))
]

module _ (utf8_error : Bytes → Text) where
  end_line_ok :
      (buf : Bytes) (s : Text) (t : FramedTransport)
      → length buf ≤ t.max_len
      → from_utf8 buf ≡ some s
      → end_line utf8_error buf t ≡ (ok s, t)
  unfolding end_line check_len
  end_line_ok buf s t h d =
      let l : ltb t.max_len (length buf) ≡ false = ground arith in
      rw (l, end_line) (rw (d, decoded) refl)

  Reads-line :
      (x : Result Text × FramedTransport) (u : FramedTransport) (bs rest : Bytes) (s : Text)
      → length bs < u.max_len
      → from_utf8 (bs ++ (b'\n' ∷ [])) ≡ some s
      → Reads utf8_error x [] u
          (record { bytes = bs ++ (b'\n' ∷ []); rest = rest; ending = at_newline })
      → Agrees x (ok s, with_bytes u rest)
  Reads-line x u bs rest s l d r =
      let w =
        end_line_ok (bs ++ (b'\n' ∷ [])) s (with_bytes u rest)
          (omega (arith, length-append bs (b'\n' ∷ []))) d in
      rw (is_empty-append bs b'\n' [], w) at r

  -- A line that ends in a newline, that is within the limit and that is UTF-8, is delivered.
  pub read_line_delivers :
      (t u : FramedTransport) (bs rest : Bytes) (s : Text)
      → SameBytes u (with_bytes t (bs ++ (b'\n' ∷ rest)))
      → newline_at bs ≡ none
      → length bs < t.max_len
      → from_utf8 (bs ++ (b'\n' ∷ [])) ≡ some s
      → Agrees (read_line utf8_error u) (ok s, with_bytes t rest)
  read_line_delivers t u bs rest s h n l d =
      let c = cut_line_line (u.max_len + 1) bs rest n (omega (arith, h.max_len)) in
      let r = read_line_lem utf8_error u h.left_faultless in
      let e = h.bytes ∙ flatten_with_bytes _ in
      let (p, q) = Reads-line _ u bs rest s (omega (arith, h.max_len)) d (rw (e, c) at r) in
      (p, SameBytes-trans q (SameBytes-with_bytes t u _ rest h))

  -- The same for a line of a `Content-Length` frame.
  pub read_frame_line_delivers :
      (t u : FramedTransport) (bs rest : Bytes) (s : Text)
      → SameBytes u (with_bytes t (bs ++ (b'\n' ∷ rest)))
      → newline_at bs ≡ none
      → length bs < t.max_len
      → from_utf8 (bs ++ (b'\n' ∷ [])) ≡ some s
      → Agrees (read_frame_line utf8_error u) (ok s, with_bytes t rest)
  unfolding read_frame_line or_poison
  read_frame_line_delivers t u bs rest s h n l d =
      let (p, q) = read_line_delivers t u bs rest s h n l d in rw p (refl, q)

  -- The body of a frame is delivered as its bytes decode, whatever follows it.
  pub read_body_delivers :
      (t u : FramedTransport) (bs rest : Bytes)
      → SameBytes u (with_bytes t (bs ++ rest))
      → Agrees (read_body utf8_error (length bs) u) (decoded utf8_error bs, with_bytes t rest)
  unfolding read_body
  read_body_delivers t u bs rest h =
      let n : (length bs == length bs) ≡ true = ground arith in
      let e = h.bytes ∙ flatten_with_bytes _ in
      let (r', f, g, k) =
        read_to_end_lem (length bs) [] u.reader h.left_faultless
          (omega (arith, ap length e, length-append bs rest)) in
      let a : take (length bs) (flatten u.reader) ≡ bs =
        ap (take (length bs)) e ∙ take_append bs rest in
      rw (f, read_body)
        (rw (a, n)
          (
            refl,
            record {
              bytes =
                  g ∙ ap (drop (length bs)) e ∙ drop_append bs rest ∙ sym (flatten_with_bytes rest);
              left_faultless = k;
              right_faultless = unread-IsFaultless rest [] tt;
              writer = h.writer;
              framing = h.framing;
              max_len = h.max_len;
              desync = h.desync;
            },
          ))
