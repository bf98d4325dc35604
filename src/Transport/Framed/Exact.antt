-- ===== src/Transport/Framed/Exact.antt =====
-- What a message that src/transport.rs has read as a frame says of the bytes that it took.
use mcp_core.Common.{
  ◌<◌, ℕ, ◌-◌, some, List, ◌++◌, inl, inr, ◌≡◌, sym, ap, ◌∙◌, arith, length, Option-cases, Text,
}
use mathlib.Core.Path.{subst}
use mcp_core.Error.{ok}
use mcp_core.Utf8.{Bytes, encode}
use mcp_core.Transport.Stream.Lines.{flatten, IsFaultless}
use mcp_core.Transport.Header.{max_header_lines, content_length_value, declared_length, length_of}
use mcp_core.Transport.Framed.State.{◌>>=◌, FramedTransport, content_length}
use mcp_core.Transport.Framed.Read.{
  read_frame_line, read_headers, read_body, read_content_length, read_unless, read_in, read_message,
}
use mcp_core.Transport.Framed.SameBytes.{SameBytes, with_bytes}
use mcp_core.Transport.Framed.Frames.{Declared-cases}
use mcp_core.Transport.Framed.Settle.{read_message_in}
use mcp_core.Transport.Framed.LineTaken.{EndsLine, TakesLine, read_frame_line-TakesLine}
use mcp_core.Transport.Framed.HeadTaken.{
  head_bytes, IsHead, after_both, continue-ok, desync_error-ok, read_headers-TakesHead,
}
use mcp_core.Transport.Framed.BodyTaken.{read_body-ok}

-- From `t` to `u` the frame of a message has been taken.
pub record TakesFrame (t u : FramedTransport) (m : Text) : Type 0 where
  pub first : Text
  pub value : Text
  pub headers : List Text
  pub blank : Text
  pub announced : content_length_value first ≡ some value
  pub exact : declared_length t.max_len value ≡ length_of (length (encode m))
  pub few : length headers < max_header_lines
  pub bytes :
      flatten t.reader
      ≡ encode first ++ (head_bytes headers blank ++ (encode m ++ flatten u.reader))
  pub first_line : EndsLine first (head_bytes headers blank ++ (encode m ++ flatten u.reader))
  pub head : IsHead headers blank (encode m ++ flatten u.reader)
  pub after : SameBytes u (with_bytes t (flatten u.reader))

module _ (utf8_error : Bytes → Text) where
  -- The header lines and the body, once the length is known.
  framed_by :
      (first value : Text) (n : ℕ) (t u : FramedTransport) (m : Text)
      → TakesLine t u first
      → content_length_value first ≡ some value
      → declared_length u.max_len value ≡ length_of n
      → let x =
          (read_headers utf8_error (max_header_lines - 1) >>= λ _. read_body utf8_error n) u in
        x.0 ≡ ok m → TakesFrame t x.1 m
  framed_by first value n t u m l h g e =
      let (_, p, q, r) = continue-ok (read_headers utf8_error (max_header_lines - 1) u).0 _ _ m e in
      let v = (read_headers utf8_error (max_header_lines - 1) u).1 in
      let w = (read_body utf8_error n v).1 in
      let k = read_headers-TakesHead utf8_error (max_header_lines - 1) u l.after.left_faultless p in
      let (a, b, c) = read_body-ok utf8_error n v m k.after.left_faultless q in
      let rest = encode m ++ flatten w.reader in
      let y : flatten u.reader ≡ head_bytes k.headers k.blank ++ rest =
        k.bytes ∙ ap (λ z. head_bytes k.headers k.blank ++ z) b in
      subst (λ z. TakesFrame t z m) (sym r)
        (record {
          first = first;
          value = value;
          headers = k.headers;
          blank = k.blank;
          announced = h;
          exact = rw l.after.max_len at g ∙ ap length_of (sym a);
          few = omega (arith, k.few);
          bytes = l.bytes ∙ ap (λ z. encode first ++ z) y;
          first_line = subst (EndsLine first) y l.ended;
          head = subst (IsHead k.headers k.blank) b k.head;
          after = after_both t u w l.after (after_both u v w k.after c);
        })

  -- The frame from its first line on.
  read_content_length-TakesFrame :
      (first : Text) (t u : FramedTransport) (m : Text)
      → TakesLine t u first
      → (read_content_length utf8_error first u).0 ≡ ok m
      → TakesFrame t (read_content_length utf8_error first u).1 m
  unfolding read_content_length
  read_content_length-TakesFrame first t u m l e =
      elim (Option-cases (content_length_value first)) [
        | inl h ↦ absurd (let k = rw (h, read_content_length) at e in desync_error-ok _ _ _ m k)
        | inr (value, h) ↦ elim (Declared-cases (declared_length u.max_len value)) [
          | inr (reason, g) ↦ absurd (
              let k = rw (h, read_content_length) at e in
              let k' = rw g at k in desync_error-ok _ _ _ m k')
          | inl (n, g) ↦
              let k = rw (h, read_content_length) at e in
              let k' = rw g at k in
              rw (h, read_content_length) (rw g (framed_by first value n t u m l h g k'))
        ]
      ]

  -- In Content-Length framing, on a stream that does not fail, what is read is the frame of the
  -- message that it gives, to the byte. It begins with a line that announces the length of the
  -- message in bytes, which is within the limit, and goes on with fewer than 64 header lines that are
  -- not blank, a blank line and the bytes of the message. Each line ends at its only newline or at the
  -- end of the stream. The bytes after the frame are left, and all else is as it was.
  pub read_message-TakesFrame :
      (t : FramedTransport) (m : Text)
      → t.framing ≡ content_length
      → IsFaultless t.reader
      → (read_message utf8_error t).0 ≡ ok m
      → TakesFrame t (read_message utf8_error t).1 m
  unfolding read_message read_unless read_in
  read_message-TakesFrame t m f k e = elim (Option-cases t.desync) [
    | inr (reason, d) ↦ absurd (let e' = rw (d, read_message) at e in cc)
    | inl d ↦
        let h = read_message_in utf8_error t content_length d f in
        let (first, p, q, r) =
          continue-ok (read_frame_line utf8_error t).0 (read_content_length utf8_error) _ m
            (ap (λ x. x.0) (sym h) ∙ e) in
        subst (λ x. TakesFrame t x m) (sym (ap (λ x. x.1) h ∙ r))
          (read_content_length-TakesFrame first t _ m
            (read_frame_line-TakesLine utf8_error t first k p) q)
  ]
