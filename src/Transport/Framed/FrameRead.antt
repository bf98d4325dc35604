-- ===== src/Transport/Framed/FrameRead.antt =====
-- A frame of src/transport.rs is read as its message.
use mcp_core.Transport.Framed.Style.{
  by_frames, framed, IsFrame, Awaits, Gives, Settled-SameBytes, Settled-settle, SameBytes-settle,
  Awaits-SameBytes, Awaits-bytes,
}
use mcp_core.Transport.Framed.Settle.{read_message_in}
use mcp_core.Transport.Framed.HeaderText.{
  from_utf8_ascii, newline_at_plain, header_line, header_line_plain, plain_line, header_lines,
  encode-header, header_line_value, header_line_trimmed, trimmed_value,
}
use mcp_core.Transport.Framed.Auto.{auto_round, read_in-auto_round}
use mathlib.Core.Path.{subst}
use mcp_core.Transport.Framed.Delivery.{read_line_delivers}
use mcp_core.Common.{
  inr, inl, sym, ap, ℕ, zero, suc, ◌+◌, ◌-◌, ◌≤◌, ◌<◌, none, some, [], ◌∷◌, ◌++◌, ◌≡◌, refl, sym,
  ap, ◌∙◌, arith, append_assoc, length, length-append, Text, codes,
}
use mcp_core.Decimal.{usize_max, to_string}
use mcp_core.Error.{ok}
use mcp_core.Utf8.{Bytes, encode, from_utf8}
use mcp_core.Utf8.RoundTrip.{IsText, from_utf8-encode}
use mcp_core.Transport.Stream.{newline_at}
use mcp_core.Transport.Header.{
  max_header_lines, trim_crlf, content_length_value, declared_length, length_of,
}
use mcp_core.Transport.Header.Length.{declared_length-to_string}
use mcp_core.Transport.Framed.State.{
  content_length, auto, continue, FramedTransport, content_length,
}
use mcp_core.Transport.Framed.Read.{
  decoded, read_headers, read_body, read_content_length, read_frame_line, read_message, read_in,
}
use mcp_core.Transport.Framed.SameBytes.{SameBytes, Agrees, with_bytes}
use mcp_core.Transport.Framed.Delivery.{read_frame_line_delivers, read_body_delivers}

module _ (utf8_error : Bytes → Text) where
  blank_line_delivers :
      (t u : FramedTransport) (rest : Bytes)
      → SameBytes u (with_bytes t (codes "\r\n" ++ rest))
      → 1 < t.max_len
      → Agrees (read_frame_line utf8_error u) (ok (codes "\r\n"), with_bytes t rest)
  blank_line_delivers t u rest h l =
      read_frame_line_delivers utf8_error t u (codes "\r") rest (codes "\r\n") h
        (newline_at_plain (codes "\r") refl) l (from_utf8_ascii (codes "\r\n") refl)

  read_headers_blank :
      (left : ℕ) (t u : FramedTransport) (rest : Bytes)
      → SameBytes u (with_bytes t (codes "\r\n" ++ rest))
      → 1 < t.max_len
      → Agrees (read_headers utf8_error left u) (ok tt, with_bytes t rest)
  unfolding read_headers trim_crlf
  read_headers_blank zero t u rest h l =
      let (p, q) = blank_line_delivers t u rest h l in rw (p, read_headers) (refl, q)
  read_headers_blank (suc left) t u rest h l =
      let (p, q) = blank_line_delivers t u rest h l in rw (p, read_headers) (refl, q)

  read_content_length_delivers :
      (t u : FramedTransport) (message first : Text) (rest : Bytes)
      → SameBytes u (with_bytes t (codes "\r\n" ++ (encode message ++ rest)))
      → IsText message
      → length (encode message) ≤ t.max_len
      → length (encode message) ≤ usize_max
      → 1 < t.max_len
      → content_length_value first ≡ some (to_string (length (encode message)))
      → Agrees (read_content_length utf8_error first u) (ok message, with_bytes t rest)
  unfolding read_content_length
  read_content_length_delivers t u message first rest h i l m k c =
      let n = length (encode message) in
      let d : declared_length u.max_len (to_string n) ≡ length_of n =
        declared_length-to_string u.max_len n (omega (arith, h.max_len)) m in
      let b : (v : FramedTransport)
          → SameBytes v (with_bytes t (encode message ++ rest))
          → Agrees (read_body utf8_error n v) (ok message, with_bytes t rest) =
        λ v s.
          rw (from_utf8-encode message i, decoded) at
            (read_body_delivers utf8_error t v (encode message) rest s) in
      let (p, q) = read_headers_blank (max_header_lines - 1) t u (encode message ++ rest) h k in
      rw (c, read_content_length) (rw d (rw p (b _ q)))

  -- The header line of a frame, while the framing is known or not.
  header_delivers :
      (t : FramedTransport) (m : Text) (rest : Bytes)
      → Awaits by_frames t (framed by_frames m ++ rest)
      → IsFrame t.max_len m
      → let l = header_line (length (encode m)) in
        let bytes = l ++ (b'\n' ∷ codes "\r\n" ++ (encode m ++ rest)) in
        SameBytes t (with_bytes t bytes)
        × (newline_at l ≡ none)
        × (length l + 3 ≤ t.max_len)
        × (from_utf8 (l ++ (b'\n' ∷ [])) ≡ some (l ++ (b'\n' ∷ [])))
  header_delivers t m rest r l =
      let n = length (encode m) in
      let b =
        ap (λ x. (x ++ encode m) ++ rest) (encode-header m)
        ∙ append_assoc (header_line n ++ codes "\n\r\n") (encode m) rest
        ∙ append_assoc (header_line n) (codes "\n\r\n") (encode m ++ rest) in
      (
        Awaits-SameBytes (Awaits-bytes b r),
        newline_at_plain (header_line n) (header_line_plain n),
        omega (
          arith,
          l.short_header,
          ap length (header_lines m),
          length-append (header_line n) (codes "\n\r\n"),
        ),
        from_utf8_ascii _ (plain_line (header_line n) (header_line_plain n)),
      )

  read_framed :
      (t : FramedTransport) (m : Text) (rest : Bytes)
      → Awaits by_frames t (framed by_frames m ++ rest)
      → IsFrame t.max_len m
      → t.framing ≡ content_length
      → Gives by_frames t m rest (read_in utf8_error content_length t)
  unfolding read_in
  read_framed t m rest r l f =
      let (s, n, h, d) = header_delivers t m rest r l in
      let (p, q) =
        read_frame_line_delivers utf8_error t t _ (codes "\r\n" ++ (encode m ++ rest)) _ s n
          (omega (arith, h)) d in
      let (x, y) =
        read_content_length_delivers t _ m _ rest q l.is_text l.short l.countable (omega (arith, h))
          (header_line_value _) in
      rw (p, read_in) (x, Settled-SameBytes by_frames t _ rest r.desync f y)

  -- The first frame settles the framing.
  read_detected :
      (t u : FramedTransport) (m : Text) (rest : Bytes)
      → Awaits by_frames t (framed by_frames m ++ rest)
      → IsFrame t.max_len m
      → SameBytes u (with_bytes t (codes "\r\n" ++ (encode m ++ rest)))
      → 1 < t.max_len
      → Gives by_frames t m rest (
          read_content_length utf8_error
            (codes "Content-Length: " ++ to_string (length (encode m)))
            (record u { framing = content_length }))
  read_detected t u m rest r l s k =
      let t' : FramedTransport = record t { framing = content_length } in
      let (x, y) =
        read_content_length_delivers t' (record u { framing = content_length }) m _ rest
          (SameBytes-settle content_length u _ s) l.is_text l.short l.countable k
          (trimmed_value _) in
      (
        x,
        Settled-settle by_frames t _ content_length rest
            (Settled-SameBytes by_frames t' _ rest r.desync refl y),
      )

  read_auto_frame :
      (t : FramedTransport) (m : Text) (rest : Bytes)
      → Awaits by_frames t (framed by_frames m ++ rest)
      → IsFrame t.max_len m
      → Gives by_frames t m rest (auto_round utf8_error (read_in utf8_error auto) t)
  read_auto_frame t m rest r l =
      let (s, n, h, d) = header_delivers t m rest r l in
      let (p, q) =
        read_line_delivers utf8_error t t _ (codes "\r\n" ++ (encode m ++ rest)) _ s n
          (omega (arith, h)) d in
      let (a, b) = header_line_trimmed (length (encode m)) in
      rw (p, auto_round)
        (rw (a, continue)
          (rw b (
            rw a (
              rw (trimmed_value (length (encode m)))
                (read_detected t _ m rest r l q (omega (arith, h)))))))

  -- In Content-Length framing, or while the framing is not known, a frame is read as its message.
  pub read_message_frame :
      (t : FramedTransport) (m : Text) (rest : Bytes)
      → Awaits by_frames t (framed by_frames m ++ rest)
      → IsFrame t.max_len m
      → Gives by_frames t m rest (read_message utf8_error t)
  read_message_frame t m rest r l = elim r.framing [
    | inl f ↦
        subst (Gives by_frames t m rest)
          (sym (read_message_in utf8_error t auto r.desync f ∙ read_in-auto_round utf8_error t))
          (read_auto_frame t m rest r l)
    | inr f ↦
        subst (Gives by_frames t m rest)
          (sym (read_message_in utf8_error t content_length r.desync f))
          (read_framed t m rest r l f)
  ]
