-- ===== src/Transport/Framed/Newline.antt =====
-- Newline framing in src/transport.rs: a message is a line, and the first line settles it.
use mcp_core.Transport.Framed.Style.{
  by_lines, framed, Awaits, Settled, Gives, Settled-SameBytes, Settled-settle, SameBytes-settle,
  Awaits-SameBytes, Awaits-bytes,
}
use mathlib.Core.Path.{subst}
use mcp_core.Common.{
  append_assoc, sym, ap, none, [], ◌∷◌, ◌++◌, inl, inr, ◌≡◌, refl, sym, ap, ◌∙◌, Text,
}
use mcp_core.Error.{ok}
use mcp_core.Utf8.{Bytes, encode}
use mcp_core.Transport.Framed.State.{auto, newline, FramedTransport, continue}
use mcp_core.Transport.Framed.Read.{read_line, read_newline, read_in, read_message}
use mcp_core.Transport.Framed.SameBytes.{SameBytes, Agrees, with_bytes}
use mcp_core.Transport.Framed.Delivery.{read_line_delivers}
use mcp_core.Transport.Framed.Auto.{auto_round, read_in-auto_round}
use mcp_core.Transport.Framed.LineText.{IsLine, trim_crlf_line, from_utf8_line}
use mcp_core.Transport.Framed.Settle.{read_message_in}

module _ (utf8_error : Bytes → Text) where
  line_delivers :
      (t : FramedTransport) (m : Text) (rest : Bytes)
      → Awaits by_lines t (framed by_lines m ++ rest)
      → IsLine t.max_len m
      → Agrees (read_line utf8_error t) (ok (m ++ (b'\n' ∷ [])), with_bytes t rest)
  line_delivers t m rest r l =
      read_line_delivers utf8_error t t (encode m) rest (m ++ (b'\n' ∷ []))
        (Awaits-SameBytes (Awaits-bytes (append_assoc (encode m) (b'\n' ∷ []) rest) r)) l.one_line
        l.short (from_utf8_line m l.is_text)

  read_newline_line :
      (t : FramedTransport) (m : Text) (rest : Bytes)
      → Awaits by_lines t (framed by_lines m ++ rest)
      → IsLine t.max_len m
      → t.framing ≡ newline
      → Gives by_lines t m rest (read_newline utf8_error t)
  unfolding read_newline
  read_newline_line t m rest r l f =
      let (p, q) = line_delivers t m rest r l in
      rw (p, read_newline)
        (ap ok (trim_crlf_line t.max_len m l), Settled-SameBytes by_lines t _ rest r.desync f q)

  line_settles :
      (t u : FramedTransport) (rest : Bytes)
      → t.desync ≡ none
      → SameBytes u (with_bytes t rest)
      → Settled by_lines t (record u { framing = newline }) rest
  line_settles t u rest d s = Settled-settle by_lines t _ newline rest (
      Settled-SameBytes by_lines (record t { framing = newline }) _ rest d refl
        (SameBytes-settle newline u _ s))

  read_auto_line :
      (t : FramedTransport) (m : Text) (rest : Bytes)
      → Awaits by_lines t (framed by_lines m ++ rest)
      → IsLine t.max_len m
      → Gives by_lines t m rest (auto_round utf8_error (read_in utf8_error auto) t)
  read_auto_line t m rest r l =
      let (p, q) = line_delivers t m rest r l in
      rw (p, auto_round)
        (rw (trim_crlf_line t.max_len m l, continue)
          (rw l.not_blank (
            rw (trim_crlf_line t.max_len m l)
              (rw l.no_header (refl, line_settles t _ rest r.desync q)))))

  -- In newline framing, or while the framing is not known, a line is read as a message, and from
  -- then on the framing is by newlines.
  pub read_message_line :
      (t : FramedTransport) (m : Text) (rest : Bytes)
      → Awaits by_lines t (framed by_lines m ++ rest)
      → IsLine t.max_len m
      → Gives by_lines t m rest (read_message utf8_error t)
  unfolding read_in
  read_message_line t m rest r l = elim r.framing [
    | inl f ↦
        subst (Gives by_lines t m rest)
          (sym (read_message_in utf8_error t auto r.desync f ∙ read_in-auto_round utf8_error t))
          (read_auto_line t m rest r l)
    | inr f ↦
        subst (Gives by_lines t m rest) (sym (read_message_in utf8_error t newline r.desync f))
          (read_newline_line t m rest r l f)
  ]
