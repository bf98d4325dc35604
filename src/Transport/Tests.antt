-- ===== src/Transport/Tests.antt =====
-- src/transport.rs on concrete streams.
use mcp_core.Common.{
  inr, inl, trim, true, some, List, [], ◌∷◌, ◌++◌, ◌+◌, ◌*◌, ◌≤◌, ◌≡◌, ◌≢◌, ◌↔◌, refl, all,
  is_ascii_digit, arith, Text, codes,
}
use mcp_core.Decimal
use mcp_core.Decimal.{usize_max, to_string}
use mcp_core.Decimal.RoundTrip.{value_of}
use mcp_core.Error.{transport, invalid_message, ok, err}
use mcp_core.Utf8.{Bytes, encode, from_utf8}
use mcp_core.Transport.Stream.{chunk, Stream, unread, newline_at, read_to_end}
use mcp_core.Transport.Stream.Lines.{flatten, cut_line}
use mcp_core.Transport.Header.{
  max_header_lines, length_of, content_length_value, declared_length, trim_crlf,
}
use mcp_core.Transport.Header.Length.{declared_length_iff}
use mcp_core.Transport.Framed.State.{
  auto, newline, Framing, check_len, content_length, FramedTransport, new,
}
use mcp_core.Transport.Framed.Read.{
  read_message, take_chunk, line_loop, read_line, read_frame_line, read_headers, read_body,
  read_content_length, read_auto,
}
use mcp_core.Transport.Framed.Write.{write_message}
use mcp_core.Transport.Framed.Lines.{Reads, read_line_lem}
use mcp_core.Transport.Framed.RoundTrip.{read_message-write_message}
use mcp_core.Transport.Framed.Desync.{Call, receive, send, after, after_lost}
use mcp_core.Transport.Framed.Style.{IsFrame, by_lines, by_frames, Settled}
use mcp_core.Transport.Framed.NewlineTrip.{read_message-write_message_line}
use mcp_core.Transport.Framed.LineText.{IsLine}
use mcp_core.Transport.Framed.Exact.{TakesFrame, read_message-TakesFrame}
use mcp_core.Transport.Framed.Bounds.{Takes, read_message-Takes}

abbrev no_detail : Bytes → Text
no_detail b = codes "?"

abbrev fresh : Bytes → FramedTransport
fresh bs = new (unread bs []) (record { written = []; events = [] }) 1024

content_length_example :
    (read_message no_detail (fresh (codes "Content-Length: 11\r\nX: y\r\n\r\n{\"hi\":true}rest"))).0
    ≡ ok (codes "{\"hi\":true}")
unfolding check_len read_message line_loop take_chunk read_line read_frame_line read_headers
    read_body read_content_length read_auto new newline_at read_to_end content_length_value
    declared_length trim_crlf from_utf8 Decimal.parse to_string
content_length_example = refl

abbrev greeting : Text
greeting = codes "{\"hi\":\"ü\"}"

abbrev framed : Stream → FramedTransport
framed s = record (fresh []) { reader = s; framing = content_length }

-- A frame that arrives in two chunks, with the beginning of the next behind it.
abbrev arriving : Stream
arriving =
    chunk b'C' (codes "ontent-Length: 11\r\n\r\n{\"hi\"") ∷ unread (encode (codes ":\"ü\"}Cont")) []

greeting-IsFrame : IsFrame 1024 greeting
unfolding encode to_string
greeting-IsFrame = record {
  is_text = ground arith;
  short = omega arith;
  countable = omega arith;
  short_header = omega arith;
}

read_message-write_message_example :
    ((read_message no_detail (record (framed arriving) { framing = auto })).0 ≡ ok greeting)
    × Settled by_frames
        (record (framed arriving) { framing = auto })
        (read_message no_detail (record (framed arriving) { framing = auto })).1
        (codes "Cont")
unfolding new write_message encode to_string
read_message-write_message_example =
    read_message-write_message no_detail (framed []) (record (framed arriving) { framing = auto })
      greeting (codes "Cont") refl refl (inl refl) refl tt refl greeting-IsFrame

greeting_read : (read_message no_detail (framed arriving)).0 ≡ ok greeting
unfolding new write_message encode to_string
greeting_read =
    (read_message-write_message no_detail (framed []) (framed arriving) greeting (codes "Cont") refl
      refl (inr refl) refl tt refl greeting-IsFrame).0

read_message-TakesFrame_example :
    TakesFrame (framed arriving) (read_message no_detail (framed arriving)).1 greeting
unfolding new encode
read_message-TakesFrame_example =
    read_message-TakesFrame no_detail (framed arriving) greeting refl tt greeting_read

read_line_lem_example :
    Reads no_detail
      (read_line no_detail (framed arriving))
      []
      (framed arriving)
      (cut_line (1024 + 1) (flatten arriving))
unfolding new encode
read_line_lem_example = read_line_lem no_detail (framed arriving) tt

abbrev lost : FramedTransport
lost = record (framed arriving) { desync = some (codes "a reason") }

abbrev calls : List Call
calls = receive ∷ send greeting ∷ receive ∷ []

after_lost_example :
    ((after no_detail calls lost).reader ≡ arriving)
    × ((after no_detail calls lost).desync ≡ some (codes "a reason"))
    × (read_message no_detail (after no_detail calls lost) ≡ (
      err (
          transport (
            invalid_message (
              codes "transport desynchronised by an earlier framing violation ("
              ++ (codes "a reason" ++ codes ") and cannot be resynchronised")))),
      after no_detail calls lost,
    ))
after_lost_example = after_lost no_detail calls lost (codes "a reason") refl

declared_length_iff_example : (declared_length 1024 (codes "0012") ≡ length_of 12) ↔ (
    (codes "0012" ≢ [])
    × (all is_ascii_digit (codes "0012") ≡ true)
    × (value_of 0 (codes "0012") ≡ 12)
    × (12 ≤ 1024)
    × (12 ≤ usize_max))
declared_length_iff_example = declared_length_iff 1024 (codes "0012") 12

read_message-Takes_example :
    Takes
      ((max_header_lines + 1) * (1024 + 1) + 1024)
      (framed arriving)
      (read_message no_detail (framed arriving)).1
unfolding new
read_message-Takes_example = read_message-Takes no_detail (framed arriving) (λ e. cc)

-- A line that arrives in two chunks, with the next behind it.
abbrev lines_arriving : Stream
lines_arriving = chunk b'{' (codes "\"hi\"") ∷ unread (encode (codes ":\"ü\"}\n{}")) []

greeting-IsLine : IsLine 1024 greeting
unfolding trim_crlf content_length_value encode newline_at trim
greeting-IsLine = record {
  is_text = ground arith;
  one_line = refl;
  trimmed = refl;
  not_blank = refl;
  no_header = refl;
  short = omega arith;
}

abbrev by_line : Stream → Framing → FramedTransport
by_line s f = record (fresh []) { reader = s; framing = f }

read_message-write_message_line_example :
    ((read_message no_detail (by_line lines_arriving auto)).0 ≡ ok greeting)
    × Settled by_lines
        (by_line lines_arriving auto)
        (read_message no_detail (by_line lines_arriving auto)).1
        (codes "{}")
unfolding new write_message encode
read_message-write_message_line_example =
    read_message-write_message_line no_detail (by_line [] newline) (by_line lines_arriving auto)
      greeting (codes "{}") refl refl (inl refl) refl tt refl greeting-IsLine
