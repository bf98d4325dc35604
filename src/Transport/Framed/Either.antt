-- ===== src/Transport/Framed/Either.antt =====
-- A read in either framing of src/transport.rs.
use mcp_core.Common.{Text, ◌++◌}
use mcp_core.Utf8.{Bytes}
use mcp_core.Transport.Framed.State.{FramedTransport}
use mcp_core.Transport.Framed.Read.{read_message}
use mcp_core.Transport.Framed.Style.{Style, by_lines, by_frames, framed, Suits, Awaits, Gives}
use mcp_core.Transport.Framed.Newline.{read_message_line}
use mcp_core.Transport.Framed.FrameRead.{read_message_frame}

-- The next message of a client is read, and the framing is then known.
pub read_message-framed :
    (utf8_error : Bytes → Text) (s : Style) (t : FramedTransport) (m : Text) (rest : Bytes)
    → Awaits s t (framed s m ++ rest)
    → Suits s t.max_len m
    → Gives s t m rest (read_message utf8_error t)
read_message-framed utf8_error by_lines t m rest r l = read_message_line utf8_error t m rest r l
read_message-framed utf8_error by_frames t m rest r l = read_message_frame utf8_error t m rest r l.0
