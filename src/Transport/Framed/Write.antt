-- ===== src/Transport/Framed/Write.antt =====
-- src/transport.rs: the writing half of `FramedTransport`.
use mcp_core.Common.{List, [], ◌∷◌, ◌++◌, length, take, Text, codes}
use mcp_core.Decimal.{to_string}
use mcp_core.Error.{io, ok, err}
use mcp_core.Utf8.{Bytes, encode}
use mcp_core.Transport.Framed.State.{
  Framing, auto, newline, content_length, WriteEvent, accepted, broken, M, ◌>>=◌,
}

-- `write_all`, and `flush` for no bytes, by what the writer meets.
unfoldable pub write_next : List WriteEvent → Bytes → M (Unit {0})
write_next [] bytes t =
    (ok tt, record t { writer = record { written = t.writer.written ++ bytes; events = [] } })
write_next (accepted ∷ es) bytes t =
    (ok tt, record t { writer = record { written = t.writer.written ++ bytes; events = es } })
write_next (broken n e ∷ es) bytes t = (
  err (io e),
  record t { writer = record { written = t.writer.written ++ take n bytes; events = es } },
)

unfoldable pub write_all : Bytes → M (Unit {0})
unfolding write_next
write_all bytes t = write_next t.writer.events bytes t

unfoldable pub flush : M (Unit {0})
unfolding write_all
flush = write_all []

abbrev pub header : Text → Text
header message =
    codes "Content-Length: " ++ (to_string (length (encode message)) ++ codes "\r\n\r\n")

unfoldable pub write_in : Framing → Text → M (Unit {0})
unfolding write_all
write_in content_length message = do
  _ ← write_all (encode (header message))
  write_all (encode message)
write_in auto message = do _ ← write_all (encode message); write_all (b'\n' ∷ [])
write_in newline message = do _ ← write_all (encode message); write_all (b'\n' ∷ [])

unfoldable pub write_message : Text → M (Unit {0})
unfolding write_in flush
write_message message t = (do _ ← write_in t.framing message; flush) t
