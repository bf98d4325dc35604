-- ===== src/Runner/Stdio/Tests.antt =====
-- `serve_stdio` and `pump` of src/runner.rs on two messages.
use mcp_core.Common.{trim, ℕ, ◌+◌, List, [], ◌∷◌, ◌≡◌, refl, inl, arith, map, Text, codes}
use mcp_core.Config
use mcp_core.Error.{ok}
use mcp_core.Service.{ok}
use mcp_core.Utf8.{encode}
use mcp_core.Transport.Stream.{unread, chunk, Stream, newline_at}
use mcp_core.Transport.Header.{trim_crlf, content_length_value}
use mcp_core.Transport.Framed.State
use mcp_core.Transport.Framed.Style.{by_lines, by_frames, AllSuit, in_style}
use mcp_core.Decimal.{to_string}
use mcp_core.Runner.Pump.{Connection, pump}
use mcp_core.Runner.Pump.Transcript.{Finishes, pump-ws_connection}
use mcp_core.Runner.Websocket.{text, Socket, ws_connection}
use mcp_core.Runner.Websocket.Transcript.{transcript}
use mcp_core.Runner.Tests.{pinged, two_lines}
use mcp_core.Runner.Stdio.{session_of, serve_stdio, serve_stdio-transcript}

abbrev two_texts : List Text
two_texts = codes "one" ∷ codes "two" ∷ []

abbrev typed : Stream
typed = chunk b'o' (codes "ne\nt") ∷ unread (codes "wo\n") []

short_lines : (n : ℕ) → AllSuit by_lines (n + 4) two_texts
unfolding trim_crlf content_length_value encode newline_at
short_lines n = (
  record {
    is_text = ground arith;
    one_line = refl;
    trimmed = refl;
    not_blank = refl;
    no_header = refl;
    short = omega arith;
  },
  (
    record {
      is_text = ground arith;
      one_line = refl;
      trimmed = refl;
      not_blank = refl;
      no_header = refl;
      short = omega arith;
    },
    tt,
  ),
)

-- The same as frames, in other chunks.
abbrev sent : Stream
sent =
    chunk b'C' (codes "ontent-Length: 3\r")
    ∷ unread (codes "\n\r\noneContent-Length: 3\r\n\r\ntwo") []

short_frames : (n : ℕ) → AllSuit by_frames (n + 40) two_texts
unfolding encode to_string trim
short_frames n = (
  (
    record {
      is_text = ground arith;
      short = omega arith;
      countable = omega arith;
      short_header = omega arith;
    },
    refl,
  ),
  (
    (
      record {
        is_text = ground arith;
        short = omega arith;
        countable = omega arith;
        short_header = omega arith;
      },
      refl,
    ),
    tt,
  ),
)

serve_stdio-transcript_example :
    let x = serve_stdio pinged sent (record { written = []; events = [] }) 0 [] in
    let (answers, env) = transcript pinged (map text two_texts) (session_of pinged 0 []) in
    (x.0 ≡ ok tt) × (x.1.transport.writer.written ≡ in_style by_frames answers) × (x.1.env ≡ env)
unfolding encode Config.new to_string
serve_stdio-transcript_example =
    serve_stdio-transcript pinged by_frames sent two_texts 0 [] (λ v. (codes "{}", refl)) tt refl
      (short_frames 67108824)

abbrev reading : Connection pinged
reading = record two_lines { transport = record (two_lines.transport) { reader = typed } }

abbrev talking : Socket pinged
talking = record { sent = []; broken = []; env = two_lines.env }

pump-ws_connection_example :
    Finishes pinged by_lines reading
      (ws_connection pinged (map text two_texts) talking).sent
      (ws_connection pinged (map text two_texts) talking).env
      (pump pinged reading)
unfolding encode State.new
pump-ws_connection_example =
    pump-ws_connection pinged (λ v. (codes "{}", refl)) by_lines two_texts reading talking
      (record { framing = inl refl; desync = refl; faultless = tt; bytes_left = refl }) refl
      (short_lines 1020) refl refl refl
