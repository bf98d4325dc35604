-- ===== src/Runner/Stdio.antt =====
-- src/runner.rs: `serve_stdio`, the server of a single client. Its streams are standard input and output.
mod Tests
use mcp_core.Common.{List, [], ◌≡◌, refl, inl, map, Text}
use mcp_core.Config.{stdio}
use mcp_core.Error.{Result, ok}
use mcp_core.Json.{Value}
use mcp_core.Service.{done}
use mcp_core.Telemetry.{Record}
use mcp_core.Server.Session.{World, Env, on_transport}
use mcp_core.Server.Session
use mcp_core.Transport.Stream.{Stream}
use mcp_core.Transport.Stream.Lines.{flatten, IsFaultless}
use mcp_core.Transport.Framed.State
use mcp_core.Transport.Framed.State.{Writer}
use mcp_core.Transport.Framed.Style.{Style, in_style, AllSuit}
use mcp_core.Runner.Pump.{Driver, Connection, pump}
use mcp_core.Runner.Pump.Transcript.{pump-transcript}
use mcp_core.Runner.Websocket.{text}
use mcp_core.Runner.Websocket.Transcript.{transcript}

module _ (d : Driver) where
  abbrev pub session_of : World d.core → List Record → Env (World d.core)
  session_of world log = record {
    session = on_transport Session.new stdio;
    world = world;
    log = log;
  }

  unfoldable pub serve_stdio :
      Stream → Writer → World d.core → List Record → Result (Unit {0}) × Connection d
  serve_stdio stdin stdout world log = pump d (record {
    transport = State.stdio stdin stdout d.core.config.max_content_length;
    env = session_of world log;
  })

  -- A client sends messages in one of the two framings, as lines or as frames with a Content-Length
  -- header, to a server whose output does not fail and whose values can be printed. It gets on
  -- standard output, in its own framing, the answers of one session to them all, in order: to a text
  -- the response and then the notifications, to a text that is no JSON a parse error. Then the server
  -- returns success, with the service as these messages leave it. The bytes may come in any chunks.
  -- Each message is to be Unicode and not blank; a line is to have no carriage return at its end, to be
  -- no Content-Length header, and to be shorter than the configured length; a frame is to be of at most
  -- that length, and to fit in 64 bits, and its header is to be within it too.
  pub serve_stdio-transcript :
      (sort : Style) (stdin : Stream) (ms : List Text) (world : World d.core) (log : List Record)
      → ((v : Value) → (s : Text) × (d.to_string v ≡ done s))
      → IsFaultless stdin
      → flatten stdin ≡ in_style sort ms
      → AllSuit sort d.core.config.max_content_length ms
      → let x = serve_stdio stdin (record { written = []; events = [] }) world log in
        let (answers, env) = transcript d (map text ms) (session_of world log) in
        (x.0 ≡ ok tt) × (x.1.transport.writer.written ≡ in_style sort answers) × (x.1.env ≡ env)
  unfolding serve_stdio State.stdio State.new
  serve_stdio-transcript sort stdin ms world log prints f e l =
      pump-transcript d prints sort ms _
        (record { framing = inl refl; desync = refl; faultless = f; bytes_left = e }) refl l
