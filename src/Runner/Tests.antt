-- ===== src/Runner/Tests.antt =====
-- src/runner.rs on a concrete server and stream.
use mcp_core.Common.{◌++◌, ℕ, suc, true, false, none, some, [], ◌∷◌, ◌≡◌, ◌≢◌, refl, Text, codes}
use mcp_core.Json.{object, end, field, string}
use mcp_core.Config
use mcp_core.Config.{websocket, stdio, allows}
use mcp_core.Error.{transport, ok}
use mcp_core.Service.{McpService, ok, text_reply, done}
use mcp_core.Telemetry.{TraceContext, parent}
use mcp_core.Server.Session
use mcp_core.Transport.Stream.{unread}
use mcp_core.Transport.Framed.State
use mcp_core.Runner.Pump.{Driver, Connection, parsed}
use mcp_core.Runner.Websocket.{text, close, other, Socket, ws_connection}
use mcp_core.Runner.Websocket.Transcript.{transcript, ws_connection-transcript}
use mcp_core.Runner.Websocket.Wire.{AllPrinted, ws_connection-AllPrinted}
use mcp_core.Runner.Serve.{Features, default_args, serve}
use mcp_core.Runner.Serve.Doors.{
  opened, add_websocket, remove_websocket, default_transport, built, serve-websocket,
}

abbrev pub counter : McpService
counter = record {
  World = ℕ;
  tools = λ calls. [];
  call_tool = λ calls name arguments. (ok (text_reply name), suc calls);
  shutdown = λ calls. 0;
}

abbrev pub untraced : TraceContext
untraced = record {
  TraceParent = Text;
  extract_traceparent = λ header. parent header;
  trace_id = λ p. p;
  span_id = λ p. p;
  sampled = λ p. true;
  otel = false;
  set_parent_error = none;
}

-- Every text is read as a ping, and every answer printed as one text.
abbrev pub pinged : Driver
pinged = record {
  core = record { config = Config.new (codes "demo") (codes "1.0"); service = counter };
  trace = untraced;
  from_str = λ s.
      parsed (
        object
          (field (codes "id") (string s) (field (codes "method") (string (codes "ping")) end)));
  to_string = λ v. done (codes "{}");
  utf8_error = λ b. codes "?";
}

abbrev pub two_lines : Connection pinged
two_lines = record {
  transport =
      State.new (unread (codes "one\n\ntwo") []) (record { written = []; events = [] }) 1024;
  env = record { session = Session.new; world = 0; log = [] };
}

abbrev pub all_features : Features
all_features = record { websocket = true; unix = true }

serve-websocket_example :
    opened (
      serve all_features
        (built
          (add_websocket ∷ default_transport websocket ∷ remove_websocket ∷ [])
          (Config.new (codes "demo") (codes "1.0")))
        (record default_args { transport = some websocket }))
    ≢ some websocket
serve-websocket_example =
    serve-websocket all_features (codes "demo") (codes "1.0")
      (add_websocket ∷ default_transport websocket ∷ remove_websocket ∷ [])
      (record default_args { transport = some websocket }) refl

abbrev pinging : Socket pinged
pinging = record { sent = []; broken = []; env = two_lines.env }

ws_connection-transcript_example :
    ((ws_connection pinged
        (text (codes "one") ∷ other ∷ text (codes "two") ∷ close ∷ [])
        pinging).sent
      ≡ []
        ++ (transcript pinged
            (text (codes "one") ∷ other ∷ text (codes "two") ∷ close ∷ [])
            two_lines.env).0)
    × ((ws_connection pinged
          (text (codes "one") ∷ other ∷ text (codes "two") ∷ close ∷ [])
          pinging).env
        ≡ (transcript pinged
            (text (codes "one") ∷ other ∷ text (codes "two") ∷ close ∷ [])
            two_lines.env).1)
ws_connection-transcript_example =
    ws_connection-transcript pinged (text (codes "one") ∷ other ∷ text (codes "two") ∷ close ∷ [])
      pinging refl

-- The second send fails.
abbrev failing : Socket pinged
failing = record pinging { broken = false ∷ true ∷ [] }

ws_connection-AllPrinted_example :
    AllPrinted pinged
      (ws_connection pinged (text (codes "one") ∷ text (codes "two") ∷ []) failing).sent
ws_connection-AllPrinted_example =
    ws_connection-AllPrinted pinged (text (codes "one") ∷ text (codes "two") ∷ []) failing tt
