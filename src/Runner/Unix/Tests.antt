-- ===== src/Runner/Unix/Tests.antt =====
-- `serve_unix` of src/runner.rs with two connections.
use mcp_core.Common.{ap, ◌++◌, inl, arith, trim, Text}
use mcp_core.Service.{done}
use mcp_core.Utf8.{encode}
use mcp_core.Transport.Stream.{newline_at}
use mcp_core.Transport.Stream.Lines.{flatten}
use mcp_core.Transport.Header.{trim_crlf, content_length_value}
use mcp_core.Transport.Framed.Style.{by_lines, Suits, in_style}
use mcp_core.Runner.Pump.Turn.{Turn, round-Turn}
use mcp_core.Runner.Websocket.Transcript.{answered}
use mcp_core.Runner.Unix.Answered.{Conversation, Reach-Conversation}
use mcp_core.Common.{some, none, List, [], ◌∷◌, ◌≡◌, refl, false, codes}
use mcp_core.Config.{unix}
use mcp_core.Error.{other, IoError, ok}
use mcp_core.Json.{Value}
use mcp_core.Server.Session
use mcp_core.Server.Session.{Session, on_transport}
use mcp_core.Transport.Stream.{Stream, unread}
use mcp_core.Transport.Framed.State
use mcp_core.Transport.Framed.State.{FramedTransport, Writer}
use mcp_core.Runner.Pump.{Round, goes_on, ends, round}
use mcp_core.Runner.Serve.{socket, prepare_unix_socket_path}
use mcp_core.Runner.Tests.{pinged}
use mcp_core.Runner.Unix.{
  vacant, live, update, SocketPath, serve_unix, Reach, start, later, accepts, turn, Hub,
  after_round, spawned, connection,
}
use mcp_core.Runner.Unix.Socket.{unbound, Keeps, arrivals, Serves, serve_unix-Keeps}
use mcp_core.Runner.Unix.Isolation.{origin, heard_by, Alone, Reach-Alone}
use mcp_core.Runner.Opening.{flag_after}

abbrev stale : SocketPath
stale = record {
  symlink_metadata = socket;
  remove_file = none;
  bind = none;
  set_permissions = none;
}

abbrev blank : Writer
blank = record { written = []; events = [] }

-- Two clients connect, and then `accept` fails.
abbrev clients : List (Stream × Writer)
clients = (unread (codes "hi\n") [], blank) ∷ ([], blank) ∷ []

abbrev no_files : IoError
no_files = record { kind = other; text = codes "too many open files" }

serve_unix-Keeps_example :
    Keeps unbound stale
      (serve_unix (codes "/run/mcp.sock") stale (arrivals clients (some (no_files, [])))).1
    × Serves clients
        (some (no_files, []))
        (ok tt)
        (serve_unix (codes "/run/mcp.sock") stale (arrivals clients (some (no_files, []))))
unfolding prepare_unix_socket_path
serve_unix-Keeps_example =
    serve_unix-Keeps (codes "/run/mcp.sock") stale clients (some (no_files, []))

abbrev said : Stream
said = unread (codes "hi\n") []

abbrev client : FramedTransport
client = State.new said blank 1024

abbrev session : Session
session = on_transport Session.new unix

-- Two connections have been accepted.
abbrev both : Hub pinged 1024
both = record {
  world = 0;
  log = [];
  tasks =
      update pinged 1024 (update pinged 1024 (λ i. vacant) 0 (live client session)) 1
        (live client session);
  next = 2;
}

both_reached : Reach pinged 1024 0 [] both
unfolding spawned
both_reached = later (later start (accepts said blank)) (accepts said blank)

-- Then the first is served a round.
abbrev served : Hub pinged 1024
served = after_round pinged 1024 0 (round pinged (connection pinged 1024 client session 0 [])) both

served_reached : Reach pinged 1024 0 [] served
served_reached = later both_reached (turn 0 refl)

second_task : (r : Round pinged) → (after_round pinged 1024 0 r both).tasks 1 ≡ live client session
unfolding after_round
second_task (goes_on c) = refl
second_task (ends x c) = refl

Reach-Alone_example :
    (r : Stream) × (w : Writer) × (origin pinged 1024 served_reached 1 ≡ some (r, w))
    × Alone pinged 1024 r w (heard_by pinged 1024 served_reached 1) client session
    × (session.initialized ≡ flag_after pinged (heard_by pinged 1024 served_reached 1) false)
Reach-Alone_example =
    Reach-Alone pinged 1024 served_reached 1 client session
      (second_task (round pinged (connection pinged 1024 client session 0 [])))

prints : (v : Value) → (s : Text) × (pinged.to_string v ≡ done s)
prints v = (codes "{}", refl)

hi_Suits : Suits by_lines 1024 (codes "hi")
unfolding encode newline_at trim_crlf content_length_value trim
hi_Suits = record {
  is_text = ground arith;
  one_line = refl;
  trimmed = refl;
  not_blank = refl;
  no_header = refl;
  short = omega arith;
}

-- The first client has been answered once.
greeted :
    Turn pinged prints by_lines
      (connection pinged 1024 client session 0 [])
      []
      (answered pinged
        (pinged.from_str (codes "hi"))
        (record { session = session; world = 0; log = [] })).0
      (answered pinged
        (pinged.from_str (codes "hi"))
        (record { session = session; world = 0; log = [] })).1
unfolding State.new encode
greeted =
    round-Turn pinged prints by_lines (connection pinged 1024 client session 0 []) (codes "hi") []
      (record { framing = inl refl; desync = refl; faultless = tt; bytes_left = refl }) refl
      hi_Suits

first_task : served.tasks 0 ≡ live greeted.after.transport greeted.after.env.session
unfolding after_round
first_task = ap (λ r. (after_round pinged 1024 0 r both).tasks 0) greeted.went_on

Reach-Conversation_example :
    (heard coming answers : List Text) × (codes "hi" ∷ [] ≡ heard ++ coming)
    × (flatten greeted.after.transport.reader ≡ in_style by_lines coming)
    × (greeted.after.transport.writer.written ≡ in_style by_lines answers)
    × Conversation pinged heard answers greeted.after.env.session
unfolding encode served_reached both_reached
Reach-Conversation_example =
    Reach-Conversation pinged prints by_lines 1024 served_reached 0 greeted.after.transport
      greeted.after.env.session (codes "hi" ∷ []) said blank first_task refl refl tt refl
      (hi_Suits, tt)
