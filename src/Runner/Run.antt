-- ===== src/Runner/Run.antt =====
-- src/runner.rs: `run`, the entry point that owns the process. A future is the polls that it stays
-- pending for and what it gives then. clap, the telemetry and the service's constructor are
-- parameters.
pub mod Race
pub mod Ends
pub mod Serves
mod Tests
use mcp_core.Common.{Bool, zero, suc, Option, none, some, List, [], ◌∷◌, ◌++◌, ℕ, Text, codes}
use mcp_core.Config.{ServerConfig}
use mcp_core.Error.{Error, config, telemetry, Result, ok, err}
use mcp_core.Service.{McpService, Serialized}
use mcp_core.Telemetry.{TraceContext}
use mcp_core.Json.{Value}
use mcp_core.Utf8.{Bytes}
use mcp_core.Auth.{Libraries}
use mcp_core.Transport.Stream.{Stream}
use mcp_core.Transport.Framed.State.{Writer}
use mcp_core.Runner.Pump.{Parsed, Driver, Connection}
use mcp_core.Runner.Stdio.{serve_stdio}
use mcp_core.Runner.Unix.{SocketPath, Accepted, serve_unix}
use mcp_core.Runner.Upgrade.{Listener, serve_websocket}
use mcp_core.Server.Session.{ServerCore}
use mcp_core.Shutdown.{
  StopSignal, SignalLibrary, Happening, arrives, polls, ProcessEvent, subscribed, listening,
  flushed, exited, StopSignals, install, Recv, recv, poll, receive, flush_and_exit,
}
use mcp_core.Runner.Serve.{
  CommonServeArgs, Features, Door, on_stdio, on_websocket, on_unix, refused, serve,
}

pub data Future {ℓ} (A : Type ℓ) : Type ℓ where
  now : A → Future A
  later : Future A → Future A
  never : Future A

-- `.await` in an `async` block: what follows goes on in the poll that ends the wait.
abbrev pub await {ℓ κ} : {A : Type ℓ} {B : Type κ} → Future A → (A → Future B) → Future B
await (now x) f = f x
await (later x) f = later (await x f)
await never f = never

-- What `get_matches` and `from_arg_matches` make of the command line: clap ends the process itself
-- for `--help`, `--version` and a bad argument.
pub data Matches (L : Type 0) : Type 0 where
  exits : ℕ → Matches L
  mismatch : Text → Matches L
  matched : CommonServeArgs → L → Matches L

-- What a server returns, and what it has by then written to standard output.
abbrev pub Exit : Type 0
Exit = Result (Unit {0}) × Text

-- How `run` goes: it is still at it, it returns, or it has ended the process.
pub data Outcome : Type 0 where
  running : Outcome
  returned : Exit → Outcome
  ended : Outcome

-- A service, with the state that it begins with.
pub record Built : Type 1 where
  pub service : McpService
  pub world : service.World

-- What the servers meet: the libraries and features that they use, what their streams, sockets and
-- listeners come to, and how many polls it takes until a server that returns does so.
pub record Surroundings : Type 1 where
  pub features : Features
  pub auth_feature : Bool
  pub trace : TraceContext
  pub from_str : Text → Parsed
  pub to_string : Value → Serialized Text
  pub utf8_error : Bytes → Text
  pub stdin : Stream
  pub stdout : Writer
  pub socket : SocketPath
  pub accepts : List Accepted
  pub auth : Libraries
  pub listener : Listener
  pub polls_taken : ℕ

-- What a process is started with.
pub record Process (L : Type 0) : Type 1 where
  pub get_matches : (name version : Text) → Matches L
  -- `telemetry::init`, and why it fails if it does
  pub init : (name : Text) → Option Text
  pub tokio : SignalLibrary
  pub around : Surroundings

abbrev pub after_polls : ℕ → Option Exit → Future Exit
after_polls n none = never
after_polls zero (some r) = now r
after_polls (suc n) (some r) = later (after_polls n (some r))

abbrev pub driver : Surroundings → ServerCore → Driver
driver a core = record {
  core = core;
  trace = a.trace;
  from_str = a.from_str;
  to_string = a.to_string;
  utf8_error = a.utf8_error;
}

-- A server that writes nothing to standard output.
abbrev pub silently : Option (Result (Unit {0})) → Option Exit
silently none = none
silently (some r) = some (r, [])

-- What `serve_stdio` returns, and what it has written.
abbrev pub aloud : {c : Driver} → Result (Unit {0}) × Connection c → Exit
aloud (r, c) = (r, c.transport.writer.written)

-- What the server that a door opens returns, if it does.
unfoldable pub serving : Surroundings → (c : ServerConfig) → Built → Door → Option Exit
serving a c b on_stdio = some (
    aloud (
      serve_stdio (driver a (record { config = c; service = b.service })) a.stdin a.stdout b.world
        []))
serving a c b (on_websocket host port) =
    silently (serve_websocket a.auth a.auth_feature c host port a.listener).result
serving a c b (on_unix path) = silently (serve_unix path a.socket a.accepts).0
serving a c b (refused e) = some (err e, [])

-- A refusal comes at once.
unfoldable pub go_in : Surroundings → ServerConfig → Built → Door → Future Exit
unfolding serving
go_in a c b (refused e) = now (err e, [])
go_in a c b door = after_polls a.polls_taken (serving a c b door)

abbrev pub Trace : Type 0
Trace = Outcome × List ProcessEvent

module _ {L : Type 0} (p : Process L) where
  open p use {tokio}

  -- The `async` block of `run`.
  unfoldable pub served : ServerConfig → CommonServeArgs → Future (Result Built) → Future Exit
  unfolding go_in
  served c common building = await building λ r. elim r [
    | err e ↦ now (err e, [])
    | ok built ↦ go_in p.around c built (serve p.around.features c common)
  ]

  -- `stop.recv()` has been polled; the second argument goes on.
  abbrev pub on_stop :
      List ProcessEvent → Option StopSignal × Recv tokio → (Recv tokio → Trace) → Trace
  on_stop trace (some g, r) f = (ended, flush_and_exit g trace)
  on_stop trace (none, r) f = f r

  -- The `select!` of `run`: the server is polled first, and what it returns drops the telemetry.
  unfoldable pub select : List ProcessEvent → List Happening → Future Exit → Recv tokio → Trace
  select trace [] work r = (running, trace)
  select trace (arrives g ∷ hs) work r = select trace hs work (receive tokio g r)
  select trace (polls first ∷ hs) (now x) r = (returned x, trace ++ flushed ∷ [])
  select trace (polls first ∷ hs) (later work) r =
      on_stop trace (poll tokio first r) (select trace hs work)
  select trace (polls first ∷ hs) never r =
      on_stop trace (poll tokio first r) (select trace hs never)

  -- `run` from the installation of the handlers on.
  unfoldable pub after_install : Result (StopSignals tokio) → Future Exit → List Happening → Trace
  unfolding select
  after_install (err e) work hs = (returned (err e, []), subscribed ∷ flushed ∷ [])
  after_install (ok stop) work hs = select (subscribed ∷ listening ∷ []) hs work (recv tokio stop)

  unfoldable pub after_init : Option Text → Future Exit → List Happening → Trace
  unfolding after_install
  after_init (some why) work hs = (returned (err (telemetry why), []), [])
  after_init none work hs = after_install (install tokio) work hs

  unfoldable pub after_matches :
      ServerConfig → (L → Future (Result Built)) → Matches L → List Happening → Trace
  unfolding served after_init
  after_matches c build (exits n) hs = (ended, exited n ∷ [])
  after_matches c build (mismatch e) hs =
      (returned (err (config (codes "argument parsing: " ++ e)), []), [])
  after_matches c build (matched common local) hs =
      after_init (p.init c.name) (served c common (build local)) hs

  unfoldable pub run : ServerConfig → (L → Future (Result Built)) → List Happening → Trace
  unfolding after_matches
  run c build hs = after_matches c build (p.get_matches c.name c.version) hs

-- A server with no arguments of its own.
unfoldable pub run_simple :
    Process (Unit {0}) → ServerConfig → Future (Result Built) → List Happening → Trace
unfolding run
run_simple p c building hs = run p c (λ no_args. building) hs
