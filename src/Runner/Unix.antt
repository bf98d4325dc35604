-- ===== src/Runner/Unix.antt =====
-- src/runner.rs: `serve_unix` and its connections. What the system calls on the socket's path come
-- to is a parameter. The tasks of the connections take turns, a round of `pump` at a time, on the
-- state that the service and the telemetry share.
pub mod Socket
pub mod Isolation
pub mod Answered
mod Tests
use mcp_core.Common.{
  ℕ, suc, Bool, true, false, Option, none, some, List, [], ◌∷◌, ◌++◌, ◌≡◌, ◌==◌, Text, codes,
  if◌then◌else◌,
}
use mcp_core.Config.{unix}
use mcp_core.Error.{IoError, Error, io, error_to_string, Result, ok, err}
use mcp_core.Telemetry
use mcp_core.Telemetry.{Record, line, message}
use mcp_core.Server.Session
use mcp_core.Server.Session.{Session, on_transport, World, Env}
use mcp_core.Transport.Stream.{Stream}
use mcp_core.Transport.Framed.State
use mcp_core.Transport.Framed.State.{FramedTransport, Writer}
use mcp_core.Runner.Pump.{Driver, Connection, Round, goes_on, ends, round}
use mcp_core.Runner.Serve.{Metadata, prepare_unix_socket_path}

-- What the calls on the path come to: `symlink_metadata`, and the failures of the others.
pub record SocketPath : Type 0 where
  pub symlink_metadata : Metadata
  pub remove_file : Option IoError
  pub bind : Option IoError
  pub set_permissions : Option IoError

-- What `accept` gives.
pub data Accepted : Type 0 where
  accepted : Stream → Writer → Accepted
  accept_failed : IoError → Accepted

-- What `serve_unix` does, in order.
pub data Act : Type 0 where
  remove_file bind listening : Act
  set_permissions : (mode : ℕ) → Act
  spawn : Stream → Writer → Act

abbrev pub tried : Option IoError → Result (Unit {0})
tried none = ok tt
tried (some e) = err (io e)

-- What has been returned, if anything has, and what was done.
abbrev pub Served : Type 0
Served = Option (Result (Unit {0})) × List Act

-- A `?`: what follows, after what has been done.
abbrev pub try_after : List Act → Result (Unit {0}) → Served → Served
try_after done (ok x) rest = (rest.0, done ++ rest.1)
try_after done (err e) rest = (some (err e), done)

unfoldable pub restrict_socket_perms : SocketPath → Result (Unit {0}) × List Act
restrict_socket_perms path = (tried path.set_permissions, set_permissions 0o600 ∷ [])

-- The loop: it waits when there is no further connection.
unfoldable pub accept_loop : List Accepted → Served
accept_loop [] = (none, [])
accept_loop (accepted r w ∷ xs) = let (result, acts) = accept_loop xs in (result, spawn r w ∷ acts)
accept_loop (accept_failed e ∷ xs) = (some (err (io e)), [])

abbrev pub removal : Bool → List Act
removal true = Act.remove_file ∷ []
removal false = []

unfoldable pub serve_unix : Text → SocketPath → List Accepted → Served
unfolding restrict_socket_perms accept_loop
serve_unix name path xs =
    let (prepared, removes) =
      prepare_unix_socket_path name path.symlink_metadata path.remove_file in
    let (restricted, acts) = restrict_socket_perms path in
    let (result, spawned) = accept_loop xs in
    try_after (removal removes) prepared (
      try_after (Act.bind ∷ []) (tried path.bind)
        (try_after acts restricted (result, Act.listening ∷ spawned)))

module _ (d : Driver) (max : ℕ) where
  -- The task of a connection.
  pub data Task : Type 0 where
    vacant : Task
    live : FramedTransport → Session → Task
    over : Result (Unit {0}) → FramedTransport → Session → Task

  pub record Hub : Type 0 where
    pub world : World d.core
    pub log : List Record
    pub tasks : ℕ → Task
    pub next : ℕ

  abbrev pub update : (ℕ → Task) → ℕ → Task → ℕ → Task
  update f i x j = if i == j then x else f j

  -- What a spawned task begins with.
  unfoldable pub spawned : Stream → Writer → Task
  spawned r w = live (State.new r w max) (on_transport Session.new unix)

  abbrev pub connection : FramedTransport → Session → World d.core → List Record → Connection d
  connection t s w l = record { transport = t; env = record { session = s; world = w; log = l } }

  -- A failure of `pump` is logged.
  abbrev pub say_failed : Result (Unit {0}) → List Record → List Record
  say_failed (ok x) log = log
  say_failed (err e) log =
      log
      ++ line Telemetry.Level.error (codes "connection failed") (some (message (error_to_string e)))
        ∷ []

  -- Task `i` after a round of its loop.
  unfoldable pub after_round : ℕ → Round d → Hub → Hub
  after_round i (goes_on c) h = record h {
    world = c.env.world;
    log = c.env.log;
    tasks = update h.tasks i (live c.transport c.env.session);
  }
  after_round i (ends r c) h = record h {
    world = c.env.world;
    log = say_failed r c.env.log;
    tasks = update h.tasks i (over r c.transport c.env.session);
  }

  -- A step of the server: a connection is accepted, a task runs a round, or the service's state
  -- changes on its own.
  pub data Step (h : Hub) : Hub → Type 0 where
    accepts :
        (r : Stream) (w : Writer)
        → Step h (record h { tasks = update h.tasks h.next (spawned r w); next = suc h.next })
    turn :
        (i : ℕ) {t : FramedTransport} {s : Session}
        → h.tasks i ≡ live t s
        → Step h (after_round i (round d (connection t s h.world h.log)) h)
    drifts : (x : World d.core) → Step h (record h { world = x })

  abbrev pub idle : World d.core → List Record → Hub
  idle world log = record { world = world; log = log; tasks = λ i. vacant; next = 0 }

  pub data Reach (world : World d.core) (log : List Record) : Hub → Type 0 where
    start : Reach world log (idle world log)
    later : {h h' : Hub} → Reach world log h → Step h h' → Reach world log h'
