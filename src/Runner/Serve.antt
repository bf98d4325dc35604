-- ===== src/Runner/Serve.antt =====
-- src/runner.rs and src/args.rs: the transport that `serve` chooses, and the path of a unix socket.
pub mod Doors
use mcp_core.Common.{
  ℕ, Bool, true, false, not, Option, none, some, unwrap_or, ◌++◌, Text, codes, if◌then◌else◌,
}
use mcp_core.Config.{
  TransportKind, stdio, websocket, unix, ServerConfig, allows, transport_kind_to_string,
}
use mcp_core.Error.{
  IoErrorKind, not_found, interrupted, other, IoError, Error, config, io, Result, ok, err,
}

pub record CommonServeArgs : Type 0 where
  pub transport : Option TransportKind
  pub host : Text
  pub port : ℕ
  pub socket_path : Option Text

unfoldable pub default_args : CommonServeArgs
default_args = record {
  transport = none;
  host = codes "127.0.0.1";
  port = 8080;
  socket_path = none;
}

-- The features that a binary was built with.
pub record Features : Type 0 where
  pub websocket : Bool
  pub unix : Bool

-- What `serve` goes on with: one of the servers, or an error.
pub data Door : Type 0 where
  on_stdio : Door
  on_websocket : Text → ℕ → Door
  on_unix : Text → Door
  refused : Error → Door

unfoldable pub chosen : ServerConfig → CommonServeArgs → TransportKind
chosen c args = unwrap_or args.transport c.default_transport

-- The `match kind` of `serve`.
unfoldable pub door_of : Features → CommonServeArgs → TransportKind → Door
door_of f args stdio = on_stdio
door_of f args websocket =
    if f.websocket
    then on_websocket args.host args.port
    else refused (config (codes "this binary was built without the `websocket` feature"))
door_of f args unix =
    if f.unix
    then elim args.socket_path [
      | none ↦ refused (config (codes "--socket-path is required for the unix transport"))
      | some path ↦ on_unix path
    ]
    else refused (config (codes "this binary was built without the `unix` feature"))

unfoldable pub serve : Features → ServerConfig → CommonServeArgs → Door
unfolding chosen door_of
serve f c args =
    if not (allows c.transports (chosen c args))
    then refused (
        config (
          transport_kind_to_string (chosen c args)
          ++ codes " transport is not supported by this server"))
    else door_of f args (chosen c args)

-- What `symlink_metadata` gives for a path.
pub data Metadata : Type 0 where
  socket : Metadata
  no_socket : Metadata
  unknown : IoError → Metadata

-- The socket file is removed, by what `remove_file` gives.
abbrev pub removed : Option IoError → Result (Unit {0})
removed none = ok tt
removed (some e) = err (io e)

abbrev pub missing_is_fine : IoErrorKind → IoError → Result (Unit {0})
missing_is_fine not_found e = ok tt
missing_is_fine _ e = err (io e)

-- `prepare_unix_socket_path`, and whether it calls `remove_file`.
unfoldable pub prepare_unix_socket_path :
    Text → Metadata → Option IoError → Result (Unit {0}) × Bool
prepare_unix_socket_path path socket outcome = (removed outcome, true)
prepare_unix_socket_path path no_socket outcome = (
  err (
      config
        (codes "refusing to bind unix socket: " ++ (path ++ codes " exists and is not a socket"))),
  false,
)
prepare_unix_socket_path path (unknown e) outcome = (missing_is_fine e.kind e, false)
