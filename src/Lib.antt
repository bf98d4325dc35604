-- ===== src/Lib.antt =====
-- mcp-core: the building blocks of a Model Context Protocol server.
--
-- A server implements `McpService` (src/service.rs) and hands it, with a `ServerConfig`
-- (src/config.rs), to the core. Bytes come in through a `FramedTransport` (src/transport.rs), which
-- makes messages of them; a `Session` (src/server.rs) dispatches each message, calls the service and
-- gives back a response and notifications. The loop between the two is `pump` (src/runner.rs), and
-- `serve` there chooses the transport: `serve_stdio`, `serve_unix`, which accepts any number of
-- connections, or `serve_websocket`, which opens a websocket to a caller that src/auth.rs lets in.
-- `run` owns the process: it races the server against the stop signals of src/shutdown.rs.
-- Errors are those of src/error.rs.
--
--   Common         tests on numbers, lists and text, shared by all
--   Json           serde_json's values
--   Utf8, Decimal  the standard library's `from_utf8`, `to_string` and `parse::<usize>`
--   Error          src/error.rs
--   Config         src/config.rs
--   Service        src/service.rs: the trait is a record, whose `World` is what an implementor keeps
--   Telemetry      what src/server.rs records; the trace context library is the record `TraceContext`
--   Server         src/server.rs: Initialize (`handle_initialize`), Response (`finish` and the
--                  responses), Session (`dispatch`, `route`, `handle_tools_call`), Trace
--                  (`handle_message`)
--   Transport      src/transport.rs: Stream (the reader), Header (header lines and lengths),
--                  Framed/State (the struct), Framed/Read and Framed/Write (its methods)
--   Auth           src/auth.rs: `extract_bearer`, `check_claim_bindings`, the authenticator and the
--                  verifiers; the libraries that it calls are the record `Libraries`
--   Shutdown       src/shutdown.rs: `StopSignals`, `recv` and `flush_and_exit`; tokio's signal streams
--                  are the record `SignalLibrary`, and what tokio documents of them `SignalLaws`;
--                  of streams that may close only `ArrivalLaws` are asked
--   Runner         src/runner.rs: Pump (`pump`), Stdio (`serve_stdio`), Unix (`serve_unix` and its
--                  connections), Websocket (`ws_connection`, and in Hub those of one server
--                  together), Upgrade (`serve_websocket`, `ws_handler`), Serve (`serve`,
--                  `prepare_unix_socket_path`, and the arguments of src/args.rs), Run (`run`,
--                  `run_simple`)
--
-- An object's members are a list of fields; `insert` replaces or appends. A method that takes
-- `&mut self` returns its result and the state after it. The telemetry of a message is a log in
-- the session's environment. A byte stream is the list of what its reads will deliver, chunks of at
-- least one byte and failures. A 64-bit machine is assumed: `usize` ends at 2^64 - 1. A
-- transport's `max_len` is taken to be less than that, since at 2^64 - 1 itself the budget that
-- `read_line` computes overflows.
--
-- The loop of `read_auto` runs on fuel, one unit more than the stream has bytes and failures; each
-- round but the last consumes a line of at least one byte, so the fuel does not run out.
-- `pump` runs on the same fuel: a message that is read takes at least a byte. All other loops are
-- structural.
--
-- A future is the polls that it stays pending for and what it gives then; `recv` is driven by a
-- list of happenings, arrivals of signals and polls, and a poll says which branch of the `select!`
-- goes first. The connections of a unix socket take turns: a step is an accepted connection, a
-- round of one task's `pump`, or a change of the service's state of its own, which stands for what
-- calls do to each other. So do the websockets, a message at a time, and the requests for new ones,
-- each of which is checked at once, by a client of the key set whose own state is carried from one
-- check to the next. What system calls, listeners, clap and the telemetry come to are parameters, and
-- so is the number of polls until a server that `run` drives returns, if it does; with what that
-- returns comes what it has written to standard output.
--
-- Not modelled: the parsing of arguments, which is clap's; src/telemetry.rs and src/lib.rs, which
-- re-export; durations; the text of a UTF-8 error, which is a parameter; the interleaving of a
-- service's own calls within a message, and of checks that wait for the same key set; the
-- repository's own tests, which are the rest of each of its files; a constructor or a `Display`
-- that only passes its argument on.
mod Common
pub mod Json
pub mod Error
pub mod Config
pub mod Service
pub mod Telemetry
pub mod Utf8
pub mod Decimal
pub mod Server
pub mod Transport
pub mod Auth
pub mod Runner
pub mod Shutdown
