-- ===== src/Runner/Pump/Outcome.antt =====
-- How `pump` in src/runner.rs returns.
use mcp_core.Common.{none, ◌++◌, codes, if◌then◌else◌, ◌≡◌, ◌≢◌, is_empty, trim, Text}
use mcp_core.Error.{Error, transport, connection_closed, parse_error, Result, ok, err}
use mcp_core.Server.Response.{error_response}
use mcp_core.Server.Trace.{handle_message}
use mcp_core.Server.Session.{World, Env}
use mcp_core.Transport.Framed.State.{FramedTransport}
use mcp_core.Transport.Framed.Read.{read_message}
use mcp_core.Runner.Pump.{
  Parsed, parsed, unparsed, Driver, Connection, Round, goes_on, ends, write_value, deliver, round,
}

module _ (d : Driver) where
  -- What the writes of a round give for what was read: nothing is written where the read failed,
  -- other than the answer to a framing error, which is best effort, and for a blank text.
  abbrev writes_for : Parsed → FramedTransport → Env (World d.core) → Result (Unit {0})
  writes_for (unparsed e) t env =
      (write_value d (error_response none parse_error (codes "parse error: " ++ e)) t).0
  writes_for (parsed v) t env = (deliver d (handle_message d.core d.trace v env).0 t).0

  abbrev writes_after : Result Text × FramedTransport → Env (World d.core) → Result (Unit {0})
  writes_after (err e, t) env = ok tt
  writes_after (ok raw, t) env =
      if is_empty (trim raw) then ok tt else writes_for (d.from_str raw) t env

  abbrev pub writes : Connection d → Result (Unit {0})
  writes c = writes_after (read_message d.utf8_error c.transport) c.env

  -- The connections that the rounds of the loop go through: each round goes on, and all its writes
  -- have succeeded.
  pub data Follows : Connection d → Connection d → Type 0 where
    here : {c : Connection d} → Follows c c
    next :
        {c c' e : Connection d}
        → round d c ≡ goes_on c'
        → writes c ≡ ok tt
        → Follows c' e
        → Follows c e

  -- A round goes on only if its writes succeed, and returns the failure of its writes.
  abbrev Tells : Result Text → Result (Unit {0}) → Round d → Type 0
  Tells x w (goes_on c) = w ≡ ok tt
  Tells (ok raw) w (ends r c) = (r ≡ w) × (w ≢ ok tt)
  Tells (err e) w (ends r c) = Unit

  -- How a round ends, if it does, after what it read: with success exactly at the end of the
  -- stream.
  abbrev EndsBy : Result Text → Round d → Type 0
  EndsBy x (goes_on c) = Unit
  EndsBy x (ends (ok u) c) = x ≡ err (transport connection_closed)
  EndsBy x (ends (err e) c) = x ≢ err (transport connection_closed)

  abbrev pub read_by : Connection d → Result Text
  read_by c = (read_message d.utf8_error c.transport).0

  -- The last round has failed to read, or it returns the failure of its writes.
  abbrev pub Failed : Result Text → Result (Unit {0}) → Result (Unit {0}) → Type 0
  Failed (ok raw) w r = (r ≡ w) × (w ≢ ok tt)
  Failed (err e) w r = Unit

  -- The connection that `pump` returns by, and how.
  pub record Ending (c : Connection d) (x : Result (Unit {0}) × Connection d) : Type 0 where
    pub last : Connection d
    pub follows : Follows c last
    pub ended : round d last ≡ ends x.0 x.1
