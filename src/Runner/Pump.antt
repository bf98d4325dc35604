-- ===== src/Runner/Pump.antt =====
-- src/runner.rs: `pump`, which drives a framed transport with a session. serde_json's reader and
-- printer are parameters.
pub mod Loop
pub mod Outcome
pub mod Writes
pub mod Turn
pub mod Transcript
use mcp_core.Common.{
  ℕ, zero, suc, Option, none, some, List, [], ◌∷◌, ◌++◌, is_empty, trim, Text, codes, if◌then◌else◌,
}
use mcp_core.Json.{Value}
use mcp_core.Error.{
  Error, transport, invalid_message, connection_closed, json, parse_error, Result, ok, err,
}
use mcp_core.Service.{Serialized, done, failed}
use mcp_core.Telemetry.{TraceContext}
use mcp_core.Utf8.{Bytes}
use mcp_core.Server.Response.{Dispatch, error_response}
use mcp_core.Server.Session.{ServerCore, World, Env}
use mcp_core.Server.Trace.{handle_message}
use mcp_core.Transport.Stream.{stream_size}
use mcp_core.Transport.Framed.State.{FramedTransport, M, ◌>>=◌}
use mcp_core.Transport.Framed.Read.{read_message}
use mcp_core.Transport.Framed.Write.{write_message}

-- `serde_json::from_str`
pub data Parsed : Type 0 where
  parsed : Value → Parsed
  unparsed : Text → Parsed

-- What a connection is driven with: the server, its trace context, the JSON library, and the text
-- of a UTF-8 error.
pub record Driver : Type 1 where
  pub core : ServerCore
  pub trace : TraceContext
  pub from_str : Text → Parsed
  pub to_string : Value → Serialized Text
  pub utf8_error : Bytes → Text

module _ (d : Driver) where
  pub record Connection : Type 0 where
    pub transport : FramedTransport
    pub env : Env (World d.core)

  -- A round of the loop: it goes on, or `pump` returns.
  pub data Round : Type 0 where
    goes_on : Connection → Round
    ends : Result (Unit {0}) → Connection → Round

  unfoldable pub write_value : Value → M (Unit {0})
  write_value v t = elim (d.to_string v) [
    | failed e ↦ (err (json e), t)
    | done s ↦ write_message s t
  ]

  unfoldable pub write_response : Option Value → M (Unit {0})
  unfolding write_value
  write_response none t = (ok tt, t)
  write_response (some v) t = write_value v t

  unfoldable pub write_all_values : List Value → M (Unit {0})
  unfolding write_value
  write_all_values [] t = (ok tt, t)
  write_all_values (v ∷ vs) t = (write_value v >>= λ _. write_all_values vs) t

  -- The response, and then the notifications.
  unfoldable pub deliver : Dispatch → M (Unit {0})
  unfolding write_response write_all_values
  deliver x = do _ ← write_response x.response; write_all_values x.notifications

  -- A `?` on a write, and the end of a round.
  unfoldable pub after_write : Result (Unit {0}) × FramedTransport → Env (World d.core) → Round
  after_write (ok x, t) e = goes_on (record { transport = t; env = e })
  after_write (err x, t) e = ends (err x) (record { transport = t; env = e })

  unfoldable pub on_value : Parsed → FramedTransport → Env (World d.core) → Round
  unfolding deliver after_write
  on_value (unparsed e) t env =
      after_write (write_value (error_response none parse_error (codes "parse error: " ++ e)) t) env
  on_value (parsed v) t env =
      let (x, env') = handle_message d.core d.trace v env in after_write (deliver x t) env'

  -- The answer to a framing error is best effort.
  unfoldable pub say_why : Text → FramedTransport → FramedTransport
  say_why reason t =
      elim (d.to_string (error_response none parse_error (codes "framing error: " ++ reason))) [
        | failed e ↦ t
        | done s ↦ (write_message s t).1
      ]

  unfoldable pub on_read : Result Text × FramedTransport → Env (World d.core) → Round
  unfolding on_value say_why
  on_read (err (Error.transport connection_closed), t) env =
      ends (ok tt) (record { transport = t; env = env })
  on_read (err (Error.transport (invalid_message reason)), t) env =
      ends (err (Error.transport (invalid_message reason)))
        (record { transport = say_why reason t; env = env })
  on_read (err e, t) env = ends (err e) (record { transport = t; env = env })
  on_read (ok raw, t) env =
      if is_empty (trim raw)
      then goes_on (record { transport = t; env = env })
      else on_value (d.from_str raw) t env

  unfoldable pub round : Connection → Round
  unfolding on_read
  round c = on_read (read_message d.utf8_error c.transport) c.env

  -- The loop on fuel; `pump` gives it more than the stream has bytes.
  unfoldable pub rounds : ℕ → Connection → Result (Unit {0}) × Connection
  unfolding round
  rounds zero c = (err (json []), c)
  rounds (suc fuel) c = elim (round c) [ goes_on c' ↦ rounds fuel c' | ends r c' ↦ (r, c') ]

  unfoldable pub pump : Connection → Result (Unit {0}) × Connection
  unfolding rounds
  pump c = rounds (suc (stream_size c.transport.reader)) c
