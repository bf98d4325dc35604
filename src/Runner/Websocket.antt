-- ===== src/Runner/Websocket.antt =====
-- src/runner.rs: `ws_connection`, which drives a websocket with a session. The socket is what it
-- will receive, and what its sends will come to.
pub mod Transcript
pub mod Wire
pub mod Hub
use mcp_core.Common.{
  Bool, true, false, Option, none, some, List, [], ◌∷◌, ◌++◌, Text, codes, if◌then◌else◌,
}
use mcp_core.Json.{Value}
use mcp_core.Error.{parse_error}
use mcp_core.Service.{done, failed}
use mcp_core.Server.Response.{Dispatch, error_response}
use mcp_core.Server.Session.{World, Env}
use mcp_core.Server.Trace.{handle_message}
use mcp_core.Runner.Pump.{Parsed, parsed, unparsed, Driver}

-- `Option<Result<Message, _>>`; the end of the list is `None`.
pub data Incoming : Type 0 where
  text : Text → Incoming
  close failure other : Incoming

module _ (d : Driver) where
  pub record Socket : Type 0 where
    pub sent : List Text
    -- whether the next sends fail; none fails after the last of these
    pub broken : List Bool
    pub env : Env (World d.core)

  -- `sender.send`, and whether it failed
  unfoldable pub send : Text → Socket → Bool × Socket
  send s w = elim w.broken [
    | [] ↦ (false, record w { sent = w.sent ++ s ∷ [] })
    | b ∷ bs ↦
        if b
        then (true, record w { broken = bs })
        else (false, record w { sent = w.sent ++ s ∷ []; broken = bs })
  ]

  -- A value that cannot be printed is not sent, which is no failure.
  unfoldable pub send_value : Value → Socket → Bool × Socket
  unfolding send
  send_value v w = elim (d.to_string v) [ failed e ↦ (false, w) | done s ↦ send s w ]

  -- The `for` loop: a failed send breaks out of this loop alone.
  unfoldable pub send_notifications : List Value → Socket → Socket
  unfolding send_value
  send_notifications [] w = w
  send_notifications (v ∷ vs) w =
      let (lost, w') = send_value v w in elim lost [ true ↦ w' | false ↦ send_notifications vs w' ]

  unfoldable pub send_response : Option Value → Socket → Bool × Socket
  unfolding send_value
  send_response none w = (false, w)
  send_response (some v) w = send_value v w

  -- A text message: whether the connection ends, and the socket.
  unfoldable pub on_text : Parsed → Socket → Bool × Socket
  unfolding send_response send_notifications
  on_text (unparsed e) w =
      (false, (send_value (error_response none parse_error (codes "parse error: " ++ e)) w).1)
  on_text (parsed v) w =
      let (x, env) = handle_message d.core d.trace v w.env in
      let (lost, w') = send_response x.response (record w { env = env }) in
      elim lost [ true ↦ (true, w') | false ↦ (false, send_notifications x.notifications w') ]

  unfoldable pub ws_connection : List Incoming → Socket → Socket
  unfolding on_text
  ws_connection [] w = w
  ws_connection (text s ∷ ms) w =
      let (ended, w') = on_text (d.from_str s) w in
      elim ended [ true ↦ w' | false ↦ ws_connection ms w' ]
  ws_connection (close ∷ ms) w = w
  ws_connection (failure ∷ ms) w = w
  ws_connection (other ∷ ms) w = ws_connection ms w
