-- ===== src/Runner/Websocket/Hub.antt =====
-- src/runner.rs: the websockets of one server, from the request on. They take turns, a message at a
-- time, on the state that the service and the telemetry share; a request is checked when it comes.
pub mod Flag
pub mod Isolation
mod Tests
use mcp_core.Common.{
  ℕ, suc, Bool, true, false, Option, none, some, List, [], Text, ◌≡◌, ◌==◌, if◌then◌else◌,
}
use mcp_core.Config.{websocket}
use mcp_core.Telemetry.{Record}
use mcp_core.Auth.{HeaderValue, Libraries, Kind}
use mcp_core.Server.Session
use mcp_core.Server.Session.{Session, on_transport, World}
use mcp_core.Runner.Pump.{Driver}
use mcp_core.Runner.Upgrade.{Reply, unauthorized, upgrade, WsState, ws_handler}
use mcp_core.Runner.Websocket.{
  Incoming, text, close, failure, other, Socket, on_text, ws_connection,
}

module _ (d : Driver) where
  -- The body of the loop of `ws_connection`: whether the connection ends, and the socket.
  unfoldable pub on_incoming : Incoming → Socket d → Bool × Socket d
  on_incoming (text s) w = on_text d (d.from_str s) w
  on_incoming close w = (true, w)
  on_incoming failure w = (true, w)
  on_incoming other w = (false, w)

  -- What a request has come to: a refusal, or a websocket, with the request's header, what it has
  -- sent, which of its next sends fail, and its session.
  pub data Peer : Type 0 where
    vacant : Peer
    turned_away : Text → Peer
    live : Option HeaderValue → List Text → List Bool → Session → Peer
    over : List Text → Session → Peer

  -- The answer to a request, whose websocket begins with a session of its own.
  unfoldable pub greeted : Option HeaderValue → List Bool → Reply → Peer
  greeted header broken (unauthorized e) = turned_away e
  greeted header broken (upgrade max) = live header [] broken (on_transport Session.new websocket)

  abbrev pub socket_of : List Text → List Bool → Session → World d.core → List Record → Socket d
  socket_of sent broken s w l = record {
    sent = sent;
    broken = broken;
    env = record { session = s; world = w; log = l };
  }

  abbrev pub update : (ℕ → Peer) → ℕ → Peer → ℕ → Peer
  update f i x j = if i == j then x else f j

  -- A peer after a message.
  unfoldable pub went_on : Option HeaderValue → Bool × Socket d → Peer
  went_on header (true, w) = over w.sent w.env.session
  went_on header (false, w) = live header w.sent w.broken w.env.session

  module _ (lib : Libraries) where
    pub record Hub : Type 0 where
      pub state : WsState lib
      pub world : World d.core
      pub log : List Record
      pub peers : ℕ → Peer
      pub next : ℕ

    abbrev pub asked : Option HeaderValue → List Bool → Reply × WsState lib → Hub → Hub
    asked header broken (reply, state) h = record h {
      state = state;
      peers = update h.peers h.next (greeted header broken reply);
      next = suc h.next;
    }

    abbrev pub heard_by : ℕ → Option HeaderValue → Bool × Socket d → Hub → Hub
    heard_by i header x h = record h {
      world = x.1.env.world;
      log = x.1.env.log;
      peers = update h.peers i (went_on header x);
    }

    -- A step of the server: a request comes, whose websocket, if it gets one, will fail in these
    -- sends; something arrives at a websocket; or the service's state changes on its own.
    pub data Step (h : Hub) : Hub → Type 0 where
      asks :
          (header : Option HeaderValue) (broken : List Bool)
          → Step h (asked header broken (ws_handler lib h.state header) h)
      hears :
          (i : ℕ) (m : Incoming) {header : Option HeaderValue} {sent : List Text}
          {broken : List Bool} {s : Session}
          → h.peers i ≡ live header sent broken s
          → Step h (heard_by i header (on_incoming m (socket_of sent broken s h.world h.log)) h)
      drifts : (x : World d.core) → Step h (record h { world = x })

    abbrev pub idle : ℕ → Kind lib → World d.core → List Record → Hub
    idle max k world log = record {
      state = record { max_content_length = max; auth = some k };
      world = world;
      log = log;
      peers = λ i. vacant;
      next = 0;
    }

    pub data Reach (max : ℕ) (k : Kind lib) (world : World d.core) (log : List Record)
        : Hub → Type 0 where
      start : Reach max k world log (idle max k world log)
      later : {h h' : Hub} → Reach max k world log h → Step h h' → Reach max k world log h'
