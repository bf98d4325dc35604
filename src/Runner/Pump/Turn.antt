-- ===== src/Runner/Pump/Turn.antt =====
-- A round of `pump` of src/runner.rs that reads a message of a client.
use mcp_core.Transport.Framed.Style.{
  Suits, framed, Style, Suits-not_blank, in_style, Awaits, Awaits-SameReading,
}
use mcp_core.Transport.Framed.Settle.{read_message_end}
use mcp_core.Transport.Framed.Either.{read_message-framed}
use mcp_core.Runner.Pump.Writes.{IsOpen, Writes, write_value-Writes, deliver-Writes}
use mcp_core.Common.{false, ap, ◌∙◌, List, [], ◌++◌, ◌≡◌, refl, is_empty, trim, Text}
use mcp_core.Json.{Value}
use mcp_core.Error.{Result, ok, err}
use mcp_core.Service.{done}
use mcp_core.Utf8.{Bytes}
use mcp_core.Server.Session.{World, Env}
use mcp_core.Transport.Framed.State.{FramedTransport}
use mcp_core.Transport.Framed.Read.{read_message}
use mcp_core.Transport.Framed.NewlineTrip.{Wrote}
use mcp_core.Runner.Pump.{
  Parsed, parsed, unparsed, Driver, Connection, Round, goes_on, ends, after_write, on_value,
  on_read, round,
}
use mcp_core.Runner.Websocket.Transcript.{answered}

module _ (d : Driver) (prints : (v : Value) → (s : Text) × (d.to_string v ≡ done s))
    (sort : Style) where
  -- A round that has answered a text and goes on.
  record Answers (t : FramedTransport) (ms : List Text) (e : Env (World d.core)) (r : Round d)
      : Type 0 where
    after : Connection d
    went_on : r ≡ goes_on after
    wrote : Wrote sort t ms after.transport
    session : after.env ≡ e

  after_write-Answers :
      (t : FramedTransport) (ms : List Text) (x : Result (Unit {0}) × FramedTransport)
      (e : Env (World d.core))
      → Writes d prints sort t ms x
      → Answers t ms e (after_write d x e)
  unfolding after_write
  after_write-Answers t ms (ok x, u) e (a, b) = record {
    after = record { transport = u; env = e };
    went_on = refl;
    wrote = b;
    session = refl;
  }
  after_write-Answers t ms (err x, u) e (a, b) = cc

  on_value-Answers :
      (p : Parsed) (t : FramedTransport) (e : Env (World d.core))
      → IsOpen d prints sort t
      → Answers t (answered d p e).0 (answered d p e).1 (on_value d p t e)
  unfolding on_value
  on_value-Answers (unparsed s) t e o =
      after_write-Answers t _ _ e (write_value-Writes d prints sort _ t o)
  on_value-Answers (parsed v) t e o =
      after_write-Answers t _ _ _ (deliver-Writes d prints sort _ t o)

  on_read-Answers :
      (m : Text) (r : Result Text) (t : FramedTransport) (e : Env (World d.core))
      → r ≡ ok m
      → is_empty (trim m) ≡ false
      → IsOpen d prints sort t
      → Answers t
          (answered d (d.from_str m) e).0
          (answered d (d.from_str m) e).1
          (on_read d (r, t) e)
  unfolding on_read
  on_read-Answers m r t e h n o = rw (h, on_read) (rw n (on_value-Answers (d.from_str m) t e o))

  round_line :
      (c : Connection d) (m : Text) (u : FramedTransport)
      → (read_message d.utf8_error c.transport).0 ≡ ok m
      → (read_message d.utf8_error c.transport).1 ≡ u
      → is_empty (trim m) ≡ false
      → IsOpen d prints sort u
      → Answers u
          (answered d (d.from_str m) c.env).0
          (answered d (d.from_str m) c.env).1
          (round d c)
  unfolding round
  round_line c m u a b n o =
      rw b (on_read-Answers m (read_message d.utf8_error c.transport).0 u c.env a n o)

  pub round_end :
      (c : Connection d)
      → Awaits sort c.transport []
      → round d c
        ≡ ends (ok tt) (record { transport = record (c.transport) { reader = [] }; env = c.env })
  unfolding round on_read
  round_end c r = ap (λ x. on_read d x c.env) (read_message_end d.utf8_error sort c.transport r)

  -- A round that has read a message of the client, answered it, and goes on.
  pub record Turn (c : Connection d) (rest : Bytes) (ms : List Text) (e : Env (World d.core))
      : Type 0 where
    pub after : Connection d
    pub went_on : round d c ≡ goes_on after
    pub awaits : Awaits sort after.transport rest
    pub events : after.transport.writer.events ≡ []
    pub limit : after.transport.max_len ≡ c.transport.max_len
    pub written : after.transport.writer.written ≡ c.transport.writer.written ++ in_style sort ms
    pub session : after.env ≡ e

  pub round-Turn :
      (c : Connection d) (m : Text) (rest : Bytes)
      → Awaits sort c.transport (framed sort m ++ rest)
      → c.transport.writer.events ≡ []
      → Suits sort c.transport.max_len m
      → let x = answered d (d.from_str m) c.env in Turn c rest x.0 x.1
  round-Turn c m rest r e l =
      let (a, k) = read_message-framed d.utf8_error sort c.transport m rest r l in
      let x =
        round_line c m (read_message d.utf8_error c.transport).1 a refl
          (Suits-not_blank sort c.transport.max_len m l)
          (k.known, ap (λ w. w.events) k.writer ∙ e) in
      record {
        after = x.after;
        went_on = x.went_on;
        awaits = Awaits-SameReading k.reads x.wrote.reading;
        events = x.wrote.events;
        limit = x.wrote.reading.max_len ∙ k.max_len;
        written =
            x.wrote.written
            ∙ ap (λ w. w.written ++ in_style sort (answered d (d.from_str m) c.env).0) k.writer;
        session = x.session;
      }
