-- ===== src/Runner/Pump/Writes.antt =====
-- What `pump` of src/runner.rs writes to a writer that does not fail.
use mcp_core.Transport.Framed.Style.{Style, framing_of}
use mcp_core.Common.{◌∙◌, Option, none, some, List, [], ◌∷◌, ◌++◌, ◌≡◌, refl, Text}
use mcp_core.Json.{Value}
use mcp_core.Error.{Result, ok, err}
use mcp_core.Service.{done}
use mcp_core.Server.Response.{Dispatch}
use mcp_core.Transport.Framed.State.{FramedTransport, M, continue}
use mcp_core.Transport.Framed.NewlineTrip.{Wrote, write_message-framed, Wrote-nothing, Wrote-trans}
use mcp_core.Runner.Pump.{Driver, write_value, write_response, write_all_values, deliver}
use mcp_core.Runner.Websocket.Transcript.{printed, printed_all, printed_response}

module _ (d : Driver) (prints : (v : Value) → (s : Text) × (d.to_string v ≡ done s))
    (sort : Style) where
  -- A transport in the framing of the style whose writer does not fail.
  abbrev pub IsOpen : FramedTransport → Type 0
  IsOpen t = (t.framing ≡ framing_of sort) × (t.writer.events ≡ [])

  -- A write that has written these texts.
  abbrev pub Writes : FramedTransport → List Text → Result (Unit {0}) × FramedTransport → Type 0
  Writes t ms x = (x.0 ≡ ok tt) × Wrote sort t ms x.1

  Wrote-IsOpen : {t u : FramedTransport} {ms : List Text} → IsOpen t → Wrote sort t ms u → IsOpen u
  Wrote-IsOpen (f, e) w = (w.reading.framing ∙ f, w.events)

  pub write_value-Writes :
      (v : Value) (t : FramedTransport) → IsOpen t → Writes t (printed d v) (write_value d v t)
  unfolding write_value
  write_value-Writes v t (f, e) =
      let (s, h) = prints v in rw (h, write_value, printed) (write_message-framed sort t s f e)

  write_response-Writes :
      (r : Option Value) (t : FramedTransport)
      → IsOpen t
      → Writes t (printed_response d r) (write_response d r t)
  unfolding write_response
  write_response-Writes none t (f, e) = (refl, Wrote-nothing sort t e)
  write_response-Writes (some v) t o = write_value-Writes v t o

  continue-Writes :
      (t : FramedTransport) (ms ns : List Text) (r : Result (Unit {0})) (u : FramedTransport)
      (f : Unit {0} → M (Unit {0}))
      → Writes t ms (r, u)
      → Writes u ns (f tt u)
      → Writes t (ms ++ ns) (continue r f u)
  continue-Writes t ms ns (ok x) u f (a, b) (c, d) = (c, Wrote-trans b d)
  continue-Writes t ms ns (err e) u f (a, b) k = cc

  write_all_values-Writes :
      (vs : List Value) (t : FramedTransport)
      → IsOpen t
      → Writes t (printed_all d vs) (write_all_values d vs t)
  unfolding write_all_values
  write_all_values-Writes [] t (f, e) = (refl, Wrote-nothing sort t e)
  write_all_values-Writes (v ∷ vs) t o =
      let w = write_value-Writes v t o in
      continue-Writes t (printed d v) (printed_all d vs) (write_value d v t).0 (write_value d v t).1
        _ w (write_all_values-Writes vs (write_value d v t).1 (Wrote-IsOpen o w.1))

  pub deliver-Writes :
      (x : Dispatch) (t : FramedTransport)
      → IsOpen t
      → Writes t (printed_response d x.response ++ printed_all d x.notifications) (deliver d x t)
  unfolding deliver
  deliver-Writes x t o =
      let w = write_response-Writes x.response t o in
      continue-Writes t (printed_response d x.response) (printed_all d x.notifications)
        (write_response d x.response t).0 (write_response d x.response t).1 _ w
        (write_all_values-Writes x.notifications (write_response d x.response t).1
          (Wrote-IsOpen o w.1))
