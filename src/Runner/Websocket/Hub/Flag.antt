-- ===== src/Runner/Websocket/Hub/Flag.antt =====
-- How what arrives at a websocket of src/runner.rs opens its session.
use mcp_core.Common.{
  Bool, Bool-cases, true, false, Option, none, some, List, [], ◌∷◌, ◌++◌, ◌≡◌, refl, ap, ◌∙◌, inl,
  inr, Text,
}
use mcp_core.Json.{Value}
use mcp_core.Server.Trace.{handle_message}
use mcp_core.Runner.Pump.{Parsed, parsed, unparsed, Driver}
use mcp_core.Runner.Opening.{flag_after, parsed_value, handle_message-moved}
use mcp_core.Runner.Websocket.{
  Incoming, text, close, failure, other, Socket, send, send_value, send_notifications,
  send_response, on_text, ws_connection,
}
use mcp_core.Runner.Websocket.Transcript.{Serialized-cases}
use mcp_core.Runner.Websocket.Hub.{on_incoming}

module _ (d : Driver) where
  -- The message that something arriving brings, if it does.
  abbrev pub heard : Incoming → List Value
  heard (text s) = parsed_value d (d.from_str s)
  heard _ = []

  abbrev pub heard_all : List Incoming → List Value
  heard_all [] = []
  heard_all (m ∷ ms) = heard m ++ heard_all ms

  -- `ws_connection` takes these steps until one ends it.
  ws_connection-on_incoming :
      (m : Incoming) (ms : List Incoming) (w : Socket d)
      → let x = on_incoming d m w in
        ws_connection d (m ∷ ms) w ≡ elim x.0 [ true ↦ x.1 | false ↦ ws_connection d ms x.1 ]
  unfolding ws_connection on_incoming
  ws_connection-on_incoming (text s) ms w = refl
  ws_connection-on_incoming close ms w = refl
  ws_connection-on_incoming failure ms w = refl
  ws_connection-on_incoming other ms w = refl

  send-env : (s : Text) (w : Socket d) → (send d s w).1.env ≡ w.env
  unfolding send
  send-env s w = go w.broken refl
    where
      go : (bs : List Bool) → w.broken ≡ bs → (send d s w).1.env ≡ w.env
      go [] e = rw (e, send) refl
      go (true ∷ bs) e = rw (e, send) refl
      go (false ∷ bs) e = rw (e, send) refl

  send_value-env : (v : Value) (w : Socket d) → (send_value d v w).1.env ≡ w.env
  unfolding send_value
  send_value-env v w = elim (Serialized-cases (d.to_string v)) [
    | inl (s, e) ↦ rw (e, send_value) (send-env s w)
    | inr (x, e) ↦ rw (e, send_value) refl
  ]

  send_notifications-env :
      (vs : List Value) (w : Socket d) → (send_notifications d vs w).env ≡ w.env
  unfolding send_notifications
  send_notifications-env [] w = refl
  send_notifications-env (v ∷ vs) w = elim (Bool-cases (send_value d v w).0) [
    | inl e ↦ rw (e, send_notifications) (send_value-env v w)
    | inr e ↦
        rw (e, send_notifications)
          (send_notifications-env vs (send_value d v w).1 ∙ send_value-env v w)
  ]

  send_response-env : (r : Option Value) (w : Socket d) → (send_response d r w).1.env ≡ w.env
  unfolding send_response
  send_response-env none w = refl
  send_response-env (some v) w = send_value-env v w

  on_text-flag :
      (p : Parsed) (w : Socket d)
      → (on_text d p w).1.env.session.initialized
        ≡ flag_after d (parsed_value d p) w.env.session.initialized
  unfolding on_text
  on_text-flag (unparsed e) w = ap (λ x. x.session.initialized) (send_value-env _ w)
  on_text-flag (parsed v) w =
      let x = handle_message d.core d.trace v w.env in
      let u : Socket d = record w { env = x.1 } in
      let g = send_response-env x.0.response u in
      elim (Bool-cases (send_response d x.0.response u).0) [
        | inl e ↦
            rw (e, on_text) (ap (λ x. x.session.initialized) g ∙ handle_message-moved d v w.env)
        | inr e ↦
            rw (e, on_text)
              (ap (λ x. x.session.initialized) (send_notifications-env x.0.notifications _ ∙ g)
                ∙ handle_message-moved d v w.env)
      ]

  pub on_incoming-flag :
      (m : Incoming) (w : Socket d)
      → (on_incoming d m w).1.env.session.initialized
        ≡ flag_after d (heard m) w.env.session.initialized
  unfolding on_incoming
  on_incoming-flag (text s) w = on_text-flag (d.from_str s) w
  on_incoming-flag close w = refl
  on_incoming-flag failure w = refl
  on_incoming-flag other w = refl
