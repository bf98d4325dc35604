-- ===== src/Runner/Websocket/Transcript.antt =====
-- What `ws_connection` of src/runner.rs sends over a socket that does not fail.
use mcp_core.Common.{
  Bool, false, Option, none, some, List, [], ◌∷◌, ◌++◌, ◌⊎◌, inl, inr, Text, codes, ◌≡◌, refl, sym,
  ap, ◌∙◌, append_assoc, append-nil,
}
use mcp_core.Json.{Value}
use mcp_core.Error.{parse_error}
use mcp_core.Service.{Serialized, done, failed}
use mcp_core.Server.Response.{error_response}
use mcp_core.Server.Session.{World, Env}
use mcp_core.Server.Trace.{handle_message}
use mcp_core.Runner.Pump.{Parsed, parsed, unparsed, Driver}
use mcp_core.Runner.Websocket.{
  Incoming, text, close, failure, other, Socket, send, send_value, send_notifications,
  send_response, on_text, ws_connection,
}

pub Serialized-cases :
    (x : Serialized Text) → ((s : Text) × (x ≡ done s)) ⊎ ((e : Text) × (x ≡ failed e))
Serialized-cases (done s) = inl (s, refl)
Serialized-cases (failed e) = inr (e, refl)

module _ (d : Driver) where
  -- What a value is sent as.
  abbrev pub printed : Value → List Text
  printed v = elim (d.to_string v) [ failed e ↦ [] | done s ↦ s ∷ [] ]

  abbrev pub printed_all : List Value → List Text
  printed_all [] = []
  printed_all (v ∷ vs) = printed v ++ printed_all vs

  abbrev pub printed_response : Option Value → List Text
  printed_response none = []
  printed_response (some v) = printed v

  -- What a text is answered with, and the session after it.
  abbrev pub answered : Parsed → Env (World d.core) → List Text × Env (World d.core)
  answered (unparsed e) env =
      (printed (error_response none parse_error (codes "parse error: " ++ e)), env)
  answered (parsed v) env =
      let (x, env') = handle_message d.core d.trace v env in
      (printed_response x.response ++ printed_all x.notifications, env')

  -- All that is answered to what arrives, up to the first close or failure.
  abbrev pub transcript : List Incoming → Env (World d.core) → List Text × Env (World d.core)
  transcript [] env = ([], env)
  transcript (text s ∷ ms) env =
      let (xs, env') = answered (d.from_str s) env in
      let (ys, env'') = transcript ms env' in (xs ++ ys, env'')
  transcript (close ∷ ms) env = ([], env)
  transcript (failure ∷ ms) env = ([], env)
  transcript (other ∷ ms) env = transcript ms env

  -- A socket after texts have been sent, none of which failed.
  abbrev pub Sends : Socket d → List Text → Socket d → Type 0
  Sends w xs w' = (w'.sent ≡ w.sent ++ xs) × (w'.broken ≡ []) × (w'.env ≡ w.env)

  send_value-Sends :
      (v : Value) (w : Socket d)
      → w.broken ≡ []
      → ((send_value d v w).0 ≡ false) × Sends w (printed v) (send_value d v w).1
  unfolding send_value send
  send_value-Sends v w h = elim (Serialized-cases (d.to_string v)) [
    | inl (s, e) ↦ rw (e, send_value, printed) (rw (h, send) (refl, (refl, h, refl)))
    | inr (x, e) ↦ rw (e, send_value, printed) (refl, (sym (append-nil w.sent), h, refl))
  ]

  send_response-Sends :
      (r : Option Value) (w : Socket d)
      → w.broken ≡ []
      → ((send_response d r w).0 ≡ false) × Sends w (printed_response r) (send_response d r w).1
  unfolding send_response
  send_response-Sends none w h = (refl, (sym (append-nil w.sent), h, refl))
  send_response-Sends (some v) w h = send_value-Sends v w h

  Sends-trans :
      (w w' w'' : Socket d) (xs ys : List Text)
      → Sends w xs w'
      → Sends w' ys w''
      → Sends w (xs ++ ys) w''
  Sends-trans w w' w'' xs ys (a, b, c) (x, y, z) =
      (x ∙ ap (λ l. l ++ ys) a ∙ append_assoc w.sent xs ys, y, z ∙ c)

  send_notifications-Sends :
      (vs : List Value) (w : Socket d)
      → w.broken ≡ []
      → Sends w (printed_all vs) (send_notifications d vs w)
  unfolding send_notifications
  send_notifications-Sends [] w h = (sym (append-nil w.sent), h, refl)
  send_notifications-Sends (v ∷ vs) w h =
      let (e, s) = send_value-Sends v w h in
      let w' = (send_value d v w).1 in
      rw (e, send_notifications)
        (Sends-trans w w' (send_notifications d vs w') (printed v) (printed_all vs) s
          (send_notifications-Sends vs w' s.1))

  -- What a text does to a socket.
  abbrev Answers : Parsed → Socket d → Bool × Socket d → Type 0
  Answers p w x =
      (x.0 ≡ false)
      × (x.1.sent ≡ w.sent ++ (answered p w.env).0)
      × (x.1.broken ≡ [])
      × (x.1.env ≡ (answered p w.env).1)

  on_text-Answers : (p : Parsed) (w : Socket d) → w.broken ≡ [] → Answers p w (on_text d p w)
  unfolding on_text
  on_text-Answers (unparsed e) w h = let (_, (a, b, c)) = send_value-Sends _ w h in (refl, a, b, c)
  on_text-Answers (parsed v) w h =
      let x = (handle_message d.core d.trace v w.env).0 in
      let env = (handle_message d.core d.trace v w.env).1 in
      let (e, s) = send_response-Sends x.response (record w { env = env }) h in
      let w' = (send_response d x.response (record w { env = env })).1 in
      let n = send_notifications-Sends x.notifications w' s.1 in
      let (a, b, c) =
        Sends-trans (record w { env = env }) w' (send_notifications d x.notifications w')
          (printed_response x.response) (printed_all x.notifications) s n in
      rw (e, on_text) (refl, a, b, c)

  -- Over a socket that does not fail, a connection sends the answers to all that arrives up to the
  -- first close or failure, in order: to a text the session's response and then its notifications,
  -- to a text that is no JSON a parse error, and to any other frame nothing; and it leaves the
  -- session after these messages.
  pub ws_connection-transcript :
      (ms : List Incoming) (w : Socket d)
      → w.broken ≡ []
      → ((ws_connection d ms w).sent ≡ w.sent ++ (transcript ms w.env).0)
        × ((ws_connection d ms w).env ≡ (transcript ms w.env).1)
  unfolding ws_connection
  ws_connection-transcript [] w h = (sym (append-nil w.sent), refl)
  ws_connection-transcript (close ∷ ms) w h = (sym (append-nil w.sent), refl)
  ws_connection-transcript (failure ∷ ms) w h = (sym (append-nil w.sent), refl)
  ws_connection-transcript (other ∷ ms) w h = ws_connection-transcript ms w h
  ws_connection-transcript (text s ∷ ms) w h =
      let p = d.from_str s in
      let (e, x, y, z) = on_text-Answers p w h in
      let w' = (on_text d p w).1 in
      let (a, b) = ws_connection-transcript ms w' y in
      rw (e, ws_connection)
        (
          a
              ∙ ap (λ l. l ++ (transcript ms w'.env).0) x
              ∙ append_assoc w.sent (answered p w.env).0 (transcript ms w'.env).0
              ∙ ap (λ v. w.sent ++ ((answered p w.env).0 ++ (transcript ms v).0)) z,
          b ∙ ap (λ v. (transcript ms v).1) z,
        )
