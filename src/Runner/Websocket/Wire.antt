-- ===== src/Runner/Websocket/Wire.antt =====
-- What `ws_connection` of src/runner.rs puts on the wire.
use mcp_core.Common.{
  Bool, true, false, Option, none, some, List, [], ◌∷◌, ◌++◌, ◌⊎◌, inl, inr, ◌≡◌, Text, Bool-cases,
}
use mcp_core.Json.{Value}
use mcp_core.Service.{done}
use mcp_core.Server.Trace.{handle_message}
use mcp_core.Server.Wire.{
  IsReply, IsNotification, AllNotifications, IsAnswer, handle_message-IsSendable,
  error_response-IsReply,
}
use mcp_core.Runner.Websocket.Transcript.{Serialized-cases}
use mcp_core.Runner.Pump.{Parsed, parsed, unparsed, Driver}
use mcp_core.Runner.Websocket.{
  Incoming, text, close, failure, other, Socket, send, send_value, send_notifications,
  send_response, on_text, ws_connection,
}

module _ (d : Driver) where
  -- A text is what a JSON-RPC 2.0 response or notification is printed as.
  abbrev pub IsPrinted : Text → Type 0
  IsPrinted s = (v : Value) × (IsReply v ⊎ IsNotification v) × (d.to_string v ≡ done s)

  abbrev pub AllPrinted : List Text → Type 0
  AllPrinted [] = Unit
  AllPrinted (s ∷ ss) = IsPrinted s × AllPrinted ss

  AllPrinted-append : (xs ys : List Text) → AllPrinted xs → AllPrinted ys → AllPrinted (xs ++ ys)
  AllPrinted-append [] ys h k = k
  AllPrinted-append (x ∷ xs) ys h k = (h.0, AllPrinted-append xs ys h.1 k)

  send-AllPrinted :
      (s : Text) (w : Socket d) → IsPrinted s → AllPrinted w.sent → AllPrinted (send d s w).1.sent
  unfolding send
  send-AllPrinted s w p h = go w.broken
    where
      sent : AllPrinted (w.sent ++ s ∷ [])
      sent = AllPrinted-append w.sent (s ∷ []) h (p, tt)

      go : (bs : List Bool) → AllPrinted (send d s (record w { broken = bs })).1.sent
      go [] = sent
      go (true ∷ bs) = h
      go (false ∷ bs) = sent

  send_value-AllPrinted :
      (v : Value) (w : Socket d)
      → IsReply v ⊎ IsNotification v
      → AllPrinted w.sent
      → AllPrinted (send_value d v w).1.sent
  unfolding send_value
  send_value-AllPrinted v w m h = elim (Serialized-cases (d.to_string v)) [
    | inl (s, e) ↦ rw (e, send_value) (send-AllPrinted s w (v, m, e) h)
    | inr (x, e) ↦ rw (e, send_value) h
  ]

  send_response-AllPrinted :
      (r : Option Value) (w : Socket d)
      → IsAnswer r
      → AllPrinted w.sent
      → AllPrinted (send_response d r w).1.sent
  unfolding send_response
  send_response-AllPrinted none w m h = h
  send_response-AllPrinted (some v) w m h = send_value-AllPrinted v w (inl m) h

  send_notifications-AllPrinted :
      (vs : List Value) (w : Socket d)
      → AllNotifications vs
      → AllPrinted w.sent
      → AllPrinted (send_notifications d vs w).sent
  unfolding send_notifications
  send_notifications-AllPrinted [] w m h = h
  send_notifications-AllPrinted (v ∷ vs) w (m, ms) h =
      let k = send_value-AllPrinted v w (inr m) h in
      let w' = (send_value d v w).1 in
      elim (Bool-cases (send_value d v w).0) [
        | inl e ↦ rw (e, send_notifications) k
        | inr e ↦ rw (e, send_notifications) (send_notifications-AllPrinted vs w' ms k)
      ]

  on_text-AllPrinted :
      (p : Parsed) (w : Socket d) → AllPrinted w.sent → AllPrinted (on_text d p w).1.sent
  unfolding on_text
  on_text-AllPrinted (unparsed e) w h =
      send_value-AllPrinted _ w (inl (error_response-IsReply none _ _)) h
  on_text-AllPrinted (parsed v) w h =
      let (x, env) = handle_message d.core d.trace v w.env in
      let (a, b) = handle_message-IsSendable d.core d.trace v w.env in
      let u : Socket d = record w { env = (handle_message d.core d.trace v w.env).1 } in
      let r = (handle_message d.core d.trace v w.env).0.response in
      let k = send_response-AllPrinted r u a h in
      elim (Bool-cases (send_response d r u).0) [
        | inl e ↦ rw (e, on_text) k
        | inr e ↦ rw (e, on_text) (send_notifications-AllPrinted _ _ b k)
      ]

  -- Whatever arrives over a websocket, and whichever sends fail, all that has been sent are printed
  -- JSON-RPC 2.0 responses and notifications.
  pub ws_connection-AllPrinted :
      (ms : List Incoming) (w : Socket d)
      → AllPrinted w.sent
      → AllPrinted (ws_connection d ms w).sent
  unfolding ws_connection
  ws_connection-AllPrinted [] w h = h
  ws_connection-AllPrinted (close ∷ ms) w h = h
  ws_connection-AllPrinted (failure ∷ ms) w h = h
  ws_connection-AllPrinted (other ∷ ms) w h = ws_connection-AllPrinted ms w h
  ws_connection-AllPrinted (text s ∷ ms) w h =
      let k = on_text-AllPrinted (d.from_str s) w h in
      elim (Bool-cases (on_text d (d.from_str s) w).0) [
        | inl e ↦ rw (e, ws_connection) k
        | inr e ↦ rw (e, ws_connection) (ws_connection-AllPrinted ms _ k)
      ]
