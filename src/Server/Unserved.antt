-- ===== src/Server/Unserved.antt =====
-- src/server.rs: what a session that is not initialized keeps from the service.
use mcp_core.Common.{
  ap, ◌∙◌, ◌&&◌, is_some, unwrap_or, all, Bool, true, false, Option, none, some, List, [], ◌∷◌, ◌≡◌,
  refl, arith, Text, codes,
}
use mcp_core.Json.{Value, object, null, get, get_str}
use mcp_core.Service.{McpService}
use mcp_core.Telemetry.{TraceContext}
use mcp_core.Server.Response.{Dispatch, Outcome, finish}
use mcp_core.Server.Session.{
  ServerCore, World, Env, handle_tools_call, handle_method, bad_version, route_object, route,
  dispatch,
}
use mcp_core.Server.Trace.{open_request_span, handle_message}
use mcp_core.Server.Handshake.{
  keeps, effect, leaves_closed, open_request_span_keeps, handle_message_closed,
}

-- A session's messages, handled in turn: what is answered, and what they leave.
abbrev pub handle_all :
    (core : ServerCore)
    → TraceContext
    → List Value
    → Env (World core)
    → List Dispatch × Env (World core)
handle_all core trace [] e = ([], e)
handle_all core trace (m ∷ ms) e =
    let (x, e') = handle_message core trace m e in
    let (xs, e'') = handle_all core trace ms e' in (x ∷ xs, e'')

and_split : (a b : Bool) → (a && b) ≡ true → (a ≡ true) × (b ≡ true)
and_split a b h = (ground arith, ground arith)

finish_cong :
    (b : Bool) (id : Option Value) {x y : Outcome} {xs ys : List Value}
    → x ≡ y
    → xs ≡ ys
    → finish b id x xs ≡ finish b id y ys
finish_cong b id h k = cc

-- A server whose session is not initialized, and the same server with another service in any state.
module _ (core : ServerCore) (trace : TraceContext) (service : McpService) where
  abbrev other : ServerCore
  other = record core { service = service }

  -- They answer alike.
  handle_method_unserved :
      (m : Option Text) (params : Value) (e : Env (World core)) (e' : Env (World other))
      → e.session.initialized ≡ false
      → e'.session.initialized ≡ false
      → effect none m ≡ keeps
      → ((handle_method core m params e).outcome ≡ (handle_method other m params e').outcome)
        × ((handle_method core m params e).notifications
            ≡ (handle_method other m params e').notifications)
  unfolding handle_method handle_tools_call
  handle_method_unserved none params e e' h h' k = (refl, refl)
  handle_method_unserved (some m) params e e' h h' k = ground arith

  route_object_unserved :
      (b : Option Text) (message : Value) (e : Env (World core)) (e' : Env (World other))
      → e.session.initialized ≡ false
      → e'.session.initialized ≡ false
      → effect b (get_str message (codes "method")) ≡ keeps
      → (route_object core b message e).dispatch ≡ (route_object other b message e').dispatch
  unfolding route_object
  route_object_unserved none message e e' h h' k =
      let (a, b) =
        handle_method_unserved (get_str message (codes "method"))
          (unwrap_or (get message (codes "params")) null) e e' h h' k in
      finish_cong (is_some (get message (codes "id"))) (get message (codes "id")) a b
  route_object_unserved (some v) message e e' h h' k = refl

  route_unserved :
      (message : Value) (e : Env (World core)) (e' : Env (World other))
      → e.session.initialized ≡ false
      → e'.session.initialized ≡ false
      → leaves_closed core message ≡ true
      → (route core message e).dispatch ≡ (route other message e').dispatch
  unfolding route
  route_unserved (object fs) e e' h h' k =
      route_object_unserved (bad_version core (object fs)) (object fs) e e' h h' (ground arith)
  route_unserved _ e e' h h' k = refl

  handle_message_unserved :
      (message : Value) (e : Env (World core)) (e' : Env (World other))
      → e.session.initialized ≡ false
      → e'.session.initialized ≡ false
      → leaves_closed core message ≡ true
      → (handle_message core trace message e).0 ≡ (handle_message other trace message e').0
  unfolding handle_message dispatch
  handle_message_unserved message e e' h h' k =
      route_unserved message (open_request_span core trace message e)
        (open_request_span other trace message e')
        (ap (λ s. s.initialized) (open_request_span_keeps core trace message e).0 ∙ h)
        (ap (λ s. s.initialized) (open_request_span_keeps other trace message e').0 ∙ h') k

  handle_message_shut :
      (core : ServerCore) (message : Value) (e : Env (World core))
      → e.session.initialized ≡ false
      → leaves_closed core message ≡ true
      → (handle_message core trace message e).1.session.initialized ≡ false
  handle_message_shut core message e h k =
      ap (λ s. s.initialized) (handle_message_closed core trace message e h k).0 ∙ h

  -- Before the handshake no message reaches the service: while the messages neither open the
  -- session nor shut it down, the service's state and the session stay as they were, and all
  -- answers are those that the same server gives with any other service, in any state.
  pub handle_all_closed :
      (ms : List Value) (e : Env (World core)) (e' : Env (World other))
      → e.session.initialized ≡ false
      → e'.session.initialized ≡ false
      → all (leaves_closed core) ms ≡ true
      → ((handle_all core trace ms e).1.world ≡ e.world)
        × ((handle_all core trace ms e).1.session ≡ e.session)
        × ((handle_all core trace ms e).0 ≡ (handle_all other trace ms e').0)
  handle_all_closed [] e e' h h' k = (refl, refl, refl)
  handle_all_closed (m ∷ ms) e e' h h' k =
      let (k0, k1) = and_split (leaves_closed core m) (all (leaves_closed core) ms) k in
      let (s, w) = handle_message_closed core trace m e h k0 in
      let (ws, ss, xs) =
        handle_all_closed ms (handle_message core trace m e).1 (handle_message other trace m e').1
          (handle_message_shut core m e h k0) (handle_message_shut other m e' h' k0) k1 in
      (ws ∙ w, ss ∙ s, (let q = handle_message_unserved m e e' h h' k0 in cc))
