-- ===== src/Server/Handshake.antt =====
-- The `initialized` flag of a session in src/server.rs: how messages move it, and what it guards.
use mcp_core.Common.{
  str_eq_iff, Bool, true, false, not, ◌||◌, Option, none, some, List, [], ◌∷◌, ◌≡◌, refl, any,
  arith, Text, codes, str_eq, if◌then◌else◌,
}
use mcp_core.Json.{Value, object, Fields, get_str, is_object}
use mcp_core.Service.{CallResult, ok, err, tool, invalid_params, internal}
use mcp_core.Telemetry.{TraceContext}
use mcp_core.Server.Session.{
  ServerCore, World, Env, report, run_tool, handle_tools_call, handle_method, bad_version,
  route_object, route, dispatch, method_invalid, method_other,
}
use mcp_core.Server.Trace.{open_request_span, handle_message}

-- What a method does to the flag.
pub data Handshake : Type 0 where
  opens closes keeps : Handshake

abbrev pub handshake_of : Text → Handshake
handshake_of m =
    if str_eq m (codes "initialize")
      || str_eq m (codes "notifications/initialized")
      || str_eq m (codes "initialized")
    then opens
    else if str_eq m (codes "shutdown")
    then closes
    else keeps

-- The effect of a message: an object with no refused version has the effect of its method.
abbrev pub effect : Option Text → Option Text → Handshake
effect (some v) m = keeps
effect none none = keeps
effect none (some m) = handshake_of m

abbrev pub moved : Handshake → Bool → Bool
moved opens b = true
moved closes b = false
moved keeps b = b

-- The methods that the server implements.
abbrev pub methods : List Text
methods =
    codes "initialize"
    ∷ codes "notifications/initialized"
    ∷ codes "initialized"
    ∷ codes "ping"
    ∷ codes "tools/list"
    ∷ codes "tools/call"
    ∷ codes "shutdown"
    ∷ []

-- The label under which a message with this refused version, if any, and this method is counted.
abbrev pub counted_as : Option Text → Option Text → Text
counted_as (some v) m = method_invalid
counted_as none none = method_invalid
counted_as none (some m) = if any (λ k. str_eq m k) methods then m else method_other

module _ (core : ServerCore) where
  report-session :
      (r : CallResult) (e : Env (World core)) (ns : List Value) (l : Text)
      → ((report r e ns l).env.session ≡ e.session) × ((report r e ns l).method_label ≡ l)
  unfolding report
  report-session (ok r) e ns l = (refl, refl)
  report-session (err (tool m)) e ns l = (refl, refl)
  report-session (err (invalid_params m)) e ns l = (refl, refl)
  report-session (err (internal m)) e ns l = (refl, refl)

  run_tool-session :
      (name : Text) (args : Value) (ns : List Value) (l : Text) (e : Env (World core))
      → ((run_tool core name args ns l e).env.session ≡ e.session)
        × ((run_tool core name args ns l e).method_label ≡ l)
  unfolding run_tool
  run_tool-session name args ns l e = report-session _ _ ns l

  handle_tools_call-session :
      (params : Value) (ns : List Value) (l : Text) (e : Env (World core))
      → ((handle_tools_call core params ns l e).env.session ≡ e.session)
        × ((handle_tools_call core params ns l e).method_label ≡ l)
  unfolding handle_tools_call
  handle_tools_call-session params ns l e = grind (arith, run_tool-session)

  handle_method-moved :
      (m : Option Text) (params : Value) (e : Env (World core))
      → (handle_method core m params e).env.session.initialized
        ≡ moved (effect none m) e.session.initialized
  unfolding handle_method
  handle_method-moved none params e = refl
  handle_method-moved (some m) params e = ground (
    arith,
    handle_tools_call-session params [] m e,
    str_eq_iff m (codes "shutdown"),
    str_eq_iff m (codes "ping"),
    str_eq_iff m (codes "tools/list"),
    str_eq_iff m (codes "tools/call"),
  )

  handle_method-counted_as :
      (m : Option Text) (params : Value) (e : Env (World core))
      → (handle_method core m params e).method_label ≡ counted_as none m
  unfolding handle_method
  handle_method-counted_as none params e = refl
  handle_method-counted_as (some m) params e =
      ground (arith, handle_tools_call-session params [] m e)

  route_object-moved :
      (b : Option Text) (message : Value) (e : Env (World core))
      → (route_object core b message e).env.session.initialized
        ≡ moved (effect b (get_str message (codes "method"))) e.session.initialized
  unfolding route_object
  route_object-moved none message e = handle_method-moved _ _ e
  route_object-moved (some v) message e = refl

  -- Every object moves the flag as its method says: `initialize` and the notices that the
  -- handshake is over set it, `shutdown` clears it, and any other method, a tool call too, or a
  -- refused version leaves it.
  pub route-moved :
      (fs : Fields) (e : Env (World core))
      → (route core (object fs) e).env.session.initialized
        ≡ moved
            (effect (bad_version core (object fs)) (get_str (object fs) (codes "method")))
            e.session.initialized
  unfolding route
  route-moved fs e = route_object-moved (bad_version core (object fs)) (object fs) e

  route_object-counted_as :
      (b : Option Text) (message : Value) (e : Env (World core))
      → (route_object core b message e).method_label
        ≡ counted_as b (get_str message (codes "method"))
  unfolding route_object
  route_object-counted_as none message e = handle_method-counted_as _ _ e
  route_object-counted_as (some v) message e = refl

  abbrev pub message_label : Value → Text
  message_label (object fs) =
      counted_as (bad_version core (object fs)) (get_str (object fs) (codes "method"))
  message_label _ = method_invalid

  -- A request is counted under its method if that is one of the seven that the server implements,
  -- under `other` if it is any other, and under `invalid` if the message names none, is no object
  -- or has a refused version: so a client cannot make up labels.
  pub route-message_label :
      (message : Value) (e : Env (World core))
      → (route core message e).method_label ≡ message_label message
  unfolding route
  route-message_label (object fs) e =
      route_object-counted_as (bad_version core (object fs)) (object fs) e
  route-message_label _ e = refl

  -- A message that neither opens the session nor shuts it down.
  abbrev pub leaves_closed : Value → Bool
  leaves_closed message =
      not (is_object message)
      || elim (effect (bad_version core message) (get_str message (codes "method"))) [
        | keeps ↦ true
        | _ ↦ false
      ]

  handle_method_closed :
      (m : Option Text) (params : Value) (e : Env (World core))
      → e.session.initialized ≡ false
      → effect none m ≡ keeps
      → ((handle_method core m params e).env ≡ e)
  unfolding handle_method handle_tools_call
  handle_method_closed none params e h k = refl
  handle_method_closed (some m) params e h k = ground arith

  route_object_closed :
      (b : Option Text) (message : Value) (e : Env (World core))
      → e.session.initialized ≡ false
      → effect b (get_str message (codes "method")) ≡ keeps
      → (route_object core b message e).env ≡ e
  unfolding route_object
  route_object_closed none message e h k = handle_method_closed _ _ e h k
  route_object_closed (some v) message e h k = refl

  route_closed :
      (message : Value) (e : Env (World core))
      → e.session.initialized ≡ false
      → leaves_closed message ≡ true
      → (route core message e).env ≡ e
  unfolding route
  route_closed (object fs) e h k =
      route_object_closed (bad_version core (object fs)) (object fs) e h (ground arith)
  route_closed _ e h k = refl

module _ (core : ServerCore) (trace : TraceContext) where
  pub open_request_span_keeps :
      (message : Value) (e : Env (World core))
      → ((open_request_span core trace message e).session ≡ e.session)
        × ((open_request_span core trace message e).world ≡ e.world)
  unfolding open_request_span
  open_request_span_keeps message e = ground arith

  pub handle_message_closed :
      (message : Value) (e : Env (World core))
      → e.session.initialized ≡ false
      → leaves_closed core message ≡ true
      → ((handle_message core trace message e).1.session ≡ e.session)
        × ((handle_message core trace message e).1.world ≡ e.world)
  unfolding handle_message dispatch
  handle_message_closed message e h k = ground (
    arith,
    route_closed core message (open_request_span core trace message e),
    open_request_span_keeps message e,
  )
