-- ===== src/Server/Wire.antt =====
-- The JSON-RPC messages that src/server.rs makes.
use mcp_core.Common.{
  Bool, true, false, Bool-cases, Option, none, some, is_some, List, [], ◌∷◌, ◌⊎◌, inl, inr, ◌≡◌,
  refl, arith, Text, codes, str_eq,
}
use mcp_core.Json.{Number, Value, null, string, lookup, get, value_or_null, is_object}
use mcp_core.Service.{CallResult, ok, err, tool, invalid_params, internal}
use mcp_core.Telemetry.{TraceContext}
use mcp_core.Server.Response.{
  Dispatch, Outcome, result, error, nothing, success_response, error_response, finish,
}
use mcp_core.Server.Session.{
  ServerCore, World, Env, report, run_tool, handle_tools_call, handle_method, bad_version,
  route_object, route, dispatch, list_changed_notification,
}
use mcp_core.Server.Trace.{open_request_span, handle_message}
use mcp_core.Server.Answers.{IsResponse}

-- A JSON-RPC 2.0 notification: it names a method, and has no id.
pub record IsNotification (v : Value) : Type 0 where
  pub version : get v (codes "jsonrpc") ≡ some (string (codes "2.0"))
  pub names_method : is_some (get v (codes "method")) ≡ true
  pub no_id : get v (codes "id") ≡ none

-- A response, to some id.
abbrev pub IsReply : Value → Type 0
IsReply v = (id : Value) × IsResponse id v

abbrev pub AllNotifications : List Value → Type 0
AllNotifications [] = Unit
AllNotifications (v ∷ vs) = IsNotification v × AllNotifications vs

abbrev pub IsAnswer : Option Value → Type 0
IsAnswer none = Unit
IsAnswer (some v) = IsReply v

abbrev pub IsSendable : Dispatch → Type 0
IsSendable x = IsAnswer x.response × AllNotifications x.notifications

pub error_response-IsReply :
    (id : Option Value) (c : Number) (m : Text) → IsReply (error_response id c m)
unfolding error_response lookup str_eq
error_response-IsReply id c m =
    (value_or_null id, record { version = refl; same_id = refl; result_or_error = refl })

success_response-IsReply : (id : Option Value) (v : Value) → IsReply (success_response id v)
unfolding success_response lookup str_eq
success_response-IsReply id v =
    (value_or_null id, record { version = refl; same_id = refl; result_or_error = refl })

finish-IsSendable :
    (b : Bool) (id : Option Value) (o : Outcome) (ns : List Value)
    → AllNotifications ns
    → IsSendable (finish b id o ns)
unfolding finish
finish-IsSendable true id (result v) ns h = (success_response-IsReply id v, h)
finish-IsSendable true id (error c m) ns h = (error_response-IsReply id c m, h)
finish-IsSendable true id nothing ns h = (tt, h)
finish-IsSendable false id (result v) ns h = (tt, h)
finish-IsSendable false id (error c m) ns h = (tt, h)
finish-IsSendable false id nothing ns h = (tt, h)

-- What a handled method notifies of: nothing, or that the list of tools has changed.
abbrev IsNews : List Value → Type 0
IsNews ns = (ns ≡ []) ⊎ (ns ≡ list_changed_notification ∷ [])

IsNews-AllNotifications : (ns : List Value) → IsNews ns → AllNotifications ns
unfolding lookup str_eq
IsNews-AllNotifications ns (inl e) = rw e tt
IsNews-AllNotifications ns (inr e) =
    rw e (record { version = refl; names_method = refl; no_id = refl }, tt)

module _ (core : ServerCore) where
  report-IsNews :
      (r : CallResult) (e : Env (World core)) (l : Text) → IsNews (report r e [] l).notifications
  unfolding report
  report-IsNews (ok r) e l = elim (Bool-cases r.tools_list_changed) [
    | inl h ↦ rw h (inr refl)
    | inr h ↦ rw h (inl refl)
  ]
  report-IsNews (err (tool m)) e l = inl refl
  report-IsNews (err (invalid_params m)) e l = inl refl
  report-IsNews (err (internal m)) e l = inl refl

  run_tool-IsNews :
      (name : Text) (args : Value) (l : Text) (e : Env (World core))
      → IsNews (run_tool core name args [] l e).notifications
  unfolding run_tool
  run_tool-IsNews name args l e = report-IsNews _ _ l

  handle_tools_call-IsNews :
      (params : Value) (l : Text) (e : Env (World core))
      → IsNews (handle_tools_call core params [] l e).notifications
  unfolding handle_tools_call
  handle_tools_call-IsNews params l e = grind (arith, run_tool-IsNews)

  handle_method-IsNews :
      (m : Option Text) (params : Value) (e : Env (World core))
      → IsNews (handle_method core m params e).notifications
  unfolding handle_method
  handle_method-IsNews none params e = inl refl
  handle_method-IsNews (some m) params e = ground (arith, handle_tools_call-IsNews params m e)

  route_object-IsSendable :
      (b : Option Text) (message : Value) (e : Env (World core))
      → IsSendable (route_object core b message e).dispatch
  unfolding route_object
  route_object-IsSendable none message e =
      finish-IsSendable _ _ _ _ (IsNews-AllNotifications _ (handle_method-IsNews _ _ e))
  route_object-IsSendable (some v) message e = finish-IsSendable _ _ _ _ tt

  route-IsSendable :
      (message : Value) (e : Env (World core)) → IsSendable (route core message e).dispatch
  unfolding route
  route-IsSendable message e = elim (Bool-cases (is_object message)) [
    | inr h ↦ rw (h, route) (error_response-IsReply (some null) _ _, tt)
    | inl h ↦ rw (h, route) (route_object-IsSendable (bad_version core message) message e)
  ]

module _ (core : ServerCore) (trace : TraceContext) where
  -- Whatever a message is, what it is answered with is a JSON-RPC 2.0 response, and what is sent
  -- beside that are notifications.
  pub handle_message-IsSendable :
      (message : Value) (e : Env (World core)) → IsSendable (handle_message core trace message e).0
  unfolding handle_message dispatch
  handle_message-IsSendable message e =
      route-IsSendable core message (open_request_span core trace message e)
