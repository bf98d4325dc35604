-- ===== src/Server/Answers.antt =====
-- Which messages src/server.rs answers, and with what.
use mcp_core.Common.{
  Bool, true, false, not, ◌&&◌, ◌||◌, Option, none, some, List, [], ◌≡◌, ◌≢◌, refl, is_some, arith,
  Text, codes, str_eq,
}
use mcp_core.Json.{Number, Value, string, object, Fields, lookup, get, get_str}
use mcp_core.Error.{invalid_request}
use mcp_core.Service.{CallResult, ok, err, tool, invalid_params, internal}
use mcp_core.Server.Response.{
  Outcome, result, error, nothing, success_response, error_response, finish,
}
use mcp_core.Server.Session.{
  route_object, route_object, ServerCore, World, Env, report, run_tool, handle_tools_call,
  handle_method, bad_version, route,
}

-- A JSON-RPC 2.0 response to the request `id`: the id is the request's, and it has exactly one of
-- a result and an error.
pub record IsResponse (id v : Value) : Type 0 where
  pub version : get v (codes "jsonrpc") ≡ some (string (codes "2.0"))
  pub same_id : get v (codes "id") ≡ some id
  pub result_or_error : is_some (get v (codes "result")) ≡ not (is_some (get v (codes "error")))

success_response-IsResponse : (id v : Value) → IsResponse id (success_response (some id) v)
unfolding success_response lookup str_eq
success_response-IsResponse id v = record { version = refl; same_id = refl; result_or_error = refl }

error_response-IsResponse :
    (id : Value) (c : Number) (m : Text) → IsResponse id (error_response (some id) c m)
unfolding error_response lookup str_eq
error_response-IsResponse id c m = record { version = refl; same_id = refl; result_or_error = refl }

-- The two names of the notice that the handshake is over.
abbrev pub is_initialized_notice : Option Text → Bool
is_initialized_notice none = false
is_initialized_notice (some m) =
    not (str_eq m (codes "initialize"))
    && (str_eq m (codes "notifications/initialized") || str_eq m (codes "initialized"))

-- How a request is answered: with nothing, or with one response to its id.
abbrev pub Answered : Bool → Value → Option Value → Type 0
Answered true id r = r ≡ none
Answered false id r = (v : Value) × (r ≡ some v) × IsResponse id v

module _ (core : ServerCore) where
  report-ne-nothing :
      (r : CallResult) (e : Env (World core)) (ns : List Value) (l : Text)
      → (report r e ns l).outcome ≢ nothing
  unfolding report
  report-ne-nothing (ok r) e ns l = cc
  report-ne-nothing (err (tool m)) e ns l = cc
  report-ne-nothing (err (invalid_params m)) e ns l = cc
  report-ne-nothing (err (internal m)) e ns l = cc

  run_tool-ne-nothing :
      (name : Text) (args : Value) (ns : List Value) (l : Text) (e : Env (World core))
      → (run_tool core name args ns l e).outcome ≢ nothing
  unfolding run_tool
  run_tool-ne-nothing name args ns l e = report-ne-nothing _ _ ns l

  handle_tools_call-ne-nothing :
      (params : Value) (ns : List Value) (l : Text) (e : Env (World core))
      → (handle_tools_call core params ns l e).outcome ≢ nothing
  unfolding handle_tools_call
  handle_tools_call-ne-nothing params ns l e = grind (arith, run_tool-ne-nothing)

  handle_method-ne-nothing :
      (m : Option Text) (params : Value) (e : Env (World core))
      → is_initialized_notice m ≡ false
      → (handle_method core m params e).outcome ≢ nothing
  unfolding handle_method
  handle_method-ne-nothing none params e h = cc
  handle_method-ne-nothing (some m) params e h =
      ground (arith, handle_tools_call-ne-nothing params [] m e)

  handle_method_notice :
      (m : Option Text) (params : Value) (e : Env (World core))
      → is_initialized_notice m ≡ true
      → (handle_method core m params e).outcome ≡ nothing
  unfolding handle_method
  handle_method_notice none params e h = cc
  handle_method_notice (some m) params e h = ground arith

  finish-IsResponse :
      (id : Value) (o : Outcome) (ns : List Value)
      → o ≢ nothing
      → (v : Value) × ((finish true (some id) o ns).response ≡ some v) × IsResponse id v
  unfolding finish
  finish-IsResponse id (result x) ns h = (_, refl, success_response-IsResponse id x)
  finish-IsResponse id (error c m) ns h = (_, refl, error_response-IsResponse id c m)
  finish-IsResponse id nothing ns h = absurd (h refl)

  finish_silent :
      (id : Option Value) (o : Outcome) (ns : List Value) → (finish false id o ns).response ≡ none
  unfolding finish
  finish_silent id (result x) ns = refl
  finish_silent id _ ns = refl

  -- A message object without an `id` is never answered, whatever its method and its parameters,
  -- and whether or not it is well formed.
  pub route_notification :
      (fs : Fields) (e : Env (World core))
      → lookup fs (codes "id") ≡ none
      → (route core (object fs) e).dispatch.response ≡ none
  unfolding route
  route_notification fs e h = go (bad_version core (object fs))
    where
      go : (b : Option Text) → (route_object core b (object fs) e).dispatch.response ≡ none
      go none = rw h (finish_silent none _ _)
      go (some v) = rw h (finish_silent none _ _)

  -- An object is left unanswered if it is a notice that the handshake is over.
  abbrev pub is_silent : Value → Bool
  is_silent message =
      not (is_some (bad_version core message))
      && is_initialized_notice (get_str message (codes "method"))

  handle_method-Answered :
      (b : Bool) (m : Option Text) (params : Value) (id : Value) (e : Env (World core))
      → is_initialized_notice m ≡ b
      → let h = handle_method core m params e in
        Answered b id (finish true (some id) h.outcome h.notifications).response
  unfolding finish
  handle_method-Answered true m params id e k = rw (handle_method_notice m params e k) refl
  handle_method-Answered false m params id e k =
      finish-IsResponse id _ _ (handle_method-ne-nothing m params e k)

  route_object_request :
      (b : Option Text) (fs : Fields) (id : Value) (e : Env (World core))
      → lookup fs (codes "id") ≡ some id
      → Answered
          (not (is_some b) && is_initialized_notice (get_str (object fs) (codes "method")))
          id
          (route_object core b (object fs) e).dispatch.response
  unfolding route_object
  route_object_request (some w) fs id e h =
      rw h (finish-IsResponse id (error invalid_request _) [] (λ k. cc))
  route_object_request none fs id e h = rw h (handle_method-Answered _ _ _ id e refl)

  -- A message object with an `id` is answered by one response to that id, with a result or an
  -- error, unless its method is one of the notices that the handshake is over, and its version is
  -- not refused: then it is not answered.
  pub route_request :
      (fs : Fields) (id : Value) (e : Env (World core))
      → lookup fs (codes "id") ≡ some id
      → Answered (is_silent (object fs)) id (route core (object fs) e).dispatch.response
  unfolding route
  route_request fs id e = route_object_request (bad_version core (object fs)) fs id e
