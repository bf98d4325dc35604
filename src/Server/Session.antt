-- ===== src/Server/Session.antt =====
-- src/server.rs: a session's dispatch of one message. The telemetry that the code records is a log
-- in `Env`, beside the session and the state that the service keeps behind `&self`.
use mcp_core.Common.{
  Bool, true, false, not, ◌||◌, Option, none, some, List, [], ◌∷◌, ◌++◌, map, Text, codes, str_eq,
  is_some, and_then, unwrap_or, if◌then◌else◌,
}
use mcp_core.Json.{
  Value, null, string, array, object, end, field, items, get, get_str, is_object, is_array,
}
use mcp_core.Error.{
  invalid_request, method_not_found, invalid_params, internal_error, not_initialized,
}
use mcp_core.Config.{TransportKind, stdio, ServerConfig}
use mcp_core.Service.{
  CallError, CallResult, ok, err, tool, internal, McpService, tool_to_json, to_result_json,
}
use mcp_core.Telemetry.{
  Shown, Level, debug, Label, Record, tool_span, line, increment, record_duration,
}
use mcp_core.Server.Response.{
  Dispatch, Outcome, result, error, nothing, error_response, tool_error_result, finish,
}
use mcp_core.Server.Initialize.{initialize_result}

pub record ServerCore : Type 1 where
  pub config : ServerConfig
  pub service : McpService

pub record Session : Type 0 where
  pub initialized : Bool
  pub transport : TransportKind

unfoldable pub new : Session
new = record { initialized = false; transport = stdio }

unfoldable pub on_transport : Session → TransportKind → Session
on_transport s kind = record s { transport = kind }

pub record Env (W : Type 0) : Type 0 where
  pub session : Session
  pub world : W
  pub log : List Record

pub record Handled (W : Type 0) : Type 0 where
  pub env : Env W
  pub outcome : Outcome
  pub notifications : List Value
  pub method_label : Text

pub record Routed (W : Type 0) : Type 0 where
  pub env : Env W
  pub dispatch : Dispatch
  pub method_label : Text

abbrev pub method_invalid : Text
method_invalid = codes "invalid"

abbrev pub method_other : Text
method_other = codes "other"

abbrev pub label : Text → Text → Label
label key value = record { key = key; value = value }

abbrev pub list_changed_notification : Value
list_changed_notification = object (
    field (codes "jsonrpc") (string (codes "2.0"))
      (field (codes "method") (string (codes "notifications/tools/list_changed")) end))

abbrev pub outcome_label : CallResult → Text
outcome_label (ok r) = codes "ok"
outcome_label (err (internal m)) = codes "error"
outcome_label (err _) = codes "tool_error"

-- `Display` of `RequestId`
unfoldable pub request_id : Option Value → Shown
request_id (some id) = Shown.name_json id
request_id none = Shown.plain (codes "-")

-- `message.get("params")?.get("_meta")?.get("traceparent")?.as_str()?`
abbrev pub traceparent_header : Value → Option Text
traceparent_header message =
    and_then (get message (codes "params"))
      (λ p. and_then (get p (codes "_meta")) (λ m. get_str m (codes "traceparent")))

module _ {W : Type 0} where
  abbrev pub emit : Env W → Record → Env W
  emit e r = record e { log = e.log ++ r ∷ [] }

  abbrev pub set_initialized : Env W → Bool → Env W
  set_initialized e b = record e { session = record (e.session) { initialized = b } }

  abbrev pub handled : Env W → Outcome → List Value → Text → Handled W
  handled e o ns l = record { env = e; outcome = o; notifications = ns; method_label = l }

  -- The `match result` at the end of `handle_tools_call`.
  unfoldable pub report : CallResult → Env W → List Value → Text → Handled W
  report (ok reply) e ns l =
      handled e (result (to_result_json reply))
        (if reply.tools_list_changed then ns ++ list_changed_notification ∷ [] else ns) l
  report (err (internal msg)) e ns l =
      let failed = emit e (line Level.error (codes "tool call failed") none) in
      handled
        (emit failed (line debug (codes "tool call failure detail") (some (Shown.message msg))))
        (error internal_error msg) ns l
  report (err (tool msg)) e ns l =
      handled
        (emit e (line debug (codes "tool returned an error result") (some (Shown.message msg))))
        (result (tool_error_result msg)) ns l
  report (err (CallError.invalid_params msg)) e ns l =
      handled
        (emit e (line debug (codes "tool returned an error result") (some (Shown.message msg))))
        (result (tool_error_result msg)) ns l

module _ (core : ServerCore) where
  open core use {config, service}

  abbrev pub World : Type 0
  World = service.World

  unfoldable pub run_tool : Text → Value → List Value → Text → Env World → Handled World
  run_tool name arguments ns l e =
      let spanned = emit e (tool_span (Shown.name name)) in
      let told =
        emit spanned
          (line debug (codes "tool call arguments") (some (Shown.message_json arguments))) in
      let (reply, world) = service.call_tool told.world name arguments in
      let counted =
        emit (record told { world = world })
          (increment (codes "mcp.tools.call")
            (label (codes "tool") name ∷ label (codes "outcome") (outcome_label reply) ∷ [])) in
      let timed =
        emit counted
          (record_duration (codes "mcp.tools.call.duration") (label (codes "tool") name ∷ [])) in
      report reply timed ns l

  unfoldable pub handle_tools_call : Value → List Value → Text → Env World → Handled World
  handle_tools_call params ns l e =
      if not e.session.initialized
      then handled e (error not_initialized (codes "server not initialized")) ns l
      else elim (get_str params (codes "name")) [
        | none ↦ handled e (error invalid_params (codes "missing tool name")) ns l
        | some name ↦ run_tool name (unwrap_or (get params (codes "arguments")) null) ns l e
      ]

  unfoldable pub tools_json : World → Value
  tools_json w = array (items (map tool_to_json (service.tools w)))

  -- The `match method` of `route`.
  unfoldable pub handle_method : Option Text → Value → Env World → Handled World
  handle_method none params e =
      handled e (error invalid_request (codes "missing method")) [] method_invalid
  handle_method (some m) params e =
      if str_eq m (codes "initialize")
      then handled (set_initialized e true) (result (initialize_result config params)) [] m
      else if str_eq m (codes "notifications/initialized") || str_eq m (codes "initialized")
      then handled (set_initialized e true) nothing [] m
      else if str_eq m (codes "ping")
      then handled e (result (object end)) [] m
      else if str_eq m (codes "tools/list")
      then (if not e.session.initialized
          then handled e (error not_initialized (codes "server not initialized")) [] m
          else handled e (result (object (field (codes "tools") (tools_json e.world) end))) [] m)
      else if str_eq m (codes "tools/call")
      then handle_tools_call params [] m e
      else if str_eq m (codes "shutdown")
      then handled (set_initialized (record e { world = service.shutdown e.world }) false)
          (result null) [] m
      else handled e (error method_not_found (codes "method not found: " ++ m)) [] method_other

  -- a `jsonrpc` member that is a text other than "2.0"
  abbrev pub bad_version : Value → Option Text
  bad_version message = elim (get_str message (codes "jsonrpc")) [
    | none ↦ none
    | some v ↦ if not (str_eq v (codes "2.0")) then some v else none
  ]

  -- `route` of an object, by its refused version if it has one.
  unfoldable pub route_object : Option Text → Value → Env World → Routed World
  route_object (some version) message e =
      let id = get message (codes "id") in
      record {
        env = e;
        dispatch =
            finish (is_some id) id
              (error invalid_request (codes "invalid jsonrpc version: " ++ version)) [];
        method_label = method_invalid;
      }
  route_object none message e =
      let id = get message (codes "id") in
      let params = unwrap_or (get message (codes "params")) null in
      let h = handle_method (get_str message (codes "method")) params e in
      record {
        env = h.env;
        dispatch = finish (is_some id) id h.outcome h.notifications;
        method_label = h.method_label;
      }

  unfoldable pub route : Value → Env World → Routed World
  unfolding route_object
  route message e =
      if not (is_object message)
      then record {
        env = e;
        dispatch = record {
          response = some (
              error_response (some null) invalid_request (
                if is_array message
                then codes "batch requests (JSON arrays) are not supported"
                else codes "request must be a JSON object"));
          notifications = [];
        };
        method_label = method_invalid;
      }
      else route_object (bad_version message) message e

  unfoldable pub dispatch : Value → Env World → Dispatch × Env World
  dispatch message e =
      let r = route message e in
      let labels = label (codes "method") r.method_label ∷ [] in
      let counted = emit r.env (increment (codes "mcp.requests") labels) in
      (r.dispatch, emit counted (record_duration (codes "mcp.request.duration") labels))
