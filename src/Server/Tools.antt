-- ===== src/Server/Tools.antt =====
-- The tool calls of src/server.rs: what the client sees of the service's reply.
use mcp_core.Common.{
  true, and_then, unwrap_or, Option, none, some, List, [], ◌∷◌, ◌≡◌, refl, arith, Text, codes,
  str_eq, if◌then◌else◌,
}
use mcp_core.Json.{
  Value, null, bool, string, number, array, object, Fields, lookup, get, get_str, cons, nil, end,
  field,
}
use mcp_core.Error.{internal_error}
use mcp_core.Service.{CallResult, ok, err, tool, invalid_params, internal, to_result_json}
use mcp_core.Server.Response.{success_response, error_response, tool_error_result, finish}
use mcp_core.Server.Session.{
  ServerCore, World, Env, list_changed_notification, report, run_tool, handle_tools_call,
  handle_method, bad_version, route_object, route,
}

abbrev pub error_member : Value → Text → Option Value
error_member v k = and_then (get v (codes "error")) (λ x. get x k)

abbrev pub result_member : Value → Text → Option Value
result_member v k = and_then (get v (codes "result")) (λ x. get x k)

abbrev pub text_block : Text → Value
text_block t =
    object (field (codes "type") (string (codes "text")) (field (codes "text") (string t) end))

-- A tool that declined: a successful response whose result holds the message as error content.
abbrev pub Declines : Text → Value → Type 0
Declines m v =
    (get v (codes "error") ≡ none)
    × (result_member v (codes "isError") ≡ some (bool true))
    × (result_member v (codes "content") ≡ some (array (cons (text_block m) nil)))

-- How a response shows the reply of the service.
abbrev pub Reports : CallResult → Value → Type 0
Reports (ok r) v =
    (get v (codes "error") ≡ none) × (get v (codes "result") ≡ some (to_result_json r))
Reports (err (tool m)) v = Declines m v
Reports (err (invalid_params m)) v = Declines m v
Reports (err (internal m)) v =
    (get v (codes "result") ≡ none)
    × (error_member v (codes "code") ≡ some (number internal_error))
    × (error_member v (codes "message") ≡ some (string m))

abbrev pub announces : CallResult → List Value
announces (ok r) = if r.tools_list_changed then list_changed_notification ∷ [] else []
announces (err x) = []

-- A request for a tool by name, of a version that is not refused.
pub record IsToolRequest (core : ServerCore) (fs : Fields) (id : Value) (name : Text) : Type 0 where
  pub has_id : lookup fs (codes "id") ≡ some id
  pub version : bad_version core (object fs) ≡ none
  pub method : get_str (object fs) (codes "method") ≡ some (codes "tools/call")
  pub named : get_str (unwrap_or (lookup fs (codes "params")) null) (codes "name") ≡ some name

abbrev pub tool_arguments : Fields → Value
tool_arguments fs =
    unwrap_or (get (unwrap_or (lookup fs (codes "params")) null) (codes "arguments")) null

module _ (core : ServerCore) where
  report_lem :
      (r : CallResult) (e : Env (World core)) (l : Text) (id : Value)
      → let h = report r e [] l in
        ((v : Value) × ((finish true (some id) h.outcome h.notifications).response ≡ some v)
          × Reports r v)
        × (h.env.world ≡ e.world)
        × (h.env.session ≡ e.session)
        × ((finish true (some id) h.outcome h.notifications).notifications ≡ announces r)
  unfolding report finish success_response error_response tool_error_result lookup str_eq
  report_lem (ok r) e l id = ((_, refl, (refl, refl)), refl, refl, refl)
  report_lem (err (tool m)) e l id = ((_, refl, (refl, refl, refl)), refl, refl, refl)
  report_lem (err (invalid_params m)) e l id = ((_, refl, (refl, refl, refl)), refl, refl, refl)
  report_lem (err (internal m)) e l id = ((_, refl, (refl, refl, refl)), refl, refl, refl)

  handle_method-tools_call :
      (params : Value) (e : Env (World core))
      → handle_method core (some (codes "tools/call")) params e
        ≡ handle_tools_call core params [] (codes "tools/call") e
  unfolding handle_method str_eq
  handle_method-tools_call params e = refl

  handle_tools_call_named :
      (params : Value) (name : Text) (ns : List Value) (l : Text) (e : Env (World core))
      → get_str params (codes "name") ≡ some name
      → e.session.initialized ≡ true
      → handle_tools_call core params ns l e
        ≡ run_tool core name (unwrap_or (get params (codes "arguments")) null) ns l e
  unfolding handle_tools_call
  handle_tools_call_named params name ns l e h i = ground arith

  -- The effect of a routed request that the service is called for.
  route_object_named :
      (fs : Fields) (id : Value) (name : Text) (e : Env (World core))
      → IsToolRequest core fs id name
      → e.session.initialized ≡ true
      → let h = run_tool core name (tool_arguments fs) [] (codes "tools/call") e in
        route core (object fs) e ≡ record {
          env = h.env;
          dispatch = finish true (some id) h.outcome h.notifications;
          method_label = h.method_label;
        }
  unfolding route route_object
  route_object_named fs id name e h i =
      rw (h.version, route_object)
        (rw h.method (
          rw handle_method-tools_call
            (rw (handle_tools_call_named _ name [] _ e h.named i) (rw h.has_id))))

  -- In an initialized session, a request for a tool calls the service once, with the arguments of
  -- the request, and answers what the service replied: a reply is the result; a tool failure and
  -- refused arguments are error content in a successful response, alike; an internal fault alone is
  -- a protocol error. The client is told that the list of tools changed exactly if the reply says
  -- so, and the session stays as it was.
  pub route_tools_call :
      (fs : Fields) (id : Value) (name : Text) (e : Env (World core))
      → IsToolRequest core fs id name
      → e.session.initialized ≡ true
      → let called = core.service.call_tool e.world name (tool_arguments fs) in
        let r = route core (object fs) e in
        ((v : Value) × (r.dispatch.response ≡ some v) × Reports called.0 v)
        × (r.env.world ≡ called.1)
        × (r.env.session ≡ e.session)
        × (r.dispatch.notifications ≡ announces called.0)
  unfolding run_tool
  route_tools_call fs id name e h i = rw (route_object_named fs id name e h i) (report_lem _ _ _ id)
