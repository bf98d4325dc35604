-- ===== src/Server/Tests.antt =====
-- src/server.rs on concrete messages, with a service that counts its calls.
use mcp_core.Common.{ℕ, suc, true, false, none, some, [], ◌∷◌, ◌++◌, ◌≡◌, refl, Text, codes, str_eq}
use mcp_core.Json.{Value, Fields, string, object, end, field, lookup, get, get_str}
use mcp_core.Config.{ServerConfig, latest_protocol_version}
use mcp_core.Config
use mcp_core.Service
use mcp_core.Service.{McpService, CallResult, ok, text_reply, tools_changed}
use mcp_core.Telemetry.{TraceContext, parent}
use mcp_core.Server.Session
use mcp_core.Server.Session.{
  set_initialized, ServerCore, Env, World, bad_version, route, traceparent_header,
}
use mcp_core.Server.Trace.{handle_message}
use mcp_core.Server.Negotiation.{supports}
use mcp_core.Server.Initialized.{params_of, Introduces, route_initialize}
use mcp_core.Server.Initialize.{requested_version}
use mcp_core.Server.Answers.{Answered, is_silent, route_notification, route_request}
use mcp_core.Server.Tools.{Reports, announces, IsToolRequest, tool_arguments, route_tools_call}
use mcp_core.Server.Handshake.{moved, effect, route-moved, message_label, route-message_label}
use mcp_core.Server.Unserved.{handle_all, handle_all_closed}
use mcp_core.Server.Records.{info_band, span_records, usable, count_records}
use mcp_core.Server.Privacy.{route_records, handle_message_band}

abbrev demo_config : ServerConfig
demo_config = Config.with_title (Config.new (codes "demo") (codes "1.0")) (codes "Demo")

abbrev counter : McpService
counter = record {
  World = ℕ;
  tools = λ calls. Service.new (codes "count") (codes "counts its calls") (object end) ∷ [];
  call_tool = λ calls name arguments. (ok (tools_changed (text_reply name)), suc calls);
  shutdown = λ calls. 0;
}

abbrev demo : ServerCore
demo = record { config = demo_config; service = counter }

abbrev untraced : TraceContext
untraced = record {
  TraceParent = Text;
  extract_traceparent = λ header. parent header;
  trace_id = λ p. p;
  span_id = λ p. p;
  sampled = λ p. true;
  otel = false;
  set_parent_error = none;
}

abbrev closed : Env ℕ
closed = record { session = Session.new; world = 0; log = [] }

abbrev opened : Env ℕ
opened = record closed { session = record (closed.session) { initialized = true } }

abbrev ping : Fields
ping =
    field (codes "jsonrpc") (string (codes "2.0"))
      (field (codes "method") (string (codes "ping")) end)

abbrev call : Fields
call = field (codes "id") (string (codes "7")) (
    field (codes "method") (string (codes "tools/call"))
      (field (codes "params") (object (field (codes "name") (string (codes "count")) end)) end))

abbrev hello : Fields
hello = field (codes "id") (string (codes "1")) (
    field (codes "method") (string (codes "initialize")) (
      field (codes "params")
        (object (field (codes "protocolVersion") (string (codes "2024-11-05")) end)) end))

route_initialize_example :
    let r = route demo (object hello) closed in
    let asked = requested_version demo_config (params_of hello) in
    ((v : Text) × (x : Value) × (r.dispatch.response ≡ some x)
      × (get x (codes "id") ≡ some (string (codes "1")))
      × Introduces demo_config v x
      × (supports demo_config v ≡ true)
      × (str_eq v asked ≡ supports demo_config asked))
    × (r.dispatch.notifications ≡ [])
    × (r.env ≡ set_initialized closed true)
unfolding lookup str_eq Config.new Config.with_title
route_initialize_example =
    route_initialize demo hello (string (codes "1")) closed (λ e. cc)
      (record { has_id = refl; version = refl; method = refl })

route_notification_example : (route demo (object ping) closed).dispatch.response ≡ none
unfolding lookup str_eq
route_notification_example = route_notification demo ping closed refl

route_request_example :
    Answered
      (is_silent demo (object call))
      (string (codes "7"))
      (route demo (object call) opened).dispatch.response
unfolding lookup str_eq
route_request_example = route_request demo call (string (codes "7")) opened refl

call-IsToolRequest : IsToolRequest demo call (string (codes "7")) (codes "count")
unfolding lookup str_eq
call-IsToolRequest = record { has_id = refl; version = refl; method = refl; named = refl }

route_tools_call_example :
    let called = demo.service.call_tool 0 (codes "count") (tool_arguments call) in
    let r = route demo (object call) opened in
    ((v : Value) × (r.dispatch.response ≡ some v) × Reports called.0 v)
    × (r.env.world ≡ called.1)
    × (r.env.session ≡ opened.session)
    × (r.dispatch.notifications ≡ announces called.0)
route_tools_call_example =
    route_tools_call demo call (string (codes "7")) (codes "count") opened call-IsToolRequest refl

route-moved_example :
    (route demo (object call) opened).env.session.initialized
    ≡ moved (effect (bad_version demo (object call)) (get_str (object call) (codes "method"))) true
route-moved_example = route-moved demo call opened

route-message_label_example :
    (route demo (object call) opened).method_label ≡ message_label demo (object call)
route-message_label_example = route-message_label demo (object call) opened

-- A service without tools.
abbrev elsewhere : McpService
elsewhere = record counter { tools = λ calls. [] }

handle_all_closed_example :
    ((handle_all demo untraced (object call ∷ object ping ∷ []) closed).1.world ≡ 0)
    × ((handle_all demo untraced (object call ∷ object ping ∷ []) closed).1.session
        ≡ closed.session)
    × ((handle_all demo untraced (object call ∷ object ping ∷ []) closed).0
        ≡ (handle_all
            (record demo { service = elsewhere })
            untraced
            (object call ∷ object ping ∷ [])
            (record closed { world = 7 })).0)
unfolding Session.new lookup str_eq
handle_all_closed_example =
    handle_all_closed demo untraced elsewhere (object call ∷ object ping ∷ []) closed
      (record closed { world = 7 }) refl refl refl

handle_message_band_example :
    info_band (handle_message demo untraced (object call) opened).1.log
    ≡ info_band opened.log
      ++ (span_records untraced
            (get_str (object call) (codes "method"))
            (get (object call) (codes "id"))
            opened.session.transport
            (usable untraced (traceparent_header (object call)))
          ++ (route_records demo (object call) opened.session.initialized opened.world
              ++ count_records (route demo (object call) opened).method_label))
handle_message_band_example = handle_message_band demo untraced (object call) opened
