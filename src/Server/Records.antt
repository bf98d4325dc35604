-- ===== src/Server/Records.antt =====
-- What src/server.rs is to record of a message above DEBUG.
use mcp_core.Common.{
  Bool, true, false, unwrap_or, Option, none, some, List, [], ◌∷◌, ◌++◌, ◌≡◌, refl, arith, Text,
  codes, if◌then◌else◌,
}
use mcp_core.Json.{Value}
use mcp_core.Config.{TransportKind}
use mcp_core.Service.{CallResult, err, internal}
use mcp_core.Telemetry.{
  Shown, Level, debug, Record, request_span, trace_id, set_parent, tool_span, line, increment,
  record_duration, parent, unusable, TraceContext,
}
use mcp_core.Server.Session.{label, outcome_label, request_id, method_invalid}

abbrev pub is_debug : Record → Bool
is_debug (line debug s f) = true
is_debug _ = false

-- The records that are not DEBUG lines.
abbrev pub info_band : List Record → List Record
info_band [] = []
info_band (r ∷ rs) = if is_debug r then info_band rs else r ∷ info_band rs

pub info_band-append : (xs ys : List Record) → info_band (xs ++ ys) ≡ info_band xs ++ info_band ys
info_band-append [] ys = refl
info_band-append (x ∷ xs) ys = ground (arith, info_band-append xs ys)

-- The caller's trace on the span of a request.
abbrev pub trace_records : (trace : TraceContext) → Option trace.TraceParent → List Record
trace_records trace none = []
trace_records trace (some p) =
    trace_id (trace.trace_id p)
    ∷ (if trace.otel
        then set_parent (trace.trace_id p) (trace.span_id p) (trace.sampled p) ∷ []
        else [])

-- The span of a request: its method, its id, its transport, and the caller's trace if it sent one.
abbrev pub span_records :
    (trace : TraceContext)
    → Option Text
    → Option Value
    → TransportKind
    → Option trace.TraceParent
    → List Record
span_records trace method id transport caller =
    request_span (Shown.name (unwrap_or method method_invalid)) (request_id id) transport
    ∷ trace_records trace caller

-- An internal fault of a tool is told at ERROR, without its message.
abbrev pub fault_records : CallResult → List Record
fault_records (err (internal m)) = line Level.error (codes "tool call failed") none ∷ []
fault_records _ = []

-- A call of the service: the tool's name and the kind of its outcome.
abbrev pub call_records : Text → CallResult → List Record
call_records name r =
    tool_span (Shown.name name)
    ∷ increment (codes "mcp.tools.call")
        (label (codes "tool") name ∷ label (codes "outcome") (outcome_label r) ∷ [])
    ∷ record_duration (codes "mcp.tools.call.duration") (label (codes "tool") name ∷ [])
    ∷ fault_records r

-- The caller's trace, if the message carries one that can be used.
abbrev pub usable : (trace : TraceContext) → Option Text → Option trace.TraceParent
usable trace none = none
usable trace (some header) = elim (trace.extract_traceparent header) [
  | parent p ↦ some p
  | unusable why ↦ none
]

-- The count of a request under its label.
abbrev pub count_records : Text → List Record
count_records l =
    increment (codes "mcp.requests") (label (codes "method") l ∷ [])
    ∷ record_duration (codes "mcp.request.duration") (label (codes "method") l ∷ [])
    ∷ []
