-- ===== src/Telemetry.antt =====
-- What src/server.rs records through `tracing` and `adelie-telemetry`, in order. A field holds the
-- wrapper that the code puts round a value, not its rendering; durations are not modelled.
use mcp_core.Common.{Bool, Option, List, Text}
use mcp_core.Json.{Value}
use mcp_core.Config.{TransportKind}

-- `Safe::name` and `Safe::message`, of a text or of a JSON value
pub data Shown : Type 0 where
  name : Text → Shown
  name_json : Value → Shown
  message : Text → Shown
  message_json : Value → Shown
  plain : Text → Shown

pub data Level : Type 0 where
  error info debug : Level

pub record Label : Type 0 where
  pub key : Text
  pub value : Text

pub data Record : Type 0 where
  -- `info_span!("mcp.request", method, request_id, transport)`
  request_span : Shown → Shown → TransportKind → Record
  -- the span's `trace_id` field
  trace_id : Text → Record
  -- `span.set_parent`: trace id, span id, sampled
  set_parent : Text → Text → Bool → Record
  -- `info_span!("mcp.tools.call", tool)`
  tool_span : Shown → Record
  -- an event: its level, its message, and one field where it has one
  line : Level → Text → Option Shown → Record
  increment : Text → List Label → Record
  record_duration : Text → List Label → Record

-- `Result<TraceParent, _>`; an error is the text that it displays
pub data Extracted (P : Type 0) : Type 0 where
  parent : P → Extracted P
  unusable : Text → Extracted P

-- `adelie_telemetry::trace_context`, whether the feature `otel` is on, and the outcome of
-- `span.set_parent`: an error's text where there is no OpenTelemetry layer.
pub record TraceContext : Type 1 where
  pub TraceParent : Type 0
  pub extract_traceparent : Text → Extracted TraceParent
  pub trace_id : TraceParent → Text
  pub span_id : TraceParent → Text
  pub sampled : TraceParent → Bool
  pub otel : Bool
  pub set_parent_error : Option Text
