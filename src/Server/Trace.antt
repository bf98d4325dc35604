-- ===== src/Server/Trace.antt =====
-- src/server.rs: `handle_message`, which joins the caller's trace and dispatches.
use mcp_core.Common.{Option, none, some, Text, codes, unwrap_or, if◌then◌else◌}
use mcp_core.Json.{Value, get, get_str}
use mcp_core.Telemetry.{
  Extracted, Shown, debug, request_span, trace_id, set_parent, line, parent, unusable, TraceContext,
}
use mcp_core.Server.Response.{Dispatch}
use mcp_core.Server.Session.{
  World, Env, ServerCore, emit, traceparent_header, request_id, method_invalid, dispatch,
}

module _ (core : ServerCore) (trace : TraceContext) where
  open trace use {TraceParent, extract_traceparent}

  -- The `match` of `caller_trace_parent`.
  unfoldable pub accept_traceparent :
      Extracted TraceParent → Env (World core) → Option TraceParent × Env (World core)
  accept_traceparent (parent p) e = (some p, e)
  accept_traceparent (unusable why) e = (
    none,
    emit e (
        line debug (codes "ignoring an unusable traceparent and starting a new trace")
          (some (Shown.message why))),
  )

  unfoldable pub caller_trace_parent :
      Option Text → Env (World core) → Option TraceParent × Env (World core)
  unfolding accept_traceparent
  caller_trace_parent none e = (none, e)
  caller_trace_parent (some header) e = accept_traceparent (extract_traceparent header) e

  unfoldable pub join_caller_trace : TraceParent → Env (World core) → Env (World core)
  join_caller_trace p e =
      let joined = emit e (set_parent (trace.trace_id p) (trace.span_id p) (trace.sampled p)) in
      elim trace.set_parent_error [
        | none ↦ joined
        | some why ↦ emit joined (
            line debug (codes "the request span could not join the caller's trace")
              (some (Shown.plain why)))
      ]

  -- `if let Some(parent) = caller_trace`
  unfoldable pub continue_trace : Option TraceParent → Env (World core) → Env (World core)
  unfolding join_caller_trace
  continue_trace none e = e
  continue_trace (some p) e =
      let recorded = emit e (trace_id (trace.trace_id p)) in
      if trace.otel then join_caller_trace p recorded else recorded

  -- `handle_message` up to its call of `dispatch`.
  unfoldable pub open_request_span : Value → Env (World core) → Env (World core)
  unfolding caller_trace_parent continue_trace
  open_request_span message e =
      let (caller_trace, read) = caller_trace_parent (traceparent_header message) e in
      continue_trace caller_trace (
        emit read (
          request_span (Shown.name (unwrap_or (get_str message (codes "method")) method_invalid))
            (request_id (get message (codes "id"))) read.session.transport))

  unfoldable pub handle_message : Value → Env (World core) → Dispatch × Env (World core)
  handle_message message e = dispatch core message (open_request_span message e)
