-- ===== src/Server/Privacy.antt =====
-- What src/server.rs lets out above DEBUG: names, ids and outcomes, and no arguments.
use mcp_core.Common.{
  Bool-cases, sym, inl, inr, str_eq_iff, str_eq_refl, Option-cases, Bool, ◌&&◌, unwrap_or, Option,
  none, some, List, [], ◌∷◌, ◌++◌, ◌≡◌, refl, append_assoc, append-nil, arith, Text, codes, str_eq,
  if◌then◌else◌,
}
use mcp_core.Json.{Value, null, object, get, get_str}
use mcp_core.Service.{CallResult, ok, err, tool, invalid_params, internal}
use mcp_core.Telemetry.{Extracted, Record, set_parent, parent, unusable, TraceContext}
use mcp_core.Server.Handshake.{route-message_label, open_request_span_keeps}
use mcp_core.Server.Session.{
  traceparent_header, ServerCore, World, Env, report, run_tool, handle_tools_call, handle_method,
  bad_version, route_object, route, dispatch,
}
use mcp_core.Server.Trace.{
  accept_traceparent, caller_trace_parent, continue_trace, join_caller_trace, open_request_span,
  handle_message,
}
use mcp_core.Server.Records.{
  info_band, info_band-append, trace_records, span_records, fault_records, call_records, usable,
  count_records,
}

module _ (core : ServerCore) where
  -- The records of a call by a message, if it makes one.
  abbrev pub called_records : Option Text → Option Text → Value → Bool → World core → List Record
  called_records (some v) method params i w = []
  called_records none none params i w = []
  called_records none (some m) params i w =
      if str_eq m (codes "tools/call") && i
      then elim (get_str params (codes "name")) [
        | none ↦ []
        | some name ↦
            call_records name
              (core.service.call_tool w name (unwrap_or (get params (codes "arguments")) null)).0
      ]
      else []

  abbrev pub route_records : Value → Bool → World core → List Record
  route_records (object fs) i w =
      called_records (bad_version core (object fs)) (get_str (object fs) (codes "method"))
        (unwrap_or (get (object fs) (codes "params")) null) i w
  route_records _ i w = []

  band-report :
      (r : CallResult) (e : Env (World core)) (ns : List Value) (l : Text)
      → info_band (report r e ns l).env.log ≡ info_band e.log ++ fault_records r
  unfolding report
  band-report (ok r) e ns l = rw append-nil
  band-report (err (tool m)) e ns l = rw info_band-append
  band-report (err (invalid_params m)) e ns l = rw info_band-append
  band-report (err (internal m)) e ns l = simp (info_band-append, append_assoc)

  band-run_tool :
      (name : Text) (args : Value) (ns : List Value) (l : Text) (e : Env (World core))
      → info_band (run_tool core name args ns l e).env.log
        ≡ info_band e.log ++ call_records name (core.service.call_tool e.world name args).0
  unfolding run_tool
  band-run_tool name args ns l e = simp (band-report, info_band-append, append_assoc)

  band-handle_tools_call :
      (params : Value) (ns : List Value) (l : Text) (e : Env (World core))
      → info_band (handle_tools_call core params ns l e).env.log
        ≡ info_band e.log
          ++ called_records none (some (codes "tools/call")) params e.session.initialized e.world
  unfolding handle_tools_call str_eq
  band-handle_tools_call params ns l e = elim (Option-cases (get_str params (codes "name"))) [
    | inl n ↦ ground (arith, append-nil (info_band e.log))
    | inr (name, n) ↦ ground (
      arith,
      append-nil (info_band e.log),
      band-run_tool name (unwrap_or (get params (codes "arguments")) null) ns l e,
    )
  ]

  band-handle_method :
      (m : Option Text) (params : Value) (e : Env (World core))
      → info_band (handle_method core m params e).env.log
        ≡ info_band e.log ++ called_records none m params e.session.initialized e.world
  unfolding handle_method
  band-handle_method none params e = sym (append-nil _)
  band-handle_method (some m) params e = ground (
    arith,
    append-nil (info_band e.log),
    band-handle_tools_call params [] m e,
    str_eq_refl (codes "tools/call"),
    str_eq_iff m (codes "initialize"),
    str_eq_iff m (codes "notifications/initialized"),
    str_eq_iff m (codes "initialized"),
    str_eq_iff m (codes "ping"),
    str_eq_iff m (codes "tools/list"),
    str_eq_iff m (codes "tools/call"),
  )

  band-route_object :
      (b : Option Text) (message : Value) (e : Env (World core))
      → info_band (route_object core b message e).env.log
        ≡ info_band e.log
          ++ called_records b
              (get_str message (codes "method"))
              (unwrap_or (get message (codes "params")) null)
              e.session.initialized
              e.world
  unfolding route_object
  band-route_object none message e = band-handle_method _ _ e
  band-route_object (some v) message e = sym (append-nil _)

  band-route :
      (message : Value) (e : Env (World core))
      → info_band (route core message e).env.log
        ≡ info_band e.log ++ route_records message e.session.initialized e.world
  unfolding route
  band-route (object fs) e = band-route_object (bad_version core (object fs)) (object fs) e
  band-route message e = sym (append-nil _)

module _ (core : ServerCore) (trace : TraceContext) where
  band-accept_traceparent :
      (x : Extracted trace.TraceParent) (e : Env (World core))
      → let r = accept_traceparent core trace x e in
        (r.0 ≡ (elim x [ parent p ↦ some p | unusable why ↦ none ]))
        × (info_band r.1.log ≡ info_band e.log)
        × (r.1.session ≡ e.session)
  unfolding accept_traceparent
  band-accept_traceparent (parent p) e = (refl, refl, refl)
  band-accept_traceparent (unusable why) e = (refl, rw info_band-append (rw append-nil), refl)

  band-caller_trace_parent :
      (h : Option Text) (e : Env (World core))
      → let r = caller_trace_parent core trace h e in
        (r.0 ≡ usable trace h) × (info_band r.1.log ≡ info_band e.log) × (r.1.session ≡ e.session)
  unfolding caller_trace_parent
  band-caller_trace_parent none e = (refl, refl, refl)
  band-caller_trace_parent (some h) e =
      unfold accept_traceparent in band-accept_traceparent (trace.extract_traceparent h) e

  band-join_caller_trace :
      (p : trace.TraceParent) (e : Env (World core))
      → info_band (join_caller_trace core trace p e).log
        ≡ info_band e.log ++ set_parent (trace.trace_id p) (trace.span_id p) (trace.sampled p) ∷ []
  unfolding join_caller_trace
  band-join_caller_trace p e = elim (Option-cases trace.set_parent_error) [
    | inl h ↦ rw (h, join_caller_trace) (simp info_band-append)
    | inr (why, h) ↦ rw (h, join_caller_trace) (simp (info_band-append, append_assoc))
  ]

  band-continue_trace :
      (o : Option trace.TraceParent) (e : Env (World core))
      → info_band (continue_trace core trace o e).log ≡ info_band e.log ++ trace_records trace o
  unfolding continue_trace
  band-continue_trace none e = sym (append-nil _)
  band-continue_trace (some p) e = elim (Bool-cases trace.otel) [
    | inl h ↦ simp h (simp (band-join_caller_trace, info_band-append, append_assoc))
    | inr h ↦ simp h (simp info_band-append)
  ]

  band-open_request_span :
      (message : Value) (e : Env (World core))
      → info_band (open_request_span core trace message e).log
        ≡ info_band e.log
          ++ span_records trace
              (get_str message (codes "method"))
              (get message (codes "id"))
              e.session.transport
              (usable trace (traceparent_header message))
  unfolding open_request_span
  band-open_request_span message e =
      let (caller, band, session) = band-caller_trace_parent (traceparent_header message) e in
      rw (band-continue_trace, caller, session) (rw info_band-append (rw band (rw append_assoc)))

  -- All that handling a message records above DEBUG: the span of the request, with the caller's
  -- trace if it sent one; for a tool call the tool's name and the kind of its outcome; and the
  -- count of the request. No argument of a tool, no parameter but the tool's name and the trace,
  -- and no message of an error is among it.
  pub handle_message_band :
      (message : Value) (e : Env (World core))
      → info_band (handle_message core trace message e).1.log
        ≡ info_band e.log
          ++ (span_records trace
                (get_str message (codes "method"))
                (get message (codes "id"))
                e.session.transport
                (usable trace (traceparent_header message))
              ++ (route_records core message e.session.initialized e.world
                  ++ count_records (route core message e).method_label))
  unfolding handle_message dispatch
  handle_message_band message e =
      let (session, world) = open_request_span_keeps core trace message e in
      simp (
        info_band-append,
        band-route core,
        band-open_request_span,
        append_assoc,
        session,
        world,
        route-message_label core,
      )
