-- ===== src/Runner/Opening.antt =====
-- How the messages of a connection open its session, in src/server.rs.
use mcp_core.Common.{Bool, List, [], ◌∷◌, ◌++◌, ◌≡◌, refl, ap, ◌∙◌, codes}
use mcp_core.Json.{Value, object, get_str}
use mcp_core.Server.Session.{World, Env, bad_version, route, dispatch}
use mcp_core.Server.Trace.{open_request_span, handle_message}
use mcp_core.Server.Handshake.{effect, moved, route-moved, open_request_span_keeps}
use mcp_core.Runner.Pump.{Parsed, parsed, unparsed, Driver}

module _ (d : Driver) where
  -- What a message does to the flag `initialized`.
  abbrev pub message_moved : Value → Bool → Bool
  message_moved (object fs) b =
      moved (effect (bad_version d.core (object fs)) (get_str (object fs) (codes "method"))) b
  message_moved _ b = b

  -- The flag after some messages.
  abbrev pub flag_after : List Value → Bool → Bool
  flag_after [] b = b
  flag_after (v ∷ vs) b = flag_after vs (message_moved v b)

  pub flag_after-append :
      (vs ws : List Value) (b : Bool) → flag_after (vs ++ ws) b ≡ flag_after ws (flag_after vs b)
  flag_after-append [] ws b = refl
  flag_after-append (v ∷ vs) ws b = flag_after-append vs ws (message_moved v b)

  -- The message of a text, if it is JSON.
  abbrev pub parsed_value : Parsed → List Value
  parsed_value (parsed v) = v ∷ []
  parsed_value (unparsed e) = []

  route-message_moved :
      (v : Value) (e : Env (World d.core))
      → (route d.core v e).env.session.initialized ≡ message_moved v e.session.initialized
  unfolding route
  route-message_moved (object fs) e = route-moved d.core fs e
  route-message_moved _ e = refl

  pub handle_message-moved :
      (v : Value) (e : Env (World d.core))
      → (handle_message d.core d.trace v e).1.session.initialized
        ≡ message_moved v e.session.initialized
  unfolding handle_message dispatch
  handle_message-moved v e =
      route-message_moved v (open_request_span d.core d.trace v e)
      ∙ ap (λ s. message_moved v s.initialized) (open_request_span_keeps d.core d.trace v e).0
