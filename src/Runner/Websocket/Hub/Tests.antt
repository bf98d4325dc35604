-- ===== src/Runner/Websocket/Hub/Tests.antt =====
-- The websockets of src/runner.rs: one that was let in, and a request that was turned away.
use mcp_core.Json.{lookup}
use mcp_core.Server.Response.{finish}
use mcp_core.Server.Trace.{handle_message, open_request_span}
use mcp_core.Runner.Websocket.{on_text}
use mcp_core.Common.{
  split_once, eq_ignore_ascii_case, trim, str_eq, Bool, false, none, some, List, [], ◌∷◌, ◌≡◌, refl,
  codes,
}
use mcp_core.Config.{websocket, secret, default_bindings}
use mcp_core.Utf8.{encode}
use mcp_core.Auth.{check, extract_bearer, visible, Kind, with_secret, from}
use mcp_core.Auth.Admission.{Header}
use mcp_core.Auth.Configured.{Admits}
use mcp_core.Auth.Tests.{one_token}
use mcp_core.Server.Session
use mcp_core.Server.Session.{Session, on_transport}
use mcp_core.Runner.Tests.{pinged}
use mcp_core.Runner.Opening.{flag_after}
use mcp_core.Runner.Upgrade.{ws_handler}
use mcp_core.Runner.Websocket.{text, Socket}
use mcp_core.Runner.Websocket.Hub.{
  Hub, idle, greeted, went_on, asked, heard_by, on_incoming, socket_of, Reach, start, later, asks,
  hears,
}
use mcp_core.Runner.Websocket.Hub.Flag.{heard_all}
use mcp_core.Runner.Websocket.Hub.Isolation.{request_of, arrived_at, Alone, Reach-IsAdmitted}

abbrev guard : Kind one_token
guard = with_secret (encode (codes "s")) []

abbrev good : Header
good = some (visible (codes "Bearer good"))

abbrev asked_for : Header → Hub pinged one_token → Hub pinged one_token
asked_for header h = asked pinged one_token header [] (ws_handler one_token h.state header) h

-- One request was let in, the next turned away.
abbrev two_asked : Hub pinged one_token
two_asked = asked_for none (asked_for good (idle pinged one_token 1024 guard 0 []))

abbrev opening : Session
opening = on_transport Session.new websocket

abbrev spoken : Bool × Socket pinged
spoken = on_incoming pinged (text (codes "hi")) (socket_of pinged [] [] opening 0 [])

abbrev after_hi : Hub pinged one_token
after_hi = heard_by pinged one_token 0 good spoken two_asked

first_reached : Reach pinged one_token 1024 guard 0 [] after_hi
unfolding greeted ws_handler check extract_bearer split_once eq_ignore_ascii_case trim str_eq
first_reached =
    later (later (later start (asks good [])) (asks none [])) (hears 0 (text (codes "hi")) refl)

Reach-IsAdmitted_example :
    Admits one_token (secret (codes "s")) default_bindings good
    × (bs : List Bool) × (request_of pinged one_token guard first_reached 0 ≡ some (good, bs))
    × Alone pinged bs
        (arrived_at pinged one_token guard first_reached 0)
        (codes "{}" ∷ [])
        []
        opening
    × (opening.initialized
        ≡ flag_after pinged
            (heard_all pinged (arrived_at pinged one_token guard first_reached 0))
            false)
unfolding from encode went_on on_incoming on_text handle_message Session.dispatch Session.route
    lookup str_eq finish Session.handle_method on_transport open_request_span
Reach-IsAdmitted_example =
    Reach-IsAdmitted pinged one_token (secret (codes "s")) default_bindings guard refl first_reached
      0 good _ [] opening refl
