-- ===== src/Runner/Upgrade/Tests.antt =====
-- `serve_websocket` of src/runner.rs with a shared secret.
use mcp_core.Common.{map, ◌≡◌, if◌then◌else◌, true, none, some, [], ◌∷◌, codes}
use mcp_core.Config
use mcp_core.Config.{ServerConfig, secret, websocket_auth}
use mcp_core.Auth.{visible}
use mcp_core.Auth.Tests.{one_token}
use mcp_core.Runner.Upgrade.{Listener, requests, serve_websocket}
use mcp_core.Runner.Upgrade.Due.{AllDue, opens, requests_of, serve_websocket-AllDue}

abbrev locked : ServerConfig
locked = websocket_auth (Config.new (codes "demo") (codes "1.0")) (secret (codes "s"))

-- A request with the token that verifies, and one with none.
abbrev two_requests : Listener
two_requests = requests (some (visible (codes "Bearer good")) ∷ none ∷ []) none

serve_websocket-AllDue_example :
    AllDue one_token locked
      (serve_websocket one_token true locked (codes "127.0.0.1") 8080 two_requests).answers
    × (map
          (λ x. x.0)
          (serve_websocket one_token true locked (codes "127.0.0.1") 8080 two_requests).answers
        ≡ (if opens one_token true locked then requests_of one_token two_requests else []))
serve_websocket-AllDue_example =
    serve_websocket-AllDue one_token true locked (codes "127.0.0.1") 8080 two_requests
