-- ===== src/Runner/Upgrade/Due.antt =====
-- The requests that `serve_websocket` in src/runner.rs answers, and which of them get a websocket by
-- its configuration.
use mcp_core.Common.{
  map, ap, arith, if◌then◌else◌, ℕ, Bool, true, false, List, [], ◌∷◌, ◌≡◌, refl, Text,
}
use mcp_core.Config.{WsAuth, no_auth, secret, jwks, oidc_issuer, ServerConfig}
use mcp_core.Error.{Result, ok, err}
use mcp_core.Auth.{Libraries, Kind, from}
use mcp_core.Auth.Admission.{Header}
use mcp_core.Auth.Configured.{Admits, from-Admits}
use mcp_core.Runner.Upgrade.{
  WsState, is_none, Reply, unauthorized, upgrade, Listener, unbound, requests, Act, ws_handler,
  answer_all, listen, with_auth, serve_websocket,
}
use mcp_core.Runner.Upgrade.Guard.{IsLetIn, AllLetIn, serve_websocket-AllLetIn}

module _ (lib : Libraries) where
  answer_all-headers :
      (st : WsState lib) (hs : List Header) → map (λ x. x.0) (answer_all lib st hs) ≡ hs
  unfolding answer_all
  answer_all-headers st [] = refl
  answer_all-headers st (h ∷ hs) = ap (λ xs. h ∷ xs) (answer_all-headers (ws_handler lib st h).1 hs)

  -- The requests that arrive at a listener.
  abbrev pub requests_of : Listener → List Header
  requests_of (unbound e) = []
  requests_of (requests hs fault) = hs

  listen-headers :
      (st : WsState lib) (addr : Text) (acts : List Act) (l : Listener)
      → map (λ x. x.0) (listen lib st addr acts l).answers ≡ requests_of l
  unfolding listen
  listen-headers st addr acts (unbound e) = refl
  listen-headers st addr acts (requests hs fault) = answer_all-headers st hs

  abbrev is_made : Result (Kind lib) → Bool
  is_made (ok k) = true
  is_made (err e) = false

  -- Whether a server serves: an authenticator can be made, or, in a build without the feature, none
  -- is asked for.
  abbrev pub opens : Bool → ServerConfig → Bool
  opens true c = is_made (from lib c.ws_auth c.ws_claim_bindings)
  opens false c = is_none c.ws_auth

  with_auth-headers :
      (r : Result (Kind lib)) (max : ℕ) (addr : Text) (l : Listener)
      → map (λ x. x.0) (with_auth lib max addr r l).answers
        ≡ (if is_made r then requests_of l else [])
  unfolding with_auth
  with_auth-headers (err e) max addr l = refl
  with_auth-headers (ok k) max addr l = listen-headers _ addr _ l

  without_auth-headers :
      (c : ServerConfig) (auth : WsAuth) (host : Text) (port : ℕ) (l : Listener)
      → c.ws_auth ≡ auth
      → map (λ x. x.0) (serve_websocket lib false c host port l).answers
        ≡ (if is_none auth then requests_of l else [])
  unfolding serve_websocket
  without_auth-headers c no_auth host port l e = rw e (listen-headers _ _ [] l)
  without_auth-headers c (secret s) host port l e = rw e refl
  without_auth-headers c (jwks url) host port l e = rw e refl
  without_auth-headers c (oidc_issuer issuer) host port l e = rw e refl

  serve_websocket-headers :
      (auth_feature : Bool) (c : ServerConfig) (host : Text) (port : ℕ) (l : Listener)
      → map (λ x. x.0) (serve_websocket lib auth_feature c host port l).answers
        ≡ (if opens auth_feature c then requests_of l else [])
  unfolding serve_websocket
  serve_websocket-headers true c host port l =
      with_auth-headers (from lib c.ws_auth c.ws_claim_bindings) c.max_content_length _ l
  serve_websocket-headers false c host port l = without_auth-headers c c.ws_auth host port l refl

  -- An answer that upgrades is one to a header that the configuration admits, and caps the size of
  -- the messages at its length.
  abbrev IsDue : ServerConfig → Header → Reply → Type 0
  IsDue c header (unauthorized e) = Unit
  IsDue c header (upgrade n) =
      (n ≡ c.max_content_length) × Admits lib c.ws_auth c.ws_claim_bindings header

  abbrev pub AllDue : ServerConfig → List (Header × Reply) → Type 0
  AllDue c [] = Unit
  AllDue c ((header, reply) ∷ xs) = IsDue c header reply × AllDue c xs

  IsDue-made :
      (c : ServerConfig) (k : Kind lib) (header : Header) (reply : Reply)
      → from lib c.ws_auth c.ws_claim_bindings ≡ ok k
      → IsLetIn lib k c.max_content_length header reply
      → IsDue c header reply
  IsDue-made c k header (unauthorized e) made h = tt
  IsDue-made c k header (upgrade n) made (m, h) =
      (m, from-Admits lib c.ws_auth c.ws_claim_bindings k header made h)

  AllDue-made :
      (c : ServerConfig) (r : Result (Kind lib)) (xs : List (Header × Reply))
      → from lib c.ws_auth c.ws_claim_bindings ≡ r
      → AllLetIn lib r c.max_content_length xs
      → AllDue c xs
  AllDue-made c r [] made h = tt
  AllDue-made c (err e) (x ∷ xs) made h = absurd (ground arith)
  AllDue-made c (ok k) ((header, reply) ∷ xs) made (h, hs) =
      (IsDue-made c k header reply made h, AllDue-made c (ok k) xs made hs)

  -- Every request that is upgraded to a websocket is one that the configuration admits: with a
  -- secret, it carries a bearer token that the secret verifies, with the configured issuer and
  -- audience; with a key set, one that the keys at its address verify, with claims that meet the
  -- bindings; with an OIDC issuer, one that the keys which that names verify, with claims that meet
  -- the bindings and of that issuer; and its messages are capped at the configured length. All
  -- requests are answered, in order; but if no authenticator can be made, or a build without the
  -- feature is asked for one, none is answered.
  pub serve_websocket-AllDue :
      (auth_feature : Bool) (c : ServerConfig) (host : Text) (port : ℕ) (l : Listener)
      → AllDue c (serve_websocket lib auth_feature c host port l).answers
        × (map (λ x. x.0) (serve_websocket lib auth_feature c host port l).answers
            ≡ (if opens auth_feature c then requests_of l else []))
  serve_websocket-AllDue auth_feature c host port l = (
    AllDue-made c (from lib c.ws_auth c.ws_claim_bindings) _ refl
        (serve_websocket-AllLetIn lib auth_feature c host port l),
    serve_websocket-headers auth_feature c host port l,
  )
