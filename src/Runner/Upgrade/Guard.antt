-- ===== src/Runner/Upgrade/Guard.antt =====
-- Who gets a websocket from `serve_websocket` in src/runner.rs.
use mcp_core.Common.{ℕ, Bool, true, false, none, some, List, [], ◌∷◌, ◌≡◌, refl, Text}
use mcp_core.Config.{WsAuth, no_auth, secret, jwks, oidc_issuer, ServerConfig}
use mcp_core.Error.{Result, ok, err}
use mcp_core.Auth.{Checked, passed, denied, Libraries, Kind, open_to_all, from, check}
use mcp_core.Auth.Admission.{
  Header, IsAdmitted, IsSame, Grants, check-Grants, IsSame-ready, IsSame-trans, IsSame-IsAdmitted,
  IsReady, from-IsReady,
}
use mcp_core.Runner.Upgrade.{
  Reply, unauthorized, upgrade, Listener, unbound, requests, Act, reply_to, ws_handler, answer_all,
  listen, with_auth, serve_websocket,
}

module _ (lib : Libraries) where
  -- An answer that upgrades is one to a header that the authenticator admits, and caps the size of
  -- the messages.
  abbrev pub IsLetIn : Kind lib → ℕ → Header → Reply → Type 0
  IsLetIn k max header (unauthorized e) = Unit
  IsLetIn k max header (upgrade n) = (n ≡ max) × IsAdmitted lib k header

  -- So is each; where no authenticator was made there is none.
  abbrev pub AllLetIn : Result (Kind lib) → ℕ → List (Header × Reply) → Type 0
  AllLetIn r max [] = Unit
  AllLetIn (err e) max (x ∷ xs) = false ≡ true
  AllLetIn (ok k) max ((header, reply) ∷ xs) = IsLetIn k max header reply × AllLetIn (ok k) max xs

  pub reply_to-IsLetIn :
      (k k' : Kind lib) (max : ℕ) (header : Header) (v : Checked (Unit {0}))
      → IsSame lib k k'
      → Grants lib k' header v
      → IsLetIn k max header (reply_to lib max v)
  reply_to-IsLetIn k k' max header (denied e) s g = tt
  reply_to-IsLetIn k k' max header (passed x) s g = (refl, IsSame-IsAdmitted lib k k' header s g)

  answer_all-AllLetIn :
      (k k' : Kind lib) (max : ℕ) (hs : List Header)
      → IsSame lib k k'
      → AllLetIn
          (ok k)
          max
          (answer_all lib (record { max_content_length = max; auth = some k' }) hs)
  unfolding answer_all ws_handler
  answer_all-AllLetIn k k' max [] s = tt
  answer_all-AllLetIn k k' max (header ∷ hs) s =
      let (g, t) = check-Grants lib k' header (IsSame-ready lib k k' s) in
      (
        reply_to-IsLetIn k k' max header (check lib k' header).0 s g,
        answer_all-AllLetIn k (check lib k' header).1 max hs
            (IsSame-trans lib k k' (check lib k' header).1 s t),
      )

  listen-AllLetIn :
      (k : Kind lib) (max : ℕ) (addr : Text) (acts : List Act) (l : Listener)
      → IsSame lib k k
      → AllLetIn
          (ok k)
          max
          (listen lib (record { max_content_length = max; auth = some k }) addr acts l).answers
  unfolding listen
  listen-AllLetIn k max addr acts (unbound e) s = tt
  listen-AllLetIn k max addr acts (requests hs fault) s = answer_all-AllLetIn k k max hs s

  with_auth-AllLetIn :
      (r : Result (Kind lib)) (max : ℕ) (addr : Text) (l : Listener)
      → IsReady lib r
      → AllLetIn r max (with_auth lib max addr r l).answers
  unfolding with_auth
  with_auth-AllLetIn (err e) max addr l h = tt
  with_auth-AllLetIn (ok k) max addr l h = listen-AllLetIn k max addr _ l h

  answer_all_open :
      (max : ℕ) (hs : List Header)
      → AllLetIn
          (ok open_to_all)
          max
          (answer_all lib (record { max_content_length = max; auth = none }) hs)
  unfolding answer_all ws_handler
  answer_all_open max [] = tt
  answer_all_open max (header ∷ hs) = ((refl, tt), answer_all_open max hs)

  without_auth-AllLetIn :
      (c : ServerConfig) (auth : WsAuth) (host : Text) (port : ℕ) (l : Listener)
      → c.ws_auth ≡ auth
      → AllLetIn
          (from lib c.ws_auth c.ws_claim_bindings)
          c.max_content_length
          (serve_websocket lib false c host port l).answers
  unfolding serve_websocket listen from
  without_auth-AllLetIn c no_auth host port (unbound x) e = rw e tt
  without_auth-AllLetIn c no_auth host port (requests hs fault) e =
      rw e (answer_all_open c.max_content_length hs)
  without_auth-AllLetIn c (secret s) host port l e = rw e tt
  without_auth-AllLetIn c (jwks url) host port l e = rw e tt
  without_auth-AllLetIn c (oidc_issuer issuer) host port l e = rw e tt

  pub serve_websocket-AllLetIn :
      (auth_feature : Bool) (c : ServerConfig) (host : Text) (port : ℕ) (l : Listener)
      → AllLetIn
          (from lib c.ws_auth c.ws_claim_bindings)
          c.max_content_length
          (serve_websocket lib auth_feature c host port l).answers
  unfolding serve_websocket
  serve_websocket-AllLetIn true c host port l =
      with_auth-AllLetIn (from lib c.ws_auth c.ws_claim_bindings) c.max_content_length _ l
        (from-IsReady lib c.ws_auth c.ws_claim_bindings)
  serve_websocket-AllLetIn false c host port l = without_auth-AllLetIn c c.ws_auth host port l refl
