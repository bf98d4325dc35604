-- ===== src/Runner/Upgrade.antt =====
-- src/runner.rs: `serve_websocket` and `ws_handler`, which decide who gets a websocket. The router
-- and the listener are axum's and tokio's: what they come to, and the requests, are parameters.
pub mod Guard
pub mod Due
mod Tests
use mcp_core.Common.{
  not, ℕ, Bool, true, false, Option, none, some, List, [], ◌∷◌, ◌++◌, Text, codes, if◌then◌else◌,
}
use mcp_core.Config.{WsAuth, no_auth, ServerConfig}
use mcp_core.Decimal.{to_string}
use mcp_core.Error.{IoError, config, io, Result, ok, err}
use mcp_core.Auth.{HeaderValue, Checked, passed, denied, Libraries, Kind, from, is_enabled, check}

-- The answer to a request for `/ws`: status 401 with a text, or the upgrade to a websocket whose
-- messages have at most this many bytes.
pub data Reply : Type 0 where
  unauthorized : Text → Reply
  upgrade : (max_message_size : ℕ) → Reply

-- What `serve_websocket` does before it serves.
pub data Act : Type 0 where
  authentication_enabled : Act
  bind : Text → Act
  listening : Text → Act

-- What it returns, if it does; what it has done; and each request with its answer.
pub record Outcome : Type 0 where
  pub result : Option (Result (Unit {0}))
  pub acts : List Act
  pub answers : List (Option HeaderValue × Reply)

-- What the listener comes to: it cannot be bound, or requests arrive; then the server fails, or it
-- goes on waiting.
pub data Listener : Type 0 where
  unbound : IoError → Listener
  requests : List (Option HeaderValue) → Option IoError → Listener

abbrev pub is_none : WsAuth → Bool
is_none no_auth = true
is_none _ = false

module _ (lib : Libraries) where
  -- `WsState`; there is no authenticator without the feature `auth`.
  pub record WsState : Type 0 where
    pub max_content_length : ℕ
    pub auth : Option (Kind lib)

  -- The authenticator's verdict.
  abbrev pub reply_to : ℕ → Checked (Unit {0}) → Reply
  reply_to max (denied e) = unauthorized e
  reply_to max (passed x) = upgrade max

  -- `ws_handler` with the feature, and without it.
  unfoldable pub ws_handler : WsState → Option HeaderValue → Reply × WsState
  ws_handler state header = elim state.auth [
    | none ↦ (upgrade state.max_content_length, state)
    | some k ↦
        let (verdict, k') = check lib k header in
        (reply_to state.max_content_length verdict, record state { auth = some k' })
  ]

  -- The requests, in order.
  unfoldable pub answer_all :
      WsState → List (Option HeaderValue) → List (Option HeaderValue × Reply)
  unfolding ws_handler
  answer_all state [] = []
  answer_all state (header ∷ hs) =
      let (reply, state') = ws_handler state header in (header, reply) ∷ answer_all state' hs

  abbrev pub failed_by : Option IoError → Option (Result (Unit {0}))
  failed_by none = none
  failed_by (some e) = some (err (io e))

  -- `serve_websocket` from the state on.
  unfoldable pub listen : WsState → Text → List Act → Listener → Outcome
  unfolding answer_all
  listen state addr done (unbound e) = record {
    result = some (err (io e));
    acts = done ++ bind addr ∷ [];
    answers = [];
  }
  listen state addr done (requests hs fault) = record {
    result = failed_by fault;
    acts = done ++ bind addr ∷ listening addr ∷ [];
    answers = answer_all state hs;
  }

  abbrev pub refused : Result (Unit {0}) → Outcome
  refused r = record { result = some r; acts = []; answers = [] }

  abbrev pub announced : Kind lib → List Act
  announced k = if is_enabled lib k then authentication_enabled ∷ [] else []

  -- `serve_websocket` with the feature `auth`, by the authenticator.
  unfoldable pub with_auth : ℕ → Text → Result (Kind lib) → Listener → Outcome
  unfolding listen
  with_auth max addr (err e) l = refused (err e)
  with_auth max addr (ok k) l =
      listen (record { max_content_length = max; auth = some k }) addr (announced k) l

  unfoldable pub serve_websocket :
      (auth_feature : Bool) → ServerConfig → (host : Text) (port : ℕ) → Listener → Outcome
  unfolding with_auth
  serve_websocket true c host port l =
      with_auth c.max_content_length (host ++ (b':' ∷ to_string port))
        (from lib c.ws_auth c.ws_claim_bindings) l
  serve_websocket false c host port l =
      if not (is_none c.ws_auth)
      then refused (
          err (
            config (
              codes
                "websocket_auth is configured but mcp-core was built without the `auth` feature")))
      else listen (record { max_content_length = c.max_content_length; auth = none })
          (host ++ (b':' ∷ to_string port)) [] l
