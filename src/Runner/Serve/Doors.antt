-- ===== src/Runner/Serve/Doors.antt =====
-- Which transports `serve` in src/runner.rs opens.
use mathlib.Core.Path.{subst}
use mcp_core.Common.{
  Option-cases, ℕ, Bool, true, false, Option, none, some, List, [], ◌∷◌, ◌≡◌, ◌≢◌, refl, sym, ◌∙◌,
  inl, inr, arith, Bool-cases, Text,
}
use mcp_core.Config.{
  TransportKind, stdio, websocket, unix, EnabledTransports, allows, WsAuth, ServerConfig,
  with_instructions, with_title, with_description, with_website_url, with_websocket,
  without_websocket, with_unix, with_default_transport, with_tools_list_changed,
  with_max_content_length, websocket_auth, websocket_expected_issuer, websocket_expected_audience,
}
use mcp_core.Config
use mcp_core.Runner.Serve.{
  CommonServeArgs, Features, Door, on_stdio, on_websocket, on_unix, refused, chosen, door_of, serve,
}

abbrev pub opened : Door → Option TransportKind
opened on_stdio = some stdio
opened (on_websocket host port) = some websocket
opened (on_unix path) = some unix
opened (refused e) = none

-- Nothing, or the transport `k`.
abbrev pub IsAtMost : TransportKind → Option TransportKind → Type 0
IsAtMost k none = Unit
IsAtMost k (some k') = k' ≡ k

door_of-IsAtMost :
    (f : Features) (args : CommonServeArgs) (k : TransportKind)
    → IsAtMost k (opened (door_of f args k))
unfolding door_of
door_of-IsAtMost f args stdio = refl
door_of-IsAtMost f args websocket = ground arith
door_of-IsAtMost f args unix = elim (Bool-cases f.unix) [
  | inr h ↦ rw (h, door_of) tt
  | inl h ↦ elim (Option-cases args.socket_path) [
    | inl e ↦ rw (h, door_of) (rw e tt)
    | inr (path, e) ↦ rw (h, door_of) (rw e refl)
  ]
]

-- What a server opens is the transport that the arguments name, or else the default one, and it is
-- one that the configuration allows.
serve-IsAtMost :
    (f : Features) (c : ServerConfig) (args : CommonServeArgs) (k : TransportKind)
    → opened (serve f c args) ≡ some k
    → (k ≡ chosen c args) × (allows c.transports k ≡ true)
unfolding serve
serve-IsAtMost f c args k h = elim (Bool-cases (allows c.transports (chosen c args))) [
  | inr a ↦ absurd (let g = rw (a, serve) at h in cc)
  | inl a ↦
      let g = rw (a, serve) at h in
      let e : k ≡ chosen c args =
        subst (IsAtMost (chosen c args)) g (door_of-IsAtMost f args (chosen c args)) in
      (e, rw e a)
]

-- The builder methods of a configuration.
pub data Setting : Type 0 where
  instructions title description website_url expected_issuer expected_audience : Text → Setting
  add_websocket remove_websocket add_unix : Setting
  default_transport : TransportKind → Setting
  tools_list_changed : Bool → Setting
  max_content_length : ℕ → Setting
  auth : WsAuth → Setting

abbrev pub set : Setting → ServerConfig → ServerConfig
set (instructions s) c = with_instructions c s
set (title s) c = with_title c s
set (description s) c = with_description c s
set (website_url s) c = with_website_url c s
set (expected_issuer s) c = websocket_expected_issuer c s
set (expected_audience s) c = websocket_expected_audience c s
set add_websocket c = with_websocket c
set remove_websocket c = without_websocket c
set add_unix c = with_unix c
set (default_transport k) c = with_default_transport c k
set (tools_list_changed b) c = with_tools_list_changed c b
set (max_content_length n) c = with_max_content_length c n
set (auth a) c = websocket_auth c a

-- A configuration after some calls of its builder methods.
abbrev pub built : List Setting → ServerConfig → ServerConfig
built [] c = c
built (s ∷ ss) c = built ss (set s c)

-- Whether these calls leave the websocket transport on, where it was `b`.
abbrev pub websocket_after : List Setting → Bool → Bool
websocket_after [] b = b
websocket_after (add_websocket ∷ ss) b = websocket_after ss true
websocket_after (remove_websocket ∷ ss) b = websocket_after ss false
websocket_after (_ ∷ ss) b = websocket_after ss b

built-websocket :
    (ss : List Setting) (c : ServerConfig)
    → allows (built ss c).transports websocket ≡ websocket_after ss (allows c.transports websocket)
unfolding allows with_instructions with_title with_description with_website_url with_websocket
    without_websocket with_unix with_default_transport with_tools_list_changed
    with_max_content_length websocket_auth websocket_expected_issuer websocket_expected_audience
built-websocket [] c = refl
built-websocket (instructions s ∷ ss) c = built-websocket ss _
built-websocket (title s ∷ ss) c = built-websocket ss _
built-websocket (description s ∷ ss) c = built-websocket ss _
built-websocket (website_url s ∷ ss) c = built-websocket ss _
built-websocket (expected_issuer s ∷ ss) c = built-websocket ss _
built-websocket (expected_audience s ∷ ss) c = built-websocket ss _
built-websocket (add_websocket ∷ ss) c = built-websocket ss _
built-websocket (remove_websocket ∷ ss) c = built-websocket ss _
built-websocket (add_unix ∷ ss) c = built-websocket ss _
built-websocket (default_transport k ∷ ss) c = built-websocket ss _
built-websocket (tools_list_changed b ∷ ss) c = built-websocket ss _
built-websocket (max_content_length n ∷ ss) c = built-websocket ss _
built-websocket (auth a ∷ ss) c = built-websocket ss _

-- A server whose configuration was built with no call of `with_websocket`, or with one of
-- `without_websocket` after the last of them, never opens a websocket, whatever its arguments ask
-- for and whatever its default transport is.
pub serve-websocket :
    (f : Features) (name version : Text) (ss : List Setting) (args : CommonServeArgs)
    → websocket_after ss false ≡ false
    → opened (serve f (built ss (Config.new name version)) args) ≢ some websocket
unfolding Config.new allows
serve-websocket f name version ss args h e =
    let c = built ss (Config.new name version) in
    let (_, a) = serve-IsAtMost f c args websocket e in
    let b = sym a ∙ built-websocket ss (Config.new name version) ∙ h in cc
