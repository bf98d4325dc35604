-- ===== src/Config.antt =====
-- src/config.rs: the startup configuration and its builder methods.
use mcp_core.Common.{
  ℕ, ◌*◌, Bool, true, false, Option, none, some, List, [], ◌∷◌, Text, codes, if◌then◌else◌,
}

pub data TransportKind : Type 0 where
  stdio websocket unix : TransportKind

-- `Display`
unfoldable pub transport_kind_to_string : TransportKind → Text
transport_kind_to_string stdio = codes "stdio"
transport_kind_to_string websocket = codes "websocket"
transport_kind_to_string unix = codes "unix"

abbrev is_websocket : TransportKind → Bool
is_websocket websocket = true
is_websocket _ = false

pub record EnabledTransports : Type 0 where
  pub stdio : Bool
  pub websocket : Bool
  pub unix : Bool

abbrev pub default_transports : EnabledTransports
default_transports = record { stdio = true; websocket = false; unix = false }

unfoldable pub allows : EnabledTransports → TransportKind → Bool
allows t TransportKind.stdio = t.stdio
allows t TransportKind.websocket = t.websocket
allows t TransportKind.unix = t.unix

pub data WsAuth : Type 0 where
  no_auth : WsAuth
  secret : Text → WsAuth
  jwks : Text → WsAuth
  oidc_issuer : Text → WsAuth

pub record WsClaimBindings : Type 0 where
  pub issuer : Option Text
  pub audience : Option Text

abbrev pub default_bindings : WsClaimBindings
default_bindings = record { issuer = none; audience = none }

abbrev pub default_protocol_versions : List Text
default_protocol_versions = codes "2025-06-18" ∷ codes "2025-11-25" ∷ []

abbrev pub default_max_content_length : ℕ
default_max_content_length = 64 * 1024 * 1024

pub record ServerConfig : Type 0 where
  pub name : Text
  pub version : Text
  pub instructions : Option Text
  pub title : Option Text
  pub description : Option Text
  pub website_url : Option Text
  pub transports : EnabledTransports
  pub default_transport : TransportKind
  pub protocol_versions : List Text
  pub tools_list_changed : Bool
  pub max_content_length : ℕ
  pub ws_auth : WsAuth
  pub ws_claim_bindings : WsClaimBindings

unfoldable pub new : Text → Text → ServerConfig
new name version = record {
  name = name;
  version = version;
  instructions = none;
  title = none;
  description = none;
  website_url = none;
  transports = default_transports;
  default_transport = TransportKind.stdio;
  protocol_versions = default_protocol_versions;
  tools_list_changed = false;
  max_content_length = default_max_content_length;
  ws_auth = no_auth;
  ws_claim_bindings = default_bindings;
}

unfoldable pub with_instructions : ServerConfig → Text → ServerConfig
with_instructions c s = record c { instructions = some s }

unfoldable pub with_title : ServerConfig → Text → ServerConfig
with_title c s = record c { title = some s }

unfoldable pub with_description : ServerConfig → Text → ServerConfig
with_description c s = record c { description = some s }

unfoldable pub with_website_url : ServerConfig → Text → ServerConfig
with_website_url c s = record c { website_url = some s }

unfoldable pub with_websocket : ServerConfig → ServerConfig
with_websocket c = record c { transports = record (c.transports) { websocket = true } }

unfoldable pub without_websocket : ServerConfig → ServerConfig
without_websocket c = record c {
  transports = record (c.transports) { websocket = false };
  default_transport =
      if is_websocket c.default_transport then TransportKind.stdio else c.default_transport;
}

unfoldable pub with_unix : ServerConfig → ServerConfig
with_unix c = record c { transports = record (c.transports) { unix = true } }

unfoldable pub with_default_transport : ServerConfig → TransportKind → ServerConfig
with_default_transport c kind = record c { default_transport = kind }

unfoldable pub with_tools_list_changed : ServerConfig → Bool → ServerConfig
with_tools_list_changed c changed = record c { tools_list_changed = changed }

unfoldable pub with_max_content_length : ServerConfig → ℕ → ServerConfig
with_max_content_length c bytes = record c { max_content_length = bytes }

unfoldable pub websocket_auth : ServerConfig → WsAuth → ServerConfig
websocket_auth c auth = record c { ws_auth = auth }

unfoldable pub websocket_expected_issuer : ServerConfig → Text → ServerConfig
websocket_expected_issuer c s = record c {
  ws_claim_bindings = record (c.ws_claim_bindings) { issuer = some s };
}

unfoldable pub websocket_expected_audience : ServerConfig → Text → ServerConfig
websocket_expected_audience c s = record c {
  ws_claim_bindings = record (c.ws_claim_bindings) { audience = some s };
}

-- `Vec::last`
unfoldable pub last : List Text → Option Text
last [] = none
last (x ∷ []) = some x
last (x ∷ y ∷ ys) = last (y ∷ ys)

unfoldable pub latest_protocol_version : ServerConfig → Text
unfolding last
latest_protocol_version c = elim (last c.protocol_versions) [
  | none ↦ codes "2025-11-25"
  | some v ↦ v
]
