-- ===== src/Error.antt =====
-- src/error.rs: the error type of the runners, and the JSON-RPC codes. A foreign error is the text
-- that it displays; `kind` is what the program asks of an io error.
use mcp_core.Common.{◌++◌, Text, codes}
use mcp_core.Json.{Number, negative}

pub data IoErrorKind : Type 0 where
  not_found interrupted other : IoErrorKind

pub record IoError : Type 0 where
  pub kind : IoErrorKind
  pub text : Text

pub data TransportError : Type 0 where
  invalid_message : Text → TransportError
  connection_closed : TransportError
  io : IoError → TransportError

pub data Error : Type 0 where
  transport : TransportError → Error
  io : IoError → Error
  json : Text → Error
  config : Text → Error
  telemetry : Text → Error

-- `#[error("…")]`
unfoldable pub transport_error_to_string : TransportError → Text
transport_error_to_string (invalid_message s) = codes "invalid message: " ++ s
transport_error_to_string connection_closed = codes "connection closed"
transport_error_to_string (TransportError.io e) = codes "io error: " ++ e.text

unfoldable pub error_to_string : Error → Text
unfolding transport_error_to_string
error_to_string (transport e) = codes "transport error: " ++ transport_error_to_string e
error_to_string (Error.io e) = codes "io error: " ++ e.text
error_to_string (json s) = codes "json error: " ++ s
error_to_string (config s) = codes "configuration error: " ++ s
error_to_string (telemetry s) = codes "telemetry error: " ++ s

pub data Result {ℓ} (A : Type ℓ) : Type ℓ where
  ok : A → Result A
  err : Error → Result A

-- -32700 and its kin are `negative` of one less
abbrev pub parse_error : Number
parse_error = negative 32699

abbrev pub invalid_request : Number
invalid_request = negative 32599

abbrev pub method_not_found : Number
method_not_found = negative 32600

abbrev pub invalid_params : Number
invalid_params = negative 32601

abbrev pub internal_error : Number
internal_error = negative 32602

abbrev pub not_initialized : Number
not_initialized = negative 32001
