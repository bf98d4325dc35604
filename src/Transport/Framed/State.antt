-- ===== src/Transport/Framed/State.antt =====
-- src/transport.rs: the state of a `FramedTransport`, and how it loses its framing.
use mcp_core.Common.{
  ℕ, Bool, true, false, Option, none, some, List, ltb, unwrap_or, Text, if◌then◌else◌,
}
use mcp_core.Decimal.{to_string}
use mcp_core.Error.{IoError, Error, transport, invalid_message, connection_closed, Result, ok, err}
use mcp_core.Utf8.{Bytes}
use mcp_core.Transport.Stream.{Stream}
use mcp_core.Transport.Header.{too_large}

pub data Framing : Type 0 where
  auto newline content_length : Framing

-- What the next writes meet: success, or a failure after some bytes.
pub data WriteEvent : Type 0 where
  accepted : WriteEvent
  broken : ℕ → IoError → WriteEvent

pub record Writer : Type 0 where
  pub written : Bytes
  pub events : List WriteEvent

pub record FramedTransport : Type 0 where
  pub reader : Stream
  pub writer : Writer
  pub framing : Framing
  pub max_len : ℕ
  pub desync : Option Text

unfoldable pub new : Stream → Writer → ℕ → FramedTransport
new reader writer max_len = record {
  reader = reader;
  writer = writer;
  framing = auto;
  max_len = max_len;
  desync = none;
}

-- The process's own streams are handed over.
unfoldable pub stdio : Stream → Writer → ℕ → FramedTransport
unfolding new
stdio stdin stdout max_len = new stdin stdout max_len

abbrev pub M : Type 0 → Type 0
M A = FramedTransport → Result A × FramedTransport

abbrev pub continue : {A B : Type 0} → Result A → (A → M B) → M B
continue (ok a) f t = f a t
continue (err e) f t = (err e, t)

infixl 5 ◌>>=◌
abbrev pub ◌>>=◌ : {A B : Type 0} → M A → (A → M B) → M B
◌>>=◌ m f t = let (r, t') = m t in continue r f t'

abbrev pub is_connection_closed : Error → Bool
is_connection_closed (transport connection_closed) = true
is_connection_closed _ = false

-- `self.desync.get_or_insert(reason)`
abbrev pub lose_framing : Text → FramedTransport → FramedTransport
lose_framing reason t = record t { desync = some (unwrap_or t.desync reason) }

unfoldable pub desync_error : {A : Type 0} → Text → M A
desync_error reason t =
    (err (transport (invalid_message (unwrap_or t.desync reason))), lose_framing reason t)

unfoldable pub poison : {A : Type 0} → Text → Error → M A
poison reason e t = (err e, lose_framing reason t)

unfoldable pub check_len : ℕ → Text → M (Unit {0})
unfolding desync_error
check_len len what t =
    if ltb t.max_len len
    then desync_error (too_large t.max_len what (to_string len)) t
    else (ok tt, t)
