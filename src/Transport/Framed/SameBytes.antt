-- ===== src/Transport/Framed/SameBytes.antt =====
-- Transports of src/transport.rs up to how their bytes fall into chunks.
use mcp_core.Common.{[], ◌++◌, ◌≡◌, refl, sym, ◌∙◌, append-nil}
use mcp_core.Error.{Result}
use mcp_core.Utf8.{Bytes}
use mcp_core.Transport.Stream.{Stream, unread}
use mcp_core.Transport.Stream.Lines.{flatten, IsFaultless, flatten-unread, unread-IsFaultless}
use mcp_core.Transport.Framed.State.{FramedTransport}

-- Two transports that agree on all but how the bytes that are still to come fall into chunks.
pub record SameBytes (t u : FramedTransport) : Type 0 where
  pub bytes : flatten t.reader ≡ flatten u.reader
  pub left_faultless : IsFaultless t.reader
  pub right_faultless : IsFaultless u.reader
  pub writer : t.writer ≡ u.writer
  pub framing : t.framing ≡ u.framing
  pub max_len : t.max_len ≡ u.max_len
  pub desync : t.desync ≡ u.desync

-- A result and a transport, up to chunks.
abbrev pub Agrees : {A : Type 0} → Result A × FramedTransport → Result A × FramedTransport → Type 0
Agrees x y = (x.0 ≡ y.0) × SameBytes x.1 y.1

-- The transport with these bytes to come, in one chunk.
abbrev pub with_bytes : FramedTransport → Bytes → FramedTransport
with_bytes t bs = record t { reader = unread bs [] }

pub SameBytes-unread :
    (t : FramedTransport) (xs : Bytes) (r : Stream)
    → IsFaultless r
    → SameBytes (record t { reader = unread xs r }) (with_bytes t (xs ++ flatten r))
SameBytes-unread t xs r h = record {
  bytes = flatten-unread xs r ∙ sym (flatten-unread _ [] ∙ append-nil _);
  left_faultless = unread-IsFaultless xs r h;
  right_faultless = unread-IsFaultless _ [] tt;
  writer = refl;
  framing = refl;
  max_len = refl;
  desync = refl;
}
