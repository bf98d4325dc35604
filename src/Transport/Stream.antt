-- ===== src/Transport/Stream.antt =====
-- What src/transport.rs asks of a byte stream. An `AsyncBufRead` is the list of what its reads will
-- deliver: a chunk of at least one byte, or a failure; after the last one the stream has ended.
pub mod Lines
use mcp_core.Common.{
  ℕ, zero, suc, ◌+◌, ◌-◌, Option, none, some, List, [], ◌∷◌, ◌++◌, length, take, drop, ◌==◌,
  if◌then◌else◌,
}
use mcp_core.Utf8.{Bytes}
use mcp_core.Error.{IoError}

pub data Event : Type 0 where
  chunk : ℕ → Bytes → Event
  fault : IoError → Event

abbrev pub Stream : Type 0
Stream = List Event

-- What is left of a chunk goes back in front.
abbrev pub unread : Bytes → Stream → Stream
unread [] r = r
unread (b ∷ bs) r = chunk b bs ∷ r

-- The position of the first newline.
unfoldable pub newline_at : Bytes → Option ℕ
newline_at [] = none
newline_at (b ∷ bs) =
    if b == b'\n' then some 0 else elim (newline_at bs) [ none ↦ none | some i ↦ some (suc i) ]

-- The end of `take(n).read_to_end(buf)`: all that was wanted or the stream's end, or a failure;
-- with the bytes that arrived and the rest of the stream.
pub data Body : Type 0 where
  body : Bytes → Stream → Body
  cut : Bytes → IoError → Stream → Body

-- A limit of zero asks the stream for nothing. A chunk past the limit is read in part.
unfoldable pub read_to_end : ℕ → Bytes → Stream → Body
read_to_end zero buf r = body buf r
read_to_end (suc n) buf [] = body buf []
read_to_end (suc n) buf (fault e ∷ r) = cut buf e r
read_to_end (suc n) buf (chunk b bs ∷ r) = elim (drop (suc n) (b ∷ bs)) [
  | [] ↦ read_to_end (suc n - length (b ∷ bs)) (buf ++ (b ∷ bs)) r
  | c ∷ cs ↦ body (buf ++ take (suc n) (b ∷ bs)) (chunk c cs ∷ r)
]

-- The bytes and failures that are still to come.
abbrev pub stream_size : Stream → ℕ
stream_size [] = 0
stream_size (fault e ∷ r) = suc (stream_size r)
stream_size (chunk b bs ∷ r) = suc (length bs) + stream_size r
