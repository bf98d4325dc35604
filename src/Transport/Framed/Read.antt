-- ===== src/Transport/Framed/Read.antt =====
-- src/transport.rs: the reading half of `FramedTransport`.
use mcp_core.Common.{
  ℕ, zero, suc, ◌+◌, ◌-◌, min, Bool, true, false, not, Option, none, some, [], ◌∷◌, ◌++◌, length,
  take, drop, ◌==◌, is_empty, is_some, Text, codes, trim, if◌then◌else◌,
}
use mcp_core.Decimal.{to_string}
use mcp_core.Error.{
  transport, io, invalid_message, connection_closed, error_to_string, Result, ok, err,
}
use mcp_core.Utf8.{Bytes, from_utf8}
use mcp_core.Transport.Stream.{
  stream_size, chunk, fault, Stream, unread, newline_at, body, cut, read_to_end,
}
use mcp_core.Transport.Header.{
  max_header_lines, trim_crlf, for_error, content_length_value, length_of, refused, declared_length,
}
use mcp_core.Transport.Framed.State.{
  Framing, auto, newline, content_length, FramedTransport, M, continue, ◌>>=◌, is_connection_closed,
  desync_error, poison, check_len,
}

abbrev pub decoded : (Bytes → Text) → Bytes → Result Text
decoded utf8_error buf = elim (from_utf8 buf) [
  | some s ↦ ok s
  | none ↦ err (transport (invalid_message (codes "invalid UTF-8: " ++ utf8_error buf)))
]

-- What `read_line` takes of a chunk under its budget: whether that has a newline, and so ends the
-- line; the bytes it consumes; and the bytes it leaves.
unfoldable pub take_chunk : ℕ → Bytes → Bool × Bytes × Bytes
take_chunk budget available =
    let taken = min (length available) budget in
    elim (newline_at (take taken available)) [
      | some nl ↦ (true, take (suc nl) available, drop (suc nl) available)
      | none ↦ (false, take taken available, drop taken available)
    ]

module _ (utf8_error : Bytes → Text) where
  -- `read_line` after its loop.
  unfoldable pub end_line : Bytes → M Text
  end_line buf t =
      continue (check_len (length buf) (codes "line length") t).0
        (λ _ t'. (decoded utf8_error buf, t')) (check_len (length buf) (codes "line length") t).1

  -- An iteration of `read_line` from what it takes of a chunk on; the first argument goes on with
  -- the next chunk.
  unfoldable pub after_chunk :
      (Bytes → Result Text × FramedTransport) → Bool × Bytes × Bytes → Bytes → Stream → M Text
  unfolding end_line
  after_chunk next (true, part, left) buf r t =
      end_line (buf ++ part) (record t { reader = unread left r })
  after_chunk next (false, part, left) buf r t =
      let buf' = buf ++ part in
      let (checked, t') =
        check_len (length buf') (codes "line length") (record t { reader = unread left r }) in
      elim checked [ ok _ ↦ next buf' | err e ↦ (err e, t') ]

  -- The loop of `read_line`, from a stream that is not put back into the transport before the loop
  -- ends. Where it goes on, the whole chunk was within the budget, so that nothing of it is left.
  unfoldable pub line_loop : Bytes → Stream → M Text
  unfolding end_line take_chunk after_chunk
  line_loop buf [] t =
      if is_empty buf
      then (err (transport connection_closed), record t { reader = [] })
      else end_line buf (record t { reader = [] })
  line_loop buf (fault e ∷ r) t = (err (io e), record t { reader = r })
  line_loop buf (chunk b bs ∷ r) t =
      after_chunk (λ buf'. line_loop buf' r t) (take_chunk ((t.max_len - length buf) + 1) (b ∷ bs))
        buf r t

  unfoldable pub read_line : M Text
  read_line t = line_loop [] t.reader t

  -- The `match` of `read_frame_line`.
  unfoldable pub or_poison : Result Text → M Text
  or_poison (ok line) t = (ok line, t)
  or_poison (err e) t =
      if is_connection_closed e
      then (err e, t)
      else poison (codes "frame abandoned before its body was consumed: " ++ error_to_string e) e t

  unfoldable pub read_frame_line : M Text
  unfolding or_poison
  read_frame_line t = let (r, t') = read_line t in or_poison r t'

  unfoldable pub read_newline : M Text
  read_newline = do line ← read_line; (λ t. (ok (trim_crlf line), t))

  -- The header loop, by how many more header lines a frame may have.
  unfoldable pub read_headers : ℕ → M (Unit {0})
  read_headers zero = do
    line ← read_frame_line
    if is_empty (trim_crlf line)
        then (λ t. (ok tt, t))
        else desync_error (
            codes "frame declares more than "
            ++ (to_string max_header_lines ++ codes " header lines"))
  read_headers (suc left) = do
    line ← read_frame_line
    elim (is_empty (trim_crlf line)) [ true ↦ (λ t. (ok tt, t)) | false ↦ read_headers left ]

  abbrev pub body_reason : Text → ℕ → ℕ → Text
  body_reason what arrived declared =
      codes "frame body "
      ++ (what
          ++ (codes " after "
              ++ (to_string arrived
                  ++ (codes " of " ++ (to_string declared ++ codes " declared bytes")))))

  -- `read_content_length` from the body on.
  unfoldable pub read_body : ℕ → M Text
  read_body declared t = elim (read_to_end declared [] t.reader) [
    | cut buf e r ↦
        poison (body_reason (codes "read failed") (length buf) declared ++ (codes ": " ++ e.text))
          (io e) (record t { reader = r })
    | body buf r ↦
        if not (length buf == declared)
        then desync_error (body_reason (codes "ended") (length buf) declared)
            (record t { reader = r })
        else (decoded utf8_error buf, record t { reader = r })
  ]

  unfoldable pub read_content_length : Text → M Text
  read_content_length first t = elim (content_length_value first) [
    | none ↦ desync_error (codes "expected a Content-Length header, got: " ++ for_error first) t
    | some value ↦ elim (declared_length t.max_len value) [
      | refused reason ↦ desync_error reason t
      | length_of declared ↦ (do read_headers (max_header_lines - 1) >>= λ _. read_body declared) t
    ]
  ]

  -- The loop of `read_auto` on fuel; `read_in` gives it more than the stream has bytes.
  unfoldable pub read_auto : ℕ → M Text
  read_auto zero = λ t. (err (transport connection_closed), t)
  read_auto (suc fuel) = do
    line ← read_line
    let trimmed = trim_crlf line
    elim (is_empty (trim trimmed)) [
      | true ↦ read_auto fuel
      | false ↦
          if is_some (content_length_value trimmed)
          then (λ t. read_content_length trimmed (record t { framing = content_length }))
          else (λ t. (ok trimmed, record t { framing = newline }))
    ]

  unfoldable pub read_in : Framing → M Text
  read_in auto t = read_auto (suc (stream_size t.reader)) t
  read_in newline t = read_newline t
  read_in content_length t = (do first ← read_frame_line; read_content_length first) t

  -- `read_message`, by the reason why framing was lost.
  unfoldable pub read_unless : Option Text → M Text
  unfolding read_in
  read_unless (some reason) t = (
    err (
        transport (
          invalid_message (
            codes "transport desynchronised by an earlier framing violation ("
            ++ (reason ++ codes ") and cannot be resynchronised")))),
    t,
  )
  read_unless none t = read_in t.framing t

  unfoldable pub read_message : M Text
  unfolding read_unless
  read_message t = read_unless t.desync t
