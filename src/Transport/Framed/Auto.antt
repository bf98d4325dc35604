-- ===== src/Transport/Framed/Auto.antt =====
-- `read_auto` of src/transport.rs: the loop over blank lines ends with the stream.
use mcp_core.Common.{
  min, ℕ, zero, suc, ◌+◌, ◌-◌, ◌≤◌, ◌<◌, Bool, true, false, [], ◌∷◌, ◌++◌, ◌≡◌, refl, sym, ◌∙◌, inl,
  inr, ◌⊎◌, arith, length, length-append, length-take, length-drop, take, Bool-cases, Option-cases,
  Text, is_empty, is_some, trim, if◌then◌else◌, codes,
}
use mcp_core.Error.{Error, Result, ok, err}
use mcp_core.Utf8.{Bytes}
use mcp_core.Transport.Stream.{stream_size, chunk, fault, Stream, unread, newline_at}
use mcp_core.Transport.Header.{trim_crlf, content_length_value}
use mcp_core.Transport.Framed.State.{
  FramedTransport, M, auto, newline, content_length, check_len, desync_error, continue,
}
use mcp_core.Transport.Framed.Read.{
  take_chunk, end_line, after_chunk, line_loop, read_line, read_auto, read_content_length, read_in,
}

pub stream_size-unread :
    (bs : Bytes) (r : Stream) → stream_size (unread bs r) ≡ length bs + stream_size r
stream_size-unread [] r = omega arith
stream_size-unread (b ∷ bs) r = refl

pub Result-cases :
    {A : Type 0} (r : Result A) → ((a : A) × (r ≡ ok a)) ⊎ ((e : Error) × (r ≡ err e))
Result-cases (ok a) = inl (a, refl)
Result-cases (err e) = inr (e, refl)

pub check_len-reader :
    (n : ℕ) (what : Text) (t : FramedTransport) → (check_len n what t).1.reader ≡ t.reader
unfolding check_len desync_error
check_len-reader n what t = ground arith

-- A chunk is consumed at least in part where it ends the line, and never added to.
take_chunk-length :
    (n b : ℕ) (bs : Bytes)
    → (length (take_chunk n (b ∷ bs)).1 ≤ suc (length bs))
      × ((take_chunk n (b ∷ bs)).0 ≡ true → length (take_chunk n (b ∷ bs)).2 < suc (length bs))
unfolding take_chunk
take_chunk-length n b bs =
    let k = min (suc (length bs)) n in
    elim (Option-cases (newline_at (take k (b ∷ bs)))) [
      | inl e ↦ rw (e, take_chunk) (omega (arith, length-take k (b ∷ bs)), λ h. cc)
      | inr (nl, e) ↦
          rw (e, take_chunk)
            (omega (arith, length-take nl bs), λ h. omega (arith, length-drop nl bs))
    ]

module _ (utf8_error : Bytes → Text) where
  pub end_line-reader :
      (buf : Bytes) (t : FramedTransport) → (end_line utf8_error buf t).1.reader ≡ t.reader
  unfolding end_line check_len desync_error
  end_line-reader buf t = ground arith

  after_chunk-stream_size :
      (next : Bytes → Result Text × FramedTransport) (c : Bool × Bytes × Bytes) (buf : Bytes)
      (n : ℕ) (r : Stream) (t : FramedTransport) (s : Text)
      → ((buf' : Bytes)
          → (next buf').0 ≡ ok s
          → stream_size (next buf').1.reader < length buf' + stream_size r)
      → length c.1 ≤ n
      → (c.0 ≡ true → length c.2 < n)
      → (after_chunk utf8_error next c buf r t).0 ≡ ok s
      → stream_size (after_chunk utf8_error next c buf r t).1.reader
        < length buf + (n + stream_size r)
  unfolding after_chunk
  after_chunk-stream_size next (true, part, left) buf n r t s f p q h =
      rw
        (
          end_line-reader (buf ++ part) (record t { reader = unread left r }),
          stream_size-unread left r,
        )
        (omega (arith, q refl))
  after_chunk-stream_size next (false, part, left) buf n r t s f p q h =
      elim (Result-cases
        (check_len (length (buf ++ part)) (codes "line length")
          (record t { reader = unread left r })).0) [
            | inl (a, e) ↦
                let g = rw (e, after_chunk) at h in
                rw (e, after_chunk) (omega (arith, f (buf ++ part) g, length-append buf part))
            | inr (x, e) ↦ absurd (let g = rw (e, after_chunk) at h in cc)
          ]

  -- A line that is read is consumed.
  line_loop-stream_size :
      (buf : Bytes) (r : Stream) (t : FramedTransport) (s : Text)
      → (line_loop utf8_error buf r t).0 ≡ ok s
      → stream_size (line_loop utf8_error buf r t).1.reader < length buf + stream_size r
  unfolding line_loop
  line_loop-stream_size [] [] t s h = cc
  line_loop-stream_size (x ∷ buf) [] t s h =
      rw (end_line-reader (x ∷ buf) (record t { reader = [] })) (omega arith)
  line_loop-stream_size buf (fault e ∷ r) t s h = cc
  line_loop-stream_size buf (chunk b bs ∷ r) t s h =
      let budget = (t.max_len - length buf) + 1 in
      let (p, q) = take_chunk-length budget b bs in
      after_chunk-stream_size (λ buf'. line_loop utf8_error buf' r t) (take_chunk budget (b ∷ bs))
        buf (suc (length bs)) r t s (λ buf' h. line_loop-stream_size buf' r t s h) p q h

  pub read_line-stream_size :
      (t : FramedTransport) (s : Text)
      → (read_line utf8_error t).0 ≡ ok s
      → stream_size (read_line utf8_error t).1.reader < stream_size t.reader
  unfolding read_line
  read_line-stream_size t s h = omega (arith, line_loop-stream_size [] t.reader t s h)

  -- A round of the loop, `again` standing for the rounds after it.
  abbrev pub auto_round : M Text → M Text
  auto_round again t =
      continue (read_line utf8_error t).0
        (λ line. elim (is_empty (trim (trim_crlf line))) [
          | true ↦ again
          | false ↦
              if is_some (content_length_value (trim_crlf line))
              then (λ u.
                  read_content_length utf8_error (trim_crlf line)
                    (record u { framing = content_length }))
              else (λ u. (ok (trim_crlf line), record u { framing = newline }))
        ])
        (read_line utf8_error t).1

  pub read_auto-suc :
      (n : ℕ) (t : FramedTransport)
      → read_auto utf8_error (suc n) t ≡ auto_round (read_auto utf8_error n) t
  unfolding read_auto
  read_auto-suc n t = refl

  auto_round_cong :
      (f g : M Text) (t : FramedTransport)
      → ((s : Text)
          → (read_line utf8_error t).0 ≡ ok s
          → f (read_line utf8_error t).1 ≡ g (read_line utf8_error t).1)
      → auto_round f t ≡ auto_round g t
  auto_round_cong f g t h = elim (Result-cases (read_line utf8_error t).0) [
    | inr (e, k) ↦ rw (k, auto_round) refl
    | inl (s, k) ↦ elim (Bool-cases (is_empty (trim (trim_crlf s)))) [
      | inl b ↦ rw (k, auto_round) (rw (b, continue) (h s k))
      | inr b ↦ rw (k, auto_round) (rw (b, continue) refl)
    ]
  ]

  read_auto_enough :
      (n m : ℕ) (t : FramedTransport)
      → stream_size t.reader < n
      → stream_size t.reader < m
      → read_auto utf8_error n t ≡ read_auto utf8_error m t
  read_auto_enough zero m t h k = absurd (omega arith)
  read_auto_enough (suc n) zero t h k = absurd (omega arith)
  read_auto_enough (suc n) (suc m) t h k =
      read_auto-suc n t
      ∙ auto_round_cong (read_auto utf8_error n) (read_auto utf8_error m) t (λ s e.
        read_auto_enough n m _ (omega (arith, read_line-stream_size t s e))
          (omega (arith, read_line-stream_size t s e)))
      ∙ sym (read_auto-suc m t)

  -- The fuel of the loop never runs out: while the framing is not detected, reading a message is a
  -- round that reads a line, goes on with the same loop if that is blank, and else decides the
  -- framing by it.
  pub read_in-auto_round :
      (t : FramedTransport) → read_in utf8_error auto t ≡ auto_round (read_in utf8_error auto) t
  unfolding read_in
  read_in-auto_round t =
      read_auto-suc (stream_size t.reader) t
      ∙ auto_round_cong _ _ t (λ s e.
        read_auto_enough (stream_size t.reader)
          (suc (stream_size (read_line utf8_error t).1.reader)) _ (read_line-stream_size t s e)
          (omega arith))
