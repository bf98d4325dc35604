-- ===== src/Transport/Framed/Lines.antt =====
-- `read_line` of src/transport.rs against a line read one byte at a time.
use mcp_core.Common.{
  drop_all, ℕ, zero, suc, ◌+◌, ◌-◌, ◌≤◌, ◌<◌, min, Bool, true, false, none, some, [], ◌∷◌, ◌++◌,
  ◌≡◌, refl, sym, ap, ◌∙◌, inl, inr, arith, append_assoc, append-nil, length, length-append,
  length-take, take, drop, take_all, leb, is_empty, is_empty-append, Bool-cases, Option-cases, Text,
  if◌then◌else◌,
}
use mcp_core.Error.{transport, connection_closed, Result, err}
use mcp_core.Utf8.{Bytes}
use mcp_core.Transport.Stream.{chunk, fault, Stream, unread, newline_at}
use mcp_core.Transport.Stream.Lines.{
  flatten, IsFaultless, at_newline, at_end, at_budget, Line, before, cut_line, take-min, drop-min,
  cut_line_found, cut_line_full, cut_line_part,
}
use mcp_core.Transport.Framed.SameBytes.{SameBytes, Agrees, with_bytes, SameBytes-unread}
use mcp_core.Transport.Framed.State.{FramedTransport, M, check_len}
use mcp_core.Transport.Framed.Read.{take_chunk, end_line, after_chunk, line_loop, read_line}

newline_at-min :
    (n : ℕ) (xs : Bytes) → newline_at (take (min (length xs) n) xs) ≡ newline_at (take n xs)
newline_at-min n xs = ap newline_at (take-min n xs)

take_chunk_found :
    (n : ℕ) (xs : Bytes) (nl : ℕ)
    → newline_at (take n xs) ≡ some nl
    → take_chunk n xs ≡ (true, take (suc nl) xs, drop (suc nl) xs)
unfolding take_chunk
take_chunk_found n xs nl e = rw (newline_at-min n xs ∙ e, take_chunk) refl

take_chunk-none :
    (n : ℕ) (xs : Bytes)
    → newline_at (take n xs) ≡ none
    → take_chunk n xs ≡ (false, take n xs, drop n xs)
unfolding take_chunk
take_chunk-none n xs e =
    rw (newline_at-min n xs ∙ e, take_chunk) (rw (take-min n xs, drop-min n xs) refl)

is_empty_long : (xs : Bytes) → 0 < length xs → is_empty xs ≡ false
is_empty_long [] h = absurd (omega arith)
is_empty_long (x ∷ xs) h = refl

cut_line_end : (n : ℕ) → 0 < n → cut_line n [] ≡ record { bytes = []; rest = []; ending = at_end }
unfolding cut_line
cut_line_end zero h = absurd (omega arith)
cut_line_end (suc n) h = refl

abbrev budget : FramedTransport → Bytes → ℕ
budget t buf = (t.max_len - length buf) + 1

module _ (utf8_error : Bytes → Text) where
  -- What `read_line` makes of a line that was read by bytes, `buf` standing for what it had before:
  -- the end of the stream with nothing read is its close, and anything else is checked against the
  -- limit and decoded.
  abbrev pub line_result : Bytes → Line → M Text
  line_result buf l t =
      if is_empty (buf ++ l.bytes)
      then (err (transport connection_closed), t)
      else end_line utf8_error (buf ++ l.bytes) t

  end_line-Agrees :
      (buf : Bytes) (t u : FramedTransport)
      → SameBytes t u
      → Agrees (end_line utf8_error buf t) (end_line utf8_error buf u)
  unfolding end_line check_len
  end_line-Agrees buf t u h = ground arith

  after_chunk_over :
      (next : Bytes → Result Text × FramedTransport) (buf part left : Bytes) (r : Stream)
      (t : FramedTransport)
      → t.max_len < length (buf ++ part)
      → after_chunk utf8_error next (false, part, left) buf r t
        ≡ end_line utf8_error (buf ++ part) (record t { reader = unread left r })
  unfolding after_chunk end_line check_len
  after_chunk_over next buf part left r t h = ground arith

  after_chunk_within :
      (next : Bytes → Result Text × FramedTransport) (buf part left : Bytes) (r : Stream)
      (t : FramedTransport)
      → length (buf ++ part) ≤ t.max_len
      → after_chunk utf8_error next (false, part, left) buf r t ≡ next (buf ++ part)
  unfolding after_chunk check_len
  after_chunk_within next buf part left r t h = ground arith

  -- An iteration, by what it takes of its chunk.
  line_loop_chunk :
      (buf : Bytes) (b : ℕ) (bs : Bytes) (r : Stream) (t : FramedTransport)
      (c : Bool × Bytes × Bytes)
      → take_chunk (budget t buf) (b ∷ bs) ≡ c
      → line_loop utf8_error buf (chunk b bs ∷ r) t
        ≡ after_chunk utf8_error (λ buf'. line_loop utf8_error buf' r t) c buf r t
  unfolding line_loop
  line_loop_chunk buf b bs r t c e =
      ap (λ c. after_chunk utf8_error (λ buf'. line_loop utf8_error buf' r t) c buf r t) e

  -- Where the loop goes on, it has taken the whole chunk.
  take_chunk-left :
      (buf : Bytes) (b : ℕ) (bs : Bytes) (t : FramedTransport)
      → length buf ≤ t.max_len
      → newline_at (take (budget t buf) (b ∷ bs)) ≡ none
      → length (buf ++ (take_chunk (budget t buf) (b ∷ bs)).1) ≤ t.max_len
      → (take_chunk (budget t buf) (b ∷ bs)).2 ≡ []
  take_chunk-left buf b bs t h e k =
      let n = budget t buf in
      let c = take_chunk-none n (b ∷ bs) e in
      let l = rw c at k in
      rw c (
        drop_all n (b ∷ bs)
          (omega (arith, l, length-append buf (take n (b ∷ bs)), length-take n (b ∷ bs))))

  -- What a read of a line should come to, given that line.
  abbrev pub Reads : Result Text × FramedTransport → Bytes → FramedTransport → Line → Type 0
  Reads x buf t l = Agrees x (line_result buf l (with_bytes t l.rest))

  Reads-ended :
      (buf : Bytes) (l : Line) (t : FramedTransport) (r : Stream)
      → is_empty (buf ++ l.bytes) ≡ false
      → IsFaultless r
      → (rest : Bytes) → l.rest ≡ rest ++ flatten r
      → Reads (end_line utf8_error (buf ++ l.bytes) (record t { reader = unread rest r })) buf t l
  Reads-ended buf l t r h k rest e =
      rw (h, e) (end_line-Agrees (buf ++ l.bytes) _ _ (SameBytes-unread t rest r k))

  line_loop_nil :
      (buf : Bytes) (t : FramedTransport)
      → Reads (line_loop utf8_error buf [] t) buf t (cut_line (budget t buf) [])
  unfolding line_loop
  line_loop_nil buf t =
      let e = cut_line_end (budget t buf) (omega arith) in
      let a = append-nil buf in
      rw (e, a)
        (elim (Bool-cases (is_empty buf)) [
          | inl h ↦ rw h (refl, SameBytes-unread t [] [] tt)
          | inr h ↦ rw h (end_line-Agrees buf _ _ (SameBytes-unread t [] [] tt))
        ])

  line_loop_found :
      (buf : Bytes) (b nl : ℕ) (bs : Bytes) (r : Stream) (t : FramedTransport)
      → IsFaultless r
      → newline_at (take (budget t buf) (b ∷ bs)) ≡ some nl
      → Reads
          (line_loop utf8_error buf (chunk b bs ∷ r) t)
          buf
          t
          (cut_line (budget t buf) (b ∷ bs ++ flatten r))
  unfolding after_chunk
  line_loop_found buf b nl bs r t k e =
      rw (line_loop_chunk buf b bs r t _ (take_chunk_found (budget t buf) (b ∷ bs) nl e)) (
        rw (cut_line_found (budget t buf) nl (b ∷ bs) (flatten r) e) (
          Reads-ended buf
            (record {
              bytes = take (suc nl) (b ∷ bs);
              rest = drop (suc nl) (b ∷ bs) ++ flatten r;
              ending = at_newline;
            })
            t r (is_empty-append buf b (take nl bs)) k (drop nl bs) refl))

  line_loop_full :
      (buf : Bytes) (b : ℕ) (bs : Bytes) (r : Stream) (t : FramedTransport)
      → length buf ≤ t.max_len
      → IsFaultless r
      → newline_at (take (budget t buf) (b ∷ bs)) ≡ none
      → budget t buf ≤ length (b ∷ bs)
      → Reads
          (line_loop utf8_error buf (chunk b bs ∷ r) t)
          buf
          t
          (cut_line (budget t buf) (b ∷ bs ++ flatten r))
  line_loop_full buf b bs r t h k e j =
      let n = budget t buf in
      let l : t.max_len < length (buf ++ take n (b ∷ bs)) =
        omega (arith, length-append buf (take n (b ∷ bs)), length-take n (b ∷ bs)) in
      rw (line_loop_chunk buf b bs r t _ (take_chunk-none n (b ∷ bs) e)) (
        rw (after_chunk_over _ buf _ (drop n (b ∷ bs)) r t l) (
          rw (cut_line_full n (b ∷ bs) (flatten r) e j) (
            Reads-ended buf
              (record {
                bytes = take n (b ∷ bs);
                rest = drop n (b ∷ bs) ++ flatten r;
                ending = at_budget;
              })
              t r (is_empty_long _ (omega (arith, l))) k (drop n (b ∷ bs)) refl)))

  Reads-before :
      (x : Result Text × FramedTransport) (buf bs : Bytes) (t : FramedTransport) (l : Line)
      → Reads x (buf ++ bs) t l
      → Reads x buf t (before bs l)
  Reads-before x buf bs t l h = rw (sym (append_assoc buf bs l.bytes)) h

  line_loop_lem :
      (buf : Bytes) (r : Stream) (t : FramedTransport)
      → length buf ≤ t.max_len
      → IsFaultless r
      → Reads (line_loop utf8_error buf r t) buf t (cut_line (budget t buf) (flatten r))
  line_loop_lem buf [] t h k = line_loop_nil buf t
  line_loop_lem buf (fault e ∷ r) t h k = absurd k
  line_loop_lem buf (chunk b bs ∷ r) t h k =
      let n = budget t buf in
      elim (Option-cases (newline_at (take n (b ∷ bs)))) [
        | inr (nl, e) ↦ line_loop_found buf b nl bs r t k e
        | inl e ↦ elim (Bool-cases (leb n (length (b ∷ bs)))) [
          | inl j ↦ line_loop_full buf b bs r t h k e (ground (arith, j))
          | inr j ↦
              let w : length (buf ++ (b ∷ bs)) ≤ t.max_len =
                ground (arith, length-append buf (b ∷ bs), j) in
              let m : n - length (b ∷ bs) ≡ budget t (buf ++ (b ∷ bs)) =
                omega (arith, length-append buf (b ∷ bs), w) in
              let a = take_all n (b ∷ bs) (ground (arith, j)) in
              rw (line_loop_chunk buf b bs r t _ (take_chunk-none n (b ∷ bs) e)) (
                rw a (
                  rw (after_chunk_within _ buf (b ∷ bs) _ r t w) (
                    rw (cut_line_part n (b ∷ bs) (flatten r) e (ground (arith, j))) (
                      Reads-before _ buf (b ∷ bs) t (cut_line (n - length (b ∷ bs)) (flatten r))
                        (rw m (line_loop_lem (buf ++ (b ∷ bs)) r t w k))))))
        ]
      ]

  -- On a stream that does not fail, `read_line` gives what reading the line one byte at a time
  -- gives, however the bytes fall into chunks: the line up to and with the first newline, or up to
  -- the end of the stream, or the first `max_len + 1` bytes, which are refused; and it leaves the
  -- bytes after these, and the rest of the transport as such a read does.
  pub read_line_lem :
      (t : FramedTransport)
      → IsFaultless t.reader
      → Reads (read_line utf8_error t) [] t (cut_line (t.max_len + 1) (flatten t.reader))
  unfolding read_line
  read_line_lem t k =
      let e : t.max_len + 1 ≡ budget t [] = omega arith in
      rw e (line_loop_lem [] t.reader t (omega arith) k)
