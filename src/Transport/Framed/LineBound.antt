-- ===== src/Transport/Framed/LineBound.antt =====
-- How much of its stream `read_line` of src/transport.rs takes.
use mcp_core.Common.{
  ap, min, ℕ, suc, ◌+◌, ◌-◌, ◌≤◌, ◌<◌, Bool, true, false, [], ◌∷◌, ◌++◌, ◌≡◌, refl, inl, inr, ◌⊎◌,
  arith, length, length-append, length-take, length-drop, take, Bool-cases, Option-cases, some,
  Text, codes, ltb,
}
use mcp_core.Error.{Result, ok}
use mcp_core.Utf8.{Bytes}
use mcp_core.Transport.Stream.{stream_size, chunk, fault, Stream, unread, newline_at}
use mcp_core.Transport.Framed.State.{FramedTransport, check_len, desync_error}
use mcp_core.Transport.Framed.Read.{take_chunk, end_line, after_chunk, line_loop}
use mcp_core.Transport.Framed.Auto.{
  stream_size-unread, Result-cases, end_line-reader, check_len-reader,
}
use mcp_core.Transport.Framed.Progress.{left_of}

newline_at-length : (xs : Bytes) (i : ℕ) → newline_at xs ≡ some i → i < length xs
unfolding newline_at
newline_at-length [] i h = cc
newline_at-length (x ∷ xs) i h = elim (Option-cases (newline_at xs)) [
  | inl e ↦ ground arith
  | inr (j, e) ↦ ground (arith, newline_at-length xs j e)
]

-- What `take_chunk` makes of a chunk: a part within the budget, and the rest; without a newline
-- the part is the whole chunk or the whole budget.
record IsCut (n : ℕ) (xs : Bytes) (c : Bool × Bytes × Bytes) : Type 0 where
  whole : length c.1 + length c.2 ≡ length xs
  within : length c.1 ≤ n
  unfound : c.0 ≡ false → (length c.1 ≡ length xs) ⊎ (length c.1 ≡ n)

cut_or_full :
    (n : ℕ) (xs : Bytes)
    → let k = min (length xs) n in (length (take k xs) ≡ length xs) ⊎ (length (take k xs) ≡ n)
cut_or_full n xs = elim (Bool-cases (ltb (length xs) n)) [
  | inl e ↦
      let l : length xs < n = ground arith in
      inl (omega (arith, length-take (min (length xs) n) xs))
  | inr e ↦
      let l : n ≤ length xs = ground arith in
      inr (omega (arith, length-take (min (length xs) n) xs))
]

take_chunk-IsCut : (n : ℕ) (xs : Bytes) → IsCut n xs (take_chunk n xs)
unfolding take_chunk
take_chunk-IsCut n xs =
    let k = min (length xs) n in
    elim (Option-cases (newline_at (take k xs))) [
      | inl e ↦
          rw (e, take_chunk)
            (record {
              whole = omega (arith, length-take k xs, length-drop k xs);
              within = omega (arith, length-take k xs);
              unfound = λ h. cut_or_full n xs;
            })
      | inr (nl, e) ↦
          let l = newline_at-length (take k xs) nl e in
          rw (e, take_chunk)
            (record {
              whole =
                  omega (arith, length-take (suc nl) xs, length-drop (suc nl) xs, length-take k xs);
              within = omega (arith, length-take (suc nl) xs, length-take k xs, l);
              unfound = λ h. cc;
            })
    ]

check_len-ok :
    (n : ℕ) (what : Text) (t : FramedTransport) (x : Unit {0})
    → (check_len n what t).0 ≡ ok x
    → n ≤ t.max_len
unfolding check_len desync_error
check_len-ok n what t x h = ground arith

check_len-limit :
    (n : ℕ) (what : Text) (t : FramedTransport)
    → ((check_len n what t).1.max_len ≡ t.max_len) × ((check_len n what t).1.framing ≡ t.framing)
unfolding check_len desync_error
check_len-limit n what t = ground arith

module _ (utf8_error : Bytes → Text) where
  end_line-limit :
      (buf : Bytes) (t : FramedTransport)
      → ((end_line utf8_error buf t).1.max_len ≡ t.max_len)
        × ((end_line utf8_error buf t).1.framing ≡ t.framing)
  unfolding end_line check_len desync_error
  end_line-limit buf t = ground arith

  -- What `read_line` comes to from a buffer and a stream on.
  abbrev pub Bounded : ℕ → ℕ → FramedTransport → Result Text × FramedTransport → Type 0
  Bounded buffered coming t x =
      (x.1.max_len ≡ t.max_len)
      × (x.1.framing ≡ t.framing)
      × (coming + buffered ≤ left_of x.1 + (t.max_len + 1))

  after_chunk-Bounded :
      (next : Bytes → Result Text × FramedTransport) (c : Bool × Bytes × Bytes) (buf xs : Bytes)
      (r : Stream) (t : FramedTransport)
      → length buf ≤ t.max_len
      → IsCut ((t.max_len - length buf) + 1) xs c
      → ((buf' : Bytes)
          → length buf' ≤ t.max_len
          → Bounded (length buf') (stream_size r) t (next buf'))
      → Bounded (length buf) (length xs + stream_size r) t (after_chunk utf8_error next c buf r t)
  unfolding after_chunk
  after_chunk-Bounded next (true, part, left) buf xs r t b c f = (
    (end_line-limit (buf ++ part) (record t { reader = unread left r })).0,
    (end_line-limit (buf ++ part) (record t { reader = unread left r })).1,
    omega (
      arith,
      c.whole,
      c.within,
      b,
      ap stream_size
          (end_line-reader utf8_error (buf ++ part) (record t { reader = unread left r })),
      stream_size-unread left r,
    ),
  )
  after_chunk-Bounded next (false, part, left) buf xs r t b c f =
      let u : FramedTransport = record t { reader = unread left r } in
      let n = length (buf ++ part) in
      elim (Result-cases (check_len n (codes "line length") u).0) [
        | inl (x, e) ↦
            let l = check_len-ok n (codes "line length") u x e in
            let (g, k, h) = f (buf ++ part) l in
            rw (e, after_chunk)
              (g, k, omega (arith, h, c.unfound refl, c.whole, l, b, length-append buf part))
        | inr (x, e) ↦
            rw (e, after_chunk)
              (
                (check_len-limit n (codes "line length") u).0,
                (check_len-limit n (codes "line length") u).1,
                omega (
                  arith,
                  c.whole,
                  c.within,
                  b,
                  ap stream_size (check_len-reader n (codes "line length") u),
                  stream_size-unread left r,
                ),
              )
      ]

  pub line_loop-Bounded :
      (buf : Bytes) (r : Stream) (t : FramedTransport)
      → length buf ≤ t.max_len
      → Bounded (length buf) (stream_size r) t (line_loop utf8_error buf r t)
  unfolding line_loop
  line_loop-Bounded [] [] t b = (refl, refl, omega arith)
  line_loop-Bounded (x ∷ buf) [] t b =
      let (g, k) = end_line-limit (x ∷ buf) (record t { reader = [] }) in (g, k, omega (arith, b))
  line_loop-Bounded buf (fault e ∷ r) t b = (refl, refl, omega (arith, b))
  line_loop-Bounded buf (chunk x xs ∷ r) t b =
      after_chunk-Bounded (λ buf'. line_loop utf8_error buf' r t)
        (take_chunk ((t.max_len - length buf) + 1) (x ∷ xs)) buf (x ∷ xs) r t b
        (take_chunk-IsCut ((t.max_len - length buf) + 1) (x ∷ xs))
        (λ buf' l. line_loop-Bounded buf' r t l)
