-- ===== src/Transport/Framed/Progress.antt =====
-- src/transport.rs: a message that is read is consumed.
use mcp_core.Common.{
  Option, List-cases, ℕ, zero, suc, ◌-◌, ◌≤◌, ◌<◌, not, none, some, [], ◌∷◌, ◌++◌, ◌≡◌, refl, ap,
  inl, inr, arith, length, drop, length-drop, Bool-cases, Option-cases, Text, is_empty, is_some,
  trim, ◌==◌,
}
use mcp_core.Error.{Result, ok, err}
use mcp_core.Utf8.{Bytes}
use mcp_core.Transport.Stream.{stream_size, chunk, fault, Stream, body, read_to_end}
use mcp_core.Transport.Header.{max_header_lines, trim_crlf, content_length_value, declared_length}
use mcp_core.Transport.Framed.State.{
  FramedTransport, Framing, M, auto, newline, content_length, desync_error, poison, continue,
  is_connection_closed,
}
use mcp_core.Transport.Framed.Read.{
  or_poison, read_line, read_frame_line, read_newline, read_headers, read_body, read_auto,
  read_content_length, read_in, read_unless, read_message,
}
use mcp_core.Transport.Framed.Auto.{read_line-stream_size}
use mcp_core.Transport.Framed.Frames.{Body-cases, Declared-cases}

abbrev pub left_of : FramedTransport → ℕ
left_of t = stream_size t.reader

-- A success leaves less than `n` to come.
abbrev pub IsWithin : {A : Type 0} → ℕ → Result A → FramedTransport → Type 0
IsWithin n (ok a) t = left_of t < n
IsWithin n (err e) t = Unit

continue-IsWithin :
    {A B : Type 0} (n : ℕ) (r : Result A) (f : A → M B) (t : FramedTransport)
    → IsWithin n r t
    → ((a : A) (u : FramedTransport) → left_of u < n → IsWithin n (f a u).0 (f a u).1)
    → IsWithin n (continue r f t).0 (continue r f t).1
continue-IsWithin n (ok a) f t h k = k a t h
continue-IsWithin n (err e) f t h k = tt

desync_error-IsWithin :
    (A : Type 0) (n : ℕ) (reason : Text) (t : FramedTransport)
    → IsWithin n (desync_error {A = A} reason t).0 (desync_error {A = A} reason t).1
unfolding desync_error
desync_error-IsWithin A n reason t = tt

of_ok-IsWithin :
    {A : Type 0} (n : ℕ) (r : Result A) (t : FramedTransport)
    → ((a : A) → r ≡ ok a → left_of t < n)
    → IsWithin n r t
of_ok-IsWithin n (ok a) t h = h a refl
of_ok-IsWithin n (err e) t h = tt

read_to_end-stream_size :
    (n : ℕ) (buf : Bytes) (r : Stream) (b : Bytes) (r' : Stream)
    → read_to_end n buf r ≡ body b r'
    → stream_size r' ≤ stream_size r
unfolding read_to_end
read_to_end-stream_size zero buf r b r' h = ground arith
read_to_end-stream_size (suc n) buf [] b r' h = ground arith
read_to_end-stream_size (suc n) buf (fault e ∷ r) b r' h = cc
read_to_end-stream_size (suc n) buf (chunk c cs ∷ r) b r' h = elim (List-cases (drop n cs)) [
  | inl e ↦
      let g = rw (e, read_to_end) at h in
      omega (arith, read_to_end-stream_size (suc n - length (c ∷ cs)) (buf ++ (c ∷ cs)) r b r' g)
  | inr (x, xs, e) ↦
      let g = rw (e, read_to_end) at h in
      let k : r' ≡ chunk x xs ∷ r = ground arith in
      rw k (omega (arith, length-drop n cs, ap length e))
]

module _ (utf8_error : Bytes → Text) where
  or_poison-IsWithin :
      (n : ℕ) (r : Result Text) (t : FramedTransport)
      → IsWithin n r t
      → IsWithin n (or_poison utf8_error r t).0 (or_poison utf8_error r t).1
  unfolding or_poison poison
  or_poison-IsWithin n (ok line) t h = h
  or_poison-IsWithin n (err e) t h = elim (Bool-cases (is_connection_closed e)) [
    | inl k ↦ rw (k, or_poison) tt
    | inr k ↦ rw (k, or_poison) tt
  ]

  read_line-IsWithin :
      (t : FramedTransport)
      → IsWithin (left_of t) (read_line utf8_error t).0 (read_line utf8_error t).1
  read_line-IsWithin t =
      of_ok-IsWithin (left_of t) (read_line utf8_error t).0 (read_line utf8_error t).1
        (read_line-stream_size utf8_error t)

  read_frame_line-IsWithin :
      (t : FramedTransport)
      → IsWithin (left_of t) (read_frame_line utf8_error t).0 (read_frame_line utf8_error t).1
  unfolding read_frame_line
  read_frame_line-IsWithin t =
      or_poison-IsWithin (left_of t) (read_line utf8_error t).0 (read_line utf8_error t).1
        (read_line-IsWithin t)

  IsWithin-mono :
      {A : Type 0} (m n : ℕ) (r : Result A) (t : FramedTransport)
      → m ≤ n
      → IsWithin m r t
      → IsWithin n r t
  IsWithin-mono m n (ok a) t h k = omega arith
  IsWithin-mono m n (err e) t h k = tt

  read_headers-IsWithin :
      (left : ℕ) (t : FramedTransport)
      → IsWithin (left_of t) (read_headers utf8_error left t).0 (read_headers utf8_error left t).1
  unfolding read_headers
  read_headers-IsWithin zero t =
      continue-IsWithin (left_of t) (read_frame_line utf8_error t).0 _ _
        (read_frame_line-IsWithin t)
        (λ line u h. elim (Bool-cases (is_empty (trim_crlf line))) [
          | inl b ↦ rw b h
          | inr b ↦ rw b (desync_error-IsWithin _ _ _ u)
        ])
  read_headers-IsWithin (suc left) t =
      continue-IsWithin (left_of t) (read_frame_line utf8_error t).0 _ _
        (read_frame_line-IsWithin t)
        (λ line u h. elim (Bool-cases (is_empty (trim_crlf line))) [
          | inl b ↦ rw b h
          | inr b ↦ rw b (
              IsWithin-mono (left_of u) (left_of t) _ _ (omega arith)
                (read_headers-IsWithin left u))
        ])

  read_body-IsWithin :
      (n k : ℕ) (t : FramedTransport)
      → left_of t < n
      → IsWithin n (read_body utf8_error k t).0 (read_body utf8_error k t).1
  unfolding read_body poison
  read_body-IsWithin n k t l = elim (Body-cases (read_to_end k [] t.reader)) [
    | inr (buf, e, r, h) ↦ rw (h, read_body) tt
    | inl (buf, r, h) ↦ elim (Bool-cases (not (length buf == k))) [
      | inl b ↦ rw (h, read_body) (rw b (desync_error-IsWithin _ _ _ _))
      | inr b ↦
          rw (h, read_body)
            (rw b (
              of_ok-IsWithin n _ (record t { reader = r })
                (λ s x. omega (arith, read_to_end-stream_size k [] t.reader buf r h))))
    ]
  ]

  read_content_length-IsWithin :
      (first : Text) (t : FramedTransport)
      → IsWithin
          (left_of t)
          (read_content_length utf8_error first t).0
          (read_content_length utf8_error first t).1
  unfolding read_content_length
  read_content_length-IsWithin first t = elim (Option-cases (content_length_value first)) [
    | inl h ↦ rw (h, read_content_length) (desync_error-IsWithin _ _ _ t)
    | inr (value, h) ↦ elim (Declared-cases (declared_length t.max_len value)) [
      | inr (reason, k) ↦ rw (h, read_content_length) (rw k (desync_error-IsWithin _ _ _ t))
      | inl (n, k) ↦
          rw (h, read_content_length)
            (rw k (
              continue-IsWithin (left_of t) (read_headers utf8_error (max_header_lines - 1) t).0 _ _
                (read_headers-IsWithin (max_header_lines - 1) t)
                (λ _ u l. read_body-IsWithin (left_of t) n u l)))
    ]
  ]

  read_auto-IsWithin :
      (n : ℕ) (t : FramedTransport)
      → IsWithin (left_of t) (read_auto utf8_error n t).0 (read_auto utf8_error n t).1
  unfolding read_auto
  read_auto-IsWithin zero t = tt
  read_auto-IsWithin (suc n) t =
      continue-IsWithin (left_of t) (read_line utf8_error t).0 _ _ (read_line-IsWithin t)
        (λ line u h. elim (Bool-cases (is_empty (trim (trim_crlf line)))) [
          | inl b ↦
              rw b
                (IsWithin-mono (left_of u) (left_of t) _ _ (omega arith) (read_auto-IsWithin n u))
          | inr b ↦ elim (Bool-cases (is_some (content_length_value (trim_crlf line)))) [
            | inl c ↦ rw b (
                rw c (
                  IsWithin-mono (left_of u) (left_of t) _ _ (omega arith) (
                    read_content_length-IsWithin (trim_crlf line)
                      (record u { framing = content_length }))))
            | inr c ↦ rw b (rw c h)
          ]
        ])

  read_in-IsWithin :
      (f : Framing) (t : FramedTransport)
      → IsWithin (left_of t) (read_in utf8_error f t).0 (read_in utf8_error f t).1
  unfolding read_in read_newline
  read_in-IsWithin auto t = read_auto-IsWithin _ t
  read_in-IsWithin newline t =
      continue-IsWithin (left_of t) (read_line utf8_error t).0 _ _ (read_line-IsWithin t)
        (λ line u h. h)
  read_in-IsWithin content_length t =
      continue-IsWithin (left_of t) (read_frame_line utf8_error t).0 _ _
        (read_frame_line-IsWithin t)
        (λ first u h.
          IsWithin-mono (left_of u) (left_of t) _ _ (omega arith)
            (read_content_length-IsWithin first u))

  -- A message that is read has been taken from the stream: less of it is left.
  pub read_message-IsWithin :
      (t : FramedTransport)
      → IsWithin (left_of t) (read_message utf8_error t).0 (read_message utf8_error t).1
  unfolding read_message read_unless
  read_message-IsWithin t = go t.desync
    where
      go :
          (o : Option Text)
          → IsWithin (left_of t) (read_unless utf8_error o t).0 (read_unless utf8_error o t).1
      go (some reason) = tt
      go none = read_in-IsWithin t.framing t
