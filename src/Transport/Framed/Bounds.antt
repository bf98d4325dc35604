-- ===== src/Transport/Framed/Bounds.antt =====
-- How much of its stream a read of src/transport.rs takes.
use mathlib.Core.Path.{subst}
use mcp_core.Common.{
  ap, List-cases, ℕ, zero, suc, ◌+◌, ◌-◌, ◌*◌, ◌≤◌, not, [], ◌∷◌, ◌++◌, ◌≡◌, ◌≢◌, refl, ◌∙◌, inl,
  inr, arith, length, length-drop, drop, Bool-cases, Option-cases, Option, none, some, Text,
  is_empty, ◌==◌,
}
use mcp_core.Error.{Result, ok, err}
use mcp_core.Utf8.{Bytes}
use mcp_core.Transport.Stream.{Body, body, cut, read_to_end, stream_size, chunk, fault, Stream}
use mcp_core.Transport.Framed.State.{
  FramedTransport, Framing, M, auto, newline, content_length, desync_error, poison,
  is_connection_closed, continue,
}
use mcp_core.Transport.Framed.Read.{
  read_unless, read_newline, read_message, read_in, read_content_length, read_body, read_headers,
  read_frame_line, or_poison, read_line,
}
use mcp_core.Transport.Header.{max_header_lines, trim_crlf, content_length_value, declared_length}
use mcp_core.Transport.Header.Length.{declared_length_iff}
use mcp_core.Transport.Framed.Frames.{Body-cases, Declared-cases}
use mcp_core.Transport.Framed.Progress.{left_of}
use mcp_core.Transport.Framed.LineBound.{line_loop-Bounded}

-- From `t` to `u` at most `n` bytes and failures have been taken, under the same limit and in the
-- same framing.
pub record Takes (n : ℕ) (t u : FramedTransport) : Type 0 where
  pub limit : u.max_len ≡ t.max_len
  pub framing : u.framing ≡ t.framing
  pub taken : left_of t ≤ left_of u + n

abbrev stream_of : Body → Stream
stream_of (body b r) = r
stream_of (cut b e r) = r

module _ (utf8_error : Bytes → Text) where
  -- A line takes at most one byte more than the limit.
  pub read_line-Takes : (t : FramedTransport) → Takes (t.max_len + 1) t (read_line utf8_error t).1
  unfolding read_line
  read_line-Takes t =
      let (g, k, h) = line_loop-Bounded utf8_error [] t.reader t (omega arith) in
      record { limit = g; framing = k; taken = omega (arith, h) }

  Takes-refl :
      (n : ℕ) (t u : FramedTransport)
      → u.max_len ≡ t.max_len
      → u.framing ≡ t.framing
      → u.reader ≡ t.reader
      → Takes n t u
  Takes-refl n t u h f k = record {
    limit = h;
    framing = f;
    taken = omega (arith, ap stream_size k);
  }

  Takes-mono : {m n : ℕ} {t u : FramedTransport} → m ≤ n → Takes m t u → Takes n t u
  Takes-mono h k = record {
    limit = k.limit;
    framing = k.framing;
    taken = omega (arith, h, k.taken);
  }

  Takes-trans : {m n : ℕ} {t u v : FramedTransport} → Takes m t u → Takes n u v → Takes (m + n) t v
  Takes-trans h k = record {
    limit = k.limit ∙ h.limit;
    framing = k.framing ∙ h.framing;
    taken = omega (arith, h.taken, k.taken);
  }

  -- A step that takes at most `m`, and one after it that takes at most `n`.
  continue-Takes :
      {A B : Type 0} (m n : ℕ) (r : Result A) (f : A → M B) (t u : FramedTransport)
      → Takes m t u
      → ((a : A) → r ≡ ok a → Takes n u (f a u).1)
      → Takes (m + n) t (continue r f u).1
  continue-Takes m n (ok a) f t u h k = Takes-trans h (k a refl)
  continue-Takes m n (err e) f t u h k = Takes-mono (omega arith) h

  or_poison-Takes : (r : Result Text) (t : FramedTransport) → Takes 0 t (or_poison utf8_error r t).1
  unfolding or_poison poison
  or_poison-Takes (ok line) t = Takes-refl 0 t t refl refl refl
  or_poison-Takes (err e) t = elim (Bool-cases (is_connection_closed e)) [
    | inl k ↦ rw (k, or_poison) (Takes-refl 0 t t refl refl refl)
    | inr k ↦ rw (k, or_poison) (Takes-refl 0 t _ refl refl refl)
  ]

  read_frame_line-Takes :
      (t : FramedTransport) → Takes (t.max_len + 1) t (read_frame_line utf8_error t).1
  unfolding read_frame_line
  read_frame_line-Takes t = Takes-mono (omega arith) (
      Takes-trans (read_line-Takes t)
        (or_poison-Takes (read_line utf8_error t).0 (read_line utf8_error t).1))

  desync_error-Takes :
      (A : Type 0) (n : ℕ) (reason : Text) (t : FramedTransport)
      → Takes n t (desync_error {A = A} reason t).1
  unfolding desync_error
  desync_error-Takes A n reason t = Takes-refl n t _ refl refl refl

  -- Header lines, and the blank one.
  abbrev headers_bound : ℕ → ℕ → ℕ
  headers_bound max zero = max + 1
  headers_bound max (suc left) = (max + 1) + headers_bound max left

  read_headers-Takes :
      (left : ℕ) (t : FramedTransport)
      → Takes (headers_bound t.max_len left) t (read_headers utf8_error left t).1
  unfolding read_headers
  read_headers-Takes zero t = Takes-mono (omega arith) (
      continue-Takes (t.max_len + 1) 0 (read_frame_line utf8_error t).0 _ t _
        (read_frame_line-Takes t)
        (λ line e. elim (Bool-cases (is_empty (trim_crlf line))) [
          | inl b ↦ rw b (Takes-refl 0 _ _ refl refl refl)
          | inr b ↦ rw b (desync_error-Takes _ 0 _ _)
        ]))
  read_headers-Takes (suc left) t =
      let u = (read_frame_line utf8_error t).1 in
      continue-Takes (t.max_len + 1) (headers_bound t.max_len left) (read_frame_line utf8_error t).0
        _ t u (read_frame_line-Takes t)
        (λ line e. elim (Bool-cases (is_empty (trim_crlf line))) [
          | inl b ↦ rw b (Takes-refl _ _ _ refl refl refl)
          | inr b ↦ rw b (
              subst (λ m. Takes (headers_bound m left) u (read_headers utf8_error left u).1)
                (read_frame_line-Takes t).limit (read_headers-Takes left u))
        ])

  read_to_end-taken :
      (n : ℕ) (buf : Bytes) (r : Stream)
      → stream_size r ≤ stream_size (stream_of (read_to_end n buf r)) + n
  unfolding read_to_end
  read_to_end-taken zero buf r = omega arith
  read_to_end-taken (suc n) buf [] = omega arith
  read_to_end-taken (suc n) buf (fault e ∷ r) = omega arith
  read_to_end-taken (suc n) buf (chunk c cs ∷ r) = elim (List-cases (drop n cs)) [
    | inl e ↦
        rw (e, read_to_end)
          (omega (
            arith,
            read_to_end-taken (suc n - length (c ∷ cs)) (buf ++ (c ∷ cs)) r,
            length-drop n cs,
            ap length e,
          ))
    | inr (x, xs, e) ↦ rw (e, read_to_end) (omega (arith, length-drop n cs, ap length e))
  ]

  read_body-Takes : (n : ℕ) (t : FramedTransport) → Takes n t (read_body utf8_error n t).1
  unfolding read_body poison desync_error
  read_body-Takes n t =
      let l = read_to_end-taken n [] t.reader in
      elim (Body-cases (read_to_end n [] t.reader)) [
        | inr (buf, e, r, h) ↦
            let k = rw h at l in
            rw (h, read_body) (record { limit = refl; framing = refl; taken = k })
        | inl (buf, r, h) ↦
            let k = rw h at l in
            elim (Bool-cases (not (length buf == n))) [
              | inl b ↦
                  rw (h, read_body) (rw b (record { limit = refl; framing = refl; taken = k }))
              | inr b ↦
                  rw (h, read_body) (rw b (record { limit = refl; framing = refl; taken = k }))
            ]
      ]

  read_content_length-Takes :
      (first : Text) (t : FramedTransport)
      → Takes
          (headers_bound t.max_len (max_header_lines - 1) + t.max_len)
          t
          (read_content_length utf8_error first t).1
  unfolding read_content_length
  read_content_length-Takes first t = elim (Option-cases (content_length_value first)) [
    | inl h ↦ rw (h, read_content_length) (desync_error-Takes _ _ _ t)
    | inr (value, h) ↦ elim (Declared-cases (declared_length t.max_len value)) [
      | inr (reason, k) ↦ rw (h, read_content_length) (rw k (desync_error-Takes _ _ _ t))
      | inl (n, k) ↦
          let (_, _, _, l, _) = (declared_length_iff t.max_len value n).0 k in
          rw (h, read_content_length)
            (rw k (
              continue-Takes (headers_bound t.max_len (max_header_lines - 1)) t.max_len
                (read_headers utf8_error (max_header_lines - 1) t).0 _ t _
                (read_headers-Takes (max_header_lines - 1) t)
                (λ x e. Takes-mono l (read_body-Takes n _))))
    ]
  ]

  read_in-Takes :
      (f : Framing) (t : FramedTransport)
      → f ≢ auto
      → Takes ((max_header_lines + 1) * (t.max_len + 1) + t.max_len) t (read_in utf8_error f t).1
  unfolding read_in read_newline
  read_in-Takes auto t h = absurd (h refl)
  read_in-Takes newline t h = Takes-mono (omega arith) (
      continue-Takes (t.max_len + 1) 0 (read_line utf8_error t).0 _ t _ (read_line-Takes t)
        (λ line e. Takes-refl 0 _ _ refl refl refl))
  read_in-Takes content_length t h =
      let u = (read_frame_line utf8_error t).1 in
      let l = (read_frame_line-Takes t).limit in
      Takes-mono (omega arith) (
        continue-Takes (t.max_len + 1) (headers_bound t.max_len (max_header_lines - 1) + t.max_len)
          (read_frame_line utf8_error t).0 _ t u (read_frame_line-Takes t)
          (λ first e.
            subst
              (λ m.
                Takes (headers_bound m (max_header_lines - 1) + m) u
                  (read_content_length utf8_error first u).1)
              l (read_content_length-Takes first u)))

  -- Once the framing is known, a read takes from the stream, whatever it brings, at most the
  -- lines that a frame may have, each of one byte more than the limit, and a body within the limit;
  -- and the limit and the framing stay what they were.
  pub read_message-Takes :
      (t : FramedTransport)
      → t.framing ≢ auto
      → Takes ((max_header_lines + 1) * (t.max_len + 1) + t.max_len) t (read_message utf8_error t).1
  unfolding read_message read_unless
  read_message-Takes t h = go t.desync
    where
      go :
          (o : Option Text)
          → Takes
              ((max_header_lines + 1) * (t.max_len + 1) + t.max_len)
              t
              (read_unless utf8_error o t).1
      go (some reason) = Takes-refl _ t t refl refl refl
      go none = read_in-Takes t.framing t h
