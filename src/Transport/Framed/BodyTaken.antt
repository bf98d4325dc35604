-- ===== src/Transport/Framed/BodyTaken.antt =====
-- What a body that src/transport.rs has read says of the bytes that it took.
use mcp_core.Common.{
  ℕ, zero, suc, ◌-◌, some, [], ◌∷◌, ◌++◌, inl, inr, ◌≡◌, refl, sym, ap, ◌∙◌, arith, append_assoc,
  append-nil, length, Bool-cases, Option-cases, Text, ◌==◌, drop, take, take-append-drop,
  List-cases,
}
use mathlib.Core.Path.{subst}
use mcp_core.Error.{ok}
use mcp_core.Utf8.{Bytes, encode, from_utf8}
use mcp_core.Utf8.Sound.{encode-from_utf8}
use mcp_core.Transport.Stream.{Stream, chunk, fault, Body, body, cut, read_to_end}
use mcp_core.Transport.Stream.Lines.{flatten, IsFaultless, unread-IsFaultless}
use mcp_core.Transport.Framed.State.{FramedTransport, poison}
use mcp_core.Transport.Framed.Read.{decoded, read_body}
use mcp_core.Transport.Framed.SameBytes.{SameBytes, with_bytes}
use mcp_core.Transport.Framed.Delivery.{flatten_with_bytes}
use mcp_core.Transport.Framed.Frames.{Body-cases}
use mcp_core.Transport.Framed.HeadTaken.{desync_error-ok}

abbrev bytes_of : Body → Bytes
bytes_of (body b r) = b
bytes_of (cut b e r) = b

abbrev stream_of : Body → Stream
stream_of (body b r) = r
stream_of (cut b e r) = r

body_bytes : {b b' : Bytes} {r r' : Stream} → body b r ≡ body b' r' → b' ≡ b
body_bytes h = sym (ap bytes_of h)

body_stream : {b b' : Bytes} {r r' : Stream} → body b r ≡ body b' r' → r ≡ r'
body_stream h = ap stream_of h

module _ (utf8_error : Bytes → Text) where
  -- What the reading of a body takes of its stream.
  read_to_end-taken :
      (n : ℕ) (buf : Bytes) (r : Stream) (b : Bytes) (r' : Stream)
      → IsFaultless r
      → read_to_end n buf r ≡ body b r'
      → (x : Bytes) × (b ≡ buf ++ x) × (flatten r ≡ x ++ flatten r') × IsFaultless r'
  unfolding read_to_end
  read_to_end-taken zero buf r b r' f h = (
    [],
    body_bytes h ∙ sym (append-nil buf),
    ap flatten (body_stream h),
    subst IsFaultless (body_stream h) f,
  )
  read_to_end-taken (suc n) buf [] b r' f h = (
    [],
    body_bytes h ∙ sym (append-nil buf),
    ap flatten (body_stream h),
    subst IsFaultless (body_stream h) f,
  )
  read_to_end-taken (suc n) buf (fault e ∷ r) b r' f h = absurd f
  read_to_end-taken (suc n) buf (chunk c cs ∷ r) b r' f h = elim (List-cases (drop n cs)) [
    | inl e ↦
        let k = rw (e, read_to_end) at h in
        let (x, p, q, g) =
          read_to_end-taken (suc n - length (c ∷ cs)) (buf ++ (c ∷ cs)) r b r' f k in
        (
          (c ∷ cs) ++ x,
          p ∙ append_assoc buf (c ∷ cs) x,
          ap (λ y. (c ∷ cs) ++ y) q ∙ sym (append_assoc (c ∷ cs) x (flatten r')),
          g,
        )
    | inr (y, ys, e) ↦
        let k = rw (e, read_to_end) at h in
        (
          c ∷ take n cs,
          body_bytes k,
          ap (λ z. (c ∷ z) ++ flatten r) (sym (take-append-drop n cs))
              ∙ ap (λ z. (c ∷ z) ++ flatten r) (ap (λ z. take n cs ++ z) e)
              ∙ append_assoc (c ∷ take n cs) (y ∷ ys) (flatten r)
              ∙ ap (λ z. (c ∷ take n cs) ++ flatten z) (body_stream k),
          subst IsFaultless (body_stream k) f,
        )
  ]

  decoded-ok : (b : Bytes) (m : Text) → decoded utf8_error b ≡ ok m → from_utf8 b ≡ some m
  decoded-ok b m h = elim (Option-cases (from_utf8 b)) [
    | inl e ↦ absurd (let k = rw (e, decoded) at h in cc)
    | inr (s, e) ↦ let k = rw (e, decoded) at h in cc
  ]

  -- The body of a frame, and nothing more.
  pub read_body-ok :
      (n : ℕ) (t : FramedTransport) (m : Text)
      → IsFaultless t.reader
      → (read_body utf8_error n t).0 ≡ ok m
      → let u = (read_body utf8_error n t).1 in
        (length (encode m) ≡ n)
        × (flatten t.reader ≡ encode m ++ flatten u.reader)
        × SameBytes u (with_bytes t (flatten u.reader))
  unfolding read_body poison
  read_body-ok n t m f e = elim (Body-cases (read_to_end n [] t.reader)) [
    | inr (b, x, r, h) ↦ absurd (let k = rw (h, read_body) at e in cc)
    | inl (b, r, h) ↦ elim (Bool-cases (length b == n)) [
      | inr g ↦
          absurd
            (let k = rw (h, read_body) at e in let k' = rw g at k in desync_error-ok _ _ _ m k')
      | inl g ↦
          let k = rw (h, read_body) at e in
          let k' = rw g at k in
          let d : from_utf8 b ≡ some m = decoded-ok b m k' in
          let c = encode-from_utf8 b m d in
          let (x, p, q, l) = read_to_end-taken n [] t.reader b r f h in
          rw (h, read_body)
            (rw g (
              ap length c ∙ ground (arith, g),
              q ∙ ap (λ z. z ++ flatten r) (sym p ∙ sym c),
              record {
                bytes = sym (flatten_with_bytes (flatten r));
                left_faultless = l;
                right_faultless = unread-IsFaultless (flatten r) [] tt;
                writer = refl;
                framing = refl;
                max_len = refl;
                desync = refl;
              },
            ))
    ]
  ]
