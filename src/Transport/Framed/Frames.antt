-- ===== src/Transport/Framed/Frames.antt =====
-- src/transport.rs: how the reading of a Content-Length frame fails.
use mcp_core.Common.{
  ◌-◌, some, none, [], ◌++◌, ◌≡◌, refl, Text, codes, ◌⊎◌, inl, inr, is_some, true, ℕ, length,
}
use mcp_core.Error.{Error, IoError, transport, invalid_message, Result, ok, err}
use mcp_core.Utf8.{Bytes, from_utf8}
use mcp_core.Transport.Stream.{Stream, Body, body, cut, read_to_end}
use mcp_core.Transport.Header.{
  Declared, content_length_value, declared_length, length_of, refused, max_header_lines,
}
use mcp_core.Transport.Framed.State.{FramedTransport, is_connection_closed}
use mcp_core.Transport.Framed.Read.{read_frame_line, read_headers}

pub Body-cases :
    (x : Body)
    → ((buf : Bytes) × (r : Stream) × (x ≡ body buf r))
      ⊎ ((buf : Bytes) × (e : IoError) × (r : Stream) × (x ≡ cut buf e r))
Body-cases (body buf r) = inl (buf, r, refl)
Body-cases (cut buf e r) = inr (buf, e, r, refl)

pub Declared-cases :
    (x : Declared) → ((n : ℕ) × (x ≡ length_of n)) ⊎ ((reason : Text) × (x ≡ refused reason))
Declared-cases (length_of n) = inl (n, refl)
Declared-cases (refused reason) = inr (reason, refl)

module _ (utf8_error : Bytes → Text) where
  -- A failure after which no frame is read on in the middle: the stream has ended, or the transport
  -- has lost its framing.
  abbrev pub IsContained : {A : Type 0} → Result A → FramedTransport → Type 0
  IsContained (ok a) t = Unit
  IsContained (err e) t = (is_connection_closed e ≡ true) ⊎ (is_some t.desync ≡ true)

  -- A body of this length that has been read in whole and is not UTF-8.
  pub record IsUndecodable (n : ℕ) (v : FramedTransport) (e : Error) (t : FramedTransport)
      : Type 0 where
    pub buf : Bytes
    pub left : Stream
    pub read : read_to_end n [] v.reader ≡ body buf left
    pub whole : length buf ≡ n
    pub not_text : from_utf8 buf ≡ none
    pub says : e ≡ transport (invalid_message (codes "invalid UTF-8: " ++ utf8_error buf))
    pub after : t ≡ record v { reader = left }

  abbrev BodyFails : ℕ → FramedTransport → Result Text → FramedTransport → Type 0
  BodyFails n v (ok s) t = Unit
  BodyFails n v (err e) t =
      (is_connection_closed e ≡ true) ⊎ ((is_some t.desync ≡ true) ⊎ IsUndecodable n v e t)

  -- A frame from its first line on, of which the header has been read in whole, and the whole body,
  -- which is not UTF-8.
  pub record IsUndecodableAfter (first : Text) (u : FramedTransport) (e : Error)
      (t : FramedTransport) : Type 0 where
    pub value : Text
    pub announces : content_length_value first ≡ some value
    pub declared : ℕ
    pub declares : declared_length u.max_len value ≡ length_of declared
    pub headed : FramedTransport
    pub header : read_headers utf8_error (max_header_lines - 1) u ≡ (ok tt, headed)
    pub body_read : IsUndecodable declared headed e t

  abbrev RestFails : Text → FramedTransport → Result Text → FramedTransport → Type 0
  RestFails first u (ok s) t = Unit
  RestFails first u (err e) t =
      (is_connection_closed e ≡ true) ⊎ ((is_some t.desync ≡ true) ⊎ IsUndecodableAfter first u e t)

  -- A whole frame, whose first line is read too.
  pub record IsUndecodableFrame (t : FramedTransport) (e : Error) (after : FramedTransport)
      : Type 0 where
    pub first : Text
    pub begun : FramedTransport
    pub line_read : read_frame_line utf8_error t ≡ (ok first, begun)
    pub rest : IsUndecodableAfter first begun e after

  -- How the read of a frame fails.
  abbrev pub Fails : FramedTransport → Result Text → FramedTransport → Type 0
  Fails t (ok s) after = Unit
  Fails t (err e) after =
      (is_connection_closed e ≡ true)
      ⊎ ((is_some after.desync ≡ true) ⊎ IsUndecodableFrame t e after)
