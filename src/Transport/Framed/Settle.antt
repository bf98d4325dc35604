-- ===== src/Transport/Framed/Settle.antt =====
-- A read in the framing that a transport of src/transport.rs has settled on, and at the end of its stream.
use mcp_core.Transport.Framed.Style.{Style, by_lines, by_frames, Awaits}
use mcp_core.Common.{ap, none, [], ◌∷◌, inl, inr, ◌≡◌, refl, ap, ◌∙◌, Text}
use mcp_core.Error.{Error, Result, err, transport, connection_closed}
use mcp_core.Utf8.{Bytes}
use mcp_core.Transport.Stream.{chunk, fault, Stream}
use mcp_core.Transport.Stream.Lines.{flatten, IsFaultless}
use mcp_core.Transport.Framed.State.{
  content_length, Framing, auto, newline, FramedTransport, M, continue,
}
use mcp_core.Transport.Framed.Read.{
  or_poison, read_frame_line, line_loop, read_line, read_newline, read_in, read_unless,
  read_message,
}
use mcp_core.Transport.Framed.Auto.{read_in-auto_round}

module _ (utf8_error : Bytes → Text) where
  pub read_message_in :
      (t : FramedTransport) (f : Framing)
      → t.desync ≡ none
      → t.framing ≡ f
      → read_message utf8_error t ≡ read_in utf8_error f t
  unfolding read_message read_unless
  read_message_in t f d e =
      ap (λ o. read_unless utf8_error o t) d ∙ ap (λ f. read_in utf8_error f t) e

  read_line_end :
      (t : FramedTransport) (r : Stream)
      → IsFaultless r
      → flatten r ≡ []
      → line_loop utf8_error [] r t ≡ (err (transport connection_closed), record t { reader = [] })
  unfolding line_loop
  read_line_end t [] h e = refl
  read_line_end t (chunk b bs ∷ r) h e = cc
  read_line_end t (fault x ∷ r) h e = absurd h

  continue_failed :
      {A B : Type 0} (x : Result A × FramedTransport) (f : A → M B) (e : Error)
      (u : FramedTransport)
      → x ≡ (err e, u)
      → continue x.0 f x.1 ≡ (err e, u)
  continue_failed x f e u h = ap (λ x. continue x.0 f x.1) h

  -- At the end of its stream it finds the connection closed, and nothing else changes.
  pub read_message_end :
      (s : Style) (t : FramedTransport)
      → Awaits s t []
      → read_message utf8_error t ≡ (err (transport connection_closed), record t { reader = [] })
  unfolding read_in read_newline read_line read_frame_line or_poison
  read_message_end by_lines t r =
      let e = read_line_end t t.reader r.faultless r.bytes_left in
      elim r.framing [
        | inl f ↦
            read_message_in t auto r.desync f
            ∙ read_in-auto_round utf8_error t
            ∙ continue_failed (read_line utf8_error t) _ _ _ e
        | inr f ↦
            read_message_in t newline r.desync f ∙ continue_failed (read_line utf8_error t) _ _ _ e
      ]
  read_message_end by_frames t r =
      let e = read_line_end t t.reader r.faultless r.bytes_left in
      elim r.framing [
        | inl f ↦
            read_message_in t auto r.desync f
            ∙ read_in-auto_round utf8_error t
            ∙ continue_failed (read_line utf8_error t) _ _ _ e
        | inr f ↦
            read_message_in t content_length r.desync f
            ∙ continue_failed (read_frame_line utf8_error t) _ _ _
                (ap (λ x. or_poison utf8_error x.0 x.1) e)
      ]
