-- ===== src/Transport/Framed/NewlineTrip.antt =====
-- What `write_message` of src/transport.rs writes, and who reads it in newline framing.
use mcp_core.Transport.Framed.Style.{
  Style, by_lines, by_frames, framing_of, framed, in_style, in_style-append, Settled,
}
use mcp_core.Common.{
  sym, ap, none, List, [], ◌∷◌, ◌++◌, ◌⊎◌, ◌≡◌, refl, sym, ap, ◌∙◌, append_assoc, append-nil, Text,
}
use mcp_core.Error.{ok}
use mcp_core.Utf8.{Bytes, encode}
use mcp_core.Transport.Stream.Lines.{flatten, IsFaultless}
use mcp_core.Transport.Framed.State.{auto, newline, FramedTransport}
use mcp_core.Transport.Framed.Read.{read_message}
use mcp_core.Transport.Framed.Write.{header, write_all, write_in, flush, write_message}
use mcp_core.Transport.Framed.Desync.{SameReading, SameReading-trans, write_message-SameReading}
use mcp_core.Transport.Framed.LineText.{IsLine}
use mcp_core.Transport.Framed.Newline.{read_message_line}

-- Texts have been written to a transport as messages, and nothing else has changed in it.
pub record Wrote (s : Style) (t : FramedTransport) (ms : List Text) (u : FramedTransport)
    : Type 0 where
  pub written : u.writer.written ≡ t.writer.written ++ in_style s ms
  pub events : u.writer.events ≡ []
  pub reading : SameReading t u

written-framed :
    (s : Style) (t : FramedTransport) (m : Text)
    → t.framing ≡ framing_of s
    → t.writer.events ≡ []
    → ((write_message m t).0 ≡ ok tt)
      × ((write_message m t).1.writer.written ≡ t.writer.written ++ in_style s (m ∷ []))
      × ((write_message m t).1.writer.events ≡ [])
unfolding write_message write_in write_all flush
written-framed by_lines t m f e =
    rw (f, write_message)
      (rw (e, write_in)
        (
          refl,
          append-nil _
              ∙ append_assoc t.writer.written (encode m) (b'\n' ∷ [])
              ∙ ap (λ x. t.writer.written ++ x) (sym (append-nil _)),
          refl,
        ))
written-framed by_frames t m f e =
    rw (f, write_message)
      (rw (e, write_in)
        (
          refl,
          append-nil _
              ∙ append_assoc t.writer.written (encode (header m)) (encode m)
              ∙ ap (λ x. t.writer.written ++ x) (sym (append-nil _)),
          refl,
        ))

pub write_message-framed :
    (s : Style) (t : FramedTransport) (m : Text)
    → t.framing ≡ framing_of s
    → t.writer.events ≡ []
    → ((write_message m t).0 ≡ ok tt) × Wrote s t (m ∷ []) (write_message m t).1
write_message-framed s t m f e =
    let (a, b, c) = written-framed s t m f e in
    (a, record { written = b; events = c; reading = write_message-SameReading m t })

pub Wrote-nothing : (s : Style) (t : FramedTransport) → t.writer.events ≡ [] → Wrote s t [] t
Wrote-nothing s t e = record {
  written = sym (append-nil t.writer.written);
  events = e;
  reading = record { reader = refl; framing = refl; max_len = refl; desync = refl };
}

pub Wrote-trans :
    {s : Style} {t u v : FramedTransport} {ms ns : List Text}
    → Wrote s t ms u
    → Wrote s u ns v
    → Wrote s t (ms ++ ns) v
Wrote-trans {s} {t} {u} {v} {ms} {ns} h k = record {
  written =
      k.written
      ∙ ap (λ x. x ++ in_style s ns) h.written
      ∙ append_assoc t.writer.written (in_style s ms) (in_style s ns)
      ∙ ap (λ x. t.writer.written ++ x) (sym (in_style-append s ms ns));
  events = k.events;
  reading = SameReading-trans h.reading k.reading;
}

-- A message that can be a line is read back from the bytes that `write_message` writes for it by a
-- reader in newline framing, and by one that has not read anything yet, however these fall into
-- chunks, and the stream is left at the bytes that follow; the reader is then in newline framing. The
-- writer is in newline framing and does not fail, and the reader has not lost its framing and does not
-- fail.
pub read_message-write_message_line :
    (utf8_error : Bytes → Text) (w r : FramedTransport) (m : Text) (rest : Bytes)
    → w.framing ≡ newline
    → w.writer ≡ record { written = []; events = [] }
    → (r.framing ≡ auto) ⊎ (r.framing ≡ newline)
    → r.desync ≡ none
    → IsFaultless r.reader
    → flatten r.reader ≡ (write_message m w).1.writer.written ++ rest
    → IsLine r.max_len m
    → ((read_message utf8_error r).0 ≡ ok m) × Settled by_lines r (read_message utf8_error r).1 rest
read_message-write_message_line utf8_error w r m rest f e rf d h b l =
    let (_, o) = write_message-framed by_lines w m f (ap (λ x. x.events) e) in
    read_message_line utf8_error r m rest
      (record {
        framing = rf;
        desync = d;
        faultless = h;
        bytes_left =
            b
            ∙ ap (λ x. x ++ rest)
                (o.written
                  ∙ ap (λ x. x.written ++ in_style by_lines (m ∷ [])) e
                  ∙ append-nil (framed by_lines m));
      })
      l
