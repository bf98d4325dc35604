-- ===== src/Transport/Framed/RoundTrip.antt =====
-- What `write_message` of src/transport.rs writes, `read_message` reads back.
use mcp_core.Transport.Framed.Style.{by_frames, IsFrame, Settled}
use mcp_core.Common.{◌⊎◌, ap, none, [], ◌++◌, ◌≡◌, ap, ◌∙◌, append-nil, Text}
use mcp_core.Error.{ok}
use mcp_core.Utf8.{Bytes, encode}
use mcp_core.Transport.Stream.Lines.{flatten, IsFaultless}
use mcp_core.Transport.Framed.State.{content_length, auto, FramedTransport, content_length}
use mcp_core.Transport.Framed.Read.{read_message}
use mcp_core.Transport.Framed.Write.{header, write_all, write_in, write_message, flush}
use mcp_core.Transport.Framed.FrameRead.{read_message_frame}

written_lem :
    (w : FramedTransport) (message : Text)
    → w.framing ≡ content_length
    → w.writer ≡ record { written = []; events = [] }
    → (write_message message w).1.writer.written ≡ encode (header message) ++ encode message
unfolding write_message write_in write_all flush
written_lem w message f e =
    rw (f, write_message)
      (rw (e, write_in) (append-nil (encode (header message) ++ encode message)))

module _ (utf8_error : Bytes → Text) where
  -- A message is read back from the bytes that `write_message` writes for it in Content-Length
  -- framing, by a reader in that framing and by one that has not read anything yet, however these
  -- fall into chunks, and the stream is left at the bytes that follow; the reader is then in
  -- Content-Length framing. The writer does not fail, the reader has not lost its framing and does not
  -- fail, the message is made of Unicode scalar values, its length is within the reader's limit and
  -- fits in 64 bits, and its header is within the limit.
  pub read_message-write_message :
      (w r : FramedTransport) (message : Text) (rest : Bytes)
      → w.framing ≡ content_length
      → w.writer ≡ record { written = []; events = [] }
      → (r.framing ≡ auto) ⊎ (r.framing ≡ content_length)
      → r.desync ≡ none
      → IsFaultless r.reader
      → flatten r.reader ≡ (write_message message w).1.writer.written ++ rest
      → IsFrame r.max_len message
      → ((read_message utf8_error r).0 ≡ ok message)
        × Settled by_frames r (read_message utf8_error r).1 rest
  read_message-write_message w r message rest wf ww rf rd fl e l =
      read_message_frame utf8_error r message rest
        (record {
          framing = rf;
          desync = rd;
          faultless = fl;
          bytes_left = e ∙ ap (λ x. x ++ rest) (written_lem w message wf ww);
        })
        l
