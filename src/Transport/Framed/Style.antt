-- ===== src/Transport/Framed/Style.antt =====
-- The two ways in which src/transport.rs puts messages on a stream.
use mathlib.Core.Path.{subst}
use mcp_core.Common.{
  sym, ap, ℕ, ◌≤◌, false, none, List, [], ◌∷◌, ◌++◌, ◌⊎◌, inr, ◌≡◌, refl, sym, ap, ◌∙◌,
  append_assoc, length, is_empty, trim, Text,
}
use mcp_core.Decimal.{usize_max}
use mcp_core.Error.{Result, ok}
use mcp_core.Utf8.{Bytes, encode}
use mcp_core.Utf8.RoundTrip.{IsText}
use mcp_core.Transport.Stream.Lines.{flatten, IsFaultless, unread-IsFaultless}
use mcp_core.Transport.Framed.State.{Framing, auto, newline, content_length, FramedTransport}
use mcp_core.Transport.Framed.Write.{header}
use mcp_core.Transport.Framed.SameBytes.{SameBytes, with_bytes}
use mcp_core.Transport.Framed.Delivery.{flatten_with_bytes}
use mcp_core.Transport.Framed.Desync.{SameReading}
use mcp_core.Transport.Framed.LineText.{IsLine}

-- How a client writes its messages: as lines, or as frames with a header.
pub data Style : Type 0 where
  by_lines by_frames : Style

abbrev pub framing_of : Style → Framing
framing_of by_lines = newline
framing_of by_frames = content_length

abbrev pub framed : Style → Text → Bytes
framed by_lines m = encode m ++ (b'\n' ∷ [])
framed by_frames m = encode (header m) ++ encode m

-- A text that can be sent in a frame: its length within the limit and in 64 bits, and its header
-- within the limit.
pub record IsFrame (max_len : ℕ) (m : Text) : Type 0 where
  pub is_text : IsText m
  pub short : length (encode m) ≤ max_len
  pub countable : length (encode m) ≤ usize_max
  pub short_header : length (header m) ≤ max_len

-- A text that a message of the style can be, and that is not blank.
abbrev pub Suits : Style → ℕ → Text → Type 0
Suits by_lines n m = IsLine n m
Suits by_frames n m = IsFrame n m × (is_empty (trim m) ≡ false)

abbrev pub AllSuit : Style → ℕ → List Text → Type 0
AllSuit s n [] = Unit
AllSuit s n (m ∷ ms) = Suits s n m × AllSuit s n ms

-- The bytes of messages, one after the other.
abbrev pub in_style : Style → List Text → Bytes
in_style s [] = []
in_style s (m ∷ ms) = framed s m ++ in_style s ms

pub in_style-append :
    (s : Style) (ms ns : List Text) → in_style s (ms ++ ns) ≡ in_style s ms ++ in_style s ns
in_style-append s [] ns = refl
in_style-append s (m ∷ ms) ns =
    ap (λ x. framed s m ++ x) (in_style-append s ms ns)
    ∙ sym (append_assoc (framed s m) (in_style s ms) (in_style s ns))

pub Suits-not_blank : (s : Style) (n : ℕ) (m : Text) → Suits s n m → is_empty (trim m) ≡ false
Suits-not_blank by_lines n m h = h.not_blank
Suits-not_blank by_frames n m h = h.1

-- A transport that reads messages of a style, or will do so at the next one, from these bytes.
pub record Awaits (s : Style) (t : FramedTransport) (bytes : Bytes) : Type 0 where
  pub framing : (t.framing ≡ auto) ⊎ (t.framing ≡ framing_of s)
  pub desync : t.desync ≡ none
  pub faultless : IsFaultless t.reader
  pub bytes_left : flatten t.reader ≡ bytes

-- A message of that style has been read from it.
pub record Settled (s : Style) (t u : FramedTransport) (bytes : Bytes) : Type 0 where
  pub reads : Awaits s u bytes
  pub known : u.framing ≡ framing_of s
  pub writer : u.writer ≡ t.writer
  pub max_len : u.max_len ≡ t.max_len

-- What a read of the message `m` comes to.
abbrev pub Gives : Style → FramedTransport → Text → Bytes → Result Text × FramedTransport → Type 0
Gives s t m rest x = (x.0 ≡ ok m) × Settled s t x.1 rest

pub Settled-SameBytes :
    (s : Style) (t u : FramedTransport) (rest : Bytes)
    → t.desync ≡ none
    → t.framing ≡ framing_of s
    → SameBytes u (with_bytes t rest)
    → Settled s t u rest
Settled-SameBytes s t u rest d f h = record {
  reads = record {
    framing = inr (h.framing ∙ f);
    desync = h.desync ∙ d;
    faultless = h.left_faultless;
    bytes_left = h.bytes ∙ flatten_with_bytes rest;
  };
  known = h.framing ∙ f;
  writer = h.writer;
  max_len = h.max_len;
}

-- The same from a transport that has only just settled on the framing.
pub Settled-settle :
    (s : Style) (t u : FramedTransport) (f : Framing) (rest : Bytes)
    → Settled s (record t { framing = f }) u rest
    → Settled s t u rest
Settled-settle s t u f rest h = record {
  reads = h.reads;
  known = h.known;
  writer = h.writer;
  max_len = h.max_len;
}

pub SameBytes-settle :
    (f : Framing) (t u : FramedTransport)
    → SameBytes t u
    → SameBytes (record t { framing = f }) (record u { framing = f })
SameBytes-settle f t u s = record {
  bytes = s.bytes;
  left_faultless = s.left_faultless;
  right_faultless = s.right_faultless;
  writer = s.writer;
  framing = refl;
  max_len = s.max_len;
  desync = s.desync;
}

pub Awaits-SameBytes :
    {s : Style} {t : FramedTransport} {bytes : Bytes}
    → Awaits s t bytes
    → SameBytes t (with_bytes t bytes)
Awaits-SameBytes {s} {t} {bytes} r = record {
  bytes = r.bytes_left ∙ sym (flatten_with_bytes bytes);
  left_faultless = r.faultless;
  right_faultless = unread-IsFaultless bytes [] tt;
  writer = refl;
  framing = refl;
  max_len = refl;
  desync = refl;
}

pub Awaits-SameReading :
    {s : Style} {u v : FramedTransport} {bytes : Bytes}
    → Awaits s u bytes
    → SameReading u v
    → Awaits s v bytes
Awaits-SameReading {s} {u} {v} r k = record {
  framing = subst (λ f. (f ≡ auto) ⊎ (f ≡ framing_of s)) (sym k.framing) r.framing;
  desync = k.desync ∙ r.desync;
  faultless = subst IsFaultless (sym k.reader) r.faultless;
  bytes_left = ap flatten k.reader ∙ r.bytes_left;
}

pub Awaits-bytes :
    {s : Style} {t : FramedTransport} {bs cs : Bytes} → bs ≡ cs → Awaits s t bs → Awaits s t cs
Awaits-bytes {s} {t} e r = subst (Awaits s t) e r
