-- ===== src/Transport/Framed/LineText.antt =====
-- Messages as lines, in src/transport.rs.
use mcp_core.Common.{
  sym, ap, ℕ, ◌<◌, ◌||◌, ◌==◌, Bool, true, false, none, some, [], ◌∷◌, ◌++◌, inl, ◌≡◌, refl, sym,
  ap, ◌∙◌, arith, length, is_empty, trim, trim_end_matches, Text,
}
use mcp_core.Utf8.{encode, encode_char, from_utf8}
use mcp_core.Utf8.RoundTrip.{IsText, from_utf8-encode, encode-append}
use mcp_core.Transport.Stream.{newline_at}
use mcp_core.Transport.Header.{trim_crlf, content_length_value}

-- A text that can be sent as a line of its own: no newline in it, no carriage return at its end, not
-- blank, no header of the other framing, and shorter than the limit.
pub record IsLine (max_len : ℕ) (m : Text) : Type 0 where
  pub is_text : IsText m
  pub one_line : newline_at (encode m) ≡ none
  pub trimmed : trim_crlf m ≡ m
  pub not_blank : is_empty (trim m) ≡ false
  pub no_header : content_length_value m ≡ none
  pub short : length (encode m) < max_len

trim_end_matches-snoc :
    (p : ℕ → Bool) (s : Text) (c : ℕ)
    → p c ≡ true
    → trim_end_matches p (s ++ (c ∷ [])) ≡ trim_end_matches p s
unfolding trim_end_matches
trim_end_matches-snoc p [] c h = ground arith
trim_end_matches-snoc p (x ∷ s) c h = ground (arith, trim_end_matches-snoc p s c h)

pub trim_crlf_line : (n : ℕ) (m : Text) → IsLine n m → trim_crlf (m ++ (b'\n' ∷ [])) ≡ m
unfolding trim_crlf
trim_crlf_line n m l =
    trim_end_matches-snoc (λ c. c == b'\r' || c == b'\n') m b'\n' refl ∙ l.trimmed

IsText-append : (s t : Text) → IsText s → IsText t → IsText (s ++ t)
IsText-append [] t h k = k
IsText-append (c ∷ s) t h k = (h.0, IsText-append s t h.1 k)

pub from_utf8_line :
    (m : Text) → IsText m → from_utf8 (encode m ++ (b'\n' ∷ [])) ≡ some (m ++ (b'\n' ∷ []))
unfolding encode encode_char
from_utf8_line m h =
    ap from_utf8 (sym (encode-append m (b'\n' ∷ [])))
    ∙ from_utf8-encode (m ++ (b'\n' ∷ [])) (IsText-append m (b'\n' ∷ []) h (inl (omega arith), tt))
