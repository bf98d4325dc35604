-- ===== src/Transport/Framed/HeaderText.antt =====
-- The header of a frame in src/transport.rs, as text and as bytes.
use mcp_core.Common.{
  false, trim, sym, is_empty, is_empty, ap, all-append, all_weaken, ltb, ℕ, Bool, true, none, some,
  [], ◌∷◌, ◌++◌, ◌≡◌, refl, sym, ap, ◌∙◌, arith, append_assoc, append-nil, length, all, Text, codes,
  is_ascii_digit, ◌==◌, ◌&&◌, not,
}
use mcp_core.Decimal.{to_string}
use mcp_core.Decimal.RoundTrip.{all-to_string, to_string-ne-nil}
use mcp_core.Utf8.{encode_char, encode, from_utf8}
use mcp_core.Utf8.RoundTrip.{IsText, from_utf8-encode}
use mcp_core.Transport.Stream.{newline_at}
use mcp_core.Transport.Header.{trim_crlf, content_length_value}
use mcp_core.Transport.Header.Length.{trimmed_header, content_length_value-header}
use mcp_core.Transport.Framed.Write.{header}

abbrev is_ascii : ℕ → Bool
is_ascii c = ltb c 0x80

-- ASCII without newlines.
abbrev is_plain : ℕ → Bool
is_plain c = ltb c 0x80 && not (c == b'\n')

encode_ascii : (s : Text) → all is_ascii s ≡ true → encode s ≡ s
unfolding encode encode_char
encode_ascii [] h = refl
encode_ascii (c ∷ cs) h = ground (arith, encode_ascii cs)

ascii_IsText : (s : Text) → all is_ascii s ≡ true → IsText s
ascii_IsText [] h = tt
ascii_IsText (c ∷ cs) h = (ground arith, ascii_IsText cs (ground arith))

-- ASCII is its own encoding, so that its bytes are read as themselves.
pub from_utf8_ascii : (s : Text) → all is_ascii s ≡ true → from_utf8 s ≡ some s
from_utf8_ascii s h = ap from_utf8 (sym (encode_ascii s h)) ∙ from_utf8-encode s (ascii_IsText s h)

pub newline_at_plain : (s : Text) → all is_plain s ≡ true → newline_at s ≡ none
unfolding newline_at
newline_at_plain [] h = refl
newline_at_plain (c ∷ cs) h = ground (arith, newline_at_plain cs)

digit_plain : (c : ℕ) → is_ascii_digit c ≡ true → is_plain c ≡ true
unfolding is_ascii_digit
digit_plain c h = ground arith

-- The header line without its newline.
abbrev pub header_line : ℕ → Text
header_line n = codes "Content-Length: " ++ (to_string n ++ codes "\r")

pub header_line_plain : (n : ℕ) → all is_plain (header_line n) ≡ true
header_line_plain n =
    all-append is_plain (codes "Content-Length: ") (to_string n ++ codes "\r") refl (
      all-append is_plain (to_string n) (codes "\r")
        (all_weaken is_ascii_digit is_plain digit_plain (to_string n) (all-to_string n)) refl)

pub plain_line : (s : Text) → all is_plain s ≡ true → all is_ascii (s ++ (b'\n' ∷ [])) ≡ true
plain_line s h =
    all-append is_ascii s (b'\n' ∷ []) (all_weaken is_plain is_ascii (λ c k. ground arith) s h) refl

-- A frame's header, in lines.
pub header_lines :
    (message : Text) → header message ≡ header_line (length (encode message)) ++ codes "\n\r\n"
header_lines message =
    ap (λ s. codes "Content-Length: " ++ s)
      (sym (append_assoc (to_string (length (encode message))) (codes "\r") (codes "\n\r\n")))

pub encode-header :
    (message : Text)
    → encode (header message) ≡ header_line (length (encode message)) ++ codes "\n\r\n"
encode-header message =
    let l = header_line (length (encode message)) in
    let h : all is_ascii (l ++ codes "\n\r\n") ≡ true =
      all-append is_ascii l (codes "\n\r\n")
        (all_weaken is_plain is_ascii (λ c k. ground arith) l (header_line_plain _)) refl in
    ap encode (header_lines message) ∙ encode_ascii _ h

pub header_line_value :
    (n : ℕ) → content_length_value (header_line n ++ (b'\n' ∷ [])) ≡ some (to_string n)
header_line_value n =
    ap (λ s. content_length_value (codes "Content-Length: " ++ s))
      (append_assoc (to_string n) (codes "\r") (codes "\n"))
    ∙ content_length_value-header (to_string n) (codes "\r\n") (to_string-ne-nil n)
        (all-to_string n) refl

pub header_line_trimmed :
    (n : ℕ)
    → (trim_crlf (header_line n ++ (b'\n' ∷ [])) ≡ codes "Content-Length: " ++ to_string n)
      × (is_empty (trim (codes "Content-Length: " ++ to_string n)) ≡ false)
header_line_trimmed n =
    let (a, b) =
      trimmed_header (to_string n) (codes "\r\n") (to_string-ne-nil n) (all-to_string n) refl in
    (
      ap (λ s. trim_crlf (codes "Content-Length: " ++ s))
            (append_assoc (to_string n) (codes "\r") (codes "\n"))
          ∙ a,
      b,
    )

pub trimmed_value :
    (n : ℕ) → content_length_value (codes "Content-Length: " ++ to_string n) ≡ some (to_string n)
trimmed_value n =
    ap (λ s. content_length_value (codes "Content-Length: " ++ s)) (sym (append-nil (to_string n)))
    ∙ content_length_value-header (to_string n) [] (to_string-ne-nil n) (all-to_string n) refl
