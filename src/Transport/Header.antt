-- ===== src/Transport/Header.antt =====
-- src/transport.rs: lines, headers and lengths, apart from any stream.
pub mod Length
use mcp_core.Common.{
  ℕ, not, ◌||◌, Option, none, some, ◌++◌, length, take, all, ltb, ◌==◌, is_empty, Text, codes,
  trim_end_matches, trim, split_once, eq_ignore_ascii_case, is_ascii_digit, if◌then◌else◌,
}
use mcp_core.Decimal
use mcp_core.Decimal.{to_string}

abbrev pub max_header_lines : ℕ
max_header_lines = 64

abbrev pub error_echo_limit : ℕ
error_echo_limit = 64

unfoldable pub trim_crlf : Text → Text
unfolding trim_end_matches
trim_crlf s = trim_end_matches (λ c. c == b'\r' || c == b'\n') s

-- The text, or its first characters and a mark.
unfoldable pub for_error : Text → Text
for_error s = if ltb error_echo_limit (length s) then take error_echo_limit s ++ codes "..." else s

unfoldable pub content_length_value : Text → Option Text
unfolding trim_crlf trim split_once eq_ignore_ascii_case
content_length_value line = elim (split_once b':' (trim (trim_crlf line))) [
  | none ↦ none
  | some (name, value) ↦
      if eq_ignore_ascii_case (trim name) (codes "content-length") then some (trim value) else none
]

unfoldable pub too_large : ℕ → Text → Text → Text
unfolding for_error
too_large max_len what shown =
    what
    ++ (codes " "
        ++ (for_error shown
            ++ (codes " exceeds maximum of " ++ (to_string max_len ++ codes " bytes"))))

-- `Result<usize, String>`
pub data Declared : Type 0 where
  length_of : ℕ → Declared
  refused : Text → Declared

unfoldable pub declared_length : ℕ → Text → Declared
declared_length max_len value =
    if is_empty value
    then refused (codes "Content-Length header has an empty value")
    else if not (all is_ascii_digit value)
    then refused
        (codes "Content-Length value " ++ (for_error value ++ codes " is not a byte count"))
    else elim (Decimal.parse value) [
      | some len ↦
          if ltb max_len len
          then refused (too_large max_len (codes "Content-Length") value)
          else length_of len
      | none ↦ refused (too_large max_len (codes "Content-Length") value)
    ]
