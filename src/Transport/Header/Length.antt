-- ===== src/Transport/Header/Length.antt =====
-- Content-Length headers of src/transport.rs: which declared values are accepted, and that a header
-- as it is written is recognised.
use mcp_core.Common.{
  is_empty, sym, none, Option, Option-cases, if◌then◌else◌, is_empty-append, some, codes,
  append-nil, ◌∙◌, ap, trim, trim_start_matches, split_once, eq_ignore_ascii_case, is_whitespace,
  ◌||◌, ◌==◌, ℕ, ◌≤◌, Bool, true, false, [], ◌∷◌, ◌++◌, ◌≡◌, ◌≢◌, ◌↔◌, refl, inl, inr, Bool-cases,
  arith, all, Text, is_ascii_digit, trim_end_matches,
}
use mcp_core.Decimal.{usize_max, to_string}
use mcp_core.Decimal.RoundTrip.{
  all-to_string, to_string-ne-nil, value_of-to_string, value_of, parse_digits,
}
use mcp_core.Transport.Header.{length_of, declared_length, trim_crlf, content_length_value}

declared_digits :
    (max_len : ℕ) (s : Text)
    → all is_ascii_digit s ≡ true
    → s ≢ []
    → (n : ℕ)
    → (declared_length max_len s ≡ length_of n)
      ↔ ((value_of 0 s ≡ n) × (n ≤ max_len) × (n ≤ usize_max))
unfolding declared_length
declared_digits max_len [] a ne n = absurd (ne refl)
declared_digits max_len (c ∷ cs) a ne n = ground (arith, parse_digits (c ∷ cs))

-- A declared value is accepted as the length `n` exactly if it is a nonempty run of ASCII digits
-- that denote `n`, and `n` is within the transport's limit and fits in 64 bits.
pub declared_length_iff :
    (max_len : ℕ) (s : Text) (n : ℕ)
    → (declared_length max_len s ≡ length_of n) ↔ (
        (s ≢ [])
        × (all is_ascii_digit s ≡ true)
        × (value_of 0 s ≡ n)
        × (n ≤ max_len)
        × (n ≤ usize_max))
unfolding declared_length
declared_length_iff max_len [] n = ground arith
declared_length_iff max_len (c ∷ cs) n = elim (Bool-cases (all is_ascii_digit (c ∷ cs))) [
  | inl e ↦ ground (arith, declared_digits max_len (c ∷ cs) e (λ h. cc) n)
  | inr e ↦ ground arith
]

trim_end-append :
    (p : ℕ → Bool) (xs : Text) (y : ℕ) (ys zs : Text)
    → trim_end_matches p ys ≡ y ∷ zs
    → trim_end_matches p (xs ++ ys) ≡ xs ++ (y ∷ zs)
unfolding trim_end_matches
trim_end-append p [] y ys zs h = h
trim_end-append p (x ∷ xs) y ys zs h =
    let e = trim_end-append p xs y ys zs h in
    rw (e, trim_end_matches) (rw (is_empty-append xs y zs) refl)

trim_end_all : (p : ℕ → Bool) (ws : Text) → all p ws ≡ true → trim_end_matches p ws ≡ []
unfolding trim_end_matches
trim_end_all p [] h = refl
trim_end_all p (w ∷ ws) h = ground (arith, trim_end_all p ws)

trim_end_digits :
    (p : ℕ → Bool)
    → ((c : ℕ) → is_ascii_digit c ≡ true → p c ≡ false)
    → (ds ws : Text) → all is_ascii_digit ds ≡ true
    → all p ws ≡ true
    → trim_end_matches p (ds ++ ws) ≡ ds
unfolding trim_end_matches
trim_end_digits p f [] ws h k = trim_end_all p ws k
trim_end_digits p f (d ∷ ds) ws h k = ground (arith, trim_end_digits p f ds ws, f d)

digit-not-crlf : (c : ℕ) → is_ascii_digit c ≡ true → (c == b'\r' || c == b'\n') ≡ false
unfolding is_ascii_digit
digit-not-crlf c h = ground arith

digit-not-space : (c : ℕ) → is_ascii_digit c ≡ true → is_whitespace c ≡ false
unfolding is_ascii_digit is_whitespace
digit-not-space c h = ground arith

trim_crlf_def : (s : Text) → trim_crlf s ≡ trim_end_matches (λ c. c == b'\r' || c == b'\n') s
unfolding trim_crlf
trim_crlf_def s = refl

trim_def : (s : Text) → trim s ≡ trim_end_matches is_whitespace (trim_start_matches is_whitespace s)
unfolding trim
trim_def s = refl

trim_start_space :
    (c : ℕ) (cs : Text)
    → is_whitespace c ≡ true
    → trim_start_matches is_whitespace (c ∷ cs) ≡ trim_start_matches is_whitespace cs
unfolding trim_start_matches
trim_start_space c cs h = ground (arith, h)

trim_start_other :
    (c : ℕ) (cs : Text)
    → is_whitespace c ≡ false
    → trim_start_matches is_whitespace (c ∷ cs) ≡ c ∷ cs
unfolding trim_start_matches
trim_start_other c cs h = ground (arith, h)

trim_end_digit_run :
    (ds : Text) → all is_ascii_digit ds ≡ true → trim_end_matches is_whitespace ds ≡ ds
trim_end_digit_run ds h =
    ap (trim_end_matches is_whitespace) (sym (append-nil ds))
    ∙ trim_end_digits is_whitespace digit-not-space ds [] h refl

space_IsSpace : is_whitespace b' ' ≡ true
unfolding is_whitespace
space_IsSpace = refl

letter-not-space : is_whitespace b'C' ≡ false
unfolding is_whitespace
letter-not-space = refl

trim_value :
    (d : ℕ) (ds : Text) → all is_ascii_digit (d ∷ ds) ≡ true → trim (b' ' ∷ d ∷ ds) ≡ d ∷ ds
trim_value d ds h =
    trim_def (b' ' ∷ d ∷ ds)
    ∙ ap (trim_end_matches is_whitespace) (
        trim_start_space b' ' (d ∷ ds) space_IsSpace
        ∙ trim_start_other d ds (digit-not-space d (ground (arith, h))))
    ∙ trim_end_digit_run (d ∷ ds) h

trim_line :
    (d : ℕ) (ds : Text)
    → all is_ascii_digit (d ∷ ds) ≡ true
    → trim (codes "Content-Length: " ++ (d ∷ ds)) ≡ codes "Content-Length: " ++ (d ∷ ds)
trim_line d ds h =
    trim_def (codes "Content-Length: " ++ (d ∷ ds))
    ∙ ap (trim_end_matches is_whitespace)
        (trim_start_other b'C' (codes "ontent-Length: " ++ (d ∷ ds)) letter-not-space)
    ∙ trim_end-append is_whitespace (codes "Content-Length: ") d (d ∷ ds) ds
        (trim_end_digit_run (d ∷ ds) h)

split_line :
    (s : Text)
    → split_once b':' (codes "Content-Length: " ++ s) ≡ some (codes "Content-Length", b' ' ∷ s)
unfolding split_once
split_line s = refl

abbrev header_value : Option (Text × Text) → Option Text
header_value none = none
header_value (some (name, value)) =
    if eq_ignore_ascii_case (trim name) (codes "content-length") then some (trim value) else none

content_length_value_def :
    (line : Text)
    → content_length_value line ≡ header_value (split_once b':' (trim (trim_crlf line)))
unfolding content_length_value
content_length_value_def line = elim (Option-cases (split_once b':' (trim (trim_crlf line)))) [
  | inl e ↦ rw (e, content_length_value) refl
  | inr (a, e) ↦ rw (e, content_length_value) refl
]

header_name : eq_ignore_ascii_case (trim (codes "Content-Length")) (codes "content-length") ≡ true
unfolding eq_ignore_ascii_case trim
header_name = refl

trim_crlf_line :
    (d : ℕ) (ds ws : Text)
    → all is_ascii_digit (d ∷ ds) ≡ true
    → all (λ c. c == b'\r' || c == b'\n') ws ≡ true
    → trim_crlf (codes "Content-Length: " ++ (d ∷ ds ++ ws)) ≡ codes "Content-Length: " ++ (d ∷ ds)
trim_crlf_line d ds ws h k =
    trim_crlf_def _
    ∙ trim_end-append _ (codes "Content-Length: ") d (d ∷ ds ++ ws) ds
        (trim_end_digits _ digit-not-crlf (d ∷ ds) ws h k)

-- A header line with a run of digits is recognised as a Content-Length header of these digits,
-- whatever line ends follow.
content_length_value_lem :
    (d : ℕ) (ds ws : Text)
    → all is_ascii_digit (d ∷ ds) ≡ true
    → all (λ c. c == b'\r' || c == b'\n') ws ≡ true
    → content_length_value (codes "Content-Length: " ++ (d ∷ ds ++ ws)) ≡ some (d ∷ ds)
content_length_value_lem d ds ws h k =
    let e = trim_crlf_line d ds ws h k in
    content_length_value_def _
    ∙ ap header_value (
        ap (λ s. split_once b':' (trim s)) e
        ∙ ap (split_once b':') (trim_line d ds h)
        ∙ split_line (d ∷ ds))
    ∙ rw (header_name, trim_value d ds h) refl

pub content_length_value-header :
    (ds ws : Text)
    → ds ≢ []
    → all is_ascii_digit ds ≡ true
    → all (λ c. c == b'\r' || c == b'\n') ws ≡ true
    → content_length_value (codes "Content-Length: " ++ (ds ++ ws)) ≡ some ds
content_length_value-header [] ws ne h k = absurd (ne refl)
content_length_value-header (d ∷ ds) ws ne h k = content_length_value_lem d ds ws h k

-- Without its line end such a line is not blank.
pub trimmed_header :
    (ds ws : Text)
    → ds ≢ []
    → all is_ascii_digit ds ≡ true
    → all (λ c. c == b'\r' || c == b'\n') ws ≡ true
    → (trim_crlf (codes "Content-Length: " ++ (ds ++ ws)) ≡ codes "Content-Length: " ++ ds)
      × (is_empty (trim (codes "Content-Length: " ++ ds)) ≡ false)
trimmed_header [] ws ne h k = absurd (ne refl)
trimmed_header (d ∷ ds) ws ne h k = (trim_crlf_line d ds ws h k, ap is_empty (trim_line d ds h))

-- The header that announces a length of `n` bytes is read back as the length `n`, if that is within
-- the limit and fits in 64 bits.
pub declared_length-to_string :
    (max_len n : ℕ)
    → n ≤ max_len
    → n ≤ usize_max
    → declared_length max_len (to_string n) ≡ length_of n
declared_length-to_string max_len n h k =
    (declared_length_iff max_len (to_string n) n).1
      (to_string-ne-nil n, all-to_string n, value_of-to_string n, h, k)
