-- ===== src/Decimal/RoundTrip.antt =====
-- What `parse` accepts, and that it reads back what `to_string` writes.
use mcp_core.Common.{
  ap, ℕ, zero, suc, ◌+◌, ◌-◌, ◌*◌, ◌/◌, ◌%◌, ◌<◌, ◌≤◌, true, none, some, [], ◌∷◌, ◌≡◌, ◌≢◌, ◌∙◌,
  refl, inl, inr, all, Bool-cases, arith, Text, ltb, leb, is_ascii_digit, if◌then◌else◌,
}
use mcp_core.Decimal.{usize_max, digits, to_string, value_from, parse}

-- The number that digits denote, `acc` standing for those already read. It has no bound.
abbrev pub value_of : ℕ → Text → ℕ
value_of acc [] = acc
value_of acc (c ∷ cs) = value_of (acc * 10 + (c - b'0')) cs

value_of-ge : (acc : ℕ) (s : Text) → acc ≤ value_of acc s
value_of-ge acc [] = omega arith
value_of-ge acc (c ∷ cs) = omega (arith, value_of-ge (acc * 10 + (c - b'0')) cs)

value_from_lem :
    (acc : ℕ) (s : Text)
    → all is_ascii_digit s ≡ true
    → acc ≤ usize_max
    → value_from acc s ≡ (if leb (value_of acc s) usize_max then some (value_of acc s) else none)
unfolding value_from
value_from_lem acc [] h k = ground arith
value_from_lem acc (c ∷ cs) h k =
    ground
      (arith, value_from_lem (acc * 10 + (c - b'0')) cs, value_of-ge (acc * 10 + (c - b'0')) cs)

-- A run of digits is parsed as the number that it denotes if that fits in 64 bits, and else refused.
pub parse_digits :
    (s : Text)
    → all is_ascii_digit s ≡ true
    → s ≢ []
    → parse s ≡ (if leb (value_of 0 s) usize_max then some (value_of 0 s) else none)
unfolding parse
parse_digits [] h ne = absurd (ne refl)
parse_digits (c ∷ cs) h ne = ground (arith, value_from_lem 0 (c ∷ cs))

value_of-digits :
    (fuel n : ℕ) (out : Text) → n < fuel → value_of 0 (digits fuel n out) ≡ value_of n out
unfolding digits
value_of-digits zero n out h = elim h [ ]
value_of-digits (suc f) n out h = elim (Bool-cases (ltb n 10)) [
  | inl small ↦ rw (small, digits) (ap (λ k. value_of k out) (ground arith))
  | inr big ↦
      rw (big, digits)
        (value_of-digits f (n / 10) _ (ground arith) ∙ ap (λ k. value_of k out) (omega arith))
]

all-digits :
    (fuel n : ℕ) (out : Text)
    → all is_ascii_digit out ≡ true
    → all is_ascii_digit (digits fuel n out) ≡ true
unfolding digits is_ascii_digit
all-digits zero n out h = h
all-digits (suc f) n out h = ground (arith, all-digits f (n / 10) ((b'0' + n % 10) ∷ out))

digits-ne-nil : (fuel n c : ℕ) (out : Text) → digits fuel n (c ∷ out) ≢ []
unfolding digits
digits-ne-nil zero n c out h = cc
digits-ne-nil (suc f) n c out h = ground (arith, digits-ne-nil f (n / 10) (b'0' + n % 10) (c ∷ out))

digits-suc-ne-nil : (f n : ℕ) → digits (suc f) n [] ≢ []
unfolding digits
digits-suc-ne-nil f n h = ground (arith, digits-ne-nil f (n / 10) (b'0' + n % 10) [])

pub all-to_string : (n : ℕ) → all is_ascii_digit (to_string n) ≡ true
unfolding to_string
all-to_string n = all-digits (n + 1) n [] refl

pub to_string-ne-nil : (n : ℕ) → to_string n ≢ []
unfolding to_string
to_string-ne-nil n h = let e : n + 1 ≡ suc n = omega arith in digits-suc-ne-nil n n (rw e at h)

pub value_of-to_string : (n : ℕ) → value_of 0 (to_string n) ≡ n
unfolding to_string
value_of-to_string n = value_of-digits (n + 1) n [] (omega arith)

-- A number that fits is read back from its decimal text.
pub parse-to_string : (n : ℕ) → n ≤ usize_max → parse (to_string n) ≡ some n
parse-to_string n h =
    parse_digits (to_string n) (all-to_string n) (to_string-ne-nil n)
    ∙ ground (arith, value_of-to_string n)
