-- ===== src/Decimal.antt =====
-- Decimal numbers: `usize`'s `to_string` and `parse`, on a 64-bit machine.
pub mod RoundTrip
use mathlib.Core.WellFounded.{Acc, WellFounded}
use mathlib.Core.Logic.{dite}
use native.Mathlib.Decide.{dec_lt}
use mcp_core.Common.{
  true, false, ℕ, zero, suc, ◌+◌, ◌-◌, ◌*◌, ◌/◌, ◌%◌, ◌^◌, ◌<◌, Bool, Option, none, some, List, [],
  ◌∷◌, ◌≡◌, refl, arith, Text, codes, ltb, ◌==◌, is_ascii_digit, if◌then◌else◌,
}

abbrev pub usize_max : ℕ
usize_max = 2 ^ 64 - 1

-- The digits in front of `out`, one for each unit of fuel at most.
unfoldable pub digits : ℕ → ℕ → Text → Text
digits zero n out = out
digits (suc fuel) n out =
    let front = (b'0' + n % 10) ∷ out in
    elim (ltb n 10) [ true ↦ front | false ↦ digits fuel (n / 10) front ]

-- `usize::to_string`: a number has fewer digits than `n + 1`, so that the fuel is enough.
unfoldable pub to_string : ℕ → Text
unfolding digits
to_string n = digits (n + 1) n []

-- The value of a run of digits, most significant first, in front of which stands `acc`.
unfoldable pub value_from : ℕ → Text → Option ℕ
unfolding is_ascii_digit
value_from acc [] = some acc
value_from acc (c ∷ cs) =
    let rest = value_from (acc * 10 + (c - b'0')) cs in
    if is_ascii_digit c
    then (if ltb usize_max (acc * 10 + (c - b'0')) then none else rest)
    else none

abbrev after_sign : Text → Option ℕ
after_sign [] = none
after_sign (c ∷ cs) = value_from 0 (c ∷ cs)

-- `str::parse::<usize>`: a plus sign may stand in front; an error on no digits, on anything else,
-- and on a value that does not fit.
unfoldable pub parse : Text → Option ℕ
unfolding value_from
parse [] = none
parse (c ∷ cs) = if c == b'+' then after_sign cs else after_sign (c ∷ cs)

to_string_max : to_string usize_max ≡ codes "18446744073709551615"
unfolding to_string
to_string_max = refl

parse_max : parse (codes "18446744073709551615") ≡ some usize_max
unfolding parse
parse_max = refl

parse_over : parse (codes "18446744073709551616") ≡ none
unfolding parse
parse_over = refl
