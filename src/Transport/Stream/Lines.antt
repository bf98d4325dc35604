-- ===== src/Transport/Stream/Lines.antt =====
-- A line of a byte stream, read one byte at a time: what src/transport.rs reads chunk by chunk.
use mcp_core.Common.{
  Option-cases, inl, inr, ℕ, zero, suc, ◌-◌, ◌≤◌, ◌<◌, min, none, some, [], ◌∷◌, ◌++◌, ◌≡◌, refl,
  ap, arith, length, take, drop, ◌==◌, if◌then◌else◌,
}
use mcp_core.Utf8.{Bytes}
use mcp_core.Transport.Stream.{chunk, fault, Stream, unread, newline_at}

-- The bytes that a stream delivers, up to its first failure.
abbrev pub flatten : Stream → Bytes
flatten [] = []
flatten (chunk b bs ∷ r) = (b ∷ bs) ++ flatten r
flatten (fault e ∷ r) = []

abbrev pub IsFaultless : Stream → Type 0
IsFaultless [] = Unit
IsFaultless (chunk b bs ∷ r) = IsFaultless r
IsFaultless (fault e ∷ r) = ⊥

pub flatten-unread : (bs : Bytes) (r : Stream) → flatten (unread bs r) ≡ bs ++ flatten r
flatten-unread [] r = refl
flatten-unread (b ∷ bs) r = refl

pub unread-IsFaultless : (bs : Bytes) (r : Stream) → IsFaultless r → IsFaultless (unread bs r)
unread-IsFaultless [] r h = h
unread-IsFaultless (b ∷ bs) r h = h

-- How a line ends: at a newline, at the end of the stream, or at the end of the budget.
pub data LineEnd : Type 0 where
  at_newline at_end at_budget : LineEnd

pub record Line : Type 0 where
  pub bytes : Bytes
  pub rest : Bytes
  pub ending : LineEnd

abbrev pub before : Bytes → Line → Line
before bs l = record l { bytes = bs ++ l.bytes }

-- A line of at most so many bytes, its newline included.
unfoldable pub cut_line : ℕ → Bytes → Line
cut_line zero xs = record { bytes = []; rest = xs; ending = at_budget }
cut_line (suc n) [] = record { bytes = []; rest = []; ending = at_end }
cut_line (suc n) (b ∷ bs) =
    if b == b'\n'
    then record { bytes = b ∷ []; rest = bs; ending = at_newline }
    else before (b ∷ []) (cut_line n bs)

pub take-min : (n : ℕ) (xs : Bytes) → take (min (length xs) n) xs ≡ take n xs
take-min zero [] = refl
take-min (suc n) [] = let e : min 0 (suc n) ≡ 0 = omega arith in rw e refl
take-min zero (x ∷ xs) = let e : min (suc (length xs)) 0 ≡ 0 = omega arith in rw e refl
take-min (suc n) (x ∷ xs) =
    let e : min (suc (length xs)) (suc n) ≡ suc (min (length xs) n) = omega arith in
    rw e (ap (◌∷◌ x) (take-min n xs))

pub drop-min : (n : ℕ) (xs : Bytes) → drop (min (length xs) n) xs ≡ drop n xs
drop-min zero [] = refl
drop-min (suc n) [] = let e : min 0 (suc n) ≡ 0 = omega arith in rw e refl
drop-min zero (x ∷ xs) = let e : min (suc (length xs)) 0 ≡ 0 = omega arith in rw e refl
drop-min (suc n) (x ∷ xs) =
    let e : min (suc (length xs)) (suc n) ≡ suc (min (length xs) n) = omega arith in
    rw e (drop-min n xs)

-- The newline of a chunk within the budget ends the line.
pub cut_line_found :
    (budget nl : ℕ) (xs more : Bytes)
    → newline_at (take budget xs) ≡ some nl
    → cut_line budget (xs ++ more)
      ≡ record { bytes = take (suc nl) xs; rest = drop (suc nl) xs ++ more; ending = at_newline }
unfolding cut_line newline_at
cut_line_found zero nl xs more h = cc
cut_line_found (suc n) nl [] more h = cc
cut_line_found (suc n) nl (x ∷ xs) more h = elim (Option-cases (newline_at (take n xs))) [
  | inl e ↦ ground arith
  | inr (i, e) ↦ ground (arith, cut_line_found n i xs more e)
]

-- A chunk that reaches the budget with no newline in it ends the line there.
pub cut_line_full :
    (budget : ℕ) (xs more : Bytes)
    → newline_at (take budget xs) ≡ none
    → budget ≤ length xs
    → cut_line budget (xs ++ more)
      ≡ record { bytes = take budget xs; rest = drop budget xs ++ more; ending = at_budget }
unfolding cut_line newline_at
cut_line_full zero xs more h k = refl
cut_line_full (suc n) [] more h k = absurd (omega arith)
cut_line_full (suc n) (x ∷ xs) more h k = ground (arith, cut_line_full n xs more)

-- A shorter chunk with no newline in it is the beginning of the line.
pub cut_line_part :
    (budget : ℕ) (xs more : Bytes)
    → newline_at (take budget xs) ≡ none
    → length xs < budget
    → cut_line budget (xs ++ more) ≡ before xs (cut_line (budget - length xs) more)
unfolding cut_line newline_at
cut_line_part zero xs more h k = absurd (omega arith)
cut_line_part (suc n) [] more h k = ground arith
cut_line_part (suc n) (x ∷ xs) more h k = ground (arith, cut_line_part n xs more)
