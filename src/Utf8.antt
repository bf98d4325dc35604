-- ===== src/Utf8.antt =====
-- `String::from_utf8`, `str::as_bytes` and `str::len`, which src/transport.rs calls: text is a list
-- of Unicode scalar values, and these are its bytes.
pub mod RoundTrip
pub mod Sound
use mcp_core.Common.{
  ℕ, ◌+◌, ◌-◌, ◌*◌, ◌/◌, ◌%◌, Option, none, some, List, [], ◌∷◌, ◌++◌, Text, ltb, leb, ◌&&◌, ◌==◌,
  not, Bool, if◌then◌else◌,
}

abbrev pub Bytes : Type 0
Bytes = List ℕ

unfoldable pub encode_char : ℕ → Bytes
encode_char c =
    if ltb c 0x80
    then c ∷ []
    else if ltb c 0x800
    then (0xc0 + c / 64) ∷ (0x80 + c % 64) ∷ []
    else if ltb c 0x1_0000
    then (0xe0 + c / 4096) ∷ (0x80 + c / 64 % 64) ∷ (0x80 + c % 64) ∷ []
    else (0xf0 + c / 262144) ∷ (0x80 + c / 4096 % 64) ∷ (0x80 + c / 64 % 64) ∷ (0x80 + c % 64) ∷ []

-- `str::as_bytes`
unfoldable pub encode : Text → Bytes
unfolding encode_char
encode [] = []
encode (c ∷ cs) = encode_char c ++ encode cs

-- A character that is being read: how many bytes it still wants, the bits so far, and the range
-- of the next byte.
pub record Decoder : Type 0 where
  pub wanted : ℕ
  pub bits : ℕ
  pub lowest : ℕ
  pub highest : ℕ

abbrev pub idle : Decoder
idle = record { wanted = 0; bits = 0; lowest = 0x80; highest = 0xbf }

abbrev within : ℕ → ℕ → ℕ → Bool
within lo hi b = leb lo b && leb b hi

-- The first byte of a character, by the table of well-formed sequences.
abbrev lead : ℕ → Option (Option ℕ × Decoder)
lead b =
    if ltb b 0x80
    then some (some b, idle)
    else if within 0xc2 0xdf b
    then some (none, record idle { wanted = 1; bits = b - 0xc0 })
    else if b == 0xe0
    then some (none, record idle { wanted = 2; bits = 0; lowest = 0xa0 })
    else if b == 0xed
    then some (none, record idle { wanted = 2; bits = 0xd; highest = 0x9f })
    else if within 0xe1 0xef b
    then some (none, record idle { wanted = 2; bits = b - 0xe0 })
    else if b == 0xf0
    then some (none, record idle { wanted = 3; bits = 0; lowest = 0x90 })
    else if b == 0xf4
    then some (none, record idle { wanted = 3; bits = 4; highest = 0x8f })
    else if within 0xf1 0xf3 b
    then some (none, record idle { wanted = 3; bits = b - 0xf0 })
    else none

-- One byte: the character that it completes, if any, and the decoder after it.
unfoldable pub advance : Decoder → ℕ → Option (Option ℕ × Decoder)
advance d b =
    if d.wanted == 0
    then lead b
    else if not (within d.lowest d.highest b)
    then none
    else if d.wanted == 1
    then some (some (d.bits * 64 + (b - 0x80)), idle)
    else some (none, record idle { wanted = d.wanted - 1; bits = d.bits * 64 + (b - 0x80) })

abbrev pub prepend : Option ℕ → Option Text → Option Text
prepend o none = none
prepend none (some s) = some s
prepend (some c) (some s) = some (c ∷ s)

unfoldable pub decode_from : Decoder → Bytes → Option Text
unfolding advance
decode_from d [] = if d.wanted == 0 then some [] else none
decode_from d (b ∷ bs) = elim (advance d b) [
  | none ↦ none
  | some (out, next) ↦ prepend out (decode_from next bs)
]

-- `String::from_utf8`
unfoldable pub from_utf8 : Bytes → Option Text
unfolding decode_from
from_utf8 = decode_from idle
