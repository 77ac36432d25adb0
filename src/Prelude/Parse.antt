-- ===== src/Prelude/Parse.antt =====
-- The standard library's `str::parse` for i64 and u64, and the check of `str::from_utf8`.
use jibs.Prelude.{
  ℕ, zero, suc, ◌+◌, ◌-◌, ◌*◌, ◌^◌, Bool, true, false, ◌&&◌, [], ◌∷◌, Option, none, some,
  if◌then◌else◌, ltb, leb, ◌==◌, Bytes,
}
use jibs.Prelude.Int.{ℤ, pos, negsuc, max_i64}

unfoldable pub is_digit : ℕ → Bool
is_digit c = leb b'0' c && leb c b'9'

-- The value of decimal digits behind those already read; `none` at any other byte.
unfoldable pub digits_onto : ℕ → Bytes → Option ℕ
unfolding is_digit
digits_onto n [] = some n
digits_onto n (c ∷ s) =
    let rest = digits_onto (n * 10 + (c - b'0')) s in if is_digit c then rest else none

-- One digit or more.
unfoldable pub digits : Bytes → Option ℕ
unfolding digits_onto
digits [] = none
digits (c ∷ s) = digits_onto 0 (c ∷ s)

-- A magnitude under a minus sign.
abbrev pub negative : ℕ → ℤ
negative zero = pos 0
negative (suc n) = negsuc n

abbrev pub at_most : ℕ → Option ℕ → Option ℕ
at_most limit none = none
at_most limit (some n) = if leb n limit then some n else none

unfoldable pub unsigned_part : Bytes → Option ℕ
unfolding digits
unsigned_part [] = none
unsigned_part (c ∷ s) = if c == b'+' then digits s else digits (c ∷ s)

-- `s.parse::<u64>().ok()`
unfoldable pub parse_u64 : Bytes → Option ℕ
unfolding unsigned_part
parse_u64 s = at_most (2 ^ 64 - 1) (unsigned_part s)

abbrev pub map_sign : (ℕ → ℤ) → Option ℕ → Option ℤ
map_sign f none = none
map_sign f (some n) = some (f n)

-- `s.parse::<i64>().ok()`
unfoldable pub parse_i64 : Bytes → Option ℤ
unfolding unsigned_part
parse_i64 [] = none
parse_i64 (c ∷ s) =
    if c == b'-'
    then map_sign negative (at_most (2 ^ 63) (digits s))
    else map_sign pos (at_most max_i64 (unsigned_part (c ∷ s)))

abbrev within : ℕ → ℕ → ℕ → Bool
within lo hi c = leb lo c && leb c hi

-- For the first byte of a UTF-8 character: how many bytes follow, and the range of the next one.
unfoldable pub lead : ℕ → Option (ℕ × ℕ × ℕ)
lead c =
    if ltb c 0x80
    then some (0, 0, 0)
    else if within 0xC2 0xDF c
    then some (1, 0x80, 0xBF)
    else if c == 0xE0
    then some (2, 0xA0, 0xBF)
    else if c == 0xED
    then some (2, 0x80, 0x9F)
    else if within 0xE1 0xEF c
    then some (2, 0x80, 0xBF)
    else if c == 0xF0
    then some (3, 0x90, 0xBF)
    else if within 0xF1 0xF3 c
    then some (3, 0x80, 0xBF)
    else if c == 0xF4
    then some (3, 0x80, 0x8F)
    else none

-- `more` bytes of the current character are still to come, the next in the range given.
unfoldable pub utf8_rest : ℕ → ℕ → ℕ → Bytes → Bool
unfolding lead
utf8_rest zero lo hi [] = true
utf8_rest (suc k) lo hi [] = false
utf8_rest zero lo hi (c ∷ s) = elim (lead c) [
  | none ↦ false
  | some (more, l, h) ↦ utf8_rest more l h s
]
utf8_rest (suc k) lo hi (c ∷ s) =
    let rest = utf8_rest k 0x80 0xBF s in if within lo hi c then rest else false

-- `str::from_utf8(b).is_ok()`
unfoldable pub from_utf8 : Bytes → Bool
unfolding utf8_rest
from_utf8 = utf8_rest 0 0 0
