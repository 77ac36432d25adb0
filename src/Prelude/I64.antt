-- ===== src/Prelude/I64.antt =====
-- The arithmetic of an i64: `+`, `-`, `*`, `/`, `%` and negation.
--
-- A result out of range panics in a build with overflow checks, and wraps around in one without. A
-- division by zero, and the least i64 by -1, panic in either.
use jibs.Prelude.{
  ℕ, zero, suc, ◌+◌, ◌-◌, ◌*◌, ◌/◌, ◌%◌, ◌^◌, Bool, true, false, Option, none, some, if◌then◌else◌,
  leb,
}
use jibs.Prelude.Int.{ℤ, pos, negsuc, max_i64, in_i64}

-- a - b, as an integer.
abbrev pub sub_ℕ : ℕ → ℕ → ℤ
sub_ℕ a b = if leb b a then pos (a - b) else negsuc (b - a - 1)

abbrev pub minus : ℕ → ℤ
minus zero = pos 0
minus (suc n) = negsuc n

abbrev pub neg : ℤ → ℤ
neg (pos n) = minus n
neg (negsuc n) = pos (suc n)

abbrev pub plus : ℤ → ℤ → ℤ
plus (pos m) (pos n) = pos (m + n)
plus (pos m) (negsuc n) = sub_ℕ m (suc n)
plus (negsuc m) (pos n) = sub_ℕ n (suc m)
plus (negsuc m) (negsuc n) = negsuc (m + n + 1)

abbrev pub times : ℤ → ℤ → ℤ
times (pos m) (pos n) = pos (m * n)
times (pos m) (negsuc n) = minus (m * suc n)
times (negsuc m) (pos n) = minus (suc m * n)
times (negsuc m) (negsuc n) = pos (suc m * suc n)

-- Division towards zero, by a divisor that is not zero.
abbrev pub quot : ℤ → ℤ → ℤ
quot (pos m) (pos n) = pos (m / n)
quot (pos m) (negsuc n) = minus (m / suc n)
quot (negsuc m) (pos n) = minus (suc m / n)
quot (negsuc m) (negsuc n) = pos (suc m / suc n)

-- The remainder has the sign of the dividend.
abbrev pub magnitude : ℤ → ℕ
magnitude (pos n) = n
magnitude (negsuc n) = suc n

abbrev pub rem : ℤ → ℤ → ℤ
rem (pos m) b = pos (m % magnitude b)
rem (negsuc m) b = minus (suc m % magnitude b)

-- The i64 with the low 64 bits.
unfoldable pub wrap : ℤ → ℤ
wrap (pos n) = let b = n % 2 ^ 64 in if leb b max_i64 then pos b else negsuc (2 ^ 64 - 1 - b)
wrap (negsuc n) = let b = n % 2 ^ 64 in if leb b max_i64 then negsuc b else pos (2 ^ 64 - 1 - b)

-- The result of an operation, `none` for a panic; the test tells whether the build checks overflow.
unfoldable pub fit : Bool → ℤ → Option ℤ
unfolding wrap
fit checked i = if in_i64 i then some i else if checked then none else some (wrap i)

abbrev pub is_zero : ℤ → Bool
is_zero (pos zero) = true
is_zero _ = false

-- A quotient, or its remainder, whose quotient is out of range only for the least i64 by -1.
unfoldable pub divided : (ℤ → ℤ → ℤ) → ℤ → ℤ → Option ℤ
divided op a b = if is_zero b then none else if in_i64 (quot a b) then some (op a b) else none
