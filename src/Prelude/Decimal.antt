-- ===== src/Prelude/Decimal.antt =====
-- Decimal text: `{}` and `{:0w}` of the standard library's formatting of an unsigned integer, and of
-- an i64.
use jibs.Prelude.{
  ℕ, zero, suc, ◌+◌, ◌-◌, ◌/◌, ◌%◌, [], ◌∷◌, ◌++◌, ◌≡◌, refl, if◌then◌else◌, ltb, Bytes, length,
  replicate, codes,
}
use jibs.Prelude.Int.{ℤ, pos, negsuc}

-- The digits of `n` in front of `out`; as many rounds as the fuel allows.
unfoldable pub decimal_onto : ℕ → ℕ → Bytes → Bytes
decimal_onto zero n out = out
decimal_onto (suc fuel) n out =
    let longer = (b'0' + n % 10) ∷ out in
    let rest = decimal_onto fuel (n / 10) longer in if ltb n 10 then longer else rest

-- A number has fewer digits than `n + 1`.
unfoldable pub decimal : ℕ → Bytes
unfolding decimal_onto
decimal n = decimal_onto (suc n) n []

unfoldable pub decimal_i64 : ℤ → Bytes
unfolding decimal
decimal_i64 (pos n) = decimal n
decimal_i64 (negsuc n) = b'-' ∷ decimal (suc n)

-- Zeros in front, up to the width.
unfoldable pub padded : ℕ → ℕ → Bytes
unfolding decimal
padded width n = replicate (width - length (decimal n)) b'0' ++ decimal n

decimal_runs : decimal 18446744073709551615 ≡ codes "18446744073709551615"
unfolding decimal
decimal_runs = refl
