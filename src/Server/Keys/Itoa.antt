-- ===== src/Server/Keys/Itoa.antt =====
-- Decimal text satisfies what is used of the itoa crate.
use jibs.Prelude.{
  ℕ, zero, suc, ◌+◌, ◌-◌, ◌*◌, ◌/◌, ◌%◌, ◌<◌, true, false, [], ◌∷◌, some, ◌≡◌, refl, ◌∙◌, inl, inr,
  arith, Bytes, Bool-cases, ltb, ◌==◌,
}
use jibs.Prelude.Decimal.{decimal_onto, decimal, decimal_i64}
use jibs.Prelude.Int.{ℤ, pos, negsuc, in_i64}
use jibs.Prelude.Parse.{is_digit, digits_onto, digits, unsigned_part, parse_i64, parse_u64}
use jibs.Server.Keys.Unify.{ItoaLaws}

abbrev HasDigit : Bytes → Type 0
HasDigit s = (c : ℕ) × (rest : Bytes) × (s ≡ c ∷ rest) × (is_digit c ≡ true)

low_digit : (n : ℕ) → is_digit (b'0' + n % 10) ≡ true
unfolding is_digit
low_digit n = ground arith

decimal_onto-HasDigit :
    (fuel n : ℕ) (out : Bytes) → HasDigit out → HasDigit (decimal_onto fuel n out)
unfolding decimal_onto
decimal_onto-HasDigit zero n out h = h
decimal_onto-HasDigit (suc fuel) n out h =
    let longer : HasDigit ((b'0' + n % 10) ∷ out) = (b'0' + n % 10, out, refl, low_digit n) in
    elim (Bool-cases (ltb n 10)) [
      | inl last ↦ rw last longer
      | inr more ↦ rw more (decimal_onto-HasDigit fuel (n / 10) ((b'0' + n % 10) ∷ out) longer)
    ]

digits_onto-decimal_onto :
    (fuel n : ℕ) (out : Bytes)
    → n < fuel
    → digits_onto 0 (decimal_onto fuel n out) ≡ digits_onto n out
unfolding decimal_onto digits_onto
digits_onto-decimal_onto zero n out h = absurd (omega arith)
digits_onto-decimal_onto (suc fuel) n out h = elim (Bool-cases (ltb n 10)) [
  | inl last ↦
      let same : 0 * 10 + (b'0' + n % 10 - b'0') ≡ n = ground arith in
      rw (last, low_digit n, same) refl
  | inr more ↦
      let same : n / 10 * 10 + (b'0' + n % 10 - b'0') ≡ n = omega arith in
      rw more (
        digits_onto-decimal_onto fuel (n / 10) ((b'0' + n % 10) ∷ out) (ground arith)
        ∙ rw (low_digit n, same) refl)
]

decimal-HasDigit : (n : ℕ) → HasDigit (decimal n)
unfolding decimal decimal_onto
decimal-HasDigit n =
    let longer : HasDigit ((b'0' + n % 10) ∷ []) = (b'0' + n % 10, [], refl, low_digit n) in
    elim (Bool-cases (ltb n 10)) [
      | inl last ↦ rw last longer
      | inr more ↦ rw more (decimal_onto-HasDigit n (n / 10) ((b'0' + n % 10) ∷ []) longer)
    ]

digits-decimal : (n : ℕ) → digits (decimal n) ≡ some n
unfolding digits
digits-decimal n =
    let (c, rest, e, d) = decimal-HasDigit n in
    let read : digits_onto 0 (decimal n) ≡ some n =
      unfold decimal digits_onto in digits_onto-decimal_onto (suc n) n [] (omega arith) in
    rw e (rw e at read)

-- A digit is no sign.
unsigned_part-decimal : (n : ℕ) → unsigned_part (decimal n) ≡ some n
unfolding unsigned_part
unsigned_part-decimal n =
    let (c, rest, e, d) = decimal-HasDigit n in
    let plain : (c == b'+') ≡ false = unfold is_digit in ground arith in
    rw (e, plain) (rw e at (digits-decimal n))

parse_i64-decimal_i64 : (i : ℤ) → in_i64 i ≡ true → parse_i64 (decimal_i64 i) ≡ some i
unfolding parse_i64 decimal_i64
parse_i64-decimal_i64 (pos n) h =
    let (c, rest, e, d) = decimal-HasDigit n in
    let plain : (c == b'-') ≡ false = unfold is_digit in ground arith in
    rw (e, plain) (rw (rw e at (unsigned_part-decimal n)) (ground arith))
parse_i64-decimal_i64 (negsuc n) h = rw (digits-decimal (suc n)) (ground arith)

pub decimal-ItoaLaws : ItoaLaws decimal_i64 decimal
unfolding decimal_i64
decimal-ItoaLaws = record {
  reads_i64 = parse_i64-decimal_i64;
  reads_u64 = λ u h. unfold parse_u64 in rw unsigned_part-decimal (ground arith);
  alike = λ u _. refl;
}
