-- ===== src/Prelude/Int.antt =====
-- Signed machine integers: the integers, and the range of an i64.
use jibs.Prelude.{ℕ, suc, ◌-◌, ◌^◌, Bool, true, false, leb, ◌==◌, ◌≡◌, ◌↔◌, arith}

-- `negsuc n` is -(n + 1).
pub data ℤ : Type 0 where
  pos : ℕ → ℤ
  negsuc : ℕ → ℤ

-- `i64::MAX as u64`
abbrev pub max_i64 : ℕ
max_i64 = 2 ^ 63 - 1

-- The integer is a value of an i64.
abbrev pub in_i64 : ℤ → Bool
in_i64 (pos n) = leb n max_i64
in_i64 (negsuc n) = leb n max_i64

-- The bit pattern of an i64, as a number below 2^64.
abbrev pub i64_bits : ℤ → ℕ
i64_bits (pos n) = n
i64_bits (negsuc n) = 2 ^ 64 - suc n

abbrev pub int_eq : ℤ → ℤ → Bool
int_eq (pos m) (pos n) = m == n
int_eq (negsuc m) (negsuc n) = m == n
int_eq _ _ = false

pub int_eq_iff : (a b : ℤ) → (int_eq a b ≡ true) ↔ (a ≡ b)
int_eq_iff (pos m) (pos n) = ground arith
int_eq_iff _ _ = ground arith
