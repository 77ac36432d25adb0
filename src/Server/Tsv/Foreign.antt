-- ===== src/Server/Tsv/Foreign.antt =====
-- The crates that the writer calls, and what is used of them.
use jibs.Prelude.{ℕ, List, Option, Bytes}
use jibs.Prelude.Int.{ℤ}
use jibs.Prelude.Result.{Result}

-- rand, hex, itoa, ryu and zstd; a floating-point number is its bit pattern.
pub record Crates (R : Type 0) : Type 0 where
  pub choose : List Bytes → R → Option Bytes × R
  pub hex_encode : Bytes → Bytes
  pub format_i64 : ℤ → Bytes
  pub format_u64 : ℕ → Bytes
  pub format_f32 : ℕ → Bytes
  pub format_f64 : ℕ → Bytes
  pub zstd_encode : Bytes → Result Bytes Bytes
