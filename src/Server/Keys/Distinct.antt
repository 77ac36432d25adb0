-- ===== src/Server/Keys/Distinct.antt =====
-- Distinct byte strings have distinct keys, and a number has the key of its decimal text.
use jibs.Prelude.{ℕ, some, ◌≡◌, refl, inl, inr, arith, Bytes, bytes_eq_iff, Option-cases}
use jibs.Prelude.Int.{ℤ}
use jibs.Prelude.Parse.{parse_i64, parse_u64}
use jibs.Server.Keys.Values.{MySqlValue}
use jibs.Server.Keys.{
  Reading, signed, unsigned, other, parse_i64_canonical, parse_u64_canonical, read_number,
  value_to_compact_key,
}

module _ (format_i64 : ℤ → Bytes) (format_u64 : ℕ → Bytes) where
  -- The text that a reading prints as.
  abbrev Prints : Bytes → Reading → Type 0
  Prints b (signed i) = format_i64 i ≡ b
  Prints b (unsigned u) = format_u64 u ≡ b
  Prints b other = Unit

  parse_i64_canonical_prints :
      (b : Bytes) (i : ℤ) → parse_i64_canonical format_i64 format_u64 b ≡ some i → format_i64 i ≡ b
  unfolding parse_i64_canonical
  parse_i64_canonical_prints b i h = elim (Option-cases (parse_i64 b)) [
    | inl missing ↦ ground arith
    | inr (j, e) ↦ ground (arith, bytes_eq_iff (format_i64 j) b)
  ]

  parse_u64_canonical_prints :
      (b : Bytes) (u : ℕ) → parse_u64_canonical format_i64 format_u64 b ≡ some u → format_u64 u ≡ b
  unfolding parse_u64_canonical
  parse_u64_canonical_prints b i h = elim (Option-cases (parse_u64 b)) [
    | inl missing ↦ ground arith
    | inr (j, e) ↦ ground (arith, bytes_eq_iff (format_u64 j) b)
  ]

  read_number-Prints :
      (b : Bytes) (r : Reading) → read_number format_i64 format_u64 b ≡ r → Prints b r
  unfolding read_number
  read_number-Prints b (signed i) h = ground (arith, parse_i64_canonical_prints b i)
  read_number-Prints b (unsigned u) h = ground (arith, parse_u64_canonical_prints b u)
  read_number-Prints b other h = tt

  same_key :
      (a b : Bytes) (r q : Reading)
      → read_number format_i64 format_u64 a ≡ r
      → read_number format_i64 format_u64 b ≡ q
      → value_to_compact_key format_i64 format_u64 (MySqlValue.bytes a)
        ≡ value_to_compact_key format_i64 format_u64 (MySqlValue.bytes b)
      → a ≡ b
  unfolding value_to_compact_key
  same_key a b (signed i) q h k e =
      ground (arith, read_number-Prints a (signed i) h, read_number-Prints b (signed i))
  same_key a b (unsigned i) q h k e =
      ground (arith, read_number-Prints a (unsigned i) h, read_number-Prints b (unsigned i))
  same_key a b other q h k e = ground arith

  -- Whatever the itoa crate prints: two byte strings have the same key only if they are the same.
  -- So `0123` and `123`, or `+5` and `5`, stay distinct keys of a text column.
  pub value_to_compact_key-bytes-injective :
      (a b : Bytes)
      → value_to_compact_key format_i64 format_u64 (MySqlValue.bytes a)
        ≡ value_to_compact_key format_i64 format_u64 (MySqlValue.bytes b)
      → a ≡ b
  value_to_compact_key-bytes-injective a b = same_key a b _ _ refl refl
