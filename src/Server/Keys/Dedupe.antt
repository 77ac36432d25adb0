-- ===== src/Server/Keys/Dedupe.antt =====
-- `dedupe_values` keeps the first value of each key.
use jibs.Prelude.{ℕ, true, List, [], ◌∷◌, ◌≡◌, ◌↔◌, arith, Bytes, bytes_eq_iff, In}
use jibs.Prelude.Int.{ℤ, int_eq_iff}
use jibs.Server.Keys.Values.{MySqlValue}
use jibs.Server.Keys.{CompactKey, int, uint, bytes, key_eq, value_to_compact_key}

pub key_eq_iff : (a b : CompactKey) → (key_eq a b ≡ true) ↔ (a ≡ b)
unfolding key_eq
key_eq_iff (int i) (int j) = ground (arith, int_eq_iff i j)
key_eq_iff (uint u) (uint w) = ground arith
key_eq_iff (bytes a) (bytes b) = ground (arith, bytes_eq_iff a b)
key_eq_iff _ _ = ground arith

module _ (format_i64 : ℤ → Bytes) (format_u64 : ℕ → Bytes) where
  abbrev pub key : MySqlValue → CompactKey
  key = value_to_compact_key format_i64 format_u64

  -- The values that stand before the first value of their key, for the keys seen before.
  abbrev pub AllDistinct : List CompactKey → List MySqlValue → Type 0
  AllDistinct seen [] = Unit
  AllDistinct seen (v ∷ vs) = (¬ In (key v) seen) × AllDistinct (key v ∷ seen) vs
