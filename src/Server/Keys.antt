-- ===== src/Server/Keys.antt =====
-- crates/server/src/traversal.rs, "Utility functions": the keys by which rows and values are told
-- apart.
--
-- An i64 is an integer, an unsigned integer a number, a float its bit pattern. A row is the list of
-- its columns, each with its name. The itoa crate is given by `format_i64` and `format_u64`.
pub mod Values
pub mod Serial
pub mod Distinct
pub mod Unify
pub mod Itoa
pub mod Dedupe
use jibs.Prelude.{
  ℕ, Bool, true, false, List, [], ◌∷◌, ◌++◌, Option, none, some, map, if◌then◌else◌, leb, Bytes,
  bytes_eq, length, ◌==◌, ◌||◌,
}
use jibs.Prelude.Int.{ℤ, pos, max_i64, i64_bits, int_eq}
use jibs.Prelude.Words.{to_le_bytes}
use jibs.Prelude.Parse.{parse_i64, parse_u64, from_utf8}
use jibs.Server.Keys.Values.{MySqlValue, Row, row_get, row_values}

pub data CompactKey : Type 0 where
  int : ℤ → CompactKey
  uint : ℕ → CompactKey
  bytes : Bytes → CompactKey
  null : CompactKey

-- The derived equality of keys.
pub key_eq : CompactKey → CompactKey → Bool
key_eq (int i) (int j) = int_eq i j
key_eq (uint u) (uint w) = u == w
key_eq (bytes a) (bytes b) = bytes_eq a b
key_eq null null = true
key_eq _ _ = false

-- The set of keys seen, and its test.
pub seen_key : List CompactKey → CompactKey → Bool
unfolding key_eq
seen_key [] k = false
seen_key (j ∷ seen) k = key_eq j k || seen_key seen k

-- One value of a serialized key: a tag, and the payload in little-endian bytes.
unfoldable pub serialize_value : MySqlValue → Bytes
serialize_value MySqlValue.null = 0 ∷ []
serialize_value (MySqlValue.int i) = 1 ∷ to_le_bytes 8 (i64_bits i)
serialize_value (MySqlValue.uint u) = 2 ∷ to_le_bytes 8 u
serialize_value (MySqlValue.bytes b) = 3 ∷ (to_le_bytes 4 (length b) ++ b)
serialize_value (MySqlValue.float f) = 4 ∷ to_le_bytes 4 f
serialize_value (MySqlValue.double d) = 5 ∷ to_le_bytes 8 d
serialize_value (MySqlValue.date y m d h mi s us) =
    6 ∷ (to_le_bytes 2 y ++ (m ∷ d ∷ h ∷ mi ∷ s ∷ to_le_bytes 4 us))
serialize_value (MySqlValue.time neg d h m s us) =
    7 ∷ (if neg then 1 else 0) ∷ (to_le_bytes 4 d ++ (h ∷ m ∷ s ∷ to_le_bytes 4 us))

-- How a byte string reads as a number.
pub data Reading : Type 0 where
  signed : ℤ → Reading
  unsigned : ℕ → Reading
  other : Reading

module _ (format_i64 : ℤ → Bytes) (format_u64 : ℕ → Bytes) where
  -- `Some` of the integer only if it prints as the text.
  unfoldable pub parse_i64_canonical : Bytes → Option ℤ
  parse_i64_canonical s = elim (parse_i64 s) [
    | none ↦ none
    | some i ↦ if bytes_eq (format_i64 i) s then some i else none
  ]

  unfoldable pub parse_u64_canonical : Bytes → Option ℕ
  parse_u64_canonical s = elim (parse_u64 s) [
    | none ↦ none
    | some u ↦ if bytes_eq (format_u64 u) s then some u else none
  ]

  -- What the two canonical readings make of a byte string, where it is UTF-8.
  unfoldable pub read_number : Bytes → Reading
  unfolding parse_i64_canonical parse_u64_canonical
  read_number b =
      if from_utf8 b
      then (elim (parse_i64_canonical b) [
        | some i ↦ signed i
        | none ↦ elim (parse_u64_canonical b) [ some u ↦ unsigned u | none ↦ other ]
      ])
      else other

  unfoldable pub normalize_value : MySqlValue → MySqlValue
  unfolding read_number
  normalize_value (MySqlValue.bytes b) = elim (read_number b) [
    | signed i ↦ MySqlValue.int i
    | unsigned u ↦ MySqlValue.uint u
    | other ↦ MySqlValue.bytes b
  ]
  normalize_value (MySqlValue.uint u) =
      if leb u max_i64 then MySqlValue.int (pos u) else MySqlValue.uint u
  normalize_value v = v

  -- The loop of `serialize_pk`, over values that are still to be normalized.
  unfoldable pub serialize_pk : List MySqlValue → Bytes
  unfolding serialize_value normalize_value
  serialize_pk [] = []
  serialize_pk (v ∷ vs) = serialize_value (normalize_value v) ++ serialize_pk vs

  unfoldable pub value_to_compact_key : MySqlValue → CompactKey
  unfolding read_number serialize_pk
  value_to_compact_key (MySqlValue.int i) = int i
  value_to_compact_key (MySqlValue.uint u) = if leb u max_i64 then int (pos u) else uint u
  value_to_compact_key (MySqlValue.bytes b) = elim (read_number b) [
    | signed i ↦ int i
    | unsigned u ↦ uint u
    | other ↦ bytes b
  ]
  value_to_compact_key MySqlValue.null = null
  value_to_compact_key v = bytes (serialize_pk (v ∷ []))

  -- `extract_pk_from_row`
  pub extract_pk_from_row : Row → List Bytes → List MySqlValue
  extract_pk_from_row row pk_columns = map (row_get row) pk_columns

  pub row_pk_key : Row → List Bytes → CompactKey
  unfolding value_to_compact_key extract_pk_from_row
  row_pk_key row (c ∷ []) = value_to_compact_key (row_get row c)
  row_pk_key row [] = bytes (serialize_pk (row_values row))
  row_pk_key row pk_columns = bytes (serialize_pk (extract_pk_from_row row pk_columns))

  -- The filter of `dedupe_values`, with the keys that it has seen.
  unfoldable pub dedupe_onto : List CompactKey → List MySqlValue → List MySqlValue
  unfolding key_eq
  dedupe_onto seen [] = []
  dedupe_onto seen (v ∷ vs) =
      let k = value_to_compact_key v in
      let rest = dedupe_onto seen vs in
      let kept = v ∷ dedupe_onto (k ∷ seen) vs in if seen_key seen k then rest else kept

  unfoldable pub dedupe_values : List MySqlValue → List MySqlValue
  unfolding dedupe_onto
  dedupe_values = dedupe_onto []
