-- ===== src/Tests/Keys.antt =====
-- Keys of concrete values, with decimal text for the itoa crate.
use jibs.Prelude.{List, [], ◌∷◌, ◌≡◌, refl, bytes_eq, codes, All, arith}
use jibs.Prelude.Decimal.{decimal, decimal_i64}
use jibs.Prelude.Int.{pos, negsuc}
use jibs.Prelude.Parse.{parse_i64, from_utf8}
use jibs.Server.Keys.Distinct.{value_to_compact_key-bytes-injective}
use jibs.Server.Keys.Itoa.{decimal-ItoaLaws}
use jibs.Server.Keys.Serial.{IsSized, normalized, serialize_pk-injective}
use jibs.Server.Keys.Unify.{value_to_compact_key-i64, value_to_compact_key-u64}
use jibs.Server.Keys.Values.{MySqlValue}
use jibs.Server.Keys.{
  CompactKey, value_to_compact_key, parse_i64_canonical, read_number, normalize_value, serialize_pk,
}

abbrev k : MySqlValue → CompactKey
k = value_to_compact_key decimal_i64 decimal

value_to_compact_key-i64_example :
    (k (MySqlValue.bytes (decimal_i64 (negsuc 41))) ≡ k (MySqlValue.int (negsuc 41)))
    × (normalize_value decimal_i64 decimal (MySqlValue.bytes (decimal_i64 (negsuc 41)))
        ≡ normalize_value decimal_i64 decimal (MySqlValue.int (negsuc 41)))
value_to_compact_key-i64_example =
    value_to_compact_key-i64 decimal_i64 decimal decimal-ItoaLaws (negsuc 41) refl

-- Above the largest i64.
value_to_compact_key-u64_example :
    (k (MySqlValue.bytes (decimal 18446744073709551615)) ≡ k (MySqlValue.uint 18446744073709551615))
    × (normalize_value decimal_i64 decimal (MySqlValue.bytes (decimal 18446744073709551615))
        ≡ normalize_value decimal_i64 decimal (MySqlValue.uint 18446744073709551615))
value_to_compact_key-u64_example =
    value_to_compact_key-u64 decimal_i64 decimal decimal-ItoaLaws 18446744073709551615 (omega arith)

value_to_compact_key-bytes_example : codes "0123" ≡ codes "0123"
value_to_compact_key-bytes_example =
    value_to_compact_key-bytes-injective decimal_i64 decimal (codes "0123") (codes "0123") refl

abbrev values : List MySqlValue
values = MySqlValue.int (pos 5) ∷ MySqlValue.bytes (codes "5") ∷ MySqlValue.null ∷ []

-- The key of `5` as an integer, and as text.
abbrev typed : List MySqlValue
typed = MySqlValue.int (pos 5) ∷ MySqlValue.null ∷ []

abbrev as_text : List MySqlValue
as_text = MySqlValue.bytes (codes "5") ∷ MySqlValue.null ∷ []

typed-IsSized : All IsSized (normalized decimal_i64 decimal typed)
unfolding normalize_value decimal_i64
typed-IsSized = ground arith

as_text-IsSized : All IsSized (normalized decimal_i64 decimal as_text)
unfolding normalize_value read_number parse_i64_canonical parse_i64 from_utf8 decimal_i64 bytes_eq
as_text-IsSized = ground arith

serialize_pk-injective_example :
    normalized decimal_i64 decimal typed ≡ normalized decimal_i64 decimal as_text
unfolding serialize_pk from_utf8 parse_i64 bytes_eq decimal_i64
serialize_pk-injective_example =
    serialize_pk-injective decimal_i64 decimal typed as_text typed-IsSized as_text-IsSized refl
