-- ===== src/Protocol/Plan/Accessors.antt =====
-- crates/protocol/src/plan.rs: `Value::as_string` and the typed getters. `format_f64` is the standard
-- library's `to_string` of an f64.
use jibs.Prelude.{ℕ, Bool, true, false, List, ◌++◌, map, Option, none, some, Bytes, codes}
use jibs.Prelude.Int.{ℤ}
use jibs.Prelude.Decimal.{decimal_i64}
use jibs.Prelude.Replace.{join}
use jibs.Protocol.Plan.{
  Value, string, string_array, int, int_array, float, float_array, bool, bool_array, null,
}

abbrev pub bool_to_string : Bool → Bytes
bool_to_string true = codes "true"
bool_to_string false = codes "false"

-- `format!("[{}]", arr.join(", "))`
abbrev pub bracketed : List Bytes → Bytes
bracketed items = codes "[" ++ (join (codes ", ") items ++ codes "]")

abbrev pub format_array {ℓ} : {A : Type ℓ} → (A → Bytes) → List A → Bytes
format_array to_string arr = bracketed (map to_string arr)

unfoldable pub as_string : (ℕ → Bytes) → Value → Bytes
unfolding join decimal_i64
as_string format_f64 (string s) = s
as_string format_f64 (int i) = decimal_i64 i
as_string format_f64 (float f) = format_f64 f
as_string format_f64 (bool b) = bool_to_string b
as_string format_f64 null = codes "NULL"
as_string format_f64 (string_array arr) = bracketed arr
as_string format_f64 (int_array arr) = format_array decimal_i64 arr
as_string format_f64 (float_array arr) = format_array format_f64 arr
as_string format_f64 (bool_array arr) = format_array bool_to_string arr

unfoldable pub as_int : Value → Option ℤ
as_int (int i) = some i
as_int _ = none

unfoldable pub as_string_array : Value → Option (List Bytes)
as_string_array (string_array arr) = some arr
as_string_array _ = none

unfoldable pub as_bool : Value → Option Bool
as_bool (bool b) = some b
as_bool _ = none

unfoldable pub as_int_array : Value → Option (List ℤ)
as_int_array (int_array arr) = some arr
as_int_array _ = none

unfoldable pub as_float_array : Value → Option (List ℕ)
as_float_array (float_array arr) = some arr
as_float_array _ = none

unfoldable pub as_bool_array : Value → Option (List Bool)
as_bool_array (bool_array arr) = some arr
as_bool_array _ = none
