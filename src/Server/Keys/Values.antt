-- ===== src/Server/Keys/Values.antt =====
-- The values and rows of the mysql crate, as the traversal takes them apart.
use jibs.Prelude.{ℕ, Bool, List, [], ◌∷◌, if◌then◌else◌, Bytes, bytes_eq}
use jibs.Prelude.Int.{ℤ}

-- `mysql::Value`
pub data MySqlValue : Type 0 where
  null : MySqlValue
  bytes : Bytes → MySqlValue
  int : ℤ → MySqlValue
  uint : ℕ → MySqlValue
  float : ℕ → MySqlValue
  double : ℕ → MySqlValue
  date : ℕ → ℕ → ℕ → ℕ → ℕ → ℕ → ℕ → MySqlValue
  time : Bool → ℕ → ℕ → ℕ → ℕ → ℕ → MySqlValue

-- `mysql::Row`: the columns in order, with their names.
abbrev pub Row : Type 0
Row = List (Bytes × MySqlValue)

-- `row.get_opt(name)`, with NULL where there is no such column.
unfoldable pub row_get : Row → Bytes → MySqlValue
row_get [] name = null
row_get ((c, v) ∷ row) name = if bytes_eq c name then v else row_get row name

-- `row.as_ref(i)` for each column in order.
unfoldable pub row_values : Row → List MySqlValue
row_values [] = []
row_values ((c, v) ∷ row) = v ∷ row_values row
