-- ===== src/Client/Sql.antt =====
-- crates/client/src/sql.rs: the SQL text of values, indexes and tables.
--
-- Of `create_table` the text of the statement is modelled; sending it is the connection's. `format_f64` is
-- the standard library's `to_string` of an f64.
pub mod Literal
use jibs.Prelude.{
  ℕ, Bool, true, false, not, ◌&&◌, ◌||◌, List, [], ◌∷◌, ◌++◌, Option, none, some, map,
  if◌then◌else◌, Bytes, bytes_eq, codes,
}
use jibs.Prelude.Decimal.{decimal, decimal_i64}
use jibs.Prelude.Replace.{replace, join}
use jibs.Protocol.Plan
use jibs.Protocol.Plan.{
  Value, IndexDef, IndexColumn, IndexKind, fulltext, spatial, hash, ColumnDef, TableOptions,
  AnonymizeRule, AnonymizeTarget,
}

-- A quoted string: each single quote is doubled.
unfoldable pub quoted : Bytes → Bytes
unfolding replace
quoted s = b'\'' ∷ (replace (codes "'") (codes "''") s ++ codes "'")

abbrev pub bool_text : Bool → Bytes
bool_text true = codes "1"
bool_text false = codes "0"

module _ (format_f64 : ℕ → Bytes) where
  unfoldable pub value_to_sql : Value → Bytes
  unfolding quoted join
  value_to_sql (Plan.string s) = quoted s
  value_to_sql (Plan.string_array arr) = join (codes ", ") (map quoted arr)
  value_to_sql (Plan.int i) = decimal_i64 i
  value_to_sql (Plan.int_array arr) = join (codes ", ") (map decimal_i64 arr)
  value_to_sql (Plan.float f) = format_f64 f
  value_to_sql (Plan.float_array arr) = join (codes ", ") (map format_f64 arr)
  value_to_sql (Plan.bool b) = bool_text b
  value_to_sql (Plan.bool_array arr) = join (codes ", ") (map bool_text arr)
  value_to_sql Plan.null = codes "NULL"

-- A name between backticks.
abbrev pub in_backticks : Bytes → Bytes
in_backticks name = codes "`" ++ (name ++ codes "`")

abbrev pub prefix_text : Option ℕ → Bytes
prefix_text none = []
prefix_text (some len) = codes "(" ++ (decimal len ++ codes ")")

-- One part of an index.
pub column_part : Option Bytes → IndexColumn → Bytes
column_part (some expr) c = codes "(" ++ (expr ++ codes ")")
column_part none c =
    in_backticks c.name
    ++ (prefix_text c.prefix_len ++ (if c.descending then codes " DESC" else []))

abbrev pub keyword : Bool → IndexKind → Bytes
keyword true kind = codes "UNIQUE KEY"
keyword false fulltext = codes "FULLTEXT KEY"
keyword false spatial = codes "SPATIAL KEY"
keyword false _ = codes "KEY"

abbrev pub using_text : IndexKind → Bytes
using_text hash = codes " USING HASH"
using_text _ = []

pub index_ddl : IndexDef → Bytes
unfolding column_part
index_ddl idx =
    keyword idx.unique idx.kind
    ++ (codes " "
        ++ (in_backticks idx.name
            ++ (codes " ("
                ++ (join (codes ", ") (map (λ c. column_part c.expression c) idx.columns)
                    ++ (codes ")" ++ using_text idx.kind)))))

-- The collation of a column, where it is not the table's.
pub collation_text : Option Bytes → Option Bytes → Bytes
collation_text none table = []
collation_text (some c) none = codes " COLLATE " ++ c
collation_text (some c) (some t) = if bytes_eq t c then [] else codes " COLLATE " ++ c

abbrev pub is_to_null : AnonymizeTarget → Bool
is_to_null Plan.to_null = true
is_to_null _ = false

-- `rules.iter().any(..)`; no rules, no column is anonymized.
unfoldable pub anonymized_to_null : List AnonymizeRule → Bytes → Bool
anonymized_to_null [] name = false
anonymized_to_null (r ∷ rules) name =
    (bytes_eq r.column name && is_to_null r.target) || anonymized_to_null rules name

pub column_ddl : List AnonymizeRule → TableOptions → ColumnDef → Bytes
unfolding collation_text anonymized_to_null
column_ddl rules options col =
    in_backticks col.name
    ++ (codes " "
        ++ (col.full_type
            ++ (collation_text col.collation options.collation
                ++ ((if not col.nullable && not (anonymized_to_null rules col.name)
                      then codes " NOT NULL"
                      else [])
                    ++ (if col.flags.auto_increment then codes " AUTO_INCREMENT" else [])))))

-- The names of the primary key.
pub pk_cols : List ColumnDef → List Bytes
pk_cols [] = []
pk_cols (c ∷ cs) = let rest = pk_cols cs in if c.is_primary_key then c.name ∷ rest else rest

abbrev pub primary_key_ddl : List Bytes → List Bytes
primary_key_ddl [] = []
primary_key_ddl (c ∷ cs) =
    (codes "PRIMARY KEY (" ++ (join (codes ", ") (map in_backticks (c ∷ cs)) ++ codes ")")) ∷ []

abbrev pub option_text : Bytes → Option Bytes → Bytes
option_text name none = []
option_text name (some value) = name ++ value

-- `create_sql` of `create_table`; `anon_rules` that are absent are the empty list.
pub create_sql : Bytes → List ColumnDef → List IndexDef → TableOptions → List AnonymizeRule → Bytes
unfolding column_ddl index_ddl
create_sql table columns indexes options anon_rules =
    let column_defs =
      map (column_ddl anon_rules options) columns
      ++ (primary_key_ddl (pk_cols columns) ++ map index_ddl indexes) in
    codes "CREATE TABLE "
    ++ (in_backticks table
        ++ (codes " (\n  "
            ++ (join (codes ",\n  ") column_defs
                ++ (codes "\n)"
                    ++ (option_text (codes " ENGINE=") options.engine
                        ++ (option_text (codes " DEFAULT CHARSET=") options.charset
                            ++ (option_text (codes " COLLATE=") options.collation
                                ++ option_text (codes " ROW_FORMAT=") options.row_format)))))))
