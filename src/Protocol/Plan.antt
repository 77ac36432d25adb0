-- ===== src/Protocol/Plan.antt =====
-- crates/protocol/src/plan.rs: the execution plan, and the schema of a table.
--
-- A `String` is its bytes, an f64 its bit pattern. A `HashMap` is an association list and a
-- `HashSet` the list of its members.
pub mod Accessors
use jibs.Prelude.{ℕ, List, Option, Bool, false, ◌||◌, [], Bytes, bytes_eq, codes}
use jibs.Prelude.Int.{ℤ}

pub data CompressionMode : Type 0 where
  uncompressed zstd auto : CompressionMode

pub data Value : Type 0 where
  string : Bytes → Value
  string_array : List Bytes → Value
  int : ℤ → Value
  int_array : List ℤ → Value
  float : ℕ → Value
  float_array : List ℕ → Value
  bool : Bool → Value
  bool_array : List Bool → Value
  null : Value

pub record Relation : Type 0 where
  pub from_table : Bytes
  pub from_column : Bytes
  pub to_table : Bytes
  pub to_column : Bytes

pub data SortDirection : Type 0 where
  asc desc : SortDirection

pub record ResolvedAggregate : Type 0 where
  pub name : Bytes
  pub root_table : Bytes
  pub where_clause : Option Bytes
  pub order_by : Option Bytes
  pub order_direction : Option SortDirection
  pub limit : Option ℤ
  pub exclude_tables : List Bytes
  pub exclude_patterns : List Bytes
  pub root_only : Bool

pub record PreserveRule : Type 0 where
  pub table : Bytes
  pub where_clause : Bytes

pub data AnonymizeTarget : Type 0 where
  faker : Bytes → AnonymizeTarget
  to_null : AnonymizeTarget

pub record AnonymizeRule : Type 0 where
  pub column : Bytes
  pub target : AnonymizeTarget

pub record Assignment : Type 0 where
  pub column : Bytes
  pub value : Value

pub record SetRule : Type 0 where
  pub table : Bytes
  pub match_clause : List Assignment
  pub assignments : List Assignment

pub record ExecutionPlan : Type 0 where
  pub variables : List (Bytes × Value)
  pub relations : List Relation
  pub aggregates : List ResolvedAggregate
  pub excluded_tables : List Bytes
  pub excluded_patterns : List Bytes
  pub ignored_tables : List Bytes
  pub ignored_patterns : List Bytes
  pub ignored_relations : List Relation
  pub anonymization : List (Bytes × List AnonymizeRule)
  pub fakers : List (Bytes × List Bytes)
  pub preserves : List PreserveRule
  pub sets : List SetRule
  pub full_tables : List Bytes
  pub full_patterns : List Bytes
  pub after_statements : List Bytes
  pub aggregates_only : Bool

-- `ExecutionPlan::new`
abbrev pub empty_plan : ExecutionPlan
empty_plan = record {
  variables = [];
  relations = [];
  aggregates = [];
  excluded_tables = [];
  excluded_patterns = [];
  ignored_tables = [];
  ignored_patterns = [];
  ignored_relations = [];
  anonymization = [];
  fakers = [];
  preserves = [];
  sets = [];
  full_tables = [];
  full_patterns = [];
  after_statements = [];
  aggregates_only = false;
}

pub record TableInfo : Type 0 where
  pub name : Bytes
  pub table_id : ℕ
  pub estimated_rows : ℕ
  pub primary_key : List Bytes

pub record ColumnFlags : Type 0 where
  pub unsigned : Bool
  pub zerofill : Bool
  pub binary : Bool
  pub auto_increment : Bool

pub record ColumnDef : Type 0 where
  pub name : Bytes
  pub type_name : Bytes
  pub full_type : Bytes
  pub max_length : Option ℕ
  pub nullable : Bool
  pub is_primary_key : Bool
  pub charset : Option Bytes
  pub collation : Option Bytes
  pub flags : ColumnFlags

-- `ColumnDef::is_binary_type`
unfoldable pub is_binary_type : ColumnDef → Bool
is_binary_type c =
    bytes_eq c.type_name (codes "BINARY")
    || bytes_eq c.type_name (codes "VARBINARY")
    || bytes_eq c.type_name (codes "TINYBLOB")
    || bytes_eq c.type_name (codes "BLOB")
    || bytes_eq c.type_name (codes "MEDIUMBLOB")
    || bytes_eq c.type_name (codes "LONGBLOB")
    || bytes_eq c.type_name (codes "BIT")

pub record ForeignKeyDef : Type 0 where
  pub table : Bytes
  pub constraint : Bytes
  pub columns : List Bytes
  pub ref_table : Bytes
  pub ref_columns : List Bytes
  pub update_rule : Bytes
  pub delete_rule : Bytes

pub data IndexKind : Type 0 where
  btree fulltext spatial hash : IndexKind

pub record IndexColumn : Type 0 where
  pub name : Bytes
  pub prefix_len : Option ℕ
  pub descending : Bool
  pub expression : Option Bytes

pub record IndexDef : Type 0 where
  pub name : Bytes
  pub columns : List IndexColumn
  pub unique : Bool
  pub kind : IndexKind

pub record TableOptions : Type 0 where
  pub engine : Option Bytes
  pub charset : Option Bytes
  pub collation : Option Bytes
  pub row_format : Option Bytes
