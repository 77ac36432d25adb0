-- ===== src/Client/Statements/Parts.antt =====
-- crates/client/src/resolver.rs: the parts of statements that need no evaluation, and the records of
-- get functions.
use jibs.Prelude.{
  Bool, true, false, List, [], ◌∷◌, ◌++◌, map, Option, none, some, if◌then◌else◌, Bytes, bytes_eq,
  codes, contains,
}
use jibs.Prelude.Dict.{Dict}
use jibs.Prelude.Int.{ℤ}
use jibs.Prelude.Replace.{join}
use jibs.Prelude.Result.{Result, ok, ◌>>=◌}
use jibs.Prelude
use jibs.Parser.Ast
use jibs.Parser.Ast.{
  Spanned, VarType, Literal, StringLiteral, StringLiterals, VarDecl, FakerValue, FakerSource,
  FakerDecl, RelationDecl, LimitValue, TablePattern, OrderByClause, AggregateBlock, GetFunctionDef,
  PreserveStmt, SetBlock, StatementKind,
}
use jibs.Protocol.Plan
use jibs.Protocol.Plan.{ExecutionPlan, Relation, ResolvedAggregate, SortDirection, Value}
use jibs.Protocol.Plan.Accessors.{as_string_array}
use jibs.Client.Error.{parse, Failure, client}
use jibs.Client.Eval.{wrong_type, get_variable}

pub record ResolvedParam : Type 0 where
  pub name : Bytes
  pub param_type : VarType
  pub default : Option Value

pub data LimitOverride : Type 0 where
  concrete : ℤ → LimitOverride
  param : Bytes → LimitOverride

pub record ResolvedGetFunction : Type 0 where
  pub name : Bytes
  pub params : List ResolvedParam
  pub aggregate_name : Bytes
  pub where_template : Option Bytes
  pub order_by : Option Bytes
  pub order_direction : Option SortDirection
  pub limit : Option LimitOverride
  pub exclude_tables : List Bytes
  pub exclude_patterns : List Bytes
  pub root_only : Option Bool

-- `map` with a function that may fail, the first error ending it.
unfoldable pub collect {ℓ κ} :
    {A : Type ℓ} {B : Type κ} → (A → Result Failure B) → List A → Result Failure (List B)
collect f [] = ok []
collect f (x ∷ xs) = f x >>= λ y. collect f xs >>= λ ys. ok (y ∷ ys)

-- The same for an optional part.
abbrev pub optionally {ℓ κ} :
    {A : Type ℓ} {B : Type κ} → (A → Result Failure B) → Option A → Result Failure (Option B)
optionally f none = ok none
optionally f (some a) = f a >>= λ b. ok (some b)

unfoldable pub value_type_name : Value → Bytes
value_type_name (Plan.string _) = codes "string"
value_type_name (Plan.string_array _) = codes "string[]"
value_type_name (Plan.int _) = codes "int"
value_type_name (Plan.int_array _) = codes "int[]"
value_type_name (Plan.float _) = codes "float"
value_type_name (Plan.float_array _) = codes "float[]"
value_type_name (Plan.bool _) = codes "bool"
value_type_name (Plan.bool_array _) = codes "bool[]"
value_type_name Plan.null = codes "null"

-- The strings of a variable, or the error with `before` and `between` around its name.
abbrev pub strings_of :
    Bytes → Bytes → Bytes → Value → Option (List Bytes) → Result Failure (List Bytes)
strings_of before between name value (some arr) = ok arr
strings_of before between name value none =
    wrong_type (before ++ (name ++ (between ++ value_type_name value)))

-- `spread_string_array_into`: the values to append.
unfoldable pub spread_string_array : Dict Value → Bytes → Result Failure (List Bytes)
unfolding get_variable value_type_name as_string_array
spread_string_array vars name = get_variable vars name >>= λ value.
    strings_of (codes "Cannot spread variable '") (codes "': expected string[], got ") name value
      (as_string_array value)

-- The direction of an ordering, if it has one.
abbrev pub direction_of : Ast.SortDirection → SortDirection
direction_of Ast.asc = Plan.asc
direction_of Ast.desc = Plan.desc

abbrev pub map_option {ℓ κ} : {A : Type ℓ} {B : Type κ} → (A → B) → Option A → Option B
map_option f none = none
map_option f (some a) = some (f a)

abbrev pub order_column : Option OrderByClause → Option Bytes
order_column none = none
order_column (some o) = some o.column.0

abbrev pub order_direction_of : Option OrderByClause → Option SortDirection
order_direction_of none = none
order_direction_of (some o) = map_option direction_of o.direction

-- The exact names, and the patterns, of a list of tables.
abbrev pub exact_names : List TablePattern → List Bytes
exact_names [] = []
exact_names (Ast.exact (name, _) ∷ rest) = name ∷ exact_names rest
exact_names (Ast.regex _ ∷ rest) = exact_names rest

abbrev pub regex_patterns : List TablePattern → List Bytes
regex_patterns [] = []
regex_patterns (Ast.exact _ ∷ rest) = regex_patterns rest
regex_patterns (Ast.regex (pat, _) ∷ rest) = pat ∷ regex_patterns rest

-- The rules of an anonymize block.
abbrev pub target_of : Ast.AnonymizeTarget → Plan.AnonymizeTarget
target_of (Ast.faker (name, _)) = Plan.faker name
target_of Ast.to_null = Plan.to_null

abbrev pub rule_of : Spanned Ast.AnonymizeRule → Plan.AnonymizeRule
rule_of (rule, _) = record { column = rule.column.0; target = target_of rule.target }

-- `process_relation` and `process_ignore_relation`: the relation to push.
unfoldable pub relation_of : RelationDecl → Relation
relation_of decl = record {
  from_table = decl.source.0.table;
  from_column = decl.source.0.column;
  to_table = decl.target.0.table;
  to_column = decl.target.0.column;
}

-- `plan.aggregates.iter().any(|a| a.name == name)`
unfoldable pub has_aggregate : List ResolvedAggregate → Bytes → Bool
has_aggregate aggregates name = contains (map (λ a. a.name) aggregates) name

unfoldable pub unknown_aggregate : List ResolvedAggregate → Bytes → Bytes → Failure
unknown_aggregate aggregates name aggregate = client (
    parse (
      codes "Get function '"
      ++ (name
          ++ (codes "' references unknown aggregate '"
              ++ (aggregate
                  ++ (codes "'. Available aggregates: "
                      ++ join (codes ", ") (map (λ a. a.name) aggregates)))))))

-- `values.exclude_tables.insert` and the like for a pattern.
abbrev pub add_exact : TablePattern → List Bytes → List Bytes
add_exact (Ast.exact (table, _)) tables = Prelude.insert table tables
add_exact (Ast.regex _) tables = tables

abbrev pub add_regex : TablePattern → List Bytes → List Bytes
add_regex (Ast.exact _) patterns = patterns
add_regex (Ast.regex (pattern, _)) patterns = patterns ++ pattern ∷ []

unfoldable pub process_exclude : ExecutionPlan → TablePattern → ExecutionPlan
process_exclude plan p = record plan {
  excluded_tables = add_exact p plan.excluded_tables;
  excluded_patterns = add_regex p plan.excluded_patterns;
}

unfoldable pub process_ignore : ExecutionPlan → TablePattern → ExecutionPlan
process_ignore plan p = record plan {
  ignored_tables = add_exact p plan.ignored_tables;
  ignored_patterns = add_regex p plan.ignored_patterns;
}

unfoldable pub process_full : ExecutionPlan → List TablePattern → ExecutionPlan
process_full plan [] = plan
process_full plan (p ∷ patterns) =
    process_full
      (record plan {
        full_tables = add_exact p plan.full_tables;
        full_patterns = add_regex p plan.full_patterns;
      })
      patterns

-- The outcome of a statement: the plan and the get functions behind it.
abbrev pub Output : Type 0
Output = ExecutionPlan × List ResolvedGetFunction
