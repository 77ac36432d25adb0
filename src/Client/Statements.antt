-- ===== src/Client/Statements.antt =====
-- crates/client/src/resolver.rs: what each statement adds to the plan, and the get functions.
--
-- A function gets the values of the variables and the parts of the plan that it reads; what it returns
-- is put into the plan by `process_kind`. On an error the source drops the resolver with its plan.
pub mod Parts
use jibs.Prelude.{
  Bool, true, false, List, [], ◌∷◌, ◌++◌, map, Option, none, some, if◌then◌else◌, Bytes, bytes_eq,
  codes, contains,
}
use jibs.Prelude.Dict
use jibs.Prelude.Dict.{Dict, lookup}
use jibs.Prelude.Int.{ℤ, pos}
use jibs.Prelude.Parse.{parse_i64}
use jibs.Prelude.Replace.{join}
use jibs.Prelude.Result.{Result, ok, err, ◌>>=◌}
use jibs.Prelude
use jibs.Parser.Ast
use jibs.Parser.Ast.{
  Spanned, VarType, Literal, StringLiteral, StringLiterals, VarDecl, FakerValue, FakerSource,
  FakerDecl, RelationDecl, LimitValue, TablePattern, OrderByClause, AggregateBlock, GetFunctionDef,
  PreserveStmt, SetBlock, StatementKind,
}
use jibs.Protocol.Plan
use jibs.Protocol.Plan.{ExecutionPlan, Relation, ResolvedAggregate, SortDirection, Value}
use jibs.Protocol.Plan.Accessors.{as_int, as_string_array}
use jibs.Client.Error.{parse, Failure, client}
use jibs.Client.Eval.{
  Floats, wrong_type, undefined, get_variable, evaluate_expr, eval_literal, resolve_string_literal,
  resolve_string_literals, resolve_string_literal_with_params,
}
use jibs.Client.Statements.Parts.{
  ResolvedParam, LimitOverride, concrete, param, ResolvedGetFunction, collect, optionally,
  value_type_name, strings_of, spread_string_array, direction_of, map_option, order_column,
  order_direction_of, exact_names, regex_patterns, target_of, rule_of, relation_of, has_aggregate,
  unknown_aggregate, add_exact, add_regex, process_exclude, process_ignore, process_full, Output,
}

module _ (floats : Floats) (checked : Bool) where
  -- Whether the literal fits the declared type.
  unfoldable pub literal_to_value : Dict Value → Literal → VarType → Result Failure Value
  unfolding resolve_string_literal resolve_string_literals
  literal_to_value vars (Literal.int i) VarType.int = ok (Plan.int i)
  literal_to_value vars (Literal.int_array arr) VarType.int_array = ok (Plan.int_array arr)
  literal_to_value vars (Literal.float f) VarType.float = ok (Plan.float f)
  literal_to_value vars (Literal.float_array arr) VarType.float_array = ok (Plan.float_array arr)
  literal_to_value vars (Literal.bool b) VarType.bool = ok (Plan.bool b)
  literal_to_value vars (Literal.bool_array arr) VarType.bool_array = ok (Plan.bool_array arr)
  literal_to_value vars (Literal.string s) VarType.string =
      resolve_string_literal floats checked vars s >>= λ resolved. ok (Plan.string resolved)
  literal_to_value vars (Literal.string_array arr) VarType.string_array =
      resolve_string_literals floats checked vars arr >>= λ resolved.
      ok (Plan.string_array resolved)
  literal_to_value vars Literal.null _ = ok Plan.null
  literal_to_value vars (Literal.int i) VarType.float = ok (Plan.float (floats.of_int i))
  literal_to_value vars _ _ = wrong_type (codes "Type mismatch in literal")

  -- `literal_to_value` of an optional default.
  abbrev pub default_value :
      Dict Value → VarType → Option (Spanned Literal) → Result Failure (Option Value)
  default_value vars var_type =
      optionally (λ (entry : Spanned Literal). literal_to_value vars entry.0 var_type)

  abbrev pub where_text :
      Dict Value → Option (Spanned StringLiteral) → Result Failure (Option Bytes)
  where_text vars =
      optionally
        (λ (entry : Spanned StringLiteral). resolve_string_literal floats checked vars entry.0)

  -- The values of an entry of a faker's array.
  unfoldable pub faker_values : Dict Value → Spanned FakerValue → Result Failure (List Bytes)
  unfolding resolve_string_literal spread_string_array
  faker_values vars (FakerValue.literal lit, _) =
      resolve_string_literal floats checked vars lit >>= λ resolved. ok (resolved ∷ [])
  faker_values vars (FakerValue.spread name, _) = spread_string_array vars name

  unfoldable pub faker_list : Dict Value → List (Spanned FakerValue) → Result Failure (List Bytes)
  unfolding faker_values
  faker_list vars [] = ok []
  faker_list vars (v ∷ arr) =
      faker_values vars v >>= λ front. faker_list vars arr >>= λ more. ok (front ++ more)

  -- `process_faker`: the values to insert under the name.
  unfoldable pub process_faker : Dict Value → FakerSource → Result Failure (List Bytes)
  unfolding faker_list get_variable value_type_name as_string_array
  process_faker vars (FakerSource.array arr) = faker_list vars arr
  process_faker vars (FakerSource.variable name) = get_variable vars name >>= λ value.
      strings_of (codes "Variable '") (codes "' must be string[] for faker, got ") name value
        (as_string_array value)

  -- The limit of an aggregate: none where the variable is no integer.
  unfoldable pub aggregate_limit :
      Dict Value → Option (Spanned LimitValue) → Result Failure (Option ℤ)
  unfolding get_variable as_int
  aggregate_limit vars none = ok none
  aggregate_limit vars (some (LimitValue.literal n, _)) = ok (some n)
  aggregate_limit vars (some (LimitValue.variable name, _)) =
      get_variable vars name >>= λ value. ok (as_int value)

  -- `process_aggregate`: the aggregate to push.
  unfoldable pub process_aggregate : Dict Value → AggregateBlock → Result Failure ResolvedAggregate
  unfolding aggregate_limit resolve_string_literal
  process_aggregate vars block = where_text vars block.where_clause >>= λ clause.
      aggregate_limit vars block.limit >>= λ limit. ok (record {
        name = block.name.0;
        root_table = block.root.0;
        where_clause = clause;
        order_by = order_column block.order_by;
        order_direction = order_direction_of block.order_by;
        limit = limit;
        exclude_tables = exact_names block.exclude_tables;
        exclude_patterns = regex_patterns block.exclude_tables;
        root_only = block.root_only;
      })

  unfoldable pub resolve_param : Dict Value → Spanned VarDecl → Result Failure ResolvedParam
  unfolding literal_to_value
  resolve_param vars (decl, _) = default_value vars decl.var_type.0 decl.default >>= λ default.
      ok (record { name = decl.name.0; param_type = decl.var_type.0; default = default })

  -- A limit that must be an integer.
  abbrev pub integer_limit : Bytes → Option ℤ → Result Failure LimitOverride
  integer_limit name none =
      wrong_type (codes "Variable '" ++ (name ++ codes "' must be an integer for limit"))
  integer_limit name (some n) = ok (concrete n)

  unfoldable pub function_limit :
      Dict Value → List Bytes → Option (Spanned LimitValue) → Result Failure (Option LimitOverride)
  unfolding get_variable as_int contains
  function_limit vars params none = ok none
  function_limit vars params (some (LimitValue.literal n, _)) = ok (some (concrete n))
  function_limit vars params (some (LimitValue.variable name, _)) =
      if contains params name
      then ok (some (param name))
      else (get_variable vars name >>= λ value.
          integer_limit name (as_int value) >>= λ limit. ok (some limit))

  -- The template of a get function, given the names of its parameters.
  abbrev pub template :
      Dict Value → List Bytes → Option (Spanned StringLiteral) → Result Failure (Option Bytes)
  template vars params = optionally (λ (entry : Spanned StringLiteral).
      resolve_string_literal_with_params floats checked vars params entry.0)

  -- `process_get_function`: the function to push.
  unfoldable pub process_get_function :
      Dict Value → List ResolvedAggregate → GetFunctionDef → Result Failure ResolvedGetFunction
  unfolding has_aggregate unknown_aggregate collect resolve_param function_limit
      resolve_string_literal_with_params
  process_get_function vars aggregates func =
      let params = map (λ (entry : Spanned VarDecl). entry.0.name.0) func.params in
      if has_aggregate aggregates func.aggregate.0
      then (collect (resolve_param vars) func.params >>= λ resolved.
          template vars params func.where_clause >>= λ where_template.
          function_limit vars params func.limit >>= λ limit. ok (record {
            name = func.name.0;
            params = resolved;
            aggregate_name = func.aggregate.0;
            where_template = where_template;
            order_by = order_column func.order_by;
            order_direction = order_direction_of func.order_by;
            limit = limit;
            exclude_tables = exact_names func.exclude_tables;
            exclude_patterns = regex_patterns func.exclude_tables;
            root_only = if func.root_only then some true else none;
          }))
      else err (unknown_aggregate aggregates func.name.0 func.aggregate.0)

  -- The value of an assignment.
  unfoldable pub assigned_value : Dict Value → Ast.Value → Result Failure Value
  unfolding eval_literal evaluate_expr get_variable
  assigned_value vars (Ast.Value.literal lit) = eval_literal floats checked vars lit
  assigned_value vars (Ast.Value.variable name) = get_variable vars name
  assigned_value vars (Ast.Value.expr e) = evaluate_expr floats checked vars e

  unfoldable pub resolve_assignment :
      Dict Value → Spanned Ast.Assignment → Result Failure Plan.Assignment
  unfolding assigned_value
  resolve_assignment vars (assign, _) = assigned_value vars assign.value.0 >>= λ value.
      ok (record { column = assign.column.0; value = value })

  -- `process_set`: the rule to push.
  unfoldable pub process_set : Dict Value → SetBlock → Result Failure Plan.SetRule
  unfolding resolve_assignment collect
  process_set vars block = collect (resolve_assignment vars) block.match_clause >>= λ matches.
      collect (resolve_assignment vars) block.assignments >>= λ assignments.
      ok (record { table = block.table.0; match_clause = matches; assignments = assignments })

  -- `process_preserve`: the rule to push.
  unfoldable pub process_preserve : Dict Value → PreserveStmt → Result Failure Plan.PreserveRule
  unfolding resolve_string_literal
  process_preserve vars stmt =
      resolve_string_literal floats checked vars stmt.where_clause.0 >>= λ clause.
      ok (record { table = stmt.table.0; where_clause = clause })

  -- The match of `process_statement`.
  unfoldable pub process_kind :
      Dict Value → ExecutionPlan → List ResolvedGetFunction → StatementKind → Result Failure Output
  unfolding process_exclude process_ignore process_full process_faker process_aggregate
      process_get_function process_set process_preserve relation_of
  process_kind vars plan gets (Ast.imported _) = ok (plan, gets)
  process_kind vars plan gets (Ast.var _) = ok (plan, gets)
  process_kind vars plan gets (Ast.StatementKind.faker decl) =
      process_faker vars decl.source >>= λ values.
      ok (record plan { fakers = Dict.insert decl.name.0 values plan.fakers }, gets)
  process_kind vars plan gets (Ast.relation decl) =
      ok (record plan { relations = plan.relations ++ relation_of decl ∷ [] }, gets)
  process_kind vars plan gets (Ast.ignore_relation decl) =
      ok (record plan { ignored_relations = plan.ignored_relations ++ relation_of decl ∷ [] }, gets)
  process_kind vars plan gets (Ast.anonymize block) = ok (
    record plan {
      anonymization = Dict.insert block.table.0 (map rule_of block.rules) plan.anonymization;
    },
    gets,
  )
  process_kind vars plan gets (Ast.exclude p) = ok (process_exclude plan p, gets)
  process_kind vars plan gets (Ast.ignore p) = ok (process_ignore plan p, gets)
  process_kind vars plan gets (Ast.full patterns) = ok (process_full plan patterns, gets)
  process_kind vars plan gets (Ast.aggregate block) = process_aggregate vars block >>= λ a.
      ok (record plan { aggregates = plan.aggregates ++ a ∷ [] }, gets)
  process_kind vars plan gets (Ast.get func) =
      process_get_function vars plan.aggregates func >>= λ f. ok (plan, gets ++ f ∷ [])
  process_kind vars plan gets (Ast.preserve stmt) = process_preserve vars stmt >>= λ rule.
      ok (record plan { preserves = plan.preserves ++ rule ∷ [] }, gets)
  process_kind vars plan gets (Ast.set block) =
      process_set vars block >>= λ rule. ok (record plan { sets = plan.sets ++ rule ∷ [] }, gets)
  process_kind vars plan gets (Ast.after block) = ok (
    record plan {
      after_statements = plan.after_statements ++ map (λ (s : Spanned Bytes). s.0) block.statements;
    },
    gets,
  )
