-- ===== src/Tests/Resolving.antt =====
-- Configs that are resolved.
use jibs.Prelude.{
  ℕ, Bool, true, false, not, List, [], ◌∷◌, Option, none, some, ◌≡◌, ◌≢◌, ◌↔◌, refl, arith, Bytes,
  bytes_eq, codes, contains, In, inl, inr, Bool-cases, bytes_eq_iff,
}
use jibs.Prelude.Dict.{Dict, lookup}
use jibs.Prelude.Int.{pos}
use jibs.Prelude.Result.{Result, ok, err}
use jibs.Parser.Ast
use jibs.Parser.Ast.{
  BinaryOp, Span, Spanned, Expr, Statement, StatementKind, Program, StringLiteral, VarType,
}
use jibs.Parser.Lexer.{new_span}
use jibs.Protocol.Plan
use jibs.Protocol.Plan.{Value, ExecutionPlan, ResolvedAggregate, AnonymizeRule}
use jibs.Client.Error.{client, failed, out_of_fuel}
use jibs.Client.Eval.{Floats, evaluate_expr}
use jibs.Client.Eval.Types.{HasType, IsEquality, Typed, TypedLiteral, TypedParts, Agrees}
use jibs.Client.Eval.Typed.{Sound, evaluate_expr-Typed}
use jibs.Client.Statements.Parts.{ResolvedGetFunction}
use jibs.Client.Resolver.{resolve, finalize_variables}
use jibs.Client.Resolver.Gated.{gate_error, gated_import, resolve-gated_import}
use jibs.Client.Resolver.Imports.{resolve_ends}
use jibs.Client.Resolver.Lenient.{resolve-lenient_iff}
use jibs.Client.Resolver.State.{Host, Resolver, ResolvedConfig, new_resolver}
use jibs.Client.Resolver.Valid.{IsValid, resolve-IsValid, resolve-compute_potential}
use jibs.Server.Walk.{compute_potential_aggregate_tables}
use jibs.Server.Walk.Potential.{MayTouch}
use jibs.Client.Resolver.Variables.{settled, planned, finalize_variables-settled}

abbrev here : Span
here = new_span 0 1

-- Floats that are counts.
abbrev some_floats : Floats
some_floats = record {
  of_int = λ _. 0;
  parse_f64 = λ _. none;
  format_f64 = λ _. [];
  f64_eq = λ _ _. true;
  f64_lt = λ _ _. false;
  f64_le = λ _ _. true;
  f64_add = λ a _. a;
  f64_sub = λ a _. a;
  f64_mul = λ a _. a;
  f64_div = λ a _. a;
  f64_rem = λ a _. a;
  f64_neg = λ a. a;
}

-- A host with one file, which cannot be read, and one pattern that does not compile.
abbrev pattern_error : Bool → Option Bytes
pattern_error true = some (codes "unclosed")
pattern_error false = none

abbrev found : Bool → Bytes → Result Bytes Bytes
found true path = ok path
found false path = err (codes "no such file")

abbrev some_host : Host
some_host = record {
  import_file = λ _ path. path;
  canonicalize = λ path. found (bytes_eq path (codes "a.jibs")) path;
  read_to_string = λ _. err (codes "denied");
  render_errors = λ _ _ _. [];
  regex_error = λ p. pattern_error (bytes_eq p (codes "["));
  pending_order = λ m. m;
  rules_order = λ m. m;
}

abbrev limit_var : Ast.VarDecl
limit_var = record {
  name = (codes "limit", here);
  var_type = (VarType.int, here);
  default = some (Ast.Literal.int (pos 5), here);
}

abbrev plain : StatementKind → Spanned Statement
plain kind = (record { attribute = none; kind = kind }, here)

abbrev orders : Ast.AggregateBlock
orders = record {
  name = (codes "orders", here);
  root = (codes "sales_order", here);
  where_clause = none;
  order_by = none;
  limit = some (Ast.LimitValue.variable (codes "limit"), here);
  exclude_tables = Ast.regex (codes "^log", here) ∷ [];
  root_only = false;
}

abbrev by_id : Ast.GetFunctionDef
by_id = record {
  name = (codes "by_id", here);
  params = [];
  aggregate = (codes "orders", here);
  where_clause = none;
  order_by = none;
  limit = none;
  exclude_tables = [];
  root_only = true;
}

abbrev names : Ast.FakerDecl
names = record {
  name = (codes "names", here);
  source = Ast.array (
      (Ast.FakerValue.literal (StringLiteral.text (codes "Ann") StringLiteral.no_part), here) ∷ []);
}

abbrev users : Ast.AnonymizeBlock
users = record {
  table = (codes "users", here);
  rules =
      (record { column = (codes "name", here); target = Ast.faker (codes "names", here) }, here)
      ∷ [];
}

abbrev config_text : Program
config_text = record {
  statements =
      plain (Ast.var limit_var)
      ∷ plain (Ast.aggregate orders)
      ∷ plain (Ast.get by_id)
      ∷ plain (Ast.StatementKind.faker names)
      ∷ plain (Ast.anonymize users)
      ∷ [];
}

abbrev no_vars : Dict Bytes
no_vars = []

abbrev resolved_orders : ResolvedAggregate
resolved_orders = record {
  name = codes "orders";
  root_table = codes "sales_order";
  where_clause = none;
  order_by = none;
  order_direction = none;
  limit = some (pos 5);
  exclude_tables = [];
  exclude_patterns = codes "^log" ∷ [];
  root_only = false;
}

abbrev resolved_by_id : ResolvedGetFunction
resolved_by_id = record {
  name = codes "by_id";
  params = [];
  aggregate_name = codes "orders";
  where_template = none;
  order_by = none;
  order_direction = none;
  limit = none;
  exclude_tables = [];
  exclude_patterns = [];
  root_only = some true;
}

abbrev resolved_config : ResolvedConfig
resolved_config = record {
  plan = record Plan.empty_plan {
    variables = (codes "limit", Plan.int (pos 5)) ∷ [];
    aggregates = resolved_orders ∷ [];
    fakers = (codes "names", codes "Ann" ∷ []) ∷ [];
    anonymization =
        (codes "users", record { column = codes "name"; target = Plan.faker (codes "names") } ∷ [])
        ∷ [];
  };
  get_functions = resolved_by_id ∷ [];
  missing_vars = [];
}

resolved :
    (lenient : Bool)
    → resolve some_floats false some_host lenient 2 (codes "a.jibs") config_text no_vars
      ≡ ok resolved_config
unfolding resolve jibs.Prelude.Dict.insert bytes_eq
resolved true = refl
resolved false = refl

-- `"{$limit}" == "5"`
abbrev text_of_limit : Expr
text_of_limit =
    Expr.binary
      (Expr.literal (
        Ast.Literal.string
          (StringLiteral.interpolation (Expr.variable (codes "limit")) here StringLiteral.no_part)))
      here BinaryOp.eq (Expr.literal (Ast.Literal.string StringLiteral.no_part)) here

abbrev types : Dict VarType
types = (codes "limit", VarType.int) ∷ []

abbrev values : Dict Value
values = (codes "limit", Plan.int (pos 5)) ∷ []

limit_type : lookup (codes "limit") types ≡ some VarType.int
unfolding lookup bytes_eq
limit_type = refl

values-Agrees : Agrees values types
unfolding lookup bytes_eq
values-Agrees name τ h = elim (Bool-cases (bytes_eq (codes "limit") name)) [
  | inl same ↦
      let int_type : VarType.int ≡ τ = cc (rw same at h) in
      (Plan.int (pos 5), rw same refl, rw (← int_type) HasType.int)
  | inr other ↦ cc (rw other at h)
]

text_of_limit-Typed : Typed types text_of_limit VarType.bool
text_of_limit-Typed =
    Typed.equality IsEquality.eq
      (Typed.literal (
        TypedLiteral.string (
          TypedParts.interpolation {τ = VarType.int} (Typed.variable limit_type)
            TypedParts.no_part)))
      (Typed.literal (TypedLiteral.string TypedParts.no_part))

evaluate_expr-Typed_example :
    Sound (λ v. HasType v VarType.bool) (evaluate_expr some_floats true values text_of_limit)
evaluate_expr-Typed_example =
    evaluate_expr-Typed some_floats true values types values-Agrees text_of_limit VarType.bool
      text_of_limit-Typed

resolve-lenient_iff_example :
    (resolve some_floats false some_host false 2 (codes "a.jibs") config_text no_vars
      ≡ ok resolved_config)
    ↔ ((resolve some_floats false some_host true 2 (codes "a.jibs") config_text no_vars
          ≡ ok resolved_config)
        × (resolved_config.missing_vars ≡ []))
resolve-lenient_iff_example =
    resolve-lenient_iff some_floats false some_host 2 (codes "a.jibs") config_text no_vars
      resolved_config

abbrev some_files : List Bytes
some_files = codes "a.jibs" ∷ []

some_files-known :
    (path file : Bytes) → some_host.canonicalize path ≡ ok file → contains some_files file ≡ true
unfolding contains bytes_eq
some_files-known path file e = elim (Bool-cases (bytes_eq path (codes "a.jibs"))) [
  | inl same ↦
      let same_file : path ≡ file = cc (rw same at e) in
      ground (arith, bytes_eq_iff path (codes "a.jibs"), bytes_eq_iff (codes "a.jibs") file)
  | inr other ↦ cc (rw other at e)
]

resolve_ends_example :
    resolve some_floats false some_host false 2 (codes "b.jibs") config_text no_vars
    ≢ err out_of_fuel
resolve_ends_example =
    resolve_ends some_floats false some_host false some_files 2 (codes "b.jibs") config_text no_vars
      some_files-known (omega arith)

abbrev flag : Dict Bytes
flag = (codes "full", codes "true") ∷ []

resolve-gated_import_example :
    resolve some_floats false some_host false 2
      (codes "b.jibs")
      (record {
        statements =
            plain (Ast.var limit_var)
            ∷ (gated_import (codes "full") here (codes "a.jibs", here), here)
            ∷ [];
      })
      flag
    ≡ err (failed (client (gate_error (codes "full") (lookup (codes "full") flag))))
resolve-gated_import_example =
    resolve-gated_import some_floats false some_host false 2 (codes "b.jibs") flag
      (plain (Ast.var limit_var) ∷ []) [] (codes "full") here here (codes "a.jibs", here) (refl, tt)

resolve-IsValid_example : IsValid some_host resolved_config
resolve-IsValid_example =
    resolve-IsValid some_host some_floats false false 2 (codes "a.jibs") config_text no_vars
      resolved_config (λ _ _ h. h) (resolved false)

abbrev compile : Bytes → Result Bytes Bytes
compile p = found (not (bytes_eq p (codes "["))) p

one_crate : (p why : Bytes) → compile p ≡ err why → (e : Bytes) × (some_host.regex_error p ≡ some e)
one_crate p why h = elim (Bool-cases (bytes_eq p (codes "["))) [
  | inl same ↦ (codes "unclosed", rw same refl)
  | inr other ↦ cc (rw other at h)
]

-- A pattern matches the table of its name.
resolve-compute_potential_example :
    (tables : List Bytes) × (compute_potential_aggregate_tables compile bytes_eq
        resolved_config.plan
        (codes "sales_order" ∷ [])
      ≡ ok tables)
    × ((t : Bytes)
        → (contains tables t ≡ true) ↔ (
            (a : ResolvedAggregate) × In a resolved_config.plan.aggregates
            × MayTouch compile bytes_eq resolved_config.plan (codes "sales_order" ∷ []) a t))
resolve-compute_potential_example =
    resolve-compute_potential some_host some_floats false false 2 (codes "a.jibs") config_text
      no_vars resolved_config compile bytes_eq (codes "sales_order" ∷ []) one_crate (resolved false)

-- The variable has a default, and the command line gives it another value.
abbrev declared : Resolver
declared = record (new_resolver some_host (codes "a.jibs") ((codes "limit", codes "7") ∷ [])) {
  pending_vars = (codes "limit", (VarType.int, some (Plan.int (pos 5)))) ∷ [];
}

abbrev finalized : Resolver
finalized = record declared {
  variables = (codes "limit", Plan.int (pos 7)) ∷ [];
  plan = record Plan.empty_plan { variables = (codes "limit", Plan.int (pos 7)) ∷ [] };
}

declared-finalized : finalize_variables some_floats false some_host false declared ≡ ok finalized
unfolding finalize_variables new_resolver jibs.Prelude.Dict.insert bytes_eq
declared-finalized = refl

finalize_variables-settled_example :
    (lookup (codes "limit") finalized.variables
      ≡ settled some_floats false false
          (lookup (codes "limit") declared.variables)
          (lookup (codes "limit") declared.pending_vars))
    × (lookup (codes "limit") finalized.plan.variables
        ≡ planned some_floats false
            (lookup (codes "limit") declared.plan.variables)
            (lookup (codes "limit") declared.pending_vars)
            (lookup (codes "limit") finalized.variables))
unfolding lookup
finalize_variables-settled_example =
    finalize_variables-settled some_floats false some_host false declared finalized (codes "limit")
      (refl, tt) refl declared-finalized
