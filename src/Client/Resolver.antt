-- ===== src/Client/Resolver.antt =====
-- crates/client/src/resolver.rs: the resolver of a config, from its program to the execution plan.
--
-- `resolve` and `resolve_lenient` differ in the field `lenient_missing_vars`, which nothing changes
-- afterwards: it is an argument, `lenient`. The file system, the regex crate, the rendering of parse
-- errors and the orders in which two maps are walked are the record `Host`. The texts of a config
-- are code points, as in Parser. On an error the source drops the resolver, so only the error is kept.
--
-- A file is processed under the guard that it was not imported before; `process_import` is on fuel,
-- and Resolver/Imports shows that the number of files is enough.
pub mod State
pub mod Validate
pub mod Passes
pub mod Lenient
pub mod Imports
pub mod Variables
pub mod Gated
pub mod Valid
use jibs.Prelude.{
  ℕ, zero, suc, Bool, true, false, List, [], ◌∷◌, ◌++◌, map, Option, none, some, if◌then◌else◌,
  Bytes, bytes_eq, codes, contains, ◌||◌, ◌==◌, leb, ◌&&◌, ◌+◌,
}
use jibs.Prelude
use jibs.Prelude.Dict
use jibs.Prelude.Dict.{Dict, lookup, has_key}
use jibs.Prelude.Int.{pos}
use jibs.Prelude.Parse.{parse_i64}
use jibs.Prelude.Result.{Result, ok, err, ◌>>=◌}
use jibs.Parser.Ast
use jibs.Parser.Ast.{Spanned, VarType, VarDecl, Expr, Statement, StatementKind, Program}
use jibs.Parser.Chars.{Chars}
use jibs.Parser.Interpolation.{std_env}
use jibs.Parser.Lexer.{ParseError}
use jibs.Parser.Program
use jibs.Protocol.Plan
use jibs.Protocol.Plan.{ExecutionPlan, empty_plan, Value, AnonymizeRule, AnonymizeTarget}
use jibs.Client.Error.{
  ClientError, io, parse, resolution, Failure, client, Stop, failed, out_of_fuel,
}
use jibs.Client.Eval.{Floats, wrong_type, undefined, evaluate_condition}
use jibs.Client.Statements.{literal_to_value, default_value, process_kind}
use jibs.Client.Statements.Parts.{ResolvedGetFunction}
use jibs.Client.Resolver.State.{
  Pending, Host, Resolver, ResolvedConfig, first_files, cli_values, placeholder_value, bool_word,
  converted, set_variable, push_missing, with_output, config_of, new_resolver,
}
use jibs.Client.Resolver.Validate.{validate_plan}

-- A computation without fuel in one with fuel.
abbrev pub lift {ℓ} : {A : Type ℓ} → Result Failure A → Result Stop A
lift (ok a) = ok a
lift (err e) = err (failed e)

-- The variables that the statements declare.
module _ (floats : Floats) (checked : Bool) where
  unfoldable pub coerce_value : Value → VarType → Result Failure Value
  unfolding parse_i64 bool_word
  coerce_value (Plan.string s) VarType.int = converted Plan.int s (codes "int") (parse_i64 s)
  coerce_value (Plan.string s) VarType.float =
      converted Plan.float s (codes "float") (floats.parse_f64 s)
  coerce_value (Plan.string s) VarType.bool = converted Plan.bool s (codes "bool") (bool_word s)
  coerce_value value _ = ok value

  unfoldable pub collect_var_decl : VarDecl → Resolver → Result Failure Resolver
  unfolding literal_to_value
  collect_var_decl decl s =
      default_value floats checked s.variables decl.var_type.0 decl.default >>= λ default.
      ok (record s {
        pending_vars = Dict.insert decl.name.0 (decl.var_type.0, default) s.pending_vars;
      })

  -- The branches of the loop: a value that is there, a default, a placeholder, an error.
  unfoldable pub settle :
      Bool → Bytes → VarType → Option Value → Option Value → Resolver → Result Failure Resolver
  unfolding coerce_value placeholder_value set_variable
  settle lenient name var_type (some value) default s =
      coerce_value value var_type >>= λ typed_value. ok (set_variable name typed_value s)
  settle lenient name var_type none (some default) s = ok (set_variable name default s)
  settle true name var_type none none s =
      ok (push_missing name var_type (set_variable name (placeholder_value var_type) s))
  settle false name var_type none none s = undefined name

  unfoldable pub settle_all : Bool → Dict Pending → Resolver → Result Failure Resolver
  unfolding settle lookup
  settle_all lenient [] s = ok s
  settle_all lenient ((name, pending) ∷ rest) s =
      settle lenient name pending.0 (lookup name s.variables) pending.1 s
      >>= settle_all lenient rest

  -- A statement whose attribute is no condition that holds is skipped.
  unfoldable pub is_admitted : Option (Spanned Expr) → Resolver → Result Failure Bool
  unfolding evaluate_condition
  is_admitted none s = ok true
  is_admitted (some (condition, _)) s = evaluate_condition floats checked s.variables condition

  unfoldable pub process_statement : Statement → Resolver → Result Failure Resolver
  unfolding is_admitted process_kind
  process_statement stmt s = is_admitted stmt.attribute s >>= λ admitted.
      if admitted
      then (process_kind floats checked s.variables s.plan s.get_functions stmt.kind >>= λ out.
          ok (with_output s out))
      else ok s

  unfoldable pub process_statements : List (Spanned Statement) → Resolver → Result Failure Resolver
  unfolding process_statement
  process_statements [] s = ok s
  process_statements ((stmt, _) ∷ rest) s = process_statement stmt s >>= process_statements rest

  abbrev pub collect_of : StatementKind → Resolver → Result Failure Resolver
  collect_of (Ast.var decl) s = collect_var_decl decl s
  collect_of _ s = ok s

  unfoldable pub collect_vars : List (Spanned Statement) → Resolver → Result Failure Resolver
  unfolding collect_var_decl
  collect_vars [] s = ok s
  collect_vars ((stmt, _) ∷ rest) s = collect_of stmt.kind s >>= collect_vars rest

  -- The import of a statement, if it is one and its condition holds.
  unfoldable pub import_kind :
      (Bytes → Resolver → Result Stop Resolver)
      → Option (Spanned Expr)
      → StatementKind
      → Resolver
      → Result Stop Resolver
  unfolding is_admitted
  import_kind process_import attribute (Ast.imported (path, _)) s =
      lift (is_admitted attribute s) >>= λ admitted.
      if admitted then process_import path s else ok s
  import_kind process_import attribute _ s = ok s

  unfoldable pub imports_of :
      (Bytes → Resolver → Result Stop Resolver)
      → List (Spanned Statement)
      → Resolver
      → Result Stop Resolver
  unfolding import_kind
  imports_of process_import [] s = ok s
  imports_of process_import ((stmt, _) ∷ rest) s =
      import_kind process_import stmt.attribute stmt.kind s >>= imports_of process_import rest

  -- The text of a float has digits on both sides of its dot, so it parses.
  abbrev lexed_f64 : Chars → ℕ
  lexed_f64 text = elim (floats.parse_f64 text) [ none ↦ 0 | some f ↦ f ]

  -- `jibs_parser::parse`
  unfoldable pub parse_source : Chars → Result (List ParseError) Program
  parse_source = Program.parse lexed_f64 (std_env lexed_f64 floats.format_f64)

  module _ (host : Host) where
    abbrev pub parse_failed : Bytes → Chars → List ParseError → Failure
    parse_failed path source errors = client (
        parse (
          codes "in imported file '"
          ++ (path ++ (codes "':\n" ++ host.render_errors path source errors))))

    -- The program of a file.
    unfoldable pub load : Bytes → Bytes → Result Failure Program
    load import_path canonical_path = elim (host.read_to_string canonical_path) [
      | err e ↦ err (client (io (codes "read import '" ++ (import_path ++ codes "'")) e))
      | ok source ↦ elim (parse_source source) [
        | err errors ↦ err (parse_failed import_path source errors)
        | ok program ↦ ok program
      ]
    ]

  module _ (host : Host) (lenient : Bool) where
    unfoldable pub finalize_variables : Resolver → Result Failure Resolver
    unfolding settle_all
    finalize_variables s = settle_all lenient (host.pending_order s.pending_vars) s

    -- The three passes over the statements of a file.
    unfoldable pub passes :
        (Bytes → Resolver → Result Stop Resolver) → Program → Resolver → Result Stop Resolver
    unfolding imports_of collect_vars finalize_variables process_statements
    passes process_import program s = imports_of process_import program.statements s >>= λ imported.
        lift (collect_vars program.statements imported) >>= λ collected.
        lift (finalize_variables collected) >>= λ finalized.
        lift (process_statements program.statements finalized)

    -- What is done with the program: its passes, with its path as the base.
    unfoldable pub import_program :
        (Bytes → Resolver → Result Stop Resolver) → Bytes → Bytes → Resolver → Result Stop Resolver
    unfolding load passes
    import_program process_import import_path canonical_path s =
        lift (load host import_path canonical_path) >>= λ program.
        passes process_import program (record s {
          base_path = canonical_path;
          imported_files = Prelude.insert canonical_path s.imported_files;
        })
        >>= λ after. ok (record after { base_path = s.base_path })

    unfoldable pub process_import : ℕ → Bytes → Resolver → Result Stop Resolver
    unfolding import_program contains
    process_import zero import_path s = err out_of_fuel
    process_import (suc fuel) import_path s =
        elim (host.canonicalize (host.import_file s.base_path import_path)) [
          | err e ↦
              err (
                failed
                  (client (io (codes "resolve import path '" ++ (import_path ++ codes "'")) e)))
          | ok canonical_path ↦ elim (contains s.imported_files canonical_path) [
            | true ↦ ok s
            | false ↦ import_program (process_import fuel) import_path canonical_path s
          ]
        ]

    unfoldable pub resolve_program : ℕ → Program → Resolver → Result Stop ResolvedConfig
    unfolding passes process_import
    resolve_program fuel program s =
        passes (process_import fuel) program s >>= λ after. ok (config_of after)

module _ (floats : Floats) (checked : Bool) (host : Host) where
  -- `resolve`, and `resolve_lenient` where the test is set.
  unfoldable pub resolve : Bool → ℕ → Bytes → Program → Dict Bytes → Result Stop ResolvedConfig
  unfolding new_resolver resolve_program validate_plan
  resolve lenient fuel base_path program cli_vars =
      resolve_program floats checked host lenient fuel program
        (new_resolver host base_path cli_vars)
      >>= λ config. lift (validate_plan host config.plan config.get_functions) >>= λ _. ok config
