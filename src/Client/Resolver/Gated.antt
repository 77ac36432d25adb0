-- ===== src/Client/Resolver/Gated.antt =====
-- Imports under a condition: they are processed in the first pass, when the variables of the config are
-- not declared yet and those of the command line are still strings.
use jibs.Prelude.{
  ℕ, Bool, true, false, List, [], ◌∷◌, ◌++◌, Option, none, some, ◌≡◌, refl, arith, Bytes, bytes_eq,
  codes, All, Bool-cases, inl, inr,
}
use jibs.Prelude.Dict.{Dict, lookup}
use jibs.Prelude.Result.{Result, ok, err}
use jibs.Parser.Ast
use jibs.Parser.Ast.{Span, Spanned, Expr, Statement, StatementKind, Program}
use jibs.Client.Error.{ClientError, type_error, undefined_variable, client, Stop, failed}
use jibs.Client.Eval.{Floats, get_variable, evaluate_expr, evaluate_condition}
use jibs.Client.Resolver.{
  is_admitted, import_kind, imports_of, passes, process_import, resolve_program, resolve,
}
use jibs.Client.Resolver.State.{Host, Resolver, cli_values, new_resolver}

abbrev pub is_import : StatementKind → Bool
is_import (Ast.imported _) = true
is_import _ = false

-- The error of a condition that is a variable, by the variable's text on the command line.
abbrev pub gate_error : Bytes → Option Bytes → ClientError
gate_error name none = undefined_variable name
gate_error name (some _) = type_error (codes "Condition must evaluate to bool")

-- An import whose condition is a variable.
abbrev pub gated_import : Bytes → Span → Spanned Bytes → Statement
gated_import name at path = record {
  attribute = some (Expr.variable name, at);
  kind = Ast.imported path;
}

module _ (floats : Floats) (checked : Bool) where
  condition-cli_values :
      (name : Bytes) (cli_vars : Dict Bytes)
      → evaluate_condition floats checked (cli_values cli_vars) (Expr.variable name)
        ≡ err (client (gate_error name (lookup name cli_vars)))
  unfolding evaluate_condition evaluate_expr get_variable cli_values lookup
  condition-cli_values name [] = refl
  condition-cli_values name ((k, v) ∷ vars) = elim (Bool-cases (bytes_eq k name)) [
    | inl same ↦ rw same refl
    | inr other ↦ rw other (condition-cli_values name vars)
  ]

  module _ (f : Bytes → Resolver → Result Stop Resolver) where
    import_kind-other :
        (stmt : Statement) (s : Resolver)
        → is_import stmt.kind ≡ false
        → import_kind floats checked f stmt.attribute stmt.kind s ≡ ok s
    unfolding import_kind
    import_kind-other stmt s h = ground arith

    imports_of-front :
        (front rest : List (Spanned Statement)) (s : Resolver)
        → All (λ (entry : Spanned Statement). is_import entry.0.kind ≡ false) front
        → imports_of floats checked f (front ++ rest) s ≡ imports_of floats checked f rest s
    unfolding imports_of
    imports_of-front [] rest s others = refl
    imports_of-front ((stmt, _) ∷ front) rest s (other, others) =
        rw (import_kind-other stmt s other) (imports_of-front front rest s others)

-- Where the first import of a config stands under a condition that is a variable, the config does not
-- resolve, whatever variables it declares and the command line gives: the variable is not defined,
-- or it is a string and no boolean.
pub resolve-gated_import :
    (floats : Floats) (checked : Bool) (host : Host) (lenient : Bool) (fuel : ℕ) (base_path : Bytes)
    (cli_vars : Dict Bytes) (front rest : List (Spanned Statement)) (name : Bytes)
    (at_name at_stmt : Span) (path : Spanned Bytes)
    → All (λ (entry : Spanned Statement). is_import entry.0.kind ≡ false) front
    → resolve floats checked host lenient fuel base_path
        (record { statements = front ++ (gated_import name at_name path, at_stmt) ∷ rest })
        cli_vars
      ≡ err (failed (client (gate_error name (lookup name cli_vars))))
unfolding resolve resolve_program passes new_resolver
resolve-gated_import floats checked host lenient fuel base_path cli_vars front rest name at_name
      at_stmt path others =
    rw
      (imports_of-front floats checked (process_import floats checked host lenient fuel) front
        ((gated_import name at_name path, at_stmt) ∷ rest) (new_resolver host base_path cli_vars)
        others)
      (unfold imports_of import_kind is_admitted in
        rw (condition-cli_values floats checked name cli_vars) refl)
