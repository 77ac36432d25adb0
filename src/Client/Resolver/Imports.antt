-- ===== src/Client/Resolver/Imports.antt =====
-- Imports end: a file that is imported is marked, and a marked file is not imported again.
use jibs.Prelude.{
  ℕ, zero, suc, ◌<◌, Bool, true, false, List, [], ◌∷◌, Option, ◌≡◌, ◌≢◌, arith, Bytes, contains,
  insert, length, inl, inr, Bool-cases,
}
use jibs.Prelude.Dict.{Dict}
use jibs.Prelude.Result.{Result, ok, err, Result-cases}
use jibs.Parser.Ast
use jibs.Parser.Ast.{Spanned, Expr, Statement, StatementKind, Program}
use jibs.Client.Error.{Stop, failed, out_of_fuel}
use jibs.Client.Eval.{Floats}
use jibs.Client.Marks.{
  left, left-le-length, left-insert-lt, Ends, Ends-bind, Ends-lift, Ends-ok, Ends-failed,
  Ends-insert,
}
use jibs.Client.Resolver.{
  is_admitted, import_kind, imports_of, finalize_variables, passes, load, import_program,
  process_import, resolve_program, resolve,
}
use jibs.Client.Resolver.State.{Host, Resolver, new_resolver}
use jibs.Client.Resolver.Validate.{validate_plan}
use jibs.Client.Resolver.Passes.{collect_vars-Kept, process_statements-Kept, settle_all-files}

abbrev files_of : Resolver → List Bytes
files_of s = s.imported_files

module _ (files : List Bytes) where
  module _ (floats : Floats) (checked : Bool) (host : Host) (lenient : Bool) where
    module _ (f : Bytes → Resolver → Result Stop Resolver) (n : ℕ)
        (h : (path : Bytes) (s : Resolver)
          → left files s.imported_files < n
          → Ends files files_of s.imported_files (f path s)) where
      import_kind-Ends :
          (attribute : Option (Spanned Expr)) (kind : StatementKind) (s : Resolver)
          → left files s.imported_files < n
          → Ends files files_of s.imported_files (import_kind floats checked f attribute kind s)
      unfolding import_kind
      import_kind-Ends attribute (Ast.imported (path, _)) s few =
          elim (Result-cases (is_admitted floats checked attribute s)) [
            | inl (true, e) ↦ rw e (h path s few)
            | inl (false, e) ↦ rw e (Ends-ok files files_of s)
            | inr (why, e) ↦ rw e (Ends-failed files files_of s.imported_files why)
          ]
      import_kind-Ends attribute _ s few = Ends-ok files files_of s

      imports_of-Ends :
          (stmts : List (Spanned Statement)) (s : Resolver)
          → left files s.imported_files < n
          → Ends files files_of s.imported_files (imports_of floats checked f stmts s)
      unfolding imports_of
      imports_of-Ends [] s few = Ends-ok files files_of s
      imports_of-Ends ((stmt, _) ∷ rest) s few =
          Ends-bind files files_of s.imported_files _ _
            (import_kind-Ends stmt.attribute stmt.kind s few)
            (λ u fewer. imports_of-Ends rest u (omega arith))

      passes-Ends :
          (program : Program) (s : Resolver)
          → left files s.imported_files < n
          → Ends files files_of s.imported_files (passes floats checked host lenient f program s)
      unfolding passes finalize_variables
      passes-Ends program s few =
          Ends-bind files files_of s.imported_files _ _ (imports_of-Ends program.statements s few)
            λ a _.
              Ends-bind files files_of a.imported_files _ _
                (Ends-lift files files_of a.imported_files _
                  (λ t e. (collect_vars-Kept floats checked program.statements a t e).1))
                λ b _.
                  Ends-bind files files_of b.imported_files _ _
                    (Ends-lift files files_of b.imported_files _ (
                      settle_all-files floats checked lenient (host.pending_order b.pending_vars)
                        b))
                    λ c _.
                      Ends-lift files files_of c.imported_files _
                        (λ t e. (process_statements-Kept floats checked program.statements c t e).1)

      import_program-Ends :
          (path file : Bytes) (s : Resolver)
          → left files (insert file s.imported_files) < n
          → Ends files files_of
              (insert file s.imported_files)
              (import_program floats checked host lenient f path file s)
      unfolding import_program
      import_program-Ends path file s few =
          elim (Result-cases (load floats checked host path file)) [
            | inr (why, e) ↦ rw e (Ends-failed files files_of _ why)
            | inl (program, e) ↦ rw e (
                Ends-bind files files_of (insert file s.imported_files) _ _
                  (passes-Ends program _ few)
                  (λ u _. Ends-ok files files_of (record u { base_path = s.base_path })))
          ]

    module _
        (known : (path file : Bytes)
          → host.canonicalize path ≡ ok file
          → contains files file ≡ true) where
      process_import-Ends :
          (fuel : ℕ) (path : Bytes) (s : Resolver)
          → left files s.imported_files < fuel
          → Ends files files_of s.imported_files
              (process_import floats checked host lenient fuel path s)
      unfolding process_import
      process_import-Ends zero path s few = absurd (omega arith)
      process_import-Ends (suc fuel) path s few =
          elim (Result-cases (host.canonicalize (host.import_file s.base_path path))) [
            | inr (_, e) ↦ rw (e, process_import) (Ends-failed files files_of s.imported_files _)
            | inl (file, e) ↦ elim (Bool-cases (contains s.imported_files file)) [
              | inl old ↦ rw (e, old, process_import) (Ends-ok files files_of s)
              | inr new ↦
                  let marked =
                    left-insert-lt files s.imported_files file
                      (known (host.import_file s.base_path path) file e) new in
                  rw (e, new, process_import)
                    (Ends-insert files files_of file s.imported_files _ (
                      import_program-Ends (process_import floats checked host lenient fuel) fuel
                        (process_import-Ends fuel) path file s (omega (arith, marked))))
            ]
          ]

-- A finite file system, and fuel above the number of its files: whatever the files import, in cycles
-- or not, neither `resolve` nor `resolve_lenient` runs out of fuel.
pub resolve_ends :
    (floats : Floats) (checked : Bool) (host : Host) (lenient : Bool) (files : List Bytes)
    (fuel : ℕ) (base_path : Bytes) (program : Program) (cli_vars : Dict Bytes)
    → ((path file : Bytes) → host.canonicalize path ≡ ok file → contains files file ≡ true)
    → length files < fuel
    → resolve floats checked host lenient fuel base_path program cli_vars ≢ err out_of_fuel
unfolding resolve resolve_program new_resolver Ends
resolve_ends floats checked host lenient files fuel base_path program cli_vars known enough =
    let start = new_resolver host base_path cli_vars in
    let few : left files start.imported_files < fuel =
      omega (arith, left-le-length files start.imported_files) in
    let whole =
      passes-Ends files floats checked host lenient
        (process_import floats checked host lenient fuel) fuel
        (process_import-Ends files floats checked host lenient known fuel) program start few in
    elim (Result-cases (
      passes floats checked host lenient (process_import floats checked host lenient fuel) program
        start)) [
          | inl (u, e) ↦ elim (Result-cases (validate_plan host u.plan u.get_functions)) [
            | inl (_, d) ↦ rw (e, d) (λ c. cc)
            | inr (_, d) ↦ rw (e, d) (λ c. cc)
          ]
          | inr (Stop.out_of_fuel, e) ↦ absurd (whole.0 e)
          | inr (failed why, e) ↦ rw e (λ c. cc)
        ]
