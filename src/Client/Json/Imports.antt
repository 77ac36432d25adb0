-- ===== src/Client/Json/Imports.antt =====
-- crates/client/src/json_config.rs: the fuel of the imports, by the files that are not marked yet.
use jibs.Prelude.{
  ℕ, zero, suc, ◌+◌, ◌<◌, Bool, true, false, List, [], ◌∷◌, ◌≡◌, ◌≢◌, arith, Bytes, contains,
  insert, length, inl, inr, Bool-cases, bytes_eq, codes,
}
use jibs.Prelude.Dict.{Dict}
use jibs.Prelude.Result.{Result, ok, err, ◌>>=◌, >>=-eq-ok, Result-cases}
use jibs.Parser.Ast.{Program}
use jibs.Client.Error.{client, panicked, Failure, Stop, failed, out_of_fuel}
use jibs.Client.Eval.{Floats}
use jibs.Client.Marks.{
  left, left-le-length, left-insert-lt, Ends, Ends-bind, Ends-lift, Ends-ok, Ends-failed,
  Ends-insert,
}
use jibs.Client.Resolver
use jibs.Client.Resolver.{lift, parse_source}
use jibs.Client.Resolver.Imports.{resolve_ends}
use jibs.Client.Resolver.State.{Host, ResolvedConfig}
use jibs.Client.Json.Config.{JsonConfig, JsonImport}
use jibs.Client.Json.State.{JsonHost, JsonResolver, collect_vars, texts_of, in_file}
use jibs.Client.Json.Resolver.{
  finalize_variables, with_sections, process_sections, imports_of, import_json, import_program,
  import_file, process_import, new_resolver, resolve, parse_json_config,
}
use jibs.Client.Json.Values.{is_admitted}

abbrev files_of : JsonResolver → List Bytes
files_of s = s.imported_files

-- An error of the other resolver that is not its fuel stays one.
in_file-fuel :
    {A : Type 0} (path : Bytes) (x : Result Stop A)
    → x ≢ err out_of_fuel
    → in_file path x ≢ err out_of_fuel
in_file-fuel path (ok a) h = λ d. cc
in_file-fuel path (err (failed (client e))) h = λ d. cc
in_file-fuel path (err (failed panicked)) h = λ d. cc
in_file-fuel path (err Stop.out_of_fuel) h = h

bind-fuel :
    {A B : Type 0} (x : Result Stop A) (f : A → Result Stop B)
    → x ≢ err out_of_fuel
    → ((a : A) → f a ≢ err out_of_fuel)
    → (x >>= f) ≢ err out_of_fuel
bind-fuel (ok a) f h k = k a
bind-fuel (err e) f h k = λ d. h (cc d)

lift-fuel : {A : Type 0} (x : Result Failure A) → lift x ≢ err out_of_fuel
lift-fuel (ok a) = λ d. cc
lift-fuel (err e) = λ d. cc

module _ (floats : Floats) (host : JsonHost) where
  with_sections-files :
      (config : JsonConfig) (s t : JsonResolver)
      → with_sections floats host config s ≡ ok t
      → t.imported_files ≡ s.imported_files
  with_sections-files config s t e =
      let (plan, _, d) = >>=-eq-ok (process_sections floats host s.variables config s.plan) _ e in
      cc

  module _ (files : List Bytes) where
    module _ (f : Bytes → JsonResolver → Result Stop JsonResolver) (n : ℕ)
        (h : (path : Bytes) (s : JsonResolver)
          → left files s.imported_files + length files < n
          → Ends files files_of s.imported_files (f path s)) where
      imports_of-Ends :
          (imports : List JsonImport) (s : JsonResolver)
          → left files s.imported_files + length files < n
          → Ends files files_of s.imported_files (imports_of floats host f imports s)
      unfolding imports_of
      imports_of-Ends [] s few = Ends-ok files files_of s
      imports_of-Ends (i ∷ rest) s few = elim (Result-cases (is_admitted s.variables i.condition)) [
        | inr (why, e) ↦ rw e (Ends-failed files files_of s.imported_files why)
        | inl (false, e) ↦ rw e (imports_of-Ends rest s few)
        | inl (true, e) ↦ rw e (
            Ends-bind files files_of s.imported_files _ _ (h i.path s few)
              (λ u fewer. imports_of-Ends rest u (omega arith)))
      ]

      import_json-Ends :
          (path : Bytes) (config : JsonConfig) (s : JsonResolver)
          → left files s.imported_files + length files < n
          → Ends files files_of s.imported_files (import_json floats host f path config s)
      unfolding import_json
      import_json-Ends path config s few =
          Ends-bind files files_of s.imported_files _ _
            (imports_of-Ends config.imports (record s { base_path = path }) few)
            λ u _.
              Ends-bind files files_of u.imported_files _ _
                (Ends-lift files files_of u.imported_files _ (
                  with_sections-files config
                    (record u { pending_vars = collect_vars config.variable u.pending_vars })))
                (λ t _. Ends-ok files files_of (record t { base_path = s.base_path }))

    module _ (checked : Bool) (dsl_host : Host)
        (known : (path file : Bytes)
          → dsl_host.canonicalize path ≡ ok file
          → contains files file ≡ true) where
      import_program-Ends :
          (fuel : ℕ) (import_path path : Bytes) (program : Program) (s : JsonResolver)
          → length files < fuel
          → Ends files files_of s.imported_files
              (import_program floats host checked dsl_host fuel import_path path program s)
      unfolding import_program Ends
      import_program-Ends fuel import_path path program s enough =
          let x : Result Stop ResolvedConfig = in_file import_path (
            Resolver.resolve floats checked dsl_host false fuel path program
              (texts_of floats.format_f64 s.variables)) in
          let there : x ≢ err out_of_fuel =
            in_file-fuel import_path _
              (resolve_ends floats checked dsl_host false files fuel path program _ known enough) in
          elim (Result-cases x) [
            | inl (config, e) ↦ rw e (Ends-ok files files_of _)
            | inr (Stop.out_of_fuel, e) ↦ absurd (there e)
            | inr (failed why, e) ↦ rw e (Ends-failed files files_of s.imported_files why)
          ]

      import_file-Ends :
          (f : Bytes → JsonResolver → Result Stop JsonResolver) (fuel : ℕ)
          (import_path path : Bytes) (s : JsonResolver)
          → ((p : Bytes) (u : JsonResolver)
              → left files u.imported_files + length files < fuel
              → Ends files files_of u.imported_files (f p u))
          → left files (insert path s.imported_files) + length files < fuel
          → Ends files files_of s.imported_files
              (import_file floats host checked dsl_host f fuel import_path path s)
      unfolding import_file
      import_file-Ends f fuel import_path path s h few =
          let marked : JsonResolver = record s { imported_files = insert path s.imported_files } in
          elim (Result-cases (dsl_host.read_to_string path)) [
            | inr (_, e) ↦ rw (e, import_file) (Ends-failed files files_of s.imported_files _)
            | inl (content, e) ↦ elim (Bool-cases (bytes_eq (host.extension path) (codes "json"))) [
              | inl json ↦ elim (Result-cases (host.from_str content)) [
                | inr (_, d) ↦
                    rw (e, json, d, import_file) (Ends-failed files files_of s.imported_files _)
                | inl (config, d) ↦
                    rw (e, json, d, import_file)
                      (Ends-insert files files_of path s.imported_files _
                        (import_json-Ends f fuel h path config marked few))
              ]
              | inr other ↦ elim (Result-cases (parse_source floats checked content)) [
                | inr (_, d) ↦
                    rw (e, other, d, import_file) (Ends-failed files files_of s.imported_files _)
                | inl (program, d) ↦
                    rw (e, other, d, import_file)
                      (Ends-insert files files_of path s.imported_files _
                        (import_program-Ends fuel import_path path program marked (omega arith)))
              ]
            ]
          ]

      process_import-Ends :
          (fuel : ℕ) (path : Bytes) (s : JsonResolver)
          → left files s.imported_files + length files < fuel
          → Ends files files_of s.imported_files
              (process_import floats host checked dsl_host fuel path s)
      unfolding process_import
      process_import-Ends zero path s few = absurd (omega arith)
      process_import-Ends (suc fuel) path s few =
          elim (Result-cases (dsl_host.canonicalize (dsl_host.import_file s.base_path path))) [
            | inr (_, e) ↦ rw (e, process_import) (Ends-failed files files_of s.imported_files _)
            | inl (file, e) ↦ elim (Bool-cases (contains s.imported_files file)) [
              | inl old ↦ rw (e, old, process_import) (Ends-ok files files_of s)
              | inr new ↦
                  let fewer =
                    left-insert-lt files s.imported_files file
                      (known (dsl_host.import_file s.base_path path) file e) new in
                  rw (e, new, process_import)
                    (import_file-Ends (process_import floats host checked dsl_host fuel) fuel path
                      file s (process_import-Ends fuel) (omega (arith, fewer)))
            ]
          ]

      resolve-fuel :
          (fuel : ℕ) (config : JsonConfig) (s : JsonResolver)
          → left files s.imported_files + length files < fuel
          → resolve floats host checked dsl_host fuel config s ≢ err out_of_fuel
      unfolding resolve Ends
      resolve-fuel fuel config s few =
          bind-fuel _ _
            (imports_of-Ends (process_import floats host checked dsl_host fuel) fuel
              (process_import-Ends fuel) config.imports s few).0
            λ u.
              bind-fuel
                (lift (
                  finalize_variables floats host
                    (record u { pending_vars = collect_vars config.variable u.pending_vars })))
                _ (lift-fuel _)
                (λ t. lift-fuel (process_sections floats host t.variables config t.plan))

-- A finite file system, and fuel above twice the number of its files: whatever the files import, in
-- cycles or not and in either language, `parse_json_config` does not run out of fuel.
pub parse_json_config_ends :
    (floats : Floats) (host : JsonHost) (checked : Bool) (dsl_host : Host) (files : List Bytes)
    (fuel : ℕ) (config_path : Bytes) (cli_vars : Dict Bytes)
    → ((path file : Bytes) → dsl_host.canonicalize path ≡ ok file → contains files file ≡ true)
    → length files + length files < fuel
    → parse_json_config floats host checked dsl_host fuel config_path cli_vars ≢ err out_of_fuel
unfolding parse_json_config
parse_json_config_ends floats host checked dsl_host files fuel config_path cli_vars known enough =
    let start = new_resolver floats host checked dsl_host config_path cli_vars in
    let few : left files start.imported_files + length files < fuel =
      omega (arith, left-le-length files start.imported_files, enough) in
    elim (Result-cases (dsl_host.read_to_string config_path)) [
      | inr (_, e) ↦ rw (e, parse_json_config) (λ d. cc)
      | inl (content, e) ↦ elim (Result-cases (host.from_str content)) [
        | inr (_, d) ↦ rw (e, d, parse_json_config) (λ c. cc)
        | inl (config, d) ↦
            rw (e, d, parse_json_config)
              (resolve-fuel floats host files checked dsl_host known fuel config start few)
      ]
    ]
