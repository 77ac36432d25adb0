-- ===== src/Client/Json/Resolver.antt =====
-- crates/client/src/json_config.rs: `JsonResolver`, from a JSON config to the plan.
--
-- serde_json's reading of a config, the extension of a path and the order in which the map of
-- pending variables is walked are parameters. `process_import` is on fuel, and gives what is left
-- to the resolver of an imported config of the other language.
use jibs.Prelude.{
  ℕ, zero, suc, Bool, true, false, List, [], ◌∷◌, ◌++◌, Option, none, some, if◌then◌else◌, Bytes,
  bytes_eq, codes, contains, insert,
}
use jibs.Prelude.Dict.{Dict, lookup}
use jibs.Prelude.Result.{Result, ok, err, ◌>>=◌}
use jibs.Parser.Chars.{Chars}
use jibs.Parser.Lexer.{ParseError}
use jibs.Parser.Ast.{Program}
use jibs.Protocol.Plan.{ExecutionPlan, empty_plan, Value}
use jibs.Client.Error.{io, parse, Failure, client, Stop, failed, out_of_fuel}
use jibs.Client.Eval.{Floats, undefined}
use jibs.Client.Resolver.{lift, parse_source, parse_failed}
use jibs.Client.Resolver
use jibs.Client.Resolver.State.{Host, first_files, cli_values}
use jibs.Client.Json.Config.{JsonImport, JsonConfig}
use jibs.Client.Json.Sections.{
  process_fakers, process_relations, process_excludes, process_ignores, process_ignore_relations,
  process_anonymize, process_aggregates, process_includes, process_preserves, process_sets,
  process_after,
}
use jibs.Client.Json.Values.{coerce_value, json_to_value, is_admitted}
use jibs.Client.Json.State.{
  Pending, JsonHost, JsonResolver, merge_plan, collect_vars, set_variable, texts_of, in_file,
}

module _ (floats : Floats) (host : JsonHost) where
  unfoldable pub settle :
      Bytes → Pending → Option Value → JsonResolver → Result Failure JsonResolver
  unfolding coerce_value json_to_value set_variable
  settle name (var_type, default) (some value) s =
      coerce_value floats host.is_alphanumeric value var_type >>= λ typed_value.
      ok (set_variable name typed_value s)
  settle name (var_type, some default) none s =
      json_to_value floats host.is_alphanumeric s.variables default var_type >>= λ value.
      ok (set_variable name value s)
  settle name (var_type, none) none s = undefined name

  unfoldable pub settle_all : Dict Pending → JsonResolver → Result Failure JsonResolver
  unfolding settle lookup
  settle_all [] s = ok s
  settle_all ((name, pending) ∷ rest) s =
      settle name pending (lookup name s.variables) s >>= settle_all rest

  unfoldable pub finalize_variables : JsonResolver → Result Failure JsonResolver
  unfolding settle_all
  finalize_variables s = settle_all (host.pending_order s.pending_vars) s

  -- The sections behind the imports and the variables, in their order.
  unfoldable pub process_sections :
      Dict Value → JsonConfig → ExecutionPlan → Result Failure ExecutionPlan
  unfolding process_fakers process_relations process_excludes process_ignores
      process_ignore_relations process_anonymize process_aggregates process_includes
      process_preserves process_sets process_after
  process_sections vars config p0 = do
    p1 ← process_fakers floats host.is_alphanumeric vars p0 config.faker
    p2 ← process_relations vars p1 config.relation
    p3 ← process_excludes vars p2 config.exclude
    p4 ← process_ignores vars p3 config.ignore
    p5 ← process_ignore_relations vars p4 config.ignore_relation
    p6 ← process_anonymize vars p5 config.anonymize
    p7 ← process_aggregates floats host.is_alphanumeric vars p6 config.aggregate
    p8 ← process_includes floats host.is_alphanumeric vars p7 config.includes
    p9 ← process_preserves floats host.is_alphanumeric vars p8 config.preserve
    p10 ← process_sets floats host.is_alphanumeric vars p9 config.sets
    process_after floats host.is_alphanumeric vars p10 config.after

  abbrev pub with_sections : JsonConfig → JsonResolver → Result Failure JsonResolver
  with_sections config s =
      process_sections s.variables config s.plan >>= λ plan. ok (record s { plan = plan })

  unfoldable pub imports_of :
      (Bytes → JsonResolver → Result Stop JsonResolver)
      → List JsonImport
      → JsonResolver
      → Result Stop JsonResolver
  imports_of process_import [] s = ok s
  imports_of process_import (i ∷ rest) s =
      lift (is_admitted s.variables i.condition) >>= λ admitted.
      (if admitted then process_import i.path s else ok s) >>= imports_of process_import rest

  -- The variables of an imported file are collected, and finalized only by the first config.
  unfoldable pub import_json :
      (Bytes → JsonResolver → Result Stop JsonResolver)
      → Bytes
      → JsonConfig
      → JsonResolver
      → Result Stop JsonResolver
  unfolding imports_of collect_vars process_sections
  import_json process_import canonical_path config s =
      imports_of process_import config.imports (record s { base_path = canonical_path })
      >>= λ imported.
          lift (
            with_sections config (record imported {
              pending_vars = collect_vars config.variable imported.pending_vars;
            }))
          >>= λ after. ok (record after { base_path = s.base_path })

  module _ (checked : Bool) (dsl_host : Host) where
    -- An import in the config language, which has a resolver of its own.
    unfoldable pub import_program :
        ℕ → Bytes → Bytes → Program → JsonResolver → Result Stop JsonResolver
    unfolding merge_plan texts_of
    import_program fuel import_path canonical_path program s =
        in_file import_path (
          Resolver.resolve floats checked dsl_host false fuel canonical_path program
            (texts_of floats.format_f64 s.variables))
        >>= λ imported. ok (record s { plan = merge_plan s.plan imported.plan })

    abbrev read_json :
        (Bytes → JsonResolver → Result Stop JsonResolver)
        → Bytes
        → Bytes
        → Result Bytes JsonConfig
        → JsonResolver
        → Result Stop JsonResolver
    read_json process_import import_path canonical_path (err e) s =
        err (
          failed (client (parse (codes "Parse error in '" ++ (import_path ++ (codes "': " ++ e))))))
    read_json process_import import_path canonical_path (ok config) s =
        import_json process_import canonical_path config s

    abbrev read_program :
        ℕ
        → Bytes
        → Bytes
        → Chars
        → Result (List ParseError) Program
        → JsonResolver
        → Result Stop JsonResolver
    read_program fuel import_path canonical_path content (err errors) s =
        err (failed (parse_failed floats checked dsl_host import_path content errors))
    read_program fuel import_path canonical_path content (ok program) s =
        import_program fuel import_path canonical_path program s

    -- A file that is not imported yet, by its extension.
    unfoldable pub import_file :
        (Bytes → JsonResolver → Result Stop JsonResolver)
        → ℕ
        → Bytes
        → Bytes
        → JsonResolver
        → Result Stop JsonResolver
    unfolding import_json import_program
    import_file process_import fuel import_path canonical_path s =
        elim (dsl_host.read_to_string canonical_path) [
          | err e ↦
              err (failed (client (io (codes "read import '" ++ (import_path ++ codes "'")) e)))
          | ok content ↦
              let marked = record s { imported_files = insert canonical_path s.imported_files } in
              if bytes_eq (host.extension canonical_path) (codes "json")
              then read_json process_import import_path canonical_path (host.from_str content)
                  marked
              else read_program fuel import_path canonical_path content
                  (parse_source floats checked content) marked
        ]

    unfoldable pub process_import : ℕ → Bytes → JsonResolver → Result Stop JsonResolver
    unfolding import_file contains
    process_import zero import_path s = err out_of_fuel
    process_import (suc fuel) import_path s =
        elim (dsl_host.canonicalize (dsl_host.import_file s.base_path import_path)) [
          | err e ↦
              err (
                failed
                  (client (io (codes "resolve import path '" ++ (import_path ++ codes "'")) e)))
          | ok canonical_path ↦ elim (contains s.imported_files canonical_path) [
            | true ↦ ok s
            | false ↦ import_file (process_import fuel) fuel import_path canonical_path s
          ]
        ]

    unfoldable pub new_resolver : Bytes → Dict Bytes → JsonResolver
    unfolding cli_values
    new_resolver base_path cli_vars = record {
      base_path = base_path;
      imported_files = first_files (dsl_host.canonicalize base_path);
      variables = cli_values cli_vars;
      pending_vars = [];
      plan = empty_plan;
    }

    -- `JsonResolver::resolve`
    unfoldable pub resolve : ℕ → JsonConfig → JsonResolver → Result Stop ExecutionPlan
    unfolding imports_of process_import collect_vars finalize_variables process_sections
    resolve fuel config s = imports_of (process_import fuel) config.imports s >>= λ imported.
        lift (
          finalize_variables
            (record imported { pending_vars = collect_vars config.variable imported.pending_vars }))
        >>= λ finalized. lift (process_sections finalized.variables config finalized.plan)

    -- The config of a text that was read.
    abbrev read_config :
        ℕ → Bytes → Dict Bytes → Result Bytes JsonConfig → Result Stop ExecutionPlan
    read_config fuel config_path cli_vars (err e) =
        err (failed (client (parse (codes "Invalid JSON config: " ++ e))))
    read_config fuel config_path cli_vars (ok config) =
        resolve fuel config (new_resolver config_path cli_vars)

    unfoldable pub parse_json_config : ℕ → Bytes → Dict Bytes → Result Stop ExecutionPlan
    unfolding resolve new_resolver
    parse_json_config fuel config_path cli_vars = elim (dsl_host.read_to_string config_path) [
      | err e ↦ err (failed (client (io (codes "read config '" ++ (config_path ++ codes "'")) e)))
      | ok content ↦ read_config fuel config_path cli_vars (host.from_str content)
    ]
