-- ===== src/Client/Json/Patterns.antt =====
-- crates/client/src/json_config.rs: what the passes over a JSON config make of the patterns of the
-- plan, and of its tables in full.
pub mod Rules
pub mod Sections
use jibs.Prelude.{
  ℕ, zero, suc, Bool, true, false, List, [], ◌∷◌, ◌++◌, Option, none, some, ◌≡◌, refl, ◌∙◌, Bytes,
  contains, inl, inr, Bool-cases, Option-cases, bytes_eq, codes, insert,
}
use jibs.Prelude.Dict.{Dict, lookup}
use jibs.Prelude.Result.{Result, ok, err, ◌>>=◌, >>=-eq-ok, Result-cases}
use jibs.Parser.Ast.{Program}
use jibs.Protocol.Plan
use jibs.Protocol.Plan.{ExecutionPlan, Value}
use jibs.Client.Error.{Failure, Stop}
use jibs.Client.Eval.{Floats}
use jibs.Client.Resolver.{lift, parse_source}
use jibs.Client.Resolver.State.{Host}
use jibs.Client.Json.Config.{
  JsonConfig, JsonImport, JsonRelation, JsonFakers, JsonAnonymizeBlocks, JsonInclude,
  JsonAnonymizeRule, JsonFaker, JsonAnonymizeBlock, JsonTableRef, JsonAggregate, JsonPreserve,
  JsonSet, JsonAfter,
}
use jibs.Client.Json.State.{Pending, JsonHost, JsonResolver, merge_plan, set_variable, collect_vars}
use jibs.Client.Json.Resolver.{
  settle, settle_all, finalize_variables, process_sections, with_sections, imports_of, import_json,
  import_program, import_file, process_import, new_resolver, resolve, parse_json_config,
}
use jibs.Client.Json.Sections.{
  each, process_fakers, process_relations, process_excludes, process_ignores,
  process_ignore_relations, process_anonymize, process_aggregates, process_includes,
  process_preserves, process_sets, process_after, add_faker, add_anonymize_rules, add_set,
  assignment_of, find_aggregate,
}
use jibs.Client.Statements.Parts.{collect}
use jibs.Client.Json.Values.{is_admitted}
use jibs.Client.Json.Patterns.Rules.{
  Patterns, patterns_of, of_state, Leads, Leads-bind, Leads-err, Leads-ok, Leads-then, Leads-lift,
  Leads-at,
}
use jibs.Client.Json.Patterns.Sections.{sections-Leads}

module _ (floats : Floats) (host : JsonHost) where
  settle-Leads :
      (name : Bytes) (p : Pending) (given : Option Value) (s : JsonResolver)
      → Leads of_state (of_state s) (settle floats host name p given s)
  unfolding settle set_variable
  settle-Leads name (ty, default) (some v) s = Leads-bind _ _ _ _ (λ _. Leads-ok _ _ _ _ refl)
  settle-Leads name (ty, some default) none s = Leads-bind _ _ _ _ (λ _. Leads-ok _ _ _ _ refl)
  settle-Leads name (ty, none) none s = Leads-err _ _ _

  settle_all-Leads :
      (vars : Dict Pending) (s : JsonResolver)
      → Leads of_state (of_state s) (settle_all floats host vars s)
  unfolding settle_all
  settle_all-Leads [] s = Leads-ok _ _ _ s refl
  settle_all-Leads ((name, p) ∷ rest) s =
      Leads-then of_state of_state _ _ _ (settle-Leads name p (lookup name s.variables) s)
        (settle_all-Leads rest)

  with_sections-Leads :
      (config : JsonConfig) (s : JsonResolver)
      → Leads of_state (of_state s) (with_sections floats host config s)
  with_sections-Leads config s =
      Leads-then patterns_of of_state _ _ _ (sections-Leads floats host s.variables config s.plan)
        (λ p. Leads-ok _ _ _ (record s { plan = p }) refl)

  module _ (f : Bytes → JsonResolver → Result Stop JsonResolver)
      (h : (path : Bytes) (s : JsonResolver) → Leads of_state (of_state s) (f path s)) where
    imports_of-Leads :
        (imports : List JsonImport) (s : JsonResolver)
        → Leads of_state (of_state s) (imports_of floats host f imports s)
    unfolding imports_of
    imports_of-Leads [] s = Leads-ok _ _ _ s refl
    imports_of-Leads (i ∷ rest) s = elim (Result-cases (is_admitted s.variables i.condition)) [
      | inr (_, e) ↦ rw e (Leads-err _ _ _)
      | inl (false, e) ↦ rw e (imports_of-Leads rest s)
      | inl (true, e) ↦
          rw e (Leads-then of_state of_state _ _ _ (h i.path s) (imports_of-Leads rest))
    ]

    import_json-Leads :
        (path : Bytes) (config : JsonConfig) (s : JsonResolver)
        → Leads of_state (of_state s) (import_json floats host f path config s)
    unfolding import_json
    import_json-Leads path config s =
        Leads-then of_state of_state _ _ _
          (imports_of-Leads config.imports (record s { base_path = path }))
          λ u.
            Leads-then of_state of_state _ _ _
              (Leads-lift of_state _ _ (
                with_sections-Leads config
                  (record u { pending_vars = collect_vars config.variable u.pending_vars })))
              (λ t. Leads-ok _ _ _ (record t { base_path = s.base_path }) refl)

  module _ (checked : Bool) (dsl_host : Host) where
    import_program-Leads :
        (fuel : ℕ) (import_path path : Bytes) (program : Program) (s : JsonResolver)
        → Leads of_state
            (of_state s)
            (import_program floats host checked dsl_host fuel import_path path program s)
    unfolding import_program merge_plan
    import_program-Leads fuel import_path path program s =
        Leads-bind _ _ _ _ (λ _. Leads-ok _ _ _ _ refl)

    import_file-Leads :
        (f : Bytes → JsonResolver → Result Stop JsonResolver) (fuel : ℕ) (import_path path : Bytes)
        (s : JsonResolver)
        → ((p : Bytes) (u : JsonResolver) → Leads of_state (of_state u) (f p u))
        → Leads of_state
            (of_state s)
            (import_file floats host checked dsl_host f fuel import_path path s)
    unfolding import_file
    import_file-Leads f fuel import_path path s h =
        elim (Result-cases (dsl_host.read_to_string path)) [
          | inr (_, e) ↦ rw (e, import_file) (Leads-err _ _ _)
          | inl (content, e) ↦ elim (Bool-cases (bytes_eq (host.extension path) (codes "json"))) [
            | inl json ↦ elim (Result-cases (host.from_str content)) [
              | inr (_, d) ↦ rw (e, json, d, import_file) (Leads-err _ _ _)
              | inl (config, d) ↦
                  rw (e, json, d, import_file)
                    (import_json-Leads f h path config
                      (record s { imported_files = insert path s.imported_files }))
            ]
            | inr other ↦ elim (Result-cases (parse_source floats checked content)) [
              | inr (_, d) ↦ rw (e, other, d, import_file) (Leads-err _ _ _)
              | inl (program, d) ↦
                  rw (e, other, d, import_file)
                    (import_program-Leads fuel import_path path program
                      (record s { imported_files = insert path s.imported_files }))
            ]
          ]
        ]

    process_import-Leads :
        (fuel : ℕ) (path : Bytes) (s : JsonResolver)
        → Leads of_state (of_state s) (process_import floats host checked dsl_host fuel path s)
    unfolding process_import
    process_import-Leads zero path s = Leads-err _ _ _
    process_import-Leads (suc fuel) path s =
        elim (Result-cases (dsl_host.canonicalize (dsl_host.import_file s.base_path path))) [
          | inr (_, e) ↦ rw (e, process_import) (Leads-err _ _ _)
          | inl (file, e) ↦ elim (Bool-cases (contains s.imported_files file)) [
            | inl old ↦ rw (e, old, process_import) (Leads-ok _ _ _ s refl)
            | inr new ↦
                rw (e, new, process_import)
                  (import_file-Leads (process_import floats host checked dsl_host fuel) fuel path
                    file s (process_import-Leads fuel))
          ]
        ]

    resolve-Leads :
        (fuel : ℕ) (config : JsonConfig) (s : JsonResolver)
        → Leads patterns_of (of_state s) (resolve floats host checked dsl_host fuel config s)
    unfolding resolve finalize_variables
    resolve-Leads fuel config s =
        Leads-then of_state patterns_of _ _ _
          (imports_of-Leads (process_import floats host checked dsl_host fuel)
            (process_import-Leads fuel) config.imports s)
          λ u.
            Leads-then of_state patterns_of _ _ _
              (Leads-lift of_state _ _ (
                settle_all-Leads (host.pending_order (collect_vars config.variable u.pending_vars))
                  (record u { pending_vars = collect_vars config.variable u.pending_vars })))
              λ t. Leads-lift patterns_of _ _ (sections-Leads floats host t.variables config t.plan)

    parse_json_config-Leads :
        (fuel : ℕ) (config_path : Bytes) (cli_vars : Dict Bytes)
        → Leads patterns_of
            ([], [], [], [])
            (parse_json_config floats host checked dsl_host fuel config_path cli_vars)
    unfolding parse_json_config new_resolver
    parse_json_config-Leads fuel config_path cli_vars =
        elim (Result-cases (dsl_host.read_to_string config_path)) [
          | inr (_, e) ↦ rw (e, parse_json_config) (Leads-err _ _ _)
          | inl (content, e) ↦ elim (Result-cases (host.from_str content)) [
            | inr (_, d) ↦ rw (e, d, parse_json_config) (Leads-err _ _ _)
            | inl (config, d) ↦
                rw (e, d, parse_json_config)
                  (resolve-Leads fuel config
                    (new_resolver floats host checked dsl_host config_path cli_vars))
          ]
        ]

-- The plan that `parse_json_config` returns has no pattern of tables to exclude, to ignore or to
-- import in full, and names no table to import in full, whatever the config imports: what an imported
-- config of the other language says of those is lost. The exclude patterns of aggregates are not
-- meant.
pub parse_json_config-patterns :
    (floats : Floats) (host : JsonHost) (checked : Bool) (dsl_host : Host) (fuel : ℕ)
    (config_path : Bytes) (cli_vars : Dict Bytes) (plan : ExecutionPlan)
    → parse_json_config floats host checked dsl_host fuel config_path cli_vars ≡ ok plan
    → patterns_of plan ≡ ([], [], [], [])
parse_json_config-patterns floats host checked dsl_host fuel config_path cli_vars plan =
    Leads-at _ _ _ plan
      (parse_json_config-Leads floats host checked dsl_host fuel config_path cli_vars)
