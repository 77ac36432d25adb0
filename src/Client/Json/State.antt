-- ===== src/Client/Json/State.antt =====
-- crates/client/src/json_config.rs: the state of `JsonResolver`, and the merge of another plan.
use jibs.Prelude.{ℕ, Bool, List, [], ◌∷◌, ◌++◌, Option, none, some, Bytes, codes, insert}
use jibs.Prelude.Dict
use jibs.Prelude.Dict.{Dict, lookup}
use jibs.Prelude.Result.{Result, ok, err}
use jibs.Parser.Chars.{Chars}
use jibs.Protocol.Plan.{ExecutionPlan, Value, AnonymizeRule}
use jibs.Protocol.Plan.Accessors.{as_string}
use jibs.Client.Error.{parse, display, client, panicked, Stop, failed, out_of_fuel}
use jibs.Client.Json.Config.{Json, JsonVariable, JsonConfig}
use jibs.Client.Json.Sections.{extend_rules}

-- A declaration: its type by name, and its default.
abbrev pub Pending : Type 0
Pending = Bytes × Option Json

pub record JsonHost : Type 0 where
  pub from_str : Chars → Result Bytes JsonConfig
  pub extension : Bytes → Bytes
  pub is_alphanumeric : ℕ → Bool
  pub pending_order : Dict Pending → Dict Pending

pub record JsonResolver : Type 0 where
  pub base_path : Bytes
  pub imported_files : List Bytes
  pub variables : Dict Value
  pub pending_vars : Dict Pending
  pub plan : ExecutionPlan

-- `entry(k).or_insert(v)`, for the entries of another map.
unfoldable pub or_insert_all {ℓ} : {V : Type ℓ} → Dict V → Dict V → Dict V
unfolding lookup
or_insert_all m [] = m
or_insert_all m ((k, v) ∷ entries) = elim (lookup k m) [
  | none ↦ or_insert_all (Dict.insert k v m) entries
  | some _ ↦ or_insert_all m entries
]

-- `HashSet::extend`
unfoldable pub insert_all : List Bytes → List Bytes → List Bytes
insert_all set [] = set
insert_all set (x ∷ xs) = insert_all (insert x set) xs

unfoldable pub extend_all :
    Dict (List AnonymizeRule) → Dict (List AnonymizeRule) → Dict (List AnonymizeRule)
unfolding extend_rules
extend_all m [] = m
extend_all m ((table, rules) ∷ entries) = extend_all (extend_rules table rules m) entries

-- `merge_plan`
unfoldable pub merge_plan : ExecutionPlan → ExecutionPlan → ExecutionPlan
unfolding or_insert_all insert_all extend_all
merge_plan plan other = record plan {
  variables = or_insert_all plan.variables other.variables;
  relations = plan.relations ++ other.relations;
  ignored_relations = plan.ignored_relations ++ other.ignored_relations;
  aggregates = plan.aggregates ++ other.aggregates;
  excluded_tables = insert_all plan.excluded_tables other.excluded_tables;
  ignored_tables = insert_all plan.ignored_tables other.ignored_tables;
  anonymization = extend_all plan.anonymization other.anonymization;
  fakers = or_insert_all plan.fakers other.fakers;
  preserves = plan.preserves ++ other.preserves;
  sets = plan.sets ++ other.sets;
  after_statements = plan.after_statements ++ other.after_statements;
}

unfoldable pub collect_vars : List JsonVariable → Dict Pending → Dict Pending
collect_vars [] pending = pending
collect_vars (v ∷ vars) pending =
    collect_vars vars (Dict.insert v.name (v.var_type, v.default) pending)

-- `self.variables.insert` and `self.plan.variables.insert`
unfoldable pub set_variable : Bytes → Value → JsonResolver → JsonResolver
set_variable name value s = record s {
  variables = Dict.insert name value s.variables;
  plan = record s.plan { variables = Dict.insert name value s.plan.variables };
}

-- The values of the variables as texts.
unfoldable pub texts_of : (ℕ → Bytes) → Dict Value → Dict Bytes
unfolding as_string
texts_of format_f64 [] = []
texts_of format_f64 ((k, v) ∷ vars) = (k, as_string format_f64 v) ∷ texts_of format_f64 vars

-- An error of the other resolver.
abbrev pub in_file {ℓ} : {A : Type ℓ} → Bytes → Result Stop A → Result Stop A
in_file path (ok a) = ok a
in_file path (err (failed (client e))) = err (
    failed (client (parse (codes "Resolution error in '" ++ (path ++ (codes "': " ++ display e))))))
in_file path (err (failed panicked)) = err (failed panicked)
in_file path (err Stop.out_of_fuel) = err out_of_fuel
