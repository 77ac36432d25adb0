-- ===== src/Client/Json/Sections.antt =====
-- crates/client/src/json_config.rs: what the sections of a JSON config add to the plan.
--
-- A function gets the values of the variables, the plan and a section, and returns the plan behind it.
use jibs.Prelude.{
  ℕ, Bool, true, false, List, [], ◌∷◌, ◌++◌, map, Option, none, some, if◌then◌else◌, Bytes,
  bytes_eq, codes, ◌==◌, insert, length,
}
use jibs.Prelude.Decimal.{decimal}
use jibs.Prelude.Dict
use jibs.Prelude.Dict.{Dict, lookup}
use jibs.Prelude.Int.{ℤ}
use jibs.Prelude.Result.{Result, ok, err, ◌>>=◌}
use jibs.Protocol.Plan
use jibs.Protocol.Plan.{
  ExecutionPlan, ResolvedAggregate, Relation, SortDirection, asc, desc, AnonymizeRule,
  AnonymizeTarget, Assignment,
}
use jibs.Protocol.Plan.Accessors.{as_int}
use jibs.Client.Error.{parse, Failure, client}
use jibs.Client.Eval.{Floats, get_variable}
use jibs.Client.Resolver.State.{lower}
use jibs.Client.Statements.Parts.{collect, optionally}
use jibs.Client.Json.Config.{
  Json, JsonFaker, JsonFakers, JsonAnonymizeRule, JsonAnonymizeBlock, JsonAnonymizeBlocks,
  JsonRelation, JsonTableRef, JsonOrderBy, JsonLimit, JsonAggregate, JsonInclude, JsonPreserve,
  JsonSet, JsonAfter,
}
use jibs.Client.Json.Values.{interpolated, is_admitted, json_value_to_protocol_value}

-- A loop over the entries of a section: an entry whose condition does not hold is skipped.
unfoldable pub each {ℓ} :
    {A : Type ℓ}
    → Dict Plan.Value
    → (A → Option Bytes)
    → (ExecutionPlan → A → Result Failure ExecutionPlan)
    → ExecutionPlan
    → List A
    → Result Failure ExecutionPlan
each vars condition step plan [] = ok plan
each vars condition step plan (x ∷ xs) = is_admitted vars (condition x) >>= λ admitted.
    (if admitted then step plan x else ok plan) >>= λ next. each vars condition step next xs

-- The parts of a text between dots.
unfoldable pub split_dots : Bytes → List Bytes
split_dots [] = [] ∷ []
split_dots (c ∷ s) = elim (split_dots s) [
  | [] ↦ [] ∷ []
  | part ∷ parts ↦ if c == b'.' then [] ∷ part ∷ parts else (c ∷ part) ∷ parts
]

abbrev two_parts : Bytes → List Bytes → Result Failure (Bytes × Bytes)
two_parts s (table ∷ column ∷ []) = ok (table, column)
two_parts s _ = err (
    client
      (parse (codes "Invalid column reference '" ++ (s ++ codes "', expected 'table.column'"))))

unfoldable pub parse_column_ref : Bytes → Result Failure (Bytes × Bytes)
unfolding split_dots
parse_column_ref s = two_parts s (split_dots s)

unfoldable pub relation_of : JsonRelation → Result Failure Relation
unfolding parse_column_ref
relation_of rel = parse_column_ref rel.source >>= λ source.
    parse_column_ref rel.target >>= λ target. ok (record {
      from_table = source.0;
      from_column = source.1;
      to_table = target.0;
      to_column = target.1;
    })

unfoldable pub process_relations :
    Dict Plan.Value → ExecutionPlan → List JsonRelation → Result Failure ExecutionPlan
unfolding each relation_of
process_relations vars =
    each vars (λ (r : JsonRelation). r.condition)
      λ plan rel. relation_of rel >>= λ r. ok (record plan { relations = plan.relations ++ r ∷ [] })

unfoldable pub process_ignore_relations :
    Dict Plan.Value → ExecutionPlan → List JsonRelation → Result Failure ExecutionPlan
unfolding each relation_of
process_ignore_relations vars =
    each vars (λ (r : JsonRelation). r.condition)
      λ plan rel. relation_of rel >>= λ r.
        ok (record plan { ignored_relations = plan.ignored_relations ++ r ∷ [] })

unfoldable pub process_excludes :
    Dict Plan.Value → ExecutionPlan → List JsonTableRef → Result Failure ExecutionPlan
unfolding each
process_excludes vars =
    each vars (λ (t : JsonTableRef). t.condition)
      λ plan t. ok (record plan { excluded_tables = insert t.table plan.excluded_tables })

unfoldable pub process_ignores :
    Dict Plan.Value → ExecutionPlan → List JsonTableRef → Result Failure ExecutionPlan
unfolding each
process_ignores vars =
    each vars (λ (t : JsonTableRef). t.condition)
      λ plan t. ok (record plan { ignored_tables = insert t.table plan.ignored_tables })

pub no_target : Bytes → JsonAnonymizeRule → Failure
no_target table rule = client (
    parse (
      codes "Anonymize rule for "
      ++ (table ++ (codes "." ++ (rule.column ++ codes " must specify 'faker' or 'null: true'")))))

abbrev target_of :
    Bytes → JsonAnonymizeRule → Option Bool → Option Bytes → Result Failure AnonymizeTarget
target_of table rule (some true) faker = ok Plan.to_null
target_of table rule _ (some faker) = ok (Plan.faker faker)
target_of table rule _ none = err (no_target table rule)

unfoldable pub rule_of : Bytes → JsonAnonymizeRule → Result Failure AnonymizeRule
unfolding no_target
rule_of table rule = target_of table rule rule.to_null rule.faker >>= λ target.
    ok (record { column = rule.column; target = target })

-- `entry(key).or_default()`
abbrev pub or_empty {ℓ} : {A : Type ℓ} → Option (List A) → List A
or_empty none = []
or_empty (some xs) = xs

-- `entry(table).or_default().extend(rules)`
unfoldable pub extend_rules :
    Bytes → List AnonymizeRule → Dict (List AnonymizeRule) → Dict (List AnonymizeRule)
unfolding lookup
extend_rules table rules m = Dict.insert table (or_empty (lookup table m) ++ rules) m

unfoldable pub add_anonymize_rules :
    Bytes → List JsonAnonymizeRule → ExecutionPlan → Result Failure ExecutionPlan
unfolding rule_of collect extend_rules
add_anonymize_rules table rules plan = collect (rule_of table) rules >>= λ resolved.
    ok (record plan { anonymization = extend_rules table resolved plan.anonymization })

unfoldable pub process_anonymize :
    Dict Plan.Value → ExecutionPlan → JsonAnonymizeBlocks → Result Failure ExecutionPlan
unfolding each add_anonymize_rules
process_anonymize vars plan (JsonAnonymizeBlocks.map_of entries) =
    each vars (λ _. none)
      (λ p (entry : Bytes × List JsonAnonymizeRule). add_anonymize_rules entry.0 entry.1 p) plan
      entries
process_anonymize vars plan (JsonAnonymizeBlocks.array_of blocks) =
    each vars (λ (b : JsonAnonymizeBlock). b.condition)
      (λ p b. add_anonymize_rules b.table b.rules p) plan blocks
process_anonymize vars plan JsonAnonymizeBlocks.no_block = ok plan

-- The direction by its name, ascending for an unknown one.
unfoldable pub direction_of : Bytes → SortDirection
direction_of word = if bytes_eq (map lower word) (codes "desc") then desc else asc

abbrev order_of : Option JsonOrderBy → Option Bytes × Option SortDirection
order_of none = (none, none)
order_of (some (JsonOrderBy.simple column)) = (some column, none)
order_of (some (JsonOrderBy.full column none)) = (some column, none)
order_of (some (JsonOrderBy.full column (some word))) = (some column, some (direction_of word))

abbrev without_dollar : Bytes → Bytes
without_dollar [] = []
without_dollar (c ∷ s) = if c == b'$' then s else c ∷ s

unfoldable pub limit_of : Dict Plan.Value → Option JsonLimit → Result Failure (Option ℤ)
unfolding get_variable as_int
limit_of vars none = ok none
limit_of vars (some (JsonLimit.number n)) = ok (some n)
limit_of vars (some (JsonLimit.variable name)) =
    get_variable vars (without_dollar name) >>= λ value. ok (as_int value)

-- The first aggregate with the name.
unfoldable pub find_aggregate : Bytes → List ResolvedAggregate → Option ResolvedAggregate
find_aggregate name [] = none
find_aggregate name (a ∷ rest) = if bytes_eq a.name name then some a else find_aggregate name rest

-- The clause of an include, in place of the aggregate's.
abbrev own_clause : Option Bytes → Option Bytes → Option Bytes
own_clause none existing = existing
own_clause (some clause) existing = some clause

module _ (floats : Floats) (is_alphanumeric : ℕ → Bool) (vars : Dict Plan.Value) where
  abbrev text : Bytes → Result Failure Bytes
  text s = interpolated floats is_alphanumeric vars s

  -- `self.plan.fakers.insert(name, resolved)`
  unfoldable pub add_faker : Bytes → List Bytes → ExecutionPlan → Result Failure ExecutionPlan
  unfolding collect
  add_faker name values plan = collect text values >>= λ resolved.
      ok (record plan { fakers = Dict.insert name resolved plan.fakers })

  unfoldable pub process_fakers : ExecutionPlan → JsonFakers → Result Failure ExecutionPlan
  unfolding each add_faker
  process_fakers plan (JsonFakers.map_of entries) =
      each vars (λ _. none) (λ p (entry : Bytes × List Bytes). add_faker entry.0 entry.1 p) plan
        entries
  process_fakers plan (JsonFakers.array_of fakers) =
      each vars (λ (f : JsonFaker). f.condition) (λ p f. add_faker f.name f.faker_values p) plan
        fakers
  process_fakers plan JsonFakers.no_faker = ok plan

  unfoldable pub aggregate_of : JsonAggregate → Result Failure ResolvedAggregate
  unfolding limit_of direction_of
  aggregate_of agg = optionally text agg.where_clause >>= λ clause.
      limit_of vars agg.limit >>= λ limit. ok (record {
        name = agg.name;
        root_table = agg.root;
        where_clause = clause;
        order_by = (order_of agg.order_by).0;
        order_direction = (order_of agg.order_by).1;
        limit = limit;
        exclude_tables = [];
        exclude_patterns = [];
        root_only = false;
      })

  unfoldable pub process_aggregates :
      ExecutionPlan → List JsonAggregate → Result Failure ExecutionPlan
  unfolding each aggregate_of
  process_aggregates =
      each vars (λ (a : JsonAggregate). a.condition)
        λ plan agg.
          aggregate_of agg >>= λ a. ok (record plan { aggregates = plan.aggregates ++ a ∷ [] })

  -- A copy of the aggregate, if there is one of that name.
  abbrev include_in :
      ExecutionPlan → JsonInclude → Option ResolvedAggregate → Result Failure ExecutionPlan
  include_in plan incl none = ok plan
  include_in plan incl (some existing) = optionally text incl.where_clause >>= λ clause.
      ok (record plan {
        aggregates =
            plan.aggregates
            ++ record existing {
              name = incl.aggregate ++ (codes "_include_" ++ decimal (length plan.aggregates));
              where_clause = own_clause clause existing.where_clause;
            }
              ∷ [];
      })

  unfoldable pub process_includes : ExecutionPlan → List JsonInclude → Result Failure ExecutionPlan
  unfolding each find_aggregate decimal
  process_includes =
      each vars (λ (i : JsonInclude). i.condition)
        λ plan incl. include_in plan incl (find_aggregate incl.aggregate plan.aggregates)

  unfoldable pub process_preserves :
      ExecutionPlan → List JsonPreserve → Result Failure ExecutionPlan
  unfolding each
  process_preserves =
      each vars (λ (p : JsonPreserve). p.condition)
        λ plan p. text p.where_clause >>= λ clause. ok (record plan {
          preserves = plan.preserves ++ record { table = p.table; where_clause = clause } ∷ [];
        })

  unfoldable pub assignment_of : Bytes × Json → Result Failure Assignment
  unfolding json_value_to_protocol_value
  assignment_of (column, json) =
      json_value_to_protocol_value floats is_alphanumeric vars json >>= λ value.
      ok (record { column = column; value = value })

  unfoldable pub add_set : ExecutionPlan → JsonSet → Result Failure ExecutionPlan
  unfolding assignment_of collect
  add_set plan s = collect assignment_of s.match_clause >>= λ matches.
      collect assignment_of s.assigned >>= λ assignments. ok (record plan {
        sets =
            plan.sets
            ++ record { table = s.table; match_clause = matches; assignments = assignments } ∷ [];
      })

  unfoldable pub process_sets : ExecutionPlan → List JsonSet → Result Failure ExecutionPlan
  unfolding each add_set
  process_sets = each vars (λ (s : JsonSet). s.condition) add_set

  unfoldable pub process_after : ExecutionPlan → List JsonAfter → Result Failure ExecutionPlan
  unfolding each
  process_after =
      each vars (λ (a : JsonAfter). a.condition)
        λ plan stmt. text stmt.sql >>= λ sql.
          ok (record plan { after_statements = plan.after_statements ++ sql ∷ [] })
