-- ===== src/Client/Json/Patterns/Sections.antt =====
-- The sections of a JSON config leave the patterns of the plan as they are.
use jibs.Prelude.{true, false, List, [], ◌∷◌, Option, none, refl, Bytes, inl, inr, Option-cases}
use jibs.Prelude.Dict.{Dict}
use jibs.Prelude.Result.{Result, ◌>>=◌, Result-cases}
use jibs.Protocol.Plan.{ExecutionPlan, Value}
use jibs.Client.Error.{Failure}
use jibs.Client.Eval.{Floats}
use jibs.Client.Json.Config.{
  JsonConfig, JsonRelation, JsonFakers, JsonAnonymizeBlocks, JsonInclude, JsonAnonymizeRule,
  JsonFaker, JsonAnonymizeBlock, JsonTableRef, JsonAggregate, JsonPreserve, JsonSet, JsonAfter,
}
use jibs.Client.Json.State.{JsonHost}
use jibs.Client.Json.Resolver.{process_sections}
use jibs.Client.Json.Sections.{
  each, process_fakers, process_relations, process_excludes, process_ignores,
  process_ignore_relations, process_anonymize, process_aggregates, process_includes,
  process_preserves, process_sets, process_after, add_faker, add_anonymize_rules, add_set,
  assignment_of, find_aggregate,
}
use jibs.Client.Statements.Parts.{collect}
use jibs.Client.Json.Values.{is_admitted}
use jibs.Client.Json.Patterns.Rules.{
  patterns_of, Leads, Leads-bind, Leads-err, Leads-ok, Leads-then,
}

each-Leads :
    {A : Type 0} (vars : Dict Value) (condition : A → Option Bytes)
    (step : ExecutionPlan → A → Result Failure ExecutionPlan) (plan : ExecutionPlan) (xs : List A)
    → ((p : ExecutionPlan) (x : A) → Leads patterns_of (patterns_of p) (step p x))
    → Leads patterns_of (patterns_of plan) (each vars condition step plan xs)
unfolding each
each-Leads vars condition step plan [] h = Leads-ok _ _ _ plan refl
each-Leads vars condition step plan (x ∷ xs) h =
    elim (Result-cases (is_admitted vars (condition x))) [
      | inr (_, e) ↦ rw e (Leads-err _ _ _)
      | inl (false, e) ↦ rw e (each-Leads vars condition step plan xs h)
      | inl (true, e) ↦ rw e (
          Leads-then patterns_of patterns_of _ _ _ (h plan x)
            (λ p. each-Leads vars condition step p xs h))
    ]

module _ (floats : Floats) (host : JsonHost) (vars : Dict Value) where
  add_faker-Leads :
      (name : Bytes) (values : List Bytes) (p : ExecutionPlan)
      → Leads patterns_of (patterns_of p) (add_faker floats host.is_alphanumeric vars name values p)
  unfolding add_faker
  add_faker-Leads name values p = Leads-bind _ _ _ _ (λ _. Leads-ok _ _ _ _ refl)

  process_fakers-Leads :
      (p : ExecutionPlan) (fakers : JsonFakers)
      → Leads patterns_of (patterns_of p) (process_fakers floats host.is_alphanumeric vars p fakers)
  unfolding process_fakers
  process_fakers-Leads p (JsonFakers.map_of entries) =
      each-Leads vars (λ _. none) _ p entries (λ q entry. add_faker-Leads entry.0 entry.1 q)
  process_fakers-Leads p (JsonFakers.array_of entries) =
      each-Leads vars (λ (f : JsonFaker). f.condition) _ p entries
        (λ q f. add_faker-Leads f.name f.faker_values q)
  process_fakers-Leads p JsonFakers.no_faker = Leads-ok _ _ _ p refl

  add_anonymize_rules-Leads :
      (table : Bytes) (rules : List JsonAnonymizeRule) (p : ExecutionPlan)
      → Leads patterns_of (patterns_of p) (add_anonymize_rules table rules p)
  unfolding add_anonymize_rules
  add_anonymize_rules-Leads table rules p = Leads-bind _ _ _ _ (λ _. Leads-ok _ _ _ _ refl)

  process_anonymize-Leads :
      (p : ExecutionPlan) (blocks : JsonAnonymizeBlocks)
      → Leads patterns_of (patterns_of p) (process_anonymize vars p blocks)
  unfolding process_anonymize
  process_anonymize-Leads p (JsonAnonymizeBlocks.map_of entries) =
      each-Leads vars (λ _. none) _ p entries
        (λ q entry. add_anonymize_rules-Leads entry.0 entry.1 q)
  process_anonymize-Leads p (JsonAnonymizeBlocks.array_of entries) =
      each-Leads vars (λ (b : JsonAnonymizeBlock). b.condition) _ p entries
        (λ q b. add_anonymize_rules-Leads b.table b.rules q)
  process_anonymize-Leads p JsonAnonymizeBlocks.no_block = Leads-ok _ _ _ p refl

  process_includes-Leads :
      (p : ExecutionPlan) (incls : List JsonInclude)
      → Leads patterns_of
          (patterns_of p)
          (process_includes floats host.is_alphanumeric vars p incls)
  unfolding process_includes
  process_includes-Leads p incls = each-Leads vars _ _ p incls λ q incl.
      elim (Option-cases (find_aggregate incl.aggregate q.aggregates)) [
        | inl e ↦ rw e (Leads-ok _ _ _ q refl)
        | inr (_, e) ↦ rw e (Leads-bind _ _ _ _ (λ _. Leads-ok _ _ _ _ refl))
      ]

  process_relations-Leads :
      (p : ExecutionPlan) (entries : List JsonRelation)
      → Leads patterns_of (patterns_of p) (process_relations vars p entries)
  unfolding process_relations
  process_relations-Leads p entries =
      each-Leads vars _ _ p entries (λ q x. Leads-bind _ _ _ _ (λ _. Leads-ok _ _ _ _ refl))

  process_ignore_relations-Leads :
      (p : ExecutionPlan) (entries : List JsonRelation)
      → Leads patterns_of (patterns_of p) (process_ignore_relations vars p entries)
  unfolding process_ignore_relations
  process_ignore_relations-Leads p entries =
      each-Leads vars _ _ p entries (λ q x. Leads-bind _ _ _ _ (λ _. Leads-ok _ _ _ _ refl))

  process_excludes-Leads :
      (p : ExecutionPlan) (entries : List JsonTableRef)
      → Leads patterns_of (patterns_of p) (process_excludes vars p entries)
  unfolding process_excludes
  process_excludes-Leads p entries = each-Leads vars _ _ p entries (λ q x. Leads-ok _ _ _ _ refl)

  process_ignores-Leads :
      (p : ExecutionPlan) (entries : List JsonTableRef)
      → Leads patterns_of (patterns_of p) (process_ignores vars p entries)
  unfolding process_ignores
  process_ignores-Leads p entries = each-Leads vars _ _ p entries (λ q x. Leads-ok _ _ _ _ refl)

  process_aggregates-Leads :
      (p : ExecutionPlan) (entries : List JsonAggregate)
      → Leads patterns_of
          (patterns_of p)
          (process_aggregates floats host.is_alphanumeric vars p entries)
  unfolding process_aggregates
  process_aggregates-Leads p entries =
      each-Leads vars _ _ p entries (λ q x. Leads-bind _ _ _ _ (λ _. Leads-ok _ _ _ _ refl))

  process_preserves-Leads :
      (p : ExecutionPlan) (entries : List JsonPreserve)
      → Leads patterns_of
          (patterns_of p)
          (process_preserves floats host.is_alphanumeric vars p entries)
  unfolding process_preserves
  process_preserves-Leads p entries =
      each-Leads vars _ _ p entries (λ q x. Leads-bind _ _ _ _ (λ _. Leads-ok _ _ _ _ refl))

  add_set-Leads :
      (p : ExecutionPlan) (s : JsonSet)
      → Leads patterns_of (patterns_of p) (add_set floats host.is_alphanumeric vars p s)
  unfolding add_set
  add_set-Leads p s =
      Leads-bind _ _ (collect (assignment_of floats host.is_alphanumeric vars) s.match_clause) _
        λ _.
          Leads-bind _ _ (collect (assignment_of floats host.is_alphanumeric vars) s.assigned) _
            (λ _. Leads-ok _ _ _ _ refl)

  process_sets-Leads :
      (p : ExecutionPlan) (entries : List JsonSet)
      → Leads patterns_of (patterns_of p) (process_sets floats host.is_alphanumeric vars p entries)
  unfolding process_sets
  process_sets-Leads p entries =
      each-Leads vars (λ (s : JsonSet). s.condition) _ p entries add_set-Leads

  process_after-Leads :
      (p : ExecutionPlan) (entries : List JsonAfter)
      → Leads patterns_of (patterns_of p) (process_after floats host.is_alphanumeric vars p entries)
  unfolding process_after
  process_after-Leads p entries =
      each-Leads vars _ _ p entries (λ q x. Leads-bind _ _ _ _ (λ _. Leads-ok _ _ _ _ refl))

  -- The sections behind the ignored relations.
  late_sections-Leads :
      (config : JsonConfig) (p5 : ExecutionPlan)
      → Leads patterns_of (patterns_of p5) (
          process_anonymize vars p5 config.anonymize >>= λ p6.
          process_aggregates floats host.is_alphanumeric vars p6 config.aggregate >>= λ p7.
          process_includes floats host.is_alphanumeric vars p7 config.includes >>= λ p8.
          process_preserves floats host.is_alphanumeric vars p8 config.preserve >>= λ p9.
          process_sets floats host.is_alphanumeric vars p9 config.sets >>= λ p10.
          process_after floats host.is_alphanumeric vars p10 config.after)
  late_sections-Leads config p5 =
      Leads-then patterns_of patterns_of _ _ _ (process_anonymize-Leads p5 config.anonymize) λ p6.
        Leads-then patterns_of patterns_of _ _ _ (process_aggregates-Leads p6 config.aggregate)
          λ p7.
            Leads-then patterns_of patterns_of _ _ _ (process_includes-Leads p7 config.includes)
              λ p8.
                Leads-then patterns_of patterns_of _ _ _
                  (process_preserves-Leads p8 config.preserve)
                  λ p9.
                    Leads-then patterns_of patterns_of _ _ _ (process_sets-Leads p9 config.sets)
                      λ p10. process_after-Leads p10 config.after

  pub sections-Leads :
      (config : JsonConfig) (p : ExecutionPlan)
      → Leads patterns_of (patterns_of p) (process_sections floats host vars config p)
  unfolding process_sections
  sections-Leads config p =
      Leads-then patterns_of patterns_of _ _ _ (process_fakers-Leads p config.faker) λ p1.
        Leads-then patterns_of patterns_of _ _ _ (process_relations-Leads p1 config.relation) λ p2.
          Leads-then patterns_of patterns_of _ _ _ (process_excludes-Leads p2 config.exclude) λ p3.
            Leads-then patterns_of patterns_of _ _ _ (process_ignores-Leads p3 config.ignore) λ p4.
              Leads-then patterns_of patterns_of _ _ _
                (process_ignore_relations-Leads p4 config.ignore_relation)
                λ p5. late_sections-Leads config p5
