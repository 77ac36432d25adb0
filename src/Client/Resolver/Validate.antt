-- ===== src/Client/Resolver/Validate.antt =====
-- crates/client/src/resolver.rs: `validate_plan`, the checks of a whole plan.
use jibs.Prelude.{Bool, true, List, [], ◌∷◌, ◌++◌, map, none, some, if◌then◌else◌, Bytes, codes}
use jibs.Prelude.Dict.{Dict, lookup, has_key}
use jibs.Prelude.Result.{Result, ok, err, ◌>>=◌}
use jibs.Protocol.Plan
use jibs.Protocol.Plan.{ExecutionPlan, empty_plan, Value, AnonymizeRule, AnonymizeTarget}
use jibs.Client.Error.{resolution, Failure, client}
use jibs.Client.Resolver.State.{Host}
use jibs.Client.Statements.Parts.{ResolvedGetFunction}

-- The faker of a rule, if it is defined.
abbrev pub defines : ExecutionPlan → AnonymizeTarget → Bool
defines plan (Plan.faker name) = has_key name plan.fakers
defines plan Plan.to_null = true

abbrev pub faker_name : AnonymizeTarget → Bytes
faker_name (Plan.faker name) = name
faker_name Plan.to_null = []

pub undefined_faker : Bytes → AnonymizeRule → Failure
undefined_faker table rule = client (
    resolution (
      codes "anonymize rule for "
      ++ (table
          ++ (codes "."
              ++ (rule.column
                  ++ (codes " references undefined faker '"
                      ++ (faker_name rule.target ++ codes "'")))))))

unfoldable pub check_rules : ExecutionPlan → Bytes → List AnonymizeRule → Result Failure (Unit {0})
unfolding lookup undefined_faker
check_rules plan table [] = ok tt
check_rules plan table (rule ∷ rules) =
    if defines plan rule.target
    then check_rules plan table rules
    else err (undefined_faker table rule)

unfoldable pub check_tables : ExecutionPlan → Dict (List AnonymizeRule) → Result Failure (Unit {0})
unfolding check_rules
check_tables plan [] = ok tt
check_tables plan ((table, rules) ∷ rest) =
    check_rules plan table rules >>= λ _. check_tables plan rest

-- The patterns of a plan, each with its context.
abbrev pub in_context : Bytes → List Bytes → List (Bytes × Bytes)
in_context context patterns = map (λ p. (context, p)) patterns

unfoldable pub aggregate_patterns : List Plan.ResolvedAggregate → List Bytes
aggregate_patterns [] = []
aggregate_patterns (a ∷ rest) = a.exclude_patterns ++ aggregate_patterns rest

unfoldable pub function_patterns : List ResolvedGetFunction → List Bytes
function_patterns [] = []
function_patterns (f ∷ rest) = f.exclude_patterns ++ function_patterns rest

unfoldable pub pattern_sources : ExecutionPlan → List ResolvedGetFunction → List (Bytes × Bytes)
unfolding aggregate_patterns function_patterns
pattern_sources plan gets =
    in_context (codes "exclude_data") plan.excluded_patterns
    ++ (in_context (codes "ignore_table") plan.ignored_patterns
        ++ (in_context (codes "full") plan.full_patterns
            ++ (in_context (codes "aggregate exclude") (aggregate_patterns plan.aggregates)
                ++ in_context (codes "get exclude") (function_patterns gets))))

pub invalid_regex : Bytes → Bytes → Bytes → Failure
invalid_regex context pattern e = client (
    resolution
      (codes "invalid regex /" ++ (pattern ++ (codes "/ in " ++ (context ++ (codes ": " ++ e))))))

module _ (host : Host) where
  unfoldable pub check_patterns : List (Bytes × Bytes) → Result Failure (Unit {0})
  unfolding invalid_regex
  check_patterns [] = ok tt
  check_patterns ((context, pattern) ∷ rest) = elim (host.regex_error pattern) [
    | some e ↦ err (invalid_regex context pattern e)
    | none ↦ check_patterns rest
  ]

  unfoldable pub validate_plan :
      ExecutionPlan → List ResolvedGetFunction → Result Failure (Unit {0})
  unfolding check_tables pattern_sources check_patterns
  validate_plan plan gets = check_tables plan (host.rules_order plan.anonymization) >>= λ _.
      check_patterns (pattern_sources plan gets)
