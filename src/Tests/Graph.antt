-- ===== src/Tests/Graph.antt =====
-- The static walk of a small plan: customers, their orders and the order lines, and a log. A pattern
-- stands for the tables that start with it, and `(` does not compile.
use jibs.Prelude.{
  Bool, true, false, List, [], ◌∷◌, none, ◌≡◌, ◌↔◌, ◌⊎◌, Bytes, bytes_eq, codes, contains, In,
  if◌then◌else◌,
}
use jibs.Prelude.Replace.{starts_with}
use jibs.Prelude.Result.{Result, ok, err}
use jibs.Protocol.Plan.{Relation, ResolvedAggregate, ExecutionPlan, empty_plan}
use jibs.Server.Error.{ServerError, server}
use jibs.Server.Walk.{compute_potential_aggregate_tables}
use jibs.Server.Walk.Patterns.{Fails}
use jibs.Server.Walk.Potential.{MayTouch, compute_potential_correct}

abbrev compile : Bytes → Result Bytes Bytes
compile p = if bytes_eq p (codes "(") then err (codes "unclosed group") else ok p

abbrev is_match : Bytes → Bytes → Bool
is_match = starts_with

abbrev relation : Bytes → Bytes → Relation
relation source target = record {
  from_table = source;
  from_column = codes "ref";
  to_table = target;
  to_column = codes "id";
}

abbrev aggregate : ResolvedAggregate
aggregate = record {
  name = codes "recent";
  root_table = codes "orders";
  where_clause = none;
  order_by = none;
  order_direction = none;
  limit = none;
  exclude_tables = [];
  exclude_patterns = codes "log" ∷ [];
  root_only = false;
}

abbrev plan : ExecutionPlan
plan = record empty_plan {
  relations =
      relation (codes "orders") (codes "customers")
      ∷ relation (codes "lines") (codes "orders")
      ∷ relation (codes "log_orders") (codes "orders")
      ∷ [];
  aggregates = aggregate ∷ [];
}

abbrev importable : List Bytes
importable = codes "orders" ∷ codes "customers" ∷ codes "lines" ∷ codes "log_orders" ∷ []

compute_potential_correct_example :
    ((a : ResolvedAggregate) × (e : ServerError) × In a plan.aggregates
      × Fails compile a a.exclude_patterns e
      × (compute_potential_aggregate_tables compile is_match plan importable ≡ err (server e)))
    ⊎ ((tables : List Bytes) × (compute_potential_aggregate_tables compile is_match plan importable
          ≡ ok tables)
        × ((t : Bytes)
            → (contains tables t ≡ true) ↔ (
                (a : ResolvedAggregate) × In a plan.aggregates
                × MayTouch compile is_match plan importable a t)))
compute_potential_correct_example = compute_potential_correct compile is_match plan importable
