-- ===== src/Server/DryRun.antt =====
-- crates/server/src/traversal.rs: `compute_dry_run_report`, what an import would do, and the query of an
-- aggregate's root table.
--
-- The connection is two parameters: the names of all tables, and the count of rows under a condition.
-- `table_ids` is an association list; `table_ids[table]` panics on a missing key.
pub mod Dispositions
use jibs.Prelude.{
  ℕ, Bool, true, false, not, ◌&&◌, List, [], ◌∷◌, ◌++◌, Option, none, some, map, if◌then◌else◌,
  Bytes, bytes_eq, codes, contains, leb,
}
use jibs.Prelude.Decimal.{decimal_i64}
use jibs.Prelude.Int.{ℤ}
use jibs.Prelude.Result.{Result, ok, err, ◌>>=◌}
use jibs.Protocol.Messages.{TableDisposition, aggregate, full, excluded, AggregateRootCount}
use jibs.Protocol.Plan.{ExecutionPlan, ResolvedAggregate, SortDirection, asc, desc}
use jibs.Server.Error.{ServerError, config, Failure, server, panicked}
use jibs.Server.Walk.{lift, compute_potential_aggregate_tables}

abbrev pub TableIds : Type 0
TableIds = List (Bytes × ℕ)

-- `table_ids.get(table)`
unfoldable pub id_of : TableIds → Bytes → Option ℕ
id_of [] table = none
id_of ((name, id) ∷ ids) table = if bytes_eq name table then some id else id_of ids table

-- The disposition of a table; `none` where the loop goes on to the next table.
unfoldable pub classify : ExecutionPlan → List Bytes → Bytes → Option TableDisposition
classify plan potential table =
    if contains plan.ignored_tables table
    then none
    else if plan.aggregates_only && not (contains potential table)
    then none
    else if contains plan.excluded_tables table
    then some excluded
    else if contains potential table
    then some aggregate
    else some full

-- `dispositions.push((table_ids[table], disposition))`
abbrev pub push_disposition :
    Option ℕ
    → TableDisposition
    → Result Failure (List (ℕ × TableDisposition))
    → Result Failure (List (ℕ × TableDisposition))
push_disposition none d rest = err panicked
push_disposition (some id) d rest = rest >>= λ ds. ok ((id, d) ∷ ds)

-- The loop over all tables.
unfoldable pub dispositions_of :
    ExecutionPlan
    → List Bytes
    → TableIds
    → List Bytes
    → Result Failure (List (ℕ × TableDisposition))
unfolding classify id_of
dispositions_of plan potential ids [] = ok []
dispositions_of plan potential ids (t ∷ ts) =
    let rest = dispositions_of plan potential ids ts in
    elim (classify plan potential t) [
      | none ↦ rest
      | some d ↦ push_disposition (id_of ids t) d rest
    ]

-- `sort_by(|a, b| a.0.cmp(&b.0))`, which is stable.
pub insert_by_id : ℕ × TableDisposition → List (ℕ × TableDisposition) → List (ℕ × TableDisposition)
insert_by_id a [] = a ∷ []
insert_by_id a (b ∷ ds) = if leb a.0 b.0 then a ∷ b ∷ ds else b ∷ insert_by_id a ds

pub sort_by_id : List (ℕ × TableDisposition) → List (ℕ × TableDisposition)
unfolding insert_by_id
sort_by_id [] = []
sort_by_id (a ∷ ds) = insert_by_id a (sort_by_id ds)

pub not_importable : ResolvedAggregate → ServerError
not_importable a = config (
    codes "Aggregate '"
    ++ (a.name
        ++ (codes "' root table '"
            ++ (a.root_table
                ++ codes
                    "' is not importable (it is ignored via ignore_table or does not exist)"))))

module _ (count_rows : Bytes → Option Bytes → Result ServerError ℕ) where
  -- The loop over the aggregates.
  pub root_counts_of :
      List Bytes → List ResolvedAggregate → Result ServerError (List AggregateRootCount)
  root_counts_of importable [] = ok []
  root_counts_of importable (a ∷ rest) =
      let more = root_counts_of importable rest in
      if contains importable a.root_table
      then (count_rows a.root_table a.where_clause >>= λ matching.
          more >>= λ counts. ok (record { aggregate = a.name; matching_rows = matching } ∷ counts))
      else err (not_importable a)

  module _ {Regex : Type 0} (compile : Bytes → Result Bytes Regex) (is_match : Regex → Bytes → Bool)
      (get_all_table_names : Result ServerError (List Bytes)) where
    pub compute_dry_run_report :
        ExecutionPlan
        → TableIds
        → Result Failure (List (ℕ × TableDisposition) × List AggregateRootCount)
    unfolding dispositions_of sort_by_id root_counts_of
    compute_dry_run_report plan ids = do
      all_tables ← lift get_all_table_names
      let importable = map (λ entry. entry.0) ids
      potential ← compute_potential_aggregate_tables compile is_match plan importable
      dispositions ← dispositions_of plan potential ids all_tables
      counts ← lift (root_counts_of importable plan.aggregates)
      ok (sort_by_id dispositions, counts)

-- The direction behind ` ORDER BY`.
abbrev pub direction_text : Option SortDirection → Bytes
direction_text none = []
direction_text (some asc) = codes " ASC"
direction_text (some desc) = codes " DESC"

abbrev pub where_text : Option Bytes → Bytes
where_text none = []
where_text (some clause) = codes " WHERE " ++ clause

abbrev pub order_text : Option Bytes → Option SortDirection → Bytes
order_text none dir = []
order_text (some column) dir = codes " ORDER BY `" ++ (column ++ (codes "`" ++ direction_text dir))

abbrev pub limit_text : Option ℤ → Bytes
limit_text none = []
limit_text (some n) = codes " LIMIT " ++ decimal_i64 n

-- `build_root_query`
pub build_root_query : ResolvedAggregate → Bytes
build_root_query a =
    codes "SELECT * FROM `"
    ++ (a.root_table
        ++ (codes "`"
            ++ (where_text a.where_clause
                ++ (order_text a.order_by a.order_direction ++ limit_text a.limit))))
