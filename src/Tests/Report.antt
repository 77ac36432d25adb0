-- ===== src/Tests/Report.antt =====
-- The dry run's classification of four tables.
use jibs.Prelude.{ℕ, List, [], ◌∷◌, ◌≡◌, refl, ◌⊎◌, ◌↔◌, Bytes, bytes_eq, contains, codes, In}
use jibs.Prelude.Result.{ok, err}
use jibs.Protocol.Messages.{TableDisposition}
use jibs.Protocol.Plan.{ExecutionPlan, empty_plan}
use jibs.Server.Error.{panicked}
use jibs.Server.DryRun.Dispositions.{AllSorted, Lists, Missing, dispositions_of-sort_by_id}
use jibs.Server.DryRun.{TableIds, dispositions_of, sort_by_id}

abbrev plan : ExecutionPlan
plan = record empty_plan { ignored_tables = codes "tmp" ∷ []; excluded_tables = codes "log" ∷ [] }

abbrev tables : List Bytes
tables = codes "tmp" ∷ codes "users" ∷ codes "log" ∷ codes "orders" ∷ []

abbrev ids : TableIds
ids = (codes "users", 2) ∷ (codes "log", 0) ∷ (codes "orders", 1) ∷ []

abbrev potential : List Bytes
potential = codes "orders" ∷ []

dispositions_of-sort_by_id_example :
    ((dispositions_of plan potential ids tables ≡ err panicked) × Missing plan potential ids tables)
    ⊎ ((ds : List (ℕ × TableDisposition)) × (dispositions_of plan potential ids tables ≡ ok ds)
        × (¬ (Missing plan potential ids tables))
        × AllSorted (sort_by_id ds)
        × ((id : ℕ) (d : TableDisposition)
            → In (id, d) (sort_by_id ds) ↔ Lists plan potential ids tables id d))
dispositions_of-sort_by_id_example = dispositions_of-sort_by_id plan potential ids tables

-- The ignored table is left out.
dispositions_of-tables :
    dispositions_of plan potential ids tables
    ≡ ok (
        (2, TableDisposition.full)
        ∷ (0, TableDisposition.excluded)
        ∷ (1, TableDisposition.aggregate)
        ∷ [])
unfolding dispositions_of contains bytes_eq
dispositions_of-tables = refl
