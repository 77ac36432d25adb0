-- ===== src/Server/Walk/Index.antt =====
-- The relation indices: the relations of a plan by their source, or by their target.
use jibs.Prelude.{
  List, [], ◌∷◌, ◌++◌, ◌≡◌, refl, ◌↔◌, ◌⊎◌, arith, if◌then◌else◌, Bytes, bytes_eq, bytes_eq_iff, In,
  In-concat,
}
use jibs.Protocol.Plan.{Relation}

-- `entry(key).or_default().push(rel)`
pub push_relation : Bytes → Relation → List (Bytes × List Relation) → List (Bytes × List Relation)
push_relation key rel [] = (key, rel ∷ []) ∷ []
push_relation key rel ((k, rels) ∷ index) =
    if bytes_eq k key
    then (k, rels ++ rel ∷ []) ∷ index
    else (k, rels) ∷ push_relation key rel index

pub build_onto :
    (Relation → Bytes) → List (Bytes × List Relation) → List Relation → List (Bytes × List Relation)
build_onto end index [] = index
build_onto end index (rel ∷ rels) = build_onto end (push_relation (end rel) rel index) rels

-- The loop over `plan.relations`, for the index by one end of a relation.
unfoldable pub build_index : (Relation → Bytes) → List Relation → List (Bytes × List Relation)
unfolding build_onto push_relation
build_index end rels = build_onto end [] rels

-- `get(table)`; a table that is no key has no relation to loop over.
unfoldable pub relations_of : Bytes → List (Bytes × List Relation) → List Relation
relations_of table [] = []
relations_of table ((k, rels) ∷ index) = if bytes_eq k table then rels else relations_of table index

relations_of-push_relation :
    (key table : Bytes) (rel : Relation) (index : List (Bytes × List Relation))
    → relations_of table (push_relation key rel index) ≡ (
        if bytes_eq key table
        then relations_of table index ++ rel ∷ []
        else relations_of table index)
unfolding relations_of push_relation
relations_of-push_relation key table rel [] = refl
relations_of-push_relation key table rel ((k, rels) ∷ index) = ground (
  arith,
  bytes_eq_iff key table,
  bytes_eq_iff k table,
  bytes_eq_iff k key,
  relations_of-push_relation key table rel index,
)

In-push_relation :
    (end : Relation → Bytes) (table : Bytes) (rel r : Relation)
    (index : List (Bytes × List Relation))
    → In rel (relations_of table (push_relation (end r) r index))
      ↔ (In rel (relations_of table index) ⊎ ((rel ≡ r) × (end rel ≡ table)))
In-push_relation end table rel r index = ground (
  arith,
  relations_of-push_relation (end r) table r index,
  bytes_eq_iff (end r) table,
  In-concat rel r (relations_of table index),
)

In-build_onto :
    (end : Relation → Bytes) (table : Bytes) (rel : Relation) (index : List (Bytes × List Relation))
    (rels : List Relation)
    → In rel (relations_of table (build_onto end index rels))
      ↔ (In rel (relations_of table index) ⊎ (In rel rels × (end rel ≡ table)))
unfolding build_onto
In-build_onto end table rel index [] = ground arith
In-build_onto end table rel index (r ∷ rels) = ground (
  arith,
  In-push_relation end table rel r index,
  In-build_onto end table rel (push_relation (end r) r index) rels,
)

-- The index holds under a table exactly the relations with that end.
pub In-build_index :
    (end : Relation → Bytes) (table : Bytes) (rel : Relation) (rels : List Relation)
    → In rel (relations_of table (build_index end rels)) ↔ (In rel rels × (end rel ≡ table))
unfolding build_index relations_of
In-build_index end table rel rels = ground (arith, In-build_onto end table rel [] rels)
