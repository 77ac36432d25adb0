-- ===== src/Server/DryRun/Dispositions.antt =====
-- The dry run's classification: its order, and what it holds.
use jibs.Prelude.{
  ℕ, ◌≤◌, true, false, contains, List, [], ◌∷◌, none, some, ◌≡◌, refl, ◌⊎◌, inl, inr, ◌↔◌, arith,
  Bytes, In, All, Bool-cases, Option-cases, leb,
}
use jibs.Prelude.Result.{ok, err}
use jibs.Protocol.Messages.{TableDisposition, excluded, aggregate, full}
use jibs.Server.Error.{panicked}
use jibs.Protocol.Plan.{ExecutionPlan}
use jibs.Server.DryRun.{TableIds, id_of, classify, dispositions_of, insert_by_id, sort_by_id}

-- The entries are in the order of their table ids.
abbrev pub AllSorted : List (ℕ × TableDisposition) → Type 0
AllSorted [] = Unit
AllSorted (a ∷ ds) = All (λ b. a.0 ≤ b.0) ds × AllSorted ds

insert_by_id-In :
    (x a : ℕ × TableDisposition) (ds : List (ℕ × TableDisposition))
    → In x (insert_by_id a ds) ↔ ((x ≡ a) ⊎ In x ds)
unfolding insert_by_id
insert_by_id-In x a [] = ground arith
insert_by_id-In x a (b ∷ ds) = elim (Bool-cases (leb a.0 b.0)) [
  | inl before ↦ rw before (ground arith)
  | inr behind ↦ rw behind (ground (arith, insert_by_id-In x a ds))
]

sort_by_id-In :
    (x : ℕ × TableDisposition) (ds : List (ℕ × TableDisposition)) → In x (sort_by_id ds) ↔ In x ds
unfolding sort_by_id
sort_by_id-In x [] = ground arith
sort_by_id-In x (a ∷ ds) = ground (arith, insert_by_id-In x a (sort_by_id ds), sort_by_id-In x ds)

All-weaken :
    (m n : ℕ) (ds : List (ℕ × TableDisposition))
    → m ≤ n
    → All (λ b. n ≤ b.0) ds
    → All (λ b. m ≤ b.0) ds
All-weaken m n [] le h = tt
All-weaken m n (b ∷ ds) le (h, hs) = (omega arith, All-weaken m n ds le hs)

insert_by_id-All :
    (m : ℕ) (a : ℕ × TableDisposition) (ds : List (ℕ × TableDisposition))
    → m ≤ a.0
    → All (λ b. m ≤ b.0) ds
    → All (λ b. m ≤ b.0) (insert_by_id a ds)
unfolding insert_by_id
insert_by_id-All m a [] le h = (le, tt)
insert_by_id-All m a (b ∷ ds) le (h, hs) = elim (Bool-cases (leb a.0 b.0)) [
  | inl before ↦ rw before (le, (h, hs))
  | inr behind ↦ rw behind (h, insert_by_id-All m a ds le hs)
]

insert_by_id-AllSorted :
    (a : ℕ × TableDisposition) (ds : List (ℕ × TableDisposition))
    → AllSorted ds
    → AllSorted (insert_by_id a ds)
unfolding insert_by_id
insert_by_id-AllSorted a [] h = (tt, tt)
insert_by_id-AllSorted a (b ∷ ds) (h, hs) = elim (Bool-cases (leb a.0 b.0)) [
  | inl before ↦
      let le : a.0 ≤ b.0 = ground arith in rw before ((le, All-weaken a.0 b.0 ds le h), (h, hs))
  | inr behind ↦
      rw behind (insert_by_id-All b.0 a ds (ground arith) h, insert_by_id-AllSorted a ds hs)
]

sort_by_id-AllSorted : (ds : List (ℕ × TableDisposition)) → AllSorted (sort_by_id ds)
unfolding sort_by_id
sort_by_id-AllSorted [] = tt
sort_by_id-AllSorted (a ∷ ds) = insert_by_id-AllSorted a (sort_by_id ds) (sort_by_id-AllSorted ds)

module _ (plan : ExecutionPlan) (potential : List Bytes) where
  -- What the dry run is to say of a table: nothing of an ignored one, and under `aggregates_only`
  -- nothing of one that no aggregate may touch; else that its rows are left out, that aggregates
  -- choose them, or that all are copied; never that the table is empty.
  unfoldable pub IsDisposed : Bytes → TableDisposition → Type 0
  IsDisposed t excluded =
      (contains plan.ignored_tables t ≡ false)
      × (contains plan.excluded_tables t ≡ true)
      × ((plan.aggregates_only ≡ false) ⊎ (contains potential t ≡ true))
  IsDisposed t aggregate =
      (contains plan.ignored_tables t ≡ false)
      × (contains plan.excluded_tables t ≡ false)
      × (contains potential t ≡ true)
  IsDisposed t full =
      (contains plan.ignored_tables t ≡ false)
      × (contains plan.excluded_tables t ≡ false)
      × (contains potential t ≡ false)
      × (plan.aggregates_only ≡ false)
  IsDisposed t TableDisposition.empty = ⊥

  classify-IsDisposed :
      (t : Bytes) (d : TableDisposition) → (classify plan potential t ≡ some d) ↔ IsDisposed t d
  unfolding classify IsDisposed
  classify-IsDisposed t excluded = ground arith
  classify-IsDisposed t aggregate = ground arith
  classify-IsDisposed t full = ground arith
  classify-IsDisposed t TableDisposition.empty = ground arith

  module _ (ids : TableIds) where
    -- Some table of the list has this id, and is to be disposed of so.
    abbrev pub Lists : List Bytes → ℕ → TableDisposition → Type 0
    Lists tables id d = (t : Bytes) × In t tables × (id_of ids t ≡ some id) × IsDisposed t d

    -- Some table of the list has no id, and a disposition.
    abbrev pub Missing : List Bytes → Type 0
    Missing tables =
        (t : Bytes) × (d : TableDisposition) × In t tables × (id_of ids t ≡ none) × IsDisposed t d

    abbrev Outcome : List Bytes → Type 0
    Outcome tables =
        ((dispositions_of plan potential ids tables ≡ err panicked) × Missing tables)
        ⊎ ((ds : List (ℕ × TableDisposition)) × (dispositions_of plan potential ids tables ≡ ok ds)
            × (¬ (Missing tables))
            × ((id : ℕ) (d : TableDisposition) → In (id, d) ds ↔ Lists tables id d))

    Lists-skip :
        (t : Bytes) (ts : List Bytes) (id : ℕ) (d : TableDisposition)
        (ds : List (ℕ × TableDisposition))
        → classify plan potential t ≡ none
        → (In (id, d) ds ↔ Lists ts id d)
        → (In (id, d) ds ↔ Lists (t ∷ ts) id d)
    Lists-skip t ts id d ds skipped (to, from) = (
      λ m. let (u, i, f, k) = to m in (u, inr i, f, k),
      λ (u, i, f, k). elim i [
        | inl same ↦ cc (rw same at ((classify-IsDisposed u d).1 k), skipped)
        | inr later ↦ from (u, later, f, k)
      ],
    )

    Lists-keep :
        (t : Bytes) (ts : List Bytes) (id i : ℕ) (d c : TableDisposition)
        (ds : List (ℕ × TableDisposition))
        → id_of ids t ≡ some i
        → classify plan potential t ≡ some c
        → (In (id, d) ds ↔ Lists ts id d)
        → (In (id, d) ((i, c) ∷ ds) ↔ Lists (t ∷ ts) id d)
    Lists-keep t ts id i d c ds found kept (to, from) = (
      λ m. elim m [
        | inl same ↦ (t, inl refl, cc (same, found), (classify-IsDisposed t d).0 (cc (same, kept)))
        | inr later ↦ let (u, l, f, k) = to later in (u, inr l, f, k)
      ],
      λ (u, l, f, k). elim l [
        | inl same ↦
            let e : id ≡ i = cc (rw same at f, found) in
            let e' : d ≡ c = cc (rw same at ((classify-IsDisposed u d).1 k), kept) in
            inl (rw (e, e') refl)
        | inr later ↦ inr (from (u, later, f, k))
      ],
    )

    -- None is missing, if the first table is none of those and none is behind it.
    Missing-skip :
        (t : Bytes) (ts : List Bytes)
        → ((d : TableDisposition) → id_of ids t ≡ none → ¬ (classify plan potential t ≡ some d))
        → ¬ (Missing ts)
        → ¬ (Missing (t ∷ ts))
    Missing-skip t ts here behind (u, d, inl same, f, k) =
        here d (rw same at f) (rw same at ((classify-IsDisposed u d).1 k))
    Missing-skip t ts here behind (u, d, inr later, f, k) = behind (u, d, later, f, k)

    dispositions_of-Lists : (tables : List Bytes) → Outcome tables
    unfolding dispositions_of
    dispositions_of-Lists [] =
        inr ([], refl, (λ (u, d, there, f, k). elim there [ ]), λ id d. ground arith)
    dispositions_of-Lists (t ∷ ts) = elim (Option-cases (classify plan potential t)) [
      | inl skipped ↦ elim (dispositions_of-Lists ts) [
        | inl (e, (u, d, l, f, k)) ↦ inl (rw (skipped, dispositions_of) e, (u, d, inr l, f, k))
        | inr (ds, e, complete, iff) ↦ inr (
          ds,
          rw (skipped, dispositions_of) e,
          Missing-skip t ts (λ d _ k. cc (k, skipped)) complete,
          λ id d. Lists-skip t ts id d ds skipped (iff id d),
        )
      ]
      | inr (c, kept) ↦ elim (Option-cases (id_of ids t)) [
        | inl unknown ↦ inl (
          rw (kept, dispositions_of, unknown) refl,
          (t, c, inl refl, unknown, (classify-IsDisposed t c).0 kept),
        )
        | inr (i, found) ↦ elim (dispositions_of-Lists ts) [
          | inl (e, (u, d, l, f, k)) ↦
              inl (rw (kept, dispositions_of, found, e) refl, (u, d, inr l, f, k))
          | inr (ds, e, complete, iff) ↦ inr (
            (i, c) ∷ ds,
            rw (kept, dispositions_of, found, e) refl,
            Missing-skip t ts (λ d f _. cc (f, found)) complete,
            λ id d. Lists-keep t ts id i d c ds found kept (iff id d),
          )
        ]
      ]
    ]

    -- Either some table of the database has a disposition and no id, and the classification panics;
    -- or there is no such table, and the sorted result is in the order of the ids and holds an id
    -- with a disposition exactly if some table of the database has that id and is to be disposed of
    -- so.
    pub dispositions_of-sort_by_id :
        (tables : List Bytes)
        → ((dispositions_of plan potential ids tables ≡ err panicked) × Missing tables)
          ⊎ ((ds : List (ℕ × TableDisposition)) × (dispositions_of plan potential ids tables
                ≡ ok ds)
              × (¬ (Missing tables))
              × AllSorted (sort_by_id ds)
              × ((id : ℕ) (d : TableDisposition) → In (id, d) (sort_by_id ds) ↔ Lists tables id d))
    dispositions_of-sort_by_id tables = elim (dispositions_of-Lists tables) [
      | inl stopped ↦ inl stopped
      | inr (ds, e, complete, iff) ↦ inr (
        ds,
        e,
        complete,
        sort_by_id-AllSorted ds,
        λ id d. (
          λ m. (iff id d).0 ((sort_by_id-In (id, d) ds).0 m),
          λ l. (sort_by_id-In (id, d) ds).1 ((iff id d).1 l),
        ),
      )
    ]
