-- ===== src/Server/Walk/Potential.antt =====
-- `compute_potential_aggregate_tables`: the tables that some aggregate may touch.
use jibs.Prelude.{
  Bool, true, false, List, [], ◌∷◌, ◌++◌, ◌≡◌, refl, ◌⊎◌, inl, inr, ◌↔◌, arith, Bytes, contains,
  contains-insert, contains-append, bytes_eq_iff, In, Bool-cases,
}
use jibs.Prelude.Result.{Result, ok, err, Result-cases}
use jibs.Protocol.Plan.{ResolvedAggregate, ExecutionPlan}
use jibs.Server.Error.{ServerError, server}
use jibs.Server.Walk.Correct.{walk_correct}
use jibs.Server.Walk.Patterns.{
  Matches, Fails, expand_exclude_patterns_iff, expand_exclude_patterns-Fails,
}
use jibs.Server.Walk.Reach.{IsOpen, Reach, Reach-map}
use jibs.Server.Walk.{
  touch_root, touch_related, touch, touch_all, expand_exclude_patterns,
  compute_potential_aggregate_tables,
}

module _ {Regex : Type 0} (compile : Bytes → Result Bytes Regex) (is_match : Regex → Bytes → Bool)
    (plan : ExecutionPlan) (importable : List Bytes) where
  -- The walk of the aggregate may enter the table: it is imported, not copied in full, and kept out
  -- neither by the plan nor by a name or a pattern of the aggregate.
  pub record MayEnter (a : ResolvedAggregate) (t : Bytes) : Type 0 where
    pub imported : contains importable t ≡ true
    pub not_full : contains plan.full_tables t ≡ false
    pub not_excluded : contains plan.excluded_tables t ≡ false
    pub not_listed : contains a.exclude_tables t ≡ false
    pub not_matched : ¬ Matches compile is_match a.exclude_patterns t

  -- The aggregate may touch the table: with `root_only` the root alone, else what it reaches.
  abbrev pub MayTouch : ResolvedAggregate → Bytes → Type 0
  MayTouch a t =
      (a.root_only ≡ true) × (contains importable a.root_table ≡ true) × (t ≡ a.root_table)
      ⊎ (backward : Bool) × (a.root_only ≡ false)
        × Reach importable (MayEnter a) plan.relations a.root_table t backward

  module _ (a : ResolvedAggregate) {matched : List Bytes}
      (expanded : expand_exclude_patterns compile is_match a importable ≡ ok matched) where
    abbrev exclude : List Bytes
    exclude = matched ++ plan.excluded_tables

    kept_out :
        (t : Bytes)
        → (contains exclude t ≡ false)
          ↔ ((contains matched t ≡ false) × (contains plan.excluded_tables t ≡ false))
    kept_out t = ground (arith, contains-append matched plan.excluded_tables t)

    matched_iff :
        (t : Bytes)
        → (contains matched t ≡ true) ↔ (
            (contains a.exclude_tables t ≡ true)
            ⊎ ((contains importable t ≡ true) × Matches compile is_match a.exclude_patterns t))
    matched_iff t = expand_exclude_patterns_iff compile is_match a importable t expanded

    MayEnter-of_IsOpen : (t : Bytes) → IsOpen importable plan.full_tables exclude t → MayEnter a t
    MayEnter-of_IsOpen t o =
        let (free, free') = (kept_out t).0 o.not_excluded in
        record {
          imported = o.imported;
          not_full = o.not_full;
          not_excluded = free';
          not_listed = elim (Bool-cases (contains a.exclude_tables t)) [
            | inl listed ↦ cc (free, (matched_iff t).1 (inl listed))
            | inr unlisted ↦ unlisted
          ];
          not_matched = λ m. cc (free, (matched_iff t).1 (inr (o.imported, m)));
        }

    IsOpen-of_MayEnter : (t : Bytes) → MayEnter a t → IsOpen importable plan.full_tables exclude t
    IsOpen-of_MayEnter t m =
        let free : contains matched t ≡ false = elim (Bool-cases (contains matched t)) [
          | inr free ↦ free
          | inl hit ↦ elim ((matched_iff t).0 hit) [
            | inl listed ↦ cc (m.not_listed, listed)
            | inr (_, found) ↦ absurd (m.not_matched found)
          ]
        ] in
        record {
          imported = m.imported;
          not_full = m.not_full;
          not_excluded = (kept_out t).1 (free, m.not_excluded);
        }

    Reach-iff :
        (t : Bytes) (b : Bool)
        → Reach importable
            (IsOpen importable plan.full_tables exclude)
            plan.relations
            a.root_table
            t
            b
          ↔ Reach importable (MayEnter a) plan.relations a.root_table t b
    Reach-iff t b = (
      Reach-map importable plan.relations a.root_table MayEnter-of_IsOpen,
      Reach-map importable plan.relations a.root_table IsOpen-of_MayEnter,
    )

    -- The walk of one aggregate succeeds, and adds what the aggregate may touch.
    touch_related_correct :
        (potential : List Bytes)
        → (more : List Bytes) × (touch_related plan importable potential a exclude ≡ ok more)
          × ((t : Bytes)
              → (contains more t ≡ true) ↔ (
                  (contains potential t ≡ true)
                  ⊎ ((b : Bool) × Reach importable (MayEnter a) plan.relations a.root_table t b)))
    touch_related_correct potential =
        let (last, ends, iff) =
          walk_correct importable plan.full_tables exclude plan.relations a.root_table potential in
        (
          last.potential,
          unfold touch_related in rw ends,
          λ t. (
            λ h. elim ((iff t).0 h) [
              | inl old ↦ inl old
              | inr (b, r) ↦ inr (b, (Reach-iff t b).0 r)
            ],
            λ h. elim h [
              | inl old ↦ (iff t).1 (inl old)
              | inr (b, r) ↦ (iff t).1 (inr (b, (Reach-iff t b).1 r))
            ],
          ),
        )

  touch_root_iff :
      (a : ResolvedAggregate) (potential : List Bytes) (t : Bytes)
      → (contains (touch_root importable potential a) t ≡ true) ↔ (
          (contains potential t ≡ true)
          ⊎ ((contains importable a.root_table ≡ true) × (t ≡ a.root_table)))
  unfolding touch_root
  touch_root_iff a potential t =
      ground (arith, contains-insert a.root_table potential t, bytes_eq_iff a.root_table t)

  -- One aggregate: a failure is that of a pattern, a success adds what the aggregate may touch.
  touch_correct :
      (a : ResolvedAggregate) (potential : List Bytes)
      → ((e : ServerError) × (expand_exclude_patterns compile is_match a importable ≡ err e)
          × (touch compile is_match plan importable potential a ≡ err (server e)))
        ⊎ ((more : List Bytes) × (touch compile is_match plan importable potential a ≡ ok more)
            × ((t : Bytes)
                → (contains more t ≡ true) ↔ ((contains potential t ≡ true) ⊎ MayTouch a t)))
  touch_correct a potential =
      elim (Result-cases (expand_exclude_patterns compile is_match a importable)) [
        | inr (e, fails) ↦ inl (e, fails, unfold touch in rw fails)
        | inl (matched, expanded) ↦ elim (Bool-cases a.root_only) [
          | inl alone ↦ inr (
            touch_root importable potential a,
            unfold touch in simp (expanded, alone),
            λ t. (
              λ h. elim ((touch_root_iff a potential t).0 h) [
                | inl old ↦ inl old
                | inr (i, e) ↦ inr (inl (alone, i, e))
              ],
              λ h. elim h [
                | inl old ↦ (touch_root_iff a potential t).1 (inl old)
                | inr (inl (_, i, e)) ↦ (touch_root_iff a potential t).1 (inr (i, e))
                | inr (inr (b, related, _)) ↦ cc (alone, related)
              ],
            ),
          )
          | inr related ↦
              let (more, ends, iff) = touch_related_correct a expanded potential in
              inr (
                more,
                unfold touch in simp (expanded, related) ends,
                λ t. (
                  λ h. elim ((iff t).0 h) [
                    | inl old ↦ inl old
                    | inr (b, r) ↦ inr (inr (b, related, r))
                  ],
                  λ h. elim h [
                    | inl old ↦ (iff t).1 (inl old)
                    | inr (inl (alone, _, _)) ↦ cc (alone, related)
                    | inr (inr (b, _, r)) ↦ (iff t).1 (inr (b, r))
                  ],
                ),
              )
        ]
      ]

  -- The loop over the aggregates, from the tables touched so far.
  touch_all_correct :
      (as' : List ResolvedAggregate) (potential : List Bytes)
      → ((a : ResolvedAggregate) × (e : ServerError) × In a as'
          × Fails compile a a.exclude_patterns e
          × (touch_all compile is_match plan importable potential as' ≡ err (server e)))
        ⊎ ((tables : List Bytes) × (touch_all compile is_match plan importable potential as'
              ≡ ok tables)
            × ((t : Bytes)
                → (contains tables t ≡ true) ↔ (
                    (contains potential t ≡ true)
                    ⊎ ((a : ResolvedAggregate) × In a as' × MayTouch a t))))
  unfolding touch_all
  touch_all_correct [] potential =
      inr (potential, refl, λ t. (inl, λ h. elim h [ inl old ↦ old | inr (a, m, _) ↦ absurd m ]))
  touch_all_correct (a ∷ rest) potential = elim (touch_correct a potential) [
    | inl (e, fails, stops) ↦ inl (
      a,
      e,
      inl refl,
      expand_exclude_patterns-Fails compile is_match a importable fails,
      rw stops,
    )
    | inr (more, goes, iff) ↦ elim (touch_all_correct rest more) [
      | inl (b, e, m, fails, stops) ↦ inl (b, e, inr m, fails, rw goes stops)
      | inr (tables, ends, iff') ↦ inr (
        tables,
        rw goes ends,
        λ t. (
          λ h. elim ((iff' t).0 h) [
            | inl old ↦ elim ((iff t).0 old) [
              | inl older ↦ inl older
              | inr here ↦ inr (a, inl refl, here)
            ]
            | inr (b, m, later) ↦ inr (b, inr m, later)
          ],
          λ h. elim h [
            | inl old ↦ (iff' t).1 (inl ((iff t).1 (inl old)))
            | inr (b, inl e, touches) ↦ (iff' t).1 (inl ((iff t).1 (inr (rw (← e) touches))))
            | inr (b, inr m, touches) ↦ (iff' t).1 (inr (b, m, touches))
          ],
        ),
      )
    ]
  ]

-- For every plan and every list of imported tables the computation ends: either with the error of
-- an exclude pattern of some aggregate that does not compile, or with a set that holds a table
-- exactly if some aggregate of the plan may touch it. The fuel never runs out.
pub compute_potential_correct :
    {Regex : Type 0} (compile : Bytes → Result Bytes Regex) (is_match : Regex → Bytes → Bool)
    (plan : ExecutionPlan) (importable : List Bytes)
    → ((a : ResolvedAggregate) × (e : ServerError) × In a plan.aggregates
        × Fails compile a a.exclude_patterns e
        × (compute_potential_aggregate_tables compile is_match plan importable ≡ err (server e)))
      ⊎ ((tables : List Bytes) × (compute_potential_aggregate_tables compile is_match plan
              importable
            ≡ ok tables)
          × ((t : Bytes)
              → (contains tables t ≡ true) ↔ (
                  (a : ResolvedAggregate) × In a plan.aggregates
                  × MayTouch compile is_match plan importable a t)))
unfolding compute_potential_aggregate_tables contains
compute_potential_correct compile is_match plan importable =
    elim (touch_all_correct compile is_match plan importable plan.aggregates []) [
      | inl failed ↦ inl failed
      | inr (tables, ends, iff) ↦ inr (
        tables,
        ends,
        λ t. (
          λ h. elim ((iff t).0 h) [ inl none_yet ↦ cc none_yet | inr found ↦ found ],
          λ h. (iff t).1 (inr h),
        ),
      )
    ]
