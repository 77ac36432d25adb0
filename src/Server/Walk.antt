-- ===== src/Server/Walk.antt =====
-- crates/server/src/traversal.rs, "Static graph analysis": which tables the aggregates can touch.
--
-- A name is its bytes, `explored` a function of names, `potential` the list of its members. The
-- stack `queue` stands with its top first: `push` is `∷` and `pop` takes the head. Regular
-- expressions are the regex crate's: `compile` is `Regex::new`, with the text of its error, and
-- `is_match` is the crate's. `walk` is the `while let` loop on fuel.
mod Index
pub mod Reach
pub mod Round
pub mod Invariant
pub mod Correct
pub mod Patterns
pub mod Potential
pub use Index.{push_relation, build_index, relations_of}
use jibs.Prelude.{
  ℕ, zero, suc, ◌*◌, ◌+◌, Bool, true, false, not, ◌&&◌, List, [], ◌∷◌, ◌++◌, Option, none, some,
  if◌then◌else◌, Bytes, codes, bytes_eq, contains, insert, length,
}
use jibs.Prelude.Result.{Result, ok, err, ◌>>=◌}
use jibs.Protocol.Plan.{Relation, ResolvedAggregate, ExecutionPlan}
use jibs.Server.Error.{ServerError, config, Failure, server, out_of_fuel}

-- A table, and whether backward relations are followed from it.
abbrev pub Visit : Type 0
Visit = Bytes × Bool

pub record Walk : Type 0 where
  pub queue : List Visit
  pub explored : Bytes → Option Bool
  pub potential : List Bytes

-- The table was explored with this capability, or a stronger one.
abbrev pub covers : Bool → Option Bool → Bool
covers backward none = false
covers backward (some had_backward) = not (backward && not had_backward)

-- `should_visit`
pub should_visit : (Bytes → Option Bool) → Bytes → Bool → Bool
should_visit explored t backward = not (covers backward (explored t))

-- `explored.insert(t, backward); queue.push((t, backward))`
pub push : Bytes → Bool → Walk → Walk
push t backward s = record s {
  queue = (t, backward) ∷ s.queue;
  explored = λ u. if bytes_eq t u then some backward else s.explored u;
}

module _ (importable full exclude : List Bytes) where
  -- The tables that relations are followed into.
  unfoldable pub admits : Bytes → Bool
  admits t = contains importable t && not (contains full t) && not (contains exclude t)

  -- The body of the loops over `rels`, with the end of the relation that it looks at.
  unfoldable pub offer : (Relation → Bytes) → Bool → Walk → Relation → Walk
  unfolding admits should_visit push
  offer target backward s rel =
      if admits (target rel) && should_visit s.explored (target rel) backward
      then push (target rel) backward s
      else s

  pub offer_all : (Relation → Bytes) → Bool → Walk → List Relation → Walk
  offer_all target backward s [] = s
  offer_all target backward s (rel ∷ rels) =
      offer_all target backward (offer target backward s rel) rels

  module _ (by_source by_target : List (Bytes × List Relation)) where
    -- One round of the loop, after the visit left the stack.
    pub expand : Bytes → Bool → Walk → Walk
    expand table can_go_backward s =
        let kept = record s { potential = insert table s.potential } in
        let forward = offer_all (λ rel. rel.to_table) false kept (relations_of table by_source) in
        if can_go_backward
        then offer_all (λ rel. rel.from_table) true forward (relations_of table by_target)
        else forward

    pub walk : ℕ → Walk → Result Failure Walk
    walk zero s = elim s.queue [ [] ↦ ok s | _ ∷ _ ↦ err out_of_fuel ]
    walk (suc fuel) s = elim s.queue [
      | [] ↦ ok s
      | visit ∷ rest ↦ walk fuel (expand visit.0 visit.1 (record s { queue = rest }))
    ]

-- Before the walk: the root, where it is imported.
unfoldable pub start : List Bytes → Bytes → List Bytes → Walk
unfolding push
start importable root potential =
    let blank : Walk = record { queue = []; explored = λ _. none; potential = potential } in
    if contains importable root then push root true blank else blank

-- The error of `expand_exclude_patterns`.
pub bad_pattern : ResolvedAggregate → Bytes → Bytes → ServerError
bad_pattern aggregate p e = config (
    codes "Invalid exclude pattern /"
    ++ (p ++ (codes "/ in aggregate '" ++ (aggregate.name ++ (codes "': " ++ e)))))

-- `map(..).collect::<Result<_>>()?`, which stops at the first pattern that does not compile.
pub compile_all :
    {Regex : Type 0}
    → (Bytes → Result Bytes Regex)
    → ResolvedAggregate
    → List Bytes
    → Result ServerError (List Regex)
compile_all compile aggregate [] = ok []
compile_all compile aggregate (p ∷ ps) = elim (compile p) [
  | err e ↦ err (bad_pattern aggregate p e)
  | ok re ↦ compile_all compile aggregate ps >>= λ res. ok (re ∷ res)
]

module _ {Regex : Type 0} (is_match : Regex → Bytes → Bool) where
  pub any_match : List Regex → Bytes → Bool
  any_match [] t = false
  any_match (re ∷ res) t = if is_match re t then true else any_match res t

  pub add_matches : List Regex → List Bytes → List Bytes → List Bytes
  add_matches res exclude [] = exclude
  add_matches res exclude (t ∷ ts) =
      add_matches res (if any_match res t then insert t exclude else exclude) ts

-- `?` on a pattern's error, where the walk may also lack fuel.
pub lift {ℓ} : {A : Type ℓ} → Result ServerError A → Result Failure A
lift (ok a) = ok a
lift (err e) = err (server e)

-- `aggregate.root_only`: the root alone.
pub touch_root : List Bytes → List Bytes → ResolvedAggregate → List Bytes
touch_root importable potential aggregate =
    if contains importable aggregate.root_table
    then insert aggregate.root_table potential
    else potential

-- The walk of one aggregate, from its root.
pub touch_related :
    ExecutionPlan
    → List Bytes
    → List Bytes
    → ResolvedAggregate
    → List Bytes
    → Result Failure (List Bytes)
touch_related plan importable potential aggregate exclude =
    let by_source = build_index (λ rel. rel.from_table) plan.relations in
    let by_target = build_index (λ rel. rel.to_table) plan.relations in
    let first = start importable aggregate.root_table potential in
    walk importable plan.full_tables exclude by_source by_target (2 * length importable) first
    >>= λ last. ok last.potential

module _ {Regex : Type 0} (compile : Bytes → Result Bytes Regex)
    (is_match : Regex → Bytes → Bool) where
  -- `expand_exclude_patterns`, on the patterns of the aggregate.
  pub expand_patterns :
      ResolvedAggregate → List Bytes → List Bytes → Result ServerError (List Bytes)
  unfolding compile_all add_matches any_match
  expand_patterns aggregate [] table_names = ok aggregate.exclude_tables
  expand_patterns aggregate (p ∷ ps) table_names =
      compile_all compile aggregate (p ∷ ps) >>= λ regexes.
      ok (add_matches is_match regexes aggregate.exclude_tables table_names)

  pub expand_exclude_patterns : ResolvedAggregate → List Bytes → Result ServerError (List Bytes)
  unfolding expand_patterns
  expand_exclude_patterns aggregate = expand_patterns aggregate aggregate.exclude_patterns

  -- The body of the loop over the aggregates.
  pub touch :
      ExecutionPlan → List Bytes → List Bytes → ResolvedAggregate → Result Failure (List Bytes)
  unfolding lift touch_related touch_root
  touch plan importable potential aggregate =
      lift (expand_exclude_patterns aggregate importable) >>= λ matched.
      let exclude = matched ++ plan.excluded_tables in
      if aggregate.root_only
      then ok (touch_root importable potential aggregate)
      else touch_related plan importable potential aggregate exclude

  pub touch_all :
      ExecutionPlan → List Bytes → List Bytes → List ResolvedAggregate → Result Failure (List Bytes)
  touch_all plan importable potential [] = ok potential
  touch_all plan importable potential (a ∷ rest) =
      touch plan importable potential a >>= λ more. touch_all plan importable more rest

  unfoldable pub compute_potential_aggregate_tables :
      ExecutionPlan → List Bytes → Result Failure (List Bytes)
  unfolding touch_all touch
  compute_potential_aggregate_tables plan importable = touch_all plan importable [] plan.aggregates
