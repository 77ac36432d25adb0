-- ===== src/Client/Resolver/Valid.antt =====
-- What holds of every config that `resolve` returns, and what the server makes of its plan.
pub mod Kinds
pub mod Aggregates
use jibs.Prelude.{
  ℕ, Bool, true, false, List, [], ◌∷◌, ◌++◌, map, Option, none, some, ◌≡◌, refl, ◌⊎◌, ◌↔◌, arith,
  Bytes, bytes_eq, bytes_eq_iff, codes, contains, inl, inr, All, In, All-In, In-append, In-behind,
  Bool-cases, Option-cases,
}
use jibs.Prelude.Dict.{Dict, lookup, has_key}
use jibs.Prelude.Result.{Result, ok, err, ◌>>=◌, >>=-eq-ok}
use jibs.Parser.Ast.{Program}
use jibs.Protocol.Plan
use jibs.Protocol.Plan.{ExecutionPlan, ResolvedAggregate, AnonymizeRule, AnonymizeTarget}
use jibs.Client.Error.{Failure, Stop}
use jibs.Client.Eval.{Floats}
use jibs.Client.Statements.Parts.{ResolvedGetFunction, has_aggregate}
use jibs.Client.Resolver.{lift, passes, process_import, resolve_program, resolve}
use jibs.Client.Resolver.State.{Host, Resolver, ResolvedConfig, config_of, new_resolver}
use jibs.Client.Resolver.Valid.Kinds.{HasAggregates}
use jibs.Client.Resolver.Valid.Aggregates.{passes-HasAggregates}
use jibs.Client.Resolver.Validate.{
  defines, check_rules, check_tables, check_patterns, in_context, aggregate_patterns,
  function_patterns, pattern_sources, validate_plan,
}
use jibs.Server.Error.{ServerError}
use jibs.Server.Walk.{compute_potential_aggregate_tables}
use jibs.Server.Walk.Patterns.{Fails}
use jibs.Server.Walk.Potential.{MayTouch, compute_potential_correct}

-- The fakers that the rules name are in the plan.
abbrev pub HasFakers : ExecutionPlan → List AnonymizeRule → Type 0
HasFakers plan = All (λ (rule : AnonymizeRule).
    (name : Bytes)
    → rule.target ≡ Plan.faker name
    → (values : List Bytes) × In (name, values) plan.fakers)

lookup-In : {V : Type 0} (k : Bytes) (m : Dict V) (v : V) → lookup k m ≡ some v → In (k, v) m
unfolding lookup
lookup-In k [] v h = cc h
lookup-In k ((j, w) ∷ m) v h = elim (Bool-cases (bytes_eq j k)) [
  | inl same ↦
      let here : j ≡ k = (bytes_eq_iff j k).0 same in
      let value : w ≡ v = cc (rw same at h) in inl (rw (here, value) refl)
  | inr other ↦ inr (lookup-In k m v (rw other at h))
]

has_key-In : {V : Type 0} (k : Bytes) (m : Dict V) → has_key k m ≡ true → (v : V) × In (k, v) m
has_key-In k m h = elim (Option-cases (lookup k m)) [
  | inl missing ↦ cc (rw (missing, has_key) at h)
  | inr (v, found) ↦ (v, lookup-In k m v found)
]

defines-faker :
    (plan : ExecutionPlan) (target : AnonymizeTarget) (name : Bytes)
    → defines plan target ≡ true
    → target ≡ Plan.faker name
    → (values : List Bytes) × In (name, values) plan.fakers
defines-faker plan target name known e = has_key-In name plan.fakers (rw e at known)

-- The patterns that a config holds, wherever they stand.
abbrev pub Holds : ResolvedConfig → Bytes → Type 0
Holds config p =
    In p config.plan.excluded_patterns
    ⊎ In p config.plan.ignored_patterns
    ⊎ In p config.plan.full_patterns
    ⊎ ((a : ResolvedAggregate) × In a config.plan.aggregates × In p a.exclude_patterns)
    ⊎ ((f : ResolvedGetFunction) × In f config.get_functions × In p f.exclude_patterns)

check_rules-HasFakers :
    (plan : ExecutionPlan) (table : Bytes) (rules : List AnonymizeRule)
    → check_rules plan table rules ≡ ok tt
    → HasFakers plan rules
unfolding check_rules
check_rules-HasFakers plan table [] e = tt
check_rules-HasFakers plan table (rule ∷ rules) e = elim (Bool-cases (defines plan rule.target)) [
  | inl known ↦ (
    λ name named. defines-faker plan rule.target name known named,
    check_rules-HasFakers plan table rules (rw known at e),
  )
  | inr new ↦ cc (rw new at e)
]

check_tables-HasFakers :
    (plan : ExecutionPlan) (tables : Dict (List AnonymizeRule))
    → check_tables plan tables ≡ ok tt
    → All (λ (entry : Bytes × List AnonymizeRule). HasFakers plan entry.1) tables
unfolding check_tables
check_tables-HasFakers plan [] e = tt
check_tables-HasFakers plan ((table, rules) ∷ rest) e =
    let (_, first, more) = >>=-eq-ok (check_rules plan table rules) _ e in
    (check_rules-HasFakers plan table rules first, check_tables-HasFakers plan rest more)

has_aggregate-In :
    (aggregates : List ResolvedAggregate) (name : Bytes)
    → has_aggregate aggregates name ≡ true
    → (a : ResolvedAggregate) × In a aggregates × (a.name ≡ name)
unfolding has_aggregate contains
has_aggregate-In [] name h = cc
has_aggregate-In (a ∷ aggregates) name h = elim (Bool-cases (bytes_eq a.name name)) [
  | inl same ↦ (a, inl refl, (bytes_eq_iff a.name name).0 same)
  | inr other ↦
      let later : has_aggregate aggregates name ≡ true =
        ground (arith, bytes_eq_iff a.name name, bytes_eq_iff name a.name) in
      let (b, there, e) = has_aggregate-In aggregates name later in (b, inr there, e)
]

In-in_context :
    (context p : Bytes) (patterns : List Bytes)
    → In p patterns
    → In (context, p) (in_context context patterns)
In-in_context context p [] h = elim h [ ]
In-in_context context p (q ∷ patterns) (inl here) = inl (rw here refl)
In-in_context context p (q ∷ patterns) (inr later) = inr (In-in_context context p patterns later)

In-aggregate_patterns :
    (aggregates : List ResolvedAggregate) (a : ResolvedAggregate) (p : Bytes)
    → In a aggregates
    → In p a.exclude_patterns
    → In p (aggregate_patterns aggregates)
unfolding aggregate_patterns
In-aggregate_patterns [] a p there h = elim there [ ]
In-aggregate_patterns (b ∷ rest) a p (inl here) h = In-append p b.exclude_patterns _ (rw (← here) h)
In-aggregate_patterns (b ∷ rest) a p (inr later) h =
    In-behind p b.exclude_patterns _ (In-aggregate_patterns rest a p later h)

In-pattern_sources :
    (plan : ExecutionPlan) (gets : List ResolvedGetFunction) (a : ResolvedAggregate) (p : Bytes)
    → In a plan.aggregates
    → In p a.exclude_patterns
    → In (codes "aggregate exclude", p) (pattern_sources plan gets)
unfolding pattern_sources
In-pattern_sources plan gets a p there h =
    In-behind _ (in_context (codes "exclude_data") plan.excluded_patterns) _ (
      In-behind _ (in_context (codes "ignore_table") plan.ignored_patterns) _ (
        In-behind _ (in_context (codes "full") plan.full_patterns) _ (
          In-append _ (in_context (codes "aggregate exclude") (aggregate_patterns plan.aggregates))
            _ (In-in_context _ p _ (In-aggregate_patterns plan.aggregates a p there h)))))

In-function_patterns :
    (gets : List ResolvedGetFunction) (f : ResolvedGetFunction) (p : Bytes)
    → In f gets
    → In p f.exclude_patterns
    → In p (function_patterns gets)
unfolding function_patterns
In-function_patterns [] f p there h = elim there [ ]
In-function_patterns (g ∷ rest) f p (inl here) h = In-append p g.exclude_patterns _ (rw (← here) h)
In-function_patterns (g ∷ rest) f p (inr later) h =
    In-behind p g.exclude_patterns _ (In-function_patterns rest f p later h)

-- A pattern that the config holds is checked, in some context.
Holds-pattern_sources :
    (config : ResolvedConfig) (p : Bytes)
    → Holds config p
    → (context : Bytes) × In (context, p) (pattern_sources config.plan config.get_functions)
unfolding pattern_sources
Holds-pattern_sources config p held =
    let plan = config.plan in
    let excluded = in_context (codes "exclude_data") plan.excluded_patterns in
    let ignored = in_context (codes "ignore_table") plan.ignored_patterns in
    let full = in_context (codes "full") plan.full_patterns in
    let aggregates = in_context (codes "aggregate exclude") (aggregate_patterns plan.aggregates) in
    elim held [
      | inl h ↦ (_, In-append _ excluded _ (In-in_context _ p _ h))
      | inr (inl h) ↦ (_, In-behind _ excluded _ (In-append _ ignored _ (In-in_context _ p _ h)))
      | inr (inr (inl h)) ↦ (
        _,
        In-behind _ excluded _ (In-behind _ ignored _ (In-append _ full _ (In-in_context _ p _ h))),
      )
      | inr (inr (inr (inl (a, there, h)))) ↦
          (_, In-pattern_sources plan config.get_functions a p there h)
      | inr (inr (inr (inr (f, there, h)))) ↦ (
        _,
        In-behind _ excluded _ (
            In-behind _ ignored _ (
              In-behind _ full _ (
                In-behind _ aggregates _
                  (In-in_context _ p _ (In-function_patterns config.get_functions f p there h))))),
      )
    ]

unlift : {A : Type 0} (x : Result Failure A) (a : A) → lift x ≡ ok a → x ≡ ok a
unlift (ok b) a e = let same : b ≡ a = cc e in rw same refl
unlift (err why) a e = cc e

module _ (host : Host) where
  abbrev pub Compiles : Bytes × Bytes → Type 0
  Compiles (context, pattern) = host.regex_error pattern ≡ none

  check_patterns-Compiles :
      (sources : List (Bytes × Bytes)) → check_patterns host sources ≡ ok tt → All Compiles sources
  unfolding check_patterns
  check_patterns-Compiles [] e = tt
  check_patterns-Compiles ((context, pattern) ∷ rest) e =
      elim (Option-cases (host.regex_error pattern)) [
        | inl fine ↦ (fine, check_patterns-Compiles rest (rw (fine, check_patterns) at e))
        | inr (why, wrong) ↦ cc (rw (wrong, check_patterns) at e)
      ]

  -- Get functions name aggregates of the plan, rules name its fakers, and the patterns compile,
  -- wherever they stand.
  abbrev pub IsValid : ResolvedConfig → Type 0
  IsValid config =
      ((f : ResolvedGetFunction)
        → In f config.get_functions
        → (a : ResolvedAggregate) × In a config.plan.aggregates × (a.name ≡ f.aggregate_name))
      × ((table : Bytes) (rules : List AnonymizeRule)
          → In (table, rules) config.plan.anonymization
          → HasFakers config.plan rules)
      × ((p : Bytes) → Holds config p → host.regex_error p ≡ none)

  module _ (floats : Floats) (checked lenient : Bool) (fuel : ℕ) (base_path : Bytes)
      (program : Program) (cli_vars : Dict Bytes) (config : ResolvedConfig) where
    -- The checks that have succeeded.
    resolve_checks :
        resolve floats checked host lenient fuel base_path program cli_vars ≡ ok config
        → HasAggregates config.plan.aggregates config.get_functions
          × (check_tables config.plan (host.rules_order config.plan.anonymization) ≡ ok tt)
          × (check_patterns host (pattern_sources config.plan config.get_functions) ≡ ok tt)
    unfolding resolve resolve_program new_resolver validate_plan
    resolve_checks e =
        let start = new_resolver host base_path cli_vars in
        let import = process_import floats checked host lenient fuel in
        let (c, resolved, checks) =
          >>=-eq-ok (resolve_program floats checked host lenient fuel program start) _ e in
        let (u, passed, made) =
          >>=-eq-ok (passes floats checked host lenient import program start) _ resolved in
        let (_, validated, returned) =
          >>=-eq-ok (lift (validate_plan host c.plan c.get_functions)) _ checks in
        let (_, rules, patterns) =
          >>=-eq-ok (check_tables c.plan (host.rules_order c.plan.anonymization)) _
            (unlift _ tt validated) in
        let known =
          passes-HasAggregates floats checked host lenient fuel program start u tt passed in
        let same : config ≡ config_of u = ground arith in
        let same_checked : c ≡ config_of u = cc made in
        rw same (known, rw same_checked at rules, rw same_checked at patterns)

    -- A config that `resolve` or `resolve_lenient` returns: every get function, from whatever file,
    -- names an aggregate of the plan, every anonymize rule that names a faker names one of the plan,
    -- and every pattern compiles: of tables to exclude, to ignore or to import in full, and of the
    -- exclusions of aggregates and of get functions. The order in which the map of rules is walked
    -- has all its entries.
    pub resolve-IsValid :
        ((m : Dict (List AnonymizeRule)) (entry : Bytes × List AnonymizeRule)
          → In entry m
          → In entry (host.rules_order m))
        → resolve floats checked host lenient fuel base_path program cli_vars ≡ ok config
        → IsValid config
    resolve-IsValid walks e =
        let (known, rules, patterns) = resolve_checks e in
        let fakers = check_tables-HasFakers config.plan _ rules in
        (
          λ f there. has_aggregate-In config.plan.aggregates f.aggregate_name (
              All-In
                (λ (g : ResolvedGetFunction).
                  has_aggregate config.plan.aggregates g.aggregate_name ≡ true)
                _ known there),
          λ table rules there.
              All-In _ _ fakers (walks config.plan.anonymization (table, rules) there),
          λ p held.
              let (context, there) = Holds-pattern_sources config p held in
              All-In (Compiles) _
                (check_patterns-Compiles (pattern_sources config.plan config.get_functions)
                  patterns)
                there,
        )

    -- The server compiles the patterns by the same crate. Then it finds no fault in those of a plan
    -- that `resolve` has returned: whatever tables it imports, the walk ends with a set that holds a
    -- table exactly if some aggregate of the plan may touch it.
    pub resolve-compute_potential :
        {Regex : Type 0} (compile : Bytes → Result Bytes Regex) (is_match : Regex → Bytes → Bool)
        (importable : List Bytes)
        → ((p why : Bytes) → compile p ≡ err why → (e : Bytes) × (host.regex_error p ≡ some e))
        → resolve floats checked host lenient fuel base_path program cli_vars ≡ ok config
        → (tables : List Bytes) × (compute_potential_aggregate_tables compile is_match config.plan
              importable
            ≡ ok tables)
          × ((t : Bytes)
              → (contains tables t ≡ true) ↔ (
                  (a : ResolvedAggregate) × In a config.plan.aggregates
                  × MayTouch compile is_match config.plan importable a t))
    resolve-compute_potential compile is_match importable one_crate e =
        let (_, _, patterns) = resolve_checks e in
        let fine =
          check_patterns-Compiles (pattern_sources config.plan config.get_functions) patterns in
        elim (compute_potential_correct compile is_match config.plan importable) [
          | inr done ↦ done
          | inl (a, _, there, (p, in_a, why, wrong, _), _) ↦
              let (problem, f) = one_crate p why wrong in
              let here : host.regex_error p ≡ none =
                All-In Compiles _ fine
                  (In-pattern_sources config.plan config.get_functions a p there in_a) in
              absurd (cc)
        ]
