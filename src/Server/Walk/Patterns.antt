-- ===== src/Server/Walk/Patterns.antt =====
-- `expand_exclude_patterns`: the tables that an aggregate keeps out, and its errors.
use jibs.Prelude.{
  Bool, true, List, [], ◌∷◌, ◌≡◌, refl, ◌⊎◌, inl, inr, ◌↔◌, arith, Bytes, contains, insert,
  contains-insert, bytes_eq_iff, In, if◌then◌else◌, Bool-cases,
}
use jibs.Prelude.Result.{Result, ok, err, Result-cases, >>=-eq-ok}
use jibs.Protocol.Plan.{ResolvedAggregate}
use jibs.Server.Error.{ServerError}
use jibs.Server.Walk.{
  bad_pattern, compile_all, any_match, add_matches, expand_patterns, expand_exclude_patterns,
}

module _ {Regex : Type 0} (is_match : Regex → Bytes → Bool) where
  contains-add_matches :
      (res : List Regex) (exclude tables : List Bytes) (t : Bytes)
      → (contains (add_matches is_match res exclude tables) t ≡ true) ↔ (
          (contains exclude t ≡ true)
          ⊎ ((contains tables t ≡ true) × (any_match is_match res t ≡ true)))
  unfolding add_matches contains
  contains-add_matches res exclude [] t = ground arith
  contains-add_matches res exclude (x ∷ tables) t = ground (
    arith,
    contains-add_matches res (if any_match is_match res x then insert x exclude else exclude) tables
        t,
    contains-insert x exclude t,
    bytes_eq_iff x t,
  )

module _ {Regex : Type 0} (compile : Bytes → Result Bytes Regex) where
  -- Some pattern of the list does not compile, and this is its error.
  abbrev pub Fails : ResolvedAggregate → List Bytes → ServerError → Type 0
  Fails a patterns e =
      (p : Bytes) × In p patterns
      × (why : Bytes) × (compile p ≡ err why)
      × (e ≡ bad_pattern a p why)

  compile_all-cons :
      (a : ResolvedAggregate) (p : Bytes) (patterns : List Bytes) {res : List Regex}
      → compile_all compile a (p ∷ patterns) ≡ ok res
      → (re : Regex) × (rest : List Regex) × (compile p ≡ ok re)
        × (compile_all compile a patterns ≡ ok rest)
        × (res ≡ re ∷ rest)
  unfolding compile_all
  compile_all-cons a p patterns h = ground arith

  compile_all-Fails :
      (a : ResolvedAggregate) (patterns : List Bytes) {e : ServerError}
      → compile_all compile a patterns ≡ err e
      → Fails a patterns e
  unfolding compile_all
  compile_all-Fails a [] h = cc
  compile_all-Fails a (p ∷ patterns) {e} h = elim (Result-cases (compile p)) [
    | inr (why, c) ↦ (p, inl refl, why, c, ground arith)
    | inl (re, c) ↦
        let later : compile_all compile a patterns ≡ err e = ground arith in
        let (q, i, why, d, x) = compile_all-Fails a patterns later in (q, inr i, why, d, x)
  ]

  module _ (is_match : Regex → Bytes → Bool) where
    -- Some pattern of the list compiles and matches the table.
    abbrev pub Matches : List Bytes → Bytes → Type 0
    Matches patterns t =
        (p : Bytes) × In p patterns × (re : Regex) × (compile p ≡ ok re) × (is_match re t ≡ true)

    any_match_iff :
        (a : ResolvedAggregate) (patterns : List Bytes) (res : List Regex) (t : Bytes)
        → compile_all compile a patterns ≡ ok res
        → (any_match is_match res t ≡ true) ↔ Matches patterns t
    unfolding any_match
    any_match_iff a [] res t h = unfold compile_all in ground arith
    any_match_iff a (p ∷ patterns) res t h =
        let (re, rest, c, later, e) = compile_all-cons a p patterns h in
        let (to, from) = any_match_iff a patterns rest t later in
        rw e (
          (λ m. elim (Bool-cases (is_match re t)) [
            | inl hit ↦ (p, inl refl, re, c, hit)
            | inr miss ↦ let (q, i, r, d, x) = to (rw miss at m) in (q, inr i, r, d, x)
          ]),
          (λ (q, i, r, d, x). elim i [
            | inl same ↦ ground arith
            | inr later_on ↦ ground (arith, from (q, later_on, r, d, x))
          ]),
        )

    expand_patterns_iff :
        (a : ResolvedAggregate) (patterns tables : List Bytes) {excluded : List Bytes} (t : Bytes)
        → expand_patterns compile is_match a patterns tables ≡ ok excluded
        → (contains excluded t ≡ true) ↔ (
            (contains a.exclude_tables t ≡ true)
            ⊎ ((contains tables t ≡ true) × Matches patterns t))
    expand_patterns_iff a [] tables t h = unfold expand_patterns in ground arith
    expand_patterns_iff a (p ∷ patterns) tables {excluded} t h =
        let (res, c, e) =
          >>=-eq-ok (compile_all compile a (p ∷ patterns))
            (λ regexes. ok (add_matches is_match regexes a.exclude_tables tables)) {b = excluded}
            (unfold expand_patterns in h) in
        let some_match = any_match_iff a (p ∷ patterns) res t c in
        let added = contains-add_matches is_match res a.exclude_tables tables t in
        let same : excluded ≡ add_matches is_match res a.exclude_tables tables = cc in
        rw same (
          (λ m. elim (added.0 m) [ inl l ↦ inl l | inr (i, x) ↦ inr (i, some_match.0 x) ]),
          (λ m. elim m [
            | inl l ↦ added.1 (inl l)
            | inr (i, x) ↦ added.1 (inr (i, some_match.1 x))
          ]),
        )

    -- A success keeps out the listed tables, and those of the given ones that a pattern matches.
    pub expand_exclude_patterns_iff :
        (a : ResolvedAggregate) (tables : List Bytes) {excluded : List Bytes} (t : Bytes)
        → expand_exclude_patterns compile is_match a tables ≡ ok excluded
        → (contains excluded t ≡ true) ↔ (
            (contains a.exclude_tables t ≡ true)
            ⊎ ((contains tables t ≡ true) × Matches a.exclude_patterns t))
    expand_exclude_patterns_iff a tables t h =
        expand_patterns_iff a a.exclude_patterns tables t (unfold expand_exclude_patterns in h)

    expand_patterns-Fails :
        (a : ResolvedAggregate) (patterns tables : List Bytes) {e : ServerError}
        → expand_patterns compile is_match a patterns tables ≡ err e
        → Fails a patterns e
    unfolding expand_patterns
    expand_patterns-Fails a [] tables h = cc
    expand_patterns-Fails a (p ∷ patterns) tables {e} h =
        elim (Result-cases (compile_all compile a (p ∷ patterns))) [
          | inl (res, c) ↦ cc (rw c at h)
          | inr (e', c) ↦ compile_all-Fails a (p ∷ patterns) (ground arith)
        ]

    -- An error is that of a pattern which does not compile.
    pub expand_exclude_patterns-Fails :
        (a : ResolvedAggregate) (tables : List Bytes) {e : ServerError}
        → expand_exclude_patterns compile is_match a tables ≡ err e
        → Fails a a.exclude_patterns e
    expand_exclude_patterns-Fails a tables h =
        expand_patterns-Fails a a.exclude_patterns tables (unfold expand_exclude_patterns in h)
