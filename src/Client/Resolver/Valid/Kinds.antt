-- ===== src/Client/Resolver/Valid/Kinds.antt =====
-- Every get function that a statement adds names an aggregate of the plan.
use jibs.Prelude.{
  Bool, true, List, [], ◌∷◌, ◌++◌, ◌≡◌, refl, arith, Bytes, contains, All, All-append,
}
use jibs.Prelude.Dict.{Dict}
use jibs.Prelude.Result.{Result, ok, >>=-eq-ok}
use jibs.Parser.Ast
use jibs.Parser.Ast.{
  Spanned, VarType, Expr, Statement, StatementKind, Program, GetFunctionDef, TablePattern,
}
use jibs.Protocol.Plan.{Value, ExecutionPlan, ResolvedAggregate}
use jibs.Client.Error.{Failure}
use jibs.Client.Eval.{Floats}
use jibs.Client.Statements.{
  process_kind, process_get_function, process_aggregate, process_faker, process_preserve,
  process_set,
}
use jibs.Client.Statements.Parts.{
  ResolvedGetFunction, has_aggregate, process_exclude, process_ignore, process_full, add_exact,
  add_regex,
}

-- Each get function names an aggregate of the list.
abbrev pub HasAggregates : List ResolvedAggregate → List ResolvedGetFunction → Type 0
HasAggregates aggregates =
    All (λ (f : ResolvedGetFunction). has_aggregate aggregates f.aggregate_name ≡ true)

has_aggregate-append :
    (aggregates more : List ResolvedAggregate) (name : Bytes)
    → has_aggregate aggregates name ≡ true
    → has_aggregate (aggregates ++ more) name ≡ true
unfolding has_aggregate contains
has_aggregate-append [] more name h = cc
has_aggregate-append (a ∷ aggregates) more name h =
    ground (arith, has_aggregate-append aggregates more name)

HasAggregates-append :
    (aggregates more : List ResolvedAggregate) (gets : List ResolvedGetFunction)
    → HasAggregates aggregates gets
    → HasAggregates (aggregates ++ more) gets
HasAggregates-append aggregates more [] h = tt
HasAggregates-append aggregates more (f ∷ gets) (first, rest) = (
  has_aggregate-append aggregates more f.aggregate_name first,
  HasAggregates-append aggregates more gets rest,
)

process_full-aggregates :
    (plan : ExecutionPlan) (patterns : List TablePattern)
    → (process_full plan patterns).aggregates ≡ plan.aggregates
unfolding process_full
process_full-aggregates plan [] = refl
process_full-aggregates plan (p ∷ patterns) =
    process_full-aggregates
      (record plan {
        full_tables = add_exact p plan.full_tables;
        full_patterns = add_regex p plan.full_patterns;
      })
      patterns

-- The invariant passes to what a computation returns.
out-HasAggregates :
    (made out : ExecutionPlan × List ResolvedGetFunction)
    → ◌≡◌ {A = Result Failure (ExecutionPlan × List ResolvedGetFunction)} (ok made) (ok out)
    → HasAggregates made.0.aggregates made.1
    → HasAggregates out.0.aggregates out.1
out-HasAggregates made out e h = let same : made ≡ out = cc e in rw (← same) h

module _ (floats : Floats) (checked : Bool) where
  process_get_function-has_aggregate :
      (vars : Dict Value) (aggregates : List ResolvedAggregate) (func : GetFunctionDef)
      (f : ResolvedGetFunction)
      → process_get_function floats checked vars aggregates func ≡ ok f
      → has_aggregate aggregates f.aggregate_name ≡ true
  unfolding process_get_function
  process_get_function-has_aggregate vars aggregates func f e = ground arith

  pub process_kind-HasAggregates :
      (vars : Dict Value) (plan : ExecutionPlan) (gets : List ResolvedGetFunction)
      (kind : StatementKind) (out : ExecutionPlan × List ResolvedGetFunction)
      → HasAggregates plan.aggregates gets
      → process_kind floats checked vars plan gets kind ≡ ok out
      → HasAggregates out.0.aggregates out.1
  unfolding process_kind process_exclude process_ignore
  process_kind-HasAggregates vars plan gets (Ast.aggregate block) out h e =
      let (a, _, done) = >>=-eq-ok (process_aggregate floats checked vars block) _ e in
      out-HasAggregates _ out done (HasAggregates-append plan.aggregates (a ∷ []) gets h)
  process_kind-HasAggregates vars plan gets (Ast.get func) out h e =
      let (f, made, done) =
        >>=-eq-ok (process_get_function floats checked vars plan.aggregates func) _ e in
      out-HasAggregates _ out done (
        All-append _ gets (f ∷ []) h
          (process_get_function-has_aggregate vars plan.aggregates func f made, tt))
  process_kind-HasAggregates vars plan gets (Ast.full patterns) out h e =
      out-HasAggregates _ out e (rw (process_full-aggregates plan patterns) h)
  process_kind-HasAggregates vars plan gets (Ast.StatementKind.faker decl) out h e =
      let (_, _, done) = >>=-eq-ok (process_faker floats checked vars decl.source) _ e in
      out-HasAggregates _ out done h
  process_kind-HasAggregates vars plan gets (Ast.preserve stmt) out h e =
      let (_, _, done) = >>=-eq-ok (process_preserve floats checked vars stmt) _ e in
      out-HasAggregates _ out done h
  process_kind-HasAggregates vars plan gets (Ast.set block) out h e =
      let (_, _, done) = >>=-eq-ok (process_set floats checked vars block) _ e in
      out-HasAggregates _ out done h
  process_kind-HasAggregates vars plan gets (Ast.imported _) out h e = out-HasAggregates _ out e h
  process_kind-HasAggregates vars plan gets (Ast.var _) out h e = out-HasAggregates _ out e h
  process_kind-HasAggregates vars plan gets (Ast.relation _) out h e = out-HasAggregates _ out e h
  process_kind-HasAggregates vars plan gets (Ast.ignore_relation _) out h e =
      out-HasAggregates _ out e h
  process_kind-HasAggregates vars plan gets (Ast.anonymize _) out h e = out-HasAggregates _ out e h
  process_kind-HasAggregates vars plan gets (Ast.exclude _) out h e = out-HasAggregates _ out e h
  process_kind-HasAggregates vars plan gets (Ast.ignore _) out h e = out-HasAggregates _ out e h
  process_kind-HasAggregates vars plan gets (Ast.after _) out h e = out-HasAggregates _ out e h
