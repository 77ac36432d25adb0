-- ===== src/Client/Json/Patterns/Rules.antt =====
-- What a computation makes of the patterns of a plan: rules for its steps.
use jibs.Prelude.{List, ◌≡◌, refl, ◌∙◌, Bytes}
use jibs.Prelude.Result.{Result, ok, err, ◌>>=◌, >>=-eq-ok}
use jibs.Protocol.Plan.{ExecutionPlan}
use jibs.Client.Error.{Failure}
use jibs.Client.Resolver.{lift}
use jibs.Client.Json.State.{JsonResolver}

abbrev pub Patterns : Type 0
Patterns = List Bytes × List Bytes × List Bytes × List Bytes

-- Those of the plan itself; its aggregates have exclude patterns of their own.
abbrev pub patterns_of : ExecutionPlan → Patterns
patterns_of plan =
    (plan.excluded_patterns, plan.ignored_patterns, plan.full_patterns, plan.full_tables)

abbrev pub of_state : JsonResolver → Patterns
of_state s = patterns_of s.plan

-- What the computation returns has the patterns.
pub Leads : {E S : Type 0} → (S → Patterns) → Patterns → Result E S → Type 0
Leads {E} {S} view v x = (t : S) → x ≡ ok t → view t ≡ v

module _ {E S : Type 0} (view : S → Patterns) (v : Patterns) where
  pub Leads-bind :
      {A : Type 0} (m : Result E A) (f : A → Result E S)
      → ((a : A) → Leads view v (f a))
      → Leads view v (m >>= f)
  unfolding Leads
  Leads-bind m f h t e = let (a, _, b) = >>=-eq-ok m f e in h a t b

  pub Leads-err : (e : E) → Leads {S = S} view v (err e)
  unfolding Leads
  Leads-err e t d = cc

pub Leads-ok :
    (E : Type 0) {S : Type 0} (view : S → Patterns) (v : Patterns) (s : S)
    → view s ≡ v
    → Leads {E = E} view v (ok s)
unfolding Leads
Leads-ok E view v s h t e = let same : s ≡ t = cc e in rw (← same) h

pub Leads-then :
    {E S T : Type 0} (view : S → Patterns) (view' : T → Patterns) (v : Patterns) (x : Result E S)
    (f : S → Result E T)
    → Leads view v x
    → ((u : S) → Leads view' (view u) (f u))
    → Leads view' v (x >>= f)
unfolding Leads
Leads-then view view' v x f h k t e = let (u, a, b) = >>=-eq-ok x f e in k u t b ∙ h u a

pub Leads-lift :
    {S : Type 0} (view : S → Patterns) (v : Patterns) (x : Result Failure S)
    → Leads view v x
    → Leads view v (lift x)
unfolding Leads
Leads-lift view v (ok u) h t e = let same : u ≡ t = cc e in rw (← same) (h u refl)
Leads-lift view v (err why) h t e = cc

-- The rule of a result's own equation.
pub Leads-at :
    {E S : Type 0} (view : S → Patterns) (v : Patterns) (x : Result E S) (t : S)
    → Leads view v x
    → x ≡ ok t
    → view t ≡ v
unfolding Leads
Leads-at view v x t h = h t
