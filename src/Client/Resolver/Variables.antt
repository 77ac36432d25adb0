-- ===== src/Client/Resolver/Variables.antt =====
-- The values of the declared variables.
use jibs.Prelude.{
  Bool, true, false, [], ◌∷◌, Option, none, some, ◌≡◌, refl, sym, ◌∙◌, arith, Bytes, bytes_eq,
  bytes_eq_iff, if◌then◌else◌, Bool-cases, inl, inr,
}
use jibs.Prelude.Dict
use jibs.Prelude.Dict.{Dict, lookup, lookup-insert}
use jibs.Prelude.Result.{Result, ok, err, >>=-eq-ok}
use jibs.Protocol.Plan.{Value}
use jibs.Client.Error.{Failure}
use jibs.Client.Eval.{Floats}
use jibs.Client.Resolver.{coerce_value, settle, settle_all, finalize_variables}
use jibs.Client.Resolver.State.{Pending, Host, Resolver, placeholder_value, set_variable}

-- No name twice.
abbrev pub IsDistinct : Dict Pending → Type 0
IsDistinct [] = Unit
IsDistinct ((name, _) ∷ rest) = (lookup name rest ≡ none) × IsDistinct rest

abbrev pub result_value : Result Failure Value → Option Value
result_value (ok v) = some v
result_value (err _) = none

module _ (floats : Floats) (checked : Bool) where
  -- The value of a variable, by the value that it had and its declaration: a value that was there is
  -- kept, as its type asks, and only a variable without one gets its default or, in check mode, a
  -- placeholder.
  abbrev pub settled : Bool → Option Value → Option Pending → Option Value
  settled lenient given none = given
  settled lenient (some value) (some (var_type, _)) =
      result_value (coerce_value floats checked value var_type)
  settled lenient none (some (_, some default)) = some default
  settled true none (some (var_type, none)) = some (placeholder_value var_type)
  settled false none (some (_, none)) = none

  settle_lem :
      (lenient : Bool) (name : Bytes) (p : Pending) (given : Option Value) (s u : Resolver)
      → settle floats checked lenient name p.0 given p.1 s ≡ ok u
      → (v : Value) × (settled lenient given (some p) ≡ some v)
        × (u.variables ≡ Dict.insert name v s.variables)
        × (u.plan.variables ≡ Dict.insert name v s.plan.variables)
  unfolding settle set_variable
  settle_lem lenient name (ty, d) (some v) s u e =
      let (value, typed, done) = >>=-eq-ok (coerce_value floats checked v ty) _ e in
      (value, rw typed refl, ground arith, ground arith)
  settle_lem lenient name (ty, some d) none s u e = (d, refl, ground arith, ground arith)
  settle_lem true name (ty, none) none s u e =
      (placeholder_value ty, refl, ground arith, ground arith)
  settle_lem false name (ty, none) none s u e = cc

  -- What the plan has for a name: the value of a declared variable, else what it had.
  abbrev pub planned : Option Value → Option Pending → Option Value → Option Value
  planned before none value = before
  planned before (some _) value = value

  settle_all-settled :
      (lenient : Bool) (vars : Dict Pending) (s t : Resolver) (name : Bytes)
      → IsDistinct vars
      → settle_all floats checked lenient vars s ≡ ok t
      → (lookup name t.variables ≡ settled lenient (lookup name s.variables) (lookup name vars))
        × (lookup name t.plan.variables
            ≡ planned (lookup name s.plan.variables) (lookup name vars) (lookup name t.variables))
  unfolding settle_all lookup
  settle_all-settled lenient [] s t name distinct e = ground arith
  settle_all-settled lenient ((j, p) ∷ rest) s t name (new, distinct) e =
      let (u, first, more) =
        >>=-eq-ok (settle floats checked lenient j p.0 (lookup j s.variables) p.1 s) _ e in
      let (v, value, vars, plan_vars) = settle_lem lenient j p (lookup j s.variables) s u first in
      let (later, later_plan) = settle_all-settled lenient rest u t name distinct more in
      let in_vars : lookup name u.variables
          ≡ (if bytes_eq j name then some v else lookup name s.variables) =
        rw vars (lookup-insert j name v s.variables) in
      let in_plan : lookup name u.plan.variables
          ≡ (if bytes_eq j name then some v else lookup name s.plan.variables) =
        rw plan_vars (lookup-insert j name v s.plan.variables) in
      elim (Bool-cases (bytes_eq j name)) [
        | inl same ↦
            let here : j ≡ name = (bytes_eq_iff j name).0 same in
            let none_later : lookup name rest ≡ none = rw (← here) new in
            let given : lookup name u.variables ≡ some v = rw in_vars (rw same refl) in
            let first_value : settled lenient (lookup name s.variables) (some p) ≡ some v =
              rw (← here) value in
            let kept : lookup name t.variables ≡ some v = later ∙ rw (none_later, given) refl in
            let planned_value : lookup name u.plan.variables ≡ some v = rw in_plan (rw same refl) in
            rw same (kept ∙ sym first_value, later_plan ∙ rw (none_later, planned_value) (sym kept))
        | inr other ↦
            let given : lookup name u.variables ≡ lookup name s.variables =
              rw in_vars (rw other refl) in
            let planned_value : lookup name u.plan.variables ≡ lookup name s.plan.variables =
              rw in_plan (rw other refl) in
            rw other (later ∙ rw given refl, later_plan ∙ rw planned_value refl)
      ]

  -- Whatever the order in which the declarations are walked: behind `finalize_variables` each declared
  -- variable has the value that it had, as its type asks, and only where it had none its default, or
  -- in check mode a placeholder; the plan has the same values, and other names keep theirs.
  pub finalize_variables-settled :
      (host : Host) (lenient : Bool) (s t : Resolver) (name : Bytes)
      → IsDistinct (host.pending_order s.pending_vars)
      → lookup name (host.pending_order s.pending_vars) ≡ lookup name s.pending_vars
      → finalize_variables floats checked host lenient s ≡ ok t
      → (lookup name t.variables
          ≡ settled lenient (lookup name s.variables) (lookup name s.pending_vars))
        × (lookup name t.plan.variables
            ≡ planned
                (lookup name s.plan.variables)
                (lookup name s.pending_vars)
                (lookup name t.variables))
  unfolding finalize_variables
  finalize_variables-settled host lenient s t name distinct walked e =
      rw (← walked)
        (settle_all-settled lenient (host.pending_order s.pending_vars) s t name distinct e)
