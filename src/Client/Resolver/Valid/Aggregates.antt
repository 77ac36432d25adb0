-- ===== src/Client/Resolver/Valid/Aggregates.antt =====
-- Every get function that the resolver keeps names an aggregate of its plan.
use jibs.Prelude.{
  ℕ, zero, suc, Bool, true, false, List, [], ◌∷◌, Option, none, some, ◌≡◌, refl, arith, Bytes,
  contains, Bool-cases, inl, inr,
}
use jibs.Prelude.Dict.{Dict, lookup}
use jibs.Prelude.Result.{Result, ok, err, ◌>>=◌, >>=-eq-ok, Result-cases}
use jibs.Parser.Ast
use jibs.Parser.Ast.{
  Spanned, VarType, Expr, Statement, StatementKind, Program, GetFunctionDef, TablePattern,
}
use jibs.Protocol.Plan.{Value}
use jibs.Client.Error.{Failure, Stop}
use jibs.Client.Eval.{Floats}
use jibs.Client.Statements.{process_kind}
use jibs.Client.Resolver.{
  lift, collect_of, collect_var_decl, collect_vars, settle, settle_all, is_admitted,
  process_statement, process_statements, import_kind, imports_of, finalize_variables, passes, load,
  import_program, process_import,
}
use jibs.Client.Resolver.State.{Pending, Host, Resolver, set_variable}
use jibs.Client.Resolver.Valid.Kinds.{HasAggregates, process_kind-HasAggregates}

-- The state behind a computation has the invariant.
Leads : {E : Type 0} → Result E Resolver → Type 0
Leads x = (t : Resolver) → x ≡ ok t → HasAggregates t.plan.aggregates t.get_functions

Leads-bind :
    {E : Type 0} (x : Result E Resolver) (f : Resolver → Result E Resolver)
    → Leads x
    → ((u : Resolver) → HasAggregates u.plan.aggregates u.get_functions → Leads (f u))
    → Leads (x >>= f)
unfolding Leads
Leads-bind x f h k t e = let (u, a, b) = >>=-eq-ok x f e in k u (h u a) t b

Leads-lift : (x : Result Failure Resolver) → Leads x → Leads (lift x)
unfolding Leads
Leads-lift (ok u) h t e = let same : u ≡ t = cc e in rw (← same) (h u refl)
Leads-lift (err why) h t e = cc

Leads-err : {E : Type 0} (e : E) → Leads (err e)
unfolding Leads
Leads-err e t d = cc

Leads-ok :
    (E : Type 0) (s : Resolver)
    → HasAggregates s.plan.aggregates s.get_functions
    → Leads {E = E} (ok s)
unfolding Leads
Leads-ok E s h t e = let same : s ≡ t = cc e in rw (← same) h

-- A step that leaves the aggregates and the get functions as they are.
Leads-same :
    {E : Type 0} (s : Resolver) (x : Result E Resolver)
    → HasAggregates s.plan.aggregates s.get_functions
    → ((t : Resolver)
        → x ≡ ok t
        → (t.plan.aggregates ≡ s.plan.aggregates) × (t.get_functions ≡ s.get_functions))
    → Leads x
unfolding Leads
Leads-same s x h same t e = let (a, g) = same t e in rw (a, g) h

module _ (floats : Floats) (checked : Bool) where
  collect_of-Leads :
      (kind : StatementKind) (s : Resolver)
      → HasAggregates s.plan.aggregates s.get_functions
      → Leads (collect_of floats checked kind s)
  unfolding collect_var_decl
  collect_of-Leads (Ast.var decl) s h = Leads-same s _ h (λ t e. ground arith)
  collect_of-Leads _ s h = Leads-ok _ s h

  collect_vars-Leads :
      (stmts : List (Spanned Statement)) (s : Resolver)
      → HasAggregates s.plan.aggregates s.get_functions
      → Leads (collect_vars floats checked stmts s)
  unfolding collect_vars
  collect_vars-Leads [] s h = Leads-ok _ s h
  collect_vars-Leads ((stmt, _) ∷ rest) s h =
      Leads-bind _ _ (collect_of-Leads stmt.kind s h) (collect_vars-Leads rest)

  settle-Leads :
      (lenient : Bool) (name : Bytes) (var_type : VarType) (given default : Option Value)
      (s : Resolver)
      → HasAggregates s.plan.aggregates s.get_functions
      → Leads (settle floats checked lenient name var_type given default s)
  unfolding settle set_variable
  settle-Leads lenient name var_type (some v) default s h = Leads-same s _ h (λ t e. ground arith)
  settle-Leads lenient name var_type none (some v) s h = Leads-ok _ _ h
  settle-Leads true name var_type none none s h = Leads-ok _ _ h
  settle-Leads false name var_type none none s h = Leads-err _

  settle_all-Leads :
      (lenient : Bool) (vars : Dict Pending) (s : Resolver)
      → HasAggregates s.plan.aggregates s.get_functions
      → Leads (settle_all floats checked lenient vars s)
  unfolding settle_all
  settle_all-Leads lenient [] s h = Leads-ok _ s h
  settle_all-Leads lenient ((name, p) ∷ rest) s h =
      Leads-bind _ _ (settle-Leads lenient name p.0 (lookup name s.variables) p.1 s h)
        (settle_all-Leads lenient rest)

  process_statement-Leads :
      (stmt : Statement) (s : Resolver)
      → HasAggregates s.plan.aggregates s.get_functions
      → Leads (process_statement floats checked stmt s)
  unfolding process_statement
  process_statement-Leads stmt s h =
      elim (Result-cases (is_admitted floats checked stmt.attribute s)) [
        | inr (_, e) ↦ rw e (Leads-err _)
        | inl (false, e) ↦ rw e (Leads-ok _ s h)
        | inl (true, e) ↦
            elim (Result-cases
              (process_kind floats checked s.variables s.plan s.get_functions stmt.kind)) [
                | inr (_, d) ↦ rw (e, d) (Leads-err _)
                | inl (out, d) ↦
                    rw (e, d)
                      (Leads-ok _ _ (
                        process_kind-HasAggregates floats checked s.variables s.plan s.get_functions
                          stmt.kind out h d))
              ]
      ]

  process_statements-Leads :
      (stmts : List (Spanned Statement)) (s : Resolver)
      → HasAggregates s.plan.aggregates s.get_functions
      → Leads (process_statements floats checked stmts s)
  unfolding process_statements
  process_statements-Leads [] s h = Leads-ok _ s h
  process_statements-Leads ((stmt, _) ∷ rest) s h =
      Leads-bind _ _ (process_statement-Leads stmt s h) (process_statements-Leads rest)

  module _ (host : Host) (lenient : Bool) where
    module _ (f : Bytes → Resolver → Result Stop Resolver)
        (k : (path : Bytes) (s : Resolver)
          → HasAggregates s.plan.aggregates s.get_functions
          → Leads (f path s)) where
      import_kind-Leads :
          (attribute : Option (Spanned Expr)) (kind : StatementKind) (s : Resolver)
          → HasAggregates s.plan.aggregates s.get_functions
          → Leads (import_kind floats checked f attribute kind s)
      unfolding import_kind
      import_kind-Leads attribute (Ast.imported (path, _)) s h =
          elim (Result-cases (is_admitted floats checked attribute s)) [
            | inl (true, e) ↦ rw e (k path s h)
            | inl (false, e) ↦ rw e (Leads-ok _ s h)
            | inr (_, e) ↦ rw e (Leads-err _)
          ]
      import_kind-Leads attribute _ s h = Leads-ok _ s h

      imports_of-Leads :
          (stmts : List (Spanned Statement)) (s : Resolver)
          → HasAggregates s.plan.aggregates s.get_functions
          → Leads (imports_of floats checked f stmts s)
      unfolding imports_of
      imports_of-Leads [] s h = Leads-ok _ s h
      imports_of-Leads ((stmt, _) ∷ rest) s h =
          Leads-bind _ _ (import_kind-Leads stmt.attribute stmt.kind s h) (imports_of-Leads rest)

      passes-Leads :
          (program : Program) (s : Resolver)
          → HasAggregates s.plan.aggregates s.get_functions
          → Leads (passes floats checked host lenient f program s)
      unfolding passes finalize_variables
      passes-Leads program s h = Leads-bind _ _ (imports_of-Leads program.statements s h) λ a ha.
          Leads-bind _ _ (Leads-lift _ (collect_vars-Leads program.statements a ha)) λ b hb.
            Leads-bind _ _
              (Leads-lift _ (settle_all-Leads lenient (host.pending_order b.pending_vars) b hb))
              λ c hc. Leads-lift _ (process_statements-Leads program.statements c hc)

      import_program-Leads :
          (path file : Bytes) (s : Resolver)
          → HasAggregates s.plan.aggregates s.get_functions
          → Leads (import_program floats checked host lenient f path file s)
      unfolding import_program
      import_program-Leads path file s h =
          elim (Result-cases (load floats checked host path file)) [
            | inr (_, e) ↦ rw e (Leads-err _)
            | inl (program, e) ↦
                rw e (Leads-bind _ _ (passes-Leads program _ h) (λ u hu. Leads-ok _ _ hu))
          ]

    process_import-Leads :
        (fuel : ℕ) (path : Bytes) (s : Resolver)
        → HasAggregates s.plan.aggregates s.get_functions
        → Leads (process_import floats checked host lenient fuel path s)
    unfolding process_import
    process_import-Leads zero path s h = Leads-err _
    process_import-Leads (suc fuel) path s h =
        elim (Result-cases (host.canonicalize (host.import_file s.base_path path))) [
          | inr (_, e) ↦ rw (e, process_import) (Leads-err _)
          | inl (file, e) ↦ elim (Bool-cases (contains s.imported_files file)) [
            | inl old ↦ rw (e, old, process_import) (Leads-ok _ s h)
            | inr new ↦
                rw (e, new, process_import)
                  (import_program-Leads (process_import floats checked host lenient fuel)
                    (process_import-Leads fuel) path file s h)
          ]
        ]

  -- Of every config that the passes return.
  pub passes-HasAggregates :
      (host : Host) (lenient : Bool) (fuel : ℕ) (program : Program) (s t : Resolver)
      → HasAggregates s.plan.aggregates s.get_functions
      → passes floats checked host lenient
          (process_import floats checked host lenient fuel)
          program
          s
        ≡ ok t
      → HasAggregates t.plan.aggregates t.get_functions
  unfolding Leads
  passes-HasAggregates host lenient fuel program s t h =
      passes-Leads host lenient (process_import floats checked host lenient fuel)
        (process_import-Leads host lenient fuel) program s h t
