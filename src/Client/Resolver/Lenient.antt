-- ===== src/Client/Resolver/Lenient.antt =====
-- Check mode against a real resolution: the two agree wherever no variable is missing.
use jibs.Prelude.{
  ℕ, zero, suc, Bool, true, false, List, [], ◌∷◌, ◌++◌, Option, none, some, ◌≡◌, refl, sym, ap, ◌∙◌,
  ◌↔◌, arith, Bytes, contains, inl, inr, Bool-cases,
}
use jibs.Prelude.Dict.{Dict, lookup}
use jibs.Prelude.Result.{Result, ok, err, ◌>>=◌, >>=-eq-ok, Result-cases}
use jibs.Parser.Ast
use jibs.Parser.Ast.{Spanned, VarType, Expr, Statement, StatementKind, Program}
use jibs.Protocol.Plan.{Value}
use jibs.Client.Error.{Failure, Stop}
use jibs.Client.Eval.{Floats}
use jibs.Client.Resolver.{
  lift, collect_vars, settle, settle_all, is_admitted, process_statements, import_kind, imports_of,
  finalize_variables, passes, load, import_program, process_import, resolve_program, resolve,
}
use jibs.Client.Resolver.State.{
  Pending, Host, Resolver, ResolvedConfig, set_variable, config_of, new_resolver,
}
use jibs.Client.Resolver.Validate.{validate_plan}
use jibs.Client.Resolver.Passes.{collect_vars-Kept, process_statements-Kept}

-- From a state in which nothing is missing, `x` of the real resolution and `y` of check mode end in
-- the same state, with nothing missing; and what ends so has begun so.
Same : {E : Type 0} → List (Bytes × VarType) → Result E Resolver → Result E Resolver → Type 0
Same missing x y =
    (t : Resolver)
    → ((missing ≡ []) → (x ≡ ok t) → (y ≡ ok t) × (t.missing_vars ≡ []))
      × ((y ≡ ok t) → (t.missing_vars ≡ []) → (missing ≡ []) × (x ≡ ok t))

Same-bind :
    {E : Type 0} (missing : List (Bytes × VarType)) (x y : Result E Resolver)
    (f g : Resolver → Result E Resolver)
    → Same missing x y
    → ((u : Resolver) → Same u.missing_vars (f u) (g u))
    → Same missing (x >>= f) (y >>= g)
unfolding Same
Same-bind missing x y f g h k t = (
  λ empty e.
      let (u, a, b) = >>=-eq-ok x f e in
      let (c, none_yet) = (h u).0 empty a in
      let (d, still_none) = (k u t).0 none_yet b in (rw c d, still_none),
  λ e empty.
      let (u, a, b) = >>=-eq-ok y g e in
      let (none_yet, d) = (k u t).1 b empty in
      let (at_first, c) = (h u).1 a none_yet in (at_first, rw c d),
)

Same-lift :
    (missing : List (Bytes × VarType)) (x y : Result Failure Resolver)
    → Same missing x y
    → Same missing (lift x) (lift y)
unfolding Same
Same-lift missing (ok u) (ok v) h t = ground (arith, h t)
Same-lift missing (ok u) (err b) h t = ground (arith, h t)
Same-lift missing (err a) (ok v) h t = ground (arith, h t)
Same-lift missing (err a) (err b) h t = ground arith

-- A step that both do, and that finds nothing missing.
Same-steady :
    {E : Type 0} (missing : List (Bytes × VarType)) (x : Result E Resolver)
    → ((t : Resolver) → x ≡ ok t → t.missing_vars ≡ missing)
    → Same missing x x
unfolding Same
Same-steady missing x keeps t =
    (λ empty e. (e, keeps t e ∙ empty), λ e empty. (ground (arith, keeps t e), e))

append-ne-nil : {A : Type 0} (xs : List A) (x : A) → xs ++ x ∷ [] ≡ [] → ⊥
append-ne-nil [] x e = cc
append-ne-nil (_ ∷ xs) x e = cc

module _ (floats : Floats) (checked : Bool) where
  settle-Same :
      (name : Bytes) (var_type : VarType) (given default : Option Value) (s : Resolver)
      → Same s.missing_vars
          (settle floats checked false name var_type given default s)
          (settle floats checked true name var_type given default s)
  unfolding settle set_variable Same
  settle-Same name var_type (some v) default s t = ground arith
  settle-Same name var_type none (some v) s t = ground arith
  settle-Same name var_type none none s t =
      ground (arith, append-ne-nil s.missing_vars (name, var_type))

  settle_all-Same :
      (vars : Dict Pending) (s : Resolver)
      → Same s.missing_vars
          (settle_all floats checked false vars s)
          (settle_all floats checked true vars s)
  unfolding settle_all
  settle_all-Same [] s = Same-steady s.missing_vars (ok s) (λ t e. ground arith)
  settle_all-Same ((name, p) ∷ rest) s =
      Same-bind s.missing_vars _ _ _ _ (settle-Same name p.0 (lookup name s.variables) p.1 s)
        (settle_all-Same rest)

  module _ (f g : Bytes → Resolver → Result Stop Resolver)
      (h : (path : Bytes) (s : Resolver) → Same s.missing_vars (f path s) (g path s)) where
    import_kind-Same :
        (attribute : Option (Spanned Expr)) (kind : StatementKind) (s : Resolver)
        → Same s.missing_vars
            (import_kind floats checked f attribute kind s)
            (import_kind floats checked g attribute kind s)
    unfolding import_kind
    import_kind-Same attribute (Ast.imported (path, _)) s =
        elim (Result-cases (is_admitted floats checked attribute s)) [
          | inl (true, e) ↦ rw e (h path s)
          | inl (false, e) ↦ rw e (Same-steady s.missing_vars (ok s) (λ t e. ground arith))
          | inr (_, e) ↦ rw e (Same-steady s.missing_vars (err _) (λ t e. cc))
        ]
    import_kind-Same attribute _ s = Same-steady s.missing_vars (ok s) (λ t e. ground arith)

    imports_of-Same :
        (stmts : List (Spanned Statement)) (s : Resolver)
        → Same s.missing_vars
            (imports_of floats checked f stmts s)
            (imports_of floats checked g stmts s)
    unfolding imports_of
    imports_of-Same [] s = Same-steady s.missing_vars (ok s) (λ t e. ground arith)
    imports_of-Same ((stmt, _) ∷ rest) s =
        Same-bind s.missing_vars _ _ _ _ (import_kind-Same stmt.attribute stmt.kind s)
          (imports_of-Same rest)

    passes-Same :
        (host : Host) (program : Program) (s : Resolver)
        → Same s.missing_vars
            (passes floats checked host false f program s)
            (passes floats checked host true g program s)
    unfolding passes finalize_variables
    passes-Same host program s =
        Same-bind s.missing_vars _ _ _ _ (imports_of-Same program.statements s) λ a.
          Same-bind a.missing_vars _ _ _ _
            (Same-lift a.missing_vars _ _ (
              Same-steady a.missing_vars (collect_vars floats checked program.statements a)
                (λ t e. (collect_vars-Kept floats checked program.statements a t e).0)))
            λ b.
              Same-bind b.missing_vars _ _ _ _
                (Same-lift b.missing_vars _ _
                  (settle_all-Same (host.pending_order b.pending_vars) b))
                λ c. Same-lift c.missing_vars _ _ (
                  Same-steady c.missing_vars
                    (process_statements floats checked program.statements c)
                    (λ t e. (process_statements-Kept floats checked program.statements c t e).0))

    import_program-Same :
        (host : Host) (import_path canonical_path : Bytes) (s : Resolver)
        → Same s.missing_vars
            (import_program floats checked host false f import_path canonical_path s)
            (import_program floats checked host true g import_path canonical_path s)
    unfolding import_program
    import_program-Same host import_path canonical_path s =
        elim (Result-cases (load floats checked host import_path canonical_path)) [
          | inr (_, e) ↦ rw e (Same-steady s.missing_vars (err _) (λ t e. cc))
          | inl (program, e) ↦ rw e (
              Same-bind s.missing_vars _ _ _ _ (passes-Same host program _)
                (λ u. Same-steady u.missing_vars (ok _) (λ t d. ground arith)))
        ]

  process_import-Same :
      (host : Host) (fuel : ℕ) (path : Bytes) (s : Resolver)
      → Same s.missing_vars
          (process_import floats checked host false fuel path s)
          (process_import floats checked host true fuel path s)
  unfolding process_import
  process_import-Same host zero path s = Same-steady s.missing_vars (err _) (λ t e. cc)
  process_import-Same host (suc fuel) path s =
      elim (Result-cases (host.canonicalize (host.import_file s.base_path path))) [
        | inr (_, e) ↦ rw (e, process_import) (Same-steady s.missing_vars (err _) (λ t e. cc))
        | inl (file, e) ↦ elim (Bool-cases (contains s.imported_files file)) [
          | inl old ↦
              rw (e, old, process_import) (Same-steady s.missing_vars (ok s) (λ t e. ground arith))
          | inr new ↦
              rw (e, new, process_import)
                (import_program-Same (process_import floats checked host false fuel)
                  (process_import floats checked host true fuel) (process_import-Same host fuel)
                  host path file s)
        ]
      ]

-- What follows the passes, a validation, returns the config that it is given.
Same-config :
    (x y : Result Stop Resolver) (check : ResolvedConfig → Result Stop ResolvedConfig)
    → ((c d : ResolvedConfig) → check c ≡ ok d → d ≡ c)
    → Same [] x y
    → (config : ResolvedConfig)
    → ((x >>= λ a. ok (config_of a)) >>= check ≡ ok config)
      ↔ (((y >>= λ a. ok (config_of a)) >>= check ≡ ok config) × (config.missing_vars ≡ []))
unfolding Same
Same-config x y check same h config = (
  λ e.
      let (c, first, checked) = >>=-eq-ok (x >>= λ a. ok (config_of a)) check e in
      let (u, a, b) = >>=-eq-ok x (λ a. ok (config_of a)) first in
      let (d, empty) = (h u).0 refl a in
      let same_config : config_of u ≡ c = ground arith in
      (rw (d, same_config) checked, rw (same c config checked, ← same_config) empty),
  λ (e, empty).
      let (c, first, checked) = >>=-eq-ok (y >>= λ a. ok (config_of a)) check e in
      let (u, a, b) = >>=-eq-ok y (λ a. ok (config_of a)) first in
      let same_config : config_of u ≡ c = ground arith in
      let none_missing : u.missing_vars ≡ [] =
        ap (λ (k : ResolvedConfig). k.missing_vars) (same_config ∙ sym (same c config checked))
        ∙ empty in
      let (_, d) = (h u).1 a none_missing in rw (d, same_config) checked,
)

module _ (floats : Floats) (checked : Bool) (host : Host) where
  validated :
      (c d : ResolvedConfig)
      → lift (validate_plan host c.plan c.get_functions) >>= (λ _. ok c) ≡ ok d
      → d ≡ c
  validated c d e =
      let (_, _, same) = >>=-eq-ok (lift (validate_plan host c.plan c.get_functions)) _ e in
      ground arith

  -- `resolve` returns a config exactly if `resolve_lenient` returns that config, and reports no
  -- missing variable in it.
  pub resolve-lenient_iff :
      (fuel : ℕ) (base_path : Bytes) (program : Program) (cli_vars : Dict Bytes)
      (config : ResolvedConfig)
      → (resolve floats checked host false fuel base_path program cli_vars ≡ ok config) ↔ (
          (resolve floats checked host true fuel base_path program cli_vars ≡ ok config)
          × (config.missing_vars ≡ []))
  unfolding resolve resolve_program new_resolver
  resolve-lenient_iff fuel base_path program cli_vars = Same-config _ _ _ validated (
      passes-Same floats checked (process_import floats checked host false fuel)
        (process_import floats checked host true fuel)
        (process_import-Same floats checked host fuel) host program
        (new_resolver host base_path cli_vars))
