-- ===== src/Client/Resolver/Passes.antt =====
-- What the passes over the statements of a file leave as it was.
use jibs.Prelude.{Bool, true, false, List, [], ◌∷◌, Option, none, some, ◌≡◌, ◌∙◌, arith, Bytes}
use jibs.Prelude.Dict.{Dict, lookup}
use jibs.Prelude.Result.{ok, >>=-eq-ok}
use jibs.Parser.Ast
use jibs.Parser.Ast.{Spanned, VarType, Statement, StatementKind}
use jibs.Protocol.Plan.{Value}
use jibs.Client.Eval.{Floats}
use jibs.Client.Resolver.{
  collect_var_decl, collect_of, collect_vars, settle, settle_all, process_statement,
  process_statements,
}
use jibs.Client.Resolver.State.{Pending, Resolver, set_variable}

-- The imports, and the variables found missing, are the same.
abbrev pub Kept : Resolver → Resolver → Type 0
Kept s t = (t.missing_vars ≡ s.missing_vars) × (t.imported_files ≡ s.imported_files)

module _ (floats : Floats) (checked : Bool) where
  collect_of-Kept :
      (kind : StatementKind) (s t : Resolver) → collect_of floats checked kind s ≡ ok t → Kept s t
  unfolding collect_var_decl
  collect_of-Kept (Ast.var decl) s t e = ground arith
  collect_of-Kept _ s t e = ground arith

  pub collect_vars-Kept :
      (stmts : List (Spanned Statement)) (s t : Resolver)
      → collect_vars floats checked stmts s ≡ ok t
      → Kept s t
  unfolding collect_vars
  collect_vars-Kept [] s t e = ground arith
  collect_vars-Kept ((stmt, _) ∷ rest) s t e =
      let (u, first, more) = >>=-eq-ok (collect_of floats checked stmt.kind s) _ e in
      let front = collect_of-Kept stmt.kind s u first in
      let back = collect_vars-Kept rest u t more in (back.0 ∙ front.0, back.1 ∙ front.1)

  process_statement-Kept :
      (stmt : Statement) (s t : Resolver)
      → process_statement floats checked stmt s ≡ ok t
      → Kept s t
  unfolding process_statement
  process_statement-Kept stmt s t e = ground arith

  pub process_statements-Kept :
      (stmts : List (Spanned Statement)) (s t : Resolver)
      → process_statements floats checked stmts s ≡ ok t
      → Kept s t
  unfolding process_statements
  process_statements-Kept [] s t e = ground arith
  process_statements-Kept ((stmt, _) ∷ rest) s t e =
      let (u, first, more) = >>=-eq-ok (process_statement floats checked stmt s) _ e in
      let front = process_statement-Kept stmt s u first in
      let back = process_statements-Kept rest u t more in (back.0 ∙ front.0, back.1 ∙ front.1)

  settle-files :
      (lenient : Bool) (name : Bytes) (var_type : VarType) (given default : Option Value)
      (s t : Resolver)
      → settle floats checked lenient name var_type given default s ≡ ok t
      → t.imported_files ≡ s.imported_files
  unfolding settle set_variable
  settle-files lenient name var_type (some v) default s t e = ground arith
  settle-files lenient name var_type none (some v) s t e = ground arith
  settle-files true name var_type none none s t e = ground arith
  settle-files false name var_type none none s t e = ground arith

  pub settle_all-files :
      (lenient : Bool) (vars : Dict Pending) (s t : Resolver)
      → settle_all floats checked lenient vars s ≡ ok t
      → t.imported_files ≡ s.imported_files
  unfolding settle_all
  settle_all-files lenient [] s t e = ground arith
  settle_all-files lenient ((name, p) ∷ rest) s t e =
      let (u, first, more) =
        >>=-eq-ok (settle floats checked lenient name p.0 (lookup name s.variables) p.1 s) _ e in
      settle_all-files lenient rest u t more
      ∙ settle-files lenient name p.0 (lookup name s.variables) p.1 s u first
