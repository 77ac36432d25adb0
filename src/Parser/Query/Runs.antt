-- ===== src/Parser/Query/Runs.antt =====
-- The parsings of patterns, declarations and query clauses run.
use jibs.Prelude.{ℕ, Bool, true, false, Option, some}
use jibs.Parser.Ast.{Span, VarType, TablePattern, LimitValue}
use jibs.Parser.Cursor.{Parsing, Env}
use jibs.Parser.Cursor.Runs.{
  Runs, running, err_here-Runs, expect-Runs, expect_ident-Runs, string_literal-Runs,
}
use jibs.Parser.Cursor.Takes.{comma_list-Runs}
use jibs.Parser.Literal.Runs.{literal-Runs}
use jibs.Parser.Query.{
  when_eaten, scalar_at, type_behind, var_type, var_decl, pattern_at, table_pattern,
  table_pattern_list, direction_at, order_by_clause, limit_at, limit_clause, query_clauses,
}
use jibs.Parser.Token.{Token}

when_eaten-Runs :
    {A : Type 0} (n : ℕ) (t : Token) (parsing : Parsing A)
    → Runs n parsing
    → Runs n (when_eaten t parsing)
when_eaten-Runs n t parsing runs = search running

module _ (env : Env) where
  scalar_at-Runs : (n : ℕ) (t : Option Token) → Runs n (scalar_at env t)
  scalar_at-Runs n (some Token.type_string) = search running
  scalar_at-Runs n (some Token.type_int) = search running
  scalar_at-Runs n (some Token.type_float) = search running
  scalar_at-Runs n (some Token.type_bool) = search running
  scalar_at-Runs n _ = err_here-Runs env VarType n _

  type_behind-Runs :
      (n : ℕ) (scalar : VarType) (is_array : Bool) → Runs n (type_behind env scalar is_array)
  type_behind-Runs n scalar true = search (running, expect-Runs)
  type_behind-Runs n scalar false = search running

  var_type-Runs : (n : ℕ) → Runs n (var_type env)
  unfolding var_type
  var_type-Runs n = search (running, scalar_at-Runs, type_behind-Runs) depth 14

  pub var_decl-Runs : (n : ℕ) → Runs n (var_decl env)
  unfolding var_decl
  var_decl-Runs n =
      search (running, expect_ident-Runs, expect-Runs, var_type-Runs, when_eaten-Runs, literal-Runs)
        depth 14

  pattern_at-Runs : (n : ℕ) (t : Option Token) (span : Span) → Runs n (pattern_at env t span)
  pattern_at-Runs n (some (Token.regex s)) span = search running
  pattern_at-Runs n (some (Token.ident s)) span = search (running, expect_ident-Runs)
  pattern_at-Runs n _ span = err_here-Runs env TablePattern n _

  pub table_pattern-Runs : (n : ℕ) → Runs n (table_pattern env)
  unfolding table_pattern
  table_pattern-Runs n = search (running, pattern_at-Runs)

  pub table_pattern_list-Runs : (n : ℕ) → Runs n (table_pattern_list env)
  unfolding table_pattern_list
  table_pattern_list-Runs n = comma_list-Runs n (table_pattern env) (table_pattern-Runs n)

  direction_at-Runs : (n : ℕ) (t : Option Token) → Runs n (direction_at env t)
  direction_at-Runs n (some Token.asc) = search running
  direction_at-Runs n (some Token.desc) = search running
  direction_at-Runs n _ = search running

  order_by_clause-Runs : (n : ℕ) → Runs n (order_by_clause env)
  unfolding order_by_clause
  order_by_clause-Runs n = search (running, expect-Runs, expect_ident-Runs, direction_at-Runs)

  limit_at-Runs : (n : ℕ) (t : Option Token) → Runs n (limit_at env t)
  limit_at-Runs n (some (Token.int m)) = search running
  limit_at-Runs n (some Token.dollar) = search (running, expect_ident-Runs)
  limit_at-Runs n _ = err_here-Runs env LimitValue n _

  limit_clause-Runs : (n : ℕ) → Runs n (limit_clause env)
  unfolding limit_clause
  limit_clause-Runs n = search (running, limit_at-Runs)

  pub query_clauses-Runs : (n : ℕ) → Runs n (query_clauses env)
  unfolding query_clauses
  query_clauses-Runs n =
      search
        (
          running, when_eaten-Runs, string_literal-Runs, order_by_clause-Runs, limit_clause-Runs,
          table_pattern_list-Runs,
        )
        depth 14
