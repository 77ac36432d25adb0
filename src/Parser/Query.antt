-- ===== src/Parser/Query.antt =====
-- crates/parser/src/parser.rs: table patterns, variable declarations, and the clauses of a query.
pub mod Runs
use jibs.Prelude.{ℕ, Bool, true, false, List, [], ◌∷◌, Option, none, some, if◌then◌else◌, codes}
use jibs.Prelude.Result.{Result, ok, err}
use jibs.Parser.Ast.{
  Span, Spanned, StringLiteral, VarType, VarDecl, Literal, SortDirection, OrderByClause, LimitValue,
  TablePattern, asc, desc,
}
use jibs.Parser.Chars.{Chars}
use jibs.Parser.Cursor.{
  Parser, Parsing, Env, ◌>>=◌, ◌>>◌, return, peek, cur_span, span_from, bump, eat, err_here, expect,
  expect_ident, string_literal, comma_list,
}
use jibs.Parser.Literal.{literal}
use jibs.Parser.Token.{Token}

-- `if self.eat(..) { Some(..) } else { None }`
abbrev pub when_eaten : {A : Type 0} → Token → Parsing A → Parsing (Option A)
when_eaten t parsing = do
  found ← eat t
  if found then (parsing >>= λ a. return (some a)) else return none

-- The array type of a scalar type.
abbrev pub array_type : VarType → VarType
array_type VarType.string = VarType.string_array
array_type VarType.int = VarType.int_array
array_type VarType.float = VarType.float_array
array_type VarType.bool = VarType.bool_array
array_type t = t

-- What `query_clauses` returns.
pub record Clauses : Type 0 where
  pub where_clause : Option (Spanned StringLiteral)
  pub order_by : Option OrderByClause
  pub limit : Option (Spanned LimitValue)
  pub exclude_tables : List TablePattern
  pub root_only : Bool

module _ (env : Env) where
  abbrev pub scalar_at : Option Token → Parsing VarType
  scalar_at (some Token.type_string) = bump >> return VarType.string
  scalar_at (some Token.type_int) = bump >> return VarType.int
  scalar_at (some Token.type_float) = bump >> return VarType.float
  scalar_at (some Token.type_bool) = bump >> return VarType.bool
  scalar_at _ = err_here env (codes "a type (string, int, float, or bool)")

  abbrev pub type_behind : VarType → Bool → Parsing VarType
  type_behind scalar true = do
    expect env Token.r_bracket (codes "']' to close the array type")
    return (array_type scalar)
  type_behind scalar false = return scalar

  pub var_type : Parsing (Spanned VarType)
  var_type = do
    start ← cur_span
    t ← peek
    scalar ← scalar_at t
    is_array ← eat Token.l_bracket
    whole ← type_behind scalar is_array
    span ← span_from start
    return (whole, span)

  pub var_decl : Parsing VarDecl
  unfolding var_type
  var_decl = do
    name ← expect_ident env (codes "a variable name")
    expect env Token.colon (codes "':' after the variable name")
    type ← var_type
    value ← when_eaten Token.assign (literal env)
    return (record { name = name; var_type = type; default = value })

  abbrev pub pattern_at : Option Token → Span → Parsing TablePattern
  pattern_at (some (Token.regex s)) span = bump >> return (TablePattern.regex (s, span))
  pattern_at (some (Token.ident _)) span = do
    name ← expect_ident env (codes "a table name")
    return (TablePattern.exact name)
  pattern_at _ span = err_here env (codes "a table name or /regex/ pattern")

  unfoldable pub table_pattern : Parsing TablePattern
  table_pattern = do t ← peek; span ← cur_span; pattern_at t span

  pub table_pattern_list : Parsing (List TablePattern)
  unfolding table_pattern
  table_pattern_list = comma_list table_pattern

  abbrev pub direction_at : Option Token → Parsing (Option SortDirection)
  direction_at (some Token.asc) = bump >> return (some asc)
  direction_at (some Token.desc) = bump >> return (some desc)
  direction_at _ = return none

  -- Behind `order`.
  pub order_by_clause : Parsing OrderByClause
  order_by_clause = do
    expect env Token.by (codes "'by' after 'order'")
    column ← expect_ident env (codes "a column name after 'order by'")
    t ← peek
    direction ← direction_at t
    return (record { column = column; direction = direction })

  abbrev pub limit_at : Option Token → Parsing LimitValue
  limit_at (some (Token.int n)) = bump >> return (LimitValue.literal n)
  limit_at (some Token.dollar) = do
    bump
    name ← expect_ident env (codes "a variable name after '$'")
    return (LimitValue.variable name.0)
  limit_at _ = err_here env (codes "a number or $variable after 'limit'")

  -- Behind `limit`.
  pub limit_clause : Parsing (Spanned LimitValue)
  limit_clause = do
    start ← cur_span
    t ← peek
    bound ← limit_at t
    span ← span_from start
    return (bound, span)

  abbrev pub excluded : Option (List TablePattern) → List TablePattern
  excluded none = []
  excluded (some patterns) = patterns

  pub query_clauses : Parsing Clauses
  unfolding order_by_clause limit_clause table_pattern_list
  query_clauses = do
    where_clause ←
        when_eaten Token.where_word (string_literal env (codes "a condition string after 'where'"))
    order_by ← when_eaten Token.order order_by_clause
    limit ← when_eaten Token.limit limit_clause
    patterns ← when_eaten Token.exclude table_pattern_list
    root_only ← eat Token.root_only
    return (record {
      where_clause = where_clause;
      order_by = order_by;
      limit = limit;
      exclude_tables = excluded patterns;
      root_only = root_only;
    })
