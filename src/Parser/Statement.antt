-- ===== src/Parser/Statement.antt =====
-- crates/parser/src/parser.rs: the statements.
pub mod Runs
use jibs.Prelude.{
  ℕ, zero, suc, ◌+◌, Bool, true, false, List, [], ◌∷◌, ◌++◌, Option, none, some, if◌then◌else◌,
  codes,
}
use jibs.Prelude.Result.{Result, ok, err}
use jibs.Parser.Ast.{
  Span, Spanned, Expr, FakerValue, FakerSource, ColumnRef, RelationDecl, AnonymizeTarget,
  AnonymizeRule, VarDecl, Assignment, TablePattern, StatementKind, Statement,
}
use jibs.Parser.Chars.{Chars}
use jibs.Parser.Cursor.{
  Parser, Parsing, Env, ◌>>=◌, ◌>>◌, return, peek, cur_span, span_from, bump, eat, next_is,
  err_here, expect, expect_ident, string_raw, string_literal, repeat, round_if, comma_list,
  elements,
}
use jibs.Parser.Expr.{expr}
use jibs.Parser.Literal.{value}
use jibs.Parser.Query.{
  Clauses, var_decl, table_pattern, table_pattern_list, query_clauses, when_eaten,
}
use jibs.Parser.Token.{Token}

abbrev pub is_ident : Option Token → Bool
is_ident (some (Token.ident _)) = true
is_ident _ = false

abbrev pub next_is_ident : Parsing Bool
next_is_ident = peek >>= λ t. return (is_ident t)

-- A list that may be empty, up to its closing token.
abbrev pub elements_or_none : {A : Type 0} → Token → Parsing A → Parsing (List A)
elements_or_none close one = do
  closes ← next_is close
  if closes then return [] else elements close one

-- A node with its span.
abbrev pub spanned : {A : Type 0} → Parsing A → Parsing (Spanned A)
spanned parsing = do start ← cur_span; a ← parsing; span ← span_from start; return (a, span)

module _ (env : Env) where
  pub import_stmt : Parsing StatementKind
  import_stmt = do
    bump
    path ← string_raw env (codes "a file path string after 'import'")
    return (StatementKind.imported path)

  pub var_stmt : Parsing StatementKind
  var_stmt = do bump; decl ← var_decl env; return (StatementKind.var decl)

  abbrev pub faker_value_at : Bool → Parsing FakerValue
  faker_value_at true = do
    expect env Token.dollar (codes "'$' after '...'")
    name ← expect_ident env (codes "a variable name after '...$'")
    return (FakerValue.spread name.0)
  faker_value_at false = do
    s ← string_literal env (codes "a string value or ...$variable")
    return (FakerValue.literal s.0)

  pub faker_value : Parsing FakerValue
  faker_value = do spread ← eat Token.spread; faker_value_at spread

  abbrev pub faker_source_at : Bool → Bool → Parsing FakerSource
  faker_source_at true _ = do
    name ← expect_ident env (codes "a variable name after '$'")
    return (FakerSource.variable name.0)
  faker_source_at false true = do
    bump
    values ← elements_or_none Token.r_bracket (spanned faker_value)
    expect env Token.r_bracket (codes "']' to close the faker value list")
    return (FakerSource.array values)
  faker_source_at false false = err_here env (codes "'[' or '$' after the faker name")

  pub faker_stmt : Parsing StatementKind
  unfolding faker_value
  faker_stmt = do
    bump
    name ← expect_ident env (codes "a faker pool name")
    dollar ← eat Token.dollar
    bracket ← next_is Token.l_bracket
    source ← faker_source_at dollar bracket
    return (StatementKind.faker (record { name = name; source = source }))

  pub column_ref : Parsing ColumnRef
  column_ref = do
    table ← expect_ident env (codes "a table name")
    expect env Token.dot (codes "'.' between table and column")
    column ← expect_ident env (codes "a column name")
    return (record { table = table.0; column = column.0 })

  abbrev pub relation_kind : Bool → RelationDecl → StatementKind
  relation_kind ignore decl =
      if ignore then StatementKind.ignore_relation decl else StatementKind.relation decl

  pub relation_stmt : Bool → Parsing StatementKind
  unfolding column_ref
  relation_stmt ignore = do
    bump
    from ← spanned column_ref
    expect env Token.arrow (codes "'->' between the relation columns")
    to ← spanned column_ref
    return (relation_kind ignore (record { source = from; target = to }))

  abbrev pub target_at : Option Token → Parsing AnonymizeTarget
  target_at (some Token.null) = bump >> return AnonymizeTarget.to_null
  target_at (some (Token.ident _)) = do
    name ← expect_ident env (codes "a faker name")
    return (AnonymizeTarget.faker name)
  target_at _ = err_here env (codes "'null' or a faker name after '->'")

  pub anonymize_rule : Parsing AnonymizeRule
  anonymize_rule = do
    column ← expect_ident env (codes "a column name")
    expect env Token.arrow (codes "'->' after the column name")
    t ← peek
    target ← target_at t
    return (record { column = column; target = target })

  pub anonymize_stmt : Parsing StatementKind
  unfolding anonymize_rule
  anonymize_stmt = do
    bump
    table ← expect_ident env (codes "a table name after 'anonymize'")
    expect env Token.l_brace (codes "'{' to open the anonymize block")
    rules ← repeat (round_if next_is_ident (spanned anonymize_rule))
    expect env Token.r_brace (codes "'}' to close the anonymize block")
    return (StatementKind.anonymize (record { table = table; rules = rules }))

  pub aggregate_stmt : Parsing StatementKind
  aggregate_stmt = do
    bump
    name ← expect_ident env (codes "an aggregate name")
    expect env Token.l_brace (codes "'{' to open the aggregate block")
    expect env Token.root (codes "'root' as the first clause of an aggregate")
    root ← expect_ident env (codes "the root table name")
    clauses ← query_clauses env
    expect env Token.r_brace (codes "'}' to close the aggregate block")
    return (
        StatementKind.aggregate (record {
          name = name;
          root = root;
          where_clause = clauses.where_clause;
          order_by = clauses.order_by;
          limit = clauses.limit;
          exclude_tables = clauses.exclude_tables;
          root_only = clauses.root_only;
        }))

  pub get_stmt : Parsing StatementKind
  get_stmt = do
    bump
    name ← expect_ident env (codes "a get function name")
    expect env Token.l_paren (codes "'(' after the get function name")
    params ← elements_or_none Token.r_paren (spanned (var_decl env))
    expect env Token.r_paren (codes "')' to close the parameter list")
    expect env Token.l_brace (codes "'{' to open the get function body")
    aggregate ← expect_ident env (codes "the aggregate name to fetch")
    clauses ← query_clauses env
    expect env Token.r_brace (codes "'}' to close the get function body")
    return (
        StatementKind.get (record {
          name = name;
          params = params;
          aggregate = aggregate;
          where_clause = clauses.where_clause;
          order_by = clauses.order_by;
          limit = clauses.limit;
          exclude_tables = clauses.exclude_tables;
          root_only = clauses.root_only;
        }))

  pub preserve_stmt : Parsing StatementKind
  preserve_stmt = do
    bump
    table ← expect_ident env (codes "a table name after 'preserve'")
    expect env Token.where_word (codes "'where' after the table name")
    condition ← string_literal env (codes "a condition string after 'where'")
    return (StatementKind.preserve (record { table = table; where_clause = condition }))

  pub assignment : Parsing Assignment
  assignment = do
    column ← expect_ident env (codes "a column name")
    expect env Token.assign (codes "'=' after the column name")
    v ← value env
    return (record { column = column; value = v })

  pub set_stmt : Parsing StatementKind
  unfolding assignment
  set_stmt = do
    bump
    table ← expect_ident env (codes "a table name after 'set'")
    expect env Token.l_brace (codes "'{' to open the set block")
    expect env Token.match (codes "'match' as the first clause of a set block")
    matched ← comma_list (spanned assignment)
    assigned ← repeat (round_if next_is_ident (spanned assignment))
    expect env Token.r_brace (codes "'}' to close the set block")
    return (
        StatementKind.set
          (record { table = table; match_clause = matched; assignments = assigned }))

  abbrev pub sql_at : Option Token → Span → Parsing (Option (Spanned Chars))
  sql_at (some (Token.multiline_string s)) span = bump >> return (some (s, span))
  sql_at (some (Token.string s)) span = bump >> return (some (s, span))
  sql_at _ span = return none

  -- A round of the loop of `after_stmt`.
  pub sql_round : Parsing (Option (Spanned Chars))
  sql_round = do t ← peek; span ← cur_span; sql_at t span

  pub after_stmt : Parsing StatementKind
  unfolding sql_round
  after_stmt = do
    bump
    expect env Token.l_brace (codes "'{' to open the after block")
    statements ← repeat sql_round
    expect env Token.r_brace (codes "'}' to close the after block")
    return (StatementKind.after (record { statements = statements }))

  abbrev pub pattern_stmt : (TablePattern → StatementKind) → Parsing StatementKind
  pattern_stmt kind = do bump; named ← table_pattern env; return (kind named)

  abbrev pub full_stmt : Parsing StatementKind
  full_stmt = do bump; patterns ← table_pattern_list env; return (StatementKind.full patterns)

  -- The `match` of `statement_kind`.
  unfoldable pub kind_at : Option Token → Parsing StatementKind
  unfolding import_stmt var_stmt faker_stmt relation_stmt anonymize_stmt aggregate_stmt get_stmt
      preserve_stmt set_stmt after_stmt
  kind_at (some Token.import) = import_stmt
  kind_at (some Token.var) = var_stmt
  kind_at (some Token.faker) = faker_stmt
  kind_at (some Token.relation) = relation_stmt false
  kind_at (some Token.ignore_relation) = relation_stmt true
  kind_at (some Token.anonymize) = anonymize_stmt
  kind_at (some Token.exclude_data) = pattern_stmt StatementKind.exclude
  kind_at (some Token.ignore_table) = pattern_stmt StatementKind.ignore
  kind_at (some Token.full) = full_stmt
  kind_at (some Token.aggregate) = aggregate_stmt
  kind_at (some Token.get) = get_stmt
  kind_at (some Token.preserve) = preserve_stmt
  kind_at (some Token.set) = set_stmt
  kind_at (some Token.after) = after_stmt
  kind_at _ = err_here env (
      codes "a statement (import, var, faker, relation, ignore_relation, anonymize, "
      ++ codes "exclude_data, ignore_table, full, aggregate, get, preserve, set, or after)")

  unfoldable pub statement_kind : Parsing StatementKind
  unfolding kind_at
  statement_kind = do t ← peek; kind_at t

  -- `#[when(expr)]`
  pub attribute : Parsing (Spanned Expr)
  attribute = do
    expect env Token.hash (codes "'#'")
    expect env Token.l_bracket (codes "'[' after '#'")
    expect env Token.when (codes "'when'")
    expect env Token.l_paren (codes "'(' after 'when'")
    condition ← expr env
    expect env Token.r_paren (codes "')' to close the when condition")
    expect env Token.r_bracket (codes "']' to close the attribute")
    return condition

  abbrev pub attribute_if : Bool → Parsing (Option (Spanned Expr))
  attribute_if true = attribute >>= λ condition. return (some condition)
  attribute_if false = return none

  unfoldable pub statement : Parsing Statement
  unfolding attribute statement_kind
  statement = do
    hash ← next_is Token.hash
    condition ← attribute_if hash
    kind ← statement_kind
    return (record { attribute = condition; kind = kind })
