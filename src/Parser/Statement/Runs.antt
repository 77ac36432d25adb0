-- ===== src/Parser/Statement/Runs.antt =====
-- The parsings of statements run.
use jibs.Prelude.{ℕ, ◌<◌, Bool, true, false, Option, none, some, ◌≡◌, refl, arith, get_elem?}
use jibs.Prelude.Result.{ok}
use jibs.Parser.Ast.{Span, Spanned, TablePattern, FakerSource, AnonymizeTarget, StatementKind}
use jibs.Parser.Chars.{Chars}
use jibs.Parser.Cursor.{
  Parser, Parsing, Env, span_at, remaining, ◌>>◌, first_of, peek, cur_span, bump, expect_ident,
}
use jibs.Parser.Cursor.Runs.{
  IsWithin, Ran, Runs, fewer, bind-Ran, bump-Runs, err_here_fails, running, next_is-Runs,
  cur_span-Runs, err_here-Runs, expect-Runs, expect_ident-Runs, string_raw-Runs,
  string_literal-Runs,
}
use jibs.Parser.Cursor.Takes.{
  Takes, is_some, always, bump_pos, repeat-Runs, round-Runs, first-Takes, later-Takes,
  element-Takes, comma_list-Runs, elements-Runs, expect_ident-Takes,
}
use jibs.Parser.Expr.Runs.{expr-Runs}
use jibs.Parser.Literal.Runs.{value-Runs}
use jibs.Parser.Query.Runs.{
  var_decl-Runs, table_pattern-Runs, table_pattern_list-Runs, query_clauses-Runs,
}
use jibs.Parser.Statement.{
  next_is_ident, elements_or_none, spanned, import_stmt, var_stmt, faker_value_at, faker_value,
  faker_source_at, faker_stmt, column_ref, relation_stmt, target_at, anonymize_rule, anonymize_stmt,
  aggregate_stmt, get_stmt, preserve_stmt, assignment, set_stmt, sql_at, sql_round, pattern_stmt,
  full_stmt, after_stmt, kind_at, statement_kind, attribute, attribute_if, statement,
}
use jibs.Parser.Token.{Token}

next_is_ident-Runs : (n : ℕ) → Runs n next_is_ident
next_is_ident-Runs n = search running

elements_or_none-Runs :
    {A : Type 0} (n : ℕ) (close : Token) (one : Parsing A)
    → Runs n one
    → Runs n (elements_or_none close one)
elements_or_none-Runs n close one runs = search (running, next_is-Runs, elements-Runs)

spanned-Runs :
    {A : Type 0} (n : ℕ) (parsing : Parsing A) → Runs n parsing → Runs n (spanned parsing)
spanned-Runs n parsing runs = search running depth 8

spanned-Takes :
    {A : Type 0} (n : ℕ) (parsing : Parsing A)
    → Runs n parsing
    → Takes n always parsing
    → Takes n always (spanned parsing)
spanned-Takes n parsing runs takes =
    later-Takes n always cur_span _ (cur_span-Runs n)
      (λ start. first-Takes n always parsing _ runs takes (λ a. search running))

-- A parsing that takes the token in front, which was seen.
Starts : {A : Type 0} → ℕ → Parsing A → Type 0
Starts n m =
    (p : Parser) (t : Token)
    → first_of (get_elem? p.tokens p.pos) ≡ some t
    → IsWithin p
    → remaining p < n
    → Ran p (m p) × (p.pos < (m p).1.pos)

start : {A : Type 0} (n : ℕ) (k : Parsing A) → Runs n k → Starts n (bump >> k)
unfolding Starts Runs bump
start n k runs p t there within few =
    let (_, here) = bump-Runs n p within few in
    let behind = runs (bump p).1 here.2 (fewer p (bump p).1 here few) in
    (
      bind-Ran bump (λ _. k) p (bump-Runs n p within few) (λ _. behind),
      omega (arith, bump_pos p t there, behind.1.1),
    )

module _ (env : Env) where
  import_stmt-Starts : (n : ℕ) → Starts n (import_stmt env)
  unfolding import_stmt
  import_stmt-Starts n = search (start, running, string_raw-Runs) depth 8

  var_stmt-Starts : (n : ℕ) → Starts n (var_stmt env)
  unfolding var_stmt
  var_stmt-Starts n = search (start, running, var_decl-Runs) depth 8

  faker_value_at-Runs : (n : ℕ) (spread : Bool) → Runs n (faker_value_at env spread)
  faker_value_at-Runs n true = search (running, expect-Runs, expect_ident-Runs)
  faker_value_at-Runs n false = search (running, string_literal-Runs)

  faker_value-Runs : (n : ℕ) → Runs n (faker_value env)
  unfolding faker_value
  faker_value-Runs n = search (running, faker_value_at-Runs)

  faker_source_at-Runs :
      (n : ℕ) (dollar bracket : Bool) → Runs n (faker_source_at env dollar bracket)
  faker_source_at-Runs n true bracket = search (running, expect_ident-Runs)
  faker_source_at-Runs n false true =
      search (running, elements_or_none-Runs, spanned-Runs, faker_value-Runs, expect-Runs) depth 10
  faker_source_at-Runs n false false = err_here-Runs env FakerSource n _

  faker_stmt-Starts : (n : ℕ) → Starts n (faker_stmt env)
  unfolding faker_stmt
  faker_stmt-Starts n =
      search (start, running, next_is-Runs, expect_ident-Runs, faker_source_at-Runs) depth 12

  column_ref-Runs : (n : ℕ) → Runs n (column_ref env)
  unfolding column_ref
  column_ref-Runs n = search (running, expect-Runs, expect_ident-Runs) depth 10

  relation_stmt-Starts : (n : ℕ) (ignore : Bool) → Starts n (relation_stmt env ignore)
  unfolding relation_stmt
  relation_stmt-Starts n ignore =
      search (start, running, expect-Runs, spanned-Runs, column_ref-Runs) depth 12

  target_at-Runs : (n : ℕ) (t : Option Token) → Runs n (target_at env t)
  target_at-Runs n (some Token.null) = search running
  target_at-Runs n (some (Token.ident s)) = search (running, expect_ident-Runs)
  target_at-Runs n _ = err_here-Runs env AnonymizeTarget n _

  anonymize_rule-Runs : (n : ℕ) → Runs n (anonymize_rule env)
  unfolding anonymize_rule
  anonymize_rule-Runs n = search (running, expect-Runs, expect_ident-Runs, target_at-Runs) depth 10

  anonymize_rule-Takes : (n : ℕ) → Takes n always (anonymize_rule env)
  unfolding anonymize_rule
  anonymize_rule-Takes n =
      first-Takes n always (expect_ident env _) _ (expect_ident-Runs env n _)
        (expect_ident-Takes env n _)
        (λ column. search (running, expect-Runs, target_at-Runs) depth 10)

  anonymize_stmt-Starts : (n : ℕ) → Starts n (anonymize_stmt env)
  unfolding anonymize_stmt
  anonymize_stmt-Starts n =
      search
        (
          start, running, expect-Runs, expect_ident-Runs, repeat-Runs, round-Runs, element-Takes,
          next_is_ident-Runs, spanned-Runs, spanned-Takes, anonymize_rule-Runs,
          anonymize_rule-Takes,
        )
        depth 14

  aggregate_stmt-Starts : (n : ℕ) → Starts n (aggregate_stmt env)
  unfolding aggregate_stmt
  aggregate_stmt-Starts n =
      search (start, running, expect-Runs, expect_ident-Runs, query_clauses-Runs) depth 16

  get_stmt-Starts : (n : ℕ) → Starts n (get_stmt env)
  unfolding get_stmt
  get_stmt-Starts n =
      search
        (
          start, running, expect-Runs, expect_ident-Runs, query_clauses-Runs, elements_or_none-Runs,
          spanned-Runs, var_decl-Runs,
        )
        depth 18

  preserve_stmt-Starts : (n : ℕ) → Starts n (preserve_stmt env)
  unfolding preserve_stmt
  preserve_stmt-Starts n =
      search (start, running, expect-Runs, expect_ident-Runs, string_literal-Runs) depth 12

  assignment-Runs : (n : ℕ) → Runs n (assignment env)
  unfolding assignment
  assignment-Runs n = search (running, expect-Runs, expect_ident-Runs, value-Runs) depth 10

  assignment-Takes : (n : ℕ) → Takes n always (assignment env)
  unfolding assignment
  assignment-Takes n =
      first-Takes n always (expect_ident env _) _ (expect_ident-Runs env n _)
        (expect_ident-Takes env n _) (λ column. search (running, expect-Runs, value-Runs) depth 10)

  set_stmt-Starts : (n : ℕ) → Starts n (set_stmt env)
  unfolding set_stmt
  set_stmt-Starts n =
      search
        (
          start, running, expect-Runs, expect_ident-Runs, comma_list-Runs, repeat-Runs, round-Runs,
          element-Takes, next_is_ident-Runs, spanned-Runs, spanned-Takes, assignment-Runs,
          assignment-Takes,
        )
        depth 16

  sql_at-Runs : (n : ℕ) (t : Option Token) (span : Span) → Runs n (sql_at env t span)
  sql_at-Runs n (some (Token.multiline_string s)) span = search running
  sql_at-Runs n (some (Token.string s)) span = search running
  sql_at-Runs n _ span = search running

  sql_round-Runs : (n : ℕ) → Runs n (sql_round env)
  unfolding sql_round
  sql_round-Runs n = search (running, sql_at-Runs)

  sql_at-Takes :
      (t : Option Token) (span : Span) (p : Parser)
      → first_of (get_elem? p.tokens p.pos) ≡ t
      → (a : Option (Spanned Chars)) → (sql_at env t span p).0 ≡ ok a
      → is_some a ≡ true
      → p.pos < (sql_at env t span p).1.pos
  unfolding bump
  sql_at-Takes (some (Token.multiline_string s)) span p there a e holds = bump_pos p _ there
  sql_at-Takes (some (Token.string s)) span p there a e holds = bump_pos p _ there
  sql_at-Takes _ span p there none e holds = cc holds
  sql_at-Takes _ span p there (some a) e holds = cc e

  sql_round-Takes : (n : ℕ) → Takes n is_some (sql_round env)
  unfolding Takes sql_round peek cur_span
  sql_round-Takes n p within few a e holds =
      sql_at-Takes (first_of (get_elem? p.tokens p.pos)) (span_at p) p refl a e holds

  after_stmt-Starts : (n : ℕ) → Starts n (after_stmt env)
  unfolding after_stmt
  after_stmt-Starts n =
      search (start, running, expect-Runs, repeat-Runs, sql_round-Runs, sql_round-Takes) depth 12

  pattern_stmt-Starts :
      (n : ℕ) (kind : TablePattern → StatementKind) → Starts n (pattern_stmt env kind)
  pattern_stmt-Starts n kind = search (start, running, table_pattern-Runs)

  full_stmt-Starts : (n : ℕ) → Starts n (full_stmt env)
  full_stmt-Starts n = search (start, running, table_pattern_list-Runs)

  -- It runs, and a result was paid for by a token.
  abbrev Pays : {A : Type 0} → Parsing A → Parser → Type 0
  Pays {A} m p = Ran p (m p) × ((a : A) → (m p).0 ≡ ok a → p.pos < (m p).1.pos)

  started :
      {A : Type 0} (n : ℕ) (m : Parsing A) (p : Parser) (t : Token)
      → first_of (get_elem? p.tokens p.pos) ≡ some t
      → IsWithin p
      → remaining p < n
      → Starts n m
      → Pays m p
  unfolding Starts
  started n m p t there within few starts =
      let (ran, paid) = starts p t there within few in (ran, λ a e. paid)

  kind_at-Pays :
      (n : ℕ) (t : Option Token) (p : Parser)
      → first_of (get_elem? p.tokens p.pos) ≡ t
      → IsWithin p
      → remaining p < n
      → Pays (kind_at env t) p
  unfolding kind_at Runs
  kind_at-Pays n (some Token.import) p there within few =
      started n _ p Token.import there within few (import_stmt-Starts n)
  kind_at-Pays n (some Token.var) p there within few =
      started n _ p Token.var there within few (var_stmt-Starts n)
  kind_at-Pays n (some Token.faker) p there within few =
      started n _ p Token.faker there within few (faker_stmt-Starts n)
  kind_at-Pays n (some Token.relation) p there within few =
      started n _ p Token.relation there within few (relation_stmt-Starts n false)
  kind_at-Pays n (some Token.ignore_relation) p there within few =
      started n _ p Token.ignore_relation there within few (relation_stmt-Starts n true)
  kind_at-Pays n (some Token.anonymize) p there within few =
      started n _ p Token.anonymize there within few (anonymize_stmt-Starts n)
  kind_at-Pays n (some Token.exclude_data) p there within few =
      started n _ p Token.exclude_data there within few
        (pattern_stmt-Starts n StatementKind.exclude)
  kind_at-Pays n (some Token.ignore_table) p there within few =
      started n _ p Token.ignore_table there within few (pattern_stmt-Starts n StatementKind.ignore)
  kind_at-Pays n (some Token.full) p there within few =
      started n _ p Token.full there within few (full_stmt-Starts n)
  kind_at-Pays n (some Token.aggregate) p there within few =
      started n _ p Token.aggregate there within few (aggregate_stmt-Starts n)
  kind_at-Pays n (some Token.get) p there within few =
      started n _ p Token.get there within few (get_stmt-Starts n)
  kind_at-Pays n (some Token.preserve) p there within few =
      started n _ p Token.preserve there within few (preserve_stmt-Starts n)
  kind_at-Pays n (some Token.set) p there within few =
      started n _ p Token.set there within few (set_stmt-Starts n)
  kind_at-Pays n (some Token.after) p there within few =
      started n _ p Token.after there within few (after_stmt-Starts n)
  kind_at-Pays n _ p there within few =
      (err_here-Runs env StatementKind n _ p within few, λ a e. absurd (err_here_fails env _ p e))

  statement_kind-Runs : (n : ℕ) → Runs n (statement_kind env)
  unfolding Runs statement_kind peek
  statement_kind-Runs n p within few =
      (kind_at-Pays n (first_of (get_elem? p.tokens p.pos)) p refl within few).0

  statement_kind-Takes : (n : ℕ) → Takes n always (statement_kind env)
  unfolding Takes statement_kind peek
  statement_kind-Takes n p within few a e holds =
      (kind_at-Pays n (first_of (get_elem? p.tokens p.pos)) p refl within few).1 a e

  attribute-Runs : (n : ℕ) → Runs n (attribute env)
  unfolding attribute
  attribute-Runs n = search (running, expect-Runs, expr-Runs) depth 16

  attribute_if-Runs : (n : ℕ) (hash : Bool) → Runs n (attribute_if env hash)
  attribute_if-Runs n true = search (running, attribute-Runs)
  attribute_if-Runs n false = search running

  pub statement-Runs : (n : ℕ) → Runs n (statement env)
  unfolding statement
  statement-Runs n = search (running, next_is-Runs, attribute_if-Runs, statement_kind-Runs)

  pub statement-Takes : (n : ℕ) → Takes n always (statement env)
  unfolding statement
  statement-Takes n = search (
    later-Takes, first-Takes, running, next_is-Runs, attribute_if-Runs, statement_kind-Runs,
    statement_kind-Takes,
  )
