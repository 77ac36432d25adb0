-- ===== src/Parser/Program.antt =====
-- crates/parser/src/parser.rs and lib.rs: a program, and recovery behind a wrong statement.
pub mod Ends
pub mod Recovery
use jibs.Prelude.{
  ℕ, zero, suc, ◌+◌, Bool, true, false, not, List, [], ◌∷◌, ◌++◌, Option, none, some, if◌then◌else◌,
  codes, get_elem?,
}
use jibs.Prelude.Result.{Result, ok, err}
use jibs.Parser.Ast.{Span, Spanned, Statement, Expr, Program}
use jibs.Parser.Chars.{Chars, size}
use jibs.Parser.Cursor.{
  Parser, Failure, syntax, out_of_fuel, Parsing, Env, ◌>>=◌, return, new_parser, first_of, at_end,
  span_at, end_behind, bump, err_here, remaining,
}
use jibs.Parser.Expr.{expr}
use jibs.Parser.Lexer.{ParseError, lex, new_span}
use jibs.Parser.Statement.{statement}
use jibs.Parser.Token.{Token}

unfoldable pub starts_statement : Token → Bool
starts_statement Token.hash = true
starts_statement Token.import = true
starts_statement Token.var = true
starts_statement Token.faker = true
starts_statement Token.relation = true
starts_statement Token.ignore_relation = true
starts_statement Token.anonymize = true
starts_statement Token.exclude_data = true
starts_statement Token.ignore_table = true
starts_statement Token.full = true
starts_statement Token.aggregate = true
starts_statement Token.get = true
starts_statement Token.preserve = true
starts_statement Token.set = true
starts_statement Token.after = true
starts_statement _ = false

-- The end of the text, or a token that starts a statement.
abbrev pub stops : Option Token → Bool
stops none = true
stops (some t) = starts_statement t

-- The loop of `synchronize`, on fuel: the tokens that are left are enough.
pub skip_to_statement : ℕ → Parser → Parser
unfolding starts_statement
skip_to_statement zero p = p
skip_to_statement (suc fuel) p =
    let later = skip_to_statement fuel (record p { pos = p.pos + 1 }) in
    if stops (first_of (get_elem? p.tokens p.pos)) then p else later

unfoldable pub synchronize : Parser → Parser
unfolding skip_to_statement
synchronize p = let after = (bump p).1 in skip_to_statement (remaining after) after

-- What a round of `program` makes of a statement that starts at `start`, or of its error.
pub settle : ℕ → Result Failure Statement → Parser → List (Spanned Statement) × Parser
unfolding synchronize
settle start (ok stmt) p = ((stmt, new_span start (end_behind p)) ∷ [], p)
settle start (err (syntax e)) p = ([], synchronize (record p { errors = p.errors ++ e ∷ [] }))
settle start (err out_of_fuel) p = ([], synchronize p)

module _ (env : Env) where
  pub program_round : Parser → List (Spanned Statement) × Parser
  unfolding settle
  program_round p = let (result, after) = statement env p in settle (span_at p).start result after

  pub program_on : ℕ → Parser → List (Spanned Statement) × Parser
  unfolding program_round
  program_on zero p = ([], p)
  program_on (suc fuel) p =
      let (stmts, after) = program_round p in
      let (more, last) = program_on fuel after in
      if at_end p then ([], p) else (stmts ++ more, last)

  pub program : Parser → List (Spanned Statement) × Parser
  unfolding program_on
  program p = program_on (remaining p + 1) p

  pub parse_tokens : List (Spanned Token) → Span → Program × List ParseError
  unfolding program
  parse_tokens tokens eoi =
      let (statements, p) = program (new_parser tokens eoi) in
      (record { statements = statements }, p.errors)

  abbrev whole : Spanned Expr → Bool → Parsing (Spanned Expr)
  whole e true = return e
  whole e false = err_here env (codes "expected end of expression")

  -- `parse_expr_tokens`, with the parser that it leaves.
  pub parse_expr_tokens : List (Spanned Token) → Span → Result Failure (Spanned Expr) × Parser
  parse_expr_tokens tokens eoi =
      (expr env >>= λ e p. whole e (at_end p) p)
        (record (new_parser tokens eoi) { in_interpolation = true })

-- `parse`
module _ (parse_f64 : Chars → ℕ) (env : Env) where
  abbrev pub verdict : Program → List ParseError → Result (List ParseError) Program
  verdict p [] = ok p
  verdict p (e ∷ errors) = err (e ∷ errors)

  unfoldable pub parse : Chars → Result (List ParseError) Program
  unfolding parse_tokens
  parse source =
      let (tokens, errors) = lex parse_f64 source in
      let (parsed, more) = parse_tokens env tokens (new_span (size source) (size source)) in
      verdict parsed (errors ++ more)
