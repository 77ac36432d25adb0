-- ===== src/Parser/Expr/Runs.antt =====
-- The parsings of expressions run: the fuel of their loops and of their nesting is enough.
use jibs.Prelude.{
  ℕ, zero, suc, ◌+◌, ◌<◌, Bool, true, false, Option, none, some, ◌≡◌, refl, ap, ◌∙◌, arith, length,
  get_elem?,
}
use jibs.Parser.Ast.{Span, Spanned, Expr, Literal, BinaryOp, UnaryOp}
use jibs.Parser.Chars.{Chars}
use jibs.Parser.Cursor.{
  Parser, Parsing, Env, ◌>>=◌, ◌>>◌, return, first_of, span_at, peek, cur_span, bump, remaining,
}
use jibs.Parser.Cursor.Runs.{
  IsWithin, Ran, Runs, fewer, return-Runs, bind-Ran, running, bump-Runs, err_here-Runs, expect-Runs,
  expect_ident-Runs, string_raw-Runs, string_literal-Runs,
}
use jibs.Parser.Cursor.Takes.{bump_pos}
use jibs.Parser.Expr.{
  binary_round, unary_round, op_at, unary_op, joined, negated, binary_rest, binary_level, unary_on,
  unary_expr, in_interpolation, keyword_name, variable_name, variable, unique_call, ident_expr,
  string_of, string_expr, paren_rest, paren_expr, primary_at, primary_expr, or_expr, expr_on, expr,
}
use jibs.Parser.Token.{Token}

op_there :
    (op_of : Token → Option BinaryOp) (o : Option Token) (op : BinaryOp)
    → op_at op_of o ≡ some op
    → (t : Token) × (o ≡ some t)
op_there op_of none op h = cc h
op_there op_of (some t) op h = (t, refl)

unary_there : (o : Option Token) (op : UnaryOp) → unary_op o ≡ some op → (t : Token) × (o ≡ some t)
unary_there none op h = cc h
unary_there (some t) op h = (t, refl)

-- Behind a token that was seen, fewer are left.
after_bump :
    (n : ℕ) (p : Parser) {o : Option Token}
    → first_of (get_elem? p.tokens p.pos) ≡ o
    → (t : Token) × (o ≡ some t)
    → IsWithin p
    → remaining p < suc n
    → IsWithin (bump p).1 × (remaining (bump p).1 < n)
unfolding Runs
after_bump n p there (t, e) within few =
    let (_, here) = bump-Runs (suc n) p within few in
    (here.2, omega (arith, ap length here.0, bump_pos p t (there ∙ e), here.2, few))

-- What runs behind a token that was seen runs from there.
bump-Ran :
    {B : Type 0} (n : ℕ) (k : Parsing B) (p : Parser) {o : Option Token}
    → first_of (get_elem? p.tokens p.pos) ≡ o
    → (t : Token) × (o ≡ some t)
    → IsWithin p
    → remaining p < suc n
    → Runs n k
    → Ran p ((bump >> k) p)
unfolding Runs
bump-Ran n k p there seen within few runs =
    let (inside, less) = after_bump n p there seen within few in
    bind-Ran bump (λ _. k) p (bump-Runs (suc n) p within few) (λ _. runs (bump p).1 inside less)

binary_round-Ran :
    (n : ℕ) (next : Parsing (Spanned Expr)) (rest : Spanned Expr → Parsing (Spanned Expr))
    → Runs n next
    → (lhs : Spanned Expr) (p : Parser) (o : Option BinaryOp)
    → ((op : BinaryOp) → o ≡ some op → (t : Token) × (first_of (get_elem? p.tokens p.pos) ≡ some t))
    → IsWithin p
    → remaining p < n
    → ((rhs : Spanned Expr) (q : Parser)
        → IsWithin q
        → remaining q < remaining p
        → Ran q (rest rhs q))
    → Ran p (binary_round rest next lhs o p)
unfolding Runs bump
binary_round-Ran n next rest runs lhs p none seen within few later = return-Runs n lhs p within few
binary_round-Ran n next rest runs lhs p (some op) seen within few later =
    let at = seen op refl in
    let (inside, less) = after_bump (remaining p) p refl at within (omega arith) in
    let (_, here) = runs (bump p).1 inside (omega (arith, less, few)) in
    let (has, there) = bump-Ran n next p refl at within (omega (arith, few)) runs in
    bind-Ran (bump >> next) (λ rhs. rest (joined lhs op rhs)) p (has, there)
      (λ rhs.
        later (joined lhs op rhs) ((bump >> next) p).1 there.2
          (fewer (bump p).1 (next (bump p).1).1 here less))

binary_rest-Ran :
    (n : ℕ) (next : Parsing (Spanned Expr)) (op_of : Token → Option BinaryOp)
    → Runs n next
    → (fuel : ℕ) (lhs : Spanned Expr) (p : Parser) → IsWithin p
    → remaining p < n
    → remaining p < fuel
    → Ran p (binary_rest fuel next op_of lhs p)
unfolding Runs binary_rest peek
binary_rest-Ran n next op_of runs zero lhs p within few enough = absurd (omega (arith, enough))
binary_rest-Ran n next op_of runs (suc fuel) lhs p within few enough =
    binary_round-Ran n next (binary_rest fuel next op_of) runs lhs p
      (op_at op_of (first_of (get_elem? p.tokens p.pos)))
      (op_there op_of (first_of (get_elem? p.tokens p.pos))) within few
      (λ rhs q inside less.
        binary_rest-Ran n next op_of runs fuel rhs q inside (omega (arith, less, few))
          (omega (arith, less, enough)))

pub binary_level-Runs :
    (n : ℕ) (next : Parsing (Spanned Expr)) (op_of : Token → Option BinaryOp)
    → Runs n next
    → Runs n (binary_level next op_of)
unfolding Runs binary_level
binary_level-Runs n next op_of runs p within few =
    let (_, here) = runs p within few in
    bind-Ran next (λ lhs q. binary_rest (remaining q + 1) next op_of lhs q) p (runs p within few)
      (λ lhs.
        binary_rest-Ran n next op_of runs (remaining (next p).1 + 1) lhs (next p).1 here.2
          (fewer p (next p).1 here few) (omega arith))

unary_round-Ran :
    (n : ℕ) (primary inner_expr : Parsing (Spanned Expr))
    → Runs n primary
    → (p : Parser) (o : Option UnaryOp)
    → ((op : UnaryOp) → o ≡ some op → (t : Token) × (first_of (get_elem? p.tokens p.pos) ≡ some t))
    → IsWithin p
    → remaining p < n
    → ((q : Parser) → IsWithin q → remaining q < remaining p → Ran q (inner_expr q))
    → Ran p (unary_round inner_expr primary o p)
unfolding Runs bump cur_span
unary_round-Ran n primary inner_expr runs p none seen within few later = runs p within few
unary_round-Ran n primary inner_expr runs p (some op) seen within few later =
    let (inside, less) = after_bump (remaining p) p refl (seen op refl) within (omega arith) in
    bind-Ran bump (λ _. inner_expr >>= λ inner. return (negated op (span_at p) inner)) p
      (bump-Runs n p within few)
      (λ _.
        bind-Ran inner_expr (λ inner. return (negated op (span_at p) inner)) (bump p).1
          (later (bump p).1 inside less)
          (λ inner.
            return-Runs (suc (remaining (inner_expr (bump p).1).1)) _ (inner_expr (bump p).1).1
              (later (bump p).1 inside less).1.2 (omega arith)))

unary_on-Ran :
    (n : ℕ) (primary : Parsing (Spanned Expr))
    → Runs n primary
    → (fuel : ℕ) (p : Parser) → IsWithin p
    → remaining p < n
    → remaining p < fuel
    → Ran p (unary_on fuel primary p)
unfolding Runs unary_on peek
unary_on-Ran n primary runs zero p within few enough = absurd (omega (arith, enough))
unary_on-Ran n primary runs (suc fuel) p within few enough =
    unary_round-Ran n primary (unary_on fuel primary) runs p
      (unary_op (first_of (get_elem? p.tokens p.pos)))
      (unary_there (first_of (get_elem? p.tokens p.pos))) within few
      (λ q inside less.
        unary_on-Ran n primary runs fuel q inside (omega (arith, less, few))
          (omega (arith, less, enough)))

unary_expr-Runs :
    (n : ℕ) (primary : Parsing (Spanned Expr)) → Runs n primary → Runs n (unary_expr primary)
unfolding Runs unary_expr
unary_expr-Runs n primary runs p within few =
    unary_on-Ran n primary runs (remaining p + 1) p within few (omega arith)

module _ (env : Env) where
  in_interpolation-Runs : (n : ℕ) → Runs n (in_interpolation env)
  unfolding Runs in_interpolation
  in_interpolation-Runs n p within few = (λ e. cc e, (refl, omega arith, within))

  keyword_name-Runs : (n : ℕ) (name : Option Chars) → Runs n (keyword_name env name)
  keyword_name-Runs n none = err_here-Runs env Chars n _
  keyword_name-Runs n (some name) = search running

  variable_name-Runs : (n : ℕ) (inside : Bool) → Runs n (variable_name env inside)
  variable_name-Runs n true = search (running, keyword_name-Runs)
  variable_name-Runs n false = search (running, expect_ident-Runs)

  variable-Runs : (n : ℕ) (span : Span) → Runs n (variable env span)
  unfolding variable
  variable-Runs n span = search (running, in_interpolation-Runs, variable_name-Runs) depth 12

  unique_call-Runs : (n : ℕ) (span : Span) → Runs n (unique_call env span)
  unfolding unique_call
  unique_call-Runs n span = search (running, expect-Runs) depth 12

  ident_expr-Runs : (n : ℕ) (name : Chars) (span : Span) → Runs n (ident_expr env name span)
  unfolding ident_expr
  ident_expr-Runs n name span =
      search (running, in_interpolation-Runs, unique_call-Runs, err_here-Runs) depth 12

  string_of-Runs : (n : ℕ) (inside : Bool) → Runs n (string_of env inside)
  string_of-Runs n true = search (running, string_raw-Runs)
  string_of-Runs n false = search (running, string_literal-Runs)

  string_expr-Runs : (n : ℕ) → Runs n (string_expr env)
  unfolding string_expr
  string_expr-Runs n = search (running, in_interpolation-Runs, string_of-Runs)

  paren_rest-Runs :
      (n : ℕ) (inner : Parsing (Spanned Expr)) (span : Span)
      → Runs n inner
      → Runs n (paren_rest env inner span)
  paren_rest-Runs n inner span runs = search (running, expect-Runs) depth 12

  -- A primary expression runs where an expression does that has a token less to read.
  primary_at-Ran :
      (n : ℕ) (inner : Parsing (Spanned Expr))
      → Runs n inner
      → (t : Option Token) (span : Span) (p : Parser) → first_of (get_elem? p.tokens p.pos) ≡ t
      → IsWithin p
      → remaining p < suc n
      → Ran p (primary_at env inner t span p)
  unfolding Runs primary_at paren_expr
  primary_at-Ran n inner runs (some Token.dollar) span p there within few =
      variable-Runs (suc n) span p within few
  primary_at-Ran n inner runs (some (Token.ident name)) span p there within few =
      ident_expr-Runs (suc n) name span p within few
  primary_at-Ran n inner runs (some (Token.int m)) span p there within few =
      bump-Ran n (return (Expr.literal (Literal.int m), span)) p there (Token.int m, refl) within
        few (return-Runs n _)
  primary_at-Ran n inner runs (some (Token.float m)) span p there within few =
      bump-Ran n (return (Expr.literal (Literal.float m), span)) p there (Token.float m, refl)
        within few (return-Runs n _)
  primary_at-Ran n inner runs (some (Token.bool b)) span p there within few =
      bump-Ran n (return (Expr.literal (Literal.bool b), span)) p there (Token.bool b, refl) within
        few (return-Runs n _)
  primary_at-Ran n inner runs (some (Token.string s)) span p there within few =
      string_expr-Runs (suc n) p within few
  primary_at-Ran n inner runs (some Token.l_paren) span p there within few =
      bump-Ran n (paren_rest env inner span) p there (Token.l_paren, refl) within few
        (paren_rest-Runs n inner span runs)
  primary_at-Ran n inner runs _ span p there within few =
      err_here-Runs env (Spanned Expr) (suc n) _ p within few

  primary_expr-Runs :
      (n : ℕ) (inner : Parsing (Spanned Expr))
      → Runs n inner
      → Runs (suc n) (primary_expr env inner)
  unfolding Runs primary_expr peek cur_span
  primary_expr-Runs n inner runs p within few =
      primary_at-Ran n inner runs (first_of (get_elem? p.tokens p.pos)) (span_at p) p refl within
        few

  or_expr-Runs :
      (n : ℕ) (inner : Parsing (Spanned Expr)) → Runs n inner → Runs (suc n) (or_expr env inner)
  or_expr-Runs n inner runs =
      search (binary_level-Runs, unary_expr-Runs, primary_expr-Runs) depth 12

  -- The nesting of parentheses is below the number of tokens that are left.
  expr_on-Runs : (fuel : ℕ) → Runs fuel (expr_on env fuel)
  unfolding expr_on Runs
  expr_on-Runs zero p within few = absurd (omega (arith, few))
  expr_on-Runs (suc fuel) p within few =
      or_expr-Runs fuel (expr_on env fuel) (expr_on-Runs fuel) p within few

  pub expr-Runs : (n : ℕ) → Runs n (expr env)
  unfolding expr Runs
  expr-Runs n p within few = expr_on-Runs (remaining p + 1) p within (omega arith)
