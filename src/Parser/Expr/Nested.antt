-- ===== src/Parser/Expr/Nested.antt =====
-- Inside an interpolation, an expression does not depend on the parser of strings with interpolations.
use jibs.Prelude.{
  ℕ, zero, suc, ◌+◌, Bool, true, false, List, Option, none, some, ◌≡◌, refl, ap, ◌∙◌, inl, inr,
  if◌then◌else◌, length, ltb, Bool-cases,
}
use jibs.Prelude.Result.{Result, ok, err}
use jibs.Parser.Ast.{Span, Spanned, StringLiteral, Expr, BinaryOp, UnaryOp}
use jibs.Parser.Chars.{Chars}
use jibs.Parser.Cursor.{
  Parser, Failure, Parsing, Env, then_on, ◌>>=◌, ◌>>◌, return, fail, out_of_fuel, peek, peek2,
  cur_span, prev_end, bump, err_here, expect, expect_ident, ident_of, string_raw, raw_of, remaining,
}
use jibs.Parser.Expr.{
  binary_round, binary_rest, binary_level, unary_round, unary_on, unary_expr, in_interpolation,
  keyword_name, variable_name, variable, unique_call, ident_expr, string_of, string_expr,
  paren_expr, primary_at, primary_expr, or_expr, expr_on, expr, op_at, unary_op,
}
use jibs.Parser.Lexer.{ParseError}
use jibs.Parser.Token.{Token}

-- Inside an interpolation the two parsings do the same, and stay inside.
Alike : {A : Type 0} → Parsing A → Parsing A → Type 0
Alike m n =
    (p : Parser) → p.in_interpolation ≡ true → (m p ≡ n p) × ((m p).1.in_interpolation ≡ true)

return-Alike : {A : Type 0} (a : A) → Alike (return a) (return a)
unfolding Alike
return-Alike a p inside = (refl, inside)

fail-Alike : (A : Type 0) (e : Failure) → Alike (fail {A = A} e) (fail e)
unfolding Alike
fail-Alike A e p inside = (refl, inside)

then_on-inside :
    {A B : Type 0} (r : Result Failure A) (k l : A → Parsing B) (q : Parser)
    → q.in_interpolation ≡ true
    → ((a : A) → Alike (k a) (l a))
    → (then_on r k q ≡ then_on r l q) × ((then_on r k q).1.in_interpolation ≡ true)
unfolding Alike
then_on-inside (ok a) k l q inside alike = alike a q inside
then_on-inside (err e) k l q inside alike = (refl, inside)

bind-Alike :
    {A B : Type 0} (m n : Parsing A) (k l : A → Parsing B)
    → Alike m n
    → ((a : A) → Alike (k a) (l a))
    → Alike (m >>= k) (n >>= l)
unfolding Alike
bind-Alike m n k l alike later p inside =
    let (same, still) = alike p inside in
    let (same2, still2) = then_on-inside (m p).0 k l (m p).1 still later in
    (same2 ∙ ap (λ r. then_on r.0 l r.1) same, still2)

if-Alike :
    {A : Type 0} (b : Bool) (m n k l : Parsing A)
    → Alike m n
    → Alike k l
    → Alike (if b then m else k) (if b then n else l)
if-Alike true m n k l alike _ = alike
if-Alike false m n k l _ alike = alike

peek-Alike : Alike peek peek
unfolding Alike peek
peek-Alike p inside = (refl, inside)

peek2-Alike : Alike peek2 peek2
unfolding Alike peek2
peek2-Alike p inside = (refl, inside)

cur_span-Alike : Alike cur_span cur_span
unfolding Alike cur_span
cur_span-Alike p inside = (refl, inside)

prev_end-Alike : Alike prev_end prev_end
unfolding Alike prev_end
prev_end-Alike p inside = (refl, inside)

bump-Alike : Alike bump bump
unfolding Alike bump
bump-Alike p inside = elim (Bool-cases (ltb p.pos (length p.tokens))) [
  | inl more ↦ (refl, rw more inside)
  | inr last ↦ (refl, rw last inside)
]

ruleset alike = (
  return-Alike, bind-Alike, if-Alike, peek-Alike, peek2-Alike, cur_span-Alike, prev_end-Alike,
  bump-Alike,
)

binary_round-Alike :
    (m n : Parsing (Spanned Expr)) (k l : Spanned Expr → Parsing (Spanned Expr))
    → Alike m n
    → ((lhs : Spanned Expr) → Alike (k lhs) (l lhs))
    → (lhs : Spanned Expr) (o : Option BinaryOp)
    → Alike (binary_round k m lhs o) (binary_round l n lhs o)
binary_round-Alike m n k l same later lhs none = return-Alike lhs
binary_round-Alike m n k l same later lhs (some op) =
    bind-Alike (bump >> m) (bump >> n) _ _ (bind-Alike bump bump _ _ bump-Alike (λ _. same))
      (λ rhs. later _)

binary_rest-Alike :
    (op_of : Token → Option BinaryOp) (m n : Parsing (Spanned Expr))
    → Alike m n
    → (fuel : ℕ) (lhs : Spanned Expr)
    → Alike (binary_rest fuel m op_of lhs) (binary_rest fuel n op_of lhs)
unfolding binary_rest
binary_rest-Alike op_of m n same zero lhs = fail-Alike (Spanned Expr) out_of_fuel
binary_rest-Alike op_of m n same (suc fuel) lhs = bind-Alike peek peek _ _ peek-Alike (λ t.
    binary_round-Alike m n (binary_rest fuel m op_of) (binary_rest fuel n op_of) same
      (binary_rest-Alike op_of m n same fuel) lhs (op_at op_of t))

from_here :
    {A : Type 0} (m n : ℕ → Parsing A)
    → ((fuel : ℕ) → Alike (m fuel) (n fuel))
    → Alike (λ p. m (remaining p + 1) p) (λ p. n (remaining p + 1) p)
unfolding Alike
from_here m n same p inside = same (remaining p + 1) p inside

binary_level-Alike :
    (m n : Parsing (Spanned Expr)) (op_of : Token → Option BinaryOp)
    → Alike m n
    → Alike (binary_level m op_of) (binary_level n op_of)
unfolding binary_level
binary_level-Alike m n op_of same = bind-Alike m n _ _ same (λ lhs.
    from_here (λ fuel. binary_rest fuel m op_of lhs) (λ fuel. binary_rest fuel n op_of lhs)
      (λ fuel. binary_rest-Alike op_of m n same fuel lhs))

unary_round-Alike :
    (m n k l : Parsing (Spanned Expr))
    → Alike m n
    → Alike k l
    → (o : Option UnaryOp) → Alike (unary_round k m o) (unary_round l n o)
unary_round-Alike m n k l same inner none = same
unary_round-Alike m n k l same inner (some op) = search alike depth 8

unary_on-Alike :
    (m n : Parsing (Spanned Expr))
    → Alike m n
    → (fuel : ℕ) → Alike (unary_on fuel m) (unary_on fuel n)
unfolding unary_on
unary_on-Alike m n same zero = fail-Alike (Spanned Expr) out_of_fuel
unary_on-Alike m n same (suc fuel) = bind-Alike peek peek _ _ peek-Alike (λ t.
    unary_round-Alike m n (unary_on fuel m) (unary_on fuel n) same (unary_on-Alike m n same fuel)
      (unary_op t))

unary_expr-Alike : (m n : Parsing (Spanned Expr)) → Alike m n → Alike (unary_expr m) (unary_expr n)
unfolding unary_expr
unary_expr-Alike m n same =
    from_here (λ fuel. unary_on fuel m) (λ fuel. unary_on fuel n) (unary_on-Alike m n same)

-- Two environments that differ in the parser of strings.
module _ (format_f64 : ℕ → Chars)
    (parse other : Chars → ℕ → Result (List ParseError) StringLiteral) where
  abbrev one : Env
  one = record { format_f64 = format_f64; parse_string = parse }

  abbrev two : Env
  two = record { format_f64 = format_f64; parse_string = other }

  err_here-Alike :
      (A : Type 0) (expected : Chars)
      → Alike (err_here one {A = A} expected) (err_here two expected)
  unfolding Alike err_here
  err_here-Alike A expected p inside = (refl, inside)

  expect-Alike :
      (t : Token) (expected : Chars) → Alike (expect one t expected) (expect two t expected)
  unfolding expect
  expect-Alike t expected = search (alike, err_here-Alike) depth 8

  ident_of-Alike :
      (what : Chars) (t : Option Token) (span : Span)
      → Alike (ident_of one what t span) (ident_of two what t span)
  ident_of-Alike what (some (Token.ident s)) span = search alike
  ident_of-Alike what _ span = err_here-Alike (Spanned Chars) what

  expect_ident-Alike : (what : Chars) → Alike (expect_ident one what) (expect_ident two what)
  unfolding expect_ident
  expect_ident-Alike what = search (alike, ident_of-Alike)

  raw_of-Alike :
      (what : Chars) (t : Option Token) (span : Span)
      → Alike (raw_of one what t span) (raw_of two what t span)
  raw_of-Alike what (some (Token.string s)) span = search alike
  raw_of-Alike what _ span = err_here-Alike (Spanned Chars) what

  string_raw-Alike : (what : Chars) → Alike (string_raw one what) (string_raw two what)
  unfolding string_raw
  string_raw-Alike what = search (alike, raw_of-Alike)

  in_interpolation-Alike : Alike (in_interpolation one) (in_interpolation two)
  unfolding Alike in_interpolation
  in_interpolation-Alike p inside = (refl, inside)

  keyword_name-Alike : (name : Option Chars) → Alike (keyword_name one name) (keyword_name two name)
  keyword_name-Alike none = err_here-Alike Chars _
  keyword_name-Alike (some name) = search alike

  variable_name-Alike :
      (inside : Bool) → Alike (variable_name one inside) (variable_name two inside)
  variable_name-Alike true = search (alike, keyword_name-Alike)
  variable_name-Alike false = search (alike, expect_ident-Alike)

  variable-Alike : (span : Span) → Alike (variable one span) (variable two span)
  unfolding variable
  variable-Alike span = search (alike, in_interpolation-Alike, variable_name-Alike) depth 12

  unique_call-Alike : (span : Span) → Alike (unique_call one span) (unique_call two span)
  unfolding unique_call
  unique_call-Alike span = search (alike, expect-Alike) depth 12

  ident_expr-Alike :
      (name : Chars) (span : Span) → Alike (ident_expr one name span) (ident_expr two name span)
  unfolding ident_expr
  ident_expr-Alike name span =
      search (alike, in_interpolation-Alike, unique_call-Alike, err_here-Alike) depth 12

  string_inside : Alike (string_of one true) (string_of two true)
  string_inside = search (alike, string_raw-Alike)

  string_case : (b : Bool) → b ≡ true → Alike (string_of one b) (string_of two b)
  string_case true h = string_inside
  string_case false h = cc h

  -- Inside an interpolation a string is plain text.
  string_expr-Alike : Alike (string_expr one) (string_expr two)
  unfolding Alike string_expr in_interpolation
  string_expr-Alike p inside = string_case p.in_interpolation inside p inside

  paren_expr-Alike :
      (m n : Parsing (Spanned Expr)) (span : Span)
      → Alike m n
      → Alike (paren_expr one m span) (paren_expr two n span)
  unfolding paren_expr
  paren_expr-Alike m n span same = search (alike, expect-Alike) depth 12

  primary_at-Alike :
      (m n : Parsing (Spanned Expr))
      → Alike m n
      → (t : Option Token) (span : Span) → Alike (primary_at one m t span) (primary_at two n t span)
  unfolding primary_at
  primary_at-Alike m n same (some Token.dollar) span = variable-Alike span
  primary_at-Alike m n same (some (Token.ident name)) span = ident_expr-Alike name span
  primary_at-Alike m n same (some (Token.int k)) span = search alike
  primary_at-Alike m n same (some (Token.float k)) span = search alike
  primary_at-Alike m n same (some (Token.bool b)) span = search alike
  primary_at-Alike m n same (some (Token.string s)) span = string_expr-Alike
  primary_at-Alike m n same (some Token.l_paren) span = paren_expr-Alike m n span same
  primary_at-Alike m n same _ span = err_here-Alike (Spanned Expr) _

  primary_expr-Alike :
      (m n : Parsing (Spanned Expr)) → Alike m n → Alike (primary_expr one m) (primary_expr two n)
  unfolding primary_expr
  primary_expr-Alike m n same = search (alike, primary_at-Alike)

  or_expr-Alike : (m n : Parsing (Spanned Expr)) → Alike m n → Alike (or_expr one m) (or_expr two n)
  or_expr-Alike m n same =
      search (binary_level-Alike, unary_expr-Alike, primary_expr-Alike) depth 12

  expr_on-Alike : (fuel : ℕ) → Alike (expr_on one fuel) (expr_on two fuel)
  unfolding expr_on
  expr_on-Alike zero = fail-Alike (Spanned Expr) out_of_fuel
  expr_on-Alike (suc fuel) =
      or_expr-Alike (expr_on one fuel) (expr_on two fuel) (expr_on-Alike fuel)

  expr-Alike : Alike (expr one) (expr two)
  unfolding expr
  expr-Alike = from_here (expr_on one) (expr_on two) expr_on-Alike

-- Inside an interpolation the parser of expressions does the same, whatever parser it is given for the
-- strings that hold interpolations, and stays inside.
pub expr-nested :
    (format_f64 : ℕ → Chars) (parse other : Chars → ℕ → Result (List ParseError) StringLiteral)
    (p : Parser)
    → p.in_interpolation ≡ true
    → (expr (record { format_f64 = format_f64; parse_string = parse }) p
        ≡ expr (record { format_f64 = format_f64; parse_string = other }) p)
      × ((expr (record { format_f64 = format_f64; parse_string = parse }) p).1.in_interpolation
          ≡ true)
unfolding Alike
expr-nested format_f64 parse other p inside = expr-Alike format_f64 parse other p inside
