-- ===== src/Parser/Expr.antt =====
-- crates/parser/src/parser.rs: the expressions, by precedence climbing.
--
-- `expr` calls itself below parentheses, on fuel; the loop of a level and the chain of unary operators
-- take a token a round, so the tokens that are left are fuel enough.
pub mod Runs
pub mod Nested
use jibs.Prelude.{
  ℕ, zero, suc, ◌+◌, Bool, true, false, ◌&&◌, Option, none, some, if◌then◌else◌, codes, bytes_eq,
}
use jibs.Prelude.Result.{Result, ok, err}
use jibs.Parser.Ast.{
  Span, Spanned, StringLiteral, Literal, BinaryOp, UnaryOp, Expr, add, sub, mul, div, mod_of, eq,
  not_eq, lt, gt, lt_eq, gt_eq, and_also, or_else, not_of, neg,
}
use jibs.Parser.Chars.{Chars}
use jibs.Parser.Cursor.{
  Parser, Parsing, Env, ◌>>=◌, ◌>>◌, return, fail, out_of_fuel, peek, peek2, cur_span, span_from,
  bump, is_token, err_here, expect, expect_ident, string_raw, string_literal, remaining,
}
use jibs.Parser.Lexer.{new_span}
use jibs.Parser.Token.{Token, token_as_ident}

abbrev pub op_at : (Token → Option BinaryOp) → Option Token → Option BinaryOp
op_at op_of none = none
op_at op_of (some t) = op_of t

abbrev pub joined : Spanned Expr → BinaryOp → Spanned Expr → Spanned Expr
joined lhs op rhs = (Expr.binary lhs.0 lhs.1 op rhs.0 rhs.1, new_span lhs.1.start rhs.1.end)

-- A round of the loop of `binary_level`, with what goes on from a joined operand.
abbrev pub binary_round :
    (Spanned Expr → Parsing (Spanned Expr))
    → Parsing (Spanned Expr)
    → Spanned Expr
    → Option BinaryOp
    → Parsing (Spanned Expr)
binary_round rest next lhs none = return lhs
binary_round rest next lhs (some op) = bump >> next >>= λ rhs. rest (joined lhs op rhs)

-- The loop of `binary_level`, behind its first operand.
pub binary_rest :
    ℕ → Parsing (Spanned Expr) → (Token → Option BinaryOp) → Spanned Expr → Parsing (Spanned Expr)
binary_rest zero next op_of lhs = fail out_of_fuel
binary_rest (suc fuel) next op_of lhs =
    peek >>= λ t. binary_round (binary_rest fuel next op_of) next lhs (op_at op_of t)

pub binary_level : Parsing (Spanned Expr) → (Token → Option BinaryOp) → Parsing (Spanned Expr)
unfolding binary_rest
binary_level next op_of = next >>= λ lhs p. binary_rest (remaining p + 1) next op_of lhs p

abbrev pub or_op : Token → Option BinaryOp
or_op Token.or = some or_else
or_op _ = none

abbrev pub and_op : Token → Option BinaryOp
and_op Token.and = some and_also
and_op _ = none

abbrev pub equality_op : Token → Option BinaryOp
equality_op Token.eq = some eq
equality_op Token.not_eq = some not_eq
equality_op _ = none

abbrev pub comparison_op : Token → Option BinaryOp
comparison_op Token.lt = some lt
comparison_op Token.gt = some gt
comparison_op Token.lt_eq = some lt_eq
comparison_op Token.gt_eq = some gt_eq
comparison_op _ = none

abbrev pub additive_op : Token → Option BinaryOp
additive_op Token.plus = some add
additive_op Token.minus = some sub
additive_op _ = none

abbrev pub multiplicative_op : Token → Option BinaryOp
multiplicative_op Token.star = some mul
multiplicative_op Token.slash = some div
multiplicative_op Token.percent = some mod_of
multiplicative_op _ = none

abbrev pub unary_op : Option Token → Option UnaryOp
unary_op (some Token.not) = some not_of
unary_op (some Token.minus) = some neg
unary_op _ = none

abbrev pub negated : UnaryOp → Span → Spanned Expr → Spanned Expr
negated op start inner = (Expr.unary op inner.0 inner.1, new_span start.start inner.1.end)

abbrev pub unary_round :
    Parsing (Spanned Expr) → Parsing (Spanned Expr) → Option UnaryOp → Parsing (Spanned Expr)
unary_round inner_expr primary none = primary
unary_round inner_expr primary (some op) = do
  start ← cur_span
  bump
  inner ← inner_expr
  return (negated op start inner)

-- `unary_expr`, above the primary expressions.
pub unary_on : ℕ → Parsing (Spanned Expr) → Parsing (Spanned Expr)
unary_on zero primary = fail out_of_fuel
unary_on (suc fuel) primary = peek >>= λ t. unary_round (unary_on fuel primary) primary (unary_op t)

pub unary_expr : Parsing (Spanned Expr) → Parsing (Spanned Expr)
unfolding unary_on
unary_expr primary p = unary_on (remaining p + 1) primary p

module _ (env : Env) where
  pub in_interpolation : Parsing Bool
  in_interpolation p = (ok p.in_interpolation, p)

  abbrev pub as_ident : Option Token → Option Chars
  as_ident none = none
  as_ident (some t) = token_as_ident t

  abbrev pub keyword_name : Option Chars → Parsing Chars
  keyword_name none = err_here env (codes "a variable name after '$'")
  keyword_name (some name) = bump >> return name

  -- Inside an interpolation a keyword is a name.
  abbrev pub variable_name : Bool → Parsing Chars
  variable_name true = do t ← peek; keyword_name (as_ident t)
  variable_name false = do
    name ← expect_ident env (codes "a variable name after '$'")
    return name.0

  pub variable : Span → Parsing (Spanned Expr)
  variable span = do
    bump
    inside ← in_interpolation
    name ← variable_name inside
    whole ← span_from span
    return (Expr.variable name, whole)

  pub unique_call : Span → Parsing (Spanned Expr)
  unique_call span = do
    bump
    bump
    expect env Token.r_paren (codes "')' to close unique()")
    whole ← span_from span
    return (Expr.unique, whole)

  abbrev pub no_expr : {A : Type 0} → Parsing A
  no_expr = err_here env (codes "an expression ($variable, literal, or parentheses)")

  abbrev pub calls_unique : Chars → Bool → Option Token → Bool
  calls_unique name inside t =
      bytes_eq name (codes "unique") && (inside && is_token Token.l_paren t)

  -- `unique` behind which a parenthesis opens, inside an interpolation.
  pub ident_expr : Chars → Span → Parsing (Spanned Expr)
  unfolding unique_call
  ident_expr name span = do
    inside ← in_interpolation
    t ← peek2
    if calls_unique name inside t then unique_call span else no_expr

  abbrev pub string_of : Bool → Parsing (Spanned Expr)
  string_of true = do
    s ← string_raw env (codes "a string")
    return (Expr.literal (Literal.string (StringLiteral.text s.0 StringLiteral.no_part)), s.1)
  string_of false = do
    s ← string_literal env (codes "a string")
    return (Expr.literal (Literal.string s.0), s.1)

  pub string_expr : Parsing (Spanned Expr)
  unfolding in_interpolation
  string_expr = do inside ← in_interpolation; string_of inside

  -- Behind the opening parenthesis.
  abbrev pub paren_rest : Parsing (Spanned Expr) → Span → Parsing (Spanned Expr)
  paren_rest expr span = do
    inner ← expr
    expect env Token.r_paren (codes "')' to close the expression")
    whole ← span_from span
    return (inner.0, whole)

  pub paren_expr : Parsing (Spanned Expr) → Span → Parsing (Spanned Expr)
  paren_expr expr span = bump >> paren_rest expr span

  -- The `match` of `primary_expr`.
  pub primary_at : Parsing (Spanned Expr) → Option Token → Span → Parsing (Spanned Expr)
  unfolding variable ident_expr string_expr paren_expr
  primary_at expr (some Token.dollar) span = variable span
  primary_at expr (some (Token.ident name)) span = ident_expr name span
  primary_at expr (some (Token.int n)) span = bump >> return (Expr.literal (Literal.int n), span)
  primary_at expr (some (Token.float n)) span =
      bump >> return (Expr.literal (Literal.float n), span)
  primary_at expr (some (Token.bool b)) span = bump >> return (Expr.literal (Literal.bool b), span)
  primary_at expr (some (Token.string _)) span = string_expr
  primary_at expr (some Token.l_paren) span = paren_expr expr span
  primary_at expr _ span = no_expr

  pub primary_expr : Parsing (Spanned Expr) → Parsing (Spanned Expr)
  unfolding primary_at
  primary_expr expr = do span ← cur_span; t ← peek; primary_at expr t span

  -- The levels, from the weakest operator to the strongest, above an expression in parentheses.
  abbrev pub multiplicative_expr : Parsing (Spanned Expr) → Parsing (Spanned Expr)
  multiplicative_expr expr = binary_level (unary_expr (primary_expr expr)) multiplicative_op

  abbrev pub additive_expr : Parsing (Spanned Expr) → Parsing (Spanned Expr)
  additive_expr expr = binary_level (multiplicative_expr expr) additive_op

  abbrev pub comparison_expr : Parsing (Spanned Expr) → Parsing (Spanned Expr)
  comparison_expr expr = binary_level (additive_expr expr) comparison_op

  abbrev pub equality_expr : Parsing (Spanned Expr) → Parsing (Spanned Expr)
  equality_expr expr = binary_level (comparison_expr expr) equality_op

  abbrev pub and_expr : Parsing (Spanned Expr) → Parsing (Spanned Expr)
  and_expr expr = binary_level (equality_expr expr) and_op

  abbrev pub or_expr : Parsing (Spanned Expr) → Parsing (Spanned Expr)
  or_expr expr = binary_level (and_expr expr) or_op

  pub expr_on : ℕ → Parsing (Spanned Expr)
  unfolding binary_level unary_expr primary_expr
  expr_on zero = fail out_of_fuel
  expr_on (suc fuel) = or_expr (expr_on fuel)

  pub expr : Parsing (Spanned Expr)
  unfolding expr_on
  expr p = expr_on (remaining p + 1) p
