-- ===== src/Parser/Literal.antt =====
-- crates/parser/src/parser.rs: the values and the literals.
--
-- A float is its bit pattern, whose sign is the highest bit. An i64 wraps: a literal's digits give no
-- negative number, so only `i64::MIN` itself, which no literal is, would.
pub mod Runs
use jibs.Prelude.{
  ℕ, zero, suc, ◌+◌, ◌%◌, ◌^◌, ◌==◌, Bool, true, false, List, [], ◌∷◌, Option, none, some,
  if◌then◌else◌, codes,
}
use jibs.Prelude.Int.{ℤ, pos, negsuc, max_i64}
use jibs.Prelude.Result.{Result, ok, err}
use jibs.Parser.Ast.{Span, Spanned, StringLiteral, StringLiterals, Literal, Value}
use jibs.Parser.Chars.{Chars}
use jibs.Parser.Cursor.{
  Parser, Parsing, Env, ◌>>=◌, ◌>>◌, return, peek, peek2, cur_span, span_from, bump, eat, err_here,
  expect, expect_ident, string_literal, elements,
}
use jibs.Parser.Token.{Token}

unfoldable pub neg_i64 : ℤ → ℤ
neg_i64 (pos zero) = pos zero
neg_i64 (pos (suc n)) = negsuc n
neg_i64 (negsuc n) = if n == max_i64 then negsuc n else pos (suc n)

unfoldable pub neg_f64 : ℕ → ℕ
neg_f64 bits = (bits + 2 ^ 63) % 2 ^ 64

-- The type of an array's elements, by the tokens in front.
pub data Kind : Type 0 where
  str int float bool none_fits : Kind

abbrev pub kind_of : Option Token → Option Token → Kind
kind_of (some (Token.string _)) _ = str
kind_of (some (Token.bool _)) _ = bool
kind_of (some (Token.int _)) _ = int
kind_of (some Token.minus) (some (Token.int _)) = int
kind_of (some (Token.float _)) _ = float
kind_of (some Token.minus) (some (Token.float _)) = float
kind_of _ _ = none_fits

abbrev pub to_literals : List (Spanned StringLiteral) → StringLiterals
to_literals [] = StringLiterals.no_string
to_literals ((s, span) ∷ rest) = StringLiterals.a_string s span (to_literals rest)

module _ (env : Env) where
  abbrev pub number_at : Bool → Option Token → Parsing Literal
  number_at negative (some (Token.int n)) =
      bump >> return (Literal.int (if negative then neg_i64 n else n))
  number_at negative (some (Token.float n)) =
      bump >> return (Literal.float (if negative then neg_f64 n else n))
  number_at negative _ = err_here env (codes "a number")

  pub signed_number : Parsing Literal
  unfolding neg_i64 neg_f64
  signed_number = do negative ← eat Token.minus; t ← peek; number_at negative t

  abbrev pub bool_at : Option Token → Parsing Bool
  bool_at (some (Token.bool b)) = bump >> return b
  bool_at _ = err_here env (codes "a bool array element")

  pub bool_element : Parsing Bool
  bool_element = do t ← peek; bool_at t

  abbrev pub int_in : Literal → Parsing ℤ
  int_in (Literal.int n) = return n
  int_in _ = err_here env (codes "an int array element")

  pub int_element : Parsing ℤ
  unfolding signed_number
  int_element = do number ← signed_number; int_in number

  abbrev pub float_in : Literal → Parsing ℕ
  float_in (Literal.float n) = return n
  float_in _ = err_here env (codes "a float array element")

  pub float_element : Parsing ℕ
  unfolding signed_number
  float_element = do number ← signed_number; float_in number

  abbrev pub elements_of : Kind → Parsing Literal
  elements_of str = do
    items ← elements Token.r_bracket (string_literal env (codes "a string array element"))
    return (Literal.string_array (to_literals items))
  elements_of bool = do
    items ← elements Token.r_bracket bool_element
    return (Literal.bool_array items)
  elements_of int = do
    items ← elements Token.r_bracket int_element
    return (Literal.int_array items)
  elements_of float = do
    items ← elements Token.r_bracket float_element
    return (Literal.float_array items)
  elements_of none_fits = err_here env (codes "an array element (string, number, or bool)")

  -- The elements behind the opening bracket.
  abbrev pub array_behind : Bool → Parsing Literal
  array_behind true = return (Literal.string_array StringLiterals.no_string)
  array_behind false = do
    first ← peek
    second ← peek2
    items ← elements_of (kind_of first second)
    expect env Token.r_bracket (codes "']' to close the array")
    return items

  pub array_literal : Parsing Literal
  unfolding bool_element int_element float_element
  array_literal = do
    expect env Token.l_bracket (codes "'['")
    empty ← eat Token.r_bracket
    array_behind empty

  abbrev pub a_string : Parsing Literal
  a_string = do s ← string_literal env (codes "a string"); return (Literal.string s.0)

  abbrev pub literal_at : Option Token → Parsing Literal
  literal_at (some Token.l_bracket) = array_literal
  literal_at (some (Token.string _)) = a_string
  literal_at (some (Token.bool b)) = bump >> return (Literal.bool b)
  literal_at (some Token.null) = bump >> return Literal.null
  literal_at (some (Token.int _)) = signed_number
  literal_at (some (Token.float _)) = signed_number
  literal_at (some Token.minus) = signed_number
  literal_at _ = err_here env (codes "a literal value")

  pub literal : Parsing (Spanned Literal)
  unfolding array_literal signed_number
  literal = do
    start ← cur_span
    t ← peek
    value ← literal_at t
    span ← span_from start
    return (value, span)

  abbrev pub variable_value : Parsing Value
  variable_value = do
    bump
    name ← expect_ident env (codes "a variable name after '$'")
    return (Value.variable name.0)

  abbrev pub literal_value : Parsing Literal → Parsing Value
  literal_value parsing = parsing >>= λ value. return (Value.literal value)

  abbrev pub value_at : Option Token → Parsing Value
  value_at (some Token.dollar) = variable_value
  value_at (some (Token.string _)) = literal_value a_string
  value_at (some (Token.bool b)) = bump >> return (Value.literal (Literal.bool b))
  value_at (some (Token.int _)) = literal_value signed_number
  value_at (some (Token.float _)) = literal_value signed_number
  value_at (some Token.minus) = literal_value signed_number
  value_at _ = err_here env (codes "a value ($variable, string, number, or bool)")

  pub value : Parsing (Spanned Value)
  unfolding signed_number
  value = do start ← cur_span; t ← peek; v ← value_at t; span ← span_from start; return (v, span)
