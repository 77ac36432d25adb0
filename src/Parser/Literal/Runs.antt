-- ===== src/Parser/Literal/Runs.antt =====
-- The parsings of values and literals run.
use jibs.Prelude.{ℕ, Bool, true, false, Option, some}
use jibs.Parser.Ast.{Literal, Value}
use jibs.Parser.Cursor.{Env}
use jibs.Parser.Cursor.Runs.{
  Runs, running, err_here-Runs, expect-Runs, expect_ident-Runs, string_literal-Runs,
}
use jibs.Parser.Cursor.Takes.{elements-Runs}
use jibs.Parser.Literal.{
  Kind, str, int, float, bool, none_fits, number_at, signed_number, bool_at, bool_element, int_in,
  int_element, float_in, float_element, elements_of, array_behind, array_literal, literal_at,
  literal, literal_value, value_at, value,
}
use jibs.Parser.Token.{Token}

module _ (env : Env) where
  number_at-Runs : (n : ℕ) (negative : Bool) (t : Option Token) → Runs n (number_at env negative t)
  number_at-Runs n negative (some (Token.int m)) = search running
  number_at-Runs n negative (some (Token.float m)) = search running
  number_at-Runs n negative _ = err_here-Runs env Literal n _

  signed_number-Runs : (n : ℕ) → Runs n (signed_number env)
  unfolding signed_number
  signed_number-Runs n = search (running, number_at-Runs)

  bool_at-Runs : (n : ℕ) (t : Option Token) → Runs n (bool_at env t)
  bool_at-Runs n (some (Token.bool b)) = search running
  bool_at-Runs n _ = err_here-Runs env Bool n _

  bool_element-Runs : (n : ℕ) → Runs n (bool_element env)
  unfolding bool_element
  bool_element-Runs n = search (running, bool_at-Runs)

  int_in-Runs : (n : ℕ) (number : Literal) → Runs n (int_in env number)
  int_in-Runs n (Literal.int m) = search running
  int_in-Runs n _ = err_here-Runs env _ n _

  int_element-Runs : (n : ℕ) → Runs n (int_element env)
  unfolding int_element
  int_element-Runs n = search (running, signed_number-Runs, int_in-Runs)

  float_in-Runs : (n : ℕ) (number : Literal) → Runs n (float_in env number)
  float_in-Runs n (Literal.float m) = search running
  float_in-Runs n _ = err_here-Runs env ℕ n _

  float_element-Runs : (n : ℕ) → Runs n (float_element env)
  unfolding float_element
  float_element-Runs n = search (running, signed_number-Runs, float_in-Runs)

  elements_of-Runs : (n : ℕ) (kind : Kind) → Runs n (elements_of env kind)
  elements_of-Runs n str = search (running, elements-Runs, string_literal-Runs)
  elements_of-Runs n bool = search (running, elements-Runs, bool_element-Runs)
  elements_of-Runs n int = search (running, elements-Runs, int_element-Runs)
  elements_of-Runs n float = search (running, elements-Runs, float_element-Runs)
  elements_of-Runs n none_fits = err_here-Runs env Literal n _

  array_behind-Runs : (n : ℕ) (empty : Bool) → Runs n (array_behind env empty)
  array_behind-Runs n true = search running
  array_behind-Runs n false = search (running, elements_of-Runs, expect-Runs)

  array_literal-Runs : (n : ℕ) → Runs n (array_literal env)
  unfolding array_literal
  array_literal-Runs n = search (running, array_behind-Runs, expect-Runs)

  literal_at-Runs : (n : ℕ) (t : Option Token) → Runs n (literal_at env t)
  literal_at-Runs n (some Token.l_bracket) = array_literal-Runs n
  literal_at-Runs n (some (Token.string s)) = search (running, string_literal-Runs)
  literal_at-Runs n (some (Token.bool b)) = search running
  literal_at-Runs n (some Token.null) = search running
  literal_at-Runs n (some (Token.int m)) = signed_number-Runs n
  literal_at-Runs n (some (Token.float m)) = signed_number-Runs n
  literal_at-Runs n (some Token.minus) = signed_number-Runs n
  literal_at-Runs n _ = err_here-Runs env Literal n _

  pub literal-Runs : (n : ℕ) → Runs n (literal env)
  unfolding literal
  literal-Runs n = search (running, literal_at-Runs)

  number_value-Runs : (n : ℕ) → Runs n (literal_value env (signed_number env))
  number_value-Runs n = search (running, signed_number-Runs)

  value_at-Runs : (n : ℕ) (t : Option Token) → Runs n (value_at env t)
  value_at-Runs n (some Token.dollar) = search (running, expect_ident-Runs)
  value_at-Runs n (some (Token.string s)) = search (running, string_literal-Runs)
  value_at-Runs n (some (Token.bool b)) = search running
  value_at-Runs n (some (Token.int m)) = number_value-Runs n
  value_at-Runs n (some (Token.float m)) = number_value-Runs n
  value_at-Runs n (some Token.minus) = number_value-Runs n
  value_at-Runs n _ = err_here-Runs env Value n _

  pub value-Runs : (n : ℕ) → Runs n (value env)
  unfolding value
  value-Runs n = search (running, value_at-Runs)
