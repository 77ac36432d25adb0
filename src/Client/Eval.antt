-- ===== src/Client/Eval.antt =====
-- crates/client/src/resolver.rs: the evaluation of expressions and of strings with interpolations.
--
-- The operations on floats are parameters, and so is whether the build checks the overflow of an i64.
-- The values of the variables are the only part of the resolver's state that evaluation reads.
pub mod Types
pub mod Typed
use jibs.Prelude.{
  ℕ, Bool, true, false, not, ◌&&◌, ◌||◌, List, [], ◌∷◌, ◌++◌, Option, none, some, if◌then◌else◌,
  Bytes, bytes_eq, codes, ◌==◌, contains,
}
use jibs.Prelude.Int.{ℤ, int_eq}
use jibs.Prelude.I64
use jibs.Prelude.I64.{fit, divided}
use jibs.Prelude.Dict.{Dict, lookup}
use jibs.Prelude.Result.{Result, ok, err, ◌>>=◌}
use jibs.Parser.Ast.{
  StringLiteral, StringLiterals, Literal, Expr, BinaryOp, UnaryOp, add, sub, mul, div, mod_of, eq,
  not_eq, lt, gt, lt_eq, gt_eq, and_also, or_else, not_of, neg,
}
use jibs.Protocol.Plan.{
  Value, string, string_array, int, int_array, float, float_array, bool, bool_array, null,
}
use jibs.Protocol.Plan.Accessors.{as_string}
use jibs.Client.Error.{
  ClientError, parse, undefined_variable, type_error, Failure, client, panicked,
}

-- The standard library's f64, by bit patterns.
pub record Floats : Type 0 where
  pub of_int : ℤ → ℕ
  pub parse_f64 : Bytes → Option ℕ
  pub format_f64 : ℕ → Bytes
  pub f64_eq : ℕ → ℕ → Bool
  pub f64_lt : ℕ → ℕ → Bool
  pub f64_le : ℕ → ℕ → Bool
  pub f64_add : ℕ → ℕ → ℕ
  pub f64_sub : ℕ → ℕ → ℕ
  pub f64_mul : ℕ → ℕ → ℕ
  pub f64_div : ℕ → ℕ → ℕ
  pub f64_rem : ℕ → ℕ → ℕ
  pub f64_neg : ℕ → ℕ

abbrev pub wrong_type {ℓ} : {A : Type ℓ} → Bytes → Result Failure A
wrong_type message = err (client (type_error message))

abbrev pub undefined {ℓ} : {A : Type ℓ} → Bytes → Result Failure A
undefined name = err (client (undefined_variable name))

-- `self.variables.get(name)`, with the error of its absence.
abbrev pub variable_value : Option Value → Bytes → Result Failure Value
variable_value none name = undefined name
variable_value (some v) name = ok v

unfoldable pub get_variable : Dict Value → Bytes → Result Failure Value
unfolding lookup
get_variable vars name = variable_value (lookup name vars) name

unfoldable pub value_to_bool : Value → Result Failure Bool
value_to_bool (bool b) = ok b
value_to_bool null = ok false
value_to_bool _ = wrong_type (codes "Expected boolean value")

-- A panic where there is no result.
abbrev pub or_panic : Option ℤ → Result Failure Value
or_panic none = err panicked
or_panic (some i) = ok (int i)

abbrev pub eq_lists {ℓ} : {A : Type ℓ} → (A → A → Bool) → List A → List A → Bool
eq_lists same [] [] = true
eq_lists same (x ∷ xs) (y ∷ ys) = same x y && eq_lists same xs ys
eq_lists same _ _ = false

abbrev pub bool_eq : Bool → Bool → Bool
bool_eq true b = b
bool_eq false b = not b

module _ (floats : Floats) (checked : Bool) where
  -- The derived `==`.
  unfoldable pub value_eq : Value → Value → Bool
  value_eq (string s) (string t) = bytes_eq s t
  value_eq (string_array s) (string_array t) = eq_lists bytes_eq s t
  value_eq (int i) (int j) = int_eq i j
  value_eq (int_array i) (int_array j) = eq_lists int_eq i j
  value_eq (float f) (float g) = floats.f64_eq f g
  value_eq (float_array f) (float_array g) = eq_lists floats.f64_eq f g
  value_eq (bool a) (bool b) = bool_eq a b
  value_eq (bool_array a) (bool_array b) = eq_lists bool_eq a b
  value_eq null null = true
  value_eq _ _ = false

  unfoldable pub value_to_f64 : Value → Result Failure ℕ
  value_to_f64 (int i) = ok (floats.of_int i)
  value_to_f64 (float f) = ok f
  value_to_f64 _ = wrong_type (codes "Expected numeric value")

  unfoldable pub compare_values : Value → Value → (ℕ → ℕ → Bool) → Result Failure Value
  unfolding value_to_f64
  compare_values left right f =
      value_to_f64 left >>= λ l. value_to_f64 right >>= λ r. ok (bool (f l r))

  unfoldable pub numeric_op :
      Value → Value → (ℤ → ℤ → Option ℤ) → (ℕ → ℕ → ℕ) → Result Failure Value
  numeric_op (int l) (int r) int_op float_op = or_panic (int_op l r)
  numeric_op (float l) (float r) int_op float_op = ok (float (float_op l r))
  numeric_op (int l) (float r) int_op float_op = ok (float (float_op (floats.of_int l) r))
  numeric_op (float l) (int r) int_op float_op = ok (float (float_op l (floats.of_int r)))
  numeric_op _ _ int_op float_op = wrong_type (codes "Numeric operation requires numeric operands")

  -- Both sides of `&&` or `||` are tests already.
  abbrev pub logical : Value → Value → (Bool → Bool → Bool) → Result Failure Value
  logical left right f = value_to_bool left >>= λ l. value_to_bool right >>= λ r. ok (bool (f l r))

  unfoldable pub eval_binary_op : Value → BinaryOp → Value → Result Failure Value
  unfolding value_eq compare_values numeric_op value_to_bool fit divided
  eval_binary_op left eq right = ok (bool (value_eq left right))
  eval_binary_op left not_eq right = ok (bool (not (value_eq left right)))
  eval_binary_op left lt right = compare_values left right floats.f64_lt
  eval_binary_op left gt right = compare_values left right (λ a b. floats.f64_lt b a)
  eval_binary_op left lt_eq right = compare_values left right floats.f64_le
  eval_binary_op left gt_eq right = compare_values left right (λ a b. floats.f64_le b a)
  eval_binary_op left and_also right = logical left right (λ l r. l && r)
  eval_binary_op left or_else right = logical left right (λ l r. l || r)
  eval_binary_op left add right =
      numeric_op left right (λ a b. fit checked (I64.plus a b)) floats.f64_add
  eval_binary_op left sub right =
      numeric_op left right (λ a b. fit checked (I64.plus a (I64.neg b))) floats.f64_sub
  eval_binary_op left mul right =
      numeric_op left right (λ a b. fit checked (I64.times a b)) floats.f64_mul
  eval_binary_op left div right = numeric_op left right (divided I64.quot) floats.f64_div
  eval_binary_op left mod_of right = numeric_op left right (divided I64.rem) floats.f64_rem

  unfoldable pub eval_unary_op : UnaryOp → Value → Result Failure Value
  unfolding value_to_bool fit
  eval_unary_op not_of val = value_to_bool val >>= λ b. ok (bool (not b))
  eval_unary_op neg (int i) = or_panic (fit checked (I64.neg i))
  eval_unary_op neg (float f) = ok (float (floats.f64_neg f))
  eval_unary_op neg _ = wrong_type (codes "Negation requires numeric value")

  abbrev pub unique_outside : Result Failure Value
  unique_outside =
      err (client (parse (codes "unique() can only be used inside faker string interpolation")))

  unfoldable mutual
    unfolding eval_binary_op eval_unary_op get_variable as_string

    pub evaluate_expr : Dict Value → Expr → Result Failure Value
    evaluate_expr vars (Expr.literal lit) = eval_literal vars lit
    evaluate_expr vars (Expr.variable name) = get_variable vars name
    evaluate_expr vars (Expr.binary left _ op right _) = evaluate_expr vars left >>= λ left_val.
        evaluate_expr vars right >>= λ right_val. eval_binary_op left_val op right_val
    evaluate_expr vars (Expr.unary op operand _) =
        evaluate_expr vars operand >>= λ val. eval_unary_op op val
    evaluate_expr vars Expr.unique = unique_outside

    pub eval_literal : Dict Value → Literal → Result Failure Value
    eval_literal vars (Literal.int i) = ok (int i)
    eval_literal vars (Literal.int_array arr) = ok (int_array arr)
    eval_literal vars (Literal.float f) = ok (float f)
    eval_literal vars (Literal.float_array arr) = ok (float_array arr)
    eval_literal vars (Literal.bool b) = ok (bool b)
    eval_literal vars (Literal.bool_array arr) = ok (bool_array arr)
    eval_literal vars Literal.null = ok null
    eval_literal vars (Literal.string s) =
        resolve_string_literal vars s >>= λ resolved. ok (string resolved)
    eval_literal vars (Literal.string_array arr) =
        resolve_string_literals vars arr >>= λ resolved. ok (string_array resolved)

    -- The strings of an array, the first error ending it.
    pub resolve_string_literals : Dict Value → StringLiterals → Result Failure (List Bytes)
    resolve_string_literals vars StringLiterals.no_string = ok []
    resolve_string_literals vars (StringLiterals.a_string s _ rest) =
        resolve_string_literal vars s >>= λ front.
        resolve_string_literals vars rest >>= λ more. ok (front ∷ more)

    -- `unique()` is passed on, for the server to replace.
    pub resolve_string_literal : Dict Value → StringLiteral → Result Failure Bytes
    resolve_string_literal vars StringLiteral.no_part = ok []
    resolve_string_literal vars (StringLiteral.text s rest) =
        resolve_string_literal vars rest >>= λ more. ok (s ++ more)
    resolve_string_literal vars (StringLiteral.interpolation Expr.unique _ rest) =
        resolve_string_literal vars rest >>= λ more. ok (codes "{unique()}" ++ more)
    resolve_string_literal vars (StringLiteral.interpolation e _ rest) =
        evaluate_expr vars e >>= λ value.
        resolve_string_literal vars rest >>= λ more. ok (as_string floats.format_f64 value ++ more)

  -- The parameters of a function stay in the text, in braces, to be replaced when it is called.
  unfoldable pub resolve_string_literal_with_params :
      Dict Value → List Bytes → StringLiteral → Result Failure Bytes
  unfolding evaluate_expr contains as_string
  resolve_string_literal_with_params vars params StringLiteral.no_part = ok []
  resolve_string_literal_with_params vars params (StringLiteral.text s rest) =
      resolve_string_literal_with_params vars params rest >>= λ more. ok (s ++ more)
  resolve_string_literal_with_params vars params (StringLiteral.interpolation Expr.unique _ rest) =
      resolve_string_literal_with_params vars params rest >>= λ more.
      ok (codes "{unique()}" ++ more)
  resolve_string_literal_with_params vars params
        (StringLiteral.interpolation (Expr.variable name) _ rest) =
      let more = resolve_string_literal_with_params vars params rest in
      if contains params name
      then (more >>= λ behind. ok (codes "{" ++ (name ++ (codes "}" ++ behind))))
      else (get_variable vars name >>= λ value.
          more >>= λ behind. ok (as_string floats.format_f64 value ++ behind))
  resolve_string_literal_with_params vars params (StringLiteral.interpolation e _ rest) =
      evaluate_expr vars e >>= λ value.
      resolve_string_literal_with_params vars params rest >>= λ more.
      ok (as_string floats.format_f64 value ++ more)

  -- The value of a condition.
  abbrev pub condition_value : Value → Result Failure Bool
  condition_value (bool b) = ok b
  condition_value null = ok false
  condition_value _ = wrong_type (codes "Condition must evaluate to bool")

  unfoldable pub evaluate_condition : Dict Value → Expr → Result Failure Bool
  unfolding evaluate_expr
  evaluate_condition vars e = evaluate_expr vars e >>= condition_value
