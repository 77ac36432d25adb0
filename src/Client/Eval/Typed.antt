-- ===== src/Client/Eval/Typed.antt =====
-- Types of expressions: the code has none, it looks at the values. A typed expression over variables
-- that have their types never meets a value of the wrong kind.
use jibs.Prelude.{ℕ, ◌++◌, Option, none, some, ◌≡◌, refl, Bool, Bytes}
use jibs.Prelude.Dict.{Dict, lookup}
use jibs.Prelude.Int.{ℤ}
use jibs.Prelude.Result.{Result, ok, err, ◌>>=◌}
use jibs.Parser.Ast.{
  Span, StringLiteral, StringLiterals, Literal, Expr, VarType, BinaryOp, not_of, neg,
}
use jibs.Protocol.Plan.{Value}
use jibs.Protocol.Plan.Accessors.{as_string}
use jibs.Client.Error.{Failure, client, panicked}
use jibs.Client.Eval.{
  Floats, get_variable, value_to_bool, value_to_f64, compare_values, numeric_op, eval_binary_op,
  eval_unary_op, evaluate_expr, eval_literal, resolve_string_literals, resolve_string_literal,
  or_panic,
}
use jibs.Client.Eval.Types.{
  HasType, IsNumber, IsArithmetic, IsComparison, IsEquality, IsLogical, sum_type, Typed,
  TypedLiteral, TypedStrings, TypedParts, Agrees, int, float, add, sub, mul, div, mod_of, lt, gt,
  lt_eq, gt_eq, eq, not_eq, and_also, or_else,
}

-- A result that satisfies `P`, or a panic; no error.
pub Sound : {A : Type 0} → (A → Type 0) → Result Failure A → Type 0
Sound P (ok a) = P a
Sound P (err panicked) = Unit
Sound P (err (client e)) = ⊥

Sound-ok : {A : Type 0} (P : A → Type 0) (a : A) → P a → Sound P (ok a)
unfolding Sound
Sound-ok P a h = h

Sound-bind :
    {A B : Type 0} (P : A → Type 0) (Q : B → Type 0) (x : Result Failure A)
    (f : A → Result Failure B)
    → Sound P x
    → ((a : A) → P a → Sound Q (f a))
    → Sound Q (x >>= f)
unfolding Sound
Sound-bind P Q (ok a) f h k = k a h
Sound-bind P Q (err panicked) f h k = tt
Sound-bind P Q (err (client e)) f h k = absurd h

or_panic-Sound : (i : Option ℤ) → Sound (λ v. HasType v VarType.int) (or_panic i)
unfolding Sound
or_panic-Sound none = tt
or_panic-Sound (some i) = HasType.int

module _ (floats : Floats) (checked : Bool) where
  arithmetic-Sound :
      (op : BinaryOp) {σ τ : VarType} (v w : Value)
      → IsArithmetic op
      → IsNumber σ
      → IsNumber τ
      → HasType v σ
      → HasType w τ
      → Sound (λ u. HasType u (sum_type σ τ)) (eval_binary_op floats checked v op w)
  unfolding Sound eval_binary_op numeric_op
  arithmetic-Sound _ _ _ add int int int int = or_panic-Sound _
  arithmetic-Sound _ _ _ sub int int int int = or_panic-Sound _
  arithmetic-Sound _ _ _ mul int int int int = or_panic-Sound _
  arithmetic-Sound _ _ _ div int int int int = or_panic-Sound _
  arithmetic-Sound _ _ _ mod_of int int int int = or_panic-Sound _
  arithmetic-Sound _ _ _ add int float int float = HasType.float
  arithmetic-Sound _ _ _ sub int float int float = HasType.float
  arithmetic-Sound _ _ _ mul int float int float = HasType.float
  arithmetic-Sound _ _ _ div int float int float = HasType.float
  arithmetic-Sound _ _ _ mod_of int float int float = HasType.float
  arithmetic-Sound _ _ _ add float int float int = HasType.float
  arithmetic-Sound _ _ _ sub float int float int = HasType.float
  arithmetic-Sound _ _ _ mul float int float int = HasType.float
  arithmetic-Sound _ _ _ div float int float int = HasType.float
  arithmetic-Sound _ _ _ mod_of float int float int = HasType.float
  arithmetic-Sound _ _ _ add float float float float = HasType.float
  arithmetic-Sound _ _ _ sub float float float float = HasType.float
  arithmetic-Sound _ _ _ mul float float float float = HasType.float
  arithmetic-Sound _ _ _ div float float float float = HasType.float
  arithmetic-Sound _ _ _ mod_of float float float float = HasType.float

  value_to_f64-Sound :
      {τ : VarType} (v : Value)
      → IsNumber τ
      → HasType v τ
      → (f : ℕ) × (value_to_f64 floats checked v ≡ ok f)
  unfolding value_to_f64
  value_to_f64-Sound _ int int = (_, refl)
  value_to_f64-Sound _ float float = (_, refl)

  compare_values-Sound :
      {σ τ : VarType} (v w : Value) (f : ℕ → ℕ → Bool)
      → IsNumber σ
      → IsNumber τ
      → HasType v σ
      → HasType w τ
      → Sound (λ u. HasType u VarType.bool) (compare_values floats checked v w f)
  unfolding Sound compare_values
  compare_values-Sound v w f m n h k =
      let (_, e) = value_to_f64-Sound v m h in
      let (_, d) = value_to_f64-Sound w n k in rw (e, d) HasType.bool

  comparison-Sound :
      (op : BinaryOp) {σ τ : VarType} (v w : Value)
      → IsComparison op
      → IsNumber σ
      → IsNumber τ
      → HasType v σ
      → HasType w τ
      → Sound (λ u. HasType u VarType.bool) (eval_binary_op floats checked v op w)
  unfolding eval_binary_op
  comparison-Sound _ v w lt m n h k = compare_values-Sound v w _ m n h k
  comparison-Sound _ v w gt m n h k = compare_values-Sound v w _ m n h k
  comparison-Sound _ v w lt_eq m n h k = compare_values-Sound v w _ m n h k
  comparison-Sound _ v w gt_eq m n h k = compare_values-Sound v w _ m n h k

  equality-Sound :
      (op : BinaryOp) (v w : Value)
      → IsEquality op
      → Sound (λ u. HasType u VarType.bool) (eval_binary_op floats checked v op w)
  unfolding Sound eval_binary_op
  equality-Sound _ v w eq = HasType.bool
  equality-Sound _ v w not_eq = HasType.bool

  logical-Sound :
      (op : BinaryOp) (v w : Value)
      → IsLogical op
      → HasType v VarType.bool
      → HasType w VarType.bool
      → Sound (λ u. HasType u VarType.bool) (eval_binary_op floats checked v op w)
  unfolding Sound eval_binary_op value_to_bool
  logical-Sound _ _ _ and_also HasType.bool HasType.bool = HasType.bool
  logical-Sound _ _ _ or_else HasType.bool HasType.bool = HasType.bool

  negation-Sound :
      (v : Value)
      → HasType v VarType.bool
      → Sound (λ u. HasType u VarType.bool) (eval_unary_op floats checked not_of v)
  unfolding Sound eval_unary_op value_to_bool
  negation-Sound _ HasType.bool = HasType.bool

  minus-Sound :
      {τ : VarType} (v : Value)
      → IsNumber τ
      → HasType v τ
      → Sound (λ u. HasType u τ) (eval_unary_op floats checked neg v)
  unfolding Sound eval_unary_op
  minus-Sound _ int HasType.int = or_panic-Sound _
  minus-Sound _ float HasType.float = HasType.float

  module _ (vars : Dict Value) (Γ : Dict VarType) (agrees : Agrees vars Γ) where
    variable-Sound :
        (name : Bytes) {τ : VarType}
        → lookup name Γ ≡ some τ
        → Sound (λ u. HasType u τ) (get_variable vars name)
    unfolding Sound get_variable
    variable-Sound name {τ} h = let (v, e, typed) = agrees name τ h in rw e typed

    -- A typed expression is no `unique()`.
    interpolation_lem :
        (at_e : Span) (rest : StringLiteral) {e : Expr} {τ : VarType}
        → Typed Γ e τ
        → resolve_string_literal floats checked vars (StringLiteral.interpolation e at_e rest) ≡ (
            evaluate_expr floats checked vars e >>= λ value.
            resolve_string_literal floats checked vars rest >>= λ more.
            ok (as_string floats.format_f64 value ++ more))
    unfolding evaluate_expr
    interpolation_lem at_e rest (Typed.literal h) = refl
    interpolation_lem at_e rest (Typed.variable h) = refl
    interpolation_lem at_e rest (Typed.equality op l r) = refl
    interpolation_lem at_e rest (Typed.comparison op m n l r) = refl
    interpolation_lem at_e rest (Typed.logical op l r) = refl
    interpolation_lem at_e rest (Typed.arithmetic op m n l r same) = refl
    interpolation_lem at_e rest (Typed.negation h) = refl
    interpolation_lem at_e rest (Typed.minus n h) = refl

    mutual
      unfolding evaluate_expr

      typed_expr :
          {e : Expr} {τ : VarType}
          → Typed Γ e τ
          → Sound (λ u. HasType u τ) (evaluate_expr floats checked vars e)
      typed_expr (Typed.literal h) = typed_literal h
      typed_expr (Typed.variable h) = variable-Sound _ h
      typed_expr (Typed.equality op l r) =
          Sound-bind _ _ _ _ (typed_expr l)
            λ v _. Sound-bind _ _ _ _ (typed_expr r) λ w _. equality-Sound _ v w op
      typed_expr (Typed.comparison op m n l r) =
          Sound-bind _ _ _ _ (typed_expr l)
            λ v h. Sound-bind _ _ _ _ (typed_expr r) λ w k. comparison-Sound _ v w op m n h k
      typed_expr (Typed.logical op l r) =
          Sound-bind _ _ _ _ (typed_expr l)
            λ v h. Sound-bind _ _ _ _ (typed_expr r) λ w k. logical-Sound _ v w op h k
      typed_expr (Typed.arithmetic op m n l r same) = rw same (
          Sound-bind _ _ _ _ (typed_expr l)
            λ v h. Sound-bind _ _ _ _ (typed_expr r) λ w k. arithmetic-Sound _ v w op m n h k)
      typed_expr (Typed.negation h) = Sound-bind _ _ _ _ (typed_expr h) negation-Sound
      typed_expr (Typed.minus n h) = Sound-bind _ _ _ _ (typed_expr h) (λ v k. minus-Sound v n k)

      typed_literal :
          {lit : Literal} {τ : VarType}
          → TypedLiteral Γ lit τ
          → Sound (λ u. HasType u τ) (eval_literal floats checked vars lit)
      typed_literal (TypedLiteral.string h) =
          Sound-bind (λ _. Unit) _ _ _ (typed_parts h) (λ _ _. Sound-ok _ _ HasType.string)
      typed_literal (TypedLiteral.string_array h) =
          Sound-bind (λ _. Unit) _ _ _ (typed_strings h) (λ _ _. Sound-ok _ _ HasType.string_array)
      typed_literal TypedLiteral.int = Sound-ok _ _ HasType.int
      typed_literal TypedLiteral.int_array = Sound-ok _ _ HasType.int_array
      typed_literal TypedLiteral.float = Sound-ok _ _ HasType.float
      typed_literal TypedLiteral.float_array = Sound-ok _ _ HasType.float_array
      typed_literal TypedLiteral.bool = Sound-ok _ _ HasType.bool
      typed_literal TypedLiteral.bool_array = Sound-ok _ _ HasType.bool_array

      typed_strings :
          {arr : StringLiterals}
          → TypedStrings Γ arr
          → Sound (λ _. Unit {0}) (resolve_string_literals floats checked vars arr)
      typed_strings TypedStrings.no_string = Sound-ok _ _ tt
      typed_strings (TypedStrings.a_string h k) =
          Sound-bind (λ _. Unit) _ _ _ (typed_parts h)
            λ _ _. Sound-bind (λ _. Unit) _ _ _ (typed_strings k) (λ _ _. Sound-ok _ _ tt)

      typed_parts :
          {s : StringLiteral}
          → TypedParts Γ s
          → Sound (λ _. Unit {0}) (resolve_string_literal floats checked vars s)
      typed_parts TypedParts.no_part = Sound-ok _ _ tt
      typed_parts (TypedParts.text h) =
          Sound-bind (λ _. Unit) _ _ _ (typed_parts h) (λ _ _. Sound-ok _ _ tt)
      typed_parts (TypedParts.unique h) =
          Sound-bind (λ _. Unit) _ _ _ (typed_parts h) (λ _ _. Sound-ok _ _ tt)
      typed_parts (TypedParts.interpolation h k) = rw (interpolation_lem _ _ h) (
          Sound-bind _ _ _ _ (typed_expr h)
            λ _ _. Sound-bind (λ _. Unit) _ _ _ (typed_parts k) (λ _ _. Sound-ok _ _ tt))

    -- Where each variable with a type has a value of that type, a typed expression evaluates to a
    -- value of its type, or panics in its arithmetic: there is no error.
    pub evaluate_expr-Typed :
        (e : Expr) (τ : VarType)
        → Typed Γ e τ
        → Sound (λ v. HasType v τ) (evaluate_expr floats checked vars e)
    evaluate_expr-Typed e τ h = typed_expr h
