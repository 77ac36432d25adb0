-- ===== src/Client/Eval/Types.antt =====
-- Types of expressions, for values, expressions and strings with interpolations.
use jibs.Prelude.{ℕ, List, some, ◌≡◌, Bool, Bytes}
use jibs.Prelude.Dict.{Dict, lookup}
use jibs.Prelude.Int.{ℤ}
use jibs.Parser.Ast.{
  Span, StringLiteral, StringLiterals, Literal, Expr, VarType, BinaryOp, not_of, neg,
}
use jibs.Protocol.Plan
use jibs.Protocol.Plan.{Value}

-- The value is of the type. A null is of none.
pub data HasType : Value → VarType → Type 0 where
  string : {s : Bytes} → HasType (Plan.string s) VarType.string
  string_array : {arr : List Bytes} → HasType (Plan.string_array arr) VarType.string_array
  int : {i : ℤ} → HasType (Plan.int i) VarType.int
  int_array : {arr : List ℤ} → HasType (Plan.int_array arr) VarType.int_array
  float : {f : ℕ} → HasType (Plan.float f) VarType.float
  float_array : {arr : List ℕ} → HasType (Plan.float_array arr) VarType.float_array
  bool : {b : Bool} → HasType (Plan.bool b) VarType.bool
  bool_array : {arr : List Bool} → HasType (Plan.bool_array arr) VarType.bool_array

pub data IsNumber : VarType → Type 0 where
  int : IsNumber VarType.int
  float : IsNumber VarType.float

pub data IsArithmetic : BinaryOp → Type 0 where
  add : IsArithmetic BinaryOp.add
  sub : IsArithmetic BinaryOp.sub
  mul : IsArithmetic BinaryOp.mul
  div : IsArithmetic BinaryOp.div
  mod_of : IsArithmetic BinaryOp.mod_of

pub data IsComparison : BinaryOp → Type 0 where
  lt : IsComparison BinaryOp.lt
  gt : IsComparison BinaryOp.gt
  lt_eq : IsComparison BinaryOp.lt_eq
  gt_eq : IsComparison BinaryOp.gt_eq

pub data IsEquality : BinaryOp → Type 0 where
  eq : IsEquality BinaryOp.eq
  not_eq : IsEquality BinaryOp.not_eq

pub data IsLogical : BinaryOp → Type 0 where
  and_also : IsLogical BinaryOp.and_also
  or_else : IsLogical BinaryOp.or_else

-- The type of an arithmetic result: an integer of two integers, else a float.
abbrev pub sum_type : VarType → VarType → VarType
sum_type VarType.int VarType.int = VarType.int
sum_type _ _ = VarType.float

mutual
  -- The expression has the type, where `Γ` gives the types of the variables.
  pub data Typed (Γ : Dict VarType) : Expr → VarType → Type 0 where
    literal : {lit : Literal} {τ : VarType} → TypedLiteral Γ lit τ → Typed Γ (Expr.literal lit) τ
    variable :
        {name : Bytes} {τ : VarType} → lookup name Γ ≡ some τ → Typed Γ (Expr.variable name) τ
    equality :
        {l r : Expr} {at_l at_r : Span} {op : BinaryOp} {σ τ : VarType}
        → IsEquality op
        → Typed Γ l σ
        → Typed Γ r τ
        → Typed Γ (Expr.binary l at_l op r at_r) VarType.bool
    comparison :
        {l r : Expr} {at_l at_r : Span} {op : BinaryOp} {σ τ : VarType}
        → IsComparison op
        → IsNumber σ
        → IsNumber τ
        → Typed Γ l σ
        → Typed Γ r τ
        → Typed Γ (Expr.binary l at_l op r at_r) VarType.bool
    logical :
        {l r : Expr} {at_l at_r : Span} {op : BinaryOp}
        → IsLogical op
        → Typed Γ l VarType.bool
        → Typed Γ r VarType.bool
        → Typed Γ (Expr.binary l at_l op r at_r) VarType.bool
    arithmetic :
        {l r : Expr} {at_l at_r : Span} {op : BinaryOp} {σ τ ρ : VarType}
        → IsArithmetic op
        → IsNumber σ
        → IsNumber τ
        → Typed Γ l σ
        → Typed Γ r τ
        → ρ ≡ sum_type σ τ
        → Typed Γ (Expr.binary l at_l op r at_r) ρ
    negation :
        {e : Expr} {at_e : Span}
        → Typed Γ e VarType.bool
        → Typed Γ (Expr.unary not_of e at_e) VarType.bool
    minus :
        {e : Expr} {at_e : Span} {τ : VarType}
        → IsNumber τ
        → Typed Γ e τ
        → Typed Γ (Expr.unary neg e at_e) τ

  pub data TypedLiteral (Γ : Dict VarType) : Literal → VarType → Type 0 where
    string : {s : StringLiteral} → TypedParts Γ s → TypedLiteral Γ (Literal.string s) VarType.string
    string_array :
        {arr : StringLiterals}
        → TypedStrings Γ arr
        → TypedLiteral Γ (Literal.string_array arr) VarType.string_array
    int : {i : ℤ} → TypedLiteral Γ (Literal.int i) VarType.int
    int_array : {arr : List ℤ} → TypedLiteral Γ (Literal.int_array arr) VarType.int_array
    float : {f : ℕ} → TypedLiteral Γ (Literal.float f) VarType.float
    float_array : {arr : List ℕ} → TypedLiteral Γ (Literal.float_array arr) VarType.float_array
    bool : {b : Bool} → TypedLiteral Γ (Literal.bool b) VarType.bool
    bool_array : {arr : List Bool} → TypedLiteral Γ (Literal.bool_array arr) VarType.bool_array

  pub data TypedStrings (Γ : Dict VarType) : StringLiterals → Type 0 where
    no_string : TypedStrings Γ StringLiterals.no_string
    a_string :
        {s : StringLiteral} {at_s : Span} {rest : StringLiterals}
        → TypedParts Γ s
        → TypedStrings Γ rest
        → TypedStrings Γ (StringLiterals.a_string s at_s rest)

  -- The interpolations of a string may be of any type; `unique()` is one of them.
  pub data TypedParts (Γ : Dict VarType) : StringLiteral → Type 0 where
    no_part : TypedParts Γ StringLiteral.no_part
    text :
        {s : Bytes} {rest : StringLiteral}
        → TypedParts Γ rest
        → TypedParts Γ (StringLiteral.text s rest)
    interpolation :
        {e : Expr} {at_e : Span} {rest : StringLiteral} {τ : VarType}
        → Typed Γ e τ
        → TypedParts Γ rest
        → TypedParts Γ (StringLiteral.interpolation e at_e rest)
    unique :
        {at_e : Span} {rest : StringLiteral}
        → TypedParts Γ rest
        → TypedParts Γ (StringLiteral.interpolation Expr.unique at_e rest)

-- Each variable with a type has a value of that type.
abbrev pub Agrees : Dict Value → Dict VarType → Type 0
Agrees vars Γ =
    (name : Bytes) (τ : VarType)
    → lookup name Γ ≡ some τ
    → (v : Value) × (lookup name vars ≡ some v) × HasType v τ
