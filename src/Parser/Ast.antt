-- ===== src/Parser/Ast.antt =====
-- crates/parser/src/ast.rs: the syntax tree of a config.
--
-- A `Spanned` value is the value with its span. The types that contain each other, the expressions and
-- the literals, are one mutual block: a list or a pair of them is a data type of the block there.
use jibs.Prelude.{ℕ, List, Option, Bool, Bytes}
use jibs.Prelude.Int.{ℤ}

-- The byte offsets of a token or a node.
pub record Span : Type 0 where
  pub start : ℕ
  pub end : ℕ

abbrev pub Spanned : Type 0 → Type 0
Spanned T = T × Span

pub data VarType : Type 0 where
  string string_array int int_array float float_array bool bool_array : VarType

pub data BinaryOp : Type 0 where
  add sub mul div mod_of eq not_eq lt gt lt_eq gt_eq and_also or_else : BinaryOp

pub data UnaryOp : Type 0 where
  not_of neg : UnaryOp

mutual
  -- A string literal: its parts.
  pub data StringLiteral : Type 0 where
    no_part : StringLiteral
    text : Bytes → StringLiteral → StringLiteral
    interpolation : Expr → Span → StringLiteral → StringLiteral

  -- `Vec<Spanned<StringLiteral>>`
  pub data StringLiterals : Type 0 where
    no_string : StringLiterals
    a_string : StringLiteral → Span → StringLiterals → StringLiterals

  pub data Literal : Type 0 where
    string : StringLiteral → Literal
    string_array : StringLiterals → Literal
    int : ℤ → Literal
    int_array : List ℤ → Literal
    float : ℕ → Literal
    float_array : List ℕ → Literal
    bool : Bool → Literal
    bool_array : List Bool → Literal
    null : Literal

  pub data Expr : Type 0 where
    literal : Literal → Expr
    variable : Bytes → Expr
    binary : Expr → Span → BinaryOp → Expr → Span → Expr
    unary : UnaryOp → Expr → Span → Expr
    unique : Expr

pub record VarDecl : Type 0 where
  pub name : Spanned Bytes
  pub var_type : Spanned VarType
  pub default : Option (Spanned Literal)

pub data FakerValue : Type 0 where
  literal : StringLiteral → FakerValue
  spread : Bytes → FakerValue

pub data FakerSource : Type 0 where
  array : List (Spanned FakerValue) → FakerSource
  variable : Bytes → FakerSource

pub record FakerDecl : Type 0 where
  pub name : Spanned Bytes
  pub source : FakerSource

pub record ColumnRef : Type 0 where
  pub table : Bytes
  pub column : Bytes

pub record RelationDecl : Type 0 where
  pub source : Spanned ColumnRef
  pub target : Spanned ColumnRef

pub data AnonymizeTarget : Type 0 where
  faker : Spanned Bytes → AnonymizeTarget
  to_null : AnonymizeTarget

pub record AnonymizeRule : Type 0 where
  pub column : Spanned Bytes
  pub target : AnonymizeTarget

pub record AnonymizeBlock : Type 0 where
  pub table : Spanned Bytes
  pub rules : List (Spanned AnonymizeRule)

pub data SortDirection : Type 0 where
  asc desc : SortDirection

pub record OrderByClause : Type 0 where
  pub column : Spanned Bytes
  pub direction : Option SortDirection

pub data LimitValue : Type 0 where
  literal : ℤ → LimitValue
  variable : Bytes → LimitValue

pub data TablePattern : Type 0 where
  exact regex : Spanned Bytes → TablePattern

pub record AggregateBlock : Type 0 where
  pub name : Spanned Bytes
  pub root : Spanned Bytes
  pub where_clause : Option (Spanned StringLiteral)
  pub order_by : Option OrderByClause
  pub limit : Option (Spanned LimitValue)
  pub exclude_tables : List TablePattern
  pub root_only : Bool

pub record GetFunctionDef : Type 0 where
  pub name : Spanned Bytes
  pub params : List (Spanned VarDecl)
  pub aggregate : Spanned Bytes
  pub where_clause : Option (Spanned StringLiteral)
  pub order_by : Option OrderByClause
  pub limit : Option (Spanned LimitValue)
  pub exclude_tables : List TablePattern
  pub root_only : Bool

pub record PreserveStmt : Type 0 where
  pub table : Spanned Bytes
  pub where_clause : Spanned StringLiteral

pub data Value : Type 0 where
  literal : Literal → Value
  variable : Bytes → Value
  expr : Expr → Value

pub record Assignment : Type 0 where
  pub column : Spanned Bytes
  pub value : Spanned Value

pub record SetBlock : Type 0 where
  pub table : Spanned Bytes
  pub match_clause : List (Spanned Assignment)
  pub assignments : List (Spanned Assignment)

pub record AfterBlock : Type 0 where
  pub statements : List (Spanned Bytes)

pub data StatementKind : Type 0 where
  imported : Spanned Bytes → StatementKind
  var : VarDecl → StatementKind
  faker : FakerDecl → StatementKind
  relation ignore_relation : RelationDecl → StatementKind
  anonymize : AnonymizeBlock → StatementKind
  exclude ignore : TablePattern → StatementKind
  full : List TablePattern → StatementKind
  aggregate : AggregateBlock → StatementKind
  get : GetFunctionDef → StatementKind
  preserve : PreserveStmt → StatementKind
  set : SetBlock → StatementKind
  after : AfterBlock → StatementKind

pub record Statement : Type 0 where
  pub attribute : Option (Spanned Expr)
  pub kind : StatementKind

pub record Program : Type 0 where
  pub statements : List (Spanned Statement)
