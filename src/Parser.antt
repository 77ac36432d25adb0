-- ===== src/Parser.antt =====
-- crates/parser: the config language.
pub mod Ast
pub mod Chars
pub mod Token
pub mod Lexer
pub mod Cursor
pub mod Expr
pub mod Literal
pub mod Query
pub mod Statement
pub mod Program
pub mod Interpolation
