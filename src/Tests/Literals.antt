-- ===== src/Tests/Literals.antt =====
-- Strings as literals.
use jibs.Prelude.{◌++◌, [], ◌∷◌, ◌≡◌, All, some, none, Bytes, codes, arith}
use jibs.Prelude.Decimal.{decimal}
use jibs.Protocol.Plan
use jibs.Client.ForeignKeys.{quote_list}
use jibs.Client.ForeignKeys.Names.{read_names, read_names-quote_list}
use jibs.Client.Sql.{value_to_sql}
use jibs.Client.Sql.Literal.{IsPlain, read_literal, value_to_sql-string, value_to_sql-backslash}

abbrev name : Bytes
name = codes "O'Hara"

name-IsPlain : All IsPlain name
name-IsPlain = ground arith

value_to_sql-string_example :
    read_literal (value_to_sql decimal (Plan.string name) ++ codes " WHERE 1")
    ≡ some (name, codes " WHERE 1")
value_to_sql-string_example =
    value_to_sql-string decimal name name-IsPlain (codes " WHERE 1") (λ e. ground arith)

value_to_sql-backslash_example :
    read_literal (value_to_sql decimal (Plan.string (name ++ 92 ∷ []))) ≡ none
value_to_sql-backslash_example = value_to_sql-backslash decimal name name-IsPlain

read_names-quote_list_example :
    read_names 2 (quote_list (codes "a`b" ∷ codes "id" ∷ []) ++ 41 ∷ codes " x")
    ≡ some (codes "a`b" ∷ codes "id" ∷ [], 41 ∷ codes " x")
read_names-quote_list_example = read_names-quote_list (codes "a`b") (codes "id" ∷ []) (codes " x")
