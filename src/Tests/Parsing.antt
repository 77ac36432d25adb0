-- ===== src/Tests/Parsing.antt =====
-- The config language.
use jibs.Prelude.{
  ℕ, ◌<◌, ◌≤◌, ◌⊎◌, none, false, [], ◌∷◌, ◌++◌, ◌≡◌, ◌≢◌, refl, List, true, inl, some, codes, arith,
  length, In, get_elem?,
}
use jibs.Prelude.Result.{Result, ok, err}
use jibs.Parser.Ast.{Spanned, Statement, StatementKind, TablePattern, StringLiteral}
use jibs.Prelude.Replace.{starts_with}
use jibs.Parser.Chars.{Chars, span_while, is_whitespace, is_ident_char, is_digit, size, len_utf8}
use jibs.Parser.Lexer.Scan.{lookup_operator, lookup_mark, lookup_word, close_string}
use jibs.Parser.Cursor.{
  Env, Parser, new_parser, out_of_fuel, first_of, peek, bump, cur_span, expect_ident,
}
use jibs.Parser.Cursor.Runs.{Follows}
use jibs.Parser.Interpolation.{std_env, parse_interpolated_string}
use jibs.Parser.Lexer.{Lexer, ParseError, new_span, lex_with_options, trivia_round}
use jibs.Parser.Program.{starts_statement, program, synchronize}
use jibs.Parser.Token.{Token, token_eq, display}
use jibs.Parser.Expr.{expr}
use jibs.Parser.Expr.Nested.{expr-nested}
use jibs.Parser.Query.{table_pattern}
use jibs.Parser.Statement.{statement}
use jibs.Parser.Lexer.Laid.{IsLexeme, Laid}
use jibs.Parser.Lexer.Order.{IsOrdered, end_of, lex_with_options-IsOrdered}
use jibs.Parser.Lexer.Total.{lex_with_options-Laid}
use jibs.Parser.Lexer.Spans.{IsRead, Stands, lex_with_options-tokens}
use jibs.Parser.Lexer.Printed.{Plain, display-IsLexeme}
use jibs.Parser.Program.Recovery.{synchronize-statement}
use jibs.Parser.Program.Ends.{
  Starts, statement_ends, statement_takes, synchronize_lem, program_ends,
}
use jibs.Parser.Interpolation.Escaped.{escaped, string-escaped}

abbrev no_float : Chars → ℕ
no_float _ = 0

abbrev no_digits : ℕ → Chars
no_digits _ = []

abbrev tokens : List (Spanned Token)
tokens =
    (Token.ignore_table, new_span 0 12)
    ∷ (Token.ident (codes "logs"), new_span 13 17)
    ∷ (Token.import, new_span 18 24)
    ∷ []

abbrev text : Chars
text = codes "~ by"

lexed : lex_with_options no_float text true ≡ (
  (Token.by, new_span 2 4) ∷ [],
  record { span = new_span 0 1; message = codes "unexpected character '~'" } ∷ [],
)
unfolding lex_with_options trivia_round span_while is_whitespace is_ident_char size len_utf8
    starts_with lookup_operator lookup_mark lookup_word
lexed = refl

by_there : In (Token.by, new_span 2 4) (lex_with_options no_float text true).0
by_there = rw lexed (inl refl)

lex_with_options-Laid_example :
    (l : Lexer) × Laid no_float text l
    × (l.rest ≡ [])
    × (lex_with_options no_float text true ≡ (l.tokens, l.errors))
lex_with_options-Laid_example = lex_with_options-Laid no_float text true

lex_with_options-tokens_example :
    (s : Chars) × IsRead no_float Token.by s × (0 < length s) × Stands text s (new_span 2 4)
lex_with_options-tokens_example =
    lex_with_options-tokens no_float text true Token.by (new_span 2 4) by_there

arrow-Plain : Plain (codes "->")
unfolding is_digit
arrow-Plain = ground arith

display-IsLexeme_example : display no_digits Token.arrow ≡ codes "->"
display-IsLexeme_example =
    display-IsLexeme no_digits no_float Token.arrow (codes "->") (IsLexeme.operator (inl refl))
      arrow-Plain

abbrev env : Env
env = std_env no_float no_digits

abbrev parser : Parser
parser = new_parser tokens (new_span 24 24)

abbrev ignored : Statement
ignored = record {
  attribute = none;
  kind = StatementKind.ignore (TablePattern.exact (codes "logs", new_span 13 17));
}

parsed_statement : (statement env parser).0 ≡ ok ignored
unfolding statement table_pattern expect_ident peek bump cur_span token_eq
parsed_statement = refl

statement_ends_example :
    ((statement env parser).0 ≢ err out_of_fuel)
    × ((statement env parser).1.tokens ≡ tokens)
    × (0 ≤ (statement env parser).1.pos)
    × ((statement env parser).1.pos ≤ length (statement env parser).1.tokens)
statement_ends_example = statement_ends env parser (omega arith)

statement_takes_example : 0 < (statement env parser).1.pos
statement_takes_example = statement_takes env parser ignored (omega arith) parsed_statement

synchronize_lem_example :
    Follows parser (synchronize parser)
    × (((synchronize parser).pos ≡ 3)
        ⊎ Starts (first_of (get_elem? tokens (synchronize parser).pos)))
    × ((0 < (synchronize parser).pos) ⊎ (parser.pos ≡ length tokens))
    × ((i : ℕ)
        → 0 < i
        → i < (synchronize parser).pos
        → (t : Token) → first_of (get_elem? tokens i) ≡ some t
        → starts_statement t ≡ false)
synchronize_lem_example = synchronize_lem parser (omega arith)

-- The token behind the one in front starts no statement.
behind_front : 1 < (synchronize parser).pos
unfolding synchronize bump
behind_front = omega arith

synchronize-statement_example : (statement env (record parser { pos = 1 })).0 ≢ ok ignored
synchronize-statement_example =
    synchronize-statement env parser (omega arith) 1 ignored (omega arith) behind_front

program_ends_example : ((program env parser).1.tokens ≡ tokens) × ((program env parser).1.pos ≡ 3)
program_ends_example = program_ends env tokens (new_span 24 24)

string-escaped_example :
    (close_string (escaped (codes "{a}\"") ++ 34 ∷ codes " x")
      ≡ (escaped (codes "{a}\""), some (codes " x")))
    × (parse_interpolated_string no_float no_digits (escaped (codes "{a}\"")) 1
        ≡ ok (StringLiteral.text (codes "{a}\"") StringLiteral.no_part))
string-escaped_example = string-escaped no_float no_digits (codes "{a}\"") (codes " x") 1

abbrev inside : Parser
inside = record parser { in_interpolation = true }

abbrev nothing : Chars → ℕ → Result (List ParseError) StringLiteral
nothing _ _ = ok StringLiteral.no_part

expr-nested_example :
    (expr env inside ≡ expr (record { format_f64 = no_digits; parse_string = nothing }) inside)
    × ((expr env inside).1.in_interpolation ≡ true)
expr-nested_example =
    expr-nested no_digits (parse_interpolated_string no_float no_digits) nothing inside refl

lex_with_options-IsOrdered_example :
    IsOrdered 0 (lex_with_options no_float text true).0
    × (end_of 0 (lex_with_options no_float text true).0 ≤ size text)
lex_with_options-IsOrdered_example = lex_with_options-IsOrdered no_float text true
