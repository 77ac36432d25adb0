-- ===== src/Parser/Cursor.antt =====
-- crates/parser/src/parser.rs: the parser's state, and the primitives on its cursor.
--
-- A parsing returns the state beside an error too, since the source keeps what it consumed. Every
-- `self.pos += 1` of the source stands behind a look at the token, where it is what `bump` does.
pub mod Runs
pub mod Takes
use jibs.Prelude.{
  ℕ, zero, suc, ◌+◌, ◌-◌, ◌==◌, Bool, true, false, not, ◌&&◌, List, [], ◌∷◌, ◌++◌, Option, none,
  some, if◌then◌else◌, codes, length, get_elem?, leb, ltb,
}
use jibs.Prelude.Result.{Result, ok, err}
use jibs.Parser.Ast.{Span, Spanned, StringLiteral}
use jibs.Parser.Chars.{Chars}
use jibs.Parser.Lexer.{ParseError, new_span}
use jibs.Parser.Token.{Token, display, token_eq}

pub record Parser : Type 0 where
  pub tokens : List (Spanned Token)
  pub pos : ℕ
  pub eoi : Span
  pub errors : List ParseError
  pub in_interpolation : Bool

-- `Parser::new`
abbrev pub new_parser : List (Spanned Token) → Span → Parser
new_parser tokens eoi = record {
  tokens = tokens;
  pos = 0;
  eoi = eoi;
  errors = [];
  in_interpolation = false;
}

-- The `Err` of the source, or a loop of the model without fuel.
pub data Failure : Type 0 where
  syntax : ParseError → Failure
  out_of_fuel : Failure

abbrev pub Parsing : Type 0 → Type 0
Parsing A = Parser → Result Failure A × Parser

abbrev pub then_on : {A B : Type 0} → Result Failure A → (A → Parsing B) → Parsing B
then_on (ok a) next p = next a p
then_on (err e) next p = (err e, p)

infixl 5 ◌>>=◌ ◌>>◌
abbrev pub ◌>>=◌ : {A B : Type 0} → Parsing A → (A → Parsing B) → Parsing B
◌>>=◌ m next p = then_on (m p).0 next (m p).1

abbrev pub ◌>>◌ : {A B : Type 0} → Parsing A → Parsing B → Parsing B
m >> next = m >>= λ _. next

abbrev pub return : {A : Type 0} → A → Parsing A
return a p = (ok a, p)

abbrev pub fail : {A : Type 0} → Failure → Parsing A
fail e p = (err e, p)

abbrev pub first_of : {A B : Type 0} → Option (A × B) → Option A
first_of none = none
first_of (some (a, _)) = some a

abbrev pub span_or : Span → Option (Spanned Token) → Span
span_or eoi none = eoi
span_or eoi (some (_, span)) = span

unfoldable pub at_end : Parser → Bool
at_end p = leb (length p.tokens) p.pos

unfoldable pub peek : Parsing (Option Token)
peek p = (ok (first_of (get_elem? p.tokens p.pos)), p)

unfoldable pub peek2 : Parsing (Option Token)
peek2 p = (ok (first_of (get_elem? p.tokens (p.pos + 1))), p)

abbrev pub span_at : Parser → Span
span_at p = span_or p.eoi (get_elem? p.tokens p.pos)

unfoldable pub cur_span : Parsing Span
cur_span p = (ok (span_at p), p)

-- `self.tokens[self.pos - 1]`, behind a consumed token.
abbrev pub end_behind : Parser → ℕ
end_behind p =
    if p.pos == 0 then (span_at p).start else (span_or p.eoi (get_elem? p.tokens (p.pos - 1))).end

unfoldable pub prev_end : Parsing ℕ
prev_end p = (ok (end_behind p), p)

-- From the start of a span to the end of what was consumed.
abbrev pub span_from : Span → Parsing Span
span_from start = do end ← prev_end; return (new_span start.start end)

unfoldable pub bump : Parsing (Unit {0})
bump p = (ok tt, if ltb p.pos (length p.tokens) then record p { pos = p.pos + 1 } else p)

abbrev pub is_token : Token → Option Token → Bool
is_token t none = false
is_token t (some u) = token_eq u t

-- `self.peek() == Some(&token)`
abbrev pub next_is : Token → Parsing Bool
next_is t = do next ← peek; return (is_token t next)

unfoldable pub eat : Token → Parsing Bool
eat t = do found ← next_is t; if found then (bump >> return true) else return false

-- The parameters: the text of a float, and the parser of a string's content at an offset.
pub record Env : Type 0 where
  pub format_f64 : ℕ → Chars
  pub parse_string : Chars → ℕ → Result (List ParseError) StringLiteral

module _ (env : Env) where
  abbrev found_text : Option Token → Chars
  found_text none = codes "end of input"
  found_text (some t) = codes "'" ++ (display env.format_f64 t ++ codes "'")

  -- `err_here`, with the text of `found`
  abbrev pub error_at : Chars → Parser → ParseError
  error_at expected p = record {
    span = span_at p;
    message =
        codes "found "
        ++ (found_text (first_of (get_elem? p.tokens p.pos)) ++ (codes ", expected " ++ expected));
  }

  -- `Err(self.err_here(..))`
  unfoldable pub err_here : {A : Type 0} → Chars → Parsing A
  err_here expected p = (err (syntax (error_at expected p)), p)

  unfoldable pub expect : Token → Chars → Parsing Span
  expect t expected = do
    found ← next_is t
    span ← cur_span
    if found then (bump >> return span) else err_here expected

  abbrev pub ident_of : Chars → Option Token → Span → Parsing (Spanned Chars)
  ident_of what (some (Token.ident s)) span = bump >> return (s, span)
  ident_of what _ span = err_here what

  unfoldable pub expect_ident : Chars → Parsing (Spanned Chars)
  expect_ident what = do next ← peek; span ← cur_span; ident_of what next span

  abbrev pub raw_of : Chars → Option Token → Span → Parsing (Spanned Chars)
  raw_of what (some (Token.string s)) span = bump >> return (s, span)
  raw_of what _ span = err_here what

  unfoldable pub string_raw : Chars → Parsing (Spanned Chars)
  string_raw what = do next ← peek; span ← cur_span; raw_of what next span

  abbrev pub record_errors : List ParseError → Parsing (Unit {0})
  record_errors errors p = (ok tt, record p { errors = p.errors ++ errors })

  abbrev pub literal_or_errors :
      Result (List ParseError) StringLiteral → Span → Parsing (Spanned StringLiteral)
  literal_or_errors (ok literal) span = return (literal, span)
  literal_or_errors (err errors) span = record_errors errors >> return (StringLiteral.no_part, span)

  abbrev pub literal_of : Chars → Option Token → Span → Parsing (Spanned StringLiteral)
  literal_of what (some (Token.string s)) span =
      bump >> literal_or_errors (env.parse_string s (span.start + 1)) span
  literal_of what _ span = err_here what

  -- The content stands one byte behind the quote.
  pub string_literal : Chars → Parsing (Spanned StringLiteral)
  string_literal what = do next ← peek; span ← cur_span; literal_of what next span

abbrev pub remaining : Parser → ℕ
remaining p = length p.tokens - p.pos

-- A loop: a round yields an element, or ends it.
pub repeat_on : {A : Type 0} → ℕ → Parsing (Option A) → Parsing (List A)
repeat_on zero round = fail out_of_fuel
repeat_on (suc fuel) round = round >>= λ o. elim o [
  | none ↦ return []
  | some a ↦ repeat_on fuel round >>= λ rest. return (a ∷ rest)
]

-- A round takes a token at least, so the number of tokens that are left is fuel enough.
pub repeat : {A : Type 0} → Parsing (Option A) → Parsing (List A)
unfolding repeat_on
repeat round p = repeat_on (remaining p + 1) round p

-- A round of a loop whose elements stand behind a test.
abbrev pub round_if : {A : Type 0} → Parsing Bool → Parsing A → Parsing (Option A)
round_if test one = do go ← test; if go then (one >>= λ a. return (some a)) else return none

-- `one, one, ...`, with no comma behind the last.
pub comma_list : {A : Type 0} → Parsing A → Parsing (List A)
unfolding repeat
comma_list one = do
  first ← one
  rest ← repeat (round_if (eat Token.comma) one)
  return (first ∷ rest)

-- A comma that no closing token follows.
pub another : Token → Parsing Bool
another close = do comma ← eat Token.comma; closes ← next_is close; return (comma && not closes)

-- `one, one, ...`, where a comma may stand behind the last.
pub elements : {A : Type 0} → Token → Parsing A → Parsing (List A)
unfolding repeat another
elements close one = do
  first ← one
  rest ← repeat (round_if (another close) one)
  return (first ∷ rest)
