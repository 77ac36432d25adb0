-- ===== src/Parser/Lexer.antt =====
-- crates/parser/src/lexer.rs: the hand-written scanner.
--
-- `rest` is `&self.source[self.pos..]`, which the source computes; each function takes the front of
-- it and moves the position by the bytes of that front. Parsing the text of a float is the standard
-- library's, a parameter. The two loops, over the trivia and over the tokens, are on fuel: a round
-- takes a character at least, so the length of the text is enough.
pub mod Scan
pub mod Laid
pub mod Trivia
pub mod Fronts
pub mod Advances
pub mod Quoted
pub mod Words
pub mod Handlers
pub mod Total
pub mod Spans
pub mod Order
pub mod Printed
use jibs.Prelude.{
  ℕ, zero, suc, ◌+◌, ◌-◌, ◌<◌, Bool, true, false, not, ◌&&◌, ◌||◌, List, [], ◌∷◌, ◌++◌, Option,
  none, some, if◌then◌else◌, codes, ◌==◌, bytes_eq, length,
}
use jibs.Prelude.Int.{ℤ, pos, max_i64}
use jibs.Prelude.Parse.{parse_i64}
use jibs.Prelude.Replace.{starts_with}
use jibs.Parser.Ast.{Span, Spanned}
use jibs.Parser.Chars.{
  Chars, size, len_utf8, is_whitespace, is_digit, is_ascii_alphabetic, is_ident_char, span_while,
  find_split, behind,
}
use jibs.Parser.Lexer.Scan.{close_string, regex_body, lookup_word, lookup_operator, lookup_mark}
use jibs.Parser.Token.{Token, words, operators, marks}

pub record ParseError : Type 0 where
  pub span : Span
  pub message : Chars

pub record Lexer : Type 0 where
  pub pos : ℕ
  pub rest : Chars
  pub tokens : List (Spanned Token)
  pub errors : List ParseError

abbrev pub new_span : ℕ → ℕ → Span
new_span from to = record { start = from; end = to }

-- Past `front`, which was read, to `back`.
abbrev pub moved : Chars → Chars → Lexer → Lexer
moved front back l = record l { pos = l.pos + size front; rest = back }

-- `Lexer::push`
abbrev pub push : Token → ℕ → Lexer → Lexer
push token from l = record l { tokens = l.tokens ++ (token, new_span from l.pos) ∷ [] }

-- `Lexer::error`, for the text from `from` to the position.
abbrev pub error : ℕ → Chars → Lexer → Lexer
error from message l = record l {
  errors = l.errors ++ record { span = new_span from l.pos; message = message } ∷ [];
}

abbrev pub is_nil : Chars → Bool
is_nil [] = true
is_nil (_ ∷ _) = false

-- The rest of a line comment, its line feed too.
pub skip_comment : Lexer → Lexer
skip_comment l = elim (find_split (codes "\n") l.rest) [
  | some (line, back) ↦ moved (line ++ codes "\n") back l
  | none ↦ moved l.rest [] l
]

abbrev pub skip_whitespace : Lexer → Lexer
skip_whitespace l = moved (span_while is_whitespace l.rest).0 (span_while is_whitespace l.rest).1 l

-- One round of `skip_trivia`, and whether it progressed.
unfoldable pub trivia_round : Lexer → Lexer × Bool
unfolding skip_comment
trivia_round l =
    let after = skip_whitespace l in
    if starts_with (codes "//") after.rest
    then (skip_comment after, true)
    else (after, not (is_nil (span_while is_whitespace l.rest).0))

pub skip_trivia : ℕ → Lexer → Lexer
skip_trivia zero l = l
skip_trivia (suc fuel) l =
    let (after, progressed) = trivia_round l in
    let again = skip_trivia fuel after in if progressed then again else after

abbrev pub quotes : Chars
quotes = codes "\"\"\""

-- `"""raw content"""`
pub multiline_string : Lexer → Lexer
multiline_string l = elim (find_split quotes (behind quotes l.rest)) [
  | some (body, back) ↦
      push (Token.multiline_string body) l.pos (moved (quotes ++ (body ++ quotes)) back l)
  | none ↦
      error l.pos (codes "unterminated multiline string: missing closing \"\"\"")
        (moved l.rest [] l)
]

-- `"content"`, behind its quote.
pub string : Lexer → Chars → Lexer
string l inner =
    let (content, closed) = close_string inner in
    elim closed [
      | some back ↦
          push (Token.string content) l.pos (moved (b'"' ∷ (content ++ codes "\"")) back l)
      | none ↦
          error l.pos (codes "unterminated string: missing closing '\"'")
            (moved (b'"' ∷ content) [] l)
    ]

module _ (parse_f64 : Chars → ℕ) where
  -- An integer, and an error where no i64 holds it.
  pub integer : Lexer → Chars → Chars → Lexer
  integer l text back = elim (parse_i64 text) [
    | some n ↦ push (Token.int n) l.pos (moved text back l)
    | none ↦ push (Token.int (pos max_i64)) l.pos (
        error l.pos
          (codes "integer literal '" ++ (text ++ codes "' is out of range for a 64-bit integer"))
          (moved text back l))
  ]

  -- Behind the dot of a number, where a digit follows.
  pub float : Lexer → Chars → Chars → Lexer
  float l whole decimals =
      let (fraction, back) = span_while is_digit decimals in
      let text = whole ++ (b'.' ∷ fraction) in
      push (Token.float (parse_f64 text)) l.pos (moved text back l)

  pub number_behind : Lexer → Chars → Chars → Lexer
  unfolding integer float
  number_behind l whole (c ∷ d ∷ back) =
      if c == b'.' && is_digit d then float l whole (d ∷ back) else integer l whole (c ∷ d ∷ back)
  number_behind l whole back = integer l whole back

  pub number : Lexer → Lexer
  unfolding number_behind
  number l = number_behind l (span_while is_digit l.rest).0 (span_while is_digit l.rest).1

  -- A name between backticks, behind the first.
  pub backtick_ident : Lexer → Chars → Lexer
  backtick_ident l inner = elim (find_split (codes "`") inner) [
    | some ([], back) ↦ error l.pos (codes "empty backtick identifier") (moved (codes "``") back l)
    | some (c ∷ name, back) ↦
        push (Token.ident (c ∷ name)) l.pos (moved (b'`' ∷ (c ∷ name ++ codes "`")) back l)
    | none ↦
        error l.pos (codes "unterminated backtick identifier: missing closing '`'")
          (moved (b'`' ∷ inner) [] l)
  ]

  -- `/pattern/`, or the division operator, behind the slash.
  pub slash_or_regex : Bool → Lexer → Chars → Lexer
  slash_or_regex false l inner = push Token.slash l.pos (moved (codes "/") inner l)
  slash_or_regex true l inner = elim (regex_body inner) [
    | some (c ∷ body, back) ↦
        push (Token.regex (c ∷ body)) l.pos (moved (b'/' ∷ (c ∷ body ++ codes "/")) back l)
    | _ ↦ push Token.slash l.pos (moved (codes "/") inner l)
  ]

  pub ident_or_keyword : Lexer → Lexer
  ident_or_keyword l =
      let (text, back) = span_while is_ident_char l.rest in
      push (lookup_word text words) l.pos (moved text back l)

  pub punctuation : Lexer → ℕ → Chars → Lexer
  punctuation l c back = elim (lookup_mark c marks) [
    | some token ↦ push token l.pos (moved (c ∷ []) back l)
    | none ↦ error l.pos (codes "unexpected character '" ++ (c ∷ codes "'")) (moved (c ∷ []) back l)
  ]

  pub operator_or_punct : Lexer → ℕ → Chars → Lexer
  unfolding punctuation
  operator_or_punct l c back = elim (lookup_operator operators l.rest) [
    | some (text, token) ↦ push token l.pos (moved text (behind text l.rest) l)
    | none ↦ punctuation l c back
  ]

  -- The `match` on the first character.
  pub token : Bool → Lexer → ℕ → Chars → Lexer
  unfolding multiline_string string number backtick_ident slash_or_regex ident_or_keyword
      operator_or_punct
  token regex_literals l c back =
      if starts_with quotes (c ∷ back)
      then multiline_string l
      else if c == b'"'
      then string l back
      else if is_digit c
      then number l
      else if c == b'`'
      then backtick_ident l back
      else if c == b'/'
      then slash_or_regex regex_literals l back
      else if is_ascii_alphabetic c || c == b'_'
      then ident_or_keyword l
      else operator_or_punct l c back

  -- `Lexer::run`
  pub run : Bool → ℕ → Lexer → Lexer
  unfolding skip_trivia token
  run regex_literals zero l = l
  run regex_literals (suc fuel) l =
      let after = skip_trivia (length l.rest + 1) l in
      elim after.rest [
        | [] ↦ after
        | c ∷ back ↦ run regex_literals fuel (token regex_literals after c back)
      ]

  abbrev pub begin : Chars → Lexer
  begin source = record { pos = 0; rest = source; tokens = []; errors = [] }

  unfoldable pub lex_with_options : Chars → Bool → List (Spanned Token) × List ParseError
  unfolding run
  lex_with_options source regex_literals =
      let l = run regex_literals (length source + 1) (begin source) in (l.tokens, l.errors)

  unfoldable pub lex : Chars → List (Spanned Token) × List ParseError
  unfolding lex_with_options
  lex source = lex_with_options source true
