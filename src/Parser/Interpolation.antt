-- ===== src/Parser/Interpolation.antt =====
-- crates/parser/src/interpolation.rs: the text and the interpolations of a string's content.
--
-- `parse_expr_tokens` never meets a string with interpolations of its own, so its parser of those is
-- any function, here one that finds nothing.
pub mod Escaped
use jibs.Prelude.{
  ℕ, zero, suc, ◌+◌, ◌-◌, length, Bool, true, false, ◌&&◌, ◌||◌, not, List, [], ◌∷◌, ◌++◌, Option,
  none, some, if◌then◌else◌, codes, ◌==◌,
}
use jibs.Prelude.Result.{Result, ok, err}
use jibs.Parser.Ast.{Span, Spanned, StringLiteral, Expr}
use jibs.Parser.Chars.{
  Chars, size, len_utf8, with_front, is_whitespace, is_ascii_alphabetic, is_ident_char, span_while,
}
use jibs.Parser.Cursor.{Env, Failure, syntax, out_of_fuel}
use jibs.Parser.Lexer.{ParseError, new_span, is_nil, lex_with_options}
use jibs.Parser.Program.{parse_expr_tokens}
use jibs.Parser.Token.{Token}

-- The text up to the brace that closes an interpolation, at a depth of braces, and what is behind it.
unfoldable pub closing : ℕ → Chars → Option (Chars × Chars)
closing depth [] = none
closing depth (c ∷ s) =
    let inner = if c == b'{' then depth + 1 else if c == b'}' then depth - 1 else depth in
    let more = with_front c (closing inner s) in
    if c == b'}' && depth == 1 then some ([], s) else more

-- What the character behind a backslash stands for.
unfoldable pub unescape : ℕ → Chars
unescape c =
    if c == b'\\'
    then codes "\\"
    else if c == b'"'
    then codes "\""
    else if c == b'n'
    then codes "\n"
    else if c == b't'
    then 9 ∷ []
    else if c == b'{'
    then codes "{"
    else 92 ∷ c ∷ []

pub data StringPart : Type 0 where
  text : Chars → StringPart
  interpolation : Spanned Expr → StringPart

-- The state of `parse_interpolated_string`.
pub record Builder : Type 0 where
  pub text : Chars
  pub parts : List StringPart
  pub errors : List ParseError

abbrev pub no_builder : Builder
no_builder = record { text = []; parts = []; errors = [] }

abbrev pub push_text : Chars → Builder → Builder
push_text s b = record b { text = b.text ++ s }

abbrev pub flush : Builder → Builder
flush b = if is_nil b.text then b else record b { text = []; parts = b.parts ++ text b.text ∷ [] }

abbrev pub push_part : Result ParseError (Spanned Expr) → Builder → Builder
push_part (ok e) b = record b { parts = b.parts ++ interpolation e ∷ [] }
push_part (err e) b = record b { errors = b.errors ++ e ∷ [] }

abbrev pub to_literal : List StringPart → StringLiteral
to_literal [] = StringLiteral.no_part
to_literal (text s ∷ rest) = StringLiteral.text s (to_literal rest)
to_literal (interpolation (e, span) ∷ rest) = StringLiteral.interpolation e span (to_literal rest)

-- A string has a part, if only the empty text.
abbrev pub some_part : List StringPart → List StringPart
some_part [] = text [] ∷ []
some_part (part ∷ parts) = part ∷ parts

abbrev pub finished : Builder → Result (List ParseError) StringLiteral
finished b = elim b.errors [
  | [] ↦ ok (to_literal (some_part b.parts))
  | e ∷ errors ↦ err (e ∷ errors)
]

-- `str::trim`, at the end and at both ends.
unfoldable pub trim_end : Chars → Chars
trim_end [] = []
trim_end (c ∷ s) = let rest = trim_end s in if is_whitespace c && is_nil rest then [] else c ∷ rest

abbrev pub trim : Chars → Chars
trim s = trim_end (span_while is_whitespace s).1

abbrev pub is_bare_ident : Chars → Bool
is_bare_ident [] = false
is_bare_ident (c ∷ s) =
    (is_ascii_alphabetic c || c == b'_') && is_nil (span_while is_ident_char (c ∷ s)).1

pub bare_ident_hint : Chars → Chars
unfolding trim_end
bare_ident_hint input =
    let trimmed = trim input in
    if is_bare_ident trimmed then codes " (did you mean {$" ++ (trimmed ++ codes "}?)") else []

abbrev pub adjust : ℕ → Span → Span
adjust offset span = new_span (offset + span.start) (offset + span.end)

module _ (parse_f64 : Chars → ℕ) (format_f64 : ℕ → Chars) where
  abbrev pub plain_env : Env
  plain_env = record {
    format_f64 = format_f64;
    parse_string = λ s at. ok (StringLiteral.text s StringLiteral.no_part);
  }

  abbrev pub invalid : Chars → ℕ → ParseError → ParseError
  invalid hint offset e = record {
    span = adjust offset e.span;
    message = codes "invalid interpolation: " ++ (e.message ++ hint);
  }

  abbrev pub expr_result :
      Chars → ℕ → Result Failure (Spanned Expr) → Result ParseError (Spanned Expr)
  expr_result input offset (ok (e, span)) = ok (e, adjust offset span)
  expr_result input offset (err (syntax e)) = err (invalid (bare_ident_hint input) offset e)
  expr_result input offset (err out_of_fuel) =
      err (record { span = new_span offset offset; message = [] })

  abbrev pub after_lex :
      Chars → ℕ → List (Spanned Token) → List ParseError → Result ParseError (Spanned Expr)
  after_lex input offset tokens (e ∷ _) = err (invalid [] offset e)
  after_lex input offset [] [] = err (record {
    span = new_span offset (offset + size input);
    message = codes "empty interpolation (write \\{ for a literal brace)";
  })
  after_lex input offset (t ∷ tokens) [] =
      let eoi = new_span (size input) (size input) in
      expr_result input offset (parse_expr_tokens plain_env (t ∷ tokens) eoi).0

  -- The content of an interpolation, whose slashes divide.
  pub parse_interpolation_expr : Chars → ℕ → Result ParseError (Spanned Expr)
  unfolding bare_ident_hint
  parse_interpolation_expr input offset =
      let (tokens, errors) = lex_with_options parse_f64 input false in
      after_lex input offset tokens errors

  -- The loop, at a position of the source; a round takes a character at least.
  pub parts_on : ℕ → ℕ → ℕ → Chars → Builder → Builder
  unfolding parse_interpolation_expr closing unescape
  parts_on zero at end s b = b
  parts_on (suc fuel) at end [] b = b
  parts_on (suc fuel) at end (c ∷ s) b =
      if c == b'\\'
      then (elim s [
        | [] ↦ push_text (codes "\\") b
        | d ∷ rest ↦ parts_on fuel (at + 1 + len_utf8 d) end rest (push_text (unescape d) b)
      ])
      else if c == b'{'
      then (elim (closing 1 s) [
        | none ↦ record b {
          errors =
              b.errors
              ++ record {
                span = new_span at end;
                message =
                    codes "unclosed interpolation: missing '}' (write \\{ for a literal brace)";
              }
                ∷ [];
        }
        | some (content, rest) ↦
            parts_on fuel (at + 2 + size content) end rest
              (push_part (parse_interpolation_expr content (at + 1)) (flush b))
      ])
      else parts_on fuel (at + len_utf8 c) end s (push_text (c ∷ []) b)

  pub parse_interpolated_string : Chars → ℕ → Result (List ParseError) StringLiteral
  unfolding parts_on
  parse_interpolated_string input base_offset =
      finished (
        flush (parts_on (length input + 1) base_offset (base_offset + size input) input no_builder))

  -- The parser's environment, with the strings' parser.
  abbrev pub std_env : Env
  std_env = record { format_f64 = format_f64; parse_string = parse_interpolated_string }
