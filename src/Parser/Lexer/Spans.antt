-- ===== src/Parser/Lexer/Spans.antt =====
-- What the scanner yields stands in the text, at its span.
use jibs.Prelude.{
  ℕ, none, ◌+◌, ◌<◌, ◌≤◌, Bool, [], ◌∷◌, ◌++◌, ◌≡◌, refl, ap, sym, ◌∙◌, inl, inr, arith, length, In,
  In-concat, append_assoc,
}
use jibs.Prelude.Int.{pos, max_i64}
use jibs.Prelude.Parse.{parse_i64}
use jibs.Parser.Ast.{Span}
use jibs.Parser.Chars.{Chars, size, size-append, len_utf8_pos}
use jibs.Parser.Lexer.Laid.{AllDigits, IsLexeme, Laid, start, trivia, lexeme, fault, overflow}
use jibs.Parser.Lexer.Total.{lex_with_options-Laid}
use jibs.Parser.Lexer.{ParseError, Lexer, new_span, moved, lex_with_options}
use jibs.Parser.Token.{Token}

pub size_pos : (s : Chars) → 0 < length s → 0 < size s
unfolding size
size_pos [] h = h
size_pos (c ∷ s) h = omega (arith, len_utf8_pos c)

-- A stretch of a text, at a span of it.
abbrev pub Stands : Chars → Chars → Span → Type 0
Stands source text span =
    (before : Chars) × (after : Chars) × (source ≡ before ++ (text ++ after))
    × (span ≡ new_span (size before) (size before + size text))

-- What a token was read from: a text of it, or digits that no i64 holds.
pub data IsRead (parse_f64 : Chars → ℕ) : Token → Chars → Type 0 where
  spelled : {t : Token} {text : Chars} → IsLexeme parse_f64 t text → IsRead parse_f64 t text
  too_wide :
      {text : Chars}
      → AllDigits text
      → parse_i64 text ≡ none
      → IsRead parse_f64 (Token.int (pos max_i64)) text

bounded :
    {source : Chars} (before text after : Chars) (span : Span)
    → 0 < length text
    → source ≡ before ++ (text ++ after)
    → span ≡ new_span (size before) (size before + size text)
    → (span.start < span.end) × (span.end ≤ size source)
bounded before text after span some_text split at =
    rw (at, split)
      (omega (
        arith,
        size_pos text some_text,
        size-append before (text ++ after),
        size-append text after,
      ))

module _ (parse_f64 : Chars → ℕ) (source : Chars) where
  abbrev Before : Lexer → Type 0
  Before l = (before : Chars) × (source ≡ before ++ l.rest) × (size before ≡ l.pos)

  onwards :
      (l : Lexer) (front back : Chars)
      → Before l
      → l.rest ≡ front ++ back
      → Before (moved front back l)
  onwards l front back (before, split, here) e = (
    before ++ front,
    split ∙ ap (λ t. before ++ t) e ∙ sym (append_assoc before front back),
    size-append before front ∙ ap (λ n. n + size front) here,
  )

  pub Laid-Before : (l : Lexer) → Laid parse_f64 source l → Before l
  unfolding size
  Laid-Before _ start = ([], refl, refl)
  Laid-Before _ (trivia l front back laid e is) = onwards l front back (Laid-Before l laid) e
  Laid-Before _ (lexeme l text back t laid e some_text is) =
      onwards l text back (Laid-Before l laid) e
  Laid-Before _ (fault l front back message laid e some_text) =
      onwards l front back (Laid-Before l laid) e
  Laid-Before _ (overflow l text back message laid e some_text all wide) =
      onwards l text back (Laid-Before l laid) e

  here_Stands :
      (l : Lexer) (front back : Chars)
      → Laid parse_f64 source l
      → l.rest ≡ front ++ back
      → Stands source front (new_span l.pos (l.pos + size front))
  here_Stands l front back laid e =
      let (before, split, here) = Laid-Before l laid in
      (before, back, split ∙ ap (λ t. before ++ t) e, rw here refl)

  abbrev Placed : Token → Span → Type 0
  Placed t span =
      (text : Chars) × IsRead parse_f64 t text × (0 < length text) × Stands source text span

  tokens_Stand :
      (l : Lexer) (t : Token) (span : Span)
      → Laid parse_f64 source l
      → In (t, span) l.tokens
      → Placed t span
  tokens_Stand _ t span start h = absurd h
  tokens_Stand _ t span (trivia l front back laid e is) h = tokens_Stand l t span laid h
  tokens_Stand _ t span (fault l front back message laid e some_text) h =
      tokens_Stand l t span laid h
  tokens_Stand _ t span (lexeme l text back u laid e some_text is) h =
      elim ((In-concat (t, span) (u, new_span l.pos (l.pos + size text)) l.tokens).0 h) [
        | inl older ↦ tokens_Stand l t span laid older
        | inr newest ↦
            rw (ap (λ p. p.0) newest, ap (λ p. p.1) newest)
              (text, spelled is, some_text, here_Stands l text back laid e)
      ]
  tokens_Stand _ t span (overflow l text back message laid e some_text all wide) h =
      elim ((In-concat (t, span) (Token.int (pos max_i64), new_span l.pos (l.pos + size text))
          l.tokens).0
        h) [
          | inl older ↦ tokens_Stand l t span laid older
          | inr newest ↦
              rw (ap (λ p. p.0) newest, ap (λ p. p.1) newest)
                (text, too_wide all wide, some_text, here_Stands l text back laid e)
        ]

  abbrev fault_of : Lexer → Chars → Chars → ParseError
  fault_of l front message = record {
    span = new_span l.pos (l.pos + size front);
    message = message;
  }

  -- A stretch of one character or more.
  abbrev Reported : ParseError → Type 0
  Reported e = (text : Chars) × (0 < length text) × Stands source text e.span

  errors_Stand : (l : Lexer) (x : ParseError) → Laid parse_f64 source l → In x l.errors → Reported x
  errors_Stand _ x start h = absurd h
  errors_Stand _ x (trivia l front back laid e is) h = errors_Stand l x laid h
  errors_Stand _ x (lexeme l text back t laid e some_text is) h = errors_Stand l x laid h
  errors_Stand _ x (fault l front back message laid e some_text) h =
      elim ((In-concat x (fault_of l front message) l.errors).0 h) [
        | inl older ↦ errors_Stand l x laid older
        | inr newest ↦ rw newest (front, some_text, here_Stands l front back laid e)
      ]
  errors_Stand _ x (overflow l text back message laid e some_text all wide) h =
      elim ((In-concat x (fault_of l text message) l.errors).0 h) [
        | inl older ↦ errors_Stand l x laid older
        | inr newest ↦ rw newest (text, some_text, here_Stands l text back laid e)
      ]

-- Each token that `lex_with_options` returns was read from a text of it that is not empty, and this
-- text stands in the source at the span of the token.
pub lex_with_options-tokens :
    (parse_f64 : Chars → ℕ) (source : Chars) (regex_literals : Bool) (t : Token) (span : Span)
    → In (t, span) (lex_with_options parse_f64 source regex_literals).0
    → (text : Chars) × IsRead parse_f64 t text × (0 < length text) × Stands source text span
lex_with_options-tokens parse_f64 source regex_literals t span h =
    let (l, laid, _, e) = lex_with_options-Laid parse_f64 source regex_literals in
    tokens_Stand parse_f64 source l t span laid (rw (sym (ap (λ p. p.0) e)) h)

-- Each error that `lex_with_options` returns covers a stretch of the source that is not empty: it
-- starts before it ends, and ends within the source.
pub lex_with_options-errors :
    (parse_f64 : Chars → ℕ) (source : Chars) (regex_literals : Bool) (e : ParseError)
    → In e (lex_with_options parse_f64 source regex_literals).1
    → (e.span.start < e.span.end) × (e.span.end ≤ size source)
lex_with_options-errors parse_f64 source regex_literals x h =
    let (l, laid, _, e) = lex_with_options-Laid parse_f64 source regex_literals in
    let (text, some_text, (before, after, split, at)) =
      errors_Stand parse_f64 source l x laid (rw (sym (ap (λ p. p.1) e)) h) in
    bounded before text after x.span some_text split at
