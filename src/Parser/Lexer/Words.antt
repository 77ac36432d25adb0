-- ===== src/Parser/Lexer/Words.antt =====
-- Numbers, words and operators are read as lexemes, or reported.
use jibs.Prelude.{
  ℕ, ◌<◌, true, ◌&&◌, [], ◌∷◌, ◌++◌, ◌≡◌, ap, sym, ◌∙◌, inl, inr, arith, ◌==◌, length,
  length-append, Bool-cases, Option-cases, append_assoc,
}
use jibs.Prelude.Parse.{parse_i64}
use jibs.Parser.Chars.{
  Chars, is_digit, is_ident_char, span_while, span_while-append, span_while-All, behind,
  starts_with-behind,
}
use jibs.Parser.Lexer.Scan.{lookup_operator, lookup_mark}
use jibs.Parser.Lexer.Fronts.{less, span_pos, operators_pos, lookup_operator_lem, lookup_mark_lem}
use jibs.Parser.Lexer.Laid.{AllDigits, IsLexeme, Laid, overflow}
use jibs.Parser.Lexer.{
  Lexer, integer, float, number_behind, number, ident_or_keyword, punctuation, operator_or_punct,
}
use jibs.Parser.Token.{operators, marks}
use jibs.Parser.Lexer.Advances.{Advances, lexeme-Advances, fault-Advances}

module _ (parse_f64 : Chars → ℕ) (source : Chars) where
  pub integer-Advances :
      (l : Lexer) (text back : Chars)
      → Laid parse_f64 source l
      → l.rest ≡ text ++ back
      → 0 < length text
      → AllDigits text
      → Advances parse_f64 source l (integer parse_f64 l text back)
  unfolding integer
  integer-Advances l text back laid e some_text all = elim (Option-cases (parse_i64 text)) [
    | inl wide ↦
        rw (wide, integer)
          (overflow l text back _ laid e some_text all wide, less l.rest text back e some_text)
    | inr (n, fits) ↦
        rw (fits, integer)
          (lexeme-Advances parse_f64 source l text back _ laid e some_text
            (IsLexeme.integer all fits))
  ]

  pub float-Advances :
      (l : Lexer) (text decimals : Chars)
      → Laid parse_f64 source l
      → l.rest ≡ text ++ 46 ∷ decimals
      → 0 < length text
      → AllDigits text
      → Advances parse_f64 source l (float parse_f64 l text decimals)
  unfolding float
  float-Advances l text decimals laid e some_text all =
      let split = span_while-append is_digit decimals in
      lexeme-Advances parse_f64 source l (text ++ 46 ∷ (span_while is_digit decimals).0)
        (span_while is_digit decimals).1 _ laid
        (e
          ∙ ap (λ t. text ++ 46 ∷ t) split
          ∙ sym (
              append_assoc text (46 ∷ (span_while is_digit decimals).0)
                (span_while is_digit decimals).1))
        (omega (arith, length-append text (46 ∷ (span_while is_digit decimals).0)))
        (IsLexeme.float text (span_while is_digit decimals).0 some_text all
          (span_while-All is_digit decimals))

  pub number_behind-Advances :
      (l : Lexer) (text back : Chars)
      → Laid parse_f64 source l
      → l.rest ≡ text ++ back
      → 0 < length text
      → AllDigits text
      → Advances parse_f64 source l (number_behind parse_f64 l text back)
  unfolding number_behind
  number_behind-Advances l text [] laid e some_text all =
      integer-Advances l text [] laid e some_text all
  number_behind-Advances l text (c ∷ []) laid e some_text all =
      integer-Advances l text (c ∷ []) laid e some_text all
  number_behind-Advances l text (c ∷ d ∷ back) laid e some_text all =
      elim (Bool-cases (c == 46 && is_digit d)) [
        | inl dot ↦ rw dot (
            float-Advances l text (d ∷ back) laid
              (e ∙ ap (λ t. text ++ t ∷ d ∷ back) (ground (arith, dot))) some_text all)
        | inr plain ↦ rw plain (integer-Advances l text (c ∷ d ∷ back) laid e some_text all)
      ]

  pub number-Advances :
      (l : Lexer) (c : ℕ) (back : Chars)
      → Laid parse_f64 source l
      → l.rest ≡ c ∷ back
      → is_digit c ≡ true
      → Advances parse_f64 source l (number parse_f64 l)
  unfolding number
  number-Advances l c back laid e digit =
      number_behind-Advances l (span_while is_digit l.rest).0 (span_while is_digit l.rest).1 laid
        (span_while-append is_digit l.rest) (span_pos is_digit c back e digit)
        (span_while-All is_digit l.rest)

  pub ident_or_keyword-Advances :
      (l : Lexer) (c : ℕ) (back : Chars)
      → Laid parse_f64 source l
      → l.rest ≡ c ∷ back
      → is_ident_char c ≡ true
      → Advances parse_f64 source l (ident_or_keyword parse_f64 l)
  unfolding ident_or_keyword
  ident_or_keyword-Advances l c back laid e ident =
      lexeme-Advances parse_f64 source l (span_while is_ident_char l.rest).0
        (span_while is_ident_char l.rest).1 _ laid (span_while-append is_ident_char l.rest)
        (span_pos is_ident_char c back e ident)
        (IsLexeme.word (span_while-All is_ident_char l.rest))

  pub punctuation-Advances :
      (l : Lexer) (c : ℕ) (back : Chars)
      → Laid parse_f64 source l
      → l.rest ≡ c ∷ back
      → Advances parse_f64 source l (punctuation parse_f64 l c back)
  unfolding punctuation
  punctuation-Advances l c back laid e = elim (Option-cases (lookup_mark c marks)) [
    | inl missing ↦
        rw (missing, punctuation)
          (fault-Advances parse_f64 source l (c ∷ []) back _ laid e (omega arith))
    | inr (t, found) ↦
        rw (found, punctuation)
          (lexeme-Advances parse_f64 source l (c ∷ []) back t laid e (omega arith)
            (IsLexeme.mark (lookup_mark_lem c marks found)))
  ]

  pub operator_or_punct-Advances :
      (l : Lexer) (c : ℕ) (back : Chars)
      → Laid parse_f64 source l
      → l.rest ≡ c ∷ back
      → Advances parse_f64 source l (operator_or_punct parse_f64 l c back)
  unfolding operator_or_punct
  operator_or_punct-Advances l c back laid e =
      elim (Option-cases (lookup_operator operators l.rest)) [
        | inl missing ↦ rw (missing, operator_or_punct) (punctuation-Advances l c back laid e)
        | inr ((text, t), found) ↦
            let (listed, begins) = lookup_operator_lem operators l.rest found in
            rw (found, operator_or_punct)
              (lexeme-Advances parse_f64 source l text (behind text l.rest) t laid
                (starts_with-behind text l.rest begins) (operators_pos text t listed)
                (IsLexeme.operator listed))
      ]
