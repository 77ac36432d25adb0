-- ===== src/Parser/Lexer/Handlers.antt =====
-- What is behind the first character is read as a lexeme, or reported.
use jibs.Prelude.{
  ℕ, Bool, true, ◌||◌, ◌∷◌, ◌≡◌, ap, ◌∙◌, inl, inr, arith, if◌then◌else◌, ◌==◌, ==_iff, Bool-cases,
}
use jibs.Prelude.Replace.{starts_with}
use jibs.Parser.Chars.{Chars, is_digit, is_ascii_alphabetic, is_ident_char}
use jibs.Parser.Lexer.Laid.{Laid}
use jibs.Parser.Lexer.{
  Lexer, quotes, number, backtick_ident, slash_or_regex, ident_or_keyword, operator_or_punct, token,
}
use jibs.Parser.Lexer.Advances.{Advances}
use jibs.Parser.Lexer.Quoted.{
  multiline_string-Advances, string-Advances, backtick_ident-Advances, slash_or_regex-Advances,
}
use jibs.Parser.Lexer.Words.{number-Advances, ident_or_keyword-Advances, operator_or_punct-Advances}

first : {c d : ℕ} {s back : Chars} → (c == d) ≡ true → s ≡ c ∷ back → s ≡ d ∷ back
first {c} {d} {s} {back} h e = e ∙ ap (λ x. x ∷ back) ((==_iff c d).0 h)

ident_first : (c : ℕ) → (is_ascii_alphabetic c || c == 95) ≡ true → is_ident_char c ≡ true
unfolding is_ident_char
ident_first c h = ground (arith, h)

module _ (parse_f64 : Chars → ℕ) (source : Chars) where
  -- The branches behind the quotes.
  pub unquoted :
      (regex_literals : Bool) (l : Lexer) (c : ℕ) (back : Chars)
      → Laid parse_f64 source l
      → l.rest ≡ c ∷ back
      → Advances parse_f64 source l (
          if is_digit c
          then number parse_f64 l
          else if c == b'`'
          then backtick_ident parse_f64 l back
          else if c == b'/'
          then slash_or_regex parse_f64 regex_literals l back
          else if is_ascii_alphabetic c || c == b'_'
          then ident_or_keyword parse_f64 l
          else operator_or_punct parse_f64 l c back)
  unquoted regex_literals l c back laid e = elim (Bool-cases (is_digit c)) [
    | inl digit ↦ rw digit (number-Advances parse_f64 source l c back laid e digit)
    | inr no_digit ↦ elim (Bool-cases (c == 96)) [
      | inl tick ↦
          rw (no_digit, tick) (backtick_ident-Advances parse_f64 source l back laid (first tick e))
      | inr no_tick ↦ elim (Bool-cases (c == 47)) [
        | inl slash ↦
            rw (no_digit, no_tick, slash)
              (slash_or_regex-Advances parse_f64 source regex_literals l back laid (first slash e))
        | inr no_slash ↦ elim (Bool-cases (is_ascii_alphabetic c || c == 95)) [
          | inl word ↦
              rw (no_digit, no_tick, no_slash, word)
                (ident_or_keyword-Advances parse_f64 source l c back laid e (ident_first c word))
          | inr no_word ↦
              rw (no_digit, no_tick, no_slash, no_word)
                (operator_or_punct-Advances parse_f64 source l c back laid e)
        ]
      ]
    ]
  ]

  pub token-Advances :
      (regex_literals : Bool) (l : Lexer) (c : ℕ) (back : Chars)
      → Laid parse_f64 source l
      → l.rest ≡ c ∷ back
      → Advances parse_f64 source l (token parse_f64 regex_literals l c back)
  unfolding token
  token-Advances regex_literals l c back laid e =
      elim (Bool-cases (starts_with quotes (c ∷ back))) [
        | inl three ↦ rw three (multiline_string-Advances parse_f64 source l laid (rw e three))
        | inr no_quotes ↦ elim (Bool-cases (c == 34)) [
          | inl quote ↦
              rw (no_quotes, quote) (string-Advances parse_f64 source l back laid (first quote e))
          | inr other ↦ rw (no_quotes, other) (unquoted regex_literals l c back laid e)
        ]
      ]
