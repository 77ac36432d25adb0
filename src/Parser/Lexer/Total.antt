-- ===== src/Parser/Lexer/Total.antt =====
-- The scanner reads its text to the end, and what it yields stands in the text.
use jibs.Prelude.{ℕ, zero, suc, ◌+◌, ◌<◌, Bool, [], ◌≡◌, refl, inl, inr, arith, length, List-cases}
use jibs.Parser.Chars.{Chars}
use jibs.Parser.Lexer.Laid.{Laid, start}
use jibs.Parser.Lexer.Trivia.{skip_trivia-Skips}
use jibs.Parser.Lexer.Handlers.{token-Advances}
use jibs.Parser.Lexer.{Lexer, skip_trivia, token, run, begin, lex_with_options}

module _ (parse_f64 : Chars → ℕ) (source : Chars) where
  -- Read to the end, and laid out.
  abbrev Ends : Lexer → Type 0
  Ends l = Laid parse_f64 source l × (l.rest ≡ [])

  run-Ends :
      (regex_literals : Bool) (fuel : ℕ) (l : Lexer)
      → Laid parse_f64 source l
      → length l.rest < fuel
      → Ends (run parse_f64 regex_literals fuel l)
  unfolding run
  run-Ends regex_literals zero l laid enough = absurd (omega (arith, enough))
  run-Ends regex_literals (suc fuel) l laid enough =
      let (after, less) = skip_trivia-Skips parse_f64 source (length l.rest + 1) l laid in
      elim (List-cases (skip_trivia (length l.rest + 1) l).rest) [
        | inl empty ↦ rw (empty, run) (after, empty)
        | inr (c, back, e) ↦
            let (read, lesser) =
              token-Advances parse_f64 source regex_literals (skip_trivia (length l.rest + 1) l) c
                back after e in
            rw (e, run)
              (run-Ends regex_literals fuel
                (token parse_f64 regex_literals (skip_trivia (length l.rest + 1) l) c back) read
                (omega (arith, less, lesser, enough)))
      ]

-- The scanner reads the whole text: it is laid out as trivia, as lexemes with their tokens, and as
-- stretches with their errors, and `lex_with_options` returns those tokens and errors.
pub lex_with_options-Laid :
    (parse_f64 : Chars → ℕ) (source : Chars) (regex_literals : Bool)
    → (l : Lexer) × Laid parse_f64 source l
      × (l.rest ≡ [])
      × (lex_with_options parse_f64 source regex_literals ≡ (l.tokens, l.errors))
unfolding lex_with_options
lex_with_options-Laid parse_f64 source regex_literals =
    let (laid, ended) =
      run-Ends parse_f64 source regex_literals (length source + 1) (begin parse_f64 source) start
        (omega arith) in
    (run parse_f64 regex_literals (length source + 1) (begin parse_f64 source), laid, ended, refl)
