-- ===== src/Parser/Lexer/Quoted.antt =====
-- Strings, regular expressions and names in backticks are read as lexemes, or reported.
use jibs.Prelude.{
  ℕ, Bool, true, false, [], ◌∷◌, ◌++◌, some, ◌≡◌, ap, ◌∙◌, inl, inr, arith, codes, Option-cases,
}
use jibs.Prelude.Replace.{starts_with}
use jibs.Parser.Chars.{Chars, find_split, find_split-append, behind, starts_with-behind}
use jibs.Parser.Lexer.Scan.{close_string, regex_body}
use jibs.Parser.Lexer.Fronts.{quoted, to_end, Closed, close_string_lem, regex_body_lem}
use jibs.Parser.Lexer.Laid.{IsLexeme, Laid}
use jibs.Parser.Lexer.{
  Lexer, moved, push, quotes, multiline_string, string, backtick_ident, slash_or_regex,
}
use jibs.Parser.Token.{Token}
use jibs.Parser.Lexer.Advances.{Advances, lexeme-Advances, fault-Advances}

module _ (parse_f64 : Chars → ℕ) (source : Chars) where
  pub multiline_string-Advances :
      (l : Lexer)
      → Laid parse_f64 source l
      → starts_with quotes l.rest ≡ true
      → Advances parse_f64 source l (multiline_string l)
  unfolding multiline_string find_split
  multiline_string-Advances l laid h =
      let split = starts_with-behind quotes l.rest h in
      elim (Option-cases (find_split quotes (behind quotes l.rest))) [
        | inl missing ↦
            rw missing
              (fault-Advances parse_f64 source l l.rest [] _ laid to_end (rw split (omega arith)))
        | inr ((body, back), e) ↦ rw e (
            lexeme-Advances parse_f64 source l (quotes ++ (body ++ quotes)) back _ laid
              (quoted quotes quotes body back split
                (find_split-append quotes (behind quotes l.rest) e))
              (omega arith) IsLexeme.multiline_string)
      ]

  pub string-Advances :
      (l : Lexer) (inner : Chars)
      → Laid parse_f64 source l
      → l.rest ≡ 34 ∷ inner
      → Advances parse_f64 source l (string l inner)
  unfolding string
  string-Advances l inner laid e =
      let found = close_string_lem inner in
      elim (Option-cases (close_string inner).1) [
        | inl unclosed ↦
            let whole : inner ≡ (close_string inner).0 = rw (unclosed, Closed) at found in
            rw (unclosed, string)
              (fault-Advances parse_f64 source l (34 ∷ (close_string inner).0) [] _ laid
                (e ∙ ap (λ t. 34 ∷ t) (whole ∙ to_end)) (omega arith))
        | inr (back, closed) ↦
            let (is, split) : Closed inner ((close_string inner).0, some back) =
              rw (closed, Closed) at found in
            rw (closed, string)
              (lexeme-Advances parse_f64 source l (34 ∷ ((close_string inner).0 ++ codes "\"")) back
                _ laid (quoted (codes "\"") (codes "\"") (close_string inner).0 back e split)
                (omega arith) (IsLexeme.string is))
      ]

  pub backtick_ident-Advances :
      (l : Lexer) (inner : Chars)
      → Laid parse_f64 source l
      → l.rest ≡ 96 ∷ inner
      → Advances parse_f64 source l (backtick_ident parse_f64 l inner)
  unfolding backtick_ident find_split
  backtick_ident-Advances l inner laid e = elim (Option-cases (find_split (codes "`") inner)) [
    | inl missing ↦
        rw (missing, backtick_ident)
          (fault-Advances parse_f64 source l (96 ∷ inner) [] _ laid (e ∙ to_end) (omega arith))
    | inr (([], back), found) ↦
        rw (found, backtick_ident)
          (fault-Advances parse_f64 source l (codes "``") back _ laid
            (e ∙ ap (λ t. 96 ∷ t) (find_split-append (codes "`") inner found)) (omega arith))
    | inr ((c ∷ name, back), found) ↦
        rw (found, backtick_ident)
          (lexeme-Advances parse_f64 source l (96 ∷ (c ∷ name ++ codes "`")) back _ laid
            (quoted (codes "`") (codes "`") (c ∷ name) back e
              (find_split-append (codes "`") inner found))
            (omega arith) (IsLexeme.backtick_ident (omega arith)))
  ]

  pub slash-Advances :
      (l : Lexer) (inner : Chars)
      → Laid parse_f64 source l
      → l.rest ≡ 47 ∷ inner
      → Advances parse_f64 source l (push Token.slash l.pos (moved (codes "/") inner l))
  slash-Advances l inner laid e =
      lexeme-Advances parse_f64 source l (codes "/") inner _ laid e (omega arith) IsLexeme.slash

  pub slash_or_regex-Advances :
      (regex_literals : Bool) (l : Lexer) (inner : Chars)
      → Laid parse_f64 source l
      → l.rest ≡ 47 ∷ inner
      → Advances parse_f64 source l (slash_or_regex parse_f64 regex_literals l inner)
  unfolding slash_or_regex
  slash_or_regex-Advances false l inner laid e = slash-Advances l inner laid e
  slash_or_regex-Advances true l inner laid e = elim (Option-cases (regex_body inner)) [
    | inl missing ↦ rw (missing, slash_or_regex) (slash-Advances l inner laid e)
    | inr (([], back), found) ↦ rw (found, slash_or_regex) (slash-Advances l inner laid e)
    | inr ((c ∷ body, back), found) ↦
        let (all, split) = regex_body_lem inner found in
        rw (found, slash_or_regex)
          (lexeme-Advances parse_f64 source l (47 ∷ (c ∷ body ++ codes "/")) back _ laid
            (quoted (codes "/") (codes "/") (c ∷ body) back e split) (omega arith)
            (IsLexeme.regex (omega arith) all))
  ]
