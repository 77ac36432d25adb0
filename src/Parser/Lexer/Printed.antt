-- ===== src/Parser/Lexer/Printed.antt =====
-- Printing a token gives back its text.
use jibs.Prelude.{
  ℕ, ◌<◌, false, List, [], ◌∷◌, ◌++◌, ◌≡◌, ◌≢◌, refl, sym, ◌∙◌, inl, inr, arith, bytes_eq,
  bytes_eq_iff, length, Bool-cases, All, All-In,
}
use jibs.Parser.Chars.{Chars, is_digit}
use jibs.Parser.Lexer.Scan.{lookup_word}
use jibs.Parser.Lexer.Laid.{
  AllDigits, IsLexeme, integer, float, string, multiline_string, regex, slash, backtick_ident, word,
  operator, mark,
}
use jibs.Parser.Token.{Token, display, words, operators, marks}

module _ (format_f64 : ℕ → Chars) where
  lookup_word-display :
      (table : List (Chars × Token)) (s : Chars)
      → All (λ p. display format_f64 p.1 ≡ p.0) table
      → display format_f64 (lookup_word s table) ≡ s
  unfolding lookup_word display
  lookup_word-display [] s holds = refl
  lookup_word-display ((w, t) ∷ table) s (here, later) = elim (Bool-cases (bytes_eq s w)) [
    | inl same ↦ rw same (here ∙ sym ((bytes_eq_iff s w).0 same))
    | inr other ↦ rw other (lookup_word-display table s later)
  ]

  words_printed : All (λ p. display format_f64 p.1 ≡ p.0) words
  unfolding display
  words_printed = ground arith

  operators_printed : All (λ p. display format_f64 p.1 ≡ p.0) operators
  unfolding display
  operators_printed = ground arith

  marks_printed : All (λ p. display format_f64 p.1 ≡ p.0 ∷ []) marks
  unfolding display
  marks_printed = ground arith

-- The first character is no digit and no backtick.
abbrev pub Plain : Chars → Type 0
Plain [] = ⊥
Plain (c ∷ _) = (is_digit c ≡ false) × (c ≢ 96)

digits_not-Plain :
    (digits s : Chars) → 0 < length digits → AllDigits digits → Plain (digits ++ s) → ⊥
digits_not-Plain [] s some_text all plain = absurd (omega (arith, some_text))
digits_not-Plain (c ∷ digits) s some_text (digit, _) (no_digit, _) = cc (sym digit ∙ no_digit)

integer_not-Plain : (digits : Chars) → AllDigits digits → Plain digits → ⊥
integer_not-Plain [] all plain = plain
integer_not-Plain (c ∷ digits) (digit, _) (no_digit, _) = cc (sym digit ∙ no_digit)

-- A token whose text starts with no digit and no backtick is printed as its text.
pub display-IsLexeme :
    (format_f64 : ℕ → Chars) (parse_f64 : Chars → ℕ) (t : Token) (text : Chars)
    → IsLexeme parse_f64 t text
    → Plain text
    → display format_f64 t ≡ text
unfolding display
display-IsLexeme format_f64 parse_f64 _ text (integer all fits) plain =
    absurd (integer_not-Plain text all plain)
display-IsLexeme format_f64 parse_f64 _ _ (float whole fraction some_text all _) plain =
    absurd (digits_not-Plain whole (46 ∷ fraction) some_text all plain)
display-IsLexeme format_f64 parse_f64 _ _ (string is) plain = refl
display-IsLexeme format_f64 parse_f64 _ _ multiline_string plain = refl
display-IsLexeme format_f64 parse_f64 _ _ (regex some_text all) plain = refl
display-IsLexeme format_f64 parse_f64 _ _ slash plain = refl
display-IsLexeme format_f64 parse_f64 _ _ (backtick_ident some_text) plain = absurd (plain.1 refl)
display-IsLexeme format_f64 parse_f64 _ text (word all) plain =
    lookup_word-display format_f64 words text (words_printed format_f64)
display-IsLexeme format_f64 parse_f64 _ text (operator listed) plain =
    All-In (λ p. display format_f64 p.1 ≡ p.0) operators (operators_printed format_f64) listed
display-IsLexeme format_f64 parse_f64 _ _ (mark listed) plain =
    All-In (λ p. display format_f64 p.1 ≡ p.0 ∷ []) marks (marks_printed format_f64) listed
