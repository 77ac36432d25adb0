-- ===== src/Parser/Lexer/Order.antt =====
-- The spans of the scanner's tokens, one behind the other.
use jibs.Prelude.{ℕ, ◌+◌, ◌<◌, ◌≤◌, Bool, List, [], ◌∷◌, ◌++◌, ◌≡◌, refl, ap, arith, length}
use jibs.Prelude.Int.{pos, max_i64}
use jibs.Parser.Ast.{Span, Spanned}
use jibs.Parser.Chars.{Chars, size, size-append}
use jibs.Parser.Lexer.Laid.{Laid, start, trivia, lexeme, fault, overflow}
use jibs.Parser.Lexer.Spans.{Laid-Before, size_pos}
use jibs.Parser.Lexer.Total.{lex_with_options-Laid}
use jibs.Parser.Lexer.{Lexer, new_span, lex_with_options}
use jibs.Parser.Token.{Token}

-- Spans that are not empty, each behind the one before, from a position on.
abbrev pub IsOrdered : ℕ → List (Spanned Token) → Type 0
IsOrdered from [] = Unit
IsOrdered from ((_, span) ∷ rest) =
    (from ≤ span.start) × (span.start < span.end) × IsOrdered span.end rest

-- Where the last span ends.
abbrev pub end_of : ℕ → List (Spanned Token) → ℕ
end_of from [] = from
end_of from ((_, span) ∷ rest) = end_of span.end rest

append-IsOrdered :
    (from : ℕ) (tokens : List (Spanned Token)) (t : Token) (span : Span)
    → IsOrdered from tokens
    → end_of from tokens ≤ span.start
    → span.start < span.end
    → IsOrdered from (tokens ++ (t, span) ∷ [])
append-IsOrdered from [] t span ordered behind some_text = (behind, some_text, tt)
append-IsOrdered from ((_, s) ∷ rest) t span (on, some, more) behind some_text =
    (on, some, append-IsOrdered s.end rest t span more behind some_text)

end_of-append :
    (from : ℕ) (tokens : List (Spanned Token)) (t : Token) (span : Span)
    → end_of from (tokens ++ (t, span) ∷ []) ≡ span.end
end_of-append from [] t span = refl
end_of-append from ((_, s) ∷ rest) t span = end_of-append s.end rest t span

module _ (parse_f64 : Chars → ℕ) (source : Chars) where
  abbrev Sorted : Lexer → Type 0
  Sorted l = IsOrdered 0 l.tokens × (end_of 0 l.tokens ≤ l.pos)

  pushed :
      (l : Lexer) (text : Chars) (t : Token)
      → Sorted l
      → 0 < length text
      → IsOrdered 0 (l.tokens ++ (t, new_span l.pos (l.pos + size text)) ∷ [])
        × (end_of 0 (l.tokens ++ (t, new_span l.pos (l.pos + size text)) ∷ []) ≤ l.pos + size text)
  pushed l text t (ordered, behind) some_text =
      let span = new_span l.pos (l.pos + size text) in
      (
        append-IsOrdered 0 l.tokens t span ordered behind (omega (arith, size_pos text some_text)),
        omega (arith, end_of-append 0 l.tokens t span),
      )

  Laid-Sorted : (l : Lexer) → Laid parse_f64 source l → Sorted l
  Laid-Sorted _ start = (tt, omega arith)
  Laid-Sorted _ (trivia l front back laid e is) =
      let (ordered, behind) = Laid-Sorted l laid in (ordered, omega (arith, behind))
  Laid-Sorted _ (fault l front back message laid e some_text) =
      let (ordered, behind) = Laid-Sorted l laid in (ordered, omega (arith, behind))
  Laid-Sorted _ (lexeme l text back t laid e some_text is) =
      pushed l text t (Laid-Sorted l laid) some_text
  Laid-Sorted _ (overflow l text back message laid e some_text all wide) =
      pushed l text (Token.int (pos max_i64)) (Laid-Sorted l laid) some_text

  read_size : (l : Lexer) → Laid parse_f64 source l → l.pos ≤ size source
  read_size l laid =
      let (before, split, here) = Laid-Before parse_f64 source l laid in
      omega (arith, ap size split, size-append before l.rest, here)

-- The tokens that `lex_with_options` returns stand one behind the other: each span is not empty and
-- starts where the one before ends, or behind, and the last ends within the source.
pub lex_with_options-IsOrdered :
    (parse_f64 : Chars → ℕ) (source : Chars) (regex_literals : Bool)
    → IsOrdered 0 (lex_with_options parse_f64 source regex_literals).0
      × (end_of 0 (lex_with_options parse_f64 source regex_literals).0 ≤ size source)
lex_with_options-IsOrdered parse_f64 source regex_literals =
    let (l, laid, _, e) = lex_with_options-Laid parse_f64 source regex_literals in
    let (ordered, behind) = Laid-Sorted parse_f64 source l laid in
    let within : end_of 0 l.tokens ≤ size source =
      omega (arith, behind, read_size parse_f64 source l laid) in
    rw e (ordered, within)
