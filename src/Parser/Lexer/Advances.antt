-- ===== src/Parser/Lexer/Advances.antt =====
-- What a function of the scanner leaves: some text was read, and it is laid out.
use jibs.Prelude.{ℕ, ◌<◌, ◌++◌, ◌≡◌, length}
use jibs.Parser.Chars.{Chars}
use jibs.Parser.Lexer.Fronts.{less}
use jibs.Parser.Lexer.Laid.{IsLexeme, Laid, lexeme, fault}
use jibs.Parser.Lexer.{Lexer, moved, push, error}
use jibs.Parser.Token.{Token}

module _ (parse_f64 : Chars → ℕ) (source : Chars) where
  -- What was read is laid out, and some text was read.
  abbrev pub Advances : Lexer → Lexer → Type 0
  Advances l r = Laid parse_f64 source r × (length r.rest < length l.rest)

  pub lexeme-Advances :
      (l : Lexer) (text back : Chars) (t : Token)
      → Laid parse_f64 source l
      → l.rest ≡ text ++ back
      → 0 < length text
      → IsLexeme parse_f64 t text
      → Advances l (push t l.pos (moved text back l))
  lexeme-Advances l text back t laid e some_text is =
      (lexeme l text back t laid e some_text is, less l.rest text back e some_text)

  pub fault-Advances :
      (l : Lexer) (front back message : Chars)
      → Laid parse_f64 source l
      → l.rest ≡ front ++ back
      → 0 < length front
      → Advances l (error l.pos message (moved front back l))
  fault-Advances l front back message laid e some_text =
      (fault l front back message laid e some_text, less l.rest front back e some_text)
