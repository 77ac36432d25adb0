-- ===== src/Parser/Lexer/Laid.antt =====
-- The specification of the scanner: its text is laid out as trivia, lexemes and faulty stretches.
use jibs.Prelude.{ℕ, ◌<◌, true, [], ◌∷◌, ◌++◌, some, none, ◌≡◌, ◌≢◌, ◌⊎◌, codes, length, All, In}
use jibs.Prelude.Int.{ℤ, pos, max_i64}
use jibs.Prelude.Parse.{parse_i64}
use jibs.Prelude.Replace.{starts_with}
use jibs.Parser.Chars.{Chars, is_whitespace, is_digit, is_ident_char}
use jibs.Parser.Lexer.Scan.{lookup_word}
use jibs.Parser.Lexer.{Lexer, begin, moved, push, error, quotes}
use jibs.Parser.Token.{Token, words, operators, marks}

-- Whitespace, or a comment up to the end of its line.
pub data IsTrivia : Chars → Type 0 where
  whitespace : {s : Chars} → All (λ c. is_whitespace c ≡ true) s → IsTrivia s
  comment :
      (line end : Chars)
      → starts_with (codes "//") line ≡ true
      → All (λ c. c ≢ 10) line
      → (end ≡ []) ⊎ (end ≡ codes "\n")
      → IsTrivia (line ++ end)

-- The content of a string: a quote stands only behind a backslash that is no escaped character.
pub data IsContent : Chars → Type 0 where
  empty : IsContent []
  escape : {s : Chars} (c d : ℕ) → c ≡ 92 → IsContent s → IsContent (c ∷ d ∷ s)
  plain : {s : Chars} (c : ℕ) → c ≢ 92 → c ≢ 34 → IsContent s → IsContent (c ∷ s)

abbrev pub AllDigits : Chars → Type 0
AllDigits s = All (λ c. is_digit c ≡ true) s

-- The texts of a token. A regular expression holds no whitespace and no slash.
pub data IsLexeme (parse_f64 : Chars → ℕ) : Token → Chars → Type 0 where
  integer :
      {text : Chars} {n : ℤ}
      → AllDigits text
      → parse_i64 text ≡ some n
      → IsLexeme parse_f64 (Token.int n) text
  float :
      (whole fraction : Chars)
      → 0 < length whole
      → AllDigits whole
      → AllDigits fraction
      → IsLexeme parse_f64
          (Token.float (parse_f64 (whole ++ (46 ∷ fraction))))
          (whole ++ (46 ∷ fraction))
  string : {s : Chars} → IsContent s → IsLexeme parse_f64 (Token.string s) (34 ∷ (s ++ codes "\""))
  multiline_string :
      {s : Chars} → IsLexeme parse_f64 (Token.multiline_string s) (quotes ++ (s ++ quotes))
  regex :
      {s : Chars}
      → 0 < length s
      → All (λ c. (c ≢ 47) × (is_whitespace c ≢ true)) s
      → IsLexeme parse_f64 (Token.regex s) (47 ∷ (s ++ codes "/"))
  slash : IsLexeme parse_f64 Token.slash (codes "/")
  backtick_ident :
      {s : Chars} → 0 < length s → IsLexeme parse_f64 (Token.ident s) (96 ∷ (s ++ codes "`"))
  word :
      {s : Chars} → All (λ c. is_ident_char c ≡ true) s → IsLexeme parse_f64 (lookup_word s words) s
  operator : {s : Chars} {t : Token} → In (s, t) operators → IsLexeme parse_f64 t s
  mark : {c : ℕ} {t : Token} → In (c, t) marks → IsLexeme parse_f64 t (c ∷ [])

-- What was read of the source so far is a sequence of trivia, of lexemes with their tokens, and of
-- stretches that an error reports. A number that is out of range is reported beside its token.
pub data Laid (parse_f64 : Chars → ℕ) (source : Chars) : Lexer → Type 0 where
  start : Laid parse_f64 source (begin parse_f64 source)
  trivia :
      (l : Lexer) (front back : Chars)
      → Laid parse_f64 source l
      → l.rest ≡ front ++ back
      → IsTrivia front
      → Laid parse_f64 source (moved front back l)
  lexeme :
      (l : Lexer) (text back : Chars) (t : Token)
      → Laid parse_f64 source l
      → l.rest ≡ text ++ back
      → 0 < length text
      → IsLexeme parse_f64 t text
      → Laid parse_f64 source (push t l.pos (moved text back l))
  fault :
      (l : Lexer) (front back message : Chars)
      → Laid parse_f64 source l
      → l.rest ≡ front ++ back
      → 0 < length front
      → Laid parse_f64 source (error l.pos message (moved front back l))
  overflow :
      (l : Lexer) (text back message : Chars)
      → Laid parse_f64 source l
      → l.rest ≡ text ++ back
      → 0 < length text
      → AllDigits text
      → parse_i64 text ≡ none
      → Laid parse_f64 source
          (push (Token.int (pos max_i64)) l.pos (error l.pos message (moved text back l)))
