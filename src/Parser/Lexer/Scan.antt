-- ===== src/Parser/Lexer/Scan.antt =====
-- The fronts of a text that the scanner looks for.
use jibs.Prelude.{ℕ, List, [], ◌∷◌, Option, none, some, if◌then◌else◌, ◌==◌, bytes_eq}
use jibs.Prelude.Replace.{starts_with}
use jibs.Parser.Chars.{Chars, is_whitespace, with_front}
use jibs.Parser.Token.{Token}

abbrev pub put : ℕ → Chars × Option Chars → Chars × Option Chars
put c (content, closed) = (c ∷ content, closed)

-- The loop of `string`: the content up to the closing quote, and the text behind the quote, or none
-- where the input ends before. A backslash takes the character behind it.
unfoldable pub close_string : Chars → Chars × Option Chars
close_string [] = ([], none)
close_string (c ∷ []) = if c == b'"' then ([], some []) else (c ∷ [], none)
close_string (c ∷ d ∷ s) =
    let escaped = put c (put d (close_string s)) in
    let plain = put c (close_string (d ∷ s)) in
    if c == b'"' then ([], some (d ∷ s)) else if c == b'\\' then escaped else plain

-- The loop of `slash_or_regex`: the text up to the next slash, with no whitespace in it.
unfoldable pub regex_body : Chars → Option (Chars × Chars)
regex_body [] = none
regex_body (c ∷ s) =
    let more = with_front c (regex_body s) in
    if c == b'/' then some ([], s) else if is_whitespace c then none else more

-- The `match` of `ident_or_keyword`.
unfoldable pub lookup_word : Chars → List (Chars × Token) → Token
unfolding bytes_eq
lookup_word text [] = Token.ident text
lookup_word text ((word, token) ∷ rest) =
    if bytes_eq text word then token else lookup_word text rest

-- The loop of `operator_or_punct`.
unfoldable pub lookup_operator : List (Chars × Token) → Chars → Option (Chars × Token)
unfolding starts_with
lookup_operator [] s = none
lookup_operator ((text, token) ∷ rest) s =
    if starts_with text s then some (text, token) else lookup_operator rest s

unfoldable pub lookup_mark : ℕ → List (ℕ × Token) → Option Token
lookup_mark c [] = none
lookup_mark c ((mark, token) ∷ rest) = if c == mark then some token else lookup_mark c rest
