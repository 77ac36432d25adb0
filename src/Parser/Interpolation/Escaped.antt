-- ===== src/Parser/Interpolation/Escaped.antt =====
-- A text, escaped, is the content of a string literal that stands for the text.
use jibs.Prelude.{
  ℕ, zero, suc, ◌+◌, ◌<◌, ◌≤◌, true, false, [], Option, some, ◌∷◌, ◌++◌, ◌≡◌, refl, ap, sym, ◌∙◌,
  inl, inr, arith, if◌then◌else◌, ◌==◌, ==_iff, length, length-append, Bool-cases, append-nil,
  append_assoc,
}
use jibs.Prelude.Result.{ok}
use jibs.Parser.Ast.{StringLiteral}
use jibs.Parser.Chars.{Chars, size, len_utf8}
use jibs.Parser.Lexer.Scan.{put, close_string}
use jibs.Parser.Interpolation.{
  Builder, push_text, unescape, parts_on, no_builder, finished, flush, parse_interpolated_string,
}

-- A character as it is written in a string literal.
escape_char : ℕ → Chars
escape_char c =
    if c == 92
    then 92 ∷ 92 ∷ []
    else if c == 34
    then 92 ∷ 34 ∷ []
    else if c == 10
    then 92 ∷ 110 ∷ []
    else if c == 9
    then 92 ∷ 116 ∷ []
    else if c == 123
    then 92 ∷ 123 ∷ []
    else c ∷ []

pub escaped : Chars → Chars
escaped [] = []
escaped (c ∷ s) = escape_char c ++ escaped s

is_char : {c : ℕ} (d : ℕ) → (c == d) ≡ true → c ≡ d
is_char {c} d h = (==_iff c d).0 h

module _ (parse_f64 : Chars → ℕ) (format_f64 : ℕ → Chars) where
  -- A round of the loop reads an escaped character.
  one_char :
      (fuel at end c : ℕ) (rest : Chars) (b : Builder)
      → (on : ℕ) × (parts_on parse_f64 format_f64 (suc fuel) at end (escape_char c ++ rest) b
          ≡ parts_on parse_f64 format_f64 fuel on end rest (push_text (c ∷ []) b))
  unfolding escape_char parts_on unescape
  one_char fuel at end c rest b = elim (Bool-cases (c == 92)) [
    | inl backslash ↦ rw (is_char 92 backslash) (at + 1 + len_utf8 92, refl)
    | inr no_backslash ↦ elim (Bool-cases (c == 34)) [
      | inl quote ↦ rw (is_char 34 quote) (at + 1 + len_utf8 34, refl)
      | inr no_quote ↦ elim (Bool-cases (c == 10)) [
        | inl newline ↦ rw (is_char 10 newline) (at + 1 + len_utf8 110, refl)
        | inr no_newline ↦ elim (Bool-cases (c == 9)) [
          | inl tab ↦ rw (is_char 9 tab) (at + 1 + len_utf8 116, refl)
          | inr no_tab ↦ elim (Bool-cases (c == 123)) [
            | inl brace ↦ rw (is_char 123 brace) (at + 1 + len_utf8 123, refl)
            | inr plain ↦
                rw (no_backslash, no_quote, no_newline, no_tab, plain, parts_on)
                  (rw (no_backslash, plain) (at + len_utf8 c, refl))
          ]
        ]
      ]
    ]
  ]

  parts_escaped :
      (fuel at end : ℕ) (s : Chars) (b : Builder)
      → length s ≤ fuel
      → parts_on parse_f64 format_f64 fuel at end (escaped s) b ≡ push_text s b
  unfolding escaped parts_on
  parts_escaped zero at end [] b enough = ap (λ t. record b { text = t }) (sym (append-nil b.text))
  parts_escaped (suc fuel) at end [] b enough =
      ap (λ t. record b { text = t }) (sym (append-nil b.text))
  parts_escaped zero at end (c ∷ s) b enough = absurd (omega (arith, enough))
  parts_escaped (suc fuel) at end (c ∷ s) b enough =
      let (on, e) = one_char fuel at end c (escaped s) b in
      e
      ∙ (parts_escaped fuel on end s (push_text (c ∷ []) b) (omega (arith, enough))
          ∙ ap (λ t. record b { text = t }) (append_assoc b.text (c ∷ []) s))

length-escaped : (s : Chars) → length s ≤ length (escaped s)
unfolding escaped escape_char
length-escaped [] = omega arith
length-escaped (c ∷ s) = ground (arith, length-escaped s)

finished_text :
    (s : Chars)
    → finished (flush (push_text s no_builder)) ≡ ok (StringLiteral.text s StringLiteral.no_part)
finished_text [] = refl
finished_text (c ∷ s) = refl

close_plain :
    (c : ℕ) (t : Chars)
    → (c == 34) ≡ false
    → (c == 92) ≡ false
    → 0 < length t
    → close_string (c ∷ t) ≡ put c (close_string t)
unfolding close_string
close_plain c [] no_quote no_backslash some_text = absurd (omega (arith, some_text))
close_plain c (d ∷ t) no_quote no_backslash some_text = rw (no_quote, no_backslash) refl

abbrev put_all : Chars → Chars × Option Chars → Chars × Option Chars
put_all [] r = r
put_all (c ∷ s) r = put c (put_all s r)

close_char :
    (c : ℕ) (t : Chars)
    → 0 < length t
    → close_string (escape_char c ++ t) ≡ put_all (escape_char c) (close_string t)
unfolding escape_char close_string
close_char c t some_text = elim (Bool-cases (c == 92)) [
  | inl backslash ↦ rw backslash refl
  | inr no_backslash ↦ elim (Bool-cases (c == 34)) [
    | inl quote ↦ rw (no_backslash, quote) refl
    | inr no_quote ↦ elim (Bool-cases (c == 10)) [
      | inl newline ↦ rw (no_backslash, no_quote, newline) refl
      | inr no_newline ↦ elim (Bool-cases (c == 9)) [
        | inl tab ↦ rw (no_backslash, no_quote, no_newline, tab) refl
        | inr no_tab ↦ elim (Bool-cases (c == 123)) [
          | inl brace ↦ rw (no_backslash, no_quote, no_newline, no_tab, brace) refl
          | inr no_brace ↦
              rw (no_backslash, no_quote, no_newline, no_tab, no_brace)
                (close_plain c t no_quote no_backslash some_text)
        ]
      ]
    ]
  ]
]

put_all-append : (a b : Chars) (o : Option Chars) → put_all a (b, o) ≡ (a ++ b, o)
put_all-append [] b o = refl
put_all-append (c ∷ a) b o = ap (put c) (put_all-append a b o)

close_quote : (back : Chars) → close_string (34 ∷ back) ≡ ([], some back)
unfolding close_string
close_quote [] = refl
close_quote (c ∷ back) = refl

close_string-escaped :
    (s back : Chars) → close_string (escaped s ++ 34 ∷ back) ≡ (escaped s, some back)
unfolding escaped
close_string-escaped [] back = close_quote back
close_string-escaped (c ∷ s) back =
    ap close_string (append_assoc (escape_char c) (escaped s) (34 ∷ back))
    ∙ close_char c (escaped s ++ 34 ∷ back) (omega (arith, length-append (escaped s) (34 ∷ back)))
    ∙ ap (put_all (escape_char c)) (close_string-escaped s back)
    ∙ put_all-append (escape_char c) (escaped s) (some back)

-- A text is written with its backslashes, quotes, line feeds, tabs and opening braces escaped. Behind
-- a quote, the scanner takes it up to the closing quote, and the interpolation's parser then reads it
-- back as one part, the text.
pub string-escaped :
    (parse_f64 : Chars → ℕ) (format_f64 : ℕ → Chars) (s back : Chars) (base_offset : ℕ)
    → (close_string (escaped s ++ 34 ∷ back) ≡ (escaped s, some back))
      × (parse_interpolated_string parse_f64 format_f64 (escaped s) base_offset
          ≡ ok (StringLiteral.text s StringLiteral.no_part))
unfolding parse_interpolated_string
string-escaped parse_f64 format_f64 s back base_offset = (
  close_string-escaped s back,
  ap (λ b. finished (flush b))
        (parts_escaped parse_f64 format_f64 (length (escaped s) + 1) base_offset
          (base_offset + size (escaped s)) s no_builder (omega (arith, length-escaped s)))
      ∙ finished_text s,
)
