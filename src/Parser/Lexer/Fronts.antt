-- ===== src/Parser/Lexer/Fronts.antt =====
-- What the scanner's loops find: the contents of strings and regular expressions, the operators.
use jibs.Prelude.{
  ℕ, ◌<◌, length, length-append, append-nil, append_assoc, All-In, Bool, true, false, List, [], ◌∷◌,
  ◌++◌, Option, none, some, ◌≡◌, ◌≢◌, refl, ap, sym, ◌∙◌, inl, inr, arith, ◌==◌, ==_iff, Bool-cases,
  Option-cases, All, In,
}
use jibs.Prelude.Replace.{starts_with}
use jibs.Parser.Chars.{Chars, is_whitespace, span_while}
use jibs.Parser.Lexer.Scan.{put, close_string, regex_body, lookup_operator, lookup_mark}
use jibs.Parser.Lexer.Laid.{IsContent, empty, escape, plain}
use jibs.Parser.Token.{Token, operators}

is_char : {c d : ℕ} → (c == d) ≡ true → c ≡ d
is_char {c} {d} h = (==_iff c d).0 h

is_other : {c d : ℕ} → (c == d) ≡ false → c ≢ d
is_other h = ground (arith, h)

-- The content of a closed string, and what an open one holds.
abbrev pub Closed : Chars → Chars × Option Chars → Type 0
Closed s (content, some back) = IsContent content × (s ≡ content ++ 34 ∷ back)
Closed s (content, none) = s ≡ content

put_plain :
    (c : ℕ) (s : Chars) (r : Chars × Option Chars)
    → c ≢ 34
    → c ≢ 92
    → Closed s r
    → Closed (c ∷ s) (put c r)
put_plain c s (content, some back) not_quote not_escape (is, e) =
    (plain c not_escape not_quote is, ap (λ t. c ∷ t) e)
put_plain c s (content, none) not_quote not_escape e = ap (λ t. c ∷ t) e

put_escape :
    (c d : ℕ) (s : Chars) (r : Chars × Option Chars)
    → c ≡ 92
    → Closed s r
    → Closed (c ∷ d ∷ s) (put c (put d r))
put_escape c d s (content, some back) is_escape (is, e) =
    (escape c d is_escape is, ap (λ t. c ∷ d ∷ t) e)
put_escape c d s (content, none) is_escape e = ap (λ t. c ∷ d ∷ t) e

pub close_string_lem : (s : Chars) → Closed s (close_string s)
unfolding close_string
close_string_lem [] = refl
close_string_lem (c ∷ []) = elim (Bool-cases (c == 34)) [
  | inl quote ↦ rw quote (empty, ap (λ x. x ∷ []) (is_char quote))
  | inr other ↦ rw other refl
]
close_string_lem (c ∷ d ∷ s) = elim (Bool-cases (c == 34)) [
  | inl quote ↦ rw quote (empty, ap (λ x. x ∷ d ∷ s) (is_char quote))
  | inr other ↦ elim (Bool-cases (c == 92)) [
    | inl is_escape ↦
        rw (other, is_escape)
          (put_escape c d s (close_string s) (is_char is_escape) (close_string_lem s))
    | inr ordinary ↦
        rw (other, ordinary)
          (put_plain c (d ∷ s) (close_string (d ∷ s)) (is_other other) (is_other ordinary)
            (close_string_lem (d ∷ s)))
  ]
]

pub regex_body_lem :
    (s : Chars) {body back : Chars}
    → regex_body s ≡ some (body, back)
    → All (λ c. (c ≢ 47) × (is_whitespace c ≢ true)) body × (s ≡ body ++ 47 ∷ back)
unfolding regex_body
regex_body_lem [] h = cc h
regex_body_lem (c ∷ s) {body} {back} h = elim (Bool-cases (c == 47)) [
  | inl slash ↦
      let found = rw slash at h in
      let none_before : [] ≡ body = cc found in
      let after : s ≡ back = cc found in rw (sym none_before, after, is_char slash) (tt, refl)
  | inr other ↦ elim (Bool-cases (is_whitespace c)) [
    | inl blank ↦ cc (rw (other, blank) at h)
    | inr inner ↦ elim (Option-cases (regex_body s)) [
      | inl missing ↦ cc (rw (other, inner, missing) at h)
      | inr ((b, k), e) ↦
          let found = rw (other, inner, e) at h in
          let same : c ∷ b ≡ body = cc found in
          let after : k ≡ back = cc found in
          let (all, split) = regex_body_lem s e in
          rw (sym same, sym after)
            (((is_other other, λ blank. cc (sym inner ∙ blank)), all), ap (λ t. c ∷ t) split)
    ]
  ]
]

pub lookup_operator_lem :
    (table : List (Chars × Token)) (s : Chars) {text : Chars} {t : Token}
    → lookup_operator table s ≡ some (text, t)
    → In (text, t) table × (starts_with text s ≡ true)
unfolding lookup_operator
lookup_operator_lem [] s h = cc h
lookup_operator_lem ((p, u) ∷ table) s {text} {t} h = elim (Bool-cases (starts_with p s)) [
  | inl here ↦
      let found = rw here at h in
      let same : p ≡ text = cc found in (inl (cc found), rw (sym same) here)
  | inr later ↦
      let (found, begins) = lookup_operator_lem table s (rw later at h) in (inr found, begins)
]

pub lookup_mark_lem :
    (c : ℕ) (table : List (ℕ × Token)) {t : Token} → lookup_mark c table ≡ some t → In (c, t) table
unfolding lookup_mark
lookup_mark_lem c [] h = cc h
lookup_mark_lem c ((m, u) ∷ table) {t} h = elim (Bool-cases (c == m)) [
  | inl here ↦
      let found = rw here at h in let same : u ≡ t = cc found in inl (rw (is_char here, same) refl)
  | inr later ↦ inr (lookup_mark_lem c table (rw later at h))
]

pub less : (s front back : Chars) → s ≡ front ++ back → 0 < length front → length back < length s
less s front back e h = rw e (omega (arith, length-append front back, h))

-- A quoted text and its quotes, at the front.
pub quoted :
    {s inner : Chars} (before after body back : Chars)
    → s ≡ before ++ inner
    → inner ≡ body ++ (after ++ back)
    → s ≡ (before ++ (body ++ after)) ++ back
quoted {s} {inner} before after body back e split =
    e
    ∙ ap (λ t. before ++ t) (split ∙ sym (append_assoc body after back))
    ∙ sym (append_assoc before (body ++ after) back)

pub to_end : {s : Chars} → s ≡ s ++ []
to_end {s} = sym (append-nil s)

-- The longest front that passes a test holds the first character, where this passes it.
pub span_pos :
    (test : ℕ → Bool) (c : ℕ) (s : Chars) {text : Chars}
    → text ≡ c ∷ s
    → test c ≡ true
    → 0 < length (span_while test text).0
unfolding span_while
span_pos test c s e pass = rw (e, pass) (omega arith)

-- No operator is empty.
pub operators_pos : (text : Chars) (t : Token) → In (text, t) operators → 0 < length text
operators_pos text t h =
    let some_text : All (λ o. 0 < length o.0) operators = omega arith in
    All-In (λ o. 0 < length o.0) operators some_text h
