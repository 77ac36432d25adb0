-- ===== src/Parser/Lexer/Trivia.antt =====
-- The trivia are skipped, all of them.
use jibs.Prelude.{
  ℕ, zero, suc, ◌+◌, ◌<◌, ◌≤◌, Bool, true, false, not, [], ◌∷◌, ◌++◌, none, some, ◌≡◌, ◌≢◌, refl,
  ap, sym, ◌∙◌, inl, inr, arith, codes, length, length-append, Bool-cases, Option-cases, All,
  append-nil, append_assoc,
}
use jibs.Prelude.Replace.{starts_with}
use jibs.Parser.Chars.{
  Chars, size, is_whitespace, span_while, span_while-append, span_while-All, find_split,
  find_split-append,
}
use jibs.Parser.Lexer.Laid.{IsTrivia, whitespace, comment, Laid, trivia}
use jibs.Parser.Lexer.{
  Lexer, moved, skip_comment, skip_whitespace, trivia_round, skip_trivia, is_nil,
}

abbrev NoNewline : Chars → Type 0
NoNewline s = All (λ c. c ≢ 10) s

find_newline :
    (s : Chars) {front back : Chars}
    → find_split (codes "\n") s ≡ some (front, back)
    → NoNewline front
unfolding find_split
find_newline [] {front} {back} h = cc h
find_newline (c ∷ s) {front} {back} h = elim (Bool-cases (starts_with (codes "\n") (c ∷ s))) [
  | inl here ↦ let found = rw here at h in let e : front ≡ [] = cc found in rw e tt
  | inr later ↦ elim (Option-cases (find_split (codes "\n") s)) [
    | inl missing ↦ cc (rw (later, missing) at h)
    | inr ((f, b), e) ↦
        let found = rw (later, e) at h in
        let same : front ≡ c ∷ f = cc found in
        rw same (unfold starts_with in ground arith, find_newline s e)
  ]
]

no_newline : (s : Chars) → find_split (codes "\n") s ≡ none → NoNewline s
unfolding find_split
no_newline [] h = tt
no_newline (c ∷ s) h = elim (Bool-cases (starts_with (codes "\n") (c ∷ s))) [
  | inl here ↦ cc (rw here at h)
  | inr later ↦ elim (Option-cases (find_split (codes "\n") s)) [
    | inl missing ↦ (unfold starts_with in ground arith, no_newline s missing)
    | inr ((f, b), e) ↦ cc (rw (later, e) at h)
  ]
]

-- A comment in front is trivia up to the end of its line.
abbrev Comment : Lexer → Type 0
Comment l =
    (front : Chars) × (back : Chars) × (l.rest ≡ front ++ back)
    × IsTrivia front
    × (0 < length front)
    × (skip_comment l ≡ moved front back l)

slashes_line :
    (line back : Chars)
    → starts_with (codes "//") (line ++ (codes "\n" ++ back)) ≡ true
    → starts_with (codes "//") line ≡ true
unfolding starts_with
slashes_line [] back h = ground arith
slashes_line (a ∷ []) back h = ground arith
slashes_line (a ∷ b ∷ line) back h = ground arith

slashes_pos : (line end : Chars) → starts_with (codes "//") line ≡ true → 0 < length (line ++ end)
unfolding starts_with
slashes_pos [] end h = cc h
slashes_pos (a ∷ line) end h = omega arith

skip_comment_lem : (l : Lexer) → starts_with (codes "//") l.rest ≡ true → Comment l
unfolding skip_comment size
skip_comment_lem l h = elim (Option-cases (find_split (codes "\n") l.rest)) [
  | inl missing ↦ (
    l.rest ++ [],
    [],
    sym (append-nil (l.rest ++ []) ∙ append-nil l.rest),
    comment l.rest [] h (no_newline l.rest missing) (inl refl),
    slashes_pos l.rest [] h,
    rw (append-nil l.rest, missing, skip_comment) refl,
  )
  | inr ((line, back), found) ↦
      let split = find_split-append (codes "\n") l.rest found in
      let begins = slashes_line line back (rw split at h) in
      (
        line ++ codes "\n",
        back,
        split ∙ sym (append_assoc line (codes "\n") back),
        comment line (codes "\n") begins (find_newline l.rest found) (inr refl),
        slashes_pos line (codes "\n") begins,
        rw (found, skip_comment) refl,
      )
]

shorter :
    {s : Chars} (front back : Chars) → s ≡ front ++ back → length s ≡ length front + length back
shorter front back e = ap length e ∙ length-append front back

Comment-shorter : (l : Lexer) → Comment l → length (skip_comment l).rest < length l.rest
Comment-shorter l (front, back, split, is, some_text, e) =
    rw e (omega (arith, shorter front back split, some_text))

module _ (parse_f64 : Chars → ℕ) (source : Chars) where
  -- Trivia were taken, and the text that is left is no longer.
  abbrev pub Skips : Lexer → Lexer → Type 0
  Skips l r = Laid parse_f64 source r × (length r.rest ≤ length l.rest)

  skip_whitespace_lem : (l : Lexer) → Laid parse_f64 source l → Skips l (skip_whitespace l)
  skip_whitespace_lem l h =
      let split = span_while-append is_whitespace l.rest in
      (
        trivia l (span_while is_whitespace l.rest).0 (span_while is_whitespace l.rest).1 h split
            (whitespace (span_while-All is_whitespace l.rest)),
        omega (
          arith,
          shorter (span_while is_whitespace l.rest).0 (span_while is_whitespace l.rest).1 split,
        ),
      )

  comment_Laid :
      (l : Lexer) → Laid parse_f64 source l → Comment l → Laid parse_f64 source (skip_comment l)
  comment_Laid l h (front, back, split, is, some_text, e) = rw e (trivia l front back h split is)

  trivia_round_lem : (l : Lexer) → Laid parse_f64 source l → Skips l (trivia_round l).0
  unfolding trivia_round
  trivia_round_lem l h =
      let (laid, less) = skip_whitespace_lem l h in
      elim (Bool-cases (starts_with (codes "//") (skip_whitespace l).rest)) [
        | inl begins ↦
            let found = skip_comment_lem (skip_whitespace l) begins in
            rw begins (
              comment_Laid (skip_whitespace l) laid found,
              omega (arith, Comment-shorter (skip_whitespace l) found, less),
            )
        | inr plain ↦ rw plain (laid, less)
      ]

  pub skip_trivia-Skips :
      (fuel : ℕ) (l : Lexer) → Laid parse_f64 source l → Skips l (skip_trivia fuel l)
  unfolding skip_trivia
  skip_trivia-Skips zero l h = (h, omega arith)
  skip_trivia-Skips (suc fuel) l h =
      let (laid, less) = trivia_round_lem l h in
      elim (Bool-cases (trivia_round l).1) [
        | inl again ↦
            let (more, lesser) = skip_trivia-Skips fuel (trivia_round l).0 laid in
            rw again (more, omega (arith, less, lesser))
        | inr done ↦ rw done (laid, less)
      ]

-- No whitespace and no comment stand in front.
abbrev pub Settled : Chars → Type 0
Settled s = ((span_while is_whitespace s).0 ≡ []) × (starts_with (codes "//") s ≡ false)

span_while_stop : (test : ℕ → Bool) (s : Chars) → (span_while test (span_while test s).1).0 ≡ []
unfolding span_while
span_while_stop test [] = refl
span_while_stop test (c ∷ s) = elim (Bool-cases (test c)) [
  | inl pass ↦ rw pass (span_while_stop test s)
  | inr stop ↦ rw (stop, stop) refl
]

is_nil_pos : (s : Chars) → not (is_nil s) ≡ true → 0 < length s
is_nil_pos [] h = cc h
is_nil_pos (c ∷ s) h = omega arith

settled : (l : Lexer) → (trivia_round l).1 ≡ false → Settled (trivia_round l).0.rest
unfolding trivia_round
settled l h = elim (Bool-cases (starts_with (codes "//") (skip_whitespace l).rest)) [
  | inl begins ↦ cc (rw begins at h)
  | inr plain ↦ rw plain (span_while_stop is_whitespace l.rest, plain)
]

progress : (l : Lexer) → (trivia_round l).1 ≡ true → length (trivia_round l).0.rest < length l.rest
unfolding trivia_round
progress l h = elim (Bool-cases (starts_with (codes "//") (skip_whitespace l).rest)) [
  | inl begins ↦
      let found = skip_comment_lem (skip_whitespace l) begins in
      let split = span_while-append is_whitespace l.rest in
      let less = Comment-shorter (skip_whitespace l) found in
      rw begins (
        omega (
          arith,
          less,
          shorter (span_while is_whitespace l.rest).0 (span_while is_whitespace l.rest).1 split,
        ))
  | inr plain ↦
      let split = span_while-append is_whitespace l.rest in
      let some_text = is_nil_pos (span_while is_whitespace l.rest).0 (rw plain at h) in
      rw plain (
        omega (
          arith,
          shorter (span_while is_whitespace l.rest).0 (span_while is_whitespace l.rest).1 split,
          some_text,
        ))
]

-- A number of rounds above the length of the text skips all the trivia.
pub skip_trivia_done :
    (fuel : ℕ) (l : Lexer) → length l.rest < fuel → Settled (skip_trivia fuel l).rest
unfolding skip_trivia
skip_trivia_done zero l enough = absurd (omega (arith, enough))
skip_trivia_done (suc fuel) l enough = elim (Bool-cases (trivia_round l).1) [
  | inl again ↦
      rw again (skip_trivia_done fuel (trivia_round l).0 (omega (arith, progress l again, enough)))
  | inr done ↦ rw done (settled l done)
]
