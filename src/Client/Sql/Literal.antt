-- ===== src/Client/Sql/Literal.antt =====
-- A string as a literal of a statement, against the way MySQL reads one.
use jibs.Prelude.{
  ℕ, [], ◌∷◌, ◌++◌, Option, none, some, ◌≡◌, ◌≢◌, refl, ◌∙◌, arith, All, Bytes, codes,
  if◌then◌else◌, ◌==◌, ==_iff, false, inl, inr, Bool-cases, append_assoc,
}
use jibs.Prelude.Replace.{replace, replace_from, starts_with}
use jibs.Protocol.Plan
use jibs.Client.Sql.{quoted, value_to_sql}

-- A byte in front of what is read behind it.
abbrev add_front : ℕ → Option (Bytes × Bytes) → Option (Bytes × Bytes)
add_front c none = none
add_front c (some (s, rest)) = some (c ∷ s, rest)

-- Where a reader of a literal is: among plain bytes, behind a quote, or behind a backslash.
pub data Place : Type 0 where
  plain behind_quote behind_backslash : Place

-- What MySQL reads behind the opening quote, in its default mode, with the rest of the statement: two
-- quotes are one, a backslash takes the byte behind it, and `none` is a literal that does not end. The
-- names of control bytes behind a backslash are left out.
pub read_rest : Place → Bytes → Option (Bytes × Bytes)
read_rest plain [] = none
read_rest behind_quote [] = some ([], [])
read_rest behind_backslash [] = none
read_rest plain (c ∷ s) =
    let closing = read_rest behind_quote s in
    let taken = read_rest behind_backslash s in
    let next = read_rest plain s in
    if c == b'\'' then closing else if c == b'\\' then taken else add_front c next
read_rest behind_quote (c ∷ s) =
    let next = read_rest plain s in if c == b'\'' then add_front b'\'' next else some ([], c ∷ s)
read_rest behind_backslash (c ∷ s) = let next = read_rest plain s in add_front c next

pub read_literal : Bytes → Option (Bytes × Bytes)
unfolding read_rest
read_literal [] = none
read_literal (c ∷ s) = if c == b'\'' then read_rest plain s else none

-- What follows the literal is no quote.
abbrev pub IsApart : Bytes → Type 0
IsApart [] = Unit
IsApart (c ∷ s) = c ≢ b'\''

abbrev pub IsPlain : ℕ → Type 0
IsPlain c = c ≢ b'\\'

abbrev doubled : Bytes → Bytes
doubled = replace (codes "'") (codes "''")

-- One byte of a string, between the text that is written and the text that is read.
read_rest-byte :
    (c : ℕ) (s rest : Bytes)
    → IsPlain c
    → read_rest plain (doubled (c ∷ s) ++ rest) ≡ add_front c (read_rest plain (doubled s ++ rest))
unfolding read_rest replace replace_from starts_with
read_rest-byte c s rest h = elim (Bool-cases (b'\'' == c)) [
  | inl quote ↦ let same : b'\'' ≡ c = (==_iff b'\'' c).0 quote in rw (← same) refl
  | inr other ↦
      let not_quote : (c == b'\'') ≡ false = ground arith in
      let not_backslash : (c == b'\\') ≡ false = ground arith in
      rw (other, not_quote, not_backslash) refl
]

read_rest-doubled :
    (s rest : Bytes)
    → All IsPlain s
    → IsApart rest
    → read_rest plain (doubled s ++ b'\'' ∷ rest) ≡ some (s, rest)
read_rest-doubled [] [] h apart = unfold read_rest replace replace_from in refl
read_rest-doubled [] (c ∷ rest) h apart =
    let not_quote : (c == b'\'') ≡ false = ground arith in
    unfold read_rest replace replace_from in rw not_quote refl
read_rest-doubled (c ∷ s) rest (fits, h) apart =
    read_rest-byte c s (b'\'' ∷ rest) fits ∙ rw (read_rest-doubled s rest h apart) refl

read_rest-backslash :
    (s : Bytes) → All IsPlain s → read_rest plain (doubled (s ++ 92 ∷ []) ++ b'\'' ∷ []) ≡ none
read_rest-backslash [] h = unfold read_rest replace replace_from starts_with in refl
read_rest-backslash (c ∷ s) (fits, h) =
    read_rest-byte c (s ++ 92 ∷ []) (b'\'' ∷ []) fits ∙ rw (read_rest-backslash s h) refl

module _ (format_f64 : ℕ → Bytes) (s : Bytes) (plain_bytes : All IsPlain s) where
  -- A string without a backslash is read back from its literal, quotes and all, and what follows the
  -- literal is left, if it does not begin with a quote.
  pub value_to_sql-string :
      (rest : Bytes)
      → IsApart rest
      → read_literal (value_to_sql format_f64 (Plan.string s) ++ rest) ≡ some (s, rest)
  unfolding value_to_sql quoted read_literal
  value_to_sql-string rest apart =
      rw (append_assoc (doubled s) (codes "'") rest) (read_rest-doubled s rest plain_bytes apart)

  -- With a backslash at its end the same string is written as a literal that does not end: the
  -- closing quote is read as a byte of the string.
  pub value_to_sql-backslash :
      read_literal (value_to_sql format_f64 (Plan.string (s ++ 92 ∷ []))) ≡ none
  unfolding value_to_sql quoted read_literal
  value_to_sql-backslash = read_rest-backslash s plain_bytes
