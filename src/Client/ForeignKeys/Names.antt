-- ===== src/Client/ForeignKeys/Names.antt =====
-- Names in backticks, against the way MySQL reads them.
use jibs.Prelude.{
  ℕ, zero, suc, Bool, true, false, List, [], ◌∷◌, ◌++◌, Option, none, some, ◌≡◌, ◌≢◌, refl, ap, ◌∙◌,
  arith, Bytes, codes, if◌then◌else◌, ◌==◌, ==_iff, length, drop, inl, inr, Bool-cases,
  append_assoc,
}
use jibs.Prelude.Replace.{replace, replace_from, starts_with, join}
use jibs.Client.ForeignKeys.{escape_ident, quote, quote_list}

abbrev add_front : ℕ → Option (Bytes × Bytes) → Option (Bytes × Bytes)
add_front c none = none
add_front c (some (s, rest)) = some (c ∷ s, rest)

-- What MySQL reads of a name behind its opening backtick, with what follows: two backticks are one.
-- The test tells whether the byte before was a backtick.
pub read_name : Bool → Bytes → Option (Bytes × Bytes)
read_name false [] = none
read_name true [] = some ([], [])
read_name false (c ∷ s) =
    let closing = read_name true s in
    let next = read_name false s in if c == b'`' then closing else add_front c next
read_name true (c ∷ s) =
    let next = read_name false s in if c == b'`' then add_front b'`' next else some ([], c ∷ s)

-- What follows a name is no backtick.
abbrev pub IsApart : Bytes → Type 0
IsApart [] = Unit
IsApart (c ∷ s) = c ≢ b'`'

read_name-byte :
    (c : ℕ) (s rest : Bytes)
    → read_name false (escape_ident (c ∷ s) ++ rest)
      ≡ add_front c (read_name false (escape_ident s ++ rest))
unfolding read_name escape_ident replace replace_from starts_with
read_name-byte c s rest = elim (Bool-cases (96 == c)) [
  | inl tick ↦ let same : 96 ≡ c = (==_iff 96 c).0 tick in rw (← same) refl
  | inr other ↦ let no_tick : (c == 96) ≡ false = ground arith in rw (other, no_tick) refl
]

read_name-escape_ident :
    (name rest : Bytes)
    → IsApart rest
    → read_name false (escape_ident name ++ 96 ∷ rest) ≡ some (name, rest)
unfolding read_name escape_ident
read_name-escape_ident [] [] apart = unfold read_name replace replace_from in refl
read_name-escape_ident [] (c ∷ rest) apart =
    let no_tick : (c == 96) ≡ false = ground arith in
    unfold read_name replace replace_from in rw no_tick refl
read_name-escape_ident (c ∷ name) rest apart =
    read_name-byte c name (96 ∷ rest) ∙ rw (read_name-escape_ident name rest apart) refl

abbrev add_name : Bytes → Option (List Bytes × Bytes) → Option (List Bytes × Bytes)
add_name name none = none
add_name name (some (names, rest)) = some (name ∷ names, rest)

-- Behind a name of a list: the next name behind a comma, or what follows the list.
abbrev read_more :
    (Bytes → Option (List Bytes × Bytes)) → Option (Bytes × Bytes) → Option (List Bytes × Bytes)
read_more names none = none
read_more names (some (name, s)) =
    if starts_with (codes ", ") s then add_name name (names (drop 2 s)) else some (name ∷ [], s)

-- What MySQL reads of a list of names in backticks, with what follows it.
pub read_names : ℕ → Bytes → Option (List Bytes × Bytes)
unfolding read_name starts_with
read_names zero s = none
read_names (suc most) [] = none
read_names (suc most) (c ∷ s) =
    if c == b'`' then read_more (read_names most) (read_name false s) else none

read_names-quote :
    (most : ℕ) (name rest : Bytes)
    → IsApart rest
    → read_names (suc most) (quote name ++ rest) ≡ read_more (read_names most) (some (name, rest))
unfolding read_names
read_names-quote most name rest apart =
    ap (λ s. read_more (read_names most) (read_name false s))
      (append_assoc (escape_ident name) (codes "`") rest)
    ∙ ap (read_more (read_names most)) (read_name-escape_ident name rest apart)

no_backtick : {c : ℕ} → (c == 96) ≡ false → c ≢ 96
no_backtick h = ground (arith, h)

-- A list of one name or more, whatever bytes the names hold, is read back from its text in front of
-- a closing parenthesis, and what follows is left.
pub read_names-quote_list :
    (name : Bytes) (names : List Bytes) (rest : Bytes)
    → read_names (length (name ∷ names)) (quote_list (name ∷ names) ++ 41 ∷ rest)
      ≡ some (name ∷ names, 41 ∷ rest)
unfolding quote_list starts_with join
read_names-quote_list name [] rest = read_names-quote 0 name (41 ∷ rest) (no_backtick refl)
read_names-quote_list name (next ∷ names) rest =
    let more = codes ", " ++ quote_list (next ∷ names) in
    ap (read_names (length (name ∷ next ∷ names))) (append_assoc (quote name) more (41 ∷ rest))
    ∙ read_names-quote (length (next ∷ names)) name (more ++ 41 ∷ rest) (no_backtick refl)
    ∙ ap (add_name name) (read_names-quote_list next names rest)
