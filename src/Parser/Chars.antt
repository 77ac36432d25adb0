-- ===== src/Parser/Chars.antt =====
-- Source text, and the tests of the standard library on its characters.
--
-- A `&str` is the list of its code points. Positions in it are byte offsets, as in the source: a
-- character takes `len_utf8` bytes, and `size` bytes are in a text.
use jibs.Prelude.{
  ℕ, ◌+◌, ◌<◌, Bool, true, ◌&&◌, ◌||◌, List, [], ◌∷◌, ◌++◌, Option, none, some, ◌≡◌, refl, ap, inl,
  inr, arith, if◌then◌else◌, ltb, leb, ◌==◌, Bool-cases, Option-cases, All, ◌∙◌,
}
use jibs.Prelude.Replace.{starts_with}

abbrev pub Chars : Type 0
Chars = List ℕ

-- `char::len_utf8`
unfoldable pub len_utf8 : ℕ → ℕ
len_utf8 c = if ltb c 0x80 then 1 else if ltb c 0x800 then 2 else if ltb c 0x10000 then 3 else 4

-- `str::len`
unfoldable pub size : Chars → ℕ
unfolding len_utf8
size [] = 0
size (c ∷ s) = len_utf8 c + size s

abbrev within : ℕ → ℕ → ℕ → Bool
within lo hi c = leb lo c && leb c hi

-- `char::is_whitespace`: the characters with the Unicode property White_Space.
unfoldable pub is_whitespace : ℕ → Bool
is_whitespace c =
    within 0x9 0xD c
    || c == 0x20
    || c == 0x85
    || c == 0xA0
    || c == 0x1680
    || within 0x2000 0x200A c
    || c == 0x2028
    || c == 0x2029
    || c == 0x202F
    || c == 0x205F
    || c == 0x3000

unfoldable pub is_digit : ℕ → Bool
is_digit c = within b'0' b'9' c

unfoldable pub is_ascii_alphabetic : ℕ → Bool
is_ascii_alphabetic c = within b'a' b'z' c || within b'A' b'Z' c

unfoldable pub is_ident_char : ℕ → Bool
unfolding is_digit is_ascii_alphabetic
is_ident_char c = is_ascii_alphabetic c || is_digit c || c == b'_'

-- The longest front of characters that pass the test, and the rest.
unfoldable pub span_while : (ℕ → Bool) → Chars → Chars × Chars
span_while test [] = ([], [])
span_while test (c ∷ s) =
    let more = span_while test s in if test c then (c ∷ more.0, more.1) else ([], c ∷ s)

-- What is left behind a number of characters.
abbrev pub behind : Chars → Chars → Chars
behind [] s = s
behind (p ∷ ps) [] = []
behind (p ∷ ps) (c ∷ s) = behind ps s

abbrev pub with_front : ℕ → Option (Chars × Chars) → Option (Chars × Chars)
with_front c none = none
with_front c (some (front, back)) = some (c ∷ front, back)

-- `find`: the text before the first occurrence of a pattern, and the text behind it.
unfoldable pub find_split : Chars → Chars → Option (Chars × Chars)
unfolding starts_with
find_split pattern [] = none
find_split pattern (c ∷ s) =
    let later = with_front c (find_split pattern s) in
    if starts_with pattern (c ∷ s) then some ([], behind pattern (c ∷ s)) else later

pub len_utf8_pos : (c : ℕ) → 0 < len_utf8 c
unfolding len_utf8
len_utf8_pos c = ground arith

pub size-append : (a b : Chars) → size (a ++ b) ≡ size a + size b
unfolding size
size-append [] b = omega arith
size-append (c ∷ a) b = omega (arith, size-append a b)

pub span_while-append :
    (test : ℕ → Bool) (s : Chars) → s ≡ (span_while test s).0 ++ (span_while test s).1
unfolding span_while
span_while-append test [] = refl
span_while-append test (c ∷ s) = elim (Bool-cases (test c)) [
  | inl pass ↦ rw pass (ap (λ t. c ∷ t) (span_while-append test s))
  | inr stop ↦ rw stop refl
]

pub span_while-All : (test : ℕ → Bool) (s : Chars) → All (λ c. test c ≡ true) (span_while test s).0
unfolding span_while
span_while-All test [] = tt
span_while-All test (c ∷ s) = elim (Bool-cases (test c)) [
  | inl pass ↦ rw pass (pass, span_while-All test s)
  | inr stop ↦ rw stop tt
]

pub starts_with-behind : (p s : Chars) → starts_with p s ≡ true → s ≡ p ++ behind p s
unfolding starts_with
starts_with-behind [] s h = refl
starts_with-behind (p ∷ ps) [] h = cc
starts_with-behind (p ∷ ps) (c ∷ s) h = ground (arith, starts_with-behind ps s)

pub find_split-append :
    (pattern s : Chars) {front back : Chars}
    → find_split pattern s ≡ some (front, back)
    → s ≡ front ++ (pattern ++ back)
unfolding find_split
find_split-append pattern [] {front} {back} h = cc h
find_split-append pattern (c ∷ s) {front} {back} h =
    elim (Bool-cases (starts_with pattern (c ∷ s))) [
      | inl here ↦ let found = rw here at h in starts_with-behind pattern (c ∷ s) here ∙ cc found
      | inr later ↦ elim (Option-cases (find_split pattern s)) [
        | inl missing ↦ cc (rw (later, missing) at h)
        | inr ((f, b), e) ↦
            let found = rw (later, e) at h in
            ap (λ t. c ∷ t) (find_split-append pattern s e) ∙ cc found
      ]
    ]
