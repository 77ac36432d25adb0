-- ===== src/Server/Keys/Unify.antt =====
-- The two protocols of MySQL give one number two forms, typed and as text: both have one key.
use jibs.Prelude.{
  ℕ, ap, ◌≤◌, ◌<◌, ◌^◌, true, [], ◌∷◌, none, some, ◌≡◌, refl, inl, inr, arith, Bytes, bytes_eq_refl,
  leb, ◌==◌, ◌∙◌, ltb, Bool-cases, Option-cases,
}
use jibs.Prelude.Int.{ℤ, pos, max_i64, in_i64}
use jibs.Prelude.Parse.{
  is_digit, digits_onto, digits, unsigned_part, parse_i64, parse_u64, lead, utf8_rest, from_utf8,
}
use jibs.Server.Keys.Values.{MySqlValue}
use jibs.Server.Keys.{
  signed, unsigned, parse_i64_canonical, parse_u64_canonical, read_number, normalize_value,
  value_to_compact_key,
}

-- What is used of the itoa crate: its text is read back by the standard library's `parse`, and the
-- two types print a number alike.
pub record ItoaLaws (format_i64 : ℤ → Bytes) (format_u64 : ℕ → Bytes) : Type 0 where
  pub reads_i64 : (i : ℤ) → in_i64 i ≡ true → parse_i64 (format_i64 i) ≡ some i
  pub reads_u64 : (u : ℕ) → u < 2 ^ 64 → parse_u64 (format_u64 u) ≡ some u
  pub alike : (u : ℕ) → u ≤ max_i64 → format_u64 u ≡ format_i64 (pos u)

digit_lead : (c : ℕ) → is_digit c ≡ true → lead c ≡ some (0, 0, 0)
unfolding is_digit lead
digit_lead c h = ground arith

digits_onto-utf8 :
    (s : Bytes) (n : ℕ) {m : ℕ} (lo hi : ℕ) → digits_onto n s ≡ some m → utf8_rest 0 lo hi s ≡ true
unfolding digits_onto utf8_rest
digits_onto-utf8 [] n lo hi h = refl
digits_onto-utf8 (c ∷ s) n lo hi h = elim (Bool-cases (is_digit c)) [
  | inr bad ↦ cc (rw bad at h)
  | inl good ↦ rw (digit_lead c good, utf8_rest) (digits_onto-utf8 s _ 0 0 (rw good at h))
]

digits-utf8 : (s : Bytes) {m : ℕ} → digits s ≡ some m → from_utf8 s ≡ true
unfolding digits from_utf8
digits-utf8 [] h = cc
digits-utf8 (c ∷ s) h = digits_onto-utf8 (c ∷ s) 0 0 0 h

-- A sign in front changes nothing: a plus or a minus is an ASCII byte too.
utf8_sign : (c : ℕ) (s : Bytes) → ltb c 0x80 ≡ true → from_utf8 s ≡ true → from_utf8 (c ∷ s) ≡ true
unfolding from_utf8 utf8_rest lead
utf8_sign c s small h = rw (small, utf8_rest) h

unsigned_part-utf8 : (s : Bytes) {m : ℕ} → unsigned_part s ≡ some m → from_utf8 s ≡ true
unfolding unsigned_part
unsigned_part-utf8 [] h = cc
unsigned_part-utf8 (c ∷ s) h = elim (Bool-cases (c == b'+')) [
  | inl plus ↦ utf8_sign c s (ground arith) (digits-utf8 s (rw plus at h))
  | inr digit ↦ digits-utf8 (c ∷ s) (rw digit at h)
]

parse_u64-utf8 : (s : Bytes) {m : ℕ} → parse_u64 s ≡ some m → from_utf8 s ≡ true
unfolding parse_u64
parse_u64-utf8 s h = elim (Option-cases (unsigned_part s)) [
  | inl missing ↦ ground arith
  | inr (n, e) ↦ unsigned_part-utf8 s e
]

parse_i64-utf8 : (s : Bytes) {i : ℤ} → parse_i64 s ≡ some i → from_utf8 s ≡ true
unfolding parse_i64
parse_i64-utf8 [] h = cc
parse_i64-utf8 (c ∷ s) h = elim (Bool-cases (c == b'-')) [
  | inl minus ↦ elim (Option-cases (digits s)) [
    | inl missing ↦ ground arith
    | inr (n, e) ↦ utf8_sign c s (ground arith) (digits-utf8 s e)
  ]
  | inr plain ↦ elim (Option-cases (unsigned_part (c ∷ s))) [
    | inl missing ↦ ground arith
    | inr (n, e) ↦ unsigned_part-utf8 (c ∷ s) e
  ]
]

-- A text of more than i64::MAX is no i64.
parse_i64-large : (s : Bytes) (u : ℕ) → parse_u64 s ≡ some u → max_i64 < u → parse_i64 s ≡ none
unfolding parse_i64 parse_u64
parse_i64-large [] u h large = refl
parse_i64-large (c ∷ s) u h large = elim (Bool-cases (c == b'-')) [
  | inl minus ↦ unfold unsigned_part digits digits_onto is_digit in ground arith
  | inr plain ↦ ground arith
]

module _ (format_i64 : ℤ → Bytes) (format_u64 : ℕ → Bytes)
    (itoa : ItoaLaws format_i64 format_u64) where
  read_number-i64 :
      (i : ℤ) → in_i64 i ≡ true → read_number format_i64 format_u64 (format_i64 i) ≡ signed i
  unfolding read_number parse_i64_canonical
  read_number-i64 i h =
      let e = itoa.reads_i64 i h in
      ground (arith, parse_i64-utf8 (format_i64 i) e, bytes_eq_refl (format_i64 i))

  -- Where the text of the itoa crate is read back by `parse`, an i64 sent as that text has the key,
  -- and the normal form, of the same number sent as an integer.
  pub value_to_compact_key-i64 :
      (i : ℤ)
      → in_i64 i ≡ true
      → (value_to_compact_key format_i64 format_u64 (MySqlValue.bytes (format_i64 i))
          ≡ value_to_compact_key format_i64 format_u64 (MySqlValue.int i))
        × (normalize_value format_i64 format_u64 (MySqlValue.bytes (format_i64 i))
            ≡ normalize_value format_i64 format_u64 (MySqlValue.int i))
  unfolding value_to_compact_key normalize_value
  value_to_compact_key-i64 i h =
      let read = read_number-i64 i h in
      (rw (read, value_to_compact_key) refl, rw (read, normalize_value) refl)

  read_number-small :
      (u : ℕ) → u ≤ max_i64 → read_number format_i64 format_u64 (format_u64 u) ≡ signed (pos u)
  read_number-small u small =
      ap (read_number format_i64 format_u64) (itoa.alike u small)
      ∙ read_number-i64 (pos u) (ground arith)

  read_number-u64 :
      (u : ℕ)
      → max_i64 < u
      → u < 2 ^ 64
      → read_number format_i64 format_u64 (format_u64 u) ≡ unsigned u
  unfolding read_number parse_i64_canonical parse_u64_canonical
  read_number-u64 u large h =
      let e = itoa.reads_u64 u h in
      ground (
        arith,
        parse_u64-utf8 (format_u64 u) e,
        parse_i64-large (format_u64 u) u e,
        bytes_eq_refl (format_u64 u),
      )

  -- Where the text of the itoa crate is read back by `parse`, and its two types print a number alike,
  -- an unsigned number below 2^64, on either side of the largest i64, sent as that text has the key,
  -- and the normal form, of the number sent as an unsigned integer.
  pub value_to_compact_key-u64 :
      (u : ℕ)
      → u < 2 ^ 64
      → (value_to_compact_key format_i64 format_u64 (MySqlValue.bytes (format_u64 u))
          ≡ value_to_compact_key format_i64 format_u64 (MySqlValue.uint u))
        × (normalize_value format_i64 format_u64 (MySqlValue.bytes (format_u64 u))
            ≡ normalize_value format_i64 format_u64 (MySqlValue.uint u))
  unfolding value_to_compact_key normalize_value
  value_to_compact_key-u64 u h = elim (Bool-cases (leb u max_i64)) [
    | inl small ↦
        let read = read_number-small u (ground arith) in
        (rw (read, value_to_compact_key, small) refl, rw (read, normalize_value, small) refl)
    | inr large ↦
        let read = read_number-u64 u (ground arith) h in
        (rw (read, value_to_compact_key, large) refl, rw (read, normalize_value, large) refl)
  ]
