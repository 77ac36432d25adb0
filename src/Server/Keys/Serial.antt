-- ===== src/Server/Keys/Serial.antt =====
-- `serialize_pk` is a prefix code: a serialized key can be read back in one way only.
use jibs.Prelude.{
  ℕ, ◌-◌, ◌^◌, ◌<◌, Bool, true, false, List, [], ◌∷◌, ◌++◌, Option, none, some, ◌≡◌, refl, sym, ap,
  ◌∙◌, map, arith, if◌then◌else◌, leb, ◌==◌, Bytes, length, take, drop, append_assoc,
  take-length-append, drop-length-append, All,
}
use jibs.Prelude.Int.{ℤ, pos, negsuc, i64_bits, max_i64, in_i64}
use jibs.Prelude.Words.{to_le_bytes, from_le_bytes, length-to_le_bytes, from_le_bytes-to_le_bytes}
use jibs.Server.Keys.Values.{MySqlValue, null, bytes, int, uint, float, double, date, time}
use jibs.Server.Keys.{serialize_value, serialize_pk, normalize_value}

-- The ranges of the machine integers in a value, and a length that a u32 holds.
abbrev pub IsSized : MySqlValue → Type 0
IsSized null = Unit
IsSized (bytes b) = length b < 2 ^ 32
IsSized (int i) = in_i64 i ≡ true
IsSized (uint u) = u < 2 ^ 64
IsSized (float f) = f < 2 ^ 32
IsSized (double d) = d < 2 ^ 64
IsSized (date y m d h mi s us) = (y < 2 ^ 16) × (us < 2 ^ 32)
IsSized (time neg d h m s us) = (d < 2 ^ 32) × (us < 2 ^ 32)

-- A word of `w` bytes at the front, and what follows.
module _ (w n : ℕ) (rest : Bytes) (fits : n < 256 ^ w) where
  pub read_word : from_le_bytes (take w (to_le_bytes w n ++ rest)) ≡ n
  read_word =
      let e = take-length-append (to_le_bytes w n) rest in
      rw (rw length-to_le_bytes at e) (from_le_bytes-to_le_bytes w n fits)

  pub skip_word : drop w (to_le_bytes w n ++ rest) ≡ rest
  skip_word = rw length-to_le_bytes at (drop-length-append (to_le_bytes w n) rest)

of_bits : ℕ → ℤ
of_bits n = if leb n max_i64 then pos n else negsuc (2 ^ 64 - 1 - n)

of_bits-i64_bits : (i : ℤ) → in_i64 i ≡ true → of_bits (i64_bits i) ≡ i
unfolding of_bits
of_bits-i64_bits (pos n) h = ground arith
of_bits-i64_bits (negsuc n) h = ground arith

read_date : ℕ → Bytes → Option (MySqlValue × Bytes)
read_date y (m ∷ d ∷ h ∷ mi ∷ s ∷ r) = some (date y m d h mi s (from_le_bytes (take 4 r)), drop 4 r)
read_date y _ = none

read_time : Bool → ℕ → Bytes → Option (MySqlValue × Bytes)
read_time neg d (h ∷ m ∷ s ∷ r) = some (time neg d h m s (from_le_bytes (take 4 r)), drop 4 r)
read_time neg d _ = none

read_signed_time : Bytes → Option (MySqlValue × Bytes)
read_signed_time [] = none
read_signed_time (neg ∷ r) = read_time (neg == 1) (from_le_bytes (take 4 r)) (drop 4 r)

read_bytes : ℕ → Bytes → Option (MySqlValue × Bytes)
read_bytes n r = some (bytes (take n r), drop n r)

-- A reader of one serialized value, behind its tag.
read_tagged : ℕ → Bytes → Option (MySqlValue × Bytes)
read_tagged tag s =
    if tag == 0
    then some (null, s)
    else if tag == 1
    then some (int (of_bits (from_le_bytes (take 8 s))), drop 8 s)
    else if tag == 2
    then some (uint (from_le_bytes (take 8 s)), drop 8 s)
    else if tag == 3
    then read_bytes (from_le_bytes (take 4 s)) (drop 4 s)
    else if tag == 4
    then some (float (from_le_bytes (take 4 s)), drop 4 s)
    else if tag == 5
    then some (double (from_le_bytes (take 8 s)), drop 8 s)
    else if tag == 6
    then read_date (from_le_bytes (take 2 s)) (drop 2 s)
    else read_signed_time s

read_value : Bytes → Option (MySqlValue × Bytes)
unfolding read_tagged
read_value [] = none
read_value (tag ∷ s) = read_tagged tag s

i64_bits-lt : (i : ℤ) → in_i64 i ≡ true → i64_bits i < 256 ^ 8
i64_bits-lt (pos n) h = ground arith
i64_bits-lt (negsuc n) h = ground arith

sign_read : (neg : Bool) → ((if neg then 1 else 0) == 1) ≡ neg
sign_read true = refl
sign_read false = refl

read_value-serialize_value :
    (v : MySqlValue) (rest : Bytes)
    → IsSized v
    → read_value (serialize_value v ++ rest) ≡ some (v, rest)
unfolding read_value serialize_value
read_value-serialize_value null rest h = refl
read_value-serialize_value (int i) rest h = rw (
  read_word 8 (i64_bits i) rest (i64_bits-lt i h),
  skip_word 8 (i64_bits i) rest (i64_bits-lt i h),
  of_bits-i64_bits i h,
)
read_value-serialize_value (uint u) rest h =
    rw (read_word 8 u rest (omega arith), skip_word 8 u rest (omega arith))
read_value-serialize_value (bytes b) rest h = rw append_assoc (
    rw
      (
        read_word 4 (length b) (b ++ rest) (omega arith),
        skip_word 4 (length b) (b ++ rest) (omega arith),
      )
      (unfold read_bytes in rw (take-length-append b rest, drop-length-append b rest)))
read_value-serialize_value (float f) rest h =
    rw (read_word 4 f rest (omega arith), skip_word 4 f rest (omega arith))
read_value-serialize_value (double d) rest h =
    rw (read_word 8 d rest (omega arith), skip_word 8 d rest (omega arith))
read_value-serialize_value (date y m d h mi s us) rest r = rw append_assoc (
    rw (read_word 2 y _ (omega arith), skip_word 2 y _ (omega arith))
      (unfold read_date in
        rw (read_word 4 us rest (omega arith), skip_word 4 us rest (omega arith))))
read_value-serialize_value (time neg d h m s us) rest r = rw append_assoc (
    unfold read_signed_time in
    rw (sign_read neg, read_word 4 d _ (omega arith), skip_word 4 d _ (omega arith))
      (unfold read_time in
        rw (read_word 4 us rest (omega arith), skip_word 4 us rest (omega arith))))

-- Normalized keys of sized values that serialize alike are alike.
serialize_all : List MySqlValue → Bytes
serialize_all [] = []
serialize_all (v ∷ vs) = serialize_value v ++ serialize_all vs

serialize_value_ne_nil : (v : MySqlValue) (rest : Bytes) → ¬ ([] ≡ serialize_value v ++ rest)
unfolding serialize_value
serialize_value_ne_nil null rest = cc
serialize_value_ne_nil _ rest = cc

serialize_all-injective :
    (vs ws : List MySqlValue)
    → All IsSized vs
    → All IsSized ws
    → serialize_all vs ≡ serialize_all ws
    → vs ≡ ws
unfolding serialize_all
serialize_all-injective [] [] hv hw e = refl
serialize_all-injective [] (w ∷ ws) hv hw e = absurd (serialize_value_ne_nil w _ e)
serialize_all-injective (v ∷ vs) [] hv hw e = absurd (serialize_value_ne_nil v _ (sym e))
serialize_all-injective (v ∷ vs) (w ∷ ws) hv hw e =
    let left = read_value-serialize_value v (serialize_all vs) hv.0 in
    let right = read_value-serialize_value w (serialize_all ws) hw.0 in
    let both : ◌≡◌ {A = Option (MySqlValue × Bytes)} (some (v, serialize_all vs))
        (some (w, serialize_all ws)) =
      sym left ∙ ap read_value e ∙ right in
    let head : v ≡ w = cc both in
    let later : serialize_all vs ≡ serialize_all ws = cc both in
    let tails = serialize_all-injective vs ws hv.1 hw.1 later in cc (head, tails)

module _ (format_i64 : ℤ → Bytes) (format_u64 : ℕ → Bytes) where
  abbrev pub normalized : List MySqlValue → List MySqlValue
  normalized = map (normalize_value format_i64 format_u64)

  serialize_pk-all :
      (vs : List MySqlValue) → serialize_pk format_i64 format_u64 vs ≡ serialize_all (normalized vs)
  unfolding serialize_pk serialize_all
  serialize_pk-all [] = refl
  serialize_pk-all (v ∷ vs) = rw (serialize_pk-all vs)

  -- Whatever the itoa crate prints: two lists of values whose normal forms fit their machine words
  -- serialize to the same bytes only if they have the same normal forms, value by value. So a
  -- composite key, or the whole row of a table without a key, is told apart from every other.
  pub serialize_pk-injective :
      (vs ws : List MySqlValue)
      → All IsSized (normalized vs)
      → All IsSized (normalized ws)
      → serialize_pk format_i64 format_u64 vs ≡ serialize_pk format_i64 format_u64 ws
      → normalized vs ≡ normalized ws
  serialize_pk-injective vs ws hv hw e =
      serialize_all-injective (normalized vs) (normalized ws) hv hw
        (sym (serialize_pk-all vs) ∙ e ∙ serialize_pk-all ws)
