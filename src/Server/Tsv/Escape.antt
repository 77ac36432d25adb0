-- ===== src/Server/Tsv/Escape.antt =====
-- `escape_tsv_bytes` of crates/server/src/mysql.rs, with the scan by indices as the source has it.
use jibs.Prelude.{
  ℕ, ◌+◌, ◌-◌, ◌≡◌, ◌≢◌, ◌∙◌, sym, ap, refl, Bool, true, false, [], ◌∷◌, ◌++◌, append-nil,
  append_assoc, Option, none, some, arith, if◌then◌else◌, ltb, ◌==◌, Bytes, length, take, drop,
  take-length-append, drop-length-append, length-append, All, All-append, Option-cases, Bool-cases,
  inl, inr,
}

-- The escape of a byte; `none` for `continue`.
unfoldable pub replacement : ℕ → Option Bytes
replacement b =
    if b == b'\\'
    then some (b'\\' ∷ b'\\' ∷ [])
    else if b == 9
    then some (b'\\' ∷ b't' ∷ [])
    else if b == 10
    then some (b'\\' ∷ b'n' ∷ [])
    else if b == 13
    then some (b'\\' ∷ b'r' ∷ [])
    else if b == 0
    then some (b'\\' ∷ b'0' ∷ [])
    else none

-- `&bytes[start..end]`
abbrev pub slice : Bytes → ℕ → ℕ → Bytes
slice bytes start end = take (end - start) (drop start bytes)

-- A clean segment is copied, if there is one.
abbrev pub flush : Bytes → Bytes → ℕ → ℕ → Bytes
flush buf bytes start end = if ltb start end then buf ++ slice bytes start end else buf

-- The loop: `rest` is what `enumerate` still yields, from index `i` on.
unfoldable pub escape_loop : Bytes → Bytes → ℕ → ℕ → Bytes → Bytes
escape_loop buf bytes start i [] = flush buf bytes start (length bytes)
escape_loop buf bytes start i (b ∷ rest) = elim (replacement b) [
  | none ↦ escape_loop buf bytes start (i + 1) rest
  | some escaped ↦ escape_loop (flush buf bytes start i ++ escaped) bytes (i + 1) (i + 1) rest
]

unfoldable pub escape_tsv_bytes : Bytes → Bytes → Bytes
unfolding escape_loop replacement
escape_tsv_bytes buf bytes = escape_loop buf bytes 0 0 bytes

-- Byte by byte: the escape, or the byte itself.
unfoldable pub escape_byte : ℕ → Bytes
escape_byte b = elim (replacement b) [ none ↦ b ∷ [] | some escaped ↦ escaped ]

unfoldable pub escaped : Bytes → Bytes
escaped [] = []
escaped (b ∷ bs) = escape_byte b ++ escaped bs

escape_byte_clean : (b : ℕ) → replacement b ≡ none → escape_byte b ≡ b ∷ []
unfolding escape_byte
escape_byte_clean b h = rw (h, escape_byte)

escape_byte_special : (b : ℕ) (t : Bytes) → replacement b ≡ some t → escape_byte b ≡ t
unfolding escape_byte
escape_byte_special b t h = rw (h, escape_byte)

flush_slice :
    (buf bytes : Bytes) (start end : ℕ) → flush buf bytes start end ≡ buf ++ slice bytes start end
flush_slice buf bytes start end = elim (Bool-cases (ltb start end)) [
  | inl more ↦ rw more
  | inr empty ↦ let e : end - start ≡ 0 = ground arith in rw (empty, e) (sym (append-nil buf))
]

module _ (bytes front seg rest : Bytes) (spelled : bytes ≡ front ++ (seg ++ rest)) where
  slice_middle :
      (start i : ℕ)
      → start ≡ length front
      → i ≡ length front + length seg
      → slice bytes start i ≡ seg
  slice_middle start i s e =
      let size : i - start ≡ length seg = omega arith in
      rw (size, s, spelled, drop-length-append front (seg ++ rest)) (take-length-append seg rest)

-- `seg` is the clean segment from `start` to `i`.
escape_loop-escaped :
    (rest buf bytes front seg : Bytes) (start i : ℕ)
    → bytes ≡ front ++ (seg ++ rest)
    → start ≡ length front
    → i ≡ length front + length seg
    → escape_loop buf bytes start i rest ≡ buf ++ (seg ++ escaped rest)
unfolding escape_loop escaped
escape_loop-escaped [] buf bytes front seg start i spelled s e =
    let size : length bytes ≡ length front + length seg =
      omega (arith, ap length spelled, length-append front (seg ++ []), length-append seg []) in
    flush_slice buf bytes start (length bytes)
    ∙ rw (slice_middle bytes front seg [] spelled start (length bytes) s size, append-nil)
escape_loop-escaped (b ∷ rest) buf bytes front seg start i spelled s e =
    elim (Option-cases (replacement b)) [
      | inl clean ↦
          rw (clean, escape_loop)
            (escape_loop-escaped rest buf bytes front (seg ++ b ∷ []) start (i + 1)
                (spelled ∙ ap (λ t. front ++ t) (sym (append_assoc seg (b ∷ []) rest))) s
                (omega (arith, length-append seg (b ∷ [])))
              ∙ rw (escape_byte_clean b clean, append_assoc))
      | inr (t, special) ↦
          rw (special, escape_loop)
            (escape_loop-escaped rest (flush buf bytes start i ++ t) bytes
                (front ++ (seg ++ b ∷ [])) [] (i + 1) (i + 1)
                (rw (append_assoc, append_assoc) spelled)
                (omega (arith, length-append front (seg ++ b ∷ []), length-append seg (b ∷ [])))
                (omega (arith, length-append front (seg ++ b ∷ []), length-append seg (b ∷ [])))
              ∙ rw (
                escape_byte_special b t special,
                flush_slice buf bytes start i,
                slice_middle bytes front seg (b ∷ rest) spelled start i s e,
                append_assoc,
                append_assoc,
              ))
    ]

-- The scan by clean segments writes what the escape of every byte, one after the other, spells.
pub escape_tsv_bytes-escaped :
    (buf bytes : Bytes) → escape_tsv_bytes buf bytes ≡ buf ++ escaped bytes
unfolding escape_tsv_bytes
escape_tsv_bytes-escaped buf bytes =
    escape_loop-escaped bytes buf bytes [] [] 0 0 refl refl (omega arith)

-- How LOAD DATA reads a byte behind the escape character: `\t`, `\n`, `\r` and `\0` name a control
-- byte, any other byte stands for itself.
unfoldable pub unescape_byte : ℕ → ℕ
unescape_byte c =
    if c == b't'
    then 9
    else if c == b'n'
    then 10
    else if c == b'r'
    then 13
    else if c == b'0'
    then 0
    else c

-- A field with its escapes read; the flag says that the escape character has just been read.
unfoldable pub unescape_from : Bool → Bytes → Bytes
unfolding unescape_byte
unescape_from true [] = b'\\' ∷ []
unescape_from false [] = []
unescape_from true (b ∷ bs) = unescape_byte b ∷ unescape_from false bs
unescape_from false (b ∷ bs) =
    let pending = unescape_from true bs in
    let plain = b ∷ unescape_from false bs in if b == b'\\' then pending else plain

unfoldable pub unescape : Bytes → Bytes
unfolding unescape_from
unescape = unescape_from false

unescape-escape_byte : (b : ℕ) (rest : Bytes) → unescape (escape_byte b ++ rest) ≡ b ∷ unescape rest
unfolding escape_byte replacement unescape
unescape-escape_byte b rest = ground arith

-- Reading the escapes of an escaped field gives the field back, whatever bytes it holds.
pub unescape-escaped : (bytes : Bytes) → unescape (escaped bytes) ≡ bytes
unfolding escaped
unescape-escaped [] = unfold unescape in refl
unescape-escaped (b ∷ bs) = unescape-escape_byte b (escaped bs) ∙ ap (◌∷◌ b) (unescape-escaped bs)

-- The delimiters of the TSV stream.
abbrev pub IsClean : ℕ → Type 0
IsClean c = (c ≢ 9) × (c ≢ 10) × (c ≢ 13) × (c ≢ 0)

escape_byte-IsClean : (b : ℕ) → All IsClean (escape_byte b)
unfolding escape_byte replacement
escape_byte-IsClean b = ground arith

pub escaped-IsClean : (bytes : Bytes) → All IsClean (escaped bytes)
unfolding escaped
escaped-IsClean [] = tt
escaped-IsClean (b ∷ bs) =
    All-append IsClean (escape_byte b) (escaped bs) (escape_byte-IsClean b) (escaped-IsClean bs)

-- What is appended for a field reads back, escape by escape, as the field, and holds none of the
-- stream's delimiters: no tab, no line feed, no carriage return and no NUL, whatever the field holds.
pub unescape-escape_tsv_bytes :
    (bytes : Bytes)
    → (unescape (escape_tsv_bytes [] bytes) ≡ bytes) × All IsClean (escape_tsv_bytes [] bytes)
unescape-escape_tsv_bytes bytes =
    rw (escape_tsv_bytes-escaped [] bytes) (unescape-escaped bytes, escaped-IsClean bytes)
