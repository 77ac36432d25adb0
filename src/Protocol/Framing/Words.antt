-- ===== src/Protocol/Framing/Words.antt =====
-- The flag in the length word of a raw data chunk: the high bit of a u32.
use jibs.Prelude.{ℕ, ◌+◌, ◌%◌, ◌^◌, ◌<◌, Bool, true, ◌≡◌, leb, arith}

-- `RAW_CHUNK_FLAG`
abbrev pub raw_chunk_flag : ℕ
raw_chunk_flag = 2 ^ 31

-- `RAW_CHUNK_HEADER_LEN`
abbrev pub raw_chunk_header_len : ℕ
raw_chunk_header_len = 4 + 2 + 2

-- `(len as u32) | RAW_CHUNK_FLAG`: the other bits of the word, and the high bit.
unfoldable pub or_flag : ℕ → ℕ
or_flag len = len % raw_chunk_flag + raw_chunk_flag

-- `raw_len & RAW_CHUNK_FLAG != 0`
unfoldable pub has_flag : ℕ → Bool
has_flag raw_len = leb raw_chunk_flag raw_len

-- `raw_len & !RAW_CHUNK_FLAG`
unfoldable pub clear_flag : ℕ → ℕ
clear_flag raw_len = raw_len % raw_chunk_flag

pub has_flag-or_flag : (len : ℕ) → has_flag (or_flag len) ≡ true
unfolding has_flag or_flag
has_flag-or_flag len = ground arith

pub clear_flag-or_flag : (len : ℕ) → len < raw_chunk_flag → clear_flag (or_flag len) ≡ len
unfolding clear_flag or_flag
clear_flag-or_flag len h = omega arith

pub or_flag-lt : (len : ℕ) → or_flag len < 2 ^ 32
unfolding or_flag
or_flag-lt len = omega arith
