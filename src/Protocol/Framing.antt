-- ===== src/Protocol/Framing.antt =====
-- crates/protocol/src/framing.rs: length-prefixed frames, and the buffered writer of messages.
--
-- The bincode crate is a parameter: `encode_to_vec`, `decode_from_slice` with the number of bytes
-- read, and `encode_into_std_write` as the bytes that it hands to the writer and its result. Its
-- errors become `InvalidData`. A reader is the input that is left.
pub mod Words
pub mod Buffered
pub mod RoundTrip
use jibs.Prelude.{
  ℕ, ◌+◌, ◌-◌, ◌*◌, List, [], ◌∷◌, ◌++◌, if◌then◌else◌, leb, ltb, ◌==◌, Bytes, length, take, drop,
  get_or,
}
use jibs.Prelude.Io.{IoError, invalid_data, Io, ◌>>=◌, ◌>>◌, done, Writer, read_exact}
use jibs.Prelude.Result.{Result, ok, err}
use jibs.Prelude.Words.{to_le_bytes, from_le_bytes}

pub record Bincode (T : Type 0) : Type 0 where
  pub encode_to_vec : T → Result IoError Bytes
  pub encode_into : T → Bytes × Result IoError (Unit {0})
  pub decode_from_slice : Bytes → Result IoError (T × ℕ)

-- 100 MB
abbrev pub max_message : ℕ
max_message = 100 * 1024 * 1024

-- `?` on a value that leaves the state alone.
abbrev pub lift : {S A : Type 0} → Result IoError A → Io S A
lift r s = (r, s)

module _ {W : Type 0} (writer : Writer W) {T : Type 0} (bincode : Bincode T) where
  pub write_message_noflush : T → Io W (Unit {0})
  write_message_noflush message = do
    encoded ← lift (bincode.encode_to_vec message)
    writer.write_all (to_le_bytes 4 (length encoded))
    writer.write_all encoded

  pub write_message : T → Io W (Unit {0})
  write_message message = do
    encoded ← lift (bincode.encode_to_vec message)
    writer.write_all (to_le_bytes 4 (length encoded))
    writer.write_all encoded
    writer.flush

-- A decoded value, without the number of bytes read.
abbrev pub first : {T : Type 0} → Result IoError (T × ℕ) → Result IoError T
first (ok (message, _)) = ok message
first (err e) = err e

-- The body of a message, behind its length.
pub read_body : {T : Type 0} → Bincode T → ℕ → Io Bytes T
read_body bincode len =
    if ltb max_message len
    then lift (err invalid_data)
    else (read_exact len >>= λ buffer. lift (first (bincode.decode_from_slice buffer)))

unfoldable pub read_message : {T : Type 0} → Bincode T → Io Bytes T
unfolding read_body read_exact
read_message bincode = read_exact 4 >>= λ len_bytes. read_body bincode (from_le_bytes len_bytes)

pub data DataMessageType : Type 0 where
  schema data_chunk table_end aggregate_end error : DataMessageType

-- `msg_type as u8`
unfoldable pub code_of : DataMessageType → ℕ
code_of schema = 1
code_of data_chunk = 2
code_of table_end = 3
code_of aggregate_end = 4
code_of error = 5

-- `TryFrom<u8>`
unfoldable pub try_from : ℕ → Result IoError DataMessageType
try_from value =
    if value == 1
    then ok schema
    else if value == 2
    then ok data_chunk
    else if value == 3
    then ok table_end
    else if value == 4
    then ok aggregate_end
    else if value == 5
    then ok error
    else err invalid_data

module _ {W : Type 0} (writer : Writer W) where
  pub write_data_message : DataMessageType → Bytes → Io W (Unit {0})
  unfolding code_of
  write_data_message msg_type payload = do
    writer.write_all (to_le_bytes 4 (1 + length payload))
    writer.write_all (code_of msg_type ∷ [])
    writer.write_all payload
    writer.flush

-- The type byte, behind a length that has passed the checks.
pub read_type : ℕ → Io Bytes (DataMessageType × ℕ)
unfolding try_from
read_type len = read_exact 1 >>= λ byte.
    lift (try_from (get_or byte 0 0)) >>= λ msg_type. lift (ok (msg_type, len - 1))

pub check_length : ℕ → Io Bytes (DataMessageType × ℕ)
check_length len =
    if len == 0
    then lift (err invalid_data)
    else if ltb max_message len
    then lift (err invalid_data)
    else read_type len

unfoldable pub read_data_message_header : Io Bytes (DataMessageType × ℕ)
unfolding check_length read_type read_exact
read_data_message_header = read_exact 4 >>= λ len_bytes. check_length (from_le_bytes len_bytes)

pub record DataChunk : Type 0 where
  pub table_id : ℕ
  pub row_count : ℕ
  pub tsv_data : Bytes

unfoldable pub decode_data_chunk : Bytes → Result IoError DataChunk
decode_data_chunk buf =
    if ltb (length buf) 4
    then err invalid_data
    else ok (record {
      table_id = from_le_bytes (take 2 buf);
      row_count = from_le_bytes (take 2 (drop 2 buf));
      tsv_data = drop 4 buf;
    })
