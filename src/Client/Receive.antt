-- ===== src/Client/Receive.antt =====
-- crates/client/src/protocol.rs: `recv_message`, the client's end of the stream.
--
-- The reader is the input that is left, as in Protocol/Framing; the texts of the errors are not
-- modelled, only their kinds.
pub mod Chunk
use jibs.Prelude.{ℕ, Bool, true, false, if◌then◌else◌, ltb, Bytes}
use jibs.Prelude.Io.{IoError, invalid_data, Io, ◌>>=◌, ◌>>◌, done, read_exact}
use jibs.Prelude.Result.{Result, ok, err}
use jibs.Prelude.Words.{from_le_bytes}
use jibs.Protocol.Framing.Words.{has_flag, clear_flag}
use jibs.Protocol.Framing.{Bincode, lift, first, DataChunk, decode_data_chunk}
use jibs.Protocol.Messages.{ServerMessage, table_data}

abbrev pub validate_message_length : ℕ → ℕ → Io Bytes (Unit {0})
validate_message_length len max_size = if ltb max_size len then lift (err invalid_data) else done

abbrev pub decode_server_message : Bincode ServerMessage → Bytes → Result IoError ServerMessage
decode_server_message bincode buffer = first (bincode.decode_from_slice buffer)

-- A raw chunk as a message.
abbrev pub data_of : Result IoError DataChunk → Result IoError ServerMessage
data_of (ok chunk) = ok (table_data chunk.table_id chunk.row_count chunk.tsv_data)
data_of (err e) = err e

-- The decoder that the flag chooses.
abbrev pub decode_body : Bincode ServerMessage → Bool → Bytes → Result IoError ServerMessage
decode_body bincode true buffer = data_of (decode_data_chunk buffer)
decode_body bincode false buffer = decode_server_message bincode buffer

-- What follows the length word.
abbrev pub recv_body : Bincode ServerMessage → ℕ → ℕ → Io Bytes ServerMessage
recv_body bincode max_message_size raw_len =
    validate_message_length (clear_flag raw_len) max_message_size
    >> (read_exact (clear_flag raw_len) >>= λ buffer.
        lift (decode_body bincode (has_flag raw_len) buffer))

unfoldable pub recv_message : Bincode ServerMessage → ℕ → Io Bytes ServerMessage
unfolding read_exact from_le_bytes has_flag clear_flag decode_data_chunk
recv_message bincode max_message_size =
    read_exact 4 >>= λ len_bytes. recv_body bincode max_message_size (from_le_bytes len_bytes)
