-- ===== src/Tests/Wire.antt =====
-- Frames, the preamble and the buffered writer at concrete inputs. The codec stands for bincode: a
-- message is its own encoding.
use jibs.Prelude.{
  ◌+◌, ◌<◌, [], ◌∷◌, ◌++◌, ◌≡◌, ◌≤◌, ◌≢◌, ◌↔◌, refl, Bytes, codes, length, take, drop, arith, List,
  All,
}
use jibs.Prelude.Io.{vec_writer, ◌>>◌}
use jibs.Prelude.Result.{ok, err}
use jibs.Prelude.Words.{to_le_bytes, from_le_bytes}
use jibs.Protocol.Framing.{
  Bincode, read_message, data_chunk, code_of, max_message, write_data_message,
  read_data_message_header,
}
use jibs.Protocol.Framing
use jibs.Protocol.Framing.RoundTrip.{
  RoundTrips, read_message-write_message, read_data_message_header-write_data_message,
}
use jibs.Protocol.Framing.Buffered.{
  MessageWriter, with_capacity, encode_into_buf, flush_buf, flush, write_preencoded,
  write_message_noflush, write_message,
}
use jibs.Protocol.Framing.Buffered.Bounds.{perform_all-IsBounded}
use jibs.Protocol.Framing.Buffered.Commands.{
  Command, send, queue, raw, flush_now, bytes_of_all, perform_all, perform_all-flush,
}
use jibs.Protocol.Handshake.{
  encode_preamble, validate_preamble, protocol_magic, protocol_version, bad_magic, version_mismatch,
}
use jibs.Protocol.Handshake.Preamble.{validate_preamble_correct}

abbrev codec : Bincode Bytes
codec = record {
  encode_to_vec = λ message. ok message;
  encode_into = λ message. (message, ok tt);
  decode_from_slice = λ encoded. ok (encoded, length encoded);
}

codec-RoundTrips : RoundTrips codec
unfolding RoundTrips
codec-RoundTrips message encoded e = cc e

abbrev greeting : Bytes
greeting = codes "hello"

read_message-write_message_example :
    (Framing.write_message vec_writer codec greeting []
      ≡ (ok tt, ([] ++ to_le_bytes 4 (length greeting)) ++ greeting))
    × (read_message codec ((to_le_bytes 4 (length greeting) ++ greeting) ++ greeting)
        ≡ (ok greeting, greeting))
read_message-write_message_example =
    read_message-write_message codec codec-RoundTrips greeting greeting [] greeting refl
      (omega arith)

read_data_message_header_example :
    (write_data_message vec_writer data_chunk greeting [] ≡ (
      ok tt,
      (([] ++ to_le_bytes 4 (1 + length greeting)) ++ code_of data_chunk ∷ []) ++ greeting,
    ))
    × (read_data_message_header
          (to_le_bytes 4 (1 + length greeting) ++ (code_of data_chunk ∷ greeting ++ []))
        ≡ (ok (data_chunk, length greeting), greeting ++ []))
read_data_message_header_example =
    read_data_message_header-write_data_message data_chunk greeting [] [] (omega arith)

-- A buffer of eight bytes: a message is flushed early, raw bytes pass by.
abbrev commands : List (Command Bytes)
commands =
    queue greeting
    ∷ raw greeting
    ∷ send (codes "a")
    ∷ raw (codes "more than eight")
    ∷ flush_now
    ∷ []

abbrev small_writer : MessageWriter Bytes
small_writer = with_capacity 8 []

abbrev last_writer : MessageWriter Bytes
last_writer = ((perform_all codec vec_writer commands >> flush vec_writer) small_writer).1

perform_all-flush_example :
    (last_writer.inner ≡ ([] ++ []) ++ bytes_of_all codec commands)
    × (last_writer.buf ≡ [])
    × (last_writer.capacity ≡ 8)
unfolding perform_all flush encode_into_buf flush_buf write_preencoded write_message_noflush
    write_message to_le_bytes
perform_all-flush_example = perform_all-flush codec vec_writer commands small_writer refl

perform_all-IsBounded_example :
    (length (perform_all codec vec_writer commands small_writer).1.buf ≤ 8)
    × ((perform_all codec vec_writer commands small_writer).1.capacity ≡ 8)
unfolding perform_all flush encode_into_buf flush_buf write_preencoded write_message_noflush
    write_message to_le_bytes
perform_all-IsBounded_example =
    perform_all-IsBounded vec_writer codec commands small_writer (omega arith) refl

-- A peer of version 3.
abbrev newer : Bytes
newer = protocol_magic ++ 3 ∷ 0 ∷ 0 ∷ 0 ∷ []

newer-IsByte : All (λ b. b < 256) newer
newer-IsByte = ground arith

validate_preamble_correct_example :
    ((validate_preamble newer ≡ ok tt) ↔ (newer ≡ encode_preamble))
    × ((take 4 newer ≢ protocol_magic) → validate_preamble newer ≡ err (bad_magic (take 4 newer)))
    × (take 4 newer ≡ protocol_magic
        → from_le_bytes (drop 4 newer) ≢ protocol_version
        → validate_preamble newer ≡ err (version_mismatch (from_le_bytes (drop 4 newer))))
validate_preamble_correct_example = validate_preamble_correct newer refl newer-IsByte
