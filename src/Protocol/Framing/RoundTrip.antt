-- ===== src/Protocol/Framing/RoundTrip.antt =====
-- What one side writes, the other side reads.
use jibs.Prelude.{
  ℕ, ◌+◌, ◌-◌, ◌^◌, ◌<◌, ◌≤◌, ◌∷◌, [], ◌++◌, ◌≡◌, refl, Bytes, length, arith, ltb, ◌==◌, true,
  false, append_assoc,
}
use jibs.Prelude.Io.{invalid_data, vec_writer, read_exact, read_exact-append}
use jibs.Prelude.Result.{ok, err}
use jibs.Prelude.Words.{to_le_bytes, length-to_le_bytes, from_le_bytes-to_le_bytes}
use jibs.Protocol.Framing.{
  Bincode, max_message, read_body, read_message, write_message, DataMessageType, schema, data_chunk,
  table_end, aggregate_end, error, code_of, try_from, read_type, check_length, write_data_message,
  read_data_message_header,
}

-- What is used of the bincode crate: the decoder reads an encoded message back, all of it.
unfoldable pub RoundTrips : {T : Type 0} → Bincode T → Type 0
RoundTrips {T} bincode =
    (message : T) (encoded : Bytes)
    → bincode.encode_to_vec message ≡ ok encoded
    → bincode.decode_from_slice encoded ≡ ok (message, length encoded)

-- Behind a length word of 32 bits.
module _ (len : ℕ) (rest : Bytes) (small : len < 2 ^ 32) where
  read_message-word :
      {T : Type 0} (bincode : Bincode T)
      → read_message bincode (to_le_bytes 4 len ++ rest) ≡ read_body bincode len rest
  unfolding read_message
  read_message-word bincode =
      rw
        (
          read_exact-append 4 (to_le_bytes 4 len) rest (length-to_le_bytes 4 len),
          from_le_bytes-to_le_bytes 4 len small,
        )
        refl

  read_data_message_header-word :
      read_data_message_header (to_le_bytes 4 len ++ rest) ≡ check_length len rest
  unfolding read_data_message_header
  read_data_message_header-word =
      rw
        (
          read_exact-append 4 (to_le_bytes 4 len) rest (length-to_le_bytes 4 len),
          from_le_bytes-to_le_bytes 4 len small,
        )
        refl

module _ {T : Type 0} (bincode : Bincode T) (round_trips : RoundTrips bincode) (message : T)
    (encoded sent rest : Bytes) (encodes : bincode.encode_to_vec message ≡ ok encoded) where
  -- A message of at most 100 MB that `write_message` puts behind earlier output is read by
  -- `read_message` as the same message, and the input after it is left as it is. This needs that
  -- the bincode decoder undoes its encoder.
  pub read_message-write_message :
      length encoded ≤ max_message
      → (write_message vec_writer bincode message sent
          ≡ (ok tt, (sent ++ to_le_bytes 4 (length encoded)) ++ encoded))
        × (read_message bincode ((to_le_bytes 4 (length encoded) ++ encoded) ++ rest)
            ≡ (ok message, rest))
  unfolding write_message read_body RoundTrips
  read_message-write_message small =
      let within : ltb max_message (length encoded) ≡ false = ground arith in
      let word = to_le_bytes 4 (length encoded) in
      (
        rw encodes refl,
        rw
            (
              append_assoc word encoded rest,
              read_message-word (length encoded) (encoded ++ rest) (omega arith) bincode,
              within,
              read_exact-append (length encoded) encoded rest refl,
              round_trips message encoded encodes,
            )
            refl,
      )

  -- A longer message, below 4 GB, is written all the same, and the reader refuses its length: it
  -- returns `InvalidData` and leaves the body unread.
  pub read_message-too_large :
      max_message < length encoded
      → length encoded < 2 ^ 32
      → (write_message vec_writer bincode message sent
          ≡ (ok tt, (sent ++ to_le_bytes 4 (length encoded)) ++ encoded))
        × (read_message bincode ((to_le_bytes 4 (length encoded) ++ encoded) ++ rest)
            ≡ (err invalid_data, encoded ++ rest))
  unfolding write_message read_body
  read_message-too_large large small =
      let beyond : ltb max_message (length encoded) ≡ true = ground arith in
      let word = to_le_bytes 4 (length encoded) in
      (
        rw encodes refl,
        rw
            (
              append_assoc word encoded rest,
              read_message-word (length encoded) (encoded ++ rest) small bincode,
              beyond,
            )
            refl,
      )

try_from-code_of : (t : DataMessageType) → try_from (code_of t) ≡ ok t
unfolding try_from code_of
try_from-code_of schema = refl
try_from-code_of data_chunk = refl
try_from-code_of table_end = refl
try_from-code_of aggregate_end = refl
try_from-code_of error = refl

-- A data message whose payload and type byte are at most 100 MB is written as its length, its
-- type byte and its payload; the reader of the header gets the type and the length of the payload,
-- and the input it leaves starts with the payload.
pub read_data_message_header-write_data_message :
    (t : DataMessageType) (payload sent rest : Bytes)
    → 1 + length payload ≤ max_message
    → (write_data_message vec_writer t payload sent
        ≡ (ok tt, ((sent ++ to_le_bytes 4 (1 + length payload)) ++ code_of t ∷ []) ++ payload))
      × (read_data_message_header
            (to_le_bytes 4 (1 + length payload) ++ (code_of t ∷ payload ++ rest))
          ≡ (ok (t, length payload), payload ++ rest))
unfolding write_data_message check_length read_type
read_data_message_header-write_data_message t payload sent rest small =
    let within : ltb max_message (1 + length payload) ≡ false = ground arith in
    let positive : (1 + length payload == 0) ≡ false = ground arith in
    let back : 1 + length payload - 1 ≡ length payload = omega arith in
    let one : read_exact 1 ((code_of t ∷ payload) ++ rest)
        ≡ (ok (code_of t ∷ []), payload ++ rest) =
      read_exact-append 1 (code_of t ∷ []) (payload ++ rest) refl in
    (
      refl,
      rw
          (
            read_data_message_header-word (1 + length payload) (code_of t ∷ payload ++ rest)
                (omega arith),
            positive,
            within,
            one,
            try_from-code_of t,
            back,
          )
          refl,
    )
