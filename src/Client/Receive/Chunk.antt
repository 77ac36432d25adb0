-- ===== src/Client/Receive/Chunk.antt =====
-- A chunk from the server's `TsvWriter` to the rows that the client loads.
use jibs.Prelude.{
  ℕ, ◌+◌, ◌-◌, ◌^◌, ◌<◌, ◌≤◌, ◌++◌, [], ◌≡◌, refl, ap, sym, inl, inr, Bytes, length, drop, arith,
  ltb, false, length-append, take-length-append, drop-length-append, append_assoc, length-drop,
  ==_iff,
}
use jibs.Prelude.Io.{read_exact-append}
use jibs.Prelude.Result.{Result, ok, Result-cases}
use jibs.Prelude.Words.{to_le_bytes, length-to_le_bytes, from_le_bytes-to_le_bytes, u16_mod}
use jibs.Protocol.Framing.Words.{
  or_flag, has_flag-or_flag, clear_flag-or_flag, or_flag-lt, raw_chunk_header_len,
}
use jibs.Protocol.Framing.{Bincode, decode_data_chunk}
use jibs.Protocol.Messages.{ServerMessage, table_data}
use jibs.Protocol.Plan.{CompressionMode, uncompressed, zstd, auto}
use jibs.Client.Loader.{maybe_decompress}
use jibs.Client.Receive.{recv_message, data_of}
use jibs.Server.Error.{ServerError}
use jibs.Server.Tsv.Foreign.{Crates}
use jibs.Server.Tsv.{TsvWriter, frame, resize, take_encoded_chunk}

module _ (table_id row_count : ℕ) (payload : Bytes) (id_fits : table_id < u16_mod)
    (count_fits : row_count < u16_mod) where
  abbrev body : Bytes
  body = to_le_bytes 2 table_id ++ (to_le_bytes 2 row_count ++ payload)

  length-body : length body ≡ 4 + length payload
  length-body = omega (
    arith,
    length-append (to_le_bytes 2 table_id) (to_le_bytes 2 row_count ++ payload),
    length-append (to_le_bytes 2 row_count) payload,
    length-to_le_bytes 2 table_id,
    length-to_le_bytes 2 row_count,
  )

  decode_body-body : data_of (decode_data_chunk body) ≡ ok (table_data table_id row_count payload)
  unfolding decode_data_chunk to_le_bytes
  decode_body-body =
      let long : ltb (length body) 4 ≡ false = ground (arith, length-body) in
      rw
        (
          long,
          from_le_bytes-to_le_bytes 2 table_id id_fits,
          from_le_bytes-to_le_bytes 2 row_count count_fits,
        )
        refl

  module _ {R : Type 0} (crates : Crates R) (bincode : Bincode ServerMessage) (max_message_size : ℕ)
      (rest : Bytes) (fits : 4 + length payload < 2 ^ 31)
      (allowed : 4 + length payload ≤ max_message_size) where
    recv_message-frame :
        recv_message bincode max_message_size
          (frame crates (4 + length payload) table_id row_count payload ++ rest)
        ≡ (ok (table_data table_id row_count payload), rest)
    unfolding recv_message
    recv_message-frame =
        let word = to_le_bytes 4 (or_flag (4 + length payload)) in
        let within : ltb max_message_size (4 + length payload) ≡ false = ground arith in
        rw
          (
            append_assoc word body rest,
            read_exact-append 4 word (body ++ rest) (length-to_le_bytes 4 _),
            from_le_bytes-to_le_bytes 4 _ (or_flag-lt (4 + length payload)),
            clear_flag-or_flag (4 + length payload) fits,
            within,
            read_exact-append (4 + length payload) body rest length-body,
            has_flag-or_flag (4 + length payload),
            decode_body-body,
          )
          refl

ok-parts :
    {E A B : Type 0} {a c : A} {b d : B}
    → ◌≡◌ {A = Result E (A × B)} (ok (a, b)) (ok (c, d))
    → (a ≡ c) × (b ≡ d)
ok-parts e = (cc e, cc e)

-- What is used of the zstd crate: `decode_all` undoes `encode_all`.
unfoldable pub Decodes : {R : Type 0} → Crates R → (Bytes → Result Bytes Bytes) → Type 0
Decodes crates decode_all =
    (text compressed : Bytes)
    → crates.zstd_encode text ≡ ok compressed
    → decode_all compressed ≡ ok text

module _ {R : Type 0} (crates : Crates R) (decode_all : Bytes → Result Bytes Bytes)
    (decodes : Decodes crates decode_all) where
  -- The payload stands for the rows that are in the writer.
  maybe_decompress-zstd :
      (text compressed : Bytes)
      → length text < 2 ^ 32
      → crates.zstd_encode text ≡ ok compressed
      → maybe_decompress decode_all (to_le_bytes 4 (length text) ++ compressed) zstd ≡ ok text
  unfolding maybe_decompress Decodes
  maybe_decompress-zstd text compressed small went =
      let word = to_le_bytes 4 (length text) in
      let size = length-to_le_bytes 4 (length text) in
      let long : ltb (length (word ++ compressed)) 4 ≡ false =
        ground (arith, length-append word compressed) in
      rw
        (
          long,
          rw size at (take-length-append word compressed),
          rw size at (drop-length-append word compressed),
          from_le_bytes-to_le_bytes 4 (length text) small,
          decodes text compressed went,
          (==_iff (length text) (length text)).1 refl,
        )
        refl

  module _ (bincode : Bincode ServerMessage) (max_message_size : ℕ) (rest : Bytes)
      (table_id row_count : ℕ) (id_fits : table_id < u16_mod)
      (count_fits : row_count < u16_mod) where
    -- The client's view of a chunk: the message that carries a payload, and the rows in the payload.
    abbrev Delivers : CompressionMode → Bytes → Bytes → Type 0
    Delivers mode chunk text =
        (payload : Bytes) × (recv_message bincode max_message_size (chunk ++ rest)
          ≡ (ok (table_data table_id row_count payload), rest))
        × (maybe_decompress decode_all payload mode ≡ ok text)

    Delivers-frame :
        (mode : CompressionMode) (text payload : Bytes) (n : ℕ)
        → n ≡ 4 + length payload
        → length (frame crates n table_id row_count payload) ≤ max_message_size + 4
        → length (frame crates n table_id row_count payload) < 2 ^ 31 + 4
        → maybe_decompress decode_all payload mode ≡ ok text
        → Delivers mode (frame crates n table_id row_count payload) text
    Delivers-frame mode text payload n size allowed fits reads =
        let whole : length (frame crates n table_id row_count payload) ≡ 8 + length payload =
          omega (
            arith,
            length-append (to_le_bytes 4 (or_flag n))
                (body table_id row_count payload id_fits count_fits),
            length-to_le_bytes 4 (or_flag n),
            length-body table_id row_count payload id_fits count_fits,
          ) in
        let arrives =
          recv_message-frame table_id row_count payload id_fits count_fits crates bincode
            max_message_size rest (omega arith) (omega arith) in
        (payload, rw (← size) at arrives, reads)

    -- Without compression the payload is the rows themselves.
    abbrev plain_chunk : TsvWriter R → Result ServerError (Bytes × TsvWriter R)
    plain_chunk w = ok (
      frame crates (2 + 2 + (length w.buffer - raw_chunk_header_len)) table_id row_count
          (drop raw_chunk_header_len w.buffer),
      record w { buffer = resize crates raw_chunk_header_len [] },
    )

    Delivers-plain :
        (mode : CompressionMode) (w next : TsvWriter R) (chunk : Bytes)
        → plain_chunk w ≡ ok (chunk, next)
        → ((text : Bytes) → maybe_decompress decode_all text mode ≡ ok text)
        → length chunk ≤ max_message_size + 4
        → length chunk < 2 ^ 31 + 4
        → Delivers mode chunk (drop raw_chunk_header_len w.buffer)
          × (drop raw_chunk_header_len next.buffer ≡ [])
    unfolding resize
    Delivers-plain mode w next chunk went plain allowed fits =
        let text = drop raw_chunk_header_len w.buffer in
        let (same, emptied) = ok-parts went in
        (
          rw (← same) (
              Delivers-frame mode text text _
                (omega (arith, length-drop raw_chunk_header_len w.buffer)) (rw same allowed)
                (rw same fits) (plain text)),
          ap (λ t. drop raw_chunk_header_len t.buffer) (sym emptied),
        )

    -- A chunk that the server's writer gives out of a buffer below 2^32 bytes, of a table and a row
    -- count that fit a u16, with a frame below 2^31 bytes and within the client's limit, in front of
    -- any further input: the
    -- client receives one data message with that table and row count, leaves the further input as
    -- it is, and gets by `maybe_decompress` exactly the rows that were in the writer. The writer has
    -- no rows afterwards. For zstd this needs that its decoder undoes its encoder.
    pub take_encoded_chunk-recv_message :
        (mode : CompressionMode) (w next : TsvWriter R) (chunk : Bytes)
        → take_encoded_chunk crates w table_id row_count mode ≡ ok (chunk, next)
        → length w.buffer < 2 ^ 32
        → length chunk ≤ max_message_size + 4
        → length chunk < 2 ^ 31 + 4
        → Delivers mode chunk (drop raw_chunk_header_len w.buffer)
          × (drop raw_chunk_header_len next.buffer ≡ [])
    unfolding take_encoded_chunk maybe_decompress
    take_encoded_chunk-recv_message zstd w next chunk went small allowed fits =
        elim (Result-cases (crates.zstd_encode (drop raw_chunk_header_len w.buffer))) [
          | inr (e, failed) ↦ cc (rw (failed, take_encoded_chunk) at went)
          | inl (compressed, encoded) ↦
              let text = drop raw_chunk_header_len w.buffer in
              let tsv_len = length w.buffer - raw_chunk_header_len in
              let (same, emptied) = ok-parts (rw (encoded, take_encoded_chunk) at went) in
              let size : tsv_len ≡ length text = sym (length-drop raw_chunk_header_len w.buffer) in
              let payload_len : 2 + 2 + (4 + length compressed)
                  ≡ 4 + length (to_le_bytes 4 tsv_len ++ compressed) =
                omega (
                  arith,
                  length-append (to_le_bytes 4 tsv_len) compressed,
                  length-to_le_bytes 4 tsv_len,
                ) in
              (
                rw (← same) (
                    Delivers-frame zstd text (to_le_bytes 4 tsv_len ++ compressed) _ payload_len
                      (rw same allowed) (rw same fits)
                      (rw size
                        (maybe_decompress-zstd text compressed (omega (arith, size)) encoded))),
                ap (λ t. drop raw_chunk_header_len t.buffer) (sym emptied),
              )
        ]
    take_encoded_chunk-recv_message uncompressed w next chunk went small allowed fits =
        Delivers-plain uncompressed w next chunk went (λ _. refl) allowed fits
    take_encoded_chunk-recv_message auto w next chunk went small allowed fits =
        Delivers-plain auto w next chunk went (λ _. refl) allowed fits
