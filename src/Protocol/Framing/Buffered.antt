-- ===== src/Protocol/Framing/Buffered.antt =====
-- `MessageWriter`, which collects frames in a buffer. Its constructor reserves memory only.
pub mod Stream
pub mod Commands
pub mod Bounds
use jibs.Prelude.{
  ℕ, ◌+◌, ◌-◌, ◌≤◌, ◌<◌, Bool, true, false, not, List, [], ◌∷◌, ◌++◌, ◌≡◌, ◌∙◌, sym, ap, refl, ◌⊎◌,
  inl, inr, append-nil, append_assoc, arith, if◌then◌else◌, leb, ltb, ◌==◌, Bytes, length,
  length-append, take, drop, replicate, take-length-append, drop-length-append, Bool-cases,
}
use jibs.Prelude.Io.{IoError, Io, after, ◌>>=◌, ◌>>◌, done, Writer}
use jibs.Prelude.Result.{Result, ok, err, Result-cases}
use jibs.Prelude.Words.{to_le_bytes, length-to_le_bytes}
use jibs.Protocol.Framing.{Bincode}

pub record MessageWriter (W : Type 0) : Type 0 where
  pub inner : W
  pub buf : Bytes
  pub capacity : ℕ

-- `MessageWriter::with_capacity`
abbrev pub with_capacity : {W : Type 0} → ℕ → W → MessageWriter W
with_capacity capacity inner = record { inner = inner; buf = []; capacity = capacity }

-- The end of `encode_into_buf`: an error of the encoder returns at once; else the length is written.
abbrev pub patch_length :
    {W : Type 0} → Result IoError (Unit {0}) → ℕ → Bytes → Io (MessageWriter W) (Unit {0})
patch_length (err e) len_pos buf w = (err e, record w { buf = buf })
patch_length (ok _) len_pos buf w = (
  ok tt,
  record w {
    buf = take len_pos buf ++ (to_le_bytes 4 (length buf - len_pos - 4) ++ drop (len_pos + 4) buf);
  },
)

-- `encode_into_buf`: room for the length, the message, and then the length.
unfoldable pub encode_into_buf : {W T : Type 0} → Bincode T → T → Io (MessageWriter W) (Unit {0})
encode_into_buf bincode message w =
    let (encoded, result) = bincode.encode_into message in
    patch_length result (length w.buf) ((w.buf ++ replicate 4 0) ++ encoded) w

-- `encode_message`: the frame of one message, which a caller sends itself.
pub encode_message : {W T : Type 0} → Bincode T → T → Io (MessageWriter W) Bytes
unfolding encode_into_buf
encode_message bincode message w =
    (encode_into_buf bincode message >>= λ _ s. (ok s.buf, s)) (record w { buf = [] })

-- `is_empty`
abbrev pub is_nil : Bytes → Bool
is_nil [] = true
is_nil (_ ∷ _) = false

module _ {W : Type 0} (writer : Writer W) where
  -- A call of the inner writer.
  abbrev pub inner_call : Io W (Unit {0}) → Io (MessageWriter W) (Unit {0})
  inner_call call w = ((call w.inner).0, record w { inner = (call w.inner).1 })

  abbrev pub clear : Io (MessageWriter W) (Unit {0})
  clear w = (ok tt, record w { buf = [] })

  unfoldable pub flush_buf : Io (MessageWriter W) (Unit {0})
  flush_buf w = (if is_nil w.buf then done else (inner_call (writer.write_all w.buf) >> clear)) w

  unfoldable pub flush : Io (MessageWriter W) (Unit {0})
  unfolding flush_buf
  flush = flush_buf >> inner_call writer.flush

  abbrev pub extend : Bytes → Io (MessageWriter W) (Unit {0})
  extend bytes w = (ok tt, record w { buf = w.buf ++ bytes })

  unfoldable pub write_preencoded : Bytes → Io (MessageWriter W) (Unit {0})
  unfolding flush_buf
  write_preencoded bytes w =
      (if leb (length w.buf + length bytes) w.capacity
          then extend bytes
          else (flush_buf
              >> (if leb (length bytes) w.capacity
                  then extend bytes
                  else inner_call (writer.write_all bytes))))
        w

  module _ {T : Type 0} (bincode : Bincode T) where
    unfoldable pub write_message_noflush : T → Io (MessageWriter W) (Unit {0})
    unfolding encode_into_buf flush_buf
    write_message_noflush message = encode_into_buf bincode message >> λ w.
        (if leb w.capacity (length w.buf) then flush_buf else done) w

    unfoldable pub write_message : T → Io (MessageWriter W) (Unit {0})
    unfolding write_message_noflush flush
    write_message message = write_message_noflush message >> flush
