-- ===== src/Protocol/Framing/Buffered/Stream.antt =====
-- The buffered writer against its specification: the bytes that it has taken so far.
use jibs.Prelude.{
  ◌+◌, ◌-◌, [], ◌++◌, ◌≡◌, ◌∙◌, sym, ap, refl, inl, inr, append-nil, append_assoc, arith,
  if◌then◌else◌, leb, Bytes, length, length-append, take, drop, replicate, take-length-append,
  drop-length-append, Bool-cases,
}
use jibs.Prelude.Io.{IoError, Io, after, ◌>>◌, done, Writer}
use jibs.Prelude.Result.{Result, ok, Result-cases}
use jibs.Prelude.Words.{to_le_bytes}
use jibs.Protocol.Framing.{Bincode}
use jibs.Protocol.Framing.Buffered.{
  MessageWriter, encode_into_buf, is_nil, inner_call, flush_buf, flush, extend, clear,
  write_preencoded, write_message_noflush, write_message,
}

-- The frame of an encoded message.
abbrev pub frame : Bytes → Bytes
frame encoded = to_le_bytes 4 (length encoded) ++ encoded

module _ {W : Type 0} (writer : Writer W) where
  -- What the inner writer has taken, and what waits in the buffer.
  abbrev pub taken : MessageWriter W → Bytes
  taken w = writer.contents w.inner ++ w.buf

  -- A success has taken `bytes` more, and kept the capacity.
  pub record Took (bytes : Bytes) (w : MessageWriter W)
      (out : Result IoError (Unit {0}) × MessageWriter W) : Type 0 where
    pub more : out.0 ≡ ok tt → taken out.1 ≡ taken w ++ bytes
    pub same_capacity : out.1.capacity ≡ w.capacity

  pub Took-bind :
      (a b : Bytes) (m k : Io (MessageWriter W) (Unit {0})) (w : MessageWriter W)
      → Took a w (m w)
      → ((m w).0 ≡ ok tt → Took b (m w).1 (k (m w).1))
      → Took (a ++ b) w ((m >> k) w)
  Took-bind a b m k w h g = elim (Result-cases (m w).0) [
    | inr (e, failed) ↦ record {
      more = λ o. cc (rw (failed, after) at o);
      same_capacity = rw (failed, after) h.same_capacity;
    }
    | inl (u, went) ↦
        let later = g went in
        record {
          more = λ o.
              rw (went, after)
                (later.more (rw (went, after) at o)
                  ∙ ap (λ t. t ++ b) (h.more went)
                  ∙ append_assoc (taken w) a b);
          same_capacity = rw (went, after) (later.same_capacity ∙ h.same_capacity);
        }
  ]

  Took-inner :
      (bytes : Bytes) (w : MessageWriter W)
      → w.buf ≡ []
      → Took bytes w (inner_call writer (writer.write_all bytes) w)
  Took-inner bytes w empty = record {
    more = λ o. rw empty (rw (append-nil, append-nil) (writer.appends bytes w.inner o));
    same_capacity = refl;
  }

  module _ (w : MessageWriter W) where
    abbrev Emptied : Result IoError (Unit {0}) × MessageWriter W → Type 0
    Emptied out =
        (out.0 ≡ ok tt → (writer.contents out.1.inner ≡ taken w) × (out.1.buf ≡ []))
        × (out.1.capacity ≡ w.capacity)

    drained : Emptied ((inner_call writer (writer.write_all w.buf) >> clear writer) w)
    drained = elim (Result-cases (writer.write_all w.buf w.inner).0) [
      | inr (e, failed) ↦ rw (failed, after) ((λ o. cc o), refl)
      | inl (u, went) ↦ rw (went, after) ((λ _. (writer.appends w.buf w.inner went, refl)), refl)
    ]

    -- A flush of the buffer hands all of it to the inner writer.
    pub flush_buf_empties : Emptied (flush_buf writer w)
    unfolding flush_buf
    flush_buf_empties = elim (Bool-cases (is_nil w.buf)) [
      | inr some_bytes ↦ simp some_bytes drained
      | inl nothing ↦
          let e : w.buf ≡ [] = ground arith in
          simp nothing ((λ _. (ground (arith, append-nil (writer.contents w.inner)), e)), refl)
    ]

  pub Took-flush_buf : (w : MessageWriter W) → Took [] w (flush_buf writer w)
  Took-flush_buf w = record {
    more = λ o.
        let (sent, empty) = (flush_buf_empties w).0 o in
        cc (sent, empty, append-nil (taken w), append-nil (taken w));
    same_capacity = (flush_buf_empties w).1;
  }

  pub Took-flush : (w : MessageWriter W) → Took [] w (flush writer w)
  unfolding flush
  Took-flush w =
      Took-bind [] [] (flush_buf writer) (inner_call writer writer.flush) w (Took-flush_buf w) λ _.
        record {
          more = λ o.
              let v = (flush_buf writer w).1 in
              ap (λ t. t ++ v.buf) (writer.flushes v.inner o) ∙ sym (append-nil (taken v));
          same_capacity = refl;
        }

  Took-extend : (bytes : Bytes) (w : MessageWriter W) → Took bytes w (extend writer bytes w)
  Took-extend bytes w = record {
    more = λ _. sym (append_assoc (writer.contents w.inner) w.buf bytes);
    same_capacity = refl;
  }

  pub Took-write_preencoded :
      (bytes : Bytes) (w : MessageWriter W) → Took bytes w (write_preencoded writer bytes w)
  unfolding write_preencoded
  Took-write_preencoded bytes w = elim (Bool-cases (leb (length w.buf + length bytes) w.capacity)) [
    | inl fits ↦ simp fits (Took-extend bytes w)
    | inr full ↦ simp full (
        Took-bind [] bytes (flush_buf writer)
          (if leb (length bytes) w.capacity
            then extend writer bytes
            else inner_call writer (writer.write_all bytes))
          w (Took-flush_buf w)
          λ o. elim (Bool-cases (leb (length bytes) w.capacity)) [
            | inl small ↦ simp small (Took-extend bytes (flush_buf writer w).1)
            | inr large ↦
                simp large (Took-inner bytes (flush_buf writer w).1 ((flush_buf_empties w).0 o).1)
          ])
  ]

  module _ {T : Type 0} (bincode : Bincode T) (message : T) where
    abbrev encoded : Bytes
    encoded = (bincode.encode_into message).0

    -- The length is written over the room that was left for it.
    patched :
        (buf : Bytes)
        → take (length buf) ((buf ++ replicate 4 0) ++ encoded)
            ++ (to_le_bytes 4 (length ((buf ++ replicate 4 0) ++ encoded) - length buf - 4)
                ++ drop (length buf + 4) ((buf ++ replicate 4 0) ++ encoded))
          ≡ buf ++ frame encoded
    patched buf =
        let room : length buf + 4 ≡ length (buf ++ replicate 4 0) =
          omega (arith, length-append buf (replicate 4 0)) in
        let size : length ((buf ++ replicate 4 0) ++ encoded) - length buf - 4 ≡ length encoded =
          omega (
            arith,
            length-append buf (replicate 4 0),
            length-append (buf ++ replicate 4 0) encoded,
          ) in
        rw (size, room, drop-length-append (buf ++ replicate 4 0) encoded)
          (rw append_assoc (rw take-length-append))

    Took-encode_into_buf :
        (w : MessageWriter W) → Took (frame encoded) w (encode_into_buf bincode message w)
    unfolding encode_into_buf
    Took-encode_into_buf w = elim (Result-cases (bincode.encode_into message).1) [
      | inr (e, failed) ↦ rw failed (record { more = λ o. cc o; same_capacity = refl })
      | inl (u, went) ↦ rw went (record {
        more = λ _.
            ap (λ t. writer.contents w.inner ++ t) (patched w.buf)
            ∙ sym (append_assoc (writer.contents w.inner) w.buf (frame encoded));
        same_capacity = refl;
      })
    ]

    Took-done : (w : MessageWriter W) → Took [] w (done w)
    Took-done w = record { more = λ _. sym (append-nil (taken w)); same_capacity = refl }

    pub Took-write_message_noflush :
        (w : MessageWriter W)
        → Took (frame encoded) w (write_message_noflush writer bincode message w)
    unfolding write_message_noflush
    Took-write_message_noflush w = rw (← append-nil (frame encoded)) (
        Took-bind (frame encoded) [] (encode_into_buf bincode message)
          (λ v. (if leb v.capacity (length v.buf) then flush_buf writer else done) v) w
          (Took-encode_into_buf w)
          λ _.
            let v = (encode_into_buf bincode message w).1 in
            elim (Bool-cases (leb v.capacity (length v.buf))) [
              | inl full ↦ simp full (Took-flush_buf v)
              | inr roomy ↦ simp roomy (Took-done v)
            ])

    pub Took-write_message :
        (w : MessageWriter W) → Took (frame encoded) w (write_message writer bincode message w)
    unfolding write_message
    Took-write_message w = rw (← append-nil (frame encoded)) (
        Took-bind (frame encoded) [] (write_message_noflush writer bincode message) (flush writer) w
          (Took-write_message_noflush w) λ _. Took-flush _)
