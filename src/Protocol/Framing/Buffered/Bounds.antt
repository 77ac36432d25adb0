-- ===== src/Protocol/Framing/Buffered/Bounds.antt =====
-- The buffer of a `MessageWriter` stays within its capacity.
use jibs.Prelude.{
  ◌+◌, ◌≤◌, List, [], ◌∷◌, ◌≡◌, ap, inl, inr, arith, if◌then◌else◌, leb, Bytes, length,
  length-append, Bool-cases,
}
use jibs.Prelude.Io.{IoError, Io, after, ◌>>◌, done, Writer}
use jibs.Prelude.Result.{Result, ok, Result-cases}
use jibs.Protocol.Framing.{Bincode}
use jibs.Protocol.Framing.Buffered.{
  MessageWriter, encode_into_buf, inner_call, extend, flush_buf, flush, write_preencoded,
  write_message_noflush, write_message,
}
use jibs.Protocol.Framing.Buffered.Commands.{
  Command, send, queue, raw, flush_now, perform, perform_all, Took-perform_all,
}
use jibs.Protocol.Framing.Buffered.Stream.{flush_buf_empties}

abbrev pub IsBounded : {W : Type 0} → MessageWriter W → Type 0
IsBounded w = length w.buf ≤ w.capacity

module _ {W : Type 0} (writer : Writer W) where
  -- A success leaves the buffer within the capacity.
  abbrev Bounds : Result IoError (Unit {0}) × MessageWriter W → Type 0
  Bounds out = out.0 ≡ ok tt → IsBounded out.1

  Bounds-bind :
      (m k : Io (MessageWriter W) (Unit {0})) (w : MessageWriter W)
      → ((m w).0 ≡ ok tt → Bounds (k (m w).1))
      → Bounds ((m >> k) w)
  Bounds-bind m k w later = elim (Result-cases (m w).0) [
    | inr (e, failed) ↦ rw (failed, after) (λ o. cc o)
    | inl (u, went) ↦ rw (went, after) (later went)
  ]

  Bounds-flush_buf : (w : MessageWriter W) → Bounds (flush_buf writer w)
  Bounds-flush_buf w o =
      let (sent, empty) = (flush_buf_empties writer w).0 o in rw empty (omega arith)

  Bounds-flush : (w : MessageWriter W) → Bounds (flush writer w)
  unfolding flush
  Bounds-flush w =
      Bounds-bind (flush_buf writer) (inner_call writer writer.flush) w λ o _. Bounds-flush_buf w o

  Bounds-write_preencoded :
      (bytes : Bytes) (w : MessageWriter W) → Bounds (write_preencoded writer bytes w)
  unfolding write_preencoded
  Bounds-write_preencoded bytes w =
      elim (Bool-cases (leb (length w.buf + length bytes) w.capacity)) [
        | inl fits ↦ simp fits (λ _. ground (arith, length-append w.buf bytes))
        | inr full ↦ simp full (
            Bounds-bind (flush_buf writer)
              (if leb (length bytes) w.capacity
                then extend writer bytes
                else inner_call writer (writer.write_all bytes))
              w
              λ o. elim (Bool-cases (leb (length bytes) w.capacity)) [
                | inl small ↦ simp small (λ _.
                    let v = (flush_buf writer w).1 in
                    let (sent, empty) = (flush_buf_empties writer w).0 o in
                    let same = (flush_buf_empties writer w).1 in
                    ground (arith, length-append v.buf bytes, ap length empty, same))
                | inr large ↦ simp large (λ _. Bounds-flush_buf w o)
              ])
      ]

  module _ {T : Type 0} (bincode : Bincode T) where
    Bounds-write_message_noflush :
        (message : T) (w : MessageWriter W)
        → Bounds (write_message_noflush writer bincode message w)
    unfolding write_message_noflush
    Bounds-write_message_noflush message w =
        Bounds-bind (encode_into_buf bincode message)
          (λ v. (if leb v.capacity (length v.buf) then flush_buf writer else done) v) w
          λ _.
            let v = (encode_into_buf bincode message w).1 in
            elim (Bool-cases (leb v.capacity (length v.buf))) [
              | inl full ↦ simp full (Bounds-flush_buf v)
              | inr roomy ↦ simp roomy (λ _. ground arith)
            ]

    Bounds-write_message :
        (message : T) (w : MessageWriter W) → Bounds (write_message writer bincode message w)
    unfolding write_message
    Bounds-write_message message w =
        Bounds-bind (write_message_noflush writer bincode message) (flush writer) w
          λ _. Bounds-flush _

    Bounds-perform : (c : Command T) (w : MessageWriter W) → Bounds (perform bincode writer c w)
    unfolding perform
    Bounds-perform (send message) w = Bounds-write_message message w
    Bounds-perform (queue message) w = Bounds-write_message_noflush message w
    Bounds-perform (raw bytes) w = Bounds-write_preencoded bytes w
    Bounds-perform flush_now w = Bounds-flush w

    Bounds-perform_all :
        (cs : List (Command T)) (w : MessageWriter W)
        → IsBounded w
        → Bounds (perform_all bincode writer cs w)
    unfolding perform_all
    Bounds-perform_all [] w fits o = fits
    Bounds-perform_all (c ∷ cs) w fits o =
        Bounds-bind (perform bincode writer c) (perform_all bincode writer cs) w
          (λ went. Bounds-perform_all cs (perform bincode writer c w).1 (Bounds-perform c w went)) o

    -- After any run of successful writing commands, whatever the sizes of the messages and chunks,
    -- the buffer holds at most as many bytes as the capacity that the writer had before the run, if
    -- it did before, and the writer still has that capacity.
    pub perform_all-IsBounded :
        (cs : List (Command T)) (w : MessageWriter W)
        → IsBounded w
        → (perform_all bincode writer cs w).0 ≡ ok tt
        → (length (perform_all bincode writer cs w).1.buf ≤ w.capacity)
          × ((perform_all bincode writer cs w).1.capacity ≡ w.capacity)
    perform_all-IsBounded cs w fits o =
        let same = (Took-perform_all bincode writer cs w).same_capacity in
        (omega (arith, Bounds-perform_all cs w fits o, same), same)
