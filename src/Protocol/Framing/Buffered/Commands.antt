-- ===== src/Protocol/Framing/Buffered/Commands.antt =====
-- A run of commands to a `MessageWriter`, in the order in which the server gives them.
use jibs.Prelude.{List, [], ◌∷◌, ◌++◌, ◌≡◌, ◌∙◌, sym, refl, inl, inr, append-nil, Bytes}
use jibs.Prelude.Io.{Io, after, ◌>>◌, done, Writer}
use jibs.Prelude.Result.{ok, Result-cases}
use jibs.Protocol.Framing.{Bincode}
use jibs.Protocol.Framing.Buffered.{
  MessageWriter, flush_buf, flush, write_preencoded, write_message_noflush, write_message,
}
use jibs.Protocol.Framing.Buffered.Stream.{
  frame, taken, Took, Took-bind, Took-flush, Took-write_preencoded, Took-write_message_noflush,
  Took-write_message, flush_buf_empties,
}

-- The public operations that write.
pub data Command (T : Type 0) : Type 0 where
  send queue : T → Command T
  raw : Bytes → Command T
  flush_now : Command T

module _ {T : Type 0} (bincode : Bincode T) where
  -- The bytes that the peer gets for a command: a frame for a message, raw bytes as they are.
  unfoldable pub bytes_of : Command T → Bytes
  bytes_of (send message) = frame (bincode.encode_into message).0
  bytes_of (queue message) = frame (bincode.encode_into message).0
  bytes_of (raw bytes) = bytes
  bytes_of flush_now = []

  unfoldable pub bytes_of_all : List (Command T) → Bytes
  unfolding bytes_of
  bytes_of_all [] = []
  bytes_of_all (c ∷ cs) = bytes_of c ++ bytes_of_all cs

  module _ {W : Type 0} (writer : Writer W) where
    unfoldable pub perform : Command T → Io (MessageWriter W) (Unit {0})
    unfolding write_message write_message_noflush write_preencoded flush
    perform (send message) = write_message writer bincode message
    perform (queue message) = write_message_noflush writer bincode message
    perform (raw bytes) = write_preencoded writer bytes
    perform flush_now = flush writer

    unfoldable pub perform_all : List (Command T) → Io (MessageWriter W) (Unit {0})
    unfolding perform
    perform_all [] = done
    perform_all (c ∷ cs) = perform c >> perform_all cs

    Took-perform : (c : Command T) (w : MessageWriter W) → Took writer (bytes_of c) w (perform c w)
    unfolding perform bytes_of
    Took-perform (send message) w = Took-write_message writer bincode message w
    Took-perform (queue message) w = Took-write_message_noflush writer bincode message w
    Took-perform (raw bytes) w = Took-write_preencoded writer bytes w
    Took-perform flush_now w = Took-flush writer w

    pub Took-perform_all :
        (cs : List (Command T)) (w : MessageWriter W)
        → Took writer (bytes_of_all cs) w (perform_all cs w)
    unfolding perform_all bytes_of_all
    Took-perform_all [] w = record {
      more = λ _. sym (append-nil (taken writer w));
      same_capacity = refl;
    }
    Took-perform_all (c ∷ cs) w =
        Took-bind writer (bytes_of c) (bytes_of_all cs) (perform c) (perform_all cs) w
          (Took-perform c w) λ _. Took-perform_all cs _

    flush_empties :
        (w : MessageWriter W)
        → (flush writer w).0 ≡ ok tt
        → (writer.contents (flush writer w).1.inner ≡ taken writer w)
          × ((flush writer w).1.buf ≡ [])
    unfolding flush
    flush_empties w o = elim (Result-cases (flush_buf writer w).0) [
      | inr (e, failed) ↦ cc (rw (failed, after) at o)
      | inl (u, went) ↦
          let (sent, empty) = (flush_buf_empties writer w).0 went in
          rw (went, after)
            (writer.flushes (flush_buf writer w).1.inner (rw (went, after) at o) ∙ sent, empty)
    ]

    -- After any run of the writing commands and a last `flush`, all of them successful, the inner
    -- writer has taken exactly what it had, what was waiting in the buffer, and the bytes of every
    -- command, in their order, however the buffer was filled and emptied on the way. The buffer is
    -- empty then, and the capacity is the one that the writer had before.
    pub perform_all-flush :
        (cs : List (Command T)) (w : MessageWriter W)
        → ((perform_all cs >> flush writer) w).0 ≡ ok tt
        → (writer.contents ((perform_all cs >> flush writer) w).1.inner
            ≡ (writer.contents w.inner ++ w.buf) ++ bytes_of_all cs)
          × (((perform_all cs >> flush writer) w).1.buf ≡ [])
          × (((perform_all cs >> flush writer) w).1.capacity ≡ w.capacity)
    perform_all-flush cs w o = elim (Result-cases (perform_all cs w).0) [
      | inr (e, failed) ↦ cc (rw (failed, after) at o)
      | inl (u, went) ↦
          let run = Took-perform_all cs w in
          let v = (perform_all cs w).1 in
          let (sent, empty) = flush_empties v (rw (went, after) at o) in
          rw (went, after)
            (sent ∙ run.more went, empty, (Took-flush writer v).same_capacity ∙ run.same_capacity)
    ]
