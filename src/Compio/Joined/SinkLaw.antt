-- ===== src/Compio/Joined/SinkLaw.antt =====
-- The two sinks of sansrpc-compio/src/lib.rs: that of the joined connection and that of its write half
-- once it has been split.
use sansrpc.Prelude.{
  ℕ, zero, suc, ◌≡◌, refl, ap, ◌∙◌, Option, none, some, Bool-cases, inl, inr, List, Result, Outcome,
  continue, return, resume,
}
use sansrpc.Proto.Encoder.{SansEncoder}
use sansrpc.Proto.Buffer.{BytesMut}
use sansrpc.Proto.WriteState.{ConnectionWriteState}
use sansrpc.Proto.WriteState
use sansrpc.Proto.Connection
use sansrpc.Proto.Connection.{on_write}
use sansrpc.Poll.{
  Poll, pending, ready, Call, returns, panics, spins, WriteAnswer, next_write, AsyncWrite,
  SinkResult, WriteRound,
}
use sansrpc.Compio.{
  WriteFuture, WriteState as Writes, CompioSansConnection, CompioSansWriteConnection,
}
use sansrpc.Compio.Write as Half
use sansrpc.Compio.Joined.Sink as Joined

module _ {In Out Encoder Decoder Reader Writer Buffer : Type 0}
    (c : CompioSansConnection In Out Encoder Decoder Reader Writer Buffer) where
  -- The connection with the write half `h`.
  abbrev pub with_writer :
      CompioSansWriteConnection Out Encoder Writer Buffer
      → CompioSansConnection In Out Encoder Decoder Reader Writer Buffer
  with_writer h = record c {
    connection_state = record c.connection_state { write = h.connection_state };
    write_state = h.write_state;
  }

  module _ {X : Type 0} where
    abbrev joined :
        WriteRound (CompioSansWriteConnection Out Encoder Writer Buffer) X
        → WriteRound (CompioSansConnection In Out Encoder Decoder Reader Writer Buffer) X
    joined (continue (h, answers)) = continue (with_writer h, answers)
    joined (return (h, answers) result) = return (with_writer h, answers) result

    abbrev pub joined_result :
        (CompioSansWriteConnection Out Encoder Writer Buffer × List (WriteAnswer X))
          × Call (SinkResult X)
        → (CompioSansConnection In Out Encoder Decoder Reader Writer Buffer × List (WriteAnswer X))
          × Call (SinkResult X)
    joined_result ((h, answers), result) = ((with_writer h, answers), result)

    pub resume-joined :
        (next : CompioSansConnection In Out Encoder Decoder Reader Writer Buffer
            × List (WriteAnswer X)
          → (CompioSansConnection In Out Encoder Decoder Reader Writer Buffer
              × List (WriteAnswer X))
            × Call (SinkResult X))
        (next' : CompioSansWriteConnection Out Encoder Writer Buffer × List (WriteAnswer X)
          → (CompioSansWriteConnection Out Encoder Writer Buffer × List (WriteAnswer X))
            × Call (SinkResult X))
        → ((h : CompioSansWriteConnection Out Encoder Writer Buffer)
              (answers : List (WriteAnswer X))
            → next (with_writer h, answers) ≡ joined_result (next' (h, answers)))
        → (r : WriteRound (CompioSansWriteConnection Out Encoder Writer Buffer) X)
        → resume next (joined r) ≡ joined_result (resume next' r)
    resume-joined next next' same (continue (h, answers)) = same h answers
    resume-joined next next' same (return (h, answers) result) = refl

    after_write-joined :
        (store : WriteFuture Writer → Writes Writer)
        (q : WriteFuture Writer × Call (Poll (Result X Writer)))
        (next : Writer → WriteRound (CompioSansWriteConnection Out Encoder Writer Buffer) X)
        (h : CompioSansWriteConnection Out Encoder Writer Buffer) (answers : List (WriteAnswer X))
        → Joined.after_write store q (λ writer. joined (next writer)) (with_writer h) answers
          ≡ joined (Half.after_write store q next h answers)
    unfolding Joined.after_write Half.after_write
    after_write-joined store (fut, returns pending) next h answers = refl
    after_write-joined store (fut, returns (ready (Result.err x))) next h answers = refl
    after_write-joined store (fut, returns (ready (Result.ok writer))) next h answers = refl
    after_write-joined store (fut, panics) next h answers = refl
    after_write-joined store (fut, spins) next h answers = refl

    write_out-joined :
        (writer : Writer) (q : ConnectionWriteState Out Encoder Buffer × Option (List ℕ))
        (empty : CompioSansConnection In Out Encoder Decoder Reader Writer Buffer
          → WriteRound (CompioSansConnection In Out Encoder Decoder Reader Writer Buffer) X)
        (empty' : CompioSansWriteConnection Out Encoder Writer Buffer
          → WriteRound (CompioSansWriteConnection Out Encoder Writer Buffer) X)
        (h : CompioSansWriteConnection Out Encoder Writer Buffer) (answers : List (WriteAnswer X))
        → empty (with_writer (record h { connection_state = q.0 }))
          ≡ joined (empty' (record h { connection_state = q.0 }))
        → Joined.write_out writer (on_write c.connection_state q) empty (with_writer h) answers
          ≡ joined (Half.write_out writer q empty' h answers)
    unfolding Joined.write_out Half.write_out
    write_out-joined writer (state, none) empty empty' h answers same = same
    write_out-joined writer (state, some input) empty empty' h answers same = refl

    module _ (io : AsyncWrite Writer) where
      pub ready-joined :
          (ws : Writes Writer) (h : CompioSansWriteConnection Out Encoder Writer Buffer)
          (answers : List (WriteAnswer X))
          → Joined.match_ready io ws (with_writer h) answers
            ≡ joined (Half.match_ready io ws h answers)
      unfolding Joined.match_ready Half.match_ready
      ready-joined (Writes.idle _) h answers = refl
      ready-joined (Writes.writing fut) h answers =
          after_write-joined Writes.writing (Half.poll_write io fut (next_write answers).0)
            (λ writer.
              return (Half.put_back h writer, (next_write answers).1)
                (returns (ready (Result.ok tt))))
            h (next_write answers).1
      ready-joined (Writes.closing fut) h answers = refl

      module _ (bytes : BytesMut Buffer) where
        close-joined :
            (ws : Writes Writer) (h : CompioSansWriteConnection Out Encoder Writer Buffer)
            (answers : List (WriteAnswer X))
            → Joined.match_close bytes io ws (with_writer h) answers
              ≡ joined (Half.match_close bytes io ws h answers)
        unfolding Joined.match_close Half.match_close Connection.consume_all
        close-joined (Writes.idle none) h answers = refl
        close-joined (Writes.idle (some writer)) h answers =
            write_out-joined writer (WriteState.consume_all bytes h.connection_state) _ _ h answers
              refl
        close-joined (Writes.writing fut) h answers =
            after_write-joined Writes.writing (Half.poll_write io fut (next_write answers).0)
              (λ writer. continue (Half.put_back h writer, (next_write answers).1)) h
              (next_write answers).1
        close-joined (Writes.closing fut) h answers =
            let polled = Half.poll_write io fut (next_write answers).0 in
            after_write-joined Writes.closing polled
              (λ _.
                return (record h { write_state = Writes.closing polled.0 }, (next_write answers).1)
                  (returns (ready (Result.ok tt))))
              h (next_write answers).1

        pub poll_close-joined :
            (fuel : ℕ) (h : CompioSansWriteConnection Out Encoder Writer Buffer)
            (answers : List (WriteAnswer X))
            → Joined.poll_close bytes io fuel (with_writer h, answers)
              ≡ joined_result (Half.poll_close bytes io fuel (h, answers))
        unfolding Joined.poll_close Half.poll_close
        poll_close-joined zero h answers = refl
        poll_close-joined (suc fuel) h answers =
            ap (resume (Joined.poll_close bytes io fuel)) (close-joined h.write_state h answers)
            ∙ resume-joined (Joined.poll_close bytes io fuel) (Half.poll_close bytes io fuel)
                (poll_close-joined fuel) (Half.match_close bytes io h.write_state h answers)

        module _ {E : Type 0} (encoder : SansEncoder Encoder Out E) where
          after_process-joined :
              (writer : Writer) (q : ConnectionWriteState Out Encoder Buffer × Outcome E (Unit {0}))
              (h : CompioSansWriteConnection Out Encoder Writer Buffer)
              (answers : List (WriteAnswer X))
              → Joined.after_process bytes io encoder writer
                  (on_write c.connection_state q)
                  (with_writer h)
                  answers
                ≡ joined (Half.after_process bytes io encoder writer q h answers)
          unfolding Joined.after_process Half.after_process Connection.consume_all
          after_process-joined writer (state, Outcome.ok _) h answers =
              write_out-joined writer (WriteState.consume_all bytes state) _ _ h answers refl
          after_process-joined writer (state, Outcome.err _) h answers = refl
          after_process-joined writer (state, Outcome.panicked) h answers = refl
          after_process-joined writer (state, Outcome.diverged) h answers = refl

          flush-joined :
              (ws : Writes Writer) (h : CompioSansWriteConnection Out Encoder Writer Buffer)
              (answers : List (WriteAnswer X))
              → Joined.match_flush bytes io encoder ws (with_writer h) answers
                ≡ joined (Half.match_flush bytes io encoder ws h answers)
          unfolding Joined.match_flush Half.match_flush Connection.process_write
              Connection.write_queue_empty
          flush-joined (Writes.idle none) h answers = refl
          flush-joined (Writes.idle (some writer)) h answers =
              elim (Bool-cases (WriteState.write_queue_empty h.connection_state)) [
                | inl e ↦
                    rw e (after_process-joined writer (h.connection_state, Outcome.ok tt) h answers)
                | inr e ↦ rw e (
                    after_process-joined writer
                      (WriteState.process bytes encoder h.connection_state) h answers)
              ]
          flush-joined (Writes.writing fut) h answers =
              after_write-joined Writes.writing (Half.poll_write io fut (next_write answers).0)
                (λ writer. continue (Half.put_back h writer, (next_write answers).1)) h
                (next_write answers).1
          flush-joined (Writes.closing fut) h answers = refl

          pub poll_flush-joined :
              (fuel : ℕ) (h : CompioSansWriteConnection Out Encoder Writer Buffer)
              (answers : List (WriteAnswer X))
              → Joined.poll_flush bytes io encoder fuel (with_writer h, answers)
                ≡ joined_result (Half.poll_flush bytes io encoder fuel (h, answers))
          unfolding Joined.poll_flush Half.poll_flush
          poll_flush-joined zero h answers = refl
          poll_flush-joined (suc fuel) h answers =
              ap (resume (Joined.poll_flush bytes io encoder fuel))
                (flush-joined h.write_state h answers)
              ∙ resume-joined (Joined.poll_flush bytes io encoder fuel)
                  (Half.poll_flush bytes io encoder fuel) (poll_flush-joined fuel)
                  (Half.match_flush bytes io encoder h.write_state h answers)
