-- ===== src/Compio/Write/TokioLaw.antt =====
-- The sinks of sansrpc-compio/src/lib.rs and of sansrpc-tokio/src/tcp.rs, side by side.
use sansrpc.Prelude.{ℕ, ◌≡◌, refl, Option, none, some, List, [], Result, continue, return, resume}
use sansrpc.Proto.WriteState.{ConnectionWriteState}
use sansrpc.Proto.Connection.{on_write}
use sansrpc.Poll.{
  Poll, pending, ready, Call, returns, panics, spins, WriteAnswer, AsyncWrite, SinkResult,
  WriteRound,
}
use sansrpc.Tokio
use sansrpc.Tokio.{TokioSansConnection}
use sansrpc.Tokio.Write as TokioSink
use sansrpc.Compio
use sansrpc.Compio.{CompioSansWriteConnection}
use sansrpc.Compio.Write as Sink

abbrev pub as_future : {Writer : Type 0} → Compio.WriteFuture Writer → Tokio.WriteFuture Writer
as_future (Compio.writes_all writer input) = Tokio.writes_all writer input
as_future (Compio.shuts_down writer) = Tokio.shuts_down writer
as_future Compio.write_done = Tokio.write_done

abbrev pub as_state : {Writer : Type 0} → Compio.WriteState Writer → Tokio.WriteState Writer
as_state (Compio.WriteState.idle writer) = Tokio.WriteState.idle writer
as_state (Compio.WriteState.writing fut) = Tokio.WriteState.writing (as_future fut)
as_state (Compio.WriteState.closing fut) = Tokio.WriteState.closing (as_future fut)

module _ {In Out Encoder Decoder Reader Writer Buffer : Type 0}
    (base : TokioSansConnection In Out Encoder Decoder Reader Writer Buffer) where
  -- The write half over tokio, in a connection whose read half is that of `base`.
  abbrev pub as_tokio :
      CompioSansWriteConnection Out Encoder Writer Buffer
      → TokioSansConnection In Out Encoder Decoder Reader Writer Buffer
  as_tokio c = record base {
    state = record base.state { write = c.connection_state };
    write_state = as_state c.write_state;
  }

  module _ {X : Type 0} where
    abbrev pub embedded :
        (CompioSansWriteConnection Out Encoder Writer Buffer × List (WriteAnswer X))
          × Call (SinkResult X)
        → (TokioSansConnection In Out Encoder Decoder Reader Writer Buffer × List (WriteAnswer X))
          × Call (SinkResult X)
    embedded ((c, answers), result) = ((as_tokio c, answers), result)

    abbrev pub round :
        WriteRound (CompioSansWriteConnection Out Encoder Writer Buffer) X
        → WriteRound (TokioSansConnection In Out Encoder Decoder Reader Writer Buffer) X
    round (continue (c, answers)) = continue (as_tokio c, answers)
    round (return (c, answers) result) = return (as_tokio c, answers) result

    -- A round that goes on leaves a connection with `P`.
    abbrev pub Goes :
        (CompioSansWriteConnection Out Encoder Writer Buffer → Type 0)
        → WriteRound (CompioSansWriteConnection Out Encoder Writer Buffer) X
        → Type 0
    Goes P (continue (c, answers)) = P c
    Goes P (return here result) = Unit {0}

    abbrev pub GoesEmpty :
        WriteRound (CompioSansWriteConnection Out Encoder Writer Buffer) X → Type 0
    GoesEmpty = Goes (λ c. c.connection_state.send_queue ≡ [])

    pub Goes-all :
        (r : WriteRound (CompioSansWriteConnection Out Encoder Writer Buffer) X)
        → Goes (λ c. Unit {0}) r
    Goes-all (continue here) = tt
    Goes-all (return here result) = tt

    pub resume-round :
        (P : CompioSansWriteConnection Out Encoder Writer Buffer → Type 0)
        (next : TokioSansConnection In Out Encoder Decoder Reader Writer Buffer
            × List (WriteAnswer X)
          → (TokioSansConnection In Out Encoder Decoder Reader Writer Buffer × List (WriteAnswer X))
            × Call (SinkResult X))
        (next' : CompioSansWriteConnection Out Encoder Writer Buffer × List (WriteAnswer X)
          → (CompioSansWriteConnection Out Encoder Writer Buffer × List (WriteAnswer X))
            × Call (SinkResult X))
        (r : WriteRound (CompioSansWriteConnection Out Encoder Writer Buffer) X)
        → Goes P r
        → ((c : CompioSansWriteConnection Out Encoder Writer Buffer)
              (answers : List (WriteAnswer X))
            → P c
            → next (as_tokio c, answers) ≡ embedded (next' (c, answers)))
        → resume next (round r) ≡ embedded (resume next' r)
    resume-round P next next' (continue (c, answers)) e same = same c answers e
    resume-round P next next' (return (c, answers) result) e same = refl

    module _ (io : AsyncWrite Writer)
        (c : CompioSansWriteConnection Out Encoder Writer Buffer) where
      pub writing-round :
          (fut : Compio.WriteFuture Writer) (answer : WriteAnswer X) (rest : List (WriteAnswer X))
          (next : Writer → WriteRound (CompioSansWriteConnection Out Encoder Writer Buffer) X)
          → TokioSink.after_write Tokio.WriteState.writing
              (Tokio.poll_write io (as_future fut) answer)
              (λ writer. round (next writer))
              (as_tokio c)
              rest
            ≡ round (
                Sink.after_write Compio.WriteState.writing
                  (Sink.poll_write io fut answer)
                  next
                  c
                  rest)
      unfolding TokioSink.after_write Sink.after_write
      writing-round (Compio.writes_all writer input) WriteAnswer.not_ready rest next = refl
      writing-round (Compio.writes_all writer input) (WriteAnswer.failed x) rest next = refl
      writing-round (Compio.writes_all writer input) WriteAnswer.completed rest next = refl
      writing-round (Compio.shuts_down writer) WriteAnswer.not_ready rest next = refl
      writing-round (Compio.shuts_down writer) (WriteAnswer.failed x) rest next = refl
      writing-round (Compio.shuts_down writer) WriteAnswer.completed rest next = refl
      writing-round Compio.write_done answer rest next = refl

      pub writing-GoesEmpty :
          (q : Compio.WriteFuture Writer × Call (Poll (Result X Writer)))
          (rest : List (WriteAnswer X))
          → c.connection_state.send_queue ≡ []
          → GoesEmpty (
              Sink.after_write Compio.WriteState.writing q
                (λ writer. continue (Sink.put_back c writer, rest))
                c
                rest)
      unfolding Sink.after_write
      writing-GoesEmpty (fut, returns pending) rest e = tt
      writing-GoesEmpty (fut, returns (ready (Result.err x))) rest e = tt
      writing-GoesEmpty (fut, returns (ready (Result.ok writer))) rest e = e
      writing-GoesEmpty (fut, panics) rest e = tt
      writing-GoesEmpty (fut, spins) rest e = tt

      pub write_out-round :
          (writer : Writer) (q : ConnectionWriteState Out Encoder Buffer × Option (List ℕ))
          (empty : TokioSansConnection In Out Encoder Decoder Reader Writer Buffer
            → WriteRound (TokioSansConnection In Out Encoder Decoder Reader Writer Buffer) X)
          (empty' : CompioSansWriteConnection Out Encoder Writer Buffer
            → WriteRound (CompioSansWriteConnection Out Encoder Writer Buffer) X)
          (answers : List (WriteAnswer X))
          → empty (as_tokio (record c { connection_state = q.0 }))
            ≡ round (empty' (record c { connection_state = q.0 }))
          → TokioSink.write_out writer (on_write (as_tokio c).state q) empty (as_tokio c) answers
            ≡ round (Sink.write_out writer q empty' c answers)
      unfolding TokioSink.write_out Sink.write_out
      write_out-round writer (state, none) empty empty' answers same = same
      write_out-round writer (state, some input) empty empty' answers same = refl

      pub write_out-GoesEmpty :
          (writer : Writer) (q : ConnectionWriteState Out Encoder Buffer × Option (List ℕ))
          (empty : CompioSansWriteConnection Out Encoder Writer Buffer
            → WriteRound (CompioSansWriteConnection Out Encoder Writer Buffer) X)
          (answers : List (WriteAnswer X))
          → q.0.send_queue ≡ []
          → GoesEmpty (empty (record c { connection_state = q.0 }))
          → GoesEmpty (Sink.write_out writer q empty c answers)
      unfolding Sink.write_out
      write_out-GoesEmpty writer (state, none) empty answers e h = h
      write_out-GoesEmpty writer (state, some input) empty answers e h = e
