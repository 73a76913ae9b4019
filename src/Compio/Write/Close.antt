-- ===== src/Compio/Write/Close.antt =====
-- `poll_close` of the sinks of sansrpc-compio/src/lib.rs and of sansrpc-tokio/src/tcp.rs.
use sansrpc.Prelude.{
  ℕ, zero, suc, ◌≡◌, refl, ap, ◌∙◌, none, some, List, Result, continue, return, resume,
}
use sansrpc.Proto.Buffer.{BytesMut}
use sansrpc.Proto.WriteState.{ConnectionWriteState}
use sansrpc.Proto.WriteState
use sansrpc.Proto.Connection.{consume_all}
use sansrpc.Poll.{ready, returns, WriteAnswer, next_write, AsyncWrite}
use sansrpc.Tokio
use sansrpc.Tokio.{TokioSansConnection}
use sansrpc.Tokio.Write as TokioSink
use sansrpc.Compio
use sansrpc.Compio.{CompioSansWriteConnection}
use sansrpc.Compio.Write as Sink
use sansrpc.Compio.Write.TokioLaw.{
  as_future, as_state, as_tokio, embedded, round, Goes-all, resume-round, writing-round,
  write_out-round,
}

module _ {In Out Encoder Decoder Reader Writer Buffer : Type 0}
    (base : TokioSansConnection In Out Encoder Decoder Reader Writer Buffer) where
  module _ {X : Type 0} where
    module _ (bytes : BytesMut Buffer) (io : AsyncWrite Writer) where
      module _ (c : CompioSansWriteConnection Out Encoder Writer Buffer)
          (answers : List (WriteAnswer X)) where
        shut-round :
            (fut : Compio.WriteFuture Writer) (answer : WriteAnswer X) (rest : List (WriteAnswer X))
            → TokioSink.after_write Tokio.WriteState.closing
                (Tokio.poll_write io (as_future fut) answer)
                (λ _.
                  return
                    (
                      record (as_tokio base c) {
                        write_state =
                            Tokio.WriteState.closing (Tokio.poll_write io (as_future fut) answer).0;
                      },
                      rest,
                    )
                    (returns (ready (Result.ok tt))))
                (as_tokio base c)
                rest
              ≡ round base (
                  Sink.after_write Compio.WriteState.closing
                    (Sink.poll_write io fut answer)
                    (λ _.
                      return
                        (
                          record c {
                            write_state =
                                Compio.WriteState.closing (Sink.poll_write io fut answer).0;
                          },
                          rest,
                        )
                        (returns (ready (Result.ok tt))))
                    c
                    rest)
        unfolding TokioSink.after_write Sink.after_write
        shut-round (Compio.writes_all writer input) WriteAnswer.not_ready rest = refl
        shut-round (Compio.writes_all writer input) (WriteAnswer.failed x) rest = refl
        shut-round (Compio.writes_all writer input) WriteAnswer.completed rest = refl
        shut-round (Compio.shuts_down writer) WriteAnswer.not_ready rest = refl
        shut-round (Compio.shuts_down writer) (WriteAnswer.failed x) rest = refl
        shut-round (Compio.shuts_down writer) WriteAnswer.completed rest = refl
        shut-round Compio.write_done answer rest = refl

        close-round :
            (ws : Compio.WriteState Writer)
            → TokioSink.match_close bytes io (as_state ws) (as_tokio base c) answers
              ≡ round base (Sink.match_close bytes io ws c answers)
        unfolding TokioSink.match_close Sink.match_close consume_all
        close-round (Compio.WriteState.idle none) = refl
        close-round (Compio.WriteState.idle (some writer)) =
            write_out-round base io c writer (WriteState.consume_all bytes c.connection_state) _ _
              answers refl
        close-round (Compio.WriteState.writing fut) =
            writing-round base io c fut (next_write answers).0 (next_write answers).1
              (λ writer. continue (Sink.put_back c writer, (next_write answers).1))
        close-round (Compio.WriteState.closing fut) =
            shut-round fut (next_write answers).0 (next_write answers).1

      -- `poll_close` of a compio sink does, for every fuel and whatever the writer answers, what that of
      -- the tokio sink does.
      pub poll_close-as_tokio :
          (fuel : ℕ) (c : CompioSansWriteConnection Out Encoder Writer Buffer)
          (answers : List (WriteAnswer X))
          → TokioSink.poll_close bytes io fuel (as_tokio base c, answers)
            ≡ embedded base (Sink.poll_close bytes io fuel (c, answers))
      unfolding TokioSink.poll_close Sink.poll_close
      poll_close-as_tokio zero c answers = refl
      poll_close-as_tokio (suc fuel) c answers =
          ap (resume (TokioSink.poll_close bytes io fuel)) (close-round c answers c.write_state)
          ∙ resume-round base (λ t. Unit {0}) (TokioSink.poll_close bytes io fuel)
              (Sink.poll_close bytes io fuel) (Sink.match_close bytes io c.write_state c answers)
              (Goes-all base (Sink.match_close bytes io c.write_state c answers))
              (λ t more h. poll_close-as_tokio fuel t more)
