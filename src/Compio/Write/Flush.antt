-- ===== src/Compio/Write/Flush.antt =====
-- `poll_flush` of the sinks of sansrpc-compio/src/lib.rs and of sansrpc-tokio/src/tcp.rs.
use sansrpc.Prelude.{ℕ, zero, suc, true, ◌≡◌, refl, ap, ◌∙◌, none, some, List, [], continue, resume}
use sansrpc.Proto.Encoder.{SansEncoder}
use sansrpc.Proto.Buffer.{BytesMut}
use sansrpc.Proto.WriteState.{ConnectionWriteState}
use sansrpc.Proto.WriteState
use sansrpc.Proto.WriteState.Queue.{consume_all_lem}
use sansrpc.Proto.Connection.{consume_all}
use sansrpc.Poll.{WriteAnswer, next_write, AsyncWrite}
use sansrpc.Tokio.{TokioSansConnection}
use sansrpc.Tokio.Write as TokioSink
use sansrpc.Compio
use sansrpc.Compio.{CompioSansWriteConnection}
use sansrpc.Compio.Write as Sink
use sansrpc.Compio.Write.TokioLaw.{
  as_state, as_tokio, embedded, round, GoesEmpty, resume-round, writing-round, writing-GoesEmpty,
  write_out-round, write_out-GoesEmpty,
}

module _ {In Out Encoder Decoder Reader Writer Buffer : Type 0}
    (base : TokioSansConnection In Out Encoder Decoder Reader Writer Buffer) where
  module _ {X : Type 0} where
    module _ {E : Type 0} (bytes : BytesMut Buffer) (io : AsyncWrite Writer)
        (encoder : SansEncoder Encoder Out E) where
      module _ (c : CompioSansWriteConnection Out Encoder Writer Buffer)
          (answers : List (WriteAnswer X)) (e : c.connection_state.send_queue ≡ []) where
        consumed_empty : (WriteState.consume_all bytes c.connection_state).0.send_queue ≡ []
        consumed_empty = (consume_all_lem bytes c.connection_state).0.same_queue ∙ e

        queue_empty : WriteState.write_queue_empty c.connection_state ≡ true
        unfolding WriteState.write_queue_empty
        queue_empty = ap WriteState.is_empty e

        flush-round :
            (ws : Compio.WriteState Writer)
            → TokioSink.match_flush bytes io (as_state ws) (as_tokio base c) answers
              ≡ round base (Sink.match_flush bytes io encoder ws c answers)
        unfolding TokioSink.match_flush Sink.match_flush Sink.after_process consume_all
        flush-round (Compio.WriteState.idle none) = refl
        flush-round (Compio.WriteState.idle (some writer)) = rw queue_empty (
            write_out-round base io c writer (WriteState.consume_all bytes c.connection_state) _ _
              answers refl)
        flush-round (Compio.WriteState.writing fut) =
            writing-round base io c fut (next_write answers).0 (next_write answers).1
              (λ writer. continue (Sink.put_back c writer, (next_write answers).1))
        flush-round (Compio.WriteState.closing fut) = refl

        flush-GoesEmpty :
            (ws : Compio.WriteState Writer)
            → GoesEmpty base (Sink.match_flush bytes io encoder ws c answers)
        unfolding Sink.match_flush Sink.after_process
        flush-GoesEmpty (Compio.WriteState.idle none) = tt
        flush-GoesEmpty (Compio.WriteState.idle (some writer)) = rw queue_empty (
            write_out-GoesEmpty base io c writer (WriteState.consume_all bytes c.connection_state) _
              answers consumed_empty tt)
        flush-GoesEmpty (Compio.WriteState.writing fut) =
            writing-GoesEmpty base io c (Sink.poll_write io fut (next_write answers).0)
              (next_write answers).1 e
        flush-GoesEmpty (Compio.WriteState.closing fut) = tt

      -- `poll_flush` of a compio sink whose send queue is empty does, for every fuel and whatever the
      -- writer answers, what that of the tokio sink does.
      pub poll_flush-as_tokio :
          (fuel : ℕ) (c : CompioSansWriteConnection Out Encoder Writer Buffer)
          (answers : List (WriteAnswer X))
          → c.connection_state.send_queue ≡ []
          → TokioSink.poll_flush bytes io fuel (as_tokio base c, answers)
            ≡ embedded base (Sink.poll_flush bytes io encoder fuel (c, answers))
      unfolding TokioSink.poll_flush Sink.poll_flush
      poll_flush-as_tokio zero c answers e = refl
      poll_flush-as_tokio (suc fuel) c answers e =
          ap (resume (TokioSink.poll_flush bytes io fuel)) (flush-round c answers e c.write_state)
          ∙ resume-round base (λ t. t.connection_state.send_queue ≡ [])
              (TokioSink.poll_flush bytes io fuel) (Sink.poll_flush bytes io encoder fuel)
              (Sink.match_flush bytes io encoder c.write_state c answers)
              (flush-GoesEmpty c answers e c.write_state) (poll_flush-as_tokio fuel)
