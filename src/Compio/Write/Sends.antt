-- ===== src/Compio/Write/Sends.antt =====
-- `start_send` of the sinks of sansrpc-compio/src/lib.rs and of sansrpc-tokio/src/tcp.rs, and what the
-- sink over compio sends.
use sansrpc.Prelude.{
  ℕ, ◌≡◌, ◌<◌, refl, ap, subst, none, false, Bool-cases, inl, inr, List, [], ◌∷◌, ◌++◌, length, leb,
  Result, arith,
}
use sansrpc.Proto.Message.{Message}
use sansrpc.Proto.Encoder.{SansEncoder}
use sansrpc.Proto.Buffer.{BytesMut}
use sansrpc.Proto.WriteState.{ConnectionWriteState, WriteConnectionConfig}
use sansrpc.Proto.WriteState
use sansrpc.Proto.Connection.{feed_item, process_write}
use sansrpc.Poll.{WriteAnswer, AsyncWrite}
use sansrpc.Tokio
use sansrpc.Tokio.{TokioSansConnection}
use sansrpc.Tokio.Write as TokioSink
use sansrpc.Tokio.Write.Sends.{Sends}
use sansrpc.Tokio.Write.Outcomes.{Flushed, Closed}
use sansrpc.Tokio.Write.Flush as TokioFlush
use sansrpc.Tokio.Write.Close as TokioClose
use sansrpc.Compio
use sansrpc.Compio.{CompioSansWriteConnection}
use sansrpc.Compio.Write as Sink
use sansrpc.Compio.Write.TokioLaw.{as_state, as_tokio, embedded}
use sansrpc.Compio.Write.Flush.{poll_flush-as_tokio}
use sansrpc.Compio.Write.Close.{poll_close-as_tokio}

is_closed-as_state :
    {Writer : Type 0} (ws : Compio.WriteState Writer)
    → Tokio.is_closed (as_state ws) ≡ Sink.is_closed ws
unfolding Tokio.is_closed Sink.is_closed
is_closed-as_state (Compio.WriteState.idle writer) = refl
is_closed-as_state (Compio.WriteState.writing fut) = refl
is_closed-as_state (Compio.WriteState.closing fut) = refl

-- An empty queue that has a size takes the item.
feed_item-ok :
    {Out Encoder Buffer : Type 0} (s : ConnectionWriteState Out Encoder Buffer) (item : Message Out)
    → s.send_queue ≡ []
    → 0 < s.config.send_queue_size
    → WriteState.feed_item s item ≡ (record s { send_queue = s.send_queue ++ item ∷ [] }, none)
unfolding WriteState.feed_item
feed_item-ok s item e sized =
    let room : leb s.config.send_queue_size (length s.send_queue) ≡ false =
      ground (arith, ap length e, sized) in
    rw room refl

module _ {In Out Encoder Decoder Reader Writer Buffer E : Type 0}
    (base : TokioSansConnection In Out Encoder Decoder Reader Writer Buffer)
    (bytes : BytesMut Buffer) (encoder : SansEncoder Encoder Out E) where
  start_send-as_tokio :
      {X : Type 0} (c : CompioSansWriteConnection Out Encoder Writer Buffer) (item : Message Out)
      → c.connection_state.send_queue ≡ []
      → 0 < c.connection_state.config.send_queue_size
      → TokioSink.start_send {X = X} bytes encoder (as_tokio base c) item
        ≡ (let (c', result) = Sink.start_send bytes encoder c item in (as_tokio base c', result))
  unfolding TokioSink.start_send Sink.start_send Sink.after_feed feed_item process_write
  start_send-as_tokio c item e sized = elim (Bool-cases (Sink.is_closed c.write_state)) [
    | inl shut ↦ rw (is_closed-as_state c.write_state, shut) refl
    | inr is_open ↦
        rw (is_closed-as_state c.write_state, is_open, feed_item-ok c.connection_state item e sized)
          refl
  ]

  -- A compio sink whose send queue is empty and has a size does what the tokio sink does: `start_send`
  -- (so that neither `WouldBlock` nor the dropping of an item comes about), and, for every fuel and
  -- whatever the writer answers, `poll_flush` and `poll_close`.
  pub sink-as_tokio :
      {X : Type 0} (io : AsyncWrite Writer)
      (c : CompioSansWriteConnection Out Encoder Writer Buffer) (fuel : ℕ) (item : Message Out)
      (answers : List (WriteAnswer X))
      → c.connection_state.send_queue ≡ []
      → 0 < c.connection_state.config.send_queue_size
      → (TokioSink.start_send {X = X} bytes encoder (as_tokio base c) item
          ≡ (let (c', result) = Sink.start_send bytes encoder c item in (as_tokio base c', result)))
        × (TokioSink.poll_flush bytes io fuel (as_tokio base c, answers)
            ≡ embedded base (Sink.poll_flush bytes io encoder fuel (c, answers)))
        × (TokioSink.poll_close bytes io fuel (as_tokio base c, answers)
            ≡ embedded base (Sink.poll_close bytes io fuel (c, answers)))
  sink-as_tokio io c fuel item answers e sized = (
    start_send-as_tokio c item e sized,
    poll_flush-as_tokio base bytes io encoder fuel c answers e,
    poll_close-as_tokio base bytes io fuel c answers,
  )

  module _ {F : Type 0} (X : Type 0) (io : AsyncWrite Writer)
      (decode : List ℕ → Result F (Message Out)) (config : WriteConnectionConfig Encoder)
      (accepted : List (Message Out)) where
    -- `poll_flush` of a compio sink that holds its writer or a future that has not ended returns within
    -- five rounds, whatever the writer answers, and does not panic. When it answers `Ok`, the writer
    -- has been given the frames of everything that was accepted, in order; `Pending` keeps what was
    -- accepted; `ConnectionReset` comes only from a closing sink.
    pub flush-Flushed :
        (c : CompioSansWriteConnection Out Encoder Writer Buffer) (answers : List (WriteAnswer X))
        → Sends bytes io encoder decode config accepted (as_tokio base c)
        → let (there, result) = Sink.poll_flush bytes io encoder 5 (c, answers) in
          Flushed bytes io encoder decode config accepted (as_tokio base there.0) result
    flush-Flushed c answers v =
        subst (λ q. Flushed bytes io encoder decode config accepted q.0.0 q.1)
          (poll_flush-as_tokio base bytes io encoder 5 c answers v.queue_empty)
          (TokioFlush.poll_flush-Flushed X bytes io encoder decode config accepted (as_tokio base c)
            answers v)

    -- `poll_close` of such a sink returns within five rounds too.
    pub close-Closed :
        (c : CompioSansWriteConnection Out Encoder Writer Buffer) (answers : List (WriteAnswer X))
        → Sends bytes io encoder decode config accepted (as_tokio base c)
        → let (there, result) = Sink.poll_close bytes io 5 (c, answers) in
          Closed bytes io encoder decode config accepted (as_tokio base there.0) result
    close-Closed c answers v =
        subst (λ q. Closed bytes io encoder decode config accepted q.0.0 q.1)
          (poll_close-as_tokio base bytes io 5 c answers)
          (TokioClose.poll_close-Closed X bytes io encoder decode config accepted (as_tokio base c)
            answers v)
