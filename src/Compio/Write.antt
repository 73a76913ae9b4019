-- ===== src/Compio/Write.antt =====
-- The `Sink` of `CompioSansWriteConnection` in sansrpc-compio/src/lib.rs. The list of answers stands
-- for the writer: each poll of a write takes one from it.
pub mod TokioLaw
pub mod Flush
pub mod Close
pub mod Sends
use sansrpc.Prelude.{
  ℕ, zero, suc, Option, none, some, Bool, true, false, List, Result, Outcome, map_err,
  if◌then◌else◌, continue, return, resume,
}
use sansrpc.Proto.Message.{Message}
use sansrpc.Proto.Encoder.{SansEncoder}
use sansrpc.Proto.Buffer.{BytesMut}
use sansrpc.Proto.WriteState.{
  ConnectionWriteState, process, feed_item, consume_all, write_queue_empty,
}
use sansrpc.Poll.{
  Poll, pending, ready, Call, returns, panics, spins, IoError, invalid_input, invalid_data,
  would_block, connection_reset, transport, WriteAnswer, next_write, AsyncWrite, SinkResult,
  WriteRound,
}
use sansrpc.Compio.{
  WriteFuture, writes_all, shuts_down, write_done, WriteState, CompioSansWriteConnection,
}

unfoldable pub is_closed : {Writer : Type 0} → WriteState Writer → Bool
is_closed (WriteState.closing _) = true
is_closed _ = false

-- One poll of the future of a write.
abbrev pub poll_write :
    {Writer X : Type 0}
    → AsyncWrite Writer
    → WriteFuture Writer
    → WriteAnswer X
    → WriteFuture Writer × Call (Poll (Result X Writer))
poll_write io write_done answer = (write_done, panics)
poll_write io fut WriteAnswer.not_ready = (fut, returns pending)
poll_write io fut (WriteAnswer.failed x) = (write_done, returns (ready (Result.err x)))
poll_write io (writes_all writer input) WriteAnswer.completed =
    (write_done, returns (ready (Result.ok (io.write_all writer input))))
poll_write io (shuts_down writer) WriteAnswer.completed =
    (write_done, returns (ready (Result.ok (io.shutdown (io.flush writer)))))

module _ {Out Encoder Writer Buffer : Type 0} where
  -- The writer is put back.
  abbrev pub put_back :
      CompioSansWriteConnection Out Encoder Writer Buffer
      → Writer
      → CompioSansWriteConnection Out Encoder Writer Buffer
  put_back c writer = record c { write_state = WriteState.idle (some writer) }

module _ {Out Encoder Writer Buffer X : Type 0} where
  -- `ready!(pin.poll_unpin(cx))?`: the writer comes back, or the method returns.
  unfoldable pub after_write :
      (WriteFuture Writer → WriteState Writer)
      → WriteFuture Writer × Call (Poll (Result X Writer))
      → (Writer → WriteRound (CompioSansWriteConnection Out Encoder Writer Buffer) X)
      → CompioSansWriteConnection Out Encoder Writer Buffer
      → List (WriteAnswer X)
      → WriteRound (CompioSansWriteConnection Out Encoder Writer Buffer) X
  after_write store (fut, returns pending) next c answers =
      return (record c { write_state = store fut }, answers) (returns pending)
  after_write store (fut, returns (ready (Result.err x))) next c answers =
      return (record c { write_state = store fut }, answers)
        (returns (ready (Result.err (transport x))))
  after_write store (fut, returns (ready (Result.ok writer))) next c answers = next writer
  after_write store (fut, panics) next c answers =
      return (record c { write_state = store fut }, answers) panics
  after_write store (fut, spins) next c answers =
      return (record c { write_state = store fut }, answers) spins

  -- The bytes of `consume_all` are written, if there are any.
  unfoldable pub write_out :
      Writer
      → ConnectionWriteState Out Encoder Buffer × Option (List ℕ)
      → (CompioSansWriteConnection Out Encoder Writer Buffer
          → WriteRound (CompioSansWriteConnection Out Encoder Writer Buffer) X)
      → CompioSansWriteConnection Out Encoder Writer Buffer
      → List (WriteAnswer X)
      → WriteRound (CompioSansWriteConnection Out Encoder Writer Buffer) X
  write_out writer (state, none) empty c answers = empty (record c { connection_state = state })
  write_out writer (state, some input) empty c answers = continue (
    record c {
      connection_state = state;
      write_state = WriteState.writing (writes_all writer input);
    },
    answers,
  )

module _ {Out Encoder Writer Buffer X : Type 0} (io : AsyncWrite Writer) where
  -- `poll_ready` makes one round; a closing sink is ready.
  unfoldable pub match_ready :
      WriteState Writer
      → CompioSansWriteConnection Out Encoder Writer Buffer
      → List (WriteAnswer X)
      → WriteRound (CompioSansWriteConnection Out Encoder Writer Buffer) X
  unfolding after_write
  match_ready (WriteState.idle _) c answers = return (c, answers) (returns (ready (Result.ok tt)))
  match_ready (WriteState.writing fut) c answers =
      let (answer, rest) = next_write answers in
      after_write WriteState.writing (poll_write io fut answer)
        (λ writer. return (put_back c writer, rest) (returns (ready (Result.ok tt)))) c rest
  match_ready (WriteState.closing _) c answers =
      return (c, answers) (returns (ready (Result.ok tt)))

  unfoldable pub poll_ready :
      CompioSansWriteConnection Out Encoder Writer Buffer × List (WriteAnswer X)
      → (CompioSansWriteConnection Out Encoder Writer Buffer × List (WriteAnswer X))
        × Call (SinkResult X)
  unfolding match_ready
  poll_ready (c, answers) = resume (λ here. (here, spins)) (match_ready c.write_state c answers)

module _ {Out Encoder Writer Buffer E X : Type 0} (bytes : BytesMut Buffer) (io : AsyncWrite Writer)
    (encoder : SansEncoder Encoder Out E) where
  -- Behind `process`: the writer has been taken, and an error drops it.
  unfoldable pub after_process :
      Writer
      → ConnectionWriteState Out Encoder Buffer × Outcome E (Unit {0})
      → CompioSansWriteConnection Out Encoder Writer Buffer
      → List (WriteAnswer X)
      → WriteRound (CompioSansWriteConnection Out Encoder Writer Buffer) X
  unfolding write_out
  after_process writer (state, Outcome.ok _) c answers =
      write_out writer (consume_all bytes state)
        (λ c'. return (put_back c' writer, answers) (returns (ready (Result.ok tt)))) c answers
  after_process writer (state, Outcome.err _) c answers =
      return (record c { connection_state = state; write_state = WriteState.idle none }, answers)
        (returns (ready (Result.err invalid_data)))
  after_process writer (state, Outcome.panicked) c answers =
      return (record c { connection_state = state; write_state = WriteState.idle none }, answers)
        panics
  after_process writer (state, Outcome.diverged) c answers =
      return (record c { connection_state = state; write_state = WriteState.idle none }, answers)
        spins

  unfoldable pub match_flush :
      WriteState Writer
      → CompioSansWriteConnection Out Encoder Writer Buffer
      → List (WriteAnswer X)
      → WriteRound (CompioSansWriteConnection Out Encoder Writer Buffer) X
  unfolding after_write after_process
  match_flush (WriteState.idle none) c answers = return (c, answers) panics
  match_flush (WriteState.idle (some writer)) c answers =
      after_process writer
        (if write_queue_empty c.connection_state
          then (c.connection_state, Outcome.ok tt)
          else process bytes encoder c.connection_state)
        c answers
  match_flush (WriteState.writing fut) c answers =
      let (answer, rest) = next_write answers in
      after_write WriteState.writing (poll_write io fut answer)
        (λ writer. continue (put_back c writer, rest)) c rest
  match_flush (WriteState.closing _) c answers =
      return (c, answers) (returns (ready (Result.err connection_reset)))

  -- `poll_flush`, on fuel.
  unfoldable pub poll_flush :
      ℕ
      → CompioSansWriteConnection Out Encoder Writer Buffer × List (WriteAnswer X)
      → (CompioSansWriteConnection Out Encoder Writer Buffer × List (WriteAnswer X))
        × Call (SinkResult X)
  poll_flush zero here = (here, spins)
  poll_flush (suc fuel) (c, answers) =
      resume (poll_flush fuel) (match_flush c.write_state c answers)

module _ {Out Encoder Writer Buffer X : Type 0} (bytes : BytesMut Buffer)
    (io : AsyncWrite Writer) where
  unfoldable pub match_close :
      WriteState Writer
      → CompioSansWriteConnection Out Encoder Writer Buffer
      → List (WriteAnswer X)
      → WriteRound (CompioSansWriteConnection Out Encoder Writer Buffer) X
  unfolding after_write write_out
  match_close (WriteState.idle none) c answers = return (c, answers) panics
  match_close (WriteState.idle (some writer)) c answers =
      write_out writer (consume_all bytes c.connection_state)
        (λ c'.
          continue (record c' { write_state = WriteState.closing (shuts_down writer) }, answers))
        c answers
  match_close (WriteState.writing fut) c answers =
      let (answer, rest) = next_write answers in
      after_write WriteState.writing (poll_write io fut answer)
        (λ writer. continue (put_back c writer, rest)) c rest
  match_close (WriteState.closing fut) c answers =
      let (answer, rest) = next_write answers in
      after_write WriteState.closing (poll_write io fut answer)
        (λ _.
          return (record c { write_state = WriteState.closing (poll_write io fut answer).0 }, rest)
            (returns (ready (Result.ok tt))))
        c rest

  -- `poll_close`, on fuel.
  unfoldable pub poll_close :
      ℕ
      → CompioSansWriteConnection Out Encoder Writer Buffer × List (WriteAnswer X)
      → (CompioSansWriteConnection Out Encoder Writer Buffer × List (WriteAnswer X))
        × Call (SinkResult X)
  poll_close zero here = (here, spins)
  poll_close (suc fuel) (c, answers) =
      resume (poll_close fuel) (match_close c.write_state c answers)

-- `feed_item` hands the item back, or the queue is processed.
unfoldable pub after_feed :
    {Out Encoder Writer Buffer E X : Type 0}
    → BytesMut Buffer
    → SansEncoder Encoder Out E
    → ConnectionWriteState Out Encoder Buffer × Option (Message Out)
    → CompioSansWriteConnection Out Encoder Writer Buffer
    → CompioSansWriteConnection Out Encoder Writer Buffer × Outcome (IoError X) (Unit {0})
after_feed bytes encoder (state, some _) c =
    (record c { connection_state = state }, Outcome.err would_block)
after_feed bytes encoder (state, none) c =
    let (state', result) = process bytes encoder state in
    (record c { connection_state = state' }, map_err invalid_input result)

unfoldable pub start_send :
    {Out Encoder Writer Buffer E X : Type 0}
    → BytesMut Buffer
    → SansEncoder Encoder Out E
    → CompioSansWriteConnection Out Encoder Writer Buffer
    → Message Out
    → CompioSansWriteConnection Out Encoder Writer Buffer × Outcome (IoError X) (Unit {0})
unfolding after_feed
start_send bytes encoder c item =
    if is_closed c.write_state
    then (c, Outcome.err connection_reset)
    else after_feed bytes encoder (feed_item c.connection_state item) c
