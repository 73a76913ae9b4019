-- ===== src/Tokio/Write.antt =====
-- The `Sink` of sansrpc-tokio/src/tcp.rs. The list of answers stands for the writer: each poll of a
-- write takes one from it.
pub mod Sends
pub mod Outcomes
pub mod Rounds
pub mod Flush
pub mod Close
use sansrpc.Prelude.{
  ℕ, zero, suc, Option, none, some, List, Result, Outcome, map_err, if◌then◌else◌, Round, continue,
  return, resume,
}
use sansrpc.Proto.Message.{Message}
use sansrpc.Proto.Encoder.{SansEncoder}
use sansrpc.Proto.Buffer.{BytesMut}
use sansrpc.Proto.Connection.{ConnectionState, process_write, feed_item, consume_all}
use sansrpc.Poll.{
  Poll, pending, ready, Call, returns, panics, spins, IoError, invalid_input, connection_reset,
  transport, WriteAnswer, next_write, AsyncWrite, SinkResult, WriteRound,
}
use sansrpc.Tokio.{
  WriteFuture, writes_all, shuts_down, WriteState, is_closed, TokioSansConnection, poll_write,
}

module _ {In Out Encoder Decoder Reader Writer Buffer : Type 0} where
  -- The writer is put back.
  abbrev pub put_back :
      TokioSansConnection In Out Encoder Decoder Reader Writer Buffer
      → Writer
      → TokioSansConnection In Out Encoder Decoder Reader Writer Buffer
  put_back c writer = record c { write_state = WriteState.idle (some writer) }

module _ {In Out Encoder Decoder Reader Writer Buffer X : Type 0} where
  -- `ready!(pin.poll_unpin(cx))?`: the writer comes back, or the method returns.
  unfoldable pub after_write :
      (WriteFuture Writer → WriteState Writer)
      → WriteFuture Writer × Call (Poll (Result X Writer))
      → (Writer → WriteRound (TokioSansConnection In Out Encoder Decoder Reader Writer Buffer) X)
      → TokioSansConnection In Out Encoder Decoder Reader Writer Buffer
      → List (WriteAnswer X)
      → WriteRound (TokioSansConnection In Out Encoder Decoder Reader Writer Buffer) X
  after_write store (fut, returns pending) next c answers =
      return (record c { write_state = store fut }, answers) (returns pending)
  after_write store (fut, returns (ready (Result.err x))) next c answers =
      return (record c { write_state = store fut }, answers)
        (returns (ready (Result.err (transport x))))
  after_write store (fut, returns (ready (Result.ok writer))) next c answers = next writer
  after_write store (fut, panics) next c answers =
      return (record c { write_state = store fut }, answers) panics
  after_write store (fut, spins) next c answers =
      return (record c { write_state = store fut }, answers) spins

  -- The bytes of `consume_all` are written, if there are any.
  unfoldable pub write_out :
      Writer
      → ConnectionState In Out Encoder Decoder Buffer × Option (List ℕ)
      → (TokioSansConnection In Out Encoder Decoder Reader Writer Buffer
          → WriteRound (TokioSansConnection In Out Encoder Decoder Reader Writer Buffer) X)
      → TokioSansConnection In Out Encoder Decoder Reader Writer Buffer
      → List (WriteAnswer X)
      → WriteRound (TokioSansConnection In Out Encoder Decoder Reader Writer Buffer) X
  write_out writer (state, none) empty c answers = empty (record c { state = state })
  write_out writer (state, some input) empty c answers = continue (
    record c { state = state; write_state = WriteState.writing (writes_all writer input) },
    answers,
  )

module _ {In Out Encoder Decoder Reader Writer Buffer X : Type 0} (bytes : BytesMut Buffer)
    (io : AsyncWrite Writer) where
  -- `poll_ready` makes one round.
  unfoldable pub match_ready :
      WriteState Writer
      → TokioSansConnection In Out Encoder Decoder Reader Writer Buffer
      → List (WriteAnswer X)
      → WriteRound (TokioSansConnection In Out Encoder Decoder Reader Writer Buffer) X
  unfolding after_write
  match_ready (WriteState.idle _) c answers = return (c, answers) (returns (ready (Result.ok tt)))
  match_ready (WriteState.writing fut) c answers =
      let (answer, rest) = next_write answers in
      after_write WriteState.writing (poll_write io fut answer)
        (λ writer. return (put_back c writer, rest) (returns (ready (Result.ok tt)))) c rest
  match_ready (WriteState.closing _) c answers = return (c, answers) (returns pending)

  unfoldable pub poll_ready :
      TokioSansConnection In Out Encoder Decoder Reader Writer Buffer × List (WriteAnswer X)
      → (TokioSansConnection In Out Encoder Decoder Reader Writer Buffer × List (WriteAnswer X))
        × Call (SinkResult X)
  unfolding match_ready
  poll_ready (c, answers) = resume (λ here. (here, spins)) (match_ready c.write_state c answers)

  unfoldable pub match_flush :
      WriteState Writer
      → TokioSansConnection In Out Encoder Decoder Reader Writer Buffer
      → List (WriteAnswer X)
      → WriteRound (TokioSansConnection In Out Encoder Decoder Reader Writer Buffer) X
  unfolding after_write write_out
  match_flush (WriteState.idle none) c answers = return (c, answers) panics
  match_flush (WriteState.idle (some writer)) c answers =
      write_out writer (consume_all bytes c.state)
        (λ c'. return (put_back c' writer, answers) (returns (ready (Result.ok tt)))) c answers
  match_flush (WriteState.writing fut) c answers =
      let (answer, rest) = next_write answers in
      after_write WriteState.writing (poll_write io fut answer)
        (λ writer. continue (put_back c writer, rest)) c rest
  match_flush (WriteState.closing _) c answers =
      return (c, answers) (returns (ready (Result.err connection_reset)))

  -- `poll_flush`, on fuel.
  unfoldable pub poll_flush :
      ℕ
      → TokioSansConnection In Out Encoder Decoder Reader Writer Buffer × List (WriteAnswer X)
      → (TokioSansConnection In Out Encoder Decoder Reader Writer Buffer × List (WriteAnswer X))
        × Call (SinkResult X)
  poll_flush zero here = (here, spins)
  poll_flush (suc fuel) (c, answers) =
      resume (poll_flush fuel) (match_flush c.write_state c answers)

  unfoldable pub match_close :
      WriteState Writer
      → TokioSansConnection In Out Encoder Decoder Reader Writer Buffer
      → List (WriteAnswer X)
      → WriteRound (TokioSansConnection In Out Encoder Decoder Reader Writer Buffer) X
  unfolding after_write write_out
  match_close (WriteState.idle none) c answers = return (c, answers) panics
  match_close (WriteState.idle (some writer)) c answers =
      write_out writer (consume_all bytes c.state)
        (λ c'.
          continue (record c' { write_state = WriteState.closing (shuts_down writer) }, answers))
        c answers
  match_close (WriteState.writing fut) c answers =
      let (answer, rest) = next_write answers in
      after_write WriteState.writing (poll_write io fut answer)
        (λ writer. continue (put_back c writer, rest)) c rest
  match_close (WriteState.closing fut) c answers =
      let (answer, rest) = next_write answers in
      after_write WriteState.closing (poll_write io fut answer)
        (λ _.
          return (record c { write_state = WriteState.closing (poll_write io fut answer).0 }, rest)
            (returns (ready (Result.ok tt))))
        c rest

  -- `poll_close`, on fuel.
  unfoldable pub poll_close :
      ℕ
      → TokioSansConnection In Out Encoder Decoder Reader Writer Buffer × List (WriteAnswer X)
      → (TokioSansConnection In Out Encoder Decoder Reader Writer Buffer × List (WriteAnswer X))
        × Call (SinkResult X)
  poll_close zero here = (here, spins)
  poll_close (suc fuel) (c, answers) =
      resume (poll_close fuel) (match_close c.write_state c answers)

module _ {In Out Encoder Decoder Reader Writer Buffer E X : Type 0} (bytes : BytesMut Buffer)
    (encoder : SansEncoder Encoder Out E) where
  -- The result of `feed_item` is not looked at.
  unfoldable pub start_send :
      TokioSansConnection In Out Encoder Decoder Reader Writer Buffer
      → Message Out
      → TokioSansConnection In Out Encoder Decoder Reader Writer Buffer
        × Outcome (IoError X) (Unit {0})
  start_send c item =
      if is_closed c.write_state
      then (c, Outcome.err connection_reset)
      else let (state, result) = process_write bytes encoder (feed_item c.state item).0 in
        (record c { state = state }, map_err invalid_input result)
