-- ===== src/Tokio/Read.antt =====
-- `Stream::poll_next` of sansrpc-tokio/src/tcp.rs. The list of answers stands for the reader: each
-- poll of a read takes one from it.
pub mod Receives
pub mod Rounds
pub mod Delivery
pub mod Livelock
pub mod Stream
use sansrpc.Prelude.{
  Round, continue, return, resume, ℕ, zero, suc, Option, none, some, List, length, slice, ◌==◌,
  if◌then◌else◌, Result, Outcome,
}
use sansrpc.Proto.Message.{Message}
use sansrpc.Proto.Encoder.{SansDecoder}
use sansrpc.Proto.Words.{sub_usize}
use sansrpc.Proto.Buffer.{BytesMut}
use sansrpc.Proto.Connection.{ConnectionState, process_read, consume_item, feed_bytes}
use sansrpc.Poll.{
  Poll, pending, ready, Call, returns, panics, spins, IoError, invalid_input, transport, ReadAnswer,
  Item, ReadRound, next_read,
}
use sansrpc.Tokio.{
  ReadInner, ReadFuture, reads_into, read_done, ReadState, idle, reading, TokioSansConnection,
  copy_within, poll_read,
}

module _ {In Out Encoder Decoder Reader Writer Buffer X : Type 0} where
  -- `ReadState::Reading(fut)` is stored, with the future of the next read.
  unfoldable pub start_read :
      Reader
      → List ℕ
      → TokioSansConnection In Out Encoder Decoder Reader Writer Buffer
      → List (ReadAnswer X)
      → ReadRound (TokioSansConnection In Out Encoder Decoder Reader Writer Buffer) In X
  start_read reader buf c answers =
      continue (record c { read_state = ReadState.reading (reads_into reader buf) }, answers)

  -- What `feed_bytes` has not taken is moved to the front; then the thread sleeps for 100 ms.
  unfoldable pub after_feed :
      Reader
      → List ℕ
      → ℕ
      → ConnectionState In Out Encoder Decoder Buffer × ℕ
      → TokioSansConnection In Out Encoder Decoder Reader Writer Buffer
      → List (ReadAnswer X)
      → ReadRound (TokioSansConnection In Out Encoder Decoder Reader Writer Buffer) In X
  unfolding start_read
  after_feed reader buf read (state, fed) c answers =
      if fed == length buf
      then start_read reader buf (record c { state = state; read_state = ReadState.idle none })
          answers
      else elim (copy_within fed buf) [
        | none ↦
            return (record c { state = state; read_state = ReadState.idle none }, answers) panics
        | some buf' ↦ continue (
          record c {
            state = state;
            read_state = ReadState.idle (some (reader, buf', sub_usize read fed));
          },
          answers,
        )
      ]

  -- What the polled future answers.
  unfoldable pub after_poll :
      ReadFuture Reader × Call (Poll (Result X (ReadInner Reader)))
      → TokioSansConnection In Out Encoder Decoder Reader Writer Buffer
      → List (ReadAnswer X)
      → ReadRound (TokioSansConnection In Out Encoder Decoder Reader Writer Buffer) In X
  after_poll (fut, returns pending) c answers =
      return (record c { read_state = ReadState.reading fut }, answers) (returns pending)
  after_poll (fut, returns (ready (Result.err x))) c answers =
      return (record c { read_state = ReadState.reading fut }, answers)
        (returns (ready (some (Result.err (transport x)))))
  after_poll (fut, returns (ready (Result.ok (reader, buf, read)))) c answers =
      if read == 0
      then return (record c { read_state = ReadState.reading fut }, answers) (returns (ready none))
      else continue (record c { read_state = ReadState.idle (some (reader, buf, read)) }, answers)
  after_poll (fut, panics) c answers =
      return (record c { read_state = ReadState.reading fut }, answers) panics
  after_poll (fut, spins) c answers =
      return (record c { read_state = ReadState.reading fut }, answers) spins

module _ {In Out Encoder Decoder Reader Writer Buffer X : Type 0} (bytes : BytesMut Buffer) where
  -- `match &mut this.read_state`; `idle.take()` leaves `None`, and `unwrap` panics on `None`.
  unfoldable pub match_read_state :
      ReadState Reader
      → TokioSansConnection In Out Encoder Decoder Reader Writer Buffer
      → List (ReadAnswer X)
      → ReadRound (TokioSansConnection In Out Encoder Decoder Reader Writer Buffer) In X
  unfolding start_read after_feed after_poll
  match_read_state (ReadState.idle none) c answers = return (c, answers) panics
  match_read_state (ReadState.idle (some (reader, buf, read))) c answers =
      if read == 0 then start_read reader buf c answers else elim (slice 0 read buf) [
        | none ↦ return (record c { read_state = ReadState.idle none }, answers) panics
        | some input ↦ after_feed reader buf read (feed_bytes bytes c.state input) c answers
      ]
  match_read_state (ReadState.reading fut) c answers =
      let (answer, rest) = next_read answers in after_poll (poll_read fut answer) c rest

  -- `consume_item`, and the read state if there is none.
  unfoldable pub after_process :
      ConnectionState In Out Encoder Decoder Buffer × Option (Message In)
      → TokioSansConnection In Out Encoder Decoder Reader Writer Buffer
      → List (ReadAnswer X)
      → ReadRound (TokioSansConnection In Out Encoder Decoder Reader Writer Buffer) In X
  after_process (state, some item) c answers =
      return (record c { state = state }, answers) (returns (ready (some (Result.ok item))))
  after_process (state, none) c answers =
      match_read_state c.read_state (record c { state = state }) answers

module _ {In Out Encoder Decoder Reader Writer Buffer X F : Type 0} (bytes : BytesMut Buffer)
    (decoder : SansDecoder Decoder In F) where
  unfoldable pub after_read :
      ConnectionState In Out Encoder Decoder Buffer × Outcome F (Unit {0})
      → TokioSansConnection In Out Encoder Decoder Reader Writer Buffer
      → List (ReadAnswer X)
      → ReadRound (TokioSansConnection In Out Encoder Decoder Reader Writer Buffer) In X
  after_read (state, Outcome.ok _) c answers = after_process bytes (consume_item state) c answers
  after_read (state, Outcome.err _) c answers =
      return (record c { state = state }, answers)
        (returns (ready (some (Result.err invalid_input))))
  after_read (state, Outcome.panicked) c answers =
      return (record c { state = state }, answers) panics
  after_read (state, Outcome.diverged) c answers =
      return (record c { state = state }, answers) spins

  unfoldable pub poll_next_round :
      TokioSansConnection In Out Encoder Decoder Reader Writer Buffer × List (ReadAnswer X)
      → ReadRound (TokioSansConnection In Out Encoder Decoder Reader Writer Buffer) In X
  unfolding after_read
  poll_next_round (c, answers) = after_read (process_read bytes decoder c.state) c answers

  -- `Stream::poll_next`, on fuel.
  unfoldable pub poll_next :
      ℕ
      → TokioSansConnection In Out Encoder Decoder Reader Writer Buffer × List (ReadAnswer X)
      → (TokioSansConnection In Out Encoder Decoder Reader Writer Buffer × List (ReadAnswer X))
        × Call (Poll (Item In X))
  poll_next zero here = (here, spins)
  poll_next (suc fuel) here = resume (poll_next fuel) (poll_next_round here)
