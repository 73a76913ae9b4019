-- ===== src/Compio/Read.antt =====
-- `Stream::poll_next` of `CompioSansReadConnection` in sansrpc-compio/src/lib.rs. The list of answers
-- stands for the reader: each poll of a read takes one from it.
pub mod Delivery
pub mod Loss
use sansrpc.Prelude.{
  ℕ, zero, suc, Option, none, some, List, [], length, slice, ◌==◌, if◌then◌else◌, Result, Outcome,
  Round, continue, return, resume,
}
use sansrpc.Proto.Message.{Message}
use sansrpc.Proto.Encoder.{SansDecoder}
use sansrpc.Proto.Buffer.{BytesMut}
use sansrpc.Proto.ReadState.{ConnectionReadState, process, consume_item, feed_bytes}
use sansrpc.Proto.WriteState.{is_empty}
use sansrpc.Poll.{
  Poll, pending, ready, Call, returns, panics, spins, IoError, invalid_input, transport, ReadAnswer,
  Item, ReadRound, next_read,
}
use sansrpc.Compio.{ReadFuture, reads_into, ReadState, CompioSansReadConnection, poll_read}

module _ {In Decoder Reader Buffer X : Type 0} where
  unfoldable pub start_read :
      Reader
      → List ℕ
      → CompioSansReadConnection In Decoder Reader Buffer
      → List (ReadAnswer X)
      → ReadRound (CompioSansReadConnection In Decoder Reader Buffer) In X
  start_read reader buf c answers =
      continue (record c { read_state = ReadState.reading (reads_into reader buf) }, answers)

  -- What `feed_bytes` has taken is kept in the buffer, and the rest is not.
  unfoldable pub after_feed :
      Reader
      → List ℕ
      → ConnectionReadState In Decoder Buffer × ℕ
      → CompioSansReadConnection In Decoder Reader Buffer
      → List (ReadAnswer X)
      → ReadRound (CompioSansReadConnection In Decoder Reader Buffer) In X
  unfolding start_read
  after_feed reader buf (state, fed) c answers =
      if fed == length buf
      then start_read reader []
          (record c { connection_state = state; read_state = ReadState.idle none }) answers
      else elim (slice 0 fed buf) [
        | none ↦
            return
              (record c { connection_state = state; read_state = ReadState.idle none }, answers)
              panics
        | some remaining ↦ continue (
          record c {
            connection_state = state;
            read_state = ReadState.idle (some (reader, remaining));
          },
          answers,
        )
      ]

  -- `consume_item`, when the reader has come to its end.
  unfoldable pub at_end :
      ConnectionReadState In Decoder Buffer × Option (Message In)
      → CompioSansReadConnection In Decoder Reader Buffer
      → List (ReadAnswer X)
      → ReadRound (CompioSansReadConnection In Decoder Reader Buffer) In X
  at_end (state, some item) c answers =
      return (record c { connection_state = state }, answers)
        (returns (ready (some (Result.ok item))))
  at_end (state, none) c answers =
      return (record c { connection_state = state }, answers) (returns (ready none))

  -- What the polled future answers.
  unfoldable pub after_poll :
      ReadFuture Reader × Call (Poll (Result X (Reader × List ℕ)))
      → CompioSansReadConnection In Decoder Reader Buffer
      → List (ReadAnswer X)
      → ReadRound (CompioSansReadConnection In Decoder Reader Buffer) In X
  unfolding at_end
  after_poll (fut, returns pending) c answers =
      return (record c { read_state = ReadState.reading fut }, answers) (returns pending)
  after_poll (fut, returns (ready (Result.err x))) c answers =
      return (record c { read_state = ReadState.reading fut }, answers)
        (returns (ready (some (Result.err (transport x)))))
  after_poll (fut, returns (ready (Result.ok (reader, buf)))) c answers =
      let c' = record c { read_state = ReadState.idle (some (reader, buf)) } in
      if is_empty buf
      then at_end (consume_item c.connection_state) c' answers
      else continue (c', answers)
  after_poll (fut, panics) c answers =
      return (record c { read_state = ReadState.reading fut }, answers) panics
  after_poll (fut, spins) c answers =
      return (record c { read_state = ReadState.reading fut }, answers) spins

module _ {In Decoder Reader Buffer X : Type 0} (bytes : BytesMut Buffer) where
  -- `match &mut this.read_state`; `idle.take()` leaves `None`, and `unwrap` panics on `None`.
  unfoldable pub match_read_state :
      ReadState Reader
      → CompioSansReadConnection In Decoder Reader Buffer
      → List (ReadAnswer X)
      → ReadRound (CompioSansReadConnection In Decoder Reader Buffer) In X
  unfolding start_read after_feed after_poll
  match_read_state (ReadState.idle none) c answers = return (c, answers) panics
  match_read_state (ReadState.idle (some (reader, buf))) c answers =
      if is_empty buf
      then start_read reader buf c answers
      else after_feed reader buf (feed_bytes bytes c.connection_state buf) c answers
  match_read_state (ReadState.reading fut) c answers =
      let (answer, rest) = next_read answers in after_poll (poll_read fut answer) c rest

  -- `consume_item`, and the read state if there is none.
  unfoldable pub after_process :
      ConnectionReadState In Decoder Buffer × Option (Message In)
      → CompioSansReadConnection In Decoder Reader Buffer
      → List (ReadAnswer X)
      → ReadRound (CompioSansReadConnection In Decoder Reader Buffer) In X
  after_process (state, some item) c answers =
      return (record c { connection_state = state }, answers)
        (returns (ready (some (Result.ok item))))
  after_process (state, none) c answers =
      match_read_state c.read_state (record c { connection_state = state }) answers

module _ {In Decoder Reader Buffer X F : Type 0} (bytes : BytesMut Buffer)
    (decoder : SansDecoder Decoder In F) where
  unfoldable pub after_read :
      ConnectionReadState In Decoder Buffer × Outcome F (Unit {0})
      → CompioSansReadConnection In Decoder Reader Buffer
      → List (ReadAnswer X)
      → ReadRound (CompioSansReadConnection In Decoder Reader Buffer) In X
  after_read (state, Outcome.ok _) c answers = after_process bytes (consume_item state) c answers
  after_read (state, Outcome.err _) c answers =
      return (record c { connection_state = state }, answers)
        (returns (ready (some (Result.err invalid_input))))
  after_read (state, Outcome.panicked) c answers =
      return (record c { connection_state = state }, answers) panics
  after_read (state, Outcome.diverged) c answers =
      return (record c { connection_state = state }, answers) spins

  unfoldable pub poll_next_round :
      CompioSansReadConnection In Decoder Reader Buffer × List (ReadAnswer X)
      → ReadRound (CompioSansReadConnection In Decoder Reader Buffer) In X
  unfolding after_read
  poll_next_round (c, answers) = after_read (process bytes decoder c.connection_state) c answers

  -- `Stream::poll_next`, on fuel.
  unfoldable pub poll_next :
      ℕ
      → CompioSansReadConnection In Decoder Reader Buffer × List (ReadAnswer X)
      → (CompioSansReadConnection In Decoder Reader Buffer × List (ReadAnswer X))
        × Call (Poll (Item In X))
  poll_next zero here = (here, spins)
  poll_next (suc fuel) here = resume (poll_next fuel) (poll_next_round here)
