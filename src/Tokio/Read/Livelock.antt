-- ===== src/Tokio/Read/Livelock.antt =====
-- `poll_next` of sansrpc-tokio/src/tcp.rs when the receive buffer has reached its size inside a frame,
-- with bytes left to be fed. A longer frame leads there only when what is fed before ends inside it.
use sansrpc.Prelude.{
  continue, ℕ, zero, suc, ◌+◌, ◌-◌, false, ◌≤◌, ◌<◌, ◌≡◌, refl, sym, ap, ◌∙◌, some, List, [], ◌++◌,
  length, take, drop, drop-all, length-take, append-nil, slice-take, suc-==-zero, ◌==◌,
  le→ltb-false, Outcome, arith,
}
use sansrpc.Proto.Encoder.{SansDecoder}
use sansrpc.Proto.Words.{usize_mod, sub_usize}
use sansrpc.Proto.Buffer.{BytesMut}
use sansrpc.Proto.Frames.{IsPartial}
use sansrpc.Proto.ReadState.{ConnectionReadState, process, process_loop}
use sansrpc.Proto.ReadState
use sansrpc.Proto.ReadState.Rounds.{process_round-partial}
use sansrpc.Proto.ReadState.Feed.{feed_bytes-refuses}
use sansrpc.Proto.Connection.{process_read, consume_item, feed_bytes, on_read}
use sansrpc.Poll.{spins, ReadAnswer}
use sansrpc.Tokio.{TokioSansConnection, copy_within}
use sansrpc.Tokio
use sansrpc.Tokio.Read.{
  after_feed, match_read_state, after_process, after_read, poll_next_round, poll_next,
}

module _ {In Out Encoder Decoder Reader Writer Buffer : Type 0} (bytes : BytesMut Buffer) where
  -- The receive buffer has reached its size inside a frame, the queue is empty, and more bytes wait to
  -- be fed.
  pub record IsFull (c : TokioSansConnection In Out Encoder Decoder Reader Writer Buffer)
      : Type 0 where
    pub reader : Reader
    pub buf : List ℕ
    pub read : ℕ
    pub waiting : c.read_state ≡ Tokio.ReadState.idle (some (reader, buf, suc read))
    pub within : suc read ≤ length buf
    pub queue_empty : c.state.read.recv_queue ≡ []
    pub queue_room : 0 < c.state.read.config.recv_queue_size
    pub partial : IsPartial (bytes.as_slice c.state.read.recv_buffer)
    pub full :
        c.state.read.config.recv_buffer_size ≤ length (bytes.as_slice c.state.read.recv_buffer)
    pub words : length (bytes.as_slice c.state.read.recv_buffer) + length buf < usize_mod

module _ {In Out Encoder Decoder Reader Writer Buffer X F : Type 0} (bytes : BytesMut Buffer)
    (decoder : SansDecoder Decoder In F) where
  open bytes use {as_slice}

  module _ (c : TokioSansConnection In Out Encoder Decoder Reader Writer Buffer)
      (answers : List (ReadAnswer X)) (f : IsFull bytes c) where
    process-IsFull : process bytes decoder c.state.read ≡ (c.state.read, Outcome.ok tt)
    unfolding process process_loop
    process-IsFull = rw (
      process_round-partial bytes decoder c.state.read
          (omega (arith, ap length f.queue_empty, f.queue_room)) f.partial,
      process_loop,
    )

    feed-IsFull :
        ReadState.feed_bytes bytes c.state.read (take (suc f.read) f.buf) ≡ (c.state.read, 0)
    feed-IsFull =
        feed_bytes-refuses bytes c.state.read (take (suc f.read) f.buf) f.full
          (omega (arith, length-take (suc f.read) f.buf, f.within, f.words))

    to_read_state :
        poll_next_round bytes decoder (c, answers) ≡ match_read_state bytes c.read_state c answers
    unfolding poll_next_round process_read consume_item ReadState.consume_item ReadState.pop_front
        after_process
    to_read_state =
        ap (λ q. after_read bytes decoder (on_read c.state q) c answers) process-IsFull
        ∙ ap
            (λ q.
              after_process bytes (on_read c.state (ReadState.pop_front q c.state.read)) c answers)
            f.queue_empty

    to_feed :
        match_read_state bytes (Tokio.ReadState.idle (some (f.reader, f.buf, suc f.read))) c answers
        ≡ after_feed f.reader f.buf
            (suc f.read)
            (feed_bytes bytes c.state (take (suc f.read) f.buf))
            c
            answers
    unfolding match_read_state
    to_feed = rw (suc-==-zero f.read, slice-take (suc f.read) f.buf f.within)

    nothing_moved : drop 0 f.buf ++ drop (length f.buf - 0) f.buf ≡ f.buf
    nothing_moved =
        ap (λ t. f.buf ++ t) (drop-all (length f.buf - 0) f.buf (omega arith)) ∙ append-nil f.buf

    nothing_fed :
        after_feed f.reader f.buf (suc f.read) (c.state, 0) c answers
        ≡ continue (
          record c { read_state = Tokio.ReadState.idle (some (f.reader, f.buf, suc f.read)) },
          answers,
        )
    unfolding after_feed
    nothing_fed =
        let some_left : (0 == length f.buf) ≡ false = ground (arith, f.within) in
        let all_left : sub_usize (suc f.read) 0 ≡ suc f.read = omega (arith, f.within, f.words) in
        rw (some_left, le→ltb-false (length f.buf) 0 (omega arith), nothing_moved, all_left)

    round_again : poll_next_round bytes decoder (c, answers) ≡ continue (c, answers)
    unfolding feed_bytes
    round_again =
        to_read_state
        ∙ ap (λ rs. match_read_state bytes rs c answers) f.waiting
        ∙ to_feed
        ∙ ap (λ q. after_feed f.reader f.buf (suc f.read) (on_read c.state q) c answers) feed-IsFull
        ∙ nothing_fed
        ∙ ap (λ rs. continue (record c { read_state = rs }, answers)) (sym f.waiting)

  -- When the receive buffer has reached its size inside a frame, the receive queue is empty and has a
  -- size, and bytes that have been read into the read buffer are left to be fed (both buffers have
  -- fewer than 2 ^ 64 bytes together), `poll_next` does not return with any fuel, whatever the reader
  -- answers: it leaves connection and reader as they are.
  pub poll_next-spins :
      (c : TokioSansConnection In Out Encoder Decoder Reader Writer Buffer)
      (answers : List (ReadAnswer X))
      → IsFull bytes c
      → (fuel : ℕ) → poll_next bytes decoder fuel (c, answers) ≡ ((c, answers), spins)
  unfolding poll_next
  poll_next-spins c answers f zero = refl
  poll_next-spins c answers f (suc fuel) =
      rw (round_again c answers f) (poll_next-spins c answers f fuel)
