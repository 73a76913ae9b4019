-- ===== src/Compio/Read/Loss.antt =====
-- `poll_next` of `CompioSansReadConnection` in sansrpc-compio/src/lib.rs when the receive buffer has
-- reached its size inside a frame, with bytes left to be fed. A longer frame leads there only when
-- what is fed before ends inside it.
use sansrpc.Prelude.{
  ℕ, suc, ◌+◌, ◌≤◌, ◌<◌, ◌≡◌, refl, slice-take, ap, ◌∙◌, some, List, [], ◌∷◌, length, Outcome,
  arith, continue, false, ◌==◌, resume,
}
use sansrpc.Proto.Encoder.{SansDecoder}
use sansrpc.Proto.Words.{usize_mod}
use sansrpc.Proto.Buffer.{BytesMut}
use sansrpc.Proto.Frames.{IsPartial}
use sansrpc.Proto.ReadState.{process, process_loop, pop_front, consume_item}
use sansrpc.Proto.ReadState.Rounds.{process_round-partial}
use sansrpc.Proto.ReadState.Feed.{feed_bytes-refuses}
use sansrpc.Poll.{ReadAnswer}
use sansrpc.Compio.{ReadState, CompioSansReadConnection}
use sansrpc.Compio.Read.{
  after_feed, match_read_state, after_process, after_read, poll_next_round, poll_next,
}

module _ {In Decoder Reader Buffer : Type 0} (bytes : BytesMut Buffer) where
  -- The receive buffer has reached its size inside a frame, the queue is empty, and the byte `b` and
  -- then `input` wait to be fed.
  pub record IsFull (c : CompioSansReadConnection In Decoder Reader Buffer) (reader : Reader)
      (b : ℕ) (input : List ℕ) : Type 0 where
    pub waiting : c.read_state ≡ ReadState.idle (some (reader, b ∷ input))
    pub queue_empty : c.connection_state.recv_queue ≡ []
    pub queue_room : 0 < c.connection_state.config.recv_queue_size
    pub partial : IsPartial (bytes.as_slice c.connection_state.recv_buffer)
    pub full :
        c.connection_state.config.recv_buffer_size
        ≤ length (bytes.as_slice c.connection_state.recv_buffer)
    pub words :
        length (bytes.as_slice c.connection_state.recv_buffer) + length (b ∷ input) < usize_mod

module _ {In Decoder Reader Buffer X F : Type 0} (bytes : BytesMut Buffer)
    (decoder : SansDecoder Decoder In F) where
  module _ (c : CompioSansReadConnection In Decoder Reader Buffer) (answers : List (ReadAnswer X))
      (reader : Reader) (b : ℕ) (input : List ℕ) (f : IsFull bytes c reader b input) where
    process-IsFull : process bytes decoder c.connection_state ≡ (c.connection_state, Outcome.ok tt)
    unfolding process process_loop
    process-IsFull = rw (
      process_round-partial bytes decoder c.connection_state
          (omega (arith, ap length f.queue_empty, f.queue_room)) f.partial,
      process_loop,
    )

    to_read_state :
        poll_next_round bytes decoder (c, answers) ≡ match_read_state bytes c.read_state c answers
    unfolding poll_next_round consume_item pop_front after_process
    to_read_state =
        ap (λ q. after_read bytes decoder q c answers) process-IsFull
        ∙ ap (λ q. after_process bytes (pop_front q c.connection_state) c answers) f.queue_empty

    -- `buf[..fed]` is kept, of which there is nothing.
    nothing_kept :
        match_read_state bytes (ReadState.idle (some (reader, b ∷ input))) c answers
        ≡ continue (record c { read_state = ReadState.idle (some (reader, [])) }, answers)
    unfolding match_read_state after_feed
    nothing_kept =
        let some_left : (0 == length (b ∷ input)) ≡ false = ground arith in
        ap (λ q. after_feed reader (b ∷ input) q c answers)
          (feed_bytes-refuses bytes c.connection_state (b ∷ input) f.full f.words)
        ∙ rw (some_left, slice-take 0 (b ∷ input) (omega arith)) refl

    round_drops :
        poll_next_round bytes decoder (c, answers)
        ≡ continue (record c { read_state = ReadState.idle (some (reader, [])) }, answers)
    round_drops =
        to_read_state ∙ ap (λ rs. match_read_state bytes rs c answers) f.waiting ∙ nothing_kept

  -- When the receive buffer has reached its size inside a frame, the receive queue is empty and has a
  -- size, and more bytes have been read and not fed (fewer than 2 ^ 64 with those of the receive
  -- buffer), `poll_next` of the split connection drops these bytes: for every fuel and whatever the
  -- reader answers, it goes on as if they had not been read.
  pub poll_next-drops :
      (c : CompioSansReadConnection In Decoder Reader Buffer) (answers : List (ReadAnswer X))
      (reader : Reader) (b : ℕ) (input : List ℕ)
      → IsFull bytes c reader b input
      → (fuel : ℕ)
      → poll_next bytes decoder (suc fuel) (c, answers)
        ≡ poll_next bytes decoder fuel
            (record c { read_state = ReadState.idle (some (reader, [])) }, answers)
  unfolding poll_next
  poll_next-drops c answers reader b input f fuel =
      ap (resume (poll_next bytes decoder fuel)) (round_drops c answers reader b input f)
