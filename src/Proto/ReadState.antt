-- ===== src/Proto/ReadState.antt =====
-- The read half of sansrpc-proto/src/connection_state.rs. A `VecDeque` is a list, front first, and a
-- method that takes `&mut self` returns the new state beside its result.
pub mod Rounds
pub mod Drains
pub mod Feed
pub mod Delivery
pub mod Session
pub mod Order
pub mod Failures
pub mod Transport
use sansrpc.Prelude.{
  ℕ, zero, suc, Option, none, some, List, [], ◌∷◌, ◌++◌, length, take, slice, ltb, leb,
  if◌then◌else◌, Result, Outcome, Round, continue, return,
}
use sansrpc.Proto.Message.{Message}
use sansrpc.Proto.Encoder.{SansDecoder}
use sansrpc.Proto.Words.{add_usize, from_le_bytes}
use sansrpc.Proto.Buffer.{BytesMut}

-- The sizes are `NonZeroUsize` in the source: `IsReadConfig` says so where it matters.
pub record ReadConnectionConfig (Decoder : Type 0) : Type 0 where
  pub recv_queue_size : ℕ
  pub recv_buffer_size : ℕ
  pub coder : Decoder

pub record ConnectionReadState (In Decoder Buffer : Type 0) : Type 0 where
  pub recv_queue : List (Message In)
  pub recv_buffer : Buffer
  pub config : ReadConnectionConfig Decoder

module _ {In Decoder Buffer : Type 0} (bytes : BytesMut Buffer) where
  open bytes use {with_capacity, as_slice, extend_from_slice}

  -- `ConnectionReadState::new`
  unfoldable pub new : ReadConnectionConfig Decoder → ConnectionReadState In Decoder Buffer
  new config = record {
    recv_queue = [];
    recv_buffer = with_capacity config.recv_buffer_size;
    config = config;
  }

  unfoldable pub feed_bytes :
      ConnectionReadState In Decoder Buffer → List ℕ → ConnectionReadState In Decoder Buffer × ℕ
  feed_bytes s input =
      if leb s.config.recv_buffer_size (add_usize (length (as_slice s.recv_buffer)) (length input))
      then if leb s.config.recv_buffer_size (length (as_slice s.recv_buffer))
        then (s, 0)
        else (record s { recv_buffer = extend_from_slice s.recv_buffer input }, length input)
      else (record s { recv_buffer = extend_from_slice s.recv_buffer input }, length input)

module _ {In Decoder Buffer : Type 0} where
  -- `self.recv_queue.pop_front()`
  unfoldable pub pop_front :
      List (Message In)
      → ConnectionReadState In Decoder Buffer
      → ConnectionReadState In Decoder Buffer × Option (Message In)
  pop_front [] s = (s, none)
  pop_front (item ∷ rest) s = (record s { recv_queue = rest }, some item)

  unfoldable pub consume_item :
      ConnectionReadState In Decoder Buffer
      → ConnectionReadState In Decoder Buffer × Option (Message In)
  unfolding pop_front
  consume_item s = pop_front s.recv_queue s

module _ {In Decoder E Buffer : Type 0} (bytes : BytesMut Buffer)
    (decoder : SansDecoder Decoder In E) where
  open bytes use {as_slice, split_to}
  open decoder use {decode}

  -- `push_back` of a decoded item, and `split_to` of its frame.
  unfoldable pub accept :
      ConnectionReadState In Decoder Buffer
      → ℕ
      → Result E (Message In)
      → Round (ConnectionReadState In Decoder Buffer) (Outcome E (Unit {0}))
  accept s size (Result.err e) = return s (Outcome.err e)
  accept s size (Result.ok next_item) =
      let pushed = record s { recv_queue = s.recv_queue ++ next_item ∷ [] } in
      elim (split_to s.recv_buffer size) [
        | none ↦ return pushed Outcome.panicked
        | some (_, rest) ↦ continue (record pushed { recv_buffer = rest })
      ]

  -- `8 + next_len` is an addition of `usize`; a slice that runs backwards is a panic.
  unfoldable pub process_round :
      ConnectionReadState In Decoder Buffer
      → Round (ConnectionReadState In Decoder Buffer) (Outcome E (Unit {0}))
  unfolding accept
  process_round s =
      let buffer = as_slice s.recv_buffer in
      let end = add_usize 8 (from_le_bytes (take 8 buffer)) in
      if leb s.config.recv_queue_size (length s.recv_queue)
      then return s (Outcome.ok tt)
      else if ltb (length buffer) 8
      then return s (Outcome.ok tt)
      else if ltb (length buffer) end
      then return s (Outcome.ok tt)
      else elim (slice 8 end buffer) [
        | none ↦ return s Outcome.panicked
        | some items_buf ↦ accept s end (decode s.config.coder items_buf)
      ]

  -- The loop, on fuel.
  unfoldable pub process_loop :
      ℕ
      → ConnectionReadState In Decoder Buffer
      → ConnectionReadState In Decoder Buffer × Outcome E (Unit {0})
  process_loop zero s = (s, Outcome.diverged)
  process_loop (suc fuel) s = elim (process_round s) [
    | continue s' ↦ process_loop fuel s'
    | return s' result ↦ (s', result)
  ]

  -- Every round that goes on takes at least eight bytes from the buffer.
  unfoldable pub process :
      ConnectionReadState In Decoder Buffer
      → ConnectionReadState In Decoder Buffer × Outcome E (Unit {0})
  unfolding process_loop
  process s = process_loop (suc (length (as_slice s.recv_buffer))) s
