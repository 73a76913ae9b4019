-- ===== src/Proto/WriteState.antt =====
-- The write half of sansrpc-proto/src/connection_state.rs.
pub mod Emits
pub mod Queue
pub mod Session
pub mod Flush
use sansrpc.Prelude.{
  ℕ, max, Option, none, some, Bool, true, false, List, [], ◌∷◌, ◌++◌, length, ltb, leb,
  if◌then◌else◌, Result, Outcome,
}
use sansrpc.Proto.Message.{Message}
use sansrpc.Proto.Encoder.{SansEncoder}
use sansrpc.Proto.Words.{sub_usize, to_le_bytes}
use sansrpc.Proto.Buffer.{BytesMut}

pub record WriteConnectionConfig (Encoder : Type 0) : Type 0 where
  pub send_queue_size : ℕ
  pub send_buffer_size : ℕ
  pub coder : Encoder

pub record ConnectionWriteState (Out Encoder Buffer : Type 0) : Type 0 where
  pub send_queue : List (Message Out)
  pub send_buffer : Buffer
  pub config : WriteConnectionConfig Encoder

-- `is_empty` of a `VecDeque` and of a slice.
abbrev pub is_empty {ℓ} : {A : Type ℓ} → List A → Bool
is_empty [] = true
is_empty (x ∷ xs) = false

module _ {Out Encoder Buffer : Type 0} where
  -- The subtraction is of `usize`.
  unfoldable pub available_space : ConnectionWriteState Out Encoder Buffer → ℕ
  available_space s =
      sub_usize s.config.send_queue_size (max (length s.send_queue) s.config.send_queue_size)

  -- A refused item is handed back.
  unfoldable pub feed_item :
      ConnectionWriteState Out Encoder Buffer
      → Message Out
      → ConnectionWriteState Out Encoder Buffer × Option (Message Out)
  feed_item s item =
      if leb s.config.send_queue_size (length s.send_queue)
      then (s, some item)
      else (record s { send_queue = s.send_queue ++ item ∷ [] }, none)

  unfoldable pub write_queue_empty : ConnectionWriteState Out Encoder Buffer → Bool
  write_queue_empty s = is_empty s.send_queue

module _ {Out Encoder Buffer : Type 0} (bytes : BytesMut Buffer) where
  open bytes use {with_capacity, as_slice, split_to, freeze}

  -- `ConnectionWriteState::new`
  unfoldable pub new : WriteConnectionConfig Encoder → ConnectionWriteState Out Encoder Buffer
  new config = record {
    send_queue = [];
    send_buffer = with_capacity config.send_buffer_size;
    config = config;
  }

  -- `mem::replace` of the send buffer by an empty one.
  unfoldable pub replace_buffer :
      ConnectionWriteState Out Encoder Buffer → ConnectionWriteState Out Encoder Buffer × Buffer
  replace_buffer s =
      (record s { send_buffer = with_capacity s.config.send_buffer_size }, s.send_buffer)

  -- The outer `Option` is none where `split_to` panics.
  unfoldable pub consume_bytes :
      ConnectionWriteState Out Encoder Buffer
      → ℕ
      → Option (ConnectionWriteState Out Encoder Buffer × Option (List ℕ))
  unfolding replace_buffer
  consume_bytes s len =
      if is_empty (as_slice s.send_buffer)
      then some (s, none)
      else if ltb (length (as_slice s.send_buffer)) len
      then (let (s', to_send) = replace_buffer s in some (s', some (freeze to_send)))
      else elim (split_to s.send_buffer len) [
        | none ↦ none
        | some (to_send, rest) ↦ some (record s { send_buffer = rest }, some (freeze to_send))
      ]

  unfoldable pub consume_all :
      ConnectionWriteState Out Encoder Buffer
      → ConnectionWriteState Out Encoder Buffer × Option (List ℕ)
  unfolding replace_buffer
  consume_all s =
      if is_empty (as_slice s.send_buffer)
      then (s, none)
      else let (s', to_send) = replace_buffer s in (s', some (freeze to_send))

module _ {Out Encoder E Buffer : Type 0} (bytes : BytesMut Buffer)
    (encoder : SansEncoder Encoder Out E) where
  open bytes use {extend_from_slice}
  open encoder use {encode}

  -- `while let Some(to_send) = self.send_queue.pop_front()`: the list is the queue. The item that
  -- does not encode has been popped.
  unfoldable pub process_loop :
      List (Message Out)
      → ConnectionWriteState Out Encoder Buffer
      → ConnectionWriteState Out Encoder Buffer × Outcome E (Unit {0})
  process_loop [] s = (record s { send_queue = [] }, Outcome.ok tt)
  process_loop (to_send ∷ queue) s = elim (encode s.config.coder to_send) [
    | Result.err e ↦ (record s { send_queue = queue }, Outcome.err e)
    | Result.ok (item, len) ↦ process_loop queue (record s {
      send_queue = queue;
      send_buffer = extend_from_slice (extend_from_slice s.send_buffer (to_le_bytes len)) item;
    })
  ]

  unfoldable pub process :
      ConnectionWriteState Out Encoder Buffer
      → ConnectionWriteState Out Encoder Buffer × Outcome E (Unit {0})
  unfolding process_loop
  process s = process_loop s.send_queue s
