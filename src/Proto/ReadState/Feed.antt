-- ===== src/Proto/ReadState/Feed.antt =====
-- `ConnectionReadState::feed_bytes` and `consume_item`.
use sansrpc.Prelude.{ℕ, ◌+◌, ◌≤◌, ◌<◌, ◌≡◌, refl, ◌⊎◌, List, ◌++◌, length, arith}
use sansrpc.Proto.Words.{usize_mod}
use sansrpc.Proto.Buffer.{BytesMut}
use sansrpc.Proto.ReadState.{ConnectionReadState, feed_bytes}

module _ {In Decoder Buffer : Type 0} (bytes : BytesMut Buffer) where
  open bytes use {as_slice, extend_from_slice, as_slice-extend}

  module _ (s : ConnectionReadState In Decoder Buffer) (input : List ℕ) where
    -- While the buffer is below its size all of the input is taken, also past the size.
    pub feed_bytes-extends :
        length (as_slice s.recv_buffer) < s.config.recv_buffer_size
        → feed_bytes bytes s input
          ≡ (record s { recv_buffer = extend_from_slice s.recv_buffer input }, length input)
    unfolding feed_bytes
    feed_bytes-extends h = ground arith

    pub feed_bytes-refuses :
        s.config.recv_buffer_size ≤ length (as_slice s.recv_buffer)
        → length (as_slice s.recv_buffer) + length input < usize_mod
        → feed_bytes bytes s input ≡ (s, 0)
    unfolding feed_bytes
    feed_bytes-refuses h fits = ground arith

    -- All of the input is taken, or none of it, and then the buffer is full.
    pub feed_bytes_cases :
        ((feed_bytes bytes s input
          ≡ (record s { recv_buffer = extend_from_slice s.recv_buffer input }, length input)))
        ⊎ ((feed_bytes bytes s input ≡ (s, 0))
            × (s.config.recv_buffer_size ≤ length (as_slice s.recv_buffer)))
    unfolding feed_bytes
    feed_bytes_cases = ground arith

    -- `feed_bytes` takes the whole input, and appends it, while the buffer holds fewer bytes than
    -- its configured size; it takes nothing and changes nothing once the buffer has reached that
    -- size (the two lengths together being a `usize`).
    pub feed_bytes_lem :
        (length (as_slice s.recv_buffer) < s.config.recv_buffer_size
          → (as_slice (feed_bytes bytes s input).0.recv_buffer ≡ as_slice s.recv_buffer ++ input)
            × ((feed_bytes bytes s input).0.recv_queue ≡ s.recv_queue)
            × ((feed_bytes bytes s input).1 ≡ length input))
        × (s.config.recv_buffer_size ≤ length (as_slice s.recv_buffer)
            → length (as_slice s.recv_buffer) + length input < usize_mod
            → feed_bytes bytes s input ≡ (s, 0))
    feed_bytes_lem = (
      λ h. rw (feed_bytes-extends h) (as_slice-extend s.recv_buffer input, refl, refl),
      feed_bytes-refuses,
    )
