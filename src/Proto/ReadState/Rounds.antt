-- ===== src/Proto/ReadState/Rounds.antt =====
-- One round of `ConnectionReadState::process`, by what stands at the front of the receive buffer.
use sansrpc.Prelude.{
  continue, return, ℕ, ◌+◌, ◌≤◌, ◌<◌, ◌≡◌, sym, ap, ◌∙◌, inl, inr, some, List, [], ◌∷◌, ◌++◌,
  length, drop, slice, length-append, take-append_length, drop-append_length, le→leb, lt→leb-false,
  lt→ltb, le→ltb-false, Result, Outcome, arith,
}
use sansrpc.Proto.Message.{Message}
use sansrpc.Proto.Encoder.{SansDecoder}
use sansrpc.Proto.Words.{add_usize, usize_mod, to_le_bytes, length-to_le_bytes}
use sansrpc.Proto.Buffer.{BytesMut}
use sansrpc.Proto.Frames.{frame, header, IsPartial, IsOverlong, Begins, length-frame, header-frame}
use sansrpc.Proto.ReadState.{ConnectionReadState, accept, process_round}
use native.Mathlib.Nat.{mod-eq_of_lt}

-- The item of the frame at the front is what `process` slices out.
slice-frame : (item rest : List ℕ) → slice 8 (8 + length item) (frame item ++ rest) ≡ some item
unfolding frame slice
slice-frame item rest =
    let size = to_le_bytes (length item) in
    rw (
      le→ltb-false (8 + length item) 8 (omega arith),
      le→ltb-false (length ((size ++ item) ++ rest)) (8 + length item)
          (omega (arith, length-append (size ++ item) rest, length-frame item)),
      take-append_length (size ++ item) rest (8 + length item) (sym (length-frame item)),
      drop-append_length size item 8 (sym (length-to_le_bytes (length item))),
    )

module _ {In Decoder E Buffer : Type 0} (bytes : BytesMut Buffer)
    (decoder : SansDecoder Decoder In E) (s : ConnectionReadState In Decoder Buffer) where
  open bytes use {as_slice, split_to, split_to_parts}
  open decoder use {decode}

  -- With a full queue the method returns.
  pub process_round-full :
      s.config.recv_queue_size ≤ length s.recv_queue
      → process_round bytes decoder s ≡ return s (Outcome.ok tt)
  unfolding process_round
  process_round-full h = rw (le→leb _ _ h)

  module _ (free : length s.recv_queue < s.config.recv_queue_size) where
    -- With no whole frame in the buffer the method returns.
    pub process_round-partial :
        IsPartial (as_slice s.recv_buffer)
        → process_round bytes decoder s ≡ return s (Outcome.ok tt)
    unfolding process_round
    process_round-partial (inl short) =
        rw (lt→leb-false _ _ free, lt→ltb (length (as_slice s.recv_buffer)) 8 short)
    process_round-partial (inr (small, cut)) = ground arith

    -- An overlong header makes `8 + next_len` wrap, and the slice that follows panics.
    pub process_round-overlong :
        IsOverlong (as_slice s.recv_buffer)
        → header (as_slice s.recv_buffer) < usize_mod
        → process_round bytes decoder s ≡ return s Outcome.panicked
    unfolding process_round slice
    process_round-overlong h below = ground arith

    -- A frame at the front is decoded.
    pub process_round-whole :
        {item rest : List ℕ}
        → Begins (as_slice s.recv_buffer) item rest
        → process_round bytes decoder s
          ≡ accept bytes decoder s (8 + length item) (decode s.config.coder item)
    unfolding process_round
    process_round-whole {item} {rest} b =
        rw
          (
            lt→leb-false _ _ free,
            b.split,
            le→ltb-false (length (frame item ++ rest)) 8 (omega (arith, long)),
            end,
            le→ltb-false (length (frame item ++ rest)) (8 + length item) long,
            slice-frame item rest,
          )
          (ap (λ (k : ℕ). accept bytes decoder s k (decode s.config.coder item)) whole_end)
      where
        long : 8 + length item ≤ length (frame item ++ rest)
        long = omega (arith, length-append (frame item) rest, length-frame item)

        end : add_usize 8 (header (frame item ++ rest)) ≡ 8 + length item
        end = ap (add_usize 8) (header-frame item rest b.fits) ∙ mod-eq_of_lt b.fits

        whole_end : add_usize 8 (header (as_slice s.recv_buffer)) ≡ 8 + length item
        whole_end = ap (λ t. add_usize 8 (header t)) b.split ∙ end

    -- A frame whose item decodes moves from the buffer to the back of the queue.
    pub process_round-decoded :
        {item rest : List ℕ} {m : Message In}
        → Begins (as_slice s.recv_buffer) item rest
        → decode s.config.coder item ≡ Result.ok m
        → (back : Buffer) × (process_round bytes decoder s
            ≡ continue (record s { recv_queue = s.recv_queue ++ m ∷ []; recv_buffer = back }))
          × (as_slice back ≡ rest)
    unfolding accept
    process_round-decoded {item} {rest} {m} b d =
        let (front, back, e, _, r) = split_to_parts s.recv_buffer (8 + length item) long in
        (back, rw (process_round-whole b, d, accept, e), r ∙ after)
      where
        long : 8 + length item ≤ length (as_slice s.recv_buffer)
        long = rw b.split (omega (arith, length-append (frame item) rest, length-frame item))

        after : drop (8 + length item) (as_slice s.recv_buffer) ≡ rest
        after =
            rw b.split
              (drop-append_length (frame item) rest (8 + length item) (sym (length-frame item)))

    -- An item that does not decode stays where it is.
    pub process_round-refused :
        {item rest : List ℕ} {e : E}
        → Begins (as_slice s.recv_buffer) item rest
        → decode s.config.coder item ≡ Result.err e
        → process_round bytes decoder s ≡ return s (Outcome.err e)
    unfolding accept
    process_round-refused b d = process_round-whole b ∙ rw d
