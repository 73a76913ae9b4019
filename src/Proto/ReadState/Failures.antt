-- ===== src/Proto/ReadState/Failures.antt =====
-- `ConnectionReadState::process` on bytes that no encoder writes.
use sansrpc.Prelude.{ℕ, ◌<◌, ◌≡◌, ap, ◌∙◌, List, length, length-append, All, Result, Outcome, arith}
use sansrpc.Proto.Message.{Message}
use sansrpc.Proto.Encoder.{SansDecoder}
use sansrpc.Proto.Words.{IsByte}
use sansrpc.Proto.Buffer.{BytesMut}
use sansrpc.Proto.Frames.{IsOverlong, Begins}
use sansrpc.Proto.ReadState.{ConnectionReadState, process_loop, process}
use sansrpc.Proto.ReadState.Rounds.{process_round-overlong, process_round-refused}
use sansrpc.Proto.ReadState.Drains.{
  Drains, full, no_frame, no_usize, refused, decoded, process-Processed, header-lt,
}

-- A run that ends in an error ends in front of the frame that caused it, with room left.
err-Begins :
    {In E : Type 0} {decode : List ℕ → Result E (Message In)} {room : ℕ} {bytes : List ℕ}
    {ms : List (Message In)} {rest : List ℕ} {r : Outcome E (Unit {0})} (e : E)
    → r ≡ Outcome.err e
    → Drains decode room bytes ms rest r
    → (item : List ℕ) × (next : List ℕ) × Begins rest item next
      × (decode item ≡ Result.err e)
      × (length ms < room)
err-Begins e h (full _) = cc
err-Begins e h (no_frame _ _) = cc
err-Begins e h (no_usize _ _) = cc
err-Begins e h (refused {item} {rest} free b d) = (item, rest, b, cc, free)
err-Begins e h (decoded room_eq b d more) =
    let (item, next, b', d', free) = err-Begins e h more in (item, next, b', d', omega arith)

module _ {In Decoder E Buffer : Type 0} (bytes : BytesMut Buffer)
    (decoder : SansDecoder Decoder In E) (s : ConnectionReadState In Decoder Buffer)
    (h : All IsByte (bytes.as_slice s.recv_buffer)) where
  open bytes use {as_slice}

  -- With room in the queue, eight bytes that stand for a length of at least 2^64 - 8 make `process`
  -- panic, and nothing is taken from the buffer.
  pub process-overlong :
      length s.recv_queue < s.config.recv_queue_size
      → IsOverlong (as_slice s.recv_buffer)
      → process bytes decoder s ≡ (s, Outcome.panicked)
  unfolding process process_loop
  process-overlong free o =
      rw (process_round-overlong bytes decoder s free o (header-lt _ h o.0), process_loop)

  -- Where `process` answers an error, it has not taken the item that caused it from the buffer: the
  -- next call changes nothing and answers the same error.
  pub process-err_again :
      (e : E)
      → (process bytes decoder s).1 ≡ Outcome.err e
      → process bytes decoder (process bytes decoder s).0
        ≡ ((process bytes decoder s).0, Outcome.err e)
  process-err_again e failed =
      let p = process-Processed bytes decoder s h in
      let (item, next, b, d, free) = err-Begins e failed p.drains in
      again (process bytes decoder s).0 item next b
        (ap (λ c. decoder.decode c.coder item) p.same_config ∙ d)
        (omega (
          arith,
          ap length p.queued,
          length-append s.recv_queue p.items,
          ap (λ c. c.recv_queue_size) p.same_config,
        ))
    where
      again :
          (t : ConnectionReadState In Decoder Buffer) (item next : List ℕ)
          → Begins (as_slice t.recv_buffer) item next
          → decoder.decode t.config.coder item ≡ Result.err e
          → length t.recv_queue < t.config.recv_queue_size
          → process bytes decoder t ≡ (t, Outcome.err e)
      again t item next b d free =
          unfold process process_loop in
          rw (process_round-refused bytes decoder t free b d, process_loop)
