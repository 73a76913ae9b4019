-- ===== src/Proto/ReadState/Drains.antt =====
-- What `ConnectionReadState::process` does to queue and buffer, said in terms of frames.
use sansrpc.Prelude.{
  ℕ, zero, suc, ◌-◌, ◌^◌, ◌≤◌, ◌<◌, ◌≡◌, refl, sym, ap, ◌∙◌, inl, inr, List, [], ◌∷◌, ◌++◌, length,
  take, length-append, length-take, append_assoc, append-nil, All, All-append_left,
  All-append_right, ltb, Bool-cases, ltb→lt, ltb-false→le, Result, Result-cases, subst, Outcome,
  arith, take-append-drop, drop,
}
use sansrpc.Proto.Message.{Message}
use sansrpc.Proto.Encoder.{SansDecoder}
use sansrpc.Proto.Words.{IsByte, usize_mod, from_le_bytes-lt}
use sansrpc.Proto.Buffer.{BytesMut}
use sansrpc.Proto.Frames.{
  Front, partial, overlong, whole, front, frame, header, IsPartial, IsOverlong, Begins,
  length-frame,
}
use sansrpc.Proto.ReadState.{ConnectionReadState, process_loop, process}
use sansrpc.Proto.ReadState.Rounds.{
  process_round-full, process_round-partial, process_round-overlong, process_round-decoded,
  process_round-refused,
}

-- With room for `room` items, `bytes` are drained to `rest`: the items of the frames at the front
-- come out in order, until the room is used up, no whole frame is left, an item does not decode, or
-- a header is overlong.
pub data Drains {In E : Type 0} (decode : List ℕ → Result E (Message In))
    : ℕ → List ℕ → List (Message In) → List ℕ → Outcome E (Unit {0}) → Type 0 where
  full : {room : ℕ} {bytes : List ℕ} → room ≡ 0 → Drains decode room bytes [] bytes (Outcome.ok tt)
  no_frame :
      {room : ℕ} {bytes : List ℕ}
      → 0 < room
      → IsPartial bytes
      → Drains decode room bytes [] bytes (Outcome.ok tt)
  no_usize :
      {room : ℕ} {bytes : List ℕ}
      → 0 < room
      → IsOverlong bytes
      → Drains decode room bytes [] bytes Outcome.panicked
  refused :
      {room : ℕ} {bytes item rest : List ℕ} {e : E}
      → 0 < room
      → Begins bytes item rest
      → decode item ≡ Result.err e
      → Drains decode room bytes [] bytes (Outcome.err e)
  decoded :
      {room left : ℕ} {bytes item next rest : List ℕ} {m : Message In} {ms : List (Message In)}
      {r : Outcome E (Unit {0})}
      → room ≡ suc left
      → Begins bytes item next
      → decode item ≡ Result.ok m
      → Drains decode left next ms rest r
      → Drains decode room bytes (m ∷ ms) rest r

pub header-lt : (bytes : List ℕ) → All IsByte bytes → 8 ≤ length bytes → header bytes < usize_mod
header-lt bytes h long = omega (
  arith,
  from_le_bytes-lt (take 8 bytes)
      (All-append_left IsByte (take 8 bytes) (drop 8 bytes) (rw (take-append-drop 8 bytes) h)),
  ap (λ (k : ℕ). 256 ^ k) sized,
)
  where
    sized : length (take 8 bytes) ≡ 8
    sized = omega (arith, length-take 8 bytes)

module _ {In Decoder E Buffer : Type 0} (bytes : BytesMut Buffer)
    (decoder : SansDecoder Decoder In E) where
  open bytes use {as_slice}
  open decoder use {decode}

  -- `q` is what `process` may leave of `s`, with its result.
  pub record Processed (s : ConnectionReadState In Decoder Buffer)
      (q : ConnectionReadState In Decoder Buffer × Outcome E (Unit {0})) : Type 0 where
    pub items : List (Message In)
    pub queued : q.0.recv_queue ≡ s.recv_queue ++ items
    pub same_config : q.0.config ≡ s.config
    pub drains :
        Drains
          (decode s.config.coder)
          (s.config.recv_queue_size - length s.recv_queue)
          (as_slice s.recv_buffer)
          items
          (as_slice q.0.recv_buffer)
          q.1

  stays :
      (s : ConnectionReadState In Decoder Buffer) {r : Outcome E (Unit {0})}
      → Drains
          (decode s.config.coder)
          (s.config.recv_queue_size - length s.recv_queue)
          (as_slice s.recv_buffer)
          []
          (as_slice s.recv_buffer)
          r
      → Processed s (s, r)
  stays s d = record {
    items = [];
    queued = sym (append-nil s.recv_queue);
    same_config = refl;
    drains = d;
  }

  -- A frame that is decoded comes before what the rest of the loop drains.
  decoded-Processed :
      (s : ConnectionReadState In Decoder Buffer) {item rest : List ℕ} {m : Message In}
      {back : Buffer} {q : ConnectionReadState In Decoder Buffer × Outcome E (Unit {0})}
      → length s.recv_queue < s.config.recv_queue_size
      → Begins (as_slice s.recv_buffer) item rest
      → decode s.config.coder item ≡ Result.ok m
      → as_slice back ≡ rest
      → Processed (record s { recv_queue = s.recv_queue ++ m ∷ []; recv_buffer = back }) q
      → Processed s q
  decoded-Processed s {m = m} {q = q} free b d e p = record {
    items = m ∷ p.items;
    queued = p.queued ∙ append_assoc s.recv_queue (m ∷ []) p.items;
    same_config = p.same_config;
    drains = decoded left b d (
        subst
          (λ t.
            Drains (decode s.config.coder)
              (s.config.recv_queue_size - length (s.recv_queue ++ m ∷ [])) t p.items
              (as_slice q.0.recv_buffer) q.1)
          e p.drains);
  }
    where
      left :
          s.config.recv_queue_size - length s.recv_queue
          ≡ suc (s.config.recv_queue_size - length (s.recv_queue ++ m ∷ []))
      left = omega (arith, length-append s.recv_queue (m ∷ []))

  -- The claim for runs of the loop with `fuel` left.
  abbrev Runs : ℕ → Type 0
  Runs fuel =
      (s : ConnectionReadState In Decoder Buffer)
      → All IsByte (as_slice s.recv_buffer)
      → length (as_slice s.recv_buffer) < fuel
      → Processed s (process_loop bytes decoder fuel s)

  module _ (fuel : ℕ) (again : Runs fuel) (s : ConnectionReadState In Decoder Buffer)
      (h : All IsByte (as_slice s.recv_buffer)) (hf : length (as_slice s.recv_buffer) < suc fuel)
      (free : length s.recv_queue < s.config.recv_queue_size) where
    runs_next :
        {item rest : List ℕ} {m : Message In}
        → Begins (as_slice s.recv_buffer) item rest
        → decode s.config.coder item ≡ Result.ok m
        → Processed s (process_loop bytes decoder (suc fuel) s)
    unfolding process_loop
    runs_next {item} {rest} {m} b d =
        let (back, e, r) = process_round-decoded bytes decoder s free b d in
        rw (e, process_loop)
          (decoded-Processed s free b d r (
            again (record s { recv_queue = s.recv_queue ++ m ∷ []; recv_buffer = back })
              (rw r (All-append_right IsByte (frame item) rest (rw b.split at h))) (rw r shorter)))
      where
        shorter : length rest < fuel
        shorter =
            omega (arith, ap length b.split, length-append (frame item) rest, length-frame item)

    runs_round :
        Front (as_slice s.recv_buffer) → Processed s (process_loop bytes decoder (suc fuel) s)
    unfolding process_loop
    runs_round (partial p) =
        rw (process_round-partial bytes decoder s free p, process_loop)
          (stays s (no_frame (omega arith) p))
    runs_round (overlong o) =
        rw (process_round-overlong bytes decoder s free o (header-lt _ h o.0), process_loop)
          (stays s (no_usize (omega arith) o))
    runs_round (whole item rest b) = elim (Result-cases (decode s.config.coder item)) [
      | inl (m, d) ↦ runs_next b d
      | inr (e, d) ↦
          rw (process_round-refused bytes decoder s free b d, process_loop)
            (stays s (refused (omega arith) b d))
    ]

  process_loop-Processed : (fuel : ℕ) → Runs fuel
  unfolding process_loop
  process_loop-Processed zero s h hf = absurd (omega arith)
  process_loop-Processed (suc fuel) s h hf =
      elim (Bool-cases (ltb (length s.recv_queue) s.config.recv_queue_size)) [
        | inr busy ↦
            rw (process_round-full bytes decoder s (ltb-false→le _ _ busy), process_loop)
              (stays s (full (omega (arith, ltb-false→le _ _ busy))))
        | inl room ↦
            runs_round fuel (process_loop-Processed fuel) s h hf (ltb→lt _ _ room) (front _ h)
      ]

  -- On every buffer of bytes `process` comes to an end with the fuel that it has. It moves the items
  -- of the frames at the front of the buffer into the queue, in order, until the queue is full or no
  -- whole frame is left (`Ok`), an item does not decode (its error, and the frame stays in the
  -- buffer), or a header announces an item whose frame has no `usize` for its length (a panic).
  pub process-Processed :
      (s : ConnectionReadState In Decoder Buffer)
      → All IsByte (as_slice s.recv_buffer)
      → Processed s (process bytes decoder s)
  unfolding process
  process-Processed s h =
      process_loop-Processed (suc (length (as_slice s.recv_buffer))) s h (omega arith)
