-- ===== src/Proto/WriteState/Emits.antt =====
-- What `ConnectionWriteState::process` does to queue and buffer.
use sansrpc.Prelude.{
  ℕ, ◌≡◌, refl, sym, ap, ap₂, ◌∙◌, inl, inr, List, [], ◌∷◌, ◌++◌, length, append_assoc, append-nil,
  All, Result, Result-cases, Outcome,
}
use sansrpc.Proto.Message.{Message}
use sansrpc.Proto.Encoder.{SansEncoder}
use sansrpc.Proto.Words.{to_le_bytes}
use sansrpc.Proto.Buffer.{BytesMut}
use sansrpc.Proto.Frames.{frame}
use sansrpc.Proto.Wire.{wire, Carried, wire-cons}
use sansrpc.Proto.WriteState.{ConnectionWriteState, process_loop, process}

-- The queue `ms` is written as `out` until an item does not encode: that item is dropped, and the
-- ones behind it stay in the queue.
pub data Emits {Out E : Type 0} (encode : Message Out → Result E (List ℕ × ℕ))
    : List (Message Out) → List ℕ → List (Message Out) → Outcome E (Unit {0}) → Type 0 where
  finished : Emits encode [] [] [] (Outcome.ok tt)
  dropped :
      {m : Message Out} {ms : List (Message Out)} {e : E}
      → encode m ≡ Result.err e
      → Emits encode (m ∷ ms) [] ms (Outcome.err e)
  emitted :
      {m : Message Out} {ms left : List (Message Out)} {item out : List ℕ} {len : ℕ}
      {r : Outcome E (Unit {0})}
      → encode m ≡ Result.ok (item, len)
      → Emits encode ms out left r
      → Emits encode (m ∷ ms) ((to_le_bytes len ++ item) ++ out) left r

module _ {Out Encoder E Buffer : Type 0} (bytes : BytesMut Buffer)
    (encoder : SansEncoder Encoder Out E) where
  open bytes use {as_slice, extend_from_slice, as_slice-extend}
  open encoder use {encode}

  -- `q` is what `process` leaves of a state with queue `ms`, with its result.
  pub record Sent (ms : List (Message Out)) (s : ConnectionWriteState Out Encoder Buffer)
      (q : ConnectionWriteState Out Encoder Buffer × Outcome E (Unit {0})) : Type 0 where
    pub out : List ℕ
    pub buffered : as_slice q.0.send_buffer ≡ as_slice s.send_buffer ++ out
    pub same_config : q.0.config ≡ s.config
    pub emits : Emits (encode s.config.coder) ms out q.0.send_queue q.1

  process_loop-Sent :
      (ms : List (Message Out)) (s : ConnectionWriteState Out Encoder Buffer)
      → Sent ms s (process_loop bytes encoder ms s)
  unfolding process_loop
  process_loop-Sent [] s = record {
    out = [];
    buffered = sym (append-nil _);
    same_config = refl;
    emits = finished;
  }
  process_loop-Sent (m ∷ ms) s = elim (Result-cases (encode s.config.coder m)) [
    | inr (e, failed) ↦
        rw (failed, process_loop)
          (record {
            out = [];
            buffered = sym (append-nil _);
            same_config = refl;
            emits = dropped failed;
          })
    | inl ((item, len), encoded) ↦
        let s' = record s {
          send_queue = ms;
          send_buffer = extend_from_slice (extend_from_slice s.send_buffer (to_le_bytes len)) item;
        } in
        let p = process_loop-Sent ms s' in
        rw (encoded, process_loop)
          (record {
            out = (to_le_bytes len ++ item) ++ p.out;
            buffered =
                p.buffered
                ∙ ap (λ t. t ++ p.out) (extended s.send_buffer (to_le_bytes len) item)
                ∙ append_assoc (as_slice s.send_buffer) (to_le_bytes len ++ item) p.out;
            same_config = p.same_config;
            emits = emitted encoded p.emits;
          })
  ]
    where
      extended :
          (b : Buffer) (front item : List ℕ)
          → as_slice (extend_from_slice (extend_from_slice b front) item)
            ≡ as_slice b ++ (front ++ item)
      extended b front item =
          as_slice-extend (extend_from_slice b front) item
          ∙ ap (λ t. t ++ item) (as_slice-extend b front)
          ∙ append_assoc (as_slice b) front item

  -- `process` writes the frames of the queue behind the send buffer, in order, and empties the
  -- queue; at an item that does not encode it stops with the encoder's error, has dropped that
  -- item and keeps the ones behind it queued.
  pub process-Sent :
      (s : ConnectionWriteState Out Encoder Buffer) → Sent s.send_queue s (process bytes encoder s)
  unfolding process
  process-Sent s = process_loop-Sent s.send_queue s

framed :
    {T E F : Type 0} {encode : Message T → Result E (List ℕ × ℕ)}
    {decode : List ℕ → Result F (Message T)} {m : Message T} {item : List ℕ} {len : ℕ}
    (c : Carried encode decode m)
    → encode m ≡ Result.ok (item, len)
    → to_le_bytes len ++ item ≡ frame c.item
unfolding frame
framed c e =
    let same : ◌≡◌ {A = Result _ (List ℕ × ℕ)} (Result.ok (_, _))
        (Result.ok (c.item, length c.item)) =
      sym e ∙ c.encoded in
    cc same

-- If every message is carried, all of them are written.
pub Emits-wire :
    {Out E F : Type 0} (encode : Message Out → Result E (List ℕ × ℕ))
    (decode : List ℕ → Result F (Message Out)) {ms : List (Message Out)} {out : List ℕ}
    {left : List (Message Out)} {r : Outcome E (Unit {0})}
    → All (Carried encode decode) ms
    → Emits encode ms out left r
    → (out ≡ wire encode ms) × (left ≡ []) × (r ≡ Outcome.ok tt)
unfolding wire
Emits-wire encode decode cs finished = (refl, refl, refl)
Emits-wire encode decode cs (dropped e) = cc (cs.0.encoded, e)
Emits-wire encode decode cs (emitted {m = m} {ms = ms} {item = item} {len = len} e more) =
    let (written, none_left, succeeds) = Emits-wire encode decode cs.1 more in
    (
      ap₂ ◌++◌ (framed cs.0 e) written ∙ sym (wire-cons encode decode m ms cs.0),
      none_left,
      succeeds,
    )
