-- ===== src/Proto/ReadState/Transport.antt =====
-- What a transport needs of the read half of connection_state.rs: after `process`, an empty queue
-- says that the receive buffer has room for what comes next, if every frame fits the buffer.
use sansrpc.Prelude.{
  ℕ, ◌+◌, ◌-◌, ◌≤◌, ◌<◌, ◌≡◌, refl, sym, ap, ◌∙◌, inl, inr, ◌⊎◌, List, [], ◌∷◌, ◌++◌, length,
  append_assoc, length-append, All, All-append_right, Result, Outcome, arith, tests, Bool-cases,
  ltb, ltb→lt, ltb-false→le,
}
use sansrpc.Proto.Message.{Message}
use sansrpc.Proto.Encoder.{SansDecoder}
use sansrpc.Proto.Buffer.{BytesMut}
use sansrpc.Proto.Frames.{header, IsPartial, header-frame, header-append}
use sansrpc.Proto.Wire.{wire, Carried, wire-cons}
use sansrpc.Proto.ReadState.{ReadConnectionConfig, feed_bytes, process}
use sansrpc.Proto.ReadState.Drains.{Processed, process-Processed}
use sansrpc.Proto.ReadState.Delivery.{Drained}
use sansrpc.Proto.ReadState.Feed.{feed_bytes-extends}
use sansrpc.Proto.ReadState.Session.{Session, InOrder, buffer-IsByte, process-Drained}

-- The coders carry the message, in a frame no longer than the receive buffer.
pub record Fits {T E F : Type 0} (encode : Message T → Result E (List ℕ × ℕ))
    (decode : List ℕ → Result F (Message T)) (size : ℕ) (m : Message T) : Type 0 where
  pub carried : Carried encode decode m
  pub small : 8 + length carried.item ≤ size

pub Fits-Carried :
    {T E F : Type 0} (encode : Message T → Result E (List ℕ × ℕ))
    (decode : List ℕ → Result F (Message T)) (size : ℕ) (ms : List (Message T))
    → All (Fits encode decode size) ms
    → All (Carried encode decode) ms
Fits-Carried encode decode size [] h = tt
Fits-Carried encode decode size (m ∷ ms) h = (h.0.carried, Fits-Carried encode decode size ms h.1)

-- The part of a frame that has come is shorter than the frame.
partial-lt-size :
    {T E F : Type 0} (encode : Message T → Result E (List ℕ × ℕ))
    (decode : List ℕ → Result F (Message T)) (size : ℕ) (todo : List (Message T))
    (bytes unread : List ℕ)
    → 0 < size
    → All (Fits encode decode size) todo
    → wire encode todo ≡ bytes ++ unread
    → IsPartial bytes
    → length bytes < size
unfolding wire
partial-lt-size encode decode size [] bytes unread sized h w p =
    omega (arith, ap length w, length-append bytes unread)
partial-lt-size encode decode size (m ∷ todo) bytes unread sized h w (inl short) =
    omega (arith, h.0.small)
partial-lt-size encode decode size (m ∷ todo) bytes unread sized h w (inr (_, cut)) =
    elim (Bool-cases (ltb (length bytes) 8)) [
      | inl short ↦ omega (tests, ltb→lt _ _ short, h.0.small)
      | inr long ↦
          let c = h.0.carried in
          omega (
            arith,
            header-append bytes unread (ltb-false→le _ _ long),
            ap header (sym w ∙ wire-cons encode decode m todo c),
            header-frame c.item (wire encode todo) c.fits,
            h.0.small,
          )
    ]

module _ {In Decoder E F Buffer : Type 0} (bytes : BytesMut Buffer)
    (decoder : SansDecoder Decoder In F) (encode : Message In → Result E (List ℕ × ℕ))
    (config : ReadConnectionConfig Decoder) (ms : List (Message In)) (x : Session In Decoder Buffer)
    (o : InOrder bytes decoder encode config ms x) where
  open bytes use {as_slice, as_slice-extend}
  open decoder use {decode}

  -- In such a session `process` answers `Ok`.
  pub process-ok : (process bytes decoder x.reader).1 ≡ Outcome.ok tt
  process-ok =
      (process-Drained bytes decoder encode config ms x o (
        process-Processed bytes decoder x.reader
          (buffer-IsByte bytes decoder encode config ms x o))).succeeds

  -- If its queue is empty then, the buffer ends inside a frame.
  pub process-IsPartial :
      0 < config.recv_queue_size
      → (process bytes decoder x.reader).0.recv_queue ≡ []
      → IsPartial (as_slice (process bytes decoder x.reader).0.recv_buffer)
  process-IsPartial sized e = stopped d.stops
    where
      p : Processed bytes decoder x.reader (process bytes decoder x.reader)
      p =
          process-Processed bytes decoder x.reader
            (buffer-IsByte bytes decoder encode config ms x o)

      d :
          Drained encode
            (decode config.coder)
            o.todo
            p.items
            (x.reader.config.recv_queue_size - length x.reader.recv_queue)
            (as_slice (process bytes decoder x.reader).0.recv_buffer)
            x.unread
            (process bytes decoder x.reader).1
      d = process-Drained bytes decoder encode config ms x o p

      queue_empty : length x.reader.recv_queue + length p.items ≡ 0
      queue_empty =
          omega (arith, ap length p.queued, ap length e, length-append x.reader.recv_queue p.items)

      stopped :
          (x.reader.config.recv_queue_size - length x.reader.recv_queue ≡ length p.items)
            ⊎ IsPartial (as_slice (process bytes decoder x.reader).0.recv_buffer)
          → IsPartial (as_slice (process bytes decoder x.reader).0.recv_buffer)
      stopped (inl room) =
          absurd (omega (arith, queue_empty, ap (λ c. c.recv_queue_size) o.same_config))
      stopped (inr partial) = partial

  -- A buffer that ends inside a frame takes whatever comes next.
  pub feed-InOrder :
      (input rest : List ℕ)
      → x.unread ≡ input ++ rest
      → 0 < config.recv_buffer_size
      → All (Fits encode (decode config.coder) config.recv_buffer_size) ms
      → IsPartial (as_slice x.reader.recv_buffer)
      → ((feed_bytes bytes x.reader input).1 ≡ length input)
        × InOrder bytes decoder encode config ms
            (record x { reader = (feed_bytes bytes x.reader input).0; unread = rest })
  feed-InOrder input rest e sized h p = rw (feed_bytes-extends bytes x.reader input below) (
    refl,
    record {
      todo = o.todo;
      order = o.order;
      behind =
          o.behind
          ∙ ap (λ t. as_slice x.reader.recv_buffer ++ t) e
          ∙ sym (append_assoc (as_slice x.reader.recv_buffer) input rest)
          ∙ ap (λ t. t ++ rest) (sym (as_slice-extend x.reader.recv_buffer input));
      carried = o.carried;
      same_config = o.same_config;
    },
  )
    where
      todo-Fits : All (Fits encode (decode config.coder) config.recv_buffer_size) o.todo
      todo-Fits =
          All-append_right _ x.reader.recv_queue o.todo
            (All-append_right _ x.delivered (x.reader.recv_queue ++ o.todo) (rw o.order at h))

      below : length (as_slice x.reader.recv_buffer) < x.reader.config.recv_buffer_size
      below = rw (ap (λ c. c.recv_buffer_size) o.same_config) (
          partial-lt-size encode (decode config.coder) config.recv_buffer_size o.todo
            (as_slice x.reader.recv_buffer) x.unread sized todo-Fits o.behind p)
