-- ===== src/Proto/ReadState/Order.antt =====
-- What a caller of the read half of connection_state.rs can rely on: the messages come out in the
-- order in which they were sent, and all of them do.
use sansrpc.Prelude.{
  ℕ, zero, suc, ◌+◌, ◌-◌, ◌≤◌, ◌<◌, ◌≡◌, refl, sym, ap, ◌∙◌, inl, inr, ◌⊎◌, List, [], ◌∷◌, ◌++◌,
  length, append-nil, length-append, length-eq_zero, All, All-append_right, Result, Outcome, arith,
}
use sansrpc.Proto.Message.{Message}
use sansrpc.Proto.Encoder.{SansDecoder}
use sansrpc.Proto.Buffer.{BytesMut}
use sansrpc.Proto.Frames.{IsPartial, frame-ne-IsPartial}
use sansrpc.Proto.Wire.{wire, Carried, wire-cons}
use sansrpc.Proto.ReadState.{ReadConnectionConfig, pop_front, consume_item, process}
use sansrpc.Proto.ReadState.Drains.{Processed, process-Processed}
use sansrpc.Proto.ReadState.Delivery.{Drained}
use sansrpc.Proto.ReadState.Session.{
  ReadCall, processes, consumes, Session, take_item, step, run, start, InOrder, buffer-IsByte,
  process-Drained, step-InOrder, run-InOrder, start-InOrder,
}

-- `n` times `process` and `consume_item`.
abbrev pub rounds : ℕ → List ReadCall
rounds zero = []
rounds (suc n) = processes ∷ consumes ∷ rounds n

module _ {In Decoder E F Buffer : Type 0} (bytes : BytesMut Buffer)
    (decoder : SansDecoder Decoder In F) (encode : Message In → Result E (List ℕ × ℕ))
    (config : ReadConnectionConfig Decoder) (ms : List (Message In))
    (cs : All (Carried encode (decoder.decode config.coder)) ms) where
  open bytes use {as_slice}
  open decoder use {decode}

  -- Feed the read half of a connection with the frames of messages that the coders carry, in any
  -- pieces, and call `process` and `consume_item` at any time: what has been consumed is a front of
  -- the messages sent, in order and with none lost or repeated, and `process` answers `Ok`.
  pub run-in_order :
      (calls : List ReadCall)
      → let x = run bytes decoder (start bytes decoder config (wire encode ms)) calls in
        (rest : List (Message In)) × (ms ≡ x.delivered ++ rest)
        × ((process bytes decoder x.reader).1 ≡ Outcome.ok tt)
  run-in_order calls =
      let x = run bytes decoder (start bytes decoder config (wire encode ms)) calls in
      let o =
        run-InOrder bytes decoder encode config ms (start bytes decoder config (wire encode ms))
          calls (start-InOrder bytes decoder encode config ms cs) in
      let d = process-Drained bytes decoder encode config ms x o (
        process-Processed bytes decoder x.reader
          (buffer-IsByte bytes decoder encode config ms x o)) in
      (x.reader.recv_queue ++ o.todo, o.order, d.succeeds)

  -- Bytes that end inside a frame carry no further message.
  pub none_left :
      (todo : List (Message In))
      → All (Carried encode (decode config.coder)) todo
      → IsPartial (wire encode todo)
      → todo ≡ []
  none_left [] h p = refl
  none_left (m ∷ todo) (c, h) p = absurd (
      frame-ne-IsPartial c.item (wire encode todo) c.fits
        (rw (wire-cons encode (decode config.coder) m todo c) at p))

  module _ (x : Session In Decoder Buffer) (o : InOrder bytes decoder encode config ms x)
      (sized : 0 < config.recv_queue_size) (all_in : x.unread ≡ []) where
    -- After `process` an empty queue says that everything has been delivered.
    idle_complete :
        (process bytes decoder x.reader).0.recv_queue ≡ [] → length ms ≤ length x.delivered
    idle_complete e = omega (
      arith,
      ap length o.order,
      length-append x.delivered (x.reader.recv_queue ++ o.todo),
      length-append x.reader.recv_queue o.todo,
      ap length d.order,
      length-append p.items d.left,
      queue_empty,
      ap length nothing_left,
    )
      where
        p : Processed bytes decoder x.reader (process bytes decoder x.reader)
        p =
            process-Processed bytes decoder x.reader
              (buffer-IsByte bytes decoder encode config ms x o)

        d :
            Drained encode
              (decode config.coder)
              o.todo
              p.items
              (x.reader.config.recv_queue_size - length x.reader.recv_queue)
              (as_slice (process bytes decoder x.reader).0.recv_buffer)
              x.unread
              (process bytes decoder x.reader).1
        d = process-Drained bytes decoder encode config ms x o p

        queue_empty : length x.reader.recv_queue + length p.items ≡ 0
        queue_empty =
            omega
              (arith, ap length p.queued, ap length e, length-append x.reader.recv_queue p.items)

        size_kept : x.reader.config.recv_queue_size ≡ config.recv_queue_size
        size_kept = ap (λ c. c.recv_queue_size) o.same_config

        left_bytes : wire encode d.left ≡ as_slice (process bytes decoder x.reader).0.recv_buffer
        left_bytes =
            d.behind
            ∙ ap (λ t. as_slice (process bytes decoder x.reader).0.recv_buffer ++ t) all_in
            ∙ append-nil _

        stopped :
            (x.reader.config.recv_queue_size - length x.reader.recv_queue ≡ length p.items)
              ⊎ IsPartial (as_slice (process bytes decoder x.reader).0.recv_buffer)
            → d.left ≡ []
        stopped (inl room) = absurd (omega (arith, queue_empty, size_kept))
        stopped (inr partial) =
            none_left d.left (All-append_right _ p.items d.left (rw d.order at o.carried))
              (rw left_bytes partial)

        nothing_left : d.left ≡ []
        nothing_left = stopped d.stops

    -- One round delivers a message, if one is missing.
    round_progress :
        (length ms
          ≤ length (step bytes decoder (step bytes decoder x processes) consumes).delivered)
        ⊎ (length (step bytes decoder (step bytes decoder x processes) consumes).delivered
            ≡ suc (length x.delivered))
    unfolding step consume_item pop_front take_item
    round_progress = go _ refl
      where
        go :
            (queue : List (Message In))
            → (process bytes decoder x.reader).0.recv_queue ≡ queue
            → (length ms
                ≤ length
                    (take_item
                      (step bytes decoder x processes)
                      (pop_front queue (process bytes decoder x.reader).0)).delivered)
              ⊎ (length
                    (take_item
                      (step bytes decoder x processes)
                      (pop_front queue (process bytes decoder x.reader).0)).delivered
                  ≡ suc (length x.delivered))
        go [] e = inl (idle_complete e)
        go (m ∷ queue) e = inr (omega (arith, length-append x.delivered (m ∷ [])))

  unread-round :
      (x : Session In Decoder Buffer)
      → (step bytes decoder (step bytes decoder x processes) consumes).unread ≡ x.unread
  unfolding step consume_item take_item pop_front
  unread-round x = go (process bytes decoder x.reader).0.recv_queue
    where
      go :
          (queue : List (Message In))
          → (take_item
              (step bytes decoder x processes)
              (pop_front queue (process bytes decoder x.reader).0)).unread
            ≡ x.unread
      go [] = refl
      go (m ∷ queue) = refl

  front_all :
      (x : Session In Decoder Buffer)
      → InOrder bytes decoder encode config ms x
      → length ms ≤ length x.delivered
      → x.delivered ≡ ms
  front_all x o h =
      sym (append-nil x.delivered)
      ∙ ap (λ t. x.delivered ++ t) (sym (length-eq_zero (x.reader.recv_queue ++ o.todo) none_over))
      ∙ sym o.order
    where
      none_over : length (x.reader.recv_queue ++ o.todo) ≡ 0
      none_over =
          omega
            (arith, ap length o.order, length-append x.delivered (x.reader.recv_queue ++ o.todo))

  rounds_deliver :
      (n : ℕ) (x : Session In Decoder Buffer)
      → InOrder bytes decoder encode config ms x
      → 0 < config.recv_queue_size
      → x.unread ≡ []
      → length ms ≤ length x.delivered + n
      → (run bytes decoder x (rounds n)).delivered ≡ ms
  unfolding run
  rounds_deliver zero x o sized all_in h = front_all x o (omega arith)
  rounds_deliver (suc n) x o sized all_in h =
      let y = step bytes decoder x processes in
      let z = step bytes decoder y consumes in
      let oy = step-InOrder bytes decoder encode config ms x processes o in
      let oz = step-InOrder bytes decoder encode config ms y consumes oy in
      let left : length ms ≤ length z.delivered + n =
        omega (arith, round_progress x o sized all_in) in
      rounds_deliver n z oz sized (unread-round x ∙ all_in) left

  -- Once all the bytes of the messages have been taken in, whatever was called before, calling
  -- `process` and `consume_item` in turn as often as there are messages has delivered them all.
  -- The receive queue has room for one item at least.
  pub run-all_delivered :
      0 < config.recv_queue_size
      → (calls : List ReadCall)
      → let x = run bytes decoder (start bytes decoder config (wire encode ms)) calls in
        x.unread ≡ [] → (run bytes decoder x (rounds (length ms))).delivered ≡ ms
  run-all_delivered sized calls all_in =
      rounds_deliver (length ms) _
        (run-InOrder bytes decoder encode config ms (start bytes decoder config (wire encode ms))
          calls (start-InOrder bytes decoder encode config ms cs))
        sized all_in (omega arith)
