-- ===== src/Proto/ReadState/Session.antt =====
-- A caller of the read half of connection_state.rs: it feeds the bytes of a list of messages in any
-- pieces, and processes and consumes at any time.
use sansrpc.Prelude.{
  ℕ, ◌-◌, ◌≡◌, refl, sym, ap, ap₂, ◌∙◌, inl, inr, Option, none, some, List, [], ◌∷◌, ◌++◌, length,
  take, drop, append_assoc, take-append-drop, drop-length-take, All, All-append_left,
  All-append_right, Result, subst,
}
use sansrpc.Proto.Message.{Message}
use sansrpc.Proto.Encoder.{SansDecoder}
use sansrpc.Proto.Words.{IsByte}
use sansrpc.Proto.Buffer.{BytesMut}
use sansrpc.Proto.Wire.{wire, Carried, wire-IsByte}
use sansrpc.Proto.ReadState.{
  ConnectionReadState, ReadConnectionConfig, new, feed_bytes, pop_front, consume_item, process,
}
use sansrpc.Proto.ReadState.Feed.{feed_bytes_cases}
use sansrpc.Proto.ReadState.Drains.{Drains, Processed, process-Processed}
use sansrpc.Proto.ReadState.Delivery.{Drained, Drains-wire}

pub data ReadCall : Type 0 where
  feeds : ℕ → ReadCall
  processes consumes : ReadCall

-- `unread` is what the peer has sent and `feed_bytes` has not taken.
pub record Session (In Decoder Buffer : Type 0) : Type 0 where
  pub reader : ConnectionReadState In Decoder Buffer
  pub unread : List ℕ
  pub delivered : List (Message In)

module _ {In Decoder Buffer : Type 0} where
  unfoldable pub take_item :
      Session In Decoder Buffer
      → ConnectionReadState In Decoder Buffer × Option (Message In)
      → Session In Decoder Buffer
  take_item x (reader, none) = record x { reader = reader }
  take_item x (reader, some m) = record x { reader = reader; delivered = x.delivered ++ m ∷ [] }

module _ {In Decoder F Buffer : Type 0} (bytes : BytesMut Buffer)
    (decoder : SansDecoder Decoder In F) where
  open bytes use {as_slice, as_slice-extend, as_slice-with_capacity}
  open decoder use {decode}

  -- The caller offers the next `n` bytes, and drops as many as were taken.
  unfoldable pub step : Session In Decoder Buffer → ReadCall → Session In Decoder Buffer
  unfolding take_item
  step x (feeds n) =
      let (reader, fed) = feed_bytes bytes x.reader (take n x.unread) in
      record x { reader = reader; unread = drop fed x.unread }
  step x processes = record x { reader = (process bytes decoder x.reader).0 }
  step x consumes = take_item x (consume_item x.reader)

  unfoldable pub run : Session In Decoder Buffer → List ReadCall → Session In Decoder Buffer
  run x [] = x
  run x (c ∷ cs) = run (step x c) cs

  unfoldable pub start : ReadConnectionConfig Decoder → List ℕ → Session In Decoder Buffer
  start config sent = record { reader = new bytes config; unread = sent; delivered = [] }

  module _ {E : Type 0} (encode : Message In → Result E (List ℕ × ℕ))
      (config : ReadConnectionConfig Decoder) where
    -- Of `ms`, the delivered messages come first, then the queue, and the bytes at hand carry the
    -- others.
    pub record InOrder (ms : List (Message In)) (x : Session In Decoder Buffer) : Type 0 where
      pub todo : List (Message In)
      pub order : ms ≡ x.delivered ++ (x.reader.recv_queue ++ todo)
      pub behind : wire encode todo ≡ as_slice x.reader.recv_buffer ++ x.unread
      pub carried : All (Carried encode (decode config.coder)) todo
      pub same_config : x.reader.config ≡ config

    module _ (ms : List (Message In)) (x : Session In Decoder Buffer) (o : InOrder ms x) where
      pub buffer-IsByte : All IsByte (as_slice x.reader.recv_buffer)
      buffer-IsByte =
          All-append_left IsByte (as_slice x.reader.recv_buffer) x.unread
            (rw o.behind at (wire-IsByte encode (decode config.coder) o.todo o.carried))

      -- What one `process` does in such a session.
      pub process-Drained :
          (p : Processed bytes decoder x.reader (process bytes decoder x.reader))
          → Drained encode
              (decode config.coder)
              o.todo
              p.items
              (x.reader.config.recv_queue_size - length x.reader.recv_queue)
              (as_slice (process bytes decoder x.reader).0.recv_buffer)
              x.unread
              (process bytes decoder x.reader).1
      process-Drained p =
          Drains-wire encode (decode config.coder) o.todo x.unread o.carried o.behind (
            subst
              (λ c.
                Drains (decode c.coder)
                  (x.reader.config.recv_queue_size - length x.reader.recv_queue)
                  (as_slice x.reader.recv_buffer) p.items
                  (as_slice (process bytes decoder x.reader).0.recv_buffer)
                  (process bytes decoder x.reader).1)
              o.same_config p.drains)

      step_processes : InOrder ms (step x processes)
      unfolding step
      step_processes =
          let p = process-Processed bytes decoder x.reader buffer-IsByte in
          let d = process-Drained p in
          record {
            todo = d.left;
            order =
                o.order
                ∙ ap (λ t. x.delivered ++ t)
                    (ap (λ t. x.reader.recv_queue ++ t) d.order
                      ∙ sym (append_assoc x.reader.recv_queue p.items d.left)
                      ∙ ap (λ t. t ++ d.left) (sym p.queued));
            behind = d.behind;
            carried = All-append_right _ p.items d.left (rw d.order at o.carried);
            same_config = p.same_config ∙ o.same_config;
          }

      pub taken :
          (queue : List (Message In))
          → x.reader.recv_queue ≡ queue
          → InOrder ms (take_item x (pop_front queue x.reader))
      unfolding take_item pop_front
      taken [] e = o
      taken (m ∷ queue) e = record {
        todo = o.todo;
        order =
            o.order
            ∙ ap (λ t. x.delivered ++ (t ++ o.todo)) e
            ∙ sym (append_assoc x.delivered (m ∷ []) (queue ++ o.todo));
        behind = o.behind;
        carried = o.carried;
        same_config = o.same_config;
      }

      step_consumes : InOrder ms (step x consumes)
      unfolding step consume_item
      step_consumes = taken x.reader.recv_queue refl

      step_feeds : (n : ℕ) → InOrder ms (step x (feeds n))
      unfolding step
      step_feeds n = elim (feed_bytes_cases bytes x.reader (take n x.unread)) [
        | inl e ↦ rw e (record {
          todo = o.todo;
          order = o.order;
          behind =
              o.behind
              ∙ ap (λ t. as_slice x.reader.recv_buffer ++ t) (sym (take-append-drop n x.unread))
              ∙ sym
                  (append_assoc (as_slice x.reader.recv_buffer) (take n x.unread) (drop n x.unread))
              ∙ ap₂ ◌++◌ (sym (as_slice-extend x.reader.recv_buffer (take n x.unread)))
                  (sym (drop-length-take n x.unread));
          carried = o.carried;
          same_config = o.same_config;
        })
        | inr (e, _) ↦ rw e o
      ]

    pub InOrder-unread :
        (ms : List (Message In)) (x : Session In Decoder Buffer) {unread : List ℕ}
        → x.unread ≡ unread
        → InOrder ms x
        → InOrder ms (record x { unread = unread })
    InOrder-unread ms x e o = record {
      todo = o.todo;
      order = o.order;
      behind = o.behind ∙ ap (λ t. as_slice x.reader.recv_buffer ++ t) e;
      carried = o.carried;
      same_config = o.same_config;
    }

    pub step-InOrder :
        (ms : List (Message In)) (x : Session In Decoder Buffer) (c : ReadCall)
        → InOrder ms x
        → InOrder ms (step x c)
    step-InOrder ms x (feeds n) o = step_feeds ms x o n
    step-InOrder ms x processes o = step_processes ms x o
    step-InOrder ms x consumes o = step_consumes ms x o

    pub run-InOrder :
        (ms : List (Message In)) (x : Session In Decoder Buffer) (cs : List ReadCall)
        → InOrder ms x
        → InOrder ms (run x cs)
    unfolding run
    run-InOrder ms x [] o = o
    run-InOrder ms x (c ∷ cs) o = run-InOrder ms (step x c) cs (step-InOrder ms x c o)

    pub start-InOrder :
        (ms : List (Message In))
        → All (Carried encode (decode config.coder)) ms
        → InOrder ms (start config (wire encode ms))
    unfolding start new
    start-InOrder ms cs = record {
      todo = ms;
      order = refl;
      behind = ap (λ t. t ++ wire encode ms) (sym (as_slice-with_capacity config.recv_buffer_size));
      carried = cs;
      same_config = refl;
    }
