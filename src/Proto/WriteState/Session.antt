-- ===== src/Proto/WriteState/Session.antt =====
-- A caller of the write half of connection_state.rs, which feeds items, processes and consumes bytes
-- in any order.
use sansrpc.Prelude.{
  ℕ, ◌≡◌, refl, sym, ap, ap₂, ◌∙◌, inl, inr, Option, none, some, List, [], ◌∷◌, ◌++◌, append_assoc,
  append-nil, All, All-append, Result, Outcome, subst,
}
use sansrpc.Proto.Message.{Message}
use sansrpc.Proto.Encoder.{SansEncoder}
use sansrpc.Proto.Buffer.{BytesMut}
use sansrpc.Proto.Wire.{wire, Carried, wire-append}
use sansrpc.Proto.WriteState.{
  ConnectionWriteState, WriteConnectionConfig, new, feed_item, process, consume_bytes, consume_all,
}
use sansrpc.Proto.WriteState.Emits.{Emits, Sent, process-Sent, Emits-wire}
use sansrpc.Proto.WriteState.Queue.{
  feed_item_cases, Consumed, got, consume_all_lem, consume_bytes_lem,
}

pub data WriteCall (Out : Type 0) : Type 0 where
  feeds : Message Out → WriteCall Out
  processes : WriteCall Out
  consumes : ℕ → WriteCall Out
  consumes_all : WriteCall Out

-- `accepted` are the items that `feed_item` has not handed back, `sent` the bytes consumed.
pub record WriteSession (Out Encoder Buffer : Type 0) : Type 0 where
  pub writer : ConnectionWriteState Out Encoder Buffer
  pub accepted : List (Message Out)
  pub sent : List ℕ

module _ {Out Encoder Buffer : Type 0} where
  unfoldable pub accept_item :
      WriteSession Out Encoder Buffer
      → Message Out
      → ConnectionWriteState Out Encoder Buffer × Option (Message Out)
      → WriteSession Out Encoder Buffer
  accept_item x m (writer, none) = record x { writer = writer; accepted = x.accepted ++ m ∷ [] }
  accept_item x m (writer, some back) = record x { writer = writer }

  unfoldable pub send_bytes :
      WriteSession Out Encoder Buffer
      → Option (ConnectionWriteState Out Encoder Buffer × Option (List ℕ))
      → WriteSession Out Encoder Buffer
  send_bytes x none = x
  send_bytes x (some (writer, taken)) = record x { writer = writer; sent = x.sent ++ got taken }

module _ {Out Encoder E Buffer : Type 0} (bytes : BytesMut Buffer)
    (encoder : SansEncoder Encoder Out E) where
  open bytes use {as_slice, as_slice-with_capacity}
  open encoder use {encode}

  unfoldable pub step :
      WriteSession Out Encoder Buffer → WriteCall Out → WriteSession Out Encoder Buffer
  unfolding accept_item send_bytes
  step x (feeds m) = accept_item x m (feed_item x.writer m)
  step x processes = record x { writer = (process bytes encoder x.writer).0 }
  step x (consumes len) = send_bytes x (consume_bytes bytes x.writer len)
  step x consumes_all = send_bytes x (some (consume_all bytes x.writer))

  unfoldable pub run :
      WriteSession Out Encoder Buffer → List (WriteCall Out) → WriteSession Out Encoder Buffer
  run x [] = x
  run x (c ∷ cs) = run (step x c) cs

  unfoldable pub start : WriteConnectionConfig Encoder → WriteSession Out Encoder Buffer
  start config = record { writer = new bytes config; accepted = []; sent = [] }

  -- The messages that a caller feeds.
  abbrev pub fed : List (WriteCall Out) → List (Message Out)
  fed [] = []
  fed (feeds m ∷ cs) = m ∷ fed cs
  fed (_ ∷ cs) = fed cs

  module _ {F : Type 0} (decode : List ℕ → Result F (Message Out))
      (config : WriteConnectionConfig Encoder) where
    -- The bytes sent, the buffer and the queue together carry what was accepted.
    pub record Conserves (x : WriteSession Out Encoder Buffer) : Type 0 where
      pub stream :
          x.sent
            ++ (as_slice x.writer.send_buffer ++ wire (encode config.coder) x.writer.send_queue)
          ≡ wire (encode config.coder) x.accepted
      pub carried : All (Carried (encode config.coder) decode) x.writer.send_queue
      pub all_carried : All (Carried (encode config.coder) decode) x.accepted
      pub same_config : x.writer.config ≡ config

    abbrev IsCarried : Message Out → Type 0
    IsCarried = Carried (encode config.coder) decode

    module _ (x : WriteSession Out Encoder Buffer) (v : Conserves x) where
      longer :
          (m : Message Out)
          → x.sent
              ++ (as_slice x.writer.send_buffer
                  ++ wire (encode config.coder) (x.writer.send_queue ++ m ∷ []))
            ≡ wire (encode config.coder) (x.accepted ++ m ∷ [])
      longer m =
          let code = encode config.coder in
          let buffered = as_slice x.writer.send_buffer in
          let queued = wire code x.writer.send_queue in
          let last = wire code (m ∷ []) in
          ap (λ t. x.sent ++ (buffered ++ t)) (wire-append code x.writer.send_queue (m ∷ []))
          ∙ ap (λ t. x.sent ++ t) (sym (append_assoc buffered queued last))
          ∙ sym (append_assoc x.sent (buffered ++ queued) last)
          ∙ ap (λ t. t ++ last) v.stream
          ∙ sym (wire-append code x.accepted (m ∷ []))

      pub feeds-Conserves : (m : Message Out) → IsCarried m → Conserves (step x (feeds m))
      unfolding step
      feeds-Conserves m c = elim (feed_item_cases x.writer m) [
        | inl e ↦ rw e (record {
          stream = longer m;
          carried = All-append _ x.writer.send_queue (m ∷ []) v.carried (c, tt);
          all_carried = All-append _ x.accepted (m ∷ []) v.all_carried (c, tt);
          same_config = v.same_config;
        })
        | inr e ↦ rw e v
      ]

      -- `process` writes the frames of the whole queue, and answers `Ok`.
      pub process-wire :
          (p : Sent bytes encoder x.writer.send_queue x.writer (process bytes encoder x.writer))
          → (p.out ≡ wire (encode config.coder) x.writer.send_queue)
            × ((process bytes encoder x.writer).0.send_queue ≡ [])
            × ((process bytes encoder x.writer).1 ≡ Outcome.ok tt)
      process-wire p = Emits-wire (encode config.coder) decode v.carried (
          subst
            (λ c.
              Emits (encode c.coder) x.writer.send_queue p.out
                (process bytes encoder x.writer).0.send_queue (process bytes encoder x.writer).1)
            v.same_config p.emits)

      pub processes-Conserves : Conserves (step x processes)
      unfolding step wire
      processes-Conserves =
          let p = process-Sent bytes encoder x.writer in
          let (o, l, _) = process-wire p in
          record {
            stream =
                ap₂ (λ a b. x.sent ++ (a ++ wire (encode config.coder) b))
                  (p.buffered ∙ ap (λ t. as_slice x.writer.send_buffer ++ t) o) l
                ∙ ap (λ t. x.sent ++ t) (append-nil _)
                ∙ v.stream;
            carried = rw l tt;
            all_carried = v.all_carried;
            same_config = p.same_config ∙ v.same_config;
          }

      pub sends-Conserves :
          (t : ConnectionWriteState Out Encoder Buffer) (taken : Option (List ℕ))
          → Consumed bytes x.writer t taken
          → Conserves (send_bytes x (some (t, taken)))
      unfolding send_bytes
      sends-Conserves t taken c = record {
        stream =
            append_assoc x.sent (got taken) _
            ∙ ap (λ u. x.sent ++ u)
                (sym (append_assoc (got taken) (as_slice t.send_buffer) _)
                  ∙ ap₂ (λ a b. a ++ wire (encode config.coder) b) c.whole c.same_queue)
            ∙ v.stream;
        carried = rw c.same_queue v.carried;
        all_carried = v.all_carried;
        same_config = c.same_config ∙ v.same_config;
      }

      consumes-Conserves : (len : ℕ) → Conserves (step x (consumes len))
      unfolding step
      consumes-Conserves len =
          let (t, taken, e, c, _) = consume_bytes_lem bytes x.writer len in
          rw e (sends-Conserves t taken c)

    -- Only messages that the coders carry are fed.
    abbrev pub AreCarried : List (WriteCall Out) → Type 0
    AreCarried calls = All IsCarried (fed calls)

    pub run-Conserves :
        (x : WriteSession Out Encoder Buffer) (calls : List (WriteCall Out))
        → AreCarried calls
        → Conserves x
        → Conserves (run x calls)
    unfolding run step
    run-Conserves x [] h v = v
    run-Conserves x (feeds m ∷ cs) h v =
        run-Conserves (step x (feeds m)) cs h.1 (feeds-Conserves x v m h.0)
    run-Conserves x (processes ∷ cs) h v =
        run-Conserves (step x processes) cs h (processes-Conserves x v)
    run-Conserves x (consumes len ∷ cs) h v =
        run-Conserves (step x (consumes len)) cs h (consumes-Conserves x v len)
    run-Conserves x (consumes_all ∷ cs) h v =
        run-Conserves (step x consumes_all) cs h
          (sends-Conserves x v _ _ (consume_all_lem bytes x.writer).0)

    pub start-Conserves : Conserves (start config)
    unfolding start new wire
    start-Conserves = record {
      stream = ap (λ t. t ++ []) (as_slice-with_capacity config.send_buffer_size);
      carried = tt;
      all_carried = tt;
      same_config = refl;
    }
