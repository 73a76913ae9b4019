-- ===== src/Tokio/Write/Sends.antt =====
-- What the sink of sansrpc-tokio/src/tcp.rs keeps between its calls, and `start_send`.
use sansrpc.Prelude.{
  ℕ, ◌<◌, ◌≡◌, refl, ap, inl, inr, none, some, true, false, Bool-cases, List, [], ◌∷◌, ◌++◌, length,
  leb, Result, Outcome, arith, subst,
}
use sansrpc.Proto.Message.{Message}
use sansrpc.Proto.Encoder.{SansEncoder}
use sansrpc.Proto.Buffer.{BytesMut}
use sansrpc.Proto.Wire.{Carried}
use sansrpc.Proto.WriteState.{ConnectionWriteState, WriteConnectionConfig}
use sansrpc.Proto.WriteState
use sansrpc.Proto.WriteState.Emits.{process-Sent}
use sansrpc.Proto.WriteState.Session.{
  WriteSession, accept_item, step, Conserves, feeds-Conserves, processes-Conserves, process-wire,
}
use sansrpc.Proto.Connection.{feed_item, process_write}
use sansrpc.Poll.{IoError, connection_reset, AsyncWrite}
use sansrpc.Tokio.{
  WriteFuture, writes_all, shuts_down, write_done, WriteState, is_closed, TokioSansConnection, new,
}
use sansrpc.Tokio
use sansrpc.Tokio.Write.{start_send}

-- A writer is at hand, or in the hands of a future that has not ended.
abbrev pub IsLive : {Writer : Type 0} → Tokio.WriteState Writer → Type 0
IsLive (Tokio.WriteState.idle (some _)) = Unit {0}
IsLive (Tokio.WriteState.writing (writes_all _ _)) = Unit {0}
IsLive (Tokio.WriteState.closing (shuts_down _)) = Unit {0}
IsLive _ = ⊥

-- The bytes that the writer has been given, and those that the future is going to give it.
abbrev pub promised : {Writer : Type 0} → AsyncWrite Writer → Tokio.WriteState Writer → List ℕ
promised io (Tokio.WriteState.idle (some writer)) = io.sent writer
promised io (Tokio.WriteState.writing (writes_all writer input)) = io.sent writer ++ input
promised io (Tokio.WriteState.closing (shuts_down writer)) = io.sent writer
promised io _ = []

module _ {In Out Encoder Decoder Reader Writer Buffer E F : Type 0} (bytes : BytesMut Buffer)
    (io : AsyncWrite Writer) (encoder : SansEncoder Encoder Out E)
    (decode : List ℕ → Result F (Message Out)) (config : WriteConnectionConfig Encoder) where
  open bytes use {as_slice}
  open encoder use {encode}

  -- The connection as a session of its write half.
  abbrev pub view :
      List (Message Out)
      → TokioSansConnection In Out Encoder Decoder Reader Writer Buffer
      → WriteSession Out Encoder Buffer
  view accepted c = record {
    writer = c.state.write;
    accepted = accepted;
    sent = promised io c.write_state;
  }

  -- What the writer has been promised and the send buffer together carry what was accepted; the send
  -- queue is empty; and once the sink is closing, everything has been written.
  pub record Sends (accepted : List (Message Out))
      (c : TokioSansConnection In Out Encoder Decoder Reader Writer Buffer) : Type 0 where
    pub live : IsLive c.write_state
    pub order : Conserves bytes encoder decode config (view accepted c)
    pub queue_empty : c.state.write.send_queue ≡ []
    pub closed : is_closed c.write_state ≡ true → as_slice c.state.write.send_buffer ≡ []

  module _ (accepted : List (Message Out))
      (c : TokioSansConnection In Out Encoder Decoder Reader Writer Buffer)
      (item : Message Out) where
    -- What `start_send` leaves, by what it answers.
    abbrev pub Started :
        {X : Type 0}
        → TokioSansConnection In Out Encoder Decoder Reader Writer Buffer
          × Outcome (IoError X) (Unit {0})
        → Type 0
    Started (c', Outcome.ok _) =
        (is_closed c.write_state ≡ false)
        × (c'.write_state ≡ c.write_state)
        × Sends (accepted ++ item ∷ []) c'
    Started (c', Outcome.err connection_reset) = (is_closed c.write_state ≡ true) × (c' ≡ c)
    Started _ = ⊥

    module _ (v : Sends accepted c) (sized : 0 < config.send_queue_size)
        (carried : Carried (encode config.coder) decode item) where
      abbrev fed : ConnectionWriteState Out Encoder Buffer
      fed = record c.state.write { send_queue = c.state.write.send_queue ++ item ∷ [] }

      abbrev fed_view : WriteSession Out Encoder Buffer
      fed_view = record {
        writer = fed;
        accepted = accepted ++ item ∷ [];
        sent = promised io c.write_state;
      }

      feed-ok : WriteState.feed_item c.state.write item ≡ (fed, none)
      unfolding WriteState.feed_item
      feed-ok =
          let room : leb c.state.write.config.send_queue_size (length c.state.write.send_queue)
              ≡ false =
            ground
              (arith, ap length v.queue_empty, ap (λ k. k.send_queue_size) v.order.same_config) in
          rw room refl

      fed-Conserves : Conserves bytes encoder decode config fed_view
      unfolding step accept_item
      fed-Conserves =
          subst (λ q. Conserves bytes encoder decode config (accept_item (view accepted c) item q))
            feed-ok
            (feeds-Conserves bytes encoder decode config (view accepted c) v.order item carried)

      open_Started :
          (X : Type 0)
          → is_closed c.write_state ≡ false
          → Started {X = X} (start_send bytes encoder c item)
      unfolding start_send feed_item process_write step
      open_Started X is_open =
          let (_, none_left, succeeds) =
            process-wire bytes encoder decode config fed_view fed-Conserves
              (process-Sent bytes encoder fed) in
          let o = processes-Conserves bytes encoder decode config fed_view fed-Conserves in
          rw (is_open, feed-ok, succeeds)
            (
              is_open,
              refl,
              record {
                live = v.live;
                order = o;
                queue_empty = none_left;
                closed = λ shut. cc (shut, is_open);
              },
            )

  -- `start_send` of a message that the coders carry, to a sink whose send queue has a size, accepts
  -- it and answers `Ok`, so that `feed_item` has not handed it back; once the sink is closing, it
  -- answers `ConnectionReset` and changes nothing.
  pub start_send-Started :
      (X : Type 0) (accepted : List (Message Out))
      (c : TokioSansConnection In Out Encoder Decoder Reader Writer Buffer) (item : Message Out)
      → Sends accepted c
      → 0 < config.send_queue_size
      → Carried (encode config.coder) decode item
      → Started accepted c item {X = X} (start_send bytes encoder c item)
  unfolding start_send
  start_send-Started X accepted c item v sized carried =
      elim (Bool-cases (is_closed c.write_state)) [
        | inl shut ↦ rw shut (shut, refl)
        | inr is_open ↦ open_Started accepted c item v sized carried X is_open
      ]
