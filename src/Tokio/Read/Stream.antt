-- ===== src/Tokio/Read/Stream.antt =====
-- The stream of sansrpc-tokio/src/tcp.rs: a new connection that is polled again and again.
use sansrpc.Prelude.{
  ℕ, zero, suc, ◌*◌, ◌%◌, ◌<◌, ◌≡◌, sym, ap, ap₂, ◌∙◌, none, some, List, [], ◌∷◌, ◌++◌, append-nil,
  All, Result, arith, length-replicate, subst,
}
use sansrpc.Proto.Message.{Message}
use sansrpc.Proto.Encoder.{SansDecoder}
use sansrpc.Proto.Words.{usize_mod}
use sansrpc.Proto.Buffer.{BytesMut}
use sansrpc.Proto.Wire.{wire}
use sansrpc.Proto.ReadState.Session.{InOrder, start-InOrder, start}
use sansrpc.Proto.ReadState.Order.{none_left}
use sansrpc.Proto.ReadState.Transport.{Fits, Fits-Carried}
use sansrpc.Proto.ReadState
use sansrpc.Proto.Connection
use sansrpc.Proto.Connection.{ConnectionConfig}
use sansrpc.Poll.{Item, Poll, pending, ready, Call, returns, transport, ReadAnswer, incoming}
use sansrpc.Tokio.{TokioSansConnection, new}
use sansrpc.Tokio.Read.{poll_next}
use sansrpc.Tokio.Read.Receives.{held, Receives, Polled, IsAnswer, IsDrained, rounds_left}
use sansrpc.Tokio.Read.Delivery.{poll_next-Polled}

module _ {In Out Encoder Decoder Reader Writer Buffer X : Type 0} where
  -- The items of a stream are collected until it ends or fails.
  abbrev collect :
      (TokioSansConnection In Out Encoder Decoder Reader Writer Buffer × List (ReadAnswer X))
        × Call (Poll (Item In X))
      → (TokioSansConnection In Out Encoder Decoder Reader Writer Buffer × List (ReadAnswer X)
          → List (Message In)
          → List (Message In))
      → List (Message In)
      → List (Message In)
  collect (there, returns (ready (some (Result.ok m)))) next delivered =
      next there (delivered ++ m ∷ [])
  collect (there, returns pending) next delivered = next there delivered
  collect (there, _) next delivered = delivered

module _ {In Out Encoder Decoder Reader Writer Buffer X F : Type 0} (bytes : BytesMut Buffer)
    (decoder : SansDecoder Decoder In F) where
  -- What `n` polls deliver.
  unfoldable pub polls :
      ℕ
      → TokioSansConnection In Out Encoder Decoder Reader Writer Buffer × List (ReadAnswer X)
      → List (Message In)
      → List (Message In)
  polls zero here delivered = delivered
  polls (suc n) here delivered =
      collect (poll_next bytes decoder (suc (rounds_left here)) here) (polls n) delivered

module _ {In Encoder Decoder Reader Writer Buffer X E F : Type 0} (Out : Type 0)
    (bytes : BytesMut Buffer) (decoder : SansDecoder Decoder In F)
    (encode : Message In → Result E (List ℕ × ℕ)) (config : ConnectionConfig Encoder Decoder)
    (ms : List (Message In)) (sized : 0 < config.read_config.recv_queue_size)
    (room : 0 < config.read_config.recv_buffer_size)
    (fit : All
      (Fits encode (decoder.decode config.read_config.coder) config.read_config.recv_buffer_size)
      ms)
    (small : config.read_config.recv_buffer_size * 2 < usize_mod) where
  abbrev Good :
      List (Message In)
      → TokioSansConnection In Out Encoder Decoder Reader Writer Buffer × List (ReadAnswer X)
      → Type 0
  Good =
      Receives bytes decoder encode config.read_config ms (config.read_config.recv_buffer_size * 2)

  -- The result of a poll, together with what it leaves.
  collect-front :
      (n : ℕ) (delivered : List (Message In))
      (there : TokioSansConnection In Out Encoder Decoder Reader Writer Buffer
        × List (ReadAnswer X))
      (result : Call (Poll (Item In X)))
      → ((later : List (Message In)) × (ms ≡ delivered ++ later))
      → Polled bytes decoder encode config.read_config ms
          (config.read_config.recv_buffer_size * 2)
          delivered
          there
          result
      → ((d : List (Message In))
            (here : TokioSansConnection In Out Encoder Decoder Reader Writer Buffer
              × List (ReadAnswer X))
          → Good d here
          → (later : List (Message In)) × (ms ≡ polls bytes decoder n here d ++ later))
      → (later : List (Message In)) × (ms
          ≡ collect (there, result) (polls bytes decoder n) delivered ++ later)
  collect-front n d there (returns (ready (some (Result.ok m)))) o p next =
      next (d ++ m ∷ []) there p
  collect-front n d there (returns pending) o p next = next d there p.0
  collect-front n d there (returns (ready none)) o p next = o
  collect-front n d there (returns (ready (some (Result.err (transport x))))) o p next = o
  collect-front n d there _ o p next = absurd p

  polls-front :
      (n : ℕ) (delivered : List (Message In))
      (here : TokioSansConnection In Out Encoder Decoder Reader Writer Buffer × List (ReadAnswer X))
      → Good delivered here
      → (later : List (Message In)) × (ms ≡ polls bytes decoder n here delivered ++ later)
  unfolding polls
  polls-front zero delivered here v = (_, v.order.order)
  polls-front (suc n) delivered here v =
      collect-front n delivered _ _ (_, v.order.order)
        (poll_next-Polled bytes decoder encode config.read_config ms _ sized room fit small
          delivered here v)
        (polls-front n)

  module _ (reader : Reader) (writer : Writer) (answers : List (ReadAnswer X))
      (contract : All (IsAnswer (config.read_config.recv_buffer_size * 2)) answers)
      (carries : wire encode ms ≡ incoming answers) where
    pub new-Receives : Good [] (new {Out = Out} bytes config reader writer, answers)
    unfolding new Connection.new start
    new-Receives = record {
      live = (
        length-replicate (config.read_config.recv_buffer_size * 2 % usize_mod) 0 ∙ omega arith,
        omega arith,
      );
      answers = contract;
      order =
          subst
            (λ t. InOrder bytes decoder encode config.read_config ms (record {
              reader = ReadState.new bytes config.read_config;
              unread = t;
              delivered = [];
            }))
            carries
            (start-InOrder bytes decoder encode config.read_config ms (
              Fits-Carried encode (decoder.decode config.read_config.coder)
                config.read_config.recv_buffer_size ms fit));
    }

    -- A new connection whose reader answers the bytes of messages that fit the receive buffer, in
    -- pieces that fit its own, yields a front of these messages in order, however often it is polled.
    pub polls-in_order :
        (n : ℕ)
        → (later : List (Message In)) × (ms
            ≡ polls bytes decoder n (new {Out = Out} bytes config reader writer, answers) []
              ++ later)
    polls-in_order n = polls-front n [] _ new-Receives

  -- On a connection that has delivered a front of messages that fit the receive buffer, and whose
  -- reader holds the bytes of the others: if a poll answers `Pending` and has used up the reader's
  -- answers, every message had been delivered.
  pub pending-all_delivered :
      (delivered : List (Message In))
      (here : TokioSansConnection In Out Encoder Decoder Reader Writer Buffer × List (ReadAnswer X))
      → Good delivered here
      → (poll_next bytes decoder (suc (rounds_left here)) here).1 ≡ returns pending
      → (poll_next bytes decoder (suc (rounds_left here)) here).0.1 ≡ []
      → delivered ≡ ms
  pending-all_delivered delivered here v waits used =
      let q = poll_next bytes decoder (suc (rounds_left here)) here in
      let (w, d) : Receives bytes decoder encode config.read_config ms
            (config.read_config.recv_buffer_size * 2) delivered q.0
          × IsDrained bytes q.0.0 =
        subst (Polled bytes decoder encode config.read_config ms _ delivered q.0) waits (
          poll_next-Polled bytes decoder encode config.read_config ms _ sized room fit small
            delivered here v) in
      let o = w.order in
      let all_bytes : wire encode o.todo ≡ bytes.as_slice q.0.0.state.read.recv_buffer =
        o.behind
        ∙ ap (λ t. bytes.as_slice q.0.0.state.read.recv_buffer ++ t)
            (ap (λ t. held q.0.0.read_state ++ incoming t) used
              ∙ append-nil (held q.0.0.read_state)
              ∙ d.none_held)
        ∙ append-nil (bytes.as_slice q.0.0.state.read.recv_buffer) in
      let none_over =
        none_left bytes decoder encode config.read_config ms
          (Fits-Carried encode (decoder.decode config.read_config.coder)
            config.read_config.recv_buffer_size ms fit)
          o.todo o.carried (rw all_bytes d.partial) in
      sym (
        o.order ∙ ap₂ (λ a b. delivered ++ (a ++ b)) d.queue_empty none_over ∙ append-nil delivered)
