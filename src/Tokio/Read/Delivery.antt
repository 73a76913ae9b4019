-- ===== src/Tokio/Read/Delivery.antt =====
-- `poll_next` of sansrpc-tokio/src/tcp.rs over a reader whose bytes carry messages that fit the
-- receive buffer.
use sansrpc.Prelude.{
  continue, return, resume, ℕ, zero, suc, ◌+◌, ◌*◌, ◌<◌, ◌≡◌, refl, none, some, List, [], ◌∷◌,
  length, All, Result, arith,
}
use sansrpc.Proto.Message.{Message}
use sansrpc.Proto.Encoder.{SansDecoder}
use sansrpc.Proto.Words.{usize_mod}
use sansrpc.Proto.Buffer.{BytesMut}
use sansrpc.Proto.Frames.{IsPartial}
use sansrpc.Proto.ReadState.{ConnectionReadState, ReadConnectionConfig, pop_front, process}
use sansrpc.Proto.ReadState
use sansrpc.Proto.ReadState.Session.{
  Session, processes, step, InOrder, step-InOrder, taken, take_item,
}
use sansrpc.Proto.ReadState.Transport.{Fits, process-ok, process-IsPartial}
use sansrpc.Proto.Connection.{process_read, consume_item, on_read}
use sansrpc.Poll.{Item, ReadRound, Poll, Call, ReadAnswer}
use sansrpc.Tokio.{ReadFuture, reads_into, read_done, TokioSansConnection, copy_within, poll_read}
use sansrpc.Tokio
use sansrpc.Tokio.Read.{match_read_state, after_process, poll_next_round, poll_next}
use sansrpc.Tokio.Read.Receives.{weight, rounds_left, view, Receives, Polled, AfterRound}
use sansrpc.Tokio.Read.Rounds.{idle-AfterRound, reading-AfterRound}

module _ {In Out Encoder Decoder Reader Writer Buffer X E F : Type 0} (bytes : BytesMut Buffer)
    (decoder : SansDecoder Decoder In F) (encode : Message In → Result E (List ℕ × ℕ))
    (config : ReadConnectionConfig Decoder) (ms : List (Message In)) (size : ℕ) where
  open bytes use {as_slice}
  open decoder use {decode}

  abbrev Arrives :
      List (Message In)
      → TokioSansConnection In Out Encoder Decoder Reader Writer Buffer × List (ReadAnswer X)
      → Type 0
  Arrives = Receives bytes decoder encode config ms size

  abbrev After :
      List (Message In)
      → ℕ
      → ReadRound (TokioSansConnection In Out Encoder Decoder Reader Writer Buffer) In X
      → Type 0
  After = AfterRound bytes decoder encode config ms size

  abbrev Leaves :
      List (Message In)
      → TokioSansConnection In Out Encoder Decoder Reader Writer Buffer × List (ReadAnswer X)
      → Call (Poll (Item In X))
      → Type 0
  Leaves = Polled bytes decoder encode config ms size

  abbrev session :
      List (Message In)
      → TokioSansConnection In Out Encoder Decoder Reader Writer Buffer × List (ReadAnswer X)
      → Session In Decoder Buffer
  session = view bytes decoder encode config ms size

  resume-Polled :
      (delivered : List (Message In))
      (next : TokioSansConnection In Out Encoder Decoder Reader Writer Buffer × List (ReadAnswer X)
        → (TokioSansConnection In Out Encoder Decoder Reader Writer Buffer × List (ReadAnswer X))
          × Call (Poll (Item In X)))
      (bound : ℕ)
      (r : ReadRound (TokioSansConnection In Out Encoder Decoder Reader Writer Buffer) In X)
      → After delivered bound r
      → ((there : TokioSansConnection In Out Encoder Decoder Reader Writer Buffer
            × List (ReadAnswer X))
          → Arrives delivered there
          → rounds_left there < bound
          → Leaves delivered (next there).0 (next there).1)
      → Leaves delivered (resume next r).0 (resume next r).1
  resume-Polled delivered next bound (continue there) a k = k there a.0 a.1
  resume-Polled delivered next bound (return there result) a k = a

  module _ (sized : 0 < config.recv_queue_size) (room : 0 < config.recv_buffer_size)
      (fit : All (Fits encode (decode config.coder) config.recv_buffer_size) ms)
      (small : size < usize_mod) (delivered : List (Message In)) where
    match-AfterRound :
        (rs : Tokio.ReadState Reader)
        (c : TokioSansConnection In Out Encoder Decoder Reader Writer Buffer)
        (answers : List (ReadAnswer X))
        → c.state.read.recv_queue ≡ []
        → IsPartial (as_slice c.state.read.recv_buffer)
        → Arrives delivered (record c { read_state = rs }, answers)
        → After delivered (weight rs + 3 * length answers) (match_read_state bytes rs c answers)
    match-AfterRound (Tokio.ReadState.idle none) c answers e p v = absurd v.live
    match-AfterRound (Tokio.ReadState.idle (some (reader, buf, read))) c answers e p v =
        idle-AfterRound bytes decoder encode config ms size delivered c e p reader buf read answers
          v room fit small
    match-AfterRound (Tokio.ReadState.reading fut) c answers e p v =
        reading-AfterRound bytes decoder encode config ms size delivered c e p fut answers v

    module _ (c : TokioSansConnection In Out Encoder Decoder Reader Writer Buffer)
        (answers : List (ReadAnswer X)) (v : Arrives delivered (c, answers)) where
      -- The read half once `process` is done, and the connection with it.
      abbrev read_done_half : ConnectionReadState In Decoder Buffer
      read_done_half = (process bytes decoder c.state.read).0

      abbrev processed : TokioSansConnection In Out Encoder Decoder Reader Writer Buffer
      processed = record c { state = record c.state { read = read_done_half } }

      processed-InOrder :
          InOrder bytes decoder encode config ms (session delivered (processed, answers))
      unfolding step
      processed-InOrder =
          step-InOrder bytes decoder encode config ms (session delivered (c, answers)) processes
            v.order

      item-AfterRound :
          (queue : List (Message In))
          → read_done_half.recv_queue ≡ queue
          → After delivered (rounds_left (c, answers)) (
              after_process bytes
                (on_read
                  (record c.state { read = read_done_half })
                  (pop_front queue read_done_half))
                c
                answers)
      unfolding after_process pop_front take_item
      item-AfterRound [] e =
          match-AfterRound c.read_state processed answers e
            (process-IsPartial bytes decoder encode config ms (session delivered (c, answers))
              v.order sized e)
            (record { live = v.live; answers = v.answers; order = processed-InOrder })
      item-AfterRound (m ∷ queue) e = record {
        live = v.live;
        answers = v.answers;
        order =
            taken bytes decoder encode config ms (session delivered (processed, answers))
              processed-InOrder (m ∷ queue) e;
      }

      round-AfterRound :
          After delivered (rounds_left (c, answers)) (poll_next_round bytes decoder (c, answers))
      unfolding poll_next_round process_read consume_item ReadState.consume_item
      round-AfterRound =
          rw (process-ok bytes decoder encode config ms (session delivered (c, answers)) v.order)
            (item-AfterRound read_done_half.recv_queue refl)

    poll_next-Polled_within :
        (fuel : ℕ) (c : TokioSansConnection In Out Encoder Decoder Reader Writer Buffer)
        (answers : List (ReadAnswer X))
        → Arrives delivered (c, answers)
        → rounds_left (c, answers) < fuel
        → let (there, result) = poll_next bytes decoder fuel (c, answers) in
          Leaves delivered there result
    unfolding poll_next
    poll_next-Polled_within zero c answers v h = absurd (omega arith)
    poll_next-Polled_within (suc fuel) c answers v h =
        resume-Polled delivered (poll_next bytes decoder fuel) (rounds_left (c, answers))
          (poll_next_round bytes decoder (c, answers)) (round-AfterRound c answers v)
          (λ there w less. poll_next-Polled_within fuel there.0 there.1 w (omega arith))

  -- On a reader whose bytes carry messages that fit the receive buffer, `poll_next` returns, with
  -- fuel for the rounds that the answers call for: an item is the next message; `Pending` and the
  -- end of the stream come only when everything read is delivered but the beginning of a frame; an
  -- error is the reader's. It does not panic.
  pub poll_next-Polled :
      0 < config.recv_queue_size
      → 0 < config.recv_buffer_size
      → All (Fits encode (decode config.coder) config.recv_buffer_size) ms
      → size < usize_mod
      → (delivered : List (Message In))
        (here : TokioSansConnection In Out Encoder Decoder Reader Writer Buffer
          × List (ReadAnswer X))
      → Receives bytes decoder encode config ms size delivered here
      → let (there, result) = poll_next bytes decoder (suc (rounds_left here)) here in
        Polled bytes decoder encode config ms size delivered there result
  poll_next-Polled sized room fit small delivered (c, answers) v =
      poll_next-Polled_within sized room fit small delivered _ c answers v (omega arith)
