-- ===== src/Compio/Read/Delivery.antt =====
-- `poll_next` of `CompioSansReadConnection` in sansrpc-compio/src/lib.rs over a reader whose bytes
-- carry messages that fit the receive buffer.
use sansrpc.Prelude.{
  ℕ, zero, suc, ◌+◌, ◌*◌, ◌<◌, ◌≡◌, true, refl, sym, subst, none, some, List, [], ◌∷◌, ◌++◌, length,
  All, Result, arith, continue, return, resume, ◌==◌,
}
use sansrpc.Proto.Message.{Message}
use sansrpc.Proto.Encoder.{SansDecoder}
use sansrpc.Proto.Buffer.{BytesMut}
use sansrpc.Proto.Frames.{IsPartial}
use sansrpc.Proto.ReadState.{ReadConnectionConfig, pop_front, process, consume_item, feed_bytes}
use sansrpc.Proto.ReadState.Session.{
  Session, processes, step, InOrder, step-InOrder, taken, take_item,
}
use sansrpc.Proto.ReadState.Transport.{Fits, process-ok, process-IsPartial, feed-InOrder}
use sansrpc.Poll.{
  Poll, pending, ready, Call, returns, transport, ReadAnswer, Item, ReadRound, incoming,
}
use sansrpc.Compio.{ReadFuture, reads_into, read_done, ReadState, CompioSansReadConnection}
use sansrpc.Compio.Read.{
  after_feed, match_read_state, after_process, at_end, poll_next_round, poll_next,
}

-- The bytes that have been read and not been fed.
abbrev pub held : {Reader : Type 0} → ReadState Reader → List ℕ
held (ReadState.idle (some (_, buf))) = buf
held _ = []

-- A reader is at hand, or is being read.
abbrev pub IsLive : {Reader : Type 0} → ReadState Reader → Type 0
IsLive (ReadState.idle (some _)) = Unit {0}
IsLive (ReadState.reading (reads_into _ _)) = Unit {0}
IsLive _ = ⊥

-- How many rounds the read state is from the next poll of the reader.
abbrev weight : {Reader : Type 0} → ReadState Reader → ℕ
weight (ReadState.idle _) = 1
weight (ReadState.reading _) = 0

abbrev pub rounds_left :
    {In Decoder Reader Buffer X : Type 0}
    → CompioSansReadConnection In Decoder Reader Buffer × List (ReadAnswer X)
    → ℕ
rounds_left (c, answers) = weight c.read_state + 2 * length answers

module _ {In Decoder Reader Buffer : Type 0} (bytes : BytesMut Buffer) where
  -- Nothing that has been read is left but the beginning of a frame.
  pub record IsDrained (c : CompioSansReadConnection In Decoder Reader Buffer) : Type 0 where
    pub queue_empty : c.connection_state.recv_queue ≡ []
    pub partial : IsPartial (bytes.as_slice c.connection_state.recv_buffer)
    pub none_held : held c.read_state ≡ []

module _ {In Decoder Reader Buffer X E F : Type 0} (bytes : BytesMut Buffer)
    (decoder : SansDecoder Decoder In F) (encode : Message In → Result E (List ℕ × ℕ))
    (config : ReadConnectionConfig Decoder) (ms : List (Message In)) where
  open bytes use {as_slice}
  open decoder use {decode}

  -- The connection as a session of its read half, which the reader's bytes are still to be fed to.
  abbrev pub view :
      List (Message In)
      → CompioSansReadConnection In Decoder Reader Buffer × List (ReadAnswer X)
      → Session In Decoder Buffer
  view delivered (c, answers) = record {
    reader = c.connection_state;
    unread = held c.read_state ++ incoming answers;
    delivered = delivered;
  }

  pub record Receives (delivered : List (Message In))
      (here : CompioSansReadConnection In Decoder Reader Buffer × List (ReadAnswer X))
      : Type 0 where
    pub live : IsLive here.0.read_state
    pub order : InOrder bytes decoder encode config ms (view delivered here)

  -- What a poll leaves, by what it returns.
  abbrev pub Polled :
      List (Message In)
      → CompioSansReadConnection In Decoder Reader Buffer × List (ReadAnswer X)
      → Call (Poll (Item In X))
      → Type 0
  Polled delivered here (returns (ready (some (Result.ok m)))) = Receives (delivered ++ m ∷ []) here
  Polled delivered here (returns pending) = Receives delivered here × IsDrained bytes here.0
  Polled delivered here (returns (ready none)) = Receives delivered here × IsDrained bytes here.0
  Polled delivered here (returns (ready (some (Result.err (transport x))))) = Unit {0}
  Polled delivered here _ = ⊥

  -- A round leaves what a poll may leave, or goes on with fewer than `bound` rounds to come.
  abbrev AfterRound :
      List (Message In)
      → ℕ
      → ReadRound (CompioSansReadConnection In Decoder Reader Buffer) In X
      → Type 0
  AfterRound delivered bound (continue there) =
      Receives delivered there × (rounds_left there < bound)
  AfterRound delivered bound (return there result) = Polled delivered there result

  module _ (delivered : List (Message In)) (c : CompioSansReadConnection In Decoder Reader Buffer)
      (queue_empty : c.connection_state.recv_queue ≡ [])
      (partial : IsPartial (as_slice c.connection_state.recv_buffer)) where
    reading-AfterRound :
        (fut : ReadFuture Reader) (answers : List (ReadAnswer X))
        → Receives delivered (record c { read_state = ReadState.reading fut }, answers)
        → AfterRound delivered
            (0 + 2 * length answers)
            (match_read_state bytes (ReadState.reading fut) c answers)
    unfolding match_read_state consume_item pop_front at_end
    reading-AfterRound read_done answers v = absurd v.live
    reading-AfterRound (reads_into reader buf) [] v =
        (v, record { queue_empty = queue_empty; partial = partial; none_held = refl })
    reading-AfterRound (reads_into reader buf) (ReadAnswer.not_ready ∷ answers) v = (
      record { live = v.live; order = v.order },
      record { queue_empty = queue_empty; partial = partial; none_held = refl },
    )
    reading-AfterRound (reads_into reader buf) (ReadAnswer.failed x ∷ answers) v = tt
    reading-AfterRound (reads_into reader buf) (ReadAnswer.got [] ∷ answers) v =
        subst
          (λ queue. AfterRound delivered (0 + 2 * suc (length answers)) (
            at_end (pop_front queue c.connection_state)
              (record c { read_state = ReadState.idle (some (reader, [])) }) answers))
          (sym queue_empty)
          (
            record { live = tt; order = v.order },
            record { queue_empty = queue_empty; partial = partial; none_held = refl },
          )
    reading-AfterRound (reads_into reader buf) (ReadAnswer.got (b ∷ input) ∷ answers) v =
        (record { live = tt; order = v.order }, omega arith)

    idle-AfterRound :
        (reader : Reader) (buf : List ℕ) (answers : List (ReadAnswer X))
        → Receives delivered
            (record c { read_state = ReadState.idle (some (reader, buf)) }, answers)
        → 0 < config.recv_buffer_size
        → All (Fits encode (decode config.coder) config.recv_buffer_size) ms
        → AfterRound delivered
            (1 + 2 * length answers)
            (match_read_state bytes (ReadState.idle (some (reader, buf))) c answers)
    unfolding match_read_state after_feed
    idle-AfterRound reader [] answers v room fit =
        (record { live = tt; order = v.order }, omega arith)
    idle-AfterRound reader (b ∷ buf) answers v room fit =
        let (fed, o) =
          feed-InOrder bytes decoder encode config ms _ v.order (b ∷ buf) (incoming answers) refl
            room fit partial in
        let all_fed : ((feed_bytes bytes c.connection_state (b ∷ buf)).1 == length (b ∷ buf))
            ≡ true =
          ground (arith, fed) in
        rw all_fed (record { live = tt; order = o }, omega arith)

  resume-Polled :
      (delivered : List (Message In))
      (next : CompioSansReadConnection In Decoder Reader Buffer × List (ReadAnswer X)
        → (CompioSansReadConnection In Decoder Reader Buffer × List (ReadAnswer X))
          × Call (Poll (Item In X)))
      (bound : ℕ) (r : ReadRound (CompioSansReadConnection In Decoder Reader Buffer) In X)
      → AfterRound delivered bound r
      → ((there : CompioSansReadConnection In Decoder Reader Buffer × List (ReadAnswer X))
          → Receives delivered there
          → rounds_left there < bound
          → Polled delivered (next there).0 (next there).1)
      → Polled delivered (resume next r).0 (resume next r).1
  resume-Polled delivered next bound (continue there) a k = k there a.0 a.1
  resume-Polled delivered next bound (return there result) a k = a

  module _ (sized : 0 < config.recv_queue_size) (room : 0 < config.recv_buffer_size)
      (fit : All (Fits encode (decode config.coder) config.recv_buffer_size) ms)
      (delivered : List (Message In)) where
    match-AfterRound :
        (rs : ReadState Reader) (c : CompioSansReadConnection In Decoder Reader Buffer)
        (answers : List (ReadAnswer X))
        → c.connection_state.recv_queue ≡ []
        → IsPartial (as_slice c.connection_state.recv_buffer)
        → Receives delivered (record c { read_state = rs }, answers)
        → AfterRound delivered
            (weight rs + 2 * length answers)
            (match_read_state bytes rs c answers)
    match-AfterRound (ReadState.idle none) c answers e p v = absurd v.live
    match-AfterRound (ReadState.idle (some (reader, buf))) c answers e p v =
        idle-AfterRound delivered c e p reader buf answers v room fit
    match-AfterRound (ReadState.reading fut) c answers e p v =
        reading-AfterRound delivered c e p fut answers v

    module _ (c : CompioSansReadConnection In Decoder Reader Buffer) (answers : List (ReadAnswer X))
        (v : Receives delivered (c, answers)) where
      -- The connection once `process` is done.
      abbrev processed : CompioSansReadConnection In Decoder Reader Buffer
      processed = record c { connection_state = (process bytes decoder c.connection_state).0 }

      processed-InOrder :
          InOrder bytes decoder encode config ms (view delivered (processed, answers))
      unfolding step
      processed-InOrder =
          step-InOrder bytes decoder encode config ms (view delivered (c, answers)) processes
            v.order

      item-AfterRound :
          (queue : List (Message In))
          → processed.connection_state.recv_queue ≡ queue
          → AfterRound delivered
              (rounds_left (c, answers))
              (after_process bytes (pop_front queue processed.connection_state) c answers)
      unfolding after_process pop_front take_item
      item-AfterRound [] e =
          match-AfterRound c.read_state processed answers e
            (process-IsPartial bytes decoder encode config ms (view delivered (c, answers)) v.order
              sized e)
            (record { live = v.live; order = processed-InOrder })
      item-AfterRound (m ∷ queue) e = record {
        live = v.live;
        order =
            taken bytes decoder encode config ms (view delivered (processed, answers))
              processed-InOrder (m ∷ queue) e;
      }

      round-AfterRound :
          AfterRound delivered
            (rounds_left (c, answers))
            (poll_next_round bytes decoder (c, answers))
      unfolding poll_next_round consume_item
      round-AfterRound =
          rw (process-ok bytes decoder encode config ms (view delivered (c, answers)) v.order)
            (item-AfterRound processed.connection_state.recv_queue refl)

    poll_next-Polled_within :
        (fuel : ℕ) (c : CompioSansReadConnection In Decoder Reader Buffer)
        (answers : List (ReadAnswer X))
        → Receives delivered (c, answers)
        → rounds_left (c, answers) < fuel
        → let (there, result) = poll_next bytes decoder fuel (c, answers) in
          Polled delivered there result
    unfolding poll_next
    poll_next-Polled_within zero c answers v h = absurd (omega arith)
    poll_next-Polled_within (suc fuel) c answers v h =
        resume-Polled delivered (poll_next bytes decoder fuel) (rounds_left (c, answers))
          (poll_next_round bytes decoder (c, answers)) (round-AfterRound c answers v)
          (λ there w less. poll_next-Polled_within fuel there.0 there.1 w (omega arith))

  -- On a reader whose bytes carry messages that fit the receive buffer, `poll_next` of the split
  -- connection returns, with fuel for the rounds that the answers call for: an item is the next
  -- message; `Pending` and the end of the stream come only when everything read is delivered but
  -- the beginning of a frame; an error is the reader's. It does not panic.
  pub poll_next-Receives :
      0 < config.recv_queue_size
      → 0 < config.recv_buffer_size
      → All (Fits encode (decode config.coder) config.recv_buffer_size) ms
      → (delivered : List (Message In))
        (here : CompioSansReadConnection In Decoder Reader Buffer × List (ReadAnswer X))
      → Receives delivered here
      → let (there, result) = poll_next bytes decoder (suc (rounds_left here)) here in
        Polled delivered there result
  poll_next-Receives sized room fit delivered (c, answers) v =
      poll_next-Polled_within sized room fit delivered _ c answers v (omega arith)
