-- ===== src/Tokio/Read/Rounds.antt =====
-- A round of `poll_next` of sansrpc-tokio/src/tcp.rs that finds no item: what has been read is fed, or
-- the reader is polled.
use sansrpc.Prelude.{
  ℕ, zero, suc, ◌+◌, ◌*◌, ◌-◌, ◌≤◌, ◌<◌, ◌≡◌, refl, sym, ap, inl, inr, some, List, [], ◌∷◌, ◌++◌,
  length, length-append, length-drop, length-take, All, Result, arith, drop, take,
  take-append_length, slice-take, suc-==-zero, Bool-cases, ◌==◌, le→ltb-false,
}
use sansrpc.Proto.Message.{Message}
use sansrpc.Proto.Encoder.{SansDecoder}
use sansrpc.Proto.Words.{usize_mod, sub_usize}
use sansrpc.Proto.Buffer.{BytesMut}
use sansrpc.Proto.Frames.{IsPartial}
use sansrpc.Proto.ReadState.{ConnectionReadState, ReadConnectionConfig, pop_front, process}
use sansrpc.Proto.ReadState
use sansrpc.Proto.ReadState.Session.{InOrder, InOrder-unread}
use sansrpc.Proto.ReadState.Transport.{Fits, feed-InOrder}
use sansrpc.Proto.Connection.{ConnectionState, feed_bytes}
use sansrpc.Poll.{ReadRound, ReadAnswer, incoming}
use sansrpc.Tokio.{ReadFuture, reads_into, read_done, TokioSansConnection, copy_within, poll_read}
use sansrpc.Tokio
use sansrpc.Tokio.Read.{after_feed, match_read_state}
use sansrpc.Tokio.Read.Receives.{IsAnswer, weight, Receives, AfterRound}

module _ {In Out Encoder Decoder Reader Writer Buffer X E F : Type 0} (bytes : BytesMut Buffer)
    (decoder : SansDecoder Decoder In F) (encode : Message In → Result E (List ℕ × ℕ))
    (config : ReadConnectionConfig Decoder) (ms : List (Message In)) (size : ℕ) where
  open bytes use {as_slice}
  open decoder use {decode}

  abbrev Arrives :
      List (Message In)
      → TokioSansConnection In Out Encoder Decoder Reader Writer Buffer × List (ReadAnswer X)
      → Type 0
  Arrives = Receives bytes decoder encode config ms size

  abbrev After :
      List (Message In)
      → ℕ
      → ReadRound (TokioSansConnection In Out Encoder Decoder Reader Writer Buffer) In X
      → Type 0
  After = AfterRound bytes decoder encode config ms size

  module _ (delivered : List (Message In))
      (c : TokioSansConnection In Out Encoder Decoder Reader Writer Buffer)
      (queue_empty : c.state.read.recv_queue ≡ [])
      (partial : IsPartial (as_slice c.state.read.recv_buffer)) where
    pub reading-AfterRound :
        (fut : ReadFuture Reader) (answers : List (ReadAnswer X))
        → Arrives delivered (record c { read_state = Tokio.ReadState.reading fut }, answers)
        → After delivered
            (0 + 3 * length answers)
            (match_read_state bytes (Tokio.ReadState.reading fut) c answers)
    unfolding match_read_state
    reading-AfterRound read_done answers v = absurd v.live
    reading-AfterRound (reads_into reader buf) [] v =
        (v, record { queue_empty = queue_empty; partial = partial; none_held = refl })
    reading-AfterRound (reads_into reader buf) (ReadAnswer.not_ready ∷ answers) v = (
      record { live = v.live; answers = v.answers.1; order = v.order },
      record { queue_empty = queue_empty; partial = partial; none_held = refl },
    )
    reading-AfterRound (reads_into reader buf) (ReadAnswer.failed x ∷ answers) v = tt
    reading-AfterRound (reads_into reader buf) (ReadAnswer.got [] ∷ answers) v =
        (v.order, record { queue_empty = queue_empty; partial = partial; none_held = refl })
    reading-AfterRound (reads_into reader buf) (ReadAnswer.got (b ∷ input) ∷ answers) v =
        rw (suc-==-zero (length input)) (
          record {
            live = (
              omega (
                arith,
                v.live,
                v.answers.0,
                length-append (b ∷ input) (drop (suc (length input)) buf),
                length-drop (suc (length input)) buf,
              ),
              v.answers.0,
            );
            answers = v.answers.1;
            order =
                InOrder-unread bytes decoder encode config ms _
                  (ap (λ t. t ++ incoming answers)
                    (sym (take-append_length (b ∷ input) (drop (suc (length input)) buf) _ refl)))
                  v.order;
          },
          omega arith,
        )

    -- What was held has been fed.
    fed-AfterRound :
        (reader : Reader) (buf : List ℕ) (read fed : ℕ) (answers : List (ReadAnswer X))
        (state : ConnectionState In Out Encoder Decoder Buffer)
        → fed ≡ suc read
        → suc read ≤ length buf
        → suc read < usize_mod
        → length buf ≡ size
        → All (IsAnswer size) answers
        → InOrder bytes decoder encode config ms
            (record { reader = state.read; unread = incoming answers; delivered = delivered })
        → After delivered
            (2 + 3 * length answers)
            (after_feed reader buf (suc read) (state, fed) c answers)
    unfolding after_feed
    fed-AfterRound reader buf read fed answers state same within small sized h o =
        elim (Bool-cases (fed == length buf)) [
          | inl all_fed ↦ rw all_fed (record { live = sized; answers = h; order = o }, omega arith)
          | inr more ↦
              let none_over : sub_usize (suc read) fed ≡ 0 = omega arith in
              let sized' : length (drop fed buf ++ drop (length buf - fed) buf) ≡ size = omega (
                arith,
                length-append (drop fed buf) (drop (length buf - fed) buf),
                length-drop fed buf,
                length-drop (length buf - fed) buf,
              ) in
              rw (more, le→ltb-false (length buf) fed (omega arith), none_over)
                (record { live = (sized', omega arith); answers = h; order = o }, omega arith)
        ]

    pub idle-AfterRound :
        (reader : Reader) (buf : List ℕ) (read : ℕ) (answers : List (ReadAnswer X))
        → Arrives delivered
            (record c { read_state = Tokio.ReadState.idle (some (reader, buf, read)) }, answers)
        → 0 < config.recv_buffer_size
        → All (Fits encode (decode config.coder) config.recv_buffer_size) ms
        → size < usize_mod
        → After delivered
            (weight (Tokio.ReadState.idle (some (reader, buf, read))) + 3 * length answers)
            (match_read_state bytes (Tokio.ReadState.idle (some (reader, buf, read))) c answers)
    unfolding match_read_state feed_bytes
    idle-AfterRound reader buf zero answers v room fit small =
        (record { live = v.live.0; answers = v.answers; order = v.order }, omega arith)
    idle-AfterRound reader buf (suc read) answers v room fit small =
        let (fed, o) =
          feed-InOrder bytes decoder encode config ms _ v.order (take (suc read) buf)
            (incoming answers) refl room fit partial in
        let within : suc read ≤ length buf = omega (arith, v.live.0, v.live.1) in
        rw (suc-==-zero read, slice-take (suc read) buf within)
          (fed-AfterRound reader buf read _ answers
            (record c.state {
              read = (ReadState.feed_bytes bytes c.state.read (take (suc read) buf)).0;
            })
            (omega (arith, fed, length-take (suc read) buf)) within (omega (arith, v.live.1))
            v.live.0 v.answers o)
