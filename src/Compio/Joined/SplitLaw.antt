-- ===== src/Compio/Joined/SplitLaw.antt =====
-- The two `poll_next` of sansrpc-compio/src/lib.rs: that of the joined connection and that of its read
-- half once it has been split.
use sansrpc.Prelude.{
  ℕ, zero, suc, ◌≡◌, refl, ap, ◌∙◌, ◌⊎◌, inl, inr, Option, none, some, Bool-cases, List, [], ◌∷◌,
  length, slice, ◌==◌, Result, Outcome, continue, return, resume,
}
use sansrpc.Proto.Message.{Message}
use sansrpc.Proto.Encoder.{SansDecoder}
use sansrpc.Proto.Buffer.{BytesMut}
use sansrpc.Proto.ReadState.{ConnectionReadState, process}
use sansrpc.Proto.ReadState
use sansrpc.Proto.Connection.{ConnectionState, process_read, consume_item, feed_bytes, on_read}
use sansrpc.Proto.Connection
use sansrpc.Poll.{
  Poll, pending, ready, Call, returns, panics, spins, ReadAnswer, Item, ReadRound, next_read,
}
use sansrpc.Compio.{
  ReadFuture, ReadState as Reads, CompioSansConnection, CompioSansReadConnection, poll_read,
  into_split,
}
use sansrpc.Compio.Read
use sansrpc.Compio.Joined

Option-cases : {A : Type 0} (o : Option A) → ((a : A) × (o ≡ some a)) ⊎ (o ≡ none)
Option-cases none = inr refl
Option-cases (some a) = inl (a, refl)

module _ {In Out Encoder Decoder Reader Writer Buffer : Type 0} where
  -- The joined connection with another read half.
  abbrev pub with_half :
      CompioSansConnection In Out Encoder Decoder Reader Writer Buffer
      → CompioSansReadConnection In Decoder Reader Buffer
      → CompioSansConnection In Out Encoder Decoder Reader Writer Buffer
  with_half c half = record c {
    connection_state = record c.connection_state { read = half.connection_state };
    read_state = half.read_state;
  }

module _ {In Out Encoder Decoder Reader Writer Buffer X : Type 0}
    (c : CompioSansConnection In Out Encoder Decoder Reader Writer Buffer) where
  abbrev joined :
      ReadRound (CompioSansReadConnection In Decoder Reader Buffer) In X
      → ReadRound (CompioSansConnection In Out Encoder Decoder Reader Writer Buffer) In X
  joined (continue (h, answers)) = continue (with_half c h, answers)
  joined (return (h, answers) result) = return (with_half c h, answers) result

  abbrev pub joined_result :
      (CompioSansReadConnection In Decoder Reader Buffer × List (ReadAnswer X))
        × Call (Poll (Item In X))
      → (CompioSansConnection In Out Encoder Decoder Reader Writer Buffer × List (ReadAnswer X))
        × Call (Poll (Item In X))
  joined_result ((h, answers), result) = ((with_half c h, answers), result)

  after_feed-joined :
      (reader : Reader) (buf : List ℕ) (q : ConnectionReadState In Decoder Buffer × ℕ)
      (h : CompioSansReadConnection In Decoder Reader Buffer) (answers : List (ReadAnswer X))
      → Joined.after_feed reader buf (on_read c.connection_state q) (with_half c h) answers
        ≡ joined (Read.after_feed reader buf q h answers)
  unfolding Joined.after_feed Joined.start_read Read.after_feed Read.start_read
  after_feed-joined reader buf (state, fed) h answers = elim (Bool-cases (fed == length buf)) [
    | inl e ↦ rw e refl
    | inr e ↦ elim (Option-cases (slice 0 fed buf)) [
      | inl (kept, e') ↦ rw (e, e') refl
      | inr e' ↦ rw (e, e') refl
    ]
  ]

  at_end-joined :
      (q : ConnectionReadState In Decoder Buffer × Option (Message In))
      (h : CompioSansReadConnection In Decoder Reader Buffer) (answers : List (ReadAnswer X))
      → Joined.at_end (on_read c.connection_state q) (with_half c h) answers
        ≡ joined (Read.at_end q h answers)
  unfolding Joined.at_end Read.at_end
  at_end-joined (state, some item) h answers = refl
  at_end-joined (state, none) h answers = refl

  after_poll-joined :
      (polled : ReadFuture Reader × Call (Poll (Result X (Reader × List ℕ))))
      (h : CompioSansReadConnection In Decoder Reader Buffer) (answers : List (ReadAnswer X))
      → Joined.after_poll polled (with_half c h) answers ≡ joined (Read.after_poll polled h answers)
  unfolding Joined.after_poll Read.after_poll consume_item
  after_poll-joined (fut, returns pending) h answers = refl
  after_poll-joined (fut, returns (ready (Result.err x))) h answers = refl
  after_poll-joined (fut, returns (ready (Result.ok (reader, [])))) h answers =
      at_end-joined (ReadState.consume_item h.connection_state)
        (record h { read_state = Reads.idle (some (reader, [])) }) answers
  after_poll-joined (fut, returns (ready (Result.ok (reader, b ∷ buf)))) h answers = refl
  after_poll-joined (fut, panics) h answers = refl
  after_poll-joined (fut, spins) h answers = refl

  module _ (bytes : BytesMut Buffer) where
    match-joined :
        (rs : Reads Reader) (h : CompioSansReadConnection In Decoder Reader Buffer)
        (answers : List (ReadAnswer X))
        → Joined.match_read_state bytes rs (with_half c h) answers
          ≡ joined (Read.match_read_state bytes rs h answers)
    unfolding Joined.match_read_state Read.match_read_state Joined.start_read Read.start_read
        feed_bytes
    match-joined (Reads.idle none) h answers = refl
    match-joined (Reads.idle (some (reader, []))) h answers = refl
    match-joined (Reads.idle (some (reader, b ∷ buf))) h answers =
        after_feed-joined reader (b ∷ buf) (ReadState.feed_bytes bytes h.connection_state (b ∷ buf))
          h answers
    match-joined (Reads.reading fut) h answers =
        after_poll-joined (poll_read fut (next_read answers).0) h (next_read answers).1

    after_process-joined :
        (q : ConnectionReadState In Decoder Buffer × Option (Message In))
        (h : CompioSansReadConnection In Decoder Reader Buffer) (answers : List (ReadAnswer X))
        → Joined.after_process bytes (on_read c.connection_state q) (with_half c h) answers
          ≡ joined (Read.after_process bytes q h answers)
    unfolding Joined.after_process Read.after_process
    after_process-joined (state, some item) h answers = refl
    after_process-joined (state, none) h answers =
        match-joined h.read_state (record h { connection_state = state }) answers

    module _ {F : Type 0} (decoder : SansDecoder Decoder In F) where
      after_read-joined :
          (q : ConnectionReadState In Decoder Buffer × Outcome F (Unit {0}))
          (h : CompioSansReadConnection In Decoder Reader Buffer) (answers : List (ReadAnswer X))
          → Joined.after_read bytes decoder (on_read c.connection_state q) (with_half c h) answers
            ≡ joined (Read.after_read bytes decoder q h answers)
      unfolding Joined.after_read Read.after_read consume_item
      after_read-joined (state, Outcome.ok _) h answers =
          after_process-joined (ReadState.consume_item state) h answers
      after_read-joined (state, Outcome.err _) h answers = refl
      after_read-joined (state, Outcome.panicked) h answers = refl
      after_read-joined (state, Outcome.diverged) h answers = refl

      resume-joined :
          (next : CompioSansConnection In Out Encoder Decoder Reader Writer Buffer
              × List (ReadAnswer X)
            → (CompioSansConnection In Out Encoder Decoder Reader Writer Buffer
                × List (ReadAnswer X))
              × Call (Poll (Item In X)))
          (next' : CompioSansReadConnection In Decoder Reader Buffer × List (ReadAnswer X)
            → (CompioSansReadConnection In Decoder Reader Buffer × List (ReadAnswer X))
              × Call (Poll (Item In X)))
          → ((h : CompioSansReadConnection In Decoder Reader Buffer) (answers : List (ReadAnswer X))
              → next (with_half c h, answers) ≡ joined_result (next' (h, answers)))
          → (r : ReadRound (CompioSansReadConnection In Decoder Reader Buffer) In X)
          → resume next (joined r) ≡ joined_result (resume next' r)
      resume-joined next next' same (continue (h, answers)) = same h answers
      resume-joined next next' same (return (h, answers) result) = refl

      poll_next-joined :
          (fuel : ℕ) (h : CompioSansReadConnection In Decoder Reader Buffer)
          (answers : List (ReadAnswer X))
          → Joined.poll_next bytes decoder fuel (with_half c h, answers)
            ≡ joined_result (Read.poll_next bytes decoder fuel (h, answers))
      unfolding Joined.poll_next Read.poll_next Joined.poll_next_round Read.poll_next_round
          process_read
      poll_next-joined zero h answers = refl
      poll_next-joined (suc fuel) h answers =
          ap (resume (Joined.poll_next bytes decoder fuel))
            (after_read-joined (process bytes decoder h.connection_state) h answers)
          ∙ resume-joined (Joined.poll_next bytes decoder fuel) (Read.poll_next bytes decoder fuel)
              (poll_next-joined fuel) (Read.poll_next_round bytes decoder (h, answers))

      -- `poll_next` of the joined connection does, for every fuel and whatever the reader answers,
      -- what `poll_next` of its read half does once it has been split, and leaves the write half as it
      -- is.
      pub poll_next-into_split :
          (fuel : ℕ) (answers : List (ReadAnswer X))
          → Joined.poll_next bytes decoder fuel (c, answers)
            ≡ joined_result (Read.poll_next bytes decoder fuel ((into_split c).1, answers))
      unfolding into_split Connection.into_split
      poll_next-into_split fuel answers = poll_next-joined fuel (into_split c).1 answers
