-- ===== src/Compio/Joined/SplitSink.antt =====
-- The sink of `CompioSansConnection` in sansrpc-compio/src/lib.rs against that of its write half.
use sansrpc.Prelude.{
  ℕ, ◌≡◌, refl, ap, ◌∙◌, Option, none, some, Bool-cases, inl, inr, List, Outcome, resume,
}
use sansrpc.Proto.Message.{Message}
use sansrpc.Proto.Encoder.{SansEncoder}
use sansrpc.Proto.Buffer.{BytesMut}
use sansrpc.Proto.WriteState.{ConnectionWriteState}
use sansrpc.Proto.WriteState
use sansrpc.Proto.Connection
use sansrpc.Proto.Connection.{on_write}
use sansrpc.Poll.{spins, IoError, WriteAnswer, AsyncWrite}
use sansrpc.Compio.{CompioSansConnection, CompioSansWriteConnection, into_split}
use sansrpc.Compio.Write as Half
use sansrpc.Compio.Joined.Sink as Joined
use sansrpc.Compio.Joined.SinkLaw.{
  with_writer, joined_result, resume-joined, ready-joined, poll_close-joined, poll_flush-joined,
}

module _ {In Out Encoder Decoder Reader Writer Buffer E : Type 0} (X : Type 0)
    (bytes : BytesMut Buffer) (encoder : SansEncoder Encoder Out E)
    (c : CompioSansConnection In Out Encoder Decoder Reader Writer Buffer) where
  abbrev pub joined_send :
      CompioSansWriteConnection Out Encoder Writer Buffer × Outcome (IoError X) (Unit {0})
      → CompioSansConnection In Out Encoder Decoder Reader Writer Buffer
        × Outcome (IoError X) (Unit {0})
  joined_send (h, result) = (with_writer c h, result)

  after_feed-joined :
      (q : ConnectionWriteState Out Encoder Buffer × Option (Message Out))
      (h : CompioSansWriteConnection Out Encoder Writer Buffer)
      → Joined.after_feed {X = X} bytes encoder (on_write c.connection_state q) (with_writer c h)
        ≡ joined_send (Half.after_feed bytes encoder q h)
  unfolding Joined.after_feed Half.after_feed Connection.process_write
  after_feed-joined (state, some item) h = refl
  after_feed-joined (state, none) h = refl

  start_send-joined :
      (h : CompioSansWriteConnection Out Encoder Writer Buffer) (item : Message Out)
      → Joined.start_send {X = X} bytes encoder (with_writer c h) item
        ≡ joined_send (Half.start_send bytes encoder h item)
  unfolding Joined.start_send Half.start_send Connection.feed_item
  start_send-joined h item = elim (Bool-cases (Half.is_closed h.write_state)) [
    | inl e ↦ rw e refl
    | inr e ↦ rw e (after_feed-joined (WriteState.feed_item h.connection_state item) h)
  ]

  -- `poll_ready`, `start_send`, `poll_flush` and `poll_close` of the joined connection do, for every
  -- fuel and whatever the writer answers, what those of its write half do once it has been split, and
  -- leave the read half as it is.
  pub sink-into_split :
      (io : AsyncWrite Writer) (fuel : ℕ) (item : Message Out) (answers : List (WriteAnswer X))
      → let half = (into_split c).0 in
        (Joined.poll_ready io (c, answers) ≡ joined_result c (Half.poll_ready io (half, answers)))
        × (Joined.start_send bytes encoder c item
            ≡ joined_send (Half.start_send bytes encoder half item))
        × (Joined.poll_flush bytes io encoder fuel (c, answers)
            ≡ joined_result c (Half.poll_flush bytes io encoder fuel (half, answers)))
        × (Joined.poll_close bytes io fuel (c, answers)
            ≡ joined_result c (Half.poll_close bytes io fuel (half, answers)))
  unfolding into_split Connection.into_split Joined.poll_ready Half.poll_ready
  sink-into_split io fuel item answers =
      let half = (into_split c).0 in
      (
        ap (resume (λ here. (here, spins))) (ready-joined c io half.write_state half answers)
            ∙ resume-joined c (λ here. (here, spins)) (λ here. (here, spins)) (λ h more. refl)
                (Half.match_ready io half.write_state half answers),
        start_send-joined half item,
        poll_flush-joined c io bytes encoder fuel half answers,
        poll_close-joined c io bytes fuel half answers,
      )
