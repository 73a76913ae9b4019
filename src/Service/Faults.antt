-- ===== src/Service/Faults.antt =====
-- When the loop of `next_message` in sansrpc-service/src/sans_service.rs panics.
use sansrpc.Prelude.{
  ℕ, ◌≡◌, ◌↔◌, refl, inl, inr, Option, none, some, Option-cases, get_elem?, Result, Round, return,
}
use sansrpc.Proto.Message.{
  Message, oneshot, request, response, open_stream, stream_message, close_stream, Response,
  StreamMessage,
}
use sansrpc.Poll.{panics}
use sansrpc.Service.Messages.{ServiceInteraction}
use sansrpc.Service.Channels.{insert, Channels, MessageSink}
use sansrpc.Service.Sans.{
  SansService, Event, Answer, StreamSource, ResponseSource, select, source_at, on_message,
  on_response, on_stream_message, on_close_stream, on_stream, on_out_response, on_interaction,
  sent_or_err, sent_or_panic, spend,
}

-- The message that an interaction sends.
abbrev pub message_of :
    {Out StreamTx ResponseTx : Type 0} → ServiceInteraction Out StreamTx ResponseTx → Message Out
message_of (ServiceInteraction.open_stream m tx) = open_stream m
message_of (ServiceInteraction.request m tx) = request m
message_of (ServiceInteraction.oneshot m) = oneshot m

abbrev pub Panics : {S In X : Type 0} → Round S (Answer In X) → Type 0
Panics (return s panics) = Unit {0}
Panics _ = ⊥

module _ {In Out K R Writer World StreamTx ResponseTx X : Type 0}
    (channels : Channels World In StreamTx ResponseTx) (sink : MessageSink Writer Out X) where
  -- The peer closes a stream that is not there, or sends to one whose receiver has been dropped; a
  -- response source has lost its sender; or the writer fails at what a handle asks.
  abbrev pub Faults :
      Event In Out K R StreamTx ResponseTx X
      → SansService In Out K R Writer StreamTx ResponseTx × World
      → Type 0
  Faults (Event.reads (Result.ok (some (close_stream stream_id)))) (s, world) =
      s.incoming_streams stream_id ≡ none
  Faults (Event.reads (Result.ok (some (stream_message m)))) (s, world) =
      (tx : StreamTx) × (s.incoming_streams m.stream_id ≡ some tx)
      × (channels.unbounded_send world tx m ≡ none)
  Faults (Event.responds i none) (s, world) =
      (source : ResponseSource R Out) × (source_at i s.outgoing_responses ≡ some source)
  Faults (Event.interacts (some asked)) (s, world) =
      (x : X) × ((sink.send s.writer (message_of asked)).1 ≡ Result.err x)
  Faults _ _ = ⊥

  module _ (s : SansService In Out K R Writer StreamTx ResponseTx) (world : World) where
    sent_or_err-Panics :
        (q : Writer × Result X (Unit {0})) → ¬ Panics (sent_or_err {In = In} s world q)
    unfolding sent_or_err
    sent_or_err-Panics (writer, Result.ok _) h = h
    sent_or_err-Panics (writer, Result.err x) h = h

    sent_or_panic-Panics :
        (q : Writer × Result X (Unit {0}))
        → Panics (sent_or_panic {In = In} s world q) ↔ ((x : X) × (q.1 ≡ Result.err x))
    unfolding sent_or_panic
    sent_or_panic-Panics (writer, Result.ok _) = (λ h. absurd h, λ h. cc (h.1))
    sent_or_panic-Panics (writer, Result.err x) = (λ h. (x, refl), λ h. tt)

  module _ (s : SansService In Out K R Writer StreamTx ResponseTx) (world : World) where
    on_close_stream-Panics :
        (o : Option StreamTx) (stream_id : ℕ)
        → Panics (on_close_stream {X = X} channels o stream_id s world) ↔ (o ≡ none)
    unfolding on_close_stream
    on_close_stream-Panics none stream_id = (λ h. refl, λ h. tt)
    on_close_stream-Panics (some tx) stream_id = (λ h. absurd h, λ h. cc h)

    on_stream_message-Panics :
        (o : Option StreamTx) (m : StreamMessage In)
        → Panics (on_stream_message {X = X} channels o m s world)
          ↔ ((tx : StreamTx) × (o ≡ some tx) × (channels.unbounded_send world tx m ≡ none))
    unfolding on_stream_message
    on_stream_message-Panics none m = (λ h. absurd h, λ h. cc (h.1))
    on_stream_message-Panics (some tx) m =
        elim (Option-cases (channels.unbounded_send world tx m)) [
          | inl gone ↦ (λ h. (tx, refl, gone), λ h. rw (gone, on_stream_message) tt)
          | inr (world', accepted) ↦ (
            λ h. absurd (rw (accepted, on_stream_message) at h),
            λ h. absurd (refused tx world' h.0 accepted h.1 h.2),
          )
        ]
      where
        refused :
            (tx : StreamTx) (world' : World) (tx' : StreamTx)
            → channels.unbounded_send world tx m ≡ some world'
            → some tx ≡ some tx'
            → channels.unbounded_send world tx' m ≡ none
            → ⊥
        refused tx world' tx' accepted same gone = cc (accepted, same, gone)

    on_response-Panics :
        (o : Option ResponseTx) (r : Response In)
        → ¬ Panics (on_response {X = X} channels o r s world)
    unfolding on_response
    on_response-Panics none r h = h
    on_response-Panics (some tx) r h = h

    on_stream-Panics :
        (source : Option (StreamSource K Out)) (value : K)
        → ¬ Panics (on_stream {In = In} sink source value s world)
    unfolding on_stream
    on_stream-Panics none value h = h
    on_stream-Panics (some source) value h =
        sent_or_err-Panics s world
          (sink.send s.writer (
            stream_message
              (record { stream_id = source.stream_id; payload = source.convert value })))
          h

    on_out_response-Panics :
        (i : ℕ) (o : Option (ResponseSource R Out))
        → Panics (on_out_response {In = In} sink i o none s world)
          ↔ ((source : ResponseSource R Out) × (o ≡ some source))
    unfolding on_out_response
    on_out_response-Panics i none = (λ h. absurd h, λ h. cc (h.1))
    on_out_response-Panics i (some source) = (λ h. (source, refl), λ h. tt)

    on_out_response-quiet :
        (i : ℕ) (o : Option (ResponseSource R Out)) (value : R)
        → ¬ Panics (on_out_response {In = In} sink i o (some value) s world)
    unfolding on_out_response
    on_out_response-quiet i none value h = h
    on_out_response-quiet i (some source) value h =
        sent_or_err-Panics (record s { outgoing_responses = spend i s.outgoing_responses }) world
          (sink.send s.writer
            (response (record { request_id = source.request_id; payload = source.convert value })))
          h

    on_interaction-Panics :
        (asked : ServiceInteraction Out StreamTx ResponseTx)
        → Panics (on_interaction {In = In} sink asked s world)
          ↔ ((x : X) × ((sink.send s.writer (message_of asked)).1 ≡ Result.err x))
    unfolding on_interaction
    on_interaction-Panics (ServiceInteraction.open_stream m tx) =
        sent_or_panic-Panics
          (record s { incoming_streams = insert m.stream_id tx s.incoming_streams }) world
          (sink.send s.writer (open_stream m))
    on_interaction-Panics (ServiceInteraction.request m tx) =
        sent_or_panic-Panics
          (record s { incoming_responses = insert m.request_id tx s.incoming_responses }) world
          (sink.send s.writer (request m))
    on_interaction-Panics (ServiceInteraction.oneshot m) =
        sent_or_panic-Panics s world (sink.send s.writer (oneshot m))

  -- A round of `next_message` panics exactly when the peer closes a stream that is not there, or sends
  -- to a stream whose receiver has been dropped, when the sender of a response has been dropped before
  -- it was used, or when the writer fails at what a handle asks.
  pub select-Panics :
      (e : Event In Out K R StreamTx ResponseTx X)
      (here : SansService In Out K R Writer StreamTx ResponseTx × World)
      → Panics (select channels sink e here) ↔ Faults e here
  unfolding select on_message
  select-Panics (Event.reads (Result.err x)) (s, world) = (λ h. h, λ h. h)
  select-Panics (Event.reads (Result.ok none)) (s, world) = (λ h. h, λ h. h)
  select-Panics (Event.reads (Result.ok (some (oneshot m)))) (s, world) = (λ h. h, λ h. h)
  select-Panics (Event.reads (Result.ok (some (request m)))) (s, world) = (λ h. h, λ h. h)
  select-Panics (Event.reads (Result.ok (some (response r)))) (s, world) =
      (on_response-Panics s world (s.incoming_responses r.request_id) r, λ h. absurd h)
  select-Panics (Event.reads (Result.ok (some (open_stream m)))) (s, world) = (λ h. h, λ h. h)
  select-Panics (Event.reads (Result.ok (some (stream_message m)))) (s, world) =
      on_stream_message-Panics s world (s.incoming_streams m.stream_id) m
  select-Panics (Event.reads (Result.ok (some (close_stream stream_id)))) (s, world) =
      on_close_stream-Panics s world (s.incoming_streams stream_id) stream_id
  select-Panics (Event.streams i value) (s, world) =
      (on_stream-Panics s world (get_elem? s.outgoing_stream i) value, λ h. absurd h)
  select-Panics (Event.responds i none) (s, world) =
      on_out_response-Panics s world i (source_at i s.outgoing_responses)
  select-Panics (Event.responds i (some value)) (s, world) =
      (on_out_response-quiet s world i (source_at i s.outgoing_responses) value, λ h. absurd h)
  select-Panics (Event.interacts none) (s, world) = (λ h. h, λ h. h)
  select-Panics (Event.interacts (some asked)) (s, world) = on_interaction-Panics s world asked
