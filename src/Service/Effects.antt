-- ===== src/Service/Effects.antt =====
-- What each act on a `SansService` of sansrpc-service/src/sans_service.rs does to its tables and to the
-- channels.
use sansrpc.Prelude.{
  ℕ, ◌≡◌, refl, inl, inr, Option, none, some, Option-cases, List, [], ◌∷◌, ◌++◌, get_elem?, Result,
}
use sansrpc.Proto.Message.{
  Message, oneshot, request, response, open_stream, stream_message, close_stream, Response,
  StreamMessage,
}
use sansrpc.Service.Messages.{ServiceInteraction}
use sansrpc.Service.Channels.{insert, remove, to_stream, to_response, Channels, MessageSink}
use sansrpc.Service.Sans.{
  SansService, Event, StreamSource, ResponseSource, recv_stream, recv_request, source_at, spend,
  on_message, on_response, on_stream_message, on_close_stream, on_stream, on_out_response,
  on_interaction, sent_or_err, sent_or_panic,
}
use sansrpc.Service.Session.{
  Act, takes, adds_stream, adds_response, after, requested_by, opened_by, read_by, perform,
}

module _ {In Out K R Writer World StreamTx ResponseTx X : Type 0}
    (channels : Channels World In StreamTx ResponseTx) (sink : MessageSink Writer Out X) where
  open channels use {given}

  -- What an act does to the two tables and to the channels.
  pub data Effect (requests : List (ℕ × ResponseTx)) (opens : List (ℕ × StreamTx))
      (arrived : List (Message In))
      (here there : SansService In Out K R Writer StreamTx ResponseTx × World) : Type 0 where
    quiet :
        there.0.incoming_responses ≡ here.0.incoming_responses
        → there.0.incoming_streams ≡ here.0.incoming_streams
        → given there.1 ≡ given here.1
        → Effect requests opens arrived here there
    answers :
        (r : Response In) (tx : ResponseTx)
        → arrived ≡ response r ∷ []
        → here.0.incoming_responses r.request_id ≡ some tx
        → there.0.incoming_responses ≡ remove r.request_id here.0.incoming_responses
        → there.0.incoming_streams ≡ here.0.incoming_streams
        → given there.1 ≡ given here.1 ++ to_response tx r ∷ []
        → Effect requests opens arrived here there
    feeds :
        (m : StreamMessage In) (tx : StreamTx)
        → arrived ≡ stream_message m ∷ []
        → here.0.incoming_streams m.stream_id ≡ some tx
        → there.0.incoming_responses ≡ here.0.incoming_responses
        → there.0.incoming_streams ≡ here.0.incoming_streams
        → given there.1 ≡ given here.1 ++ to_stream tx m ∷ []
        → Effect requests opens arrived here there
    closes :
        (stream_id : ℕ)
        → arrived ≡ close_stream stream_id ∷ []
        → there.0.incoming_responses ≡ here.0.incoming_responses
        → there.0.incoming_streams ≡ remove stream_id here.0.incoming_streams
        → given there.1 ≡ given here.1
        → Effect requests opens arrived here there
    waits :
        (request_id : ℕ) (tx : ResponseTx)
        → requests ≡ (request_id, tx) ∷ []
        → there.0.incoming_responses ≡ insert request_id tx here.0.incoming_responses
        → there.0.incoming_streams ≡ here.0.incoming_streams
        → given there.1 ≡ given here.1
        → Effect requests opens arrived here there
    listens :
        (stream_id : ℕ) (tx : StreamTx)
        → opens ≡ (stream_id, tx) ∷ []
        → there.0.incoming_responses ≡ here.0.incoming_responses
        → there.0.incoming_streams ≡ insert stream_id tx here.0.incoming_streams
        → given there.1 ≡ given here.1
        → Effect requests opens arrived here there

  module _ (s : SansService In Out K R Writer StreamTx ResponseTx) (world : World)
      (requests : List (ℕ × ResponseTx)) (opens : List (ℕ × StreamTx))
      (arrived : List (Message In)) where
    -- A send changes the writer only.
    sent_or_err-Effect :
        (s' : SansService In Out K R Writer StreamTx ResponseTx)
        → ((writer : Writer)
            → Effect requests opens arrived (s, world) (record s' { writer = writer }, world))
        → (q : Writer × Result X (Unit {0}))
        → Effect requests opens arrived
            (s, world)
            (after (sent_or_err {In = In} {X = X} s' world q))
    unfolding sent_or_err
    sent_or_err-Effect s' e (writer, Result.ok _) = e writer
    sent_or_err-Effect s' e (writer, Result.err x) = e writer

    sent_or_panic-Effect :
        (s' : SansService In Out K R Writer StreamTx ResponseTx)
        → ((writer : Writer)
            → Effect requests opens arrived (s, world) (record s' { writer = writer }, world))
        → (q : Writer × Result X (Unit {0}))
        → Effect requests opens arrived
            (s, world)
            (after (sent_or_panic {In = In} {X = X} s' world q))
    unfolding sent_or_panic
    sent_or_panic-Effect s' e (writer, Result.ok _) = e writer
    sent_or_panic-Effect s' e (writer, Result.err x) = e writer

    on_response-Effect :
        (o : Option ResponseTx) (r : Response In)
        → arrived ≡ response r ∷ []
        → s.incoming_responses r.request_id ≡ o
        → Effect requests opens arrived
            (s, world)
            (after (on_response {X = X} channels o r s world))
    unfolding on_response
    on_response-Effect none r q e = quiet refl refl refl
    on_response-Effect (some tx) r q e = answers r tx q e refl refl (channels.given-send world tx r)

    on_stream_message-Effect :
        (o : Option StreamTx) (m : StreamMessage In)
        → arrived ≡ stream_message m ∷ []
        → s.incoming_streams m.stream_id ≡ o
        → Effect requests opens arrived
            (s, world)
            (after (on_stream_message {X = X} channels o m s world))
    unfolding on_stream_message
    on_stream_message-Effect none m q e = quiet refl refl refl
    on_stream_message-Effect (some tx) m q e =
        elim (Option-cases (channels.unbounded_send world tx m)) [
          | inl gone ↦ rw (gone, on_stream_message) (quiet refl refl refl)
          | inr (world', accepted) ↦
              rw (accepted, on_stream_message)
                (feeds m tx q e refl refl
                  (channels.given-unbounded_send world world' tx m accepted))
        ]

    on_close_stream-Effect :
        (o : Option StreamTx) (stream_id : ℕ)
        → arrived ≡ close_stream stream_id ∷ []
        → Effect requests opens arrived
            (s, world)
            (after (on_close_stream {X = X} channels o stream_id s world))
    unfolding on_close_stream
    on_close_stream-Effect none stream_id q = quiet refl refl refl
    on_close_stream-Effect (some tx) stream_id q = closes stream_id q refl refl refl

    on_message-Effect :
        (m : Message In)
        → arrived ≡ m ∷ []
        → Effect requests opens arrived (s, world) (after (on_message {X = X} channels m s world))
    unfolding on_message
    on_message-Effect (oneshot m) q = quiet refl refl refl
    on_message-Effect (request m) q = quiet refl refl refl
    on_message-Effect (response r) q =
        on_response-Effect (s.incoming_responses r.request_id) r q refl
    on_message-Effect (open_stream m) q = quiet refl refl refl
    on_message-Effect (stream_message m) q =
        on_stream_message-Effect (s.incoming_streams m.stream_id) m q refl
    on_message-Effect (close_stream stream_id) q =
        on_close_stream-Effect (s.incoming_streams stream_id) stream_id q

    on_stream-Effect :
        (source : Option (StreamSource K Out)) (value : K)
        → Effect requests opens arrived
            (s, world)
            (after (on_stream {In = In} sink source value s world))
    unfolding on_stream
    on_stream-Effect none value = quiet refl refl refl
    on_stream-Effect (some source) value =
        sent_or_err-Effect s (λ writer. quiet refl refl refl)
          (sink.send s.writer (
            stream_message
              (record { stream_id = source.stream_id; payload = source.convert value })))

    on_out_response-Effect :
        (i : ℕ) (source : Option (ResponseSource R Out)) (value : Option R)
        → Effect requests opens arrived
            (s, world)
            (after (on_out_response {In = In} sink i source value s world))
    unfolding on_out_response
    on_out_response-Effect i none value = quiet refl refl refl
    on_out_response-Effect i (some source) none = quiet refl refl refl
    on_out_response-Effect i (some source) (some value) =
        sent_or_err-Effect (record s { outgoing_responses = spend i s.outgoing_responses })
          (λ writer. quiet refl refl refl)
          (sink.send s.writer
            (response (record { request_id = source.request_id; payload = source.convert value })))

  -- What an act can do.
  pub perform-Effect :
      (a : Act In Out K R StreamTx ResponseTx X)
      (here : SansService In Out K R Writer StreamTx ResponseTx × World)
      → Effect (requested_by a) (opened_by a) (read_by a) here (perform channels sink a here)
  unfolding perform recv_stream recv_request on_interaction
  perform-Effect (adds_stream stream_id map) (s, world) = quiet refl refl refl
  perform-Effect (adds_response request_id map) (s, world) = quiet refl refl refl
  perform-Effect (takes (Event.reads (Result.err x))) (s, world) = quiet refl refl refl
  perform-Effect (takes (Event.reads (Result.ok none))) (s, world) = quiet refl refl refl
  perform-Effect (takes (Event.reads (Result.ok (some m)))) (s, world) =
      on_message-Effect s world [] [] (m ∷ []) m refl
  perform-Effect (takes (Event.streams i value)) (s, world) =
      on_stream-Effect s world [] [] [] (get_elem? s.outgoing_stream i) value
  perform-Effect (takes (Event.responds i value)) (s, world) =
      on_out_response-Effect s world [] [] [] i (source_at i s.outgoing_responses) value
  perform-Effect (takes (Event.interacts none)) (s, world) = quiet refl refl refl
  perform-Effect (takes (Event.interacts (some (ServiceInteraction.open_stream m tx)))) (s, world) =
      sent_or_panic-Effect s world [] ((m.stream_id, tx) ∷ []) []
        (record s { incoming_streams = insert m.stream_id tx s.incoming_streams })
        (λ writer. listens m.stream_id tx refl refl refl refl) (sink.send s.writer (open_stream m))
  perform-Effect (takes (Event.interacts (some (ServiceInteraction.request m tx)))) (s, world) =
      sent_or_panic-Effect s world ((m.request_id, tx) ∷ []) [] []
        (record s { incoming_responses = insert m.request_id tx s.incoming_responses })
        (λ writer. waits m.request_id tx refl refl refl refl) (sink.send s.writer (request m))
  perform-Effect (takes (Event.interacts (some (ServiceInteraction.oneshot m)))) (s, world) =
      sent_or_panic-Effect s world [] [] [] s (λ writer. quiet refl refl refl)
        (sink.send s.writer (oneshot m))
