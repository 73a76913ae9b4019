-- ===== src/Service/Yields.antt =====
-- What a round of `next_message` in sansrpc-service/src/sans_service.rs hands to its caller.
use sansrpc.Prelude.{
  ℕ, zero, suc, ◌≡◌, refl, ap, inl, inr, Option, none, some, Option-cases, List, [], ◌∷◌, length,
  get_elem?, Result, Round, continue, return,
}
use sansrpc.Proto.Message.{
  oneshot, request, response, open_stream, stream_message, close_stream, Response, StreamMessage,
}
use sansrpc.Poll.{pending, ready, Call, returns, spins}
use sansrpc.Service.Messages.{ServiceMessage, ServiceInteraction}
use sansrpc.Service.Channels.{insert, Channels, MessageSink}
use sansrpc.Service.Sans.{
  SansService, Event, Answer, StreamSource, ResponseSource, select, source_at, spend, on_message,
  on_response, on_stream_message, on_close_stream, on_stream, on_out_response, on_interaction,
  sent_or_err, sent_or_panic,
}

module _ {In Out K R StreamTx ResponseTx X : Type 0} where
  -- The messages for the caller among the events.
  abbrev pub for_caller : List (Event In Out K R StreamTx ResponseTx X) → List (ServiceMessage In)
  for_caller [] = []
  for_caller (Event.reads (Result.ok (some (oneshot m))) ∷ es) =
      ServiceMessage.oneshot m ∷ for_caller es
  for_caller (Event.reads (Result.ok (some (request m))) ∷ es) =
      ServiceMessage.request m ∷ for_caller es
  for_caller (Event.reads (Result.ok (some (open_stream m))) ∷ es) =
      ServiceMessage.open_stream m ∷ for_caller es
  for_caller (_ ∷ es) = for_caller es

abbrev pub yielded : {In X : Type 0} → Answer In X → List (ServiceMessage In)
yielded (returns (ready (Result.ok (some m)))) = m ∷ []
yielded _ = []

-- The answer is not that the fuel ran out.
abbrev pub Ends {ℓ} : {A : Type ℓ} → Call A → Type 0
Ends spins = ⊥
Ends _ = Unit {0}

-- The answer is not that a call waits, either.
abbrev pub Settles : {In X : Type 0} → Answer In X → Type 0
Settles spins = ⊥
Settles (returns pending) = ⊥
Settles _ = Unit {0}

length-spend : {A : Type 0} (i : ℕ) (xs : List (Option A)) → length (spend i xs) ≡ length xs
length-spend i [] = refl
length-spend zero (x ∷ xs) = refl
length-spend (suc i) (x ∷ xs) = ap suc (length-spend i xs)

module _ {In Out K R Writer StreamTx ResponseTx : Type 0} where
  -- The sources stay in their places.
  pub record Keeps (s t : SansService In Out K R Writer StreamTx ResponseTx) : Type 0 where
    pub streams : t.outgoing_stream ≡ s.outgoing_stream
    pub responses : length t.outgoing_responses ≡ length s.outgoing_responses

  pub same : (s : SansService In Out K R Writer StreamTx ResponseTx) → Keeps s s
  same s = record { streams = refl; responses = refl }

module _ {In Out K R Writer World StreamTx ResponseTx X : Type 0}
    (s : SansService In Out K R Writer StreamTx ResponseTx) where
  -- A round keeps the sources, and yields `ms`.
  abbrev pub Yields :
      List (ServiceMessage In)
      → Round (SansService In Out K R Writer StreamTx ResponseTx × World) (Answer In X)
      → Type 0
  Yields ms (continue (t, world)) = Keeps s t × (ms ≡ [])
  Yields ms (return (t, world) answer) = Keeps s t × (ms ≡ yielded answer) × Settles answer

  sent_or_err-Yields :
      (t : SansService In Out K R Writer StreamTx ResponseTx) (world : World)
      → Keeps s t
      → (q : Writer × Result X (Unit {0})) → Yields [] (sent_or_err t world q)
  unfolding sent_or_err
  sent_or_err-Yields t world k (writer, Result.ok _) =
      (record { streams = k.streams; responses = k.responses }, refl)
  sent_or_err-Yields t world k (writer, Result.err x) =
      (record { streams = k.streams; responses = k.responses }, refl, tt)

  sent_or_panic-Yields :
      (t : SansService In Out K R Writer StreamTx ResponseTx) (world : World)
      → Keeps s t
      → (q : Writer × Result X (Unit {0})) → Yields [] (sent_or_panic t world q)
  unfolding sent_or_panic
  sent_or_panic-Yields t world k (writer, Result.ok _) =
      (record { streams = k.streams; responses = k.responses }, refl)
  sent_or_panic-Yields t world k (writer, Result.err x) =
      (record { streams = k.streams; responses = k.responses }, refl, tt)

  module _ (sink : MessageSink Writer Out X) (world : World) where
    on_stream-Yields :
        (source : Option (StreamSource K Out)) (value : K)
        → Yields [] (on_stream sink source value s world)
    unfolding on_stream
    on_stream-Yields none value = (same s, refl)
    on_stream-Yields (some source) value = sent_or_err-Yields s world (same s) (
        sink.send s.writer (
          stream_message (record { stream_id = source.stream_id; payload = source.convert value })))

    on_out_response-Yields :
        (i : ℕ) (source : Option (ResponseSource R Out)) (value : Option R)
        → Yields [] (on_out_response sink i source value s world)
    unfolding on_out_response
    on_out_response-Yields i none value = (same s, refl)
    on_out_response-Yields i (some source) none = (same s, refl, tt)
    on_out_response-Yields i (some source) (some value) =
        sent_or_err-Yields (record s { outgoing_responses = spend i s.outgoing_responses }) world
          (record { streams = refl; responses = length-spend i s.outgoing_responses })
          (sink.send s.writer
            (response (record { request_id = source.request_id; payload = source.convert value })))

    on_interaction-Yields :
        (asked : ServiceInteraction Out StreamTx ResponseTx)
        → Yields [] (on_interaction sink asked s world)
    unfolding on_interaction
    on_interaction-Yields (ServiceInteraction.open_stream m tx) =
        sent_or_panic-Yields
          (record s { incoming_streams = insert m.stream_id tx s.incoming_streams }) world
          (record { streams = refl; responses = refl }) (sink.send s.writer (open_stream m))
    on_interaction-Yields (ServiceInteraction.request m tx) =
        sent_or_panic-Yields
          (record s { incoming_responses = insert m.request_id tx s.incoming_responses }) world
          (record { streams = refl; responses = refl }) (sink.send s.writer (request m))
    on_interaction-Yields (ServiceInteraction.oneshot m) =
        sent_or_panic-Yields s world (same s) (sink.send s.writer (oneshot m))

module _ {In Out K R Writer World StreamTx ResponseTx : Type 0} (X : Type 0)
    (s : SansService In Out K R Writer StreamTx ResponseTx)
    (channels : Channels World In StreamTx ResponseTx) (world : World) where
  on_response-Yields :
      (o : Option ResponseTx) (r : Response In)
      → Yields {X = X} s [] (on_response channels o r s world)
  unfolding on_response
  on_response-Yields none r = (same s, refl)
  on_response-Yields (some tx) r = (record { streams = refl; responses = refl }, refl)

  on_stream_message-Yields :
      (o : Option StreamTx) (m : StreamMessage In)
      → Yields {X = X} s [] (on_stream_message channels o m s world)
  unfolding on_stream_message
  on_stream_message-Yields none m = (same s, refl)
  on_stream_message-Yields (some tx) m = elim (Option-cases (channels.unbounded_send world tx m)) [
    | inl gone ↦ rw (gone, on_stream_message) (same s, refl, tt)
    | inr (world', accepted) ↦ rw (accepted, on_stream_message) (same s, refl)
  ]

  on_close_stream-Yields :
      (o : Option StreamTx) (stream_id : ℕ)
      → Yields {X = X} s [] (on_close_stream channels o stream_id s world)
  unfolding on_close_stream
  on_close_stream-Yields none stream_id = (same s, refl, tt)
  on_close_stream-Yields (some tx) stream_id = (record { streams = refl; responses = refl }, refl)

module _ {In Out K R Writer World StreamTx ResponseTx X : Type 0}
    (channels : Channels World In StreamTx ResponseTx) (sink : MessageSink Writer Out X) where
  pub select-Yields :
      (e : Event In Out K R StreamTx ResponseTx X)
      (s : SansService In Out K R Writer StreamTx ResponseTx) (world : World)
      → Yields s (for_caller (e ∷ [])) (select channels sink e (s, world))
  unfolding select on_message
  select-Yields (Event.reads (Result.err x)) s world = (same s, refl, tt)
  select-Yields (Event.reads (Result.ok none)) s world = (same s, refl, tt)
  select-Yields (Event.reads (Result.ok (some (oneshot m)))) s world = (same s, refl, tt)
  select-Yields (Event.reads (Result.ok (some (request m)))) s world = (same s, refl, tt)
  select-Yields (Event.reads (Result.ok (some (response r)))) s world =
      on_response-Yields X s channels world (s.incoming_responses r.request_id) r
  select-Yields (Event.reads (Result.ok (some (open_stream m)))) s world = (same s, refl, tt)
  select-Yields (Event.reads (Result.ok (some (stream_message m)))) s world =
      on_stream_message-Yields X s channels world (s.incoming_streams m.stream_id) m
  select-Yields (Event.reads (Result.ok (some (close_stream stream_id)))) s world =
      on_close_stream-Yields X s channels world (s.incoming_streams stream_id) stream_id
  select-Yields (Event.streams i value) s world =
      on_stream-Yields s sink world (get_elem? s.outgoing_stream i) value
  select-Yields (Event.responds i value) s world =
      on_out_response-Yields s sink world i (source_at i s.outgoing_responses) value
  select-Yields (Event.interacts none) s world = (same s, refl)
  select-Yields (Event.interacts (some asked)) s world = on_interaction-Yields s sink world asked
