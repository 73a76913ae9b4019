-- ===== src/Service/Sans.antt =====
-- sansrpc-service/src/sans_service.rs: `SansService`. The list of events stands for the branches of
-- `select!`, in the order in which they are taken, and for what the polled streams yield.
use sansrpc.Prelude.{
  ℕ, zero, suc, Option, none, some, List, [], ◌∷◌, ◌++◌, get_elem?, Result, Round, continue, return,
}
use sansrpc.Proto.Message.{
  Message, oneshot, request, response, open_stream, stream_message, close_stream, Response,
  StreamMessage,
}
use sansrpc.Poll.{Poll, pending, ready, Call, returns, panics}
use sansrpc.Service.Messages.{ServiceMessage, ServiceInteraction}
use sansrpc.Service.Channels.{Table, empty, insert, remove, Channels, MessageSink}

-- The receiver of a stream's values, with the closures that make messages of them. The values of all
-- streams are of the type `K`.
pub record StreamSource (K Out : Type 0) : Type 0 where
  pub stream_id : ℕ
  pub convert : K → Out

-- The receiver of one response.
pub record ResponseSource (R Out : Type 0) : Type 0 where
  pub request_id : ℕ
  pub convert : R → Out

-- The reader and the receiver of interactions are in the events. `outgoing_stream` selects among the
-- sources that have been added to it, and so does `outgoing_responses`, where a source that has
-- yielded is none.
pub record SansService (In Out K R Writer StreamTx ResponseTx : Type 0) : Type 0 where
  pub writer : Writer
  pub outgoing_stream : List (StreamSource K Out)
  pub outgoing_responses : List (Option (ResponseSource R Out))
  pub incoming_streams : Table StreamTx
  pub incoming_responses : Table ResponseTx

-- A branch of `select!` that is taken: what the reader yields, what a stream or a response source
-- yields (none for a response whose sender has been dropped), what a handle asks (none when all
-- handles are gone).
pub data Event (In Out K R StreamTx ResponseTx X : Type 0) : Type 0 where
  reads : Result X (Option (Message In)) → Event In Out K R StreamTx ResponseTx X
  streams : ℕ → K → Event In Out K R StreamTx ResponseTx X
  responds : ℕ → Option R → Event In Out K R StreamTx ResponseTx X
  interacts :
      Option (ServiceInteraction Out StreamTx ResponseTx) → Event In Out K R StreamTx ResponseTx X

abbrev pub Answer : Type 0 → Type 0 → Type 0
Answer In X = Call (Poll (Result X (Option (ServiceMessage In))))

-- `SansService::new`
unfoldable pub new :
    {In Out K R Writer StreamTx ResponseTx : Type 0}
    → Writer
    → SansService In Out K R Writer StreamTx ResponseTx
new writer = record {
  writer = writer;
  outgoing_stream = [];
  outgoing_responses = [];
  incoming_streams = empty;
  incoming_responses = empty;
}

module _ {In Out K R Writer StreamTx ResponseTx : Type 0} where
  -- `recv_stream`: the new source is the last one, which its sender feeds.
  unfoldable pub recv_stream :
      SansService In Out K R Writer StreamTx ResponseTx
      → ℕ
      → (K → Out)
      → SansService In Out K R Writer StreamTx ResponseTx
  recv_stream s stream_id map = record s {
    outgoing_stream = s.outgoing_stream ++ record { stream_id = stream_id; convert = map } ∷ [];
  }

  -- `recv_request`
  unfoldable pub recv_request :
      SansService In Out K R Writer StreamTx ResponseTx
      → ℕ
      → (R → Out)
      → SansService In Out K R Writer StreamTx ResponseTx
  recv_request s request_id map = record s {
    outgoing_responses =
        s.outgoing_responses ++ some (record { request_id = request_id; convert = map }) ∷ [];
  }

-- `stream::once`: a source yields once.
abbrev pub spend {ℓ} : {A : Type ℓ} → ℕ → List (Option A) → List (Option A)
spend n [] = []
spend zero (x ∷ xs) = none ∷ xs
spend (suc n) (x ∷ xs) = x ∷ spend n xs

-- The source at a place that has not yielded.
abbrev pub source_at {ℓ} : {A : Type ℓ} → ℕ → List (Option A) → Option A
source_at n [] = none
source_at zero (x ∷ xs) = x
source_at (suc n) (x ∷ xs) = source_at n xs

module _ {In Out K R Writer World StreamTx ResponseTx X : Type 0} where
  -- `self.writer.send(message).await?`
  unfoldable pub sent_or_err :
      SansService In Out K R Writer StreamTx ResponseTx
      → World
      → Writer × Result X (Unit {0})
      → Round (SansService In Out K R Writer StreamTx ResponseTx × World) (Answer In X)
  sent_or_err s world (writer, Result.ok _) = continue (record s { writer = writer }, world)
  sent_or_err s world (writer, Result.err x) =
      return (record s { writer = writer }, world) (returns (ready (Result.err x)))

  -- `self.writer.send(message).await.unwrap()`
  unfoldable pub sent_or_panic :
      SansService In Out K R Writer StreamTx ResponseTx
      → World
      → Writer × Result X (Unit {0})
      → Round (SansService In Out K R Writer StreamTx ResponseTx × World) (Answer In X)
  sent_or_panic s world (writer, Result.ok _) = continue (record s { writer = writer }, world)
  sent_or_panic s world (writer, Result.err x) = return (record s { writer = writer }, world) panics

  module _ (channels : Channels World In StreamTx ResponseTx) where
    -- The request that waits for the response is taken out and gets it.
    unfoldable pub on_response :
        Option ResponseTx
        → Response In
        → SansService In Out K R Writer StreamTx ResponseTx
        → World
        → Round (SansService In Out K R Writer StreamTx ResponseTx × World) (Answer In X)
    on_response none r s world = continue (s, world)
    on_response (some tx) r s world = continue (
      record s { incoming_responses = remove r.request_id s.incoming_responses },
      channels.send world tx r,
    )

    unfoldable pub on_stream_message :
        Option StreamTx
        → StreamMessage In
        → SansService In Out K R Writer StreamTx ResponseTx
        → World
        → Round (SansService In Out K R Writer StreamTx ResponseTx × World) (Answer In X)
    on_stream_message none m s world = continue (s, world)
    on_stream_message (some tx) m s world = elim (channels.unbounded_send world tx m) [
      | none ↦ return (s, world) panics
      | some world' ↦ continue (s, world')
    ]

    -- `remove(&stream_id).unwrap()`
    unfoldable pub on_close_stream :
        Option StreamTx
        → ℕ
        → SansService In Out K R Writer StreamTx ResponseTx
        → World
        → Round (SansService In Out K R Writer StreamTx ResponseTx × World) (Answer In X)
    on_close_stream none stream_id s world = return (s, world) panics
    on_close_stream (some tx) stream_id s world =
        continue (record s { incoming_streams = remove stream_id s.incoming_streams }, world)

    unfoldable pub on_message :
        Message In
        → SansService In Out K R Writer StreamTx ResponseTx
        → World
        → Round (SansService In Out K R Writer StreamTx ResponseTx × World) (Answer In X)
    unfolding on_response on_stream_message on_close_stream
    on_message (oneshot m) s world =
        return (s, world) (returns (ready (Result.ok (some (ServiceMessage.oneshot m)))))
    on_message (request m) s world =
        return (s, world) (returns (ready (Result.ok (some (ServiceMessage.request m)))))
    on_message (response r) s world = on_response (s.incoming_responses r.request_id) r s world
    on_message (open_stream m) s world =
        return (s, world) (returns (ready (Result.ok (some (ServiceMessage.open_stream m)))))
    on_message (stream_message m) s world =
        on_stream_message (s.incoming_streams m.stream_id) m s world
    on_message (close_stream stream_id) s world =
        on_close_stream (s.incoming_streams stream_id) stream_id s world

  module _ (sink : MessageSink Writer Out X) where
    -- A branch is taken only for a source that is there.
    unfoldable pub on_stream :
        Option (StreamSource K Out)
        → K
        → SansService In Out K R Writer StreamTx ResponseTx
        → World
        → Round (SansService In Out K R Writer StreamTx ResponseTx × World) (Answer In X)
    unfolding sent_or_err
    on_stream none value s world = continue (s, world)
    on_stream (some source) value s world = sent_or_err s world (
        sink.send s.writer (
          stream_message (record { stream_id = source.stream_id; payload = source.convert value })))

    -- `a.unwrap()` panics on a response whose sender has been dropped.
    unfoldable pub on_out_response :
        ℕ
        → Option (ResponseSource R Out)
        → Option R
        → SansService In Out K R Writer StreamTx ResponseTx
        → World
        → Round (SansService In Out K R Writer StreamTx ResponseTx × World) (Answer In X)
    unfolding sent_or_err
    on_out_response i none value s world = continue (s, world)
    on_out_response i (some source) none s world = return (s, world) panics
    on_out_response i (some source) (some value) s world =
        sent_or_err (record s { outgoing_responses = spend i s.outgoing_responses }) world
          (sink.send s.writer
            (response (record { request_id = source.request_id; payload = source.convert value })))

    unfoldable pub on_interaction :
        ServiceInteraction Out StreamTx ResponseTx
        → SansService In Out K R Writer StreamTx ResponseTx
        → World
        → Round (SansService In Out K R Writer StreamTx ResponseTx × World) (Answer In X)
    unfolding sent_or_panic
    on_interaction (ServiceInteraction.open_stream m tx) s world =
        sent_or_panic (record s { incoming_streams = insert m.stream_id tx s.incoming_streams })
          world (sink.send s.writer (open_stream m))
    on_interaction (ServiceInteraction.request m tx) s world =
        sent_or_panic
          (record s { incoming_responses = insert m.request_id tx s.incoming_responses }) world
          (sink.send s.writer (request m))
    on_interaction (ServiceInteraction.oneshot m) s world =
        sent_or_panic s world (sink.send s.writer (oneshot m))

  module _ (channels : Channels World In StreamTx ResponseTx)
      (sink : MessageSink Writer Out X) where
    -- A round of the loop of `next_message`.
    unfoldable pub select :
        Event In Out K R StreamTx ResponseTx X
        → SansService In Out K R Writer StreamTx ResponseTx × World
        → Round (SansService In Out K R Writer StreamTx ResponseTx × World) (Answer In X)
    unfolding on_message on_stream on_out_response on_interaction
    select (Event.reads (Result.err x)) (s, world) =
        return (s, world) (returns (ready (Result.err x)))
    select (Event.reads (Result.ok none)) (s, world) =
        return (s, world) (returns (ready (Result.ok none)))
    select (Event.reads (Result.ok (some m))) (s, world) = on_message channels m s world
    select (Event.streams i value) (s, world) =
        on_stream sink (get_elem? s.outgoing_stream i) value s world
    select (Event.responds i value) (s, world) =
        on_out_response sink i (source_at i s.outgoing_responses) value s world
    select (Event.interacts none) (s, world) = continue (s, world)
    select (Event.interacts (some asked)) (s, world) = on_interaction sink asked s world

    -- `next_message`, until the events are used up.
    unfoldable pub next_message :
        List (Event In Out K R StreamTx ResponseTx X)
        → SansService In Out K R Writer StreamTx ResponseTx × World
        → (SansService In Out K R Writer StreamTx ResponseTx
            × World
            × List (Event In Out K R StreamTx ResponseTx X))
          × Answer In X
    next_message [] (s, world) = ((s, world, []), returns pending)
    next_message (e ∷ events) here = elim (select e here) [
      | continue there ↦ next_message events there
      | return (s, world) answer ↦ ((s, world, events), answer)
    ]
