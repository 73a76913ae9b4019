-- ===== src/Service/Runs.antt =====
-- What `run` in sansrpc-service/src/service.rs makes of the messages that it gets.
use sansrpc.Prelude.{
  ℕ, zero, suc, ◌≡◌, ◌<◌, refl, sym, ap, ◌∙◌, inl, inr, none, some, List, [], ◌∷◌, ◌++◌,
  append_assoc, append-nil, length, length-append, Result, resume, arith,
}
use sansrpc.Poll.{Poll, pending, ready, Call, returns, panics, spins}
use sansrpc.Service.Messages.{ServiceMessage}
use sansrpc.Service.Channels.{Channels, MessageSink}
use sansrpc.Service.Sans.{
  SansService, Event, Answer, StreamSource, recv_stream, recv_request, next_message,
}
use sansrpc.Service.Yields.{for_caller, Ends, Keeps}
use sansrpc.Service.Took.{for_caller-append, Took, next_message-Took}
use sansrpc.Service.Inner.{
  Conversions, Task, forwards, responds, handles, ServiceInner, dispatch, after_next, run,
}

-- The ids of the streams that the messages open.
abbrev pub ids_of : {In : Type 0} → List (ServiceMessage In) → List ℕ
ids_of [] = []
ids_of (ServiceMessage.open_stream m ∷ ms) = m.stream_id ∷ ids_of ms
ids_of (_ ∷ ms) = ids_of ms

length-push : {A : Type 0} (xs : List A) (x : A) → length (xs ++ x ∷ []) ≡ suc (length xs)
length-push xs x = length-append xs (x ∷ []) ∙ omega arith

module _ {In Out K R Stream Request Oneshot : Type 0}
    (conversions : Conversions In Out K R Stream Request Oneshot) where
  open conversions use {into_stream, into_request, into_oneshot}

  -- A task for each message, where the sources of the first stream and of the first request get the
  -- places `i` and `j`.
  abbrev pub tasks_from : ℕ → ℕ → List (ServiceMessage In) → List (Task Stream Request Oneshot)
  tasks_from i j [] = []
  tasks_from i j (ServiceMessage.open_stream m ∷ ms) =
      forwards i (into_stream m.payload) ∷ tasks_from (suc i) j ms
  tasks_from i j (ServiceMessage.request m ∷ ms) =
      responds j (into_request m.payload) ∷ tasks_from i (suc j) ms
  tasks_from i j (ServiceMessage.oneshot m ∷ ms) =
      handles (into_oneshot m.message) ∷ tasks_from i j ms

abbrev pub stream_ids : {K Out : Type 0} → List (StreamSource K Out) → List ℕ
stream_ids [] = []
stream_ids (source ∷ sources) = source.stream_id ∷ stream_ids sources

stream_ids-append :
    {K Out : Type 0} (xs ys : List (StreamSource K Out))
    → stream_ids (xs ++ ys) ≡ stream_ids xs ++ stream_ids ys
stream_ids-append [] ys = refl
stream_ids-append (x ∷ xs) ys = ap (◌∷◌ x.stream_id) (stream_ids-append xs ys)

module _ {In Out K R Writer StreamTx ResponseTx Stream Request Oneshot : Type 0}
    (conversions : Conversions In Out K R Stream Request Oneshot) where
  -- The messages have been served: a task has been spawned for each, in their order, the sources of
  -- streams are in their places with the ids of the streams.
  pub record Served (ms : List (ServiceMessage In))
      (inner after : ServiceInner In Out K R Writer StreamTx ResponseTx Stream Request Oneshot)
      : Type 0 where
    pub spawned :
        after.spawned
        ≡ inner.spawned
          ++ tasks_from conversions
              (length inner.sans_service.outgoing_stream)
              (length inner.sans_service.outgoing_responses)
              ms
    pub ids :
        stream_ids after.sans_service.outgoing_stream
        ≡ stream_ids inner.sans_service.outgoing_stream ++ ids_of ms

  Served-nil :
      (inner : ServiceInner In Out K R Writer StreamTx ResponseTx Stream Request Oneshot)
      (s : SansService In Out K R Writer StreamTx ResponseTx)
      → Keeps inner.sans_service s
      → Served [] inner (record inner { sans_service = s })
  Served-nil inner s k = record {
    spawned = sym (append-nil inner.spawned);
    ids = ap stream_ids k.streams ∙ sym (append-nil _);
  }

  -- Serving a message, and then the rest.
  Served-cons :
      (m : ServiceMessage In) (ms : List (ServiceMessage In))
      (inner after : ServiceInner In Out K R Writer StreamTx ResponseTx Stream Request Oneshot)
      (s : SansService In Out K R Writer StreamTx ResponseTx)
      → Keeps inner.sans_service s
      → Served ms (dispatch conversions m (record inner { sans_service = s })) after
      → Served (m ∷ ms) inner after
  unfolding dispatch recv_stream recv_request
  Served-cons (ServiceMessage.open_stream m) ms inner after s k r = record {
    spawned =
        r.spawned
        ∙ append_assoc inner.spawned _ _
        ∙ rw (length-push s.outgoing_stream, k.streams, k.responses) refl;
    ids =
        r.ids
        ∙ ap (λ t. t ++ ids_of ms) (stream_ids-append s.outgoing_stream _)
        ∙ append_assoc (stream_ids s.outgoing_stream) _ _
        ∙ ap (λ t. stream_ids t ++ m.stream_id ∷ ids_of ms) k.streams;
  }
  Served-cons (ServiceMessage.request m) ms inner after s k r = record {
    spawned =
        r.spawned
        ∙ append_assoc inner.spawned _ _
        ∙ rw (length-push s.outgoing_responses, k.streams, k.responses) refl;
    ids = r.ids ∙ ap (λ t. stream_ids t ++ ids_of ms) k.streams;
  }
  Served-cons (ServiceMessage.oneshot m) ms inner after s k r = record {
    spawned = r.spawned ∙ append_assoc inner.spawned _ _ ∙ rw (k.streams, k.responses) refl;
    ids = r.ids ∙ ap (λ t. stream_ids t ++ ids_of ms) k.streams;
  }

module _ {In Out K R Writer World StreamTx ResponseTx X Stream Request Oneshot : Type 0}
    (channels : Channels World In StreamTx ResponseTx) (sink : MessageSink Writer Out X)
    (conversions : Conversions In Out K R Stream Request Oneshot) where
  -- What a run takes of the events, and what it makes of the messages among them.
  pub record Ran (events : List (Event In Out K R StreamTx ResponseTx X))
      (inner : ServiceInner In Out K R Writer StreamTx ResponseTx Stream Request Oneshot)
      (q : (ServiceInner In Out K R Writer StreamTx ResponseTx Stream Request Oneshot
          × World
          × List (Event In Out K R StreamTx ResponseTx X))
        × Call (Poll (Result X (Unit {0}))))
      : Type 0 where
    pub consumed : List (Event In Out K R StreamTx ResponseTx X)
    pub front : events ≡ consumed ++ q.0.2
    pub served : Served conversions (for_caller consumed) inner q.0.0
    pub ends : Ends q.1
    pub waits : q.1 ≡ returns pending → q.0.2 ≡ []

  -- A call of `next_message` that hands over no message is the last one.
  last-Ran :
      (events rest : List (Event In Out K R StreamTx ResponseTx X))
      (inner : ServiceInner In Out K R Writer StreamTx ResponseTx Stream Request Oneshot)
      (s : SansService In Out K R Writer StreamTx ResponseTx) (world : World) (answer : Answer In X)
      (result : Call (Poll (Result X (Unit {0}))))
      (t : Took channels sink events inner.sans_service ((s, world, rest), answer))
      → for_caller t.consumed ≡ []
      → Ends result
      → (result ≡ returns pending → answer ≡ returns pending)
      → Ran events inner ((record inner { sans_service = s }, world, rest), result)
  last-Ran events rest inner s world answer result t e h waits = record {
    consumed = t.consumed;
    front = t.front;
    served = rw e (Served-nil conversions inner s t.keeps);
    ends = h;
    waits = λ p. t.waits (waits p);
  }

  after-Ran :
      (fuel : ℕ) (events : List (Event In Out K R StreamTx ResponseTx X))
      (inner : ServiceInner In Out K R Writer StreamTx ResponseTx Stream Request Oneshot)
      (q : (SansService In Out K R Writer StreamTx ResponseTx
          × World
          × List (Event In Out K R StreamTx ResponseTx X))
        × Answer In X)
      → Took channels sink events inner.sans_service q
      → ((fewer : List (Event In Out K R StreamTx ResponseTx X))
            (next : ServiceInner In Out K R Writer StreamTx ResponseTx Stream Request Oneshot)
            (world : World)
          → length fewer < length events
          → Ran fewer next (run channels sink conversions fuel (next, world, fewer)))
      → Ran events inner (
          resume
            (run channels sink conversions fuel)
            (after_next channels sink conversions inner q))
  unfolding after_next
  after-Ran fuel events inner ((s, world, rest), returns (ready (Result.ok (some m)))) t more =
      let n =
        more rest (dispatch conversions m (record inner { sans_service = s })) world
          (elim t.moves [ inl e ↦ cc e | inr less ↦ less ]) in
      record {
        consumed = t.consumed ++ n.consumed;
        front =
            t.front
            ∙ ap (λ es. t.consumed ++ es) n.front
            ∙ sym (append_assoc t.consumed n.consumed _);
        served =
            rw (for_caller-append t.consumed n.consumed, t.hands)
              (Served-cons conversions m (for_caller n.consumed) inner _ s t.keeps n.served);
        ends = n.ends;
        waits = n.waits;
      }
  after-Ran fuel events inner ((s, world, rest), returns (ready (Result.ok none))) t more =
      last-Ran events rest inner s world _ _ t t.hands tt (λ p. cc p)
  after-Ran fuel events inner ((s, world, rest), returns (ready (Result.err x))) t more =
      last-Ran events rest inner s world _ _ t t.hands tt (λ p. cc p)
  after-Ran fuel events inner ((s, world, rest), returns pending) t more =
      last-Ran events rest inner s world _ _ t t.hands tt (λ p. refl)
  after-Ran fuel events inner ((s, world, rest), panics) t more =
      last-Ran events rest inner s world _ _ t t.hands tt (λ p. cc p)
  after-Ran fuel events inner ((s, world, rest), spins) t more = absurd t.ends

  -- With more fuel than there are events `run` comes to an end: it takes a front of the events, all of
  -- them when it waits, and for each message among them it spawns one task, in their order, and adds
  -- a source with the stream's id for each stream, at the place that its task sends to.
  pub run-Ran :
      (fuel : ℕ) (events : List (Event In Out K R StreamTx ResponseTx X))
      (inner : ServiceInner In Out K R Writer StreamTx ResponseTx Stream Request Oneshot)
      (world : World)
      → length events < fuel
      → Ran events inner (run channels sink conversions fuel (inner, world, events))
  unfolding run
  run-Ran zero events inner world h = absurd (omega arith)
  run-Ran (suc fuel) events inner world h =
      after-Ran fuel events inner (next_message channels sink events (inner.sans_service, world))
        (next_message-Took channels sink events inner.sans_service world)
        (λ fewer next world' less. run-Ran fuel fewer next world' (omega arith))
