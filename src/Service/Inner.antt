-- ===== src/Service/Inner.antt =====
-- sansrpc-service/src/service.rs: `ServiceInner`, which spawns a task for each message. What a task
-- does when it runs is not modelled: its values come with the events of streams and responses.
use sansrpc.Prelude.{
  ℕ, zero, suc, none, some, List, [], ◌∷◌, ◌++◌, length, Result, Round, continue, return, resume,
}
use sansrpc.Poll.{Poll, pending, ready, Call, returns, panics, spins}
use sansrpc.Service.Messages.{ServiceMessage}
use sansrpc.Service.Channels.{Channels, MessageSink}
use sansrpc.Service.Sans.{SansService, Event, Answer, recv_stream, recv_request, next_message}

-- The conversions that the trait `Service` asks for: `From<In>` of what is handled, and `Into<Out>` of
-- what the handlers answer.
pub record Conversions (In Out K R Stream Request Oneshot : Type 0) : Type 0 where
  pub into_stream : In → Stream
  pub into_request : In → Request
  pub into_oneshot : In → Oneshot
  pub from_stream_message : K → Out
  pub from_response : R → Out

-- A spawned task, with what it handles. A stream's task forwards to the sender of the source at its
-- place in `outgoing_stream`, and a request's task sends to that of its place in
-- `outgoing_responses`.
pub data Task (Stream Request Oneshot : Type 0) : Type 0 where
  forwards : ℕ → Stream → Task Stream Request Oneshot
  responds : ℕ → Request → Task Stream Request Oneshot
  handles : Oneshot → Task Stream Request Oneshot

pub record ServiceInner (In Out K R Writer StreamTx ResponseTx Stream Request Oneshot : Type 0)
    : Type 0 where
  pub sans_service : SansService In Out K R Writer StreamTx ResponseTx
  pub spawned : List (Task Stream Request Oneshot)

module _ {In Out K R Writer StreamTx ResponseTx Stream Request Oneshot : Type 0}
    (conversions : Conversions In Out K R Stream Request Oneshot) where
  open conversions use {into_stream, into_request, into_oneshot, from_stream_message, from_response}

  -- The body of the loop of `run`.
  unfoldable pub dispatch :
      ServiceMessage In
      → ServiceInner In Out K R Writer StreamTx ResponseTx Stream Request Oneshot
      → ServiceInner In Out K R Writer StreamTx ResponseTx Stream Request Oneshot
  unfolding recv_stream recv_request
  dispatch (ServiceMessage.open_stream m) inner = record {
    sans_service = recv_stream inner.sans_service m.stream_id from_stream_message;
    spawned =
        inner.spawned
        ++ forwards (length inner.sans_service.outgoing_stream) (into_stream m.payload) ∷ [];
  }
  dispatch (ServiceMessage.request m) inner = record {
    sans_service = recv_request inner.sans_service m.request_id from_response;
    spawned =
        inner.spawned
        ++ responds (length inner.sans_service.outgoing_responses) (into_request m.payload) ∷ [];
  }
  dispatch (ServiceMessage.oneshot m) inner = record inner {
    spawned = inner.spawned ++ handles (into_oneshot m.message) ∷ [];
  }

module _ {In Out K R Writer World StreamTx ResponseTx X Stream Request Oneshot : Type 0}
    (channels : Channels World In StreamTx ResponseTx) (sink : MessageSink Writer Out X)
    (conversions : Conversions In Out K R Stream Request Oneshot) where
  -- What `next_message` answers.
  unfoldable pub after_next :
      ServiceInner In Out K R Writer StreamTx ResponseTx Stream Request Oneshot
      → (SansService In Out K R Writer StreamTx ResponseTx
          × World
          × List (Event In Out K R StreamTx ResponseTx X))
        × Answer In X
      → Round
          (ServiceInner In Out K R Writer StreamTx ResponseTx Stream Request Oneshot
            × World
            × List (Event In Out K R StreamTx ResponseTx X))
          (Call (Poll (Result X (Unit {0}))))
  unfolding dispatch
  after_next inner ((s, world, events), returns (ready (Result.ok (some m)))) =
      continue (dispatch conversions m (record inner { sans_service = s }), world, events)
  after_next inner ((s, world, events), returns (ready (Result.ok none))) =
      return (record inner { sans_service = s }, world, events) (returns (ready (Result.ok tt)))
  after_next inner ((s, world, events), returns (ready (Result.err x))) =
      return (record inner { sans_service = s }, world, events) (returns (ready (Result.err x)))
  after_next inner ((s, world, events), returns pending) =
      return (record inner { sans_service = s }, world, events) (returns pending)
  after_next inner ((s, world, events), panics) =
      return (record inner { sans_service = s }, world, events) panics
  after_next inner ((s, world, events), spins) =
      return (record inner { sans_service = s }, world, events) spins

  -- `ServiceInner::run`, on fuel.
  unfoldable pub run :
      ℕ
      → ServiceInner In Out K R Writer StreamTx ResponseTx Stream Request Oneshot
        × World
        × List (Event In Out K R StreamTx ResponseTx X)
      → (ServiceInner In Out K R Writer StreamTx ResponseTx Stream Request Oneshot
          × World
          × List (Event In Out K R StreamTx ResponseTx X))
        × Call (Poll (Result X (Unit {0})))
  unfolding after_next
  run zero here = (here, spins)
  run (suc fuel) (inner, world, events) =
      resume (run fuel)
        (after_next inner (next_message channels sink events (inner.sans_service, world)))
