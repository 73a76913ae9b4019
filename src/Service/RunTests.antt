-- ===== src/Service/RunTests.antt =====
-- Runs of a `ServiceInner` of sansrpc-service, and its theorems at concrete inputs.
use sansrpc.Prelude.{ap, ℕ, suc, ◌≡◌, refl, none, some, List, [], ◌∷◌, ◌++◌, Result, arith}
use sansrpc.Proto.Message.{Request, oneshot, request, response, open_stream, stream_message}
use sansrpc.Service.Messages.{ServiceMessage}
use sansrpc.Service.Sans
use sansrpc.Service.Sans.{source_at, SansService, Event, Answer, select, next_message}
use sansrpc.Service.Session
use sansrpc.Service.Session.{
  Act, takes, adds_stream, adds_response, perform, requested, opened, read,
}
use sansrpc.Service.Serves.{request-answered}
use sansrpc.Service.Inner
use sansrpc.Service.Inner.{Conversions, Task, forwards, responds, handles, ServiceInner}
use sansrpc.Service.Runs.{Ran, run-Ran}
use sansrpc.Service.InMemory.{
  Given, in_memory, Written, write, bounded, Happening, Serving, fresh, asks, replied, arrives,
}

abbrev mixed : List Happening
mixed =
    asks 1 10
    ∷ arrives (request (record { request_id = 3; payload = 4 }))
    ∷ arrives (open_stream (record { stream_id = 6; payload = 2 }))
    ∷ Event.responds 0 (some 8)
    ∷ Event.streams 0 4
    ∷ arrives (oneshot (record { message = 5 }))
    ∷ []

abbrev plain : Conversions ℕ ℕ ℕ ℕ ℕ ℕ ℕ
plain = record {
  into_stream = suc;
  into_request = λ n. n;
  into_oneshot = λ n. n;
  from_stream_message = λ n. n;
  from_response = suc;
}

abbrev idle : ServiceInner ℕ ℕ ℕ ℕ Written ℕ ℕ ℕ ℕ ℕ
idle = record { sans_service = fresh; spawned = [] }

-- Three tasks, and what they and the handle have sent.
run-mixed :
    ((Inner.run in_memory bounded plain 7 (idle, [], mixed)).0.0.spawned
      ≡ responds 0 4 ∷ forwards 0 3 ∷ handles 5 ∷ [])
    × ((Inner.run in_memory bounded plain 7 (idle, [], mixed)).0.0.sans_service.writer ≡ (
      2,
      request (record { request_id = 1; payload = 1 })
          ∷ response (record { request_id = 3; payload = 9 })
          ∷ stream_message (record { stream_id = 6; payload = 4 })
          ∷ [],
    ))
unfolding Inner.run Inner.after_next Inner.dispatch Sans.recv_stream Sans.recv_request next_message
    select Sans.new Sans.on_message Sans.on_stream Sans.on_out_response Sans.on_interaction
    Sans.sent_or_err Sans.sent_or_panic
run-mixed = (refl, refl)

run-Ran_example :
    Ran in_memory bounded plain mixed idle (Inner.run in_memory bounded plain 7 (idle, [], mixed))
run-Ran_example = run-Ran in_memory bounded plain 7 mixed idle [] (omega arith)

-- The request with id 3 gets the place 0, and another one the place 1, which answers first.
abbrev others : List (Act ℕ ℕ ℕ ℕ ℕ ℕ ℕ)
others = takes (asks 1 10) ∷ adds_response 4 suc ∷ takes (Event.responds 1 (some 6)) ∷ []

abbrev third : Request ℕ
third = record { request_id = 3; payload = 4 }

abbrev before_answer : Serving × Given
before_answer =
    Session.run in_memory bounded others
      ((Inner.dispatch plain (ServiceMessage.request third) idle).sans_service, [])

before_answer_writes : write before_answer.0.writer (response (replied 3 9)) ≡ (
  (
    2,
    request (record { request_id = 1; payload = 1 })
        ∷ response (replied 4 7)
        ∷ response (replied 3 9)
        ∷ [],
  ),
  Result.ok tt,
)
unfolding Session.run perform select Inner.dispatch Sans.recv_request Sans.new Sans.on_interaction
    Sans.on_out_response Sans.sent_or_err Sans.sent_or_panic
before_answer_writes = refl

request-answered_example :
    let there = perform in_memory bounded (takes (Event.responds 0 (some 8))) before_answer in
    ((Inner.dispatch plain (ServiceMessage.request third) idle).spawned ≡ responds 0 4 ∷ [])
    × (there.0.writer.1 ≡ before_answer.0.writer.1 ++ response (replied 3 9) ∷ [])
    × (source_at 0 there.0.outgoing_responses ≡ none)
unfolding Sans.new
request-answered_example =
    request-answered in_memory bounded plain third 8 [] idle others (tt, (tt, (omega arith, tt)))
      (ap (λ q. q.1) before_answer_writes)
