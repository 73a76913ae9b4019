-- ===== src/Service/Tests.antt =====
-- Runs of a `SansService` of sansrpc-service, and its theorems at concrete inputs.
use mathlib.Core.List.{Sublistᴰ}
use mathlib.Core.List.Memᴰ
use sansrpc.Prelude.{
  if◌then◌else◌, ◌==◌, ℕ, suc, ◌≡◌, ◌↔◌, refl, none, some, List, [], ◌∷◌, ◌++◌, arith,
}
use sansrpc.Proto.Message.{response, stream_message}
use sansrpc.Service.Channels.{to_stream, to_response}
use sansrpc.Service.Sans
use sansrpc.Service.Sans.{source_at, SansService, Event, Answer, select, next_message}
use sansrpc.Service.Session
use sansrpc.Service.Session.{
  Act, takes, adds_stream, adds_response, perform, requested, opened, read,
}
use sansrpc.Service.Correlation.{Correlates, run-Correlates}
use sansrpc.Service.Distinct.{IsDistinct, answered}
use sansrpc.Service.Once.{run-IsDistinct}
use sansrpc.Service.Order.{passed, run-sublist_read}
use sansrpc.Service.Reply.{request-reply}
use sansrpc.Service.Faults.{Panics, Faults, select-Panics}
use sansrpc.Service.InMemory.{
  Given, in_memory, bounded, Happening, Serving, fresh, asks, opens, replied, arrives,
}

-- Two requests and a stream; the responses in the other order, and one of them again.
abbrev acts : List (Act ℕ ℕ ℕ ℕ ℕ ℕ ℕ)
acts =
    takes (asks 1 10)
    ∷ takes (asks 2 20)
    ∷ takes (opens 1 30)
    ∷ takes (arrives (response (replied 2 7)))
    ∷ takes (arrives (stream_message (record { stream_id = 1; payload = 5 })))
    ∷ takes (arrives (response (replied 2 8)))
    ∷ takes (arrives (response (replied 1 9)))
    ∷ takes (arrives (response (replied 4 9)))
    ∷ []

acts_given :
    (Session.run in_memory bounded acts (fresh, [])).1
    ≡ to_response 20 (replied 2 7)
      ∷ to_stream 30 (record { stream_id = 1; payload = 5 })
      ∷ to_response 10 (replied 1 9)
      ∷ []
unfolding Session.run perform select Sans.new Sans.on_message Sans.on_interaction Sans.on_response
    Sans.on_stream_message Sans.sent_or_panic
acts_given = refl

run-Correlates_example :
    Correlates in_memory bounded
      (requested acts)
      (opened acts)
      (Session.run in_memory bounded acts (fresh, []))
run-Correlates_example = run-Correlates in_memory bounded (5, []) [] acts refl

run-IsDistinct_example : IsDistinct (answered (Session.run in_memory bounded acts (fresh, [])).1)
run-IsDistinct_example =
    run-IsDistinct in_memory bounded (5, []) [] acts refl
      (λ m. cc (Memᴰ.eq_of_singleton m), (Memᴰ.not-nil, tt))

run-sublist_read_example :
    Sublistᴰ (passed in_memory (Session.run in_memory bounded acts (fresh, [])).1) (read acts)
run-sublist_read_example = run-sublist_read in_memory bounded (5, []) [] acts refl

-- Between the request with id 1 and its response.
abbrev meanwhile : List (Act ℕ ℕ ℕ ℕ ℕ ℕ ℕ)
meanwhile =
    takes (asks 2 20)
    ∷ adds_stream 1 suc
    ∷ takes (arrives (response (replied 2 7)))
    ∷ takes (Event.streams 0 6)
    ∷ []

abbrev requested_first : Serving × Given
requested_first = perform in_memory bounded (takes (asks 1 10)) (fresh, [])

request-reply_example :
    let there = Session.run in_memory bounded meanwhile requested_first in
    let answered_last =
      perform in_memory bounded (takes (arrives (response (replied 1 9)))) there in
    (answered_last.1 ≡ there.1 ++ to_response 10 (replied 1 9) ∷ [])
    × (answered_last.0.incoming_responses 1 ≡ none)
request-reply_example =
    request-reply in_memory bounded 1 10 (record { request_id = 1; payload = 1 }) (replied 1 9)
      meanwhile (fresh, []) refl refl ((omega arith, tt), (omega arith, tt))

-- The sender 0 waits for the messages of stream 1.
abbrev deaf : Serving
deaf = record fresh { incoming_streams = λ k. if k == 1 then some 0 else none }

abbrev late : Happening
late = arrives (stream_message (record { stream_id = 1; payload = 5 }))

deaf-Panics : Panics (select in_memory bounded late (deaf, []))
unfolding select Sans.on_message Sans.on_stream_message
deaf-Panics = tt

select-Panics_example :
    Panics (select in_memory bounded late (deaf, [])) ↔ Faults in_memory bounded late (deaf, [])
select-Panics_example = select-Panics in_memory bounded late (deaf, [])
