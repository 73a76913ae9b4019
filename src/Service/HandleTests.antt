-- ===== src/Service/HandleTests.antt =====
-- Calls of the handles of sansrpc-service, and their theorem at concrete inputs.
use mathlib.Core.List.{Memᴰ}
use mathlib.Core.List.Memᴰ
use sansrpc.Prelude.{◌<◌, inl, inr, ℕ, zero, suc, ◌≡◌, refl, some, List, [], ◌∷◌, ◌++◌, arith}
use sansrpc.Proto.Message.{response}
use sansrpc.Service.Messages.{ServiceInteraction}
use sansrpc.Service.Session
use sansrpc.Service.Session.{
  Act, takes, adds_stream, adds_response, perform, requested, opened, read,
}
use sansrpc.Service.Distinct.{IsDistinct, answered}
use sansrpc.Service.Handle.{
  Handles, HandleCall, oneshots, requests, streams, call, calls, send_oneshot, send_request,
  send_stream,
}
use sansrpc.Service.Answers.{requests_in, calls-answered_once}
use sansrpc.Service.InMemory.{in_memory, bounded, fresh, asks, opens, replied, arrives}

-- A world of handles: how many senders of responses have been made, and what has been sent.
abbrev Asked : Type 0
Asked = ℕ × List (ServiceInteraction ℕ ℕ ℕ)

abbrev up_to : ℕ → List ℕ
up_to zero = []
up_to (suc n) = up_to n ++ n ∷ []

mem-up_to : (n tx : ℕ) → Memᴰ tx (up_to n) → tx < n
mem-up_to zero tx m = absurd (Memᴰ.not-nil m)
mem-up_to (suc n) tx m = elim (Memᴰ.append_cases (up_to n) m) [
  | inl before ↦ omega (arith, mem-up_to n tx before)
  | inr last ↦ omega (arith, Memᴰ.eq_of_singleton last)
]

up_to-fresh : (n : ℕ) → ¬ Memᴰ n (up_to n)
up_to-fresh n m = absurd (omega (arith, mem-up_to n n m))

queued-counting :
    (w w' : Asked) (asked : ServiceInteraction ℕ ℕ ℕ)
    → some (w.0, w.1 ++ asked ∷ []) ≡ some w'
    → w'.1 ≡ w.1 ++ asked ∷ []
queued-counting w w' asked e = cc e

made-counting :
    (w w' : Asked) (asked : ServiceInteraction ℕ ℕ ℕ)
    → some (w.0, w.1 ++ asked ∷ []) ≡ some w'
    → up_to w'.0 ≡ up_to w.0
made-counting w w' asked e = cc e

-- The service does not go; every stream has the sender 30.
abbrev counting : Handles Asked ℕ ℕ ℕ ℕ ℕ
counting = record {
  unbounded = λ w. (w, 30, 30);
  channel = λ w. ((suc w.0, w.1), w.0, w.0);
  unbounded_send = λ w asked. some (w.0, w.1 ++ asked ∷ []);
  queued = λ w. w.1;
  made = λ w. up_to w.0;
  channel-fresh = λ w. up_to-fresh w.0;
  made-channel = λ w. refl;
  queued-channel = λ w. refl;
  made-unbounded = λ w. refl;
  queued-unbounded = λ w. refl;
  made-unbounded_send = made-counting;
  queued-unbounded_send = queued-counting;
}

abbrev asked_for : List (HandleCall ℕ)
asked_for =
    requests (record { request_id = 1; payload = 1 })
    ∷ streams (record { stream_id = 1; payload = 1 })
    ∷ requests (record { request_id = 2; payload = 1 })
    ∷ oneshots (record { message = 3 })
    ∷ []

-- The peer answers the second request first, and answers it again.
abbrev served_twice : List (Act ℕ ℕ ℕ ℕ ℕ ℕ ℕ)
served_twice =
    takes (asks 1 0)
    ∷ takes (opens 1 30)
    ∷ takes (asks 2 1)
    ∷ takes (arrives (response (replied 2 7)))
    ∷ takes (arrives (response (replied 2 8)))
    ∷ takes (arrives (response (replied 1 9)))
    ∷ []

calls-queue_requests :
    requests_in (counting.queued (calls counting asked_for (0, []))) ≡ requested served_twice ++ []
unfolding calls call send_oneshot send_request send_stream
calls-queue_requests = refl

calls-answered_once_example :
    IsDistinct (answered (Session.run in_memory bounded served_twice (fresh, [])).1)
calls-answered_once_example =
    calls-answered_once counting in_memory bounded asked_for (0, []) (5, []) [] served_twice [] refl
      calls-queue_requests refl
