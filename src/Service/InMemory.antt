-- ===== src/Service/InMemory.antt =====
-- Channels and a sink in memory, for the tests of sansrpc-service.
use sansrpc.Prelude.{ℕ, zero, suc, ◌≡◌, refl, Option, none, some, List, [], ◌∷◌, ◌++◌, Result}
use sansrpc.Proto.Message.{Message, Response, StreamMessage}
use sansrpc.Service.Messages.{ServiceInteraction}
use sansrpc.Service.Channels.{Delivery, to_stream, to_response, Channels, MessageSink}
use sansrpc.Service.Sans
use sansrpc.Service.Sans.{source_at, SansService, Event, Answer, select, next_message}

abbrev pub Given : Type 0
Given = List (Delivery ℕ ℕ ℕ)

-- The receiver of the stream's sender 0 has been dropped.
abbrev pub give : Given → ℕ → StreamMessage ℕ → Option Given
give w zero m = none
give w (suc n) m = some (w ++ to_stream (suc n) m ∷ [])

pub given-give :
    (w w' : Given) (tx : ℕ) (m : StreamMessage ℕ)
    → give w tx m ≡ some w'
    → w' ≡ w ++ to_stream tx m ∷ []
given-give w w' zero m e = cc e
given-give w w' (suc n) m e = cc e

abbrev pub in_memory : Channels Given ℕ ℕ ℕ
in_memory = record {
  unbounded_send = give;
  send = λ w tx r. w ++ to_response tx r ∷ [];
  given = λ w. w;
  given-unbounded_send = given-give;
  given-send = λ w tx r. refl;
}

-- The writer fails after as many messages as it has room for.
abbrev pub Written : Type 0
Written = ℕ × List (Message ℕ)

abbrev pub write : Written → Message ℕ → Written × Result ℕ (Unit {0})
write (zero, ms) m = ((zero, ms), Result.err 9)
write (suc room, ms) m = ((room, ms ++ m ∷ []), Result.ok tt)

pub write-ok :
    (w : Written) (m : Message ℕ) → (write w m).1 ≡ Result.ok tt → (write w m).0.1 ≡ w.1 ++ m ∷ []
write-ok (zero, ms) m e = cc e
write-ok (suc room, ms) m e = refl

pub write-err :
    (w : Written) (m : Message ℕ) (x : ℕ) → (write w m).1 ≡ Result.err x → (write w m).0.1 ≡ w.1
write-err (zero, ms) m x e = refl
write-err (suc room, ms) m x e = cc e

abbrev pub bounded : MessageSink Written ℕ ℕ
bounded = record {
  send = write;
  sent = λ w. w.1;
  sent-send_ok = write-ok;
  sent-send_err = write-err;
}

abbrev pub Happening : Type 0
Happening = Event ℕ ℕ ℕ ℕ ℕ ℕ ℕ

abbrev pub Serving : Type 0
Serving = SansService ℕ ℕ ℕ ℕ Written ℕ ℕ

abbrev pub fresh : Serving
fresh = Sans.new (5, [])

abbrev pub asks : ℕ → ℕ → Happening
asks id tx =
    Event.interacts (some (ServiceInteraction.request (record { request_id = id; payload = 1 }) tx))

abbrev pub opens : ℕ → ℕ → Happening
opens id tx =
    Event.interacts
      (some (ServiceInteraction.open_stream (record { stream_id = id; payload = 1 }) tx))

abbrev pub replied : ℕ → ℕ → Response ℕ
replied id value = record { request_id = id; payload = value }

abbrev pub arrives : Message ℕ → Happening
arrives m = Event.reads (Result.ok (some m))
