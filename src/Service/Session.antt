-- ===== src/Service/Session.antt =====
-- Everything that is done to a `SansService` of sansrpc-service/src/sans_service.rs: events of
-- `next_message`, `recv_stream` and `recv_request`, in any order. A run goes on behind a panic.
use sansrpc.Prelude.{ℕ, some, Result, List, [], ◌∷◌, ◌++◌, Round, continue, return}
use sansrpc.Proto.Message.{Message}
use sansrpc.Service.Messages.{ServiceInteraction}
use sansrpc.Service.Channels.{Channels, MessageSink}
use sansrpc.Service.Sans.{SansService, Event, recv_stream, recv_request, select}

pub data Act (In Out K R StreamTx ResponseTx X : Type 0) : Type 0 where
  takes : Event In Out K R StreamTx ResponseTx X → Act In Out K R StreamTx ResponseTx X
  adds_stream : ℕ → (K → Out) → Act In Out K R StreamTx ResponseTx X
  adds_response : ℕ → (R → Out) → Act In Out K R StreamTx ResponseTx X

-- Where a round of a loop ends, also one that returns: the loop can be entered again.
abbrev pub after {ℓ κ} : {S : Type ℓ} {A : Type κ} → Round S A → S
after (continue s) = s
after (return s a) = s

module _ {In Out K R StreamTx ResponseTx X : Type 0} where
  -- The requests that handles make, with the senders for their responses.
  abbrev pub requested_by : Act In Out K R StreamTx ResponseTx X → List (ℕ × ResponseTx)
  requested_by (takes (Event.interacts (some (ServiceInteraction.request m tx)))) =
      (m.request_id, tx) ∷ []
  requested_by _ = []

  abbrev pub requested : List (Act In Out K R StreamTx ResponseTx X) → List (ℕ × ResponseTx)
  requested [] = []
  requested (a ∷ acts) = requested_by a ++ requested acts

  -- The streams that handles open, with the senders for their messages.
  abbrev pub opened_by : Act In Out K R StreamTx ResponseTx X → List (ℕ × StreamTx)
  opened_by (takes (Event.interacts (some (ServiceInteraction.open_stream m tx)))) =
      (m.stream_id, tx) ∷ []
  opened_by _ = []

  abbrev pub opened : List (Act In Out K R StreamTx ResponseTx X) → List (ℕ × StreamTx)
  opened [] = []
  opened (a ∷ acts) = opened_by a ++ opened acts

  -- The messages that the reader yields.
  abbrev pub read_by : Act In Out K R StreamTx ResponseTx X → List (Message In)
  read_by (takes (Event.reads (Result.ok (some m)))) = m ∷ []
  read_by _ = []

  abbrev pub read : List (Act In Out K R StreamTx ResponseTx X) → List (Message In)
  read [] = []
  read (a ∷ acts) = read_by a ++ read acts

module _ {In Out K R Writer World StreamTx ResponseTx X : Type 0}
    (channels : Channels World In StreamTx ResponseTx) (sink : MessageSink Writer Out X) where
  open channels use {given}

  unfoldable pub perform :
      Act In Out K R StreamTx ResponseTx X
      → SansService In Out K R Writer StreamTx ResponseTx × World
      → SansService In Out K R Writer StreamTx ResponseTx × World
  unfolding select
  perform (takes e) here = after (select channels sink e here)
  perform (adds_stream stream_id map) (s, world) = (recv_stream s stream_id map, world)
  perform (adds_response request_id map) (s, world) = (recv_request s request_id map, world)

  unfoldable pub run :
      List (Act In Out K R StreamTx ResponseTx X)
      → SansService In Out K R Writer StreamTx ResponseTx × World
      → SansService In Out K R Writer StreamTx ResponseTx × World
  run [] here = here
  run (a ∷ acts) here = run acts (perform a here)
