-- ===== src/Poll.antt =====
-- What the transports share: polling (`std::task::Poll`), the errors of `std::io` that they make or
-- pass on, and the answers of a reader and a writer, which stand for the world outside.
use sansrpc.Prelude.{Option, Result, Round, ℕ, List, [], ◌∷◌, ◌++◌, ◌≡◌}
use sansrpc.Proto.Message.{Message}

pub data Poll {ℓ} (A : Type ℓ) : Type ℓ where
  pending : Poll A
  ready : A → Poll A

-- `X` is an error of the reader or the writer.
pub data IoError (X : Type 0) : Type 0 where
  invalid_input invalid_data would_block connection_reset : IoError X
  transport : X → IoError X

-- How a call of a poll method ends; `spins` says that the model's fuel ran out.
pub data Call {ℓ} (A : Type ℓ) : Type ℓ where
  returns : A → Call A
  panics : Call A
  spins : Call A

-- One poll of a pinned read: not ready, an error, or the bytes that it has read.
pub data ReadAnswer (X : Type 0) : Type 0 where
  not_ready : ReadAnswer X
  failed : X → ReadAnswer X
  got : List ℕ → ReadAnswer X

-- One poll of a pinned write, flush or shutdown.
pub data WriteAnswer (X : Type 0) : Type 0 where
  not_ready : WriteAnswer X
  failed : X → WriteAnswer X
  completed : WriteAnswer X

-- The next answer; where none is left the operation is not ready.
abbrev pub next_read : {X : Type 0} → List (ReadAnswer X) → ReadAnswer X × List (ReadAnswer X)
next_read [] = (ReadAnswer.not_ready, [])
next_read (a ∷ answers) = (a, answers)

abbrev pub next_write : {X : Type 0} → List (WriteAnswer X) → WriteAnswer X × List (WriteAnswer X)
next_write [] = (WriteAnswer.not_ready, [])
next_write (a ∷ answers) = (a, answers)

-- The bytes that the reader is going to answer.
abbrev pub incoming : {X : Type 0} → List (ReadAnswer X) → List ℕ
incoming [] = []
incoming (ReadAnswer.got input ∷ answers) = input ++ incoming answers
incoming (_ ∷ answers) = incoming answers

-- A writer with its asynchronous methods run to their end, and the bytes that it has been given.
pub record AsyncWrite (Writer : Type 0) : Type 0 where
  pub write_all : Writer → List ℕ → Writer
  pub flush : Writer → Writer
  pub shutdown : Writer → Writer
  pub sent : Writer → List ℕ
  pub sent-write_all :
      (writer : Writer) (input : List ℕ) → sent (write_all writer input) ≡ sent writer ++ input
  pub sent-flush : (writer : Writer) → sent (flush writer) ≡ sent writer
  pub sent-shutdown : (writer : Writer) → sent (shutdown writer) ≡ sent writer

-- What a poll of the stream yields.
abbrev pub Item : Type 0 → Type 0 → Type 0
Item In X = Option (Result (IoError X) (Message In))

-- A round of the loop of `poll_next`, over a connection of type `C` and the answers to come.
abbrev pub ReadRound : Type 0 → Type 0 → Type 0 → Type 0
ReadRound C In X = Round (C × List (ReadAnswer X)) (Call (Poll (Item In X)))

-- What the methods of the sink answer when they do not panic.
abbrev pub SinkResult : Type 0 → Type 0
SinkResult X = Poll (Result (IoError X) (Unit {0}))

-- A round of a loop over a connection of type `C` and the answers to come.
abbrev pub WriteRound : Type 0 → Type 0 → Type 0
WriteRound C X = Round (C × List (WriteAnswer X)) (Call (SinkResult X))
