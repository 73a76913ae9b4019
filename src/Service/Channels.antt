-- ===== src/Service/Channels.antt =====
-- What sansrpc-service uses of the crate futures and of `HashMap`.
use sansrpc.Prelude.{ℕ, ◌≡◌, Option, none, some, List, [], ◌∷◌, ◌++◌, ◌==◌, if◌then◌else◌, Result}
use sansrpc.Proto.Message.{Message, Response, StreamMessage}

-- A `HashMap` from `u64`, by what `get` answers.
abbrev pub Table : Type 0 → Type 0
Table A = ℕ → Option A

abbrev pub empty : {A : Type 0} → Table A
empty k = none

abbrev pub insert : {A : Type 0} → ℕ → A → Table A → Table A
insert k a t j = if j == k then some a else t j

abbrev pub remove : {A : Type 0} → ℕ → Table A → Table A
remove k t j = if j == k then none else t j

-- What has been given to a channel.
pub data Delivery (In StreamTx ResponseTx : Type 0) : Type 0 where
  to_stream : StreamTx → StreamMessage In → Delivery In StreamTx ResponseTx
  to_response : ResponseTx → Response In → Delivery In StreamTx ResponseTx

-- The senders of channels. `unbounded_send` has none for its error, that the receiver has been
-- dropped. The result of the oneshot `send` is not looked at.
pub record Channels (World In StreamTx ResponseTx : Type 0) : Type 0 where
  pub unbounded_send : World → StreamTx → StreamMessage In → Option World
  pub send : World → ResponseTx → Response In → World
  pub given : World → List (Delivery In StreamTx ResponseTx)
  pub given-unbounded_send :
      (w w' : World) (tx : StreamTx) (m : StreamMessage In)
      → unbounded_send w tx m ≡ some w'
      → given w' ≡ given w ++ to_stream tx m ∷ []
  pub given-send :
      (w : World) (tx : ResponseTx) (r : Response In)
      → given (send w tx r) ≡ given w ++ to_response tx r ∷ []

-- `SinkExt::send` run to its end, and the messages that have been sent with success.
pub record MessageSink (Writer Out X : Type 0) : Type 0 where
  pub send : Writer → Message Out → Writer × Result X (Unit {0})
  pub sent : Writer → List (Message Out)
  pub sent-send_ok :
      (w : Writer) (m : Message Out)
      → (send w m).1 ≡ Result.ok tt
      → sent (send w m).0 ≡ sent w ++ m ∷ []
  pub sent-send_err :
      (w : Writer) (m : Message Out) (x : X)
      → (send w m).1 ≡ Result.err x
      → sent (send w m).0 ≡ sent w
