-- ===== src/Service/Handle.antt =====
-- sansrpc-service/src/handle.rs: `ServiceHandle`, over the channels of futures that it makes.
use sansrpc.Prelude.{◌≡◌, Option, none, some, List, [], ◌∷◌, ◌++◌}
use sansrpc.Proto.Message.{Oneshot, Request, OpenStream, Response}
use sansrpc.Poll.{Call, returns, panics}
use sansrpc.Service.Messages.{ServiceInteraction}
use mathlib.Core.List.{Memᴰ}

-- The channels: those that are made, and the one to the service. A world knows the senders of
-- responses that have been made, and the interactions that have been sent and may have been taken.
-- `unbounded_send` has none for its error, that the service is gone.
pub record Handles (World Out StreamTx ResponseTx StreamRx ResponseRx : Type 0) : Type 0 where
  pub unbounded : World → World × StreamTx × StreamRx
  pub channel : World → World × ResponseTx × ResponseRx
  pub unbounded_send : World → ServiceInteraction Out StreamTx ResponseTx → Option World
  pub queued : World → List (ServiceInteraction Out StreamTx ResponseTx)
  pub made : World → List ResponseTx
  pub channel-fresh : (w : World) → ¬ Memᴰ (channel w).1 (made w)
  pub made-channel : (w : World) → made (channel w).0 ≡ made w ++ (channel w).1 ∷ []
  pub queued-channel : (w : World) → queued (channel w).0 ≡ queued w
  pub made-unbounded : (w : World) → made (unbounded w).0 ≡ made w
  pub queued-unbounded : (w : World) → queued (unbounded w).0 ≡ queued w
  pub made-unbounded_send :
      (w w' : World) (asked : ServiceInteraction Out StreamTx ResponseTx)
      → unbounded_send w asked ≡ some w'
      → made w' ≡ made w
  pub queued-unbounded_send :
      (w w' : World) (asked : ServiceInteraction Out StreamTx ResponseTx)
      → unbounded_send w asked ≡ some w'
      → queued w' ≡ queued w ++ asked ∷ []

-- `_ = tx.unbounded_send(..)`: the error is not looked at.
abbrev pub ignored : {World : Type 0} → World → Option World → World
ignored w none = w
ignored w (some w') = w'

module _ {World Out StreamTx ResponseTx StreamRx ResponseRx : Type 0}
    (handles : Handles World Out StreamTx ResponseTx StreamRx ResponseRx) where
  open handles use {unbounded, channel, unbounded_send}

  unfoldable pub send_oneshot : World → Oneshot Out → World
  send_oneshot w m = ignored w (unbounded_send w (ServiceInteraction.oneshot m))

  -- `send_request`, up to the receiver that it waits for.
  unfoldable pub send_request : World → Request Out → World × ResponseRx
  send_request w m =
      let (w', tx, rx) = channel w in
      (ignored w' (unbounded_send w' (ServiceInteraction.request m tx)), rx)

  unfoldable pub send_stream : World → OpenStream Out → World × StreamRx
  send_stream w m =
      let (w', tx, rx) = unbounded w in
      (ignored w' (unbounded_send w' (ServiceInteraction.open_stream m tx)), rx)

-- `rx.await.unwrap()`, where the receiver yields none when its sender has been dropped.
unfoldable pub received : {In : Type 0} → Option (Response In) → Call (Response In)
received none = panics
received (some r) = returns r

-- The calls of all handles, in their order.
pub data HandleCall (Out : Type 0) : Type 0 where
  oneshots : Oneshot Out → HandleCall Out
  requests : Request Out → HandleCall Out
  streams : OpenStream Out → HandleCall Out

module _ {World Out StreamTx ResponseTx StreamRx ResponseRx : Type 0}
    (handles : Handles World Out StreamTx ResponseTx StreamRx ResponseRx) where
  unfoldable pub call : HandleCall Out → World → World
  unfolding send_oneshot send_request send_stream
  call (oneshots m) w = send_oneshot handles w m
  call (requests m) w = (send_request handles w m).0
  call (streams m) w = (send_stream handles w m).0

  unfoldable pub calls : List (HandleCall Out) → World → World
  calls [] w = w
  calls (c ∷ cs) w = calls cs (call c w)
