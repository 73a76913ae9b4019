-- ===== src/Service/Messages.antt =====
-- sansrpc-service/src/service_message.rs: what a service hands to its caller, and what a handle asks of
-- it. The senders of channels are of the types `StreamTx` and `ResponseTx`.
use sansrpc.Proto.Message.{Oneshot, Request, OpenStream}

pub data ServiceMessage (T : Type 0) : Type 0 where
  open_stream : OpenStream T → ServiceMessage T
  request : Request T → ServiceMessage T
  oneshot : Oneshot T → ServiceMessage T

pub data ServiceInteraction (Out StreamTx ResponseTx : Type 0) : Type 0 where
  open_stream : OpenStream Out → StreamTx → ServiceInteraction Out StreamTx ResponseTx
  request : Request Out → ResponseTx → ServiceInteraction Out StreamTx ResponseTx
  oneshot : Oneshot Out → ServiceInteraction Out StreamTx ResponseTx
