-- ===== src/Proto/Message.antt =====
-- sansrpc-proto/src/message.rs: what travels over a connection.
use sansrpc.Prelude.{ℕ}

pub record Oneshot {ℓ} (T : Type ℓ) : Type ℓ where
  pub message : T

pub record Request {ℓ} (T : Type ℓ) : Type ℓ where
  pub request_id : ℕ
  pub payload : T

pub record Response {ℓ} (T : Type ℓ) : Type ℓ where
  pub request_id : ℕ
  pub payload : T

pub record OpenStream {ℓ} (T : Type ℓ) : Type ℓ where
  pub stream_id : ℕ
  pub payload : T

pub record StreamMessage {ℓ} (T : Type ℓ) : Type ℓ where
  pub stream_id : ℕ
  pub payload : T

-- The field `data` of the source is `payload` here, since `data` is a reserved word.
pub data Message {ℓ} (T : Type ℓ) : Type ℓ where
  oneshot : Oneshot T → Message T
  request : Request T → Message T
  response : Response T → Message T
  open_stream : OpenStream T → Message T
  stream_message : StreamMessage T → Message T
  close_stream : ℕ → Message T
