-- ===== src/Tokio/Read/Receives.antt =====
-- What `poll_next` of sansrpc-tokio/src/tcp.rs keeps and leaves over a reader whose bytes carry a list of
-- messages.
use sansrpc.Prelude.{
  continue, return, ℕ, zero, suc, ◌+◌, ◌*◌, ◌≤◌, ◌<◌, ◌≡◌, none, some, List, [], ◌∷◌, ◌++◌, length,
  All, Result, take,
}
use sansrpc.Proto.Message.{Message}
use sansrpc.Proto.Encoder.{SansDecoder}
use sansrpc.Proto.Buffer.{BytesMut}
use sansrpc.Proto.Frames.{IsPartial}
use sansrpc.Proto.ReadState.{ReadConnectionConfig}
use sansrpc.Proto.ReadState.Session.{Session, InOrder}
use sansrpc.Poll.{
  Item, ReadRound, Poll, pending, ready, Call, returns, transport, ReadAnswer, incoming,
}
use sansrpc.Tokio.{ReadFuture, reads_into, read_done, TokioSansConnection, copy_within, poll_read}
use sansrpc.Tokio

-- The bytes that have been read and not been fed.
abbrev pub held : {Reader : Type 0} → Tokio.ReadState Reader → List ℕ
held (Tokio.ReadState.idle (some (_, buf, read))) = take read buf
held _ = []

-- A reader whose buffer has `size` bytes is at hand, or is being read.
abbrev pub IsLive : {Reader : Type 0} → ℕ → Tokio.ReadState Reader → Type 0
IsLive size (Tokio.ReadState.idle none) = ⊥
IsLive size (Tokio.ReadState.idle (some (_, buf, read))) = (length buf ≡ size) × (read ≤ size)
IsLive size (Tokio.ReadState.reading (reads_into _ buf)) = length buf ≡ size
IsLive size (Tokio.ReadState.reading read_done) = ⊥

-- `AsyncRead` reads no more than the buffer holds.
abbrev pub IsAnswer : {X : Type 0} → ℕ → ReadAnswer X → Type 0
IsAnswer size (ReadAnswer.got input) = length input ≤ size
IsAnswer size _ = Unit {0}

-- How many rounds the read state is from the next poll of the reader.
abbrev pub weight : {Reader : Type 0} → Tokio.ReadState Reader → ℕ
weight (Tokio.ReadState.idle (some (_, _, zero))) = 1
weight (Tokio.ReadState.idle (some (_, _, suc read))) = 2
weight _ = 0

abbrev pub rounds_left :
    {In Out Encoder Decoder Reader Writer Buffer X : Type 0}
    → TokioSansConnection In Out Encoder Decoder Reader Writer Buffer × List (ReadAnswer X)
    → ℕ
rounds_left (c, answers) = weight c.read_state + 3 * length answers

module _ {In Out Encoder Decoder Reader Writer Buffer : Type 0} (bytes : BytesMut Buffer) where
  -- Nothing that has been read is left but the beginning of a frame.
  pub record IsDrained (c : TokioSansConnection In Out Encoder Decoder Reader Writer Buffer)
      : Type 0 where
    pub queue_empty : c.state.read.recv_queue ≡ []
    pub partial : IsPartial (bytes.as_slice c.state.read.recv_buffer)
    pub none_held : held c.read_state ≡ []

module _ {In Out Encoder Decoder Reader Writer Buffer X E F : Type 0} (bytes : BytesMut Buffer)
    (decoder : SansDecoder Decoder In F) (encode : Message In → Result E (List ℕ × ℕ))
    (config : ReadConnectionConfig Decoder) (ms : List (Message In)) (size : ℕ) where
  open bytes use {as_slice}
  open decoder use {decode}

  -- The connection as a session of its read half, which the reader's bytes are still to be fed to.
  abbrev pub view :
      List (Message In)
      → TokioSansConnection In Out Encoder Decoder Reader Writer Buffer × List (ReadAnswer X)
      → Session In Decoder Buffer
  view delivered (c, answers) = record {
    reader = c.state.read;
    unread = held c.read_state ++ incoming answers;
    delivered = delivered;
  }

  pub record Receives (delivered : List (Message In))
      (here : TokioSansConnection In Out Encoder Decoder Reader Writer Buffer × List (ReadAnswer X))
      : Type 0 where
    pub live : IsLive size here.0.read_state
    pub answers : All (IsAnswer size) here.1
    pub order : InOrder bytes decoder encode config ms (view delivered here)

  -- What a poll leaves, by what it returns.
  abbrev pub Polled :
      List (Message In)
      → TokioSansConnection In Out Encoder Decoder Reader Writer Buffer × List (ReadAnswer X)
      → Call (Poll (Item In X))
      → Type 0
  Polled delivered here (returns (ready (some (Result.ok m)))) = Receives (delivered ++ m ∷ []) here
  Polled delivered here (returns pending) = Receives delivered here × IsDrained bytes here.0
  Polled delivered here (returns (ready none)) =
      InOrder bytes decoder encode config ms (view delivered here) × IsDrained bytes here.0
  Polled delivered here (returns (ready (some (Result.err (transport x))))) = Unit {0}
  Polled delivered here _ = ⊥

  -- A round leaves what a poll may leave, or goes on with fewer than `bound` rounds to come.
  abbrev pub AfterRound :
      List (Message In)
      → ℕ
      → ReadRound (TokioSansConnection In Out Encoder Decoder Reader Writer Buffer) In X
      → Type 0
  AfterRound delivered bound (continue there) =
      Receives delivered there × (rounds_left there < bound)
  AfterRound delivered bound (return there result) = Polled delivered there result
