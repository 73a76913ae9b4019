-- ===== src/Tokio.antt =====
-- sansrpc-tokio/src/tcp.rs: the connection, and the states of its reader and its writer.
pub mod Read
pub mod Write
pub mod EndToEnd
mod Tests
use sansrpc.Prelude.{
  ℕ, ◌*◌, ◌%◌, ◌-◌, Option, none, some, Bool, true, false, List, [], ◌++◌, length, drop, ltb,
  if◌then◌else◌, Result, replicate,
}
use sansrpc.Proto.Words.{usize_mod}
use sansrpc.Proto.Buffer.{BytesMut}
use sansrpc.Proto.Connection
use sansrpc.Proto.Connection.{ConnectionConfig, ConnectionState}
use sansrpc.Poll.{Poll, pending, ready, Call, returns, panics, ReadAnswer, WriteAnswer, AsyncWrite}

-- `ReadInner`: the reader, its buffer, and how many bytes of it have been read.
abbrev pub ReadInner : Type 0 → Type 0
ReadInner Reader = Reader × List ℕ × ℕ

-- The boxed future that `poll_next` makes: it reads into `buf` once. `read_done` has been polled to
-- its end.
pub data ReadFuture (Reader : Type 0) : Type 0 where
  reads_into : Reader → List ℕ → ReadFuture Reader
  read_done : ReadFuture Reader

pub data ReadState (Reader : Type 0) : Type 0 where
  idle : Option (ReadInner Reader) → ReadState Reader
  reading : ReadFuture Reader → ReadState Reader

-- The boxed futures of the write side.
pub data WriteFuture (Writer : Type 0) : Type 0 where
  writes_all : Writer → List ℕ → WriteFuture Writer
  shuts_down : Writer → WriteFuture Writer
  write_done : WriteFuture Writer

pub data WriteState (Writer : Type 0) : Type 0 where
  idle : Option Writer → WriteState Writer
  writing : WriteFuture Writer → WriteState Writer
  closing : WriteFuture Writer → WriteState Writer

unfoldable pub is_closed : {Writer : Type 0} → WriteState Writer → Bool
is_closed (WriteState.closing _) = true
is_closed _ = false

pub record TokioSansConnection (In Out Encoder Decoder Reader Writer Buffer : Type 0) : Type 0 where
  pub state : ConnectionState In Out Encoder Decoder Buffer
  pub read_state : ReadState Reader
  pub write_state : WriteState Writer

-- `TokioSansConnection::new`
unfoldable pub new :
    {In Out Encoder Decoder Reader Writer Buffer : Type 0}
    → BytesMut Buffer
    → ConnectionConfig Encoder Decoder
    → Reader
    → Writer
    → TokioSansConnection In Out Encoder Decoder Reader Writer Buffer
new bytes config reader writer = record {
  state = Connection.new bytes config;
  read_state =
      ReadState.idle
        (some (reader, replicate (config.read_config.recv_buffer_size * 2 % usize_mod) 0, 0));
  write_state = WriteState.idle (some writer);
}

-- `buf.copy_within(from.., 0)`: none is the panic of a range past the end.
abbrev pub copy_within : ℕ → List ℕ → Option (List ℕ)
copy_within from buf =
    if ltb (length buf) from then none else some (drop from buf ++ drop (length buf - from) buf)

-- One poll of the future of a read. What has been read stands at the front of the buffer.
abbrev pub poll_read :
    {Reader X : Type 0}
    → ReadFuture Reader
    → ReadAnswer X
    → ReadFuture Reader × Call (Poll (Result X (ReadInner Reader)))
poll_read read_done answer = (read_done, panics)
poll_read (reads_into reader buf) ReadAnswer.not_ready = (reads_into reader buf, returns pending)
poll_read (reads_into reader buf) (ReadAnswer.failed x) =
    (read_done, returns (ready (Result.err x)))
poll_read (reads_into reader buf) (ReadAnswer.got input) = (
  read_done,
  returns (ready (Result.ok (reader, input ++ drop (length input) buf, length input))),
)

-- One poll of the future of a write.
abbrev pub poll_write :
    {Writer X : Type 0}
    → AsyncWrite Writer
    → WriteFuture Writer
    → WriteAnswer X
    → WriteFuture Writer × Call (Poll (Result X Writer))
poll_write io write_done answer = (write_done, panics)
poll_write io fut WriteAnswer.not_ready = (fut, returns pending)
poll_write io fut (WriteAnswer.failed x) = (write_done, returns (ready (Result.err x)))
poll_write io (writes_all writer input) WriteAnswer.completed =
    (write_done, returns (ready (Result.ok (io.write_all writer input))))
poll_write io (shuts_down writer) WriteAnswer.completed =
    (write_done, returns (ready (Result.ok (io.shutdown (io.flush writer)))))
