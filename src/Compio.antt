-- ===== src/Compio.antt =====
-- sansrpc-compio/src/lib.rs: the connection, its split, and the states of its reader and writer.
pub mod Read
pub mod Joined
pub mod Write
mod Tests
mod SinkTests
use sansrpc.Prelude.{ℕ, Option, some, List, [], Result}
use sansrpc.Proto.Buffer.{BytesMut}
use sansrpc.Proto.ReadState.{ConnectionReadState}
use sansrpc.Proto.WriteState.{ConnectionWriteState}
use sansrpc.Proto.Connection.{ConnectionState, ConnectionConfig}
use sansrpc.Proto.Connection
use sansrpc.Poll.{Poll, pending, ready, Call, returns, panics, ReadAnswer}

-- The boxed future that `poll_next` makes: the reader reads into the buffer, which it owns.
pub data ReadFuture (Reader : Type 0) : Type 0 where
  reads_into : Reader → List ℕ → ReadFuture Reader
  read_done : ReadFuture Reader

pub data ReadState (Reader : Type 0) : Type 0 where
  idle : Option (Reader × List ℕ) → ReadState Reader
  reading : ReadFuture Reader → ReadState Reader

pub record CompioSansReadConnection (In Decoder Reader Buffer : Type 0) : Type 0 where
  pub connection_state : ConnectionReadState In Decoder Buffer
  pub read_state : ReadState Reader

-- The boxed futures of the write side.
pub data WriteFuture (Writer : Type 0) : Type 0 where
  writes_all : Writer → List ℕ → WriteFuture Writer
  shuts_down : Writer → WriteFuture Writer
  write_done : WriteFuture Writer

pub data WriteState (Writer : Type 0) : Type 0 where
  idle : Option Writer → WriteState Writer
  writing : WriteFuture Writer → WriteState Writer
  closing : WriteFuture Writer → WriteState Writer

pub record CompioSansWriteConnection (Out Encoder Writer Buffer : Type 0) : Type 0 where
  pub connection_state : ConnectionWriteState Out Encoder Buffer
  pub write_state : WriteState Writer

pub record CompioSansConnection (In Out Encoder Decoder Reader Writer Buffer : Type 0)
    : Type 0 where
  pub connection_state : ConnectionState In Out Encoder Decoder Buffer
  pub read_state : ReadState Reader
  pub write_state : WriteState Writer

-- `CompioSansConnection::new`. The buffer has a capacity, which nothing reads.
unfoldable pub new :
    {In Out Encoder Decoder Reader Writer Buffer : Type 0}
    → BytesMut Buffer
    → ConnectionConfig Encoder Decoder
    → Reader
    → Writer
    → CompioSansConnection In Out Encoder Decoder Reader Writer Buffer
new bytes config reader writer = record {
  connection_state = Connection.new bytes config;
  read_state = ReadState.idle (some (reader, []));
  write_state = WriteState.idle (some writer);
}

-- `CompioSansConnection::into_split`
unfoldable pub into_split :
    {In Out Encoder Decoder Reader Writer Buffer : Type 0}
    → CompioSansConnection In Out Encoder Decoder Reader Writer Buffer
    → CompioSansWriteConnection Out Encoder Writer Buffer
      × CompioSansReadConnection In Decoder Reader Buffer
into_split c =
    let (write, read) = Connection.into_split c.connection_state in
    (
      record { connection_state = write; write_state = c.write_state },
      record { connection_state = read; read_state = c.read_state },
    )

-- One poll of the future of a read, which has cleared the buffer: what has been read is the buffer.
abbrev pub poll_read :
    {Reader X : Type 0}
    → ReadFuture Reader
    → ReadAnswer X
    → ReadFuture Reader × Call (Poll (Result X (Reader × List ℕ)))
poll_read read_done answer = (read_done, panics)
poll_read (reads_into reader buf) ReadAnswer.not_ready = (reads_into reader buf, returns pending)
poll_read (reads_into reader buf) (ReadAnswer.failed x) =
    (read_done, returns (ready (Result.err x)))
poll_read (reads_into reader buf) (ReadAnswer.got input) =
    (read_done, returns (ready (Result.ok (reader, input))))
