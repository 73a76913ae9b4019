-- ===== src/Proto/Connection.antt =====
-- `ConnectionState` and its configuration in sansrpc-proto/src/connection_state.rs.
use sansrpc.Prelude.{ℕ, Option, none, some, Bool, List, Outcome}
use sansrpc.Proto.Message.{Message}
use sansrpc.Proto.Encoder.{SansEncoder, SansDecoder, IntoSplitCoder}
use sansrpc.Proto.Buffer.{BytesMut}
use sansrpc.Proto.ReadState.{ConnectionReadState, ReadConnectionConfig}
use sansrpc.Proto.ReadState
use sansrpc.Proto.WriteState.{ConnectionWriteState, WriteConnectionConfig}
use sansrpc.Proto.WriteState

pub record ConnectionConfig (Encoder Decoder : Type 0) : Type 0 where
  pub read_config : ReadConnectionConfig Decoder
  pub write_config : WriteConnectionConfig Encoder

-- A field of the builder that is left out takes its default.
abbrev default : Option ℕ → ℕ → ℕ
default none d = d
default (some n) d = n

-- `ConnectionConfig::new`, which the builder calls.
unfoldable pub build :
    {Coder Encoder Decoder : Type 0}
    → IntoSplitCoder Coder Encoder Decoder
    → (recv_queue_size recv_buffer_size send_queue_size send_buffer_size : Option ℕ) → Coder
    → ConnectionConfig Encoder Decoder
build split recv_queue_size recv_buffer_size send_queue_size send_buffer_size coder =
    let (read, write) = split.into_split coder in
    record {
      read_config = record {
        recv_queue_size = default recv_queue_size 10;
        recv_buffer_size = default recv_buffer_size 4096;
        coder = read;
      };
      write_config = record {
        send_queue_size = default send_queue_size 10;
        send_buffer_size = default send_buffer_size 4096;
        coder = write;
      };
    }

abbrev pub split :
    {Encoder Decoder : Type 0}
    → ConnectionConfig Encoder Decoder
    → ReadConnectionConfig Decoder × WriteConnectionConfig Encoder
split config = (config.read_config, config.write_config)

pub record ConnectionState (In Out Encoder Decoder Buffer : Type 0) : Type 0 where
  pub read : ConnectionReadState In Decoder Buffer
  pub write : ConnectionWriteState Out Encoder Buffer

module _ {In Out Encoder Decoder Buffer R : Type 0} where
  -- A method of one half, as a method of the connection.
  abbrev pub on_read :
      ConnectionState In Out Encoder Decoder Buffer
      → ConnectionReadState In Decoder Buffer × R
      → ConnectionState In Out Encoder Decoder Buffer × R
  on_read c (read, r) = (record c { read = read }, r)

  abbrev pub on_write :
      ConnectionState In Out Encoder Decoder Buffer
      → ConnectionWriteState Out Encoder Buffer × R
      → ConnectionState In Out Encoder Decoder Buffer × R
  on_write c (write, r) = (record c { write = write }, r)

module _ {In Out Encoder Decoder Buffer : Type 0} where
  unfoldable pub into_split :
      ConnectionState In Out Encoder Decoder Buffer
      → ConnectionWriteState Out Encoder Buffer × ConnectionReadState In Decoder Buffer
  into_split c = (c.write, c.read)

  unfoldable pub available_space : ConnectionState In Out Encoder Decoder Buffer → ℕ
  available_space c = WriteState.available_space c.write

  unfoldable pub write_queue_empty : ConnectionState In Out Encoder Decoder Buffer → Bool
  write_queue_empty c = WriteState.write_queue_empty c.write

  unfoldable pub feed_item :
      ConnectionState In Out Encoder Decoder Buffer
      → Message Out
      → ConnectionState In Out Encoder Decoder Buffer × Option (Message Out)
  feed_item c item = on_write c (WriteState.feed_item c.write item)

  unfoldable pub consume_item :
      ConnectionState In Out Encoder Decoder Buffer
      → ConnectionState In Out Encoder Decoder Buffer × Option (Message In)
  consume_item c = on_read c (ReadState.consume_item c.read)

module _ {In Out Encoder Decoder Buffer : Type 0} (bytes : BytesMut Buffer) where
  unfoldable pub new :
      ConnectionConfig Encoder Decoder → ConnectionState In Out Encoder Decoder Buffer
  new config =
      let (read, write) = split config in
      record { read = ReadState.new bytes read; write = WriteState.new bytes write }

  -- None where the write half panics.
  unfoldable pub consume_bytes :
      ConnectionState In Out Encoder Decoder Buffer
      → ℕ
      → Option (ConnectionState In Out Encoder Decoder Buffer × Option (List ℕ))
  consume_bytes c len = elim (WriteState.consume_bytes bytes c.write len) [
    | none ↦ none
    | some r ↦ some (on_write c r)
  ]

  unfoldable pub consume_all :
      ConnectionState In Out Encoder Decoder Buffer
      → ConnectionState In Out Encoder Decoder Buffer × Option (List ℕ)
  consume_all c = on_write c (WriteState.consume_all bytes c.write)

  unfoldable pub feed_bytes :
      ConnectionState In Out Encoder Decoder Buffer
      → List ℕ
      → ConnectionState In Out Encoder Decoder Buffer × ℕ
  feed_bytes c input = on_read c (ReadState.feed_bytes bytes c.read input)

module _ {In Out Encoder Decoder E Buffer : Type 0} (bytes : BytesMut Buffer) where
  unfoldable pub process_write :
      SansEncoder Encoder Out E
      → ConnectionState In Out Encoder Decoder Buffer
      → ConnectionState In Out Encoder Decoder Buffer × Outcome E (Unit {0})
  process_write encoder c = on_write c (WriteState.process bytes encoder c.write)

  unfoldable pub process_read :
      SansDecoder Decoder In E
      → ConnectionState In Out Encoder Decoder Buffer
      → ConnectionState In Out Encoder Decoder Buffer × Outcome E (Unit {0})
  process_read decoder c = on_read c (ReadState.process bytes decoder c.read)
