-- ===== src/Lib.antt =====
-- sansrpc: remote procedure calls over any byte stream. A connection is a state that does no input
-- or output of its own (sansrpc-proto); a transport drives it with a reader and a writer
-- (sansrpc-tokio, sansrpc-compio); a service sends requests and dispatches messages over a transport
-- (sansrpc-service). Modelled are the connection, both transports, and the service.
--
-- How the parts interact. A message is encoded to an item; its frame is the item behind its length
-- in eight bytes, little endian. The write half queues items (`feed_item`), turns the queue into
-- frames in the send buffer (`process`) and hands the buffer out (`consume_bytes`, `consume_all`).
-- The read half appends what it is fed (`feed_bytes`) to its receive buffer, cuts the buffer into
-- frames and decodes their items into a queue (`process`), and hands the items out
-- (`consume_item`). The tokio connection is a `Stream` that reads, feeds and consumes items, and a
-- `Sink` that feeds items, consumes bytes and writes them. The service reads messages from a `Stream`
-- and writes them to a `Sink`: it passes responses and stream messages on to the channels that wait
-- for them, hands the other messages to its caller, which spawns a task for each, and sends what
-- tasks answer and what handles ask.
--
-- Files and sources:
--   Proto/Message      sansrpc-proto/src/message.rs: the messages
--   Proto/Encoder      sansrpc-proto/src/encoder.rs: the traits, as records of their methods
--   Proto/ReadState    sansrpc-proto/src/connection_state.rs, `ConnectionReadState`: `new`,
--                      `feed_bytes`, `consume_item`, `process` (one round of its loop is
--                      `process_round`); its child modules hold the proofs
--   Proto/WriteState   the same file, `ConnectionWriteState`: `new`, `available_space`, `feed_item`,
--                      `write_queue_empty`, `consume_bytes`, `consume_all`, `process`
--   Proto/Connection   the same file, `ConnectionState` and `ConnectionConfig`, which call the halves
--   Proto/Coders       sansrpc-proto/src/bincode.rs and sansrpc-proto/src/json.rs
--   Proto/Coders/RoundTrip  both halves, with one of these coders on both sides
--   Proto/EndToEnd     both halves, the write half of one peer and the read half of the other
--   Tokio              sansrpc-tokio/src/tcp.rs: the connection and the states of its two sides, with
--                      one poll of each of its boxed futures
--   Tokio/Read         `poll_next`: a round of its loop is `poll_next_round`, cut at the code's calls
--   Tokio/Write        `poll_ready`, `start_send`, `poll_flush`, `poll_close`; a round of a loop is
--                      `match_flush`, `match_close`
--   Tokio/EndToEnd     the sink of one connection and the stream of its peer
--   Compio             sansrpc-compio/src/lib.rs: the connections, `new`, `into_split`, and one poll of
--                      the future of a read
--   Compio/Read        `poll_next` of `CompioSansReadConnection`, cut as that of Tokio/Read
--   Compio/Write       the sink of `CompioSansWriteConnection`, cut as that of Tokio/Write
--   Compio/Joined      `poll_next` of `CompioSansConnection`; Compio/Joined/Sink is its sink
--   Service/Messages   sansrpc-service/src/service_message.rs
--   Service/Channels   what the service uses of `HashMap` and of the channels and sinks of futures
--   Service/Sans       sansrpc-service/src/sans_service.rs: `new`, `recv_stream`, `recv_request`, and
--                      `next_message`, a round of which is `select`, cut at the branches
--   Service/Session    everything that is done to a `SansService`, in any order
--   Service/Handle     sansrpc-service/src/handle.rs: `send_oneshot`, `send_request`, `send_stream`
--   Service/Inner      sansrpc-service/src/service.rs: `run`, the body of whose loop is `dispatch`
--   Poll               polls, errors, and the answers of a reader and a writer
--   Prelude, Proto/Words, Proto/Frames, Proto/Wire  library names and lemmas, `usize` and bytes, frames
--
-- Conventions. Mutation is state passing: a method takes the state and answers the new one with its
-- result. `Outcome` is a run that may also panic or run out of fuel (`diverged`), `Call` the same for
-- a poll (`panics`, `spins`); `Option` is used where none is a panic, as its comment says. A `usize`
-- has 64 bits: sums and differences are reduced modulo 2 ^ 64, and a sum that overflows where the
-- code goes on to slice is a panic. The sizes of a configuration are `NonZeroUsize` in the code and
-- numbers here; theorems that need them positive say so.
--
-- Code that is not in the repository is a parameter: `BytesMut` (Proto/Buffer: an interface with the
-- documented laws of its methods, filled by lists of bytes), bincode and serde_json, the coders, the
-- writer (`AsyncWrite`: its methods run to their end, with the law that they append), and what the
-- reader and the writer answer at each poll (lists of answers, any list). For the service these are
-- the channels (`Channels`, `Handles`), the sink (`MessageSink`), and the branches of `select!` that
-- are taken with what they yield (a list of events, any list); a response source yields once, as
-- `stream::once` does. A run of Service/Session goes on behind a panic too: its runs are more than
-- those of the code.
--
-- Fuel. `process` of the read half has fuel for one round per byte of the receive buffer and one
-- more; each round that goes on takes eight bytes or more, so it does not run out. `poll_next` has the
-- fuel that its caller gives; `rounds_left`, at most three rounds for each answer of the reader and
-- two more (over compio two and one), is enough where the messages fit the receive buffer.
-- `poll_flush` and `poll_close` take at most five rounds. `next_message` is recursive on the events;
-- `run` of the service has enough fuel with one more than there are events, since each call of
-- `next_message` that it goes on behind takes one.
--
-- Not modelled: what a spawned task does, which is the user's; sansrpc-compio/src/tcp.rs, which opens
-- sockets and makes connections of them; the runtimes and the facade crate, which re-export and spawn; the macros, which give their item back unchanged; wakers, and the sleep
-- of 100 ms in `poll_next`, which change no state.
pub mod Prelude
pub mod Proto
pub mod Poll
pub mod Tokio
pub mod Compio
pub mod Service
