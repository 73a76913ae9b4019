-- ===== src/Tokio/EndToEnd.antt =====
-- Two connections of sansrpc-tokio/src/tcp.rs: the sink of one, and the stream of its peer.
use sansrpc.Prelude.{ℕ, ◌*◌, ◌<◌, ◌≡◌, sym, ◌∙◌, some, List, [], ◌++◌, All, Result, subst}
use sansrpc.Proto.Message.{Message}
use sansrpc.Proto.Encoder.{SansEncoder, SansDecoder}
use sansrpc.Proto.Words.{usize_mod}
use sansrpc.Proto.Buffer.{BytesMut}
use sansrpc.Proto.WriteState.{WriteConnectionConfig}
use sansrpc.Proto.Connection.{ConnectionConfig}
use sansrpc.Proto.ReadState.Transport.{Fits}
use sansrpc.Poll.{ready, returns, ReadAnswer, WriteAnswer, AsyncWrite, incoming}
use sansrpc.Tokio
use sansrpc.Tokio.{TokioSansConnection, new}
use sansrpc.Tokio.Read.Receives.{IsAnswer}
use sansrpc.Tokio.Read.Stream.{polls, polls-in_order}
use sansrpc.Tokio.Write.{poll_flush}
use sansrpc.Tokio.Write.Sends.{Sends}
use sansrpc.Tokio.Write.Outcomes.{Flushed}
use sansrpc.Tokio.Write.Flush.{poll_flush-Flushed}

module _
    {In T Encoder Decoder Encoder' Decoder' Reader Writer Reader' Writer' Buffer X Y E F : Type 0}
    (bytes : BytesMut Buffer) (io : AsyncWrite Writer) (encoder : SansEncoder Encoder T E)
    (decoder : SansDecoder Decoder' T F) (config : WriteConnectionConfig Encoder)
    (peer : ConnectionConfig Encoder' Decoder') where
  -- When `poll_flush` of a sink has answered `Ok`, and the peer's reader is going to read the bytes
  -- that the writer has been given, in whatever pieces: what a new connection of the peer yields in
  -- any number of polls is a front of the accepted messages, in order. The messages fit the peer's
  -- receive buffer.
  pub flushed-in_order :
      (Out : Type 0) (accepted : List (Message T))
      (c : TokioSansConnection In T Encoder Decoder Reader Writer Buffer)
      (answers : List (WriteAnswer X)) (arrived : List (ReadAnswer Y)) (reader : Reader')
      (writer : Writer') (n : ℕ)
      → let size = peer.read_config.recv_buffer_size in
        let decode = decoder.decode peer.read_config.coder in
        let (there, result) = poll_flush bytes io 5 (c, answers) in
        Sends bytes io encoder decode config accepted c
        → 0 < peer.read_config.recv_queue_size
        → 0 < size
        → size * 2 < usize_mod
        → All (Fits (encoder.encode config.coder) decode size) accepted
        → result ≡ returns (ready (Result.ok tt))
        → ((w : Writer)
            → there.0.write_state ≡ Tokio.WriteState.idle (some w)
            → io.sent w ≡ incoming arrived)
        → All (IsAnswer (size * 2)) arrived
        → (later : List (Message T)) × (accepted
            ≡ polls bytes decoder n (new {Out = Out} bytes peer reader writer, arrived) [] ++ later)
  flushed-in_order Out accepted c answers arrived reader writer n v sized room small fit ok reads
        contract =
      let decode = decoder.decode peer.read_config.coder in
      let there = (poll_flush bytes io 5 (c, answers)).0 in
      let (_, (w, e, all_sent)) =
        subst (Flushed bytes io encoder decode config accepted there.0) ok
          (poll_flush-Flushed X bytes io encoder decode config accepted c answers v) in
      polls-in_order Out bytes decoder (encoder.encode config.coder) peer accepted sized room fit
        small reader writer arrived contract (sym all_sent ∙ reads w e) n
