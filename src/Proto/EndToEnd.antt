-- ===== src/Proto/EndToEnd.antt =====
-- Both halves of connection_state.rs, the write half of one connection and the read half of its peer.
use sansrpc.Prelude.{ℕ, ◌<◌, ◌≡◌, sym, subst, List, [], ◌∷◌, ◌++◌, length, Outcome}
use sansrpc.Proto.Message.{Message}
use sansrpc.Proto.Encoder.{SansEncoder, SansDecoder}
use sansrpc.Proto.Buffer.{BytesMut}
use sansrpc.Proto.ReadState.{ReadConnectionConfig, process}
use sansrpc.Proto.ReadState.Session
use sansrpc.Proto.ReadState.Session.{ReadCall}
use sansrpc.Proto.ReadState.Order.{rounds, run-in_order, run-all_delivered}
use sansrpc.Proto.WriteState.{WriteConnectionConfig}
use sansrpc.Proto.WriteState.Session.{
  WriteCall, WriteSession, processes, consumes_all, AreCarried, run as write, start as open_writer,
}
use sansrpc.Proto.WriteState.Flush.{run-sends_wire, after_calls}

module _ {T Encoder Decoder E F Buffer : Type 0} (bytes : BytesMut Buffer)
    (encoder : SansEncoder Encoder T E) (decoder : SansDecoder Decoder T F)
    (write_config : WriteConnectionConfig Encoder)
    (read_config : ReadConnectionConfig Decoder) where
  -- The writer after the calls, and the bytes that it has sent once it is flushed.
  abbrev pub writer_after : List (WriteCall T) → WriteSession T Encoder Buffer
  writer_after calls = write bytes encoder (open_writer bytes encoder write_config) calls

  abbrev pub flushed : List (WriteCall T) → List ℕ
  flushed calls = (write bytes encoder (writer_after calls) (processes ∷ consumes_all ∷ [])).sent

  -- The peer's reader, which is fed with those bytes.
  abbrev pub reader_after : List (WriteCall T) → List ReadCall → Session.Session T Decoder Buffer
  reader_after calls reads =
      Session.run bytes decoder (Session.start bytes decoder read_config (flushed calls)) reads

  module _ (calls : List (WriteCall T))
      (h : AreCarried bytes encoder (decoder.decode read_config.coder) write_config calls)
      (reads : List ReadCall) where
    -- What the reader has delivered at any time is a front of what the writer has accepted, in order,
    -- and its `process` answers `Ok`.
    pub delivered-in_order :
        (rest : List (Message T)) × ((writer_after calls).accepted
          ≡ (reader_after calls reads).delivered ++ rest)
        × ((process bytes decoder (reader_after calls reads).reader).1 ≡ Outcome.ok tt)
    delivered-in_order =
        let decode = decoder.decode read_config.coder in
        let encode = encoder.encode write_config.coder in
        let accepted = (writer_after calls).accepted in
        rw (run-sends_wire bytes encoder decode write_config calls h).1 (
          run-in_order bytes decoder encode read_config accepted
            (after_calls bytes encoder decode write_config calls h).all_carried reads)

    -- Once the reader has been fed with all of the flushed bytes, calling `process` and
    -- `consume_item` in turn delivers exactly the accepted messages.
    pub delivered-eq_accepted :
        0 < read_config.recv_queue_size
        → (reader_after calls reads).unread ≡ []
        → (Session.run bytes decoder
            (reader_after calls reads)
            (rounds (length (writer_after calls).accepted))).delivered
          ≡ (writer_after calls).accepted
    delivered-eq_accepted sized all_in =
        let decode = decoder.decode read_config.coder in
        let encode = encoder.encode write_config.coder in
        let accepted = (writer_after calls).accepted in
        subst
          (λ sent.
            let x =
              Session.run bytes decoder (Session.start bytes decoder read_config sent) reads in
            x.unread ≡ []
            → (Session.run bytes decoder x (rounds (length accepted))).delivered ≡ accepted)
          (sym (run-sends_wire bytes encoder decode write_config calls h).1)
          (run-all_delivered bytes decoder encode read_config accepted
            (after_calls bytes encoder decode write_config calls h).all_carried sized reads)
          all_in
