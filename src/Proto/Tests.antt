-- ===== src/Proto/Tests.antt =====
-- Runs of sansrpc-proto on a small coder, and the theorems at concrete inputs.
use sansrpc.Prelude.{ℕ, ◌≡◌, refl, Option, some, List, [], ◌∷◌, ◌++◌, slice, Outcome, arith}
use sansrpc.Proto.Message.{Message, close_stream}
use sansrpc.Proto.Words.{to_le_bytes, from_le_bytes}
use sansrpc.Proto.Buffer.{list_bytes}
use sansrpc.Proto.ByteCoder.{ping, byte_encoder, byte_decoder, reads, writes, three, three-Carried}
use sansrpc.Proto.Frames.{frame, IsOverlong}
use sansrpc.Proto.Wire.{wire, message_frame}
use sansrpc.Proto.ReadState
use sansrpc.Proto.ReadState.{ReadConnectionConfig, ConnectionReadState}
use sansrpc.Proto.ReadState.Drains.{Processed, process-Processed}
use sansrpc.Proto.ReadState.Feed.{feed_bytes_lem}
use sansrpc.Proto.ReadState.Session
use sansrpc.Proto.ReadState.Session.{feeds, processes, consumes, ReadCall}
use sansrpc.Proto.ReadState.Order.{run-in_order, run-all_delivered, rounds}
use sansrpc.Proto.ReadState.Failures.{process-overlong, process-err_again}
use sansrpc.Proto.WriteState
use sansrpc.Proto.WriteState.{WriteConnectionConfig, ConnectionWriteState}
use sansrpc.Proto.WriteState.Emits.{Sent, process-Sent}
use sansrpc.Proto.WriteState.Queue.{
  available_space-eq_zero, feed_item_lem, consume_bytes_lem, consume_all_lem, IsWithin, Consumed,
  got,
}
use sansrpc.Proto.WriteState.Session as WriteCalls
use sansrpc.Proto.WriteState.Flush.{run-sends_wire}
use sansrpc.Proto.EndToEnd.{delivered-in_order, delivered-eq_accepted, writer_after, reader_after}

abbrev some_bytes : List ℕ
some_bytes = 1 ∷ 0 ∷ 0 ∷ 0 ∷ 0 ∷ 0 ∷ 0 ∷ 0 ∷ 7 ∷ 1 ∷ 0 ∷ []

abbrev reader_with : List ℕ → ConnectionReadState ℕ (Unit {0}) (List ℕ)
reader_with bytes = record { recv_queue = []; recv_buffer = bytes; config = reads }

abbrev writer_with : List (Message ℕ) → List ℕ → ConnectionWriteState ℕ (Unit {0}) (List ℕ)
writer_with queue bytes = record { send_queue = queue; send_buffer = bytes; config = writes }

process_some :
    ReadState.process list_bytes byte_decoder (reader_with some_bytes)
    ≡ (record (reader_with (1 ∷ 0 ∷ [])) { recv_queue = ping 7 ∷ [] }, Outcome.ok tt)
unfolding ReadState.process ReadState.process_round list_bytes from_le_bytes slice
process_some = refl

process-Processed_example :
    Processed list_bytes byte_decoder
      (reader_with some_bytes)
      (ReadState.process list_bytes byte_decoder (reader_with some_bytes))
unfolding list_bytes
process-Processed_example =
    process-Processed list_bytes byte_decoder (reader_with some_bytes) (omega arith)

-- A reader with one free place, and a frame whose item is refused behind a good one.
abbrev bad_bytes : List ℕ
bad_bytes = 1 ∷ 0 ∷ 0 ∷ 0 ∷ 0 ∷ 0 ∷ 0 ∷ 0 ∷ 7 ∷ 1 ∷ 0 ∷ 0 ∷ 0 ∷ 0 ∷ 0 ∷ 0 ∷ 0 ∷ 222 ∷ []

process-err_again_example :
    ReadState.process list_bytes byte_decoder
      (ReadState.process list_bytes byte_decoder (reader_with bad_bytes)).0
    ≡ ((ReadState.process list_bytes byte_decoder (reader_with bad_bytes)).0, Outcome.err 3)
unfolding ReadState.process ReadState.process_round list_bytes from_le_bytes slice
process-err_again_example =
    process-err_again list_bytes byte_decoder (reader_with bad_bytes) (omega arith) 3 refl

abbrev overlong_bytes : List ℕ
overlong_bytes = 255 ∷ 255 ∷ 255 ∷ 255 ∷ 255 ∷ 255 ∷ 255 ∷ 255 ∷ []

IsOverlong-header : IsOverlong overlong_bytes
unfolding from_le_bytes
IsOverlong-header = omega arith

process-overlong_example :
    ReadState.process list_bytes byte_decoder (reader_with overlong_bytes)
    ≡ (reader_with overlong_bytes, Outcome.panicked)
unfolding list_bytes
process-overlong_example =
    process-overlong list_bytes byte_decoder (reader_with overlong_bytes) (omega arith)
      (omega arith) IsOverlong-header

feed_bytes_lem_example :
    ReadState.feed_bytes list_bytes (reader_with (overlong_bytes ++ overlong_bytes)) some_bytes
    ≡ (reader_with (overlong_bytes ++ overlong_bytes), 0)
unfolding list_bytes
feed_bytes_lem_example =
    (feed_bytes_lem list_bytes (reader_with (overlong_bytes ++ overlong_bytes)) some_bytes).1
      (omega arith) (omega arith)

abbrev in_pieces : List ReadCall
in_pieces = feeds 5 ∷ processes ∷ feeds 7 ∷ processes ∷ consumes ∷ feeds 20 ∷ []

run-in_order_example :
    let x =
      Session.run list_bytes byte_decoder
        (Session.start list_bytes byte_decoder reads (wire (byte_encoder.encode tt) three))
        in_pieces in
    (rest : List (Message ℕ)) × (three ≡ x.delivered ++ rest)
    × ((ReadState.process list_bytes byte_decoder x.reader).1 ≡ Outcome.ok tt)
run-in_order_example =
    run-in_order list_bytes byte_decoder (byte_encoder.encode tt) reads three three-Carried
      in_pieces

run-all_delivered_example :
    let x =
      Session.run list_bytes byte_decoder
        (Session.start list_bytes byte_decoder reads (wire (byte_encoder.encode tt) three))
        in_pieces in
    (Session.run list_bytes byte_decoder x (rounds 3)).delivered ≡ three
unfolding Session.run Session.step Session.start wire message_frame frame to_le_bytes ReadState.new
    ReadState.feed_bytes ReadState.consume_item ReadState.process ReadState.process_round
    from_le_bytes slice list_bytes
run-all_delivered_example =
    run-all_delivered list_bytes byte_decoder (byte_encoder.encode tt) reads three three-Carried
      (omega arith) in_pieces refl

abbrev talk : List (WriteCalls.WriteCall ℕ)
talk =
    WriteCalls.feeds (ping 7)
    ∷ WriteCalls.feeds (ping 8)
    ∷ WriteCalls.processes
    ∷ WriteCalls.consumes 4
    ∷ WriteCalls.feeds (ping 9)
    ∷ []

talk-AreCarried : WriteCalls.AreCarried list_bytes byte_encoder (byte_decoder.decode tt) writes talk
talk-AreCarried = three-Carried

run-sends_wire_example :
    let x =
      WriteCalls.run list_bytes byte_encoder
        (WriteCalls.start list_bytes byte_encoder writes)
        talk in
    (WriteCalls.run list_bytes byte_encoder x
      (WriteCalls.processes ∷ WriteCalls.consumes_all ∷ [])).sent
    ≡ wire (byte_encoder.encode tt) x.accepted
run-sends_wire_example =
    (run-sends_wire list_bytes byte_encoder (byte_decoder.decode tt) writes talk talk-AreCarried).1

delivered-in_order_example :
    let x = reader_after list_bytes byte_encoder byte_decoder writes reads talk in_pieces in
    (rest : List (Message ℕ)) × ((writer_after list_bytes byte_encoder byte_decoder writes reads
        talk).accepted
      ≡ x.delivered ++ rest)
    × ((ReadState.process list_bytes byte_decoder x.reader).1 ≡ Outcome.ok tt)
delivered-in_order_example =
    delivered-in_order list_bytes byte_encoder byte_decoder writes reads talk talk-AreCarried
      in_pieces

delivered-eq_accepted_example :
    let x = reader_after list_bytes byte_encoder byte_decoder writes reads talk in_pieces in
    (Session.run list_bytes byte_decoder x (rounds 3)).delivered
    ≡ (writer_after list_bytes byte_encoder byte_decoder writes reads talk).accepted
unfolding Session.run Session.step Session.start wire message_frame frame to_le_bytes ReadState.new
    ReadState.feed_bytes ReadState.consume_item ReadState.process ReadState.process_round
    from_le_bytes slice list_bytes WriteCalls.run WriteCalls.step WriteCalls.start WriteState.new
    WriteState.feed_item WriteState.process WriteState.consume_bytes WriteState.consume_all
delivered-eq_accepted_example =
    delivered-eq_accepted list_bytes byte_encoder byte_decoder writes reads talk talk-AreCarried
      in_pieces (omega arith) refl

process-Sent_example :
    Sent list_bytes byte_encoder
      (ping 7 ∷ close_stream 4 ∷ ping 8 ∷ [])
      (writer_with (ping 7 ∷ close_stream 4 ∷ ping 8 ∷ []) (5 ∷ []))
      (WriteState.process list_bytes byte_encoder
        (writer_with (ping 7 ∷ close_stream 4 ∷ ping 8 ∷ []) (5 ∷ [])))
process-Sent_example =
    process-Sent list_bytes byte_encoder
      (writer_with (ping 7 ∷ close_stream 4 ∷ ping 8 ∷ []) (5 ∷ []))

available_space-eq_zero_example : WriteState.available_space (writer_with (ping 7 ∷ []) []) ≡ 0
available_space-eq_zero_example =
    available_space-eq_zero (writer_with (ping 7 ∷ []) []) (omega arith) (omega arith)

feed_item_lem_example :
    IsWithin (WriteState.feed_item (writer_with (ping 7 ∷ ping 8 ∷ []) []) (ping 9)).0
feed_item_lem_example =
    (feed_item_lem (writer_with (ping 7 ∷ ping 8 ∷ []) []) (ping 9) (omega arith)).0

consume_bytes_lem_example :
    (t : ConnectionWriteState ℕ (Unit {0}) (List ℕ)) × (taken : Option (List ℕ))
    × (WriteState.consume_bytes list_bytes (writer_with [] (1 ∷ 2 ∷ 3 ∷ [])) 2 ≡ some (t, taken))
    × Consumed list_bytes (writer_with [] (1 ∷ 2 ∷ 3 ∷ [])) t taken
    × (got taken ≡ 1 ∷ 2 ∷ [])
unfolding list_bytes
consume_bytes_lem_example = consume_bytes_lem list_bytes (writer_with [] (1 ∷ 2 ∷ 3 ∷ [])) 2

consume_all_lem_example :
    Consumed list_bytes
      (writer_with [] (1 ∷ 2 ∷ []))
      (WriteState.consume_all list_bytes (writer_with [] (1 ∷ 2 ∷ []))).0
      (WriteState.consume_all list_bytes (writer_with [] (1 ∷ 2 ∷ []))).1
consume_all_lem_example = (consume_all_lem list_bytes (writer_with [] (1 ∷ 2 ∷ []))).0
