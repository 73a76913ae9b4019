-- ===== src/Proto/CoderTests.antt =====
-- The coders of sansrpc-proto over crates that serialise one byte, and their theorems at concrete
-- inputs.
use sansrpc.Prelude.{
  ℕ, ◌≡◌, refl, subst, Bool, true, false, ltb, ltb→lt, List, [], ◌∷◌, length, All, Result, arith,
  slice,
}
use sansrpc.Proto.Message.{
  Message, oneshot, request, response, open_stream, stream_message, close_stream,
}
use sansrpc.Proto.Words.{IsByte, to_le_bytes, from_le_bytes}
use sansrpc.Proto.Buffer.{list_bytes}
use sansrpc.Proto.Frames.{frame}
use sansrpc.Proto.Wire.{wire, message_frame}
use sansrpc.Proto.ByteCoder.{ping, byte_decode}
use sansrpc.Proto.ReadState
use sansrpc.Proto.ReadState.{ReadConnectionConfig}
use sansrpc.Proto.ReadState.Session
use sansrpc.Proto.ReadState.Session.{ReadCall, feeds, processes, consumes}
use sansrpc.Proto.ReadState.Order.{rounds}
use sansrpc.Proto.WriteState
use sansrpc.Proto.WriteState.{WriteConnectionConfig}
use sansrpc.Proto.WriteState.Session as WriteCalls
use sansrpc.Proto.Coders.{
  Bincode, bincode, bincode_encoder, bincode_decoder, SerdeJson, json, json_encoder, json_decoder,
}
use sansrpc.Proto.Coders.RoundTrip.{bincode-delivers, json-delivers}
use sansrpc.Proto.EndToEnd.{writer_after, reader_after}

-- Numbers below 200 are serialised.
abbrev small : ℕ → Bool → Result ℕ (List ℕ)
small n true = Result.ok (n ∷ [])
small n false = Result.err 1

abbrev small_encode : Message ℕ → Result ℕ (List ℕ)
small_encode (oneshot o) = small o.message (ltb o.message 200)
small_encode _ = Result.err 1

small-read :
    (n : ℕ) (item : List ℕ) (b : Bool)
    → ltb n 200 ≡ b
    → small n b ≡ Result.ok item
    → All IsByte item × (byte_decode item ≡ Result.ok (ping n))
small-read n item true below e =
    let same : n ∷ [] ≡ item = cc e in
    subst (λ t. All IsByte t × (byte_decode t ≡ Result.ok (ping n))) same
      ((omega (arith, ltb→lt n 200 below), tt), rw below refl)
small-read n item false below e = cc e

small_encode-read :
    (m : Message ℕ) (item : List ℕ)
    → small_encode m ≡ Result.ok item
    → All IsByte item × (byte_decode item ≡ Result.ok m)
small_encode-read (oneshot o) item e = small-read o.message item (ltb o.message 200) refl e
small_encode-read (request m) item e = cc e
small_encode-read (response m) item e = cc e
small_encode-read (open_stream m) item e = cc e
small_encode-read (stream_message m) item e = cc e
small_encode-read (close_stream k) item e = cc e

-- bincode's answer of how many bytes it has read.
abbrev with_length : List ℕ → Result ℕ (Message ℕ) → Result ℕ (Message ℕ × ℕ)
with_length item (Result.ok m) = Result.ok (m, length item)
with_length item (Result.err e) = Result.err e

abbrev small_bincode : Bincode ℕ ℕ ℕ
small_bincode = record {
  encode_to_vec = small_encode;
  decode_from_slice = λ item. with_length item (byte_decode item);
}

abbrev small_json : SerdeJson ℕ ℕ
small_json = record { to_vec = small_encode; from_slice = byte_decode }

abbrev talk : List (WriteCalls.WriteCall ℕ)
talk =
    WriteCalls.feeds (ping 7)
    ∷ WriteCalls.processes
    ∷ WriteCalls.consumes 4
    ∷ WriteCalls.feeds (ping 8)
    ∷ []

abbrev in_pieces : List ReadCall
in_pieces = feeds 5 ∷ processes ∷ feeds 7 ∷ processes ∷ consumes ∷ feeds 20 ∷ []

abbrev writes : {Coder : Type 0} → Coder → WriteConnectionConfig Coder
writes coder = record { send_queue_size = 2; send_buffer_size = 16; coder = coder }

abbrev reads : {Coder : Type 0} → Coder → ReadConnectionConfig Coder
reads coder = record { recv_queue_size = 2; recv_buffer_size = 16; coder = coder }

bincode-delivers_example :
    let encoder = bincode_encoder small_bincode in
    let decoder = bincode_decoder small_bincode in
    let x =
      reader_after list_bytes encoder decoder (writes bincode) (reads bincode) talk in_pieces in
    (Session.run list_bytes decoder x (rounds 2)).delivered
    ≡ (writer_after list_bytes encoder decoder (writes bincode) (reads bincode) talk).accepted
unfolding Session.run Session.step Session.start wire message_frame frame to_le_bytes ReadState.new
    ReadState.feed_bytes ReadState.consume_item ReadState.process ReadState.process_round
    from_le_bytes slice list_bytes WriteCalls.run WriteCalls.step WriteCalls.start WriteState.new
    WriteState.feed_item WriteState.process WriteState.consume_bytes WriteState.consume_all
bincode-delivers_example =
    bincode-delivers list_bytes talk in_pieces small_bincode (writes bincode) (reads bincode)
      (λ m item e. (small_encode-read m item e).0)
      (λ m item e. (length item, rw (small_encode-read m item e).1 refl))
      ((7 ∷ [], refl, omega arith), ((8 ∷ [], refl, omega arith), tt)) (omega arith) refl

json-delivers_example :
    let encoder = json_encoder small_json in
    let decoder = json_decoder small_json in
    let x = reader_after list_bytes encoder decoder (writes json) (reads json) talk in_pieces in
    (Session.run list_bytes decoder x (rounds 2)).delivered
    ≡ (writer_after list_bytes encoder decoder (writes json) (reads json) talk).accepted
unfolding Session.run Session.step Session.start wire message_frame frame to_le_bytes ReadState.new
    ReadState.feed_bytes ReadState.consume_item ReadState.process ReadState.process_round
    from_le_bytes slice list_bytes WriteCalls.run WriteCalls.step WriteCalls.start WriteState.new
    WriteState.feed_item WriteState.process WriteState.consume_bytes WriteState.consume_all
json-delivers_example =
    json-delivers list_bytes talk in_pieces small_json (writes json) (reads json)
      (λ m item e. (small_encode-read m item e).0) (λ m item e. (small_encode-read m item e).1)
      ((7 ∷ [], refl, omega arith), ((8 ∷ [], refl, omega arith), tt)) (omega arith) refl
