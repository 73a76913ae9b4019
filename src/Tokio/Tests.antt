-- ===== src/Tokio/Tests.antt =====
-- Runs of sansrpc-tokio on a small coder, and the theorems at concrete inputs.
use sansrpc.Prelude.{Result, ℕ, suc, ◌≡◌, refl, inr, some, List, [], ◌∷◌, ◌++◌, arith, replicate}
use sansrpc.Proto.Message.{Message}
use sansrpc.Proto.Buffer.{list_bytes}
use sansrpc.Proto.Words.{to_le_bytes, from_le_bytes}
use sansrpc.Proto.Frames.{frame}
use sansrpc.Proto.Wire.{wire, message_frame}
use sansrpc.Proto.ByteCoder.{
  three-Fits, ping, byte_encoder, byte_decoder, reads, writes, three, ping-Carried,
}
use sansrpc.Proto.ReadState
use sansrpc.Proto.Connection.{consume_all, ConnectionConfig, process_read, consume_item}
use sansrpc.Poll.{ready, returns, spins, ReadAnswer, incoming, WriteAnswer, AsyncWrite}
use sansrpc.Tokio
use sansrpc.Tokio.{TokioSansConnection, new, is_closed, writes_all}
use sansrpc.Tokio.Read.{
  poll_next, poll_next_round, after_read, after_process, match_read_state, start_read, after_poll,
}
use sansrpc.Tokio.Read.Receives.{Polled, Receives, rounds_left}
use sansrpc.Tokio.Read.Delivery.{poll_next-Polled}
use sansrpc.Tokio.Read.Livelock.{IsFull, poll_next-spins}
use sansrpc.Tokio.Read.Stream.{polls, polls-in_order, pending-all_delivered, new-Receives}
use sansrpc.Tokio.EndToEnd.{flushed-in_order}
use sansrpc.Proto.WriteState
use sansrpc.Tokio.Write.{
  match_flush, after_write, write_out, poll_ready, poll_flush, poll_close, start_send,
}
use sansrpc.Tokio.Write.Sends.{Sends, Started, start_send-Started}
use sansrpc.Tokio.Write.Outcomes.{Readied, Flushed, Closed}
use sansrpc.Tokio.Write.Flush.{poll_ready-Readied, poll_flush-Flushed}
use sansrpc.Tokio.Write.Close.{poll_close-Closed}

-- A writer that is the list of its bytes.
abbrev list_write : AsyncWrite (List ℕ)
list_write = record {
  write_all = λ writer input. writer ++ input;
  flush = λ writer. writer;
  shutdown = λ writer. writer;
  sent = λ writer. writer;
  sent-write_all = λ writer input. refl;
  sent-flush = λ writer. refl;
  sent-shutdown = λ writer. refl;
}

abbrev config : ConnectionConfig (Unit {0}) (Unit {0})
config = record { read_config = reads; write_config = writes }

-- The reader is a unit, since the answers stand for it.
abbrev Connected : Type 0
Connected = TokioSansConnection (ℕ) (ℕ) (Unit {0}) (Unit {0}) (Unit {0}) (List ℕ) (List ℕ)

abbrev served : Connected
served = record {
  state = record {
    read = record { recv_queue = []; recv_buffer = []; config = reads };
    write = record { send_queue = []; send_buffer = []; config = writes };
  };
  read_state = Tokio.ReadState.idle (some (tt, replicate 32 0, 0));
  write_state = Tokio.WriteState.idle (some []);
}

-- Three frames of nine bytes, in pieces.
abbrev pieces : List (ReadAnswer ℕ)
pieces =
    ReadAnswer.got (1 ∷ 0 ∷ 0 ∷ 0 ∷ 0 ∷ [])
    ∷ ReadAnswer.not_ready
    ∷ ReadAnswer.got (0 ∷ 0 ∷ 0 ∷ 7 ∷ 1 ∷ 0 ∷ 0 ∷ 0 ∷ 0 ∷ 0 ∷ 0 ∷ 0 ∷ 8 ∷ 1 ∷ [])
    ∷ ReadAnswer.got (0 ∷ 0 ∷ 0 ∷ 0 ∷ 0 ∷ 0 ∷ 0 ∷ 9 ∷ [])
    ∷ []

pieces-eq_wire : wire (byte_encoder.encode tt) three ≡ incoming pieces
unfolding wire message_frame frame to_le_bytes
pieces-eq_wire = refl

abbrev opened : Connected
opened = new list_bytes config tt []

opened-Receives :
    Receives list_bytes byte_decoder (byte_encoder.encode tt) reads three 32 [] (opened, pieces)
opened-Receives =
    new-Receives ℕ list_bytes byte_decoder (byte_encoder.encode tt) config three (omega arith)
      (omega arith) three-Fits (omega arith) tt [] pieces (omega arith) pieces-eq_wire

poll_next-Polled_example :
    let (there, result) =
      poll_next list_bytes byte_decoder (suc (rounds_left (opened, pieces))) (opened, pieces) in
    Polled list_bytes byte_decoder (byte_encoder.encode tt) reads three 32 [] there result
poll_next-Polled_example =
    poll_next-Polled list_bytes byte_decoder (byte_encoder.encode tt) reads three 32 (omega arith)
      (omega arith) three-Fits (omega arith) [] (opened, pieces) opened-Receives

polls-in_order_example :
    (later : List (Message ℕ)) × (three
      ≡ polls list_bytes byte_decoder 5 (opened, pieces) [] ++ later)
polls-in_order_example =
    polls-in_order ℕ list_bytes byte_decoder (byte_encoder.encode tt) config three (omega arith)
      (omega arith) three-Fits (omega arith) tt [] pieces (omega arith) pieces-eq_wire 5

-- Everything has been delivered, and the reader is not ready.
abbrev waiting : Connected × List (ReadAnswer ℕ)
waiting = (served, ReadAnswer.not_ready ∷ [])

waiting-Receives :
    Receives list_bytes byte_decoder (byte_encoder.encode tt) reads three 32 three waiting
unfolding list_bytes wire
waiting-Receives = record {
  live = (refl, omega arith);
  answers = (tt, tt);
  order = record { todo = []; order = refl; behind = refl; carried = tt; same_config = refl };
}

pending-all_delivered_example : three ≡ three
unfolding poll_next poll_next_round after_read after_process match_read_state start_read after_poll
    process_read consume_item ReadState.process ReadState.process_round ReadState.consume_item
    list_bytes
pending-all_delivered_example =
    pending-all_delivered ℕ list_bytes byte_decoder (byte_encoder.encode tt) config three
      (omega arith) (omega arith) three-Fits (omega arith) three waiting waiting-Receives refl refl

-- The header of a frame of 108 bytes and the eight bytes behind it fill the receive buffer.
abbrev stuck : Connected
stuck = record served {
  state = record served.state {
    read = record {
      recv_queue = [];
      recv_buffer = 100 ∷ 0 ∷ 0 ∷ 0 ∷ 0 ∷ 0 ∷ 0 ∷ 0 ∷ replicate 8 1;
      config = reads;
    };
  };
  read_state = Tokio.ReadState.idle (some (tt, replicate 32 1, 4));
}

stuck-IsFull : IsFull list_bytes stuck
unfolding list_bytes from_le_bytes
stuck-IsFull = record {
  reader = tt;
  buf = replicate 32 1;
  read = 3;
  waiting = refl;
  within = omega arith;
  queue_empty = refl;
  queue_room = omega arith;
  partial = inr (omega arith, omega arith);
  full = omega arith;
  words = omega arith;
}

poll_next-spins_example :
    poll_next list_bytes byte_decoder 9 (stuck, pieces) ≡ ((stuck, pieces), spins)
poll_next-spins_example = poll_next-spins list_bytes byte_decoder stuck pieces stuck-IsFull 9

-- A frame has been accepted and waits in the send buffer; the writer has been given one before.
abbrev buffered : Connected
buffered = record served {
  state = record served.state {
    write = record {
      send_queue = [];
      send_buffer = 1 ∷ 0 ∷ 0 ∷ 0 ∷ 0 ∷ 0 ∷ 0 ∷ 0 ∷ 8 ∷ [];
      config = writes;
    };
  };
  write_state = Tokio.WriteState.writing (writes_all [] (1 ∷ 0 ∷ 0 ∷ 0 ∷ 0 ∷ 0 ∷ 0 ∷ 0 ∷ 7 ∷ []));
}

abbrev two : List (Message ℕ)
two = ping 7 ∷ ping 8 ∷ []

buffered-Sends :
    Sends list_bytes list_write byte_encoder (byte_decoder.decode tt) writes two buffered
unfolding list_bytes wire message_frame frame to_le_bytes is_closed
buffered-Sends = record {
  live = tt;
  order = record {
    stream = refl;
    carried = tt;
    all_carried = (ping-Carried 7 (omega arith), (ping-Carried 8 (omega arith), tt));
    same_config = refl;
  };
  queue_empty = refl;
  closed = λ shut. cc shut;
}

start_send-Started_example :
    Started list_bytes list_write byte_encoder
      (byte_decoder.decode tt)
      writes
      two
      buffered
      (ping 9)
      {X = ℕ}
      (start_send list_bytes byte_encoder buffered (ping 9))
start_send-Started_example =
    start_send-Started list_bytes list_write byte_encoder (byte_decoder.decode tt) writes ℕ two
      buffered (ping 9) buffered-Sends (omega arith) (ping-Carried 9 (omega arith))

abbrev answers : List (WriteAnswer ℕ)
answers = WriteAnswer.completed ∷ WriteAnswer.completed ∷ []

poll_ready-Readied_example :
    let (there, result) = poll_ready list_bytes list_write (buffered, answers) in
    Readied list_bytes list_write byte_encoder (byte_decoder.decode tt) writes two there.0 result
poll_ready-Readied_example =
    poll_ready-Readied ℕ list_bytes list_write byte_encoder (byte_decoder.decode tt) writes two
      buffered answers buffered-Sends

poll_flush-Flushed_example :
    let (there, result) = poll_flush list_bytes list_write 5 (buffered, answers) in
    Flushed list_bytes list_write byte_encoder (byte_decoder.decode tt) writes two there.0 result
poll_flush-Flushed_example =
    poll_flush-Flushed ℕ list_bytes list_write byte_encoder (byte_decoder.decode tt) writes two
      buffered answers buffered-Sends

poll_close-Closed_example :
    let (there, result) = poll_close list_bytes list_write 5 (buffered, answers) in
    Closed list_bytes list_write byte_encoder (byte_decoder.decode tt) writes two there.0 result
poll_close-Closed_example =
    poll_close-Closed ℕ list_bytes list_write byte_encoder (byte_decoder.decode tt) writes two
      buffered answers buffered-Sends

-- The peer reads the two frames in other pieces.
abbrev arrived : List (ReadAnswer ℕ)
arrived =
    ReadAnswer.got (1 ∷ 0 ∷ 0 ∷ 0 ∷ 0 ∷ [])
    ∷ ReadAnswer.got (0 ∷ 0 ∷ 0 ∷ 7 ∷ 1 ∷ 0 ∷ 0 ∷ 0 ∷ 0 ∷ 0 ∷ 0 ∷ 0 ∷ 8 ∷ [])
    ∷ []

buffered-flushed :
    let (there, result) = poll_flush list_bytes list_write 5 (buffered, answers) in
    (result ≡ returns (ready (Result.ok tt)))
    × (there.0.write_state ≡ Tokio.WriteState.idle (some (incoming arrived)))
unfolding poll_flush match_flush after_write write_out consume_all WriteState.consume_all
    WriteState.replace_buffer list_bytes
buffered-flushed = (refl, refl)

arrived-read :
    (w : List ℕ)
    → (poll_flush list_bytes list_write 5 (buffered, answers)).0.0.write_state
      ≡ Tokio.WriteState.idle (some w)
    → w ≡ incoming arrived
arrived-read w e = cc (e, buffered-flushed.1)

flushed-in_order_example :
    (later : List (Message ℕ)) × (two
      ≡ polls list_bytes byte_decoder 4 (new {Out = ℕ} list_bytes config tt tt, arrived) []
        ++ later)
flushed-in_order_example =
    flushed-in_order list_bytes list_write byte_encoder byte_decoder writes config ℕ two buffered
      answers arrived tt tt 4 buffered-Sends (omega arith) (omega arith) (omega arith)
      (three-Fits.0, (three-Fits.1.0, tt)) buffered-flushed.0 arrived-read (omega arith)
