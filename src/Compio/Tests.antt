-- ===== src/Compio/Tests.antt =====
-- Runs of sansrpc-compio on a small coder, and the theorems at concrete inputs.
use sansrpc.Prelude.{ℕ, suc, ◌≡◌, refl, inr, some, List, [], ◌∷◌, arith, replicate, slice, Result}
use sansrpc.Proto.Words.{to_le_bytes, from_le_bytes}
use sansrpc.Proto.Buffer.{list_bytes}
use sansrpc.Proto.Frames.{frame}
use sansrpc.Proto.Wire.{wire, message_frame}
use sansrpc.Proto.ByteCoder.{
  ping, byte_encoder, byte_decoder, reads, writes, three, three-Carried, three-Fits,
}
use sansrpc.Proto.ReadState as ReadHalf
use sansrpc.Proto.Connection
use sansrpc.Poll.{ready, returns, ReadAnswer}
use sansrpc.Compio.{ReadState, CompioSansReadConnection, CompioSansConnection, new, into_split}
use sansrpc.Compio.Read.{
  poll_next, poll_next_round, after_read, after_process, match_read_state, start_read, after_poll,
  after_feed,
}
use sansrpc.Compio.Joined
use sansrpc.Compio.Joined.SplitLaw.{joined_result, poll_next-into_split}
use sansrpc.Compio.Read.Delivery.{Receives, Polled, rounds_left, poll_next-Receives}
use sansrpc.Compio.Read.Loss.{IsFull, poll_next-drops}

abbrev Connected : Type 0
Connected = CompioSansReadConnection ℕ (Unit {0}) (Unit {0}) (List ℕ)

-- Three frames of nine bytes, in pieces.
abbrev pieces : List (ReadAnswer ℕ)
pieces =
    ReadAnswer.got (1 ∷ 0 ∷ 0 ∷ 0 ∷ 0 ∷ 0 ∷ 0 ∷ 0 ∷ 7 ∷ 1 ∷ [])
    ∷ ReadAnswer.got (0 ∷ 0 ∷ 0 ∷ 0 ∷ 0 ∷ 0 ∷ 0 ∷ 8 ∷ 1 ∷ 0 ∷ 0 ∷ 0 ∷ [])
    ∷ ReadAnswer.not_ready
    ∷ ReadAnswer.got (0 ∷ 0 ∷ 0 ∷ 0 ∷ 9 ∷ [])
    ∷ ReadAnswer.got []
    ∷ []

abbrev joined : CompioSansConnection ℕ ℕ (Unit {0}) (Unit {0}) (Unit {0}) (Unit {0}) (List ℕ)
joined = new list_bytes (record { read_config = reads; write_config = writes }) tt tt

abbrev opened : Connected
opened = (into_split joined).1

-- The first poll yields the first message.
first_item :
    (poll_next {X = ℕ} list_bytes byte_decoder 4 (opened, pieces)).1
    ≡ returns (ready (some (Result.ok (ping 7))))
unfolding poll_next poll_next_round after_read after_process match_read_state start_read after_poll
    after_feed new into_split Connection.new Connection.into_split ReadHalf.new ReadHalf.process
    ReadHalf.process_round ReadHalf.consume_item ReadHalf.feed_bytes list_bytes from_le_bytes slice
first_item = refl

opened-Receives :
    Receives list_bytes byte_decoder (byte_encoder.encode tt) reads three [] (opened, pieces)
unfolding new into_split Connection.new Connection.into_split ReadHalf.new list_bytes wire
    message_frame frame to_le_bytes
opened-Receives = record {
  live = tt;
  order = record {
    todo = three;
    order = refl;
    behind = refl;
    carried = three-Carried;
    same_config = refl;
  };
}

poll_next-Receives_example :
    let (there, result) =
      poll_next list_bytes byte_decoder (suc (rounds_left (opened, pieces))) (opened, pieces) in
    Polled list_bytes byte_decoder (byte_encoder.encode tt) reads three [] there result
poll_next-Receives_example =
    poll_next-Receives list_bytes byte_decoder (byte_encoder.encode tt) reads three (omega arith)
      (omega arith) three-Fits [] (opened, pieces) opened-Receives

-- The header of a frame of 108 bytes and the eight bytes behind it fill the receive buffer, and three
-- more bytes have been read.
abbrev full : List ℕ → Connected
full input = record {
  connection_state = record {
    recv_queue = [];
    recv_buffer = 100 ∷ 0 ∷ 0 ∷ 0 ∷ 0 ∷ 0 ∷ 0 ∷ 0 ∷ replicate 8 1;
    config = reads;
  };
  read_state = ReadState.idle (some (tt, input));
}

full-IsFull : IsFull list_bytes (full (1 ∷ 2 ∷ 3 ∷ [])) tt 1 (2 ∷ 3 ∷ [])
unfolding list_bytes from_le_bytes
full-IsFull = record {
  waiting = refl;
  queue_empty = refl;
  queue_room = omega arith;
  partial = inr (omega arith, omega arith);
  full = omega arith;
  words = omega arith;
}

poll_next-drops_example :
    poll_next list_bytes byte_decoder 6 (full (1 ∷ 2 ∷ 3 ∷ []), pieces)
    ≡ poll_next list_bytes byte_decoder 5 (full [], pieces)
poll_next-drops_example =
    poll_next-drops list_bytes byte_decoder (full (1 ∷ 2 ∷ 3 ∷ [])) pieces tt 1 (2 ∷ 3 ∷ [])
      full-IsFull 5

poll_next-into_split_example :
    Joined.poll_next list_bytes byte_decoder 4 (joined, pieces)
    ≡ joined_result joined (poll_next list_bytes byte_decoder 4 (opened, pieces))
poll_next-into_split_example = poll_next-into_split joined list_bytes byte_decoder 4 pieces
