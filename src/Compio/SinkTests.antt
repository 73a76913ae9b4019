-- ===== src/Compio/SinkTests.antt =====
-- Runs of the sinks of sansrpc-compio on a small coder, and their theorems at concrete inputs.
use sansrpc.Prelude.{ℕ, ◌≡◌, refl, some, List, [], ◌∷◌, ◌++◌, arith, Result}
use sansrpc.Proto.Buffer.{list_bytes}
use sansrpc.Proto.Words.{to_le_bytes}
use sansrpc.Proto.Frames.{frame}
use sansrpc.Proto.Wire.{wire, message_frame}
use sansrpc.Proto.ByteCoder.{ping, byte_encoder, byte_decoder, reads, writes, ping-Carried}
use sansrpc.Proto.WriteState as WriteHalf
use sansrpc.Poll.{ready, returns, WriteAnswer, AsyncWrite}
use sansrpc.Tokio
use sansrpc.Tokio.{TokioSansConnection}
use sansrpc.Tokio.Write as TokioSink
use sansrpc.Tokio.Write.Sends.{Sends}
use sansrpc.Tokio.Write.Outcomes.{Flushed}
use sansrpc.Compio.{
  WriteState, ReadState, writes_all, CompioSansConnection, CompioSansWriteConnection, into_split,
}
use sansrpc.Compio.Write as Sink
use sansrpc.Compio.Write.TokioLaw.{as_tokio, embedded}
use sansrpc.Compio.Write.Sends.{sink-as_tokio, flush-Flushed}
use sansrpc.Compio.Joined.Sink as JoinedSink
use sansrpc.Compio.Joined.SinkLaw.{joined_result}
use sansrpc.Compio.Joined.SplitSink.{joined_send, sink-into_split}

-- A writer that is the list of its bytes.
abbrev list_write : AsyncWrite (List ℕ)
list_write = record {
  write_all = λ writer input. writer ++ input;
  flush = λ writer. writer;
  shutdown = λ writer. writer;
  sent = λ writer. writer;
  sent-write_all = λ writer input. refl;
  sent-flush = λ writer. refl;
  sent-shutdown = λ writer. refl;
}

abbrev served : TokioSansConnection ℕ ℕ (Unit {0}) (Unit {0}) (Unit {0}) (List ℕ) (List ℕ)
served = record {
  state = record {
    read = record { recv_queue = []; recv_buffer = []; config = reads };
    write = record { send_queue = []; send_buffer = []; config = writes };
  };
  read_state = Tokio.ReadState.idle (some (tt, [], 0));
  write_state = Tokio.WriteState.idle (some []);
}

abbrev frame_of : ℕ → List ℕ
frame_of n = 1 ∷ 0 ∷ 0 ∷ 0 ∷ 0 ∷ 0 ∷ 0 ∷ 0 ∷ n ∷ []

-- A frame waits in the send buffer; another one is being written.
abbrev joined : CompioSansConnection ℕ ℕ (Unit {0}) (Unit {0}) (Unit {0}) (List ℕ) (List ℕ)
joined = record {
  connection_state = record {
    read = record { recv_queue = []; recv_buffer = []; config = reads };
    write = record { send_queue = []; send_buffer = frame_of 8; config = writes };
  };
  read_state = ReadState.idle (some (tt, []));
  write_state = WriteState.writing (writes_all [] (frame_of 7));
}

abbrev half : CompioSansWriteConnection ℕ (Unit {0}) (List ℕ) (List ℕ)
half = record { connection_state = joined.connection_state.write; write_state = joined.write_state }

abbrev answers : List (WriteAnswer ℕ)
answers = WriteAnswer.completed ∷ WriteAnswer.completed ∷ []

half_flushed : Sink.poll_flush list_bytes list_write byte_encoder 5 (half, answers) ≡ (
  (
    record half {
      connection_state = record half.connection_state { send_buffer = [] };
      write_state = WriteState.idle (some (frame_of 7 ++ frame_of 8));
    },
    [],
  ),
  returns (ready (Result.ok tt)),
)
unfolding Sink.poll_flush Sink.match_flush Sink.after_process Sink.after_write Sink.write_out
    WriteHalf.consume_all WriteHalf.replace_buffer WriteHalf.write_queue_empty list_bytes
half_flushed = refl

sink-as_tokio_example :
    (TokioSink.start_send {X = ℕ} list_bytes byte_encoder (as_tokio served half) (ping 9) ≡ (
      let (c, result) = Sink.start_send list_bytes byte_encoder half (ping 9) in
      (as_tokio served c, result)))
    × (TokioSink.poll_flush list_bytes list_write 5 (as_tokio served half, answers)
        ≡ embedded served (Sink.poll_flush list_bytes list_write byte_encoder 5 (half, answers)))
    × (TokioSink.poll_close list_bytes list_write 5 (as_tokio served half, answers)
        ≡ embedded served (Sink.poll_close list_bytes list_write 5 (half, answers)))
sink-as_tokio_example =
    sink-as_tokio served list_bytes byte_encoder list_write half 5 (ping 9) answers refl
      (omega arith)

half-Sends :
    Sends list_bytes list_write byte_encoder
      (byte_decoder.decode tt)
      writes
      (ping 7 ∷ ping 8 ∷ [])
      (as_tokio served half)
unfolding list_bytes wire message_frame frame to_le_bytes Tokio.is_closed
half-Sends = record {
  live = tt;
  order = record {
    stream = refl;
    carried = tt;
    all_carried = (ping-Carried 7 (omega arith), (ping-Carried 8 (omega arith), tt));
    same_config = refl;
  };
  queue_empty = refl;
  closed = λ shut. cc shut;
}

flush-Flushed_example :
    let (there, result) = Sink.poll_flush list_bytes list_write byte_encoder 5 (half, answers) in
    Flushed list_bytes list_write byte_encoder
      (byte_decoder.decode tt)
      writes
      (ping 7 ∷ ping 8 ∷ [])
      (as_tokio served there.0)
      result
flush-Flushed_example =
    flush-Flushed served list_bytes byte_encoder ℕ list_write (byte_decoder.decode tt) writes
      (ping 7 ∷ ping 8 ∷ []) half answers half-Sends

sink-into_split_example :
    (JoinedSink.poll_ready list_write (joined, answers)
      ≡ joined_result joined (Sink.poll_ready list_write ((into_split joined).0, answers)))
    × (JoinedSink.start_send list_bytes byte_encoder joined (ping 9)
        ≡ joined_send ℕ list_bytes byte_encoder joined
            (Sink.start_send list_bytes byte_encoder (into_split joined).0 (ping 9)))
    × (JoinedSink.poll_flush list_bytes list_write byte_encoder 5 (joined, answers)
        ≡ joined_result joined
            (Sink.poll_flush list_bytes list_write byte_encoder 5 ((into_split joined).0, answers)))
    × (JoinedSink.poll_close list_bytes list_write 5 (joined, answers)
        ≡ joined_result joined
            (Sink.poll_close list_bytes list_write 5 ((into_split joined).0, answers)))
sink-into_split_example =
    sink-into_split ℕ list_bytes byte_encoder joined list_write 5 (ping 9) answers
