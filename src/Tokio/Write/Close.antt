-- ===== src/Tokio/Write/Close.antt =====
-- `poll_close` of sansrpc-tokio/src/tcp.rs.
use sansrpc.Prelude.{ℕ, zero, suc, ◌≤◌, refl, return, inl, inr, none, some, List, Result, arith}
use sansrpc.Proto.Message.{Message}
use sansrpc.Proto.Encoder.{SansEncoder}
use sansrpc.Proto.Buffer.{BytesMut}
use sansrpc.Proto.WriteState.{WriteConnectionConfig}
use sansrpc.Proto.WriteState
use sansrpc.Proto.WriteState.Queue.{consume_all_lem}
use sansrpc.Proto.Connection.{consume_all}
use sansrpc.Poll.{SinkResult, WriteRound, ready, Call, returns, WriteAnswer, next_write, AsyncWrite}
use sansrpc.Tokio.{
  WriteFuture, writes_all, shuts_down, write_done, is_closed, TokioSansConnection, poll_write,
}
use sansrpc.Tokio
use sansrpc.Tokio.Write.{after_write, match_close, poll_close}
use sansrpc.Tokio.Write.Outcomes.{
  Holds, Closed, AfterRound, resume-AfterRound, rounds_left, rounds_left-bound, rounds_left-pos,
  shut-ClosesBehind,
}
use sansrpc.Tokio.Write.Rounds.{writing-AfterRound, idle-AfterRound}

module _ {In Out Encoder Decoder Reader Writer Buffer E F : Type 0} (X : Type 0)
    (bytes : BytesMut Buffer) (io : AsyncWrite Writer) (encoder : SansEncoder Encoder Out E)
    (decode : List ℕ → Result F (Message Out)) (config : WriteConnectionConfig Encoder)
    (accepted : List (Message Out)) where
  abbrev Good : TokioSansConnection In Out Encoder Decoder Reader Writer Buffer → Type 0
  Good = Holds bytes io encoder decode config accepted

  abbrev bound : TokioSansConnection In Out Encoder Decoder Reader Writer Buffer → ℕ
  bound = rounds_left bytes io encoder decode config accepted

  abbrev After :
      (TokioSansConnection In Out Encoder Decoder Reader Writer Buffer
        → Call (SinkResult X)
        → Type 0)
      → ℕ
      → WriteRound (TokioSansConnection In Out Encoder Decoder Reader Writer Buffer) X
      → Type 0
  After = AfterRound bytes io encoder decode config accepted

  abbrev IsClosed :
      TokioSansConnection In Out Encoder Decoder Reader Writer Buffer → Call (SinkResult X) → Type 0
  IsClosed = Closed bytes io encoder decode config accepted

  module _ (c : TokioSansConnection In Out Encoder Decoder Reader Writer Buffer)
      (answers : List (WriteAnswer X)) where
    -- The future of the shutdown is polled.
    shut-Closed :
        (n : ℕ) (fut : WriteFuture Writer)
        → Good (record c { write_state = Tokio.WriteState.closing fut })
        → (answer : WriteAnswer X) (rest : List (WriteAnswer X))
        → After IsClosed n (
            after_write Tokio.WriteState.closing
              (poll_write io fut answer)
              (λ _.
                return
                  (
                    record c {
                      write_state = Tokio.WriteState.closing (poll_write io fut answer).0;
                    },
                    rest,
                  )
                  (returns (ready (Result.ok tt))))
              c
              rest)
    unfolding after_write is_closed
    shut-Closed n (writes_all writer input) v answer rest = absurd v.live
    shut-Closed n write_done v answer rest = absurd v.live
    shut-Closed n (shuts_down writer) v WriteAnswer.not_ready rest =
        (v, shut-ClosesBehind bytes io encoder decode config accepted _ v)
    shut-Closed n (shuts_down writer) v (WriteAnswer.failed x) rest = inr refl
    shut-Closed n (shuts_down writer) v WriteAnswer.completed rest =
        (refl, v.closed refl, v.queue_empty)

    close-AfterRound :
        (ws : Tokio.WriteState Writer)
        → Good (record c { write_state = ws })
        → After IsClosed (bound (record c { write_state = ws })) (match_close bytes io ws c answers)
    unfolding match_close consume_all is_closed
    close-AfterRound (Tokio.WriteState.idle none) v = absurd v.live
    close-AfterRound (Tokio.WriteState.idle (some writer)) v =
        let (u, none_left) = consume_all_lem bytes c.state.write in
        idle-AfterRound bytes io encoder decode config accepted c IsClosed
          (λ c' w. (w, shut-ClosesBehind bytes io encoder decode config accepted c' w))
          (λ c' x failed. inl failed) writer (WriteState.consume_all bytes c.state.write) _ answers
          v u none_left
          (λ w. (
            record {
              live = tt;
              order = w.order;
              queue_empty = w.queue_empty;
              closed = λ shut. none_left;
            },
            rw none_left (omega arith),
          ))
    close-AfterRound (Tokio.WriteState.writing fut) v =
        writing-AfterRound bytes io encoder decode config accepted c IsClosed
          (λ c' w. (w, shut-ClosesBehind bytes io encoder decode config accepted c' w))
          (λ c' x failed. inl failed) fut v (next_write answers).0 (next_write answers).1
    close-AfterRound (Tokio.WriteState.closing fut) v =
        shut-Closed _ fut v (next_write answers).0 (next_write answers).1

  poll_close-Closed_within :
      (fuel : ℕ) (c : TokioSansConnection In Out Encoder Decoder Reader Writer Buffer)
      (answers : List (WriteAnswer X))
      → Good c
      → bound c ≤ fuel
      → let (there, result) = poll_close bytes io fuel (c, answers) in IsClosed there.0 result
  unfolding poll_close
  poll_close-Closed_within zero c answers v h =
      absurd (omega (arith, h, rounds_left-pos bytes io encoder decode config accepted c))
  poll_close-Closed_within (suc fuel) c answers v h =
      resume-AfterRound bytes io encoder decode config accepted IsClosed (poll_close bytes io fuel)
        (bound c) (match_close bytes io c.write_state c answers)
        (close-AfterRound c answers c.write_state v)
        (λ there w less. poll_close-Closed_within fuel there.0 there.1 w (omega arith))

  module _ (c : TokioSansConnection In Out Encoder Decoder Reader Writer Buffer)
      (answers : List (WriteAnswer X)) (v : Good c) where
    -- `poll_close` of a sink that holds its writer or a future that has not ended returns within five
    -- rounds, whatever the writer answers, and does not panic. The shutdown begins only when the
    -- writer has been given the frames of everything that was accepted, in order; when `poll_close`
    -- answers `Ok`, queue and send buffer are empty.
    pub poll_close-Closed :
        let (there, result) = poll_close bytes io 5 (c, answers) in
        Closed bytes io encoder decode config accepted there.0 result
    poll_close-Closed =
        poll_close-Closed_within 5 c answers v
          (rounds_left-bound bytes io encoder decode config accepted c)
