-- ===== src/Tokio/Write/Flush.antt =====
-- `poll_ready` and `poll_flush` of sansrpc-tokio/src/tcp.rs.
use sansrpc.Prelude.{
  ℕ, zero, suc, ◌≤◌, ◌≡◌, refl, sym, subst, true, false, return, none, some, List, Result, arith,
}
use sansrpc.Proto.Message.{Message}
use sansrpc.Proto.Encoder.{SansEncoder}
use sansrpc.Proto.Buffer.{BytesMut}
use sansrpc.Proto.WriteState.{WriteConnectionConfig}
use sansrpc.Proto.WriteState
use sansrpc.Proto.WriteState.Queue.{consume_all_lem}
use sansrpc.Proto.Connection.{consume_all}
use sansrpc.Poll.{
  SinkResult, WriteRound, ready, spins, Call, returns, WriteAnswer, next_write, AsyncWrite,
}
use sansrpc.Tokio.{
  WriteFuture, writes_all, shuts_down, write_done, is_closed, TokioSansConnection, poll_write,
}
use sansrpc.Tokio
use sansrpc.Tokio.Write.{put_back, after_write, match_ready, poll_ready, match_flush, poll_flush}
use sansrpc.Tokio.Write.Outcomes.{
  Holds, Readied, Flushed, AfterRound, resume-AfterRound, rounds_left, rounds_left-bound,
  rounds_left-pos, promised-eq_wire, written,
}
use sansrpc.Tokio.Write.Rounds.{writing-AfterRound, idle-AfterRound}

module _ {In Out Encoder Decoder Reader Writer Buffer E F : Type 0} (X : Type 0)
    (bytes : BytesMut Buffer) (io : AsyncWrite Writer) (encoder : SansEncoder Encoder Out E)
    (decode : List ℕ → Result F (Message Out)) (config : WriteConnectionConfig Encoder)
    (accepted : List (Message Out)) where
  abbrev Good : TokioSansConnection In Out Encoder Decoder Reader Writer Buffer → Type 0
  Good = Holds bytes io encoder decode config accepted

  abbrev bound : TokioSansConnection In Out Encoder Decoder Reader Writer Buffer → ℕ
  bound = rounds_left bytes io encoder decode config accepted

  abbrev After :
      (TokioSansConnection In Out Encoder Decoder Reader Writer Buffer
        → Call (SinkResult X)
        → Type 0)
      → ℕ
      → WriteRound (TokioSansConnection In Out Encoder Decoder Reader Writer Buffer) X
      → Type 0
  After = AfterRound bytes io encoder decode config accepted

  abbrev IsReadied :
      TokioSansConnection In Out Encoder Decoder Reader Writer Buffer → Call (SinkResult X) → Type 0
  IsReadied = Readied bytes io encoder decode config accepted

  abbrev IsFlushed :
      TokioSansConnection In Out Encoder Decoder Reader Writer Buffer → Call (SinkResult X) → Type 0
  IsFlushed = Flushed bytes io encoder decode config accepted

  module _ (c : TokioSansConnection In Out Encoder Decoder Reader Writer Buffer)
      (answers : List (WriteAnswer X)) where
    written-Readied :
        (fut : WriteFuture Writer)
        → Good (record c { write_state = Tokio.WriteState.writing fut })
        → (answer : WriteAnswer X) (rest : List (WriteAnswer X))
        → After IsReadied 0 (
            after_write Tokio.WriteState.writing
              (poll_write io fut answer)
              (λ writer. return (put_back c writer, rest) (returns (ready (Result.ok tt))))
              c
              rest)
    unfolding after_write is_closed
    written-Readied (shuts_down writer) v answer rest = absurd v.live
    written-Readied write_done v answer rest = absurd v.live
    written-Readied (writes_all writer input) v WriteAnswer.not_ready rest = v
    written-Readied (writes_all writer input) v (WriteAnswer.failed x) rest = refl
    written-Readied (writes_all writer input) v WriteAnswer.completed rest =
        (written bytes io encoder decode config accepted c writer input v, refl)

    ready-Readied :
        (ws : Tokio.WriteState Writer)
        → Good (record c { write_state = ws })
        → c.write_state ≡ ws
        → After IsReadied 0 (match_ready bytes io ws c answers)
    unfolding match_ready is_closed
    ready-Readied (Tokio.WriteState.idle writer) v e =
        subst (λ t. Good (record c { write_state = t }) × (is_closed t ≡ false)) (sym e) (v, refl)
    ready-Readied (Tokio.WriteState.writing fut) v e =
        written-Readied fut v (next_write answers).0 (next_write answers).1
    ready-Readied (Tokio.WriteState.closing fut) v e =
        subst (λ t. Good (record c { write_state = t })) (sym e) v

    flush-AfterRound :
        (ws : Tokio.WriteState Writer)
        → Good (record c { write_state = ws })
        → c.write_state ≡ ws
        → After IsFlushed
            (bound (record c { write_state = ws }))
            (match_flush bytes io ws c answers)
    unfolding match_flush is_closed consume_all
    flush-AfterRound (Tokio.WriteState.idle none) v e = absurd v.live
    flush-AfterRound (Tokio.WriteState.idle (some writer)) v e =
        let (u, none_left) = consume_all_lem bytes c.state.write in
        idle-AfterRound bytes io encoder decode config accepted c IsFlushed (λ c' w. w)
          (λ c' x failed. failed) writer (WriteState.consume_all bytes c.state.write) _ answers v u
          none_left
          (λ w. (
            w,
            (writer, refl, promised-eq_wire bytes io encoder decode config accepted _ w none_left),
          ))
    flush-AfterRound (Tokio.WriteState.writing fut) v e =
        writing-AfterRound bytes io encoder decode config accepted c IsFlushed (λ c' w. w)
          (λ c' x failed. failed) fut v (next_write answers).0 (next_write answers).1
    flush-AfterRound (Tokio.WriteState.closing fut) v e =
        subst (λ t. Good (record c { write_state = t }) × (is_closed t ≡ true)) (sym e) (v, refl)

  poll_flush-Flushed_within :
      (fuel : ℕ) (c : TokioSansConnection In Out Encoder Decoder Reader Writer Buffer)
      (answers : List (WriteAnswer X))
      → Good c
      → bound c ≤ fuel
      → let (there, result) = poll_flush bytes io fuel (c, answers) in IsFlushed there.0 result
  unfolding poll_flush
  poll_flush-Flushed_within zero c answers v h =
      absurd (omega (arith, h, rounds_left-pos bytes io encoder decode config accepted c))
  poll_flush-Flushed_within (suc fuel) c answers v h =
      resume-AfterRound bytes io encoder decode config accepted IsFlushed (poll_flush bytes io fuel)
        (bound c) (match_flush bytes io c.write_state c answers)
        (flush-AfterRound c answers c.write_state v refl)
        (λ there w less. poll_flush-Flushed_within fuel there.0 there.1 w (omega arith))

  module _ (c : TokioSansConnection In Out Encoder Decoder Reader Writer Buffer)
      (answers : List (WriteAnswer X)) (v : Good c) where
    -- `poll_ready` of a sink that holds its writer or a future that has not ended does not panic. It
    -- keeps what was accepted, unless the writer fails; it answers `Ok` only if the sink is not
    -- closing.
    pub poll_ready-Readied :
        let (there, result) = poll_ready bytes io (c, answers) in
        Readied bytes io encoder decode config accepted there.0 result
    unfolding poll_ready
    poll_ready-Readied =
        resume-AfterRound bytes io encoder decode config accepted IsReadied (λ here. (here, spins))
          0 (match_ready bytes io c.write_state c answers)
          (ready-Readied c answers c.write_state v refl) (λ there w less. absurd (omega arith))

    -- `poll_flush` of a sink that holds its writer or a future that has not ended returns within five
    -- rounds, whatever the writer answers, and does not panic. When it answers `Ok`, the writer has
    -- been given the frames of everything that was accepted, in order; `Pending` keeps what was
    -- accepted; `ConnectionReset` comes only from a closing sink.
    pub poll_flush-Flushed :
        let (there, result) = poll_flush bytes io 5 (c, answers) in
        Flushed bytes io encoder decode config accepted there.0 result
    poll_flush-Flushed =
        poll_flush-Flushed_within 5 c answers v
          (rounds_left-bound bytes io encoder decode config accepted c)
