-- ===== src/Tokio/Write/Outcomes.antt =====
-- What `poll_ready`, `poll_flush` and `poll_close` of sansrpc-tokio/src/tcp.rs leave, by what they
-- return, and how many rounds they take.
use sansrpc.Prelude.{
  ℕ, ◌+◌, ◌≤◌, ◌<◌, ◌≡◌, sym, ap, ap₂, subst, ◌∙◌, ◌⊎◌, some, true, false, List, [], ◌++◌,
  append-nil, Result, arith, continue, return, resume, if◌then◌else◌,
}
use sansrpc.Proto.Message.{Message}
use sansrpc.Proto.Encoder.{SansEncoder}
use sansrpc.Proto.Buffer.{BytesMut}
use sansrpc.Proto.Wire.{wire}
use sansrpc.Proto.WriteState.{WriteConnectionConfig, is_empty}
use sansrpc.Proto.WriteState.Session.{Conserves}
use sansrpc.Poll.{
  SinkResult, WriteRound, pending, ready, Call, returns, connection_reset, transport, WriteAnswer,
  AsyncWrite,
}
use sansrpc.Tokio.{
  WriteFuture, writes_all, shuts_down, write_done, is_closed, TokioSansConnection, poll_write,
}
use sansrpc.Tokio
use sansrpc.Tokio.Write.{put_back}
use sansrpc.Tokio.Write.Sends.{promised, Sends}

-- How many rounds the state calls for.
abbrev stage : {Writer : Type 0} → Tokio.WriteState Writer → ℕ
stage (Tokio.WriteState.idle _) = 2
stage (Tokio.WriteState.writing _) = 3
stage (Tokio.WriteState.closing _) = 1

stage-bound : {Writer : Type 0} (ws : Tokio.WriteState Writer) → stage ws ≤ 3
stage-bound (Tokio.WriteState.idle _) = omega arith
stage-bound (Tokio.WriteState.writing _) = omega arith
stage-bound (Tokio.WriteState.closing _) = omega arith

stage-pos : {Writer : Type 0} (ws : Tokio.WriteState Writer) → 1 ≤ stage ws
stage-pos (Tokio.WriteState.idle _) = omega arith
stage-pos (Tokio.WriteState.writing _) = omega arith
stage-pos (Tokio.WriteState.closing _) = omega arith

module _ {In Out Encoder Decoder Reader Writer Buffer E F : Type 0} (bytes : BytesMut Buffer)
    (io : AsyncWrite Writer) (encoder : SansEncoder Encoder Out E)
    (decode : List ℕ → Result F (Message Out)) (config : WriteConnectionConfig Encoder)
    (accepted : List (Message Out)) where
  open bytes use {as_slice}
  open encoder use {encode}

  abbrev pub Holds : TokioSansConnection In Out Encoder Decoder Reader Writer Buffer → Type 0
  Holds = Sends bytes io encoder decode config accepted

  -- The writer is at hand, and has been given the frames of all that was accepted.
  abbrev pub AllSent : TokioSansConnection In Out Encoder Decoder Reader Writer Buffer → Type 0
  AllSent c =
      (writer : Writer) × (c.write_state ≡ Tokio.WriteState.idle (some writer))
      × (io.sent writer ≡ wire (encode config.coder) accepted)

  -- A closing sink holds a writer that has been given all of them.
  abbrev pub ClosesBehind : TokioSansConnection In Out Encoder Decoder Reader Writer Buffer → Type 0
  ClosesBehind c =
      (writer : Writer)
      → c.write_state ≡ Tokio.WriteState.closing (shuts_down writer)
      → io.sent writer ≡ wire (encode config.coder) accepted

  -- With nothing in the send buffer, all of the frames are promised.
  pub promised-eq_wire :
      (c : TokioSansConnection In Out Encoder Decoder Reader Writer Buffer)
      → Holds c
      → as_slice c.state.write.send_buffer ≡ []
      → promised io c.write_state ≡ wire (encode config.coder) accepted
  unfolding wire
  promised-eq_wire c v none_left =
      sym (append-nil (promised io c.write_state))
      ∙ ap (λ t. promised io c.write_state ++ t)
          (sym (ap₂ (λ a b. a ++ wire (encode config.coder) b) none_left v.queue_empty))
      ∙ v.order.stream

  pub shut-ClosesBehind :
      (c : TokioSansConnection In Out Encoder Decoder Reader Writer Buffer)
      → Holds c
      → ClosesBehind c
  unfolding is_closed
  shut-ClosesBehind c v writer e =
      sym (ap (promised io) e) ∙ promised-eq_wire c v (v.closed (ap is_closed e))

  abbrev pub buffered : TokioSansConnection In Out Encoder Decoder Reader Writer Buffer → ℕ
  buffered c = if is_empty (as_slice c.state.write.send_buffer) then 0 else 2

  abbrev pub rounds_left : TokioSansConnection In Out Encoder Decoder Reader Writer Buffer → ℕ
  rounds_left c = stage c.write_state + buffered c

  pub rounds_left-pos :
      (c : TokioSansConnection In Out Encoder Decoder Reader Writer Buffer) → 1 ≤ rounds_left c
  rounds_left-pos c = omega (arith, stage-pos c.write_state)

  pub rounds_left-bound :
      (c : TokioSansConnection In Out Encoder Decoder Reader Writer Buffer) → rounds_left c ≤ 5
  rounds_left-bound c = ground (arith, stage-bound c.write_state)

  pub written :
      (c : TokioSansConnection In Out Encoder Decoder Reader Writer Buffer) (writer : Writer)
      (input : List ℕ)
      → Holds (record c { write_state = Tokio.WriteState.writing (writes_all writer input) })
      → Holds (put_back c (io.write_all writer input))
  unfolding is_closed
  written c writer input v = record {
    live = tt;
    order =
        subst
          (λ t.
            Conserves bytes encoder decode config
              (record { writer = c.state.write; accepted = accepted; sent = t }))
          (sym (io.sent-write_all writer input)) v.order;
    queue_empty = v.queue_empty;
    closed = v.closed;
  }

  module _ {X : Type 0} where
    -- What `poll_ready`, `poll_flush` and `poll_close` leave, by what they return.
    abbrev pub Readied :
        TokioSansConnection In Out Encoder Decoder Reader Writer Buffer
        → Call (SinkResult X)
        → Type 0
    Readied c (returns pending) = Holds c
    Readied c (returns (ready (Result.ok _))) = Holds c × (is_closed c.write_state ≡ false)
    Readied c (returns (ready (Result.err (transport x)))) =
        c.write_state ≡ Tokio.WriteState.writing write_done
    Readied c _ = ⊥

    abbrev pub Flushed :
        TokioSansConnection In Out Encoder Decoder Reader Writer Buffer
        → Call (SinkResult X)
        → Type 0
    Flushed c (returns pending) = Holds c
    Flushed c (returns (ready (Result.ok _))) = Holds c × AllSent c
    Flushed c (returns (ready (Result.err connection_reset))) =
        Holds c × (is_closed c.write_state ≡ true)
    Flushed c (returns (ready (Result.err (transport x)))) =
        c.write_state ≡ Tokio.WriteState.writing write_done
    Flushed c _ = ⊥

    abbrev pub Closed :
        TokioSansConnection In Out Encoder Decoder Reader Writer Buffer
        → Call (SinkResult X)
        → Type 0
    Closed c (returns pending) = Holds c × ClosesBehind c
    Closed c (returns (ready (Result.ok _))) =
        (c.write_state ≡ Tokio.WriteState.closing write_done)
        × (as_slice c.state.write.send_buffer ≡ [])
        × (c.state.write.send_queue ≡ [])
    Closed c (returns (ready (Result.err (transport x)))) =
        (c.write_state ≡ Tokio.WriteState.writing write_done)
        ⊎ (c.write_state ≡ Tokio.WriteState.closing write_done)
    Closed c _ = ⊥

    -- A round returns what `P` asks for, or goes on with fewer than `bound` rounds to come.
    abbrev pub AfterRound :
        (TokioSansConnection In Out Encoder Decoder Reader Writer Buffer
          → Call (SinkResult X)
          → Type 0)
        → ℕ
        → WriteRound (TokioSansConnection In Out Encoder Decoder Reader Writer Buffer) X
        → Type 0
    AfterRound P bound (continue (c, _)) = Holds c × (rounds_left c < bound)
    AfterRound P bound (return (c, _) result) = P c result

    pub resume-AfterRound :
        (P : TokioSansConnection In Out Encoder Decoder Reader Writer Buffer
          → Call (SinkResult X)
          → Type 0)
        (next : TokioSansConnection In Out Encoder Decoder Reader Writer Buffer
            × List (WriteAnswer X)
          → (TokioSansConnection In Out Encoder Decoder Reader Writer Buffer × List (WriteAnswer X))
            × Call (SinkResult X))
        (bound : ℕ)
        (r : WriteRound (TokioSansConnection In Out Encoder Decoder Reader Writer Buffer) X)
        → AfterRound P bound r
        → ((there : TokioSansConnection In Out Encoder Decoder Reader Writer Buffer
              × List (WriteAnswer X))
            → Holds there.0
            → rounds_left there.0 < bound
            → P (next there).0.0 (next there).1)
        → P (resume next r).0.0 (resume next r).1
    resume-AfterRound P next bound (continue there) a k = k there a.0 a.1
    resume-AfterRound P next bound (return there result) a k = a
