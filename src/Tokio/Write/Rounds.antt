-- ===== src/Tokio/Write/Rounds.antt =====
-- The rounds that `poll_flush` and `poll_close` of sansrpc-tokio/src/tcp.rs share: the send buffer is
-- consumed, and the future of a write is polled.
use sansrpc.Prelude.{
  ℕ, ◌+◌, ◌≡◌, ◌≢◌, refl, subst, ◌∙◌, inl, inr, Option, none, some, Bool-cases, List, [],
  append-nil, Result, arith, continue,
}
use sansrpc.Proto.Message.{Message}
use sansrpc.Proto.Encoder.{SansEncoder}
use sansrpc.Proto.Buffer.{BytesMut}
use sansrpc.Proto.WriteState.{ConnectionWriteState, WriteConnectionConfig, is_empty}
use sansrpc.Proto.WriteState.Queue.{Consumed, is_empty→eq}
use sansrpc.Proto.WriteState.Session.{WriteSession, send_bytes, Conserves, sends-Conserves}
use sansrpc.Proto.Connection.{on_write}
use sansrpc.Poll.{
  SinkResult, WriteRound, pending, ready, Call, returns, transport, WriteAnswer, AsyncWrite,
}
use sansrpc.Tokio.{
  WriteFuture, writes_all, shuts_down, write_done, is_closed, TokioSansConnection, poll_write,
}
use sansrpc.Tokio
use sansrpc.Tokio.Write.{put_back, after_write, write_out}
use sansrpc.Tokio.Write.Outcomes.{Holds, buffered, AfterRound, written}

some-≢-none : {A : Type 0} {a : A} → some a ≢ none
some-≢-none = λ e. cc e

module _ {In Out Encoder Decoder Reader Writer Buffer E F : Type 0} (bytes : BytesMut Buffer)
    (io : AsyncWrite Writer) (encoder : SansEncoder Encoder Out E)
    (decode : List ℕ → Result F (Message Out)) (config : WriteConnectionConfig Encoder)
    (accepted : List (Message Out)) where
  open bytes use {as_slice}
  open encoder use {encode}

  abbrev Good : TokioSansConnection In Out Encoder Decoder Reader Writer Buffer → Type 0
  Good = Holds bytes io encoder decode config accepted

  abbrev room : TokioSansConnection In Out Encoder Decoder Reader Writer Buffer → ℕ
  room = buffered bytes io encoder decode config accepted

  module _ {X : Type 0} where
    abbrev After :
        (TokioSansConnection In Out Encoder Decoder Reader Writer Buffer
          → Call (SinkResult X)
          → Type 0)
        → ℕ
        → WriteRound (TokioSansConnection In Out Encoder Decoder Reader Writer Buffer) X
        → Type 0
    After = AfterRound bytes io encoder decode config accepted

    module _ (c : TokioSansConnection In Out Encoder Decoder Reader Writer Buffer)
        (P : TokioSansConnection In Out Encoder Decoder Reader Writer Buffer
          → Call (SinkResult X)
          → Type 0)
        (waits : (c' : TokioSansConnection In Out Encoder Decoder Reader Writer Buffer)
          → Good c'
          → P c' (returns pending))
        (fails : (c' : TokioSansConnection In Out Encoder Decoder Reader Writer Buffer) (x : X)
          → c'.write_state ≡ Tokio.WriteState.writing write_done
          → P c' (returns (ready (Result.err (transport x))))) where
      -- The future of a write is polled.
      pub writing-AfterRound :
          (fut : WriteFuture Writer)
          → Good (record c { write_state = Tokio.WriteState.writing fut })
          → (answer : WriteAnswer X) (rest : List (WriteAnswer X))
          → After P (3 + room c) (
              after_write Tokio.WriteState.writing
                (poll_write io fut answer)
                (λ writer. continue (put_back c writer, rest))
                c
                rest)
      unfolding after_write is_closed
      writing-AfterRound (shuts_down writer) v answer rest = absurd v.live
      writing-AfterRound write_done v answer rest = absurd v.live
      writing-AfterRound (writes_all writer input) v WriteAnswer.not_ready rest = waits _ v
      writing-AfterRound (writes_all writer input) v (WriteAnswer.failed x) rest = fails _ x refl
      writing-AfterRound (writes_all writer input) v WriteAnswer.completed rest =
          (written bytes io encoder decode config accepted c writer input v, omega arith)

      abbrev idle_view : Writer → WriteSession Out Encoder Buffer
      idle_view writer = record {
        writer = c.state.write;
        accepted = accepted;
        sent = io.sent writer;
      }

      buffered-two :
          (t : ConnectionWriteState Out Encoder Buffer) (input : List ℕ)
          → Consumed bytes c.state.write t (some input)
          → room c ≡ 2
      buffered-two t input u = elim (Bool-cases (is_empty (as_slice c.state.write.send_buffer))) [
        | inl e ↦ absurd (some-≢-none (u.none_iff.1 (is_empty→eq _ e)))
        | inr e ↦ rw e refl
      ]

      -- The send buffer is consumed, and written if it holds anything.
      pub idle-AfterRound :
          (writer : Writer) (q : ConnectionWriteState Out Encoder Buffer × Option (List ℕ))
          (empty : TokioSansConnection In Out Encoder Decoder Reader Writer Buffer
            → WriteRound (TokioSansConnection In Out Encoder Decoder Reader Writer Buffer) X)
          (answers : List (WriteAnswer X))
          → Good (record c { write_state = Tokio.WriteState.idle (some writer) })
          → Consumed bytes c.state.write q.0 q.1
          → as_slice q.0.send_buffer ≡ []
          → (Good (record c {
            state = record c.state { write = q.0 };
            write_state = Tokio.WriteState.idle (some writer);
          })
              → After P (2 + room c) (empty (record c { state = record c.state { write = q.0 } })))
          → After P (2 + room c) (write_out writer (on_write c.state q) empty c answers)
      unfolding write_out is_closed send_bytes
      idle-AfterRound writer (t, none) empty answers v u e k = k (record {
        live = tt;
        order =
            subst
              (λ s.
                Conserves bytes encoder decode config
                  (record { writer = t; accepted = accepted; sent = s }))
              (append-nil (io.sent writer))
              (sends-Conserves bytes encoder decode config (idle_view writer) v.order t none u);
        queue_empty = u.same_queue ∙ v.queue_empty;
        closed = λ shut. e;
      })
      idle-AfterRound writer (t, some input) empty answers v u e k = (
        record {
          live = tt;
          order =
              sends-Conserves bytes encoder decode config (idle_view writer) v.order t (some input)
                u;
          queue_empty = u.same_queue ∙ v.queue_empty;
          closed = λ shut. e;
        },
        rw (e, buffered-two t input u) (omega arith),
      )
