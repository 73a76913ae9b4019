-- ===== src/Service/Once.antt =====
-- A request in sansrpc-service/src/sans_service.rs is answered once at most.
use mathlib.Core.List.Memᴰ
use mathlib.Core.List.{Memᴰ}
use sansrpc.Prelude.{
  ℕ, ◌≡◌, sym, ap, ◌∙◌, subst, inl, inr, some, List, [], ◌∷◌, ◌++◌, append-nil, append_assoc,
}
use sansrpc.Proto.Message.{Message, Response}
use sansrpc.Service.Channels.{insert, remove, to_stream, to_response, Channels, MessageSink}
use sansrpc.Service.Sans.{SansService, new}
use sansrpc.Service.Session.{Act, requested, requested_by, opened_by, read_by, perform, run}
use sansrpc.Service.Effects.{Effect, quiet, answers, feeds, closes, waits, listens, perform-Effect}
use sansrpc.Service.Correlation.{IsAmong, IsAmong-more, IsAmong-insert, IsAmong-remove}
use sansrpc.Service.Distinct.{
  IsDistinct, IsDistinct-fresh, IsDistinct-snoc, IsSingle, IsSingle-insert, IsSingle-remove,
  answered, answered-append, insert-cases, mem-senders, remove-ne, senders, senders-append,
}

module _ {In Out K R Writer World StreamTx ResponseTx X : Type 0}
    (channels : Channels World In StreamTx ResponseTx) (sink : MessageSink Writer Out X) where
  open channels use {given}

  -- No request that waits has been answered, and none that has been answered twice.
  pub record Once (requests : List (ℕ × ResponseTx))
      (here : SansService In Out K R Writer StreamTx ResponseTx × World) : Type 0 where
    pub waiting : IsAmong here.0.incoming_responses requests
    pub single : IsSingle here.0.incoming_responses
    pub unanswered :
        (i : ℕ) (tx : ResponseTx)
        → here.0.incoming_responses i ≡ some tx
        → ¬ Memᴰ tx (answered (given here.1))
    pub asked : (tx : ResponseTx) → Memᴰ tx (answered (given here.1)) → Memᴰ tx (senders requests)
    pub once : IsDistinct (answered (given here.1))

  module _ (requests more : List (ℕ × ResponseTx)) (opens : List (ℕ × StreamTx))
      (here there : SansService In Out K R Writer StreamTx ResponseTx × World)
      (o : Once requests here) where
    known : (tx : ResponseTx) → Memᴰ tx (senders requests) → Memᴰ tx (senders (requests ++ more))
    known tx m = rw (senders-append requests more) (Memᴰ.append_left (senders more) m)

    unchanged :
        there.0.incoming_responses ≡ here.0.incoming_responses
        → answered (given there.1) ≡ answered (given here.1)
        → Once (requests ++ more) there
    unchanged rs g = record {
      waiting = rw rs (IsAmong-more here.0.incoming_responses requests more o.waiting);
      single = rw rs o.single;
      unanswered = rw (rs, g) o.unanswered;
      asked = rw g (λ tx m. known tx (o.asked tx m));
      once = rw g o.once;
    }

    answers-Once :
        (r : Response In) (tx : ResponseTx)
        → here.0.incoming_responses r.request_id ≡ some tx
        → there.0.incoming_responses ≡ remove r.request_id here.0.incoming_responses
        → answered (given there.1) ≡ answered (given here.1) ++ tx ∷ []
        → Once (requests ++ more) there
    answers-Once r tx w rs g = record {
      waiting = rw rs (
          IsAmong-remove here.0.incoming_responses (requests ++ more) r.request_id
            (IsAmong-more here.0.incoming_responses requests more o.waiting));
      single = rw rs (IsSingle-remove here.0.incoming_responses r.request_id o.single);
      unanswered =
          rw (rs, g)
            (λ i tx' e m.
              let (found, other) =
                remove-ne here.0.incoming_responses r.request_id i tx tx' o.single w e in
              elim (Memᴰ.append_cases (answered (given here.1)) m) [
                | inl before ↦ o.unanswered i tx' found before
                | inr last ↦ other (Memᴰ.eq_of_singleton last)
              ]);
      asked = rw g (λ tx' m. elim (Memᴰ.append_cases (answered (given here.1)) m) [
        | inl before ↦ known tx' (o.asked tx' before)
        | inr last ↦ known tx' (
            Memᴰ.cast (Memᴰ.eq_of_singleton last)
              (mem-senders r.request_id tx requests (o.waiting r.request_id tx w)))
      ]);
      once =
          rw g
            (IsDistinct-snoc (answered (given here.1)) tx o.once (o.unanswered r.request_id tx w));
    }

    waits-Once :
        (k : ℕ) (tx : ResponseTx)
        → more ≡ (k, tx) ∷ []
        → ¬ Memᴰ tx (senders requests)
        → there.0.incoming_responses ≡ insert k tx here.0.incoming_responses
        → answered (given there.1) ≡ answered (given here.1)
        → Once (requests ++ more) there
    waits-Once k tx q fresh rs g = record {
      waiting = rw (rs, q) (IsAmong-insert here.0.incoming_responses requests k tx o.waiting);
      single = rw rs (
          IsSingle-insert here.0.incoming_responses k tx o.single
            (λ i e. fresh (mem-senders i tx requests (o.waiting i tx e))));
      unanswered =
          rw (rs, g)
            (λ i tx' e. elim (insert-cases here.0.incoming_responses k i tx tx' e) [
              | inl same ↦ λ m. fresh (Memᴰ.cast (sym same) (o.asked tx' m))
              | inr before ↦ o.unanswered i tx' before
            ]);
      asked = rw g (λ tx' m. known tx' (o.asked tx' m));
      once = rw g o.once;
    }

    Effect-Once :
        (arrived : List (Message In))
        → ((k : ℕ) (tx : ResponseTx) → more ≡ (k, tx) ∷ [] → ¬ Memᴰ tx (senders requests))
        → Effect channels sink more opens arrived here there
        → Once (requests ++ more) there
    Effect-Once arrived fresh (quiet rs ss g) = unchanged rs (ap answered g)
    Effect-Once arrived fresh (answers r tx p w rs ss g) =
        answers-Once r tx w rs
          (ap answered g ∙ answered-append (given here.1) (to_response tx r ∷ []))
    Effect-Once arrived fresh (feeds m tx p w rs ss g) = unchanged rs (
        ap answered g
        ∙ answered-append (given here.1) (to_stream tx m ∷ [])
        ∙ append-nil (answered (given here.1)))
    Effect-Once arrived fresh (closes k p rs ss g) = unchanged rs (ap answered g)
    Effect-Once arrived fresh (waits k tx q rs ss g) =
        waits-Once k tx q (fresh k tx q) rs (ap answered g)
    Effect-Once arrived fresh (listens k tx q rs ss g) = unchanged rs (ap answered g)

  run-Once_from :
      (requests : List (ℕ × ResponseTx)) (acts : List (Act In Out K R StreamTx ResponseTx X))
      (here : SansService In Out K R Writer StreamTx ResponseTx × World)
      → IsDistinct (senders (requests ++ requested acts))
      → Once requests here
      → Once (requests ++ requested acts) (run channels sink acts here)
  unfolding run
  run-Once_from requests [] here d o = rw (append-nil requests) o
  run-Once_from requests (a ∷ acts) here d o =
      rw (← append_assoc requests (requested_by a) (requested acts)) (
        run-Once_from (requests ++ requested_by a) acts (perform channels sink a here)
          (rw (append_assoc requests (requested_by a) (requested acts)) d)
          (Effect-Once requests (requested_by a) (opened_by a) here (perform channels sink a here) o
            (read_by a)
            (λ k tx q. IsDistinct-fresh (senders requests) tx (senders (requested acts)) (
              subst IsDistinct
                (senders-append requests (requested_by a ++ requested acts)
                  ∙ ap (λ t. senders requests ++ senders (t ++ requested acts)) q)
                d))
            (perform-Effect channels sink a here)))

  -- From a new service and channels that nothing has been given to: if every request comes with a
  -- channel of its own, no request is answered twice, whatever responses arrive.
  pub run-IsDistinct :
      (writer : Writer) (world : World) (acts : List (Act In Out K R StreamTx ResponseTx X))
      → given world ≡ []
      → IsDistinct (senders (requested acts))
      → IsDistinct (
          answered
            (given (run channels sink acts (new {Out = Out} {K = K} {R = R} writer, world)).1))
  unfolding new
  run-IsDistinct writer world acts e d =
      (run-Once_from [] acts (new writer, world) d
        (record {
          waiting = λ k a h. cc h;
          single = λ i j a h. cc h;
          unanswered = λ i tx h. cc h;
          asked = rw e (λ tx m. absurd (Memᴰ.not-nil m));
          once = rw e tt;
        })).once
