-- ===== src/Service/Correlation.antt =====
-- Responses and stream messages in sansrpc-service/src/sans_service.rs reach those who asked for them.
use mathlib.Core.List.Memᴰ
use mathlib.Core.List.{Memᴰ}
use sansrpc.Prelude.{
  ℕ, ◌≡◌, sym, ap₂, subst, inl, inr, some, Bool-cases, ◌==◌, List, [], ◌∷◌, ◌++◌, append-nil,
  append_assoc, All, All-append, arith,
}
use sansrpc.Proto.Message.{Message}
use sansrpc.Service.Channels.{
  Table, insert, remove, Delivery, to_stream, to_response, Channels, MessageSink,
}
use sansrpc.Service.Sans.{SansService, new}
use sansrpc.Service.Session.{Act, requested, requested_by, opened, opened_by, read_by, perform, run}
use sansrpc.Service.Effects.{Effect, quiet, answers, feeds, closes, waits, listens, perform-Effect}

-- The entries of a table are among `asked`.
abbrev pub IsAmong : {A : Type 0} → Table A → List (ℕ × A) → Type 0
IsAmong {A} t asked = (k : ℕ) (a : A) → t k ≡ some a → Memᴰ (k, a) asked

module _ {A : Type 0} where
  pub IsAmong-more :
      (t : Table A) (asked more : List (ℕ × A)) → IsAmong t asked → IsAmong t (asked ++ more)
  IsAmong-more t asked more h k a e = Memᴰ.append_left more (h k a e)

  pub IsAmong-remove :
      (t : Table A) (asked : List (ℕ × A)) (k : ℕ) → IsAmong t asked → IsAmong (remove k t) asked
  IsAmong-remove t asked k h j a e = h j a (ground (arith, e))

  pub IsAmong-insert :
      (t : Table A) (asked : List (ℕ × A)) (k : ℕ) (x : A)
      → IsAmong t asked
      → IsAmong (insert k x t) (asked ++ (k, x) ∷ [])
  IsAmong-insert t asked k x h j a e = elim (Bool-cases (j == k)) [
    | inl same ↦
        let key : j ≡ k = ground (arith, same) in
        let value : x ≡ a = ground (arith, e, same) in
        Memᴰ.append_right asked (Memᴰ.head (ap₂ (λ u v. (u, v)) key (sym value)))
    | inr other ↦ Memᴰ.append_left ((k, x) ∷ []) (h j a (ground (arith, e, other)))
  ]

module _ {In StreamTx ResponseTx : Type 0} where
  -- The delivery was asked for, by a request or a stream with its id.
  abbrev pub IsAsked :
      List (ℕ × ResponseTx) → List (ℕ × StreamTx) → Delivery In StreamTx ResponseTx → Type 0
  IsAsked requests streams (to_response tx r) = Memᴰ (r.request_id, tx) requests
  IsAsked requests streams (to_stream tx m) = Memᴰ (m.stream_id, tx) streams

  IsAsked-more :
      (requests more : List (ℕ × ResponseTx)) (streams further : List (ℕ × StreamTx))
      (ds : List (Delivery In StreamTx ResponseTx))
      → All (IsAsked requests streams) ds
      → All (IsAsked (requests ++ more) (streams ++ further)) ds
  IsAsked-more requests more streams further [] h = tt
  IsAsked-more requests more streams further (to_response tx r ∷ ds) h =
      (Memᴰ.append_left more h.0, IsAsked-more requests more streams further ds h.1)
  IsAsked-more requests more streams further (to_stream tx m ∷ ds) h =
      (Memᴰ.append_left further h.0, IsAsked-more requests more streams further ds h.1)

module _ {In Out K R Writer World StreamTx ResponseTx X : Type 0}
    (channels : Channels World In StreamTx ResponseTx) (sink : MessageSink Writer Out X) where
  open channels use {given}

  -- What waits in the tables, and what has been given to the channels, was asked for.
  pub record Correlates (requests : List (ℕ × ResponseTx)) (streams : List (ℕ × StreamTx))
      (here : SansService In Out K R Writer StreamTx ResponseTx × World) : Type 0 where
    pub waiting : IsAmong here.0.incoming_responses requests
    pub listening : IsAmong here.0.incoming_streams streams
    pub asked : All (IsAsked requests streams) (given here.1)

  module _ (requests more : List (ℕ × ResponseTx)) (streams further : List (ℕ × StreamTx))
      (arrived : List (Message In))
      (here there : SansService In Out K R Writer StreamTx ResponseTx × World)
      (c : Correlates requests streams here) where
    -- The tables and the deliveries of `here`, among all that has been asked.
    abbrev all_requests : List (ℕ × ResponseTx)
    all_requests = requests ++ more

    abbrev all_streams : List (ℕ × StreamTx)
    all_streams = streams ++ further

    waiting_more : IsAmong here.0.incoming_responses all_requests
    waiting_more = IsAmong-more here.0.incoming_responses requests more c.waiting

    listening_more : IsAmong here.0.incoming_streams all_streams
    listening_more = IsAmong-more here.0.incoming_streams streams further c.listening

    given-IsAsked : All (IsAsked all_requests all_streams) (given here.1)
    given-IsAsked = IsAsked-more requests more streams further (given here.1) c.asked

    moved :
        (rs : Table ResponseTx) (ss : Table StreamTx) (ds : List (Delivery In StreamTx ResponseTx))
        → there.0.incoming_responses ≡ rs
        → there.0.incoming_streams ≡ ss
        → given there.1 ≡ ds
        → IsAmong rs all_requests
        → IsAmong ss all_streams
        → All (IsAsked all_requests all_streams) ds
        → Correlates all_requests all_streams there
    moved rs ss ds er es ed r s d = record {
      waiting = subst (λ t. IsAmong t all_requests) (sym er) r;
      listening = subst (λ t. IsAmong t all_streams) (sym es) s;
      asked = subst (All (IsAsked all_requests all_streams)) (sym ed) d;
    }

    Effect-Correlates :
        Effect channels sink more further arrived here there
        → Correlates all_requests all_streams there
    Effect-Correlates (quiet rs ss g) =
        moved _ _ _ rs ss g waiting_more listening_more given-IsAsked
    Effect-Correlates (answers r tx p w rs ss g) =
        moved _ _ _ rs ss g
          (IsAmong-remove here.0.incoming_responses all_requests r.request_id waiting_more)
          listening_more
          (All-append _ (given here.1) (to_response tx r ∷ []) given-IsAsked
            (waiting_more r.request_id tx w, tt))
    Effect-Correlates (feeds m tx p w rs ss g) = moved _ _ _ rs ss g waiting_more listening_more (
        All-append _ (given here.1) (to_stream tx m ∷ []) given-IsAsked
          (listening_more m.stream_id tx w, tt))
    Effect-Correlates (closes k p rs ss g) =
        moved _ _ _ rs ss g waiting_more
          (IsAmong-remove here.0.incoming_streams all_streams k listening_more) given-IsAsked
    Effect-Correlates (waits k tx q rs ss g) =
        moved _ _ _ rs ss g
          (subst (λ t. IsAmong (insert k tx here.0.incoming_responses) (requests ++ t)) (sym q)
            (IsAmong-insert here.0.incoming_responses requests k tx c.waiting))
          listening_more given-IsAsked
    Effect-Correlates (listens k tx q rs ss g) =
        moved _ _ _ rs ss g waiting_more
          (subst (λ t. IsAmong (insert k tx here.0.incoming_streams) (streams ++ t)) (sym q)
            (IsAmong-insert here.0.incoming_streams streams k tx c.listening))
          given-IsAsked

  run-Correlates_from :
      (requests : List (ℕ × ResponseTx)) (streams : List (ℕ × StreamTx))
      (acts : List (Act In Out K R StreamTx ResponseTx X))
      (here : SansService In Out K R Writer StreamTx ResponseTx × World)
      → Correlates requests streams here
      → Correlates
          (requests ++ requested acts)
          (streams ++ opened acts)
          (run channels sink acts here)
  unfolding run
  run-Correlates_from requests streams [] here c = rw (append-nil requests, append-nil streams) c
  run-Correlates_from requests streams (a ∷ acts) here c =
      rw
        (
          ← append_assoc requests (requested_by a) (requested acts),
          ← append_assoc streams (opened_by a) (opened acts),
        )
        (run-Correlates_from (requests ++ requested_by a) (streams ++ opened_by a) acts
          (perform channels sink a here)
          (Effect-Correlates requests (requested_by a) streams (opened_by a) (read_by a) here
            (perform channels sink a here) c (perform-Effect channels sink a here)))

  -- From a new service and channels that nothing has been given to, whatever comes in any order: each
  -- response goes to the sender of a request with its id, each stream message to the sender of a
  -- stream with its id.
  pub run-Correlates :
      (writer : Writer) (world : World) (acts : List (Act In Out K R StreamTx ResponseTx X))
      → given world ≡ []
      → Correlates
          (requested acts)
          (opened acts)
          (run channels sink acts (new {Out = Out} {K = K} {R = R} writer, world))
  unfolding new
  run-Correlates writer world acts e =
      run-Correlates_from [] [] acts (new writer, world)
        (record { waiting = λ k a h. cc h; listening = λ k a h. cc h; asked = rw e tt })
