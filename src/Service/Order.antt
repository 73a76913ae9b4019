-- ===== src/Service/Order.antt =====
-- The order in which sansrpc-service/src/sans_service.rs passes on what it reads.
use mathlib.Core.List.Sublistᴰ
use mathlib.Core.List.{Sublistᴰ, map-append}
use sansrpc.Prelude.{
  ℕ, ◌≡◌, sym, ap, ◌∙◌, subst, List, [], ◌∷◌, ◌++◌, map, append-nil, append_assoc,
}
use sansrpc.Proto.Message.{Message, response, stream_message}
use sansrpc.Service.Channels.{Delivery, to_stream, to_response, Channels, MessageSink}
use sansrpc.Service.Sans.{SansService, new}
use sansrpc.Service.Session.{Act, requested_by, opened_by, read_by, read, perform, run}
use sansrpc.Service.Effects.{Effect, quiet, answers, feeds, closes, waits, listens, perform-Effect}

-- The message that a delivery passes on.
abbrev pub carried :
    {In StreamTx ResponseTx : Type 0} → Delivery In StreamTx ResponseTx → Message In
carried (to_response tx r) = response r
carried (to_stream tx m) = stream_message m

-- The messages that have been passed on.
abbrev pub passed :
    {World In StreamTx ResponseTx : Type 0}
    → Channels World In StreamTx ResponseTx
    → World
    → List (Message In)
passed channels world = map carried (channels.given world)

module _ {In Out K R Writer World StreamTx ResponseTx X : Type 0}
    (channels : Channels World In StreamTx ResponseTx) (sink : MessageSink Writer Out X) where
  open channels use {given}

  module _ (before arrived : List (Message In)) (requests : List (ℕ × ResponseTx))
      (opens : List (ℕ × StreamTx))
      (here there : SansService In Out K R Writer StreamTx ResponseTx × World)
      (o : Sublistᴰ (passed channels here.1) before) where
    skips : given there.1 ≡ given here.1 → Sublistᴰ (passed channels there.1) (before ++ arrived)
    skips g =
        subst (λ t. Sublistᴰ t (before ++ arrived))
          (append-nil (passed channels here.1) ∙ sym (ap (map carried) g))
          (Sublistᴰ.append o (Sublistᴰ.nil-sublist arrived))

    passes :
        (d : Delivery In StreamTx ResponseTx)
        → arrived ≡ carried d ∷ []
        → given there.1 ≡ given here.1 ++ d ∷ []
        → Sublistᴰ (passed channels there.1) (before ++ arrived)
    passes d p g =
        subst (λ t. Sublistᴰ t (before ++ arrived))
          (sym (ap (map carried) g ∙ map-append carried (given here.1) (d ∷ [])))
          (Sublistᴰ.append o
            (subst (Sublistᴰ (carried d ∷ [])) (sym p) (Sublistᴰ.refl (carried d ∷ []))))

    Effect-passed :
        Effect channels sink requests opens arrived here there
        → Sublistᴰ (passed channels there.1) (before ++ arrived)
    Effect-passed (quiet rs ss g) = skips g
    Effect-passed (answers r tx p w rs ss g) = passes (to_response tx r) p g
    Effect-passed (feeds m tx p w rs ss g) = passes (to_stream tx m) p g
    Effect-passed (closes k p rs ss g) = skips g
    Effect-passed (waits k tx q rs ss g) = skips g
    Effect-passed (listens k tx q rs ss g) = skips g

  run-passed_from :
      (before : List (Message In)) (acts : List (Act In Out K R StreamTx ResponseTx X))
      (here : SansService In Out K R Writer StreamTx ResponseTx × World)
      → Sublistᴰ (passed channels here.1) before
      → Sublistᴰ (passed channels (run channels sink acts here).1) (before ++ read acts)
  unfolding run
  run-passed_from before [] here o = rw (append-nil before) o
  run-passed_from before (a ∷ acts) here o = rw (← append_assoc before (read_by a) (read acts)) (
      run-passed_from (before ++ read_by a) acts (perform channels sink a here) (
        Effect-passed before (read_by a) (requested_by a) (opened_by a) here
          (perform channels sink a here) o (perform-Effect channels sink a here)))

  -- From a new service and channels that nothing has been given to: what has been passed on to the
  -- channels is a sublist of the messages that have been read, so that nothing is passed on twice, out
  -- of order, or changed.
  pub run-sublist_read :
      (writer : Writer) (world : World) (acts : List (Act In Out K R StreamTx ResponseTx X))
      → given world ≡ []
      → Sublistᴰ
          (passed channels
            (run channels sink acts (new {Out = Out} {K = K} {R = R} writer, world)).1)
          (read acts)
  run-sublist_read writer world acts e =
      run-passed_from [] acts (new writer, world) (rw e (Sublistᴰ.nil-sublist []))
