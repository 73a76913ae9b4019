-- ===== src/Service/Reply.antt =====
-- A request through a `SansService` of sansrpc-service/src/sans_service.rs gets its response.
use sansrpc.Prelude.{
  ℕ, ◌≡◌, ◌≢◌, sym, ap, ◌∙◌, Option, none, some, List, [], ◌∷◌, ◌++◌, All, All-append_left,
  All-append_right, Result, arith, subst,
}
use sansrpc.Proto.Message.{Message, Request, Response, request, response}
use sansrpc.Service.Messages.{ServiceInteraction}
use sansrpc.Service.Channels.{insert, to_response, Channels, MessageSink}
use sansrpc.Service.Sans.{
  SansService, Event, on_message, on_response, on_interaction, sent_or_panic,
}
use sansrpc.Service.Session.{
  Act, takes, requested, requested_by, opened_by, read, read_by, perform, run, after,
}
use sansrpc.Service.Effects.{Effect, quiet, answers, feeds, closes, waits, listens, perform-Effect}

-- The message is no response to the request.
abbrev pub IsNoReply : {In : Type 0} → ℕ → Message In → Type 0
IsNoReply id (response r) = r.request_id ≢ id
IsNoReply id _ = Unit {0}

-- Neither a request nor a response has the id.
abbrev pub Spares :
    {In Out K R StreamTx ResponseTx X : Type 0}
    → ℕ
    → List (Act In Out K R StreamTx ResponseTx X)
    → Type 0
Spares id acts = All (λ asked. asked.0 ≢ id) (requested acts) × All (IsNoReply id) (read acts)

module _ {In Out K R Writer World StreamTx ResponseTx X : Type 0}
    (channels : Channels World In StreamTx ResponseTx) (sink : MessageSink Writer Out X) (id : ℕ)
    (tx : ResponseTx) where
  open channels use {given}

  abbrev Waits : SansService In Out K R Writer StreamTx ResponseTx × World → Type 0
  Waits here = here.0.incoming_responses id ≡ some tx

  Effect-Waits :
      (requests : List (ℕ × ResponseTx)) (opens : List (ℕ × StreamTx)) (arrived : List (Message In))
      (here there : SansService In Out K R Writer StreamTx ResponseTx × World)
      → All (λ asked. asked.0 ≢ id) requests
      → All (IsNoReply id) arrived
      → Waits here
      → Effect channels sink requests opens arrived here there
      → Waits there
  Effect-Waits requests opens arrived here there a n w (quiet rs ss g) = rw rs w
  Effect-Waits requests opens arrived here there a n w (answers r tx' p v rs ss g) =
      let other : r.request_id ≢ id = (subst (All (IsNoReply id)) p n).0 in
      rw rs (ground (arith, w, other))
  Effect-Waits requests opens arrived here there a n w (feeds m tx' p v rs ss g) = rw rs w
  Effect-Waits requests opens arrived here there a n w (closes k p rs ss g) = rw rs w
  Effect-Waits requests opens arrived here there a n w (waits k tx' q rs ss g) =
      let other : k ≢ id = (subst (All (λ asked. asked.0 ≢ id)) q a).0 in
      rw rs (ground (arith, w, other))
  Effect-Waits requests opens arrived here there a n w (listens k tx' q rs ss g) = rw rs w

  run-Waits :
      (acts : List (Act In Out K R StreamTx ResponseTx X))
      (here : SansService In Out K R Writer StreamTx ResponseTx × World)
      → Spares id acts
      → Waits here
      → Waits (run channels sink acts here)
  unfolding run
  run-Waits [] here h w = w
  run-Waits (a ∷ acts) here (asked, replies) w =
      run-Waits acts (perform channels sink a here)
        (
          All-append_right (λ p. p.0 ≢ id) (requested_by a) (requested acts) asked,
          All-append_right (IsNoReply id) (read_by a) (read acts) replies,
        )
        (Effect-Waits (requested_by a) (opened_by a) (read_by a) here (perform channels sink a here)
          (All-append_left (λ p. p.0 ≢ id) (requested_by a) (requested acts) asked)
          (All-append_left (IsNoReply id) (read_by a) (read acts) replies) w
          (perform-Effect channels sink a here))

  asked-Waits :
      (m : Request Out) (here : SansService In Out K R Writer StreamTx ResponseTx × World)
      → m.request_id ≡ id
      → Waits (
          perform {X = X} channels sink
            (takes (Event.interacts (some (ServiceInteraction.request m tx))))
            here)
  unfolding perform on_interaction sent_or_panic
  asked-Waits m (s, world) e = sent-Waits (sink.send s.writer (request m))
    where
      sent-Waits :
          (q : Writer × Result X (Unit {0}))
          → Waits (
              after (
                sent_or_panic {In = In} {X = X}
                  (record s { incoming_responses = insert m.request_id tx s.incoming_responses })
                  world
                  q))
      sent-Waits (writer, Result.ok _) = ground (arith, e)
      sent-Waits (writer, Result.err x) = ground (arith, e)

  reply-given :
      (r : Response In) (here : SansService In Out K R Writer StreamTx ResponseTx × World)
      → r.request_id ≡ id
      → Waits here
      → let there =
          perform {X = X} channels sink
            (takes (Event.reads (Result.ok (some (response r)))))
            here in
        (given there.1 ≡ given here.1 ++ to_response tx r ∷ [])
        × (there.0.incoming_responses id ≡ none)
  unfolding perform on_message on_response
  reply-given r (s, world) e w =
      let found : s.incoming_responses r.request_id ≡ some tx = ap s.incoming_responses e ∙ w in
      let got = λ (o : Option ResponseTx). after (on_response {X = X} channels o r s world) in
      subst
        (λ o.
          (given (got o).1 ≡ given world ++ to_response tx r ∷ [])
          × ((got o).0.incoming_responses id ≡ none))
        (sym found) (channels.given-send world tx r, ground (arith, e))

  -- When a handle has made a request, and then anything comes but requests and responses with its id,
  -- the response with that id goes to the sender of the request, and the request waits no longer.
  pub request-reply :
      (m : Request Out) (r : Response In) (acts : List (Act In Out K R StreamTx ResponseTx X))
      (here : SansService In Out K R Writer StreamTx ResponseTx × World)
      → m.request_id ≡ id
      → r.request_id ≡ id
      → Spares id acts
      → let asked =
          perform channels sink
            (takes (Event.interacts (some (ServiceInteraction.request m tx))))
            here in
        let there = run channels sink acts asked in
        let replied =
          perform {X = X} channels sink
            (takes (Event.reads (Result.ok (some (response r)))))
            there in
        (given replied.1 ≡ given there.1 ++ to_response tx r ∷ [])
        × (replied.0.incoming_responses id ≡ none)
  request-reply m r acts here e f h =
      let asked =
        perform channels sink (takes (Event.interacts (some (ServiceInteraction.request m tx))))
          here in
      reply-given r (run channels sink acts asked) f (run-Waits acts asked h (asked-Waits m here e))
