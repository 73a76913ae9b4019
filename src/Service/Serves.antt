-- ===== src/Service/Serves.antt =====
-- A request that arrives at a service (sansrpc-service/src/service.rs and sans_service.rs) is answered.
use sansrpc.Prelude.{ℕ, ◌≡◌, refl, ap, ◌∙◌, none, some, List, [], ◌∷◌, ◌++◌, length, All, Result}
use sansrpc.Proto.Message.{response, Request}
use sansrpc.Service.Messages.{ServiceMessage}
use sansrpc.Service.Channels.{Channels, MessageSink}
use sansrpc.Service.Sans.{
  SansService, Event, ResponseSource, recv_request, select, spend, source_at, on_out_response,
  sent_or_err,
}
use sansrpc.Service.Session.{Act, takes, perform, run, after}
use sansrpc.Service.Inner.{Conversions, responds, ServiceInner, dispatch}
use sansrpc.Service.Sources.{IsOther, source_at-push, source_at-spend, run-waits}

after-sent_ok :
    {In Out K R Writer World StreamTx ResponseTx X : Type 0}
    (t : SansService In Out K R Writer StreamTx ResponseTx) (world : World)
    (q : Writer × Result X (Unit {0}))
    → q.1 ≡ Result.ok tt
    → (after (sent_or_err {In = In} t world q)).0 ≡ record t { writer = q.0 }
unfolding sent_or_err
after-sent_ok t world (writer, Result.ok _) e = refl
after-sent_ok t world (writer, Result.err x) e = cc e

module _ {In Out K R Writer World StreamTx ResponseTx X Stream Handled Oneshot : Type 0}
    (channels : Channels World In StreamTx ResponseTx) (sink : MessageSink Writer Out X)
    (conversions : Conversions In Out K R Stream Handled Oneshot) where
  open conversions use {into_request, from_response}

  -- A source that waits sends what it yields, and waits no longer.
  yields-sent :
      (j : ℕ) (value : R) (here : SansService In Out K R Writer StreamTx ResponseTx × World)
      (source : ResponseSource R Out)
      → let m =
          response (record { request_id = source.request_id; payload = source.convert value }) in
        let there = perform {X = X} channels sink (takes (Event.responds j (some value))) here in
        source_at j here.0.outgoing_responses ≡ some source
        → (sink.send here.0.writer m).1 ≡ Result.ok tt
        → (sink.sent there.0.writer ≡ sink.sent here.0.writer ++ m ∷ [])
          × (source_at j there.0.outgoing_responses ≡ none)
  unfolding perform select on_out_response
  yields-sent j value (s, world) source w ok =
      let m =
        response (record { request_id = source.request_id; payload = source.convert value }) in
      let t = record s { outgoing_responses = spend j s.outgoing_responses } in
      let e = after-sent_ok t world (sink.send s.writer m) ok in
      rw (w, on_out_response)
        (
          ap (λ u. sink.sent u.writer) e ∙ sink.sent-send_ok s.writer m ok,
          ap (λ u. source_at j u.outgoing_responses) e ∙ source_at-spend j s.outgoing_responses,
        )

  -- When a request is dispatched, a task is spawned that sends to the place `j`. When then anything
  -- comes but a yield at that place, and the task answers `value` and the writer does not fail, the
  -- response with the id of the request is sent, once: the source at `j` is spent.
  pub request-answered :
      (m : Request In) (value : R) (world : World)
      (inner : ServiceInner In Out K R Writer StreamTx ResponseTx Stream Handled Oneshot)
      (acts : List (Act In Out K R StreamTx ResponseTx X))
      → let j = length inner.sans_service.outgoing_responses in
        let answer =
          response (record { request_id = m.request_id; payload = from_response value }) in
        let dispatched = dispatch conversions (ServiceMessage.request m) inner in
        let here = run channels sink acts (dispatched.sans_service, world) in
        let there = perform {X = X} channels sink (takes (Event.responds j (some value))) here in
        All (IsOther j) acts
        → (sink.send here.0.writer answer).1 ≡ Result.ok tt
        → (dispatched.spawned ≡ inner.spawned ++ responds j (into_request m.payload) ∷ [])
          × (sink.sent there.0.writer ≡ sink.sent here.0.writer ++ answer ∷ [])
          × (source_at j there.0.outgoing_responses ≡ none)
  unfolding dispatch recv_request
  request-answered m value world inner acts h ok =
      let j = length inner.sans_service.outgoing_responses in
      let s = recv_request inner.sans_service m.request_id from_response in
      let w =
        run-waits channels sink j acts (s, world) _ h
          (source_at-push inner.sans_service.outgoing_responses _) in
      let sent = yields-sent j value (run channels sink acts (s, world)) _ w ok in
      (refl, sent.0, sent.1)
