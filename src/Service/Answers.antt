-- ===== src/Service/Answers.antt =====
-- The requests of the handles of sansrpc-service/src/handle.rs, and the service that answers them.
use mathlib.Core.List.{Memᴰ}
use mathlib.Core.List.Memᴰ
use sansrpc.Prelude.{
  ℕ, append-nil, ◌≡◌, refl, sym, ap, ◌∙◌, inl, inr, some, Option-cases, List, [], ◌∷◌, ◌++◌, subst,
}
use sansrpc.Service.Messages.{ServiceInteraction}
use sansrpc.Service.Channels.{Channels, MessageSink}
use sansrpc.Service.Sans.{new}
use sansrpc.Service.Session.{Act, requested, run}
use sansrpc.Service.Distinct.{IsDistinct, IsDistinct-snoc, senders, senders-append, answered}
use sansrpc.Service.Once.{run-IsDistinct}
use sansrpc.Service.Handle.{
  Handles, HandleCall, oneshots, requests, streams, ignored, send_oneshot, send_request,
  send_stream, call, calls,
}

-- The requests among the interactions, with the senders for their responses.
abbrev pub requests_in :
    {Out StreamTx ResponseTx : Type 0}
    → List (ServiceInteraction Out StreamTx ResponseTx)
    → List (ℕ × ResponseTx)
requests_in [] = []
requests_in (ServiceInteraction.request m tx ∷ rest) = (m.request_id, tx) ∷ requests_in rest
requests_in (_ ∷ rest) = requests_in rest

requests_in-append :
    {Out StreamTx ResponseTx : Type 0} (xs ys : List (ServiceInteraction Out StreamTx ResponseTx))
    → requests_in (xs ++ ys) ≡ requests_in xs ++ requests_in ys
requests_in-append [] ys = refl
requests_in-append (ServiceInteraction.request m tx ∷ xs) ys =
    ap (◌∷◌ (m.request_id, tx)) (requests_in-append xs ys)
requests_in-append (ServiceInteraction.open_stream m tx ∷ xs) ys = requests_in-append xs ys
requests_in-append (ServiceInteraction.oneshot m ∷ xs) ys = requests_in-append xs ys

IsDistinct-append_left : {A : Type 0} (xs ys : List A) → IsDistinct (xs ++ ys) → IsDistinct xs
IsDistinct-append_left [] ys d = tt
IsDistinct-append_left (x ∷ xs) ys d =
    (λ m. d.0 (Memᴰ.append_left ys m), IsDistinct-append_left xs ys d.1)

module _ {World Out StreamTx ResponseTx StreamRx ResponseRx : Type 0}
    (handles : Handles World Out StreamTx ResponseTx StreamRx ResponseRx) where
  open handles use {unbounded, channel, unbounded_send, queued, made}

  abbrev waiting : World → List ResponseTx
  waiting w = senders (requests_in (queued w))

  -- The senders that have been sent to the service have been made, and each has been sent once.
  record Fresh (w : World) : Type 0 where
    distinct : IsDistinct (waiting w)
    among : (tx : ResponseTx) → Memᴰ tx (waiting w) → Memᴰ tx (made w)

  Fresh-same : (w w' : World) → Fresh w → made w' ≡ made w → waiting w' ≡ waiting w → Fresh w'
  Fresh-same w w' f m q = record {
    distinct = subst IsDistinct (sym q) f.distinct;
    among = rw (m, q) f.among;
  }

  waiting-sent :
      (w w' : World) (asked : ServiceInteraction Out StreamTx ResponseTx)
      → unbounded_send w asked ≡ some w'
      → waiting w' ≡ waiting w ++ senders (requests_in (asked ∷ []))
  waiting-sent w w' asked e =
      ap (λ q. senders (requests_in q)) (handles.queued-unbounded_send w w' asked e)
      ∙ ap senders (requests_in-append (queued w) (asked ∷ []))
      ∙ senders-append (requests_in (queued w)) (requests_in (asked ∷ []))

  -- Something that is no request has been sent, or not.
  ignored-Fresh :
      (w : World) (asked : ServiceInteraction Out StreamTx ResponseTx)
      → requests_in (asked ∷ []) ≡ []
      → Fresh w
      → Fresh (ignored w (unbounded_send w asked))
  ignored-Fresh w asked no_request f = elim (Option-cases (unbounded_send w asked)) [
    | inl gone ↦ rw gone f
    | inr (w', sent) ↦ rw sent (
        Fresh-same w w' f (handles.made-unbounded_send w w' asked sent) (
          waiting-sent w w' asked sent
          ∙ ap (λ r. waiting w ++ senders r) no_request
          ∙ append-nil (waiting w)))
  ]

  -- The sender that is made for a request is in no other.
  request-Fresh :
      (w w' : World) (tx : ResponseTx)
      → ¬ Memᴰ tx (made w)
      → made w' ≡ made w ++ tx ∷ []
      → waiting w' ≡ waiting w ++ tx ∷ []
      → Fresh w
      → Fresh w'
  request-Fresh w w' tx fresh m q f = record {
    distinct =
        subst IsDistinct (sym q)
          (IsDistinct-snoc (waiting w) tx f.distinct (λ h. fresh (f.among tx h)));
    among =
        rw (m, q)
          (λ tx' h. elim (Memᴰ.append_cases (waiting w) h) [
            | inl before ↦ Memᴰ.append_left (tx ∷ []) (f.among tx' before)
            | inr last ↦ Memᴰ.append_right (made w) last
          ]);
  }

  call-Fresh : (c : HandleCall Out) (w : World) → Fresh w → Fresh (call handles c w)
  unfolding call send_oneshot send_request send_stream
  call-Fresh (oneshots m) w f = ignored-Fresh w (ServiceInteraction.oneshot m) refl f
  call-Fresh (streams m) w f =
      let w' = (unbounded w).0 in
      ignored-Fresh w' (ServiceInteraction.open_stream m (unbounded w).1) refl (
        Fresh-same w w' f (handles.made-unbounded w)
          (ap (λ q. senders (requests_in q)) (handles.queued-unbounded w)))
  call-Fresh (requests m) w f =
      let w' = (channel w).0 in
      let tx = (channel w).1 in
      let asked = ServiceInteraction.request m tx in
      let same : waiting w' ≡ waiting w =
        ap (λ q. senders (requests_in q)) (handles.queued-channel w) in
      elim (Option-cases (unbounded_send w' asked)) [
        | inl gone ↦ rw gone (record {
          distinct = subst IsDistinct (sym same) f.distinct;
          among =
              rw (handles.made-channel w, same)
                (λ tx' h. Memᴰ.append_left (tx ∷ []) (f.among tx' h));
        })
        | inr (w'', sent) ↦ rw sent (
            request-Fresh w w'' tx (handles.channel-fresh w)
              (handles.made-unbounded_send w' w'' asked sent ∙ handles.made-channel w)
              (waiting-sent w' w'' asked sent ∙ ap (λ q. q ++ tx ∷ []) same) f)
      ]

  calls-Fresh : (cs : List (HandleCall Out)) (w : World) → Fresh w → Fresh (calls handles cs w)
  unfolding calls
  calls-Fresh [] w f = f
  calls-Fresh (c ∷ cs) w f = calls-Fresh cs (call handles c w) (call-Fresh c w f)

module _ {In Out K R Writer World Outside StreamTx ResponseTx StreamRx ResponseRx X : Type 0}
    (handles : Handles Outside Out StreamTx ResponseTx StreamRx ResponseRx)
    (channels : Channels World In StreamTx ResponseTx) (sink : MessageSink Writer Out X) where
  -- From channels that nothing has been given to: whatever the handles are asked to send, and whatever
  -- comes to a new service of which the requests are a front of those that the handles have queued,
  -- no request is answered twice.
  pub calls-answered_once :
      (cs : List (HandleCall Out)) (outside : Outside) (writer : Writer) (world : World)
      (acts : List (Act In Out K R StreamTx ResponseTx X)) (later : List (ℕ × ResponseTx))
      → handles.queued outside ≡ []
      → requests_in (handles.queued (calls handles cs outside)) ≡ requested acts ++ later
      → channels.given world ≡ []
      → IsDistinct (
          answered (
            channels.given
              (run channels sink acts (new {Out = Out} {K = K} {R = R} writer, world)).1))
  calls-answered_once cs outside writer world acts later none_queued taken none_given =
      let f = calls-Fresh handles cs outside (record {
        distinct = rw none_queued tt;
        among = rw none_queued (λ tx m. absurd (Memᴰ.not-nil m));
      }) in
      run-IsDistinct channels sink writer world acts none_given (
        IsDistinct-append_left (senders (requested acts)) (senders later)
          (subst IsDistinct (ap senders taken ∙ senders-append (requested acts) later) f.distinct))
