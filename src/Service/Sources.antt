-- ===== src/Service/Sources.antt =====
-- The sources of responses of a `SansService` (sansrpc-service/src/sans_service.rs) stay in their places
-- until they yield.
use sansrpc.Prelude.{
  ℕ, zero, suc, ◌≡◌, ◌≢◌, refl, ap, ◌∙◌, Option, none, some, Option-cases, inl, inr, List, [], ◌∷◌,
  ◌++◌, length, All, Result, get_elem?, Round,
}
use sansrpc.Proto.Message.{
  oneshot, request, response, open_stream, stream_message, close_stream, Response, StreamMessage,
}
use sansrpc.Service.Messages.{ServiceInteraction}
use sansrpc.Service.Channels.{Channels, MessageSink, insert}
use sansrpc.Service.Sans.{
  SansService, Event, Answer, StreamSource, ResponseSource, recv_stream, recv_request, select,
  spend, source_at, on_message, on_response, on_stream_message, on_close_stream, on_stream,
  on_out_response, on_interaction, sent_or_err, sent_or_panic,
}
use sansrpc.Service.Session.{Act, takes, adds_stream, adds_response, perform, run, after}

module _ {A : Type 0} where
  pub source_at-append :
      (i : ℕ) (xs ys : List (Option A)) (a : A)
      → source_at i xs ≡ some a
      → source_at i (xs ++ ys) ≡ some a
  source_at-append i [] ys a e = cc e
  source_at-append zero (x ∷ xs) ys a e = e
  source_at-append (suc i) (x ∷ xs) ys a e = source_at-append i xs ys a e

  pub source_at-push :
      (xs : List (Option A)) (x : Option A) → source_at (length xs) (xs ++ x ∷ []) ≡ x
  source_at-push [] x = refl
  source_at-push (y ∷ xs) x = source_at-push xs x

  source_at-spend_ne :
      (i j : ℕ) (xs : List (Option A)) → i ≢ j → source_at j (spend i xs) ≡ source_at j xs
  source_at-spend_ne i j [] h = refl
  source_at-spend_ne zero zero (x ∷ xs) h = absurd (h refl)
  source_at-spend_ne zero (suc j) (x ∷ xs) h = refl
  source_at-spend_ne (suc i) zero (x ∷ xs) h = refl
  source_at-spend_ne (suc i) (suc j) (x ∷ xs) h = source_at-spend_ne i j xs (λ e. h (ap suc e))

  pub source_at-spend : (i : ℕ) (xs : List (Option A)) → source_at i (spend i xs) ≡ none
  source_at-spend i [] = refl
  source_at-spend zero (x ∷ xs) = refl
  source_at-spend (suc i) (x ∷ xs) = source_at-spend i xs

-- The act is not that the source at the place `j` yields.
abbrev pub IsOther :
    {In Out K R StreamTx ResponseTx X : Type 0} → ℕ → Act In Out K R StreamTx ResponseTx X → Type 0
IsOther j (takes (Event.responds i value)) = i ≢ j
IsOther j _ = Unit {0}

module _ {In Out K R Writer World StreamTx ResponseTx : Type 0} (X : Type 0) (world : World) where
  -- The sources of responses where a round ends.
  abbrev left :
      Round (SansService In Out K R Writer StreamTx ResponseTx × World) (Answer In X)
      → List (Option (ResponseSource R Out))
  left r = (after r).0.outgoing_responses

  left-sent_or_err :
      (s : SansService In Out K R Writer StreamTx ResponseTx) (q : Writer × Result X (Unit {0}))
      → left (sent_or_err s world q) ≡ s.outgoing_responses
  unfolding sent_or_err
  left-sent_or_err s (writer, Result.ok _) = refl
  left-sent_or_err s (writer, Result.err x) = refl

  left-sent_or_panic :
      (s : SansService In Out K R Writer StreamTx ResponseTx) (q : Writer × Result X (Unit {0}))
      → left (sent_or_panic s world q) ≡ s.outgoing_responses
  unfolding sent_or_panic
  left-sent_or_panic s (writer, Result.ok _) = refl
  left-sent_or_panic s (writer, Result.err x) = refl

  module _ (s : SansService In Out K R Writer StreamTx ResponseTx) where
    module _ (channels : Channels World In StreamTx ResponseTx) where
      left-on_response :
          (o : Option ResponseTx) (r : Response In)
          → left (on_response channels o r s world) ≡ s.outgoing_responses
      unfolding on_response
      left-on_response none r = refl
      left-on_response (some tx) r = refl

      left-on_stream_message :
          (o : Option StreamTx) (m : StreamMessage In)
          → left (on_stream_message channels o m s world) ≡ s.outgoing_responses
      unfolding on_stream_message
      left-on_stream_message none m = refl
      left-on_stream_message (some tx) m =
          elim (Option-cases (channels.unbounded_send world tx m)) [
            | inl gone ↦ rw (gone, on_stream_message) refl
            | inr (world', accepted) ↦ rw (accepted, on_stream_message) refl
          ]

      left-on_close_stream :
          (o : Option StreamTx) (stream_id : ℕ)
          → left (on_close_stream channels o stream_id s world) ≡ s.outgoing_responses
      unfolding on_close_stream
      left-on_close_stream none stream_id = refl
      left-on_close_stream (some tx) stream_id = refl

    module _ (sink : MessageSink Writer Out X) where
      left-on_stream :
          (o : Option (StreamSource K Out)) (value : K)
          → left (on_stream sink o value s world) ≡ s.outgoing_responses
      unfolding on_stream
      left-on_stream none value = refl
      left-on_stream (some source) value = left-sent_or_err s _

      left-on_out_response :
          (i j : ℕ) (o : Option (ResponseSource R Out)) (value : Option R)
          → i ≢ j
          → source_at j (left (on_out_response sink i o value s world))
            ≡ source_at j s.outgoing_responses
      unfolding on_out_response
      left-on_out_response i j none value h = refl
      left-on_out_response i j (some source) none h = refl
      left-on_out_response i j (some source) (some value) h =
          ap (source_at j)
            (left-sent_or_err (record s { outgoing_responses = spend i s.outgoing_responses }) _)
          ∙ source_at-spend_ne i j s.outgoing_responses h

      left-on_interaction :
          (asked : ServiceInteraction Out StreamTx ResponseTx)
          → left (on_interaction sink asked s world) ≡ s.outgoing_responses
      unfolding on_interaction
      left-on_interaction (ServiceInteraction.open_stream m tx) =
          left-sent_or_panic
            (record s { incoming_streams = insert m.stream_id tx s.incoming_streams }) _
      left-on_interaction (ServiceInteraction.request m tx) =
          left-sent_or_panic
            (record s { incoming_responses = insert m.request_id tx s.incoming_responses }) _
      left-on_interaction (ServiceInteraction.oneshot m) = left-sent_or_panic s _

module _ {In Out K R Writer World StreamTx ResponseTx X : Type 0}
    (channels : Channels World In StreamTx ResponseTx) (sink : MessageSink Writer Out X)
    (j : ℕ) where
  left-select :
      (e : Event In Out K R StreamTx ResponseTx X)
      (s : SansService In Out K R Writer StreamTx ResponseTx) (world : World)
      → IsOther j (takes e)
      → source_at j (left X world (select channels sink e (s, world)))
        ≡ source_at j s.outgoing_responses
  unfolding select on_message
  left-select (Event.reads (Result.err x)) s world h = refl
  left-select (Event.reads (Result.ok none)) s world h = refl
  left-select (Event.reads (Result.ok (some (oneshot m)))) s world h = refl
  left-select (Event.reads (Result.ok (some (request m)))) s world h = refl
  left-select (Event.reads (Result.ok (some (response r)))) s world h =
      ap (source_at j) (left-on_response X world s channels (s.incoming_responses r.request_id) r)
  left-select (Event.reads (Result.ok (some (open_stream m)))) s world h = refl
  left-select (Event.reads (Result.ok (some (stream_message m)))) s world h =
      ap (source_at j)
        (left-on_stream_message X world s channels (s.incoming_streams m.stream_id) m)
  left-select (Event.reads (Result.ok (some (close_stream k)))) s world h =
      ap (source_at j) (left-on_close_stream X world s channels (s.incoming_streams k) k)
  left-select (Event.streams i value) s world h =
      ap (source_at j) (left-on_stream X world s sink (get_elem? s.outgoing_stream i) value)
  left-select (Event.responds i value) s world h =
      left-on_out_response X world s sink i j (source_at i s.outgoing_responses) value h
  left-select (Event.interacts none) s world h = refl
  left-select (Event.interacts (some asked)) s world h =
      ap (source_at j) (left-on_interaction X world s sink asked)

  -- A source that waits at a place goes on waiting when something else is done.
  pub perform-waits :
      (a : Act In Out K R StreamTx ResponseTx X)
      (here : SansService In Out K R Writer StreamTx ResponseTx × World)
      (source : ResponseSource R Out)
      → IsOther j a
      → source_at j here.0.outgoing_responses ≡ some source
      → source_at j (perform channels sink a here).0.outgoing_responses ≡ some source
  unfolding perform recv_stream recv_request
  perform-waits (takes e) (s, world) source h w = left-select e s world h ∙ w
  perform-waits (adds_stream k map) (s, world) source h w = w
  perform-waits (adds_response k map) (s, world) source h w =
      source_at-append j s.outgoing_responses _ source w

  pub run-waits :
      (acts : List (Act In Out K R StreamTx ResponseTx X))
      (here : SansService In Out K R Writer StreamTx ResponseTx × World)
      (source : ResponseSource R Out)
      → All (IsOther j) acts
      → source_at j here.0.outgoing_responses ≡ some source
      → source_at j (run channels sink acts here).0.outgoing_responses ≡ some source
  unfolding run
  run-waits [] here source h w = w
  run-waits (a ∷ acts) here source h w =
      run-waits acts (perform channels sink a here) source h.1 (perform-waits a here source h.0 w)
