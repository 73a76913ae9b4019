-- ===== src/Service/Took.antt =====
-- What a call of `next_message` in sansrpc-service/src/sans_service.rs takes and hands over.
use sansrpc.Prelude.{
  ◌≡◌, ◌<◌, refl, sym, ap, ◌∙◌, ◌⊎◌, inl, inr, none, some, List, append_assoc, [], ◌∷◌, ◌++◌,
  length, Result, Round, continue, return, arith,
}
use sansrpc.Proto.Message.{oneshot, request, response, open_stream, stream_message, close_stream}
use sansrpc.Poll.{pending, ready, returns, panics, spins}
use sansrpc.Service.Channels.{Channels, MessageSink}
use sansrpc.Service.Sans.{SansService, Event, Answer, select, next_message}
use sansrpc.Service.Yields.{for_caller, yielded, Ends, Settles, Keeps, same, Yields, select-Yields}

module _ {In Out K R StreamTx ResponseTx X : Type 0} where
  pub for_caller-cons :
      (e : Event In Out K R StreamTx ResponseTx X)
      (es : List (Event In Out K R StreamTx ResponseTx X))
      → for_caller (e ∷ es) ≡ for_caller (e ∷ []) ++ for_caller es
  for_caller-cons (Event.reads (Result.err x)) es = refl
  for_caller-cons (Event.reads (Result.ok none)) es = refl
  for_caller-cons (Event.reads (Result.ok (some (oneshot m)))) es = refl
  for_caller-cons (Event.reads (Result.ok (some (request m)))) es = refl
  for_caller-cons (Event.reads (Result.ok (some (response r)))) es = refl
  for_caller-cons (Event.reads (Result.ok (some (open_stream m)))) es = refl
  for_caller-cons (Event.reads (Result.ok (some (stream_message m)))) es = refl
  for_caller-cons (Event.reads (Result.ok (some (close_stream k)))) es = refl
  for_caller-cons (Event.streams i value) es = refl
  for_caller-cons (Event.responds i value) es = refl
  for_caller-cons (Event.interacts asked) es = refl

  pub for_caller-append :
      (es fs : List (Event In Out K R StreamTx ResponseTx X))
      → for_caller (es ++ fs) ≡ for_caller es ++ for_caller fs
  for_caller-append [] fs = refl
  for_caller-append (e ∷ es) fs =
      for_caller-cons e (es ++ fs)
      ∙ ap (λ t. for_caller (e ∷ []) ++ t) (for_caller-append es fs)
      ∙ sym (append_assoc (for_caller (e ∷ [])) (for_caller es) (for_caller fs))
      ∙ ap (λ t. t ++ for_caller fs) (sym (for_caller-cons e es))

-- An answer that settles the call.
Settles-Ends :
    {In X : Type 0} (answer : Answer In X)
    → Settles answer
    → Ends answer × ¬ (answer ≡ returns pending)
Settles-Ends (returns (ready result)) h = (tt, λ e. cc e)
Settles-Ends (returns pending) h = absurd h
Settles-Ends panics h = (tt, λ e. cc e)
Settles-Ends spins h = absurd h

module _ {In Out K R Writer World StreamTx ResponseTx X : Type 0}
    (channels : Channels World In StreamTx ResponseTx) (sink : MessageSink Writer Out X) where
  -- What a call of `next_message` takes of the events, and what it hands over for them.
  pub record Took (events : List (Event In Out K R StreamTx ResponseTx X))
      (s : SansService In Out K R Writer StreamTx ResponseTx)
      (q : (SansService In Out K R Writer StreamTx ResponseTx
          × World
          × List (Event In Out K R StreamTx ResponseTx X))
        × Answer In X)
      : Type 0 where
    pub consumed : List (Event In Out K R StreamTx ResponseTx X)
    pub front : events ≡ consumed ++ q.0.2
    pub hands : for_caller consumed ≡ yielded q.1
    pub keeps : Keeps s q.0.0
    pub ends : Ends q.1
    pub waits : q.1 ≡ returns pending → q.0.2 ≡ []
    pub moves : (q.1 ≡ returns pending) ⊎ (length q.0.2 < length events)

  step-Took :
      (e : Event In Out K R StreamTx ResponseTx X)
      (events : List (Event In Out K R StreamTx ResponseTx X))
      (s : SansService In Out K R Writer StreamTx ResponseTx)
      (r : Round (SansService In Out K R Writer StreamTx ResponseTx × World) (Answer In X))
      → Yields s (for_caller (e ∷ [])) r
      → ((t : SansService In Out K R Writer StreamTx ResponseTx) (world : World)
          → Took events t (next_message channels sink events (t, world)))
      → Took (e ∷ events) s (elim r [
        | continue there ↦ next_message channels sink events there
        | return (t, world) answer ↦ ((t, world, events), answer)
      ])
  step-Took e events s (return (t, world) answer) (k, y, finished) next = record {
    consumed = e ∷ [];
    front = refl;
    hands = y;
    ends = (Settles-Ends answer finished).0;
    waits = λ h. absurd ((Settles-Ends answer finished).1 h);
    keeps = k;
    moves = inr (omega arith);
  }
  step-Took e events s (continue (t, world)) (k, y) next =
      let n = next t world in
      record {
        consumed = e ∷ n.consumed;
        front = ap (◌∷◌ e) n.front;
        hands = for_caller-cons e n.consumed ∙ ap (λ ms. ms ++ for_caller n.consumed) y ∙ n.hands;
        ends = n.ends;
        waits = n.waits;
        keeps = record {
          streams = n.keeps.streams ∙ k.streams;
          responses = n.keeps.responses ∙ k.responses;
        };
        moves = elim n.moves [ inl waits ↦ inl waits | inr less ↦ inr (omega arith) ];
      }

  -- `next_message` takes a front of the events and hands over the message for the caller that is among
  -- them, or there is none among them. Unless it waits, it has taken an event; when it waits, it has
  -- taken them all. It keeps the sources of outgoing messages in their places.
  pub next_message-Took :
      (events : List (Event In Out K R StreamTx ResponseTx X))
      (s : SansService In Out K R Writer StreamTx ResponseTx) (world : World)
      → Took events s (next_message channels sink events (s, world))
  unfolding next_message
  next_message-Took [] s world = record {
    consumed = [];
    front = refl;
    hands = refl;
    keeps = same s;
    ends = tt;
    waits = λ h. refl;
    moves = inl refl;
  }
  next_message-Took (e ∷ events) s world =
      step-Took e events s (select channels sink e (s, world))
        (select-Yields channels sink e s world) (next_message-Took events)
