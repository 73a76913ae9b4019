-- ===== src/Proto/Wire.antt =====
-- The bytes that carry a list of messages, and what a pair of coders must do with a message for it
-- to arrive.
use sansrpc.Prelude.{
  ℕ, ◌+◌, ◌<◌, ◌≡◌, refl, sym, ap, ◌∙◌, List, [], ◌∷◌, ◌++◌, length, append_assoc, All, All-append,
  Result,
}
use sansrpc.Proto.Message.{Message}
use sansrpc.Proto.Words.{usize_mod, IsByte}
use sansrpc.Proto.Frames.{frame, frame-IsByte}

-- The frame of a message that encodes; one that does not leaves no bytes.
unfoldable pub message_frame : {E : Type 0} → Result E (List ℕ × ℕ) → List ℕ
message_frame (Result.ok (item, _)) = frame item
message_frame (Result.err _) = []

module _ {T E : Type 0} where
  -- The frames of the messages, one after the other.
  unfoldable pub wire : (Message T → Result E (List ℕ × ℕ)) → List (Message T) → List ℕ
  wire encode [] = []
  wire encode (m ∷ ms) = message_frame (encode m) ++ wire encode ms

  pub wire-append :
      (encode : Message T → Result E (List ℕ × ℕ)) (ms ns : List (Message T))
      → wire encode (ms ++ ns) ≡ wire encode ms ++ wire encode ns
  unfolding wire
  wire-append encode [] ns = refl
  wire-append encode (m ∷ ms) ns =
      ap (◌++◌ (message_frame (encode m))) (wire-append encode ms ns)
      ∙ sym (append_assoc (message_frame (encode m)) (wire encode ms) (wire encode ns))

-- The encoder turns `m` into an item and its length, and the decoder reads the item back.
pub record Carried {T E F : Type 0} (encode : Message T → Result E (List ℕ × ℕ))
    (decode : List ℕ → Result F (Message T)) (m : Message T) : Type 0 where
  pub item : List ℕ
  pub encoded : encode m ≡ Result.ok (item, length item)
  pub decoded : decode item ≡ Result.ok m
  pub fits : 8 + length item < usize_mod
  pub bytes : All IsByte item

module _ {T E F : Type 0} (encode : Message T → Result E (List ℕ × ℕ))
    (decode : List ℕ → Result F (Message T)) where
  pub wire-cons :
      (m : Message T) (ms : List (Message T)) (c : Carried encode decode m)
      → wire encode (m ∷ ms) ≡ frame c.item ++ wire encode ms
  unfolding wire message_frame
  wire-cons m ms c = rw c.encoded

  pub wire-IsByte :
      (ms : List (Message T)) → All (Carried encode decode) ms → All IsByte (wire encode ms)
  unfolding wire
  wire-IsByte [] h = tt
  wire-IsByte (m ∷ ms) (c, cs) = rw (wire-cons m ms c) (
      All-append IsByte (frame c.item) (wire encode ms) (frame-IsByte c.item c.bytes)
        (wire-IsByte ms cs))
