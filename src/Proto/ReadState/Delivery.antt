-- ===== src/Proto/ReadState/Delivery.antt =====
-- A read half that is fed with the bytes of a list of messages, in any pieces, and asked for items
-- at any time.
use sansrpc.Prelude.{
  ℕ, suc, ◌≡◌, refl, sym, ap, ap₂, ◌∙◌, inl, inr, ◌⊎◌, List, [], ◌∷◌, ◌++◌, length, append_assoc,
  length-append, All, Result, Outcome, arith,
}
use sansrpc.Proto.Message.{Message}
use sansrpc.Proto.Frames.{
  frame, IsPartial, IsOverlong, Begins, length-frame, frame-injective, frame-ne-IsOverlong,
}
use sansrpc.Proto.Wire.{wire, Carried, wire-cons}
use sansrpc.Proto.ReadState.Drains.{Drains, full, no_frame, no_usize, refused, decoded}

module _ {T E F : Type 0} (encode : Message T → Result E (List ℕ × ℕ))
    (decode : List ℕ → Result F (Message T)) where
  -- A frame at the front of the bytes of some messages carries the first of them.
  pub wire-Begins :
      (todo : List (Message T)) {bytes item next : List ℕ} (unread : List ℕ)
      → All (Carried encode decode) todo
      → wire encode todo ≡ bytes ++ unread
      → Begins bytes item next
      → (m : Message T) × (later : List (Message T)) × All (Carried encode decode) later
        × (todo ≡ m ∷ later)
        × (decode item ≡ Result.ok m)
        × (wire encode later ≡ next ++ unread)
  unfolding wire
  wire-Begins [] {bytes} {item} {next} unread cs w b = absurd (
      omega (
        arith,
        ap length w,
        length-append bytes unread,
        ap length b.split,
        length-append (frame item) next,
        length-frame item,
      ))
  wire-Begins (m ∷ later) {bytes} {item} {next} unread (c, cs) w b =
      let (same, rest) =
        frame-injective c.item item (wire encode later) (next ++ unread) c.fits b.fits (
          sym (wire-cons encode decode m later c)
          ∙ w
          ∙ ap (λ t. t ++ unread) b.split
          ∙ append_assoc (frame item) next unread) in
      (m, later, cs, refl, rw (← same) c.decoded, rest)

  wire-ne-IsOverlong :
      (todo : List (Message T)) (bytes unread : List ℕ)
      → All (Carried encode decode) todo
      → wire encode todo ≡ bytes ++ unread
      → ¬ IsOverlong bytes
  unfolding wire
  wire-ne-IsOverlong [] bytes unread cs w o = omega (arith, ap length w, length-append bytes unread)
  wire-ne-IsOverlong (m ∷ later) bytes unread (c, cs) w o =
      frame-ne-IsOverlong bytes unread c.item (wire encode later) c.fits
        (sym (wire-cons encode decode m later c) ∙ w) o

  -- Draining such bytes takes the next messages off, in order, and meets no error.
  pub record Drained (todo ms : List (Message T)) (room : ℕ) (rest unread : List ℕ)
      (r : Outcome F (Unit {0})) : Type 0 where
    pub left : List (Message T)
    pub order : todo ≡ ms ++ left
    pub behind : wire encode left ≡ rest ++ unread
    pub succeeds : r ≡ Outcome.ok tt
    pub stops : (room ≡ length ms) ⊎ IsPartial rest

  one_more :
      {A P : Type 0} (a : A) (ms : List A) {room left : ℕ}
      → room ≡ suc left
      → (left ≡ length ms) ⊎ P
      → (room ≡ length (a ∷ ms)) ⊎ P
  one_more a ms e (inl h) = inl (omega arith)
  one_more a ms e (inr p) = inr p

  pub Drains-wire :
      (todo : List (Message T)) {room : ℕ} {bytes : List ℕ} {ms : List (Message T)} {rest : List ℕ}
      {r : Outcome F (Unit {0})} (unread : List ℕ)
      → All (Carried encode decode) todo
      → wire encode todo ≡ bytes ++ unread
      → Drains decode room bytes ms rest r
      → Drained todo ms room rest unread r
  Drains-wire todo unread cs w (full none_left) = record {
    left = todo;
    order = refl;
    behind = w;
    succeeds = refl;
    stops = inl none_left;
  }
  Drains-wire todo unread cs w (no_frame _ p) = record {
    left = todo;
    order = refl;
    behind = w;
    succeeds = refl;
    stops = inr p;
  }
  Drains-wire todo unread cs w (no_usize _ o) = absurd (wire-ne-IsOverlong todo _ unread cs w o)
  Drains-wire todo unread cs w (refused _ b e) =
      let (m, later, _, _, d, _) = wire-Begins todo unread cs w b in cc (d, e)
  Drains-wire todo unread cs w (decoded {m = n} {ms = ms} room_eq b d rest) =
      let (m, later, cs', first, d', w') = wire-Begins todo unread cs w b in
      let ih = Drains-wire later unread cs' w' rest in
      record {
        left = ih.left;
        order = first ∙ ap₂ ◌∷◌ (cc (d, d')) ih.order;
        behind = ih.behind;
        succeeds = ih.succeeds;
        stops = one_more n ms room_eq ih.stops;
      }
