-- ===== src/Proto/WriteState/Queue.antt =====
-- The queue and the buffer of the write half of connection_state.rs: `available_space`,
-- `consume_bytes` and `consume_all`.
use sansrpc.Prelude.{
  ℕ, zero, suc, ◌≤◌, ◌<◌, ◌≡◌, refl, sym, ap, ap₂, ◌∙◌, inl, inr, ◌⊎◌, true, false, Option, none,
  some, List, [], ◌∷◌, ◌++◌, length, take, drop, take-append-drop, append-nil, ltb, Bool-cases,
  ltb→lt, ltb-false→le, length-append, arith, tests, take-all, ◌↔◌, ◌≢◌,
}
use sansrpc.Proto.Message.{Message}
use sansrpc.Proto.Words.{usize_mod}
use sansrpc.Proto.Buffer.{BytesMut}
use sansrpc.Proto.WriteState.{
  ConnectionWriteState, is_empty, available_space, feed_item, consume_bytes, consume_all,
  replace_buffer,
}

-- The queue is within its configured size.
abbrev pub IsWithin :
    {Out Encoder Buffer : Type 0} → ConnectionWriteState Out Encoder Buffer → Type 0
IsWithin s = length s.send_queue ≤ s.config.send_queue_size

module _ {Out Encoder Buffer : Type 0} (s : ConnectionWriteState Out Encoder Buffer) where
  pub feed_item_cases :
      (item : Message Out)
      → (feed_item s item ≡ (record s { send_queue = s.send_queue ++ item ∷ [] }, none))
        ⊎ (feed_item s item ≡ (s, some item))
  unfolding feed_item
  feed_item_cases item = ground arith

  -- `feed_item` keeps the queue within its size: it appends the item while there is room, and
  -- otherwise hands it back and changes nothing.
  pub feed_item_lem :
      (item : Message Out)
      → IsWithin s
      → IsWithin (feed_item s item).0
        × ((((feed_item s item).1 ≡ none)
              × ((feed_item s item).0.send_queue ≡ s.send_queue ++ item ∷ []))
            ⊎ ((feed_item s item ≡ (s, some item))
                × (length s.send_queue ≡ s.config.send_queue_size)))
  unfolding feed_item
  feed_item_lem item h = ground (arith, length-append s.send_queue (item ∷ []))

  -- While the queue is within its size, which is a `usize`, `available_space` answers 0, however
  -- much room there is: it subtracts the larger of queue length and size from the size.
  pub available_space-eq_zero :
      IsWithin s → s.config.send_queue_size < usize_mod → available_space s ≡ 0
  unfolding available_space
  available_space-eq_zero h fits = omega arith

pub is_empty→eq : {A : Type 0} (xs : List A) → is_empty xs ≡ true → xs ≡ []
is_empty→eq [] h = refl
is_empty→eq (x ∷ xs) h = cc

take-nil : {A : Type 0} (n : ℕ) → take {A = A} n [] ≡ []
take-nil zero = refl
take-nil (suc n) = refl

not-is_empty : {A : Type 0} {xs : List A} → is_empty xs ≡ false → xs ≢ []
not-is_empty {xs = []} h = cc
not-is_empty {xs = x ∷ xs} h = λ e. cc e

-- The bytes that a consumer got, if any.
abbrev pub got : Option (List ℕ) → List ℕ
got none = []
got (some b) = b

module _ {Out Encoder Buffer : Type 0} (bytes : BytesMut Buffer)
    (s : ConnectionWriteState Out Encoder Buffer) where
  open bytes use {as_slice, freeze, split_to_parts, freeze-as_slice, as_slice-with_capacity}

  -- `t` is what is left of `s` when `taken` has been consumed.
  pub record Consumed (t : ConnectionWriteState Out Encoder Buffer) (taken : Option (List ℕ))
      : Type 0 where
    pub whole : got taken ++ as_slice t.send_buffer ≡ as_slice s.send_buffer
    pub same_queue : t.send_queue ≡ s.send_queue
    pub same_config : t.config ≡ s.config
    pub none_iff : (taken ≡ none) ↔ (as_slice s.send_buffer ≡ [])

  nothing : is_empty (as_slice s.send_buffer) ≡ true → Consumed s none
  nothing e = record {
    whole = refl;
    same_queue = refl;
    same_config = refl;
    none_iff = ((λ _. is_empty→eq _ e), (λ _. refl));
  }

  -- The whole buffer goes, and an empty one takes its place.
  everything :
      is_empty (as_slice s.send_buffer) ≡ false
      → Consumed (replace_buffer bytes s).0 (some (freeze s.send_buffer))
  unfolding replace_buffer
  everything e = record {
    whole =
        ap₂ ◌++◌ (freeze-as_slice s.send_buffer) (as_slice-with_capacity s.config.send_buffer_size)
        ∙ append-nil (as_slice s.send_buffer);
    same_queue = refl;
    same_config = refl;
    none_iff = ((λ h. cc h), (λ h. absurd (not-is_empty e h)));
  }

  part :
      (len : ℕ) {front rest : Buffer}
      → is_empty (as_slice s.send_buffer) ≡ false
      → as_slice front ≡ take len (as_slice s.send_buffer)
      → as_slice rest ≡ drop len (as_slice s.send_buffer)
      → Consumed (record s { send_buffer = rest }) (some (freeze front))
  part len {front} e f r = record {
    whole = ap₂ ◌++◌ (freeze-as_slice front ∙ f) r ∙ take-append-drop len (as_slice s.send_buffer);
    same_queue = refl;
    same_config = refl;
    none_iff = ((λ h. cc h), (λ h. absurd (not-is_empty e h)));
  }

  -- `consume_all` takes the whole send buffer, and answers `None` only if that is empty.
  pub consume_all_lem :
      Consumed (consume_all bytes s).0 (consume_all bytes s).1
      × (as_slice (consume_all bytes s).0.send_buffer ≡ [])
  unfolding consume_all replace_buffer
  consume_all_lem = elim (Bool-cases (is_empty (as_slice s.send_buffer))) [
    | inl e ↦ rw (e, consume_all) (nothing e, is_empty→eq _ e)
    | inr e ↦ rw (e, consume_all) (everything e, as_slice-with_capacity s.config.send_buffer_size)
  ]

  -- `consume_bytes` does not panic: it takes the front of the send buffer, up to `len` bytes, and
  -- answers `None` only if the buffer is empty.
  pub consume_bytes_lem :
      (len : ℕ)
      → (t : ConnectionWriteState Out Encoder Buffer) × (taken : Option (List ℕ)) × (consume_bytes
            bytes s len
          ≡ some (t, taken))
        × Consumed t taken
        × (got taken ≡ take len (as_slice s.send_buffer))
  unfolding consume_bytes replace_buffer
  consume_bytes_lem len = elim (Bool-cases (is_empty (as_slice s.send_buffer))) [
    | inl e ↦ (
      s,
      none,
      rw (e, consume_bytes),
      nothing e,
      sym (ap (take len) (is_empty→eq _ e) ∙ take-nil len),
    )
    | inr e ↦ elim (Bool-cases (ltb (length (as_slice s.send_buffer)) len)) [
      | inl long ↦ (
        (replace_buffer bytes s).0,
        some (freeze s.send_buffer),
        rw (e, long, consume_bytes),
        everything e,
        freeze-as_slice s.send_buffer
            ∙ sym (take-all len (as_slice s.send_buffer) (omega (tests, ltb→lt _ _ long))),
      )
      | inr short ↦
          let (front, rest, split, f, r) =
            split_to_parts s.send_buffer len (ltb-false→le _ _ short) in
          (
            record s { send_buffer = rest },
            some (freeze front),
            rw (e, short, split, consume_bytes),
            part len e f r,
            freeze-as_slice front ∙ f,
          )
    ]
  ]
