-- ===== src/Proto/Coders/RoundTrip.antt =====
-- Two peers of connection_state.rs whose coders are those of bincode.rs or of json.rs.
use sansrpc.Prelude.{ℕ, ◌+◌, ◌<◌, ◌≡◌, List, [], ◌∷◌, length, All, Result}
use sansrpc.Proto.Message.{Message}
use sansrpc.Proto.Words.{usize_mod, IsByte}
use sansrpc.Proto.Buffer.{BytesMut}
use sansrpc.Proto.ReadState.{ReadConnectionConfig}
use sansrpc.Proto.ReadState.Session
use sansrpc.Proto.ReadState.Session.{ReadCall}
use sansrpc.Proto.ReadState.Order.{rounds}
use sansrpc.Proto.WriteState.{WriteConnectionConfig}
use sansrpc.Proto.WriteState.Session.{WriteCall, fed}
use sansrpc.Proto.Coders.{
  Bincode, BincodeSansCoder, bincode_encoder, bincode_decoder, SerdeJson, JsonSansCoder,
  json_encoder, json_decoder,
}
use sansrpc.Proto.Coders.Carries.{bincode-Carried, json-Carried}
use sansrpc.Proto.EndToEnd.{writer_after, reader_after, delivered-eq_accepted}

-- The message is serialised to an item whose frame has a `usize` for its length.
abbrev pub IsSerialised : {T E : Type 0} → (Message T → Result E (List ℕ)) → Message T → Type 0
IsSerialised serialise m =
    (item : List ℕ) × (serialise m ≡ Result.ok item) × (8 + length item < usize_mod)

All-map :
    {A : Type 0} (P Q : A → Type 0) → ((a : A) → P a → Q a) → (xs : List A) → All P xs → All Q xs
All-map P Q f [] h = tt
All-map P Q f (x ∷ xs) h = (f x h.0, All-map P Q f xs h.1)

module _ {T Buffer : Type 0} (bytes : BytesMut Buffer) (calls : List (WriteCall T))
    (reads : List ReadCall) where
  -- When bincode serialises to bytes and reads back what it has serialised, and every message that is
  -- fed is serialised to an item whose frame has a `usize` for its length: once the reader of a peer
  -- whose receive queue has a size has been fed with all of the flushed bytes, calling `process` and `consume_item` in turn
  -- delivers exactly the accepted messages. How many bytes bincode says that it has read plays no
  -- part.
  pub bincode-delivers :
      {EncodeError DecodeError : Type 0} (crate : Bincode T EncodeError DecodeError)
      (write_config : WriteConnectionConfig BincodeSansCoder)
      (read_config : ReadConnectionConfig BincodeSansCoder)
      → ((m : Message T) (item : List ℕ) → crate.encode_to_vec m ≡ Result.ok item → All IsByte item)
      → ((m : Message T) (item : List ℕ)
          → crate.encode_to_vec m ≡ Result.ok item
          → (read : ℕ) × (crate.decode_from_slice item ≡ Result.ok (m, read)))
      → All (IsSerialised crate.encode_to_vec) (fed bytes (bincode_encoder crate) calls)
      → 0 < read_config.recv_queue_size
      → let encoder = bincode_encoder crate in
        let decoder = bincode_decoder crate in
        let accepted =
          (writer_after bytes encoder decoder write_config read_config calls).accepted in
        let reader = reader_after bytes encoder decoder write_config read_config calls reads in
        reader.unread ≡ []
        → (Session.run bytes decoder reader (rounds (length accepted))).delivered ≡ accepted
  bincode-delivers crate write_config read_config is_bytes reads_back serialised sized all_in =
      delivered-eq_accepted bytes (bincode_encoder crate) (bincode_decoder crate) write_config
        read_config calls
        (All-map _ _
          (λ m (item, e, short).
            let (read, d) = reads_back m item e in
            bincode-Carried crate write_config.coder m item read e d short (is_bytes m item e))
          (fed bytes (bincode_encoder crate) calls) serialised)
        reads sized all_in

  -- With serde_json: when it serialises to bytes and reads back what it has serialised, and every
  -- message that is fed is serialised to an item whose frame has a `usize` for its length, then once
  -- the reader of a peer whose receive queue has a size has been fed with all of the flushed bytes, calling `process` and
  -- `consume_item` in turn delivers exactly the accepted messages.
  pub json-delivers :
      {E : Type 0} (crate : SerdeJson T E) (write_config : WriteConnectionConfig JsonSansCoder)
      (read_config : ReadConnectionConfig JsonSansCoder)
      → ((m : Message T) (item : List ℕ) → crate.to_vec m ≡ Result.ok item → All IsByte item)
      → ((m : Message T) (item : List ℕ)
          → crate.to_vec m ≡ Result.ok item
          → crate.from_slice item ≡ Result.ok m)
      → All (IsSerialised crate.to_vec) (fed bytes (json_encoder crate) calls)
      → 0 < read_config.recv_queue_size
      → let encoder = json_encoder crate in
        let decoder = json_decoder crate in
        let accepted =
          (writer_after bytes encoder decoder write_config read_config calls).accepted in
        let reader = reader_after bytes encoder decoder write_config read_config calls reads in
        reader.unread ≡ []
        → (Session.run bytes decoder reader (rounds (length accepted))).delivered ≡ accepted
  json-delivers crate write_config read_config is_bytes reads_back serialised sized all_in =
      delivered-eq_accepted bytes (json_encoder crate) (json_decoder crate) write_config read_config
        calls
        (All-map _ _
          (λ m (item, e, short).
            json-Carried crate write_config.coder m item e (reads_back m item e) short
              (is_bytes m item e))
          (fed bytes (json_encoder crate) calls) serialised)
        reads sized all_in
