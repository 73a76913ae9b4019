-- ===== src/Proto/Coders/Carries.antt =====
-- The coders of bincode.rs and json.rs carry every message that their crate reads back.
use sansrpc.Prelude.{ℕ, ◌+◌, ◌<◌, ◌≡◌, ap, List, length, All, Result, arith}
use sansrpc.Proto.Message.{Message}
use sansrpc.Proto.Words.{usize_mod, IsByte}
use sansrpc.Proto.Wire.{Carried}
use sansrpc.Proto.Coders.{
  Bincode, BincodeSansCoder, bincode_encode, bincode_decode, SerdeJson, JsonSansCoder, json_encode,
  json_decode,
}

-- The coder of bincode carries a message that the crate encodes to bytes with a `usize` for the
-- length of their frame, and decodes from those bytes, however many it says that it has read.
pub bincode-Carried :
    {T EncodeError DecodeError : Type 0} (crate : Bincode T EncodeError DecodeError)
    (self : BincodeSansCoder) (m : Message T) (item : List ℕ) (read : ℕ)
    → crate.encode_to_vec m ≡ Result.ok item
    → crate.decode_from_slice item ≡ Result.ok (m, read)
    → 8 + length item < usize_mod
    → All IsByte item
    → Carried (bincode_encode crate self) (bincode_decode crate self) m
bincode-Carried crate self m item read e d fits h = record {
  item = item;
  encoded = rw (e, bincode_encode) (ap (λ (k : ℕ). Result.ok (item, k)) (omega arith));
  decoded = rw (d, bincode_decode);
  fits = fits;
  bytes = h;
}

-- The coder of serde_json carries a message that the crate encodes to bytes with a `usize` for the
-- length of their frame, and reads back from those bytes.
pub json-Carried :
    {T E : Type 0} (crate : SerdeJson T E) (self : JsonSansCoder) (m : Message T) (item : List ℕ)
    → crate.to_vec m ≡ Result.ok item
    → crate.from_slice item ≡ Result.ok m
    → 8 + length item < usize_mod
    → All IsByte item
    → Carried (json_encode crate self) (json_decode crate self) m
json-Carried crate self m item e d fits h = record {
  item = item;
  encoded = rw (e, json_encode) (ap (λ (k : ℕ). Result.ok (item, k)) (omega arith));
  decoded = d;
  fits = fits;
  bytes = h;
}
