-- ===== src/Proto/Coders.antt =====
-- sansrpc-proto/src/bincode.rs and json.rs: the two coders. The crates bincode and serde_json that
-- they call are parameters.
pub mod Carries
pub mod RoundTrip
use sansrpc.Prelude.{ℕ, ◌%◌, List, length, Result}
use sansrpc.Proto.Message.{Message}
use sansrpc.Proto.Encoder.{SansEncoder, SansDecoder}
use sansrpc.Proto.Words.{usize_mod}

pub data BincodeSansCoder : Type 0 where
  bincode : BincodeSansCoder

-- The errors of bincode, transparently.
pub data BincodeError (EncodeError DecodeError : Type 0) : Type 0 where
  encode_error : EncodeError → BincodeError EncodeError DecodeError
  decode_error : DecodeError → BincodeError EncodeError DecodeError

-- `encode_to_vec` and `decode_from_slice` of `bincode::serde` under the standard configuration;
-- the latter also answers how many bytes it has read.
pub record Bincode (T EncodeError DecodeError : Type 0) : Type 0 where
  pub encode_to_vec : Message T → Result EncodeError (List ℕ)
  pub decode_from_slice : List ℕ → Result DecodeError (Message T × ℕ)

module _ {T EncodeError DecodeError : Type 0} (crate : Bincode T EncodeError DecodeError) where
  open crate use {encode_to_vec, decode_from_slice}

  abbrev pub bincode_decode :
      BincodeSansCoder → List ℕ → Result (BincodeError EncodeError DecodeError) (Message T)
  bincode_decode self bytes = elim (decode_from_slice bytes) [
    | Result.ok (m, _) ↦ Result.ok m
    | Result.err e ↦ Result.err (decode_error e)
  ]

  -- `bytes.len() as _` is a cast to `u64`.
  abbrev pub bincode_encode :
      BincodeSansCoder → Message T → Result (BincodeError EncodeError DecodeError) (List ℕ × ℕ)
  bincode_encode self item = elim (encode_to_vec item) [
    | Result.ok bytes ↦ Result.ok (bytes, length bytes % usize_mod)
    | Result.err e ↦ Result.err (encode_error e)
  ]

  abbrev pub bincode_encoder : SansEncoder BincodeSansCoder T (BincodeError EncodeError DecodeError)
  bincode_encoder = record { encode = bincode_encode }

  abbrev pub bincode_decoder : SansDecoder BincodeSansCoder T (BincodeError EncodeError DecodeError)
  bincode_decoder = record { decode = bincode_decode }

pub data JsonSansCoder : Type 0 where
  json : JsonSansCoder

-- `to_vec` and `from_slice` of serde_json, which have one error type.
pub record SerdeJson (T E : Type 0) : Type 0 where
  pub to_vec : Message T → Result E (List ℕ)
  pub from_slice : List ℕ → Result E (Message T)

module _ {T E : Type 0} (crate : SerdeJson T E) where
  open crate use {to_vec, from_slice}

  abbrev pub json_encode : JsonSansCoder → Message T → Result E (List ℕ × ℕ)
  json_encode self item = elim (to_vec item) [
    | Result.ok bytes ↦ Result.ok (bytes, length bytes % usize_mod)
    | Result.err e ↦ Result.err e
  ]

  abbrev pub json_decode : JsonSansCoder → List ℕ → Result E (Message T)
  json_decode self bytes = from_slice bytes

  abbrev pub json_encoder : SansEncoder JsonSansCoder T E
  json_encoder = record { encode = json_encode }

  abbrev pub json_decoder : SansDecoder JsonSansCoder T E
  json_decoder = record { decode = json_decode }
