-- ===== src/Proto/ByteCoder.antt =====
-- A coder for the tests, which carries oneshots of one byte.
use sansrpc.Prelude.{ℕ, ◌<◌, refl, List, [], ◌∷◌, length, All, Result, arith, ltb, if◌then◌else◌}
use sansrpc.Proto.Message.{Message, oneshot}
use sansrpc.Proto.Encoder.{SansEncoder, SansDecoder}
use sansrpc.Proto.Wire.{Carried}
use sansrpc.Proto.ReadState.Transport.{Fits}
use sansrpc.Proto.ReadState.{ReadConnectionConfig}
use sansrpc.Proto.WriteState.{WriteConnectionConfig}

abbrev pub ping : ℕ → Message ℕ
ping n = oneshot (record { message = n })

-- A coder for oneshots of one byte.
abbrev pub byte_encode : Message ℕ → Result ℕ (List ℕ)
byte_encode m = elim m [ oneshot o ↦ Result.ok (o.message ∷ []) | _ ↦ Result.err 1 ]

abbrev pub byte_decode : List ℕ → Result ℕ (Message ℕ)
byte_decode [] = Result.err 2
byte_decode (n ∷ rest) = if ltb n 200 then Result.ok (ping n) else Result.err 3

abbrev pub byte_encoder : SansEncoder (Unit {0}) ℕ ℕ
byte_encoder = record {
  encode = λ self m. elim (byte_encode m) [
    | Result.ok item ↦ Result.ok (item, length item)
    | Result.err e ↦ Result.err e
  ];
}

abbrev pub byte_decoder : SansDecoder (Unit {0}) ℕ ℕ
byte_decoder = record { decode = λ self bytes. byte_decode bytes }

abbrev pub reads : ReadConnectionConfig (Unit {0})
reads = record { recv_queue_size = 2; recv_buffer_size = 16; coder = tt }

abbrev pub writes : WriteConnectionConfig (Unit {0})
writes = record { send_queue_size = 2; send_buffer_size = 16; coder = tt }

pub ping-Carried :
    (n : ℕ) → n < 200 → Carried (byte_encoder.encode tt) (byte_decoder.decode tt) (ping n)
ping-Carried n h = record {
  item = n ∷ [];
  encoded = refl;
  decoded = ground arith;
  fits = omega arith;
  bytes = omega arith;
}

abbrev pub three : List (Message ℕ)
three = ping 7 ∷ ping 8 ∷ ping 9 ∷ []

pub three-Carried : All (Carried (byte_encoder.encode tt) (byte_decoder.decode tt)) three
three-Carried = (
  ping-Carried 7 (omega arith),
  (ping-Carried 8 (omega arith), (ping-Carried 9 (omega arith), tt)),
)

ping-Fits : (n : ℕ) → n < 200 → Fits (byte_encoder.encode tt) (byte_decoder.decode tt) 16 (ping n)
ping-Fits n h = record {
  carried = record {
    item = n ∷ [];
    encoded = refl;
    decoded = ground arith;
    fits = omega arith;
    bytes = omega arith;
  };
  small = omega arith;
}

pub three-Fits : All (Fits (byte_encoder.encode tt) (byte_decoder.decode tt) 16) three
three-Fits =
    (ping-Fits 7 (omega arith), (ping-Fits 8 (omega arith), (ping-Fits 9 (omega arith), tt)))
