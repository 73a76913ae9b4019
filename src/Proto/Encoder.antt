-- ===== src/Proto/Encoder.antt =====
-- sansrpc-proto/src/encoder.rs: the traits of coders, as records of their methods, and what the
-- connection relies on where it promises to deliver messages.
use sansrpc.Prelude.{ℕ, List, Result}
use sansrpc.Proto.Message.{Message}

-- `Self` is the coder's type, `E` the associated type `Error`.
pub record SansEncoder (Self T E : Type 0) : Type 0 where
  pub encode : Self → Message T → Result E (List ℕ × ℕ)

pub record SansDecoder (Self T E : Type 0) : Type 0 where
  pub decode : Self → List ℕ → Result E (Message T)

-- `SansCoder`: both traits at once.
pub record SansCoder (Self In Out E F : Type 0) : Type 0 where
  pub encoder : SansEncoder Self Out E
  pub decoder : SansDecoder Self In F

-- `IntoSplitCoder`.
pub record IntoSplitCoder (Self Encoder Decoder : Type 0) : Type 0 where
  pub into_split : Self → Decoder × Encoder

-- The implementation for every coder that can be cloned; `clone` is its `Clone`.
abbrev pub clone_split : {Self : Type 0} → (Self → Self) → IntoSplitCoder Self Self Self
clone_split clone = record { into_split = λ self. (clone self, self) }
