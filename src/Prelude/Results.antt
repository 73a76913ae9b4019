-- ===== src/Prelude/Results.antt =====
-- How a run of fallible code ends: with a value, with an error, by a panic, or not at all.
use mathlib.Core.Path.{◌≡◌, refl}
use mathlib.Core.Logic.{◌⊎◌, inl, inr}

-- `diverged` says that a loop of the model ran out of fuel.
pub data Outcome {ℓ κ} (E : Type ℓ) (A : Type κ) : Type (ℓ ⊔ κ) where
  ok : A → Outcome E A
  err : E → Outcome E A
  panicked : Outcome E A
  diverged : Outcome E A

-- Rust's `Result`, the answer of code that is called and not modelled.
pub data Result {ℓ κ} (E : Type ℓ) (A : Type κ) : Type (ℓ ⊔ κ) where
  ok : A → Result E A
  err : E → Result E A

-- `map_err(|_| f)`
abbrev pub map_err {ℓ κ ι} : {E : Type ℓ} {F : Type κ} {A : Type ι} → F → Outcome E A → Outcome F A
map_err f (Outcome.ok a) = Outcome.ok a
map_err f (Outcome.err e) = Outcome.err f
map_err f Outcome.panicked = Outcome.panicked
map_err f Outcome.diverged = Outcome.diverged

pub Result-cases {ℓ κ} :
    {E : Type ℓ} {A : Type κ} (r : Result E A)
    → ((a : A) × (r ≡ Result.ok a)) ⊎ ((e : E) × (r ≡ Result.err e))
Result-cases (Result.ok a) = inl (a, refl)
Result-cases (Result.err e) = inr (e, refl)

-- One round of a `loop`: it goes round again, or the method returns.
pub data Round {ℓ κ} (S : Type ℓ) (R : Type κ) : Type (ℓ ⊔ κ) where
  continue : S → Round S R
  return : S → R → Round S R

abbrev pub resume {ℓ κ} : {S : Type ℓ} {R : Type κ} → (S → S × R) → Round S R → S × R
resume next (continue s) = next s
resume next (return s r) = (s, r)
