-- ===== src/Service/Distinct.antt =====
-- Senders of requests, in the tables and deliveries of Service/Once: each one is there once.
use mathlib.Core.List.Memᴰ
use mathlib.Core.List.{Memᴰ}
use sansrpc.Prelude.{
  ℕ, ◌≡◌, ◌≢◌, refl, sym, ap, ◌∙◌, ◌⊎◌, inl, inr, some, Bool-cases, ==→eq, ◌==◌, List, [], ◌∷◌,
  ◌++◌, arith,
}
use sansrpc.Service.Channels.{Table, insert, remove, Delivery, to_stream, to_response}

abbrev pub IsDistinct : {A : Type 0} → List A → Type 0
IsDistinct [] = Unit {0}
IsDistinct (x ∷ xs) = (¬ Memᴰ x xs) × IsDistinct xs

abbrev pub senders : {A : Type 0} → List (ℕ × A) → List A
senders [] = []
senders ((k, a) ∷ asked) = a ∷ senders asked

-- The requests that have been answered, by their senders.
abbrev pub answered :
    {In StreamTx ResponseTx : Type 0} → List (Delivery In StreamTx ResponseTx) → List ResponseTx
answered [] = []
answered (to_response tx r ∷ ds) = tx ∷ answered ds
answered (to_stream tx m ∷ ds) = answered ds

module _ {A : Type 0} where
  pub IsDistinct-snoc :
      (xs : List A) (y : A) → IsDistinct xs → ¬ Memᴰ y xs → IsDistinct (xs ++ y ∷ [])
  IsDistinct-snoc [] y d n = (Memᴰ.not-nil, tt)
  IsDistinct-snoc (x ∷ xs) y d n = (
    λ m. elim (Memᴰ.append_cases xs m) [
      | inl before ↦ d.0 before
      | inr last ↦ n (Memᴰ.head (sym (Memᴰ.eq_of_singleton last)))
    ],
    IsDistinct-snoc xs y d.1 (λ m. n (Memᴰ.tail m)),
  )

  pub IsDistinct-fresh :
      (xs : List A) (y : A) (ys : List A) → IsDistinct (xs ++ y ∷ ys) → ¬ Memᴰ y xs
  IsDistinct-fresh [] y ys d = Memᴰ.not-nil
  IsDistinct-fresh (x ∷ xs) y ys d = λ m. elim (Memᴰ.cases_cons m) [
    | inl here ↦ d.0 (Memᴰ.append_right xs (Memᴰ.head (sym here)))
    | inr there ↦ IsDistinct-fresh xs y ys d.1 there
  ]

  pub senders-append : (xs ys : List (ℕ × A)) → senders (xs ++ ys) ≡ senders xs ++ senders ys
  senders-append [] ys = refl
  senders-append ((k, a) ∷ xs) ys = ap (◌∷◌ a) (senders-append xs ys)

  pub mem-senders :
      (k : ℕ) (a : A) (asked : List (ℕ × A)) → Memᴰ (k, a) asked → Memᴰ a (senders asked)
  mem-senders k a [] m = absurd (Memᴰ.not-nil m)
  mem-senders k a ((j, b) ∷ asked) m = elim (Memᴰ.cases_cons m) [
    | inl e ↦ Memᴰ.head (ap (λ p. p.1) e)
    | inr more ↦ Memᴰ.tail (mem-senders k a asked more)
  ]

pub answered-append :
    {In StreamTx ResponseTx : Type 0} (ds es : List (Delivery In StreamTx ResponseTx))
    → answered (ds ++ es) ≡ answered ds ++ answered es
answered-append [] es = refl
answered-append (to_response tx r ∷ ds) es = ap (◌∷◌ tx) (answered-append ds es)
answered-append (to_stream tx m ∷ ds) es = answered-append ds es

module _ {A : Type 0} where
  -- No sender waits under two ids.
  abbrev pub IsSingle : Table A → Type 0
  IsSingle t = (i j : ℕ) (a : A) → t i ≡ some a → t j ≡ some a → i ≡ j

  pub IsSingle-remove : (t : Table A) (k : ℕ) → IsSingle t → IsSingle (remove k t)
  IsSingle-remove t k h i j a p q = h i j a (ground (arith, p)) (ground (arith, q))

  -- The other senders are not the one that is taken out.
  pub remove-ne :
      (t : Table A) (k i : ℕ) (a b : A)
      → IsSingle t
      → t k ≡ some a
      → remove k t i ≡ some b
      → (t i ≡ some b) × (b ≢ a)
  remove-ne t k i a b h p q =
      let found : t i ≡ some b = ground (arith, q) in
      (found, λ same. ground (arith, q, h i k b found (p ∙ ap some (sym same))))

  pub IsSingle-insert :
      (t : Table A) (k : ℕ) (a : A)
      → IsSingle t
      → ((i : ℕ) → t i ≢ some a)
      → IsSingle (insert k a t)
  IsSingle-insert t k a h fresh i j b p q = elim (Bool-cases (i == k)) [
    | inl e ↦ elim (Bool-cases (j == k)) [
      | inl e' ↦ omega (arith, ==→eq i k e, ==→eq j k e')
      | inr e' ↦ absurd (fresh j (ground (arith, p, q)))
    ]
    | inr e ↦ elim (Bool-cases (j == k)) [
      | inl e' ↦ absurd (fresh i (ground (arith, p, q)))
      | inr e' ↦ h i j b (ground (arith, p)) (ground (arith, q))
    ]
  ]

  -- What `insert` adds, or what was there.
  pub insert-cases :
      (t : Table A) (k i : ℕ) (a b : A) → insert k a t i ≡ some b → (b ≡ a) ⊎ (t i ≡ some b)
  insert-cases t k i a b e = elim (Bool-cases (i == k)) [
    | inl same ↦ inl (ground (arith, e))
    | inr other ↦ inr (ground (arith, e))
  ]
