-- ===== src/Proto/Buffer.antt =====
-- The `BytesMut` of the crate bytes, which the connection state keeps its bytes in: an interface
-- with the documented behaviour of the methods that are called, and the lists that meet it.
use sansrpc.Prelude.{
  ℕ, ◌≤◌, ◌≡◌, refl, Option, none, some, List, [], ◌++◌, length, take, drop, ltb, if◌then◌else◌,
  le→ltb-false,
}

-- `split_to at` answers the bytes before `at` and leaves the others; it panics past the end.
-- `freeze` is followed by reading the frozen bytes as a slice.
pub record BytesMut (Buffer : Type 0) : Type 0 where
  pub with_capacity : ℕ → Buffer
  pub as_slice : Buffer → List ℕ
  pub extend_from_slice : Buffer → List ℕ → Buffer
  pub split_to : Buffer → ℕ → Option (Buffer × Buffer)
  pub freeze : Buffer → List ℕ
  pub as_slice-with_capacity : (n : ℕ) → as_slice (with_capacity n) ≡ []
  pub as_slice-extend :
      (b : Buffer) (bytes : List ℕ) → as_slice (extend_from_slice b bytes) ≡ as_slice b ++ bytes
  pub split_to_parts :
      (b : Buffer) (at : ℕ)
      → at ≤ length (as_slice b)
      → (front : Buffer) × (rest : Buffer) × (split_to b at ≡ some (front, rest))
        × (as_slice front ≡ take at (as_slice b))
        × (as_slice rest ≡ drop at (as_slice b))
  pub freeze-as_slice : (b : Buffer) → freeze b ≡ as_slice b

list_split_to : List ℕ → ℕ → Option (List ℕ × List ℕ)
list_split_to b at = if ltb (length b) at then none else some (take at b, drop at b)

list_split_to_parts :
    (b : List ℕ) (at : ℕ)
    → at ≤ length b
    → (front : List ℕ) × (rest : List ℕ) × (list_split_to b at ≡ some (front, rest))
      × (front ≡ take at b)
      × (rest ≡ drop at b)
unfolding list_split_to
list_split_to_parts b at h = (take at b, drop at b, rw (le→ltb-false _ _ h), refl, refl)

-- A list of bytes meets the interface.
unfoldable pub list_bytes : BytesMut (List ℕ)
unfolding list_split_to list_split_to_parts
list_bytes = record {
  with_capacity = λ n. [];
  as_slice = λ b. b;
  extend_from_slice = λ b bytes. b ++ bytes;
  split_to = list_split_to;
  freeze = λ b. b;
  as_slice-with_capacity = λ n. refl;
  as_slice-extend = λ b bytes. refl;
  split_to_parts = list_split_to_parts;
  freeze-as_slice = λ b. refl;
}
