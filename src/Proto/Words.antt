-- ===== src/Proto/Words.antt =====
-- Machine words: `usize` and `u64` of 64 bits, with the wrap-around of an addition written out, and
-- the little-endian bytes of a `u64` (`to_le_bytes`, `from_le_bytes` of the standard library).
use sansrpc.Prelude.{
  ℕ, zero, suc, ◌+◌, ◌-◌, ◌*◌, ◌/◌, ◌%◌, ◌^◌, ◌<◌, ◌≡◌, refl, sym, ap, ap₂, ◌∙◌, List, [], ◌∷◌,
  length, All, arith,
}
use native.Mathlib.Nat.{pow-suc}

abbrev pub usize_mod : ℕ
usize_mod = 2 ^ 64

-- `a + b` on `usize`.
abbrev pub add_usize : ℕ → ℕ → ℕ
add_usize a b = (a + b) % usize_mod

-- `a - b` on `usize`.
abbrev pub sub_usize : ℕ → ℕ → ℕ
sub_usize a b = (a + usize_mod - b) % usize_mod

-- The `k` lowest bytes of `n`, the lowest first.
unfoldable pub le_bytes : ℕ → ℕ → List ℕ
le_bytes zero n = []
le_bytes (suc k) n = (n % 256) ∷ le_bytes k (n / 256)

unfoldable pub to_le_bytes : ℕ → List ℕ
unfolding le_bytes
to_le_bytes n = le_bytes 8 n

unfoldable pub from_le_bytes : List ℕ → ℕ
from_le_bytes [] = 0
from_le_bytes (b ∷ bs) = b + 256 * from_le_bytes bs

length-le_bytes : (k n : ℕ) → length (le_bytes k n) ≡ k
unfolding le_bytes
length-le_bytes zero n = refl
length-le_bytes (suc k) n = ap suc (length-le_bytes k (n / 256))

pub length-to_le_bytes : (n : ℕ) → length (to_le_bytes n) ≡ 8
unfolding to_le_bytes
length-to_le_bytes n = length-le_bytes 8 n

from_le_bytes-le_bytes : (k n : ℕ) → n < 256 ^ k → from_le_bytes (le_bytes k n) ≡ n
unfolding from_le_bytes le_bytes
from_le_bytes-le_bytes zero n h = omega arith
from_le_bytes-le_bytes (suc k) n h =
    omega (arith, pow-suc 256 k, from_le_bytes-le_bytes k (n / 256) (omega (arith, pow-suc 256 k)))

-- A `u64` is read back from its bytes.
pub from_le_bytes-to_le_bytes : (n : ℕ) → n < usize_mod → from_le_bytes (to_le_bytes n) ≡ n
unfolding to_le_bytes
from_le_bytes-to_le_bytes n h = from_le_bytes-le_bytes 8 n (omega arith)

abbrev pub IsByte : ℕ → Type 0
IsByte b = b < 256

pub from_le_bytes-lt : (bs : List ℕ) → All IsByte bs → from_le_bytes bs < 256 ^ length bs
unfolding from_le_bytes
from_le_bytes-lt [] h = omega arith
from_le_bytes-lt (b ∷ bs) h = omega (arith, pow-suc 256 (length bs), from_le_bytes-lt bs h.1)

le_bytes-from_le_bytes :
    (bs : List ℕ) → All IsByte bs → le_bytes (length bs) (from_le_bytes bs) ≡ bs
unfolding from_le_bytes le_bytes
le_bytes-from_le_bytes [] h = refl
le_bytes-from_le_bytes (b ∷ bs) (hb, hbs) =
    ap₂ ◌∷◌ (omega arith) (ap (le_bytes (length bs)) (omega arith) ∙ le_bytes-from_le_bytes bs hbs)

-- Eight bytes are the bytes of the `u64` that they stand for.
pub to_le_bytes-from_le_bytes :
    (bs : List ℕ) → All IsByte bs → length bs ≡ 8 → to_le_bytes (from_le_bytes bs) ≡ bs
unfolding to_le_bytes
to_le_bytes-from_le_bytes bs h e =
    ap (λ (k : ℕ). le_bytes k (from_le_bytes bs)) (sym e) ∙ le_bytes-from_le_bytes bs h

le_bytes-IsByte : (k n : ℕ) → All IsByte (le_bytes k n)
unfolding le_bytes
le_bytes-IsByte zero n = tt
le_bytes-IsByte (suc k) n = (omega arith, le_bytes-IsByte k (n / 256))

pub to_le_bytes-IsByte : (n : ℕ) → All IsByte (to_le_bytes n)
unfolding to_le_bytes
to_le_bytes-IsByte n = le_bytes-IsByte 8 n
