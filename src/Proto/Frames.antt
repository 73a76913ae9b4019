-- ===== src/Proto/Frames.antt =====
-- The format of the byte stream, which `process` of both halves of connection_state.rs spells out:
-- a frame is the length of an encoded item as eight little-endian bytes, and the item.
use sansrpc.Prelude.{
  ℕ, ◌+◌, ◌≤◌, ◌<◌, ◌≡◌, refl, sym, ap, ap₂, ◌∙◌, ◌⊎◌, inl, inr, List, ◌++◌, length, take, drop,
  take-append-drop, take-append_length, drop-append_length, take-append_le, length-append,
  length-take, length-drop, append_assoc, All, All-append, All-append_left, ltb, Bool-cases, ltb→lt,
  ltb-false→le, arith,
}
use sansrpc.Proto.Words.{
  usize_mod, IsByte, to_le_bytes, from_le_bytes, length-to_le_bytes, from_le_bytes-to_le_bytes,
  to_le_bytes-from_le_bytes, to_le_bytes-IsByte,
}

unfoldable pub frame : List ℕ → List ℕ
frame item = to_le_bytes (length item) ++ item

-- The `usize` that the first eight bytes stand for.
abbrev pub header : List ℕ → ℕ
header bytes = from_le_bytes (take 8 bytes)

-- The bytes end inside a frame: in its header, or behind it.
abbrev pub IsPartial : List ℕ → Type 0
IsPartial bytes =
    (length bytes < 8) ⊎ ((8 + header bytes < usize_mod) × (length bytes < 8 + header bytes))

-- The bytes announce an item whose frame has no `usize` for its length.
abbrev pub IsOverlong : List ℕ → Type 0
IsOverlong bytes = (8 ≤ length bytes) × (usize_mod ≤ 8 + header bytes)

-- The bytes begin with the frame of `item`.
pub record Begins (bytes item rest : List ℕ) : Type 0 where
  pub split : bytes ≡ frame item ++ rest
  pub fits : 8 + length item < usize_mod

pub length-frame : (item : List ℕ) → length (frame item) ≡ 8 + length item
unfolding frame
length-frame item =
    omega (arith, length-append (to_le_bytes (length item)) item, length-to_le_bytes (length item))

pub header-frame :
    (item rest : List ℕ) → 8 + length item < usize_mod → header (frame item ++ rest) ≡ length item
unfolding frame
header-frame item rest fits =
    let size = to_le_bytes (length item) in
    ap (λ t. from_le_bytes (take 8 t)) (append_assoc size item rest)
    ∙ ap from_le_bytes
        (take-append_length size (item ++ rest) 8 (sym (length-to_le_bytes (length item))))
    ∙ from_le_bytes-to_le_bytes (length item) (omega arith)

-- What stands at the front of a buffer.
pub data Front (bytes : List ℕ) : Type 0 where
  partial : IsPartial bytes → Front bytes
  overlong : IsOverlong bytes → Front bytes
  whole : (item rest : List ℕ) → Begins bytes item rest → Front bytes

-- A header of eight bytes, with an item of the announced length behind it, is a frame.
header-Begins :
    (bytes : List ℕ)
    → All IsByte bytes
    → 8 + header bytes < usize_mod
    → 8 + header bytes ≤ length bytes
    → Begins bytes (take (header bytes) (drop 8 bytes)) (drop (header bytes) (drop 8 bytes))
unfolding frame
header-Begins bytes h small long = record {
  split = sym (
      append_assoc (to_le_bytes (length item)) item rest
      ∙ ap₂ ◌++◌ size (take-append-drop (header bytes) (drop 8 bytes))
      ∙ take-append-drop 8 bytes);
  fits = omega (arith, sized);
}
  where
    item : List ℕ
    item = take (header bytes) (drop 8 bytes)

    rest : List ℕ
    rest = drop (header bytes) (drop 8 bytes)

    sized : length item ≡ header bytes
    sized = omega (arith, length-take (header bytes) (drop 8 bytes), length-drop 8 bytes)

    size : to_le_bytes (length item) ≡ take 8 bytes
    size =
        ap to_le_bytes sized
        ∙ to_le_bytes-from_le_bytes (take 8 bytes)
            (All-append_left IsByte (take 8 bytes) (drop 8 bytes) (rw (take-append-drop 8 bytes) h))
            (omega (arith, length-take 8 bytes))

-- Every buffer of bytes ends inside its first frame, is overlong, or begins with a frame.
pub front : (bytes : List ℕ) → All IsByte bytes → Front bytes
front bytes h = elim (Bool-cases (ltb (length bytes) 8)) [
  | inl short ↦ partial (inl (ltb→lt _ _ short))
  | inr eight ↦ elim (Bool-cases (ltb (8 + header bytes) usize_mod)) [
    | inr big ↦ overlong (ltb-false→le _ _ eight, ltb-false→le _ _ big)
    | inl small ↦ elim (Bool-cases (ltb (length bytes) (8 + header bytes))) [
      | inl cut ↦ partial (inr (ltb→lt _ _ small, ltb→lt _ _ cut))
      | inr long ↦ whole _ _ (header-Begins bytes h (ltb→lt _ _ small) (ltb-false→le _ _ long))
    ]
  ]
]

-- The bytes of a frame are bytes.
pub frame-IsByte : (item : List ℕ) → All IsByte item → All IsByte (frame item)
unfolding frame
frame-IsByte item h =
    All-append IsByte (to_le_bytes (length item)) item (to_le_bytes-IsByte (length item)) h

-- The header of a buffer that holds it is not changed by what is appended.
pub header-append : (bytes more : List ℕ) → 8 ≤ length bytes → header (bytes ++ more) ≡ header bytes
header-append bytes more h = ap from_le_bytes (take-append_le 8 bytes more h)

-- Two frames at the front of the same bytes are the same frame.
pub frame-injective :
    (x y xs ys : List ℕ)
    → 8 + length x < usize_mod
    → 8 + length y < usize_mod
    → frame x ++ xs ≡ frame y ++ ys
    → (x ≡ y) × (xs ≡ ys)
unfolding frame
frame-injective x y xs ys hx hy e = (
  sym (take-append_length x xs (length x) refl)
      ∙ ap (take (length x)) tails
      ∙ take-append_length y ys (length x) lengths,
  sym (drop-append_length x xs (length x) refl)
      ∙ ap (drop (length x)) tails
      ∙ drop-append_length y ys (length x) lengths,
)
  where
    lengths : length x ≡ length y
    lengths = sym (header-frame x xs hx) ∙ ap header e ∙ header-frame y ys hy

    behind : (z zs : List ℕ) → drop 8 (frame z ++ zs) ≡ z ++ zs
    behind z zs =
        ap (drop 8) (append_assoc (to_le_bytes (length z)) z zs)
        ∙ drop-append_length (to_le_bytes (length z)) (z ++ zs) 8
            (sym (length-to_le_bytes (length z)))

    tails : x ++ xs ≡ y ++ ys
    tails = sym (behind x xs) ∙ ap (drop 8) e ∙ behind y ys

-- Bytes that begin a stream of frames are not overlong.
pub frame-ne-IsOverlong :
    (bytes more item rest : List ℕ)
    → 8 + length item < usize_mod
    → frame item ++ rest ≡ bytes ++ more
    → ¬ IsOverlong bytes
frame-ne-IsOverlong bytes more item rest fits e (long, big) =
    omega (arith, header-frame item rest fits, ap header e, header-append bytes more long)

-- Bytes that begin with a frame do not end inside it.
pub frame-ne-IsPartial :
    (item rest : List ℕ) → 8 + length item < usize_mod → ¬ IsPartial (frame item ++ rest)
frame-ne-IsPartial item rest fits (inl short) =
    omega (arith, length-append (frame item) rest, length-frame item)
frame-ne-IsPartial item rest fits (inr (_, cut)) =
    omega (arith, length-append (frame item) rest, length-frame item, header-frame item rest fits)
