-- ===== src/Coff2genix/Ints.antt =====
-- Python's integers where tools/coff2genix.py computes with signed fields: sums, slices and padding.
use mame_sys.Base.{
  ℕ, zero, suc, ◌+◌, ◌-◌, ◌^◌, min, List, [], ◌∷◌, ◌++◌, Bool, true, false, ◌≡◌, ap, sym, ◌∙◌, ◌≤◌,
  inl, inr, ◌⊎◌, Bool-cases, drop_all,
}
use mame_sys.Base.{length, take, drop, replicate, slice, slice_lem, ltb, leb, if◌then◌else◌, arith}
use mame_sys.Base.{length-drop, take_all}
use mame_sys.Base.Codec.{ℤ, pos, negsuc, pack}
use mame_sys.Base.Result.{Result, err, struct_error, ok, ◌>>=◌}

-- The signed reading of a field of 32 bits.
unfoldable pub signed32 : ℕ → ℤ
signed32 n = if ltb n (2 ^ 31) then pos n else negsuc (2 ^ 32 - n - 1)

unfoldable pub minus : ℕ → ℕ → ℤ
minus m n = if leb n m then pos (m - n) else negsuc (n - m - 1)

infixl 30 ◌+ℤ◌
unfoldable pub ◌+ℤ◌ : ℤ → ℤ → ℤ
pos m +ℤ pos n = pos (m + n)
pos m +ℤ negsuc n = minus m (suc n)
negsuc m +ℤ pos n = minus n (suc m)
negsuc m +ℤ negsuc n = negsuc (m + n + 1)

unfoldable pub negative : ℤ → ℤ
negative (pos zero) = pos 0
negative (pos (suc n)) = negsuc n
negative (negsuc n) = pos (suc n)

infixl 30 ◌-ℤ◌
unfoldable pub ◌-ℤ◌ : ℤ → ℤ → ℤ
pos m -ℤ pos n = minus m n
m -ℤ n = m +ℤ negative n

unfoldable pub lt_z : ℤ → ℤ → Bool
lt_z (pos m) (pos n) = ltb m n
lt_z (pos m) (negsuc n) = false
lt_z (negsuc m) (pos n) = true
lt_z (negsuc m) (negsuc n) = ltb n m

-- Where an index of a slice stands in a sequence of the given length: a negative one counts from the
-- end, and all are clamped.
unfoldable pub position : ℤ → ℕ → ℕ
position (pos n) len = min n len
position (negsuc n) len = len - suc n

-- `d[a:b]`
unfoldable pub slice_z : List ℕ → ℤ → ℤ → List ℕ
slice_z d a b = let i = position a (length d) in take (position b (length d) - i) (drop i d)

-- `s.ljust(width, b'\0')`
unfoldable pub ljust_z : List ℕ → ℤ → List ℕ
ljust_z s (pos width) = s ++ replicate (width - length s) 0
ljust_z s (negsuc width) = s

-- An unsigned field of 32 bits: a negative value is `struct.error`.
unfoldable pub pack_z : ℤ → Result (List ℕ)
pack_z (pos n) = pack 4 n
pack_z (negsuc n) = err struct_error

unfoldable pub pack_row_z : List ℤ → Result (List ℕ)
pack_row_z [] = ok []
pack_row_z (x ∷ xs) = do b ← pack_z x; bs ← pack_row_z xs; ok (b ++ bs)

min-cases : (n m : ℕ) → ((n ≤ m) × (min n m ≡ n)) ⊎ ((m ≤ n) × (min n m ≡ m))
min-cases n m = elim (Bool-cases (leb n m)) [
  | inl e ↦ inl (ground arith, ground arith)
  | inr e ↦ inr (ground arith, ground arith)
]

take-min : (n : ℕ) (xs : List ℕ) → take (min n (length xs)) xs ≡ take n xs
take-min n xs = elim (min-cases n (length xs)) [
  | inl (h, e) ↦ ap (λ k. take k xs) e
  | inr (h, e) ↦
      ap (λ k. take k xs) e ∙ take_all (length xs) xs (omega arith) ∙ sym (take_all n xs h)
]

-- With an offset and a size that are not negative, the slice is the bytes there, as far as there are any.
pub slice_z-pos :
    (d : List ℕ) (off size : ℕ) → slice_z d (pos off) (pos off +ℤ pos size) ≡ slice d off size
unfolding slice_z position ◌+ℤ◌
slice_z-pos d off size = elim (min-cases off (length d)) [
  | inl (h, e) ↦
      ap (λ i. take (min (off + size) (length d) - i) (drop i d)) e
      ∙ ap (λ k. take k (drop off d)) (omega (arith, length-drop off d))
      ∙ take-min size (drop off d)
      ∙ sym (slice_lem d off size)
  | inr (h, e) ↦
      ap (λ l. take (min (off + size) (length d) - min off (length d)) l)
        (ap (λ i. drop i d) e ∙ drop_all (length d) d (omega arith))
      ∙ take_all _ [] (omega arith)
      ∙ sym (take_all size [] (omega arith))
      ∙ ap (take size) (sym (drop_all off d h))
      ∙ sym (slice_lem d off size)
]
