-- ===== src/Base/Slices.antt =====
-- Python's slices over bytes: `d[a:a+n]` is read by `slice`, `d[off:off+len(buf)] = buf` is done by
-- `splice`. Both clamp to the end as Python does.
use Prim.Native.Nat.{ℕ, ◌+◌, ◌-◌, ◌≤◌, min}
use mathlib.Core.Path.{◌≡◌, refl, ap, ◌∙◌}
use mathlib.Core.List.{List, ◌++◌, append-nil}
use native.Mathlib.Omega.{arith}
use mame_sys.Base.Lists.{length, take, drop, length-append, length-take, length-drop}
use mame_sys.Base.Lists.{take-append, drop-append, take_all, drop_all, take-zero}
use mame_sys.Base.Lists.{drop-drop, drop-take, take-take}
use mame_sys.Base.Lists.{drop-append_left}

module _ {ℓ} {A : Type ℓ} where
  unfoldable pub slice : List A → ℕ → ℕ → List A
  unfolding take drop
  slice d a n = take n (drop a d)

  unfoldable pub splice : List A → ℕ → List A → List A
  unfolding take drop
  splice d off buf = take off d ++ (buf ++ drop (off + length buf) d)

module _ {ℓ} {A : Type ℓ} where
  pub slice_lem : (d : List A) (a n : ℕ) → slice d a n ≡ take n (drop a d)
  unfolding slice
  slice_lem d a n = refl

  pub length-slice : (d : List A) (a n : ℕ) → length (slice d a n) ≡ min n (length d - a)
  length-slice d a n =
      rw (slice_lem d a n) (omega (arith, length-take n (drop a d), length-drop a d))

  pub splice_lem :
      (d : List A) (off : ℕ) (buf : List A)
      → splice d off buf ≡ take off d ++ (buf ++ drop (off + length buf) d)
  unfolding splice
  splice_lem d off buf = refl

  pub length-splice :
      (d : List A) (off : ℕ) (buf : List A)
      → off + length buf ≤ length d
      → length (splice d off buf) ≡ length d
  length-splice d off buf h =
      rw (splice_lem d off buf, length-append (take off d), length-append buf)
        (omega (arith, length-take off d, length-drop (off + length buf) d))

  -- What lies before the written range is left.
  pub slice-splice_below :
      (d : List A) (off : ℕ) (buf : List A) (a n : ℕ)
      → off ≤ length d
      → a + n ≤ off
      → slice (splice d off buf) a n ≡ slice d a n
  slice-splice_below d off buf a n hd h =
      let front : List A = drop a (take off d) in
      let back : List A = drop (a - length (take off d)) (buf ++ drop (off + length buf) d) in
      let e : n - length front ≡ 0 = omega (arith, length-drop a (take off d), length-take off d) in
      rw
        (
          slice_lem (splice d off buf) a n,
          slice_lem d a n,
          splice_lem d off buf,
          drop-append a (take off d) (buf ++ drop (off + length buf) d),
          take-append n front back,
          e,
          take-zero back,
          append-nil,
          drop-take a off d,
        )
        (take-take n (off - a) (drop a d) (omega arith))

  -- So is what lies behind it.
  pub slice-splice_above :
      (d : List A) (off : ℕ) (buf : List A) (a n : ℕ)
      → off + length buf ≤ length d
      → off + length buf ≤ a
      → slice (splice d off buf) a n ≡ slice d a n
  slice-splice_above d off buf a n hd h =
      let tail : List A = drop (off + length buf) d in
      let e : length (take off d) ≡ off = omega (arith, length-take off d) in
      let e₁ : off + length buf + (a - off - length buf) ≡ a = omega arith in
      rw (slice_lem (splice d off buf) a n, slice_lem d a n, splice_lem d off buf)
        (ap (take n) (
          drop-append a (take off d) (buf ++ tail)
          ∙ rw (
            e,
            drop_all a (take off d) (omega arith),
            drop-append (a - off) buf tail,
            drop_all (a - off) buf (omega arith),
            drop-drop (a - off - length buf) (off + length buf) d,
            e₁,
          )))

  -- The written range holds what was written, followed by what was there.
  pub slice-splice_self :
      (d : List A) (off : ℕ) (buf : List A) (n : ℕ)
      → off + length buf ≤ length d
      → length buf ≤ n
      → slice (splice d off buf) off n ≡ buf ++ drop (length buf) (slice d off n)
  slice-splice_self d off buf n hd h =
      let tail : List A = drop (off + length buf) d in
      let e : off ≡ length (take off d) = omega (arith, length-take off d) in
      rw (
        slice_lem (splice d off buf) off n,
        slice_lem d off n,
        splice_lem d off buf,
        drop-append_left off (take off d) (buf ++ tail) e,
        take-append n buf tail,
        take_all n buf h,
        drop-take (length buf) n (drop off d),
        drop-drop (length buf) off d,
      )
