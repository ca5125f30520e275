-- ===== src/Mkfs/Blocks.antt =====
-- Images as rows of blocks: what a new block holds, and which blocks an operation leaves alone.
use mathlib.Core.Path.{subst}
use mame_sys.Base.{ℕ, ◌+◌, ◌-◌, ◌*◌, ◌≤◌, ◌<◌, List, [], ◌∷◌, ◌++◌, length, All}
use mame_sys.Base.{◌≡◌, ◌≢◌, refl, ◌∙◌, ◌⊎◌, inl, inr, arith}
use mame_sys.Base.{replicate, slice, splice, length-splice, slice-splice_self}
use mame_sys.Base.{slice-splice_below, slice-splice_above, drop-replicate}
use mame_sys.Mkfs.{Fs, bsize}

abbrev pub block : List ℕ → ℕ → List ℕ
block d b = slice d (b * bsize) bsize

-- A block that was written once, over zeros.
abbrev pub padded : List ℕ → List ℕ
padded buf = buf ++ replicate (bsize - length buf) 0

-- The image has its size, and every block not given out yet is still zeros.
pub record IsValid (fs : Fs) : Type 0 where
  pub sized : length fs.image ≡ fs.nblocks * bsize
  pub room : 2 ≤ fs.next_block
  pub fresh : (b : ℕ) → fs.next_block ≤ b → b < fs.nblocks → block fs.image b ≡ replicate bsize 0

-- The blocks from `lo` on hold these buffers, one each.
abbrev pub HoldsAt : List ℕ → ℕ → List (List ℕ) → Type 0
HoldsAt d lo [] = Unit {0}
HoldsAt d lo (buf ∷ bufs) = (block d lo ≡ padded buf) × HoldsAt d (lo + 1) bufs

pub block-splice_self :
    (d : List ℕ) (b : ℕ) (buf : List ℕ)
    → (b + 1) * bsize ≤ length d
    → length buf ≤ bsize
    → block d b ≡ replicate bsize 0
    → block (splice d (b * bsize) buf) b ≡ padded buf
block-splice_self d b buf h hb e =
    slice-splice_self d (b * bsize) buf bsize (omega arith) hb
    ∙ rw (e, drop-replicate {A = ℕ} (length buf) bsize 0)

pub block-splice_ne :
    (d : List ℕ) (b : ℕ) (buf : List ℕ) (c : ℕ)
    → (b + 1) * bsize ≤ length d
    → length buf ≤ bsize
    → c ≢ b
    → block (splice d (b * bsize) buf) c ≡ block d c
block-splice_ne d b buf c h hb ne = elim sides [
  | inl below ↦ slice-splice_below d (b * bsize) buf (c * bsize) bsize (omega arith) (omega arith)
  | inr above ↦ slice-splice_above d (b * bsize) buf (c * bsize) bsize (omega arith) (omega arith)
]
  where
    sides : (c + 1 ≤ b) ⊎ (b + 1 ≤ c)
    sides = grind arith

-- What `store_block` makes of the object.
abbrev pub stored : List ℕ → Fs → Fs
stored buf fs = record fs {
  next_block = fs.next_block + 1;
  image = splice fs.image (fs.next_block * bsize) buf;
}

unfoldable pub store_all : List (List ℕ) → Fs → Fs
store_all [] fs = fs
store_all (buf ∷ bufs) fs = store_all bufs (stored buf fs)

-- Every buffer fits a block.
abbrev pub Fit : List (List ℕ) → Type 0
Fit = All (λ buf. length buf ≤ bsize)

pub stored-IsValid :
    (buf : List ℕ) (fs : Fs)
    → length buf ≤ bsize
    → fs.next_block < fs.nblocks
    → IsValid fs
    → IsValid (stored buf fs)
stored-IsValid buf fs hb h v = record {
  sized = length-splice fs.image (fs.next_block * bsize) buf (omega arith) ∙ v.sized;
  room = omega arith;
  fresh = λ b lo hi.
      block-splice_ne fs.image fs.next_block buf b (omega arith) hb (omega arith)
      ∙ v.fresh b (omega arith) hi;
}

pub store_all-next_block :
    (bufs : List (List ℕ)) (fs : Fs) → (store_all bufs fs).next_block ≡ fs.next_block + length bufs
unfolding store_all
store_all-next_block [] fs = omega arith
store_all-next_block (buf ∷ bufs) fs = omega (arith, store_all-next_block bufs (stored buf fs))

pub store_all-nblocks : (bufs : List (List ℕ)) (fs : Fs) → (store_all bufs fs).nblocks ≡ fs.nblocks
unfolding store_all
store_all-nblocks [] fs = refl
store_all-nblocks (buf ∷ bufs) fs = store_all-nblocks bufs (stored buf fs)

pub store_all-append :
    (xs ys : List (List ℕ)) (fs : Fs) → store_all (xs ++ ys) fs ≡ store_all ys (store_all xs fs)
unfolding store_all
store_all-append [] ys fs = refl
store_all-append (x ∷ xs) ys fs = store_all-append xs ys (stored x fs)

pub store_all-IsValid :
    (bufs : List (List ℕ)) (fs : Fs)
    → Fit bufs
    → fs.next_block + length bufs ≤ fs.nblocks
    → IsValid fs
    → IsValid (store_all bufs fs)
unfolding store_all
store_all-IsValid [] fs hb h v = v
store_all-IsValid (buf ∷ bufs) fs hb h v =
    store_all-IsValid bufs (stored buf fs) hb.1 (omega arith)
      (stored-IsValid buf fs hb.0 (omega arith) v)

-- The blocks given out before are left as they were.
pub block-store_all :
    (bufs : List (List ℕ)) (fs : Fs) (b : ℕ)
    → Fit bufs
    → fs.next_block + length bufs ≤ fs.nblocks
    → IsValid fs
    → b < fs.next_block
    → block (store_all bufs fs).image b ≡ block fs.image b
unfolding store_all
block-store_all [] fs b hb h v lt = refl
block-store_all (buf ∷ bufs) fs b hb h v lt =
    block-store_all bufs (stored buf fs) b hb.1 (omega arith)
      (stored-IsValid buf fs hb.0 (omega arith) v) (omega arith)
    ∙ block-splice_ne fs.image fs.next_block buf b (omega (arith, v.sized)) hb.0 (omega arith)

pub store_all-HoldsAt :
    (bufs : List (List ℕ)) (fs : Fs)
    → Fit bufs
    → fs.next_block + length bufs ≤ fs.nblocks
    → IsValid fs
    → HoldsAt (store_all bufs fs).image fs.next_block bufs
unfolding store_all
store_all-HoldsAt [] fs hb h v = tt
store_all-HoldsAt (buf ∷ bufs) fs hb h v =
    let v' : IsValid (stored buf fs) = stored-IsValid buf fs hb.0 (omega arith) v in
    (
      block-store_all bufs (stored buf fs) fs.next_block hb.1 (omega arith) v' (omega arith)
          ∙ block-splice_self fs.image fs.next_block buf (omega (arith, v.sized)) hb.0
              (v.fresh fs.next_block (omega arith) (omega arith)),
      store_all-HoldsAt bufs (stored buf fs) hb.1 (omega arith) v',
    )

-- An image that agrees on the blocks from `lo` to `hi`.
abbrev pub Agrees : List ℕ → List ℕ → ℕ → ℕ → Type 0
Agrees d d' lo hi = (b : ℕ) → lo ≤ b → b < hi → block d' b ≡ block d b

pub HoldsAt-Agrees :
    (bufs : List (List ℕ)) (d d' : List ℕ) (lo hi at : ℕ)
    → Agrees d d' lo hi
    → lo ≤ at
    → at + length bufs ≤ hi
    → HoldsAt d at bufs
    → HoldsAt d' at bufs
HoldsAt-Agrees [] d d' lo hi at same h₁ h₂ holds = tt
HoldsAt-Agrees (buf ∷ bufs) d d' lo hi at same h₁ h₂ holds = (
  same at h₁ (omega arith) ∙ holds.0,
  HoldsAt-Agrees bufs d d' lo hi (at + 1) same (omega arith) (omega arith) holds.1,
)

pub HoldsAt-append :
    (xs ys : List (List ℕ)) (d : List ℕ) (lo at : ℕ)
    → HoldsAt d lo (xs ++ ys)
    → at ≡ lo + length xs
    → HoldsAt d lo xs × HoldsAt d at ys
HoldsAt-append [] ys d lo at h e = (tt, subst (λ n. HoldsAt d n ys) (omega arith) h)
HoldsAt-append (x ∷ xs) ys d lo at h e =
    let both = HoldsAt-append xs ys d (lo + 1) at h.1 (omega arith) in ((h.0, both.0), both.1)
