-- ===== src/Mkfs/FreeList/Chain.antt =====
-- `build_free_list` leaves a chain whose walk gives every block that was not given out, once, in
-- ascending order.
use mame_sys.Base.{
  ℕ, zero, suc, ◌+◌, ◌-◌, ◌*◌, ◌^◌, ◌≤◌, ◌<◌, List, [], ◌∷◌, ◌++◌, length, All, set,
}
use mame_sys.Base.{◌==◌, ◌≡◌, refl, sym, ap, ◌∙◌, arith, inl, inr, Bool-cases, ==_iff, ==_ne}
use mathlib.Core.Path.{subst}
use mame_sys.Base.{slice, splice, drop, take, replicate, append-nil}
use mame_sys.Base.{length-append, length-replicate, length-slice, length-splice, drop_all}
use mame_sys.Base.{slice-splice_self, slice-splice_below, slice-splice_above, le→leb}
use native.Mathlib.Numerals.{add-one}
use mame_sys.Base.Codec.{le, length-le, from_le, words, length-words, pack_signed}
use mame_sys.Base.Codec.{pack_all_fits}
use mame_sys.Base.Result.{ok}
use mame_sys.Mkfs.{Fs, bsize, nicfree, ◌>>=◌, lift, put}
use mame_sys.Mkfs.Inodes.{ljust}
use mame_sys.Mkfs.Blocks.{block}
use mame_sys.Mkfs.Layout.{range}
use mame_sys.Mkfs.FreeList.{spill, bfree, bfree_down, build_free_list}
use mame_sys.Mkfs.FreeList.Walk.{walk, peek_words, peek_words-words, length-set}
use mame_sys.Mkfs.FreeList.Walk.{walk-push, walk-link, walk_end, walk-agrees}

abbrev Small : List ℕ → Type 0
Small = All (λ x. x < 2 ^ 32)

range-le_from : (lo at n : ℕ) → lo ≤ at → All (λ b. lo ≤ b) (range at n)
unfolding range
range-le_from lo at zero h = tt
range-le_from lo at (suc n) h = (h, range-le_from lo (at + 1) n (omega arith))

pub range-le : (lo n : ℕ) → All (λ b. lo ≤ b) (range lo n)
range-le lo n = range-le_from lo lo n (omega arith)

set-Small : (xs : List ℕ) (i v : ℕ) → Small xs → v < 2 ^ 32 → Small (set xs i v)
set-Small [] i v h k = tt
set-Small (x ∷ xs) zero v h k = (k, h.1)
set-Small (x ∷ xs) (suc i) v h k = (h.0, set-Small xs i v h.1 k)

-- The object while the blocks from `b` on are in the list, starting from `start`.
pub record IsChain (start fs : Fs) (b : ℕ) : Type 0 where
  pub rest :
      fs ≡ record start { image = fs.image; nfree = fs.nfree; free = fs.free; tfree = fs.tfree }
  pub sized : length fs.image ≡ length start.image
  pub fifty : length fs.free ≡ nicfree
  pub small : Small fs.free
  pub some_free : 1 ≤ fs.nfree
  pub at_most : fs.nfree ≤ nicfree
  pub counted : fs.tfree ≡ start.nblocks - b
  pub kept : (c : ℕ) → c < b → block fs.image c ≡ block start.image c
  pub walks :
      (fuel : ℕ)
      → start.nblocks - b < fuel
      → walk fuel fs.image fs.nfree fs.free ≡ range b (start.nblocks - b)

abbrev counted_up : Fs → Fs
counted_up fs = record fs { tfree = fs.tfree + 1 }

-- A full list as a block.
abbrev link : List ℕ → List ℕ
link free = ljust (le 4 nicfree ++ words free) bsize

length-link : (free : List ℕ) → length free ≡ nicfree → length (link free) ≡ bsize
unfolding ljust
length-link free h = omega (
  arith,
  length-append (le 4 nicfree ++ words free)
      (replicate (bsize - length (le 4 nicfree ++ words free)) 0),
  length-replicate {A = ℕ} (bsize - length (le 4 nicfree ++ words free)) 0,
  length-append (le 4 nicfree) (words free),
  length-le 4 nicfree,
  length-words free,
)

link_count : (free : List ℕ) → from_le (slice (link free) 0 4) ≡ nicfree
unfolding ljust slice take drop le from_le
link_count free = refl

link_words :
    (free : List ℕ) → length free ≡ nicfree → Small free → peek_words nicfree (link free) 4 ≡ free
link_words free h small =
    ap (λ k. peek_words k (link free) 4) (sym h)
    ∙ peek_words-words free (replicate (bsize - length (le 4 nicfree ++ words free)) 0) (link free)
        4 small (unfold ljust drop le in refl)

spill_room : (c : ℕ) (fs : Fs) → fs.nfree < nicfree → spill c fs ≡ ok (tt, fs)
unfolding spill
spill_room c fs h = rw (==_ne fs.nfree nicfree (omega arith))

spill_full :
    (c : ℕ) (fs : Fs)
    → fs.nfree ≡ nicfree
    → length fs.free ≡ nicfree
    → Small fs.free
    → spill c fs
      ≡ ok (tt, record fs { image = splice fs.image (c * bsize) (link fs.free); nfree = 0 })
unfolding spill put
spill_full c fs h fifty small =
    let test = (==_iff fs.nfree nicfree).1 h in
    let count : pack_signed 4 fs.nfree ≡ ok (le 4 nicfree) =
      ap (pack_signed 4) h ∙ unfold pack_signed in refl in
    let fits : length (link fs.free) ≤ bsize = omega (arith, length-link fs.free fifty) in
    rw (
      test,
      ◌>>=◌,
      count,
      lift,
      pack_all_fits fs.free small,
      le→leb (length (link fs.free)) bsize fits,
    )

module _ (start fs : Fs) (c : ℕ) (h₁ : 1 ≤ c) (h₂ : c < start.nblocks) (h₃ : start.nblocks ≤ 2 ^ 32)
    (h₄ : length start.image ≡ start.nblocks * bsize) (i : IsChain start fs (c + 1)) where
  count_down : start.nblocks - c ≡ suc (start.nblocks - (c + 1))
  count_down = omega arith

  range-cons : c ∷ range (c + 1) (start.nblocks - (c + 1)) ≡ range c (start.nblocks - c)
  unfolding range
  range-cons = rw count_down

  walks_room :
      fs.nfree < nicfree
      → (fuel : ℕ) → start.nblocks - c < fuel
      → walk fuel fs.image (fs.nfree + 1) (set fs.free fs.nfree c) ≡ range c (start.nblocks - c)
  walks_room h zero hf = absurd (omega arith)
  walks_room h (suc fuel) hf = rw add-one (
      walk-push fuel fs.image fs.nfree fs.free c i.some_free (omega (arith, i.fifty)) h₁
      ∙ ap (◌∷◌ c) (i.walks fuel (omega arith))
      ∙ range-cons)

  -- The list has room: the number goes on top.
  bfree-IsChain_room :
      fs.nfree < nicfree
      → (fs' : Fs) × (bfree c fs ≡ ok (tt, fs')) × IsChain start (counted_up fs') c
  unfolding bfree
  bfree-IsChain_room h = (
    record fs { free = set fs.free fs.nfree c; nfree = fs.nfree + 1 },
    rw (◌>>=◌, spill_room c fs h),
    record {
      rest =
          ap {A = Fs} {B = Fs}
            (λ f. record f {
              image = fs.image;
              nfree = fs.nfree + 1;
              free = set fs.free fs.nfree c;
              tfree = fs.tfree + 1;
            })
            i.rest;
      sized = i.sized;
      fifty = length-set fs.free fs.nfree c ∙ i.fifty;
      small = set-Small fs.free fs.nfree c i.small (omega arith);
      some_free = omega arith;
      at_most = omega arith;
      counted = omega arith;
      kept = λ b lt. i.kept b (omega arith);
      walks = λ fuel hf. walks_room h fuel hf;
    },
  )

  -- The list is full: it moves into the freed block, whose number starts a new one.
  linked : List ℕ
  linked = splice fs.image (c * bsize) (link fs.free)

  full_fits : c * bsize + length (link fs.free) ≤ length fs.image
  full_fits = omega (arith, length-link fs.free i.fifty, i.sized, h₄)

  block-linked_self : block linked c ≡ link fs.free
  unfolding linked
  block-linked_self =
      let whole = length-link fs.free i.fifty in
      slice-splice_self fs.image (c * bsize) (link fs.free) bsize full_fits (omega (arith, whole))
      ∙ ap (λ t. link fs.free ++ t)
          (drop_all (length (link fs.free)) (block fs.image c)
            (omega (arith, whole, length-slice fs.image (c * bsize) bsize)))
      ∙ append-nil (link fs.free)

  block-linked_above : (b : ℕ) → c + 1 ≤ b → block linked b ≡ block fs.image b
  unfolding linked
  block-linked_above b h =
      slice-splice_above fs.image (c * bsize) (link fs.free) (b * bsize) bsize full_fits
        (omega (arith, length-link fs.free i.fifty))

  block-linked_below : (b : ℕ) → b < c → block linked b ≡ block fs.image b
  unfolding linked
  block-linked_below b h =
      slice-splice_below fs.image (c * bsize) (link fs.free) (b * bsize) bsize
        (omega (arith, full_fits)) (omega arith)

  walks_full :
      fs.nfree ≡ nicfree
      → (fuel : ℕ) → start.nblocks - c < fuel
      → walk fuel linked 1 (set fs.free 0 c) ≡ range c (start.nblocks - c)
  walks_full h zero hf = absurd (omega arith)
  walks_full h (suc fuel) hf =
      let old : walk fuel fs.image nicfree fs.free ≡ range (c + 1) (start.nblocks - (c + 1)) =
        ap (λ n. walk fuel fs.image n fs.free) (sym h) ∙ i.walks fuel (omega arith) in
      let same =
        walk-agrees fuel fs.image linked (c + 1) nicfree fs.free block-linked_above
          (rw old (range-le (c + 1) (start.nblocks - (c + 1)))) in
      walk-link fuel linked fs.free c (omega (arith, i.fifty)) h₁
      ∙ ap (λ b. c ∷ walk fuel linked (from_le (slice b 0 4)) (peek_words nicfree b 4))
          block-linked_self
      ∙ rw (link_count fs.free, link_words fs.free i.fifty i.small)
          (ap (◌∷◌ c) (same ∙ old) ∙ range-cons)

  bfree-IsChain_full :
      fs.nfree ≡ nicfree
      → (fs' : Fs) × (bfree c fs ≡ ok (tt, fs')) × IsChain start (counted_up fs') c
  unfolding bfree
  bfree-IsChain_full h = (
    record fs { image = linked; free = set fs.free 0 c; nfree = 0 + 1 },
    rw (◌>>=◌, spill_full c fs h i.fifty i.small) (unfold linked in refl),
    record {
      rest =
          ap {A = Fs} {B = Fs}
            (λ f. record f {
              image = linked;
              nfree = 1;
              free = set fs.free 0 c;
              tfree = fs.tfree + 1;
            })
            i.rest;
      sized =
          unfold linked in (length-splice fs.image (c * bsize) (link fs.free) full_fits ∙ i.sized);
      fifty = length-set fs.free 0 c ∙ i.fifty;
      small = set-Small fs.free 0 c i.small (omega arith);
      some_free = omega arith;
      at_most = omega arith;
      counted = omega (arith, i.counted);
      kept = λ b lt. block-linked_below b lt ∙ i.kept b (omega arith);
      walks = λ fuel hf. walks_full h fuel hf;
    },
  )

  bfree-IsChain : (fs' : Fs) × (bfree c fs ≡ ok (tt, fs')) × IsChain start (counted_up fs') c
  bfree-IsChain = elim (Bool-cases (fs.nfree == nicfree)) [
    | inl full ↦ bfree-IsChain_full ((==_iff fs.nfree nicfree).0 full)
    | inr room ↦ bfree-IsChain_room (ground (arith, i.at_most))
  ]

bfree_down-IsChain :
    (k lo : ℕ) (start fs : Fs)
    → 1 ≤ lo
    → lo + k ≤ start.nblocks
    → start.nblocks ≤ 2 ^ 32
    → length start.image ≡ start.nblocks * bsize
    → IsChain start fs (lo + k)
    → (fs' : Fs) × (bfree_down k lo fs ≡ ok (tt, fs')) × IsChain start fs' lo
unfolding bfree_down
bfree_down-IsChain zero lo start fs h₁ h₂ h₃ h₄ i =
    (fs, refl, subst (IsChain start fs) (omega arith) i)
bfree_down-IsChain (suc k) lo start fs h₁ h₂ h₃ h₄ i =
    let e : lo + suc k ≡ lo + k + 1 = omega arith in
    let (fs₁, freed, i₁) =
      bfree-IsChain start fs (lo + k) (omega arith) (omega arith) h₃ h₄
        (subst (IsChain start fs) e i) in
    let (fs₂, rest, i₂) =
      bfree_down-IsChain k lo start (counted_up fs₁) h₁ (omega arith) h₃ h₄ i₁ in
    (fs₂, rw (◌>>=◌, freed) rest, i₂)

range_none : (n : ℕ) → [] ≡ range n (n - n)
unfolding range
range_none n = let e : n - n ≡ 0 = omega arith in rw e

-- The list that holds only the entry that ends the walk.
first-IsChain :
    (start : Fs)
    → (fs₁ : Fs) × (bfree 0 (record start { nfree = 0; free = replicate nicfree 0; tfree = 0 })
        ≡ ok (tt, fs₁))
      × IsChain start fs₁ start.nblocks
unfolding bfree spill replicate
first-IsChain start = (
  record start { nfree = 1; free = replicate nicfree 0; tfree = 0 },
  refl,
  record {
    rest = refl;
    sized = refl;
    fifty = refl;
    small = omega arith;
    some_free = omega arith;
    at_most = omega arith;
    counted = omega arith;
    kept = λ c lt. refl;
    walks =
        λ fuel hf. walk_end fuel start.image (replicate nicfree 0) refl ∙ range_none start.nblocks;
  },
)

-- On an image of the right size, of at most 2 ^ 32 blocks, with at least one block and at most
-- all of them given out, `build_free_list` succeeds. The walk along the free list that it leaves
-- gives the blocks from `next_block` to the end of the image, each once and in ascending order;
-- `tfree` is their number, the list for the superblock has 50 places, each of which fits in 32
-- bits and 1 to 50 of which are in use, and neither the size of the image, nor the blocks given
-- out before, nor any other field of the object changes.
pub walk-build_free_list :
    (fs : Fs)
    → 1 ≤ fs.next_block
    → fs.next_block ≤ fs.nblocks
    → fs.nblocks ≤ 2 ^ 32
    → length fs.image ≡ fs.nblocks * bsize
    → let count = fs.nblocks - fs.next_block in
      (fs' : Fs) × (build_free_list fs ≡ ok (tt, fs'))
      × (walk (count + 1) fs'.image fs'.nfree fs'.free ≡ range fs.next_block count)
      × (fs'.tfree ≡ count)
      × (1 ≤ fs'.nfree)
      × (fs'.nfree ≤ nicfree)
      × (length fs'.free ≡ nicfree)
      × Small fs'.free
      × (length fs'.image ≡ length fs.image)
      × ((b : ℕ) → b < fs.next_block → block fs'.image b ≡ block fs.image b)
      × (fs'
          ≡ record fs { image = fs'.image; nfree = fs'.nfree; free = fs'.free; tfree = fs'.tfree })
unfolding build_free_list
walk-build_free_list fs h₁ h₂ h₃ h₄ =
    let lo = fs.next_block in
    let k = fs.nblocks - lo in
    let (fs₁, freed, i₁) = first-IsChain fs in
    let (fs₂, rest, i₂) =
      bfree_down-IsChain k lo fs fs₁ h₁ (omega arith) h₃ h₄
        (subst (IsChain fs fs₁) (omega arith) i₁) in
    (
      fs₂,
      rw (◌>>=◌, freed) rest,
      i₂.walks (k + 1) (omega arith),
      i₂.counted,
      i₂.some_free,
      i₂.at_most,
      i₂.fifty,
      i₂.small,
      i₂.sized,
      i₂.kept,
      i₂.rest,
    )
