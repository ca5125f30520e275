-- ===== src/Mkfs/Layout.antt =====
-- What `store_data` writes, said without state: the buffers in the order of their blocks, and the
-- addresses that the inode gets.
pub mod Bounds
use mame_sys.Base.{ℕ, zero, suc, ◌+◌, ◌-◌, ◌*◌, ◌/◌, ◌^◌, ◌≤◌, ◌<◌, List, [], ◌∷◌, ◌++◌, All}
use mame_sys.Base.{length, set, ◌≡◌, refl, ap, arith}
use mame_sys.Base.{drop, take, slice, length-drop, length-take, length-slice}
use mame_sys.Base.Codec.{words, length-words}
use mame_sys.Mkfs.{bsize, nindir}
use mame_sys.Mkfs.Blocks.{Fit}
use mame_sys.Mkfs.Store.{fill_front}

-- `n` block numbers from `lo` on.
unfoldable pub range : ℕ → ℕ → List ℕ
range lo zero = []
range lo (suc n) = lo ∷ range (lo + 1) n

unfoldable pub chunks : ℕ → ℕ → List ℕ → List (List ℕ)
chunks zero i content = []
chunks (suc rounds) i content = slice content (i * bsize) bsize ∷ chunks rounds (i + 1) content

-- The blocks of addresses under a double indirect block.
unfoldable pub tables : ℕ → List ℕ → List (List ℕ)
tables fuel [] = []
tables zero (r ∷ rest) = []
tables (suc fuel) (r ∷ rest) = words (take nindir (r ∷ rest)) ∷ tables fuel (drop nindir (r ∷ rest))

-- The tables for the block numbers in `rest`, where the first stands in block `at`.
unfoldable pub double_layout : ℕ → List ℕ → List (List ℕ)
double_layout at [] = []
double_layout at (r ∷ rest) =
    let ts = tables (length (r ∷ rest)) (r ∷ rest) in ts ++ (words (range at (length ts)) ∷ [])

unfoldable pub double_addr : ℕ → List ℕ → List ℕ → List ℕ
double_addr at [] addr = addr
double_addr at (r ∷ rest) addr = set addr 11 (at + length (tables (length (r ∷ rest)) (r ∷ rest)))

unfoldable pub indirect_layout : ℕ → List ℕ → List (List ℕ)
indirect_layout at [] = []
indirect_layout at (r ∷ rest) =
    words (take nindir (r ∷ rest)) ∷ double_layout (at + 1) (drop nindir (r ∷ rest))

unfoldable pub indirect_addr : ℕ → List ℕ → List ℕ → List ℕ
indirect_addr at [] addr = addr
indirect_addr at (r ∷ rest) addr = double_addr (at + 1) (drop nindir (r ∷ rest)) (set addr 10 at)

abbrev pub nblk : List ℕ → ℕ
nblk content = (length content + bsize - 1) / bsize

-- All the buffers of a file whose first block is `lo`.
unfoldable pub layout : ℕ → List ℕ → List (List ℕ)
layout lo content =
    chunks (nblk content) 0 content
    ++ indirect_layout (lo + nblk content) (drop 10 (range lo (nblk content)))

unfoldable pub layout_addr : ℕ → List ℕ → List ℕ → List ℕ
layout_addr lo content addr =
    indirect_addr (lo + nblk content) (drop 10 (range lo (nblk content)))
      (fill_front (take 10 (range lo (nblk content))) addr)

abbrev pub Small : List ℕ → Type 0
Small = All (λ x. x < 2 ^ 32)

pub length-range : (lo n : ℕ) → length (range lo n) ≡ n
unfolding range
length-range lo zero = refl
length-range lo (suc n) = ap suc (length-range (lo + 1) n)

pub length-chunks : (n i : ℕ) (content : List ℕ) → length (chunks n i content) ≡ n
unfolding chunks
length-chunks zero i content = refl
length-chunks (suc n) i content = ap suc (length-chunks n (i + 1) content)

pub range-Small : (lo n : ℕ) → lo + n ≤ 2 ^ 32 → Small (range lo n)
unfolding range
range-Small lo zero h = tt
range-Small lo (suc n) h = (omega arith, range-Small (lo + 1) n (omega arith))

pub take-Small : (n : ℕ) (xs : List ℕ) → Small xs → Small (take n xs)
unfolding take
take-Small zero xs h = tt
take-Small (suc n) [] h = tt
take-Small (suc n) (x ∷ xs) h = (h.0, take-Small n xs h.1)

pub drop-Small : (n : ℕ) (xs : List ℕ) → Small xs → Small (drop n xs)
unfolding drop
drop-Small zero xs h = h
drop-Small (suc n) [] h = tt
drop-Small (suc n) (x ∷ xs) h = drop-Small n xs h.1

pub chunks-Fit : (n i : ℕ) (content : List ℕ) → Fit (chunks n i content)
unfolding chunks
chunks-Fit zero i content = tt
chunks-Fit (suc n) i content =
    (omega (arith, length-slice content (i * bsize) bsize), chunks-Fit n (i + 1) content)

pub words-take_fits : (xs : List ℕ) → length (words (take nindir xs)) ≤ bsize
words-take_fits xs = omega (arith, length-words (take nindir xs), length-take nindir xs)

pub tables-Fit : (fuel : ℕ) (rest : List ℕ) → Fit (tables fuel rest)
unfolding tables
tables-Fit fuel [] = tt
tables-Fit zero (r ∷ rest) = tt
tables-Fit (suc fuel) (r ∷ rest) =
    (words-take_fits (r ∷ rest), tables-Fit fuel (drop nindir (r ∷ rest)))

-- One table for each 256 numbers, the last one perhaps not full.
pub length-tables :
    (fuel : ℕ) (rest : List ℕ)
    → length rest ≤ fuel
    → length (tables fuel rest) ≡ (length rest + 255) / 256
unfolding tables
length-tables fuel [] h = refl
length-tables zero (r ∷ rest) h = absurd (omega arith)
length-tables (suc fuel) (r ∷ rest) h =
    let ih = length-tables fuel (drop nindir (r ∷ rest)) in
    omega (arith, ih (omega (arith, length-drop nindir (r ∷ rest))), length-drop nindir (r ∷ rest))
