-- ===== src/Mkfs/Layout/Bounds.antt =====
-- The addresses of a layout lie below its end, there are 13 of them, and its buffers fit in blocks.
use mame_sys.Base.{ℕ, zero, suc, ◌+◌, ◌*◌, ◌≤◌, ◌<◌, List, [], ◌∷◌, ◌++◌, length, All, set}
use mame_sys.Base.{◌≡◌, refl, ap, ◌∙◌, arith, take, drop, replicate}
use mame_sys.Base.{length-append, length-drop}
use mame_sys.Mkfs.{nindir, naddr}
use mame_sys.Mkfs.Blocks.{Fit}
use mame_sys.Mkfs.Layout.{
  layout, layout_addr, nblk, range, chunks, tables, double_layout, double_addr,
}
use mame_sys.Mkfs.Layout.{
  indirect_layout, indirect_addr, chunks-Fit, tables-Fit, length-chunks, words-take_fits,
}
use mame_sys.Mkfs.Layout.{length-tables, length-range}
use mame_sys.Base.Codec.{words, length-words}
use mame_sys.Mkfs.FreeList.Walk.{length-set}
use mame_sys.Mkfs.Store.{fill_front}
use mame_sys.Mkfs.Writes.{max_blocks}

Below : ℕ → List ℕ → Type 0
Below n = All (λ a. a < n)

range-Below : (n lo k : ℕ) → lo + k ≤ n → Below n (range lo k)
unfolding range Below
range-Below n lo zero h = tt
range-Below n lo (suc k) h = (omega arith, range-Below n (lo + 1) k (omega arith))

take-Below : (n k : ℕ) (xs : List ℕ) → Below n xs → Below n (take k xs)
unfolding take Below
take-Below n zero xs h = tt
take-Below n (suc k) [] h = tt
take-Below n (suc k) (x ∷ xs) h = (h.0, take-Below n k xs h.1)

set-Below : (n : ℕ) (xs : List ℕ) (i v : ℕ) → v < n → Below n xs → Below n (set xs i v)
unfolding Below
set-Below n [] i v h k = tt
set-Below n (x ∷ xs) zero v h k = (h, k.1)
set-Below n (x ∷ xs) (suc i) v h k = (k.0, set-Below n xs i v h k.1)

fill_front-Below :
    (n : ℕ) (bs addr : List ℕ) → Below n bs → Below n addr → Below n (fill_front bs addr)
unfolding fill_front Below
fill_front-Below n [] addr h k = k
fill_front-Below n (b ∷ bs) [] h k = tt
fill_front-Below n (b ∷ bs) (_ ∷ addr) h k = (h.0, fill_front-Below n bs addr h.1 k.1)

zeros-Below : (n k : ℕ) → 1 ≤ n → Below n (replicate k 0)
unfolding replicate Below
zeros-Below n zero h = tt
zeros-Below n (suc k) h = (h, zeros-Below n k h)

double_addr-Below :
    (n at : ℕ) (rest addr : List ℕ)
    → at + length (double_layout at rest) ≤ n
    → Below n addr
    → Below n (double_addr at rest addr)
unfolding double_addr double_layout
double_addr-Below n at [] addr h k = k
double_addr-Below n at (r ∷ rest) addr h k =
    let ts = tables (length (r ∷ rest)) (r ∷ rest) in
    set-Below n addr 11 (at + length ts)
      (omega (arith, length-append ts (words (range at (length ts)) ∷ []))) k

indirect_addr-Below :
    (n at : ℕ) (rest addr : List ℕ)
    → at + length (indirect_layout at rest) ≤ n
    → Below n addr
    → Below n (indirect_addr at rest addr)
unfolding indirect_addr indirect_layout
indirect_addr-Below n at [] addr h k = k
indirect_addr-Below n at (r ∷ rest) addr h k =
    double_addr-Below n (at + 1) (drop nindir (r ∷ rest)) (set addr 10 at) (omega arith)
      (set-Below n addr 10 at (omega arith) k)

-- The addresses of a file all lie below the end of its layout.
pub layout_addr-below :
    (n lo : ℕ) (content : List ℕ)
    → lo + length (layout lo content) ≤ n
    → 1 ≤ n
    → All (λ a. a < n) (layout_addr lo content (replicate naddr 0))
unfolding layout_addr layout Below
layout_addr-below n lo content h h₁ =
    let k = nblk content in
    let rest = drop 10 (range lo k) in
    let all = length-append (chunks k 0 content) (indirect_layout (lo + k) rest) in
    let count = length-chunks k 0 content in
    indirect_addr-Below n (lo + k) rest _ (omega (arith, all, count)) (
      fill_front-Below n (take 10 (range lo k)) (replicate naddr 0)
        (take-Below n 10 (range lo k) (range-Below n lo k (omega (arith, all, count))))
        (zeros-Below n naddr h₁))

length-fill_front : (bs addr : List ℕ) → length (fill_front bs addr) ≡ length addr
unfolding fill_front
length-fill_front [] addr = refl
length-fill_front (b ∷ bs) [] = refl
length-fill_front (b ∷ bs) (_ ∷ addr) = ap suc (length-fill_front bs addr)

length-double_addr : (at : ℕ) (rest addr : List ℕ) → length (double_addr at rest addr) ≡ length addr
unfolding double_addr
length-double_addr at [] addr = refl
length-double_addr at (r ∷ rest) addr = length-set addr 11 _

length-indirect_addr :
    (at : ℕ) (rest addr : List ℕ) → length (indirect_addr at rest addr) ≡ length addr
unfolding indirect_addr
length-indirect_addr at [] addr = refl
length-indirect_addr at (r ∷ rest) addr =
    length-double_addr (at + 1) (drop nindir (r ∷ rest)) (set addr 10 at) ∙ length-set addr 10 at

pub length-layout_addr :
    (lo : ℕ) (content addr : List ℕ) → length (layout_addr lo content addr) ≡ length addr
unfolding layout_addr
length-layout_addr lo content addr =
    let front = take 10 (range lo (nblk content)) in
    length-indirect_addr (lo + nblk content) (drop 10 (range lo (nblk content)))
      (fill_front front addr)
    ∙ length-fill_front front addr

All-append {κ} :
    {A : Type 0} (P : A → Type κ) (xs ys : List A) → All P xs → All P ys → All P (xs ++ ys)
All-append P [] ys h k = k
All-append P (x ∷ xs) ys h k = (h.0, All-append P xs ys h.1 k)

double_layout-Fit :
    (at : ℕ) (rest : List ℕ) → length rest ≤ nindir * nindir → Fit (double_layout at rest)
unfolding double_layout
double_layout-Fit at [] h = tt
double_layout-Fit at (r ∷ rest) h =
    let ts = tables (length (r ∷ rest)) (r ∷ rest) in
    let n = length-tables (length (r ∷ rest)) (r ∷ rest) (omega arith) in
    All-append _ ts _ (tables-Fit (length (r ∷ rest)) (r ∷ rest))
      (omega (arith, length-words (range at (length ts)), length-range at (length ts)), tt)

indirect_layout-Fit :
    (at : ℕ) (rest : List ℕ)
    → length rest ≤ nindir + nindir * nindir
    → Fit (indirect_layout at rest)
unfolding indirect_layout
indirect_layout-Fit at [] h = tt
indirect_layout-Fit at (r ∷ rest) h = (
  words-take_fits (r ∷ rest),
  double_layout-Fit (at + 1) (drop nindir (r ∷ rest))
      (omega (arith, length-drop nindir (r ∷ rest))),
)

pub layout-Fit : (lo : ℕ) (content : List ℕ) → nblk content ≤ max_blocks → Fit (layout lo content)
unfolding layout
layout-Fit lo content h =
    let k = nblk content in
    let rest = drop 10 (range lo k) in
    All-append _ (chunks k 0 content) _ (chunks-Fit k 0 content) (
      indirect_layout-Fit (lo + k) rest
        (omega (arith, length-drop 10 (range lo k), length-range lo k)))
