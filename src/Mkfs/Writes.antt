-- ===== src/Mkfs/Writes.antt =====
-- `store_data` writes the layout of `Mkfs.Layout` when the image has room for it.
use mame_sys.Base.{ℕ, zero, suc, ◌+◌, ◌*◌, ◌/◌, ◌^◌, ◌≤◌, ◌<◌, List, [], ◌∷◌, ◌++◌}
use mame_sys.Base.{length, set, ◌≡◌, refl, sym, ap, ◌∙◌, arith, append_assoc}
use mame_sys.Base.{append-nil}
use mame_sys.Base.{drop, take, slice, length-append, length-drop, length-take, length-slice}
use mame_sys.Base.{not_lt→ltb, le→leb, not_le→leb}
use mame_sys.Base.Codec.{words, length-words, pack_all_fits}
use mame_sys.Base.Result.{ok}
use mame_sys.Mkfs.{Inode, Fs, bsize, nindir, ◌>>=◌, lift, update}
use mame_sys.Mkfs.Blocks.{
  stored, store_all, store_all-append, store_all-next_block, store_all-nblocks,
}
use mame_sys.Mkfs.Store.{store_block, store_table, store_blocks, store_outer, store_double}
use mame_sys.Mkfs.Store.{store_indirect, store_data, fill_front}
use mame_sys.Mkfs.Layout.{range, chunks, tables, double_layout, double_addr, indirect_layout}
use mame_sys.Mkfs.Layout.{
  indirect_addr, nblk, layout, layout_addr, Small, length-range, length-chunks,
}
use mame_sys.Mkfs.Layout.{range-Small, take-Small, drop-Small, length-tables}

pub store_block-eq-ok :
    (buf : List ℕ) (fs : Fs)
    → fs.next_block < fs.nblocks
    → length buf ≤ bsize
    → store_block buf fs ≡ ok (fs.next_block, stored buf fs)
unfolding store_block
store_block-eq-ok buf fs h hb = rw (not_le→leb _ _ h, ◌>>=◌, le→leb _ _ hb)

store_table-eq-ok :
    (xs : List ℕ) (fs : Fs)
    → fs.next_block < fs.nblocks
    → length xs ≤ nindir
    → Small xs
    → store_table xs fs ≡ ok (fs.next_block, stored (words xs) fs)
unfolding store_table
store_table-eq-ok xs fs h hx small =
    let hb : length (words xs) ≤ bsize = omega (arith, length-words xs) in
    rw (not_le→leb _ _ h, ◌>>=◌, pack_all_fits xs small, lift, le→leb _ _ hb)

store_blocks-eq-ok :
    (n i : ℕ) (content : List ℕ) (fs : Fs)
    → fs.next_block + n ≤ fs.nblocks
    → store_blocks n i content fs ≡ ok (range fs.next_block n, store_all (chunks n i content) fs)
unfolding store_blocks range chunks store_all
store_blocks-eq-ok zero i content fs h = refl
store_blocks-eq-ok (suc n) i content fs h =
    let hb : length (slice content (i * bsize) bsize) ≤ bsize =
      omega (arith, length-slice content (i * bsize) bsize) in
    let chunk = slice content (i * bsize) bsize in
    rw (
      store_block-eq-ok chunk fs (omega arith) hb,
      ◌>>=◌,
      store_blocks-eq-ok n (i + 1) content (stored chunk fs) (omega arith),
    )

store_outer-eq-ok :
    (fuel : ℕ) (rest outer : List ℕ) (fs : Fs)
    → Small rest
    → length outer + length (tables fuel rest) ≤ nindir
    → fs.next_block + length (tables fuel rest) ≤ fs.nblocks
    → store_outer fuel rest outer fs
      ≡ ok (
        outer ++ range fs.next_block (length (tables fuel rest)),
        store_all (tables fuel rest) fs,
      )
unfolding store_outer tables range store_all
store_outer-eq-ok fuel [] outer fs small h₁ h₂ = rw append-nil
store_outer-eq-ok zero (r ∷ rest) outer fs small h₁ h₂ = rw append-nil
store_outer-eq-ok (suc fuel) (r ∷ rest) outer fs small h₁ h₂ =
    let xs = take nindir (r ∷ rest) in
    let outer' = outer ++ (fs.next_block ∷ []) in
    let e : length outer' ≡ length outer + 1 = length-append outer (fs.next_block ∷ []) in
    let here =
      store_table-eq-ok xs fs (omega arith) (omega (arith, length-take nindir (r ∷ rest)))
        (take-Small nindir (r ∷ rest) small) in
    let ih =
      store_outer-eq-ok fuel (drop nindir (r ∷ rest)) outer' (stored (words xs) fs)
        (drop-Small nindir (r ∷ rest) small) (omega arith) (omega arith) in
    rw (here, ◌>>=◌, not_lt→ltb nindir (length outer') (omega arith)) (ih ∙ rw append_assoc)

store_double-eq-ok :
    (ino : Inode) (rest : List ℕ) (fs : Fs)
    → Small rest
    → length rest ≤ nindir * nindir
    → fs.nblocks ≤ 2 ^ 24
    → fs.next_block + length (double_layout fs.next_block rest) ≤ fs.nblocks
    → store_double ino rest fs
      ≡ ok (
        record ino { addr = double_addr fs.next_block rest ino.addr },
        store_all (double_layout fs.next_block rest) fs,
      )
unfolding store_double double_layout double_addr store_all
store_double-eq-ok ino [] fs small h₁ h₂ h₃ = refl
store_double-eq-ok ino (r ∷ rest) fs small h₁ h₂ h₃ =
    let ts = tables (length (r ∷ rest)) (r ∷ rest) in
    let lo = fs.next_block in
    let n : length ts ≡ (length (r ∷ rest) + 255) / 256 =
      length-tables (length (r ∷ rest)) (r ∷ rest) (omega arith) in
    let all : lo + length ts + 1 ≤ fs.nblocks =
      omega (arith, length-append ts (words (range lo (length ts)) ∷ [])) in
    let outer =
      store_outer-eq-ok (length (r ∷ rest)) (r ∷ rest) [] fs small (omega arith) (omega arith) in
    let last =
      store_table-eq-ok (range lo (length ts)) (store_all ts fs)
        (omega (arith, store_all-next_block ts fs, ap (λ (k : ℕ). k) (store_all-nblocks ts fs)))
        (omega (arith, length-range lo (length ts))) (range-Small lo (length ts) (omega arith)) in
    rw (outer, ◌>>=◌, last)
      (λ i. ok (
        record ino { addr = set ino.addr 11 (store_all-next_block ts fs i) },
        sym (store_all-append ts (words (range lo (length ts)) ∷ []) fs) i,
      ))

store_indirect-eq-ok :
    (ino : Inode) (rest : List ℕ) (fs : Fs)
    → Small rest
    → length rest ≤ nindir + nindir * nindir
    → fs.nblocks ≤ 2 ^ 24
    → fs.next_block + length (indirect_layout fs.next_block rest) ≤ fs.nblocks
    → store_indirect ino rest fs
      ≡ ok (
        record ino { addr = indirect_addr fs.next_block rest ino.addr },
        store_all (indirect_layout fs.next_block rest) fs,
      )
unfolding store_indirect indirect_layout indirect_addr store_all
store_indirect-eq-ok ino [] fs small h₁ h₂ h₃ = refl
store_indirect-eq-ok ino (r ∷ rest) fs small h₁ h₂ h₃ =
    let xs = take nindir (r ∷ rest) in
    let lo = fs.next_block in
    let single =
      store_table-eq-ok xs fs (omega arith) (omega (arith, length-take nindir (r ∷ rest)))
        (take-Small nindir (r ∷ rest) small) in
    rw (single, ◌>>=◌)
      (store_double-eq-ok (record ino { addr = set ino.addr 10 lo }) (drop nindir (r ∷ rest))
        (stored (words xs) fs) (drop-Small nindir (r ∷ rest) small)
        (omega (arith, length-drop nindir (r ∷ rest))) h₂ (omega arith))

store_indirect_at :
    (at : ℕ) (ino : Inode) (rest : List ℕ) (fs : Fs)
    → at ≡ fs.next_block
    → Small rest
    → length rest ≤ nindir + nindir * nindir
    → fs.nblocks ≤ 2 ^ 24
    → at + length (indirect_layout at rest) ≤ fs.nblocks
    → store_indirect ino rest fs
      ≡ ok (
        record ino { addr = indirect_addr at rest ino.addr },
        store_all (indirect_layout at rest) fs,
      )
store_indirect_at at ino rest fs e small h₁ h₂ h₃ =
    rw e (store_indirect-eq-ok ino rest fs small h₁ h₂ (rw e at h₃))

-- The largest file that `store_data` can lay out, in blocks.
abbrev pub max_blocks : ℕ
max_blocks = 10 + nindir + nindir * nindir

-- In an object of at most 2 ^ 24 blocks, with room for the layout of a file that needs no triple
-- indirection, `store_data` succeeds, writes exactly the buffers of the layout to the next
-- blocks, in order, and sets the size and the addresses of the inode and nothing else of it.
pub store_data-layout :
    (ino : Inode) (content : List ℕ) (fs : Fs)
    → fs.nblocks ≤ 2 ^ 24
    → nblk content ≤ max_blocks
    → fs.next_block + length (layout fs.next_block content) ≤ fs.nblocks
    → let ino' = record ino {
      size = length content;
      addr = layout_addr fs.next_block content ino.addr;
    } in
      let fs' = store_all (layout fs.next_block content) fs in
      store_data ino content fs ≡ ok (ino', record fs' { inodes = update fs'.inodes ino.num ino' })
unfolding store_data layout layout_addr
store_data-layout ino content fs h₁ h₂ h₃ =
    let n = nblk content in
    let lo = fs.next_block in
    let first = chunks n 0 content in
    let rest = drop 10 (range lo n) in
    let all = length-append first (indirect_layout (lo + n) rest) in
    let at = store_all-next_block first fs ∙ ap (λ k. lo + k) (length-chunks n 0 content) in
    let m = store_all-nblocks first fs in
    let ino₁ = record ino {
      size = length content;
      addr = fill_front (take 10 (range lo n)) ino.addr;
    } in
    let blocks = store_blocks-eq-ok n 0 content fs (omega (arith, length-chunks n 0 content)) in
    let tail =
      store_indirect_at (lo + n) ino₁ rest (store_all first fs) (sym at)
        (drop-Small 10 (range lo n) (range-Small lo n (omega (arith, length-chunks n 0 content))))
        (omega (arith, length-drop 10 (range lo n), length-range lo n)) (rw m h₁)
        (rw m (omega (arith, all, length-chunks n 0 content))) in
    rw (blocks, ◌>>=◌, tail, store_all-append first (indirect_layout (lo + n) rest) fs)
