-- ===== src/Mkfs/Full.antt =====
-- `Fs.store_data` of tools/mkfs.py when the image has no room for the file's own blocks.
use mame_sys.Base.{
  ℕ, zero, suc, ◌+◌, ◌*◌, ◌≤◌, ◌<◌, List, ◌≡◌, refl, arith, Bool-cases, inl, inr, leb, slice,
  length-slice, le→leb,
}
use mame_sys.Base.Result.{err, image_full}
use mame_sys.Mkfs.{Fs, Inode, bsize, ◌>>=◌}
use mame_sys.Mkfs.Blocks.{stored}
use mame_sys.Mkfs.Layout.{nblk}
use mame_sys.Mkfs.Store.{store_block, store_blocks, store_data}
use mame_sys.Mkfs.Writes.{store_block-eq-ok}

store_block-full :
    (buf : List ℕ) (fs : Fs) → fs.nblocks ≤ fs.next_block → store_block buf fs ≡ err image_full
unfolding store_block
store_block-full buf fs h = rw (◌>>=◌, le→leb _ _ h) refl

store_blocks-full :
    (n i : ℕ) (content : List ℕ) (fs : Fs)
    → fs.next_block ≤ fs.nblocks
    → fs.nblocks < fs.next_block + n
    → store_blocks n i content fs ≡ err image_full
unfolding store_blocks
store_blocks-full zero i content fs h less = absurd (omega arith)
store_blocks-full (suc n) i content fs h less =
    let chunk = slice content (i * bsize) bsize in
    elim (Bool-cases (leb fs.nblocks fs.next_block)) [
      | inl e ↦ rw (◌>>=◌, store_block-full chunk fs (ground arith)) refl
      | inr e ↦
          rw
            (
              store_block-eq-ok chunk fs (ground arith)
                  (omega (arith, length-slice content (i * bsize) bsize)),
              ◌>>=◌,
              store_blocks-full n (i + 1) content (stored chunk fs) (ground arith) (omega arith),
            )
            refl
    ]

-- A file with more blocks than are left in the image ends the program with the message that the
-- image is full, whatever the inode, when the blocks given out lie in the image.
pub store_data-full :
    (ino : Inode) (content : List ℕ) (fs : Fs)
    → fs.next_block ≤ fs.nblocks
    → fs.nblocks < fs.next_block + nblk content
    → store_data ino content fs ≡ err image_full
unfolding store_data
store_data-full ino content fs h less =
    rw (◌>>=◌, store_blocks-full (nblk content) 0 content fs h less) refl
