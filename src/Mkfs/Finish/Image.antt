-- ===== src/Mkfs/Finish/Image.antt =====
-- What the finished image holds: the tables of `write_inodes`, the free list and the superblock, and
-- every data block as it was.
use mathlib.Core.Path.{subst}
use mame_sys.Base.{ℕ, ◌+◌, ◌-◌, ◌*◌, ◌/◌, ◌%◌, ◌^◌, ◌≤◌, ◌<◌, List, ◌++◌, length}
use mame_sys.Base.{◌≡◌, sym, ap, ◌∙◌, inr, arith, drop, slice, splice}
use mame_sys.Base.{slice_lem, length-splice, slice-splice_above, slice-splice_self}
use mame_sys.Base.{drop-take, take-take, drop-drop, drop_all, append-nil, length-slice}
use mame_sys.Base.Result.{ok, ◌>>=◌, >>=-eq-ok}
use mame_sys.Mkfs.{Fs, bsize, superboff, nicfree}
use mame_sys.Mkfs.Blocks.{block, Agrees}
use mame_sys.Mkfs.Layout.{range}
use mame_sys.Mkfs.Inodes.{write_inodes, inode_blob}
use mame_sys.Mkfs.Inodes.Table.{slot, Addressed, Written, write_inodes-Written}
use mame_sys.Mkfs.FreeList.{build_free_list}
use mame_sys.Mkfs.FreeList.Walk.{walk, walk-agrees}
use mame_sys.Mkfs.FreeList.Chain.{walk-build_free_list, range-le}
use mame_sys.Mkfs.Superblock.{superblock, write_superblock}
use mame_sys.Mkfs.Superblock.Fields.{IsSuperblock, superblock-IsSuperblock}
use mame_sys.Mkfs.Finish.{finish}

slice-slice : (d : List ℕ) (a m i k : ℕ) → i + k ≤ m → slice (slice d a m) i k ≡ slice d (a + i) k
slice-slice d a m i k h = rw (
  slice_lem (slice d a m) i k,
  slice_lem d a m,
  slice_lem d (a + i) k,
  drop-take i m (drop a d),
  take-take k (m - i) (drop i (drop a d)) (omega arith),
  drop-drop i a d,
)

-- A slot of the table lies within a block.
slot-block :
    (d : List ℕ) (n : ℕ)
    → 1 ≤ n
    → slot d n ≡ slice (block d (2 + (n - 1) / 16)) ((n - 1) % 16 * 64) 64
slot-block d n h =
    ap (λ a. slice d a 64) (omega arith)
    ∙ sym (slice-slice d ((2 + (n - 1) / 16) * bsize) bsize ((n - 1) % 16 * 64) 64 (omega arith))

-- The object after the tree has been stored: the sizes that `Fs(…)` computes, and room for the
-- table of inodes before the first data block.
pub record IsLaidOut (fs : Fs) : Type 0 where
  pub sized : length fs.image ≡ fs.nblocks * bsize
  pub table : fs.first_data ≡ 2 + fs.iblocks
  pub slots : fs.ninodes ≡ fs.iblocks * 16
  pub data_blocks : fs.first_data ≤ fs.next_block
  pub within : fs.next_block ≤ fs.nblocks
  pub small : fs.nblocks ≤ 2 ^ 24
  pub addressed : Addressed fs.inodes

pub record Finished (fs fs' : Fs) : Type 0 where
  pub sized : length fs'.image ≡ length fs.image
  pub kept : Agrees fs.image fs'.image fs.first_data fs.next_block
  pub inode_slots :
      (n : ℕ) → 1 ≤ n → n ≤ fs.ninodes → inode_blob (fs.inodes n) fs.now ≡ ok (slot fs'.image n)
  pub super : IsSuperblock fs' (slice fs'.image superboff 512)
  pub free_walk :
      walk (fs.nblocks - fs.next_block + 1) fs'.image fs'.nfree fs'.free
      ≡ range fs.next_block (fs.nblocks - fs.next_block)
  pub counted : fs'.tfree ≡ fs.nblocks - fs.next_block
  pub rest :
      fs' ≡ record fs { image = fs'.image; nfree = fs'.nfree; free = fs'.free; tfree = fs'.tfree }

module _ (fs : Fs) (sb : List ℕ) (len : length sb ≡ 512) (room : 1024 ≤ length fs.image) where
  block-superblock : (b : ℕ) → 1 ≤ b → block (splice fs.image superboff sb) b ≡ block fs.image b
  block-superblock b h =
      slice-splice_above fs.image superboff sb (b * bsize) bsize (omega arith) (omega arith)

  slice-superblock : slice (splice fs.image superboff sb) superboff 512 ≡ sb
  slice-superblock =
      slice-splice_self fs.image superboff sb 512 (omega arith) (omega arith)
      ∙ ap (λ t. sb ++ t)
          (drop_all (length sb) (slice fs.image superboff 512)
            (omega (arith, length-slice fs.image superboff 512)))
      ∙ append-nil sb

IsSuperblock-image :
    (fs : Fs) (image sb : List ℕ)
    → IsSuperblock fs sb
    → IsSuperblock (record fs { image = image }) sb
IsSuperblock-image fs image sb s = record {
  sized = s.sized;
  s_isize = s.s_isize;
  s_fsize = s.s_fsize;
  s_nfree = s.s_nfree;
  s_free = s.s_free;
  s_ninode = s.s_ninode;
  s_inode = s.s_inode;
  s_time = s.s_time;
  s_tfree = s.s_tfree;
  s_tinode = s.s_tinode;
  s_fname = s.s_fname;
  s_fpack = s.s_fpack;
  s_magic = s.s_magic;
  s_type = s.s_type;
}

-- The object `fs₂` that the free list leaves, behind the table of inodes in `img`.
module _ (fs : Fs) (v : IsLaidOut fs) (img : List ℕ)
    (w : Written fs (record fs { image = img }) 1 fs.ninodes) (fs₂ : Fs)
    (fifty : length fs₂.free ≡ nicfree) (sized : length fs₂.image ≡ length img)
    (kept : (b : ℕ) → b < fs.next_block → block fs₂.image b ≡ block img b) (sb : List ℕ)
    (s : IsSuperblock fs₂ sb) where
  room : 1024 ≤ length fs₂.image
  room = omega (arith, w.sized, v.sized, v.data_blocks, v.table, v.within)

  image : List ℕ
  image = splice fs₂.image superboff sb

  block-image : (b : ℕ) → 1 ≤ b → block image b ≡ block fs₂.image b
  unfolding image
  block-image = block-superblock fs₂ sb s.sized room

  image_kept : Agrees fs.image image fs.first_data fs.next_block
  image_kept b lo hi =
      block-image b (omega (arith, v.table))
      ∙ kept b hi
      ∙ w.blocks b (inr (omega (arith, v.table, v.slots)))

  slot-image : (n : ℕ) → 1 ≤ n → n ≤ fs.ninodes → slot image n ≡ slot img n
  slot-image n h₁ h₂ =
      let b = 2 + (n - 1) / 16 in
      let same : block image b ≡ block img b =
        block-image b (omega arith) ∙ kept b (omega (arith, v.table, v.slots, v.data_blocks)) in
      slot-block image n h₁
      ∙ ap (λ t. slice t ((n - 1) % 16 * 64) 64) same
      ∙ sym (slot-block img n h₁)

  walk-image :
      walk (fs.nblocks - fs.next_block + 1) fs₂.image fs₂.nfree fs₂.free
        ≡ range fs.next_block (fs.nblocks - fs.next_block)
      → walk (fs.nblocks - fs.next_block + 1) image fs₂.nfree fs₂.free
        ≡ range fs.next_block (fs.nblocks - fs.next_block)
  walk-image walks =
      walk-agrees (fs.nblocks - fs.next_block + 1) fs₂.image image fs.next_block fs₂.nfree fs₂.free
        (λ b lo. block-image b (omega (arith, v.table, v.data_blocks)))
        (rw walks (range-le fs.next_block (fs.nblocks - fs.next_block)))
      ∙ walks

  image-Finished :
      walk (fs.nblocks - fs.next_block + 1) fs₂.image fs₂.nfree fs₂.free
        ≡ range fs.next_block (fs.nblocks - fs.next_block)
      → fs₂.tfree ≡ fs.nblocks - fs.next_block
      → fs₂ ≡ record fs { image = fs₂.image; nfree = fs₂.nfree; free = fs₂.free; tfree = fs₂.tfree }
      → Finished fs (record fs₂ { image = splice fs₂.image superboff sb })
  unfolding image
  image-Finished walks tfree same = record {
    sized = length-splice fs₂.image superboff sb (omega (arith, s.sized, room)) ∙ sized ∙ w.sized;
    kept = image_kept;
    inode_slots = λ n h₁ h₂. w.inside n h₁ (omega arith) ∙ ap ok (sym (slot-image n h₁ h₂));
    super =
        rw (slice-superblock fs₂ sb s.sized room)
          (IsSuperblock-image fs₂ (splice fs₂.image superboff sb) sb s);
    free_walk = walk-image walks;
    counted = tfree;
    rest = ap {A = Fs} {B = Fs} (λ f. record f { image = splice fs₂.image superboff sb }) same;
  }

module _ (fs : Fs) (v : IsLaidOut fs) where
  -- From the object with its table of inodes on.
  finish_rest :
      (img : List ℕ) {fs' : Fs}
      → Written fs (record fs { image = img }) 1 fs.ninodes
      → (build_free_list (record fs { image = img }) >>= (λ freed. write_superblock freed.1))
        ≡ ok fs'
      → Finished fs fs'
  unfolding write_superblock
  finish_rest img {fs'} w h =
      let (fs₂, built, walks, tfree, _, _, fifty, _, sized, kept, same) =
        walk-build_free_list (record fs { image = img }) (omega (arith, v.data_blocks, v.table))
          v.within (omega (arith, v.small)) (w.sized ∙ v.sized) in
      let h₁ : write_superblock fs₂ ≡ ok fs' = rw (built, ◌>>=◌) at h in
      let (sb, e₂, h₂) = >>=-eq-ok (superblock fs₂) _ h₁ in
      let s = superblock-IsSuperblock fs₂ fifty e₂ in
      let whole : record fs₂ { image = splice fs₂.image superboff sb } ≡ fs' = cc in
      subst (Finished fs) whole
        (image-Finished fs v img w fs₂ fifty sized kept sb s walks tfree same)

  -- When the object is laid out and the end of `build` succeeds, the image has kept its size and
  -- its data blocks; every slot of its table holds the inode of that number, or zeros for an
  -- unused one; every field of the superblock reads back, the list of free inodes and the two names
  -- included; and the walk along the free list gives the
  -- blocks that were not given out.
  pub finish-Finished : {fs' : Fs} → finish fs ≡ ok fs' → Finished fs fs'
  unfolding finish
  finish-Finished {fs'} h =
      let (fs₁, e₁, h₁) = >>=-eq-ok (write_inodes fs) _ h in
      let w =
        write_inodes-Written fs (omega (arith, v.sized, v.table, v.slots, v.data_blocks, v.within))
          v.addressed e₁ in
      finish_rest fs₁.image (subst (λ f. Written fs f 1 fs.ninodes) w.rest w) (
        subst (λ f. (build_free_list f >>= (λ freed. write_superblock freed.1)) ≡ ok fs') w.rest h₁)
