-- ===== src/Mkfs/Finish/Files.antt =====
-- The reader of a finished image finds the files that stood in the object.
use mame_sys.Base.{ℕ, ◌^◌, ◌≤◌, List}
use mame_sys.Base.{◌≡◌, arith}
use mame_sys.Base.Result.{ok}
use mame_sys.Mkfs.{Fs, Inode}
use mame_sys.Mkfs.Blocks.{HoldsAt-Agrees}
use mame_sys.Mkfs.Layout.{layout}
use mame_sys.Mkfs.Inodes.{inode_blob, pack_inode}
use mame_sys.Mkfs.Inodes.Table.{slot, pack_inode-Packed}
use mame_sys.Mkfs.Layout.Bounds.{layout_addr-below}
use mame_sys.Mkfs.Files.{HasFile}
use mame_sys.Mkfs.Finish.{finish}
use mame_sys.Mkfs.Finish.Image.{IsLaidOut, finish-Finished}
use mame_sys.Mkfs.Finish.Total.{FsFits, finish-Succeeds}
use mame_sys.S5.{inode, contents}
use mame_sys.S5.Inodes.{entry_of, Addresses, inode-Packed}
use mame_sys.S5.RoundTrip.{contents-layout}

-- A file that stands in the object is read back from the image: the inode, then the content.
pub read-finished :
    (fs : Fs) {fs' : Fs} (n lo : ℕ) (ino : Inode) (content : List ℕ)
    → IsLaidOut fs
    → HasFile fs n lo ino content
    → 1 ≤ n
    → n ≤ fs.ninodes
    → finish fs ≡ ok fs'
    → (inode fs'.image n ≡ ok (entry_of ino)) × (contents fs'.image (entry_of ino) ≡ ok content)
unfolding inode_blob
read-finished fs {fs'} n lo ino content v f h₁ h₂ done =
    let w = finish-Finished fs v done in
    let small : Addresses ino.addr = rw f.addr (
      layout_addr-below (2 ^ 24) lo content (omega (arith, f.below, v.within, v.small))
        (omega arith)) in
    let packed : pack_inode ino fs.now ≡ ok (slot fs'.image n) =
      rw f.used at (w.inode_slots n h₁ h₂) in
    let holds =
      HoldsAt-Agrees (layout lo content) fs.image fs'.image fs.first_data fs.next_block lo w.kept
        f.above f.below f.holds in
    (
      inode-Packed fs'.image n ino fs.now h₁ (pack_inode-Packed ino fs.now packed)
          (v.addressed n ino f.used) small,
      contents-layout fs'.image content lo (entry_of ino) (omega (arith, v.table, f.above))
          f.bounded (omega (arith, f.below, v.within, v.small)) holds f.size f.addr,
    )

-- The end of `build` succeeds when the object is laid out and what it packs fits its fields, and
-- every file that stands in the object under one of the image's inode numbers is then read back
-- from the image: the reader finds the inode with every field, and through that the content, byte
-- for byte.
pub read-finish :
    (fs : Fs)
    → IsLaidOut fs
    → FsFits fs
    → (fs' : Fs) × (finish fs ≡ ok fs')
      × ((n lo : ℕ) (ino : Inode) (content : List ℕ)
          → HasFile fs n lo ino content
          → 1 ≤ n
          → n ≤ fs.ninodes
          → (inode fs'.image n ≡ ok (entry_of ino))
            × (contents fs'.image (entry_of ino) ≡ ok content))
read-finish fs v fits =
    let (fs', done) = finish-Succeeds fs v fits in
    (fs', done, λ n lo ino content f h₁ h₂. read-finished fs n lo ino content v f h₁ h₂ done)
