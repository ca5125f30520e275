-- ===== src/Mkfs/Main/Sizes.antt =====
-- The object that `main` of tools/mkfs.py starts from.
use mame_sys.Base.{ℕ, ◌+◌, ◌*◌, ◌/◌, ◌^◌, ◌≤◌, ◌<◌, arith, max}
use mame_sys.Mkfs.Blocks.{IsValid}
use mame_sys.Mkfs.Finish.Image.{IsLaidOut}
use mame_sys.Mkfs.Finish.Total.{FsFits}
use mame_sys.Mkfs.Fresh.{new_fs-IsValid}
use mame_sys.Mkfs.Main.{ninodes_for, fs_for}

-- For 34 to 524000 blocks of 1024 bytes and a 32-bit time, `main` starts from an object that is
-- valid, has room for its table of inodes, and whose numbers fit the superblock's fields; there
-- is at least one inode for every 8 blocks, and at least 512.
pub fs_for-IsValid :
    (nblocks now : ℕ)
    → 34 ≤ nblocks
    → nblocks ≤ 524000
    → now < 2 ^ 32
    → (IsValid (fs_for nblocks now) × IsLaidOut (fs_for nblocks now) × FsFits (fs_for nblocks now))
      × (nblocks / 8 ≤ ninodes_for nblocks)
      × (512 ≤ ninodes_for nblocks)
unfolding fs_for ninodes_for
fs_for-IsValid nblocks now lo hi time = (
  new_fs-IsValid nblocks (max 512 ((nblocks / 8 + 15) / 16 * 16)) now (omega arith) (omega arith)
      (omega arith) (omega arith) time,
  omega arith,
  omega arith,
)
