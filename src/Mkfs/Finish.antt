-- ===== src/Mkfs/Finish.antt =====
-- tools/mkfs.py, lines 272 to 274: `build` ends by writing the inodes, the free list and the
-- superblock, in this order.
pub mod Image
pub mod Total
pub mod Files
use mame_sys.Base.Result.{Result, ◌>>=◌}
use mame_sys.Mkfs.{Fs}
use mame_sys.Mkfs.Inodes.{write_inodes}
use mame_sys.Mkfs.FreeList.{build_free_list}
use mame_sys.Mkfs.Superblock.{write_superblock}

unfoldable pub finish : Fs → Result Fs
finish fs = do fs₁ ← write_inodes fs; freed ← build_free_list fs₁; write_superblock freed.1
