-- ===== src/Mkfs/Superblock.antt =====
-- tools/mkfs.py, `Fs.write_superblock`: 512 bytes at byte offset 512, after uts/ns32000/sys/filsys.h.
pub mod Patches
pub mod Rows
pub mod Fields
use mame_sys.Base.{
  ℕ, zero, suc, ◌+◌, ◌-◌, ◌*◌, List, [], ◌∷◌, ◌++◌, length, leb, take, replicate, splice,
}
use mame_sys.Base.Codec.{pack, pack_signed}
use mame_sys.Base.Result.{Result, ok, struct_error, ◌>>=◌, ◌>>◌, guard}
use mame_sys.Mkfs.{Fs, superboff, nicinod, fs_magic, fs_type}
use mame_sys.Mkfs.Inodes.{ljust}
use mame_sys.Mkfs.Layout.{range}

-- `struct.pack_into` of one unsigned field of `w` bytes.
unfoldable pub pack_into : ℕ → ℕ → ℕ → List ℕ → Result (List ℕ)
pack_into w off v sb = do b ← pack w v; ok (splice sb off b)

unfoldable pub pack_into_signed : ℕ → ℕ → ℕ → List ℕ → Result (List ℕ)
pack_into_signed w off v sb = do b ← pack_signed w v; ok (splice sb off b)

-- A loop of `struct.pack_into` over `xs`, each `w` bytes behind the one before.
unfoldable pub pack_row : ℕ → ℕ → List ℕ → List ℕ → Result (List ℕ)
pack_row w off [] sb = ok sb
pack_row w off (x ∷ xs) sb = do sb' ← pack_into w off x sb; pack_row w (off + w) xs sb'

-- b'root' and b'genix'
abbrev pub fname : List ℕ
fname = b'r' ∷ b'o' ∷ b'o' ∷ b't' ∷ []

abbrev pub fpack : List ℕ
fpack = b'g' ∷ b'e' ∷ b'n' ∷ b'i' ∷ b'x' ∷ []

-- `s_isize`, `s_fsize`, `s_nfree` and `s_free`
unfoldable pub pack_sizes : Fs → List ℕ → Result (List ℕ)
pack_sizes fs sb = do
  sb ← pack_into 2 0 (fs.iblocks + 2) sb
  sb ← pack_into 4 4 fs.nblocks sb
  sb ← pack_into_signed 2 8 fs.nfree sb
  pack_row 4 12 fs.free sb

-- `free_ino`: the first 100 of the inodes that are not in use.
unfoldable pub free_inodes : Fs → List ℕ
free_inodes fs = take nicinod (range fs.next_ino (fs.ninodes + 1 - fs.next_ino))

-- `s_ninode` and `s_inode`
unfoldable pub pack_free_inodes : List ℕ → List ℕ → Result (List ℕ)
pack_free_inodes free_ino sb = do
  sb ← pack_into_signed 2 212 (length free_ino) sb
  pack_row 2 214 free_ino sb

-- `s_time`, `s_tfree` and the count of the free inodes, which would be negative, and so a
-- `struct.error`, if `next_ino` had passed `ninodes + 1`.
unfoldable pub pack_totals : Fs → List ℕ → Result (List ℕ)
pack_totals fs sb = do
  sb ← pack_into 4 420 fs.now sb
  sb ← pack_into 4 432 fs.tfree sb
  guard (leb fs.next_ino (fs.ninodes + 1)) struct_error
  pack_into 2 436 (fs.ninodes + 1 - fs.next_ino) sb

-- `s_fname`, `s_fpack`, the magic number and the type
unfoldable pub pack_names : List ℕ → Result (List ℕ)
pack_names sb = do
  let named = splice (splice sb 438 (ljust fname 6)) 444 (ljust fpack 6)
  sb ← pack_into 4 504 fs_magic named
  pack_into 4 508 fs_type sb

unfoldable pub superblock : Fs → Result (List ℕ)
superblock fs = do
  sb ← pack_sizes fs (replicate 512 0)
  sb ← pack_free_inodes (free_inodes fs) sb
  sb ← pack_totals fs sb
  pack_names sb

unfoldable pub write_superblock : Fs → Result Fs
write_superblock fs = do sb ← superblock fs; ok (record fs { image = splice fs.image superboff sb })
