-- ===== src/Mkfs/Inodes.antt =====
-- tools/mkfs.py, `Fs.pack_inode` and `Fs.write_inodes`: the table of inodes, 64 bytes each, from
-- block 2 on.
pub mod Table
use mame_sys.Base.{ℕ, zero, suc, ◌+◌, ◌-◌, ◌*◌, List, [], ◌∷◌, ◌++◌, length, Option, none, some}
use mame_sys.Base.{replicate, splice}
use mame_sys.Base.Codec.{le, pack, pack_signed}
use mame_sys.Base.Result.{Result, ok, ◌>>=◌}
use mame_sys.Mkfs.{Inode, Fs, bsize}

-- `buf.ljust(n, b'\0')`
unfoldable pub ljust : List ℕ → ℕ → List ℕ
ljust buf n = buf ++ replicate (n - length buf) 0

-- Three bytes an address: `a & 0xff`, `(a >> 8) & 0xff`, `(a >> 16) & 0xff`.
unfoldable pub address_bytes : List ℕ → List ℕ
address_bytes [] = []
address_bytes (a ∷ addr) = le 3 a ++ address_bytes addr

-- `self.now` is the second argument. `addr` has 13 entries in every inode, which take 39 bytes.
unfoldable pub pack_inode : Inode → ℕ → Result (List ℕ)
pack_inode ino now = do
  mode ← pack 2 ino.mode
  nlink ← pack_signed 2 ino.nlink
  uid ← pack 2 ino.uid
  gid ← pack 2 ino.gid
  size ← pack 4 ino.size
  time ← pack 4 now
  let times = time ++ (time ++ time)
  ok (mode ++ (nlink ++ (uid ++ (gid ++ (size ++ (ljust (address_bytes ino.addr) 40 ++ times))))))

unfoldable pub inode_blob : Option Inode → ℕ → Result (List ℕ)
inode_blob none now = ok (replicate 64 0)
inode_blob (some ino) now = pack_inode ino now

-- The rounds of `for n in range(1, self.ninodes + 1)` that are left, and `n`.
unfoldable pub write_inodes_from : ℕ → ℕ → Fs → Result Fs
write_inodes_from zero n fs = ok fs
write_inodes_from (suc rounds) n fs = do
  blob ← inode_blob (fs.inodes n) fs.now
  write_inodes_from rounds (n + 1)
      (record fs { image = splice fs.image (2 * bsize + (n - 1) * 64) blob })

unfoldable pub write_inodes : Fs → Result Fs
write_inodes fs = write_inodes_from fs.ninodes 1 fs
