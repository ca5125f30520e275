-- ===== src/S5.antt =====
-- tools/s5fs.py: the reader of a file system image. A read past the end of the image is a
-- `struct.error`, as `struct.unpack_from` raises it.
pub mod Reads
pub mod RoundTrip
pub mod Dirs
pub mod Inodes
pub mod Walk
use mame_sys.Base.{ℕ, zero, suc, ◌+◌, ◌-◌, ◌*◌, ◌≤◌, List, [], ◌∷◌, ◌++◌, length, leb, ◌==◌}
use mame_sys.Base.{◌/◌, get_or, if◌then◌else◌, replicate, take, drop, slice}
use mame_sys.Base.Codec.{from_le, unpack, ℤ, signed16}
use mame_sys.Base.Result.{Result, ok, err, struct_error, index_error, ◌>>=◌, ◌>>◌, guard}

abbrev pub bs : ℕ
bs = 1024

abbrev pub superboff : ℕ
superboff = 512

-- What `__init__` keeps: the image, and the first two fields of the superblock.
pub record S5 : Type 0 where
  pub d : List ℕ
  pub isize : ℕ
  pub fsize : ℕ

unfoldable pub open_image : List ℕ → Result S5
open_image d = do
  isize ← unpack 2 d superboff
  fsize ← unpack 4 d (superboff + 4)
  ok (record { d = d; isize = isize; fsize = fsize })

-- The dict that `inode` returns.
pub record Entry : Type 0 where
  pub mode : ℕ
  pub nlink : ℤ
  pub uid : ℕ
  pub gid : ℕ
  pub size : ℕ
  pub blk : List ℕ

-- `[addr[i] | (addr[i+1] << 8) | (addr[i+2] << 16) for i in range(0, 39, 3)]`: the bytes do not
-- overlap, so the `|` are sums.
unfoldable pub addresses : ℕ → List ℕ → Result (List ℕ)
addresses zero addr = ok []
addresses (suc k) addr = do
  guard (leb 3 (length addr)) index_error
  rest ← addresses k (drop 3 addr)
  ok (from_le (take 3 addr) ∷ rest)

-- `off` is `2 * BS + (ino - 1) * 64`, also for inode 0.
unfoldable pub inode : List ℕ → ℕ → Result Entry
inode d ino = do
  let e = slice d (2 * bs + ino * 64 - 64) 64
  guard (leb 12 (length e)) struct_error
  blocks ← addresses 13 (slice e 12 39)
  ok (record {
    mode = from_le (slice e 0 2);
    nlink = signed16 (from_le (slice e 2 2));
    uid = from_le (slice e 4 2);
    gid = from_le (slice e 6 2);
    size = from_le (slice e 8 4);
    blk = blocks;
  })

-- `self.blk(n)`: block 0 stands for a hole.
unfoldable pub blk : List ℕ → ℕ → List ℕ
blk d n = if n == 0 then replicate bs 0 else slice d (n * bs) bs

-- The words of a block, `count` of them from byte `i` on.
unfoldable pub unpack_words : ℕ → List ℕ → ℕ → Result (List ℕ)
unpack_words zero b i = ok []
unpack_words (suc count) b i = do x ← unpack 4 b i; xs ← unpack_words count b (i + 4); ok (x ∷ xs)

unfoldable pub ind : List ℕ → ℕ → Result (List ℕ)
ind d n = unpack_words 256 (blk d n) 0

-- `for n in ns: out += self.blk(n)`, what it adds to `out`.
unfoldable pub read_blocks : List ℕ → List ℕ → List ℕ
read_blocks d [] = []
read_blocks d (n ∷ ns) = blk d n ++ read_blocks d ns

-- The loop over a double indirect block stops at the first 0.
unfoldable pub read_double : List ℕ → List ℕ → Result (List ℕ)
read_double d [] = ok []
read_double d (m ∷ ms) =
    let rest = read_double d ms in
    if m == 0 then ok [] else (do ns ← ind d m; more ← rest; ok (read_blocks d ns ++ more))

unfoldable pub read_single_at : List ℕ → ℕ → Result (List ℕ)
read_single_at d n = if n == 0 then ok [] else (do ns ← ind d n; ok (read_blocks d ns))

unfoldable pub read_double_at : List ℕ → ℕ → Result (List ℕ)
read_double_at d n = if n == 0 then ok [] else (do ms ← ind d n; read_double d ms)

-- `self.data(i)`, of an inode whose 13 addresses are `i.blk`.
unfoldable pub contents : List ℕ → Entry → Result (List ℕ)
contents d i = do
  single ← read_single_at d (get_or i.blk 10 0)
  double ← read_double_at d (get_or i.blk 11 0)
  ok (take i.size (read_blocks d (take 10 i.blk) ++ (single ++ double)))

-- `name.split(b'\0')[0]`
unfoldable pub until_nul : List ℕ → List ℕ
until_nul [] = []
until_nul (c ∷ cs) = if c == 0 then [] else c ∷ until_nul cs

-- `for o in range(0, len(d), 16)`: the rounds left, and the bytes from `o` on.
unfoldable pub read_entries : ℕ → List ℕ → Result (List (ℕ × List ℕ))
read_entries zero d = ok []
read_entries (suc rounds) d = do
  guard (leb 16 (length d)) struct_error
  rest ← read_entries rounds (drop 16 d)
  let n = from_le (slice d 0 2)
  ok (if n == 0 then rest else (n, until_nul (slice d 2 14)) ∷ rest)

unfoldable pub readdir : List ℕ → ℕ → Result (List (ℕ × List ℕ))
readdir d ino = do i ← inode d ino; dir ← contents d i; read_entries ((length dir + 15) / 16) dir
