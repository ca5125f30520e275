-- ===== src/Mkfs.antt =====
-- tools/mkfs.py, lines 30 to 93: the constants, `Inode`, and the state of `Fs` with its constructor
-- and its two allocators. The image is a list of bytes. The children hold the other methods.
use mame_sys.Base.{ℕ, ◌+◌, ◌-◌, ◌*◌, ◌/◌, ◌≤◌, List, [], ◌∷◌, Option, none, some, length, leb, ◌==◌}
pub mod Blocks
pub mod Layout
pub mod Store
pub mod Writes
pub mod Full
pub mod Methods
pub mod Needs
pub mod Inodes
pub mod Dirs
pub mod FreeList
pub mod Superblock
pub mod Files
pub mod Finish
pub mod Fresh
pub mod HostFiles
pub mod Main
pub mod Build
use mame_sys.Base.{if◌then◌else◌, replicate, splice}
use mame_sys.Base.Result.{Result, Fault, ok, err, image_full, out_of_inodes, assertion_error}

abbrev pub bsize : ℕ
bsize = 1024

abbrev pub inopb : ℕ
inopb = 16

abbrev pub nicfree : ℕ
nicfree = 50

abbrev pub nicinod : ℕ
nicinod = 100

abbrev pub superboff : ℕ
superboff = 512

abbrev pub rootino : ℕ
rootino = 2

abbrev pub fs_magic : ℕ
fs_magic = 0xfd187e20

-- `Fs2b`, the file system type with blocks of 1024 bytes.
abbrev pub fs_type : ℕ
fs_type = 2

abbrev pub dirsiz : ℕ
dirsiz = 14

abbrev pub s_ifdir : ℕ
s_ifdir = 0o040000

abbrev pub s_ifchr : ℕ
s_ifchr = 0o020000

abbrev pub s_ifblk : ℕ
s_ifblk = 0o060000

abbrev pub s_ifreg : ℕ
s_ifreg = 0o100000

abbrev pub naddr : ℕ
naddr = 13

abbrev pub nindir : ℕ
nindir = 256

pub record Inode : Type 0 where
  pub num : ℕ
  pub mode : ℕ
  pub nlink : ℕ
  pub uid : ℕ
  pub gid : ℕ
  pub size : ℕ
  pub addr : List ℕ

-- `Inode(num, mode, uid, gid)`
unfoldable pub new_inode : ℕ → ℕ → ℕ → ℕ → Inode
new_inode num mode uid gid = record {
  num = num;
  mode = mode;
  nlink = 1;
  uid = uid;
  gid = gid;
  size = 0;
  addr = replicate naddr 0;
}

-- `nfree`, `free` and `tfree` are set by `build_free_list` and stand at 0 before it. `inodes` is the
-- dict from inode numbers to `Inode` objects.
pub record Fs : Type 0 where
  pub nblocks : ℕ
  pub iblocks : ℕ
  pub first_data : ℕ
  pub ninodes : ℕ
  pub image : List ℕ
  pub next_block : ℕ
  pub inodes : ℕ → Option Inode
  pub next_ino : ℕ
  pub now : ℕ
  pub nfree : ℕ
  pub free : List ℕ
  pub tfree : ℕ

-- `Fs(nblocks, ninodes)`. The time stamp is `time.mktime` of a fixed date, which depends on the
-- host's time zone, so it is an argument.
unfoldable pub new_fs : ℕ → ℕ → ℕ → Fs
new_fs nblocks ninodes now =
    let iblocks = (ninodes + inopb - 1) / inopb in
    record {
      nblocks = nblocks;
      iblocks = iblocks;
      first_data = 2 + iblocks;
      ninodes = iblocks * inopb;
      image = replicate (nblocks * bsize) 0;
      next_block = 2 + iblocks;
      inodes = λ n. none;
      next_ino = 2;
      now = now;
      nfree = 0;
      free = [];
      tfree = 0;
    }

-- A method: it reads and writes the object, and may end the program.
abbrev pub Method : Type 0 → Type 0
Method A = Fs → Result (A × Fs)

abbrev pub pure : {A : Type 0} → A → Method A
pure a fs = ok (a, fs)

abbrev pub fail : {A : Type 0} → Fault → Method A
fail e fs = err e

-- A computation that leaves the object alone.
abbrev pub lift : {A : Type 0} → Result A → Method A
lift (ok a) fs = ok (a, fs)
lift (err e) fs = err e

infixl 5 ◌>>=◌ ◌>>◌
abbrev pub ◌>>=◌ : {A B : Type 0} → Method A → (A → Method B) → Method B
◌>>=◌ m f fs = elim (m fs) [ ok (a, fs') ↦ f a fs' | err e ↦ err e ]

abbrev pub ◌>>◌ : {B : Type 0} → Method (Unit {0}) → Method B → Method B
m >> k = m >>= λ _. k

unfoldable pub put : ℕ → List ℕ → Method (Unit {0})
put blk buf fs =
    if leb (length buf) bsize
    then ok (tt, record fs { image = splice fs.image (blk * bsize) buf })
    else err assertion_error

unfoldable pub alloc_block : Method ℕ
alloc_block fs =
    if leb fs.nblocks fs.next_block
    then err image_full
    else ok (fs.next_block, record fs { next_block = fs.next_block + 1 })

-- `self.inodes[num] = ino`
abbrev pub update : (ℕ → Option Inode) → ℕ → Inode → ℕ → Option Inode
update inodes num ino n = if n == num then some ino else inodes n

unfoldable pub alloc_inode : ℕ → ℕ → ℕ → Method Inode
unfolding new_inode
alloc_inode mode uid gid fs =
    let n = fs.next_ino in
    if leb fs.ninodes n
    then err out_of_inodes
    else (let ino = new_inode n mode uid gid in
        ok (ino, record fs { next_ino = n + 1; inodes = update fs.inodes n ino }))
