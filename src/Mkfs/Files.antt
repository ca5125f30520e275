-- ===== src/Mkfs/Files.antt =====
-- Files in the object: what `store_data` leaves, and what the calls after it keep.
use mame_sys.Base.{ℕ, ◌+◌, ◌^◌, ◌≤◌, ◌<◌, List, [], ◌∷◌, length}
use mame_sys.Base.{◌≡◌, ◌≢◌, refl, ap, ◌∙◌, arith, Option, some, replicate, ==_ne, ==_refl}
use mame_sys.Base.Result.{ok}
use mame_sys.Mkfs.{Fs, Inode, naddr, update}
use mame_sys.Mkfs.Blocks.{block, IsValid, HoldsAt, HoldsAt-Agrees, stored}
use mame_sys.Mkfs.Blocks.{
  store_all, store_all-HoldsAt, block-store_all, store_all-IsValid, store_all-next_block,
}
use mame_sys.Mkfs.Layout.{layout, layout_addr, nblk}
use mame_sys.Mkfs.Layout.Bounds.{layout-Fit}
use mame_sys.Mkfs.Store.{store_data}
use mame_sys.Mkfs.Writes.{max_blocks, store_data-layout}

-- Inode `n` is in use as `ino`, and the blocks from `lo` on hold `content` laid out for it.
pub record HasFile (fs : Fs) (n lo : ℕ) (ino : Inode) (content : List ℕ) : Type 0 where
  pub used : fs.inodes n ≡ some ino
  pub size : ino.size ≡ length content
  pub addr : ino.addr ≡ layout_addr lo content (replicate naddr 0)
  pub bounded : nblk content ≤ max_blocks
  pub above : fs.first_data ≤ lo
  pub below : lo + length (layout lo content) ≤ fs.next_block
  pub holds : HoldsAt fs.image lo (layout lo content)

-- Storing touches the image and `next_block` only.
pub store_all-rest :
    (bufs : List (List ℕ)) (fs : Fs)
    → store_all bufs fs
      ≡ record fs { next_block = (store_all bufs fs).next_block; image = (store_all bufs fs).image }
unfolding store_all
store_all-rest [] fs = refl
store_all-rest (buf ∷ bufs) fs = store_all-rest bufs (stored buf fs)

-- `store_data`, on an inode without addresses and an object whose unused blocks are zeros and
-- which has at most 2 ^ 24 blocks, succeeds when the file needs no triple indirection and there
-- is room for its blocks and its address blocks. It leaves the file in the object, behind the
-- table of inodes; the object stays valid, its blocks so far stay as they were, and exactly the
-- blocks of the layout are given out.
pub store_data-HasFile :
    (ino : Inode) (content : List ℕ) (fs : Fs)
    → IsValid fs
    → fs.first_data ≤ fs.next_block
    → fs.nblocks ≤ 2 ^ 24
    → ino.addr ≡ replicate naddr 0
    → nblk content ≤ max_blocks
    → fs.next_block + length (layout fs.next_block content) ≤ fs.nblocks
    → (ino' : Inode) × (fs' : Fs) × (store_data ino content fs ≡ ok (ino', fs'))
      × HasFile fs' ino.num fs.next_block ino' content
      × IsValid fs'
      × ((b : ℕ) → b < fs.next_block → block fs'.image b ≡ block fs.image b)
      × (fs'.next_block ≡ fs.next_block + length (layout fs.next_block content))
store_data-HasFile ino content fs v first small fresh few room =
    let bufs = layout fs.next_block content in
    let fit = layout-Fit fs.next_block content few in
    let next = store_all-next_block bufs fs in
    let ino' = record ino {
      size = length content;
      addr = layout_addr fs.next_block content ino.addr;
    } in
    let v' = store_all-IsValid bufs fs fit room v in
    (
      ino',
      record (store_all bufs fs) { inodes = update (store_all bufs fs).inodes ino.num ino' },
      store_data-layout ino content fs small few room,
      record {
        used = rw ==_refl;
        size = refl;
        addr = ap (layout_addr fs.next_block content) fresh;
        bounded = few;
        above = rw (ap {A = Fs} {B = ℕ} (λ f. f.first_data) (store_all-rest bufs fs)) first;
        below = omega (arith, next);
        holds = store_all-HoldsAt bufs fs fit room v;
      },
      record { sized = v'.sized; room = v'.room; fresh = v'.fresh },
      λ b lt. block-store_all bufs fs b fit room v lt,
      next,
    )

-- A file of another inode is kept by whatever leaves its inode and the blocks given out alone.
pub HasFile-kept :
    (fs fs' : Fs) (n lo : ℕ) (ino : Inode) (content : List ℕ)
    → HasFile fs n lo ino content
    → fs'.inodes n ≡ fs.inodes n
    → fs'.first_data ≡ fs.first_data
    → fs.next_block ≤ fs'.next_block
    → ((b : ℕ) → b < fs.next_block → block fs'.image b ≡ block fs.image b)
    → HasFile fs' n lo ino content
HasFile-kept fs fs' n lo ino content f same first grown blocks = record {
  used = same ∙ f.used;
  size = f.size;
  addr = f.addr;
  bounded = f.bounded;
  above = omega (arith, f.above);
  below = omega (arith, f.below);
  holds =
      HoldsAt-Agrees (layout lo content) fs.image fs'.image 0 fs.next_block lo
        (λ b _ hi. blocks b hi) (omega arith) f.below f.holds;
}

-- Storing a second file, under another inode number, keeps the first: it succeeds in an object
-- whose unused blocks are zeros and which has at most 2 ^ 24 blocks, when the second file needs
-- no triple indirection and there is room for it, and the first file then stands in the object as
-- before.
pub HasFile-store_data :
    (fs : Fs) (n lo : ℕ) (ino : Inode) (content : List ℕ) (other : Inode) (more : List ℕ)
    → HasFile fs n lo ino content
    → n ≢ other.num
    → IsValid fs
    → fs.nblocks ≤ 2 ^ 24
    → nblk more ≤ max_blocks
    → fs.next_block + length (layout fs.next_block more) ≤ fs.nblocks
    → (other' : Inode) × (fs' : Fs) × (store_data other more fs ≡ ok (other', fs'))
      × HasFile fs' n lo ino content
HasFile-store_data fs n lo ino content other more f ne v small few room =
    let bufs = layout fs.next_block more in
    let other' = record other {
      size = length more;
      addr = layout_addr fs.next_block more other.addr;
    } in
    let rest = store_all-rest bufs fs in
    let fs' = record (store_all bufs fs) {
      inodes = update (store_all bufs fs).inodes other.num other';
    } in
    (
      other',
      fs',
      store_data-layout other more fs small few room,
      HasFile-kept fs fs' n lo ino content f
          (rw (==_ne n other.num ne) (ap {A = Fs} {B = Option Inode} (λ g. g.inodes n) rest))
          (ap {A = Fs} {B = ℕ} (λ g. g.first_data) rest)
          (omega (arith, store_all-next_block bufs fs))
          (λ b lt. block-store_all bufs fs b (layout-Fit fs.next_block more few) room v lt),
    )
