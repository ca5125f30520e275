-- ===== src/Mkfs/HostFiles/Added.antt =====
-- One file more: the object keeps its invariants and its other files.
use mame_sys.Base.{ℕ, ◌+◌, ◌^◌, ◌≤◌, ◌<◌, List, length, Option, some, replicate}
use mame_sys.Base.{
  ◌≡◌, ◌≢◌, refl, sym, ap, ◌∙◌, arith, Bool-cases, inl, inr, ◌==◌, ==_ne, ==_refl, not_le→leb,
  length-replicate,
}
use mame_sys.Base.Result.{ok}
use mame_sys.Mkfs.{Fs, Inode, new_inode, alloc_inode, update, naddr, ◌>>=◌}
use mame_sys.Mkfs.Blocks.{
  IsValid, store_all, store_all-next_block, store_all-IsValid, store_all-HoldsAt, block-store_all,
}
use mame_sys.Mkfs.Layout.{layout, layout_addr, nblk}
use mame_sys.Mkfs.Writes.{max_blocks, store_data-layout}
use mame_sys.Mkfs.Files.{HasFile, HasFile-kept, store_all-rest}
use mame_sys.Mkfs.Layout.Bounds.{layout-Fit, length-layout_addr}
use mame_sys.Mkfs.Finish.Image.{IsLaidOut}
use mame_sys.Mkfs.Finish.Total.{FsFits, InodeFits}
use mame_sys.Mkfs.HostFiles.{add_file}

-- An object to which files can be added, and from which an image can be made.
pub record IsReady (fs : Fs) : Type 0 where
  pub valid : IsValid fs
  pub laid_out : IsLaidOut fs
  pub fits : FsFits fs

update-all :
    (P : Inode → Type 0) (inodes : ℕ → Option Inode) (k : ℕ) (x : Inode)
    → P x
    → ((n : ℕ) (i : Inode) → inodes n ≡ some i → P i)
    → (n : ℕ) (i : Inode) → update inodes k x n ≡ some i
    → P i
update-all P inodes k x p all n i e = elim (Bool-cases (n == k)) [
  | inl same ↦ let h : some x ≡ some i = rw same at e in rw (← some-eq h) p
  | inr other ↦ all n i (rw other at e)
]
  where
    some-eq : some x ≡ some i → x ≡ i
    some-eq h = cc

-- What adding a file makes of the object.
pub record Added (fs fs' : Fs) (ino : Inode) (content : List ℕ) : Type 0 where
  pub num : ino.num ≡ fs.next_ino
  pub there : HasFile fs' fs.next_ino fs.next_block ino content
  pub ready : IsReady fs'
  pub next_ino : fs'.next_ino ≡ fs.next_ino + 1
  pub next_block : fs'.next_block ≡ fs.next_block + length (layout fs.next_block content)
  pub nblocks : fs'.nblocks ≡ fs.nblocks
  pub ninodes : fs'.ninodes ≡ fs.ninodes
  pub others :
      (n lo : ℕ) (i : Inode) (c : List ℕ)
      → n < fs.next_ino
      → HasFile fs n lo i c
      → HasFile fs' n lo i c

module _ (mode : ℕ) (content : List ℕ) (fs : Fs) (ready : IsReady fs) (small : mode < 2 ^ 16)
    (few : nblk content ≤ max_blocks) (inode_left : fs.next_ino < fs.ninodes)
    (room : fs.next_block + length (layout fs.next_block content) ≤ fs.nblocks) where
  abbrev bufs : List (List ℕ)
  bufs = layout fs.next_block content

  abbrev ino₀ : Inode
  ino₀ = record {
    num = fs.next_ino;
    mode = mode;
    nlink = 1;
    uid = 0;
    gid = 0;
    size = 0;
    addr = replicate naddr 0;
  }

  abbrev ino₁ : Inode
  ino₁ = record ino₀ {
    size = length content;
    addr = layout_addr fs.next_block content (replicate naddr 0);
  }

  abbrev fs₁ : Fs
  fs₁ = record fs { next_ino = fs.next_ino + 1; inodes = update fs.inodes fs.next_ino ino₀ }

  abbrev fs₂ : Fs
  fs₂ = record (store_all bufs fs₁) { inodes = update (store_all bufs fs₁).inodes fs.next_ino ino₁ }

  allocates : alloc_inode mode 0 0 fs ≡ ok (ino₀, fs₁)
  unfolding alloc_inode new_inode
  allocates = rw (not_le→leb fs.ninodes fs.next_ino inode_left) refl

  adds : add_file mode content fs ≡ ok (ino₁, fs₂)
  unfolding add_file
  adds = rw (allocates, ◌>>=◌) (store_data-layout ino₀ content fs₁ ready.laid_out.small few room)

  valid₁ : IsValid fs₁
  valid₁ = record { sized = ready.valid.sized; room = ready.valid.room; fresh = ready.valid.fresh }

  valid₂ : IsValid (store_all bufs fs₁)
  valid₂ = store_all-IsValid bufs fs₁ (layout-Fit fs.next_block content few) room valid₁

  thirteen : length ino₁.addr ≡ 13
  thirteen =
      length-layout_addr fs.next_block content (replicate naddr 0)
      ∙ length-replicate {A = ℕ} naddr 0

  keeps :
      (P : Inode → Type 0)
      → P ino₁
      → P ino₀
      → ((n : ℕ) (i : Inode) → fs.inodes n ≡ some i → P i)
      → (n : ℕ) (i : Inode) → fs₂.inodes n ≡ some i
      → P i
  keeps P p₁ p₀ all = update-all P (store_all bufs fs₁).inodes fs.next_ino ino₁ p₁ (λ n i e.
      update-all P fs.inodes fs.next_ino ino₀ p₀ all n i
        (sym (ap {A = Fs} {B = Option Inode} (λ g. g.inodes n) (store_all-rest bufs fs₁)) ∙ e))

  is_ready : IsReady fs₂
  is_ready =
      let same = store_all-rest bufs fs₁ in
      let next = store_all-next_block bufs fs₁ in
      let blocks = ap {A = Fs} {B = ℕ} (λ f. f.nblocks) same in
      let table = ap {A = Fs} {B = ℕ} (λ f. f.iblocks) same in
      let first = ap {A = Fs} {B = ℕ} (λ f. f.first_data) same in
      let slots = ap {A = Fs} {B = ℕ} (λ f. f.ninodes) same in
      let now = ap {A = Fs} {B = ℕ} (λ f. f.now) same in
      let up = ap {A = Fs} {B = ℕ} (λ f. f.next_ino) same in
      let l = ready.laid_out in
      let f = ready.fits in
      record {
        valid = record { sized = valid₂.sized; room = valid₂.room; fresh = valid₂.fresh };
        laid_out = record {
          sized = valid₂.sized;
          table = omega (arith, l.table, first, table);
          slots = omega (arith, l.slots, slots, table);
          data_blocks = omega (arith, l.data_blocks, first, next);
          within = omega (arith, next, blocks, room);
          small = omega (arith, l.small, blocks);
          addressed =
              keeps (λ i. length i.addr ≡ 13) thirteen (length-replicate {A = ℕ} naddr 0)
                l.addressed;
        };
        fits = record {
          inodes =
              keeps InodeFits
                (record {
                  mode = small;
                  nlink = omega arith;
                  uid = omega arith;
                  gid = omega arith;
                  size = omega arith;
                })
                (record {
                  mode = small;
                  nlink = omega arith;
                  uid = omega arith;
                  gid = omega arith;
                  size = omega arith;
                })
                f.inodes;
          time = omega (arith, f.time, now);
          table = omega (arith, f.table, table);
          numbers = omega (arith, f.numbers, slots);
          used = omega (arith, inode_left, slots, up);
          started = omega (arith, up);
        };
      }

  -- With an inode left and room for the file, `alloc_inode` and `store_data` succeed one after the other.
  pub add_file-Added :
      (ino : Inode) × (fs' : Fs) × (add_file mode content fs ≡ ok (ino, fs'))
      × (ino.mode ≡ mode)
      × Added fs fs' ino content
  add_file-Added =
      let same = store_all-rest bufs fs₁ in
      let next = store_all-next_block bufs fs₁ in
      let first = ap {A = Fs} {B = ℕ} (λ f. f.first_data) same in
      let fit = layout-Fit fs.next_block content few in
      (
        ino₁,
        fs₂,
        adds,
        refl,
        record {
          num = refl;
          there = record {
            used = rw ==_refl refl;
            size = refl;
            addr = refl;
            bounded = few;
            above = omega (arith, first, ready.laid_out.data_blocks);
            below = omega (arith, next);
            holds = store_all-HoldsAt bufs fs₁ fit room valid₁;
          };
          ready = is_ready;
          next_ino = ap {A = Fs} {B = ℕ} (λ f. f.next_ino) same;
          next_block = next;
          nblocks = ap {A = Fs} {B = ℕ} (λ f. f.nblocks) same;
          ninodes = ap {A = Fs} {B = ℕ} (λ f. f.ninodes) same;
          others = λ n lo i c below h.
              let new : n ≢ fs.next_ino = λ e. absurd (omega arith) in
              HasFile-kept fs fs₂ n lo i c h
                (rw (==_ne n fs.next_ino new) (
                  ap {A = Fs} {B = Option Inode} (λ g. g.inodes n) same
                  ∙ rw (==_ne n fs.next_ino new) refl))
                first (omega (arith, next)) (λ b lt. block-store_all bufs fs₁ b fit room valid₁ lt);
        },
      )
