-- ===== src/Mkfs/Build/Sound.antt =====
-- What each call of `build` in tools/mkfs.py on the object makes of it, when it succeeds: `alloc_inode`, a
-- store to a field of an inode, and `store_data`.
use mame_sys.Mkfs.Methods.{no_result, ok-state, ok-value}
use mame_sys.Base.{
  ℕ, ◌+◌, ◌≤◌, ◌<◌, length, Option, some, Bool-cases, inl, inr, ◌≡◌, refl, sym, arith, ◌==◌, ==_iff,
  replicate, length-replicate, leb,
}
use mame_sys.Base.Result.{ok, out_of_inodes}
use mame_sys.Mkfs.{Fs, Inode, new_inode, alloc_inode, update, naddr}
use mame_sys.Mkfs.Build.Grows.{Proper, Sound, Grows}

some-eq : {A : Type 0} {x y : A} → some x ≡ some y → x ≡ y
some-eq h = cc

-- A property of every inode of the table, after one has been put there.
pub update-all :
    (P : ℕ → Inode → Type 0) (inodes : ℕ → Option Inode) (k : ℕ) (x : Inode)
    → P k x
    → ((n : ℕ) (i : Inode) → inodes n ≡ some i → P n i)
    → (n : ℕ) (i : Inode) → update inodes k x n ≡ some i
    → P n i
update-all P inodes k x p all n i e = elim (Bool-cases (n == k)) [
  | inl same ↦ let h : some x ≡ some i = rw same at e in rw (← some-eq h, (==_iff n k).0 same) p
  | inr other ↦ all n i (rw other at e)
]

-- `alloc_inode`

abbrev pub allocated : ℕ → Fs → Inode
allocated mode fs = record {
  num = fs.next_ino;
  mode = mode;
  nlink = 1;
  uid = 0;
  gid = 0;
  size = 0;
  addr = replicate naddr 0;
}

pub alloc_inode-eq-ok :
    (mode : ℕ) (fs : Fs) {ino : Inode} {fs' : Fs}
    → alloc_inode mode 0 0 fs ≡ ok (ino, fs')
    → (fs.next_ino < fs.ninodes)
      × (ino ≡ allocated mode fs)
      × (fs' ≡ record fs {
        next_ino = fs.next_ino + 1;
        inodes = update fs.inodes fs.next_ino (allocated mode fs);
      })
unfolding alloc_inode new_inode
alloc_inode-eq-ok mode fs {ino} {fs'} e = elim (Bool-cases (leb fs.ninodes fs.next_ino)) [
  | inl out ↦ no_result out_of_inodes (ino, fs') (rw out at e)
  | inr left ↦
      let next : Inode × Fs = (
        allocated mode fs,
        record fs {
          next_ino = fs.next_ino + 1;
          inodes = update fs.inodes fs.next_ino (allocated mode fs);
        },
      ) in
      let h : ok next ≡ ok (ino, fs') = rw left at e in
      (ground arith, sym (ok-value next (ino, fs') h), sym (ok-state next (ino, fs') h))
]

-- Another table of inodes in the object, all of them proper.
pub Sound-inodes :
    (fs : Fs) (inodes : ℕ → Option Inode) (next : ℕ)
    → Sound fs
    → fs.next_ino ≤ next
    → next ≤ fs.ninodes
    → ((n : ℕ) (ino : Inode)
        → inodes n ≡ some ino
        → (ino.num ≡ n) × (length ino.addr ≡ 13) × (n < next) × (1 ≤ n))
    → Sound (record fs { next_ino = next; inodes = inodes })
Sound-inodes fs inodes next s le fits all = record {
  valid = record { sized = s.valid.sized; room = s.valid.room; fresh = s.valid.fresh };
  laid_out = record {
    sized = s.laid_out.sized;
    table = s.laid_out.table;
    slots = s.laid_out.slots;
    data_blocks = s.laid_out.data_blocks;
    within = s.laid_out.within;
    small = s.laid_out.small;
    addressed = λ n ino e. (all n ino e).1;
  };
  started = omega (arith, s.started);
  numbers = fits;
  proper = λ n ino e.
      let (num, addr, given, positive) = all n ino e in
      record { num = num; sized = addr; given = given; positive = positive };
}

pub Grows-inodes :
    (fs : Fs) (inodes : ℕ → Option Inode) (next : ℕ)
    → fs.next_ino ≤ next
    → Grows fs (record fs { next_ino = next; inodes = inodes })
Grows-inodes fs inodes next le = record {
  nblocks = refl;
  iblocks = refl;
  first_data = refl;
  ninodes = refl;
  next_block = omega arith;
  next_ino = le;
  kept = λ b lt. refl;
}

alloc-Sound :
    (mode : ℕ) (fs : Fs)
    → Sound fs
    → fs.next_ino < fs.ninodes
    → Sound (record fs {
      next_ino = fs.next_ino + 1;
      inodes = update fs.inodes fs.next_ino (allocated mode fs);
    })
alloc-Sound mode fs s left =
    Sound-inodes fs (update fs.inodes fs.next_ino (allocated mode fs)) (fs.next_ino + 1) s
      (omega arith) (omega arith)
      (update-all (λ n i. (i.num ≡ n) × (length i.addr ≡ 13) × (n < fs.next_ino + 1) × (1 ≤ n))
        fs.inodes fs.next_ino (allocated mode fs)
        (refl, length-replicate {A = ℕ} naddr 0, omega arith, s.started)
        (λ n i e. let p = s.proper n i e in (p.num, p.sized, omega (arith, p.given), p.positive)))

-- What `alloc_inode` does to the object.
pub record Allocates (mode : ℕ) (fs : Fs) (ino : Inode) (fs' : Fs) : Type 0 where
  pub made : ino ≡ allocated mode fs
  pub sound : Sound fs'
  pub grows : Grows fs fs'
  pub inodes : fs'.inodes ≡ update fs.inodes fs.next_ino ino
  pub next_ino : fs'.next_ino ≡ fs.next_ino + 1
  pub next_block : fs'.next_block ≡ fs.next_block
  pub here : Proper fs' ino.num ino

pub alloc_inode-Allocates :
    (mode : ℕ) (fs : Fs) {ino : Inode} {fs' : Fs}
    → Sound fs
    → alloc_inode mode 0 0 fs ≡ ok (ino, fs')
    → Allocates mode fs ino fs'
alloc_inode-Allocates mode fs {ino} {fs'} s e =
    let (left, made, next) = alloc_inode-eq-ok mode fs e in
    rw (made, next)
      (record {
        made = refl;
        sound = alloc-Sound mode fs s left;
        grows =
            Grows-inodes fs (update fs.inodes fs.next_ino (allocated mode fs)) (fs.next_ino + 1)
              (omega arith);
        inodes = refl;
        next_ino = refl;
        next_block = refl;
        here = record {
          num = refl;
          sized = length-replicate {A = ℕ} naddr 0;
          given = omega arith;
          positive = s.started;
        };
      })
