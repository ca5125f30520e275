-- ===== src/Mkfs/Build/Kept.antt =====
-- Files in the object stay what they are through the calls of `build` in tools/mkfs.py on other inodes, and
-- through stores to an inode's mode or link count.
use mame_sys.Mkfs.Build.Grows.{Grows, HasFile-Grows, Sound, holds-Grows}
use mame_sys.Base.{
  ℕ, List, Option, some, ◌≡◌, ◌≢◌, refl, sym, ap, ◌∙◌, arith, Bool-cases, inl, inr, ◌==◌, ==_iff,
  ==_ne, ==_refl, ==_apart,
}
use mame_sys.Mkfs.{Fs, Inode}
use mame_sys.Mkfs.Files.{HasFile}
use mame_sys.Mkfs.Build.{modify}
use mame_sys.Mkfs.Build.Sound.{Allocates}
use mame_sys.Mkfs.Build.Stores.{apply, modify-inodes, Stores}

-- A store to a field shows at its number, and nowhere else.
pub modify-here :
    (num : ℕ) (f : Inode → Inode) (fs : Fs) (n : ℕ) {o : Option Inode}
    → n ≡ num
    → fs.inodes n ≡ o
    → (modify num f fs).inodes n ≡ apply f o
modify-here num f fs n here e =
    modify-inodes num f fs n ∙ rw (here, ==_refl num, sym here) (ap (apply f) e)

pub modify-elsewhere :
    (num : ℕ) (f : Inode → Inode) (fs : Fs) (n : ℕ) {o : Option Inode}
    → n ≢ num
    → fs.inodes n ≡ o
    → (modify num f fs).inodes n ≡ o
modify-elsewhere num f fs n other e = modify-inodes num f fs n ∙ rw (==_ne n num other) e

-- Every file of `fs` is one of `fs'`, in the same blocks.
abbrev pub FilesKept : Fs → Fs → Type 0
FilesKept fs fs' =
    (n lo : ℕ) (ino : Inode) (content : List ℕ)
    → HasFile fs n lo ino content
    → (ino' : Inode) × HasFile fs' n lo ino' content

pub FilesKept-then : {fs fs₁ fs₂ : Fs} → FilesKept fs fs₁ → FilesKept fs₁ fs₂ → FilesKept fs fs₂
FilesKept-then f g n lo ino content h =
    let (ino₁, h₁) = f n lo ino content h in g n lo ino₁ content h₁

-- What is not touched is kept.
pub FilesKept-same :
    {fs fs' : Fs}
    → Grows fs fs'
    → ((n : ℕ) (ino : Inode) → fs.inodes n ≡ some ino → fs'.inodes n ≡ fs.inodes n)
    → FilesKept fs fs'
FilesKept-same g same n lo ino content h =
    (ino, HasFile-Grows n lo ino content g h (same n ino h.used))

pub alloc-others :
    (mode : ℕ) (fs : Fs) {d : Inode} {fs' : Fs}
    → Sound fs
    → Allocates mode fs d fs'
    → (n : ℕ) (ino : Inode) → fs.inodes n ≡ some ino
    → fs'.inodes n ≡ fs.inodes n
alloc-others mode fs {d} {fs'} s a n ino e =
    let ne : n ≢ fs.next_ino = λ same. absurd (omega (arith, (s.proper n ino e).given)) in
    ap (λ t. t n) a.inodes ∙ rw (==_ne n fs.next_ino ne) refl

pub alloc-FilesKept :
    (mode : ℕ) (fs : Fs) {d : Inode} {fs' : Fs}
    → Sound fs
    → Allocates mode fs d fs'
    → FilesKept fs fs'
alloc-FilesKept mode fs s a = FilesKept-same a.grows (alloc-others mode fs s a)

pub modify-FilesKept :
    (num : ℕ) (f : Inode → Inode) (fs : Fs)
    → ((i : Inode) → (f i).size ≡ i.size)
    → ((i : Inode) → (f i).addr ≡ i.addr)
    → Grows fs (modify num f fs)
    → FilesKept fs (modify num f fs)
modify-FilesKept num f fs same_size same_addr g n lo ino content h = elim (Bool-cases (n == num)) [
  | inl e ↦
      let used = modify-here num f fs n ((==_iff n num).0 e) h.used in
      (
        f ino,
        record {
          used = used;
          size = same_size ino ∙ h.size;
          addr = same_addr ino ∙ h.addr;
          bounded = h.bounded;
          above = omega (arith, g.first_data, h.above);
          below = omega (arith, g.next_block, h.below);
          holds = holds-Grows n lo ino content g h;
        },
      )
  | inr e ↦ (
    ino,
    HasFile-Grows n lo ino content g h (modify-elsewhere num f fs n (==_apart n num e) refl),
  )
]

-- `store_data` on another inode.
pub store-FilesKept :
    (ino : Inode) (content : List ℕ) (fs : Fs) {ino' : Inode} {fs' : Fs}
    → Stores ino content fs ino' fs'
    → (n lo : ℕ) (i : Inode) (c : List ℕ) → n ≢ ino.num
    → HasFile fs n lo i c
    → HasFile fs' n lo i c
store-FilesKept ino content fs s n lo i c ne h =
    HasFile-Grows n lo i c s.grows h (s.inodes n ∙ rw (==_ne n ino.num ne) refl)
