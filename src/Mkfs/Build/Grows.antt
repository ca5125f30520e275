-- ===== src/Mkfs/Build/Grows.antt =====
-- The invariant of the object in `build` of tools/mkfs.py, and how the object grows.
use mame_sys.Base.{
  ℕ, ◌≤◌, ◌<◌, List, length, some, none, Option-cases, inl, inr, ◌≡◌, refl, ◌∙◌, arith,
}
use mame_sys.Mkfs.{Fs, Inode}
use mame_sys.Mkfs.Blocks.{block, IsValid, HoldsAt, HoldsAt-Agrees}
use mame_sys.Mkfs.Layout.{layout}
use mame_sys.Mkfs.Files.{HasFile, HasFile-kept}
use mame_sys.Mkfs.Finish.Image.{IsLaidOut}

-- An object in the table of inodes stands there under its number, which has been given out.
pub record Proper (fs : Fs) (n : ℕ) (ino : Inode) : Type 0 where
  pub num : ino.num ≡ n
  pub sized : length ino.addr ≡ 13
  pub given : n < fs.next_ino
  pub positive : 1 ≤ n

pub record Sound (fs : Fs) : Type 0 where
  pub valid : IsValid fs
  pub laid_out : IsLaidOut fs
  pub started : 1 ≤ fs.next_ino
  pub numbers : fs.next_ino ≤ fs.ninodes
  pub proper : (n : ℕ) (ino : Inode) → fs.inodes n ≡ some ino → Proper fs n ino

-- The sizes stay, numbers and blocks are given out, and the blocks given out before stay as they were.
pub record Grows (fs fs' : Fs) : Type 0 where
  pub nblocks : fs'.nblocks ≡ fs.nblocks
  pub iblocks : fs'.iblocks ≡ fs.iblocks
  pub first_data : fs'.first_data ≡ fs.first_data
  pub ninodes : fs'.ninodes ≡ fs.ninodes
  pub next_block : fs.next_block ≤ fs'.next_block
  pub next_ino : fs.next_ino ≤ fs'.next_ino
  pub kept : (b : ℕ) → b < fs.next_block → block fs'.image b ≡ block fs.image b

pub Grows-refl : (fs : Fs) → Grows fs fs
Grows-refl fs = record {
  nblocks = refl;
  iblocks = refl;
  first_data = refl;
  ninodes = refl;
  next_block = omega arith;
  next_ino = omega arith;
  kept = λ b lt. refl;
}

pub Grows-then : {fs fs₁ fs₂ : Fs} → Grows fs fs₁ → Grows fs₁ fs₂ → Grows fs fs₂
Grows-then g h = record {
  nblocks = h.nblocks ∙ g.nblocks;
  iblocks = h.iblocks ∙ g.iblocks;
  first_data = h.first_data ∙ g.first_data;
  ninodes = h.ninodes ∙ g.ninodes;
  next_block = omega (arith, g.next_block, h.next_block);
  next_ino = omega (arith, g.next_ino, h.next_ino);
  kept = λ b lt. h.kept b (omega (arith, g.next_block)) ∙ g.kept b lt;
}

pub holds-Grows :
    {fs fs' : Fs} (n lo : ℕ) (ino : Inode) (content : List ℕ)
    → Grows fs fs'
    → HasFile fs n lo ino content
    → HoldsAt fs'.image lo (layout lo content)
holds-Grows {fs} {fs'} n lo ino content g f =
    HoldsAt-Agrees (layout lo content) fs.image fs'.image 0 fs.next_block lo (λ b _ hi. g.kept b hi)
      (omega arith) f.below f.holds

pub HasFile-Grows :
    {fs fs' : Fs} (n lo : ℕ) (ino : Inode) (content : List ℕ)
    → Grows fs fs'
    → HasFile fs n lo ino content
    → fs'.inodes n ≡ fs.inodes n
    → HasFile fs' n lo ino content
HasFile-Grows {fs} {fs'} n lo ino content g f same =
    HasFile-kept fs fs' n lo ino content f same g.first_data g.next_block g.kept

-- A number that has not been given out has no inode.
pub unused : {fs : Fs} (n : ℕ) → Sound fs → fs.next_ino ≤ n → fs.inodes n ≡ none
unused {fs} n s h = elim (Option-cases (fs.inodes n)) [
  | inl e ↦ e
  | inr (ino, e) ↦ absurd (omega (arith, (s.proper n ino e).given))
]
