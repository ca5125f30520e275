-- ===== src/Mkfs/Build/Gathered.antt =====
-- What `build` of tools/mkfs.py has in memory before it writes the directories.
use mathlib.Core.Path.{subst}
use mame_sys.Mkfs.Build.Grows.{Grows, Grows-then, Sound}
use mame_sys.Mkfs.Build.Spec.Links.{ok-eq}
use mame_sys.Base.{
  ℕ, List, [], ◌∷◌, some, none, ◌≡◌, ◌≢◌, refl, sym, ap, ◌∙◌, Bool-cases, inl, inr, ◌==◌, ==_refl,
  ==_ne, ==_iff, ==_apart, same_bytes,
}
use mame_sys.Base.Result.{ok, >>=-eq-ok, guard, assertion_error}
use mame_sys.Mkfs.{Fs, Inode, alloc_inode, rootino}
use mame_sys.Mkfs.HostFiles.{HostFile}
use mame_sys.Mkfs.Build.{
  Build, find, start, walk_dirs, modify, set_nlink, root_path, dir_mode, dot, dotdot,
}
use mame_sys.Mkfs.Build.Dicts.{same_bytes_eq, some-eq}
use mame_sys.Mkfs.Build.Sound.{Allocates, alloc_inode-Allocates}
use mame_sys.Mkfs.Build.Stores.{modify-Sound}
use mame_sys.Mkfs.Build.Kept.{modify-here, modify-elsewhere}
use mame_sys.Mkfs.Build.Links.{links}
use mame_sys.Mkfs.Build.Tree.{Tree, nlink_of}
use mame_sys.Mkfs.Build.InTree.{FilesIn, FilesIn-all, walk_dirs-Extends}
use mame_sys.Mkfs.Build.Spec.{gather}
use mame_sys.Mkfs.Build.Spec.Extended.{spec_lines-Extends}

module _ (fs fs₁ : Fs) (d : Inode) (alloc : Allocates dir_mode fs d fs₁)
    (unused : (n : ℕ) → fs.inodes n ≡ none) where
  abbrev b₁ : Build
  b₁ = record {
    fs = modify d.num (set_nlink 2) fs₁;
    dirs = (root_path, d.num) ∷ [];
    entries = (root_path, (d.num, dot) ∷ (d.num, dotdot) ∷ []) ∷ [];
  }

  number : d.num ≡ fs.next_ino
  number = ap {A = Inode} {B = ℕ} (λ i. i.num) alloc.made

  there : b₁.fs.inodes d.num ≡ some (set_nlink 2 d)
  there =
      let made : fs₁.inodes d.num ≡ some d =
        ap (λ t. t d.num) alloc.inodes ∙ rw (← number, ==_refl d.num) refl in
      modify-here d.num (set_nlink 2) fs₁ d.num refl made

  elsewhere : (n : ℕ) → n ≢ d.num → b₁.fs.inodes n ≡ none
  elsewhere n ne =
      modify-elsewhere d.num (set_nlink 2) fs₁ n ne (
        ap (λ t. t n) alloc.inodes ∙ rw (==_ne n fs.next_ino (λ e. ne (e ∙ sym number))) (unused n))

  counted : (n : ℕ) → links n b₁.entries ≡ nlink_of (b₁.fs.inodes n)
  counted n = elim (Bool-cases (n == d.num)) [
    | inl e ↦ rw ((==_iff n d.num).0 e, there, ==_refl d.num) refl
    | inr e ↦ rw (elsewhere n (==_apart n d.num e), e) refl
  ]

  only :
      (path : List ℕ) (num : ℕ) → find path b₁.dirs ≡ some num → (path ≡ root_path) × (num ≡ d.num)
  unfolding find
  only path num e = elim (Bool-cases (same_bytes path root_path)) [
    | inl same ↦ (same_bytes_eq path root_path same, sym (some-eq (rw same at e)))
    | inr other ↦ let h : none ≡ some num = rw other at e in absurd cc
  ]

  root_there : find root_path b₁.dirs ≡ some d.num
  unfolding find same_bytes
  root_there = refl

  start-tree : Tree b₁ × Grows fs b₁.fs
  start-tree =
      let (s, g) = modify-Sound d.num (set_nlink 2) fs₁ (λ i. refl) (λ i. refl) alloc.sound in
      (
        record {
          sound = s;
          same_keys = refl;
          linked = counted;
          held = λ path num e. rw ((only path num e).1) (record {
            ino = set_nlink 2 d;
            there = there;
            empty = ap {A = Inode} {B = List ℕ} (λ i. i.addr) alloc.made;
          });
          apart = λ p q num e₁ e₂. (only p num e₁).0 ∙ sym ((only q num e₂).0);
          rooted = λ path num e. record { rest = []; starts = (only path num e).0 };
          root = (d.num, root_there);
          unique = (tt, tt);
        },
        Grows-then alloc.grows g,
      )

start-Tree :
    (fs : Fs) {b : Build}
    → Sound fs
    → ((n : ℕ) → fs.inodes n ≡ none)
    → start fs ≡ ok b
    → Tree b × Grows fs b.fs
unfolding start
start-Tree fs {b} s unused e =
    let ((d, fs₁), e₁, h₁) = >>=-eq-ok (alloc_inode dir_mode 0 0 fs) _ e in
    let (done, e₂, h₂) = >>=-eq-ok (guard (d.num == rootino) assertion_error) _ h₁ in
    subst (λ x. Tree x × Grows fs x.fs) (ok-eq h₂)
      (start-tree fs fs₁ d (alloc_inode-Allocates dir_mode fs s e₁) unused)

-- The tree in memory when all has been gathered, with the host's files in it.
pub gather-Tree :
    (tree : List (List ℕ × List HostFile)) (spec : List (List ℕ)) (fs : Fs) {b : Build}
    → Sound fs
    → ((n : ℕ) → fs.inodes n ≡ none)
    → gather tree spec fs ≡ ok b
    → Tree b × Grows fs b.fs × FilesIn b tree
unfolding gather
gather-Tree tree spec fs {b} s unused e =
    let (b₁, e₁, h₁) = >>=-eq-ok (start fs) _ e in
    let (b₂, e₂, h₂) = >>=-eq-ok (walk_dirs tree b₁) _ h₁ in
    let (t₁, g) = start-Tree fs s unused e₁ in
    let (x, files) = walk_dirs-Extends tree b₁ t₁ e₂ in
    let y = spec_lines-Extends spec b₂ x.tree h₂ in
    (y.tree, Grows-then g (Grows-then x.grows y.grows), FilesIn-all tree y files)
