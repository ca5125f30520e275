-- ===== src/Mkfs/Build/Tree.antt =====
-- The tree that `build` of tools/mkfs.py gathers: an inode's link count is the number of the entries that
-- name it, and `getdir` keeps it so.
use mame_sys.Mkfs.Build.Grows.{Grows, Grows-refl, Grows-then, Sound}
use mame_sys.Base.{
  ℕ, ◌+◌, ◌≤◌, List, [], ◌++◌, Option, some, none, ◌≡◌, ◌≢◌, refl, sym, ap, ◌∙◌, arith, ◌⊎◌,
  Bool-cases, inl, inr, ◌==◌, ==_refl, ==_ne, ==_iff, ==_apart, replicate, append-nil, append_assoc,
}
use mame_sys.Mkfs.{Fs, Inode, naddr, update}
use mame_sys.Mkfs.Build.{Build, Entries, find, root_path, modify, set_nlink, add_link}
use mame_sys.Mkfs.Build.Paths.{IsRooted}
use mame_sys.Mkfs.Build.Dicts.{Unique, keys}
use mame_sys.Mkfs.Build.Kept.{modify-here, modify-elsewhere, FilesKept, FilesKept-then}
use mame_sys.Mkfs.Build.Links.{one, links}

abbrev pub nlink_of : Option Inode → ℕ
nlink_of none = 0
nlink_of (some ino) = ino.nlink

-- A directory that has not been written yet.
pub record IsDir (fs : Fs) (num : ℕ) : Type 0 where
  pub ino : Inode
  pub there : fs.inodes num ≡ some ino
  pub empty : ino.addr ≡ replicate naddr 0

pub record Tree (b : Build) : Type 0 where
  pub sound : Sound b.fs
  pub same_keys : keys b.dirs ≡ keys b.entries
  pub linked : (n : ℕ) → links n b.entries ≡ nlink_of (b.fs.inodes n)
  pub held : (path : List ℕ) (num : ℕ) → find path b.dirs ≡ some num → IsDir b.fs num
  pub apart : (p q : List ℕ) (num : ℕ) → find p b.dirs ≡ some num → find q b.dirs ≡ some num → p ≡ q
  pub rooted : (path : List ℕ) (num : ℕ) → find path b.dirs ≡ some num → IsRooted path
  pub unique : Unique (keys b.dirs)
  pub root : (num : ℕ) × (find root_path b.dirs ≡ some num)

-- The table after a new directory `d` in the directory `parent`.
module _ (fs fs₁ : Fs) (d parent : ℕ) (made pino : Inode)
    (table : fs₁.inodes ≡ update fs.inodes d made) (new : fs.inodes d ≡ none)
    (old : fs.inodes parent ≡ some pino) where
  apart : parent ≢ d
  apart e = let h : some pino ≡ none = sym old ∙ ap fs.inodes e ∙ new in absurd cc

  abbrev after : Fs
  after = modify parent add_link (modify d (set_nlink 2) fs₁)

  made_at : fs₁.inodes d ≡ some made
  made_at = ap (λ t. t d) table ∙ rw (==_refl d) refl

  old_at : (n : ℕ) → n ≢ d → fs₁.inodes n ≡ fs.inodes n
  old_at n ne = ap (λ t. t n) table ∙ rw (==_ne n d ne) refl

  pub new_dir-new : after.inodes d ≡ some (set_nlink 2 made)
  new_dir-new =
      modify-elsewhere parent add_link (modify d (set_nlink 2) fs₁) d (λ e. apart (sym e))
        (modify-here d (set_nlink 2) fs₁ d refl made_at)

  pub new_dir-parent : after.inodes parent ≡ some (add_link pino)
  new_dir-parent =
      modify-here parent add_link (modify d (set_nlink 2) fs₁) parent refl
        (modify-elsewhere d (set_nlink 2) fs₁ parent apart (old_at parent apart ∙ old))

  pub new_dir-others : (n : ℕ) → n ≢ d → n ≢ parent → after.inodes n ≡ fs.inodes n
  new_dir-others n not_d not_parent =
      modify-elsewhere parent add_link (modify d (set_nlink 2) fs₁) n not_parent
        (modify-elsewhere d (set_nlink 2) fs₁ n not_d (old_at n not_d))

  pub new_dir-links :
      (n : ℕ)
      → nlink_of (after.inodes n)
        ≡ nlink_of (fs.inodes n) + (one n d + (one n parent + 0)) + (one n d + 0)
  new_dir-links n = elim (Bool-cases (n == d)) [
    | inl e ↦
        let same = (==_iff n d).0 e in
        rw (same, new_dir-new, new, ==_refl d, ==_ne d parent (λ e. apart (sym e))) refl
    | inr e ↦
        let ne : n ≢ d = ==_apart n d e in
        elim (Bool-cases (n == parent)) [
          | inl e ↦
              let same = (==_iff n parent).0 e in
              rw (same, new_dir-parent, old, ==_refl parent, ==_ne parent d apart) (omega arith)
          | inr e' ↦ rw (e, e', new_dir-others n ne (==_apart n parent e')) (omega arith)
        ]
  ]

-- What a call that may make directories does to the tree: directories stay where they are.
pub record Extends (b b' : Build) : Type 0 where
  pub tree : Tree b'
  pub grows : Grows b.fs b'.fs
  pub files : FilesKept b.fs b'.fs
  pub kept : (q : List ℕ) (m : ℕ) → find q b.dirs ≡ some m → find q b'.dirs ≡ some m
  pub listed :
      (q : List ℕ) (ents : Entries)
      → find q b.entries ≡ some ents
      → (rest : Entries) × (find q b'.entries ≡ some (ents ++ rest))
  pub new_dirs :
      (q : List ℕ) (m : ℕ)
      → find q b'.dirs ≡ some m
      → (find q b.dirs ≡ some m) ⊎ (b.fs.next_ino ≤ m)

pub Extends-then : {b b₁ b₂ : Build} → Extends b b₁ → Extends b₁ b₂ → Extends b b₂
Extends-then e f = record {
  tree = f.tree;
  grows = Grows-then e.grows f.grows;
  files = FilesKept-then e.files f.files;
  kept = λ q m h. f.kept q m (e.kept q m h);
  listed = λ q ents h.
      let (rest, h₁) = e.listed q ents h in
      let (more, h₂) = f.listed q (ents ++ rest) h₁ in
      (rest ++ more, h₂ ∙ ap some (append_assoc ents rest more));
  new_dirs = λ q m h. elim (f.new_dirs q m h) [
    | inl before ↦ e.new_dirs q m before
    | inr above ↦ inr (omega (arith, e.grows.next_ino, above))
  ];
}

pub Extends-refl : {b : Build} → Tree b → Extends b b
Extends-refl {b} t = record {
  tree = t;
  grows = Grows-refl b.fs;
  files = λ n lo ino content h. (ino, h);
  kept = λ q m h. h;
  listed = λ q ents h. ([], h ∙ ap some (sym (append-nil ents)));
  new_dirs = λ q m h. inl h;
}
