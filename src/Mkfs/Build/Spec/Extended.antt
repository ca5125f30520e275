-- ===== src/Mkfs/Build/Spec/Extended.antt =====
-- Every spec line of tools/mkfs.py keeps the tree.
use mathlib.Core.Path.{subst}
use Prim.Native.Nat.{bit_or}
use mame_sys.Mkfs.Build.Grows.{Grows-then, unused}
use mame_sys.Base.{
  ℕ, ◌+◌, ◌*◌, List, [], ◌∷◌, set, some, ◌≡◌, ◌≢◌, refl, sym, ap, ◌∙◌, arith, Bool-cases, inl, inr,
  ◌==◌, ==_refl, ==_ne, ==_iff, ==_apart, if◌then◌else◌, same_bytes,
}
use mame_sys.Base.Result.{ok, >>=-eq-ok}
use mame_sys.Mkfs.{Fs, Inode, alloc_inode}
use mame_sys.Mkfs.FreeList.Walk.{length-set}
use mame_sys.Mkfs.Build.{Build, Dict, Entries, name_of, parent_path, getdir, append_to, modify}
use mame_sys.Mkfs.Build.Sound.{Allocates, alloc_inode-Allocates}
use mame_sys.Mkfs.Build.Stores.{modify-Sound}
use mame_sys.Mkfs.Build.Kept.{FilesKept-same, modify-elsewhere, alloc-others}
use mame_sys.Mkfs.Build.Links.{one, Appends, append_to-Appends}
use mame_sys.Mkfs.Build.Tree.{Tree, Extends, Extends-then, Extends-refl, nlink_of}
use mame_sys.Mkfs.Build.Getdir.{getdir-Got}
use mame_sys.Mkfs.Build.Walked.{Extends-entries}
use mame_sys.Mkfs.Build.Spec.{
  dir_kind, link_kind, fields, part, int, spec_dir, spec_link, spec_device, spec_node, spec_parts,
  spec_lines,
}
use mame_sys.Mkfs.Build.Spec.Links.{ok-eq, modify-nlink, spec_dir-Extends, spec_link-Extends}

made_there :
    (b : Build) (mode : ℕ) (d : Inode) (fs : Fs)
    → Allocates mode b.fs d fs
    → fs.inodes d.num ≡ some d
made_there b mode d fs alloc =
    ap (λ t. t d.num) alloc.inodes
    ∙ rw (← ap {A = Inode} {B = ℕ} (λ i. i.num) alloc.made, ==_refl d.num) refl

made_nlink :
    (b : Build) (mode : ℕ) (d : Inode) (fs : Fs)
    → Tree b
    → Allocates mode b.fs d fs
    → (n : ℕ) → nlink_of (fs.inodes n) ≡ nlink_of (b.fs.inodes n) + one n d.num
made_nlink b mode d fs t alloc n =
    let number : d.num ≡ b.fs.next_ino = ap {A = Inode} {B = ℕ} (λ i. i.num) alloc.made in
    let links : d.nlink ≡ 1 = ap {A = Inode} {B = ℕ} (λ i. i.nlink) alloc.made in
    elim (Bool-cases (n == d.num)) [
      | inl e ↦
          let here = (==_iff n d.num).0 e in
          let free = unused n t.sound (omega (arith, here, number)) in
          ap nlink_of (ap fs.inodes here ∙ made_there b mode d fs alloc) ∙ rw (free, e) links
      | inr e ↦
          let ne : n ≢ b.fs.next_ino = λ s. ==_apart n d.num e (s ∙ sym number) in
          let same : fs.inodes n ≡ b.fs.inodes n =
            ap (λ t. t n) alloc.inodes ∙ rw (==_ne n b.fs.next_ino ne) refl in
          ap nlink_of same ∙ rw e (omega arith)
    ]

-- `blk` and `chr`: a new inode, whose first address is the device number.
device-Extends :
    (b : Build) (here name : List ℕ) (mode dev : ℕ) (d : Inode) (fs : Fs) (entries : Dict Entries)
    → Tree b
    → Allocates mode b.fs d fs
    → Appends here ((d.num, name) ∷ []) b.entries entries
    → Extends b (record b {
      fs = modify d.num (λ i. record i { addr = set i.addr 0 dev }) fs;
      entries = entries;
    })
device-Extends b here name mode dev d fs entries t alloc a =
    let f : Inode → Inode = λ i. record i { addr = set i.addr 0 dev } in
    let number : d.num ≡ b.fs.next_ino = ap {A = Inode} {B = ℕ} (λ i. i.num) alloc.made in
    let (s, g) = modify-Sound d.num f fs (λ i. refl) (λ i. length-set i.addr 0 dev) alloc.sound in
    let same : (n : ℕ) (ino : Inode)
        → b.fs.inodes n ≡ some ino
        → (modify d.num f fs).inodes n ≡ b.fs.inodes n =
      λ n ino e.
        let ne : n ≢ d.num =
          λ here. absurd (omega (arith, number, (t.sound.proper n ino e).given)) in
        modify-elsewhere d.num f fs n ne (alloc-others mode b.fs t.sound alloc n ino e) in
    let grown = Grows-then alloc.grows g in
    Extends-entries b here ((d.num, name) ∷ []) entries (modify d.num f fs) t a s grown
      (FilesKept-same grown same)
      (λ n.
        let count =
          modify-nlink d.num f fs 0 (λ i. omega arith) (d, made_there b mode d fs alloc) n in
        grind (arith, count, made_nlink b mode d fs t alloc n))
      (λ q m e.
        let was = t.held q m e in
        record { ino = was.ino; there = same m was.ino was.there ∙ was.there; empty = was.empty })

spec_device-Extends :
    (parts : List (List ℕ)) (kind path name : List ℕ) (b : Build) {b' : Build}
    → Tree b
    → spec_device parts kind path name b ≡ ok b'
    → Extends b b'
unfolding spec_device
spec_device-Extends parts kind path name b t e =
    let (text, e₁, h₁) = >>=-eq-ok (part parts 2) _ e in
    let (mode, e₂, h₂) = >>=-eq-ok (int 8 text) _ h₁ in
    let ((d, fs), e₃, h₃) = >>=-eq-ok (alloc_inode _ 0 0 b.fs) _ h₂ in
    let (text₃, e₄, h₄) = >>=-eq-ok (part parts 3) _ h₃ in
    let (major, e₅, h₅) = >>=-eq-ok (int 10 text₃) _ h₄ in
    let (text₄, e₆, h₆) = >>=-eq-ok (part parts 4) _ h₅ in
    let (minor, e₇, h₇) = >>=-eq-ok (int 10 text₄) _ h₆ in
    let (entries, e₈, h₈) =
      >>=-eq-ok (append_to (parent_path path) ((d.num, name) ∷ []) b.entries) _ h₇ in
    subst (Extends b) (ok-eq h₈) (
      device-Extends b (parent_path path) name _ (bit_or (major * 256) minor) d fs entries t
        (alloc_inode-Allocates _ b.fs t.sound e₃) (append_to-Appends _ _ b.entries e₈))

spec_node-Extends :
    (parts : List (List ℕ)) (kind path name : List ℕ) (b : Build) {b' : Build}
    → Tree b
    → spec_node parts kind path name b ≡ ok b'
    → Extends b b'
unfolding spec_node
spec_node-Extends parts kind path name b {b'} t e =
    let ((num, b₁), e₁, h) = >>=-eq-ok (getdir (parent_path path) b) _ e in
    let got = getdir-Got (parent_path path) b t e₁ in
    Extends-then got.extends (branch num b₁ got.extends.tree h)
  where
    branch :
        (num : ℕ) (b₁ : Build)
        → Tree b₁
        → (if same_bytes kind link_kind
            then spec_link parts path name b₁
            else spec_device parts kind path name b₁)
          ≡ ok b'
        → Extends b₁ b'
    branch num b₁ t₁ h = elim (Bool-cases (same_bytes kind link_kind)) [
      | inl l ↦ spec_link-Extends parts path name b₁ t₁ (rw l at h)
      | inr l ↦ spec_device-Extends parts kind path name b₁ t₁ (rw l at h)
    ]

spec_parts-Extends :
    (parts : List (List ℕ)) (b : Build) {b' : Build}
    → Tree b
    → spec_parts parts b ≡ ok b'
    → Extends b b'
unfolding spec_parts
spec_parts-Extends [] b {b'} t e = subst (Extends b) (ok-eq e) (Extends-refl t)
spec_parts-Extends (kind ∷ parts) b {b'} t e =
    let (path, e₁, h₁) = >>=-eq-ok (part (kind ∷ parts) 1) _ e in
    let (name, e₂, h₂) = >>=-eq-ok (name_of path) _ h₁ in branch path name h₂
  where
    branch :
        (path name : List ℕ)
        → (if same_bytes kind dir_kind
            then spec_dir (kind ∷ parts) path b
            else spec_node (kind ∷ parts) kind path name b)
          ≡ ok b'
        → Extends b b'
    branch path name h = elim (Bool-cases (same_bytes kind dir_kind)) [
      | inl d ↦ spec_dir-Extends (kind ∷ parts) path b t (rw d at h)
      | inr d ↦ spec_node-Extends (kind ∷ parts) kind path name b t (rw d at h)
    ]

-- Spec lines keep the tree, and all that stands in it.
pub spec_lines-Extends :
    (spec : List (List ℕ)) (b : Build) {b' : Build}
    → Tree b
    → spec_lines spec b ≡ ok b'
    → Extends b b'
unfolding spec_lines
spec_lines-Extends [] b {b'} t e = subst (Extends b) (ok-eq e) (Extends-refl t)
spec_lines-Extends (line ∷ spec) b {b'} t e =
    let (b₁, e₁, h) = >>=-eq-ok (spec_parts (fields line) b) _ e in
    let x = spec_parts-Extends (fields line) b t e₁ in
    Extends-then x (spec_lines-Extends spec b₁ x.tree h)
