-- ===== src/Mkfs/Build/Spec/Links.antt =====
-- The spec lines `dir` and `link` of tools/mkfs.py keep the tree.
use mathlib.Core.Path.{subst}
use Prim.Native.Nat.{bit_or}
use mame_sys.Mkfs.Methods.{no_result}
use mame_sys.Base.{
  ℕ, ◌+◌, ◌≤◌, List, [], ◌∷◌, Bool, true, false, Option, some, none, ◌≡◌, refl, sym, ap, ◌∙◌, arith,
  ◌⊎◌, Bool-cases, Option-cases, inl, inr, ◌==◌, ==_refl, ==_iff, ==_apart, if◌then◌else◌,
  same_bytes, append-nil,
}
use mame_sys.Base.Result.{ok, link_target_missing, >>=-eq-ok}
use mame_sys.Mkfs.{Fs, Inode, s_ifdir}
use mame_sys.Mkfs.Build.{
  Build, Dict, Entries, find, get, name_of, parent_path, getdir, append_to, modify, add_link,
}
use mame_sys.Mkfs.Build.Dicts.{get-eq-ok, some-eq}
use mame_sys.Mkfs.Build.Stores.{modify-Sound}
use mame_sys.Mkfs.Build.Kept.{modify-FilesKept, modify-here, modify-elsewhere}
use mame_sys.Mkfs.Build.Links.{named, links, Appends, append_to-Appends}
use mame_sys.Mkfs.Build.Tree.{Tree, IsDir, Extends, Extends-then, nlink_of}
use mame_sys.Mkfs.Build.Getdir.{getdir-Got}
use mame_sys.Mkfs.Build.Walked.{Extends-entries}
use mame_sys.Mkfs.Build.Spec.{part, int, spec_dir, find_target, or_missing, spec_link}

pub ok-eq : {A : Type 0} {x y : A} → ok x ≡ ok y → x ≡ y
ok-eq h = cc

-- What a store to a field leaves of an inode: the link count is that of what the store makes of it.
pub modify-nlink :
    (num : ℕ) (f : Inode → Inode) (fs : Fs) (k : ℕ)
    → ((i : Inode) → (f i).nlink ≡ i.nlink + k)
    → ((ino : Inode) × (fs.inodes num ≡ some ino))
    → (n : ℕ)
    → nlink_of ((modify num f fs).inodes n) ≡ nlink_of (fs.inodes n) + (if n == num then k else 0)
modify-nlink num f fs k more (ino, e) n = elim (Bool-cases (n == num)) [
  | inl same ↦
      let here = (==_iff n num).0 same in
      let was : fs.inodes n ≡ some ino = ap fs.inodes here ∙ e in
      ap nlink_of (modify-here num f fs n here was) ∙ rw (same, was) (more ino)
  | inr other ↦
      ap nlink_of (modify-elsewhere num f fs n (==_apart n num other) refl) ∙ rw other (omega arith)
]

pub modify-IsDir :
    (num : ℕ) (f : Inode → Inode) (fs : Fs) (m : ℕ)
    → ((i : Inode) → (f i).addr ≡ i.addr)
    → IsDir fs m
    → IsDir (modify num f fs) m
modify-IsDir num f fs m same d = elim (Bool-cases (m == num)) [
  | inl e ↦ record {
    ino = f d.ino;
    there = modify-here num f fs m ((==_iff m num).0 e) d.there;
    empty = same d.ino ∙ d.empty;
  }
  | inr e ↦ record {
    ino = d.ino;
    there = modify-elsewhere num f fs m (==_apart m num e) d.there;
    empty = d.empty;
  }
]

-- `dir`: the mode of a directory that is there.
mode-Extends :
    (b : Build) (num mode : ℕ)
    → Tree b
    → ((ino : Inode) × (b.fs.inodes num ≡ some ino))
    → Extends b (record b { fs = modify num (λ ino. record ino { mode = mode }) b.fs })
mode-Extends b num mode t there =
    let f : Inode → Inode = λ ino. record ino { mode = mode } in
    let (s, g) = modify-Sound num f b.fs (λ i. refl) (λ i. refl) t.sound in
    record {
      tree = record {
        sound = s;
        same_keys = t.same_keys;
        linked = λ n.
            let count = modify-nlink num f b.fs 0 (λ i. omega arith) there n in
            grind (arith, t.linked n, count);
        held = λ q m e. modify-IsDir num f b.fs m (λ i. refl) (t.held q m e);
        apart = t.apart;
        rooted = t.rooted;
        unique = t.unique;
        root = t.root;
      };
      grows = g;
      files = modify-FilesKept num f b.fs (λ i. refl) (λ i. refl) g;
      kept = λ q m h. h;
      listed = λ q ents h. ([], h ∙ ap some (sym (append-nil ents)));
      new_dirs = λ q m h. inl h;
    }

pub spec_dir-Extends :
    (parts : List (List ℕ)) (path : List ℕ) (b : Build) {b' : Build}
    → Tree b
    → spec_dir parts path b ≡ ok b'
    → Extends b b'
unfolding spec_dir
spec_dir-Extends parts path b t e =
    let ((num, b₁), e₁, h₁) = >>=-eq-ok (getdir path b) _ e in
    let (text, e₂, h₂) = >>=-eq-ok (part parts 2) _ h₁ in
    let (mode, e₃, h₃) = >>=-eq-ok (int 8 text) _ h₂ in
    let got = getdir-Got path b t e₁ in
    let d = got.extends.tree.held path num got.there in
    subst (Extends b) (ok-eq h₃) (
      Extends-then got.extends
        (mode-Extends b₁ num (bit_or s_ifdir mode) got.extends.tree (d.ino, d.there)))

-- `link`: the target's inode is in the table, since an entry names it.

pub links-named :
    (n : ℕ) (q : List ℕ) (d : Dict Entries) {ents : Entries}
    → find q d ≡ some ents
    → named n ents ≤ links n d
unfolding find
links-named n q [] e = cc
links-named n q ((k, held) ∷ d) {ents} e = elim (Bool-cases (same_bytes q k)) [
  | inl same ↦ let h : held ≡ ents = some-eq (rw same at e) in omega (arith, ap (named n) h)
  | inr other ↦ omega (arith, links-named n q d (rw other at e))
]

chosen :
    (target : List ℕ) (num : ℕ) (name : List ℕ) (ents : Entries) (tino : Option ℕ) (hit : Bool)
    {m : ℕ}
    → (if hit then some num else tino) ≡ some m
    → (tino ≡ some m) ⊎ (1 ≤ named m ((num, name) ∷ ents))
chosen target num name ents tino true {m} e =
    let same : num ≡ m = some-eq e in inr (rw (same, ==_refl m) (omega arith))
chosen target num name ents tino false e = inl e

find_target-named :
    (target : List ℕ) (ents : Entries) (tino : Option ℕ) {m : ℕ}
    → find_target target ents tino ≡ ok (some m)
    → (tino ≡ some m) ⊎ (1 ≤ named m ents)
unfolding find_target
find_target-named target [] tino e = inl (ok-eq e)
find_target-named target ((num, name) ∷ ents) tino {m} e =
    let (wanted, e₁, h) = >>=-eq-ok (name_of target) _ e in
    elim (find_target-named target ents _ h) [
      | inl now ↦ chosen target num name ents tino (same_bytes name wanted) now
      | inr later ↦ inr (omega (arith, later))
    ]

pub linked-there :
    (b : Build) (n : ℕ)
    → Tree b
    → 1 ≤ links n b.entries
    → (ino : Inode) × (b.fs.inodes n ≡ some ino)
linked-there b n t h = elim (Option-cases (b.fs.inodes n)) [
  | inl free ↦ absurd (omega (arith, t.linked n, ap nlink_of free))
  | inr there ↦ there
]

or_missing-eq-ok : (o : Option ℕ) {m : ℕ} → or_missing o ≡ ok m → o ≡ some m
or_missing-eq-ok none {m} e = no_result link_target_missing m e
or_missing-eq-ok (some n) e = ap some (ok-eq e)

link-Extends :
    (b : Build) (here name : List ℕ) (tino : ℕ) (entries : Dict Entries)
    → Tree b
    → Appends here ((tino, name) ∷ []) b.entries entries
    → ((ino : Inode) × (b.fs.inodes tino ≡ some ino))
    → Extends b (record b { fs = modify tino add_link b.fs; entries = entries })
link-Extends b here name tino entries t a there =
    let (s, g) = modify-Sound tino add_link b.fs (λ i. refl) (λ i. refl) t.sound in
    Extends-entries b here ((tino, name) ∷ []) entries (modify tino add_link b.fs) t a s g
      (modify-FilesKept tino add_link b.fs (λ i. refl) (λ i. refl) g)
      (λ n.
        let count = modify-nlink tino add_link b.fs 1 (λ i. refl) there n in omega (arith, count))
      (λ q m e. modify-IsDir tino add_link b.fs m (λ i. refl) (t.held q m e))

pub spec_link-Extends :
    (parts : List (List ℕ)) (path name : List ℕ) (b : Build) {b' : Build}
    → Tree b
    → spec_link parts path name b ≡ ok b'
    → Extends b b'
unfolding spec_link
spec_link-Extends parts path name b t e =
    let (target, e₁, h₁) = >>=-eq-ok (part parts 2) _ e in
    let (ents, e₂, h₂) = >>=-eq-ok (get (parent_path target) b.entries) _ h₁ in
    let (found, e₃, h₃) = >>=-eq-ok (find_target target ents none) _ h₂ in
    let (tino, e₄, h₄) = >>=-eq-ok (or_missing found) _ h₃ in
    let (entries, e₅, h₅) =
      >>=-eq-ok (append_to (parent_path path) ((tino, name) ∷ []) b.entries) _ h₄ in
    let there =
      linked-there b tino t
        (target_count target ents found tino (get-eq-ok _ b.entries e₂) e₃ e₄) in
    subst (Extends b) (ok-eq h₅) (
      link-Extends b (parent_path path) name tino entries t (append_to-Appends _ _ b.entries e₅)
        there)
  where
    target_count :
        (target : List ℕ) (ents : Entries) (found : Option ℕ) (tino : ℕ)
        → find (parent_path target) b.entries ≡ some ents
        → find_target target ents none ≡ ok found
        → or_missing found ≡ ok tino
        → 1 ≤ links tino b.entries
    target_count target ents found tino e₁ e₂ e₃ =
        elim (find_target-named target ents none (e₂ ∙ ap ok (or_missing-eq-ok found e₃))) [
          | inl never ↦ absurd (cc)
          | inr count ↦ omega (arith, count, links-named tino (parent_path target) b.entries e₁)
        ]
