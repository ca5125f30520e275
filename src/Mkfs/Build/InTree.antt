-- ===== src/Mkfs/Build/InTree.antt =====
-- Where the files of the host's directories stand in the tree that `build` of tools/mkfs.py gathers.
use mathlib.Core.Path.{subst}
use mame_sys.Mkfs.Build.Added.{Adds, add_files-Adds}
use mame_sys.Base.{
  ℕ, ◌≤◌, ◌<◌, List, [], ◌∷◌, ◌++◌, true, some, ◌≡◌, ◌≢◌, sym, ap, ◌∙◌, arith, inl, inr,
  append_assoc, All, ◌⊎◌,
}
use mame_sys.Base.Result.{ok, >>=-eq-ok}
use mame_sys.Mkfs.{Fs, Inode}
use mame_sys.Mkfs.Files.{HasFile}
use mame_sys.Mkfs.HostFiles.{HostFile, add_files}
use mame_sys.Mkfs.HostFiles.Image.{Lists, done, link, file, Stands}
use mame_sys.Mkfs.Build.{Build, Dict, Entries, find, getdir, append_to, walk_dir, walk_dirs}
use mame_sys.Mkfs.Build.Kept.{FilesKept-same}
use mame_sys.Mkfs.Build.Links.{Appends, Appends-there, append_to-Appends}
use mame_sys.Mkfs.Build.Tree.{Tree, IsDir, Extends, Extends-then, Extends-refl}
use mame_sys.Mkfs.Build.Getdir.{Got, getdir-Got}
use mame_sys.Mkfs.Build.Walked.{Extends-entries}

-- The entry of that name in the directory `path` of the tree.
pub record Listed (entries : Dict Entries) (path : List ℕ) (num : ℕ) (name : List ℕ) : Type 0 where
  pub before : Entries
  pub behind : Entries
  pub there : find path entries ≡ some (before ++ (num, name) ∷ behind)

pub Listed-kept :
    {b b' : Build} {path : List ℕ} {num : ℕ} {name : List ℕ}
    → Extends b b'
    → Listed b.entries path num name
    → Listed b'.entries path num name
Listed-kept {b} {b'} {path} {num} {name} x l =
    let (rest, e) = x.listed path (l.before ++ (num, name) ∷ l.behind) l.there in
    record {
      before = l.before;
      behind = l.behind ++ rest;
      there = e ∙ ap some (append_assoc l.before ((num, name) ∷ l.behind) rest);
    }

-- A file of the host in the tree: some inode that is no directory holds its content, and stands under its
-- name in the directory.
pub record InTree (b : Build) (path : List ℕ) (f : HostFile) : Type 0 where
  pub num : ℕ
  pub lo : ℕ
  pub ino : Inode
  pub has : HasFile b.fs num lo ino f.content
  pub given : num < b.fs.next_ino
  pub no_dir : (q : List ℕ) → find q b.dirs ≢ some num
  pub listed : Listed b.entries path num f.name

pub InTree-kept :
    {b b' : Build} (path : List ℕ) (f : HostFile)
    → Extends b b'
    → InTree b path f
    → InTree b' path f
InTree-kept {b} {b'} path f x i =
    let (ino', has') = x.files i.num i.lo i.ino f.content i.has in
    record {
      num = i.num;
      lo = i.lo;
      ino = ino';
      has = has';
      given = omega (arith, i.given, x.grows.next_ino);
      no_dir = λ q e. elim (x.new_dirs q i.num e) [
        | inl before ↦ i.no_dir q before
        | inr above ↦ absurd (omega (arith, i.given))
      ];
      listed = Listed-kept x i.listed;
    }

-- Every file of the host's directories that is no symbolic link is in the tree.
abbrev pub FilesIn : Build → List (List ℕ × List HostFile) → Type 0
FilesIn b tree = All (λ dir. All (λ f. (f.is_link ≡ true) ⊎ InTree b dir.0 f) dir.1) tree

FilesIn-kept :
    {b b' : Build} (path : List ℕ) (files : List HostFile)
    → Extends b b'
    → All (λ f. (f.is_link ≡ true) ⊎ InTree b path f) files
    → All (λ f. (f.is_link ≡ true) ⊎ InTree b' path f) files
FilesIn-kept path [] x h = tt
FilesIn-kept path (f ∷ files) x h = (
  elim h.0 [ inl is_link ↦ inl is_link | inr i ↦ inr (InTree-kept path f x i) ],
  FilesIn-kept path files x h.1,
)

-- The entries that were appended for the files, as entries of the directory.
added-InTree :
    (b : Build) (path : List ℕ) (first : ℕ) (front : Entries) {files : List HostFile}
    {entries : Entries}
    → find path b.entries ≡ some (front ++ entries)
    → ((num : ℕ) → first ≤ num → (q : List ℕ) → find q b.dirs ≢ some num)
    → Lists (λ num f. Stands b.fs num f × (first ≤ num)) files entries
    → All (λ f. (f.is_link ≡ true) ⊎ InTree b path f) files
added-InTree b path first front e apart done = tt
added-InTree b path first front e apart (link is_link l) =
    (inl is_link, added-InTree b path first front e apart l)
added-InTree b path first front e apart (file {f = f} {entries = more} num no_link (s, new) l) = (
  inr (record {
    num = num;
    lo = s.lo;
    ino = s.ino;
    has = s.has;
    given = s.given;
    no_dir = apart num new;
    listed = record { before = front; behind = more; there = e };
  }),
  added-InTree b path first (front ++ (num, f.name) ∷ [])
      (e ∙ ap some (sym (append_assoc front ((num, f.name) ∷ []) more))) apart l,
)

-- One directory of the host, once its calls are known.
walked :
    (here : List ℕ) (files : List HostFile) (b b₁ : Build) (num : ℕ) (added : Entries) (fs : Fs)
    (entries : Dict Entries)
    → Got here b num b₁
    → Adds b₁.fs files added fs
    → Appends here added b₁.entries entries
    → Extends b (record b₁ { fs = fs; entries = entries })
      × All
          (λ f. (f.is_link ≡ true) ⊎ InTree (record b₁ { fs = fs; entries = entries }) here f)
          files
walked here files b b₁ num added fs entries got adds appended =
    let t = got.extends.tree in
    let is_dir : (q : List ℕ) (m : ℕ) → find q b₁.dirs ≡ some m → IsDir fs m = λ q m e.
      let d = t.held q m e in
      record { ino = d.ino; there = adds.same m d.ino d.there ∙ d.there; empty = d.empty } in
    let old : (m : ℕ) → b₁.fs.next_ino ≤ m → (q : List ℕ) → find q b₁.dirs ≢ some m = λ m le q e.
      let d = t.held q m e in absurd (omega (arith, (t.sound.proper m d.ino d.there).given)) in
    (
      Extends-then got.extends (
          Extends-entries b₁ here added entries fs t appended adds.sound adds.grows
            (FilesKept-same adds.grows adds.same) adds.counted is_dir),
      added-InTree (record b₁ { fs = fs; entries = entries }) here b₁.fs.next_ino appended.held
          (Appends-there here added b₁.entries entries appended) old adds.listed,
    )

ok-eq : {A : Type 0} {x y : A} → ok x ≡ ok y → x ≡ y
ok-eq h = cc

walk_dir-Extends :
    (here : List ℕ) (files : List HostFile) (b : Build) {b' : Build}
    → Tree b
    → walk_dir here files b ≡ ok b'
    → Extends b b' × All (λ f. (f.is_link ≡ true) ⊎ InTree b' here f) files
unfolding walk_dir
walk_dir-Extends here files b {b'} t e =
    let ((num, b₁), e₁, h₁) = >>=-eq-ok (getdir here b) _ e in
    let ((added, fs), e₂, h₂) = >>=-eq-ok (add_files files b₁.fs) _ h₁ in
    let (entries, e₃, h₃) = >>=-eq-ok (append_to here added b₁.entries) _ h₂ in
    let got = getdir-Got here b t e₁ in
    subst (λ x. Extends b x × All (λ f. (f.is_link ≡ true) ⊎ InTree x here f) files) (ok-eq h₃)
      (walked here files b b₁ num added fs entries got
        (add_files-Adds files b₁.fs got.extends.tree.sound e₂)
        (append_to-Appends here added b₁.entries e₃))

-- The loop over the host's directories keeps the tree, and puts every file into it.
pub walk_dirs-Extends :
    (tree : List (List ℕ × List HostFile)) (b : Build) {b' : Build}
    → Tree b
    → walk_dirs tree b ≡ ok b'
    → Extends b b' × FilesIn b' tree
unfolding walk_dirs
walk_dirs-Extends [] b {b'} t e = (subst (Extends b) (ok-eq e) (Extends-refl t), tt)
walk_dirs-Extends ((here, files) ∷ tree) b {b'} t e =
    let (b₁, e₁, h) = >>=-eq-ok (walk_dir here files b) _ e in
    let (x, now) = walk_dir-Extends here files b t e₁ in
    let (y, later) = walk_dirs-Extends tree b₁ x.tree h in
    (Extends-then x y, (FilesIn-kept here files y now, later))

pub FilesIn-all :
    {b b' : Build} (tree : List (List ℕ × List HostFile))
    → Extends b b'
    → FilesIn b tree
    → FilesIn b' tree
FilesIn-all [] x h = tt
FilesIn-all ((here, files) ∷ tree) x h = (FilesIn-kept here files x h.0, FilesIn-all tree x h.1)
