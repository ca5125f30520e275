-- ===== src/Mkfs/Build/Added.antt =====
-- The files of one host directory that `build` of tools/mkfs.py puts into the object.
use mathlib.Core.Path.{subst}
use mame_sys.Mkfs.Methods.{by_result, method-eq-ok}
use mame_sys.Mkfs.Build.Grows.{Grows, Grows-refl, Grows-then, HasFile-Grows, Sound, unused}
use mame_sys.Base.{
  ℕ, ◌+◌, ◌≤◌, List, [], ◌∷◌, true, false, some, none, ◌≡◌, ◌≢◌, refl, sym, ap, ◌∙◌, arith,
  Bool-cases, inl, inr, ◌==◌, ==_ne, ==_iff, ==_apart,
}
use mame_sys.Base.Result.{ok}
use mame_sys.Mkfs.{Fs, Inode, alloc_inode}
use mame_sys.Mkfs.Files.{HasFile}
use mame_sys.Mkfs.HostFiles.{HostFile, file_mode, add_file, add_files}
use mame_sys.Mkfs.HostFiles.Image.{Lists, done, link, file, Lists-map, Stands}
use mame_sys.Mkfs.Build.{Entries}
use mame_sys.Mkfs.Build.Sound.{Allocates, alloc_inode-Allocates}
use mame_sys.Mkfs.Build.Stores.{Stores, store_data-Stores}
use mame_sys.Mkfs.Build.Links.{one, named}
use mame_sys.Mkfs.Build.Tree.{nlink_of}

-- The object after files have been added: each has one entry, and no other inode is touched.
pub record Adds (fs : Fs) (files : List HostFile) (entries : Entries) (fs' : Fs) : Type 0 where
  pub sound : Sound fs'
  pub grows : Grows fs fs'
  pub same : (n : ℕ) (ino : Inode) → fs.inodes n ≡ some ino → fs'.inodes n ≡ fs.inodes n
  pub counted : (n : ℕ) → nlink_of (fs'.inodes n) ≡ nlink_of (fs.inodes n) + named n entries
  pub listed : Lists (λ num f. Stands fs' num f × (fs.next_ino ≤ num)) files entries

Stands-Grows :
    {fs fs' : Fs} (num : ℕ) (f : HostFile)
    → Grows fs fs'
    → ((n : ℕ) (ino : Inode) → fs.inodes n ≡ some ino → fs'.inodes n ≡ fs.inodes n)
    → Stands fs num f
    → Stands fs' num f
Stands-Grows num f g same s = record {
  lo = s.lo;
  ino = s.ino;
  has = HasFile-Grows num s.lo s.ino f.content g s.has (same num s.ino s.has.used);
  mode = s.mode;
  positive = s.positive;
  given = omega (arith, s.given, g.next_ino);
}

-- One file: `alloc_inode` and `store_data`.
pub record AddsOne (mode : ℕ) (content : List ℕ) (fs : Fs) (ino : Inode) (fs' : Fs) : Type 0 where
  pub num : ino.num ≡ fs.next_ino
  pub made : ino.mode ≡ mode
  pub nlink : ino.nlink ≡ 1
  pub sound : Sound fs'
  pub grows : Grows fs fs'
  pub next_ino : fs'.next_ino ≡ fs.next_ino + 1
  pub there : HasFile fs' fs.next_ino fs.next_block ino content
  pub others : (n : ℕ) → n ≢ fs.next_ino → fs'.inodes n ≡ fs.inodes n

module _ (mode : ℕ) (content : List ℕ) (fs fs₁ fs' : Fs) (d ino : Inode)
    (a : Allocates mode fs d fs₁) (st : Stores d content fs₁ ino fs') (s : Sound fs) where
  one_number : d.num ≡ fs.next_ino
  one_number = ap {A = Inode} {B = ℕ} (λ i. i.num) a.made

  one_block : fs₁.next_block ≡ fs.next_block
  one_block = a.next_block

  one_file : AddsOne mode content fs ino fs'
  one_file = record {
    num = ap {A = Inode} {B = ℕ} (λ i. i.num) st.made ∙ one_number;
    made =
        ap {A = Inode} {B = ℕ} (λ i. i.mode) st.made ∙ ap {A = Inode} {B = ℕ} (λ i. i.mode) a.made;
    nlink =
        ap {A = Inode} {B = ℕ} (λ i. i.nlink) st.made
        ∙ ap {A = Inode} {B = ℕ} (λ i. i.nlink) a.made;
    sound = st.sound;
    grows = Grows-then a.grows st.grows;
    next_ino = st.next_ino ∙ a.next_ino;
    there =
        rw (← one_number, ← one_block)
          (st.there (ap {A = Inode} {B = List ℕ} (λ i. i.addr) a.made));
    others = λ n ne.
        st.inodes n
        ∙ rw (==_ne n d.num (λ e. ne (e ∙ one_number)))
            (ap (λ t. t n) a.inodes ∙ rw (==_ne n fs.next_ino ne) refl);
  }

add_file-AddsOne :
    (mode : ℕ) (content : List ℕ) (fs : Fs) {ino : Inode} {fs' : Fs}
    → Sound fs
    → add_file mode content fs ≡ ok (ino, fs')
    → AddsOne mode content fs ino fs'
unfolding add_file
add_file-AddsOne mode content fs {ino} {fs'} s e =
    let (d, fs₁, e₁, h) = method-eq-ok (alloc_inode mode 0 0) _ fs e in
    let a = alloc_inode-Allocates mode fs s e₁ in
    one_file mode content fs fs₁ fs' d ino a (store_data-Stores d content fs₁ a.sound a.here h) s

-- The count of an inode of the table, after one file has been added.
AddsOne-counted :
    (mode : ℕ) (content name : List ℕ) (fs : Fs) {ino : Inode} {fs' : Fs}
    → Sound fs
    → AddsOne mode content fs ino fs'
    → (n : ℕ) → nlink_of (fs'.inodes n) ≡ nlink_of (fs.inodes n) + one n ino.num
AddsOne-counted mode content name fs {ino} {fs'} s a n = elim (Bool-cases (n == fs.next_ino)) [
  | inl e ↦
      let here : n ≡ fs.next_ino = (==_iff n fs.next_ino).0 e in
      let free : fs.inodes n ≡ none = unused n s (omega arith) in
      rw (free, a.num, e) (ap nlink_of (ap fs'.inodes here ∙ a.there.used) ∙ a.nlink)
  | inr e ↦
      let ne : n ≢ fs.next_ino = ==_apart n fs.next_ino e in
      rw (a.others n ne, a.num, e) (omega arith)
]

Adds-file :
    (f : HostFile) (files : List HostFile) (fs fs₁ fs₂ : Fs) (ino : Inode) (more : Entries)
    → f.is_link ≡ false
    → Sound fs
    → AddsOne (file_mode f.executable) f.content fs ino fs₁
    → Adds fs₁ files more fs₂
    → Adds fs (f ∷ files) ((ino.num, f.name) ∷ more) fs₂
Adds-file f files fs fs₁ fs₂ ino more no_link s a r =
    let number = a.num in
    let stands : Stands fs₁ ino.num f = record {
      lo = fs.next_block;
      ino = ino;
      has = subst (λ m. HasFile fs₁ m fs.next_block ino f.content) (sym number) a.there;
      mode = a.made;
      positive = omega (arith, number, s.started);
      given = omega (arith, number, a.next_ino);
    } in
    let keep : (n : ℕ) (i : Inode) → fs.inodes n ≡ some i → fs₁.inodes n ≡ fs.inodes n =
      λ n i e. a.others n (λ same. absurd (omega (arith, (s.proper n i e).given))) in
    record {
      sound = r.sound;
      grows = Grows-then a.grows r.grows;
      same = λ n i e. r.same n i (keep n i e ∙ e) ∙ keep n i e;
      counted = λ n.
          omega (
            arith,
            r.counted n,
            AddsOne-counted (file_mode f.executable) f.content f.name fs s a n,
          );
      listed =
          file ino.num no_link (Stands-Grows ino.num f r.grows r.same stands, omega (arith, number))
            (Lists-map (λ m g p. (p.0, omega (arith, a.next_ino, p.1))) r.listed);
    }

Adds-link :
    (f : HostFile) (files : List HostFile) (fs fs' : Fs) (entries : Entries)
    → f.is_link ≡ true
    → Adds fs files entries fs'
    → Adds fs (f ∷ files) entries fs'
Adds-link f files fs fs' entries is_link r = record {
  sound = r.sound;
  grows = r.grows;
  same = r.same;
  counted = r.counted;
  listed = link is_link r.listed;
}

pub add_files-Adds :
    (files : List HostFile) (fs : Fs) {entries : Entries} {fs' : Fs}
    → Sound fs
    → add_files files fs ≡ ok (entries, fs')
    → Adds fs files entries fs'
unfolding add_files
add_files-Adds [] fs {entries} {fs'} s e =
    by_result (Adds fs []) ([], fs) (entries, fs') e
      (record {
        sound = s;
        grows = Grows-refl fs;
        same = λ n i h. refl;
        counted = λ n. omega arith;
        listed = done;
      })
add_files-Adds (f ∷ files) fs {entries} {fs'} s e = elim (Bool-cases f.is_link) [
  | inl is_link ↦
      Adds-link f files fs fs' entries is_link (add_files-Adds files fs s (rw is_link at e))
  | inr no_link ↦
      let (ino, fs₁, e₁, h₁) =
        method-eq-ok (add_file (file_mode f.executable) f.content) _ fs (rw no_link at e) in
      let (more, fs₂, e₂, h₂) = method-eq-ok (add_files files) _ fs₁ h₁ in
      let a = add_file-AddsOne (file_mode f.executable) f.content fs s e₁ in
      by_result (Adds fs (f ∷ files)) ((ino.num, f.name) ∷ more, fs₂) (entries, fs') h₂
        (Adds-file f files fs fs₁ fs₂ ino more no_link s a (add_files-Adds files fs₁ a.sound e₂))
]
