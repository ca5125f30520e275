-- ===== src/Mkfs/Build/Reads.antt =====
-- What the reader finds in the image of the tree that `build` of tools/mkfs.py gathers.
use mame_sys.Mkfs.Build.Grows.{HasFile-Grows}
use mame_sys.Mkfs.Build.WrittenOne.{Writes}
use mame_sys.Mkfs.Build.Spec.Links.{linked-there, links-named}
use mame_sys.Base.{
  ℕ, ◌≤◌, List, [], ◌∷◌, All, true, some, ◌⊎◌, inl, inr, ◌≡◌, ◌≢◌, sym, ap, ◌∙◌, arith, ==_refl,
  Bool-cases, same_bytes,
}
use mame_sys.Base.Codec.{pos}
use mame_sys.Base.Result.{ok, ◌>>=◌}
use mame_sys.Mkfs.{Fs, Inode}
use mame_sys.Mkfs.Files.{HasFile}
use mame_sys.Mkfs.HostFiles.{HostFile}
use mame_sys.Mkfs.Finish.{finish}
use mame_sys.Mkfs.Finish.Files.{read-finished}
use mame_sys.Mkfs.Build.{Build, Dict, Entries, find}
use mame_sys.Mkfs.Build.Dicts.{some-eq}
use mame_sys.Mkfs.Build.Links.{named, links}
use mame_sys.Mkfs.Build.Tree.{Tree, nlink_of}
use mame_sys.Mkfs.Build.InTree.{InTree, Listed, FilesIn}
use mame_sys.S5.{Entry, inode, contents, readdir}
use mame_sys.S5.Dirs.{IsName, read_entries-packed}
use mame_sys.S5.Inodes.{entry_of}

-- The inode that the image gives under a number: its link count is the number of the entries, of all
-- directories, that name it.
pub record IsLinked (b : Build) (image : List ℕ) (num : ℕ) (e : Entry) : Type 0 where
  pub found : inode image num ≡ ok e
  pub nlink : e.nlink ≡ pos (links num b.entries)

-- A directory in the image.
pub record DirReads (b : Build) (image : List ℕ) (num : ℕ) (ents : Entries) : Type 0 where
  pub entry : Entry
  pub linked : IsLinked b image num entry
  pub listing : readdir image num ≡ ok ents

-- A file of the host in the image: an entry of its directory has its name and the number of an inode that
-- holds its content.
pub record FileReads (b : Build) (image : List ℕ) (path : List ℕ) (f : HostFile) : Type 0 where
  pub num : ℕ
  pub listed : Listed b.entries path num f.name
  pub entry : Entry
  pub linked : IsLinked b image num entry
  pub content : contents image entry ≡ ok f.content

pub record Reads (b : Build) (tree : List (List ℕ × List HostFile)) (image : List ℕ) : Type 0 where
  pub dirs :
      (path : List ℕ) (num : ℕ) (ents : Entries)
      → find path b.dirs ≡ some num
      → find path b.entries ≡ some ents
      → DirReads b image num ents
  pub files : All (λ dir. All (λ f. (f.is_link ≡ true) ⊎ FileReads b image dir.0 f) dir.1) tree

-- No name of an entry holds a NUL.
abbrev pub NamesFit : Dict Entries → Type 0
NamesFit entries = All (λ dir. All (λ e. IsName e.1) dir.1) entries

names-find :
    (q : List ℕ) (d : Dict Entries) {ents : Entries}
    → NamesFit d
    → find q d ≡ some ents
    → All (λ e. IsName e.1) ents
unfolding find
names-find q [] h e = cc
names-find q ((k, held) ∷ d) {ents} h e = elim (Bool-cases (same_bytes q k)) [
  | inl same ↦ let eq : held ≡ ents = some-eq (rw same at e) in rw (← eq) h.0
  | inr other ↦ names-find q d h.1 (rw other at e)
]

shown :
    (ents : Entries)
    → ((m : ℕ) → 1 ≤ named m ents → 1 ≤ m)
    → All (λ e. IsName e.1) ents
    → All (λ e. (e.0 ≢ 0) × IsName e.1) ents
shown [] h names = tt
shown ((m, name) ∷ ents) h names = (
  ((λ zero. absurd (omega (arith, h m (rw (==_refl m) (omega arith))))), names.0),
  shown ents (λ n some_n. h n (omega arith)) names.1,
)

module _ (b : Build) (fs last : Fs) (t : Tree b) (w : Writes b.entries b.dirs b.fs fs)
    (done : finish fs ≡ ok last) where
  -- A file of the object, read from the image, with its links counted.
  file-IsLinked :
      (num lo : ℕ) (ino : Inode) (content : List ℕ)
      → HasFile fs num lo ino content
      → IsLinked b last.image num (entry_of ino) × (contents last.image (entry_of ino) ≡ ok content)
  file-IsLinked num lo ino content h =
      let p = w.sound.proper num ino h.used in
      let (found, content_eq) =
        read-finished fs num lo ino content w.sound.laid_out h p.positive
          (omega (arith, p.given, w.sound.numbers)) done in
      let count : ino.nlink ≡ links num b.entries =
        ap nlink_of (sym h.used) ∙ w.links num ∙ sym (t.linked num) in
      (record { found = found; nlink = ap pos count }, content_eq)

  pub dir-DirReads :
      (path : List ℕ) (num : ℕ) (ents : Entries)
      → NamesFit b.entries
      → find path b.dirs ≡ some num
      → find path b.entries ≡ some ents
      → DirReads b last.image num ents
  unfolding readdir
  dir-DirReads path num ents names d e =
      let stands = w.stands path ents num e d in
      let (linked, content) = file-IsLinked num stands.lo stands.ino stands.blob stands.has in
      let positive : (m : ℕ) → 1 ≤ named m ents → 1 ≤ m = λ m one_there.
        let (ino, there) =
          linked-there b m t (omega (arith, one_there, links-named m path b.entries e)) in
        (t.sound.proper m ino there).positive in
      record {
        entry = entry_of stands.ino;
        linked = linked;
        listing =
            rw (linked.found, ◌>>=◌, content)
              (read_entries-packed ents (shown ents positive (names-find path b.entries names e))
                stands.packed);
      }

  InTree-FileReads :
      (path : List ℕ) (f : HostFile) → InTree b path f → FileReads b last.image path f
  InTree-FileReads path f i =
      let has =
        HasFile-Grows i.num i.lo i.ino f.content w.grows i.has
          (w.same i.num (λ q ents e. i.no_dir q)) in
      let (linked, content) = file-IsLinked i.num i.lo i.ino f.content has in
      record {
        num = i.num;
        listed = i.listed;
        entry = entry_of i.ino;
        linked = linked;
        content = content;
      }

  files-FileReads :
      (path : List ℕ) (files : List HostFile)
      → All (λ f. (f.is_link ≡ true) ⊎ InTree b path f) files
      → All (λ f. (f.is_link ≡ true) ⊎ FileReads b last.image path f) files
  files-FileReads path [] h = tt
  files-FileReads path (f ∷ files) h = (
    elim h.0 [ inl is_link ↦ inl is_link | inr i ↦ inr (InTree-FileReads path f i) ],
    files-FileReads path files h.1,
  )

  pub tree-FileReads :
      (tree : List (List ℕ × List HostFile))
      → FilesIn b tree
      → All (λ dir. All (λ f. (f.is_link ≡ true) ⊎ FileReads b last.image dir.0 f) dir.1) tree
  tree-FileReads [] h = tt
  tree-FileReads ((here, files) ∷ tree) h =
      (files-FileReads here files h.0, tree-FileReads tree h.1)
