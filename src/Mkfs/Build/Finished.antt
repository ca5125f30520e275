-- ===== src/Mkfs/Build/Finished.antt =====
-- `build` of tools/mkfs.py as a whole: what the reader of the finished image finds.
use mathlib.Core.Path.{subst}
use mame_sys.Mkfs.Build.Grows.{Sound}
use mame_sys.Mkfs.Build.Spec.Links.{ok-eq}
use mame_sys.Base.{ℕ, ◌+◌, ◌-◌, ◌/◌, ◌^◌, ◌≤◌, ◌<◌, List, none, ◌≡◌, refl, sym, ap, ◌∙◌, arith}
use mame_sys.Base.Result.{ok, >>=-eq-ok}
use mame_sys.Mkfs.{Fs, new_fs}
use mame_sys.Mkfs.Fresh.{new_fs-IsValid}
use mame_sys.Mkfs.HostFiles.{HostFile}
use mame_sys.Mkfs.Build.{Build, write_dirs}
use mame_sys.Mkfs.Build.Dicts.{Unique}
use mame_sys.Mkfs.Build.Links.{links}
use mame_sys.Mkfs.Build.Tree.{nlink_of}
use mame_sys.Mkfs.Finish.Image.{finish-Finished}
use mame_sys.Base.{length, ◌*◌}
use mame_sys.Mkfs.Build.Gathered.{gather-Tree}
use mame_sys.Mkfs.Build.Written.{write_dirs-Writes}
use mame_sys.Mkfs.Build.Spec.{gather, build}
use mame_sys.Mkfs.Build.Reads.{Reads, NamesFit, dir-DirReads, tree-FileReads}

new_fs-Sound :
    (nblocks ninodes now : ℕ)
    → (ninodes + 15) / 16 + 2 ≤ nblocks
    → nblocks ≤ 2 ^ 24
    → 1 ≤ ninodes
    → ninodes < 2 ^ 16 - 16
    → now < 2 ^ 32
    → Sound (new_fs nblocks ninodes now)
unfolding new_fs
new_fs-Sound nblocks ninodes now room small some_inodes few time =
    let (v, l, f) = new_fs-IsValid nblocks ninodes now room small some_inodes few time in
    record {
      valid = v;
      laid_out = l;
      started = omega arith;
      numbers = omega arith;
      proper = λ n ino e. absurd (cc);
    }

new_fs-unused : (nblocks ninodes now n : ℕ) → (new_fs nblocks ninodes now).inodes n ≡ none
unfolding new_fs
new_fs-unused nblocks ninodes now n = refl

new_fs-nblocks : (nblocks ninodes now : ℕ) → (new_fs nblocks ninodes now).nblocks ≡ nblocks
unfolding new_fs
new_fs-nblocks nblocks ninodes now = refl

-- The link count of every inode, directories, files and devices alike, is the number of the entries of
-- all directories that name it, when `build` has gathered its tree in a new object of at most 2 ^ 24
-- blocks with room for its table of fewer than 2 ^ 16 - 16 inodes. A number without an inode is named
-- by no entry.
pub gather-links :
    (nblocks ninodes now : ℕ) (tree : List (List ℕ × List HostFile)) (spec : List (List ℕ))
    → (b : Build) → (ninodes + 15) / 16 + 2 ≤ nblocks
    → nblocks ≤ 2 ^ 24
    → 1 ≤ ninodes
    → ninodes < 2 ^ 16 - 16
    → now < 2 ^ 32
    → gather tree spec (new_fs nblocks ninodes now) ≡ ok b
    → (n : ℕ) → links n b.entries ≡ nlink_of (b.fs.inodes n)
gather-links nblocks ninodes now tree spec b room small some_inodes few time gathered =
    let s = new_fs-Sound nblocks ninodes now room small some_inodes few time in
    (gather-Tree tree spec (new_fs nblocks ninodes now) s (new_fs-unused nblocks ninodes now)
      gathered).0.linked

-- What `build` writes is what it gathered: when it succeeds on a new object of at most 2 ^ 24 blocks with
-- room for its table of fewer than 2 ^ 16 - 16 inodes, and no name of an entry holds a NUL, then the
-- reader of the image finds every directory with exactly its entries, in their order, and every file of
-- the host that is no symbolic link under its name in its directory, with its content. The link count
-- of each of these inodes is the number of the entries of all directories that name it.
pub build-Reads :
    (nblocks ninodes now : ℕ) (tree : List (List ℕ × List HostFile)) (spec : List (List ℕ))
    → (b : Build) (last : Fs) → (ninodes + 15) / 16 + 2 ≤ nblocks
    → nblocks ≤ 2 ^ 24
    → 1 ≤ ninodes
    → ninodes < 2 ^ 16 - 16
    → now < 2 ^ 32
    → gather tree spec (new_fs nblocks ninodes now) ≡ ok b
    → build tree spec (new_fs nblocks ninodes now) ≡ ok last
    → NamesFit b.entries
    → Reads b tree last.image
unfolding build
build-Reads nblocks ninodes now tree spec b last room small some_inodes few time gathered built
      names =
    let s = new_fs-Sound nblocks ninodes now room small some_inodes few time in
    let (b', e₁, h₁) = >>=-eq-ok (gather tree spec (new_fs nblocks ninodes now)) _ built in
    let same : b' ≡ b = ok-eq (sym e₁ ∙ gathered) in
    let (fs, e₂, done) = >>=-eq-ok (write_dirs b'.entries b'.dirs b'.fs) _ h₁ in
    let (t, g, files) =
      gather-Tree tree spec (new_fs nblocks ninodes now) s (new_fs-unused nblocks ninodes now)
        gathered in
    let written : write_dirs b.entries b.dirs b.fs ≡ ok fs =
      ap (λ x. write_dirs x.entries x.dirs x.fs) (sym same) ∙ e₂ in
    let w =
      write_dirs-Writes b.entries b.dirs b.fs t.sound (subst Unique t.same_keys t.unique) t.apart
        (λ path ents num e d. t.held path num d) written in
    record {
      dirs = λ path num ents d e. dir-DirReads b fs last t w done path num ents names d e;
      files = tree-FileReads b fs last t w done tree files;
    }

-- The image has its size when `build` succeeds.
pub build-sized :
    (nblocks ninodes now : ℕ) (tree : List (List ℕ × List HostFile)) (spec : List (List ℕ))
    → (last : Fs) → (ninodes + 15) / 16 + 2 ≤ nblocks
    → nblocks ≤ 2 ^ 24
    → 1 ≤ ninodes
    → ninodes < 2 ^ 16 - 16
    → now < 2 ^ 32
    → build tree spec (new_fs nblocks ninodes now) ≡ ok last
    → length last.image ≡ nblocks * 1024
unfolding build
build-sized nblocks ninodes now tree spec last room small some_inodes few time built =
    let s = new_fs-Sound nblocks ninodes now room small some_inodes few time in
    let (b, e₁, h₁) = >>=-eq-ok (gather tree spec (new_fs nblocks ninodes now)) _ built in
    let (fs, e₂, done) = >>=-eq-ok (write_dirs b.entries b.dirs b.fs) _ h₁ in
    let (t, g, files) =
      gather-Tree tree spec (new_fs nblocks ninodes now) s (new_fs-unused nblocks ninodes now) e₁ in
    let w =
      write_dirs-Writes b.entries b.dirs b.fs t.sound (subst Unique t.same_keys t.unique) t.apart
        (λ path ents num e d. t.held path num d) e₂ in
    (finish-Finished fs w.sound.laid_out done).sized
    ∙ w.sound.laid_out.sized
    ∙ ap (λ n. n * 1024) (w.grows.nblocks ∙ g.nblocks ∙ new_fs-nblocks nblocks ninodes now)
