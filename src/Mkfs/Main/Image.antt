-- ===== src/Mkfs/Main/Image.antt =====
-- The image that `main` of tools/mkfs.py writes, with or without the disk header.
use mathlib.Core.Path.{subst}
use mame_sys.Base.{
  ℕ, ◌^◌, ◌≤◌, ◌<◌, List, [], ◌∷◌, All, Bool, true, false, length, ◌≡◌, sym, ◌∙◌, ◌⊎◌, inl, inr,
  arith, if◌then◌else◌,
}
use mame_sys.Base.Result.{ok, >>=-eq-ok}
use mame_sys.Mkfs.HostFiles.{HostFile}
use mame_sys.Mkfs.Build.{Build}
use mame_sys.Mkfs.Build.Spec.{gather, build}
use mame_sys.Mkfs.Build.Spec.Links.{ok-eq}
use mame_sys.Mkfs.Build.Reads.{IsLinked, FileReads, Reads, NamesFit}
use mame_sys.Mkfs.Build.Finished.{build-Reads, build-sized}
use mame_sys.Mkfs.Main.{Options, fs_for, ninodes_for, made_image, with_disktab}
use mame_sys.S5.{Entry}
use mame_sys.Mkfs.Main.Header.{ReadsSame, with_disktab-ReadsSame}

-- The reader finds the same tree in two images between which it tells no difference.
module _ (b : Build) (d d' : List ℕ) (same : ReadsSame d d') where
  same-IsLinked : (num : ℕ) {e : Entry} → IsLinked b d num e → IsLinked b d' num e
  same-IsLinked num l = record { found = same.inodes num ∙ l.found; nlink = l.nlink }

  same-FileReads :
      (path : List ℕ) (files : List HostFile)
      → All (λ f. (f.is_link ≡ true) ⊎ FileReads b d path f) files
      → All (λ f. (f.is_link ≡ true) ⊎ FileReads b d' path f) files
  same-FileReads path [] h = tt
  same-FileReads path (f ∷ files) h = (
    elim h.0 [
      | inl is_link ↦ inl is_link
      | inr r ↦ inr (record {
        num = r.num;
        listed = r.listed;
        entry = r.entry;
        linked = same-IsLinked r.num r.linked;
        content = same.files r.entry ∙ r.content;
      })
    ],
    same-FileReads path files h.1,
  )

  same_tree-FileReads :
      (tree : List (List ℕ × List HostFile))
      → All (λ dir. All (λ f. (f.is_link ≡ true) ⊎ FileReads b d dir.0 f) dir.1) tree
      → All (λ dir. All (λ f. (f.is_link ≡ true) ⊎ FileReads b d' dir.0 f) dir.1) tree
  same_tree-FileReads [] h = tt
  same_tree-FileReads ((here, files) ∷ tree) h =
      (same-FileReads here files h.0, same_tree-FileReads tree h.1)

  same-Reads : (tree : List (List ℕ × List HostFile)) → Reads b tree d → Reads b tree d'
  same-Reads tree r = record {
    dirs = λ path num ents f e.
        let dir = r.dirs path num ents f e in
        record {
          entry = dir.entry;
          linked = same-IsLinked num dir.linked;
          listing = same.dirs num ∙ dir.listing;
        };
    files = same_tree-FileReads tree r.files;
  }

with_option :
    (b : Build) (tree : List (List ℕ × List HostFile)) (d image : List ℕ) (disktab : Bool)
    → 1024 ≤ length d
    → Reads b tree d
    → (if disktab then with_disktab d else ok d) ≡ ok image
    → Reads b tree image
with_option b tree d image true size r e =
    let (d', made, same, _) = with_disktab-ReadsSame d size in
    let image_is : d' ≡ image = ok-eq (sym made ∙ e) in
    subst (Reads b tree) image_is (same-Reads b d d' same tree r)
with_option b tree d image false size r e = subst (Reads b tree) (ok-eq e) r

-- The whole program: when `main` makes an image of 34 to 524000 blocks at a 32-bit time, with the disk
-- header over the boot block or without it, and no name of an entry holds a NUL, then the reader of the
-- image finds every directory with exactly the entries that were gathered, in their order, and every
-- file of the host that is no symbolic link under its name in its directory, with its content. The link
-- count of each of these inodes is the number of the entries of all directories that name it.
pub made_image-Reads :
    (nblocks now : ℕ) (tree : List (List ℕ × List HostFile)) (o : Options)
    → (b : Build) (image : List ℕ) → 34 ≤ nblocks
    → nblocks ≤ 524000
    → now < 2 ^ 32
    → gather tree o.spec (fs_for nblocks now) ≡ ok b
    → made_image nblocks now tree o ≡ ok image
    → NamesFit b.entries
    → Reads b tree image
unfolding made_image fs_for ninodes_for
made_image-Reads nblocks now tree o b image lo hi time gathered made names =
    let (fs, built, h) = >>=-eq-ok (build tree o.spec (fs_for nblocks now)) _ made in
    let reads =
      build-Reads nblocks (ninodes_for nblocks) now tree o.spec b fs (omega arith) (omega arith)
        (omega arith) (omega arith) time gathered built names in
    let size =
      build-sized nblocks (ninodes_for nblocks) now tree o.spec fs (omega arith) (omega arith)
        (omega arith) (omega arith) time built in
    with_option b tree fs.image image o.disktab (omega (arith, size)) reads h
