-- ===== src/Mkfs/HostFiles/Image.antt =====
-- All the files of a directory, from the host to the reader of the finished image.
use mame_sys.Base.{
  ℕ, ◌+◌, ◌^◌, ◌≤◌, ◌<◌, List, [], ◌∷◌, length, All, Bool, true, false, if◌then◌else◌,
}
use mame_sys.Base.{◌≡◌, refl, ap, arith, Bool-cases, inl, inr}
use mame_sys.Base.Result.{ok}
use mame_sys.Mkfs.{Fs, Inode, ◌>>=◌}
use mame_sys.Mkfs.Layout.{layout, nblk}
use mame_sys.Mkfs.Writes.{max_blocks}
use mame_sys.Mkfs.Files.{HasFile}
use mame_sys.Mkfs.Finish.{finish}
use mame_sys.Mkfs.Finish.Files.{read-finish}
use mame_sys.Mkfs.HostFiles.{HostFile, file_mode, add_file, add_files}
use mame_sys.Mkfs.HostFiles.Added.{IsReady, add_file-Added}
use mame_sys.S5.{Entry, inode, contents}
use mame_sys.S5.Inodes.{entry_of}

-- The entries are those of the files that are no links, in order, and `P` holds of each with its number.
pub data Lists (P : ℕ → HostFile → Type 0) : List HostFile → List (ℕ × List ℕ) → Type 0 where
  done : Lists P [] []
  link :
      {f : HostFile} {files : List HostFile} {entries : List (ℕ × List ℕ)}
      → f.is_link ≡ true
      → Lists P files entries
      → Lists P (f ∷ files) entries
  file :
      {f : HostFile} {files : List HostFile} {entries : List (ℕ × List ℕ)}
      → (num : ℕ) → f.is_link ≡ false
      → P num f
      → Lists P files entries
      → Lists P (f ∷ files) ((num, f.name) ∷ entries)

pub Lists-map :
    {P Q : ℕ → HostFile → Type 0} {files : List HostFile} {entries : List (ℕ × List ℕ)}
    → ((num : ℕ) (f : HostFile) → P num f → Q num f)
    → Lists P files entries
    → Lists Q files entries
Lists-map g done = done
Lists-map g (link e l) = link e (Lists-map g l)
Lists-map g (file {f = f} num e p l) = file num e (g num f p) (Lists-map g l)

-- The first block behind the files, when they begin at `lo`.
abbrev pub ends : ℕ → List HostFile → ℕ
ends lo [] = lo
ends lo (f ∷ files) = ends (if f.is_link then lo else lo + length (layout lo f.content)) files

-- The files that need an inode.
abbrev pub count : List HostFile → ℕ
count [] = 0
count (f ∷ files) = if f.is_link then count files else count files + 1

ends-above : (lo : ℕ) (files : List HostFile) → lo ≤ ends lo files
ends-above lo [] = omega arith
ends-above lo (f ∷ files) = elim (Bool-cases f.is_link) [
  | inl e ↦ rw e (ends-above lo files)
  | inr e ↦ rw e (omega (arith, ends-above (lo + length (layout lo f.content)) files))
]

-- The file stands in the object under the number, with the mode that `build` gives it.
pub record Stands (fs : Fs) (num : ℕ) (f : HostFile) : Type 0 where
  pub lo : ℕ
  pub ino : Inode
  pub has : HasFile fs num lo ino f.content
  pub mode : ino.mode ≡ file_mode f.executable
  pub positive : 1 ≤ num
  pub given : num < fs.next_ino

pub record AllStand (fs fs' : Fs) (files : List HostFile) (entries : List (ℕ × List ℕ))
    : Type 0 where
  pub ready : IsReady fs'
  pub grown : fs.next_ino ≤ fs'.next_ino
  pub listed : Lists (Stands fs') files entries
  pub others :
      (n lo : ℕ) (i : Inode) (c : List ℕ)
      → n < fs.next_ino
      → HasFile fs n lo i c
      → HasFile fs' n lo i c

file_mode-fits : (x : Bool) → file_mode x < 2 ^ 16
file_mode-fits true = omega arith
file_mode-fits false = omega arith

add_files-file :
    (f : HostFile) (files : List HostFile) (fs : Fs)
    → (ino : Inode) (fs₁ fs' : Fs) (entries : List (ℕ × List ℕ)) (num : ℕ) → f.is_link ≡ false
    → add_file (file_mode f.executable) f.content fs ≡ ok (ino, fs₁)
    → add_files files fs₁ ≡ ok (entries, fs')
    → ino.num ≡ num
    → add_files (f ∷ files) fs ≡ ok ((num, f.name) ∷ entries, fs')
unfolding add_files
add_files-file f files fs ino fs₁ fs' entries num e one more same =
    rw (e, one, ◌>>=◌, more) (ap (λ n. ok ((n, f.name) ∷ entries, fs')) same)

add_files-AllStand :
    (files : List HostFile) (fs : Fs)
    → IsReady fs
    → All (λ f. nblk f.content ≤ max_blocks) files
    → fs.next_ino + count files ≤ fs.ninodes
    → ends fs.next_block files ≤ fs.nblocks
    → (entries : List (ℕ × List ℕ)) × (fs' : Fs) × (add_files files fs ≡ ok (entries, fs'))
      × AllStand fs fs' files entries
unfolding add_files
add_files-AllStand [] fs ready few inodes room = (
  [],
  fs,
  refl,
  record { ready = ready; grown = omega arith; listed = done; others = λ n lo i c lt h. h },
)
add_files-AllStand (f ∷ files) fs ready few inodes room = elim (Bool-cases f.is_link) [
  | inl e ↦
      let (entries, fs', added, a) =
        add_files-AllStand files fs ready few.1 (rw e at inodes) (rw e at room) in
      (
        entries,
        fs',
        rw e added,
        record { ready = a.ready; grown = a.grown; listed = link e a.listed; others = a.others },
      )
  | inr e ↦
      let left = rw e at inodes in
      let behind = rw e at room in
      let lo = fs.next_block + length (layout fs.next_block f.content) in
      let (ino, fs₁, one, mode, a) =
        add_file-Added (file_mode f.executable) f.content fs ready (file_mode-fits f.executable)
          few.0 (omega arith) (omega (arith, ends-above lo files)) in
      let (entries, fs', more, r) =
        add_files-AllStand files fs₁ a.ready few.1 (omega (arith, a.next_ino, a.ninodes))
          (rw (a.next_block, a.nblocks) behind) in
      (
        (fs.next_ino, f.name) ∷ entries,
        fs',
        add_files-file f files fs ino fs₁ fs' entries fs.next_ino e one more a.num,
        record {
          ready = r.ready;
          grown = omega (arith, a.next_ino, r.grown);
          listed =
              file fs.next_ino e
                (record {
                  lo = fs.next_block;
                  ino = ino;
                  has =
                      r.others fs.next_ino fs.next_block ino f.content (omega (arith, a.next_ino))
                        a.there;
                  mode = mode;
                  positive = ready.fits.started;
                  given = omega (arith, a.next_ino, r.grown);
                })
                r.listed;
          others = λ n at i c lt h.
              r.others n at i c (omega (arith, a.next_ino)) (a.others n at i c lt h);
        },
      )
]

-- The image gives the file back under the number: an inode with its mode, and through that its content.
pub record Returns (image : List ℕ) (num : ℕ) (f : HostFile) : Type 0 where
  pub entry : Entry
  pub found : inode image num ≡ ok entry
  pub mode : entry.mode ≡ file_mode f.executable
  pub content : contents image entry ≡ ok f.content

-- From the host to the reader: when the object is ready (its unused blocks are zeros, it is laid
-- out, and its numbers fit the image's fields), no file is larger than a double indirect block
-- allows, and inodes and blocks are left for all files that are no links, then all of these are
-- added, and the object can be finished into an image. In the image each of them is read back
-- under the number in its directory entry, with its mode and its content, byte for byte. There is
-- one entry for each, in the order of the files.
pub read-add_files :
    (files : List HostFile) (fs : Fs)
    → IsReady fs
    → All (λ f. nblk f.content ≤ max_blocks) files
    → fs.next_ino + count files ≤ fs.ninodes
    → ends fs.next_block files ≤ fs.nblocks
    → (entries : List (ℕ × List ℕ)) × (fs' : Fs) × (last : Fs) × (add_files files fs
        ≡ ok (entries, fs'))
      × (finish fs' ≡ ok last)
      × Lists (Returns last.image) files entries
read-add_files files fs ready few inodes room =
    let (entries, fs', added, a) = add_files-AllStand files fs ready few inodes room in
    let (last, finished, reads) = read-finish fs' a.ready.laid_out a.ready.fits in
    (
      entries,
      fs',
      last,
      added,
      finished,
      Lists-map
          (λ num f s.
            let (found, content) =
              reads num s.lo s.ino f.content s.has s.positive
                (omega (arith, s.given, a.ready.fits.used)) in
            record { entry = entry_of s.ino; found = found; mode = s.mode; content = content })
          a.listed,
    )
