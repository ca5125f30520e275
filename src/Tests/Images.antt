-- ===== src/Tests/Images.antt =====
-- The theorems on file systems, on an empty one and on one that holds a file.
use mame_sys.Base.{ℕ, ◌+◌, ◌/◌, ◌≤◌, ◌<◌, List, [], ◌∷◌, length}
use mame_sys.Base.{◌≡◌, refl, arith, replicate, take, drop, slice}
use mame_sys.Base.Result.{ok}
use mame_sys.Mkfs.{Fs, Inode, new_fs, nicfree, update}
use mame_sys.Mkfs.Blocks.{block, IsValid, store_all}
use mame_sys.Mkfs.Layout.{layout, layout_addr, Small, chunks, range, indirect_layout}
use mame_sys.Mkfs.Store.{store_data}
use mame_sys.Mkfs.Writes.{max_blocks, store_data-layout}
use mame_sys.Mkfs.Needs.{store_data-needs}
use mame_sys.Mkfs.Layout.{nblk}
use mame_sys.Mkfs.Files.{HasFile, store_data-HasFile, HasFile-store_data}
use mame_sys.Mkfs.Dirs.{dir_blob, is_latin1}
use mame_sys.Mkfs.FreeList.{build_free_list}
use mame_sys.Mkfs.FreeList.Walk.{walk}
use mame_sys.Mkfs.FreeList.Chain.{walk-build_free_list}
use mame_sys.Mkfs.Finish.{finish}
use mame_sys.Mkfs.Finish.Image.{IsLaidOut, Finished, finish-Finished}
use mame_sys.Mkfs.Finish.Total.{FsFits, finish-Succeeds}
use mame_sys.Mkfs.Finish.Files.{read-finish}
use mame_sys.Mkfs.Fresh.{new_fs-IsValid}
use mame_sys.S5.{Entry, inode, contents, read_entries, readdir}
use mame_sys.S5.Inodes.{entry_of}
use mame_sys.S5.RoundTrip.{contents-layout}
use mame_sys.S5.Dirs.{readdir-dir_blob}
use mame_sys.Tests.FileFs.{
  hello, fresh_inode, hello_inode, file_fs, length-file_fs, file_fs-HasFile, file_fs-IsLaidOut,
  file_fs-FsFits, file_fs-IsValid,
}
use mame_sys.Base.{length-replicate}
use mame_sys.Mkfs.HostFiles.{HostFile, add_files}
use mame_sys.Mkfs.HostFiles.Added.{IsReady}
use mame_sys.Mkfs.HostFiles.Image.{Lists, Returns, read-add_files}
use mame_sys.Base.{true, false}
use mame_sys.Mkfs.Full.{store_data-full}
use mame_sys.Base.Result.{err, image_full}
use mame_sys.Mkdisk
use mame_sys.Mkdisk.{key, default}
use mame_sys.Mkdisk.Header.{IsDisktab}
use mame_sys.Mkfs.Main.{with_disktab, ninodes_for, fs_for}
use mame_sys.Mkfs.Main.Header.{ReadsSame, with_disktab-ReadsSame}
use mame_sys.Mkfs.Main.Sizes.{fs_for-IsValid}

-- Eight blocks, sixteen inodes.
abbrev empty_fs : Fs
empty_fs = new_fs 8 16 0

empty_fs-IsValid : IsValid empty_fs
empty_fs-IsValid =
    (new_fs-IsValid 8 16 0 (omega arith) (omega arith) (omega arith) (omega arith) (omega arith)).0

store_data-layout_example :
    store_data fresh_inode hello empty_fs
    ≡ ok (
      record fresh_inode { size = 3; addr = layout_addr 3 hello (replicate 13 0) },
      record (store_all (layout 3 hello) empty_fs) {
        inodes =
            update
              (store_all (layout 3 hello) empty_fs).inodes
              2
              (record fresh_inode { size = 3; addr = layout_addr 3 hello (replicate 13 0) });
      },
    )
unfolding new_fs layout chunks indirect_layout range take drop slice
store_data-layout_example =
    store_data-layout fresh_inode hello empty_fs (omega arith) (omega arith) (omega arith)

store_data-needs_example : (nblk hello ≤ max_blocks) × (3 + length (layout 3 hello) ≤ 8)
unfolding new_fs layout chunks indirect_layout range take drop slice
store_data-needs_example =
    let (ino', fs', stored, _, _, _, _) =
      store_data-HasFile fresh_inode hello empty_fs empty_fs-IsValid (omega arith) (omega arith)
        refl (omega arith) (omega arith) in
    store_data-needs fresh_inode hello empty_fs ino' fs' stored (omega arith)

store_data-HasFile_example :
    (ino' : Inode) × (fs' : Fs) × (store_data fresh_inode hello empty_fs ≡ ok (ino', fs'))
    × HasFile fs' 2 3 ino' hello
    × IsValid fs'
    × ((b : ℕ) → b < 3 → block fs'.image b ≡ block empty_fs.image b)
    × (fs'.next_block ≡ 3 + length (layout 3 hello))
unfolding new_fs layout chunks indirect_layout range take drop slice
store_data-HasFile_example =
    store_data-HasFile fresh_inode hello empty_fs empty_fs-IsValid (omega arith) (omega arith) refl
      (omega arith) (omega arith)

read-finish_example :
    (fs' : Fs) × (finish file_fs ≡ ok fs')
    × ((n lo : ℕ) (ino : Inode) (content : List ℕ)
        → HasFile file_fs n lo ino content
        → 1 ≤ n
        → n ≤ 16
        → (inode fs'.image n ≡ ok (entry_of ino))
          × (contents fs'.image (entry_of ino) ≡ ok content))
read-finish_example = read-finish file_fs file_fs-IsLaidOut file_fs-FsFits

-- The file of the image is among those that the example speaks of.
read_hello :
    (fs' : Fs) × (finish file_fs ≡ ok fs') × (contents fs'.image (entry_of hello_inode) ≡ ok hello)
read_hello =
    let (fs', done, files) = read-finish file_fs file_fs-IsLaidOut file_fs-FsFits in
    (fs', done, (files 2 3 hello_inode hello file_fs-HasFile (omega arith) (omega arith)).1)

finish-Finished_example :
    Finished file_fs (finish-Succeeds file_fs file_fs-IsLaidOut file_fs-FsFits).0
finish-Finished_example =
    finish-Finished file_fs file_fs-IsLaidOut
      (finish-Succeeds file_fs file_fs-IsLaidOut file_fs-FsFits).1

walk-build_free_list_example :
    (fs' : Fs) × (build_free_list file_fs ≡ ok (tt, fs'))
    × (walk 3 fs'.image fs'.nfree fs'.free ≡ range 4 2)
    × (fs'.tfree ≡ 2)
    × (1 ≤ fs'.nfree)
    × (fs'.nfree ≤ nicfree)
    × (length fs'.free ≡ nicfree)
    × Small fs'.free
    × (length fs'.image ≡ length file_fs.image)
    × ((b : ℕ) → b < 4 → block fs'.image b ≡ block file_fs.image b)
    × (fs' ≡ record file_fs {
      image = fs'.image;
      nfree = fs'.nfree;
      free = fs'.free;
      tfree = fs'.tfree;
    })
walk-build_free_list_example =
    walk-build_free_list file_fs (omega arith) (omega arith) (omega arith) length-file_fs

contents-layout_example : contents file_fs.image (entry_of hello_inode) ≡ ok hello
unfolding layout chunks indirect_layout range take drop slice
contents-layout_example =
    contents-layout file_fs.image hello 3 (entry_of hello_inode) (omega arith) (omega arith)
      (omega arith) file_fs-HasFile.holds refl refl

HasFile-store_data_example :
    (other' : Inode) × (fs' : Fs) × (store_data (record fresh_inode { num = 3 }) (88 ∷ []) file_fs
      ≡ ok (other', fs'))
    × HasFile fs' 2 3 hello_inode hello
unfolding layout chunks indirect_layout range take drop slice
HasFile-store_data_example =
    HasFile-store_data file_fs 2 3 hello_inode hello (record fresh_inode { num = 3 }) (88 ∷ [])
      file_fs-HasFile (λ e. absurd (omega arith)) file_fs-IsValid (omega arith) (omega arith)
      (omega arith)

-- `.` and `..` of the root, and the file as `hi`.
abbrev root_entries : List (ℕ × List ℕ)
root_entries = (2, 46 ∷ []) ∷ (2, 46 ∷ 46 ∷ []) ∷ (3, 104 ∷ 105 ∷ []) ∷ []

readdir-dir_blob_example :
    (blob : List ℕ) × (dir_blob root_entries ≡ ok blob)
    × (read_entries ((length blob + 15) / 16) blob ≡ ok root_entries)
    × ((d : List ℕ) (ino : ℕ) (i : Entry)
        → inode d ino ≡ ok i
        → contents d i ≡ ok blob
        → readdir d ino ≡ ok root_entries)
unfolding is_latin1
readdir-dir_blob_example =
    readdir-dir_blob root_entries
      (
        (omega arith, (refl, omega arith)),
        ((omega arith, (refl, omega arith)), ((omega arith, (refl, omega arith)), tt)),
      )
      (
        (omega arith, (omega arith, tt)),
        (
          (omega arith, (omega arith, (omega arith, tt))),
          ((omega arith, (omega arith, (omega arith, tt))), tt),
        ),
      )

with_disktab-ReadsSame_example :
    (d' : List ℕ) × (with_disktab (replicate 1024 0) ≡ ok d')
    × ReadsSame (replicate 1024 0) d'
    × IsDisktab (take 92 d') (Mkdisk.layout default) (key default)
with_disktab-ReadsSame_example =
    with_disktab-ReadsSame (replicate 1024 0) (omega (arith, length-replicate {A = ℕ} 1024 0))

fs_for-IsValid_example :
    (IsValid (fs_for 2048 0) × IsLaidOut (fs_for 2048 0) × FsFits (fs_for 2048 0))
    × (256 ≤ ninodes_for 2048)
    × (512 ≤ ninodes_for 2048)
fs_for-IsValid_example = fs_for-IsValid 2048 0 (omega arith) (omega arith) (omega arith)

abbrev host_files : List HostFile
host_files =
    record { name = 97 ∷ []; is_link = false; executable = true; content = hello }
    ∷ record { name = 98 ∷ []; is_link = true; executable = false; content = [] }
    ∷ record { name = 99 ∷ []; is_link = false; executable = false; content = 88 ∷ [] }
    ∷ []

empty_fs-IsReady : IsReady empty_fs
empty_fs-IsReady =
    let (valid, laid_out, fits) =
      new_fs-IsValid 8 16 0 (omega arith) (omega arith) (omega arith) (omega arith) (omega arith) in
    record { valid = valid; laid_out = laid_out; fits = fits }

read-add_files_example :
    (entries : List (ℕ × List ℕ)) × (fs' : Fs) × (last : Fs) × (add_files host_files empty_fs
      ≡ ok (entries, fs'))
    × (finish fs' ≡ ok last)
    × Lists (Returns last.image) host_files entries
unfolding new_fs layout chunks indirect_layout range take drop slice
read-add_files_example =
    read-add_files host_files empty_fs empty_fs-IsReady
      (omega arith, (omega arith, (omega arith, tt))) (omega arith) (omega arith)

-- Six blocks do not fit where five are left.
store_data-full_example : store_data fresh_inode (replicate 6144 0) empty_fs ≡ err image_full
unfolding new_fs
store_data-full_example =
    store_data-full fresh_inode (replicate 6144 0) empty_fs (omega arith)
      (omega (arith, length-replicate {A = ℕ} 6144 0))
