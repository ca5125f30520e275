-- ===== src/Tests/Tree.antt =====
-- The theorems on `build`: a spec of three lines on an image of seven blocks.
use mame_sys.Mkfs.Build.Reads.{NamesFit, Reads}
use mame_sys.Base.{ℕ, List, Bool, true, false, [], ◌∷◌, ◌≡◌, refl, arith}
use mame_sys.Base.Result.{Result, ok, err}
use mame_sys.Base.{splice, slice, take, drop, replicate, same_bytes}
use mame_sys.Base.Codec.{pack, pack_all, pack_signed, le}
use mame_sys.Mkfs.{Fs, new_fs, alloc_inode, new_inode, alloc_block, put}
use mame_sys.Mkfs.Store.{
  store_data, store_blocks, store_block, store_indirect, store_double, store_outer, store_table,
  fill_front,
}
use mame_sys.Mkfs.Layout.{range}
use mame_sys.Mkfs.Inodes.{
  write_inodes, write_inodes_from, inode_blob, pack_inode, address_bytes, ljust,
}
use mame_sys.Mkfs.Dirs.{dir_blob, dirent, is_latin1}
use mame_sys.Mkfs.FreeList.{build_free_list, bfree, bfree_down, spill}
use mame_sys.Mkfs.Superblock.{
  write_superblock, superblock, pack_sizes, pack_free_inodes, pack_totals, pack_names, pack_into,
  pack_into_signed, pack_row, free_inodes,
}
use mame_sys.Mkfs.Finish.{finish}
use mame_sys.Mkfs.HostFiles.{HostFile, add_file, add_files}
use mame_sys.Mkfs.Build.{
  Build, start, walk_dirs, walk_dir, getdir, getdir_on, find, new_dir, name_of, parent_path, rsplit,
  set_key, get, append_to, modify, write_dirs, object,
}
use mame_sys.Mkfs.Build.Links.{links}
use mame_sys.Mkfs.Build.Tree.{nlink_of}
use mame_sys.Mkdisk.{disktab, layout, layout_of, drives, key, swap_cyls, pack_parts, name_or}
use mame_sys.Mkfs.Main.{Options, made_image, with_disktab, fs_for, ninodes_for}
use mame_sys.Mkfs.Main.Image.{made_image-Reads}
use mame_sys.Mkfs.Build.Finished.{gather-links, build-Reads}
use mame_sys.Mkfs.Build.Spec.{
  gather, build, fields, before_hash, split_from, is_space, part, int, digits, spec_lines,
  spec_parts, spec_node, spec_dir, spec_device, spec_link, find_target,
}

-- dir /a/b 700
abbrev dir_line : List ℕ
dir_line = b'd' ∷ b'i' ∷ b'r' ∷ b' ' ∷ b'/' ∷ b'a' ∷ b'/' ∷ b'b' ∷ b' ' ∷ b'7' ∷ b'0' ∷ b'0' ∷ []

-- chr /a/t 6 1 2
abbrev chr_line : List ℕ
chr_line =
    b'c' ∷ b'h' ∷ b'r' ∷ b' ' ∷ b'/' ∷ b'a' ∷ b'/' ∷ b't' ∷ b' ' ∷ b'6' ∷ b' ' ∷ b'1' ∷ b' ' ∷ b'2'
    ∷ []

-- link /z /a/t # again
abbrev link_line : List ℕ
link_line =
    b'l' ∷ b'i' ∷ b'n' ∷ b'k' ∷ b' ' ∷ b'/' ∷ b'z' ∷ b' ' ∷ b'/' ∷ b'a' ∷ b'/' ∷ b't' ∷ b' ' ∷ b'#'
    ∷ []

abbrev pub spec : List (List ℕ)
spec = dir_line ∷ chr_line ∷ link_line ∷ []

-- The root with one file, and a directory /a with a symbolic link and an empty file.
abbrev pub tree : List (List ℕ × List HostFile)
tree =
    (
      b'/' ∷ [],
      record { name = b'h' ∷ []; is_link = false; executable = true; content = 104 ∷ 105 ∷ [] }
          ∷ [],
    )
    ∷ (
      b'/' ∷ b'a' ∷ [],
      record { name = b's' ∷ []; is_link = true; executable = false; content = [] }
          ∷ record { name = b'e' ∷ []; is_link = false; executable = false; content = [] }
          ∷ [],
    )
    ∷ []

abbrev pub small_fs : Fs
small_fs = new_fs 7 16 0

abbrev pub or_else {ℓ} : {A : Type ℓ} → A → Result A → A
or_else a (ok b) = b
or_else a (err e) = a

abbrev pub is_ok {ℓ} : {A : Type ℓ} → Result A → Bool
is_ok (ok b) = true
is_ok (err e) = false

pub is_ok-ok {ℓ} : {A : Type ℓ} (a : A) (r : Result A) → is_ok r ≡ true → r ≡ ok (or_else a r)
is_ok-ok a (ok b) e = refl
is_ok-ok a (err fault) e = cc

abbrev pub no_build : Build
no_build = record { fs = small_fs; dirs = []; entries = [] }

abbrev pub tree_build : Build
tree_build = or_else no_build (gather tree spec small_fs)

abbrev pub tree_image : Fs
tree_image = or_else small_fs (build tree spec small_fs)

gather_ok : is_ok (gather tree spec small_fs) ≡ true
unfolding gather start alloc_inode new_inode new_fs walk_dirs walk_dir getdir getdir_on find new_dir
    name_of parent_path rsplit set_key get append_to modify add_files add_file store_data
    store_blocks store_block alloc_block put store_indirect store_double store_outer store_table
    fill_front splice slice take drop replicate same_bytes fields before_hash split_from is_space
    part int digits spec_lines spec_parts spec_node spec_dir spec_device spec_link find_target
gather_ok = refl

pub build_ok : is_ok (build tree spec small_fs) ≡ true
unfolding build gather start alloc_inode new_inode new_fs walk_dirs walk_dir getdir getdir_on find
    new_dir name_of parent_path rsplit set_key get append_to modify add_files add_file store_data
    store_blocks store_block alloc_block put store_indirect store_double store_outer store_table
    fill_front splice slice take drop replicate same_bytes fields before_hash split_from is_space
    part int digits spec_lines spec_parts spec_node spec_dir spec_device spec_link find_target
    write_dirs object dir_blob dirent is_latin1 pack pack_all pack_signed le ljust finish
    write_inodes write_inodes_from inode_blob pack_inode address_bytes build_free_list bfree
    bfree_down spill write_superblock superblock pack_sizes pack_free_inodes pack_totals pack_names
    pack_into pack_into_signed pack_row free_inodes range
build_ok = refl

tree_names : NamesFit tree_build.entries
unfolding gather start alloc_inode new_inode new_fs walk_dirs walk_dir getdir getdir_on find new_dir
    name_of parent_path rsplit set_key get append_to modify add_files add_file store_data
    store_blocks store_block alloc_block put store_indirect store_double store_outer store_table
    fill_front splice slice take drop replicate same_bytes fields before_hash split_from is_space
    part int digits spec_lines spec_parts spec_node spec_dir spec_device spec_link find_target
tree_names = ground arith

build-Reads_example : Reads tree_build tree tree_image.image
build-Reads_example =
    build-Reads 7 16 0 tree spec tree_build tree_image (omega arith) (omega arith) (omega arith)
      (omega arith) (omega arith) (is_ok-ok no_build (gather tree spec small_fs) gather_ok)
      (is_ok-ok small_fs (build tree spec small_fs) build_ok) tree_names

-- The device /a/t, inode 7, has two names.
gather-links_example : links 7 tree_build.entries ≡ nlink_of (tree_build.fs.inodes 7)
gather-links_example =
    gather-links 7 16 0 tree spec tree_build (omega arith) (omega arith) (omega arith) (omega arith)
      (omega arith) (is_ok-ok no_build (gather tree spec small_fs) gather_ok) 7

-- The device /a/t has two names.
two_names : nlink_of (tree_build.fs.inodes 7) ≡ 2
unfolding gather start alloc_inode new_inode new_fs walk_dirs walk_dir getdir getdir_on find new_dir
    name_of parent_path rsplit set_key get append_to modify add_files add_file store_data
    store_blocks store_block alloc_block put store_indirect store_double store_outer store_table
    fill_front splice slice take drop replicate same_bytes fields before_hash split_from is_space
    part int digits spec_lines spec_parts spec_node spec_dir spec_device spec_link find_target
two_names = refl

abbrev options : Options
options = record { spec = spec; disktab = true }

abbrev main_build : Build
main_build = or_else no_build (gather tree spec (fs_for 38 0))

abbrev main_image : List ℕ
main_image = or_else [] (made_image 38 0 tree options)

made_ok : is_ok (made_image 38 0 tree options) ≡ true
unfolding made_image with_disktab disktab layout layout_of drives key swap_cyls pack_parts name_or
    fs_for ninodes_for build gather start alloc_inode new_inode new_fs walk_dirs walk_dir getdir
    getdir_on find new_dir name_of parent_path rsplit set_key get append_to modify add_files
    add_file store_data store_blocks store_block alloc_block put store_indirect store_double
    store_outer store_table fill_front splice slice take drop replicate same_bytes fields
    before_hash split_from is_space part int digits spec_lines spec_parts spec_node spec_dir
    spec_device spec_link find_target write_dirs object dir_blob dirent is_latin1 pack pack_all
    pack_signed le ljust finish write_inodes write_inodes_from inode_blob pack_inode address_bytes
    build_free_list bfree bfree_down spill write_superblock superblock pack_sizes pack_free_inodes
    pack_totals pack_names pack_into pack_into_signed pack_row free_inodes range
made_ok = refl

main_gather_ok : is_ok (gather tree spec (fs_for 38 0)) ≡ true
unfolding fs_for ninodes_for gather start alloc_inode new_inode new_fs walk_dirs walk_dir getdir
    getdir_on find new_dir name_of parent_path rsplit set_key get append_to modify add_files
    add_file store_data store_blocks store_block alloc_block put store_indirect store_double
    store_outer store_table fill_front splice slice take drop replicate same_bytes fields
    before_hash split_from is_space part int digits spec_lines spec_parts spec_node spec_dir
    spec_device spec_link find_target
main_gather_ok = refl

main_names : NamesFit main_build.entries
unfolding fs_for ninodes_for gather start alloc_inode new_inode new_fs walk_dirs walk_dir getdir
    getdir_on find new_dir name_of parent_path rsplit set_key get append_to modify add_files
    add_file store_data store_blocks store_block alloc_block put store_indirect store_double
    store_outer store_table fill_front splice slice take drop replicate same_bytes fields
    before_hash split_from is_space part int digits spec_lines spec_parts spec_node spec_dir
    spec_device spec_link find_target
main_names = ground arith

made_image-Reads_example : Reads main_build tree main_image
made_image-Reads_example =
    made_image-Reads 38 0 tree options main_build main_image (omega arith) (omega arith)
      (omega arith) (is_ok-ok no_build (gather tree spec (fs_for 38 0)) main_gather_ok)
      (is_ok-ok [] (made_image 38 0 tree options) made_ok) main_names
