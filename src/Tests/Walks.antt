-- ===== src/Tests/Walks.antt =====
-- The theorems on the walk over an image and on the extraction, on the image of `Tree`.
use mame_sys.Base.{◌+◌, ◌*◌, ℕ, List, true, [], ◌∷◌, some, none, ◌≡◌, refl, arith}
use mame_sys.Base.Result.{ok, Succeeds}
use mame_sys.Base.{splice, slice, take, drop, replicate, same_bytes}
use mame_sys.Base.Codec.{pack, pack_all, pack_signed, le}
use mame_sys.Mkfs.{Fs, new_fs, alloc_inode, new_inode, alloc_block, put}
use mame_sys.Mkfs.Store.{
  store_data, store_blocks, store_block, store_indirect, store_double, store_outer, store_table,
  fill_front,
}
use mame_sys.Mkfs.Layout.{range}
use mame_sys.Mkfs.Inodes.{
  write_inodes, write_inodes_from, inode_blob, pack_inode, address_bytes, ljust,
}
use mame_sys.Mkfs.Dirs.{dir_blob, dirent, is_latin1}
use mame_sys.Mkfs.FreeList.{build_free_list, bfree, bfree_down, spill}
use mame_sys.Mkfs.Superblock.{
  write_superblock, superblock, pack_sizes, pack_free_inodes, pack_totals, pack_names, pack_into,
  pack_into_signed, pack_row, free_inodes,
}
use mame_sys.Mkfs.Finish.{finish}
use mame_sys.Mkfs.HostFiles.{add_file, add_files}
use mame_sys.Mkfs.Build.{
  start, walk_dirs, walk_dir, getdir, getdir_on, find, new_dir, name_of, parent_path, rsplit,
  set_key, get, append_to, modify, write_dirs, object,
}
use mame_sys.Mkfs.Build.Spec.{
  gather, build, fields, before_hash, split_from, is_space, part, int, digits, spec_lines,
  spec_parts, spec_node, spec_dir, spec_device, spec_link, find_target,
}
use mame_sys.Tests.Tree.{or_else, is_ok, is_ok-ok, tree_image}
use mame_sys.Base.Codec.{unpack, from_le, pos}
use mame_sys.Base.{arith, inl, ◌++◌}
use mame_sys.Mkfs.Build.{rsplit}
use mame_sys.S5.{
  Entry, inode, contents, readdir, addresses, blk, unpack_words, ind, read_blocks, read_double,
  read_single_at, read_double_at, until_nul, read_entries,
}
use mame_sys.S5.Walk.{Node, walk, walk_from, walk_entries, is_dots, is_dir, format}
use mame_sys.S5.Walk.Entries.{In, Reached}
use mame_sys.S5.Walk.Found.{walk-Reached, walk-Succeeds, IsReadable}
use mame_sys.S5extract.{
  then_run, lstrip_slash, ends_slash, starts_slash, join, all_slashes, rstrip_slash, dirname,
  is_regular, is_executable, target_of, fill_file, extract_file, extract_node, extract_nodes,
}
use mame_sys.S5extract.Written.{act_all, extract_nodes-writes}

abbrev image : List ℕ
image = tree_image.image

abbrev nodes : List Node
nodes = or_else [] (walk image)

walk_ok : is_ok (walk image) ≡ true
unfolding walk walk_from walk_entries is_dots is_dir format inode contents readdir addresses blk
    unpack_words ind read_blocks read_double read_single_at read_double_at until_nul read_entries
    unpack from_le build gather start alloc_inode new_inode new_fs walk_dirs walk_dir getdir
    getdir_on find new_dir name_of parent_path rsplit set_key get append_to modify add_files
    add_file store_data store_blocks store_block alloc_block put store_indirect store_double
    store_outer store_table fill_front splice slice take drop replicate same_bytes fields
    before_hash split_from is_space part int digits spec_lines spec_parts spec_node spec_dir
    spec_device spec_link find_target write_dirs object dir_blob dirent is_latin1 pack pack_all
    pack_signed le ljust finish write_inodes write_inodes_from inode_blob pack_inode address_bytes
    build_free_list bfree bfree_down spill write_superblock superblock pack_sizes pack_free_inodes
    pack_totals pack_names pack_into pack_into_signed pack_row free_inodes range
walk_ok = refl

-- The file /h of the image.
abbrev h_node : Node
h_node = record {
  path = b'/' ∷ b'h' ∷ [];
  num = 3;
  entry = record {
    mode = 0o100755;
    nlink = pos 1;
    uid = 0;
    gid = 0;
    size = 2;
    blk = 3 ∷ 0 ∷ 0 ∷ 0 ∷ 0 ∷ 0 ∷ 0 ∷ 0 ∷ 0 ∷ 0 ∷ 0 ∷ 0 ∷ 0 ∷ [];
  };
}

-- The directory /a.
abbrev a_node : Node
a_node = record {
  path = b'/' ∷ b'a' ∷ [];
  num = 4;
  entry = record {
    mode = 0o40755;
    nlink = pos 3;
    uid = 0;
    gid = 0;
    size = 80;
    blk = 5 ∷ 0 ∷ 0 ∷ 0 ∷ 0 ∷ 0 ∷ 0 ∷ 0 ∷ 0 ∷ 0 ∷ 0 ∷ 0 ∷ 0 ∷ [];
  };
}

walk-Reached_example :
    (In h_node nodes → Reached image 12 2 [] h_node)
    × (Reached image 12 2 [] h_node → In h_node nodes)
walk-Reached_example = walk-Reached image nodes h_node (is_ok-ok [] (walk image) walk_ok)

-- The file is among the nodes.
h_reached : Reached image 12 2 [] h_node
unfolding walk walk_from walk_entries is_dots is_dir format inode contents readdir addresses blk
    unpack_words ind read_blocks read_double read_single_at read_double_at until_nul read_entries
    unpack from_le build gather start alloc_inode new_inode new_fs walk_dirs walk_dir getdir
    getdir_on find new_dir name_of parent_path rsplit set_key get append_to modify add_files
    add_file store_data store_blocks store_block alloc_block put store_indirect store_double
    store_outer store_table fill_front splice slice take drop replicate same_bytes fields
    before_hash split_from is_space part int digits spec_lines spec_parts spec_node spec_dir
    spec_device spec_link find_target write_dirs object dir_blob dirent is_latin1 pack pack_all
    pack_signed le ljust finish write_inodes write_inodes_from inode_blob pack_inode address_bytes
    build_free_list bfree bfree_down spill write_superblock superblock pack_sizes pack_free_inodes
    pack_totals pack_names pack_into pack_into_signed pack_row free_inodes range
h_reached = (walk-Reached image nodes h_node (is_ok-ok [] (walk image) walk_ok)).0 (inl refl)

abbrev out : List ℕ
out = b'o' ∷ []

extract_ended : (extract_nodes image out ([] ++ h_node ∷ a_node ∷ [])).ended ≡ ok tt
unfolding then_run lstrip_slash ends_slash starts_slash join all_slashes rstrip_slash dirname
    is_regular is_executable target_of fill_file extract_file extract_node extract_nodes walk
    walk_from walk_entries is_dots is_dir format inode contents readdir addresses blk unpack_words
    ind read_blocks read_double read_single_at read_double_at until_nul read_entries unpack from_le
    build gather start alloc_inode new_inode new_fs walk_dirs walk_dir getdir getdir_on find new_dir
    name_of parent_path rsplit set_key get append_to modify add_files add_file store_data
    store_blocks store_block alloc_block put store_indirect store_double store_outer store_table
    fill_front splice slice take drop replicate same_bytes fields before_hash split_from is_space
    part int digits spec_lines spec_parts spec_node spec_dir spec_device spec_link find_target
    write_dirs object dir_blob dirent is_latin1 pack pack_all pack_signed le ljust finish
    write_inodes write_inodes_from inode_blob pack_inode address_bytes build_free_list bfree
    bfree_down spill write_superblock superblock pack_sizes pack_free_inodes pack_totals pack_names
    pack_into pack_into_signed pack_row free_inodes range
extract_ended = refl

h_content : contents image h_node.entry ≡ ok (104 ∷ 105 ∷ [])
unfolding walk walk_from walk_entries is_dots is_dir format inode contents readdir addresses blk
    unpack_words ind read_blocks read_double read_single_at read_double_at until_nul read_entries
    unpack from_le build gather start alloc_inode new_inode new_fs walk_dirs walk_dir getdir
    getdir_on find new_dir name_of parent_path rsplit set_key get append_to modify add_files
    add_file store_data store_blocks store_block alloc_block put store_indirect store_double
    store_outer store_table fill_front splice slice take drop replicate same_bytes fields
    before_hash split_from is_space part int digits spec_lines spec_parts spec_node spec_dir
    spec_device spec_link find_target write_dirs object dir_blob dirent is_latin1 pack pack_all
    pack_signed le ljust finish write_inodes write_inodes_from inode_blob pack_inode address_bytes
    build_free_list bfree bfree_down spill write_superblock superblock pack_sizes pack_free_inodes
    pack_totals pack_names pack_into pack_into_signed pack_row free_inodes range
h_content = refl

-- A host on which no two paths name one file.
abbrev file_number : List ℕ → ℕ
file_number [] = 0
file_number (c ∷ cs) = c + 256 * file_number cs

extract_nodes-writes_example :
    act_all file_number
      (extract_nodes image out ([] ++ h_node ∷ a_node ∷ [])).actions
      (λ p. none)
      (file_number (target_of out h_node.path))
    ≡ some (104 ∷ 105 ∷ [])
unfolding is_regular format target_of join lstrip_slash starts_slash ends_slash
extract_nodes-writes_example =
    extract_nodes-writes file_number image out [] h_node (a_node ∷ []) (104 ∷ 105 ∷ []) (λ p. none)
      extract_ended refl h_content (ground arith, tt)

-- An image whose only directory is the root.
abbrev bare : Fs
bare = or_else (new_fs 4 16 0) (build [] [] (new_fs 4 16 0))

abbrev bare_root : Entry
bare_root = record {
  mode = 0o40755;
  nlink = pos 2;
  uid = 0;
  gid = 0;
  size = 32;
  blk = 3 ∷ 0 ∷ 0 ∷ 0 ∷ 0 ∷ 0 ∷ 0 ∷ 0 ∷ 0 ∷ 0 ∷ 0 ∷ 0 ∷ 0 ∷ [];
}

bare_readable : IsReadable bare.image (λ n. n ≡ 2)
unfolding walk walk_from walk_entries is_dots is_dir format inode contents readdir addresses blk
    unpack_words ind read_blocks read_double read_single_at read_double_at until_nul read_entries
    unpack from_le build gather start alloc_inode new_inode new_fs walk_dirs walk_dir getdir
    getdir_on find new_dir name_of parent_path rsplit set_key get append_to modify add_files
    add_file store_data store_blocks store_block alloc_block put store_indirect store_double
    store_outer store_table fill_front splice slice take drop replicate same_bytes fields
    before_hash split_from is_space part int digits spec_lines spec_parts spec_node spec_dir
    spec_device spec_link find_target write_dirs object dir_blob dirent is_latin1 pack pack_all
    pack_signed le ljust finish write_inodes write_inodes_from inode_blob pack_inode address_bytes
    build_free_list bfree bfree_down spill write_superblock superblock pack_sizes pack_free_inodes
    pack_totals pack_names pack_into pack_into_signed pack_row free_inodes range
bare_readable n two = rw two (
  (2, b'.' ∷ []) ∷ (2, b'.' ∷ b'.' ∷ []) ∷ [],
  refl,
  ((bare_root, refl, λ dir. refl), ((bare_root, refl, λ dir. refl), tt)),
)

walk-Succeeds_example : Succeeds (walk bare.image)
walk-Succeeds_example = walk-Succeeds bare.image (λ n. n ≡ 2) bare_readable refl
