-- ===== src/Mkfs/Build.antt =====
-- tools/mkfs.py, `build`, lines 200 to 235 and 268 to 275: the tree of directories. A path or a name is
-- the list of its code points. An `Inode` object is held by its number in `fs.inodes`, where
-- `alloc_inode` puts it, so what is set on it through `dirs` or through `fs.inodes` is the same. The
-- host's tree comes as the list that `os.walk` gives, each directory under its path in the image,
-- with its files in order.
pub mod Paths
pub mod Dicts
pub mod Grows
pub mod Sound
pub mod Stores
pub mod Links
pub mod Kept
pub mod Tree
pub mod NewDir
pub mod Getdir
pub mod Added
pub mod Walked
pub mod InTree
pub mod Gathered
pub mod WrittenOne
pub mod Written
pub mod Reads
pub mod Finished
pub mod Spec
use mame_sys.Base.{ℕ, zero, suc, ◌+◌, List, [], ◌∷◌, ◌++◌, length, Option, none, some}
use mame_sys.Base.{if◌then◌else◌, same_bytes, ◌==◌}
use mame_sys.Base.Result.{
  Result, ok, err, assertion_error, index_error, key_error, recursion_error, ◌>>=◌, ◌>>◌, guard,
}
use mame_sys.Mkfs.{Fs, Inode, alloc_inode, update, rootino}
use mame_sys.Mkfs.Dirs.{dir_blob}
use mame_sys.Mkfs.Store.{store_data}
use mame_sys.Mkfs.Finish.{finish}
use mame_sys.Mkfs.HostFiles.{HostFile, add_files}

-- `path.rsplit('/', 1)`: what stands before the last slash and behind it, when there is one.
unfoldable pub rsplit : List ℕ → Option (List ℕ × List ℕ)
rsplit [] = none
rsplit (c ∷ cs) = elim (rsplit cs) [
  | some (before, behind) ↦ some (c ∷ before, behind)
  | none ↦ if c == b'/' then some ([], cs) else none
]

abbrev pub root_path : List ℕ
root_path = b'/' ∷ []

abbrev pub or_root : List ℕ → List ℕ
or_root [] = root_path
or_root (c ∷ cs) = c ∷ cs

-- `path.rsplit('/', 1)[0] or '/'`
unfoldable pub parent_path : List ℕ → List ℕ
parent_path path = elim (rsplit path) [
  | some (before, behind) ↦ or_root before
  | none ↦ or_root path
]

-- `path.rsplit('/', 1)[1]`
unfoldable pub name_of : List ℕ → Result (List ℕ)
name_of path = elim (rsplit path) [ some (before, behind) ↦ ok behind | none ↦ err index_error ]

-- A dict from paths, in the order in which the keys were set first.
abbrev pub Dict : Type 0 → Type 0
Dict A = List (List ℕ × A)

unfoldable pub find : {A : Type 0} → List ℕ → Dict A → Option A
find key [] = none
find key ((k, a) ∷ dict) = if same_bytes key k then some a else find key dict

-- `dict[key]`
unfoldable pub get : {A : Type 0} → List ℕ → Dict A → Result A
get key dict = elim (find key dict) [ some a ↦ ok a | none ↦ err key_error ]

-- `dict[key] = a`
unfoldable pub set_key : {A : Type 0} → List ℕ → A → Dict A → Dict A
set_key key a [] = (key, a) ∷ []
set_key key a ((k, b) ∷ dict) =
    if same_bytes key k then (k, a) ∷ dict else (k, b) ∷ set_key key a dict

abbrev pub Entries : Type 0
Entries = List (ℕ × List ℕ)

-- `entries[path].append(…)` of each of `more`.
unfoldable pub append_to : List ℕ → Entries → Dict Entries → Result (Dict Entries)
append_to path more entries = do held ← get path entries; ok (set_key path (held ++ more) entries)

-- `dirs` gives the number of a directory's inode.
pub record Build : Type 0 where
  pub fs : Fs
  pub dirs : Dict ℕ
  pub entries : Dict Entries

-- An assignment to a field of the inode object with this number.
unfoldable pub modify : ℕ → (Inode → Inode) → Fs → Fs
modify num f fs = elim (fs.inodes num) [
  | some ino ↦ record fs { inodes = update fs.inodes num (f ino) }
  | none ↦ fs
]

abbrev pub set_nlink : ℕ → Inode → Inode
set_nlink n ino = record ino { nlink = n }

abbrev pub add_link : Inode → Inode
add_link ino = record ino { nlink = ino.nlink + 1 }

abbrev pub dot : List ℕ
dot = b'.' ∷ []

abbrev pub dotdot : List ℕ
dotdot = b'.' ∷ b'.' ∷ []

-- `S_IFDIR | 0o755`
abbrev pub dir_mode : ℕ
dir_mode = 0o040755

unfoldable pub start : Fs → Result Build
start fs = do
  (root, fs₁) ← alloc_inode dir_mode 0 0 fs
  guard (root.num == rootino) assertion_error
  ok (record {
    fs = modify root.num (set_nlink 2) fs₁;
    dirs = (root_path, root.num) ∷ [];
    entries = (root_path, (root.num, dot) ∷ (root.num, dotdot) ∷ []) ∷ [];
  })

-- `getdir` for a path that is not there, once the parent is.
unfoldable pub new_dir : List ℕ → ℕ → Build → Result (ℕ × Build)
new_dir path parent b = do
  (d, fs₁) ← alloc_inode dir_mode 0 0 b.fs
  name ← name_of path
  entries ←
      append_to (parent_path path) ((d.num, name) ∷ [])
        (set_key path ((d.num, dot) ∷ (parent, dotdot) ∷ []) b.entries)
  ok (
    d.num,
    record {
      fs = modify parent add_link (modify d.num (set_nlink 2) fs₁);
      dirs = set_key path d.num b.dirs;
      entries = entries;
    },
  )

-- The recursion on the parent path, with the number of further calls that Python still allows: a call
-- beyond them is a `RecursionError`. A path that is not empty and has no slash is its own parent, so
-- that this is always how the recursion on it ends.
unfoldable pub getdir_on : ℕ → List ℕ → Build → Result (ℕ × Build)
getdir_on zero path b = elim (find path b.dirs) [
  | some num ↦ ok (num, b)
  | none ↦ err recursion_error
]
getdir_on (suc calls) path b = elim (find path b.dirs) [
  | some num ↦ ok (num, b)
  | none ↦ getdir_on calls (parent_path path) b >>= λ r. new_dir path r.0 r.1
]

-- The calls of `getdir` within the first one: Python allows 1000 frames by default, which are those of
-- the module, `main`, `build` and this first call, and 996 more.
abbrev pub further_calls : ℕ
further_calls = 996

unfoldable pub getdir : List ℕ → Build → Result (ℕ × Build)
getdir path b = getdir_on further_calls path b

-- One round of the loop over `os.walk`.
unfoldable pub walk_dir : List ℕ → List HostFile → Build → Result Build
walk_dir here files b = do
  (num, b₁) ← getdir here b
  (added, fs) ← add_files files b₁.fs
  entries ← append_to here added b₁.entries
  ok (record b₁ { fs = fs; entries = entries })

unfoldable pub walk_dirs : List (List ℕ × List HostFile) → Build → Result Build
walk_dirs [] b = ok b
walk_dirs ((here, files) ∷ tree) b = do b₁ ← walk_dir here files b; walk_dirs tree b₁

-- The inode object with this number.
unfoldable pub object : ℕ → Fs → Result Inode
object num fs = elim (fs.inodes num) [ some ino ↦ ok ino | none ↦ err key_error ]

-- `for path, ents in entries.items()`
unfoldable pub write_dirs : Dict Entries → Dict ℕ → Fs → Result Fs
write_dirs [] dirs fs = ok fs
write_dirs ((path, ents) ∷ entries) dirs fs = do
  blob ← dir_blob ents
  num ← get path dirs
  ino ← object num fs
  (stored, fs₁) ← store_data ino blob fs
  write_dirs entries dirs fs₁
