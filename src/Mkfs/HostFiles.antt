-- ===== src/Mkfs/HostFiles.antt =====
-- tools/mkfs.py, lines 226 to 235 of `build`: the files of one host directory, in order. Reading the
-- host's directory is left out: a file comes with its name, its permission bit and its bytes.
pub mod Added
pub mod Image
use mame_sys.Base.{ℕ, List, [], ◌∷◌, Bool, if◌then◌else◌}
use mame_sys.Mkfs.{Fs, Inode, Method, pure, alloc_inode, ◌>>=◌}
use mame_sys.Mkfs.Store.{store_data}

pub record HostFile : Type 0 where
  pub name : List ℕ
  pub is_link : Bool
  pub executable : Bool
  pub content : List ℕ

-- `S_IFREG | (0o755 if os.access(full, os.X_OK) else 0o644)`
abbrev pub file_mode : Bool → ℕ
file_mode executable = if executable then 0o100755 else 0o100644

unfoldable pub add_file : ℕ → List ℕ → Method Inode
add_file mode content = do ino ← alloc_inode mode 0 0; store_data ino content

-- What is appended to `entries[here]`.
unfoldable pub add_files : List HostFile → Method (List (ℕ × List ℕ))
add_files [] = pure []
add_files (f ∷ files) =
    let rest = add_files files in
    if f.is_link then rest else (do
      ino ← add_file (file_mode f.executable) f.content
      entries ← rest
      pure ((ino.num, f.name) ∷ entries))
