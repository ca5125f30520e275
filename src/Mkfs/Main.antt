-- ===== src/Mkfs/Main.antt =====
-- tools/mkfs.py, lines 278 to 300 of `main`: the options, the number of inodes, the object, and the
-- disk header over the boot block.
pub mod Header
pub mod Sizes
pub mod Image
use mame_sys.Base.{
  ℕ, ◌+◌, ◌*◌, ◌/◌, max, List, [], ◌∷◌, Bool, true, false, splice, same_bytes, if◌then◌else◌,
}
use mame_sys.Base.Result.{Result, ok, err, index_error, ◌>>=◌}
use mame_sys.Mkdisk.{disktab, default}
use mame_sys.Mkfs.{Fs, new_fs}
use mame_sys.Mkfs.HostFiles.{HostFile}
use mame_sys.Mkfs.Build.Spec.{build}

unfoldable pub ninodes_for : ℕ → ℕ
ninodes_for nblocks = max 512 ((nblocks / 8 + 15) / 16 * 16)

unfoldable pub fs_for : ℕ → ℕ → Fs
fs_for nblocks now = new_fs nblocks (ninodes_for nblocks) now

-- `fs.data[0:92] = mkdisk.disktab()`, whose 92 bytes replace as many.
unfoldable pub with_disktab : List ℕ → Result (List ℕ)
with_disktab image = do b ← disktab default []; ok (splice image 0 b)

-- What the loop over the arguments sets.
pub record Options : Type 0 where
  pub spec : List (List ℕ)
  pub disktab : Bool

-- '--spec' and '--disktab'
abbrev pub spec_option : List ℕ
spec_option = b'-' ∷ b'-' ∷ b's' ∷ b'p' ∷ b'e' ∷ b'c' ∷ []

abbrev pub disktab_option : List ℕ
disktab_option = b'-' ∷ b'-' ∷ b'd' ∷ b'i' ∷ b's' ∷ b'k' ∷ b't' ∷ b'a' ∷ b'b' ∷ []

unfoldable pub flag : List ℕ → Options → Options
flag a o = if same_bytes a disktab_option then record o { disktab = true } else o

-- `while args:`. The lines of the file after `--spec` come from the host; another argument is skipped.
unfoldable pub read_options :
    (List ℕ → Result (List (List ℕ))) → List (List ℕ) → Options → Result Options
read_options read_lines [] o = ok o
read_options read_lines (a ∷ []) o =
    if same_bytes a spec_option then err index_error else ok (flag a o)
read_options read_lines (a ∷ b ∷ args) o = elim (same_bytes a spec_option) [
  | true ↦ read_lines b >>= λ lines. read_options read_lines args (record o { spec = lines })
  | false ↦ read_options read_lines (b ∷ args) (flag a o)
]

-- The bytes that `main` writes to its output file.
unfoldable pub made_image : ℕ → ℕ → List (List ℕ × List HostFile) → Options → Result (List ℕ)
made_image nblocks now tree o = do
  fs ← build tree o.spec (fs_for nblocks now)
  if o.disktab then with_disktab fs.image else ok fs.image
