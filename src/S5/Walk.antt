-- ===== src/S5/Walk.antt =====
-- tools/s5fs.py, `S5.walk` and the letters of the listing that the program prints.
pub mod Entries
pub mod Found
use mame_sys.Base.{
  ℕ, zero, suc, ◌+◌, ◌-◌, ◌*◌, ◌/◌, ◌%◌, List, [], ◌∷◌, ◌++◌, map, Bool, true, false, ◌||◌, ◌==◌,
  same_bytes, if◌then◌else◌,
}
use mame_sys.Base.Result.{Result, ok, ◌>>=◌}
use mame_sys.S5.{Entry, inode, readdir}

-- What `walk` appends to `out`.
pub record Node : Type 0 where
  pub path : List ℕ
  pub num : ℕ
  pub entry : Entry

-- The four bits of `mode & 0o170000`.
unfoldable pub format : ℕ → ℕ
format mode = mode / 4096 % 16

-- `stat.S_ISDIR`
unfoldable pub is_dir : ℕ → Bool
is_dir mode = format mode == 4

-- `name in ('.', '..')`
unfoldable pub is_dots : List ℕ → Bool
is_dots name = same_bytes name (b'.' ∷ []) || same_bytes name (b'.' ∷ b'.' ∷ [])

-- `path + '/' + name`
abbrev pub under : List ℕ → List ℕ → List ℕ
under path name = path ++ b'/' ∷ name

-- The loop over the entries of a directory, where `below` is the walk of a directory in it.
unfoldable pub walk_entries :
    (ℕ → List ℕ → Result (List Node)) → List ℕ → List ℕ → List (ℕ × List ℕ) → Result (List Node)
walk_entries below d path [] = ok []
walk_entries below d path ((n, name) ∷ ents) = elim (is_dots name) [
  | true ↦ walk_entries below d path ents
  | false ↦ inode d n >>= λ i.
      (if is_dir i.mode then below n (under path name) else ok []) >>= λ inside.
      walk_entries below d path ents >>= λ rest.
      ok (record { path = under path name; num = n; entry = i } ∷ (inside ++ rest))
]

-- `walk(ino, path, depth)`, where `left` is `12 - depth`: at depth 12 the directories are listed, and not
-- walked.
unfoldable pub walk_from : ℕ → List ℕ → ℕ → List ℕ → Result (List Node)
walk_from zero d ino path = readdir d ino >>= walk_entries (λ n p. ok []) d path
walk_from (suc left) d ino path = readdir d ino >>= walk_entries (walk_from left d) d path

-- `walk()`, from the root.
unfoldable pub walk : List ℕ → Result (List Node)
walk d = walk_from 12 d 2 []

-- The letter of a line of the listing: a directory, a character or a block device, or else '-'.
unfoldable pub letter : ℕ → ℕ
letter mode =
    if is_dir mode
    then b'd'
    else (if format mode == 2 then b'c' else (if format mode == 6 then b'b' else b'-'))
