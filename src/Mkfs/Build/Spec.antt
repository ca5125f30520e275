-- ===== src/Mkfs/Build/Spec.antt =====
-- tools/mkfs.py, lines 237 to 265: the spec lines, and `build` as a whole.
pub mod Links
pub mod Extended
use Prim.Native.Nat.{bit_or}
use mame_sys.Base.{
  ℕ, zero, suc, ◌+◌, ◌-◌, ◌*◌, List, [], ◌∷◌, ◌++◌, length, set, Bool, true, false, ◌&&◌, ◌||◌,
  Option, none, some,
}
use mame_sys.Base.{if◌then◌else◌, same_bytes, ◌==◌, leb, ltb}
use mame_sys.Base.Result.{
  Result, ok, err, index_error, value_error, link_target_missing, ◌>>=◌, ◌>>◌, guard,
}
use mame_sys.Mkfs.{Fs, Inode, alloc_inode, s_ifdir, s_ifblk, s_ifchr}
use mame_sys.Mkfs.Finish.{finish}
use mame_sys.Mkfs.HostFiles.{HostFile}
use mame_sys.Mkfs.Build.{
  Build, Entries, parent_path, name_of, get, append_to, modify, add_link, start, getdir, walk_dirs,
  write_dirs,
}

-- The characters that `str.split` and `str.strip` take for white space.
unfoldable pub is_space : ℕ → Bool
is_space c =
    (leb 9 c && leb c 13)
    || ((leb 28 c && leb c 32)
        || ((c == 133)
            || ((c == 160)
                || ((c == 5760)
                    || ((leb 8192 c && leb c 8202)
                        || ((c == 8232)
                            || ((c == 8233) || ((c == 8239) || ((c == 8287) || (c == 12288))))))))))

-- `line.split('#')[0]`
unfoldable pub before_hash : List ℕ → List ℕ
before_hash [] = []
before_hash (c ∷ cs) = if c == b'#' then [] else c ∷ before_hash cs

abbrev pub flush : List ℕ → List (List ℕ) → List (List ℕ)
flush [] words = words
flush (c ∷ cs) words = (c ∷ cs) ∷ words

-- `split()`, from the word on that has been read so far. It is empty when the line is blank.
unfoldable pub split_from : List ℕ → List ℕ → List (List ℕ)
split_from word [] = flush word []
split_from word (c ∷ cs) = elim (is_space c) [
  | true ↦ flush word (split_from [] cs)
  | false ↦ split_from (word ++ c ∷ []) cs
]

unfoldable pub fields : List ℕ → List (List ℕ)
fields line = split_from [] (before_hash line)

-- `parts[i]`
unfoldable pub part : List (List ℕ) → ℕ → Result (List ℕ)
part [] i = err index_error
part (p ∷ parts) zero = ok p
part (p ∷ parts) (suc i) = part parts i

unfoldable pub digits : ℕ → ℕ → List ℕ → Result ℕ
digits base n [] = ok n
digits base n (c ∷ cs) =
    if leb b'0' c && ltb c (b'0' + base)
    then digits base (n * base + (c - b'0')) cs
    else err value_error

-- `int(text, base)` of digits alone, for the bases 8 and 10. The signs, underscores and prefixes that
-- Python reads besides end the model like any other text.
unfoldable pub int : ℕ → List ℕ → Result ℕ
int base [] = err value_error
int base (c ∷ cs) = digits base 0 (c ∷ cs)

abbrev pub dir_kind : List ℕ
dir_kind = b'd' ∷ b'i' ∷ b'r' ∷ []

abbrev pub link_kind : List ℕ
link_kind = b'l' ∷ b'i' ∷ b'n' ∷ b'k' ∷ []

abbrev pub blk_kind : List ℕ
blk_kind = b'b' ∷ b'l' ∷ b'k' ∷ []

unfoldable pub spec_dir : List (List ℕ) → List ℕ → Build → Result Build
spec_dir parts path b = do
  (num, b₁) ← getdir path b
  text ← part parts 2
  mode ← int 8 text
  ok (record b₁ { fs = modify num (λ ino. record ino { mode = bit_or s_ifdir mode }) b₁.fs })

-- The loop over the entries of the target's directory: the last one of that name counts.
unfoldable pub find_target : List ℕ → Entries → Option ℕ → Result (Option ℕ)
find_target target [] tino = ok tino
find_target target ((num, name) ∷ ents) tino = do
  wanted ← name_of target
  find_target target ents (if same_bytes name wanted then some num else tino)

abbrev pub or_missing : Option ℕ → Result ℕ
or_missing (some tino) = ok tino
or_missing none = err link_target_missing

unfoldable pub spec_link : List (List ℕ) → List ℕ → List ℕ → Build → Result Build
spec_link parts path name b = do
  target ← part parts 2
  ents ← get (parent_path target) b.entries
  found ← find_target target ents none
  tino ← or_missing found
  entries ← append_to (parent_path path) ((tino, name) ∷ []) b.entries
  ok (record b { fs = modify tino add_link b.fs; entries = entries })

unfoldable pub spec_device : List (List ℕ) → List ℕ → List ℕ → List ℕ → Build → Result Build
spec_device parts kind path name b = do
  text ← part parts 2
  mode ← int 8 text
  (ino, fs) ←
      alloc_inode (bit_or mode (if same_bytes kind blk_kind then s_ifblk else s_ifchr)) 0 0 b.fs
  text₃ ← part parts 3
  major ← int 10 text₃
  text₄ ← part parts 4
  minor ← int 10 text₄
  let dev = bit_or (major * 256) minor
  entries ← append_to (parent_path path) ((ino.num, name) ∷ []) b.entries
  ok (record b {
    fs = modify ino.num (λ i. record i { addr = set i.addr 0 dev }) fs;
    entries = entries;
  })

-- The part of the loop's body behind `getdir(parent_path)`.
unfoldable pub spec_node : List (List ℕ) → List ℕ → List ℕ → List ℕ → Build → Result Build
spec_node parts kind path name b = do
  (num, b₁) ← getdir (parent_path path) b
  if same_bytes kind link_kind
      then spec_link parts path name b₁
      else spec_device parts kind path name b₁

unfoldable pub spec_parts : List (List ℕ) → Build → Result Build
spec_parts [] b = ok b
spec_parts (kind ∷ parts) b = do
  path ← part (kind ∷ parts) 1
  name ← name_of path
  if same_bytes kind dir_kind
      then spec_dir (kind ∷ parts) path b
      else spec_node (kind ∷ parts) kind path name b

unfoldable pub spec_lines : List (List ℕ) → Build → Result Build
spec_lines [] b = ok b
spec_lines (line ∷ spec) b = do b₁ ← spec_parts (fields line) b; spec_lines spec b₁

-- All that is in memory before the directories are written.
unfoldable pub gather : List (List ℕ × List HostFile) → List (List ℕ) → Fs → Result Build
gather tree spec fs = do b ← start fs; b₁ ← walk_dirs tree b; spec_lines spec b₁

unfoldable pub build : List (List ℕ × List HostFile) → List (List ℕ) → Fs → Result Fs
build tree spec fs = do b ← gather tree spec fs; fs₁ ← write_dirs b.entries b.dirs b.fs; finish fs₁
