-- ===== src/Mkfs/Dirs.antt =====
-- tools/mkfs.py, `Fs.dirent`, and the directory files that `build` makes of its entries.
use mame_sys.Base.{ℕ, List, [], ◌∷◌, ◌++◌, Bool, true, ◌&&◌, length, ltb, leb}
use mame_sys.Base.Codec.{pack}
use mame_sys.Base.Result.{Result, ok, name_too_long, value_error, ◌>>=◌, ◌>>◌, guard}
use mame_sys.Mkfs.{dirsiz}
use mame_sys.Mkfs.Inodes.{ljust}

-- `name.encode('latin1')`: a name is its code points, and each must be below 256.
unfoldable pub is_latin1 : List ℕ → Bool
is_latin1 [] = true
is_latin1 (c ∷ cs) = ltb c 256 && is_latin1 cs

unfoldable pub dirent : ℕ → List ℕ → Result (List ℕ)
dirent num name = do
  guard (is_latin1 name) value_error
  guard (leb (length name) dirsiz) name_too_long
  n ← pack 2 num
  ok (n ++ ljust name dirsiz)

-- `b''.join(Fs.dirent(n, nm) for n, nm in ents)`
unfoldable pub dir_blob : List (ℕ × List ℕ) → Result (List ℕ)
dir_blob [] = ok []
dir_blob ((n, name) ∷ ents) = do entry ← dirent n name; rest ← dir_blob ents; ok (entry ++ rest)
