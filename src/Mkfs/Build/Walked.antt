-- ===== src/Mkfs/Build/Walked.antt =====
-- The loop over the host's directories in `build` of tools/mkfs.py keeps the tree, and puts every file
-- into the object.
use mame_sys.Mkfs.Build.Grows.{Grows, Sound}
use mame_sys.Base.{ℕ, ◌+◌, List, ◌++◌, some, ◌≡◌, sym, ap, ◌∙◌, arith, inl}
use mame_sys.Mkfs.{Fs}
use mame_sys.Mkfs.Build.{Build, Dict, Entries, find}
use mame_sys.Mkfs.Build.Dicts.{keys, keys-set_key}
use mame_sys.Mkfs.Build.Kept.{FilesKept}
use mame_sys.Mkfs.Build.Links.{named, Appends, Appends-kept}
use mame_sys.Mkfs.Build.Tree.{Tree, IsDir, Extends, nlink_of}

-- A tree whose object and entries grow by what an operation adds, while the directories stay.
pub Extends-entries :
    (b : Build) (here : List ℕ) (more : Entries) (entries : Dict Entries) (fs : Fs)
    → Tree b
    → Appends here more b.entries entries
    → Sound fs
    → Grows b.fs fs
    → FilesKept b.fs fs
    → ((n : ℕ) → nlink_of (fs.inodes n) ≡ nlink_of (b.fs.inodes n) + named n more)
    → ((path : List ℕ) (num : ℕ) → find path b.dirs ≡ some num → IsDir fs num)
    → Extends b (record b { fs = fs; entries = entries })
Extends-entries b here more entries fs t a s g kept counts dirs = record {
  tree = record {
    sound = s;
    same_keys =
        t.same_keys ∙ sym (ap keys a.result ∙ keys-set_key here (a.held ++ more) b.entries a.there);
    linked = λ n. omega (arith, a.counted n, t.linked n, counts n);
    held = dirs;
    apart = t.apart;
    rooted = t.rooted;
    unique = t.unique;
    root = t.root;
  };
  grows = g;
  files = kept;
  kept = λ q m h. h;
  listed = Appends-kept here more b.entries entries a;
  new_dirs = λ q m h. inl h;
}
