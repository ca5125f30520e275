-- ===== src/Mkfs/FreeList.antt =====
-- tools/mkfs.py, `Fs.build_free_list`: the chain of free blocks, 50 to a link.
pub mod Walk
pub mod Chain
use mame_sys.Base.{ℕ, zero, suc, ◌+◌, ◌-◌, List, ◌++◌, set, ◌==◌, if◌then◌else◌, replicate}
use mame_sys.Base.Codec.{pack_signed, pack_all}
use mame_sys.Base.Result.{ok}
use mame_sys.Mkfs.{Fs, Method, bsize, nicfree, pure, lift, put, ◌>>=◌, ◌>>◌}
use mame_sys.Mkfs.Inodes.{ljust}

-- A full list moves into the block that is freed.
unfoldable pub spill : ℕ → Method (Unit {0})
spill bno fs =
    if fs.nfree == nicfree
    then ((do
      count ← lift (pack_signed 4 fs.nfree)
      table ← lift (pack_all fs.free)
      put bno (ljust (count ++ table) bsize)
      λ fs'. ok (tt, record fs' { nfree = 0 }))
        fs)
    else ok (tt, fs)

unfoldable pub bfree : ℕ → Method (Unit {0})
bfree bno = do
  spill bno
  λ fs. ok (tt, record fs { free = set fs.free fs.nfree bno; nfree = fs.nfree + 1 })

-- `for b in range(lo + k - 1, lo - 1, -1)`, with `k` the rounds left.
unfoldable pub bfree_down : ℕ → ℕ → Method (Unit {0})
bfree_down zero lo = pure tt
bfree_down (suc k) lo = do
  bfree (lo + k)
  (λ fs. ok (tt, record fs { tfree = fs.tfree + 1 }))
  bfree_down k lo

-- The entry 0 ends the walk.
unfoldable pub build_free_list : Method (Unit {0})
build_free_list fs =
    (do bfree 0; bfree_down (fs.nblocks - fs.next_block) fs.next_block)
      (record fs { nfree = 0; free = replicate nicfree 0; tfree = 0 })
