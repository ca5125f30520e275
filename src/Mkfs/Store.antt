-- ===== src/Mkfs/Store.antt =====
-- tools/mkfs.py, `Fs.store_data`: the blocks of a file, and its single and double indirect blocks.
use mame_sys.Base.{ℕ, zero, suc, ◌+◌, ◌-◌, ◌*◌, ◌/◌, List, [], ◌∷◌, ◌++◌, length, set, ltb}
use mame_sys.Base.{if◌then◌else◌, take, drop, slice}
use mame_sys.Base.Codec.{pack_all}
use mame_sys.Base.Result.{ok, triple_indirection}
use mame_sys.Mkfs.{Inode, Method, bsize, nindir, pure, fail, lift, update, ◌>>=◌, ◌>>◌}
use mame_sys.Mkfs.{put, alloc_block}

-- `b = self.alloc_block()` and `self.put(b, buf)`.
unfoldable pub store_block : List ℕ → Method ℕ
unfolding put alloc_block
store_block buf = do b ← alloc_block; put b buf; pure b

-- A block of addresses: `b''.join(struct.pack('<I', x) for x in xs)` in a new block.
unfoldable pub store_table : List ℕ → Method ℕ
unfolding put alloc_block
store_table xs = do b ← alloc_block; buf ← lift (pack_all xs); put b buf; pure b

-- The rounds of `for i in range(nblk)` that are left, and `i`.
unfoldable pub store_blocks : ℕ → ℕ → List ℕ → Method (List ℕ)
store_blocks zero i content = pure []
store_blocks (suc rounds) i content = do
  b ← store_block (slice content (i * bsize) bsize)
  blocks ← store_blocks rounds (i + 1) content
  pure (b ∷ blocks)

-- `for i, b in enumerate(blocks): addr[i] = b`
unfoldable pub fill_front : List ℕ → List ℕ → List ℕ
fill_front [] addr = addr
fill_front (b ∷ blocks) [] = []
fill_front (b ∷ blocks) (_ ∷ addr) = b ∷ fill_front blocks addr

-- `while rest:`, one indirect block a round. Each round takes a block from `rest` at least, so
-- `length rest` rounds are enough; at fuel 0 the loop ends as if `rest` were empty, which no run of
-- `store_data` reaches.
unfoldable pub store_outer : ℕ → List ℕ → List ℕ → Method (List ℕ)
store_outer fuel [] outer = pure outer
store_outer zero (r ∷ rest) outer = pure outer
store_outer (suc fuel) (r ∷ rest) outer = do
  b ← store_table (take nindir (r ∷ rest))
  let outer' = outer ++ (b ∷ [])
  let more = store_outer fuel (drop nindir (r ∷ rest)) outer'
  if ltb nindir (length outer') then fail triple_indirection else more

unfoldable pub store_double : Inode → List ℕ → Method Inode
store_double ino [] = pure ino
store_double ino (r ∷ rest) = do
  outer ← store_outer (length (r ∷ rest)) (r ∷ rest) []
  db ← store_table outer
  pure (record ino { addr = set ino.addr 11 db })

unfoldable pub store_indirect : Inode → List ℕ → Method Inode
store_indirect ino [] = pure ino
store_indirect ino (r ∷ rest) = do
  ib ← store_table (take nindir (r ∷ rest))
  store_double (record ino { addr = set ino.addr 10 ib }) (drop nindir (r ∷ rest))

-- The inode object stands in `self.inodes` under its number, so what is set on it shows there.
unfoldable pub store_data : Inode → List ℕ → Method Inode
store_data ino content = do
  blocks ← store_blocks ((length content + bsize - 1) / bsize) 0 content
  let ino₁ = record ino { size = length content; addr = fill_front (take 10 blocks) ino.addr }
  ino₂ ← store_indirect ino₁ (drop 10 blocks)
  λ fs. ok (ino₂, record fs { inodes = update fs.inodes ino₂.num ino₂ })
