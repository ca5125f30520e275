-- ===== src/Mkfs/Needs.antt =====
-- The converse of `Mkfs.Writes`: when `Fs.store_data` of tools/mkfs.py succeeds, the file needed no triple
-- indirection and there was room for its layout.
use mame_sys.Base.{
  ℕ, zero, suc, ◌+◌, ◌-◌, ◌*◌, ◌/◌, ◌≤◌, set, List, [], ◌∷◌, ◌++◌, length, ◌≡◌, refl, ap, arith,
  Bool-cases, inl, inr, leb, ltb, take, drop, length-drop, length-append, slice, splice,
  if◌then◌else◌,
}
use mame_sys.Base.Codec.{pack_all, words}
use mame_sys.Base.Result.{Result, ok, err, image_full, assertion_error, triple_indirection}
use mame_sys.Mkfs.{Fs, Inode, put, alloc_block, nindir, bsize, lift, fail}
use mame_sys.Mkfs.Layout.{
  nblk, layout, tables, length-tables, double_layout, indirect_layout, range, length-range,
  length-chunks, chunks,
}
use mame_sys.Mkfs.Store.{
  store_block, store_table, store_blocks, store_outer, store_double, store_indirect, store_data,
}
use mame_sys.Mkfs.Writes.{max_blocks}
use mame_sys.Mkfs.Methods.{method-eq-ok, Gave, Gave-then, no_result, ok-state, ok-value}

alloc_block-Gave : (fs : Fs) {b : ℕ} {fs' : Fs} → alloc_block fs ≡ ok (b, fs') → Gave 1 fs fs'
unfolding alloc_block
alloc_block-Gave fs {b} {fs'} e = elim (Bool-cases (leb fs.nblocks fs.next_block)) [
  | inl full ↦ no_result image_full (b, fs') (rw full at e)
  | inr left ↦
      let next : ℕ × Fs = (fs.next_block, record fs { next_block = fs.next_block + 1 }) in
      let h : ok next ≡ ok (b, fs') = rw left at e in
      rw (← ok-state next (b, fs') h)
        (record { nblocks = refl; next = refl; within = λ le. ground arith })
]

put-Gave :
    (n : ℕ) (buf : List ℕ) (fs : Fs) {u : Unit {0}} {fs' : Fs}
    → put n buf fs ≡ ok (u, fs')
    → Gave 0 fs fs'
unfolding put
put-Gave n buf fs {u} {fs'} e = elim (Bool-cases (leb (length buf) bsize)) [
  | inl fits ↦
      let next : Unit {0} × Fs = (tt, record fs { image = splice fs.image (n * bsize) buf }) in
      let h : ok next ≡ ok (u, fs') = rw fits at e in
      rw (← ok-state next (u, fs') h)
        (record { nblocks = refl; next = omega arith; within = λ le. le })
  | inr long ↦ no_result assertion_error (u, fs') (rw long at e)
]

store_block-Gave :
    (buf : List ℕ) (fs : Fs) {b : ℕ} {fs' : Fs} → store_block buf fs ≡ ok (b, fs') → Gave 1 fs fs'
unfolding store_block
store_block-Gave buf fs {b} {fs'} e =
    let (n, fs₁, e₁, h) = method-eq-ok alloc_block _ fs e in
    let (u, fs₂, e₂, h₂) = method-eq-ok (put n buf) _ fs₁ h in
    rw (← ok-state (n, fs₂) (b, fs') h₂)
      (Gave-then (alloc_block-Gave fs e₁) (put-Gave n buf fs₁ e₂) refl)

store_table-Gave :
    (xs : List ℕ) (fs : Fs) {b : ℕ} {fs' : Fs} → store_table xs fs ≡ ok (b, fs') → Gave 1 fs fs'
unfolding store_table
store_table-Gave xs fs {b} {fs'} e =
    let (n, fs₁, e₁, h) = method-eq-ok alloc_block _ fs e in
    let (buf, fs₂, e₂, h₂) = method-eq-ok (lift (pack_all xs)) _ fs₁ h in
    let (u, fs₃, e₃, h₃) = method-eq-ok (put n buf) _ fs₂ h₂ in
    rw (← ok-state (n, fs₃) (b, fs') h₃) (
      Gave-then (alloc_block-Gave fs e₁)
        (Gave-then (lifted (pack_all xs) e₂) (put-Gave n buf fs₂ e₃) refl) refl)
  where
    lifted :
        {fs₁ fs₂ : Fs} {buf : List ℕ} (r : Result (List ℕ))
        → lift r fs₁ ≡ ok (buf, fs₂)
        → Gave 0 fs₁ fs₂
    lifted {fs₁} {fs₂} {buf} (ok a) e =
        rw (← ok-state (a, fs₁) (buf, fs₂) e)
          (record { nblocks = refl; next = omega arith; within = λ le. le })
    lifted (err fault) e = cc

store_blocks-Gave :
    (n i : ℕ) (content : List ℕ) (fs : Fs) {bs : List ℕ} {fs' : Fs}
    → store_blocks n i content fs ≡ ok (bs, fs')
    → Gave n fs fs'
unfolding store_blocks
store_blocks-Gave zero i content fs {bs} {fs'} e =
    rw (← ok-state ([], fs) (bs, fs') e)
      (record { nblocks = refl; next = omega arith; within = λ le. le })
store_blocks-Gave (suc n) i content fs {bs} {fs'} e =
    let (b, fs₁, e₁, h) = method-eq-ok (store_block (slice content (i * bsize) bsize)) _ fs e in
    let (more, fs₂, e₂, h₂) = method-eq-ok (store_blocks n (i + 1) content) _ fs₁ h in
    rw (← ok-state (b ∷ more, fs₂) (bs, fs') h₂) (
      Gave-then (store_block-Gave _ fs e₁) (store_blocks-Gave n (i + 1) content fs₁ e₂)
        (omega arith))

-- The test for the triple indirection, once it has been passed.
outer-tests :
    (fuel : ℕ) (rest outer : List ℕ) (fs : Fs) {outer' : List ℕ} {fs' : Fs}
    → (let more = store_outer fuel rest outer in
          if ltb nindir (length outer) then fail triple_indirection else more)
        fs
      ≡ ok (outer', fs')
    → (length outer ≤ nindir) × (store_outer fuel rest outer fs ≡ ok (outer', fs'))
outer-tests fuel rest outer fs {outer'} {fs'} e = elim (Bool-cases (ltb nindir (length outer))) [
  | inl many ↦ no_result triple_indirection (outer', fs') (rw many at e)
  | inr fits ↦ (ground arith, rw fits at e)
]

store_outer-Gave :
    (fuel : ℕ) (rest outer : List ℕ) (fs : Fs) {outer' : List ℕ} {fs' : Fs}
    → store_outer fuel rest outer fs ≡ ok (outer', fs')
    → length outer ≤ nindir
    → Gave (length (tables fuel rest)) fs fs' × (length outer + length (tables fuel rest) ≤ nindir)
unfolding store_outer tables
store_outer-Gave fuel [] outer fs {outer'} {fs'} e few = (
  rw (← ok-state (outer, fs) (outer', fs') e)
      (record { nblocks = refl; next = omega arith; within = λ le. le }),
  omega arith,
)
store_outer-Gave zero (r ∷ rest) outer fs {outer'} {fs'} e few = (
  rw (← ok-state (outer, fs) (outer', fs') e)
      (record { nblocks = refl; next = omega arith; within = λ le. le }),
  omega arith,
)
store_outer-Gave (suc fuel) (r ∷ rest) outer fs {outer'} {fs'} e few =
    let (b, fs₁, e₁, h) = method-eq-ok (store_table (take nindir (r ∷ rest))) _ fs e in
    let (many, h') = outer-tests fuel (drop nindir (r ∷ rest)) (outer ++ b ∷ []) fs₁ h in
    let (g, n) = store_outer-Gave fuel (drop nindir (r ∷ rest)) (outer ++ b ∷ []) fs₁ h' many in
    (
      Gave-then (store_table-Gave _ fs e₁) g (omega arith),
      omega (arith, n, length-append outer (b ∷ [])),
    )

-- The blocks under a double and under a single indirect block, those included, for as many numbers.
double_need : ℕ → ℕ
double_need zero = 0
double_need (suc n) = (suc n + 255) / 256 + 1

indirect_need : ℕ → ℕ
indirect_need zero = 0
indirect_need (suc n) = 1 + double_need (suc n - nindir)

length-double_layout :
    (at : ℕ) (rest : List ℕ) → length (double_layout at rest) ≡ double_need (length rest)
unfolding double_layout double_need
length-double_layout at [] = refl
length-double_layout at (r ∷ rest) =
    let ts = tables (length (r ∷ rest)) (r ∷ rest) in
    omega (
      arith,
      length-append ts (words (range at (length ts)) ∷ []),
      length-tables (length (r ∷ rest)) (r ∷ rest) (omega arith),
    )

length-indirect_layout :
    (at : ℕ) (rest : List ℕ) → length (indirect_layout at rest) ≡ indirect_need (length rest)
unfolding indirect_layout indirect_need
length-indirect_layout at [] = refl
length-indirect_layout at (r ∷ rest) = omega (
  arith,
  length-double_layout (at + 1) (drop nindir (r ∷ rest)),
  ap double_need (length-drop nindir (r ∷ rest)),
)

store_double-Gave :
    (ino : Inode) (rest : List ℕ) (fs : Fs) {ino' : Inode} {fs' : Fs}
    → store_double ino rest fs ≡ ok (ino', fs')
    → Gave (double_need (length rest)) fs fs' × (length rest ≤ nindir * nindir)
unfolding store_double double_need
store_double-Gave ino [] fs {ino'} {fs'} e = (
  rw (← ok-state (ino, fs) (ino', fs') e)
      (record { nblocks = refl; next = omega arith; within = λ le. le }),
  omega arith,
)
store_double-Gave ino (r ∷ rest) fs {ino'} {fs'} e =
    let (outer, fs₁, e₁, h) = method-eq-ok (store_outer (length (r ∷ rest)) (r ∷ rest) []) _ fs e in
    let (db, fs₂, e₂, h₂) = method-eq-ok (store_table outer) _ fs₁ h in
    let (g, few) = store_outer-Gave (length (r ∷ rest)) (r ∷ rest) [] fs e₁ (omega arith) in
    let n = length-tables (length (r ∷ rest)) (r ∷ rest) (omega arith) in
    (
      rw (← ok-state (record ino { addr = set ino.addr 11 db }, fs₂) (ino', fs') h₂)
          (Gave-then g (store_table-Gave outer fs₁ e₂) (omega (arith, n))),
      omega (arith, n, few),
    )

store_indirect-Gave :
    (ino : Inode) (rest : List ℕ) (fs : Fs) {ino' : Inode} {fs' : Fs}
    → store_indirect ino rest fs ≡ ok (ino', fs')
    → Gave (indirect_need (length rest)) fs fs' × (length rest ≤ nindir + nindir * nindir)
unfolding store_indirect indirect_need
store_indirect-Gave ino [] fs {ino'} {fs'} e = (
  rw (← ok-state (ino, fs) (ino', fs') e)
      (record { nblocks = refl; next = omega arith; within = λ le. le }),
  omega arith,
)
store_indirect-Gave ino (r ∷ rest) fs {ino'} {fs'} e =
    let (ib, fs₁, e₁, h) = method-eq-ok (store_table (take nindir (r ∷ rest))) _ fs e in
    let (g, few) =
      store_double-Gave (record ino { addr = set ino.addr 10 ib }) (drop nindir (r ∷ rest)) fs₁ h in
    let n = length-drop nindir (r ∷ rest) in
    (
      Gave-then (store_table-Gave _ fs e₁) g (omega (arith, ap double_need n)),
      omega (arith, n, few),
    )

length-store_blocks :
    (n i : ℕ) (content : List ℕ) (fs : Fs) {bs : List ℕ} {fs' : Fs}
    → store_blocks n i content fs ≡ ok (bs, fs')
    → length bs ≡ n
unfolding store_blocks
length-store_blocks zero i content fs {bs} {fs'} e = rw (← ok-value ([], fs) (bs, fs') e) refl
length-store_blocks (suc n) i content fs {bs} {fs'} e =
    let (b, fs₁, e₁, h) = method-eq-ok (store_block (slice content (i * bsize) bsize)) _ fs e in
    let (more, fs₂, e₂, h₂) = method-eq-ok (store_blocks n (i + 1) content) _ fs₁ h in
    rw (← ok-value (b ∷ more, fs₂) (bs, fs') h₂)
      (ap suc (length-store_blocks n (i + 1) content fs₁ e₂))

-- `store_data` succeeds only on a file that needs no triple indirection and for whose layout there is
-- room, when the blocks given out so far lie in the image. It is the converse of what
-- `Mkfs.Writes` shows, so every other file ends the program.
pub store_data-needs :
    (ino : Inode) (content : List ℕ) (fs : Fs) (ino' : Inode) (fs' : Fs)
    → store_data ino content fs ≡ ok (ino', fs')
    → fs.next_block ≤ fs.nblocks
    → (nblk content ≤ max_blocks)
      × (fs.next_block + length (layout fs.next_block content) ≤ fs.nblocks)
unfolding store_data layout
store_data-needs ino content fs ino' fs' e within =
    let n = nblk content in
    let (blocks, fs₁, e₁, h) = method-eq-ok (store_blocks n 0 content) _ fs e in
    let (ino₂, fs₂, e₂, h₂) = method-eq-ok (store_indirect _ (drop 10 blocks)) _ fs₁ h in
    let g = store_blocks-Gave n 0 content fs e₁ in
    let (g', few) = store_indirect-Gave _ (drop 10 blocks) fs₁ e₂ in
    let all = Gave-then g g' refl in
    let size = length-store_blocks n 0 content fs e₁ in
    let dropped = length-drop 10 blocks in
    let rest = drop 10 (range fs.next_block n) in
    let same : length rest ≡ length (drop 10 blocks) =
      omega (arith, length-drop 10 (range fs.next_block n), length-range fs.next_block n) in
    (
      omega arith,
      omega (
        arith,
        all.within within,
        all.next,
        length-append (chunks n 0 content) (indirect_layout (fs.next_block + n) rest),
        length-chunks n 0 content,
        length-indirect_layout (fs.next_block + n) rest,
        ap indirect_need same,
      ),
    )
