-- ===== src/S5/RoundTrip.antt =====
-- `S5.data` gives back what `Fs.store_data` wrote: the direct blocks, and those below the single and
-- the double indirect block.
use mame_sys.Base.{ℕ, zero, suc, ◌+◌, ◌-◌, ◌*◌, ◌^◌, ◌≤◌, List, [], ◌∷◌, ◌++◌}
use mame_sys.Base.{length, set, get_or, ◌≡◌, refl, sym, ap, ◌∙◌, inr, arith}
use mame_sys.Base.{append_assoc, ==_ne, replicate-append}
use mame_sys.Base.{replicate, drop, take, length-append, length-drop, length-take, length-replicate}
use mame_sys.Base.{drop-zero, take-append_left}
use native.Mathlib.Nat.{sub-zero}
use mame_sys.Base.Codec.{words}
use mame_sys.Base.Result.{ok, ◌>>=◌}
use mame_sys.Mkfs.{nindir, naddr}
use mame_sys.Mkfs.Blocks.{HoldsAt, HoldsAt-append}
use mame_sys.Mkfs.Store.{fill_front}
use mame_sys.Mkfs.Layout.{range, chunks, tables, Small, take-Small, drop-Small, length-range}
use mame_sys.Mkfs.Layout.{double_layout, double_addr, indirect_layout, indirect_addr, nblk, layout}
use mame_sys.Mkfs.Layout.{layout_addr, length-tables, range-Small, length-chunks}
use mame_sys.Mkfs.Writes.{max_blocks}
use mame_sys.S5.{ind, read_blocks, read_single_at, read_double_at, contents, Entry}
use mame_sys.S5.Reads.{ind-words, read_blocks-chunks, table_reads, read_double-tables}

fill_front-zeros :
    (xs : List ℕ) (k : ℕ)
    → length xs ≤ k
    → fill_front xs (replicate k 0) ≡ xs ++ replicate (k - length xs) 0
unfolding fill_front replicate
fill_front-zeros [] k h = rw sub-zero
fill_front-zeros (x ∷ xs) zero h = absurd (omega arith)
fill_front-zeros (x ∷ xs) (suc k) h =
    let e : suc k - suc (length xs) ≡ k - length xs = omega arith in
    rw e (ap (◌∷◌ x) (fill_front-zeros xs k (omega arith)))

fill_front_direct :
    (t : List ℕ)
    → length t ≤ 10
    → fill_front t (replicate naddr 0) ≡ (t ++ replicate (10 - length t) 0) ++ (0 ∷ 0 ∷ 0 ∷ [])
unfolding replicate
fill_front_direct t h =
    let e : naddr - length t ≡ 10 - length t + 3 = omega arith in
    fill_front-zeros t naddr (omega arith)
    ∙ ap (λ k. t ++ replicate k 0) e
    ∙ ap (λ z. t ++ z) (sym (replicate-append (10 - length t) 3 0))
    ∙ sym (append_assoc t (replicate (10 - length t) 0) (0 ∷ 0 ∷ 0 ∷ []))

get_or-append :
    (xs ys : List ℕ) (i k : ℕ) → k ≡ length xs + i → get_or (xs ++ ys) k 0 ≡ get_or ys i 0
get_or-append [] ys i k e = ap (λ n. get_or ys n 0) (omega arith)
get_or-append (x ∷ xs) ys i zero e = absurd (omega arith)
get_or-append (x ∷ xs) ys i (suc k) e = get_or-append xs ys i k (omega arith)

set-append :
    (xs ys : List ℕ) (i k v : ℕ) → k ≡ length xs + i → set (xs ++ ys) k v ≡ xs ++ set ys i v
set-append [] ys i k v e = ap (λ n. set ys n v) (omega arith)
set-append (x ∷ xs) ys i zero v e = absurd (omega arith)
set-append (x ∷ xs) ys i (suc k) v e = ap (◌∷◌ x) (set-append xs ys i k v (omega arith))

read_single_at-zero : (d : List ℕ) → read_single_at d 0 ≡ ok []
unfolding read_single_at
read_single_at-zero d = refl

read_double_at-zero : (d : List ℕ) → read_double_at d 0 ≡ ok []
unfolding read_double_at
read_double_at-zero d = refl

read_single_at-ind :
    (d : List ℕ) (at : ℕ) {ns : List ℕ}
    → 1 ≤ at
    → ind d at ≡ ok ns
    → read_single_at d at ≡ ok (read_blocks d ns)
unfolding read_single_at
read_single_at-ind d at h e = rw (==_ne at 0 (omega arith), e)

module _ (d first : List ℕ) (ten : length first ≡ 10) where
  contents_parts :
      (e : Entry) (a b c : ℕ) {s t : List ℕ}
      → e.blk ≡ first ++ (a ∷ b ∷ c ∷ [])
      → read_single_at d a ≡ ok s
      → read_double_at d b ≡ ok t
      → contents d e ≡ ok (take e.size (read_blocks d first ++ (s ++ t)))
  unfolding contents
  contents_parts e a b c p q r =
      let tail = a ∷ b ∷ c ∷ [] in
      let e₁ = ap (λ l. get_or l 10 0) p ∙ get_or-append first tail 0 10 (omega arith) in
      let e₂ = ap (λ l. get_or l 11 0) p ∙ get_or-append first tail 1 11 (omega arith) in
      let e₃ = ap (take 10) p ∙ take-append_left 10 first tail (sym ten) in
      rw (e₁, e₂, e₃, q, ◌>>=◌, r)

  double_part :
      (at a : ℕ) (rest : List ℕ)
      → Small rest
      → length rest ≤ nindir * nindir
      → 1 ≤ at
      → at + length (double_layout at rest) ≤ 2 ^ 32
      → HoldsAt d at (double_layout at rest)
      → (b : ℕ) × (junk : List ℕ) × (double_addr at rest (first ++ (a ∷ 0 ∷ 0 ∷ []))
          ≡ first ++ (a ∷ b ∷ 0 ∷ []))
        × (read_double_at d b ≡ ok (read_blocks d rest ++ junk))
  unfolding double_layout double_addr read_double_at
  double_part at a [] small h h₁ h₂ holds = (0, [], refl, unfold read_blocks in refl)
  double_part at a (r ∷ rest) small h h₁ h₂ holds =
      let ts = tables (length (r ∷ rest)) (r ∷ rest) in
      let n = length-tables (length (r ∷ rest)) (r ∷ rest) (omega arith) in
      let names = words (range at (length ts)) in
      let b = at + length ts in
      let (below, top) = HoldsAt-append ts (names ∷ []) d at b holds refl in
      let here =
        ind-words d b (range at (length ts)) (omega arith)
          (range-Small at (length ts) (omega (arith, length-append ts (names ∷ []))))
          (omega (arith, length-range at (length ts))) top.0 in
      let (junk, ih) =
        read_double-tables (length (r ∷ rest)) (r ∷ rest) d at
          (nindir - length (range at (length ts))) (omega arith) small h₁ below in
      (
        b,
        junk,
        set-append first (a ∷ 0 ∷ 0 ∷ []) 1 11 b (omega arith),
        rw (==_ne b 0 (omega arith), here, ◌>>=◌) ih,
      )

  indirect_part :
      (at : ℕ) (rest : List ℕ)
      → Small rest
      → length rest ≤ nindir + nindir * nindir
      → 1 ≤ at
      → at + length (indirect_layout at rest) ≤ 2 ^ 32
      → HoldsAt d at (indirect_layout at rest)
      → (junk : List ℕ) × ((e : Entry)
          → e.blk ≡ indirect_addr at rest (first ++ (0 ∷ 0 ∷ 0 ∷ []))
          → contents d e ≡ ok (take e.size (read_blocks d first ++ (read_blocks d rest ++ junk))))
  unfolding indirect_layout indirect_addr
  indirect_part at [] small h h₁ h₂ holds = (
    [],
    λ e p.
        contents_parts e 0 0 0 p (read_single_at-zero d) (read_double_at-zero d)
        ∙ unfold read_blocks in refl,
  )
  indirect_part at (r ∷ rest) small h h₁ h₂ holds =
      let xs = take nindir (r ∷ rest) in
      let next = drop nindir (r ∷ rest) in
      let (b, junk, addr, double) =
        double_part (at + 1) at next (drop-Small nindir (r ∷ rest) small)
          (omega (arith, length-drop nindir (r ∷ rest))) (omega arith) (omega arith) holds.1 in
      let here =
        ind-words d at xs h₁ (take-Small nindir (r ∷ rest) small)
          (omega (arith, length-take nindir (r ∷ rest))) holds.0 in
      let single = read_single_at-ind d at h₁ here in
      let (junk', all) = table_reads nindir d (r ∷ rest) junk in
      let set_at = set-append first (0 ∷ 0 ∷ 0 ∷ []) 0 10 at (omega arith) in
      (
        junk',
        λ e p.
            contents_parts e at b 0 (p ∙ ap (double_addr (at + 1) next) set_at ∙ addr) single double
            ∙ ap (λ t. ok (take e.size (read_blocks d first ++ t))) all,
      )

-- An image that holds, from a block `lo` other than 0 on, the layout of a file that needs no
-- triple indirection and ends below block 2 ^ 32 gives the file's content back, through an inode
-- with the size of the content and the addresses of the layout.
pub contents-layout :
    (d content : List ℕ) (lo : ℕ) (e : Entry)
    → 1 ≤ lo
    → nblk content ≤ max_blocks
    → lo + length (layout lo content) ≤ 2 ^ 32
    → HoldsAt d lo (layout lo content)
    → e.size ≡ length content
    → e.blk ≡ layout_addr lo content (replicate naddr 0)
    → contents d e ≡ ok content
unfolding layout layout_addr
contents-layout d content lo e h₁ h₂ h₃ holds size addr =
    let n = nblk content in
    let r = range lo n in
    let t = take 10 r in
    let len = length-take 10 r in
    let first = t ++ replicate (10 - length t) 0 in
    let ten : length first ≡ 10 = omega (
      arith,
      length-append t (replicate (10 - length t) 0),
      length-replicate {A = ℕ} (10 - length t) 0,
      len,
    ) in
    let rest = drop 10 r in
    let cs = chunks n 0 content in
    let all = length-append cs (indirect_layout (lo + n) rest) in
    let count = length-chunks n 0 content in
    let (direct, below) =
      HoldsAt-append cs (indirect_layout (lo + n) rest) d lo (lo + n) holds
        (omega (arith, count)) in
    let (pad, chunked) =
      read_blocks-chunks n 0 lo content d h₁ direct (omega arith) (inr (omega arith)) in
    let (junk, indirect) =
      indirect_part d first ten (lo + n) rest
        (drop-Small 10 r (range-Small lo n (omega (arith, count))))
        (omega (arith, length-drop 10 r, length-range lo n)) (omega arith)
        (omega (arith, all, count)) below in
    let (junk', whole) = table_reads 10 d r junk in
    let front : fill_front t (replicate naddr 0) ≡ first ++ (0 ∷ 0 ∷ 0 ∷ []) =
      fill_front_direct t (omega (arith, len)) in
    indirect e (addr ∙ ap (indirect_addr (lo + n) rest) front)
    ∙ ap ok (
        ap (take e.size) (
          whole
          ∙ ap (λ x. x ++ junk') (chunked ∙ ap (λ x. x ++ pad) (drop-zero content))
          ∙ append_assoc content pad junk')
        ∙ take-append_left e.size content (pad ++ junk') size)
