-- ===== src/S5/Reads.antt =====
-- What the reader of `S5` gets back from blocks that hold words and chunks.
use mame_sys.Base.{ℕ, zero, suc, ◌+◌, ◌-◌, ◌*◌, ◌^◌, ◌≤◌, ◌<◌, List, [], ◌∷◌, ◌++◌, All}
use mame_sys.Base.{length, ◌≡◌, refl, sym, ap, ◌∙◌, ◌⊎◌, inl, inr, arith}
use mame_sys.Base.{append-nil, append_assoc}
use mame_sys.Base.{
  replicate, drop, take, slice, slice_lem, length-append, length-drop, length-take, length-slice,
}
use mame_sys.Base.{le→leb, ==_ne, take-append-drop}
use mame_sys.Base.{
  drop-drop, take_all, drop_all, drop-zero, take-append_left, drop-append_left, length-replicate,
}
use mame_sys.Base.Codec.{words, length-words, le, length-le, from_le-le, unpack}
use mame_sys.Base.Result.{ok, ◌>>=◌}
use mame_sys.Mkfs.{bsize, nindir}
use mame_sys.Mkfs.Blocks.{block, padded, HoldsAt}
use mame_sys.Mkfs.Layout.{range, chunks, tables, Small, take-Small, drop-Small}
use mame_sys.S5.{blk, unpack_words, ind, read_blocks, read_double}

blk-block : (d : List ℕ) (n : ℕ) → 1 ≤ n → blk d n ≡ block d n
unfolding blk
blk-block d n h = rw (==_ne n 0 (omega arith))

unpack-le :
    (x : ℕ) (rest b : List ℕ) (i : ℕ) → x < 2 ^ 32 → drop i b ≡ le 4 x ++ rest → unpack 4 b i ≡ ok x
unfolding unpack
unpack-le x rest b i h e =
    let n : length b - i ≡ 4 + length rest =
      omega
        (arith, sym (length-drop i b) ∙ ap length e, length-append (le 4 x) rest, length-le 4 x) in
    rw
      (
        le→leb (i + 4) (length b) (omega arith),
        slice_lem b i 4,
        e,
        take-append_left 4 (le 4 x) rest (sym (length-le 4 x)),
      )
      (ap ok (from_le-le 4 x h))

unpack_words-words :
    (xs : List ℕ) (b : List ℕ) (i : ℕ)
    → Small xs
    → drop i b ≡ words xs
    → unpack_words (length xs) b i ≡ ok xs
unfolding unpack_words words
unpack_words-words [] b i small e = refl
unpack_words-words (x ∷ xs) b i small e =
    let next : drop (i + 4) b ≡ words xs =
      sym (drop-drop 4 i b)
      ∙ ap (drop 4) e
      ∙ drop-append_left 4 (le 4 x) (words xs) (sym (length-le 4 x)) in
    rw (unpack-le x (words xs) b i small.0 e, ◌>>=◌, unpack_words-words xs b (i + 4) small.1 next)

words-append : (xs ys : List ℕ) → words (xs ++ ys) ≡ words xs ++ words ys
unfolding words
words-append [] ys = refl
words-append (x ∷ xs) ys =
    ap (λ t. le 4 x ++ t) (words-append xs ys) ∙ sym (append_assoc (le 4 x) (words xs) (words ys))

words-replicate : (n : ℕ) → words (replicate n 0) ≡ replicate (n * 4) 0
unfolding words replicate le
words-replicate zero = refl
words-replicate (suc n) =
    let e : suc n * 4 ≡ suc (suc (suc (suc (n * 4)))) = omega arith in
    rw e (ap (λ t. 0 ∷ 0 ∷ 0 ∷ 0 ∷ t) (words-replicate n))

Small-zeros : (n : ℕ) → Small (replicate n 0)
unfolding replicate
Small-zeros zero = tt
Small-zeros (suc n) = (omega arith, Small-zeros n)

All-append {κ} : (P : ℕ → Type κ) (xs ys : List ℕ) → All P xs → All P ys → All P (xs ++ ys)
All-append P [] ys h k = k
All-append P (x ∷ xs) ys h k = (h.0, All-append P xs ys h.1 k)

-- A block of words reads back as these words, with zeros up to 256.
pub ind-words :
    (d : List ℕ) (n : ℕ) (xs : List ℕ)
    → 1 ≤ n
    → Small xs
    → length xs ≤ nindir
    → block d n ≡ padded (words xs)
    → ind d n ≡ ok (xs ++ replicate (nindir - length xs) 0)
unfolding ind
ind-words d n xs h small hx e =
    let ws = xs ++ replicate (nindir - length xs) 0 in
    let zeros : bsize - length (words xs) ≡ (nindir - length xs) * 4 =
      omega (arith, length-words xs) in
    let count : length ws ≡ 256 = omega (
      arith,
      length-append xs (replicate (nindir - length xs) 0),
      length-replicate {A = ℕ} (nindir - length xs) 0,
    ) in
    let bytes : blk d n ≡ words ws =
      blk-block d n h
      ∙ e
      ∙ rw (zeros, ← words-replicate (nindir - length xs)) (sym (words-append xs _)) in
    let all : Small ws = All-append _ xs _ small (Small-zeros _) in
    ap (λ k. unpack_words k (blk d n) 0) (sym count)
    ∙ unpack_words-words ws (blk d n) 0 all (drop-zero (blk d n) ∙ bytes)

pub read_blocks-append :
    (d xs ys : List ℕ) → read_blocks d (xs ++ ys) ≡ read_blocks d xs ++ read_blocks d ys
unfolding read_blocks
read_blocks-append d [] ys = refl
read_blocks-append d (x ∷ xs) ys =
    ap (λ t. blk d x ++ t) (read_blocks-append d xs ys)
    ∙ sym (append_assoc (blk d x) (read_blocks d xs) (read_blocks d ys))

-- Chunk by chunk, the blocks give the content from byte `i * bsize` on, and then zeros.
pub read_blocks-chunks :
    (n i lo : ℕ) (content d : List ℕ)
    → 1 ≤ lo
    → HoldsAt d lo (chunks n i content)
    → length content ≤ (i + n) * bsize
    → (n ≡ 0) ⊎ ((i + n) * bsize < length content + bsize)
    → (pad : List ℕ) × (read_blocks d (range lo n) ≡ drop (i * bsize) content ++ pad)
unfolding read_blocks range chunks replicate
read_blocks-chunks zero i lo content d h holds enough tight =
    ([], rw (drop_all (i * bsize) content (omega arith)))
read_blocks-chunks (suc zero) i lo content d h holds enough tight =
    let chunk = slice content (i * bsize) bsize in
    let all : chunk ≡ drop (i * bsize) content =
      slice_lem content (i * bsize) bsize
      ∙ take_all bsize (drop (i * bsize) content)
          (omega (arith, length-drop (i * bsize) content)) in
    (
      replicate (bsize - length chunk) 0,
      append-nil (blk d lo)
          ∙ blk-block d lo h
          ∙ holds.0
          ∙ ap (λ t. t ++ replicate (bsize - length chunk) 0) all,
    )
read_blocks-chunks (suc (suc n)) i lo content d h holds enough tight =
    let chunk = slice content (i * bsize) bsize in
    let full : bsize - length chunk ≡ 0 = grind (arith, length-slice content (i * bsize) bsize) in
    let (pad, ih) =
      read_blocks-chunks (suc n) (i + 1) (lo + 1) content d (omega arith) holds.1 (omega arith)
        (grind arith) in
    let rest = drop ((i + 1) * bsize) content in
    let next : drop bsize (drop (i * bsize) content) ≡ rest =
      drop-drop bsize (i * bsize) content ∙ ap (λ k. drop k content) (omega arith) in
    let whole : chunk ++ rest ≡ drop (i * bsize) content =
      ap (λ t. chunk ++ t) (sym next)
      ∙ rw slice_lem (take-append-drop bsize (drop (i * bsize) content)) in
    (
      pad,
      ap (λ t. blk d lo ++ t) ih
          ∙ ap (λ t. t ++ (rest ++ pad))
              (blk-block d lo h ∙ holds.0 ∙ rw (full, replicate) (append-nil chunk))
          ∙ sym (append_assoc chunk rest pad)
          ∙ ap (λ t. t ++ pad) whole,
    )

-- A table that is not full stands at the end, so reading one block of words after the other gives
-- all that the words name, and then more.
pub table_reads :
    (m : ℕ) (d r junk : List ℕ)
    → (junk' : List ℕ) × (read_blocks d (take m r ++ replicate (m - length (take m r)) 0)
          ++ (read_blocks d (drop m r) ++ junk)
        ≡ read_blocks d r ++ junk')
unfolding replicate
table_reads m d r junk = elim (sides m (length r)) [
  | inl short ↦
      let zeros = replicate (m - length (take m r)) 0 in
      (
        read_blocks d zeros ++ (read_blocks d (drop m r) ++ junk),
        ap (λ t. t ++ (read_blocks d (drop m r) ++ junk)) (read_blocks-append d (take m r) zeros)
            ∙ append_assoc (read_blocks d (take m r)) (read_blocks d zeros) _
            ∙ ap
                (λ t.
                  read_blocks d t ++ (read_blocks d zeros ++ (read_blocks d (drop m r) ++ junk)))
                (take_all m r short),
      )
  | inr long ↦
      let none_left : m - length (take m r) ≡ 0 = omega (arith, length-take m r) in
      (
        junk,
        rw (
          none_left,
          replicate,
          append-nil,
          ← append_assoc,
          ← read_blocks-append,
          take-append-drop,
        ),
      )
]
  where
    sides : (m n : ℕ) → (n ≤ m) ⊎ (m ≤ n)
    sides m n = grind arith

-- All the tables under a double indirect block, in which zeros may follow them.
pub read_double-tables :
    (fuel : ℕ) (rest d : List ℕ) (at k : ℕ)
    → length rest ≤ fuel
    → Small rest
    → 1 ≤ at
    → HoldsAt d at (tables fuel rest)
    → (junk : List ℕ) × (read_double d (range at (length (tables fuel rest)) ++ replicate k 0)
        ≡ ok (read_blocks d rest ++ junk))
unfolding read_double tables range replicate read_blocks
read_double-tables fuel [] d at zero h small h₁ holds = ([], refl)
read_double-tables fuel [] d at (suc k) h small h₁ holds = ([], refl)
read_double-tables zero (r ∷ rest) d at k h small h₁ holds = absurd (omega arith)
read_double-tables (suc fuel) (r ∷ rest) d at k h small h₁ holds =
    let xs = take nindir (r ∷ rest) in
    let next = drop nindir (r ∷ rest) in
    let (junk, ih) =
      read_double-tables fuel next d (at + 1) k (omega (arith, length-drop nindir (r ∷ rest)))
        (drop-Small nindir (r ∷ rest) small) (omega arith) holds.1 in
    let (junk', all) = table_reads nindir d (r ∷ rest) junk in
    let here =
      ind-words d at xs h₁ (take-Small nindir (r ∷ rest) small)
        (omega (arith, length-take nindir (r ∷ rest))) holds.0 in
    (junk', rw (==_ne at 0 (omega arith), here, ◌>>=◌, ih) (ap ok all))
