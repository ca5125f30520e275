-- ===== src/Mkfs/Main/Header.antt =====
-- The disk header over the boot block leaves all that the reader looks at.
use mame_sys.Base.{ℕ, ◌+◌, ◌-◌, ◌*◌, ◌≤◌, List, [], ◌∷◌, ◌++◌, length, ◌==◌, Bool-cases, inl, inr}
use mame_sys.Base.{
  ◌≡◌, refl, sym, ap, ap₂, ◌∙◌, arith, splice, slice-splice_above, length-splice, get_or, take,
  if◌then◌else◌, splice_lem, take-zero, take-append_left, drop,
}
use mame_sys.Base.Codec.{unpack}
use mame_sys.Base.Result.{ok, >>=-cong}
use mame_sys.Mkdisk.{default, key, name_or, layout}
use mame_sys.Mkdisk.Header.{IsDisktab, disktab-IsDisktab}
use mame_sys.Mkfs.Main.{with_disktab}
use mame_sys.S5.{
  Entry, bs, inode, blk, ind, read_blocks, read_double, read_single_at, read_double_at, contents,
  readdir,
}

module _ (d b : List ℕ) (short : length b ≤ 512) (room : 1024 ≤ length d) where
  blk-splice : (n : ℕ) → blk (splice d 0 b) n ≡ blk d n
  unfolding blk
  blk-splice n = elim (Bool-cases (n == 0)) [
    | inl e ↦ rw e refl
    | inr e ↦ rw e (slice-splice_above d 0 b (n * bs) bs (omega arith) (ground arith))
  ]

  ind-splice : (n : ℕ) → ind (splice d 0 b) n ≡ ind d n
  unfolding ind
  ind-splice n = rw (blk-splice n) refl

  read_blocks-splice : (ns : List ℕ) → read_blocks (splice d 0 b) ns ≡ read_blocks d ns
  unfolding read_blocks
  read_blocks-splice [] = refl
  read_blocks-splice (n ∷ ns) = ap₂ (◌++◌) (blk-splice n) (read_blocks-splice ns)

  read_double-splice : (ms : List ℕ) → read_double (splice d 0 b) ms ≡ read_double d ms
  unfolding read_double
  read_double-splice [] = refl
  read_double-splice (m ∷ ms) =
      ap (λ r. if m == 0 then ok [] else r)
        (>>=-cong (ind-splice m) (λ ns.
          >>=-cong (read_double-splice ms)
            (λ more. ap (λ l. ok (l ++ more)) (read_blocks-splice ns))))

  read_single_at-splice : (n : ℕ) → read_single_at (splice d 0 b) n ≡ read_single_at d n
  unfolding read_single_at
  read_single_at-splice n =
      ap (λ r. if n == 0 then ok [] else r)
        (>>=-cong (ind-splice n) (λ ns. ap ok (read_blocks-splice ns)))

  read_double_at-splice : (n : ℕ) → read_double_at (splice d 0 b) n ≡ read_double_at d n
  unfolding read_double_at
  read_double_at-splice n =
      ap (λ r. if n == 0 then ok [] else r) (>>=-cong (ind-splice n) read_double-splice)

  contents-splice : (i : Entry) → contents (splice d 0 b) i ≡ contents d i
  unfolding contents
  contents-splice i = >>=-cong (read_single_at-splice (get_or i.blk 10 0)) (λ single.
      >>=-cong (read_double_at-splice (get_or i.blk 11 0)) (λ double.
        ap (λ l. ok (take i.size (l ++ (single ++ double)))) (read_blocks-splice (take 10 i.blk))))

  inode-splice : (n : ℕ) → inode (splice d 0 b) n ≡ inode d n
  unfolding inode
  inode-splice n =
      rw (slice-splice_above d 0 b (2 * bs + n * 64 - 64) 64 (omega arith) (omega arith)) refl

  readdir-splice : (n : ℕ) → readdir (splice d 0 b) n ≡ readdir d n
  unfolding readdir
  readdir-splice n = >>=-cong (inode-splice n) (λ i. >>=-cong (contents-splice i) (λ bytes. refl))

  unpack-splice : (w off : ℕ) → 512 ≤ off → unpack w (splice d 0 b) off ≡ unpack w d off
  unfolding unpack
  unpack-splice w off h =
      rw
        (
          length-splice d 0 b (omega arith),
          slice-splice_above d 0 b off w (omega arith) (omega arith),
        )
        refl

-- Two images between which the reader tells no difference: it reads the same superblock fields, the same
-- inodes, contents and directories.
pub record ReadsSame (d d' : List ℕ) : Type 0 where
  pub sized : length d' ≡ length d
  pub isize : unpack 2 d' 512 ≡ unpack 2 d 512
  pub fsize : unpack 4 d' 516 ≡ unpack 4 d 516
  pub inodes : (n : ℕ) → inode d' n ≡ inode d n
  pub files : (i : Entry) → contents d' i ≡ contents d i
  pub dirs : (n : ℕ) → readdir d' n ≡ readdir d n

-- The disk header can be laid over any image of at least one block. It reads back at the start of the
-- image as the default drive's, and the reader of the file system finds what it found before.
pub with_disktab-ReadsSame :
    (d : List ℕ)
    → 1024 ≤ length d
    → (d' : List ℕ) × (with_disktab d ≡ ok d')
      × ReadsSame d d'
      × IsDisktab (take 92 d') (layout default) (key default)
unfolding with_disktab name_or
with_disktab-ReadsSame d room =
    let (b, made, header) = disktab-IsDisktab default [] in
    let size = header.sized in
    let start : take 92 (splice d 0 b) ≡ b =
      ap (take 92) (splice_lem d 0 b ∙ ap (λ l. l ++ (b ++ drop (0 + length b) d)) (take-zero d))
      ∙ take-append_left 92 b (drop (0 + length b) d) (sym size) in
    (
      splice d 0 b,
      rw made refl,
      record {
        sized = length-splice d 0 b (omega arith);
        isize = unpack-splice d b (omega arith) room 2 512 (omega arith);
        fsize = unpack-splice d b (omega arith) room 4 516 (omega arith);
        inodes = inode-splice d b (omega arith) room;
        files = contents-splice d b (omega arith) room;
        dirs = readdir-splice d b (omega arith) room;
      },
      rw start header,
    )
