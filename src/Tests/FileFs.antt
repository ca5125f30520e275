-- ===== src/Tests/FileFs.antt =====
-- A file system of six blocks that holds one file.
use mame_sys.Base.{ℕ, ◌-◌, ◌*◌, ◌≤◌, ◌<◌, List, [], ◌∷◌, ◌++◌, length, none, some}
use mame_sys.Base.{◌≡◌, refl, sym, ap, ◌∙◌, arith, replicate, take, drop, slice, slice_lem}
use mame_sys.Base.{
  length-append, length-replicate, drop-append_left, take-append_left, append_assoc, drop-append,
  drop-replicate, take-replicate, drop_all, Bool-cases, inl, inr, ◌==◌,
}
use mame_sys.Mkfs.{Fs, Inode, bsize, update}
use mame_sys.Mkfs.Blocks.{block, IsValid}
use mame_sys.Mkfs.Layout.{layout, layout_addr, chunks, range, indirect_layout, indirect_addr}
use mame_sys.Mkfs.Store.{fill_front}
use mame_sys.Mkfs.Files.{HasFile}
use mame_sys.Mkfs.Finish.Image.{IsLaidOut}
use mame_sys.Mkfs.Finish.Total.{FsFits, InodeFits}

abbrev pub hello : List ℕ
hello = 104 ∷ 105 ∷ 10 ∷ []

abbrev pub fresh_inode : Inode
fresh_inode = record {
  num = 2;
  mode = 0o100644;
  nlink = 1;
  uid = 0;
  gid = 0;
  size = 0;
  addr = replicate 13 0;
}

abbrev pub hello_inode : Inode
hello_inode = record fresh_inode { size = 3; addr = layout_addr 3 hello (replicate 13 0) }

-- Block 3 of six holds the file.
abbrev pub file_fs : Fs
file_fs = record {
  nblocks = 6;
  iblocks = 1;
  first_data = 3;
  ninodes = 16;
  image = replicate 3072 0 ++ ((hello ++ replicate 1021 0) ++ replicate 2048 0);
  next_block = 4;
  inodes = update (λ n. none) 2 hello_inode;
  next_ino = 3;
  now = 0;
  nfree = 0;
  free = [];
  tfree = 0;
}

pub length-file_fs : length file_fs.image ≡ 6 * bsize
length-file_fs = omega (
  arith,
  length-append (replicate 3072 0) ((hello ++ replicate 1021 0) ++ replicate 2048 0),
  length-append (hello ++ replicate 1021 0) (replicate 2048 0),
  length-append hello (replicate 1021 0),
  length-replicate {A = ℕ} 3072 0,
  length-replicate {A = ℕ} 1021 0,
  length-replicate {A = ℕ} 2048 0,
)

block_three : block file_fs.image 3 ≡ hello ++ replicate 1021 0
block_three =
    slice_lem file_fs.image 3072 1024
    ∙ ap (take 1024) (
        drop-append_left 3072 (replicate 3072 0) ((hello ++ replicate 1021 0) ++ replicate 2048 0)
          (sym (length-replicate {A = ℕ} 3072 0)))
    ∙ take-append_left 1024 (hello ++ replicate 1021 0) (replicate 2048 0)
        (omega (arith, length-append hello (replicate 1021 0), length-replicate {A = ℕ} 1021 0))

pub file_fs-HasFile : HasFile file_fs 2 3 hello_inode hello
unfolding layout chunks indirect_layout range take drop slice
file_fs-HasFile = record {
  used = refl;
  size = refl;
  addr = refl;
  bounded = omega arith;
  above = omega arith;
  below = omega arith;
  holds = (block_three, tt);
}

update-only : (i : Inode) (n : ℕ) (ino : Inode) → update (λ n. none) 2 i n ≡ some ino → i ≡ ino
update-only i n ino e = elim (Bool-cases (n == 2)) [
  | inl two ↦ let h : some i ≡ some ino = rw two at e in cc
  | inr other ↦ let h : none ≡ some ino = rw other at e in absurd (cc)
]

hello_inode-length : length hello_inode.addr ≡ 13
unfolding layout_addr indirect_addr fill_front replicate range take drop
hello_inode-length = refl

file_fs-addressed : (n : ℕ) (ino : Inode) → file_fs.inodes n ≡ some ino → length ino.addr ≡ 13
file_fs-addressed n ino e = rw (← update-only hello_inode n ino e) hello_inode-length

file_fs-fits : (n : ℕ) (ino : Inode) → file_fs.inodes n ≡ some ino → InodeFits ino
file_fs-fits n ino e = rw (← update-only hello_inode n ino e) (record {
  mode = omega arith;
  nlink = omega arith;
  uid = omega arith;
  gid = omega arith;
  size = omega arith;
})

pub file_fs-IsLaidOut : IsLaidOut file_fs
file_fs-IsLaidOut = record {
  sized = length-file_fs;
  table = refl;
  slots = refl;
  data_blocks = omega arith;
  within = omega arith;
  small = omega arith;
  addressed = file_fs-addressed;
}

pub file_fs-FsFits : FsFits file_fs
file_fs-FsFits = record {
  inodes = file_fs-fits;
  time = omega arith;
  table = omega arith;
  numbers = omega arith;
  used = omega arith;
  started = omega arith;
}

later_block : (b : ℕ) → 4 ≤ b → b < 6 → block file_fs.image b ≡ replicate 1024 0
later_block b lo hi =
    let front = replicate 3072 0 ++ (hello ++ replicate 1021 0) in
    let size : length front ≡ 4096 = omega (
      arith,
      length-append (replicate 3072 0) (hello ++ replicate 1021 0),
      length-append hello (replicate 1021 0),
      length-replicate {A = ℕ} 3072 0,
      length-replicate {A = ℕ} 1021 0,
    ) in
    slice_lem file_fs.image (b * 1024) 1024
    ∙ ap (λ l. take 1024 (drop (b * 1024) l))
        (sym (append_assoc (replicate 3072 0) (hello ++ replicate 1021 0) (replicate 2048 0)))
    ∙ ap (take 1024) (
        drop-append (b * 1024) front (replicate 2048 0)
        ∙ ap (λ l. l ++ drop (b * 1024 - length front) (replicate 2048 0))
            (drop_all (b * 1024) front (omega arith))
        ∙ drop-replicate {A = ℕ} (b * 1024 - length front) 2048 0)
    ∙ take-replicate {A = ℕ} 1024 (2048 - (b * 1024 - length front)) 0 (omega arith)

pub file_fs-IsValid : IsValid file_fs
file_fs-IsValid = record {
  sized = length-file_fs;
  room = omega arith;
  fresh = λ b lo hi. later_block b lo hi;
}
