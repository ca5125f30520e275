-- ===== src/Mkdisk/Partitions.antt =====
-- The partitions that `layout` of tools/mkdisk.py puts on every drive.
use mame_sys.Base.{ℕ, ◌+◌, ◌*◌, ◌≤◌, ◌<◌, [], ◌∷◌, ◌≡◌, refl, arith}
use mame_sys.Mkdisk.{Drive, Layout, Partition, sector, drives, swap_cyls, layout_of, layout}
use mame_sys.Mkdisk.{basf20, three_m20, three_m60, imi20, imi60, priam70, first_nbl, root_blocks}

-- Partitions 0 and 1 share the pack: the root lies in front, the swap begins on the cylinder behind
-- it and ends with the pack. Partitions 2 and 3 repeat them, 4 is the whole pack, and the others are
-- empty. `blocks` is the size of a file system on partition 0, in blocks of 1024 bytes.
pub record IsSplit (l : Layout) (blocks : ℕ) : Type 0 where
  pub root : Partition
  pub swap : Partition
  pub all : Partition
  pub empty : Partition
  pub parts : l.part ≡ root ∷ swap ∷ root ∷ swap ∷ all ∷ empty ∷ empty ∷ empty ∷ []
  pub root_first : root.cyloff ≡ 0
  pub swap_behind : swap.cyloff * l.spcyl ≡ root.nbl
  pub to_the_end : swap.cyloff * l.spcyl + swap.nbl ≡ l.spunit
  pub swap_room : 5040 ≤ swap.nbl
  pub whole : all.nbl ≡ l.ncyl * l.ntr * l.nsec
  pub nothing : empty.nbl ≡ 0
  pub root_holds : blocks * 1024 ≤ root.nbl * sector
  pub no_more : root.nbl * sector < (blocks + 1) * 1024

-- Every drive type is divided as `IsSplit` says: the root and the swap do not overlap and fill the
-- pack, the swap has room for 5040 sectors, and `root_blocks` is the number of whole blocks in the root.
pub layout-IsSplit : (drive : Drive) → IsSplit (layout drive) (root_blocks drive)
unfolding layout layout_of drives swap_cyls root_blocks first_nbl
layout-IsSplit basf20 = record {
  root = _;
  swap = _;
  all = _;
  empty = _;
  parts = refl;
  root_first = refl;
  swap_behind = refl;
  to_the_end = refl;
  swap_room = omega arith;
  whole = refl;
  nothing = refl;
  root_holds = omega arith;
  no_more = omega arith;
}
layout-IsSplit three_m20 = record {
  root = _;
  swap = _;
  all = _;
  empty = _;
  parts = refl;
  root_first = refl;
  swap_behind = refl;
  to_the_end = refl;
  swap_room = omega arith;
  whole = refl;
  nothing = refl;
  root_holds = omega arith;
  no_more = omega arith;
}
layout-IsSplit three_m60 = record {
  root = _;
  swap = _;
  all = _;
  empty = _;
  parts = refl;
  root_first = refl;
  swap_behind = refl;
  to_the_end = refl;
  swap_room = omega arith;
  whole = refl;
  nothing = refl;
  root_holds = omega arith;
  no_more = omega arith;
}
layout-IsSplit imi20 = record {
  root = _;
  swap = _;
  all = _;
  empty = _;
  parts = refl;
  root_first = refl;
  swap_behind = refl;
  to_the_end = refl;
  swap_room = omega arith;
  whole = refl;
  nothing = refl;
  root_holds = omega arith;
  no_more = omega arith;
}
layout-IsSplit imi60 = record {
  root = _;
  swap = _;
  all = _;
  empty = _;
  parts = refl;
  root_first = refl;
  swap_behind = refl;
  to_the_end = refl;
  swap_room = omega arith;
  whole = refl;
  nothing = refl;
  root_holds = omega arith;
  no_more = omega arith;
}
layout-IsSplit priam70 = record {
  root = _;
  swap = _;
  all = _;
  empty = _;
  parts = refl;
  root_first = refl;
  swap_behind = refl;
  to_the_end = refl;
  swap_room = omega arith;
  whole = refl;
  nothing = refl;
  root_holds = omega arith;
  no_more = omega arith;
}
