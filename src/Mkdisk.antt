-- ===== src/Mkdisk.antt =====
-- tools/mkdisk.py: the drive types, the partitions of a pack, and the header in its first sector.
pub mod Partitions
pub mod Header
use mame_sys.Base.{ℕ, ◌+◌, ◌-◌, ◌*◌, ◌/◌, max, List, [], ◌∷◌, ◌++◌, replicate, take, length, ◌==◌}
use mame_sys.Base.Codec.{pack, pack_signed}
use mame_sys.Base.Result.{Result, ok, assertion_error, guard, ◌>>=◌, ◌>>◌}

abbrev pub sector : ℕ
sector = 512

abbrev pub dmagic : ℕ
dmagic = 0x6d737000

-- The keys of `DRIVES`.
pub data Drive : Type 0 where
  basf20 : Drive
  three_m20 : Drive
  three_m60 : Drive
  imi20 : Drive
  imi60 : Drive
  priam70 : Drive

abbrev pub default : Drive
default = priam70

pub record Shape : Type 0 where
  pub nsec : ℕ
  pub ntr : ℕ
  pub ncyl : ℕ
  pub ploz : ℕ
  pub plonz : ℕ

abbrev shape_of : ℕ → ℕ → ℕ → ℕ → ℕ → Shape
shape_of nsec ntr ncyl ploz plonz = record {
  nsec = nsec;
  ntr = ntr;
  ncyl = ncyl;
  ploz = ploz;
  plonz = plonz;
}

unfoldable pub drives : Drive → Shape
drives basf20 = shape_of 24 3 614 11 17
drives three_m20 = shape_of 30 4 280 29 57
drives three_m60 = shape_of 32 4 838 9 21
drives imi20 = shape_of 18 5 388 29 61
drives imi60 = shape_of 18 7 776 29 61
drives priam70 = shape_of 22 5 1049 23 73

-- The key as text.
unfoldable pub key : Drive → List ℕ
key basf20 = b'b' ∷ b'a' ∷ b's' ∷ b'f' ∷ b'2' ∷ b'0' ∷ []
key three_m20 = b'3' ∷ b'm' ∷ b'2' ∷ b'0' ∷ []
key three_m60 = b'3' ∷ b'm' ∷ b'6' ∷ b'0' ∷ []
key imi20 = b'i' ∷ b'm' ∷ b'i' ∷ b'2' ∷ b'0' ∷ []
key imi60 = b'i' ∷ b'm' ∷ b'i' ∷ b'6' ∷ b'0' ∷ []
key priam70 = b'p' ∷ b'r' ∷ b'i' ∷ b'a' ∷ b'm' ∷ b'7' ∷ b'0' ∷ []

-- A partition: its sectors, and the cylinder that it starts at.
pub record Partition : Type 0 where
  pub nbl : ℕ
  pub cyloff : ℕ

abbrev partition : ℕ → ℕ → Partition
partition nbl cyloff = record { nbl = nbl; cyloff = cyloff }

pub record Layout : Type 0 where
  pub nsec : ℕ
  pub ntr : ℕ
  pub ncyl : ℕ
  pub spcyl : ℕ
  pub spunit : ℕ
  pub ploz : ℕ
  pub plonz : ℕ
  pub part : List Partition

unfoldable pub swap_cyls : ℕ → ℕ
swap_cyls spcyl = max 46 ((5040 + spcyl - 1) / spcyl + 1)

-- `layout`, on the row of `DRIVES` for the drive. Every drive has more cylinders than the swap takes,
-- so the subtraction does not stop at 0.
unfoldable pub layout_of : Shape → Layout
layout_of s =
    let spcyl = s.nsec * s.ntr in
    let spunit = spcyl * s.ncyl in
    let swap = swap_cyls spcyl in
    let root = s.ncyl - swap in
    record {
      nsec = s.nsec;
      ntr = s.ntr;
      ncyl = s.ncyl;
      spcyl = spcyl;
      spunit = spunit;
      ploz = s.ploz;
      plonz = s.plonz;
      part =
          partition (root * spcyl) 0
          ∷ partition (swap * spcyl) root
          ∷ partition (root * spcyl) 0
          ∷ partition (swap * spcyl) root
          ∷ partition spunit 0
          ∷ partition 0 0
          ∷ partition 0 0
          ∷ partition 0 0
          ∷ [];
    }

unfoldable pub layout : Drive → Layout
layout drive = layout_of (drives drive)

unfoldable pub pack_parts : List Partition → Result (List ℕ)
pack_parts [] = ok []
pack_parts (p ∷ ps) = do
  nbl ← pack_signed 4 p.nbl
  cyloff ← pack_signed 4 p.cyloff
  rest ← pack_parts ps
  ok (nbl ++ (cyloff ++ rest))

-- `name or drive`: an empty name stands for the drive's.
unfoldable pub name_or : List ℕ → List ℕ → List ℕ
name_or [] other = other
name_or (c ∷ cs) other = c ∷ cs

-- `disktab(drive, name)`, the name as its bytes.
unfoldable pub disktab : Drive → List ℕ → Result (List ℕ)
disktab drive name = do
  let l = layout drive
  magic ← pack 4 dmagic
  ploz ← pack_signed 2 l.ploz
  plonz ← pack_signed 2 l.plonz
  nsec ← pack_signed 2 l.nsec
  ntr ← pack_signed 2 l.ntr
  ncyl ← pack_signed 2 l.ncyl
  spcyl ← pack_signed 2 l.spcyl
  spunit ← pack 4 l.spunit
  parts ← pack_parts l.part
  let text = take 8 (name_or name (key drive))
  let fields = magic ++ (ploz ++ (plonz ++ (nsec ++ (ntr ++ (ncyl ++ (spcyl ++ spunit))))))
  let b = fields ++ (parts ++ (text ++ replicate (8 - length text) 0))
  guard (length b == 92) assertion_error
  ok b

unfoldable pub first_nbl : List Partition → ℕ
first_nbl [] = 0
first_nbl (p ∷ ps) = p.nbl

-- The size of the first partition in blocks of 1024 bytes.
unfoldable pub root_blocks : Drive → ℕ
root_blocks drive = first_nbl (layout drive).part / 2
