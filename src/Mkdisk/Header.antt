-- ===== src/Mkdisk/Header.antt =====
-- The header that `disktab` of tools/mkdisk.py makes, read at the offsets of `struct disktab`.
use mame_sys.Base.{ℕ, ◌+◌, ◌-◌, List, [], ◌∷◌, ◌++◌, ◌≡◌, refl, arith}
use mame_sys.Base.{
  length, take, drop, replicate, slice, length-take, length-append, length-replicate,
}
use mame_sys.Base.Codec.{unpack, pack, pack_signed, le, from_le}
use mame_sys.Base.Result.{ok}
use mame_sys.Mkdisk.{Drive, Layout, Partition, drives, swap_cyls, layout_of, layout, disktab}
use mame_sys.Mkdisk.{basf20, three_m20, three_m60, imi20, imi60, priam70, key, name_or, pack_parts}

-- `s[:8].ljust(8, b'\0')`
abbrev pub ljust8 : List ℕ → List ℕ
ljust8 name = take 8 name ++ replicate (8 - length (take 8 name)) 0

length-ljust8 : (name : List ℕ) → length (ljust8 name) ≡ 8
length-ljust8 name = omega (
  arith,
  length-append (take 8 name) (replicate (8 - length (take 8 name)) 0),
  length-replicate {A = ℕ} (8 - length (take 8 name)) 0,
  length-take 8 name,
)

-- The partitions of a list stand at `off`, 8 bytes each.
abbrev pub HasParts : List ℕ → ℕ → List Partition → Type 0
HasParts b off [] = Unit
HasParts b off (p ∷ ps) =
    (from_le (slice b off 4) ≡ p.nbl)
    × (from_le (slice b (off + 4) 4) ≡ p.cyloff)
    × HasParts b (off + 8) ps

pub record IsDisktab (b : List ℕ) (l : Layout) (name : List ℕ) : Type 0 where
  pub sized : length b ≡ 92
  pub dt_magic : unpack 4 b 0 ≡ ok 0x6d737000
  pub dt_ploz : unpack 2 b 4 ≡ ok l.ploz
  pub dt_plonz : unpack 2 b 6 ≡ ok l.plonz
  pub dt_nsec : unpack 2 b 8 ≡ ok l.nsec
  pub dt_ntr : unpack 2 b 10 ≡ ok l.ntr
  pub dt_ncyl : unpack 2 b 12 ≡ ok l.ncyl
  pub dt_spcyl : unpack 2 b 14 ≡ ok l.spcyl
  pub dt_spunit : unpack 4 b 16 ≡ ok l.spunit
  pub dt_part : HasParts b 20 l.part
  pub dt_name : drop 84 b ≡ ljust8 name

-- For every drive and every name `disktab` ends without an exception, its assertion included, in 92
-- bytes that read back, at the offsets of `struct disktab`, as the drive's layout and as the name (the
-- drive's own for an empty one) cut or padded to 8 bytes.
pub disktab-IsDisktab :
    (drive : Drive) (name : List ℕ)
    → (b : List ℕ) × (disktab drive name ≡ ok b)
      × IsDisktab b (layout drive) (name_or name (key drive))
unfolding disktab layout layout_of drives swap_cyls pack_parts pack pack_signed le unpack slice
    from_le take drop
disktab-IsDisktab basf20 name =
    let sized = length-ljust8 (name_or name (key basf20)) in
    rw sized (
      _,
      refl,
      record {
        sized = rw sized refl;
        dt_magic = rw sized refl;
        dt_ploz = rw sized refl;
        dt_plonz = rw sized refl;
        dt_nsec = rw sized refl;
        dt_ntr = rw sized refl;
        dt_ncyl = rw sized refl;
        dt_spcyl = rw sized refl;
        dt_spunit = rw sized refl;
        dt_part = (
          refl,
          refl,
          (
            refl,
            refl,
            (refl, refl, (refl, refl, (refl, refl, (refl, refl, (refl, refl, (refl, refl, tt)))))),
          ),
        );
        dt_name = refl;
      },
    )
disktab-IsDisktab three_m20 name =
    let sized = length-ljust8 (name_or name (key three_m20)) in
    rw sized (
      _,
      refl,
      record {
        sized = rw sized refl;
        dt_magic = rw sized refl;
        dt_ploz = rw sized refl;
        dt_plonz = rw sized refl;
        dt_nsec = rw sized refl;
        dt_ntr = rw sized refl;
        dt_ncyl = rw sized refl;
        dt_spcyl = rw sized refl;
        dt_spunit = rw sized refl;
        dt_part = (
          refl,
          refl,
          (
            refl,
            refl,
            (refl, refl, (refl, refl, (refl, refl, (refl, refl, (refl, refl, (refl, refl, tt)))))),
          ),
        );
        dt_name = refl;
      },
    )
disktab-IsDisktab three_m60 name =
    let sized = length-ljust8 (name_or name (key three_m60)) in
    rw sized (
      _,
      refl,
      record {
        sized = rw sized refl;
        dt_magic = rw sized refl;
        dt_ploz = rw sized refl;
        dt_plonz = rw sized refl;
        dt_nsec = rw sized refl;
        dt_ntr = rw sized refl;
        dt_ncyl = rw sized refl;
        dt_spcyl = rw sized refl;
        dt_spunit = rw sized refl;
        dt_part = (
          refl,
          refl,
          (
            refl,
            refl,
            (refl, refl, (refl, refl, (refl, refl, (refl, refl, (refl, refl, (refl, refl, tt)))))),
          ),
        );
        dt_name = refl;
      },
    )
disktab-IsDisktab imi20 name =
    let sized = length-ljust8 (name_or name (key imi20)) in
    rw sized (
      _,
      refl,
      record {
        sized = rw sized refl;
        dt_magic = rw sized refl;
        dt_ploz = rw sized refl;
        dt_plonz = rw sized refl;
        dt_nsec = rw sized refl;
        dt_ntr = rw sized refl;
        dt_ncyl = rw sized refl;
        dt_spcyl = rw sized refl;
        dt_spunit = rw sized refl;
        dt_part = (
          refl,
          refl,
          (
            refl,
            refl,
            (refl, refl, (refl, refl, (refl, refl, (refl, refl, (refl, refl, (refl, refl, tt)))))),
          ),
        );
        dt_name = refl;
      },
    )
disktab-IsDisktab imi60 name =
    let sized = length-ljust8 (name_or name (key imi60)) in
    rw sized (
      _,
      refl,
      record {
        sized = rw sized refl;
        dt_magic = rw sized refl;
        dt_ploz = rw sized refl;
        dt_plonz = rw sized refl;
        dt_nsec = rw sized refl;
        dt_ntr = rw sized refl;
        dt_ncyl = rw sized refl;
        dt_spcyl = rw sized refl;
        dt_spunit = rw sized refl;
        dt_part = (
          refl,
          refl,
          (
            refl,
            refl,
            (refl, refl, (refl, refl, (refl, refl, (refl, refl, (refl, refl, (refl, refl, tt)))))),
          ),
        );
        dt_name = refl;
      },
    )
disktab-IsDisktab priam70 name =
    let sized = length-ljust8 (name_or name (key priam70)) in
    rw sized (
      _,
      refl,
      record {
        sized = rw sized refl;
        dt_magic = rw sized refl;
        dt_ploz = rw sized refl;
        dt_plonz = rw sized refl;
        dt_nsec = rw sized refl;
        dt_ntr = rw sized refl;
        dt_ncyl = rw sized refl;
        dt_spcyl = rw sized refl;
        dt_spunit = rw sized refl;
        dt_part = (
          refl,
          refl,
          (
            refl,
            refl,
            (refl, refl, (refl, refl, (refl, refl, (refl, refl, (refl, refl, (refl, refl, tt)))))),
          ),
        );
        dt_name = refl;
      },
    )
