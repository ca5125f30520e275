-- ===== src/Tests/Tools.antt =====
-- The theorems on the disk header, the symbol tables, the traces and the boot image.
use mame_sys.Base.{ℕ, ◌+◌, ◌≤◌, ◌<◌, List, [], ◌∷◌, none, ◌⊎◌}
use mame_sys.Base.{◌≡◌, refl, arith}
use mame_sys.Base.Codec.{pos, from_le}
use mame_sys.Base.Result.{ok, err, data_overlaps_text}
use mame_sys.Mkdisk.{disktab, priam70, layout, root_blocks, key, name_or}
use mame_sys.Mkdisk.Header.{IsDisktab, disktab-IsDisktab}
use mame_sys.Mkdisk.Partitions.{IsSplit, layout-IsSplit}
use mame_sys.Nm32.{
  Symbol, symbols, symbols_from, lookup, symbol_of, symbol_name, string_at, up_to_nul, is_kept,
  keep, sort, insert, symbol_le,
}
use mame_sys.Nm32.Lookup.{Divides, lookup-symbols}
use mame_sys.Nm32.Fuel.{symbols_from-fuel}
use mame_sys.Trace.{name_of, collapse}
use mame_sys.Trace.Names.{IsNamed, name_of-IsNamed}
use mame_sys.Trace.Collapse.{Runs, collapse-Runs}
use mame_sys.Coff2genix.{emit}
use mame_sys.Coff2genix.Image.{Placed, section, IsLinked, emit-IsLinked}
use mame_sys.Base.{slice, take, drop, rstrip, same_bytes}

disktab-IsDisktab_example :
    (b : List ℕ) × (disktab priam70 (b'd' ∷ b'c' ∷ []) ≡ ok b)
    × IsDisktab b (layout priam70) (name_or (b'd' ∷ b'c' ∷ []) (key priam70))
disktab-IsDisktab_example = disktab-IsDisktab priam70 (b'd' ∷ b'c' ∷ [])

layout-IsSplit_example : IsSplit (layout priam70) (root_blocks priam70)
layout-IsSplit_example = layout-IsSplit priam70

-- A symbol table of three entries behind the file header: `b` at 0x20, an auxiliary entry, `a` at 0x10.
abbrev pub coff_symbols : List ℕ
coff_symbols =
    0x54 ∷ 1 ∷ 0 ∷ 0 ∷ 0 ∷ 0 ∷ 0 ∷ 0 ∷ 20 ∷ 0 ∷ 0 ∷ 0 ∷ 3 ∷ 0 ∷ 0 ∷ 0 ∷ 0 ∷ 0 ∷ 0 ∷ 0 ∷ b'b' ∷ 0 ∷ 0
    ∷ 0 ∷ 0 ∷ 0 ∷ 0 ∷ 0 ∷ 0x20 ∷ 0 ∷ 0 ∷ 0 ∷ 1 ∷ 0 ∷ 0 ∷ 0 ∷ 2 ∷ 1 ∷ 0 ∷ 0 ∷ 0 ∷ 0 ∷ 0 ∷ 0 ∷ 0 ∷ 0
    ∷ 0 ∷ 0 ∷ 0 ∷ 0 ∷ 0 ∷ 0 ∷ 0 ∷ 0 ∷ 0 ∷ 0 ∷ 0 ∷ 0 ∷ 0 ∷ 0 ∷ 0 ∷ 0 ∷ 0 ∷ 0 ∷ 0 ∷ 0 ∷ 0 ∷ 0 ∷ 0x10
    ∷ 0 ∷ 0 ∷ 0 ∷ 1 ∷ 0 ∷ 0 ∷ 0 ∷ 3 ∷ 0 ∷ 0 ∷ 0 ∷ b'a' ∷ 0 ∷ []

abbrev pub sym_a : Symbol
sym_a = record { value = 0x10; name = b'a' ∷ []; scnum = 1 }

abbrev pub sym_b : Symbol
sym_b = record { value = 0x20; name = b'b' ∷ []; scnum = 1 }

pub read_symbols : symbols coff_symbols ≡ ok (sym_a ∷ sym_b ∷ [])
unfolding symbols symbols_from symbol_of symbol_name string_at up_to_nul is_kept keep sort insert
    symbol_le slice take drop rstrip same_bytes from_le
read_symbols = refl

lookup-symbols_example : Divides 0x18 (sym_a ∷ sym_b ∷ []) none (lookup 0x18 (sym_a ∷ sym_b ∷ []))
lookup-symbols_example = lookup-symbols coff_symbols (sym_a ∷ sym_b ∷ []) 0x18 read_symbols

name_of-IsNamed_example : IsNamed (sym_a ∷ sym_b ∷ []) 0x18 (name_of (sym_a ∷ sym_b ∷ []) 0x18)
name_of-IsNamed_example = name_of-IsNamed coff_symbols (sym_a ∷ sym_b ∷ []) 0x18 read_symbols

symbols_from-fuel_example :
    symbols_from (3 + 5) coff_symbols (b'a' ∷ 0 ∷ []) 20 3 0
    ≡ symbols_from 3 coff_symbols (b'a' ∷ 0 ∷ []) 20 3 0
symbols_from-fuel_example = symbols_from-fuel 3 5 coff_symbols (b'a' ∷ 0 ∷ []) 20 3 0 (omega arith)

collapse-Runs_example :
    (kept : List ℕ) × (collapse (0x100 ∷ 0x104 ∷ 0x200 ∷ []) ≡ 0x100 ∷ kept)
    × Runs 0x100 (0x104 ∷ 0x200 ∷ []) kept
collapse-Runs_example = collapse-Runs 0x100 (0x104 ∷ 0x200 ∷ [])

abbrev coff_bytes : List ℕ
coff_bytes = 1 ∷ 2 ∷ 3 ∷ 4 ∷ 5 ∷ []

abbrev text_section : Placed
text_section = record { paddr = 0x1000; size = 3; scnptr = 0 }

abbrev data_section : Placed
data_section = record { paddr = 0x1008; size = 2; scnptr = 3 }

abbrev bss_section : Placed
bss_section = record { paddr = 0x100a; size = 16; scnptr = 0 }

emit-IsLinked_example :
    ((0x1000 + 3 ≤ 0x1008)
      × ((out : List ℕ) × (emit coff_bytes
              (section text_section)
              (section data_section)
              (section bss_section)
              (pos 0x1000)
            ≡ ok out)
          × IsLinked out coff_bytes text_section data_section bss_section 0x1000))
    ⊎ ((0x1008 < 0x1000 + 3)
        × (emit coff_bytes
              (section text_section)
              (section data_section)
              (section bss_section)
              (pos 0x1000)
            ≡ err data_overlaps_text))
emit-IsLinked_example =
    emit-IsLinked coff_bytes text_section data_section bss_section 0x1000 (omega arith, omega arith)
      (omega arith, omega arith) (omega arith, omega arith) (omega arith)
