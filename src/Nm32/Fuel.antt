-- ===== src/Nm32/Fuel.antt =====
-- The loop of `symbols` of tools/nm32.py ends.
use mame_sys.Base.{ℕ, zero, suc, ◌+◌, ◌*◌, ◌≤◌, List}
use mame_sys.Base.{◌≡◌, refl, arith, slice, not_lt→ltb}
use native.Mathlib.Nat.{zero-add, suc-add}
use mame_sys.Base.Codec.{from_le}
use mame_sys.Nm32.{symesz, symbols_from}

-- Fuel for the entries that are left is enough: the loop gives the same with any more of it, since
-- every round advances by at least one entry.
pub symbols_from-fuel :
    (fuel more : ℕ) (d strtab : List ℕ) (symptr nsyms i : ℕ)
    → nsyms ≤ i + fuel
    → symbols_from (fuel + more) d strtab symptr nsyms i ≡ symbols_from fuel d strtab symptr nsyms i
unfolding symbols_from
symbols_from-fuel zero zero d strtab symptr nsyms i h = refl
symbols_from-fuel zero (suc more) d strtab symptr nsyms i h =
    rw (zero-add, not_lt→ltb i nsyms (omega arith)) refl
symbols_from-fuel (suc fuel) more d strtab symptr nsyms i h =
    let raw = slice d (symptr + i * symesz) symesz in
    rw
      (
        suc-add fuel more,
        symbols_from-fuel fuel more d strtab symptr nsyms (i + (1 + from_le (slice raw 17 1)))
            (omega arith),
      )
      refl
