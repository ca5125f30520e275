-- ===== src/Nm32.antt =====
-- tools/nm32.py: the symbols of an ns32000 COFF file, and the one that an address belongs to.
pub mod Sorted
pub mod Lookup
pub mod Fuel
use mame_sys.Base.{ℕ, zero, suc, ◌+◌, ◌-◌, ◌*◌, List, [], ◌∷◌, ◌++◌, Bool, true, false, ◌||◌, ◌&&◌}
use mame_sys.Base.{
  Option, none, some, length, take, drop, slice, rstrip, same_bytes, ltb, leb, ◌==◌, if◌then◌else◌,
}
use mame_sys.Base.Codec.{from_le}
use mame_sys.Base.Result.{Result, ok, guard, struct_error, ◌>>=◌, ◌>>◌}

abbrev pub symesz : ℕ
symesz = 20

-- `(value, name, scnum)`; the section number is positive in every symbol that is kept.
pub record Symbol : Type 0 where
  pub value : ℕ
  pub name : List ℕ
  pub scnum : ℕ

-- The bytes up to the first NUL, where there is one.
unfoldable pub up_to_nul : List ℕ → Option (List ℕ)
up_to_nul [] = none
up_to_nul (c ∷ cs) = elim (up_to_nul cs) [
  | none ↦ if c == 0 then some [] else none
  | some s ↦ if c == 0 then some [] else some (c ∷ s)
]

-- `strtab[off:strtab.find(b'\0', off)]`; without a NUL `find` is -1, and the slice ends before the
-- last byte.
unfoldable pub string_at : List ℕ → ℕ → List ℕ
string_at strtab off = elim (up_to_nul (drop off strtab)) [
  | some s ↦ s
  | none ↦ take (length strtab - 1 - off) (drop off strtab)
]

unfoldable pub symbol_name : List ℕ → List ℕ → List ℕ
symbol_name strtab raw =
    if from_le (slice raw 0 4) == 0
    then string_at strtab (from_le (slice raw 4 4))
    else rstrip (slice raw 0 8)

-- `sclass in (C_EXT, C_STAT) and scnum > 0`, the section number read as signed
unfoldable pub is_kept : ℕ → ℕ → Bool
is_kept sclass scnum = ((sclass == 2) || (sclass == 3)) && (ltb 0 scnum && ltb scnum 32768)

unfoldable pub symbol_of : List ℕ → List ℕ → Symbol
symbol_of strtab raw = record {
  value = from_le (slice raw 8 4);
  name = symbol_name strtab raw;
  scnum = from_le (slice raw 12 2);
}

-- `out.append`, in front since the loop is followed from its end
unfoldable pub keep : List ℕ → List ℕ → List Symbol → List Symbol
keep strtab raw out =
    if is_kept (from_le (slice raw 16 1)) (from_le (slice raw 12 2))
    then symbol_of strtab raw ∷ out
    else out

-- The loop `while i < nsyms`. An entry is followed by its auxiliary ones, which are skipped.
unfoldable pub symbols_from : ℕ → List ℕ → List ℕ → ℕ → ℕ → ℕ → Result (List Symbol)
symbols_from zero d strtab symptr nsyms i = ok []
symbols_from (suc fuel) d strtab symptr nsyms i =
    let raw = slice d (symptr + i * symesz) symesz in
    let rest = symbols_from fuel d strtab symptr nsyms (i + (1 + from_le (slice raw 17 1))) in
    if ltb i nsyms
    then guard (leb 18 (length raw)) struct_error >> (rest >>= λ out. ok (keep strtab raw out))
    else ok []

-- The order of text, code point by code point.
unfoldable pub name_le : List ℕ → List ℕ → Bool
name_le [] ys = true
name_le (x ∷ xs) [] = false
name_le (x ∷ xs) (y ∷ ys) = ltb x y || ((x == y) && name_le xs ys)

-- `<=` on the tuples
unfoldable pub symbol_le : Symbol → Symbol → Bool
symbol_le s t =
    if s.value == t.value
    then (if same_bytes s.name t.name then leb s.scnum t.scnum else name_le s.name t.name)
    else ltb s.value t.value

unfoldable pub insert : Symbol → List Symbol → List Symbol
insert s [] = s ∷ []
insert s (t ∷ ts) = if symbol_le s t then s ∷ t ∷ ts else t ∷ insert s ts

-- `out.sort()`: equal tuples cannot be told apart, so any sorting gives the same list.
unfoldable pub sort : List Symbol → List Symbol
sort [] = []
sort (s ∷ ss) = insert s (sort ss)

-- `symbols`, on the bytes of the file
unfoldable pub symbols : List ℕ → Result (List Symbol)
symbols d = do
  guard (leb 20 (length d)) struct_error
  let symptr = from_le (slice d 8 4)
  let nsyms = from_le (slice d 12 4)
  let strtab = drop (symptr + nsyms * symesz) d
  out ← symbols_from nsyms d strtab symptr nsyms 0
  ok (sort out)

-- The loop of `main` that looks an address up, from the best symbol so far.
unfoldable pub best_from : Option (ℕ × List ℕ) → ℕ → List Symbol → Option (ℕ × List ℕ)
best_from best addr [] = best
best_from best addr (s ∷ ss) =
    if leb s.value addr then best_from (some (s.value, s.name)) addr ss else best

unfoldable pub lookup : ℕ → List Symbol → Option (ℕ × List ℕ)
lookup addr syms = best_from none addr syms
