-- ===== src/Trace/Names.antt =====
-- The names that tools/trace.py gives to addresses.
use mame_sys.Base.{ℕ, ◌+◌, ◌-◌, ◌≤◌, ◌<◌, List, [], ◌∷◌, ◌++◌, Bool-cases, Option, none, some}
use mame_sys.Base.{◌≡◌, refl, ap, arith, inl, inr, ◌⊎◌, All, leb, append_assoc}
use mame_sys.Base.Result.{ok}
use mame_sys.Nm32.{Symbol, symbols, lookup}
use mame_sys.Nm32.Lookup.{Divides, last_or, lookup-symbols}
use mame_sys.Trace.{Named, outside, unknown, within, named, name_of}

-- An address is named outside the kernel from 1 MB on.
pub data IsNamed (syms : List Symbol) (addr : ℕ) : Named → Type 0 where
  beyond : 0x100000 ≤ addr → IsNamed syms addr outside
  none_below : addr < 0x100000 → All (λ s. addr < s.value) syms → IsNamed syms addr unknown
  nearest :
      (below above : List Symbol) (s : Symbol) (offset : ℕ)
      → addr < 0x100000
      → syms ≡ below ++ s ∷ above
      → s.value + offset ≡ addr
      → All (λ t. addr < t.value) above
      → IsNamed syms addr (within s.name offset)

-- The last of a list, with what stands in front of it.
last_or-cases :
    (addr : ℕ) (best : Option (ℕ × List ℕ)) (below : List Symbol)
    → All (λ s. s.value ≤ addr) below
    → ((below ≡ []) × (last_or best below ≡ best))
      ⊎ ((front : List Symbol) × (s : Symbol) × (below ≡ front ++ s ∷ [])
          × (last_or best below ≡ some (s.value, s.name))
          × (s.value ≤ addr))
last_or-cases addr best [] h = inl (refl, refl)
last_or-cases addr best (s ∷ ss) h = elim (last_or-cases addr (some (s.value, s.name)) ss h.1) [
  | inl (e, q) ↦ inr ([], s, ap (◌∷◌ s) e, q, h.0)
  | inr (front, t, e, q, le) ↦ inr (s ∷ front, t, ap (◌∷◌ s) e, q, le)
]

named-IsNamed :
    (syms : List Symbol) (addr : ℕ) (found : Option (ℕ × List ℕ))
    → addr < 0x100000
    → Divides addr syms none found
    → IsNamed syms addr (named addr found)
unfolding named
named-IsNamed syms addr found small p = elim (last_or-cases addr none p.below p.at_most) [
  | inl (e, q) ↦ rw (p.answer, q) (none_below small (rw (p.parts, e) p.behind))
  | inr (front, s, e, q, le) ↦
      rw (p.answer, q)
        (nearest front p.above s (addr - s.value) small
          (rw (p.parts, e) (append_assoc front (s ∷ []) p.above)) (omega arith) p.behind)
]

-- In the symbols of a file that reads without an error, an address from 1 MB on is outside the kernel;
-- below that it is named after the nearest symbol that is not above it, with the distance from there,
-- and is unknown exactly when every symbol is above it.
pub name_of-IsNamed :
    (d : List ℕ) (syms : List Symbol) (addr : ℕ)
    → symbols d ≡ ok syms
    → IsNamed syms addr (name_of syms addr)
unfolding name_of lookup
name_of-IsNamed d syms addr h = elim (Bool-cases (leb 0x100000 addr)) [
  | inl e ↦ rw e (beyond (ground arith))
  | inr e ↦
      rw e
        (named-IsNamed syms addr (lookup addr syms) (ground arith) (lookup-symbols d syms addr h))
]
