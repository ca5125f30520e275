-- ===== src/Nm32/Lookup.antt =====
-- Which symbol tools/nm32.py finds for an address.
use mame_sys.Base.{ℕ, ◌≤◌, ◌<◌, List, [], ◌∷◌, ◌++◌, false, All, Bool-cases, Option, none, some}
use mame_sys.Base.{◌≡◌, refl, ap, arith, leb, inl, inr}
use mame_sys.Base.Result.{ok}
use mame_sys.Nm32.{Symbol, symbols, best_from, lookup}
use mame_sys.Nm32.Sorted.{IsSorted, All-map, symbols-IsSorted}

-- The value and the name of the last symbol, or what is given when there is none.
abbrev pub last_or : Option (ℕ × List ℕ) → List Symbol → Option (ℕ × List ℕ)
last_or best [] = best
last_or best (s ∷ ss) = last_or (some (s.value, s.name)) ss

-- `addr` divides the symbols into those at or below it and those above it; `found` is the last of
-- the first part, and `best` when that part is empty.
pub record Divides (addr : ℕ) (syms : List Symbol) (best found : Option (ℕ × List ℕ)) : Type 0 where
  pub below : List Symbol
  pub above : List Symbol
  pub parts : syms ≡ below ++ above
  pub at_most : All (λ s. s.value ≤ addr) below
  pub behind : All (λ s. addr < s.value) above
  pub answer : found ≡ last_or best below

below_addr : (value addr : ℕ) → leb value addr ≡ false → addr < value
below_addr value addr e = ground arith

best_from-Divides :
    (best : Option (ℕ × List ℕ)) (addr : ℕ) (syms : List Symbol)
    → IsSorted syms
    → Divides addr syms best (best_from best addr syms)
unfolding best_from
best_from-Divides best addr [] h = record {
  below = [];
  above = [];
  parts = refl;
  at_most = tt;
  behind = tt;
  answer = refl;
}
best_from-Divides best addr (s ∷ ss) h = elim (Bool-cases (leb s.value addr)) [
  | inl e ↦
      let p = best_from-Divides (some (s.value, s.name)) addr ss h.1 in
      rw e (record {
        below = s ∷ p.below;
        above = p.above;
        parts = ap (◌∷◌ s) p.parts;
        at_most = (ground arith, p.at_most);
        behind = p.behind;
        answer = p.answer;
      })
  | inr e ↦
      let first = below_addr s.value addr e in
      rw e (record {
        below = [];
        above = s ∷ ss;
        parts = refl;
        at_most = tt;
        behind = (first, All-map (λ t. λ k. omega arith) ss h.0);
        answer = refl;
      })
]

-- Looked up in the symbols of any file that reads without an error, every address divides them, in
-- the order of their values, into those at or below it and those above it, and the answer is the last
-- of the first part: the nearest symbol that is not above the address. There is no answer exactly when
-- that part is empty.
pub lookup-symbols :
    (d : List ℕ) (syms : List Symbol) (addr : ℕ)
    → symbols d ≡ ok syms
    → Divides addr syms none (lookup addr syms)
unfolding lookup
lookup-symbols d syms addr h = best_from-Divides none addr syms (symbols-IsSorted d h)
