-- ===== src/Trace.antt =====
-- tools/trace.py: the instruction fetches in a translation log, and the names of their addresses. The
-- regular expressions that pick the fetches out of the log are left out; Trace/Report starts from what they
-- find.
pub mod Collapse
pub mod Names
pub mod Report
use mame_sys.Base.{
  ℕ, ◌+◌, ◌-◌, List, [], ◌∷◌, Bool, Option, none, some, ltb, leb, if◌then◌else◌, ◌&&◌,
}
use mame_sys.Nm32.{Symbol, best_from}

-- What is printed for an address.
pub data Named : Type 0 where
  -- 'outside the kernel'
  outside : Named
  -- '?'
  unknown : Named
  -- the symbol's name, and the distance from it
  within : List ℕ → ℕ → Named

unfoldable pub named : ℕ → Option (ℕ × List ℕ) → Named
named addr none = unknown
named addr (some best) = within best.1 (addr - best.0)

-- `name_of`; its loop is the one of nm32.py.
unfoldable pub name_of : List Symbol → ℕ → Named
name_of syms addr = if leb 0x100000 addr then outside else named addr (best_from none addr syms)

-- `0 <= a - ins[-1] <= 8`
unfoldable pub follows : ℕ → ℕ → Bool
follows last a = leb last a && leb (a - last) 8

-- The loop that fills `ins`, from its last element on: what it appends for the fetches left.
unfoldable pub collapse_after : ℕ → List ℕ → List ℕ
collapse_after last [] = []
collapse_after last (a ∷ rest) =
    if follows last a then collapse_after last rest else a ∷ collapse_after a rest

unfoldable pub collapse : List ℕ → List ℕ
collapse [] = []
collapse (a ∷ rest) = a ∷ collapse_after a rest
