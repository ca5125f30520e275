-- ===== src/Trace/Collapse.antt =====
-- What tools/trace.py keeps of the fetches.
use mame_sys.Base.{ℕ, ◌+◌, ◌≤◌, ◌<◌, List, [], ◌∷◌, true, false, Bool-cases}
use mame_sys.Base.{◌≡◌, refl, ap, arith, inl, inr, ◌⊎◌}
use mame_sys.Trace.{follows, collapse_after, collapse}

-- `a` stands at most 8 bytes behind `last`.
abbrev pub Near : ℕ → ℕ → Type 0
Near last a = (last ≤ a) × (a ≤ last + 8)

-- The fetches fall into runs: each run begins with a kept address, and goes on with addresses at most
-- 8 bytes behind it; the address that begins the next run is not one of those.
pub data Runs : ℕ → List ℕ → List ℕ → Type 0 where
  done : {last : ℕ} → Runs last [] []
  same :
      {last a : ℕ} {rest kept : List ℕ}
      → Near last a
      → Runs last rest kept
      → Runs last (a ∷ rest) kept
  next :
      {last a : ℕ} {rest kept : List ℕ}
      → (a < last) ⊎ (last + 8 < a)
      → Runs a rest kept
      → Runs last (a ∷ rest) (a ∷ kept)

follows-true : (last a : ℕ) → follows last a ≡ true → Near last a
unfolding follows
follows-true last a e = ground arith

follows-false : (last a : ℕ) → follows last a ≡ false → (a < last) ⊎ (last + 8 < a)
unfolding follows
follows-false last a e = ground arith

collapse_after-Runs :
    (last : ℕ) (fetches : List ℕ) → Runs last fetches (collapse_after last fetches)
unfolding collapse_after
collapse_after-Runs last [] = done
collapse_after-Runs last (a ∷ rest) = elim (Bool-cases (follows last a)) [
  | inl e ↦ rw e (same (follows-true last a e) (collapse_after-Runs last rest))
  | inr e ↦ rw e (next (follows-false last a e) (collapse_after-Runs a rest))
]

-- The instruction addresses that are printed are the beginnings of the runs in the fetches: the first
-- fetch is kept, an address is dropped when it stands at most 8 bytes behind the one kept last, and
-- kept otherwise.
pub collapse-Runs :
    (first : ℕ) (rest : List ℕ)
    → (kept : List ℕ) × (collapse (first ∷ rest) ≡ first ∷ kept) × Runs first rest kept
unfolding collapse
collapse-Runs first rest = (collapse_after first rest, refl, collapse_after-Runs first rest)

-- The same fetches have only one division into runs.
pub Runs-unique :
    {last : ℕ} {fetches kept kept' : List ℕ}
    → Runs last fetches kept
    → Runs last fetches kept'
    → kept ≡ kept'
Runs-unique done done = refl
Runs-unique (same n r) (same m s) = Runs-unique r s
Runs-unique (same n r) (next (inl m) s) = absurd (omega arith)
Runs-unique (same n r) (next (inr m) s) = absurd (omega arith)
Runs-unique (next (inl n) r) (same m s) = absurd (omega arith)
Runs-unique (next (inr n) r) (same m s) = absurd (omega arith)
Runs-unique (next {a = a} n r) (next m s) = ap (◌∷◌ a) (Runs-unique r s)
