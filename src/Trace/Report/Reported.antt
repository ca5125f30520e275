-- ===== src/Trace/Report/Reported.antt =====
-- What the report of tools/trace.py says, described without the functions that make it.
use mame_sys.Base.{
  ℕ, zero, suc, ◌+◌, ◌-◌, ◌≤◌, List, [], ◌∷◌, ◌++◌, map, All, Bool, Option, none, some, ◌≡◌, ◌≢◌,
  refl, sym, ap, ◌∙◌, arith, length, take, min, ==_ne, take-append-drop, length-drop,
}
use mame_sys.Base.Result.{ok}
use mame_sys.Nm32.{Symbol, symbols}
use mame_sys.Trace.{Named, collapse, name_of}
use mame_sys.Trace.Collapse.{Runs, collapse-Runs}
use mame_sys.Trace.Names.{IsNamed, name_of-IsNamed}
use mame_sys.Trace.Report.{Line, Report, report, report_at, fetches, fetch_of, last_steps}
use mame_sys.Trace.Report.Abort.{Quiet, quiet_part, report-abort}

-- The fetches in the lines: the addresses of access level 0, in order.
pub data Fetched : List Line → List ℕ → Type 0 where
  no_lines : Fetched [] []
  fetch :
      {line : Line} {lines : List Line} {a : ℕ} {rest : List ℕ}
      → line.xlate ≡ some (0, a)
      → Fetched lines rest
      → Fetched (line ∷ lines) (a ∷ rest)
  other :
      {line : Line} {lines : List Line} {rest : List ℕ}
      → ((a : ℕ) → line.xlate ≢ some (0, a))
      → Fetched lines rest
      → Fetched (line ∷ lines) rest

-- The beginnings of the runs in the fetches.
pub data Kept : List ℕ → List ℕ → Type 0 where
  no_fetch : Kept [] []
  runs :
      {first : ℕ} {rest kept : List ℕ} → Runs first rest kept → Kept (first ∷ rest) (first ∷ kept)

-- The last `steps` of them, or all when there are fewer, or when `steps` is 0.
pub data Last (steps : ℕ) (kept : List ℕ) : List ℕ → Type 0 where
  all_of_them : steps ≡ 0 → Last steps kept kept
  last :
      (front : List ℕ) {shown : List ℕ}
      → 1 ≤ steps
      → kept ≡ front ++ shown
      → length shown ≡ min steps (length kept)
      → Last steps kept shown

abbrev pub address : ℕ × Named → ℕ
address line = line.0

-- What is printed for a step names its address.
abbrev pub NamedBy : List Symbol → ℕ × Named → Type 0
NamedBy syms line = IsNamed syms line.0 line.1

pub record IsReport (steps : ℕ) (syms : List Symbol) (before : List Line) (a : ℕ) (r : Report)
    : Type 0 where
  pub at : r.abort_at ≡ a
  pub name : IsNamed syms a r.abort_name
  pub line_number : r.log_line ≡ length before + 1
  pub fetched : List ℕ
  pub kept : List ℕ
  pub from_lines : Fetched before fetched
  pub beginnings : Kept fetched kept
  pub last_ones : Last steps kept (map address r.shown)
  pub names : All (NamedBy syms) r.shown

fetches-Fetched_at :
    (line : Line) (lines : List Line) (o : Option (ℕ × ℕ))
    → line.xlate ≡ o
    → Fetched lines (fetches lines)
    → Fetched (line ∷ lines) (fetch_of o (fetches lines))
unfolding fetch_of
fetches-Fetched_at line lines none e f = other (λ a h. let bad = sym e ∙ h in absurd cc) f
fetches-Fetched_at line lines (some (zero, a)) e f = fetch e f
fetches-Fetched_at line lines (some (suc n, a)) e f =
    rw (==_ne (suc n) 0 (λ h. absurd (omega (arith, h))))
      (other (λ x h. let bad = sym e ∙ h in absurd cc) f)

fetches-Fetched : (lines : List Line) → Fetched lines (fetches lines)
unfolding fetches
fetches-Fetched [] = no_lines
fetches-Fetched (line ∷ lines) =
    fetches-Fetched_at line lines line.xlate refl (fetches-Fetched lines)

collapse-Kept : (fetched : List ℕ) → Kept fetched (collapse fetched)
unfolding collapse
collapse-Kept [] = no_fetch
collapse-Kept (first ∷ rest) = let (kept, same, r) = collapse-Runs first rest in rw same (runs r)

last_steps-Last : (steps : ℕ) (ins : List ℕ) → Last steps ins (last_steps steps ins)
unfolding last_steps
last_steps-Last zero ins = all_of_them refl
last_steps-Last (suc n) ins =
    let count : length ins - (length ins - suc n) ≡ min (suc n) (length ins) = omega arith in
    rw (==_ne (suc n) 0 (λ h. absurd (omega (arith, h)))) (
      last (take (length ins - suc n) ins) (omega arith)
        (sym (take-append-drop (length ins - suc n) ins))
        (length-drop (length ins - suc n) ins ∙ count))

map-first : (f : ℕ → Named) (xs : List ℕ) → map address (map (λ a. (a, f a)) xs) ≡ xs
map-first f [] = refl
map-first f (x ∷ xs) = ap (◌∷◌ x) (map-first f xs)

all_named :
    (d : List ℕ) (syms : List Symbol) (xs : List ℕ)
    → symbols d ≡ ok syms
    → All (NamedBy syms) (map (λ a. (a, name_of syms a)) xs)
all_named d syms [] h = tt
all_named d syms (x ∷ xs) h = (name_of-IsNamed d syms x h, all_named d syms xs h)

-- With the symbols of a kernel that reads without an error: if a line of the log is an abort and, with
-- `--first`, none before it is one, or, without it, none behind it, then there is a report, on that line.
-- It gives the address of the abort, the right name for it, and the number of the line, from 1; behind
-- it come the last `steps` beginnings of runs in the fetches of the lines before the abort, and of no
-- others (all of them for fewer, and when `steps` is 0), each with the right name.
pub report-IsReport :
    (steps : ℕ) (first : Bool) (d : List ℕ) (syms : List Symbol)
    → (before : List Line) (line : Line) (after : List Line) (a : ℕ) → symbols d ≡ ok syms
    → line.abort ≡ some a
    → Quiet (quiet_part first before after)
    → (r : Report) × (report steps first syms (before ++ line ∷ after) ≡ some r)
      × IsReport steps syms before a r
unfolding report_at
report-IsReport steps first d syms before line after a read e q =
    let ins = collapse (fetches before) in
    (
      report_at steps syms (length before) a (fetches before),
      report-abort steps first syms before line after a e q,
      record {
        at = refl;
        name = name_of-IsNamed d syms a read;
        line_number = refl;
        fetched = fetches before;
        kept = ins;
        from_lines = fetches-Fetched before;
        beginnings = collapse-Kept (fetches before);
        last_ones =
            rw (map-first (name_of syms) (last_steps steps ins)) (last_steps-Last steps ins);
        names = all_named d syms (last_steps steps ins) read;
      },
    )
