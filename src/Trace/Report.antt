-- ===== src/Trace/Report.antt =====
-- tools/trace.py: `main`, on the lines of the log as the two regular expressions find them.
pub mod Abort
pub mod Reported
use mame_sys.Base.{
  ℕ, zero, suc, ◌+◌, ◌-◌, List, [], ◌∷◌, map, Bool, true, false, Option, none, some, length, drop,
  take, ◌==◌, if◌then◌else◌,
}
use mame_sys.Nm32.{Symbol}
use mame_sys.Trace.{Named, name_of, collapse}

-- What `RE_ABORT` finds in a line, the address, and `RE_XLATE`, the access level and the address.
pub record Line : Type 0 where
  pub abort : Option ℕ
  pub xlate : Option (ℕ × ℕ)

-- The loop over `enumerate(lines)`, from the index `i` and the `idx` so far.
unfoldable pub abort_from : Bool → ℕ → Option ℕ → List Line → Option ℕ
abort_from first i idx [] = idx
abort_from first i idx (line ∷ lines) = elim line.abort [
  | none ↦ abort_from first (i + 1) idx lines
  | some a ↦ elim first [ true ↦ some i | false ↦ abort_from first (i + 1) (some i) lines ]
]

-- The address of a line that is an instruction's fetch.
unfoldable pub fetch_of : Option (ℕ × ℕ) → List ℕ → List ℕ
fetch_of none rest = rest
fetch_of (some (level, a)) rest = if level == 0 then a ∷ rest else rest

unfoldable pub fetches : List Line → List ℕ
fetches [] = []
fetches (line ∷ lines) = fetch_of line.xlate (fetches lines)

-- `ins[-steps:]`, which is all of `ins` for 0.
unfoldable pub last_steps : ℕ → List ℕ → List ℕ
last_steps steps ins = if steps == 0 then ins else drop (length ins - steps) ins

-- What is printed: the abort's address and its name, the line of the log, and the instructions.
pub record Report : Type 0 where
  pub abort_at : ℕ
  pub abort_name : Named
  pub log_line : ℕ
  pub shown : List (ℕ × Named)

unfoldable pub report_at : ℕ → List Symbol → ℕ → ℕ → List ℕ → Report
report_at steps syms idx abort_at fetched = record {
  abort_at = abort_at;
  abort_name = name_of syms abort_at;
  log_line = idx + 1;
  shown = map (λ a. (a, name_of syms a)) (last_steps steps (collapse fetched));
}

-- `int(RE_ABORT.search(lines[idx]).group(1), 16)`, for which no result is Python's exception.
unfoldable pub abort_of : List Line → Option ℕ
abort_of [] = none
abort_of (line ∷ lines) = line.abort

unfoldable pub report_found : ℕ → List Symbol → List Line → ℕ → Option Report
report_found steps syms lines idx = elim (abort_of (drop idx lines)) [
  | none ↦ none
  | some abort_at ↦ some (report_at steps syms idx abort_at (fetches (take idx lines)))
]

-- `main` from the lines of the log on; no result is the exit 'no abort in the log'.
unfoldable pub report : ℕ → Bool → List Symbol → List Line → Option Report
report steps first syms lines = elim (abort_from first 0 none lines) [
  | none ↦ none
  | some idx ↦ report_found steps syms lines idx
]
