-- ===== src/Trace/Report/Abort.antt =====
-- The report of tools/trace.py is on the abort that it is asked for.
use mame_sys.Base.{
  ℕ, ◌+◌, List, [], ◌∷◌, ◌++◌, Bool, true, false, Option, none, some, ◌≡◌, refl, ap, ◌∙◌, arith,
  length, drop, take, take-append_left, drop-append_left,
}
use mame_sys.Nm32.{Symbol}
use mame_sys.Trace.Report.{Line, abort_from, abort_of, fetches, report_at, report_found, report}

-- No line of these is an abort.
pub data Quiet : List Line → Type 0 where
  none_left : Quiet []
  quiet : {line : Line} {lines : List Line} → line.abort ≡ none → Quiet lines → Quiet (line ∷ lines)

-- The lines in which there is no abort when the one behind `before` is reported: those before it if it is
-- the first, and else those after it.
abbrev pub quiet_part : Bool → List Line → List Line → List Line
quiet_part true before after = before
quiet_part false before after = after

abort_from-Quiet :
    (first : Bool) (i : ℕ) (idx : Option ℕ) (lines : List Line)
    → Quiet lines
    → abort_from first i idx lines ≡ idx
unfolding abort_from
abort_from-Quiet first i idx [] q = refl
abort_from-Quiet first i idx (line ∷ lines) (quiet e q) =
    rw e (abort_from-Quiet first (i + 1) idx lines q)

abort_from-first :
    (i : ℕ) (idx : Option ℕ) (before : List Line) (line : Line) (after : List Line) {a : ℕ}
    → line.abort ≡ some a
    → Quiet before
    → abort_from true i idx (before ++ line ∷ after) ≡ some (i + length before)
unfolding abort_from
abort_from-first i idx [] line after e q = rw e (ap some (omega arith))
abort_from-first i idx (l ∷ before) line after e (quiet n q) =
    rw n (abort_from-first (i + 1) idx before line after e q ∙ ap some (omega arith))

abort_from-next_at :
    (i : ℕ) (idx : Option ℕ) (l : Line) (lines : List Line) (o : Option ℕ)
    → l.abort ≡ o
    → (idx' : Option ℕ) × (abort_from false i idx (l ∷ lines) ≡ abort_from false (i + 1) idx' lines)
unfolding abort_from
abort_from-next_at i idx l lines none e = (idx, rw e refl)
abort_from-next_at i idx l lines (some a) e = (some i, rw e refl)

-- Without `--first` the loop always goes on.
abort_from-next :
    (i : ℕ) (idx : Option ℕ) (l : Line) (lines : List Line)
    → (idx' : Option ℕ) × (abort_from false i idx (l ∷ lines) ≡ abort_from false (i + 1) idx' lines)
abort_from-next i idx l lines = abort_from-next_at i idx l lines l.abort refl

abort_from-last :
    (i : ℕ) (idx : Option ℕ) (before : List Line) (line : Line) (after : List Line) {a : ℕ}
    → line.abort ≡ some a
    → Quiet after
    → abort_from false i idx (before ++ line ∷ after) ≡ some (i + length before)
unfolding abort_from
abort_from-last i idx [] line after e q =
    rw e (abort_from-Quiet false (i + 1) (some i) after q ∙ ap some (omega arith))
abort_from-last i idx (l ∷ before) line after e q =
    let (idx', on) = abort_from-next i idx l (before ++ line ∷ after) in
    on ∙ abort_from-last (i + 1) idx' before line after e q ∙ ap some (omega arith)

abort_from-chosen :
    (first : Bool) (before : List Line) (line : Line) (after : List Line) {a : ℕ}
    → line.abort ≡ some a
    → Quiet (quiet_part first before after)
    → abort_from first 0 none (before ++ line ∷ after) ≡ some (length before)
abort_from-chosen true before line after e q =
    abort_from-first 0 none before line after e q ∙ ap some (omega arith)
abort_from-chosen false before line after e q =
    abort_from-last 0 none before line after e q ∙ ap some (omega arith)

lines_before :
    (before : List Line) (line : Line) (after : List Line)
    → take (length before) (before ++ line ∷ after) ≡ before
lines_before before line after = take-append_left (length before) before (line ∷ after) refl

line_at :
    (before : List Line) (line : Line) (after : List Line)
    → abort_of (drop (length before) (before ++ line ∷ after)) ≡ line.abort
unfolding abort_of
line_at before line after =
    ap abort_of (drop-append_left (length before) before (line ∷ after) refl)

-- The report is on the abort at the line behind `before` when, with `--first`, no line of `before` is an
-- abort, and, without it, none behind that line: it gives this abort's address and name and the number of
-- its line, and the steps in front of it come from the fetches of `before` alone.
pub report-abort :
    (steps : ℕ) (first : Bool) (syms : List Symbol)
    → (before : List Line) (line : Line) (after : List Line) (a : ℕ) → line.abort ≡ some a
    → Quiet (quiet_part first before after)
    → report steps first syms (before ++ line ∷ after)
      ≡ some (report_at steps syms (length before) a (fetches before))
unfolding report report_found
report-abort steps first syms before line after a e q =
    rw
      (
        report,
        abort_from-chosen first before line after e q,
        report_found,
        line_at before line after,
        e,
        lines_before before line after,
      )
      refl

-- Without an abort in the log there is no report.
pub report-none :
    (steps : ℕ) (first : Bool) (syms : List Symbol) (lines : List Line)
    → Quiet lines
    → report steps first syms lines ≡ none
unfolding report
report-none steps first syms lines q = rw (report, abort_from-Quiet first 0 none lines q) refl
