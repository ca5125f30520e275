-- ===== src/Tests/Logs.antt =====
-- The theorems on the report of tools/trace.py.
use mame_sys.Base.{List, [], ◌∷◌, ◌++◌, false, none, some, ◌≡◌, refl}
use mame_sys.Trace.Report.{Line, Report, report}
use mame_sys.Trace.Report.Abort.{none_left, quiet}
use mame_sys.Trace.Report.Reported.{IsReport, report-IsReport}
use mame_sys.Tests.Tools.{coff_symbols, sym_a, sym_b, read_symbols}

abbrev fetch_line : Line
fetch_line = record { abort = none; xlate = some (0, 0x2000) }

abbrev data_line : Line
data_line = record { abort = none; xlate = some (1, 0x3000) }

abbrev abort_line : Line
abort_line = record { abort = some 0x2004; xlate = none }

-- Two aborts: the last one is reported, behind the first.
abbrev before : List Line
before = fetch_line ∷ data_line ∷ abort_line ∷ fetch_line ∷ []

report-IsReport_example :
    (r : Report) × (report 60 false (sym_a ∷ sym_b ∷ []) (before ++ abort_line ∷ data_line ∷ [])
      ≡ some r)
    × IsReport 60 (sym_a ∷ sym_b ∷ []) before 0x2004 r
report-IsReport_example =
    report-IsReport 60 false coff_symbols (sym_a ∷ sym_b ∷ []) before abort_line (data_line ∷ [])
      0x2004 read_symbols refl (quiet refl none_left)
