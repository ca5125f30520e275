-- ===== src/Tests/Terminal.antt =====
-- The theorems on the terminal.
use mame_sys.Base.{◌-◌, List, [], ◌∷◌, ◌++◌, true, false, ◌≡◌, refl, arith, drop}
use mame_sys.Genixterm.{Machine, new_machine, type_keys, pump_keys, note, read_keys, go_on}
use mame_sys.Genixterm.Typing.{Event, pumped, printed, run, all_queued, run-order, pump_keys-rate}
use mame_sys.Genixterm.Output.{note_all, note_all-seen, BootedOnce, note-BootedOnce}
use mame_sys.Genixterm.Keys.{read_keys-keys_for}

-- The monitor's prompt arrives in two pieces, and two keys are due.
abbrev pub booting : List Event
booting = printed (13 ∷ []) ∷ printed (42 ∷ []) ∷ pumped 0 ∷ pumped 120 ∷ []

abbrev machine : Machine
machine = new_machine false

run-order_example :
    (run booting machine).sent ++ (run booting machine).pending
    ≡ (machine.sent ++ machine.pending) ++ all_queued booting machine
run-order_example = run-order booting machine

abbrev waiting : Machine
waiting = record {
  monitor = false;
  seen = [];
  booted = true;
  pending = 107 ∷ 13 ∷ [];
  next_key = 500;
  sent = [];
}

pump_keys-rate_example :
    pump_keys 650 true (type_keys (88 ∷ []) (pump_keys 600 true waiting))
    ≡ type_keys (88 ∷ []) (pump_keys 600 true waiting)
pump_keys-rate_example =
    pump_keys-rate 600 650 true true (88 ∷ []) waiting 107 (13 ∷ []) refl (omega arith)
      (omega arith)

note_all-seen_example :
    (note_all ((13 ∷ []) ∷ (42 ∷ []) ∷ []) (new_machine false)).seen
    ≡ drop (2 - 4096) (13 ∷ 42 ∷ [])
note_all-seen_example = note_all-seen ((13 ∷ []) ∷ (42 ∷ []) ∷ []) false

note-BootedOnce_example : BootedOnce machine (note (13 ∷ 42 ∷ []) machine)
note-BootedOnce_example = note-BootedOnce (13 ∷ 42 ∷ []) machine

read_keys-keys_for_example :
    read_keys false [] (97 ∷ 0x1d ∷ b']' ∷ 98 ∷ []) ≡ go_on false (97 ∷ 0x1d ∷ 98 ∷ [])
read_keys-keys_for_example = read_keys-keys_for [] (97 ∷ 0x1d ∷ 98 ∷ [])
