-- ===== src/Tests/Interactive.antt =====
-- The theorem on the end of an interactive session.
use mame_sys.Base.{◌++◌, List, [], ◌∷◌, true, false, some, ◌≡◌, refl, drop}
use mame_sys.Genixterm.{
  Machine, new_machine, sync_and_stop, read_keys, pump_keys, send_first, note, boot, remember, trim,
  should_boot, saw, contains, starts_with, is_empty, type_keys,
}
use mame_sys.Genixterm.Interactive.{Turn, keyboard, console, asked, handle, interact}
use mame_sys.Genixterm.Interactive.Keyboard.{no_turns, idle, chunk, ExitsWith, interact-ExitsWith}
use mame_sys.Genixterm.Interactive.Causes.{Cause, interact-Cause}

-- `a` and `Ctrl-]` are typed in one turn, and `q` in the next, behind some output.
abbrev turns : List Turn
turns =
    record { alive = true; pumped = 0; accepts = true; ready = keyboard (b'a' ∷ 0x1d ∷ []) ∷ [] }
    ∷ record {
      alive = true;
      pumped = 50;
      accepts = true;
      ready = console (b'a' ∷ []) ∷ keyboard (b'q' ∷ []) ∷ [];
    }
    ∷ []

abbrev machine : Machine
machine = new_machine false

abbrev at_end : Machine
at_end = record {
  monitor = false;
  seen = b'a' ∷ [];
  booted = false;
  pending = [];
  next_key = 170;
  sent = b'a' ∷ [];
}

turns-ends : interact turns false machine ≡ some (asked sync_and_stop, at_end)
unfolding interact handle read_keys pump_keys send_first note boot remember trim should_boot saw
    contains starts_with is_empty type_keys new_machine drop
turns-ends = refl

interact-Cause_example : Cause turns (asked sync_and_stop)
interact-Cause_example = interact-Cause turns (asked sync_and_stop) machine at_end turns-ends

-- The keys of `a`, `Ctrl-]`, `b`, cut behind the `Ctrl-]`, with an idle turn in between.
abbrev typing : List Turn
typing =
    record { alive = true; pumped = 0; accepts = true; ready = keyboard (b'a' ∷ 0x1d ∷ []) ∷ [] }
    ∷ record { alive = true; pumped = 50; accepts = true; ready = [] }
    ∷ record {
      alive = true;
      pumped = 130;
      accepts = true;
      ready = keyboard (b']' ∷ b'b' ∷ []) ∷ [];
    }
    ∷ []

abbrev over : Turn
over = record { alive = false; pumped = 0; accepts = true; ready = [] }

interact-ExitsWith_example :
    ExitsWith
      (([] ++ []) ++ (b'a' ∷ 0x1d ∷ b'b' ∷ []))
      (interact (typing ++ over ∷ []) false machine)
unfolding new_machine
interact-ExitsWith_example =
    interact-ExitsWith typing over (b'a' ∷ 0x1d ∷ b'b' ∷ []) machine
      (chunk b'a' (0x1d ∷ []) refl refl refl
        (idle refl refl refl (chunk b']' (b'b' ∷ []) refl refl refl no_turns)))
      refl
