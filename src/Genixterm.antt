-- ===== src/Genixterm.antt =====
-- pack/genixterm.py: the typing at a human rate, the console output that is remembered, and the keys of
-- the interactive session. Times are whole milliseconds.
pub mod Typing
pub mod Output
pub mod Keys
pub mod Sessions
pub mod Exec
pub mod Interactive
use mame_sys.Base.{ℕ, zero, suc, ◌+◌, ◌-◌, List, [], ◌∷◌, ◌++◌, Bool, true, false, ◌&&◌, ◌||◌, not}
use mame_sys.Base.{Option, none, some, length, drop, ltb, leb, ◌==◌, if◌then◌else◌}

-- The fields of `Machine` that its methods change after `__init__`, the option `--monitor`, and what
-- went through the socket.
pub record Machine : Type 0 where
  pub monitor : Bool
  pub seen : List ℕ
  pub booted : Bool
  pub pending : List ℕ
  pub next_key : ℕ
  pub sent : List ℕ

unfoldable pub new_machine : Bool → Machine
new_machine monitor = record {
  monitor = monitor;
  seen = [];
  booted = false;
  pending = [];
  next_key = 0;
  sent = [];
}

unfoldable pub type_keys : List ℕ → Machine → Machine
type_keys text m = record m { pending = m.pending ++ text }

-- The body of `pump_keys` on what `pending` holds. `accepts` says whether the socket takes the byte or
-- raises `OSError`, after which the byte is gone.
unfoldable pub send_first : ℕ → Bool → List ℕ → Machine → Machine
send_first now accepts [] m = m
send_first now accepts (ch ∷ rest) m =
    if leb m.next_key now
    then record m {
      pending = rest;
      next_key = now + 120;
      sent = if accepts then m.sent ++ ch ∷ [] else m.sent;
    }
    else m

unfoldable pub pump_keys : ℕ → Bool → Machine → Machine
pump_keys now accepts m = send_first now accepts m.pending m

unfoldable pub starts_with : List ℕ → List ℕ → Bool
starts_with [] d = true
starts_with (c ∷ cs) [] = false
starts_with (c ∷ cs) (x ∷ xs) = (c == x) && starts_with cs xs

-- `marker in d`
unfoldable pub contains : List ℕ → List ℕ → Bool
contains marker [] = starts_with marker []
contains marker (x ∷ xs) = starts_with marker (x ∷ xs) || contains marker xs

unfoldable pub saw : List ℕ → Machine → Bool
saw marker m = contains marker m.seen

unfoldable pub is_empty : List ℕ → Bool
is_empty [] = true
is_empty (x ∷ xs) = false

-- `del seen[:-4096]`
unfoldable pub trim : List ℕ → List ℕ
trim seen = drop (length seen - 4096) seen

-- '\r*'
abbrev pub monitor_prompt : List ℕ
monitor_prompt = 13 ∷ 42 ∷ []

-- 'k\r'
abbrev pub boot_command : List ℕ
boot_command = 107 ∷ 13 ∷ []

unfoldable pub should_boot : Machine → Bool
should_boot m = not m.booted && (not m.monitor && (saw monitor_prompt m && is_empty m.pending))

-- The first half of `note`: what the machine printed is remembered.
unfoldable pub remember : List ℕ → Machine → Machine
remember bytes m = record m { seen = trim (m.seen ++ bytes) }

-- The second half: once the monitor is up, it is told to boot.
unfoldable pub boot : Machine → Machine
boot m = if should_boot m then type_keys boot_command (record m { booted = true }) else m

unfoldable pub note : List ℕ → Machine → Machine
note bytes m = boot (remember bytes m)

-- How a session ends from the keyboard: `Ctrl-] q`, with a sync, or `Ctrl-] x`, without one.
pub data Exit : Type 0 where
  sync_and_stop : Exit
  stop : Exit

-- The loop `for b in data` of `run_interactive`, from `escape` on: the new `escape` or the exit,
-- and the new `pending`.
pub data Read : Type 0 where
  go_on : Bool → List ℕ → Read
  leave : Exit → List ℕ → Read

unfoldable pub read_keys : Bool → List ℕ → List ℕ → Read
read_keys escape pending [] = go_on escape pending
read_keys true pending (b ∷ bytes) =
    if (b == b'q') || (b == b'Q')
    then leave sync_and_stop pending
    else (if (b == b'x') || (b == b'X')
        then leave stop pending
        else read_keys false (pending ++ 0x1d ∷ []) bytes)
read_keys false pending (b ∷ bytes) =
    if b == 0x1d then read_keys true pending bytes else read_keys false (pending ++ b ∷ []) bytes
