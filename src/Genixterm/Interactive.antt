-- ===== src/Genixterm/Interactive.antt =====
-- pack/genixterm.py: the loop of `run_interactive`. What the process, the clock, the socket and `select`
-- answer in each turn is a list of turns.
pub mod Asked
pub mod Causes
pub mod Keyboard
use mame_sys.Base.{ℕ, List, [], ◌∷◌, Bool, true, false, Option, none, some}
use mame_sys.Genixterm.{
  Machine, Exit, sync_and_stop, stop, Read, go_on, leave, read_keys, pump_keys, note,
}
use mame_sys.Genixterm.Sessions.{Round, sync}

-- A file that `select` finds ready, with what is read from it: nothing at its end, and, for the socket,
-- on an `OSError`.
pub data Ready : Type 0 where
  keyboard : List ℕ → Ready
  console : List ℕ → Ready

pub record Turn : Type 0 where
  pub alive : Bool
  pub pumped : ℕ
  pub accepts : Bool
  pub ready : List Ready

-- Why the session ends: a key asked for it, one of the two files ended, or the emulator did.
pub data Ended : Type 0 where
  asked : Exit → Ended
  interrupted : Ended
  exited : Ended

-- The loop over the ready files: it goes on with a new `escape`, or the session ends.
pub data Handled : Type 0 where
  handled : Bool → Machine → Handled
  ended : Ended → Machine → Handled

unfoldable pub handle : List Ready → Bool → Machine → Handled
handle [] escape m = handled escape m
handle (keyboard [] ∷ rest) escape m = ended interrupted m
handle (keyboard (b ∷ bytes) ∷ rest) escape m = elim (read_keys escape m.pending (b ∷ bytes)) [
  | go_on escape' pending ↦ handle rest escape' (record m { pending = pending })
  | leave e pending ↦ ended (asked e) (record m { pending = pending })
]
handle (console [] ∷ rest) escape m = ended interrupted m
handle (console (b ∷ bytes) ∷ rest) escape m = handle rest escape (note (b ∷ bytes) m)

unfoldable pub interact : List Turn → Bool → Machine → Option (Ended × Machine)
interact [] escape m = none
interact (turn ∷ turns) escape m = elim turn.alive [
  | false ↦ some (exited, m)
  | true ↦ elim (handle turn.ready escape (pump_keys turn.pumped turn.accepts m)) [
    | handled escape' m' ↦ interact turns escape' m'
    | ended why m' ↦ some (why, m')
  ]
]

-- What is done at the end, up to `stop`: only `Ctrl-] q` types the command that syncs the disk.
unfoldable pub finish : ℕ → List Round → Ended → Machine → Option Machine
finish now rounds (asked sync_and_stop) m = sync now rounds m
finish now rounds (asked stop) m = some m
finish now rounds interrupted m = some m
finish now rounds exited m = some m

unfoldable pub finish_after : ℕ → List Round → Option (Ended × Machine) → Option Machine
finish_after now rounds none = none
finish_after now rounds (some (why, m)) = finish now rounds why m

-- `run_interactive`, which always returns 0: the machine at its end.
unfoldable pub run_interactive : List Turn → ℕ → List Round → Machine → Option Machine
run_interactive turns now rounds m = finish_after now rounds (interact turns false m)
