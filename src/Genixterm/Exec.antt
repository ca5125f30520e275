-- ===== src/Genixterm/Exec.antt =====
-- pack/genixterm.py: `run_exec`, which runs one command, over the rounds of Genixterm/Sessions.
pub mod Typed
use mame_sys.Base.{
  ℕ, ◌+◌, List, [], ◌∷◌, ◌++◌, Bool, true, false, ◌&&◌, ◌||◌, not, Option, none, some, ltb, leb,
  ◌==◌, if◌then◌else◌,
}
use mame_sys.Genixterm.{Machine, type_keys, pump_keys, saw, contains, is_empty}
use mame_sys.Genixterm.Sessions.{Round, prompt, single_user, take_in, sync}

-- `run_exec` at one round: whether the command has been typed, the end of the wait for it, and the
-- machine.
pub record ExecState : Type 0 where
  pub typed : Bool
  pub done : ℕ
  pub machine : Machine

unfoldable pub is_space : ℕ → Bool
is_space b = (b == 32) || leb 9 b && leb b 13

-- `seen.rstrip()`
unfoldable pub strip_end : List ℕ → List ℕ
strip_end [] = []
strip_end (b ∷ bytes) =
    let rest = strip_end bytes in if is_space b && is_empty rest then [] else b ∷ rest

-- `seen.endswith(b'#')`
unfoldable pub ends_with_hash : List ℕ → Bool
ends_with_hash [] = false
ends_with_hash (b ∷ []) = b == b'#'
ends_with_hash (b ∷ c ∷ bytes) = ends_with_hash (c ∷ bytes)

-- The command is typed at the first prompt, and what was printed up to it is forgotten.
unfoldable pub type_command : List ℕ → ℕ → ExecState → ExecState
type_command command now x =
    if not x.typed && (saw prompt x.machine && saw single_user x.machine)
    then record {
      typed = true;
      done = now + 40000;
      machine = record (type_keys (command ++ 13 ∷ []) x.machine) { seen = [] };
    }
    else x

-- The two tests that end the loop once the command is typed: it took too long, or a prompt came back.
unfoldable pub is_finished : ℕ → ExecState → Bool
is_finished now x =
    x.typed
    && (ltb x.done now
        || contains prompt x.machine.seen
          && (is_empty x.machine.pending && ends_with_hash (strip_end x.machine.seen)))

unfoldable pub exec_round : List ℕ → Round → ExecState → ExecState
exec_round command r x =
    type_command command r.typed_at
      (record x { machine = take_in r.received (pump_keys r.pumped r.accepts x.machine) })

-- The loop of `run_exec`.
unfoldable pub exec_loop : List ℕ → ℕ → List Round → ExecState → Option ExecState
exec_loop command deadline [] x = none
exec_loop command deadline (r ∷ rounds) x =
    let x' = exec_round command r x in
    elim (ltb r.tested deadline && r.alive) [
      | false ↦ some x
      | true ↦ elim (is_finished r.checked_at x') [
        | true ↦ some x'
        | false ↦ exec_loop command deadline rounds x'
      ]
    ]

-- What the clock and the rounds are in `run_exec`, which reads the clock twice at its start.
pub record ExecScript : Type 0 where
  pub start : ℕ
  pub again : ℕ
  pub timeout : ℕ
  pub rounds : List Round
  pub sync_start : ℕ
  pub syncs : List Round

unfoldable pub finish_exec : ExecScript → ExecState → Option (ℕ × Machine)
finish_exec s x = elim (sync s.sync_start s.syncs x.machine) [
  | none ↦ none
  | some m ↦ some (if x.typed then 0 else 1, m)
]

-- `run_exec`, with the command as the bytes that it is in latin1: its exit code, and the machine.
unfoldable pub run_exec : ExecScript → List ℕ → Machine → Option (ℕ × Machine)
run_exec s command m =
    elim (exec_loop command (s.start + s.timeout) s.rounds
      (record { typed = false; done = s.again + s.timeout; machine = m })) [
        | none ↦ none
        | some x ↦ finish_exec s x
      ]
