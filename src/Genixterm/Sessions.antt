-- ===== src/Genixterm/Sessions.antt =====
-- pack/genixterm.py: the loops of `run_check` and `sync_and_stop`. What the clock, the
-- emulator's process and the socket answer in each round is given as a list of rounds; a loop that
-- needs another round when the list ends has no result. What is printed is left out.
pub mod Markers
pub mod Sync
pub mod Ends
pub mod Check
use mame_sys.Base.{
  ℕ, ◌+◌, List, [], ◌∷◌, ◌++◌, Bool, true, false, ◌&&◌, ◌||◌, not, Option, none, some, ltb, ◌==◌,
  if◌then◌else◌,
}
use mame_sys.Genixterm.{Machine, type_keys, pump_keys, note, saw, is_empty}

-- `sock.recv(4096)`: some bytes, none when the other side has closed, EAGAIN, or another `OSError`.
pub data Recv : Type 0 where
  got : List ℕ → Recv
  would_block : Recv
  broken : Recv

-- One round: the time at the loop's test, whether `proc.poll()` is None, the time given to `pump_keys`,
-- whether the socket takes a key, what `recv` gives, and the times read behind it, which are for `run_exec`.
pub record Round : Type 0 where
  pub tested : ℕ
  pub alive : Bool
  pub pumped : ℕ
  pub accepts : Bool
  pub received : Recv
  pub typed_at : ℕ
  pub checked_at : ℕ

-- b'UNIX/2.0v1'
abbrev pub banner : List ℕ
banner = b'U' ∷ b'N' ∷ b'I' ∷ b'X' ∷ b'/' ∷ b'2' ∷ b'.' ∷ b'0' ∷ b'v' ∷ b'1' ∷ []

-- b'# '
abbrev pub prompt : List ℕ
prompt = b'#' ∷ b' ' ∷ []

-- b'SINGLE USER MODE'
abbrev pub single_user : List ℕ
single_user =
    b'S' ∷ b'I' ∷ b'N' ∷ b'G' ∷ b'L' ∷ b'E' ∷ b' ' ∷ b'U' ∷ b'S' ∷ b'E' ∷ b'R' ∷ b' ' ∷ b'M' ∷ b'O'
    ∷ b'D' ∷ b'E' ∷ []

-- b"echo ok''1234\r"
abbrev pub echo_command : List ℕ
echo_command =
    b'e' ∷ b'c' ∷ b'h' ∷ b'o' ∷ b' ' ∷ b'o' ∷ b'k' ∷ 39 ∷ 39 ∷ b'1' ∷ b'2' ∷ b'3' ∷ b'4' ∷ 13 ∷ []

-- b'ok1234\r\n'
abbrev pub answer : List ℕ
answer = b'o' ∷ b'k' ∷ b'1' ∷ b'2' ∷ b'3' ∷ b'4' ∷ 13 ∷ 10 ∷ []

-- b'\r/bin/sync\r'
abbrev pub sync_command : List ℕ
sync_command = 13 ∷ b'/' ∷ b'b' ∷ b'i' ∷ b'n' ∷ b'/' ∷ b's' ∷ b'y' ∷ b'n' ∷ b'c' ∷ 13 ∷ []

unfoldable pub reached_shell : Machine → Bool
reached_shell m = saw banner m && (saw single_user m && saw prompt m)

-- The end of a round of the first loop, with the machine as `note` left it.
unfoldable pub boot_on : Machine → Option (Bool × Machine) → Option (Bool × Machine)
boot_on m rest = elim (reached_shell m) [ true ↦ some (false, m) | false ↦ rest ]

-- What a round leaves of the machine when the loop goes on.
unfoldable pub take_in : Recv → Machine → Machine
take_in (got []) m = m
take_in (got (b ∷ bytes)) m = note (b ∷ bytes) m
take_in would_block m = m
take_in broken m = m

-- Whether the loop of `run_check` takes the machine to be gone.
unfoldable pub is_gone : Recv → Bool
is_gone (got []) = true
is_gone (got (b ∷ bytes)) = false
is_gone would_block = false
is_gone broken = true

-- The first loop of `run_check`, up to `gone` and the machine.
unfoldable pub boot_loop : ℕ → List Round → Machine → Option (Bool × Machine)
boot_loop deadline [] m = none
boot_loop deadline (r ∷ rounds) m =
    let m₁ = pump_keys r.pumped r.accepts m in
    let m₂ = take_in r.received m₁ in
    elim (ltb r.tested deadline && r.alive) [
      | false ↦ some (false, m)
      | true ↦ elim (is_gone r.received) [
        | true ↦ some (true, m₁)
        | false ↦ boot_on m₂ (boot_loop deadline rounds m₂)
      ]
    ]

-- The second loop of `run_check`, which waits for the shell's answer.
unfoldable pub echo_loop : ℕ → List Round → Machine → Option Machine
echo_loop end [] m = none
echo_loop end (r ∷ rounds) m = elim (ltb r.tested end && not (saw answer m)) [
  | false ↦ some m
  | true ↦ echo_loop end rounds (take_in r.received (pump_keys r.pumped r.accepts m))
]

-- The loop of `sync_and_stop`. `drain` throws away what it receives.
unfoldable pub sync_loop : ℕ → List Round → Machine → Option Machine
sync_loop deadline [] m = elim (is_empty m.pending) [ true ↦ some m | false ↦ none ]
sync_loop deadline (r ∷ rounds) m = elim (is_empty m.pending) [
  | true ↦ some m
  | false ↦ elim (ltb r.tested deadline) [
    | false ↦ some m
    | true ↦ sync_loop deadline rounds (pump_keys r.pumped r.accepts m)
  ]
]

-- `sync_and_stop`, up to the call of `stop`, from the time that it reads first.
unfoldable pub sync : ℕ → List Round → Machine → Option Machine
sync now rounds m = sync_loop (now + 6000) rounds (type_keys sync_command m)

-- What the clock and the rounds are in the parts of a run.
pub record Script : Type 0 where
  pub start : ℕ
  pub timeout : ℕ
  pub boots : List Round
  pub echo_start : ℕ
  pub echoes : List Round
  pub sync_start : ℕ
  pub syncs : List Round

-- The test of the shell: whether it answered, and the machine.
unfoldable pub check_shell : Script → Machine → Option (Bool × Machine)
check_shell s m = elim (reached_shell m) [
  | false ↦ some (false, m)
  | true ↦ elim (echo_loop (s.echo_start + 25000) s.echoes (type_keys echo_command m)) [
    | none ↦ none
    | some m₁ ↦ some (saw answer m₁, m₁)
  ]
]

unfoldable pub finish_check : Script → Bool → Machine → Option (ℕ × Machine)
finish_check s passed m = elim (sync s.sync_start s.syncs m) [
  | none ↦ none
  | some m₁ ↦ some (if passed then 0 else 1, m₁)
]

-- `run_check`: its exit code, and the machine.
unfoldable pub run_check : Script → Machine → Option (ℕ × Machine)
run_check s m = elim (boot_loop (s.start + s.timeout) s.boots m) [
  | none ↦ none
  | some (gone, m₁) ↦ elim (check_shell s m₁) [
    | none ↦ none
    | some (passed, m₂) ↦ finish_check s passed m₂
  ]
]
