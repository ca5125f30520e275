-- ===== src/Tests/Sessions.antt =====
-- The theorems on the sessions of the terminal.
use mame_sys.Base.{
  ℕ, zero, suc, ◌+◌, ◌*◌, ◌≤◌, List, [], ◌∷◌, ◌++◌, Option, none, some, true, false, ◌≡◌, refl,
  arith, drop,
}
use mame_sys.Genixterm.{
  Machine, new_machine, type_keys, pump_keys, send_first, note, boot, remember, trim, should_boot,
  saw, contains, starts_with, is_empty,
}
use mame_sys.Genixterm.Exec.{
  ExecScript, run_exec, exec_loop, exec_round, type_command, is_finished, finish_exec, is_space,
  strip_end, ends_with_hash,
}
use mame_sys.Genixterm.Exec.Typed.{Prompted, run_exec-Prompted}
use mame_sys.Genixterm.Sessions.{
  Round, got, would_block, Recv, Script, banner, single_user, prompt, answer, sync, sync_command,
  sync_loop, take_in, is_gone, boot_on, boot_loop, echo_loop, reached_shell, check_shell,
  finish_check, run_check,
}
use mame_sys.Genixterm.Sessions.Check.{Passed, run_check-Passed}
use mame_sys.Genixterm.Sessions.Ends.{now_late, later, IsDone, run_check-IsDone}
use mame_sys.Genixterm.Sessions.Sync.{Paced, over, next, Emptied, sync-Emptied}

-- A round at `now` that receives this.
abbrev at : ℕ → Recv → Round
at now received = record {
  tested = now;
  alive = true;
  pumped = now;
  accepts = true;
  received = received;
  typed_at = now;
  checked_at = now;
}

-- So many rounds, each 300 ms behind the one before.
abbrev quiet_rounds : ℕ → ℕ → List Round
quiet_rounds t zero = []
quiet_rounds t (suc n) = at (t + 300) would_block ∷ quiet_rounds (t + 300) n

quiet_rounds-Paced :
    (n t deadline : ℕ) → deadline ≤ t + n * 300 → Paced 300 deadline t (quiet_rounds t n)
quiet_rounds-Paced zero t deadline h = over (omega arith)
quiet_rounds-Paced (suc n) t deadline h =
    next refl (omega arith) (omega arith) (quiet_rounds-Paced n (t + 300) deadline (omega arith))

-- One key waits, which is due at once.
abbrev leaving : Machine
leaving = type_keys (13 ∷ []) (new_machine false)

sync-Emptied_example :
    Emptied leaving.sent (leaving.pending ++ sync_command) (sync 0 (quiet_rounds 0 20) leaving)
unfolding type_keys new_machine
sync-Emptied_example =
    sync-Emptied 300 0 (quiet_rounds 0 20) leaving (quiet_rounds-Paced 20 0 6000 (ground arith))
      (ground arith) (ground arith)

-- The shell comes up, answers, and the six seconds of the end pass.
abbrev good : Script
good = record {
  start = 0;
  timeout = 420000;
  boots =
      at 10 (got banner)
      ∷ at 20 would_block
      ∷ at 30 (got single_user)
      ∷ at 40 (got prompt)
      ∷ at 420000 would_block
      ∷ [];
  echo_start = 50;
  echoes = at 60 (got answer) ∷ at 80 would_block ∷ at 25050 would_block ∷ [];
  sync_start = 100;
  syncs = at 120 would_block ∷ at 6100 would_block ∷ [];
}

abbrev machine : Machine
machine = new_machine false

abbrev machine_of : Option (ℕ × Machine) → Machine
machine_of none = machine
machine_of (some (code, m)) = m

good-passes : run_check good machine ≡ some (0, machine_of (run_check good machine))
unfolding run_check boot_loop boot_on is_gone take_in pump_keys send_first note boot remember trim
    should_boot saw contains starts_with is_empty reached_shell check_shell echo_loop finish_check
    sync sync_loop type_keys new_machine drop
good-passes = refl

run_check-Passed_example : Passed good machine
run_check-Passed_example =
    run_check-Passed good machine (machine_of (run_check good machine)) good-passes

run_check-IsDone_example : IsDone (run_check good machine)
run_check-IsDone_example =
    run_check-IsDone good machine (later (later (later (later (now_late (ground arith))))))
      (later (later (now_late (ground arith)))) (later (now_late (ground arith)))

-- The prompt comes, `ls` is typed and sent, and the prompt comes back.
abbrev listing : ExecScript
listing = record {
  start = 0;
  again = 1;
  timeout = 420000;
  rounds =
      at 10 (got (single_user ++ prompt))
      ∷ at 20 would_block
      ∷ at 150 would_block
      ∷ at 300 (got prompt)
      ∷ [];
  sync_start = 400;
  syncs = at 6400 would_block ∷ [];
}

abbrev ls : List ℕ
ls = 108 ∷ 115 ∷ []

listing-succeeds : run_exec listing ls machine ≡ some (0, machine_of (run_exec listing ls machine))
unfolding run_exec exec_loop exec_round type_command is_finished finish_exec is_space strip_end
    ends_with_hash take_in pump_keys send_first note boot remember trim should_boot saw contains
    starts_with is_empty sync sync_loop type_keys new_machine drop
listing-succeeds = refl

run_exec-Prompted_example : Prompted machine.seen listing.rounds
run_exec-Prompted_example =
    run_exec-Prompted listing ls machine (machine_of (run_exec listing ls machine)) listing-succeeds
