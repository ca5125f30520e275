-- ===== src/Genixterm/Sessions/Ends.antt =====
-- The loops of pack/genixterm.py end: `run_check` and `run_exec` return once their deadlines are past.
use mame_sys.Base.{
  ℕ, ◌+◌, ◌≤◌, List, [], ◌∷◌, Bool, true, false, ◌&&◌, not, ◌≡◌, refl, arith, Option, some, ltb,
  not_lt→ltb, Bool-cases, inl, inr,
}
use mame_sys.Genixterm.{Machine, type_keys, is_empty, saw}
use mame_sys.Genixterm.Exec.{
  ExecScript, ExecState, exec_loop, exec_round, is_finished, finish_exec, run_exec,
}
use mame_sys.Genixterm.Sessions.{
  Round, Script, is_gone, boot_loop, boot_on, reached_shell, echo_loop, sync_loop, sync,
  check_shell, finish_check, run_check, echo_command, sync_command, answer,
}

-- One of the rounds begins when the deadline is past.
pub data Late (deadline : ℕ) : List Round → Type 0 where
  now_late : {r : Round} {rounds : List Round} → deadline ≤ r.tested → Late deadline (r ∷ rounds)
  later : {r : Round} {rounds : List Round} → Late deadline rounds → Late deadline (r ∷ rounds)

-- There is a result.
pub data IsDone {A : Type 0} : Option A → Type 0 where
  is_done : {a : A} → IsDone (some a)

boot_on-IsDone :
    (m : Machine) {rest : Option (Bool × Machine)} → IsDone rest → IsDone (boot_on m rest)
unfolding boot_on
boot_on-IsDone m h = elim (Bool-cases (reached_shell m)) [
  | inl e ↦ rw (boot_on, e) is_done
  | inr e ↦ rw (boot_on, e) h
]

boot_loop-IsDone :
    (deadline : ℕ) (rounds : List Round) (m : Machine)
    → Late deadline rounds
    → IsDone (boot_loop deadline rounds m)
unfolding boot_loop
boot_loop-IsDone deadline [] m h = elim h [ ]
boot_loop-IsDone deadline (r ∷ rounds) m (now_late h) =
    rw (boot_loop, not_lt→ltb r.tested deadline h) is_done
boot_loop-IsDone deadline (r ∷ rounds) m (later h) =
    elim (Bool-cases (ltb r.tested deadline && r.alive)) [
      | inr e ↦ rw (boot_loop, e) is_done
      | inl e ↦ elim (Bool-cases (is_gone r.received)) [
        | inl g ↦ rw (boot_loop, e, g) is_done
        | inr g ↦ rw (boot_loop, e, g) (boot_on-IsDone _ (boot_loop-IsDone deadline rounds _ h))
      ]
    ]

echo_loop-IsDone :
    (end : ℕ) (rounds : List Round) (m : Machine)
    → Late end rounds
    → IsDone (echo_loop end rounds m)
unfolding echo_loop
echo_loop-IsDone end [] m h = elim h [ ]
echo_loop-IsDone end (r ∷ rounds) m (now_late h) = rw (echo_loop, not_lt→ltb r.tested end h) is_done
echo_loop-IsDone end (r ∷ rounds) m (later h) =
    elim (Bool-cases (ltb r.tested end && not (saw answer m))) [
      | inl e ↦ rw (echo_loop, e) (echo_loop-IsDone end rounds _ h)
      | inr e ↦ rw (echo_loop, e) is_done
    ]

later_of :
    {deadline : ℕ} {r : Round} {rounds : List Round}
    → Late deadline (r ∷ rounds)
    → ltb r.tested deadline ≡ true
    → Late deadline rounds
later_of (now_late h) soon = absurd (ground arith)
later_of (later h) soon = h

sync_loop-IsDone :
    (deadline : ℕ) (rounds : List Round) (m : Machine)
    → Late deadline rounds
    → IsDone (sync_loop deadline rounds m)
unfolding sync_loop
sync_loop-IsDone deadline [] m h = elim h [ ]
sync_loop-IsDone deadline (r ∷ rounds) m h = elim (Bool-cases (is_empty m.pending)) [
  | inl e ↦ rw (sync_loop, e) is_done
  | inr e ↦ elim (Bool-cases (ltb r.tested deadline)) [
    | inl soon ↦ rw (sync_loop, e, soon) (sync_loop-IsDone deadline rounds _ (later_of h soon))
    | inr past ↦ rw (sync_loop, e, past) is_done
  ]
]

-- The result that there is.
data Gives {A : Type 0} (o : Option A) : Type 0 where
  gives : (a : A) → o ≡ some a → Gives o

IsDone-Gives : {A : Type 0} {o : Option A} → IsDone o → Gives o
IsDone-Gives (is_done {a}) = gives a refl

check_shell-IsDone :
    (s : Script) (m : Machine) → Late (s.echo_start + 25000) s.echoes → IsDone (check_shell s m)
unfolding check_shell
check_shell-IsDone s m h = elim (Bool-cases (reached_shell m)) [
  | inr e ↦ rw (check_shell, e) is_done
  | inl e ↦ elim (IsDone-Gives (echo_loop-IsDone _ s.echoes (type_keys echo_command m) h)) [
    | gives m₁ ends ↦ rw (check_shell, e, ends) is_done
  ]
]

sync-IsDone :
    (now : ℕ) (rounds : List Round) (m : Machine)
    → Late (now + 6000) rounds
    → IsDone (sync now rounds m)
unfolding sync
sync-IsDone now rounds m h = sync_loop-IsDone (now + 6000) rounds (type_keys sync_command m) h

finish_check-IsDone :
    (s : Script) (passed : Bool) (m : Machine)
    → Late (s.sync_start + 6000) s.syncs
    → IsDone (finish_check s passed m)
unfolding finish_check
finish_check-IsDone s passed m h = elim (IsDone-Gives (sync-IsDone s.sync_start s.syncs m h)) [
  | gives m₁ ends ↦ rw (finish_check, ends) is_done
]

-- `run_check` returns: each of its three loops ends at the latest with the first round that begins when
-- its deadline is past, whatever the machine, the emulator and the socket do.
pub run_check-IsDone :
    (s : Script) (m : Machine)
    → Late (s.start + s.timeout) s.boots
    → Late (s.echo_start + 25000) s.echoes
    → Late (s.sync_start + 6000) s.syncs
    → IsDone (run_check s m)
unfolding run_check
run_check-IsDone s m hb he hs = elim (IsDone-Gives (boot_loop-IsDone _ s.boots m hb)) [
  | gives (gone, m₁) booted ↦ elim (IsDone-Gives (check_shell-IsDone s m₁ he)) [
    | gives (passed, m₂) checked ↦
        rw (run_check, booted, checked) (finish_check-IsDone s passed m₂ hs)
  ]
]

exec_loop-IsDone :
    (command : List ℕ) (deadline : ℕ) (rounds : List Round) (x : ExecState)
    → Late deadline rounds
    → IsDone (exec_loop command deadline rounds x)
unfolding exec_loop
exec_loop-IsDone command deadline [] x h = elim h [ ]
exec_loop-IsDone command deadline (r ∷ rounds) x (now_late h) =
    rw (exec_loop, not_lt→ltb r.tested deadline h) is_done
exec_loop-IsDone command deadline (r ∷ rounds) x (later h) =
    elim (Bool-cases (ltb r.tested deadline && r.alive)) [
      | inr e ↦ rw (exec_loop, e) is_done
      | inl e ↦ elim (Bool-cases (is_finished r.checked_at (exec_round command r x))) [
        | inl f ↦ rw (exec_loop, e, f) is_done
        | inr f ↦ rw (exec_loop, e, f) (exec_loop-IsDone command deadline rounds _ h)
      ]
    ]

finish_exec-IsDone :
    (s : ExecScript) (x : ExecState) → Late (s.sync_start + 6000) s.syncs → IsDone (finish_exec s x)
unfolding finish_exec
finish_exec-IsDone s x h = elim (IsDone-Gives (sync-IsDone s.sync_start s.syncs x.machine h)) [
  | gives m₁ ends ↦ rw (finish_exec, ends) is_done
]

-- `run_exec` returns: its loop and that of `sync_and_stop` end at the latest with the first round that
-- begins when their deadlines are past, whatever the machine, the emulator and the socket do.
pub run_exec-IsDone :
    (s : ExecScript) (command : List ℕ) (m : Machine)
    → Late (s.start + s.timeout) s.rounds
    → Late (s.sync_start + 6000) s.syncs
    → IsDone (run_exec s command m)
unfolding run_exec
run_exec-IsDone s command m hr hs =
    elim (IsDone-Gives (
      exec_loop-IsDone command _ s.rounds
        (record { typed = false; done = s.again + s.timeout; machine = m }) hr)) [
          | gives x ends ↦ rw (run_exec, ends) (finish_exec-IsDone s x hs)
        ]
