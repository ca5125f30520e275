-- ===== src/Genixterm/Exec/Typed.antt =====
-- What the exit code of `run_exec` of pack/genixterm.py tells.
use mathlib.Core.Path.{subst}
use mame_sys.Base.{
  ℕ, suc, ◌+◌, List, [], ◌∷◌, ◌++◌, Bool, true, false, ◌&&◌, not, ◌≡◌, refl, ap, ◌∙◌, arith, some,
  append-nil, ltb, take, Bool-cases, inl, inr,
}
use mame_sys.Genixterm.{Machine, pump_keys, contains, saw}
use mame_sys.Genixterm.Exec.{
  ExecState, ExecScript, type_command, exec_round, exec_loop, is_finished, finish_exec, run_exec,
}
use mame_sys.Genixterm.Sessions.{Round, prompt, single_user, sync, take_in}
use mame_sys.Genixterm.Sessions.Check.{
  Ends, nothing, ends, Ends-some, Ends-any, Ends-then, Ends-map, code_zero,
}
use mame_sys.Genixterm.Sessions.Markers.{heard, round-heard}

-- The prompt and the single user message are in what was seen before and some first rounds received.
pub data Prompted (before : List ℕ) (rounds : List Round) : Type 0 where
  prompted :
      (k : ℕ)
      → contains prompt (before ++ heard (take k rounds)) ≡ true
      → contains single_user (before ++ heard (take k rounds)) ≡ true
      → Prompted before rounds

-- One more round in front.
round-Prompted :
    (r : Round) (rounds : List Round) (m : Machine)
    → Prompted (take_in r.received (pump_keys r.pumped r.accepts m)).seen rounds
    → Prompted m.seen (r ∷ rounds)
unfolding take
round-Prompted r rounds m (prompted k p u) =
    prompted (suc k) (round-heard prompt r (heard (take k rounds)) m p)
      (round-heard single_user r (heard (take k rounds)) m u)

-- A round that does not type the command leaves the machine as it took the output in.
data RoundTyped (r : Round) (rounds : List Round) (x x' : ExecState) : Type 0 where
  types : Prompted x.machine.seen (r ∷ rounds) → RoundTyped r rounds x x'
  not_yet :
      x'.typed ≡ false
      → x'.machine ≡ take_in r.received (pump_keys r.pumped r.accepts x.machine)
      → RoundTyped r rounds x x'

shows : Machine → Bool
shows m = saw prompt m && saw single_user m

shows-Prompted : (rounds : List Round) (m : Machine) → shows m ≡ true → Prompted m.seen rounds
unfolding shows saw take
shows-Prompted rounds m h =
    prompted 0 (ap (contains prompt) (append-nil m.seen) ∙ ground (arith, h))
      (ap (contains single_user) (append-nil m.seen) ∙ ground (arith, h))

off : (a : Bool) {b : Bool} → b ≡ false → (a && b) ≡ false
off a e = ground (arith, e)

exec_round-typed :
    (command : List ℕ) (r : Round) (rounds : List Round) (x : ExecState)
    → x.typed ≡ false
    → RoundTyped r rounds x (exec_round command r x)
unfolding exec_round type_command shows
exec_round-typed command r rounds x before =
    let m₁ : Machine = take_in r.received (pump_keys r.pumped r.accepts x.machine) in
    elim (Bool-cases (shows m₁)) [
      | inl e ↦ types (round-Prompted r rounds x.machine (shows-Prompted rounds m₁ e))
      | inr e ↦ rw (off (not x.typed) e) (not_yet before refl)
    ]

exec_loop-typed :
    (command : List ℕ) (deadline : ℕ) (rounds : List Round) (x : ExecState)
    → x.typed ≡ false
    → Ends
        (λ x'. x'.typed ≡ true → Prompted x.machine.seen rounds)
        (exec_loop command deadline rounds x)
unfolding exec_loop
exec_loop-typed command deadline [] x before = nothing
exec_loop-typed command deadline (r ∷ rounds) x before =
    elim (exec_round-typed command r rounds x before) [
      | types p ↦ Ends-map (λ x' done typed. p) (Ends-any _)
      | not_yet still same ↦ elim (Bool-cases (ltb r.tested deadline && r.alive)) [
        | inr e ↦ rw (exec_loop, e) (ends (λ typed. absurd (ground (arith, typed))))
        | inl e ↦ elim (Bool-cases (is_finished r.checked_at (exec_round command r x))) [
          | inl f ↦ rw (exec_loop, e, f) (ends (λ typed. absurd (ground (arith, typed))))
          | inr f ↦
              rw (exec_loop, e, f)
                (Ends-map
                  (λ x' p typed.
                    round-Prompted r rounds x.machine
                      (subst (λ (m : Machine). Prompted m.seen rounds) same (p typed)))
                  (exec_loop-typed command deadline rounds (exec_round command r x) still))
        ]
      ]
    ]

finish_exec-typed :
    (s : ExecScript) (x : ExecState) → Ends (λ p. p.0 ≡ 0 → x.typed ≡ true) (finish_exec s x)
unfolding finish_exec
finish_exec-typed s x =
    Ends-then {P = λ m. Unit} (λ m h. ends (code_zero x.typed))
      (Ends-any (sync s.sync_start s.syncs x.machine))

run_exec-Ends :
    (s : ExecScript) (command : List ℕ) (m : Machine)
    → Ends (λ p. p.0 ≡ 0 → Prompted m.seen s.rounds) (run_exec s command m)
unfolding run_exec
run_exec-Ends s command m =
    Ends-then (λ x h. Ends-map (λ p typed zero_code. h (typed zero_code)) (finish_exec-typed s x))
      (exec_loop-typed command (s.start + s.timeout) s.rounds
        (record { typed = false; done = s.again + s.timeout; machine = m }) refl)

-- The exit code 0 of `run_exec` means that the prompt and the single user message are each found in what
-- had been seen before, followed by what some first rounds of its loop received.
pub run_exec-Prompted :
    (s : ExecScript) (command : List ℕ) (m m' : Machine)
    → run_exec s command m ≡ some (0, m')
    → Prompted m.seen s.rounds
run_exec-Prompted s command m m' h = Ends-some (run_exec-Ends s command m) h refl
