-- ===== src/Genixterm/Sessions/Check.antt =====
-- What the exit code 0 of `run_check` of pack/genixterm.py tells.
use mathlib.Core.Path.{subst}
use mame_sys.Base.{
  ℕ, suc, ◌+◌, List, [], ◌∷◌, ◌++◌, Bool, true, false, ◌&&◌, not, ◌≡◌, refl, sym, ap, ◌∙◌, arith,
  Option, none, some, append-nil, append_assoc, ltb, take, Bool-cases, inl, inr, if◌then◌else◌,
}
use mame_sys.Genixterm.{Machine, type_keys, pump_keys, contains, saw}
use mame_sys.Genixterm.Sessions.{
  Round, Script, prompt, banner, single_user, answer, echo_command, reached_shell, boot_on, is_gone,
  boot_loop, echo_loop, check_shell, finish_check, run_check, sync, take_in,
}
use mame_sys.Genixterm.Sessions.Markers.{heard, heard_in, round-heard, pump_keys-seen}

-- A result, if there is one, has the property.
pub data Ends {A : Type 0} (P : A → Type 0) : Option A → Type 0 where
  nothing : Ends P none
  ends : {a : A} → P a → Ends P (some a)

pub Ends-some : {A : Type 0} {P : A → Type 0} {o : Option A} {a : A} → Ends P o → o ≡ some a → P a
Ends-some nothing h = absurd cc
Ends-some {P = P} {a = a} (ends {a = b} p) h = let same : b ≡ a = cc in subst P same p

pub Ends-map :
    {A : Type 0} {P Q : A → Type 0} {o : Option A} → ((a : A) → P a → Q a) → Ends P o → Ends Q o
Ends-map f nothing = nothing
Ends-map f (ends {a} p) = ends (f a p)

pub Ends-any : {A : Type 0} (o : Option A) → Ends (λ a. Unit) o
Ends-any none = nothing
Ends-any (some a) = ends tt

pub Ends-then :
    {A B : Type 0} {P : A → Type 0} {Q : B → Type 0} {o : Option A} {f : A → Option B}
    → ((a : A) → P a → Ends Q (f a))
    → Ends P o
    → Ends Q (elim o [ none ↦ none | some a ↦ f a ])
Ends-then f nothing = nothing
Ends-then f (ends {a} p) = f a p

boot_on-Ends :
    {P : Bool × Machine → Type 0} {rest : Option (Bool × Machine)} (m : Machine)
    → P (false, m)
    → Ends P rest
    → Ends P (boot_on m rest)
unfolding boot_on
boot_on-Ends m p h = elim (Bool-cases (reached_shell m)) [
  | inl e ↦ rw (boot_on, e) (ends p)
  | inr e ↦ rw (boot_on, e) h
]

-- What the machine shows is the end of what it showed before and of the first rounds' output: a marker
-- that is found in it, or in it and what comes next, is in that text.
pub data Heard (before : List ℕ) (rounds : List Round) (m : Machine) : Type 0 where
  heard_of :
      (k : ℕ)
      → ((marker more : List ℕ)
          → contains marker (m.seen ++ more) ≡ true
          → contains marker (before ++ (heard (take k rounds) ++ more)) ≡ true)
      → Heard before rounds m

gone-Heard :
    (r : Round) (rounds : List Round) (m : Machine)
    → Heard m.seen rounds (pump_keys r.pumped r.accepts m)
unfolding take
gone-Heard r rounds m = heard_of 0 (λ marker more h.
    ap (λ l. contains marker (l ++ more)) (sym (pump_keys-seen r.pumped r.accepts m)) ∙ h)

round-Heard :
    (r : Round) (rounds : List Round) (m m' : Machine)
    → Heard (take_in r.received (pump_keys r.pumped r.accepts m)).seen rounds m'
    → Heard m.seen (r ∷ rounds) m'
unfolding take
round-Heard r rounds m m' (heard_of k f) = heard_of (suc k) (λ marker more h.
    ap (λ l. contains marker (m.seen ++ l))
      (append_assoc (heard_in r.received) (heard (take k rounds)) more)
    ∙ round-heard marker r (heard (take k rounds) ++ more) m (f marker more h))

same-Heard : (rounds : List Round) (m : Machine) → Heard m.seen rounds m
unfolding take
same-Heard rounds m = heard_of 0 (λ marker more h. h)

boot_loop-Heard :
    (deadline : ℕ) (rounds : List Round) (m : Machine)
    → Ends (λ p. Heard m.seen rounds (p.1)) (boot_loop deadline rounds m)
unfolding boot_loop
boot_loop-Heard deadline [] m = nothing
boot_loop-Heard deadline (r ∷ rounds) m = elim (Bool-cases (ltb r.tested deadline && r.alive)) [
  | inr e ↦ rw (boot_loop, e) (ends (same-Heard (r ∷ rounds) m))
  | inl e ↦ elim (Bool-cases (is_gone r.received)) [
    | inl g ↦ rw (boot_loop, e, g) (ends (gone-Heard r (r ∷ rounds) m))
    | inr g ↦
        rw (boot_loop, e, g)
          (boot_on-Ends _ (round-Heard r rounds m _ (same-Heard rounds _))
            (Ends-map (λ p. round-Heard r rounds m (p.1)) (boot_loop-Heard deadline rounds _)))
  ]
]

echo_loop-Heard :
    (end : ℕ) (rounds : List Round) (m : Machine)
    → Ends (λ m'. Heard m.seen rounds m') (echo_loop end rounds m)
unfolding echo_loop
echo_loop-Heard end [] m = nothing
echo_loop-Heard end (r ∷ rounds) m = elim (Bool-cases (ltb r.tested end && not (saw answer m))) [
  | inr e ↦ rw (echo_loop, e) (ends (same-Heard (r ∷ rounds) m))
  | inl e ↦ rw (echo_loop, e) (Ends-map (round-Heard r rounds m) (echo_loop-Heard end rounds _))
]

-- A passed check has received, from the machine as it was on, the three texts of a shell in some first
-- rounds of the one loop, and the shell's answer in these and some first rounds of the other.
pub data Passed (s : Script) (m : Machine) : Type 0 where
  passed :
      (k n : ℕ)
      → contains banner (m.seen ++ heard (take k s.boots)) ≡ true
      → contains single_user (m.seen ++ heard (take k s.boots)) ≡ true
      → contains prompt (m.seen ++ heard (take k s.boots)) ≡ true
      → contains answer (m.seen ++ (heard (take k s.boots) ++ heard (take n s.echoes))) ≡ true
      → Passed s m

-- The shell's test, once the loop before it has ended with the machine `m₁`.
data Answered (s : Script) (m₁ : Machine) (ok : Bool) : Type 0 where
  not_ok : ok ≡ false → Answered s m₁ ok
  answered :
      (n : ℕ)
      → reached_shell m₁ ≡ true
      → contains answer (m₁.seen ++ heard (take n s.echoes)) ≡ true
      → Answered s m₁ ok

shown :
    (marker seen before text : List ℕ)
    → (contains marker (seen ++ []) ≡ true → contains marker (before ++ (text ++ [])) ≡ true)
    → contains marker seen ≡ true
    → contains marker (before ++ text) ≡ true
shown marker seen before text f h =
    ap (λ l. contains marker (before ++ l)) (sym (append-nil text))
    ∙ f (ap (contains marker) (append-nil seen) ∙ h)

saw_answer :
    (s : Script) (m₁ m₂ : Machine)
    → reached_shell m₁ ≡ true
    → Heard m₁.seen s.echoes m₂
    → Answered s m₁ (saw answer m₂)
unfolding saw
saw_answer s m₁ m₂ r (heard_of n f) = elim (Bool-cases (saw answer m₂)) [
  | inr e ↦ not_ok e
  | inl e ↦ answered n r (shown answer m₂.seen m₁.seen (heard (take n s.echoes)) (f answer []) e)
]

check_shell-Answered : (s : Script) (m : Machine) → Ends (λ p. Answered s m (p.0)) (check_shell s m)
unfolding check_shell type_keys
check_shell-Answered s m = elim (Bool-cases (reached_shell m)) [
  | inr e ↦ rw (check_shell, e) (ends (not_ok refl))
  | inl e ↦
      rw (check_shell, e)
        (Ends-then (λ m₂ h. ends (saw_answer s m m₂ e h))
          (echo_loop-Heard (s.echo_start + 25000) s.echoes (type_keys echo_command m)))
]

pub code_zero : (ok : Bool) → ◌≡◌ {A = ℕ} (if ok then 0 else 1) 0 → ok ≡ true
code_zero true h = refl
code_zero false h = absurd (ground (arith, h))

finish_check-passed :
    (s : Script) (ok : Bool) (m : Machine) → Ends (λ p. p.0 ≡ 0 → ok ≡ true) (finish_check s ok m)
unfolding finish_check
finish_check-passed s ok m =
    Ends-then {P = λ m'. Unit} (λ m₁ h. ends (code_zero ok))
      (Ends-any (sync s.sync_start s.syncs m))

shell-Passed :
    (s : Script) (m m₁ : Machine) → Heard m.seen s.boots m₁ → Answered s m₁ true → Passed s m
unfolding reached_shell saw
shell-Passed s m m₁ h (not_ok e) = absurd (ground arith)
shell-Passed s m m₁ (heard_of k f) (answered n r a) =
    let text = heard (take k s.boots) in
    passed k n (shown banner m₁.seen m.seen text (f banner []) (ground (arith, r)))
      (shown single_user m₁.seen m.seen text (f single_user []) (ground (arith, r)))
      (shown prompt m₁.seen m.seen text (f prompt []) (ground (arith, r)))
      (f answer (heard (take n s.echoes)) a)

run_check-Ends : (s : Script) (m : Machine) → Ends (λ p. p.0 ≡ 0 → Passed s m) (run_check s m)
unfolding run_check
run_check-Ends s m =
    Ends-then
      (λ p h.
        Ends-then
          (λ q a.
            Ends-map
              (λ c done zero_code.
                shell-Passed s m (p.1) h (subst (Answered s (p.1)) (done zero_code) a))
              (finish_check-passed s (q.0) (q.1)))
          (check_shell-Answered s (p.1)))
      (boot_loop-Heard (s.start + s.timeout) s.boots m)

-- The exit code 0 of `run_check` is never given for a machine without a shell: it means that the
-- banner, the single user message and the prompt are each found in what had been seen before, followed
-- by what some first rounds of the first loop received, and the answer to the `echo` command in this
-- text, followed by what some first rounds of the second loop received.
pub run_check-Passed : (s : Script) (m m' : Machine) → run_check s m ≡ some (0, m') → Passed s m
run_check-Passed s m m' h = Ends-some (run_check-Ends s m) h refl
