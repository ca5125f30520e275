-- ===== src/Genixterm/Output.antt =====
-- What pack/genixterm.py remembers of the console output, and the boot command that it types.
use mame_sys.Base.{ℕ, ◌-◌, List, [], ◌∷◌, ◌++◌, Bool, true, false, ◌≡◌, refl, sym, ap, ◌∙◌, arith}
use mame_sys.Base.{
  append-nil, append_assoc, length, drop, length-drop, length-append, drop-append, drop-drop,
  drop-zero, Bool-cases, inl, inr,
}
use mame_sys.Genixterm.{
  Machine, note, trim, boot, remember, should_boot, boot_command, new_machine, type_keys, contains,
  monitor_prompt, saw, is_empty,
}

-- All the output of a run of `note`, joined.
abbrev pub joined : List (List ℕ) → List ℕ
joined [] = []
joined (d ∷ ds) = d ++ joined ds

abbrev pub note_all : List (List ℕ) → Machine → Machine
note_all [] m = m
note_all (d ∷ ds) m = note_all ds (note d m)

trim-append : (a b : List ℕ) → trim (trim a ++ b) ≡ trim (a ++ b)
unfolding trim
trim-append a b =
    let k = length a - 4096 in
    let tail : drop (k - length a) b ≡ b = ap (λ n. drop n b) (omega arith) ∙ drop-zero b in
    let joins : drop k a ++ b ≡ drop k (a ++ b) =
      ap (λ l. drop k a ++ l) (sym tail) ∙ sym (drop-append k a b) in
    ap (λ l. drop (length l - 4096) l) joins
    ∙ drop-drop (length (drop k (a ++ b)) - 4096) k (a ++ b)
    ∙ ap (λ n. drop n (a ++ b)) (omega (arith, length-drop k (a ++ b), length-append a b))

pub boot-seen : (m : Machine) → (boot m).seen ≡ m.seen
unfolding boot type_keys
boot-seen m = elim (Bool-cases (should_boot m)) [ inl e ↦ rw e refl | inr e ↦ rw e refl ]

boot-booted : (m : Machine) → m.booted ≡ true → boot m ≡ m
unfolding boot should_boot
boot-booted m h = rw h refl

note_all-seen_from :
    (ds : List (List ℕ)) (m : Machine) (before : List ℕ)
    → m.seen ≡ trim before
    → (note_all ds m).seen ≡ trim (before ++ joined ds)
unfolding note remember
note_all-seen_from [] m before h = h ∙ ap trim (sym (append-nil before))
note_all-seen_from (d ∷ ds) m before h =
    note_all-seen_from ds (note d m) (before ++ d)
      (boot-seen (remember d m) ∙ ap (λ l. trim (l ++ d)) h ∙ trim-append before d)
    ∙ ap trim (append_assoc before d (joined ds))

-- However the output of a new machine is cut into pieces, what is remembered of it is its last 4096
-- bytes, or all of it when it is shorter.
pub note_all-seen :
    (ds : List (List ℕ)) (monitor : Bool)
    → (note_all ds (new_machine monitor)).seen ≡ drop (length (joined ds) - 4096) (joined ds)
unfolding trim new_machine
note_all-seen ds monitor = note_all-seen_from ds (new_machine monitor) [] (sym (drop-zero []))

-- One piece of output leaves the machine as it was but for what it remembers of the output, or it
-- gets the boot command typed.
pub data BootedOnce (m m' : Machine) : Type 0 where
  idle : m'.booted ≡ m.booted → m'.pending ≡ m.pending → BootedOnce m m'
  booted_now :
      m.booted ≡ false
      → m.monitor ≡ false
      → contains monitor_prompt m'.seen ≡ true
      → m.pending ≡ []
      → m'.booted ≡ true
      → m'.pending ≡ boot_command
      → BootedOnce m m'

should_boot-true :
    (m : Machine)
    → should_boot m ≡ true
    → (m.booted ≡ false)
      × (m.monitor ≡ false)
      × (saw monitor_prompt m ≡ true)
      × (is_empty m.pending ≡ true)
unfolding should_boot
should_boot-true m h = ground arith

is_empty-true : (l : List ℕ) → is_empty l ≡ true → l ≡ []
unfolding is_empty
is_empty-true [] h = refl
is_empty-true (x ∷ xs) h = cc

-- Whatever the machine prints, either nothing is typed, or it is the boot command that is typed: that
-- happens only when the machine was not booted, `--monitor` was not given, the monitor's prompt stands
-- in the output remembered and no key waits; and the machine is then booted.
pub note-BootedOnce : (bytes : List ℕ) (m : Machine) → BootedOnce m (note bytes m)
unfolding note boot remember type_keys saw
note-BootedOnce bytes m = elim (Bool-cases (should_boot (remember bytes m))) [
  | inl e ↦
      let (b, mon, prompt, empty) = should_boot-true (remember bytes m) e in
      let none_waits = is_empty-true m.pending empty in
      rw e (booted_now b mon prompt none_waits refl (ap (λ l. l ++ boot_command) none_waits))
  | inr e ↦ rw e (idle refl refl)
]

-- Once the machine is booted, no output types anything any more, and it stays booted.
pub note_all-booted :
    (ds : List (List ℕ)) (m : Machine)
    → m.booted ≡ true
    → ((note_all ds m).pending ≡ m.pending) × ((note_all ds m).booted ≡ true)
unfolding note remember
note_all-booted [] m h = (refl, h)
note_all-booted (d ∷ ds) m h =
    let e = boot-booted (remember d m) h in
    let (same, booted) = note_all-booted ds (note d m) (ap (λ m. m.booted) e ∙ h) in
    (same ∙ ap (λ m. m.pending) e, booted)
