-- ===== src/Genixterm/Sessions/Markers.antt =====
-- What the loops of pack/genixterm.py see of the output: a marker that they find was received.
use mame_sys.Base.{
  ℕ, zero, suc, ◌-◌, List, [], ◌∷◌, ◌++◌, Bool, true, false, ◌&&◌, ◌||◌, ◌≡◌, refl, sym, ap, ◌∙◌,
  arith, append_assoc, drop, length, leb, ◌==◌, Bool-cases, inl, inr,
}
use mame_sys.Genixterm.{Machine, pump_keys, send_first, note, remember, trim, contains, starts_with}
use mame_sys.Genixterm.Output.{boot-seen}
use mame_sys.Genixterm.Sessions.{Recv, got, would_block, broken, Round, take_in}

and-both : (a : Bool) {b c : Bool} → (b ≡ true → c ≡ true) → (a && b) ≡ true → (a && c) ≡ true
and-both true f h = f h
and-both false f h = h

or-either :
    (a b : Bool) {c d : Bool}
    → (a ≡ true → c ≡ true)
    → (b ≡ true → d ≡ true)
    → (a || b) ≡ true
    → (c || d) ≡ true
or-either true b f g h = rw (f refl) refl
or-either false b {c} f g h = ground (arith, g h)

starts_with-append :
    (marker d e : List ℕ) → starts_with marker d ≡ true → starts_with marker (d ++ e) ≡ true
unfolding starts_with
starts_with-append [] d e h = refl
starts_with-append (c ∷ cs) [] e h = absurd (ground arith)
starts_with-append (c ∷ cs) (x ∷ xs) e h = and-both (c == x) (starts_with-append cs xs e) h

-- A marker in a piece of the output is in the whole of it.
pub contains-append :
    (marker d e : List ℕ) → contains marker d ≡ true → contains marker (d ++ e) ≡ true
unfolding contains starts_with
contains-append [] [] [] h = refl
contains-append [] [] (y ∷ ys) h = refl
contains-append (c ∷ cs) [] e h = absurd (ground arith)
contains-append marker (x ∷ xs) e h =
    or-either (starts_with marker (x ∷ xs)) (contains marker xs)
      (starts_with-append marker (x ∷ xs) e) (contains-append marker xs e) h

pub contains-behind :
    (marker d e : List ℕ) → contains marker e ≡ true → contains marker (d ++ e) ≡ true
unfolding contains
contains-behind marker [] e h = h
contains-behind marker (x ∷ xs) e h = ground (arith, contains-behind marker xs e h)

pub contains-drop :
    (marker : List ℕ) (n : ℕ) (d e : List ℕ)
    → contains marker (drop n d ++ e) ≡ true
    → contains marker (d ++ e) ≡ true
unfolding drop
contains-drop marker zero d e h = h
contains-drop marker (suc n) [] e h = h
contains-drop marker (suc n) (x ∷ xs) e h =
    contains-behind marker (x ∷ []) (xs ++ e) (contains-drop marker n xs e h)

abbrev pub heard_in : Recv → List ℕ
heard_in (got bytes) = bytes
heard_in would_block = []
heard_in broken = []

-- All that the rounds receive, joined.
abbrev pub heard : List Round → List ℕ
heard [] = []
heard (r ∷ rounds) = heard_in r.received ++ heard rounds

send_first-seen :
    (now : ℕ) (accepts : Bool) (pending : List ℕ) (m : Machine)
    → (send_first now accepts pending m).seen ≡ m.seen
unfolding send_first
send_first-seen now accepts [] m = refl
send_first-seen now accepts (ch ∷ rest) m = elim (Bool-cases (leb m.next_key now)) [
  | inl e ↦ rw e refl
  | inr e ↦ rw e refl
]

pub pump_keys-seen :
    (now : ℕ) (accepts : Bool) (m : Machine) → (pump_keys now accepts m).seen ≡ m.seen
unfolding pump_keys
pump_keys-seen now accepts m = send_first-seen now accepts m.pending m

take_in-heard :
    (marker : List ℕ) (received : Recv) (more : List ℕ) (m : Machine)
    → contains marker ((take_in received m).seen ++ more) ≡ true
    → contains marker (m.seen ++ (heard_in received ++ more)) ≡ true
unfolding take_in note remember trim
take_in-heard marker (got []) more m h = h
take_in-heard marker (got (b ∷ bytes)) more m h =
    let all = m.seen ++ b ∷ bytes in
    let shown = ap (λ l. contains marker (l ++ more)) (boot-seen (remember (b ∷ bytes) m)) in
    ap (contains marker) (sym (append_assoc m.seen (b ∷ bytes) more))
    ∙ contains-drop marker (length all - 4096) all more (sym shown ∙ h)
take_in-heard marker would_block more m h = h
take_in-heard marker broken more m h = h

-- A marker that shows after a round, or in what comes later, was there or has been received.
pub round-heard :
    (marker : List ℕ) (r : Round) (more : List ℕ) (m : Machine)
    → contains marker ((take_in r.received (pump_keys r.pumped r.accepts m)).seen ++ more) ≡ true
    → contains marker (m.seen ++ (heard_in r.received ++ more)) ≡ true
round-heard marker r more m h =
    ap (λ l. contains marker (l ++ (heard_in r.received ++ more)))
      (sym (pump_keys-seen r.pumped r.accepts m))
    ∙ take_in-heard marker r.received more (pump_keys r.pumped r.accepts m) h
