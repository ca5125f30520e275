-- ===== src/Genixterm/Interactive/Asked.antt =====
-- What ends a session of pack/genixterm.py.
use mathlib.Core.Path.{subst}
use mame_sys.Base.{
  ℕ, List, [], ◌∷◌, ◌++◌, Bool, true, false, ◌||◌, some, ◌≡◌, sym, arith, append_assoc, ◌==◌,
  ==_iff, Bool-cases, inl, inr,
}
use mame_sys.Genixterm.{
  Machine, Exit, sync_and_stop, stop, Read, go_on, leave, read_keys, pump_keys, note, contains,
  starts_with,
}
use mame_sys.Genixterm.Interactive.{
  Ready, keyboard, console, Turn, Ended, asked, Handled, handled, ended, handle, interact,
}
use mame_sys.Genixterm.Sessions.Check.{Ends, nothing, ends, Ends-map}
use mame_sys.Genixterm.Sessions.Markers.{contains-behind}

-- The keys for an exit, in both cases.
abbrev pub is_exit : Exit → ℕ → Bool
is_exit sync_and_stop b = (b == b'q') || (b == b'Q')
is_exit stop b = (b == b'x') || (b == b'X')

-- In the text `Ctrl-]` is followed by a key for this exit.
pub data Asks (e : Exit) (text : List ℕ) : Type 0 where
  asks : (b : ℕ) → is_exit e b ≡ true → contains (0x1d ∷ b ∷ []) text ≡ true → Asks e text

-- The `Ctrl-]` that an `escape` stands for.
abbrev pub held : Bool → List ℕ
held true = 0x1d ∷ []
held false = []

Asks-behind : {e : Exit} (b : ℕ) (text : List ℕ) → Asks e text → Asks e (b ∷ text)
Asks-behind c text (asks b h found) = asks b h (contains-behind _ (c ∷ []) text found)

-- What the keys read so far say about the exit: `text` is held back and read, `more` follows it.
data Follows (text more : List ℕ) : Read → Type 0 where
  goes_on :
      {escape : Bool} {pending : List ℕ}
      → ((e : Exit) → Asks e (held escape ++ more) → Asks e (text ++ more))
      → Follows text more (go_on escape pending)
  leaves :
      {e : Exit} {pending : List ℕ} → Asks e (text ++ more) → Follows text more (leave e pending)

Follows-behind :
    {r : Read} (b : ℕ) (text more : List ℕ) → Follows text more r → Follows (b ∷ text) more r
Follows-behind b text more (goes_on f) = goes_on (λ e h. Asks-behind b (text ++ more) (f e h))
Follows-behind b text more (leaves h) = leaves (Asks-behind b (text ++ more) h)

front-Asks : (e : Exit) (b : ℕ) (text : List ℕ) → is_exit e b ≡ true → Asks e (0x1d ∷ b ∷ text)
unfolding contains starts_with
front-Asks e b text h = asks b h (ground arith)

read_keys-Follows :
    (escape : Bool) (pending bytes more : List ℕ)
    → Follows (held escape ++ bytes) more (read_keys escape pending bytes)
unfolding read_keys
read_keys-Follows true pending [] more = goes_on (λ e h. h)
read_keys-Follows false pending [] more = goes_on (λ e h. h)
read_keys-Follows true pending (b ∷ bytes) more = elim (Bool-cases ((b == b'q') || (b == b'Q'))) [
  | inl q ↦ rw q (leaves (front-Asks sync_and_stop b (bytes ++ more) q))
  | inr q ↦ elim (Bool-cases ((b == b'x') || (b == b'X'))) [
    | inl x ↦ rw (q, x) (leaves (front-Asks stop b (bytes ++ more) x))
    | inr x ↦
        rw (q, x)
          (Follows-behind 0x1d (b ∷ bytes) more (
            Follows-behind b bytes more
              (read_keys-Follows false (pending ++ 0x1d ∷ []) bytes more)))
  ]
]
read_keys-Follows false pending (b ∷ bytes) more = elim (Bool-cases (b == 0x1d)) [
  | inl e ↦ rw (e, (==_iff b 0x1d).0 e) (read_keys-Follows true pending bytes more)
  | inr e ↦
      rw e (Follows-behind b bytes more (read_keys-Follows false (pending ++ b ∷ []) bytes more))
]

-- All that is typed, joined.
abbrev pub typed_in : List Ready → List ℕ
typed_in [] = []
typed_in (keyboard bytes ∷ rest) = bytes ++ typed_in rest
typed_in (console bytes ∷ rest) = typed_in rest

abbrev pub typed : List Turn → List ℕ
typed [] = []
typed (turn ∷ turns) = typed_in turn.ready ++ typed turns

-- The same for the ready files of a turn.
data Handles (text more : List ℕ) : Handled → Type 0 where
  on :
      {escape : Bool} {m : Machine}
      → ((e : Exit) → Asks e (held escape ++ more) → Asks e (text ++ more))
      → Handles text more (handled escape m)
  off :
      {why : Ended} {m : Machine}
      → ((e : Exit) → why ≡ asked e → Asks e (text ++ more))
      → Handles text more (ended why m)

Handles-map :
    {h : Handled} {text text' more : List ℕ}
    → ((e : Exit) → Asks e (text ++ more) → Asks e (text' ++ more))
    → Handles text more h
    → Handles text' more h
Handles-map f (on g) = on (λ e a. f e (g e a))
Handles-map f (off g) = off (λ e same. f e (g e same))

regroup :
    (e : Exit) (a b c text : List ℕ)
    → (Asks e (a ++ (b ++ c)) → Asks e (text ++ (b ++ c)))
    → Asks e ((a ++ b) ++ c)
    → Asks e ((text ++ b) ++ c)
regroup e a b c text f h =
    subst (Asks e) (sym (append_assoc text b c)) (f (subst (Asks e) (append_assoc a b c) h))

asked_one : (e e' : Exit) → asked e ≡ asked e' → e ≡ e'
asked_one e e' same = cc

-- The rest of a turn behind some keys.
keys-Handles :
    (rest : List Ready) (m : Machine) (more : List ℕ) {text : List ℕ} {r : Read}
    → ((escape : Bool) (m' : Machine)
        → Handles (held escape ++ typed_in rest) more (handle rest escape m'))
    → Follows text (typed_in rest ++ more) r
    → Handles (text ++ typed_in rest) more (elim r [
      | go_on escape pending ↦ handle rest escape (record m { pending = pending })
      | leave e pending ↦ ended (asked e) (record m { pending = pending })
    ])
keys-Handles rest m more {text} go (goes_on {escape} f) =
    Handles-map (λ e. regroup e (held escape) (typed_in rest) more text (f e)) (go escape _)
keys-Handles rest m more {text} go (leaves {e} h) = off (λ e' same.
    let one : e ≡ e' = asked_one e e' same in
    subst (λ i. Asks i ((text ++ typed_in rest) ++ more)) one
      (subst (Asks e) (sym (append_assoc text (typed_in rest) more)) h))

handle-Handles :
    (ready : List Ready) (escape : Bool) (m : Machine) (more : List ℕ)
    → Handles (held escape ++ typed_in ready) more (handle ready escape m)
unfolding handle
handle-Handles [] true m more = on (λ e h. h)
handle-Handles [] false m more = on (λ e h. h)
handle-Handles (keyboard [] ∷ rest) escape m more = off (λ e same. absurd cc)
handle-Handles (keyboard (b ∷ bytes) ∷ rest) escape m more =
    subst (λ l. Handles l more (handle (keyboard (b ∷ bytes) ∷ rest) escape m))
      (append_assoc (held escape) (b ∷ bytes) (typed_in rest))
      (keys-Handles rest m more (λ escape' m'. handle-Handles rest escape' m' more)
        (read_keys-Follows escape m.pending (b ∷ bytes) (typed_in rest ++ more)))
handle-Handles (console [] ∷ rest) escape m more = off (λ e same. absurd cc)
handle-Handles (console (b ∷ bytes) ∷ rest) escape m more =
    handle-Handles rest escape (note (b ∷ bytes) m) more

turn_asked :
    (turns : List Turn) (e : Exit) {text : List ℕ} {h : Handled}
    → ((escape : Bool) (m' : Machine)
        → Ends
            (λ p. p.0 ≡ asked e → Asks e (held escape ++ typed turns))
            (interact turns escape m'))
    → Handles text (typed turns) h
    → Ends
        (λ p. p.0 ≡ asked e → Asks e (text ++ typed turns))
        (elim h [ handled escape m ↦ interact turns escape m | ended why m ↦ some (why, m) ])
turn_asked turns e go (on {escape} f) = Ends-map (λ p h same. f e (h same)) (go escape _)
turn_asked turns e go (off f) = ends (λ same. f e same)

-- The exit that a session ends for has been asked for.
pub interact-Ends :
    (turns : List Turn) (e : Exit) (escape : Bool) (m : Machine)
    → Ends (λ p. p.0 ≡ asked e → Asks e (held escape ++ typed turns)) (interact turns escape m)
unfolding interact
interact-Ends [] e escape m = nothing
interact-Ends (turn ∷ turns) e escape m = elim (Bool-cases turn.alive) [
  | inr dead ↦ rw (interact, dead) (ends (λ same. absurd cc))
  | inl lives ↦
      rw (interact, lives)
        (subst
          (λ l.
            Ends (λ p. p.0 ≡ asked e → Asks e l)
              (elim (handle turn.ready escape (pump_keys turn.pumped turn.accepts m)) [
                | handled escape' m' ↦ interact turns escape' m'
                | ended why m' ↦ some (why, m')
              ]))
          (append_assoc (held escape) (typed_in turn.ready) (typed turns))
          (turn_asked turns e (λ escape' m'. interact-Ends turns e escape' m')
            (handle-Handles turn.ready escape _ (typed turns))))
]
