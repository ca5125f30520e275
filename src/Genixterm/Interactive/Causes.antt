-- ===== src/Genixterm/Interactive/Causes.antt =====
-- What ends a session of pack/genixterm.py, for each of the ways in which it can end.
use mame_sys.Base.{List, [], ◌∷◌, Bool, true, false, some, ◌≡◌, refl}
use mame_sys.Genixterm.{Machine, Exit, Read, go_on, leave, read_keys, pump_keys, note}
use mame_sys.Genixterm.Interactive.{
  Ready, keyboard, console, Turn, Ended, asked, interrupted, exited, Handled, handled, ended,
  handle, interact,
}
use mame_sys.Genixterm.Interactive.Asked.{Asks, typed, interact-Ends}
use mame_sys.Genixterm.Sessions.Check.{Ends, nothing, ends, Ends-some, Ends-map}

-- One of the ready files is at its end.
pub data HasEnd : List Ready → Type 0 where
  no_keys : {rest : List Ready} → HasEnd (keyboard [] ∷ rest)
  no_output : {rest : List Ready} → HasEnd (console [] ∷ rest)
  behind : {r : Ready} {rest : List Ready} → HasEnd rest → HasEnd (r ∷ rest)

-- Some turn has this.
pub data Some (P : Turn → Type 0) : List Turn → Type 0 where
  this : {turn : Turn} {turns : List Turn} → P turn → Some P (turn ∷ turns)
  that : {turn : Turn} {turns : List Turn} → Some P turns → Some P (turn ∷ turns)

-- What accounts for the end of a session, in the turns and in what was typed in them.
pub data Cause (turns : List Turn) : Ended → Type 0 where
  by_key : {e : Exit} → Asks e (typed turns) → Cause turns (asked e)
  by_end : Some (λ turn. HasEnd turn.ready) turns → Cause turns interrupted
  by_exit : Some (λ turn. turn.alive ≡ false) turns → Cause turns exited

-- The same without the keys.
data Stops (turns : List Turn) : Ended → Type 0 where
  asked_to : {e : Exit} → Stops turns (asked e)
  ended_in : Some (λ turn. HasEnd turn.ready) turns → Stops turns interrupted
  exited_in : Some (λ turn. turn.alive ≡ false) turns → Stops turns exited

Stops-that :
    {turn : Turn} {turns : List Turn} (why : Ended) → Stops turns why → Stops (turn ∷ turns) why
Stops-that (asked e) asked_to = asked_to
Stops-that interrupted (ended_in p) = ended_in (that p)
Stops-that exited (exited_in p) = exited_in (that p)

data Breaks (ready : List Ready) : Handled → Type 0 where
  goes : {escape : Bool} {m : Machine} → Breaks ready (handled escape m)
  keyed : {e : Exit} {m : Machine} → Breaks ready (ended (asked e) m)
  breaks : {m : Machine} → HasEnd ready → Breaks ready (ended interrupted m)

Breaks-behind :
    {h : Handled} {r : Ready} {ready : List Ready} → Breaks ready h → Breaks (r ∷ ready) h
Breaks-behind goes = goes
Breaks-behind keyed = keyed
Breaks-behind (breaks p) = breaks (behind p)

keys-Breaks :
    (rest : List Ready) (m : Machine)
    → ((escape : Bool) (m' : Machine) → Breaks rest (handle rest escape m'))
    → (r : Read)
    → Breaks rest (elim r [
      | go_on escape pending ↦ handle rest escape (record m { pending = pending })
      | leave e pending ↦ ended (asked e) (record m { pending = pending })
    ])
keys-Breaks rest m go (go_on escape pending) = go escape _
keys-Breaks rest m go (leave e pending) = keyed

handle-Breaks :
    (ready : List Ready) (escape : Bool) (m : Machine) → Breaks ready (handle ready escape m)
unfolding handle
handle-Breaks [] escape m = goes
handle-Breaks (keyboard [] ∷ rest) escape m = breaks no_keys
handle-Breaks (keyboard (b ∷ bytes) ∷ rest) escape m = Breaks-behind (
    keys-Breaks rest m (λ escape' m'. handle-Breaks rest escape' m')
      (read_keys escape m.pending (b ∷ bytes)))
handle-Breaks (console [] ∷ rest) escape m = breaks no_output
handle-Breaks (console (b ∷ bytes) ∷ rest) escape m =
    Breaks-behind (handle-Breaks rest escape (note (b ∷ bytes) m))

turn-Stops :
    (turn : Turn) (turns : List Turn) {h : Handled}
    → ((escape : Bool) (m' : Machine) → Ends (λ p. Stops turns (p.0)) (interact turns escape m'))
    → Breaks turn.ready h
    → Ends
        (λ p. Stops (turn ∷ turns) (p.0))
        (elim h [ handled escape m ↦ interact turns escape m | ended why m ↦ some (why, m) ])
turn-Stops turn turns go (goes {escape} {m}) = Ends-map (λ p. Stops-that (p.0)) (go escape m)
turn-Stops turn turns go keyed = ends asked_to
turn-Stops turn turns go (breaks p) = ends (ended_in (this p))

turn_alive :
    (turn : Turn) (turns : List Turn) (m : Machine) (h : Handled) (alive : Bool)
    → turn.alive ≡ alive
    → Ends
        (λ (p : Ended × Machine). Stops (turn ∷ turns) (p.0))
        (elim h [ handled escape m ↦ interact turns escape m | ended why m ↦ some (why, m) ])
    → Ends
        (λ (p : Ended × Machine). Stops (turn ∷ turns) (p.0))
        (elim alive [
          | false ↦ some (exited, m)
          | true ↦ elim h [
            | handled escape m ↦ interact turns escape m
            | ended why m ↦ some (why, m)
          ]
        ])
turn_alive turn turns m h false dead e = ends (exited_in (this dead))
turn_alive turn turns m h true lives e = e

interact-Stops :
    (turns : List Turn) (escape : Bool) (m : Machine)
    → Ends (λ p. Stops turns (p.0)) (interact turns escape m)
unfolding interact
interact-Stops [] escape m = nothing
interact-Stops (turn ∷ turns) escape m =
    let m₁ = pump_keys turn.pumped turn.accepts m in
    turn_alive turn turns m (handle turn.ready escape m₁) turn.alive refl
      (turn-Stops turn turns (interact-Stops turns) (handle-Breaks turn.ready escape m₁))

Stops-Cause :
    (turns : List Turn) (why : Ended)
    → ((e : Exit) → why ≡ asked e → Asks e (typed turns))
    → Stops turns why
    → Cause turns why
Stops-Cause turns (asked e) f asked_to = by_key (f e refl)
Stops-Cause turns interrupted f (ended_in p) = by_end p
Stops-Cause turns exited f (exited_in p) = by_exit p

-- How the loop of an interactive session comes to its end, for each of the ways there are. It ends for
-- an exit key only if in what was typed, taken over all the turns, `Ctrl-]` is followed by q or Q for the
-- exit with a sync, or by x or X for the one without. It is interrupted only if in some turn the keyboard
-- or the socket was at its end. It sees that the emulator has exited only if that is so in some turn.
pub interact-Cause :
    (turns : List Turn) (why : Ended) (m m' : Machine)
    → interact turns false m ≡ some (why, m')
    → Cause turns why
interact-Cause turns why m m' h =
    Stops-Cause turns why (λ e same. Ends-some (interact-Ends turns e false m) h same)
      (Ends-some (interact-Stops turns false m) h)
