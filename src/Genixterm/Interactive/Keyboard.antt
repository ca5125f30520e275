-- ===== src/Genixterm/Interactive/Keyboard.antt =====
-- Typing in a session of pack/genixterm.py, over any number of turns.
use mathlib.Core.Path.{subst}
use mame_sys.Base.{
  ℕ, List, [], ◌∷◌, ◌++◌, Bool, true, false, Option, some, ◌≡◌, refl, sym, ap, ◌∙◌, append-nil,
  append_assoc, ◌==◌, ◌||◌, Bool-cases, inl, inr,
}
use mame_sys.Genixterm.{Machine, Read, go_on, leave, read_keys, pump_keys, send_first}
use mame_sys.Genixterm.Interactive.{keyboard, Turn, Ended, exited, handled, handle, interact}
use mame_sys.Genixterm.Keys.{and_then, read_keys-append, keys_for, read_keys-keys_for}
use mame_sys.Genixterm.Typing.{send_first-order}

-- What waited before does not matter to the reading, and stays in front.
abbrev prepend : List ℕ → Read → Read
prepend front (go_on escape pending) = go_on escape (front ++ pending)
prepend front (leave e pending) = leave e (front ++ pending)

read_keys-prepend :
    (escape : Bool) (front pending bytes : List ℕ)
    → read_keys escape (front ++ pending) bytes ≡ prepend front (read_keys escape pending bytes)
unfolding read_keys
read_keys-prepend escape front pending [] = refl
read_keys-prepend true front pending (b ∷ bytes) = elim (Bool-cases ((b == b'q') || (b == b'Q'))) [
  | inl q ↦ rw q refl
  | inr q ↦ elim (Bool-cases ((b == b'x') || (b == b'X'))) [
    | inl x ↦ rw (q, x) refl
    | inr x ↦
        rw (q, x)
          (ap (λ l. read_keys false l bytes) (append_assoc front pending (0x1d ∷ []))
            ∙ read_keys-prepend false front (pending ++ 0x1d ∷ []) bytes)
  ]
]
read_keys-prepend false front pending (b ∷ bytes) = elim (Bool-cases (b == 0x1d)) [
  | inl e ↦ rw e (read_keys-prepend true front pending bytes)
  | inr e ↦ rw e (
      ap (λ l. read_keys false l bytes) (append_assoc front pending (b ∷ []))
      ∙ read_keys-prepend false front (pending ++ b ∷ []) bytes)
]

read_keys-from :
    (escape : Bool) (pending bytes : List ℕ)
    → read_keys escape pending bytes ≡ prepend pending (read_keys escape [] bytes)
read_keys-from escape pending bytes =
    ap (λ l. read_keys escape l bytes) (sym (append-nil pending))
    ∙ read_keys-prepend escape pending [] bytes

-- Keys that are read as `text` in one go are so in two.
data Split (escape : Bool) (chunk rest text : List ℕ) : Type 0 where
  split :
      (escape' : Bool) (front back : List ℕ)
      → read_keys escape [] chunk ≡ go_on escape' front
      → read_keys escape' [] rest ≡ go_on false back
      → text ≡ front ++ back
      → Split escape chunk rest text

prepended :
    (front text : List ℕ) (r : Read)
    → prepend front r ≡ go_on false text
    → (back : List ℕ) × (r ≡ go_on false back) × (text ≡ front ++ back)
prepended front text (go_on true pending) e = absurd cc
prepended front text (go_on false pending) e =
    let same : front ++ pending ≡ text = cc in (pending, refl, sym same)
prepended front text (leave x pending) e = absurd cc

chunk-Split :
    (escape : Bool) (chunk rest text : List ℕ) (r : Read)
    → read_keys escape [] chunk ≡ r
    → and_then r rest ≡ go_on false text
    → Split escape chunk rest text
chunk-Split escape chunk rest text (leave e pending) h k = absurd cc
chunk-Split escape chunk rest text (go_on escape' front) h k =
    let (back, reads, same) =
      prepended front text (read_keys escape' [] rest)
        (sym (read_keys-from escape' front rest) ∙ k) in
    split escape' front back h reads same

read_keys-Split :
    (escape : Bool) (chunk rest text : List ℕ)
    → read_keys escape [] (chunk ++ rest) ≡ go_on false text
    → Split escape chunk rest text
read_keys-Split escape chunk rest text h =
    chunk-Split escape chunk rest text (read_keys escape [] chunk) refl
      (sym (read_keys-append escape [] chunk rest) ∙ h)

-- Turns in which the emulator runs, the socket takes the keys and nothing is printed, and the keys that
-- are read in them, a chunk in a turn at most.
pub data Types : List Turn → List ℕ → Type 0 where
  no_turns : Types [] []
  idle :
      {turn : Turn} {turns : List Turn} {keys : List ℕ}
      → turn.alive ≡ true
      → turn.accepts ≡ true
      → turn.ready ≡ []
      → Types turns keys
      → Types (turn ∷ turns) keys
  chunk :
      {turn : Turn} {turns : List Turn} {keys : List ℕ} (b : ℕ) (bytes : List ℕ)
      → turn.alive ≡ true
      → turn.accepts ≡ true
      → turn.ready ≡ keyboard (b ∷ bytes) ∷ []
      → Types turns keys
      → Types (turn ∷ turns) ((b ∷ bytes) ++ keys)

-- The keys that were sent or wait, in order.
abbrev pub keys_of : Machine → List ℕ
keys_of m = m.sent ++ m.pending

-- The session has seen the emulator exit, with these keys sent or waiting.
pub data ExitsWith (keys : List ℕ) : Option (Ended × Machine) → Type 0 where
  exits : {m : Machine} → keys_of m ≡ keys → ExitsWith keys (some (exited, m))

abbrev after_pump : Turn → Machine → Machine
after_pump turn m = pump_keys turn.pumped turn.accepts m

pump-keys_of :
    (turn : Turn) (m : Machine) → turn.accepts ≡ true → keys_of (after_pump turn m) ≡ keys_of m
unfolding pump_keys
pump-keys_of turn m e =
    ap (λ a. keys_of (send_first turn.pumped a m.pending m)) e
    ∙ send_first-order turn.pumped m.pending m refl

-- A turn in which the loop goes on.
turn-on :
    (turn : Turn) (turns : List Turn) (escape : Bool) (m : Machine) {escape' : Bool} {m' : Machine}
    → turn.alive ≡ true
    → handle turn.ready escape (after_pump turn m) ≡ handled escape' m'
    → interact (turn ∷ turns) escape m ≡ interact turns escape' m'
unfolding interact
turn-on turn turns escape m lives e = rw (interact, lives, e) refl

handle-chunk :
    (b : ℕ) (bytes front : List ℕ) (escape escape' : Bool) (m : Machine)
    → read_keys escape [] (b ∷ bytes) ≡ go_on escape' front
    → handle (keyboard (b ∷ bytes) ∷ []) escape m
      ≡ handled escape' (record m { pending = m.pending ++ front })
unfolding handle
handle-chunk b bytes front escape escape' m e =
    let reads : read_keys escape m.pending (b ∷ bytes) ≡ go_on escape' (m.pending ++ front) =
      read_keys-from escape m.pending (b ∷ bytes) ∙ ap (prepend m.pending) e in
    rw (handle, reads) refl

handle-none : (escape : Bool) (m : Machine) → handle [] escape m ≡ handled escape m
unfolding handle
handle-none escape m = refl

ExitsWith-on :
    {keys keys' : List ℕ} {o o' : Option (Ended × Machine)}
    → o ≡ o'
    → keys' ≡ keys
    → ExitsWith keys' o'
    → ExitsWith keys o
ExitsWith-on {keys} {keys'} {o} {o'} e f h =
    subst (ExitsWith keys) (sym e) (subst (λ k. ExitsWith k o') f h)

exit_turn :
    (last : Turn) (escape : Bool) (m : Machine)
    → last.alive ≡ false
    → ExitsWith (keys_of m) (interact (last ∷ []) escape m)
unfolding interact
exit_turn last escape m dead = rw (interact, dead) (exits refl)

rejoin :
    (m : Machine) (front back text : List ℕ)
    → text ≡ front ++ back
    → (m.sent ++ (m.pending ++ front)) ++ back ≡ keys_of m ++ text
rejoin m front back text e =
    ap (λ l. l ++ back) (sym (append_assoc m.sent m.pending front))
    ∙ append_assoc (keys_of m) front back
    ∙ ap (λ l. keys_of m ++ l) (sym e)

nothing_read :
    (escape : Bool) (text : List ℕ) → read_keys escape [] [] ≡ go_on false text → [] ≡ text
unfolding read_keys
nothing_read escape text h = cc

Types-ExitsWith :
    (turns : List Turn) (last : Turn) (escape : Bool) (keys text : List ℕ) (m : Machine)
    → Types turns keys
    → last.alive ≡ false
    → read_keys escape [] keys ≡ go_on false text
    → ExitsWith (keys_of m ++ text) (interact (turns ++ last ∷ []) escape m)
Types-ExitsWith [] last escape keys text m no_turns dead h =
    let none_typed : [] ≡ text = nothing_read escape text h in
    ExitsWith-on refl (sym (append-nil (keys_of m)) ∙ ap (λ k. keys_of m ++ k) none_typed)
      (exit_turn last escape m dead)
Types-ExitsWith (turn ∷ turns) last escape keys text m (idle lives takes none_ready t) dead h =
    let m₁ = after_pump turn m in
    ExitsWith-on
      (turn-on turn (turns ++ last ∷ []) escape m lives
        (ap (λ r. handle r escape m₁) none_ready ∙ handle-none escape m₁))
      (ap (λ k. k ++ text) (pump-keys_of turn m takes))
      (Types-ExitsWith turns last escape keys text m₁ t dead h)
Types-ExitsWith (turn ∷ turns) last escape keys text m
      (chunk {keys = rest} b bytes lives takes brings t) dead h =
    elim (read_keys-Split escape (b ∷ bytes) rest text h) [
      | split escape' front back reads on_reads same ↦
          let m₁ = after_pump turn m in
          let m₂ : Machine = record m₁ { pending = m₁.pending ++ front } in
          ExitsWith-on
            (turn-on turn (turns ++ last ∷ []) escape m lives (
              ap (λ r. handle r escape m₁) brings
              ∙ handle-chunk b bytes front escape escape' m₁ reads))
            (rejoin m₁ front back text same ∙ ap (λ k. k ++ text) (pump-keys_of turn m takes))
            (Types-ExitsWith turns last escape' rest back m₂ t dead on_reads)
    ]

-- A text that is typed in a session reaches the machine's queue however its keys, with `Ctrl-] ]` for each
-- `Ctrl-]`, are divided into the chunks that the turns read, even between the two keys, and whatever is
-- pumped out in between: when the emulator has exited behind these turns, in which the socket takes the
-- keys and nothing is printed, what was sent and what still waits are what they were, and then exactly
-- the text.
pub interact-ExitsWith :
    (turns : List Turn) (end : Turn) (text : List ℕ) (m : Machine)
    → Types turns (keys_for text)
    → end.alive ≡ false
    → ExitsWith ((m.sent ++ m.pending) ++ text) (interact (turns ++ end ∷ []) false m)
interact-ExitsWith turns end text m t dead =
    Types-ExitsWith turns end false (keys_for text) text m t dead (read_keys-keys_for [] text)
