-- ===== src/Genixterm/Typing.antt =====
-- Keys reach the machine of pack/genixterm.py in order, and no faster than every 120 ms.
use mame_sys.Base.{
  ℕ, ◌+◌, ◌≤◌, ◌<◌, List, [], ◌∷◌, ◌++◌, Bool, true, false, ◌≡◌, refl, sym, ap, ◌∙◌, arith,
}
use mame_sys.Base.{append-nil, append_assoc, not_le→leb, Bool-cases, inl, inr, leb, le→leb}
use mame_sys.Genixterm.{
  Machine, type_keys, pump_keys, send_first, note, boot, remember, boot_command, should_boot,
}

-- What a front end does to the machine.
pub data Event : Type 0 where
  typed : List ℕ → Event
  pumped : ℕ → Event
  printed : List ℕ → Event

-- One event, with a socket that takes every byte.
abbrev pub step : Event → Machine → Machine
step (typed text) m = type_keys text m
step (pumped now) m = pump_keys now true m
step (printed bytes) m = note bytes m

-- What an event puts at the end of the queue.
abbrev pub queued : Event → Machine → List ℕ
queued (typed text) m = text
queued (pumped now) m = []
queued (printed bytes) m = elim (should_boot (remember bytes m)) [
  | true ↦ boot_command
  | false ↦ []
]

abbrev pub run : List Event → Machine → Machine
run [] m = m
run (e ∷ es) m = run es (step e m)

abbrev pub all_queued : List Event → Machine → List ℕ
all_queued [] m = []
all_queued (e ∷ es) m = queued e m ++ all_queued es (step e m)

pub send_first-order :
    (now : ℕ) (pending : List ℕ) (m : Machine)
    → pending ≡ m.pending
    → (send_first now true pending m).sent ++ (send_first now true pending m).pending
      ≡ m.sent ++ m.pending
unfolding send_first
send_first-order now [] m h = refl
send_first-order now (ch ∷ rest) m h = elim (Bool-cases (leb m.next_key now)) [
  | inl e ↦ rw (e, ← h) (append_assoc m.sent (ch ∷ []) rest)
  | inr e ↦ rw e refl
]

step-order :
    (e : Event) (m : Machine)
    → (step e m).sent ++ (step e m).pending ≡ (m.sent ++ m.pending) ++ queued e m
unfolding type_keys note boot remember pump_keys
step-order (typed text) m = sym (append_assoc m.sent m.pending text)
step-order (pumped now) m = send_first-order now m.pending m refl ∙ sym (append-nil _)
step-order (printed bytes) m = elim (Bool-cases (should_boot (remember bytes m))) [
  | inl e ↦ rw (queued, e) (sym (append_assoc m.sent m.pending boot_command))
  | inr e ↦ rw (queued, e) (sym (append-nil (m.sent ++ m.pending)))
]

-- Over any run of events, the keys that were sent, followed by those that still wait, are the ones at
-- the start followed by all that was queued since, in the order of queuing: none is lost, repeated or
-- overtaken while the socket takes them.
pub run-order :
    (es : List Event) (m : Machine)
    → (run es m).sent ++ (run es m).pending ≡ (m.sent ++ m.pending) ++ all_queued es m
run-order [] m = sym (append-nil _)
run-order (e ∷ es) m =
    run-order es (step e m)
    ∙ ap (λ l. l ++ all_queued es (step e m)) (step-order e m)
    ∙ append_assoc (m.sent ++ m.pending) (queued e m) (all_queued es (step e m))

send_first-waits :
    (now : ℕ) (accepts : Bool) (pending : List ℕ) (m : Machine)
    → now < m.next_key
    → send_first now accepts pending m ≡ m
unfolding send_first
send_first-waits now accepts [] m h = refl
send_first-waits now accepts (ch ∷ rest) m h = rw (not_le→leb m.next_key now h) refl

send_first-next_key :
    (now : ℕ) (accepts : Bool) (pending : List ℕ) (m : Machine) {ch : ℕ} {rest : List ℕ}
    → pending ≡ ch ∷ rest
    → m.next_key ≤ now
    → (send_first now accepts pending m).next_key ≡ now + 120
unfolding send_first
send_first-next_key now accepts [] m e h = cc
send_first-next_key now accepts (c ∷ cs) m e h = rw (le→leb m.next_key now h) refl

-- When a key is due and is pumped out at `now`, pumping again before `now + 120` changes nothing, no
-- matter whether the socket took the key and what has been queued in between.
pub pump_keys-rate :
    (now later : ℕ) (accepts again : Bool) (text : List ℕ) (m : Machine)
    → (ch : ℕ) (rest : List ℕ) → m.pending ≡ ch ∷ rest
    → m.next_key ≤ now
    → later < now + 120
    → pump_keys later again (type_keys text (pump_keys now accepts m))
      ≡ type_keys text (pump_keys now accepts m)
unfolding pump_keys type_keys
pump_keys-rate now later accepts again text m ch rest h due soon =
    send_first-waits later again _ _
      (omega (arith, send_first-next_key now accepts m.pending m h due))
