-- ===== src/Genixterm/Sessions/Sync.antt =====
-- The typing that ends a session of pack/genixterm.py: `sync_and_stop` has the time to type its command.
use mathlib.Core.Path.{subst}
use mame_sys.Base.{
  ℕ, suc, ◌+◌, ◌*◌, ◌≤◌, ◌<◌, List, [], ◌∷◌, ◌++◌, true, false, ◌≡◌, refl, sym, ap, ◌∙◌, arith,
}
use mame_sys.Base.{
  Option, some, append-nil, append_assoc, length, length-append, leb, lt→ltb, Bool-cases, inl, inr,
}
use mame_sys.Genixterm.{Machine, type_keys, pump_keys, send_first, is_empty}
use mame_sys.Genixterm.Sessions.{Round, sync_loop, sync, sync_command}

-- The rounds follow each other by at most `gap`, from the time `t` on, their socket takes the keys, and
-- the last of them is not before `deadline`.
pub data Paced (gap deadline : ℕ) : ℕ → List Round → Type 0 where
  over : {t : ℕ} → deadline ≤ t → Paced gap deadline t []
  next :
      {t : ℕ} {r : Round} {rounds : List Round}
      → r.accepts ≡ true
      → r.tested ≤ r.pumped
      → r.pumped ≤ t + gap
      → Paced gap deadline r.pumped rounds
      → Paced gap deadline t (r ∷ rounds)

-- A loop has ended with every one of the keys sent behind those that were sent before.
pub data Emptied (before keys : List ℕ) : Option Machine → Type 0 where
  emptied : {m : Machine} → m.pending ≡ [] → m.sent ≡ before ++ keys → Emptied before keys (some m)

-- One round sends the first key when it is due, and else leaves the machine alone.
data Sends (now : ℕ) (ch : ℕ) (rest : List ℕ) (m m' : Machine) : Type 0 where
  waits : now < m.next_key → m' ≡ m → Sends now ch rest m m'
  sends :
      m'.pending ≡ rest
      → m'.sent ≡ m.sent ++ ch ∷ []
      → m'.next_key ≡ now + 120
      → Sends now ch rest m m'

send_first-Sends :
    (now : ℕ) (ch : ℕ) (rest : List ℕ) (m : Machine)
    → Sends now ch rest m (send_first now true (ch ∷ rest) m)
unfolding send_first
send_first-Sends now ch rest m = elim (Bool-cases (leb m.next_key now)) [
  | inl e ↦ rw e (sends refl refl refl)
  | inr e ↦ rw e (waits (ground arith) refl)
]

pump_keys-Sends :
    (r : Round) (ch : ℕ) (rest : List ℕ) (m : Machine)
    → m.pending ≡ ch ∷ rest
    → r.accepts ≡ true
    → Sends r.pumped ch rest m (pump_keys r.pumped r.accepts m)
unfolding pump_keys
pump_keys-Sends r ch rest m e ha =
    subst (Sends r.pumped ch rest m)
      (sym (
        ap (λ l. send_first r.pumped r.accepts l m) e
        ∙ ap (λ b. send_first r.pumped b (ch ∷ rest) m) ha))
      (send_first-Sends r.pumped ch rest m)

sync_loop-stop :
    (deadline : ℕ) (rounds : List Round) (m : Machine)
    → is_empty m.pending ≡ true
    → sync_loop deadline rounds m ≡ some m
unfolding sync_loop
sync_loop-stop deadline [] m h = rw (sync_loop, h) refl
sync_loop-stop deadline (r ∷ rounds) m h = rw (sync_loop, h) refl

sync_loop-on :
    (deadline : ℕ) (r : Round) (rounds : List Round) (m : Machine)
    → is_empty m.pending ≡ false
    → r.tested < deadline
    → sync_loop deadline (r ∷ rounds) m ≡ sync_loop deadline rounds (pump_keys r.pumped r.accepts m)
unfolding sync_loop
sync_loop-on deadline r rounds m h soon = rw (sync_loop, h, lt→ltb r.tested deadline soon) refl

due_next :
    (now t due gap deadline n : ℕ)
    → now ≤ t + gap
    → t ≤ due
    → due + suc n * (120 + gap) ≤ deadline
    → now + 120 + n * (120 + gap) ≤ deadline
due_next now t due gap deadline n hg ht hd = omega arith

sent_one :
    {before after keys : List ℕ} {ch : ℕ} {o : Option Machine}
    → after ≡ before ++ ch ∷ []
    → Emptied after keys o
    → Emptied before (ch ∷ keys) o
sent_one {before} {after} {keys} {ch} e (emptied hp hs) =
    emptied hp (hs ∙ ap (λ l. l ++ keys) e ∙ append_assoc before (ch ∷ []) keys)

-- The keys that wait are sent, since a key is due `due` at the latest and each takes `120 + gap`.
sync_loop-Emptied :
    (gap deadline t due : ℕ) (rounds : List Round) (m : Machine) (keys : List ℕ)
    → m.pending ≡ keys
    → Paced gap deadline t rounds
    → t ≤ due
    → m.next_key ≤ due
    → due + length keys * (120 + gap) ≤ deadline
    → Emptied m.sent keys (sync_loop deadline rounds m)
unfolding is_empty
sync_loop-Emptied gap deadline t due rounds m [] e p ht hk hd =
    subst (Emptied m.sent []) (sym (sync_loop-stop deadline rounds m (ap is_empty e)))
      (emptied e (sym (append-nil m.sent)))
sync_loop-Emptied gap deadline t due [] m (ch ∷ keys) e (over h) ht hk hd = absurd (ground arith)
sync_loop-Emptied gap deadline t due (r ∷ rounds) m (ch ∷ keys) e (next ha hr hg p) ht hk hd =
    subst (Emptied m.sent (ch ∷ keys))
      (sym (sync_loop-on deadline r rounds m (ap is_empty e) (ground arith)))
      (elim (pump_keys-Sends r ch keys m e ha) [
        | waits early same ↦
            subst (λ m'. Emptied m.sent (ch ∷ keys) (sync_loop deadline rounds m')) (sym same)
              (sync_loop-Emptied gap deadline r.pumped due rounds m (ch ∷ keys) e p (omega arith) hk
                hd)
        | sends hp hs hn ↦ sent_one hs (
            sync_loop-Emptied gap deadline r.pumped (r.pumped + 120) rounds
              (pump_keys r.pumped r.accepts m) keys hp p (omega arith) (omega (arith, hn))
              (due_next r.pumped t due gap deadline (length keys) hg ht hd))
      ])

fits_on :
    (now gap n k : ℕ)
    → k ≡ n + 11
    → 120 + (n + 11) * (120 + gap) ≤ 6000
    → now + 120 + k * (120 + gap) ≤ now + 6000
fits_on now gap n k e fits = rw e (omega arith)

-- `sync_and_stop` sends everything that still waits and then the whole of its command before it stops the
-- machine, and never gives up at its deadline: when the rounds of its loop follow each other by at most
-- `gap` and go on up to the deadline, the socket takes the keys, the next key is due in 120 ms at the
-- latest, and what waits and the command, at `120 + gap` ms a key, fit into the six seconds.
pub sync-Emptied :
    (gap now : ℕ) (rounds : List Round) (m : Machine)
    → Paced gap (now + 6000) now rounds
    → m.next_key ≤ now + 120
    → 120 + (length m.pending + 11) * (120 + gap) ≤ 6000
    → Emptied m.sent (m.pending ++ sync_command) (sync now rounds m)
unfolding sync type_keys
sync-Emptied gap now rounds m p hk fits =
    sync_loop-Emptied gap (now + 6000) now (now + 120) rounds (type_keys sync_command m)
      (m.pending ++ sync_command) refl p (omega arith) hk
      (fits_on now gap (length m.pending) (length (m.pending ++ sync_command))
        (length-append m.pending sync_command) fits)
