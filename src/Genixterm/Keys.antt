-- ===== src/Genixterm/Keys.antt =====
-- The keys of an interactive session of pack/genixterm.py.
use mame_sys.Base.{ℕ, List, [], ◌∷◌, ◌++◌, Bool, true, false, ◌≡◌, ◌≢◌, refl, sym, ap, ◌∙◌}
use mame_sys.Base.{
  append-nil, append_assoc, ◌==◌, Bool-cases, inl, inr, if◌then◌else◌, ==_iff, ◌||◌,
}
use mame_sys.Genixterm.{Read, go_on, leave, read_keys}

-- Neither of the keys that end the session.
abbrev pub NoExit : ℕ → Type 0
NoExit b = (b ≢ b'q') × (b ≢ b'Q') × (b ≢ b'x') × (b ≢ b'X')

-- Reading goes on behind another chunk.
abbrev pub and_then : Read → List ℕ → Read
and_then (go_on escape pending) bytes = read_keys escape pending bytes
and_then (leave e pending) bytes = leave e pending

-- The keyboard may deliver its bytes in chunks of any size, cut even between `Ctrl-]` and the key that
-- follows it: reading one chunk and then the next is the same as reading both at once.
pub read_keys-append :
    (escape : Bool) (pending first second : List ℕ)
    → read_keys escape pending (first ++ second) ≡ and_then (read_keys escape pending first) second
unfolding read_keys
read_keys-append escape pending [] second = refl
read_keys-append true pending (b ∷ first) second = elim (Bool-cases ((b == b'q') || (b == b'Q'))) [
  | inl e ↦ rw e refl
  | inr e ↦ elim (Bool-cases ((b == b'x') || (b == b'X'))) [
    | inl e' ↦ rw (e, e') refl
    | inr e' ↦ rw (e, e') (read_keys-append false (pending ++ 0x1d ∷ []) first second)
  ]
]
read_keys-append false pending (b ∷ first) second = elim (Bool-cases (b == 0x1d)) [
  | inl e ↦ rw e (read_keys-append true pending first second)
  | inr e ↦ rw e (read_keys-append false (pending ++ b ∷ []) first second)
]

-- The keys to press for a text: `Ctrl-] ]` for each `Ctrl-]` in it.
abbrev pub keys_for : List ℕ → List ℕ
keys_for [] = []
keys_for (c ∷ cs) = if c == 0x1d then 0x1d ∷ b']' ∷ keys_for cs else c ∷ keys_for cs

-- Every text can be typed: its keys, with `Ctrl-] ]` for each `Ctrl-]`, queue exactly the text, and
-- leave the session running and outside of an escape.
pub read_keys-keys_for :
    (pending text : List ℕ)
    → read_keys false pending (keys_for text) ≡ go_on false (pending ++ text)
unfolding read_keys
read_keys-keys_for pending [] = ap (go_on false) (sym (append-nil pending))
read_keys-keys_for pending (c ∷ cs) = elim (Bool-cases (c == 0x1d)) [
  | inl e ↦
      rw (e, (==_iff c 0x1d).0 e)
        (read_keys-keys_for (pending ++ 0x1d ∷ []) cs
          ∙ ap (go_on false) (append_assoc pending (0x1d ∷ []) cs))
  | inr e ↦
      rw (e, e)
        (read_keys-keys_for (pending ++ c ∷ []) cs
          ∙ ap (go_on false) (append_assoc pending (c ∷ []) cs))
]
