-- ===== src/Nm32/Sorted.antt =====
-- The order in which `symbols` of tools/nm32.py returns what it has read.
use mame_sys.Base.{ℕ, ◌+◌, ◌≤◌, List, [], ◌∷◌, Bool, true, false, All, Bool-cases}
use mame_sys.Base.{◌≡◌, refl, arith, ◌||◌, leb, slice, drop, ◌*◌, inl, inr, length}
use mame_sys.Base.Codec.{from_le}
use mame_sys.Base.Result.{ok, guard, struct_error, >>=-eq-ok}
use mame_sys.Nm32.{Symbol, symesz, symbol_le, insert, sort, symbols, symbols_from}

abbrev pub IsSorted : List Symbol → Type 0
IsSorted [] = Unit
IsSorted (s ∷ ss) = All (λ t. s.value ≤ t.value) ss × IsSorted ss

pub All-map {ℓ κ} :
    {A : Type ℓ} {P Q : A → Type κ} → ((a : A) → P a → Q a) → (xs : List A) → All P xs → All Q xs
All-map f [] h = tt
All-map f (x ∷ xs) h = (f x h.0, All-map f xs h.1)

or-true : (a b : Bool) → (a || b) ≡ true → b ≡ false → a ≡ true
or-true true b h e = refl
or-true false b h e = cc

symbol_le-true : (s t : Symbol) → symbol_le s t ≡ true → s.value ≤ t.value
unfolding symbol_le
symbol_le-true s t h = ground arith

symbol_le-false : (s t : Symbol) → symbol_le s t ≡ false → t.value ≤ s.value
unfolding symbol_le
symbol_le-false s t h = ground arith

module _ {κ} (P : Symbol → Type κ) where
  pub insert-All : (s : Symbol) (ss : List Symbol) → P s → All P ss → All P (insert s ss)
  unfolding insert
  insert-All s [] p h = (p, tt)
  insert-All s (t ∷ ts) p h = elim (Bool-cases (symbol_le s t)) [
    | inl e ↦ rw e (p, h)
    | inr e ↦ rw e (h.0, insert-All s ts p h.1)
  ]

  pub sort-All : (ss : List Symbol) → All P ss → All P (sort ss)
  unfolding sort
  sort-All [] h = tt
  sort-All (s ∷ ss) h = insert-All s (sort ss) h.0 (sort-All ss h.1)

insert-IsSorted : (s : Symbol) (ss : List Symbol) → IsSorted ss → IsSorted (insert s ss)
unfolding insert
insert-IsSorted s [] h = (tt, tt)
insert-IsSorted s (t ∷ ts) h = elim (Bool-cases (symbol_le s t)) [
  | inl e ↦
      let first = symbol_le-true s t e in rw e ((first, All-map (λ u. λ k. omega arith) ts h.0), h)
  | inr e ↦ rw e (
    insert-All (λ u. t.value ≤ u.value) s ts (symbol_le-false s t e) h.0,
    insert-IsSorted s ts h.1,
  )
]

pub sort-IsSorted : (ss : List Symbol) → IsSorted (sort ss)
unfolding sort
sort-IsSorted [] = tt
sort-IsSorted (s ∷ ss) = insert-IsSorted s (sort ss) (sort-IsSorted ss)

ok-injective : {a b : List Symbol} → ok a ≡ ok b → a ≡ b
ok-injective h = cc

pub symbols-IsSorted : (d : List ℕ) {syms : List Symbol} → symbols d ≡ ok syms → IsSorted syms
unfolding symbols
symbols-IsSorted d {syms} h =
    let (_, _, h₁) = >>=-eq-ok (guard (leb 20 (length d)) struct_error) _ h in
    let symptr = from_le (slice d 8 4) in
    let nsyms = from_le (slice d 12 4) in
    let strtab = drop (symptr + nsyms * symesz) d in
    let (out, _, e) =
      >>=-eq-ok (symbols_from nsyms d strtab symptr nsyms 0) (λ out. ok (sort out)) h₁ in
    rw (← ok-injective e) (sort-IsSorted out)
