-- ===== src/Mkfs/Build/Dicts.antt =====
-- Laws of the dicts of tools/mkfs.py: what `find` gives after `set_key`.
use mame_sys.Base.{
  ℕ, List, [], ◌∷◌, true, false, ◌≡◌, ◌≢◌, refl, ap, ap₂, inl, inr, Bool-cases, some, none,
  same_bytes, ◌==◌, ==_refl, ==_iff, map, if◌then◌else◌,
}
use mame_sys.Base.{◌++◌, ◌∙◌, sym, ◌⊎◌, All, Option-cases}
use mathlib.Core.List.{map-append}
use mame_sys.Base.Result.{ok, err, key_error}
use mame_sys.Mkfs.Build.{Dict, find, set_key, get}

pub same_bytes_refl : (xs : List ℕ) → same_bytes xs xs ≡ true
unfolding same_bytes
same_bytes_refl [] = refl
same_bytes_refl (x ∷ xs) = rw (==_refl x) (same_bytes_refl xs)

pub same_bytes_eq : (xs ys : List ℕ) → same_bytes xs ys ≡ true → xs ≡ ys
unfolding same_bytes
same_bytes_eq [] [] e = refl
same_bytes_eq [] (y ∷ ys) e = cc
same_bytes_eq (x ∷ xs) [] e = cc
same_bytes_eq (x ∷ xs) (y ∷ ys) e = elim (Bool-cases (x == y)) [
  | inl same ↦ ap₂ (◌∷◌) ((==_iff x y).0 same) (same_bytes_eq xs ys (rw same at e))
  | inr other ↦ let f : false ≡ true = rw other at e in absurd cc
]

module _ {A : Type 0} where
  pub find-set_key_same : (key : List ℕ) (a : A) (d : Dict A) → find key (set_key key a d) ≡ some a
  unfolding find set_key
  find-set_key_same key a [] = rw (same_bytes_refl key) refl
  find-set_key_same key a ((k, b) ∷ d) = elim (Bool-cases (same_bytes key k)) [
    | inl e ↦ rw (e, e) refl
    | inr e ↦ rw (e, e) (find-set_key_same key a d)
  ]

  pub find-set_key_other :
      (other key : List ℕ) (a : A) (d : Dict A)
      → same_bytes other key ≡ false
      → find other (set_key key a d) ≡ find other d
  unfolding find set_key
  find-set_key_other other key a [] ne = rw ne refl
  find-set_key_other other key a ((k, b) ∷ d) ne = elim (Bool-cases (same_bytes key k)) [
    | inl e ↦
        let same : key ≡ k = same_bytes_eq key k e in
        let ne' : same_bytes other k ≡ false = rw same at ne in rw (e, ne') refl
    | inr e ↦
        rw e
          (ap (λ o. if same_bytes other k then some b else o) (find-set_key_other other key a d ne))
  ]

-- The keys in order.
abbrev pub keys : {A : Type 0} → Dict A → List (List ℕ)
keys d = map (λ kv. kv.0) d

module _ {A : Type 0} where
  -- A key that is new comes last.
  pub set_key_new :
      (key : List ℕ) (a : A) (d : Dict A) → find key d ≡ none → set_key key a d ≡ d ++ (key, a) ∷ []
  unfolding find set_key
  set_key_new key a [] e = refl
  set_key_new key a ((k, b) ∷ d) e = elim (Bool-cases (same_bytes key k)) [
    | inl same ↦ let h : some b ≡ none = rw same at e in absurd cc
    | inr other ↦ rw other (ap (◌∷◌ (k, b)) (set_key_new key a d (rw other at e)))
  ]

  -- A key that is there stays in its place.
  pub keys-set_key :
      (key : List ℕ) (a : A) (d : Dict A) {b : A}
      → find key d ≡ some b
      → keys (set_key key a d) ≡ keys d
  unfolding find set_key
  keys-set_key key a [] e = cc
  keys-set_key key a ((k, c) ∷ d) e = elim (Bool-cases (same_bytes key k)) [
    | inl same ↦ rw same refl
    | inr other ↦ rw other (ap (◌∷◌ k) (keys-set_key key a d (rw other at e)))
  ]

pub find-keys :
    {A B : Type 0} (key : List ℕ) (d : Dict A) (e : Dict B)
    → keys d ≡ keys e
    → find key d ≡ none
    → find key e ≡ none
unfolding find
find-keys key [] [] same h = refl
find-keys key [] (q ∷ e) same h = cc
find-keys key (p ∷ d) [] same h = cc
find-keys key ((k, a) ∷ d) ((l, b) ∷ e) same h = elim (Bool-cases (same_bytes key k)) [
  | inl here ↦ let f : some a ≡ none = rw here at h in absurd cc
  | inr other ↦
      let same_key : k ≡ l = cc in
      let other' : same_bytes key l ≡ false = rw same_key at other in
      let same_rest : keys d ≡ keys e = cc in
      rw other' (find-keys key d e same_rest (rw other at h))
]

pub get-eq-ok :
    {A : Type 0} (key : List ℕ) (d : Dict A) {a : A} → get key d ≡ ok a → find key d ≡ some a
unfolding get
get-eq-ok {A} key d {a} e = elim (Option-cases (find key d)) [
  | inl missing ↦ let h : err key_error ≡ ok a = rw (get, missing) at e in absurd cc
  | inr (b, there) ↦ let h : ok b ≡ ok a = rw (get, there) at e in there ∙ ap some (ok-eq h)
]
  where
    ok-eq : {x y : A} → ok x ≡ ok y → x ≡ y
    ok-eq h = cc

pub some-eq : {A : Type 0} {x y : A} → some x ≡ some y → x ≡ y
some-eq h = cc

-- What is found after a key has been set was set, or was there.
pub find-set_key-cases :
    {A : Type 0} (other key : List ℕ) (a x : A) (d : Dict A)
    → find other (set_key key a d) ≡ some x
    → ((other ≡ key) × (x ≡ a)) ⊎ (find other d ≡ some x)
find-set_key-cases other key a x d e = elim (Bool-cases (same_bytes other key)) [
  | inl same ↦
      let eq = same_bytes_eq other key same in
      inl (eq, sym (some-eq (sym (find-set_key_same key a d) ∙ (rw eq at e))))
  | inr ne ↦ inr (sym (find-set_key_other other key a d ne) ∙ e)
]

-- A key that is found is kept by setting a key that is not.
pub find-set_key_kept :
    {A : Type 0} (other key : List ℕ) (a x : A) (d : Dict A)
    → find key d ≡ none
    → find other d ≡ some x
    → find other (set_key key a d) ≡ some x
find-set_key_kept other key a x d new e = elim (Bool-cases (same_bytes other key)) [
  | inl same ↦ let h : none ≡ some x = sym new ∙ rw (same_bytes_eq other key same) at e in absurd cc
  | inr ne ↦ find-set_key_other other key a d ne ∙ e
]

pub same_bytes_ne : (xs ys : List ℕ) → xs ≢ ys → same_bytes xs ys ≡ false
same_bytes_ne xs ys h = elim (Bool-cases (same_bytes xs ys)) [
  | inl same ↦ absurd (h (same_bytes_eq xs ys same))
  | inr ne ↦ ne
]

-- The same new key keeps two dicts in step.
pub keys-set_key_new :
    {A B : Type 0} (key : List ℕ) (a : A) (b : B) (d : Dict A) (e : Dict B)
    → keys d ≡ keys e
    → find key d ≡ none
    → keys (set_key key a d) ≡ keys (set_key key b e)
keys-set_key_new key a b d e same new =
    ap keys (set_key_new key a d new)
    ∙ map-append (λ kv. kv.0) d ((key, a) ∷ [])
    ∙ ap (λ ks. ks ++ key ∷ []) same
    ∙ sym (map-append (λ kv. kv.0) e ((key, b) ∷ []))
    ∙ sym (ap keys (set_key_new key b e (find-keys key d e same new)))

-- No key stands twice.
abbrev pub Unique : List (List ℕ) → Type 0
Unique [] = Unit {0}
Unique (k ∷ ks) = All (λ l. same_bytes l k ≡ false) ks × Unique ks

Unique-snoc :
    {A : Type 0} (d : Dict A) (key : List ℕ) (a : A)
    → find key d ≡ none
    → Unique (keys d)
    → Unique (keys (d ++ (key, a) ∷ []))
unfolding find
Unique-snoc [] key a new u = (tt, tt)
Unique-snoc {A} ((k, b) ∷ d) key a new u = elim (Bool-cases (same_bytes key k)) [
  | inl same ↦ let h : some b ≡ none = rw same at new in absurd cc
  | inr other ↦ (All-snoc d u.0 other, Unique-snoc d key a (rw other at new) u.1)
]
  where
    All-snoc :
        (e : Dict A)
        → All (λ l. same_bytes l k ≡ false) (keys e)
        → same_bytes key k ≡ false
        → All (λ l. same_bytes l k ≡ false) (keys (e ++ (key, a) ∷ []))
    All-snoc [] h last = (last, tt)
    All-snoc (x ∷ e) h last = (h.0, All-snoc e h.1 last)

-- A new key keeps the keys apart.
pub Unique-set_key :
    {A : Type 0} (d : Dict A) (key : List ℕ) (a : A)
    → find key d ≡ none
    → Unique (keys d)
    → Unique (keys (set_key key a d))
Unique-set_key d key a new u = rw (set_key_new key a d new) (Unique-snoc d key a new u)

-- The first key is not found among the others.
pub Unique-find :
    {A : Type 0} (k : List ℕ) (d : Dict A)
    → All (λ l. same_bytes l k ≡ false) (keys d)
    → find k d ≡ none
unfolding find
Unique-find k [] h = refl
Unique-find k ((l, b) ∷ d) h = elim (Bool-cases (same_bytes k l)) [
  | inl same ↦
      let eq = same_bytes_eq k l same in
      let f : true ≡ false = sym (same_bytes_refl l) ∙ rw eq at h.0 in absurd cc
  | inr other ↦ rw other (Unique-find k d h.1)
]
