-- ===== src/Mkfs/Build/Links.antt =====
-- How many entries of the directories that `build` of tools/mkfs.py gathers name an inode.
use mame_sys.Base.{
  ℕ, ◌+◌, List, [], ◌∷◌, ◌++◌, Option, some, none, ◌≡◌, sym, ap, ◌∙◌, append-nil, arith, Bool-cases,
  inl, inr, same_bytes, ◌==◌, if◌then◌else◌,
}
use mame_sys.Base.Result.{ok, >>=-eq-ok}
use mame_sys.Mkfs.Build.{Dict, Entries, find, set_key, get, append_to}
use mame_sys.Mkfs.Build.Dicts.{
  get-eq-ok, same_bytes_eq, find-set_key_same, find-set_key_other, some-eq,
}

abbrev pub one : ℕ → ℕ → ℕ
one n m = if n == m then 1 else 0

-- The entries of one directory that name inode `n`.
abbrev pub named : ℕ → Entries → ℕ
named n [] = 0
named n ((m, name) ∷ ents) = one n m + named n ents

abbrev pub links : ℕ → Dict Entries → ℕ
links n [] = 0
links n ((path, ents) ∷ dict) = named n ents + links n dict

abbrev pub named_in : ℕ → Option Entries → ℕ
named_in n none = 0
named_in n (some ents) = named n ents

pub named-append : (n : ℕ) (xs ys : Entries) → named n (xs ++ ys) ≡ named n xs + named n ys
named-append n [] ys = omega arith
named-append n ((m, name) ∷ xs) ys = omega (arith, named-append n xs ys)

pub links-set_key :
    (n : ℕ) (key : List ℕ) (ents : Entries) (d : Dict Entries)
    → links n (set_key key ents d) + named_in n (find key d) ≡ links n d + named n ents
unfolding find set_key
links-set_key n key ents [] = omega arith
links-set_key n key ents ((k, held) ∷ d) = elim (Bool-cases (same_bytes key k)) [
  | inl same ↦ rw same (omega arith)
  | inr other ↦ rw other (omega (arith, links-set_key n key ents d))
]

-- What an `append` to the entries of a path does.
pub record Appends (key : List ℕ) (more : Entries) (d d' : Dict Entries) : Type 0 where
  pub held : Entries
  pub there : find key d ≡ some held
  pub result : d' ≡ set_key key (held ++ more) d
  pub counted : (n : ℕ) → links n d' ≡ links n d + named n more

pub append_to-Appends :
    (key : List ℕ) (more : Entries) (d : Dict Entries) {d' : Dict Entries}
    → append_to key more d ≡ ok d'
    → Appends key more d d'
unfolding append_to
append_to-Appends key more d {d'} e =
    let (held, got, h) = >>=-eq-ok (get key d) _ e in
    let there = get-eq-ok key d got in
    let result : d' ≡ set_key key (held ++ more) d = cc in
    record {
      held = held;
      there = there;
      result = result;
      counted = λ n. rw result (
          omega (
            arith,
            links-set_key n key (held ++ more) d,
            ap (named_in n) there,
            named-append n held more,
          ));
    }

-- Entries that are there stay, in front of what is appended.
pub Appends-kept :
    (key : List ℕ) (more : Entries) (d d' : Dict Entries)
    → Appends key more d d'
    → (q : List ℕ) (ents : Entries) → find q d ≡ some ents
    → (rest : Entries) × (find q d' ≡ some (ents ++ rest))
Appends-kept key more d d' a q ents e = elim (Bool-cases (same_bytes q key)) [
  | inl same ↦
      let here : q ≡ key = same_bytes_eq q key same in
      let was : a.held ≡ ents = some-eq (sym a.there ∙ ap (λ k. find k d) (sym here) ∙ e) in
      (
        more,
        ap (find q) a.result
            ∙ ap (λ k. find k (set_key key (a.held ++ more) d)) here
            ∙ find-set_key_same key (a.held ++ more) d
            ∙ ap (λ l. some (l ++ more)) was,
      )
  | inr other ↦ (
    [],
    ap (find q) a.result
        ∙ find-set_key_other q key (a.held ++ more) d other
        ∙ e
        ∙ ap some (sym (append-nil ents)),
  )
]

-- The entries of the path that is appended to, after it.
pub Appends-there :
    (key : List ℕ) (more : Entries) (d d' : Dict Entries) (a : Appends key more d d')
    → find key d' ≡ some (a.held ++ more)
Appends-there key more d d' a = ap (find key) a.result ∙ find-set_key_same key (a.held ++ more) d
