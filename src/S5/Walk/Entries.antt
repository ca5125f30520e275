-- ===== src/S5/Walk/Entries.antt =====
-- What the loop of `S5.walk` over the entries of a directory lists.
use mathlib.Core.Path.{subst}
use mame_sys.Base.{
  ℕ, suc, List, [], ◌∷◌, ◌++◌, true, false, ◌≡◌, refl, sym, ap, ◌∙◌, ◌⊎◌, inl, inr, Bool-cases,
  if◌then◌else◌,
}
use mame_sys.Base.Result.{Result, ok, ◌>>=◌, >>=-eq-ok}
use mame_sys.S5.{Entry, inode, readdir}
use mame_sys.S5.Walk.{Node, is_dir, is_dots, under, walk_entries}

-- Membership.
abbrev pub In : {A : Type 0} → A → List A → Type 0
In x [] = ⊥
In x (y ∷ ys) = (x ≡ y) ⊎ In x ys

pub ok-eq : {A : Type 0} {x y : A} → ok x ≡ ok y → x ≡ y
ok-eq h = cc

In-append : {A : Type 0} (x : A) (xs ys : List A) → In x (xs ++ ys) → In x xs ⊎ In x ys
In-append x [] ys h = inr h
In-append x (y ∷ xs) ys (inl e) = inl (inl e)
In-append x (y ∷ xs) ys (inr h) = elim (In-append x xs ys h) [ inl a ↦ inl (inr a) | inr b ↦ inr b ]

In-left : {A : Type 0} (x : A) (xs ys : List A) → In x xs → In x (xs ++ ys)
In-left x [] ys h = absurd h
In-left x (y ∷ xs) ys (inl e) = inl e
In-left x (y ∷ xs) ys (inr h) = inr (In-left x xs ys h)

In-right : {A : Type 0} (x : A) (xs ys : List A) → In x ys → In x (xs ++ ys)
In-right x [] ys h = h
In-right x (y ∷ xs) ys h = inr (In-right x xs ys h)

abbrev pub node_at : List ℕ → List ℕ → ℕ → Entry → Node
node_at path name n e = record { path = under path name; num = n; entry = e }

-- A name that is listed in a directory, with the inode that its number gives.
pub record Names (d : List ℕ) (ino : ℕ) (n : ℕ) (name : List ℕ) (e : Entry) : Type 0 where
  pub ents : List (ℕ × List ℕ)
  pub read : readdir d ino ≡ ok ents
  pub listed : In (n, name) ents
  pub proper : is_dots name ≡ false
  pub found : inode d n ≡ ok e

-- What is reached from directory `ino`, whose path is given: its names, and what is reached from those of
-- them that are directories, `left` levels down at most.
pub data Reached (d : List ℕ) : ℕ → ℕ → List ℕ → Node → Type 0 where
  here :
      {left ino n : ℕ} {path name : List ℕ} {e : Entry} {node : Node}
      → Names d ino n name e
      → node ≡ node_at path name n e
      → Reached d left ino path node
  below :
      {left ino n : ℕ} {path name : List ℕ} {e : Entry} {node : Node}
      → Names d ino n name e
      → is_dir e.mode ≡ true
      → Reached d left n (under path name) node
      → Reached d (suc left) ino path node

-- The same for one entry of a directory, and for its entries.
abbrev pub AtEntry : List ℕ → (ℕ → List ℕ → Node → Type 0) → List ℕ → ℕ → List ℕ → Node → Type 0
AtEntry d P path n name node =
    (is_dots name ≡ false)
    × (e : Entry) × (inode d n ≡ ok e)
    × ((node ≡ node_at path name n e) ⊎ ((is_dir e.mode ≡ true) × P n (under path name) node))

abbrev pub AtEntries :
    List ℕ → (ℕ → List ℕ → Node → Type 0) → List ℕ → List (ℕ × List ℕ) → Node → Type 0
AtEntries d P path [] node = ⊥
AtEntries d P path ((n, name) ∷ ents) node =
    AtEntry d P path n name node ⊎ AtEntries d P path ents node

-- A walk that lists exactly what is reached.
abbrev pub Exact : (ℕ → List ℕ → Result (List Node)) → (ℕ → List ℕ → Node → Type 0) → Type 0
Exact go P =
    (n : ℕ) (path : List ℕ) (nodes : List Node)
    → go n path ≡ ok nodes
    → (node : Node) → (In node nodes → P n path node) × (P n path node → In node nodes)

module _ (d : List ℕ) (go : ℕ → List ℕ → Result (List Node)) where
  pub walk_entries-dots :
      (path : List ℕ) (n : ℕ) (name : List ℕ) (ents : List (ℕ × List ℕ))
      → is_dots name ≡ true
      → walk_entries go d path ((n, name) ∷ ents) ≡ walk_entries go d path ents
  unfolding walk_entries
  walk_entries-dots path n name ents e = rw (walk_entries, e) refl

  pub walk_entries-proper :
      (path : List ℕ) (n : ℕ) (name : List ℕ) (ents : List (ℕ × List ℕ))
      → is_dots name ≡ false
      → walk_entries go d path ((n, name) ∷ ents) ≡ (
          inode d n >>= λ i. (if is_dir i.mode then go n (under path name) else ok []) >>= λ inside.
          walk_entries go d path ents >>= λ rest. ok (node_at path name n i ∷ (inside ++ rest)))
  unfolding walk_entries
  walk_entries-proper path n name ents e = rw (walk_entries, e) refl

module _ (d : List ℕ) (go : ℕ → List ℕ → Result (List Node)) (P : ℕ → List ℕ → Node → Type 0)
    (exact : Exact go P) where
  inside_list :
      (n : ℕ) (p : List ℕ) (e : Entry) (nodes : List Node)
      → (if is_dir e.mode then go n p else ok []) ≡ ok nodes
      → (node : Node)
      → (In node nodes → (is_dir e.mode ≡ true) × P n p node)
        × (is_dir e.mode ≡ true → P n p node → In node nodes)
  inside_list n p e nodes h node = elim (Bool-cases (is_dir e.mode)) [
    | inl dir ↦
        let both = exact n p nodes (rw dir at h) node in ((λ i. (dir, both.0 i)), (λ _ q. both.1 q))
    | inr other ↦
        let none_there : [] ≡ nodes = ok-eq (rw other at h) in
        (
          (λ i. absurd (rw (← none_there) at i)),
          (λ dir q. let f : false ≡ true = sym other ∙ dir in absurd cc),
        )
  ]

  -- One entry: what is listed for it, then what is listed behind it.
  entry-exact :
      (path : List ℕ) (n : ℕ) (name : List ℕ) (ents : List (ℕ × List ℕ)) (e : Entry)
      (inner rest : List Node) (node : Node)
      → is_dots name ≡ false
      → inode d n ≡ ok e
      → (if is_dir e.mode then go n (under path name) else ok []) ≡ ok inner
      → (In node rest → AtEntries d P path ents node)
        × (AtEntries d P path ents node → In node rest)
      → (In node (node_at path name n e ∷ (inner ++ rest))
          → AtEntries d P path ((n, name) ∷ ents) node)
        × (AtEntries d P path ((n, name) ∷ ents) node
            → In node (node_at path name n e ∷ (inner ++ rest)))
  entry-exact path n name ents e inner rest node proper found inside behind =
      let (listed, lists) = inside_list n (under path name) e inner inside node in
      (
        (λ i. elim i [
          | inl same ↦ inl (proper, e, found, inl same)
          | inr more ↦ elim (In-append node inner rest more) [
            | inl within ↦ inl (proper, e, found, inr (listed within))
            | inr after ↦ inr (behind.0 after)
          ]
        ]),
        (λ a. elim a [
          | inl (_, e', found', at) ↦
              let same : e ≡ e' = ok-eq (sym found ∙ found') in
              elim at [
                | inl node_is ↦ inl (node_is ∙ ap (node_at path name n) (sym same))
                | inr (dir, reached) ↦
                    inr
                      (In-left node inner rest (lists (ap (λ x. is_dir x.mode) same ∙ dir) reached))
              ]
          | inr after ↦ inr (In-right node inner rest (behind.1 after))
        ]),
      )

  pub walk_entries-exact :
      (path : List ℕ) (ents : List (ℕ × List ℕ)) (nodes : List Node)
      → walk_entries go d path ents ≡ ok nodes
      → (node : Node)
      → (In node nodes → AtEntries d P path ents node)
        × (AtEntries d P path ents node → In node nodes)
  unfolding walk_entries
  walk_entries-exact path [] nodes h node = rw (← ok-eq h) ((λ i. i), (λ i. i))
  walk_entries-exact path ((n, name) ∷ ents) nodes h node = elim (Bool-cases (is_dots name)) [
    | inl dots ↦
        let ih =
          walk_entries-exact path ents nodes
            (sym (walk_entries-dots d go path n name ents dots) ∙ h) node in
        (
          (λ i. inr (ih.0 i)),
          (λ a. elim a [
            | inl at ↦ let f : true ≡ false = sym dots ∙ at.0 in absurd cc
            | inr after ↦ ih.1 after
          ]),
        )
    | inr proper ↦
        let (e, e₁, h₁) =
          >>=-eq-ok (inode d n) _ (sym (walk_entries-proper d go path n name ents proper) ∙ h) in
        let (inner, e₂, h₂) =
          >>=-eq-ok (if is_dir e.mode then go n (under path name) else ok []) _ h₁ in
        let (rest, e₃, h₃) = >>=-eq-ok (walk_entries go d path ents) _ h₂ in
        subst
          (λ l.
            (In node l → AtEntries d P path ((n, name) ∷ ents) node)
            × (AtEntries d P path ((n, name) ∷ ents) node → In node l))
          (ok-eq h₃)
          (entry-exact path n name ents e inner rest node proper e₁ e₂
            (walk_entries-exact path ents rest e₃ node))
  ]
