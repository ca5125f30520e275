-- ===== src/S5/Walk/Found.antt =====
-- `S5.walk` lists what can be reached from a directory, and nothing else.
use mathlib.Core.Path.{subst}
use mame_sys.Base.{
  ℕ, zero, suc, List, [], ◌∷◌, true, ◌≡◌, refl, sym, ap, ◌∙◌, ◌⊎◌, inl, inr, Bool-cases,
  if◌then◌else◌,
}
use mame_sys.Base.Result.{Result, ok, >>=-eq-ok}
use mame_sys.S5.{Entry, inode, readdir}
use mame_sys.S5.Walk.{Node, is_dir, is_dots, under, walk_entries, walk_from, walk}
use mame_sys.Base.{All}
use mame_sys.Base.Result.{Succeeds, >>=-Succeeds}
use mame_sys.S5.Walk.Entries.{
  ok-eq, In, node_at, Names, Reached, here, below, AtEntry, AtEntries, Exact, walk_entries-exact,
  walk_entries-dots, walk_entries-proper,
}

-- An entry of the directory is one of its names.
AtEntries-In :
    (d : List ℕ) (P : ℕ → List ℕ → Node → Type 0) (path : List ℕ) (ents : List (ℕ × List ℕ))
    (node : Node)
    → AtEntries d P path ents node
    → (n : ℕ) × (name : List ℕ) × In (n, name) ents × AtEntry d P path n name node
AtEntries-In d P path [] node a = absurd a
AtEntries-In d P path ((n, name) ∷ ents) node (inl at) = (n, name, inl refl, at)
AtEntries-In d P path ((n, name) ∷ ents) node (inr after) =
    let (m, other, i, at) = AtEntries-In d P path ents node after in (m, other, inr i, at)

In-AtEntries :
    (d : List ℕ) (P : ℕ → List ℕ → Node → Type 0) (path : List ℕ) (ents : List (ℕ × List ℕ))
    (node : Node) (n : ℕ) (name : List ℕ)
    → In (n, name) ents
    → AtEntry d P path n name node
    → AtEntries d P path ents node
In-AtEntries d P path [] node n name i at = absurd i
In-AtEntries d P path ((m, other) ∷ ents) node n name (inl e) at =
    let same_num : n ≡ m = ap (λ x. x.0) e in
    let same_name : name ≡ other = ap (λ x. x.1) e in inl (rw (← same_num, ← same_name) at)
In-AtEntries d P path (x ∷ ents) node n name (inr i) at =
    inr (In-AtEntries d P path ents node n name i at)

none-exact :
    (go : ℕ → List ℕ → Result (List Node))
    → ((n : ℕ) (p : List ℕ) → go n p ≡ ok [])
    → Exact go (λ n p node. ⊥)
none-exact go nothing n path nodes h node =
    let empty : [] ≡ nodes = ok-eq (sym (nothing n path) ∙ h) in
    ((λ i. rw (← empty) at i), (λ i. absurd i))

Reached-entries :
    (d : List ℕ) (left ino : ℕ) (path : List ℕ) (ents : List (ℕ × List ℕ)) (node : Node)
    → readdir d ino ≡ ok ents
    → AtEntries d (Reached d left) path ents node
    → Reached d (suc left) ino path node
Reached-entries d left ino path ents node read a =
    let (n, name, i, (proper, e, found, at)) = AtEntries-In d (Reached d left) path ents node a in
    let names : Names d ino n name e = record {
      ents = ents;
      read = read;
      listed = i;
      proper = proper;
      found = found;
    } in
    elim at [ inl same ↦ here names same | inr (dir, reached) ↦ below names dir reached ]

Reached-last :
    (d : List ℕ) (ino : ℕ) (path : List ℕ) (ents : List (ℕ × List ℕ)) (node : Node)
    → readdir d ino ≡ ok ents
    → AtEntries d (λ n p m. ⊥) path ents node
    → Reached d 0 ino path node
Reached-last d ino path ents node read a =
    let (n, name, i, (proper, e, found, at)) = AtEntries-In d (λ n p m. ⊥) path ents node a in
    let names : Names d ino n name e = record {
      ents = ents;
      read = read;
      listed = i;
      proper = proper;
      found = found;
    } in
    elim at [ inl same ↦ here names same | inr (dir, reached) ↦ absurd reached ]

Names-At :
    (d : List ℕ) (P : ℕ → List ℕ → Node → Type 0) (ino : ℕ) (path : List ℕ)
    (ents : List (ℕ × List ℕ)) (node : Node) (n : ℕ) (name : List ℕ) (e : Entry)
    → readdir d ino ≡ ok ents
    → Names d ino n name e
    → (node ≡ node_at path name n e) ⊎ ((is_dir e.mode ≡ true) × P n (under path name) node)
    → AtEntries d P path ents node
Names-At d P ino path ents node n name e read names at =
    let same : names.ents ≡ ents = ok-eq (sym names.read ∙ read) in
    In-AtEntries d P path ents node n name (subst (In (n, name)) same names.listed)
      (names.proper, e, names.found, at)

last-Reached :
    (d : List ℕ) (ino : ℕ) (path : List ℕ) (ents : List (ℕ × List ℕ)) (node : Node)
    → readdir d ino ≡ ok ents
    → Reached d 0 ino path node
    → AtEntries d (λ n p m. ⊥) path ents node
last-Reached d ino path ents node read (here {n = n} {name = name} {e = e} names same) =
    Names-At d (λ n p m. ⊥) ino path ents node n name e read names (inl same)

entries-Reached :
    (d : List ℕ) (left ino : ℕ) (path : List ℕ) (ents : List (ℕ × List ℕ)) (node : Node)
    → readdir d ino ≡ ok ents
    → Reached d (suc left) ino path node
    → AtEntries d (Reached d left) path ents node
entries-Reached d left ino path ents node read (here {n = n} {name = name} {e = e} names same) =
    Names-At d (Reached d left) ino path ents node n name e read names (inl same)
entries-Reached d left ino path ents node read
      (below {n = n} {name = name} {e = e} names dir reached) =
    Names-At d (Reached d left) ino path ents node n name e read names (inr (dir, reached))

walk_from-Exact : (left : ℕ) (d : List ℕ) → Exact (walk_from left d) (Reached d left)
unfolding walk_from
walk_from-Exact zero d ino path nodes h node =
    let (ents, read, h₁) = >>=-eq-ok (readdir d ino) _ h in
    let both =
      walk_entries-exact d (λ n p. ok []) (λ n p m. ⊥) (none-exact (λ n p. ok []) (λ n p. refl))
        path ents nodes h₁ node in
    (
      (λ i. Reached-last d ino path ents node read (both.0 i)),
      (λ r. both.1 (last-Reached d ino path ents node read r)),
    )
walk_from-Exact (suc left) d ino path nodes h node =
    let (ents, read, h₁) = >>=-eq-ok (readdir d ino) _ h in
    let both =
      walk_entries-exact d (walk_from left d) (Reached d left) (walk_from-Exact left d) path ents
        nodes h₁ node in
    (
      (λ i. Reached-entries d left ino path ents node read (both.0 i)),
      (λ r. both.1 (entries-Reached d left ino path ents node read r)),
    )

-- When `walk` returns, it has listed exactly what can be reached from the root, inode 2, through
-- directories, the names `.` and `..` left out, at most twelve directories below the root: every node of
-- the list is reached so, under the path that the list gives, and every node reached is in the list.
pub walk-Reached :
    (d : List ℕ) (nodes : List Node) (node : Node)
    → walk d ≡ ok nodes
    → (In node nodes → Reached d 12 2 [] node) × (Reached d 12 2 [] node → In node nodes)
unfolding walk
walk-Reached d nodes node h = walk_from-Exact 12 d 2 [] nodes h node

-- Directories that can be read: the inodes of their names can be read as well, and those of them that are
-- directories are of the same kind.
abbrev pub IsReadable : List ℕ → (ℕ → Type 0) → Type 0
IsReadable d P =
    (n : ℕ)
    → P n
    → (ents : List (ℕ × List ℕ)) × (readdir d n ≡ ok ents)
      × All (λ ent. (e : Entry) × (inode d ent.0 ≡ ok e) × (is_dir e.mode ≡ true → P ent.0)) ents

walk_entries-Succeeds :
    (d : List ℕ) (P : ℕ → Type 0) (go : ℕ → List ℕ → Result (List Node)) (path : List ℕ)
    (ents : List (ℕ × List ℕ))
    → ((n : ℕ) (p : List ℕ) → P n → Succeeds (go n p))
    → All (λ ent. (e : Entry) × (inode d ent.0 ≡ ok e) × (is_dir e.mode ≡ true → P ent.0)) ents
    → Succeeds (walk_entries go d path ents)
unfolding walk_entries
walk_entries-Succeeds d P go path [] goes all = ([], refl)
walk_entries-Succeeds d P go path ((n, name) ∷ ents) goes all = elim (Bool-cases (is_dots name)) [
  | inl dots ↦
      rw (walk_entries-dots d go path n name ents dots)
        (walk_entries-Succeeds d P go path ents goes all.1)
  | inr proper ↦
      let (e, found, dir) = all.0 in
      rw (walk_entries-proper d go path n name ents proper, found)
        (>>=-Succeeds (if is_dir e.mode then go n (under path name) else ok []) _ (inner e dir)
          (λ inside _.
            >>=-Succeeds (walk_entries go d path ents) _
              (walk_entries-Succeeds d P go path ents goes all.1) (λ rest _. (_, refl))))
]
  where
    inner :
        (e : Entry)
        → (is_dir e.mode ≡ true → P n)
        → Succeeds (if is_dir e.mode then go n (under path name) else ok [])
    inner e dir = elim (Bool-cases (is_dir e.mode)) [
      | inl yes_dir ↦ rw yes_dir (goes n (under path name) (dir yes_dir))
      | inr other ↦ rw other ([], refl)
    ]

walk_from-Succeeds :
    (left : ℕ) (d : List ℕ) (P : ℕ → Type 0) (n : ℕ) (path : List ℕ)
    → IsReadable d P
    → P n
    → Succeeds (walk_from left d n path)
unfolding walk_from
walk_from-Succeeds zero d P n path closed p =
    let (ents, read, all) = closed n p in
    rw read (walk_entries-Succeeds d P (λ n p. ok []) path ents (λ n p _. ([], refl)) all)
walk_from-Succeeds (suc left) d P n path closed p =
    let (ents, read, all) = closed n p in
    rw read (
      walk_entries-Succeeds d P (walk_from left d) path ents
        (λ m q r. walk_from-Succeeds left d P m q closed r) all)

-- `walk` returns, however the directories contain each other, when the root is one of a set of directories
-- that can be read, whose names have inodes that can be read, and whose directories are in the set.
pub walk-Succeeds : (d : List ℕ) (P : ℕ → Type 0) → IsReadable d P → P 2 → Succeeds (walk d)
unfolding walk
walk-Succeeds d P closed p = walk_from-Succeeds 12 d P 2 [] closed p
