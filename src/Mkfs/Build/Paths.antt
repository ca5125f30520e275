-- ===== src/Mkfs/Build/Paths.antt =====
-- The recursion of `getdir` in tools/mkfs.py ends, since a parent's path is shorter.
use mame_sys.Base.{
  ℕ, zero, suc, ◌+◌, ◌<◌, List, [], ◌∷◌, ◌++◌, length, some, none, Option-cases, ◌==◌, ◌≢◌,
  if◌then◌else◌,
}
use mame_sys.Base.{◌≡◌, refl, ap, sym, ◌∙◌, length-append, arith, inl, inr, ◌⊎◌, ==_iff, Bool-cases}
use mame_sys.Base.Result.{Result, ok, err, recursion_error, ◌>>=◌}
use mame_sys.Mkfs.Build.{Build, rsplit, parent_path, root_path, or_root, find, getdir_on, new_dir}

-- A path from the root.
pub record IsRooted (path : List ℕ) : Type 0 where
  pub rest : List ℕ
  pub starts : path ≡ b'/' ∷ rest

-- What `rsplit` gives are the two sides of a slash of the path.
pub rsplit-join :
    (path before behind : List ℕ)
    → rsplit path ≡ some (before, behind)
    → path ≡ before ++ b'/' ∷ behind
unfolding rsplit
rsplit-join [] before behind e = cc
rsplit-join (c ∷ cs) before behind e = elim (Option-cases (rsplit cs)) [
  | inl missing ↦ elim (Bool-cases (c == b'/')) [
    | inl slash ↦
        let split : List ℕ × List ℕ = ([], cs) in
        let made : List ℕ × List ℕ = (before, behind) in
        let h : some split ≡ some made = rw (missing, slash) at e in
        let front : [] ≡ before = cc in
        let back : cs ≡ behind = cc in rw (← front, ← back, (==_iff c b'/').0 slash) refl
    | inr other ↦
        let p : List ℕ × List ℕ = (before, behind) in
        let h : none ≡ some p = rw (missing, other) at e in absurd cc
  ]
  | inr ((x, y), there) ↦
      let split : List ℕ × List ℕ = (c ∷ x, y) in
      let made : List ℕ × List ℕ = (before, behind) in
      let h : some split ≡ some made = rw there at e in
      let front : c ∷ x ≡ before = cc in
      let back : y ≡ behind = cc in rw (← front, ← back) (ap (◌∷◌ c) (rsplit-join cs x y there))
]

rooted-rsplit :
    (rest : List ℕ)
    → (before : List ℕ) × (behind : List ℕ) × (rsplit (b'/' ∷ rest) ≡ some (before, behind))
unfolding rsplit
rooted-rsplit rest = elim (Option-cases (rsplit rest)) [
  | inl missing ↦ ([], rest, rw missing refl)
  | inr ((x, y), there) ↦ (b'/' ∷ x, y, rw there refl)
]

pub parent-cases :
    (path : List ℕ)
    → IsRooted path
    → (parent_path path ≡ root_path)
      ⊎ (IsRooted (parent_path path) × (length (parent_path path) < length path))
unfolding parent_path
parent-cases path r =
    let (before, behind, e) = rooted-rsplit r.rest in
    let e' : rsplit path ≡ some (before, behind) = rw r.starts e in
    rw (parent_path, e') (by_front before behind (rsplit-join path before behind e'))
  where
    by_front :
        (before behind : List ℕ)
        → path ≡ before ++ b'/' ∷ behind
        → (or_root before ≡ root_path)
          ⊎ (IsRooted (or_root before) × (length (or_root before) < length path))
    by_front [] behind h = inl refl
    by_front (c ∷ cs) behind h = inr (
      record { rest = cs; starts = ap (λ x. x ∷ cs) first_slash },
      omega (arith, ap length h, length-append cs (b'/' ∷ behind)),
    )
      where
        first_slash : c ≡ b'/'
        first_slash = let s : c ∷ (cs ++ b'/' ∷ behind) ≡ b'/' ∷ r.rest = sym h ∙ r.starts in cc

pub getdir_on-found :
    (fuel : ℕ) (path : List ℕ) (b : Build) {num : ℕ}
    → find path b.dirs ≡ some num
    → getdir_on fuel path b ≡ ok (num, b)
unfolding getdir_on
getdir_on-found zero path b e = rw (getdir_on, e) refl
getdir_on-found (suc fuel) path b e = rw (getdir_on, e) refl

pub getdir_on-missing :
    (fuel : ℕ) (path : List ℕ) (b : Build)
    → find path b.dirs ≡ none
    → getdir_on (suc fuel) path b
      ≡ (getdir_on fuel (parent_path path) b >>= λ r. new_dir path r.0 r.1)
unfolding getdir_on
getdir_on-missing fuel path b e = rw (getdir_on, e) refl

-- The number of slashes in a path.
abbrev pub slashes : List ℕ → ℕ
slashes [] = 0
slashes (c ∷ cs) = if c == b'/' then slashes cs + 1 else slashes cs

-- A result, or another fault than a `RecursionError`.
abbrev pub NoOverflow : {A : Type 0} → Result A → Type 0
NoOverflow r = r ≢ err recursion_error
