-- ===== src/Mkfs/Build/Getdir.antt =====
-- `getdir` of tools/mkfs.py keeps the tree.
use mame_sys.Mkfs.Methods.{by_result, no_result}
use mame_sys.Base.{
  ℕ, zero, suc, ◌<◌, List, [], ◌∷◌, ◌++◌, length, Option, some, none, ◌≡◌, refl, sym, ap, ◌∙◌,
  arith, Option-cases, inl, inr,
}
use mame_sys.Base.Result.{ok, err, index_error, recursion_error, >>=-eq-ok}
use mame_sys.Mkfs.{alloc_inode}
use mame_sys.Mkfs.Build.{
  Build, find, set_key, parent_path, root_path, name_of, new_dir, append_to, dir_mode,
}
use mame_sys.Mkfs.Build.Paths.{IsRooted}
use mame_sys.Mkfs.Build.Dicts.{same_bytes_ne, find-set_key_same, find-set_key_other}
use mame_sys.Mkfs.Build.Sound.{alloc_inode-Allocates}
use mame_sys.Mkfs.Build.Links.{append_to-Appends}
use mame_sys.Mkfs.Build.Tree.{Tree, Extends, Extends-refl, Extends-then}
use mame_sys.Mkfs.Build.{rsplit, getdir_on, getdir, or_root, further_calls}
use mame_sys.Mkfs.Build.Paths.{rsplit-join, getdir_on-found, getdir_on-missing, parent-cases}
use mame_sys.Mkfs.Build.NewDir.{new_dir-Extends}

child-IsRooted :
    (path name : List ℕ) → name_of path ≡ ok name → IsRooted (parent_path path) → IsRooted path
unfolding name_of parent_path
child-IsRooted path name e up = elim (Option-cases (rsplit path)) [
  | inl missing ↦ let h : err index_error ≡ ok name = rw (name_of, missing) at e in absurd cc
  | inr ((before, behind), there) ↦
      by_front before behind (rsplit-join path before behind there)
        (record { rest = up.rest; starts = (rw (parent_path, there) refl) ∙ up.starts })
]
  where
    by_front :
        (before behind : List ℕ)
        → path ≡ before ++ b'/' ∷ behind
        → IsRooted (or_root before)
        → IsRooted path
    by_front [] behind h r = record { rest = behind; starts = h }
    by_front (c ∷ cs) behind h r =
        let first : c ≡ b'/' = let e : c ∷ cs ≡ b'/' ∷ r.rest = r.starts in cc in
        record {
          rest = cs ++ b'/' ∷ behind;
          starts = h ∙ ap (λ x. x ∷ (cs ++ b'/' ∷ behind)) first;
        }

new_dir-named :
    (path : List ℕ) (parent : ℕ) (b : Build) {r : ℕ × Build}
    → new_dir path parent b ≡ ok r
    → (name : List ℕ) × (name_of path ≡ ok name)
unfolding new_dir
new_dir-named path parent b e =
    let (made, e₁, h₁) = >>=-eq-ok (alloc_inode dir_mode 0 0 b.fs) _ e in
    let (name, e₂, h₂) = >>=-eq-ok (name_of path) _ h₁ in (name, e₂)

-- What `new_dir` does to the tree.
record NewDir (path : List ℕ) (b : Build) (num : ℕ) (b' : Build) : Type 0 where
  pub extends : Extends b b'
  pub rooted : IsRooted path
  pub dirs : b'.dirs ≡ set_key path num b.dirs

new_dir-NewDir :
    (path : List ℕ) (parent : ℕ) (b : Build) {num : ℕ} {b' : Build}
    → Tree b
    → find path b.dirs ≡ none
    → find (parent_path path) b.dirs ≡ some parent
    → new_dir path parent b ≡ ok (num, b')
    → NewDir path b num b'
unfolding new_dir
new_dir-NewDir path parent b {num} {b'} t new old e =
    let ((d, fs₁), e₁, h₁) = >>=-eq-ok (alloc_inode dir_mode 0 0 b.fs) _ e in
    let (name, e₂, h₂) = >>=-eq-ok (name_of path) _ h₁ in
    let (entries, e₃, h₃) = >>=-eq-ok (append_to _ _ _) _ h₂ in
    let alloc = alloc_inode-Allocates dir_mode b.fs t.sound e₁ in
    let rooted = child-IsRooted path name e₂ (t.rooted (parent_path path) parent old) in
    by_result (NewDir path b) _ (num, b') h₃
      (record {
        extends =
            new_dir-Extends path name parent b t d fs₁ entries new old alloc rooted
              (append_to-Appends _ _ _ e₃);
        rooted = rooted;
        dirs = refl;
      })

-- What `getdir` does to the tree: the path is a directory then, and longer paths are not touched.
pub record Got (path : List ℕ) (b : Build) (num : ℕ) (b' : Build) : Type 0 where
  pub extends : Extends b b'
  pub rooted : IsRooted path
  pub there : find path b'.dirs ≡ some num
  pub longer : (q : List ℕ) → length path < length q → find q b'.dirs ≡ find q b.dirs

Got-here :
    (path : List ℕ) (b : Build) {num : ℕ} → Tree b → find path b.dirs ≡ some num → Got path b num b
Got-here path b {num} t e = record {
  extends = Extends-refl t;
  rooted = t.rooted path num e;
  there = e;
  longer = λ q lt. refl;
}

-- The parent first, then the directory itself.
Got-below :
    (path : List ℕ) (parent : ℕ) (b b₁ : Build) {num : ℕ} {b' : Build}
    → find path b₁.dirs ≡ none
    → Got (parent_path path) b parent b₁
    → ((q : List ℕ) → length path < length q → find q b₁.dirs ≡ find q b.dirs)
    → new_dir path parent b₁ ≡ ok (num, b')
    → Got path b num b'
Got-below path parent b b₁ {num} {b'} new up longer e =
    let made = new_dir-NewDir path parent b₁ up.extends.tree new up.there e in
    record {
      extends = Extends-then up.extends made.extends;
      rooted = made.rooted;
      there = ap (find path) made.dirs ∙ find-set_key_same path num b₁.dirs;
      longer = λ q lt.
          ap (find q) made.dirs
          ∙ find-set_key_other q path num b₁.dirs
              (same_bytes_ne q path (λ same. absurd (omega (arith, ap length same))))
          ∙ longer q lt;
    }

getdir_on-Got :
    (fuel : ℕ) (path : List ℕ) (b : Build) {num : ℕ} {b' : Build}
    → Tree b
    → getdir_on fuel path b ≡ ok (num, b')
    → Got path b num b'
unfolding getdir_on
getdir_on-Got zero path b {num} {b'} t e = elim (Option-cases (find path b.dirs)) [
  | inl missing ↦ no_result recursion_error (num, b') (rw (getdir_on, missing) at e)
  | inr (m, there) ↦
      by_result (Got path b) (m, b) (num, b') (sym (getdir_on-found 0 path b there) ∙ e)
        (Got-here path b t there)
]
getdir_on-Got (suc fuel) path b {num} {b'} t e = elim (Option-cases (find path b.dirs)) [
  | inl missing ↦
      let ((parent, b₁), up, h) =
        >>=-eq-ok (getdir_on fuel (parent_path path) b) _
          (sym (getdir_on-missing fuel path b missing) ∙ e) in
      below parent b₁ missing (getdir_on-Got fuel (parent_path path) b t up) up h
  | inr (m, there) ↦
      by_result (Got path b) (m, b) (num, b') (sym (getdir_on-found (suc fuel) path b there) ∙ e)
        (Got-here path b t there)
]
  where
    below :
        (parent : ℕ) (b₁ : Build)
        → find path b.dirs ≡ none
        → Got (parent_path path) b parent b₁
        → getdir_on fuel (parent_path path) b ≡ ok (parent, b₁)
        → new_dir path parent b₁ ≡ ok (num, b')
        → Got path b num b'
    below parent b₁ missing up got h =
        elim (parent-cases path
          (child-IsRooted path _ (new_dir-named path parent b₁ h).1 up.rooted)) [
            | inl top ↦
                let same : b ≡ b₁ =
                  by_result (λ n x. b ≡ x) (t.root.0, b) (parent, b₁)
                    (sym (
                        ap (λ p. getdir_on fuel p b) top
                        ∙ getdir_on-found fuel root_path b t.root.1)
                      ∙ got)
                    refl in
                Got-below path parent b b₁ (ap (λ x. find path x.dirs) (sym same) ∙ missing) up
                  (λ q lt. ap {A = Build} {B = Option ℕ} (λ x. find q x.dirs) (sym same)) h
            | inr (_, less) ↦
                Got-below path parent b b₁ (up.longer path less ∙ missing) up
                  (λ q lt. up.longer q (omega arith)) h
          ]

-- `getdir` on a tree gives a directory's number, and leaves a tree: the directory is found under its
-- path, all directories keep their numbers, and blocks given out keep what they hold.
pub getdir-Got :
    (path : List ℕ) (b : Build) {num : ℕ} {b' : Build}
    → Tree b
    → getdir path b ≡ ok (num, b')
    → Got path b num b'
unfolding getdir
getdir-Got path b t e = getdir_on-Got further_calls path b t e
