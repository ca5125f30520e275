-- ===== src/Mkfs/Build/WrittenOne.antt =====
-- One directory that `build` of tools/mkfs.py writes as a file.
use mathlib.Core.Path.{subst}
use mame_sys.Mkfs.Methods.{no_result}
use mame_sys.Mkfs.Build.Grows.{Grows, Grows-then, HasFile-Grows, Sound}
use mame_sys.Mkfs.Build.Spec.Links.{ok-eq}
use mame_sys.Base.{
  ℕ, List, ◌∷◌, some, none, ◌≡◌, ◌≢◌, refl, sym, ap, ◌∙◌, Bool-cases, Option-cases, inl, inr, ◌==◌,
  ==_refl, ==_ne, ==_iff, ==_apart, same_bytes, true, false,
}
use mame_sys.Base.Result.{ok, key_error}
use mame_sys.Mkfs.{Fs, Inode, update}
use mame_sys.Mkfs.Dirs.{dir_blob}
use mame_sys.Mkfs.Files.{HasFile}
use mame_sys.Mkfs.Build.{Dict, Entries, find, object}
use mame_sys.Mkfs.Build.Dicts.{same_bytes_refl, same_bytes_eq, some-eq}
use mame_sys.Mkfs.Build.Stores.{Stores}
use mame_sys.Mkfs.Build.Tree.{IsDir, nlink_of}

-- The directory's file in the object.
pub record DirStands (fs : Fs) (num : ℕ) (ents : Entries) : Type 0 where
  pub blob : List ℕ
  pub packed : dir_blob ents ≡ ok blob
  pub lo : ℕ
  pub ino : Inode
  pub has : HasFile fs num lo ino blob

-- No directory that is still to be written has this number.
abbrev pub Avoids : ℕ → Dict Entries → Dict ℕ → Type 0
Avoids n entries dirs =
    (q : List ℕ) (ents : Entries) → find q entries ≡ some ents → find q dirs ≢ some n

pub record Writes (entries : Dict Entries) (dirs : Dict ℕ) (fs fs' : Fs) : Type 0 where
  pub sound : Sound fs'
  pub grows : Grows fs fs'
  pub next_ino : fs'.next_ino ≡ fs.next_ino
  pub links : (n : ℕ) → nlink_of (fs'.inodes n) ≡ nlink_of (fs.inodes n)
  pub same : (n : ℕ) → Avoids n entries dirs → fs'.inodes n ≡ fs.inodes n
  pub stands :
      (path : List ℕ) (ents : Entries) (num : ℕ)
      → find path entries ≡ some ents
      → find path dirs ≡ some num
      → DirStands fs' num ents

pub object-eq-ok :
    (num : ℕ) (fs : Fs) {ino : Inode} → object num fs ≡ ok ino → fs.inodes num ≡ some ino
unfolding object
object-eq-ok num fs {ino} e = elim (Option-cases (fs.inodes num)) [
  | inl free ↦ no_result key_error ino (rw (object, free) at e)
  | inr (i, there) ↦ there ∙ ap some (ok-eq (rw (object, there) at e))
]

-- What is found behind the first key has another key.
find-behind :
    (path q : List ℕ) (held ents : Entries) (rest : Dict Entries)
    → same_bytes q path ≡ false
    → find q ((path, held) ∷ rest) ≡ some ents
    → find q rest ≡ some ents
unfolding find
find-behind path q held ents rest other e = rw other at e

find-first :
    (path q : List ℕ) (held ents : Entries) (rest : Dict Entries)
    → same_bytes q path ≡ true
    → find q ((path, held) ∷ rest) ≡ some ents
    → held ≡ ents
unfolding find
find-first path q held ents rest same e = some-eq (rw same at e)

pub find-front :
    (path q : List ℕ) (held ents : Entries) (rest : Dict Entries)
    → find path rest ≡ none
    → find q rest ≡ some ents
    → find q ((path, held) ∷ rest) ≡ some ents
unfolding find
find-front path q held ents rest once e = elim (Bool-cases (same_bytes q path)) [
  | inl same ↦
      let h : none ≡ some ents =
        sym once ∙ ap (λ p. find p rest) (sym (same_bytes_eq q path same)) ∙ e in
      absurd cc
  | inr other ↦ rw other e
]

pub find-own :
    (path : List ℕ) (held : Entries) (rest : Dict Entries)
    → find path ((path, held) ∷ rest) ≡ some held
unfolding find
find-own path held rest = rw (same_bytes_refl path) refl

module _ (path : List ℕ) (ents : Entries) (rest : Dict Entries) (dirs : Dict ℕ) (num : ℕ)
    (blob : List ℕ) (ino ino₁ : Inode) (fs fs₁ fs' : Fs) (s : Sound fs)
    (packed : dir_blob ents ≡ ok blob) (found : find path dirs ≡ some num) (number : ino.num ≡ num)
    (there : fs.inodes num ≡ some ino) (dir : IsDir fs num) (st : Stores ino blob fs ino₁ fs₁)
    (apart : (p q : List ℕ) (m : ℕ) → find p dirs ≡ some m → find q dirs ≡ some m → p ≡ q)
    (once : find path rest ≡ none) where
  -- The rest has other numbers.
  rest-Avoids : Avoids num rest dirs
  rest-Avoids q held e d =
      let same : q ≡ path = apart q path num d found in
      let h : none ≡ some held = sym once ∙ ap (λ p. find p rest) (sym same) ∙ e in absurd cc

  inodes_at : (n : ℕ) → fs₁.inodes n ≡ update fs.inodes num ino₁ n
  inodes_at n = st.inodes n ∙ ap (λ m. update fs.inodes m ino₁ n) number

  elsewhere : (n : ℕ) → n ≢ num → fs₁.inodes n ≡ fs.inodes n
  elsewhere n ne = inodes_at n ∙ rw (==_ne n num ne) refl

  here : fs₁.inodes num ≡ some ino₁
  here = inodes_at num ∙ rw (==_refl num) refl

  empty : ino.addr ≡ dir.ino.addr
  empty = ap {A = Inode} {B = List ℕ} (λ i. i.addr) (some-eq (sym there ∙ dir.there))

  links₁ : (n : ℕ) → nlink_of (fs₁.inodes n) ≡ nlink_of (fs.inodes n)
  links₁ n = elim (Bool-cases (n == num)) [
    | inl e ↦ rw ((==_iff n num).0 e, here, there) (ap {A = Inode} {B = ℕ} (λ i. i.nlink) st.made)
    | inr e ↦ ap nlink_of (elsewhere n (==_apart n num e))
  ]

  pub dirs₁ :
      (q : List ℕ) (held : Entries) (m : ℕ)
      → find q rest ≡ some held
      → find q dirs ≡ some m
      → IsDir fs m
      → IsDir fs₁ m
  dirs₁ q held m e d was =
      let ne : m ≢ num = λ same. rest-Avoids q held e (d ∙ ap some same) in
      record { ino = was.ino; there = elsewhere m ne ∙ was.there; empty = was.empty }

  written_first : HasFile fs₁ num fs.next_block ino₁ blob
  written_first =
      subst (λ n. HasFile fs₁ n fs.next_block ino₁ blob) number (st.there (empty ∙ dir.empty))

  stands_first : Writes rest dirs fs₁ fs' → DirStands fs' num ents
  stands_first w = record {
    blob = blob;
    packed = packed;
    lo = fs.next_block;
    ino = ino₁;
    has = HasFile-Grows num fs.next_block ino₁ blob w.grows written_first (w.same num rest-Avoids);
  }

  pub cons-Writes : Writes rest dirs fs₁ fs' → Writes ((path, ents) ∷ rest) dirs fs fs'
  cons-Writes w = record {
    sound = w.sound;
    grows = Grows-then st.grows w.grows;
    next_ino = w.next_ino ∙ st.next_ino;
    links = λ n. w.links n ∙ links₁ n;
    same = λ n avoids.
        let ne : n ≢ num =
          λ e. avoids path ents (find-own path ents rest) (found ∙ ap some (sym e)) in
        w.same n (λ q held h. avoids q held (find-front path q ents held rest once h))
        ∙ elsewhere n ne;
    stands = λ q held m e d. elim (Bool-cases (same_bytes q path)) [
      | inl first ↦
          let number : num ≡ m =
            some-eq (sym found ∙ ap (λ p. find p dirs) (sym (same_bytes_eq q path first)) ∙ d) in
          rw (← number, ← find-first path q ents held rest first e) (stands_first w)
      | inr other ↦ w.stands q held m (find-behind path q ents held rest other e) d
    ];
  }
