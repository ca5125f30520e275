-- ===== src/Mkfs/Build/NewDir.antt =====
-- One directory more in the tree of `build` in tools/mkfs.py.
use mame_sys.Mkfs.Build.Grows.{Grows, Grows-then, Sound, unused}
use mame_sys.Base.{
  ℕ, List, [], ◌∷◌, ◌++◌, some, none, ◌≡◌, ◌≢◌, refl, sym, ap, ◌∙◌, arith, Bool-cases, inl, inr,
  ◌==◌, ==_iff, ==_apart,
}
use mame_sys.Mkfs.{Fs, Inode, update}
use mame_sys.Mkfs.Build.{
  Build, Dict, Entries, find, set_key, parent_path, root_path, modify, set_nlink, add_link, dot,
  dotdot, dir_mode,
}
use mame_sys.Mkfs.Build.Paths.{IsRooted}
use mame_sys.Mkfs.Build.Dicts.{
  Unique-set_key, keys, find-set_key-cases, find-set_key_kept, find-keys, keys-set_key,
  keys-set_key_new,
}
use mame_sys.Mkfs.Build.Sound.{Allocates}
use mame_sys.Mkfs.Build.Stores.{modify-Sound}
use mame_sys.Mkfs.Build.Kept.{FilesKept, FilesKept-then, alloc-FilesKept, modify-FilesKept}
use mame_sys.Mkfs.Build.Links.{named_in, links, Appends, Appends-kept, links-set_key}
use mame_sys.Mkfs.Build.Tree.{
  Tree, IsDir, Extends, nlink_of, nlink_of, new_dir-new, new_dir-parent, new_dir-others,
  new_dir-links,
}

module _ (path name : List ℕ) (parent : ℕ) (b : Build) (t : Tree b) (d : Inode) (fs₁ : Fs)
    (entries : Dict Entries) (new : find path b.dirs ≡ none)
    (old : find (parent_path path) b.dirs ≡ some parent) (alloc : Allocates dir_mode b.fs d fs₁)
    (rooted : IsRooted path)
    (appended : Appends
      (parent_path path)
      ((d.num, name) ∷ [])
      (set_key path ((d.num, dot) ∷ (parent, dotdot) ∷ []) b.entries)
      entries) where
  abbrev fs₂ : Fs
  fs₂ = modify parent add_link (modify d.num (set_nlink 2) fs₁)

  abbrev b₂ : Build
  b₂ = record { fs = fs₂; dirs = set_key path d.num b.dirs; entries = entries }

  number : d.num ≡ b.fs.next_ino
  number = ap {A = Inode} {B = ℕ} (λ i. i.num) alloc.made

  free : b.fs.inodes d.num ≡ none
  free = unused d.num t.sound (omega (arith, number))

  table : fs₁.inodes ≡ update b.fs.inodes d.num d
  table = alloc.inodes ∙ rw number refl

  fs₂-Sound : Sound fs₂ × Grows b.fs fs₂
  fs₂-Sound =
      let (s₁, g₁) = modify-Sound d.num (set_nlink 2) fs₁ (λ i. refl) (λ i. refl) alloc.sound in
      let (s₂, g₂) =
        modify-Sound parent add_link (modify d.num (set_nlink 2) fs₁) (λ i. refl) (λ i. refl) s₁ in
      (s₂, Grows-then alloc.grows (Grows-then g₁ g₂))

  fs₂-FilesKept : FilesKept b.fs fs₂
  fs₂-FilesKept =
      let (s₁, g₁) = modify-Sound d.num (set_nlink 2) fs₁ (λ i. refl) (λ i. refl) alloc.sound in
      let (s₂, g₂) =
        modify-Sound parent add_link (modify d.num (set_nlink 2) fs₁) (λ i. refl) (λ i. refl) s₁ in
      FilesKept-then (alloc-FilesKept dir_mode b.fs t.sound alloc) (
        FilesKept-then (modify-FilesKept d.num (set_nlink 2) fs₁ (λ i. refl) (λ i. refl) g₁) (
          modify-FilesKept parent add_link (modify d.num (set_nlink 2) fs₁) (λ i. refl) (λ i. refl)
            g₂))

  entries_new : find path b.entries ≡ none
  entries_new = find-keys path b.dirs b.entries t.same_keys new

  counted : (n : ℕ) → links n entries ≡ nlink_of (fs₂.inodes n)
  counted n =
      let up = t.held (parent_path path) parent old in
      let set = links-set_key n path ((d.num, dot) ∷ (parent, dotdot) ∷ []) b.entries in
      omega (
        arith,
        appended.counted n,
        set,
        ap (named_in n) entries_new,
        t.linked n,
        new_dir-links b.fs fs₁ d.num parent d up.ino table free up.there n,
      )

  older : (q : List ℕ) (m : ℕ) → find q b.dirs ≡ some m → m ≢ d.num
  older q m e same =
      let was = t.held q m e in
      absurd (omega (arith, number, (t.sound.proper m was.ino was.there).given))

  is_dir : (q : List ℕ) (m : ℕ) → find q (set_key path d.num b.dirs) ≡ some m → IsDir fs₂ m
  is_dir q m e =
      let up = t.held (parent_path path) parent old in
      elim (find-set_key-cases q path d.num m b.dirs e) [
        | inl (here, same) ↦ rw same (record {
          ino = set_nlink 2 d;
          there = new_dir-new b.fs fs₁ d.num parent d up.ino table free up.there;
          empty = ap {A = Inode} {B = List ℕ} (λ i. i.addr) alloc.made;
        })
        | inr before ↦ elim (Bool-cases (m == parent)) [
          | inl e ↦ rw ((==_iff m parent).0 e) (record {
            ino = add_link up.ino;
            there = new_dir-parent b.fs fs₁ d.num parent d up.ino table free up.there;
            empty = up.empty;
          })
          | inr e ↦
              let was = t.held q m before in
              record {
                ino = was.ino;
                there =
                    new_dir-others b.fs fs₁ d.num parent d up.ino table free up.there m
                      (older q m before) (==_apart m parent e)
                    ∙ was.there;
                empty = was.empty;
              }
        ]
      ]

  injective :
      (p q : List ℕ) (m : ℕ)
      → find p (set_key path d.num b.dirs) ≡ some m
      → find q (set_key path d.num b.dirs) ≡ some m
      → p ≡ q
  injective p q m e₁ e₂ = elim (find-set_key-cases p path d.num m b.dirs e₁) [
    | inl (p_here, m_new) ↦ elim (find-set_key-cases q path d.num m b.dirs e₂) [
      | inl (q_here, _) ↦ p_here ∙ sym q_here
      | inr q_old ↦ absurd (older q m q_old m_new)
    ]
    | inr p_old ↦ elim (find-set_key-cases q path d.num m b.dirs e₂) [
      | inl (q_here, m_new) ↦ absurd (older p m p_old m_new)
      | inr q_old ↦ t.apart p q m p_old q_old
    ]
  ]

  dirs-IsRooted : (q : List ℕ) (m : ℕ) → find q (set_key path d.num b.dirs) ≡ some m → IsRooted q
  dirs-IsRooted q m e = elim (find-set_key-cases q path d.num m b.dirs e) [
    | inl (here, _) ↦ rw here rooted
    | inr old ↦ t.rooted q m old
  ]

  kept_dir :
      (q : List ℕ) (m : ℕ) → find q b.dirs ≡ some m → find q (set_key path d.num b.dirs) ≡ some m
  kept_dir q m e = find-set_key_kept q path d.num m b.dirs new e

  -- The dicts get the same new key.
  keys_same : keys (set_key path d.num b.dirs) ≡ keys entries
  keys_same =
      let ents = (d.num, dot) ∷ (parent, dotdot) ∷ [] in
      keys-set_key_new path d.num ents b.dirs b.entries t.same_keys new
      ∙ sym (
          ap keys appended.result
          ∙ keys-set_key (parent_path path) (appended.held ++ (d.num, name) ∷ [])
              (set_key path ents b.entries) appended.there)

  pub new_dir-Extends : Extends b b₂
  new_dir-Extends = record {
    tree = record {
      sound = fs₂-Sound.0;
      same_keys = keys_same;
      linked = counted;
      held = is_dir;
      apart = injective;
      rooted = dirs-IsRooted;
      unique = Unique-set_key b.dirs path d.num new t.unique;
      root = (t.root.0, kept_dir root_path t.root.0 t.root.1);
    };
    grows = fs₂-Sound.1;
    files = fs₂-FilesKept;
    kept = kept_dir;
    listed = λ q ents h.
        Appends-kept (parent_path path) ((d.num, name) ∷ [])
          (set_key path ((d.num, dot) ∷ (parent, dotdot) ∷ []) b.entries) entries appended q ents
          (find-set_key_kept q path ((d.num, dot) ∷ (parent, dotdot) ∷ []) ents b.entries
            entries_new h);
    new_dirs = λ q m e. elim (find-set_key-cases q path d.num m b.dirs e) [
      | inl (_, same) ↦ inr (omega (arith, number))
      | inr before ↦ inl before
    ];
  }
