-- ===== src/Mkfs/Build/Written.antt =====
-- The directories that `build` of tools/mkfs.py writes as files.
use mathlib.Core.Path.{subst}
use mame_sys.Mkfs.Build.Grows.{Grows-refl, Proper, Sound}
use mame_sys.Mkfs.Build.Spec.Links.{ok-eq}
use mame_sys.Base.{ℕ, List, [], ◌∷◌, some, ◌≡◌, refl, sym}
use mame_sys.Base.Result.{ok, >>=-eq-ok}
use mame_sys.Mkfs.{Fs}
use mame_sys.Mkfs.Store.{store_data}
use mame_sys.Mkfs.Dirs.{dir_blob}
use mame_sys.Mkfs.Build.{Dict, Entries, find, get, object, write_dirs}
use mame_sys.Mkfs.Build.Dicts.{keys, get-eq-ok, Unique, Unique-find}
use mame_sys.Mkfs.Build.Stores.{store_data-Stores}
use mame_sys.Mkfs.Build.Tree.{IsDir}
use mame_sys.Mkfs.Build.WrittenOne.{Writes, object-eq-ok, find-front, find-own, cons-Writes, dirs₁}

nothing : (dirs : Dict ℕ) (fs : Fs) → Sound fs → Writes [] dirs fs fs
unfolding find
nothing dirs fs s = record {
  sound = s;
  grows = Grows-refl fs;
  next_ino = refl;
  links = λ n. refl;
  same = λ n avoids. refl;
  stands = λ path ents num e. absurd (cc);
}

-- When the directories that are to be written are in the table, empty, and have numbers of their own, each
-- of them holds its entries afterwards, and no other inode is touched.
pub write_dirs-Writes :
    (entries : Dict Entries) (dirs : Dict ℕ) (fs : Fs) {fs' : Fs}
    → Sound fs
    → Unique (keys entries)
    → ((p q : List ℕ) (m : ℕ) → find p dirs ≡ some m → find q dirs ≡ some m → p ≡ q)
    → ((path : List ℕ) (ents : Entries) (num : ℕ)
        → find path entries ≡ some ents
        → find path dirs ≡ some num
        → IsDir fs num)
    → write_dirs entries dirs fs ≡ ok fs'
    → Writes entries dirs fs fs'
unfolding write_dirs
write_dirs-Writes [] dirs fs {fs'} s unique apart held e =
    subst (Writes [] dirs fs) (ok-eq e) (nothing dirs fs s)
write_dirs-Writes ((path, ents) ∷ rest) dirs fs {fs'} s unique apart held e =
    let (blob, packed, h₁) = >>=-eq-ok (dir_blob ents) _ e in
    let (num, got, h₂) = >>=-eq-ok (get path dirs) _ h₁ in
    let (ino, at, h₃) = >>=-eq-ok (object num fs) _ h₂ in
    let ((ino₁, fs₁), stored, h₄) = >>=-eq-ok (store_data ino blob fs) _ h₃ in
    let found = get-eq-ok path dirs got in
    let there = object-eq-ok num fs at in
    let proper = s.proper num ino there in
    let dir = held path ents num (find-own path ents rest) found in
    let st =
      store_data-Stores ino blob fs s (subst (λ n. Proper fs n ino) (sym proper.num) proper)
        stored in
    let once = Unique-find path rest unique.0 in
    cons-Writes path ents rest dirs num blob ino ino₁ fs fs₁ fs' s packed found proper.num there dir
      st apart once
      (write_dirs-Writes rest dirs fs₁ st.sound unique.1 apart
        (λ q more m f d.
          dirs₁ path ents rest dirs num blob ino ino₁ fs fs₁ fs' s packed found proper.num there dir
            st apart once q more m f d (held q more m (find-front path q ents more rest once f) d))
        h₄)
