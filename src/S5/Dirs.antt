-- ===== src/S5/Dirs.antt =====
-- `S5.readdir` reads back the entries that `Fs.dirent` packed.
use mame_sys.Base.{
  ℕ, zero, suc, ◌+◌, ◌-◌, ◌*◌, ◌/◌, ◌^◌, ◌≤◌, ◌<◌, List, [], ◌∷◌, ◌++◌, length, All,
}
use mame_sys.Base.{◌≡◌, ◌≢◌, refl, sym, ap, arith, le→leb, ==_ne, replicate, take, drop, slice, leb}
use mame_sys.Base.{length-append, length-replicate, take-append_left, drop-append_left}
use mame_sys.Base.{Bool, true, false}
use mame_sys.Base.Codec.{le, length-le, from_le-le, pack, pack-eq-ok, pack_fits}
use mame_sys.Base.Result.{
  Fault, ok, ◌>>=◌, guard, >>=-eq-ok, Succeeds, >>=-Succeeds, name_too_long, value_error,
}
use mame_sys.Mkfs.{dirsiz}
use mame_sys.Mkfs.Inodes.{ljust}
use mame_sys.Mkfs.Inodes.Table.{length-ljust}
use mame_sys.Mkfs.Dirs.{is_latin1, dirent, dir_blob}
use mame_sys.S5.{Entry, inode, contents, readdir, read_entries, until_nul}

-- A name of a directory entry: no NUL, which would end it early.
abbrev pub IsName : List ℕ → Type 0
IsName = All (λ c. c ≢ 0)

-- Entries that the reader shows: inode 0 marks a free entry.
abbrev pub Entries : List (ℕ × List ℕ) → Type 0
Entries = All (λ e. (e.0 ≢ 0) × IsName e.1)

guard-eq-ok : (b : Bool) (e : Fault) {u : Unit {0}} → guard b e ≡ ok u → b ≡ true
guard-eq-ok true e h = refl
guard-eq-ok false e h = cc

pub dirent-eq-ok :
    (num : ℕ) (name : List ℕ) {b : List ℕ}
    → dirent num name ≡ ok b
    → (b ≡ le 2 num ++ ljust name dirsiz) × (num < 2 ^ 16) × (length name ≤ dirsiz)
unfolding dirent
dirent-eq-ok num name h =
    let (_, e₁, h₁) = >>=-eq-ok (guard (is_latin1 name) value_error) _ h in
    let (_, e₂, h₂) = >>=-eq-ok (guard (leb (length name) dirsiz) name_too_long) _ h₁ in
    let (n, e₃, h₃) = >>=-eq-ok (pack 2 num) _ h₂ in
    let (bytes, fits) = pack-eq-ok 2 num e₃ in
    (cc, fits, ground (arith, guard-eq-ok (leb (length name) dirsiz) name_too_long e₂))

until_nul-ljust : (name : List ℕ) (n : ℕ) → IsName name → until_nul (name ++ replicate n 0) ≡ name
unfolding until_nul replicate
until_nul-ljust [] zero h = refl
until_nul-ljust [] (suc n) h = refl
until_nul-ljust (c ∷ cs) n h = rw (==_ne c 0 h.0) (ap (◌∷◌ c) (until_nul-ljust cs n h.1))

length-dirent :
    (num : ℕ) (name : List ℕ) → length name ≤ dirsiz → length (le 2 num ++ ljust name dirsiz) ≡ 16
unfolding ljust
length-dirent num name h = omega (
  arith,
  length-append (le 2 num) (name ++ replicate (dirsiz - length name) 0),
  length-le 2 num,
  length-append name (replicate (dirsiz - length name) 0),
  length-replicate {A = ℕ} (dirsiz - length name) 0,
)

-- One round of the reader on a packed entry with more behind it.
read_entries-dirent :
    (rounds num : ℕ) (name rest : List ℕ) {ents : List (ℕ × List ℕ)}
    → length name ≤ dirsiz
    → num < 2 ^ 16
    → num ≢ 0
    → IsName name
    → read_entries rounds rest ≡ ok ents
    → read_entries (suc rounds) ((le 2 num ++ ljust name dirsiz) ++ rest) ≡ ok ((num, name) ∷ ents)
unfolding read_entries
read_entries-dirent rounds num name rest short fits ne named more =
    let e = le 2 num ++ ljust name dirsiz in
    let len = length-dirent num name short in
    let long : 16 ≤ length (e ++ rest) = omega (arith, len, length-append e rest) in
    let behind : drop 16 (e ++ rest) ≡ rest = drop-append_left 16 e rest (sym len) in
    let number : slice (e ++ rest) 0 2 ≡ le 2 num = unfold slice le take drop in refl in
    let text : slice (e ++ rest) 2 14 ≡ ljust name dirsiz =
      unfold slice le drop in
      take-append_left 14 (ljust name dirsiz) rest (sym (length-ljust name dirsiz short)) in
    let plain : until_nul (ljust name dirsiz) ≡ name =
      unfold ljust in until_nul-ljust name (dirsiz - length name) named in
    rw (
      le→leb 16 (length (e ++ rest)) long,
      ◌>>=◌,
      behind,
      more,
      number,
      from_le-le 2 num fits,
      ==_ne num 0 ne,
      text,
      plain,
    )

length-dir_blob :
    (ents : List (ℕ × List ℕ)) {blob : List ℕ}
    → dir_blob ents ≡ ok blob
    → length blob ≡ length ents * 16
unfolding dir_blob
length-dir_blob [] {blob} h = let e : blob ≡ [] = cc in ap length e
length-dir_blob ((n, name) ∷ ents) {blob} h =
    let (e, e₁, h₁) = >>=-eq-ok (dirent n name) _ h in
    let (rest, e₂, h₂) = >>=-eq-ok (dir_blob ents) _ h₁ in
    let (bytes, fits, short) = dirent-eq-ok n name e₁ in
    let whole : blob ≡ e ++ rest = cc in
    rw whole (
      omega (
        arith,
        length-append e rest,
        ap length bytes,
        length-dirent n name short,
        length-dir_blob ents e₂,
      ))

read_entries-rounds :
    (ents : List (ℕ × List ℕ)) {blob : List ℕ}
    → Entries ents
    → dir_blob ents ≡ ok blob
    → read_entries (length ents) blob ≡ ok ents
unfolding dir_blob
read_entries-rounds [] all h = unfold read_entries in refl
read_entries-rounds ((n, name) ∷ ents) {blob} all h =
    let (e, e₁, h₁) = >>=-eq-ok (dirent n name) _ h in
    let (rest, e₂, h₂) = >>=-eq-ok (dir_blob ents) _ h₁ in
    let (bytes, fits, short) = dirent-eq-ok n name e₁ in
    let whole : blob ≡ (le 2 n ++ ljust name dirsiz) ++ rest = cc in
    rw whole (
      read_entries-dirent (length ents) n name rest short fits all.0.0 all.0.1
        (read_entries-rounds ents all.1 e₂))

pub read_entries-packed :
    (ents : List (ℕ × List ℕ)) {blob : List ℕ}
    → Entries ents
    → dir_blob ents ≡ ok blob
    → read_entries ((length blob + 15) / 16) blob ≡ ok ents
read_entries-packed ents {blob} all h =
    let rounds : (length blob + 15) / 16 ≡ length ents = omega (arith, length-dir_blob ents h) in
    rw rounds (read_entries-rounds ents all h)

-- Entries that the packing takes: a 16-bit inode number, and a name of at most 14 Latin-1 characters.
abbrev pub Packs : List (ℕ × List ℕ) → Type 0
Packs = All (λ e. (e.0 < 2 ^ 16) × ((is_latin1 e.1 ≡ true) × (length e.1 ≤ dirsiz)))

dirent-Succeeds :
    (num : ℕ) (name : List ℕ)
    → num < 2 ^ 16
    → is_latin1 name ≡ true
    → length name ≤ dirsiz
    → Succeeds (dirent num name)
unfolding dirent
dirent-Succeeds num name h₁ h₂ h₃ =
    rw (h₂, le→leb (length name) dirsiz h₃, pack_fits 2 num h₁) (_, refl)

dir_blob-Succeeds : (ents : List (ℕ × List ℕ)) → Packs ents → Succeeds (dir_blob ents)
unfolding dir_blob
dir_blob-Succeeds [] h = (_, refl)
dir_blob-Succeeds ((n, name) ∷ ents) h =
    >>=-Succeeds (dirent n name) _ (dirent-Succeeds n name h.0.0 h.0.1.0 h.0.1.1)
      λ e _. >>=-Succeeds (dir_blob ents) _ (dir_blob-Succeeds ents h.1) λ rest _. (_, refl)

-- Entries with 16-bit inode numbers and with names of at most 14 Latin-1 characters are packed without
-- an error. If moreover no number is 0 and no name holds a NUL, then the reader's loop over the packed
-- directory gives the same entries in the same order, and so does `readdir` in every image in which an
-- inode holds these bytes.
pub readdir-dir_blob :
    (ents : List (ℕ × List ℕ))
    → Packs ents
    → Entries ents
    → (blob : List ℕ) × (dir_blob ents ≡ ok blob)
      × (read_entries ((length blob + 15) / 16) blob ≡ ok ents)
      × ((d : List ℕ) (ino : ℕ) (i : Entry)
          → inode d ino ≡ ok i
          → contents d i ≡ ok blob
          → readdir d ino ≡ ok ents)
unfolding readdir
readdir-dir_blob ents packs all =
    let (blob, h) = dir_blob-Succeeds ents packs in
    let read = read_entries-packed ents all h in
    (blob, h, read, λ d ino i e₁ e₂. rw (e₁, ◌>>=◌, e₂) read)
