-- ===== src/Mkfs/Superblock/Fields.antt =====
-- The fields of the superblock read back at their offsets in filsys.h.
use mame_sys.Base.{ℕ, ◌+◌, ◌-◌, ◌*◌, ◌≤◌, List, [], ◌∷◌, length, slice}
use mame_sys.Base.{◌≡◌, refl, sym, ap, ◌∙◌, arith, splice, replicate, min, leb}
use mame_sys.Base.{length-replicate, length-take}
use mame_sys.Base.Result.{ok, guard, >>=-eq-ok, struct_error}
use mame_sys.Mkfs.{Fs, nicfree, nicinod, fs_magic, fs_type}
use mame_sys.Mkfs.Inodes.{ljust}
use mame_sys.Mkfs.Layout.{range, length-range}
use mame_sys.Mkfs.FreeList.Walk.{peek_words}
use mame_sys.Mkfs.Superblock.{pack_into, pack_into_signed, superblock, pack_sizes}
use mame_sys.Mkfs.Superblock.{free_inodes, pack_free_inodes, pack_totals, pack_names}
use mame_sys.Mkfs.Superblock.{fname, fpack}
use mame_sys.Mkfs.Superblock.Rows.{
  row_at, row_at-Patched, row_at-pack_row, take-range, slice-splice_text,
}
use mame_sys.Mkfs.Superblock.Patches.{
  Patched, splice-Patched, Field, pack_into-eq-ok, pack_into_signed-eq-ok, pack_row-Patched,
  peek_words-Patched, peek_words-pack_row, le_by, Patched-weaken, Patched-cons, Field-Patched,
}

pack_sizes-eq-ok :
    (fs : Fs) (sb : List ℕ) {sb' : List ℕ}
    → length sb ≡ 512
    → length fs.free ≡ nicfree
    → pack_sizes fs sb ≡ ok sb'
    → Patched sb sb' 0 212
      × Field 2 0 (fs.iblocks + 2) sb'
      × Field 4 4 fs.nblocks sb'
      × Field 2 8 fs.nfree sb'
      × (peek_words nicfree sb' 12 ≡ fs.free)
unfolding pack_sizes
pack_sizes-eq-ok fs sb {sb'} l fifty h =
    let (s₁, e₁, h₁) = >>=-eq-ok (pack_into 2 0 (fs.iblocks + 2) sb) _ h in
    let (s₂, e₂, h₂) = >>=-eq-ok (pack_into 4 4 fs.nblocks s₁) _ h₁ in
    let (s₃, e₃, e₄) = >>=-eq-ok (pack_into_signed 2 8 fs.nfree s₂) _ h₂ in
    let (p₁, f₁) = pack_into-eq-ok 2 0 (fs.iblocks + 2) sb (omega arith) e₁ in
    let (p₂, f₂) = pack_into-eq-ok 4 4 fs.nblocks s₁ (omega (arith, p₁.sized)) e₂ in
    let (p₃, f₃) = pack_into_signed-eq-ok fs.nfree 8 s₂ (omega (arith, p₁.sized, p₂.sized)) e₃ in
    let room : 12 + length fs.free * 4 ≤ length s₃ = omega (arith, p₁.sized, p₂.sized, p₃.sized) in
    let row : Patched s₃ sb' 12 (12 + length fs.free * 4) =
      pack_row-Patched 4 12 fs.free s₃ room e₄ in
    let end : 12 + length fs.free * 4 ≡ 212 = omega arith in
    let p₄ : Patched s₃ sb' 12 212 = rw end at row in
    let q₃ = Patched-cons (le_by 8 12 refl) (le_by 10 12 refl) (le_by 10 212 refl) p₃ p₄ in
    let q₂ = Patched-cons (le_by 4 8 refl) (le_by 8 8 refl) (le_by 8 212 refl) p₂ q₃ in
    let q₁ = Patched-cons (le_by 0 4 refl) (le_by 2 4 refl) (le_by 2 212 refl) p₁ q₂ in
    (
      q₁,
      Field-Patched 2 0 (fs.iblocks + 2) q₂ (le_by 2 4 refl) f₁,
      Field-Patched 4 4 fs.nblocks q₃ (le_by 8 8 refl) f₂,
      Field-Patched 2 8 fs.nfree p₄ (le_by 10 12 refl) f₃,
      ap (λ n. peek_words n sb' 12) (sym fifty) ∙ peek_words-pack_row 12 fs.free s₃ room e₄,
    )

pack_free_inodes-eq-ok :
    (free_ino sb : List ℕ) {sb' : List ℕ}
    → length sb ≡ 512
    → length free_ino ≤ nicinod
    → pack_free_inodes free_ino sb ≡ ok sb'
    → Patched sb sb' 212 420
      × Field 2 212 (length free_ino) sb'
      × (row_at 2 (length free_ino) sb' 214 ≡ free_ino)
unfolding pack_free_inodes
pack_free_inodes-eq-ok free_ino sb {sb'} l few h =
    let (s₁, e₁, e₂) = >>=-eq-ok (pack_into_signed 2 212 (length free_ino) sb) _ h in
    let (p₁, f₁) = pack_into_signed-eq-ok (length free_ino) 212 sb (omega arith) e₁ in
    let p₂ = pack_row-Patched 2 214 free_ino s₁ (omega (arith, p₁.sized)) e₂ in
    let p₂' : Patched s₁ sb' 214 420 = Patched-weaken (omega arith) p₂ in
    (
      Patched-cons (le_by 212 214 refl) (le_by 214 214 refl) (le_by 214 420 refl) p₁ p₂',
      Field-Patched 2 212 (length free_ino) p₂ (le_by 214 214 refl) f₁,
      row_at-pack_row 2 214 free_ino s₁ (omega (arith, p₁.sized)) e₂,
    )

pack_totals-eq-ok :
    (fs : Fs) (sb : List ℕ) {sb' : List ℕ}
    → length sb ≡ 512
    → pack_totals fs sb ≡ ok sb'
    → Patched sb sb' 420 438
      × Field 4 420 fs.now sb'
      × Field 4 432 fs.tfree sb'
      × Field 2 436 (fs.ninodes + 1 - fs.next_ino) sb'
unfolding pack_totals
pack_totals-eq-ok fs sb {sb'} l h =
    let (s₁, e₁, h₁) = >>=-eq-ok (pack_into 4 420 fs.now sb) _ h in
    let (s₂, e₂, h₂) = >>=-eq-ok (pack_into 4 432 fs.tfree s₁) _ h₁ in
    let (_, _, e₃) = >>=-eq-ok (guard (leb fs.next_ino (fs.ninodes + 1)) struct_error) _ h₂ in
    let (p₁, f₁) = pack_into-eq-ok 4 420 fs.now sb (omega arith) e₁ in
    let (p₂, f₂) = pack_into-eq-ok 4 432 fs.tfree s₁ (omega (arith, p₁.sized)) e₂ in
    let (p₃, f₃) =
      pack_into-eq-ok 2 436 (fs.ninodes + 1 - fs.next_ino) s₂ (omega (arith, p₁.sized, p₂.sized))
        e₃ in
    let q₂ = Patched-cons (le_by 432 436 refl) (le_by 436 436 refl) (le_by 436 438 refl) p₂ p₃ in
    (
      Patched-cons (le_by 420 432 refl) (le_by 424 432 refl) (le_by 424 438 refl) p₁ q₂,
      Field-Patched 4 420 fs.now q₂ (le_by 424 432 refl) f₁,
      Field-Patched 4 432 fs.tfree p₃ (le_by 436 436 refl) f₂,
      f₃,
    )

-- b'root\0\0'
abbrev pub root_text : List ℕ
root_text = b'r' ∷ b'o' ∷ b'o' ∷ b't' ∷ 0 ∷ 0 ∷ []

-- b'genix\0'
abbrev pub genix_text : List ℕ
genix_text = b'g' ∷ b'e' ∷ b'n' ∷ b'i' ∷ b'x' ∷ 0 ∷ []

named :
    (sb : List ℕ) (off : ℕ) (name text : List ℕ)
    → ljust name 6 ≡ text
    → off + length text ≤ length sb
    → slice (splice sb off (ljust name 6)) off (length text) ≡ text
named sb off name text e h = rw e (slice-splice_text sb off text h)

pack_names-eq-ok :
    (sb : List ℕ) {sb' : List ℕ}
    → length sb ≡ 512
    → pack_names sb ≡ ok sb'
    → Patched sb sb' 438 512
      × (slice sb' 438 6 ≡ root_text)
      × (slice sb' 444 6 ≡ genix_text)
      × Field 4 504 fs_magic sb'
      × Field 4 508 fs_type sb'
unfolding pack_names ljust replicate
pack_names-eq-ok sb {sb'} l h =
    let s₁ = splice sb 438 (ljust fname 6) in
    let s₂ = splice s₁ 444 (ljust fpack 6) in
    let (s₃, e₃, e₄) = >>=-eq-ok (pack_into 4 504 fs_magic s₂) _ h in
    let p₁ =
      splice-Patched sb 438 (ljust fname 6) 444 (unfold ljust replicate in omega arith)
        (omega arith) in
    let p₂ =
      splice-Patched s₁ 444 (ljust fpack 6) 504 (unfold ljust replicate in omega arith)
        (omega (arith, p₁.sized)) in
    let (p₃, f₃) = pack_into-eq-ok 4 504 fs_magic s₂ (omega (arith, p₁.sized, p₂.sized)) e₃ in
    let (p₄, f₄) =
      pack_into-eq-ok 4 508 fs_type s₃ (omega (arith, p₁.sized, p₂.sized, p₃.sized)) e₄ in
    let q₃ = Patched-cons (le_by 504 508 refl) (le_by 508 508 refl) (le_by 508 512 refl) p₃ p₄ in
    let q₂ = Patched-cons (le_by 444 504 refl) (le_by 504 504 refl) (le_by 504 512 refl) p₂ q₃ in
    (
      Patched-cons (le_by 438 444 refl) (le_by 444 444 refl) (le_by 444 512 refl) p₁ q₂,
      q₂.below 438 6 (le_by 444 444 refl) ∙ named sb 438 fname root_text refl (omega arith),
      q₃.below 444 6 (le_by 450 504 refl)
          ∙ named s₁ 444 fpack genix_text refl (omega (arith, p₁.sized)),
      Field-Patched 4 504 fs_magic p₄ (le_by 508 508 refl) f₃,
      f₄,
    )

-- Every field that is written, at its offset in filsys.h: of `s_inode`, the entries that `s_ninode`
-- counts.
pub record IsSuperblock (fs : Fs) (sb : List ℕ) : Type 0 where
  pub sized : length sb ≡ 512
  pub s_isize : Field 2 0 (fs.iblocks + 2) sb
  pub s_fsize : Field 4 4 fs.nblocks sb
  pub s_nfree : Field 2 8 fs.nfree sb
  pub s_free : peek_words nicfree sb 12 ≡ fs.free
  pub s_ninode : Field 2 212 (min nicinod (fs.ninodes + 1 - fs.next_ino)) sb
  pub s_inode :
      row_at 2 (min nicinod (fs.ninodes + 1 - fs.next_ino)) sb 214
      ≡ range fs.next_ino (min nicinod (fs.ninodes + 1 - fs.next_ino))
  pub s_time : Field 4 420 fs.now sb
  pub s_tfree : Field 4 432 fs.tfree sb
  pub s_tinode : Field 2 436 (fs.ninodes + 1 - fs.next_ino) sb
  pub s_fname : slice sb 438 6 ≡ root_text
  pub s_fpack : slice sb 444 6 ≡ genix_text
  pub s_magic : Field 4 504 fs_magic sb
  pub s_type : Field 4 508 fs_type sb

first_free :
    (fs : Fs) → free_inodes fs ≡ range fs.next_ino (min nicinod (fs.ninodes + 1 - fs.next_ino))
unfolding free_inodes
first_free fs = take-range nicinod fs.next_ino (fs.ninodes + 1 - fs.next_ino)

-- Whenever the superblock can be packed, each field reads back as the value that the object has.
pub superblock-IsSuperblock :
    (fs : Fs) {sb : List ℕ} → length fs.free ≡ nicfree → superblock fs ≡ ok sb → IsSuperblock fs sb
unfolding superblock
superblock-IsSuperblock fs {sb} fifty h =
    let count : length (free_inodes fs) ≡ min nicinod (fs.ninodes + 1 - fs.next_ino) =
      unfold free_inodes in
      (length-take nicinod (range fs.next_ino (fs.ninodes + 1 - fs.next_ino))
        ∙ ap (min nicinod) (length-range fs.next_ino (fs.ninodes + 1 - fs.next_ino))) in
    let few : length (free_inodes fs) ≤ nicinod = omega (arith, count) in
    let z : length (replicate 512 0) ≡ 512 = length-replicate {A = ℕ} 512 0 in
    let (s₁, e₁, h₁) = >>=-eq-ok (pack_sizes fs (replicate 512 0)) _ h in
    let (s₂, e₂, h₂) = >>=-eq-ok (pack_free_inodes (free_inodes fs) s₁) _ h₁ in
    let (s₃, e₃, e₄) = >>=-eq-ok (pack_totals fs s₂) _ h₂ in
    let (p₁, isize, fsize, nfree, free) = pack_sizes-eq-ok fs (replicate 512 0) z fifty e₁ in
    let (p₂, ninode, inode) = pack_free_inodes-eq-ok (free_inodes fs) s₁ (p₁.sized ∙ z) few e₂ in
    let (p₃, time, tfree, tinode) = pack_totals-eq-ok fs s₂ (p₂.sized ∙ p₁.sized ∙ z) e₃ in
    let (p₄, fname_there, fpack_there, magic, type) =
      pack_names-eq-ok s₃ (p₃.sized ∙ p₂.sized ∙ p₁.sized ∙ z) e₄ in
    let q₃ = Patched-cons (le_by 420 438 refl) (le_by 438 438 refl) (le_by 438 512 refl) p₃ p₄ in
    let q₂ = Patched-cons (le_by 212 420 refl) (le_by 420 420 refl) (le_by 420 512 refl) p₂ q₃ in
    record {
      sized = p₄.sized ∙ p₃.sized ∙ p₂.sized ∙ p₁.sized ∙ z;
      s_isize = Field-Patched 2 0 (fs.iblocks + 2) q₂ (le_by 2 212 refl) isize;
      s_fsize = Field-Patched 4 4 fs.nblocks q₂ (le_by 8 212 refl) fsize;
      s_nfree = Field-Patched 2 8 fs.nfree q₂ (le_by 10 212 refl) nfree;
      s_free = peek_words-Patched nicfree 12 q₂ (le_by 212 212 refl) ∙ free;
      s_ninode =
          Field-Patched 2 212 (length (free_inodes fs)) q₃ (le_by 214 420 refl) ninode ∙ count;
      s_inode =
          ap (λ n. row_at 2 n sb 214) (sym count)
          ∙ row_at-Patched 2 (length (free_inodes fs)) 214 q₃ (omega (arith, few))
          ∙ inode
          ∙ first_free fs;
      s_time = Field-Patched 4 420 fs.now p₄ (le_by 424 438 refl) time;
      s_tfree = Field-Patched 4 432 fs.tfree p₄ (le_by 436 438 refl) tfree;
      s_tinode = Field-Patched 2 436 (fs.ninodes + 1 - fs.next_ino) p₄ (le_by 438 438 refl) tinode;
      s_fname = fname_there;
      s_fpack = fpack_there;
      s_magic = magic;
      s_type = type;
    }
