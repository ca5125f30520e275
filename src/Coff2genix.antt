-- ===== src/Coff2genix.antt =====
-- tools/coff2genix.py: an ns32000 COFF executable turned into the a.out that the ROM monitor boots.
mod Ints
pub mod Image
pub use Ints.{signed32, slice_z-pos}
unfoldable pub use Ints.{minus, ◌+ℤ◌, ◌-ℤ◌, lt_z, slice_z, ljust_z, pack_z, pack_row_z}
use mame_sys.Base.{ℕ, zero, suc, ◌+◌, ◌-◌, ◌*◌, List, [], ◌∷◌, ◌++◌, Bool, true, false, ◌||◌, ◌&&◌}
use mame_sys.Base.{
  Option, none, some, length, slice, rstrip, same_bytes, ltb, leb, ◌==◌, if◌then◌else◌, not,
}
use mame_sys.Base.Codec.{ℤ, pos, negsuc, from_le}
use mame_sys.Base.Result.{
  Result, ok, err, guard, struct_error, not_coff, bad_optional_header, bad_magic,
}
use mame_sys.Base.Result.{data_overlaps_text, key_error, value_error, ◌>>=◌, ◌>>◌}

abbrev pub zmagic : ℕ
zmagic = 267

abbrev pub ns32k_coff : ℕ
ns32k_coff = 0x0154

abbrev pub scnhsz : ℕ
scnhsz = 48

pub record Section : Type 0 where
  pub paddr : ℤ
  pub size : ℤ
  pub scnptr : ℤ

-- The bytes that may follow a leading byte of UTF-8, as ranges.
unfoldable pub expected : ℕ → Option (List (ℕ × ℕ))
expected b =
    if ltb b 0x80
    then some []
    else if leb 0xc2 b && leb b 0xdf
    then some ((0x80, 0xbf) ∷ [])
    else if b == 0xe0
    then some ((0xa0, 0xbf) ∷ (0x80, 0xbf) ∷ [])
    else if b == 0xed
    then some ((0x80, 0x9f) ∷ (0x80, 0xbf) ∷ [])
    else if leb 0xe1 b && leb b 0xef
    then some ((0x80, 0xbf) ∷ (0x80, 0xbf) ∷ [])
    else if b == 0xf0
    then some ((0x90, 0xbf) ∷ (0x80, 0xbf) ∷ (0x80, 0xbf) ∷ [])
    else if leb 0xf1 b && leb b 0xf3
    then some ((0x80, 0xbf) ∷ (0x80, 0xbf) ∷ (0x80, 0xbf) ∷ [])
    else if b == 0xf4
    then some ((0x80, 0x8f) ∷ (0x80, 0xbf) ∷ (0x80, 0xbf) ∷ [])
    else none

-- Whether `decode()` takes the bytes, from what the character under way still expects.
unfoldable pub is_utf8 : List (ℕ × ℕ) → List ℕ → Bool
is_utf8 [] [] = true
is_utf8 (r ∷ rs) [] = false
is_utf8 (r ∷ rs) (b ∷ bs) = (leb r.0 b && leb b r.1) && is_utf8 rs bs
is_utf8 [] (b ∷ bs) = elim (expected b) [ none ↦ false | some rs ↦ is_utf8 rs bs ]

unfoldable pub section_at : List ℕ → ℕ → Section
section_at d off = record {
  paddr = signed32 (from_le (slice d (off + 8) 4));
  size = signed32 (from_le (slice d (off + 16) 4));
  scnptr = signed32 (from_le (slice d (off + 20) 4));
}

-- The loop that fills `sections`, the latest first. The rounds left, and `i`.
unfoldable pub sections_from :
    ℕ → ℕ → List ℕ → List (List ℕ × Section) → Result (List (List ℕ × Section))
sections_from zero i d sections = ok sections
sections_from (suc rounds) i d sections = do
  let off = 20 + 40 + i * scnhsz
  guard (leb (off + 24) (length d)) struct_error
  let name = rstrip (slice d off 8)
  guard (is_utf8 [] name) value_error
  sections_from rounds (i + 1) d ((name, section_at d off) ∷ sections)

-- `sections[name]`
unfoldable pub find : List ℕ → List (List ℕ × Section) → Result Section
find name [] = err key_error
find name (s ∷ ss) = if same_bytes name s.0 then ok s.1 else find name ss

abbrev pub text_name : List ℕ
text_name = b'.' ∷ b't' ∷ b'e' ∷ b'x' ∷ b't' ∷ []

abbrev pub data_name : List ℕ
data_name = b'.' ∷ b'd' ∷ b'a' ∷ b't' ∷ b'a' ∷ []

abbrev pub bss_name : List ℕ
bss_name = b'.' ∷ b'b' ∷ b's' ∷ b's' ∷ []

-- The words of `exec_hdr`.
abbrev pub exec_words : ℤ → Section → Section → Section → ℤ → List ℤ
exec_words a_text text init bss entry =
    pos zmagic
    ∷ a_text
    ∷ init.size
    ∷ bss.size
    ∷ pos 0
    ∷ entry
    ∷ pos 0
    ∷ pos 0
    ∷ pos 0
    ∷ pos 0x20
    ∷ pos 0
    ∷ pos 0
    ∷ text.paddr
    ∷ pos 0
    ∷ init.paddr
    ∷ []

-- What is written for the sections: the second half of `main`.
unfoldable pub emit : List ℕ → Section → Section → Section → ℤ → Result (List ℕ)
emit d text init bss entry = do
  let a_text = init.paddr -ℤ text.paddr
  guard (not (lt_z a_text text.size)) data_overlaps_text
  exec_hdr ← pack_row_z (exec_words a_text text init bss entry)
  ok (
      ljust_z exec_hdr (pos 1024)
      ++ (ljust_z (slice_z d text.scnptr (text.scnptr +ℤ text.size)) a_text
          ++ slice_z d init.scnptr (init.scnptr +ℤ init.size)))

-- `main`, from the bytes of the one file to those of the other
unfoldable pub convert : List ℕ → Result (List ℕ)
convert d = do
  guard (leb 20 (length d)) struct_error
  guard (from_le (slice d 0 2) == ns32k_coff) not_coff
  guard (from_le (slice d 16 2) == 40) bad_optional_header
  guard (leb 60 (length d)) struct_error
  guard (from_le (slice d 20 2) == zmagic) bad_magic
  sections ← sections_from (from_le (slice d 2 2)) 0 d []
  text ← find text_name sections
  init ← find data_name sections
  bss ← find bss_name sections
  emit d text init bss (signed32 (from_le (slice d 44 4)))
