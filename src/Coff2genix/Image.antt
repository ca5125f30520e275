-- ===== src/Coff2genix/Image.antt =====
-- The boot image that tools/coff2genix.py writes for sections whose fields are not negative.
use mame_sys.Base.{ℕ, ◌+◌, ◌-◌, ◌^◌, ◌<◌, ◌≤◌, List, [], ◌∷◌, ◌++◌, map, All, ◌⊎◌, inl, inr}
use mame_sys.Base.{
  ◌≡◌, refl, sym, ap, ◌∙◌, arith, length, take, drop, replicate, slice, slice_lem, lt→ltb,
  not_lt→ltb, le→leb,
}
use mame_sys.Base.{
  length-append, length-replicate, length-slice, take-append_left, drop-append_left,
}
use mame_sys.Base.{append_assoc, Bool-cases, leb}
use mame_sys.Base.Codec.{pos, words, length-words, le, from_le, from_le-le, pack_fits}
use mame_sys.Base.Result.{ok, err, data_overlaps_text, ◌>>=◌}
use mame_sys.Coff2genix.{Section, emit, pack_row_z, pack_z, slice_z-pos, ljust_z, minus, ◌-ℤ◌, lt_z}

-- A section of the COFF file: its address, its size, and where its bytes stand in the file.
pub record Placed : Type 0 where
  pub paddr : ℕ
  pub size : ℕ
  pub scnptr : ℕ

abbrev pub section : Placed → Section
section p = record { paddr = pos p.paddr; size = pos p.size; scnptr = pos p.scnptr }

-- The bytes of a section, fewer than its size when the file ends early.
abbrev pub contents : List ℕ → Placed → List ℕ
contents d p = slice d p.scnptr p.size

-- The fields of a section that the image's header holds fit in 32 bits.
abbrev pub Fits : Placed → Type 0
Fits p = (p.paddr < 2 ^ 32) × (p.size < 2 ^ 32)

-- All fifteen fields of the header read back and zeros follow them up to offset 1024, and the text and
-- the data stand in the image as far apart as they
-- were linked: the byte of address `text.paddr + k` is at offset `1024 + k`.
pub record IsLinked (out d : List ℕ) (text init bss : Placed) (entry : ℕ) : Type 0 where
  pub a_magic : from_le (slice out 0 4) ≡ 0x10b
  pub a_text : from_le (slice out 4 4) ≡ init.paddr - text.paddr
  pub a_data : from_le (slice out 8 4) ≡ init.size
  pub a_bss : from_le (slice out 12 4) ≡ bss.size
  pub a_syms : from_le (slice out 16 4) ≡ 0
  pub a_entry : from_le (slice out 20 4) ≡ entry
  pub a_entry_mod : from_le (slice out 24 4) ≡ 0
  pub a_trsize : from_le (slice out 28 4) ≡ 0
  pub a_drsize : from_le (slice out 32 4) ≡ 0
  pub a_mod : from_le (slice out 36 4) ≡ 0x20
  pub a_link : from_le (slice out 40 4) ≡ 0
  pub a_strings : from_le (slice out 44 4) ≡ 0
  pub a_text_addr : from_le (slice out 48 4) ≡ text.paddr
  pub a_mod_addr : from_le (slice out 52 4) ≡ 0
  pub a_dat_addr : from_le (slice out 56 4) ≡ init.paddr
  pub header_end : slice out 60 964 ≡ replicate 964 0
  pub text_there : slice out 1024 (length (contents d text)) ≡ contents d text
  pub padding :
      slice out
        (1024 + length (contents d text))
        (init.paddr - text.paddr - length (contents d text))
      ≡ replicate (init.paddr - text.paddr - length (contents d text)) 0
  pub data_there : drop (1024 + (init.paddr - text.paddr)) out ≡ contents d init

pack_row_z_fits : (xs : List ℕ) → All (λ x. x < 2 ^ 32) xs → pack_row_z (map pos xs) ≡ ok (words xs)
unfolding pack_row_z words pack_z
pack_row_z_fits [] h = refl
pack_row_z_fits (x ∷ xs) h = rw (pack_fits 4 x h.0, ◌>>=◌, pack_row_z_fits xs h.1)

-- `mid` stands in `front ++ (mid ++ back)` behind `front`.
slice-middle :
    (front mid back : List ℕ) (off n : ℕ)
    → off ≡ length front
    → n ≡ length mid
    → slice (front ++ (mid ++ back)) off n ≡ mid
slice-middle front mid back off n e e' =
    slice_lem (front ++ (mid ++ back)) off n
    ∙ ap (take n) (drop-append_left off front (mid ++ back) e)
    ∙ take-append_left n mid back e'

abbrev header_words : Placed → Placed → Placed → ℕ → List ℕ
header_words text init bss entry =
    0x10b
    ∷ (init.paddr - text.paddr)
    ∷ init.size
    ∷ bss.size
    ∷ 0
    ∷ entry
    ∷ 0
    ∷ 0
    ∷ 0
    ∷ 0x20
    ∷ 0
    ∷ 0
    ∷ text.paddr
    ∷ 0
    ∷ init.paddr
    ∷ []

abbrev image : List ℕ → Placed → Placed → Placed → ℕ → List ℕ
image d text init bss entry =
    (words (header_words text init bss entry) ++ replicate 964 0)
    ++ ((contents d text ++ replicate (init.paddr - text.paddr - length (contents d text)) 0)
        ++ contents d init)

module _ (hdr t z back : List ℕ) where
  text_at : 1024 ≡ length hdr → slice (hdr ++ ((t ++ z) ++ back)) 1024 (length t) ≡ t
  text_at h =
      ap (λ l. slice (hdr ++ l) 1024 (length t)) (append_assoc t z back)
      ∙ slice-middle hdr t (z ++ back) 1024 (length t) h refl

  padding_at :
      (n : ℕ)
      → 1024 ≡ length hdr
      → n ≡ length z
      → slice (hdr ++ ((t ++ z) ++ back)) (1024 + length t) n ≡ z
  padding_at n h e =
      ap (λ l. slice l (1024 + length t) n)
        (ap (λ l. hdr ++ l) (append_assoc t z back) ∙ sym (append_assoc hdr t (z ++ back)))
      ∙ slice-middle (hdr ++ t) z back (1024 + length t) n (omega (arith, length-append hdr t)) e

  back_at :
      (n : ℕ)
      → 1024 ≡ length hdr
      → n ≡ length t + length z
      → drop (1024 + n) (hdr ++ ((t ++ z) ++ back)) ≡ back
  back_at n h e =
      ap (drop (1024 + n)) (sym (append_assoc hdr (t ++ z) back))
      ∙ drop-append_left (1024 + n) (hdr ++ (t ++ z)) back
          (omega (arith, length-append hdr (t ++ z), length-append t z))

module _ (d : List ℕ) (text init bss : Placed) (entry : ℕ) (text_fits : Fits text)
    (init_fits : Fits init) (bss_fits : Fits bss) (entry_fits : entry < 2 ^ 32) where
  emit-image :
      text.paddr + text.size ≤ init.paddr
      → emit d (section text) (section init) (section bss) (pos entry)
        ≡ ok (image d text init bss entry)
  unfolding emit ◌-ℤ◌ minus lt_z ljust_z
  emit-image apart =
      let row = pack_row_z_fits (header_words text init bss entry) (
        omega arith,
        (
          omega arith,
          (
            init_fits.1,
            (
              bss_fits.1,
              (
                omega arith,
                (
                  entry_fits,
                  (
                    omega arith,
                    (
                      omega arith,
                      (
                        omega arith,
                        (
                          omega arith,
                          (
                            omega arith,
                            (omega arith, (text_fits.0, (omega arith, (init_fits.0, tt)))),
                          ),
                        ),
                      ),
                    ),
                  ),
                ),
              ),
            ),
          ),
        ),
      ) in
      rw
        (
          le→leb text.paddr init.paddr (omega arith),
          not_lt→ltb (init.paddr - text.paddr) text.size (omega arith),
          row,
          slice_z-pos d text.scnptr text.size,
          slice_z-pos d init.scnptr init.size,
          length-words (header_words text init bss entry),
        )
        refl

  header-length : 1024 ≡ length (words (header_words text init bss entry) ++ replicate 964 0)
  header-length = omega (
    arith,
    length-append (words (header_words text init bss entry)) (replicate 964 0),
    length-words (header_words text init bss entry),
    length-replicate {A = ℕ} 964 0,
  )

  image-IsLinked :
      text.paddr + text.size ≤ init.paddr
      → IsLinked (image d text init bss entry) d text init bss entry
  unfolding words le slice take drop from_le
  image-IsLinked apart =
      let hdr = words (header_words text init bss entry) ++ replicate 964 0 in
      let t = contents d text in
      let gap = init.paddr - text.paddr - length t in
      let short = length-slice d text.scnptr text.size in
      let pad = length-replicate {A = ℕ} gap 0 in
      record {
        a_magic = refl;
        a_text = from_le-le 4 (init.paddr - text.paddr) (omega arith);
        a_data = from_le-le 4 init.size init_fits.1;
        a_bss = from_le-le 4 bss.size bss_fits.1;
        a_syms = refl;
        a_entry = from_le-le 4 entry entry_fits;
        a_entry_mod = refl;
        a_trsize = refl;
        a_drsize = refl;
        a_mod = refl;
        a_link = refl;
        a_strings = refl;
        a_text_addr = from_le-le 4 text.paddr text_fits.0;
        a_mod_addr = refl;
        a_dat_addr = from_le-le 4 init.paddr init_fits.0;
        header_end =
            ap (λ l. slice l 60 964)
              (append_assoc (words (header_words text init bss entry)) (replicate 964 0)
                ((t ++ replicate gap 0) ++ contents d init))
            ∙ slice-middle (words (header_words text init bss entry)) (replicate 964 0)
                ((t ++ replicate gap 0) ++ contents d init) 60 964
                (sym (length-words (header_words text init bss entry)))
                (sym (length-replicate {A = ℕ} 964 0));
        text_there = text_at hdr t (replicate gap 0) (contents d init) header-length;
        padding = padding_at hdr t (replicate gap 0) (contents d init) gap header-length (sym pad);
        data_there =
            back_at hdr t (replicate gap 0) (contents d init) (init.paddr - text.paddr)
              header-length (omega (arith, short, pad));
      }

  emit-overlap :
      init.paddr < text.paddr + text.size
      → emit d (section text) (section init) (section bss) (pos entry) ≡ err data_overlaps_text
  unfolding emit ◌-ℤ◌ minus lt_z
  emit-overlap h = elim (Bool-cases (leb text.paddr init.paddr)) [
    | inl e ↦ rw (e, lt→ltb (init.paddr - text.paddr) text.size (ground arith)) refl
    | inr e ↦ rw e refl
  ]

  -- With fields that are not negative and fit in 32 bits, `emit` gives an image exactly when the text
  -- ends before the data begins, and stops with the message about the overlap otherwise. In the image
  -- each of the fifteen fields of the header reads back, zeros follow up to offset 1024, the text stands at offset 1024, zeros fill what is left up to the
  -- distance at which the data was linked, and the data stands there and ends the file.
  pub emit-IsLinked :
      ((text.paddr + text.size ≤ init.paddr)
        × ((out : List ℕ) × (emit d (section text) (section init) (section bss) (pos entry)
              ≡ ok out)
            × IsLinked out d text init bss entry))
      ⊎ ((init.paddr < text.paddr + text.size)
          × (emit d (section text) (section init) (section bss) (pos entry)
              ≡ err data_overlaps_text))
  emit-IsLinked = elim (Bool-cases (leb (text.paddr + text.size) init.paddr)) [
    | inl e ↦
        let apart : text.paddr + text.size ≤ init.paddr = ground arith in
        inl (apart, (image d text init bss entry, emit-image apart, image-IsLinked apart))
    | inr e ↦
        let over : init.paddr < text.paddr + text.size = ground arith in
        inr (over, emit-overlap over)
  ]
