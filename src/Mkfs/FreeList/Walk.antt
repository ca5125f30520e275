-- ===== src/Mkfs/FreeList/Walk.antt =====
-- The kernel's view of the free list, as uts/sys/fblk.h lays it out (the header of tools/mkfs.py):
-- the list in the superblock is used from its top down, the entry 0 ends it, and the block that was
-- the last of a list holds the next list, a count and 50 numbers.
use mame_sys.Base.{ℕ, zero, suc, ◌+◌, ◌^◌, ◌≤◌, ◌<◌, List, [], ◌∷◌, ◌++◌, length, All, set, get_or}
use mame_sys.Base.{
  ◌==◌, if◌then◌else◌, ◌≡◌, refl, sym, ap, ◌∙◌, arith, inl, inr, Bool-cases, ==_ne, slice,
  slice_lem, drop, take,
}
use mame_sys.Base.{take-append_left, drop-append_left, drop-drop, append_assoc}
use mame_sys.Base.Codec.{le, length-le, from_le, from_le-le, words}
use mame_sys.Mkfs.{nicfree}
use mame_sys.Mkfs.Blocks.{block}

-- `n` words from byte `i` on.
unfoldable pub peek_words : ℕ → List ℕ → ℕ → List ℕ
peek_words zero b i = []
peek_words (suc n) b i = from_le (slice b i 4) ∷ peek_words n b (i + 4)

-- The blocks that the kernel gets one after the other, from a list of `nfree` numbers.
unfoldable pub walk : ℕ → List ℕ → ℕ → List ℕ → List ℕ
walk zero d nfree free = []
walk (suc fuel) d zero free = []
walk (suc fuel) d (suc k) free =
    let b = get_or free k 0 in
    let link = block d b in
    let next = walk fuel d (from_le (slice link 0 4)) (peek_words nicfree link 4) in
    let more = walk fuel d k free in if b == 0 then [] else b ∷ (if k == 0 then next else more)

pub peek_words-words :
    (xs rest b : List ℕ) (i : ℕ)
    → All (λ x. x < 2 ^ 32) xs
    → drop i b ≡ words xs ++ rest
    → peek_words (length xs) b i ≡ xs
unfolding peek_words words
peek_words-words [] rest b i small e = refl
peek_words-words (x ∷ xs) rest b i small e =
    let at : drop i b ≡ le 4 x ++ (words xs ++ rest) = e ∙ append_assoc (le 4 x) (words xs) rest in
    let next : drop (i + 4) b ≡ words xs ++ rest =
      sym (drop-drop 4 i b)
      ∙ ap (drop 4) at
      ∙ drop-append_left 4 (le 4 x) (words xs ++ rest) (sym (length-le 4 x)) in
    let head : slice b i 4 ≡ le 4 x =
      slice_lem b i 4
      ∙ ap (take 4) at
      ∙ take-append_left 4 (le 4 x) (words xs ++ rest) (sym (length-le 4 x)) in
    rw (head, from_le-le 4 x small.0, peek_words-words xs rest b (i + 4) small.1 next)

pub get_or-set_self : (xs : List ℕ) (i v : ℕ) → i < length xs → get_or (set xs i v) i 0 ≡ v
get_or-set_self [] i v h = absurd (omega arith)
get_or-set_self (x ∷ xs) zero v h = refl
get_or-set_self (x ∷ xs) (suc i) v h = get_or-set_self xs i v (omega arith)

pub get_or-set_below : (xs : List ℕ) (i v k : ℕ) → k < i → get_or (set xs i v) k 0 ≡ get_or xs k 0
get_or-set_below [] i v k h = refl
get_or-set_below (x ∷ xs) zero v k h = absurd (omega arith)
get_or-set_below (x ∷ xs) (suc i) v zero h = refl
get_or-set_below (x ∷ xs) (suc i) v (suc k) h = get_or-set_below xs i v k (omega arith)

pub length-set : (xs : List ℕ) (i v : ℕ) → length (set xs i v) ≡ length xs
length-set [] i v = refl
length-set (x ∷ xs) zero v = refl
length-set (x ∷ xs) (suc i) v = ap suc (length-set xs i v)

-- Entries above the count do not matter.
pub walk-set :
    (fuel : ℕ) (d : List ℕ) (n : ℕ) (free : List ℕ) (i v : ℕ)
    → n ≤ i
    → walk fuel d n (set free i v) ≡ walk fuel d n free
unfolding walk
walk-set zero d n free i v h = refl
walk-set (suc fuel) d zero free i v h = refl
walk-set (suc fuel) d (suc k) free i v h =
    rw (get_or-set_below free i v k h, walk-set fuel d k free i v (omega arith))

-- The walk reads only blocks that it hands out.
pub walk-agrees :
    (fuel : ℕ) (d d' : List ℕ) (lo n : ℕ) (free : List ℕ)
    → ((b : ℕ) → lo ≤ b → block d' b ≡ block d b)
    → All (λ b. lo ≤ b) (walk fuel d n free)
    → walk fuel d' n free ≡ walk fuel d n free
unfolding walk
walk-agrees zero d d' lo n free same all = refl
walk-agrees (suc fuel) d d' lo zero free same all = refl
walk-agrees (suc fuel) d d' lo (suc k) free same all =
    let b = get_or free k 0 in
    elim (Bool-cases (b == 0)) [
      | inl done ↦ rw done
      | inr more ↦ elim (Bool-cases (k == 0)) [
        | inl last ↦
            let all' = rw (more, last) at all in
            rw (more, last, same b all'.0) (ap (◌∷◌ b) (walk-agrees fuel d d' lo _ _ same all'.1))
        | inr inner ↦
            let all' = rw (more, inner) at all in
            rw (more, inner) (ap (◌∷◌ b) (walk-agrees fuel d d' lo k free same all'.1))
      ]
    ]

-- A number pushed on a list with room comes first.
pub walk-push :
    (fuel : ℕ) (d : List ℕ) (n : ℕ) (free : List ℕ) (c : ℕ)
    → 1 ≤ n
    → n < length free
    → 1 ≤ c
    → walk (suc fuel) d (suc n) (set free n c) ≡ c ∷ walk fuel d n free
unfolding walk
walk-push fuel d n free c h₁ h₂ h₃ = rw (
  get_or-set_self free n c h₂,
  ==_ne c 0 (omega arith),
  ==_ne n 0 (omega arith),
  walk-set fuel d n free n c (omega arith),
)

-- A number that stands alone links to the list in its block.
pub walk-link :
    (fuel : ℕ) (d : List ℕ) (free : List ℕ) (c : ℕ)
    → 0 < length free
    → 1 ≤ c
    → walk (suc fuel) d 1 (set free 0 c)
      ≡ c ∷ walk fuel d (from_le (slice (block d c) 0 4)) (peek_words nicfree (block d c) 4)
unfolding walk
walk-link fuel d free c h₂ h₃ = rw (get_or-set_self free 0 c h₂, ==_ne c 0 (omega arith))

-- The entry 0 ends the walk.
pub walk_end : (fuel : ℕ) (d free : List ℕ) → get_or free 0 0 ≡ 0 → walk fuel d 1 free ≡ []
unfolding walk
walk_end zero d free e = refl
walk_end (suc fuel) d free e = rw e
