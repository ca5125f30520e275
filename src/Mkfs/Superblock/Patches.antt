-- ===== src/Mkfs/Superblock/Patches.antt =====
-- Writes into a row of bytes one behind the other: what each leaves alone, and how fields read back.
use mame_sys.Base.{ℕ, zero, suc, ◌+◌, ◌*◌, ◌≤◌, List, [], ◌∷◌, ◌++◌, length}
use mame_sys.Base.{◌≡◌, refl, ap, ap₂, ◌∙◌, arith, slice, splice, true, leb}
use mame_sys.Base.{length-splice, length-slice}
use mame_sys.Base.{slice-splice_below, slice-splice_above, slice-splice_self, append-nil, drop_all}
use mame_sys.Base.Codec.{
  le, length-le, from_le, from_le-le, pack, pack_signed, pack-eq-ok, pack_signed-eq-ok,
}
use mame_sys.Base.Result.{ok, >>=-eq-ok}
use mame_sys.Mkfs.FreeList.Walk.{peek_words}
use mame_sys.Mkfs.Superblock.{pack_into, pack_into_signed, pack_row}

-- `sb'` differs from `sb` only in the bytes from `lo` to `hi - 1`.
pub record Patched (sb sb' : List ℕ) (lo hi : ℕ) : Type 0 where
  pub sized : length sb' ≡ length sb
  pub below : (a n : ℕ) → a + n ≤ lo → slice sb' a n ≡ slice sb a n
  pub above : (a n : ℕ) → hi ≤ a → slice sb' a n ≡ slice sb a n

pub splice-Patched :
    (sb : List ℕ) (off : ℕ) (b : List ℕ) (hi : ℕ)
    → off + length b ≤ hi
    → hi ≤ length sb
    → Patched sb (splice sb off b) off hi
splice-Patched sb off b hi h₁ h₂ = record {
  sized = length-splice sb off b (omega arith);
  below = λ a n h. slice-splice_below sb off b a n (omega arith) h;
  above = λ a n h. slice-splice_above sb off b a n (omega arith) (omega arith);
}

-- The field at `off` reads back as `v`.
abbrev pub Field : ℕ → ℕ → ℕ → List ℕ → Type 0
Field w off v sb = from_le (slice sb off w) ≡ v

pub slice-splice_field :
    (sb : List ℕ) (off w v : ℕ)
    → off + w ≤ length sb
    → slice (splice sb off (le w v)) off w ≡ le w v
slice-splice_field sb off w v h =
    slice-splice_self sb off (le w v) w (omega (arith, length-le w v))
      (omega (arith, length-le w v))
    ∙ ap (λ t. le w v ++ t)
        (drop_all (length (le w v)) (slice sb off w)
          (omega (arith, length-le w v, length-slice sb off w)))
    ∙ append-nil (le w v)

pub pack_into-eq-ok :
    (w off v : ℕ) (sb : List ℕ) {sb' : List ℕ}
    → off + w ≤ length sb
    → pack_into w off v sb ≡ ok sb'
    → Patched sb sb' off (off + w) × Field w off v sb'
unfolding pack_into
pack_into-eq-ok w off v sb {sb'} h e =
    let (b, e₁, e₂) = >>=-eq-ok (pack w v) (λ x. ok (splice sb off x)) e in
    let (bytes, fits) = pack-eq-ok w v e₁ in
    let whole : sb' ≡ splice sb off (le w v) = cc in
    rw whole (
      splice-Patched sb off (le w v) (off + w) (omega (arith, length-le w v)) h,
      ap from_le (slice-splice_field sb off w v h) ∙ from_le-le w v fits,
    )

pub pack_into_signed-eq-ok :
    (v off : ℕ) (sb : List ℕ) {sb' : List ℕ}
    → off + 2 ≤ length sb
    → pack_into_signed 2 off v sb ≡ ok sb'
    → Patched sb sb' off (off + 2) × Field 2 off v sb'
unfolding pack_into_signed
pack_into_signed-eq-ok v off sb {sb'} h e =
    let (b, e₁, e₂) = >>=-eq-ok (pack_signed 2 v) (λ x. ok (splice sb off x)) e in
    let (bytes, fits) = pack_signed-eq-ok 2 v e₁ in
    let whole : sb' ≡ splice sb off (le 2 v) = cc in
    rw whole (
      splice-Patched sb off (le 2 v) (off + 2) (omega (arith, length-le 2 v)) h,
      ap from_le (slice-splice_field sb off 2 v h) ∙ from_le-le 2 v (omega (arith, fits)),
    )

pub Patched-trans :
    {a b c : List ℕ} {lo mid hi : ℕ}
    → lo ≤ mid
    → mid ≤ hi
    → Patched a b lo mid
    → Patched b c mid hi
    → Patched a c lo hi
Patched-trans h₁ h₂ p q = record {
  sized = q.sized ∙ p.sized;
  below = λ a n h. q.below a n (omega arith) ∙ p.below a n h;
  above = λ a n h. q.above a n h ∙ p.above a n (omega arith);
}

pub pack_row-Patched :
    (w off : ℕ) (xs sb : List ℕ) {sb' : List ℕ}
    → off + length xs * w ≤ length sb
    → pack_row w off xs sb ≡ ok sb'
    → Patched sb sb' off (off + length xs * w)
unfolding pack_row
pack_row-Patched w off [] sb {sb'} h e =
    let same : sb ≡ sb' = cc in
    rw (← same) (record { sized = refl; below = λ a n k. refl; above = λ a n k. refl })
pack_row-Patched w off (x ∷ xs) sb {sb'} h e =
    let (sb₁, e₁, e₂) = >>=-eq-ok (pack_into w off x sb) (pack_row w (off + w) xs) e in
    let (p, here) = pack_into-eq-ok w off x sb (omega arith) e₁ in
    let q = pack_row-Patched w (off + w) xs sb₁ (omega (arith, p.sized)) e₂ in
    let total : off + w + length xs * w ≡ off + suc (length xs) * w = omega arith in
    Patched-trans (omega arith) (omega arith) p (rw total at q)

pub peek_words-Patched :
    (n : ℕ) {a b : List ℕ} {lo hi : ℕ} (i : ℕ)
    → Patched a b lo hi
    → i + n * 4 ≤ lo
    → peek_words n b i ≡ peek_words n a i
unfolding peek_words
peek_words-Patched zero i p h = refl
peek_words-Patched (suc n) i p h =
    ap₂ (λ x xs. from_le x ∷ xs) (p.below i 4 (omega arith))
      (peek_words-Patched n (i + 4) p (omega arith))

-- A row of words reads back.
pub peek_words-pack_row :
    (off : ℕ) (xs sb : List ℕ) {sb' : List ℕ}
    → off + length xs * 4 ≤ length sb
    → pack_row 4 off xs sb ≡ ok sb'
    → peek_words (length xs) sb' off ≡ xs
unfolding pack_row peek_words
peek_words-pack_row off [] sb h e = refl
peek_words-pack_row off (x ∷ xs) sb {sb'} h e =
    let (sb₁, e₁, e₂) = >>=-eq-ok (pack_into 4 off x sb) (pack_row 4 (off + 4) xs) e in
    let (p, here) = pack_into-eq-ok 4 off x sb (omega arith) e₁ in
    let q = pack_row-Patched 4 (off + 4) xs sb₁ (omega (arith, p.sized)) e₂ in
    ap₂ (◌∷◌) (ap from_le (q.below off 4 (omega arith)) ∙ here)
      (peek_words-pack_row (off + 4) xs sb₁ (omega (arith, p.sized)) e₂)

pub le_by : (a b : ℕ) → leb a b ≡ true → a ≤ b
le_by a b h = ground arith

pub Patched-weaken :
    {a b : List ℕ} {lo hi end : ℕ} → hi ≤ end → Patched a b lo hi → Patched a b lo end
Patched-weaken h p = record {
  sized = p.sized;
  below = p.below;
  above = λ a n k. p.above a n (omega arith);
}

-- A patch before others that all lie behind it.
pub Patched-cons :
    {a b c : List ℕ} {lo hi lo' end : ℕ}
    → lo ≤ lo'
    → hi ≤ lo'
    → hi ≤ end
    → Patched a b lo hi
    → Patched b c lo' end
    → Patched a c lo end
Patched-cons h₁ h₂ h₃ p q = record {
  sized = q.sized ∙ p.sized;
  below = λ a n h. q.below a n (omega arith) ∙ p.below a n h;
  above = λ a n h. q.above a n h ∙ p.above a n (omega arith);
}

pub Field-Patched :
    (w off v : ℕ) {a b : List ℕ} {lo hi : ℕ}
    → Patched a b lo hi
    → off + w ≤ lo
    → Field w off v a
    → Field w off v b
Field-Patched w off v p h f = ap from_le (p.below off w h) ∙ f
