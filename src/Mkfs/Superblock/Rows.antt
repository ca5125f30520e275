-- ===== src/Mkfs/Superblock/Rows.antt =====
-- Rows of equal fields, and texts, in the superblock of tools/mkfs.py: how they read back.
use mame_sys.Base.{ℕ, zero, suc, ◌+◌, ◌*◌, ◌≤◌, List, [], ◌∷◌, ◌++◌, length, min, take}
use mame_sys.Base.{◌≡◌, refl, ap, ap₂, ◌∙◌, arith, slice, splice}
use mame_sys.Base.{length-slice, slice-splice_self, append-nil, drop_all}
use mame_sys.Base.Codec.{from_le}
use mame_sys.Base.Result.{ok, >>=-eq-ok}
use mame_sys.Mkfs.Layout.{range}
use mame_sys.Mkfs.Superblock.{pack_into, pack_row}
use mame_sys.Mkfs.Superblock.Patches.{Patched, pack_into-eq-ok, pack_row-Patched}

-- The `n` fields of `w` bytes from `off` on.
abbrev pub row_at : ℕ → ℕ → List ℕ → ℕ → List ℕ
row_at w zero sb off = []
row_at w (suc n) sb off = from_le (slice sb off w) ∷ row_at w n sb (off + w)

pub row_at-Patched :
    (w n : ℕ) {a b : List ℕ} {lo hi : ℕ} (off : ℕ)
    → Patched a b lo hi
    → off + n * w ≤ lo
    → row_at w n b off ≡ row_at w n a off
row_at-Patched w zero off p h = refl
row_at-Patched w (suc n) off p h =
    ap₂ (λ x xs. from_le x ∷ xs) (p.below off w (omega arith))
      (row_at-Patched w n (off + w) p (omega arith))

pub row_at-pack_row :
    (w off : ℕ) (xs sb : List ℕ) {sb' : List ℕ}
    → off + length xs * w ≤ length sb
    → pack_row w off xs sb ≡ ok sb'
    → row_at w (length xs) sb' off ≡ xs
unfolding pack_row
row_at-pack_row w off [] sb h e = refl
row_at-pack_row w off (x ∷ xs) sb {sb'} h e =
    let (sb₁, e₁, e₂) = >>=-eq-ok (pack_into w off x sb) (pack_row w (off + w) xs) e in
    let (p, here) = pack_into-eq-ok w off x sb (omega arith) e₁ in
    let q = pack_row-Patched w (off + w) xs sb₁ (omega (arith, p.sized)) e₂ in
    ap₂ (◌∷◌) (ap from_le (q.below off w (omega arith)) ∙ here)
      (row_at-pack_row w (off + w) xs sb₁ (omega (arith, p.sized)) e₂)

pub take-range : (n lo k : ℕ) → take n (range lo k) ≡ range lo (min n k)
unfolding take range
take-range zero lo k = let none_left : 0 ≡ min 0 k = omega arith in ap (range lo) none_left
take-range (suc n) lo zero =
    let none_left : 0 ≡ min (suc n) 0 = omega arith in ap (range lo) none_left
take-range (suc n) lo (suc k) =
    let more : suc (min n k) ≡ min (suc n) (suc k) = omega arith in
    ap (◌∷◌ lo) (take-range n (lo + 1) k) ∙ ap (range lo) more

-- A text that was written at `off` stands there.
pub slice-splice_text :
    (sb : List ℕ) (off : ℕ) (text : List ℕ)
    → off + length text ≤ length sb
    → slice (splice sb off text) off (length text) ≡ text
slice-splice_text sb off text h =
    slice-splice_self sb off text (length text) h (omega arith)
    ∙ ap (λ t. text ++ t)
        (drop_all (length text) (slice sb off (length text))
          (omega (arith, length-slice sb off (length text))))
    ∙ append-nil text
