-- ===== src/Base/Codec.antt =====
-- Python's struct module, little-endian: unsigned and signed fields of 1 to 4 bytes. A value out of
-- a field's range is `struct.error`, as is a read past the end.
use Prim.Native.Nat.{ℕ, zero, suc, ◌+◌, ◌-◌, ◌*◌, ◌/◌, ◌%◌, ◌^◌, ◌<◌}
use mathlib.Core.Path.{◌≡◌, refl, ap}
use mathlib.Core.List.{List, [], ◌∷◌, ◌++◌}
use native.Mathlib.Nat.{pow-suc}
use native.Mathlib.Omega.{arith}
use mame_sys.Base.Tests.{ltb, leb, if◌then◌else◌}
use mame_sys.Base.Result.{Result, ok, err, struct_error, ◌>>=◌, >>=-eq-ok}
use mame_sys.Base.Slices.{slice}
use mame_sys.Base.Lists.{length, length-append, All}

abbrev pub IsByte : ℕ → Type 0
IsByte b = b < 256

unfoldable pub le : ℕ → ℕ → List ℕ
le zero n = []
le (suc w) n = (n % 256) ∷ le w (n / 256)

unfoldable pub from_le : List ℕ → ℕ
from_le [] = 0
from_le (b ∷ bs) = b + 256 * from_le bs

unfoldable pub pack : ℕ → ℕ → Result (List ℕ)
pack w n = if ltb n (256 ^ w) then ok (le w n) else err struct_error

-- A signed field, of a value that is not negative.
unfoldable pub pack_signed : ℕ → ℕ → Result (List ℕ)
pack_signed w n = if ltb n (256 ^ w / 2) then ok (le w n) else err struct_error

-- `b''.join(struct.pack('<I', x) for x in xs)`
unfoldable pub pack_all : List ℕ → Result (List ℕ)
pack_all [] = ok []
pack_all (x ∷ xs) = do b ← pack 4 x; bs ← pack_all xs; ok (b ++ bs)

-- `struct.unpack_from` of one unsigned field of `w` bytes at `off`.
unfoldable pub unpack : ℕ → List ℕ → ℕ → Result ℕ
unpack w d off = if leb (off + w) (length d) then ok (from_le (slice d off w)) else err struct_error

-- A two's complement reading of a field of 16 bits.
pub data ℤ : Type 0 where
  pos : ℕ → ℤ
  negsuc : ℕ → ℤ

abbrev pub signed16 : ℕ → ℤ
signed16 n = if ltb n 32768 then pos n else negsuc (65536 - n - 1)

pub length-le : (w n : ℕ) → length (le w n) ≡ w
unfolding le
length-le zero n = refl
length-le (suc w) n = ap suc (length-le w (n / 256))

-- The bytes of a row of 32-bit words.
unfoldable pub words : List ℕ → List ℕ
words [] = []
words (x ∷ xs) = le 4 x ++ words xs

pub pack-eq-ok : (w n : ℕ) {b : List ℕ} → pack w n ≡ ok b → (b ≡ le w n) × (n < 256 ^ w)
unfolding pack
pack-eq-ok w n h = ground arith

pub pack_signed-eq-ok :
    (w n : ℕ) {b : List ℕ} → pack_signed w n ≡ ok b → (b ≡ le w n) × (n < 256 ^ w / 2)
unfolding pack_signed
pack_signed-eq-ok w n h = ground arith

pub pack_fits : (w n : ℕ) → n < 256 ^ w → pack w n ≡ ok (le w n)
unfolding pack
pack_fits w n h = ground arith

pub pack_signed_fits : (w n : ℕ) → n < 256 ^ w / 2 → pack_signed w n ≡ ok (le w n)
unfolding pack_signed
pack_signed_fits w n h = ground arith

pub pack_all_fits : (xs : List ℕ) → All (λ x. x < 2 ^ 32) xs → pack_all xs ≡ ok (words xs)
unfolding pack_all words
pack_all_fits [] h = refl
pack_all_fits (x ∷ xs) h = rw (pack_fits 4 x h.0, ◌>>=◌, pack_all_fits xs h.1)

pub pack_all-eq-ok :
    (xs : List ℕ) {b : List ℕ} → pack_all xs ≡ ok b → (b ≡ words xs) × All (λ x. x < 2 ^ 32) xs
unfolding pack_all words
pack_all-eq-ok [] h = (cc, tt)
pack_all-eq-ok (x ∷ xs) {b} h =
    let (a, p, r) = >>=-eq-ok (pack 4 x) (λ b. pack_all xs >>= (λ bs. ok (b ++ bs))) h in
    let (bs, q, last) = >>=-eq-ok (pack_all xs) (λ bs. ok (a ++ bs)) r in
    let (e, small) = pack-eq-ok 4 x p in let (e', rest) = pack_all-eq-ok xs q in (cc, (small, rest))

pub length-words : (xs : List ℕ) → length (words xs) ≡ length xs * 4
unfolding words
length-words [] = omega arith
length-words (x ∷ xs) =
    omega (arith, length-append (le 4 x) (words xs), length-le 4 x, length-words xs)

pub le-IsByte : (w n : ℕ) → All IsByte (le w n)
unfolding le
le-IsByte zero n = tt
le-IsByte (suc w) n = (omega arith, le-IsByte w (n / 256))

pub from_le-le : (w n : ℕ) → n < 256 ^ w → from_le (le w n) ≡ n
unfolding le from_le
from_le-le zero n h = omega arith
from_le-le (suc w) n h =
    omega (arith, from_le-le w (n / 256) (omega (arith, rw (pow-suc 256 w) at h)))
