-- ===== src/Mkfs/Methods.antt =====
-- Results of the methods of `Fs` in tools/mkfs.py.
use mame_sys.Base.{ℕ, ◌+◌, ◌≤◌, ◌≡◌, refl, ap, arith}
use mame_sys.Base.Result.{Result, Fault, ok, err}
use mame_sys.Mkfs.{Fs, Method, ◌>>=◌}

-- A method that ends with a result went through its first half with one.
pub method-eq-ok :
    {A B : Type 0} (m : Method A) (f : A → Method B) (fs : Fs) {b : B} {last : Fs}
    → (m >>= f) fs ≡ ok (b, last)
    → (a : A) × (next : Fs) × (m fs ≡ ok (a, next)) × (f a next ≡ ok (b, last))
method-eq-ok {A} {B} m f fs {b} {last} e = on (m fs) refl e
  where
    on :
        (r : Result (A × Fs))
        → m fs ≡ r
        → elim r [ ok (a, next) ↦ f a next | err fault ↦ err fault ] ≡ ok (b, last)
        → (a : A) × (next : Fs) × (m fs ≡ ok (a, next)) × (f a next ≡ ok (b, last))
    on (ok (a, next)) h e = (a, next, h, e)
    on (err fault) h e = cc

-- `k` blocks were given out.
pub record Gave (k : ℕ) (fs fs' : Fs) : Type 0 where
  pub nblocks : fs'.nblocks ≡ fs.nblocks
  pub next : fs'.next_block ≡ fs.next_block + k
  pub within : fs.next_block ≤ fs.nblocks → fs'.next_block ≤ fs.nblocks

pub Gave-then :
    {j k n : ℕ} {fs fs₁ fs₂ : Fs} → Gave j fs fs₁ → Gave k fs₁ fs₂ → j + k ≡ n → Gave n fs fs₂
Gave-then g h sum = record {
  nblocks = omega (arith, g.nblocks, h.nblocks);
  next = omega (arith, g.next, h.next);
  within =
      λ le. omega (arith, g.within le, h.within (omega (arith, g.within le, g.nblocks)), g.nblocks);
}

-- A property of a result holds of what the result is known to be.
pub by_result :
    {A B : Type 0} (P : A → B → Type 0) (r r' : A × B) → ok r ≡ ok r' → P r.0 r.1 → P r'.0 r'.1
by_result P r r' e p = let same : r ≡ r' = cc in rw (← same) p

-- A fault is no result.
pub no_result : {A X : Type 0} (fault : Fault) (a : A) → err fault ≡ ok a → X
no_result fault a e = absurd cc

-- What a method ends with, read off its result.
pub ok-state : {A : Type 0} (r r' : A × Fs) → ok r ≡ ok r' → r.1 ≡ r'.1
ok-state r r' e = let same : r ≡ r' = cc in ap (λ q. q.1) same

pub ok-value : {A : Type 0} (r r' : A × Fs) → ok r ≡ ok r' → r.0 ≡ r'.0
ok-value r r' e = let same : r ≡ r' = cc in ap (λ q. q.0) same
