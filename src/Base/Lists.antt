-- ===== src/Base/Lists.antt =====
-- Lists measured and cut by native numbers, under the library's names. `take`, `drop` and
-- `replicate` are shut, since the program cuts at large constants; their laws are below.
use Prim.Native.Nat.{ℕ, zero, suc, ◌+◌, ◌-◌, ◌≤◌, min}
use mathlib.Core.Path.{◌≡◌, refl, sym, ap, ◌∙◌}
use mathlib.Core.List.{List, [], ◌∷◌, ◌++◌, append-nil}
use native.Mathlib.Omega.{arith}
use native.Mathlib.Nat.{zero-add, suc-add, add-zero, zero-sub, sub-zero, suc-sub-suc}

module _ {ℓ} {A : Type ℓ} where
  abbrev pub length : List A → ℕ
  length [] = 0
  length (x ∷ xs) = suc (length xs)

  unfoldable pub take : ℕ → List A → List A
  take zero xs = []
  take (suc n) [] = []
  take (suc n) (x ∷ xs) = x ∷ take n xs

  unfoldable pub drop : ℕ → List A → List A
  drop zero xs = xs
  drop (suc n) [] = []
  drop (suc n) (x ∷ xs) = drop n xs

  unfoldable pub replicate : ℕ → A → List A
  replicate zero a = []
  replicate (suc n) a = a ∷ replicate n a

  -- A write out of bounds changes nothing.
  abbrev pub set : List A → ℕ → A → List A
  set [] i v = []
  set (x ∷ xs) zero v = v ∷ xs
  set (x ∷ xs) (suc i) v = x ∷ set xs i v

  abbrev pub get_or : List A → ℕ → A → A
  get_or [] i d = d
  get_or (x ∷ xs) zero d = x
  get_or (x ∷ xs) (suc i) d = get_or xs i d

  abbrev pub All {κ} : (A → Type κ) → List A → Type κ
  All P [] = Unit {κ}
  All P (x ∷ xs) = P x × All P xs

module _ {ℓ} {A : Type ℓ} where
  pub length-append : (xs ys : List A) → length (xs ++ ys) ≡ length xs + length ys
  length-append [] ys = omega arith
  length-append (x ∷ xs) ys = omega (arith, length-append xs ys)

  pub length-take : (n : ℕ) (xs : List A) → length (take n xs) ≡ min n (length xs)
  unfolding take
  length-take zero xs = omega arith
  length-take (suc n) [] = omega arith
  length-take (suc n) (x ∷ xs) = omega (arith, length-take n xs)

  pub length-drop : (n : ℕ) (xs : List A) → length (drop n xs) ≡ length xs - n
  unfolding drop
  length-drop zero xs = omega arith
  length-drop (suc n) [] = omega arith
  length-drop (suc n) (x ∷ xs) = omega (arith, length-drop n xs)

  pub length-replicate : (n : ℕ) (a : A) → length (replicate n a) ≡ n
  unfolding replicate
  length-replicate zero a = refl
  length-replicate (suc n) a = ap suc (length-replicate n a)

  pub take-append-drop : (n : ℕ) (xs : List A) → take n xs ++ drop n xs ≡ xs
  unfolding take drop
  take-append-drop zero xs = refl
  take-append-drop (suc n) [] = refl
  take-append-drop (suc n) (x ∷ xs) = ap (◌∷◌ x) (take-append-drop n xs)

  pub take_all : (n : ℕ) (xs : List A) → length xs ≤ n → take n xs ≡ xs
  unfolding take
  take_all zero [] h = refl
  take_all zero (x ∷ xs) h = absurd (omega arith)
  take_all (suc n) [] h = refl
  take_all (suc n) (x ∷ xs) h = ap (◌∷◌ x) (take_all n xs (omega arith))

  pub drop_all : (n : ℕ) (xs : List A) → length xs ≤ n → drop n xs ≡ []
  unfolding drop
  drop_all zero [] h = refl
  drop_all zero (x ∷ xs) h = absurd (omega arith)
  drop_all (suc n) [] h = refl
  drop_all (suc n) (x ∷ xs) h = drop_all n xs (omega arith)

  pub take-zero : (xs : List A) → take 0 xs ≡ []
  unfolding take
  take-zero xs = refl

  pub drop-zero : (xs : List A) → drop 0 xs ≡ xs
  unfolding drop
  drop-zero xs = refl

  pub take-append :
      (n : ℕ) (xs ys : List A) → take n (xs ++ ys) ≡ take n xs ++ take (n - length xs) ys
  unfolding take
  take-append zero xs ys = rw zero-sub
  take-append (suc n) [] ys = rw sub-zero
  take-append (suc n) (x ∷ xs) ys = rw suc-sub-suc (ap (◌∷◌ x) (take-append n xs ys))

  pub drop-append :
      (n : ℕ) (xs ys : List A) → drop n (xs ++ ys) ≡ drop n xs ++ drop (n - length xs) ys
  unfolding drop
  drop-append zero xs ys = rw zero-sub
  drop-append (suc n) [] ys = rw sub-zero
  drop-append (suc n) (x ∷ xs) ys = rw suc-sub-suc (drop-append n xs ys)

  pub drop-drop : (a b : ℕ) (xs : List A) → drop a (drop b xs) ≡ drop (b + a) xs
  unfolding drop
  drop-drop a zero xs = rw zero-add
  drop-drop zero (suc b) [] = rw add-zero
  drop-drop (suc a) (suc b) [] = rw suc-add
  drop-drop zero (suc b) (x ∷ xs) = rw suc-add (drop-drop 0 b xs)
  drop-drop (suc a) (suc b) (x ∷ xs) = rw suc-add (drop-drop (suc a) b xs)

  pub drop-take : (a n : ℕ) (xs : List A) → drop a (take n xs) ≡ take (n - a) (drop a xs)
  unfolding take drop
  drop-take zero n xs = rw sub-zero
  drop-take (suc a) zero xs = rw zero-sub
  drop-take (suc a) (suc n) [] = sym (take_all (suc n - suc a) [] (omega arith))
  drop-take (suc a) (suc n) (x ∷ xs) = rw suc-sub-suc (drop-take a n xs)

  pub take-take : (a b : ℕ) (xs : List A) → a ≤ b → take a (take b xs) ≡ take a xs
  unfolding take
  take-take zero b xs h = refl
  take-take (suc a) zero xs h = absurd (omega arith)
  take-take (suc a) (suc b) [] h = refl
  take-take (suc a) (suc b) (x ∷ xs) h = ap (◌∷◌ x) (take-take a b xs (omega arith))

  pub take-append_left : (n : ℕ) (xs ys : List A) → n ≡ length xs → take n (xs ++ ys) ≡ xs
  take-append_left n xs ys e =
      let f : n - length xs ≡ 0 = omega arith in
      take-append n xs ys ∙ rw (f, take-zero, take_all n xs (omega arith)) (append-nil xs)

  pub drop-append_left : (n : ℕ) (xs ys : List A) → n ≡ length xs → drop n (xs ++ ys) ≡ ys
  drop-append_left n xs ys e =
      let f : n - length xs ≡ 0 = omega arith in
      drop-append n xs ys ∙ rw (f, drop-zero, drop_all n xs (omega arith))

  pub replicate-append : (a b : ℕ) (x : A) → replicate a x ++ replicate b x ≡ replicate (a + b) x
  unfolding replicate
  replicate-append zero b x = rw zero-add
  replicate-append (suc a) b x = rw suc-add (ap (◌∷◌ x) (replicate-append a b x))

  pub drop-replicate : (n m : ℕ) (x : A) → drop n (replicate m x) ≡ replicate (m - n) x
  unfolding drop replicate
  drop-replicate zero m x = rw sub-zero
  drop-replicate (suc n) zero x = rw zero-sub
  drop-replicate (suc n) (suc m) x = rw suc-sub-suc (drop-replicate n m x)

  pub take-replicate : (n m : ℕ) (x : A) → n ≤ m → take n (replicate m x) ≡ replicate n x
  unfolding take replicate
  take-replicate zero m x h = refl
  take-replicate (suc n) zero x h = absurd (omega arith)
  take-replicate (suc n) (suc m) x h = ap (◌∷◌ x) (take-replicate n m x (omega arith))
