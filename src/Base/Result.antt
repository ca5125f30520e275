-- ===== src/Base/Result.antt =====
-- What a tool can end with in place of a result: `sys.exit` with a message, or an exception. Either
-- way nothing has been written to the output file yet, so a fault carries no state.
use mathlib.Core.Path.{◌≡◌, refl, ap, ◌∙◌}
use mathlib.Core.Bool.{Bool, true, false}

pub data Fault : Type 0 where
  -- `sys.exit`
  image_full : Fault
  out_of_inodes : Fault
  triple_indirection : Fault
  name_too_long : Fault
  link_target_missing : Fault
  not_coff : Fault
  bad_optional_header : Fault
  bad_magic : Fault
  data_overlaps_text : Fault
  -- exceptions
  struct_error : Fault
  assertion_error : Fault
  index_error : Fault
  key_error : Fault
  value_error : Fault
  recursion_error : Fault

pub data Result {ℓ} (Value : Type ℓ) : Type ℓ where
  err : Fault → Result Value
  ok : Value → Result Value

-- `if not test: sys.exit(…)` or `raise …`
abbrev pub guard : Bool → Fault → Result (Unit {0})
guard test fault = elim test [ false ↦ err fault | true ↦ ok tt ]

module _ {ℓ κ} {Value : Type ℓ} {Next : Type κ} where
  infixl 5 ◌>>=◌
  abbrev pub ◌>>=◌ : Result Value → (Value → Result Next) → Result Next
  err fault >>= next = err fault
  ok value >>= next = next value

  -- A run that ends with a result has gone through one.
  pub >>=-eq-ok :
      (first : Result Value) (next : Value → Result Next) {last : Next}
      → (first >>= next) ≡ ok last
      → (value : Value) × (first ≡ ok value) × (next value ≡ ok last)
  >>=-eq-ok (err fault) next e = cc
  >>=-eq-ok (ok value) next e = (value, refl, e)

  pub >>=-cong :
      {first first' : Result Value} {next next' : Value → Result Next}
      → first ≡ first'
      → ((value : Value) → next value ≡ next' value)
      → (first >>= next) ≡ (first' >>= next')
  >>=-cong {first} {first'} {next} {next'} e es = ap (λ m. m >>= next) e ∙ on first'
    where
      on : (m : Result Value) → (m >>= next) ≡ (m >>= next')
      on (err fault) = refl
      on (ok value) = es value

infixl 5 ◌>>◌
abbrev pub ◌>>◌ {ℓ} : {Next : Type ℓ} → Result (Unit {0}) → Result Next → Result Next
◌>>◌ first next = first >>= (λ done. next)

-- The computation ends with a result.
abbrev pub Succeeds {ℓ} : {Value : Type ℓ} → Result Value → Type ℓ
Succeeds {Value = Value} run = (value : Value) × (run ≡ ok value)

pub >>=-Succeeds {ℓ κ} :
    {Value : Type ℓ} {Next : Type κ} (first : Result Value) (next : Value → Result Next)
    → Succeeds first
    → ((value : Value) → first ≡ ok value → Succeeds (next value))
    → Succeeds (first >>= next)
>>=-Succeeds first next (value, e) more = rw e (more value e)
