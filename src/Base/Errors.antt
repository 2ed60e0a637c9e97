-- ===== src/Base/Errors.antt =====
-- Exceptions as values: the class of the exception and its message.
use Prim.Native.String.{String}
use mathlib.Core.Path.{◌≡◌, refl}
use mathlib.Core.Bool.{Bool, true, false}

pub data Error : Type 0 where
  value_error : String → Error
  runtime_error : String → Error
  key_error : String → Error
  illegal_transition_error : String → Error
  index_error : String → Error
  os_error : String → Error
  timeout_error : String → Error

pub data Result {ℓ} (Returned : Type ℓ) : Type ℓ where
  err : (raised : Error) → Result Returned
  ok : (value : Returned) → Result Returned

-- A statement with no value, and then the rest of the body.
infixl 5 ◌>>◌
abbrev pub ◌>>◌ {μ} : {R : Type μ} → Result (Unit {0}) → Result R → Result R
err raised >> next = err raised
ok done >> next = next

-- A call whose value the rest of the body reads.
infixl 5 ◌>>=◌
abbrev pub ◌>>=◌ {κ μ} : {V : Type κ} {R : Type μ} → Result V → (V → Result R) → Result R
err raised >>= next = err raised
ok value >>= next = next value

-- `if b: raise e`.
abbrev pub raise_if : Bool → Error → Result (Unit {0})
raise_if false raised = ok tt
raise_if true raised = err raised

module _ {μ} {R : Type μ} where
  -- A body that returns has a first statement that returns.
  pub >>-eq-ok :
      (first : Result (Unit {0})) (next : Result R) {r : R}
      → (first >> next) ≡ ok r
      → (first ≡ ok tt) × (next ≡ ok r)
  >>-eq-ok (err raised) next returned = cc
  >>-eq-ok (ok done) next returned = (refl, returned)

  pub >>=-eq-ok {κ} :
      {V : Type κ} (first : Result V) (next : V → Result R) {r : R}
      → (first >>= next) ≡ ok r
      → (value : V) × (first ≡ ok value) × (next value ≡ ok r)
  >>=-eq-ok (err raised) next returned = cc
  >>=-eq-ok (ok value) next returned = (value, refl, returned)

pub raise_if-eq-ok : (b : Bool) (raised : Error) → raise_if b raised ≡ ok tt → b ≡ false
raise_if-eq-ok true raised returned = cc
raise_if-eq-ok false raised returned = refl
