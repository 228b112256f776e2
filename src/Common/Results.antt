-- ===== src/Common/Results.antt =====
-- A value or an error, for Go's (T, error) where the value beside an error is the zero value.
use mathlib.Core.Path.{◌≡◌, refl}
use mathlib.Core.Logic.{◌⊎◌, inl, inr}
use mathlib.Core.Bool.{Bool, true, false}

pub data Result {ℓ κ} (E : Type ℓ) (A : Type κ) : Type (ℓ ⊔ κ) where
  err : E → Result E A
  ok : A → Result E A

-- `if test { return reason }`.
abbrev pub fail_if {ℓ} : {E : Type ℓ} → Bool → E → Result E (Unit {0})
fail_if false _ = ok tt
fail_if true reason = err reason

module _ {ℓ κ μ} {E : Type ℓ} {A : Type κ} {B : Type μ} where
  infixl 5 ◌>>=◌
  abbrev pub ◌>>=◌ : Result E A → (A → Result E B) → Result E B
  err reason >>= next = err reason
  ok x >>= next = next x

  -- Where the whole succeeds, the first part did, and the rest did on its value.
  pub >>=-eq-ok :
      (first : Result E A) (next : A → Result E B) {y : B}
      → (first >>= next) ≡ ok y
      → (x : A) × (first ≡ ok x) × (next x ≡ ok y)
  >>=-eq-ok (err reason) next done = cc
  >>=-eq-ok (ok x) next done = (x, refl, done)

module _ {ℓ κ} {E : Type ℓ} {A : Type κ} where
  infixl 5 ◌>>◌
  abbrev pub ◌>>◌ : Result E (Unit {0}) → Result E A → Result E A
  check >> rest = check >>= λ _. rest

  pub Result-cases : (m : Result E A) → ((reason : E) × (m ≡ err reason)) ⊎ ((x : A) × (m ≡ ok x))
  Result-cases (err reason) = inl (reason, refl)
  Result-cases (ok x) = inr (x, refl)

  pub ok-injective : {x y : A} → ◌≡◌ {A = Result E A} (ok x) (ok y) → x ≡ y
  ok-injective same = cc

  -- Where a check and what follows it succeed, both do.
  pub >>-eq-ok :
      (check : Result E (Unit {0})) (rest : Result E A) {y : A}
      → (check >> rest) ≡ ok y
      → (check ≡ ok tt) × (rest ≡ ok y)
  >>-eq-ok (err reason) rest done = cc
  >>-eq-ok (ok tt) rest done = (refl, done)

  pub fail_if-eq-ok :
      (test : Bool) (reason : E) (rest : Result E A) {y : A}
      → (fail_if test reason >> rest) ≡ ok y
      → (test ≡ false) × (rest ≡ ok y)
  fail_if-eq-ok true reason rest done = cc
  fail_if-eq-ok false reason rest done = (refl, done)
