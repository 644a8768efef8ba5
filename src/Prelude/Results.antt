-- ===== src/Prelude/Results.antt =====
-- Go's `(value, error)`: a value or an error, with the early return as bind.
use mathlib.Core.Path.{◌≡◌, refl}
use mathlib.Core.Logic.{◌⊎◌, inl, inr}
use mathlib.Core.Bool.{Bool, true, false}
use mathlib.Core.Option.{Option, none, some}
use lanmon.Prelude.Tests.{if◌then◌else◌}

pub data Result {ℓ} (E : Type 0) (A : Type ℓ) : Type ℓ where
  err : E → Result E A
  ok : A → Result E A

module _ {ℓ κ} {E : Type 0} {A : Type ℓ} {B : Type κ} where
  infixl 5 ◌>>=◌
  abbrev pub ◌>>=◌ : Result E A → (A → Result E B) → Result E B
  err e >>= next = err e
  ok a >>= next = next a

  -- Inversion of a chain that returns no error.
  pub >>=-eq-ok :
      (r : Result E A) (next : A → Result E B) {b : B}
      → (r >>= next) ≡ ok b
      → (a : A) × (r ≡ ok a) × (next a ≡ ok b)
  >>=-eq-ok (err e) next same = cc
  >>=-eq-ok (ok a) next same = (a, refl, same)

-- `if err != nil { return err }` on a call that returns nothing else.
infixl 5 ◌>>◌
abbrev pub ◌>>◌ {ℓ} : {E : Type 0} {A : Type ℓ} → Result E (Unit {0}) → Result E A → Result E A
err e >> rest = err e
ok _ >> rest = rest

pub Result-cases : {E : Type 0} (r : Result E (Unit {0})) → (r ≡ ok tt) ⊎ ((e : E) × (r ≡ err e))
Result-cases (err e) = inr (e, refl)
Result-cases (ok tt) = inl refl

abbrev pub or_error {ℓ} : {E : Type 0} {A : Type ℓ} → E → Option A → Result E A
or_error e none = err e
or_error e (some a) = ok a

-- A call behind a guard that gave no error.
pub guarded-ok {ℓ} :
    {E : Type 0} {A : Type ℓ} (c : Bool) (r : Result E A) (e : E) (a : A)
    → (if c then r else err e) ≡ ok a
    → (c ≡ true) × (r ≡ ok a)
guarded-ok true r e a h = (refl, h)
guarded-ok false r e a h = absurd cc

pub or_error-ok {ℓ} :
    {E : Type 0} {A : Type ℓ} (e : E) (o : Option A) (a : A) → or_error e o ≡ ok a → o ≡ some a
or_error-ok e none a h = absurd cc
or_error-ok e (some b) a h = cc
