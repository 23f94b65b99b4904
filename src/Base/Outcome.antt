-- ===== src/Base/Outcome.antt =====
-- Rust's `Result`, with one outcome more: `aborted`, for a run that does not return (a panic, or a loop
-- of the model that is cut off). The bind is the `?` operator, and `or_err` is `ok_or`.
use mathlib.Core.Path.{◌≡◌, refl}
use mathlib.Core.Bool.{Bool, true, false}
use mathlib.Core.Option.{Option, none, some}

pub data Result {ℓ κ} (E : Type ℓ) (A : Type κ) : Type (ℓ ⊔ κ) where
  ok : A → Result E A
  err : E → Result E A
  aborted : Result E A

infixl 5 ◌>>=◌ ◌>>◌
abbrev pub ◌>>=◌ {ℓ κ μ} :
    {E : Type ℓ} {A : Type κ} {B : Type μ} → Result E A → (A → Result E B) → Result E B
aborted >>= further = aborted
err reason >>= further = err reason
ok value >>= further = further value

abbrev pub ◌>>◌ {ℓ μ} : {E : Type ℓ} {B : Type μ} → Result E (Unit {0}) → Result E B → Result E B
first >> second = first >>= λ _. second

abbrev pub or_err {ℓ κ} : {E : Type ℓ} {A : Type κ} → Option A → E → Result E A
or_err none e = err e
or_err (some a) e = ok a

-- `unwrap`, or an index out of range, which panics.
abbrev pub or_abort {ℓ κ} : {E : Type ℓ} {A : Type κ} → Option A → Result E A
or_abort none = aborted
or_abort (some a) = ok a

-- An early return of an error when the test fails.
abbrev pub guard {ℓ} : {E : Type ℓ} → Bool → E → Result E (Unit {0})
guard true e = ok tt
guard false e = err e

-- A value was produced, and it meets the predicate; any other outcome meets nothing.
abbrev pub Returns {ℓ κ} : {E : Type ℓ} {A : Type κ} → (A → Type 0) → Result E A → Type 0
Returns P (ok a) = P a
Returns P (err e) = ⊥
Returns P aborted = ⊥

pub >>=-eq-ok {ℓ κ μ} :
    {E : Type ℓ} {A : Type κ} {B : Type μ} (step : Result E A) (further : A → Result E B) {out : B}
    → (step >>= further) ≡ ok out
    → (value : A) × (step ≡ ok value) × (further value ≡ ok out)
>>=-eq-ok (ok value) further done = (value, refl, done)
>>=-eq-ok (err reason) further done = cc
>>=-eq-ok aborted further done = cc
